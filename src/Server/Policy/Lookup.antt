-- ===== src/Server/Policy/Lookup.antt =====
-- What a policy looks up is what the configuration says of the key.
use hawse.Base.{List, [], ◌∷◌, Option, none, some, ◌≡◌, refl, ite}
use hawse.Base.Dict.{get, insert, get-insert}
use hawse.Base.Net.{IpAddr}
use hawse.Base.Text.{Text}
use hawse.Proto.Key.{PublicKey, key_discrete}
use hawse.Server.Policy.{
  Grant, ClientPolicy, ServerConfig, Policy, grant_of, collect, from_config, lookup,
}

module _ {Net : Type 0} where
  -- The last client of the list that has the key, or `other`.
  pub last_of :
      IpAddr → PublicKey → List (Text × ClientPolicy Net) → Option (Grant Net) → Option (Grant Net)
  last_of d key [] other = other
  last_of d key (e ∷ l) other =
      last_of d key l (ite (key_discrete e.1.key key) (some (grant_of d e)) other)

  get-collect :
      (d : IpAddr) (key : PublicKey) (l : List (Text × ClientPolicy Net)) (m : Policy Net)
      → get key_discrete key (collect d l m) ≡ last_of d key l (get key_discrete key m)
  unfolding collect last_of
  get-collect d key [] m = refl
  get-collect d key (e ∷ l) m = rw (
    get-collect d key l (insert key_discrete e.1.key (grant_of d e) m),
    get-insert key_discrete key e.1.key (grant_of d e) m,
  )

  -- A policy made of a configuration knows exactly the keys of its clients, and grants a key what its
  -- last entry says, the server's address standing in where the entry has none.
  pub lookup-from_config :
      (cfg : ServerConfig Net) (key : PublicKey)
      → lookup key (from_config cfg) ≡ last_of cfg.bind key cfg.clients none
  unfolding lookup from_config get
  lookup-from_config cfg key = get-collect cfg.bind key cfg.clients []
