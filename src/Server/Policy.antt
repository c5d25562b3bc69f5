-- ===== src/Server/Policy.antt =====
-- crates/hawse-core/src/server/policy.rs: who may connect and what each client is granted.
pub mod Lookup
use hawse.Base.{List, [], ◌∷◌, Bool, Option, none, some, ◌||◌, if◌then◌else◌, ◌≡◌}
use hawse.Base.Dict.{Dict, get, insert}
use hawse.Base.Net.{IpAddr}
use hawse.Base.Sort.{any}
use hawse.Base.Text.{Text}
use hawse.Proto.Key.{PublicKey, key_discrete}
use hawse.Proto.Port.{Port, PortRange, contains}

pub record Grant (Net : Type 0) : Type 0 where
  pub name : Text
  pub ports : List PortRange
  pub bind : IpAddr
  pub allow : List Net

-- `ClientPolicy` of config.rs, under the name the table has.
pub record ClientPolicy (Net : Type 0) : Type 0 where
  pub key : PublicKey
  pub ports : List PortRange
  pub bind : Option IpAddr
  pub allow : List Net

-- What `from_config` reads of `ServerConfig`: `clients` in the order of their names.
pub record ServerConfig (Net : Type 0) : Type 0 where
  pub bind : IpAddr
  pub clients : List (Text × ClientPolicy Net)

-- `policy.bind.unwrap_or(cfg.bind)`.
unfoldable pub unwrap_or : IpAddr → Option IpAddr → IpAddr
unwrap_or d none = d
unwrap_or d (some a) = a

abbrev pub Policy : Type 0 → Type 0
Policy Net = Dict PublicKey (Grant Net)

module _ {Net : Type 0} where
  unfoldable pub allows : Grant Net → Port → Bool
  allows g p = any (λ range. contains range p) g.ports

  unfoldable pub grant_of : IpAddr → Text × ClientPolicy Net → Grant Net
  grant_of d e = record {
    name = e.0;
    ports = e.1.ports;
    bind = unwrap_or d e.1.bind;
    allow = e.1.allow;
  }

  -- `collect` into the map: each pair replaces an earlier one of its key.
  unfoldable pub collect : IpAddr → List (Text × ClientPolicy Net) → Policy Net → Policy Net
  collect d [] m = m
  collect d (e ∷ l) m = collect d l (insert key_discrete e.1.key (grant_of d e) m)

  unfoldable pub from_config : ServerConfig Net → Policy Net
  from_config cfg = collect cfg.bind cfg.clients []

  unfoldable pub lookup : PublicKey → Policy Net → Option (Grant Net)
  lookup key policy = get key_discrete key policy
