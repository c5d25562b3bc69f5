-- ===== src/Server/Session/Stop.antt =====
-- How a service stops: by an unbind, by a reload that takes its grant, and with the end of its task.
use hawse.Base.{
  ℕ, List, [], ◌∷◌, Bool, true, false, ◌&&◌, not, Option, none, some, if◌then◌else◌, ite,
  ℕ_discrete,
}
use hawse.Base.Dict.{Dict, get, remove}
use hawse.Base.Net.{ip_discrete}
use hawse.Base.Sets.{has, add}
use hawse.Base.Text.{Text, codes, text_discrete}
use hawse.Allow.{Nets}
use hawse.Proto.Msg.{ServerMessage, bind_failed, shutdown, not_granted}
use hawse.Proto.Port.{Port}
use hawse.Server.Policy.{Grant, Policy, lookup, allows}
use hawse.Server.Ports.{release}
use hawse.Server.Session.{BoundService, Public, Session, told_unbound, told_ended, tell}

unfoldable pub keys : Dict Text BoundService → List Text
keys [] = []
keys ((service, b) ∷ m) = service ∷ keys m

module _ {Net : Type 0} where
  -- The cancel guard of the service drops, which tells its task to stop.
  unfoldable pub unbind_found : Text → Option BoundService → Session Net → Option Port × Session Net
  unbind_found service none s = (none, s)
  unbind_found service (some b) s = (
    some b.port,
    record s {
      services = remove text_discrete service s.services;
      udp = remove ℕ_discrete b.id s.udp;
      cancelled = add ℕ_discrete b.id s.cancelled;
    },
  )

  unfoldable pub unbind_quietly : Text → Session Net → Option Port × Session Net
  unbind_quietly service s = unbind_found service (get text_discrete service s.services) s

  unfoldable pub told : Text → Option Port × Session Net → Option Port × Session Net
  told service (none, s) = (none, s)
  told service (some port, s) = (some port, tell (told_unbound s.grant.name service port) s)

  unfoldable pub unbind : Text → Session Net → Option Port × Session Net
  unbind service s = told service (unbind_quietly service s)

  -- The end of a task that was told to stop: its socket is gone and its port is given back.
  unfoldable pub let_go_of : ℕ → Option (Public Net) → Session Net → Session Net
  let_go_of id none s = s
  let_go_of id (some t) s = record s {
    tasks = remove ℕ_discrete id s.tasks;
    ports = (release t.port s.ports).1;
  }

  unfoldable pub let_go : ℕ → Session Net → Session Net
  let_go id s =
      if has ℕ_discrete id s.cancelled then let_go_of id (get ℕ_discrete id s.tasks) s else s

  -- The names of the services on a fixed port that the grant no longer has.
  unfoldable pub lost : Grant Net → Dict Text BoundService → List Text
  lost g [] = []
  lost g ((service, b) ∷ m) =
      let rest = lost g m in if b.fixed && not (allows g b.port) then service ∷ rest else rest

  unfoldable pub unbind_all : List Text → Session Net → List ServerMessage × Session Net
  unbind_all [] s = ([], s)
  unbind_all (service ∷ l) s =
      let rest = unbind_all l (unbind service s).1 in
      (bind_failed service not_granted ∷ rest.0, rest.1)

  -- At the end of `serve` every service stops, and nobody is told of each.
  unfoldable pub unbind_each : List Text → Session Net → Session Net
  unbind_each [] s = s
  unbind_each (service ∷ l) s = unbind_each l (unbind_quietly service s).1

  unfoldable pub stop_all : Text → Session Net → Session Net
  stop_all reason s = unbind_each (keys s.services) (tell (told_ended s.grant.name reason) s)

abbrev pub not_authorized : Text
not_authorized = codes "this key is no longer authorized on the server"

abbrev pub grant_changed : Text
grant_changed = codes "this client's grant changed on the server"

module _ (n : Nets) where
  open n use {Net, same}

  unfoldable pub nets_discrete : Discrete (List Net)
  nets_discrete = hlevel same

  -- `(&grant.name, grant.bind, &grant.allow) == (&held.name, held.bind, &held.allow)`.
  unfoldable pub same_terms : Grant Net → Grant Net → Bool
  same_terms g h =
      ite (text_discrete g.name h.name)
        (ite (ip_discrete g.bind h.bind) (ite (nets_discrete g.allow h.allow) true false) false)
        false

  unfoldable pub regrant_to : Option (Grant Net) → Session Net → List ServerMessage × Session Net
  regrant_to none s = (shutdown not_authorized ∷ [], s)
  regrant_to (some g) s =
      if same_terms g s.grant
      then unbind_all (lost g s.services) (record s { grant = g })
      else (shutdown grant_changed ∷ [], s)

  -- `Session::regrant` under the policy of the reload.
  unfoldable pub regrant : Policy Net → Session Net → List ServerMessage × Session Net
  regrant policy s = regrant_to (lookup s.key policy) s
