-- ===== src/Server/Session.antt =====
-- `Session` of crates/hawse-core/src/server/session.rs: one client's services, from the bind to the
-- end of the task that serves each. The host's answer to a bind of an address and a port comes in as
-- a test.
pub mod Installed
pub mod Bind
pub mod Stop
pub mod Sound
pub mod Keeps
pub mod Stops
pub mod Unbinding
pub mod Regrant
use hawse.Base.{
  ℕ, zero, suc, ◌+◌, List, [], ◌∷◌, ◌++◌, Bool, true, false, ◌&&◌, not, Option, none, some, ◌==◌,
  if◌then◌else◌, ite, ◌≡◌, ℕ_discrete,
}
use hawse.Base.Dict.{Dict, get, insert, remove}
use hawse.Base.Net.{IpAddr, ip_discrete}
use hawse.Base.Sets.{has, add, delete}
use hawse.Base.Text.{Text, codes, text_discrete}
use hawse.Allow.{Nets, AllowList, effective}
use hawse.Proto.Key.{PublicKey}
use hawse.Proto.Msg.{
  BindFailure, not_granted, in_use, bad_name, Wanted, ServerMessage, bound, bind_failed, shutdown,
}
use hawse.Proto.Name.{NameError, validate}
use hawse.Proto.Port.{Kind, tcp, udp, Port}
use hawse.Server.Open.{Opened, opened, failed, spinning, open_port}
use hawse.Server.Policy.{Grant, Policy, lookup, allows}
use hawse.Server.Ports.{PortAllocator, release}

pub record BoundService : Type 0 where
  pub id : ℕ
  pub port : Port
  pub fixed : Bool

-- A task that serves a port to the visitors of its allow list, `listener::Public`.
pub record Public (Net : Type 0) : Type 0 where
  pub port : Port
  pub allow : List Net

-- What `UdpService::new` is given.
pub record UdpService (Net : Type 0) : Type 0 where
  pub service : Text
  pub port : Port
  pub allow : List Net
  pub proxy_protocol : Bool

pub data Event : Type 0 where
  told_bound : Text → Text → IpAddr → Port → Event
  told_unbound : Text → Text → Port → Event
  told_ended : Text → Text → Event

-- `tasks` are the tasks that serve a port, by service id, and `cancelled` those of them told to stop.
-- `ports` is the server's, and `events` what was told of the session, the last first.
pub record Session (Net : Type 0) : Type 0 where
  pub key : PublicKey
  pub grant : Grant Net
  pub services : Dict Text BoundService
  pub last_id : ℕ
  pub udp : Dict ℕ (UdpService Net)
  pub tasks : Dict ℕ (Public Net)
  pub cancelled : List ℕ
  pub ports : PortAllocator
  pub events : List Event

-- `u16::checked_add(1)`.
unfoldable pub checked_next : ℕ → Option ℕ
checked_next id = if id == 0xffff then none else some (id + 1)

unfoldable pub is_some {ℓ} : {A : Type ℓ} → Option A → Bool
is_some none = false
is_some (some a) = true

unfoldable pub is_udp : Kind → Bool
is_udp tcp = false
is_udp udp = true

abbrev pub all_used : Text
all_used = codes "this session has used every service id, and a new one starts over"

module _ {Net : Type 0} where
  unfoldable pub tell : Event → Session Net → Session Net
  tell e s = record s { events = e ∷ s.events }

  -- What a bind does once its port is open: it starts the task, and enters the service.
  unfoldable pub enter : Wanted Net → List Net → ℕ → Port → Session Net → Session Net
  enter w allow id port s = record s {
    services =
        insert text_discrete w.service (record { id = id; port = port; fixed = is_some w.port })
          s.services;
    last_id = id;
    udp =
        if is_udp w.kind
        then insert ℕ_discrete id
            (record {
              service = w.service;
              port = port;
              allow = allow;
              proxy_protocol = w.proxy_protocol;
            })
            s.udp
        else s.udp;
    tasks = insert ℕ_discrete id (record { port = port; allow = allow }) s.tasks;
  }

  unfoldable pub bind_opened :
      Wanted Net
      → List Net
      → ℕ
      → Session Net
      → Opened × PortAllocator
      → Option (ServerMessage × Session Net)
  bind_opened w allow id s (failed reason, a) =
      some (bind_failed w.service reason, record s { ports = a })
  bind_opened w allow id s (spinning, a) = none
  bind_opened w allow id s (opened port, a) = some (
    bound w.service id port.number s.grant.bind,
    tell (told_bound s.grant.name w.service s.grant.bind port)
        (enter w allow id port (record s { ports = a })),
  )

module _ (n : Nets) (host : IpAddr → Port → Bool) where
  open n use {Net}

  unfoldable pub bind_numbered :
      Wanted Net → List Net → Option ℕ → Session Net → Option (ServerMessage × Session Net)
  bind_numbered w allow none s = some (shutdown all_used, s)
  bind_numbered w allow (some id) s =
      bind_opened w allow id s (open_port s.grant (host s.grant.bind) w.kind w.port s.ports)

  unfoldable pub bind_allowed :
      Wanted Net → Option (AllowList n) → Session Net → Option (ServerMessage × Session Net)
  bind_allowed w none s = some (bind_failed w.service not_granted, s)
  bind_allowed w (some allow) s = bind_numbered w allow (checked_next s.last_id) s

  -- `Session::bind`; `none` is one that does not end.
  unfoldable pub bind : Wanted Net → Session Net → Option (ServerMessage × Session Net)
  bind w s =
      if is_some (validate w.service)
      then some (bind_failed w.service bad_name, s)
      else if is_some (get text_discrete w.service s.services)
      then some (bind_failed w.service in_use, s)
      else bind_allowed w (effective n w.allow s.grant.allow) s
