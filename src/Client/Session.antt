-- ===== src/Client/Session.antt =====
-- crates/hawse-core/src/client/mod.rs: one session of the client, from its greeting on. The targets and
-- the UDP services, which the source shares with the tasks of its streams, are fields of the session.
-- `emit` hands each event to a channel; the session keeps all that were handed over, and the channel
-- may drop some.
pub mod Bookkeeping
pub mod Loop
pub mod Registering
pub mod Turns
pub mod Reload
pub mod Running
use hawse.Base.{
  ℕ, ◌+◌, ◌-◌, ◌%◌, ◌^◌, List, [], ◌∷◌, ◌++◌, Bool, true, false, ◌&&◌, Option, none, some, ◌==◌,
  if◌then◌else◌, ℕ_discrete,
}
use hawse.Base.Dict.{Dict, get, insert, remove}
use hawse.Base.Net.{IpAddr, v4, v6, SocketAddr, to_canonical}
use hawse.Base.Sets.{add, delete}
use hawse.Base.Text.{Text, text_discrete, codes}
use hawse.Proto.Key.{PublicKey}
use hawse.Proto.Msg.{
  BindFailure, ClientMessage, hello, bind, unbind, ping, pong, ServerMessage, welcome, denied,
  bound, bind_failed, shutdown, ask, answer, printable,
}
use hawse.Proto.Port.{Kind, tcp, udp, Port, kind_of}
use hawse.Client.Events
use hawse.Client.Events.{Event}
use hawse.Client.Failure
use hawse.Client.Failure.{ClientError}
use hawse.Client.Rebind.{Expose, rebind}
use hawse.Client.Udp
use hawse.Client.Udp.{UdpLocal}

-- `Target`: where a visitor of a TCP service is connected to.
pub record Target : Type 0 where
  pub service : Text
  pub local : Text
  pub proxy_protocol : Bool

-- `Services` with the client's targets, its UDP services and its events.
pub record Session (Net : Type 0) : Type 0 where
  pub exposed : Dict Text (Expose Net)
  pub ids : Dict Text ℕ
  pub failed : List Text
  pub unanswered : Dict Text ℕ
  pub targets : Dict ℕ Target
  pub udp : Dict ℕ UdpLocal
  pub events : List Event

-- `exposed.keys().map(|service| (service, 1))`.
unfoldable pub asked_once : {Net : Type 0} → Dict Text (Expose Net) → Dict Text ℕ
asked_once [] = []
asked_once ((service, expose) ∷ exposed) = (service, 1) ∷ asked_once exposed

-- `Services::new`, and the clears before the loop.
unfoldable pub new : {Net : Type 0} → Dict Text (Expose Net) → Session Net
new exposed = record {
  exposed = exposed;
  ids = [];
  failed = [];
  unanswered = asked_once exposed;
  targets = [];
  udp = [];
  events = [];
}

abbrev pub or_default : Option ℕ → ℕ
or_default none = 0
or_default (some n) = n

-- How many binds for a service the server has yet to answer, a u32.
abbrev pub left : {Net : Type 0} → Text → Session Net → ℕ
left service s = or_default (get text_discrete service s.unanswered)

-- `Services::answered`: whether the answer is to the last bind, and the count.
unfoldable pub answered : {Net : Type 0} → Text → Session Net → Bool × Session Net
answered service s =
    let n = left service s - 1 in
    (n == 0, record s { unanswered = insert text_discrete service n s.unanswered })

unfoldable pub asked_again : {Net : Type 0} → Text → Session Net → Session Net
asked_again service s = record s {
  unanswered = insert text_discrete service ((left service s + 1) % 2 ^ 32) s.unanswered;
}

-- `Client::forget`.
unfoldable pub forget : {Net : Type 0} → Option ℕ → Session Net → Session Net
forget none s = s
forget (some id) s = record s {
  targets = remove ℕ_discrete id s.targets;
  udp = remove ℕ_discrete id s.udp;
}

abbrev pub id_of : {Net : Type 0} → Text → Session Net → Option ℕ
id_of service s = get text_discrete service s.ids

-- `self.forget(services.ids.remove(service))`.
unfoldable pub drop_bound : {Net : Type 0} → Text → Session Net → Session Net
drop_bound service s =
    forget (id_of service s) (record s { ids = remove text_discrete service s.ids })

-- `is_unspecified`.
unfoldable pub is_unspecified : IpAddr → Bool
is_unspecified (v4 n) = n == 0
is_unspecified (v6 n) = n == 0

unfoldable pub listener_addr : IpAddr → SocketAddr → ℕ → SocketAddr
listener_addr address dialed port = record {
  ip = to_canonical (if is_unspecified address then dialed.ip else address);
  port = port;
}

-- `IDLE` in nanoseconds, and `SESSION_CAP`.
abbrev pub idle : ℕ
idle = 60000000000

abbrev pub session_cap : ℕ
session_cap = 4096

unfoldable pub register_kind :
    {Net : Type 0} → Kind → Text → ℕ → Expose Net → SocketAddr → Session Net → Session Net
register_kind udp service id expose listener s = record s {
  udp =
      insert ℕ_discrete id
        (Udp.new id idle session_cap (if expose.proxy_protocol then some listener else none)) s.udp;
}
register_kind tcp service id expose listener s = record s {
  targets =
      insert ℕ_discrete id
        (record { service = service; local = expose.local; proxy_protocol = expose.proxy_protocol })
        s.targets;
}

unfoldable pub register_bound :
    {Net : Type 0} → Text → ℕ → Expose Net → SocketAddr → Session Net → Session Net
register_bound service id expose listener s =
    register_kind (kind_of expose.port) service id expose listener s

unfoldable pub emit : {Net : Type 0} → Event → Session Net → Session Net
emit event s = record s { events = s.events ++ event ∷ [] }

-- A `Bound` whose service is exposed and whose answer is the last.
unfoldable pub take_bound :
    {Net : Type 0} → Text → ℕ → ℕ → IpAddr → SocketAddr → Expose Net → Session Net → Session Net
take_bound service id port address remote expose s =
    let s1 = forget (id_of service s) (record s {
      failed = delete text_discrete service s.failed;
      ids = insert text_discrete service id s.ids;
    }) in
    emit (Events.bound service (record { number = port; kind = kind_of expose.port }))
      (register_bound service id expose (listener_addr address remote port) s1)

unfoldable pub heard_bound :
    {Net : Type 0}
    → Text
    → ℕ
    → ℕ
    → IpAddr
    → SocketAddr
    → Bool
    → Option (Expose Net)
    → Session Net
    → Session Net
heard_bound service id port address remote last none s = s
heard_bound service id port address remote false (some expose) s = s
heard_bound service id port address remote true (some expose) s =
    take_bound service id port address remote expose s

unfoldable pub heard_failed : {Net : Type 0} → Text → BindFailure → Bool → Session Net → Session Net
heard_failed service reason false s = s
heard_failed service reason true s =
    let s1 = drop_bound service s in
    emit (Events.bind_failed service reason)
      (record s1 { failed = add text_discrete service s1.failed })

-- The function `answered`: how long a ping took, `elapsed`, when `msg` is its answer.
unfoldable pub timed : ServerMessage → Option (ℕ × ℕ) → Option ℕ
timed (answer nonce) (some (sent, elapsed)) = if nonce == sent then some elapsed else none
timed _ _ = none

unfoldable pub note_time : {Net : Type 0} → Option ℕ → Session Net → Session Net
note_time none s = s
note_time (some elapsed) s = emit (Events.round_trip elapsed) s

-- What a message brings: a reply or the end, with the session after it.
pub data Heard (Net : Type 0) : Type 0 where
  replies : Option (ClientMessage Net) → Session Net → Heard Net
  ends : ClientError → Session Net → Heard Net

unfoldable pub heard_message : {Net : Type 0} → ServerMessage → SocketAddr → Session Net → Heard Net
heard_message (bound service id port address) remote s =
    let (last, s1) = answered service s in
    replies none
      (heard_bound service id port address remote last (get text_discrete service s1.exposed) s1)
heard_message (bind_failed service reason) remote s =
    let (last, s1) = answered service s in replies none (heard_failed service reason last s1)
heard_message (ask nonce) remote s = replies (some (pong nonce)) s
heard_message (answer nonce) remote s = replies none s
heard_message (shutdown reason) remote s = ends (Failure.shutdown (printable reason)) s
heard_message (welcome agent name) remote s = ends (Failure.protocol (codes "a second greeting")) s
heard_message (denied reason key) remote s = ends (Failure.protocol (codes "a second greeting")) s

-- `Client::heard`; `pinged` is the nonce of the last ping and the time since it.
unfoldable pub heard :
    {Net : Type 0} → ServerMessage → SocketAddr → Option (ℕ × ℕ) → Session Net → Heard Net
heard msg remote pinged s = heard_message msg remote (note_time (timed msg pinged) s)

-- The loop of `reexpose` over its messages.
unfoldable pub note_message : {Net : Type 0} → ClientMessage Net → Session Net → Session Net
note_message (unbind service) s = drop_bound service s
note_message (bind w) s = asked_again w.service s
note_message _ s = s

unfoldable pub note_messages : {Net : Type 0} → List (ClientMessage Net) → Session Net → Session Net
note_messages [] s = s
note_messages (msg ∷ msgs) s = note_messages msgs (note_message msg s)

module _ {Net : Type 0} (same : Discrete Net) where
  -- `Client::reexpose`: what to tell the server, and the session.
  unfoldable pub reexpose :
      Dict Text (Expose Net) → Session Net → List (ClientMessage Net) × Session Net
  reexpose next s =
      let msgs = rebind same s.exposed next s.failed in
      let s1 = note_messages msgs (record s { failed = [] }) in (msgs, record s1 { exposed = next })
