-- ===== src/Client/Udp.antt =====
-- crates/hawse-core/src/client/udp.rs: the UDP services of one connection of the client, each with a
-- socket toward its local service for every session of the server. A step is what one task does
-- between two waits: `deliver` waits where it has no socket yet, and `connected` goes on from there
-- with whatever other tasks made of the service meanwhile.
pub mod Quietest
pub mod Entering
use hawse.Base.{
  ℕ, ◌+◌, ◌++◌, List, [], ◌∷◌, Bool, true, false, ◌&&◌, Option, none, some, ◌==◌, leb,
  if◌then◌else◌, ℕ_discrete,
}
use hawse.Base.Dict.{Dict, get, insert, remove, size}
use hawse.Base.Net.{SocketAddr}
use hawse.Proto.Frame.{Framed, ok, err, Postcard}
use hawse.Proto.Msg.{DatagramHeader}
use hawse.Proto.Packet.{decode, decode_from}
use hawse.Proto.Proxy.{v2_udp}
use hawse.Udp
use hawse.Udp.{Route, Sender, Drops, count_at_cap, count_unknown, count_socket}

-- `LocalSession`: `handle` is which one it is, as `Arc::ptr_eq` tells.
pub record LocalSession : Type 0 where
  pub handle : ℕ
  pub used : ℕ

-- `UdpLocal`: `handles` is how many sessions it has made, `cancelled` the ones whose readers it ended,
-- and `queue` whether its bulk queue is still to be taken. Its counts are its sender's, one shared object.
pub record UdpLocal : Type 0 where
  pub id : ℕ
  pub proxy : Option SocketAddr
  pub idle : ℕ
  pub cap : ℕ
  pub sender : Sender
  pub queue : Bool
  pub sessions : Dict ℕ LocalSession
  pub handles : ℕ
  pub cancelled : List ℕ

-- `UdpLocal::new`.
unfoldable pub new : ℕ → ℕ → ℕ → Option SocketAddr → UdpLocal
new id idle cap proxy = record {
  id = id;
  proxy = proxy;
  idle = idle;
  cap = cap;
  sender = Udp.new;
  queue = true;
  sessions = [];
  handles = 0;
  cancelled = [];
}

abbrev pub count : (Drops → Drops) → UdpLocal → UdpLocal
count f l = record l { sender = record l.sender { drops = f l.sender.drops } }

abbrev pub held : ℕ → UdpLocal → Option LocalSession
held id l = get ℕ_discrete id l.sessions

-- `quietest`: the first of the sessions whose use is the longest ago.
unfoldable pub quieter : ℕ → LocalSession → Option (ℕ × LocalSession) → Option (ℕ × LocalSession)
quieter id s none = some (id, s)
quieter id s (some (other, r)) = if leb s.used r.used then some (id, s) else some (other, r)

unfoldable pub quietest : Dict ℕ LocalSession → Option (ℕ × LocalSession)
quietest [] = none
quietest ((id, s) ∷ sessions) = quieter id s (quietest sessions)

-- Evicting: `sessions.remove(&id)`, `gone.cancel.cancel()` and the count.
unfoldable pub evict : Option (ℕ × LocalSession) → UdpLocal → UdpLocal
evict none l = l
evict (some (id, s)) l =
    count count_at_cap
      (record l { sessions = remove ℕ_discrete id l.sessions; cancelled = s.handle ∷ l.cancelled })

-- `slot.insert` of a new session.
unfoldable pub open_session : ℕ → ℕ → UdpLocal → UdpLocal
open_session id now l = record l {
  sessions = insert ℕ_discrete id (record { handle = l.handles; used = now }) l.sessions;
  handles = l.handles + 1;
}

-- What `session` does under the lock once it has a socket.
unfoldable pub enter_held : ℕ → ℕ → Option LocalSession → UdpLocal → UdpLocal
enter_held id now (some s) l = l
enter_held id now none l =
    open_session id now
      (if leb l.cap (size ℕ_discrete l.sessions) then evict (quietest l.sessions) l else l)

unfoldable pub enter : ℕ → ℕ → UdpLocal → UdpLocal
enter id now l = enter_held id now (held id l) l

-- `session.touch()`, of the session that `id` names.
unfoldable pub touch_held : ℕ → ℕ → Option LocalSession → UdpLocal → UdpLocal
touch_held id now none l = l
touch_held id now (some s) l = record l {
  sessions = insert ℕ_discrete id (record s { used = now }) l.sessions;
}

-- A packet's payload, with its visitor and the listener where the service has PROXY headers.
pub record Decoded : Type 0 where
  pub header : DatagramHeader
  pub proxied : Option (SocketAddr × SocketAddr)
  pub payload : List ℕ

-- The datagram for the local service: the PROXY header in front, where there is one.
unfoldable pub datagram : Decoded → List ℕ
datagram d = elim d.proxied [ none ↦ d.payload | some ends ↦ v2_udp ends.0 ends.1 ++ d.payload ]

-- What a step of `deliver` comes to: it is over, it gave the socket of a session a datagram, or it
-- waits for a new socket.
pub data Delivery : Type 0 where
  over : Delivery
  gave : ℕ → List ℕ → Delivery
  waits : Decoded → Delivery

-- `session.socket.send`: `arrived` is whether it succeeds.
unfoldable pub give : ℕ → Bool → Decoded → Option LocalSession → UdpLocal → Delivery × UdpLocal
give now arrived d none l = (waits d, l)
give now arrived d (some s) l =
    let l' = touch_held d.header.session now (some s) l in
    (gave s.handle (datagram d), if arrived then l' else count count_socket l')

unfoldable pub deliver_decoded : ℕ → Bool → Option Decoded → UdpLocal → Delivery × UdpLocal
deliver_decoded now arrived none l = (over, count count_unknown l)
deliver_decoded now arrived (some d) l =
    if d.header.service_id == l.id
    then give now arrived d (held d.header.session l) l
    else (over, count count_unknown l)

-- `connect` came back: `opened` is whether it has a socket.
unfoldable pub connected : Decoded → Bool → ℕ → Bool → UdpLocal → Delivery × UdpLocal
connected d false now arrived l = (over, count count_socket l)
connected d true now arrived l =
    let l' = enter d.header.session now l in give now arrived d (held d.header.session l') l'

-- The two layouts as one.
unfoldable pub plain : Framed (DatagramHeader × List ℕ) → Option Decoded
plain (err e) = none
plain (ok (header, payload)) = some (record { header = header; proxied = none; payload = payload })

unfoldable pub from_visitor :
    SocketAddr → Framed (DatagramHeader × SocketAddr × List ℕ) → Option Decoded
from_visitor listener (err e) = none
from_visitor listener (ok (header, visitor, payload)) =
    some (record { header = header; proxied = some (visitor, listener); payload = payload })

-- `forget`: only while the id is still this session's.
unfoldable pub forget_held : ℕ → ℕ → Option LocalSession → UdpLocal → UdpLocal
forget_held id handle none l = l
forget_held id handle (some s) l =
    if s.handle == handle then record l { sessions = remove ℕ_discrete id l.sessions } else l

unfoldable pub forget : ℕ → ℕ → UdpLocal → UdpLocal
forget id handle l = forget_held id handle (held id l) l

-- The arm of `read_replies` that sleeps until `expires`, for the session `s` it was started with.
unfoldable pub expire : ℕ → LocalSession → ℕ → UdpLocal → UdpLocal
expire id s now l = if leb (s.used + l.idle) now then forget id s.handle l else l

unfoldable pub touch_own : ℕ → ℕ → ℕ → Option LocalSession → UdpLocal → UdpLocal
touch_own id handle now none l = l
touch_own id handle now (some s) l = if s.handle == handle then touch_held id now (some s) l else l

-- The kinds of `io::Error` that the code tells apart.
pub data ErrorKind : Type 0 where
  connection_refused host_unreachable network_unreachable would_block other : ErrorKind

unfoldable pub survivable : ErrorKind → Bool
survivable connection_refused = true
survivable host_unreachable = true
survivable network_unreachable = true
survivable would_block = false
survivable other = false

-- A failed `try_recv`: the reader goes on, or it forgets its session.
unfoldable pub recv_failed : ℕ → ℕ → ErrorKind → UdpLocal → UdpLocal
recv_failed id handle would_block l = l
recv_failed id handle kind l = if survivable kind then l else forget id handle l

module _ (p : Postcard DatagramHeader) where
  unfoldable pub decode_for : Option SocketAddr → List ℕ → Option Decoded
  decode_for none packet = plain (decode p packet)
  decode_for (some listener) packet = from_visitor listener (decode_from p packet)

  unfoldable pub deliver : List ℕ → ℕ → Bool → UdpLocal → Delivery × UdpLocal
  deliver packet now arrived l = deliver_decoded now arrived (decode_for l.proxy packet) l

  -- A reply that the socket of the session `handle` received.
  unfoldable pub reply : ℕ → ℕ → List ℕ → ℕ → Route → UdpLocal → UdpLocal
  reply id handle payload now t l =
      let l' = touch_own id handle now (held id l) l in
      record l' {
        sender = Udp.send p t (record { service_id = l'.id; session = id }) payload l'.sender;
      }
