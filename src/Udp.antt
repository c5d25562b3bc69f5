-- ===== src/Udp.antt =====
-- crates/hawse-core/src/udp.rs: the way of a UDP payload into the tunnel, and the counts of what was
-- dropped. What the transport does at a call comes in with the call.
pub mod Events
mod Steps
pub mod Account
use hawse.Base.{
  ℕ, ◌+◌, ◌%◌, ◌^◌, List, [], ◌∷◌, ◌++◌, Bool, true, false, Option, none, some, length, ltb, leb,
  if◌then◌else◌,
}
use hawse.Base.Net.{SocketAddr}
use hawse.Proto.Frame.{Framed, ok, err, Postcard}
use hawse.Proto.Msg.{DatagramHeader}
use hawse.Proto.Packet

-- `BULK_QUEUE`.
abbrev pub bulk_queue : ℕ
bulk_queue = 256

-- `fetch_add(1)` on a u64.
abbrev pub bump : ℕ → ℕ
bump n = (n + 1) % 2 ^ 64

-- `Drops` and its snapshot `DropCounts`.
pub record Drops : Type 0 where
  pub bulk_full : ℕ
  pub at_cap : ℕ
  pub unknown : ℕ
  pub socket : ℕ
  pub queue_full : ℕ
  pub not_allowed : ℕ

unfoldable pub no_drops : Drops
no_drops = record {
  bulk_full = 0;
  at_cap = 0;
  unknown = 0;
  socket = 0;
  queue_full = 0;
  not_allowed = 0;
}

abbrev pub count_bulk_full : Drops → Drops
count_bulk_full d = record d { bulk_full = bump d.bulk_full }

abbrev pub count_at_cap : Drops → Drops
count_at_cap d = record d { at_cap = bump d.at_cap }

abbrev pub count_unknown : Drops → Drops
count_unknown d = record d { unknown = bump d.unknown }

abbrev pub count_socket : Drops → Drops
count_socket d = record d { socket = bump d.socket }

abbrev pub count_queue_full : Drops → Drops
count_queue_full d = record d { queue_full = bump d.queue_full }

abbrev pub count_not_allowed : Drops → Drops
count_not_allowed d = record d { not_allowed = bump d.not_allowed }

-- `DropCounts::total`, on u64s.
unfoldable pub total : Drops → ℕ
total d = (d.bulk_full + d.unknown + d.socket + d.queue_full + d.not_allowed) % 2 ^ 64

pub record SentCounts : Type 0 where
  pub datagram : ℕ
  pub bulk : ℕ

pub data TransportError : Type 0 where
  connection no_datagrams datagram_too_large io : TransportError

-- What the transport answers at one call of `dispatch`: `max_datagram_size`,
-- `datagram_send_buffer_space`, and `send_datagram`, where `none` is `Ok(())`.
pub record Route : Type 0 where
  pub max_datagram_size : Option ℕ
  pub buffer_space : ℕ
  pub send_datagram : Option TransportError

-- A sender with what it reaches: the packets that its transport took, its bulk queue, and whether the
-- queue's receiver is still there.
pub record Sender : Type 0 where
  pub drops : Drops
  pub sent : SentCounts
  pub datagrams : List (List ℕ)
  pub queue : List (List ℕ)
  pub receiver : Bool

unfoldable pub new : Sender
new = record {
  drops = no_drops;
  sent = record { datagram = 0; bulk = 0 };
  datagrams = [];
  queue = [];
  receiver = true;
}

-- `self.bulk.try_send(packet)` and its two counts. It fails on a full queue and on one without a
-- receiver.
unfoldable pub try_send : List ℕ → Sender → Sender
try_send packet s =
    if s.receiver
    then if ltb (length s.queue) bulk_queue
      then record s {
        queue = s.queue ++ packet ∷ [];
        sent = record s.sent { bulk = bump s.sent.bulk };
      }
      else record s { drops = count_bulk_full s.drops }
    else record s { drops = count_bulk_full s.drops }

-- The match on `send_datagram`'s result.
unfoldable pub after_send : List ℕ → Option TransportError → Sender → Sender
after_send packet none s = record s {
  datagrams = s.datagrams ++ packet ∷ [];
  sent = record s.sent { datagram = bump s.sent.datagram };
}
after_send packet (some no_datagrams) s = try_send packet s
after_send packet (some datagram_too_large) s = try_send packet s
after_send packet (some connection) s = s
after_send packet (some io) s = s

-- `datagram_send_buffer_space() < packet.len()`.
unfoldable pub note_eviction : Route → List ℕ → Sender → Sender
note_eviction t packet s =
    if ltb t.buffer_space (length packet) then record s { drops = count_queue_full s.drops } else s

-- `max_datagram_size().is_some_and(|max| packet.len() <= max)`.
unfoldable pub fits : Option ℕ → List ℕ → Bool
fits none packet = false
fits (some max) packet = leb (length packet) max

unfoldable pub dispatch : Route → Framed (List ℕ) → Sender → Sender
dispatch t (err e) s = record s { drops = count_socket s.drops }
dispatch t (ok packet) s =
    if fits t.max_datagram_size packet
    then after_send packet t.send_datagram (note_eviction t packet s)
    else try_send packet s

module _ (p : Postcard DatagramHeader) where
  unfoldable pub send : Route → DatagramHeader → List ℕ → Sender → Sender
  send t header payload s = dispatch t (Packet.encode p header payload) s

  unfoldable pub send_from : Route → DatagramHeader → SocketAddr → List ℕ → Sender → Sender
  send_from t header visitor payload s = dispatch t (Packet.encode_from p header visitor payload) s

unfoldable pub recv_first : List (List ℕ) → Sender → Option (List ℕ) × Sender
recv_first [] s = (none, s)
recv_first (packet ∷ queue) s = (some packet, record s { queue = queue })

-- One round of `drain`: the queue's first packet, for the bulk stream.
unfoldable pub recv : Sender → Option (List ℕ) × Sender
recv s = recv_first s.queue s

-- The bulk stream's task is over, and its end of the queue is dropped.
unfoldable pub end_bulk : Sender → Sender
end_bulk s = record s { queue = []; receiver = false }
