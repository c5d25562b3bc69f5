-- ===== src/Udp/Events.antt =====
-- What happens to a sender of crates/hawse-core/src/udp.rs, and the books of its counts.
use hawse.Base.{
  ℕ, ◌+◌, ◌≤◌, ◌≡◌, List, [], ◌∷◌, ◌++◌, true, Option, none, some, length, if◌then◌else◌,
}
use hawse.Proto.Frame.{Framed, ok}
use hawse.Udp.{
  bulk_queue, TransportError, connection, io, Route, Sender, fits, dispatch, recv, end_bulk,
}

-- What happens to a sender: a payload's packet with what the transport does at that call, a round of
-- `drain`, and the end of the bulk stream.
pub data Event : Type 0 where
  sends : Route → Framed (List ℕ) → Event
  drains ends : Event

unfoldable pub take_in : Option (List ℕ) → List (List ℕ) → List (List ℕ)
take_in none taken = taken
take_in (some packet) taken = taken ++ packet ∷ []

-- The sender, and the packets that the bulk stream took.
unfoldable pub step : Event → Sender × List (List ℕ) → Sender × List (List ℕ)
step (sends t packet) (s, taken) = (dispatch t packet s, taken)
step drains (s, taken) = let (first, s') = recv s in (s', take_in first taken)
step ends (s, taken) = (end_bulk s, taken)

unfoldable pub run : List Event → Sender × List (List ℕ) → Sender × List (List ℕ)
run [] x = x
run (e ∷ es) x = run es (step e x)

-- A payload that nothing counts: its packet is a datagram, and the connection is over.
unfoldable pub is_over : Option TransportError → ℕ
is_over (some connection) = 1
is_over (some io) = 1
is_over _ = 0

unfoldable pub lost : Event → ℕ
lost (sends t (ok packet)) = if fits t.max_datagram_size packet then is_over t.send_datagram else 0
lost _ = 0

unfoldable pub is_send : Event → ℕ
is_send (sends t packet) = 1
is_send _ = 0

-- A number of each event, summed.
unfoldable pub sum : (Event → ℕ) → List Event → ℕ
sum f [] = 0
sum f (e ∷ es) = f e + sum f es

-- After `n` payloads of which `gone` were lost with the connection, and `seen` looks at the space of
-- the transport's queue: each of the others was taken by
-- the transport, queued for the bulk stream, too large for a frame, or met a full or ended queue, and
-- is counted once as such; the queue is bounded, and holds exactly what was queued and not yet taken
-- by the bulk stream while that is there.
pub record Accounted (n gone seen : ℕ) (x : Sender × List (List ℕ)) : Type 0 where
  pub each : x.0.sent.datagram + x.0.sent.bulk + x.0.drops.socket + x.0.drops.bulk_full + gone ≡ n
  pub datagrams : x.0.sent.datagram ≡ length x.0.datagrams
  pub queued : x.0.receiver ≡ true → x.0.sent.bulk ≡ length x.1 + length x.0.queue
  pub taken : length x.1 + length x.0.queue ≤ x.0.sent.bulk
  pub bounded : length x.0.queue ≤ bulk_queue
  pub evictions : x.0.drops.queue_full ≤ seen
