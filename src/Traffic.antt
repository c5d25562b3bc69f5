-- ===== src/Traffic.antt =====
-- crates/hawse-core/src/traffic.rs: what the services of a client carry, as running totals. A meter
-- and the flag it shares with the others of its client are one value; `Traffic` keeps the meters by
-- service and that flag. The counters are atomics that wrap at 64 bits, and the order of their
-- updates is the order of the events.
pub mod Tally
pub mod Totals
use hawse.Base.{ℕ, ◌+◌, ◌-◌, ◌%◌, ◌^◌, List, [], ◌∷◌, Bool, true, false, Option, none, some}
use hawse.Base.Dict.{Dict, get, insert}
use hawse.Base.Text.{text_discrete}

pub record Counts : Type 0 where
  pub open_now : ℕ
  pub visitors : ℕ
  pub down : ℕ
  pub up : ℕ
  pub datagrams_down : ℕ
  pub datagrams_up : ℕ
  pub dropped : ℕ

abbrev pub no_counts : Counts
no_counts = record {
  open_now = 0;
  visitors = 0;
  down = 0;
  up = 0;
  datagrams_down = 0;
  datagrams_up = 0;
  dropped = 0;
}

pub record Meter : Type 0 where
  pub counts : Counts
  pub moving : Bool

-- `Activity::touch`: the flag is set, whichever it was.
unfoldable touch : Meter → Meter
touch m = record m { moving = true }

-- `add`.
unfoldable add : ℕ → ℕ → ℕ
add counter bytes = (counter + bytes) % 2 ^ 64

-- `Meter::toward_local`.
unfoldable toward_local : ℕ → Meter → Meter
unfolding touch add
toward_local bytes m =
    let c = m.counts in touch (record m { counts = record c { down = add c.down bytes } })

-- `Meter::from_local`.
unfoldable from_local : ℕ → Meter → Meter
unfolding touch add
from_local bytes m =
    let c = m.counts in touch (record m { counts = record c { up = add c.up bytes } })

-- `Meter::datagram_toward_local`.
unfoldable datagram_toward_local : ℕ → Meter → Meter
unfolding add toward_local
datagram_toward_local bytes m =
    let c = m.counts in
    toward_local bytes (record m { counts = record c { datagrams_down = add c.datagrams_down 1 } })

-- `Meter::datagram_from_local`.
unfoldable datagram_from_local : ℕ → Meter → Meter
unfolding add from_local
datagram_from_local bytes m =
    let c = m.counts in
    from_local bytes (record m { counts = record c { datagrams_up = add c.datagrams_up 1 } })

-- `Meter::dropped`, which touches nothing.
unfoldable note_dropped : ℕ → Meter → Meter
unfolding add
note_dropped datagrams m =
    let c = m.counts in record m { counts = record c { dropped = add c.dropped datagrams } }

-- `Meter::open`.
unfoldable open_one : Meter → Meter
unfolding touch add
open_one m =
    let c = m.counts in
    touch
      (record m { counts = record c { open_now = add c.open_now 1; visitors = add c.visitors 1 } })

-- `Open::drop`: the counter wraps below 0.
unfoldable close_one : Meter → Meter
unfolding touch add
close_one m =
    let c = m.counts in
    touch (record m { counts = record c { open_now = add c.open_now (2 ^ 64 - 1) } })

-- The calls on one meter.
pub data Call : Type 0 where
  opens closes : Call
  carries_down carries_up datagram_down datagram_up drops : ℕ → Call

unfoldable pub apply : Call → Meter → Meter
unfolding toward_local from_local datagram_toward_local datagram_from_local note_dropped open_one
    close_one
apply opens m = open_one m
apply closes m = close_one m
apply (carries_down n) m = toward_local n m
apply (carries_up n) m = from_local n m
apply (datagram_down n) m = datagram_toward_local n m
apply (datagram_up n) m = datagram_from_local n m
apply (drops n) m = note_dropped n m

pub record Traffic : Type 0 where
  pub meters : Dict (List ℕ) Counts
  pub moving : Bool

abbrev pub new : Traffic
new = record { meters = []; moving = false }

unfoldable or_new : Option Counts → Counts
or_new none = no_counts
or_new (some c) = c

-- `Traffic::meter`: made the first time it is asked for, with the flag of them all.
unfoldable pub meter : List ℕ → Traffic → Meter
unfolding or_new
meter service t = record { counts = or_new (get text_discrete service t.meters); moving = t.moving }

-- `Traffic::take_moved`.
unfoldable pub take_moved : Traffic → Bool × Traffic
take_moved t = (t.moving, record t { moving = false })

-- A service's task asks for its meter and calls it, or a reader starts its next interval.
pub data Event : Type 0 where
  on : List ℕ → Call → Event
  takes : Event

unfoldable pub step : Event → Traffic → Traffic
unfolding meter take_moved
step (on service c) t =
    let m = apply c (meter service t) in
    record { meters = insert text_discrete service m.counts t.meters; moving = m.moving }
step takes t = (take_moved t).1

unfoldable pub run : List Event → Traffic → Traffic
unfolding step
run [] t = t
run (e ∷ es) t = run es (step e t)
