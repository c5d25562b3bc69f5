-- ===== src/Records/Reader.antt =====
-- `RecordReader`. A poll of the stream below it takes the next `Arrival` from a list, which is how
-- the schedule of the network enters: bytes come in pieces of any size, with waits between them.
use hawse.Base.{
  ℕ, zero, suc, ◌-◌, List, [], ◌∷◌, ◌++◌, Option, none, some, length, take, drop, min, ltb, ◌==◌,
  if◌then◌else◌,
}
use hawse.Proto.Record.{Head, carries, finish, resets, head_len, decode}

-- One thing that the stream below does: bytes come, a poll finds nothing yet, or a poll fails.
pub data Arrival : Type 0 where
  bytes : List ℕ → Arrival
  wait : Arrival
  broken : Arrival

-- What a poll of the stream below gives. No bytes is the end of the stream.
pub data Filled : Type 0 where
  filled : List ℕ → Filled
  not_yet : Filled
  io_error : Filled

-- A poll with a window of `w` bytes: at most that many come out, and the rest stays for the next.
-- A piece of no bytes holds nothing and is passed over.
unfoldable pub poll_inner : ℕ → List Arrival → Filled × List Arrival
poll_inner w [] = (filled [], [])
poll_inner w (wait ∷ rest) = (not_yet, rest)
poll_inner w (broken ∷ rest) = (io_error, rest)
poll_inner w (bytes [] ∷ rest) = poll_inner w rest
poll_inner w (bytes (b ∷ bs) ∷ rest) = (
  filled (take w (b ∷ bs)),
  (if ltb w (length (b ∷ bs)) then bytes (drop w (b ∷ bs)) ∷ rest else rest),
)

-- `Reading`. `collecting` holds the first `have` bytes of the array `head`; the others are never
-- read.
pub data Reading : Type 0 where
  collecting : List ℕ → Reading
  inside : ℕ → Reading
  finished : Reading
  reset_by : Option ℕ → Reading

-- What `poll_read` returns: bytes for the caller (none at the end or where there is no room), the
-- error of a reset, an error of the stream below, or nothing yet.
pub data Polled : Type 0 where
  ready : List ℕ → Polled
  reset_error : Option ℕ → Polled
  failed : Polled
  pending : Polled

-- One round of the loop of `poll_read`: it returns, or goes round again in a new state.
pub data Turn : Type 0 where
  returns : Polled → Reading → List Arrival → Turn
  again : Reading → List Arrival → Turn

-- The arm `Reading::Data` once the window was polled.
unfoldable pub data_turn : ℕ → Filled × List Arrival → Turn
data_turn left (not_yet, inner) = returns pending (inside left) inner
data_turn left (io_error, inner) = returns failed (inside left) inner
data_turn left (filled [], inner) = again (reset_by none) inner
data_turn left (filled (b ∷ bs), inner) =
    let n = length (b ∷ bs) in
    returns (ready (b ∷ bs)) (if left == n then collecting [] else inside (left - n)) inner

-- The arm `Reading::Head` once the window was polled.
unfoldable pub fill_turn : List ℕ → Filled × List Arrival → Turn
fill_turn head (not_yet, inner) = returns pending (collecting head) inner
fill_turn head (io_error, inner) = returns failed (collecting head) inner
fill_turn head (filled [], inner) = again (reset_by none) inner
fill_turn head (filled (b ∷ bs), inner) = again (collecting (head ++ b ∷ bs)) inner

unfoldable pub decoded : Option Head → Reading
decoded (some (carries len)) = inside len
decoded (some finish) = finished
decoded (some (resets code)) = reset_by (some code)
decoded none = reset_by none

-- How long the header is, as far as its bytes tell.
unfoldable pub needed : List ℕ → Option ℕ
unfolding head_len
needed [] = some 1
needed (tag ∷ rest) = head_len tag

unfoldable pub head_turn : List ℕ → Option ℕ → List Arrival → Turn
unfolding fill_turn poll_inner decoded decode
head_turn head none inner = again (reset_by none) inner
head_turn head (some need) inner =
    if ltb (length head) need
    then fill_turn head (poll_inner (need - length head) inner)
    else again (decoded (decode (take need head))) inner

-- The body of the loop. `room` is `out.remaining()`.
unfoldable pub turn : ℕ → Reading → List Arrival → Turn
unfolding head_turn data_turn poll_inner needed
turn room finished inner = returns (ready []) finished inner
turn room (reset_by code) inner = returns (reset_error code) (reset_by code) inner
turn zero (inside left) inner = returns (ready []) (inside left) inner
turn (suc room) (inside left) inner = data_turn left (poll_inner (min left (suc room)) inner)
turn room (collecting head) inner = head_turn head (needed head) inner

pub record Reader : Type 0 where
  pub state : Reading
  pub inner : List Arrival

abbrev pub new : List Arrival → Reader
new inner = record { state = collecting []; inner = inner }

-- `loop` of `poll_read`, on fuel; `none` is out of fuel.
unfoldable pub poll_loop : ℕ → ℕ → Reading → List Arrival → Option (Polled × Reader)
poll_loop zero room s inner = none
poll_loop (suc fuel) room s inner = elim (turn room s inner) [
  | returns p s' inner' ↦ some (p, record { state = s'; inner = inner' })
  | again s' inner' ↦ poll_loop fuel room s' inner'
]

-- A header takes five reads at most, and three more rounds lead from it to a return.
abbrev pub rounds : ℕ
rounds = 8

unfoldable pub poll_read : ℕ → Reader → Option (Polled × Reader)
unfolding poll_loop turn
poll_read room r = poll_loop rounds room r.state r.inner
