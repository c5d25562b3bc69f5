-- ===== src/Records/Refinement.antt =====
-- `poll_read` against the meaning of the stream: whatever the pieces, the waits and the room.
use hawse.Base.{ℕ, zero, suc, ◌<◌, ◌≤◌, ◌≡◌, refl, ◌∙◌, List, Option, some, length, arith}
use hawse.Records.Reader.{
  Arrival, Reading, collecting, inside, finished, reset_by, Polled, Turn, returns, again, turn,
  Reader, poll_loop, poll_read, rounds,
}
use hawse.Records.Meaning.{wire, norm, Agrees}
use hawse.Records.Turns.{IsValid, measure, given, Tells, Sound, turn-Sound}

-- One poll of the reader `r` that leaves `r'`: the bytes handed out are the next ones of the
-- payload and fit the room, the rest of the stream means what it meant, and an end or an error is
-- the one that the stream has.
pub record Polls (room : ℕ) (r : Reader) (p : Polled) (r' : Reader) : Type 0 where
  pub agrees : Agrees (norm r.state) (wire r.inner) (given p) (norm r'.state) (wire r'.inner)
  pub valid : IsValid r'.state
  pub fits : length (given p) ≤ room
  pub tells : Tells room p r'.state

abbrev Answers : ℕ → Reading → List Arrival → Option (Polled × Reader) → Type 0
Answers room s inner o =
    (p : Polled) × (r' : Reader) × (o ≡ some (p, r'))
    × Polls room (record { state = s; inner = inner }) p r'

Answers-turn :
    (fuel room : ℕ) (s : Reading) (inner : List Arrival) (t : Turn)
    → Sound room s inner t
    → ((s' : Reading) (inner' : List Arrival)
        → IsValid s'
        → measure s' < measure s
        → Answers room s' inner' (poll_loop fuel room s' inner'))
    → Answers room s inner (elim t [
      | returns p s' inner' ↦ some (p, record { state = s'; inner = inner' })
      | again s' inner' ↦ poll_loop fuel room s' inner'
    ])
Answers-turn fuel room s inner (returns p s' inner') h rest = (
  p,
  record { state = s'; inner = inner' },
  refl,
  record { agrees = h.0; valid = h.1; fits = h.2; tells = h.3 },
)
Answers-turn fuel room s inner (again s' inner') h rest =
    let (p, r', e, q) = rest s' inner' h.1 h.2 in
    (
      p,
      r',
      e,
      record {
        agrees = (h.0.0 ∙ q.agrees.0, h.0.1 ∙ q.agrees.1);
        valid = q.valid;
        fits = q.fits;
        tells = q.tells;
      },
    )

measure-pos : (s : Reading) → IsValid s → 0 < measure s
measure-pos (collecting head) v = omega arith
measure-pos (inside left) v = omega arith
measure-pos finished v = omega arith
measure-pos (reset_by code) v = omega arith

measure-le : (s : Reading) → measure s ≤ rounds
measure-le (collecting head) = omega arith
measure-le (inside left) = omega arith
measure-le finished = omega arith
measure-le (reset_by code) = omega arith

poll_loop-Answers :
    (fuel room : ℕ) (s : Reading) (inner : List Arrival)
    → IsValid s
    → measure s ≤ fuel
    → Answers room s inner (poll_loop fuel room s inner)
unfolding poll_loop
poll_loop-Answers zero room s inner v m = absurd (omega (arith, measure-pos s v))
poll_loop-Answers (suc fuel) room s inner v m =
    Answers-turn fuel room s inner (turn room s inner) (turn-Sound room s inner v)
      λ s' inner' v' m'. poll_loop-Answers fuel room s' inner' v' (omega arith)

-- A poll of a reader in any state that it can be left in returns within its rounds. The bytes it hands
-- out are the next ones of the payload and fit the room, what is left of the stream means what it
-- meant, and an end or an error is told only where the reader has come to it.
pub poll_read-Polls :
    (room : ℕ) (r : Reader)
    → IsValid r.state
    → (p : Polled) × (r' : Reader) × (poll_read room r ≡ some (p, r')) × Polls room r p r'
unfolding poll_read
poll_read-Polls room r v = poll_loop-Answers rounds room r.state r.inner v (measure-le r.state)
