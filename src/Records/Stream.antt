-- ===== src/Records/Stream.antt =====
-- A `RecordWriter` at one end and a `RecordReader` at the other.
use mathlib.Core.List.{append-nil, append_assoc}
use hawse.Base.{ℕ, suc, ◌≡◌, refl, sym, ap, ◌∙◌, subst, List, [], ◌∷◌, ◌++◌, Option, some, arith}
use hawse.Records.Reader.{
  Arrival, bytes, wait, Reading, collecting, inside, finished, reset_by, Polled, ready, reset_error,
  Reader, poll_read,
}
use hawse.Records.Reader
use hawse.Records.Meaning.{
  Ending, clean, cut, wire, norm, settle, settle_at, payload, ending, end_of, emit, feed,
  after_finish, after_reset, Agrees,
}
use hawse.Records.Turns.{IsValid, given}
use hawse.Records.Refinement.{Polls, poll_read-Polls}
use hawse.Records.Reader.{needed}
use hawse.Records.Writer.{Writer}
use hawse.Records.Wire.{on_wire}
use hawse.Records.Calls.{Carries}

-- What a row of polls, each with room of its own, hands out.
pub data Reads : Reader → List ℕ → Reader → Type 0 where
  start : {r : Reader} → Reads r [] r
  polls :
      {r r' r'' : Reader} (room : ℕ) (p : Polled) {bs : List ℕ}
      → poll_read room r ≡ some (p, r')
      → Reads r' bs r''
      → Reads r (given p ++ bs) r''

some_same {ℓ} : {A : Type ℓ} {a b : A} → some a ≡ some b → a ≡ b
some_same h = cc

polled-Polls :
    (room : ℕ) (r : Reader) (p : Polled) (r' : Reader)
    → IsValid r.state
    → poll_read room r ≡ some (p, r')
    → Polls room r p r'
polled-Polls room r p r' v e =
    let (q, s, e', ok) = poll_read-Polls room r v in
    let same : ◌≡◌ {A = Polled × Reader} (q, s) (p, r') = some_same (sym e' ∙ e) in
    subst (λ (x : Polled × Reader). Polls room r (x.0) (x.1)) same ok

abbrev Since : Reader → List ℕ → Reader → Type 0
Since r bs r' =
    Agrees (norm r.state) (wire r.inner) bs (norm r'.state) (wire r'.inner) × IsValid r'.state

Reads-Since : {r r' : Reader} {bs : List ℕ} → IsValid r.state → Reads r bs r' → Since r bs r'
Reads-Since v start = ((refl, refl), v)
Reads-Since {r} {r'} v (polls {r' = m} room p {bs} e rest) =
    let q = polled-Polls room r p m v e in
    let ih = Reads-Since q.valid rest in
    (
      (
        q.agrees.0
            ∙ ap (◌++◌ (given p)) ih.0.0
            ∙ sym (append_assoc (given p) bs (payload (norm r'.state) (wire r'.inner))),
        q.agrees.1 ∙ ih.0.1,
      ),
      ih.1,
    )

-- What comes after a clean end adds nothing.
clean_prefix :
    (s : Reading) (a tail : List ℕ)
    → ending s a ≡ clean
    → (payload s (a ++ tail) ≡ payload s a) × (ending s (a ++ tail) ≡ clean)
unfolding payload ending
clean_prefix finished [] tail e = after_finish tail
clean_prefix (reset_by code) [] tail e = cc
clean_prefix (inside left) [] tail e = cc
clean_prefix (collecting head) [] tail e = cc
clean_prefix s (b ∷ a) tail e =
    let ih = clean_prefix (feed s b) a tail e in (ap (◌++◌ (emit s b)) ih.0, ih.1)

norm-new : norm (collecting []) ≡ collecting []
unfolding norm settle settle_at needed
norm-new = refl

norm-finished : norm finished ≡ finished
unfolding norm
norm-finished = refl

norm-reset : (code : Option ℕ) → norm (reset_by code) ≡ reset_by code
unfolding norm
norm-reset code = refl

-- All polls so far and one more that gives no bytes and leaves the reader in `t`.
all_read :
    {r r' : Reader} {bs : List ℕ} (inner : List Arrival) (room : ℕ) (p : Polled) (t : Reading)
    (e : Ending)
    → Reads (Reader.new inner) bs r
    → poll_read room r ≡ some (p, r')
    → given p ≡ []
    → (Polls room r p r' → norm r'.state ≡ t)
    → ((rest : List ℕ) → (payload t rest ≡ []) × (ending t rest ≡ e))
    → (payload (collecting []) (wire inner) ≡ bs) × (ending (collecting []) (wire inner) ≡ e)
all_read {r} {r'} {bs} inner room p t e reads last silent state after =
    let (seen, v) = Reads-Since (omega arith) reads in
    let q = polled-Polls room r p r' v last in
    let rest = after (wire r'.inner) in
    let empty : payload (norm r.state) (wire r.inner) ≡ [] =
      q.agrees.0 ∙ rw (silent, state q) rest.0 in
    let ends : ending (norm r.state) (wire r.inner) ≡ e = q.agrees.1 ∙ rw (state q) rest.1 in
    (rw (← norm-new) (seen.0 ∙ rw empty (append-nil bs)), rw (← norm-new) (seen.1 ∙ ends))

whole_stream :
    (w : Writer) (pl : List ℕ) (s : Reading)
    → Carries w pl s
    → (payload (collecting []) (on_wire w) ≡ pl) × (ending (collecting []) (on_wire w) ≡ end_of s)
whole_stream w pl s c =
    let (a, b) = c.says [] in
    unfold payload ending in
    (rw (← append-nil (on_wire w)) (a ∙ append-nil pl), rw (← append-nil (on_wire w)) b)

-- What the writer's calls put on the wire, read to a clean end: it is the whole of what they
-- accepted, and the writer did finish. Bytes that never arrived were not part of it.
pub read_clean :
    (w : Writer) (pl : List ℕ) (s : Reading) (inner : List Arrival) (tail : List ℕ)
    → Carries w pl s
    → wire inner ++ tail ≡ on_wire w
    → {r r' : Reader} {bs : List ℕ} (room : ℕ) → Reads (Reader.new inner) bs r
    → poll_read (suc room) r ≡ some (ready [], r')
    → (bs ≡ pl) × (end_of s ≡ clean)
read_clean w pl s inner tail c arrives {r} {r'} {bs} room reads last =
    let (pay, ends) =
      all_read inner (suc room) (ready []) finished clean reads last refl
        (λ q. rw (q.tells (omega arith)) norm-finished) after_finish in
    let (pay', ends') = clean_prefix (collecting []) (wire inner) tail ends in
    let (whole, end) = whole_stream w pl s c in
    (
      sym pay ∙ sym pay' ∙ ap (payload (collecting [])) arrives ∙ whole,
      sym end ∙ sym (ap (ending (collecting [])) arrives) ∙ ends',
    )

-- What the writer's calls put on the wire, all of it arrived, read to an error: the bytes read are
-- the whole of what the writer accepted, and the error is how the writer left the stream: with the
-- code of its reset, or with none where it neither finished nor reset.
pub read_reset :
    (w : Writer) (pl : List ℕ) (s : Reading) (inner : List Arrival)
    → Carries w pl s
    → wire inner ≡ on_wire w
    → {r r' : Reader} {bs : List ℕ} (room : ℕ) (code : Option ℕ) → Reads (Reader.new inner) bs r
    → poll_read room r ≡ some (reset_error code, r')
    → (bs ≡ pl) × (end_of s ≡ cut code)
read_reset w pl s inner c arrives {r} {r'} {bs} room code reads last =
    let (pay, ends) =
      all_read inner room (reset_error code) (reset_by code) (cut code) reads last refl
        (λ q. rw q.tells (norm-reset code)) (after_reset code) in
    let (whole, end) = whole_stream w pl s c in
    (
      sym pay ∙ ap (payload (collecting [])) arrives ∙ whole,
      sym end ∙ sym (ap (ending (collecting [])) arrives) ∙ ends,
    )
