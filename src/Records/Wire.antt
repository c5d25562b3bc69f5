-- ===== src/Records/Wire.antt =====
-- `RecordWriter` against the meaning of a stream: whatever the stream below takes, and when, what
-- has been sent and queued is a row of whole records.
use hawse.Base.{
  ℕ, zero, suc, ◌<◌, ◌≤◌, ◌≡◌, refl, ap, ◌∙◌, List, [], ◌∷◌, ◌++◌, false, some, length, length-drop,
  take, drop, take-append-drop, ◌==◌, arith,
}
use mathlib.Core.List.{append_assoc}
use hawse.Proto.Record.{head_len, decode, data_head, reset_head, finish_tag, max_data}
use hawse.Base.Bytes.{from_le2-bytes, from_le4-bytes}
use hawse.Records.Reader.{Reading, collecting, inside, finished, reset_by, needed, decoded}
use hawse.Records.Meaning.{
  settle, settle_at, payload, ending, inside_piece, past, Agrees, feed, emit,
}
use hawse.Records.Writer.{Accept, takes, stalls, fails, Progress, done, Writer, drain, poll_drain}

-- The bytes `bs` take a reader in `s` to `t` and say `out`, whatever follows them.
abbrev pub Says : Reading → List ℕ → List ℕ → Reading → Type 0
Says s bs out t = (rest : List ℕ) → Agrees s (bs ++ rest) out t rest

pub Says-trans :
    (s : Reading) (a out : List ℕ) (t : Reading) (b out' : List ℕ) (u : Reading)
    → Says s a out t
    → Says t b out' u
    → Says s (a ++ b) (out ++ out') u
Says-trans s a out t b out' u h k rest =
    rw (append_assoc a b rest, append_assoc out out' (payload u rest))
      ((h (b ++ rest)).0 ∙ ap (◌++◌ out) (k rest).0, (h (b ++ rest)).1 ∙ (k rest).1)

data_header : (n : ℕ) → 0 < n → n ≤ max_data → Says (collecting []) (data_head n) [] (inside n)
unfolding payload ending emit feed settle settle_at needed decoded decode head_len data_head
data_header n pos h rest =
    let whole = from_le2-bytes n (omega arith) in
    let some_bytes : (n == 0) ≡ false = ground arith in rw (whole, some_bytes) (refl, refl)

-- A data record says its payload.
pub data_record :
    (bs : List ℕ)
    → 0 < length bs
    → length bs ≤ max_data
    → Says (collecting []) (data_head (length bs) ++ bs) bs (collecting [])
data_record [] pos h = absurd (omega arith)
data_record (x ∷ xs) pos h =
    Says-trans (collecting []) (data_head (length (x ∷ xs))) [] (inside (length (x ∷ xs))) (x ∷ xs)
      (x ∷ xs) (collecting []) (data_header (length (x ∷ xs)) (omega arith) h)
      λ rest.
        let full : past (length (x ∷ xs)) (length (x ∷ xs)) ≡ collecting [] = ground arith in
        rw full at (inside_piece xs (length (x ∷ xs)) x rest (omega arith))

pub finish_record : Says (collecting []) (finish_tag ∷ []) [] finished
unfolding payload ending emit feed settle settle_at needed decoded decode head_len
finish_record rest = (refl, refl)

pub reset_record :
    (code : ℕ)
    → code < 4294967296
    → Says (collecting []) (reset_head code) [] (reset_by (some code))
unfolding payload ending emit feed settle settle_at needed decoded decode head_len reset_head
reset_record code h rest = rw (from_le4-bytes code h) (refl, refl)

-- All that is on its way: the bytes sent and those queued.
abbrev pub on_wire : Writer → List ℕ
on_wire w = w.sent ++ w.buf

-- What drain leaves: nothing is lost or reordered, and when it is done nothing is queued.
abbrev Drained : List ℕ → List ℕ → Progress × List ℕ × List ℕ × List Accept → Type 0
Drained buf sent (p, buf', sent', inner) =
    (sent' ++ buf' ≡ sent ++ buf) × (p ≡ done → buf' ≡ []) × (length buf' ≤ length buf)

drain-Drained : (inner : List Accept) (buf sent : List ℕ) → Drained buf sent (drain inner buf sent)
unfolding drain
drain-Drained inner [] sent = (refl, λ _. refl, omega arith)
drain-Drained [] (b ∷ bs) sent = (refl, λ e. absurd (cc), omega arith)
drain-Drained (stalls ∷ rest) (b ∷ bs) sent = (refl, λ e. absurd (cc), omega arith)
drain-Drained (fails ∷ rest) (b ∷ bs) sent = (refl, λ e. absurd (cc), omega arith)
drain-Drained (takes zero ∷ rest) (b ∷ bs) sent = (refl, λ e. absurd (cc), omega arith)
drain-Drained (takes (suc n) ∷ rest) (b ∷ bs) sent =
    let ih = drain-Drained rest (drop n bs) (sent ++ b ∷ take n bs) in
    (
      ih.0
          ∙ append_assoc sent (b ∷ take n bs) (drop n bs)
          ∙ ap (λ (l : List ℕ). sent ++ b ∷ l) (take-append-drop n bs),
      ih.1,
      omega (arith, ih.2, length-drop n bs),
    )

-- A drain of the writer moves bytes from the queue to the stream below and changes nothing else.
pub record Moves (w : Writer) (r : Progress × Writer) : Type 0 where
  pub kept : on_wire (r.1) ≡ on_wire w
  pub same_end : (r.1).ended ≡ w.ended
  pub emptied : r.0 ≡ done → (r.1).buf ≡ []
  pub shorter : length (r.1).buf ≤ length w.buf

pub poll_drain-Moves : (w : Writer) → Moves w (poll_drain w)
unfolding poll_drain
poll_drain-Moves w =
    let d = drain-Drained w.inner w.buf w.sent in
    record { kept = d.0; same_end = refl; emptied = d.1; shorter = d.2 }
