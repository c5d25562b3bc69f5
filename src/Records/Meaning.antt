-- ===== src/Records/Meaning.antt =====
-- What a stream of records says, read one byte at a time: the payload it carries and how it ends.
use hawse.Base.{
  ℕ, suc, ◌+◌, ◌-◌, ◌≤◌, ◌≡◌, refl, sym, List, [], ◌∷◌, ◌++◌, Option, none, some, length,
  length-append, take, ltb, ◌==◌, if◌then◌else◌, arith,
}
use mathlib.Core.List.{append_assoc}
use hawse.Proto.Record.{decode}
use hawse.Records.Reader.{
  Arrival, bytes, Reading, collecting, inside, finished, reset_by, needed, decoded,
}

pub data Ending : Type 0 where
  clean : Ending
  cut : Option ℕ → Ending

-- The bytes still to come.
unfoldable pub wire : List Arrival → List ℕ
wire [] = []
wire (bytes bs ∷ rest) = bs ++ wire rest
wire (_ ∷ rest) = wire rest

unfoldable pub settle_at : List ℕ → Option ℕ → Reading
unfolding decoded decode
settle_at head none = reset_by none
settle_at head (some need) =
    if ltb (length head) need then collecting head else decoded (decode (take need head))

-- A header that is whole counts as what it announces.
unfoldable pub settle : List ℕ → Reading
unfolding settle_at needed
settle head = settle_at head (needed head)

unfoldable pub norm : Reading → Reading
unfolding settle
norm (collecting head) = settle head
norm s = s

-- One byte: the state after it.
unfoldable pub feed : Reading → ℕ → Reading
unfolding settle
feed finished b = finished
feed (reset_by code) b = reset_by code
feed (inside left) b = if left == 1 then collecting [] else inside (left - 1)
feed (collecting head) b = settle (head ++ b ∷ [])

-- One byte: what of it is payload.
unfoldable pub emit : Reading → ℕ → List ℕ
emit (inside left) b = b ∷ []
emit _ b = []

unfoldable pub payload : Reading → List ℕ → List ℕ
payload s [] = []
payload s (b ∷ bs) = emit s b ++ payload (feed s b) bs

unfoldable pub end_of : Reading → Ending
end_of finished = clean
end_of (reset_by code) = cut code
end_of _ = cut none

-- A stream that stops before a finish or a reset was cut.
unfoldable pub ending : Reading → List ℕ → Ending
unfolding end_of
ending s [] = end_of s
ending s (b ∷ bs) = ending (feed s b) bs

-- Past its end a stream says nothing more.
pub after_finish : (bs : List ℕ) → (payload finished bs ≡ []) × (ending finished bs ≡ clean)
unfolding payload ending feed emit
after_finish [] = (refl, refl)
after_finish (b ∷ bs) = after_finish bs

pub after_reset :
    (code : Option ℕ) (bs : List ℕ)
    → (payload (reset_by code) bs ≡ []) × (ending (reset_by code) bs ≡ cut code)
unfolding payload ending feed emit
after_reset code [] = (refl, refl)
after_reset code (b ∷ bs) = after_reset code bs

-- Inside a record, a piece no longer than what is left passes through whole.
abbrev pub past : ℕ → ℕ → Reading
past left n = if left == n then collecting [] else inside (left - n)

-- The stream `bs` read in `s` says `out`, and then what `bs'` says in `t`.
abbrev pub Agrees : Reading → List ℕ → List ℕ → Reading → List ℕ → Type 0
Agrees s bs out t bs' = (payload s bs ≡ out ++ payload t bs') × (ending s bs ≡ ending t bs')

Agrees-byte :
    (s : Reading) (b : ℕ) (bs o out : List ℕ) (t : Reading) (bs' : List ℕ)
    → emit s b ≡ o
    → Agrees (feed s b) bs out t bs'
    → Agrees s (b ∷ bs) (o ++ out) t bs'
unfolding payload ending
Agrees-byte s b bs o out t bs' e h = (rw (e, h.0) (sym (append_assoc o out (payload t bs'))), h.1)

feed_inside : (left b : ℕ) → feed (inside left) b ≡ past left 1
unfolding feed
feed_inside left b = refl

pub inside_piece :
    (c : List ℕ) (left b : ℕ) (rest : List ℕ)
    → length (b ∷ c) ≤ left
    → Agrees (inside left) (b ∷ c ++ rest) (b ∷ c) (past left (length (b ∷ c))) rest
unfolding emit
inside_piece [] left b rest h =
    Agrees-byte (inside left) b rest (b ∷ []) [] _ rest refl (rw (feed_inside left b) (refl, refl))
inside_piece (x ∷ c) left b rest h =
    let stays : past left 1 ≡ inside (left - 1) = ground arith in
    let later : past left (length (b ∷ x ∷ c)) ≡ past (left - 1) (length (x ∷ c)) = ground arith in
    Agrees-byte (inside left) b (x ∷ c ++ rest) (b ∷ []) (x ∷ c) _ rest refl
      (rw (feed_inside left b, stays, later) (inside_piece c (left - 1) x rest (omega arith)))

abbrev pub HasRoom : List ℕ → ℕ → Option ℕ → Type 0
HasRoom head n none = ⊥
HasRoom head n (some need) = length head + n ≤ need

-- A header that wants more bytes stays one that is being collected.
pub settle_short :
    (head : List ℕ) (n : ℕ) → HasRoom head (suc n) (needed head) → settle head ≡ collecting head
unfolding settle settle_at
settle_short head n h = ground (arith, h)

HasRoom-snoc :
    (tag : ℕ) (head : List ℕ) (b n : ℕ) (o : Option ℕ)
    → HasRoom (tag ∷ head) (suc n) o
    → HasRoom (tag ∷ head ++ b ∷ []) n o
HasRoom-snoc tag head b n none h = h
HasRoom-snoc tag head b n (some need) h = omega (arith, length-append head (b ∷ []))

pub head_piece :
    (c head : List ℕ) (b : ℕ) (rest : List ℕ)
    → HasRoom head (length (b ∷ c)) (needed head)
    → Agrees (settle head) (b ∷ c ++ rest) [] (settle (head ++ b ∷ c)) rest
unfolding emit feed
head_piece [] head b rest h =
    rw (settle_short head 0 h) (Agrees-byte (collecting head) b rest [] [] _ rest refl (refl, refl))
head_piece (x ∷ c) [] b rest h = absurd (unfold needed in omega arith)
head_piece (x ∷ c) (tag ∷ head) b rest h = rw (settle_short (tag ∷ head) (suc (length c)) h) (
    Agrees-byte (collecting (tag ∷ head)) b (x ∷ c ++ rest) [] [] _ rest refl (
      rw (← append_assoc (tag ∷ head) (b ∷ []) (x ∷ c)) (
        head_piece c (tag ∷ head ++ b ∷ []) x rest
          (HasRoom-snoc tag head b (suc (length c)) (needed (tag ∷ head)) h))))
