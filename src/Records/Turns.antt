-- ===== src/Records/Turns.antt =====
-- One turn of the loop of `poll_read` against the meaning of the stream.
use hawse.Base.{
  ℕ, zero, suc, ◌-◌, ◌<◌, ◌≤◌, ◌≡◌, ◌≢◌, refl, sym, ap, ◌∙◌, List, [], ◌∷◌, ◌++◌, Option, none,
  some, false, length, length-append, take, drop, min, ltb, if◌then◌else◌, arith, Bool-cases, inl,
  inr, length-take, take-append-drop, take_all,
}
use mathlib.Core.List.{append_assoc}
use hawse.Proto.Record.{Head, decode, head_len, max_head, carries, finish, resets}
use hawse.Records.Reader.{
  Arrival, bytes, wait, broken, Reading, collecting, inside, finished, reset_by, needed, decoded,
  Filled, filled, not_yet, io_error, poll_inner, Polled, ready, reset_error, failed, pending, Turn,
  returns, again, data_turn, fill_turn, head_turn, turn, rounds,
}
use hawse.Records.Meaning.{
  wire, settle, settle_at, norm, payload, ending, inside_piece, head_piece, Agrees, settle_short,
  past,
}

-- A poll of the stream below takes at most `w` bytes off its front, and none only at its end.
abbrev Took : ℕ → List Arrival → Filled × List Arrival → Type 0
Took w inner (filled [], inner') = (0 < w → wire inner ≡ []) × (0 < w → wire inner' ≡ [])
Took w inner (filled (b ∷ c), inner') = (wire inner ≡ b ∷ c ++ wire inner') × (length (b ∷ c) ≤ w)
Took w inner (_, inner') = wire inner ≡ wire inner'

Took-wire :
    (w : ℕ) (a b : List Arrival) (r : Filled × List Arrival)
    → wire b ≡ wire a
    → Took w a r
    → Took w b r
Took-wire w a b (filled [], inner') e t = ((λ h. e ∙ t.0 h), t.1)
Took-wire w a b (filled (x ∷ c), inner') e t = (e ∙ t.0, t.1)
Took-wire w a b (not_yet, inner') e t = e ∙ t
Took-wire w a b (io_error, inner') e t = e ∙ t

rest_of : ℕ → List ℕ → List Arrival → List Arrival
rest_of w bs rest = if ltb w (length bs) then bytes (drop w bs) ∷ rest else rest

wire-rest_of :
    (w : ℕ) (bs : List ℕ) (rest : List Arrival)
    → take w bs ++ wire (rest_of w bs rest) ≡ bs ++ wire rest
unfolding rest_of wire
wire-rest_of w bs rest = elim (Bool-cases (ltb w (length bs))) [
  | inl e ↦ rw e (
      sym (append_assoc (take w bs) (drop w bs) (wire rest))
      ∙ ap (λ (l : List ℕ). l ++ wire rest) (take-append-drop w bs))
  | inr e ↦ rw e (ap (λ (l : List ℕ). l ++ wire rest) (take_all w bs (ground arith)))
]

poll_inner-Took : (w : ℕ) (inner : List Arrival) → Took w inner (poll_inner w inner)
unfolding poll_inner wire
poll_inner-Took w [] = (λ _. refl, λ _. refl)
poll_inner-Took w (wait ∷ rest) = refl
poll_inner-Took w (broken ∷ rest) = refl
poll_inner-Took w (bytes [] ∷ rest) =
    Took-wire w rest (bytes [] ∷ rest) (poll_inner w rest) refl (poll_inner-Took w rest)
poll_inner-Took zero (bytes (b ∷ bs) ∷ rest) =
    (λ h. absurd (omega arith), λ h. absurd (omega arith))
poll_inner-Took (suc w) (bytes (b ∷ bs) ∷ rest) =
    (unfold rest_of in sym (wire-rest_of (suc w) (b ∷ bs) rest), omega (arith, length-take w bs))

-- What holds of a reader between two rounds.
abbrev pub IsValid : Reading → Type 0
IsValid (collecting head) = length head ≤ max_head
IsValid (inside left) = 0 < left
IsValid _ = Unit {0}

-- How many rounds may still come before a return.
abbrev pub measure : Reading → ℕ
measure (collecting head) = rounds - length head
measure (inside left) = 2
measure _ = 1

-- The bytes that a poll hands to its caller.
abbrev pub given : Polled → List ℕ
given (ready bs) = bs
given _ = []

-- What a poll tells its caller besides bytes: no bytes for room that was there is the clean end, and
-- an error names the reset.
abbrev pub Tells : ℕ → Polled → Reading → Type 0
Tells room (ready []) s = 0 < room → s ≡ finished
Tells room (ready (b ∷ bs)) s = Unit {0}
Tells room (reset_error code) s = s ≡ reset_by code
Tells room failed s = Unit {0}
Tells room pending s = Unit {0}

abbrev pub Sound : ℕ → Reading → List Arrival → Turn → Type 0
Sound room s inner (returns p s' inner') =
    Agrees (norm s) (wire inner) (given p) (norm s') (wire inner')
    × IsValid s'
    × (length (given p) ≤ room)
    × Tells room p s'
Sound room s inner (again s' inner') =
    Agrees (norm s) (wire inner) [] (norm s') (wire inner') × IsValid s' × (measure s' < measure s)

pub past-norm : (left n : ℕ) → norm (past left n) ≡ past left n
unfolding norm settle settle_at needed
past-norm left n = ground arith

past-IsValid : (left n : ℕ) → n ≤ left → IsValid (past left n)
past-IsValid left n h = ground arith

-- Inside a record.
pub data_turn-Sound :
    (room left : ℕ) (inner : List Arrival) (r : Filled × List Arrival)
    → 0 < left
    → Took (min left (suc room)) inner r
    → Sound (suc room) (inside left) inner (data_turn left r)
unfolding data_turn norm
data_turn-Sound room left inner (not_yet, inner') v t = ((rw t, rw t), v, omega arith, tt)
data_turn-Sound room left inner (io_error, inner') v t = ((rw t, rw t), v, omega arith, tt)
data_turn-Sound room left inner (filled [], inner') v t =
    let e = t.0 (omega arith) in
    let e' = t.1 (omega arith) in
    (unfold payload ending in rw (e, e') (refl, refl), tt, omega arith)
data_turn-Sound room left inner (filled (b ∷ c), inner') v t =
    let n = length (b ∷ c) in
    let fits : n ≤ left = omega (arith, t.1) in
    (
      rw (t.0, past-norm left n) (inside_piece c left b (wire inner') fits),
      past-IsValid left n fits,
      omega (arith, t.1),
      tt,
    )

-- In a header.
fill_turn-Sound :
    (room need : ℕ) (head : List ℕ) (inner : List Arrival) (r : Filled × List Arrival)
    → needed head ≡ some need
    → need ≤ max_head
    → length head < need
    → Took (need - length head) inner r
    → Sound room (collecting head) inner (fill_turn head r)
unfolding fill_turn norm
fill_turn-Sound room need head inner (not_yet, inner') e five v t =
    ((rw t, rw t), omega arith, omega arith, tt)
fill_turn-Sound room need head inner (io_error, inner') e five v t =
    ((rw t, rw t), omega arith, omega arith, tt)
fill_turn-Sound room need head inner (filled [], inner') w five v t =
    let e = t.0 (omega arith) in
    let e' = t.1 (omega arith) in
    let short = settle_short head 0 (rw w (omega arith)) in
    (unfold payload ending in rw (short, e, e') (refl, refl), tt, omega arith)
fill_turn-Sound room need head inner (filled (b ∷ c), inner') e five v t =
    let longer = length-append head (b ∷ c) in
    (
      rw t.0 (head_piece c head b (wire inner') (rw e (omega (arith, t.1)))),
      omega (arith, longer, t.1),
      omega (arith, longer, t.1),
    )

decoded-IsValid : (o : Option Head) → o ≢ some (carries 0) → IsValid (decoded o)
unfolding decoded
decoded-IsValid (some (carries zero)) h = absurd (h refl)
decoded-IsValid (some (carries (suc n))) h = omega arith
decoded-IsValid (some finish) h = tt
decoded-IsValid (some (resets code)) h = tt
decoded-IsValid none h = tt

decoded-norm : (o : Option Head) → norm (decoded o) ≡ decoded o
unfolding decoded norm
decoded-norm (some (carries n)) = refl
decoded-norm (some finish) = refl
decoded-norm (some (resets code)) = refl
decoded-norm none = refl

decoded-measure : (o : Option Head) → measure (decoded o) ≤ 2
unfolding decoded
decoded-measure (some (carries n)) = omega arith
decoded-measure (some finish) = omega arith
decoded-measure (some (resets code)) = omega arith
decoded-measure none = omega arith

decode-ne-empty : (bs : List ℕ) → decode bs ≢ some (carries 0)
unfolding decode
decode-ne-empty [] h = cc
decode-ne-empty (t ∷ []) h = ground arith
decode-ne-empty (t ∷ lo ∷ hi ∷ []) h = ground arith
decode-ne-empty (t ∷ a ∷ b ∷ c ∷ d ∷ []) h = ground arith
decode-ne-empty _ h = cc

needed-le : (head : List ℕ) (need : ℕ) → needed head ≡ some need → need ≤ max_head
unfolding needed head_len
needed-le [] need e = ground arith
needed-le (tag ∷ rest) need e = ground arith

settle_whole :
    (head : List ℕ) (need : ℕ)
    → needed head ≡ some need
    → ltb (length head) need ≡ false
    → settle head ≡ decoded (decode (take need head))
unfolding settle settle_at
settle_whole head need e h = rw (e, h)

head_turn-Sound :
    (room : ℕ) (head : List ℕ) (inner : List Arrival) (o : Option ℕ)
    → needed head ≡ o
    → length head ≤ max_head
    → Sound room (collecting head) inner (head_turn head o inner)
unfolding head_turn norm
head_turn-Sound room head inner none e v =
    (unfold settle settle_at in rw e (refl, refl), tt, omega arith)
head_turn-Sound room head inner (some need) e v = elim (Bool-cases (ltb (length head) need)) [
  | inl short ↦ rw short (
      fill_turn-Sound room need head inner (poll_inner (need - length head) inner) e
        (needed-le head need e) (ground arith) (poll_inner-Took (need - length head) inner))
  | inr whole ↦ rw whole (
    rw (settle_whole head need e whole, decoded-norm (decode (take need head))) (refl, refl),
    decoded-IsValid (decode (take need head)) (decode-ne-empty (take need head)),
    omega (arith, decoded-measure (decode (take need head))),
  )
]

pub turn-Sound :
    (room : ℕ) (s : Reading) (inner : List Arrival)
    → IsValid s
    → Sound room s inner (turn room s inner)
unfolding turn
turn-Sound room finished inner v = ((refl, refl), tt, omega arith, λ _. refl)
turn-Sound room (reset_by code) inner v = ((refl, refl), tt, omega arith, refl)
turn-Sound zero (inside left) inner v = ((refl, refl), v, omega arith, λ h. absurd (omega arith))
turn-Sound (suc room) (inside left) inner v =
    data_turn-Sound room left inner _ v (poll_inner-Took (min left (suc room)) inner)
turn-Sound room (collecting head) inner v = head_turn-Sound room head inner (needed head) refl v
