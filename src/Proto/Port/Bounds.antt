-- ===== src/Proto/Port/Bounds.antt =====
-- What the parsers of ports accept is a port.
use hawse.Base.{
  ℕ, ◌+◌, ◌-◌, ◌*◌, ◌^◌, ◌≤◌, ◌<◌, ◌≡◌, [], ◌∷◌, Option, none, some, ◌==◌, ltb, arith, Bool-cases,
  Option-cases, inl, inr, ite,
}
use hawse.Base.Text.{Text, codes, text_discrete}
use hawse.Proto.Port.{Kind, Port, PortRange, PortSpan, PortRequest, any, fixed}
use hawse.Proto.Port.Text.{
  Parsed, ok, err, and_then, digits, unsigned, parse_u16, split_kind, nonzero, parse_number,
  ordered, two_numbers, bounds_of, parse_bounds, numbered, parse_port, ranged, parse_range, spanned,
  parse_span, strip, request_else, parse_request,
}

-- Whatever is accepted has the property.
abbrev pub Accepts : {A : Type 0} → (A → Type 0) → Parsed A → Type 0
Accepts P (err e) = Unit
Accepts P (ok a) = P a

abbrev pub IsNumber : ℕ → Type 0
IsNumber n = (1 ≤ n) × (n < 2 ^ 16)

abbrev pub IsBounds : ℕ → ℕ → Type 0
IsBounds first last = (1 ≤ first) × (first ≤ last) × (last < 2 ^ 16)

and_then-Accepts :
    {A B : Type 0} (P : A → Type 0) (Q : B → Type 0) (x : Parsed A) (k : A → Parsed B)
    → Accepts P x
    → ((a : A) → P a → Accepts Q (k a))
    → Accepts Q (and_then x k)
unfolding and_then
and_then-Accepts P Q (err e) k h f = tt
and_then-Accepts P Q (ok a) k h f = f a h

anything : {A : Type 0} (x : Parsed A) → Accepts (λ _. Unit {0}) x
anything (err e) = tt
anything (ok a) = tt

digits-lt : (n m : ℕ) (s : Text) → digits n s ≡ some m → m < 2 ^ 16
unfolding digits
digits-lt n m [] h = ground arith
digits-lt n m (c ∷ s) h = ground (arith, digits-lt (n * 10 + (c - b'0')) m s)

parse_u16-lt : (m : ℕ) (s : Text) → parse_u16 s ≡ some m → m < 2 ^ 16
unfolding parse_u16 unsigned
parse_u16-lt m [] h = absurd (ground arith)
parse_u16-lt m (c ∷ []) h = ground (arith, digits-lt 0 m (c ∷ []))
parse_u16-lt m (c ∷ d ∷ s) h = ground (arith, digits-lt 0 m (d ∷ s), digits-lt 0 m (c ∷ d ∷ s))

parse_number-Accepts : (s : Text) → Accepts IsNumber (parse_number s)
unfolding parse_number nonzero
parse_number-Accepts s = elim (Option-cases (parse_u16 s)) [
  | inl e ↦ rw e tt
  | inr (n, e) ↦ elim (Bool-cases (n == 0)) [
    | inl z ↦ rw (e, z) tt
    | inr z ↦ rw (e, z) (ground arith, parse_u16-lt n s e)
  ]
]

abbrev Both : ℕ × ℕ → Type 0
Both b = IsNumber b.0 × IsNumber b.1

two_numbers-Accepts : (s : Text) (o : Option (Text × Text)) → Accepts Both (two_numbers s o)
unfolding two_numbers
two_numbers-Accepts s none =
    and_then-Accepts IsNumber Both (parse_number s) _ (parse_number-Accepts s) λ n h. (h, h)
two_numbers-Accepts s (some (a, b)) =
    and_then-Accepts IsNumber Both (parse_number a) _ (parse_number-Accepts a) λ x h.
      and_then-Accepts IsNumber Both (parse_number b) _ (parse_number-Accepts b) λ y k. (h, k)

abbrev Bounded : ℕ × ℕ → Type 0
Bounded b = IsBounds b.0 b.1

ordered-Accepts : (b : ℕ × ℕ) → Both b → Accepts Bounded (ordered b)
unfolding ordered
ordered-Accepts (x, y) h = elim (Bool-cases (ltb y x)) [
  | inl e ↦ rw e tt
  | inr e ↦ rw e (h.0.0, ground arith, h.1.1)
]

parse_bounds-Accepts : (s : Text) → Accepts Bounded (parse_bounds s)
unfolding parse_bounds bounds_of
parse_bounds-Accepts [] = tt
parse_bounds-Accepts (c ∷ s) =
    and_then-Accepts Both Bounded _ ordered (two_numbers-Accepts (c ∷ s) _) ordered-Accepts

-- A range is accepted only with bounds that are port numbers, from 1 to 65535, in order.
abbrev pub IsRange : PortRange → Type 0
IsRange r = IsBounds r.first r.last

abbrev pub IsSpan : PortSpan → Type 0
IsSpan s = IsBounds s.first s.last

abbrev pub IsPort : Port → Type 0
IsPort p = IsNumber p.number

abbrev pub IsRequest : PortRequest → Type 0
IsRequest (any k) = Unit
IsRequest (fixed p) = IsPort p

ranged-Accepts : (b : Text × Kind) → Accepts IsRange (ranged b)
unfolding ranged
ranged-Accepts (s, k) = and_then-Accepts Bounded IsRange _ _ (parse_bounds-Accepts s) λ b h. h

numbered-Accepts : (b : Text × Kind) → Accepts IsPort (numbered b)
unfolding numbered
numbered-Accepts (s, k) = and_then-Accepts IsNumber IsPort _ _ (parse_number-Accepts s) λ n h. h

parse_port-Accepts : (s : Text) → Accepts IsPort (parse_port s)
unfolding parse_port
parse_port-Accepts [] = tt
parse_port-Accepts (c ∷ s) =
    and_then-Accepts (λ _. Unit {0}) IsPort _ numbered (anything (split_kind (c ∷ s)))
      λ b _. numbered-Accepts b

spanned-Accepts : (s : Text) (o : Option (Text × Text)) → Accepts IsSpan (spanned s o)
unfolding spanned
spanned-Accepts s (some (a, b)) = tt
spanned-Accepts s none = and_then-Accepts Bounded IsSpan _ _ (parse_bounds-Accepts s) λ b h. h

request_else-Accepts : (s : Text) (o : Option Text) → Accepts IsRequest (request_else s o)
unfolding request_else
request_else-Accepts s (some p) = tt
request_else-Accepts s none = and_then-Accepts IsPort IsRequest _ _ (parse_port-Accepts s) λ p h. h

ite-Accepts :
    {A X : Type 0} (P : A → Type 0) (d : Dec X) (x y : Parsed A)
    → Accepts P x
    → Accepts P y
    → Accepts P (ite d x y)
ite-Accepts P (yes e) x y h k = h
ite-Accepts P (no n) x y h k = k

parse_request-Accepts : (s : Text) → Accepts IsRequest (parse_request s)
unfolding parse_request
parse_request-Accepts s = ite-Accepts IsRequest (text_discrete s (codes "any")) _ _ tt (
    ite-Accepts IsRequest (text_discrete s (codes "any/tcp")) _ _ tt (
      ite-Accepts IsRequest (text_discrete s (codes "any/udp")) _ _ tt
        (request_else-Accepts s (strip (codes "any/") s))))

-- Whatever text they are given, the parsers accept only ports: a range and a pool have bounds from 1 to
-- 65535 in order, and a port, also in a request, a number from 1 to 65535.
pub parse-bounds :
    (s : Text)
    → Accepts IsRange (parse_range s)
      × Accepts IsSpan (parse_span s)
      × Accepts IsPort (parse_port s)
      × Accepts IsRequest (parse_request s)
unfolding parse_range parse_span
parse-bounds s = (
  and_then-Accepts (λ _. Unit {0}) IsRange _ ranged (anything (split_kind s))
      (λ b _. ranged-Accepts b),
  spanned-Accepts s _,
  parse_port-Accepts s,
  parse_request-Accepts s,
)
