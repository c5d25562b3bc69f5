-- ===== src/Proto/Port/Text.antt =====
-- crates/hawse-proto/src/port.rs: the parsers of ports, ranges, spans and requests.
use hawse.Base.{ℕ, ◌+◌, ◌-◌, ◌*◌, ◌^◌, [], ◌∷◌, Option, none, some, ◌==◌, ltb, if◌then◌else◌, ite}
use hawse.Base.Text.{Text, codes, text_discrete, is_ascii_digit}
use hawse.Proto.Port.{Kind, tcp, udp, Port, PortRange, PortSpan, PortRequest, any, fixed}

pub data ParsePortError : Type 0 where
  empty : ParsePortError
  number protocol : Text → ParsePortError
  reversed : ℕ → ℕ → ParsePortError

pub data Parsed (A : Type 0) : Type 0 where
  ok : A → Parsed A
  err : ParsePortError → Parsed A

-- `?`, which hands an error on.
unfoldable pub and_then : {A B : Type 0} → Parsed A → (A → Parsed B) → Parsed B
and_then (err e) k = err e
and_then (ok a) k = k a

unfoldable pub cons_first : ℕ → Option (Text × Text) → Option (Text × Text)
cons_first c none = none
cons_first c (some (a, b)) = some (c ∷ a, b)

-- `split_once`: at the first such character.
unfoldable pub split_once : ℕ → Text → Option (Text × Text)
split_once sep [] = none
split_once sep (c ∷ s) =
    let rest = split_once sep s in if c == sep then some ([], s) else cons_first c rest

-- `str::parse::<u16>`: decimal digits, one at least, after a plus sign or none, and no overflow.
unfoldable pub digits : ℕ → Text → Option ℕ
digits n [] = if ltb n (2 ^ 16) then some n else none
digits n (c ∷ s) =
    let rest = digits (n * 10 + (c - b'0')) s in if is_ascii_digit c then rest else none

unfoldable pub unsigned : Text → Option ℕ
unsigned [] = none
unsigned (c ∷ s) = digits 0 (c ∷ s)

unfoldable pub parse_u16 : Text → Option ℕ
parse_u16 [] = none
parse_u16 (c ∷ s) = if c == b'+' then unsigned s else unsigned (c ∷ s)

unfoldable pub kind_named : Text → Text × Text → Parsed (Text × Kind)
kind_named s (n, proto) =
    ite (text_discrete proto (codes "tcp")) (ok (n, tcp))
      (ite (text_discrete proto (codes "udp")) (ok (n, udp)) (err (protocol proto)))

unfoldable pub with_kind : Text → Option (Text × Text) → Parsed (Text × Kind)
with_kind s none = ok (s, tcp)
with_kind s (some halves) = kind_named s halves

unfoldable pub split_kind : Text → Parsed (Text × Kind)
split_kind s = with_kind s (split_once b'/' s)

unfoldable pub nonzero : Text → Option ℕ → Parsed ℕ
nonzero s none = err (number s)
nonzero s (some n) = if n == 0 then err (number s) else ok n

unfoldable pub parse_number : Text → Parsed ℕ
parse_number s = nonzero s (parse_u16 s)

unfoldable pub ordered : ℕ × ℕ → Parsed (ℕ × ℕ)
ordered (first, last) = if ltb last first then err (reversed first last) else ok (first, last)

-- The two numbers about the dash, or the one number twice.
unfoldable pub two_numbers : Text → Option (Text × Text) → Parsed (ℕ × ℕ)
two_numbers s none = and_then (parse_number s) λ n. ok (n, n)
two_numbers s (some (a, b)) =
    and_then (parse_number a) λ first. and_then (parse_number b) λ last. ok (first, last)

unfoldable pub bounds_of : Text → Parsed (ℕ × ℕ)
bounds_of s = and_then (two_numbers s (split_once b'-' s)) ordered

unfoldable pub parse_bounds : Text → Parsed (ℕ × ℕ)
parse_bounds [] = err empty
parse_bounds (c ∷ s) = bounds_of (c ∷ s)

unfoldable pub numbered : Text × Kind → Parsed Port
numbered (body, kind) = and_then (parse_number body) λ n. ok (record { number = n; kind = kind })

-- `Port::from_str`.
unfoldable pub parse_port : Text → Parsed Port
parse_port [] = err empty
parse_port (c ∷ s) = and_then (split_kind (c ∷ s)) numbered

unfoldable pub ranged : Text × Kind → Parsed PortRange
ranged (body, kind) =
    and_then (parse_bounds body) λ b. ok (record { first = b.0; last = b.1; kind = kind })

-- `PortRange::from_str`.
unfoldable pub parse_range : Text → Parsed PortRange
parse_range s = and_then (split_kind s) ranged

unfoldable pub spanned : Text → Option (Text × Text) → Parsed PortSpan
spanned s (some (a, proto)) = err (protocol proto)
spanned s none = and_then (parse_bounds s) λ b. ok (record { first = b.0; last = b.1 })

-- `PortSpan::from_str`.
unfoldable pub parse_span : Text → Parsed PortSpan
parse_span s = spanned s (split_once b'/' s)

-- The text after a prefix, where it begins with it.
unfoldable pub strip : Text → Text → Option Text
strip [] s = some s
strip (p ∷ ps) [] = none
strip (p ∷ ps) (c ∷ s) = let rest = strip ps s in if c == p then rest else none

unfoldable pub request_else : Text → Option Text → Parsed PortRequest
request_else s (some proto) = err (protocol proto)
request_else s none = and_then (parse_port s) λ p. ok (fixed p)

-- `PortRequest::from_str`.
unfoldable pub parse_request : Text → Parsed PortRequest
parse_request s = ite (text_discrete s (codes "any")) (ok (any tcp)) (
    ite (text_discrete s (codes "any/tcp")) (ok (any tcp)) (
      ite (text_discrete s (codes "any/udp")) (ok (any udp))
        (request_else s (strip (codes "any/") s))))
