-- ===== src/Proto/Name.antt =====
-- crates/hawse-proto/src/name.rs: service and client names.
use hawse.Base.{
  ℕ, ◌≤◌, ◌≡◌, refl, ◌↔◌, ◌⊎◌, [], ◌∷◌, Bool, true, ◌||◌, not, Option, none, some, arith, ltb, ◌==◌,
  if◌then◌else◌, length, All, inl,
}
use hawse.Base.Text.{Text, is_ascii_lowercase, is_ascii_digit, byte_len, len_utf8}

abbrev pub max_len : ℕ
max_len = 32

pub data NameError : Type 0 where
  empty : NameError
  too_long : ℕ → NameError
  start : ℕ → NameError
  bad_char : ℕ → NameError

unfoldable pub first_ok : ℕ → Bool
unfolding is_ascii_lowercase is_ascii_digit
first_ok c = is_ascii_lowercase c || is_ascii_digit c

unfoldable pub char_ok : ℕ → Bool
unfolding is_ascii_lowercase is_ascii_digit
char_ok c = is_ascii_lowercase c || (is_ascii_digit c || c == b'-')

-- `chars.find(…)` for a character that is not allowed.
unfoldable pub find_bad : Text → Option ℕ
unfolding char_ok
find_bad [] = none
find_bad (c ∷ s) = let rest = find_bad s in if char_ok c then rest else some c

unfoldable pub check_rest : Option ℕ → Option NameError
check_rest none = none
check_rest (some c) = some (bad_char c)

-- `none` is `Ok(())`.
unfoldable pub validate : Text → Option NameError
unfolding check_rest
validate [] = some empty
validate (c ∷ s) =
    if not (first_ok c)
    then some (if c == b'-' then start c else bad_char c)
    else if ltb max_len (byte_len (c ∷ s))
    then some (too_long (byte_len (c ∷ s)))
    else check_rest (find_bad s)

abbrev pub IsFirst : ℕ → Type 0
IsFirst c = ((b'a' ≤ c) × (c ≤ b'z')) ⊎ ((b'0' ≤ c) × (c ≤ b'9'))

abbrev pub IsRest : ℕ → Type 0
IsRest c = IsFirst c ⊎ (c ≡ b'-')

-- What a name is: a lowercase letter or a digit, then letters, digits and dashes, and no more than
-- 32 characters in all.
abbrev pub IsName : Text → Type 0
IsName [] = ⊥
IsName (c ∷ s) = IsFirst c × All IsRest s × (length (c ∷ s) ≤ max_len)

first_ok_iff : (c : ℕ) → (first_ok c ≡ true) ↔ IsFirst c
unfolding first_ok
first_ok_iff c = ((λ h. ground arith), λ h. ground arith)

char_ok_iff : (c : ℕ) → (char_ok c ≡ true) ↔ IsRest c
unfolding char_ok
char_ok_iff c = ((λ h. ground arith), λ h. ground arith)

find_bad_iff : (s : Text) → (find_bad s ≡ none) ↔ All IsRest s
unfolding find_bad
find_bad_iff [] = ((λ h. tt), λ h. refl)
find_bad_iff (c ∷ s) = (
  (λ h. ((char_ok_iff c).0 (ground arith), (find_bad_iff s).0 (ground arith))),
  λ h. ground (arith, (char_ok_iff c).1 h.0, (find_bad_iff s).1 h.1),
)

byte_len-length : (s : Text) → All IsRest s → byte_len s ≡ length s
unfolding byte_len len_utf8
byte_len-length [] h = refl
byte_len-length (c ∷ s) h = ground (arith, byte_len-length s h.1, h.0)

byte_len-cons : (c : ℕ) (s : Text) → IsFirst c → All IsRest s → byte_len (c ∷ s) ≡ length (c ∷ s)
byte_len-cons c s h rest = byte_len-length (c ∷ s) (inl h, rest)

-- A name is accepted exactly where it is one.
pub validate_iff : (s : Text) → (validate s ≡ none) ↔ IsName s
unfolding validate
validate_iff [] = ((λ h. cc), λ h. absurd h)
validate_iff (c ∷ s) = (
  (λ h.
      let bad : find_bad s ≡ none = ground arith in
      let first : first_ok c ≡ true = ground arith in
      let fits : byte_len (c ∷ s) ≤ max_len = ground arith in
      let rest = (find_bad_iff s).0 bad in
      (
        (first_ok_iff c).0 first,
        rest,
        omega (arith, byte_len-cons c s ((first_ok_iff c).0 first) rest, fits),
      )),
  λ h.
      let first = (first_ok_iff c).1 h.0 in
      let clean = (find_bad_iff s).1 h.1 in
      let same = byte_len-cons c s h.0 h.1 in ground (arith, first, clean, same, h.2),
)
