-- ===== src/Proto/Key.antt =====
-- crates/hawse-proto/src/key.rs: public keys and their text. The base64 of the crate `base64` comes
-- in as a record of its two functions.
use hawse.Base.{
  ℕ, ◌≡◌, refl, List, [], ◌∷◌, ◌++◌, Option, none, some, length, take, arith, ◌==◌, if◌then◌else◌,
  inl, inr, Option-cases, ap, ◌∙◌,
}
use hawse.Base.Text.{Text, codes, text_discrete}

abbrev pub prefix : Text
prefix = codes "ed25519:"

-- `[u8; 32]`.
pub record PublicKey : Type 0 where
  pub bytes : List ℕ

unfoldable pub key_discrete : Discrete PublicKey
key_discrete = hlevel text_discrete

pub data ParseKeyError : Type 0 where
  missing_prefix : ParseKeyError
  base64 : ParseKeyError
  wrong_length : ℕ → ParseKeyError

pub data Parsed : Type 0 where
  ok : PublicKey → Parsed
  err : ParseKeyError → Parsed

abbrev pub IsKey : PublicKey → Type 0
IsKey k = length k.bytes ≡ 32

unfoldable pub from_slice : List ℕ → Parsed
from_slice bytes =
    if length bytes == 32 then ok (record { bytes = bytes }) else err (wrong_length (length bytes))

-- `URL_SAFE_NO_PAD`.
pub record Base64 : Type 0 where
  pub encode : List ℕ → Text
  pub decode : Text → Option (List ℕ)

-- `str::strip_prefix`.
unfoldable pub strip_prefix : Text → Text → Option Text
strip_prefix [] s = some s
strip_prefix (c ∷ p) [] = none
strip_prefix (c ∷ p) (d ∷ s) = let rest = strip_prefix p s in if c == d then rest else none

module _ (b : Base64) where
  unfoldable pub display : PublicKey → Text
  display k = prefix ++ b.encode k.bytes

  -- `short`: the first 8 characters of the encoding.
  unfoldable pub short : PublicKey → Text
  short k = take 8 (b.encode k.bytes)

  unfoldable pub decoded : Option (List ℕ) → Parsed
  decoded none = err base64
  decoded (some bytes) = from_slice bytes

  unfoldable pub after_prefix : Option Text → Parsed
  after_prefix none = err missing_prefix
  after_prefix (some rest) = decoded (b.decode rest)

  unfoldable pub parse : Text → Parsed
  parse s = after_prefix (strip_prefix prefix s)

strip_prefix-append : (p s : Text) → strip_prefix p (p ++ s) ≡ some s
unfolding strip_prefix
strip_prefix-append [] s = refl
strip_prefix-append (c ∷ p) s = ground (arith, strip_prefix-append p s)

-- The text of a key parses to that key, where the decoder undoes the encoder.
pub parse-display :
    (b : Base64) (k : PublicKey)
    → ((bytes : List ℕ) → b.decode (b.encode bytes) ≡ some bytes)
    → IsKey k
    → parse b (display b k) ≡ ok k
unfolding parse display after_prefix decoded from_slice
parse-display b k inverse h = rw (strip_prefix-append prefix (b.encode k.bytes), inverse k.bytes, h)

from_slice-ok :
    (bytes : List ℕ) (k : PublicKey) → from_slice bytes ≡ ok k → IsKey k × (bytes ≡ k.bytes)
unfolding from_slice
from_slice-ok bytes k h = ground arith

-- A text that parses has the prefix, and what follows decodes to the 32 bytes of the key.
pub parse-ok :
    (b : Base64) (s : Text) (k : PublicKey)
    → parse b s ≡ ok k
    → IsKey k
      × ((rest : Text) × (strip_prefix prefix s ≡ some rest) × (b.decode rest ≡ some k.bytes))
unfolding parse after_prefix decoded
parse-ok b s k h = elim (Option-cases (strip_prefix prefix s)) [
  | inl e ↦ absurd (ground (arith, e))
  | inr (rest, e) ↦ elim (Option-cases (b.decode rest)) [
    | inl f ↦ absurd (ground (arith, e, f))
    | inr (bytes, f) ↦
        let (good, same) = from_slice-ok bytes k (ground (arith, e, f)) in
        (good, (rest, e, f ∙ ap (λ (l : List ℕ). some l) same))
  ]
]
