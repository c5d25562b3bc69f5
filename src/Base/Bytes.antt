-- ===== src/Base/Bytes.antt =====
-- `to_le_bytes`, `from_le_bytes`, `to_be_bytes` and `from_be_bytes` of Rust's unsigned integers.
-- A byte is a number below 256.
use Prim.Native.Nat.{ℕ, zero, suc, ◌+◌, ◌*◌, ◌/◌, ◌%◌, ◌<◌}
use mathlib.Core.Path.{◌≡◌, refl, ◌∙◌}
use mathlib.Core.List.{List, [], ◌∷◌, ◌++◌}
use native.Mathlib.Omega.{arith}
use hawse.Base.Lists.{length, length-append}

abbrev pub from_le2 : ℕ → ℕ → ℕ
from_le2 a b = a + 256 * b

abbrev pub from_le4 : ℕ → ℕ → ℕ → ℕ → ℕ
from_le4 a b c d = a + 256 * b + 65536 * c + 16777216 * d

abbrev pub byte0 : ℕ → ℕ
byte0 n = n % 256

abbrev pub byte1 : ℕ → ℕ
byte1 n = n / 256 % 256

abbrev pub byte2 : ℕ → ℕ
byte2 n = n / 65536 % 256

abbrev pub byte3 : ℕ → ℕ
byte3 n = n / 16777216 % 256

pub from_le2-bytes : (n : ℕ) → n < 65536 → from_le2 (byte0 n) (byte1 n) ≡ n
from_le2-bytes n h = omega arith

pub from_le4-bytes : (n : ℕ) → n < 4294967296 → from_le4 (byte0 n) (byte1 n) (byte2 n) (byte3 n) ≡ n
from_le4-bytes n h = omega arith

-- The `k` low bytes of `n`, the highest first.
unfoldable pub to_be : ℕ → ℕ → List ℕ
to_be zero n = []
to_be (suc k) n = to_be k (n / 256) ++ n % 256 ∷ []

-- The number that bytes make behind `n`, the highest first.
unfoldable pub from_be : ℕ → List ℕ → ℕ
from_be n [] = n
from_be n (b ∷ bs) = from_be (256 * n + b) bs

-- `n` has at most `k` bytes.
abbrev pub Fits : ℕ → ℕ → Type 0
Fits zero n = n ≡ 0
Fits (suc k) n = Fits k (n / 256)

from_be-append : (n : ℕ) (xs ys : List ℕ) → from_be n (xs ++ ys) ≡ from_be (from_be n xs) ys
unfolding from_be
from_be-append n [] ys = refl
from_be-append n (b ∷ xs) ys = from_be-append (256 * n + b) xs ys

pub from_be-to_be : (k n : ℕ) → Fits k n → from_be 0 (to_be k n) ≡ n
unfolding to_be from_be
from_be-to_be zero n f = omega (arith, f)
from_be-to_be (suc k) n f =
    from_be-append 0 (to_be k (n / 256)) (n % 256 ∷ []) ∙ omega (arith, from_be-to_be k (n / 256) f)

pub length-to_be : (k n : ℕ) → length (to_be k n) ≡ k
unfolding to_be
length-to_be zero n = refl
length-to_be (suc k) n =
    omega (arith, length-append (to_be k (n / 256)) (n % 256 ∷ []), length-to_be k (n / 256))

pub Fits2 : (n : ℕ) → n < 65536 → Fits 2 n
Fits2 n h = omega arith

pub Fits4 : (n : ℕ) → n < 4294967296 → Fits 4 n
Fits4 n h = omega arith

pub Fits16 : (n : ℕ) → n < 340282366920938463463374607431768211456 → Fits 16 n
Fits16 n h = omega arith
