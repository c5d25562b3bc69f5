-- ===== src/Base/Sort.antt =====
-- `sort_unstable` and `dedup` of a `Vec`, over an order given as a test. Equal elements of the
-- source's types are identical, so a sort of them has one result.
use mathlib.Core.Path.{◌≡◌, refl}
use mathlib.Core.Logic.{ite}
use mathlib.Core.Bool.{Bool, false, ◌||◌}
use mathlib.Core.List.{List, [], ◌∷◌}
use native.Mathlib.Omega.{arith}
use hawse.Base.Tests.{if◌then◌else◌}

module _ {A : Type 0} where
  -- `Iterator::any`.
  unfoldable pub any : (A → Bool) → List A → Bool
  any p [] = false
  any p (x ∷ xs) = p x || any p xs

module _ {A : Type 0} (le : A → A → Bool) where
  unfoldable pub insert_sorted : A → List A → List A
  insert_sorted a [] = a ∷ []
  insert_sorted a (b ∷ l) = if le a b then a ∷ b ∷ l else b ∷ insert_sorted a l

  unfoldable pub sort_unstable : List A → List A
  sort_unstable [] = []
  sort_unstable (a ∷ l) = insert_sorted a (sort_unstable l)

  any-insert_sorted :
      (p : A → Bool) (a : A) (l : List A) → any p (insert_sorted a l) ≡ (p a || any p l)
  unfolding any insert_sorted
  any-insert_sorted p a [] = refl
  any-insert_sorted p a (b ∷ l) = ground (arith, any-insert_sorted p a l)

  pub any-sort_unstable : (p : A → Bool) (l : List A) → any p (sort_unstable l) ≡ any p l
  unfolding any sort_unstable
  any-sort_unstable p [] = refl
  any-sort_unstable p (a ∷ l) =
      ground (arith, any-sort_unstable p l, any-insert_sorted p a (sort_unstable l))

module _ {A : Type 0} (same : Discrete A) where
  -- What follows `a`, without its repeats.
  unfoldable pub dedup_from : A → List A → List A
  dedup_from a [] = []
  dedup_from a (b ∷ l) = let rest = dedup_from b l in ite (same a b) rest (b ∷ rest)

  unfoldable pub dedup : List A → List A
  dedup [] = []
  dedup (a ∷ l) = a ∷ dedup_from a l

  any-dedup_from :
      (p : A → Bool) (a : A) (l : List A) → (p a || any p (dedup_from a l)) ≡ (p a || any p l)
  unfolding any dedup_from
  any-dedup_from p a [] = refl
  any-dedup_from p a (b ∷ l) = ground (arith, any-dedup_from p b l)

  pub any-dedup : (p : A → Bool) (l : List A) → any p (dedup l) ≡ any p l
  unfolding any dedup
  any-dedup p [] = refl
  any-dedup p (a ∷ l) = any-dedup_from p a l
