-- ===== src/Base/Sets.antt =====
-- `HashSet`: a list without order, asked for its members.
use mathlib.Core.Path.{◌≡◌}
use mathlib.Core.Logic.{ite}
use mathlib.Core.Bool.{Bool, true, false, cond}
use mathlib.Core.List.{List, [], ◌∷◌}
use native.Mathlib.Omega.{arith}

module _ {A : Type 0} (same : Discrete A) where
  unfoldable pub has : A → List A → Bool
  has a [] = false
  has a (b ∷ s) = ite (same b a) true (has a s)

  -- `HashSet::insert`: a member is not added again.
  unfoldable pub add : A → List A → List A
  unfolding has
  add a s = cond (has a s) s (a ∷ s)

  pub has-add : (a b : A) (s : List A) → has b (add a s) ≡ ite (same a b) true (has b s)
  unfolding has add
  has-add a b s = ground arith

  unfoldable pub delete : A → List A → List A
  delete a [] = []
  delete a (b ∷ s) = let rest = delete a s in ite (same b a) rest (b ∷ rest)

  pub has-delete : (a b : A) (s : List A) → has b (delete a s) ≡ ite (same a b) false (has b s)
  unfolding has delete
  has-delete a b [] = ground arith
  has-delete a b (c ∷ s) = ground (arith, has-delete a b s)
