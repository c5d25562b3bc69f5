-- ===== src/Base/Dict.antt =====
-- `HashMap` and `HashSet`: an association list, whose keys are compared by a decision.
use Prim.Native.Nat.{ℕ, zero, suc, ◌+◌, ◌≤◌, ◌<◌}
use mathlib.Core.Path.{◌≡◌, refl}
use mathlib.Core.Logic.{◌≢◌, ite, if_pos, if_neg}
use mathlib.Core.Option.{Option, none, some}
use mathlib.Core.List.{List, [], ◌∷◌}
use native.Mathlib.Omega.{arith}

abbrev pub Dict {ℓ} : Type ℓ → Type ℓ → Type ℓ
Dict K V = List (K × V)

module _ {ℓ} {K V : Type ℓ} (same : Discrete K) where
  unfoldable pub get : K → Dict K V → Option V
  get k [] = none
  get k ((j, v) ∷ m) = ite (same j k) (some v) (get k m)

  -- The value under `k` is replaced, or the pair is added at the end.
  unfoldable pub insert : K → V → Dict K V → Dict K V
  insert k v [] = (k, v) ∷ []
  insert k v ((j, w) ∷ m) = ite (same j k) ((j, v) ∷ m) ((j, w) ∷ insert k v m)

  unfoldable pub remove : K → Dict K V → Dict K V
  remove k [] = []
  remove k ((j, w) ∷ m) = let rest = remove k m in ite (same j k) rest ((j, w) ∷ rest)

  unfoldable pub size : Dict K V → ℕ
  size [] = 0
  size (e ∷ m) = suc (size m)

  pub get-insert :
      (j k : K) (v : V) (m : Dict K V) → get j (insert k v m) ≡ ite (same k j) (some v) (get j m)
  unfolding get insert
  get-insert j k v [] = refl
  get-insert j k v ((i, w) ∷ m) = ground (arith, get-insert j k v m)

  pub get-remove : (j k : K) (m : Dict K V) → get j (remove k m) ≡ ite (same k j) none (get j m)
  unfolding get remove
  get-remove j k [] = ground arith
  get-remove j k ((i, w) ∷ m) = ground (arith, get-remove j k m)

  pub size-insert_new :
      (k : K) (v : V) (m : Dict K V) → get k m ≡ none → size (insert k v m) ≡ size m + 1
  unfolding get insert size
  size-insert_new k v [] h = omega arith
  size-insert_new k v ((i, w) ∷ m) h = ground (arith, size-insert_new k v m)

  pub size-insert_old :
      (k : K) (v : V) (m : Dict K V) → get k m ≢ none → size (insert k v m) ≡ size m
  unfolding get insert size
  size-insert_old k v [] h = absurd (h refl)
  size-insert_old k v ((i, w) ∷ m) h = ground (arith, size-insert_old k v m)

  pub size-remove-le : (k : K) (m : Dict K V) → size (remove k m) ≤ size m
  unfolding remove size
  size-remove-le k [] = omega arith
  size-remove-le k ((i, w) ∷ m) = ground (arith, size-remove-le k m)

  pub size-remove-lt : (k : K) (m : Dict K V) → get k m ≢ none → size (remove k m) < size m
  unfolding get remove size
  size-remove-lt k [] h = absurd (h refl)
  size-remove-lt k ((i, w) ∷ m) h = ground (arith, size-remove-lt k m, size-remove-le k m)

  -- Different keys that are all there are no more than the entries.
  pub size-ge-keys :
      (n : ℕ) (f : ℕ → K) (m : Dict K V)
      → ((i j : ℕ) → i < n → j < n → f i ≡ f j → i ≡ j)
      → ((i : ℕ) → i < n → get (f i) m ≢ none)
      → n ≤ size m
  size-ge-keys zero f m apart there = omega arith
  size-ge-keys (suc n) f m apart there =
      let less = size-remove-lt (f n) m (there n (omega arith)) in
      let ih =
        size-ge-keys n f (remove (f n) m) (λ i j p q. apart i j (omega arith) (omega arith))
          λ i p e. there i (omega arith) (
            ground (
              arith,
              get-remove (f i) (f n) m,
              λ (same : f n ≡ f i). apart n i (omega arith) (omega arith) same,
            )) in
      omega arith

  pub size-eq-zero : (m : Dict K V) → ((k : K) → get k m ≡ none) → size m ≡ 0
  unfolding get size
  size-eq-zero [] h = refl
  size-eq-zero ((k, v) ∷ m) h = absurd (ground (arith, h k))

  -- No key stands twice.
  abbrev pub Distinct : Dict K V → Type ℓ
  Distinct [] = Unit
  Distinct ((k, v) ∷ m) = (get k m ≡ none) × Distinct m

  pub insert-Distinct : (k : K) (v : V) (m : Dict K V) → Distinct m → Distinct (insert k v m)
  unfolding insert get
  insert-Distinct k v [] d = (refl, tt)
  insert-Distinct k v ((j, w) ∷ m) d = elim (same j k) [
    | yes e ↦ rw (if_pos (same j k) e ((j, v) ∷ m) ((j, w) ∷ insert k v m)) d
    | no ne ↦
        let both : Distinct ((j, w) ∷ insert k v m) =
          (ground (arith, get-insert j k v m), insert-Distinct k v m d.1) in
        rw (if_neg (same j k) ne ((j, v) ∷ m) ((j, w) ∷ insert k v m)) both
  ]

  pub remove-Distinct : (k : K) (m : Dict K V) → Distinct m → Distinct (remove k m)
  unfolding remove get
  remove-Distinct k [] d = tt
  remove-Distinct k ((j, w) ∷ m) d = elim (same j k) [
    | yes e ↦ rw (if_pos (same j k) e (remove k m) ((j, w) ∷ remove k m)) (remove-Distinct k m d.1)
    | no ne ↦
        let both : Distinct ((j, w) ∷ remove k m) =
          (ground (arith, get-remove j k m), remove-Distinct k m d.1) in
        rw (if_neg (same j k) ne (remove k m) ((j, w) ∷ remove k m)) both
  ]
