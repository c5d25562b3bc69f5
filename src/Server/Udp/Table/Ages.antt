-- ===== src/Server/Udp/Table/Ages.antt =====
-- The set of ages keeps its order, and its front is the oldest.
use hawse.Base.{
  ℕ, ◌≤◌, ◌<◌, ◌≡◌, refl, List, [], ◌∷◌, true, false, none, some, arith, ite, All, length,
}
use hawse.Base.Sets.{has, delete}
use hawse.Server.Udp.Table.{Age, age_discrete, older, insert_age, first}

pub has-insert_age :
    (a b : Age) (l : List Age)
    → has age_discrete b (insert_age a l) ≡ ite (age_discrete a b) true (has age_discrete b l)
unfolding has insert_age
has-insert_age a b [] = refl
has-insert_age a b (c ∷ l) = ground (arith, has-insert_age a b l)

-- Each element is no younger than those behind it.
abbrev pub Sorted : List Age → Type 0
Sorted [] = Unit {0}
Sorted (a ∷ l) = All (λ b. a.at ≤ b.at) l × Sorted l

All-trans : (n m : ℕ) (l : List Age) → n ≤ m → All (λ b. m ≤ b.at) l → All (λ b. n ≤ b.at) l
All-trans n m [] h all = tt
All-trans n m (b ∷ l) h all = (omega arith, All-trans n m l h all.1)

All-insert_age :
    (n : ℕ) (a : Age) (l : List Age)
    → n ≤ a.at
    → All (λ b. n ≤ b.at) l
    → All (λ b. n ≤ b.at) (insert_age a l)
unfolding insert_age
All-insert_age n a [] h all = (h, tt)
All-insert_age n a (c ∷ l) h all = ground (arith, All-insert_age n a l h all.1)

All-delete :
    (n : ℕ) (a : Age) (l : List Age)
    → All (λ b. n ≤ b.at) l
    → All (λ b. n ≤ b.at) (delete age_discrete a l)
unfolding delete
All-delete n a [] all = tt
All-delete n a (c ∷ l) all = ground (arith, All-delete n a l all.1)

pub insert_age-Sorted : (a : Age) (l : List Age) → Sorted l → Sorted (insert_age a l)
unfolding insert_age older
insert_age-Sorted a [] s = (tt, tt)
insert_age-Sorted a (c ∷ l) s =
    ground (arith, insert_age-Sorted a l s.1, All-insert_age c.at a l, All-trans a.at c.at l)

pub delete-Sorted : (a : Age) (l : List Age) → Sorted l → Sorted (delete age_discrete a l)
unfolding delete
delete-Sorted a [] s = tt
delete-Sorted a (c ∷ l) s = ground (arith, delete-Sorted a l s.1, All-delete c.at a l s.0)

All-has :
    (n : ℕ) (b : Age) (l : List Age)
    → All (λ c. n ≤ c.at) l
    → has age_discrete b l ≡ true
    → n ≤ b.at
unfolding has
All-has n b [] all h = cc
All-has n b (c ∷ l) all h = ground (arith, All-has n b l all.1)

-- The first element is a member, and no member is older.
pub first-oldest :
    (a b : Age) (l : List Age)
    → Sorted l
    → first l ≡ some a
    → (has age_discrete a l ≡ true) × (has age_discrete b l ≡ true → a.at ≤ b.at)
unfolding first has
first-oldest a b [] s e = cc
first-oldest a b (c ∷ l) s e = ground (arith, All-has c.at b l s.0)

length-delete-le : (a : Age) (l : List Age) → length (delete age_discrete a l) ≤ length l
unfolding delete
length-delete-le a [] = omega arith
length-delete-le a (c ∷ l) = ground (arith, length-delete-le a l)

pub length-delete-lt :
    (a : Age) (l : List Age)
    → has age_discrete a l ≡ true
    → length (delete age_discrete a l) < length l
unfolding has delete
length-delete-lt a [] h = cc
length-delete-lt a (c ∷ l) h = ground (arith, length-delete-lt a l, length-delete-le a l)

pub has-first_none : (a : Age) (l : List Age) → first l ≡ none → has age_discrete a l ≡ false
unfolding first has
has-first_none a [] e = refl
has-first_none a (c ∷ l) e = cc
