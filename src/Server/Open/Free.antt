-- ===== src/Server/Open/Free.antt =====
-- How many numbers of the pool are free, which a claim brings down.
use hawse.Base.{ℕ, zero, suc, ◌+◌, ◌≤◌, ◌<◌, ◌≡◌, true, false, if◌then◌else◌, arith, ℕ_discrete}
use hawse.Proto.Port.{Kind, Port}
use hawse.Server.Ports.{PortAllocator, holds}

abbrev numbered : Kind → ℕ → Port
numbered kind x = record { number = x; kind = kind }

-- The free ones of `n` numbers from `x`.
pub free : PortAllocator → Kind → ℕ → ℕ → ℕ
free a kind x zero = 0
free a kind x (suc n) =
    let rest = free a kind (x + 1) n in if holds a (numbered kind x) then rest else suc rest

-- All that `a` holds, `b` holds.
abbrev pub Within : PortAllocator → PortAllocator → Type 0
Within a b = (q : Port) → holds a q ≡ true → holds b q ≡ true

pub free-le : (a : PortAllocator) (kind : Kind) (x n : ℕ) → free a kind x n ≤ n
unfolding free
free-le a kind x zero = omega arith
free-le a kind x (suc n) = ground (arith, free-le a kind (x + 1) n)

pub free_mono :
    (a b : PortAllocator) (kind : Kind) (x n : ℕ) → Within a b → free b kind x n ≤ free a kind x n
unfolding free
free_mono a b kind x zero w = omega arith
free_mono a b kind x (suc n) w = ground (arith, free_mono a b kind (x + 1) n w, w (numbered kind x))

pub free-lt :
    (a b : PortAllocator) (kind : Kind) (x n y : ℕ)
    → Within a b
    → x ≤ y
    → y < x + n
    → holds a (numbered kind y) ≡ false
    → holds b (numbered kind y) ≡ true
    → free b kind x n < free a kind x n
unfolding free
free-lt a b kind x zero y w h k out held = absurd (omega arith)
free-lt a b kind x (suc n) y w h k out held = elim (ℕ_discrete x y) [
  | yes e ↦ ground (arith, free_mono a b kind (x + 1) n w, e, out, held)
  | no ne ↦
      let ih = free-lt a b kind (x + 1) n y w (omega arith) (omega arith) out held in
      ground (arith, ih, w (numbered kind x))
]
