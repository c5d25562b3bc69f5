-- ===== src/Client/Backoff.antt =====
-- crates/hawse-core/src/client/backoff.rs: the wait before the next dial. The step is in whole seconds,
-- as `FIRST` and `CAP` are, and every other duration in nanoseconds. The floating-point numbers come in
-- as a record of their operations.
use hawse.Base.{ℕ, zero, suc, ◌+◌, ◌*◌, ◌^◌, ◌≤◌, ◌<◌, ◌≡◌, ap, min, leb, if◌then◌else◌, arith}

-- `f64`: `mul_f64` is `Duration::mul_f64` of whole seconds, in nanoseconds.
pub record Floats : Type 1 where
  pub F : Type 0
  pub half : F
  pub plus : F → F → F
  pub times : F → F → F
  pub mul_f64 : ℕ → F → ℕ

pub record Backoff : Type 0 where
  pub failures : ℕ

abbrev pub first : ℕ
first = 1

abbrev pub cap : ℕ
cap = 30

abbrev pub healthy : ℕ
healthy = 60 * 10 ^ 9

-- The bound of a u32.
abbrev pub max_u32 : ℕ
max_u32 = 4294967295

-- `failures = 0` after a session that lasted.
unfoldable pub restart : ℕ → Backoff → Backoff
restart lasted b = if leb healthy lasted then record { failures = 0 } else b

-- `2u32.saturating_pow(failures)`, by doubling as far as a u32 goes.
unfoldable pub saturating_pow : ℕ → ℕ
saturating_pow zero = 1
saturating_pow (suc n) = min max_u32 (2 * saturating_pow n)

-- The step after so many failures. Saturation of the `Duration` is far above the cap.
unfoldable pub step : Backoff → ℕ
step b = min (first * saturating_pow b.failures) cap

-- The wait and the next state; `unit` places the wait between half the step and all of it.
unfoldable pub next : (f : Floats) → ℕ → f.F → Backoff → ℕ × Backoff
unfolding step
next f lasted unit b =
    let b' = restart lasted b in
    (
      f.mul_f64 (step b') (f.plus f.half (f.times f.half unit)),
      record { failures = min max_u32 (b'.failures + 1) },
    )

-- `Duration::mul_f64` by a factor 0.5 + 0.5 * unit with `unit` in [0, 1], which `InUnit` says: the
-- product is between half the whole seconds and all of them.
abbrev pub Places : (f : Floats) → (f.F → Type 0) → Type 0
Places f InUnit =
    (n : ℕ) (unit : f.F)
    → InUnit unit
    → (n * 500000000 ≤ f.mul_f64 n (f.plus f.half (f.times f.half unit)))
      × (f.mul_f64 n (f.plus f.half (f.times f.half unit)) ≤ n * 1000000000)

pow-pos : (n : ℕ) → 1 ≤ saturating_pow n
unfolding saturating_pow
pow-pos zero = omega arith
pow-pos (suc n) = omega (arith, pow-pos n)

pow-next :
    (n : ℕ)
    → n < max_u32
    → saturating_pow (min max_u32 (n + 1)) ≡ min max_u32 (2 * saturating_pow n)
unfolding saturating_pow
pow-next n h = let e : min max_u32 (n + 1) ≡ suc n = omega arith in ap saturating_pow e

restart-cases : (lasted : ℕ) (b : Backoff) → lasted < healthy → restart lasted b ≡ b
unfolding restart
restart-cases lasted b h = ground arith

saturating_pow-min : (n : ℕ) → saturating_pow n ≡ min max_u32 (2 ^ n)
unfolding saturating_pow
saturating_pow-min zero = omega arith
saturating_pow-min (suc n) = omega (arith, saturating_pow-min n)

-- The step doubles with each failure, up to the cap.
pub step_lem : (b : Backoff) → step b ≡ min (2 ^ b.failures) 30
unfolding step
step_lem b = omega (arith, saturating_pow-min b.failures)

step-bounds : (b : Backoff) → (1 ≤ step b) × (step b ≤ cap)
unfolding step
step-bounds b = (omega (arith, pow-pos b.failures), omega (arith, pow-pos b.failures))

-- The wait is at least half a second, and at most the cap.
pub next-bounds :
    (f : Floats) (InUnit : f.F → Type 0) (places : Places f InUnit) (lasted : ℕ) (unit : f.F)
    (b : Backoff)
    → InUnit unit
    → (500000000 ≤ (next f lasted unit b).0) × ((next f lasted unit b).0 ≤ 30000000000)
unfolding next
next-bounds f InUnit places lasted unit b u =
    let s = restart lasted b in
    let (low, high) = places (step s) unit u in
    let (one, most) = step-bounds s in (omega (arith, low, one), omega (arith, high, most))

-- Once there is another failure, the step is twice as long, up to the cap, unless the session lasted.
pub step-next :
    (f : Floats) (lasted : ℕ) (unit : f.F) (b : Backoff)
    → lasted < healthy
    → b.failures < max_u32
    → step (next f lasted unit b).1 ≡ min (2 * step b) cap
unfolding next step
step-next f lasted unit b h l =
    let p = pow-pos b.failures in
    let q = pow-next b.failures l in rw (restart-cases lasted b h) (omega (arith, p, q))
