-- ===== src/Server/Ports/Walk.antt =====
-- `claim_dynamic` takes the first free port at or after the cursor, in the cyclic order of the pool.
use hawse.Base.{
  ℕ, zero, suc, ◌+◌, ◌-◌, ◌^◌, ◌<◌, ◌≤◌, ◌≡◌, ◌≢◌, refl, sym, ap, ◌∙◌, true, false, Option, none,
  some, arith, ltb, if◌then◌else◌, Bool-cases, inl, inr, ite, ℕ_discrete,
}
use hawse.Base.Sets.{has-add}
use hawse.Proto.Port.{Kind, Port, PortSpan, port_discrete, len}
use hawse.Server.Ports.{
  PortAllocator, new, holds, take_port, advance, at_cursor, walk, claim_dynamic,
}

-- The cursor stays in the pool, and the pool is one of ports.
pub record IsValid (a : PortAllocator) : Type 0 where
  pub ordered : a.span.first ≤ a.span.last
  pub ports : a.span.last < 2 ^ 16
  pub from : a.span.first ≤ a.cursor
  pub upto : a.cursor ≤ a.span.last

-- How many steps the cursor takes to the number `x` of the pool.
abbrev pub ahead : PortAllocator → ℕ → ℕ
ahead a x = if ltb x a.cursor then x + len a.span - a.cursor else x - a.cursor

abbrev pub InSpan : PortSpan → ℕ → Type 0
InSpan s x = (s.first ≤ x) × (x ≤ s.last)

advance-IsValid : (a : PortAllocator) → IsValid a → IsValid (advance a)
unfolding advance
advance-IsValid a v = ground arith

ahead-advance :
    (a : PortAllocator) (x : ℕ)
    → IsValid a
    → InSpan a.span x
    → x ≢ a.cursor
    → suc (ahead (advance a) x) ≡ ahead a x
unfolding advance len
ahead-advance a x v i h = ground arith

-- Every number of the pool that comes before `n` steps is taken.
abbrev Passed : PortAllocator → Kind → ℕ → Type 0
Passed a kind n =
    (x : ℕ) → InSpan a.span x → ahead a x < n → holds a (record { number = x; kind = kind }) ≡ true

-- What a walk of `n` rounds gives: the port it took, `k` steps ahead, or that all it saw was taken.
abbrev Walked : PortAllocator → Kind → ℕ → Option Port × PortAllocator → Type 0
Walked a kind n (none, a') =
    Passed a kind n × (a'.in_use ≡ a.in_use) × IsValid a' × (a'.span ≡ a.span)
Walked a kind n (some p, a') =
    (p.kind ≡ kind)
    × InSpan a.span p.number
    × (holds a p ≡ false)
    × Passed a kind (ahead a p.number)
    × ((q : Port) → holds a' q ≡ ite (port_discrete p q) true (holds a q))
    × IsValid a'
    × (a'.span ≡ a.span)

holds-advance : (a : PortAllocator) (q : Port) → holds (advance a) q ≡ holds a q
unfolding holds advance
holds-advance a q = refl

span-advance : (a : PortAllocator) → (advance a).span ≡ a.span
unfolding advance
span-advance a = refl

in_use-advance : (a : PortAllocator) → (advance a).in_use ≡ a.in_use
unfolding advance
in_use-advance a = refl

Passed-advance :
    (a : PortAllocator) (kind : Kind) (n : ℕ)
    → IsValid a
    → holds a (at_cursor kind a) ≡ true
    → Passed (advance a) kind n
    → Passed a kind (suc n)
Passed-advance a kind n v taken p x i h = elim (ℕ_discrete x a.cursor) [
  | yes e ↦ rw e taken
  | no ne ↦
      sym (holds-advance a _)
      ∙ p x (rw (span-advance a) i) (omega (arith, ahead-advance a x v i ne))
]

ahead-cursor : (a : PortAllocator) → ahead a a.cursor ≡ 0
ahead-cursor a = ground arith

pub holds-take_port :
    (a : PortAllocator) (p q : Port)
    → holds (take_port p a) q ≡ ite (port_discrete p q) true (holds a q)
unfolding holds take_port
holds-take_port a p q = has-add port_discrete p q a.in_use

pub span-take_port : (a : PortAllocator) (p : Port) → (take_port p a).span ≡ a.span
unfolding take_port
span-take_port a p = refl

pub take_port-IsValid : (a : PortAllocator) (p : Port) → IsValid a → IsValid (take_port p a)
unfolding take_port
take_port-IsValid a p v = record {
  ordered = v.ordered;
  ports = v.ports;
  from = v.from;
  upto = v.upto;
}

Walked-later :
    (a : PortAllocator) (kind : Kind) (n : ℕ) (r : Option Port × PortAllocator)
    → IsValid a
    → holds a (at_cursor kind a) ≡ true
    → Walked (advance a) kind n r
    → Walked a kind (suc n) r
Walked-later a kind n (none, a') v taken (passed, same, v', s) =
    (Passed-advance a kind n v taken passed, same ∙ in_use-advance a, v', s ∙ span-advance a)
Walked-later a kind n (some p, a') v taken (k, i, free, passed, after, v', s) =
    let free' = sym (holds-advance a p) ∙ free in
    let here : p.number ≢ a.cursor = λ e.
      let same : p ≡ at_cursor kind a = λ j. record { number = e j; kind = k j } in
      cc (ap (holds a) same) in
    let i' = rw (span-advance a) at i in
    (
      k,
      i',
      free',
      rw (← ahead-advance a p.number v i' here) (Passed-advance a kind _ v taken passed),
      (λ q. rw (← holds-advance a q) (after q)),
      v',
      s ∙ span-advance a,
    )

walk-Walked :
    (n : ℕ) (kind : Kind) (a : PortAllocator) → IsValid a → Walked a kind n (walk n kind a)
unfolding walk
walk-Walked zero kind a v = ((λ x i h. absurd (omega arith)), refl, v, refl)
walk-Walked (suc n) kind a v = elim (Bool-cases (holds a (at_cursor kind a))) [
  | inl taken ↦
      rw taken
        (Walked-later a kind n _ v taken (walk-Walked n kind (advance a) (advance-IsValid a v)))
  | inr free ↦
      let p = at_cursor kind a in
      rw free (
        refl,
        (v.from, v.upto),
        free,
        (λ x i h. absurd (omega (arith, ahead-cursor a))),
        (λ q. rw (holds-take_port (advance a) p q, holds-advance a q)),
        take_port-IsValid (advance a) p (advance-IsValid a v),
        span-take_port (advance a) p ∙ span-advance a,
      )
]

ahead-lt-len : (a : PortAllocator) (x : ℕ) → IsValid a → InSpan a.span x → ahead a x < len a.span
unfolding len
ahead-lt-len a x v i = ground arith

-- What a dynamic claim gives. A port: one of the pool that was free, the first such in the cyclic
-- order from the cursor, and now the only port more that is taken. None: the whole pool is taken for
-- that protocol, and nothing changes what is taken.
abbrev pub Claimed : PortAllocator → Kind → Option Port × PortAllocator → Type 0
Claimed a kind (none, a') =
    ((x : ℕ) → InSpan a.span x → holds a (record { number = x; kind = kind }) ≡ true)
    × (a'.in_use ≡ a.in_use)
    × IsValid a'
    × (a'.span ≡ a.span)
Claimed a kind (some p, a') =
    (p.kind ≡ kind)
    × InSpan a.span p.number
    × (holds a p ≡ false)
    × ((x : ℕ)
        → InSpan a.span x
        → ahead a x < ahead a p.number
        → holds a (record { number = x; kind = kind }) ≡ true)
    × ((q : Port) → holds a' q ≡ ite (port_discrete p q) true (holds a q))
    × IsValid a'
    × (a'.span ≡ a.span)

Walked-Claimed :
    (a : PortAllocator) (kind : Kind) (r : Option Port × PortAllocator)
    → IsValid a
    → Walked a kind (len a.span) r
    → Claimed a kind r
Walked-Claimed a kind (none, a') v w = ((λ x i. w.0 x i (ahead-lt-len a x v i)), w.1, w.2, w.3)
Walked-Claimed a kind (some p, a') v w = w

-- `claim_dynamic` gives the first free port from the cursor on, and `None` only if none is free.
pub claim_dynamic-Claimed :
    (kind : Kind) (a : PortAllocator) → IsValid a → Claimed a kind (claim_dynamic kind a)
unfolding claim_dynamic
claim_dynamic-Claimed kind a v =
    Walked-Claimed a kind (walk (len a.span) kind a) v (walk-Walked (len a.span) kind a v)

-- A new allocator over a pool of ports is valid.
pub new-IsValid : (s : PortSpan) → s.first ≤ s.last → s.last < 2 ^ 16 → IsValid (new s)
unfolding new
new-IsValid s h k = record { ordered = h; ports = k; from = omega arith; upto = h }
