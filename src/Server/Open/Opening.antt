-- ===== src/Server/Open/Opening.antt =====
-- `open` ends, holds the port it gives and no other, and on a failure holds what was held before.
use hawse.Base.{
  ℕ, suc, ◌≡◌, refl, ◌∙◌, [], ◌∷◌, Bool, true, false, Option, none, some, if◌then◌else◌, arith,
  Bool-cases, inl, inr,
}
use hawse.Base.Sets.{has}
use hawse.Proto.Port.{Kind, Port, len}
use hawse.Proto.Msg.{BindFailure, not_granted, in_use}
use hawse.Server.Policy.{Grant, allows}
use hawse.Server.Ports.{PortAllocator, holds, claim, take_port}
use hawse.Server.Ports.Walk.{IsValid, InSpan, holds-take_port, take_port-IsValid, span-take_port}
use hawse.Server.Open.{
  Opened, opened, failed, spinning, release_all, open_claimed, open_fixed, open_port,
}
use hawse.Server.Open.Free.{free-le}
use hawse.Server.Open.Dynamic.{
  Alike, Holding, Sane, Walking, holds-release_all, release_all-IsValid, span-release_all, start,
  open_dynamic-Walking,
}

-- Why a port is not given: no grant of it, or it is held or refused by the host; and for a dynamic
-- one, that every port of the pool is.
abbrev pub Why :
    {Net : Type 0}
    → Grant Net
    → (Port → Bool)
    → Kind
    → Option ℕ
    → PortAllocator
    → BindFailure
    → Type 0
Why g host kind none a r =
    (r ≡ in_use)
    × ((x : ℕ)
        → InSpan a.span x
        → let p : Port = record { number = x; kind = kind } in (holds a p ≡ false) → host p ≡ false)
Why g host kind (some x) a r =
    let p : Port = record { number = x; kind = kind } in
    (r ≡ (if allows g p then in_use else not_granted))
    × (allows g p ≡ true → holds a p ≡ false → host p ≡ false)

-- The port is the one asked for, and granted, or one of the pool.
abbrev pub Wished : {Net : Type 0} → Grant Net → Kind → Option ℕ → PortAllocator → Port → Type 0
Wished g kind none a p = (p.kind ≡ kind) × InSpan a.span p.number
Wished g kind (some x) a p = (p ≡ record { number = x; kind = kind }) × (allows g p ≡ true)

abbrev pub Answers :
    {Net : Type 0}
    → Grant Net
    → (Port → Bool)
    → Kind
    → Option ℕ
    → PortAllocator
    → Opened × PortAllocator
    → Type 0
Answers g host kind wish a (opened p, b) =
    Wished g kind wish a p × (holds a p ≡ false) × (host p ≡ true) × Holding p a b × Sane a b
Answers g host kind wish a (failed r, b) = Why g host kind wish a r × Alike a b × Sane a b
Answers g host kind wish a (spinning, b) = ⊥

Walking-Answers :
    {Net : Type 0} (g : Grant Net) (host : Port → Bool) (kind : Kind) (a : PortAllocator)
    (r : Opened × PortAllocator)
    → Walking host kind a r
    → Answers g host kind none a r
Walking-Answers g host kind a (opened p, b) (k, i, out, e, after, sane) =
    ((k, i), out, e, after, sane)
Walking-Answers g host kind a (failed r, b) (e, none_left, alike, sane) =
    ((e, none_left), alike, sane)
Walking-Answers g host kind a (spinning, b) h = h

returned :
    (a : PortAllocator) (p q : Port)
    → holds a p ≡ false
    → holds (release_all (p ∷ []) (take_port p a)) q ≡ holds a q
unfolding has
returned a p q out =
    ground (arith, holds-release_all (p ∷ []) (take_port p a) q, holds-take_port a p q)

open_claimed-Answers :
    {Net : Type 0} (g : Grant Net) (host : Port → Bool) (a : PortAllocator) (p : Port)
    → IsValid a
    → allows g p ≡ true
    → Answers g host p.kind (some p.number) a (open_claimed host p (claim p a))
unfolding open_claimed claim
open_claimed-Answers g host a p v granted =
    let eta : p ≡ record { number = p.number; kind = p.kind } = refl in
    elim (Bool-cases (holds a p)) [
      | inl e ↦ rw e ((rw granted refl, λ _ out. absurd (ground arith)), (λ q. refl), (v, refl))
      | inr e ↦ elim (Bool-cases (host p)) [
        | inl h ↦
            rw (e, h)
              (
                (refl, granted),
                e,
                h,
                holds-take_port a p,
                (take_port-IsValid a p v, span-take_port a p),
              )
        | inr h ↦
            rw (e, h)
              (
                (rw granted refl, λ _ _. h),
                (λ q. returned a p q e),
                (
                  release_all-IsValid (p ∷ []) _ (take_port-IsValid a p v),
                  span-release_all (p ∷ []) _ ∙ span-take_port a p,
                ),
              )
      ]
    ]

open_fixed-Answers :
    {Net : Type 0} (g : Grant Net) (host : Port → Bool) (a : PortAllocator) (p : Port)
    → IsValid a
    → Answers g host p.kind (some p.number) a (open_fixed g host p a)
unfolding open_fixed
open_fixed-Answers g host a p v = elim (Bool-cases (allows g p)) [
  | inl e ↦ rw e (open_claimed-Answers g host a p v e)
  | inr e ↦ rw e ((rw e refl, λ h. absurd (ground arith)), (λ q. refl), (v, refl))
]

-- `open` ends, whatever the host refuses. The port it gives is the one asked for, and granted, or one
-- of the pool; it was free, the host binds it, and it is the only port more that is held. A failure
-- says whether the grant or the port was missing, and leaves every port as it was: the ports the host
-- refused on the way are given back.
pub open_port-Answers :
    {Net : Type 0} (g : Grant Net) (host : Port → Bool) (kind : Kind) (wish : Option ℕ)
    (a : PortAllocator)
    → IsValid a
    → Answers g host kind wish a (open_port g host kind wish a)
unfolding open_port
open_port-Answers g host kind none a v = Walking-Answers g host kind a _ (
    open_dynamic-Walking host (suc (len a.span)) kind a a [] (start host kind a v)
      (omega (arith, free-le a kind a.span.first (len a.span))))
open_port-Answers g host kind (some x) a v =
    open_fixed-Answers g host a (record { number = x; kind = kind }) v
