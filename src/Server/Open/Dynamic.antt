-- ===== src/Server/Open/Dynamic.antt =====
-- The walk for a dynamic port: it ends, and gives back what it was refused.
use hawse.Base.{
  ℕ, zero, suc, ◌<◌, ◌≡◌, refl, sym, ap, ◌∙◌, List, [], ◌∷◌, Bool, true, false, Option, none, some,
  if◌then◌else◌, arith, ite, Bool-cases, inl, inr, ite_same,
}
use hawse.Base.Sets.{has}
use hawse.Proto.Port.{Kind, Port, len, port_discrete}
use hawse.Proto.Msg.{in_use}
use hawse.Server.Ports.{PortAllocator, holds, claim_dynamic, release}
use hawse.Server.Ports.Walk.{IsValid, InSpan, Claimed, claim_dynamic-Claimed}
use hawse.Server.Ports.Claims.{holds-release}
use hawse.Server.Open.{Opened, opened, failed, spinning, release_all, walk_on, open_dynamic}
use hawse.Server.Open.Free.{free, free-lt}

pub holds-release_all :
    (l : List Port) (a : PortAllocator) (q : Port)
    → holds (release_all l a) q ≡ (if has port_discrete q l then false else holds a q)
unfolding release_all has
holds-release_all [] a q = refl
holds-release_all (p ∷ l) a q =
    ground (arith, holds-release_all l (release p a).1 q, (holds-release p q a).1)

pub release-IsValid : (p : Port) (a : PortAllocator) → IsValid a → IsValid (release p a).1
unfolding release
release-IsValid p a v = record {
  ordered = v.ordered;
  ports = v.ports;
  from = v.from;
  upto = v.upto;
}

span-release : (p : Port) (a : PortAllocator) → (release p a).1.span ≡ a.span
unfolding release
span-release p a = refl

pub release_all-IsValid :
    (l : List Port) (a : PortAllocator) → IsValid a → IsValid (release_all l a)
unfolding release_all
release_all-IsValid [] a v = v
release_all-IsValid (p ∷ l) a v = release_all-IsValid l _ (release-IsValid p a v)

pub span-release_all : (l : List Port) (a : PortAllocator) → (release_all l a).span ≡ a.span
unfolding release_all
span-release_all [] a = refl
span-release_all (p ∷ l) a = span-release_all l _ ∙ span-release p a

-- Both hold the same ports.
abbrev pub Alike : PortAllocator → PortAllocator → Type 0
Alike a b = (q : Port) → holds b q ≡ holds a q

-- `b` holds `p`, and otherwise what `a` does.
abbrev pub Holding : Port → PortAllocator → PortAllocator → Type 0
Holding p a b = (q : Port) → holds b q ≡ ite (port_discrete p q) true (holds a q)

abbrev pub Sane : PortAllocator → PortAllocator → Type 0
Sane a b = IsValid b × (b.span ≡ a.span)

-- What a dynamic open gives: a free port of the pool that the host takes, or the news that every
-- port of the pool is held or refused by the host.
abbrev pub Walking : (Port → Bool) → Kind → PortAllocator → Opened × PortAllocator → Type 0
Walking host kind a (opened p, b) =
    (p.kind ≡ kind)
    × InSpan a.span p.number
    × (holds a p ≡ false)
    × (host p ≡ true)
    × Holding p a b
    × Sane a b
Walking host kind a (failed r, b) =
    (r ≡ in_use)
    × ((x : ℕ)
        → InSpan a.span x
        → let p : Port = record { number = x; kind = kind } in (holds a p ≡ false) → host p ≡ false)
    × Alike a b
    × Sane a b
Walking host kind a (spinning, b) = ⊥

-- Where a walk is: it holds what was held and the ports the host refused it.
pub record Walk (host : Port → Bool) (kind : Kind) (a : PortAllocator) (refused : List Port)
    (b : PortAllocator) : Type 0 where
  holding : (q : Port) → holds b q ≡ (if has port_discrete q refused then true else holds a q)
  fresh : (q : Port) → has port_discrete q refused ≡ true → holds a q ≡ false
  turned : (q : Port) → has port_discrete q refused ≡ true → host q ≡ false
  sane : Sane a b

pub start :
    (host : Port → Bool) (kind : Kind) (a : PortAllocator) → IsValid a → Walk host kind a [] a
unfolding has
start host kind a v = record {
  holding = λ q. refl;
  fresh = λ q h. absurd (ground arith);
  turned = λ q h. absurd (ground arith);
  sane = (v, refl);
}

holds-in_use : (a b : PortAllocator) (q : Port) → a.in_use ≡ b.in_use → holds a q ≡ holds b q
unfolding holds
holds-in_use a b q e = rw e

refused_lem :
    (a b : PortAllocator) (l : List Port) (q : Port)
    → holds b q ≡ (if has port_discrete q l then true else holds a q)
    → holds a q ≡ false
    → holds b q ≡ true
    → has port_discrete q l ≡ true
refused_lem a b l q h out held = ground arith

free_lem :
    (a b : PortAllocator) (l : List Port) (q : Port)
    → holds b q ≡ (if has port_discrete q l then true else holds a q)
    → holds b q ≡ false
    → (has port_discrete q l ≡ false) × (holds a q ≡ false)
free_lem a b l q h out = ground arith

module _ (host : Port → Bool) (kind : Kind) (a b : PortAllocator) (refused : List Port) where
  released :
      (c : PortAllocator)
      → Walk host kind a refused b
      → (q : Port) → holds c q ≡ holds b q
      → holds (release_all refused c) q ≡ holds a q
  released c w q e = ground (arith, holds-release_all refused c q, w.holding q, w.fresh q)

  module _ (p : Port) (c : PortAllocator) (w : Walk host kind a refused b) where
    taken :
        (q : Port)
        → holds b p ≡ false
        → holds c q ≡ ite (port_discrete p q) true (holds b q)
        → holds (release_all refused c) q ≡ ite (port_discrete p q) true (holds a q)
    taken q out e =
        ground (arith, holds-release_all refused c q, w.holding q, w.holding p, w.fresh q)

    less :
        p.kind ≡ kind
        → InSpan b.span p.number
        → holds b p ≡ false
        → Holding p b c
        → free c kind a.span.first (len a.span) < free b kind a.span.first (len a.span)
    unfolding len
    less k i out after =
        let i' = rw (w.sane.1) at i in
        let same : p ≡ record { number = p.number; kind = kind } =
          λ j. record { number = p.number; kind = k j } in
        free-lt b c kind a.span.first (len a.span) p.number (λ q h. rw (after q) (ground arith))
          i'.0 (omega arith) (sym (ap (holds b) same) ∙ out)
          (sym (ap (holds c) same) ∙ after p ∙ ite_same port_discrete p _ _)

    later :
        host p ≡ false
        → holds a p ≡ false
        → Holding p b c
        → Sane a c
        → Walk host kind a (p ∷ refused) c
    unfolding has
    later e out after sane = record {
      holding = λ q. ground (arith, after q, w.holding q);
      fresh = λ q h. ground (arith, w.fresh q);
      turned = λ q h. ground (arith, w.turned q);
      sane = sane;
    }

walk_on-Walking :
    (host : Port → Bool) (n : ℕ) (kind : Kind) (a b : PortAllocator) (refused : List Port)
    (c : Option Port × PortAllocator) (rest : Port → Opened × PortAllocator)
    → Walk host kind a refused b
    → Claimed b kind c
    → ((p : Port)
        → c.0 ≡ some p
        → free c.1 kind a.span.first (len a.span) < free b kind a.span.first (len a.span)
        → Walk host kind a (p ∷ refused) c.1
        → Walking host kind a (rest p))
    → Walking host kind a (walk_on host refused c rest)
unfolding walk_on
walk_on-Walking host n kind a b refused (none, c) rest w m next = (
  refl,
  (λ x i out. w.turned _ (refused_lem a b refused _ (w.holding _) out (m.0 x (rw (w.sane.1) i)))),
  (λ q. released host kind a b refused c w q (holds-in_use c b q m.1)),
  (release_all-IsValid refused c m.2, span-release_all refused c ∙ m.3 ∙ w.sane.1),
)
walk_on-Walking host n kind a b refused (some p, c) rest w m next = elim (Bool-cases (host p)) [
  | inl e ↦
      let out = free_lem a b refused p (w.holding p) m.2 in
      rw e (
        m.0,
        rw (← w.sane.1) m.1,
        out.1,
        e,
        (λ q. taken host kind a b refused p c w q (m.2) (m.4 q)),
        (release_all-IsValid refused c m.5, span-release_all refused c ∙ m.6 ∙ w.sane.1),
      )
  | inr e ↦
      let out = free_lem a b refused p (w.holding p) m.2 in
      rw e (
        next p refl (less host kind a b refused p c w m.0 m.1 m.2 m.4)
          (later host kind a b refused p c w e out.1 m.4 (m.5, m.6 ∙ w.sane.1)))
]

pub open_dynamic-Walking :
    (host : Port → Bool) (n : ℕ) (kind : Kind) (a b : PortAllocator) (refused : List Port)
    → Walk host kind a refused b
    → free b kind a.span.first (len a.span) < n
    → Walking host kind a (open_dynamic host n kind refused b)
unfolding open_dynamic
open_dynamic-Walking host zero kind a b refused w h = absurd (omega arith)
open_dynamic-Walking host (suc n) kind a b refused w h =
    walk_on-Walking host n kind a b refused (claim_dynamic kind b) _ w
      (claim_dynamic-Claimed kind b w.sane.0)
      λ p e less later. open_dynamic-Walking host n kind a _ (p ∷ refused) later (omega arith)
