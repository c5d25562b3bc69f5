-- ===== src/Server/Limiter/Sweeping.antt =====
-- What a sweep leaves of the table of buckets.
use hawse.Base.{
  ℕ, ◌≤◌, ◌≡◌, refl, subst, [], ◌∷◌, ◌&&◌, Option, none, some, leb, ◌/◌, if◌then◌else◌, arith,
  Bool-cases, inl, inr,
}
use hawse.Base.Dict.{Dict, get, size, Distinct}
use hawse.Base.Net.{IpAddr, ip_discrete}
use hawse.Server.Limiter.{Floats, max_tracked, Bucket, Limiter, refill, retain, sweep}

module _ (f : Floats) where
  open f use {F, of}

  size-retain :
      (capacity : F) (now : ℕ) (m : Dict IpAddr (Bucket F))
      → size ip_discrete (retain f capacity now m) ≤ size ip_discrete m
  unfolding retain size
  size-retain capacity now [] = omega arith
  size-retain capacity now ((k, b) ∷ m) = ground (arith, size-retain capacity now m)

  get-retain :
      (capacity : F) (now : ℕ) (k : IpAddr) (m : Dict IpAddr (Bucket F))
      → get ip_discrete k m ≡ none
      → get ip_discrete k (retain f capacity now m) ≡ none
  unfolding retain get
  get-retain capacity now k [] h = refl
  get-retain capacity now k ((j, b) ∷ m) h = ground (arith, get-retain capacity now k m)

  -- No more addresses than the bound, each with one bucket.
  abbrev pub IsTable : Limiter F → Type 0
  IsTable l = (size ip_discrete l.buckets ≤ max_tracked) × Distinct ip_discrete l.buckets

  retain-Distinct :
      (capacity : F) (now : ℕ) (m : Dict IpAddr (Bucket F))
      → Distinct ip_discrete m
      → Distinct ip_discrete (retain f capacity now m)
  unfolding retain
  retain-Distinct capacity now [] d = tt
  retain-Distinct capacity now ((k, b) ∷ m) d =
      elim (Bool-cases (f.lt (refill f capacity now b).tokens capacity)) [
        | inl e ↦ rw e (get-retain capacity now k m d.0, retain-Distinct capacity now m d.1)
        | inr e ↦ rw e (retain-Distinct capacity now m d.1)
      ]

  -- A bucket after a sweep: refilled, and gone once it is full.
  abbrev pub refreshed : F → ℕ → Option (Bucket F) → Option (Bucket F)
  refreshed capacity now none = none
  refreshed capacity now (some b) =
      if f.lt (refill f capacity now b).tokens capacity
      then some (refill f capacity now b)
      else none

  get-refreshed :
      (capacity : F) (now : ℕ) (j : IpAddr) (m : Dict IpAddr (Bucket F))
      → Distinct ip_discrete m
      → get ip_discrete j (retain f capacity now m) ≡ refreshed capacity now (get ip_discrete j m)
  unfolding retain get
  get-refreshed capacity now j [] d = refl
  get-refreshed capacity now j ((k, b) ∷ m) d =
      elim (Bool-cases (f.lt (refill f capacity now b).tokens capacity)) [
        | inl e ↦ rw e ground (
          arith,
          e,
          get-refreshed capacity now j m d.1,
          λ (same : k ≡ j).
              get-retain capacity now j m (subst (λ x. get ip_discrete x m ≡ none) same d.0),
        )
        | inr e ↦ rw e ground (
          arith,
          e,
          get-refreshed capacity now j m d.1,
          λ (same : k ≡ j).
              get-retain capacity now j m (subst (λ x. get ip_discrete x m ≡ none) same d.0),
        )
      ]

  -- A sweep, and what it says of itself: its time, and that the warning of a full table is due again
  -- once half the table is free.
  pub record Swept (now : ℕ) (l l' : Limiter F) : Type 0 where
    pub each :
        (j : IpAddr)
        → get ip_discrete j l'.buckets
          ≡ refreshed (of l.per_minute) now (get ip_discrete j l.buckets)
    pub dated : l'.last_sweep ≡ some now
    pub rearmed :
        l'.full_warned ≡ (leb (max_tracked / 2) (size ip_discrete l'.buckets) && l.full_warned)
    pub same_limit : l'.per_minute ≡ l.per_minute
    pub same_pending : l'.pending ≡ l.pending
    pub table : IsTable l'

  pub sweep-Swept :
      (now : ℕ) (l : Limiter F) → IsTable l → Swept now l (sweep f (of l.per_minute) now l)
  unfolding sweep
  sweep-Swept now l (small, d) = record {
    each = λ j. get-refreshed (of l.per_minute) now j l.buckets d;
    dated = refl;
    rearmed = ground arith;
    same_limit = refl;
    same_pending = refl;
    table = (
      omega (arith, size-retain (of l.per_minute) now l.buckets),
      retain-Distinct (of l.per_minute) now l.buckets d,
    );
  }

  pub get-sweep :
      (capacity : F) (now : ℕ) (k : IpAddr) (l : Limiter F)
      → get ip_discrete k l.buckets ≡ none
      → get ip_discrete k (sweep f capacity now l).buckets ≡ none
  unfolding sweep
  get-sweep capacity now k l h = get-retain capacity now k l.buckets h
