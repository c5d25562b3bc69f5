-- ===== src/Server/Limiter/Table.antt =====
-- What a failed authentication does to the table of buckets.
use hawse.Base.{
  ℕ, ◌≤◌, ◌<◌, ◌≡◌, ◌≢◌, refl, sym, ap, ◌∙◌, subst, Bool, true, false, ◌||◌, ◌&&◌, not, Option,
  none, some, ◌==◌, leb, if◌then◌else◌, ite_same, ite_other, arith, Bool-cases, Option-cases, inl,
  inr,
}
use hawse.Base.Dict.{
  Dict, get, insert, size, size-insert_new, size-insert_old, get-insert, insert-Distinct,
}
use hawse.Base.Net.{IpAddr, ip_discrete}
use hawse.Server.Limiter.{
  Floats, Failure, counted, now_limited, untracked, disabled, max_tracked, key, is_none, unwrap_or,
  Bucket, Limiter, refill, may_sweep, sweep, swept, count, count_or_not, failed,
}
use hawse.Server.Limiter.Sweeping.{IsTable, Swept, sweep-Swept, get-sweep}

module _ (f : Floats) where
  open f use {F, of}

  -- Whether the table has no bucket for `k` and no room for one.
  abbrev pub full : IpAddr → Limiter F → Bool
  full k l = is_none (get ip_discrete k l.buckets) && leb max_tracked (size ip_discrete l.buckets)

  -- The table in which a failure at `now` looks for its bucket: it is swept where it is full, at most
  -- once a second.
  abbrev pub Cleared : IpAddr → ℕ → Limiter F → Limiter F → Type 0
  Cleared k now l l' =
      if◌then◌else◌ {A = Type 0} (full k l && may_sweep now l.last_sweep) (Swept f now l l')
        (l' ≡ l)

  -- The bucket that is charged, a new full one where there is none, and the tokens it has left.
  abbrev pub before : F → ℕ → Option (Bucket F) → Bucket F
  before capacity now none =
      refill f capacity now (record { tokens = capacity; since = now; warned = false })
  before capacity now (some b) = refill f capacity now b

  abbrev pub left : F → ℕ → Option (Bucket F) → F
  left capacity now o = f.most (f.minus (before capacity now o).tokens (of 1)) (of 0)

  -- A failure that is counted takes one token of its address's bucket. The first that leaves less than
  -- one is told, and marks the bucket until it has refilled.
  pub record Charged (now : ℕ) (capacity : F) (k : IpAddr) (l : Limiter F) (r : Failure × Limiter F)
      : Type 0 where
    pub charged :
        get ip_discrete k r.1.buckets
        ≡ some (record {
          tokens = left capacity now (get ip_discrete k l.buckets);
          since = now;
          warned =
              not (f.ge (left capacity now (get ip_discrete k l.buckets)) (of 1))
              || (before capacity now (get ip_discrete k l.buckets)).warned;
        })
    pub others : (j : IpAddr) → k ≢ j → get ip_discrete j r.1.buckets ≡ get ip_discrete j l.buckets
    pub verdict : r.0 ≡ (
        if f.ge (left capacity now (get ip_discrete k l.buckets)) (of 1)
          || (before capacity now (get ip_discrete k l.buckets)).warned
        then counted
        else now_limited)
    pub same_limit : r.1.per_minute ≡ l.per_minute
    pub same_pending : r.1.pending ≡ l.pending
    pub same_sweep : r.1.last_sweep ≡ l.last_sweep
    pub same_warned : r.1.full_warned ≡ l.full_warned
    pub table : IsTable f r.1

  -- What a failure does. Where the limiter is off it changes nothing. Otherwise, in the table swept or
  -- not, it is charged to its address, or the table is full of other addresses and it is not tracked.
  abbrev pub Failed : IpAddr → ℕ → Limiter F → Failure × Limiter F → Type 0
  Failed k now l r = if◌then◌else◌ {A = Type 0} (l.per_minute == 0) (r ≡ (disabled, l)) (
      (l' : Limiter F) × Cleared k now l l'
      × if◌then◌else◌ {A = Type 0} (full k l')
          ((r ≡ (untracked, record l' { full_warned = true })) × IsTable f r.1)
          (Charged now (of l.per_minute) k l' r))

  entered :
      (k : IpAddr) (b : Bucket F) (m : Dict IpAddr (Bucket F))
      → size ip_discrete m ≤ max_tracked
      → (is_none (get ip_discrete k m) && leb max_tracked (size ip_discrete m)) ≡ false
      → size ip_discrete (insert ip_discrete k b m) ≤ max_tracked
  unfolding is_none
  entered k b m h room = elim (Option-cases (get ip_discrete k m)) [
    | inl e ↦
        let r = rw e at room in
        let less : size ip_discrete m < max_tracked = ground arith in
        omega (arith, size-insert_new ip_discrete k b m e, less)
    | inr (c, e) ↦ omega (arith, size-insert_old ip_discrete k b m (λ n. absurd (ground arith)))
  ]

  quiet_or : (g w : Bool) → (not (g || w) || w) ≡ (not g || w)
  quiet_or true w = ground arith
  quiet_or false w = ground arith

  -- The bucket after the charge, as `count` has it.
  abbrev charge : F → ℕ → Option (Bucket F) → Bucket F
  charge capacity now o = record {
    tokens = left capacity now o;
    since = now;
    warned =
        not (f.ge (left capacity now o) (of 1) || (before capacity now o).warned)
        || (before capacity now o).warned;
  }

  abbrev counting : F → ℕ → IpAddr → Option (Bucket F) → Limiter F → Failure × Limiter F
  counting capacity now k o l = (
    if f.ge (left capacity now o) (of 1) || (before capacity now o).warned
        then counted
        else now_limited,
    record l { buckets = insert ip_discrete k (charge capacity now o) l.buckets },
  )

  count-counting :
      (capacity : F) (now : ℕ) (k : IpAddr) (l : Limiter F) (o : Option (Bucket F))
      → get ip_discrete k l.buckets ≡ o
      → count f capacity now k l ≡ counting capacity now k o l
  unfolding count unwrap_or refill
  count-counting capacity now k l none e = rw e refl
  count-counting capacity now k l (some b) e = rw e refl

  count-Charged :
      (capacity : F) (now : ℕ) (k : IpAddr) (l : Limiter F)
      → IsTable f l
      → full k l ≡ false
      → Charged now capacity k l (count f capacity now k l)
  count-Charged capacity now k l (small, d) room =
      let o = get ip_discrete k l.buckets in
      let b = charge capacity now o in
      let g = f.ge (left capacity now o) (of 1) in
      let same = quiet_or g (before capacity now o).warned in
      subst (Charged now capacity k l) (sym (count-counting capacity now k l o refl)) (record {
        charged =
            get-insert ip_discrete k k b l.buckets
            ∙ ite_same ip_discrete k (some b) _
            ∙ ap (λ w. some (record b { warned = w })) same;
        others =
            λ j ne. get-insert ip_discrete j k b l.buckets ∙ ite_other ip_discrete (some b) _ ne;
        verdict = refl;
        same_limit = refl;
        same_pending = refl;
        same_sweep = refl;
        same_warned = refl;
        table = (entered k b l.buckets small room, insert-Distinct ip_discrete k b l.buckets d);
      })

  -- A result in the table `l`, swept or not.
  abbrev Counts : F → ℕ → IpAddr → Limiter F → Failure × Limiter F → Type 0
  Counts capacity now k l r =
      if◌then◌else◌ {A = Type 0} (full k l)
        ((r ≡ (untracked, record l { full_warned = true })) × IsTable f r.1)
        (Charged now capacity k l r)

  count_or_not-Counts :
      (capacity : F) (now : ℕ) (k : IpAddr) (l : Limiter F)
      → IsTable f l
      → get ip_discrete k l.buckets ≡ none
      → Counts capacity now k l (count_or_not f capacity now k l)
  unfolding count_or_not is_none
  count_or_not-Counts capacity now k l t h =
      elim (Bool-cases (leb max_tracked (size ip_discrete l.buckets))) [
        | inl e ↦ rw (h, e) (refl, t)
        | inr e ↦ rw (h, e) (count-Charged capacity now k l t (rw (h, e) refl))
      ]

  full-none : (k : IpAddr) (l : Limiter F) → full k l ≡ true → get ip_discrete k l.buckets ≡ none
  unfolding is_none
  full-none k l h = elim (Option-cases (get ip_discrete k l.buckets)) [
    | inl e ↦ e
    | inr (b, e) ↦ absurd (let g = rw e at h in ground arith)
  ]

  chosen_first : {b : Bool} (x y : Failure × Limiter F) → b ≡ true → (if b then x else y) ≡ x
  chosen_first x y h = rw h refl

  chosen_second : {b : Bool} (x y : Failure × Limiter F) → b ≡ false → (if b then x else y) ≡ y
  chosen_second x y h = rw h refl

  looked-Failed :
      (now : ℕ) (k : IpAddr) (l : Limiter F)
      → IsTable f l
      → (l' : Limiter F) × Cleared k now l l'
        × Counts (of l.per_minute) now k l' (
            if full k l
            then count_or_not f (of l.per_minute) now k (swept f (of l.per_minute) now l)
            else count f (of l.per_minute) now k l)
  unfolding swept
  looked-Failed now k l t =
      let capacity = of l.per_minute in
      elim (Bool-cases (full k l)) [
        | inl h ↦ elim (Bool-cases (may_sweep now l.last_sweep)) [
          | inl m ↦
              let l1 = sweep f capacity now l in
              let done = sweep-Swept f now l t in
              (
                l1,
                rw (h, m) done,
                rw (h, m)
                    (count_or_not-Counts capacity now k l1 done.table
                      (get-sweep f capacity now k l (full-none k l h))),
              )
          | inr m ↦ (
            l,
            rw (h, m) refl,
            rw m (
                subst (Counts capacity now k l) (sym (chosen_first _ _ h))
                  (count_or_not-Counts capacity now k l t (full-none k l h))),
          )
        ]
        | inr h ↦ (
          l,
          rw h refl,
          subst (Counts capacity now k l) (sym (chosen_second _ _ h))
              (rw h (count-Charged capacity now k l t h)),
        )
      ]

  -- What a failed authentication does, at any time. Where the limiter is off, nothing. Otherwise the
  -- table is swept of the buckets that have refilled if it is full of other addresses and was not swept
  -- within a second; then, if it is still full of others, the address stays untracked, and else one
  -- token is taken from its bucket, a full one where it has none, no other bucket changes, and the
  -- first failure that leaves less than a token is told as the limit. The table stays within its bound.
  pub failed-Failed :
      (ip : IpAddr) (now : ℕ) (l : Limiter F)
      → IsTable f l
      → Failed (key ip) now l (failed f ip now l)
  unfolding failed
  failed-Failed ip now l t = elim (Bool-cases (l.per_minute == 0)) [
    | inl e ↦ rw e refl
    | inr e ↦ rw e (looked-Failed now (key ip) l t)
  ]
