-- ===== src/Server/Limiter/Pending.antt =====
-- The attempts under way.
use hawse.Base.{
  ℕ, ◌+◌, ◌-◌, ◌%◌, ◌^◌, ◌<◌, ◌≡◌, ◌≢◌, refl, sym, ap, ◌∙◌, subst, Bool, true, ◌&&◌, not, none,
  some, ◌==◌, if◌then◌else◌, arith, Bool-cases, Option-cases, inl, inr, ite,
}
use hawse.Base.Dict.{get, get-insert, get-remove}
use hawse.Base.Net.{IpAddr, ip_discrete}
use hawse.Server.Limiter.{
  Floats, key, unwrap_or, Limiter, tokens_of, enough, permits, hold, begin, end, end_pending,
}

-- The attempts of a key under way.
abbrev pub under_way : {F : Type 0} → IpAddr → Limiter F → ℕ
under_way k l = unwrap_or 0 (get ip_discrete k l.pending)

-- An entry counts an attempt at least, and fits a u32.
abbrev pub IsCounted : {F : Type 0} → Limiter F → Type 0
IsCounted l = (k : IpAddr) (c : ℕ) → get ip_discrete k l.pending ≡ some c → (0 < c) × (c < 2 ^ 32)

module _ (f : Floats) where
  open f use {F, of}

  pending-permits :
      (ip : IpAddr) (now : ℕ) (l : Limiter F) → (permits f ip now l).1.pending ≡ l.pending
  unfolding permits enough tokens_of
  pending-permits ip now l = elim (Bool-cases (l.per_minute == 0)) [
    | inl e ↦ rw e refl
    | inr e ↦ elim (Option-cases (get ip_discrete (key ip) l.buckets)) [
      | inl g ↦ rw (e, g) refl
      | inr (b, g) ↦ rw (e, g) refl
    ]
  ]

  per_minute-permits :
      (ip : IpAddr) (now : ℕ) (l : Limiter F) → (permits f ip now l).1.per_minute ≡ l.per_minute
  unfolding permits enough tokens_of
  per_minute-permits ip now l = elim (Bool-cases (l.per_minute == 0)) [
    | inl e ↦ rw e refl
    | inr e ↦ elim (Option-cases (get ip_discrete (key ip) l.buckets)) [
      | inl g ↦ rw (e, g) refl
      | inr (b, g) ↦ rw (e, g) refl
    ]
  ]

  under_way-hold :
      (k j : IpAddr) (r : Bool × Limiter F)
      → under_way k r.1 + 1 < 2 ^ 32
      → under_way j (hold f k r).1 ≡ (
          if r.0 && not (r.1.per_minute == 0)
          then ite (ip_discrete k j) (under_way j r.1 + 1) (under_way j r.1)
          else under_way j r.1)
  unfolding hold unwrap_or
  under_way-hold k j (permitted, l) h = elim (Bool-cases (permitted && not (l.per_minute == 0))) [
    | inl e ↦
        let c = under_way k l + 1 in
        let same = get-insert ip_discrete j k (c % 2 ^ 32) l.pending in
        rw e (ground (arith, same, λ (x : k ≡ j). ap (λ i. under_way i l) x))
    | inr e ↦ rw e refl
  ]

  hold-IsCounted :
      (k : IpAddr) (r : Bool × Limiter F)
      → under_way k r.1 + 1 < 2 ^ 32
      → IsCounted r.1
      → IsCounted (hold f k r).1
  unfolding hold
  hold-IsCounted k (permitted, l) h v = elim (Bool-cases (permitted && not (l.per_minute == 0))) [
    | inl e ↦ rw e λ j c x.
        let same = get-insert ip_discrete j k ((under_way k l + 1) % 2 ^ 32) l.pending in
        ground (arith, same, v j c)
    | inr e ↦ rw e v
  ]

  under_way-end :
      (ip j : IpAddr) (l : Limiter F)
      → IsCounted l
      → under_way j (end ip l) ≡ ite (ip_discrete (key ip) j) (under_way j l - 1) (under_way j l)
  unfolding end end_pending unwrap_or
  under_way-end ip j l v = elim (Option-cases (get ip_discrete (key ip) l.pending)) [
    | inl e ↦
        let same : key ip ≡ j → get ip_discrete j l.pending ≡ none =
          λ x. subst (λ i. get ip_discrete i l.pending ≡ none) x e in
        rw e (ground (arith, same))
    | inr (c, e) ↦
        let same : key ip ≡ j → get ip_discrete j l.pending ≡ some c =
          λ x. subst (λ i. get ip_discrete i l.pending ≡ some c) x e in
        elim (Bool-cases (c - 1 == 0)) [
          | inl z ↦ rw (e, z) (ground (arith, same, get-remove ip_discrete j (key ip) l.pending))
          | inr z ↦
              rw (e, z) (ground (arith, same, get-insert ip_discrete j (key ip) (c - 1) l.pending))
        ]
  ]

  begun :
      (ip : IpAddr) (now : ℕ) (l : Limiter F)
      → (begin f ip now l).0 ≡ true
      → l.per_minute ≢ 0
      → ((permits f ip now l).0 && not (l.per_minute == 0)) ≡ true
  unfolding begin hold
  begun ip now l h on = rw h (ground arith)

  -- Where the limiter is on, an attempt that is let through, and then ends, leaves every address the
  -- attempts under way that it had; while it lasts its own address has one more, if those fit a u32.
  pub begin-end :
      (ip : IpAddr) (now : ℕ) (l : Limiter F) (j : IpAddr)
      → IsCounted l
      → under_way (key ip) l + 1 < 2 ^ 32
      → (begin f ip now l).0 ≡ true
      → l.per_minute ≢ 0
      → (under_way j (begin f ip now l).1
          ≡ ite (ip_discrete (key ip) j) (under_way j l + 1) (under_way j l))
        × (under_way j (end ip (begin f ip now l).1) ≡ under_way j l)
  unfolding begin
  begin-end ip now l j v room let_in on =
      let r = permits f ip now l in
      let p = pending-permits ip now l in
      let k = key ip in
      let way : (i : IpAddr) → under_way i r.1 ≡ under_way i l =
        λ i. ap (λ m. unwrap_or 0 (get ip_discrete i m)) p in
      let v' : IsCounted r.1 = λ i c x. v i c (ap (get ip_discrete i) (sym p) ∙ x) in
      let room' = rw (← way k) at room in
      let up = under_way-hold k j r room' in
      let down = under_way-end ip j (hold f k r).1 (hold-IsCounted k r room' v') in
      let pm = per_minute-permits ip now l in
      let granted : (r.0 && not (r.1.per_minute == 0)) ≡ true = rw pm (begun ip now l let_in on) in
      let up' = rw granted at up in
      let after = up' ∙ rw (way j) refl in (after, ground (arith, down, up', way j))
