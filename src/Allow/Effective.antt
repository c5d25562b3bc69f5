-- ===== src/Allow/Effective.antt =====
-- The effective list admits exactly the visitors that both sides admit.
use hawse.Base.{
  List, [], ◌∷◌, ◌++◌, Bool, true, false, ◌||◌, ◌&&◌, Option, none, some, map, if◌then◌else◌, ◌≡◌,
  refl, arith, ◌∙◌, sym, Bool-cases, inl, inr,
}
use hawse.Base.Net.{IpAddr, to_canonical}
use hawse.Base.Sort.{any, sort_unstable, dedup, any-sort_unstable, any-dedup}
use hawse.Allow.{Nets, Laws, is_empty, narrower, overlaps, intersect, effective, permits}

module _ (n : Nets) (laws : Laws n) where
  open n use {Net, same, trunc, covers, holds, le}

  -- One of the networks holds the address.
  abbrev pub some_holds : IpAddr → List Net → Bool
  some_holds ip = any λ net. holds net ip

  some_holds-append :
      (ip : IpAddr) (a b : List Net) → some_holds ip (a ++ b) ≡ (some_holds ip a || some_holds ip b)
  unfolding any
  some_holds-append ip [] b = refl
  some_holds-append ip (x ∷ a) b = ground (arith, some_holds-append ip a b)

  some_holds-trunc : (ip : IpAddr) (l : List Net) → some_holds ip (map trunc l) ≡ some_holds ip l
  unfolding any
  some_holds-trunc ip [] = refl
  some_holds-trunc ip (x ∷ l) = ground (arith, some_holds-trunc ip l, laws.trunc_holds x ip)

  some_holds-narrower :
      (ip : IpAddr) (a : Net) (l : List Net)
      → some_holds ip (narrower n a l) ≡ (holds a ip && some_holds ip l)
  unfolding any narrower
  some_holds-narrower ip a [] = ground arith
  some_holds-narrower ip a (b ∷ l) = ground (
    arith,
    some_holds-narrower ip a l,
    laws.covers_holds a b ip,
    laws.covers_holds b a ip,
    laws.nest a b ip,
  )

  some_holds-overlaps :
      (ip : IpAddr) (client ceiling : List Net)
      → some_holds ip (overlaps n client ceiling) ≡ (some_holds ip client && some_holds ip ceiling)
  unfolding any overlaps
  some_holds-overlaps ip [] ceiling = refl
  some_holds-overlaps ip (a ∷ client) ceiling =
      some_holds-append ip (narrower n a ceiling) (overlaps n client ceiling)
      ∙ ground (arith, some_holds-overlaps ip client ceiling, some_holds-narrower ip a ceiling)

  -- What a list of networks means: empty places no limit.
  abbrev pub admits : List Net → IpAddr → Bool
  admits l ip = is_empty n l || some_holds (to_canonical ip) l

  -- What the outcome of `effective` has to mean.
  abbrev pub Means : List Net → List Net → Option (List Net) → Type 0
  Means client ceiling none = (ip : IpAddr) → (admits client ip && admits ceiling ip) ≡ false
  Means client ceiling (some l) =
      (ip : IpAddr) → permits n l ip ≡ (admits client ip && admits ceiling ip)

  is_empty-trunc : (l : List Net) → is_empty n (map trunc l) ≡ is_empty n l
  unfolding is_empty
  is_empty-trunc [] = refl
  is_empty-trunc (x ∷ l) = refl

  some_holds-empty : (ip : IpAddr) (l : List Net) → is_empty n l ≡ true → some_holds ip l ≡ false
  unfolding is_empty any
  some_holds-empty ip [] h = refl
  some_holds-empty ip (x ∷ l) h = cc

  intersect-Means :
      (client ceiling : List Net)
      → is_empty n client ≡ false
      → is_empty n ceiling ≡ false
      → Means client ceiling (intersect n client ceiling)
  unfolding intersect
  intersect-Means client ceiling hc hl =
      let both = dedup same (sort_unstable le (overlaps n client ceiling)) in
      let law = λ (ip : IpAddr).
        any-dedup same (λ net. holds net ip) (sort_unstable le (overlaps n client ceiling))
        ∙ any-sort_unstable le (λ net. holds net ip) (overlaps n client ceiling)
        ∙ some_holds-overlaps ip client ceiling in
      elim (Bool-cases (is_empty n both)) [
        | inl e ↦ rw e λ ip.
            let here = law (to_canonical ip) in
            let no = some_holds-empty (to_canonical ip) both e in rw (hc, hl) (sym here ∙ no)
        | inr e ↦ rw e λ ip. unfold permits in rw (e, hc, hl) (law (to_canonical ip))
      ]

  admits-trunc : (l : List Net) (ip : IpAddr) → admits (map trunc l) ip ≡ admits l ip
  admits-trunc l ip = rw (is_empty-trunc l, some_holds-trunc (to_canonical ip) l)

  Means-trunc :
      (client ceiling : List Net) (o : Option (List Net))
      → Means (map trunc client) (map trunc ceiling) o
      → Means client ceiling o
  Means-trunc client ceiling none h =
      λ ip. rw (← admits-trunc client ip, ← admits-trunc ceiling ip) (h ip)
  Means-trunc client ceiling (some l) h =
      λ ip. rw (← admits-trunc client ip, ← admits-trunc ceiling ip) (h ip)

  one_side :
      (client ceiling : List Net)
      → Means client ceiling (
          if is_empty n client
          then some ceiling
          else if is_empty n ceiling
          then some client
          else intersect n client ceiling)
  one_side client ceiling = elim (Bool-cases (is_empty n client)) [
    | inl e ↦ rw e λ ip. unfold permits in ground arith
    | inr e ↦ elim (Bool-cases (is_empty n ceiling)) [
      | inl f ↦ rw (e, f) λ ip. unfold permits in ground arith
      | inr f ↦ rw (e, f) (intersect-Means client ceiling e f)
    ]
  ]

  -- The list that a service ends up with admits exactly the visitors that the client's list and the
  -- server's ceiling both admit, an empty one admitting all; and where there is no list, no visitor
  -- is admitted by both.
  pub effective-Means :
      (client ceiling : List Net) → Means client ceiling (effective n client ceiling)
  unfolding effective
  effective-Means client ceiling =
      Means-trunc client ceiling _ (one_side (map trunc client) (map trunc ceiling))
