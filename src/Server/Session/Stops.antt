-- ===== src/Server/Session/Stops.antt =====
-- An unbind, and the end of a task, keep the order of a session.
use hawse.Base.{
  ℕ, ◌≤◌, ◌≡◌, ◌≢◌, refl, sym, ap, ◌∙◌, List, true, false, Option, none, some, arith, ℕ_discrete,
  inl, inr, Bool-cases, Option-cases, ite_other,
}
use hawse.Base.Dict.{get, remove, get-remove, remove-Distinct}
use hawse.Base.Sets.{has, add, has-add}
use hawse.Base.Text.{Text, text_discrete}
use hawse.Proto.Port.{Port}
use hawse.Server.Open.Dynamic.{release-IsValid}
use hawse.Server.Ports.Claims.{holds-release}
use hawse.Server.Session.{BoundService, Public, Session, tell}
use hawse.Server.Session.Sound.{Granted, IsValid}
use hawse.Server.Session.Stop.{unbind_found, unbind_quietly, told, unbind, let_go_of, let_go}
use hawse.Server.Session.Keeps.{tell-IsValid}

not_added :
    (i j : ℕ) (l : List ℕ)
    → i ≢ j
    → has ℕ_discrete j l ≡ false
    → has ℕ_discrete j (add ℕ_discrete i l) ≡ false
not_added i j l ne out = ground (arith, has-add ℕ_discrete i j l)

clash : (i j : ℕ) (l : List ℕ) → has ℕ_discrete i l ≡ true → has ℕ_discrete j l ≡ false → i ≢ j
clash i j l h out e = absurd (ground (arith, sym h ∙ ap (λ k. has ℕ_discrete k l) e ∙ out))

module _ {Net : Type 0} where
  unbind_found-IsValid :
      (m : Text) (o : Option BoundService) (s : Session Net)
      → IsValid s
      → get text_discrete m s.services ≡ o
      → IsValid (unbind_found m o s).1
  unfolding unbind_found
  unbind_found-IsValid m none s v e = v
  unbind_found-IsValid m (some b) s v e =
      let kept : (k : Text) (c : BoundService)
          → get text_discrete k (remove text_discrete m s.services) ≡ some c
          → (get text_discrete k s.services ≡ some c) × (m ≢ k) =
        λ k c x. ground (arith, get-remove text_discrete k m s.services) in
      record {
        allocator = v.allocator;
        bounded = v.bounded;
        served = λ k c x.
            let old = v.served k c (kept k c x).0 in
            (
              old.0,
              old.1,
              old.2,
              not_added b.id c.id s.cancelled
                  (λ i. (kept k c x).1 (v.one m k b c e (kept k c x).0 i)) old.3,
            );
        keys = remove-Distinct text_discrete m s.services v.keys;
        one = λ j k c d x y i. v.one j k c d (kept j c x).0 (kept k d y).0 i;
        given = v.given;
        stopped = λ i x.
            let old = v.served m b e in
            let below : b.id ≤ s.last_id = v.given b.id (ground arith) in
            ground (arith, has-add ℕ_discrete b.id i s.cancelled, v.stopped i);
        held = v.held;
        apart = v.apart;
      }

  let_go_of-IsValid :
      (i : ℕ) (o : Option (Public Net)) (s : Session Net)
      → IsValid s
      → get ℕ_discrete i s.tasks ≡ o
      → has ℕ_discrete i s.cancelled ≡ true
      → IsValid (let_go_of i o s)
  unfolding let_go_of
  let_go_of-IsValid i none s v e h = v
  let_go_of-IsValid i (some t) s v e h =
      let kept : (j : ℕ) (u : Public Net)
          → get ℕ_discrete j (remove ℕ_discrete i s.tasks) ≡ some u
          → (get ℕ_discrete j s.tasks ≡ some u) × (i ≢ j) =
        λ j u x. ground (arith, get-remove ℕ_discrete j i s.tasks) in
      record {
        allocator = release-IsValid t.port s.ports v.allocator;
        bounded = v.bounded;
        served = λ k c x.
            let old = v.served k c x in
            (
              old.0,
              get-remove ℕ_discrete c.id i s.tasks
                  ∙ ite_other ℕ_discrete _ _ (clash i c.id s.cancelled h old.3)
                  ∙ old.1,
              old.2,
              old.3,
            );
        keys = v.keys;
        one = v.one;
        given = λ j x. v.given j (λ f. x (ground (arith, get-remove ℕ_discrete j i s.tasks)));
        stopped = v.stopped;
        held = λ j u x. ground (
          arith,
          (holds-release t.port u.port s.ports).1,
          v.held j u (kept j u x).0,
          (kept j u x).1,
          v.apart i j t u e (kept j u x).0,
        );
        apart = λ j k u w x y. v.apart j k u w (kept j u x).0 (kept k w y).0;
      }

  unbind_quietly-IsValid : (m : Text) (s : Session Net) → IsValid s → IsValid (unbind_quietly m s).1
  unfolding unbind_quietly
  unbind_quietly-IsValid m s v = unbind_found-IsValid m _ s v refl

  told-IsValid : (m : Text) (r : Option Port × Session Net) → IsValid r.1 → IsValid (told m r).1
  unfolding told
  told-IsValid m (none, s) v = v
  told-IsValid m (some p, s) v = tell-IsValid _ s v

  -- An unbind keeps the order of the session, whether or not the service is there.
  pub unbind-IsValid : (m : Text) (s : Session Net) → IsValid s → IsValid (unbind m s).1
  unfolding unbind
  unbind-IsValid m s v = told-IsValid m _ (unbind_quietly-IsValid m s v)

  -- The end of a task that was told to stop gives its port back and keeps the order of the session.
  pub let_go-IsValid : (i : ℕ) (s : Session Net) → IsValid s → IsValid (let_go i s)
  unfolding let_go
  let_go-IsValid i s v = elim (Bool-cases (has ℕ_discrete i s.cancelled)) [
    | inl h ↦ rw h (let_go_of-IsValid i _ s v refl h)
    | inr h ↦ rw h v
  ]

  pub unbind-Granted : (m : Text) (s : Session Net) → Granted s → Granted (unbind m s).1
  unfolding unbind told unbind_quietly unbind_found tell
  unbind-Granted m s g = elim (Option-cases (get text_discrete m s.services)) [
    | inl e ↦ rw e g
    | inr (b, e) ↦ rw e λ k c x f. g k c (ground (arith, get-remove text_discrete k m s.services)) f
  ]
