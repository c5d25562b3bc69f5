-- ===== src/Server/Session/Sound.antt =====
-- The order a session keeps between its services, its tasks and the ports it holds.
use hawse.Base.{
  ℕ, ◌+◌, ◌^◌, ◌<◌, ◌≤◌, ◌≡◌, ◌≢◌, refl, sym, ap, ◌∙◌, List, true, false, none, some, ite, arith,
  ◌⊎◌, inl, inr, Bool-cases, subst, ite_same, ite_other, ℕ_discrete,
}
use hawse.Base.Dict.{get, get-insert, Distinct, insert-Distinct}
use hawse.Base.Sets.{has}
use hawse.Base.Text.{Text, text_discrete}
use hawse.Proto.Msg.{Wanted}
use hawse.Proto.Port.{Port}
use hawse.Server.Open.Dynamic.{Holding}
use hawse.Server.Policy.{allows}
use hawse.Server.Ports.{PortAllocator, holds}
use hawse.Server.Ports.Walk
use hawse.Server.Session.{BoundService, Public, Session, enter, is_some}

-- The task that serves `b`: not told to stop, and on its port.
abbrev pub Served : {Net : Type 0} → Session Net → BoundService → Type 0
Served {Net} s b =
    (t : Public Net) × (get ℕ_discrete b.id s.tasks ≡ some t)
    × (t.port ≡ b.port)
    × (has ℕ_discrete b.id s.cancelled ≡ false)

-- Each service on a port it asked for has the grant of it.
abbrev pub Granted : {Net : Type 0} → Session Net → Type 0
Granted s =
    (m : Text) (b : BoundService)
    → get text_discrete m s.services ≡ some b
    → b.fixed ≡ true
    → allows s.grant b.port ≡ true

-- Ids are given upward and no two services share one; each service has its task; each task holds its
-- port, alone.
pub record IsValid {Net : Type 0} (s : Session Net) : Type 0 where
  pub allocator : Walk.IsValid s.ports
  pub bounded : s.last_id < 2 ^ 16
  pub served : (m : Text) (b : BoundService) → get text_discrete m s.services ≡ some b → Served s b
  pub keys : Distinct text_discrete s.services
  pub one :
      (m k : Text) (b c : BoundService)
      → get text_discrete m s.services ≡ some b
      → get text_discrete k s.services ≡ some c
      → b.id ≡ c.id
      → m ≡ k
  pub given : (i : ℕ) → get ℕ_discrete i s.tasks ≢ none → i ≤ s.last_id
  pub stopped : (i : ℕ) → has ℕ_discrete i s.cancelled ≡ true → i ≤ s.last_id
  pub held :
      (i : ℕ) (t : Public Net) → get ℕ_discrete i s.tasks ≡ some t → holds s.ports t.port ≡ true
  pub apart :
      (i j : ℕ) (t u : Public Net)
      → get ℕ_discrete i s.tasks ≡ some t
      → get ℕ_discrete j s.tasks ≡ some u
      → t.port ≡ u.port
      → i ≡ j

-- Two services are never on one port.
pub ports_apart :
    {Net : Type 0} (s : Session Net) (m k : Text) (b c : BoundService)
    → IsValid s
    → get text_discrete m s.services ≡ some b
    → get text_discrete k s.services ≡ some c
    → b.port ≡ c.port
    → m ≡ k
ports_apart s m k b c v p q e =
    let x = v.served m b p in
    let y = v.served k c q in
    v.one m k b c p q (v.apart b.id c.id x.0 y.0 x.1 y.1 (x.2 ∙ e ∙ sym y.2))

module _ {Net : Type 0} (w : Wanted Net) (allow : List Net) (p : Port) (s : Session Net)
    (a : PortAllocator) (v : IsValid s) where
  abbrev after : Session Net
  after = enter w allow (s.last_id + 1) p (record s { ports = a })

  get-services :
      (m : Text)
      → get text_discrete m after.services
        ≡ ite
            (text_discrete w.service m)
            (some (record { id = s.last_id + 1; port = p; fixed = is_some w.port }))
            (get text_discrete m s.services)
  unfolding enter
  get-services m = get-insert text_discrete m w.service _ s.services

  get-tasks :
      (i : ℕ)
      → get ℕ_discrete i after.tasks
        ≡ ite
            (ℕ_discrete (s.last_id + 1) i)
            (some (record { port = p; allow = allow }))
            (get ℕ_discrete i s.tasks)
  unfolding enter
  get-tasks i = get-insert ℕ_discrete i (s.last_id + 1) _ s.tasks

  enter-apart :
      holds s.ports p ≡ false
      → (i j : ℕ) (t u : Public Net) → get ℕ_discrete i after.tasks ≡ some t
      → get ℕ_discrete j after.tasks ≡ some u
      → t.port ≡ u.port
      → i ≡ j
  enter-apart out i j t u x y e =
      ground (arith, get-tasks i, get-tasks j, v.held i t, v.held j u, v.apart i j t u)

  enter-held :
      Holding p s.ports a
      → (i : ℕ) (t : Public Net) → get ℕ_discrete i after.tasks ≡ some t
      → holds a t.port ≡ true
  enter-held h i t x = ground (arith, get-tasks i, v.held i t, h t.port)

  -- The entry a bind makes.
  abbrev entry : BoundService
  entry = record { id = s.last_id + 1; port = p; fixed = is_some w.port }

  after-cases :
      (m : Text) (b : BoundService)
      → get text_discrete m after.services ≡ some b
      → ((w.service ≡ m) × (entry ≡ b)) ⊎ (get text_discrete m s.services ≡ some b)
  after-cases m b x = elim (text_discrete w.service m) [
    | yes e ↦ inl (e, ground (arith, get-services m))
    | no ne ↦ inr (ground (arith, get-services m))
  ]

  old-id :
      (m : Text) (b : BoundService) → get text_discrete m s.services ≡ some b → b.id ≤ s.last_id
  old-id m b x = let h = v.served m b x in v.given b.id (ground arith)

  not_cancelled : has ℕ_discrete (s.last_id + 1) s.cancelled ≡ false
  not_cancelled = elim (Bool-cases (has ℕ_discrete (s.last_id + 1) s.cancelled)) [
    | inl e ↦ absurd (omega (arith, v.stopped _ e))
    | inr e ↦ e
  ]

  enter-one :
      (m k : Text) (b c : BoundService)
      → get text_discrete m after.services ≡ some b
      → get text_discrete k after.services ≡ some c
      → b.id ≡ c.id
      → m ≡ k
  enter-one m k b c x y e = elim (after-cases m b x) [
    | inl (f, i) ↦ elim (after-cases k c y) [
      | inl (g, j) ↦ sym f ∙ g
      | inr q ↦ absurd (omega (arith, old-id k c q, ap (λ z. z.id) i, e))
    ]
    | inr r ↦ elim (after-cases k c y) [
      | inl (g, j) ↦ absurd (omega (arith, old-id m b r, ap (λ z. z.id) j, e))
      | inr q ↦ v.one m k b c r q e
    ]
  ]

  enter-Served :
      (m : Text) (b : BoundService) → get text_discrete m after.services ≡ some b → Served after b
  unfolding enter
  enter-Served m b x = elim (after-cases m b x) [
    | inl (f, i) ↦
        subst (λ z. Served after z) i
          (
            record { port = p; allow = allow },
            get-tasks (s.last_id + 1) ∙ ite_same ℕ_discrete (s.last_id + 1) _ _,
            refl,
            not_cancelled,
          )
    | inr q ↦
        let h = v.served m b q in
        (
          h.0,
          get-tasks b.id
              ∙ ite_other ℕ_discrete _ _ (λ e. absurd (omega (arith, old-id m b q, e)))
              ∙ h.1,
          h.2,
          h.3,
        )
  ]

  -- A service entered under the next id, on a port that was free and is now held, keeps the order.
  pub enter-IsValid :
      Walk.IsValid a
      → s.last_id + 1 < 2 ^ 16
      → holds s.ports p ≡ false
      → Holding p s.ports a
      → IsValid after
  unfolding enter
  enter-IsValid ok l out h = record {
    allocator = ok;
    bounded = l;
    served = enter-Served;
    keys = insert-Distinct text_discrete w.service _ s.services v.keys;
    one = enter-one;
    given = λ i x. ground (arith, get-tasks i, v.given i);
    stopped = λ i x. omega (arith, v.stopped i x);
    held = enter-held h;
    apart = enter-apart out;
  }

  pub enter-Granted : Granted s → (is_some w.port ≡ true → allows s.grant p ≡ true) → Granted after
  unfolding enter
  enter-Granted h g m b x f = elim (after-cases m b x) [
    | inl (_, i) ↦ ground (arith, g, i)
    | inr q ↦ h m b q f
  ]
