-- ===== src/Server/Session/Unbinding.antt =====
-- What an unbind leaves of a session.
use hawse.Base.{
  ℕ, ◌≡◌, ◌≢◌, refl, sym, ◌∙◌, subst, List, [], ◌∷◌, true, false, Option, none, some, ite,
  ite_other, arith, Option-cases, inl, inr, ℕ_discrete,
}
use hawse.Base.Dict.{get, get-remove}
use hawse.Base.Sets.{has, has-add}
use hawse.Base.Text.{Text, text_discrete}
use hawse.Proto.Port.{Port}
use hawse.Server.Session.{BoundService, Session, told_unbound, tell}
use hawse.Server.Session.Sound.{IsValid}
use hawse.Server.Session.Stop.{unbind_found, unbind_quietly, told, unbind, unbind_all}
use hawse.Server.Session.Stops.{unbind-IsValid}

module _ {Net : Type 0} where
  -- The task of `b` is told to stop, and no datagram is relayed for it.
  abbrev pub Stopped : BoundService → Session Net → Type 0
  Stopped b s = (has ℕ_discrete b.id s.cancelled ≡ true) × (get ℕ_discrete b.id s.udp ≡ none)

-- The service `k`, which was `b`, is out of the session: its name is free, its task is told to stop,
-- its entry of the UDP services is gone, and the unbind is told of. Its port stays taken until the task
-- ends, and all others are as they were.
pub record Unbound {Net : Type 0} (k : Text) (b : BoundService) (s : Session Net)
    (r : Option Port × Session Net) : Type 0 where
  pub answer : r.0 ≡ some b.port
  pub listed :
      (x : Text)
      → get text_discrete x r.1.services
        ≡ ite (text_discrete k x) none (get text_discrete x s.services)
  pub stopping :
      (i : ℕ)
      → has ℕ_discrete i r.1.cancelled ≡ ite (ℕ_discrete b.id i) true (has ℕ_discrete i s.cancelled)
  pub relaying :
      (i : ℕ) → get ℕ_discrete i r.1.udp ≡ ite (ℕ_discrete b.id i) none (get ℕ_discrete i s.udp)
  pub reported : r.1.events ≡ told_unbound s.grant.name k b.port ∷ s.events
  pub same_tasks : r.1.tasks ≡ s.tasks
  pub same_ports : r.1.ports ≡ s.ports
  pub same_last_id : r.1.last_id ≡ s.last_id
  pub same_key : r.1.key ≡ s.key
  pub same_grant : r.1.grant ≡ s.grant

abbrev pub Unbinds :
    {Net : Type 0} → Text → Option BoundService → Session Net → Option Port × Session Net → Type 0
Unbinds k none s r = r ≡ (none, s)
Unbinds k (some b) s r = Unbound k b s r

module _ {Net : Type 0} where
  found-Unbinds :
      (k : Text) (o : Option BoundService) (s : Session Net)
      → Unbinds k o s (told k (unbind_found k o s))
  unfolding told unbind_found tell
  found-Unbinds k none s = refl
  found-Unbinds k (some b) s = record {
    answer = refl;
    listed = λ x. get-remove text_discrete x k s.services;
    stopping = λ i. has-add ℕ_discrete b.id i s.cancelled;
    relaying = λ i. get-remove ℕ_discrete i b.id s.udp;
    reported = refl;
    same_tasks = refl;
    same_ports = refl;
    same_last_id = refl;
    same_key = refl;
    same_grant = refl;
  }

  -- An unbind of a service that the session has answers its port, frees its name, tells its task to
  -- stop, drops its entry of the UDP services and is told of; its port stays taken, with its task, and
  -- every other service is as it was. One of a name that is not bound changes nothing. Either leaves
  -- the session in order.
  pub unbind-Unbinds :
      (k : Text) (s : Session Net)
      → IsValid s
      → Unbinds k (get text_discrete k s.services) s (unbind k s) × IsValid (unbind k s).1
  unfolding unbind unbind_quietly
  unbind-Unbinds k s v = (found-Unbinds k (get text_discrete k s.services) s, unbind-IsValid k s v)

  -- A service that was stopped stays so.
  unbind-Stopped :
      (k : Text) (b : BoundService) (s : Session Net) → Stopped b s → Stopped b (unbind k s).1
  unfolding unbind unbind_quietly unbind_found told tell
  unbind-Stopped k b s (gone, none_left) = elim (Option-cases (get text_discrete k s.services)) [
    | inl e ↦ rw e (gone, none_left)
    | inr (c, e) ↦ rw e (
      ground (arith, has-add ℕ_discrete c.id b.id s.cancelled),
      ground (arith, get-remove ℕ_discrete b.id c.id s.udp),
    )
  ]

  unbind-stops :
      (k : Text) (b : BoundService) (s : Session Net)
      → get text_discrete k s.services ≡ some b
      → Stopped b (unbind k s).1
  unfolding unbind unbind_quietly unbind_found told tell
  unbind-stops k b s e = rw e (
    ground (arith, has-add ℕ_discrete b.id b.id s.cancelled),
    ground (arith, get-remove ℕ_discrete b.id b.id s.udp),
  )

  unbind-others :
      (m k : Text) (b : BoundService) (s : Session Net)
      → IsValid s
      → m ≢ k
      → get text_discrete k s.services ≡ some b
      → (get text_discrete k (unbind m s).1.services ≡ some b)
        × (get ℕ_discrete b.id (unbind m s).1.udp ≡ get ℕ_discrete b.id s.udp)
  unfolding unbind unbind_quietly unbind_found told tell
  unbind-others m k b s v ne e = elim (Option-cases (get text_discrete m s.services)) [
    | inl f ↦ rw f (e, refl)
    | inr (c, f) ↦ rw f (
      get-remove text_discrete k m s.services ∙ ite_other text_discrete _ _ ne ∙ e,
      get-remove ℕ_discrete b.id c.id s.udp
          ∙ ite_other ℕ_discrete _ _ (λ i. ne (v.one m k c b f e i)),
    )
  ]

  unbind-same :
      (m : Text) (s : Session Net)
      → ((unbind m s).1.tasks ≡ s.tasks) × ((unbind m s).1.ports ≡ s.ports)
  unfolding unbind unbind_quietly unbind_found told tell
  unbind-same m s = elim (Option-cases (get text_discrete m s.services)) [
    | inl e ↦ rw e (refl, refl)
    | inr (b, e) ↦ rw e (refl, refl)
  ]

  unbind_all-Stopped :
      (l : List Text) (b : BoundService) (s : Session Net)
      → Stopped b s
      → Stopped b (unbind_all l s).1
  unfolding unbind_all
  unbind_all-Stopped [] b s h = h
  unbind_all-Stopped (m ∷ l) b s h = unbind_all-Stopped l b _ (unbind-Stopped m b s h)

  -- Every service of the list is stopped.
  pub unbind_all-stops :
      (l : List Text) (k : Text) (b : BoundService) (s : Session Net)
      → IsValid s
      → get text_discrete k s.services ≡ some b
      → has text_discrete k l ≡ true
      → Stopped b (unbind_all l s).1
  unfolding unbind_all has
  unbind_all-stops [] k b s v e h = absurd (ground arith)
  unbind_all-stops (m ∷ l) k b s v e h = elim (text_discrete m k) [
    | yes same ↦
        unbind_all-Stopped l b _
          (subst (λ x. Stopped b (unbind x s).1) (sym same) (unbind-stops k b s e))
    | no ne ↦
        unbind_all-stops l k b _ (unbind-IsValid m s v) ((unbind-others m k b s v ne e).0)
          (ground arith)
  ]

  -- A service out of the list is relayed as before.
  pub unbind_all-others :
      (l : List Text) (k : Text) (b : BoundService) (s : Session Net)
      → IsValid s
      → get text_discrete k s.services ≡ some b
      → has text_discrete k l ≡ false
      → get ℕ_discrete b.id (unbind_all l s).1.udp ≡ get ℕ_discrete b.id s.udp
  unfolding unbind_all has
  unbind_all-others [] k b s v e h = refl
  unbind_all-others (m ∷ l) k b s v e h = elim (text_discrete m k) [
    | yes same ↦ absurd (ground arith)
    | no ne ↦
        let (there, relayed) = unbind-others m k b s v ne e in
        unbind_all-others l k b _ (unbind-IsValid m s v) there (ground arith) ∙ relayed
  ]

  pub unbind_all-same :
      (l : List Text) (s : Session Net)
      → ((unbind_all l s).1.tasks ≡ s.tasks) × ((unbind_all l s).1.ports ≡ s.ports)
  unfolding unbind_all
  unbind_all-same [] s = (refl, refl)
  unbind_all-same (m ∷ l) s =
      let (tasks, ports) = unbind_all-same l (unbind m s).1 in
      (tasks ∙ (unbind-same m s).0, ports ∙ (unbind-same m s).1)
