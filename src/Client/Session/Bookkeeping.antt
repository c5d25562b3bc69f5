-- ===== src/Client/Session/Bookkeeping.antt =====
-- A session of the client (crates/hawse-core/src/client/mod.rs) keeps its targets and its UDP services
-- in step with the services that are bound.
use hawse.Base.{
  ℕ, ◌≡◌, ◌≢◌, refl, sym, ap, ◌∙◌, Bool, true, false, Option, none, some, ite, arith, ℕ_discrete,
  Option-cases, inl, inr, ite_same, ite_other,
}
use hawse.Base.Dict.{get, get-remove}
use hawse.Base.Text.{Text, text_discrete}
use hawse.Proto.Port.{Kind, tcp, udp, kind_of}
use hawse.Client.Rebind.{Expose}
use hawse.Client.Udp.{UdpLocal}
use hawse.Client.Session.{Target, Session, id_of, forget}

abbrev pub is_some : {A : Type 0} → Option A → Bool
is_some none = false
is_some (some a) = true

-- What a service of either kind has under its id: a target with its settings, or a UDP service that
-- writes PROXY headers if it asks for them.
abbrev pub Registered : {Net : Type 0} → Kind → Text → ℕ → Expose Net → Session Net → Type 0
Registered tcp service id e s =
    (get ℕ_discrete id s.targets
      ≡ some (record { service = service; local = e.local; proxy_protocol = e.proxy_protocol }))
    × (get ℕ_discrete id s.udp ≡ none)
Registered udp service id e s =
    (get ℕ_discrete id s.targets ≡ none)
    × ((l : UdpLocal) × (get ℕ_discrete id s.udp ≡ some l) × (is_some l.proxy ≡ e.proxy_protocol))

-- Each service with an id is exposed and is registered under the id as its settings say; nothing else
-- is registered; and no two services share an id.
pub record IsKept {Net : Type 0} (s : Session Net) : Type 0 where
  pub holds :
      (service : Text) (id : ℕ)
      → id_of service s ≡ some id
      → (e : Expose Net) × (get text_discrete service s.exposed ≡ some e)
        × Registered (kind_of e.port) service id e s
  pub target_of :
      (id : ℕ) (t : Target) → get ℕ_discrete id s.targets ≡ some t → id_of t.service s ≡ some id
  pub udp_of :
      (id : ℕ) (l : UdpLocal)
      → get ℕ_discrete id s.udp ≡ some l
      → (l.id ≡ id) × (service : Text) × (id_of service s ≡ some id)
  pub apart : (x y : Text) (id : ℕ) → id_of x s ≡ some id → id_of y s ≡ some id → x ≡ y

-- `id` belongs to no other service.
abbrev pub IsFresh : {Net : Type 0} → Text → ℕ → Session Net → Type 0
IsFresh service id s = (x : Text) → x ≢ service → id_of x s ≢ some id

abbrev pub cleared : {A : Type 0} → Option ℕ → ℕ → Option A → Option A
cleared none y o = o
cleared (some old) y o = ite (ℕ_discrete old y) none o

module _ {Net : Type 0} (old : Option ℕ) (s : Session Net) where
  pub forget-targets :
      (y : ℕ) → get ℕ_discrete y (forget old s).targets ≡ cleared old y (get ℕ_discrete y s.targets)
  unfolding forget
  forget-targets y = elim (Option-cases old) [
    | inl e ↦ rw e refl
    | inr (i, e) ↦ rw e (get-remove ℕ_discrete y i s.targets)
  ]

  pub forget-udp :
      (y : ℕ) → get ℕ_discrete y (forget old s).udp ≡ cleared old y (get ℕ_discrete y s.udp)
  unfolding forget
  forget-udp y = elim (Option-cases old) [
    | inl e ↦ rw e refl
    | inr (i, e) ↦ rw e (get-remove ℕ_discrete y i s.udp)
  ]

  pub forget-keeps : ((forget old s).ids ≡ s.ids) × ((forget old s).exposed ≡ s.exposed)
  unfolding forget
  forget-keeps = elim (Option-cases old) [
    | inl e ↦ rw e (refl, refl)
    | inr (i, e) ↦ rw e (refl, refl)
  ]

pub cleared-some :
    {A : Type 0} (old : Option ℕ) (i : ℕ) (o : Option A) (a : A)
    → cleared old i o ≡ some a
    → (o ≡ some a) × (old ≢ some i)
cleared-some none i o a h = (h, λ e. absurd (ground arith))
cleared-some (some j) i o a h = (ground arith, λ e. absurd (ground arith))

cleared-other :
    {A : Type 0} (old : Option ℕ) (i : ℕ) (o : Option A) → old ≢ some i → cleared old i o ≡ o
cleared-other none i o h = refl
cleared-other (some j) i o h = ite_other ℕ_discrete none o (λ e. h (ap some e))

-- What `register_kind` leaves under an id.
pub Registered-elsewhere :
    {Net : Type 0} (k : Kind) (x : Text) (i : ℕ) (e : Expose Net) (s s' : Session Net)
    → get ℕ_discrete i s'.targets ≡ get ℕ_discrete i s.targets
    → get ℕ_discrete i s'.udp ≡ get ℕ_discrete i s.udp
    → Registered k x i e s
    → Registered k x i e s'
Registered-elsewhere tcp x i e s s' t u r = (t ∙ r.0, u ∙ r.1)
Registered-elsewhere udp x i e s s' t u (gone, (l, there, p)) = (t ∙ gone, (l, u ∙ there, p))

-- What leaves the bookkeeping alone leaves it kept.
pub same-IsKept :
    {Net : Type 0} (s s' : Session Net)
    → s'.exposed ≡ s.exposed
    → s'.ids ≡ s.ids
    → s'.targets ≡ s.targets
    → s'.udp ≡ s.udp
    → IsKept s
    → IsKept s'
same-IsKept s s' exposed ids targets udps g = record {
  holds = λ x i h.
      let (e, there, r) = g.holds x i (sym (ap (get text_discrete x) ids) ∙ h) in
      (
        e,
        ap (get text_discrete x) exposed ∙ there,
        Registered-elsewhere (kind_of e.port) x i e s s' (ap (get ℕ_discrete i) targets)
            (ap (get ℕ_discrete i) udps) r,
      );
  target_of = λ i t h.
      ap (get text_discrete t.service) ids
      ∙ g.target_of i t (sym (ap (get ℕ_discrete i) targets) ∙ h);
  udp_of = λ i l h.
      let (same, x, of) = g.udp_of i l (sym (ap (get ℕ_discrete i) udps) ∙ h) in
      (same, x, ap (get text_discrete x) ids ∙ of);
  apart = λ x y i h k.
      g.apart x y i (sym (ap (get text_discrete x) ids) ∙ h)
        (sym (ap (get text_discrete y) ids) ∙ k);
}

module _ {Net : Type 0} (service : Text) (s s' : Session Net) (g : IsKept s) where
  old_other : (x : Text) (i : ℕ) → id_of x s ≡ some i → x ≢ service → id_of service s ≢ some i
  old_other x i was ne e = ne (g.apart x service i was e)

  kept_id :
      (x : Text) (i : ℕ)
      → ((x : Text) → id_of x s' ≡ ite (text_discrete service x) none (id_of x s))
      → id_of x s ≡ some i
      → id_of service s ≢ some i
      → id_of x s' ≡ some i
  kept_id x i ids was old =
      ids x
      ∙ ite_other text_discrete none (id_of x s) (λ e. old (ap (λ y. id_of y s) e ∙ was))
      ∙ was

  -- Without `service`, and with what was under its id cleared.
  pub dropped-IsKept :
      ((x : Text) → id_of x s' ≡ ite (text_discrete service x) none (id_of x s))
      → ((y : ℕ)
          → get ℕ_discrete y s'.targets ≡ cleared (id_of service s) y (get ℕ_discrete y s.targets))
      → ((y : ℕ) → get ℕ_discrete y s'.udp ≡ cleared (id_of service s) y (get ℕ_discrete y s.udp))
      → s'.exposed ≡ s.exposed
      → IsKept s'
  dropped-IsKept ids targets udps same = record {
    holds = λ x i h.
        let was : id_of x s ≡ some i = ground (arith, ids x, h) in
        let ne : x ≢ service = λ e. absurd (ground (arith, ids x, h, e)) in
        let old = old_other x i was ne in
        let (e, there, r) = g.holds x i was in
        (
          e,
          ap (get text_discrete x) same ∙ there,
          Registered-elsewhere (kind_of e.port) x i e s s'
              (targets i ∙ cleared-other (id_of service s) i (get ℕ_discrete i s.targets) old)
              (udps i ∙ cleared-other (id_of service s) i (get ℕ_discrete i s.udp) old) r,
        );
    target_of = λ i t h.
        let (was, old) =
          cleared-some (id_of service s) i (get ℕ_discrete i s.targets) t (sym (targets i) ∙ h) in
        kept_id t.service i ids (g.target_of i t was) old;
    udp_of = λ i l h.
        let (was, old) =
          cleared-some (id_of service s) i (get ℕ_discrete i s.udp) l (sym (udps i) ∙ h) in
        let (same_id, x, of) = g.udp_of i l was in (same_id, x, kept_id x i ids of old);
    apart = λ x y i h k. ground (arith, ids x, ids y, g.apart x y i);
  }

  taken_id :
      (x : Text) (i id : ℕ)
      → ((x : Text) → id_of x s' ≡ ite (text_discrete service x) (some id) (id_of x s))
      → id_of x s ≡ some i
      → id_of service s ≢ some i
      → id_of x s' ≡ some i
  taken_id x i id ids was old =
      ids x
      ∙ ite_other text_discrete (some id) (id_of x s) (λ e. old (ap (λ y. id_of y s) e ∙ was))
      ∙ was

  -- With `service` under `id`, and with what was under its id before cleared.
  pub taken-IsKept :
      (id : ℕ) (e : Expose Net)
      → IsFresh service id s
      → get text_discrete service s.exposed ≡ some e
      → ((x : Text) → id_of x s' ≡ ite (text_discrete service x) (some id) (id_of x s))
      → s'.exposed ≡ s.exposed
      → Registered (kind_of e.port) service id e s'
      → ((t : Target) → get ℕ_discrete id s'.targets ≡ some t → t.service ≡ service)
      → ((l : UdpLocal) → get ℕ_discrete id s'.udp ≡ some l → l.id ≡ id)
      → ((y : ℕ)
          → y ≢ id
          → (get ℕ_discrete y s'.targets ≡ cleared (id_of service s) y (get ℕ_discrete y s.targets))
            × (get ℕ_discrete y s'.udp ≡ cleared (id_of service s) y (get ℕ_discrete y s.udp)))
      → IsKept s'
  taken-IsKept id e fresh exposes ids same reg own_target own_udp others = record {
    holds = λ x i h. elim (text_discrete service x) [
      | yes eq ↦
          let is : id ≡ i = ground (arith, ids x, h, eq) in
          rw (sym eq, sym is) (e, ap (get text_discrete service) same ∙ exposes, reg)
      | no ne ↦
          let was : id_of x s ≡ some i = ground (arith, ids x, h, ne) in
          let apart_from = λ (q : i ≡ id). fresh x (λ r. ne (sym r)) (was ∙ ap some q) in
          let old = old_other x i was (λ r. ne (sym r)) in
          let (e1, there, r) = g.holds x i was in
          let (t, u) = others i apart_from in
          (
            e1,
            ap (get text_discrete x) same ∙ there,
            Registered-elsewhere (kind_of e1.port) x i e1 s s'
                (t ∙ cleared-other (id_of service s) i (get ℕ_discrete i s.targets) old)
                (u ∙ cleared-other (id_of service s) i (get ℕ_discrete i s.udp) old) r,
          )
    ];
    target_of = λ i t h. elim (ℕ_discrete i id) [
      | yes eq ↦
          let sv = own_target t (ap (λ y. get ℕ_discrete y s'.targets) (sym eq) ∙ h) in
          ground (arith, ids t.service, sv, eq)
      | no ne ↦
          let (was, old) =
            cleared-some (id_of service s) i (get ℕ_discrete i s.targets) t
              (sym (others i ne).0 ∙ h) in
          taken_id t.service i id ids (g.target_of i t was) old
    ];
    udp_of = λ i l h. elim (ℕ_discrete i id) [
      | yes eq ↦
          let own = own_udp l (ap (λ y. get ℕ_discrete y s'.udp) (sym eq) ∙ h) in
          (
            own ∙ sym eq,
            service,
            ids service ∙ ite_same text_discrete service _ _ ∙ ap some (sym eq),
          )
      | no ne ↦
          let (was, old) =
            cleared-some (id_of service s) i (get ℕ_discrete i s.udp) l (sym (others i ne).1 ∙ h) in
          let (same_id, x, of) = g.udp_of i l was in (same_id, x, taken_id x i id ids of old)
    ];
    apart = λ x y i h k. ground (arith, ids x, ids y, g.apart x y i, fresh x, fresh y);
  }
