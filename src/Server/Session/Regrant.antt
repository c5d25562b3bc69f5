-- ===== src/Server/Session/Regrant.antt =====
-- What a reload leaves of a session.
use hawse.Base.{
  ◌≡◌, refl, sym, ap, ◌∙◌, List, [], ◌∷◌, map, subst, true, false, ◌&&◌, not, Option, none, some,
  ite, arith, Bool-cases, Option-cases, inl, inr, ℕ_discrete, if◌then◌else◌,
}
use hawse.Base.Dict.{Dict, get, get-remove, Distinct}
use hawse.Base.Sets.{has}
use hawse.Base.Text.{Text, text_discrete}
use hawse.Allow.{Nets}
use hawse.Proto.Msg.{ServerMessage, bind_failed, shutdown, not_granted}
use hawse.Server.Policy.{Grant, Policy, allows, lookup}
use hawse.Server.Session.{BoundService, Session, tell}
use hawse.Server.Session.Sound.{Granted, IsValid}
use hawse.Server.Session.Stops.{unbind-IsValid}
use hawse.Server.Session.Unbinding.{Stopped, unbind_all-stops, unbind_all-others, unbind_all-same}
use hawse.Server.Session.Stop.{
  unbind_found, unbind_quietly, told, unbind, lost, unbind_all, same_terms, regrant_to, regrant,
  not_authorized, grant_changed,
}

module _ {Net : Type 0} where
  -- What the grant leaves of an entry.
  pub kept : Grant Net → Option BoundService → Option BoundService
  kept g none = none
  kept g (some b) = if b.fixed && not (allows g b.port) then none else some b

  lost-new :
      (g : Grant Net) (k : Text) (m : Dict Text BoundService)
      → get text_discrete k m ≡ none
      → has text_discrete k (lost g m) ≡ false
  unfolding lost has get
  lost-new g k [] h = refl
  lost-new g k ((j, b) ∷ m) h = elim (Bool-cases (b.fixed && not (allows g b.port))) [
    | inl e ↦ rw e (ground (arith, lost-new g k m))
    | inr e ↦ rw e (ground (arith, lost-new g k m))
  ]

  get-lost :
      (g : Grant Net) (k : Text) (m : Dict Text BoundService)
      → Distinct text_discrete m
      → (if has text_discrete k (lost g m) then none else get text_discrete k m)
        ≡ kept g (get text_discrete k m)
  unfolding lost has get kept
  get-lost g k [] d = refl
  get-lost g k ((j, b) ∷ m) d = elim (Bool-cases (b.fixed && not (allows g b.port))) [
    | inl e ↦ rw e (ground (arith, e, get-lost g k m d.1))
    | inr e ↦ rw e (
        ground (
          arith,
          e,
          get-lost g k m d.1,
          λ (same : j ≡ k). lost-new g k m (subst (λ x. get text_discrete x m ≡ none) same d.0),
        ))
  ]

  get-unbind :
      (k l : Text) (s : Session Net)
      → get text_discrete k (unbind l s).1.services
        ≡ ite (text_discrete l k) none (get text_discrete k s.services)
  unfolding unbind told unbind_quietly unbind_found tell
  get-unbind k l s = elim (Option-cases (get text_discrete l s.services)) [
    | inl e ↦ rw e (
        ground (arith, λ (same : l ≡ k). subst (λ x. get text_discrete x s.services ≡ none) same e))
    | inr (b, e) ↦ rw e (get-remove text_discrete k l s.services)
  ]

  grant-unbind : (l : Text) (s : Session Net) → (unbind l s).1.grant ≡ s.grant
  unfolding unbind told unbind_quietly unbind_found tell
  grant-unbind l s = elim (Option-cases (get text_discrete l s.services)) [
    | inl e ↦ rw e refl
    | inr (b, e) ↦ rw e refl
  ]

  -- Every service of the list is gone, the others are as they were.
  get-unbind_all :
      (k : Text) (l : List Text) (s : Session Net)
      → get text_discrete k (unbind_all l s).1.services
        ≡ (if has text_discrete k l then none else get text_discrete k s.services)
  unfolding unbind_all has
  get-unbind_all k [] s = refl
  get-unbind_all k (m ∷ l) s = ground (arith, get-unbind_all k l (unbind m s).1, get-unbind k m s)

  grant-unbind_all : (l : List Text) (s : Session Net) → (unbind_all l s).1.grant ≡ s.grant
  unfolding unbind_all
  grant-unbind_all [] s = refl
  grant-unbind_all (m ∷ l) s = grant-unbind_all l (unbind m s).1 ∙ grant-unbind m s

  unbind_all-IsValid : (l : List Text) (s : Session Net) → IsValid s → IsValid (unbind_all l s).1
  unfolding unbind_all
  unbind_all-IsValid [] s v = v
  unbind_all-IsValid (m ∷ l) s v = unbind_all-IsValid l _ (unbind-IsValid m s v)

  messages-unbind_all :
      (l : List Text) (s : Session Net)
      → (unbind_all l s).0 ≡ map (λ m. bind_failed m not_granted) l
  unfolding unbind_all
  messages-unbind_all [] s = refl
  messages-unbind_all (m ∷ l) s = ap (◌∷◌ (bind_failed m not_granted)) (messages-unbind_all l _)

  regranted-IsValid :
      (g : Grant Net) (s : Session Net) → IsValid s → IsValid (record s { grant = g })
  regranted-IsValid g s v = record {
    allocator = v.allocator;
    bounded = v.bounded;
    keys = v.keys;
    served = v.served;
    one = v.one;
    given = v.given;
    stopped = v.stopped;
    held = v.held;
    apart = v.apart;
  }

-- A service that the grant leaves out is stopped; the others are served as they were.
pub record Sorted {Net : Type 0} (g : Grant Net) (s s' : Session Net) : Type 0 where
  pub stops :
      (k : Text) (b : BoundService)
      → get text_discrete k s.services ≡ some b
      → kept g (some b) ≡ none
      → Stopped b s'
  pub goes_on :
      (k : Text) (b : BoundService)
      → get text_discrete k s.services ≡ some b
      → kept g (some b) ≡ some b
      → (has ℕ_discrete b.id s'.cancelled ≡ false)
        × (get ℕ_discrete b.id s'.udp ≡ get ℕ_discrete b.id s.udp)
  pub same_tasks : s'.tasks ≡ s.tasks
  pub same_ports : s'.ports ≡ s.ports

abbrev pub Regranted :
    (n : Nets) → Option (Grant n.Net) → Session n.Net → List ServerMessage × Session n.Net → Type 0
Regranted n none s r = r ≡ (shutdown not_authorized ∷ [], s)
Regranted n (some g) s r =
    if◌then◌else◌ {A = Type 0} (same_terms n g s.grant)
      ((r.1.grant ≡ g)
        × (r.0 ≡ map (λ m. bind_failed m not_granted) (lost g s.services))
        × ((k : Text) → get text_discrete k r.1.services ≡ kept g (get text_discrete k s.services))
        × Granted r.1
        × IsValid r.1
        × Sorted g s r.1)
      (r ≡ (shutdown grant_changed ∷ [], s))

kept-allows :
    {Net : Type 0} (g : Grant Net) (o : Option BoundService) (b : BoundService)
    → kept g o ≡ some b
    → b.fixed ≡ true
    → allows g b.port ≡ true
unfolding kept
kept-allows g none b e f = absurd (ground arith)
kept-allows g (some c) b e f = ground arith

has-lost :
    {Net : Type 0} (g : Grant Net) (k : Text) (m : Dict Text BoundService) (b : BoundService)
    → Distinct text_discrete m
    → get text_discrete k m ≡ some b
    → has text_discrete k (lost g m) ≡ (b.fixed && not (allows g b.port))
unfolding kept
has-lost g k m b d e = ground (arith, get-lost g k m d)

kept-none :
    {Net : Type 0} (g : Grant Net) (b : BoundService)
    → kept g (some b) ≡ none
    → (b.fixed && not (allows g b.port)) ≡ true
unfolding kept
kept-none g b h = ground arith

kept-some :
    {Net : Type 0} (g : Grant Net) (b : BoundService)
    → kept g (some b) ≡ some b
    → (b.fixed && not (allows g b.port)) ≡ false
unfolding kept
kept-some g b h = ground arith

unbind_all-Sorted :
    {Net : Type 0} (g : Grant Net) (s : Session Net)
    → IsValid s
    → Sorted g s (unbind_all (lost g s.services) (record s { grant = g })).1
unbind_all-Sorted g s v =
    let s0 = record s { grant = g } in
    let v0 = regranted-IsValid g s v in
    let l = lost g s.services in
    record {
      stops = λ k b e x.
          unbind_all-stops l k b s0 v0 e (has-lost g k s.services b v.keys e ∙ kept-none g b x);
      goes_on = λ k b e x.
          let out : has text_discrete k l ≡ false =
            has-lost g k s.services b v.keys e ∙ kept-some g b x in
          let there : get text_discrete k (unbind_all l s0).1.services ≡ some b =
            get-unbind_all k l s0 ∙ rw out e in
          (((unbind_all-IsValid l s0 v0).served k b there).3, unbind_all-others l k b s0 v0 e out);
      same_tasks = (unbind_all-same l s0).0;
      same_ports = (unbind_all-same l s0).1;
    }

regrant_to-Regranted :
    (n : Nets) (o : Option (Grant n.Net)) (s : Session n.Net)
    → IsValid s
    → Regranted n o s (regrant_to n o s)
unfolding regrant_to
regrant_to-Regranted n none s v = refl
regrant_to-Regranted n (some g) s v = elim (Bool-cases (same_terms n g s.grant)) [
  | inl e ↦
      let s' = record s { grant = g } in
      let l = lost g s.services in
      let after : (k : Text)
          → get text_discrete k (unbind_all l s').1.services
            ≡ kept g (get text_discrete k s.services) =
        λ k. get-unbind_all k l s' ∙ get-lost g k s.services v.keys in
      rw e (
        grant-unbind_all l s',
        messages-unbind_all l s',
        after,
        (λ k b x f.
            rw (grant-unbind_all l s')
              (kept-allows g (get text_discrete k s.services) b (sym (after k) ∙ x) f)),
        unbind_all-IsValid l s' (regranted-IsValid g s v),
        unbind_all-Sorted g s v,
      )
  | inr e ↦ rw e refl
]

-- A reload takes up the grant the policy has for the key of the session: without one, or with another
-- name, address or allow list, the client is told to start over and nothing else changes. Otherwise
-- exactly the services on a fixed port that the grant leaves out are told of and out of the session,
-- their tasks are told to stop and their entries of the UDP services are gone; every other service stays
-- as it was, with its task and its UDP entry. The session is in order and within its grant, and every
-- port stays taken until its task ends.
pub regrant-Regranted :
    (n : Nets) (policy : Policy n.Net) (s : Session n.Net)
    → IsValid s
    → Regranted n (lookup s.key policy) s (regrant n policy s)
unfolding regrant
regrant-Regranted n policy s v = regrant_to-Regranted n (lookup s.key policy) s v
