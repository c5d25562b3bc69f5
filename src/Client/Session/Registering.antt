-- ===== src/Client/Session/Registering.antt =====
-- What binding a service and dropping one leave in the books of a session: `register_bound` and
-- `drop_bound` of crates/hawse-core/src/client/mod.rs.
use hawse.Base.{
  ℕ, ◌≡◌, refl, sym, ap, ◌∙◌, Bool, true, false, Option, none, some, ite, if◌then◌else◌, arith,
  ℕ_discrete, Option-cases, inl, inr, ite_same, ite_other,
}
use hawse.Base.Dict.{get, insert, remove, get-insert, get-remove}
use hawse.Base.Net.{IpAddr, SocketAddr}
use hawse.Base.Sets.{delete}
use hawse.Base.Text.{Text, text_discrete}
use hawse.Proto.Port.{Kind, tcp, udp, kind_of}
use hawse.Client.Rebind.{Expose}
use hawse.Client.Events.{Event}
use hawse.Client.Udp
use hawse.Client.Udp.{UdpLocal}
use hawse.Client.Session.{
  Target, Session, id_of, forget, drop_bound, register_kind, register_bound, emit, take_bound,
  listener_addr, idle, session_cap,
}
use hawse.Client.Session.Bookkeeping.{
  IsKept, IsFresh, is_some, cleared, cleared-some, forget-targets, forget-udp, forget-keeps,
  dropped-IsKept, taken-IsKept, same-IsKept,
}

new-proxy :
    (id : ℕ) (b : Bool) (listener : SocketAddr)
    → is_some (Udp.new id idle session_cap (if b then some listener else none)).proxy ≡ b
unfolding hawse.Client.Udp.new
new-proxy id true listener = refl
new-proxy id false listener = refl

new-id :
    (id : ℕ) (b : Bool) (listener : SocketAddr)
    → (Udp.new id idle session_cap (if b then some listener else none)).id ≡ id
unfolding hawse.Client.Udp.new
new-id id b listener = refl

pub emit-IsKept : {Net : Type 0} (e : Event) (s : Session Net) → IsKept s → IsKept (emit e s)
unfolding emit
emit-IsKept e s g = same-IsKept s (emit e s) refl refl refl refl g

module _ {Net : Type 0} (service : Text) (s : Session Net) (g : IsKept s) where
  pub id_of-drop_bound :
      (x : Text) → id_of x (drop_bound service s) ≡ ite (text_discrete service x) none (id_of x s)
  unfolding drop_bound
  id_of-drop_bound x =
      let s1 : Session Net = record s { ids = remove text_discrete service s.ids } in
      ap (get text_discrete x) ((forget-keeps (id_of service s) s1).0)
      ∙ get-remove text_discrete x service s.ids

  -- A service that is dropped leaves nothing behind, and every other stays as it is.
  pub drop_bound-IsKept :
      IsKept (drop_bound service s) × ((drop_bound service s).exposed ≡ s.exposed)
  unfolding drop_bound
  drop_bound-IsKept =
      let s1 : Session Net = record s { ids = remove text_discrete service s.ids } in
      (
        dropped-IsKept service s (drop_bound service s) g id_of-drop_bound
            (forget-targets (id_of service s) s1) (forget-udp (id_of service s) s1)
            ((forget-keeps (id_of service s) s1).1),
        (forget-keeps (id_of service s) s1).1,
      )

  -- Nothing is under a fresh id once what was under the service's own is cleared.
  unheld :
      {A : Type 0} (id : ℕ) (o : Option A)
      → IsFresh service id s
      → ((a : A) → o ≡ some a → (x : Text) × (id_of x s ≡ some id))
      → cleared (id_of service s) id o ≡ none
  unheld id o fresh owned = elim (Option-cases (cleared (id_of service s) id o)) [
    | inl e ↦ e
    | inr (a, e) ↦
        let (was, old) = cleared-some (id_of service s) id o a e in
        let (x, of) = owned a was in
        absurd (fresh x (λ eq. old (ap (λ y. id_of y s) (sym eq) ∙ of)) of)
  ]

  register_kind-IsKept :
      (k : Kind) (id : ℕ) (listener : SocketAddr) (e : Expose Net) (s1 : Session Net)
      → k ≡ kind_of e.port
      → IsFresh service id s
      → get text_discrete service s.exposed ≡ some e
      → ((x : Text) → id_of x s1 ≡ ite (text_discrete service x) (some id) (id_of x s))
      → s1.exposed ≡ s.exposed
      → ((y : ℕ)
          → get ℕ_discrete y s1.targets ≡ cleared (id_of service s) y (get ℕ_discrete y s.targets))
      → ((y : ℕ) → get ℕ_discrete y s1.udp ≡ cleared (id_of service s) y (get ℕ_discrete y s.udp))
      → IsKept (register_kind k service id e listener s1)
  unfolding register_kind
  register_kind-IsKept tcp id listener e s1 k fresh exposes ids same targets udps =
      let target : Target = record {
        service = service;
        local = e.local;
        proxy_protocol = e.proxy_protocol;
      } in
      let law = λ (y : ℕ). get-insert ℕ_discrete y id target s1.targets in
      let there = law id ∙ ite_same ℕ_discrete id _ _ in
      let empty =
        udps id
        ∙ unheld id (get ℕ_discrete id s.udp) fresh
            (λ l h. let (own, x, of) = g.udp_of id l h in (x, of)) in
      taken-IsKept service s (register_kind tcp service id e listener s1) g id e fresh exposes ids
        same (rw (sym k) (there, empty)) (λ t h. ground (arith, there, h))
        (λ l h. absurd (ground (arith, empty, h)))
        (λ y ne. (law y ∙ ite_other ℕ_discrete _ _ (λ q. ne (sym q)) ∙ targets y, udps y))
  register_kind-IsKept udp id listener e s1 k fresh exposes ids same targets udps =
      let made : UdpLocal =
        Udp.new id idle session_cap (if e.proxy_protocol then some listener else none) in
      let law = λ (y : ℕ). get-insert ℕ_discrete y id made s1.udp in
      let there = law id ∙ ite_same ℕ_discrete id _ _ in
      let empty =
        targets id
        ∙ unheld id (get ℕ_discrete id s.targets) fresh (λ t h. (t.service, g.target_of id t h)) in
      taken-IsKept service s (register_kind udp service id e listener s1) g id e fresh exposes ids
        same (rw (sym k) (empty, (made, there, new-proxy id e.proxy_protocol listener)))
        (λ t h. absurd (ground (arith, empty, h)))
        (λ l h.
          let same_l : made ≡ l = ground (arith, there, h) in
          sym (ap (λ (u : UdpLocal). u.id) same_l) ∙ new-id id e.proxy_protocol listener)
        (λ y ne. (targets y, law y ∙ ite_other ℕ_discrete _ _ (λ q. ne (sym q)) ∙ udps y))

  -- A service that is bound is registered under its id.
  pub take_bound-IsKept :
      (id port : ℕ) (address : IpAddr) (remote : SocketAddr) (e : Expose Net)
      → IsFresh service id s
      → get text_discrete service s.exposed ≡ some e
      → IsKept (take_bound service id port address remote e s)
  unfolding take_bound register_bound
  take_bound-IsKept id port address remote e fresh exposes =
      let s1 : Session Net = record s {
        failed = delete text_discrete service s.failed;
        ids = insert text_discrete service id s.ids;
      } in
      let (same_ids, same) = forget-keeps (id_of service s) s1 in
      let law = λ (x : Text).
        ap (get text_discrete x) same_ids ∙ get-insert text_discrete x service id s.ids in
      emit-IsKept _ _ (
        register_kind-IsKept (kind_of e.port) id (listener_addr address remote port) e
          (forget (id_of service s) s1) refl fresh exposes law same
          (forget-targets (id_of service s) s1) (forget-udp (id_of service s) s1))
