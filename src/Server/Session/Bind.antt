-- ===== src/Server/Session/Bind.antt =====
-- What a bind answers, and what it leaves.
use hawse.Base.{
  if◌then◌else◌, ℕ, ◌+◌, ◌^◌, ◌<◌, ◌≡◌, refl, List, Bool, true, false, ◌==◌, Option, none, some,
  arith, Bool-cases, Option-cases, inl, inr,
}
use hawse.Base.Dict.{get}
use hawse.Base.Net.{IpAddr}
use hawse.Base.Text.{text_discrete}
use hawse.Allow.{Nets, effective}
use hawse.Proto.Msg.{
  BindFailure, not_granted, in_use, bad_name, Wanted, ServerMessage, bound, bind_failed, shutdown,
  welcome, denied, ask, answer,
}
use hawse.Proto.Name.{validate}
use hawse.Proto.Port.{Port}
use hawse.Server.Open.{Opened, opened, failed, spinning}
use hawse.Server.Open.Opening.{Answers, Wished, Why, open_port-Answers}
use hawse.Server.Open.Dynamic.{Holding, Alike}
use hawse.Server.Ports.{PortAllocator, holds}
use hawse.Server.Ports.Walk
use hawse.Server.Session.{
  Session, told_bound, checked_next, is_some, enter, tell, bind_opened, bind_numbered, bind_allowed,
  bind,
}
use hawse.Server.Session.Installed.{Installed, tell-enter-Installed}

-- All but the allocator is the same, and it holds the same ports and is still valid.
abbrev pub Unchanged : {Net : Type 0} → Session Net → Session Net → Type 0
Unchanged s s' =
    (s' ≡ record s { ports = s'.ports }) × Alike s.ports s'.ports × Walk.IsValid s'.ports

-- The service is entered under the next id, on a port that is wished for and was free, and no other
-- port is taken; it is served to the list that the client and its grant allow.
abbrev pub Entered :
    (n : Nets) → (IpAddr → Port → Bool) → Wanted n.Net → ℕ → Session n.Net → Session n.Net → Type 0
Entered n host w number s s' =
    (port : Port) × (allow : List n.Net) × (port.number ≡ number)
    × (effective n w.allow s.grant.allow ≡ some allow)
    × (validate w.service ≡ none)
    × (get text_discrete w.service s.services ≡ none)
    × Wished s.grant w.kind w.port s.ports port
    × (holds s.ports port ≡ false)
    × (host s.grant.bind port ≡ true)
    × Holding port s.ports s'.ports
    × Walk.IsValid s'.ports
    × (s.last_id + 1 < 2 ^ 16)
    × Installed w allow port s s'
    × (s'
        ≡ tell (told_bound s.grant.name w.service s.grant.bind port)
            (enter w allow (s.last_id + 1) port (record s { ports = s'.ports })))

-- Where the name and the allow list are good, why the port is not.
abbrev pub Refused :
    (n : Nets)
    → (IpAddr → Port → Bool)
    → Wanted n.Net
    → Session n.Net
    → BindFailure
    → Option (List n.Net)
    → Type 0
Refused n host w s reason none = reason ≡ not_granted
Refused n host w s reason (some allow) =
    Why s.grant (host s.grant.bind) w.kind w.port s.ports reason

-- The first that is wrong: the name, another service of it, the allow lists, or the port.
abbrev pub Reason :
    (n : Nets) → (IpAddr → Port → Bool) → Wanted n.Net → Session n.Net → BindFailure → Type 0
Reason n host w s reason =
    if◌then◌else◌ {A = Type 0} (is_some (validate w.service)) (reason ≡ bad_name) (
      if◌then◌else◌ {A = Type 0} (is_some (get text_discrete w.service s.services))
        (reason ≡ in_use) (Refused n host w s reason (effective n w.allow s.grant.allow)))

-- What a bind answers goes with what it did.
abbrev pub Outcome :
    (n : Nets)
    → (IpAddr → Port → Bool)
    → Wanted n.Net
    → Session n.Net
    → Option (ServerMessage × Session n.Net)
    → Type 0
Outcome n host w s (some (bound service id port address, s')) =
    (service ≡ w.service)
    × (id ≡ s.last_id + 1)
    × (address ≡ s.grant.bind)
    × Entered n host w port s s'
Outcome n host w s (some (bind_failed service reason, s')) =
    (service ≡ w.service) × Reason n host w s reason × Unchanged s s'
Outcome n host w s (some (shutdown text, s')) = (s.last_id ≡ 0xffff) × Unchanged s s'
Outcome n host w s (some (welcome _ _, s')) = ⊥
Outcome n host w s (some (denied _ _, s')) = ⊥
Outcome n host w s (some (ask _, s')) = ⊥
Outcome n host w s (some (answer _, s')) = ⊥
Outcome n host w s none = ⊥

module _ (n : Nets) (host : IpAddr → Port → Bool) (w : Wanted n.Net) (s : Session n.Net) where
  bind_opened-Outcome :
      (allow : List n.Net) (r : Opened × PortAllocator)
      → effective n w.allow s.grant.allow ≡ some allow
      → validate w.service ≡ none
      → get text_discrete w.service s.services ≡ none
      → s.last_id + 1 < 2 ^ 16
      → Answers s.grant (host s.grant.bind) w.kind w.port s.ports r
      → Outcome n host w s (bind_opened w allow (s.last_id + 1) s r)
  unfolding bind_opened tell enter is_some
  bind_opened-Outcome allow (failed reason, a) e v g l h =
      let why : Reason n host w s reason = rw (v, g, e) h.0 in (refl, why, (refl, h.1, h.2.0))
  bind_opened-Outcome allow (spinning, a) e v g l h = h
  bind_opened-Outcome allow (opened port, a) e v g l h =
      let made = tell-enter-Installed w allow port s a in
      (refl, refl, refl, (port, allow, refl, e, v, g, h.0, h.1, h.2, h.3, h.4.0, l, made, refl))

  bind_numbered-Outcome :
      (allow : List n.Net)
      → Walk.IsValid s.ports
      → s.last_id < 2 ^ 16
      → effective n w.allow s.grant.allow ≡ some allow
      → validate w.service ≡ none
      → get text_discrete w.service s.services ≡ none
      → Outcome n host w s (bind_numbered n host w allow (checked_next s.last_id) s)
  unfolding checked_next bind_numbered
  bind_numbered-Outcome allow p l e v g = elim (Bool-cases (s.last_id == 0xffff)) [
    | inl h ↦ rw h (ground arith, (refl, (λ q. refl), p))
    | inr h ↦ rw h (
        bind_opened-Outcome allow _ e v g (ground arith)
          (open_port-Answers s.grant (host s.grant.bind) w.kind w.port s.ports p))
  ]

-- A bind ends with an answer that says what was done. `Bound` names the id after the last and a port
-- that was asked for or of the pool and was free. The service is then in the session under that name
-- and id, with a task on that port that admits exactly by the list the client and its grant allow, with
-- an entry among the UDP services where it is one, and is told of; nothing else of the session changes.
-- A failure says which was wrong, the name, a service of that name, the allow lists or the port, and leaves
-- services, tasks, ids and every port as they were. `Shutdown` is for a
-- session that has given every id.
pub bind-Outcome :
    (n : Nets) (host : IpAddr → Port → Bool) (w : Wanted n.Net) (s : Session n.Net)
    → Walk.IsValid s.ports
    → s.last_id < 2 ^ 16
    → Outcome n host w s (bind n host w s)
unfolding bind bind_allowed is_some
bind-Outcome n host w s p l = elim (Option-cases (validate w.service)) [
  | inl v ↦ elim (Option-cases (get text_discrete w.service s.services)) [
    | inl g ↦ elim (Option-cases (effective n w.allow s.grant.allow)) [
      | inl e ↦
          let why : Reason n host w s not_granted = rw (v, g, e) refl in
          rw (v, g, e) (refl, why, (refl, (λ q. refl), p))
      | inr (allow, e) ↦ rw (v, g, e) (bind_numbered-Outcome n host w s allow p l e v g)
    ]
    | inr (b, g) ↦
        let why : Reason n host w s in_use = rw (v, g) refl in
        rw (v, g) (refl, why, (refl, (λ q. refl), p))
  ]
  | inr (err, v) ↦
      let why : Reason n host w s bad_name = rw v refl in rw v (refl, why, (refl, (λ q. refl), p))
]
