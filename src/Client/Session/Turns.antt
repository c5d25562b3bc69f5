-- ===== src/Client/Session/Turns.antt =====
-- What a message of the server does to a session of the client
-- (crates/hawse-core/src/client/mod.rs).
use hawse.Base.{ℕ, ◌≡◌, refl, ◌∙◌, Bool, true, false, Option, none, some}
use hawse.Base.Dict.{get, insert, remove}
use hawse.Base.Net.{IpAddr, SocketAddr}
use hawse.Base.Sets.{delete, add}
use hawse.Base.Text.{Text, text_discrete}
use hawse.Proto.Msg.{
  BindFailure, ServerMessage, welcome, denied, bound, bind_failed, shutdown, ask, answer,
}
use hawse.Proto.Port.{Kind, tcp, udp, kind_of}
use hawse.Client.Rebind.{Expose}
use hawse.Client.Events
use hawse.Client.Events.{Event}
use hawse.Client.Session.{
  Session, answered, id_of, forget, drop_bound, register_kind, register_bound, emit, take_bound,
  heard_bound, heard_failed, note_time, timed, Heard, replies, ends, heard_message, heard,
  listener_addr,
}
use hawse.Client.Session.Bookkeeping.{IsKept, IsFresh, forget-keeps, same-IsKept}
use hawse.Client.Session.Registering.{emit-IsKept, drop_bound-IsKept, take_bound-IsKept}

-- The message does not give a service the id of another one.
abbrev pub Names : {Net : Type 0} → ServerMessage → Session Net → Type 0
Names (bound service id port address) s = IsFresh service id s
Names _ s = Unit

-- What a message leaves, whether it ends the session or not.
abbrev pub after : {Net : Type 0} → Heard Net → Session Net
after (replies reply s) = s
after (ends ending s) = s

module _ {Net : Type 0} where
  answered-IsKept : (service : Text) (s : Session Net) → IsKept s → IsKept ((answered service s).1)
  unfolding answered
  answered-IsKept service s g = same-IsKept s ((answered service s).1) refl refl refl refl g

  note_time-IsKept : (o : Option ℕ) (s : Session Net) → IsKept s → IsKept (note_time o s)
  unfolding note_time
  note_time-IsKept none s g = g
  note_time-IsKept (some n) s g = emit-IsKept _ s g

  heard_bound-IsKept :
      (service : Text) (id port : ℕ) (address : IpAddr) (remote : SocketAddr) (last : Bool)
      (o : Option (Expose Net)) (s : Session Net)
      → IsFresh service id s
      → get text_discrete service s.exposed ≡ o
      → IsKept s
      → IsKept (heard_bound service id port address remote last o s)
  unfolding heard_bound
  heard_bound-IsKept service id port address remote last none s fresh h g = g
  heard_bound-IsKept service id port address remote false (some e) s fresh h g = g
  heard_bound-IsKept service id port address remote true (some e) s fresh h g =
      take_bound-IsKept service s g id port address remote e fresh h

  heard_failed-IsKept :
      (service : Text) (reason : BindFailure) (last : Bool) (s : Session Net)
      → IsKept s
      → IsKept (heard_failed service reason last s)
  unfolding heard_failed
  heard_failed-IsKept service reason false s g = g
  heard_failed-IsKept service reason true s g =
      let s1 = drop_bound service s in
      emit-IsKept _ _ (
        same-IsKept s1 (record s1 { failed = add text_discrete service s1.failed }) refl refl refl
          refl (drop_bound-IsKept service s g).0)

  -- Any message of a server that does not give one id to two services leaves the targets and the UDP
  -- services in step with what is bound.
  pub heard-IsKept :
      (msg : ServerMessage) (remote : SocketAddr) (pinged : Option (ℕ × ℕ)) (s : Session Net)
      → Names msg s
      → IsKept s
      → IsKept (after (heard msg remote pinged s))
  unfolding heard heard_message timed note_time answered
  heard-IsKept (bound service id port address) remote pinged s fresh g =
      heard_bound-IsKept service id port address remote ((answered service s).0)
        (get text_discrete service s.exposed) ((answered service s).1) fresh refl
        (answered-IsKept service s g)
  heard-IsKept (bind_failed service reason) remote pinged s n g =
      heard_failed-IsKept service reason ((answered service s).0) ((answered service s).1)
        (answered-IsKept service s g)
  heard-IsKept (ask nonce) remote pinged s n g = g
  heard-IsKept (answer nonce) remote pinged s n g =
      note_time-IsKept (timed (answer nonce) pinged) s g
  heard-IsKept (shutdown reason) remote pinged s n g = g
  heard-IsKept (welcome agent name) remote pinged s n g = g
  heard-IsKept (denied reason key) remote pinged s n g = g

  emit-exposed : (e : Event) (s : Session Net) → (emit e s).exposed ≡ s.exposed
  unfolding emit
  emit-exposed e s = refl

  note_time-exposed : (o : Option ℕ) (s : Session Net) → (note_time o s).exposed ≡ s.exposed
  unfolding note_time
  note_time-exposed none s = refl
  note_time-exposed (some n) s = emit-exposed (Events.round_trip n) s

  register_kind-exposed :
      (k : Kind) (service : Text) (id : ℕ) (e : Expose Net) (listener : SocketAddr)
      (s : Session Net)
      → (register_kind k service id e listener s).exposed ≡ s.exposed
  unfolding register_kind
  register_kind-exposed tcp service id e listener s = refl
  register_kind-exposed udp service id e listener s = refl

  heard_bound-exposed :
      (service : Text) (id port : ℕ) (address : IpAddr) (remote : SocketAddr) (last : Bool)
      (o : Option (Expose Net)) (s : Session Net)
      → (heard_bound service id port address remote last o s).exposed ≡ s.exposed
  unfolding heard_bound take_bound register_bound
  heard_bound-exposed service id port address remote last none s = refl
  heard_bound-exposed service id port address remote false (some e) s = refl
  heard_bound-exposed service id port address remote true (some e) s =
      let s1 : Session Net = record s {
        failed = delete text_discrete service s.failed;
        ids = insert text_discrete service id s.ids;
      } in
      emit-exposed (Events.bound service (record { number = port; kind = kind_of e.port })) (
        register_kind (kind_of e.port) service id e (listener_addr address remote port)
          (forget (id_of service s) s1))
      ∙ register_kind-exposed (kind_of e.port) service id e (listener_addr address remote port)
          (forget (id_of service s) s1)
      ∙ (forget-keeps (id_of service s) s1).1

  heard_failed-exposed :
      (service : Text) (reason : BindFailure) (last : Bool) (s : Session Net)
      → (heard_failed service reason last s).exposed ≡ s.exposed
  unfolding heard_failed drop_bound
  heard_failed-exposed service reason false s = refl
  heard_failed-exposed service reason true s =
      let s1 = drop_bound service s in
      emit-exposed (Events.bind_failed service reason)
        (record s1 { failed = add text_discrete service s1.failed })
      ∙ (forget-keeps (id_of service s) (record s { ids = remove text_discrete service s.ids })).1

  -- A message leaves the settings as they are.
  pub heard-exposed :
      (msg : ServerMessage) (remote : SocketAddr) (pinged : Option (ℕ × ℕ)) (s : Session Net)
      → (after (heard msg remote pinged s)).exposed ≡ s.exposed
  unfolding heard heard_message timed note_time answered
  heard-exposed (bound service id port address) remote pinged s =
      heard_bound-exposed service id port address remote ((answered service s).0)
        (get text_discrete service s.exposed) ((answered service s).1)
  heard-exposed (bind_failed service reason) remote pinged s =
      heard_failed-exposed service reason ((answered service s).0) ((answered service s).1)
  heard-exposed (ask nonce) remote pinged s = refl
  heard-exposed (answer nonce) remote pinged s = note_time-exposed (timed (answer nonce) pinged) s
  heard-exposed (shutdown reason) remote pinged s = refl
  heard-exposed (welcome agent name) remote pinged s = refl
  heard-exposed (denied reason key) remote pinged s = refl
