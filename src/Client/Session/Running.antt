-- ===== src/Client/Session/Running.antt =====
-- What holds of a session of the client (crates/hawse-core/src/client/mod.rs) in every round of its loop.
use hawse.Base.{
  ℕ, ◌+◌, ◌%◌, ◌^◌, ◌≡◌, refl, sym, subst, ap, ◌∙◌, List, [], ◌∷◌, ◌++◌, true, false, Option, none,
  some, leb, arith, Option-cases, Bool-cases, inl, inr,
}
use mathlib.Core.List.{append_assoc}
use hawse.Base.Dict.{Dict, get, Distinct}
use hawse.Base.Net.{SocketAddr}
use hawse.Base.Text.{Text, text_discrete}
use hawse.Proto.Msg.{
  Wanted, ClientMessage, hello, bind, unbind, ping, pong, ServerMessage, welcome, denied, bound,
  bind_failed, shutdown, ask, answer,
}
use hawse.Client.Rebind.{Expose, wanted, rebind}
use hawse.Client.Rebind.Asked
use hawse.Client.Rebind.Asked.{
  ask_bind, get-ask_bind, ask_all, asked_for, wanted_of, ask_all-append, InStep, rebind-Asks,
}
use hawse.Client.Session.{Session, new, Heard, replies, ends, heard, heard_message, reexpose}
use hawse.Client.Session.Bookkeeping.{IsKept}
use hawse.Client.Session.Turns.{Names, after, heard-IsKept, heard-exposed}
use hawse.Client.Session.Reload.{reexpose-IsKept}
use hawse.Client.Session.Loop.{
  Serving, Arm, cancels, pops, reloads, sleeps, ticks, hears, accepts, Turn, breaks, goes_on,
  greeting, start, pong_deadline, pop, since, take_heard, turn, send_or_end,
}

-- What is relied on of what an arm is given: a config has one entry for each service, and a server does
-- not give one id to two services.
abbrev pub Admits : {Net : Type 0} → Arm Net → Serving Net → Type 0
Admits (reloads next) s = Distinct text_discrete next
Admits (hears (some msg) now) s = Names msg s.session
Admits _ s = Unit

module _ {Net : Type 0} (same : Discrete Net) (remote : SocketAddr)
    (exposed : Dict Text (Expose Net)) where
  -- The states of a session's loop that starts with the services of `exposed`.
  pub data Reaches : Serving Net → Type 0 where
    starts : (now : ℕ) → Distinct text_discrete exposed → Reaches (start exposed now)
    goes :
        (arm : Arm Net) (s s' : Serving Net)
        → Reaches s
        → Admits arm s
        → send_or_end none (turn same remote arm s) ≡ goes_on none s'
        → Reaches s'

-- What was sent and what waits to be sent amounts at the server to the services of the session.
abbrev pub AsksFor : {Net : Type 0} → Serving Net → Type 0
AsksFor s =
    (service : Text)
    → asked_for service (ask_all (s.sent ++ s.pending) [])
      ≡ wanted_of service (get text_discrete service s.session.exposed)

-- The session asks for what its config has, and its books are kept.
pub record InOrder {Net : Type 0} (s : Serving Net) : Type 0 where
  pub asks : AsksFor s
  pub kept : IsKept s.session
  pub distinct : Distinct text_discrete s.session.exposed

module _ {Net : Type 0} where
  greeting-asked :
      (x : Text) (exposed : Dict Text (Expose Net)) (asked : Dict Text (Wanted Net))
      → Distinct text_discrete exposed
      → (get text_discrete x exposed ≡ none
          → asked_for x (ask_all (greeting exposed) asked) ≡ asked_for x asked)
        × ((e : Expose Net)
            → get text_discrete x exposed ≡ some e
            → asked_for x asked ≡ none
            → asked_for x (ask_all (greeting exposed) asked) ≡ some (wanted x e))
  unfolding greeting ask_all hawse.Client.Rebind.Asked.ask get wanted
  greeting-asked x [] asked d = (λ h. refl, λ e h _. absurd (ground arith))
  greeting-asked x ((service, expose) ∷ exposed) asked d =
      let w = wanted service expose in
      ground (
        arith,
        greeting-asked x exposed (ask_bind w (get text_discrete service asked) asked) d.1,
        get-ask_bind w x asked,
        d.0,
      )

  nothing_asked : (x : Text) → asked_for {Net = Net} x [] ≡ none
  unfolding get
  nothing_asked x = refl

  ask_all-nil : (xs : List (ClientMessage Net)) → ask_all (xs ++ []) [] ≡ ask_all xs []
  ask_all-nil xs = ask_all-append xs [] [] ∙ unfold ask_all in refl

  new-IsKept : (exposed : Dict Text (Expose Net)) → IsKept (new exposed)
  unfolding new get
  new-IsKept exposed = record {
    holds = λ x i h. absurd (ground arith);
    target_of = λ i t h. absurd (ground arith);
    udp_of = λ i l h. absurd (ground arith);
    apart = λ x y i h k. absurd (ground arith);
  }

  start-InOrder :
      (exposed : Dict Text (Expose Net)) (now : ℕ)
      → Distinct text_discrete exposed
      → InOrder (start exposed now)
  unfolding start new wanted_of
  start-InOrder exposed now d = record {
    asks = λ x.
        let greeted = greeting-asked x exposed [] d in
        ap (asked_for x) (ask_all-nil (greeting exposed))
        ∙ elim (Option-cases (get text_discrete x exposed)) [
          | inl e ↦ rw e (greeted.0 e ∙ nothing_asked x)
          | inr (v, e) ↦ rw e (greeted.1 v e (nothing_asked x))
        ];
    kept = new-IsKept exposed;
    distinct = d;
  }

-- A turn leaves a session in order once its reply, if it has one, is sent.
abbrev Good : {Net : Type 0} → Turn Net → Type 0
Good (breaks o) = Unit
Good (goes_on none s) = InOrder s
Good (goes_on (some reply) s) = InOrder (record s { sent = s.sent ++ reply ∷ [] })

module _ {Net : Type 0} where
  -- A message that is sent before what waits.
  ask_all-between :
      (sent pending : List (ClientMessage Net)) (msg : ClientMessage Net)
      → ask_all ((sent ++ msg ∷ []) ++ pending) [] ≡ ask_all (msg ∷ pending) (ask_all sent [])
  unfolding ask_all
  ask_all-between sent pending msg =
      ask_all-append (sent ++ msg ∷ []) pending []
      ∙ ap (ask_all pending) (ask_all-append sent (msg ∷ []) [])

  pop-Good :
      (q : List (ClientMessage Net)) (s : Serving Net) → s.pending ≡ q → InOrder s → Good (pop q s)
  unfolding pop
  pop-Good [] s e g = g
  pop-Good (msg ∷ q) s e g = record {
    asks = λ x.
        ap (asked_for x) (
          ask_all-between s.sent q msg
          ∙ sym (ask_all-append s.sent (msg ∷ q) [])
          ∙ ap (λ p. ask_all (s.sent ++ p) []) (sym e))
        ∙ g.asks x;
    kept = g.kept;
    distinct = g.distinct;
  }

  -- A message that asks for nothing may go out at any time.
  quiet-Good :
      (msg : ClientMessage Net) (s : Serving Net)
      → ((asked : Dict Text (Wanted Net)) → Asked.ask msg asked ≡ asked)
      → InOrder s
      → Good (goes_on (some msg) s)
  unfolding ask_all
  quiet-Good msg s quiet g = record {
    asks = λ x.
        ap (asked_for x) (
          ask_all-between s.sent s.pending msg
          ∙ ap (ask_all s.pending) (quiet (ask_all s.sent []))
          ∙ sym (ask_all-append s.sent s.pending []))
        ∙ g.asks x;
    kept = g.kept;
    distinct = g.distinct;
  }

  -- The session of a message, its settings as before and its books kept.
  heard-InOrder :
      (s : Serving Net) (session : Session Net) (now : ℕ)
      → InOrder s
      → session.exposed ≡ s.session.exposed
      → IsKept session
      → InOrder (record s { session = session; last_heard = now })
  heard-InOrder s session now g same kept = record {
    asks = λ x. g.asks x ∙ ap (λ m. wanted_of x (get text_discrete x m)) (sym same);
    kept = kept;
    distinct = subst (Distinct text_discrete) (sym same) g.distinct;
  }

  -- The replies that `heard` may give.
  abbrev Pongs : Heard Net → Type 0
  Pongs (replies none s) = Unit
  Pongs (replies (some (pong nonce)) s) = Unit
  Pongs (replies (some _) s) = ⊥
  Pongs (ends e s) = Unit

  heard-Pongs :
      (msg : ServerMessage) (remote : SocketAddr) (pinged : Option (ℕ × ℕ)) (s : Session Net)
      → Pongs (heard msg remote pinged s)
  unfolding heard heard_message
  heard-Pongs (bound service id port address) remote pinged s = tt
  heard-Pongs (bind_failed service reason) remote pinged s = tt
  heard-Pongs (ask nonce) remote pinged s = tt
  heard-Pongs (answer nonce) remote pinged s = tt
  heard-Pongs (shutdown reason) remote pinged s = tt
  heard-Pongs (welcome agent name) remote pinged s = tt
  heard-Pongs (denied reason key) remote pinged s = tt

  replied-Good :
      (h : Heard Net) (now : ℕ) (s : Serving Net)
      → InOrder s
      → (after h).exposed ≡ s.session.exposed
      → IsKept (after h)
      → Pongs h
      → Good (take_heard h (record s { last_heard = now }))
  unfolding take_heard
  replied-Good (ends e session) now s g same kept p = tt
  replied-Good (replies none session) now s g same kept p = heard-InOrder s session now g same kept
  replied-Good (replies (some (pong nonce)) session) now s g same kept p =
      quiet-Good (pong nonce) (record s { session = session; last_heard = now })
        (λ asked. unfold hawse.Client.Rebind.Asked.ask in refl)
        (heard-InOrder s session now g same kept)
  replied-Good (replies (some (ping nonce)) session) now s g same kept p = absurd p
  replied-Good (replies (some (hello a b)) session) now s g same kept p = absurd p
  replied-Good (replies (some (bind w)) session) now s g same kept p = absurd p
  replied-Good (replies (some (unbind t)) session) now s g same kept p = absurd p

  take_heard-Good :
      (msg : ServerMessage) (remote : SocketAddr) (pinged : Option (ℕ × ℕ)) (now : ℕ)
      (s : Serving Net)
      → InOrder s
      → Names msg s.session
      → Good (take_heard (heard msg remote pinged s.session) (record s { last_heard = now }))
  take_heard-Good msg remote pinged now s g n =
      replied-Good (heard msg remote pinged s.session) now s g
        (heard-exposed msg remote pinged s.session)
        (heard-IsKept msg remote pinged s.session n g.kept)
        (heard-Pongs msg remote pinged s.session)

module _ {Net : Type 0} (same : Discrete Net) where
  reload-InOrder :
      (next : Dict Text (Expose Net)) (s : Serving Net)
      → Distinct text_discrete next
      → InOrder s
      → InOrder (record s {
        session = (reexpose same next s.session).1;
        pending = s.pending ++ (reexpose same next s.session).0;
      })
  unfolding reexpose
  reload-InOrder next s d g =
      let msgs = rebind same s.session.exposed next s.session.failed in
      let asked = ask_all (s.sent ++ s.pending) [] in
      record {
        asks = λ x.
            ap (asked_for x) (
              ap (λ q. ask_all q []) (sym (append_assoc s.sent s.pending msgs))
              ∙ ask_all-append (s.sent ++ s.pending) msgs [])
            ∙ rebind-Asks same s.session.exposed next s.session.failed asked g.distinct d
                (λ y. (λ h. g.asks y, λ h. g.asks y ∙ rw h (unfold wanted_of in refl))) x;
        kept = unfold reexpose in reexpose-IsKept same next s.session g.kept;
        distinct = d;
      }

  turn-Good :
      (remote : SocketAddr) (arm : Arm Net) (s : Serving Net)
      → Admits arm s
      → InOrder s
      → Good (turn same remote arm s)
  unfolding turn
  turn-Good remote cancels s a g = tt
  turn-Good remote pops s a g = pop-Good s.pending s refl g
  turn-Good remote (reloads next) s a g = reload-InOrder next s a g
  turn-Good remote (sleeps now) s a g = elim (Bool-cases (leb (s.last_heard + pong_deadline) now)) [
    | inl e ↦ rw e tt
    | inr e ↦ rw e g
  ]
  turn-Good remote (ticks now) s a g =
      let nonce = (s.nonce + 1) % 2 ^ 64 in
      quiet-Good (ping nonce) (record s { nonce = nonce; pinged = some (nonce, now) })
        (λ asked. unfold hawse.Client.Rebind.Asked.ask in refl)
        (record { asks = g.asks; kept = g.kept; distinct = g.distinct })
  turn-Good remote (hears none now) s a g = tt
  turn-Good remote (hears (some msg) now) s a g =
      take_heard-Good msg remote (since now s.pinged) now s g a
  turn-Good remote (accepts true) s a g = g
  turn-Good remote (accepts false) s a g = tt

  send_or_end-InOrder :
      (t : Turn Net) (s' : Serving Net) → Good t → send_or_end none t ≡ goes_on none s' → InOrder s'
  unfolding send_or_end
  send_or_end-InOrder (breaks o) s' g e = absurd (ground arith)
  send_or_end-InOrder (goes_on none s) s' g e =
      let is : s ≡ s' = ground (arith, e) in subst (λ y. InOrder y) is g
  send_or_end-InOrder (goes_on (some reply) s) s' g e =
      let is : record s { sent = s.sent ++ reply ∷ [] } ≡ s' = ground (arith, e) in
      subst (λ y. InOrder y) is g

  -- In every round of a session's loop, whatever reloads, messages, pings and streams came before and
  -- in whatever order: what the client has sent and what waits to be sent asks the server for exactly
  -- the services of its config, with their settings, and its targets and UDP services are in step with
  -- the services that are bound.
  pub loop-InOrder :
      (remote : SocketAddr) (exposed : Dict Text (Expose Net)) (s : Serving Net)
      → Reaches same remote exposed s
      → InOrder s
  loop-InOrder remote exposed s (starts now d) = start-InOrder exposed now d
  loop-InOrder remote exposed s (goes arm s0 s' r a e) =
      send_or_end-InOrder (turn same remote arm s0) s
        (turn-Good remote arm s0 a (loop-InOrder remote exposed s0 r)) e
