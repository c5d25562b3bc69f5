-- ===== src/Client/Session/Loop.antt =====
-- The loop of a session of the client (crates/hawse-core/src/client/mod.rs, `serve`), one arm of its
-- `select!` a step. Times are in nanoseconds.
use hawse.Base.{
  ℕ, ◌+◌, ◌-◌, ◌%◌, ◌^◌, List, [], ◌∷◌, ◌++◌, Bool, true, false, Option, none, some, leb,
  if◌then◌else◌,
}
use hawse.Base.Dict.{Dict}
use hawse.Base.Net.{SocketAddr}
use hawse.Base.Text.{Text}
use hawse.Proto.Msg.{ClientMessage, bind, ping, ServerMessage}
use hawse.Client.Failure
use hawse.Client.Failure.{ClientError}
use hawse.Client.Rebind.{Expose, wanted}
use hawse.Client.Session.{Session, new, Heard, replies, ends, heard, reexpose}

-- `PONG_DEADLINE`, 45 seconds.
abbrev pub pong_deadline : ℕ
pong_deadline = 45000000000

-- A session with the variables of its loop, and the messages that its control stream took.
pub record Serving (Net : Type 0) : Type 0 where
  pub session : Session Net
  pub pending : List (ClientMessage Net)
  pub nonce : ℕ
  pub pinged : Option (ℕ × ℕ)
  pub last_heard : ℕ
  pub sent : List (ClientMessage Net)

-- How the loop ends: `Ok(())` after a cancel, or an error.
pub data Outcome : Type 0 where
  cancelled : Outcome
  failed : ClientError → Outcome

-- The arms: what each is given when it wins.
pub data Arm (Net : Type 0) : Type 0 where
  cancels pops : Arm Net
  reloads : Dict Text (Expose Net) → Arm Net
  sleeps ticks : ℕ → Arm Net
  hears : Option ServerMessage → ℕ → Arm Net
  accepts : Bool → Arm Net

-- What an arm comes to: the loop breaks, or it goes on with a reply to send or none.
pub data Turn (Net : Type 0) : Type 0 where
  breaks : Outcome → Turn Net
  goes_on : Option (ClientMessage Net) → Serving Net → Turn Net

-- The greeting's binds, one for each service in order.
unfoldable pub greeting : {Net : Type 0} → Dict Text (Expose Net) → List (ClientMessage Net)
greeting [] = []
greeting ((service, expose) ∷ exposed) = bind (wanted service expose) ∷ greeting exposed

-- The loop's start at the time `now`, the greeting sent.
unfoldable pub start : {Net : Type 0} → Dict Text (Expose Net) → ℕ → Serving Net
start exposed now = record {
  session = new exposed;
  pending = [];
  nonce = 0;
  pinged = none;
  last_heard = now;
  sent = greeting exposed;
}

-- `pending.pop_front()`, polled only while there is one.
unfoldable pub pop : {Net : Type 0} → List (ClientMessage Net) → Serving Net → Turn Net
pop [] s = goes_on none s
pop (msg ∷ pending) s = goes_on (some msg) (record s { pending = pending })

unfoldable pub since : ℕ → Option (ℕ × ℕ) → Option (ℕ × ℕ)
since now none = none
since now (some (nonce, at)) = some (nonce, now - at)

unfoldable pub take_heard : {Net : Type 0} → Heard Net → Serving Net → Turn Net
take_heard (replies reply session) s = goes_on reply (record s { session = session })
take_heard (ends ending session) s = breaks (failed ending)

module _ {Net : Type 0} (same : Discrete Net) (remote : SocketAddr) where
  unfoldable pub turn : Arm Net → Serving Net → Turn Net
  turn cancels s = breaks cancelled
  turn pops s = pop s.pending s
  turn (reloads next) s =
      let (msgs, session) = reexpose same next s.session in
      goes_on none (record s { session = session; pending = s.pending ++ msgs })
  turn (sleeps now) s =
      if leb (s.last_heard + pong_deadline) now
      then breaks (failed Failure.unresponsive)
      else goes_on none s
  turn (ticks now) s =
      let nonce = (s.nonce + 1) % 2 ^ 64 in
      goes_on (some (ping nonce)) (record s { nonce = nonce; pinged = some (nonce, now) })
  turn (hears none now) s = breaks (failed Failure.control_closed)
  turn (hears (some msg) now) s =
      take_heard (heard msg remote (since now s.pinged) s.session) (record s { last_heard = now })
  turn (accepts true) s = goes_on none s
  turn (accepts false) s = breaks (failed Failure.transport)

-- `send_or_end`: a reply goes through, or the loop ends with `end`.
unfoldable pub send_or_end : {Net : Type 0} → Option Outcome → Turn Net → Turn Net
send_or_end end (breaks o) = breaks o
send_or_end end (goes_on none s) = goes_on none s
send_or_end none (goes_on (some reply) s) = goes_on none (record s { sent = s.sent ++ reply ∷ [] })
send_or_end (some o) (goes_on (some reply) s) = breaks o
