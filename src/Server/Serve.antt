-- ===== src/Server/Serve.antt =====
-- The loop of `Session::serve` in crates/hawse-core/src/server/session.rs: a turn waits for one of its
-- arms, which gives a reply, nothing, or the reason the session ends; a reply is then sent. Times are
-- milliseconds of the server's clock.
pub mod Turns
pub mod Pending
use hawse.Base.{
  ℕ, ◌+◌, ◌*◌, ◌%◌, ◌^◌, ◌≤◌, List, [], ◌∷◌, Bool, true, false, not, Option, none, some, leb,
  if◌then◌else◌, ◌≡◌,
}
use hawse.Base.Net.{IpAddr}
use hawse.Base.Text.{Text, codes}
use hawse.Allow.{Nets}
use hawse.Proto.Msg.{
  ServerMessage, shutdown, ask, answer, ClientMessage, hello, bind, unbind, ping, pong,
}
use hawse.Proto.Port.{Port}
use hawse.Transport
use hawse.Transport.{
  CloseReason, superseded, duplicate_hello, unresponsive, peer_left, control_closed,
}
use hawse.Server.Policy.{Policy}
use hawse.Server.Session
use hawse.Server.Session.{Session}
use hawse.Server.Session.Stop
use hawse.Server.Session.Stop.{regrant}

-- What `control.try_next` gives: a message, the end of the stream, or a frame that is not one.
pub data Heard (Net : Type 0) : Type 0 where
  message : ClientMessage Net → Heard Net
  left malformed : Heard Net

-- The arm of the `select!` that a turn takes. `cancelled` says whether the whole server stops.
pub data Wake (Net : Type 0) : Type 0 where
  popped ticked late : Wake Net
  cancelled : Bool → Wake Net
  reloaded : Policy Net → Wake Net
  heard : Heard Net → Wake Net

-- How the send of the reply ends.
pub data Sent : Type 0 where
  sent send_failed stopped timed_out : Sent

pub record Serving (Net : Type 0) : Type 0 where
  pub session : Session Net
  pub nonce : ℕ
  pub last_heard : ℕ
  pub told : Option ℕ
  pub pending : List ServerMessage

-- What an arm gives. `stuck` is a bind that does not end.
pub data Chosen : Type 0 where
  reply : ServerMessage → Chosen
  nothing stuck : Chosen
  ends : CloseReason → Chosen

-- `PONG_DEADLINE`.
abbrev pub pong_deadline : ℕ
pong_deadline = 45000

unfoldable pub no_pending {ℓ} : {A : Type ℓ} → List A → Bool
no_pending [] = true
no_pending (m ∷ l) = false

unfoldable pub init {ℓ} : {A : Type ℓ} → A → List A → List A
init a [] = []
init a (b ∷ l) = a ∷ init b l

unfoldable pub last {ℓ} : {A : Type ℓ} → A → List A → A
last a [] = a
last a (b ∷ l) = last b l

module _ {Net : Type 0} where
  -- `Vec::pop`: the last one.
  unfoldable pub pop : List ServerMessage → Serving Net → Chosen × Serving Net
  pop [] v = (nothing, v)
  pop (m ∷ l) v = (reply (last m l), record v { pending = init m l })

  -- The guards of the arms, and the time of the sleep.
  unfoldable pub enabled : ℕ → Wake Net → Serving Net → Bool
  enabled now popped v = not (no_pending v.pending)
  enabled now (cancelled all) v = true
  enabled now late v = leb (v.last_heard + pong_deadline) now
  enabled now ticked v = true
  enabled now (reloaded p) v = no_pending v.pending
  enabled now (heard h) v = no_pending v.pending

  unfoldable pub bind_reply :
      Option (ServerMessage × Session Net) → Serving Net → Chosen × Serving Net
  bind_reply none v = (stuck, v)
  bind_reply (some (m, s)) v = (reply m, record v { session = s })

  -- After a send that went through: a `Shutdown` is the end.
  unfoldable pub sent_on : ℕ → ServerMessage → Serving Net → Option CloseReason × Serving Net
  sent_on now (shutdown text) v = (some Transport.shutdown, record v { told = some now })
  sent_on now m v = (none, v)

  -- The second `select!`, which sends the reply.
  unfoldable pub send : ℕ → Sent → ServerMessage → Serving Net → Option CloseReason × Serving Net
  send now sent m v = sent_on now m v
  send now send_failed m v = (some control_closed, v)
  send now stopped m v = (none, v)
  send now timed_out m v = (some unresponsive, v)

  -- The telling of a client whose session is cancelled.
  unfoldable pub tell_stop : ℕ → Bool → Sent → Serving Net → Chosen × Serving Net
  tell_stop now all sent v =
      (ends (if all then Transport.shutdown else superseded), record v { told = some now })
  tell_stop now all _ v = (ends (if all then Transport.shutdown else superseded), v)

  -- What a turn gives: `stuck` aside, the reason to end, or to go on.
  unfoldable pub after_arm :
      ℕ → Sent → Chosen × Serving Net → Option (Option CloseReason × Serving Net)
  after_arm now out (stuck, v) = none
  after_arm now out (nothing, v) = some (none, v)
  after_arm now out (ends why, v) = some (some why, v)
  after_arm now out (reply m, v) = some (send now out m v)

module _ (n : Nets) (host : IpAddr → Port → Bool) where
  open n use {Net}

  unfoldable pub hear : ClientMessage Net → Serving Net → Chosen × Serving Net
  hear (bind w) v = bind_reply (Session.bind n host w v.session) v
  hear (unbind service) v = (nothing, record v { session = (Stop.unbind service v.session).1 })
  hear (ping nonce) v = (reply (answer nonce), v)
  hear (pong nonce) v = (nothing, v)
  hear (hello name agent) v = (ends duplicate_hello, v)

  unfoldable pub read : ℕ → Heard Net → Serving Net → Chosen × Serving Net
  read now left v = (ends peer_left, v)
  read now malformed v = (ends control_closed, v)
  read now (message m) v = hear m (record v { last_heard = now })

  -- The body of an arm. The nonce is a u64.
  unfoldable pub arm : ℕ → Sent → Wake Net → Serving Net → Chosen × Serving Net
  arm now out popped v = pop v.pending v
  arm now out (cancelled all) v = tell_stop now all out v
  arm now out late v = (ends unresponsive, v)
  arm now out ticked v =
      let nonce = (v.nonce + 1) % 2 ^ 64 in (reply (ask nonce), record v { nonce = nonce })
  arm now out (reloaded p) v =
      let r = regrant n p v.session in (nothing, record v { session = r.1; pending = r.0 })
  arm now out (heard h) v = read now h v

  unfoldable pub turn :
      ℕ → Sent → Wake Net → Serving Net → Option (Option CloseReason × Serving Net)
  turn now out w v = after_arm now out (arm now out w v)
