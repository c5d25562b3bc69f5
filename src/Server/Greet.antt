-- ===== src/Server/Greet.antt =====
-- `run`, `Claim::stake` and the drop of a `Claim` in crates/hawse-core/src/server/session.rs: what a
-- connection has to show before it is served, and which session of a key is the live one.
pub mod Admission
pub mod Claims
use hawse.Base.{
  ℕ, List, [], ◌∷◌, Bool, true, false, ◌||◌, not, Option, none, some, if◌then◌else◌, ite,
  ℕ_discrete,
}
use hawse.Base.Dict.{Dict, get, insert, remove}
use hawse.Base.Text.{Text}
use hawse.Proto.Key.{PublicKey, key_discrete}
use hawse.Proto.Msg.{ClientMessage, hello, bind, unbind, ping, pong, printable}
use hawse.Transport.{CloseReason, shutdown, denied, no_key, no_hello, bad_hello, control_closed}
use hawse.Server.Policy.{Grant, Policy, lookup}

-- How the wait for the Hello ends: the server stops, no stream came in time or the connection broke,
-- or the stream gave a message, or its end.
pub data Greeted (Net : Type 0) : Type 0 where
  stopping silent : Greeted Net
  spoke : Option (ClientMessage Net) → Greeted Net

-- What happens to one connection. `before` is the policy at the handshake and `after` the one the grant
-- is looked up in; `interrupted` says that the server stops while the session waits for the previous
-- one of its key, and `welcomed` that the Welcome was sent.
pub record Connection (Net : Type 0) : Type 0 where
  pub key : Option PublicKey
  pub before : Policy Net
  pub greeted : Greeted Net
  pub after : Policy Net
  pub previous : Bool
  pub interrupted : Bool
  pub welcomed : Bool

-- How `run` ends: closed, having charged the address with a failure or not, or as a session.
pub data Ran (Net : Type 0) : Type 0 where
  closed : Bool → CloseReason → Ran Net
  serves : Grant Net → Text → Ran Net

module _ {Net : Type 0} where
  unfoldable pub is_none : Option (Grant Net) → Bool
  is_none none = true
  is_none (some g) = false

  -- `lookup(&key).is_none()` at the handshake.
  unfoldable pub stranger : PublicKey → Connection Net → Bool
  stranger k c = is_none (lookup k c.before)

  -- From the grant on.
  unfoldable pub granted : Text → Connection Net → Option (Grant Net) → Ran Net
  granted agent c none = closed true denied
  granted agent c (some g) =
      if c.previous
      then if c.interrupted
        then closed false shutdown
        else if c.welcomed
        then serves g agent
        else closed false control_closed
      else if c.welcomed
      then serves g agent
      else closed false control_closed

  -- From the first message on.
  unfoldable pub first_message : PublicKey → Connection Net → Option (ClientMessage Net) → Ran Net
  first_message k c (some (hello name agent)) = granted (printable agent) c (lookup k c.after)
  first_message k c (some (bind w)) = closed (stranger k c) bad_hello
  first_message k c (some (unbind s)) = closed (stranger k c) bad_hello
  first_message k c (some (ping n)) = closed (stranger k c) bad_hello
  first_message k c (some (pong n)) = closed (stranger k c) bad_hello
  first_message k c none = closed (stranger k c) bad_hello

  unfoldable pub greet : PublicKey → Connection Net → Greeted Net → Ran Net
  greet k c stopping = closed false shutdown
  greet k c silent = closed (stranger k c) no_hello
  greet k c (spoke m) = first_message k c m

  unfoldable pub run_key : Option PublicKey → Connection Net → Ran Net
  run_key none c = closed true no_key
  run_key (some k) c = greet k c c.greeted

  unfoldable pub run : Connection Net → Ran Net
  run c = run_key c.key c

-- `Shared::sessions`: the live session of each key, by a number of its own.
abbrev pub Sessions : Type 0
Sessions = Dict PublicKey ℕ

-- The session that held the key until now comes back.
unfoldable pub stake : PublicKey → ℕ → Sessions → Option ℕ × Sessions
stake k live m = (get key_discrete k m, insert key_discrete k live m)

-- `Drop`: the key is given up unless a newer session has it.
unfoldable pub drop_held : PublicKey → ℕ → Option ℕ → Sessions → Sessions
drop_held k live none m = m
drop_held k live (some held) m = ite (ℕ_discrete held live) (remove key_discrete k m) m

unfoldable pub drop_claim : PublicKey → ℕ → Sessions → Sessions
drop_claim k live m = drop_held k live (get key_discrete k m) m
