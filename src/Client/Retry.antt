-- ===== src/Client/Retry.antt =====
-- crates/hawse-core/src/client/mod.rs: what a failure means for the next session, and the loop of
-- sessions. The text of an error's chain, and whether TLS reported an unknown protocol, are functions
-- of the error. Durations are nanoseconds.
pub mod Rounds
use hawse.Base.{
  ℕ, ◌+◌, ◌≤◌, ◌≡◌, refl, List, [], ◌∷◌, ◌++◌, Bool, true, false, ◌&&◌, ◌||◌, Option, none, some,
  if◌then◌else◌, arith, All, length, ap, Bool-cases, inl, inr,
}
use hawse.Base.Text.{Text}
use hawse.Client.Backoff.{Floats, Backoff, next}
use hawse.Client.Failure
use hawse.Client.Failure.{ClientError}

pub data DisconnectCause : Type 0 where
  shutdown : Text → DisconnectCause
  unresponsive denied : DisconnectCause
  transport config : Text → DisconnectCause

-- `matches!(cause, DisconnectCause::Config(_))`.
unfoldable pub is_config : DisconnectCause → Bool
is_config (config text) = true
is_config _ = false

unfoldable pub versioned : (ClientError → Bool) → ClientError → ClientError
versioned wrong_version (Failure.no_transport q t) =
    if wrong_version q || wrong_version t then Failure.version else Failure.no_transport q t
versioned wrong_version e = if wrong_version e then Failure.version else e

unfoldable pub classify : (ClientError → Text) → ClientError → DisconnectCause
classify chain (Failure.shutdown s) = shutdown s
classify chain Failure.unresponsive = unresponsive
classify chain (Failure.denied key) = denied
classify chain Failure.encode = config (chain Failure.encode)
classify chain (Failure.server_addr s) = config (chain (Failure.server_addr s))
classify chain Failure.window = config (chain Failure.window)
classify chain Failure.buffer = config (chain Failure.buffer)
classify chain Failure.tls = config (chain Failure.tls)
classify chain Failure.identity = config (chain Failure.identity)
classify chain (Failure.no_transport q t) =
    let both = is_config (classify chain q) && is_config (classify chain t) in
    if both
    then config (chain (Failure.no_transport q t))
    else transport (chain (Failure.no_transport q t))
classify chain e = transport (chain e)

-- `Event::Disconnected`.
pub record Disconnected : Type 0 where
  pub cause : DisconnectCause
  pub retry_in : Option ℕ

unfoldable pub emitted : Option Disconnected → List Disconnected → List Disconnected
emitted none events = events
emitted (some d) events = d ∷ events

module _ (f : Floats) where
  -- How a round of the loop goes: its session ends by a cancel, or with an error. Of the second: whether
  -- the run was cancelled by then, how long the session lasted, the draw of `random_unit`, and whether
  -- the cancel comes while the loop waits.
  pub data Ended : Type 0 where
    finished : Ended
    broke : ClientError → Bool → ℕ → f.F → Bool → Ended

  -- A round of `run` once its session is over: what it emits, and the backoff it goes on with, if it
  -- does.
  unfoldable pub after_session :
      (ClientError → Text) → Ended → Backoff → Option Disconnected × Option Backoff
  after_session chain finished b = (none, none)
  after_session chain (broke e true lasted unit cancelled) b = (none, none)
  after_session chain (broke e false lasted unit cancelled) b =
      let cause = classify chain e in
      if is_config cause then (some (record { cause = cause; retry_in = none }), none) else (
        some (record { cause = cause; retry_in = some (next f lasted unit b).0 }),
        if cancelled then none else some (next f lasted unit b).1,
      )

  -- `run` over its rounds: how many sessions it made, and its events. Without a backoff it is over.
  -- It waits where the list ends.
  unfoldable pub run : (ClientError → Text) → List Ended → Option Backoff → ℕ × List Disconnected
  run chain ends none = (0, [])
  run chain [] (some b) = (0, [])
  run chain (e ∷ ends) (some b) =
      let rest = run chain ends (after_session chain e b).1 in
      (rest.0 + 1, emitted (after_session chain e b).0 rest.1)
