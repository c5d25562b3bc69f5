-- ===== src/Client/Retry/Rounds.antt =====
-- The rounds of the client's run, from the first failure to its end.
use hawse.Base.{
  ℕ, ◌+◌, ◌*◌, ◌^◌, ◌≤◌, ◌≡◌, refl, ap, ◌∙◌, leb, List, [], ◌∷◌, ◌++◌, true, false, none, some, min,
  if◌then◌else◌, arith, All, length, Bool-cases, inl, inr,
}
use hawse.Base.Text.{Text}
use hawse.Client.Backoff.{Floats, Backoff, restart, step, max_u32, Places, next, step_lem}
use hawse.Client.Failure.{ClientError}
use hawse.Client.Retry.{
  is_config, classify, Ended, finished, broke, Disconnected, after_session, emitted, run,
}

module _ (f : Floats) (InUnit : f.F → Type 0) (chain : ClientError → Text) where
  -- A failure of a running client that retrying may mend, and no cancel while it waits.
  abbrev pub IsTransient : Ended f → Type 0
  IsTransient finished = ⊥
  IsTransient (broke e true lasted unit cancelled) = ⊥
  IsTransient (broke e false lasted unit cancelled) =
      (is_config (classify chain e) ≡ false) × (cancelled ≡ false) × InUnit unit

  -- A cancel, in the session or in the wait, or a failure of the config.
  abbrev pub IsStop : Ended f → Type 0
  IsStop finished = Unit
  IsStop (broke e true lasted unit cancelled) = Unit
  IsStop (broke e false lasted unit true) = InUnit unit
  IsStop (broke e false lasted unit false) = is_config (classify chain e) ≡ true

  -- The failures in a row before this one, of `n` counted: a session of a minute starts them over.
  abbrev pub in_row : ℕ → ℕ → ℕ
  in_row lasted n = if leb 60000000000 lasted then 0 else n

  -- The failures counted with this one, in a u32.
  abbrev pub failed_again : ℕ → ℕ → ℕ
  failed_again lasted n = min 4294967295 (in_row lasted n + 1)

  -- The event of a failure after `n` in a row: its cause, and a wait between half the step and the step
  -- of 2 ^ `n` seconds, or 30 where that is more.
  abbrev pub IsRetry : ClientError → ℕ → Disconnected → Type 0
  IsRetry e n d =
      (d.cause ≡ classify chain e)
      × (wait : ℕ) × (d.retry_in ≡ some wait)
      × (min (2 ^ n) 30 * 500000000 ≤ wait)
      × (wait ≤ min (2 ^ n) 30 * 1000000000)

  -- What the last round tells: nothing where a cancel came first, the cause and no retry for a failure
  -- of the config, and the retry that the cancel then cuts short.
  abbrev pub Last : ℕ → Ended f → List Disconnected → Type 0
  Last n finished ds = ds ≡ []
  Last n (broke e true lasted unit cancelled) ds = ds ≡ []
  Last n (broke e false lasted unit cancelled) ds =
      if◌then◌else◌ {A = Type 0} (is_config (classify chain e))
        (ds ≡ record { cause = classify chain e; retry_in = none } ∷ [])
        ((d : Disconnected) × (ds ≡ d ∷ []) × IsRetry e (in_row lasted n) d)

  -- What a run tells, round by round.
  unfoldable pub Told : ℕ → List (Ended f) → Ended f → List Disconnected → Type 0
  Told n [] stop ds = Last n stop ds
  Told n (finished ∷ ends) stop ds = ⊥
  Told n (broke e cancelled lasted unit waits ∷ ends) stop [] = ⊥
  Told n (broke e cancelled lasted unit waits ∷ ends) stop (d ∷ ds) =
      IsRetry e (in_row lasted n) d × Told (failed_again lasted n) ends stop ds

  module _ (places : Places f InUnit) where
    restart-in_row :
        (lasted : ℕ) (b : Backoff) → (restart lasted b).failures ≡ in_row lasted b.failures
    unfolding restart
    restart-in_row lasted b = ground arith

    next-IsRetry :
        (e : ClientError) (lasted : ℕ) (unit : f.F) (b : Backoff)
        → InUnit unit
        → IsRetry e
            (in_row lasted b.failures)
            (record { cause = classify chain e; retry_in = some (next f lasted unit b).0 })
    unfolding next
    next-IsRetry e lasted unit b u =
        let seconds : step (restart lasted b) ≡ min (2 ^ in_row lasted b.failures) 30 =
          step_lem (restart lasted b) ∙ ap (λ n. min (2 ^ n) 30) (restart-in_row lasted b) in
        let (low, high) = places (step (restart lasted b)) unit u in
        (
          refl,
          (next f lasted unit b).0,
          refl,
          omega (arith, low, seconds),
          omega (arith, high, seconds),
        )

    next-failed_again :
        (lasted : ℕ) (unit : f.F) (b : Backoff)
        → (next f lasted unit b).1 ≡ record { failures = failed_again lasted b.failures }
    unfolding next
    next-failed_again lasted unit b =
        ap (λ n. record { failures = min max_u32 (n + 1) }) (restart-in_row lasted b)

    run-Last :
        (stop : Ended f) (more : List (Ended f)) (b : Backoff)
        → IsStop stop
        → ((run f chain (stop ∷ more) (some b)).0 ≡ 1)
          × Last b.failures stop (run f chain (stop ∷ more) (some b)).1
    unfolding run emitted after_session
    run-Last finished more b h = (refl, refl)
    run-Last (broke e true lasted unit waits) more b h = (refl, refl)
    run-Last (broke e false lasted unit true) more b h =
        elim (Bool-cases (is_config (classify chain e))) [
          | inl c ↦ rw c (refl, refl)
          | inr c ↦ rw c (refl, (_, refl, next-IsRetry e lasted unit b h))
        ]
    run-Last (broke e false lasted unit false) more b h = rw h (refl, refl)

    -- For draws from 0 to 1, and however long the sessions last, the client makes another session after
    -- every failure that retrying may mend. It tells each with its cause and a wait between half the
    -- step and the step, which after `n` failures in a row is 2 ^ `n` seconds, at most 30; a session that
    -- lasted a minute starts the row over. A cancel in a session or in a wait, and a
    -- failure of the config, end the run, whatever would come after.
    pub run-Retries :
        (ends more : List (Ended f)) (stop : Ended f) (b : Backoff)
        → All IsTransient ends
        → IsStop stop
        → ((run f chain (ends ++ stop ∷ more) (some b)).0 ≡ length ends + 1)
          × Told b.failures ends stop (run f chain (ends ++ stop ∷ more) (some b)).1
    unfolding run emitted after_session Told
    run-Retries [] more stop b t h = run-Last stop more b h
    run-Retries (finished ∷ ends) more stop b t h = absurd t.0
    run-Retries (broke e true lasted unit waits ∷ ends) more stop b t h = absurd t.0
    run-Retries (broke e false lasted unit waits ∷ ends) more stop b t h =
        let ((transient, still, u), others) = t in
        let (count, told) =
          run-Retries ends more stop (record { failures = failed_again lasted b.failures }) others
            h in
        rw (transient, still, next-failed_again lasted unit b)
          (omega (arith, count), (next-IsRetry e lasted unit b u, told))
