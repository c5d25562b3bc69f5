-- ===== src/Client/Race.antt =====
-- crates/hawse-core/src/client/race.rs: a dial by QUIC and one by TCP beside it. A dial is the time it
-- takes and its result; times count from the start of each.
use hawse.Base.{
  ℕ, ◌+◌, ◌≤◌, ◌<◌, ◌≡◌, refl, Option, none, some, leb, if◌then◌else◌, arith, Bool-cases, inl, inr,
  ◌⊎◌,
}

pub data Result (T E : Type 0) : Type 0 where
  ok : T → Result T E
  err : E → Result T E

pub record Dial (T E : Type 0) : Type 0 where
  pub takes : ℕ
  pub result : Result T E

pub data Raced (T E : Type 0) : Type 0 where
  quic : T → Raced T E
  tcp : T → Option E → Raced T E
  failed : E → E → Raced T E

module _ {T E : Type 0} where
  -- TCP alone, after QUIC has failed.
  unfoldable pub tcp_after : E → Result T E → Raced T E
  tcp_after quic_err (ok t) = tcp t (some quic_err)
  tcp_after quic_err (err e) = failed quic_err e

  -- QUIC alone, after TCP has failed.
  unfoldable pub quic_after : E → Result T E → Raced T E
  quic_after tcp_err (ok t) = quic t
  quic_after tcp_err (err e) = failed e tcp_err

  unfoldable pub quic_first : Result T E → Result T E → Raced T E
  quic_first (ok t) other = quic t
  quic_first (err e) other = tcp_after e other

  unfoldable pub tcp_first : Result T E → Result T E → Raced T E
  tcp_first (ok t) other = tcp t none
  tcp_first (err e) other = quic_after e other

  -- The timeout of `after` looks at the dial first; the `select!` is biased to QUIC.
  unfoldable pub race : Dial T E → Dial T E → ℕ → Raced T E
  race q t after =
      if leb q.takes after
      then quic_first q.result t.result
      else if leb q.takes (after + t.takes)
      then quic_first q.result t.result
      else tcp_first t.result q.result

  -- What the race promises of its outcome.
  abbrev pub Fair : Dial T E → Dial T E → ℕ → Raced T E → Type 0
  Fair q t after (quic x) =
      (q.result ≡ ok x) × ((q.takes ≤ after + t.takes) ⊎ ((e : E) × (t.result ≡ err e)))
  Fair q t after (tcp x (some e)) =
      (t.result ≡ ok x) × (q.result ≡ err e) × (q.takes ≤ after + t.takes)
  Fair q t after (tcp x none) = (t.result ≡ ok x) × (after + t.takes < q.takes)
  Fair q t after (failed e e') = (q.result ≡ err e) × (t.result ≡ err e')

  tcp_after-Fair :
      (q t : Dial T E) (after : ℕ) (e : E) (r : Result T E)
      → q.result ≡ err e
      → t.result ≡ r
      → q.takes ≤ after + t.takes
      → Fair q t after (tcp_after e r)
  unfolding tcp_after
  tcp_after-Fair q t after e (ok x) h k l = (k, h, l)
  tcp_after-Fair q t after e (err x) h k l = (h, k)

  quic_first-Fair :
      (q t : Dial T E) (after : ℕ) (r : Result T E)
      → q.result ≡ r
      → q.takes ≤ after + t.takes
      → Fair q t after (quic_first r t.result)
  unfolding quic_first
  quic_first-Fair q t after (ok x) h l = (h, inl l)
  quic_first-Fair q t after (err e) h l = tcp_after-Fair q t after e t.result h refl l

  quic_after-Fair :
      (q t : Dial T E) (after : ℕ) (e : E) (r : Result T E)
      → t.result ≡ err e
      → q.result ≡ r
      → Fair q t after (quic_after e r)
  unfolding quic_after
  quic_after-Fair q t after e (ok x) h k = (k, inr (e, h))
  quic_after-Fair q t after e (err x) h k = (k, h)

  tcp_first-Fair :
      (q t : Dial T E) (after : ℕ) (r : Result T E)
      → t.result ≡ r
      → after + t.takes < q.takes
      → Fair q t after (tcp_first r q.result)
  unfolding tcp_first
  tcp_first-Fair q t after (ok x) h l = (h, l)
  tcp_first-Fair q t after (err e) h l = quic_after-Fair q t after e q.result h refl

  -- The first dial to connect wins and a tie goes to QUIC: QUIC wins unless it failed or TCP, started
  -- `after` later, connected strictly before it; the race fails only if both do, with the error of
  -- each.
  pub race-Fair : (q t : Dial T E) (after : ℕ) → Fair q t after (race q t after)
  unfolding race
  race-Fair q t after = elim (Bool-cases (leb q.takes after)) [
    | inl e ↦ rw e (quic_first-Fair q t after q.result refl (ground arith))
    | inr e ↦ elim (Bool-cases (leb q.takes (after + t.takes))) [
      | inl h ↦ rw (e, h) (quic_first-Fair q t after q.result refl (ground arith))
      | inr h ↦ rw (e, h) (tcp_first-Fair q t after t.result refl (ground arith))
    ]
  ]
