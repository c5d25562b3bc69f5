-- ===== src/Server/Limiter.antt =====
-- crates/hawse-core/src/server/limiter.rs: failed authentications per address, in token buckets. The
-- floating-point numbers of the buckets come in as a record of their operations; instants are
-- nanoseconds.
pub mod Sweeping
pub mod Table
pub mod Pending
use hawse.Base.{
  ℕ, suc, ◌+◌, ◌-◌, ◌*◌, ◌/◌, ◌%◌, ◌^◌, List, [], ◌∷◌, Bool, true, false, ◌&&◌, ◌||◌, not, Option,
  none, some, ◌==◌, leb, ltb, if◌then◌else◌,
}
use hawse.Base.Dict.{Dict, get, insert, remove, size}
use hawse.Base.Net.{IpAddr, v4, v6, ip_discrete, to_canonical}

-- `f64`: `of` is `f64::from`, `secs` is `as_secs_f64` of nanoseconds.
pub record Floats : Type 1 where
  pub F : Type 0
  pub of : ℕ → F
  pub secs : ℕ → F
  pub plus : F → F → F
  pub minus : F → F → F
  pub times : F → F → F
  pub over : F → F → F
  pub least : F → F → F
  pub most : F → F → F
  pub ge : F → F → Bool
  pub lt : F → F → Bool

pub data Failure : Type 0 where
  counted now_limited untracked disabled : Failure

abbrev pub max_tracked : ℕ
max_tracked = 16384

-- An IPv4 address, or the /64 of an IPv6 one: the low 64 bits are masked off.
unfoldable pub network : IpAddr → IpAddr
network (v4 a) = v4 a
network (v6 a) = v6 (a / 2 ^ 64 * 2 ^ 64)

unfoldable pub key : IpAddr → IpAddr
key ip = network (to_canonical ip)

unfoldable pub unwrap_or {ℓ} : {A : Type ℓ} → A → Option A → A
unwrap_or d none = d
unwrap_or d (some a) = a

unfoldable pub is_none {ℓ} : {A : Type ℓ} → Option A → Bool
is_none none = true
is_none (some a) = false

-- `last_sweep.is_none_or(..)` with `SWEEP_EVERY`.
unfoldable pub may_sweep : ℕ → Option ℕ → Bool
may_sweep now none = true
may_sweep now (some at_) = leb (10 ^ 9) (now - at_)

pub record Bucket (F : Type 0) : Type 0 where
  pub tokens : F
  pub since : ℕ
  pub warned : Bool

pub record Limiter (F : Type 0) : Type 0 where
  pub per_minute : ℕ
  pub buckets : Dict IpAddr (Bucket F)
  pub pending : Dict IpAddr ℕ
  pub full_warned : Bool
  pub last_sweep : Option ℕ

unfoldable pub new : {F : Type 0} → ℕ → Limiter F
new per_minute = record {
  per_minute = per_minute;
  buckets = [];
  pending = [];
  full_warned = false;
  last_sweep = none;
}

-- The count a leaving attempt leaves; the entry goes at zero.
unfoldable pub end_pending : IpAddr → Option ℕ → Dict IpAddr ℕ → Dict IpAddr ℕ
end_pending k none m = m
end_pending k (some c) m =
    if c - 1 == 0 then remove ip_discrete k m else insert ip_discrete k (c - 1) m

-- `Limiter::end`.
unfoldable pub end : {F : Type 0} → IpAddr → Limiter F → Limiter F
end ip l = record l {
  pending = end_pending (key ip) (get ip_discrete (key ip) l.pending) l.pending;
}

module _ (f : Floats) where
  open f use {F, of, secs, plus, minus, times, over, least, most, ge, lt}

  unfoldable pub refill : F → ℕ → Bucket F → Bucket F
  refill capacity now b =
      let elapsed = secs (now - b.since) in
      let tokens =
        least (plus b.tokens (over (times capacity elapsed) (secs (60 * 10 ^ 9)))) capacity in
      record { tokens = tokens; since = now; warned = not (ge tokens capacity) && b.warned }

  -- The bucket of the key, refilled in place, and the tokens it has.
  unfoldable pub tokens_of : F → ℕ → IpAddr → Option (Bucket F) → Limiter F → F × Limiter F
  tokens_of capacity now k none l = (capacity, l)
  tokens_of capacity now k (some b) l =
      let b' = refill capacity now b in
      (b'.tokens, record l { buckets = insert ip_discrete k b' l.buckets })

  unfoldable pub enough : IpAddr → F × Limiter F → Bool × Limiter F
  enough k (tokens, l) =
      (ge (minus tokens (of (unwrap_or 0 (get ip_discrete k l.pending)))) (of 1), l)

  unfoldable pub permits : IpAddr → ℕ → Limiter F → Bool × Limiter F
  permits ip now l =
      if l.per_minute == 0
      then (true, l)
      else enough (key ip)
          (tokens_of (of l.per_minute) now (key ip) (get ip_discrete (key ip) l.buckets) l)

  -- A permitted attempt holds one more; the count is a u32.
  unfoldable pub hold : IpAddr → Bool × Limiter F → Bool × Limiter F
  hold k (permitted, l) =
      let count = (unwrap_or 0 (get ip_discrete k l.pending) + 1) % 2 ^ 32 in
      (
        permitted,
        if permitted && not (l.per_minute == 0)
            then record l { pending = insert ip_discrete k count l.pending }
            else l,
      )

  unfoldable pub begin : IpAddr → ℕ → Limiter F → Bool × Limiter F
  begin ip now l = hold (key ip) (permits ip now l)

  -- `retain` of the buckets still refilling.
  unfoldable pub retain : F → ℕ → Dict IpAddr (Bucket F) → Dict IpAddr (Bucket F)
  retain capacity now [] = []
  retain capacity now ((k, b) ∷ m) =
      let rest = retain capacity now m in
      if lt (refill capacity now b).tokens capacity then (k, refill capacity now b) ∷ rest else rest

  unfoldable pub sweep : F → ℕ → Limiter F → Limiter F
  sweep capacity now l =
      let buckets = retain capacity now l.buckets in
      record l {
        buckets = buckets;
        full_warned = not (ltb (size ip_discrete buckets) (max_tracked / 2)) && l.full_warned;
        last_sweep = some now;
      }

  -- The failure counted in its bucket, a full one where there is none.
  unfoldable pub count : F → ℕ → IpAddr → Limiter F → Failure × Limiter F
  count capacity now k l =
      let full : Bucket F = record { tokens = capacity; since = now; warned = false } in
      let b = refill capacity now (unwrap_or full (get ip_discrete k l.buckets)) in
      let tokens = most (minus b.tokens (of 1)) (of 0) in
      let quiet = ge tokens (of 1) || b.warned in
      (
        if quiet then counted else now_limited,
        record l {
          buckets =
              insert ip_discrete k
                (record { tokens = tokens; since = b.since; warned = not quiet || b.warned })
                l.buckets;
        },
      )

  -- Where the table is full of others, after the sweep it may be time for.
  unfoldable pub swept : F → ℕ → Limiter F → Limiter F
  swept capacity now l = if may_sweep now l.last_sweep then sweep capacity now l else l

  unfoldable pub count_or_not : F → ℕ → IpAddr → Limiter F → Failure × Limiter F
  count_or_not capacity now k l =
      if leb max_tracked (size ip_discrete l.buckets)
      then (untracked, record l { full_warned = true })
      else count capacity now k l

  unfoldable pub failed : IpAddr → ℕ → Limiter F → Failure × Limiter F
  failed ip now l =
      let capacity = of l.per_minute in
      let k = key ip in
      if l.per_minute == 0
      then (disabled, l)
      else if is_none (get ip_discrete k l.buckets) && leb max_tracked (size ip_discrete l.buckets)
      then count_or_not capacity now k (swept capacity now l)
      else count capacity now k l
