-- ===== src/Traffic/Tally.antt =====
-- What the calls on a meter add up to.
use hawse.Base.{ℕ, suc, ◌+◌, ◌^◌, ◌<◌, ◌≡◌, List, [], ◌∷◌, ite}
use hawse.Base.Text.{text_discrete}
use hawse.Traffic.{
  Counts, Call, opens, closes, carries_down, carries_up, datagram_down, datagram_up, drops, Event,
  on, takes,
}

-- The calls made on a service's meter, in order.
unfoldable pub calls_on : List ℕ → List Event → List Call
calls_on s [] = []
calls_on s (on j c ∷ es) = let rest = calls_on s es in ite (text_discrete j s) (c ∷ rest) rest
calls_on s (takes ∷ es) = calls_on s es

-- A connection is closed by the guard its opening returned: with `n` guards held, the calls drop no
-- guard that is not held.
pub data Held : ℕ → List Call → Type 0 where
  done : {n : ℕ} → Held n []
  opening : {n : ℕ} {cs : List Call} → Held (suc n) cs → Held n (opens ∷ cs)
  closing : {n : ℕ} {cs : List Call} → Held n cs → Held (suc n) (closes ∷ cs)
  carrying_down : {n b : ℕ} {cs : List Call} → Held n cs → Held n (carries_down b ∷ cs)
  carrying_up : {n b : ℕ} {cs : List Call} → Held n cs → Held n (carries_up b ∷ cs)
  taking : {n b : ℕ} {cs : List Call} → Held n cs → Held n (datagram_down b ∷ cs)
  giving : {n b : ℕ} {cs : List Call} → Held n cs → Held n (datagram_up b ∷ cs)
  dropping : {n b : ℕ} {cs : List Call} → Held n cs → Held n (drops b ∷ cs)

-- What one call adds to a total.
unfoldable pub opened : Call → ℕ
opened opens = 1
opened _ = 0

unfoldable pub closed : Call → ℕ
closed closes = 1
closed _ = 0

unfoldable pub bytes_down : Call → ℕ
bytes_down (carries_down n) = n
bytes_down (datagram_down n) = n
bytes_down _ = 0

unfoldable pub bytes_up : Call → ℕ
bytes_up (carries_up n) = n
bytes_up (datagram_up n) = n
bytes_up _ = 0

unfoldable pub went_down : Call → ℕ
went_down (datagram_down n) = 1
went_down _ = 0

unfoldable pub went_up : Call → ℕ
went_up (datagram_up n) = 1
went_up _ = 0

unfoldable pub lost : Call → ℕ
lost (drops n) = n
lost _ = 0

unfoldable pub total : (Call → ℕ) → List Call → ℕ
total w [] = 0
total w (c ∷ cs) = w c + total w cs

-- The totals fit the counters.
pub record Fits (cs : List Call) : Type 0 where
  pub opened_fit : total opened cs < 2 ^ 64
  pub down_fit : total bytes_down cs < 2 ^ 64
  pub up_fit : total bytes_up cs < 2 ^ 64
  pub datagrams_down_fit : total went_down cs < 2 ^ 64
  pub datagrams_up_fit : total went_up cs < 2 ^ 64
  pub lost_fit : total lost cs < 2 ^ 64

-- Counters that are the totals of `cs`; the open ones are those opened and not closed.
pub record Tallied (cs : List Call) (c : Counts) : Type 0 where
  pub still_open : c.open_now + total closed cs ≡ total opened cs
  pub visitors_told : c.visitors ≡ total opened cs
  pub down_told : c.down ≡ total bytes_down cs
  pub up_told : c.up ≡ total bytes_up cs
  pub datagrams_down_told : c.datagrams_down ≡ total went_down cs
  pub datagrams_up_told : c.datagrams_up ≡ total went_up cs
  pub lost_told : c.dropped ≡ total lost cs
