-- ===== src/Proto/Frame.antt =====
-- crates/hawse-proto/src/frame.rs: messages in frames. The encoding of the crate `postcard` comes in
-- as a record of its functions on one type.
use hawse.Base.{ℕ, ◌≡◌, List, ◌++◌, Option, none, some, length, ltb, if◌then◌else◌}

abbrev pub max_frame : ℕ
max_frame = 65536

pub data FrameError : Type 0 where
  not_encoded not_decoded visitor : FrameError
  too_large : ℕ → FrameError

pub data Framed (A : Type 0) : Type 0 where
  ok : A → Framed A
  err : FrameError → Framed A

-- `to_allocvec`, `to_slice` and `take_from_bytes` at one type: a value may have no encoding, and a
-- prefix of bytes may stand for a value, with what is left of them.
pub record Postcard (A : Type 0) : Type 0 where
  pub put : A → Option (List ℕ)
  pub take : List ℕ → Option (A × List ℕ)

-- What the code relies on: a value's encoding is read back, whatever follows it.
abbrev pub Inverts : {A : Type 0} → Postcard A → Type 0
Inverts {A} p =
    (a : A) (bs rest : List ℕ) → p.put a ≡ some bs → p.take (bs ++ rest) ≡ some (a, rest)

unfoldable pub sized : List ℕ → Framed (List ℕ)
sized bs = if ltb max_frame (length bs) then err (too_large (length bs)) else ok bs

unfoldable pub encoded : Option (List ℕ) → Framed (List ℕ)
encoded none = err not_encoded
encoded (some bs) = sized bs

module _ {A : Type 0} (p : Postcard A) where
  unfoldable pub encode : A → Framed (List ℕ)
  encode a = encoded (p.put a)

  unfoldable pub decoded : Option (A × List ℕ) → Framed A
  decoded none = err not_decoded
  decoded (some (a, rest)) = ok a

  -- `from_bytes` leaves bytes behind the value unread.
  unfoldable pub decode : List ℕ → Framed A
  decode bs = decoded (p.take bs)
