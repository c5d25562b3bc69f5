-- ===== src/Proto/Record/Wire.antt =====
-- Record headers as bytes: what is written is what is read, and only that.
use hawse.Base.{ℕ, ◌^◌, ◌<◌, ◌≤◌, ◌≡◌, refl, List, [], ◌∷◌, some, arith, length, All}
use hawse.Base.Bytes.{from_le2-bytes, from_le4-bytes}
use hawse.Proto.Record.{
  Head, carries, finish, resets, head_len, decode, data_head, reset_head, finish_tag, max_data,
  max_head,
}

-- The bytes of a header.
unfoldable pub encode : Head → List ℕ
encode (carries len) = data_head len
encode finish = finish_tag ∷ []
encode (resets code) = reset_head code

-- What the fields of a header may hold on the wire: a data record is never empty.
abbrev pub IsHead : Head → Type 0
IsHead (carries len) = (0 < len) × (len ≤ max_data)
IsHead finish = Unit {0}
IsHead (resets code) = code < 2 ^ 32

abbrev pub IsByte : ℕ → Type 0
IsByte b = b < 256

-- Every header within its ranges decodes to itself, and no header is longer than `max_head`.
pub decode-encode :
    (h : Head) → IsHead h → (decode (encode h) ≡ some h) × (length (encode h) ≤ max_head)
unfolding decode encode data_head reset_head
decode-encode (carries len) v = (ground (arith, from_le2-bytes len), omega arith)
decode-encode finish v = (refl, omega arith)
decode-encode (resets code) v = (ground (arith, from_le4-bytes code), omega arith)

-- A header that decodes is within its ranges, and its bytes are the ones that `encode` gives.
pub encode-decode :
    (bs : List ℕ) (h : Head) → All IsByte bs → decode bs ≡ some h → IsHead h × (encode h ≡ bs)
unfolding decode encode data_head reset_head
encode-decode (t ∷ []) finish v e = (tt, ground arith)
encode-decode (t ∷ []) (carries len) v e = absurd (ground arith)
encode-decode (t ∷ []) (resets code) v e = absurd (ground arith)
encode-decode (t ∷ lo ∷ hi ∷ []) finish v e = absurd (ground arith)
encode-decode (t ∷ lo ∷ hi ∷ []) (carries len) v e = ground arith
encode-decode (t ∷ lo ∷ hi ∷ []) (resets code) v e = absurd (ground arith)
encode-decode (t ∷ a ∷ b ∷ c ∷ d ∷ []) finish v e = absurd (ground arith)
encode-decode (t ∷ a ∷ b ∷ c ∷ d ∷ []) (carries len) v e = absurd (ground arith)
encode-decode (t ∷ a ∷ b ∷ c ∷ d ∷ []) (resets code) v e = ground arith
encode-decode _ h v e = absurd (ground arith)

-- Bytes that decode are exactly as many as their tag says.
pub decode-head_len :
    (t : ℕ) (bs : List ℕ) (h : Head)
    → decode (t ∷ bs) ≡ some h
    → head_len t ≡ some (length (t ∷ bs))
unfolding decode head_len
decode-head_len t [] h e = ground arith
decode-head_len t (lo ∷ hi ∷ []) h e = ground arith
decode-head_len t (a ∷ b ∷ c ∷ d ∷ []) h e = ground arith
decode-head_len t _ h e = absurd (ground arith)
