-- ===== src/Proto/Record.antt =====
-- crates/hawse-proto/src/record.rs: the headers of the records on a stream of the TCP transport.
pub mod Wire
use hawse.Base.{ℕ, suc, ◌+◌, ◌≡◌, List, [], ◌∷◌, Option, none, some, ◌==◌, if◌then◌else◌}
use hawse.Base.Bytes.{from_le2, from_le4, byte0, byte1, byte2, byte3}

abbrev pub data_tag : ℕ
data_tag = 0x00

abbrev pub finish_tag : ℕ
finish_tag = 0x01

abbrev pub reset_tag : ℕ
reset_tag = 0x02

-- The most one data record carries.
abbrev pub max_data : ℕ
max_data = 65535

-- The longest header.
abbrev pub max_head : ℕ
max_head = 5

pub data Head : Type 0 where
  carries : ℕ → Head
  finish : Head
  resets : ℕ → Head

unfoldable pub head_len : ℕ → Option ℕ
head_len tag =
    if tag == data_tag
    then some 3
    else if tag == finish_tag
    then some 1
    else if tag == reset_tag
    then some 5
    else none

-- The slice pattern of `decode`, by the length of the slice.
unfoldable pub decode : List ℕ → Option Head
decode (tag ∷ []) = if tag == finish_tag then some finish else none
decode (tag ∷ lo ∷ hi ∷ []) =
    if tag == data_tag
    then if from_le2 lo hi == 0 then none else some (carries (from_le2 lo hi))
    else none
decode (tag ∷ a ∷ b ∷ c ∷ d ∷ []) =
    if tag == reset_tag then some (resets (from_le4 a b c d)) else none
decode _ = none

-- `data(len)`.
unfoldable pub data_head : ℕ → List ℕ
data_head len = data_tag ∷ byte0 len ∷ byte1 len ∷ []

-- `reset(code)`.
unfoldable pub reset_head : ℕ → List ℕ
reset_head code = reset_tag ∷ byte0 code ∷ byte1 code ∷ byte2 code ∷ byte3 code ∷ []
