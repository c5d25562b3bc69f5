-- ===== src/Transport.antt =====
-- crates/hawse-core/src/transport/mod.rs: why a connection is closed, with the code a QUIC peer is
-- sent and the text of the log.
use hawse.Base.{ℕ, ◌≡◌, refl, sym, ap, ◌∙◌, Option, none, some, ◌==◌, if◌then◌else◌, arith}
use hawse.Base.Text.{Text, codes}

pub data CloseReason : Type 0 where
  shutdown superseded denied no_key no_hello bad_hello : CloseReason
  duplicate_hello unresponsive peer_left control_closed : CloseReason

unfoldable pub code : CloseReason → ℕ
code shutdown = 0x00
code superseded = 0x01
code denied = 0x02
code no_key = 0x03
code no_hello = 0x04
code bad_hello = 0x05
code duplicate_hello = 0x06
code unresponsive = 0x07
code peer_left = 0x08
code control_closed = 0x09

unfoldable pub as_str : CloseReason → Text
as_str shutdown = codes "shutdown"
as_str superseded = codes "superseded"
as_str denied = codes "denied"
as_str no_key = codes "no key"
as_str no_hello = codes "no hello"
as_str bad_hello = codes "expected hello"
as_str duplicate_hello = codes "duplicate hello"
as_str unresponsive = codes "unresponsive"
as_str peer_left = codes "peer left"
as_str control_closed = codes "control stream closed"

reason_of : ℕ → Option CloseReason
reason_of k =
    if k == 0
    then some shutdown
    else if k == 1
    then some superseded
    else if k == 2
    then some denied
    else if k == 3
    then some no_key
    else if k == 4
    then some no_hello
    else if k == 5
    then some bad_hello
    else if k == 6
    then some duplicate_hello
    else if k == 7
    then some unresponsive
    else if k == 8
    then some peer_left
    else if k == 9
    then some control_closed
    else none

reason_of-code : (r : CloseReason) → reason_of (code r) ≡ some r
unfolding reason_of code
reason_of-code shutdown = refl
reason_of-code superseded = refl
reason_of-code denied = refl
reason_of-code no_key = refl
reason_of-code no_hello = refl
reason_of-code bad_hello = refl
reason_of-code duplicate_hello = refl
reason_of-code unresponsive = refl
reason_of-code peer_left = refl
reason_of-code control_closed = refl

-- A peer can tell any two reasons apart by their codes.
pub code_injective : (r s : CloseReason) → code r ≡ code s → r ≡ s
code_injective r s e =
    let h : some r ≡ some s = sym (reason_of-code r) ∙ ap reason_of e ∙ reason_of-code s in
    ground (arith, h)
