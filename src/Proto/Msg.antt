-- ===== src/Proto/Msg.antt =====
-- crates/hawse-proto/src/msg.rs: the messages of the control stream, the headers of streams and
-- datagrams, and the codes of resets and closes. Texts are lists of code points. Networks are of any
-- type.
use hawse.Base.{
  ℕ, ◌+◌, ◌≤◌, ◌≡◌, refl, List, [], ◌∷◌, Bool, true, false, ◌&&◌, ◌||◌, not, Option, ◌==◌, leb,
  if◌then◌else◌, take, arith,
}
use hawse.Base.Net.{IpAddr, SocketAddr}
use hawse.Base.Text.{Text, codes}
use hawse.Proto.Key.{PublicKey}
use hawse.Proto.Port.{Kind}
pub mod Printable

pub data DenyReason : Type 0 where
  unknown_key : DenyReason

pub data BindFailure : Type 0 where
  not_granted in_use bad_port bad_name unsupported : BindFailure

-- What a client asks a bind for.
pub record Wanted (Net : Type 0) : Type 0 where
  pub service : Text
  pub kind : Kind
  pub port : Option ℕ
  pub allow : List Net
  pub proxy_protocol : Bool

pub data ClientMessage (Net : Type 0) : Type 0 where
  hello : Option Text → Text → ClientMessage Net
  bind : Wanted Net → ClientMessage Net
  unbind : Text → ClientMessage Net
  ping : ℕ → ClientMessage Net
  pong : ℕ → ClientMessage Net

pub data ServerMessage : Type 0 where
  welcome : Text → Text → ServerMessage
  denied : DenyReason → PublicKey → ServerMessage
  bound : Text → ℕ → ℕ → IpAddr → ServerMessage
  bind_failed : Text → BindFailure → ServerMessage
  shutdown : Text → ServerMessage
  ask : ℕ → ServerMessage
  answer : ℕ → ServerMessage

pub record StreamHeader : Type 0 where
  pub service_id : ℕ
  pub visitor : SocketAddr
  pub listener : SocketAddr

pub data StreamOpen : Type 0 where
  visitor : StreamHeader → StreamOpen
  bulk : ℕ → StreamOpen

pub record DatagramHeader : Type 0 where
  pub service_id : ℕ
  pub session : ℕ

-- `char::is_control`: the general category Cc.
unfoldable pub is_control : ℕ → Bool
is_control c = leb c 0x1f || (leb 0x7f c && leb c 0x9f)

-- `chars().filter(..)` of `printable`.
unfoldable pub shown : Text → Text
shown [] = []
shown (c ∷ s) = let rest = shown s in if is_control c then rest else c ∷ rest

unfoldable pub printable : Text → Text
printable s = take 128 (shown s)

-- `reset::name`.
unfoldable pub reset_name : ℕ → Text
reset_name code =
    if code == 0x10
    then codes "unknown service"
    else if code == 0x11
    then codes "local refused"
    else if code == 0x12
    then codes "aborted"
    else if code == 0x13
    then codes "unexpected stream"
    else codes "unknown code"
