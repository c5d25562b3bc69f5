-- ===== src/Client/Events.antt =====
-- crates/hawse-core/src/client/mod.rs: what a client tells whoever runs it.
use hawse.Base.{ℕ, Option}
use hawse.Base.Net.{SocketAddr}
use hawse.Base.Text.{Text}
use hawse.Proto.Key.{PublicKey}
use hawse.Proto.Msg.{BindFailure}
use hawse.Proto.Port.{Port}
use hawse.Client.Retry.{DisconnectCause}

pub data TransportKind : Type 0 where
  quic tcp : TransportKind

pub data Event : Type 0 where
  connected : SocketAddr → TransportKind → Text → Text → ℕ → Event
  bound : Text → Port → Event
  bind_failed : Text → BindFailure → Event
  denied : PublicKey → Event
  disconnected : DisconnectCause → Option ℕ → Event
  round_trip : ℕ → Event
