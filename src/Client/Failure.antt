-- ===== src/Client/Failure.antt =====
-- crates/hawse-core/src/client/mod.rs: why a session of the client failed.
use hawse.Base.Text.{Text}
use hawse.Proto.Key.{PublicKey}

-- `ClientError`; what lies in those of other crates is left out.
pub data ClientError : Type 0 where
  server_addr resolve no_address protocol : Text → ClientError
  identity tls quic transport control_closed encode : ClientError
  denied : PublicKey → ClientError
  shutdown : Text → ClientError
  unresponsive version window buffer : ClientError
  no_transport : ClientError → ClientError → ClientError
