-- ===== src/Client/Rebind.antt =====
-- crates/hawse-core/src/client/mod.rs: what a client asks of its server, and what a reload changes of
-- it. A `BTreeMap` is a dictionary in the order of its keys. Networks are of any type that can be
-- compared.
pub mod Asked
use hawse.Base.{
  ℕ, List, [], ◌∷◌, ◌++◌, Bool, true, false, ◌||◌, Option, none, some, ite, if◌then◌else◌,
}
use hawse.Base.Dict.{Dict, get}
use hawse.Base.Sets.{has}
use hawse.Base.Text.{Text, text_discrete}
use hawse.Proto.Port.{Kind, kind_discrete, Port, PortRequest, any, fixed, port_discrete}
use hawse.Proto.Msg.{Wanted, ClientMessage, bind, unbind}

-- A service of the client's config.
pub record Expose (Net : Type 0) : Type 0 where
  pub local : Text
  pub port : PortRequest
  pub allow : List Net
  pub proxy_protocol : Bool

unfoldable pub port_request_discrete : Discrete PortRequest
port_request_discrete = hlevel (port_discrete, kind_discrete)

-- The kind and the number that a request asks for.
unfoldable pub kind_and_port : PortRequest → Kind × Option ℕ
kind_and_port (any kind) = (kind, none)
kind_and_port (fixed port) = (port.kind, some port.number)

-- What `bind` asks for.
unfoldable pub wanted : {Net : Type 0} → Text → Expose Net → Wanted Net
wanted service expose = record {
  service = service;
  kind = (kind_and_port expose.port).0;
  port = (kind_and_port expose.port).1;
  allow = expose.allow;
  proxy_protocol = expose.proxy_protocol;
}

module _ {Net : Type 0} (same : Discrete Net) where
  unfoldable pub expose_discrete : Discrete (Expose Net)
  expose_discrete = hlevel (same, text_discrete, port_request_discrete)

  -- `from.get(service) != Some(expose)`.
  unfoldable pub is_other : Option (Expose Net) → Expose Net → Bool
  is_other none expose = true
  is_other (some e) expose = ite (expose_discrete e expose) false true

  unfoldable pub differs : Dict Text (Expose Net) → List Text → Text → Expose Net → Bool
  differs from retry service expose =
      has text_discrete service retry || is_other (get text_discrete service from) expose

  unfoldable pub unbinds :
      Dict Text (Expose Net) → List Text → Dict Text (Expose Net) → List (ClientMessage Net)
  unbinds next retry [] = []
  unbinds next retry ((service, expose) ∷ exposed) =
      let rest = unbinds next retry exposed in
      if differs next retry service expose then unbind service ∷ rest else rest

  unfoldable pub binds :
      Dict Text (Expose Net) → List Text → Dict Text (Expose Net) → List (ClientMessage Net)
  binds exposed retry [] = []
  binds exposed retry ((service, expose) ∷ next) =
      let rest = binds exposed retry next in
      if differs exposed retry service expose then bind (wanted service expose) ∷ rest else rest

  unfoldable pub rebind :
      Dict Text (Expose Net) → Dict Text (Expose Net) → List Text → List (ClientMessage Net)
  rebind exposed next retry = unbinds next retry exposed ++ binds exposed retry next
