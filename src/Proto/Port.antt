-- ===== src/Proto/Port.antt =====
-- crates/hawse-proto/src/port.rs: ports, ranges, spans and what a client asks for. `Text` has their
-- parsers.
pub mod Text
pub mod Bounds
use hawse.Base.{
  ℕ, zero, suc, ◌+◌, ◌-◌, ◌≡◌, List, [], ◌∷◌, Bool, ◌&&◌, leb, ite, ℕ_discrete, true, false,
}

pub data Kind : Type 0 where
  tcp udp : Kind

unfoldable pub kind_discrete : Discrete Kind
kind_discrete = hlevel

unfoldable pub same_kind : Kind → Kind → Bool
same_kind tcp tcp = true
same_kind udp udp = true
same_kind _ _ = false

pub record Port : Type 0 where
  pub number : ℕ
  pub kind : Kind

unfoldable pub port_discrete : Discrete Port
port_discrete = hlevel ℕ_discrete

pub record PortRange : Type 0 where
  pub first : ℕ
  pub last : ℕ
  pub kind : Kind

-- A run of port numbers with no protocol, used for the dynamic pool.
pub record PortSpan : Type 0 where
  pub first : ℕ
  pub last : ℕ

pub data PortRequest : Type 0 where
  any : Kind → PortRequest
  fixed : Port → PortRequest

-- `PortRange::contains`.
unfoldable pub contains : PortRange → Port → Bool
unfolding same_kind
contains r p = same_kind p.kind r.kind && (leb r.first p.number && leb p.number r.last)

-- `PortSpan::len`.
unfoldable pub len : PortSpan → ℕ
len s = s.last - s.first + 1

-- `PortSpan::contains_number`.
unfoldable pub contains_number : PortSpan → ℕ → Bool
contains_number s n = leb s.first n && leb n s.last

-- `PortSpan::iter`: the numbers from `first` to `last`, as many as `len` says.
count_up : ℕ → ℕ → List ℕ
count_up n zero = []
count_up n (suc k) = n ∷ count_up (n + 1) k

unfoldable pub iter : PortSpan → List ℕ
unfolding count_up len
iter s = count_up s.first (len s)

-- `PortRequest::kind`.
unfoldable pub kind_of : PortRequest → Kind
kind_of (any k) = k
kind_of (fixed p) = p.kind

-- `PortRequest::default`.
abbrev pub default_request : PortRequest
default_request = any tcp
