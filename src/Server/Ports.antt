-- ===== src/Server/Ports.antt =====
-- crates/hawse-core/src/server/ports.rs: which ports of the server are taken.
pub mod Walk
pub mod Claims
use hawse.Base.{
  ℕ, zero, suc, ◌+◌, ◌%◌, ◌^◌, List, [], Bool, true, false, Option, none, some, ◌==◌, if◌then◌else◌,
  not,
}
use hawse.Base.Sets.{has, add, delete}
use hawse.Proto.Port.{Kind, tcp, udp, Port, PortSpan, port_discrete, len}
use hawse.Proto.Msg.{BindFailure, in_use}

pub record PortAllocator : Type 0 where
  pub span : PortSpan
  pub cursor : ℕ
  pub in_use : List Port

unfoldable pub new : PortSpan → PortAllocator
new span = record { span = span; cursor = span.first; in_use = [] }

-- `holds`.
unfoldable pub holds : PortAllocator → Port → Bool
unfolding has
holds a port = has port_discrete port a.in_use

-- `self.in_use.insert(port)`.
unfoldable pub take_port : Port → PortAllocator → PortAllocator
unfolding add
take_port port a = record a { in_use = add port_discrete port a.in_use }

-- `none` is `Ok(())`.
unfoldable pub claim : Port → PortAllocator → Option BindFailure × PortAllocator
claim port a = if holds a port then (some in_use, a) else (none, take_port port a)

-- `self.cursor + 1` is a u16.
unfoldable pub advance : PortAllocator → PortAllocator
advance a = record a {
  cursor = if a.cursor == a.span.last then a.span.first else (a.cursor + 1) % 2 ^ 16;
}

abbrev pub at_cursor : Kind → PortAllocator → Port
at_cursor kind a = record { number = a.cursor; kind = kind }

-- The `for` loop of `claim_dynamic`, by the rounds left.
unfoldable pub walk : ℕ → Kind → PortAllocator → Option Port × PortAllocator
walk zero kind a = (none, a)
walk (suc n) kind a =
    let rest = walk n kind (advance a) in
    let taken : Option Port × PortAllocator =
      (some (at_cursor kind a), take_port (at_cursor kind a) (advance a)) in
    if holds a (at_cursor kind a) then rest else taken

unfoldable pub claim_dynamic : Kind → PortAllocator → Option Port × PortAllocator
claim_dynamic kind a = walk (len a.span) kind a

unfoldable pub release : Port → PortAllocator → Bool × PortAllocator
release port a = (holds a port, record a { in_use = delete port_discrete port a.in_use })

unfoldable pub reserve : ℕ → PortAllocator → PortAllocator
reserve number a =
    take_port (record { number = number; kind = udp })
      (take_port (record { number = number; kind = tcp }) a)
