-- ===== src/Base/Net.antt =====
-- `std::net`: an IPv4 address is its u32 and an IPv6 address its u128.
use Prim.Native.Nat.{ℕ, ◌+◌, ◌*◌, ◌/◌, ◌%◌, ◌^◌, ◌<◌}
use mathlib.Core.Bool.{Bool, true, false}
use native.Mathlib.Omega.{arith}
use native.Mathlib.Decide.{ℕ_discrete}
use hawse.Base.Tests.{◌==◌, if◌then◌else◌}

pub data IpAddr : Type 0 where
  v4 : ℕ → IpAddr
  v6 : ℕ → IpAddr

unfoldable pub ip_discrete : Discrete IpAddr
ip_discrete = hlevel ℕ_discrete

pub record SocketAddr : Type 0 where
  pub ip : IpAddr
  pub port : ℕ

unfoldable pub socket_addr_discrete : Discrete SocketAddr
socket_addr_discrete = hlevel (ℕ_discrete, ip_discrete)

abbrev pub IsIp : IpAddr → Type 0
IsIp (v4 n) = n < 2 ^ 32
IsIp (v6 n) = n < 2 ^ 128

-- `::ffff:a.b.c.d` is the IPv4 address a.b.c.d.
unfoldable pub to_canonical : IpAddr → IpAddr
to_canonical (v4 n) = v4 n
to_canonical (v6 n) = if n / 2 ^ 32 == 0xffff then v4 (n % 2 ^ 32) else v6 n

abbrev pub to_ipv6_mapped : ℕ → ℕ
to_ipv6_mapped n = 0xffff * 2 ^ 32 + n

abbrev pub is_ipv4 : IpAddr → Bool
is_ipv4 (v4 n) = true
is_ipv4 (v6 n) = false

pub to_canonical-IsIp : (ip : IpAddr) → IsIp ip → IsIp (to_canonical ip)
unfolding to_canonical
to_canonical-IsIp (v4 n) h = h
to_canonical-IsIp (v6 n) h = ground arith
