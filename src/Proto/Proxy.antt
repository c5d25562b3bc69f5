-- ===== src/Proto/Proxy.antt =====
-- crates/hawse-proto/src/proxy.rs: the PROXY protocol's header, version 2, that goes in front of a
-- visitor's connection or datagram toward a local service.
pub mod Reading
use hawse.Base.{ℕ, List, [], ◌∷◌, ◌++◌}
use hawse.Base.Bytes.{to_be}
use hawse.Base.Net.{IpAddr, v4, v6, SocketAddr, to_canonical, to_ipv6_mapped}

-- `SIGNATURE`.
abbrev pub signature : List ℕ
signature = 0x0d ∷ 0x0a ∷ 0x0d ∷ 0x0a ∷ 0x00 ∷ 0x0d ∷ 0x0a ∷ 0x51 ∷ 0x55 ∷ 0x49 ∷ 0x54 ∷ 0x0a ∷ []

abbrev pub version_2_proxy : ℕ
version_2_proxy = 0x21

-- The octets of an address in the IPv6 form, the IPv4 address mapped, as their number.
unfoldable pub ipv6 : IpAddr → ℕ
ipv6 (v4 n) = to_ipv6_mapped n
ipv6 (v6 n) = n

-- The transport's byte, the length of the addresses and the two IP addresses.
unfoldable pub pair : ℕ → ℕ → IpAddr → IpAddr → List ℕ
pair over_ipv4 over_ipv6 (v4 from) (v4 to) =
    over_ipv4 ∷ (to_be 2 12 ++ (to_be 4 from ++ to_be 4 to))
pair over_ipv4 over_ipv6 from to =
    over_ipv6 ∷ (to_be 2 36 ++ (to_be 16 (ipv6 from) ++ to_be 16 (ipv6 to)))

unfoldable pub v2 : SocketAddr → SocketAddr → ℕ → ℕ → List ℕ
v2 src dst over_ipv4 over_ipv6 =
    signature
    ++ version_2_proxy
      ∷ (pair over_ipv4 over_ipv6 (to_canonical src.ip) (to_canonical dst.ip)
          ++ (to_be 2 src.port ++ to_be 2 dst.port))

unfoldable pub v2_tcp : SocketAddr → SocketAddr → List ℕ
v2_tcp src dst = v2 src dst 0x11 0x21

unfoldable pub v2_udp : SocketAddr → SocketAddr → List ℕ
v2_udp src dst = v2 src dst 0x12 0x22
