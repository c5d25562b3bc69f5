-- ===== src/Proto/Packet.antt =====
-- crates/hawse-proto/src/packet.rs: a UDP payload on its way through the tunnel, behind the header of
-- its session and, from the server to a service with PROXY headers, its visitor.
pub mod RoundTrip
use hawse.Base.{
  ℕ, ◌+◌, List, [], ◌∷◌, ◌++◌, Bool, Option, none, some, length, take, drop, ltb, ◌==◌,
  if◌then◌else◌,
}
use hawse.Base.Bytes.{to_be, from_be}
use hawse.Base.Net.{IpAddr, v4, v6, SocketAddr, to_canonical}
use hawse.Proto.Frame.{
  Framed, ok, err, not_encoded, not_decoded, visitor, too_large, Postcard, sized,
}
use hawse.Proto.Msg.{DatagramHeader}

-- `HEADER_MAX`, the length of the buffer that `to_slice` writes to.
abbrev pub header_max : ℕ
header_max = 8

-- `if len > MAX_FRAME`, and the packet.
unfoldable pub with_head : Option (List ℕ) → List ℕ → Framed (List ℕ)
with_head none rest = err not_encoded
with_head (some head) rest =
    if ltb header_max (length head) then err not_encoded else sized (head ++ rest)

-- The address, canonical: the byte 4 or 6, the octets, and the port.
unfoldable pub address : IpAddr → List ℕ
address (v4 n) = 0x04 ∷ to_be 4 n
address (v6 n) = 0x06 ∷ to_be 16 n

unfoldable pub visitor_bytes : SocketAddr → List ℕ
visitor_bytes a = address (to_canonical a.ip) ++ to_be 2 a.port

-- What is behind an address: the port and the payload.
unfoldable pub take_port :
    DatagramHeader → IpAddr → List ℕ → Framed (DatagramHeader × SocketAddr × List ℕ)
take_port h ip (hi ∷ lo ∷ payload) =
    ok (h, record { ip = ip; port = from_be 0 (hi ∷ lo ∷ []) }, payload)
take_port h ip _ = err visitor

-- `[IPV4, a, b, c, d, rest @ ..]`.
unfoldable pub take_ipv4 : DatagramHeader → List ℕ → Framed (DatagramHeader × SocketAddr × List ℕ)
take_ipv4 h (a ∷ b ∷ c ∷ d ∷ rest) = take_port h (v4 (from_be 0 (a ∷ b ∷ c ∷ d ∷ []))) rest
take_ipv4 h _ = err visitor

-- `split_first_chunk::<16>`.
unfoldable pub take_ipv6 : DatagramHeader → List ℕ → Framed (DatagramHeader × SocketAddr × List ℕ)
take_ipv6 h bs =
    if ltb (length bs) 16
    then err visitor
    else take_port h (v6 (from_be 0 (take 16 bs))) (drop 16 bs)

unfoldable pub take_visitor :
    DatagramHeader × List ℕ → Framed (DatagramHeader × SocketAddr × List ℕ)
take_visitor (h, []) = err visitor
take_visitor (h, tag ∷ rest) =
    if tag == 0x04 then take_ipv4 h rest else if tag == 0x06 then take_ipv6 h rest else err visitor

unfoldable pub read_head : Option (DatagramHeader × List ℕ) → Framed (DatagramHeader × List ℕ)
read_head none = err not_decoded
read_head (some r) = ok r

unfoldable pub and_then : {A B : Type 0} → Framed A → (A → Framed B) → Framed B
and_then (err e) k = err e
and_then (ok a) k = k a

module _ (p : Postcard DatagramHeader) where
  unfoldable pub encode : DatagramHeader → List ℕ → Framed (List ℕ)
  encode h payload = with_head (p.put h) payload

  unfoldable pub decode : List ℕ → Framed (DatagramHeader × List ℕ)
  decode packet = read_head (p.take packet)

  unfoldable pub encode_from : DatagramHeader → SocketAddr → List ℕ → Framed (List ℕ)
  encode_from h a payload = with_head (p.put h) (visitor_bytes a ++ payload)

  unfoldable pub decode_from : List ℕ → Framed (DatagramHeader × SocketAddr × List ℕ)
  decode_from packet = and_then (decode packet) take_visitor
