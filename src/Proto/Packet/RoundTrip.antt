-- ===== src/Proto/Packet/RoundTrip.antt =====
-- What was encoded decodes again, under either layout.
use hawse.Base.{
  refl, Option, none, ℕ, ◌+◌, ◌^◌, ◌≤◌, ◌<◌, ◌≡◌, ap, ◌∙◌, List, ◌++◌, false, subst, some, length,
  take, drop, ltb, arith, Bool-cases, inl, inr, length-append, take-append, drop-append,
}
use mathlib.Core.List.{append_assoc}
use hawse.Base.Bytes.{to_be, from_be, from_be-to_be, length-to_be, Fits2, Fits4, Fits16}
use hawse.Base.Net.{IpAddr, v4, v6, IsIp, SocketAddr, to_canonical, to_canonical-IsIp}
use hawse.Proto.Frame.{Framed, ok, err, too_large, Postcard, Inverts, sized, max_frame}
use hawse.Proto.Msg.{DatagramHeader}
use hawse.Proto.Packet.{
  header_max, with_head, address, visitor_bytes, take_port, take_ipv4, take_ipv6, take_visitor,
  read_head, and_then, encode, decode, encode_from, decode_from,
}

take_port-to_be :
    (h : DatagramHeader) (ip : IpAddr) (port : ℕ) (payload : List ℕ)
    → port < 2 ^ 16
    → take_port h ip (to_be 2 port ++ payload) ≡ ok (h, record { ip = ip; port = port }, payload)
unfolding take_port to_be
take_port-to_be h ip port payload l =
    let e : from_be 0 (to_be 2 port) ≡ port = from_be-to_be 2 port (Fits2 port l) in
    ap (λ x. ok (h, record { ip = ip; port = x }, payload)) (unfold to_be in e)

take_ipv4-to_be :
    (h : DatagramHeader) (n : ℕ) (rest : List ℕ)
    → n < 2 ^ 32
    → take_ipv4 h (to_be 4 n ++ rest) ≡ take_port h (v4 n) rest
unfolding take_ipv4 to_be
take_ipv4-to_be h n rest l =
    let e : from_be 0 (to_be 4 n) ≡ n = from_be-to_be 4 n (Fits4 n l) in
    ap (λ x. take_port h (v4 x) rest) (unfold to_be in e)

-- The first sixteen bytes, and what is behind them.
take_ipv6-split :
    (h : DatagramHeader) (xs rest : List ℕ)
    → length xs ≡ 16
    → take_ipv6 h (xs ++ rest) ≡ take_port h (v6 (from_be 0 xs)) rest
unfolding take_ipv6
take_ipv6-split h xs rest e =
    let long : ltb (length (xs ++ rest)) 16 ≡ false = ground (arith, length-append xs rest) in
    let first : take 16 (xs ++ rest) ≡ xs =
      subst (λ k. take k (xs ++ rest) ≡ xs) e (take-append xs rest) in
    let behind : drop 16 (xs ++ rest) ≡ rest =
      subst (λ k. drop k (xs ++ rest) ≡ rest) e (drop-append xs rest) in
    rw (long, first, behind)

take_ipv6-to_be :
    (h : DatagramHeader) (n : ℕ) (rest : List ℕ)
    → n < 2 ^ 128
    → take_ipv6 h (to_be 16 n ++ rest) ≡ take_port h (v6 n) rest
take_ipv6-to_be h n rest l =
    take_ipv6-split h (to_be 16 n) rest (length-to_be 16 n)
    ∙ ap (λ x. take_port h (v6 x) rest) (from_be-to_be 16 n (Fits16 n l))

take_visitor-address :
    (h : DatagramHeader) (ip : IpAddr) (rest : List ℕ)
    → IsIp ip
    → take_visitor (h, address ip ++ rest) ≡ take_port h ip rest
unfolding take_visitor address
take_visitor-address h (v4 n) rest l = take_ipv4-to_be h n rest l
take_visitor-address h (v6 n) rest l = take_ipv6-to_be h n rest l

-- An address that was written is read back, whatever follows.
take_visitor-bytes :
    (h : DatagramHeader) (a : SocketAddr) (payload : List ℕ)
    → IsIp a.ip
    → a.port < 2 ^ 16
    → take_visitor (h, visitor_bytes a ++ payload)
      ≡ ok (h, record { ip = to_canonical a.ip; port = a.port }, payload)
unfolding visitor_bytes
take_visitor-bytes h a payload i l =
    ap (λ x. take_visitor (h, x))
      (append_assoc (address (to_canonical a.ip)) (to_be 2 a.port) payload)
    ∙ take_visitor-address h (to_canonical a.ip) (to_be 2 a.port ++ payload)
        (to_canonical-IsIp a.ip i)
    ∙ take_port-to_be h (to_canonical a.ip) a.port payload l

-- A packet of the header `head` and `rest`: it fits a frame and `Reads` holds of its bytes, or it is
-- refused for being longer than a frame.
abbrev pub Carried : (List ℕ → Type 0) → ℕ → Framed (List ℕ) → Type 0
Carried Reads len (ok bs) = (length bs ≡ len) × (len ≤ max_frame) × Reads bs
Carried Reads len (err (too_large n)) = (n ≡ len) × (max_frame < len)
Carried Reads len (err _) = ⊥

-- What `encode_from` writes is read as its parts by `decode_from`, with the visitor's address
-- canonical, and `decode` finds the same header.
abbrev pub ReadsFrom :
    Postcard DatagramHeader → DatagramHeader → SocketAddr → List ℕ → List ℕ → Type 0
ReadsFrom p h a payload bs =
    (decode_from p bs ≡ ok (h, record { ip = to_canonical a.ip; port = a.port }, payload))
    × (decode p bs ≡ ok (h, visitor_bytes a ++ payload))

with_head-Carried :
    (Reads : List ℕ → Type 0) (head rest : List ℕ)
    → length head ≤ header_max
    → Reads (head ++ rest)
    → Carried Reads (length head + length rest) (with_head (some head) rest)
unfolding with_head sized
with_head-Carried Reads head rest l r =
    let fits : ltb header_max (length head) ≡ false = ground arith in
    let e : length (head ++ rest) ≡ length head + length rest = length-append head rest in
    rw fits elim (Bool-cases (ltb max_frame (length (head ++ rest)))) [
      | inl t ↦ rw t (e, ground arith)
      | inr f ↦ rw f (e, ground arith, r)
    ]

-- Where the encoding of headers inverts and gives `h` at most eight bytes: `encode` gives the header
-- and the payload back through `decode`, `encode_from` gives also the visitor back through
-- `decode_from`, and each refuses exactly what is longer than a frame.
pub packets-Carried :
    (p : Postcard DatagramHeader) (h : DatagramHeader) (head : List ℕ) (a : SocketAddr)
    (payload : List ℕ)
    → Inverts p
    → p.put h ≡ some head
    → length head ≤ header_max
    → IsIp a.ip
    → a.port < 2 ^ 16
    → Carried
        (λ bs. decode p bs ≡ ok (h, payload))
        (length head + length payload)
        (encode p h payload)
      × Carried
          (ReadsFrom p h a payload)
          (length head + length (visitor_bytes a ++ payload))
          (encode_from p h a payload)
unfolding encode encode_from decode decode_from read_head and_then
packets-Carried p h head a payload inv e l i q = rw e (
  with_head-Carried _ head payload l (rw (inv h head payload e)),
  with_head-Carried _ head (visitor_bytes a ++ payload) l (
      let back : p.take (head ++ (visitor_bytes a ++ payload))
          ≡ some (h, visitor_bytes a ++ payload) =
        inv h head (visitor_bytes a ++ payload) e in
      (rw back (take_visitor-bytes h a payload i q), rw back)),
)

-- A packet that was made is its header's encoding and the rest.
with_head-ok :
    (o : Option (List ℕ)) (rest bs : List ℕ)
    → with_head o rest ≡ ok bs
    → (head : List ℕ) × (o ≡ some head) × (bs ≡ head ++ rest)
unfolding with_head sized
with_head-ok none rest bs e = absurd (ground arith)
with_head-ok (some head) rest bs e = (head, refl, ground arith)

-- What `encode` made is decoded to its parts.
pub decode-encode :
    (p : Postcard DatagramHeader) (h : DatagramHeader) (payload bs : List ℕ)
    → Inverts p
    → encode p h payload ≡ ok bs
    → decode p bs ≡ ok (h, payload)
unfolding encode decode read_head
decode-encode p h payload bs inv e =
    let (head, put, is) = with_head-ok (p.put h) payload bs e in
    rw (is, inv h head payload put) refl

-- What `encode_from` made is decoded to its parts, the visitor's address canonical.
pub decode_from-encode_from :
    (p : Postcard DatagramHeader) (h : DatagramHeader) (a : SocketAddr) (payload bs : List ℕ)
    → Inverts p
    → IsIp a.ip
    → a.port < 2 ^ 16
    → encode_from p h a payload ≡ ok bs
    → ReadsFrom p h a payload bs
unfolding encode_from decode decode_from read_head and_then
decode_from-encode_from p h a payload bs inv i q e =
    let (head, put, is) = with_head-ok (p.put h) (visitor_bytes a ++ payload) bs e in
    let back = inv h head (visitor_bytes a ++ payload) put in
    rw (is, back) (take_visitor-bytes h a payload i q, refl)
