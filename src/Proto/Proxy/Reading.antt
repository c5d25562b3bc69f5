-- ===== src/Proto/Proxy/Reading.antt =====
-- A reader of the PROXY protocol's header, written from the protocol's layout, and what it makes of
-- the headers that crates/hawse-proto/src/proxy.rs writes.
use hawse.Base.{
  ℕ, ◌+◌, ◌*◌, ◌/◌, ◌%◌, ◌^◌, ◌<◌, ◌≡◌, refl, sym, ap, ◌∙◌, subst, List, [], ◌∷◌, ◌++◌, true, false,
  Option, none, some, length, take, drop, ltb, ◌==◌, if◌then◌else◌, arith, length-append,
  take-append, drop-append, ◌&&◌,
}
use mathlib.Core.List.{append_assoc}
use hawse.Base.Bytes.{to_be, from_be, from_be-to_be, length-to_be, Fits, Fits2, Fits4, Fits16}
use hawse.Base.Net.{IpAddr, v4, v6, IsIp, SocketAddr, to_canonical, to_canonical-IsIp}
use hawse.Proto.Proxy.{signature, version_2_proxy, ipv6, pair, v2, v2_tcp, v2_udp}

-- A number of `k` bytes, the highest first, and `next` of it and of what is behind it.
unfoldable pub then_be : {A : Type 0} → ℕ → List ℕ → (ℕ → List ℕ → Option A) → Option A
then_be k bs next = if ltb (length bs) k then none else next (from_be 0 (take k bs)) (drop k bs)

-- A header that was read: the transport (1 is a stream, 2 is datagrams) and the two ends.
pub record Ends : Type 0 where
  pub transport : ℕ
  pub source : SocketAddr
  pub destination : SocketAddr

-- Two addresses of `w` bytes and two ports.
unfoldable pub read_pair : ℕ → (ℕ → IpAddr) → ℕ → List ℕ → Option (Ends × List ℕ)
read_pair transport form w bs = then_be w bs (λ from bs. then_be w bs (λ to bs.
    then_be 2 bs (λ src_port bs. then_be 2 bs (λ dst_port rest. some (
      record {
        transport = transport;
        source = record { ip = form from; port = src_port };
        destination = record { ip = form to; port = dst_port };
      },
      rest,
    )))))

-- The family in the byte's high half with the length that goes with it, the transport in its low
-- half.
unfoldable pub read_addresses : ℕ → ℕ → List ℕ → Option (Ends × List ℕ)
read_addresses family len bs =
    if family / 16 == 1 && len == 12
    then read_pair (family % 16) v4 4 bs
    else if family / 16 == 2 && len == 36
    then read_pair (family % 16) v6 16 bs
    else none

unfoldable pub read_family : List ℕ → Option (Ends × List ℕ)
read_family [] = none
read_family (family ∷ bs) = then_be 2 bs (λ len bs. read_addresses family len bs)

-- The signature, and version 2 with the command PROXY, as one number of thirteen bytes.
unfoldable pub read_v2 : List ℕ → Option (Ends × List ℕ)
read_v2 bs =
    then_be 13 bs
      (λ magic bs. if magic == 0x0d0a0d0a000d0a515549540a21 then read_family bs else none)

then_be-append :
    {A : Type 0} (k : ℕ) (xs rest : List ℕ) (next : ℕ → List ℕ → Option A)
    → length xs ≡ k
    → then_be k (xs ++ rest) next ≡ next (from_be 0 xs) rest
unfolding then_be
then_be-append k xs rest next len =
    let long : ltb (length (xs ++ rest)) k ≡ false = ground (arith, length-append xs rest) in
    let first : take k (xs ++ rest) ≡ xs =
      subst (λ j. take j (xs ++ rest) ≡ xs) len (take-append xs rest) in
    let behind : drop k (xs ++ rest) ≡ rest =
      subst (λ j. drop j (xs ++ rest) ≡ rest) len (drop-append xs rest) in
    rw (long, first, behind)

then_be-to_be :
    {A : Type 0} (k n : ℕ) (rest : List ℕ) (next : ℕ → List ℕ → Option A)
    → Fits k n
    → then_be k (to_be k n ++ rest) next ≡ next n rest
then_be-to_be k n rest next f =
    then_be-append k (to_be k n) rest next (length-to_be k n)
    ∙ ap (λ x. next x rest) (from_be-to_be k n f)

-- The ends of a header in one family.
abbrev ends : ℕ → (ℕ → IpAddr) → ℕ → ℕ → ℕ → ℕ → Ends
ends transport form from to src_port dst_port = record {
  transport = transport;
  source = record { ip = form from; port = src_port };
  destination = record { ip = form to; port = dst_port };
}

read_pair-to_be :
    (transport : ℕ) (form : ℕ → IpAddr) (w from to src_port dst_port : ℕ) (rest : List ℕ)
    → Fits w from
    → Fits w to
    → src_port < 2 ^ 16
    → dst_port < 2 ^ 16
    → read_pair transport form w
        (to_be w from ++ (to_be w to ++ (to_be 2 src_port ++ (to_be 2 dst_port ++ rest))))
      ≡ some (ends transport form from to src_port dst_port, rest)
unfolding read_pair
read_pair-to_be transport form w from to src_port dst_port rest f t s d =
    then_be-to_be w from _ _ f
    ∙ then_be-to_be w to _ _ t
    ∙ then_be-to_be 2 src_port _ _ (Fits2 src_port s)
    ∙ then_be-to_be 2 dst_port _ _ (Fits2 dst_port d)

regroup : (xs ys zs ws : List ℕ) → (xs ++ (ys ++ zs)) ++ ws ≡ xs ++ (ys ++ (zs ++ ws))
regroup xs ys zs ws = append_assoc xs (ys ++ zs) ws ∙ ap (λ r. xs ++ r) (append_assoc ys zs ws)

-- Two ends that stand for the same address: what is under a mapping, and the port.
abbrev pub Same : SocketAddr → SocketAddr → Type 0
Same a b = (to_canonical a.ip ≡ to_canonical b.ip) × (a.port ≡ b.port)

-- The header that `bs` starts with is for `transport`, `src` and `dst`, and `payload` is behind it.
abbrev pub Says : ℕ → SocketAddr → SocketAddr → List ℕ → List ℕ → Type 0
Says transport src dst payload bs =
    (e : Ends) × (read_v2 bs ≡ some (e, payload))
    × (e.transport ≡ transport)
    × Same e.source src
    × Same e.destination dst

abbrev ends_bytes : ℕ → ℕ → ℕ → IpAddr → IpAddr → List ℕ → List ℕ
ends_bytes transport src_port dst_port from to payload =
    pair (16 + transport) (32 + transport) from to
    ++ (to_be 2 src_port ++ (to_be 2 dst_port ++ payload))

read_family-v4 :
    (transport from to src_port dst_port : ℕ) (payload : List ℕ)
    → transport < 16
    → from < 2 ^ 32
    → to < 2 ^ 32
    → src_port < 2 ^ 16
    → dst_port < 2 ^ 16
    → read_family (ends_bytes transport src_port dst_port (v4 from) (v4 to) payload)
      ≡ some (ends transport v4 from to src_port dst_port, payload)
unfolding read_family read_addresses pair
read_family-v4 transport from to src_port dst_port payload l f t s d =
    let tail : List ℕ = to_be 2 src_port ++ (to_be 2 dst_port ++ payload) in
    let low : (16 + transport) % 16 ≡ transport = omega arith in
    let high : ((16 + transport) / 16 == 1) ≡ true = ground arith in
    rw (regroup (to_be 2 12) (to_be 4 from) (to_be 4 to) tail) (
      then_be-to_be 2 12 _ _ (Fits2 12 (omega arith))
      ∙ rw (high, low)
          (read_pair-to_be transport v4 4 from to src_port dst_port payload (Fits4 from f)
            (Fits4 to t) s d))

-- Any pair of which one is an IPv6 address.
read_family-v6 :
    (transport src_port dst_port : ℕ) (from to : IpAddr) (payload : List ℕ)
    → transport < 16
    → pair (16 + transport) (32 + transport) from to
      ≡ (32 + transport) ∷ (to_be 2 36 ++ (to_be 16 (ipv6 from) ++ to_be 16 (ipv6 to)))
    → ipv6 from < 2 ^ 128
    → ipv6 to < 2 ^ 128
    → src_port < 2 ^ 16
    → dst_port < 2 ^ 16
    → read_family (ends_bytes transport src_port dst_port from to payload)
      ≡ some (ends transport v6 (ipv6 from) (ipv6 to) src_port dst_port, payload)
unfolding read_family read_addresses
read_family-v6 transport src_port dst_port from to payload l e f t s d =
    let tail : List ℕ = to_be 2 src_port ++ (to_be 2 dst_port ++ payload) in
    let low : (32 + transport) % 16 ≡ transport = omega arith in
    let high : ((32 + transport) / 16 == 2) ≡ true = ground arith in
    let other : ((32 + transport) / 16 == 1) ≡ false = ground arith in
    rw (e, regroup (to_be 2 36) (to_be 16 (ipv6 from)) (to_be 16 (ipv6 to)) tail)
      (then_be-to_be 2 36 _ _ (Fits2 36 (omega arith))
        ∙ rw (other, high, low)
            (read_pair-to_be transport v6 16 (ipv6 from) (ipv6 to) src_port dst_port payload
              (Fits16 (ipv6 from) f) (Fits16 (ipv6 to) t) s d))

pub to_canonical-to_canonical : (ip : IpAddr) → to_canonical (to_canonical ip) ≡ to_canonical ip
unfolding to_canonical
to_canonical-to_canonical (v4 n) = refl
to_canonical-to_canonical (v6 n) = ground arith

-- A canonical address in the IPv6 form is the same address, and fits.
to_canonical-ipv6 :
    (ip : IpAddr)
    → IsIp ip
    → to_canonical ip ≡ ip
    → (to_canonical (v6 (ipv6 ip)) ≡ ip) × (ipv6 ip < 2 ^ 128)
unfolding to_canonical ipv6
to_canonical-ipv6 (v4 n) l c =
    let high : ((0xffff * 2 ^ 32 + n) / 2 ^ 32 == 0xffff) ≡ true = ground arith in
    let low : (0xffff * 2 ^ 32 + n) % 2 ^ 32 ≡ n = omega arith in (rw (high, low), omega arith)
to_canonical-ipv6 (v6 n) l c = (c, l)

-- What is read of a pair of canonical addresses is the pair.
pair-Read :
    (transport : ℕ) (from to : IpAddr) (src_port dst_port : ℕ) (payload : List ℕ)
    → transport < 16
    → IsIp from
    → IsIp to
    → to_canonical from ≡ from
    → to_canonical to ≡ to
    → src_port < 2 ^ 16
    → dst_port < 2 ^ 16
    → (e : Ends) × (read_family (ends_bytes transport src_port dst_port from to payload)
        ≡ some (e, payload))
      × (e.transport ≡ transport)
      × Same e.source (record { ip = from; port = src_port })
      × Same e.destination (record { ip = to; port = dst_port })
unfolding pair
pair-Read transport (v4 a) (v4 b) src_port dst_port payload l f t cf ct s d = (
  ends transport v4 a b src_port dst_port,
  read_family-v4 transport a b src_port dst_port payload l f t s d,
  refl,
  (refl, refl),
  (refl, refl),
)
pair-Read transport from to src_port dst_port payload l f t cf ct s d =
    let (source, fits) = to_canonical-ipv6 from f cf in
    let (destination, fits_too) = to_canonical-ipv6 to t ct in
    (
      ends transport v6 (ipv6 from) (ipv6 to) src_port dst_port,
      read_family-v6 transport src_port dst_port from to payload l refl fits fits_too s d,
      refl,
      (source ∙ sym cf, refl),
      (destination ∙ sym ct, refl),
    )

read_v2-signature :
    (rest : List ℕ) → read_v2 (signature ++ version_2_proxy ∷ rest) ≡ read_family rest
unfolding read_v2 from_be
read_v2-signature rest = then_be-append 13 (signature ++ version_2_proxy ∷ []) rest _ refl

-- The header that `v2` writes, with the bytes of one transport over either family, is read with its
-- transport, its two ends and all that follows it; `v2_tcp` is the one for a stream, `v2_udp` the one
-- for datagrams.
pub v2-Says :
    (transport : ℕ) (src dst : SocketAddr) (payload : List ℕ)
    → transport < 16
    → IsIp src.ip
    → IsIp dst.ip
    → src.port < 2 ^ 16
    → dst.port < 2 ^ 16
    → Says transport src dst payload (v2 src dst (16 + transport) (32 + transport) ++ payload)
      × (v2_tcp src dst ≡ v2 src dst (16 + 1) (32 + 1))
      × (v2_udp src dst ≡ v2 src dst (16 + 2) (32 + 2))
unfolding v2 v2_tcp v2_udp
v2-Says transport src dst payload l i j s d =
    let from : IpAddr = to_canonical src.ip in
    let to : IpAddr = to_canonical dst.ip in
    let (e, r, t, a, b) =
      pair-Read transport from to src.port dst.port payload l (to_canonical-IsIp src.ip i)
        (to_canonical-IsIp dst.ip j) (to_canonical-to_canonical src.ip)
        (to_canonical-to_canonical dst.ip) s d in
    (
      (
        e,
        read_v2-signature _
            ∙ ap read_family (
                regroup (pair (16 + transport) (32 + transport) from to) (to_be 2 src.port)
                  (to_be 2 dst.port) payload)
            ∙ r,
        t,
        (a.0 ∙ to_canonical-to_canonical src.ip, a.1),
        (b.0 ∙ to_canonical-to_canonical dst.ip, b.1),
      ),
      refl,
      refl,
    )
