-- ===== src/Tunnel.antt =====
-- crates/hawse-core/src/server/udp/mod.rs and crates/hawse-core/src/client/udp.rs together: a visitor's
-- datagram on its way to the local service, and the reply on its way back.
use hawse.Base.{
  ℕ, ◌^◌, ◌<◌, ◌≡◌, refl, sym, ap, ◌∙◌, subst, List, ◌++◌, Bool, true, false, Option, none, some,
  ◌==◌, if◌then◌else◌, ℕ_discrete, arith, ite_same,
}
use hawse.Base.Dict.{get-insert}
use hawse.Base.Net.{SocketAddr, IsIp, to_canonical, to_canonical-IsIp}
use hawse.Allow.{Nets, permits}
use hawse.Proto.Frame.{Framed, err, ok, Postcard, Inverts}
use hawse.Proto.Msg.{DatagramHeader}
use hawse.Proto.Packet.{encode, encode_from}
use hawse.Proto.Packet.RoundTrip.{decode-encode, decode_from-encode_from}
use hawse.Proto.Proxy.{v2_udp}
use hawse.Proto.Proxy.Reading.{Says, v2-Says, to_canonical-to_canonical}
use hawse.Server.Udp.Table.{Inbound}
use hawse.Server.Udp.Table.Room.{IsValid}
use hawse.Server.Udp.Service
use hawse.Server.Udp.Service.{Service, Reply, receive}
use hawse.Server.Udp.Service.Replies.{packet_for, with_eviction, receive-Replies}
use hawse.Udp.{Route, dispatch}
use hawse.Client.Udp.{
  LocalSession, UdpLocal, Decoded, Delivery, over, gave, waits, held, touch_held, touch_own,
  datagram, give, deliver_decoded, deliver, connected, decode_for, plain, from_visitor, enter,
  reply,
}
use hawse.Client.Udp.Entering.{IsTable, enter-Entered}

-- What the local service can tell from a datagram: the payload as it is, or behind a PROXY header the
-- visitor and the address that the visitor reached.
abbrev pub Readable : Option SocketAddr → SocketAddr → List ℕ → List ℕ → Type 0
Readable none visitor payload bytes = bytes ≡ payload
Readable (some listener) visitor payload bytes = Says 2 visitor listener payload bytes

abbrev pub is_some : Option SocketAddr → Bool
is_some none = false
is_some (some a) = true

abbrev pub IsAddr : SocketAddr → Type 0
IsAddr a = IsIp a.ip × (a.port < 2 ^ 16)

abbrev pub AddrOf : Option SocketAddr → Type 0
AddrOf none = Unit
AddrOf (some a) = IsAddr a

Says-canonical :
    (visitor listener : SocketAddr) (payload bytes : List ℕ)
    → Says 2 (record { ip = to_canonical visitor.ip; port = visitor.port }) listener payload bytes
    → Says 2 visitor listener payload bytes
Says-canonical visitor listener payload bytes (e, r, t, source, destination) =
    (e, r, t, (source.0 ∙ to_canonical-to_canonical visitor.ip, source.1), destination)

-- What the client decodes of the server's packet.
abbrev Decodes : Option SocketAddr → DatagramHeader → SocketAddr → List ℕ → Option Decoded → Type 0
Decodes proxy h visitor payload o =
    (d : Decoded) × (o ≡ some d) × (d.header ≡ h) × Readable proxy visitor payload (datagram d)

module _ (p : Postcard DatagramHeader) (inv : Inverts p) where
  decode_for-Decodes :
      (proxy : Option SocketAddr) (h : DatagramHeader) (visitor : SocketAddr)
      (payload bytes : List ℕ)
      → IsAddr visitor
      → AddrOf proxy
      → (if is_some proxy then encode_from p h visitor payload else encode p h payload) ≡ ok bytes
      → Decodes proxy h visitor payload (decode_for p proxy bytes)
  unfolding decode_for plain from_visitor datagram
  decode_for-Decodes none h visitor payload bytes v _ e = (
    record { header = h; proxied = none; payload = payload },
    rw (decode-encode p h payload bytes inv e) refl,
    refl,
    refl,
  )
  decode_for-Decodes (some listener) h visitor payload bytes v a e =
      let to : SocketAddr = record { ip = to_canonical visitor.ip; port = visitor.port } in
      (
        record { header = h; proxied = some (to, listener); payload = payload },
        rw ((decode_from-encode_from p h visitor payload bytes inv v.0 v.1 e).0) refl,
        refl,
        Says-canonical visitor listener payload (v2_udp to listener ++ payload) (
            let says =
              v2-Says 2 to listener payload (omega arith) (to_canonical-IsIp visitor.ip v.0) a.0 v.1
                a.1 in
            subst (λ h. Says 2 to listener payload (h ++ payload)) (sym says.2) says.0),
      )

-- A step of `deliver` gave the datagram to a session's socket, and that session is the one that the
-- table has under the id, now used.
abbrev Gave : Option SocketAddr → ℕ → ℕ → SocketAddr → List ℕ → Delivery × UdpLocal → Type 0
Gave proxy session now visitor payload (gave handle bytes, l) =
    (held session l ≡ some (record { handle = handle; used = now }))
    × Readable proxy visitor payload bytes
Gave proxy session now visitor payload (_, l) = ⊥

module _ (proxy : Option SocketAddr) (visitor : SocketAddr) (payload : List ℕ) (d : Decoded)
    (r : Readable proxy visitor payload (datagram d)) where
  give-Gave :
      (now : ℕ) (arrived : Bool) (s : LocalSession) (l : UdpLocal)
      → Gave proxy d.header.session now visitor payload (give now arrived d (some s) l)
  unfolding give touch_held
  give-Gave now true s l = (
    get-insert ℕ_discrete d.header.session d.header.session (record s { used = now }) l.sessions
        ∙ ite_same ℕ_discrete d.header.session _ _,
    r,
  )
  give-Gave now false s l = (
    get-insert ℕ_discrete d.header.session d.header.session (record s { used = now }) l.sessions
        ∙ ite_same ℕ_discrete d.header.session _ _,
    r,
  )

  -- Once there is a socket, whatever other tasks made of the table.
  connected-Gave :
      (now : ℕ) (arrived : Bool) (l : UdpLocal)
      → IsTable l
      → Gave proxy d.header.session now visitor payload (connected d true now arrived l)
  unfolding connected
  connected-Gave now arrived l g =
      let x = enter-Entered d.header.session now l g in
      let (s, there) = x.present in
      rw there (give-Gave now arrived s (enter d.header.session now l))

-- `deliver` either gave the datagram to the session's socket, or waits for one: once that is open, it
-- gives the datagram to it, whatever other tasks made of the table meanwhile.
abbrev pub Arrives : Option SocketAddr → ℕ → ℕ → SocketAddr → List ℕ → Delivery × UdpLocal → Type 0
Arrives proxy session now visitor payload (over, l) = ⊥
Arrives proxy session now visitor payload (gave handle bytes, l) =
    (held session l ≡ some (record { handle = handle; used = now }))
    × Readable proxy visitor payload bytes
Arrives proxy session now visitor payload (waits d, l) =
    (later : ℕ) (arrived : Bool) (l' : UdpLocal)
    → IsTable l'
    → Gave proxy session later visitor payload (connected d true later arrived l')

give-Arrives :
    (proxy : Option SocketAddr) (visitor : SocketAddr) (payload : List ℕ) (d : Decoded)
    → Readable proxy visitor payload (datagram d)
    → (now : ℕ) (arrived : Bool) (o : Option LocalSession) (l : UdpLocal)
    → Arrives proxy d.header.session now visitor payload (give now arrived d o l)
unfolding give
give-Arrives proxy visitor payload d r now arrived none l =
    λ later came l' g. connected-Gave proxy visitor payload d r later came l' g
give-Arrives proxy visitor payload d r now arrived (some s) l =
    unfold give in give-Gave proxy visitor payload d r now arrived s l

module _ (p : Postcard DatagramHeader) (inv : Inverts p) where
  deliver-Arrives :
      (h : DatagramHeader) (visitor : SocketAddr) (payload bytes : List ℕ) (now : ℕ)
      (arrived : Bool) (l : UdpLocal)
      → IsAddr visitor
      → AddrOf l.proxy
      → h.service_id ≡ l.id
      → (if is_some l.proxy then encode_from p h visitor payload else encode p h payload) ≡ ok bytes
      → Arrives l.proxy h.session now visitor payload (deliver p bytes now arrived l)
  unfolding deliver deliver_decoded
  deliver-Arrives h visitor payload bytes now arrived l v a own e =
      let (d, decoded, same, r) = decode_for-Decodes p inv l.proxy h visitor payload bytes v a e in
      let mine : (d.header.service_id == l.id) ≡ true = ground (arith, same, own) in
      rw (decoded, mine, sym same)
        (give-Arrives l.proxy visitor payload d r now arrived (held d.header.session l) l)

  touch_own-keeps :
      (id handle now : ℕ) (o : Option LocalSession) (l : UdpLocal)
      → ((touch_own id handle now o l).id ≡ l.id)
        × ((touch_own id handle now o l).sender ≡ l.sender)
  unfolding touch_own touch_held
  touch_own-keeps id handle now none l = (refl, refl)
  touch_own-keeps id handle now (some s) l = (ground arith, ground arith)

  -- What a reader sends of a reply is the packet of its session.
  reply-sends :
      (id handle : ℕ) (payload : List ℕ) (now : ℕ) (t : Route) (l : UdpLocal)
      → (reply p id handle payload now t l).sender
        ≡ dispatch t (encode p (record { service_id = l.id; session = id }) payload) l.sender
  unfolding reply hawse.Udp.send
  reply-sends id handle payload now t l =
      let (same, sender) = touch_own-keeps id handle now (held id l) l in rw (same, sender) refl

-- `P` of a packet, where there is one: a payload that is too long for a frame has none.
abbrev pub OnPacket : Framed (List ℕ) → (List ℕ → Type 0) → Type 0
OnPacket (ok bytes) P = P bytes
OnPacket (err e) P = Unit

OnPacket-intro :
    (f : Framed (List ℕ)) (P : List ℕ → Type 0)
    → ((bytes : List ℕ) → f ≡ ok bytes → P bytes)
    → OnPacket f P
OnPacket-intro (ok bytes) P h = h bytes refl
OnPacket-intro (err e) P h = tt

-- The header of what belongs to the session `seen` of a service.
abbrev pub header_of : {Net : Type 0} → Service Net → Inbound → DatagramHeader
header_of s seen = record { service_id = s.id; session = seen.session }

-- What becomes of a datagram of `visitor` and of the answer to it. The server takes it in and sends its
-- packet toward the client; that packet arrives at the session's socket; the answer of the socket is
-- sent under the same session; and its packet has the server send the answer to the visitor.
abbrev pub Travels :
    (n : Nets)
    → Postcard DatagramHeader
    → SocketAddr
    → List ℕ
    → List ℕ
    → ℕ
    → ℕ
    → ℕ
    → Bool
    → Bool
    → Route
    → Route
    → ℕ
    → Service n.Net
    → UdpLocal
    → Type 0
Travels n p visitor payload answer now later back arrived sent t t' handle s l =
    (s' : Service n.Net) × (seen : Inbound) × (receive n p visitor payload now t s ≡ some s')
    × (s'.sender ≡ dispatch t (packet_for p visitor payload seen s) (with_eviction seen s))
    × OnPacket (packet_for p visitor payload seen s) (λ bytes.
      Arrives l.proxy seen.session later visitor payload (deliver p bytes later arrived l))
    × ((reply p seen.session handle answer later t' l).sender
        ≡ dispatch t' (encode p (header_of s seen) answer) l.sender)
    × OnPacket (encode p (header_of s seen) answer) (λ bytes.
      (Service.deliver n p bytes back sent s').0
      ≡ some (record { visitor = visitor; payload = answer }))

-- The whole way of a datagram and its reply, where the encoding of headers inverts and the two ends
-- agree on the service. A datagram of an admitted visitor goes to the client under a session of the
-- visitor's. The packet that the server makes of it, by whichever path and whenever it comes, ends at
-- the socket that the client has or opens for that session: the payload as it is, or behind a PROXY
-- header from which the visitor and the listener are read. What that socket answers is sent under the
-- same session, and the packet made of it has the server send the answer to the same visitor.
pub datagram-Travels :
    (n : Nets) (p : Postcard DatagramHeader) (visitor : SocketAddr) (payload answer : List ℕ)
    (now later back : ℕ) (arrived sent : Bool) (t t' : Route) (handle : ℕ) (s : Service n.Net)
    (l : UdpLocal)
    → Inverts p
    → IsValid s.table
    → permits n s.allow visitor.ip ≡ true
    → IsAddr visitor
    → s.id ≡ l.id
    → s.proxy_protocol ≡ is_some l.proxy
    → AddrOf l.proxy
    → Travels n p visitor payload answer now later back arrived sent t t' handle s l
datagram-Travels n p visitor payload answer now later back arrived sent t t' handle s l inv v
      admitted a own proxies to =
    let (s', seen, r, dispatched, returns) =
      receive-Replies n p visitor payload now t s inv v admitted in
    (
      s',
      seen,
      r,
      dispatched,
      OnPacket-intro _ _ (λ bytes e.
          deliver-Arrives p inv (header_of s seen) visitor payload bytes later arrived l a to own (
            ap
              (λ b.
                if b
                then encode_from p (header_of s seen) visitor payload
                else encode p (header_of s seen) payload)
              (sym proxies)
            ∙ e)),
      reply-sends p inv seen.session handle answer later t' l
          ∙ ap
              (λ i.
                dispatch t' (encode p (record { service_id = i; session = seen.session }) answer)
                  l.sender)
              (sym own),
      OnPacket-intro _ _ (λ bytes e. returns bytes answer back sent e),
    )
