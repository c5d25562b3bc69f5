-- ===== src/Server/Udp/Service/Replies.antt =====
-- What a UDP service of crates/hawse-core/src/server/udp/mod.rs makes of its visitors' datagrams and
-- of its client's packets.
use hawse.Base.{
  ℕ, ◌≡◌, refl, sym, subst, ap, ◌∙◌, List, Bool, true, false, some, ◌==◌, if◌then◌else◌, arith,
  Bool-cases, inl, inr,
}
use hawse.Base.Net.{SocketAddr}
use hawse.Allow.{Nets, permits}
use hawse.Proto.Frame.{Framed, ok, Postcard, Inverts}
use hawse.Proto.Msg.{DatagramHeader}
use hawse.Proto.Packet.{encode, encode_from, decode}
use hawse.Proto.Packet.RoundTrip.{decode-encode}
use hawse.Server.Udp.Table
use hawse.Server.Udp.Table.{SessionTable, Inbound}
use hawse.Server.Udp.Table.Room.{IsValid}
use hawse.Server.Udp.Table.Visitors.{Served, inbound-Served, outbound-replies, map_visitor}
use hawse.Server.Udp.Service.{
  Service, count, admits, forward, forward_seen, receive_admitted, receive, reply_to, deliver_found,
  deliver_decoded, deliver,
}
use hawse.Udp.{
  Route, Sender, dispatch, count_at_cap, count_unknown, count_socket, count_not_allowed,
}

-- The packet for a datagram of `visitor` in the session `seen`, in the layout of the service.
abbrev pub packet_for :
    {Net : Type 0}
    → Postcard DatagramHeader
    → SocketAddr
    → List ℕ
    → Inbound
    → Service Net
    → Framed (List ℕ)
packet_for p visitor payload seen s =
    if s.proxy_protocol
    then encode_from p (record { service_id = s.id; session = seen.session }) visitor payload
    else encode p (record { service_id = s.id; session = seen.session }) payload

-- The sender with the eviction counted, if there was one.
abbrev pub with_eviction : {Net : Type 0} → Inbound → Service Net → Sender
with_eviction seen s =
    if seen.evicted then record s.sender { drops = count_at_cap s.sender.drops } else s.sender

-- What a round of `inbound` makes of a datagram of `visitor`: one from outside the list is counted,
-- and nothing else happens; any other is sent in the session that the table has for the visitor, and
-- an eviction for it is counted.
abbrev pub Received :
    (n : Nets)
    → Postcard DatagramHeader
    → SocketAddr
    → List ℕ
    → ℕ
    → Route
    → Service n.Net
    → Service n.Net
    → Type 0
Received n p visitor payload now t s s' =
    (permits n s.allow visitor.ip ≡ false → s' ≡ count count_not_allowed s)
    × (permits n s.allow visitor.ip ≡ true
        → (seen : Inbound) × Served visitor now s.table seen s'.table
          × (s'.id ≡ s.id)
          × (s'.allow ≡ s.allow)
          × (s'.sender ≡ dispatch t (packet_for p visitor payload seen s) (with_eviction seen s)))

module _ (n : Nets) (p : Postcard DatagramHeader) where
  open n use {Net}

  forward-sends :
      (visitor : SocketAddr) (payload : List ℕ) (t : Route) (seen : Inbound) (s : Service Net)
      → ((forward n p visitor payload t seen s).table ≡ s.table)
        × ((forward n p visitor payload t seen s).id ≡ s.id)
        × ((forward n p visitor payload t seen s).allow ≡ s.allow)
        × ((forward n p visitor payload t seen s).sender
            ≡ dispatch t (packet_for p visitor payload seen s) (with_eviction seen s))
  unfolding forward hawse.Udp.send hawse.Udp.send_from
  forward-sends visitor payload t seen s = (ground arith, ground arith, ground arith, ground arith)

  -- A datagram of any visitor leaves a valid table valid: from outside the list it only counts as
  -- not allowed; from inside it goes toward the client under the visitor's session.
  pub receive-Received :
      (visitor : SocketAddr) (payload : List ℕ) (now : ℕ) (t : Route) (s : Service Net)
      → IsValid s.table
      → (s' : Service Net) × (receive n p visitor payload now t s ≡ some s')
        × Received n p visitor payload now t s s'
        × IsValid s'.table
  unfolding receive admits receive_admitted forward_seen
  receive-Received visitor payload now t s v = elim (Bool-cases (permits n s.allow visitor.ip)) [
    | inl e ↦
        let (seen, table, f, served) = inbound-Served visitor now s.table v in
        let s1 : Service Net = record s { table = table } in
        let (kept, same, open_to, sent) = forward-sends visitor payload t seen s1 in
        (
          forward n p visitor payload t seen s1,
          rw (e, f) refl,
          (
            λ h. absurd (cc),
            λ h. (
              seen,
              subst (λ x. Served visitor now s.table seen x) (sym kept) served,
              same,
              open_to,
              sent,
            ),
          ),
          subst IsValid (sym kept) served.valid,
        )
    | inr e ↦ (count count_not_allowed s, rw e refl, (λ h. refl, λ h. absurd (cc)), v)
  ]

  -- What `deliver` makes of a packet for the session `seen` of `visitor`.
  deliver-Reply :
      (header : DatagramHeader) (payload : List ℕ) (visitor : SocketAddr) (now : ℕ) (arrived : Bool)
      (s : Service Net)
      → IsValid s.table
      → header.service_id ≡ s.id
      → map_visitor (Table.entry_of s.table header.session) ≡ some visitor
      → (deliver_decoded now arrived (ok (header, payload)) s).0
        ≡ some (record { visitor = visitor; payload = payload })
  unfolding deliver_decoded deliver_found reply_to
  deliver-Reply header payload visitor now arrived s v i e =
      let out = outbound-replies header.session now s.table v in
      let same : (header.service_id == s.id) ≡ true = ground arith in
      let to : (Table.outbound header.session now s.table).0 ≡ some visitor = out.1 ∙ e in
      rw (same, to) refl

  -- A datagram of an admitted visitor opens the way back: any packet that the client encodes for the
  -- visitor's session, at any later time, has its payload sent to exactly this visitor.
  pub receive-Replies :
      (visitor : SocketAddr) (payload : List ℕ) (now : ℕ) (t : Route) (s : Service Net)
      → Inverts p
      → IsValid s.table
      → permits n s.allow visitor.ip ≡ true
      → (s' : Service Net) × (seen : Inbound) × (receive n p visitor payload now t s ≡ some s')
        × (s'.sender ≡ dispatch t (packet_for p visitor payload seen s) (with_eviction seen s))
        × ((packet reply : List ℕ) (later : ℕ) (arrived : Bool)
            → encode p (record { service_id = s.id; session = seen.session }) reply ≡ ok packet
            → (deliver n p packet later arrived s').0
              ≡ some (record { visitor = visitor; payload = reply }))
  unfolding deliver
  receive-Replies visitor payload now t s inv v admitted =
      let (s', r, received, valid) = receive-Received visitor payload now t s v in
      let (seen, served, same, open_to, sent) = received.1 admitted in
      (
        s',
        seen,
        r,
        sent,
        λ packet reply later arrived e.
            let back : decode p packet
                ≡ ok (record { service_id = s.id; session = seen.session }, reply) =
              decode-encode p _ reply packet inv e in
            rw back (
              deliver-Reply (record { service_id = s.id; session = seen.session }) reply visitor
                later arrived s' valid (sym same) (ap map_visitor served.routes)),
      )
