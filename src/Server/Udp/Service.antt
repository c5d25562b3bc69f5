-- ===== src/Server/Udp/Service.antt =====
-- crates/hawse-core/src/server/udp/mod.rs: a UDP service of the server, between its visitors and its
-- client. The networks and the encoding of headers come in as records of operations.
pub mod Replies
pub mod Runs
use hawse.Base.{
  ℕ, List, [], ◌∷◌, Bool, true, false, Option, none, some, ◌==◌, if◌then◌else◌, ℕ_discrete,
}
use hawse.Base.Dict.{Dict, get, insert}
use hawse.Base.Net.{SocketAddr}
use hawse.Allow.{Nets, permits}
use hawse.Proto.Frame.{Framed, ok, err, Postcard}
use hawse.Proto.Msg.{DatagramHeader}
use hawse.Proto.Packet.{decode}
use hawse.Server.Udp.Table
use hawse.Server.Udp.Table.{SessionTable, Inbound}
use hawse.Udp
use hawse.Udp.{Route, Sender, Drops, count_at_cap, count_unknown, count_socket, count_not_allowed}

-- `IDLE`, 60 seconds.
abbrev pub idle : ℕ
idle = 60000000000

-- `UdpService` and the `Sender` of its `serve`. The counts of the two are one shared object, which is
-- kept in the sender.
pub record Service (Net : Type 0) : Type 0 where
  pub id : ℕ
  pub table : SessionTable
  pub allow : List Net
  pub proxy_protocol : Bool
  pub sender : Sender

-- `UdpService::new` and `Sender::new`; `sessions` is `shared.udp_sessions`.
unfoldable pub new : {Net : Type 0} → ℕ → ℕ → List Net → Bool → Service Net
new id sessions allow proxy_protocol = record {
  id = id;
  table = Table.new sessions idle;
  allow = allow;
  proxy_protocol = proxy_protocol;
  sender = Udp.new;
}

abbrev pub count : {Net : Type 0} → (Drops → Drops) → Service Net → Service Net
count f s = record s { sender = record s.sender { drops = f s.sender.drops } }

-- `sweep.tick()`.
unfoldable pub tick : {Net : Type 0} → ℕ → Service Net → Service Net
tick now s = record s { table = (Table.sweep now s.table).1 }

-- What `send_to` is given.
pub record Reply : Type 0 where
  pub visitor : SocketAddr
  pub payload : List ℕ

-- `send_to` of a reply: `arrived` is whether it succeeds.
unfoldable pub reply_to :
    {Net : Type 0} → Bool → List ℕ → Option SocketAddr → Service Net → Option Reply × Service Net
reply_to arrived payload none s = (none, count count_unknown s)
reply_to arrived payload (some v) s =
    (some (record { visitor = v; payload = payload }), if arrived then s else count count_socket s)

unfoldable pub deliver_found :
    {Net : Type 0}
    → Bool
    → List ℕ
    → Option SocketAddr × SessionTable
    → Service Net
    → Option Reply × Service Net
deliver_found arrived payload (visitor, table) s =
    reply_to arrived payload visitor (record s { table = table })

unfoldable pub deliver_decoded :
    {Net : Type 0}
    → ℕ
    → Bool
    → Framed (DatagramHeader × List ℕ)
    → Service Net
    → Option Reply × Service Net
deliver_decoded now arrived (err e) s = (none, count count_unknown s)
deliver_decoded now arrived (ok (header, payload)) s =
    if header.service_id == s.id
    then deliver_found arrived payload (Table.outbound header.session now s.table) s
    else (none, count count_unknown s)

module _ (n : Nets) (p : Postcard DatagramHeader) where
  open n use {Net}

  unfoldable pub admits : SocketAddr → Service Net → Bool × Service Net
  admits visitor s =
      let admitted = permits n s.allow visitor.ip in
      (admitted, if admitted then s else count count_not_allowed s)

  -- The header of what a visitor sends, and the packet behind it.
  unfoldable pub forward : SocketAddr → List ℕ → Route → Inbound → Service Net → Service Net
  forward visitor payload t seen s =
      let header : DatagramHeader = record { service_id = s.id; session = seen.session } in
      let s' : Service Net = if seen.evicted then count count_at_cap s else s in
      record s' {
        sender =
            if s.proxy_protocol
            then Udp.send_from p t header visitor payload s'.sender
            else Udp.send p t header payload s'.sender;
      }

  unfoldable pub forward_seen :
      SocketAddr
      → List ℕ
      → Route
      → Option (Inbound × SessionTable)
      → Service Net
      → Option (Service Net)
  forward_seen visitor payload t none s = none
  forward_seen visitor payload t (some (seen, table)) s =
      some (forward visitor payload t seen (record s { table = table }))

  unfoldable pub receive_admitted :
      SocketAddr → List ℕ → ℕ → Route → Bool × Service Net → Option (Service Net)
  receive_admitted visitor payload now t (false, s) = some s
  receive_admitted visitor payload now t (true, s) =
      forward_seen visitor payload t (Table.inbound visitor now s.table) s

  -- A round of `inbound` that receives `payload` from `visitor`; `none` is a loop out of fuel.
  unfoldable pub receive : SocketAddr → List ℕ → ℕ → Route → Service Net → Option (Service Net)
  receive visitor payload now t s = receive_admitted visitor payload now t (admits visitor s)

  unfoldable pub deliver : List ℕ → ℕ → Bool → Service Net → Option Reply × Service Net
  deliver packet now arrived s = deliver_decoded now arrived (decode p packet) s

  unfoldable pub route_to :
      List ℕ
      → ℕ
      → Bool
      → ℕ
      → Option (Service Net)
      → Dict ℕ (Service Net)
      → Option Reply × Dict ℕ (Service Net)
  route_to packet now arrived id none services = (none, services)
  route_to packet now arrived id (some s) services =
      let (sent, s') = deliver packet now arrived s in (sent, insert ℕ_discrete id s' services)

  unfoldable pub route_decoded :
      List ℕ
      → ℕ
      → Bool
      → Framed (DatagramHeader × List ℕ)
      → Dict ℕ (Service Net)
      → Option Reply × Dict ℕ (Service Net)
  route_decoded packet now arrived (err e) services = (none, services)
  route_decoded packet now arrived (ok (header, payload)) services =
      route_to packet now arrived header.service_id (get ℕ_discrete header.service_id services)
        services

  -- A round of `demux` that receives `packet`, with the services by their ids.
  unfoldable pub demux :
      List ℕ → ℕ → Bool → Dict ℕ (Service Net) → Option Reply × Dict ℕ (Service Net)
  demux packet now arrived services = route_decoded packet now arrived (decode p packet) services
