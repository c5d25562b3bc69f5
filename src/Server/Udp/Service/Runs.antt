-- ===== src/Server/Udp/Service/Runs.antt =====
-- A UDP service of crates/hawse-core/src/server/udp/mod.rs over any sequence of datagrams, packets and
-- sweeps.
use hawse.Base.{
  ℕ, ◌+◌, ◌^◌, ◌<◌, ◌≡◌, ◌≢◌, refl, sym, ap, ◌∙◌, subst, List, [], ◌∷◌, Bool, true, false, Option,
  none, some, ◌==◌, ltb, ◌-◌, if◌then◌else◌, ite, ℕ_discrete, arith, Bool-cases, Option-cases, inl,
  inr, ◌⊎◌, ite_other, ite_same,
}
use hawse.Base.Dict.{Dict, get, get-insert}
use hawse.Base.Net.{SocketAddr}
use hawse.Allow.{Nets, permits}
use hawse.Proto.Frame.{Framed, FrameError, ok, err, Postcard}
use hawse.Proto.Msg.{DatagramHeader}
use hawse.Proto.Packet.{decode}
use hawse.Server.Udp.Table
use hawse.Server.Udp.Table.{SessionTable, Inbound, Entry, entry_of}
use hawse.Server.Udp.Table.Room.{IsValid, new-IsValid}
use hawse.Server.Udp.Table.Visitors.{Served, outbound-replies}
use hawse.Server.Udp.Table.Sweep.{sweep-Swept, unexpired}
use hawse.Server.Udp.Service.{
  idle, Service, new, tick, receive, reply_to, deliver_found, deliver_decoded, deliver, demux,
  route_decoded, route_to,
}
use hawse.Server.Udp.Service.Replies.{receive-Received}
use hawse.Udp.{Route}

-- A datagram of a visitor, a packet of the client, or a sweep.
pub data Event : Type 0 where
  datagram : SocketAddr → List ℕ → ℕ → Route → Event
  packet : List ℕ → ℕ → Bool → Event
  sweeps : ℕ → Event

entry_of-new : (cap wait x : ℕ) → entry_of (Table.new cap wait) x ≡ none
unfolding hawse.Server.Udp.Table.new hawse.Base.Dict.get
entry_of-new cap wait x = refl

unexpired-some :
    (now idle : ℕ) (o : Option Entry) (e : Entry) → unexpired now idle o ≡ some e → o ≡ some e
unexpired-some now idle none e h = absurd (ground arith)
unexpired-some now idle (some d) e h = ground arith

module _ (n : Nets) (p : Postcard DatagramHeader) where
  open n use {Net}

  unfoldable pub step : Event → Service Net → Option (Service Net)
  step (datagram visitor payload now t) s = receive n p visitor payload now t s
  step (packet bytes now arrived) s = some (deliver n p bytes now arrived s).1
  step (sweeps now) s = some (tick now s)

  -- Every session is of a visitor that the list admits.
  abbrev pub Admitted : List Net → SessionTable → Type 0
  Admitted allow t =
      (x : ℕ) (e : Entry) → entry_of t x ≡ some e → permits n allow e.visitor.ip ≡ true

  -- A service with the list it was made with, its table valid and its sessions admitted.
  abbrev pub Guarded : ℕ → List Net → Service Net → Type 0
  Guarded id allow s = IsValid s.table × (s.id ≡ id) × (s.allow ≡ allow) × Admitted allow s.table

  served-Admitted :
      (allow : List Net) (v : SocketAddr) (now : ℕ) (t : SessionTable) (r : Inbound)
      (t' : SessionTable)
      → permits n allow v.ip ≡ true
      → Admitted allow t
      → Served v now t r t'
      → Admitted allow t'
  served-Admitted allow v now t r t' may all g x e h = elim (ℕ_discrete x r.session) [
    | yes same ↦
        let is : some (record { visitor = v; used = now }) ≡ some e =
          sym g.routes ∙ ap (entry_of t') (sym same) ∙ h in
        let who : v ≡ e.visitor = ground (arith, is) in
        subst (λ w. permits n allow w.ip ≡ true) who may
    | no other ↦ elim (Bool-cases r.evicted) [
      | inl gone ↦
          let (s, d, oldest, full, rest) = g.victim gone in
          all x e (ground (arith, rest x other, h))
      | inr kept ↦ all x e (sym (g.others kept x other) ∙ h)
    ]
  ]

  receive-Guarded :
      (id : ℕ) (allow : List Net) (visitor : SocketAddr) (payload : List ℕ) (now : ℕ) (t : Route)
      (s : Service Net)
      → Guarded id allow s
      → (s' : Service Net) × (receive n p visitor payload now t s ≡ some s') × Guarded id allow s'
  receive-Guarded id allow visitor payload now t s g =
      let (s', r, received, valid) = receive-Received n p visitor payload now t s g.0 in
      (
        s',
        r,
        elim (Bool-cases (permits n s.allow visitor.ip)) [
          | inl e ↦
              let (seen, served, same, open_to, sent) = received.1 e in
              (
                valid,
                same ∙ g.1,
                open_to ∙ g.2,
                served-Admitted allow visitor now s.table seen s'.table
                    (subst (λ l. permits n l visitor.ip ≡ true) g.2 e) g.3 served,
              )
          | inr e ↦ subst (Guarded id allow) (sym (received.0 e)) g
        ],
      )

  -- A lookup for a reply keeps every session's visitor.
  outbound-Admitted :
      (allow : List Net) (session now : ℕ) (t : SessionTable)
      → IsValid t
      → Admitted allow t
      → Admitted allow (Table.outbound session now t).1
  outbound-Admitted allow session now t v all x e h =
      let after = (outbound-replies session now t v).2 x in
      elim (ℕ_discrete session x) [
        | yes same ↦ elim (Option-cases (entry_of t session)) [
          | inl gone ↦ absurd (ground (arith, after, gone, h))
          | inr (d, was) ↦
              let is : some (record d { used = now }) ≡ some e = ground (arith, after, was, h) in
              let who : d.visitor ≡ e.visitor = ground (arith, is) in
              subst (λ w. permits n allow w.ip ≡ true) who (all session d was)
        ]
        | no other ↦ all x e (sym (ground (arith, after)) ∙ h)
      ]

  reply_to-keeps :
      (arrived : Bool) (payload : List ℕ) (o : Option SocketAddr) (s : Service Net)
      → ((reply_to arrived payload o s).1.table ≡ s.table)
        × ((reply_to arrived payload o s).1.id ≡ s.id)
        × ((reply_to arrived payload o s).1.allow ≡ s.allow)
  unfolding reply_to
  reply_to-keeps arrived payload none s = (refl, refl, refl)
  reply_to-keeps true payload (some v) s = (refl, refl, refl)
  reply_to-keeps false payload (some v) s = (refl, refl, refl)

  deliver_decoded-Guarded :
      (id : ℕ) (allow : List Net) (now : ℕ) (arrived : Bool) (d : Framed (DatagramHeader × List ℕ))
      (s : Service Net)
      → Guarded id allow s
      → Guarded id allow (deliver_decoded now arrived d s).1
  unfolding deliver_decoded deliver_found
  deliver_decoded-Guarded id allow now arrived (err e) s g = g
  deliver_decoded-Guarded id allow now arrived (ok (header, payload)) s g =
      elim (Bool-cases (header.service_id == s.id)) [
        | inl e ↦
            let out = Table.outbound header.session now s.table in
            let s1 : Service Net = record s { table = out.1 } in
            let (table, same, open_to) = reply_to-keeps arrived payload out.0 s1 in
            rw (e, table)
              (
                (outbound-replies header.session now s.table g.0).0,
                same ∙ g.1,
                open_to ∙ g.2,
                outbound-Admitted allow header.session now s.table g.0 g.3,
              )
        | inr e ↦ rw e g
      ]

  tick-Guarded :
      (id : ℕ) (allow : List Net) (now : ℕ) (s : Service Net)
      → Guarded id allow s
      → Guarded id allow (tick now s)
  unfolding tick
  tick-Guarded id allow now s g =
      let swept = sweep-Swept now s.table g.0 in
      (
        swept.valid,
        g.1,
        g.2,
        λ x e h.
            g.3 x e
              (unexpired-some now s.table.idle (entry_of s.table x) e (sym (swept.exact x) ∙ h)),
      )

  step-Guarded :
      (id : ℕ) (allow : List Net) (e : Event) (s : Service Net)
      → Guarded id allow s
      → (s' : Service Net) × (step e s ≡ some s') × Guarded id allow s'
  unfolding step deliver
  step-Guarded id allow (datagram visitor payload now t) s g =
      receive-Guarded id allow visitor payload now t s g
  step-Guarded id allow (packet bytes now arrived) s g = (
    (deliver n p bytes now arrived s).1,
    refl,
    deliver_decoded-Guarded id allow now arrived (decode p bytes) s g,
  )
  step-Guarded id allow (sweeps now) s g = (tick now s, refl, tick-Guarded id allow now s g)

  unfoldable pub run_from : List Event → Option (Service Net) → Option (Service Net)
  run_from [] o = o
  run_from (e ∷ es) none = none
  run_from (e ∷ es) (some s) = run_from es (step e s)

  run-Guarded :
      (id : ℕ) (allow : List Net) (es : List Event) (s : Service Net)
      → Guarded id allow s
      → (s' : Service Net) × (run_from es (some s) ≡ some s') × Guarded id allow s'
  unfolding run_from
  run-Guarded id allow [] s g = (s, refl, g)
  run-Guarded id allow (e ∷ es) s g =
      let (s1, r, g1) = step-Guarded id allow e s g in
      let (s2, r2, g2) = run-Guarded id allow es s1 g1 in (s2, rw r r2, g2)

  -- A new service, after any datagrams, packets of the client and sweeps in any order, is there with
  -- its table valid, and each of its sessions is of a visitor whom its list admits.
  pub new-Guarded :
      (id sessions : ℕ) (allow : List Net) (proxy_protocol : Bool) (es : List Event)
      → sessions < 2 ^ 32
      → (s : Service Net) × (run_from es (some (new id sessions allow proxy_protocol)) ≡ some s)
        × Guarded id allow s
  unfolding new
  new-Guarded id sessions allow proxy_protocol es small =
      run-Guarded id allow es (new id sessions allow proxy_protocol) (
        new-IsValid sessions idle small,
        refl,
        refl,
        λ x e h. absurd (ground (arith, entry_of-new sessions idle x, h)),
      )

  -- A packet of the client on the datagram path reaches the service that its header names, as `deliver`
  -- of that service, and no other; one that names no service, or is no packet, reaches nobody.
  pub demux-Routes :
      (bytes : List ℕ) (now : ℕ) (arrived : Bool) (services : Dict ℕ (Service Net))
      → ((e : FrameError)
          → decode p bytes ≡ err e
          → demux n p bytes now arrived services ≡ (none, services))
        × ((h : DatagramHeader) (payload : List ℕ)
            → decode p bytes ≡ ok (h, payload)
            → ((x : ℕ)
                → x ≢ h.service_id
                → get ℕ_discrete x (demux n p bytes now arrived services).1
                  ≡ get ℕ_discrete x services)
              × (get ℕ_discrete h.service_id services ≡ none
                  → demux n p bytes now arrived services ≡ (none, services))
              × ((s : Service Net)
                  → get ℕ_discrete h.service_id services ≡ some s
                  → ((demux n p bytes now arrived services).0 ≡ (deliver n p bytes now arrived s).0)
                    × (get ℕ_discrete h.service_id (demux n p bytes now arrived services).1
                        ≡ some (deliver n p bytes now arrived s).1)))
  unfolding demux route_decoded route_to
  demux-Routes bytes now arrived services = (
    λ e d. rw d refl,
    λ h payload d. rw d (
      λ x other. elim (Option-cases (get ℕ_discrete h.service_id services)) [
        | inl gone ↦ rw gone refl
        | inr (s, found) ↦ rw found (
            get-insert ℕ_discrete x h.service_id (deliver n p bytes now arrived s).1 services
            ∙ ite_other ℕ_discrete _ _ (λ same. other (sym same)))
      ],
      λ gone. rw gone refl,
      λ s found. rw found (
        refl,
        get-insert ℕ_discrete h.service_id h.service_id (deliver n p bytes now arrived s).1 services
            ∙ ite_same ℕ_discrete h.service_id _ _,
      ),
    ),
  )
