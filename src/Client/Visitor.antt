-- ===== src/Client/Visitor.antt =====
-- crates/hawse-core/src/client/visitor.rs: a visitor's stream on its way to the local service, up to the
-- pump between the two.
use hawse.Base.{
  ℕ, ◌^◌, ◌<◌, ◌≡◌, refl, sym, subst, List, [], ◌++◌, Bool, true, false, Option, none, some,
  if◌then◌else◌, ℕ_discrete, arith, Option-cases, Bool-cases, inl, inr, ◌⊎◌,
}
use hawse.Base.Dict.{Dict, get}
use hawse.Base.Net.{IsIp}
use hawse.Base.Text.{Text, text_discrete}
use hawse.Proto.Msg.{StreamHeader}
use hawse.Proto.Port.{Kind, tcp, udp, kind_of}
use hawse.Proto.Proxy.{v2_tcp}
use hawse.Proto.Proxy.Reading.{Says, v2-Says}
use hawse.Client.Rebind.{Expose}
use hawse.Client.Session.{Target, Session, id_of}
use hawse.Client.Session.Bookkeeping.{IsKept, Registered}

-- `reset::UNKNOWN_SERVICE` and `reset::LOCAL_REFUSED`.
abbrev pub unknown_service : ℕ
unknown_service = 0x10

abbrev pub local_refused : ℕ
local_refused = 0x11

-- What becomes of a stream: it is refused with a code, or pumped to the local address behind the bytes
-- that were written first.
pub data Served : Type 0 where
  refused : ℕ → Served
  pumps : Text → List ℕ → Served

-- The target is connected; `writes` is whether `write_all` of the header succeeds.
unfoldable pub serve_connected : StreamHeader → Bool → Target → Served
serve_connected header writes target =
    if target.proxy_protocol
    then if writes
      then pumps target.local (v2_tcp header.visitor header.listener)
      else refused local_refused
    else pumps target.local []

unfoldable pub serve_target : StreamHeader → (Text → Bool) → Bool → Option Target → Served
serve_target header connects writes none = refused unknown_service
serve_target header connects writes (some target) =
    if connects target.local then serve_connected header writes target else refused local_refused

-- `connects` is whether `TcpStream::connect` of an address succeeds.
unfoldable pub serve : StreamHeader → (Text → Bool) → Bool → Dict ℕ Target → Served
serve header connects writes targets =
    serve_target header connects writes (get ℕ_discrete header.service_id targets)

-- A header whose addresses are addresses.
abbrev pub IsHeader : StreamHeader → Type 0
IsHeader h =
    IsIp h.visitor.ip × IsIp h.listener.ip × (h.visitor.port < 2 ^ 16) × (h.listener.port < 2 ^ 16)

-- What the local service reads first: nothing, or a PROXY header for a stream of this visitor at this
-- listener, whatever follows.
abbrev pub Preamble : Bool → StreamHeader → List ℕ → Type 0
Preamble false h bytes = bytes ≡ []
Preamble true h bytes = (rest : List ℕ) → Says 1 h.visitor h.listener rest (bytes ++ rest)

-- What a served stream came to, at a session of the client: it goes to the local address of an exposed
-- TCP service that the server bound under the id of the stream, or it is refused.
abbrev pub Permitted : {Net : Type 0} → StreamHeader → (Text → Bool) → Session Net → Served → Type 0
Permitted h connects s (refused code) = (code ≡ unknown_service) ⊎ (code ≡ local_refused)
Permitted {Net} h connects s (pumps local bytes) =
    (service : Text) × (e : Expose Net) × (id_of service s ≡ some h.service_id)
    × (get text_discrete service s.exposed ≡ some e)
    × (kind_of e.port ≡ tcp)
    × (local ≡ e.local)
    × (connects local ≡ true)
    × Preamble e.proxy_protocol h bytes

v2_tcp-Preamble : (h : StreamHeader) → IsHeader h → Preamble true h (v2_tcp h.visitor h.listener)
v2_tcp-Preamble h v rest =
    let says = v2-Says 1 h.visitor h.listener rest (omega arith) v.0 v.1 v.2 v.3 in
    subst (λ b. Says 1 h.visitor h.listener rest (b ++ rest)) (sym says.1) says.0

module _ {Net : Type 0} (h : StreamHeader) (v : IsHeader h) (connects : Text → Bool)
    (writes : Bool) where
  registered-Permitted :
      (service : Text) (e : Expose Net) (s : Session Net)
      → id_of service s ≡ some h.service_id
      → get text_discrete service s.exposed ≡ some e
      → kind_of e.port ≡ tcp
      → Permitted h connects s (
          serve_target h connects writes (
            some
              (record { service = service; local = e.local; proxy_protocol = e.proxy_protocol })))
  unfolding serve_target serve_connected
  registered-Permitted service e s of there k = elim (Bool-cases (connects e.local)) [
    | inl up ↦ elim (Bool-cases e.proxy_protocol) [
      | inl p ↦ elim (Bool-cases writes) [
        | inl w ↦
            simp (up, p, w) (service, e, of, there, k, refl, refl, simp p (v2_tcp-Preamble h v))
        | inr w ↦ simp (up, p, w) (inr refl)
      ]
      | inr p ↦ simp (up, p) (service, e, of, there, k, refl, refl, simp p refl)
    ]
    | inr down ↦ rw down (inr refl)
  ]

  kind-Permitted :
      (k : Kind) (service : Text) (t : Target) (e : Expose Net) (s : Session Net)
      → id_of service s ≡ some h.service_id
      → get text_discrete service s.exposed ≡ some e
      → kind_of e.port ≡ k
      → Registered k service h.service_id e s
      → get ℕ_discrete h.service_id s.targets ≡ some t
      → Permitted h connects s (serve_target h connects writes (some t))
  kind-Permitted tcp service t e s of there k r held =
      let is : record { service = service; local = e.local; proxy_protocol = e.proxy_protocol }
          ≡ t =
        ground (arith, r.0, held) in
      subst (λ x. Permitted h connects s (serve_target h connects writes (some x))) is
        (registered-Permitted service e s of there k)
  kind-Permitted udp service t e s of there k r held = absurd (ground (arith, r.0, held))

  -- A stream goes only to the local address of an exposed TCP service that the server bound under the
  -- stream's id, behind the PROXY header that the service asks for; otherwise it is refused.
  pub serve-Permitted :
      (s : Session Net) → IsKept s → Permitted h connects s (serve h connects writes s.targets)
  unfolding serve
  serve-Permitted s g = elim (Option-cases (get ℕ_discrete h.service_id s.targets)) [
    | inl gone ↦ rw gone (unfold serve_target in inl refl)
    | inr (t, held) ↦
        let of = g.target_of h.service_id t held in
        let (e, there, r) = g.holds t.service h.service_id of in
        rw held (kind-Permitted (kind_of e.port) t.service t e s of there refl r held)
  ]
