-- ===== src/Server/Session/Installed.antt =====
-- What a bind adds to a session.
use hawse.Base.{if◌then◌else◌, ℕ, ◌+◌, ◌≡◌, refl, List, Option, some, ite, ◌∷◌, ℕ_discrete}
use hawse.Base.Dict.{get, insert, get-insert}
use hawse.Base.Text.{Text, text_discrete}
use hawse.Proto.Msg.{Wanted}
use hawse.Proto.Port.{Kind, tcp, udp, Port}
use hawse.Server.Ports.{PortAllocator}
use hawse.Server.Session.{Session, UdpService, is_udp, told_bound, is_some, enter, tell}

-- Where the service is relayed by datagrams, its entry under the next id.
abbrev pub relayed :
    {Net : Type 0} → Kind → Wanted Net → List Net → Port → Session Net → ℕ → Option (UdpService Net)
relayed tcp w allow p s i = get ℕ_discrete i s.udp
relayed udp w allow p s i =
    ite (ℕ_discrete (s.last_id + 1) i)
      (some (record {
        service = w.service;
        port = p;
        allow = allow;
        proxy_protocol = w.proxy_protocol;
      }))
      (get ℕ_discrete i s.udp)

-- What a bind adds to a session on the port `p`: one service, one task that admits by `allow`, and for
-- a UDP service one entry of those, each under the next id. All others stay as they were.
pub record Installed {Net : Type 0} (w : Wanted Net) (allow : List Net) (p : Port)
    (s s' : Session Net) : Type 0 where
  pub listed :
      (x : Text)
      → get text_discrete x s'.services
        ≡ ite
            (text_discrete w.service x)
            (some (record { id = s.last_id + 1; port = p; fixed = is_some w.port }))
            (get text_discrete x s.services)
  pub serving :
      (i : ℕ)
      → get ℕ_discrete i s'.tasks
        ≡ ite
            (ℕ_discrete (s.last_id + 1) i)
            (some (record { port = p; allow = allow }))
            (get ℕ_discrete i s.tasks)
  pub relaying : (i : ℕ) → get ℕ_discrete i s'.udp ≡ relayed w.kind w allow p s i
  pub counted_up : s'.last_id ≡ s.last_id + 1
  pub same_key : s'.key ≡ s.key
  pub same_grant : s'.grant ≡ s.grant
  pub same_cancelled : s'.cancelled ≡ s.cancelled
  pub reported : s'.events ≡ told_bound s.grant.name w.service s.grant.bind p ∷ s.events

enter-relaying :
    {Net : Type 0} (kind : Kind) (w : Wanted Net) (allow : List Net) (p : Port) (s : Session Net)
    (i : ℕ)
    → get ℕ_discrete i (
        if is_udp kind
        then insert ℕ_discrete
            (s.last_id + 1)
            (record {
              service = w.service;
              port = p;
              allow = allow;
              proxy_protocol = w.proxy_protocol;
            })
            s.udp
        else s.udp)
      ≡ relayed kind w allow p s i
unfolding is_udp
enter-relaying tcp w allow p s i = refl
enter-relaying udp w allow p s i = get-insert ℕ_discrete i (s.last_id + 1) _ s.udp

pub tell-enter-Installed :
    {Net : Type 0} (w : Wanted Net) (allow : List Net) (p : Port) (s : Session Net)
    (a : PortAllocator)
    → Installed w allow p s (
        tell
          (told_bound s.grant.name w.service s.grant.bind p)
          (enter w allow (s.last_id + 1) p (record s { ports = a })))
unfolding tell enter
tell-enter-Installed w allow p s a = record {
  listed = λ x. get-insert text_discrete x w.service _ s.services;
  serving = λ i. get-insert ℕ_discrete i (s.last_id + 1) _ s.tasks;
  relaying = λ i. enter-relaying w.kind w allow p s i;
  counted_up = refl;
  same_key = refl;
  same_grant = refl;
  same_cancelled = refl;
  reported = refl;
}
