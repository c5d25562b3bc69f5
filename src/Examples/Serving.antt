-- ===== src/Examples/Serving.antt =====
-- A server with one client, its sessions, its visitors and its limiter.
use hawse.Base.{
  if◌then◌else◌, ℕ, ◌+◌, ◌^◌, ◌<◌, ◌≤◌, ◌≡◌, ◌≢◌, refl, List, [], ◌∷◌, Bool, true, false, Option,
  none, some, arith, ite, ℕ_discrete, map,
}
use hawse.Base.Dict.{get}
use hawse.Base.Text.{codes, text_discrete}
use hawse.Base.Net.{IpAddr, v4}
use hawse.Allow.{Nets}
use hawse.Proto.Key.{PublicKey}
use hawse.Proto.Msg.{Wanted, ClientMessage, ServerMessage}
use hawse.Proto.Port.{tcp, udp, Port, PortSpan}
use hawse.Server.Policy.{Grant, Policy, lookup}
use hawse.Server.Ports
use hawse.Server.Ports.{PortAllocator, holds}
use hawse.Server.Ports.Walk
use hawse.Server.Ports.Walk.{Claimed, claim_dynamic-Claimed}
use hawse.Server.Open.{open_port}
use hawse.Server.Open.Opening.{Answers, open_port-Answers}
use hawse.Server.Session
use hawse.Server.Session.{Session, BoundService, enter}
use hawse.Server.Session.Bind.{Outcome, bind-Outcome}
use hawse.Server.Session.Sound.{IsValid, Granted, enter-IsValid}
use hawse.Server.Session.Keeps.{After, bind-IsValid, bind-Granted}
use hawse.Server.Session.Unbinding.{Unbinds, unbind-Unbinds}
use hawse.Server.Session.Stop.{unbind, regrant}
use hawse.Server.Session.Regrant.{Regranted, regrant-Regranted}
use hawse.Server.Serve.{Serving, heard, popped, message, sent, turn, enabled, no_pending}
use hawse.Server.Serve.Turns
use hawse.Server.Serve.Turns.{turn-Turned}
use hawse.Server.Serve.Pending
use hawse.Server.Serve.Pending.{turn-pending}

abbrev nets : Nets
nets = record {
  Net = Unit {0};
  same = λ a b. yes refl;
  trunc = λ a. a;
  covers = λ a b. true;
  holds = λ a ip. true;
  le = λ a b. true;
}

abbrev any_host : IpAddr → Port → Bool
any_host ip p = true

abbrev span : PortSpan
span = record { first = 9000; last = 9001 }

abbrev ports : PortAllocator
ports = Ports.new span

ports-IsValid : Walk.IsValid ports
ports-IsValid = Walk.new-IsValid span (omega arith) (omega arith)

abbrev port : Port
port = record { number = 80; kind = tcp }

claim_dynamic_example : Claimed ports tcp (Ports.claim_dynamic tcp ports)
claim_dynamic_example = claim_dynamic-Claimed tcp ports ports-IsValid

abbrev grant : Grant (Unit {0})
grant = record {
  name = codes "web";
  ports = record { first = 80; last = 90; kind = tcp } ∷ [];
  bind = v4 0;
  allow = [];
}

open_example :
    Answers grant
      (any_host (v4 0))
      tcp
      (some 80)
      ports
      (open_port grant (any_host (v4 0)) tcp (some 80) ports)
open_example = open_port-Answers grant (any_host (v4 0)) tcp (some 80) ports ports-IsValid

abbrev client_key : PublicKey
client_key = record { bytes = codes "01234567890123456789012345678901" }

abbrev session : Session (Unit {0})
session = record {
  key = client_key;
  grant = grant;
  services = [];
  last_id = 0;
  udp = [];
  tasks = [];
  cancelled = [];
  ports = ports;
  events = [];
}

session-IsValid : IsValid session
unfolding get hawse.Base.Sets.has
session-IsValid = record {
  allocator = ports-IsValid;
  bounded = omega arith;
  keys = tt;
  served = λ m b h. absurd (ground arith);
  one = λ m k b c h _ _. absurd (ground arith);
  given = λ i h. absurd (h refl);
  stopped = λ i h. absurd (ground arith);
  held = λ i t h. absurd (ground arith);
  apart = λ i j t u h _ _. absurd (ground arith);
}

session-Granted : Granted session
unfolding get
session-Granted m b h _ = absurd (ground arith)

abbrev wanted : Wanted (Unit {0})
wanted = record {
  service = codes "web";
  kind = tcp;
  port = some 80;
  allow = [];
  proxy_protocol = false;
}

bind_example : Outcome nets any_host wanted session (Session.bind nets any_host wanted session)
bind_example = bind-Outcome nets any_host wanted session ports-IsValid (omega arith)

bind-IsValid_example : After IsValid (Session.bind nets any_host wanted session)
bind-IsValid_example = bind-IsValid nets any_host wanted session session-IsValid

bind-Granted_example : After Granted (Session.bind nets any_host wanted session)
bind-Granted_example = bind-Granted nets any_host wanted session session-IsValid session-Granted

abbrev relayed_port : Port
relayed_port = record { number = 80; kind = udp }

abbrev wanted_udp : Wanted (Unit {0})
wanted_udp = record wanted { kind = udp }

-- A session with one UDP service, on a port that its grant does not have.
abbrev relaying : Session (Unit {0})
relaying =
    enter wanted_udp [] 1 relayed_port
      (record session { ports = Ports.take_port relayed_port ports })

relayed_port-free : holds ports relayed_port ≡ false
unfolding holds Ports.new
relayed_port-free = refl

relaying-IsValid : IsValid relaying
relaying-IsValid =
    enter-IsValid wanted_udp [] relayed_port session (Ports.take_port relayed_port ports)
      session-IsValid (Walk.take_port-IsValid ports relayed_port ports-IsValid) (omega arith)
      relayed_port-free (λ q. Walk.holds-take_port ports relayed_port q)

unbind_example :
    Unbinds
      (codes "web")
      (get text_discrete (codes "web") relaying.services)
      relaying
      (unbind (codes "web") relaying)
    × IsValid (unbind (codes "web") relaying).1
unbind_example = unbind-Unbinds (codes "web") relaying relaying-IsValid

-- A reload that leaves the client its grant.
abbrev policy : Policy (Unit {0})
policy = (client_key, grant) ∷ []

regrant_example : Regranted nets (lookup client_key policy) relaying (regrant nets policy relaying)
unfolding enter
regrant_example = regrant-Regranted nets policy relaying relaying-IsValid

abbrev serving : Serving (Unit {0})
serving = record { session = session; nonce = 0; last_heard = 0; told = none; pending = [] }

turn_example :
    Turns.Turned (turn nets any_host 5 sent (heard (message (ClientMessage.bind wanted))) serving)
turn_example =
    turn-Turned nets any_host 5 sent (heard (message (ClientMessage.bind wanted))) serving
      (session-IsValid, session-Granted)

abbrev waiting : Serving (Unit {0})
waiting = record serving { pending = ServerMessage.shutdown [] ∷ [] }

pending_example :
    Pending.Turned waiting (ServerMessage.shutdown []) [] (turn nets any_host 5 sent popped waiting)
unfolding enabled no_pending
pending_example =
    turn-pending nets any_host 5 sent popped waiting (ServerMessage.shutdown []) [] refl refl
