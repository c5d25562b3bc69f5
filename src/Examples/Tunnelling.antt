-- ===== src/Examples/Tunnelling.antt =====
-- A visitor's datagram through the tunnel, a client's session, and dials.
use hawse.Base.{
  ℕ, ◌+◌, ◌*◌, ◌/◌, ◌-◌, ◌^◌, ◌<◌, ◌≤◌, ◌≡◌, refl, subst, ite, ◌⊎◌, ◌==◌, if◌then◌else◌, List, [],
  ◌∷◌, ◌++◌, Bool, true, false, Option, none, some, arith, length, All, ℕ_discrete,
}
use hawse.Base.Dict.{Dict, get, insert, Distinct}
use hawse.Base.Net.{v4, SocketAddr}
use hawse.Base.Text.{Text, codes, text_discrete}
use hawse.Allow.{Nets}
use hawse.Proto.Frame
use hawse.Proto.Frame.{Postcard, Inverts}
use hawse.Proto.Msg.{Wanted, DatagramHeader, StreamHeader, bound}
use hawse.Proto.Packet
use hawse.Proto.Packet.{visitor_bytes}
use hawse.Proto.Packet.RoundTrip.{Carried, ReadsFrom, packets-Carried}
use hawse.Proto.Port.{any, tcp}
use hawse.Proto.Proxy.{v2, v2_tcp, v2_udp}
use hawse.Proto.Proxy.Reading.{Says, v2-Says}
use hawse.Server.Udp.Service
use hawse.Server.Udp.Service.{Service}
use hawse.Server.Udp.Service.Runs
use hawse.Server.Udp.Service.Runs.{datagram, sweeps, run_from, Guarded, new-Guarded}
use hawse.Server.Udp.Table.Room.{new-IsValid}
use hawse.Udp
use hawse.Udp.{Route}
use hawse.Udp.Events.{sends, drains, ends}
use hawse.Udp.Events
use hawse.Client.Udp as Local
use hawse.Client.Udp.{UdpLocal, held}
use hawse.Client.Udp.Entering.{IsTable, Entered, enter-Entered, remaining, forget-Forgets}
use hawse.Client.Rebind.{Expose, wanted, rebind}
use hawse.Client.Rebind.Asked.{ask_all, asked_for, wanted_of, rebind-Asks}
use hawse.Client.Session
use hawse.Client.Session.{Session, left, heard, replies, reexpose}
use hawse.Client.Session.Bookkeeping.{IsKept}
use hawse.Client.Session.Turns.{heard-IsKept, after}
use hawse.Client.Session.Loop.{Serving, start, reloads, goes_on}
use hawse.Client.Session.Running.{starts, goes, InOrder, loop-InOrder}
use hawse.Client.Visitor.{serve, Permitted, serve-Permitted}
use hawse.Client.Dial.{dial_each, IsFirst, dial_each-IsFirst}
use hawse.Client.Race
use hawse.Client.Race.{Result}
use hawse.Client.Failure
use hawse.Client.Failure.{ClientError}
use hawse.Client.Backoff.{Floats, Places}
use hawse.Client.Retry.{Ended, broke, run}
use hawse.Client.Retry.Rounds.{Told, run-Retries}
use hawse.Tunnel.{Travels, datagram-Travels}

-- An encoding of headers: their two numbers.
abbrev two_numbers : Postcard DatagramHeader
two_numbers = record {
  put = λ h. some (h.service_id ∷ h.session ∷ []);
  take = λ bs. elim bs [
    | [] ↦ none
    | a ∷ rest ↦ elim rest [
      | [] ↦ none
      | b ∷ more ↦ some (record { service_id = a; session = b }, more)
    ]
  ];
}

two_numbers-Inverts : Inverts two_numbers
two_numbers-Inverts a bs rest e =
    let is : a.service_id ∷ a.session ∷ [] ≡ bs = ground (arith, e) in
    subst (λ x. two_numbers.take (x ++ rest) ≡ some (a, rest)) is refl

-- All of IPv4 and IPv6 as one network.
abbrev everyone : Nets
everyone = record {
  Net = Unit {0};
  same = λ a b. yes refl;
  trunc = λ a. a;
  covers = λ a b. true;
  holds = λ a ip. true;
  le = λ a b. true;
}

abbrev visitor : SocketAddr
visitor = record { ip = v4 0xc0000201; port = 56324 }

abbrev listener : SocketAddr
listener = record { ip = v4 0xc6336407; port = 443 }

abbrev path : Route
path = record { max_datagram_size = some 1200; buffer_space = 4096; send_datagram = none }

abbrev service : Service (Unit {0})
service = Service.new 7 2 (tt ∷ []) true

abbrev local : UdpLocal
local = Local.new 7 60 2 (some listener)

datagram-Travels_example :
    Travels everyone two_numbers visitor
      (1 ∷ 2 ∷ [])
      (3 ∷ [])
      10
      20
      30
      true
      true
      path
      path
      0
      service
      local
unfolding hawse.Server.Udp.Service.new hawse.Client.Udp.new hawse.Allow.permits hawse.Allow.is_empty
    hawse.Base.Sort.any
datagram-Travels_example =
    datagram-Travels everyone two_numbers visitor (1 ∷ 2 ∷ []) (3 ∷ []) 10 20 30 true true path path
      0 service local two_numbers-Inverts (new-IsValid 2 Service.idle (omega arith)) refl
      (omega arith, omega arith) refl refl (omega arith, omega arith)

abbrev header : DatagramHeader
header = record { service_id = 7; session = 300 }

packets-Carried_example :
    Carried
      (λ bs. Packet.decode two_numbers bs ≡ Frame.ok (header, 9 ∷ []))
      (2 + 1)
      (Packet.encode two_numbers header (9 ∷ []))
    × Carried
        (ReadsFrom two_numbers header visitor (9 ∷ []))
        (2 + length (visitor_bytes visitor ++ 9 ∷ []))
        (Packet.encode_from two_numbers header visitor (9 ∷ []))
packets-Carried_example =
    packets-Carried two_numbers header (7 ∷ 300 ∷ []) visitor (9 ∷ []) two_numbers-Inverts refl
      (omega arith) (omega arith) (omega arith)

v2-Says_example :
    Says 1 visitor listener (5 ∷ []) (v2 visitor listener (16 + 1) (32 + 1) ++ 5 ∷ [])
    × (v2_tcp visitor listener ≡ v2 visitor listener (16 + 1) (32 + 1))
    × (v2_udp visitor listener ≡ v2 visitor listener (16 + 2) (32 + 2))
v2-Says_example =
    v2-Says 1 visitor listener (5 ∷ []) (omega arith) (omega arith) (omega arith) (omega arith)
      (omega arith)

abbrev arrivals : List Runs.Event
arrivals = datagram visitor (1 ∷ []) 10 path ∷ sweeps 20 ∷ []

new-Guarded_example :
    (s : Service (Unit {0})) × (run_from everyone two_numbers arrivals
        (some (Service.new 7 2 (tt ∷ []) true))
      ≡ some s)
    × Guarded everyone two_numbers 7 (tt ∷ []) s
new-Guarded_example = new-Guarded everyone two_numbers 7 2 (tt ∷ []) true arrivals (omega arith)

abbrev events : List Events.Event
events = sends path (Frame.ok (1 ∷ 2 ∷ [])) ∷ drains ∷ ends ∷ []

local-IsTable : IsTable local
unfolding hawse.Client.Udp.new hawse.Base.Dict.get hawse.Base.Dict.size
local-IsTable = record {
  distinct = tt;
  within = omega arith;
  made = λ x s h. absurd (ground arith);
  one = λ x y s r h k e. absurd (ground arith);
}

enter_example : Entered 3 10 local (Local.enter 3 10 local)
enter_example = enter-Entered 3 10 local local-IsTable

abbrev opened : UdpLocal
opened = Local.enter 3 10 local

forget_example :
    IsTable (Local.forget 3 0 opened)
    × ((x : ℕ)
        → held x (Local.forget 3 0 opened)
          ≡ ite (ℕ_discrete 3 x) (remaining 0 (held 3 opened)) (held x opened))
forget_example = forget-Forgets 3 0 opened (enter-Entered 3 10 local local-IsTable).table

abbrev unit_discrete : Discrete (Unit {0})
unit_discrete = λ a b. yes refl

abbrev web : Expose (Unit {0})
web = record { local = codes "127.0.0.1:80"; port = any tcp; allow = []; proxy_protocol = true }

abbrev shell : Expose (Unit {0})
shell = record { local = codes "127.0.0.1:22"; port = any tcp; allow = []; proxy_protocol = false }

abbrev before : Dict Text (Expose (Unit {0}))
before = (codes "web", web) ∷ []

abbrev next : Dict Text (Expose (Unit {0}))
next = (codes "ssh", shell) ∷ []

one-Distinct : (name : Text) (e : Expose (Unit {0})) → Distinct text_discrete ((name, e) ∷ [])
unfolding hawse.Base.Dict.get
one-Distinct name e = (refl, tt)

abbrev moved : Dict Text (Expose (Unit {0}))
moved = (codes "web", record web { local = codes "elsewhere" }) ∷ []

abbrev bound_once : Dict Text (Wanted (Unit {0}))
bound_once = (codes "web", wanted (codes "web") web) ∷ []

-- The server has the one service, which the reload gives other settings.
rebind_example :
    asked_for (codes "web") (ask_all (rebind unit_discrete before moved []) bound_once)
    ≡ wanted_of (codes "web") (get text_discrete (codes "web") moved)
unfolding hawse.Base.Dict.get hawse.Base.Sets.has hawse.Client.Rebind.Asked.wanted_of
rebind_example =
    rebind-Asks unit_discrete before moved [] bound_once (one-Distinct (codes "web") web)
      (one-Distinct (codes "web") (record web { local = codes "elsewhere" }))
      (λ x. (λ h. ground arith, λ h. ground arith)) (codes "web")

abbrev began : Serving (Unit {0})
began = start before 0

abbrev reloaded : Serving (Unit {0})
reloaded = record began {
  session = (reexpose unit_discrete next began.session).1;
  pending = began.pending ++ (reexpose unit_discrete next began.session).0;
}

loop_example : InOrder reloaded
unfolding hawse.Client.Session.Loop.turn hawse.Client.Session.Loop.send_or_end
loop_example = loop-InOrder unit_discrete listener before reloaded (
    goes (reloads next) began reloaded (starts 0 (one-Distinct (codes "web") web))
      (one-Distinct (codes "ssh") shell) refl)

abbrev tunnelled : Session (Unit {0})
tunnelled = after (heard (bound (codes "web") 7 443 (v4 0)) listener none (Session.new before))

tunnelled-IsKept : IsKept tunnelled
unfolding hawse.Client.Session.new hawse.Base.Dict.get hawse.Client.Session.Loop.start
tunnelled-IsKept =
    heard-IsKept (bound (codes "web") 7 443 (v4 0)) listener none (Session.new before)
      (λ x other h. absurd (ground arith))
      (loop-InOrder unit_discrete listener before began
        (starts 0 (one-Distinct (codes "web") web))).kept

abbrev stream : StreamHeader
stream = record { service_id = 7; visitor = visitor; listener = listener }

serve_example :
    Permitted stream (λ local. true) tunnelled (serve stream (λ local. true) true tunnelled.targets)
serve_example =
    serve-Permitted stream (omega arith, omega arith, omega arith, omega arith) (λ local. true) true
      tunnelled tunnelled-IsKept

-- Only the second address answers.
abbrev answers : SocketAddr → Result ℕ ℕ
answers a = if a.port == 443 then Race.ok 1 else Race.err 2

dial_example :
    IsFirst answers 0 (visitor ∷ listener ∷ []) (dial_each answers (visitor ∷ listener ∷ []) 0)
dial_example = dial_each-IsFirst answers (visitor ∷ listener ∷ []) 0

abbrev no_text : ClientError → Text
no_text e = []

-- Floats by thousandths.
abbrev thousandths : Floats
thousandths = record {
  F = ℕ;
  half = 500;
  plus = λ a b. a + b;
  times = λ a b. a * b / 1000;
  mul_f64 = λ n a. n * (a * 1000000);
}

abbrev InUnit : ℕ → Type 0
InUnit u = u ≤ 1000

places : Places thousandths InUnit
places n u h =
    let factor : ℕ = (500 + 500 * u / 1000) * 1000000 in
    let low : 500000000 ≤ factor = omega arith in
    let high : factor ≤ 1000000000 = omega arith in (grind (arith, low), grind (arith, high))

-- A session that lasted 5 seconds, one that was not made, and a cancel in a wait.
abbrev lost_twice : List (Ended thousandths)
lost_twice =
    broke Failure.unresponsive false 5000000000 250 false
    ∷ broke Failure.unresponsive false 0 1000 false
    ∷ []

abbrev cut_short : Ended thousandths
cut_short = broke Failure.unresponsive false 0 0 true

retries_example :
    ((run thousandths no_text (lost_twice ++ cut_short ∷ []) (some (record { failures = 0 }))).0
      ≡ length lost_twice + 1)
    × Told thousandths InUnit no_text 0 lost_twice cut_short
        (run thousandths no_text (lost_twice ++ cut_short ∷ []) (some (record { failures = 0 }))).1
unfolding hawse.Client.Retry.classify hawse.Client.Retry.is_config
retries_example =
    run-Retries thousandths InUnit no_text places lost_twice [] cut_short (record { failures = 0 })
      ((refl, refl, omega arith), ((refl, refl, omega arith), tt)) (omega arith)
