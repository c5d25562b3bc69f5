-- ===== src/Examples/Visiting.antt =====
-- Connections, failures and visitors of a server.
use hawse.Base.{
  ℕ, ◌+◌, ◌^◌, ◌<◌, ◌≡◌, refl, [], ◌∷◌, true, false, none, some, arith, ite, ℕ_discrete, ◌-◌, ◌*◌,
  ◌/◌, min, max, leb, ltb,
}
use hawse.Base.Dict.{get, size}
use hawse.Base.Text.{codes}
use hawse.Base.Net.{v4, SocketAddr, ip_discrete}
use hawse.Proto.Key.{PublicKey}
use hawse.Proto.Msg.{hello}
use hawse.Server.Policy.{ServerConfig, from_config}
use hawse.Server.Greet.{Connection, spoke, run}
use hawse.Server.Greet.Admission.{Deserved, run-Deserved}
use hawse.Server.Limiter
use hawse.Server.Limiter.{Floats, Limiter, key}
use hawse.Server.Limiter.Sweeping.{IsTable}
use hawse.Server.Limiter.Table.{Failed, failed-Failed}
use hawse.Server.Limiter.Pending.{under_way, IsCounted, begin-end}
use hawse.Server.Udp.Table.{SessionTable, Inbound, inbound, outbound, sweep, claim_id, entry_of}
use hawse.Server.Udp.Table
use hawse.Server.Udp.Table.Ids.{claim_id_total}
use hawse.Server.Udp.Table.Room
use hawse.Server.Udp.Table.Room.{new-IsValid}
use hawse.Server.Udp.Table.Visitors.{Served, inbound-Served}
use hawse.Server.Udp.Table.Sweep.{Swept, sweep-Swept}

abbrev client_key : PublicKey
client_key = record { bytes = codes "01234567890123456789012345678901" }

abbrev config : ServerConfig (Unit {0})
config = record {
  bind = v4 0;
  clients = (codes "web", record { key = client_key; ports = []; bind = none; allow = [] }) ∷ [];
}

abbrev connection : Connection (Unit {0})
connection = record {
  key = some client_key;
  before = from_config config;
  greeted = spoke (some (hello none (codes "hawse")));
  after = from_config config;
  previous = false;
  interrupted = false;
  welcomed = true;
}

run_example : Deserved connection (run connection)
run_example = run-Deserved connection

-- Floats by natural numbers.
abbrev floats : Floats
floats = record {
  F = ℕ;
  of = λ n. n;
  secs = λ n. n;
  plus = λ a b. a + b;
  minus = λ a b. a - b;
  times = λ a b. a * b;
  over = λ a b. a / b;
  least = λ a b. min a b;
  most = λ a b. max a b;
  ge = λ a b. leb b a;
  lt = λ a b. ltb a b;
}

abbrev limiter : Limiter ℕ
limiter = record {
  per_minute = 5;
  buckets = [];
  pending = [];
  full_warned = false;
  last_sweep = none;
}

small : IsTable floats limiter
unfolding size
small = (omega arith, tt)

counted : IsCounted limiter
unfolding get
counted k c h = absurd (ground arith)

room : under_way (key (v4 7)) limiter + 1 < 2 ^ 32
unfolding get Limiter.unwrap_or
room = omega arith

let_in : (Limiter.begin floats (v4 7) 10 limiter).0 ≡ true
unfolding Limiter.begin Limiter.permits Limiter.hold Limiter.enough Limiter.tokens_of
    Limiter.unwrap_or get
let_in = refl

failed_example : Failed floats (key (v4 7)) 10 limiter (Limiter.failed floats (v4 7) 10 limiter)
failed_example = failed-Failed floats (v4 7) 10 limiter small

begin_example :
    (under_way (key (v4 7)) (Limiter.begin floats (v4 7) 10 limiter).1
      ≡ ite
          (ip_discrete (key (v4 7)) (key (v4 7)))
          (under_way (key (v4 7)) limiter + 1)
          (under_way (key (v4 7)) limiter))
    × (under_way (key (v4 7)) (Limiter.end (v4 7) (Limiter.begin floats (v4 7) 10 limiter).1)
        ≡ under_way (key (v4 7)) limiter)
begin_example =
    begin-end floats (v4 7) 10 limiter (key (v4 7)) counted room let_in
      (λ e. absurd (omega (arith, e)))

abbrev visitor : SocketAddr
visitor = record { ip = v4 7; port = 5000 }

abbrev table : SessionTable
table = record { cap = 2; idle = 60; next = 0; by_visitor = []; by_session = []; by_age = [] }

table-IsValid : Room.IsValid table
unfolding Table.new
table-IsValid = new-IsValid 2 60 (omega arith)

no_entries : size ℕ_discrete table.by_session < 2 ^ 32
unfolding size
no_entries = omega arith

inbound_example :
    (r : Inbound) × (t' : SessionTable) × (inbound visitor 5 table ≡ some (r, t'))
    × Served visitor 5 table r t'
inbound_example = inbound-Served visitor 5 table table-IsValid

sweep_example : Swept 100 table 0 (sweep 100 table).0 (sweep 100 table).1
sweep_example = sweep-Swept 100 table table-IsValid

claim_id_example :
    (id : ℕ) × (next : ℕ) × (claim_id table ≡ some (id, next))
    × ((entry_of table id ≡ none) × (id < 2 ^ 32) × (next < 2 ^ 32))
claim_id_example = claim_id_total table (omega arith) no_entries
