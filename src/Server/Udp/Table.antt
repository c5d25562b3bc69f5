-- ===== src/Server/Udp/Table.antt =====
-- crates/hawse-core/src/server/udp/table.rs: which visitor each session id belongs to. An `Instant`
-- is a number of nanoseconds, and `saturating_duration_since` the subtraction that stops at 0.
pub mod Ages
pub mod Agree
pub mod Ids
pub mod Room
pub mod Visitors
pub mod Sweep
use hawse.Base.{
  ℕ, zero, suc, ◌+◌, ◌-◌, ◌%◌, ◌^◌, List, [], ◌∷◌, Bool, true, false, Option, none, some, ◌==◌, ltb,
  leb, if◌then◌else◌, length, ℕ_discrete, ite, ◌||◌, ◌&&◌,
}
use hawse.Base.Dict.{Dict, get, insert, remove, size}
use hawse.Base.Net.{SocketAddr, socket_addr_discrete}
use hawse.Base.Sets.{delete}

pub record Entry : Type 0 where
  pub visitor : SocketAddr
  pub used : ℕ

-- An element of `by_age`, ordered by its time and then by its session.
pub record Age : Type 0 where
  pub at : ℕ
  pub session : ℕ

unfoldable pub age_discrete : Discrete Age
age_discrete = hlevel ℕ_discrete

unfoldable pub older : Age → Age → Bool
older a b = ltb a.at b.at || (a.at == b.at && ltb a.session b.session)

-- `BTreeSet::insert`, on the elements in order.
unfoldable pub insert_age : Age → List Age → List Age
insert_age a [] = a ∷ []
insert_age a (b ∷ l) =
    let rest = insert_age a l in
    ite (age_discrete b a) (b ∷ l) (if older a b then a ∷ b ∷ l else b ∷ rest)

-- `BTreeSet::first`.
unfoldable pub first : List Age → Option Age
first [] = none
first (a ∷ l) = some a

pub record SessionTable : Type 0 where
  pub cap : ℕ
  pub idle : ℕ
  pub next : ℕ
  pub by_visitor : Dict SocketAddr ℕ
  pub by_session : Dict ℕ Entry
  pub by_age : List Age

pub record Inbound : Type 0 where
  pub session : ℕ
  pub fresh : Bool
  pub evicted : Bool

unfoldable pub new : ℕ → ℕ → SessionTable
new cap idle = record {
  cap = cap;
  idle = idle;
  next = 0;
  by_visitor = [];
  by_session = [];
  by_age = [];
}

abbrev pub session_of : SessionTable → SocketAddr → Option ℕ
session_of t v = get socket_addr_discrete v t.by_visitor

abbrev pub entry_of : SessionTable → ℕ → Option Entry
entry_of t s = get ℕ_discrete s t.by_session

unfoldable pub touch_entry : ℕ → ℕ → Option Entry → SessionTable → SessionTable
touch_entry s now none t = t
touch_entry s now (some e) t = record t {
  by_session = insert ℕ_discrete s (record e { used = now }) t.by_session;
  by_age =
      insert_age (record { at = now; session = s })
        (delete age_discrete (record { at = e.used; session = s }) t.by_age);
}

unfoldable pub touch : ℕ → ℕ → SessionTable → SessionTable
touch s now t = touch_entry s now (entry_of t s) t

unfoldable pub remove_entry : ℕ → Option Entry → SessionTable → SessionTable
remove_entry s none t = t
remove_entry s (some e) t = record t {
  by_visitor = remove socket_addr_discrete e.visitor t.by_visitor;
  by_session = remove ℕ_discrete s t.by_session;
  by_age = delete age_discrete (record { at = e.used; session = s }) t.by_age;
}

-- `SessionTable::remove`.
unfoldable pub drop_session : ℕ → SessionTable → SessionTable
drop_session s t = remove_entry s (entry_of t s) t

unfoldable pub evict_first : Option Age → SessionTable → Bool × SessionTable
evict_first none t = (false, t)
evict_first (some a) t = (true, drop_session a.session t)

unfoldable pub evict_oldest : SessionTable → Bool × SessionTable
evict_oldest t = evict_first (first t.by_age) t

-- The loop of `claim_id` on fuel: the id, and the counter after it. `next` is a u32.
unfoldable pub find_id : ℕ → ℕ → SessionTable → Option (ℕ × ℕ)
find_id zero next t = none
find_id (suc fuel) next t = elim (entry_of t next) [
  | none ↦ some (next, (next + 1) % 2 ^ 32)
  | some e ↦ find_id fuel ((next + 1) % 2 ^ 32) t
]

-- One round more than there are sessions.
unfoldable pub claim_id : SessionTable → Option (ℕ × ℕ)
claim_id t = find_id (suc (size ℕ_discrete t.by_session)) t.next t

-- The three inserts of `inbound`, and the counter that `claim_id` left.
unfoldable pub enter : SocketAddr → ℕ → ℕ → ℕ → SessionTable → SessionTable
enter v s now next t = record t {
  next = next;
  by_visitor = insert socket_addr_discrete v s t.by_visitor;
  by_session = insert ℕ_discrete s (record { visitor = v; used = now }) t.by_session;
  by_age = insert_age (record { at = now; session = s }) t.by_age;
}

-- The new session once its id is known.
unfoldable pub admit :
    SocketAddr → ℕ → Bool → SessionTable → Option (ℕ × ℕ) → Option (Inbound × SessionTable)
admit v now evicted t none = none
admit v now evicted t (some (s, next)) =
    some (record { session = s; fresh = true; evicted = evicted }, enter v s now next t)

-- `self.by_session.len() >= self.cap && self.evict_oldest()`.
unfoldable pub make_room : SessionTable → Bool × SessionTable
make_room t = if leb t.cap (size ℕ_discrete t.by_session) then evict_oldest t else (false, t)

unfoldable pub inbound_fresh : SocketAddr → ℕ → SessionTable → Option (Inbound × SessionTable)
inbound_fresh v now t = let (evicted, t') = make_room t in admit v now evicted t' (claim_id t')

unfoldable pub inbound_known :
    SocketAddr → ℕ → SessionTable → Option ℕ → Option (Inbound × SessionTable)
inbound_known v now t none = inbound_fresh v now t
inbound_known v now t (some s) =
    some (record { session = s; fresh = false; evicted = false }, touch s now t)

-- `none` is a loop of `claim_id` out of fuel.
unfoldable pub inbound : SocketAddr → ℕ → SessionTable → Option (Inbound × SessionTable)
inbound v now t = inbound_known v now t (session_of t v)

unfoldable pub outbound_entry :
    ℕ → ℕ → SessionTable → Option Entry → Option SocketAddr × SessionTable
outbound_entry s now t none = (none, t)
outbound_entry s now t (some e) = (some e.visitor, touch s now t)

unfoldable pub outbound : ℕ → ℕ → SessionTable → Option SocketAddr × SessionTable
outbound s now t = outbound_entry s now t (entry_of t s)

-- The loop of `sweep` on fuel: the sessions removed, and the table.
unfoldable pub sweep_loop : ℕ → ℕ → ℕ → SessionTable → ℕ × SessionTable
sweep_loop zero now removed t = (removed, t)
sweep_loop (suc fuel) now removed t = elim (first t.by_age) [
  | none ↦ (removed, t)
  | some a ↦ elim (ltb (now - a.at) t.idle) [
    | true ↦ (removed, t)
    | false ↦ sweep_loop fuel now (removed + 1) (drop_session a.session t)
  ]
]

unfoldable pub sweep : ℕ → SessionTable → ℕ × SessionTable
sweep now t = sweep_loop (suc (length t.by_age)) now 0 t
