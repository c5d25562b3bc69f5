-- ===== src/Server/Udp/Table/Room.antt =====
-- What the parts of `inbound`, `outbound` and `sweep` do to a valid table.
use hawse.Base.{
  ℕ, ◌^◌, ◌≤◌, ◌<◌, ◌≡◌, ◌≢◌, refl, inl, inr, Bool, true, false, Option, none, some, arith, ite,
  ℕ_discrete, max, leb, Option-cases, Bool-cases,
}
use hawse.Base.Dict.{size, get-insert, get-remove, size-insert_old, size-remove-lt, size-eq-zero}
use hawse.Base.Net.{SocketAddr}
use hawse.Server.Udp.Table.{
  Entry, Age, SessionTable, session_of, entry_of, touch, touch_entry, drop_session, remove_entry,
  evict_first, evict_oldest, first, make_room, new,
}
use hawse.Server.Udp.Table.Agree.{Agrees, age_of, new-Agrees, drop_session-Agrees, touch-Agrees}
use hawse.Server.Udp.Table.Ages.{first-oldest, has-first_none}

-- The indexes agree, the table is within its cap (one session is always let in), and ids are u32.
pub record IsValid (t : SessionTable) : Type 0 where
  pub agrees : Agrees t
  pub within : size ℕ_discrete t.by_session ≤ max t.cap 1
  pub next_u32 : t.next < 2 ^ 32
  pub cap_u32 : t.cap < 2 ^ 32

pub new-IsValid : (cap idle : ℕ) → cap < 2 ^ 32 → IsValid (new cap idle)
unfolding new size
new-IsValid cap idle h = record {
  agrees = new-Agrees cap idle;
  within = omega arith;
  next_u32 = omega arith;
  cap_u32 = h;
}

-- What an operation leaves alone.
pub record Keeps (t t' : SessionTable) : Type 0 where
  pub cap : t'.cap ≡ t.cap
  pub idle : t'.idle ≡ t.idle
  pub next : t'.next ≡ t.next

pub drop_session-Keeps : (s : ℕ) (t : SessionTable) → Keeps t (drop_session s t)
unfolding drop_session remove_entry
drop_session-Keeps s t = record { cap = ground arith; idle = ground arith; next = ground arith }

pub touch-Keeps : (s now : ℕ) (t : SessionTable) → Keeps t (touch s now t)
unfolding touch touch_entry
touch-Keeps s now t = record { cap = ground arith; idle = ground arith; next = ground arith }

pub entry_of-drop :
    (x s : ℕ) (t : SessionTable)
    → entry_of (drop_session s t) x ≡ ite (ℕ_discrete s x) none (entry_of t x)
unfolding drop_session remove_entry
entry_of-drop x s t = ground (arith, get-remove ℕ_discrete x s t.by_session)

pub size-drop :
    (s : ℕ) (t : SessionTable)
    → entry_of t s ≢ none
    → size ℕ_discrete (drop_session s t).by_session < size ℕ_discrete t.by_session
unfolding drop_session remove_entry
size-drop s t h = ground (arith, size-remove-lt ℕ_discrete s t.by_session)

pub entry_of-touch :
    (x s now : ℕ) (e : Entry) (t : SessionTable)
    → entry_of t s ≡ some e
    → entry_of (touch s now t) x
      ≡ ite (ℕ_discrete s x) (some (record e { used = now })) (entry_of t x)
unfolding touch touch_entry
entry_of-touch x s now e t h =
    ground (arith, get-insert ℕ_discrete x s (record e { used = now }) t.by_session)

pub session_of-touch :
    (s now : ℕ) (v : SocketAddr) (t : SessionTable) → session_of (touch s now t) v ≡ session_of t v
unfolding touch touch_entry
session_of-touch s now v t = ground arith

size-touch :
    (s now : ℕ) (t : SessionTable)
    → size ℕ_discrete (touch s now t).by_session ≡ size ℕ_discrete t.by_session
unfolding touch touch_entry
size-touch s now t = elim (Option-cases (entry_of t s)) [
  | inl e ↦ rw e
  | inr (d, e) ↦ rw e (
      size-insert_old ℕ_discrete s (record d { used = now }) t.by_session
        λ none_there. ground arith)
]

pub touch-IsValid : (s now : ℕ) (t : SessionTable) → IsValid t → IsValid (touch s now t)
touch-IsValid s now t v =
    let k = touch-Keeps s now t in
    record {
      agrees = touch-Agrees t v.agrees s now;
      within = omega (arith, size-touch s now t, v.within, k.cap);
      next_u32 = omega (arith, v.next_u32, k.next);
      cap_u32 = omega (arith, v.cap_u32, k.cap);
    }

pub drop_session-IsValid :
    (s : ℕ) (t : SessionTable) → entry_of t s ≢ none → IsValid t → IsValid (drop_session s t)
drop_session-IsValid s t held v =
    let k = drop_session-Keeps s t in
    record {
      agrees = drop_session-Agrees t v.agrees s;
      within = omega (arith, size-drop s t held, v.within, k.cap);
      next_u32 = omega (arith, v.next_u32, k.next);
      cap_u32 = omega (arith, v.cap_u32, k.cap);
    }

-- `s` is the session that has been quiet for the longest.
pub record Oldest (t : SessionTable) (s : ℕ) (e : Entry) : Type 0 where
  pub held : entry_of t s ≡ some e
  pub none_older : (x : ℕ) (d : Entry) → entry_of t x ≡ some d → e.used ≤ d.used

pub first-Oldest :
    (t : SessionTable) (a : Age)
    → Agrees t
    → first t.by_age ≡ some a
    → (e : Entry) × (e.used ≡ a.at) × Oldest t a.session e
first-Oldest t a g h =
    let there = (first-oldest a a t.by_age g.oldest_first h).0 in
    let (e, he, hu) = g.age_entry a there in
    (
      e,
      hu,
      record {
        held = he;
        none_older = λ x d hx.
            rw hu ((first-oldest a (age_of x d) t.by_age g.oldest_first h).1 (g.entry_age x d hx));
      },
    )

-- What `make_room` gives: nothing happens, or the oldest session of a full table goes.
pub data Roomy (t : SessionTable) : Bool × SessionTable → Type 0 where
  had_room : Roomy t (false, t)
  evicts :
      (s : ℕ) (e : Entry)
      → Oldest t s e
      → t.cap ≤ size ℕ_discrete t.by_session
      → Roomy t (true, drop_session s t)

pub record MadeRoom (t : SessionTable) (r : Bool × SessionTable) : Type 0 where
  pub how : Roomy t r
  pub valid : IsValid (r.1)
  pub space : size ℕ_discrete (r.1).by_session < max (r.1).cap 1
  pub keeps : Keeps t (r.1)

pub empty-first :
    (t : SessionTable) → Agrees t → first t.by_age ≡ none → (s : ℕ) → entry_of t s ≡ none
empty-first t g h s = elim (Option-cases (entry_of t s)) [
  | inl e ↦ e
  | inr (d, e) ↦ absurd (ground (arith, g.entry_age s d e, has-first_none (age_of s d) t.by_age h))
]

evict_first-MadeRoom :
    (t : SessionTable) (o : Option Age)
    → IsValid t
    → first t.by_age ≡ o
    → t.cap ≤ size ℕ_discrete t.by_session
    → MadeRoom t (evict_first o t)
unfolding evict_first
evict_first-MadeRoom t none v h full =
    let none_there = size-eq-zero ℕ_discrete t.by_session (empty-first t v.agrees h) in
    record {
      how = had_room;
      valid = v;
      space = omega arith;
      keeps = record { cap = refl; idle = refl; next = refl };
    }
evict_first-MadeRoom t (some a) v h full =
    let (e, hu, oldest) = first-Oldest t a v.agrees h in
    let held : entry_of t a.session ≢ none = λ gone. ground (arith, oldest.held) in
    let valid = drop_session-IsValid a.session t held v in
    let keeps = drop_session-Keeps a.session t in
    record {
      how = evicts a.session e oldest full;
      valid = valid;
      space = omega (arith, size-drop a.session t held, v.within, keeps.cap);
      keeps = keeps;
    }

pub make_room-MadeRoom : (t : SessionTable) → IsValid t → MadeRoom t (make_room t)
unfolding make_room evict_oldest
make_room-MadeRoom t v = elim (Bool-cases (leb t.cap (size ℕ_discrete t.by_session))) [
  | inl full ↦ rw full (evict_first-MadeRoom t (first t.by_age) v refl (ground arith))
  | inr room ↦ rw room (record {
    how = had_room;
    valid = v;
    space = ground arith;
    keeps = record { cap = refl; idle = refl; next = refl };
  })
]
