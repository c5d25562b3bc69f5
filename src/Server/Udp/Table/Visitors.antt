-- ===== src/Server/Udp/Table/Visitors.antt =====
-- A packet from a visitor, and a reply to a session.
use hawse.Base.{
  ℕ, ◌^◌, ◌≤◌, ◌<◌, ◌≡◌, ◌≢◌, refl, sym, ap, ◌∙◌, inl, inr, Bool, true, false, Option, none, some,
  arith, ite, ℕ_discrete, max, Option-cases, ite_same, ite_other,
}
use hawse.Base.Dict.{size, get-insert, get-remove, size-insert_new}
use hawse.Base.Net.{SocketAddr, socket_addr_discrete}
use hawse.Server.Udp.Table.{
  Entry, SessionTable, Inbound, session_of, entry_of, touch, drop_session, remove_entry, claim_id,
  enter, admit, inbound, inbound_known, inbound_fresh, outbound, outbound_entry,
}
use hawse.Server.Udp.Table.Agree.{enter-Agrees}
use hawse.Server.Udp.Table.Ids.{claim_id_total}
use hawse.Server.Udp.Table.Room.{
  IsValid, Roomy, had_room, evicts, Oldest, make_room-MadeRoom, touch-IsValid, entry_of-touch,
  entry_of-drop,
}

-- What `inbound` does for a packet of `v` at the time `now`.
pub record Served (v : SocketAddr) (now : ℕ) (t : SessionTable) (r : Inbound) (t' : SessionTable)
    : Type 0 where
  pub valid : IsValid t'
  -- The session that it names routes replies to `v`, and counts as used now.
  pub routes : entry_of t' r.session ≡ some (record { visitor = v; used = now })
  -- A visitor that has a session keeps it, and then nobody is evicted.
  pub known :
      (s : ℕ) → session_of t v ≡ some s → (r.session ≡ s) × (r.fresh ≡ false) × (r.evicted ≡ false)
  -- One that has none gets a fresh one.
  pub unknown : session_of t v ≡ none → r.fresh ≡ true
  -- With no eviction every other session stays as it was.
  pub others : r.evicted ≡ false → (x : ℕ) → x ≢ r.session → entry_of t' x ≡ entry_of t x
  -- An eviction takes the oldest session of a full table, and no other goes.
  pub victim :
      r.evicted ≡ true
      → (s : ℕ) × (e : Entry) × Oldest t s e
        × (t.cap ≤ size ℕ_discrete t.by_session)
        × ((x : ℕ) → x ≢ r.session → entry_of t' x ≡ ite (ℕ_discrete s x) none (entry_of t x))

module _ (v : SocketAddr) (now : ℕ) (t : SessionTable) (ok : IsValid t) where
  entry_of-enter :
      (s next x : ℕ)
      → entry_of (enter v s now next t) x
        ≡ ite (ℕ_discrete s x) (some (record { visitor = v; used = now })) (entry_of t x)
  unfolding enter
  entry_of-enter s next x =
      get-insert ℕ_discrete x s (record { visitor = v; used = now }) t.by_session

  enter-IsValid :
      (s next : ℕ)
      → session_of t v ≡ none
      → size ℕ_discrete t.by_session < max t.cap 1
      → entry_of t s ≡ none
      → next < 2 ^ 32
      → IsValid (enter v s now next t)
  enter-IsValid s next unknown space free small = record {
    agrees = enter-Agrees t ok.agrees v s now next free unknown;
    within =
        unfold enter in
        omega (
          arith,
          size-insert_new ℕ_discrete s (record { visitor = v; used = now }) t.by_session free,
        );
    next_u32 = unfold enter in small;
    cap_u32 = unfold enter in ok.cap_u32;
  }

session_of-drop :
    (s : ℕ) (v : SocketAddr) (t : SessionTable)
    → session_of t v ≡ none
    → session_of (drop_session s t) v ≡ none
unfolding drop_session remove_entry
session_of-drop s v t h = elim (Option-cases (entry_of t s)) [
  | inl e ↦ rw e h
  | inr (d, e) ↦ rw e (ground (arith, get-remove socket_addr_discrete v d.visitor t.by_visitor))
]

abbrev Serves : SocketAddr → ℕ → SessionTable → Option (Inbound × SessionTable) → Type 0
Serves v now t o = (r : Inbound) × (t' : SessionTable) × (o ≡ some (r, t')) × Served v now t r t'

admit-Serves :
    (v : SocketAddr) (now : ℕ) (t : SessionTable) {r : Bool × SessionTable}
    → Roomy t r
    → IsValid (r.1)
    → size ℕ_discrete (r.1).by_session < max (r.1).cap 1
    → session_of t v ≡ none
    → Serves v now t (admit v now (r.0) (r.1) (claim_id (r.1)))
unfolding admit
admit-Serves v now t had_room ok space unknown =
    let (id, next, e, (free, small, small')) =
      claim_id_total t ok.next_u32 (omega (arith, ok.cap_u32)) in
    let law = entry_of-enter v now t ok id next in
    (
      record { session = id; fresh = true; evicted = false },
      enter v id now next t,
      rw e,
      record {
        valid = enter-IsValid v now t ok id next unknown space free small';
        routes = law id ∙ ite_same ℕ_discrete id _ _;
        known = λ s h. absurd (ground arith);
        unknown = λ _. refl;
        others = λ _ x ne. law x ∙ ite_other ℕ_discrete _ _ (λ same. ne (sym same));
        victim = λ h. absurd (ground arith);
      },
    )
admit-Serves v now t (evicts s d oldest full) ok space unknown =
    let t' = drop_session s t in
    let (id, next, e, (free, small, small')) =
      claim_id_total t' ok.next_u32 (omega (arith, ok.cap_u32)) in
    let law = entry_of-enter v now t' ok id next in
    (
      record { session = id; fresh = true; evicted = true },
      enter v id now next t',
      rw e,
      record {
        valid = enter-IsValid v now t' ok id next (session_of-drop s v t unknown) space free small';
        routes = law id ∙ ite_same ℕ_discrete id _ _;
        known = λ x h. absurd (ground arith);
        unknown = λ _. refl;
        others = λ h. absurd (ground arith);
        victim = λ _. (
          s,
          d,
          oldest,
          full,
          λ x ne. law x ∙ ite_other ℕ_discrete _ _ (λ same. ne (sym same)) ∙ entry_of-drop x s t,
        );
      },
    )

known-Serves :
    (v : SocketAddr) (now : ℕ) (t : SessionTable) (o : Option ℕ)
    → IsValid t
    → session_of t v ≡ o
    → Serves v now t (inbound_known v now t o)
unfolding inbound_known inbound_fresh
known-Serves v now t none ok h =
    let m = make_room-MadeRoom t ok in admit-Serves v now t m.how m.valid m.space h
known-Serves v now t (some s) ok h =
    let (e, held, same) = ok.agrees.visitor_entry v s h in
    let law = λ (x : ℕ). entry_of-touch x s now e t held in
    (
      record { session = s; fresh = false; evicted = false },
      touch s now t,
      refl,
      record {
        valid = touch-IsValid s now t ok;
        routes =
            law s
            ∙ ite_same ℕ_discrete s _ _
            ∙ ap (λ (w : SocketAddr). some (record { visitor = w; used = now })) same;
        known = λ x hx. (ground arith, refl, refl);
        unknown = λ gone. absurd (ground arith);
        others = λ _ x ne. law x ∙ ite_other ℕ_discrete _ _ (λ eq. ne (sym eq));
        victim = λ eq. absurd (ground arith);
      },
    )

-- A packet from any visitor ends with a session that routes replies to it and counts as used now: the
-- one it has, or a fresh one. Other sessions stay as they were, but for the oldest one of a full table,
-- which may be evicted, and the table stays valid.
pub inbound-Served :
    (v : SocketAddr) (now : ℕ) (t : SessionTable)
    → IsValid t
    → (r : Inbound) × (t' : SessionTable) × (inbound v now t ≡ some (r, t')) × Served v now t r t'
unfolding inbound
inbound-Served v now t ok = known-Serves v now t (session_of t v) ok refl

abbrev pub map_visitor : Option Entry → Option SocketAddr
map_visitor none = none
map_visitor (some e) = some e.visitor

abbrev pub used_at : ℕ → Option Entry → Option Entry
used_at now none = none
used_at now (some e) = some (record e { used = now })

-- A reply to a session goes to the visitor that has it, for whom that counts as use, and one to an
-- id that no session holds goes to nobody and changes nothing.
pub outbound-replies :
    (s now : ℕ) (t : SessionTable)
    → IsValid t
    → IsValid (outbound s now t).1
      × ((outbound s now t).0 ≡ map_visitor (entry_of t s))
      × ((x : ℕ)
          → entry_of (outbound s now t).1 x
            ≡ ite (ℕ_discrete s x) (used_at now (entry_of t s)) (entry_of t x))
unfolding outbound outbound_entry
outbound-replies s now t ok = elim (Option-cases (entry_of t s)) [
  | inl e ↦ rw e (ok, refl, λ x. ground (arith, e))
  | inr (d, e) ↦ rw e (touch-IsValid s now t ok, refl, λ x. entry_of-touch x s now d t e)
]
