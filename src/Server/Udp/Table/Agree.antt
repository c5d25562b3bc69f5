-- ===== src/Server/Udp/Table/Agree.antt =====
-- The three indexes of the table never disagree.
use hawse.Base.{
  ℕ, ◌≡◌, ◌≢◌, sym, ap, Bool, true, none, some, arith, ℕ_discrete, Option-cases, inl, inr,
}
use hawse.Base.Dict.{get, get-insert, get-remove}
use hawse.Base.Net.{SocketAddr, socket_addr_discrete}
use hawse.Base.Sets.{has, delete, has-delete}
use hawse.Server.Udp.Table.{
  Entry, Age, age_discrete, SessionTable, session_of, entry_of, touch, touch_entry, drop_session,
  remove_entry, new, enter,
}
use hawse.Server.Udp.Table.Ages.{has-insert_age, Sorted, insert_age-Sorted, delete-Sorted}

abbrev pub age_of : ℕ → Entry → Age
age_of s e = record { at = e.used; session = s }

abbrev pub aged : SessionTable → Age → Bool
aged t a = has age_discrete a t.by_age

-- `check` of the source: each session's entry is under its visitor and has its age, and there is
-- nothing else in the other two indexes.
pub record Agrees (t : SessionTable) : Type 0 where
  pub entry_visitor : (s : ℕ) (e : Entry) → entry_of t s ≡ some e → session_of t e.visitor ≡ some s
  pub visitor_entry :
      (v : SocketAddr) (s : ℕ)
      → session_of t v ≡ some s
      → (e : Entry) × (entry_of t s ≡ some e) × (e.visitor ≡ v)
  pub entry_age : (s : ℕ) (e : Entry) → entry_of t s ≡ some e → aged t (age_of s e) ≡ true
  pub age_entry :
      (a : Age) → aged t a ≡ true → (e : Entry) × (entry_of t a.session ≡ some e) × (e.used ≡ a.at)
  pub oldest_first : Sorted t.by_age

pub new-Agrees : (cap idle : ℕ) → Agrees (new cap idle)
unfolding new get has
new-Agrees cap idle = record {
  entry_visitor = λ s e h. cc;
  visitor_entry = λ v s h. absurd (cc);
  entry_age = λ s e h. cc;
  age_entry = λ a h. absurd (cc);
  oldest_first = tt;
}

age_eq : (s : ℕ) (e : Entry) (a : Age) → e.used ≡ a.at → s ≡ a.session → age_of s e ≡ a
age_eq s e a p q = λ i. record { at = p i; session = q i }

module _ (t : SessionTable) (g : Agrees t) (s : ℕ) (e : Entry) (held : entry_of t s ≡ some e) where
  -- Removal of a session that is there.
  remove_entry-Agrees : Agrees (remove_entry s (some e) t)
  unfolding remove_entry
  remove_entry-Agrees = record {
    entry_visitor = λ x d h. ground (
      arith,
      get-remove ℕ_discrete x s t.by_session,
      get-remove socket_addr_discrete d.visitor e.visitor t.by_visitor,
      g.entry_visitor x d,
      g.entry_visitor s e held,
    );
    visitor_entry = λ v x h.
        let law = get-remove socket_addr_discrete v e.visitor t.by_visitor in
        let old : session_of t v ≡ some x = ground (arith, law) in
        let (d, hd, hv) = g.visitor_entry v x old in
        (d, ground (arith, law, get-remove ℕ_discrete x s t.by_session), hv);
    entry_age = λ x d h. ground (
      arith,
      get-remove ℕ_discrete x s t.by_session,
      has-delete age_discrete (age_of s e) (age_of x d) t.by_age,
      g.entry_age x d,
    );
    age_entry = λ a h.
        let law = has-delete age_discrete (age_of s e) a t.by_age in
        let old : aged t a ≡ true = ground (arith, law) in
        let (d, hd, hu) = g.age_entry a old in
        let moved : a.session ≢ s = λ same.
          let one : age_of s e ≡ a = age_eq s e a (ground arith) (sym same) in
          ground (arith, law) in
        (d, ground (arith, get-remove ℕ_discrete a.session s t.by_session), hu);
    oldest_first = delete-Sorted (age_of s e) t.by_age g.oldest_first;
  }

  -- A touch of a session that is there.
  touch_entry-Agrees : (now : ℕ) → Agrees (touch_entry s now (some e) t)
  unfolding touch_entry
  touch_entry-Agrees now = record {
    entry_visitor = λ x d h. ground (
      arith,
      get-insert ℕ_discrete x s (record e { used = now }) t.by_session,
      g.entry_visitor x d,
      g.entry_visitor s e held,
    );
    visitor_entry = λ v x h.
        let law = get-insert ℕ_discrete x s (record e { used = now }) t.by_session in
        let (d, hd, hv) = g.visitor_entry v x h in
        elim (ℕ_discrete s x) [
          | yes same ↦ (record e { used = now }, ground (arith, law), ground arith)
          | no other ↦ (d, ground (arith, law), hv)
        ];
    entry_age = λ x d h. ground (
      arith,
      get-insert ℕ_discrete x s (record e { used = now }) t.by_session,
      has-insert_age (record { at = now; session = s }) (age_of x d)
          (delete age_discrete (age_of s e) t.by_age),
      has-delete age_discrete (age_of s e) (age_of x d) t.by_age,
      g.entry_age x d,
    );
    age_entry = λ a h.
        let law = get-insert ℕ_discrete a.session s (record e { used = now }) t.by_session in
        let put =
          has-insert_age (record { at = now; session = s }) a
            (delete age_discrete (age_of s e) t.by_age) in
        let gone = has-delete age_discrete (age_of s e) a t.by_age in
        elim (ℕ_discrete s a.session) [
          | yes same ↦
              let found : now ≡ a.at = elim (age_discrete (record { at = now; session = s }) a) [
                | yes p ↦ ap (λ (b : Age). b.at) p
                | no new_age ↦
                    let old : aged t a ≡ true = ground (arith, put, gone) in
                    let (d, hd, hu) = g.age_entry a old in
                    let one : age_of s e ≡ a = age_eq s e a (ground arith) same in
                    absurd (ground (arith, put, gone))
              ] in
              (record e { used = now }, ground (arith, law), found)
          | no other ↦
              let old : aged t a ≡ true = ground (arith, put, gone) in
              let (d, hd, hu) = g.age_entry a old in (d, ground (arith, law), hu)
        ];
    oldest_first = insert_age-Sorted _ _ (delete-Sorted (age_of s e) t.by_age g.oldest_first);
  }

module _ (t : SessionTable) (g : Agrees t) where
  pub drop_session-Agrees : (s : ℕ) → Agrees (drop_session s t)
  unfolding drop_session
  drop_session-Agrees s = elim (Option-cases (entry_of t s)) [
    | inl e ↦ rw e (unfold remove_entry in g)
    | inr (d, e) ↦ rw e (remove_entry-Agrees t g s d e)
  ]

  pub touch-Agrees : (s now : ℕ) → Agrees (touch s now t)
  unfolding touch
  touch-Agrees s now = elim (Option-cases (entry_of t s)) [
    | inl e ↦ rw e (unfold touch_entry in g)
    | inr (d, e) ↦ rw e (touch_entry-Agrees t g s d e now)
  ]

  -- A session that is new, for a visitor that has none.
  pub enter-Agrees :
      (v : SocketAddr) (s now next : ℕ)
      → entry_of t s ≡ none
      → session_of t v ≡ none
      → Agrees (enter v s now next t)
  unfolding enter
  enter-Agrees v s now next free unknown = record {
    entry_visitor = λ x d h.
        let seen = g.entry_visitor x d in
        ground (
          arith,
          get-insert ℕ_discrete x s (record { visitor = v; used = now }) t.by_session,
          get-insert socket_addr_discrete d.visitor v s t.by_visitor,
          seen,
        );
    visitor_entry = λ w x h.
        let law = get-insert ℕ_discrete x s (record { visitor = v; used = now }) t.by_session in
        let put = get-insert socket_addr_discrete w v s t.by_visitor in
        elim (socket_addr_discrete v w) [
          | yes same ↦ (record { visitor = v; used = now }, ground (arith, law, put), same)
          | no other ↦
              let old : session_of t w ≡ some x = ground (arith, put) in
              let (d, hd, hv) = g.visitor_entry w x old in (d, ground (arith, law), hv)
        ];
    entry_age = λ x d h. ground (
      arith,
      get-insert ℕ_discrete x s (record { visitor = v; used = now }) t.by_session,
      has-insert_age (record { at = now; session = s }) (age_of x d) t.by_age,
      g.entry_age x d,
    );
    age_entry = λ a h.
        let law =
          get-insert ℕ_discrete a.session s (record { visitor = v; used = now }) t.by_session in
        let put = has-insert_age (record { at = now; session = s }) a t.by_age in
        elim (age_discrete (record { at = now; session = s }) a) [
          | yes same ↦ (
            record { visitor = v; used = now },
            ground (arith, law, ap (λ (b : Age). b.session) same),
            ap (λ (b : Age). b.at) same,
          )
          | no other ↦
              let old : aged t a ≡ true = ground (arith, put) in
              let (d, hd, hu) = g.age_entry a old in (d, ground (arith, law), hu)
        ];
    oldest_first = insert_age-Sorted (record { at = now; session = s }) t.by_age g.oldest_first;
  }
