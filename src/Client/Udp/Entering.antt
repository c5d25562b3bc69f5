-- ===== src/Client/Udp/Entering.antt =====
-- How the table of crates/hawse-core/src/client/udp.rs takes a new session in, and how one leaves it.
use hawse.Base.{
  if◌then◌else◌, ℕ, ◌≤◌, ◌<◌, ◌≡◌, ◌≢◌, refl, sym, ◌∙◌, [], ◌∷◌, Option, none, some, leb, ◌==◌, ite,
  arith, max, ℕ_discrete, Option-cases, Bool-cases, inl, inr, ◌⊎◌, ite_same, ite_other,
}
use hawse.Base.Dict.{
  Dict, size, Distinct, get-insert, get-remove, insert-Distinct, remove-Distinct, size-insert_new,
  size-remove-lt, size-remove-le,
}
use hawse.Udp.{bump}
use hawse.Client.Udp.{
  LocalSession, UdpLocal, held, quietest, evict, open_session, enter_held, enter, forget_held,
  forget,
}
use hawse.Client.Udp.Quietest.{IsQuietest, Answers, quietest-Answers}

size_empty : (m : Dict ℕ LocalSession) → m ≡ [] → size ℕ_discrete m ≡ 0
unfolding size
size_empty [] e = refl
size_empty (a ∷ m) e = absurd (ground arith)

-- One entry for each id, at most `cap` sessions (one is always let in), and every session made before
-- the count of them.
pub record IsTable (l : UdpLocal) : Type 0 where
  pub distinct : Distinct ℕ_discrete l.sessions
  pub within : size ℕ_discrete l.sessions ≤ max l.cap 1
  pub made : (x : ℕ) (s : LocalSession) → held x l ≡ some s → s.handle < l.handles
  pub one :
      (x y : ℕ) (s r : LocalSession)
      → held x l ≡ some s
      → held y l ≡ some r
      → s.handle ≡ r.handle
      → x ≡ y

-- What evicting did, if anything had to go: the quietest session of a full table, whose reader is
-- ended, is counted.
abbrev pub Evicted : ℕ → UdpLocal → UdpLocal → Type 0
Evicted id l l' =
    (v : ℕ) × (s : LocalSession) × IsQuietest l.sessions v s
    × (l'.cancelled ≡ s.handle ∷ l.cancelled)
    × (l'.sender.drops.at_cap ≡ bump l.sender.drops.at_cap)
    × ((x : ℕ) → x ≢ id → held x l' ≡ ite (ℕ_discrete v x) none (held x l))

-- Nothing went.
abbrev pub Unevicted : ℕ → UdpLocal → UdpLocal → Type 0
Unevicted id l l' =
    (l'.cancelled ≡ l.cancelled)
    × (l'.sender ≡ l.sender)
    × ((x : ℕ) → x ≢ id → held x l' ≡ held x l)

-- What `session` leaves once it has a socket for `id`: a session that another task opened meanwhile
-- stays as it is; without one a new session goes in, and only a full table loses one for it.
pub record Entered (id now : ℕ) (l l' : UdpLocal) : Type 0 where
  pub table : IsTable l'
  pub present : (s : LocalSession) × (held id l' ≡ some s)
  pub settled : (s : LocalSession) → held id l ≡ some s → l' ≡ l
  pub fresh : held id l ≡ none → held id l' ≡ some (record { handle = l.handles; used = now })
  pub room : size ℕ_discrete l.sessions < l.cap → Unevicted id l l'
  pub full :
      held id l ≡ none
      → l.cap ≤ size ℕ_discrete l.sessions
      → ((l.sessions ≡ []) × Unevicted id l l') ⊎ Evicted id l l'

module _ (id now : ℕ) (l : UdpLocal) (g : IsTable l) (new : held id l ≡ none) where
  open_session-held :
      (x : ℕ)
      → held x (open_session id now l)
        ≡ ite (ℕ_discrete id x) (some (record { handle = l.handles; used = now })) (held x l)
  unfolding open_session
  open_session-held x =
      get-insert ℕ_discrete x id (record { handle = l.handles; used = now }) l.sessions

  open_session-IsTable : size ℕ_discrete l.sessions < max l.cap 1 → IsTable (open_session id now l)
  unfolding open_session
  open_session-IsTable space = record {
    distinct =
        insert-Distinct ℕ_discrete id (record { handle = l.handles; used = now }) l.sessions
          g.distinct;
    within = omega (
      arith,
      size-insert_new ℕ_discrete id (record { handle = l.handles; used = now }) l.sessions new,
    );
    made = λ x s h. ground (arith, g.made x s, open_session-held x);
    one = λ x y s r h k e.
        ground
          (arith, g.one x y s r, g.made x s, g.made y r, open_session-held x, open_session-held y);
  }

module _ (l : UdpLocal) (g : IsTable l) (v : ℕ) (s : LocalSession) (there : held v l ≡ some s) where
  evict-held : (x : ℕ) → held x (evict (some (v, s)) l) ≡ ite (ℕ_discrete v x) none (held x l)
  unfolding evict
  evict-held x = get-remove ℕ_discrete x v l.sessions

  evict-IsTable :
      IsTable (evict (some (v, s)) l)
      × (size ℕ_discrete (evict (some (v, s)) l).sessions < size ℕ_discrete l.sessions)
  unfolding evict
  evict-IsTable = (
    record {
      distinct = remove-Distinct ℕ_discrete v l.sessions g.distinct;
      within = omega (arith, g.within, size-remove-le ℕ_discrete v l.sessions);
      made = λ x r h. ground (arith, g.made x r, get-remove ℕ_discrete x v l.sessions);
      one = λ x y a b h k e. ground (arith, g.one x y a b, evict-held x, evict-held y);
    },
    size-remove-lt ℕ_discrete v l.sessions (ground arith),
  )

module _ (id now : ℕ) (l : UdpLocal) (g : IsTable l) (new : held id l ≡ none) where
  -- A table that loses `v` for the new session.
  evict-Entered :
      (v : ℕ) (s : LocalSession)
      → l.cap ≤ size ℕ_discrete l.sessions
      → IsQuietest l.sessions v s
      → Entered id now l (open_session id now (evict (some (v, s)) l))
  unfolding evict
  evict-Entered v s crowded oldest =
      let l' : UdpLocal = evict (some (v, s)) l in
      let (g', less) = evict-IsTable l g v s oldest.0 in
      let gone : held id l' ≡ none = ground (arith, evict-held l g v s oldest.0 id) in
      let law = open_session-held id now l' g' gone in
      record {
        table = open_session-IsTable id now l' g' gone (omega (arith, less, g.within));
        present = (record { handle = l.handles; used = now }, law id ∙ ite_same ℕ_discrete id _ _);
        settled = λ r h. absurd (ground arith);
        fresh = λ h. law id ∙ ite_same ℕ_discrete id _ _;
        room = λ h. absurd (omega (arith, crowded));
        full = λ h c. inr (
          v,
          s,
          oldest,
          unfold open_session in refl,
          unfold open_session in refl,
          λ x other.
              law x
              ∙ ite_other ℕ_discrete _ _ (λ same. other (sym same))
              ∙ evict-held l g v s oldest.0 x,
        );
      }

  room-Entered :
      size ℕ_discrete l.sessions < max l.cap 1
      → (l.cap ≤ size ℕ_discrete l.sessions → l.sessions ≡ [])
      → Entered id now l (open_session id now l)
  unfolding open_session
  room-Entered space empty =
      let law = open_session-held id now l g new in
      let others : Unevicted id l (open_session id now l) =
        (refl, refl, λ x other. law x ∙ ite_other ℕ_discrete _ _ (λ same. other (sym same))) in
      record {
        table = open_session-IsTable id now l g new space;
        present = (record { handle = l.handles; used = now }, law id ∙ ite_same ℕ_discrete id _ _);
        settled = λ r h. absurd (ground arith);
        fresh = λ h. law id ∙ ite_same ℕ_discrete id _ _;
        room = λ h. others;
        full = λ h c. inl (empty c, others);
      }

  crowded-Entered :
      (o : Option (ℕ × LocalSession))
      → l.cap ≤ size ℕ_discrete l.sessions
      → Answers l.sessions o
      → Entered id now l (open_session id now (evict o l))
  crowded-Entered none crowded empty =
      let zero : size ℕ_discrete l.sessions ≡ 0 = size_empty l.sessions empty in
      unfold evict in room-Entered (omega (arith, zero)) (λ c. empty)
  crowded-Entered (some (v, s)) crowded oldest = evict-Entered v s crowded oldest

  enter_new-Entered : Entered id now l (enter_held id now none l)
  unfolding enter_held
  enter_new-Entered = elim (Bool-cases (leb l.cap (size ℕ_discrete l.sessions))) [
    | inl full ↦ rw full (
        crowded-Entered (quietest l.sessions) (ground arith)
          (quietest-Answers l.sessions g.distinct))
    | inr less ↦ rw less (room-Entered (ground arith) (λ c. absurd (ground arith)))
  ]

-- A task that has a socket for `id` leaves the table valid with a session under `id`: the one that is
-- there, or a fresh one, for which only a full table loses a session, its quietest.
pub enter-Entered : (id now : ℕ) (l : UdpLocal) → IsTable l → Entered id now l (enter id now l)
unfolding enter
enter-Entered id now l g = elim (Option-cases (held id l)) [
  | inl new ↦ rw new (enter_new-Entered id now l g new)
  | inr (s, there) ↦ rw there (
      unfold enter_held in
      record {
        table = g;
        present = (s, there);
        settled = λ r h. refl;
        fresh = λ h. absurd (ground arith);
        room = λ h. (refl, refl, λ x other. refl);
        full = λ h. absurd (ground arith);
      })
]

forget_held-IsTable :
    (id handle : ℕ) (s : LocalSession) (l : UdpLocal)
    → IsTable l
    → IsTable (forget_held id handle (some s) l)
unfolding forget_held
forget_held-IsTable id handle s l g = elim (Bool-cases (s.handle == handle)) [
  | inl e ↦ rw e record {
    distinct = remove-Distinct ℕ_discrete id l.sessions g.distinct;
    within = omega (arith, g.within, size-remove-le ℕ_discrete id l.sessions);
    made = λ x r h. ground (arith, g.made x r, get-remove ℕ_discrete x id l.sessions);
    one = λ x y a b h k e. ground (
      arith,
      g.one x y a b,
      get-remove ℕ_discrete x id l.sessions,
      get-remove ℕ_discrete y id l.sessions,
    );
  }
  | inr e ↦ rw e g
]

-- What a reader of the session `handle` leaves of the entry under its id.
abbrev pub remaining : ℕ → Option LocalSession → Option LocalSession
remaining handle none = none
remaining handle (some s) = if s.handle == handle then none else some s

-- A reader that ends takes its own session out of the table and no other: where its id has gone to a
-- successor, that stays.
pub forget-Forgets :
    (id handle : ℕ) (l : UdpLocal)
    → IsTable l
    → IsTable (forget id handle l)
      × ((x : ℕ)
          → held x (forget id handle l)
            ≡ ite (ℕ_discrete id x) (remaining handle (held id l)) (held x l))
unfolding forget
forget-Forgets id handle l g = elim (Option-cases (held id l)) [
  | inl gone ↦ rw gone (unfold forget_held in g, λ x. unfold forget_held in ground (arith, gone))
  | inr (s, there) ↦ rw there (
    forget_held-IsTable id handle s l g,
    λ x. elim (Bool-cases (s.handle == handle)) [
      | inl own ↦ unfold forget_held in rw own (get-remove ℕ_discrete x id l.sessions)
      | inr foreign ↦ unfold forget_held in rw foreign ground (arith, there)
    ],
  )
]
