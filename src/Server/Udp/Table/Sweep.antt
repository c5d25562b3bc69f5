-- ===== src/Server/Udp/Table/Sweep.antt =====
-- A sweep removes the sessions that were idle for the full time, and only those.
use hawse.Base.{
  ℕ, zero, suc, ◌+◌, ◌-◌, ◌≤◌, ◌<◌, ◌≡◌, ◌≢◌, refl, ◌∙◌, inl, inr, false, Option, none, some, arith,
  ℕ_discrete, ltb, if◌then◌else◌, Option-cases, Bool-cases, length, ite_same, ite_other,
}
use hawse.Base.Dict.{size}
use hawse.Server.Udp.Table.{
  Entry, SessionTable, entry_of, drop_session, remove_entry, first, sweep_loop, sweep,
}
use hawse.Server.Udp.Table.Ages.{length-delete-lt}
use hawse.Server.Udp.Table.Agree.{Agrees, age_of}
use hawse.Server.Udp.Table.Room.{
  IsValid, first-Oldest, empty-first, drop_session-IsValid, drop_session-Keeps, entry_of-drop,
  size-drop,
}

-- What a sweep at `now` leaves of an entry.
abbrev pub unexpired : ℕ → ℕ → Option Entry → Option Entry
unexpired now idle none = none
unexpired now idle (some e) = if ltb (now - e.used) idle then some e else none

-- The table `t'` is `t` without what had expired, and `n` sessions at most went.
pub record Swept (now : ℕ) (t : SessionTable) (removed n : ℕ) (t' : SessionTable) : Type 0 where
  pub valid : IsValid t'
  pub exact : (x : ℕ) → entry_of t' x ≡ unexpired now t.idle (entry_of t x)
  pub counted : n + size ℕ_discrete t'.by_session ≤ removed + size ℕ_discrete t.by_session

fewer_ages :
    (t : SessionTable) (s : ℕ) (e : Entry)
    → Agrees t
    → entry_of t s ≡ some e
    → length (drop_session s t).by_age < length t.by_age
unfolding drop_session
fewer_ages t s e g h =
    rw h (unfold remove_entry in length-delete-lt (age_of s e) t.by_age (g.entry_age s e h))

unexpired-fresh :
    (now at idle : ℕ) (o : Option Entry)
    → now - at < idle
    → ((d : Entry) → o ≡ some d → at ≤ d.used)
    → o ≡ unexpired now idle o
unexpired-fresh now at idle none h k = refl
unexpired-fresh now at idle (some d) h k = ground (arith, k d refl)

drop_unexpired :
    (now x s : ℕ) (d : Entry) (t : SessionTable)
    → entry_of t s ≡ some d
    → ltb (now - d.used) t.idle ≡ false
    → unexpired now (drop_session s t).idle (entry_of (drop_session s t) x)
      ≡ unexpired now t.idle (entry_of t x)
drop_unexpired now x s d t h old = elim (ℕ_discrete s x) [
  | yes same ↦ rw (← same, entry_of-drop s s t, ite_same ℕ_discrete s none (entry_of t s), h, old)
  | no other ↦ rw (
    entry_of-drop x s t,
    (drop_session-Keeps s t).idle,
    ite_other ℕ_discrete none (entry_of t x) other,
  )
]

loop-Swept :
    (fuel now removed : ℕ) (t : SessionTable)
    → IsValid t
    → length t.by_age < fuel
    → Swept now t removed (sweep_loop fuel now removed t).0 (sweep_loop fuel now removed t).1
unfolding sweep_loop
loop-Swept zero now removed t v h = absurd (omega arith)
loop-Swept (suc fuel) now removed t v h = elim (Option-cases (first t.by_age)) [
  | inl e ↦
      rw (e, sweep_loop)
        (record { valid = v; exact = λ x. rw (empty-first t v.agrees e x); counted = omega arith })
  | inr (a, e) ↦
      let (d, hu, oldest) = first-Oldest t a v.agrees e in
      elim (Bool-cases (ltb (now - a.at) t.idle)) [
        | inl fresh ↦
            rw (e, fresh, sweep_loop)
              (record {
                valid = v;
                exact = λ x.
                    unexpired-fresh now a.at t.idle (entry_of t x) (ground arith)
                      λ b hb. rw (← hu) (oldest.none_older x b hb);
                counted = omega arith;
              })
        | inr old ↦
            let s = a.session in
            let held : entry_of t s ≢ none = λ gone. ground (arith, oldest.held) in
            let t' = drop_session s t in
            let ih =
              loop-Swept fuel now (removed + 1) t' (drop_session-IsValid s t held v)
                (omega (arith, fewer_ages t s d v.agrees oldest.held)) in
            let idle = (drop_session-Keeps s t).idle in
            rw (e, old, sweep_loop)
              (record {
                valid = ih.valid;
                exact = λ x. ih.exact x ∙ drop_unexpired now x s d t oldest.held (ground arith);
                counted = omega (arith, ih.counted, size-drop s t held);
              })
      ]
]

-- After a sweep the table is valid and holds exactly the sessions that had been used within `idle`.
pub sweep-Swept :
    (now : ℕ) (t : SessionTable) → IsValid t → Swept now t 0 (sweep now t).0 (sweep now t).1
unfolding sweep
sweep-Swept now t v = loop-Swept (suc (length t.by_age)) now 0 t v (omega arith)
