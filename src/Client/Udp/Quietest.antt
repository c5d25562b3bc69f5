-- ===== src/Client/Udp/Quietest.antt =====
-- `quietest` of crates/hawse-core/src/client/udp.rs finds a session that no other is older than.
use hawse.Base.{
  ℕ, ◌≤◌, ◌≡◌, refl, [], ◌∷◌, Option, none, some, leb, arith, ℕ_discrete, Bool-cases, inl, inr,
}
use hawse.Base.Dict.{Dict, get, Distinct}
use hawse.Client.Udp.{LocalSession, quieter, quietest}

-- The session `s` is in the table under `id`, and none in it was used longer ago.
abbrev pub IsQuietest : Dict ℕ LocalSession → ℕ → LocalSession → Type 0
IsQuietest m id s =
    (get ℕ_discrete id m ≡ some s)
    × ((x : ℕ) (r : LocalSession) → get ℕ_discrete x m ≡ some r → s.used ≤ r.used)

-- What `quietest` may answer.
abbrev pub Answers : Dict ℕ LocalSession → Option (ℕ × LocalSession) → Type 0
Answers m none = m ≡ []
Answers m (some (id, s)) = IsQuietest m id s

quieter-Answers :
    (id : ℕ) (s : LocalSession) (m : Dict ℕ LocalSession) (o : Option (ℕ × LocalSession))
    → get ℕ_discrete id m ≡ none
    → Answers m o
    → Answers ((id, s) ∷ m) (quieter id s o)
unfolding quieter get
quieter-Answers id s m none new e = (ground arith, λ x r h. ground (arith, e))
quieter-Answers id s m (some (other, q)) new (here, oldest) =
    elim (Bool-cases (leb s.used q.used)) [
      | inl older ↦ rw older (ground arith, λ x r h. ground (arith, oldest x r))
      | inr newer ↦ rw newer (ground arith, λ x r h. ground (arith, oldest x r))
    ]

pub quietest-Answers : (m : Dict ℕ LocalSession) → Distinct ℕ_discrete m → Answers m (quietest m)
unfolding quietest
quietest-Answers [] d = refl
quietest-Answers ((id, s) ∷ m) d = quieter-Answers id s m (quietest m) d.0 (quietest-Answers m d.1)
