-- ===== src/Server/Udp/Table/Ids.antt =====
-- `claim_id` ends, and the id that it gives no live session holds.
use hawse.Base.{
  ℕ, zero, suc, ◌+◌, ◌%◌, ◌^◌, ◌<◌, ◌≡◌, ◌≢◌, none, some, arith, ℕ_discrete, Option-cases, inl, inr,
}
use hawse.Base.Dict.{size, size-ge-keys}
use hawse.Server.Udp.Table.{SessionTable, entry_of, find_id, claim_id}

find_id-stuck :
    (fuel next : ℕ) (t : SessionTable)
    → next < 2 ^ 32
    → find_id fuel next t ≡ none
    → (j : ℕ) → j < fuel
    → entry_of t ((next + j) % 2 ^ 32) ≢ none
unfolding find_id
find_id-stuck zero next t small e j h = absurd (omega arith)
find_id-stuck (suc fuel) next t small e zero h =
    let here : (next + 0) % 2 ^ 32 ≡ next = omega arith in rw here λ free. ground (arith, free)
find_id-stuck (suc fuel) next t small e (suc j) h =
    let there : ((next + 1) % 2 ^ 32 + j) % 2 ^ 32 ≡ (next + suc j) % 2 ^ 32 = omega arith in
    elim (Option-cases (entry_of t next)) [
      | inl free ↦ absurd (ground (arith, free))
      | inr (d, held) ↦ rw (← there) (
          find_id-stuck fuel ((next + 1) % 2 ^ 32) t (omega arith) (rw (held, find_id) at e) j
            (omega arith))
    ]

-- The id is a u32 that no live session holds, and so is the counter that it leaves.
pub find_id-free :
    (fuel next : ℕ) (t : SessionTable) (id next' : ℕ)
    → next < 2 ^ 32
    → find_id fuel next t ≡ some (id, next')
    → (entry_of t id ≡ none) × (id < 2 ^ 32) × (next' < 2 ^ 32)
unfolding find_id
find_id-free zero next t id next' small e = cc
find_id-free (suc fuel) next t id next' small e =
    ground (arith, find_id-free fuel ((next + 1) % 2 ^ 32) t id next')

-- Where fewer than all 2^32 ids are held, the loop of `claim_id` ends with an id that is free, and the
-- counter stays a u32.
pub claim_id_total :
    (t : SessionTable)
    → t.next < 2 ^ 32
    → size ℕ_discrete t.by_session < 2 ^ 32
    → (id : ℕ) × (next : ℕ) × (claim_id t ≡ some (id, next))
      × ((entry_of t id ≡ none) × (id < 2 ^ 32) × (next < 2 ^ 32))
unfolding claim_id
claim_id_total t small few =
    let n = suc (size ℕ_discrete t.by_session) in
    elim (Option-cases (find_id n t.next t)) [
      | inl e ↦
          let crowd =
            size-ge-keys ℕ_discrete n (λ j. (t.next + j) % 2 ^ 32) t.by_session
              (λ i j p q same. omega arith) (find_id-stuck n t.next t small e) in
          absurd (omega arith)
      | inr ((id, next), e) ↦ (id, next, e, find_id-free n t.next t id next small e)
    ]
