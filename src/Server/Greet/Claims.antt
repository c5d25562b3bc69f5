-- ===== src/Server/Greet/Claims.antt =====
-- The claims of a key, one after another.
use hawse.Base.{
  ℕ, ◌≡◌, ◌≢◌, refl, sym, ap, ◌∙◌, Option, none, some, ite, ℕ_discrete, arith, Option-cases, inl,
  inr,
}
use hawse.Base.Dict.{get, insert, get-insert, get-remove}
use hawse.Proto.Key.{PublicKey, key_discrete}
use hawse.Server.Greet.{Sessions, stake, drop_held, drop_claim}

-- The key is given up by the session that holds it and by no other, and no other key is.
abbrev pub freed : PublicKey → ℕ → PublicKey → Option ℕ → Option ℕ
freed k live j none = none
freed k live j (some held) =
    ite (key_discrete k j) (ite (ℕ_discrete held live) none (some held)) (some held)

get-drop_claim :
    (k j : PublicKey) (live : ℕ) (m : Sessions)
    → get key_discrete j (drop_claim k live m) ≡ freed k live j (get key_discrete j m)
unfolding drop_claim drop_held
get-drop_claim k j live m =
    let same : k ≡ j → get key_discrete j m ≡ get key_discrete k m =
      λ e. ap (λ i. get key_discrete i m) (sym e) in
    elim (Option-cases (get key_discrete k m)) [
      | inl e ↦ elim (Option-cases (get key_discrete j m)) [
        | inl g ↦ rw (e, g) refl
        | inr (h, g) ↦ rw (e, g) (ground (arith, same))
      ]
      | inr (h, e) ↦ elim (Option-cases (get key_discrete j m)) [
        | inl g ↦ rw (e, g) (ground (arith, same, get-remove key_discrete j k m))
        | inr (h', g) ↦ rw (e, g) (ground (arith, same, get-remove key_discrete j k m))
      ]
    ]

freed-other :
    (k j : PublicKey) (old new : ℕ) (o : Option ℕ)
    → old ≢ new
    → freed k old j (ite (key_discrete k j) (some new) o) ≡ ite (key_discrete k j) (some new) o
freed-other k j old new o ne = elim (key_discrete k j) [
  | yes e ↦ ground arith
  | no n ↦ elim (Option-cases o) [ inl x ↦ rw x (ground arith) | inr (h, x) ↦ rw x (ground arith) ]
]

freed-own :
    (k j : PublicKey) (new : ℕ) (o : Option ℕ)
    → freed k new j (ite (key_discrete k j) (some new) o) ≡ ite (key_discrete k j) none o
freed-own k j new o = elim (key_discrete k j) [
  | yes e ↦ ground arith
  | no n ↦ elim (Option-cases o) [ inl x ↦ rw x (ground arith) | inr (h, x) ↦ rw x (ground arith) ]
]

-- A session that takes over a key learns who held it and is its live session from then on. The drop of
-- the claim of the session before does not give the key up, which its own drop does; no other key is
-- touched by any of it.
stake-drop :
    (k j : PublicKey) (old new : ℕ) (m : Sessions)
    → old ≢ new
    → get key_discrete k m ≡ some old
    → let r = stake k new m in
      (r.0 ≡ some old)
      × (get key_discrete j (drop_claim k old r.1)
          ≡ ite (key_discrete k j) (some new) (get key_discrete j m))
      × (get key_discrete j (drop_claim k new (drop_claim k old r.1))
          ≡ ite (key_discrete k j) none (get key_discrete j m))
unfolding stake
stake-drop k j old new m ne h =
    let r = insert key_discrete k new m in
    let a = get-insert key_discrete j k new m in
    let b = get-drop_claim k j old r ∙ ap (freed k old j) a ∙ freed-other k j old new _ ne in
    let d =
      get-drop_claim k j new (drop_claim k old r) ∙ ap (freed k new j) b ∙ freed-own k j new _ in
    (h, b, d)
