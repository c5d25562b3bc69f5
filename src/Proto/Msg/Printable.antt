-- ===== src/Proto/Msg/Printable.antt =====
-- What `printable` leaves of a peer's text.
use hawse.Base.{
  ℕ, ◌≤◌, ◌≡◌, refl, [], ◌∷◌, false, All, length, take, arith, length-take, take_all, Bool-cases,
  inl, inr, zero, suc,
}
use hawse.Base.Text.{Text}
use hawse.Proto.Msg.{is_control, shown, printable}

abbrev pub IsClean : Text → Type 0
IsClean s = All (λ c. is_control c ≡ false) s

shown-IsClean : (s : Text) → IsClean (shown s)
unfolding shown
shown-IsClean [] = tt
shown-IsClean (c ∷ s) = elim (Bool-cases (is_control c)) [
  | inl e ↦ rw e (shown-IsClean s)
  | inr e ↦ let both : IsClean (c ∷ shown s) = (e, shown-IsClean s) in rw e both
]

take-IsClean : (n : ℕ) (s : Text) → IsClean s → IsClean (take n s)
take-IsClean zero s h = tt
take-IsClean (suc n) [] h = tt
take-IsClean (suc n) (c ∷ s) h = (h.0, take-IsClean n s h.1)

shown_clean : (s : Text) → IsClean s → shown s ≡ s
unfolding shown
shown_clean [] h = refl
shown_clean (c ∷ s) h = rw (h.0, shown_clean s h.1)

-- The text holds no control character and is at most 128 characters long.
abbrev pub IsPrintable : Text → Type 0
IsPrintable s = IsClean s × (length s ≤ 128)

pub printable-IsPrintable : (s : Text) → IsPrintable (printable s)
unfolding printable
printable-IsPrintable s =
    (take-IsClean 128 (shown s) (shown-IsClean s), omega (arith, length-take 128 (shown s)))

-- `printable` gives a text without control characters of at most 128 characters, and a text that is
-- one already comes through unchanged.
pub printable_lem : (s : Text) → IsPrintable (printable s) × (IsPrintable s → printable s ≡ s)
unfolding printable
printable_lem s = (printable-IsPrintable s, λ h. rw (shown_clean s h.0) (take_all 128 s h.1))
