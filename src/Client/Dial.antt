-- ===== src/Client/Dial.antt =====
-- crates/hawse-core/src/client/mod.rs: dialing the server's addresses in turn.
use hawse.Base.{◌≡◌, refl, ap, ◌⊎◌, inl, inr, List, [], ◌∷◌, ◌++◌}
use hawse.Base.Net.{SocketAddr}
use hawse.Client.Race.{Result, ok, err}

Result-cases : {T E : Type 0} (r : Result T E) → ((t : T) × (r ≡ ok t)) ⊎ ((e : E) × (r ≡ err e))
Result-cases (ok t) = inl (t, refl)
Result-cases (err e) = inr (e, refl)

module _ {T E : Type 0} (dial : SocketAddr → Result T E) where
  -- The loop of `dial_each` from `failed` on.
  unfoldable pub dial_from : E → List SocketAddr → Result (SocketAddr × T) E
  dial_from failed [] = err failed
  dial_from failed (remote ∷ addrs) = elim (dial remote) [
    | ok dialed ↦ ok (remote, dialed)
    | err e ↦ dial_from e addrs
  ]

  unfoldable pub dial_each : List SocketAddr → E → Result (SocketAddr × T) E
  dial_each addrs none_there = dial_from none_there addrs

  -- No address of the list connects.
  abbrev pub AllFail : List SocketAddr → Type 0
  AllFail [] = Unit
  AllFail (a ∷ addrs) = ((e : E) × (dial a ≡ err e)) × AllFail addrs

  -- No address of the list connects, and `e` is the error of the last of them, or `failed` without
  -- one.
  abbrev pub LastError : E → List SocketAddr → E → Type 0
  LastError failed [] e = e ≡ failed
  LastError failed (a ∷ addrs) e = (x : E) × (dial a ≡ err x) × LastError x addrs e

  -- What `dial_each` promises of its result.
  abbrev pub IsFirst : E → List SocketAddr → Result (SocketAddr × T) E → Type 0
  IsFirst failed addrs (ok (remote, dialed)) =
      (before : List SocketAddr) × (after : List SocketAddr) × (addrs ≡ before ++ (remote ∷ after))
      × AllFail before
      × (dial remote ≡ ok dialed)
  IsFirst failed addrs (err e) = LastError failed addrs e

  one_more :
      (a : SocketAddr) (e failed : E) (addrs : List SocketAddr) (r : Result (SocketAddr × T) E)
      → dial a ≡ err e
      → IsFirst e addrs r
      → IsFirst failed (a ∷ addrs) r
  one_more a e failed addrs (ok (remote, dialed)) f (before, after, split, fails, connects) =
      (a ∷ before, after, ap (◌∷◌ a) split, ((e, f), fails), connects)
  one_more a e failed addrs (err x) f last = (e, f, last)

  dial_from-IsFirst :
      (failed : E) (addrs : List SocketAddr) → IsFirst failed addrs (dial_from failed addrs)
  unfolding dial_from
  dial_from-IsFirst failed [] = refl
  dial_from-IsFirst failed (a ∷ addrs) = elim (Result-cases (dial a)) [
    | inl (dialed, e) ↦ rw (e, dial_from) ([], addrs, refl, tt, e)
    | inr (x, e) ↦
        rw (e, dial_from)
          (one_more a x failed addrs (dial_from x addrs) e (dial_from-IsFirst x addrs))
  ]

  -- `dial_each` gives the first address that connects, with what connected, those before it having
  -- failed; or none connects, and the error is that of the last, or the given one for no address.
  pub dial_each-IsFirst :
      (addrs : List SocketAddr) (none_there : E)
      → IsFirst none_there addrs (dial_each addrs none_there)
  unfolding dial_each
  dial_each-IsFirst addrs none_there = dial_from-IsFirst none_there addrs
