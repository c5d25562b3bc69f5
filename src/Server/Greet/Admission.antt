-- ===== src/Server/Greet/Admission.antt =====
-- Who is served, and who is charged with a failed authentication.
use hawse.Base.{
  ◌≡◌, refl, Bool, true, false, Option, none, some, if◌then◌else◌, Option-cases, inl, inr, ◌⊎◌,
}
use hawse.Base.Text.{Text}
use hawse.Proto.Key.{PublicKey}
use hawse.Proto.Msg.{ClientMessage, hello, bind, unbind, ping, pong, printable}
use hawse.Transport.{CloseReason, shutdown, control_closed}
use hawse.Server.Policy.{Grant, lookup}
use hawse.Server.Greet.{
  Greeted, stopping, silent, spoke, Connection, Ran, closed, serves, is_none, stranger, granted,
  first_message, greet, run_key, run,
}

module _ {Net : Type 0} where
  -- A session is one of a key that was shown and is granted now, and said Hello, with the agent its
  -- Hello named. A charge is for a connection without a key, or with one that no policy had at the
  -- handshake or none has now.
  abbrev pub Deserved : Connection Net → Ran Net → Type 0
  Deserved c (serves g agent) =
      (k : PublicKey) × (name : Option Text) × (said : Text) × (c.key ≡ some k)
      × (lookup k c.after ≡ some g)
      × (c.greeted ≡ spoke (some (hello name said)))
      × (agent ≡ printable said)
      × (c.welcomed ≡ true)
  Deserved c (closed false why) = Unit
  Deserved c (closed true why) =
      (c.key ≡ none)
      ⊎ ((k : PublicKey) × (c.key ≡ some k)
          × ((lookup k c.before ≡ none) ⊎ (lookup k c.after ≡ none)))

  charged-Deserved :
      (c : Connection Net) (k : PublicKey) (why : CloseReason)
      → c.key ≡ some k
      → Deserved c (closed (stranger k c) why)
  unfolding stranger is_none
  charged-Deserved c k why e = elim (Option-cases (lookup k c.before)) [
    | inl n ↦ rw n (inr (k, e, inl n))
    | inr (g, n) ↦ rw n tt
  ]

  admitted :
      (c : Connection Net) (k : PublicKey) (name : Option Text) (said : Text) (g : Grant Net)
      (previous interrupted welcomed : Bool)
      → c.key ≡ some k
      → c.greeted ≡ spoke (some (hello name said))
      → lookup k c.after ≡ some g
      → c.welcomed ≡ welcomed
      → let outcome : Ran Net =
          if welcomed then serves g (printable said) else closed false control_closed in
        Deserved c
          (if previous then if interrupted then closed false shutdown else outcome else outcome)
  admitted c k name said g true true w e s l h = tt
  admitted c k name said g true false true e s l h = (k, name, said, e, l, s, refl, h)
  admitted c k name said g true false false e s l h = tt
  admitted c k name said g false i true e s l h = (k, name, said, e, l, s, refl, h)
  admitted c k name said g false i false e s l h = tt

  granted-Deserved :
      (c : Connection Net) (k : PublicKey) (name : Option Text) (said : Text)
      (o : Option (Grant Net))
      → c.key ≡ some k
      → c.greeted ≡ spoke (some (hello name said))
      → lookup k c.after ≡ o
      → Deserved c (granted (printable said) c o)
  unfolding granted
  granted-Deserved c k name said none e s l = inr (k, e, inr l)
  granted-Deserved c k name said (some g) e s l =
      admitted c k name said g c.previous c.interrupted c.welcomed e s l refl

  first_message-Deserved :
      (c : Connection Net) (k : PublicKey) (o : Option (ClientMessage Net))
      → c.key ≡ some k
      → c.greeted ≡ spoke o
      → Deserved c (first_message k c o)
  unfolding first_message
  first_message-Deserved c k (some (hello name said)) e s =
      granted-Deserved c k name said _ e s refl
  first_message-Deserved c k (some (bind w)) e s = charged-Deserved c k _ e
  first_message-Deserved c k (some (unbind x)) e s = charged-Deserved c k _ e
  first_message-Deserved c k (some (ping x)) e s = charged-Deserved c k _ e
  first_message-Deserved c k (some (pong x)) e s = charged-Deserved c k _ e
  first_message-Deserved c k none e s = charged-Deserved c k _ e

  greet-Deserved :
      (c : Connection Net) (k : PublicKey) (x : Greeted Net)
      → c.key ≡ some k
      → c.greeted ≡ x
      → Deserved c (greet k c x)
  unfolding greet
  greet-Deserved c k stopping e s = tt
  greet-Deserved c k silent e s = charged-Deserved c k _ e
  greet-Deserved c k (spoke m) e s = first_message-Deserved c k m e s

  run_key-Deserved :
      (c : Connection Net) (o : Option PublicKey) → c.key ≡ o → Deserved c (run_key o c)
  unfolding run_key
  run_key-Deserved c none e = inl e
  run_key-Deserved c (some k) e = greet-Deserved c k c.greeted e refl

  -- A connection is served only if it shows a key that the policy grants when it is looked up and
  -- begins with a Hello, and then under that grant. An address is charged only for a connection without
  -- a key, or with one the policy did not know at the handshake or does not grant now: a client the
  -- policy knows is not charged for a Hello that does not come or is not one.
  pub run-Deserved : (c : Connection Net) → Deserved c (run c)
  unfolding run
  run-Deserved c = run_key-Deserved c c.key refl
