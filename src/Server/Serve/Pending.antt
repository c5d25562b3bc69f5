-- ===== src/Server/Serve/Pending.antt =====
-- A reload's messages are sent before anything else is read.
use hawse.Base.{
  ℕ, ◌≡◌, ◌≢◌, refl, ◌∙◌, List, ◌∷◌, Bool, true, Option, none, some, arith, inl, inr, ◌⊎◌,
}
use hawse.Base.Net.{IpAddr}
use hawse.Allow.{Nets}
use hawse.Proto.Msg.{ServerMessage, shutdown, welcome, denied, bound, bind_failed, ask, answer}
use hawse.Proto.Port.{Port}
use hawse.Transport.{CloseReason}
use hawse.Server.Serve.{
  Wake, popped, ticked, late, cancelled, reloaded, heard, Sent, sent, send_failed, stopped,
  timed_out, Serving, Chosen, reply, nothing, stuck, ends, no_pending, init, pop, enabled, sent_on,
  send, tell_stop, arm, after_arm, turn,
}

module _ {Net : Type 0} where
  abbrev Same : Serving Net → Serving Net → Type 0
  Same v v' = (v'.session ≡ v.session) × (v'.last_heard ≡ v.last_heard) × (v'.pending ≡ v.pending)

  sent_on-Same : (now : ℕ) (m : ServerMessage) (v : Serving Net) → Same v (sent_on now m v).1
  unfolding sent_on
  sent_on-Same now (shutdown t) v = (refl, refl, refl)
  sent_on-Same now (welcome a b) v = (refl, refl, refl)
  sent_on-Same now (denied a b) v = (refl, refl, refl)
  sent_on-Same now (bound a b c d) v = (refl, refl, refl)
  sent_on-Same now (bind_failed a b) v = (refl, refl, refl)
  sent_on-Same now (ask a) v = (refl, refl, refl)
  sent_on-Same now (answer a) v = (refl, refl, refl)

  send-Same :
      (now : ℕ) (out : Sent) (m : ServerMessage) (v : Serving Net) → Same v (send now out m v).1
  unfolding send
  send-Same now sent m v = sent_on-Same now m v
  send-Same now send_failed m v = (refl, refl, refl)
  send-Same now stopped m v = (refl, refl, refl)
  send-Same now timed_out m v = (refl, refl, refl)

  module _ (v : Serving Net) (m : ServerMessage) (l : List ServerMessage) where
    -- What an arm may leave of `v`.
    abbrev pub Near : Serving Net → Type 0
    Near v' =
        (v'.session ≡ v.session)
        × (v'.last_heard ≡ v.last_heard)
        × ((v'.pending ≡ m ∷ l) ⊎ (v'.pending ≡ init m l))

    abbrev Chose : Chosen × Serving Net → Type 0
    Chose (c, v') = (c ≢ stuck) × Near v'

    abbrev pub Turned : Option (Option CloseReason × Serving Net) → Type 0
    Turned none = ⊥
    Turned (some (why, v')) = Near v'

    near : (v' v'' : Serving Net) → Same v' v'' → Near v' → Near v''
    near v' v'' (a, b, c) (x, y, inl z) = (a ∙ x, b ∙ y, inl (c ∙ z))
    near v' v'' (a, b, c) (x, y, inr z) = (a ∙ x, b ∙ y, inr (c ∙ z))

    after_arm-Turned :
        (now : ℕ) (out : Sent) (r : Chosen × Serving Net) → Chose r → Turned (after_arm now out r)
    unfolding after_arm
    after_arm-Turned now out (stuck, v') h = h.0 refl
    after_arm-Turned now out (nothing, v') h = h.1
    after_arm-Turned now out (ends why, v') h = h.1
    after_arm-Turned now out (reply a, v') h =
        near v' (send now out a v').1 (send-Same now out a v') h.1

    tell_stop-Chose :
        (now : ℕ) (all : Bool) (out : Sent) → v.pending ≡ m ∷ l → Chose (tell_stop now all out v)
    unfolding tell_stop
    tell_stop-Chose now all sent e = ((λ x. absurd (ground arith)), (refl, refl, inl e))
    tell_stop-Chose now all send_failed e = ((λ x. absurd (ground arith)), (refl, refl, inl e))
    tell_stop-Chose now all stopped e = ((λ x. absurd (ground arith)), (refl, refl, inl e))
    tell_stop-Chose now all timed_out e = ((λ x. absurd (ground arith)), (refl, refl, inl e))

    pop-Chose : v.pending ≡ m ∷ l → Chose (pop v.pending v)
    unfolding pop
    pop-Chose e = rw e ((λ x. absurd (ground arith)), (refl, refl, inr refl))

-- While a message of the last reload waits, no turn reads, binds, unbinds or takes up another
-- reload: it ends, the session is as it was, and at most the last message leaves the list.
pub turn-pending :
    (n : Nets) (host : IpAddr → Port → Bool) (now : ℕ) (out : Sent) (w : Wake n.Net)
    (v : Serving n.Net) (m : ServerMessage) (l : List ServerMessage)
    → v.pending ≡ m ∷ l
    → enabled now w v ≡ true
    → Turned v m l (turn n host now out w v)
unfolding turn arm enabled no_pending
turn-pending n host now out popped v m l e on = after_arm-Turned v m l now out _ (pop-Chose v m l e)
turn-pending n host now out (cancelled all) v m l e on =
    after_arm-Turned v m l now out _ (tell_stop-Chose v m l now all out e)
turn-pending n host now out late v m l e on =
    after_arm-Turned v m l now out _ ((λ x. absurd (ground arith)), (refl, refl, inl e))
turn-pending n host now out ticked v m l e on =
    after_arm-Turned v m l now out _ ((λ x. absurd (ground arith)), (refl, refl, inl e))
turn-pending n host now out (reloaded p) v m l e on = absurd (ground (arith, rw e at on))
turn-pending n host now out (heard x) v m l e on = absurd (ground (arith, rw e at on))
