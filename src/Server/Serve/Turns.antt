-- ===== src/Server/Serve/Turns.antt =====
-- What the turns of a session's loop keep.
use hawse.Base.{
  ℕ, ◌≡◌, refl, sym, subst, List, [], ◌∷◌, Bool, Option, none, some, Bool-cases, inl, inr,
}
use hawse.Base.Net.{IpAddr}
use hawse.Allow.{Nets}
use hawse.Proto.Msg.{
  ServerMessage, shutdown, welcome, denied, bound, bind_failed, ask, answer, ClientMessage, hello,
  bind, unbind, ping, pong,
}
use hawse.Proto.Port.{Port}
use hawse.Transport.{CloseReason}
use hawse.Server.Policy.{Grant}
use hawse.Server.Session.{Session}
use hawse.Server.Session.Sound.{IsValid, Granted}
use hawse.Server.Session.Keeps.{After, bind-IsValid, bind-Granted}
use hawse.Server.Session.Stops.{unbind-IsValid, unbind-Granted}
use hawse.Server.Session.Regrant.{Regranted, regrant-Regranted}
use hawse.Server.Session.Stop.{same_terms}
use hawse.Server.Serve.{
  Heard, message, left, malformed, Wake, popped, ticked, late, cancelled, reloaded, heard, Sent,
  sent, send_failed, stopped, timed_out, Serving, Chosen, reply, nothing, stuck, ends, pop,
  bind_reply, sent_on, send, tell_stop, hear, read, arm, after_arm, turn,
}

-- The session is in order, and its fixed ports are granted.
abbrev pub Sound : {Net : Type 0} → Session Net → Type 0
Sound s = IsValid s × Granted s

-- An arm ended and left its session in order.
abbrev Chose : {Net : Type 0} → Chosen × Serving Net → Type 0
Chose (stuck, v) = ⊥
Chose (nothing, v) = Sound v.session
Chose (reply m, v) = Sound v.session
Chose (ends why, v) = Sound v.session

-- A turn ended and left its session in order.
abbrev pub Turned : {Net : Type 0} → Option (Option CloseReason × Serving Net) → Type 0
Turned none = ⊥
Turned (some (why, v)) = Sound v.session

module _ {Net : Type 0} where
  sent_on-session :
      (now : ℕ) (m : ServerMessage) (v : Serving Net) → (sent_on now m v).1.session ≡ v.session
  unfolding sent_on
  sent_on-session now (shutdown t) v = refl
  sent_on-session now (welcome a b) v = refl
  sent_on-session now (denied a b) v = refl
  sent_on-session now (bound a b c d) v = refl
  sent_on-session now (bind_failed a b) v = refl
  sent_on-session now (ask a) v = refl
  sent_on-session now (answer a) v = refl

  send-session :
      (now : ℕ) (out : Sent) (m : ServerMessage) (v : Serving Net)
      → (send now out m v).1.session ≡ v.session
  unfolding send
  send-session now sent m v = sent_on-session now m v
  send-session now send_failed m v = refl
  send-session now stopped m v = refl
  send-session now timed_out m v = refl

  after_arm-Turned :
      (now : ℕ) (out : Sent) (r : Chosen × Serving Net) → Chose r → Turned (after_arm now out r)
  unfolding after_arm
  after_arm-Turned now out (stuck, v) h = h
  after_arm-Turned now out (nothing, v) h = h
  after_arm-Turned now out (ends why, v) h = h
  after_arm-Turned now out (reply m, v) h = subst Sound (sym (send-session now out m v)) h

  pop-Chose : (l : List ServerMessage) (v : Serving Net) → Sound v.session → Chose (pop l v)
  unfolding pop
  pop-Chose [] v h = h
  pop-Chose (m ∷ l) v h = h

  tell_stop-Chose :
      (now : ℕ) (all : Bool) (out : Sent) (v : Serving Net)
      → Sound v.session
      → Chose (tell_stop now all out v)
  unfolding tell_stop
  tell_stop-Chose now all sent v h = h
  tell_stop-Chose now all send_failed v h = h
  tell_stop-Chose now all stopped v h = h
  tell_stop-Chose now all timed_out v h = h

  bind_reply-Chose :
      (o : Option (ServerMessage × Session Net)) (v : Serving Net)
      → After IsValid o
      → After Granted o
      → Chose (bind_reply o v)
  unfolding bind_reply
  bind_reply-Chose none v h g = h
  bind_reply-Chose (some (m, s)) v h g = (h, g)

module _ (n : Nets) (host : IpAddr → Port → Bool) where
  Regranted-Sound :
      (o : Option (Grant n.Net)) (s : Session n.Net) (r : List ServerMessage × Session n.Net)
      → Sound s
      → Regranted n o s r
      → Sound r.1
  Regranted-Sound none s r h e = subst (λ x. Sound x.1) (sym e) h
  Regranted-Sound (some g) s r h e = elim (Bool-cases (same_terms n g s.grant)) [
    | inl t ↦ let k = rw t at e in (k.4, k.3)
    | inr t ↦ let k = rw t at e in subst (λ x. Sound x.1) (sym k) h
  ]

  hear-Chose :
      (m : ClientMessage n.Net) (v : Serving n.Net) → Sound v.session → Chose (hear n host m v)
  unfolding hear
  hear-Chose (bind w) v h =
      bind_reply-Chose _ v (bind-IsValid n host w v.session h.0)
        (bind-Granted n host w v.session h.0 h.1)
  hear-Chose (unbind m) v h = (unbind-IsValid m v.session h.0, unbind-Granted m v.session h.1)
  hear-Chose (ping x) v h = h
  hear-Chose (pong x) v h = h
  hear-Chose (hello a b) v h = h

  read-Chose :
      (now : ℕ) (x : Heard n.Net) (v : Serving n.Net)
      → Sound v.session
      → Chose (read n host now x v)
  unfolding read
  read-Chose now left v h = h
  read-Chose now malformed v h = h
  read-Chose now (message m) v h = hear-Chose m (record v { last_heard = now }) h

  arm-Chose :
      (now : ℕ) (out : Sent) (w : Wake n.Net) (v : Serving n.Net)
      → Sound v.session
      → Chose (arm n host now out w v)
  unfolding arm
  arm-Chose now out popped v h = pop-Chose v.pending v h
  arm-Chose now out (cancelled all) v h = tell_stop-Chose now all out v h
  arm-Chose now out late v h = h
  arm-Chose now out ticked v h = h
  arm-Chose now out (reloaded p) v h =
      Regranted-Sound _ v.session _ h (regrant-Regranted n p v.session h.0)
  arm-Chose now out (heard x) v h = read-Chose now x v h

  -- Every turn ends, whatever arm it takes and however its send ends, and leaves the session in
  -- order: no two services share an id or a port, and each fixed port is one of the grant.
  pub turn-Turned :
      (now : ℕ) (out : Sent) (w : Wake n.Net) (v : Serving n.Net)
      → Sound v.session
      → Turned (turn n host now out w v)
  unfolding turn
  turn-Turned now out w v h = after_arm-Turned now out _ (arm-Chose now out w v h)
