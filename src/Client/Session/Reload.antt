-- ===== src/Client/Session/Reload.antt =====
-- What a reload of its config does to a session of the client
-- (crates/hawse-core/src/client/mod.rs, `reexpose`).
use hawse.Base.{
  ◌≡◌, refl, sym, ap, ◌∙◌, List, [], ◌∷◌, ◌++◌, true, false, none, some, arith, Bool-cases, inl,
  inr,
}
use hawse.Base.Dict.{Dict, get}
use hawse.Base.Text.{Text, text_discrete}
use hawse.Proto.Msg.{ClientMessage, hello, bind, unbind, ping, pong}
use hawse.Proto.Port.{kind_of}
use hawse.Client.Rebind.{Expose, rebind, unbinds, binds, differs}
use hawse.Client.Rebind.Asked.{differs-false}
use hawse.Client.Session.{
  Session, id_of, drop_bound, asked_again, note_message, note_messages, reexpose,
}
use hawse.Client.Session.Bookkeeping.{IsKept, Registered-elsewhere, same-IsKept}
use hawse.Client.Session.Registering.{id_of-drop_bound, drop_bound-IsKept}

module _ {Net : Type 0} where
  -- One message keeps the bookkeeping and the settings, and gives no service an id.
  note_message-IsKept :
      (msg : ClientMessage Net) (s : Session Net)
      → IsKept s
      → IsKept (note_message msg s)
        × ((note_message msg s).exposed ≡ s.exposed)
        × ((x : Text) → id_of x s ≡ none → id_of x (note_message msg s) ≡ none)
  unfolding note_message asked_again
  note_message-IsKept (unbind service) s g =
      let (kept, same) = drop_bound-IsKept service s g in
      (kept, same, λ x h. ground (arith, id_of-drop_bound service s g x, h))
  note_message-IsKept (bind w) s g =
      (same-IsKept s (asked_again w.service s) refl refl refl refl g, refl, λ x h. h)
  note_message-IsKept (hello name agent) s g = (g, refl, λ x h. h)
  note_message-IsKept (ping nonce) s g = (g, refl, λ x h. h)
  note_message-IsKept (pong nonce) s g = (g, refl, λ x h. h)

  note_messages-IsKept :
      (msgs : List (ClientMessage Net)) (s : Session Net)
      → IsKept s
      → IsKept (note_messages msgs s)
        × ((note_messages msgs s).exposed ≡ s.exposed)
        × ((x : Text) → id_of x s ≡ none → id_of x (note_messages msgs s) ≡ none)
  unfolding note_messages
  note_messages-IsKept [] s g = (g, refl, λ x h. h)
  note_messages-IsKept (msg ∷ msgs) s g =
      let (kept, same, gone) = note_message-IsKept msg s g in
      let (kept', same', gone') = note_messages-IsKept msgs (note_message msg s) kept in
      (kept', same' ∙ same, λ x h. gone' x (gone x h))

  note_messages-append :
      (xs ys : List (ClientMessage Net)) (s : Session Net)
      → note_messages (xs ++ ys) s ≡ note_messages ys (note_messages xs s)
  unfolding note_messages
  note_messages-append [] ys s = refl
  note_messages-append (msg ∷ xs) ys s = note_messages-append xs ys (note_message msg s)

module _ {Net : Type 0} (same : Discrete Net) where
  -- A service that is exposed with other settings loses its id.
  note_unbinds :
      (next : Dict Text (Expose Net)) (retry : List Text) (exposed : Dict Text (Expose Net))
      (s : Session Net) (x : Text) (e : Expose Net)
      → IsKept s
      → get text_discrete x exposed ≡ some e
      → differs same next retry x e ≡ true
      → id_of x (note_messages (unbinds same next retry exposed) s) ≡ none
  unfolding unbinds get note_messages note_message
  note_unbinds next retry [] s x e g h t = absurd (ground arith)
  note_unbinds next retry ((service, expose) ∷ exposed) s x e g h t =
      elim (text_discrete service x) [
        | yes eq ↦
            let is : expose ≡ e = ground (arith, h, eq) in
            let gone : differs same next retry service expose ≡ true = rw (eq, is) t in
            let (kept, _) = drop_bound-IsKept service s g in
            rw gone (
              (note_messages-IsKept (unbinds same next retry exposed) (drop_bound service s) kept).2
                x (ground (arith, id_of-drop_bound service s g x, eq)))
        | no ne ↦
            let later : get text_discrete x exposed ≡ some e = ground (arith, h, ne) in
            elim (Bool-cases (differs same next retry service expose)) [
              | inl gone ↦
                  let (kept, _) = drop_bound-IsKept service s g in
                  rw gone (note_unbinds next retry exposed (drop_bound service s) x e kept later t)
              | inr stays ↦ rw stays (note_unbinds next retry exposed s x e g later t)
            ]
      ]

  -- A reload leaves the targets and the UDP services in step with what is still bound: each service
  -- that keeps its id is exposed by the new config, with the settings it is registered with.
  pub reexpose-IsKept :
      (next : Dict Text (Expose Net)) (s : Session Net)
      → IsKept s
      → IsKept ((reexpose same next s).1)
  unfolding reexpose rebind
  reexpose-IsKept next s g =
      let s0 : Session Net = record s { failed = [] } in
      let g0 : IsKept s0 = same-IsKept s s0 refl refl refl refl g in
      let first = unbinds same next s.failed s.exposed in
      let msgs = first ++ binds same s.exposed s.failed next in
      let (kept, stays, _) = note_messages-IsKept msgs s0 g0 in
      let unbound =
        λ (x : Text) (e : Expose Net) (h : get text_discrete x s.exposed ≡ some e)
            (t : differs same next s.failed x e ≡ true).
          ap (id_of x) (note_messages-append first (binds same s.exposed s.failed next) s0)
          ∙ (note_messages-IsKept (binds same s.exposed s.failed next) (note_messages first s0)
                (note_messages-IsKept first s0 g0).0).2
              x (note_unbinds next s.failed s.exposed s0 x e g0 h t) in
      record {
        holds = λ x i h.
            let (e, there, r) = kept.holds x i h in
            let was : get text_discrete x s.exposed ≡ some e =
              sym (ap (get text_discrete x) stays) ∙ there in
            let settled : differs same next s.failed x e ≡ false =
              elim (Bool-cases (differs same next s.failed x e)) [
                | inl t ↦ absurd (ground (arith, unbound x e was t, h))
                | inr f ↦ f
              ] in
            (
              e,
              (differs-false same x next s.failed e settled).1,
              Registered-elsewhere (kind_of e.port) x i e (note_messages msgs s0)
                  (record (note_messages msgs s0) { exposed = next }) refl refl r,
            );
        target_of = kept.target_of;
        udp_of = kept.udp_of;
        apart = kept.apart;
      }
