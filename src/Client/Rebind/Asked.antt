-- ===== src/Client/Rebind/Asked.antt =====
-- What the messages of crates/hawse-core/src/client/mod.rs's `rebind` amount to at the server.
use hawse.Base.{
  ◌≡◌, ◌≢◌, refl, ap, ite_other, ◌∙◌, List, [], ◌∷◌, ◌++◌, true, false, Option, none, some,
  if◌then◌else◌, arith, Bool-cases, Option-cases, inl, inr,
}
use hawse.Base.Dict.{Dict, get, insert, remove, Distinct, get-insert, get-remove}
use hawse.Base.Sets.{has}
use hawse.Base.Text.{Text, text_discrete}
use hawse.Proto.Msg.{Wanted, ClientMessage, hello, bind, unbind, ping, pong}
use hawse.Client.Rebind.{Expose, wanted, is_other, differs, unbinds, binds, rebind}

module _ {Net : Type 0} where
  -- A bind as the server takes it: of a service that is bound it is refused, and leaves the one before.
  unfoldable pub ask_bind :
      Wanted Net → Option (Wanted Net) → Dict Text (Wanted Net) → Dict Text (Wanted Net)
  ask_bind w none asked = insert text_discrete w.service w asked
  ask_bind w (some old) asked = asked

  -- The services that messages leave asked for.
  unfoldable pub ask : ClientMessage Net → Dict Text (Wanted Net) → Dict Text (Wanted Net)
  ask (bind w) asked = ask_bind w (get text_discrete w.service asked) asked
  ask (unbind service) asked = remove text_discrete service asked
  ask (hello name agent) asked = asked
  ask (ping nonce) asked = asked
  ask (pong nonce) asked = asked

  unfoldable pub ask_all :
      List (ClientMessage Net) → Dict Text (Wanted Net) → Dict Text (Wanted Net)
  ask_all [] asked = asked
  ask_all (msg ∷ msgs) asked = ask_all msgs (ask msg asked)

  abbrev pub asked_for : Text → Dict Text (Wanted Net) → Option (Wanted Net)
  asked_for service asked = get text_discrete service asked

  -- What the config has for a service.
  unfoldable pub wanted_of : Text → Option (Expose Net) → Option (Wanted Net)
  wanted_of service none = none
  wanted_of service (some e) = some (wanted service e)

  pub get-ask_bind :
      (w : Wanted Net) (x : Text) (asked : Dict Text (Wanted Net))
      → (w.service ≢ x
          → asked_for x (ask_bind w (get text_discrete w.service asked) asked) ≡ asked_for x asked)
        × (w.service ≡ x
            → asked_for x asked ≡ none
            → asked_for x (ask_bind w (get text_discrete w.service asked) asked) ≡ some w)
  unfolding ask_bind
  get-ask_bind w x asked = elim (Option-cases (get text_discrete w.service asked)) [
    | inl e ↦ rw e (
      (λ ne. get-insert text_discrete x w.service w asked ∙ ite_other text_discrete _ _ ne),
      (λ same h. ground (arith, get-insert text_discrete x w.service w asked)),
    )
    | inr (old, e) ↦ rw e (
      (λ ne. refl),
      (λ same h. absurd (ground (arith, e, h, ap (λ y. get text_discrete y asked) same))),
    )
  ]

  pub ask_all-append :
      (xs ys : List (ClientMessage Net)) (asked : Dict Text (Wanted Net))
      → ask_all (xs ++ ys) asked ≡ ask_all ys (ask_all xs asked)
  unfolding ask_all
  ask_all-append [] ys asked = refl
  ask_all-append (msg ∷ xs) ys asked = ask_all-append xs ys (ask msg asked)

module _ {Net : Type 0} (same : Discrete Net) (x : Text) where
  unbinds-asked :
      (next : Dict Text (Expose Net)) (retry : List Text) (exposed : Dict Text (Expose Net))
      (asked : Dict Text (Wanted Net))
      → Distinct text_discrete exposed
      → (get text_discrete x exposed ≡ none
          → asked_for x (ask_all (unbinds same next retry exposed) asked) ≡ asked_for x asked)
        × ((e : Expose Net)
            → get text_discrete x exposed ≡ some e
            → asked_for x (ask_all (unbinds same next retry exposed) asked)
              ≡ (if differs same next retry x e then none else asked_for x asked))
  unfolding unbinds ask_all ask get
  unbinds-asked next retry [] asked d = (λ h. refl, λ e h. absurd (ground arith))
  unbinds-asked next retry ((service, expose) ∷ exposed) asked d =
      elim (Bool-cases (differs same next retry service expose)) [
        | inl gone ↦ rw gone ground (
          arith,
          unbinds-asked next retry exposed (remove text_discrete service asked) d.1,
          get-remove text_discrete x service asked,
          d.0,
          gone,
        )
        | inr stays ↦
            rw stays ground (arith, unbinds-asked next retry exposed asked d.1, d.0, stays)
      ]

  -- Of what is asked for as it is bound, no bind is refused.
  binds-asked :
      (exposed : Dict Text (Expose Net)) (retry : List Text) (next : Dict Text (Expose Net))
      (asked : Dict Text (Wanted Net))
      → Distinct text_discrete next
      → (get text_discrete x next ≡ none
          → asked_for x (ask_all (binds same exposed retry next) asked) ≡ asked_for x asked)
        × ((e : Expose Net)
            → get text_discrete x next ≡ some e
            → (differs same exposed retry x e ≡ true → asked_for x asked ≡ none)
            → asked_for x (ask_all (binds same exposed retry next) asked)
              ≡ (if differs same exposed retry x e then some (wanted x e) else asked_for x asked))
  unfolding binds ask_all ask get wanted
  binds-asked exposed retry [] asked d = (λ h. refl, λ e h _. absurd (ground arith))
  binds-asked exposed retry ((service, expose) ∷ next) asked d =
      elim (Bool-cases (differs same exposed retry service expose)) [
        | inl asks ↦
            let w = wanted service expose in
            let after = ask_bind w (get text_discrete service asked) asked in
            rw asks ground
              (arith, binds-asked exposed retry next after d.1, get-ask_bind w x asked, d.0, asks)
        | inr stays ↦ rw stays ground (arith, binds-asked exposed retry next asked d.1, d.0, stays)
      ]

  -- One in `retry`, or with other settings, differs.
  differs-retry :
      (from : Dict Text (Expose Net)) (retry : List Text) (e : Expose Net)
      → has text_discrete x retry ≡ true
      → differs same from retry x e ≡ true
  unfolding differs
  differs-retry from retry e h = rw h refl

  pub differs-false :
      (from : Dict Text (Expose Net)) (retry : List Text) (e : Expose Net)
      → differs same from retry x e ≡ false
      → (has text_discrete x retry ≡ false) × (get text_discrete x from ≡ some e)
  unfolding differs is_other
  differs-false from retry e h = (ground arith, ground arith)

  differs-same :
      (from : Dict Text (Expose Net)) (retry : List Text) (e : Expose Net)
      → has text_discrete x retry ≡ false
      → get text_discrete x from ≡ some e
      → differs same from retry x e ≡ false
  unfolding differs is_other
  differs-same from retry e h g = rw (h, g) ground arith

  differs-none :
      (from : Dict Text (Expose Net)) (retry : List Text) (e : Expose Net)
      → get text_discrete x from ≡ none
      → differs same from retry x e ≡ true
  unfolding differs is_other
  differs-none from retry e g = rw g ground arith

-- The server is asked for what `exposed` has of `service`. Of one in `retry`, whose bind it refused, it
-- may hold anything, if that is still exposed.
abbrev pub InStep :
    {Net : Type 0} → Dict Text (Expose Net) → List Text → Dict Text (Wanted Net) → Text → Type 0
InStep exposed retry asked service =
    (has text_discrete service retry ≡ false
      → asked_for service asked ≡ wanted_of service (get text_discrete service exposed))
    × (get text_discrete service exposed ≡ none → asked_for service asked ≡ none)

module _ {Net : Type 0} (same : Discrete Net) where
  -- What a reload binds is not asked for any more by then.
  freed :
      (x : Text) (exposed next : Dict Text (Expose Net)) (retry : List Text)
      (asked : Dict Text (Wanted Net))
      → Distinct text_discrete exposed
      → InStep exposed retry asked x
      → (e : Expose Net) → get text_discrete x next ≡ some e
      → differs same exposed retry x e ≡ true
      → asked_for x (ask_all (unbinds same next retry exposed) asked) ≡ none
  freed x exposed next retry asked d agree e there asks =
      let first = unbinds-asked same x next retry exposed asked d in
      elim (Option-cases (get text_discrete x exposed)) [
        | inl h ↦ first.0 h ∙ agree.1 h
        | inr (old, h) ↦ first.1 old h ∙ elim (Bool-cases (differs same next retry x old)) [
          | inl goes ↦ rw goes refl
          | inr stays ↦
              let (settled, now) = differs-false same x next retry old stays in
              absurd (ground (arith, there, now, asks, differs-same same x exposed retry e settled))
        ]
      ]

  -- Where the server is asked for the services of `exposed`, but for those of `retry`, the messages of
  -- `rebind` leave it asked for exactly the services of `next`, though it refuses a bind of a service
  -- that it has.
  pub rebind-Asks :
      (exposed next : Dict Text (Expose Net)) (retry : List Text) (asked : Dict Text (Wanted Net))
      → Distinct text_discrete exposed
      → Distinct text_discrete next
      → ((service : Text) → InStep exposed retry asked service)
      → (service : Text)
      → asked_for service (ask_all (rebind same exposed next retry) asked)
        ≡ wanted_of service (get text_discrete service next)
  unfolding rebind wanted_of
  rebind-Asks exposed next retry asked d d' agree x =
      let unbound = ask_all (unbinds same next retry exposed) asked in
      let first = unbinds-asked same x next retry exposed asked d in
      let second = binds-asked same x exposed retry next unbound d' in
      ap (asked_for x)
        (ask_all-append (unbinds same next retry exposed) (binds same exposed retry next) asked)
      ∙ elim (Option-cases (get text_discrete x next)) [
        | inl gone ↦ rw gone (
            second.0 gone ∙ elim (Option-cases (get text_discrete x exposed)) [
              | inl h ↦ first.0 h ∙ (agree x).1 h
              | inr (e, h) ↦ first.1 e h ∙ rw (differs-none same x next retry e gone) refl
            ])
        | inr (e, there) ↦ rw there (
            second.1 e there (freed x exposed next retry asked d (agree x) e there)
            ∙ elim (Bool-cases (differs same exposed retry x e)) [
              | inl asks ↦ rw asks refl
              | inr stays ↦
                  let (settled, was) = differs-false same x exposed retry e stays in
                  rw stays (
                    first.1 e was
                    ∙ rw (differs-same same x next retry e settled there)
                        ((agree x).0 settled ∙ rw was refl))
            ])
      ]
