-- ===== src/Sse/Broadcast.antt =====
-- What a broadcast does to each channel, over `Publish` of api/internal/sse/broker.go.
use mathlib.Core.Option.{some-injective}
use overlap.Common.{
  ℕ, ◌≡◌, ◌≢◌, refl, ap, sym, subst, ◌∙◌, String, false, List, [], ◌∷◌, ◌++◌, none, some, length,
  ltb, inl, inr, if◌then◌else◌, Option-cases, In, AreDistinct,
}
use overlap.Common.Maps.{nat_key, update, update-same, update-other}
use overlap.Sse.{Message, subscriber_buffer, Channel, Broker, watching, send, publish_loop, publish}
use overlap.Sse.Sound.{IsSound, watching-IsListed, watching-AreDistinct}

-- A channel once the message has been offered to it: kept if there is room, and dropped if not.
abbrev pub offered : Message → Channel → Channel
offered m c =
    if ltb (length c.buffer) subscriber_buffer then record c { buffer = c.buffer ++ m ∷ [] } else c

send-open : (m : Message) (c : Channel) → c.closed ≡ false → send m c ≡ some (offered m c)
unfolding send
send-open m c e = rw e refl

publish_loop-step :
    (m : Message) (x : ℕ) (set : List ℕ) (chans after : ℕ → Channel)
    → (chans x).closed ≡ false
    → publish_loop m (x ∷ set) chans ≡ some after
    → publish_loop m set (update chans x (offered m (chans x))) ≡ some after
unfolding publish_loop
publish_loop-step m x set chans after e p = rw (publish_loop, send-open m (chans x) e) at p

-- The channels still to visit are open after a send to another.
still_open :
    (m : Message) (x : ℕ) (set : List ℕ) (chans : ℕ → Channel)
    → (In x set → ⊥)
    → ((y : ℕ) → In y (x ∷ set) → (chans y).closed ≡ false)
    → (y : ℕ) → In y set
    → (update chans x (offered m (chans x)) y).closed ≡ false
still_open m x set chans out on y i =
    let ne : x ≢ y = λ e. out (subst (λ k. In k set) (sym e) i) in
    ap (λ c. c.closed) (update-other chans x y (offered m (chans x)) ne) ∙ on y (inr i)

-- The loop leaves the channels alone that it does not visit.
publish_loop-away :
    (m : Message) (set : List ℕ) (chans after : ℕ → Channel) (ch : ℕ)
    → ((x : ℕ) → In x set → (chans x).closed ≡ false)
    → AreDistinct set
    → (In ch set → ⊥)
    → publish_loop m set chans ≡ some after
    → after ch ≡ chans ch
unfolding publish_loop
publish_loop-away m [] chans after ch on d out p = ap (λ f. f ch) (sym (some-injective _ _ p))
publish_loop-away m (x ∷ set) chans after ch on d out p =
    let other = update-other chans x ch (offered m (chans x)) (λ e. out (inl (sym e))) in
    publish_loop-away m set (update chans x (offered m (chans x))) after ch
      (still_open m x set chans d.0 on) d.1 (λ i. out (inr i))
      (publish_loop-step m x set chans after (on x (inl refl)) p)
    ∙ other

publish_loop-here :
    (m : Message) (set : List ℕ) (chans after : ℕ → Channel) (ch : ℕ)
    → ((x : ℕ) → In x set → (chans x).closed ≡ false)
    → AreDistinct set
    → In ch set
    → publish_loop m set chans ≡ some after
    → after ch ≡ offered m (chans ch)
publish_loop-here m [] chans after ch on d i p = absurd i
publish_loop-here m (x ∷ set) chans after ch on d (inl e) p = rw e (
    publish_loop-away m set (update chans x (offered m (chans x))) after x
      (still_open m x set chans d.0 on) d.1 d.0
      (publish_loop-step m x set chans after (on x (inl refl)) p)
    ∙ update-same chans x (offered m (chans x)))
publish_loop-here m (x ∷ set) chans after ch on d (inr i) p =
    let ne : x ≢ ch = λ e. d.0 (subst (λ k. In k set) (sym e) i) in
    publish_loop-here m set (update chans x (offered m (chans x))) after ch
      (still_open m x set chans d.0 on) d.1 i
      (publish_loop-step m x set chans after (on x (inl refl)) p)
    ∙ ap (offered m) (update-other chans x ch (offered m (chans x)) ne)

-- A broadcast reaches those who watch and no one else: on a sound broker, after Publish each channel
-- of the event has the message at the end of its buffer, or, where the buffer was full, is as it was;
-- and every other channel is as it was.
pub publish-offered :
    (b after : Broker) (event : String) (m : Message) (ch : ℕ)
    → IsSound b
    → publish b event m ≡ some after
    → (In ch (watching b event) → after.chans ch ≡ offered m (b.chans ch))
      × ((In ch (watching b event) → ⊥) → after.chans ch ≡ b.chans ch)
unfolding publish
publish-offered b after event m ch h p =
    let on : (x : ℕ) → In x (watching b event) → (b.chans x).closed ≡ false =
      λ x i. (h.live event x (watching-IsListed b event x i)).1.not_closed in
    let d = watching-AreDistinct b event h in
    elim (Option-cases (publish_loop m (watching b event) b.chans)) [
      | inl e ↦ absurd (let bad : none ≡ some after = rw (publish, e) at p in (cc))
      | inr (chans, e) ↦
          let same : chans ≡ after.chans =
            ap (λ c. c.chans) (some-injective _ _ (rw (publish, e) at p)) in
          (
            λ i.
                ap (λ f. f ch) (sym same)
                ∙ publish_loop-here m (watching b event) b.chans chans ch on d i e,
            λ out.
                ap (λ f. f ch) (sym same)
                ∙ publish_loop-away m (watching b event) b.chans chans ch on d out e,
          )
    ]
