-- ===== src/Sse/Subscribe.antt =====
-- `Subscribe` of api/internal/sse/broker.go keeps the broker sound.
use mathlib.Core.Option.{some-injective}
use overlap.Common.{
  AreDistinct, AreDistinct-snoc, ℕ, ◌+◌, ◌<◌, ◌≤◌, ◌≡◌, ◌≢◌, refl, sym, subst, ◌∙◌, String, false,
  List, [], ◌∷◌, ◌++◌, some, length, ◌==◌, ◌⊎◌, inl, inr, arith, Bool-cases, In, In-snoc,
  In-append_left, In-append_right,
}
use overlap.Common.Maps.{
  string_key, nat_key, lookup, insert, update, lookup-insert, beq_self, update-same, update-other,
  update-every,
}
use overlap.Sse.{subscriber_buffer, Broker, open_channel, watching, subscribe}
use overlap.Sse.Sound.{
  IsLive, IsListed, IsSound, watching-IsListed, watching-AreDistinct, IsListed-watching,
}

module _ (b : Broker) (event : String) where
  new_set : List ℕ
  new_set = watching b event ++ b.made ∷ []

  new_subs : List (String × List ℕ)
  unfolding new_set
  new_subs = insert b.subs event new_set

  IsListed-new_subs :
      (e : String) (ch : ℕ)
      → IsListed new_subs e ch
      → IsListed b.subs e ch ⊎ ((ch ≡ b.made) × (event ≡ e))
  unfolding new_subs new_set
  IsListed-new_subs e ch (set, p, m) =
      let q = sym (lookup-insert b.subs event (watching b event ++ b.made ∷ []) e) ∙ p in
      elim (Bool-cases (string_key.beq event e)) [
        | inr other ↦ inl (set, rw other at q, m)
        | inl same ↦
            let here : event ≡ e = (string_key.beq_iff event e).0 same in
            let eq = some-injective _ _ (rw same at q) in
            elim (In-snoc ch b.made (watching b event) (subst (In ch) (sym eq) m)) [
              | inl old ↦
                  inl (subst (λ f. IsListed b.subs f ch) here (watching-IsListed b event ch old))
              | inr new ↦ inr (new, here)
            ]
      ]

  new_set-IsListed : IsListed new_subs event b.made
  unfolding new_subs new_set
  new_set-IsListed = (
    new_set,
    lookup-insert b.subs event (watching b event ++ b.made ∷ []) event ∙ rw (beq_self event) refl,
    In-append_right b.made (watching b event) (b.made ∷ []) (inl refl),
  )

  new_subs-IsListed : (e : String) (ch : ℕ) → IsListed b.subs e ch → IsListed new_subs e ch
  unfolding new_subs new_set
  new_subs-IsListed e ch (set, p, m) = elim (Bool-cases (string_key.beq event e)) [
    | inr other ↦ (set, lookup-insert b.subs event new_set e ∙ rw other p, m)
    | inl same ↦
        let here : event ≡ e = (string_key.beq_iff event e).0 same in
        (
          new_set,
          lookup-insert b.subs event new_set e ∙ rw same refl,
          In-append_left ch (watching b event) (b.made ∷ []) (
              IsListed-watching b event ch
                (subst (λ f. IsListed b.subs f ch) (sym here) (set, p, m))),
        )
  ]

  new_set-peopled : (e : String) → lookup b.subs e ≢ some [] → lookup new_subs e ≢ some []
  unfolding new_subs new_set
  new_set-peopled e ok p =
      let q = sym (lookup-insert b.subs event new_set e) ∙ p in
      elim (Bool-cases (string_key.beq event e)) [
        | inr other ↦ ok (rw other at q)
        | inl same ↦
            subst (In b.made) (some-injective _ _ (rw same at q))
              (In-append_right b.made (watching b event) (b.made ∷ []) (inl refl))
      ]

  new_set-AreDistinct :
      IsSound b → (e : String) (set : List ℕ) → lookup new_subs e ≡ some set → AreDistinct set
  unfolding new_subs new_set
  new_set-AreDistinct h e set p =
      let q = sym (lookup-insert b.subs event (watching b event ++ b.made ∷ []) e) ∙ p in
      elim (Bool-cases (string_key.beq event e)) [
        | inr other ↦ h.distinct e set (rw other at q)
        | inl same ↦ subst AreDistinct (some-injective _ _ (rw same at q)) (
            AreDistinct-snoc b.made (watching b event)
              (λ i.
                let r = h.live event b.made (watching-IsListed b event b.made i) in
                absurd (omega (arith, r.0)))
              (watching-AreDistinct b event h))
      ]

  old_channel : (ch : ℕ) → ch < b.made → update b.chans b.made (open_channel event) ch ≡ b.chans ch
  old_channel ch lt =
      update-other b.chans b.made ch (open_channel event) (λ e. ground (arith, lt, e))

  new_channel : update b.chans b.made (open_channel event) b.made ≡ open_channel event
  new_channel = update-same b.chans b.made (open_channel event)

  subscribe-IsLive :
      IsSound b
      → (e : String) (ch : ℕ) → IsListed new_subs e ch
      → (ch < b.made + 1) × IsLive (update b.chans b.made (open_channel event) ch) e
  unfolding open_channel
  subscribe-IsLive h e ch l = elim (IsListed-new_subs e ch l) [
    | inl old ↦
        let r = h.live e ch old in
        (omega (arith, r.0), subst (λ c. IsLive c e) (sym (old_channel ch r.0)) r.1)
    | inr (new, here) ↦ (
      omega (arith, new),
      rw new (
          subst (λ c. IsLive c e) (sym new_channel)
            (record { of_event = here; not_once = refl; not_closed = refl })),
    )
  ]

  subscribe-IsListed :
      IsSound b
      → (ch : ℕ) → ch < b.made + 1
      → (update b.chans b.made (open_channel event) ch).once ≡ false
      → IsListed new_subs (update b.chans b.made (open_channel event) ch).event ch
  unfolding open_channel
  subscribe-IsListed h ch lt on = elim (Bool-cases (b.made == ch)) [
    | inl same ↦
        let e : b.made ≡ ch = ground (arith, same) in
        subst (λ k. IsListed new_subs (update b.chans b.made (open_channel event) k).event k) e
          (subst (λ c. IsListed new_subs c.event b.made) (sym new_channel) new_set-IsListed)
    | inr other ↦
        let old : ch < b.made = ground (arith, lt, other) in
        subst (λ c. IsListed new_subs c.event ch) (sym (old_channel ch old))
          (new_subs-IsListed (b.chans ch).event ch
            (h.listed ch old (subst (λ c. c.once ≡ false) (old_channel ch old) on)))
  ]

  pub subscribe-IsSound : IsSound b → IsSound (subscribe b event).1
  unfolding subscribe new_subs new_set open_channel
  subscribe-IsSound h = record {
    live = subscribe-IsLive h;
    distinct = new_set-AreDistinct h;
    peopled = λ e. new_set-peopled e (h.peopled e);
    listed = subscribe-IsListed h;
    once_closed =
        update-every (λ c. c.once ≡ c.closed) b.chans b.made (open_channel event) refl
          h.once_closed;
    buffered =
        update-every (λ c. length c.buffer ≤ subscriber_buffer) b.chans b.made (open_channel event)
          (omega arith) h.buffered;
  }
