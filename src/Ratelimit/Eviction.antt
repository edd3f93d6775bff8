-- ===== src/Ratelimit/Eviction.antt =====
-- Why dropping a full bucket loses nothing, over `evictLocked` and `Allow` of
-- api/internal/ratelimit/ratelimit.go.
use overlap.Common.{
  ◌≤◌, ◌<◌, ◌≡◌, refl, sym, ◌∙◌, String, Bool, true, false, List, [], ◌∷◌, Option, none, some,
  Bool-cases, Option-cases, length, arith, leb, ap, subst, inl, inr, ltb-eq-false, ◌-◌,
}
use overlap.Common.Float.{Float, IsRounded, ◌⊕◌, ◌⊗◌, nought, unit}
use overlap.Common.Maps.{
  Key, string_key, lookup, delete_where, IsMap, lookup-insert, lookup-delete_where,
  length-delete_where-le, beq_self,
}
use overlap.Time.{Time, second}
use overlap.Ratelimit.{
  Bucket, Limiter, elapsed, seconds, cap, refilled, is_full, evict, sweep, spend, admit, allow,
}

module _ {K V : Type 0} ⦃key : Key K⦄ where
  drop_twice :
      (p : V → Bool) (m : List (K × V)) → delete_where p (delete_where p m) ≡ delete_where p m
  unfolding delete_where
  drop_twice p [] = refl
  drop_twice p ((j, v) ∷ m) = elim (Bool-cases (p v)) [
    | inl e ↦ rw e (drop_twice p m)
    | inr e ↦ rw (e, e) (ap (λ r. (j, v) ∷ r) (drop_twice p m))
  ]

  drop_shorter :
      (p : V → Bool) (m : List (K × V)) (k : K) (v : V)
      → lookup m k ≡ some v
      → p v ≡ true
      → length (delete_where p m) < length m
  unfolding lookup delete_where
  drop_shorter p [] k v h e = absurd (cc)
  drop_shorter p ((j, w) ∷ m) k v h e =
      ground (arith, length-delete_where-le p m, drop_shorter p m k v)

module _ {F : Type 0} ⦃fl : Float F⦄ where
  -- Two results of a call answer the same, and leave the same bucket for the key.
  abbrev pub Agree : String → Limiter F × Option F → Limiter F × Option F → Type 0
  Agree key r s = (r.1 ≡ s.1) × (lookup r.0.buckets key ≡ lookup s.0.buckets key)

  spend-Agree :
      (l m : Limiter F) (key : String) (now : Time) (b c : Bucket F)
      → l.refill ≡ m.refill
      → refilled l now b ≡ refilled m now c
      → Agree key (spend l key now b) (spend m key now c)
  unfolding spend
  spend-Agree l m key now b c er e =
      let full = refilled m now c in
      elim (Bool-cases (fl.lt full.tokens unit)) [
        | inl t ↦
            rw (e, er, t)
              (
                refl,
                rw
                    (
                      lookup-insert l.buckets key full key,
                      lookup-insert m.buckets key full key,
                      beq_self key,
                    )
                    refl,
              )
        | inr t ↦
            rw (e, er, t)
              (
                refl,
                rw
                    (
                      lookup-insert l.buckets key _ key,
                      lookup-insert m.buckets key _ key,
                      beq_self key,
                    )
                    refl,
              )
      ]

module _ {F : Type 0} ⦃fl : Float F⦄ (laws : IsRounded F) where
  no_time : (now : Time) → fl.lt nought (elapsed now now) ≡ false
  unfolding elapsed seconds
  no_time now =
      let e : now - now ≡ 0 = omega arith in
      let rest =
        laws.le_trans _ _ _
          (laws.div_mono _ _ _ (laws.of_ℕ_pos second (omega arith)) laws.of_ℕ_zero)
          (laws.nought_div (fl.of_ℕ second)) in
      rw (ltb-eq-false now now (omega arith), e)
        (laws.le_trans _ _ _ (laws.add_mono _ _ _ _ laws.of_ℕ_zero rest) (laws.add_nought nought).1)

  -- A fresh bucket is already full.
  refilled-fresh :
      (l : Limiter F) (now : Time)
      → refilled l now (record { tokens = l.burst; last = now })
        ≡ record { tokens = l.burst; last = now }
  unfolding refilled
  refilled-fresh l now = rw (no_time now) refl

  -- A bucket that has refilled to full is a fresh one.
  refilled-full :
      (l : Limiter F) (now : Time) (b : Bucket F)
      → is_full l now b ≡ true
      → fl.lt nought (elapsed now b.last) ≡ true
      → refilled l now b ≡ record { tokens = l.burst; last = now }
  unfolding refilled is_full cap
  refilled-full l now b f e =
      elim (Bool-cases (fl.lt (b.tokens ⊕ elapsed now b.last ⊗ l.refill) l.burst)) [
        | inl t ↦ absurd (ground (arith, f, t))
        | inr t ↦ rw (e, t) refl
      ]

  admit-room :
      (l : Limiter F) (key : String) (now : Time)
      → length l.buckets < l.max_keys
      → admit l key now ≡ spend l key now (record { tokens = l.burst; last = now })
  unfolding admit
  admit-room l key now h =
      let e : leb l.max_keys (length l.buckets) ≡ false = ground (arith, h) in rw (e, e) refl

  admit-crowded :
      (l : Limiter F) (key : String) (now : Time)
      → l.max_keys ≤ length l.buckets
      → l.max_keys ≤ length (evict l now).0.buckets
      → admit l key now ≡ ((evict l now).0, none)
  unfolding admit evict
  admit-crowded l key now h k =
      let fewer = (evict l now).0 in
      let e : leb l.max_keys (length l.buckets) ≡ true = ground (arith, h) in
      let t : leb l.max_keys (length fewer.buckets) ≡ true = ground (arith, k) in rw (e, t) refl

  admit-eased :
      (l : Limiter F) (key : String) (now : Time)
      → l.max_keys ≤ length l.buckets
      → length (evict l now).0.buckets < l.max_keys
      → admit l key now ≡ spend (evict l now).0 key now (record { tokens = l.burst; last = now })
  unfolding admit evict
  admit-eased l key now h k =
      let fewer = (evict l now).0 in
      let e : leb l.max_keys (length l.buckets) ≡ true = ground (arith, h) in
      let t : leb l.max_keys (length fewer.buckets) ≡ false = ground (arith, k) in rw (e, t) refl

  evict_twice : (l : Limiter F) (now : Time) → (evict (evict l now).0 now).0 ≡ (evict l now).0
  unfolding evict is_full
  evict_twice l now = ap (λ m. record l { buckets = m }) (drop_twice (is_full l now) l.buckets)

  -- Making room first changes nothing for a key that has no bucket before or after.
  admit-evict :
      (l : Limiter F) (key : String) (now : Time)
      → Agree key (admit (evict l now).0 key now) (admit l key now)
  unfolding evict refilled
  admit-evict l key now =
      let fewer = (evict l now).0 in
      let le = length-delete_where-le (is_full l now) l.buckets in
      let again = evict_twice l now in
      elim (Bool-cases (leb l.max_keys (length fewer.buckets))) [
        | inl t ↦
            let here : l.max_keys ≤ length fewer.buckets = ground (arith, t) in
            let there : fewer.max_keys ≤ length (evict fewer now).0.buckets =
              subst (λ m. l.max_keys ≤ length m.buckets) (sym again) here in
            rw
              (
                admit-crowded fewer key now here there,
                admit-crowded l key now (omega (arith, here, le)) here,
              )
              (refl, ap (λ m. lookup m.buckets key) again)
        | inr t ↦
            let here : length fewer.buckets < l.max_keys = ground (arith, t) in
            elim (Bool-cases (leb l.max_keys (length l.buckets))) [
              | inl e ↦
                  rw (admit-room fewer key now here, admit-eased l key now (ground (arith, e)) here)
                    (refl, refl)
              | inr e ↦
                  rw (admit-room fewer key now here, admit-room l key now (ground (arith, e)))
                    (spend-Agree fewer l key now _ _ refl refl)
            ]
      ]

  allow-hit :
      (l : Limiter F) (key : String) (now : Time) (b : Bucket F)
      → lookup l.buckets key ≡ some b
      → allow l key now ≡ spend l key now b
  unfolding allow spend
  allow-hit l key now b e = rw (e, allow) refl

  allow-miss :
      (l : Limiter F) (key : String) (now : Time)
      → lookup l.buckets key ≡ none
      → allow l key now ≡ admit l key now
  unfolding allow admit
  allow-miss l key now e = rw (e, allow) refl

  -- What a call answers does not depend on whether full buckets were dropped just before: on a
  -- limiter within its cap, for a key whose bucket, if it has one, is older than now, Allow gives the
  -- same answer (the same wait for a refusal) after a sweep at that instant as without it, and
  -- leaves the key the same bucket.
  pub allow-sweep :
      (l : Limiter F) (key : String) (now : Time)
      → IsMap l.buckets
      → length l.buckets ≤ l.max_keys
      → ((b : Bucket F) → lookup l.buckets key ≡ some b → fl.lt nought (elapsed now b.last) ≡ true)
      → Agree key (allow (sweep l now).0 key now) (allow l key now)
  unfolding sweep evict refilled
  allow-sweep l key now hm hl old =
      let after = lookup-delete_where (is_full l now) l.buckets key hm in
      let fewer = (evict l now).0 in
      elim (Option-cases (lookup l.buckets key)) [
        | inl e ↦
            rw (allow-miss l key now e, allow-miss fewer key now (after ∙ rw e refl))
              (admit-evict l key now)
        | inr (b, e) ↦ elim (Bool-cases (is_full l now b)) [
          | inl f ↦
              let room : length fewer.buckets < fewer.max_keys =
                omega (arith, drop_shorter (is_full l now) l.buckets key b e f, hl) in
              rw
                (
                  allow-hit l key now b e,
                  allow-miss fewer key now (after ∙ rw (e, f) refl),
                  admit-room fewer key now room,
                )
                (spend-Agree fewer l key now _ b refl
                  (refilled-fresh l now ∙ sym (refilled-full l now b f (old b e))))
          | inr f ↦
              rw (allow-hit l key now b e, allow-hit fewer key now b (after ∙ rw (e, f) refl))
                (spend-Agree fewer l key now b b refl refl)
        ]
      ]
