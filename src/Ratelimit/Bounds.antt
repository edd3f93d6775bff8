-- ===== src/Ratelimit/Bounds.antt =====
-- The memory of the limiter and the range of its buckets, over api/internal/ratelimit/ratelimit.go.
use overlap.Common.{◌≤◌, ◌≡◌, String, false, Bool-cases, Option-cases, inl, inr, length, arith, leb}
use overlap.Common.Float.{Float, IsRounded, ◌⊕◌, ◌⊖◌, ◌⊗◌, nought, unit, ◌≼◌, le_refl}
use overlap.Common.Maps.{
  string_key, lookup, insert, Values, Values-insert, Values-delete_where, Values-lookup, IsMap,
  insert-IsMap, delete_where-IsMap, length-insert-le, length-insert_hit, length-delete_where-le,
}
use overlap.Time.{Time}
use overlap.Ratelimit.{Bucket, Limiter, elapsed, cap, refilled, is_full, evict, spend, admit, allow}

module _ {F : Type 0} ⦃fl : Float F⦄ where
  -- A bucket holds between no token and the burst.
  abbrev pub IsWithin : F → Bucket F → Type 0
  IsWithin burst b = (nought ≼ b.tokens) × (b.tokens ≼ burst)

  -- What holds of a limiter between two calls.
  abbrev pub IsBounded : Limiter F → Type 0
  IsBounded l =
      Values (IsWithin l.burst) l.buckets × IsMap l.buckets × (length l.buckets ≤ l.max_keys)

  -- A limiter that refills, or at least does not drain.
  abbrev pub IsSensible : Limiter F → Type 0
  IsSensible l = (nought ≼ l.burst) × (nought ≼ l.refill)

module _ {F : Type 0} ⦃fl : Float F⦄ (laws : IsRounded F) where
  unit_nonneg : ◌≼◌ {F = F} nought unit
  unit_nonneg = laws.lit_mono 0 1 1 1 (omega arith) (omega arith) (omega arith)

  refilled-IsWithin :
      (l : Limiter F) (now : Time) (b : Bucket F)
      → IsSensible l
      → IsWithin l.burst b
      → IsWithin l.burst (refilled l now b)
  unfolding refilled cap
  refilled-IsWithin l now b (hb, hr) (h0, h1) =
      elim (Bool-cases (fl.lt nought (elapsed now b.last))) [
        | inl e ↦
            let gain = elapsed now b.last ⊗ l.refill in
            let up : nought ≼ b.tokens ⊕ gain = laws.le_trans _ _ _ (laws.add_nought nought).0 (
              laws.add_mono _ _ _ _ h0
                (laws.mul_nonneg (elapsed now b.last) l.refill (laws.lt_asymm _ _ e) hr)) in
            rw e elim (Bool-cases (fl.lt (b.tokens ⊕ gain) l.burst)) [
              | inl t ↦ rw t (up, laws.lt_asymm _ _ t)
              | inr t ↦ rw t (hb, le_refl laws l.burst)
            ]
        | inr e ↦ rw e (h0, h1)
      ]

  spent-IsWithin :
      (burst : F) (b : Bucket F)
      → IsWithin burst b
      → fl.lt b.tokens unit ≡ false
      → IsWithin burst (record b { tokens = b.tokens ⊖ unit })
  spent-IsWithin burst b (h0, h1) e = (
    laws.le_trans _ _ _ (laws.sub_self unit) (laws.sub_mono _ _ _ _ e (le_refl laws unit)),
    laws.le_trans _ _ _ (laws.sub_mono _ _ _ _ h1 unit_nonneg) (laws.sub_nought burst),
  )

  -- The bucket may be new, where there is room, or the one that the map holds.
  spend-IsBounded :
      (l : Limiter F) (key : String) (now : Time) (b : Bucket F)
      → IsSensible l
      → IsBounded l
      → IsWithin l.burst b
      → ((c : Bucket F) → length (insert l.buckets key c) ≤ l.max_keys)
      → IsBounded (spend l key now b).0
  unfolding spend
  spend-IsBounded l key now b s (hv, hm, hl) hb room =
      let fine = refilled-IsWithin l now b s hb in
      let full = refilled l now b in
      elim (Bool-cases (fl.lt full.tokens unit)) [
        | inl e ↦ rw e (
          Values-insert (IsWithin l.burst) l.buckets key full fine hv,
          insert-IsMap l.buckets key full hm,
          room full,
        )
        | inr e ↦
            let left : Bucket F = record full { tokens = full.tokens ⊖ unit } in
            rw e (
              Values-insert (IsWithin l.burst) l.buckets key left
                  (spent-IsWithin l.burst full fine e) hv,
              insert-IsMap l.buckets key left hm,
              room left,
            )
      ]

  evict-IsBounded : (l : Limiter F) (now : Time) → IsBounded l → IsBounded (evict l now).0
  unfolding evict
  evict-IsBounded l now (hv, hm, hl) = (
    Values-delete_where (IsWithin l.burst) (is_full l now) l.buckets hv,
    delete_where-IsMap (is_full l now) l.buckets hm,
    omega (arith, length-delete_where-le (is_full l now) l.buckets),
  )

  -- The last step of `admit`, on the limiter that has made what room it could.
  track-IsBounded :
      (l : Limiter F) (key : String) (now : Time)
      → IsSensible l
      → IsBounded l
      → leb l.max_keys (length l.buckets) ≡ false
      → IsBounded (spend l key now (record { tokens = l.burst; last = now })).0
  track-IsBounded l key now s h e =
      spend-IsBounded l key now _ s h (s.0, le_refl laws l.burst)
        (λ c. ground (arith, length-insert-le l.buckets key c, e))

  admit-IsBounded :
      (l : Limiter F) (key : String) (now : Time)
      → IsSensible l
      → IsBounded l
      → IsBounded (admit l key now).0
  unfolding admit evict
  admit-IsBounded l key now s h =
      let fewer = (evict l now).0 in
      elim (Bool-cases (leb l.max_keys (length l.buckets))) [
        | inl e ↦ elim (Bool-cases (leb l.max_keys (length fewer.buckets))) [
          | inl t ↦ rw (e, t) (evict-IsBounded l now h)
          | inr t ↦ rw (e, t) (track-IsBounded fewer key now s (evict-IsBounded l now h) t)
        ]
        | inr e ↦ rw (e, e) (track-IsBounded l key now s h e)
      ]

  -- Where the burst and the refill rate are not negative, every call of Allow keeps what bounds the
  -- limiter: each bucket holds between no token and the burst, a key has one bucket, and there are
  -- at most maxKeys buckets, whatever the key, the time and the answer.
  pub allow-IsBounded :
      (l : Limiter F) (key : String) (now : Time)
      → IsSensible l
      → IsBounded l
      → IsBounded (allow l key now).0
  unfolding allow
  allow-IsBounded l key now s h = elim (Option-cases (lookup l.buckets key)) [
    | inl e ↦ rw (e, allow) (admit-IsBounded l key now s h)
    | inr (b, e) ↦
        rw (e, allow)
          (spend-IsBounded l key now b s h (Values-lookup (IsWithin l.burst) l.buckets key b h.0 e)
            (λ c. omega (arith, length-insert_hit l.buckets key c b e, h.2)))
  ]
