-- ===== src/Ratelimit.antt =====
-- api/internal/ratelimit/ratelimit.go: a token bucket per key, in bounded memory.
pub mod Bounds
pub mod Eviction
mod Tests
use overlap.Common.{
  ℕ, ◌+◌, ◌-◌, ◌/◌, ◌%◌, ◌*◌, ◌≤◌, ◌≡◌, String, Bool, true, false, List, [], ◌∷◌, Option, none,
  some, length, leb, ltb, if◌then◌else◌,
}
use overlap.Common.Float.{Float, ◌⊕◌, ◌⊖◌, ◌⊗◌, ◌⊘◌, nought, unit, ◌≼◌}
use overlap.Common.Maps.{string_key, lookup, insert, delete_where}
use overlap.Time.{Time, second}

pub record Bucket (F : Type 0) : Type 0 where
  pub tokens : F
  pub last : Time

pub record Limiter (F : Type 0) : Type 0 where
  pub burst : F
  -- Tokens added per second.
  pub refill : F
  pub max_keys : ℕ
  pub buckets : List (String × Bucket F)

module _ {F : Type 0} ⦃fl : Float F⦄ where
  -- `New`
  unfoldable pub new : ℕ → F → ℕ → Limiter F
  new burst per_minute max_keys = record {
    burst = fl.of_ℕ burst;
    refill = per_minute ⊘ fl.lit 60 1;
    max_keys = max_keys;
    buckets = [];
  }

  -- `Duration.Seconds`: the whole seconds and the rest are converted by themselves.
  unfoldable pub seconds : ℕ → F
  seconds d = fl.of_ℕ (d / second) ⊕ fl.of_ℕ (d % second) ⊘ fl.of_ℕ second

  -- `now.Sub(last).Seconds()`, a negative number where the clock has gone back.
  unfoldable pub elapsed : Time → Time → F
  elapsed now last = if ltb now last then fl.neg (seconds (last - now)) else seconds (now - last)

  -- `min(l.burst, t)`
  unfoldable pub cap : F → F → F
  cap burst t = if fl.lt t burst then t else burst

  -- The lazy refill of `Allow`.
  unfoldable pub refilled : Limiter F → Time → Bucket F → Bucket F
  refilled l now b =
      let e = elapsed now b.last in
      if fl.lt nought e
      then record b { tokens = cap l.burst (b.tokens ⊕ e ⊗ l.refill); last = now }
      else b

  -- The test of `evictLocked`.
  unfoldable pub is_full : Limiter F → Time → Bucket F → Bool
  is_full l now b = if fl.lt (b.tokens ⊕ elapsed now b.last ⊗ l.refill) l.burst then false else true

  -- `evictLocked`: the limiter, and how many buckets were dropped.
  unfoldable pub evict : Limiter F → Time → Limiter F × ℕ
  evict l now =
      let kept = delete_where (is_full l now) l.buckets in
      (record l { buckets = kept }, length l.buckets - length kept)

  -- `Sweep`
  unfoldable pub sweep : Limiter F → Time → Limiter F × ℕ
  sweep l now = evict l now

  -- `Len`
  unfoldable pub len : Limiter F → ℕ
  len l = length l.buckets

  -- The end of `Allow`: refill the bucket and spend a token. The result is the wait in
  -- nanoseconds that a refusal reports, before the fraction is cut off.
  unfoldable pub spend : Limiter F → String → Time → Bucket F → Limiter F × Option F
  spend l key now b =
      let full = refilled l now b in
      if fl.lt full.tokens unit
      then (
        record l { buckets = insert l.buckets key full },
        some ((unit ⊖ full.tokens) ⊘ l.refill ⊗ fl.of_ℕ second),
      )
      else (
        record l { buckets = insert l.buckets key (record full { tokens = full.tokens ⊖ unit }) },
        none,
      )

  -- A new key: make room at the cap, and let it pass untracked where there is none.
  unfoldable pub admit : Limiter F → String → Time → Limiter F × Option F
  admit l key now =
      let roomy = if leb l.max_keys (length l.buckets) then (evict l now).0 else l in
      if leb l.max_keys (length roomy.buckets)
      then (roomy, none)
      else spend roomy key now (record { tokens = l.burst; last = now })

  -- `Allow`: `none` is permission, and otherwise the time to wait.
  unfoldable pub allow : Limiter F → String → Time → Limiter F × Option F
  allow l key now = elim (lookup l.buckets key) [
    | none ↦ admit l key now
    | some b ↦ spend l key now b
  ]
