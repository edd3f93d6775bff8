-- ===== src/Ratelimit/Tests.antt =====
-- Runs of the limiter and instances of its theorems.
use overlap.Common.{ℕ, ◌≡◌, refl, true, [], ◌∷◌, none, some, arith, subst}
use overlap.Common.Int.{ℤ, pos, ◌+ℤ◌, ◌-ℤ◌}
use overlap.Common.Float.{nought}
use mathlib.Core.Option.{some-injective}
use overlap.Common.Fixed.{fixed, fixed-IsRounded}
use overlap.Common.Maps.{string_key, lookup, insert, delete_where}
use overlap.Ratelimit.{
  Bucket, Limiter, new, elapsed, seconds, cap, refilled, is_full, evict, sweep, spend, admit, allow,
}
use overlap.Ratelimit.Bounds.{IsBounded, allow-IsBounded}
use overlap.Ratelimit.Eviction.{Agree, allow-sweep}

-- One request at a time, then one a second; two keys at most.
abbrev small : Limiter ℤ
small = record {
  burst = pos 10_000;
  refill = pos 10_000;
  max_keys = 2;
  buckets =
      ("a", record { tokens = pos 0; last = 0 })
      ∷ ("b", record { tokens = pos 0; last = 3_000_000_000 })
      ∷ [];
}

limiter_open : ℕ
unfolding new elapsed seconds cap refilled is_full evict sweep spend admit allow lookup insert
    delete_where ◌+ℤ◌ ◌-ℤ◌
limiter_open = 0

built : new {F = ℤ} 1 (pos 600_000) 2 ≡ record small { buckets = [] }
unfolding new
built = refl

-- Half a second in, half a token is missing.
too_soon : (allow small "b" 3_500_000_000).1 ≡ some (pos (5_000_000_000_000))
unfolding limiter_open
too_soon = refl

in_time : (allow small "b" 4_000_000_000).1 ≡ none
unfolding limiter_open
in_time = refl

-- The bucket of "a" is full and makes room for "c".
makes_room : lookup (allow small "c" 3_500_000_000).0.buckets "a" ≡ none
unfolding limiter_open
makes_room = refl

-- No bucket is full, and a third key passes untracked.
passes : allow small "c" 500_000_000 ≡ (small, none)
unfolding limiter_open
passes = refl

allow-IsBounded_example : IsBounded (allow small "b" 3_500_000_000).0
allow-IsBounded_example =
    allow-IsBounded fixed-IsRounded small "b" 3_500_000_000 (refl, refl)
      (((refl, refl), ((refl, refl), tt)), ((refl, tt), (tt, tt)), omega arith)

a_waited :
    (b : Bucket ℤ)
    → lookup small.buckets "a" ≡ some b
    → fixed.lt (nought {F = ℤ}) (elapsed 5_000_000_000 b.last) ≡ true
unfolding lookup elapsed seconds ◌+ℤ◌
a_waited b e =
    subst (λ c. fixed.lt nought (elapsed 5_000_000_000 c.last) ≡ true) (some-injective _ _ e) refl

allow-sweep_example :
    Agree "a"
      (allow (sweep small 5_000_000_000).0 "a" 5_000_000_000)
      (allow small "a" 5_000_000_000)
allow-sweep_example =
    allow-sweep fixed-IsRounded small "a" 5_000_000_000 ((refl, tt), (tt, tt)) (omega arith)
      a_waited
