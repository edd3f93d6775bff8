-- ===== src/Time/Nanos.antt =====
-- `UnixNano`: the nanoseconds from 1970, which wrap at 64 bits. The residue stands for the int64.
use overlap.Common.{
  ℕ, ◌-◌, ◌%◌, ◌^◌, ◌<◌, ◌≡◌, refl, ap, ◌∙◌, List, [], ◌∷◌, Option, some, foldl, any, All, ◌==◌,
  ==_iff, if◌then◌else◌, arith, Bool-cases, inl, inr,
}
use overlap.Common.Int.{ℤ, pos, negsuc}
use overlap.Common.Maps.{nat_key, update}
use overlap.Time.{Time}

-- Of any instant, also one before 1970.
unfoldable pub unix_nano : ℤ → ℕ
unix_nano (pos n) = n % 2 ^ 64
unix_nano (negsuc n) = 2 ^ 64 - 1 - n % 2 ^ 64

-- The instants that an int64 holds without a wrap, from 1678 to 2262.
abbrev pub IsNear : Time → Type 0
IsNear t = t < 2 ^ 63

abbrev pub IsInstant : ℤ → Type 0
IsInstant (pos n) = n < 2 ^ 63
IsInstant (negsuc n) = n < 2 ^ 63

pub unix_nano-IsNear : (t : Time) → IsNear t → unix_nano (pos t) ≡ t
unfolding unix_nano
unix_nano-IsNear t h = omega (arith, h)

-- Only the instant itself has its reading.
pub unix_nano-IsInstant : (z : ℤ) (t : Time) → IsInstant z → IsNear t → unix_nano z ≡ t → z ≡ pos t
unfolding unix_nano
unix_nano-IsInstant (pos n) t h k e = let same : n ≡ t = omega (arith, h, e) in ap (λ m. pos m) same
unix_nano-IsInstant (negsuc n) t h k e = absurd (omega (arith, h, k, e))

-- A map from readings to instants, filled by a loop over instants.
pub foldl-unix_nano :
    (ts : List Time) (m : ℕ → Option Time) (k : ℕ)
    → All IsNear ts
    → foldl (λ m t. update m (unix_nano (pos t)) (some t)) m ts k
      ≡ (if any (λ t. t == k) ts then some k else m k)
foldl-unix_nano [] m k h = refl
foldl-unix_nano (t ∷ ts) m k h =
    foldl-unix_nano ts (update m (unix_nano (pos t)) (some t)) k h.1
    ∙ rw (unix_nano-IsNear t h.0) (elim (Bool-cases (t == k)) [
      | inl e ↦ rw e (ground (arith, ap (λ a. some a) ((==_iff t k).0 e)))
      | inr e ↦ rw e refl
    ])
