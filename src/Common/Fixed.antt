-- ===== src/Common/Fixed.antt =====
-- Decimal fixed-point numbers with four places, rounded towards zero: a concrete arithmetic that
-- meets the laws asked of `float64`, for the runs and the instances of the theorems.
use Prim.Native.Nat.{ℕ, suc, ◌*◌, ◌/◌, ◌≤◌, ◌<◌}
use mathlib.Core.Path.{◌≡◌}
use mathlib.Core.Bool.{true, false}
use native.Mathlib.Omega.{arith}
use native.Mathlib.Nat.{
  le-div_iff_mul-le, div-mul-le_self, mul-le-mul_right, le_of_mul-le-mul_right, mul_comm, zero-div,
}
use overlap.Common.Int.{ℤ, pos, negsuc, sub_ℕ, ◌+ℤ◌, ◌-ℤ◌, ltb_ℤ, +ℤ_parts, -ℤ_parts}
use overlap.Common.Float.{Float, IsRounded}

abbrev pub scale : ℕ
scale = 10_000

abbrev pub fix_mul : ℤ → ℤ → ℤ
fix_mul (pos a) (pos b) = pos (a * b / scale)
fix_mul (pos a) (negsuc b) = sub_ℕ 0 (a * suc b / scale)
fix_mul (negsuc a) (pos b) = sub_ℕ 0 (suc a * b / scale)
fix_mul (negsuc a) (negsuc b) = pos (suc a * suc b / scale)

abbrev pub fix_div : ℤ → ℤ → ℤ
fix_div (pos a) (pos b) = pos (a * scale / b)
fix_div (pos a) (negsuc b) = sub_ℕ 0 (a * scale / suc b)
fix_div (negsuc a) (pos b) = sub_ℕ 0 (suc a * scale / b)
fix_div (negsuc a) (negsuc b) = pos (suc a * scale / suc b)

instance abbrev pub fixed : Float ℤ
fixed = record {
  lit = λ n d. pos (n * scale / d);
  of_ℕ = λ n. pos (n * scale);
  add = ◌+ℤ◌;
  sub = ◌-ℤ◌;
  mul = fix_mul;
  div = fix_div;
  neg = λ a. pos 0 -ℤ a;
  lt = ltb_ℤ;
}

div_mono : (a b c : ℕ) → a ≤ b → a / c ≤ b / c
div_mono a b c h = grind arith

lit_mono : (a b c d : ℕ) → 0 < b → 0 < d → a * d ≤ c * b → a * scale / b ≤ c * scale / d
lit_mono a b c d pb pd h = (le-div_iff_mul-le pd).1 (
    le_of_mul-le-mul_right
      (omega (arith, mul-le-mul_right d (div-mul-le_self (a * scale) b), mul-le-mul_right scale h))
      pb)

mul_right_mono :
    (a b c : ℤ)
    → ltb_ℤ c (pos 0) ≡ false
    → ltb_ℤ b a ≡ false
    → ltb_ℤ (fix_mul b c) (fix_mul a c) ≡ false
mul_right_mono (pos a) (pos b) (pos c) hc h =
    let q : a ≤ b = ground arith in
    ground (arith, div_mono (a * c) (b * c) scale (mul-le-mul_right c q))
mul_right_mono (pos a) (negsuc b) (pos c) hc h = absurd (ground arith)
mul_right_mono (negsuc a) (pos b) (pos c) hc h = ground arith
mul_right_mono (negsuc a) (negsuc b) (pos c) hc h =
    let q : suc b ≤ suc a = ground arith in
    ground (arith, div_mono (suc b * c) (suc a * c) scale (mul-le-mul_right c q))
mul_right_mono a b (negsuc c) hc h = absurd (ground arith)

fix_mul_comm : (a b : ℤ) → fix_mul a b ≡ fix_mul b a
fix_mul_comm (pos a) (pos b) = rw (mul_comm a b)
fix_mul_comm (pos a) (negsuc b) = rw (mul_comm a (suc b))
fix_mul_comm (negsuc a) (pos b) = rw (mul_comm (suc a) b)
fix_mul_comm (negsuc a) (negsuc b) = rw (mul_comm (suc a) (suc b))

fix_div_mono :
    (a b c : ℤ)
    → ltb_ℤ (pos 0) c ≡ true
    → ltb_ℤ b a ≡ false
    → ltb_ℤ (fix_div b c) (fix_div a c) ≡ false
fix_div_mono (pos a) (pos b) (pos c) hc h =
    let q : a ≤ b = ground arith in
    ground (arith, div_mono (a * scale) (b * scale) c (mul-le-mul_right scale q))
fix_div_mono (pos a) (negsuc b) (pos c) hc h = absurd (ground arith)
fix_div_mono (negsuc a) (pos b) (pos c) hc h = ground arith
fix_div_mono (negsuc a) (negsuc b) (pos c) hc h =
    let q : suc b ≤ suc a = ground arith in
    ground (arith, div_mono (suc b * scale) (suc a * scale) c (mul-le-mul_right scale q))
fix_div_mono a b (negsuc c) hc h = absurd (ground arith)

fix_mul_nonneg :
    (a b : ℤ)
    → ltb_ℤ a (pos 0) ≡ false
    → ltb_ℤ b (pos 0) ≡ false
    → ltb_ℤ (fix_mul a b) (pos 0) ≡ false
fix_mul_nonneg (pos a) (pos b) h k = ground arith
fix_mul_nonneg (negsuc a) b h k = absurd (ground arith)
fix_mul_nonneg (pos a) (negsuc b) h k = absurd (ground arith)

nought_div : (a : ℤ) → ltb_ℤ (pos 0) (fix_div (pos (0 * scale / 1)) a) ≡ false
nought_div (pos n) = rw (zero-div n)
nought_div (negsuc n) = rw (zero-div (suc n))

pub fixed-IsRounded : IsRounded ℤ
fixed-IsRounded = record {
  lt_asymm = λ a b h. ground arith;
  le_trans = λ a b c h k. ground arith;
  lit_mono = λ a b c d pb pd h. ground (arith, lit_mono a b c d pb pd h);
  add_mono = λ a b c d h k. ground (arith, +ℤ_parts a c, +ℤ_parts b d);
  add_nought = λ a. (
    ground (arith, +ℤ_parts a (pos (0 * scale / 1))),
    ground (arith, +ℤ_parts a (pos (0 * scale / 1))),
  );
  sub_mono = λ a b c d h k. ground (arith, -ℤ_parts a c, -ℤ_parts b d);
  mul_mono = λ a b c hc h. (
    mul_right_mono a b c hc h,
    rw (fix_mul_comm c b, fix_mul_comm c a) (mul_right_mono a b c hc h),
  );
  mul_nonneg = fix_mul_nonneg;
  div_mono = fix_div_mono;
  sub_self = λ a. ground (arith, -ℤ_parts a a);
  sub_nought = λ a. ground (arith, -ℤ_parts a (pos (0 * scale / 1)));
  nought_div = nought_div;
  of_ℕ_zero = ground arith;
  of_ℕ_pos = λ n h. ground arith;
  sub_flip = λ a b e h. ground (arith, -ℤ_parts a b, -ℤ_parts b a, -ℤ_parts (pos 0) e);
  neg_nonpos = λ a h. ground (arith, -ℤ_parts (pos 0) a);
  of_ℕ_mono = λ m n h. ground arith;
}
