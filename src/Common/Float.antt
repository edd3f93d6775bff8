-- ===== src/Common/Float.antt =====
-- `float64`, taken as a type with the operations that the program uses and the laws of rounded
-- arithmetic that it relies on. A value is not NaN: the program divides by values that are not zero
-- only, and its inputs are finite.
use native.Mathlib.Omega.{arith}
use overlap.Common.Tests.{Bool-cases}
use Prim.Native.Nat.{ℕ, ◌*◌, ◌≤◌, ◌<◌}
use mathlib.Core.Path.{◌≡◌}
use mathlib.Core.Bool.{Bool, true, false, ◌||◌}
use mathlib.Core.Logic.{◌⊎◌, inl, inr}

pub record Float (F : Type 0) : Type 0 where
  -- The literal or constant n / d.
  pub lit : ℕ → ℕ → F
  pub of_ℕ : ℕ → F
  pub add : F → F → F
  pub sub : F → F → F
  pub mul : F → F → F
  pub div : F → F → F
  pub neg : F → F
  pub lt : F → F → Bool

module _ {F : Type 0} ⦃fl : Float F⦄ where
  infixl 65 ◌⊕◌ ◌⊖◌
  infixl 70 ◌⊗◌ ◌⊘◌
  abbrev pub ◌⊕◌ : F → F → F
  ◌⊕◌ = fl.add

  abbrev pub ◌⊖◌ : F → F → F
  ◌⊖◌ = fl.sub

  abbrev pub ◌⊗◌ : F → F → F
  ◌⊗◌ = fl.mul

  abbrev pub ◌⊘◌ : F → F → F
  ◌⊘◌ = fl.div

  abbrev pub nought : F
  nought = fl.lit 0 1

  abbrev pub unit : F
  unit = fl.lit 1 1

  -- `a != b`, which tells apart what the order tells apart (so not the two zeros).
  abbrev pub differs : F → F → Bool
  differs a b = fl.lt a b || fl.lt b a

  -- `a <= b`
  infix 50 ◌≼◌
  abbrev pub ◌≼◌ : F → F → Type 0
  a ≼ b = fl.lt b a ≡ false

-- The order is total up to equality, and rounding is monotone: each operation keeps the order of
-- its arguments as the exact operation does.
pub record IsRounded (F : Type 0) ⦃fl : Float F⦄ : Type 0 where
  pub lt_asymm : (a b : F) → fl.lt a b ≡ true → a ≼ b
  pub le_trans : (a b c : F) → a ≼ b → b ≼ c → a ≼ c
  pub lit_mono : (a b c d : ℕ) → 0 < b → 0 < d → a * d ≤ c * b → fl.lit a b ≼ fl.lit c d
  pub add_mono : (a b c d : F) → a ≼ b → c ≼ d → a ⊕ c ≼ b ⊕ d
  pub add_nought : (a : F) → (a ≼ a ⊕ nought) × (a ⊕ nought ≼ a)
  pub sub_mono : (a b c d : F) → a ≼ b → d ≼ c → a ⊖ c ≼ b ⊖ d
  pub mul_mono : (a b c : F) → nought ≼ c → a ≼ b → (a ⊗ c ≼ b ⊗ c) × (c ⊗ a ≼ c ⊗ b)
  pub mul_nonneg : (a b : F) → nought ≼ a → nought ≼ b → nought ≼ a ⊗ b
  pub div_mono : (a b c : F) → fl.lt nought c ≡ true → a ≼ b → a ⊘ c ≼ b ⊘ c
  pub sub_self : (a : F) → nought ≼ a ⊖ a
  pub sub_nought : (a : F) → a ⊖ nought ≼ a
  pub nought_div : (a : F) → nought ⊘ a ≼ nought
  pub of_ℕ_zero : (fl.of_ℕ 0 ≼ nought)
  pub of_ℕ_pos : (n : ℕ) → 0 < n → fl.lt nought (fl.of_ℕ n) ≡ true
  pub sub_flip : (a b e : F) → fl.lt e (a ⊖ b) ≡ true → fl.lt (b ⊖ a) (fl.neg e) ≡ true
  pub neg_nonpos : (a : F) → nought ≼ a → fl.neg a ≼ nought
  pub of_ℕ_mono : (m n : ℕ) → m ≤ n → fl.of_ℕ m ≼ fl.of_ℕ n

module _ {F : Type 0} ⦃fl : Float F⦄ (laws : IsRounded F) where
  pub le_refl : (a : F) → a ≼ a
  le_refl a = elim (Bool-cases (fl.lt a a)) [ inl e ↦ laws.lt_asymm a a e | inr e ↦ e ]

  pub le_total : (a b : F) → (a ≼ b) ⊎ (b ≼ a)
  le_total a b = elim (Bool-cases (fl.lt a b)) [ inl e ↦ inl (laws.lt_asymm a b e) | inr e ↦ inr e ]

  pub lt_of_le-lt : (a b c : F) → a ≼ b → fl.lt b c ≡ true → fl.lt a c ≡ true
  lt_of_le-lt a b c h k = elim (Bool-cases (fl.lt a c)) [
    | inl e ↦ e
    | inr e ↦ absurd (ground (arith, laws.le_trans c a b e h))
  ]
