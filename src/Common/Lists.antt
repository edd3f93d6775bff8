-- ===== src/Common/Lists.antt =====
-- Lists measured by native numbers, Boolean quantifiers and the predicate `All`.
use Prim.Native.Nat.{ℕ, zero, suc, ◌+◌}
use mathlib.Core.Path.{◌≡◌, refl, subst, sym}
use mathlib.Core.Logic.{◌⊎◌, inl, inr}
use mathlib.Core.Bool.{Bool, true, false, ◌&&◌, ◌||◌}
use mathlib.Core.List.{List, [], ◌∷◌, ◌++◌, map}
use mathlib.Core.Option.{Option, none, some, some-injective}
use native.Mathlib.Omega.{arith}

module _ {ℓ} {A : Type ℓ} where
  abbrev pub length : List A → ℕ
  length [] = 0
  length (x ∷ xs) = suc (length xs)

  abbrev pub get_elem? : List A → ℕ → Option A
  get_elem? [] i = none
  get_elem? (x ∷ xs) zero = some x
  get_elem? (x ∷ xs) (suc i) = get_elem? xs i

  -- `rest` is what is left of a list from index `j` on.
  abbrev pub IsFrom : List A → ℕ → List A → Type ℓ
  IsFrom xs j rest = (k : ℕ) → get_elem? rest k ≡ get_elem? xs (j + k)

  pub IsFrom-start : (xs : List A) → IsFrom xs 0 xs
  IsFrom-start xs k = let e : 0 + k ≡ k = omega arith in rw e

  pub IsFrom-head :
      (xs : List A) (j : ℕ) (x : A) (rest : List A)
      → IsFrom xs j (x ∷ rest)
      → get_elem? xs j ≡ some x
  IsFrom-head xs j x rest h = let e : j + 0 ≡ j = omega arith in sym (rw e at (h 0))

  pub IsFrom-tail :
      (xs : List A) (j : ℕ) (x : A) (rest : List A)
      → IsFrom xs j (x ∷ rest)
      → IsFrom xs (j + 1) rest
  IsFrom-tail xs j x rest h k = let e : j + suc k ≡ j + 1 + k = omega arith in rw (← e) (h (suc k))

  pub length-append : (xs ys : List A) → length (xs ++ ys) ≡ length xs + length ys
  length-append [] ys = omega arith
  length-append (x ∷ xs) ys = omega (arith, length-append xs ys)

  abbrev pub any : (A → Bool) → List A → Bool
  any p [] = false
  any p (x ∷ xs) = p x || any p xs

  abbrev pub all : (A → Bool) → List A → Bool
  all p [] = true
  all p (x ∷ xs) = p x && all p xs

  abbrev pub All {κ} : (A → Type κ) → List A → Type κ
  All P [] = Unit
  All P (x ∷ xs) = P x × All P xs

  pub All-append {κ} : (P : A → Type κ) (xs ys : List A) → All P xs → All P ys → All P (xs ++ ys)
  All-append P [] ys hx hy = hy
  All-append P (x ∷ xs) ys hx hy = (hx.0, All-append P xs ys hx.1 hy)

  pub All-map {κ μ} :
      (P : A → Type κ) (Q : A → Type μ) (xs : List A) → ((x : A) → P x → Q x) → All P xs → All Q xs
  All-map P Q [] f h = tt
  All-map P Q (x ∷ xs) f h = (f x h.0, All-map P Q xs f h.1)

pub All-image {ℓ κ μ ν} :
    {A : Type ℓ} {B : Type κ} (P : B → Type μ) (Q : A → Type ν) (f : A → B) (xs : List A)
    → ((x : A) → Q x → P (f x))
    → All Q xs
    → All P (map f xs)
All-image P Q f [] imp h = tt
All-image P Q f (x ∷ xs) imp h = (imp x h.0, All-image P Q f xs imp h.1)

module _ {A : Type 0} where
  -- Membership, by recursion.
  abbrev pub In : A → List A → Type 0
  In a [] = ⊥
  In a (x ∷ xs) = (a ≡ x) ⊎ In a xs

  pub In-get_elem? : (xs : List A) (i : ℕ) (a : A) → get_elem? xs i ≡ some a → In a xs
  In-get_elem? [] i a e = absurd (cc)
  In-get_elem? (x ∷ xs) zero a e = inl (sym (some-injective _ _ e))
  In-get_elem? (x ∷ xs) (suc i) a e = inr (In-get_elem? xs i a e)

  pub In-append_left : (a : A) (xs ys : List A) → In a xs → In a (xs ++ ys)
  In-append_left a (x ∷ xs) ys (inl e) = inl e
  In-append_left a (x ∷ xs) ys (inr m) = inr (In-append_left a xs ys m)
  In-append_left a [] ys m = absurd m

  pub In-append_right : (a : A) (xs ys : List A) → In a ys → In a (xs ++ ys)
  In-append_right a [] ys m = m
  In-append_right a (x ∷ xs) ys m = inr (In-append_right a xs ys m)

  pub In-snoc : (a b : A) (xs : List A) → In a (xs ++ b ∷ []) → In a xs ⊎ (a ≡ b)
  In-snoc a b [] (inl e) = inr e
  In-snoc a b [] (inr m) = absurd m
  In-snoc a b (x ∷ xs) (inl e) = inl (inl e)
  In-snoc a b (x ∷ xs) (inr m) = elim (In-snoc a b xs m) [ inl k ↦ inl (inr k) | inr e ↦ inr e ]

  -- No member twice.
  abbrev pub AreDistinct : List A → Type 0
  AreDistinct [] = Unit
  AreDistinct (x ∷ xs) = (In x xs → ⊥) × AreDistinct xs

  pub AreDistinct-snoc :
      (a : A) (xs : List A) → (In a xs → ⊥) → AreDistinct xs → AreDistinct (xs ++ a ∷ [])
  AreDistinct-snoc a [] new h = ((λ m. m), tt)
  AreDistinct-snoc a (x ∷ xs) new h = (
    λ m. elim (In-snoc x a xs m) [ inl k ↦ h.0 k | inr e ↦ new (inl (sym e)) ],
    AreDistinct-snoc a xs (λ m. new (inr m)) h.1,
  )

  pub In-All {κ} : (P : A → Type κ) (a : A) (xs : List A) → All P xs → In a xs → P a
  In-All P a (x ∷ xs) h (inl e) = subst P (sym e) h.0
  In-All P a (x ∷ xs) h (inr m) = In-All P a xs h.1 m
  In-All P a [] h m = absurd m

  pub All-of_In {κ} : (P : A → Type κ) (xs : List A) → ((a : A) → In a xs → P a) → All P xs
  All-of_In P [] f = tt
  All-of_In P (x ∷ xs) f = (f x (inl refl), All-of_In P xs (λ a m. f a (inr m)))
