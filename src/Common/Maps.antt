-- ===== src/Common/Maps.antt =====
-- Go maps. A map of which the program only reads and writes single keys is a function; one whose
-- size or entries it visits is an association list with one entry for a key.
use Prim.Native.Nat.{ℕ, ◌+◌, ◌≤◌}
use Prim.Native.String.{String}
use mathlib.Core.Path.{◌≡◌, refl, subst}
use mathlib.Core.Bool.{Bool, true, false}
use mathlib.Core.Logic.{◌↔◌, inl, inr, ◌≢◌}
use mathlib.Core.List.{List, [], ◌∷◌}
use mathlib.Core.Option.{Option, none, some, some-injective}
use native.Mathlib.Omega.{arith}
use text.Mathlib.Text.{◌==◌ as str_eq}
use text.Mathlib.TextEquality.{eq_iff}
use overlap.Common.Tests.{◌==◌ as nat_eq, ==_iff, if◌then◌else◌, Bool-cases}
use overlap.Common.Lists.{length, All}

-- Types whose values can key a map.
pub record Key {ℓ} (K : Type ℓ) : Type ℓ where
  pub beq : K → K → Bool
  pub beq_iff : (a b : K) → (beq a b ≡ true) ↔ (a ≡ b)

instance abbrev pub nat_key : Key ℕ
nat_key = record { beq = nat_eq; beq_iff = ==_iff }

instance abbrev pub string_key : Key String
string_key = record { beq = str_eq; beq_iff = eq_iff }

module _ {ℓ} {K : Type ℓ} ⦃key : Key K⦄ where
  pub beq_self : (a : K) → key.beq a a ≡ true
  beq_self a = (key.beq_iff a a).1 refl

  pub beq_ne : (a b : K) → a ≢ b → key.beq a b ≡ false
  beq_ne a b h = elim (Bool-cases (key.beq a b)) [
    | inl e ↦ absurd (h ((key.beq_iff a b).0 e))
    | inr e ↦ e
  ]

  beq_sym : (a b : K) → key.beq a b ≡ false → key.beq b a ≡ false
  beq_sym a b h = ground (arith, key.beq_iff a b, key.beq_iff b a)

module _ {ℓ κ} {K : Type ℓ} {V : Type κ} ⦃key : Key K⦄ where
  -- `m[k] = v` on a map that is a function.
  abbrev pub update : (K → V) → K → V → K → V
  update m k v j = if key.beq k j then v else m j

  pub update-same : (m : K → V) (k : K) (v : V) → update m k v k ≡ v
  update-same m k v = rw (beq_self k) refl

  pub update-other : (m : K → V) (k j : K) (v : V) → k ≢ j → update m k v j ≡ m j
  update-other m k j v ne = rw (beq_ne k j ne) refl

  -- What holds of every value holds after an update by one of which it holds.
  pub update-every {μ} :
      (P : V → Type μ) (m : K → V) (k : K) (v : V)
      → P v
      → ((j : K) → P (m j))
      → (j : K) → P (update m k v j)
  update-every P m k v new old j = elim (Bool-cases (key.beq k j)) [
    | inl same ↦ rw same new
    | inr other ↦ rw other (old j)
  ]

module _ {K V : Type 0} ⦃key : Key K⦄ where
  unfoldable pub lookup : List (K × V) → K → Option V
  lookup [] k = none
  lookup ((j, v) ∷ m) k = if key.beq j k then some v else lookup m k

  unfoldable pub insert : List (K × V) → K → V → List (K × V)
  insert [] k v = (k, v) ∷ []
  insert ((j, w) ∷ m) k v = if key.beq j k then (j, v) ∷ m else (j, w) ∷ insert m k v

  unfoldable pub delete : List (K × V) → K → List (K × V)
  delete [] k = []
  delete ((j, v) ∷ m) k = if key.beq j k then delete m k else (j, v) ∷ delete m k

  -- The loop that deletes the entries whose value passes a test.
  unfoldable pub delete_where : (V → Bool) → List (K × V) → List (K × V)
  delete_where p [] = []
  delete_where p ((j, v) ∷ m) = if p v then delete_where p m else (j, v) ∷ delete_where p m

  pub lookup-insert :
      (m : List (K × V)) (k : K) (v : V) (j : K)
      → lookup (insert m k v) j ≡ (if key.beq k j then some v else lookup m j)
  unfolding lookup insert
  lookup-insert [] k v j = refl
  lookup-insert ((i, w) ∷ m) k v j =
      ground (arith, key.beq_iff k j, key.beq_iff i k, key.beq_iff i j, lookup-insert m k v j)

  pub lookup-delete :
      (m : List (K × V)) (k j : K)
      → lookup (delete m k) j ≡ (if key.beq k j then none else lookup m j)
  unfolding lookup delete
  lookup-delete [] k j = ground arith
  lookup-delete ((i, w) ∷ m) k j =
      ground (arith, key.beq_iff k j, key.beq_iff i k, key.beq_iff i j, lookup-delete m k j)

  pub length-insert-le : (m : List (K × V)) (k : K) (v : V) → length (insert m k v) ≤ length m + 1
  unfolding insert
  length-insert-le [] k v = omega arith
  length-insert-le ((i, w) ∷ m) k v = ground (arith, length-insert-le m k v)

  pub length-insert_hit :
      (m : List (K × V)) (k : K) (v w : V) → lookup m k ≡ some w → length (insert m k v) ≡ length m
  unfolding lookup insert
  length-insert_hit [] k v w h = cc
  length-insert_hit ((i, u) ∷ m) k v w h = ground (arith, length-insert_hit m k v w)

  pub length-delete_where-le :
      (p : V → Bool) (m : List (K × V)) → length (delete_where p m) ≤ length m
  unfolding delete_where
  length-delete_where-le p [] = omega arith
  length-delete_where-le p ((i, w) ∷ m) = ground (arith, length-delete_where-le p m)

  pub length-delete-le : (m : List (K × V)) (k : K) → length (delete m k) ≤ length m
  unfolding delete
  length-delete-le [] k = omega arith
  length-delete-le ((i, w) ∷ m) k = ground (arith, length-delete-le m k)

  -- Every value of the map satisfies a predicate.
  abbrev pub Values {κ} : (V → Type κ) → List (K × V) → Type κ
  Values P = All (λ e. P e.1)

  pub Values-insert {κ} :
      (P : V → Type κ) (m : List (K × V)) (k : K) (v : V)
      → P v
      → Values P m
      → Values P (insert m k v)
  unfolding insert
  Values-insert P [] k v p h = (p, tt)
  Values-insert P ((i, w) ∷ m) k v p h = elim (Bool-cases (key.beq i k)) [
    | inl e ↦ rw e (p, h.1)
    | inr e ↦ rw e (h.0, Values-insert P m k v p h.1)
  ]

  pub Values-delete_where {κ} :
      (P : V → Type κ) (p : V → Bool) (m : List (K × V)) → Values P m → Values P (delete_where p m)
  unfolding delete_where
  Values-delete_where P p [] h = tt
  Values-delete_where P p ((i, w) ∷ m) h = elim (Bool-cases (p w)) [
    | inl e ↦ rw e (Values-delete_where P p m h.1)
    | inr e ↦ rw e (h.0, Values-delete_where P p m h.1)
  ]

  pub Values-lookup {κ} :
      (P : V → Type κ) (m : List (K × V)) (k : K) (v : V) → Values P m → lookup m k ≡ some v → P v
  unfolding lookup
  Values-lookup P [] k v h e = absurd (cc)
  Values-lookup P ((i, w) ∷ m) k v h e = elim (Bool-cases (key.beq i k)) [
    | inl t ↦ subst P (some-injective _ _ (rw t at e)) h.0
    | inr t ↦ Values-lookup P m k v h.1 (rw t at e)
  ]

  -- No entry has the key.
  abbrev pub IsAbsent : K → List (K × V) → Type 0
  IsAbsent k = All (λ e. key.beq e.0 k ≡ false)

  -- One entry for a key, as in a Go map.
  abbrev pub IsMap : List (K × V) → Type 0
  IsMap [] = Unit {0}
  IsMap (e ∷ m) = IsAbsent e.0 m × IsMap m

  lookup-absent : (m : List (K × V)) (k : K) → IsAbsent k m → lookup m k ≡ none
  unfolding lookup
  lookup-absent [] k h = refl
  lookup-absent ((j, v) ∷ m) k h = rw h.0 (lookup-absent m k h.1)

  IsAbsent-delete_where :
      (p : V → Bool) (m : List (K × V)) (k : K) → IsAbsent k m → IsAbsent k (delete_where p m)
  unfolding delete_where
  IsAbsent-delete_where p [] k h = tt
  IsAbsent-delete_where p ((j, v) ∷ m) k h = elim (Bool-cases (p v)) [
    | inl e ↦ rw e (IsAbsent-delete_where p m k h.1)
    | inr e ↦ rw e (h.0, IsAbsent-delete_where p m k h.1)
  ]

  pub delete_where-IsMap : (p : V → Bool) (m : List (K × V)) → IsMap m → IsMap (delete_where p m)
  unfolding delete_where
  delete_where-IsMap p [] h = tt
  delete_where-IsMap p ((j, v) ∷ m) h = elim (Bool-cases (p v)) [
    | inl e ↦ rw e (delete_where-IsMap p m h.1)
    | inr e ↦ rw e (IsAbsent-delete_where p m j h.0, delete_where-IsMap p m h.1)
  ]

  IsAbsent-insert :
      (m : List (K × V)) (k j : K) (v : V)
      → key.beq j k ≡ false
      → IsAbsent k m
      → IsAbsent k (insert m j v)
  unfolding insert
  IsAbsent-insert [] k j v ne h = (ne, tt)
  IsAbsent-insert ((i, w) ∷ m) k j v ne h = elim (Bool-cases (key.beq i j)) [
    | inl e ↦ rw e h
    | inr e ↦ rw e (h.0, IsAbsent-insert m k j v ne h.1)
  ]

  pub insert-IsMap : (m : List (K × V)) (k : K) (v : V) → IsMap m → IsMap (insert m k v)
  unfolding insert
  insert-IsMap [] k v h = (tt, tt)
  insert-IsMap ((i, w) ∷ m) k v h = elim (Bool-cases (key.beq i k)) [
    | inl e ↦ rw e h
    | inr e ↦ rw e (IsAbsent-insert m i k v (beq_sym i k e) h.0, insert-IsMap m k v h.1)
  ]

  -- What a lookup finds after the entries that pass a test are gone.
  pub lookup-delete_where :
      (p : V → Bool) (m : List (K × V)) (k : K)
      → IsMap m
      → lookup (delete_where p m) k
        ≡ elim (lookup m k) [ none ↦ none | some v ↦ if p v then none else some v ]
  unfolding lookup delete_where
  lookup-delete_where p [] k h = refl
  lookup-delete_where p ((j, v) ∷ m) k h = elim (Bool-cases (key.beq j k)) [
    | inl here ↦ elim (Bool-cases (p v)) [
      | inl e ↦
          rw (here, e)
            (lookup-absent _ k (
              subst (λ i. IsAbsent i (delete_where p m)) ((key.beq_iff j k).0 here)
                (IsAbsent-delete_where p m j h.0)))
      | inr e ↦ rw (here, e, here)
    ]
    | inr away ↦ elim (Bool-cases (p v)) [
      | inl e ↦ rw (away, e) (lookup-delete_where p m k h.1)
      | inr e ↦ rw (away, e, away) (lookup-delete_where p m k h.1)
    ]
  ]
