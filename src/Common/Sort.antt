-- ===== src/Common/Sort.antt =====
-- Go's sorts by a `less` function. `sort.SliceStable` inserts each element from the right end of the
-- sorted part, as `insert_back` does, in blocks of twenty, and merges the blocks; on one block, and
-- wherever `less` is a strict weak order, the result is that of `sort`. `sort.Slice` is used with
-- orders that tell different elements apart, so it too returns this list.
use mathlib.Core.Path.{◌≡◌, refl, ap, ◌∙◌}
use mathlib.Core.Bool.{Bool, true, false}
use mathlib.Core.List.{
  List, [], ◌∷◌, ◌++◌, append-nil, reverse, reverse-append, Perm, Pairwise, Pairwise-cons,
  Pairwise-reverse, reverse_perm, perm_middle, mem-cons, not-mem-nil,
}
use mathlib.Core.List.Perm
use mathlib.Core.Logic.{inl, inr}
use mathlib.Core.Logic.Or
use overlap.Common.Lists.{All}
use overlap.Common.Tests.{if◌then◌else◌, Bool-cases}

module _ {ℓ} {A : Type ℓ} (less : A → A → Bool) where
  -- The sorted part is held in reverse.
  pub insert_back : A → List A → List A
  insert_back x [] = x ∷ []
  insert_back x (p ∷ ps) = if less x p then p ∷ insert_back x ps else x ∷ p ∷ ps

  unfoldable pub insert_all : List A → List A → List A
  unfolding insert_back
  insert_all done [] = done
  insert_all done (x ∷ xs) = insert_all (insert_back x done) xs

  unfoldable pub sort : List A → List A
  unfolding insert_all
  sort xs = reverse (insert_all [] xs)

  insert_back-perm : (x : A) (ps : List A) → Perm (insert_back x ps) (x ∷ ps)
  unfolding insert_back
  insert_back-perm x [] = Perm.rfl
  insert_back-perm x (p ∷ ps) = elim (Bool-cases (less x p)) [
    | inl e ↦ rw e (Perm.trans (Perm.cons p (insert_back-perm x ps)) (Perm.swap x p ps))
    | inr e ↦ rw e Perm.rfl
  ]

  insert_all-perm : (done xs : List A) → Perm (insert_all done xs) (done ++ xs)
  unfolding insert_all
  insert_all-perm done [] = rw append-nil Perm.rfl
  insert_all-perm done (x ∷ xs) = Perm.trans (insert_all-perm (insert_back x done) xs) (
      Perm.trans (Perm.append_right xs (insert_back-perm x done)) (Perm.symm (perm_middle done xs)))

  -- Sorting keeps the elements and their number.
  pub sort-perm : (xs : List A) → Perm (sort xs) xs
  unfolding sort
  sort-perm xs = Perm.trans (reverse_perm _) (insert_all-perm [] xs)

  insert_back-passes :
      (w : A) (ps : List A) → All (λ p. less w p ≡ true) ps → insert_back w ps ≡ ps ++ w ∷ []
  unfolding insert_back
  insert_back-passes w [] h = refl
  insert_back-passes w (p ∷ ps) h = rw (h.0, insert_back-passes w ps h.1)

  insert_back-below :
      (x w : A) (ps : List A)
      → less x w ≡ false
      → insert_back x (ps ++ w ∷ []) ≡ insert_back x ps ++ w ∷ []
  unfolding insert_back
  insert_back-below x w [] h = rw h
  insert_back-below x w (p ∷ ps) h = elim (Bool-cases (less x p)) [
    | inl e ↦ rw (e, insert_back-below x w ps h)
    | inr e ↦ rw e
  ]

  insert_all-below :
      (w : A) (done xs : List A)
      → All (λ x. less x w ≡ false) xs
      → insert_all (done ++ w ∷ []) xs ≡ insert_all done xs ++ w ∷ []
  unfolding insert_all
  insert_all-below w done [] h = refl
  insert_all-below w done (x ∷ xs) h =
      rw (insert_back-below x w done h.0) (insert_all-below w (insert_back x done) xs h.1)

  insert_back-All {κ} :
      (P : A → Type κ) (x : A) (ps : List A) → P x → All P ps → All P (insert_back x ps)
  unfolding insert_back
  insert_back-All P x [] h k = (h, tt)
  insert_back-All P x (p ∷ ps) h k = elim (Bool-cases (less x p)) [
    | inl e ↦ rw e (k.0, insert_back-All P x ps h k.1)
    | inr e ↦ rw e (h, k)
  ]

  insert_all-first :
      (w : A) (done us vs : List A)
      → All (λ p. less w p ≡ true) done
      → All (λ p. less w p ≡ true) us
      → All (λ x. less x w ≡ false) vs
      → (ds : List A) × (insert_all done (us ++ w ∷ vs) ≡ ds ++ w ∷ [])
  unfolding insert_all
  insert_all-first w done [] vs hd hu hv = (
    insert_all done vs,
    ap (λ d. insert_all d vs) (insert_back-passes w done hd) ∙ insert_all-below w done vs hv,
  )
  insert_all-first w done (u ∷ us) vs hd hu hv =
      insert_all-first w (insert_back u done) us vs
        (insert_back-All (λ p. less w p ≡ true) u done hu.0 hd) hu.1 hv

  -- An element that goes before all others, and that no other goes before, comes out first.
  pub sort-first :
      (w : A) (us vs : List A)
      → All (λ p. less w p ≡ true) us
      → All (λ x. less x w ≡ false) vs
      → (rest : List A) × (sort (us ++ w ∷ vs) ≡ w ∷ rest)
  unfolding sort
  sort-first w us vs hu hv =
      let (ds, e) = insert_all-first w [] us vs tt hu hv in
      (reverse ds, ap reverse e ∙ reverse-append ds (w ∷ []))

  module _ {κ} (R : A → A → Type κ) (prop : (a b : A) → IsProp (R a b))
      (trans : (a b c : A) → R a b → R b c → R a c) (goes : (x p : A) → less x p ≡ true → R x p)
      (stays : (x p : A) → less x p ≡ false → R p x) where
    insert_back-Pairwise :
        (x : A) (ps : List A)
        → Pairwise (λ a b. R b a) ps
        → Pairwise (λ a b. R b a) (insert_back x ps)
    unfolding insert_back
    insert_back-Pairwise x [] h = Pairwise-cons.1 (λ a m. absurd (not-mem-nil m), Pairwise.nil)
    insert_back-Pairwise x (p ∷ ps) h = elim (Bool-cases (less x p)) [
      | inl e ↦ rw e (
          Pairwise-cons.1 (
            λ a m.
                Or.elim (prop a p) (mem-cons.0 ((Perm.mem_iff (insert_back-perm x ps)).0 m))
                  (λ q. rw q (goes x p e)) (λ k. (Pairwise-cons.0 h).0 a k),
            insert_back-Pairwise x ps (Pairwise-cons.0 h).1,
          ))
      | inr e ↦ rw e (
          Pairwise-cons.1 (
            λ a m.
                Or.elim (prop a x) (mem-cons.0 m) (λ q. rw q (stays x p e))
                  (λ k. trans a p x ((Pairwise-cons.0 h).0 a k) (stays x p e)),
            h,
          ))
    ]

    insert_all-Pairwise :
        (done xs : List A)
        → Pairwise (λ a b. R b a) done
        → Pairwise (λ a b. R b a) (insert_all done xs)
    unfolding insert_all
    insert_all-Pairwise done [] h = h
    insert_all-Pairwise done (x ∷ xs) h =
        insert_all-Pairwise (insert_back x done) xs (insert_back-Pairwise x done h)

    -- A transitive relation that `less` decides one way or the other holds along the sorted list.
    pub sort-Pairwise : (xs : List A) → Pairwise R (sort xs)
    unfolding sort
    sort-Pairwise xs = (Pairwise-reverse prop).1 (insert_all-Pairwise [] xs Pairwise.nil)
