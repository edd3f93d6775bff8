-- ===== src/Solve/Decide.antt =====
-- The checks of `handleDecide`, api/internal/server/solve.go.
use mathlib.Core.Option.{some-injective}
use overlap.Common.{
  ◌≡◌, refl, Bool, true, false, List, [], ◌∷◌, none, some, ◌⊎◌, inl, inr, ◌==◌, arith, All, In,
  Bool-cases, Option-cases, ap, ◌≢◌, sym, ◌∙◌,
}
use overlap.Common.Float.{Float}
use overlap.Time.{Time}
use overlap.Solver.{SlotScore}
use overlap.Solve.{
  may_lock, chosen, DecideError, err_not_organizer, err_not_a_slot, err_ruled_out, decide,
}

module _ {F : Type 0} ⦃fl : Float F⦄ where
  chosen-In :
      (ranked : List (SlotScore F)) (slot : Time) (c : SlotScore F)
      → chosen ranked slot ≡ some c
      → In c ranked × (c.start ≡ slot)
  unfolding chosen
  chosen-In [] slot c e = absurd (cc)
  chosen-In (r ∷ rest) slot c e = elim (Bool-cases (r.start == slot)) [
    | inl here ↦
        let same = some-injective _ _ (rw (here, chosen) at e) in
        (inl (sym same), ap (λ c. c.start) (sym same) ∙ ground (arith, here))
    | inr away ↦ let k = chosen-In rest slot c (rw (away, chosen) at e) in (inr k.0, k.1)
  ]

  chosen-none :
      (ranked : List (SlotScore F)) (slot : Time)
      → chosen ranked slot ≡ none
      → All (λ r. r.start ≢ slot) ranked
  unfolding chosen
  chosen-none [] slot e = tt
  chosen-none (r ∷ rest) slot e = elim (Bool-cases (r.start == slot)) [
    | inl here ↦ absurd (let bad : some r ≡ none = rw (here, chosen) at e in (cc))
    | inr away ↦ (λ q. ground (arith, away, q), chosen-none rest slot (rw (away, chosen) at e))
  ]

  may_lock_sound :
      (c : SlotScore F) (force : Bool)
      → may_lock c force ≡ true
      → (c.eliminated ≡ false) ⊎ (force ≡ true)
  unfolding may_lock
  may_lock_sound c true e = inr refl
  may_lock_sound c false e = inl (ground (arith, e))

  may_lock_refused :
      (c : SlotScore F) (force : Bool)
      → may_lock c force ≡ false
      → (c.eliminated ≡ true) × (force ≡ false)
  unfolding may_lock
  may_lock_refused c true e = ground (arith, e)
  may_lock_refused c false e = (ground (arith, e), refl)

  -- What an answer of `handleDecide` says.
  abbrev pub Explains : Bool → List (SlotScore F) → Time → Bool → SlotScore F ⊎ DecideError → Type 0
  Explains is_organizer ranked slot force (inl c) =
      (is_organizer ≡ true)
      × In c ranked
      × (c.start ≡ slot)
      × ((c.eliminated ≡ false) ⊎ (force ≡ true))
  Explains is_organizer ranked slot force (inr err_not_organizer) = is_organizer ≡ false
  Explains is_organizer ranked slot force (inr err_not_a_slot) = All (λ r. r.start ≢ slot) ranked
  Explains is_organizer ranked slot force (inr err_ruled_out) =
      (force ≡ false) × ((c : SlotScore F) × In c ranked × (c.start ≡ slot) × (c.eliminated ≡ true))

  -- A slot is locked only for the organizer, only if it is one of the ranked slots at the instant
  -- asked for, and only if no required participant has ruled it out or the organizer forces it; a
  -- caller is turned away as no organizer only if that is so, told that an instant is no slot only
  -- if no ranked slot starts then, and told that a slot is ruled out only if a ranked slot at that
  -- instant is, and is not forced.
  pub decide-Explains :
      (is_organizer : Bool) (ranked : List (SlotScore F)) (slot : Time) (force : Bool)
      → Explains is_organizer ranked slot force (decide is_organizer ranked slot force)
  unfolding decide
  decide-Explains false ranked slot force = refl
  decide-Explains true ranked slot force = elim (Option-cases (chosen ranked slot)) [
    | inl e ↦ rw (e, decide) (chosen-none ranked slot e)
    | inr (c, e) ↦
        let at = chosen-In ranked slot c e in
        elim (Bool-cases (may_lock c force)) [
          | inl fine ↦ rw (e, decide, fine) (refl, at.0, at.1, may_lock_sound c force fine)
          | inr held ↦
              let why = may_lock_refused c force held in
              rw (e, decide, held) (why.1, (c, at.0, at.1, why.0))
        ]
  ]
