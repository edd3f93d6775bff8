-- ===== src/Solver/Dominance/Sound.antt =====
-- The bounds of `Analyze`, api/internal/solver/solver.go, against every way in which the people who
-- are still silent can answer.
use overlap.Common.{
  ℕ, ◌+◌, ◌≤◌, ◌≡◌, sym, ap, subst, ◌∙◌, ◌⊎◌, inl, inr, String, true, false, List, [], ◌∷◌, none,
  some, foldl, arith, ◌==◌, ==_iff, All, In, get_elem?, In-get_elem?, IsFrom, IsFrom-start,
  IsFrom-head, IsFrom-tail, Bool-cases, Option-cases,
}
use mathlib.Core.Option.{some-injective}
use overlap.Common.Float.{Float, ◌≼◌, IsRounded}
use overlap.Common.Maps.{update, nat_key}
use overlap.Time.{Time}
use overlap.Solver.{
  Tier, tier_no, tier_if_needed, tier_ok, tier_preferred, role_optional, Participant, location,
  Responses, get, Config, SlotScore,
}
use overlap.Solver.Score.{unsociable, score_slot_by}
use overlap.Solver.Score.Monotone.{Answers, answered, rank}
use overlap.Solver.Score.Bounds.{Improves}
use overlap.Solver.Dominance.{filled, score_all, clears, settled}

-- A completion: the answers that were given, and any others where none was.
abbrev pub Completes : Responses → Answers → Type 0
Completes rs c = (pid : String) (at : Time) (t : Tier) → get rs pid at ≡ some t → c pid at ≡ t

-- No optional participant who has yet to answer would be up at an unsociable hour.
abbrev pub IsSociable : {F : Type 0} → Config F → Responses → List Participant → Time → Type 0
IsSociable cfg rs ps s =
    All (λ p. p.role ≡ role_optional → get rs p.id s ≡ none → unsociable s (location p) cfg ≡ false)
      ps

module _ {F : Type 0} ⦃fl : Float F⦄ where
  -- The score of a slot once everybody has answered.
  abbrev pub final : List Participant → Config F → Answers → Time → SlotScore F
  final ps cfg c s = score_slot_by s ps cfg (answered c)

  score_all_loop :
      (slots : List Time) (ps : List Participant) (cfg : Config F) (a : Answers)
      (m : Time → SlotScore F) (s : Time)
      → (m s ≡ final ps cfg a s) ⊎ In s slots
      → foldl (λ m s. update m s (final ps cfg a s)) m slots s ≡ final ps cfg a s
  score_all_loop [] ps cfg a m s (inl e) = e
  score_all_loop [] ps cfg a m s (inr i) = absurd i
  score_all_loop (x ∷ xs) ps cfg a m s h =
      score_all_loop xs ps cfg a _ s (elim (Bool-cases (x == s)) [
        | inl hit ↦ inl (rw hit (ap (final ps cfg a) ((==_iff x s).0 hit)))
        | inr miss ↦ elim h [
          | inl e ↦ inl (rw miss e)
          | inr (inl e) ↦ inl (rw miss (absurd (ground arith)))
          | inr (inr i) ↦ inr i
        ]
      ])

  pub score_all-In :
      (slots : List Time) (ps : List Participant) (cfg : Config F) (a : Answers) (s : Time)
      → In s slots
      → score_all slots ps cfg a s ≡ final ps cfg a s
  unfolding score_all
  score_all-In slots ps cfg a s i = score_all_loop slots ps cfg a _ s (inr i)

filled-some :
    (rs : Responses) (fill : Tier) (pid : String) (at : Time) (t : Tier)
    → get rs pid at ≡ some t
    → filled rs fill pid at ≡ t
unfolding filled
filled-some rs fill pid at t e = rw (e, filled)

pub filled-none :
    (rs : Responses) (fill : Tier) (pid : String) (at : Time)
    → get rs pid at ≡ none
    → filled rs fill pid at ≡ fill
unfolding filled
filled-none rs fill pid at e = rw (e, filled)

module _ {F : Type 0} ⦃fl : Float F⦄ (cfg : Config F) (rs : Responses) (c : Answers)
    (done : Completes rs c) where
  pub worst-Improves :
      (s : Time) (ps : List Participant)
      → IsSociable cfg rs ps s
      → Improves cfg s (filled rs tier_no) c ps
  worst-Improves s [] h = tt
  worst-Improves s (p ∷ ps) h = (
    elim (Option-cases (get rs p.id s)) [
      | inl e ↦ (rw (filled-none rs tier_no p.id s e) (omega arith), λ r n. inr (h.0 r e))
      | inr (t, e) ↦ (
        rw (filled-some rs tier_no p.id s t e, done p.id s t e) (omega arith),
        λ r n. inl (done p.id s t e ∙ sym (filled-some rs tier_no p.id s t e) ∙ n),
      )
    ],
    worst-Improves s ps h.1,
  )

  rank-le : (t : Tier) → rank t ≤ 3
  rank-le tier_no = omega arith
  rank-le tier_if_needed = omega arith
  rank-le tier_ok = omega arith
  rank-le tier_preferred = omega arith

  pub best-Improves :
      (s : Time) (ps : List Participant)
      → IsSociable cfg rs ps s
      → Improves cfg s c (filled rs tier_preferred) ps
  best-Improves s [] h = tt
  best-Improves s (p ∷ ps) h = (
    elim (Option-cases (get rs p.id s)) [
      | inl e ↦
          (rw (filled-none rs tier_preferred p.id s e) (rank-le (c p.id s)), λ r n. inr (h.0 r e))
      | inr (t, e) ↦ (
        rw (filled-some rs tier_preferred p.id s t e, done p.id s t e) (omega arith),
        λ r n. inl (filled-some rs tier_preferred p.id s t e ∙ sym (done p.id s t e) ∙ n),
      )
    ],
    best-Improves s ps h.1,
  )

module _ {F : Type 0} ⦃fl : Float F⦄ (laws : IsRounded F) (lo hi : Time → SlotScore F) where
  -- A slot `s` clears `o` if `o` is out of the race, or its best case is no better.
  abbrev pub Cleared : Time → Time → Type 0
  Cleared s o = (o ≡ s) ⊎ ((hi o).eliminated ≡ true) ⊎ ((hi o).score ≼ (lo s).score)

  clears-Cleared :
      (slots : List Time) (i : ℕ) (s : Time) (j : ℕ) (rest : List Time)
      → get_elem? slots i ≡ some s
      → IsFrom slots j rest
      → clears lo hi i s j rest ≡ true
      → All (Cleared s) rest
  unfolding clears
  clears-Cleared slots i s j [] at fr e = tt
  clears-Cleared slots i s j (o ∷ rest) at fr e =
      let ih = clears-Cleared slots i s (j + 1) rest at (IsFrom-tail slots j o rest fr) in
      let head = IsFrom-head slots j o rest fr in
      elim (Bool-cases (i == j)) [
        | inl same ↦
            let q : i ≡ j = (==_iff i j).0 same in
            (inl (some-injective _ _ (sym head ∙ rw (← q) at)), ih (rw same at e))
        | inr other ↦ elim (Bool-cases (hi o).eliminated) [
          | inl out ↦ (inr (inl out), ih (rw (other, out) at e))
          | inr race ↦ elim (Bool-cases (fl.lt (lo s).score (hi o).score)) [
            | inl beat ↦ absurd (ground arith)
            | inr fine ↦ (inr (inr fine), ih (rw (other, race, fine) at e))
          ]
        ]
      ]

  pub settled-Cleared :
      (slots : List Time) (i : ℕ) (rest : List Time) (s : Time)
      → IsFrom slots i rest
      → settled lo hi slots i rest ≡ some s
      → In s slots × ((lo s).eliminated ≡ false) × All (Cleared s) slots
  unfolding settled
  settled-Cleared slots i [] s fr e = absurd (cc)
  settled-Cleared slots i (x ∷ rest) s fr e =
      let ih = settled-Cleared slots (i + 1) rest s (IsFrom-tail slots i x rest fr) in
      let head = IsFrom-head slots i x rest fr in
      elim (Bool-cases (lo x).eliminated) [
        | inl out ↦ ih (rw out at e)
        | inr live ↦ elim (Bool-cases (clears lo hi i x 0 slots)) [
          | inr beaten ↦ ih (rw (live, beaten) at e)
          | inl clear ↦
              let q : x ≡ s = some-injective _ _ (rw (live, clear) at e) in
              subst (λ y. In y slots × ((lo y).eliminated ≡ false) × All (Cleared y) slots) q
                (
                  In-get_elem? slots i x head,
                  live,
                  clears-Cleared slots i x 0 slots head (IsFrom-start slots) clear,
                )
        ]
      ]
