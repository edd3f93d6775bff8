-- ===== src/Dayparts/Selected.antt =====
-- What the maps of api/internal/dayparts/dayparts.go hold.
use overlap.Common.{
  ◌≡◌, refl, sym, subst, ◌∙◌, List, [], ◌∷◌, ◌++◌, Option, none, some, foldl, ◌==◌, any,
  if◌then◌else◌, Bool-cases, Option-cases, inl, inr, arith,
}
use mathlib.Core.List.{append-nil, append_assoc}
use overlap.Common.Maps.{nat_key, update, update-same}
use overlap.Time.{Time, Location}
use overlap.Solver.{Tier}
use overlap.Dayparts.{
  Cell, same_cell, same_cell_iff, cell_key, cell_of, Selection, file, group, by_cell, assign,
  expand,
}

-- The tier of the last selection of a cell.
abbrev pub last_tier : List Selection → Cell → Option Tier
last_tier [] c = none
last_tier (s ∷ rest) c = elim (last_tier rest c) [
  | some tier ↦ some tier
  | none ↦ if same_cell s.cell c then some s.tier else none
]

-- The slots of a cell, in the order in which they are given.
abbrev pub in_cell : Location → Cell → List Time → List Time
in_cell loc c [] = []
in_cell loc c (t ∷ rest) =
    if same_cell (cell_of t loc) c then t ∷ in_cell loc c rest else in_cell loc c rest

file_all :
    (loc : Location) (c : Cell) (starts : List Time) (out : Cell → List Time)
    → foldl (file loc) out starts c ≡ out c ++ in_cell loc c starts
unfolding file
file_all loc c [] out = sym (append-nil (out c))
file_all loc c (t ∷ rest) out =
    let cell = cell_of t loc in
    file_all loc c rest (file loc out t) ∙ elim (Bool-cases (same_cell cell c)) [
      | inr away ↦ rw away refl
      | inl here ↦
          let e : cell ≡ c = (same_cell_iff cell c).0 here in
          rw here (rw e (append_assoc (out c) (t ∷ []) (in_cell loc c rest)))
    ]

by_cell_all :
    (c : Cell) (sel : List Selection) (m : Cell → Option Tier)
    → foldl (λ m s. update m s.cell (some s.tier)) m sel c
      ≡ elim (last_tier sel c) [ some tier ↦ some tier | none ↦ m c ]
by_cell_all c [] m = refl
by_cell_all c (s ∷ rest) m =
    by_cell_all c rest (update m s.cell (some s.tier)) ∙ elim (Option-cases (last_tier rest c)) [
      | inr (tier, e) ↦ rw e refl
      | inl e ↦ rw e (elim (Bool-cases (same_cell s.cell c)) [
        | inl here ↦ rw here refl
        | inr away ↦ rw away refl
      ])
    ]

-- Group puts each slot under its cell and nothing else, and keeps the order of the slots within a
-- cell: what it holds for a cell is the list of the slots that fall into the cell, as given.
pub group-in_cell :
    (starts : List Time) (loc : Location) (c : Cell) → group starts loc c ≡ in_cell loc c starts
unfolding group
group-in_cell starts loc c = file_all loc c starts (λ _. [])

-- The tier of the cell of an instant, over what the map held.
abbrev tier_at : (Cell → Option Tier) → Location → Time → Option Tier → Option Tier
tier_at cells loc t old = elim (cells (cell_of t loc)) [ none ↦ old | some tier ↦ some tier ]

assign_here :
    (cells : Cell → Option Tier) (loc : Location) (t : Time) (out : Time → Option Tier)
    → assign cells loc out t t ≡ tier_at cells loc t (out t)
unfolding assign
assign_here cells loc t out = elim (Option-cases (cells (cell_of t loc))) [
  | inl e ↦ rw (e, assign, tier_at) refl
  | inr (tier, e) ↦ rw (e, assign, tier_at) (update-same out t (some tier))
]

assign_at :
    (cells : Cell → Option Tier) (loc : Location) (t u : Time) (out : Time → Option Tier)
    → assign cells loc out u t ≡ (if u == t then tier_at cells loc t (out t) else out t)
unfolding assign
assign_at cells loc t u out = elim (Bool-cases (u == t)) [
  | inl same ↦
      let e : u ≡ t = ground (arith, same) in
      rw same (
        subst (λ k. assign cells loc out k t ≡ tier_at cells loc t (out t)) (sym e)
          (assign_here cells loc t out))
  | inr other ↦ elim (Option-cases (cells (cell_of u loc))) [
    | inl e ↦ rw (e, assign, other) refl
    | inr (tier, e) ↦ rw (e, assign, other) refl
  ]
]

tier_twice :
    (cells : Cell → Option Tier) (loc : Location) (t : Time) (old : Option Tier)
    → tier_at cells loc t (tier_at cells loc t old) ≡ tier_at cells loc t old
tier_twice cells loc t old = elim (Option-cases (cells (cell_of t loc))) [
  | inl e ↦ rw (e, tier_at) (rw (e, tier_at) refl)
  | inr (tier, e) ↦ rw (e, tier_at) refl
]

assign_all :
    (cells : Cell → Option Tier) (loc : Location) (t : Time) (starts : List Time)
    (out : Time → Option Tier)
    → foldl (assign cells loc) out starts t
      ≡ (if any (λ u. u == t) starts then tier_at cells loc t (out t) else out t)
assign_all cells loc t [] out = refl
assign_all cells loc t (u ∷ rest) out =
    assign_all cells loc t rest (assign cells loc out u)
    ∙ rw (assign_at cells loc t u out) (elim (Bool-cases (u == t)) [
      | inr other ↦ rw other refl
      | inl same ↦ elim (Bool-cases (any (λ v. v == t) rest)) [
        | inl more ↦ rw (same, more) (tier_twice cells loc t (out t))
        | inr none_more ↦ rw (same, none_more) refl
      ]
    ])

by_cell-last_tier : (sel : List Selection) (c : Cell) → by_cell sel c ≡ last_tier sel c
unfolding by_cell
by_cell-last_tier sel c =
    by_cell_all c sel (λ _. none)
    ∙ elim (Option-cases (last_tier sel c)) [ inl e ↦ rw e refl | inr (tier, e) ↦ rw e refl ]

tier_at-none :
    (cells : Cell → Option Tier) (loc : Location) (t : Time)
    → tier_at cells loc t none ≡ cells (cell_of t loc)
tier_at-none cells loc t = elim (Option-cases (cells (cell_of t loc))) [
  | inl e ↦ rw (e, tier_at) refl
  | inr (tier, e) ↦ rw (e, tier_at) refl
]

-- What a person's coarse answers say of an instant: nothing where it is no slot of the event, and
-- otherwise the tier of the last selection of the cell that the instant falls into on the person's
-- clock, or nothing where that cell was not selected.
pub expand-last_tier :
    (starts : List Time) (loc : Location) (sel : List Selection) (t : Time)
    → expand starts loc sel t
      ≡ (if any (λ u. u == t) starts then last_tier sel (cell_of t loc) else none)
unfolding expand
expand-last_tier starts loc [] t = ground arith
expand-last_tier starts loc (s ∷ sel) t =
    assign_all (by_cell (s ∷ sel)) loc t starts (λ _. none)
    ∙ rw (tier_at-none (by_cell (s ∷ sel)) loc t, by_cell-last_tier (s ∷ sel) (cell_of t loc)) refl
