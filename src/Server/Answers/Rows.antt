-- ===== src/Server/Answers/Rows.antt =====
-- What the rows of api/internal/server/responses.go say of each slot.
use mathlib.Core.List.{Pairwise, Mem, mem-cons, mem-cons_self, mem-cons_of_mem, not-mem-nil}
use mathlib.Core.List.Perm
use mathlib.Core.Logic.Or
use mathlib.Core.Option.{some-injective}
use native.Mathlib.Bridge.{le_prop}
use text.Mathlib.TextEquality.{IsScalar-prop}
use overlap.Common.{
  All, ◌≤◌, ◌≡◌, ◌↔◌, refl, sym, ap, subst, ◌∙◌, String, true, List, [], ◌∷◌, Option, none, some,
  any, ◌==◌, if◌then◌else◌, arith, Bool-cases, Option-cases, inl, inr,
}
use overlap.Common.Maps.{nat_key, string_key}
use overlap.Common.Sort.{sort, sort-perm, sort-Pairwise}
use overlap.Time.{Time, Location}
use overlap.Time.Nanos.{IsNear}
use overlap.Solver.{Tier}
use overlap.Store.{Response, source_coarse}
use overlap.Dayparts.{cell_of, Selection, expand}
use overlap.Dayparts.Selected.{last_tier, expand-last_tier}
use overlap.Server.{ok, >>=-ok}
use overlap.Server.Answers.{
  PutResponsesRequest, coarse_all, Laid, source_where, valid_slots, overlay, add_row, entries,
  before, build_responses,
}
use overlap.Server.Answers.Said.{
  Stated, with_source, or_else, coarse_said, coarse_all-said, fine_said, said, laid, overlay-laid,
  AreInstants, AreSlots,
}

-- A row states what is said.
abbrev pub States : (Time → Stated) → Response → Type 0
States says r = says r.slot_start ≡ some (r.tier, r.source)

abbrev among : List Time → (Time → Stated) → Time → Stated
among ts says t = if any (λ u. u == t) ts then says t else none

prop : (a b : Stated) → IsProp (a ≡ b)
prop a b = hlevel (IsScalar-prop)

among-grow :
    (t u : Time) (ts : List Time) (says : Time → Stated) (p : Tier × String)
    → among ts says u ≡ some p
    → among (t ∷ ts) says u ≡ some p
among-grow t u ts says p h = elim (Bool-cases (any (λ v. v == u) ts)) [
  | inr e ↦ absurd (let bad : none ≡ some p = rw e at h in cc)
  | inl e ↦ elim (Bool-cases (t == u)) [
    | inl f ↦ let k : says u ≡ some p = rw e at h in rw f k
    | inr f ↦ let k : says u ≡ some p = rw e at h in rw (f, e) k
  ]
]

laid_parts :
    (source : String) (o : Option Tier) (tier : Tier) (from : String)
    → with_source source o ≡ some (tier, from)
    → (o ≡ some tier) × (source ≡ from)
laid_parts source none tier from h = absurd (cc)
laid_parts source (some x) tier from h =
    let e : (x, source) ≡ (tier, from) = some-injective _ _ h in
    (ap (λ p. some p.0) e, ap (λ p. p.1) e)

entries-States :
    (l : Laid) (ts : List Time) (r : Response) → Mem r (entries l ts) → States (among ts (laid l)) r
unfolding entries
entries-States l [] r m = absurd (not-mem-nil m)
entries-States l (t ∷ ts) r m =
    let older = λ (k : Mem r (entries l ts)).
      among-grow t r.slot_start ts (laid l) (r.tier, r.source) (entries-States l ts r k) in
    elim (Bool-cases (any (λ u. u == t) ts)) [
      | inl e ↦ older (rw e at m)
      | inr e ↦
          let n : Mem r (add_row t (l.tiers t) (l.sources t) (entries l ts)) = rw e at m in
          elim (Option-cases (l.tiers t)) [
            | inl none_here ↦ older (rw none_here at n)
            | inr (tier, here) ↦
                let row : Response = record { slot_start = t; tier = tier; source = l.sources t } in
                let k : Mem r (row ∷ entries l ts) = rw here at n in
                Or.elim (prop _ _) (mem-cons.0 k)
                  (λ same.
                    subst (States (among (t ∷ ts) (laid l))) (sym same)
                      (let self : (t == t) ≡ true = ground arith in rw (self, here) refl))
                  older
          ]
    ]

entries-grow :
    (l : Laid) (t : Time) (ts : List Time) (r : Response)
    → Mem r (entries l ts)
    → Mem r (entries l (t ∷ ts))
unfolding entries
entries-grow l t ts r m = elim (Bool-cases (any (λ u. u == t) ts)) [
  | inl e ↦ rw e m
  | inr e ↦ rw e (elim (Option-cases (l.tiers t)) [
    | inl h ↦ rw h m
    | inr (tier, h) ↦ rw h (mem-cons_of_mem _ m)
  ])
]

entries_complete :
    (l : Laid) (ts : List Time) (u : Time) (tier : Tier) (source : String)
    → among ts (laid l) u ≡ some (tier, source)
    → Mem (record { slot_start = u; tier = tier; source = source }) (entries l ts)
unfolding entries
entries_complete l [] u tier source h = absurd (cc)
entries_complete l (t ∷ ts) u tier source h = elim (Bool-cases (any (λ v. v == u) ts)) [
  | inl e ↦
      let k : among ts (laid l) u ≡ some (tier, source) = rw e (ground (arith, h, e)) in
      entries-grow l t ts _ (entries_complete l ts u tier source k)
  | inr e ↦ elim (Bool-cases (t == u)) [
    | inr f ↦ absurd (let bad : none ≡ some (tier, source) = rw (f, e) at h in cc)
    | inl f ↦
        let k : laid l u ≡ some (tier, source) = rw f at h in
        let (a, b) = laid_parts (l.sources u) (l.tiers u) tier source k in
        let same : t ≡ u = ground (arith, f) in
        subst
          (λ v. Mem (record { slot_start = u; tier = tier; source = source }) (entries l (v ∷ ts)))
          (sym same) (rw (e, a, b) mem-cons_self)
  ]
]

-- Rows are in the order of their slots.
abbrev pub InOrder : List Response → Type 0
InOrder rows = Pairwise (λ a b. a.slot_start ≤ b.slot_start) rows

sort-InOrder : (rows : List Response) → InOrder (sort before rows)
sort-InOrder rows =
    sort-Pairwise before (λ a b. a.slot_start ≤ b.slot_start) (λ a b. le_prop)
      (λ a b c h k. omega arith) (λ x p e. ground arith) (λ x p e. ground arith) rows

-- What is laid down first, by the coarse selections.
abbrev spread : List Time → Location → List Selection → Laid
spread starts loc sel =
    let tiers = expand starts loc sel in
    record { tiers = tiers; sources = λ t. source_where (tiers t) }

spread_coarse : (o : Option Tier) → with_source (source_where o) o ≡ with_source source_coarse o
spread_coarse none = refl
spread_coarse (some tier) = refl

spread-laid :
    (starts : List Time) (loc : Location) (sel : List Selection) (t : Time)
    → any (λ u. u == t) starts ≡ true
    → laid (spread starts loc sel) t ≡ with_source source_coarse (last_tier sel (cell_of t loc))
spread-laid starts loc sel t h =
    spread_coarse (expand starts loc sel t)
    ∙ ap (with_source source_coarse) (expand-last_tier starts loc sel t ∙ rw h refl)

among-cong :
    (ts : List Time) (f g : Time → Stated) (t : Time)
    → (any (λ u. u == t) ts ≡ true → f t ≡ g t)
    → among ts f t ≡ among ts g t
among-cong ts f g t h = elim (Bool-cases (any (λ u. u == t) ts)) [
  | inl e ↦ rw e (h e)
  | inr e ↦ rw e refl
]

-- A body that is accepted is stored as it reads. Each of its fine selections is of a slot of the event,
-- at that very instant. A row is stored for an instant, with a tier and a source, exactly where the
-- instant is a slot and the last fine selection of it states that tier, or no fine selection is of it
-- and the last coarse selection of its cell on the participant's clock does. The rows are in the order
-- of their slots. The slots and the instants that the body states lie between 1678 and 2262, where
-- `UnixNano` does not wrap.
pub build_responses-States :
    (starts : List Time) (loc : Location) (req : PutResponsesRequest) (rows : List Response)
    → All IsNear starts
    → AreInstants req.slots
    → build_responses starts loc req ≡ ok rows
    → ((r : Response) → Mem r rows ↔ States (said starts loc req) r)
      × InOrder rows
      × AreSlots starts req.slots
unfolding build_responses
build_responses-States starts loc req rows hs hi h =
    let (sel, e1, h1) = >>=-ok (coarse_all req.coarse) _ rows h in
    let first : Laid = spread starts loc sel in
    let (l, e2, h2) =
      >>=-ok (overlay (valid_slots starts) req.slots first)
        (λ l. ok (sort before (entries l starts))) rows h1 in
    let e3 : rows ≡ sort before (entries l starts) = ground arith in
    let (says, slots) = overlay-laid starts req.slots first l hs hi e2 in
    let same : (t : Time) → among starts (laid l) t ≡ said starts loc req t = λ t.
      among-cong starts (laid l)
        (λ t. or_else (fine_said req.slots t) (coarse_said req.coarse (cell_of t loc))) t
        (λ k.
          says t
          ∙ ap (or_else (fine_said req.slots t)) (
              spread-laid starts loc sel t k
              ∙ sym (coarse_all-said req.coarse sel (cell_of t loc) e1))) in
    let moved = sort-perm before (entries l starts) in
    subst
      (λ rows.
        ((r : Response) → Mem r rows ↔ States (said starts loc req) r)
        × InOrder rows
        × AreSlots starts req.slots)
      (sym e3)
      (
        λ r. (
          λ m. sym (same r.slot_start) ∙ entries-States l starts r ((Perm.mem_iff moved).0 m),
          λ s.
              (Perm.mem_iff moved).1
                (entries_complete l starts r.slot_start r.tier r.source (same r.slot_start ∙ s)),
        ),
        sort-InOrder (entries l starts),
        slots,
      )
