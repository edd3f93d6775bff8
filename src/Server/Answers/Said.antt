-- ===== src/Server/Answers/Said.antt =====
-- What the body of api/internal/server/responses.go says of each slot, and the maps it becomes.
use overlap.Common.{
  Bool, true, false, All, ◌≡◌, refl, sym, ap, ◌∙◌, String, List, [], ◌∷◌, Option, none, some, any,
  ◌==◌, if◌then◌else◌, arith, Bool-cases, Option-cases, inl, inr,
}
use overlap.Common.Maps.{nat_key, string_key, update}
use mathlib.Core.Option.{some-injective}
use overlap.Common.Int.{ℤ, pos, negsuc}
use overlap.Time.{Time, Location}
use overlap.Time.Nanos.{unix_nano, IsNear, IsInstant, unix_nano-IsInstant, foldl-unix_nano}
use overlap.Time.Calendar.{Date}
use overlap.Solver.{Tier}
use overlap.Store.{source_coarse, source_manual}
use overlap.Dayparts.{Block, Cell, same_cell, cell_of, Selection}
use overlap.Dayparts.Selected.{last_tier}
use overlap.Server.{
  parse_date, Result, ok, err, or_err, no_such_slot, >>=-ok, or_err-ok, parse_tier,
}
use overlap.Server.Answers.{
  CoarseSelection, SlotSelection, PutResponsesRequest, coarse_of, coarse_all, Laid, valid_slots,
  overlay,
}
use overlap.Server.Answers.Named.{named_tier, coarse_of-reads, parse_tier_named}

abbrev pub Stated : Type 0
Stated = Option (Tier × String)

abbrev pub with_source : String → Option Tier → Stated
with_source source none = none
with_source source (some tier) = some (tier, source)

abbrev pub or_else : Stated → Stated → Stated
or_else none other = other
or_else (some p) other = some p

-- What one coarse selection says of a cell, and what the last of a list that says something does.
abbrev coarse_tier : Cell → Result Date → Block → Option Tier → Stated
coarse_tier c (ok d) block (some tier) =
    if same_cell (record { date = d; block = block }) c then some (tier, source_coarse) else none
coarse_tier c (ok d) block none = none
coarse_tier c (err e) block tier = none

abbrev pub coarse_said : List CoarseSelection → Cell → Stated
coarse_said [] c = none
coarse_said (s ∷ rest) c =
    or_else (coarse_said rest c) (coarse_tier c (parse_date s.date) s.block (named_tier s.tier))

-- Whether a fine selection is of an instant.
abbrev pub is_of : ℤ → Time → Bool
is_of (pos n) t = n == t
is_of (negsuc n) t = false

-- The same for the fine selections and an instant.
abbrev fine_tier : Bool → Option Tier → Stated
fine_tier b none = none
fine_tier b (some tier) = if b then some (tier, source_manual) else none

abbrev pub fine_said : List SlotSelection → Time → Stated
fine_said [] t = none
fine_said (s ∷ rest) t =
    or_else (fine_said rest t) (fine_tier (is_of s.slot_start t) (named_tier s.tier))

-- What a body says of an instant: nothing where it is no slot; else what its fine selections say,
-- and where they say nothing, what its coarse selections say.
abbrev pub said : List Time → Location → PutResponsesRequest → Time → Stated
said starts loc req t =
    if any (λ u. u == t) starts
    then or_else (fine_said req.slots t) (coarse_said req.coarse (cell_of t loc))
    else none

coarse_said_first :
    (x : Selection) (rest : List Selection) (c : Cell)
    → or_else
        (with_source source_coarse (last_tier rest c))
        (coarse_tier c (ok x.cell.date) x.cell.block (some x.tier))
      ≡ with_source source_coarse (last_tier (x ∷ rest) c)
coarse_said_first x rest c = elim (Option-cases (last_tier rest c)) [
  | inr (tier, k) ↦ rw k refl
  | inl k ↦ rw k (elim (Bool-cases (same_cell x.cell c)) [ inl b ↦ rw b refl | inr b ↦ rw b refl ])
]

pub coarse_all-said :
    (cs : List CoarseSelection) (sel : List Selection) (c : Cell)
    → coarse_all cs ≡ ok sel
    → coarse_said cs c ≡ with_source source_coarse (last_tier sel c)
unfolding coarse_all
coarse_all-said [] sel c h = let e : sel ≡ [] = ground arith in rw e refl
coarse_all-said (s ∷ cs) sel c h =
    let (x, e1, h1) = >>=-ok (coarse_of s) _ sel h in
    let (rest, e2, h2) = >>=-ok (coarse_all cs) _ sel h1 in
    let e : sel ≡ x ∷ rest = ground arith in
    let (date, block, tier) = coarse_of-reads s x e1 in
    let later : Stated → Stated = or_else (with_source source_coarse (last_tier rest c)) in
    ap (λ a. or_else a (coarse_tier c (parse_date s.date) s.block (named_tier s.tier)))
      (coarse_all-said cs rest c e2)
    ∙ ap (λ d. later (coarse_tier c d s.block (named_tier s.tier))) date
    ∙ ap (λ b. later (coarse_tier c (ok x.cell.date) b (named_tier s.tier))) block
    ∙ ap (λ t. later (coarse_tier c (ok x.cell.date) x.cell.block t)) tier
    ∙ coarse_said_first x rest c
    ∙ ap (λ a. with_source source_coarse (last_tier a c)) (sym e)

-- What the two maps say of an instant.
abbrev pub laid : Laid → Time → Stated
laid l t = with_source (l.sources t) (l.tiers t)

update-laid :
    (l : Laid) (u t : Time) (tier : Tier)
    → laid
        (record {
          tiers = update l.tiers u (some tier);
          sources = update l.sources u source_manual;
        })
        t
      ≡ or_else (fine_tier (u == t) (some tier)) (laid l t)
update-laid l u t tier = elim (Bool-cases (u == t)) [ inl e ↦ rw e refl | inr e ↦ rw e refl ]

-- Every fine selection is of a slot.
abbrev pub AreSlots : List Time → List SlotSelection → Type 0
AreSlots starts ss = All (λ s. any (is_of s.slot_start) starts ≡ true) ss

IsNear-of :
    (starts : List Time) (u : Time) → All IsNear starts → any (λ t. t == u) starts ≡ true → IsNear u
IsNear-of [] u h e = absurd (cc)
IsNear-of (t ∷ ts) u h e = elim (Bool-cases (t == u)) [
  | inl same ↦ ground (arith, same, h.0)
  | inr other ↦ IsNear-of ts u h.1 (ground (arith, e, other))
]

of_slot : (ts : List Time) (u : Time) → any (λ t. t == u) ts ≡ true → any (is_of (pos u)) ts ≡ true
of_slot [] u e = e
of_slot (t ∷ ts) u e = elim (Bool-cases (t == u)) [
  | inl same ↦ ground (arith, same)
  | inr other ↦ let more = of_slot ts u (ground (arith, e, other)) in ground (arith, more)
]

-- What a fine selection is looked up by leads to the slot at its very instant.
valid_slots-slot :
    (starts : List Time) (z : ℤ) (u : Time)
    → All IsNear starts
    → IsInstant z
    → valid_slots starts (unix_nano z) ≡ some u
    → (z ≡ pos u) × (any (λ t. t == u) starts ≡ true)
unfolding valid_slots
valid_slots-slot starts z u hs hz e =
    let k = unix_nano z in
    let shape = foldl-unix_nano starts (λ k. none) k hs in
    elim (Bool-cases (any (λ t. t == k) starts)) [
      | inr a ↦ absurd (let bad : none ≡ some u = sym (shape ∙ rw a refl) ∙ e in cc)
      | inl a ↦
          let q : some k ≡ some u = sym (shape ∙ rw a refl) ∙ e in
          let same : k ≡ u = some-injective _ _ q in
          let here : any (λ t. t == u) starts ≡ true =
            ap (λ v. any (λ t. t == v) starts) (sym same) ∙ a in
          (unix_nano-IsInstant z u hz (IsNear-of starts u hs here) same, here)
    ]

or_else_assoc : (a b c : Stated) → or_else a (or_else b c) ≡ or_else (or_else a b) c
or_else_assoc none b c = refl
or_else_assoc (some p) b c = refl

abbrev pub AreInstants : List SlotSelection → Type 0
AreInstants ss = All (λ s. IsInstant s.slot_start) ss

pub overlay-laid :
    (starts : List Time) (ss : List SlotSelection) (l m : Laid)
    → All IsNear starts
    → AreInstants ss
    → overlay (valid_slots starts) ss l ≡ ok m
    → ((t : Time) → laid m t ≡ or_else (fine_said ss t) (laid l t)) × AreSlots starts ss
unfolding overlay
overlay-laid starts [] l m hs hi h = let e : m ≡ l = ground arith in (λ t. rw e refl, tt)
overlay-laid starts (s ∷ ss) l m hs hi h =
    let found = valid_slots starts (unix_nano s.slot_start) in
    let (u, e1, h1) = >>=-ok (or_err no_such_slot found) _ m h in
    let (tier, e2, h2) = >>=-ok (parse_tier s.tier) _ m h1 in
    let (at, slot) =
      valid_slots-slot starts s.slot_start u hs hi.0 (or_err-ok no_such_slot found u e1) in
    let next : Laid = record {
      tiers = update l.tiers u (some tier);
      sources = update l.sources u source_manual;
    } in
    let (says, slots) = overlay-laid starts ss next m hs hi.1 h2 in
    (
      λ t.
          let after : Stated → Stated = λ a. or_else (or_else (fine_said ss t) a) (laid l t) in
          says t
          ∙ ap (or_else (fine_said ss t)) (update-laid l u t tier)
          ∙ or_else_assoc (fine_said ss t) (fine_tier (u == t) (some tier)) (laid l t)
          ∙ sym (
              ap (λ z. after (fine_tier (is_of z t) (named_tier s.tier))) at
              ∙ ap (λ a. after (fine_tier (u == t) a)) (parse_tier_named s.tier tier e2)),
      (ap (λ z. any (is_of z) starts) at ∙ of_slot starts u slot, slots),
    )
