-- ===== src/Solver/Score/Counts.antt =====
-- Whom `scoreSlot` of api/internal/solver/solver.go counts where.
use overlap.Common.{
  ◌+◌, ◌≡◌, String, Bool, true, false, ◌&&◌, ◌||◌, List, [], ◌∷◌, ◌++◌, Option, none, some, arith,
  length, length-append, if◌then◌else◌, any, ◌∙◌,
}
use mathlib.Core.List.{append_assoc, append-nil}
use overlap.Common.Float.{Float}
use overlap.Time.{Time}
use overlap.Solver.{
  Tier, tier_no, tier_if_needed, tier_ok, tier_preferred, Role, role_optional, role_required,
  Participant, Config, SlotScore,
}
use overlap.Solver.Score.{
  Tally, skip, refuse, lower_floor, attend, answer, visit, opening, settle, tally, score_slot_by,
}

-- The names of the participants that pass a test, in order.
abbrev pub names_where : (Participant → Bool) → List Participant → List String
names_where test [] = []
names_where test (p ∷ ps) = if test p then p.name ∷ names_where test ps else names_where test ps

abbrev pub is_silent : Option Tier → Bool
is_silent none = true
is_silent (some t) = false

abbrev pub refuses : Option Tier → Bool
refuses none = false
refuses (some tier_no) = true
refuses (some t) = false

abbrev pub attends : Option Tier → Bool
attends none = false
attends (some tier_no) = false
attends (some t) = true

abbrev pub is_required : Role → Bool
is_required role_required = true
is_required role_optional = false

abbrev pub is_optional : Role → Bool
is_optional role_required = false
is_optional role_optional = true

module _ (look : String → Time → Option Tier) (start : Time) where
  abbrev pub vetoes : Participant → Bool
  vetoes p = is_required p.role && refuses (look p.id start)

  abbrev pub declines : Participant → Bool
  declines p = is_optional p.role && refuses (look p.id start)

  abbrev pub silent : Participant → Bool
  silent p = is_silent (look p.id start)

  abbrev pub comes : Participant → Bool
  comes p = attends (look p.id start)

-- What the loop has added to a tally.
pub record Counted {F : Type 0} (s t : SlotScore F) (by out quiet in_ : List String) (veto : Bool)
    : Type 0 where
  pub eliminated : t.eliminated ≡ (s.eliminated || veto)
  pub eliminated_by : t.eliminated_by ≡ s.eliminated_by ++ by
  pub excludes : t.excludes ≡ s.excludes ++ out
  pub unknown : t.unknown ≡ s.unknown ++ quiet
  pub coverage : t.coverage ≡ s.coverage + length in_
  pub start : t.start ≡ s.start
  pub total : t.total ≡ s.total

abbrev once : Bool → String → List String
once b n = if b then n ∷ [] else []

names_where-cons :
    (test : Participant → Bool) (p : Participant) (ps : List Participant)
    → names_where test (p ∷ ps) ≡ once (test p) p.name ++ names_where test ps
names_where-cons test p ps = ground arith

module _ {F : Type 0} ⦃fl : Float F⦄ (start : Time) (cfg : Config F) where
  -- One round of the loop.
  abbrev Round : Participant → Option Tier → Tally F → Type 0
  Round p o s =
      Counted s.slot (answer start cfg p o s).slot (once (is_required p.role && refuses o) p.name)
        (once (is_optional p.role && refuses o) p.name) (once (is_silent o) p.name)
        (once (attends o) p.name) (is_required p.role && refuses o)

  refuse-Counted :
      (p : Participant) (r : Role) (s : Tally F)
      → Counted s.slot
          (refuse cfg r p.name s).slot
          (once (is_required r && true) p.name)
          (once (is_optional r && true) p.name)
          []
          []
          (is_required r && true)
  unfolding refuse
  refuse-Counted p role_required s = grind (arith, append-nil)
  refuse-Counted p role_optional s = grind (arith, append-nil)

  attend-Counted :
      (p : Participant) (r : Role) (v : F) (late : Bool) (s : Tally F)
      → Counted s.slot
          (attend cfg r v late s).slot
          (once (is_required r && false) p.name)
          (once (is_optional r && false) p.name)
          []
          (p.name ∷ [])
          (is_required r && false)
  unfolding attend lower_floor
  attend-Counted p role_required v late s = grind (arith, append-nil)
  attend-Counted p role_optional v late s = grind (arith, append-nil)

  answer-Counted : (p : Participant) (o : Option Tier) (s : Tally F) → Round p o s
  unfolding answer skip
  answer-Counted p none s = grind (arith, append-nil)
  answer-Counted p (some tier_no) s = refuse-Counted p p.role s
  answer-Counted p (some tier_if_needed) s = attend-Counted p p.role _ _ s
  answer-Counted p (some tier_ok) s = attend-Counted p p.role _ _ s
  answer-Counted p (some tier_preferred) s = attend-Counted p p.role _ _ s

  -- A list of participants, for the loop from any tally on.
  abbrev pub Rounds : (String → Time → Option Tier) → List Participant → Tally F → Type 0
  Rounds look ps s =
      Counted s.slot (tally start cfg look s ps).slot (names_where (vetoes look start) ps)
        (names_where (declines look start) ps) (names_where (silent look start) ps)
        (names_where (comes look start) ps) (any (vetoes look start) ps)

  Counted-trans :
      {s t u : SlotScore F} (a b c d a' b' c' d' : List String) (v w : Bool)
      → Counted s t a b c d v
      → Counted t u a' b' c' d' w
      → Counted s u (a ++ a') (b ++ b') (c ++ c') (d ++ d') (v || w)
  Counted-trans a b c d a' b' c' d' v w h k = record {
    eliminated = grind arith;
    eliminated_by = rw (k.eliminated_by, h.eliminated_by) (append_assoc _ a a');
    excludes = rw (k.excludes, h.excludes) (append_assoc _ b b');
    unknown = rw (k.unknown, h.unknown) (append_assoc _ c c');
    coverage =
        let e : length (d ++ d') ≡ length d + length d' = length-append d d' in
        let p = h.coverage in let q = k.coverage in omega arith;
    start = k.start ∙ h.start;
    total = k.total ∙ h.total;
  }

  pub tally-Counted :
      (look : String → Time → Option Tier) (ps : List Participant) (s : Tally F) → Rounds look ps s
  unfolding tally visit
  tally-Counted look [] s = grind (arith, append-nil)
  tally-Counted look (p ∷ ps) s =
      rw
        (
          names_where-cons (vetoes look start) p ps,
          names_where-cons (declines look start) p ps,
          names_where-cons (silent look start) p ps,
          names_where-cons (comes look start) p ps,
        )
        (Counted-trans _ _ _ _ _ _ _ _ _ _ (answer-Counted p (look p.id start) s)
          (tally-Counted look ps (visit start cfg look s p)))

  pub settle-keeps :
      (s : Tally F)
      → ((settle cfg s).eliminated ≡ s.slot.eliminated)
        × ((settle cfg s).eliminated_by ≡ s.slot.eliminated_by)
        × ((settle cfg s).excludes ≡ s.slot.excludes)
        × ((settle cfg s).unknown ≡ s.slot.unknown)
        × ((settle cfg s).coverage ≡ s.slot.coverage)
        × ((settle cfg s).start ≡ s.slot.start)
        × ((settle cfg s).total ≡ s.slot.total)
  unfolding settle
  settle-keeps s = ground arith

  -- Scoring a slot files every participant by what the lookup says of them: the slot is eliminated
  -- exactly when a required participant refuses it, `eliminated_by` names those participants,
  -- `excludes` the optional ones who refuse, `unknown` those without an answer, each in the order
  -- of the list, and `coverage` is the number of those who can attend; the start is the slot's and
  -- `total` the number of participants.
  pub score_slot_by-Counted :
      (look : String → Time → Option Tier) (ps : List Participant)
      → let s = score_slot_by start ps cfg look in
        (s.eliminated ≡ any (vetoes look start) ps)
        × (s.eliminated_by ≡ names_where (vetoes look start) ps)
        × (s.excludes ≡ names_where (declines look start) ps)
        × (s.unknown ≡ names_where (silent look start) ps)
        × (s.coverage ≡ length (names_where (comes look start) ps))
        × (s.start ≡ start)
        × (s.total ≡ length ps)
  unfolding score_slot_by opening
  score_slot_by-Counted look ps =
      let first = opening start (length ps) in
      let k = settle-keeps (tally start cfg look first ps) in
      let c = tally-Counted look ps first in
      (
        k.0 ∙ c.eliminated,
        k.1 ∙ c.eliminated_by,
        k.2 ∙ c.excludes,
        k.3 ∙ c.unknown,
        k.4 ∙ c.coverage ∙ ground arith,
        k.5 ∙ c.start,
        k.6 ∙ c.total,
      )
