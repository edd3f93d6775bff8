-- ===== src/Solver/Score.antt =====
-- `ScoreSlot` and `scoreSlot` of api/internal/solver/solver.go.
pub mod Counts
pub mod Monotone
pub mod Bounds
use overlap.Common.{
  ℕ, ◌+◌, String, Bool, true, false, not, ◌||◌, List, [], ◌∷◌, ◌++◌, Option, none, some, foldl,
  length, ltb, leb, if◌then◌else◌,
}
use overlap.Common.Float.{Float, ◌⊕◌, ◌⊖◌, ◌⊗◌, ◌⊘◌, nought, unit, differs}
use overlap.Time.{Time, Location, hour_in}
use overlap.Solver.{
  Tier, tier_no, tier_if_needed, tier_ok, tier_preferred, Role, role_optional, role_required,
  Participant, location, Responses, get, Config, SlotScore,
}

module _ {F : Type 0} where
  -- `unsociable`
  unfoldable pub unsociable : Time → Location → Config F → Bool
  unsociable start loc cfg =
      let h = hour_in loc start in ltb h cfg.day_start_hour || leb cfg.day_end_hour h

-- The variables of the loop in `scoreSlot`.
pub record Tally (F : Type 0) : Type 0 where
  pub slot : SlotScore F
  pub weighted : F
  pub weights : F
  pub min_required : F
  pub have_required : Bool
  pub penalized : ℕ

module _ {F : Type 0} ⦃fl : Float F⦄ where
  -- `Tier.Value`
  unfoldable pub value : Tier → F
  value tier_preferred = fl.lit 1 1
  value tier_ok = fl.lit 7 10
  value tier_if_needed = fl.lit 3 10
  value tier_no = fl.lit 0 1

  -- The `!answered` branch.
  unfoldable pub skip : Participant → Tally F → Tally F
  skip p s = record s { slot = record (s.slot) { unknown = s.slot.unknown ++ p.name ∷ [] } }

  -- The `tier == TierNo` branch: a veto, or a refusal that the mean carries as a zero.
  unfoldable pub refuse : Config F → Role → String → Tally F → Tally F
  refuse cfg role_required name s = record s {
    slot = record (s.slot) { eliminated = true; eliminated_by = s.slot.eliminated_by ++ name ∷ [] };
  }
  refuse cfg role_optional name s = record s {
    slot = record (s.slot) { excludes = s.slot.excludes ++ name ∷ [] };
    weights = s.weights ⊕ cfg.optional_weight;
  }

  -- `w`, `haveRequired` and `minRequired` after the role of an attending participant.
  unfoldable pub weight_of : Config F → Role → F
  weight_of cfg role_required = unit
  weight_of cfg role_optional = cfg.optional_weight

  unfoldable pub lower_floor : Role → F → Tally F → Tally F
  lower_floor role_required v s = record s {
    have_required = true;
    min_required = if fl.lt v s.min_required then v else s.min_required;
  }
  lower_floor role_optional v s = s

  -- The rest of the loop body: someone who can attend.
  unfoldable pub attend : Config F → Role → F → Bool → Tally F → Tally F
  attend cfg role v late s =
      let t = lower_floor role v s in
      record t {
        slot = record (t.slot) { coverage = t.slot.coverage + 1 };
        weighted = t.weighted ⊕ v ⊗ weight_of cfg role;
        weights = t.weights ⊕ weight_of cfg role;
        penalized = if late then t.penalized + 1 else t.penalized;
      }

  unfoldable pub answer : Time → Config F → Participant → Option Tier → Tally F → Tally F
  answer start cfg p none s = skip p s
  answer start cfg p (some tier_no) s = refuse cfg p.role p.name s
  answer start cfg p (some tier) s =
      attend cfg p.role (value tier) (unsociable start (location p) cfg) s

  unfoldable pub visit :
      Time → Config F → (String → Time → Option Tier) → Tally F → Participant → Tally F
  visit start cfg look s p = answer start cfg p (look p.id start) s

  unfoldable pub opening : Time → ℕ → Tally F
  opening start total = record {
    slot = record {
      start = start;
      eliminated = false;
      eliminated_by = [];
      excludes = [];
      unknown = [];
      coverage = 0;
      total = total;
      score = nought;
      penalty = nought;
    };
    weighted = nought;
    weights = nought;
    min_required = unit;
    have_required = false;
    penalized = 0;
  }

  unfoldable pub penalty_of : Config F → ℕ → F
  penalty_of cfg n =
      let raw = fl.of_ℕ n ⊗ cfg.unsociable_penalty in
      if fl.lt cfg.unsociable_cap raw then cfg.unsociable_cap else raw

  -- `base - s.Penalty`, never below zero.
  unfoldable pub composite : Config F → Tally F → F
  unfolding penalty_of
  composite cfg s =
      let mean = s.weighted ⊘ s.weights in
      let floor = if s.have_required then s.min_required else mean in
      let base = cfg.alpha ⊗ mean ⊕ (unit ⊖ cfg.alpha) ⊗ floor in
      let score = base ⊖ penalty_of cfg s.penalized in if fl.lt score nought then nought else score

  -- What follows the loop.
  unfoldable pub settle : Config F → Tally F → SlotScore F
  settle cfg s =
      if s.slot.eliminated || not (differs s.weights nought)
      then s.slot
      else record (s.slot) { score = composite cfg s; penalty = penalty_of cfg s.penalized }

  unfoldable pub tally :
      Time → Config F → (String → Time → Option Tier) → Tally F → List Participant → Tally F
  tally start cfg look s [] = s
  tally start cfg look s (p ∷ ps) = tally start cfg look (visit start cfg look s p) ps

  -- `scoreSlot`
  unfoldable pub score_slot_by :
      Time → List Participant → Config F → (String → Time → Option Tier) → SlotScore F
  score_slot_by start ps cfg look = settle cfg (tally start cfg look (opening start (length ps)) ps)

  -- `ScoreSlot`
  unfoldable pub score_slot : Time → List Participant → Responses → Config F → SlotScore F
  score_slot start ps rs cfg = score_slot_by start ps cfg (get rs)
