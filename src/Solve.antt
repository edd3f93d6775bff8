-- ===== src/Solve.antt =====
-- api/internal/server/solve.go: the results that a poll shows, from the stored rows on, and what
-- the organizer may decide. Reading the rows and writing the decision are the store's.
pub mod Verdict
pub mod Decide
mod Tests
use overlap.Common.{
  ℕ, String, Bool, true, false, not, ◌&&◌, List, [], ◌∷◌, Option, none, some, ◌⊎◌, inl, inr, length,
  ltb, ◌==◌, any, if◌then◌else◌,
}
use overlap.Common.Float.{Float}
use overlap.Common.Maps.{string_key}
use overlap.Time.{Time}
use overlap.Solver.{Config, SlotScore}
use overlap.Solver.Rank.{HistoryAffinity, rank_with_history}
use overlap.Solver.Dominance.{Dominance, analyze}
use overlap.Store.{Participant, Response}
use overlap.Tz.{ZoneDb}
use overlap.Slots.{Window, SlotError}
use overlap.Slots
use overlap.Results.{Input, build}

abbrev pub verdict_decided : String
verdict_decided = "decided"

abbrev pub verdict_decidable : String
verdict_decidable = "decidable"

abbrev pub verdict_waiting_required : String
verdict_waiting_required = "waiting_on_required"

abbrev pub verdict_waiting_relevant : String
verdict_waiting_relevant = "waiting_on_relevant"

abbrev pub verdict_tied : String
verdict_tied = "tied"

abbrev pub verdict_no_slots : String
verdict_no_slots = "no_slots"

pub record DominanceView : Type 0 where
  pub verdict : String
  pub decidable : Bool
  pub leader : Option Time
  pub blocking_required : List String
  pub relevant : List String

module _ {F : Type 0} ⦃fl : Float F⦄ where
  -- `anyAlive`
  unfoldable pub any_alive : List (SlotScore F) → Bool
  any_alive ranked = any (λ r. not r.eliminated) ranked

  -- The switch of `toDominanceView`.
  unfoldable pub verdict_of : Dominance → List (SlotScore F) → String → String
  verdict_of d ranked status =
      if string_key.beq status "decided"
      then verdict_decided
      else (if not (any_alive ranked)
          then verdict_no_slots
          else (if d.decidable
              then verdict_decidable
              else (if ltb 0 (length d.blocking_required)
                  then verdict_waiting_required
                  else (if ltb 0 (length d.relevant)
                      then verdict_waiting_relevant
                      else verdict_tied))))

  -- `toDominanceView`
  unfoldable pub to_dominance_view : Dominance → List (SlotScore F) → String → DominanceView
  to_dominance_view d ranked status = record {
    verdict = verdict_of d ranked status;
    decidable = d.decidable;
    leader = d.leader;
    blocking_required = d.blocking_required;
    relevant = d.relevant;
  }

  -- `rankAndAnalyze` on loaded inputs: the ranking and the analysis of the same snapshot.
  unfoldable pub rank_and_analyze :
      Config F → HistoryAffinity F → Input → List (SlotScore F) × Dominance
  rank_and_analyze cfg hist input = (
    rank_with_history input.slots input.participants input.responses cfg hist,
    analyze input.slots input.participants input.responses cfg,
  )

  -- `handleSolve`, once the event's rows are loaded: the ranking and the view, or the error of the
  -- expansion.
  unfoldable pub solve :
      ZoneDb
      → Window
      → List Participant
      → (String → List Response)
      → Config F
      → HistoryAffinity F
      → String
      → (List (SlotScore F) × DominanceView) ⊎ SlotError
  solve db w ps rows cfg hist status = elim (Slots.expand w) [
    | inr e ↦ inr e
    | inl exp ↦
        let r = rank_and_analyze cfg hist (build db ps rows exp.starts) in
        inl (r.0, to_dominance_view r.1 r.0 status)
  ]

  -- `chosen`, the first ranked slot at the instant.
  unfoldable pub chosen : List (SlotScore F) → Time → Option (SlotScore F)
  chosen [] slot = none
  chosen (r ∷ rest) slot = if r.start == slot then some r else chosen rest slot

pub data DecideError : Type 0 where
  err_not_organizer err_not_a_slot err_ruled_out : DecideError

module _ {F : Type 0} ⦃fl : Float F⦄ where
  -- Whether the chosen slot may be locked.
  unfoldable pub may_lock : SlotScore F → Bool → Bool
  may_lock c force = not (c.eliminated && not force)

  -- The checks of `handleDecide` before the slot is locked.
  unfoldable pub decide : Bool → List (SlotScore F) → Time → Bool → SlotScore F ⊎ DecideError
  decide is_organizer ranked slot force =
      if not is_organizer then inr err_not_organizer else elim (chosen ranked slot) [
        | none ↦ inr err_not_a_slot
        | some c ↦ if may_lock c force then inl c else inr err_ruled_out
      ]
