-- ===== src/Solver/Rank.antt =====
-- `Rank` and `RankWithHistory` of api/internal/solver/solver.go.
pub mod Order
pub mod Lead
use overlap.Common.{
  ℕ, ◌≡◌, refl, Bool, true, false, not, ◌||◌, ◌&&◌, List, [], ◌∷◌, Option, none, some, map, arith,
  ltb, ◌==◌, if◌then◌else◌, Bool-cases,
}
use mathlib.Core.List.{Perm, Pairwise}
use overlap.Common.Float.{Float, ◌⊖◌, nought, differs}
use overlap.Common.Sort.{sort, sort-perm, sort-Pairwise}
use overlap.Time.{Time}
use overlap.Solver.{Participant, Responses, Config, SlotScore}
use overlap.Solver.Score.{score_slot}

-- `HistoryAffinity`; `none` is nil.
abbrev pub HistoryAffinity : Type 0 → Type 0
HistoryAffinity F = Option (Time → F)

abbrev pub unlike : Bool → Bool → Bool
unlike true b = not b
unlike false b = b

module _ {F : Type 0} ⦃fl : Float F⦄ where
  -- Coverage, history, score and start, for slots whose scores are close.
  unfoldable pub break_tie : HistoryAffinity F → SlotScore F → SlotScore F → Bool
  break_tie hist a b =
      let last = (if differs a.score b.score then fl.lt b.score a.score else ltb a.start b.start) in
      if not (a.coverage == b.coverage) then ltb b.coverage a.coverage else elim hist [
        | none ↦ last
        | some h ↦ if differs (h a.start) (h b.start) then fl.lt (h b.start) (h a.start) else last
      ]

  -- The `less` of the sort.
  unfoldable pub ranks_before : Config F → HistoryAffinity F → SlotScore F → SlotScore F → Bool
  ranks_before cfg hist a b =
      let diff = a.score ⊖ b.score in
      if unlike a.eliminated b.eliminated
      then not a.eliminated
      else (if fl.lt cfg.history_epsilon diff || fl.lt diff (fl.neg cfg.history_epsilon)
          then fl.lt nought diff
          else break_tie hist a b)

  -- `RankWithHistory`
  unfoldable pub rank_with_history :
      List Time → List Participant → Responses → Config F → HistoryAffinity F → List (SlotScore F)
  rank_with_history slots ps rs cfg hist =
      sort (ranks_before cfg hist) (map (λ s. score_slot s ps rs cfg) slots)

  -- `Rank`
  unfoldable pub rank : List Time → List Participant → Responses → Config F → List (SlotScore F)
  rank slots ps rs cfg = rank_with_history slots ps rs cfg none
