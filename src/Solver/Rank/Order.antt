-- ===== src/Solver/Rank/Order.antt =====
-- What the ranking of api/internal/solver/solver.go guarantees, whatever the scores.
use overlap.Common.{◌≡◌, true, false, List, map, arith}
use mathlib.Core.List.{Perm, Pairwise}
use overlap.Common.Float.{Float}
use overlap.Common.Sort.{sort-perm, sort-Pairwise}
use overlap.Time.{Time}
use overlap.Solver.{Participant, Responses, Config, SlotScore}
use overlap.Solver.Score.{score_slot}
use overlap.Solver.Rank.{HistoryAffinity, ranks_before, rank_with_history}

module _ {F : Type 0} ⦃fl : Float F⦄ where
  -- `b` may stand behind `a`: only behind other eliminated slots is a slot eliminated.
  abbrev pub DeadLast : SlotScore F → SlotScore F → Type 0
  DeadLast a b = a.eliminated ≡ true → b.eliminated ≡ true

  ranks_before-dead :
      (cfg : Config F) (hist : HistoryAffinity F) (x p : SlotScore F)
      → ranks_before cfg hist x p ≡ true
      → DeadLast x p
  unfolding ranks_before
  ranks_before-dead cfg hist x p e dead = ground arith

  not-ranks_before-dead :
      (cfg : Config F) (hist : HistoryAffinity F) (x p : SlotScore F)
      → ranks_before cfg hist x p ≡ false
      → DeadLast p x
  unfolding ranks_before
  not-ranks_before-dead cfg hist x p e dead = ground arith

  -- The ranking holds each slot's own score exactly as often as the slot is offered, and no
  -- eliminated slot stands before one that is alive, whatever the scores, the habit of the group
  -- and the parameters.
  pub rank_with_history-DeadLast :
      (slots : List Time) (ps : List Participant) (rs : Responses) (cfg : Config F)
      (hist : HistoryAffinity F)
      → Perm (rank_with_history slots ps rs cfg hist) (map (λ s. score_slot s ps rs cfg) slots)
        × Pairwise DeadLast (rank_with_history slots ps rs cfg hist)
  unfolding rank_with_history
  rank_with_history-DeadLast slots ps rs cfg hist = (
    sort-perm (ranks_before cfg hist) _,
    sort-Pairwise (ranks_before cfg hist) DeadLast (λ a b. hlevel) (λ a b c h k e. k (h e))
        (ranks_before-dead cfg hist) (not-ranks_before-dead cfg hist) _,
  )
