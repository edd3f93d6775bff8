-- ===== src/Solver/Rank/Lead.antt =====
-- The clear leader of the ranking in api/internal/solver/solver.go.
use overlap.Common.{◌≡◌, true, false, List, ◌∷◌, ◌++◌, map, arith, All, All-image}
use mathlib.Core.List.{map-append}
use overlap.Common.Float.{Float, ◌⊖◌, nought, ◌≼◌, IsRounded, lt_of_le-lt}
use overlap.Common.Sort.{sort-first}
use overlap.Time.{Time}
use overlap.Solver.{Participant, Responses, Config, SlotScore}
use overlap.Solver.Score.{score_slot}
use overlap.Solver.Rank.{HistoryAffinity, ranks_before, rank_with_history}

module _ {F : Type 0} ⦃fl : Float F⦄ where
  -- `w` is eliminated no more than `o`, and where both are alive its score is ahead of that of `o`
  -- by more than the window in which habit may speak.
  abbrev pub Leads : Config F → SlotScore F → SlotScore F → Type 0
  Leads cfg w o =
      (w.eliminated ≡ false)
      × (o.eliminated ≡ false → fl.lt cfg.history_epsilon (w.score ⊖ o.score) ≡ true)

  module _ (laws : IsRounded F) (cfg : Config F) (window : nought ≼ cfg.history_epsilon)
      (hist : HistoryAffinity F) where
    Leads-before : (w o : SlotScore F) → Leads cfg w o → ranks_before cfg hist w o ≡ true
    unfolding ranks_before
    Leads-before w o h =
        ground (arith, h.1, lt_of_le-lt laws nought cfg.history_epsilon (w.score ⊖ o.score) window)

    Leads-not-after : (w o : SlotScore F) → Leads cfg w o → ranks_before cfg hist o w ≡ false
    unfolding ranks_before
    Leads-not-after w o h = ground (
      arith,
      h.1,
      laws.sub_flip w.score o.score cfg.history_epsilon,
      laws.neg_nonpos cfg.history_epsilon window,
      laws.lt_asymm (o.score ⊖ w.score) (fl.neg cfg.history_epsilon),
      laws.le_trans (o.score ⊖ w.score) (fl.neg cfg.history_epsilon) nought,
    )

    -- A slot that is alive and ahead of every other living slot by more than `HistoryEpsilon` ranks
    -- first, whatever the habit of the group says. The rounding laws hold and the window is not
    -- negative.
    pub rank_with_history-leader :
        (ps : List Participant) (rs : Responses) (us : List Time) (w : Time) (vs : List Time)
        → All (λ o. Leads cfg (score_slot w ps rs cfg) (score_slot o ps rs cfg)) us
        → All (λ o. Leads cfg (score_slot w ps rs cfg) (score_slot o ps rs cfg)) vs
        → (rest : List (SlotScore F)) × (rank_with_history (us ++ w ∷ vs) ps rs cfg hist
            ≡ score_slot w ps rs cfg ∷ rest)
    unfolding rank_with_history
    rank_with_history-leader ps rs us w vs hu hv =
        let score = λ (s : Time). score_slot s ps rs cfg in
        rw (map-append score us (w ∷ vs)) (
          sort-first (ranks_before cfg hist) (score w) (map score us) (map score vs)
            (All-image _ _ score us (λ o h. Leads-before (score w) (score o) h) hu)
            (All-image _ _ score vs (λ o h. Leads-not-after (score w) (score o) h) hv))
