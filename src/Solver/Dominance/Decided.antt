-- ===== src/Solver/Dominance/Decided.antt =====
-- What `Analyze` of api/internal/solver/solver.go promises when it calls an event decidable.
use overlap.Common.{
  ◌≡◌, inl, inr, true, false, List, some, arith, All, In, In-All, IsFrom-start, Option-cases,
}
use overlap.Common.Float.{Float, ◌≼◌, IsRounded, le_refl}
use overlap.Time.{Time}
use overlap.Solver.{tier_no, tier_preferred, Participant, Responses, Config, SlotScore}
use overlap.Solver.Score.Monotone.{Answers, IsSound}
use overlap.Solver.Score.Bounds.{score_slot_by_mono}
use overlap.Solver.Dominance.{filled, bound_all, settled, analyze}
use overlap.Solver.Dominance.Sound.{
  Completes, IsSociable, final, score_all-In, worst-Improves, best-Improves, Cleared,
  settled-Cleared,
}

module _ {F : Type 0} ⦃fl : Float F⦄ where
  -- Slot `s` is alive and nobody beats it once everybody has answered.
  pub record IsWinner (slots : List Time) (ps : List Participant) (cfg : Config F) (c : Answers)
      (s : Time) : Type 0 where
    pub offered : In s slots
    pub alive : (final ps cfg c s).eliminated ≡ false
    pub unbeaten :
        (o : Time)
        → In o slots
        → (final ps cfg c o).eliminated ≡ false
        → (final ps cfg c o).score ≼ (final ps cfg c s).score

  module _ (laws : IsRounded F) (cfg : Config F) (sound : IsSound cfg) (slots : List Time)
      (ps : List Participant) (rs : Responses) where
    abbrev lo : Time → SlotScore F
    lo = bound_all slots ps rs cfg tier_no

    abbrev hi : Time → SlotScore F
    hi = bound_all slots ps rs cfg tier_preferred

    -- The pessimistic bound lies below the final score of a slot.
    pub lo-le-final :
        (c : Answers) (s : Time)
        → Completes rs c
        → IsSociable cfg rs ps s
        → In s slots
        → (bound_all slots ps rs cfg tier_no s).eliminated ≡ false
        → ((final ps cfg c s).eliminated ≡ false)
          × ((bound_all slots ps rs cfg tier_no s).score ≼ (final ps cfg c s).score)
    unfolding bound_all
    lo-le-final c s done calm i e =
        let q = score_all-In slots ps cfg (filled rs tier_no) s i in
        rw q (
          score_slot_by_mono laws cfg sound s ps (filled rs tier_no) c
            (worst-Improves cfg rs c done s ps calm) (rw q at e))

    -- The optimistic bound lies above it, and a slot that is dead in the bound stays dead.
    pub final-le-hi :
        (c : Answers) (s : Time)
        → Completes rs c
        → IsSociable cfg rs ps s
        → In s slots
        → (final ps cfg c s).eliminated ≡ false
        → ((bound_all slots ps rs cfg tier_preferred s).eliminated ≡ false)
          × ((final ps cfg c s).score ≼ (bound_all slots ps rs cfg tier_preferred s).score)
    unfolding bound_all
    final-le-hi c s done calm i e =
        let q = score_all-In slots ps cfg (filled rs tier_preferred) s i in
        rw q (
          score_slot_by_mono laws cfg sound s ps c (filled rs tier_preferred)
            (best-Improves cfg rs c done s ps calm) e)

    settled-IsWinner :
        (c : Answers) (s : Time)
        → Completes rs c
        → All (IsSociable cfg rs ps) slots
        → settled lo hi slots 0 slots ≡ some s
        → IsWinner slots ps cfg c s
    settled-IsWinner c s done calm e =
        let (i, live, clear) = settled-Cleared laws lo hi slots 0 slots s (IsFrom-start slots) e in
        let quiet = λ (o : Time) (j : In o slots). In-All (IsSociable cfg rs ps) o slots calm j in
        let (alive, up) = lo-le-final c s done (quiet s i) i live in
        record {
          offered = i;
          alive = alive;
          unbeaten = λ o j race.
              let (race', down) = final-le-hi c o done (quiet o j) j race in
              elim (In-All (Cleared laws lo hi s) o slots clear j) [
                | inl same ↦ rw same (le_refl laws _)
                | inr (inl out) ↦ absurd (ground arith)
                | inr (inr fine) ↦ laws.le_trans _ _ _ (laws.le_trans _ _ _ down fine) up
              ];
        }

    -- When `Analyze` says that an event is decidable it names a leader, and however the people who
    -- are still silent answer, the leader is a slot of the event that no required participant rules
    -- out and no slot that survives scores higher. The rounding laws hold, the blending shares and
    -- the optional weight are not negative, and no optional participant with an answer outstanding
    -- at a slot would be up at an unsociable hour for it.
    pub analyze-IsWinner :
        (c : Answers)
        → Completes rs c
        → All (IsSociable cfg rs ps) slots
        → (analyze slots ps rs cfg).decidable ≡ true
        → (s : Time) × ((analyze slots ps rs cfg).leader ≡ some s) × IsWinner slots ps cfg c s
    unfolding analyze
    analyze-IsWinner c done calm e = elim (Option-cases (settled lo hi slots 0 slots)) [
      | inl undecided ↦ absurd (ground arith)
      | inr (s, found) ↦ (s, rw (found, analyze), settled-IsWinner c s done calm found)
    ]
