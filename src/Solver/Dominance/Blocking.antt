-- ===== src/Solver/Dominance/Blocking.antt =====
-- Required participants who are silent, in `Analyze` of api/internal/solver/solver.go.
use overlap.Common.{
  ℕ, ◌+◌, ◌≡◌, refl, ◌∙◌, inl, inr, Bool, true, false, List, [], ◌∷◌, none, arith, any, In,
}
use overlap.Common.Float.{Float}
use overlap.Time.{Time}
use overlap.Solver.{
  tier_no, tier_preferred, role_required, Participant, Responses, get, Config, SlotScore,
}
use overlap.Solver.Score.Counts.{vetoes, score_slot_by-Counted}
use overlap.Solver.Score.Monotone.{answered}
use overlap.Solver.Dominance.{filled, bound_all, settled, analyze}
use overlap.Solver.Dominance.Sound.{score_all-In, filled-none}

any-In : {A : Type 0} (p : A → Bool) (xs : List A) (a : A) → In a xs → p a ≡ true → any p xs ≡ true
any-In p (x ∷ xs) a (inl e) h = ground arith
any-In p (x ∷ xs) a (inr m) h = ground (arith, any-In p xs a m h)
any-In p [] a m h = absurd m

module _ {F : Type 0} ⦃fl : Float F⦄ where
  settled-eq-none :
      (lo hi : Time → SlotScore F) (slots : List Time) (i : ℕ) (rest : List Time)
      → ((s : Time) → In s rest → (lo s).eliminated ≡ true)
      → settled lo hi slots i rest ≡ none
  unfolding settled
  settled-eq-none lo hi slots i [] h = refl
  settled-eq-none lo hi slots i (x ∷ rest) h =
      rw (h x (inl refl)) (settled-eq-none lo hi slots (i + 1) rest (λ s m. h s (inr m)))

  -- A participant who is required and has answered nothing blocks the decision: whatever the others
  -- said, the event is not decidable.
  pub analyze-silent_required :
      (slots : List Time) (ps : List Participant) (rs : Responses) (cfg : Config F)
      (p : Participant)
      → In p ps
      → p.role ≡ role_required
      → ((s : Time) → get rs p.id s ≡ none)
      → (analyze slots ps rs cfg).decidable ≡ false
  unfolding analyze bound_all
  analyze-silent_required slots ps rs cfg p m r silent = rw (
    settled-eq-none (bound_all slots ps rs cfg tier_no) (bound_all slots ps rs cfg tier_preferred)
        slots 0 slots dead,
    analyze,
  )
    where
      veto : (s : Time) → vetoes (answered (filled rs tier_no)) s p ≡ true
      veto s = rw (r, filled-none rs tier_no p.id s (silent s))

      dead : (s : Time) → In s slots → (bound_all slots ps rs cfg tier_no s).eliminated ≡ true
      dead s i = rw (score_all-In slots ps cfg (filled rs tier_no) s i) (
          (score_slot_by-Counted s cfg (answered (filled rs tier_no)) ps).0
          ∙ any-In (vetoes (answered (filled rs tier_no)) s) ps p m (veto s))
