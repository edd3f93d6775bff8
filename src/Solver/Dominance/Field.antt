-- ===== src/Solver/Dominance/Field.antt =====
-- `possibleWinners` of api/internal/solver/solver.go: the field that is still in the race.
use overlap.Common.{
  ℕ, ◌+◌, ◌≡◌, refl, ◌⊎◌, inl, inr, true, false, List, [], ◌∷◌, arith, if◌then◌else◌, ◌==◌, All, In,
  In-All, All-of_In, Bool-cases,
}
use overlap.Common.Float.{Float, ◌≼◌, IsRounded}
use overlap.Common.Maps.{insert, lookup-insert, nat_key, beq_self}
use overlap.Time.{Time}
use overlap.Solver.{tier_no, tier_preferred, Participant, Responses, Config, SlotScore}
use overlap.Solver.Score.Monotone.{Answers, IsSound}
use overlap.Solver.Dominance.{
  SlotSet, holds, could_win, winners_loop, winners_from, possible_winners, bound_all,
}
use overlap.Solver.Dominance.Sound.{Completes, IsSociable}
use overlap.Solver.Dominance.Decided.{IsWinner, lo-le-final, final-le-hi}

holds-insert :
    (w : SlotSet) (k s : Time) → holds (insert w k true) s ≡ (if k == s then true else holds w s)
unfolding holds
holds-insert w k s =
    rw (lookup-insert w k true s, holds)
      (elim (Bool-cases (k == s)) [ inl e ↦ rw e | inr e ↦ rw e ])

module _ {F : Type 0} ⦃fl : Float F⦄ (lo hi : Time → SlotScore F) where
  -- The worst case of `o` does not beat the best case of `s`.
  abbrev Spares : Time → Time → Type 0
  Spares s o = ((lo o).eliminated ≡ true) ⊎ ((lo o).score ≼ (hi s).score)

  could_win_of_Spares :
      (i : ℕ) (s : Time) (j : ℕ) (rest : List Time)
      → All (Spares s) rest
      → could_win lo hi i s j rest ≡ true
  unfolding could_win
  could_win_of_Spares i s j [] h = refl
  could_win_of_Spares i s j (o ∷ rest) h = ground (arith, could_win_of_Spares i s (j + 1) rest h.1)

  winners_loop-keeps :
      (slots : List Time) (i : ℕ) (rest : List Time) (w : SlotSet) (s : Time)
      → holds w s ≡ true
      → holds (winners_loop lo hi slots i rest w) s ≡ true
  unfolding winners_loop
  winners_loop-keeps slots i [] w s h = h
  winners_loop-keeps slots i (x ∷ rest) w s h =
      let grown : holds (insert w x true) s ≡ true = ground (arith, holds-insert w x s) in
      winners_loop-keeps slots (i + 1) rest _ s (elim (Bool-cases (hi x).eliminated) [
        | inl e ↦ rw e h
        | inr e ↦ elim (Bool-cases (could_win lo hi i x 0 slots)) [
          | inl c ↦ rw (e, c) grown
          | inr c ↦ rw (e, c) h
        ]
      ])

  winners_loop-holds :
      (slots : List Time) (i : ℕ) (rest : List Time) (w : SlotSet) (s : Time)
      → In s rest
      → (hi s).eliminated ≡ false
      → All (Spares s) slots
      → holds (winners_loop lo hi slots i rest w) s ≡ true
  unfolding winners_loop
  winners_loop-holds slots i [] w s m alive h = absurd m
  winners_loop-holds slots i (x ∷ rest) w s (inl e) alive h =
      winners_loop-keeps slots (i + 1) rest _ s
        (rw (← e, alive, could_win_of_Spares i s 0 slots h, holds-insert w s s, beq_self s))
  winners_loop-holds slots i (x ∷ rest) w s (inr m) alive h =
      winners_loop-holds slots (i + 1) rest _ s m alive h

module _ {F : Type 0} ⦃fl : Float F⦄ (laws : IsRounded F) (cfg : Config F) (sound : IsSound cfg)
    (slots : List Time) (ps : List Participant) (rs : Responses) where
  -- Every slot that some completion of the outstanding answers makes the winner is among the
  -- possible winners. The rounding laws hold, the blending shares and the optional weight are not
  -- negative, and no optional participant with an answer outstanding at a slot would be up at an
  -- unsociable hour for it.
  pub possible_winners_complete :
      (c : Answers) (s : Time)
      → Completes rs c
      → All (IsSociable cfg rs ps) slots
      → IsWinner slots ps cfg c s
      → holds (possible_winners slots ps rs cfg) s ≡ true
  unfolding possible_winners winners_from
  possible_winners_complete c s done calm win =
      let quiet = λ (o : Time) (j : In o slots). In-All (IsSociable cfg rs ps) o slots calm j in
      let (alive, up) =
        final-le-hi laws cfg sound slots ps rs c s done (quiet s win.offered) win.offered
          win.alive in
      winners_loop-holds (bound_all slots ps rs cfg tier_no)
        (bound_all slots ps rs cfg tier_preferred) slots 0 slots [] s win.offered alive
        (All-of_In _ slots λ o j.
          elim (Bool-cases (bound_all slots ps rs cfg tier_no o).eliminated) [
            | inl dead ↦ inl dead
            | inr live ↦
                let (race, down) =
                  lo-le-final laws cfg sound slots ps rs c o done (quiet o j) j live in
                inr (laws.le_trans _ _ _ down (laws.le_trans _ _ _ (win.unbeaten o j race) up))
          ])
