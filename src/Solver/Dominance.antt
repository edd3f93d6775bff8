-- ===== src/Solver/Dominance.antt =====
-- `Analyze` of api/internal/solver/solver.go and the bounds behind it.
pub mod Sound
pub mod Decided
pub mod Field
pub mod Blocking
use overlap.Common.{
  ℕ, ◌+◌, String, Bool, true, false, not, ◌&&◌, ◌||◌, List, [], ◌∷◌, Option, none, some, foldl,
  length, ◌==◌, if◌then◌else◌, is_some, any, all,
}
use overlap.Common.Float.{Float}
use overlap.Common.Maps.{update, insert, lookup, nat_key, string_key, Key}
use overlap.Time.{Time}
use overlap.Solver.{
  Tier, tier_no, tier_preferred, Role, role_optional, role_required, Participant, Responses, get,
  Config, SlotScore,
}
use overlap.Solver.Score.{opening, score_slot, score_slot_by}
use overlap.Solver.Score.Monotone.{Answers, answered}
use overlap.Solver.Score.Counts.{is_required}

-- The lookup of `boundAll`: the real answer, or else `fill`.
unfoldable pub filled : Responses → Tier → Answers
filled rs fill pid at = elim (get rs pid at) [ some t ↦ t | none ↦ fill ]

-- The lookup of `boundAllPinned`.
unfoldable pub pinned : Responses → Tier → String → Tier → Answers
pinned rs fill pin_id pin pid at = elim (get rs pid at) [
  | some t ↦ t
  | none ↦ if string_key.beq pid pin_id then pin else fill
]

-- Whether a participant has left one of the slots unanswered.
unfoldable pub missing : List Time → Responses → Participant → Bool
missing slots rs p = any (λ s. not (is_some (get rs p.id s))) slots

-- `BlockingRequired`
unfoldable pub blocking : List Time → List Participant → Responses → List String
unfolding missing
blocking slots [] rs = []
blocking slots (p ∷ ps) rs =
    if is_required p.role && missing slots rs p
    then p.name ∷ blocking slots ps rs
    else blocking slots ps rs

-- A set of slots, `map[time.Time]bool`.
abbrev pub SlotSet : Type 0
SlotSet = List (Time × Bool)

unfoldable pub holds : SlotSet → Time → Bool
holds w s = elim (lookup w s) [ none ↦ false | some b ↦ b ]

-- `sameSet`
unfoldable pub same_set : SlotSet → SlotSet → Bool
unfolding holds
same_set a b = length a == length b && all (λ e. holds b e.0) a

-- `Dominance`. A map from slots to scores is a function; a key that is not there reads as zero.
pub record Dominance : Type 0 where
  pub decidable : Bool
  -- `none` is the zero time.
  pub leader : Option Time
  pub blocking_required : List String
  pub relevant : List String

module _ {F : Type 0} ⦃fl : Float F⦄ where
  unfoldable pub zero_score : SlotScore F
  unfolding opening
  zero_score = (opening 0 0).slot

  -- The loop that `boundAll` and `boundAllPinned` share.
  unfoldable pub score_all :
      List Time → List Participant → Config F → Answers → (Time → SlotScore F)
  score_all slots ps cfg a =
      foldl (λ m s. update m s (score_slot_by s ps cfg (answered a))) (λ _. zero_score) slots

  -- `boundAll`
  unfoldable pub bound_all :
      List Time → List Participant → Responses → Config F → Tier → (Time → SlotScore F)
  bound_all slots ps rs cfg fill = score_all slots ps cfg (filled rs fill)

  -- `boundAllPinned`
  unfoldable pub bound_all_pinned :
      List Time
      → List Participant
      → Responses
      → Config F
      → Tier
      → String
      → Tier
      → (Time → SlotScore F)
  bound_all_pinned slots ps rs cfg fill pin_id pin =
      score_all slots ps cfg (pinned rs fill pin_id pin)

  -- `leaderOf`: the best slot so far.
  unfoldable pub front_runner :
      List Participant → Responses → Config F → Option (SlotScore F) → Time → Option (SlotScore F)
  front_runner ps rs cfg best s =
      let sc = score_slot s ps rs cfg in
      if sc.eliminated
      then best
      else elim best [ none ↦ some sc | some b ↦ some (if fl.lt b.score sc.score then sc else b) ]

  unfoldable pub leader_of : List Time → List Participant → Responses → Config F → Option Time
  unfolding front_runner
  leader_of slots ps rs cfg = elim (foldl (front_runner ps rs cfg) none slots) [
    | none ↦ none
    | some b ↦ some b.start
  ]

  -- The inner loop of `Analyze`, over the slots from index `j` on: no rival's best case beats the
  -- worst case of slot `i`.
  unfoldable pub clears : (lo hi : Time → SlotScore F) → ℕ → Time → ℕ → List Time → Bool
  clears lo hi i s j [] = true
  clears lo hi i s j (other ∷ rest) =
      let next = clears lo hi i s (j + 1) rest in
      if i == j || (hi other).eliminated
      then next
      else (if fl.lt (lo s).score (hi other).score then false else next)

  -- Its outer loop: the first slot that clears the field.
  unfoldable pub settled : (lo hi : Time → SlotScore F) → List Time → ℕ → List Time → Option Time
  unfolding clears
  settled lo hi slots i [] = none
  settled lo hi slots i (s ∷ rest) =
      let next = settled lo hi slots (i + 1) rest in
      if (lo s).eliminated then next else (if clears lo hi i s 0 slots then some s else next)

  -- The inner loop of `winnersFrom`: no rival's worst case beats the best case of slot `i`.
  unfoldable pub could_win : (lo hi : Time → SlotScore F) → ℕ → Time → ℕ → List Time → Bool
  could_win lo hi i s j [] = true
  could_win lo hi i s j (other ∷ rest) =
      let next = could_win lo hi i s (j + 1) rest in
      if i == j || (lo other).eliminated
      then next
      else (if fl.lt (hi s).score (lo other).score then false else next)

  unfoldable pub winners_loop :
      (lo hi : Time → SlotScore F) → List Time → ℕ → List Time → SlotSet → SlotSet
  unfolding could_win
  winners_loop lo hi slots i [] w = w
  winners_loop lo hi slots i (s ∷ rest) w = winners_loop lo hi slots (i + 1) rest (
      if (hi s).eliminated then w else (if could_win lo hi i s 0 slots then insert w s true else w))

  -- `winnersFrom`
  unfoldable pub winners_from : List Time → (lo hi : Time → SlotScore F) → SlotSet
  unfolding winners_loop
  winners_from slots lo hi = winners_loop lo hi slots 0 slots []

  -- `possibleWinners`
  unfoldable pub possible_winners : List Time → List Participant → Responses → Config F → SlotSet
  possible_winners slots ps rs cfg =
      winners_from slots (bound_all slots ps rs cfg tier_no)
        (bound_all slots ps rs cfg tier_preferred)

  -- `possibleWinnersPinned`
  unfoldable pub possible_winners_pinned :
      List Time → List Participant → Responses → Config F → String → Tier → SlotSet
  possible_winners_pinned slots ps rs cfg pin_id pin =
      winners_from slots (bound_all_pinned slots ps rs cfg tier_no pin_id pin)
        (bound_all_pinned slots ps rs cfg tier_preferred pin_id pin)

  -- Whether settling one participant's answers narrows the field.
  unfoldable pub matters : List Time → List Participant → Responses → Config F → Participant → Bool
  matters slots ps rs cfg p =
      let now = possible_winners slots ps rs cfg in
      let worst = possible_winners_pinned slots ps rs cfg p.id tier_no in
      let best = possible_winners_pinned slots ps rs cfg p.id tier_preferred in
      missing slots rs p
      && (not (same_set worst best) || not (same_set now worst) || not (same_set now best))

  -- `relevantNonResponders`, over the participants still to visit.
  unfoldable pub relevant_among :
      List Time → List Participant → Responses → Config F → List Participant → List String
  unfolding matters
  relevant_among slots ps rs cfg [] = []
  relevant_among slots ps rs cfg (p ∷ rest) =
      if matters slots ps rs cfg p
      then p.name ∷ relevant_among slots ps rs cfg rest
      else relevant_among slots ps rs cfg rest

  -- `Analyze`
  unfoldable pub analyze : List Time → List Participant → Responses → Config F → Dominance
  analyze slots ps rs cfg =
      let lo = bound_all slots ps rs cfg tier_no in
      let hi = bound_all slots ps rs cfg tier_preferred in
      elim (settled lo hi slots 0 slots) [
        | some s ↦ record {
          decidable = true;
          leader = some s;
          blocking_required = blocking slots ps rs;
          relevant = [];
        }
        | none ↦ record {
          decidable = false;
          leader = leader_of slots ps rs cfg;
          blocking_required = blocking slots ps rs;
          relevant = relevant_among slots ps rs cfg ps;
        }
      ]
