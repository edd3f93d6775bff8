-- ===== src/Solver/Tests.antt =====
-- Runs of the solver on small events, in fixed-point numbers, and its theorems at concrete inputs.
use overlap.Common.{
  ℕ, ◌*◌, ◌≡◌, refl, true, false, List, [], ◌∷◌, ◌++◌, Option, none, some, map, arith, All,
  if◌then◌else◌, inl, inr,
}
use mathlib.Core.List.{Perm, Pairwise}
use overlap.Common.Int.{ℤ, pos, negsuc, ◌+ℤ◌, ◌-ℤ◌}
use overlap.Common.Float.{◌≼◌, nought, unit}
use overlap.Common.Fixed.{fixed, fixed-IsRounded}
use overlap.Common.Maps.{insert, lookup, nat_key, string_key}
use overlap.Common.Sort.{sort}
use overlap.Time.{Time, hour, hour_in}
use overlap.Solver.{
  Tier, tier_no, tier_if_needed, tier_ok, tier_preferred, role_optional, role_required, Participant,
  location, Responses, get, Config, default_config, SlotScore,
}
use overlap.Solver.Score.{
  score_slot_by, score_slot, tally, settle, composite, opening, visit, answer, skip, refuse, attend,
  lower_floor, weight_of, unsociable, value,
}
use overlap.Solver.Score.Counts.{score_slot_by-Counted}
use overlap.Solver.Score.Monotone.{Answers, answered, IsSound}
use overlap.Solver.Score.Bounds.{score_slot_by_mono}
use overlap.Solver.Rank.{rank, rank_with_history, HistoryAffinity, ranks_before, break_tie}
use overlap.Solver.Rank.Order.{DeadLast, rank_with_history-DeadLast}
use overlap.Solver.Rank.Lead.{rank_with_history-leader}
use overlap.Solver.Dominance.{
  analyze, settled, clears, bound_all, score_all, zero_score, filled, blocking, leader_of,
  relevant_among, possible_winners, possible_winners_pinned, winners_from, bound_all_pinned, pinned,
  same_set, holds, missing,
}
use overlap.Solver.Dominance.Sound.{Completes, IsSociable, final}
use overlap.Solver.Dominance.Decided.{IsWinner, analyze-IsWinner}
use overlap.Solver.Dominance.Field.{possible_winners_complete}
use overlap.Solver.Dominance.Blocking.{analyze-silent_required}

abbrev config : Config ℤ
config = record {
  alpha = pos 7000;
  optional_weight = pos 5000;
  unsociable_penalty = pos 1500;
  unsociable_cap = pos 4500;
  day_start_hour = 8;
  day_end_hour = 21;
  history_epsilon = pos 500;
}

default_config-config : default_config ≡ config
unfolding default_config
default_config-config = refl

config-IsSound : IsSound config
unfolding ◌-ℤ◌
config-IsSound = record { alpha_ge = refl; alpha_le = refl; weight_ge = refl }

abbrev ann : Participant
ann = record { id = "a"; name = "Ann"; role = role_required; loc = none }

abbrev bob : Participant
bob = record { id = "b"; name = "Bob"; role = role_optional; loc = none }

abbrev group : List Participant
group = ann ∷ bob ∷ []

abbrev nine : Time
nine = 9 * hour

abbrev ten : Time
ten = 10 * hour

abbrev night : Time
night = 23 * hour

-- Ann would love nine o'clock and night, and could make ten; Bob has said nothing.
abbrev ann_answers : Time → Option Tier
ann_answers t = some (if nat_key.beq t ten then tier_if_needed else tier_preferred)

abbrev responses : Responses
responses pid = if string_key.beq pid "a" then some ann_answers else none

-- Opens the solver for runs.
solver_open : ℕ
unfolding analyze settled clears bound_all score_all zero_score filled blocking leader_of
    relevant_among possible_winners possible_winners_pinned winners_from bound_all_pinned pinned
    same_set holds insert lookup score_slot score_slot_by settle composite tally opening visit
    answer skip refuse attend lower_floor weight_of unsociable value get location hour_in rank
    rank_with_history sort ranks_before break_tie ◌+ℤ◌ ◌-ℤ◌ missing
solver_open = 0

daytime :
    analyze (nine ∷ ten ∷ []) group responses config
    ≡ record { decidable = true; leader = some nine; blocking_required = []; relevant = [] }
unfolding solver_open
daytime = refl

-- A full set of answers that agrees with what Ann said.
abbrev everyone : Answers
everyone pid at =
    if string_key.beq pid "a"
    then (if nat_key.beq at ten then tier_if_needed else tier_preferred)
    else tier_ok

everyone-Completes : Completes responses everyone
unfolding get
everyone-Completes pid at t e = ground arith

daytime-IsSociable : All (IsSociable config responses group) (nine ∷ ten ∷ [])
unfolding solver_open
daytime-IsSociable = ((λ r e. refl, (λ r e. refl, tt)), ((λ r e. refl, (λ r e. refl, tt)), tt))

score_slot_by-Counted_example :
    let s = score_slot_by nine group config (get responses) in
    (s.eliminated ≡ false)
    × (s.eliminated_by ≡ [])
    × (s.excludes ≡ [])
    × (s.unknown ≡ "Bob" ∷ [])
    × (s.coverage ≡ 1)
    × (s.start ≡ nine)
    × (s.total ≡ 2)
unfolding get
score_slot_by-Counted_example = score_slot_by-Counted nine config (get responses) group

abbrev worse : Answers
worse pid at = if string_key.beq pid "a" then tier_if_needed else tier_no

score_slot_by_mono_example :
    ((score_slot_by nine group config (answered everyone)).eliminated ≡ false)
    × ((score_slot_by nine group config (answered worse)).score
        ≼ (score_slot_by nine group config (answered everyone)).score)
unfolding solver_open
score_slot_by_mono_example =
    score_slot_by_mono fixed-IsRounded config config-IsSound nine group worse everyone
      ((omega arith, λ r e. inr refl), ((omega arith, λ r e. inr refl), tt)) refl

analyze-IsWinner_example :
    (s : Time) × ((analyze (nine ∷ ten ∷ []) group responses config).leader ≡ some s)
    × IsWinner (nine ∷ ten ∷ []) group config everyone s
unfolding solver_open
analyze-IsWinner_example =
    analyze-IsWinner fixed-IsRounded config config-IsSound (nine ∷ ten ∷ []) group responses
      everyone everyone-Completes daytime-IsSociable refl

nine-IsWinner : IsWinner (nine ∷ ten ∷ []) group config everyone nine
unfolding solver_open
nine-IsWinner = record {
  offered = inl refl;
  alive = refl;
  unbeaten =
      λ o m race. elim m [ inl e ↦ rw e refl | inr (inl e) ↦ rw e refl | inr (inr h) ↦ absurd h ];
}

possible_winners_complete_example :
    holds (possible_winners (nine ∷ ten ∷ []) group responses config) nine ≡ true
possible_winners_complete_example =
    possible_winners_complete fixed-IsRounded config config-IsSound (nine ∷ ten ∷ []) group
      responses everyone nine everyone-Completes daytime-IsSociable nine-IsWinner

-- Ann has said nothing at all.
analyze-silent_required_example :
    (analyze (nine ∷ ten ∷ []) group (λ pid. none) config).decidable ≡ false
unfolding get
analyze-silent_required_example =
    analyze-silent_required (nine ∷ ten ∷ []) group (λ pid. none) config ann (inl refl) refl
      (λ s. refl)

rank_with_history-DeadLast_example :
    Perm
      (rank_with_history (ten ∷ nine ∷ []) group responses config none)
      (map (λ s. score_slot s group responses config) (ten ∷ nine ∷ []))
    × Pairwise DeadLast (rank_with_history (ten ∷ nine ∷ []) group responses config none)
rank_with_history-DeadLast_example =
    rank_with_history-DeadLast (ten ∷ nine ∷ []) group responses config none

-- The group's habit is all for ten o'clock.
abbrev habit : HistoryAffinity ℤ
habit = some (λ t. if nat_key.beq t ten then unit else nought)

rank_with_history-leader_example :
    (rest : List (SlotScore ℤ)) × (rank_with_history
        ((ten ∷ []) ++ nine ∷ [])
        group
        responses
        config
        habit
      ≡ score_slot nine group responses config ∷ rest)
unfolding solver_open
rank_with_history-leader_example =
    rank_with_history-leader fixed-IsRounded config refl habit group responses (ten ∷ []) nine []
      ((refl, λ e. refl), tt) tt

-- Cid is optional, and nine o'clock in UTC is seven in the morning for him.
abbrev cid : Participant
cid = record {
  id = "c";
  name = "Cid";
  role = role_optional;
  loc = some (record { offset = λ t. negsuc 7199 });
}

abbrev trio : List Participant
trio = ann ∷ bob ∷ cid ∷ []

-- Ann and Bob have answered; Cid has not.
abbrev two_answers : Responses
two_answers pid =
    if string_key.beq pid "a"
    then some (λ t. some (if nat_key.beq t ten then tier_ok else tier_preferred))
    else (if string_key.beq pid "b" then some (λ t. some tier_preferred) else none)

abbrev cid_answers : Answers
cid_answers pid at =
    if string_key.beq pid "c"
    then (if nat_key.beq at ten then tier_preferred else tier_if_needed)
    else (if string_key.beq pid "a"
        then (if nat_key.beq at ten then tier_ok else tier_preferred)
        else tier_preferred)

-- The event counts as decided for nine o'clock, and yet when Cid can just make nine o'clock and loves
-- ten, ten o'clock scores higher: the early hour for Cid lowers the final score of nine below
-- the bound that is meant to lie under it.
late_upset :
    let d = analyze (nine ∷ ten ∷ []) trio two_answers config in
    (d.decidable ≡ true)
    × (d.leader ≡ some nine)
    × ((final trio config cid_answers nine).score ≡ pos 7275)
    × ((final trio config cid_answers ten).score ≡ pos 8050)
unfolding solver_open
late_upset = (refl, refl, refl, refl)

abbrev scored : Time → ℕ → SlotScore ℤ
scored t n = record {
  start = t;
  eliminated = false;
  eliminated_by = [];
  excludes = [];
  unknown = [];
  coverage = 2;
  total = 2;
  score = pos n;
  penalty = pos 0;
}

-- Habit prefers ten to nine and nine to night, each pair within the window; the sort then leaves
-- ten ahead of night although night scores higher by more than the window.
abbrev chain : HistoryAffinity ℤ
chain =
    some (λ t. if nat_key.beq t ten then pos 3 else (if nat_key.beq t nine then pos 2 else pos 1))

window_overturned :
    map
      (λ s. s.score)
      (sort
        (ranks_before config chain)
        (scored ten 9200 ∷ scored nine 9600 ∷ scored night 10_000 ∷ []))
    ≡ pos 9200 ∷ pos 9600 ∷ pos 10_000 ∷ []
unfolding solver_open
window_overturned = refl

-- Ann, required, has answered for nine o'clock only: she is named as blocking, and the event is
-- decidable all the same.
abbrev half_answers : Responses
half_answers pid =
    if string_key.beq pid "a"
    then some (λ t. if nat_key.beq t nine then some tier_preferred else none)
    else some (λ t. some tier_preferred)

blocked_and_decidable :
    let d = analyze (nine ∷ ten ∷ []) group half_answers config in
    (d.decidable ≡ true) × (d.blocking_required ≡ "Ann" ∷ [])
unfolding solver_open
blocked_and_decidable = (refl, refl)
