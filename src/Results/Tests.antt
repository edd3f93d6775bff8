-- ===== src/Results/Tests.antt =====
-- The theorems on stored rows at a concrete event.
use overlap.Common.{
  arith, ◌*◌, ◌≡◌, refl, ap, String, false, List, [], ◌∷◌, Option, none, some, map, inl, inr,
  if◌then◌else◌,
}
use mathlib.Core.Bool.{false≢true}
use overlap.Common.Int.{ℤ}
use overlap.Common.Fixed.{fixed}
use overlap.Common.Maps.{string_key, lookup}
use overlap.Time.{Time, hour, utc}
use overlap.Solver.{tier_no, tier_ok, get, default_config}
use overlap.Solver.Dominance.{analyze}
use overlap.Store.{Participant, Response, responded, source_coarse}
use overlap.Tz.{ZoneDb, ZoneCache, load, resolve, IsCoherent, load-resolve}
use overlap.Results.{build, to_solver}
use overlap.Results.Silence.{HaveDistinctIds, build-silence}
use overlap.Results.Required.{analyze-build_silent}

abbrev zones : ZoneDb
zones name = if string_key.beq "Europe/Oslo" name then some utc else none

abbrev row : String → String → Option Time → Participant
row id role at = record {
  id = id;
  display_name = id;
  tz = "Europe/Oslo";
  role = role;
  is_organizer = false;
  calendar_source = "none";
  responded_at = at;
  created_at = 0;
}

abbrev people : List Participant
people = row "kim" "optional" (some 5) ∷ row "lea" "required" none ∷ []

abbrev stored : String → List Response
stored pid = record { slot_start = 9 * hour; tier = tier_ok; source = source_coarse } ∷ []

abbrev starts : List Time
starts = 9 * hour ∷ 10 * hour ∷ []

people-distinct : HaveDistinctIds people
people-distinct = ((λ e. false≢true (ap (string_key.beq "kim") e), tt), (tt, tt))

-- Kim's ten o'clock, which no stored row mentions, reads as "no".
build-silence_example :
    let input = build zones people stored starts in
    (input.participants ≡ map (to_solver zones) people)
    × (input.slots ≡ starts)
    × (get input.responses "kim" (10 * hour) ≡ some tier_no)
unfolding responded
build-silence_example =
    build-silence zones stored starts people (row "kim" "optional" (some 5)) (10 * hour)
      people-distinct (inl refl) (omega arith, (omega arith, tt)) (omega arith, tt)

analyze-build_silent_example :
    let input = build zones people stored starts in
    (analyze input.slots input.participants input.responses (default_config {F = ℤ})).decidable
    ≡ false
unfolding responded
analyze-build_silent_example =
    analyze-build_silent zones stored starts people default_config (row "lea" "required" none)
      people-distinct (inr (inl refl)) refl refl

-- A memo that has been filled, and a name that it holds.
abbrev memo : ZoneCache
memo = ("Europe/Oslo", utc) ∷ []

memo-IsCoherent : IsCoherent zones memo
unfolding lookup
memo-IsCoherent name loc e = e

load-resolve_example :
    ((load zones memo "Europe/Oslo").0 ≡ resolve zones "Europe/Oslo")
    × IsCoherent zones (load zones memo "Europe/Oslo").1
load-resolve_example = load-resolve zones memo "Europe/Oslo" memo-IsCoherent

-- Nobody is given the server's zone, whatever the database has.
no_local : (load (λ name. some utc) (("Local", utc) ∷ []) "Local").0 ≡ none
unfolding load
no_local = refl
