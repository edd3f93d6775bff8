-- ===== src/Solve/Tests.antt =====
-- The verdict of a poll of two, one of them silent, and what its organizer may decide.
use overlap.Common.{
  ◌*◌, ◌≡◌, refl, String, Bool, true, false, List, [], ◌∷◌, Option, none, some, inl, inr,
  if◌then◌else◌,
}
use overlap.Common.Int.{ℤ, pos}
use overlap.Common.Fixed.{fixed}
use overlap.Common.Maps.{string_key}
use overlap.Time.{Time, hour, utc}
use overlap.Solver.{tier_ok, SlotScore}
use overlap.Store.{Participant, Response, source_coarse}
use overlap.Tz.{ZoneDb}
use overlap.Slots.{Window, Expansion}
use overlap.Slots
use overlap.Solve.{may_lock, chosen, err_not_a_slot, err_ruled_out, decide}
use overlap.Solve.Decide.{Explains, decide-Explains}

abbrev zones : ZoneDb
zones name = if string_key.beq name "Europe/Oslo" then some utc else none

abbrev row : String → String → Option Time → Participant
row id role at = record {
  id = id;
  display_name = id;
  tz = "Europe/Oslo";
  role = role;
  is_organizer = false;
  calendar_source = "none";
  responded_at = at;
  created_at = 0;
}

abbrev people : List Participant
people = row "kim" "optional" (some 5) ∷ row "lea" "required" none ∷ []

abbrev stored : String → List Response
stored pid = record { slot_start = 33 * hour; tier = tier_ok; source = source_coarse } ∷ []

abbrev window : Window
window = record {
  first = record { year = 1970; month = 1; day = 2 };
  last = record { year = 1970; month = 1; day = 2 };
  day_start = record { hour = 9; minute = 0 };
  day_end = record { hour = 11; minute = 0 };
  slot_minutes = 60;
  loc = some utc;
}

abbrev expanded : Expansion
expanded = record { starts = 33 * hour ∷ 34 * hour ∷ []; skipped = []; ambiguous = [] }

abbrev scored : Time → Bool → SlotScore ℤ
scored t dead = record {
  start = t;
  eliminated = dead;
  eliminated_by = [];
  excludes = [];
  unknown = [];
  coverage = 1;
  total = 2;
  score = pos 7000;
  penalty = pos 0;
}

abbrev ranking : List (SlotScore ℤ)
ranking = scored (34 * hour) false ∷ scored (33 * hour) true ∷ []

ruled_out : decide true ranking (33 * hour) false ≡ inr err_ruled_out
unfolding decide chosen may_lock
ruled_out = refl

forced : decide true ranking (33 * hour) true ≡ inl (scored (33 * hour) true)
unfolding decide chosen may_lock
forced = refl

no_slot : decide true ranking (35 * hour) true ≡ inr err_not_a_slot
unfolding decide chosen may_lock
no_slot = refl

decide-Explains_example :
    Explains true ranking (33 * hour) false (decide true ranking (33 * hour) false)
decide-Explains_example = decide-Explains true ranking (33 * hour) false
