-- ===== src/Server/Tests.antt =====
-- Runs of the readings of request bodies in api/internal/server, and the theorems there.
use mathlib.Core.List.{Mem}
use overlap.Common.{
  arith, ℕ, ◌+◌, ◌*◌, ◌^◌, ◌≡◌, ◌↔◌, refl, String, false, List, [], ◌∷◌, none, some, if◌then◌else◌,
}
use overlap.Common.Int.{pos, ◌+ℤ◌}
use overlap.Common.Maps.{string_key}
use overlap.Common.Sort.{sort}
use overlap.Common.Text.{codes, cut, is_space, trim_left, trim}
use overlap.Time.{Time, hour, utc, local_seconds, hour_in, day_in}
use overlap.Time.Nanos.{unix_nano}
use overlap.Time.Calendar.{days_in, tomorrow, date_at}
use overlap.Icsparse.Moments.{take_number, field}
use overlap.Solver.{tier_no, tier_ok}
use overlap.Store.{Response}
use overlap.Dayparts.{
  is_block, parse_block, block_for_hour, cell_of, file, group, by_cell, assign, expand,
}
use overlap.Tz.{ZoneDb, resolve}
use overlap.Server.{
  ok, err, bad_date, bad_hour, after_midnight, no_such_slot, unknown_tier, bad_role, atoi,
  parse_date, time_of, parse_time_of_day_or, tier_string, parse_tier,
}
use overlap.Server.Events.{
  CreateEventRequest, NewEvent, title_of, slot_minutes_of, organizer_of, to_new_event,
}
use overlap.Server.Events.Bounds.{IsBounded, to_new_event-IsBounded}
use overlap.Server.Answers.{
  role_of, to_new_participant, PutResponsesRequest, seen_in, coarse_of, coarse_all, valid_slots,
  overlay, entries, build_responses, silent_calendar, merge_calendar_rows,
}
use overlap.Server.Answers.Said.{said, AreSlots}
use overlap.Server.Answers.Rows.{States, InOrder, build_responses-States}
use overlap.Server.Answers.Merge.{speaks_of, Survives, merge_calendar_rows-Survives}

server_open : ℕ
unfolding ◌+ℤ◌ seen_in sort cut is_space trim_left trim local_seconds hour_in day_in days_in
    tomorrow date_at take_number field is_block parse_block block_for_hour cell_of file group
    by_cell assign expand resolve atoi parse_date time_of parse_time_of_day_or tier_string
    parse_tier title_of slot_minutes_of organizer_of to_new_event role_of to_new_participant
    unix_nano coarse_of coarse_all valid_slots overlay entries build_responses silent_calendar
    merge_calendar_rows
server_open = 0

tiers : parse_tier (tier_string tier_no) ≡ ok tier_no
unfolding server_open
tiers = refl

junk : parse_tier "maybe" ≡ err unknown_tier
unfolding server_open
junk = refl

-- A database of one zone.
abbrev zones : ZoneDb
zones name = if string_key.beq name "Etc/UTC" then some utc else none

midnight :
    parse_time_of_day_or (codes "24:00") (record { hour = 9; minute = 0 })
    ≡ ok (record { hour = 24; minute = 0 })
unfolding server_open
midnight = refl

later : parse_time_of_day_or (codes "24:01") (record { hour = 9; minute = 0 }) ≡ err after_midnight
unfolding server_open
later = refl

early : parse_time_of_day_or (codes "-1:00") (record { hour = 9; minute = 0 }) ≡ err bad_hour
unfolding server_open
early = refl

no_such_day : parse_date (codes "2026-02-30") ≡ err bad_date
unfolding server_open
no_such_day = refl

host :
    to_new_participant zones "Etc/UTC" (record { name = codes "Ada"; timezone = ""; role = "host" })
    ≡ err bad_role
unfolding server_open
host = refl

abbrev wanted : CreateEventRequest
wanted = record {
  title = codes " Retro ";
  timezone = "Etc/UTC";
  window_start = codes "2026-03-10";
  window_end = codes "2026-03-12";
  day_start = [];
  day_end = codes "24:00";
  slot_minutes = pos 0;
  organizer_name = codes "Ada";
}

abbrev made : NewEvent
made = record {
  title = codes "Retro";
  organizer_tz = "Etc/UTC";
  window_start = record { year = 2026; month = 3; day = 10 };
  window_end = record { year = 2026; month = 3; day = 12 };
  day_start = record { hour = 9; minute = 0 };
  day_end = record { hour = 24; minute = 0 };
  slot_minutes = 30;
  organizer =
      some (record { display_name = codes "Ada"; tz = "Etc/UTC"; role = ""; is_organizer = false });
  group_id = "";
}

taken : to_new_event zones wanted ≡ ok made
unfolding server_open
taken = refl

to_new_event-IsBounded_example : IsBounded zones made
to_new_event-IsBounded_example = to_new_event-IsBounded zones wanted made taken

abbrev slots : List Time
slots = 34 * hour ∷ 35 * hour ∷ 41 * hour ∷ []

abbrev answers : PutResponsesRequest
answers = record {
  coarse = record { date = codes "1970-01-02"; block = "morning"; tier = "ok" } ∷ [];
  slots = record { slot_start = pos (35 * hour); tier = "no" } ∷ [];
  timezone = "";
}

abbrev row : Time → String → Response
row t source = record { slot_start = t; tier = tier_ok; source = source }

abbrev refused : Response
refused = record { slot_start = 35 * hour; tier = tier_no; source = "manual" }

stored : build_responses slots utc answers ≡ ok (row (34 * hour) "coarse" ∷ refused ∷ [])
unfolding server_open
stored = refl

off_grid :
    build_responses slots utc
      (record answers { slots = record { slot_start = pos (36 * hour); tier = "no" } ∷ [] })
    ≡ err no_such_slot
unfolding server_open
off_grid = refl

-- An instant 2 ^ 64 nanoseconds after a slot passes for it.
centuries_off :
    build_responses slots utc (record answers {
      slots = record { slot_start = pos (35 * hour + 2 ^ 64); tier = "no" } ∷ [];
    })
    ≡ ok (row (34 * hour) "coarse" ∷ refused ∷ [])
unfolding server_open
centuries_off = refl

build_responses-States_example :
    ((r : Response)
      → Mem r (row (34 * hour) "coarse" ∷ refused ∷ []) ↔ States (said slots utc answers) r)
    × InOrder (row (34 * hour) "coarse" ∷ refused ∷ [])
    × AreSlots slots answers.slots
build_responses-States_example =
    build_responses-States slots utc answers (row (34 * hour) "coarse" ∷ refused ∷ [])
      (omega arith, (omega arith, (omega arith, tt))) (omega arith, tt) stored

abbrev prior : List Response
prior = row (34 * hour) "calendar" ∷ row (35 * hour) "manual" ∷ row (41 * hour) "calendar" ∷ []

kept :
    merge_calendar_rows (row (34 * hour) "manual" ∷ []) prior
    ≡ row (34 * hour) "manual" ∷ row (41 * hour) "calendar" ∷ []
unfolding server_open
kept = refl

merge_calendar_rows-Survives_example :
    Mem (row (41 * hour) "calendar") (merge_calendar_rows (row (34 * hour) "manual" ∷ []) prior)
    ↔ Survives
        (row (34 * hour) "manual" ∷ [])
        prior
        (row (41 * hour) "calendar")
        (speaks_of (row (34 * hour) "manual" ∷ []) (row (41 * hour) "calendar"))
merge_calendar_rows-Survives_example =
    merge_calendar_rows-Survives (row (34 * hour) "manual" ∷ []) prior (row (41 * hour) "calendar")
      (omega arith, tt) (omega arith)
