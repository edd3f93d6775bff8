-- ===== src/Server/Events.antt =====
-- api/internal/server/events.go: `toNewEvent`, from the body of a request to an event for the store.
pub mod Bounds
use overlap.Common.{
  ℕ, ◌+◌, ◌*◌, ◌≡◌, ◌≤◌, refl, String, Bool, true, false, not, ◌&&◌, [], ◌∷◌, Option, none, some,
  length, leb, ◌==◌, if◌then◌else◌, arith, Bool-cases, Option-cases, inl, inr,
}
use overlap.Common.Int.{ℤ, pos, negsuc}
use overlap.Common.Text.{Runes, trim_space, cut}
use overlap.Time.Calendar.{Date, days_in}
use overlap.Icsparse.Moments.{take_number, four, two, field}
use overlap.Slots.{TimeOfDay}
use overlap.Tz.{ZoneDb}
use overlap.Server.{
  Failure, title_missing, title_long, bad_zone, bad_slot_minutes, name_long, bad_date, bad_hour,
  bad_minute, after_midnight, bad_time, Result, ok, err, ◌>>=◌, ◌>>◌, guard, or_err, >>=-ok,
  guard-ok, or_err-ok, max_title_runes, max_name_runes, is_zone, natural, parse_date, time_of,
  parse_time_of_day_or, atoi, after_rune, whole_date, day_of, month_of, year_of,
}

pub record CreateEventRequest : Type 0 where
  pub title : Runes
  pub timezone : String
  pub window_start : Runes
  pub window_end : Runes
  pub day_start : Runes
  pub day_end : Runes
  pub slot_minutes : ℤ
  pub organizer_name : Runes

-- `store.NewParticipant`
pub record NewParticipant : Type 0 where
  pub display_name : Runes
  pub tz : String
  pub role : String
  pub is_organizer : Bool

-- `store.NewEvent`; an empty `group_id` is no group.
pub record NewEvent : Type 0 where
  pub title : Runes
  pub organizer_tz : String
  pub window_start : Date
  pub window_end : Date
  pub day_start : TimeOfDay
  pub day_end : TimeOfDay
  pub slot_minutes : ℕ
  pub organizer : Option NewParticipant
  pub group_id : String

-- The fields that stand by themselves, in the order in which they are read.
unfoldable pub title_of : Runes → Result Runes
title_of s =
    let title = trim_space s in
    guard (not (length title == 0)) title_missing
    >> (guard (leb (length title) max_title_runes) title_long >> ok title)

unfoldable pub slot_minutes_of : ℤ → Result ℕ
slot_minutes_of m = natural bad_slot_minutes m >>= λ n.
    let minutes = if n == 0 then 30 else n in
    guard (leb 5 minutes && leb minutes 480) bad_slot_minutes >> ok minutes

unfoldable pub organizer_of : String → Runes → Result (Option NewParticipant)
organizer_of tz s =
    let name = trim_space s in
    if length name == 0
    then ok none
    else guard (leb (length name) max_name_runes) name_long
      >> ok (some (record { display_name = name; tz = tz; role = ""; is_organizer = false }))

abbrev pub nine : TimeOfDay
nine = record { hour = 9; minute = 0 }

abbrev pub seventeen : TimeOfDay
seventeen = record { hour = 17; minute = 0 }

-- `toNewEvent`
unfoldable pub to_new_event : ZoneDb → CreateEventRequest → Result NewEvent
to_new_event db req = title_of req.title >>= λ title.
    guard (is_zone db req.timezone) bad_zone
    >> (parse_date req.window_start >>= λ start. parse_date req.window_end >>= λ end.
        parse_time_of_day_or req.day_start nine >>= λ day_start.
        parse_time_of_day_or req.day_end seventeen >>= λ day_end.
        slot_minutes_of req.slot_minutes >>= λ minutes.
        organizer_of req.timezone req.organizer_name >>= λ organizer. ok (record {
          title = title;
          organizer_tz = req.timezone;
          window_start = start;
          window_end = end;
          day_start = day_start;
          day_end = day_end;
          slot_minutes = minutes;
          organizer = organizer;
          group_id = "";
        }))
