-- ===== src/Icsparse/Tests.antt =====
-- Runs of api/internal/icsparse, and instances of its theorems.
use overlap.Common.Maps.{nat_key}
use overlap.Common.{ℕ, ◌*◌, ◌+◌, ◌-◌, ◌≡◌, refl, [], ◌∷◌, none, some}
use overlap.Common.Int.{negsuc, ◌+ℤ◌, ◌-ℤ◌}
use overlap.Common.Sort.{sort}
use overlap.Common.Text.{
  Runes, codes, width, octets, replace_one, replace_two, split, cut, is_space, trim_left, trim,
  to_upper_rune, to_upper, fold_rune, equal_fold,
}
use overlap.Time.{second, hour, day, utc, day_in, weekday_in, local_seconds, at_offset, from_local}
use overlap.Time.Calendar.{
  date_at, tomorrow, days_in, day_number, ordinal, before_year, before_month,
}
use overlap.Icsparse.{
  Interval, overlaps, valid, merge, coalesce_all, coalesce, widen, starts_before,
}
use overlap.Icsparse.Lines.{
  lines_of, append_last, take_line, unfold_loop, unfold_lines, add_param, add_params, property_of,
  parse_property, take_property, vevents_loop, vevents, first, all_named,
}
use overlap.Icsparse.Moments.{
  atoi_digits, take_number, field, read_date, take_digits, take_nine, nanoseconds, read_fraction,
  read_clock, parse_date_only, parse_date_time, zone_of, parse_time, duration_unit, read_rune,
  read_runes, parse_unsigned, parse_duration,
}
use overlap.Icsparse.Recur.{
  Rule, atoi_positive, parse_weekday, add_weekdays, set_part, set_parts, parse_rule, add_date,
  advance_by, advance, period_duration, jump, fast_forward, emit, on_weekday, emit_week,
  emit_period, expand_loop, shown_if, expand,
}
use overlap.Icsparse.Feed.{
  until_end, stated, duration, exclude_values, exclude_all, exdates, says, occurrences,
  busy_intervals, intervals, all_intervals, parse,
}

feed_open : ℕ
unfolding ◌+ℤ◌ ◌-ℤ◌ width octets replace_one replace_two split cut is_space trim_left trim
    to_upper_rune to_upper fold_rune equal_fold day_in weekday_in local_seconds at_offset from_local
    date_at tomorrow days_in day_number ordinal before_year before_month overlaps valid merge
    coalesce_all coalesce widen starts_before lines_of append_last take_line unfold_loop
    unfold_lines add_param add_params property_of parse_property take_property vevents_loop vevents
    first all_named atoi_digits take_number field read_date take_digits take_nine nanoseconds
    read_fraction read_clock parse_date_only parse_date_time zone_of parse_time duration_unit
    read_rune read_runes parse_unsigned parse_duration atoi_positive parse_weekday add_weekdays
    set_part set_parts parse_rule add_date advance_by advance period_duration jump fast_forward emit
    on_weekday emit_week emit_period expand_loop shown_if expand until_end stated duration
    exclude_values exclude_all exdates says occurrences busy_intervals intervals all_intervals parse
    sort
feed_open = 0

negative : parse_duration (codes "-PT1H30M") ≡ some (negsuc (90 * 60 * second - 1))
unfolding feed_open
negative = refl

no_months : parse_duration (codes "P1M") ≡ none
unfolding feed_open
no_months = refl

second_thursday : parse_weekday (codes " 2th") ≡ some 4
unfolding feed_open
second_thursday = refl

abbrev standup : Rule
standup = record { freq = codes "DAILY"; interval = 1; count = 4; until = none; by_day = [] }

abbrev first_standup : Interval
first_standup = record { start = 9 * hour; end = 10 * hour }

-- The second occurrence is excluded, and counts.
daily :
    expand utc first_standup standup (λ t. nat_key.beq t (day + 9 * hour)) 0 (30 * day)
    ≡ record { start = 9 * hour; end = 10 * hour }
      ∷ record { start = 2 * day + 9 * hour; end = 2 * day + 10 * hour }
      ∷ record { start = 3 * day + 9 * hour; end = 3 * day + 10 * hour }
      ∷ []
unfolding feed_open
daily = refl

abbrev feed : Runes
feed =
    codes
      "BEGIN:VCALENDAR\r\nBEGIN:VEVENT\r\nDTSTART;VALUE=DATE:19700105\r\nEND:VEVENT\r\nBEGIN:VEVENT\r\nDTSTART:19700103T1200\r\n 00Z\r\nDURATION:PT2H\r\nEND:VEVENT\r\nBEGIN:VEVENT\r\nDTSTART:19700104T120000Z\r\nDTEND:19700104T130000Z\r\nSTATUS:CANCELLED\r\nEND:VEVENT\r\n"

feed_busy :
    parse (λ name. none) feed 0 (30 * day)
    ≡ record { start = 2 * day + 12 * hour; end = 2 * day + 14 * hour }
      ∷ record { start = 4 * day; end = 5 * day }
      ∷ []
unfolding feed_open
feed_busy = refl
