-- ===== src/Slots/Tests.antt =====
-- Windows over both changes of a clock, and the theorems on one of them.
use overlap.Common.{
  ℕ, ◌+◌, ◌*◌, ◌≡◌, refl, [], ◌∷◌, Option, none, some, inl, inr, arith, ltb, if◌then◌else◌,
}
use overlap.Common.Int.{pos, ◌+ℤ◌, ◌-ℤ◌}
use overlap.Time.{at_offset, from_local, hour, Location, local_seconds, hour_in, day_in}
use overlap.Time.Calendar.{
  Date, IsDate, days_in, before_month, before_year, ordinal, day_number, tomorrow, date_at, after,
}
use overlap.Slots.{
  TimeOfDay, Window, kind_nonexistent, kind_ambiguous, anomaly, Expansion, err_bad_day_band, Scan,
  minutes, next, validate, time_date, same_date, matches, shift, probe, resolve, emit, place, visit,
  band_loop, day_loop, blank, days_of, begin, expand,
}
use overlap.Slots.Schedule.{IsSchedule, expand-IsSchedule}
use overlap.Slots.Complete.{IsOffered, expand-IsOffered}
use overlap.Slots.Fuel.{DayRun, outcome, expand-Runs}

-- One hour ahead between 02:00 on 2 January and 01:00 UTC on 4 January 1970.
abbrev shifting : Location
shifting = record {
  offset =
      λ t. if ltb t (26 * hour) then pos 0 else (if ltb t (73 * hour) then pos 3600 else pos 0);
}

abbrev january : ℕ → Date
january d = record { year = 1970; month = 1; day = d }

abbrev clock : ℕ → TimeOfDay
clock h = record { hour = h; minute = 0 }

abbrev three_days : Window
three_days = record {
  first = january 2;
  last = january 4;
  day_start = clock 1;
  day_end = clock 4;
  slot_minutes = 60;
  loc = some shifting;
}

slots_open : ℕ
unfolding local_seconds hour_in day_in days_in before_month before_year ordinal day_number tomorrow
    date_at after minutes next validate at_offset from_local time_date same_date matches shift probe
    resolve emit place visit band_loop day_loop blank days_of begin expand ◌+ℤ◌ ◌-ℤ◌
slots_open = 0

abbrev expected : Expansion
expected = record {
  starts =
      25 * hour
      ∷ 26 * hour
      ∷ 48 * hour
      ∷ 49 * hour
      ∷ 50 * hour
      ∷ 72 * hour
      ∷ 74 * hour
      ∷ 75 * hour
      ∷ [];
  skipped = anomaly (january 2) (clock 2) kind_nonexistent none ∷ [];
  ambiguous = anomaly (january 4) (clock 1) kind_ambiguous (some (72 * hour)) ∷ [];
}

expands : expand three_days ≡ inl expected
unfolding slots_open
expands = refl

-- A slot that overhangs the band is not offered.
overhang :
    expand (record three_days { last = january 2; slot_minutes = 100; day_start = clock 3 })
    ≡ inl (record { starts = []; skipped = []; ambiguous = [] })
unfolding slots_open
overhang = refl

bad_band : expand (record three_days { day_end = clock 1 }) ≡ inr err_bad_day_band
unfolding slots_open
bad_band = refl

new_year :
    next (record { year = 1970; month = 12; day = 31 }) ≡ record { year = 1971; month = 1; day = 1 }
unfolding slots_open
new_year = refl

leap_day :
    next (record { year = 1972; month = 2; day = 28 }) ≡ record { year = 1972; month = 2; day = 29 }
unfolding slots_open
leap_day = refl

second_IsDate : IsDate (january 2)
unfolding days_in
second_IsDate = record {
  year_ge = omega arith;
  month_ge = omega arith;
  month_le = omega arith;
  day_ge = omega arith;
  day_le = omega arith;
}

fourth_IsDate : IsDate (january 4)
unfolding days_in
fourth_IsDate = record {
  year_ge = omega arith;
  month_ge = omega arith;
  month_le = omega arith;
  day_ge = omega arith;
  day_le = omega arith;
}

expand-IsSchedule_example : IsSchedule three_days shifting expected
expand-IsSchedule_example =
    expand-IsSchedule three_days shifting expected refl second_IsDate fourth_IsDate expands

three_days_valid : validate three_days ≡ none
unfolding slots_open
three_days_valid = refl

expand-Runs_example :
    (r : Option Scan) × DayRun shifting three_days (january 2) blank r
    × (expand three_days ≡ outcome r)
expand-Runs_example =
    expand-Runs three_days shifting refl three_days_valid second_IsDate fourth_IsDate

-- The two o'clock of the day on which the clock goes back.
expand-IsOffered_example : IsOffered shifting expected.starts (january 4) (60 + 1 * 60)
unfolding day_number ordinal before_year before_month minutes
expand-IsOffered_example =
    expand-IsOffered three_days shifting expected (january 4) 1 refl three_days_valid second_IsDate
      fourth_IsDate expands fourth_IsDate (omega arith) (omega arith) (omega arith)
