-- ===== src/Time.antt =====
-- What the code uses of Go's `time`: instants, durations, and a location's wall clock.
-- An instant is a count of nanoseconds from the Unix epoch on, as `UnixNano` reports it; what lies
-- before 1970 is not represented. A duration that cannot be negative is a count of nanoseconds.
pub mod Calendar
pub mod Nanos
use overlap.Common.{ℕ, ◌+◌, ◌*◌, ◌/◌, ◌%◌}
use overlap.Common.Int.{ℤ, pos, ◌+ℤ◌, ◌-ℤ◌, pos_part}

abbrev pub Time : Type 0
Time = ℕ

abbrev pub second : ℕ
second = 1_000_000_000

abbrev pub minute : ℕ
minute = 60 * second

abbrev pub hour : ℕ
hour = 60 * minute

abbrev pub day : ℕ
day = 24 * hour

-- A `*time.Location`: the offset east of UTC, in seconds, at each instant. The zone database is
-- data outside the repository, so the function is a parameter wherever a location is one.
pub record Location : Type 0 where
  pub offset : Time → ℤ

abbrev pub utc : Location
utc = record { offset = λ t. pos 0 }

-- The seconds that the local wall clock has counted since the epoch, `t.In(loc)`.
unfoldable pub local_seconds : Location → Time → ℕ
unfolding ◌+ℤ◌
local_seconds loc t = pos_part (pos (t / second) +ℤ loc.offset t)

-- `t.In(loc).Hour()`
unfoldable pub hour_in : Location → Time → ℕ
unfolding local_seconds
hour_in loc t = local_seconds loc t % 86_400 / 3600

-- The days since 1970-01-01 of the local date.
unfoldable pub day_in : Location → Time → ℕ
unfolding local_seconds
day_in loc t = local_seconds loc t / 86_400

-- `t.In(loc).Weekday()`; 1970-01-01 was a Thursday, and Sunday is 0.
unfoldable pub weekday_in : Location → Time → ℕ
unfolding day_in
weekday_in loc t = (day_in loc t + 4) % 7

-- The instant at which a clock with the offset `off` shows `local` seconds.
unfoldable pub at_offset : ℕ → ℤ → Time
at_offset local off = pos_part (pos local -ℤ off) * second

-- `time.Date(…, loc)` of the date and clock that `local` seconds since the epoch show: the offset is
-- looked up at the instant that the offset at `local`, read as UTC, gives.
unfoldable pub from_local : Location → ℕ → Time
unfolding at_offset
from_local loc local = at_offset local (loc.offset (at_offset local (loc.offset (local * second))))
