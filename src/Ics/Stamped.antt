-- ===== src/Ics/Stamped.antt =====
-- `stamp` of api/internal/ics/ics.go, read by `parseTime` of api/internal/icsparse/icsparse.go.
use overlap.Common.{
  ℕ, ◌+◌, ◌-◌, ◌*◌, ◌/◌, ◌%◌, ◌≤◌, ◌<◌, ◌≡◌, refl, true, false, [], ◌∷◌, ◌++◌, some, arith, ◌==◌,
  length, le→leb,
}
use overlap.Common.Int.{◌-ℤ◌, ◌+ℤ◌}
use overlap.Common.Text.{Runes, width, octets, is_space, trim_left, trim, is_digit, equal_fold}
use overlap.Time.{Time, second, utc, local_seconds, day_in, at_offset, from_local}
use overlap.Time.Calendar.{
  Date, IsDate, days_in, date_at, date_at-IsDate, day_number, day_number-date_at,
}
use overlap.Icsparse.Lines.{Property}
use overlap.Icsparse.Moments.{
  Zones, take_number, two, four, field, read_date, read_clock, read_fraction, parse_date_time,
  zone_of, parse_time,
}
use overlap.Ics.{digit, two_digits, four_digits, stamp_of, stamp}

is_digit-digit : (n : ℕ) → is_digit (digit n) ≡ true
is_digit-digit n = ground arith

is_space-digit : (n : ℕ) → is_space (digit n) ≡ false
unfolding is_space
is_space-digit n = ground arith

length_le-octets : (s : Runes) → length s ≤ octets s
unfolding octets width
length_le-octets [] = omega arith
length_le-octets (c ∷ s) = ground (arith, length_le-octets s)

four_value :
    (y : ℕ)
    → y ≤ 9999
    → 10
          * (10 * (10 * (10 * 0 + (digit (y / 1000) - b'0')) + (digit (y / 100) - b'0'))
              + (digit (y / 10) - b'0'))
        + (digit y - b'0')
      ≡ y
four_value y h = omega arith

two_value : (n : ℕ) → n ≤ 99 → 10 * (10 * 0 + (digit (n / 10) - b'0')) + (digit n - b'0') ≡ n
two_value n h = omega arith

take_four :
    (y : ℕ) (rest : Runes) → y ≤ 9999 → take_number four 0 (four_digits y ++ rest) ≡ some (y, rest)
unfolding take_number
take_four y rest h =
    rw
      (
        is_digit-digit (y / 1000),
        is_digit-digit (y / 100),
        is_digit-digit (y / 10),
        is_digit-digit y,
        four_value y h,
      )
      refl

take_two :
    (n : ℕ) (rest : Runes) → n ≤ 99 → take_number two 0 (two_digits n ++ rest) ≡ some (n, rest)
unfolding take_number
take_two n rest h = rw (is_digit-digit (n / 10), is_digit-digit n, two_value n h) refl

field_two :
    (lo hi n : ℕ) (rest : Runes)
    → lo ≤ n
    → n ≤ hi
    → hi ≤ 99
    → field lo hi (two_digits n ++ rest) ≡ some (n, rest)
unfolding field
field_two lo hi n rest h k m =
    rw (field, take_two n rest (omega (arith, k, m)), le→leb lo n h, le→leb n hi k) refl

days_in_le : (y m : ℕ) → days_in y m ≤ 99
unfolding days_in
days_in_le y m = ground arith

read_date_stamp :
    (d : Date) (rest : Runes)
    → IsDate d
    → d.year ≤ 9999
    → read_date (four_digits d.year ++ (two_digits d.month ++ (two_digits d.day ++ rest)))
      ≡ some (d, rest)
unfolding read_date
read_date_stamp d rest h y =
    rw
      (
        read_date,
        take_four d.year (two_digits d.month ++ (two_digits d.day ++ rest)) y,
        field_two 1 12 d.month (two_digits d.day ++ rest) h.month_ge h.month_le (omega arith),
        field_two 1 (days_in d.year d.month) d.day rest h.day_ge h.day_le
            (days_in_le d.year d.month),
        le→leb 1970 d.year h.year_ge,
      )
      refl

read_clock_stamp :
    (s : ℕ)
    → s < 86_400
    → read_clock (
        b'T'
        ∷ (two_digits (s / 3600)
            ++ (two_digits (s % 3600 / 60) ++ (two_digits (s % 60) ++ b'Z' ∷ []))))
      ≡ some (s / 3600 * 3600 + s % 3600 / 60 * 60 + s % 60, 0, b'Z' ∷ [])
unfolding read_clock read_fraction
read_clock_stamp s h =
    rw
      (
        read_clock,
        field_two 0 23 (s / 3600) (two_digits (s % 3600 / 60) ++ (two_digits (s % 60) ++ b'Z' ∷ []))
            (omega arith) (omega (arith, h)) (omega arith),
        field_two 0 59 (s % 3600 / 60) (two_digits (s % 60) ++ b'Z' ∷ []) (omega arith)
            (omega arith) (omega arith),
        field_two 0 59 (s % 60) (b'Z' ∷ []) (omega arith) (omega arith) (omega arith),
      )
      refl

from_local-utc : (local : ℕ) → from_local utc local ≡ local * second
unfolding from_local at_offset ◌-ℤ◌
from_local-utc local = ground arith

local_seconds-utc : (t : Time) → local_seconds utc t ≡ t / second
unfolding local_seconds ◌+ℤ◌
local_seconds-utc t = ground arith

-- A property with no parameters.
abbrev pub plain : Runes → Runes → Property
plain name value = record { name = name; params = λ k. []; value = value }

trim-stamp_of : (d : Date) (s : ℕ) → trim is_space (stamp_of d s) ≡ stamp_of d s
unfolding trim trim_left stamp_of is_space
trim-stamp_of d s = rw (trim, trim_left, is_space-digit (d.year / 1000)) refl

stamp_of-long : (d : Date) (s : ℕ) → (octets (stamp_of d s) == 8) ≡ false
unfolding stamp_of
stamp_of-long d s =
    let long : 16 ≤ octets (stamp_of d s) = omega (arith, length_le-octets (stamp_of d s)) in
    ground (arith, long)

clock_sum : (s : ℕ) → s / 3600 * 3600 + s % 3600 / 60 * 60 + s % 60 ≡ s
clock_sum s = omega arith

parse_date_time-stamp_of :
    (d : Date) (s : ℕ)
    → IsDate d
    → d.year ≤ 9999
    → s < 86_400
    → parse_date_time utc (b'Z' ∷ []) (stamp_of d s)
      ≡ some ((day_number d * 86_400 + s) * second + 0)
unfolding parse_date_time stamp_of
parse_date_time-stamp_of d s h y k =
    rw
      (
        parse_date_time,
        read_date_stamp d
            (b'T'
              ∷ (two_digits (s / 3600)
                  ++ (two_digits (s % 3600 / 60) ++ (two_digits (s % 60) ++ b'Z' ∷ []))))
            h y,
        read_clock_stamp s k,
        clock_sum s,
        from_local-utc (day_number d * 86_400 + s),
      )
      refl

whole :
    (t : Time)
    → (t / second / 86_400 * 86_400 + t / second % 86_400) * second + 0 ≡ t / second * second
whole t = omega arith

-- A UTC timestamp read back is the instant, without what is below a second.
pub parse_time-stamp :
    (zones : Zones) (name : Runes) (t : Time)
    → (date_at (day_in utc t)).year ≤ 9999
    → parse_time zones (plain name (stamp t))
      ≡ some (record { at = t / second * second; loc = utc; all_day = false })
unfolding parse_time stamp day_in zone_of equal_fold
parse_time-stamp zones name t y =
    let n = local_seconds utc t / 86_400 in
    let s = local_seconds utc t % 86_400 in
    let date : IsDate (date_at n) = date_at-IsDate n in
    rw
      (
        parse_time,
        trim-stamp_of (date_at n) s,
        stamp_of-long (date_at n) s,
        parse_date_time-stamp_of (date_at n) s date y (omega arith),
        day_number-date_at n,
        local_seconds-utc t,
        whole t,
      )
      refl
