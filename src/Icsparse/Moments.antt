-- ===== src/Icsparse/Moments.antt =====
-- api/internal/icsparse/icsparse.go: dates, times and durations.
use overlap.Common.{
  ℕ, ◌+◌, ◌-◌, ◌*◌, ◌%◌, ◌^◌, ◌++◌, Bool, true, false, ◌&&◌, ◌||◌, List, [], ◌∷◌, Option, none,
  some, length, all, foldl, ltb, leb, ◌==◌, if◌then◌else◌,
}
use overlap.Common.Int.{ℤ, pos, sub_ℕ}
use overlap.Common.Text.{
  Runes, codes, octets, same_text, trim_space, trim_left, to_upper, equal_fold, is_digit,
}
use overlap.Time.{Time, Location, utc, second, minute, hour, day, from_local}
use overlap.Time.Calendar.{Date, days_in, day_number}
use overlap.Icsparse.Lines.{Property}

-- The number that a 64-bit pattern stands for.
abbrev pub signed64 : ℕ → ℤ
signed64 n = let w = n % 2 ^ 64 in if ltb w (2 ^ 63) then pos w else sub_ℕ w (2 ^ 64)

abbrev pub number : Runes → ℕ
number = foldl (λ n c. 10 * n + (c - b'0')) 0

-- `strconv.Atoi` of text with no sign; `none` is its error.
unfoldable pub atoi_digits : Runes → Option ℕ
atoi_digits [] = none
atoi_digits (c ∷ cs) =
    let n = number (c ∷ cs) in if all is_digit (c ∷ cs) && ltb n (2 ^ 63) then some n else none

-- `k` digits in front, as Go's `time` reads a padded field.
unfoldable pub take_number : List ℕ → ℕ → Runes → Option (ℕ × Runes)
take_number [] n s = some (n, s)
take_number (u ∷ us) n [] = none
take_number (u ∷ us) n (c ∷ cs) =
    let rest = take_number us (10 * n + (c - b'0')) cs in if is_digit c then rest else none

abbrev pub two : List ℕ
two = 0 ∷ 0 ∷ []

abbrev pub four : List ℕ
four = 0 ∷ 0 ∷ 0 ∷ 0 ∷ []

-- A field of two digits from `lo` to `hi`.
unfoldable pub field : ℕ → ℕ → Runes → Option (ℕ × Runes)
field lo hi s = elim (take_number two 0 s) [
  | none ↦ none
  | some (n, rest) ↦ if leb lo n && leb n hi then some (n, rest) else none
]

-- The layout `20060102`. Instants start in 1970, so an earlier year has no reading here.
unfoldable pub read_date : Runes → Option (Date × Runes)
read_date s = elim (take_number four 0 s) [
  | none ↦ none
  | some (y, s1) ↦ elim (field 1 12 s1) [
    | none ↦ none
    | some (m, s2) ↦ elim (field 1 (days_in y m) s2) [
      | none ↦ none
      | some (d, s3) ↦
          if leb 1970 y then some (record { year = y; month = m; day = d }, s3) else none
    ]
  ]
]

abbrev pub drop_digits : Runes → Runes
drop_digits = trim_left is_digit

unfoldable pub take_digits : Runes → Runes
take_digits [] = []
take_digits (c ∷ cs) = let rest = take_digits cs in if is_digit c then c ∷ rest else []

unfoldable pub take_nine : List ℕ → Runes → Runes
take_nine [] s = []
take_nine (u ∷ us) [] = []
take_nine (u ∷ us) (c ∷ cs) = c ∷ take_nine us cs

-- Nanoseconds of the digits after a point, of which nine count.
unfoldable pub nanoseconds : Runes → ℕ
unfolding take_nine
nanoseconds ds =
    let kept = take_nine (0 ∷ 0 ∷ 0 ∷ 0 ∷ 0 ∷ 0 ∷ 0 ∷ 0 ∷ 0 ∷ []) ds in
    number kept * 10 ^ (9 - length kept)

-- After the seconds Go reads a fraction, although the layout has none.
unfoldable pub read_fraction : Runes → ℕ × Runes
unfolding take_digits
read_fraction [] = (0, [])
read_fraction (p ∷ []) = (0, p ∷ [])
read_fraction (p ∷ c ∷ cs) =
    if (p == b'.' || p == b',') && is_digit c
    then (nanoseconds (take_digits (c ∷ cs)), drop_digits (c ∷ cs))
    else (0, p ∷ c ∷ cs)

-- The layout `T150405`: seconds of the day, nanoseconds and what is left.
unfoldable pub read_clock : Runes → Option (ℕ × ℕ × Runes)
read_clock [] = none
read_clock (c ∷ s) = elim (field 0 23 s) [
  | none ↦ none
  | some (h, s1) ↦ elim (field 0 59 s1) [
    | none ↦ none
    | some (m, s2) ↦ elim (field 0 59 s2) [
      | none ↦ none
      | some (sec, s3) ↦
          let f = read_fraction s3 in
          if c == b'T' then some (h * 3600 + m * 60 + sec, f.0, f.1) else none
    ]
  ]
]

-- `time.ParseInLocation` for the three layouts, which differ in what follows the date: nothing, or a
-- clock and then `tail`.
unfoldable pub parse_date_only : Location → Runes → Option Time
parse_date_only loc v = elim (read_date v) [
  | none ↦ none
  | some (d, rest) ↦
      if same_text rest [] then some (from_local loc (day_number d * 86_400)) else none
]

unfoldable pub parse_date_time : Location → Runes → Runes → Option Time
parse_date_time loc tail v = elim (read_date v) [
  | none ↦ none
  | some (d, rest) ↦ elim (read_clock rest) [
    | none ↦ none
    | some (secs, nanos, left) ↦
        if same_text left tail
        then some (from_local loc (day_number d * 86_400 + secs) + nanos)
        else none
  ]
]

-- The results of `parseTime`: the time with its location, and `allDay`.
pub record Moment : Type 0 where
  pub at : Time
  pub loc : Location
  pub all_day : Bool

abbrev pub moment : Location → Bool → Option Time → Option Moment
moment loc all_day none = none
moment loc all_day (some t) = some (record { at = t; loc = loc; all_day = all_day })

abbrev pub has_suffix_z : Runes → Bool
has_suffix_z [] = false
has_suffix_z (c ∷ []) = c == b'Z'
has_suffix_z (c ∷ d ∷ cs) = has_suffix_z (d ∷ cs)

-- `tz.Load` by what its names mean.
abbrev pub Zones : Type 0
Zones = Runes → Option Location

-- The location that a TZID chooses.
unfoldable pub zone_of : Zones → Runes → Location
zone_of zones [] = utc
zone_of zones (c ∷ cs) = elim (zones (c ∷ cs)) [ none ↦ utc | some loc ↦ loc ]

-- `parseTime`; `none` is a false `ok`.
unfoldable pub parse_time : Zones → Property → Option Moment
parse_time zones p =
    let v = trim_space p.value in
    let loc = zone_of zones (p.params (codes "TZID")) in
    if same_text v []
    then none
    else (if equal_fold (p.params (codes "VALUE")) (codes "DATE") || octets v == 8
        then moment loc true (parse_date_only loc v)
        else (if has_suffix_z v
            then moment utc false (parse_date_time utc (b'Z' ∷ []) v)
            else moment loc false (parse_date_time loc [] v)))

-- `durationUnit`, in nanoseconds.
unfoldable pub duration_unit : ℕ → Bool → Option ℕ
duration_unit r in_time =
    if r == b'W'
    then some (7 * day)
    else (if r == b'D'
        then some day
        else (if r == b'H'
            then some hour
            else (if r == b'S'
                then some second
                else (if r == b'M' && in_time then some minute else none))))

-- The variables of the loop of `parseDuration`; `total` is a 64-bit pattern.
pub record Reading : Type 0 where
  pub total : ℕ
  pub num : Runes
  pub in_time : Bool
  pub any : Bool

-- The body of the loop; `none` returns false.
unfoldable pub read_rune : Reading → ℕ → Option Reading
read_rune s r =
    if is_digit r
    then some (record s { num = s.num ++ r ∷ [] })
    else (if r == b'T' then some (record s { in_time = true }) else elim (atoi_digits s.num) [
      | none ↦ none
      | some n ↦ elim (duration_unit r s.in_time) [
        | none ↦ none
        | some u ↦ some (record s { total = (s.total + n * u) % 2 ^ 64; num = []; any = true })
      ]
    ])

unfoldable pub read_runes : Reading → Runes → Option Reading
read_runes s [] = some s
read_runes s (r ∷ rs) = elim (read_rune s r) [ none ↦ none | some s' ↦ read_runes s' rs ]

abbrev pub is_sign : ℕ → Bool
is_sign c = c == b'+' || c == b'-'

abbrev pub starts_with : ℕ → Runes → Bool
starts_with c [] = false
starts_with c (d ∷ ds) = d == c

-- `parseDuration` after the sign.
unfoldable pub parse_unsigned : Bool → Runes → Option ℤ
parse_unsigned neg [] = none
parse_unsigned neg (p ∷ v) =
    elim (read_runes (record { total = 0; num = []; in_time = false; any = false }) v) [
      | none ↦ none
      | some s ↦
          let total = if neg then 2 ^ 64 - s.total else s.total in
          if p == b'P' && s.any then some (signed64 total) else none
    ]

-- `parseDuration`; `none` is a false `ok`.
unfoldable pub parse_duration : Runes → Option ℤ
parse_duration text =
    let v = trim_space (to_upper text) in parse_unsigned (starts_with b'-' v) (trim_left is_sign v)
