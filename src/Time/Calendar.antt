-- ===== src/Time/Calendar.antt =====
-- The Gregorian calendar of Go's `time`: days counted from 1970-01-01, and the dates they fall on.
pub mod Order
use overlap.Common.{
  ℕ, zero, suc, ◌+◌, ◌-◌, ◌*◌, ◌/◌, ◌%◌, ◌≤◌, ◌<◌, ◌≡◌, refl, Bool, true, false, ◌&&◌, ◌||◌, not,
  arith, ltb, ◌==◌, if◌then◌else◌, Bool-cases, inl, inr,
}

pub record Date : Type 0 where
  pub year : ℕ
  pub month : ℕ
  pub day : ℕ

abbrev pub is_leap : ℕ → Bool
is_leap y = y % 4 == 0 && (not (y % 100 == 0) || y % 400 == 0)

unfoldable pub days_in : ℕ → ℕ → ℕ
days_in y m =
    if m == 2
    then (if is_leap y then 29 else 28)
    else (if m == 4 || m == 6 || m == 9 || m == 11 then 30 else 31)

-- The days of a year before a month, and the days before a year.
unfoldable pub before_month : ℕ → ℕ → ℕ
before_month y zero = 0
before_month y (suc m) = before_month y m + (if m == 0 then 0 else days_in y m)

unfoldable pub before_year : ℕ → ℕ
before_year y = 365 * y + ((y + 3) / 4 + (y + 399) / 400 - (y + 99) / 100)

unfoldable pub ordinal : Date → ℕ
ordinal d = before_year d.year + before_month d.year d.month + d.day

-- Days since 1970-01-01.
unfoldable pub day_number : Date → ℕ
day_number d = ordinal d - 719_529

-- The date after a date.
unfoldable pub tomorrow : Date → Date
tomorrow d =
    if ltb d.day (days_in d.year d.month)
    then record d { day = d.day + 1 }
    else (if ltb d.month 12
        then record d { month = d.month + 1; day = 1 }
        else record { year = d.year + 1; month = 1; day = 1 })

-- The date of a day, `t.Date()` in UTC.
unfoldable pub date_at : ℕ → Date
date_at zero = record { year = 1970; month = 1; day = 1 }
date_at (suc n) = tomorrow (date_at n)

-- `Date.after` of api/internal/slots/slots.go.
unfoldable pub after : Date → Date → Bool
after d o =
    if not (d.year == o.year)
    then ltb o.year d.year
    else (if not (d.month == o.month) then ltb o.month d.month else ltb o.day d.day)

-- A date that the calendar has, from 1970 on.
pub record IsDate (d : Date) : Type 0 where
  pub year_ge : 1970 ≤ d.year
  pub month_ge : 1 ≤ d.month
  pub month_le : d.month ≤ 12
  pub day_ge : 1 ≤ d.day
  pub day_le : d.day ≤ days_in d.year d.month

days_in_pos : (y m : ℕ) → 1 ≤ days_in y m
unfolding days_in
days_in_pos y m = ground arith

pub before_year-suc :
    (y : ℕ) → before_year (y + 1) ≡ before_year y + (if is_leap y then 366 else 365)
unfolding before_year
before_year-suc y = ground arith

pub year_length : (y : ℕ) → before_month y 13 ≡ (if is_leap y then 366 else 365)
unfolding before_month days_in
year_length y = ground arith

pub before_month-suc : (y m : ℕ) → 1 ≤ m → before_month y (m + 1) ≡ before_month y m + days_in y m
unfolding before_month
before_month-suc y zero h = absurd (omega (arith, h))
before_month-suc y (suc m) h =
    let e : suc m + 1 ≡ suc (suc m) = omega arith in rw (e, before_month) (ground arith)

before_month-one : (y : ℕ) → before_month y 1 ≡ 0
unfolding before_month
before_month-one y = refl

pub tomorrow-IsDate : (d : Date) → IsDate d → IsDate (tomorrow d)
unfolding tomorrow
tomorrow-IsDate d h = elim (Bool-cases (ltb d.day (days_in d.year d.month))) [
  | inl e ↦ rw e (record {
    year_ge = h.year_ge;
    month_ge = h.month_ge;
    month_le = h.month_le;
    day_ge = omega (arith, h.day_ge);
    day_le = ground (arith, e);
  })
  | inr e ↦ elim (Bool-cases (ltb d.month 12)) [
    | inl t ↦
        rw (e, t)
          (record {
            year_ge = h.year_ge;
            month_ge = omega arith;
            month_le = ground (arith, t);
            day_ge = omega arith;
            day_le = days_in_pos d.year (d.month + 1);
          })
    | inr t ↦
        rw (e, t)
          (record {
            year_ge = omega (arith, h.year_ge);
            month_ge = omega arith;
            month_le = omega arith;
            day_ge = omega arith;
            day_le = days_in_pos (d.year + 1) 1;
          })
  ]
]

new_year-ordinal :
    (d : Date)
    → d.month ≡ 12
    → d.day ≡ days_in d.year d.month
    → ordinal (record { year = d.year + 1; month = 1; day = 1 }) ≡ ordinal d + 1
unfolding ordinal
new_year-ordinal d dec last =
    let month : before_month d.year 13 ≡ before_month d.year 12 + days_in d.year 12 =
      before_month-suc d.year 12 (omega arith) in
    let end : d.day ≡ days_in d.year 12 = rw dec at last in
    rw dec (
      omega (
        arith,
        end,
        month,
        before_year-suc d.year,
        year_length d.year,
        before_month-one (d.year + 1),
      ))

pub ordinal-tomorrow : (d : Date) → IsDate d → ordinal (tomorrow d) ≡ ordinal d + 1
unfolding ordinal tomorrow
ordinal-tomorrow d h = elim (Bool-cases (ltb d.day (days_in d.year d.month))) [
  | inl e ↦ rw e (omega arith)
  | inr e ↦
      let last : d.day ≡ days_in d.year d.month = ground (arith, e, h.day_le) in
      elim (Bool-cases (ltb d.month 12)) [
        | inl t ↦ rw (e, t) (omega (arith, last, before_month-suc d.year d.month h.month_ge))
        | inr t ↦ rw (e, t) (new_year-ordinal d (ground (arith, t, h.month_le)) last)
      ]
]

pub date_at-IsDate : (n : ℕ) → IsDate (date_at n)
unfolding date_at days_in
date_at-IsDate zero = record {
  year_ge = omega arith;
  month_ge = omega arith;
  month_le = omega arith;
  day_ge = omega arith;
  day_le = omega arith;
}
date_at-IsDate (suc n) = tomorrow-IsDate (date_at n) (date_at-IsDate n)

ordinal-date_at : (n : ℕ) → ordinal (date_at n) ≡ 719_529 + n
unfolding date_at ordinal before_year before_month
ordinal-date_at zero = refl
ordinal-date_at (suc n) =
    rw (ordinal-tomorrow (date_at n) (date_at-IsDate n)) (omega (arith, ordinal-date_at n))

-- Counting from the epoch and reading the number of the date back agree.
pub day_number-date_at : (n : ℕ) → day_number (date_at n) ≡ n
unfolding day_number
day_number-date_at n = omega (arith, ordinal-date_at n)
