-- ===== src/Time/Calendar/Order.antt =====
-- The order of dates and of their numbers.
use overlap.Common.{
  ℕ, zero, suc, ◌+◌, ◌-◌, ◌≤◌, ◌<◌, ◌≡◌, true, false, arith, ◌==◌, Bool-cases, inl, inr,
}
use overlap.Time.Calendar.{
  Date, days_in, before_month, before_year, ordinal, day_number, IsDate, after, before_month-suc,
  before_year-suc, year_length,
}

before_month_step : (y m : ℕ) → before_month y m ≤ before_month y (suc m)
unfolding before_month
before_month_step y m = omega arith

before_month_mono : (y m k : ℕ) → before_month y m ≤ before_month y (k + m)
before_month_mono y m zero = let e : 0 + m ≡ m = omega arith in rw e (omega arith)
before_month_mono y m (suc k) =
    let e : suc k + m ≡ suc (k + m) = omega arith in
    rw e (omega (arith, before_month_mono y m k, before_month_step y (k + m)))

before_year_mono : (y k : ℕ) → before_year y ≤ before_year (k + y)
before_year_mono y zero = let e : 0 + y ≡ y = omega arith in rw e (omega arith)
before_year_mono y (suc k) =
    let e : suc k + y ≡ k + y + 1 = omega arith in
    rw (e, before_year-suc (k + y)) (omega (arith, before_year_mono y k))

-- A date falls before every date of a later month, and of a later year.
earlier_month :
    (y m day n : ℕ) → 1 ≤ m → day ≤ days_in y m → m < n → before_month y m + day ≤ before_month y n
earlier_month y m day n h k lt =
    let e : n - (m + 1) + (m + 1) ≡ n = omega (arith, lt) in
    omega (arith, k, before_month-suc y m h, rw e at (before_month_mono y (m + 1) (n - (m + 1))))

earlier_year : (d : Date) (y : ℕ) → IsDate d → d.year < y → ordinal d ≤ before_year y
unfolding ordinal
earlier_year d y h lt =
    let e : y - (d.year + 1) + (d.year + 1) ≡ y = omega (arith, lt) in
    omega (
      arith,
      earlier_month d.year d.month d.day 13 h.month_ge h.day_le (omega (arith, h.month_le)),
      year_length d.year,
      before_year-suc d.year,
      rw e at (before_year_mono (d.year + 1) (y - (d.year + 1))),
    )

pub ordinal-after : (d o : Date) → IsDate d → IsDate o → after d o ≡ false → ordinal d ≤ ordinal o
unfolding after ordinal
ordinal-after d o h k e = elim (Bool-cases (d.year == o.year)) [
  | inr ne ↦
      let lt : d.year < o.year = ground (arith, e, ne) in omega (arith, earlier_year d o.year h lt)
  | inl same ↦
      let year : d.year ≡ o.year = ground (arith, same) in
      elim (Bool-cases (d.month == o.month)) [
        | inr ne ↦
            let lt : d.month < o.month = ground (arith, e, same, ne) in
            rw (← year)
              (omega (arith, earlier_month d.year d.month d.day o.month h.month_ge h.day_le lt))
        | inl alike ↦
            let month : d.month ≡ o.month = ground (arith, alike) in
            let le : d.day ≤ o.day = ground (arith, e, same, alike) in
            rw (← year, ← month) (omega (arith, le))
      ]
]

epoch_ordinal : (d : Date) → IsDate d → 719_529 ≤ ordinal d
unfolding ordinal before_year before_month
epoch_ordinal d h = omega (arith, before_year_mono 1970 (d.year - 1970), h.year_ge, h.day_ge)

pub day_number-after :
    (d o : Date) → IsDate d → IsDate o → after d o ≡ false → day_number d ≤ day_number o
unfolding day_number
day_number-after d o h k e = omega (arith, ordinal-after d o h k e)

ordinal-after_strict : (d o : Date) → IsDate d → IsDate o → after d o ≡ true → ordinal o < ordinal d
unfolding after ordinal
ordinal-after_strict d o h k e = elim (Bool-cases (d.year == o.year)) [
  | inr ne ↦
      let lt : o.year < d.year = ground (arith, e, ne) in
      omega (arith, earlier_year o d.year k lt, h.day_ge)
  | inl same ↦
      let year : o.year ≡ d.year = ground (arith, same) in
      elim (Bool-cases (d.month == o.month)) [
        | inr ne ↦
            let lt : o.month < d.month = ground (arith, e, same, ne) in
            rw (← year) (
              omega (
                arith,
                earlier_month o.year o.month o.day d.month k.month_ge k.day_le lt,
                h.day_ge,
              ))
        | inl alike ↦
            let month : o.month ≡ d.month = ground (arith, alike) in
            let lt : o.day < d.day = ground (arith, e, same, alike) in
            rw (← year, ← month) (omega (arith, lt))
      ]
]

pub day_number-after_strict :
    (d o : Date) → IsDate d → IsDate o → after d o ≡ true → day_number o < day_number d
unfolding day_number
day_number-after_strict d o h k e =
    omega (arith, ordinal-after_strict d o h k e, epoch_ordinal d h, epoch_ordinal o k)

neither_after : (d o : Date) → after d o ≡ false → after o d ≡ false → d ≡ o
unfolding after
neither_after d o h k = ground (arith, h, k)

-- A date is determined by its number.
pub day_number-injective : (d o : Date) → IsDate d → IsDate o → day_number d ≡ day_number o → d ≡ o
day_number-injective d o h k e = elim (Bool-cases (after d o)) [
  | inl t ↦ absurd (omega (arith, day_number-after_strict d o h k t, e))
  | inr t ↦ elim (Bool-cases (after o d)) [
    | inl u ↦ absurd (omega (arith, day_number-after_strict o d k h u, e))
    | inr u ↦ neither_after d o t u
  ]
]
