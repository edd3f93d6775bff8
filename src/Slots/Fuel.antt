-- ===== src/Slots/Fuel.antt =====
-- The loops of `Expand` of api/internal/slots/slots.go as runs without a bound, and why they end.
use overlap.Common.{
  ℕ, zero, suc, ◌+◌, ◌≤◌, ◌≡◌, refl, ap, ◌∙◌, true, false, Option, none, some, ◌⊎◌, inl, inr, arith,
  leb, ◌==◌, Bool-cases, Option-cases,
}
use overlap.Time.{Location}
use overlap.Time.Calendar.{
  Date, date_at, day_number, day_number-date_at, IsDate, date_at-IsDate, after,
}
use overlap.Time.Calendar.Order.{day_number-after}
use overlap.Slots.{
  Window, Expansion, SlotError, err_too_many_slots, err_bad_slot_size, Scan, minutes, validate,
  visit, band_loop, day_loop, days_of, blank, begin, expand, next,
}

-- The loop over the minutes of a day, from the minute and the variables at its head to its end:
-- it stops where the next slot overhangs the band, or at the first error.
pub data BandRun (loc : Location) (w : Window) (d : Date) : ℕ → Scan → Option Scan → Type 0 where
  band_done :
      {m : ℕ} {s : Scan}
      → leb (m + w.slot_minutes) (minutes w.day_end) ≡ false
      → BandRun loc w d m s (some s)
  band_full :
      {m : ℕ} {s : Scan}
      → leb (m + w.slot_minutes) (minutes w.day_end) ≡ true
      → visit loc d s m ≡ none
      → BandRun loc w d m s none
  band_step :
      {m : ℕ} {s t : Scan} {r : Option Scan}
      → leb (m + w.slot_minutes) (minutes w.day_end) ≡ true
      → visit loc d s m ≡ some t
      → BandRun loc w d (m + w.slot_minutes) t r
      → BandRun loc w d m s r

-- The loop over the dates.
pub data DayRun (loc : Location) (w : Window) : Date → Scan → Option Scan → Type 0 where
  day_done : {d : Date} {s : Scan} → after d w.last ≡ true → DayRun loc w d s (some s)
  day_full :
      {d : Date} {s : Scan}
      → after d w.last ≡ false
      → BandRun loc w d (minutes w.day_start) s none
      → DayRun loc w d s none
  day_step :
      {d : Date} {s t : Scan} {r : Option Scan}
      → after d w.last ≡ false
      → BandRun loc w d (minutes w.day_start) s (some t)
      → DayRun loc w (next d) t r
      → DayRun loc w d s r

band_loop-BandRun :
    (fuel : ℕ) (loc : Location) (w : Window) (d : Date) (m : ℕ) (s : Scan)
    → 1 ≤ w.slot_minutes
    → minutes w.day_end ≤ fuel + m
    → BandRun loc w d m s (band_loop fuel loc w d m s)
unfolding band_loop
band_loop-BandRun zero loc w d m s p h = band_done (ground (arith, p, h))
band_loop-BandRun (suc fuel) loc w d m s p h =
    elim (Bool-cases (leb (m + w.slot_minutes) (minutes w.day_end))) [
      | inr over ↦ rw over (band_done over)
      | inl fits ↦ elim (Option-cases (visit loc d s m)) [
        | inl full ↦ rw (fits, full) (band_full fits full)
        | inr (t, one) ↦
            rw (fits, one)
              (band_step fits one
                (band_loop-BandRun fuel loc w d (m + w.slot_minutes) t p (omega (arith, p, h))))
      ]
    ]

day_loop-DayRun :
    (fuel : ℕ) (loc : Location) (w : Window) (d : Date) (s : Scan)
    → 1 ≤ w.slot_minutes
    → IsDate w.last
    → IsDate d
    → day_number w.last + 1 ≤ fuel + day_number d
    → DayRun loc w d s (day_loop fuel loc w d s)
unfolding day_loop next
day_loop-DayRun zero loc w d s p last valid h = day_done (elim (Bool-cases (after d w.last)) [
  | inl e ↦ e
  | inr e ↦ absurd (omega (arith, day_number-after d w.last valid last e, h))
])
day_loop-DayRun (suc fuel) loc w d s p last valid h =
    let band = band_loop (minutes w.day_end) loc w d (minutes w.day_start) s in
    let run : BandRun loc w d (minutes w.day_start) s band =
      band_loop-BandRun (minutes w.day_end) loc w d (minutes w.day_start) s p (omega arith) in
    let n = day_number d + 1 in
    elim (Bool-cases (after d w.last)) [
      | inl over ↦ rw over (day_done over)
      | inr within ↦ elim (Option-cases band) [
        | inl full ↦ rw (within, full) (day_full within (rw full at run))
        | inr (t, one) ↦
            rw (within, one)
              (day_step within (rw one at run) (
                day_loop-DayRun fuel loc w (date_at n) t p last (date_at-IsDate n)
                  (omega (arith, day_number-date_at n, h))))
      ]
    ]

-- What `Expand` returns once its loops end.
abbrev pub outcome : Option Scan → Expansion ⊎ SlotError
outcome none = inr err_too_many_slots
outcome (some s) = inl s.exp

positive_slots :
    (w : Window) (loc : Location) → w.loc ≡ some loc → validate w ≡ none → 1 ≤ w.slot_minutes
unfolding validate
positive_slots w loc l h = elim (Bool-cases (w.slot_minutes == 0)) [
  | inl e ↦ absurd (let bad : some err_bad_slot_size ≡ none = rw (validate, l, e) at h in (cc))
  | inr e ↦ ground (arith, e)
]

-- Expand ends: where the window passes Validate and its first and last days are dates of the
-- calendar from 1970 on, the loops over the dates and over the minutes of a day, run with no bound
-- on their turns, come to an end, and Expand returns what they end with, or ErrTooManySlots.
pub expand-Runs :
    (w : Window) (loc : Location)
    → w.loc ≡ some loc
    → validate w ≡ none
    → IsDate w.first
    → IsDate w.last
    → (r : Option Scan) × DayRun loc w w.first blank r × (expand w ≡ outcome r)
unfolding expand begin days_of
expand-Runs w loc l good first last =
    let p = positive_slots w loc l good in
    let r = day_loop (days_of w) loc w w.first blank in
    (
      r,
      day_loop-DayRun (days_of w) loc w w.first blank p last first (omega arith),
      rw (good, expand)
          (ap (begin w) l ∙ elim (Option-cases r) [
            | inl e ↦ rw (e, begin) refl
            | inr (s, e) ↦ rw (e, begin) refl
          ]),
    )
