-- ===== src/Slots/Schedule.antt =====
-- What `Expand` of api/internal/slots/slots.go returns: slots on the grid of the window, each once.
use mathlib.Core.Option.{some-injective}
use mathlib.Core.Sum.{inl-injective, inr-ne-inl}
use overlap.Common.{
  AreDistinct, ℕ, zero, suc, ◌+◌, ◌*◌, ◌≤◌, ◌≡◌, ap, sym, subst, ◌∙◌, none, some, inl, inr, arith,
  leb, length, Bool-cases, Option-cases, All,
}
use overlap.Common.Maps.{nat_key}
use overlap.Time.{Location}
use overlap.Time.Calendar.{
  Date, date_at, day_number, day_number-date_at, IsDate, date_at-IsDate, after,
}
use overlap.Time.Calendar.Order.{day_number-after}
use overlap.Slots.{
  Window, Expansion, Scan, minutes, validate, visit, band_loop, day_loop, days_of, blank, begin,
  expand, next, max_slots,
}
use overlap.Slots.Kept.{Fits, Kept, OnGrid, InRange, visit-Kept}

band_loop-Kept :
    (fuel : ℕ) (w : Window) (loc : Location) (d : Date) (step m : ℕ) (s r : Scan)
    → Kept w loc s
    → InRange w d
    → m ≡ minutes w.day_start + step * w.slot_minutes
    → band_loop fuel loc w d m s ≡ some r
    → Kept w loc r
unfolding band_loop
band_loop-Kept zero w loc d step m s r k range e h = subst (Kept w loc) (some-injective _ _ h) k
band_loop-Kept (suc fuel) w loc d step m s r k range e h =
    elim (Bool-cases (leb (m + w.slot_minutes) (minutes w.day_end))) [
      | inr over ↦ subst (Kept w loc) (some-injective _ _ (rw over at h)) k
      | inl fits ↦ elim (Option-cases (visit loc d s m)) [
        | inl full ↦ absurd (let bad : none ≡ some r = rw (fits, full) at h in (cc))
        | inr (t, one) ↦
            let grid : OnGrid w m = record {
              step = step;
              on_grid = e;
              in_band = ground (arith, fits);
            } in
            band_loop-Kept fuel w loc d (step + 1) (m + w.slot_minutes) t r
              (visit-Kept w loc d s t m k range grid one) range (omega (arith, e))
              (rw (fits, one) at h)
      ]
    ]

day_loop-Kept :
    (fuel : ℕ) (w : Window) (loc : Location) (d : Date) (s r : Scan)
    → IsDate w.last
    → Kept w loc s
    → IsDate d
    → day_number w.first ≤ day_number d
    → day_loop fuel loc w d s ≡ some r
    → Kept w loc r
unfolding day_loop next
day_loop-Kept zero w loc d s r last k valid first h = subst (Kept w loc) (some-injective _ _ h) k
day_loop-Kept (suc fuel) w loc d s r last k valid first h = elim (Bool-cases (after d w.last)) [
  | inl over ↦ subst (Kept w loc) (some-injective _ _ (rw over at h)) k
  | inr within ↦
      let band = band_loop (minutes w.day_end) loc w d (minutes w.day_start) s in
      elim (Option-cases band) [
        | inl full ↦ absurd (let bad : none ≡ some r = rw (within, full) at h in (cc))
        | inr (t, one) ↦
            let range : InRange w d = record {
              valid = valid;
              first_le = first;
              le_last = day_number-after d w.last valid last within;
            } in
            let n = day_number d + 1 in
            day_loop-Kept fuel w loc (date_at n) t r last
              (band_loop-Kept (minutes w.day_end) w loc d 0 (minutes w.day_start) s t k range
                (omega arith) one)
              (date_at-IsDate n) (omega (arith, day_number-date_at n, first))
              (rw (within, one) at h)
      ]
]

blank-Kept : (w : Window) (loc : Location) → Kept w loc blank
unfolding blank
blank-Kept w loc = record {
  fit = tt;
  distinct = tt;
  few = omega arith;
  noted = λ t m. absurd m;
  known = λ t e. absurd (cc);
}

-- The slots of an expansion: no instant twice, at most MaxSlots of them, and each a slot of the
-- window as its location's clock shows it.
pub record IsSchedule (w : Window) (loc : Location) (exp : Expansion) : Type 0 where
  pub fit : All (Fits w loc) exp.starts
  pub distinct : AreDistinct exp.starts
  pub few : length exp.starts ≤ max_slots

-- Where the window has a location and its first and last days are dates of the calendar from 1970
-- on, and Expand returns an expansion, no instant stands twice among its starts, there are at most
-- MaxSlots of them, and each, read on the location's clock, falls on a day of the window, at a time
-- of the grid that steps from the start of the daily band, and ends inside the band.
pub expand-IsSchedule :
    (w : Window) (loc : Location) (exp : Expansion)
    → w.loc ≡ some loc
    → IsDate w.first
    → IsDate w.last
    → expand w ≡ inl exp
    → IsSchedule w loc exp
unfolding expand begin
expand-IsSchedule w loc exp l first last h = elim (Option-cases (validate w)) [
  | inr (e, bad) ↦ absurd (inr-ne-inl (rw (bad, expand) at h))
  | inl good ↦
      let began : begin w (some loc) ≡ inl exp = ap (begin w) (sym l) ∙ rw (good, expand) at h in
      elim (Option-cases (day_loop (days_of w) loc w w.first blank)) [
        | inl full ↦ absurd (inr-ne-inl (rw (full, begin) at began))
        | inr (s, done) ↦
            let k =
              day_loop-Kept (days_of w) w loc w.first blank s last (blank-Kept w loc) first
                (omega arith) done in
            subst (IsSchedule w loc) (inl-injective _ _ (rw (done, begin) at began))
              (record { fit = k.fit; distinct = k.distinct; few = k.few })
      ]
]
