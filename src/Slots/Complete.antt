-- ===== src/Slots/Complete.antt =====
-- `Expand` of api/internal/slots/slots.go leaves no time of the window out.
use mathlib.Core.Option.{some-injective}
use mathlib.Core.Sum.{inl-injective, inr-ne-inl}
use overlap.Common.{
  ℕ, zero, suc, ◌+◌, ◌*◌, ◌/◌, ◌%◌, ◌≤◌, ◌≡◌, refl, sym, subst, ◌∙◌, true, List, [], ◌∷◌, ◌++◌,
  Option, none, some, ◌⊎◌, inl, inr, arith, ltb, length, Bool-cases, Option-cases, In,
  In-append_left, In-append_right,
}
use overlap.Common.Maps.{nat_key}
use overlap.Time.{Time, Location}
use overlap.Time.Calendar.{Date, date_at, day_number, day_number-date_at, IsDate, date_at-IsDate}
use overlap.Time.Calendar.Order.{day_number-after_strict, day_number-injective}
use overlap.Slots.{
  Window, TimeOfDay, Kind, kind_normal, kind_nonexistent, kind_ambiguous, Expansion, Scan, minutes,
  resolve, emit, place, visit, max_slots, next, validate, blank, expand,
}
use overlap.Slots.Kept.{update-known}
use overlap.Slots.Fuel.{
  BandRun, band_done, band_full, band_step, DayRun, day_done, day_full, day_step, expand-Runs,
}

-- What has been seen is among the starts.
abbrev IsKnown : Scan → Type 0
IsKnown s = (t : Time) → s.seen t ≡ true → In t s.exp.starts

abbrev IsGrown : Scan → Scan → Type 0
IsGrown s r = (t : Time) → In t s.exp.starts → In t r.exp.starts

abbrev clock : ℕ → TimeOfDay
clock m = record { hour = m / 60; minute = m % 60 }

-- The minute `m` of the date is among the starts, at the instant that `resolve` gives, unless the
-- location's clock never shows it.
abbrev pub IsOffered : Location → List Time → Date → ℕ → Type 0
IsOffered loc starts d m =
    ((resolve loc d (clock m)).1 ≡ kind_nonexistent) ⊎ In (resolve loc d (clock m)).0 starts

grown-IsOffered :
    (loc : Location) (s r : Scan) (d : Date) (m : ℕ)
    → IsGrown s r
    → IsOffered loc s.exp.starts d m
    → IsOffered loc r.exp.starts d m
grown-IsOffered loc s r d m g (inl gone) = inl gone
grown-IsOffered loc s r d m g (inr at) = inr (g _ at)

emit-In :
    (s r : Scan) (t : Time)
    → IsKnown s
    → emit s t ≡ some r
    → IsKnown r × IsGrown s r × In t r.exp.starts
unfolding emit
emit-In s r t k h =
    let starts = s.exp.starts ++ t ∷ [] in
    elim (Bool-cases (s.seen t)) [
      | inl e ↦
          let same = some-injective _ _ (rw e at h) in
          subst (λ q. IsKnown q × IsGrown s q × In t q.exp.starts) same (k, (λ u m. m), k t e)
      | inr e ↦ elim (Bool-cases (ltb max_slots (length starts))) [
        | inl l ↦ absurd (let bad : none ≡ some r = rw (e, l) at h in (cc))
        | inr l ↦
            subst (λ q. IsKnown q × IsGrown s q × In t q.exp.starts)
              (some-injective _ _ (rw (e, l) at h))
              (
                λ u m. elim (update-known s.seen t u m) [
                  | inl old ↦ In-append_left u s.exp.starts (t ∷ []) (k u old)
                  | inr same ↦ In-append_right u s.exp.starts (t ∷ []) (inl same)
                ],
                λ u m. In-append_left u s.exp.starts (t ∷ []) m,
                In-append_right t s.exp.starts (t ∷ []) (inl refl),
              )
      ]
    ]

place-In :
    (d : Date) (tod : TimeOfDay) (s r : Scan) (t : Time) (kind : Kind)
    → IsKnown s
    → place d tod s t kind ≡ some r
    → IsKnown r × IsGrown s r × ((kind ≡ kind_nonexistent) ⊎ In t r.exp.starts)
unfolding place
place-In d tod s r t kind_nonexistent k h =
    subst
      (λ q. IsKnown q × IsGrown s q × ((kind_nonexistent ≡ kind_nonexistent) ⊎ In t q.exp.starts))
      (some-injective _ _ h) (k, (λ u m. m), inl refl)
place-In d tod s r t kind_ambiguous k h =
    let (known, grown, here) = emit-In _ r t k h in (known, grown, inr here)
place-In d tod s r t kind_normal k h =
    let (known, grown, here) = emit-In s r t k h in (known, grown, inr here)

visit-IsOffered :
    (loc : Location) (d : Date) (s r : Scan) (m : ℕ)
    → IsKnown s
    → visit loc d s m ≡ some r
    → IsKnown r × IsGrown s r × IsOffered loc r.exp.starts d m
unfolding visit
visit-IsOffered loc d s r m k h =
    place-In d (clock m) s r (resolve loc d (clock m)).0 (resolve loc d (clock m)).1 k h

-- What a run of the loop over the minutes of a day adds: the times of the grid from `m` on.
abbrev BandAdds : Location → Window → Date → ℕ → Scan → Scan → Type 0
BandAdds loc w d m s r =
    IsKnown r
    × IsGrown s r
    × ((k : ℕ)
        → m + k * w.slot_minutes + w.slot_minutes ≤ minutes w.day_end
        → IsOffered loc r.exp.starts d (m + k * w.slot_minutes))

-- The times of the grid from `m` on are `m` and those from the next on.
grid_from :
    (loc : Location) (w : Window) (starts : List Time) (d : Date) (m : ℕ)
    → IsOffered loc starts d m
    → ((k : ℕ)
        → m + w.slot_minutes + k * w.slot_minutes + w.slot_minutes ≤ minutes w.day_end
        → IsOffered loc starts d (m + w.slot_minutes + k * w.slot_minutes))
    → (k : ℕ) → m + k * w.slot_minutes + w.slot_minutes ≤ minutes w.day_end
    → IsOffered loc starts d (m + k * w.slot_minutes)
grid_from loc w starts d m here later zero h =
    let q : m + 0 * w.slot_minutes ≡ m = omega arith in rw q here
grid_from loc w starts d m here later (suc k) h =
    let q : m + suc k * w.slot_minutes ≡ m + w.slot_minutes + k * w.slot_minutes = omega arith in
    rw q (later k (omega (arith, h)))

run-BandAdds :
    (loc : Location) (w : Window) (d : Date) (m : ℕ) (s : Scan) (o : Option Scan) (r : Scan)
    → BandRun loc w d m s o
    → o ≡ some r
    → IsKnown s
    → BandAdds loc w d m s r
run-BandAdds loc w d m s o r (band_done over) e known =
    subst (BandAdds loc w d m s) (some-injective _ _ e)
      (known, λ t i. i, λ k h. absurd (ground (arith, over, h)))
run-BandAdds loc w d m s o r (band_full fits full) e known = absurd (cc)
run-BandAdds loc w d m s o r (band_step {t = t} fits one more) e known =
    let (known_t, grown_t, here) = visit-IsOffered loc d s t m known one in
    let (known_r, grown_r, later) =
      run-BandAdds loc w d (m + w.slot_minutes) t o r more e known_t in
    (
      known_r,
      λ u i. grown_r u (grown_t u i),
      grid_from loc w r.exp.starts d m (grown-IsOffered loc t r d m grown_r here) later,
    )

-- What a run of the loop over the dates adds: the grid of every date from `d` on.
abbrev DaysAdd : Location → Window → Date → Scan → Scan → Type 0
DaysAdd loc w d s r =
    IsKnown r
    × IsGrown s r
    × ((e : Date) (k : ℕ)
        → IsDate e
        → day_number d ≤ day_number e
        → day_number e ≤ day_number w.last
        → minutes w.day_start + k * w.slot_minutes + w.slot_minutes ≤ minutes w.day_end
        → IsOffered loc r.exp.starts e (minutes w.day_start + k * w.slot_minutes))

run-DaysAdd :
    (loc : Location) (w : Window) (d : Date) (s : Scan) (o : Option Scan) (r : Scan)
    → DayRun loc w d s o
    → o ≡ some r
    → IsDate w.last
    → IsDate d
    → IsKnown s
    → DaysAdd loc w d s r
unfolding next
run-DaysAdd loc w d s o r (day_done over) e last valid known =
    subst (DaysAdd loc w d s) (some-injective _ _ e) (
      known,
      λ t i. i,
      λ f k date from to band.
          absurd (omega (arith, day_number-after_strict d w.last valid last over, from, to)),
    )
run-DaysAdd loc w d s o r (day_full within band) e last valid known = absurd (cc)
run-DaysAdd loc w d s o r (day_step {t = t} within band more) e last valid known =
    let start = minutes w.day_start in
    let (known_t, grown_t, today) = run-BandAdds loc w d start s (some t) t band refl known in
    let n = day_number d + 1 in
    let (known_r, grown_r, later) =
      run-DaysAdd loc w (date_at n) t o r more e last (date_at-IsDate n) known_t in
    (
      known_r,
      λ u i. grown_r u (grown_t u i),
      λ f k date from to fits. elim (Bool-cases (ltb (day_number d) (day_number f))) [
        | inl after_d ↦ later f k date (ground (arith, day_number-date_at n, after_d)) to fits
        | inr same ↦
            let q : day_number d ≡ day_number f = ground (arith, from, same) in
            subst (λ g. IsOffered loc r.exp.starts g (start + k * w.slot_minutes))
              (day_number-injective d f valid date q)
              (grown-IsOffered loc t r d (start + k * w.slot_minutes) grown_r (today k fits))
      ],
    )

-- Expand leaves nothing of the window out: where the window has a location, passes Validate, and
-- has dates of the calendar from 1970 on, and Expand returns an expansion, every time of the grid
-- whose slot ends inside the daily band, on every date of the window, is among the starts at the
-- instant that `resolve` gives for it, unless `resolve` says that the local clock never shows it.
pub expand-IsOffered :
    (w : Window) (loc : Location) (exp : Expansion) (d : Date) (k : ℕ)
    → w.loc ≡ some loc
    → validate w ≡ none
    → IsDate w.first
    → IsDate w.last
    → expand w ≡ inl exp
    → IsDate d
    → day_number w.first ≤ day_number d
    → day_number d ≤ day_number w.last
    → minutes w.day_start + k * w.slot_minutes + w.slot_minutes ≤ minutes w.day_end
    → IsOffered loc exp.starts d (minutes w.day_start + k * w.slot_minutes)
unfolding blank
expand-IsOffered w loc exp d k l good first last h date from to fits =
    let (o, ran, ends) = expand-Runs w loc l good first last in
    elim (Option-cases o) [
      | inl full ↦ absurd (inr-ne-inl (rw full at (sym ends ∙ h)))
      | inr (r, done) ↦
          let (known, grown, all_in) =
            run-DaysAdd loc w w.first blank o r ran done last first (λ t e. absurd (cc)) in
          let e : r.exp ≡ exp = inl-injective _ _ (rw done at (sym ends ∙ h)) in
          subst (λ x. IsOffered loc x.starts d (minutes w.day_start + k * w.slot_minutes)) e
            (all_in d k date from to fits)
    ]
