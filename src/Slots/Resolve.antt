-- ===== src/Slots/Resolve.antt =====
-- `resolve` of api/internal/slots/slots.go: what the instant it returns shows in its location.
use overlap.Common.{
  ℕ, ◌+◌, ◌*◌, ◌/◌, ◌%◌, ◌≡◌, refl, ap, sym, ◌∙◌, true, List, [], ◌∷◌, ◌⊎◌, inl, inr, arith, ltb,
  Bool-cases,
}
use overlap.Common.Int.{ℤ}
use overlap.Time.{Time, Location, local_seconds, hour_in, day_in}
use overlap.Time.Calendar.{Date, date_at, day_number, day_number-date_at}
use overlap.Slots.{
  TimeOfDay, kind_nonexistent, same_date, matches, probe_deltas, shift, probe, resolve, time_date,
}

-- The minute of the local day.
abbrev pub minute_in : Location → Time → ℕ
minute_in loc t = local_seconds loc t % 86_400 / 60

same_date_sound : (a b : Date) → same_date a b ≡ true → a ≡ b
unfolding same_date
same_date_sound a b h = ground arith

-- What a matching instant shows: the day, the minute and no seconds.
pub record Shows (loc : Location) (t : Time) (d : Date) (m : ℕ) : Type 0 where
  pub day : day_in loc t ≡ day_number d
  pub minute : minute_in loc t ≡ m
  pub whole : local_seconds loc t % 60 ≡ 0

clock_minute :
    (s h m : ℕ) → s % 86_400 / 3600 ≡ h → s % 3600 / 60 ≡ m → s % 86_400 / 60 ≡ h * 60 + m
clock_minute s h m e k = omega (arith, e, k)

pub matches-Shows :
    (loc : Location) (t : Time) (d : Date) (m : ℕ)
    → matches loc t d (record { hour = m / 60; minute = m % 60 }) ≡ true
    → Shows loc t d m
unfolding matches hour_in
matches-Shows loc t d m h =
    let s = local_seconds loc t in
    let same : same_date (date_at (day_in loc t)) d ≡ true = ground (arith, h) in
    let hour : s % 86_400 / 3600 ≡ m / 60 = ground (arith, h) in
    let min : s % 3600 / 60 ≡ m % 60 = ground (arith, h) in
    record {
      day = sym (day_number-date_at (day_in loc t)) ∙ ap day_number (same_date_sound _ d same);
      minute = omega (arith, clock_minute s (m / 60) (m % 60) hour min);
      whole = ground (arith, h);
    }

probe-matches :
    (loc : Location) (d : Date) (tod : TimeOfDay) (t : Time) (deltas : List ℤ)
    → matches loc t d tod ≡ true
    → matches loc (probe loc d tod t deltas).0 d tod ≡ true
unfolding probe
probe-matches loc d tod t [] h = h
probe-matches loc d tod t (delta ∷ rest) h =
    let u = shift t delta in
    elim (Bool-cases (matches loc u d tod)) [
      | inr e ↦ rw e (probe-matches loc d tod t rest h)
      | inl e ↦ rw e elim (Bool-cases (ltb u t)) [ inl l ↦ rw l e | inr l ↦ rw l h ]
    ]

pub resolve-matches :
    (loc : Location) (d : Date) (tod : TimeOfDay)
    → ((resolve loc d tod).1 ≡ kind_nonexistent) ⊎ (matches loc (resolve loc d tod).0 d tod ≡ true)
unfolding resolve
resolve-matches loc d tod =
    let t = time_date loc d tod in
    elim (Bool-cases (matches loc t d tod)) [
      | inl e ↦ inr (rw e (probe-matches loc d tod t probe_deltas e))
      | inr e ↦ inl (rw e refl)
    ]
