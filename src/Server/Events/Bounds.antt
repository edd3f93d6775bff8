-- ===== src/Server/Events/Bounds.antt =====
-- What `toNewEvent` of api/internal/server/events.go accepts.
use overlap.Common.{
  ℕ, ◌+◌, ◌*◌, ◌≡◌, ◌≤◌, refl, String, Bool, true, false, not, ◌&&◌, [], ◌∷◌, Option, none, some,
  length, leb, ◌==◌, if◌then◌else◌, arith, Bool-cases, Option-cases, inl, inr,
}
use overlap.Common.Int.{ℤ, pos, negsuc}
use overlap.Common.Text.{Runes, trim_space, cut}
use overlap.Time.Calendar.{Date, days_in}
use overlap.Icsparse.Moments.{take_number, four, two, field}
use overlap.Slots.{TimeOfDay}
use overlap.Tz.{ZoneDb}
use overlap.Server.{
  Failure, title_missing, title_long, bad_zone, bad_slot_minutes, name_long, bad_date, bad_hour,
  bad_minute, after_midnight, bad_time, ok, err, ◌>>◌, guard, or_err, >>=-ok, guard-ok, or_err-ok,
  max_name_runes, is_zone, parse_date, time_of, parse_time_of_day_or, atoi, after_rune, whole_date,
  day_of, month_of, year_of,
}
use overlap.Server.Events.{
  CreateEventRequest, NewParticipant, NewEvent, title_of, slot_minutes_of, organizer_of, nine,
  seventeen, to_new_event,
}

-- A date of the calendar, and a time of a day that may end at 24:00.
abbrev pub IsDate : Date → Type 0
IsDate d = (1 ≤ d.month) × (d.month ≤ 12) × (1 ≤ d.day) × (d.day ≤ days_in d.year d.month)

abbrev pub IsTime : TimeOfDay → Type 0
IsTime t = (t.minute ≤ 59) × (60 * t.hour + t.minute ≤ 1440)

abbrev pub IsName : ℕ → Runes → Type 0
IsName most s = (1 ≤ length s) × (length s ≤ most)

abbrev pub IsOrganizer : String → Option NewParticipant → Type 0
IsOrganizer tz none = Unit
IsOrganizer tz (some p) = IsName 60 p.display_name × (p.tz ≡ tz)

-- The bounds of each field by itself; the order of the two dates is not among them.
abbrev pub IsBounded : ZoneDb → NewEvent → Type 0
IsBounded db e =
    IsName 120 e.title
    × (is_zone db e.organizer_tz ≡ true)
    × IsDate e.window_start
    × IsDate e.window_end
    × IsTime e.day_start
    × IsTime e.day_end
    × (5 ≤ e.slot_minutes)
    × (e.slot_minutes ≤ 480)
    × IsOrganizer e.organizer_tz e.organizer

named :
    (most : ℕ) (s t : Runes) (e f : Failure)
    → (guard (not (length s == 0)) e >> (guard (leb (length s) most) f >> ok s)) ≡ ok t
    → IsName most t
named most s t e f h =
    let a = guard-ok (not (length s == 0)) e (guard (leb (length s) most) f >> ok s) t h in
    let b = guard-ok (leb (length s) most) f (ok s) t a.1 in ground (arith, a.0, b.0, b.1)

title_of-IsName : (s t : Runes) → title_of s ≡ ok t → IsName 120 t
unfolding title_of
title_of-IsName s t h = named 120 (trim_space s) t title_missing title_long h

slot_minutes-within : (m : ℤ) (n : ℕ) → slot_minutes_of m ≡ ok n → (5 ≤ n) × (n ≤ 480)
unfolding slot_minutes_of
slot_minutes-within (negsuc k) n h = absurd (cc)
slot_minutes-within (pos k) n h =
    let minutes = if k == 0 then 30 else k in
    let a = guard-ok (leb 5 minutes && leb minutes 480) bad_slot_minutes (ok minutes) n h in
    ground (arith, a.0, a.1)

field-within :
    (lo hi : ℕ) (s : Runes) (n : ℕ) (rest : Runes)
    → field lo hi s ≡ some (n, rest)
    → (lo ≤ n) × (n ≤ hi)
unfolding field
field-within lo hi s n rest h = elim (Option-cases (take_number two 0 s)) [
  | inl e ↦ absurd (let bad : none ≡ some (n, rest) = rw (e, field) at h in cc)
  | inr ((m, more), e) ↦
      let k : (if leb lo m && leb m hi then some (m, more) else none) ≡ some (n, rest) =
        rw (e, field) at h in
      ground (arith, k)
]

whole_date-IsDate :
    (y m : ℕ) (f : Option (ℕ × Runes)) (d : Date)
    → (1 ≤ m) × (m ≤ 12)
    → ((n : ℕ) (rest : Runes) → f ≡ some (n, rest) → (1 ≤ n) × (n ≤ days_in y m))
    → whole_date y m f ≡ some d
    → IsDate d
whole_date-IsDate y m none d hm hd h = absurd (cc)
whole_date-IsDate y m (some (n, c ∷ cs)) d hm hd h = absurd (cc)
whole_date-IsDate y m (some (n, [])) d hm hd h =
    let (a, b) = hd n [] refl in
    let e : d ≡ record { year = y; month = m; day = n } = ground arith in rw e (hm.0, hm.1, a, b)

day_of-IsDate :
    (y m : ℕ) (s : Option Runes) (d : Date) → (1 ≤ m) × (m ≤ 12) → day_of y m s ≡ some d → IsDate d
day_of-IsDate y m none d hm h = absurd (cc)
day_of-IsDate y m (some s) d hm h =
    whole_date-IsDate y m (field 1 (days_in y m) s) d hm (field-within 1 (days_in y m) s) h

month_of-IsDate :
    (y : ℕ) (f : Option (ℕ × Runes)) (d : Date)
    → ((n : ℕ) (rest : Runes) → f ≡ some (n, rest) → (1 ≤ n) × (n ≤ 12))
    → month_of y f ≡ some d
    → IsDate d
month_of-IsDate y none d hm h = absurd (cc)
month_of-IsDate y (some (m, s)) d hm h = day_of-IsDate y m (after_rune b'-' s) d (hm m s refl) h

year_of-IsDate : (f : Option (ℕ × Runes)) (d : Date) → year_of f ≡ some d → IsDate d
year_of-IsDate none d h = absurd (cc)
year_of-IsDate (some (y, s)) d h = elim (Option-cases (after_rune b'-' s)) [
  | inl e ↦ absurd (let bad : none ≡ some d = rw (e, year_of) at h in cc)
  | inr (t, e) ↦
      let k : month_of y (field 1 12 t) ≡ some d = rw (e, year_of) at h in
      month_of-IsDate y (field 1 12 t) d (field-within 1 12 t) k
]

parse_date-IsDate : (s : Runes) (d : Date) → parse_date s ≡ ok d → IsDate d
unfolding parse_date
parse_date-IsDate [] d h = absurd (cc)
parse_date-IsDate (c ∷ cs) d h =
    let f = take_number four 0 (c ∷ cs) in year_of-IsDate f d (or_err-ok bad_date (year_of f) d h)

hour_within :
    (h m : ℕ)
    → leb h 24 ≡ true
    → leb m 59 ≡ true
    → not (h == 24 && not (m == 0)) ≡ true
    → 60 * h + m ≤ 1440
hour_within h m a b c = ground arith

time_of-IsTime : (h m : ℤ) (t : TimeOfDay) → time_of h m ≡ ok t → IsTime t
unfolding time_of
time_of-IsTime (negsuc h) m t e = absurd (cc)
time_of-IsTime (pos h) (negsuc m) t e =
    absurd (let (a, b) = guard-ok (leb h 24) bad_hour (err bad_minute) t e in cc)
time_of-IsTime (pos h) (pos m) t e =
    let made : TimeOfDay = record { hour = h; minute = m } in
    let last : Bool = not (h == 24 && not (m == 0)) in
    let (a, e1) =
      guard-ok (leb h 24) bad_hour
        (guard (leb m 59) bad_minute >> (guard last after_midnight >> ok made)) t e in
    let (b, e2) = guard-ok (leb m 59) bad_minute (guard last after_midnight >> ok made) t e1 in
    let (c, e3) = guard-ok last after_midnight (ok made) t e2 in
    let same : t ≡ made = ground arith in rw same (ground (arith, b), hour_within h m a b c)

parse_time_of_day_or-IsTime :
    (s : Runes) (default t : TimeOfDay)
    → IsTime default
    → parse_time_of_day_or s default ≡ ok t
    → IsTime t
unfolding parse_time_of_day_or
parse_time_of_day_or-IsTime [] default t hd h = let same : t ≡ default = ground arith in rw same hd
parse_time_of_day_or-IsTime (c ∷ cs) default t hd h =
    let (p, e1, h1) = >>=-ok (or_err bad_time (cut b':' (c ∷ cs))) _ t h in
    let (hh, e2, h2) = >>=-ok (or_err bad_time (atoi p.0)) _ t h1 in
    let (mm, e3, h3) = >>=-ok (or_err bad_time (atoi p.1)) (λ m. time_of hh m) t h2 in
    time_of-IsTime hh mm t h3

organizer_of-IsOrganizer :
    (tz : String) (s : Runes) (o : Option NewParticipant)
    → organizer_of tz s ≡ ok o
    → IsOrganizer tz o
unfolding organizer_of
organizer_of-IsOrganizer tz s o h =
    let name = trim_space s in
    let made : NewParticipant = record {
      display_name = name;
      tz = tz;
      role = "";
      is_organizer = false;
    } in
    let short : Bool = leb (length name) max_name_runes in
    elim (Bool-cases (length name == 0)) [
      | inl e ↦
          let k : ok none ≡ ok o = rw e at h in let same : o ≡ none = ground arith in rw same tt
      | inr e ↦
          let k : (guard short name_long >> ok (some made)) ≡ ok o = rw e at h in
          let (a, b) = guard-ok short name_long (ok (some made)) o k in
          let same : o ≡ some made = ground arith in
          rw same ((ground (arith, e), ground (arith, a)), refl)
    ]

-- A body that is accepted makes an event whose fields are within bounds: a title of 1 to 120
-- characters, a known zone, two dates of the calendar, two times of a day up to 24:00, slots of 5 to
-- 480 minutes and, where there is an organizer, a name of 1 to 60 characters and the event's zone.
pub to_new_event-IsBounded :
    (db : ZoneDb) (req : CreateEventRequest) (e : NewEvent)
    → to_new_event db req ≡ ok e
    → IsBounded db e
unfolding to_new_event
to_new_event-IsBounded db req e h =
    let (title, e1, h1) = >>=-ok (title_of req.title) _ e h in
    let (zone, h2) = guard-ok (is_zone db req.timezone) bad_zone _ e h1 in
    let (start, e3, h3) = >>=-ok (parse_date req.window_start) _ e h2 in
    let (end, e4, h4) = >>=-ok (parse_date req.window_end) _ e h3 in
    let (from, e5, h5) = >>=-ok (parse_time_of_day_or req.day_start nine) _ e h4 in
    let (to, e6, h6) = >>=-ok (parse_time_of_day_or req.day_end seventeen) _ e h5 in
    let (minutes, e7, h7) = >>=-ok (slot_minutes_of req.slot_minutes) _ e h6 in
    let (who, e8, h8) = >>=-ok (organizer_of req.timezone req.organizer_name) _ e h7 in
    let made : NewEvent = record {
      title = title;
      organizer_tz = req.timezone;
      window_start = start;
      window_end = end;
      day_start = from;
      day_end = to;
      slot_minutes = minutes;
      organizer = who;
      group_id = "";
    } in
    let same : e ≡ made = ground arith in
    let (low, high) = slot_minutes-within req.slot_minutes minutes e7 in
    rw same (
      title_of-IsName req.title title e1,
      zone,
      parse_date-IsDate req.window_start start e3,
      parse_date-IsDate req.window_end end e4,
      parse_time_of_day_or-IsTime req.day_start nine from (omega arith, omega arith) e5,
      parse_time_of_day_or-IsTime req.day_end seventeen to (omega arith, omega arith) e6,
      low,
      high,
      organizer_of-IsOrganizer req.timezone req.organizer_name who e8,
    )
