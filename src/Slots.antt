-- ===== src/Slots.antt =====
-- api/internal/slots/slots.go: a window of local dates and times as absolute instants.
pub mod Resolve
pub mod Kept
pub mod Schedule
pub mod Fuel
pub mod Complete
mod Tests
use overlap.Common.{
  ℕ, zero, suc, ◌+◌, ◌-◌, ◌*◌, ◌/◌, ◌%◌, Bool, true, false, not, ◌&&◌, List, [], ◌∷◌, ◌++◌, Option,
  none, some, ◌⊎◌, inl, inr, length, ltb, leb, ◌==◌, if◌then◌else◌,
}
use overlap.Common.Int.{ℤ, pos, negsuc, pos_part, ◌+ℤ◌, ◌-ℤ◌}
use overlap.Common.Maps.{update, nat_key}
use overlap.Time.{Time, minute, hour, Location, from_local, local_seconds, hour_in, day_in}
use overlap.Time.Calendar.{Date, date_at, day_number, after}

pub record TimeOfDay : Type 0 where
  pub hour : ℕ
  pub minute : ℕ

-- `TimeOfDay.minutes`
unfoldable pub minutes : TimeOfDay → ℕ
minutes t = t.hour * 60 + t.minute

-- `slot_minutes` is 0 for every int that is not positive.
pub record Window : Type 0 where
  pub first : Date
  pub last : Date
  pub day_start : TimeOfDay
  pub day_end : TimeOfDay
  pub slot_minutes : ℕ
  pub loc : Option Location

pub data Kind : Type 0 where
  kind_normal kind_nonexistent kind_ambiguous : Kind

pub record Anomaly : Type 0 where
  pub date : Date
  pub local : TimeOfDay
  pub kind : Kind
  -- `none` is the zero time of a slot that was dropped.
  pub chosen : Option Time

pub record Expansion : Type 0 where
  pub starts : List Time
  pub skipped : List Anomaly
  pub ambiguous : List Anomaly

-- The package's errors.
pub data SlotError : Type 0 where
  err_no_location err_bad_slot_size err_bad_day_band err_bad_date_range err_too_many_slots :
      SlotError

abbrev pub max_slots : ℕ
max_slots = 5000

-- `Date.next`, through the calendar of UTC.
unfoldable pub next : Date → Date
next d = date_at (day_number d + 1)

-- `Window.Validate`; `none` is nil.
unfoldable pub validate : Window → Option SlotError
validate w = elim w.loc [
  | none ↦ some err_no_location
  | some loc ↦
      if w.slot_minutes == 0
      then some err_bad_slot_size
      else (if leb (minutes w.day_end) (minutes w.day_start)
          then some err_bad_day_band
          else (if after w.first w.last then some err_bad_date_range else none))
]

-- `time.Date(…, loc)`
unfoldable pub time_date : Location → Date → TimeOfDay → Time
time_date loc d tod = from_local loc (day_number d * 86_400 + minutes tod * 60)

unfoldable pub same_date : Date → Date → Bool
same_date a b = a.year == b.year && a.month == b.month && a.day == b.day

-- `matches`, with `t` read in `loc`.
unfoldable pub matches : Location → Time → Date → TimeOfDay → Bool
matches loc t d tod =
    same_date (date_at (day_in loc t)) d
    && (hour_in loc t == tod.hour
        && (local_seconds loc t % 3600 / 60 == tod.minute && local_seconds loc t % 60 == 0))

-- `probeDeltas`, in nanoseconds.
abbrev pub probe_deltas : List ℤ
probe_deltas =
    pos hour
    ∷ negsuc (hour - 1)
    ∷ pos (30 * minute)
    ∷ negsuc (30 * minute - 1)
    ∷ pos (2 * hour)
    ∷ negsuc (2 * hour - 1)
    ∷ []

-- `t.Add(delta)`
unfoldable pub shift : Time → ℤ → Time
shift t delta = pos_part (pos t +ℤ delta)

-- The loop of `resolve` over the deltas.
unfoldable pub probe : Location → Date → TimeOfDay → Time → List ℤ → Time × Kind
probe loc d tod t [] = (t, kind_normal)
probe loc d tod t (delta ∷ rest) =
    let u = shift t delta in
    if matches loc u d tod
    then ((if ltb u t then u else t), kind_ambiguous)
    else probe loc d tod t rest

-- `resolve`
unfoldable pub resolve : Location → Date → TimeOfDay → Time × Kind
resolve loc d tod =
    let t = time_date loc d tod in
    if matches loc t d tod then probe loc d tod t probe_deltas else (t, kind_nonexistent)

-- The variables of the loops in `Expand`.
-- The map `seen` is keyed by the instant; two instants have one `UnixNano` only where they are 584
-- years apart, and a window with a slot on each of its days reaches MaxSlots long before.
pub record Scan : Type 0 where
  pub exp : Expansion
  pub seen : Time → Bool

-- The end of the loop body; `none` is ErrTooManySlots.
unfoldable pub emit : Scan → Time → Option Scan
emit s t =
    let starts = s.exp.starts ++ t ∷ [] in
    if s.seen t
    then some s
    else (if ltb max_slots (length starts)
        then none
        else some
            (record { exp = record (s.exp) { starts = starts }; seen = update s.seen t true }))

abbrev pub anomaly : Date → TimeOfDay → Kind → Option Time → Anomaly
anomaly d tod kind chosen = record { date = d; local = tod; kind = kind; chosen = chosen }

-- The loop body after `resolve`, which gave `t` and the kind.
unfoldable pub place : Date → TimeOfDay → Scan → Time → Kind → Option Scan
place d tod s t kind_nonexistent = some (record s {
  exp = record (s.exp) { skipped = s.exp.skipped ++ anomaly d tod kind_nonexistent none ∷ [] };
})
place d tod s t kind_ambiguous =
    emit
      (record s {
        exp = record (s.exp) {
          ambiguous = s.exp.ambiguous ++ anomaly d tod kind_ambiguous (some t) ∷ [];
        };
      })
      t
place d tod s t kind_normal = emit s t

-- The loop body, for the minute `m` of the day.
unfoldable pub visit : Location → Date → Scan → ℕ → Option Scan
visit loc d s m =
    let tod : TimeOfDay = record { hour = m / 60; minute = m % 60 } in
    let r = resolve loc d tod in place d tod s r.0 r.1

-- The loop over the minutes of a day, from `m` on. It runs on fuel.
unfoldable pub band_loop : ℕ → Location → Window → Date → ℕ → Scan → Option Scan
band_loop zero loc w d m s = some s
band_loop (suc fuel) loc w d m s =
    if leb (m + w.slot_minutes) (minutes w.day_end)
    then elim (visit loc d s m) [
      | none ↦ none
      | some t ↦ band_loop fuel loc w d (m + w.slot_minutes) t
    ]
    else some s

-- The loop over the dates. Each day has at least as many minutes as slots.
unfoldable pub day_loop : ℕ → Location → Window → Date → Scan → Option Scan
day_loop zero loc w d s = some s
day_loop (suc fuel) loc w d s =
    if after d w.last
    then some s
    else elim (band_loop (minutes w.day_end) loc w d (minutes w.day_start) s) [
      | none ↦ none
      | some t ↦ day_loop fuel loc w (next d) t
    ]

unfoldable pub blank : Scan
blank = record { exp = record { starts = []; skipped = []; ambiguous = [] }; seen = λ _. false }

-- A day for each date of the window, and one to see the end.
unfoldable pub days_of : Window → ℕ
days_of w = day_number w.last + 1 - day_number w.first

-- The loops of `Expand`, in the window's location.
unfoldable pub begin : Window → Option Location → Expansion ⊎ SlotError
begin w none = inr err_no_location
begin w (some loc) = elim (day_loop (days_of w) loc w w.first blank) [
  | none ↦ inr err_too_many_slots
  | some s ↦ inl s.exp
]

-- `Expand`
unfoldable pub expand : Window → Expansion ⊎ SlotError
expand w = elim (validate w) [ some e ↦ inr e | none ↦ begin w w.loc ]
