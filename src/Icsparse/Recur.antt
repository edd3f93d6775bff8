-- ===== src/Icsparse/Recur.antt =====
-- api/internal/icsparse/rrule.go: the recurrence of an event inside a window.

pub mod Occurrences
use overlap.Common.{
  ℕ, String, zero, suc, ◌+◌, ◌-◌, ◌*◌, ◌/◌, ◌%◌, ◌^◌, ◌++◌, Bool, true, false, not, ◌&&◌, ◌||◌,
  List, [], ◌∷◌, Option, none, some, ltb, leb, ◌==◌, if◌then◌else◌,
}
use overlap.Common.Int.{ℤ, pos, negsuc, sub_ℕ, pos_part, ◌+ℤ◌, ltb_ℤ}
use overlap.Common.Text.{
  Runes, codes, same_text, split, cut, trim_space, trim_left, to_upper, is_digit,
}
use overlap.Time.{Time, Location, second, day, local_seconds, day_in, weekday_in, from_local}
use overlap.Time.Calendar.{Date, date_at, day_number}
use overlap.Icsparse.{Interval, overlaps}
use overlap.Icsparse.Lines.{Property}
use overlap.Icsparse.Moments.{Zones, Moment, parse_time, signed64, atoi_digits, is_sign}

-- `maxOccurrences`
abbrev pub max_occurrences : ℕ
max_occurrences = 2000

-- A weekday counts from Sunday, 0.
pub record Rule : Type 0 where
  pub freq : Runes
  pub interval : ℕ
  pub count : ℕ
  pub until : Option Time
  pub by_day : List ℕ

-- `strconv.Atoi`, for the callers that take positive numbers only: `none` is an error, or a number
-- that is not positive.
unfoldable pub atoi_positive : Runes → Option ℕ
atoi_positive [] = none
atoi_positive (c ∷ cs) =
    let digits = if c == b'+' then cs else c ∷ cs in
    elim (atoi_digits digits) [ none ↦ none | some n ↦ if ltb 0 n then some n else none ]

-- `parseWeekday`; `none` is a false `ok`.
unfoldable pub parse_weekday : Runes → Option ℕ
parse_weekday text =
    let s = trim_left (λ c. is_sign c || is_digit c) (to_upper (trim_space text)) in
    if same_text s (codes "SU")
    then some 0
    else (if same_text s (codes "MO")
        then some 1
        else (if same_text s (codes "TU")
            then some 2
            else (if same_text s (codes "WE")
                then some 3
                else (if same_text s (codes "TH")
                    then some 4
                    else (if same_text s (codes "FR")
                        then some 5
                        else (if same_text s (codes "SA") then some 6 else none))))))

unfoldable pub add_weekdays : List ℕ → List Runes → List ℕ
add_weekdays days [] = days
add_weekdays days (s ∷ ss) = elim (parse_weekday s) [
  | none ↦ add_weekdays days ss
  | some wd ↦ add_weekdays (days ++ wd ∷ []) ss
]

abbrev until_of : Zones → Rule → Runes → Rule
until_of zones r val =
    elim (parse_time zones (record { name = []; params = λ k. []; value = val })) [
      | none ↦ r
      | some t ↦ record r { until = some t.at }
    ]

-- The switch of `parseRule`.
unfoldable pub set_part : Zones → Rule → Runes → Runes → Rule
set_part zones r key val =
    if same_text key (codes "FREQ")
    then record r { freq = to_upper val }
    else (if same_text key (codes "INTERVAL")
        then elim (atoi_positive val) [ none ↦ r | some n ↦ record r { interval = n } ]
        else (if same_text key (codes "COUNT")
            then elim (atoi_positive val) [ none ↦ r | some n ↦ record r { count = n } ]
            else (if same_text key (codes "UNTIL")
                then until_of zones r val
                else (if same_text key (codes "BYDAY")
                    then record r { by_day = add_weekdays r.by_day (split b',' val) }
                    else r))))

unfoldable pub set_parts : Zones → Rule → List Runes → Rule
set_parts zones r [] = r
set_parts zones r (part ∷ parts) = elim (cut b'=' part) [
  | none ↦ set_parts zones r parts
  | some (key, val) ↦
      set_parts zones (set_part zones r (to_upper (trim_space key)) (trim_space val)) parts
]

-- `parseRule`
unfoldable pub parse_rule : Zones → Runes → Rule
parse_rule zones v =
    set_parts zones (record { freq = []; interval = 1; count = 0; until = none; by_day = [] })
      (split b';' v)

-- `t.AddDate(years, months, days)`, which keeps the local clock. Each argument is a 64-bit `int`. A
-- day before 1970 counts as its first.
unfoldable pub add_date : Location → Time → ℤ → ℤ → ℤ → Time
unfolding ◌+ℤ◌
add_date loc t years months days =
    let local = local_seconds loc t in
    let d = date_at (local / 86_400) in
    let year = pos_part (pos d.year +ℤ years) in
    let index = pos_part (pos (year * 12 + d.month - 1) +ℤ months) in
    let first : Date = record { year = index / 12; month = index % 12 + 1; day = 1 } in
    let n = pos_part (pos (day_number first + d.day - 1) +ℤ days) in
    from_local loc (n * 86_400 + local % 86_400) + t % second

-- The signed product of two `int`s, neither negative.
abbrev pub mul64 : ℕ → ℕ → ℤ
mul64 a b = signed64 (a * b)

abbrev pub is_freq : Rule → String → Bool
is_freq r name = same_text r.freq (codes name)

-- `advanceBy`
unfoldable pub advance_by : Location → Time → Rule → ℕ → Time
advance_by loc t r n =
    if is_freq r "DAILY"
    then add_date loc t (pos 0) (pos 0) (mul64 r.interval n)
    else (if is_freq r "WEEKLY"
        then add_date loc t (pos 0) (pos 0) (mul64 (7 * r.interval) n)
        else (if is_freq r "MONTHLY"
            then add_date loc t (pos 0) (mul64 r.interval n) (pos 0)
            else (if is_freq r "YEARLY"
                then add_date loc t (mul64 r.interval n) (pos 0) (pos 0)
                else t)))

-- `advance`; `none` is a false `ok`.
unfoldable pub advance : Location → Time → Rule → Option Time
advance loc t r =
    if is_freq r "DAILY"
    then some (add_date loc t (pos 0) (pos 0) (signed64 r.interval))
    else (if is_freq r "WEEKLY"
        then some (add_date loc t (pos 0) (pos 0) (mul64 7 r.interval))
        else (if is_freq r "MONTHLY"
            then some (add_date loc t (pos 0) (signed64 r.interval) (pos 0))
            else (if is_freq r "YEARLY"
                then some (add_date loc t (signed64 r.interval) (pos 0) (pos 0))
                else none)))

-- `periodDuration`
unfoldable pub period_duration : Rule → ℤ
period_duration r =
    if is_freq r "DAILY"
    then mul64 r.interval day
    else (if is_freq r "WEEKLY"
        then mul64 r.interval (7 * day)
        else (if is_freq r "MONTHLY"
            then mul64 r.interval (30 * day)
            else (if is_freq r "YEARLY" then mul64 r.interval (365 * day) else pos 0)))

-- The longest `time.Duration`, at which `t.Sub(u)` stops.
abbrev pub max_duration : ℕ
max_duration = 2 ^ 63 - 1

-- `t.Sub(u)` where u is no later than t, and 0 where it is.
abbrev pub span : Time → Time → ℕ
span u t = if leb (t - u) max_duration then t - u else max_duration

abbrev pub is_empty : List ℕ → Bool
is_empty [] = true
is_empty (d ∷ ds) = false

-- The jump of `periods` periods, where there is one and it leads forward.
unfoldable pub jump : Location → Time → Rule → ℕ → Time
jump loc cur r periods =
    let jumped = advance_by loc cur r (periods - 3) in
    if ltb 3 periods && ltb cur jumped then jumped else cur

-- The first value of `cur` in the loop, after the jump towards the window.
unfoldable pub fast_forward : Location → Rule → Time → Time → Time
fast_forward loc r cur from =
    let pd = period_duration r in
    let n = pos_part pd in
    let gap = span cur from in
    if r.count == 0 && is_empty r.by_day && ltb 0 n && ltb n gap
    then jump loc cur r (gap / n)
    else cur

-- The excluded instants, by `UnixNano`, which is a 64-bit number.
abbrev pub Excluded : Type 0
Excluded = ℕ → Bool

-- What does not change in the loop.
pub record Series : Type 0 where
  pub base : Interval
  pub loc : Location
  pub rule : Rule
  pub excluded : Excluded
  pub from : Time
  pub to : Time

-- The variables `emitted` and `out`.
pub record Emitted : Type 0 where
  pub emitted : ℕ
  pub out : List Interval

abbrev pub occurrence : Series → Time → Interval
occurrence s start = record { start = start; end = start + span s.base.start s.base.end }

-- `emitted++` and `emit`.
unfoldable pub emit : Series → Emitted → Time → Emitted
emit s e start =
    let iv = occurrence s start in
    let shown =
      if not (s.excluded (start % 2 ^ 64)) && overlaps iv (record { start = s.from; end = s.to })
      then e.out ++ iv ∷ []
      else e.out in
    record { emitted = e.emitted + 1; out = shown }

-- `r.count > 0 && emitted >= r.count`
abbrev pub is_spent : Series → Emitted → Bool
is_spent s e = ltb 0 s.rule.count && leb s.rule.count e.emitted

-- `!r.until.IsZero() && t.After(r.until)`
abbrev pub is_past : Option Time → Time → Bool
is_past none t = false
is_past (some u) t = ltb u t

-- The occurrence on a weekday of the week that starts at `week`, at the clock of the base.
unfoldable pub on_weekday : Series → Time → ℕ → Time
on_weekday s week wd =
    let d = add_date s.loc week (pos 0) (pos 0) (pos wd) in
    from_local s.loc (day_in s.loc d * 86_400 + local_seconds s.loc s.base.start % 86_400)

-- The loop over `r.byDay`; its `break` is the end of the week.
unfoldable pub emit_week : Series → Time → List ℕ → Emitted → Emitted
emit_week s week [] e = e
emit_week s week (wd ∷ days) e =
    let occ = on_weekday s week wd in
    let skipped = emit_week s week days e in
    let shown = emit_week s week days (emit s e occ) in
    if ltb occ s.base.start || is_past s.rule.until occ
    then skipped
    else (if is_spent s e then e else shown)

-- `-int(t.Weekday())`
abbrev pub back_to_sunday : Location → Time → ℤ
back_to_sunday loc t = sub_ℕ 0 (weekday_in loc t)

-- The occurrences of the period of `cur`, and `true` where the loop is left.
unfoldable pub emit_period : Series → Time → Emitted → Emitted × Bool
emit_period s cur e =
    let weekly =
      not (is_empty s.rule.by_day) && (is_freq s.rule "WEEKLY" || is_freq s.rule "DAILY") in
    let week = add_date s.loc cur (pos 0) (pos 0) (back_to_sunday s.loc cur) in
    if weekly
    then (emit_week s week s.rule.by_day e, false)
    else (if is_spent s e then (e, true) else (emit s e cur, false))

-- The loop over `step`, with the steps that are left.
unfoldable pub expand_loop : ℕ → Series → Time → Emitted → Emitted
expand_loop zero s cur e = e
expand_loop (suc steps) s cur e =
    if is_past s.rule.until cur || ltb s.to cur
    then e
    else (let p = emit_period s cur e in
        if p.1 || is_spent s p.0 then p.0 else elim (advance s.loc cur s.rule) [
          | none ↦ p.0
          | some next ↦ if ltb cur next then expand_loop steps s next p.0 else p.0
        ])

unfoldable pub shown_if : Interval → Time → Time → List Interval
shown_if base from to = if overlaps base (record { start = from; end = to }) then base ∷ [] else []

-- `expand`, with the location of the base.
unfoldable pub expand : Location → Interval → Rule → Excluded → Time → Time → List Interval
expand loc base r excluded from to =
    let s : Series = record {
      base = base;
      loc = loc;
      rule = r;
      excluded = excluded;
      from = from;
      to = to;
    } in
    let e =
      expand_loop max_occurrences s (fast_forward loc r base.start from)
        (record { emitted = 0; out = [] }) in
    if same_text r.freq [] then shown_if base from to else e.out
