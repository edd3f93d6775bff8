-- ===== src/Icsparse/Feed.antt =====
-- api/internal/icsparse/icsparse.go: the busy intervals of a VEVENT and of a whole feed.
use overlap.Common.{
  ℕ, ◌+◌, ◌%◌, ◌^◌, Bool, true, false, List, [], ◌∷◌, ◌++◌, Option, none, some, ltb, if◌then◌else◌,
}
use overlap.Common.Int.{ℤ, pos, negsuc}
use overlap.Common.Maps.{update, nat_key}
use overlap.Common.Text.{Runes, codes, split, trim_space, equal_fold}
use overlap.Time.{Time, day}
use overlap.Icsparse.{Interval, valid, merge}
use overlap.Icsparse.Lines.{Property, Vevent, unfold_lines, vevents, first, all_named}
use overlap.Icsparse.Moments.{Zones, Moment, parse_time, parse_duration}
use overlap.Icsparse.Recur.{Excluded, span, parse_rule, shown_if, expand}

-- `end.Sub(start)` of a DTEND that is after the start.
unfoldable pub until_end : Zones → Vevent → Time → Option ℕ
until_end zones e start = elim (first e (codes "DTEND")) [
  | none ↦ none
  | some p ↦ elim (parse_time zones p) [
    | none ↦ none
    | some m ↦ if ltb start m.at then some (span start m.at) else none
  ]
]

abbrev positive : Option ℤ → Option ℕ
positive none = none
positive (some (pos n)) = if ltb 0 n then some n else none
positive (some (negsuc n)) = none

-- A DURATION that is positive.
unfoldable pub stated : Vevent → Option ℕ
stated e = elim (first e (codes "DURATION")) [
  | none ↦ none
  | some p ↦ positive (parse_duration p.value)
]

-- `vevent.duration`; `none` is a false `ok`.
unfoldable pub duration : Zones → Vevent → Time → Bool → Option ℕ
duration zones e start all_day = elim (until_end zones e start) [
  | some d ↦ some d
  | none ↦ elim (stated e) [ some d ↦ some d | none ↦ if all_day then some day else none ]
]

unfoldable pub exclude_values : Zones → Property → Excluded → List Runes → Excluded
exclude_values zones p out [] = out
exclude_values zones p out (v ∷ vs) = elim (parse_time zones (record p { value = v })) [
  | none ↦ exclude_values zones p out vs
  | some m ↦ exclude_values zones p (update out (m.at % 2 ^ 64) true) vs
]

unfoldable pub exclude_all : Zones → Excluded → List Property → Excluded
exclude_all zones out [] = out
exclude_all zones out (p ∷ ps) =
    exclude_all zones (exclude_values zones p out (split b',' p.value)) ps

-- `vevent.exdates`
unfoldable pub exdates : Zones → Vevent → Excluded
exdates zones e = exclude_all zones (λ t. false) (all_named e (codes "EXDATE"))

-- Whether a property is there and says `word`.
unfoldable pub says : Vevent → Runes → Runes → Bool
says e name word = elim (first e name) [
  | none ↦ false
  | some p ↦ equal_fold (trim_space p.value) word
]

-- `intervals` from the base on.
unfoldable pub occurrences : Zones → Vevent → Moment → Interval → Time → Time → List Interval
occurrences zones e start base from to =
    if valid base
    then elim (first e (codes "RRULE")) [
      | none ↦ shown_if base from to
      | some p ↦ expand start.loc base (parse_rule zones p.value) (exdates zones e) from to
    ]
    else []

-- `intervals` of an event that is neither cancelled nor transparent.
unfoldable pub busy_intervals : Zones → Vevent → Time → Time → List Interval
busy_intervals zones e from to = elim (first e (codes "DTSTART")) [
  | none ↦ []
  | some p ↦ elim (parse_time zones p) [
    | none ↦ []
    | some start ↦ elim (duration zones e start.at start.all_day) [
      | none ↦ []
      | some d ↦
          let base : Interval = record { start = start.at; end = start.at + d } in
          occurrences zones e start base from to
    ]
  ]
]

-- `vevent.intervals`
unfoldable pub intervals : Zones → Vevent → Time → Time → List Interval
intervals zones e from to =
    if says e (codes "STATUS") (codes "CANCELLED")
    then []
    else (if says e (codes "TRANSP") (codes "TRANSPARENT")
        then []
        else busy_intervals zones e from to)

-- The loop of `Parse`.
unfoldable pub all_intervals : Zones → List Vevent → Time → Time → List Interval
all_intervals zones [] from to = []
all_intervals zones (e ∷ es) from to = intervals zones e from to ++ all_intervals zones es from to

-- `Parse`
unfoldable pub parse : Zones → Runes → Time → Time → List Interval
parse zones body from to = merge (all_intervals zones (vevents (unfold_lines body)) from to)
