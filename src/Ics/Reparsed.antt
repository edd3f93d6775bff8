-- ===== src/Ics/Reparsed.antt =====
-- A file of api/internal/ics/ics.go as a feed of api/internal/icsparse/icsparse.go.
use overlap.Common.{
  ℕ, ◌-◌, ◌*◌, ◌/◌, ◌≤◌, ◌<◌, ◌≡◌, refl, ap, ◌∙◌, true, false, [], ◌∷◌, ◌++◌, none, some, arith,
  ltb, leb, Bool-cases, inl, inr, String,
}
use overlap.Common.Sort.{sort}
use overlap.Common.Text.{
  Runes, codes, cut, split, to_upper, to_upper_rune, trim, trim_left, is_space, equal_fold,
  fold_rune,
}
use overlap.Time.{Time, second, utc, day_in}
use overlap.Time.Calendar.{date_at}
use overlap.Icsparse.{Interval, overlaps, valid, merge, coalesce_all, coalesce}
use overlap.Icsparse.Lines.{
  Property, Vevent, parse_property, property_of, add_params, take_property, vevents_loop, vevents,
  first,
}
use overlap.Icsparse.Unfold.{IsOneLine}
use overlap.Icsparse.Moments.{Zones, Moment}
use overlap.Icsparse.Recur.{max_duration, shown_if}
use overlap.Icsparse.Feed.{
  until_end, duration, says, occurrences, busy_intervals, intervals, all_intervals, parse,
}
use overlap.Ics.{Event, escape_text, stamp, content_lines, render}
use overlap.Ics.Rendered.{unfold_lines-render}
use overlap.Ics.Stamped.{plain, parse_time-stamp}

abbrev prop : String → Runes → Property
prop name value = plain (codes name) value

abbrev maybe : Runes → Property → Vevent
maybe [] p = []
maybe (c ∷ cs) p = p ∷ []

-- The properties of the one VEVENT.
abbrev block : Event → Time → Vevent
block ev now =
    prop "UID" ev.uid
    ∷ prop "DTSTAMP" (stamp now)
    ∷ prop "DTSTART" (stamp ev.start)
    ∷ prop "DTEND" (stamp ev.end)
    ∷ prop "SUMMARY" (escape_text ev.summary)
    ∷ (maybe ev.description (prop "DESCRIPTION" (escape_text ev.description))
        ++ (maybe ev.url (prop "URL" ev.url)
            ++ (prop "STATUS" (codes "CONFIRMED") ∷ prop "TRANSP" (codes "OPAQUE") ∷ [])))

-- Where the lines of the description and the URL are decided.
vevents_split :
    (ev : Event) (now : Time) (d u : Runes)
    → ev.description ≡ d
    → ev.url ≡ u
    → vevents (content_lines ev now) ≡ block ev now ∷ []
unfolding vevents vevents_loop content_lines take_property parse_property property_of add_params cut
    split to_upper to_upper_rune trim trim_left is_space equal_fold fold_rune
vevents_split ev now [] [] e k = rw (e, k) refl
vevents_split ev now [] (c ∷ cs) e k = rw (e, k) refl
vevents_split ev now (c ∷ cs) [] e k = rw (e, k) refl
vevents_split ev now (c ∷ cs) (b ∷ bs) e k = rw (e, k) refl

-- What `first` finds, whether or not there is a description or a URL.
block_status :
    (ev : Event) (now : Time) (d u : Runes)
    → ev.description ≡ d
    → ev.url ≡ u
    → (first (block ev now) (codes "STATUS") ≡ some (prop "STATUS" (codes "CONFIRMED")))
      × (first (block ev now) (codes "TRANSP") ≡ some (prop "TRANSP" (codes "OPAQUE")))
      × (first (block ev now) (codes "RRULE") ≡ none)
unfolding first
block_status ev now [] [] e k = rw (e, k) (refl, refl, refl)
block_status ev now [] (c ∷ cs) e k = rw (e, k) (refl, refl, refl)
block_status ev now (c ∷ cs) [] e k = rw (e, k) (refl, refl, refl)
block_status ev now (c ∷ cs) (b ∷ bs) e k = rw (e, k) (refl, refl, refl)

block_times :
    (ev : Event) (now : Time)
    → (first (block ev now) (codes "DTSTART") ≡ some (prop "DTSTART" (stamp ev.start)))
      × (first (block ev now) (codes "DTEND") ≡ some (prop "DTEND" (stamp ev.end)))
unfolding first
block_times ev now = (refl, refl)

abbrev utc_year : Time → ℕ
utc_year t = (date_at (day_in utc t)).year

-- An event whose times the format can hold: whole seconds, years of four digits, and a length that a
-- `time.Duration` can hold.
pub record IsDated (ev : Event) : Type 0 where
  pub start_whole : ev.start / second * second ≡ ev.start
  pub end_whole : ev.end / second * second ≡ ev.end
  pub start_year : utc_year ev.start ≤ 9999
  pub end_year : utc_year ev.end ≤ 9999
  pub ordered : ev.start < ev.end
  pub short : ev.end - ev.start ≤ max_duration

abbrev pub interval_of : Event → Interval
interval_of ev = record { start = ev.start; end = ev.end }

duration-block :
    (zones : Zones) (ev : Event) (now : Time)
    → IsDated ev
    → duration zones (block ev now) ev.start false ≡ some (ev.end - ev.start)
unfolding duration until_end
duration-block zones ev now h =
    let l : ltb ev.start ev.end ≡ true = ground (arith, h.ordered) in
    let m : leb (ev.end - ev.start) max_duration ≡ true = ground (arith, h.short) in
    rw
      (
        duration,
        until_end,
        (block_times ev now).1,
        parse_time-stamp zones (codes "DTEND") ev.end h.end_year,
        h.end_whole,
        l,
        m,
      )
      refl

same_interval : (i j : Interval) → i.start ≡ j.start → i.end ≡ j.end → i ≡ j
same_interval i j h k = ground (arith, h, k)

occurrences-block :
    (zones : Zones) (ev : Event) (now : Time) (start : Moment) (base : Interval) (from to : Time)
    → IsDated ev
    → base ≡ interval_of ev
    → occurrences zones (block ev now) start base from to ≡ shown_if (interval_of ev) from to
unfolding occurrences valid
occurrences-block zones ev now start base from to h k =
    let l : ltb ev.start ev.end ≡ true = ground (arith, h.ordered) in
    let (_, _, rr) = block_status ev now ev.description ev.url refl refl in
    ap (λ b. occurrences zones (block ev now) start b from to) k ∙ rw (occurrences, l, rr) refl

abbrev utc_moment : Time → Moment
utc_moment t = record { at = t; loc = utc; all_day = false }

intervals-block :
    (zones : Zones) (ev : Event) (now from to : Time)
    → IsDated ev
    → intervals zones (block ev now) from to ≡ shown_if (interval_of ev) from to
unfolding intervals says busy_intervals occurrences valid equal_fold fold_rune trim trim_left
    is_space
intervals-block zones ev now from to h =
    let (st, tr, _) = block_status ev now ev.description ev.url refl refl in
    rw
      (
        intervals,
        says,
        st,
        tr,
        busy_intervals,
        (block_times ev now).0,
        parse_time-stamp zones (codes "DTSTART") ev.start h.start_year,
        h.start_whole,
        duration-block zones ev now h,
      )
      (occurrences-block zones ev now (utc_moment (ev.start / second * second)) _ from to h
        (same_interval _ (interval_of ev) h.start_whole (omega (arith, h.ordered, h.start_whole))))

merge-shown_if :
    (i : Interval) (from to : Time) → merge (shown_if i from to ++ []) ≡ shown_if i from to
unfolding merge coalesce_all coalesce sort shown_if
merge-shown_if i from to = elim (Bool-cases (overlaps i (record { start = from; end = to }))) [
  | inl e ↦ rw e refl
  | inr e ↦ rw e refl
]

-- The calendar file of an event, read as a feed, gives the one busy interval from its start to its
-- end where that overlaps the window, and none elsewhere, whatever its summary and description say;
-- for times that the format can hold, and a UID and a URL with no line break.
pub parse-render :
    (zones : Zones) (ev : Event) (now from to : Time)
    → IsDated ev
    → IsOneLine ev.uid
    → IsOneLine ev.url
    → parse zones (render ev now) from to ≡ shown_if (interval_of ev) from to
unfolding parse all_intervals
parse-render zones ev now from to h u l =
    rw
      (
        unfold_lines-render ev now u l,
        vevents_split ev now ev.description ev.url refl refl,
        intervals-block zones ev now from to h,
      )
      (merge-shown_if (interval_of ev) from to)
