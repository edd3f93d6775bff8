-- ===== src/Ics/Tests.antt =====
-- Runs of api/internal/ics/ics.go, and instances of its theorems.
use overlap.Common.{ℕ, ◌*◌, ◌+◌, ◌≡◌, refl, [], ◌∷◌, some, All, arith}
use overlap.Common.Text.{codes, width, octets, replace_one, replace_two, split}
use overlap.Time.{second, hour, day, utc, day_in, local_seconds}
use overlap.Time.Calendar.{date_at, tomorrow, days_in}
use overlap.Icsparse.Lines.{lines_of, unfold_lines}
use overlap.Icsparse.Recur.{shown_if}
use overlap.Icsparse.Feed.{parse}
use overlap.Ics.{
  Event, escape_text, fold_from, write_folded, write_all, stamp_of, stamp, content_lines, render,
}
use overlap.Ics.Folded.{Fits}
use overlap.Ics.Rendered.{unfold_lines-render, render-Fits}
use overlap.Ics.Escaped.{unescape, unescape-escape_text}
use overlap.Ics.Reparsed.{IsDated, interval_of, parse-render}

ics_open : ℕ
unfolding width octets replace_one replace_two split lines_of date_at tomorrow days_in day_in
    local_seconds escape_text fold_from write_folded write_all stamp_of stamp content_lines render
ics_open = 0

abbrev meeting : Event
meeting = record {
  uid = codes "9k@overlap";
  summary =
      codes
        "Budget, part 2; a summary long enough to be folded over more than the one line it starts on";
  description = codes "first\nsecond";
  start = 9 * hour;
  end = 10 * hour + 30 * (60 * second);
  url = codes "https://overlap.example/e/9k";
}

stamped : stamp (day + 9 * hour) ≡ codes "19700102T090000Z"
unfolding ics_open
stamped = refl

escaped : escape_text (codes "a\\b;c,d\ne") ≡ codes "a\\\\b\\;c\\,d\\ne"
unfolding ics_open
escaped = refl

folded :
    write_folded
      (codes "0123456789012345678901234567890123456789012345678901234567890123456789012345x")
    ≡ codes "012345678901234567890123456789012345678901234567890123456789012345678901234\r\n 5x\r\n"
unfolding ics_open
folded = refl

meeting-IsDated : IsDated meeting
unfolding ics_open
meeting-IsDated = record {
  start_whole = refl;
  end_whole = refl;
  start_year = omega arith;
  end_year = omega arith;
  ordered = omega arith;
  short = omega arith;
}

unfold_lines-render_example : unfold_lines (render meeting 0) ≡ content_lines meeting 0
unfold_lines-render_example = unfold_lines-render meeting 0 (ground arith) (ground arith)

render-Fits_example : All Fits (lines_of (render meeting 0))
render-Fits_example = render-Fits meeting 0 (ground arith) (ground arith)

unescape-escape_text_example :
    unescape (escape_text (codes "a\r\nb"))
    ≡ replace_one 13 (10 ∷ []) (replace_two 13 10 (10 ∷ []) (codes "a\r\nb"))
unescape-escape_text_example = unescape-escape_text (codes "a\r\nb")

parse-render_example :
    parse (λ name. some utc) (render meeting 0) 0 day ≡ shown_if (interval_of meeting) 0 day
parse-render_example =
    parse-render (λ name. some utc) meeting 0 0 day meeting-IsDated (ground arith) (ground arith)
