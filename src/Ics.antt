-- ===== src/Ics.antt =====
-- api/internal/ics/ics.go: the calendar file of a decided event.
pub mod Folded
pub mod Rendered
pub mod Stamped
pub mod Reparsed
mod Tests
pub mod Escaped
use overlap.Common.{
  ℕ, ◌+◌, ◌-◌, ◌/◌, ◌%◌, ◌≤◌, String, Bool, true, false, List, [], ◌∷◌, ◌++◌, ltb, leb, ◌==◌,
  if◌then◌else◌,
}
use overlap.Common.Text.{Runes, codes, width, octets, replace_one, replace_two, cr, lf}
use overlap.Time.{Time, second, utc, local_seconds, day_in}
use overlap.Time.Calendar.{Date, date_at}

abbrev pub max_octets : ℕ
max_octets = 75

pub record Event : Type 0 where
  pub uid : Runes
  pub summary : Runes
  pub description : Runes
  pub start : Time
  pub end : Time
  pub url : Runes

abbrev pub crlf : Runes
crlf = cr ∷ lf ∷ []

-- `\`, followed by a rune.
abbrev backslash : ℕ → Runes
backslash c = b'\\' ∷ c ∷ []

-- `escapeText`
unfoldable pub escape_text : Runes → Runes
escape_text s0 =
    let s1 = replace_one b'\\' (backslash b'\\') s0 in
    let s2 = replace_two cr lf (backslash b'n') s1 in
    let s3 = replace_one lf (backslash b'n') s2 in
    let s4 = replace_one cr (backslash b'n') s3 in
    let s5 = replace_one b';' (backslash b';') s4 in replace_one b',' (backslash b',') s5

-- `limit` in the loop of `writeFolded`.
abbrev pub limit_of : Bool → ℕ
limit_of true = max_octets
limit_of false = max_octets - 1

-- The loop of `writeFolded`, from the state (used, first) on, with what it still writes.
unfoldable pub fold_from : ℕ → Bool → Runes → Runes
fold_from used first [] = crlf
fold_from used first (r ∷ rs) =
    let folded = fold_from (0 + width r) false rs in
    let straight = fold_from (used + width r) first rs in
    if ltb (limit_of first) (used + width r) then crlf ++ (b' ' ∷ r ∷ folded) else r ∷ straight

-- What `writeFolded` appends.
unfoldable pub write_folded : Runes → Runes
write_folded line = if leb (octets line) max_octets then line ++ crlf else fold_from 0 true line

-- `n` in decimal, over at least `k` digits, for the fields that `Format` pads.
abbrev pub digit : ℕ → ℕ
digit n = b'0' + n % 10

abbrev pub two_digits : ℕ → Runes
two_digits n = digit (n / 10) ∷ digit n ∷ []

abbrev pub four_digits : ℕ → Runes
four_digits n = digit (n / 1000) ∷ digit (n / 100) ∷ digit (n / 10) ∷ digit n ∷ []

-- A date and the seconds of the day in the layout `20060102T150405Z`, for a year up to 9999.
unfoldable pub stamp_of : Date → ℕ → Runes
stamp_of d s =
    four_digits d.year
    ++ two_digits d.month
    ++ two_digits d.day
    ++ (b'T' ∷ [])
    ++ two_digits (s / 3600)
    ++ two_digits (s % 3600 / 60)
    ++ two_digits (s % 60)
    ++ (b'Z' ∷ [])

-- `stamp`
unfoldable pub stamp : Time → Runes
unfolding stamp_of
stamp t = stamp_of (date_at (day_in utc t)) (local_seconds utc t % 86_400)

-- `writeRaw` and `write` without the folding: one content line.
abbrev pub raw : String → Runes → Runes
raw name value = codes name ++ (b':' ∷ value)

abbrev pub text : String → Runes → Runes
text name value = raw name (escape_text value)

-- The line of an optional value.
abbrev pub optional : Runes → Runes → List Runes
optional [] line = []
optional (c ∷ cs) line = line ∷ []

-- The content lines of `Render`, in the order of its calls.
unfoldable pub content_lines : Event → Time → List Runes
content_lines ev now =
    raw "BEGIN" (codes "VCALENDAR")
    ∷ raw "VERSION" (codes "2.0")
    ∷ raw "PRODID" (codes "-//Overlap//Overlap Scheduler//EN")
    ∷ raw "CALSCALE" (codes "GREGORIAN")
    ∷ raw "METHOD" (codes "PUBLISH")
    ∷ raw "BEGIN" (codes "VEVENT")
    ∷ raw "UID" ev.uid
    ∷ raw "DTSTAMP" (stamp now)
    ∷ raw "DTSTART" (stamp ev.start)
    ∷ raw "DTEND" (stamp ev.end)
    ∷ text "SUMMARY" ev.summary
    ∷ (optional ev.description (text "DESCRIPTION" ev.description)
        ++ (optional ev.url (raw "URL" ev.url)
            ++ (raw "STATUS" (codes "CONFIRMED")
                ∷ raw "TRANSP" (codes "OPAQUE")
                ∷ raw "END" (codes "VEVENT")
                ∷ raw "END" (codes "VCALENDAR")
                ∷ [])))

unfoldable pub write_all : List Runes → Runes
write_all [] = []
write_all (line ∷ rest) = write_folded line ++ write_all rest

-- `Render`
unfoldable pub render : Event → Time → Runes
render ev now = write_all (content_lines ev now)

-- `Filename`
abbrev pub filename : Runes → Runes
filename slug = codes "overlap-" ++ slug ++ codes ".ics"
