-- ===== src/Ics/Rendered.antt =====
-- `Render` of api/internal/ics/ics.go: its content lines, read back and measured.
use overlap.Common.{
  String, Bool, true, all, not, ◌&&◌, ℕ, ◌+◌, ◌/◌, ◌%◌, [], ◌∷◌, ◌++◌, ◌≡◌, refl, All, All-append,
  ◌==◌, false, arith,
}
use overlap.Common.Text.{
  Runes, codes, Lacks, replace_one, replace_one-Lacks, replace_one-Lacks_other, replace_two, cr, lf,
}
use overlap.Time.{Time, utc, day_in, local_seconds}
use overlap.Time.Calendar.{date_at}
use overlap.Icsparse.Lines.{is_blank, lines_of, unfold_lines}
use overlap.Icsparse.Unfold.{IsOneLine, IsOneLine-Lacks}
use overlap.Ics.Folded.{IsContent, Fits, unfold-write_all, write_all-Fits}
use overlap.Ics.{
  Event, escape_text, two_digits, four_digits, stamp, raw, text, optional, content_lines, render,
}

-- Text with its line breaks escaped has none.
pub escape_text-IsOneLine : (s : Runes) → IsOneLine (escape_text s)
unfolding escape_text
escape_text-IsOneLine s =
    let clean : (false ≡ false) × ((false ≡ false) × Unit) = (refl, (refl, tt)) in
    let s3 =
      replace_one lf (b'\\' ∷ b'n' ∷ [])
        (replace_two cr lf (b'\\' ∷ b'n' ∷ []) (replace_one b'\\' (b'\\' ∷ b'\\' ∷ []) s)) in
    let no_lf : Lacks lf s3 = replace_one-Lacks lf _ _ clean in
    IsOneLine-Lacks _
      (replace_one-Lacks_other b',' _ _ cr clean
        (replace_one-Lacks_other b';' _ _ cr clean (replace_one-Lacks cr _ s3 clean)))
      (replace_one-Lacks_other b',' _ _ lf clean (
        replace_one-Lacks_other b';' _ _ lf clean (replace_one-Lacks_other cr _ s3 lf clean no_lf)))

digit_clean : (n : ℕ) → ((b'0' + n % 10 == cr) ≡ false) × ((b'0' + n % 10 == lf) ≡ false)
digit_clean n = ground arith

two_digits-IsOneLine : (n : ℕ) → IsOneLine (two_digits n)
two_digits-IsOneLine n = (digit_clean (n / 10), (digit_clean n, tt))

four_digits-IsOneLine : (n : ℕ) → IsOneLine (four_digits n)
four_digits-IsOneLine n =
    (digit_clean (n / 1000), (digit_clean (n / 100), (digit_clean (n / 10), (digit_clean n, tt))))

stamp-IsOneLine : (t : Time) → IsOneLine (stamp t)
unfolding stamp
stamp-IsOneLine t =
    let d = date_at (day_in utc t) in
    let s = local_seconds utc t % 86_400 in
    (
      digit_clean (d.year / 1000),
      (
        digit_clean (d.year / 100),
        (
          digit_clean (d.year / 10),
          (
            digit_clean (d.year),
            (
              digit_clean (d.month / 10),
              (
                digit_clean (d.month),
                (
                  digit_clean (d.day / 10),
                  (
                    digit_clean (d.day),
                    (
                      (refl, refl),
                      (
                        digit_clean (s / 3600 / 10),
                        (
                          digit_clean (s / 3600),
                          (
                            digit_clean (s % 3600 / 60 / 10),
                            (
                              digit_clean (s % 3600 / 60),
                              (
                                digit_clean (s % 60 / 10),
                                (digit_clean (s % 60), ((refl, refl), tt)),
                              ),
                            ),
                          ),
                        ),
                      ),
                    ),
                  ),
                ),
              ),
            ),
          ),
        ),
      ),
    )

abbrev is_plain : Runes → Bool
is_plain = all (λ c. not (c == cr) && not (c == lf))

is_plain-IsOneLine : (s : Runes) → is_plain s ≡ true → IsOneLine s
is_plain-IsOneLine [] h = tt
is_plain-IsOneLine (c ∷ s) h = (ground (arith, h), is_plain-IsOneLine s (ground (arith, h)))

plain_name : (n v : Runes) → is_plain n ≡ true → IsOneLine v → IsOneLine (n ++ b':' ∷ v)
plain_name [] v h k = ((refl, refl), k)
plain_name (c ∷ n) v h k = (ground (arith, h), plain_name n v (ground (arith, h)) k)

abbrev is_word : Runes → Bool
is_word [] = false
is_word (c ∷ n) = not (is_blank c) && is_plain (c ∷ n)

from_word : (n v : Runes) → is_word n ≡ true → IsOneLine v → IsContent (n ++ b':' ∷ v)
from_word [] v w k = absurd (cc)
from_word (c ∷ n) v w k = (ground (arith, w), plain_name (c ∷ n) v (ground (arith, w)) k)

-- The lines of `writeRaw` and `write`, after a name that is a word.
raw-IsContent :
    (name : String) (value : Runes)
    → is_word (codes name) ≡ true
    → IsOneLine value
    → IsContent (raw name value)
raw-IsContent name value = from_word (codes name) value

word-IsContent :
    (name value : String)
    → is_word (codes name) ≡ true
    → is_plain (codes value) ≡ true
    → IsContent (raw name (codes value))
word-IsContent name value n v =
    raw-IsContent name (codes value) n (is_plain-IsOneLine (codes value) v)

optional-IsContent : (v line : Runes) → IsContent line → All IsContent (optional v line)
optional-IsContent [] line h = tt
optional-IsContent (c ∷ cs) line h = (h, tt)

-- The lines from the description on.
closing-IsContent :
    (ev : Event)
    → IsOneLine ev.url
    → All IsContent (
        optional ev.description (text "DESCRIPTION" ev.description)
        ++ (optional ev.url (raw "URL" ev.url)
            ++ (raw "STATUS" (codes "CONFIRMED")
                ∷ raw "TRANSP" (codes "OPAQUE")
                ∷ raw "END" (codes "VEVENT")
                ∷ raw "END" (codes "VCALENDAR")
                ∷ [])))
closing-IsContent ev hl =
    let described =
      raw-IsContent "DESCRIPTION" (escape_text ev.description) refl
        (escape_text-IsOneLine ev.description) in
    let linked = raw-IsContent "URL" ev.url refl hl in
    All-append IsContent (optional ev.description (text "DESCRIPTION" ev.description)) _
      (optional-IsContent ev.description (text "DESCRIPTION" ev.description) described)
      (All-append IsContent (optional ev.url (raw "URL" ev.url)) _
        (optional-IsContent ev.url (raw "URL" ev.url) linked)
        (
          word-IsContent "STATUS" "CONFIRMED" refl refl,
          (
            word-IsContent "TRANSP" "OPAQUE" refl refl,
            (
              word-IsContent "END" "VEVENT" refl refl,
              (word-IsContent "END" "VCALENDAR" refl refl, tt),
            ),
          ),
        ))

content_lines-IsContent :
    (ev : Event) (now : Time)
    → IsOneLine ev.uid
    → IsOneLine ev.url
    → All IsContent (content_lines ev now)
unfolding content_lines
content_lines-IsContent ev now hu hl = (
  word-IsContent "BEGIN" "VCALENDAR" refl refl,
  (
    word-IsContent "VERSION" "2.0" refl refl,
    (
      word-IsContent "PRODID" "-//Overlap//Overlap Scheduler//EN" refl refl,
      (
        word-IsContent "CALSCALE" "GREGORIAN" refl refl,
        (
          word-IsContent "METHOD" "PUBLISH" refl refl,
          (
            word-IsContent "BEGIN" "VEVENT" refl refl,
            (
              raw-IsContent "UID" ev.uid refl hu,
              (
                raw-IsContent "DTSTAMP" (stamp now) refl (stamp-IsOneLine now),
                (
                  raw-IsContent "DTSTART" (stamp ev.start) refl (stamp-IsOneLine ev.start),
                  (
                    raw-IsContent "DTEND" (stamp ev.end) refl (stamp-IsOneLine ev.end),
                    (
                      raw-IsContent "SUMMARY" (escape_text ev.summary) refl
                          (escape_text-IsOneLine ev.summary),
                      closing-IsContent ev hl,
                    ),
                  ),
                ),
              ),
            ),
          ),
        ),
      ),
    ),
  ),
)

-- `unfold` of the rendered file gives its content lines, in order and unbroken, where the UID and
-- the URL have no line break; the summary and the description may have any.
pub unfold_lines-render :
    (ev : Event) (now : Time)
    → IsOneLine ev.uid
    → IsOneLine ev.url
    → unfold_lines (render ev now) ≡ content_lines ev now
unfolding unfold_lines render
unfold_lines-render ev now hu hl =
    unfold-write_all (content_lines ev now) [] (content_lines-IsContent ev now hu hl)

-- No line of the rendered file is longer than 75 octets, where the UID and the URL have no line
-- break.
pub render-Fits :
    (ev : Event) (now : Time)
    → IsOneLine ev.uid
    → IsOneLine ev.url
    → All Fits (lines_of (render ev now))
unfolding render
render-Fits ev now hu hl =
    write_all-Fits (content_lines ev now) (content_lines-IsContent ev now hu hl)
