-- ===== src/Icsparse/Recur/Occurrences.antt =====
-- `expand` of api/internal/icsparse/rrule.go: what each interval it returns is, and how many.
use overlap.Common.{◌+◌, ◌%◌, ◌^◌, ◌≤◌, ◌<◌, ◌≡◌, true, false, length, All}
use overlap.Time.{Time}
use overlap.Icsparse.{Interval, overlaps}
use overlap.Icsparse.Recur.{Series, Emitted, span, is_past}

-- An interval that the series has inside its window: as long as the base, and not excluded, before
-- the series began or after its UNTIL.
pub record Occurs (s : Series) (i : Interval) : Type 0 where
  pub shown : overlaps i (record { start = s.from; end = s.to }) ≡ true
  pub kept : s.excluded (i.start % 2 ^ 64) ≡ false
  pub lasts : i.end ≡ i.start + span s.base.start s.base.end
  pub begun : s.base.start ≤ i.start
  pub going : is_past s.rule.until i.start ≡ false

pub record Sound (s : Series) (e : Emitted) : Type 0 where
  pub occurs : All (Occurs s) e.out
  pub counted : length e.out ≤ e.emitted
  pub bounded : 0 < s.rule.count → e.emitted ≤ s.rule.count
