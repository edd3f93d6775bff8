-- ===== src/Icsparse.antt =====
-- api/internal/icsparse/icsparse.go: busy intervals.
pub mod Merge
pub mod Lines
pub mod Unfold
pub mod Moments
pub mod Recur
pub mod Feed
mod Tests
use overlap.Common.{
  ℕ, ◌≤◌, ◌<◌, Bool, true, false, ◌&&◌, List, [], ◌∷◌, ltb, leb, ◌==◌, if◌then◌else◌, any,
}
use overlap.Common.Sort.{sort}
use overlap.Time.{Time}

-- A half-open span during which someone is committed.
pub record Interval : Type 0 where
  pub start : Time
  pub end : Time

-- `Interval.valid`
unfoldable pub valid : Interval → Bool
valid i = ltb i.start i.end

-- `Interval.Overlaps`
unfoldable pub overlaps : Interval → Interval → Bool
overlaps i o = ltb i.start o.end && ltb o.start i.end

-- The `less` of `Merge`.
unfoldable pub starts_before : Interval → Interval → Bool
starts_before a b = if a.start == b.start then ltb a.end b.end else ltb a.start b.start

-- `last.End = cur.End` where that is later.
unfoldable pub widen : Interval → Interval → Interval
widen last cur = if ltb last.end cur.end then record last { end = cur.end } else last

-- The loop of `Merge`, with the last interval of `out` apart.
unfoldable pub coalesce : Interval → List Interval → List Interval
unfolding widen
coalesce last [] = last ∷ []
coalesce last (cur ∷ rest) =
    let gap = ltb last.end cur.start in
    let out = coalesce (if gap then cur else widen last cur) rest in if gap then last ∷ out else out

unfoldable pub coalesce_all : List Interval → List Interval
unfolding coalesce
coalesce_all [] = []
coalesce_all (i ∷ rest) = coalesce i rest

-- `Merge`
unfoldable pub merge : List Interval → List Interval
merge spans = coalesce_all (sort starts_before spans)

-- The instants of a span.
abbrev pub covers : Time → Interval → Bool
covers t i = leb i.start t && ltb t i.end
