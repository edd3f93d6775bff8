-- ===== src/Proposal/Tests.antt =====
-- A proposal, and its theorem at a concrete week.
use overlap.Common.{ℕ, ◌*◌, ◌≡◌, refl, true, List, [], ◌∷◌, none, some, any}
use overlap.Common.Sort.{sort}
use overlap.Time.{Time, hour, minute}
use overlap.Icsparse.{Interval, overlaps, covers, merge, starts_before, coalesce_all}
use overlap.Icsparse.Merge.{AreApart, merge-covers}
use overlap.Proposal.{
  Member, connect, span_of, free_for_all, first_free, propose, best, string_less,
}
use overlap.Proposal.Earliest.{Finds, best-Finds}

abbrev span : ℕ → ℕ → Interval
span a b = record { start = a * hour; end = b * hour }

abbrev team : List Member
team =
    record { id = "1"; name = "Zoe"; busy = some (span 9 10 ∷ []) }
    ∷ record { id = "2"; name = "Amy"; busy = some (span 11 12 ∷ []) }
    ∷ record { id = "3"; name = "Max"; busy = none }
    ∷ []

abbrev candidates : List Time
candidates = 13 * hour ∷ 10 * hour ∷ 9 * hour ∷ []

-- Ten o'clock runs into Amy's meeting when it lasts for an hour and a half.
proposals :
    (best candidates hour team
      ≡ record { slot = some (10 * hour); found = true; considered = "Amy" ∷ "Zoe" ∷ [] })
    × (best candidates (90 * minute) team
        ≡ record { slot = some (13 * hour); found = true; considered = "Amy" ∷ "Zoe" ∷ [] })
unfolding best propose connect first_free free_for_all overlaps span_of string_less sort
proposals = (refl, refl)

best-Finds_example : Finds candidates hour team (best candidates hour team)
best-Finds_example = best-Finds candidates hour team

merged : merge (span 11 12 ∷ span 9 10 ∷ span 10 11 ∷ span 13 14 ∷ []) ≡ span 9 12 ∷ span 13 14 ∷ []
unfolding merge coalesce_all starts_before sort
merged = refl

merge-covers_example :
    (any (covers (10 * hour)) (merge (span 9 11 ∷ span 10 12 ∷ []))
      ≡ any (covers (10 * hour)) (span 9 11 ∷ span 10 12 ∷ []))
    × AreApart (merge (span 9 11 ∷ span 10 12 ∷ []))
merge-covers_example = merge-covers (span 9 11 ∷ span 10 12 ∷ []) (10 * hour)
