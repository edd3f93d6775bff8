-- ===== src/Proposal.antt =====
-- api/internal/proposal/proposal.go: the earliest slot free for everyone with a calendar.
pub mod Earliest
mod Tests
use Prim.Native.Nat.{Ordering}
use Prim.Native.String.{compare}
use overlap.Common.{
  ℕ, ◌+◌, String, Bool, true, false, not, ◌||◌, List, [], ◌∷◌, Option, none, some, map,
  if◌then◌else◌, any, ltb,
}
use overlap.Common.Sort.{sort}
use overlap.Time.{Time}
use overlap.Icsparse.{Interval, overlaps}

pub record Member : Type 0 where
  pub id : String
  pub name : String
  -- `none` is nil, "we don't know".
  pub busy : Option (List Interval)

pub record Result : Type 0 where
  -- `none` with `found` false: the zero time.
  pub slot : Option Time
  pub found : Bool
  pub considered : List String

-- The order of `sort.Strings`.
unfoldable pub string_less : String → String → Bool
string_less a b = elim (compare a b) [ Ordering.lt ↦ true | _ ↦ false ]

-- A member with a calendar: the name, and the spans that are taken.
pub record Connected : Type 0 where
  pub name : String
  pub busy : List Interval

unfoldable pub connect : List Member → List Connected
connect [] = []
connect (m ∷ rest) = elim m.busy [
  | none ↦ connect rest
  | some spans ↦ record { name = m.name; busy = spans } ∷ connect rest
]

-- The span of a meeting.
unfoldable pub span_of : Time → ℕ → Interval
span_of slot duration = record { start = slot; end = slot + duration }

-- `freeForAll`: the loops return false at the first overlap.
unfoldable pub free_for_all : Time → ℕ → List Connected → Bool
free_for_all slot duration members =
    not (any (λ m. any (overlaps (span_of slot duration)) m.busy) members)

-- The loop over the sorted candidates.
unfoldable pub first_free : List Time → ℕ → List Connected → Option Time
first_free [] duration members = none
first_free (slot ∷ rest) duration members =
    if free_for_all slot duration members then some slot else first_free rest duration members

-- `Best`, once the members without a calendar are left out.
unfoldable pub propose : List Time → ℕ → List Connected → Result
propose candidates duration [] = record { slot = none; found = false; considered = [] }
propose candidates duration (m ∷ rest) =
    let names = sort string_less (map (λ m. m.name) (m ∷ rest)) in
    elim (first_free (sort ltb candidates) duration (m ∷ rest)) [
      | none ↦ record { slot = none; found = false; considered = names }
      | some s ↦ record { slot = some s; found = true; considered = names }
    ]

-- `Best`
unfoldable pub best : List Time → ℕ → List Member → Result
best candidates duration members = propose candidates duration (connect members)
