-- ===== src/Dayparts.antt =====
-- api/internal/dayparts/dayparts.go: slots on the grid of days and day parts, as the clock of the
-- person who answers shows them.
pub mod Selected
mod Tests
use text.Mathlib.TextEquality.{eq_iff}
use overlap.Common.{
  ℕ, ◌≡◌, ◌↔◌, String, Bool, true, false, ◌&&◌, ◌||◌, List, [], ◌∷◌, ◌++◌, Option, none, some,
  foldl, ltb, ◌==◌, if◌then◌else◌, arith,
}
use overlap.Common.Maps.{Key, string_key, nat_key, update}
use overlap.Time.{Time, Location, hour_in, day_in}
use overlap.Time.Calendar.{Date, date_at}
use overlap.Solver.{Tier}

abbrev pub Block : Type 0
Block = String

abbrev pub morning : Block
morning = "morning"

abbrev pub afternoon : Block
afternoon = "afternoon"

abbrev pub evening : Block
evening = "evening"

abbrev pub afternoon_start_hour : ℕ
afternoon_start_hour = 12

abbrev pub evening_start_hour : ℕ
evening_start_hour = 17

-- `Block.Valid`
unfoldable pub is_block : Block → Bool
is_block b = string_key.beq b morning || string_key.beq b afternoon || string_key.beq b evening

-- `ParseBlock`; `none` is the error.
unfoldable pub parse_block : String → Option Block
unfolding is_block
parse_block s = if is_block s then some s else none

pub record Cell : Type 0 where
  pub date : Date
  pub block : Block

-- Cells key maps: `==` on the fields.
abbrev pub same_cell : Cell → Cell → Bool
same_cell a b =
    a.date.year == b.date.year
    && (a.date.month == b.date.month
        && (a.date.day == b.date.day && string_key.beq a.block b.block))

pub same_cell_iff : (a b : Cell) → (same_cell a b ≡ true) ↔ (a ≡ b)
same_cell_iff a b = ground (arith, eq_iff a.block b.block)

instance abbrev pub cell_key : Key Cell
cell_key = record { beq = same_cell; beq_iff = same_cell_iff }

unfoldable pub block_for_hour : ℕ → Block
block_for_hour h =
    if ltb h afternoon_start_hour
    then morning
    else (if ltb h evening_start_hour then afternoon else evening)

-- `Of`
unfoldable pub cell_of : Time → Location → Cell
cell_of t loc = record { date = date_at (day_in loc t); block = block_for_hour (hour_in loc t) }

pub record Selection : Type 0 where
  pub cell : Cell
  pub tier : Tier

-- The body of the loop of `Group`.
unfoldable pub file : Location → (Cell → List Time) → Time → (Cell → List Time)
file loc out t = let c = cell_of t loc in update out c (out c ++ t ∷ [])

-- `Group`; a cell with no entry has no slots.
unfoldable pub group : List Time → Location → (Cell → List Time)
group starts loc = foldl (file loc) (λ c. []) starts

-- `byCell`
unfoldable pub by_cell : List Selection → (Cell → Option Tier)
by_cell = foldl (λ m s. update m s.cell (some s.tier)) (λ c. none)

-- The body of the second loop of `Expand`.
unfoldable pub assign :
    (Cell → Option Tier) → Location → (Time → Option Tier) → Time → (Time → Option Tier)
assign cells loc out t = elim (cells (cell_of t loc)) [
  | none ↦ out
  | some tier ↦ update out t (some tier)
]

-- `Expand`
unfoldable pub expand : List Time → Location → List Selection → (Time → Option Tier)
expand starts loc [] = λ t. none
expand starts loc (s ∷ sel) = foldl (assign (by_cell (s ∷ sel)) loc) (λ t. none) starts
