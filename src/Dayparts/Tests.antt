-- ===== src/Dayparts/Tests.antt =====
-- A day's slots on the grid of day parts, and the theorems there.
use overlap.Common.{ℕ, ◌*◌, ◌≡◌, refl, String, List, [], ◌∷◌, none, some, any, ◌==◌, if◌then◌else◌}
use overlap.Common.Int.{negsuc, ◌+ℤ◌}
use overlap.Time.{Time, hour, Location, utc, local_seconds, hour_in, day_in}
use overlap.Time.Calendar.{days_in, tomorrow, date_at}
use overlap.Solver.{tier_ok, tier_preferred}
use overlap.Dayparts.{
  Cell, morning, afternoon, evening, is_block, parse_block, block_for_hour, cell_of, Selection,
  file, group, by_cell, assign, expand,
}
use overlap.Dayparts.Selected.{last_tier, in_cell, group-in_cell, expand-last_tier}

grid_open : ℕ
unfolding local_seconds hour_in day_in days_in tomorrow date_at is_block parse_block block_for_hour
    cell_of file group by_cell assign expand ◌+ℤ◌
grid_open = 0

-- Five hours behind UTC.
abbrev west : Location
west = record { offset = λ t. negsuc 17_999 }

abbrev cell : ℕ → String → Cell
cell d block = record { date = record { year = 1970; month = 1; day = d }; block = block }

abbrev slots : List Time
slots = 34 * hour ∷ 40 * hour ∷ 41 * hour ∷ 47 * hour ∷ []

abbrev taps : List Selection
taps =
    record { cell = cell 2 morning; tier = tier_ok }
    ∷ record { cell = cell 2 afternoon; tier = tier_ok }
    ∷ record { cell = cell 2 morning; tier = tier_preferred }
    ∷ []

-- One instant, two people's day parts.
at_home : cell_of (41 * hour) utc ≡ cell 2 evening
unfolding grid_open
at_home = refl

out_west : cell_of (41 * hour) west ≡ cell 2 afternoon
unfolding grid_open
out_west = refl

bad_block : parse_block "night" ≡ none
unfolding grid_open
bad_block = refl

last_wins : expand slots utc taps (34 * hour) ≡ some tier_preferred
unfolding grid_open
last_wins = refl

not_selected : expand slots utc taps (41 * hour) ≡ none
unfolding grid_open
not_selected = refl

group-in_cell_example : group slots west (cell 2 afternoon) ≡ in_cell west (cell 2 afternoon) slots
group-in_cell_example = group-in_cell slots west (cell 2 afternoon)

expand-last_tier_example :
    expand slots west taps (41 * hour)
    ≡ (if any (λ u. u == 41 * hour) slots then last_tier taps (cell_of (41 * hour) west) else none)
expand-last_tier_example = expand-last_tier slots west taps (41 * hour)
