-- ===== src/Solver.antt =====
-- api/internal/solver/solver.go: its types, and the parts below.
mod Tests
pub mod Score
pub mod Rank
pub mod Dominance
use overlap.Common.{ℕ, String, ◌≡◌, Bool, List, Option, none, some}
use overlap.Common.Float.{Float}
use overlap.Time.{Time, Location, utc}

-- How a participant feels about a slot.
pub data Tier : Type 0 where
  tier_no tier_if_needed tier_ok tier_preferred : Tier

pub data Role : Type 0 where
  role_optional role_required : Role

pub record Participant : Type 0 where
  pub id : String
  pub name : String
  pub role : Role
  pub loc : Option Location

unfoldable pub location : Participant → Location
location p = elim p.loc [ none ↦ utc | some l ↦ l ]

-- `map[string]map[time.Time]Tier`; a missing entry is `none`.
abbrev pub Responses : Type 0
Responses = String → Option (Time → Option Tier)

-- `Responses.get`
unfoldable pub get : Responses → String → Time → Option Tier
get rs pid slot = elim (rs pid) [ none ↦ none | some by_slot ↦ by_slot slot ]

pub record Config (F : Type 0) : Type 0 where
  pub alpha : F
  pub optional_weight : F
  pub unsociable_penalty : F
  pub unsociable_cap : F
  pub day_start_hour : ℕ
  pub day_end_hour : ℕ
  pub history_epsilon : F

unfoldable pub default_config : {F : Type 0} ⦃fl : Float F⦄ → Config F
default_config ⦃fl⦄ = record {
  alpha = fl.lit 7 10;
  optional_weight = fl.lit 5 10;
  unsociable_penalty = fl.lit 15 100;
  unsociable_cap = fl.lit 45 100;
  day_start_hour = 8;
  day_end_hour = 21;
  history_epsilon = fl.lit 5 100;
}

pub record SlotScore (F : Type 0) : Type 0 where
  pub start : Time
  pub eliminated : Bool
  pub eliminated_by : List String
  pub excludes : List String
  pub unknown : List String
  pub coverage : ℕ
  pub total : ℕ
  pub score : F
  pub penalty : F
