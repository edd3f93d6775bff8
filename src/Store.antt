-- ===== src/Store.antt =====
-- The rows that api/internal/store hands to the rest of the program.
pub mod Tables
pub mod Queries
pub mod Groups
mod Tests
use overlap.Common.{String, Bool, Option, is_some}
use overlap.Time.{Time}
use overlap.Solver.{Tier}

-- The roles and sources, as api/internal/store/participants.go spells them.
abbrev pub role_optional : String
role_optional = "optional"

abbrev pub role_required : String
role_required = "required"

abbrev pub source_manual : String
source_manual = "manual"

abbrev pub source_coarse : String
source_coarse = "coarse"

abbrev pub source_calendar : String
source_calendar = "calendar"

pub record Participant : Type 0 where
  pub id : String
  pub display_name : String
  pub tz : String
  pub role : String
  pub is_organizer : Bool
  pub calendar_source : String
  -- `none` until this person submits.
  pub responded_at : Option Time
  pub created_at : Time

-- `Participant.Responded`
unfoldable pub responded : Participant → Bool
responded p = is_some p.responded_at

pub record Response : Type 0 where
  pub slot_start : Time
  pub tier : Tier
  pub source : String
