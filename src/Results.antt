-- ===== src/Results.antt =====
-- api/internal/results/results.go: stored rows as the solver's inputs, and what silence means.
mod Tests
pub mod Silence
pub mod Required
use overlap.Common.{
  ℕ, ◌+◌, String, Bool, List, [], ◌∷◌, ◌++◌, Option, none, some, foldl, if◌then◌else◌,
}
use overlap.Common.Maps.{update, nat_key, string_key}
use overlap.Common.Int.{pos}
use overlap.Time.{Time, Location, utc}
use overlap.Time.Nanos.{unix_nano}
use overlap.Solver.{Tier, tier_no, Role, Responses}
use overlap.Solver
use overlap.Store.{Participant, Response, responded, role_required}
use overlap.Tz.{ZoneDb, resolve}

pub record Input : Type 0 where
  pub slots : List Time
  pub participants : List Solver.Participant
  pub responses : Responses

-- A zone that no longer resolves reads as UTC.
unfoldable pub location_of : ZoneDb → String → Location
location_of db name = elim (resolve db name) [ none ↦ utc | some loc ↦ loc ]

unfoldable pub role_of : String → Role
role_of r = if string_key.beq r role_required then Role.role_required else Role.role_optional

unfoldable pub to_solver : ZoneDb → Participant → Solver.Participant
unfolding location_of role_of
to_solver db p = record {
  id = p.id;
  name = p.display_name;
  role = role_of p.role;
  loc = some (location_of db p.tz);
}

-- `canonical`: the slots by their `UnixNano`.
unfoldable pub canonical : List Time → (ℕ → Option Time)
canonical = foldl (λ m s. update m (unix_nano (pos s)) (some s)) (λ k. none)

-- `bySlot` before the responses: "no" at every slot.
unfoldable pub refusals : List Time → (Time → Option Tier)
refusals = foldl (λ m s. update m s (some tier_no)) (λ _. none)

-- One stored response, dropped if the window no longer produces its instant.
unfoldable pub record_response :
    (ℕ → Option Time) → (Time → Option Tier) → Response → (Time → Option Tier)
record_response slots by_slot r = elim (slots (unix_nano (pos r.slot_start))) [
  | none ↦ by_slot
  | some s ↦ update by_slot s (some r.tier)
]

unfoldable pub by_slot : List Time → List Response → (Time → Option Tier)
unfolding canonical refusals record_response
by_slot starts rows = foldl (record_response (canonical starts)) (refusals starts) rows

-- The body of the loop over the participants.
unfoldable pub add_participant :
    ZoneDb → (String → List Response) → List Time → Input → Participant → Input
unfolding to_solver by_slot
add_participant db rows starts input p =
    let listed = record input { participants = input.participants ++ to_solver db p ∷ [] } in
    if responded p
    then record listed {
      responses = update listed.responses p.id (some (by_slot starts (rows p.id)));
    }
    else listed

-- `Build`
unfoldable pub build : ZoneDb → List Participant → (String → List Response) → List Time → Input
unfolding add_participant
build db ps rows starts =
    foldl (add_participant db rows starts)
      (record { slots = starts; participants = []; responses = λ _. none }) ps

-- `RespondedCount`
unfoldable pub responded_count : List Participant → ℕ
responded_count = foldl (λ n p. if responded p then n + 1 else n) 0
