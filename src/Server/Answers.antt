-- ===== src/Server/Answers.antt =====
-- api/internal/server/responses.go: a participant's answers, from the body of a request to rows.
pub mod Named
pub mod Said
pub mod Rows
pub mod Merge
use overlap.Common.{
  ℕ, ◌+◌, ◌-◌, ◌%◌, ◌^◌, ◌≡◌, String, Bool, true, false, not, ◌&&◌, List, [], ◌∷◌, ◌++◌, Option,
  none, some, length, foldl, any, ltb, leb, ◌==◌, if◌then◌else◌,
}
use overlap.Common.Int.{ℤ, pos, negsuc}
use overlap.Common.Maps.{Key, nat_key, string_key, update}
use overlap.Common.Sort.{sort}
use overlap.Common.Text.{Runes, trim_space}
use overlap.Time.{Time, Location}
use overlap.Time.Nanos.{unix_nano}
use overlap.Solver.{Tier}
use overlap.Store.{
  Response, role_optional, role_required, source_calendar, source_coarse, source_manual,
}
use overlap.Dayparts.{Selection, parse_block, expand}
use overlap.Tz.{ZoneDb}
use overlap.Server.{
  Failure, name_missing, name_long, bad_zone, bad_role, bad_block, no_such_slot, Result, ok, err,
  ◌>>=◌, ◌>>◌, guard, or_err, max_name_runes, is_zone, parse_date, parse_tier,
}
use overlap.Server.Events.{NewParticipant}

pub record JoinRequest : Type 0 where
  pub name : Runes
  pub timezone : String
  pub role : String

unfoldable pub role_of : String → Result String
role_of s =
    if string_key.beq s ""
    then ok role_optional
    else (if string_key.beq s role_optional
        then ok role_optional
        else (if string_key.beq s role_required then ok role_required else err bad_role))

-- `toNewParticipant`
unfoldable pub to_new_participant : ZoneDb → String → JoinRequest → Result NewParticipant
to_new_participant db fallback req =
    let name = trim_space req.name in
    let tz = if string_key.beq req.timezone "" then fallback else req.timezone in
    guard (not (length name == 0)) name_missing
    >> (guard (leb (length name) max_name_runes) name_long
        >> (guard (is_zone db tz) bad_zone
            >> (role_of req.role >>= λ role.
                ok (record { display_name = name; tz = tz; role = role; is_organizer = false }))))

pub record CoarseSelection : Type 0 where
  pub date : Runes
  pub block : String
  pub tier : String

-- `slot_start` is in nanoseconds from 1970, and is any instant that a body can state.
pub record SlotSelection : Type 0 where
  pub slot_start : ℤ
  pub tier : String

pub record PutResponsesRequest : Type 0 where
  pub coarse : List CoarseSelection
  pub slots : List SlotSelection
  pub timezone : String

-- The body of the loop over the coarse selections, and the loop.
unfoldable pub coarse_of : CoarseSelection → Result Selection
coarse_of c = or_err bad_block (parse_block c.block) >>= λ block. parse_date c.date >>= λ date.
    parse_tier c.tier >>= λ tier.
    ok (record { cell = record { date = date; block = block }; tier = tier })

unfoldable pub coarse_all : List CoarseSelection → Result (List Selection)
coarse_all [] = ok []
coarse_all (c ∷ cs) = coarse_of c >>= λ s. coarse_all cs >>= λ rest. ok (s ∷ rest)

-- The maps `tiers` and `sources`.
pub record Laid : Type 0 where
  pub tiers : Time → Option Tier
  pub sources : Time → String

abbrev source_where : Option Tier → String
source_where none = ""
source_where (some tier) = source_coarse

-- The map `valid`.
unfoldable pub valid_slots : List Time → (ℕ → Option Time)
valid_slots = foldl (λ m t. update m (unix_nano (pos t)) (some t)) (λ k. none)

-- The loop over the fine selections.
unfoldable pub overlay : (ℕ → Option Time) → List SlotSelection → Laid → Result Laid
overlay slots [] l = ok l
overlay slots (s ∷ rest) l = or_err no_such_slot (slots (unix_nano s.slot_start)) >>= λ t.
    parse_tier s.tier >>= λ tier. overlay slots rest (record {
      tiers = update (l.tiers) t (some tier);
      sources = update (l.sources) t source_manual;
    })

-- The entries of `tiers`. Its keys are slots of the event, so that a visit to each slot once is a
-- visit to each entry; the order of the visit is lost in the sort.
abbrev add_row : Time → Option Tier → String → List Response → List Response
add_row t none source rows = rows
add_row t (some tier) source rows = (record { slot_start = t; tier = tier; source = source }) ∷ rows

unfoldable pub entries : Laid → List Time → List Response
entries l [] = []
entries l (t ∷ ts) =
    let rows = entries l ts in
    if any (λ u. u == t) ts then rows else add_row t (l.tiers t) (l.sources t) rows

abbrev pub before : Response → Response → Bool
before a b = ltb a.slot_start b.slot_start

unfoldable pub build_responses : List Time → Location → PutResponsesRequest → Result (List Response)
build_responses starts loc req = coarse_all req.coarse >>= λ sel.
    let tiers = expand starts loc sel in
    overlay (valid_slots starts) req.slots
      (record { tiers = tiers; sources = λ t. source_where (tiers t) })
    >>= λ l. ok (sort before (entries l starts))

-- The map `seen`.
unfoldable pub seen_in : List Response → (ℕ → Bool)
seen_in = foldl (λ m r. update m (unix_nano (pos r.slot_start)) true) (λ k. false)

-- The rows that the second loop of `mergeCalendarRows` appends.
unfoldable pub silent_calendar : (ℕ → Bool) → List Response → List Response
silent_calendar seen [] = []
silent_calendar seen (r ∷ rest) =
    let rows = silent_calendar seen rest in
    if string_key.beq r.source source_calendar && not (seen (unix_nano (pos r.slot_start)))
    then r ∷ rows
    else rows

-- `mergeCalendarRows`
unfoldable pub merge_calendar_rows : List Response → List Response → List Response
merge_calendar_rows stated prior = sort before (stated ++ silent_calendar (seen_in stated) prior)
