-- ===== src/Store/Groups.antt =====
-- api/internal/store/groups.go: groups, their members, and the seats that members claim in events. An
-- id that a caller passes is what `parseUUID` makes of it: none where it is malformed.
pub mod Slugs
pub mod Seats
pub mod Rosters
use overlap.Common.{
  ℕ, zero, suc, ◌+◌, ◌%◌, String, Bool, true, false, List, [], ◌∷◌, ◌++◌, Option, none, some, map,
  ◌==◌, if◌then◌else◌, is_some, get_elem?,
}
use overlap.Common.Maps.{string_key}
use overlap.Common.Text.{Runes, codes, same_text}
use overlap.Time.{Time}
use overlap.Icsparse.{Interval}
use overlap.Store.{role_optional, Participant}
use overlap.Store.Tables.{
  EventRow, ParticipantRow, GroupRow, MemberRow, BlockRow, Db, Error, not_found, no_rows, failed,
  out_of_slugs, no_participants, caller_missing, unique, Result, ok, err, World, State, Step, next,
  ◌>>=◌, ◌>>◌, pure, fail, Query, exec, transaction, draw, found,
}
use overlap.Store.Queries.{
  create_group, create_group_member, create_participant, insert_group_member_busy_blocks,
  get_group_by_slug, get_group_by_id, get_group_member_by_token, get_group_member_by_id,
  get_group_member_by_id_unscoped, claim_group_member, list_group_members,
  set_group_member_calendar, delete_group_member_busy_blocks, list_group_member_busy_blocks,
  list_group_events, get_participant_by_group_member, rotate_participant_token, link_event_to_group,
  list_participants, link_participant_to_group_member,
}

pub record Group : Type 0 where
  pub id : ℕ
  pub slug : Runes
  pub name : String
  pub created_from : Option ℕ
  pub created_at : Time

pub record GroupMember : Type 0 where
  pub id : ℕ
  pub display_name : String
  pub tz : String
  pub default_role : String
  pub calendar_source : String
  pub calendar_url : String
  pub claimed : Bool
  pub joined_at : Time

pub record NewGroupMember : Type 0 where
  pub display_name : String
  pub tz : String
  pub default_role : String

pub record NewGroup : Type 0 where
  pub name : String
  -- The event that the group grew out of, where there is one, with its id parsed.
  pub created_from : Option (Option ℕ)
  pub members : List NewGroupMember

pub record CreatedGroup : Type 0 where
  pub group : Group
  pub members : List GroupMember

-- `decodeGroup` and `decodeGroupMember`
unfoldable pub decode_group : GroupRow → Group
decode_group row = record {
  id = row.id;
  slug = row.slug;
  name = row.name;
  created_from = row.created_from;
  created_at = row.created_at;
}

abbrev url_of : Option String → String
url_of none = ""
url_of (some url) = url

unfoldable pub decode_group_member : MemberRow → GroupMember
decode_group_member row = record {
  id = row.id;
  display_name = row.display_name;
  tz = row.tz;
  default_role = row.default_role;
  calendar_source = row.calendar_source;
  calendar_url = url_of row.calendar_url;
  claimed = is_some row.token_hash;
  joined_at = row.joined_at;
}

-- `orDefault`
unfoldable pub or_default : String → String → String
or_default v default = if string_key.beq v "" then default else v

-- `parseUUID`, whose error wraps `ErrNotFound`.
abbrev pub parse_uuid : Option ℕ → Step ℕ
parse_uuid none = fail not_found
parse_uuid (some id) = pure id

abbrev pub parse_optional : Option (Option ℕ) → Step (Option ℕ)
parse_optional none = pure none
parse_optional (some id) = parse_uuid id >>= λ n. pure (some n)

-- `slugAlphabet`, `slugAttempts`
abbrev pub slug_alphabet : Runes
slug_alphabet = codes "23456789abcdefghijkmnpqrstuvwxyz"

abbrev pub slug_attempts : ℕ
slug_attempts = 5

-- The loop of `newSlug`; none is an index out of range, which panics.
unfoldable pub slug_of : Runes → Option Runes
slug_of [] = some []
slug_of (c ∷ bytes) = elim (get_elem? slug_alphabet (c % 32)) [
  | none ↦ none
  | some r ↦ elim (slug_of bytes) [ none ↦ none | some rest ↦ some (r ∷ rest) ]
]

abbrev pub or_failed : {A : Type 0} → Option A → Step A
or_failed none = fail failed
or_failed (some a) = pure a

-- The error that sends `CreateGroup` round again.
abbrev pub is_slug_clash : Error → Bool
is_slug_clash (unique name) = string_key.beq name "groups_slug_key"
is_slug_clash e = false

-- One turn of a retry loop: `rest` after a clash of slugs.
abbrev pub or_again : {A : Type 0} → Result A × State → Step A → Result A × State
or_again (ok a, s) rest = (ok a, s)
or_again (err e, s) rest = if is_slug_clash e then rest s else (err e, s)

module _ (w : World) where
  -- `newSlug` and `newToken`, which gives a token and its digest.
  unfoldable pub new_slug : Step Runes
  new_slug = draw w >>= λ bytes. or_failed (slug_of bytes)

  unfoldable pub new_token : Step (Runes × Runes)
  new_token = draw w >>= λ bytes. pure (bytes, w.hash bytes)

  -- The loop of `createGroupTx` over the members.
  unfoldable pub seed_members : ℕ → List NewGroupMember → Step (List GroupMember)
  seed_members group_id [] = pure []
  seed_members group_id (m ∷ ms) =
      exec w (
        create_group_member w.fresh w.now group_id none m.display_name m.tz
          (or_default m.default_role role_optional))
      >>= λ row. seed_members group_id ms >>= λ rest. pure (decode_group_member row ∷ rest)

  -- `createGroupTx` inside its transaction, from the group's row on and from the start.
  abbrev pub create_roster : NewGroup → GroupRow → Step CreatedGroup
  create_roster inp row = seed_members row.id inp.members >>= λ members.
      pure (record { group = decode_group row; members = members })

  abbrev pub create_rows : Runes → NewGroup → Step CreatedGroup
  create_rows slug inp = parse_optional inp.created_from >>= λ created_from.
      exec w (create_group w.fresh w.now slug inp.name created_from) >>= create_roster inp

  -- `createGroupTx`
  unfoldable pub create_group_tx : Runes → NewGroup → Step CreatedGroup
  create_group_tx slug inp = transaction w (create_rows slug inp)

  -- The loop of `CreateGroup`, with the attempts that are left.
  unfoldable pub create_group_loop : ℕ → NewGroup → Step CreatedGroup
  create_group_loop zero inp = fail out_of_slugs
  create_group_loop (suc left) inp =
      new_slug >>= λ slug s. or_again (create_group_tx slug inp s) (create_group_loop left inp)

  -- `CreateGroup`
  unfoldable pub create : NewGroup → Step CreatedGroup
  create inp = create_group_loop slug_attempts inp

  -- `GroupBySlug`, `GroupByID` and `GroupMembers`
  unfoldable pub group_by_slug : Runes → Step Group
  group_by_slug slug = found (exec w (get_group_by_slug slug)) >>= λ row. pure (decode_group row)

  unfoldable pub group_by_id : Option ℕ → Step Group
  group_by_id id = parse_uuid id >>= λ gid.
      found (exec w (get_group_by_id gid)) >>= λ row. pure (decode_group row)

  unfoldable pub group_members : Option ℕ → Step (List GroupMember)
  group_members id = parse_uuid id >>= λ gid.
      exec w (list_group_members gid) >>= λ rows. pure (map decode_group_member rows)

  -- `JoinGroup`
  unfoldable pub join_group : Option ℕ → NewGroupMember → Step (GroupMember × Runes)
  join_group id m = parse_uuid id >>= λ gid. new_token >>= λ token.
      exec w (
        create_group_member w.fresh w.now gid (some token.1) m.display_name m.tz
          (or_default m.default_role role_optional))
      >>= λ row. pure (decode_group_member row, token.0)

  -- `ClaimGroupMember`
  unfoldable pub claim_member : Option ℕ → Option ℕ → Step (GroupMember × Runes)
  claim_member group member = parse_uuid group >>= λ gid. parse_uuid member >>= λ mid.
      found (exec w (get_group_member_by_id mid gid)) >> new_token >>= λ token.
      exec w (claim_group_member mid token.1) >>= λ row. pure (decode_group_member row, token.0)

  -- `GroupMemberByToken`
  unfoldable pub member_by_token : Option ℕ → Runes → Step GroupMember
  member_by_token group token = parse_uuid group >>= λ gid.
      found (exec w (get_group_member_by_token gid (w.hash token))) >>= λ row.
      pure (decode_group_member row)

  abbrev insert_unless_empty : ℕ → List Interval → Step Unit
  insert_unless_empty mid [] = pure tt
  insert_unless_empty mid (b ∷ bs) =
      exec w (insert_group_member_busy_blocks w.fresh w.now mid (b ∷ bs) "ics")

  abbrev text_or_null : String → Option String
  text_or_null url = if string_key.beq url "" then none else some url

  -- `SaveGroupMemberBusyBlocks`
  unfoldable pub save_group_member_busy_blocks : Option ℕ → List Interval → String → Step Unit
  save_group_member_busy_blocks member blocks url = parse_uuid member >>= λ mid. transaction w (
      exec w (delete_group_member_busy_blocks mid)
      >> insert_unless_empty mid blocks
      >> exec w (set_group_member_calendar mid "ics" (text_or_null url)))

  -- `GroupMemberBusyBlocks`, as rows.
  unfoldable pub group_member_busy_blocks : Option ℕ → Step (List BlockRow)
  group_member_busy_blocks member =
      parse_uuid member >>= λ mid. exec w (list_group_member_busy_blocks mid)

  abbrev pub with_token : Runes × Runes → ParticipantRow → Step (ParticipantRow × Runes)
  with_token token row = pure (row, token.0)

  abbrev pub seat_for : ℕ → ℕ → Runes × Runes → MemberRow → Step ParticipantRow
  seat_for eid mid token m = exec w (
      create_participant w.fresh w.now eid token.1 m.display_name m.tz m.default_role false
        (some mid))

  -- A new seat for a member, after none was found.
  unfoldable pub new_seat : ℕ → ℕ → Runes × Runes → Step (ParticipantRow × Runes)
  new_seat eid mid token = found (exec w (get_group_member_by_id_unscoped mid)) >>= λ m.
      seat_for eid mid token m >>= with_token token

  -- What `ClaimEventSeat` makes of the seat that it looked up.
  unfoldable pub take_seat :
      ℕ
      → ℕ
      → Runes × Runes
      → Result ParticipantRow × State
      → Result (ParticipantRow × Runes) × State
  take_seat eid mid token (ok existing, s) =
      (exec w (rotate_participant_token existing.id token.1) >>= with_token token) s
  take_seat eid mid token (err no_rows, s) = new_seat eid mid token s
  take_seat eid mid token (err e, s) = (err e, s)

  abbrev pub look_up : ℕ → ℕ → Runes × Runes → Step (ParticipantRow × Runes)
  look_up eid mid token s =
      take_seat eid mid token (exec w (get_participant_by_group_member eid mid) s)

  -- `ClaimEventSeat`, with the participant's row as it is stored.
  unfoldable pub claim_event_seat : Option ℕ → Option ℕ → Step (ParticipantRow × Runes)
  claim_event_seat event member =
      parse_uuid event >>= λ eid. parse_uuid member >>= λ mid. new_token >>= look_up eid mid

  -- `LinkParticipantToGroupMember`, with the participant's row as it is stored.
  unfoldable pub link_participant : Option ℕ → Option ℕ → Step ParticipantRow
  link_participant participant member = parse_uuid participant >>= λ pid.
      parse_uuid member >>= λ mid. exec w (link_participant_to_group_member pid mid)

-- The member rows of a new group, from the participants of the event.
abbrev pub seed_of : ParticipantRow → NewGroupMember
seed_of p = record { display_name = p.display_name; tz = p.tz; default_role = p.role }

-- The first participant with the caller's id, and the first member with a name.
unfoldable pub name_of : ℕ → List ParticipantRow → String
name_of id [] = ""
name_of id (p ∷ ps) = if p.id == id then p.display_name else name_of id ps

unfoldable pub member_named : String → List GroupMember → Option GroupMember
member_named name [] = none
member_named name (m ∷ ms) =
    if string_key.beq m.display_name name then some m else member_named name ms

pub record GraduatedGroup : Type 0 where
  pub group : Group
  pub caller_member : GroupMember
  pub caller_token : Runes

module _ (w : World) where
  -- `Graduate` from the members' rows on.
  unfoldable pub claim_own : CreatedGroup → Option GroupMember → Step GraduatedGroup
  claim_own created none = fail caller_missing
  claim_own created (some m) = claim_member w (some (created.group.id)) (some m.id) >>= λ claimed.
      pure (record { group = created.group; caller_member = claimed.0; caller_token = claimed.1 })

  abbrev unless_empty : {A : Type 0} → List ParticipantRow → Step A → Step A
  unless_empty [] m = fail no_participants
  unless_empty (p ∷ ps) m = m

  -- `Graduate`
  unfoldable pub graduate : Option ℕ → String → ℕ → Step GraduatedGroup
  graduate event group_name caller = parse_uuid event >>= λ eid.
      exec w (list_participants eid) >>= λ ps. unless_empty ps (
        create w (record { name = group_name; created_from = some event; members = map seed_of ps })
        >>= λ created.
            exec w (link_event_to_group eid created.group.id)
            >> claim_own created (member_named (name_of caller ps) created.members))
