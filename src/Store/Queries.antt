-- ===== src/Store/Queries.antt =====
-- The statements of api/internal/dbgen, on the tables: each checks the keys and the constraints of
-- api/migrations that its columns are under.
use overlap.Common.{
  ℕ, String, Bool, true, false, not, ◌&&◌, ◌||◌, List, [], ◌∷◌, ◌++◌, Option, none, some, map, any,
  all, ltb, ◌==◌, if◌then◌else◌,
}
use overlap.Common.Maps.{string_key}
use overlap.Common.Sort.{sort}
use overlap.Common.Text.{Runes, codes, same_text}
use overlap.Time.{Time}
use overlap.Icsparse.{Interval}
use overlap.Store.Tables.{
  EventRow, ParticipantRow, GroupRow, MemberRow, BlockRow, failed, no_rows, unique, ok, err, Query,
  find, filter, update_rows, one_row, updated,
}

abbrev pub same_id : Option ℕ → ℕ → Bool
same_id none n = false
same_id (some m) n = m == n

abbrev pub same_hash : Option Runes → Runes → Bool
same_hash none h = false
same_hash (some g) h = same_text g h

-- `length(btrim(name)) > 0`, where `btrim` takes blanks off.
unfoldable pub is_present : String → Bool
is_present name = any (λ c. not (c == b' ')) (codes name)

unfoldable pub is_role : String → Bool
is_role role = string_key.beq role "required" || string_key.beq role "optional"

-- A reference that is null, or to a row that is there.
abbrev pub refers : {R : Type 0} → (ℕ → R → Bool) → List R → Option ℕ → Bool
refers p rows none = true
refers p rows (some id) = any (p id) rows

abbrev pub event_is : ℕ → EventRow → Bool
event_is id e = e.id == id

abbrev pub group_is : ℕ → GroupRow → Bool
group_is id g = g.id == id

abbrev pub member_is : ℕ → MemberRow → Bool
member_is id m = m.id == id

abbrev pub participant_is : ℕ → ParticipantRow → Bool
participant_is id p = p.id == id

-- The unique index on (event_id, group_member_id), where the second is not null.
abbrev pub seat_taken : ℕ → Option ℕ → List ParticipantRow → Bool
seat_taken event_id none rows = false
seat_taken event_id (some m) rows =
    any (λ p. p.event_id == event_id && same_id p.group_member_id m) rows

-- The unique index on (group_id, token_hash), where the second is not null.
abbrev pub token_taken : ℕ → Option Runes → List MemberRow → Bool
token_taken group_id none rows = false
token_taken group_id (some h) rows =
    any (λ m. m.group_id == group_id && same_hash m.token_hash h) rows

abbrev pub block : ℕ → String → Time → Interval → BlockRow
block member_id source fetched i = record {
  member_id = member_id;
  start_ts = i.start;
  end_ts = i.end;
  source = source;
  fetched_at = fetched;
}

-- The order by a time and then by id.
abbrev pub joined_before : MemberRow → MemberRow → Bool
joined_before a b = ltb a.joined_at b.joined_at || (a.joined_at == b.joined_at && ltb a.id b.id)

abbrev pub created_before : ParticipantRow → ParticipantRow → Bool
created_before a b =
    ltb a.created_at b.created_at || (a.created_at == b.created_at && ltb a.id b.id)

module _ (fresh : ℕ → ℕ) (now : ℕ → Time) where
  -- `CreateGroup`
  unfoldable pub create_group : Runes → String → Option ℕ → Query GroupRow
  create_group slug name created_from n db =
      let row : GroupRow = record {
        id = fresh n;
        slug = slug;
        name = name;
        created_from = created_from;
        created_at = now n;
      } in
      if any (λ g. same_text g.slug slug) db.groups
      then (err (unique "groups_slug_key"), db)
      else (if is_present name && refers event_is db.events created_from
          then (ok row, record db { groups = db.groups ++ row ∷ [] })
          else (err failed, db))

  -- `CreateGroupMember`
  unfoldable pub create_group_member : ℕ → Option Runes → String → String → String → Query MemberRow
  create_group_member group_id token_hash name tz role n db =
      let row : MemberRow = record {
        id = fresh n;
        group_id = group_id;
        token_hash = token_hash;
        display_name = name;
        tz = tz;
        default_role = role;
        calendar_source = "none";
        calendar_url = none;
        joined_at = now n;
      } in
      if token_taken group_id token_hash db.members
      then (err (unique "group_members_group_token_idx"), db)
      else (if is_present name && is_role role && any (group_is group_id) db.groups
          then (ok row, record db { members = db.members ++ row ∷ [] })
          else (err failed, db))

  -- `CreateParticipant`, and `CreateParticipantFromGroupMember` for a member.
  unfoldable pub create_participant :
      ℕ → Runes → String → String → String → Bool → Option ℕ → Query ParticipantRow
  create_participant event_id token_hash name tz role is_organizer member n db =
      let row : ParticipantRow = record {
        id = fresh n;
        event_id = event_id;
        token_hash = token_hash;
        display_name = name;
        tz = tz;
        role = role;
        email = none;
        calendar_source = "none";
        is_organizer = is_organizer;
        responded_at = none;
        created_at = now n;
        calendar_url = none;
        group_member_id = member;
      } in
      if any (λ p. p.event_id == event_id && same_text p.token_hash token_hash) db.participants
      then (err (unique "participants_event_token_idx"), db)
      else (if seat_taken event_id member db.participants
          then (err (unique "participants_event_group_member_idx"), db)
          else (if is_present name
                && is_role role
                && any (event_is event_id) db.events
                && refers member_is db.members member
              then (ok row, record db { participants = db.participants ++ row ∷ [] })
              else (err failed, db)))

  -- `InsertGroupMemberBusyBlocks`
  unfoldable pub insert_group_member_busy_blocks : ℕ → List Interval → String → Query Unit
  insert_group_member_busy_blocks member_id spans source n db =
      let rows = map (λ i. block member_id source (now n) i) spans in
      if any (member_is member_id) db.members
        && all (λ i. ltb i.start i.end) spans
        && string_key.beq source "ics"
      then (ok tt, record db { blocks = db.blocks ++ rows })
      else (err failed, db)

-- `GetGroupBySlug` and `GetGroupByID`
unfoldable pub get_group_by_slug : Runes → Query GroupRow
get_group_by_slug slug n db = (one_row (find (λ g. same_text g.slug slug) db.groups), db)

unfoldable pub get_group_by_id : ℕ → Query GroupRow
get_group_by_id id n db = (one_row (find (group_is id) db.groups), db)

-- `GetGroupMemberByToken`, `GetGroupMemberByID` and `GetGroupMemberByIDUnscoped`
unfoldable pub get_group_member_by_token : ℕ → Runes → Query MemberRow
get_group_member_by_token group_id h n db =
    (one_row (find (λ m. m.group_id == group_id && same_hash m.token_hash h) db.members), db)

unfoldable pub get_group_member_by_id : ℕ → ℕ → Query MemberRow
get_group_member_by_id id group_id n db =
    (one_row (find (λ m. m.id == id && m.group_id == group_id) db.members), db)

unfoldable pub get_group_member_by_id_unscoped : ℕ → Query MemberRow
get_group_member_by_id_unscoped id n db = (one_row (find (member_is id) db.members), db)

-- `ClaimGroupMember`: a token of another member of the same group is refused.
unfoldable pub claim_group_member : ℕ → Runes → Query MemberRow
claim_group_member id h n db =
    let claim = λ (m : MemberRow). record m { token_hash = some h } in
    elim (find (member_is id) db.members) [
      | none ↦ (err no_rows, db)
      | some row ↦
          if any (λ m. not (m.id == id) && (m.group_id == row.group_id && same_hash m.token_hash h))
            db.members
          then (err (unique "group_members_group_token_idx"), db)
          else (ok (claim row), record db { members = update_rows (member_is id) claim db.members })
    ]

-- `ListGroupMembers`: order by joined_at, id
unfoldable pub list_group_members : ℕ → Query (List MemberRow)
list_group_members group_id n db =
    (ok (sort joined_before (filter (λ m. m.group_id == group_id) db.members)), db)

-- `SetGroupMemberCalendar`
unfoldable pub set_group_member_calendar : ℕ → String → Option String → Query Unit
set_group_member_calendar id source url n db =
    let set = λ (m : MemberRow). record m { calendar_source = source; calendar_url = url } in
    if any (member_is id) db.members
      && not (string_key.beq source "none" || string_key.beq source "ics")
    then (err failed, db)
    else (ok tt, record db { members = update_rows (member_is id) set db.members })

-- `DeleteGroupMemberBusyBlocks`
unfoldable pub delete_group_member_busy_blocks : ℕ → Query Unit
delete_group_member_busy_blocks id n db =
    (ok tt, record db { blocks = filter (λ b. not (b.member_id == id)) db.blocks })

-- `ListGroupMemberBusyBlocks`: order by start_ts
unfoldable pub list_group_member_busy_blocks : ℕ → Query (List BlockRow)
list_group_member_busy_blocks id n db =
    (ok (sort (λ a b. ltb a.start_ts b.start_ts) (filter (λ b. b.member_id == id) db.blocks)), db)

-- `ListGroupEvents`: order by created_at desc
unfoldable pub list_group_events : ℕ → Query (List EventRow)
list_group_events id n db = (
  ok (sort (λ a b. ltb b.created_at a.created_at) (filter (λ e. same_id e.group_id id) db.events)),
  db,
)

-- `GetParticipantByGroupMember`
unfoldable pub get_participant_by_group_member : ℕ → ℕ → Query ParticipantRow
get_participant_by_group_member event_id member n db = (
  one_row (find (λ p. p.event_id == event_id && same_id p.group_member_id member) db.participants),
  db,
)

-- `RotateParticipantToken`
unfoldable pub rotate_participant_token : ℕ → Runes → Query ParticipantRow
rotate_participant_token id h n db =
    let rotate = λ (p : ParticipantRow). record p { token_hash = h } in
    elim (find (participant_is id) db.participants) [
      | none ↦ (err no_rows, db)
      | some row ↦
          if any (λ p. not (p.id == id) && (p.event_id == row.event_id && same_text p.token_hash h))
            db.participants
          then (err (unique "participants_event_token_idx"), db)
          else (
            ok (rotate row),
            record db { participants = update_rows (participant_is id) rotate db.participants },
          )
    ]

-- `LinkParticipantToGroupMember`
unfoldable pub link_participant_to_group_member : ℕ → ℕ → Query ParticipantRow
link_participant_to_group_member id member n db =
    let link = λ (p : ParticipantRow). record p { group_member_id = some member } in
    elim (find (participant_is id) db.participants) [
      | none ↦ (err no_rows, db)
      | some row ↦
          if seat_taken row.event_id (some member)
            (filter (λ p. not (participant_is id p)) db.participants)
          then (err (unique "participants_event_group_member_idx"), db)
          else (if any (member_is member) db.members
              then (
                ok (link row),
                record db { participants = update_rows (participant_is id) link db.participants },
              )
              else (err failed, db))
    ]

-- `LinkEventToGroup`
unfoldable pub link_event_to_group : ℕ → ℕ → Query EventRow
link_event_to_group id group_id n db =
    let link = λ (e : EventRow). record e { group_id = some group_id } in
    if any (group_is group_id) db.groups
    then (
      updated link (find (event_is id) db.events),
      record db { events = update_rows (event_is id) link db.events },
    )
    else (elim (find (event_is id) db.events) [
      | none ↦ (err no_rows, db)
      | some e ↦ (err failed, db)
    ])

-- `ListParticipants`: order by created_at, id
unfoldable pub list_participants : ℕ → Query (List ParticipantRow)
list_participants event_id n db =
    (ok (sort created_before (filter (λ p. p.event_id == event_id) db.participants)), db)

-- `GetParticipantByToken`
unfoldable pub get_participant_by_token : ℕ → Runes → Query ParticipantRow
get_participant_by_token event_id h n db =
    (one_row (find (λ p. p.event_id == event_id && same_text p.token_hash h) db.participants), db)
