-- ===== src/Store/Tests.antt =====
-- Runs of api/internal/store/groups.go, and instances of its theorems.
use overlap.Common.{ℕ, ◌+◌, ◌≡◌, ◌↔◌, refl, true, false, map, [], ◌∷◌, none, some, length, All}
use overlap.Common.Sort.{sort}
use overlap.Common.Text.{Runes, codes}
use overlap.Store.Tables.{
  EventRow, ParticipantRow, Result, ok, err, World, State, exec, unique, finish, transaction, draw,
}
use overlap.Store.Tables.Steps.{Done}
use overlap.Store.Queries.{
  is_present, is_role, create_group, create_group_member, create_participant,
  get_group_member_by_id, get_group_member_by_id_unscoped, get_group_member_by_token,
  claim_group_member, get_participant_by_group_member, rotate_participant_token,
  link_event_to_group, list_participants, link_participant_to_group_member,
}
use overlap.Store.Groups.{
  NewGroup, GraduatedGroup, decode_group, decode_group_member, or_default, slug_of, new_slug,
  new_token, seed_members, create_group_tx, create_group_loop, create, claim_member,
  member_by_token, new_seat, take_seat, claim_event_seat, name_of, member_named, claim_own,
  graduate, link_participant,
}
use overlap.Store.Groups.Slugs.{is_legible, low, slug_of-IsSlug}
use overlap.Store.Groups.Seats.{seat, claim_event_seat-IsStable}
use overlap.Store.Groups.Rosters.{Created, create-Done}

store_open : ℕ
unfolding exec finish transaction draw is_present is_role create_group create_group_member
    create_participant get_group_member_by_id get_group_member_by_id_unscoped
    get_group_member_by_token claim_group_member get_participant_by_group_member
    rotate_participant_token link_event_to_group list_participants decode_group decode_group_member
    or_default slug_of new_slug new_token seed_members create_group_tx create_group_loop create
    claim_member member_by_token new_seat take_seat claim_event_seat link_participant
    link_participant_to_group_member name_of member_named claim_own graduate sort
store_open = 0

-- Every statement succeeds, ids and tokens follow the count of calls, and a token is its own digest.
abbrev calm : World
calm = record {
  fails = λ n. false;
  fresh = λ n. 100 + n;
  random = λ n. some (n ∷ []);
  now = λ n. n;
  hash = λ raw. raw;
}

abbrev lunch : EventRow
lunch = record {
  id = 1;
  slug = codes "abc";
  title = codes "Lunch";
  organizer_tz = "UTC";
  window_start = record { year = 1970; month = 1; day = 1 };
  window_end = record { year = 1970; month = 1; day = 2 };
  day_start = 0;
  day_end = 1;
  slot_minutes = 30;
  status = "open";
  decided_slot_start = none;
  decided_at = none;
  group_id = none;
  created_at = 0;
  expires_at = 9;
}

abbrev sam : ℕ → ParticipantRow
sam id = record {
  id = id;
  event_id = 1;
  token_hash = id ∷ [];
  display_name = "Sam";
  tz = "UTC";
  role = "required";
  email = none;
  calendar_source = "none";
  is_organizer = false;
  responded_at = none;
  created_at = 0;
  calendar_url = none;
  group_member_id = none;
}

-- Two people of the same name answer.
abbrev start : State
start = record {
  db = record {
    events = lunch ∷ [];
    participants = sam 7 ∷ sam 8 ∷ [];
    groups = [];
    members = [];
    blocks = [];
  };
  calls = 0;
}

abbrev team : NewGroup
team = record {
  name = "Team";
  created_from = some (some 1);
  members = record { display_name = "Ann"; tz = "UTC"; default_role = "" } ∷ [];
}

abbrev after : State
after = (create calm team start).1

abbrev id_of : Result GraduatedGroup → ℕ
id_of (ok g) = g.caller_member.id
id_of (err e) = 0

-- Whichever of the two graduates the event, the token goes to the member made from the first.
namesakes :
    (id_of (graduate calm (some 1) "Team" 7 start).0 ≡ 104)
    × (id_of (graduate calm (some 1) "Team" 8 start).0 ≡ 104)
unfolding store_open
namesakes = (refl, refl)

slug_of-IsSlug_example :
    ((slug : Runes) × (slug_of (0 ∷ 255 ∷ []) ≡ some slug)
      × (length slug ≡ 2)
      × All (λ c. is_legible c ≡ true) slug)
    × ((slug_of (0 ∷ 255 ∷ []) ≡ slug_of (32 ∷ 31 ∷ []))
        ↔ (map low (0 ∷ 255 ∷ []) ≡ map low (32 ∷ 31 ∷ [])))
slug_of-IsSlug_example = slug_of-IsSlug (0 ∷ 255 ∷ []) (32 ∷ 31 ∷ [])

create-Done_example : Done (Created team start.db) start.db (create calm team start)
create-Done_example = create-Done calm team start

abbrev claim : State → Result (ParticipantRow × Runes) × State
claim s = claim_event_seat calm (some 1) (some 103) s

abbrev row_of : Result (ParticipantRow × Runes) → ParticipantRow
row_of (ok (row, raw)) = row
row_of (err e) = sam 0

abbrev raw_of : Result (ParticipantRow × Runes) → Runes
raw_of (ok (row, raw)) = raw
raw_of (err e) = []

first_claim : claim after ≡ (ok (row_of (claim after).0, raw_of (claim after).0), (claim after).1)
unfolding store_open
first_claim = refl

second_claim : claim (claim after).1 ≡ (
  ok (row_of (claim (claim after).1).0, raw_of (claim (claim after).1).0),
  (claim (claim after).1).1,
)
unfolding store_open
second_claim = refl

claim_event_seat-IsStable_example :
    ((row_of (claim (claim after).1).0).id ≡ (row_of (claim after).0).id)
    × (length (claim (claim after).1).1.db.participants ≡ length (claim after).1.db.participants)
    × (calm.random (claim after).1.calls ≡ some (raw_of (claim (claim after).1).0))
    × ((r : ParticipantRow) × (seat 1 103 (claim (claim after).1).1.db ≡ some r)
        × (r.id ≡ (row_of (claim after).0).id)
        × (r.token_hash ≡ calm.hash (raw_of (claim (claim after).1).0)))
claim_event_seat-IsStable_example =
    claim_event_seat-IsStable calm 1 103 after (claim after).1 (claim (claim after).1).1
      (row_of (claim after).0) (row_of (claim (claim after).1).0) (raw_of (claim after).0)
      (raw_of (claim (claim after).1).0) first_claim second_claim

-- A seat that is linked to a member is the one that the member claims.
linked : row_of (claim (link_participant calm (some 7) (some 103) after).1).0 ≡ record (sam 7) {
  token_hash = (row_of (claim (link_participant calm (some 7) (some 103) after).1).0).token_hash;
  group_member_id = some 103;
}
unfolding store_open
linked = refl

-- A member has one seat in an event.
linked_twice :
    (link_participant calm
      (some 8)
      (some 103)
      (link_participant calm (some 7) (some 103) after).1).0
    ≡ err (unique "participants_event_group_member_idx")
unfolding store_open
linked_twice = refl
