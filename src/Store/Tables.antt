-- ===== src/Store/Tables.antt =====
-- The tables behind api/internal/store, and a statement as a step on them. A UUID is a number. What the
-- database and the random source hand over is a parameter, and any statement may fail.
pub mod Steps
use overlap.Common.{
  ℕ, ◌+◌, ◌≡◌, String, Bool, true, false, not, ◌&&◌, ◌||◌, List, [], ◌∷◌, ◌++◌, Option, none, some,
  if◌then◌else◌,
}
use overlap.Common.Text.{Runes}
use overlap.Time.{Time}
use overlap.Time.Calendar.{Date}

pub record EventRow : Type 0 where
  pub id : ℕ
  pub slug : Runes
  pub title : Runes
  pub organizer_tz : String
  pub window_start : Date
  pub window_end : Date
  -- Microseconds since midnight.
  pub day_start : ℕ
  pub day_end : ℕ
  pub slot_minutes : ℕ
  pub status : String
  pub decided_slot_start : Option Time
  pub decided_at : Option Time
  pub group_id : Option ℕ
  pub created_at : Time
  pub expires_at : Time

pub record ParticipantRow : Type 0 where
  pub id : ℕ
  pub event_id : ℕ
  pub token_hash : Runes
  pub display_name : String
  pub tz : String
  pub role : String
  pub email : Option String
  pub calendar_source : String
  pub is_organizer : Bool
  pub responded_at : Option Time
  pub created_at : Time
  pub calendar_url : Option String
  pub group_member_id : Option ℕ

pub record GroupRow : Type 0 where
  pub id : ℕ
  pub slug : Runes
  pub name : String
  pub created_from : Option ℕ
  pub created_at : Time

pub record MemberRow : Type 0 where
  pub id : ℕ
  pub group_id : ℕ
  pub token_hash : Option Runes
  pub display_name : String
  pub tz : String
  pub default_role : String
  pub calendar_source : String
  pub calendar_url : Option String
  pub joined_at : Time

-- The id of a block is never read.
pub record BlockRow : Type 0 where
  pub member_id : ℕ
  pub start_ts : Time
  pub end_ts : Time
  pub source : String
  pub fetched_at : Time

pub record Db : Type 0 where
  pub events : List EventRow
  pub participants : List ParticipantRow
  pub groups : List GroupRow
  pub members : List MemberRow
  pub blocks : List BlockRow

-- `no_rows` is `pgx.ErrNoRows`, `unique` a violated unique index by its name, and `failed` any other
-- error of a statement or of the random source.
pub data Error : Type 0 where
  not_found no_rows failed out_of_slugs no_participants caller_missing : Error
  unique : String → Error

pub data Result (A : Type 0) : Type 0 where
  ok : A → Result A
  err : Error → Result A

-- What the n-th statement or draw meets: whether it fails, the id and the random bytes that it gets,
-- and the clock; and the digest of a token.
pub record World : Type 0 where
  pub fails : ℕ → Bool
  pub fresh : ℕ → ℕ
  pub random : ℕ → Option Runes
  pub now : ℕ → Time
  pub hash : Runes → Runes

pub record State : Type 0 where
  pub db : Db
  pub calls : ℕ

abbrev pub Step : Type 0 → Type 0
Step A = State → Result A × State

abbrev pub next : {A : Type 0} {B : Type 0} → Result A × State → (A → Step B) → Result B × State
next (ok a, s) f = f a s
next (err e, s) f = (err e, s)

infixl 5 ◌>>=◌ ◌>>◌
abbrev pub ◌>>=◌ : {A : Type 0} {B : Type 0} → Step A → (A → Step B) → Step B
(m >>= f) s = next (m s) f

abbrev pub ◌>>◌ : {A : Type 0} {B : Type 0} → Step A → Step B → Step B
m >> k = m >>= λ a. k

abbrev pub pure : {A : Type 0} → A → Step A
pure a s = (ok a, s)

abbrev pub fail : {A : Type 0} → Error → Step A
fail e s = (err e, s)

-- A statement, given the number of its call.
abbrev pub Query : Type 0 → Type 0
Query A = ℕ → Db → Result A × Db

abbrev pub put : {A : Type 0} → State → Result A × Db → Result A × State
put s (r, db) = (r, record { db = db; calls = s.calls + 1 })

abbrev pub tick : State → State
tick s = record s { calls = s.calls + 1 }

-- The rows before a step.
abbrev pub back : State → State → State
back before s = record s { db = before.db }

module _ (w : World) where
  unfoldable pub exec : {A : Type 0} → Query A → Step A
  exec q s = if w.fails s.calls then (err failed, tick s) else put s (q s.calls s.db)

  -- `Commit`, or the deferred `Rollback`.
  unfoldable pub finish : {A : Type 0} → State → Result A × State → Result A × State
  finish before (err e, s) = (err e, back before s)
  finish before (ok a, s) =
      if w.fails s.calls then (err failed, back before (tick s)) else (ok a, tick s)

  -- A step between `pool.Begin` and `tx.Commit`.
  unfoldable pub transaction : {A : Type 0} → Step A → Step A
  unfolding finish
  transaction m s =
      let r = finish s (m (tick s)) in if w.fails s.calls then (err failed, tick s) else r

  -- `rand.Read`
  unfoldable pub draw : Step Runes
  draw s = elim (w.random s.calls) [ none ↦ (err failed, tick s) | some bytes ↦ (ok bytes, tick s) ]

-- `errors.Is(err, pgx.ErrNoRows)`, which becomes `ErrNotFound`.
abbrev pub or_not_found : {A : Type 0} → Result A → Result A
or_not_found (ok a) = ok a
or_not_found (err no_rows) = err not_found
or_not_found (err not_found) = err not_found
or_not_found (err failed) = err failed
or_not_found (err out_of_slugs) = err out_of_slugs
or_not_found (err no_participants) = err no_participants
or_not_found (err caller_missing) = err caller_missing
or_not_found (err (unique name)) = err (unique name)

abbrev pub found : {A : Type 0} → Step A → Step A
found m s = (or_not_found (m s).0, (m s).1)

module _ {R : Type 0} where
  abbrev pub find : (R → Bool) → List R → Option R
  find p [] = none
  find p (r ∷ rs) = if p r then some r else find p rs

  abbrev pub filter : (R → Bool) → List R → List R
  filter p [] = []
  filter p (r ∷ rs) = let rest = filter p rs in if p r then r ∷ rest else rest

  -- The rows after `update … where`.
  abbrev pub update_rows : (R → Bool) → (R → R) → List R → List R
  update_rows p f [] = []
  update_rows p f (r ∷ rs) = (if p r then f r else r) ∷ update_rows p f rs

  -- The one row of a `select`.
  abbrev pub one_row : Option R → Result R
  one_row none = err no_rows
  one_row (some r) = ok r

  -- The row that `update … where … returning` gives, where one can match.
  abbrev pub updated : (R → R) → Option R → Result R
  updated f none = err no_rows
  updated f (some r) = ok (f r)
