-- ===== src/Server.antt =====
-- What api/internal/server makes of the bodies of requests: events.go and responses.go, after decoding.
pub mod Events
pub mod Answers
mod Tests
use overlap.Common.{
  ℕ, ◌+◌, ◌-◌, ◌*◌, ◌^◌, ◌≡◌, refl, String, Bool, true, false, not, ◌&&◌, ◌||◌, List, [], ◌∷◌,
  Option, none, some, length, all, ltb, leb, ◌==◌, if◌then◌else◌, is_some, arith,
}
use overlap.Common.Int.{ℤ, pos, negsuc, sub_ℕ, ltb_ℤ}
use overlap.Common.Maps.{string_key}
use overlap.Common.Text.{Runes, codes, same_text, cut, trim_space, is_digit}
use overlap.Time.Calendar.{Date, days_in}
use overlap.Icsparse.Moments.{number, take_number, four, field}
use overlap.Slots.{TimeOfDay}
use overlap.Solver.{Tier, tier_no, tier_if_needed, tier_ok, tier_preferred}
use overlap.Store.{role_optional, role_required}
use overlap.Tz.{ZoneDb, resolve}

-- Why a body is refused, one case for a message.
pub data Failure : Type 0 where
  title_missing title_long bad_zone date_missing bad_date bad_time bad_hour bad_minute : Failure
  after_midnight bad_slot_minutes name_missing name_long bad_role : Failure
  bad_block unknown_tier no_such_slot : Failure

pub data Result (A : Type 0) : Type 0 where
  ok : A → Result A
  err : Failure → Result A

infixl 5 ◌>>=◌ ◌>>◌
abbrev pub ◌>>=◌ : {A : Type 0} {B : Type 0} → Result A → (A → Result B) → Result B
ok a >>= f = f a
err e >>= f = err e

abbrev pub ◌>>◌ : {B : Type 0} → Result (Unit {0}) → Result B → Result B
m >> k = m >>= λ u. k

-- An early return with an error.
abbrev pub guard : Bool → Failure → Result (Unit {0})
guard true e = ok tt
guard false e = err e

abbrev pub or_err : {A : Type 0} → Failure → Option A → Result A
or_err e none = err e
or_err e (some a) = ok a

pub >>=-ok :
    {A : Type 0} {B : Type 0} (m : Result A) (f : A → Result B) (b : B)
    → (m >>= f) ≡ ok b
    → (a : A) × (m ≡ ok a) × (f a ≡ ok b)
>>=-ok (ok a) f b h = (a, refl, h)
>>=-ok (err e) f b h = absurd (cc)

pub guard-ok :
    {B : Type 0} (t : Bool) (e : Failure) (k : Result B) (b : B)
    → (guard t e >> k) ≡ ok b
    → (t ≡ true) × (k ≡ ok b)
guard-ok true e k b h = (refl, h)
guard-ok false e k b h = absurd (cc)

abbrev pub max_title_runes : ℕ
max_title_runes = 120

abbrev pub max_name_runes : ℕ
max_name_runes = 60

pub or_err-ok : {A : Type 0} (e : Failure) (m : Option A) (a : A) → or_err e m ≡ ok a → m ≡ some a
or_err-ok e none a h = absurd (cc)
or_err-ok e (some b) a h = ground arith

-- `tz.Valid`, by what a name means.
abbrev pub is_zone : ZoneDb → String → Bool
is_zone db name = is_some (resolve db name)

abbrev unsigned : ℕ → Runes → Option ℕ
unsigned most [] = none
unsigned most (c ∷ cs) =
    let n = number (c ∷ cs) in if all is_digit (c ∷ cs) && leb n most then some n else none

abbrev signed : (ℕ → ℤ) → Option ℕ → Option ℤ
signed f none = none
signed f (some n) = some (f n)

-- `strconv.Atoi`; `none` is its error.
unfoldable pub atoi : Runes → Option ℤ
atoi [] = none
atoi (c ∷ cs) =
    if c == b'-'
    then signed (sub_ℕ 0) (unsigned (2 ^ 63) cs)
    else signed pos (unsigned (2 ^ 63 - 1) (if c == b'+' then cs else c ∷ cs))

-- The text after one rune that has to come first.
abbrev pub after_rune : ℕ → Runes → Option Runes
after_rune c [] = none
after_rune c (d ∷ ds) = if d == c then some ds else none

abbrev whole_date : ℕ → ℕ → Option (ℕ × Runes) → Option Date
whole_date y m none = none
whole_date y m (some (d, [])) = some (record { year = y; month = m; day = d })
whole_date y m (some (d, c ∷ cs)) = none

abbrev day_of : ℕ → ℕ → Option Runes → Option Date
day_of y m none = none
day_of y m (some s) = whole_date y m (field 1 (days_in y m) s)

abbrev month_of : ℕ → Option (ℕ × Runes) → Option Date
month_of y none = none
month_of y (some (m, s)) = day_of y m (after_rune b'-' s)

abbrev year_of : Option (ℕ × Runes) → Option Date
year_of none = none
year_of (some (y, s)) = elim (after_rune b'-' s) [
  | none ↦ none
  | some t ↦ month_of y (field 1 12 t)
]

-- `parseDate`, with `time.Parse` for the layout `2006-01-02`.
unfoldable pub parse_date : Runes → Result Date
parse_date [] = err date_missing
parse_date (c ∷ cs) = or_err bad_date (year_of (take_number four 0 (c ∷ cs)))

abbrev natural : Failure → ℤ → Result ℕ
natural e (pos n) = ok n
natural e (negsuc n) = err e

-- The tests of `parseTimeOfDayOr` on the two numbers.
unfoldable pub time_of : ℤ → ℤ → Result TimeOfDay
time_of h m = natural bad_hour h >>= λ hour.
    guard (leb hour 24) bad_hour
    >> (natural bad_minute m >>= λ minute.
        guard (leb minute 59) bad_minute
        >> (guard (not (hour == 24 && not (minute == 0))) after_midnight
            >> ok (record { hour = hour; minute = minute })))

-- `parseTimeOfDayOr`
unfoldable pub parse_time_of_day_or : Runes → TimeOfDay → Result TimeOfDay
parse_time_of_day_or [] default = ok default
parse_time_of_day_or (c ∷ cs) default = or_err bad_time (cut b':' (c ∷ cs)) >>= λ p.
    or_err bad_time (atoi p.0) >>= λ h. or_err bad_time (atoi p.1) >>= λ m. time_of h m

-- `Tier.String` and `parseTier`
unfoldable pub tier_string : Tier → String
tier_string tier_preferred = "preferred"
tier_string tier_ok = "ok"
tier_string tier_if_needed = "if_needed"
tier_string tier_no = "no"

unfoldable pub parse_tier : String → Result Tier
parse_tier s =
    if string_key.beq s "preferred"
    then ok tier_preferred
    else (if string_key.beq s "ok"
        then ok tier_ok
        else (if string_key.beq s "if_needed"
            then ok tier_if_needed
            else (if string_key.beq s "no" then ok tier_no else err unknown_tier)))
