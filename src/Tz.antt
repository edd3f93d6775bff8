-- ===== src/Tz.antt =====
-- api/internal/tz/tz.go: zone names from requests, resolved through a memo of loaded locations.
use overlap.Common.{
  ◌≡◌, refl, sym, String, Bool, true, false, ◌||◌, List, [], ◌∷◌, Option, none, some, arith,
  if◌then◌else◌, is_some, Bool-cases, Option-cases, inl, inr,
}
use overlap.Common.Maps.{string_key, lookup, insert, lookup-insert}
use overlap.Time.{Location}

-- `time.LoadLocation` over the zone database, which is no part of the repository.
abbrev pub ZoneDb : Type 0
ZoneDb = String → Option Location

-- The memo that `cache` holds.
abbrev pub ZoneCache : Type 0
ZoneCache = List (String × Location)

-- `Load`; every failure is `ErrUnknownZone`, here `none`.
unfoldable pub load : ZoneDb → ZoneCache → String → Option Location × ZoneCache
load db cache name =
    if string_key.beq name ""
    then (none, cache)
    else (if string_key.beq name "Local" then (none, cache) else elim (lookup cache name) [
      | some loc ↦ (some loc, cache)
      | none ↦ elim (db name) [
        | none ↦ (none, cache)
        | some loc ↦ (some loc, insert cache name loc)
      ]
    ])

-- `Valid`
unfoldable pub valid : ZoneDb → ZoneCache → String → Bool × ZoneCache
valid db cache name = let r = load db cache name in (is_some r.0, r.1)

-- The loop of `Available`, over the canary zones that are left.
unfoldable pub available_loop : ZoneDb → ZoneCache → List String → Bool × ZoneCache
available_loop db cache [] = (true, cache)
available_loop db cache (c ∷ rest) =
    let r = load db cache c in
    let next = available_loop db r.1 rest in if is_some r.0 then next else (false, r.1)

-- `Available`
unfoldable pub available : ZoneDb → ZoneCache → Bool × ZoneCache
unfolding available_loop
available db cache =
    available_loop db cache ("America/New_York" ∷ "Europe/London" ∷ "Australia/Sydney" ∷ [])

-- What a name means: what the database says of it, except that no zone is left to the server and
-- none to a missing field.
unfoldable pub resolve : ZoneDb → String → Option Location
resolve db name = if string_key.beq name "Local" || string_key.beq name "" then none else db name

-- Each memoised zone is the database's.
abbrev pub IsCoherent : ZoneDb → ZoneCache → Type 0
IsCoherent db cache =
    (name : String) (loc : Location) → lookup cache name ≡ some loc → db name ≡ some loc

insert-IsCoherent :
    (db : ZoneDb) (cache : ZoneCache) (name : String) (loc : Location)
    → IsCoherent db cache
    → db name ≡ some loc
    → IsCoherent db (insert cache name loc)
insert-IsCoherent db cache name loc h e j l =
    rw (lookup-insert cache name loc j) (elim (Bool-cases (string_key.beq name j)) [
      | inl same ↦ λ q. ground (arith, (string_key.beq_iff name j).0 same)
      | inr other ↦ rw other (h j l)
    ])

-- The memo never shows: over a memo that agrees with the zone database `Load` returns what the
-- database says of the name, nothing for the empty name and for `Local` even where the database and
-- the memo have them, and leaves a memo that agrees with the database.
pub load-resolve :
    (db : ZoneDb) (cache : ZoneCache) (name : String)
    → IsCoherent db cache
    → ((load db cache name).0 ≡ resolve db name) × IsCoherent db (load db cache name).1
unfolding load resolve
load-resolve db cache name h =
    let empty = Bool-cases (string_key.beq name "") in
    let local = Bool-cases (string_key.beq name "Local") in
    elim empty [
      | inl a ↦ elim local [
        | inl b ↦ rw (a, b, load, resolve) (refl, h)
        | inr b ↦ rw (a, b, load, resolve) (refl, h)
      ]
      | inr a ↦ elim local [
        | inl b ↦ rw (a, b, load, resolve) (refl, h)
        | inr b ↦ elim (Option-cases (lookup cache name)) [
          | inr (loc, hit) ↦ rw (a, b, hit, load, resolve) (sym (h name loc hit), h)
          | inl miss ↦ elim (Option-cases (db name)) [
            | inl gone ↦ rw (a, b, miss, load, gone, resolve) (refl, h)
            | inr (loc, found) ↦
                rw (a, b, miss, load, found, resolve)
                  (refl, insert-IsCoherent db cache name loc h found)
          ]
        ]
      ]
    ]
