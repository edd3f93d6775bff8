-- ===== src/Fetchguard/Ranges.antt =====
-- `IsPublic` of api/internal/fetchguard/fetchguard.go, as intervals of addresses.
use overlap.Common.{ℕ, Bool, ◌&&◌, ◌||◌, List, [], ◌∷◌, any, leb, ◌==◌}
use overlap.Fetchguard.{ip4}

-- Ranges of IPv4 with a special meaning, as their first and last addresses: those that `IsPublic`
-- has in full, and then the other two.
abbrev closed_late : List (ℕ × ℕ)
closed_late =
    (ip4 169 254 0 0, ip4 169 254 255 255)
    ∷ (ip4 224 0 0 0, ip4 239 255 255 255)
    ∷ (ip4 100 64 0 0, ip4 100 127 255 255)
    ∷ (ip4 192 0 0 0, ip4 192 0 0 255)
    ∷ (ip4 192 0 2 0, ip4 192 0 2 255)
    ∷ (ip4 198 18 0 0, ip4 198 19 255 255)
    ∷ (ip4 198 51 100 0, ip4 198 51 100 255)
    ∷ (ip4 203 0 113 0, ip4 203 0 113 255)
    ∷ (ip4 240 0 0 0, ip4 255 255 255 255)
    ∷ []

abbrev closed_whole : List (ℕ × ℕ)
closed_whole =
    (ip4 127 0 0 0, ip4 127 255 255 255)
    ∷ (ip4 10 0 0 0, ip4 10 255 255 255)
    ∷ (ip4 172 16 0 0, ip4 172 31 255 255)
    ∷ (ip4 192 168 0 0, ip4 192 168 255 255)
    ∷ closed_late

-- The order of the tests.
abbrev closed_tested : List (ℕ × ℕ)
closed_tested =
    (ip4 127 0 0 0, ip4 127 255 255 255)
    ∷ (ip4 10 0 0 0, ip4 10 255 255 255)
    ∷ (ip4 172 16 0 0, ip4 172 31 255 255)
    ∷ (ip4 192 168 0 0, ip4 192 168 255 255)
    ∷ (0, 0)
    ∷ closed_late

abbrev within : ℕ → ℕ × ℕ → Bool
within n r = leb r.0 n && leb n r.1

-- Whether an address of IPv4 has a special meaning: it is of no host on the public internet.
abbrev pub has_special_meaning : ℕ → Bool
has_special_meaning n =
    within n (ip4 0 0 0 0, ip4 0 255 255 255)
    || within n (ip4 192 88 99 0, ip4 192 88 99 255)
    || any (within n) closed_whole

-- The special addresses that are let through: "this network" but for the unspecified address, and
-- the relays of 6to4.
abbrev pub is_let_through : ℕ → Bool
is_let_through n =
    within n (ip4 0 0 0 1, ip4 0 255 255 255) || within n (ip4 192 88 99 0, ip4 192 88 99 255)

-- What is closed.
abbrev is_closed : ℕ → Bool
is_closed n = n == 0 || any (within n) closed_whole
