-- ===== src/Fetchguard/Tests.antt =====
-- Runs of api/internal/fetchguard/fetchguard.go, and instances of its theorems.
use overlap.Common.{ℕ, ◌+◌, ◌*◌, ◌^◌, ◌≡◌, ◌==◌, refl, false, true, [], ◌∷◌, some, if◌then◌else◌}
use overlap.Common.Text.{
  Runes, codes, trim, trim_left, is_space, fold_rune, equal_fold, to_lower, to_lower_rune,
}
use overlap.Fetchguard.{
  nil, four, sixteen, unmap, ip4, is_special, is_blocked, is_public, Url, ok, err, blocked,
  redirect, reply, World, new, normalize, check_url_shape, check_url, dial, request, send,
  read_reply, preflight, get,
}
use overlap.Fetchguard.Guarded.{IsSafe, get-IsSafe}

guard_open : ℕ
unfolding trim trim_left is_space fold_rune equal_fold to_lower to_lower_rune unmap is_special
    is_blocked is_public normalize check_url_shape check_url dial request send read_reply preflight
    get
guard_open = 0

abbrev page : Runes → Url
page host = record { scheme = codes "webcal"; hostname = host; user = false }

-- A name that is public at first, and private from the second call on.
abbrev rebinding : World
rebinding = record {
  parse_url = λ s. some (page (codes "calendar.example"));
  parse_ip = λ host. nil;
  resolve = λ n host. some (four (if n == 0 then ip4 93 184 216 34 else ip4 169 254 169 254) ∷ []);
  serve = λ n u ip. reply 200 (1 ∷ []);
}

abbrev honest : World
honest = record rebinding { resolve = λ n host. some (four (ip4 93 184 216 34) ∷ []) }

-- A server that redirects to itself.
abbrev looping : World
looping = record honest {
  serve = λ n u ip. redirect (record { scheme = codes "http"; hostname = codes "a"; user = false });
}

rebound : get rebinding new (codes "webcal://calendar.example") ≡ (err blocked, [])
unfolding guard_open
rebound = refl

fetched :
    get honest new (codes "webcal://calendar.example")
    ≡ (ok (1 ∷ []), four (ip4 93 184 216 34) ∷ [])
unfolding guard_open
fetched = refl

carrier : is_public (four (ip4 100 64 1 2)) ≡ false
unfolding guard_open
carrier = refl

loopback : is_public (sixteen 1) ≡ false
unfolding guard_open
loopback = refl

unique_local : is_public (sixteen (0xfd00 * 2 ^ 112 + 7)) ≡ false
unfolding guard_open
unique_local = refl

get-IsSafe_example : IsSafe new (get looping new (codes "webcal://calendar.example"))
get-IsSafe_example = get-IsSafe looping new (codes "webcal://calendar.example")

-- An address of "this network" and a relay of 6to4 pass.
let_through : (is_public (four (ip4 0 1 2 3)) ≡ true) × (is_public (four (ip4 192 88 99 1)) ≡ true)
unfolding guard_open
let_through = (refl, refl)
