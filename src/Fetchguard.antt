-- ===== src/Fetchguard.antt =====
-- api/internal/fetchguard/fetchguard.go: fetching a URL that a stranger supplied.

pub mod Ranges
pub mod Guarded
mod Tests
use overlap.Common.{
  ℕ, zero, suc, ◌+◌, ◌-◌, ◌*◌, ◌/◌, ◌%◌, ◌^◌, Bool, true, false, not, ◌&&◌, ◌||◌, List, [], ◌∷◌,
  ◌++◌, Option, none, some, length, any, all, ltb, leb, ◌==◌, if◌then◌else◌,
}
use overlap.Common.Text.{Runes, codes, same_text, trim_space, equal_fold, to_lower}

-- A `net.IP`: nil, four bytes or sixteen, read as one number.
pub data Ip : Type 0 where
  nil : Ip
  four : ℕ → Ip
  sixteen : ℕ → Ip

-- `To4` where it is not nil, and the address itself where it is.
unfoldable pub unmap : Ip → Ip
unmap nil = nil
unmap (four n) = four n
unmap (sixteen n) = if n / 2 ^ 32 == 0xffff then four (n % 2 ^ 32) else sixteen n

-- `IPNet.Contains` for a network of `bits` bits at `base`, among addresses of `size` bits.
abbrev pub in_net : ℕ → ℕ → ℕ → ℕ → Bool
in_net size base bits n = n / 2 ^ (size - bits) == base / 2 ^ (size - bits)

abbrev pub ip4 : ℕ → ℕ → ℕ → ℕ → ℕ
ip4 a b c d = ((a * 256 + b) * 256 + c) * 256 + d

-- The number that begins with a 16-bit group and a second one.
abbrev pub groups : ℕ → ℕ → ℕ
groups a b = (a * 2 ^ 16 + b) * 2 ^ 96

-- `IsLoopback` up to `IsMulticast`, of an address of four bytes and of one of sixteen.
unfoldable pub is_special : Ip → Bool
is_special nil = false
is_special (four n) =
    n / 2 ^ 24 == 127
    || (n / 2 ^ 24 == 10 || n / 2 ^ 20 == 172 * 16 + 1 || n / 2 ^ 16 == 192 * 256 + 168)
    || n == 0
    || n / 2 ^ 16 == 169 * 256 + 254
    || (n / 2 ^ 8 == 224 * 2 ^ 16 || n / 2 ^ 28 == 14)
is_special (sixteen n) =
    n == 1
    || n / 2 ^ 121 == 0xfc / 2
    || n == 0
    || n / 2 ^ 118 == 0xfe80 / 2 ^ 6
    || (n / 2 ^ 120 == 0xff && n / 2 ^ 112 % 16 == 2)
    || (n / 2 ^ 120 == 0xff && n / 2 ^ 112 % 16 == 1)
    || n / 2 ^ 120 == 0xff

-- `blockedNets`
unfoldable pub is_blocked : Ip → Bool
is_blocked nil = false
is_blocked (four n) =
    in_net 32 (ip4 100 64 0 0) 10 n
    || in_net 32 (ip4 192 0 0 0) 24 n
    || in_net 32 (ip4 192 0 2 0) 24 n
    || in_net 32 (ip4 198 18 0 0) 15 n
    || in_net 32 (ip4 198 51 100 0) 24 n
    || in_net 32 (ip4 203 0 113 0) 24 n
    || (in_net 32 (ip4 240 0 0 0) 4 n || in_net 32 (ip4 255 255 255 255) 32 n)
is_blocked (sixteen n) =
    in_net 128 0 128 n
    || in_net 128 (groups 0x64 0xff9b) 96 n
    || in_net 128 (groups 0x100 0) 64 n
    || in_net 128 (groups 0x2001 0xdb8) 32 n
    || in_net 128 (groups 0xfc00 0) 7 n

abbrev is_nil : Ip → Bool
is_nil nil = true
is_nil (four n) = false
is_nil (sixteen n) = false

-- `IsPublic`
unfoldable pub is_public : Ip → Bool
is_public ip =
    if is_nil ip
    then false
    else (let v = unmap ip in if is_special v then false else not (is_blocked v))

-- The parts of a `url.URL` that are read; `user` says whether there are credentials.
pub record Url : Type 0 where
  pub scheme : Runes
  pub hostname : Runes
  pub user : Bool

pub data Failure : Type 0 where
  empty_url bad_url blocked unresolved panic refused too_many_redirects bad_status too_large :
      Failure

pub data Result (A : Type 0) : Type 0 where
  ok : A → Result A
  err : Failure → Result A

-- What a server answers: nothing, a redirect to follow, or a status with a body.
pub data Reply : Type 0 where
  broken : Reply
  redirect : Url → Reply
  reply : ℕ → List ℕ → Reply

-- What lies outside: the parsers of `net/url` and `net`, the resolver, whose answers may change from
-- one call to the next, and the servers. `none` is an error.
pub record World : Type 0 where
  pub parse_url : Runes → Option Url
  pub parse_ip : Runes → Ip
  pub resolve : ℕ → Runes → Option (List Ip)
  pub serve : ℕ → Url → Ip → Reply

-- A policy on addresses: `IsPublic`, unless it is relaxed for development.
abbrev pub Policy : Type 0
Policy = Ip → Bool

abbrev pub max_bytes : ℕ
max_bytes = 5 * 2 ^ 20

abbrev pub max_redirects : ℕ
max_redirects = 3

-- The policies of `New` and `AllowPrivateForDevelopment`.
abbrev pub new : Policy
new = is_public

abbrev pub allow_private_for_development : Policy
allow_private_for_development ip = true

-- `Normalize`
unfoldable pub normalize : World → Runes → Result Url
normalize w raw =
    let s = trim_space raw in
    if same_text s [] then err empty_url else elim (w.parse_url s) [
      | none ↦ err bad_url
      | some u ↦
          if equal_fold u.scheme (codes "webcal")
          then ok (record u { scheme = codes "https" })
          else ok u
    ]

-- `checkURLShape`, with true for a nil error.
unfoldable pub check_url_shape : Url → Bool
check_url_shape u =
    (same_text (to_lower u.scheme) (codes "http") || same_text (to_lower u.scheme) (codes "https"))
    && not (same_text u.hostname [])
    && not u.user

-- `Fetcher.checkURL`, and `CheckURL` for the policy `is_public`.
unfoldable pub check_url : World → Policy → Url → Bool
check_url w allow u = let ip = w.parse_ip u.hostname in check_url_shape u && (is_nil ip || allow ip)

abbrev pub first_of : List Ip → Result Ip
first_of [] = err panic
first_of (ip ∷ rest) = ok ip

-- `DialContext`: the address that is dialled, at call `n` of the resolver. `ips[0]` of an empty list
-- panics.
unfoldable pub dial : World → Policy → ℕ → Runes → Result Ip
dial w allow n host = elim (w.resolve n host) [
  | none ↦ err blocked
  | some ips ↦ if all allow ips then first_of ips else err blocked
]

-- The end of a chain of requests: a failure, or the status and the body of the last reply; and the
-- addresses dialled on the way.
abbrev pub Chain : Type 0
Chain = Result (ℕ × List ℕ) × List Ip

-- One request, with `next` for a redirect. Connections are not kept, so each request dials.
unfoldable pub request : World → Policy → ℕ → Url → (Url → Chain) → Chain
request w allow n u next = elim (dial w allow n u.hostname) [
  | err e ↦ (err e, [])
  | ok ip ↦ elim (w.serve n u ip) [
    | broken ↦ (err refused, ip ∷ [])
    | reply status body ↦ (ok (status, body), ip ∷ [])
    | redirect v ↦ let r = next v in (r.0, ip ∷ r.1)
  ]
]

-- `client.Do` under `CheckRedirect`: `left` is MaxRedirects less `len(via)`, where a redirect comes.
unfoldable pub send : World → Policy → ℕ → ℕ → Url → Chain
send w allow zero n u = request w allow n u (λ v. (err too_many_redirects, []))
send w allow (suc left) n u =
    request w allow n u
      (λ v. if check_url w allow v then send w allow left (n + 1) v else (err blocked, []))

-- The rest of `Get`, after the reply.
unfoldable pub read_reply : Result (ℕ × List ℕ) → Result (List ℕ)
read_reply (err e) = err e
read_reply (ok (status, body)) =
    if status == 200
    then (if ltb max_bytes (length body) then err too_large else ok body)
    else err bad_status

-- The check of the resolver's first answer, where it blocks.
unfoldable pub preflight : Policy → Option (List Ip) → Bool
preflight allow none = false
preflight allow (some []) = false
preflight allow (some (ip ∷ ips)) = all allow (ip ∷ ips)

-- `Get`, with the addresses dialled.
unfoldable pub get : World → Policy → Runes → Result (List ℕ) × List Ip
get w allow raw = elim (normalize w raw) [
  | err e ↦ (err e, [])
  | ok u ↦
      let r = send w allow (max_redirects - 1) 1 u in
      if check_url w allow u && preflight allow (w.resolve 0 u.hostname)
      then (read_reply r.0, r.1)
      else (err blocked, [])
]
