-- ===== src/Fetchguard/Guarded.antt =====
-- `Get` of api/internal/fetchguard/fetchguard.go: where it connects and what it returns.
use overlap.Common.{
  ℕ, zero, suc, ◌+◌, ◌-◌, ◌≤◌, ◌≡◌, refl, true, ◌&&◌, List, [], ◌∷◌, length, all, arith, ltb, ◌==◌,
  All, Bool-cases, Option-cases, inl, inr, ◌⊎◌,
}
use overlap.Common.Text.{Runes}
use overlap.Fetchguard.{
  Ip, Url, Failure, Result, ok, err, blocked, bad_status, too_large, Reply, broken, redirect, reply,
  World, Policy, max_bytes, max_redirects, normalize, check_url, first_of, dial, Chain, request,
  send, read_reply, preflight, get,
}

abbrev IsAllowed : Policy → Ip → Type 0
IsAllowed allow ip = allow ip ≡ true

Result-cases : {A : Type 0} (r : Result A) → ((e : Failure) × (r ≡ err e)) ⊎ ((a : A) × (r ≡ ok a))
Result-cases (err e) = inl (e, refl)
Result-cases (ok a) = inr (a, refl)

Reply-cases :
    (r : Reply)
    → (r ≡ broken)
      ⊎ (((status : ℕ) × (body : List ℕ) × (r ≡ reply status body))
          ⊎ ((v : Url) × (r ≡ redirect v)))
Reply-cases broken = inl refl
Reply-cases (reply status body) = inr (inl (status, body, refl))
Reply-cases (redirect v) = inr (inr (v, refl))

first_of-IsAllowed :
    (allow : Policy) (ips : List Ip) (ip : Ip)
    → all allow ips ≡ true
    → first_of ips ≡ ok ip
    → IsAllowed allow ip
first_of-IsAllowed allow [] ip h e = absurd (cc)
first_of-IsAllowed allow (i ∷ ips) ip h e =
    let same : i ≡ ip = cc in let first : allow i ≡ true = ground (arith, h) in rw (← same) first

dial-IsAllowed :
    (w : World) (allow : Policy) (n : ℕ) (host : Runes) (ip : Ip)
    → dial w allow n host ≡ ok ip
    → IsAllowed allow ip
unfolding dial
dial-IsAllowed w allow n host ip e = elim (Option-cases (w.resolve n host)) [
  | inl r ↦ absurd (let bad : err blocked ≡ ok ip = rw (dial, r) at e in cc)
  | inr (ips, r) ↦ elim (Bool-cases (all allow ips)) [
    | inl a ↦ first_of-IsAllowed allow ips ip a (rw (dial, r, a) at e)
    | inr a ↦ absurd (let bad : err blocked ≡ ok ip = rw (dial, r, a) at e in cc)
  ]
]

-- At most `k` connections, each to an allowed address.
abbrev IsGuarded : Policy → ℕ → List Ip → Type 0
IsGuarded allow k ips = All (IsAllowed allow) ips × (length ips ≤ k)

request-IsGuarded :
    (w : World) (allow : Policy) (n : ℕ) (u : Url) (next : Url → Chain) (k : ℕ)
    → ((v : Url) → IsGuarded allow k (next v).1)
    → IsGuarded allow (k + 1) (request w allow n u next).1
unfolding request
request-IsGuarded w allow n u next k h = elim (Result-cases (dial w allow n u.hostname)) [
  | inl (e, d) ↦ rw (request, d) (tt, omega arith)
  | inr (ip, d) ↦
      let good = dial-IsAllowed w allow n u.hostname ip d in
      elim (Reply-cases (w.serve n u ip)) [
        | inl s ↦ rw (request, d, s) ((good, tt), omega arith)
        | inr (inl (status, body, s)) ↦ rw (request, d, s) ((good, tt), omega arith)
        | inr (inr (v, s)) ↦ rw (request, d, s) ((good, (h v).0), omega (arith, (h v).1))
      ]
]

send-IsGuarded :
    (w : World) (allow : Policy) (left n : ℕ) (u : Url)
    → IsGuarded allow (left + 1) (send w allow left n u).1
unfolding send
send-IsGuarded w allow zero n u = request-IsGuarded w allow n u _ 0 (λ v. (tt, omega arith))
send-IsGuarded w allow (suc left) n u =
    let one : left + 1 ≡ suc left = omega arith in
    request-IsGuarded w allow n u _ (suc left) (λ v. elim (Bool-cases (check_url w allow v)) [
      | inl e ↦ rw e (rw one at (send-IsGuarded w allow left (n + 1) v))
      | inr e ↦ rw e (tt, omega arith)
    ])

read_reply_bound :
    (r : Result (ℕ × List ℕ)) (body : List ℕ) → read_reply r ≡ ok body → length body ≤ max_bytes
unfolding read_reply
read_reply_bound (err f) body e = absurd (cc)
read_reply_bound (ok (status, b)) body e = elim (Bool-cases (status == 200)) [
  | inr s ↦ absurd (let bad : err bad_status ≡ ok body = rw (read_reply, s) at e in cc)
  | inl s ↦ elim (Bool-cases (ltb max_bytes (length b))) [
    | inl l ↦ absurd (let bad : err too_large ≡ ok body = rw (read_reply, s, l) at e in cc)
    | inr l ↦
        let same : ok b ≡ ok body = rw (read_reply, s, l) at e in
        let eq : b ≡ body = cc in rw (← eq) (ground (arith, l))
  ]
]

-- At most three connections, each to an allowed address, and no body over the limit.
pub record IsSafe (allow : Policy) (r : Result (List ℕ) × List Ip) : Type 0 where
  pub allowed : All (λ ip. allow ip ≡ true) r.1
  pub few : length r.1 ≤ 3
  pub small : (body : List ℕ) → r.0 ≡ ok body → length body ≤ max_bytes

stopped-IsSafe : (allow : Policy) (f : Failure) → IsSafe allow (err f, [])
stopped-IsSafe allow f = record { allowed = tt; few = omega arith; small = λ body e. absurd (cc) }

-- `Get` connects at most three times, redirects included, and each time to an address that the
-- policy allows, whatever the resolver answers from one call to the next and wherever the servers
-- redirect; a body that it returns is within the limit.
pub get-IsSafe : (w : World) (allow : Policy) (raw : Runes) → IsSafe allow (get w allow raw)
unfolding get
get-IsSafe w allow raw = elim (Result-cases (normalize w raw)) [
  | inl (f, e) ↦ rw (get, e) (stopped-IsSafe allow f)
  | inr (u, e) ↦
      let h = send-IsGuarded w allow (max_redirects - 1) 1 u in
      elim (Bool-cases (check_url w allow u && preflight allow (w.resolve 0 u.hostname))) [
        | inl c ↦
            rw (get, e, c)
              (record {
                allowed = h.0;
                few = omega (arith, h.1);
                small = read_reply_bound (send w allow (max_redirects - 1) 1 u).0;
              })
        | inr c ↦ rw (get, e, c) (stopped-IsSafe allow blocked)
      ]
]
