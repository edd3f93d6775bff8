-- ===== src/ProposalCache/Recent.antt =====
-- Where an answer of the proposal cache comes from, over `Do` of
-- api/internal/server/proposalcache.go.
use mathlib.Core.Option.{some-injective}
use overlap.Common.{
  ℕ, ◌+◌, ◌<◌, ◌≡◌, refl, sym, subst, ◌∙◌, String, Bool, true, false, not, Option, none, some,
  length, leb, ltb, ◌==◌, ◌⊎◌, inl, inr, arith, Bool-cases, Option-cases,
}
use overlap.Common.Maps.{
  string_key, lookup, insert, IsMap, lookup-insert, lookup-delete_where, beq_self,
}
use overlap.Time.{Time}
use overlap.Proposal.{Result}
use overlap.ProposalCache.{
  CachedProposal, ProposalCache, max_cached_proposals, is_fresh, find, evict_stale, Readings, store,
  Outcome, flight, do_cached,
}

-- A log of the computations that have ended: key, result and time.
abbrev pub Log : Type 1
Log = String → Result → Time → Type 0

-- Every entry is a computation of the log.
abbrev pub IsLogged : Log → ProposalCache → Type 0
IsLogged log c =
    (key : String) (v : CachedProposal) → lookup c.values key ≡ some v → log key v.result v.at

-- A computation of the log for the key that ended less than the ttl ago.
abbrev pub IsRecent : Log → ℕ → String → Time → Result → Type 0
IsRecent log ttl key now r = (t : Time) × log key r t × (now < t + ttl)

find-IsRecent :
    (log : Log) (c : ProposalCache) (now : Time) (key : String) (r : Result)
    → IsLogged log c
    → find c now key ≡ some r
    → IsRecent log c.ttl key now r
unfolding find is_fresh
find-IsRecent log c now key r h e = elim (Option-cases (lookup c.values key)) [
  | inl miss ↦ absurd (let bad : none ≡ some r = rw (miss, find) at e in (cc))
  | inr (v, hit) ↦ elim (Bool-cases (ltb now (v.at + c.ttl))) [
    | inr old ↦ absurd (let bad : none ≡ some r = rw (hit, find, old) at e in (cc))
    | inl new ↦ (
      v.at,
      subst (λ q. log key q v.at) (some-injective _ _ (rw (hit, find, new) at e)) (h key v hit),
      ground (arith, new),
    )
  ]
]

evict_stale-IsLogged :
    (log : Log) (c : ProposalCache) (now : Time)
    → IsMap c.values
    → IsLogged log c
    → IsLogged log (evict_stale c now)
unfolding evict_stale
evict_stale-IsLogged log c now m h key v e =
    let p : CachedProposal → Bool = λ w. not (is_fresh c.ttl now w) in
    let after = sym (lookup-delete_where p c.values key m) ∙ e in
    elim (Option-cases (lookup c.values key)) [
      | inl miss ↦ absurd (let bad : none ≡ some v = rw miss at after in (cc))
      | inr (w, hit) ↦ elim (Bool-cases (p w)) [
        | inl gone ↦ absurd (let bad : none ≡ some v = rw (hit, gone) at after in (cc))
        | inr stays ↦ h key v (hit ∙ rw (hit, stays) at after)
      ]
    ]

insert-IsLogged :
    (log : Log) (c : ProposalCache) (key : String) (v : CachedProposal)
    → IsLogged log c
    → log key v.result v.at
    → IsLogged log (record c { values = insert c.values key v })
insert-IsLogged log c key v h new j w e =
    let found = sym (lookup-insert c.values key v j) ∙ e in
    elim (Bool-cases (string_key.beq key j)) [
      | inl same ↦
          subst (λ k. log k w.result w.at) ((string_key.beq_iff key j).0 same)
            (subst (λ u. log key u.result u.at) (some-injective _ _ (rw same at found)) new)
      | inr other ↦ h j w (rw other at found)
    ]

store-IsLogged :
    (log : Log) (c : ProposalCache) (now : Readings) (key : String) (r : Result)
    → IsMap c.values
    → IsLogged log c
    → log key r now.storing
    → IsLogged log (store c now key r)
unfolding store
store-IsLogged log c now key r m h new =
    let fewer = evict_stale c now.eviction in
    let v : CachedProposal = record { result = r; at = now.storing } in
    let kept = evict_stale-IsLogged log c now.eviction m h in
    elim (Bool-cases (leb max_cached_proposals (length c.values))) [
      | inr e ↦ rw (e, e) (insert-IsLogged log c key v h new)
      | inl e ↦ elim (Bool-cases (leb max_cached_proposals (length fewer.values))) [
        | inl t ↦ rw (e, t) kept
        | inr t ↦ rw (e, t) (insert-IsLogged log fewer key v kept new)
      ]
    ]

-- Where an answer comes from: this call's computation, or, with none run, the call in flight that
-- it joined, or a recent computation, seen on arrival or inside the group.
abbrev pub IsAnswered :
    Log
    → ProposalCache
    → Readings
    → Option (Option Result)
    → String
    → Option Result
    → Outcome
    → Type 0
IsAnswered log c now joined key compute o =
    ((o.computed ≡ true) × (o.answer ≡ compute))
    ⊎ ((o.computed ≡ false) × (joined ≡ some o.answer))
    ⊎ ((o.computed ≡ false)
        × ((r : Result) × (o.answer ≡ some r)
            × (IsRecent log c.ttl key now.arrival r ⊎ IsRecent log c.ttl key now.inside r)))

flight-IsAnswered :
    (log : Log) (c : ProposalCache) (now : Readings) (key : String) (compute : Option Result)
    → IsMap c.values
    → IsLogged log c
    → ((r : Result) → compute ≡ some r → log key r now.storing)
    → IsAnswered log c now none key compute (flight c now key compute)
      × IsLogged log (flight c now key compute).cache
unfolding flight
flight-IsAnswered log c now key compute m h new = elim (Option-cases (find c now.inside key)) [
  | inr (r, e) ↦
      rw (e, flight)
        (inr (inr (refl, (r, refl, inr (find-IsRecent log c now.inside key r h e)))), h)
  | inl e ↦ elim (Option-cases compute) [
    | inl t ↦ rw (e, flight, t) (inl (refl, refl), h)
    | inr (r, t) ↦
        rw (e, flight, t) (inl (refl, refl), store-IsLogged log c now key r m h (new r t))
  ]
]

-- Given a cache with one entry for a key, whose entries are all results computed for their keys,
-- and a log that has this call's result if the computation gives one: what Do answers is the
-- outcome of its own computation, or, if it ran none, the outcome of the call in flight that it
-- joined or a result computed for the key less than the ttl ago; an error is never taken from the
-- cache; and the entries after the call are again results computed for their keys.
pub do_cached-IsAnswered :
    (log : Log) (c : ProposalCache) (now : Readings) (joined : Option (Option Result))
    (key : String) (compute : Option Result)
    → IsMap c.values
    → IsLogged log c
    → ((r : Result) → compute ≡ some r → log key r now.storing)
    → IsAnswered log c now joined key compute (do_cached c now joined key compute)
      × IsLogged log (do_cached c now joined key compute).cache
unfolding do_cached
do_cached-IsAnswered log c now joined key compute m h new = elim (Bool-cases (c.ttl == 0)) [
  | inl e ↦ rw e (inl (refl, refl), h)
  | inr e ↦ elim (Option-cases (find c now.arrival key)) [
    | inr (r, t) ↦
        rw (e, t) (inr (inr (refl, (r, refl, inl (find-IsRecent log c now.arrival key r h t)))), h)
    | inl t ↦ elim (Option-cases joined) [
      | inr (shared, j) ↦ rw (e, t, j) (inr (inl (refl, refl)), h)
      | inl j ↦ rw (e, t, j) (flight-IsAnswered log c now key compute m h new)
    ]
  ]
]

abbrev with_entry : ProposalCache → String → CachedProposal → ProposalCache
with_entry c key v = record c { values = insert c.values key v }

store-room :
    (c : ProposalCache) (now : Readings) (key : String) (r : Result)
    → length c.values < max_cached_proposals
    → store c now key r ≡ with_entry c key (record { result = r; at = now.storing })
unfolding store
store-room c now key r room =
    let free : leb max_cached_proposals (length c.values) ≡ false = ground (arith, room) in
    rw (free, free) refl

find-with_entry :
    (c : ProposalCache) (key : String) (v : CachedProposal) (later : Time)
    → later < v.at + c.ttl
    → find (with_entry c key v) later key ≡ some v.result
unfolding find is_fresh
find-with_entry c key v later soon =
    let young : ltb later (v.at + c.ttl) ≡ true = ground (arith, soon) in
    rw (find, lookup-insert c.values key v key, beq_self key, young) refl

do_cached-hit :
    (c : ProposalCache) (now : Readings) (joined : Option (Option Result)) (key : String)
    (compute : Option Result) (r : Result)
    → 0 < c.ttl
    → find c now.arrival key ≡ some r
    → do_cached c now joined key compute ≡ record { answer = some r; computed = false; cache = c }
unfolding do_cached
do_cached-hit c now joined key compute r lasting e =
    let on : (c.ttl == 0) ≡ false = ground (arith, lasting) in rw (on, e) refl

do_cached-fresh :
    (c : ProposalCache) (now : Readings) (key : String) (r : Result)
    → 0 < c.ttl
    → find c now.arrival key ≡ none
    → find c now.inside key ≡ none
    → do_cached c now none key (some r)
      ≡ record { answer = some r; computed = true; cache = store c now key r }
unfolding do_cached flight
do_cached-fresh c now key r lasting out still =
    let on : (c.ttl == 0) ≡ false = ground (arith, lasting) in rw (on, out, flight, still) refl

-- One computation serves a whole ttl: after a call that found nothing fresh, joined no other call
-- and computed a result, on a cache with a ttl and with room, every call for the key that arrives
-- before the ttl has passed since the result was stored answers with that result, computes nothing
-- and leaves the cache as it is.
pub do_cached-reuse :
    (c : ProposalCache) (now then_ : Readings) (key : String) (r : Result)
    (joined : Option (Option Result)) (compute : Option Result)
    → 0 < c.ttl
    → length c.values < max_cached_proposals
    → find c now.arrival key ≡ none
    → find c now.inside key ≡ none
    → then_.arrival < now.storing + c.ttl
    → let kept = (do_cached c now none key (some r)).cache in
      do_cached kept then_ joined key compute
      ≡ record { answer = some r; computed = false; cache = kept }
do_cached-reuse c now then_ key r joined compute lasting room out still soon =
    let v : CachedProposal = record { result = r; at = now.storing } in
    rw (do_cached-fresh c now key r lasting out still, store-room c now key r room)
      (do_cached-hit (with_entry c key v) then_ joined key compute r lasting
        (find-with_entry c key v then_.arrival soon))
