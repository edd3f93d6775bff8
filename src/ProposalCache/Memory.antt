-- ===== src/ProposalCache/Memory.antt =====
-- What the proposal cache keeps, over `store` and `Do` of api/internal/server/proposalcache.go.
use overlap.Common.{
  ◌≤◌, ◌≡◌, String, Bool, false, not, Option, length, leb, ◌==◌, inl, inr, arith, Bool-cases,
  Option-cases,
}
use overlap.Common.Maps.{
  string_key, insert, IsMap, insert-IsMap, delete_where-IsMap, length-insert-le,
  length-delete_where-le,
}
use overlap.Time.{Time}
use overlap.Proposal.{Result}
use overlap.ProposalCache.{
  CachedProposal, ProposalCache, max_cached_proposals, is_fresh, find, evict_stale, Readings, store,
  flight, do_cached,
}

-- One entry for a key, and no more than the bound.
abbrev pub IsBounded : ProposalCache → Type 0
IsBounded c = IsMap c.values × (length c.values ≤ max_cached_proposals)

evict_stale-IsBounded :
    (c : ProposalCache) (now : Time) → IsBounded c → IsBounded (evict_stale c now)
unfolding evict_stale
evict_stale-IsBounded c now h =
    let p : CachedProposal → Bool = λ v. not (is_fresh c.ttl now v) in
    (delete_where-IsMap p c.values h.0, omega (arith, length-delete_where-le p c.values, h.1))

insert-IsBounded :
    (c : ProposalCache) (key : String) (v : CachedProposal)
    → IsBounded c
    → leb max_cached_proposals (length c.values) ≡ false
    → IsBounded (record c { values = insert c.values key v })
insert-IsBounded c key v h e =
    (insert-IsMap c.values key v h.0, ground (arith, length-insert-le c.values key v, e))

store-IsBounded :
    (c : ProposalCache) (now : Readings) (key : String) (r : Result)
    → IsBounded c
    → IsBounded (store c now key r)
unfolding store
store-IsBounded c now key r h =
    let fewer = evict_stale c now.eviction in
    let v : CachedProposal = record { result = r; at = now.storing } in
    elim (Bool-cases (leb max_cached_proposals (length c.values))) [
      | inr e ↦ rw (e, e) (insert-IsBounded c key v h e)
      | inl e ↦ elim (Bool-cases (leb max_cached_proposals (length fewer.values))) [
        | inl t ↦ rw (e, t) (evict_stale-IsBounded c now.eviction h)
        | inr t ↦
            rw (e, t) (insert-IsBounded fewer key v (evict_stale-IsBounded c now.eviction h) t)
      ]
    ]

flight-IsBounded :
    (c : ProposalCache) (now : Readings) (key : String) (compute : Option Result)
    → IsBounded c
    → IsBounded (flight c now key compute).cache
unfolding flight
flight-IsBounded c now key compute h = elim (Option-cases (find c now.inside key)) [
  | inr (r, e) ↦ rw (e, flight) h
  | inl e ↦ elim (Option-cases compute) [
    | inl t ↦ rw (e, flight, t) h
    | inr (r, t) ↦ rw (e, flight, t) (store-IsBounded c now key r h)
  ]
]

-- Every call of Do on a cache keeps its bound: one entry for a key and at most maxCachedProposals
-- entries, whatever the answer, the clock and the outcome of the computation.
pub do_cached-IsBounded :
    (c : ProposalCache) (now : Readings) (joined : Option (Option Result)) (key : String)
    (compute : Option Result)
    → IsBounded c
    → IsBounded (do_cached c now joined key compute).cache
unfolding do_cached
do_cached-IsBounded c now joined key compute h = elim (Bool-cases (c.ttl == 0)) [
  | inl e ↦ rw e h
  | inr e ↦ elim (Option-cases (find c now.arrival key)) [
    | inr (r, t) ↦ rw (e, t) h
    | inl t ↦ elim (Option-cases joined) [
      | inr (shared, j) ↦ rw (e, t, j) h
      | inl j ↦ rw (e, t, j) (flight-IsBounded c now key compute h)
    ]
  ]
]
