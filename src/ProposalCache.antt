-- ===== src/ProposalCache.antt =====
-- api/internal/server/proposalcache.go: proposals kept for a while, so that an event's proposal is
-- not computed for every request.
pub mod Memory
pub mod Recent
mod Tests
use overlap.Common.{
  ℕ, ◌+◌, String, Bool, true, false, not, List, [], Option, none, some, length, ltb, leb, ◌==◌,
  if◌then◌else◌,
}
use overlap.Common.Maps.{string_key, lookup, insert, delete_where}
use overlap.Time.{Time}
use overlap.Proposal.{Result}

pub record CachedProposal : Type 0 where
  pub result : Result
  pub at : Time

-- A `ttl` that is not positive is 0.
pub record ProposalCache : Type 0 where
  pub ttl : ℕ
  pub values : List (String × CachedProposal)

abbrev pub max_cached_proposals : ℕ
max_cached_proposals = 2000

unfoldable pub new_proposal_cache : ℕ → ProposalCache
new_proposal_cache ttl = record { ttl = ttl; values = [] }

-- Whether an entry is younger than the ttl, `now.Sub(v.at) < ttl`.
unfoldable pub is_fresh : ℕ → Time → CachedProposal → Bool
is_fresh ttl now v = ltb now (v.at + ttl)

-- `lookup`
unfoldable pub find : ProposalCache → Time → String → Option Result
find c now key = elim (lookup c.values key) [
  | none ↦ none
  | some v ↦ if is_fresh c.ttl now v then some v.result else none
]

-- `evictStaleLocked`
unfoldable pub evict_stale : ProposalCache → Time → ProposalCache
evict_stale c now = record c { values = delete_where (λ v. not (is_fresh c.ttl now v)) c.values }

-- The readings of the clock in a call, in the order in which it takes them.
pub record Readings : Type 0 where
  pub arrival : Time
  pub inside : Time
  pub eviction : Time
  pub storing : Time

-- `store`
unfoldable pub store : ProposalCache → Readings → String → Result → ProposalCache
store c now key r =
    let roomy =
      (if leb max_cached_proposals (length c.values) then evict_stale c now.eviction else c) in
    if leb max_cached_proposals (length roomy.values)
    then roomy
    else record roomy { values = insert roomy.values key (record { result = r; at = now.storing }) }

-- What a call gives: its answer, where `none` is an error, whether it ran `compute`, and the cache.
pub record Outcome : Type 0 where
  pub answer : Option Result
  pub computed : Bool
  pub cache : ProposalCache

-- The function that `Do` hands to the single-flight group. `compute` is what the computation
-- gives if it is run.
unfoldable pub flight : ProposalCache → Readings → String → Option Result → Outcome
flight c now key compute = elim (find c now.inside key) [
  | some r ↦ record { answer = some r; computed = false; cache = c }
  | none ↦ elim compute [
    | none ↦ record { answer = none; computed = true; cache = c }
    | some r ↦ record { answer = some r; computed = true; cache = store c now key r }
  ]
]

-- `Do`, on a cache that is not nil. The group (golang.org/x/sync/singleflight) either hands over
-- the outcome of an identical call in flight, `joined`, or runs the function.
-- The code holds no lock while the function runs. Here a call is one step on one cache: a call for
-- another key that ends in between is not represented.
unfoldable pub do_cached :
    ProposalCache → Readings → Option (Option Result) → String → Option Result → Outcome
do_cached c now joined key compute =
    if c.ttl == 0
    then record { answer = compute; computed = true; cache = c }
    else elim (find c now.arrival key) [
      | some r ↦ record { answer = some r; computed = false; cache = c }
      | none ↦ elim joined [
        | some shared ↦ record { answer = shared; computed = false; cache = c }
        | none ↦ flight c now key compute
      ]
    ]
