-- ===== src/ProposalCache/Tests.antt =====
-- Runs of the proposal cache and instances of its theorems.
use mathlib.Core.Option.{some-injective}
use overlap.Common.{
  ℕ, ◌*◌, ◌≡◌, refl, subst, true, false, [], ◌∷◌, none, some, arith, Bool-cases, inl, inr,
}
use overlap.Common.Maps.{string_key, lookup, insert, delete_where}
use overlap.Time.{Time, second}
use overlap.Proposal.{Result}
use overlap.ProposalCache.{
  ProposalCache, new_proposal_cache, is_fresh, find, evict_stale, Readings, store, flight,
  do_cached,
}
use overlap.ProposalCache.Memory.{IsBounded, do_cached-IsBounded}
use overlap.ProposalCache.Recent.{Log, IsLogged, IsAnswered, do_cached-IsAnswered, do_cached-reuse}

cache_open : ℕ
unfolding new_proposal_cache is_fresh find evict_stale store flight do_cached lookup insert
    delete_where
cache_open = 0

abbrev meeting : Time → Result
meeting t = record { slot = some t; found = true; considered = "kim" ∷ [] }

abbrev at_second : ℕ → Readings
at_second n = record {
  arrival = n * second;
  inside = n * second;
  eviction = n * second;
  storing = n * second;
}

abbrev held : ProposalCache
held = record {
  ttl = 30 * second;
  values = ("walk", record { result = meeting 7; at = 10 * second }) ∷ [];
}

served :
    do_cached held (at_second 39) none "walk" none
    ≡ record { answer = some (meeting 7); computed = false; cache = held }
unfolding cache_open
served = refl

-- An error is not kept, and the entry that has aged stays until the map is full.
failed :
    do_cached held (at_second 40) none "walk" none
    ≡ record { answer = none; computed = true; cache = held }
unfolding cache_open
failed = refl

disabled : (do_cached (new_proposal_cache 0) (at_second 1) none "walk" none).computed ≡ true
unfolding cache_open
disabled = refl

do_cached-IsBounded_example :
    IsBounded (do_cached held (at_second 40) none "walk" (some (meeting 9))).cache
do_cached-IsBounded_example =
    do_cached-IsBounded held (at_second 40) none "walk" (some (meeting 9)) ((tt, tt), omega arith)

-- The computations that have ended.
abbrev ended : Log
ended key r t = (r ≡ meeting 7) × (t ≡ 10 * second)

held-IsLogged : IsLogged ended held
unfolding lookup
held-IsLogged key v e = elim (Bool-cases (string_key.beq "walk" key)) [
  | inl t ↦
      subst (λ w. ended key w.result w.at) (some-injective _ _ (rw (t, lookup) at e)) (refl, refl)
  | inr t ↦ absurd (let bad : none ≡ some v = rw (t, lookup) at e in (cc))
]

do_cached-IsAnswered_example :
    IsAnswered ended held
      (at_second 39)
      none
      "walk"
      none
      (do_cached held (at_second 39) none "walk" none)
    × IsLogged ended (do_cached held (at_second 39) none "walk" none).cache
do_cached-IsAnswered_example =
    do_cached-IsAnswered ended held (at_second 39) none "walk" none (tt, tt) held-IsLogged
      (λ r e. absurd (cc))

stale_40 : find held (40 * second) "walk" ≡ none
unfolding cache_open
stale_40 = refl

do_cached-reuse_example :
    let kept = (do_cached held (at_second 40) none "walk" (some (meeting 9))).cache in
    do_cached kept (at_second 69) none "walk" none
    ≡ record { answer = some (meeting 9); computed = false; cache = kept }
do_cached-reuse_example =
    do_cached-reuse held (at_second 40) (at_second 69) "walk" (meeting 9) none none (omega arith)
      (omega arith) stale_40 stale_40 (omega arith)
