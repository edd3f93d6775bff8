-- ===== src/Results/Required.antt =====
-- A required participant who has not answered, from the stored rows
-- (api/internal/results/results.go) to the verdict of api/internal/solver/solver.go.
use overlap.Common.{◌≡◌, ap, inl, inr, String, false, List, [], ◌∷◌, map, In}
use overlap.Common.Float.{Float}
use overlap.Common.Maps.{string_key}
use overlap.Time.{Time}
use overlap.Solver.{Config}
use overlap.Solver.Dominance.{analyze}
use overlap.Solver.Dominance.Blocking.{analyze-silent_required}
use overlap.Store.{Participant, Response, responded, role_required}
use overlap.Tz.{ZoneDb}
use overlap.Results.{to_solver, build}
use overlap.Results.Silence.{HaveDistinctIds, build-people, build-unheard}

pub In-map : {A B : Type 0} (f : A → B) (a : A) (xs : List A) → In a xs → In (f a) (map f xs)
In-map f a (x ∷ xs) (inl e) = inl (ap f e)
In-map f a (x ∷ xs) (inr m) = inr (In-map f a xs m)
In-map f a [] m = absurd m

-- While a participant stored as required has not submitted, no event is decidable, whatever rows are
-- stored for the others. The ids of the participants are distinct.
pub analyze-build_silent :
    {F : Type 0} ⦃fl : Float F⦄ (db : ZoneDb) (rows : String → List Response) (starts : List Time)
    (ps : List Participant) (cfg : Config F) (p : Participant)
    → HaveDistinctIds ps
    → In p ps
    → p.role ≡ role_required
    → responded p ≡ false
    → let input = build db ps rows starts in
      (analyze input.slots input.participants input.responses cfg).decidable ≡ false
unfolding to_solver
analyze-build_silent db rows starts ps cfg p d m r quiet =
    let input = build db ps rows starts in
    let here : In (to_solver db p) input.participants =
      rw (build-people db rows starts ps).0 (In-map (to_solver db) p ps m) in
    analyze-silent_required input.slots input.participants input.responses cfg (to_solver db p) here
      (rw r) (λ s. build-unheard db rows starts ps p s d m quiet)
