-- ===== src/Results/Silence.antt =====
-- What silence means to the solver: `Build` of api/internal/results/results.go.
use overlap.Common.{
  ◌≡◌, refl, sym, ap, ◌∙◌, ◌≢◌, inl, inr, String, Bool, false, List, [], ◌∷◌, ◌++◌, Option, none,
  some, map, foldl, ◌&&◌, arith, if◌then◌else◌, ◌==◌, ==_iff, any, All, In, In-All, Bool-cases,
}
use mathlib.Core.List.{append-nil, append_assoc}
use overlap.Common.Maps.{update, nat_key, string_key, beq_self, beq_ne}
use overlap.Common.Int.{pos}
use overlap.Time.{Time}
use overlap.Time.Nanos.{unix_nano, IsNear, unix_nano-IsNear, foldl-unix_nano}
use overlap.Solver.{Tier, tier_no, get}
use overlap.Store.{Participant, Response, responded}
use overlap.Tz.{ZoneDb}
use overlap.Results.{
  Input, to_solver, canonical, refusals, record_response, by_slot, add_participant, build,
}

abbrev pub offered : List Time → Time → Bool
offered starts t = any (λ s. s == t) starts

-- The last tier stated for an instant, "no" if there is none.
abbrev pub stated : List Response → Tier → Time → Tier
stated [] tier t = tier
stated (r ∷ rows) tier t = stated rows (if r.slot_start == t then r.tier else tier) t

foldl-update :
    {V : Type 0} (f : Time → V) (m : Time → V) (xs : List Time) (t : Time)
    → foldl (λ m s. update m s (f s)) m xs t ≡ (if offered xs t then f t else m t)
foldl-update f m [] t = refl
foldl-update f m (x ∷ xs) t = foldl-update f (update m x (f x)) xs t ∙ (elim (Bool-cases (x == t)) [
  | inl e ↦ rw e (ground (arith, ap f ((==_iff x t).0 e)))
  | inr e ↦ rw e
])

canonical-offered :
    (starts : List Time) (t : Time)
    → All IsNear starts
    → IsNear t
    → canonical starts (unix_nano (pos t)) ≡ (if offered starts t then some t else none)
unfolding canonical
canonical-offered starts t hs h =
    ap (canonical starts) (unix_nano-IsNear t h) ∙ foldl-unix_nano starts (λ k. none) t hs

record_response-offered :
    (starts : List Time) (by : Time → Option Tier) (tier : Tier) (r : Response) (t : Time)
    → All IsNear starts
    → IsNear r.slot_start
    → by t ≡ (if offered starts t then some tier else none)
    → record_response (canonical starts) by r t
      ≡ (if offered starts t then some (if r.slot_start == t then r.tier else tier) else none)
unfolding record_response
record_response-offered starts by tier r t hs hr h =
    rw (canonical-offered starts r.slot_start hs hr, record_response)
      (elim (Bool-cases (r.slot_start == t)) [
        | inl here ↦
            let q = ap (offered starts) ((==_iff r.slot_start t).0 here) in
            elim (Bool-cases (offered starts t)) [
              | inl e ↦ rw (q, e, here)
              | inr e ↦ rw (q, e) (h ∙ rw e)
            ]
        | inr away ↦ elim (Bool-cases (offered starts r.slot_start)) [
          | inl e ↦ rw (e, away) h
          | inr e ↦ rw (e, away) h
        ]
      ])

record_rows-offered :
    (starts : List Time) (rows : List Response) (by : Time → Option Tier) (tier : Tier) (t : Time)
    → All IsNear starts
    → All (λ r. IsNear r.slot_start) rows
    → by t ≡ (if offered starts t then some tier else none)
    → foldl (record_response (canonical starts)) by rows t
      ≡ (if offered starts t then some (stated rows tier t) else none)
record_rows-offered starts [] by tier t hs hr h = h
record_rows-offered starts (r ∷ rows) by tier t hs hr h =
    record_rows-offered starts rows _ _ t hs hr.1
      (record_response-offered starts by tier r t hs hr.0 h)

by_slot-offered :
    (starts : List Time) (rows : List Response) (t : Time)
    → All IsNear starts
    → All (λ r. IsNear r.slot_start) rows
    → by_slot starts rows t ≡ (if offered starts t then some (stated rows tier_no t) else none)
unfolding by_slot
by_slot-offered starts rows t hs hr =
    record_rows-offered starts rows (refusals starts) tier_no t hs hr
      (foldl-update (λ s. some tier_no) (λ _. none) starts t)

-- Nobody in the list has the id.
abbrev pub IsFresh : String → List Participant → Type 0
IsFresh pid = All (λ q. q.id ≢ pid)

abbrev pub HaveDistinctIds : List Participant → Type 0
HaveDistinctIds [] = Unit {0}
HaveDistinctIds (p ∷ ps) = IsFresh p.id ps × HaveDistinctIds ps

module _ (db : ZoneDb) (rows : String → List Response) (starts : List Time) where
  abbrev after : Input → List Participant → Input
  after = foldl (add_participant db rows starts)

  -- What the loop leaves in the response map for one participant.
  abbrev pub entry : Participant → Option (Time → Option Tier)
  entry p = if responded p then some (by_slot starts (rows p.id)) else none

  add_participant-other :
      (input : Input) (q : Participant) (pid : String)
      → q.id ≢ pid
      → (add_participant db rows starts input q).responses pid ≡ input.responses pid
  unfolding add_participant
  add_participant-other input q pid ne = ground (arith, beq_ne q.id pid ne)

  after-fresh :
      (ps : List Participant) (input : Input) (pid : String)
      → IsFresh pid ps
      → (after input ps).responses pid ≡ input.responses pid
  after-fresh [] input pid h = refl
  after-fresh (q ∷ ps) input pid h =
      after-fresh ps _ pid h.1 ∙ add_participant-other input q pid h.0

  add_participant_self :
      (input : Input) (p : Participant)
      → input.responses p.id ≡ none
      → (add_participant db rows starts input p).responses p.id ≡ entry p
  unfolding add_participant
  add_participant_self input p h = elim (Bool-cases (responded p)) [
    | inl e ↦ rw (e, beq_self p.id)
    | inr e ↦ rw e h
  ]

  after-entry :
      (ps : List Participant) (input : Input) (p : Participant)
      → HaveDistinctIds ps
      → In p ps
      → input.responses p.id ≡ none
      → (after input ps).responses p.id ≡ entry p
  after-entry (q ∷ ps) input p d (inl e) h =
      rw e (after-fresh ps _ q.id d.0 ∙ add_participant_self input q (rw e at h))
  after-entry (q ∷ ps) input p d (inr m) h =
      after-entry ps _ p d.1 m
        (add_participant-other input q p.id (λ x. In-All _ p ps d.0 m (sym x)) ∙ h)
  after-entry [] input p d m h = absurd m

  after-participants :
      (ps : List Participant) (input : Input)
      → ((after input ps).participants ≡ input.participants ++ map (to_solver db) ps)
        × ((after input ps).slots ≡ input.slots)
  unfolding add_participant
  after-participants [] input = (sym (append-nil _), refl)
  after-participants (p ∷ ps) input = elim (Bool-cases (responded p)) [
    | inl e ↦
        let r = after-participants ps (add_participant db rows starts input p) in
        (r.0 ∙ rw e (append_assoc input.participants _ _), r.1 ∙ rw e)
    | inr e ↦
        let r = after-participants ps (add_participant db rows starts input p) in
        (r.0 ∙ rw e (append_assoc input.participants _ _), r.1 ∙ rw e)
  ]

  abbrev blank : Input
  blank = record { slots = starts; participants = []; responses = λ _. none }

  pub build-people :
      (ps : List Participant)
      → ((build db ps rows starts).participants ≡ map (to_solver db) ps)
        × ((build db ps rows starts).slots ≡ starts)
  unfolding build
  build-people ps = after-participants ps blank

  -- Of a participant who has not submitted there is no answer.
  pub build-unheard :
      (ps : List Participant) (p : Participant) (t : Time)
      → HaveDistinctIds ps
      → In p ps
      → responded p ≡ false
      → get (build db ps rows starts).responses p.id t ≡ none
  unfolding build get
  build-unheard ps p t d m quiet = rw (after-entry ps blank p d m refl, get) (rw quiet refl)

  -- The solver sees every participant and every slot. Of a participant who has submitted it has, at
  -- each slot of the event, the last tier stored for that instant and "no" where nothing is stored,
  -- and nothing at any other instant; of one who has not submitted it has no answer at all. The ids
  -- are distinct, and the slots and the instants stored lie before 2262, where `UnixNano` does not
  -- wrap.
  pub build-silence :
      (ps : List Participant) (p : Participant) (t : Time)
      → HaveDistinctIds ps
      → In p ps
      → All IsNear starts
      → All (λ r. IsNear r.slot_start) (rows p.id)
      → let input = build db ps rows starts in
        (input.participants ≡ map (to_solver db) ps)
        × (input.slots ≡ starts)
        × (get input.responses p.id t ≡ (
            if responded p && offered starts t then some (stated (rows p.id) tier_no t) else none))
  unfolding build get
  build-silence ps p t d m hs hr =
      let shape = build-people ps in
      (
        shape.0,
        shape.1,
        rw (after-entry ps blank p d m refl, get)
            (elim (Bool-cases (responded p)) [
              | inl yes' ↦ rw yes' (by_slot-offered starts (rows p.id) t hs hr)
              | inr no' ↦ rw no'
            ]),
      )
