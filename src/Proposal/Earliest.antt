-- ===== src/Proposal/Earliest.antt =====
-- What a proposal claims: `Best` of api/internal/proposal/proposal.go.
use mathlib.Core.List.{
  Pairwise, Pairwise-cons, Mem, mem-cons, mem-cons_self, mem-cons_of_mem, not-mem-nil,
}
use mathlib.Core.List.Perm
use mathlib.Core.Logic.Or
use mathlib.Core.HLevel.{⊥_prop}
use mathlib.Core.Option.{some-injective}
use native.Mathlib.Bridge.{le_prop}
use native.Mathlib.Nat.{le_refl}
use overlap.Common.{
  ℕ, ◌+◌, ◌≤◌, ◌<◌, ◌≡◌, subst, ◌⊎◌, ◌↔◌, refl, not, ◌||◌, All, inl, inr, true, false, List, [],
  ◌∷◌, none, some, arith, ltb, any, Bool-cases, Option-cases, Option,
}
use overlap.Common.Sort.{sort, sort-perm, sort-Pairwise}
use overlap.Time.{Time}
use overlap.Icsparse.{Interval, overlaps, covers}
use overlap.Proposal.{
  Member, Result, Connected, connect, span_of, free_for_all, first_free, propose, best,
}

-- Nobody in the list has a commitment at an instant of the meeting.
abbrev pub IsClear : Time → ℕ → List Connected → Type 0
IsClear slot duration members =
    (t : Time) → slot ≤ t → t < slot + duration → any (λ m. any (covers t) m.busy) members ≡ false

module _ (slot : Time) (duration : ℕ) where
  clear_spans :
      (spans : List Interval) (t : Time)
      → slot ≤ t
      → t < slot + duration
      → any (overlaps (span_of slot duration)) spans ≡ false
      → any (covers t) spans ≡ false
  unfolding overlaps span_of
  clear_spans [] t a b h = refl
  clear_spans (i ∷ rest) t a b h = ground (arith, clear_spans rest t a b)

  free-IsClear :
      (members : List Connected)
      → free_for_all slot duration members ≡ true
      → IsClear slot duration members
  unfolding free_for_all
  free-IsClear [] h t a b = refl
  free-IsClear (m ∷ rest) h t a b =
      let ih = free-IsClear rest (ground arith) t a b in
      ground (arith, clear_spans m.busy t a b, ih)

module _ (duration : ℕ) (members : List Connected) where
  abbrev Frees : Time → Type 0
  Frees s = free_for_all s duration members ≡ true

  first_free-some :
      (xs : List Time) (s : Time)
      → Pairwise ◌≤◌ xs
      → first_free xs duration members ≡ some s
      → Mem s xs × Frees s × ((c : Time) → Mem c xs → Frees c → s ≤ c)
  unfolding first_free
  first_free-some [] s h e = absurd (cc)
  first_free-some (x ∷ xs) s h e = elim (Bool-cases (free_for_all x duration members)) [
    | inl hit ↦
        let q : x ≡ s = some-injective _ _ (rw hit at e) in
        subst (λ s. Mem s (x ∷ xs) × Frees s × ((c : Time) → Mem c (x ∷ xs) → Frees c → s ≤ c)) q
          (
            mem-cons_self,
            hit,
            λ c m f.
                Or.elim le_prop (mem-cons.0 m) (λ same. rw same (le_refl x))
                  (λ later. (Pairwise-cons.0 h).0 c later),
          )
    | inr miss ↦
        let (m, f, least) = first_free-some xs s (Pairwise-cons.0 h).1 (rw miss at e) in
        (
          mem-cons_of_mem x m,
          f,
          λ c k g.
              Or.elim le_prop (mem-cons.0 k) (λ same. absurd (ground (arith, rw same at g)))
                (λ later. least c later g),
        )
  ]

  first_free-none :
      (xs : List Time) → first_free xs duration members ≡ none → (c : Time) → Mem c xs → ¬ Frees c
  unfolding first_free
  first_free-none [] e c m f = not-mem-nil m
  first_free-none (x ∷ xs) e c m f = elim (Bool-cases (free_for_all x duration members)) [
    | inl hit ↦ absurd (ground arith)
    | inr miss ↦
        Or.elim ⊥_prop (mem-cons.0 m) (λ same. ground (arith, rw same at f))
          (λ later. first_free-none xs (rw miss at e) c later f)
  ]

sort-ltb : (xs : List Time) → Pairwise ◌≤◌ (sort ltb xs)
sort-ltb xs =
    sort-Pairwise ltb ◌≤◌ (λ a b. le_prop) (λ a b c h k. omega arith) (λ x p e. ground arith)
      (λ x p e. ground arith) xs

-- A meeting keeps clear of a commitment when it ends by the commitment's start or begins at its end
-- or later.
abbrev pub KeepsClear : Time → ℕ → Interval → Type 0
KeepsClear slot duration i = (slot + duration ≤ i.start) ⊎ (i.end ≤ slot)

-- A member without a calendar is left out: nothing is known of their commitments.
abbrev IsFreeOf : Time → ℕ → Option (List Interval) → Type 0
IsFreeOf slot duration none = Unit {0}
IsFreeOf slot duration (some spans) = All (KeepsClear slot duration) spans

abbrev pub IsFree : Time → ℕ → List Member → Type 0
IsFree slot duration members = All (λ m. IsFreeOf slot duration m.busy) members

abbrev pub HasNoCalendar : Member → Type 0
HasNoCalendar m = m.busy ≡ none

keeps_clear :
    (slot : Time) (duration : ℕ) (i : Interval)
    → overlaps (span_of slot duration) i ≡ false
    → KeepsClear slot duration i
unfolding overlaps span_of
keeps_clear slot duration i e = elim (Bool-cases (ltb slot i.end)) [
  | inl a ↦ inl (ground (arith, e, a))
  | inr a ↦ inr (ground (arith, a))
]

away :
    (slot : Time) (duration : ℕ) (i : Interval)
    → KeepsClear slot duration i
    → overlaps (span_of slot duration) i ≡ false
unfolding overlaps span_of
away slot duration i (inl h) = ground (arith, h)
away slot duration i (inr h) = ground (arith, h)

spans_apart :
    (slot : Time) (duration : ℕ) (spans : List Interval)
    → (any (overlaps (span_of slot duration)) spans ≡ false) ↔ All (KeepsClear slot duration) spans
spans_apart slot duration [] = (λ e. tt, λ h. refl)
spans_apart slot duration (i ∷ rest) =
    let ih = spans_apart slot duration rest in
    (
      λ e. (keeps_clear slot duration i (ground (arith, e)), ih.0 (ground (arith, e))),
      λ h. let now = away slot duration i h.0 in let later = ih.1 h.1 in ground (arith, now, later),
    )

free_for_all-IsFree :
    (slot : Time) (duration : ℕ) (members : List Member)
    → (free_for_all slot duration (connect members) ≡ true) ↔ IsFree slot duration members
unfolding free_for_all connect
free_for_all-IsFree slot duration [] = (λ e. tt, λ h. refl)
free_for_all-IsFree slot duration (m ∷ rest) =
    let (to, from) = free_for_all-IsFree slot duration rest in
    elim (Option-cases m.busy) [
      | inl e ↦ (λ h. rw e (tt, to (rw (e, connect) at h)), λ h. rw (e, connect) (from h.1))
      | inr (spans, e) ↦
          let (here, back) = spans_apart slot duration spans in
          let busy = any (overlaps (span_of slot duration)) spans in
          let others = any (λ m. any (overlaps (span_of slot duration)) m.busy) (connect rest) in
          (
            λ h.
                let k : not (busy || others) ≡ true = rw (e, connect) at h in
                rw e (here (ground (arith, k)), to (ground (arith, k))),
            λ h.
                let k : All (KeepsClear slot duration) spans × IsFree slot duration rest =
                  rw e at h in
                let a : busy ≡ false = back k.0 in
                let b : not others ≡ true = from k.1 in rw (e, connect) (ground (arith, a, b)),
          )
    ]

connect-none : (members : List Member) → connect members ≡ [] → All HasNoCalendar members
unfolding connect
connect-none [] e = tt
connect-none (m ∷ rest) e = elim (Option-cases m.busy) [
  | inl k ↦ (k, connect-none rest (rw (k, connect) at e))
  | inr (spans, k) ↦ absurd (
      let bad : record { name = m.name; busy = spans } ∷ connect rest ≡ [] = rw (k, connect) at e in
      cc)
]

connect_nobody : (members : List Member) → All HasNoCalendar members → connect members ≡ []
unfolding connect
connect_nobody [] h = refl
connect_nobody (m ∷ rest) h = rw (h.0, connect) (connect_nobody rest h.1)

-- What a proposal says. Free means free for every member who has a calendar.
abbrev pub Finds : List Time → ℕ → List Member → Result → Type 0
Finds candidates duration members r =
    ((r.found ≡ true)
      × ¬ (All HasNoCalendar members)
      × ((s : Time) × (r.slot ≡ some s)
          × Mem s candidates
          × IsFree s duration members
          × IsClear s duration (connect members)
          × ((c : Time) → Mem c candidates → IsFree c duration members → s ≤ c)))
    ⊎ ((r.found ≡ false)
        × (r.slot ≡ none)
        × (All HasNoCalendar members
            ⊎ ((c : Time) → Mem c candidates → ¬ (IsFree c duration members))))

-- The same by the list of the members with a calendar, and the test of the code.
abbrev Proposes : List Time → ℕ → List Connected → Result → Type 0
Proposes candidates duration members r =
    ((r.found ≡ true)
      × ¬ (members ≡ [])
      × ((s : Time) × (r.slot ≡ some s)
          × Mem s candidates
          × (free_for_all s duration members ≡ true)
          × ((c : Time) → Mem c candidates → free_for_all c duration members ≡ true → s ≤ c)))
    ⊎ ((r.found ≡ false)
        × (r.slot ≡ none)
        × ((members ≡ [])
            ⊎ ((c : Time) → Mem c candidates → ¬ (free_for_all c duration members ≡ true))))

propose-Proposes :
    (candidates : List Time) (duration : ℕ) (members : List Connected)
    → Proposes candidates duration members (propose candidates duration members)
unfolding propose
propose-Proposes candidates duration [] = inr (refl, refl, inl refl)
propose-Proposes candidates duration (m ∷ rest) =
    let sorted = λ (c : Time). (Perm.mem_iff {a = c} (sort-perm ltb candidates)) in
    elim (Option-cases (first_free (sort ltb candidates) duration (m ∷ rest))) [
      | inl gone ↦ inr (
        rw (gone, propose),
        rw (gone, propose),
        inr (λ c k free. first_free-none duration (m ∷ rest) _ gone c ((sorted c).1 k) free),
      )
      | inr (s, hit) ↦
          let (here, free, least) =
            first_free-some duration (m ∷ rest) _ s (sort-ltb candidates) hit in
          inl (
            rw (hit, propose),
            λ e. cc,
            (s, rw (hit, propose), (sorted s).0 here, free, λ c k f. least c ((sorted c).1 k) f),
          )
    ]

-- A proposal is found or it is not. If it is, some member has a calendar, its slot is a candidate,
-- the meeting there ends by the start of each commitment in a calendar or begins at its end or later,
-- so that no instant of it is taken, and every candidate of which this holds is at least as late. If
-- it is not, no slot is named, and no member has a calendar or it holds of no candidate.
pub best-Finds :
    (candidates : List Time) (duration : ℕ) (members : List Member)
    → Finds candidates duration members (best candidates duration members)
unfolding best
best-Finds candidates duration members =
    let free = λ (c : Time). free_for_all-IsFree c duration members in
    elim (propose-Proposes candidates duration (connect members)) [
      | inl (found, some_one, (s, at, here, clear, least)) ↦ inl (
        found,
        λ h. some_one (connect_nobody members h),
        (
          s,
          at,
          here,
          (free s).0 clear,
          free-IsClear s duration (connect members) clear,
          λ c k f. least c k ((free c).1 f),
        ),
      )
      | inr (lost, at, inl e) ↦ inr (lost, at, inl (connect-none members e))
      | inr (lost, at, inr f) ↦ inr (lost, at, inr (λ c k h. f c k ((free c).1 h)))
    ]
