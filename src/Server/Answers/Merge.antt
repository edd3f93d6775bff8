-- ===== src/Server/Answers/Merge.antt =====
-- What `mergeCalendarRows` of api/internal/server/responses.go keeps.
use mathlib.Core.List.{
  Mem, mem-cons, mem-cons_self, mem-cons_of_mem, not-mem-nil, mem-append, mem-append_left,
  mem-append_right, Mem-prop,
}
use mathlib.Core.List.Perm
use mathlib.Core.Logic.Or
use text.Mathlib.TextEquality.{IsScalar-prop, eq_iff}
use overlap.Common.{
  ℕ, ◌≡◌, ◌↔◌, refl, sym, ap, ◌∙◌, subst, ◌||◌, ◌==◌, foldl, All, Bool, true, false, not, ◌&&◌,
  List, [], ◌∷◌, ◌++◌, any, arith, Bool-cases, inl, inr,
}
use overlap.Common.Maps.{string_key, nat_key, update}
use overlap.Common.Sort.{sort-perm}
use overlap.Common.Int.{pos}
use overlap.Time.Nanos.{unix_nano, IsNear, unix_nano-IsNear}
use overlap.Store.{Response, source_calendar}
use overlap.Server.Answers.{before, seen_in, silent_calendar, merge_calendar_rows}

-- Whether the rows state something about the slot of another.
abbrev pub speaks_of : List Response → Response → Bool
speaks_of stated r = any (λ q. q.slot_start == r.slot_start) stated

-- Instants that an int64 holds in nanoseconds.
abbrev pub AreNear : List Response → Type 0
AreNear rows = All (λ q. IsNear q.slot_start) rows

seen_before :
    (stated : List Response) (m : ℕ → Bool) (k : ℕ)
    → AreNear stated
    → foldl (λ m r. update m (unix_nano (pos r.slot_start)) true) m stated k
      ≡ (any (λ q. q.slot_start == k) stated || m k)
seen_before [] m k h = refl
seen_before (q ∷ rest) m k h =
    seen_before rest (update m (unix_nano (pos q.slot_start)) true) k h.1
    ∙ rw (unix_nano-IsNear q.slot_start h.0)
        (elim (Bool-cases (q.slot_start == k)) [ inl e ↦ rw e (ground arith) | inr e ↦ rw e refl ])

or_false : (b : Bool) → (b || false) ≡ b
or_false true = refl
or_false false = refl

seen_in-speaks_of :
    (stated : List Response) (r : Response)
    → AreNear stated
    → IsNear r.slot_start
    → seen_in stated (unix_nano (pos r.slot_start)) ≡ speaks_of stated r
unfolding seen_in
seen_in-speaks_of stated r h k =
    ap (seen_in stated) (unix_nano-IsNear r.slot_start k)
    ∙ seen_before stated (λ k. false) r.slot_start h
    ∙ or_false (speaks_of stated r)

speaks_of_own : (stated : List Response) (r : Response) → Mem r stated → speaks_of stated r ≡ true
speaks_of_own [] r m = absurd (not-mem-nil m)
speaks_of_own (s ∷ rest) r m =
    Or.elim (hlevel) (mem-cons.0 m)
      (λ same. subst (λ q. speaks_of (q ∷ rest) r ≡ true) same (ground arith))
      (λ later. ground (arith, speaks_of_own rest r later))

abbrev IsKept : (ℕ → Bool) → Response → Type 0
IsKept seen r = (r.source ≡ source_calendar) × (seen (unix_nano (pos r.slot_start)) ≡ false)

abbrev kept : (ℕ → Bool) → Response → Bool
kept seen r = string_key.beq r.source source_calendar && not (seen (unix_nano (pos r.slot_start)))

kept_iff : (seen : ℕ → Bool) (r : Response) → (kept seen r ≡ true) ↔ IsKept seen r
kept_iff seen r = ground (arith, eq_iff r.source source_calendar)

silent_calendar_complete :
    (seen : ℕ → Bool) (prior : List Response) (r : Response)
    → Mem r prior
    → IsKept seen r
    → Mem r (silent_calendar seen prior)
unfolding silent_calendar
silent_calendar_complete seen [] r m h = absurd (not-mem-nil m)
silent_calendar_complete seen (p ∷ prior) r m h =
    let rows = silent_calendar seen prior in
    Or.elim Mem-prop (mem-cons.0 m)
      (λ same.
        let k : kept seen p ≡ true = (kept_iff seen p).1 (subst (IsKept seen) same h) in
        rw k (subst (λ q. Mem q (p ∷ rows)) (sym same) mem-cons_self))
      (λ later.
        let ih = silent_calendar_complete seen prior r later h in
        elim (Bool-cases (kept seen p)) [ inl k ↦ rw k (mem-cons_of_mem p ih) | inr k ↦ rw k ih ])

silent_calendar_sound :
    (seen : ℕ → Bool) (prior : List Response) (r : Response)
    → Mem r (silent_calendar seen prior)
    → Mem r prior × IsKept seen r
unfolding silent_calendar
silent_calendar_sound seen [] r m = absurd (not-mem-nil m)
silent_calendar_sound seen (p ∷ prior) r m =
    let rows = silent_calendar seen prior in
    let older = λ (n : Mem r rows).
      let (a, b) = silent_calendar_sound seen prior r n in
      let all : Mem r (p ∷ prior) × IsKept seen r = (mem-cons_of_mem p a, b) in all in
    elim (Bool-cases (kept seen p)) [
      | inr k ↦ older (rw k at m)
      | inl k ↦
          let n : Mem r (p ∷ rows) = rw k at m in
          let new : IsKept seen p = (kept_iff seen p).0 k in
          (
            Or.elim Mem-prop (mem-cons.0 n)
                (λ same. subst (λ q. Mem q (p ∷ prior)) (sym same) mem-cons_self)
                (λ later. (older later).0),
            Or.elim (hlevel (IsScalar-prop)) (mem-cons.0 n)
                (λ same. subst (IsKept seen) (sym same) new) (λ later. (older later).1),
          )
    ]

-- What decides whether a row results, by whether its slot is stated.
abbrev pub Survives : List Response → List Response → Response → Bool → Type 0
Survives stated prior r true = Mem r stated
Survives stated prior r false = Mem r prior × (r.source ≡ source_calendar)

merged_iff :
    (stated prior : List Response) (r : Response) (b : Bool)
    → AreNear stated
    → IsNear r.slot_start
    → speaks_of stated r ≡ b
    → Mem r (stated ++ silent_calendar (seen_in stated) prior) ↔ Survives stated prior r b
merged_iff stated prior r true h k e = (
  λ m.
      Or.elim Mem-prop (mem-append.0 m) (λ a. a)
        (λ b.
          let (x, (y, z)) = silent_calendar_sound (seen_in stated) prior r b in
          let s = seen_in-speaks_of stated r h k in absurd (ground (arith, e, z, s))),
  mem-append_left (silent_calendar (seen_in stated) prior),
)
merged_iff stated prior r false near k e =
    let away : Mem r stated → ⊥ = λ a. let t = speaks_of_own stated r a in ground (arith, e, t) in
    (
      λ m.
          let n = mem-append.0 m in
          (
            Or.elim Mem-prop n (λ a. absurd (away a))
                (λ b. (silent_calendar_sound (seen_in stated) prior r b).0),
            Or.elim (hlevel (IsScalar-prop)) n (λ a. absurd (away a))
                (λ b. (silent_calendar_sound (seen_in stated) prior r b).1.0),
          ),
      λ h. mem-append_right stated (
          silent_calendar_complete (seen_in stated) prior r h.0
            (h.1, seen_in-speaks_of stated r near k ∙ e)),
    )

-- Submitting answers again leaves exactly these rows: of a slot that is stated, the rows stated; of
-- any other slot, the earlier rows that came from a calendar. The instants lie before 2262, where
-- `UnixNano` does not wrap.
pub merge_calendar_rows-Survives :
    (stated prior : List Response) (r : Response)
    → AreNear stated
    → IsNear r.slot_start
    → Mem r (merge_calendar_rows stated prior) ↔ Survives stated prior r (speaks_of stated r)
unfolding merge_calendar_rows
merge_calendar_rows-Survives stated prior r near k =
    let moved = sort-perm before (stated ++ silent_calendar (seen_in stated) prior) in
    let same = merged_iff stated prior r (speaks_of stated r) near k refl in
    (λ m. same.0 ((Perm.mem_iff moved).0 m), λ h. (Perm.mem_iff moved).1 (same.1 h))
