-- ===== src/Icsparse/Merge.antt =====
-- `Merge` of api/internal/icsparse/icsparse.go.
use mathlib.Core.List.{Perm, Permᴰ, Pairwise, Pairwise-cons, Mem, mem-cons_self, mem-cons_of_mem}
use native.Mathlib.Bridge.{le_prop}
use mathlib.Core.Logic.{∥∥₁_elim}
use overlap.Common.{
  ◌≤◌, ◌<◌, ◌≡◌, refl, ap, ◌∙◌, Bool, false, ◌||◌, List, [], ◌∷◌, arith, ltb, any, All, Bool-cases,
  inl, inr, ltb→lt,
}
use overlap.Common.Sort.{sort, sort-perm, sort-Pairwise}
use overlap.Time.{Time}
use overlap.Icsparse.{Interval, starts_before, widen, coalesce, coalesce_all, merge, covers}

any-permᴰ : {A : Type 0} (p : A → Bool) {xs ys : List A} → Permᴰ xs ys → any p xs ≡ any p ys
any-permᴰ p Permᴰ.nil = refl
any-permᴰ p (Permᴰ.cons e h) = ground (arith, any-permᴰ p h, ap p e)
any-permᴰ p (Permᴰ.swap e f) = ground (arith, ap p e, ap p f)
any-permᴰ p (Permᴰ.trans h k) = any-permᴰ p h ∙ any-permᴰ p k

pub any-perm : {A : Type 0} (p : A → Bool) {xs ys : List A} → Perm xs ys → any p xs ≡ any p ys
any-perm p h = ∥∥₁_elim h (hlevel) (any-permᴰ p)

-- Starts do not fall along the list, from `lo` on.
abbrev pub IsRising : Time → List Interval → Type 0
IsRising lo [] = Unit {0}
IsRising lo (i ∷ rest) = (lo ≤ i.start) × IsRising i.start rest

-- Each interval starts after the one before has ended, the first after `e`, with instants between.
abbrev pub AreSpaced : Time → List Interval → Type 0
AreSpaced e [] = Unit {0}
AreSpaced e (i ∷ rest) = (e < i.start) × AreSpaced i.end rest

abbrev pub AreApart : List Interval → Type 0
AreApart [] = Unit {0}
AreApart (i ∷ rest) = AreSpaced i.end rest

All-of_Mem {κ} : {A : Type 0} (P : A → Type κ) (xs : List A) → ((a : A) → Mem a xs → P a) → All P xs
All-of_Mem P [] h = tt
All-of_Mem P (x ∷ xs) h = (h x mem-cons_self, All-of_Mem P xs (λ a m. h a (mem-cons_of_mem x m)))

IsRising-of_Pairwise :
    (lo : Time) (xs : List Interval)
    → All (λ i. lo ≤ i.start) xs
    → Pairwise (λ a b. a.start ≤ b.start) xs
    → IsRising lo xs
IsRising-of_Pairwise lo [] a h = tt
IsRising-of_Pairwise lo (i ∷ rest) a h =
    let p = Pairwise-cons.0 h in
    (a.0, IsRising-of_Pairwise i.start rest (All-of_Mem _ rest p.0) p.1)

pub sort-IsRising : (xs : List Interval) → IsRising 0 (sort starts_before xs)
unfolding starts_before
sort-IsRising xs = IsRising-of_Pairwise 0 _ (All-of_Mem _ _ (λ a m. omega arith)) (
    sort-Pairwise starts_before (λ a b. a.start ≤ b.start) (λ a b. le_prop)
      (λ a b c h k. omega arith) (λ x p e. ground arith) (λ x p e. ground arith) xs)

IsRising-mono : {lo hi : Time} (xs : List Interval) → lo ≤ hi → IsRising hi xs → IsRising lo xs
IsRising-mono [] h r = tt
IsRising-mono (i ∷ rest) h r = (omega arith, r.1)

widen-start : (last cur : Interval) → (widen last cur).start ≡ last.start
unfolding widen
widen-start last cur = ground arith

widen-covers :
    (last cur : Interval) (t : Time)
    → last.start ≤ cur.start
    → ltb last.end cur.start ≡ false
    → covers t (widen last cur) ≡ (covers t last || covers t cur)
unfolding widen
widen-covers last cur t h touch = ground arith

widen-IsRising :
    (last cur : Interval) (rest : List Interval)
    → IsRising last.start (cur ∷ rest)
    → IsRising (widen last cur).start rest
widen-IsRising last cur rest h = rw (widen-start last cur) (IsRising-mono rest h.0 h.1)

coalesce-covers :
    (last : Interval) (rest : List Interval) (t : Time)
    → IsRising last.start rest
    → any (covers t) (coalesce last rest) ≡ (covers t last || any (covers t) rest)
unfolding coalesce
coalesce-covers last [] t h = refl
coalesce-covers last (cur ∷ rest) t h = elim (Bool-cases (ltb last.end cur.start)) [
  | inl gap ↦ rw gap (ap (λ b. covers t last || b) (coalesce-covers cur rest t h.1))
  | inr touch ↦
      let ih = coalesce-covers (widen last cur) rest t (widen-IsRising last cur rest h) in
      let both = widen-covers last cur t h.0 touch in rw touch (ground (arith, ih, both))
]

coalesce-AreSpaced :
    (e : Time) (last : Interval) (rest : List Interval)
    → e < last.start
    → IsRising last.start rest
    → AreSpaced e (coalesce last rest)
unfolding coalesce
coalesce-AreSpaced e last [] h r = (h, tt)
coalesce-AreSpaced e last (cur ∷ rest) h r = elim (Bool-cases (ltb last.end cur.start)) [
  | inl gap ↦ rw gap (h, coalesce-AreSpaced last.end cur rest (ltb→lt last.end cur.start gap) r.1)
  | inr touch ↦
      let later : e < (widen last cur).start = rw (widen-start last cur) h in
      rw touch (coalesce-AreSpaced e (widen last cur) rest later (widen-IsRising last cur rest r))
]

coalesce-AreApart :
    (last : Interval) (rest : List Interval)
    → IsRising last.start rest
    → AreApart (coalesce last rest)
unfolding coalesce
coalesce-AreApart last [] r = tt
coalesce-AreApart last (cur ∷ rest) r = elim (Bool-cases (ltb last.end cur.start)) [
  | inl gap ↦ rw gap (coalesce-AreSpaced last.end cur rest (ltb→lt last.end cur.start gap) r.1)
  | inr touch ↦ rw touch (coalesce-AreApart (widen last cur) rest (widen-IsRising last cur rest r))
]

coalesce_all-merges :
    (xs : List Interval) (t : Time)
    → IsRising 0 xs
    → (any (covers t) (coalesce_all xs) ≡ any (covers t) xs) × AreApart (coalesce_all xs)
unfolding coalesce_all
coalesce_all-merges [] t r = (refl, tt)
coalesce_all-merges (i ∷ rest) t r = (coalesce-covers i rest t r.1, coalesce-AreApart i rest r.1)

-- Merging neither loses nor adds an instant of commitment, and what it returns is in order and
-- apart: after each interval there is a free instant before the next one starts.
pub merge-covers :
    (spans : List Interval) (t : Time)
    → (any (covers t) (merge spans) ≡ any (covers t) spans) × AreApart (merge spans)
unfolding merge
merge-covers spans t =
    let r = coalesce_all-merges (sort starts_before spans) t (sort-IsRising spans) in
    (r.0 ∙ any-perm (covers t) (sort-perm starts_before spans), r.1)
