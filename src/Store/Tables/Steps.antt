-- ===== src/Store/Tables/Steps.antt =====
-- Lemmas on the steps of Store/Tables.antt: what a step that succeeds, or one that fails, went through.
use mathlib.Core.Option.{some-injective}
use overlap.Common.{
  suc, length, ◌≡◌, refl, sym, ap, Bool, true, List, [], ◌∷◌, ◌++◌, none, some, Bool-cases,
  Option-cases, inl, inr, ◌⊎◌, if◌then◌else◌,
}
use overlap.Common.Text.{Runes}
use overlap.Store.Tables.{
  Db, Error, failed, Result, ok, err, World, State, Step, next, ◌>>=◌, Query, put, tick, exec,
  finish, transaction, draw, find, update_rows,
}

module _ {A B : Type 0} where
  pub next-ok :
      (x : Result A × State) (f : A → Step B) (b : B) (t : State)
      → next x f ≡ (ok b, t)
      → (a : A) × (s : State) × (x ≡ (ok a, s)) × (f a s ≡ (ok b, t))
  next-ok (ok a, s) f b t e = (a, s, refl, e)
  next-ok (err c, s) f b t e = absurd (cc)

  pub bind-ok :
      (m : Step A) (f : A → Step B) (r : State) (b : B) (t : State)
      → (m >>= f) r ≡ (ok b, t)
      → (a : A) × (s : State) × (m r ≡ (ok a, s)) × (f a s ≡ (ok b, t))
  bind-ok m f r b t e = next-ok (m r) f b t e

  -- A failure is the first step's, or the second's.
  pub next-err :
      (x : Result A × State) (f : A → Step B) (c : Error) (t : State)
      → next x f ≡ (err c, t)
      → (x ≡ (err c, t)) ⊎ ((a : A) × (s : State) × (x ≡ (ok a, s)) × (f a s ≡ (err c, t)))
  next-err (ok a, s) f c t e = inr (a, s, refl, e)
  next-err (err d, s) f c t e = inl (cc)

module _ {A : Type 0} where
  put-ok :
      (s : State) (x : Result A × Db) (a : A) (t : State) → put s x ≡ (ok a, t) → x ≡ (ok a, t.db)
  put-ok s (ok b, db) a t e = ap (λ p. (p.0, p.1.db)) e
  put-ok s (err b, db) a t e = absurd (cc)

  pub exec-ok :
      (w : World) (q : Query A) (s : State) (a : A) (t : State)
      → exec w q s ≡ (ok a, t)
      → q s.calls s.db ≡ (ok a, t.db)
  unfolding exec
  exec-ok w q s a t e = elim (Bool-cases (w.fails s.calls)) [
    | inl h ↦ absurd (let bad : (err failed, tick s) ≡ (ok a, t) = rw (exec, h) at e in cc)
    | inr h ↦ put-ok s (q s.calls s.db) a t (rw (exec, h) at e)
  ]

put-keeps : {A : Type 0} (s : State) (x : Result A × Db) → x.1 ≡ s.db → (put s x).1.db ≡ s.db
put-keeps s (r, db) e = e

-- A statement that only reads.
pub exec-reads :
    {A : Type 0} (w : World) (q : Query A) (s : State)
    → (q s.calls s.db).1 ≡ s.db
    → (exec w q s).1.db ≡ s.db
unfolding exec
exec-reads w q s h = elim (Bool-cases (w.fails s.calls)) [
  | inl f ↦ rw (exec, f) refl
  | inr f ↦ rw (exec, f) (put-keeps s (q s.calls s.db) h)
]

pub ok-injective :
    {A : Type 0} (a b : A) (x y : Db) → ◌≡◌ {A = Result A × Db} (ok a, x) (ok b, y) → a ≡ b
ok-injective a b x y e = let same : ok a ≡ ok b = ap (λ p. p.0) e in cc

pub pure-ok :
    {A : Type 0} (a b : A) (s t : State)
    → ◌≡◌ {A = Result A × State} (ok a, s) (ok b, t)
    → (b ≡ a) × (t.db ≡ s.db)
pure-ok a b s t e =
    let same : ok a ≡ ok b = ap (λ p. p.0) e in
    let value : a ≡ b = cc in (sym value, sym (ap (λ p. p.1.db) e))

pub new_draw : (w : World) (s : State) (a : Runes) (t : State) → draw w s ≡ (ok a, t) → t.db ≡ s.db
unfolding draw
new_draw w s a t e = elim (Option-cases (w.random s.calls)) [
  | inl h ↦ absurd (let bad : (err failed, tick s) ≡ (ok a, t) = rw (draw, h) at e in cc)
  | inr (b, h) ↦
      let same : (ok b, tick s) ≡ (ok a, t) = rw (draw, h) at e in sym (ap (λ p. p.1.db) same)
]

module _ {R : Type 0} where
  pub find-holds : (p : R → Bool) (rs : List R) (r : R) → find p rs ≡ some r → p r ≡ true
  find-holds p [] r e = absurd (cc)
  find-holds p (x ∷ rs) r e = elim (Bool-cases (p x)) [
    | inl h ↦ let same : some x ≡ some r = rw h at e in rw (← some-injective _ _ same) h
    | inr h ↦ find-holds p rs r (rw h at e)
  ]

  touched :
      (p q : R → Bool) (f : R → R) (x : R)
      → ((y : R) → p (f y) ≡ p y)
      → p (if q x then f x else x) ≡ p x
  touched p q f x keep = elim (Bool-cases (q x)) [ inl h ↦ rw h (keep x) | inr h ↦ rw h refl ]

  -- An update that keeps what a search looks at keeps where it stops.
  pub find-update_rows :
      (p q : R → Bool) (f : R → R) (rs : List R) (r : R)
      → ((x : R) → p (f x) ≡ p x)
      → find p rs ≡ some r
      → find p (update_rows q f rs) ≡ some (if q r then f r else r)
  find-update_rows p q f [] r keep e = absurd (cc)
  find-update_rows p q f (x ∷ rs) r keep e = elim (Bool-cases (p x)) [
    | inl h ↦
        let same : some x ≡ some r = rw h at e in
        rw (touched p q f x keep, h, some-injective _ _ same) refl
    | inr h ↦ rw (touched p q f x keep, h) (find-update_rows p q f rs r keep (rw h at e))
  ]

  pub find-snoc :
      (p : R → Bool) (rs : List R) (r : R)
      → find p rs ≡ none
      → p r ≡ true
      → find p (rs ++ r ∷ []) ≡ some r
  find-snoc p [] r e h = rw h refl
  find-snoc p (x ∷ rs) r e h = elim (Bool-cases (p x)) [
    | inl k ↦ absurd (let bad : some x ≡ none = rw k at e in cc)
    | inr k ↦ rw k (find-snoc p rs r (rw k at e) h)
  ]

  pub length-update_rows :
      (q : R → Bool) (f : R → R) (rs : List R) → length (update_rows q f rs) ≡ length rs
  length-update_rows q f [] = refl
  length-update_rows q f (x ∷ rs) = ap suc (length-update_rows q f rs)

-- Whether a step has done `Q`, or has failed and left the tables as they were.
abbrev pub Done : {A : Type 0} → (A → Db → Type 0) → Db → Result A × State → Type 0
Done Q db (err e, t) = t.db ≡ db
Done Q db (ok a, t) = Q a t.db

module _ {A : Type 0} (Q : A → Db → Type 0) (w : World) where
  finish-Done :
      (s : State) (x : Result A × State)
      → ((a : A) (u : State) → x ≡ (ok a, u) → Q a u.db)
      → Done Q s.db (finish w s x)
  unfolding finish
  finish-Done s (err e, u) h = refl
  finish-Done s (ok a, u) h = elim (Bool-cases (w.fails u.calls)) [
    | inl f ↦ rw f refl
    | inr f ↦ rw f (h a u refl)
  ]

  -- A transaction is atomic.
  pub transaction-Done :
      (m : Step A) (s : State)
      → ((a : A) (u : State) → m (tick s) ≡ (ok a, u) → Q a u.db)
      → Done Q s.db (transaction w m s)
  unfolding transaction
  transaction-Done m s h = elim (Bool-cases (w.fails s.calls)) [
    | inl f ↦ rw (transaction, f) refl
    | inr f ↦ rw (transaction, f) (finish-Done s (m (tick s)) h)
  ]

  pub next-Done :
      {B : Type 0} (db : Db) (x : Result B × State) (f : B → Step A)
      → x.1.db ≡ db
      → ((b : B) (s : State) → s.db ≡ db → Done Q db (f b s))
      → Done Q db (next x f)
  next-Done db (ok b, s) f h k = k b s h
  next-Done db (err e, s) f h k = h
