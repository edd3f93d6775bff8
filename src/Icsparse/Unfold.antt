-- ===== src/Icsparse/Unfold.antt =====
-- Lemmas on `unfold` of api/internal/icsparse/icsparse.go: one content line read at a time.
use mathlib.Core.List.{append-nil, append_assoc}
use overlap.Common.{
  ℕ, false, List, [], ◌∷◌, ◌++◌, ◌≡◌, refl, sym, ap, ◌∙◌, ◌==◌, All, Bool-cases, inl, inr,
}
use overlap.Common.Text.{Runes, replace_one, replace_two, split, cons_first, cr, lf, Lacks}
use overlap.Icsparse.Lines.{lines_of, append_last, is_blank, take_line}

-- No line break.
abbrev pub IsOneLine : Runes → Type 0
IsOneLine = All (λ c. ((c == cr) ≡ false) × ((c == lf) ≡ false))

pub IsOneLine-Lacks : (s : Runes) → Lacks cr s → Lacks lf s → IsOneLine s
IsOneLine-Lacks [] h k = tt
IsOneLine-Lacks (c ∷ s) h k = ((h.0, k.0), IsOneLine-Lacks s h.1 k.1)

replace_two-cons :
    (p q : ℕ) (new : Runes) (c : ℕ) (cs : Runes)
    → (c == p) ≡ false
    → replace_two p q new (c ∷ cs) ≡ c ∷ replace_two p q new cs
unfolding replace_two
replace_two-cons p q new c [] e = refl
replace_two-cons p q new c (d ∷ cs) e = rw e refl

lines_of-cons :
    (c : ℕ) (cs : Runes)
    → (c == cr) ≡ false
    → (c == lf) ≡ false
    → lines_of (c ∷ cs) ≡ cons_first c (lines_of cs)
unfolding lines_of replace_one split
lines_of-cons c cs e k = rw (replace_two-cons cr lf (lf ∷ []) c cs e, replace_one, e, split, k) refl

lines_of-crlf : (rest : Runes) → lines_of (cr ∷ lf ∷ rest) ≡ [] ∷ lines_of rest
unfolding lines_of replace_one replace_two split
lines_of-crlf rest = refl

pub lines_of-line :
    (s rest : Runes) → IsOneLine s → lines_of (s ++ cr ∷ lf ∷ rest) ≡ s ∷ lines_of rest
lines_of-line [] rest h = lines_of-crlf rest
lines_of-line (c ∷ s) rest h =
    rw (lines_of-cons c (s ++ cr ∷ lf ∷ rest) h.0.0 h.0.1, lines_of-line s rest h.1) refl

pub append_last-nil : (out : List Runes) → append_last [] out ≡ out
unfolding append_last
append_last-nil [] = refl
append_last-nil (l ∷ []) = rw append-nil refl
append_last-nil (l ∷ m ∷ out) = ap (◌∷◌ l) (append_last-nil (m ∷ out))

append_last_cons :
    (s l : Runes) (out : List Runes)
    → (l' : Runes) × (out' : List Runes) × (append_last s (l ∷ out) ≡ l' ∷ out')
unfolding append_last
append_last_cons s l [] = (l ++ s, [], refl)
append_last_cons s l (m ∷ out) = (l, append_last s (m ∷ out), refl)

append_last_skip :
    (s l : Runes) (out : List Runes) (m : Runes) (rest : List Runes)
    → out ≡ m ∷ rest
    → append_last s (l ∷ out) ≡ l ∷ append_last s out
unfolding append_last
append_last_skip s l out m rest e = rw e refl

pub append_last-append :
    (s t : Runes) (out : List Runes) → append_last (s ++ t) out ≡ append_last t (append_last s out)
unfolding append_last
append_last-append s t [] = refl
append_last-append s t (l ∷ []) = rw append_assoc refl
append_last-append s t (l ∷ m ∷ out) =
    let (l', out', e) = append_last_cons s m out in
    ap (◌∷◌ l) (append_last-append s t (m ∷ out))
    ∙ sym (append_last_skip t l (append_last s (m ∷ out)) l' out' e)

pub append_last-snoc :
    (s l : Runes) (out : List Runes) → append_last s (out ++ l ∷ []) ≡ out ++ (l ++ s) ∷ []
unfolding append_last
append_last-snoc s l [] = refl
append_last-snoc s l (m ∷ []) = refl
append_last-snoc s l (m ∷ n ∷ out) = ap (◌∷◌ m) (append_last-snoc s l (n ∷ out))

pub take_line-cons :
    (out : List Runes) (h : ℕ) (t : Runes)
    → (l : Runes) × (out' : List Runes) × (take_line out (h ∷ t) ≡ l ∷ out')
unfolding take_line
take_line-cons [] h t = (h ∷ t, [], refl)
take_line-cons (l ∷ out) h t = elim (Bool-cases (is_blank h)) [
  | inl e ↦ rw e (append_last_cons t l out)
  | inr e ↦ rw e (l, out ++ (h ∷ t) ∷ [], refl)
]

pub take_line-snoc :
    (out : List Runes) (h : ℕ) (t : Runes) (c : ℕ)
    → take_line out (h ∷ (t ++ c ∷ [])) ≡ append_last (c ∷ []) (take_line out (h ∷ t))
unfolding take_line
take_line-snoc [] h t c = unfold append_last in refl
take_line-snoc (l ∷ out) h t c = elim (Bool-cases (is_blank h)) [
  | inl e ↦ rw e (append_last-append t (c ∷ []) (l ∷ out))
  | inr e ↦ rw e (sym (append_last-snoc (c ∷ []) (h ∷ t) (l ∷ out)))
]

pub take_line_continuation :
    (out : List Runes) (l : Runes) (out' : List Runes) (t : Runes)
    → out ≡ l ∷ out'
    → take_line out (b' ' ∷ t) ≡ append_last t out
unfolding take_line
take_line_continuation out l out' t e = rw e refl

pub take_line_start :
    (out : List Runes) (h : ℕ) (t : Runes)
    → is_blank h ≡ false
    → take_line out (h ∷ t) ≡ out ++ (h ∷ t) ∷ []
unfolding take_line
take_line_start [] h t e = refl
take_line_start (l ∷ out) h t e = rw e refl
