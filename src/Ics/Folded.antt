-- ===== src/Ics/Folded.antt =====
-- `writeFolded` of api/internal/ics/ics.go against `unfold` of api/internal/icsparse/icsparse.go.
use mathlib.Core.List.{append-nil, append_assoc}
use overlap.Common.{
  ℕ, ◌+◌, ◌≤◌, Bool, true, false, List, [], ◌∷◌, ◌++◌, ◌≡◌, refl, sym, ap, ◌∙◌, ltb, leb, All,
  Bool-cases, inl, inr, arith,
}
use overlap.Common.Text.{
  Runes, width, width_le, octets, octets-append, split, replace_one, replace_two,
}
use overlap.Icsparse.Lines.{lines_of, append_last, is_blank, take_line, unfold_loop}
use overlap.Icsparse.Unfold.{
  IsOneLine, lines_of-line, append_last-nil, append_last-append, append_last-snoc, take_line-cons,
  take_line-snoc, take_line_continuation, take_line_start,
}
use overlap.Ics.{max_octets, crlf, limit_of, fold_from, write_folded, write_all}

-- A line that `unfold` takes for a new one: not empty, no break, and no blank in front.
abbrev pub IsContent : Runes → Type 0
IsContent [] = ⊥
IsContent (h ∷ t) = (is_blank h ≡ false) × IsOneLine (h ∷ t)

IsOneLine-snoc : (s : Runes) (c : ℕ) → IsOneLine s → IsOneLine (c ∷ []) → IsOneLine (s ++ c ∷ [])
IsOneLine-snoc [] c h k = k
IsOneLine-snoc (d ∷ s) c h k = (h.0, IsOneLine-snoc s c h.1 k)

read-line :
    (out : List Runes) (s rest : Runes)
    → IsOneLine s
    → unfold_loop out (lines_of (s ++ (crlf ++ rest)))
      ≡ unfold_loop (take_line out s) (lines_of rest)
unfolding unfold_loop
read-line out s rest h = rw (lines_of-line s rest h) refl

-- `h ∷ t` is the line written so far, and `cs` are the runes that are left.
read-fold :
    (out : List Runes) (h : ℕ) (t : Runes) (used : ℕ) (first : Bool) (cs rest : Runes)
    → IsOneLine (h ∷ t)
    → IsOneLine cs
    → unfold_loop out (lines_of ((h ∷ t) ++ (fold_from used first cs ++ rest)))
      ≡ unfold_loop (append_last cs (take_line out (h ∷ t))) (lines_of rest)
unfolding fold_from
read-fold out h t used first [] rest ht hc =
    rw (append_last-nil (take_line out (h ∷ t))) (read-line out (h ∷ t) rest ht)
read-fold out h t used first (c ∷ cs) rest ht hc =
    elim (Bool-cases (ltb (limit_of first) (used + width c))) [
      | inl e ↦
          let more = b' ' ∷ c ∷ (fold_from (0 + width c) false cs ++ rest) in
          let (l, out', x) = take_line-cons out h t in
          let one : IsOneLine (c ∷ []) = (hc.0, tt) in
          let blank : IsOneLine (b' ' ∷ c ∷ []) = ((refl, refl), one) in
          rw e (
            read-line out (h ∷ t) more ht
            ∙ read-fold (take_line out (h ∷ t)) b' ' (c ∷ []) (0 + width c) false cs rest blank hc.1
            ∙ rw
                (
                  take_line_continuation (take_line out (h ∷ t)) l out' (c ∷ []) x,
                  ← append_last-append (c ∷ []) cs (take_line out (h ∷ t)),
                )
                refl)
      | inr e ↦
          let grown = IsOneLine-snoc (h ∷ t) c ht (hc.0, tt) in
          let after = fold_from (used + width c) first cs ++ rest in
          rw e (
            ap (λ x. unfold_loop out (lines_of (h ∷ x))) (sym (append_assoc t (c ∷ []) after))
            ∙ read-fold out h (t ++ c ∷ []) (used + width c) first cs rest grown hc.1
            ∙ rw
                (take_line-snoc out h t c, ← append_last-append (c ∷ []) cs (take_line out (h ∷ t)))
                refl)
    ]

width_le_limit : (c : ℕ) → ltb max_octets (0 + width c) ≡ false
width_le_limit c = ground (arith, width_le c)

pub read-write_folded :
    (out : List Runes) (line rest : Runes)
    → IsContent line
    → unfold_loop out (lines_of (write_folded line ++ rest))
      ≡ unfold_loop (out ++ line ∷ []) (lines_of rest)
unfolding write_folded fold_from unfold_loop
read-write_folded out (h ∷ t) rest hl = elim (Bool-cases (leb (octets (h ∷ t)) max_octets)) [
  | inl e ↦
      rw (e, append_assoc (h ∷ t) crlf rest)
        (read-line out (h ∷ t) rest hl.1 ∙ rw (take_line_start out h t hl.0) refl)
  | inr e ↦
      rw (e, fold_from, width_le_limit h)
        (read-fold out h [] (0 + width h) true t rest (hl.1.0, tt) hl.1.1
          ∙ rw (take_line_start out h [] hl.0, append_last-snoc t (h ∷ []) out) refl)
]
read-write_folded out [] rest hl = absurd hl

-- `unfold` gives back the content lines that were written, folded, one after the other.
pub unfold-write_all :
    (lines : List Runes) (out : List Runes)
    → All IsContent lines
    → unfold_loop out (lines_of (write_all lines)) ≡ out ++ lines
unfolding write_all split replace_one replace_two
unfold-write_all [] out h = unfold lines_of unfold_loop take_line in sym (append-nil out)
unfold-write_all (line ∷ rest) out h =
    read-write_folded out line (write_all rest) h.0
    ∙ unfold-write_all rest (out ++ line ∷ []) h.1
    ∙ append_assoc out (line ∷ []) rest

-- A line within the limit of RFC 5545.
abbrev pub Fits : Runes → Type 0
Fits l = octets l ≤ max_octets

-- The blank in front of a continuation counts.
abbrev lead : Bool → ℕ
lead true = 0
lead false = 1

line_Fits :
    (t : Runes) (used : ℕ) (first : Bool)
    → octets t ≡ used + lead first
    → used ≤ limit_of first
    → Fits t
line_Fits t used true size room = omega (arith, size, room)
line_Fits t used false size room = omega (arith, size, room)

fold-Fits :
    (t : Runes) (used : ℕ) (first : Bool) (cs rest : Runes)
    → IsOneLine t
    → IsOneLine cs
    → octets t ≡ used + lead first
    → used ≤ limit_of first
    → All Fits (lines_of rest)
    → All Fits (lines_of (t ++ (fold_from used first cs ++ rest)))
unfolding fold_from octets width
fold-Fits t used first [] rest ht hc size room hr =
    rw (lines_of-line t rest ht) (line_Fits t used first size room, hr)
fold-Fits t used first (c ∷ cs) rest ht hc size room hr =
    elim (Bool-cases (ltb (limit_of first) (used + width c))) [
      | inl e ↦
          let more = b' ' ∷ c ∷ (fold_from (0 + width c) false cs ++ rest) in
          let start : IsOneLine (b' ' ∷ c ∷ []) = ((refl, refl), (hc.0, tt)) in
          let next =
            fold-Fits (b' ' ∷ c ∷ []) (0 + width c) false cs rest start hc.1
              (unfold octets width in ground arith) (omega (arith, width_le c)) hr in
          rw (e, lines_of-line t more ht) (line_Fits t used first size room, next)
      | inr e ↦
          let after = fold_from (used + width c) first cs ++ rest in
          let grown = IsOneLine-snoc t c ht (hc.0, tt) in
          let total : octets (t ++ c ∷ []) ≡ used + width c + lead first =
            rw (octets-append t (c ∷ []), octets, octets) (omega (arith, size)) in
          let next =
            fold-Fits (t ++ c ∷ []) (used + width c) first cs rest grown hc.1 total
              (ground (arith, e)) hr in
          rw (e, ← append_assoc t (c ∷ []) after) next
    ]

write_folded-Fits :
    (line rest : Runes)
    → IsContent line
    → All Fits (lines_of rest)
    → All Fits (lines_of (write_folded line ++ rest))
unfolding write_folded fold_from
write_folded-Fits [] rest hl hr = absurd hl
write_folded-Fits (h ∷ t) rest hl hr = elim (Bool-cases (leb (octets (h ∷ t)) max_octets)) [
  | inl e ↦
      rw (e, append_assoc (h ∷ t) crlf rest, lines_of-line (h ∷ t) rest hl.1)
        (ground (arith, e), hr)
  | inr e ↦
      let one : octets (h ∷ []) ≡ 0 + width h + 0 = unfold octets in omega arith in
      rw (e, width_le_limit h)
        (fold-Fits (h ∷ []) (0 + width h) true t rest (hl.1.0, tt) hl.1.1 one
          (omega (arith, width_le h)) hr)
]

pub write_all-Fits :
    (lines : List Runes) → All IsContent lines → All Fits (lines_of (write_all lines))
unfolding write_all split replace_one replace_two
write_all-Fits [] h = unfold lines_of octets in (omega arith, tt)
write_all-Fits (line ∷ rest) h =
    write_folded-Fits line (write_all rest) h.0 (write_all-Fits rest h.1)
