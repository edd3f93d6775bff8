-- ===== src/Icsparse/Lines.antt =====
-- api/internal/icsparse/icsparse.go: from the text of a feed to its VEVENT blocks.
use overlap.Common.{
  ℕ, Bool, ◌&&◌, ◌||◌, List, [], ◌∷◌, ◌++◌, Option, none, some, ◌==◌, if◌then◌else◌,
}
use overlap.Common.Maps.{update}
use overlap.Common.Text.{
  Runes, codes, same_text, text_key, replace_one, replace_two, split, cut, trim, trim_space,
  to_upper, equal_fold, cr, lf,
}

-- The line endings made one rune, and the lines between them.
unfoldable pub lines_of : Runes → List Runes
lines_of s = split lf (replace_one cr (lf ∷ []) (replace_two cr lf (lf ∷ []) s))

-- `out[len(out)-1] += s`, where `out` has a line.
unfoldable pub append_last : Runes → List Runes → List Runes
append_last s [] = []
append_last s (l ∷ []) = (l ++ s) ∷ []
append_last s (l ∷ m ∷ out) = l ∷ append_last s (m ∷ out)

abbrev pub is_blank : ℕ → Bool
is_blank c = c == b' ' || c == b'\t'

-- The body of the loop of `unfold`.
unfoldable pub take_line : List Runes → Runes → List Runes
take_line out [] = out
take_line [] (c ∷ cs) = (c ∷ cs) ∷ []
take_line (l ∷ out) (c ∷ cs) =
    if is_blank c then append_last cs (l ∷ out) else (l ∷ out) ++ (c ∷ cs) ∷ []

unfoldable pub unfold_loop : List Runes → List Runes → List Runes
unfold_loop out [] = out
unfold_loop out (line ∷ rest) = unfold_loop (take_line out line) rest

-- `unfold`
unfoldable pub unfold_lines : Runes → List Runes
unfold_lines s = unfold_loop [] (lines_of s)

-- A missing parameter reads as the empty text.
pub record Property : Type 0 where
  pub name : Runes
  pub params : Runes → Runes
  pub value : Runes

-- One round of the loop over `parts[1:]`.
unfoldable pub add_param : (Runes → Runes) → Runes → (Runes → Runes)
add_param params part = elim (cut b'=' part) [
  | none ↦ params
  | some (key, val) ↦
      update params (to_upper (trim_space key)) (trim (λ c. c == b'"') (trim_space val))
]

unfoldable pub add_params : (Runes → Runes) → List Runes → (Runes → Runes)
add_params params [] = params
add_params params (part ∷ parts) = add_params (add_param params part) parts

-- The property of a head split at its semicolons, which has a first part.
unfoldable pub property_of : List Runes → Runes → Option Property
property_of [] value = none
property_of (first ∷ parts) value =
    let name = to_upper (trim_space first) in
    if same_text name []
    then none
    else some (record { name = name; params = add_params (λ k. []) parts; value = value })

-- `parseProperty`; `none` is a false `ok`.
unfoldable pub parse_property : Runes → Option Property
parse_property line = elim (cut b':' line) [
  | none ↦ none
  | some (head, value) ↦ property_of (split b';' head) value
]

-- A `vevent` is its properties.
abbrev pub Vevent : Type 0
Vevent = List Property

-- The variables of the loop of `vevents`: `out`, and `cur` with none for nil.
pub record Blocks : Type 0 where
  pub out : List Vevent
  pub cur : Option Vevent

abbrev pub is_vevent : Property → Bool
is_vevent p = equal_fold p.value (codes "VEVENT")

-- The switch of the loop body.
unfoldable pub take_property : Blocks → Property → Blocks
take_property b p =
    let is_begin = same_text p.name (codes "BEGIN") && is_vevent p in
    let is_end = same_text p.name (codes "END") && is_vevent p in
    if is_begin
    then record b { cur = some [] }
    else (if is_end
        then elim b.cur [ none ↦ b | some props ↦ record { out = b.out ++ props ∷ []; cur = none } ]
        else elim b.cur [ none ↦ b | some props ↦ record b { cur = some (props ++ p ∷ []) } ])

unfoldable pub vevents_loop : Blocks → List Runes → Blocks
vevents_loop b [] = b
vevents_loop b (line ∷ rest) = elim (parse_property line) [
  | none ↦ vevents_loop b rest
  | some p ↦ vevents_loop (take_property b p) rest
]

-- `vevents`
unfoldable pub vevents : List Runes → List Vevent
vevents lines = (vevents_loop (record { out = []; cur = none }) lines).out

-- `vevent.first` and `vevent.all`
unfoldable pub first : Vevent → Runes → Option Property
first [] name = none
first (p ∷ props) name = if same_text p.name name then some p else first props name

unfoldable pub all_named : Vevent → Runes → List Property
all_named [] name = []
all_named (p ∷ props) name =
    let rest = all_named props name in if same_text p.name name then p ∷ rest else rest
