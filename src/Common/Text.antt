-- ===== src/Common/Text.antt =====
-- Text that the program walks: a list of code points, which stands for valid UTF-8. Names follow
-- Go's `strings`; case and space are what `unicode` says of the runes that matter to ASCII words.
use Prim.Native.Char.{code}
use Prim.Native.Nat.{ℕ, ◌+◌, ◌-◌, ◌≤◌}
use Prim.Native.String.{String}
use mathlib.Core.Path.{◌≡◌}
use mathlib.Core.Bool.{Bool, true, false, ◌&&◌, ◌||◌}
use mathlib.Core.Logic.{◌↔◌, inl, inr}
use mathlib.Core.List.{List, [], ◌∷◌, ◌++◌, reverse}
use mathlib.Core.Option.{Option, none, some}
use native.Mathlib.Omega.{arith}
use overlap.Common.Tests.{ltb, leb, ◌==◌, if◌then◌else◌, Bool-cases}
use overlap.Common.Lists.{All, All-append}
use overlap.Common.Maps.{Key}

abbrev pub Runes : Type 0
Runes = List ℕ

abbrev pub codes : String → Runes
codes String.[] = []
codes (String.◌∷◌ c s) = code c ∷ codes s

-- The bytes of a rune in UTF-8, `len(string(r))`, and `len(s)`.
unfoldable pub width : ℕ → ℕ
width c = if ltb c 0x80 then 1 else (if ltb c 0x800 then 2 else (if ltb c 0x1_0000 then 3 else 4))

unfoldable pub octets : Runes → ℕ
octets [] = 0
octets (c ∷ cs) = width c + octets cs

pub width_le : (c : ℕ) → width c ≤ 4
unfolding width
width_le c = ground arith

pub octets-append : (s t : Runes) → octets (s ++ t) ≡ octets s + octets t
unfolding octets
octets-append [] t = omega arith
octets-append (c ∷ s) t = omega (arith, octets-append s t)

abbrev pub same_text : Runes → Runes → Bool
same_text [] [] = true
same_text (a ∷ s) (b ∷ t) = a == b && same_text s t
same_text s t = false

pub same_text_iff : (s t : Runes) → (same_text s t ≡ true) ↔ (s ≡ t)
same_text_iff [] [] = ground arith
same_text_iff [] (b ∷ t) = ground arith
same_text_iff (a ∷ s) [] = ground arith
same_text_iff (a ∷ s) (b ∷ t) = ground (arith, same_text_iff s t)

instance abbrev pub text_key : Key Runes
text_key = record { beq = same_text; beq_iff = same_text_iff }

-- `strings.ReplaceAll` for a pattern of one rune and for one of two different runes.
unfoldable pub replace_one : ℕ → Runes → Runes → Runes
replace_one p new [] = []
replace_one p new (c ∷ cs) =
    let rest = replace_one p new cs in if c == p then new ++ rest else c ∷ rest

unfoldable pub replace_two : ℕ → ℕ → Runes → Runes → Runes
replace_two p q new [] = []
replace_two p q new (c ∷ []) = c ∷ []
replace_two p q new (c ∷ d ∷ cs) =
    let skipped = replace_two p q new cs in
    let kept = replace_two p q new (d ∷ cs) in if c == p && d == q then new ++ skipped else c ∷ kept

abbrev pub cons_first : ℕ → List Runes → List Runes
cons_first c [] = (c ∷ []) ∷ []
cons_first c (s ∷ ss) = (c ∷ s) ∷ ss

-- `strings.Split` at a separator of one rune.
unfoldable pub split : ℕ → Runes → List Runes
split sep [] = [] ∷ []
split sep (c ∷ cs) = let rest = split sep cs in if c == sep then [] ∷ rest else cons_first c rest

-- The parts before and after the first rune `sep`, by `strings.IndexByte` and slicing.
unfoldable pub cut : ℕ → Runes → Option (Runes × Runes)
cut sep [] = none
cut sep (c ∷ cs) =
    let rest = cut sep cs in
    if c == sep then some ([], cs) else elim rest [ none ↦ none | some r ↦ some (c ∷ r.0, r.1) ]

-- `unicode.IsSpace`
unfoldable pub is_space : ℕ → Bool
is_space c =
    leb 9 c && leb c 13
    || (c == 0x20 || c == 0x85 || c == 0xa0 || c == 0x1680)
    || (leb 0x2000 c && leb c 0x200a)
    || (c == 0x2028 || c == 0x2029 || c == 0x202f || c == 0x205f || c == 0x3000)

-- `strings.TrimLeft`, with the cut set as a test, and `strings.Trim`.
unfoldable pub trim_left : (ℕ → Bool) → Runes → Runes
trim_left p [] = []
trim_left p (c ∷ cs) = let rest = trim_left p cs in if p c then rest else c ∷ cs

unfoldable pub trim : (ℕ → Bool) → Runes → Runes
unfolding trim_left
trim p s = reverse (trim_left p (reverse (trim_left p s)))

abbrev pub trim_space : Runes → Runes
trim_space = trim is_space

-- `unicode.ToUpper` of a rune, as far as its result is ASCII: the dotless i and the long s are the
-- runes beyond ASCII with an ASCII capital. No other rune is compared with anything.
unfoldable pub to_upper_rune : ℕ → ℕ
to_upper_rune c =
    if leb b'a' c && leb c b'z'
    then c - 32
    else (if c == 0x131 then b'I' else (if c == 0x17f then b'S' else c))

unfoldable pub to_upper : Runes → Runes
unfolding to_upper_rune
to_upper [] = []
to_upper (c ∷ cs) = to_upper_rune c ∷ to_upper cs

-- `unicode.ToLower`, in the same way: the dotted I and the Kelvin sign have an ASCII small letter.
unfoldable pub to_lower_rune : ℕ → ℕ
to_lower_rune c =
    if leb b'A' c && leb c b'Z'
    then c + 32
    else (if c == 0x130 then b'i' else (if c == 0x212a then b'k' else c))

unfoldable pub to_lower : Runes → Runes
unfolding to_lower_rune
to_lower [] = []
to_lower (c ∷ cs) = to_lower_rune c ∷ to_lower cs

-- The one capital of the runes that `strings.EqualFold` takes for the same, on ASCII words: the
-- long s folds with S and the Kelvin sign with K.
unfoldable pub fold_rune : ℕ → ℕ
fold_rune c =
    if leb b'a' c && leb c b'z'
    then c - 32
    else (if c == 0x17f then b'S' else (if c == 0x212a then b'K' else c))

unfoldable pub equal_fold : Runes → Runes → Bool
unfolding fold_rune
equal_fold [] [] = true
equal_fold (a ∷ s) (b ∷ t) = fold_rune a == fold_rune b && equal_fold s t
equal_fold s t = false

abbrev pub is_digit : ℕ → Bool
is_digit c = leb b'0' c && leb c b'9'

-- No rune of the text is `c`.
abbrev pub Lacks : ℕ → Runes → Type 0
Lacks c = All (λ d. (d == c) ≡ false)

abbrev pub cr : ℕ
cr = 13

abbrev pub lf : ℕ
lf = 10

pub replace_one-Lacks_other :
    (p : ℕ) (new s : Runes) (d : ℕ) → Lacks d new → Lacks d s → Lacks d (replace_one p new s)
unfolding replace_one
replace_one-Lacks_other p new [] d hn h = tt
replace_one-Lacks_other p new (c ∷ cs) d hn (hc, h) = elim (Bool-cases (c == p)) [
  | inl e ↦ rw e (All-append _ new _ hn (replace_one-Lacks_other p new cs d hn h))
  | inr e ↦ rw e (hc, replace_one-Lacks_other p new cs d hn h)
]

pub replace_one-Lacks : (p : ℕ) (new s : Runes) → Lacks p new → Lacks p (replace_one p new s)
unfolding replace_one
replace_one-Lacks p new [] hn = tt
replace_one-Lacks p new (c ∷ cs) hn = elim (Bool-cases (c == p)) [
  | inl e ↦ rw e (All-append _ new _ hn (replace_one-Lacks p new cs hn))
  | inr e ↦ rw e (e, replace_one-Lacks p new cs hn)
]
