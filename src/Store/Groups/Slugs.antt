-- ===== src/Store/Groups/Slugs.antt =====
-- `newSlug` of api/internal/store/slug.go.
use mathlib.Core.Option.{some-injective}
use overlap.Common.{
  ℕ, zero, suc, ◌+◌, ◌-◌, ◌%◌, ◌<◌, ◌≡◌, ◌↔◌, refl, sym, ap, ◌∙◌, Bool, true, not, ◌&&◌, ◌||◌, [],
  ◌∷◌, some, arith, length, map, All, get_elem?, leb, ◌==◌, if◌then◌else◌,
}
use overlap.Common.Text.{Runes}
use overlap.Store.Groups.{slug_alphabet, slug_of}

-- A digit or a lower-case letter that is not mistaken for another: neither 0 nor o, 1 nor l.
abbrev pub is_legible : ℕ → Bool
is_legible c =
    (leb b'2' c && leb c b'9') || (leb b'a' c && leb c b'z' && not (c == b'l') && not (c == b'o'))

-- The five bits of a byte that a slug keeps.
abbrev pub low : ℕ → ℕ
low c = c % 32

-- The place of a legible rune among them.
abbrev place : ℕ → ℕ
place c =
    if leb c b'9'
    then c - b'2'
    else (if leb c b'k'
        then c - b'a' + 8
        else (if leb c b'n' then c - b'm' + 19 else c - b'p' + 21))

abbrev fine : ℕ → Runes → Bool
fine k [] = true
fine k (c ∷ cs) = (place c == k && is_legible c) && fine (k + 1) cs

fine_alphabet : fine 0 slug_alphabet ≡ true
fine_alphabet = refl

get_elem?-fine :
    (k : ℕ) (xs : Runes) (i : ℕ)
    → fine k xs ≡ true
    → i < length xs
    → (r : ℕ) × (get_elem? xs i ≡ some r) × (place r ≡ k + i) × (is_legible r ≡ true)
get_elem?-fine k [] i f h = absurd (omega (arith, h))
get_elem?-fine k (x ∷ xs) zero f h =
    let here : (place x ≡ k + 0) × (is_legible x ≡ true) = ground arith in (x, refl, here.0, here.1)
get_elem?-fine k (x ∷ xs) (suc i) f h =
    let (r, e, p, l) = get_elem?-fine (k + 1) xs i (ground arith) (omega (arith, h)) in
    (r, e, omega (arith, p), l)

letter :
    (c : ℕ)
    → (r : ℕ) × (get_elem? slug_alphabet (c % 32) ≡ some r)
      × (place r ≡ low c)
      × (is_legible r ≡ true)
letter c =
    let (r, e, p, l) = get_elem?-fine 0 slug_alphabet (c % 32) fine_alphabet (omega arith) in
    (r, e, omega (arith, p), l)

-- A slug read back: the five bits of each rune.
slug_of-some :
    (bytes : Runes)
    → (slug : Runes) × (slug_of bytes ≡ some slug)
      × (map place slug ≡ map low bytes)
      × All (λ c. is_legible c ≡ true) slug
unfolding slug_of
slug_of-some [] = ([], refl, refl, tt)
slug_of-some (c ∷ bytes) =
    let (slug, e, p, h) = slug_of-some bytes in
    let (r, k, q, l) = letter c in (r ∷ slug, rw (slug_of, k, e) refl, rw (q, p) refl, (l, h))

slug_of-low : (bytes other : Runes) → map low bytes ≡ map low other → slug_of bytes ≡ slug_of other
unfolding slug_of
slug_of-low [] [] h = refl
slug_of-low [] (d ∷ ds) h = absurd (cc)
slug_of-low (c ∷ cs) [] h = absurd (cc)
slug_of-low (c ∷ cs) (d ∷ ds) h =
    let head : c % 32 ≡ d % 32 = cc in
    let tail : map low cs ≡ map low ds = cc in
    let (r, k, p, l) = letter c in
    let there : get_elem? slug_alphabet (d % 32) ≡ some r =
      ap (get_elem? slug_alphabet) (sym head) ∙ k in
    rw (slug_of, k, there, slug_of-low cs ds tail) refl

same_length : (f g : ℕ → ℕ) (xs ys : Runes) → map f xs ≡ map g ys → length xs ≡ length ys
same_length f g [] [] h = refl
same_length f g [] (y ∷ ys) h = absurd (cc)
same_length f g (x ∷ xs) [] h = absurd (cc)
same_length f g (x ∷ xs) (y ∷ ys) h =
    let tail : map f xs ≡ map g ys = cc in omega (arith, same_length f g xs ys tail)

-- However the random bytes fall, `newSlug` makes a slug with a rune for each byte, all of them digits
-- and lower-case letters, and neither 0, 1, l nor o. Two draws give the same slug only where they
-- agree in the low five bits of every byte, and always there, so that no bit of the five is lost.
pub slug_of-IsSlug :
    (bytes other : Runes)
    → ((slug : Runes) × (slug_of bytes ≡ some slug)
        × (length slug ≡ length bytes)
        × All (λ c. is_legible c ≡ true) slug)
      × ((slug_of bytes ≡ slug_of other) ↔ (map low bytes ≡ map low other))
slug_of-IsSlug bytes other =
    let (slug, e, p, h) = slug_of-some bytes in
    let (again, f, q, k) = slug_of-some other in
    (
      (slug, e, same_length place low slug bytes p, h),
      (
        λ same.
            let one : slug ≡ again = some-injective _ _ (sym e ∙ same ∙ f) in
            sym p ∙ ap (map place) one ∙ q,
        slug_of-low bytes other,
      ),
    )
