-- ===== src/Ics/Escaped.antt =====
-- `escapeText` of api/internal/ics/ics.go against a reader of TEXT values.
use overlap.Common.{
  ℕ, false, [], ◌∷◌, ◌++◌, ◌≡◌, refl, ap, ◌==◌, if◌then◌else◌, Bool-cases, ==_iff, inl, inr,
}
use overlap.Common.Text.{Runes, replace_one, replace_two, cr, lf}
use overlap.Ics.{escape_text}

-- How RFC 5545 reads a TEXT value: `\n` is a line break, and any other escaped rune is itself.
abbrev pub unescape : Runes → Runes
unescape [] = []
unescape (c ∷ []) = c ∷ []
unescape (c ∷ d ∷ cs) =
    let escaped = unescape cs in
    let plain = unescape (d ∷ cs) in
    if c == b'\\' then (if d == b'n' then lf else d) ∷ escaped else c ∷ plain

-- Each line break as one rune.
abbrev pub normalise : Runes → Runes
normalise s = replace_one cr (lf ∷ []) (replace_two cr lf (lf ∷ []) s)

-- What `escapeText` writes for a rune.
abbrev escape : ℕ → Runes
escape c =
    if c == b'\\'
    then b'\\' ∷ b'\\' ∷ []
    else (if c == lf
        then b'\\' ∷ b'n' ∷ []
        else (if c == b';'
            then b'\\' ∷ b';' ∷ []
            else (if c == b',' then b'\\' ∷ b',' ∷ [] else c ∷ [])))

replace_two-cons :
    (p q : ℕ) (new : Runes) (c : ℕ) (cs : Runes)
    → (c == p) ≡ false
    → replace_two p q new (c ∷ cs) ≡ c ∷ replace_two p q new cs
unfolding replace_two
replace_two-cons p q new c [] e = refl
replace_two-cons p q new c (d ∷ cs) e = rw e refl

-- A rune other than a carriage return is escaped by itself.
escape_text-cons :
    (c : ℕ) (cs : Runes) → (c == cr) ≡ false → escape_text (c ∷ cs) ≡ escape c ++ escape_text cs
unfolding escape_text replace_one
escape_text-cons c cs e =
    let rest = replace_one b'\\' (b'\\' ∷ b'\\' ∷ []) cs in
    let skip : (d : ℕ) (ds : Runes)
        → (d == cr) ≡ false
        → replace_two cr lf (b'\\' ∷ b'n' ∷ []) (d ∷ ds)
          ≡ d ∷ replace_two cr lf (b'\\' ∷ b'n' ∷ []) ds =
      replace_two-cons cr lf (b'\\' ∷ b'n' ∷ []) in
    elim (Bool-cases (c == b'\\')) [
      | inl k ↦ rw ((==_iff c b'\\').0 k, skip b'\\' (b'\\' ∷ rest) refl, skip b'\\' rest refl) refl
      | inr k ↦ elim (Bool-cases (c == lf)) [
        | inl l ↦ rw ((==_iff c lf).0 l, skip lf rest refl) refl
        | inr l ↦ elim (Bool-cases (c == b';')) [
          | inl m ↦ rw ((==_iff c b';').0 m, skip b';' rest refl) refl
          | inr m ↦ elim (Bool-cases (c == b',')) [
            | inl n ↦ rw ((==_iff c b',').0 n, skip b',' rest refl) refl
            | inr n ↦ rw (k, skip c rest e, l, e, m, n) refl
          ]
        ]
      ]
    ]

-- So is a carriage return that no line feed follows.
escape_text_return :
    (d : ℕ) (cs : Runes)
    → (d == lf) ≡ false
    → escape_text (cr ∷ d ∷ cs) ≡ b'\\' ∷ b'n' ∷ escape_text (d ∷ cs)
unfolding escape_text replace_one replace_two
escape_text_return d cs e = elim (Bool-cases (d == b'\\')) [
  | inl k ↦ rw ((==_iff d b'\\').0 k) refl
  | inr k ↦ rw (k, e) refl
]

unescape_plain : (c : ℕ) (cs : Runes) → (c == b'\\') ≡ false → unescape (c ∷ cs) ≡ c ∷ unescape cs
unescape_plain c [] k = refl
unescape_plain c (d ∷ cs) k = rw k refl

unescape-escape : (c : ℕ) (cs : Runes) → unescape (escape c ++ cs) ≡ c ∷ unescape cs
unescape-escape c cs = elim (Bool-cases (c == b'\\')) [
  | inl k ↦ rw ((==_iff c b'\\').0 k) refl
  | inr k ↦ elim (Bool-cases (c == lf)) [
    | inl l ↦ rw ((==_iff c lf).0 l) refl
    | inr l ↦ elim (Bool-cases (c == b';')) [
      | inl m ↦ rw ((==_iff c b';').0 m) refl
      | inr m ↦ elim (Bool-cases (c == b',')) [
        | inl n ↦ rw ((==_iff c b',').0 n) refl
        | inr n ↦ rw (k, l, m, n) (unescape_plain c cs k)
      ]
    ]
  ]
]

normalise-cons : (c : ℕ) (cs : Runes) → (c == cr) ≡ false → normalise (c ∷ cs) ≡ c ∷ normalise cs
unfolding replace_one
normalise-cons c cs e = rw (replace_two-cons cr lf (lf ∷ []) c cs e, e) refl

normalise_return :
    (d : ℕ) (cs : Runes) → (d == lf) ≡ false → normalise (cr ∷ d ∷ cs) ≡ lf ∷ normalise (d ∷ cs)
unfolding replace_one replace_two
normalise_return d cs e = rw e refl

escape_text_break : (cs : Runes) → escape_text (cr ∷ lf ∷ cs) ≡ b'\\' ∷ b'n' ∷ escape_text cs
unfolding escape_text replace_one replace_two
escape_text_break cs = refl

normalise_break : (cs : Runes) → normalise (cr ∷ lf ∷ cs) ≡ lf ∷ normalise cs
unfolding replace_one replace_two
normalise_break cs = refl

unescape_cons :
    (c : ℕ) (cs : Runes)
    → (c == cr) ≡ false
    → unescape (escape_text cs) ≡ normalise cs
    → unescape (escape_text (c ∷ cs)) ≡ normalise (c ∷ cs)
unescape_cons c cs e ih =
    rw (escape_text-cons c cs e, normalise-cons c cs e, unescape-escape c (escape_text cs))
      (ap (◌∷◌ c) ih)

-- Reading an escaped text back gives the text, with each of its line breaks, of whichever of the
-- three kinds, as one line feed.
pub unescape-escape_text : (s : Runes) → unescape (escape_text s) ≡ normalise s
unescape-escape_text [] = unfold escape_text replace_one replace_two in refl
unescape-escape_text (c ∷ []) = elim (Bool-cases (c == cr)) [
  | inr e ↦ unescape_cons c [] e (unescape-escape_text [])
  | inl e ↦ rw ((==_iff c cr).0 e) (unfold escape_text replace_one replace_two in refl)
]
unescape-escape_text (c ∷ d ∷ cs) = elim (Bool-cases (c == cr)) [
  | inr e ↦ unescape_cons c (d ∷ cs) e (unescape-escape_text (d ∷ cs))
  | inl e ↦ elim (Bool-cases (d == lf)) [
    | inl k ↦
        rw ((==_iff c cr).0 e, (==_iff d lf).0 k, escape_text_break cs, normalise_break cs)
          (ap (◌∷◌ lf) (unescape-escape_text cs))
    | inr k ↦
        rw ((==_iff c cr).0 e, escape_text_return d cs k, normalise_return d cs k)
          (ap (◌∷◌ lf) (unescape-escape_text (d ∷ cs)))
  ]
]
