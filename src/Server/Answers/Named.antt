-- ===== src/Server/Answers/Named.antt =====
-- The names of tiers, and one coarse selection, in api/internal/server/responses.go.
use overlap.Common.{
  ◌≡◌, refl, sym, ap, ◌∙◌, String, Option, none, some, if◌then◌else◌, Bool-cases, inl, inr,
}
use overlap.Common.Maps.{nat_key, string_key}
use mathlib.Core.Option.{some-injective}
use overlap.Solver.{Tier, tier_no, tier_if_needed, tier_ok, tier_preferred}
use overlap.Dayparts.{is_block, parse_block, Selection}
use overlap.Server.{
  bad_block, unknown_tier, parse_date, tier_string, ok, err, or_err, >>=-ok, or_err-ok, parse_tier,
}
use overlap.Server.Answers.{CoarseSelection, coarse_of}

-- The tier that has the name.
abbrev pub named_tier : String → Option Tier
named_tier s =
    if string_key.beq (tier_string tier_no) s
    then some tier_no
    else (if string_key.beq (tier_string tier_if_needed) s
        then some tier_if_needed
        else (if string_key.beq (tier_string tier_ok) s
            then some tier_ok
            else (if string_key.beq (tier_string tier_preferred) s
                then some tier_preferred
                else none)))

parse_tier-tier_string : (s : String) (t : Tier) → parse_tier s ≡ ok t → s ≡ tier_string t
unfolding parse_tier tier_string
parse_tier-tier_string s t h = elim (Bool-cases (string_key.beq s "preferred")) [
  | inl a ↦
      let e : t ≡ tier_preferred =
        let k : ok tier_preferred ≡ ok t = rw (a, parse_tier) at h in cc in
      rw e ((string_key.beq_iff s "preferred").0 a)
  | inr a ↦ elim (Bool-cases (string_key.beq s "ok")) [
    | inl b ↦
        let e : t ≡ tier_ok = let k : ok tier_ok ≡ ok t = rw (a, b, parse_tier) at h in cc in
        rw e ((string_key.beq_iff s "ok").0 b)
    | inr b ↦ elim (Bool-cases (string_key.beq s "if_needed")) [
      | inl c ↦
          let e : t ≡ tier_if_needed =
            let k : ok tier_if_needed ≡ ok t = rw (a, b, c, parse_tier) at h in cc in
          rw e ((string_key.beq_iff s "if_needed").0 c)
      | inr c ↦ elim (Bool-cases (string_key.beq s "no")) [
        | inl d ↦
            let e : t ≡ tier_no =
              let k : ok tier_no ≡ ok t = rw (a, b, c, d, parse_tier) at h in cc in
            rw e ((string_key.beq_iff s "no").0 d)
        | inr d ↦ absurd (let k : err unknown_tier ≡ ok t = rw (a, b, c, d, parse_tier) at h in cc)
      ]
    ]
  ]
]

named_tier_own : (t : Tier) → named_tier (tier_string t) ≡ some t
unfolding tier_string
named_tier_own tier_no = refl
named_tier_own tier_if_needed = refl
named_tier_own tier_ok = refl
named_tier_own tier_preferred = refl

pub parse_tier_named : (s : String) (t : Tier) → parse_tier s ≡ ok t → named_tier s ≡ some t
parse_tier_named s t h = ap (λ a. named_tier a) (parse_tier-tier_string s t h) ∙ named_tier_own t

parse_block-same : (s b : String) → parse_block s ≡ some b → b ≡ s
unfolding parse_block
parse_block-same s b h = elim (Bool-cases (is_block s)) [
  | inl e ↦ let k : some s ≡ some b = rw (e, parse_block) at h in sym (some-injective _ _ k)
  | inr e ↦ absurd (let k : none ≡ some b = rw (e, parse_block) at h in cc)
]

pub coarse_of-reads :
    (s : CoarseSelection) (x : Selection)
    → coarse_of s ≡ ok x
    → (parse_date s.date ≡ ok x.cell.date)
      × (s.block ≡ x.cell.block)
      × (named_tier s.tier ≡ some x.tier)
unfolding coarse_of
coarse_of-reads s x h =
    let (b, e1, h1) = >>=-ok (or_err bad_block (parse_block s.block)) _ x h in
    let (d, e2, h2) = >>=-ok (parse_date s.date) _ x h1 in
    let (t, e3, h3) = >>=-ok (parse_tier s.tier) _ x h2 in
    let made : Selection = record { cell = record { date = d; block = b }; tier = t } in
    let same : made ≡ x = let k : ok made ≡ ok x = h3 in cc in
    (
      e2 ∙ ap (λ y. ok y.cell.date) same,
      sym (parse_block-same s.block b (or_err-ok bad_block (parse_block s.block) b e1))
          ∙ ap (λ y. y.cell.block) same,
      parse_tier_named s.tier t e3 ∙ ap (λ y. some y.tier) same,
    )
