-- ===== src/Solver/Score/Monotone.antt =====
-- Scores under answers that are at least as good: `scoreSlot` of api/internal/solver/solver.go.
use overlap.Common.{
  ℕ, ◌≤◌, ◌≡◌, refl, ap, ◌≢◌, ◌⊎◌, inl, inr, String, Bool, false, Option, some, arith,
}
use overlap.Common.Float.{Float, ◌⊕◌, ◌⊖◌, nought, unit, ◌≼◌, IsRounded, le_refl}
use overlap.Time.{Time}
use overlap.Solver.{
  Tier, tier_no, tier_if_needed, tier_ok, tier_preferred, Role, role_optional, role_required,
  Participant, location, Config,
}
use overlap.Solver.Score.{unsociable, Tally, value, refuse, weight_of, lower_floor, attend, answer}

abbrev pub rank : Tier → ℕ
rank tier_no = 0
rank tier_if_needed = 1
rank tier_ok = 2
rank tier_preferred = 3

-- An answer to every question.
abbrev pub Answers : Type 0
Answers = String → Time → Tier

abbrev pub answered : Answers → String → Time → Option Tier
answered a pid at = some (a pid at)

module _ {F : Type 0} ⦃fl : Float F⦄ where
  -- The parameters that the bounds need: weights and blending shares that are not negative.
  pub record IsSound (cfg : Config F) : Type 0 where
    pub alpha_ge : nought ≼ cfg.alpha
    pub alpha_le : nought ≼ unit ⊖ cfg.alpha
    pub weight_ge : nought ≼ cfg.optional_weight

  -- The tally `t` has seen answers at least as good as those that `s` has seen.
  pub record Below (s t : Tally F) : Type 0 where
    pub live : t.slot.eliminated ≡ false
    pub weighted : s.weighted ≼ t.weighted
    pub weights : s.weights ≡ t.weights
    pub weights_ge : nought ≼ s.weights
    pub floor : s.min_required ≼ t.min_required
    pub have : s.have_required ≡ t.have_required
    pub late : s.penalized ≡ t.penalized
    pub raw : s.slot.score ≡ t.slot.score

  -- What the bounds ask of an optional participant whose answer changes from a refusal.
  abbrev pub Steady : Config F → Time → Participant → Tier → Tier → Type 0
  Steady cfg start p t u =
      p.role ≡ role_optional
      → t ≡ tier_no
      → (u ≡ tier_no) ⊎ (unsociable start (location p) cfg ≡ false)

  module _ (laws : IsRounded F) (cfg : Config F) (sound : IsSound cfg) where
    open laws use {
      le_trans, lit_mono, add_mono, add_nought, sub_mono, mul_mono, mul_nonneg, div_mono,
    }

    value_mono : (t u : Tier) → rank t ≤ rank u → ◌≼◌ {F = F} (value t) (value u)
    unfolding value
    value_mono tier_no tier_no h = lit_mono 0 1 0 1 (omega arith) (omega arith) (omega arith)
    value_mono tier_no tier_if_needed h =
        lit_mono 0 1 3 10 (omega arith) (omega arith) (omega arith)
    value_mono tier_no tier_ok h = lit_mono 0 1 7 10 (omega arith) (omega arith) (omega arith)
    value_mono tier_no tier_preferred h = lit_mono 0 1 1 1 (omega arith) (omega arith) (omega arith)
    value_mono tier_if_needed tier_if_needed h = le_refl laws _
    value_mono tier_if_needed tier_ok h =
        lit_mono 3 10 7 10 (omega arith) (omega arith) (omega arith)
    value_mono tier_if_needed tier_preferred h =
        lit_mono 3 10 1 1 (omega arith) (omega arith) (omega arith)
    value_mono tier_ok tier_ok h = le_refl laws _
    value_mono tier_ok tier_preferred h =
        lit_mono 7 10 1 1 (omega arith) (omega arith) (omega arith)
    value_mono tier_preferred tier_preferred h = le_refl laws _
    value_mono t u h = absurd (omega arith)

    value_nonneg : (t : Tier) → ◌≼◌ {F = F} nought (value t)
    unfolding value
    value_nonneg tier_no = le_refl laws _
    value_nonneg tier_if_needed = lit_mono 0 1 3 10 (omega arith) (omega arith) (omega arith)
    value_nonneg tier_ok = lit_mono 0 1 7 10 (omega arith) (omega arith) (omega arith)
    value_nonneg tier_preferred = lit_mono 0 1 1 1 (omega arith) (omega arith) (omega arith)

    weight_nonneg : (r : Role) → nought ≼ weight_of cfg r
    unfolding weight_of
    weight_nonneg role_optional = sound.weight_ge
    weight_nonneg role_required = lit_mono 0 1 1 1 (omega arith) (omega arith) (omega arith)

    add_nonneg : (a b c : F) → a ≼ b → nought ≼ c → a ≼ b ⊕ c
    add_nonneg a b c h k =
        le_trans a (b ⊕ nought) (b ⊕ c) (le_trans a b (b ⊕ nought) h (add_nought b).0)
          (add_mono b b nought c (le_refl laws b) k)

    lower_floor_mono :
        (r : Role) (v w : F) (s t : Tally F)
        → v ≼ w
        → s.min_required ≼ t.min_required
        → (lower_floor r v s).min_required ≼ (lower_floor r w t).min_required
    unfolding lower_floor
    lower_floor_mono role_optional v w s t h k = k
    lower_floor_mono role_required v w s t h k = ground (
      arith,
      h,
      k,
      le_trans v s.min_required t.min_required,
      le_trans s.min_required v w,
      laws.lt_asymm v s.min_required,
      laws.lt_asymm w t.min_required,
    )

    attend-Below :
        (r : Role) (v w : F) (late : Bool) (s t : Tally F)
        → nought ≼ v
        → v ≼ w
        → Below s t
        → Below (attend cfg r v late s) (attend cfg r w late t)
    unfolding attend lower_floor
    attend-Below role_required v w late s t pv h b = record {
      live = b.live;
      weighted = add_mono _ _ _ _ b.weighted (mul_mono _ _ _ (weight_nonneg role_required) h).0;
      weights = ap (λ x. x ⊕ weight_of cfg role_required) b.weights;
      weights_ge = add_nonneg _ _ _ b.weights_ge (weight_nonneg role_required);
      floor = unfold lower_floor in lower_floor_mono role_required v w s t h b.floor;
      have = refl;
      late = rw b.late;
      raw = b.raw;
    }
    attend-Below role_optional v w late s t pv h b = record {
      live = b.live;
      weighted = add_mono _ _ _ _ b.weighted (mul_mono _ _ _ (weight_nonneg role_optional) h).0;
      weights = ap (λ x. x ⊕ weight_of cfg role_optional) b.weights;
      weights_ge = add_nonneg _ _ _ b.weights_ge (weight_nonneg role_optional);
      floor = b.floor;
      have = b.have;
      late = rw b.late;
      raw = b.raw;
    }

    refuse-Below :
        (r : Role) (name : String) (s t : Tally F)
        → (refuse cfg r name s).slot.eliminated ≡ false
        → Below s t
        → Below (refuse cfg r name s) (refuse cfg r name t)
    unfolding refuse
    refuse-Below role_required name s t e b = absurd (cc)
    refuse-Below role_optional name s t e b = record {
      live = b.live;
      weighted = b.weighted;
      weights = ap (λ x. x ⊕ cfg.optional_weight) b.weights;
      weights_ge = add_nonneg _ _ _ b.weights_ge sound.weight_ge;
      floor = b.floor;
      have = b.have;
      late = b.late;
      raw = b.raw;
    }

    -- A participant who comes instead of refusing, optional and at a sociable hour.
    join-Below :
        (r : Role) (name : String) (w : F) (late : Bool) (s t : Tally F)
        → (refuse cfg r name s).slot.eliminated ≡ false
        → (r ≡ role_optional → late ≡ false)
        → nought ≼ w
        → Below s t
        → Below (refuse cfg r name s) (attend cfg r w late t)
    unfolding attend lower_floor weight_of refuse
    join-Below role_required name w late s t e l h b = absurd (cc)
    join-Below role_optional name w late s t e l h b = record {
      live = b.live;
      weighted = add_nonneg _ _ _ b.weighted (mul_nonneg _ _ h sound.weight_ge);
      weights = ap (λ x. x ⊕ cfg.optional_weight) b.weights;
      weights_ge = add_nonneg _ _ _ b.weights_ge sound.weight_ge;
      floor = b.floor;
      have = b.have;
      late = rw (l refl) b.late;
      raw = b.raw;
    }

    coming :
        (start : Time) (p : Participant) (u : Tier)
        → u ≢ tier_no
        → Steady cfg start p tier_no u
        → p.role ≡ role_optional
        → unsociable start (location p) cfg ≡ false
    coming start p u n h r = elim (h r refl) [ inl e ↦ absurd (n e) | inr e ↦ e ]

    pub answer-Below :
        (start : Time) (p : Participant) (t u : Tier) (x y : Tally F)
        → rank t ≤ rank u
        → Steady cfg start p t u
        → (answer start cfg p (some t) x).slot.eliminated ≡ false
        → Below x y
        → Below (answer start cfg p (some t) x) (answer start cfg p (some u) y)
    unfolding answer
    answer-Below start p tier_no tier_no x y h st e b = refuse-Below p.role p.name x y e b
    answer-Below start p tier_no tier_if_needed x y h st e b =
        join-Below p.role p.name _ _ x y e (coming start p tier_if_needed (λ q. cc) st)
          (value_nonneg tier_if_needed) b
    answer-Below start p tier_no tier_ok x y h st e b =
        join-Below p.role p.name _ _ x y e (coming start p tier_ok (λ q. cc) st)
          (value_nonneg tier_ok) b
    answer-Below start p tier_no tier_preferred x y h st e b =
        join-Below p.role p.name _ _ x y e (coming start p tier_preferred (λ q. cc) st)
          (value_nonneg tier_preferred) b
    answer-Below start p tier_if_needed tier_if_needed x y h st e b =
        attend-Below p.role _ _ _ x y (value_nonneg tier_if_needed) (le_refl laws _) b
    answer-Below start p tier_if_needed tier_ok x y h st e b =
        attend-Below p.role _ _ _ x y (value_nonneg tier_if_needed)
          (value_mono tier_if_needed tier_ok h) b
    answer-Below start p tier_if_needed tier_preferred x y h st e b =
        attend-Below p.role _ _ _ x y (value_nonneg tier_if_needed)
          (value_mono tier_if_needed tier_preferred h) b
    answer-Below start p tier_ok tier_ok x y h st e b =
        attend-Below p.role _ _ _ x y (value_nonneg tier_ok) (le_refl laws _) b
    answer-Below start p tier_ok tier_preferred x y h st e b =
        attend-Below p.role _ _ _ x y (value_nonneg tier_ok) (value_mono tier_ok tier_preferred h) b
    answer-Below start p tier_preferred tier_preferred x y h st e b =
        attend-Below p.role _ _ _ x y (value_nonneg tier_preferred) (le_refl laws _) b
    answer-Below start p t u x y h st e b = absurd (omega arith)
