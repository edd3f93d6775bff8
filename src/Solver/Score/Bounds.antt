-- ===== src/Solver/Score/Bounds.antt =====
-- The whole slot under better answers: `scoreSlot` of api/internal/solver/solver.go.
use overlap.Common.{
  ℕ, ◌≤◌, ◌≡◌, refl, sym, ◌∙◌, Bool, true, false, List, [], ◌∷◌, arith, length, if◌then◌else◌, All,
  Bool-cases, inl, inr,
}
use overlap.Common.Float.{Float, ◌⊕◌, ◌⊖◌, ◌⊗◌, ◌⊘◌, nought, unit, ◌≼◌, IsRounded, le_refl}
use overlap.Time.{Time}
use overlap.Solver.{Participant, Config}
use overlap.Solver.Score.{Tally, visit, opening, composite, settle, tally, score_slot_by}
use overlap.Solver.Score.Counts.{tally-Counted, settle-keeps}
use overlap.Solver.Score.Monotone.{rank, Answers, answered, IsSound, Below, Steady, answer-Below}

module _ {F : Type 0} ⦃fl : Float F⦄ where
  tally-live :
      (start : Time) (cfg : Config F) (a : Answers) (ps : List Participant) (s : Tally F)
      → (tally start cfg (answered a) s ps).slot.eliminated ≡ false
      → s.slot.eliminated ≡ false
  tally-live start cfg a ps s e =
      let c = (tally-Counted start cfg (answered a) ps s).eliminated in ground arith

  -- At a slot every answer of `b` is at least as good as that of `a`, and an optional participant
  -- whose refusal turns into an attendance is not penalised for the hour.
  abbrev pub Improves : Config F → Time → Answers → Answers → List Participant → Type 0
  Improves cfg start a b = All λ p.
      (rank (a p.id start) ≤ rank (b p.id start)) × Steady cfg start p (a p.id start) (b p.id start)

  module _ (laws : IsRounded F) (cfg : Config F) (sound : IsSound cfg) where
    open laws use {le_trans, lit_mono, add_mono, sub_mono, mul_mono, div_mono}

    tally-Below :
        (start : Time) (a b : Answers) (ps : List Participant) (s t : Tally F)
        → Improves cfg start a b ps
        → (tally start cfg (answered a) s ps).slot.eliminated ≡ false
        → Below s t
        → Below (tally start cfg (answered a) s ps) (tally start cfg (answered b) t ps)
    unfolding tally visit
    tally-Below start a b [] s t h e k = k
    tally-Below start a b (p ∷ ps) s t h e k = tally-Below start a b ps _ _ h.1 e (
        answer-Below laws cfg sound start p (a p.id start) (b p.id start) s t h.0.0 h.0.1
          (tally-live start cfg a ps _ e) k)

    opening-Below : (start : Time) (n : ℕ) → Below {F = F} (opening start n) (opening start n)
    unfolding opening
    opening-Below start n = record {
      live = refl;
      weighted = le_refl laws _;
      weights = refl;
      weights_ge = le_refl laws _;
      floor = le_refl laws _;
      have = refl;
      late = refl;
      raw = refl;
    }

    -- A rise of the blended mean and floor is a rise of the composite.
    blend_mono :
        (m n f g : F)
        → m ≼ n
        → f ≼ g
        → cfg.alpha ⊗ m ⊕ (unit ⊖ cfg.alpha) ⊗ f ≼ cfg.alpha ⊗ n ⊕ (unit ⊖ cfg.alpha) ⊗ g
    blend_mono m n f g h k =
        add_mono _ _ _ _ (mul_mono m n cfg.alpha sound.alpha_ge h).1
          (mul_mono f g (unit ⊖ cfg.alpha) sound.alpha_le k).1

    clamp_mono :
        (x y : F)
        → x ≼ y
        → (if fl.lt x nought then nought else x) ≼ (if fl.lt y nought then nought else y)
    clamp_mono x y h =
        ground (arith, le_refl laws nought, laws.lt_asymm y nought, le_trans x y nought h, h)

    choose_mono :
        (h k : Bool) (f g m n : F)
        → h ≡ k
        → f ≼ g
        → m ≼ n
        → (if h then f else m) ≼ (if k then g else n)
    choose_mono h k f g m n e p q = ground arith

    composite_mono :
        (s t : Tally F)
        → Below s t
        → fl.lt nought s.weights ≡ true
        → composite cfg s ≼ composite cfg t
    unfolding composite
    composite_mono s t b pos =
        let mean : s.weighted ⊘ s.weights ≼ t.weighted ⊘ t.weights =
          rw (← b.weights) (div_mono _ _ _ pos b.weighted) in
        let floor =
          choose_mono s.have_required t.have_required s.min_required t.min_required _ _ b.have
            b.floor mean in
        rw b.late
          (clamp_mono _ _ (sub_mono _ _ _ _ (blend_mono _ _ _ _ mean floor) (le_refl laws _)))

    settle-Below :
        (s t : Tally F)
        → s.slot.eliminated ≡ false
        → Below s t
        → (settle cfg s).score ≼ (settle cfg t).score
    unfolding settle
    settle-Below s t e b = elim (Bool-cases (fl.lt nought s.weights)) [
      | inl pos ↦ ground (arith, b.weights, composite_mono s t b pos)
      | inr empty ↦ ground (arith, b.weights, b.raw, le_refl laws s.slot.score)
    ]

    -- If a slot is not eliminated under some answers, then under answers that are nowhere worse it is
    -- not eliminated either and its score is at least as high. The rounding laws hold, the blending
    -- shares and the optional weight are not negative, and no optional participant whose refusal
    -- becomes attendance would be up at an unsociable hour for the slot.
    pub score_slot_by_mono :
        (start : Time) (ps : List Participant) (a b : Answers)
        → Improves cfg start a b ps
        → (score_slot_by start ps cfg (answered a)).eliminated ≡ false
        → ((score_slot_by start ps cfg (answered b)).eliminated ≡ false)
          × ((score_slot_by start ps cfg (answered a)).score
              ≼ (score_slot_by start ps cfg (answered b)).score)
    unfolding score_slot_by
    score_slot_by_mono start ps a b h e =
        let s = tally start cfg (answered a) (opening start (length ps)) ps in
        let t = tally start cfg (answered b) (opening start (length ps)) ps in
        let live = sym (settle-keeps start cfg s).0 ∙ e in
        let below = tally-Below start a b ps _ _ h live (opening-Below start (length ps)) in
        ((settle-keeps start cfg t).0 ∙ below.live, settle-Below s t live below)
