-- ===== src/Slots/Kept.antt =====
-- What the loops of `Expand`, api/internal/slots/slots.go, keep: slots on the grid, each once.
use mathlib.Core.Option.{some-injective}
use overlap.Common.{
  ℕ, ◌+◌, ◌*◌, ◌/◌, ◌%◌, ◌≤◌, ◌≡◌, subst, ◌∙◌, Bool, true, List, [], ◌∷◌, ◌++◌, none, some, ◌⊎◌,
  inl, inr, arith, ltb, length, Bool-cases, All, All-append, In, In-append_left, In-append_right,
  In-snoc, AreDistinct, AreDistinct-snoc,
}
use overlap.Common.Maps.{update, nat_key}
use overlap.Time.{Time, Location, local_seconds, day_in}
use overlap.Time.Calendar.{Date, day_number, IsDate}
use overlap.Slots.{
  Window, TimeOfDay, Kind, kind_normal, kind_nonexistent, kind_ambiguous, Scan, minutes, emit,
  visit, place, Anomaly, max_slots,
}
use overlap.Slots.Resolve.{minute_in, Shows, matches-Shows, resolve-matches}

-- A slot of the window: its local day is one of the window's, its local time is on the grid that
-- steps from the start of the day's band, and it ends inside the band.
pub record Fits (w : Window) (loc : Location) (t : Time) : Type 0 where
  pub first_le : day_number w.first ≤ day_in loc t
  pub le_last : day_in loc t ≤ day_number w.last
  pub step : ℕ
  pub on_grid : minute_in loc t ≡ minutes w.day_start + step * w.slot_minutes
  pub in_band : minute_in loc t + w.slot_minutes ≤ minutes w.day_end
  pub whole : local_seconds loc t % 60 ≡ 0

-- What the loops keep.
pub record Kept (w : Window) (loc : Location) (s : Scan) : Type 0 where
  pub fit : All (Fits w loc) s.exp.starts
  pub distinct : AreDistinct s.exp.starts
  pub few : length s.exp.starts ≤ max_slots
  pub noted : (t : Time) → In t s.exp.starts → s.seen t ≡ true
  pub known : (t : Time) → s.seen t ≡ true → In t s.exp.starts

update-noted :
    (seen : Time → Bool) (t u : Time) → (seen u ≡ true) ⊎ (u ≡ t) → update seen t true u ≡ true
update-noted seen t u (inl h) = ground arith
update-noted seen t u (inr e) = ground arith

pub update-known :
    (seen : Time → Bool) (t u : Time) → update seen t true u ≡ true → (seen u ≡ true) ⊎ (u ≡ t)
update-known seen t u h = elim (Bool-cases (seen u)) [
  | inl e ↦ inl e
  | inr e ↦ inr (ground (arith, h, e))
]

emit-Kept :
    (w : Window) (loc : Location) (s r : Scan) (t : Time)
    → Kept w loc s
    → Fits w loc t
    → emit s t ≡ some r
    → Kept w loc r
unfolding emit
emit-Kept w loc s r t k f h =
    let starts = s.exp.starts ++ t ∷ [] in
    elim (Bool-cases (s.seen t)) [
      | inl e ↦ subst (Kept w loc) (some-injective _ _ (rw e at h)) k
      | inr e ↦ elim (Bool-cases (ltb max_slots (length starts))) [
        | inl l ↦ absurd (let bad : none ≡ some r = rw (e, l) at h in (cc))
        | inr l ↦ subst (Kept w loc) (some-injective _ _ (rw (e, l) at h)) (record {
          fit = All-append (Fits w loc) s.exp.starts (t ∷ []) k.fit (f, tt);
          distinct =
              AreDistinct-snoc t s.exp.starts (λ m. let bad = k.noted t m in ground (arith, bad, e))
                k.distinct;
          few = ground (arith, l);
          noted = λ u m. update-noted s.seen t u (elim (In-snoc u t s.exp.starts m) [
            | inl old ↦ inl (k.noted u old)
            | inr same ↦ inr same
          ]);
          known = λ u m. elim (update-known s.seen t u m) [
            | inl old ↦ In-append_left u s.exp.starts (t ∷ []) (k.known u old)
            | inr same ↦ In-append_right u s.exp.starts (t ∷ []) (inl same)
          ];
        })
      ]
    ]

-- A minute on the grid of a day, whose slot ends inside the band.
pub record OnGrid (w : Window) (m : ℕ) : Type 0 where
  pub step : ℕ
  pub on_grid : m ≡ minutes w.day_start + step * w.slot_minutes
  pub in_band : m + w.slot_minutes ≤ minutes w.day_end

-- A date of the window.
pub record InRange (w : Window) (d : Date) : Type 0 where
  pub valid : IsDate d
  pub first_le : day_number w.first ≤ day_number d
  pub le_last : day_number d ≤ day_number w.last

shown-Fits :
    (w : Window) (loc : Location) (t : Time) (d : Date) (m : ℕ)
    → InRange w d
    → OnGrid w m
    → Shows loc t d m
    → Fits w loc t
shown-Fits w loc t d m r g s = record {
  first_le = rw s.day r.first_le;
  le_last = rw s.day r.le_last;
  step = g.step;
  on_grid = s.minute ∙ g.on_grid;
  in_band = rw s.minute g.in_band;
  whole = s.whole;
}

-- The anomalies say nothing of the starts.
same_starts :
    (w : Window) (loc : Location) (s : Scan) (skipped ambiguous : List Anomaly)
    → Kept w loc s
    → Kept w loc (record s { exp = record (s.exp) { skipped = skipped; ambiguous = ambiguous } })
same_starts w loc s skipped ambiguous k = record {
  fit = k.fit;
  distinct = k.distinct;
  few = k.few;
  noted = k.noted;
  known = k.known;
}

place-Kept :
    (w : Window) (loc : Location) (d : Date) (tod : TimeOfDay) (s r : Scan) (t : Time) (kind : Kind)
    → Kept w loc s
    → (kind ≡ kind_nonexistent) ⊎ Fits w loc t
    → place d tod s t kind ≡ some r
    → Kept w loc r
unfolding place
place-Kept w loc d tod s r t kind_nonexistent k f h =
    subst (Kept w loc) (some-injective _ _ h) (same_starts w loc s _ _ k)
place-Kept w loc d tod s r t kind_ambiguous k (inr f) h =
    emit-Kept w loc _ r t (same_starts w loc s _ _ k) f h
place-Kept w loc d tod s r t kind_normal k (inr f) h = emit-Kept w loc s r t k f h
place-Kept w loc d tod s r t kind k (inl e) h = absurd (cc)

pub visit-Kept :
    (w : Window) (loc : Location) (d : Date) (s r : Scan) (m : ℕ)
    → Kept w loc s
    → InRange w d
    → OnGrid w m
    → visit loc d s m ≡ some r
    → Kept w loc r
unfolding visit
visit-Kept w loc d s r m k range grid h =
    let tod : TimeOfDay = record { hour = m / 60; minute = m % 60 } in
    place-Kept w loc d tod s r _ _ k
      (elim (resolve-matches loc d tod) [
        | inl gone ↦ inl gone
        | inr shown ↦ inr (shown-Fits w loc _ d m range grid (matches-Shows loc _ d m shown))
      ])
      h
