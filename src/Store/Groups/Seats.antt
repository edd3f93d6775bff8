-- ===== src/Store/Groups/Seats.antt =====
-- `ClaimEventSeat` of api/internal/store/groups.go: claiming again finds the same seat.
use overlap.Common.{
  ℕ, ◌≡◌, refl, sym, ap, ◌∙◌, Bool, true, false, not, ◌&&◌, [], ◌∷◌, ◌++◌, Option, none, some,
  arith, any, length, ◌==◌, ==_iff, Bool-cases, Option-cases, inl, inr, if◌then◌else◌, String,
}
use overlap.Common.Text.{Runes, same_text}
use overlap.Store.Tables.{
  ParticipantRow, Db, failed, no_rows, unique, Result, ok, err, World, State, next, ◌>>=◌, found,
  exec, draw, tick, find, update_rows,
}
use overlap.Store.Tables.Steps.{
  bind-ok, exec-ok, exec-reads, ok-injective, find-holds, find-update_rows, find-snoc,
  length-update_rows,
}
use overlap.Store.Queries.{
  same_id, participant_is, member_is, event_is, is_present, is_role, refers, seat_taken,
  create_participant, get_participant_by_group_member, rotate_participant_token,
  get_group_member_by_id_unscoped,
}
use overlap.Store.Groups.{
  with_token, seat_for, look_up, new_token, new_seat, take_seat, claim_event_seat,
}

-- Whether a row is the seat of a member in an event.
abbrev pub is_seat : ℕ → ℕ → ParticipantRow → Bool
is_seat eid mid p = p.event_id == eid && same_id p.group_member_id mid

-- The seat that `ClaimEventSeat` looks up.
abbrev pub seat : ℕ → ℕ → Db → Option ParticipantRow
seat eid mid db = find (is_seat eid mid) db.participants

abbrev rotated : Runes → ParticipantRow → ParticipantRow
rotated h p = record p { token_hash = h }

rotated_if-id :
    (b : Bool) (h : Runes) (p : ParticipantRow) → (if b then rotated h p else p).id ≡ p.id
rotated_if-id true h p = refl
rotated_if-id false h p = refl

rotate_seat :
    (eid mid id : ℕ) (h : Runes) (n : ℕ) (db db' : Db) (old row : ParticipantRow)
    → seat eid mid db ≡ some old
    → old.id ≡ id
    → rotate_participant_token id h n db ≡ (ok row, db')
    → (row.id ≡ id)
      × ((r : ParticipantRow) × (seat eid mid db' ≡ some r) × (r.id ≡ id) × (r.token_hash ≡ h))
      × (length db'.participants ≡ length db.participants)
unfolding rotate_participant_token
rotate_seat eid mid id h n db db' old row found same e =
    elim (Option-cases (find (participant_is id) db.participants)) [
      | inl k ↦ absurd (
          let bad : (err no_rows, db) ≡ (ok row, db') = rw (rotate_participant_token, k) at e in cc)
      | inr (r, k) ↦
          let clash =
            any (λ p. not (p.id == id) && (p.event_id == r.event_id && same_text p.token_hash h))
              db.participants in
          elim (Bool-cases clash) [
            | inl c ↦ absurd (
                let bad : (err (unique "participants_event_token_idx"), db) ≡ (ok row, db') =
                  rw (rotate_participant_token, k, c) at e in
                cc)
            | inr c ↦
                let after = update_rows (participant_is id) (rotated h) db.participants in
                let done : (ok (rotated h r), record db { participants = after }) ≡ (ok row, db') =
                  rw (rotate_participant_token, k, c) at e in
                let ps : after ≡ db'.participants = ap (λ x. x.1.participants) done in
                let again =
                  find-update_rows (is_seat eid mid) (participant_is id) (rotated h) db.participants
                    old (λ x. refl) found in
                let mine : rotated h r ≡ row =
                  ok-injective (rotated h r) row (record db { participants = after }) db' done in
                let own : participant_is id old ≡ true = (==_iff old.id id).1 same in
                (
                  rw (← mine)
                      ((==_iff r.id id).0 (find-holds (participant_is id) db.participants r k)),
                  (
                    if participant_is id old then rotated h old else old,
                    rw (← ps) again,
                    rotated_if-id (participant_is id old) h old ∙ same,
                    rw own refl,
                  ),
                  rw (← ps) (length-update_rows (participant_is id) (rotated h) db.participants),
                )
          ]
    ]

self_seat : (eid mid : ℕ) → (eid == eid && mid == mid) ≡ true
self_seat eid mid = ground arith

add_seat :
    (w : World) (eid mid : ℕ) (h : Runes) (name tz role : String) (n : ℕ) (db db' : Db)
    (row : ParticipantRow)
    → seat eid mid db ≡ none
    → create_participant w.fresh w.now eid h name tz role false (some mid) n db ≡ (ok row, db')
    → seat eid mid db' ≡ some row
unfolding create_participant
add_seat w eid mid h name tz role n db db' row free e =
    let new : ParticipantRow = record {
      id = w.fresh n;
      event_id = eid;
      token_hash = h;
      display_name = name;
      tz = tz;
      role = role;
      email = none;
      calendar_source = "none";
      is_organizer = false;
      responded_at = none;
      created_at = w.now n;
      calendar_url = none;
      group_member_id = some mid;
    } in
    let taken = any (λ p. p.event_id == eid && same_text p.token_hash h) db.participants in
    let double = seat_taken eid (some mid) db.participants in
    let fine =
      is_present name
      && is_role role
      && any (event_is eid) db.events
      && refers member_is db.members (some mid) in
    elim (Bool-cases taken) [
      | inl a ↦ absurd (
          let bad : (err (unique "participants_event_token_idx"), db) ≡ (ok row, db') =
            rw (create_participant, a) at e in
          cc)
      | inr a ↦ elim (Bool-cases double) [
        | inl b ↦ absurd (
            let bad : (err (unique "participants_event_group_member_idx"), db) ≡ (ok row, db') =
              rw (create_participant, a, b) at e in
            cc)
        | inr b ↦ elim (Bool-cases fine) [
          | inr c ↦ absurd (
              let bad : (err failed, db) ≡ (ok row, db') = rw (create_participant, a, b, c) at e in
              cc)
          | inl c ↦
              let done : (ok new, record db { participants = db.participants ++ new ∷ [] })
                  ≡ (ok row, db') =
                rw (create_participant, a, b, c) at e in
              let ps : db.participants ++ new ∷ [] ≡ db'.participants =
                ap (λ x. x.1.participants) done in
              let mine : new ≡ row =
                ok-injective new row (record db { participants = db.participants ++ new ∷ [] }) db'
                  done in
              let self : (eid == eid && mid == mid) ≡ true = self_seat eid mid in
              rw (← ps, ← mine) (find-snoc (is_seat eid mid) db.participants new free self)
        ]
      ]
    ]

abbrev without_token : Result (ParticipantRow × Runes) × State → Result ParticipantRow × State
without_token (ok (row, raw), s) = (ok row, s)
without_token (err e, s) = (err e, s)

with_token-ok :
    (w : World) (token : Runes × Runes) (x : Result ParticipantRow × State) (row : ParticipantRow)
    (raw : Runes) (t : State)
    → next x (with_token w token) ≡ (ok (row, raw), t)
    → x ≡ (ok row, t)
with_token-ok w token (ok r, s) row raw t e = ap without_token e
with_token-ok w token (err c, s) row raw t e = absurd (cc)

abbrev raw_of : Result (ParticipantRow × Runes) → Runes → Runes
raw_of (ok (row, raw)) default = raw
raw_of (err e) default = default

with_token_raw :
    (w : World) (token : Runes × Runes) (x : Result ParticipantRow × State) (row : ParticipantRow)
    (raw : Runes) (t : State)
    → next x (with_token w token) ≡ (ok (row, raw), t)
    → token.0 ≡ raw
with_token_raw w token (ok r, s) row raw t e = ap (λ p. raw_of p.0 raw) e
with_token_raw w token (err c, s) row raw t e = absurd (cc)

module _ (w : World) (eid mid : ℕ) where
  new_seat-Seats :
      (token : Runes × Runes) (s t : State) (row : ParticipantRow) (raw : Runes)
      → seat eid mid s.db ≡ none
      → new_seat w eid mid token s ≡ (ok (row, raw), t)
      → seat eid mid t.db ≡ some row
  unfolding new_seat
  new_seat-Seats token s t row raw free e =
      let look = found (exec w (get_group_member_by_id_unscoped mid)) in
      let (m, s1, e1, e2) =
        bind-ok look (λ m. seat_for w eid mid token m >>= with_token w token) s (row, raw) t e in
      let reads =
        exec-reads w (get_group_member_by_id_unscoped mid) s
          (unfold get_group_member_by_id_unscoped in refl) in
      let same : s1.db ≡ s.db = ap (λ p. p.1.db) (sym e1) ∙ reads in
      let made =
        exec-ok w _ s1 row t (with_token-ok w token (seat_for w eid mid token m s1) row raw t e2) in
      add_seat w eid mid token.1 m.display_name m.tz m.default_role s1.calls s1.db t.db row
        (rw same free) made

  -- A token is the next draw, with its digest.
  new_token_drawn :
      (s t : State) (token : Runes × Runes)
      → new_token w s ≡ (ok token, t)
      → (t.db ≡ s.db) × (w.random s.calls ≡ some token.0) × (token.1 ≡ w.hash token.0)
  unfolding new_token draw
  new_token_drawn s t token e = elim (Option-cases (w.random s.calls)) [
    | inl k ↦ absurd (
        let bad : ◌≡◌ {A = Result (Runes × Runes) × State} (err failed, tick s) (ok token, t) =
          rw (new_token, draw, k) at e in
        cc)
    | inr (bytes, k) ↦
        let done : ◌≡◌ {A = Result (Runes × Runes) × State} (ok (bytes, w.hash bytes), tick s)
            (ok token, t) =
          rw (new_token, draw, k) at e in
        let same : ok (bytes, w.hash bytes) ≡ ok token = ap (λ p. p.0) done in
        let pair : (bytes, w.hash bytes) ≡ token = cc in
        (
          sym (ap (λ p. p.1.db) done),
          k ∙ ap (λ p. some p.0) pair,
          sym (ap (λ p. p.1) pair) ∙ ap (λ p. w.hash p.0) pair,
        )
  ]

  -- The seat before is kept, and its row is the one that is given.
  take_seat-again :
      (token : Runes × Runes) (s t : State) (old row : ParticipantRow) (raw : Runes)
      → seat eid mid s.db ≡ some old
      → look_up w eid mid token s ≡ (ok (row, raw), t)
      → (row.id ≡ old.id)
        × ((r : ParticipantRow) × (seat eid mid t.db ≡ some r)
            × (r.id ≡ old.id)
            × (r.token_hash ≡ token.1))
        × (length t.db.participants ≡ length s.db.participants)
        × (token.0 ≡ raw)
  unfolding take_seat exec get_participant_by_group_member
  take_seat-again token s t old row raw free e = elim (Bool-cases (w.fails s.calls)) [
    | inl f ↦
        absurd
          (let bad : (err failed, tick s) ≡ (ok (row, raw), t) = rw (exec, f, take_seat) at e in cc)
    | inr f ↦
        let rotate = exec w (rotate_participant_token old.id token.1) in
        let s1 = tick s in
        let went : (rotate >>= with_token w token) s1 ≡ (ok (row, raw), t) =
          rw (exec, f, get_participant_by_group_member, free, take_seat) at e in
        let made =
          exec-ok w (rotate_participant_token old.id token.1) s1 row t
            (with_token-ok w token (rotate s1) row raw t went) in
        let (id, stored, len) =
          rotate_seat eid mid old.id token.1 s1.calls s.db t.db old row free refl made in
        (id, stored, len, with_token_raw w token (rotate s1) row raw t went)
  ]

  -- Where no seat was found, the row that is given is one.
  take_seat-first :
      (token : Runes × Runes) (s t : State) (row : ParticipantRow) (raw : Runes)
      → seat eid mid s.db ≡ none
      → look_up w eid mid token s ≡ (ok (row, raw), t)
      → seat eid mid t.db ≡ some row
  unfolding take_seat exec get_participant_by_group_member
  take_seat-first token s t row raw free e = elim (Bool-cases (w.fails s.calls)) [
    | inl f ↦
        absurd
          (let bad : (err failed, tick s) ≡ (ok (row, raw), t) = rw (exec, f, take_seat) at e in cc)
    | inr f ↦
        let went : new_seat w eid mid token (tick s) ≡ (ok (row, raw), t) =
          rw (exec, f, get_participant_by_group_member, free, take_seat) at e in
        new_seat-Seats token (tick s) t row raw free went
  ]

  claim-steps :
      (s t : State) (row : ParticipantRow) (raw : Runes)
      → claim_event_seat w (some eid) (some mid) s ≡ (ok (row, raw), t)
      → (token : Runes × Runes) × (s1 : State) × (s1.db ≡ s.db)
        × (w.random s.calls ≡ some token.0)
        × (token.1 ≡ w.hash token.0)
        × (look_up w eid mid token s1 ≡ (ok (row, raw), t))
  unfolding claim_event_seat
  claim-steps s t row raw e =
      let (token, s1, e1, e2) = bind-ok (new_token w) (look_up w eid mid) s (row, raw) t e in
      let (same, drawn, digest) = new_token_drawn s s1 token e1 in
      (token, s1, same, drawn, digest, e2)

  -- After a claim there is a seat, and it is the row that the claim gave.
  claim-Seats :
      (s t : State) (row : ParticipantRow) (raw : Runes)
      → claim_event_seat w (some eid) (some mid) s ≡ (ok (row, raw), t)
      → (r : ParticipantRow) × (seat eid mid t.db ≡ some r) × (r.id ≡ row.id)
  claim-Seats s t row raw e =
      let (token, s1, same, drawn, digest, went) = claim-steps s t row raw e in
      elim (Option-cases (seat eid mid s1.db)) [
        | inl k ↦ (row, take_seat-first token s1 t row raw k went, refl)
        | inr (old, k) ↦
            let (one, (r, found, id, h), len, own) =
              take_seat-again token s1 t old row raw k went in
            (r, found, id ∙ sym one)
      ]

  -- A second claim of a member's seat in an event, from whichever device and whatever else failed
  -- before, gives the same participant as the first and adds no row. Its token is drawn in the second
  -- claim, and the seat then holds the digest of that token.
  pub claim_event_seat-IsStable :
      (s t u : State) (row row' : ParticipantRow) (raw raw' : Runes)
      → claim_event_seat w (some eid) (some mid) s ≡ (ok (row, raw), t)
      → claim_event_seat w (some eid) (some mid) t ≡ (ok (row', raw'), u)
      → (row'.id ≡ row.id)
        × (length u.db.participants ≡ length t.db.participants)
        × (w.random t.calls ≡ some raw')
        × ((r : ParticipantRow) × (seat eid mid u.db ≡ some r)
            × (r.id ≡ row.id)
            × (r.token_hash ≡ w.hash raw'))
  claim_event_seat-IsStable s t u row row' raw raw' e e' =
      let (r, found, id) = claim-Seats s t row raw e in
      let (token, t1, same, drawn, digest, went) = claim-steps t u row' raw' e' in
      let (one, (r', found', id', h), len, own) =
        take_seat-again token t1 u r row' raw' (rw same found) went in
      (
        one ∙ id,
        len ∙ ap (λ db. length db.participants) same,
        drawn ∙ ap (λ a. some a) own,
        (r', found', id' ∙ id, h ∙ digest ∙ ap (w.hash) own),
      )
