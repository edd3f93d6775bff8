-- ===== src/Store/Groups/Rosters.antt =====
-- `CreateGroup` of api/internal/store/groups.go: all of the group with its roster, or nothing.
use overlap.Common.{
  ℕ, zero, suc, ◌≡◌, refl, sym, subst, ap, ◌∙◌, String, List, [], ◌∷◌, ◌++◌, Option, none, some,
  map, any, ◌&&◌, Bool-cases, Option-cases, inl, inr,
}
use mathlib.Core.List.{append-nil, append_assoc}
use overlap.Common.Text.{Runes, same_text}
use overlap.Store.{role_optional}
use overlap.Store.Tables.{
  GroupRow, MemberRow, Db, failed, unique, Result, ok, err, World, State, Step, ◌>>=◌, pure, exec,
  draw, tick,
}
use overlap.Store.Tables.Steps.{
  bind-ok, exec-ok, ok-injective, pure-ok, Done, transaction-Done, next-Done,
}
use overlap.Store.Queries.{
  create_group, create_group_member, is_present, is_role, group_is, event_is, refers,
}
use overlap.Store.Groups.{
  NewGroup, NewGroupMember, GroupMember, CreatedGroup, decode_group, decode_group_member,
  or_default, parse_optional, slug_attempts, slug_of, or_failed, is_slug_clash, or_again, new_slug,
  seed_members, create_roster, create_rows, create_group_tx, create_group_loop, create,
}

-- The rows of a roster, in order: members of the group with the names, zones and roles asked for, and
-- no token.
abbrev pub Seeds : ℕ → List NewGroupMember → List MemberRow → Type 0
Seeds g [] [] = Unit
Seeds g (m ∷ ms) (r ∷ rs) =
    (r.group_id ≡ g)
    × (r.token_hash ≡ none)
    × (r.display_name ≡ m.display_name)
    × (r.tz ≡ m.tz)
    × (r.default_role ≡ or_default m.default_role role_optional)
    × Seeds g ms rs
Seeds g ms rs = ⊥

-- One new group, its roster, and nothing else.
pub record Created (inp : NewGroup) (before : Db) (out : CreatedGroup) (after : Db) : Type 0 where
  pub row : GroupRow
  pub rows : List MemberRow
  pub tables :
      after ≡ record before { groups = before.groups ++ row ∷ []; members = before.members ++ rows }
  pub group_is : out.group ≡ decode_group row
  pub members_are : out.members ≡ map decode_group_member rows
  pub name_is : row.name ≡ inp.name
  pub seeded : Seeds row.id inp.members rows

abbrev with_members : Db → List MemberRow → Db
with_members db rows = record db { members = db.members ++ rows }

abbrev with_group : Db → GroupRow → Db
with_group db row = record db { groups = db.groups ++ row ∷ [] }

members_grow :
    (db : Db) (row : MemberRow) (rows : List MemberRow)
    → with_members (with_members db (row ∷ [])) rows ≡ with_members db (row ∷ rows)
members_grow db row rows =
    let e : (db.members ++ row ∷ []) ++ rows ≡ db.members ++ row ∷ rows =
      append_assoc db.members (row ∷ []) rows in
    cc

module _ (w : World) where
  insert_member :
      (g : ℕ) (m : NewGroupMember) (n : ℕ) (db db' : Db) (row : MemberRow)
      → create_group_member w.fresh w.now g none m.display_name m.tz
          (or_default m.default_role role_optional)
          n
          db
        ≡ (ok row, db')
      → (db' ≡ record db { members = db.members ++ row ∷ [] }) × Seeds g (m ∷ []) (row ∷ [])
  unfolding create_group_member
  insert_member g m n db db' row e =
      let role = or_default m.default_role role_optional in
      elim (Bool-cases (is_present m.display_name && is_role role && any (group_is g) db.groups)) [
        | inr c ↦
            absurd
              (let bad : (err failed, db) ≡ (ok row, db') = rw (create_group_member, c) at e in cc)
        | inl c ↦
            let new : MemberRow = record {
              id = w.fresh n;
              group_id = g;
              token_hash = none;
              display_name = m.display_name;
              tz = m.tz;
              default_role = role;
              calendar_source = "none";
              calendar_url = none;
              joined_at = w.now n;
            } in
            let after : Db = record db { members = db.members ++ new ∷ [] } in
            let done : (ok new, after) ≡ (ok row, db') = rw (create_group_member, c) at e in
            let mine : new ≡ row = ok-injective new row after db' done in
            let seeds : Seeds g (m ∷ []) (new ∷ []) = (refl, refl, refl, refl, refl, tt) in
            let tables : after ≡ db' = ap (λ p. p.1) done in
            (
              sym tables ∙ ap (λ r. record db { members = db.members ++ r ∷ [] }) mine,
              subst (λ r. Seeds g (m ∷ []) (r ∷ [])) mine seeds,
            )
      ]

  -- The members that `createGroupTx` seeds, on success.
  seed_members-Seeds :
      (g : ℕ) (ms : List NewGroupMember) (s t : State) (out : List GroupMember)
      → seed_members w g ms s ≡ (ok out, t)
      → (rows : List MemberRow) × (t.db ≡ record (s.db) { members = s.db.members ++ rows })
        × (out ≡ map decode_group_member rows)
        × Seeds g ms rows
  unfolding seed_members
  seed_members-Seeds g [] s t out e =
      let (value, db) = pure-ok [] out s t e in ([], rw append-nil db, value, tt)
  seed_members-Seeds g (m ∷ ms) s t out e =
      let insert = exec w (
        create_group_member w.fresh w.now g none m.display_name m.tz
          (or_default m.default_role role_optional)) in
      let rest = λ (row : MemberRow).
        seed_members w g ms >>= λ (out : List GroupMember). pure (decode_group_member row ∷ out) in
      let (row, s1, e1, e2) = bind-ok insert rest s out t e in
      let (tail, s2, e3, e4) =
        bind-ok (seed_members w g ms) (λ out. pure (decode_group_member row ∷ out)) s1 out t e2 in
      let made =
        exec-ok w
          (create_group_member w.fresh w.now g none m.display_name m.tz
            (or_default m.default_role role_optional))
          s row s1 e1 in
      let (one, first) = insert_member g m s.calls s.db s1.db row made in
      let (rows, tables, outs, seeds) = seed_members-Seeds g ms s1 s2 tail e3 in
      let (value, last) = pure-ok (decode_group_member row ∷ tail) out s2 t e4 in
      (
        row ∷ rows,
        last ∙ tables ∙ ap (λ d. with_members d rows) one ∙ members_grow s.db row rows,
        value ∙ ap (◌∷◌ (decode_group_member row)) outs,
        (first.0, first.1, first.2, first.3, first.4, seeds),
      )

  insert_group :
      (slug : Runes) (name : String) (from : Option ℕ) (n : ℕ) (db db' : Db) (row : GroupRow)
      → create_group w.fresh w.now slug name from n db ≡ (ok row, db')
      → (db' ≡ record db { groups = db.groups ++ row ∷ [] }) × (row.name ≡ name)
  unfolding create_group
  insert_group slug name from n db db' row e =
      elim (Bool-cases (any (λ g. same_text g.slug slug) db.groups)) [
        | inl a ↦ absurd (
            let bad : (err (unique "groups_slug_key"), db) ≡ (ok row, db') =
              rw (create_group, a) at e in
            cc)
        | inr a ↦ elim (Bool-cases (is_present name && refers event_is db.events from)) [
          | inr c ↦
              absurd
                (let bad : (err failed, db) ≡ (ok row, db') = rw (create_group, a, c) at e in cc)
          | inl c ↦
              let new : GroupRow = record {
                id = w.fresh n;
                slug = slug;
                name = name;
                created_from = from;
                created_at = w.now n;
              } in
              let after : Db = record db { groups = db.groups ++ new ∷ [] } in
              let done : (ok new, after) ≡ (ok row, db') = rw (create_group, a, c) at e in
              let mine : new ≡ row = ok-injective new row after db' done in
              let tables : after ≡ db' = ap (λ p. p.1) done in
              (
                sym tables ∙ ap (λ r. record db { groups = db.groups ++ r ∷ [] }) mine,
                sym (ap (λ (r : GroupRow). r.name) mine),
              )
        ]
      ]

  parse_keeps :
      (from : Option (Option ℕ)) (s t : State) (id : Option ℕ)
      → parse_optional from s ≡ (ok id, t)
      → t.db ≡ s.db
  parse_keeps none s t id e = (pure-ok none id s t e).1
  parse_keeps (some none) s t id e = absurd (cc)
  parse_keeps (some (some n)) s t id e = (pure-ok (some n) id s t e).1

  create_rows-Created :
      (slug : Runes) (inp : NewGroup) (s : State) (out : CreatedGroup) (u : State)
      → create_rows w slug inp s ≡ (ok out, u)
      → Created inp s.db out u.db
  create_rows-Created slug inp s out u e =
      let insert = λ (from : Option ℕ). exec w (create_group w.fresh w.now slug inp.name from) in
      let (from, s1, e1, e2) =
        bind-ok (parse_optional inp.created_from) (λ from. insert from >>= create_roster w inp) s
          out u e in
      let (row, s2, e3, e4) = bind-ok (insert from) (create_roster w inp) s1 out u e2 in
      let (members, s3, e5, e6) =
        bind-ok (seed_members w row.id inp.members)
          (λ members. pure (record { group = decode_group row; members = members })) s2 out u e4 in
      let (one, name) =
        insert_group slug inp.name from s1.calls s1.db s2.db row
          (exec-ok w (create_group w.fresh w.now slug inp.name from) s1 row s2 e3) in
      let (rows, tables, outs, seeds) = seed_members-Seeds row.id inp.members s2 s3 members e5 in
      let made : CreatedGroup = record { group = decode_group row; members = members } in
      let (value, last) = pure-ok made out s3 u e6 in
      record {
        row = row;
        rows = rows;
        tables =
            last
            ∙ tables
            ∙ ap (λ d. with_members d rows) one
            ∙ ap (λ d. with_members (with_group d row) rows)
                (parse_keeps inp.created_from s s1 from e1);
        group_is = ap (λ (g : CreatedGroup). g.group) value;
        members_are = ap (λ (g : CreatedGroup). g.members) value ∙ outs;
        name_is = name;
        seeded = seeds;
      }

  -- One attempt creates all of the group or nothing of it.
  create_group_tx-Done :
      (slug : Runes) (inp : NewGroup) (s : State)
      → Done (Created inp s.db) s.db (create_group_tx w slug inp s)
  unfolding create_group_tx
  create_group_tx-Done slug inp s =
      transaction-Done (Created inp s.db) w (create_rows w slug inp) s
        (λ out u e. create_rows-Created slug inp (tick s) out u e)

  abbrev IsCreation : NewGroup → Db → Result CreatedGroup × State → Type 0
  IsCreation inp db r = Done (Created inp db) db r

  or_again-Done :
      (inp : NewGroup) (db : Db) (x : Result CreatedGroup × State) (rest : Step CreatedGroup)
      → IsCreation inp db x
      → ((u : State) → u.db ≡ db → IsCreation inp db (rest u))
      → IsCreation inp db (or_again x rest)
  or_again-Done inp db (ok out, u) rest h k = h
  or_again-Done inp db (err e, u) rest h k = elim (Bool-cases (is_slug_clash e)) [
    | inl c ↦ rw c (k u h)
    | inr c ↦ rw c h
  ]

  or_failed_keeps : (o : Option Runes) (s : State) → (or_failed o s).1.db ≡ s.db
  or_failed_keeps none s = refl
  or_failed_keeps (some slug) s = refl

  new_slug_keeps : (s : State) → (new_slug w s).1.db ≡ s.db
  unfolding new_slug draw
  new_slug_keeps s = elim (Option-cases (w.random s.calls)) [
    | inl h ↦ rw (new_slug, draw, h) refl
    | inr (bytes, h) ↦ rw (new_slug, draw, h) (or_failed_keeps (slug_of bytes) (tick s))
  ]

  create_group_loop-Done :
      (left : ℕ) (inp : NewGroup) (s : State) → IsCreation inp s.db (create_group_loop w left inp s)
  unfolding create_group_loop
  create_group_loop-Done zero inp s = refl
  create_group_loop-Done (suc left) inp s =
      next-Done (Created inp s.db) w s.db (new_slug w s) _ (new_slug_keeps s) (λ slug u h.
        or_again-Done inp s.db (create_group_tx w slug inp u) (create_group_loop w left inp)
          (subst (λ db. IsCreation inp db (create_group_tx w slug inp u)) h
            (create_group_tx-Done slug inp u))
          (λ v k.
            subst (λ db. IsCreation inp db (create_group_loop w left inp v)) k
              (create_group_loop-Done left inp v)))

  -- `CreateGroup` adds one group with the name asked for and its roster, in order and unclaimed, and
  -- changes nothing else; or it fails, and the tables are as they were, however many attempts it made
  -- and at whatever statement each of them stopped.
  pub create-Done : (inp : NewGroup) (s : State) → Done (Created inp s.db) s.db (create w inp s)
  unfolding create
  create-Done inp s = create_group_loop-Done slug_attempts inp s
