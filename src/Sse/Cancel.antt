-- ===== src/Sse/Cancel.antt =====
-- The cancel function of `Subscribe`, of api/internal/sse/broker.go, keeps the broker sound.
use mathlib.Core.Option.{some-injective}
use overlap.Common.{
  AreDistinct, ℕ, ◌≤◌, ◌≡◌, ◌≢◌, refl, ap, sym, subst, ◌∙◌, String, true, false, List, [], ◌∷◌,
  Option, none, some, length, ◌==◌, inl, inr, arith, if◌then◌else◌, Bool-cases, Option-cases, In,
}
use overlap.Common.Maps.{
  string_key, nat_key, lookup, update, lookup-insert, lookup-delete, update-other, update-every,
}
use overlap.Sse.{subscriber_buffer, Channel, Broker, watching, remove, put_back, unlisted, cancel}
use overlap.Sse.Sound.{
  IsLive, IsListed, IsSound, watching-IsListed, watching-AreDistinct, IsListed-watching,
}

In-remove : (x ch : ℕ) (xs : List ℕ) → In x (remove ch xs) → In x xs × (x ≢ ch)
unfolding remove
In-remove x ch [] m = absurd m
In-remove x ch (y ∷ ys) m = elim (Bool-cases (y == ch)) [
  | inl e ↦ let r = In-remove x ch ys (rw (e, remove) at m) in (inr r.0, r.1)
  | inr e ↦ elim (rw (e, remove) at m) [
    | inl here ↦ (inl here, λ q. ground (arith, e, here, q))
    | inr later ↦ let r = In-remove x ch ys later in (inr r.0, r.1)
  ]
]

remove-In : (x ch : ℕ) (xs : List ℕ) → In x xs → x ≢ ch → In x (remove ch xs)
unfolding remove
remove-In x ch [] m ne = m
remove-In x ch (y ∷ ys) m ne = elim (Bool-cases (y == ch)) [
  | inl e ↦ elim m [
    | inl here ↦ absurd (ne (ground (arith, e, here)))
    | inr later ↦ rw (e, remove) (remove-In x ch ys later ne)
  ]
  | inr e ↦ elim m [
    | inl here ↦ rw (e, remove) (inl here)
    | inr later ↦ rw (e, remove) (inr (remove-In x ch ys later ne))
  ]
]

remove-AreDistinct : (ch : ℕ) (xs : List ℕ) → AreDistinct xs → AreDistinct (remove ch xs)
unfolding remove
remove-AreDistinct ch [] h = tt
remove-AreDistinct ch (x ∷ xs) h = elim (Bool-cases (x == ch)) [
  | inl e ↦ rw (e, remove) (remove-AreDistinct ch xs h.1)
  | inr e ↦ rw (e, remove) ((λ m. h.0 (In-remove x ch xs m).0), remove-AreDistinct ch xs h.1)
]

-- A set, or no entry for an empty one.
abbrev entry : List ℕ → Option (List ℕ)
entry [] = none
entry (x ∷ xs) = some (x ∷ xs)

lookup-put_back :
    (subs : List (String × List ℕ)) (event : String) (left : List ℕ) (e : String)
    → lookup (put_back subs event left) e
      ≡ (if string_key.beq event e then entry left else lookup subs e)
unfolding put_back
lookup-put_back subs event [] e = lookup-delete subs event e
lookup-put_back subs event (x ∷ xs) e = lookup-insert subs event (x ∷ xs) e

lookup-unlisted :
    (b : Broker) (event : String) (ch : ℕ) (e : String)
    → lookup (unlisted b event ch) e
      ≡ (if string_key.beq event e then entry (remove ch (watching b event)) else lookup b.subs e)
unfolding unlisted watching remove
lookup-unlisted b event ch e = elim (Option-cases (lookup b.subs event)) [
  | inr (set, p) ↦ rw (p, unlisted, watching) (lookup-put_back b.subs event (remove ch set) e)
  | inl p ↦
      rw (p, unlisted, watching)
        (elim (Bool-cases (string_key.beq event e)) [
          | inr other ↦ rw other refl
          | inl same ↦
              rw same (subst (λ f. lookup b.subs f ≡ none) ((string_key.beq_iff event e).0 same) p)
        ])
]

entry-some : (left set : List ℕ) → entry left ≡ some set → left ≡ set
entry-some [] set e = absurd (cc)
entry-some (x ∷ xs) set e = some-injective _ _ e

entry-peopled : (left : List ℕ) → entry left ≢ some []
entry-peopled [] e = absurd (cc)
entry-peopled (x ∷ xs) e = let bad = some-injective _ _ e in absurd (cc)

entry-In : (x : ℕ) (left : List ℕ) → In x left → entry left ≡ some left
entry-In x [] m = absurd m
entry-In x (y ∷ ys) m = refl

module _ (b : Broker) (event : String) (ch : ℕ) where
  IsListed-unlisted :
      (e : String) (x : ℕ)
      → IsListed (unlisted b event ch) e x
      → IsListed b.subs e x × ((event ≡ e) → x ≢ ch)
  IsListed-unlisted e x (set, p, m) =
      let q = sym (lookup-unlisted b event ch e) ∙ p in
      elim (Bool-cases (string_key.beq event e)) [
        | inr other ↦ (
          (set, rw other at q, m),
          λ here. ground (arith, other, string_key.beq_iff event e, here),
        )
        | inl same ↦
            let here : event ≡ e = (string_key.beq_iff event e).0 same in
            let left = entry-some (remove ch (watching b event)) set (rw same at q) in
            let r = In-remove x ch (watching b event) (subst (In x) (sym left) m) in
            (subst (λ f. IsListed b.subs f x) here (watching-IsListed b event x r.0), λ _. r.1)
      ]

  unlisted-IsListed :
      (e : String) (x : ℕ) → IsListed b.subs e x → x ≢ ch → IsListed (unlisted b event ch) e x
  unlisted-IsListed e x (set, p, m) ne = elim (Bool-cases (string_key.beq event e)) [
    | inr other ↦ (set, lookup-unlisted b event ch e ∙ rw other p, m)
    | inl same ↦
        let here : event ≡ e = (string_key.beq_iff event e).0 same in
        let old =
          IsListed-watching b event x (subst (λ f. IsListed b.subs f x) (sym here) (set, p, m)) in
        let kept = remove-In x ch (watching b event) old ne in
        (
          remove ch (watching b event),
          lookup-unlisted b event ch e ∙ rw same (entry-In x (remove ch (watching b event)) kept),
          kept,
        )
  ]

  unlisted-peopled :
      (e : String) → lookup b.subs e ≢ some [] → lookup (unlisted b event ch) e ≢ some []
  unlisted-peopled e ok p =
      let q = sym (lookup-unlisted b event ch e) ∙ p in
      elim (Bool-cases (string_key.beq event e)) [
        | inr other ↦ ok (rw other at q)
        | inl same ↦ entry-peopled (remove ch (watching b event)) (rw same at q)
      ]

unlisted-AreDistinct :
    (b : Broker) (event : String) (ch : ℕ)
    → IsSound b
    → (e : String) (set : List ℕ) → lookup (unlisted b event ch) e ≡ some set
    → AreDistinct set
unlisted-AreDistinct b event ch h e set p =
    let q = sym (lookup-unlisted b event ch e) ∙ p in
    elim (Bool-cases (string_key.beq event e)) [
      | inr other ↦ h.distinct e set (rw other at q)
      | inl same ↦
          subst AreDistinct (entry-some (remove ch (watching b event)) set (rw same at q))
            (remove-AreDistinct ch (watching b event) (watching-AreDistinct b event h))
    ]

-- The broker after a first cancel.
abbrev cancelled : Broker → ℕ → Broker
cancelled b ch = record b {
  subs = unlisted b (b.chans ch).event ch;
  chans = update b.chans ch (record (b.chans ch) { once = true; closed = true });
}

cancelled-IsSound : (b : Broker) (ch : ℕ) → IsSound b → IsSound (cancelled b ch)
cancelled-IsSound b ch h =
    let event = (b.chans ch).event in
    let shut : Channel = record (b.chans ch) { once = true; closed = true } in
    let other : (x : ℕ) → x ≢ ch → update b.chans ch shut x ≡ b.chans x =
      λ x ne. update-other b.chans ch x shut (λ q. ne (sym q)) in
    record {
      live = λ e x l.
          let (old, apart) = IsListed-unlisted b event ch e x l in
          let r = h.live e x old in
          let ne : x ≢ ch = λ q. apart (ap (λ k. (b.chans k).event) (sym q) ∙ r.1.of_event) q in
          (r.0, subst (λ c. IsLive c e) (sym (other x ne)) r.1);
      distinct = unlisted-AreDistinct b event ch h;
      peopled = λ e. unlisted-peopled b event ch e (h.peopled e);
      listed = λ x lt on. elim (Bool-cases (ch == x)) [
        | inl same ↦ absurd (let bad : true ≡ false = rw same at on in (cc))
        | inr away ↦
            let ne : x ≢ ch = λ q. ground (arith, away, q) in
            rw away
              (unlisted-IsListed b event ch (b.chans x).event x (h.listed x lt (rw away at on)) ne)
      ];
      once_closed = update-every (λ c. c.once ≡ c.closed) b.chans ch shut refl h.once_closed;
      buffered =
          update-every (λ c. length c.buffer ≤ subscriber_buffer) b.chans ch shut (h.buffered ch)
            h.buffered;
    }

-- A cancel never closes a channel twice, and leaves the broker sound.
pub cancel-IsSound :
    (b : Broker) (ch : ℕ)
    → IsSound b
    → (after : Broker) × (cancel b ch ≡ some after) × IsSound after
unfolding cancel
cancel-IsSound b ch h = elim (Bool-cases (b.chans ch).once) [
  | inl done ↦ (b, rw done refl, h)
  | inr first ↦
      let shut_not : (b.chans ch).closed ≡ false = sym (h.once_closed ch) ∙ first in
      (cancelled b ch, rw (first, shut_not) refl, cancelled-IsSound b ch h)
]
