-- ===== src/Sse/Deliver.antt =====
-- `Publish` of api/internal/sse/broker.go, and the reads of its clients, keep the broker sound.
use overlap.Common.{
  ℕ, ◌≤◌, ◌≡◌, refl, sym, subst, ◌∙◌, String, false, List, [], ◌∷◌, ◌++◌, some, length, ltb, ◌==◌,
  inl, inr, arith, Bool-cases, In, length-append,
}
use overlap.Common.Maps.{nat_key, update}
use overlap.Sse.{
  Message, subscriber_buffer, Channel, Broker, watching, send, publish_loop, publish, receive,
  rest_of,
}
use overlap.Sse.Sound.{IsListed, IsSound, watching-IsListed}

-- A channel that differs in its buffer at most, which is not over its size.
pub record IsAlike (c d : Channel) : Type 0 where
  pub event : d.event ≡ c.event
  pub once : d.once ≡ c.once
  pub closed : d.closed ≡ c.closed
  pub buffer : length d.buffer ≤ subscriber_buffer

self-IsAlike : (c : Channel) → length c.buffer ≤ subscriber_buffer → IsAlike c c
self-IsAlike c h = record { event = refl; once = refl; closed = refl; buffer = h }

IsAlike-trans : (c d e : Channel) → IsAlike c d → IsAlike d e → IsAlike c e
IsAlike-trans c d e h k = record {
  event = k.event ∙ h.event;
  once = k.once ∙ h.once;
  closed = k.closed ∙ h.closed;
  buffer = k.buffer;
}

update-IsAlike :
    (chans : ℕ → Channel) (k : ℕ) (d : Channel)
    → ((ch : ℕ) → length (chans ch).buffer ≤ subscriber_buffer)
    → IsAlike (chans k) d
    → (ch : ℕ) → IsAlike (chans ch) (update chans k d ch)
update-IsAlike chans k d h new ch = elim (Bool-cases (k == ch)) [
  | inr other ↦ rw other (self-IsAlike (chans ch) (h ch))
  | inl same ↦
      let e : k ≡ ch = ground (arith, same) in rw same (subst (λ j. IsAlike (chans j) d) e new)
]

-- Soundness does not look into the buffers, but for their sizes.
alike-IsSound :
    (b : Broker) (chans : ℕ → Channel)
    → IsSound b
    → ((ch : ℕ) → IsAlike (b.chans ch) (chans ch))
    → IsSound (record b { chans = chans })
alike-IsSound b chans h like = record {
  live = λ e ch l.
      let r = h.live e ch l in
      (
        r.0,
        record {
          of_event = (like ch).event ∙ r.1.of_event;
          not_once = (like ch).once ∙ r.1.not_once;
          not_closed = (like ch).closed ∙ r.1.not_closed;
        },
      );
  distinct = h.distinct;
  peopled = h.peopled;
  listed = λ ch lt on.
      subst (λ e. IsListed b.subs e ch) (sym (like ch).event)
        (h.listed ch lt (sym (like ch).once ∙ on));
  once_closed = λ ch. (like ch).once ∙ h.once_closed ch ∙ sym (like ch).closed;
  buffered = λ ch. (like ch).buffer;
}

send-IsAlike :
    (m : Message) (c : Channel)
    → length c.buffer ≤ subscriber_buffer
    → c.closed ≡ false
    → (d : Channel) × (send m c ≡ some d) × IsAlike c d
unfolding send
send-IsAlike m c h on = elim (Bool-cases (ltb (length c.buffer) subscriber_buffer)) [
  | inr full ↦ (c, rw (on, full) refl, self-IsAlike c h)
  | inl room ↦ (
    record c { buffer = c.buffer ++ m ∷ [] },
    rw (on, room) refl,
    record {
      event = refl;
      once = refl;
      closed = refl;
      buffer = ground (arith, length-append c.buffer (m ∷ []), room);
    },
  )
]

publish_loop-IsAlike :
    (m : Message) (set : List ℕ) (chans : ℕ → Channel)
    → ((ch : ℕ) → length (chans ch).buffer ≤ subscriber_buffer)
    → ((ch : ℕ) → In ch set → (chans ch).closed ≡ false)
    → (after : ℕ → Channel) × (publish_loop m set chans ≡ some after)
      × ((ch : ℕ) → IsAlike (chans ch) (after ch))
unfolding publish_loop
publish_loop-IsAlike m [] chans h on = (chans, refl, λ ch. self-IsAlike (chans ch) (h ch))
publish_loop-IsAlike m (x ∷ set) chans h on =
    let (d, sent, like) = send-IsAlike m (chans x) (h x) (on x (inl refl)) in
    let one = update-IsAlike chans x d h like in
    let (after, rest, more) =
      publish_loop-IsAlike m set (update chans x d) (λ ch. (one ch).buffer)
        (λ ch i. (one ch).closed ∙ on ch (inr i)) in
    (after, rw (sent, publish_loop) rest, λ ch. IsAlike-trans _ _ _ (one ch) (more ch))

-- Publish never sends on a closed channel, and leaves the broker sound.
pub publish-IsSound :
    (b : Broker) (event : String) (m : Message)
    → IsSound b
    → (after : Broker) × (publish b event m ≡ some after) × IsSound after
unfolding publish
publish-IsSound b event m h =
    let (chans, sent, like) =
      publish_loop-IsAlike m (watching b event) b.chans h.buffered
        (λ ch i. (h.live event ch (watching-IsListed b event ch i)).1.not_closed) in
    (record b { chans = chans }, rw (sent, publish) refl, alike-IsSound b chans h like)

rest_of-length : (ms : List Message) → length (rest_of ms) ≤ length ms
rest_of-length [] = omega arith
rest_of-length (m ∷ ms) = omega arith

pub receive-IsSound : (b : Broker) (ch : ℕ) → IsSound b → IsSound (receive b ch)
unfolding receive
receive-IsSound b ch h =
    let c = b.chans ch in
    let d : Channel = record c { buffer = rest_of c.buffer } in
    alike-IsSound b (update b.chans ch d) h (
      update-IsAlike b.chans ch d h.buffered (record {
        event = refl;
        once = refl;
        closed = refl;
        buffer = omega (arith, rest_of-length c.buffer, h.buffered ch);
      }))
