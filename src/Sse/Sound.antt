-- ===== src/Sse/Sound.antt =====
-- What holds of the broker of api/internal/sse/broker.go between operations.
use overlap.Common.{
  AreDistinct, ℕ, ◌<◌, ◌≤◌, ◌≡◌, ◌≢◌, String, false, List, [], some, length, inl, inr, Option-cases,
  In,
}
use overlap.Common.Maps.{string_key, nat_key, lookup}
use overlap.Sse.{subscriber_buffer, Channel, Broker, watching}

-- A channel that may be sent to, of an event.
pub record IsLive (c : Channel) (event : String) : Type 0 where
  pub of_event : c.event ≡ event
  pub not_once : c.once ≡ false
  pub not_closed : c.closed ≡ false

-- The channel is in the set of the event.
abbrev pub IsListed : List (String × List ℕ) → String → ℕ → Type 0
IsListed subs event ch = (set : List ℕ) × (lookup subs event ≡ some set) × In ch set

pub record IsSound (b : Broker) : Type 0 where
  -- The sets hold channels that have been made and are open, of their event.
  pub live :
      (event : String) (ch : ℕ)
      → IsListed b.subs event ch
      → (ch < b.made) × IsLive (b.chans ch) event
  -- No set has a channel twice, and none is empty.
  pub distinct : (event : String) (set : List ℕ) → lookup b.subs event ≡ some set → AreDistinct set
  pub peopled : (event : String) → lookup b.subs event ≢ some []
  -- A channel that is not cancelled is in the set of its event.
  pub listed :
      (ch : ℕ) → ch < b.made → (b.chans ch).once ≡ false → IsListed b.subs (b.chans ch).event ch
  -- A channel is closed when it is cancelled, and not before.
  pub once_closed : (ch : ℕ) → (b.chans ch).once ≡ (b.chans ch).closed
  pub buffered : (ch : ℕ) → length (b.chans ch).buffer ≤ subscriber_buffer

pub watching-IsListed :
    (b : Broker) (event : String) (ch : ℕ) → In ch (watching b event) → IsListed b.subs event ch
unfolding watching
watching-IsListed b event ch m = elim (Option-cases (lookup b.subs event)) [
  | inl e ↦ absurd (rw (watching, e) at m)
  | inr (set, e) ↦ (set, e, rw (watching, e) at m)
]

pub IsListed-watching :
    (b : Broker) (event : String) (ch : ℕ) → IsListed b.subs event ch → In ch (watching b event)
unfolding watching
IsListed-watching b event ch (set, e, m) = rw (watching, e) m

pub watching-AreDistinct :
    (b : Broker) (event : String) → IsSound b → AreDistinct (watching b event)
unfolding watching
watching-AreDistinct b event h = elim (Option-cases (lookup b.subs event)) [
  | inl e ↦ rw (e, watching) tt
  | inr (set, e) ↦ rw (e, watching) (h.distinct event set e)
]
