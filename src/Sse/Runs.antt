-- ===== src/Sse/Runs.antt =====
-- Runs of the broker of api/internal/sse/broker.go: any operations, in any order.
use mathlib.Core.Option.{some-injective}
use overlap.Common.{
  ℕ, ◌<◌, ◌≡◌, ◌≢◌, refl, sym, subst, ◌∙◌, String, true, false, List, [], ◌∷◌, Option, none, some,
  length, inl, arith,
}
use overlap.Common.Maps.{string_key, lookup, beq_self}
use overlap.Sse.{
  Message, Broker, open_channel, new_broker, subscribe, cancel, publish, receive, events,
}
use overlap.Sse.Sound.{IsSound}
use overlap.Sse.Subscribe.{subscribe-IsSound}
use overlap.Sse.Deliver.{publish-IsSound, receive-IsSound}
use overlap.Sse.Cancel.{cancel-IsSound}

-- What handlers and clients do to a broker. A cancel function may be called any number of times.
pub data Op : Type 0 where
  op_subscribe : String → Op
  op_cancel : ℕ → Op
  op_publish : String → Message → Op
  op_receive : ℕ → Op

-- `none` is a panic.
unfoldable pub act : Broker → Op → Option Broker
act b (op_subscribe event) = some (subscribe b event).1
act b (op_cancel ch) = cancel b ch
act b (op_publish event m) = publish b event m
act b (op_receive ch) = some (receive b ch)

unfoldable pub run : Broker → List Op → Option Broker
run b [] = some b
run b (op ∷ ops) = elim (act b op) [ none ↦ none | some after ↦ run after ops ]

act-IsSound :
    (b : Broker) (op : Op) → IsSound b → (after : Broker) × (act b op ≡ some after) × IsSound after
unfolding act
act-IsSound b (op_subscribe event) h = ((subscribe b event).1, refl, subscribe-IsSound b event h)
act-IsSound b (op_cancel ch) h = cancel-IsSound b ch h
act-IsSound b (op_publish event m) h = publish-IsSound b event m h
act-IsSound b (op_receive ch) h = (receive b ch, refl, receive-IsSound b ch h)

steps-IsSound :
    (b : Broker) (ops : List Op)
    → IsSound b
    → (after : Broker) × (run b ops ≡ some after) × IsSound after
unfolding run
steps-IsSound b [] h = (b, refl, h)
steps-IsSound b (op ∷ ops) h =
    let (next, one, sound) = act-IsSound b op h in
    let (after, rest, end) = steps-IsSound next ops sound in (after, rw (one, run) rest, end)

pub new_broker-IsSound : IsSound new_broker
unfolding new_broker open_channel lookup
new_broker-IsSound = record {
  live = λ e ch (set, p, m). absurd (cc);
  distinct = λ e set p. absurd (cc);
  peopled = λ e p. absurd (cc);
  listed = λ ch lt on. absurd (omega (arith, lt));
  once_closed = λ ch. refl;
  buffered = λ ch. omega arith;
}

-- No run panics: whatever subscribes, cancels (of any channel, any number of times), publishes and
-- reads follow each other from a new broker, no send meets a closed channel and no channel is
-- closed twice; and the broker at the end is sound: the sets hold open channels of their event and
-- every channel that is not cancelled, none is empty or has a channel twice, a channel is closed when it is cancelled and
-- not before, and no buffer is over its size.
pub run-IsSound :
    (ops : List Op) → (after : Broker) × (run new_broker ops ≡ some after) × IsSound after
run-IsSound ops = steps-IsSound new_broker ops new_broker-IsSound

no_entry :
    (subs : List (String × List ℕ))
    → ((e : String) (set : List ℕ) → lookup subs e ≢ some set)
    → length subs ≡ 0
unfolding lookup
no_entry [] h = refl
no_entry ((e, set) ∷ rest) h = absurd (h e set (rw (beq_self e) refl))

-- A channel of a set is not cancelled.
no_member :
    (b : Broker) (event : String) (set : List ℕ)
    → IsSound b
    → ((ch : ℕ) → ch < b.made → (b.chans ch).once ≡ true)
    → lookup b.subs event ≢ some set
no_member b event [] h done p = h.peopled event p
no_member b event (ch ∷ rest) h done p =
    let r = h.live event ch (ch ∷ rest, p, inl refl) in
    let bad : true ≡ false = sym (done ch r.0) ∙ r.1.not_once in absurd (cc)

-- Nothing leaks: where every channel that a run has made was cancelled, the broker keeps no entry
-- for any event.
pub run-events :
    (ops : List Op) (b : Broker)
    → run new_broker ops ≡ some b
    → ((ch : ℕ) → ch < b.made → (b.chans ch).once ≡ true)
    → events b ≡ 0
unfolding events
run-events ops b e done =
    let (after, ran, sound) = run-IsSound ops in
    let h : IsSound b = subst IsSound (some-injective _ _ (sym ran ∙ e)) sound in
    no_entry b.subs (λ event set. no_member b event set h done)
