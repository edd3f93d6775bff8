-- ===== src/Sse/Tests.antt =====
-- Runs of the broker and instances of its theorems.
use overlap.Common.{
  In, ℕ, zero, suc, ◌<◌, ◌≡◌, refl, true, false, List, [], ◌∷◌, ◌++◌, Option, none, some, arith,
}
use overlap.Common.Maps.{lookup, insert, delete}
use overlap.Sse.{
  Message, Broker, open_channel, new_broker, watching, subscribe, remove, put_back, unlisted,
  cancel, send, publish_loop, publish, receive, subscribers, events,
}
use overlap.Sse.Sound.{IsSound}
use overlap.Sse.Subscribe.{subscribe-IsSound}
use overlap.Sse.Broadcast.{offered, publish-offered}
use overlap.Sse.Runs.{
  new_broker-IsSound, Op, op_subscribe, op_cancel, op_publish, op_receive, act, run, run-IsSound,
  run-events,
}

broker_open : ℕ
unfolding open_channel new_broker watching subscribe remove put_back unlisted cancel send
    publish_loop publish receive subscribers events act run lookup insert delete
broker_open = 0

abbrev decided : Message
decided = record { name = "decided"; data_ = "" }

-- Two watch one event and one another; the first cancels, twice, after a broadcast.
abbrev script : List Op
script =
    op_subscribe "walk"
    ∷ op_subscribe "walk"
    ∷ op_subscribe "dinner"
    ∷ op_publish "walk" decided
    ∷ op_cancel 0
    ∷ op_cancel 0
    ∷ op_publish "walk" decided
    ∷ op_receive 1
    ∷ []

abbrev all_leave : List Op
all_leave = script ++ op_cancel 2 ∷ op_cancel 1 ∷ []

abbrev watchers : Option Broker → ℕ
watchers none = 0
watchers (some b) = subscribers b "walk"

abbrev read_by : ℕ → Option Broker → List Message
read_by ch none = []
read_by ch (some b) = (b.chans ch).buffer

one_watches : watchers (run new_broker script) ≡ 1
unfolding broker_open
one_watches = refl

second_has_one : read_by 1 (run new_broker script) ≡ decided ∷ []
unfolding broker_open
second_has_one = refl

first_has_one : read_by 0 (run new_broker script) ≡ decided ∷ []
unfolding broker_open
first_has_one = refl

other_event : read_by 2 (run new_broker script) ≡ []
unfolding broker_open
other_event = refl

run-IsSound_example : (after : Broker) × (run new_broker script ≡ some after) × IsSound after
run-IsSound_example = run-IsSound script

abbrev last_broker : Option Broker → Broker
last_broker none = record {
  subs = [];
  chans = λ _. record { event = ""; once = false; closed = false; buffer = [] };
  made = 0;
}
last_broker (some b) = b

abbrev empty : Broker
empty = last_broker (run new_broker all_leave)

ends_empty : run new_broker all_leave ≡ some empty
unfolding broker_open
ends_empty = refl

everyone_left : (ch : ℕ) → ch < empty.made → (empty.chans ch).once ≡ true
unfolding broker_open
everyone_left zero lt = refl
everyone_left (suc zero) lt = refl
everyone_left (suc (suc zero)) lt = refl
everyone_left (suc (suc (suc n))) lt = absurd (omega (arith, lt))

run-events_example : events empty ≡ 0
run-events_example = run-events all_leave empty ends_empty everyone_left

abbrev one_watcher : Broker
one_watcher = (subscribe new_broker "walk").1

abbrev told : Broker
told = last_broker (publish one_watcher "walk" decided)

tells : publish one_watcher "walk" decided ≡ some told
unfolding broker_open
tells = refl

publish-offered_example :
    (In 0 (watching one_watcher "walk") → told.chans 0 ≡ offered decided (one_watcher.chans 0))
    × ((In 0 (watching one_watcher "walk") → ⊥) → told.chans 0 ≡ one_watcher.chans 0)
publish-offered_example =
    publish-offered one_watcher told "walk" decided 0
      (subscribe-IsSound new_broker "walk" new_broker-IsSound) tells
