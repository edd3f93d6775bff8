-- ===== src/Sse.antt =====
-- api/internal/sse/broker.go: publish and subscribe within the process. Each operation holds the
-- broker's lock, so a run is a sequence of operations.
pub mod Sound
pub mod Subscribe
pub mod Deliver
pub mod Cancel
pub mod Broadcast
pub mod Runs
mod Tests
use overlap.Common.{
  ℕ, ◌+◌, String, Bool, true, false, List, [], ◌∷◌, ◌++◌, Option, none, some, length, ltb, ◌==◌,
  if◌then◌else◌,
}
use overlap.Common.Maps.{string_key, nat_key, lookup, insert, delete, update}

pub record Message : Type 0 where
  pub name : String
  pub data_ : String

abbrev pub subscriber_buffer : ℕ
subscriber_buffer = 8

-- A channel of `Subscribe`, with what its cancel function holds: the event, and whether its
-- `sync.Once` has run.
pub record Channel : Type 0 where
  pub event : String
  pub once : Bool
  pub closed : Bool
  pub buffer : List Message

-- Channels are numbered in the order in which they are made; `subs` has the set of each event.
pub record Broker : Type 0 where
  pub subs : List (String × List ℕ)
  pub chans : ℕ → Channel
  pub made : ℕ

unfoldable pub open_channel : String → Channel
open_channel event = record { event = event; once = false; closed = false; buffer = [] }

-- `NewBroker`
unfoldable pub new_broker : Broker
unfolding open_channel
new_broker = record { subs = []; chans = λ _. open_channel ""; made = 0 }

-- `b.subs[event]`, empty where there is no entry.
unfoldable pub watching : Broker → String → List ℕ
watching b event = elim (lookup b.subs event) [ none ↦ [] | some set ↦ set ]

-- `Subscribe`: the channel, and the broker.
unfoldable pub subscribe : Broker → String → ℕ × Broker
subscribe b event = (
  b.made,
  record {
    subs = insert b.subs event (watching b event ++ b.made ∷ []);
    chans = update b.chans b.made (open_channel event);
    made = b.made + 1;
  },
)

-- `delete(set, ch)`
unfoldable pub remove : ℕ → List ℕ → List ℕ
remove ch [] = []
remove ch (x ∷ xs) = if x == ch then remove ch xs else x ∷ remove ch xs

-- The set of the event once it is without the channel, or no entry if that is empty.
unfoldable pub put_back : List (String × List ℕ) → String → List ℕ → List (String × List ℕ)
put_back subs event [] = delete subs event
put_back subs event (x ∷ xs) = insert subs event (x ∷ xs)

-- `b.subs` after `cancel`
unfoldable pub unlisted : Broker → String → ℕ → List (String × List ℕ)
unlisted b event ch = elim (lookup b.subs event) [
  | none ↦ b.subs
  | some set ↦ put_back b.subs event (remove ch set)
]

-- The `cancel` of a channel; `none` is the panic of closing a channel twice.
unfoldable pub cancel : Broker → ℕ → Option Broker
cancel b ch =
    let c = b.chans ch in
    if c.once
    then some b
    else (if c.closed
        then none
        else some (record b {
          subs = unlisted b c.event ch;
          chans = update b.chans ch (record c { once = true; closed = true });
        }))

-- The send of `Publish`; `none` is the panic of a send on a closed channel.
unfoldable pub send : Message → Channel → Option Channel
send m c =
    if c.closed
    then none
    else some (
        if ltb (length c.buffer) subscriber_buffer
        then record c { buffer = c.buffer ++ m ∷ [] }
        else c)

-- The loop of `Publish`
unfoldable pub publish_loop : Message → List ℕ → (ℕ → Channel) → Option (ℕ → Channel)
publish_loop m [] chans = some chans
publish_loop m (ch ∷ rest) chans = elim (send m (chans ch)) [
  | none ↦ none
  | some c ↦ publish_loop m rest (update chans ch c)
]

-- `Publish`
unfoldable pub publish : Broker → String → Message → Option Broker
publish b event m = elim (publish_loop m (watching b event) b.chans) [
  | none ↦ none
  | some chans ↦ some (record b { chans = chans })
]

abbrev pub rest_of : List Message → List Message
rest_of [] = []
rest_of (m ∷ ms) = ms

-- A reader takes the first message of its channel, if there is one.
unfoldable pub receive : Broker → ℕ → Broker
receive b ch =
    let c = b.chans ch in
    record b { chans = update b.chans ch (record c { buffer = rest_of c.buffer }) }

-- `Subscribers`
unfoldable pub subscribers : Broker → String → ℕ
subscribers b event = length (watching b event)

-- `Events`
unfoldable pub events : Broker → ℕ
events b = length b.subs
