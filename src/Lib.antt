-- ===== src/Lib.antt =====
-- Overlap, the HTTP service of api/: an organizer offers a window of slots, people answer, and the
-- service ranks the slots and says when the outcome is settled. This library models the pure core
-- of the service and the state that its concurrent parts keep.
--
-- Parts and files:
--   Solver.antt, Solver/: api/internal/solver/solver.go. Score is `ScoreSlot`; the loop over the
--     participants is `tally`, with its variables in the record `Tally`. Rank is
--     `RankWithHistory`. Dominance is `Analyze`, with `boundAll` (bound_all), `winnersFrom`
--     (winners_from) and `relevantNonResponders` (relevant_among).
--   Store.antt, Store/: the row types of api/internal/store/participants.go. Store/Tables.antt has the
--     tables and the group statements of api/internal/dbgen, each a step that may fail and then
--     changes nothing, with the unique indexes and checks of api/migrations; `transaction` undoes a
--     step that fails. Store/Queries.antt and Store/Groups.antt are the statements and the operations
--     of api/internal/store/groups.go over them, and Groups/Slugs the slugs of slug.go.
--   Tz.antt: api/internal/tz/tz.go, with its memo of loaded zones as explicit state.
--   Results.antt, Results/: api/internal/results/results.go, which reads the rows of Store, resolves
--     zones by Tz and makes the input of Solver.
--   Slots.antt, Slots/: api/internal/slots/slots.go. `Expand` is `expand`, its loops day_loop and
--     band_loop, their variables the record `Scan`. Resolve, Kept, Schedule, Fuel and Complete hold
--     the proofs.
--   Dayparts.antt, Dayparts/: api/internal/dayparts/dayparts.go, where slots are filed under a
--     person's days and day parts, and coarse answers become answers for slots.
--   Icsparse.antt, Icsparse/: api/internal/icsparse. Lines unfolds a feed and reads its properties,
--     Moments reads dates, times and durations, Recur expands a rule of rrule.go inside a window, and
--     Feed puts them together as `Parse`; Icsparse.antt has the intervals that Parse coalesces.
--   Ics.antt, Ics/: api/internal/ics/ics.go, the file of a decided event; Reparsed reads it back by
--     Icsparse.
--   Fetchguard.antt, Fetchguard/: api/internal/fetchguard/fetchguard.go. `Get` is `get`, which also
--     returns the addresses it dials; `CheckRedirect` and the client's loop are `send`.
--   Proposal.antt, Proposal/: api/internal/proposal/proposal.go, over those intervals.
--   Solve.antt, Solve/: api/internal/server/solve.go, which runs Slots, Results and Solver in turn
--     on an event's rows and says where the poll stands, and checks what the organizer decides.
--   Server.antt, Server/: the bodies of requests in api/internal/server/events.go and responses.go.
--     Events is `toNewEvent`; Answers is `toNewParticipant`, `buildResponses`, which lays answers on the
--     grid of Dayparts, and `mergeCalendarRows`.
--   Ratelimit.antt, Ratelimit/: api/internal/ratelimit/ratelimit.go. A call takes the clock's
--     reading as an argument and returns the new limiter; calls hold one lock, so a run is a
--     sequence of calls.
--   ProposalCache.antt, ProposalCache/: api/internal/server/proposalcache.go, which keeps the results
--     of Proposal. A call takes its readings of the clock, in order, and the outcome of the
--     identical call in flight that the single-flight group makes it join, if there is one.
--   Sse.antt, Sse/: the broker of api/internal/sse/broker.go. Channels are numbered, and the cancel
--     function of a channel is `cancel` at its number. Each operation holds the broker's lock, so
--     Sse/Runs.antt takes a run to be a sequence of operations, with a panic as `none`.
--   Common.antt, Common/: lists, maps, sorting, text and numbers that the parts share. Text is a list
--     of code points where the code walks it, and String where it only compares.
--   Time.antt, Time/: instants, durations, wall clocks, and the Gregorian calendar.
--
-- Numbers. `float64` is a type with the class `Float`; theorems that depend on arithmetic take the
-- laws of rounded arithmetic (`IsRounded`) and hold of every type that has them. Common/Fixed.antt
-- is one such type, decimal fixed-point numbers, on which the runs evaluate. Instants are
-- nanoseconds from 1970 on (Time/Nanos.antt has `UnixNano`), so that a date before 1970 in a feed
-- has no reading; where a duration, a rule or `UnixNano` wraps at 64 bits, so does the model, but
-- for the map `seen` of `Expand`, which is keyed by the instant. Counts and hours are natural
-- numbers. A UUID is a number, and a malformed one none.
--
-- A loop over a list is a recursion on it. The two loops of `Expand`, over dates and over the
-- minutes of a day, run on fuel: a turn for each day of the window, and one for each minute of the
-- band, whose slots have a minute at least; Slots/Fuel.antt has the proof that it is enough.
-- The expansion of a rule has the 2000 steps of the code, a fetch the redirects of MaxRedirects, and
-- the creation of a group the five attempts of slugAttempts.
-- `sort.Slice`, `sort.SliceStable` and `sort.Strings` are a stable insertion sort; the two that may
-- not be stable sort values that are equal where the order does not tell them apart.
--
-- Parameters: the zone database, a location's offsets, what a single-flight group hands over, the
-- parsers of URLs and addresses, the resolver and the servers that a fetch meets, and for the tables
-- which statement fails, the ids and random bytes that are handed out, the clock and the digest of a
-- token.
-- Not modelled: the statements of events, responses and calendars and the operations on them, the
-- HTTP handlers around the parts, sockets, the wire encodings of JSON and event streams, and the web
-- client; of the pure code, the habit of a group (`AffinityFromDecisions`) and the address of a client.
pub mod Common
pub mod Time
pub mod Solver
pub mod Tz
pub mod Store
pub mod Results
pub mod Icsparse
pub mod Proposal
pub mod Ratelimit
pub mod Dayparts
pub mod Fetchguard
pub mod Ics
pub mod ProposalCache
pub mod Server
pub mod Slots
pub mod Solve
pub mod Sse
