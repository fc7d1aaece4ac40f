-- ===== src/Lib.antt =====
-- A model of televote, a service that takes the votes of a live broadcast: what a vote must be, how it is
-- accepted, counted once, added up and published, and how polls are administered.
--
-- The parts and how they meet. A vote comes in over HTTP (internal/transport/httpapi), is checked against the
-- poll's configuration in memory (internal/service/pollcfg) and handed to Kafka by
-- internal/service/voting. The consumer (internal/worker/kafka) fetches it in a batch, whose records are
-- handled at the same time, and takes it to internal/service/counting, which retries
-- internal/adapter/redis until the vote script has run: the script sets the voter's dedup key and
-- raises the counters of one shard. internal/service/snapshot adds the shards up, merges them into the
-- results in Postgres (internal/adapter/postgres), and opens and closes polls by their times.
-- internal/service/polls and internal/service/auth are for the admins; internal/domain has the rules that
-- all of them share, and internal/platform/config the rules of a configuration.
--
-- The files:
--   Prelude                the shared names, the integers, decimal numbers, and text as code points
--   Errors                 internal/domain/errors.go; an error is the sentinels that errors.Is finds
--   Floats                 float64 as bit patterns, with the arithmetic of the machine as a parameter
--   Domain/Poll            poll.go, fsm.go, sharding.go, vote_message.go, vote_result.go, admin.go
--   Domain/Choices         validate.go, ChoiceRules.Validate: check_count and check_each are its two parts
--   Domain/Window          validate.go, the window of a poll
--   Domain/Aggregate       aggregate.go, with a Go map as an association list
--   Domain/Voter           voter.go: hex, parse_voter_id, derive_voter_id
--   Domain/Create          create.go: check_spec is PollSpec.validate, new_poll is NewPoll
--   Redis/Server           the commands of the server, as an interface with laws, and one in memory
--   Redis/Keys, Script     keys.go and vote.lua
--   Redis/Fault, Tally     tally.go: classify, and Apply with commands and replies that are lost
--   Redis/Aggregation      tally.go: Aggregate
--   PollCfg                internal/service/pollcfg/cache.go
--   Voting                 internal/service/voting/voting.go: accept is Accept
--   Counting               internal/service/counting/counting.go: count, await_config, retry
--   Worker                 internal/worker/kafka/consumer.go: a batch (Batch, step, run), in which a
--                          goroutine is a Job; Worker/Loop: the loop of Run (consume, consume_all)
--   Producer               internal/adapter/producer/producer.go: new_producer, send
--   Pipeline               accept, send and the steps of a goroutine, composed
--   Postgres/Polls         polls.go: create, get_by_slug, transition, close_now over a list of rows
--   Postgres/Results       results.go: upsert and read
--   Postgres/Admins        admins.go, and bootstrapAdmin of internal/platform/app/wire.go
--   Snapshot               internal/service/snapshot/snapshotter.go: tick, handle, tick_once, finalize
--   Snapshot/Ticker        internal/worker/snapshot/ticker.go
--   Lag                    kafkaLag of internal/platform/app/wire.go
--   PollService            internal/service/polls/polls.go
--   Lifecycle              the calls of snapshotters and admins on one table of polls, as steps that interleave
--   Auth                   internal/service/auth/auth.go, and requireRole of httpapi/admin.go
--   Capacity               internal/domain/capacity.go and internal/service/capacity/advisor.go
--   Http                   httpapi/errors.go, and castVote of httpapi/public.go
--   Http/Admin             httpapi/admin.go: handle is AdminRoutes of router.go, with its middleware
--   Http/Public            the handlers of httpapi/public.go and capacity.go that read
--   ClientIp               internal/platform/httpx/clientip.go
--   Health                 internal/platform/health/health.go, and probes and serve of app/lifecycle.go
--   Config                 internal/platform/config/config.go: the rules, one by one
--   Examples               the theorems at concrete inputs
--
-- How state is modelled. The store of Redis, the tables of Postgres and the cache are values that a call
-- takes and returns. What the code calls in other packages is an argument: Redis, HMAC, xxhash, the text
-- of a UUID, JWT, argon2, the circuit breaker, the clock. Effects on a sink, an observer or an auditor
-- are lists of events. Fixed-width integers keep their wrap-around; instants are nanoseconds since
-- Go's zero time, those in a row of Postgres are cut to whole microseconds, those in a token to whole seconds,
-- and the times of Redis are seconds.
--
-- The goroutines of a batch are a list of jobs, and a list of events, an argument, says which is started, left out
-- or moves next, and when the context is done. Between two calls of the
-- store a job has no effect on another. The Kafka client is an interface, a record of a state with
-- operations whose documented behaviour is a record of laws.
--
-- The calls that change polls read them first and write later, under the version they read: Lifecycle has each
-- reading and each statement as a step of its own, in any order. What is read may be of any earlier moment.
--
-- Loops. Each loop over data is recursion on the data. The two loops that wait, in await_config and retry,
-- take the list of their turns, each with what the clock, the context and the lookup or the breaker do in
-- it, and answer none while no turn has ended them; the loop of the consumer takes the list of its rounds.
-- No fuel is used elsewhere than in the printing of numbers, where as many steps are given as the number
-- has units.
--
-- Not modelled: log lines, traces and metrics, the texts of errors, the Kafka, Redis and Postgres clients, the
-- encoding and decoding of JSON, the wiring of the three commands but for what the list above names, the
-- middleware with its rate limits, and the pages.
pub mod Prelude
pub mod Errors
pub mod Floats
pub mod Domain
pub mod Redis
pub mod PollCfg
pub mod Voting
pub mod Counting
pub mod Postgres
pub mod Snapshot
pub mod Auth
pub mod Http
pub mod Worker
pub mod Lifecycle
pub mod Pipeline
pub mod Lag
pub mod Capacity
pub mod ClientIp
pub mod Health
pub mod Producer
pub mod Config
pub mod PollService
pub mod Examples
