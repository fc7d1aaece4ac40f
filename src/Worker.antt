-- ===== src/Worker.antt =====
-- internal/worker/kafka/consumer.go: the consumer of the queue. A batch of records is handled by goroutines, of
-- which no more run at once than there are slots; a schedule says which of them moves next. Between two
-- calls to the store a goroutine is a `Job`. The decoding of a record's JSON is an argument.
pub mod Loop
pub mod Slots
pub mod Ends
pub mod Alone
pub mod Jobs
pub mod Trail
pub mod Sound
pub mod Once
pub mod Final
pub mod Commit
pub mod Fetch
use televote.Prelude.{
  ℕ, zero, suc, ◌+◌, ◌≡◌, ◌⊎◌, Bool, true, false, not, ◌&&◌, List, [], ◌∷◌, ◌++◌, map, Option, none,
  some, ltb, if◌then◌else◌, length, is_nil, get_elem?, take, drop,
}
use televote.Prelude.Int.{pos_part, ℤ}
use televote.Prelude.Text.{Text}
use televote.Floats.{Floats}
use televote.Errors.{
  Result, ok, err, Failure, not_found, poll_closed, invalid_vote, reject_if, ◌>>=◌, ◌>>◌,
}
use televote.Domain.Poll.{Time, VoteMessage, is_positive}
use televote.Domain.Window.{contains}
use televote.Domain.Voter.{VoterId, parse_voter_id}
use televote.PollCfg.{HotConfig, config_sharding}
use televote.Redis.Server.{Server}
use televote.Redis.Tally.{Tally}
use televote.Counting.{Poke, Turn, await_config, initial_apply_backoff, retryable, grow, execute}

abbrev pub default_workers : ℕ
default_workers = 64

-- `NewConsumer`, given for each dependency whether it is there; the result is the number of slots.
unfoldable pub new_consumer : Bool → Bool → Bool → Bool → ℤ → Result ℕ
new_consumer client counting obs log workers = do
  reject_if (not client) []
  reject_if (not counting) []
  reject_if (not obs) []
  reject_if (not log) []
  ok (if is_positive workers then pos_part workers else default_workers)

-- A record, by what `json.Unmarshal` makes of its value: a message, or an error.
abbrev pub Entry : Type 0
Entry = Option VoteMessage

-- Where a call of `handle` is: at its start, where it waits for the poll's configuration too, or in the retry
-- loop of `Count` with its next backoff.
pub data Job : Type 0 where
  fresh : Entry → Job
  retrying : HotConfig → VoterId → VoteMessage → ℕ → Job

-- How `handle` ends: it rejects the record as malformed, or `Count` returned.
pub data End : Type 0 where
  malformed : End
  returned : VoteMessage → Result ℕ → End

pub data Next : Type 0 where
  runs : Job → Next
  ends : End → Next

-- `Count`, up to the retry loop, given the answer of `awaitConfig`.
unfoldable pub begin : VoteMessage → Option (Option HotConfig) → Next
begin msg none = runs (fresh (some msg))
begin msg (some none) = ends (returned msg (err (not_found ∷ [])))
begin msg (some (some cfg)) =
    if not (contains cfg.window msg.produced_at)
    then ends (returned msg (err (poll_closed ∷ [])))
    else elim (parse_voter_id msg.voter_id) [
      | err e ↦ ends (returned msg (err (invalid_vote ∷ e)))
      | ok v ↦ runs (retrying cfg v msg initial_apply_backoff)
    ]

-- The retry loop after a call, given the context's error when it is done before the wait is over.
unfoldable pub again : HotConfig → VoterId → VoteMessage → ℕ → Option Failure → Result ℕ → Next
again cfg v msg backoff cancelled (ok n) = ends (returned msg (ok n))
again cfg v msg backoff cancelled (err e) =
    if not (retryable e) then ends (returned msg (err e)) else elim cancelled [
      | some c ↦ ends (returned msg (err c))
      | none ↦ runs (retrying cfg v msg (grow backoff))
    ]

-- What a job does next: `awaitConfig`, with what its first lookup finds, its deadline and its turns; or a
-- turn of the retry loop.
pub data Act : Type 0 where
  look : Option HotConfig → Time → List Poke → Act
  call : Turn → Act

-- A context that is not done interrupts no wait.
unfoldable pub under : Bool → Act → Act
under true a = a
under false (look found deadline pokes) =
    look found deadline (map (λ (p : Poke). record p { cancelled = false }) pokes)
under false (call turn) = call (record turn { cancelled = none })

pub data Event : Type 0 where
  launch skip cancel : Event
  act : ℕ → Act → Event

-- `handleBatch`: the records that `EachRecord` has not reached, those in a goroutine, how the others ended,
-- those that were left out, and whether the context is done.
pub record Batch (S : Type 0) : Type 0 where
  pub pending : List Entry
  pub running : List Job
  pub ended : List End
  pub skipped : List Entry
  pub cancelled : Bool
  pub store : S

-- The jobs after the one at a place has moved. A job that ends frees its slot.
unfoldable pub settle : ℕ → Next → List Job → List Job
settle i next [] = []
settle zero (runs j) (_ ∷ jobs) = j ∷ jobs
settle zero (ends e) (_ ∷ jobs) = jobs
settle (suc i) next (job ∷ jobs) = job ∷ settle i next jobs

abbrev pub ended_by : Next → List End → List End
ended_by (runs j) es = es
ended_by (ends e) es = e ∷ es

unfoldable pub launch_in : {S : Type 0} → ℕ → List Entry → Batch S → Batch S
launch_in workers [] b = b
launch_in workers (x ∷ xs) b =
    if ltb (length b.running) workers
    then record b { pending = xs; running = fresh x ∷ b.running }
    else b

unfoldable pub skip_in : {S : Type 0} → List Entry → Batch S → Batch S
skip_in [] b = b
skip_in (x ∷ xs) b = if b.cancelled then record b { pending = xs; skipped = x ∷ b.skipped } else b

-- Before `EachRecord`.
unfoldable pub batch_of : {S : Type 0} → List Entry → Bool → S → Batch S
batch_of records cancelled s = record {
  pending = records;
  running = [];
  ended = [];
  skipped = [];
  cancelled = cancelled;
  store = s;
}

-- `wg.Wait` returns.
abbrev pub drained : {S : Type 0} → Batch S → Bool
drained b = is_nil b.pending && is_nil b.running

module _ (floats : Floats) (r : Server) (sum64 : List ℕ → ℕ) (uuid_text : ℕ → Text)
    (t : Tally) where
  unfoldable pub move : Act → Job → r.Store → Next × r.Store
  move (look found deadline pokes) (fresh none) s = (ends malformed, s)
  move (look found deadline pokes) (fresh (some msg)) s =
      (begin msg (await_config found deadline pokes), s)
  move (call turn) (retrying cfg v msg backoff) s =
      let (res, s') =
        execute floats r sum64 uuid_text t (config_sharding cfg) v msg.choices turn s in
      (again cfg v msg backoff turn.cancelled res, s')
  move (look found deadline pokes) (retrying cfg v msg backoff) s =
      (runs (retrying cfg v msg backoff), s)
  move (call turn) (fresh x) s = (runs (fresh x), s)

  unfoldable pub moved : ℕ → Act → Option Job → Batch r.Store → Batch r.Store
  moved i a none b = b
  moved i a (some job) b =
      let (next, s) = move (under b.cancelled a) job b.store in
      record b { running = settle i next b.running; ended = ended_by next b.ended; store = s }

  -- One step of a batch; an event that cannot happen changes nothing.
  unfoldable pub step : ℕ → Event → Batch r.Store → Batch r.Store
  step workers launch b = launch_in workers b.pending b
  step workers skip b = skip_in b.pending b
  step workers cancel b = record b { cancelled = true }
  step workers (act i a) b = moved i a (get_elem? b.running i) b

  unfoldable pub run : ℕ → List Event → Batch r.Store → Batch r.Store
  run workers [] b = b
  run workers (e ∷ es) b = run workers es (step workers e b)
