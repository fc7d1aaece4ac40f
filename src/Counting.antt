-- ===== src/Counting.antt =====
-- internal/service/counting/counting.go: counting one vote taken from the queue. The circuit breaker, the
-- clock and the context are arguments: each turn of a loop is given with what they do at it. A loop that
-- has used up its turns without an answer is still running, which is `none`.
pub mod Retry
pub mod Await
pub mod Count
pub mod Stream
use televote.Prelude.{
  ℕ, ◌+◌, ◌*◌, ◌-◌, ◌≡◌, Bool, true, false, not, ◌&&◌, ◌||◌, List, [], ◌∷◌, ◌++◌, Option, none,
  some, ltb, leb, if◌then◌else◌,
}
use televote.Prelude.Int.{ℤ, pos, pos_part}
use televote.Prelude.Text.{Text}
use televote.Floats.{Floats, float_zero, float_half, float_one}
use televote.Errors.{
  Result, ok, err, Failure, is, Sentinel, not_found, poll_closed, invalid_vote, store_unavailable,
  breaker_open, too_many_requests, reject_if, ◌>>=◌, ◌>>◌,
}
use televote.Domain.Poll.{Time, Duration, is_positive, second, millisecond, VoteMessage, Sharding}
use televote.Domain.Window.{contains, before}
use televote.Domain.Voter.{VoterId, parse_voter_id}
use televote.PollCfg.{HotConfig, config_sharding}
use televote.Redis.Server.{Server}
use televote.Redis.Tally.{Tally, Link, apply}

abbrev pub initial_apply_backoff : ℕ
initial_apply_backoff = 20 * millisecond

abbrev pub max_apply_backoff : ℕ
max_apply_backoff = 2 * second

abbrev pub lookup_poll_interval : ℕ
lookup_poll_interval = 250 * millisecond

abbrev pub breaker_min_requests : ℕ
breaker_min_requests = 20

pub record Config : Type 0 where
  pub retry_budget : Duration
  pub lookup_budget : Duration
  pub error_ratio : ℕ
  pub breaker_window : Duration

abbrev pub positive_or : Duration → ℕ → Duration
positive_or d n = if is_positive d then d else pos n

-- `New`, given for each dependency whether it is there; the result is the configuration in force.
unfoldable pub new_counting : Floats → Bool → Bool → Bool → Bool → Config → Result Config
new_counting floats applier lookup obs log cfg = do
  reject_if (not applier) []
  reject_if (not lookup) []
  reject_if (not obs) []
  reject_if (not log) []
  ok (record {
    retry_budget = positive_or cfg.retry_budget (30 * second);
    lookup_budget = positive_or cfg.lookup_budget (10 * second);
    error_ratio =
        if floats.le cfg.error_ratio float_zero || floats.lt float_one cfg.error_ratio
        then float_half
        else cfg.error_ratio;
    breaker_window = positive_or cfg.breaker_window (5 * second);
  })

-- `ReadyToTrip`.
unfoldable pub ready_to_trip : Floats → Config → ℕ → ℕ → Bool
ready_to_trip floats cfg requests failures =
    leb breaker_min_requests requests
    && floats.le cfg.error_ratio
        (floats.div (floats.of_int (pos failures)) (floats.of_int (pos requests)))

-- One turn of the loop of `awaitConfig`: the time at its test, whether the context is done before the
-- wait is over, and what the lookup then finds.
pub record Poke : Type 0 where
  pub at : Time
  pub cancelled : Bool
  pub found : Option HotConfig

unfoldable pub await_loop : Time → List Poke → Option (Option HotConfig)
await_loop deadline [] = none
await_loop deadline (p ∷ pokes) =
    let go_on = await_loop deadline pokes in
    if not (before p.at deadline)
    then some none
    else if p.cancelled
    then some none
    else elim p.found [ some cfg ↦ some (some cfg) | none ↦ go_on ]

unfoldable pub await_config : Option HotConfig → Time → List Poke → Option (Option HotConfig)
await_config (some cfg) deadline pokes = some (some cfg)
await_config none deadline pokes = await_loop deadline pokes

unfoldable pub retryable : Failure → Bool
retryable e = is e store_unavailable || is e breaker_open || is e too_many_requests

-- One turn of the loop of `applyWithRetry`: whether the breaker refuses the call and with which error,
-- what becomes of the command and when it is run, and the context's error when it is done before the
-- wait is over.
pub record Turn : Type 0 where
  pub gate : Option Sentinel
  pub link : Link
  pub at : ℕ
  pub cancelled : Option Failure

unfoldable pub grow : ℕ → ℕ
grow backoff = if ltb backoff max_apply_backoff then backoff * 2 else backoff

-- Where `applyWithRetry` is after some turns: what it returned, if it did, the store, and its waits.
pub record Progress (S : Type 0) : Type 0 where
  pub outcome : Option (Result ℕ)
  pub store : S
  pub waits : List ℕ

-- What the observer is told; `apply_seconds` is the time that the retry loop took, whose length is not modelled.
pub data Event : Type 0 where
  vote_counted : ℕ → Event
  apply_seconds : Event
  unknown_poll out_of_window bad_voter_id apply_failed : Event

module _ (floats : Floats) (r : Server) (sum64 : List ℕ → ℕ) (uuid_text : ℕ → Text)
    (t : Tally) where
  -- `breaker.Execute`.
  unfoldable pub execute : Sharding → VoterId → List ℕ → Turn → r.Store → Result ℕ × r.Store
  execute target v choices turn s = elim turn.gate [
    | some refusal ↦ (err (refusal ∷ []), s)
    | none ↦ apply floats r sum64 uuid_text t target v choices turn.link turn.at s
  ]

  -- After the call of a turn, given what the further turns would do.
  unfoldable pub proceed :
      Option Failure → ℕ → Result ℕ × r.Store → Progress r.Store → Progress r.Store
  proceed cancelled backoff (ok res, s) more = record {
    outcome = some (ok res);
    store = s;
    waits = [];
  }
  proceed cancelled backoff (err e, s) more =
      if not (retryable e)
      then record { outcome = some (err e); store = s; waits = [] }
      else elim cancelled [
        | some c ↦ record { outcome = some (err c); store = s; waits = backoff ∷ [] }
        | none ↦ record more { waits = backoff ∷ more.waits }
      ]

  unfoldable pub retry : Sharding → VoterId → List ℕ → ℕ → List Turn → r.Store → Progress r.Store
  retry target v choices backoff [] s = record { outcome = none; store = s; waits = [] }
  retry target v choices backoff (turn ∷ turns) s =
      let step = execute target v choices turn s in
      proceed turn.cancelled backoff step (retry target v choices (grow backoff) turns step.1)

  unfoldable pub apply_with_retry :
      HotConfig → VoterId → List ℕ → List Turn → r.Store → Progress r.Store
  apply_with_retry cfg v choices turns s =
      retry (config_sharding cfg) v choices initial_apply_backoff turns s

  -- What `Count` returns and tells the observer, and the store after it.
  pub record Counted : Type 0 where
    pub outcome : Option (Result ℕ)
    pub events : List Event
    pub store : r.Store

  abbrev pub refuse : Failure → Event → r.Store → Counted
  refuse e event s = record { outcome = some (err e); events = event ∷ []; store = s }

  unfoldable pub finish : Progress r.Store → Counted
  finish p = elim p.outcome [
    | none ↦ record { outcome = none; events = []; store = p.store }
    | some res ↦ elim res [
      | err e ↦ record {
        outcome = some (err e);
        events = apply_seconds ∷ apply_failed ∷ [];
        store = p.store;
      }
      | ok n ↦ record {
        outcome = some (ok n);
        events = apply_seconds ∷ vote_counted n ∷ [];
        store = p.store;
      }
    ]
  ]

  -- `Count`, once the configuration is there.
  unfoldable pub count_for : HotConfig → VoteMessage → List Turn → r.Store → Counted
  count_for cfg msg turns s =
      if not (contains cfg.window msg.produced_at)
      then refuse (poll_closed ∷ []) out_of_window s
      else elim (parse_voter_id msg.voter_id) [
        | err e ↦ refuse (invalid_vote ∷ e) bad_voter_id s
        | ok v ↦ finish (apply_with_retry cfg v msg.choices turns s)
      ]

  unfoldable pub count_awaited :
      Option (Option HotConfig) → VoteMessage → List Turn → r.Store → Counted
  count_awaited none msg turns s = record { outcome = none; events = []; store = s }
  count_awaited (some none) msg turns s = refuse (not_found ∷ []) unknown_poll s
  count_awaited (some (some cfg)) msg turns s = count_for cfg msg turns s

  unfoldable pub count :
      (ℕ → Option HotConfig) → Time → List Poke → VoteMessage → List Turn → r.Store → Counted
  unfolding await_config count_awaited
  count lookup deadline pokes msg turns s =
      count_awaited (await_config (lookup msg.poll_id) deadline pokes) msg turns s
