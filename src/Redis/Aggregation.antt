-- ===== src/Redis/Aggregation.antt =====
-- internal/adapter/redis/tally.go: reading the counters of all shards of a poll into one aggregate.
pub mod Sums
pub mod Shards
use televote.Prelude.{
  ℕ, zero, suc, ◌+◌, ◌*◌, ◌^◌, min, Bool, true, false, not, List, [], ◌∷◌, if◌then◌else◌, Option,
  none, some,
}
use televote.Prelude.Int.{ℤ, add64}
use televote.Prelude.Text.{Text, text_eq}
use televote.Prelude.Decimal.{parse_uint, parse_int}
use televote.Errors.{Result, ok, err, Failure, invalid_vote, reject_if, ◌>>=◌, ◌>>◌}
use televote.Domain.Poll.{second, millisecond, Sharding, sharding_valid}
use televote.Domain.Aggregate.{Aggregate, new_aggregate, add}
use televote.Redis.Server.{Server}
use televote.Redis.Keys.{ballots_field, counter_key}
use televote.Redis.Fault.{Fault, classify}
use televote.Redis.Tally.{Tally}

abbrev pub aggregate_shard_cost : ℕ
aggregate_shard_cost = millisecond

abbrev pub max_aggregate_wait : ℕ
max_aggregate_wait = 30 * second

unfoldable pub aggregate_timeout : Tally → ℕ → ℕ
aggregate_timeout t shard_count =
    min max_aggregate_wait (t.cmd_timeout + shard_count * aggregate_shard_cost)

-- One field of a counter: the ballots, or an option index that fits a uint8.
unfoldable pub merge_counter : Aggregate → Text → Text → Result Aggregate
merge_counter out field raw = elim (parse_int raw) [
  | none ↦ err []
  | some n ↦
      if text_eq field ballots_field
      then ok (record out { ballots = add64 out.ballots n })
      else elim (parse_uint (2 ^ 8) field) [ none ↦ err [] | some idx ↦ ok (add out idx n) ]
]

-- The loop of `mergeCounters`.
unfoldable pub merge_counters : Aggregate → List (Text × Text) → Result Aggregate
merge_counters out [] = ok out
merge_counters out ((field, raw) ∷ fields) = do
  next ← merge_counter out field raw
  merge_counters next fields

-- What `DoMulti` returns for one HGETALL.
pub data Reading : Type 0 where
  answered nil : Reading
  failed : Fault → Reading

module _ (r : Server) (uuid_text : ℕ → Text) where
  unfoldable pub read_shard : Reading → Aggregate → ℕ → ℕ → ℕ → r.Store → Result Aggregate
  read_shard answered out poll_id shard now s =
      merge_counters out (r.hgetall (counter_key uuid_text poll_id shard) now s)
  read_shard nil out poll_id shard now s = ok out
  read_shard (failed f) out poll_id shard now s = err (classify f)

  -- The loop over the responses: `rounds` shards from `shard` on.
  unfoldable pub read_shards :
      (ℕ → Reading) → Aggregate → ℕ → ℕ → ℕ → ℕ → r.Store → Result Aggregate
  read_shards replies out poll_id zero shard now s = ok out
  read_shards replies out poll_id (suc rounds) shard now s = do
    next ← read_shard (replies shard) out poll_id shard now s
    read_shards replies next poll_id rounds (suc shard) now s

  unfoldable pub aggregate : Sharding → (ℕ → Reading) → ℕ → r.Store → Result Aggregate
  aggregate target replies now s = do
    reject_if (not (sharding_valid target)) (invalid_vote ∷ [])
    read_shards replies new_aggregate target.poll_id target.shard_count 0 now s
