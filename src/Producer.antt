-- ===== src/Producer.antt =====
-- internal/adapter/producer/producer.go: putting a vote on the queue. The Kafka client is a parameter: whether it can be
-- made, and what becomes of a record with its topic and key. Encoding a message never fails.
use televote.Prelude.{ℕ, ◌*◌, List, [], Option, none, some, if◌then◌else◌, is_nil}
use televote.Prelude.Int.{pos_part}
use televote.Prelude.Text.{Text}
use televote.Errors.{Result, ok, err, Failure, reject_if, ◌>>◌}
use televote.Domain.Poll.{Time, Duration, is_positive, is_zero, millisecond, second, VoteMessage}

pub record Config : Type 0 where
  pub brokers : List Text
  pub topic : Text
  pub linger : Duration
  pub produce_timeout : Duration

abbrev pub default_linger : ℕ
default_linger = 5 * millisecond

abbrev pub default_produce_timeout : ℕ
default_produce_timeout = 2 * second

pub record Producer : Type 0 where
  pub topic : Text
  pub linger : ℕ
  pub timeout : ℕ

-- `New`, given the error with which the client cannot be made; the two errors of the package itself are no
-- sentinels of the domain.
unfoldable pub new_producer : Option Failure → Config → Result Producer
new_producer client cfg = do
  reject_if (is_nil cfg.brokers) []
  reject_if (is_nil cfg.topic) []
  let made : Result (Unit {0}) = elim client [ none ↦ ok tt | some e ↦ err e ]
  made
  ok (record {
    topic = cfg.topic;
    linger = if is_positive cfg.linger then pos_part cfg.linger else default_linger;
    timeout =
        if is_positive cfg.produce_timeout
        then pos_part cfg.produce_timeout
        else default_produce_timeout;
  })

-- The stamp of a message that has none.
unfoldable pub stamp : Time → VoteMessage → VoteMessage
stamp now m = if is_zero m.produced_at then record m { produced_at = now } else m

-- `Send`: the record's key is the voter's id.
unfoldable pub send :
    (Text → Text → VoteMessage → Option Failure) → Producer → Time → VoteMessage → Option Failure
unfolding stamp
send produce p now m = produce p.topic m.voter_id (stamp now m)
