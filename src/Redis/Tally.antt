-- ===== src/Redis/Tally.antt =====
-- internal/adapter/redis/tally.go: applying one vote. The server, xxhash and the text of a UUID are
-- parameters; times of commands are in seconds.
pub mod Ledger
pub mod Apply
pub mod Once
use televote.Prelude.{
  ℕ, ◌+◌, ◌*◌, ◌-◌, ◌/◌, ◌%◌, ◌^◌, max, min, ◌≡◌, Bool, true, false, not, ◌&&◌, ◌||◌, List, [], ◌∷◌,
  ◌++◌, map, ltb, leb, ◌==◌, if◌then◌else◌, is_nil, Option, none, some,
}
use televote.Prelude.Int.{ℤ, pos, negsuc, max_ℤ, pos_part}
use televote.Prelude.Text.{Text}
use televote.Prelude.Decimal.{format_uint}
use televote.Floats.{Floats, float_zero, float_half, float_one}
use televote.Errors.{Result, ok, err, Failure, invalid_vote, reject_if, ◌>>=◌, ◌>>◌}
use televote.Domain.Poll.{
  Duration, is_positive, second, millisecond, Sharding, sharding_valid, vote_result_valid,
}
use televote.Domain.Choices.{mark}
use televote.Domain.Voter.{VoterId}
use televote.Redis.Server.{Server}
use televote.Redis.Keys.{dedup_key, counter_key, shard_for}
use televote.Redis.Script.{vote_script}
use televote.Redis.Fault.{Fault, classify}

pub record Tally : Type 0 where
  pub ttl : ℕ
  pub jitter : ℕ
  pub cmd_timeout : ℕ

abbrev pub default_cmd_timeout : ℕ
default_cmd_timeout = 250 * millisecond

-- `NewTally`, given a client or nil. A duration above zero is kept as its nanoseconds.
unfoldable pub new_tally : Floats → Bool → Duration → ℕ → Duration → Result Tally
new_tally floats has_client ttl jitter cmd_timeout = do
  reject_if (not has_client) []
  reject_if (not (is_positive ttl)) []
  reject_if (floats.lt jitter float_zero || floats.lt float_half jitter) []
  ok (record {
    ttl = pos_part ttl;
    jitter = jitter;
    cmd_timeout = if is_positive cmd_timeout then pos_part cmd_timeout else default_cmd_timeout;
  })

-- The loop of `validateVote` over the choices.
unfoldable pub check_once : (ℕ → Bool) → List ℕ → Result (Unit {0})
check_once seen [] = ok tt
check_once seen (i ∷ rest) =
    let go_on = check_once (mark seen i) rest in if seen i then err (invalid_vote ∷ []) else go_on

unfoldable pub validate_vote : Sharding → List ℕ → Result (Unit {0})
validate_vote target choices = do
  reject_if (not (sharding_valid target)) (invalid_vote ∷ [])
  reject_if (is_nil choices) (invalid_vote ∷ [])
  check_once (λ _. false) choices

abbrev pub jitter_span : ℕ
jitter_span = 2_000_001

-- `time.Duration.Seconds`: whole seconds plus the rest over 1e9, in float64.
unfoldable pub seconds_of : Floats → ℕ → ℕ
seconds_of floats d =
    floats.add (floats.of_int (pos (d / second)))
      (floats.div (floats.of_int (pos (d % second))) (floats.of_int (pos second)))

module _ (floats : Floats) (sum64 : List ℕ → ℕ) where
  unfoldable pub jittered : Tally → VoterId → ℕ
  jittered t v =
      let base = seconds_of floats t.ttl in
      let frac =
        floats.sub
          (floats.div (floats.of_int (pos (sum64 v % jitter_span)))
            (floats.of_int (pos (jitter_span / 2))))
          float_one in
      if floats.lt float_zero t.jitter
      then floats.mul base (floats.add float_one (floats.mul t.jitter frac))
      else base

  unfoldable pub ttl_seconds_for : Tally → VoterId → ℕ
  unfolding jittered
  ttl_seconds_for t v = max 1 (pos_part (floats.trunc (jittered t v)))

-- What becomes of a command: its reply comes back, or it is run and the reply is lost, or it is never run.
pub data Link : Type 0 where
  delivered : Link
  reply_lost unsent : Fault → Link

module _ (floats : Floats) (r : Server) (sum64 : List ℕ → ℕ) (uuid_text : ℕ → Text) where
  -- The script's reply is converted to a uint8 and checked.
  abbrev pub outcome : ℕ → Result ℕ
  outcome res = let out = res % 2 ^ 8 in if vote_result_valid out then ok out else err []

  unfoldable pub deliver : Link → ℕ × r.Store → r.Store → Result ℕ × r.Store
  deliver delivered (res, s') s = (outcome res, s')
  deliver (reply_lost f) (res, s') s = (err (classify f), s')
  deliver (unsent f) (res, s') s = (err (classify f), s)

  unfoldable pub run_script : Tally → Sharding → VoterId → List ℕ → ℕ → r.Store → ℕ × r.Store
  run_script t target v choices now s =
      let shard = shard_for sum64 v target.shard_count in
      vote_script r (dedup_key uuid_text target.poll_id shard v)
        (counter_key uuid_text target.poll_id shard)
        (format_uint (ttl_seconds_for floats sum64 t v)) (map format_uint choices) now s

  unfoldable pub apply :
      Tally → Sharding → VoterId → List ℕ → Link → ℕ → r.Store → Result ℕ × r.Store
  apply t target v choices link now s = elim (validate_vote target choices) [
    | err e ↦ (err e, s)
    | ok _ ↦ deliver link (run_script t target v choices now s) s
  ]
