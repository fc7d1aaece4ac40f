-- ===== src/Redis/Keys.antt =====
-- internal/adapter/redis/keys.go. The text of a UUID and xxhash are parameters.
pub mod Slots
use televote.Prelude.{ℕ, ◌%◌, ◌^◌, ◌≡◌, Bool, List, [], ◌∷◌, ◌++◌, ◌==◌, if◌then◌else◌}
use televote.Prelude.Text.{Text, codes}
use televote.Prelude.Decimal.{format_uint}
use televote.Domain.Voter.{VoterId, hex}

abbrev pub dedup_prefix : Text
dedup_prefix = codes "v:"

abbrev pub counter_prefix : Text
counter_prefix = codes "c:"

abbrev pub ballots_field : Text
ballots_field = codes "b"

module _ (uuid_text : ℕ → Text) where
  unfoldable pub hash_tag : ℕ → ℕ → Text
  hash_tag poll_id shard = codes "p:" ++ (uuid_text poll_id ++ (codes ":s" ++ format_uint shard))

  unfoldable pub dedup_key : ℕ → ℕ → VoterId → Text
  dedup_key poll_id shard v =
      dedup_prefix ++ (codes "{" ++ (hash_tag poll_id shard ++ (codes "}:" ++ hex v)))

  unfoldable pub counter_key : ℕ → ℕ → Text
  counter_key poll_id shard = counter_prefix ++ (codes "{" ++ (hash_tag poll_id shard ++ codes "}"))

module _ (sum64 : List ℕ → ℕ) where
  unfoldable pub shard_for : VoterId → ℕ → ℕ
  shard_for v shard_count = if shard_count == 0 then 0 else (sum64 v % shard_count) % 2 ^ 16
