-- ===== src/Redis/Script.antt =====
-- internal/adapter/redis/vote.lua, which Redis runs as one step.
pub mod Effect
use televote.Prelude.{ℕ, Bool, true, false, List, [], ◌∷◌, if◌then◌else◌}
use televote.Prelude.Text.{Text}
use televote.Redis.Server.{Server}
use televote.Redis.Keys.{ballots_field}

module _ (r : Server) where
  -- `for i = 2, #ARGV do redis.call('HINCRBY', KEYS[2], ARGV[i], 1) end`.
  unfoldable pub incr_all : Text → List Text → ℕ → r.Store → r.Store
  incr_all key [] now s = s
  incr_all key (f ∷ fields) now s = incr_all key fields now (r.hincrby key f now s)

  -- What follows the SET, by whether it set the key.
  unfoldable pub after_set : Text → Text → List Text → ℕ → Bool × r.Store → ℕ × r.Store
  unfolding incr_all
  after_set counter ttl fields now (false, s) = (2, s)
  after_set counter ttl fields now (true, s) = (
    1,
    r.expire counter ttl now (r.hincrby counter ballots_field now (incr_all counter fields now s)),
  )

  -- KEYS are the dedup key and the counter; ARGV is the time to live and the fields.
  unfoldable pub vote_script : Text → Text → Text → List Text → ℕ → r.Store → ℕ × r.Store
  unfolding after_set
  vote_script dedup counter ttl fields now s =
      after_set counter ttl fields now (r.set_nx_ex dedup ttl now s)
