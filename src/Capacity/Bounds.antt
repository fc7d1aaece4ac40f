-- ===== src/Capacity/Bounds.antt =====
-- The least that is advised for a poll.
use televote.Prelude.{ℕ, ◌≡◌, refl, Bool, true, false, arith, Bool-cases, inl, inr}
use televote.Prelude.Int.{ℤ, pos, ◌≤ℤ◌, le-max_left}
use televote.Floats.{Floats}
use televote.Domain.Poll.{Duration, is_positive}
use televote.Capacity.{Capacity, ceil_units, capacity_for}

ceil_units-pos : (floats : Floats) (load per_unit : ℕ) → pos 1 ≤ℤ ceil_units floats load per_unit
unfolding ceil_units
ceil_units-pos floats load per_unit = le-max_left (pos 1) _

-- What a capacity holds at least, given whether votes are expected.
pub record Enough (expected : Bool) (c : Capacity) : Type 0 where
  pub api : pos 2 ≤ℤ c.vote_api
  pub partitions : pos 1 ≤ℤ c.kafka_partitions
  pub fed : c.consumers ≤ℤ c.kafka_partitions
  pub counting : expected ≡ true → (pos 1 ≤ℤ c.consumers) × (pos 1 ≤ℤ c.redis_masters)
  pub asleep : expected ≡ false → (c.consumers ≡ pos 0) × (c.redis_masters ≡ pos 0)

-- However the loads come out in floating point, a capacity has two instances of the API or more and at least
-- one partition, and no consumer without a partition to read. Where votes are expected there are a consumer
-- and a master or more, and where none are there are none of either.
pub capacity_for-Enough :
    (floats : Floats) (votes : ℤ) (drain : Duration)
    → Enough (is_positive votes) (capacity_for floats votes drain)
unfolding capacity_for
capacity_for-Enough floats votes drain = elim (Bool-cases (is_positive votes)) [
  | inl some_votes ↦ rw some_votes (record {
    api = le-max_left (pos 2) _;
    partitions = ceil_units-pos floats _ _;
    fed = omega arith;
    counting = λ _. (ceil_units-pos floats _ _, ceil_units-pos floats _ _);
    asleep = λ e. absurd (cc);
  })
  | inr no_votes ↦ rw no_votes (record {
    api = omega arith;
    partitions = omega arith;
    fed = omega arith;
    counting = λ e. absurd (cc);
    asleep = λ _. (refl, refl);
  })
]
