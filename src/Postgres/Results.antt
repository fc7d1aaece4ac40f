-- ===== src/Postgres/Results.antt =====
-- internal/adapter/postgres/results.go. The rows of `poll_results` are grouped by their poll: option indices
-- and counts; `poll_stats` has at most one row for a poll.
pub mod Upsert
pub mod Read
use televote.Prelude.{
  ℕ, ◌%◌, ◌^◌, ◌≡◌, Bool, true, false, not, ◌&&◌, ◌||◌, List, [], ◌∷◌, Option, none, some, ltb, leb,
  ◌==◌, if◌then◌else◌,
}
use televote.Prelude.Int.{ℤ, pos, negsuc, max_ℤ, ltb_ℤ}
use televote.Errors.{Result, ok, err, Failure, not_found, reject_if, ◌>>=◌, ◌>>◌}
use televote.Domain.Aggregate.{Counters, get, has_key, put, Aggregate, new_aggregate, add}

pub record Tables : Type 0 where
  pub votes : ℕ → Counters
  pub ballots : ℕ → Option ℤ

-- `slices.Sorted(maps.Keys(votes))`, each index with its count.
unfoldable pub insert_index : ℕ × ℤ → Counters → Counters
insert_index e [] = e ∷ []
insert_index e (f ∷ m) = let rest = insert_index e m in if leb e.0 f.0 then e ∷ f ∷ m else f ∷ rest

unfoldable pub sorted_indexes : Counters → Counters
sorted_indexes [] = []
sorted_indexes (e ∷ m) = insert_index e (sorted_indexes m)

-- The loop of `voteArrays`.
unfoldable pub check_counts : Counters → Result Counters
check_counts [] = ok []
check_counts ((i, v) ∷ m) =
    let rest = check_counts m in do reject_if (ltb_ℤ v (pos 0)) []; done ← rest; ok ((i, v) ∷ done)

unfoldable pub vote_arrays : Aggregate → Result Counters
vote_arrays a = do reject_if (ltb_ℤ a.ballots (pos 0)) []; check_counts (sorted_indexes a.votes)

-- `ON CONFLICT … SET votes = GREATEST(…)`, for one row.
unfoldable pub upsert_row : Counters → ℕ → ℤ → Counters
upsert_row m i v = put m i (if has_key m i then max_ℤ (get m i) v else v)

unfoldable pub upsert_rows : Counters → Counters → Counters
upsert_rows m [] = m
upsert_rows m ((i, v) ∷ rows) = upsert_rows (upsert_row m i v) rows

unfoldable pub upsert_stats : Option ℤ → ℤ → ℤ
upsert_stats none n = n
upsert_stats (some old) n = max_ℤ old n

abbrev pub set_at {ℓ} : {A : Type ℓ} → (ℕ → A) → ℕ → A → ℕ → A
set_at f i a j = if i == j then a else f j

-- The transaction of `Upsert`: a poll that does not exist violates the foreign key, and nothing is written.
unfoldable pub write :
    Option Failure → (ℕ → Bool) → ℕ → ℤ → Counters → Tables → Result (Unit {0}) × Tables
write (some outage) exists poll ballots rows t = (err outage, t)
write none exists poll ballots rows t = if not (exists poll) then (err (not_found ∷ []), t) else (
  ok tt,
  record {
    votes = set_at t.votes poll (upsert_rows (t.votes poll) rows);
    ballots = set_at t.ballots poll (some (upsert_stats (t.ballots poll) ballots));
  },
)

unfoldable pub upsert :
    Option Failure → (ℕ → Bool) → ℕ → Aggregate → Tables → Result (Unit {0}) × Tables
upsert outage exists poll a t = elim (vote_arrays a) [
  | err e ↦ (err e, t)
  | ok rows ↦ write outage exists poll a.ballots rows t
]

-- The loop of `readVotes`; the column is a smallint.
unfoldable pub read_votes : Aggregate → Counters → Result Aggregate
read_votes agg [] = ok agg
read_votes agg ((i, v) ∷ rows) =
    let rest = read_votes (add agg (i % 2 ^ 8) v) rows in if ltb 255 i then err [] else rest

abbrev pub stats_of : Option ℤ → ℤ
stats_of none = pos 0
stats_of (some n) = n

unfoldable pub read : Option Failure → ℕ → Tables → Result Aggregate
read (some outage) poll t = err outage
read none poll t =
    read_votes (record new_aggregate { ballots = stats_of (t.ballots poll) })
      (sorted_indexes (t.votes poll))
