-- ===== src/Domain/Aggregate.antt =====
-- internal/domain/aggregate.go. The map from option indices to int64 counters is an association list
-- with at most one entry for a key; a missing key reads as 0, and the order of the list, which stands
-- for Go's iteration order, is arbitrary.
pub mod Merge
use televote.Prelude.{
  ℕ, ◌≡◌, refl, Bool, true, false, ◌||◌, List, [], ◌∷◌, ◌==◌, if◌then◌else◌, Option, none, some,
  All, ◌≢◌, arith, not, ==_iff,
}
use televote.Prelude.Int.{ℤ, pos, negsuc, max_ℤ, add64}

abbrev pub Counters : Type 0
Counters = List (ℕ × ℤ)

-- `m[k]`.
unfoldable pub get : Counters → ℕ → ℤ
get [] k = pos 0
get ((j, v) ∷ m) k = if j == k then v else get m k

unfoldable pub has_key : Counters → ℕ → Bool
has_key [] k = false
has_key ((j, v) ∷ m) k = j == k || has_key m k

-- `m[k] = v`.
unfoldable pub put : Counters → ℕ → ℤ → Counters
put [] k v = (k, v) ∷ []
put ((j, w) ∷ m) k v = if j == k then (j, v) ∷ m else (j, w) ∷ put m k v

pub record Aggregate : Type 0 where
  pub votes : Counters
  pub ballots : ℤ

unfoldable pub new_aggregate : Aggregate
new_aggregate = record { votes = []; ballots = pos 0 }

-- `maps.Copy(dst, src)`.
unfoldable pub copy_into : Counters → Counters → Counters
copy_into dst [] = dst
copy_into dst ((k, v) ∷ src) = copy_into (put dst k v) src

unfoldable pub new_aggregate_from : Counters → ℤ → Aggregate
new_aggregate_from votes ballots = record { votes = copy_into [] votes; ballots = ballots }

unfoldable pub add : Aggregate → ℕ → ℤ → Aggregate
add a idx n = record a { votes = put a.votes idx (add64 (get a.votes idx) n) }

-- `for idx, n := range prev.Votes { out.Votes[idx] = max(out.Votes[idx], n) }`.
unfoldable pub raise_all : Counters → Counters → Counters
raise_all out [] = out
raise_all out ((k, n) ∷ prev) = raise_all (put out k (max_ℤ (get out k) n)) prev

unfoldable pub merge_max : Aggregate → Aggregate → Aggregate
merge_max a prev = record {
  votes = raise_all (copy_into [] a.votes) prev.votes;
  ballots = max_ℤ a.ballots prev.ballots;
}

-- The keys of a Go map are distinct.
abbrev pub UniqueKeys : Counters → Type 0
UniqueKeys [] = Unit
UniqueKeys ((k, v) ∷ m) = (has_key m k ≡ false) × UniqueKeys m

pub get-put : (m : Counters) (k j : ℕ) (v : ℤ) → get (put m k v) j ≡ (if k == j then v else get m j)
unfolding get put
get-put [] k j v = refl
get-put ((i, w) ∷ m) k j v = ground (arith, get-put m k j v)

pub has_key-put : (m : Counters) (k j : ℕ) (v : ℤ) → has_key (put m k v) j ≡ (k == j || has_key m j)
unfolding has_key put
has_key-put [] k j v = refl
has_key-put ((i, w) ∷ m) k j v = ground (arith, has_key-put m k j v)

pub put-UniqueKeys : (m : Counters) (k : ℕ) (v : ℤ) → UniqueKeys m → UniqueKeys (put m k v)
unfolding has_key put
put-UniqueKeys [] k v u = (refl, tt)
put-UniqueKeys ((i, w) ∷ m) k v u = ground (arith, put-UniqueKeys m k v u.1, has_key-put m k i v)

pub get_of_missing : (m : Counters) (k : ℕ) → has_key m k ≡ false → get m k ≡ pos 0
unfolding get has_key
get_of_missing [] k h = refl
get_of_missing ((i, w) ∷ m) k h = ground (arith, get_of_missing m k)
