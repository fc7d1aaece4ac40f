-- ===== src/Domain/Aggregate/Merge.antt =====
-- What merging two snapshots yields, whatever the order in which Go visits the maps.
use televote.Prelude.{
  ℕ, ◌≡◌, refl, [], ◌∷◌, if◌then◌else◌, arith, Bool-cases, inl, inr, ◌∙◌, ap, sym,
}
use televote.Prelude.Int.{
  ℤ, pos, max_ℤ, ◌≤ℤ◌, le-max_left, le-max_right, max_ℤ_comm, max_ℤ_assoc, max_ℤ_self,
}
use televote.Domain.Aggregate.{
  Counters, get, has_key, put, Aggregate, copy_into, raise_all, merge_max, UniqueKeys, get-put,
  put-UniqueKeys, get_of_missing,
}

pub get-copy_into :
    (dst src : Counters) (j : ℕ)
    → UniqueKeys src
    → get (copy_into dst src) j ≡ (if has_key src j then get src j else get dst j)
unfolding copy_into
get-copy_into dst [] j u = unfold has_key in refl
get-copy_into dst ((k, v) ∷ src) j u =
    rw (get-copy_into (put dst k v) src j u.1)
      (unfold has_key get in ground (arith, get-put dst k j v))

pub get-raise_all :
    (out prev : Counters) (j : ℕ)
    → UniqueKeys prev
    → get (raise_all out prev) j
      ≡ (if has_key prev j then max_ℤ (get out j) (get prev j) else get out j)
unfolding raise_all
get-raise_all out [] j u = unfold has_key in refl
get-raise_all out ((k, n) ∷ prev) j u =
    rw (get-raise_all (put out k (max_ℤ (get out k) n)) prev j u.1)
      (unfold has_key get in ground (arith, get-put out k j (max_ℤ (get out k) n)))

pub copy_into-UniqueKeys : (dst src : Counters) → UniqueKeys dst → UniqueKeys (copy_into dst src)
unfolding copy_into
copy_into-UniqueKeys dst [] u = u
copy_into-UniqueKeys dst ((k, v) ∷ src) u =
    copy_into-UniqueKeys (put dst k v) src (put-UniqueKeys dst k v u)

pub raise_all-UniqueKeys : (out prev : Counters) → UniqueKeys out → UniqueKeys (raise_all out prev)
unfolding raise_all
raise_all-UniqueKeys out [] u = u
raise_all-UniqueKeys out ((k, n) ∷ prev) u =
    raise_all-UniqueKeys (put out k (max_ℤ (get out k) n)) prev
      (put-UniqueKeys out k (max_ℤ (get out k) n) u)

-- A tally as the program keeps it: a map with distinct keys and no negative count.
pub record IsTally (a : Aggregate) : Type 0 where
  pub unique : UniqueKeys a.votes
  pub counts : (k : ℕ) → pos 0 ≤ℤ get a.votes k
  pub total : pos 0 ≤ℤ a.ballots

-- The count that a map reads as, entry by entry; two tallies with one view differ in order only.
pub record SameView (a b : Aggregate) : Type 0 where
  pub votes : (k : ℕ) → get a.votes k ≡ get b.votes k
  pub ballots : a.ballots ≡ b.ballots

max_zero : (x : ℤ) → pos 0 ≤ℤ x → max_ℤ x (pos 0) ≡ x
unfolding max_ℤ
max_zero x h = ground arith

get-copy : (src : Counters) (k : ℕ) → UniqueKeys src → get (copy_into [] src) k ≡ get src k
get-copy src k u = elim (Bool-cases (has_key src k)) [
  | inl e ↦ rw (get-copy_into [] src k u, e)
  | inr e ↦ rw (get-copy_into [] src k u, e) (unfold get in sym (get_of_missing src k e))
]

pub votes-merge_max :
    (a prev : Aggregate) (k : ℕ)
    → IsTally a
    → IsTally prev
    → get (merge_max a prev).votes k ≡ max_ℤ (get a.votes k) (get prev.votes k)
unfolding merge_max
votes-merge_max a prev k ha hp =
    rw (get-raise_all (copy_into [] a.votes) prev.votes k hp.unique, get-copy a.votes k ha.unique)
      (elim (Bool-cases (has_key prev.votes k)) [
        | inl e ↦ rw e
        | inr e ↦ rw (e, get_of_missing prev.votes k e) (sym (max_zero _ (ha.counts k)))
      ])

pub ballots-merge_max :
    (a prev : Aggregate) → (merge_max a prev).ballots ≡ max_ℤ a.ballots prev.ballots
unfolding merge_max
ballots-merge_max a prev = refl

nonneg-max : (x y : ℤ) → pos 0 ≤ℤ x → pos 0 ≤ℤ max_ℤ x y
unfolding max_ℤ
nonneg-max x y h = ground arith

pub merge_max-IsTally : (a prev : Aggregate) → IsTally a → IsTally prev → IsTally (merge_max a prev)
merge_max-IsTally a prev ha hp = record {
  unique =
      unfold merge_max in raise_all-UniqueKeys _ prev.votes (copy_into-UniqueKeys [] a.votes tt);
  counts = λ k. rw (votes-merge_max a prev k ha hp) (nonneg-max _ _ (ha.counts k));
  total = rw ballots-merge_max (nonneg-max _ _ ha.total);
}

-- No option and no ballot count of the one lies above the other's.
pub record Dominates (big small : Aggregate) : Type 0 where
  pub votes : (k : ℕ) → get small.votes k ≤ℤ get big.votes k
  pub ballots : small.ballots ≤ℤ big.ballots

max_least : (x y z : ℤ) → x ≤ℤ z → y ≤ℤ z → max_ℤ x y ≤ℤ z
unfolding max_ℤ
max_least x y z h k = ground arith

-- Merging a fresh reading with the previous snapshot, where neither has a negative count or an option twice,
-- gives the least tally above both: no option and no ballot count of the merge lies below either of the two,
-- and every tally that lies above both lies above the merge.
pub merge_max-join :
    (a prev : Aggregate)
    → IsTally a
    → IsTally prev
    → Dominates (merge_max a prev) a
      × Dominates (merge_max a prev) prev
      × ((c : Aggregate) → Dominates c a → Dominates c prev → Dominates c (merge_max a prev))
merge_max-join a prev ha hp = (
  record {
    votes = λ k. rw (votes-merge_max a prev k ha hp) (le-max_left _ _);
    ballots = rw ballots-merge_max (le-max_left _ _);
  },
  record {
    votes = λ k. rw (votes-merge_max a prev k ha hp) (le-max_right (get a.votes k) _);
    ballots = rw ballots-merge_max (le-max_right a.ballots _);
  },
  λ c da dp. record {
    votes = λ k. rw (votes-merge_max a prev k ha hp) (max_least _ _ _ (da.votes k) (dp.votes k));
    ballots = rw ballots-merge_max (max_least _ _ _ da.ballots dp.ballots);
  },
)

-- Snapshots may be merged in any order, grouped in any way and repeated: the merge of tallies is
-- commutative, associative and idempotent on what the maps read as.
merge_max-semilattice :
    (a b c : Aggregate)
    → IsTally a
    → IsTally b
    → IsTally c
    → SameView (merge_max a b) (merge_max b a)
      × SameView (merge_max (merge_max a b) c) (merge_max a (merge_max b c))
      × SameView (merge_max a a) a
merge_max-semilattice a b c ha hb hc = (
  record {
    votes = λ k. rw (votes-merge_max a b k ha hb, votes-merge_max b a k hb ha) (max_ℤ_comm _ _);
    ballots = rw (ballots-merge_max a b, ballots-merge_max b a) (max_ℤ_comm _ _);
  },
  record {
    votes = λ k.
        votes-merge_max _ c k (merge_max-IsTally a b ha hb) hc
        ∙ ap (λ x. max_ℤ x (get c.votes k)) (votes-merge_max a b k ha hb)
        ∙ max_ℤ_assoc _ _ _
        ∙ sym (ap (max_ℤ (get a.votes k)) (votes-merge_max b c k hb hc))
        ∙ sym (votes-merge_max a _ k ha (merge_max-IsTally b c hb hc));
    ballots = unfold merge_max in max_ℤ_assoc a.ballots b.ballots c.ballots;
  },
  record {
    votes = λ k. rw (votes-merge_max a a k ha ha) (max_ℤ_self _);
    ballots = rw ballots-merge_max (max_ℤ_self _);
  },
)
