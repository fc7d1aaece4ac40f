-- ===== src/Lifecycle/Growing.antt =====
-- The results only grow, however the calls interleave.
use televote.Prelude.{
  ℕ, ◌≡◌, refl, Bool, true, false, [], ◌∷◌, Option, none, some, arith, if◌then◌else◌, ◌==◌, ==_iff,
  Bool-cases, inl, inr, sym, ap, subst, ◌∙◌,
}
use televote.Prelude.Int.{ℤ, pos, max_ℤ, ltb_ℤ, ◌≤ℤ◌}
use televote.Floats.{Floats}
use televote.Errors.{Result, ok, err, Failure, Result-cases, reject_if, ◌>>=◌, ◌>>◌}
use televote.Domain.Poll.{Duration}
use televote.Domain.Aggregate.{Counters, get, Aggregate, UniqueKeys}
use televote.Postgres.Polls.{id_taken}
use televote.Postgres.Results.{
  Tables, sorted_indexes, check_counts, vote_arrays, upsert_stats, write, upsert, stats_of,
}
use televote.Postgres.Results.Upsert.{NonNegative, sorted_indexes-SameMap, get-upsert_rows}
use televote.Lifecycle.{
  World, Step, reads, stores, snapshots, opens, closes, creates, History, begins, goes_on,
}

entry_low : (b : Bool) (v x : ℤ) → pos 0 ≤ℤ v → pos 0 ≤ℤ x → pos 0 ≤ℤ (if b then v else x)
entry_low true v x h low = h
entry_low false v x h low = low

-- A check that is passed before a result.
checked {ℓ} :
    {A : Type ℓ} (bad : Bool) (rest : Result A) {a : A}
    → (reject_if bad [] >> rest) ≡ ok a
    → (bad ≡ false) × (rest ≡ ok a)
checked true rest h = absurd cc
checked false rest h = (refl, h)

counted_on :
    (e : ℕ × ℤ) (done : Result Counters) {rows : Counters}
    → (done >>= λ m. ok (e ∷ m)) ≡ ok rows
    → (m : Counters) × (done ≡ ok m) × (rows ≡ e ∷ m)
counted_on e (err f) h = absurd cc
counted_on e (ok m) h = (m, refl, cc)

check_counts-NonNegative :
    (m : Counters) (rows : Counters) → check_counts m ≡ ok rows → (rows ≡ m) × NonNegative m
unfolding check_counts get
check_counts-NonNegative [] rows h = (cc, λ k. omega arith)
check_counts-NonNegative ((i, v) ∷ m) rows h =
    let (high, going) = checked (ltb_ℤ v (pos 0)) (check_counts m >>= λ x. ok ((i, v) ∷ x)) h in
    let (done, good, made) = counted_on (i, v) (check_counts m) going in
    let (same, rest) = check_counts-NonNegative m done good in
    (
      made ∙ ap (λ (x : Counters). (i, v) ∷ x) same,
      λ k. entry_low (i == k) v (get m k) (ground arith) (rest k),
    )

-- Rows that may be written.
record Written (a : Aggregate) (rows : Counters) : Type 0 where
  unique : UniqueKeys rows
  counts : NonNegative rows
  ballots : pos 0 ≤ℤ a.ballots

vote_arrays-Written :
    (a : Aggregate) (rows : Counters)
    → UniqueKeys a.votes
    → vote_arrays a ≡ ok rows
    → Written a rows
unfolding vote_arrays
vote_arrays-Written a rows u h =
    let (high, sorted) =
      checked (ltb_ℤ a.ballots (pos 0)) (check_counts (sorted_indexes a.votes)) h in
    let (same, low) = check_counts-NonNegative (sorted_indexes a.votes) rows sorted in
    record {
      unique = subst UniqueKeys (sym same) (sorted_indexes-SameMap a.votes u).unique;
      counts = subst NonNegative (sym same) low;
      ballots = ground arith;
    }

-- The results of a poll, before and after.
pub record Grown (old new : Tables) : Type 0 where
  pub votes : (j k : ℕ) → get (old.votes j) k ≤ℤ get (new.votes j) k
  pub ballots : (j : ℕ) → stats_of (old.ballots j) ≤ℤ stats_of (new.ballots j)

max_up : (x y : ℤ) → x ≤ℤ max_ℤ x y
unfolding max_ℤ
max_up x y = ground arith

stats-up : (o : Option ℤ) (n : ℤ) → pos 0 ≤ℤ n → stats_of o ≤ℤ upsert_stats o n
unfolding upsert_stats
stats-up none n h = h
stats-up (some old) n h = max_up old n

stays : (t : Tables) → Grown t t
stays t = record { votes = λ j k. omega arith; ballots = λ j. omega arith }

write-Grown :
    (outage : Option Failure) (exists : ℕ → Bool) (poll : ℕ) (a : Aggregate) (rows : Counters)
    (t : Tables)
    → Written a rows
    → ((j : ℕ) → NonNegative (t.votes j))
    → Grown t (write outage exists poll a.ballots rows t).1
unfolding write
write-Grown (some e) exists poll a rows t h low = stays t
write-Grown none exists poll a rows t h low = elim (Bool-cases (exists poll)) [
  | inr gone ↦ rw gone (stays t)
  | inl there ↦ rw there (record {
    votes = λ j k. elim (Bool-cases (poll == j)) [
      | inr other ↦ rw other (omega arith)
      | inl same ↦
          rw
            (
              same,
              sym ((==_iff poll j).0 same),
              get-upsert_rows (t.votes poll) rows k (low poll) h.unique h.counts,
            )
            (max_up _ _)
    ];
    ballots = λ j. elim (Bool-cases (poll == j)) [
      | inr other ↦ rw other (omega arith)
      | inl same ↦
          rw (same, sym ((==_iff poll j).0 same)) (stats-up (t.ballots poll) a.ballots h.ballots)
    ];
  })
]

upsert-Grown :
    (outage : Option Failure) (exists : ℕ → Bool) (poll : ℕ) (a : Aggregate) (t : Tables)
    → UniqueKeys a.votes
    → ((j : ℕ) → NonNegative (t.votes j))
    → Grown t (upsert outage exists poll a t).1
unfolding upsert
upsert-Grown outage exists poll a t u low = elim (Result-cases (vote_arrays a)) [
  | inr (e, bad) ↦ rw (bad, upsert) (stays t)
  | inl (rows, good) ↦
      rw (good, upsert)
        (write-Grown outage exists poll a rows t (vote_arrays-Written a rows u good) low)
]

module _ (grace : ℕ) (floats : Floats) (lead : Duration) where
  step-Grown :
      {v w : World}
      → Step grace floats lead v w
      → ((j : ℕ) → NonNegative (v.tables.votes j))
      → Grown v.tables w.tables
  step-Grown (stores {w} outage poll a u) low =
      upsert-Grown outage (λ id. id_taken id w.rows) poll a w.tables u low
  step-Grown (reads {w} row p e h) low = stays w.tables
  step-Grown (snapshots {w} env p tables h) low = stays w.tables
  step-Grown (opens {w} outage actor slug p h) low = stays w.tables
  step-Grown (closes {w} outage actor slug now db_now p h) low = stays w.tables
  step-Grown (creates {w} id random outage actor spec now) low = stays w.tables

  -- The stored results never fall. However many snapshotters write the results of a poll, each what it has added
  -- up and merged at some earlier time, and in whatever order their transactions come and whichever fail, no
  -- count of an option and no number of ballots of any poll is lower than before, if no count was below zero.
  pub history-grows :
      (v w : World)
      → ((j : ℕ) → NonNegative (v.tables.votes j))
      → History grace floats lead v w
      → Grown v.tables w.tables
  history-grows v _ low begins = stays v.tables
  history-grows v _ low (goes_on {v = u} {w = w} h s) =
      let before = history-grows v u low h in
      let after = step-Grown s (λ j k. omega (arith, low j k, before.votes j k)) in
      record {
        votes = λ j k. omega (arith, before.votes j k, after.votes j k);
        ballots = λ j. omega (arith, before.ballots j, after.ballots j);
      }
