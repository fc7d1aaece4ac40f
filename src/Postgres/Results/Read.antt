-- ===== src/Postgres/Results/Read.antt =====
-- Reading a snapshot back.
use televote.Prelude.{
  ℕ, ◌<◌, ◌%◌, ◌^◌, ◌≡◌, refl, Bool, true, false, [], ◌∷◌, none, arith, ◌==◌, ==_iff, if◌then◌else◌,
  Bool-cases, inl, inr, sym, ap, subst, ◌∙◌,
}
use televote.Prelude.Int.{ℤ, pos, pos_part, ◌≤ℤ◌, add64}
use televote.Errors.{ok}
use televote.Domain.Aggregate.{
  Counters, get, has_key, put, Aggregate, new_aggregate, add, UniqueKeys, get-put, put-UniqueKeys,
  get_of_missing,
}
use televote.Domain.Aggregate.Merge.{IsTally}
use televote.Postgres.Results.{Tables, sorted_indexes, read_votes, stats_of, read}
use televote.Postgres.Results.Upsert.{sorted_indexes-SameMap, tail_NonNegative}

add64-zero : (v : ℤ) → pos 0 ≤ℤ v → pos_part v < 2 ^ 63 → add64 (pos 0) v ≡ v
unfolding add64
add64-zero v low fits = ground arith

-- What reading rows into an aggregate gives.
record IsReading (agg : Aggregate) (rows : Counters) : Type 0 where
  out : Aggregate
  reads : read_votes agg rows ≡ ok out
  counts : (k : ℕ) → get out.votes k ≡ (if has_key rows k then get rows k else get agg.votes k)
  ballots : out.ballots ≡ agg.ballots
  unique : UniqueKeys out.votes

-- Rows as the table holds them: distinct option indices of a uint8, and counts of an int64 from zero on.
pub record IsRows (rows : Counters) : Type 0 where
  pub unique : UniqueKeys rows
  pub small : (k : ℕ) → has_key rows k ≡ true → k < 256
  pub counts : (k : ℕ) → pos 0 ≤ℤ get rows k
  pub fits : (k : ℕ) → pos_part (get rows k) < 2 ^ 63

tail_IsRows :
    (i : ℕ) (v : ℤ) (rows : Counters)
    → IsRows ((i, v) ∷ rows)
    → (i < 256) × (pos 0 ≤ℤ v) × (pos_part v < 2 ^ 63) × IsRows rows
unfolding has_key get
tail_IsRows i v rows h =
    let (low, rest) = tail_NonNegative i v rows h.unique h.counts in
    (
      ground (arith, h.small i, (==_iff i i).1),
      low,
      ground (arith, h.fits i),
      record {
        unique = h.unique.1;
        small = λ k e. ground (arith, h.small k);
        counts = rest;
        fits = λ k. elim (Bool-cases (i == k)) [
          | inl e ↦
              rw
                (get_of_missing rows k
                  (subst (λ x. has_key rows x ≡ false) ((==_iff i k).0 e) h.unique.0))
                (omega arith)
          | inr e ↦ ground (arith, h.fits k)
        ];
      },
    )

has_key-head : (i : ℕ) (v : ℤ) (m : Counters) → has_key ((i, v) ∷ m) i ≡ true
unfolding has_key
has_key-head i v m = rw ((==_iff i i).1 refl) refl

has_key-tail :
    (i : ℕ) (v : ℤ) (m : Counters) (k : ℕ) → has_key m k ≡ true → has_key ((i, v) ∷ m) k ≡ true
unfolding has_key
has_key-tail i v m k h = ground arith

add-fresh :
    (agg : Aggregate) (i : ℕ) (v : ℤ)
    → i < 256
    → get agg.votes i ≡ pos 0
    → pos 0 ≤ℤ v
    → pos_part v < 2 ^ 63
    → add agg (i % 2 ^ 8) v ≡ record agg { votes = put agg.votes i v }
unfolding add
add-fresh agg i v small zero low fits =
    ap (λ j. record agg { votes = put agg.votes j (add64 (get agg.votes j) v) }) (omega arith)
    ∙ ap (λ x. record agg { votes = put agg.votes i x })
        (ap (λ y. add64 y v) zero ∙ add64-zero v low fits)

read_votes-step :
    (agg : Aggregate) (i : ℕ) (v : ℤ) (rows : Counters)
    → i < 256
    → read_votes agg ((i, v) ∷ rows) ≡ read_votes (add agg (i % 2 ^ 8) v) rows
unfolding read_votes
read_votes-step agg i v rows small = ground arith

apart :
    (k : ℕ) (rows : Counters) (v x : ℤ) (b : Bool)
    → (b ≡ true → has_key rows k ≡ false)
    → has_key rows k ≡ true
    → x ≡ pos 0
    → (if b then v else x) ≡ pos 0
apart k rows v x true missing e zero = absurd (cc (missing refl, e))
apart k rows v x false missing e zero = zero

read-head :
    (i : ℕ) (v : ℤ) (rows : Counters) (k : ℕ) (x : ℤ)
    → has_key rows i ≡ false
    → (if has_key rows k then get rows k else (if i == k then v else x))
      ≡ (if has_key ((i, v) ∷ rows) k then get ((i, v) ∷ rows) k else x)
unfolding has_key get
read-head i v rows k x missing = elim (Bool-cases (i == k)) [
  | inl e ↦ rw (e, subst (λ j. has_key rows j ≡ false) ((==_iff i k).0 e) missing) refl
  | inr e ↦ rw e refl
]

read_votes-IsReading :
    (agg : Aggregate) (rows : Counters)
    → UniqueKeys agg.votes
    → IsRows rows
    → ((k : ℕ) → has_key rows k ≡ true → get agg.votes k ≡ pos 0)
    → IsReading agg rows
unfolding read_votes add
read_votes-IsReading agg [] u h zero = record {
  out = agg;
  reads = refl;
  counts = λ k. unfold has_key in refl;
  ballots = refl;
  unique = u;
}
read_votes-IsReading agg ((i, v) ∷ rows) u h zero =
    let (small, low, fits, rest) = tail_IsRows i v rows h in
    let here : add agg (i % 2 ^ 8) v ≡ record agg { votes = put agg.votes i v } =
      add-fresh agg i v small (zero i (has_key-head i v rows)) low fits in
    let next : IsReading (record agg { votes = put agg.votes i v }) rows =
      read_votes-IsReading (record agg { votes = put agg.votes i v }) rows
        (put-UniqueKeys agg.votes i v u) rest
        (λ k e.
          get-put agg.votes i k v
          ∙ apart k rows v (get agg.votes k) (i == k)
              (λ q. subst (λ x. has_key rows x ≡ false) ((==_iff i k).0 q) h.unique.0) e
              (zero k (has_key-tail i v rows k e))) in
    record {
      out = next.out;
      reads = read_votes-step agg i v rows small ∙ ap (λ a. read_votes a rows) here ∙ next.reads;
      counts = λ k.
          next.counts k
          ∙ ap (λ x. if has_key rows k then get rows k else x) (get-put agg.votes i k v)
          ∙ read-head i v rows k (get agg.votes k) h.unique.0;
      ballots = next.ballots;
      unique = next.unique;
    }

settle : (m : Counters) (k : ℕ) → (if has_key m k then get m k else get [] k) ≡ get m k
unfolding get
settle m k = elim (Bool-cases (has_key m k)) [
  | inl e ↦ rw e refl
  | inr e ↦ rw (e, get_of_missing m k e) refl
]

-- Reading the results of a poll succeeds, and what it reads is what the tables hold for the poll: every
-- option's count, zero where there is no row, and the ballots, zero where there is none. The answer is a
-- tally when no stored number is below zero.
pub read-view :
    (poll : ℕ) (t : Tables)
    → IsRows (t.votes poll)
    → pos 0 ≤ℤ stats_of (t.ballots poll)
    → (a : Aggregate) × (read none poll t ≡ ok a)
      × ((k : ℕ) → get a.votes k ≡ get (t.votes poll) k)
      × (a.ballots ≡ stats_of (t.ballots poll))
      × IsTally a
unfolding read new_aggregate
read-view poll t h low =
    let same = sorted_indexes-SameMap (t.votes poll) h.unique in
    let rows : IsRows (sorted_indexes (t.votes poll)) = record {
      unique = same.unique;
      small = λ k e. h.small k (sym (same.keys k) ∙ e);
      counts = λ k. rw (same.counts k) (h.counts k);
      fits = λ k. rw (same.counts k) (h.fits k);
    } in
    let r =
      read_votes-IsReading (record { votes = []; ballots = stats_of (t.ballots poll) })
        (sorted_indexes (t.votes poll)) tt rows (λ k e. unfold get in refl) in
    let counts : (k : ℕ) → get r.out.votes k ≡ get (t.votes poll) k =
      λ k. r.counts k ∙ settle (sorted_indexes (t.votes poll)) k ∙ same.counts k in
    (
      r.out,
      r.reads,
      counts,
      r.ballots,
      record {
        unique = r.unique;
        counts = λ k. rw (counts k) (h.counts k);
        total = rw r.ballots low;
      },
    )
