-- ===== src/Snapshot/Results.antt =====
-- What a tick makes of the stored results.
use televote.Prelude.{ℕ, ◌≡◌, ◌≢◌, refl, true, none, arith, sym, ap, ◌∙◌}
use televote.Prelude.Int.{ℤ, pos, max_ℤ, ◌≤ℤ◌, max_ℤ_comm}
use televote.Errors.{ok, ◌>>=◌}
use televote.Domain.Poll.{Poll}
use televote.Domain.Aggregate.{Aggregate, get, merge_max}
use televote.Domain.Aggregate.Merge.{IsTally, votes-merge_max, ballots-merge_max, merge_max-IsTally}
use televote.Postgres.Polls.{id_taken}
use televote.Postgres.Results.{stats_of}
use televote.Postgres.Results.Upsert.{upsert-raises, Raised}
use televote.Postgres.Results.Read.{IsRows, read-view}
use televote.Snapshot.{Db, store_merged, tick_once}

-- Taking the larger of a number and something that is larger already.
absorb : (x y : ℤ) → max_ℤ x (max_ℤ y x) ≡ max_ℤ x y
unfolding max_ℤ
absorb x y = ground arith

-- A tick's outcome: the results of the poll are raised to the counters that were read.
pub record Ticked (p : Poll) (fresh : Aggregate) (db db' : Db) : Type 0 where
  pub polls : db'.polls ≡ db.polls
  pub votes :
      (k : ℕ)
      → get (db'.tables.votes p.id) k ≡ max_ℤ (get (db.tables.votes p.id) k) (get fresh.votes k)
  pub ballots :
      stats_of (db'.tables.ballots p.id) ≡ max_ℤ (stats_of (db.tables.ballots p.id)) fresh.ballots
  pub others :
      (j : ℕ)
      → j ≢ p.id
      → (db'.tables.votes j ≡ db.tables.votes j) × (db'.tables.ballots j ≡ db.tables.ballots j)

store_merged-Raised :
    (fresh : Aggregate) (p : Poll) (merged : Aggregate) (db : Db)
    → IsTally merged
    → IsRows (db.tables.votes p.id)
    → id_taken p.id db.polls ≡ true
    → let r =
        store_merged
          (record { fresh = ok fresh; read_outage = none; write_outage = none })
          p
          merged
          db in
      (r.0 ≡ ok merged) × (r.1.polls ≡ db.polls) × Raised p.id merged db.tables r.1.tables
unfolding store_merged
store_merged-Raised fresh p merged db h rows there =
    let (done, raised) =
      (upsert-raises none (λ id. id_taken id db.polls) p.id merged db.tables rows.counts).0 h
        there in
    (ap (λ r. r >>= (λ _. ok merged)) done, refl, raised)

-- A tick that the aggregator and the database answer succeeds: it raises each count of the poll and its
-- ballots to the larger of what is stored and what was read from the shards, returns just that, and leaves
-- the polls and the results of other polls as they are.
pub tick_once-raises :
    (fresh : Aggregate) (p : Poll) (db : Db)
    → IsTally fresh
    → IsRows (db.tables.votes p.id)
    → pos 0 ≤ℤ stats_of (db.tables.ballots p.id)
    → id_taken p.id db.polls ≡ true
    → let r =
        tick_once (record { fresh = ok fresh; read_outage = none; write_outage = none }) p db in
      Ticked p fresh db r.1
      × ((a : Aggregate) × (r.0 ≡ ok a)
          × ((k : ℕ) → get a.votes k ≡ get (r.1.tables.votes p.id) k)
          × (a.ballots ≡ stats_of (r.1.tables.ballots p.id)))
unfolding tick_once
tick_once-raises fresh p db h rows low there =
    let (prev, answer, counts, ballots, tally) = read-view p.id db.tables rows low in
    let merged = merge_max fresh prev in
    let (done, polls, raised) =
      store_merged-Raised fresh p (merge_max fresh prev) db (merge_max-IsTally fresh prev h tally)
        rows there in
    let votes : (k : ℕ)
        → get merged.votes k ≡ max_ℤ (get fresh.votes k) (get (db.tables.votes p.id) k) =
      λ k. votes-merge_max fresh prev k h tally ∙ ap (max_ℤ (get fresh.votes k)) (counts k) in
    let total : merged.ballots ≡ max_ℤ fresh.ballots (stats_of (db.tables.ballots p.id)) =
      ballots-merge_max fresh prev ∙ ap (max_ℤ fresh.ballots) ballots in
    rw (answer, tick_once)
      (
        record {
          polls = polls;
          votes = λ k.
              raised.votes k ∙ ap (max_ℤ (get (db.tables.votes p.id) k)) (votes k) ∙ absorb _ _;
          ballots =
              raised.ballots ∙ ap (max_ℤ (stats_of (db.tables.ballots p.id))) total ∙ absorb _ _;
          others = raised.others;
        },
        (
          merge_max fresh prev,
          done,
          λ k.
              votes k
              ∙ max_ℤ_comm _ _
              ∙ sym (absorb _ _)
              ∙ ap (max_ℤ (get (db.tables.votes p.id) k)) (sym (votes k))
              ∙ sym (raised.votes k),
          total
              ∙ max_ℤ_comm _ _
              ∙ sym (absorb _ _)
              ∙ ap (max_ℤ (stats_of (db.tables.ballots p.id))) (sym total)
              ∙ sym raised.ballots,
        ),
      )
