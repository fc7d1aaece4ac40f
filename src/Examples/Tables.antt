-- ===== src/Examples/Tables.antt =====
-- Examples of the repositories, the snapshotter, the cache and the administration of polls.
use televote.Prelude.{
  ℕ, ◌≡◌, refl, Bool, true, false, List, [], ◌∷◌, Option, none, some, arith, if◌then◌else◌, ◌==◌,
  ◌≢◌, is_nil,
}
use televote.Prelude.Int.{pos}
use televote.Prelude.Text.{Text, codes}
use televote.Errors.{ok, err, version_conflict}
use televote.Domain.Poll.{Poll, opened, closed, scheduled, status_valid}
use televote.Domain.Aggregate.{Aggregate, get, has_key, merge_max}
use televote.Domain.Aggregate.Merge.{IsTally, Dominates, merge_max-join}
use televote.PollCfg.{find_slug, find_id, HotConfig, Cache, hot_config, refresh, by_slug, by_id}
use televote.PollCfg.Lookup.{AllNew, empty_snapshot, Listed, shown, Shows, refresh-lookups}
use televote.Postgres.Polls.{id_taken, Row, insert_row, row_of, transition, close_now}
use televote.Postgres.Polls.Updates.{UniqueIds}
use televote.Postgres.Polls.Locking.{one_update_wins}
use televote.Postgres.Results.{Tables, read, stats_of}
use televote.Postgres.Results.Read.{IsRows, read-view}
use televote.Snapshot.{Db, Env, Reads, tick_once, handle}
use televote.Snapshot.Results.{Ticked, tick_once-raises}
use televote.Snapshot.Moves.{Moved, handle-moves}
use televote.Examples.{poll, salt}

abbrev pub rows : List Row
rows =
    insert_row poll salt
    ∷ insert_row (record poll { id = 8; slug = codes "next"; version = 1 }) salt
    ∷ []

rows-UniqueIds : UniqueIds rows
unfolding row_of insert_row
rows-UniqueIds = (refl, (refl, tt))

opened_valid : status_valid opened ≡ true
unfolding status_valid
opened_valid = refl

closed_valid : status_valid closed ≡ true
unfolding status_valid
closed_valid = refl

one_update_wins_example :
    ((transition none 7 closed 4 rows).0 ≡ ok tt
      → let rows' = (transition none 7 closed 4 rows).1 in
        (transition none 7 opened 4 rows' ≡ (err (version_conflict ∷ []), rows'))
        × (close_now none 170 7 4 rows' ≡ (err (version_conflict ∷ []), rows')))
    × ((close_now none 170 7 4 rows).0 ≡ ok tt
        → let rows' = (close_now none 170 7 4 rows).1 in
          transition none 7 closed 4 rows' ≡ (err (version_conflict ∷ []), rows'))
one_update_wins_example =
    one_update_wins 7 4 closed opened 170 rows rows-UniqueIds closed_valid opened_valid

abbrev fresh : Aggregate
fresh = record { votes = (0, pos 5) ∷ (2, pos 1) ∷ []; ballots = pos 6 }

abbrev older : Aggregate
older = record { votes = (2, pos 3) ∷ []; ballots = pos 3 }

fresh-IsTally : IsTally fresh
unfolding get has_key
fresh-IsTally = record {
  unique = (refl, (refl, tt));
  counts = λ k. ground arith;
  total = omega arith;
}

older-IsTally : IsTally older
unfolding get has_key
older-IsTally = record { unique = (refl, tt); counts = λ k. ground arith; total = omega arith }

merge_max-join_example :
    Dominates (merge_max fresh older) fresh
    × Dominates (merge_max fresh older) older
    × ((c : Aggregate)
        → Dominates c fresh
        → Dominates c older
        → Dominates c (merge_max fresh older))
merge_max-join_example = merge_max-join fresh older fresh-IsTally older-IsTally

abbrev pub stored : Tables
stored = record {
  votes = λ p. if p == 7 then (1, pos 4) ∷ [] else [];
  ballots = λ p. if p == 7 then some (pos 4) else none;
}

stored-IsRows : IsRows (stored.votes 7)
unfolding get has_key
stored-IsRows = record {
  unique = (refl, tt);
  small = λ k e. ground arith;
  counts = λ k. ground arith;
  fits = λ k. ground arith;
}

abbrev there : ℕ → Bool
there p = p == 7

read-view_example :
    (a : Aggregate) × (read none 7 stored ≡ ok a)
    × ((k : ℕ) → get a.votes k ≡ get (stored.votes 7) k)
    × (a.ballots ≡ stats_of (stored.ballots 7))
    × IsTally a
read-view_example = read-view 7 stored stored-IsRows (omega arith)

abbrev db : Db
db = record { polls = rows; tables = stored }

poll_there : id_taken 7 rows ≡ true
unfolding id_taken insert_row
poll_there = refl

abbrev reads : Reads
reads = record { fresh = ok fresh; read_outage = none; write_outage = none }

tick_once-raises_example :
    let r = tick_once reads poll db in
    Ticked poll fresh db r.1
    × ((a : Aggregate) × (r.0 ≡ ok a)
        × ((k : ℕ) → get a.votes k ≡ get (r.1.tables.votes 7) k)
        × (a.ballots ≡ stats_of (r.1.tables.ballots 7)))
tick_once-raises_example =
    tick_once-raises fresh poll db fresh-IsTally stored-IsRows (omega arith) poll_there

abbrev after_close : Env
after_close = record {
  now = 300;
  first = reads;
  last = reads;
  lag = some (ok (pos 0));
  outage = none;
}

handle-moves_example : Moved 30 after_close poll rows (handle 30 after_close poll db).1.polls
handle-moves_example = handle-moves 30 after_close poll db

abbrev planned : Poll
planned = record poll { status = scheduled }

abbrev planned_rows : List Row
planned_rows = insert_row planned salt ∷ []

abbrev cache : Cache
cache = record { interval = 1; refresh_timeout = 1; current = none; last_refresh = 0 }

abbrev polls : List (Option Poll)
polls = some poll ∷ none ∷ []

polls-AllNew : AllNew empty_snapshot polls
unfolding AllNew find_slug find_id hot_config
polls-AllNew = (λ c h. (refl, refl), (λ c h. absurd (ground arith), tt))

refresh-lookups_example :
    let c' = (refresh (ok polls) 9 cache).1 in
    ((p : Poll)
      → Listed p polls
      → is_nil p.slug ≡ false
      → p.id ≢ 0
      → (by_slug c' p.slug ≡ some (shown p)) × (by_id c' p.id ≡ some (shown p)))
    × ((s : Text) (c : HotConfig) → by_slug c' s ≡ some c → (c.slug ≡ s) × Shows c polls)
    × ((i : ℕ) (c : HotConfig) → by_id c' i ≡ some c → (c.id ≡ i) × Shows c polls)
refresh-lookups_example = refresh-lookups cache 9 polls polls-AllNew
