-- ===== src/Lifecycle.antt =====
-- The table of polls while snapshotters and admins work on it at the same time: internal/service/snapshot and
-- internal/service/polls read a poll, and change it later by one statement of internal/adapter/postgres.
-- Between the two any other call may change it.
pub mod Calls
pub mod Rows
pub mod Forward
pub mod Growing
use televote.Prelude.{ℕ, ◌≡◌, List, [], ◌∷◌, Option, some, ◌⊎◌}
use televote.Prelude.Text.{Text}
use televote.Floats.{Floats}
use televote.Errors.{ok, Failure}
use televote.Domain.Poll.{Time, Duration, Poll}
use televote.Domain.Aggregate.{Aggregate, UniqueKeys}
use televote.Domain.Create.{PollSpec}
use televote.Postgres.Polls.{Row, row_of, id_taken, scan_poll}
use televote.Postgres.Results.{Tables, upsert}
use televote.Snapshot.{Env, handle}
use televote.PollService.{open_found, close_found, create_poll}

-- The rows, the results, and the polls that some call has read and may act on.
pub record World : Type 0 where
  pub rows : List Row
  pub tables : Tables
  pub held : List Poll

abbrev pub Held : Poll → List Poll → Type 0
Held p [] = ⊥
Held p (q ∷ held) = (q ≡ p) ⊎ Held p held

-- One step of one of the calls.
pub data Step (grace : ℕ) (floats : Floats) (lead : Duration) : World → World → Type 0 where
  reads :
      {w : World} (row : Row) (p : Poll)
      → row_of row.id w.rows ≡ some row
      → scan_poll row ≡ ok p
      → Step grace floats lead w (record w { held = p ∷ w.held })
  -- The writing of a snapshot, whatever was added up and merged before; a Go map has a key once.
  stores :
      {w : World} (outage : Option Failure) (poll : ℕ) (a : Aggregate)
      → UniqueKeys a.votes
      → Step grace floats lead w
          (record w { tables = (upsert outage (λ id. id_taken id w.rows) poll a w.tables).1 })
  -- A pass over a poll, less what it writes to the results.
  snapshots :
      {w : World} (env : Env) (p : Poll) (tables : Tables)
      → Held p w.held
      → Step grace floats lead w (record w {
        rows = (handle grace env p (record { polls = w.rows; tables = tables })).1.polls;
      })
  opens :
      {w : World} (outage : Option Failure) (actor slug : Text) (p : Poll)
      → Held p w.held
      → Step grace floats lead w (record w { rows = (open_found outage actor slug p w.rows).rows })
  closes :
      {w : World} (outage : Option Failure) (actor slug : Text) (now db_now : Time) (p : Poll)
      → Held p w.held
      → Step grace floats lead w
          (record w { rows = (close_found outage actor slug now db_now p w.rows).rows })
  creates :
      {w : World} (id : ℕ) (random : Option (List ℕ)) (outage : Option Failure) (actor : Text)
      (spec : PollSpec) (now : Time)
      → Step grace floats lead w (record w {
        rows = (create_poll floats id random lead outage actor spec now w.rows).rows;
      })

pub data History (grace : ℕ) (floats : Floats) (lead : Duration) (start : World)
    : World → Type 0 where
  begins : History grace floats lead start start
  goes_on :
      {v w : World}
      → History grace floats lead start v
      → Step grace floats lead v w
      → History grace floats lead start w
