-- ===== src/Snapshot.antt =====
-- internal/service/snapshot/snapshotter.go, over the tables of the repositories. What the aggregator, the
-- lag reader and the database answer, and the time, are given with each call.
pub mod Results
pub mod Moves
pub mod Ticker
use televote.Prelude.{
  ℕ, ◌+◌, ◌*◌, ◌||◌, ◌≡◌, Bool, true, false, not, ◌&&◌, List, [], ◌∷◌, ◌++◌, Option, none, some,
  ltb, ◌==◌, if◌then◌else◌, is_nil,
}
use televote.Prelude.Int.{ℤ, pos, negsuc, pos_part}
use televote.Errors.{
  Result, ok, err, Failure, is, version_conflict, reject_if, map_err, ◌>>=◌, ◌>>◌,
}
use televote.Domain.Poll.{
  Time, Duration, is_positive, second, Status, opened, closed, same_status, Poll,
}
use televote.Domain.Window.{before, should_open_at}
use televote.Domain.Aggregate.{Aggregate, merge_max}
use televote.Postgres.Polls.{Row, id_taken, transition, list_active}
use televote.Postgres.Results.{Tables, upsert, read}

pub record Db : Type 0 where
  pub polls : List Row
  pub tables : Tables

-- `New`, given for each dependency whether it is there; the result is the grace in force.
unfoldable pub new_snapshotter : Bool → Bool → Bool → Duration → Result ℕ
new_snapshotter agg results polls grace = do
  reject_if (not agg) []
  reject_if (not results) []
  reject_if (not polls) []
  ok (if is_positive grace then pos_part grace else 30 * second)

-- What one `TickOnce` meets: the aggregator's answer, and failures of the reading and of the writing.
pub record Reads : Type 0 where
  pub fresh : Result Aggregate
  pub read_outage : Option Failure
  pub write_outage : Option Failure

-- The writing of a merged snapshot.
unfoldable pub store_merged : Reads → Poll → Aggregate → Db → Result Aggregate × Db
store_merged io p merged db =
    let (res, tables) = upsert io.write_outage (λ id. id_taken id db.polls) p.id merged db.tables in
    (res >>= (λ _. ok merged), record db { tables = tables })

unfoldable pub tick_once : Reads → Poll → Db → Result Aggregate × Db
tick_once io p db = elim io.fresh [
  | err e ↦ (err e, db)
  | ok fresh ↦ elim (read io.read_outage p.id db.tables) [
    | err e ↦ (err e, db)
    | ok prev ↦ store_merged io p (merge_max fresh prev) db
  ]
]

-- What one `handle` meets: the time, its two ticks, the lag reader's answer or no reader, and a failure
-- of the change of status.
pub record Env : Type 0 where
  pub now : Time
  pub first : Reads
  pub last : Reads
  pub lag : Option (Result ℤ)
  pub outage : Option Failure

-- `switch err := s.polls.Transition(…)`: a version conflict is another instance's work, and no error.
abbrev settled : Result (Unit {0}) → Result (Unit {0})
settled (ok _) = ok tt
settled (err e) = if is e version_conflict then ok tt else err e

unfoldable pub move : Option Failure → Status → Poll → Db → Result (Unit {0}) × Db
move outage to p db =
    let (res, rows) = transition outage p.id to p.version db.polls in
    (settled res, record db { polls = rows })

unfoldable pub drained : Option (Result ℤ) → Result Bool
drained none = ok true
drained (some (err e)) = err e
drained (some (ok (pos n))) = ok (n == 0)
drained (some (ok (negsuc n))) = ok false

unfoldable pub finalize_after : Env → Poll → Result Aggregate × Db → Result (Unit {0}) × Db
finalize_after env p (err e, db) = (err e, db)
finalize_after env p (ok a, db) = move env.outage closed p db

unfoldable pub finalize : Env → Poll → Db → Result (Unit {0}) × Db
finalize env p db = finalize_after env p (tick_once env.last p db)

-- From the test of the grace on.
unfoldable pub close_when_drained : ℕ → Env → Poll → Db → Result (Unit {0}) × Db
close_when_drained grace env p db =
    if before env.now (p.closes_at + grace) then (ok tt, db) else elim (drained env.lag) [
      | err e ↦ (err e, db)
      | ok d ↦ if not d then (ok tt, db) else finalize env p db
    ]

unfoldable pub handle_open : ℕ → Env → Poll → Result Aggregate × Db → Result (Unit {0}) × Db
handle_open grace env p (err e, db) = (err e, db)
handle_open grace env p (ok a, db) = close_when_drained grace env p db

unfoldable pub handle : ℕ → Env → Poll → Db → Result (Unit {0}) × Db
handle grace env p db =
    if should_open_at p env.now
    then move env.outage opened p db
    else if not (same_status p.status opened)
    then (ok tt, db)
    else handle_open grace env p (tick_once env.first p db)

abbrev failure_of : Result (Unit {0}) → Failure
failure_of (ok _) = []
failure_of (err e) = e

abbrev failed : Result (Unit {0}) → Bool
failed (ok _) = false
failed (err e) = true

-- `errors.Join`, which is nil when no error is given: whether one was, and what they hold.
abbrev pub Errors : Type 0
Errors = Bool × Failure

-- The loop of `Tick`.
unfoldable pub handle_all : ℕ → (Poll → Env) → List Poll → Errors → Db → Errors × Db
handle_all grace envs [] errs db = (errs, db)
handle_all grace envs (p ∷ polls) (any, errs) db =
    let step = handle grace (envs p) p db in
    handle_all grace envs polls (any || failed step.0, errs ++ failure_of step.0) step.1

unfoldable pub tick : ℕ → Option Failure → (Poll → Env) → Db → Result (Unit {0}) × Db
tick grace outage envs db = elim (list_active outage db.polls) [
  | err e ↦ (err e, db)
  | ok polls ↦
      let out = handle_all grace envs polls (false, []) db in
      ((if out.0.0 then err out.0.1 else ok tt), out.1)
]
