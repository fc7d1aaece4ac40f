-- ===== src/PollService.antt =====
-- internal/service/polls/polls.go: the administration of polls, over the rows of the repository. What the
-- auditor is told is the list of its records, in order; whether it could write them is only logged.
pub mod Outcomes
pub mod Audited
use televote.Prelude.{
  ℕ, ◌≡◌, Bool, true, false, not, ◌&&◌, ◌||◌, List, [], ◌∷◌, Option, none, some, if◌then◌else◌,
}
use televote.Prelude.Text.{Text, codes}
use televote.Floats.{Floats}
use televote.Errors.{Result, ok, err, Failure, bad_transition, reject_if, ◌>>=◌, ◌>>◌}
use televote.Domain.Poll.{
  Time, Duration, Status, opened, closed, archived, same_status, can_transition_to, Poll,
}
use televote.Domain.Window.{window, is_open_at}
use televote.Domain.Aggregate.{Aggregate}
use televote.Domain.Create.{PollSpec, new_poll}
use televote.Postgres.Polls.{Row, create, get_by_slug, transition, close_now}
use televote.Postgres.Results.{Tables, read}

pub record Audit : Type 0 where
  pub actor : Text
  pub action : Text
  pub entity : Text

-- What a call returns, and the rows and the audit records after it.
pub record Answer : Type 0 where
  pub result : Result Poll
  pub rows : List Row
  pub audited : List Audit

-- Failures of the database in the call's reading and in its writing.
pub record Outages : Type 0 where
  pub reading : Option Failure
  pub writing : Option Failure

-- `New`, given for each dependency whether it is there.
unfoldable pub new_polls : Bool → Bool → Bool → Bool → Bool → Result (Unit {0})
new_polls store results audit now log = do
  reject_if (not store) []
  reject_if (not results) []
  reject_if (not audit) []
  reject_if (not now) []
  reject_if (not log) []
  ok tt

abbrev pub refuse : Failure → List Row → Answer
refuse e rows = record { result = err e; rows = rows; audited = [] }

abbrev pub done : Result Poll × List Row → Audit → Answer
done (err e, rows) a = refuse e rows
done (ok p, rows) a = record { result = ok p; rows = rows; audited = a ∷ [] }

-- `Create`; `uuid.New` and the random source are given.
unfoldable pub create_poll :
    Floats
    → ℕ
    → Option (List ℕ)
    → Duration
    → Option Failure
    → Text
    → PollSpec
    → Time
    → List Row
    → Answer
create_poll floats id random lead outage actor spec now rows =
    elim (new_poll floats id spec now lead) [
      | err e ↦ refuse e rows
      | ok p ↦
          done (create outage random p rows)
            (record { actor = actor; action = codes "create_poll"; entity = p.slug })
    ]

-- After the update: what the poll is then, given to the caller.
abbrev pub updated : Result (Unit {0}) × List Row → Poll → Audit → Answer
updated (err e, rows) p a = refuse e rows
updated (ok _, rows) p a = record { result = ok p; rows = rows; audited = a ∷ [] }

-- `Open`, once the poll is read.
unfoldable pub open_found : Option Failure → Text → Text → Poll → List Row → Answer
open_found outage actor slug p rows =
    if not (can_transition_to p.status opened)
    then refuse (bad_transition ∷ []) rows
    else updated (transition outage p.id opened p.version rows) (record p { status = opened })
        (record { actor = actor; action = codes "open_poll"; entity = slug })

unfoldable pub open_poll : Outages → Text → Text → List Row → Answer
open_poll io actor slug rows = elim (get_by_slug io.reading slug rows) [
  | err e ↦ refuse e rows
  | ok p ↦ open_found io.writing actor slug p rows
]

-- `Close`, once the poll is read: `now` is the service's clock, `db_now` the database's.
unfoldable pub close_found : Option Failure → Text → Text → Time → Time → Poll → List Row → Answer
close_found outage actor slug now db_now p rows =
    if not (same_status p.status opened) || not (is_open_at (window p) now)
    then refuse (bad_transition ∷ []) rows
    else updated (close_now outage db_now p.id p.version rows) (record p { closes_at = now })
        (record { actor = actor; action = codes "close_poll"; entity = slug })

unfoldable pub close_poll : Outages → Text → Text → Time → Time → List Row → Answer
close_poll io actor slug now db_now rows = elim (get_by_slug io.reading slug rows) [
  | err e ↦ refuse e rows
  | ok p ↦ close_found io.writing actor slug now db_now p rows
]

pub record Outcome : Type 0 where
  pub poll : Poll
  pub aggregate : Aggregate
  pub final : Bool

-- `Results`.
unfoldable pub results : Outages → Text → List Row → Tables → Result Outcome
results io slug rows t = do
  p ← get_by_slug io.reading slug rows
  a ← read io.writing p.id t
  ok (record {
    poll = p;
    aggregate = a;
    final = same_status p.status closed || same_status p.status archived;
  })
