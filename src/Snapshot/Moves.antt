-- ===== src/Snapshot/Moves.antt =====
-- Which polls a pass of the snapshotter opens and closes.
use televote.Prelude.{
  ℕ, ◌+◌, ◌≤◌, ◌≡◌, refl, true, false, List, Option, none, some, arith, ◌⊎◌, inl, inr, Bool-cases,
  ap, subst,
}
use televote.Prelude.Int.{ℤ, pos}
use televote.Errors.{Result, ok, err, Result-cases}
use televote.Domain.Poll.{Poll, Status, opened, closed, same_status}
use televote.Domain.Window.{before, should_open_at}
use televote.Domain.Aggregate.{Aggregate}
use televote.Postgres.Polls.{Row, transition}
use televote.Snapshot.{
  Db, Reads, Env, store_merged, tick_once, move, drained, finalize, finalize_after,
  close_when_drained, handle_open, handle,
}

store_merged-polls :
    (io : Reads) (p : Poll) (merged : Aggregate) (db : Db)
    → (store_merged io p merged db).1.polls ≡ db.polls
unfolding store_merged
store_merged-polls io p merged db = refl

tick_once-polls : (io : Reads) (p : Poll) (db : Db) → (tick_once io p db).1.polls ≡ db.polls
unfolding tick_once store_merged
tick_once-polls io p db = ground arith

-- Nothing is left to be counted, as far as is known.
abbrev pub Drained : Option (Result ℤ) → Type 0
Drained lag = (lag ≡ none) ⊎ (lag ≡ some (ok (pos 0)))

-- How a pass may change the rows of the polls.
pub data Moved (grace : ℕ) (env : Env) (p : Poll) (old new : List Row) : Type 0 where
  stayed : new ≡ old → Moved grace env p old new
  opens :
      should_open_at p env.now ≡ true
      → new ≡ (transition env.outage p.id opened p.version old).1
      → Moved grace env p old new
  closes :
      p.status ≡ opened
      → p.closes_at + grace ≤ env.now
      → Drained env.lag
      → new ≡ (transition env.outage p.id closed p.version old).1
      → Moved grace env p old new

drained-Drained : (lag : Option (Result ℤ)) → drained lag ≡ ok true → Drained lag
unfolding drained
drained-Drained lag h = ground arith

finalize_after-moves :
    (env : Env) (p : Poll) (r : Result Aggregate × Db) (rows : List Row)
    → r.1.polls ≡ rows
    → ((finalize_after env p r).1.polls ≡ rows)
      ⊎ ((finalize_after env p r).1.polls ≡ (transition env.outage p.id closed p.version rows).1)
unfolding finalize_after move
finalize_after-moves env p (err e, db) rows h = inl h
finalize_after-moves env p (ok a, db) rows h =
    inr (ap (λ x. (transition env.outage p.id closed p.version x).1) h)

close-moves :
    (grace : ℕ) (env : Env) (p : Poll) (db : Db)
    → p.status ≡ opened
    → Moved grace env p db.polls (close_when_drained grace env p db).1.polls
unfolding close_when_drained finalize
close-moves grace env p db on = elim (Bool-cases (before env.now (p.closes_at + grace))) [
  | inl early ↦ rw early (stayed refl)
  | inr late ↦ elim (Result-cases (drained env.lag)) [
    | inr (e, bad) ↦ rw (late, bad) (stayed refl)
    | inl (false, busy) ↦ rw (late, busy) (stayed refl)
    | inl (true, dry) ↦
        rw (late, dry)
          (elim (finalize_after-moves env p (tick_once env.last p db) db.polls
            (tick_once-polls env.last p db)) [
              | inl same ↦ stayed same
              | inr gone ↦ closes on (ground arith) (drained-Drained env.lag dry) gone
            ])
  ]
]

handle_open-moves :
    (grace : ℕ) (env : Env) (p : Poll) (r : Result Aggregate × Db) (rows : List Row)
    → p.status ≡ opened
    → r.1.polls ≡ rows
    → Moved grace env p rows (handle_open grace env p r).1.polls
unfolding handle_open
handle_open-moves grace env p (err e, db) rows on h = stayed h
handle_open-moves grace env p (ok a, db) rows on h =
    subst (λ x. Moved grace env p x (close_when_drained grace env p db).1.polls) h
      (close-moves grace env p db on)

is_opened : (s : Status) → same_status s opened ≡ true → s ≡ opened
is_opened s h = ground arith

-- A pass over a poll, whatever its parts answer, leaves the rows of the polls as they are, or opens the
-- poll when its scheduled opening has come, or closes it; it closes only a poll it was given as open, when
-- the grace after the closing time is over and the consumers have no lag, or no lag reader is set. Both
-- changes are made under the version the poll was read at.
pub handle-moves :
    (grace : ℕ) (env : Env) (p : Poll) (db : Db)
    → Moved grace env p db.polls (handle grace env p db).1.polls
unfolding handle move
handle-moves grace env p db = elim (Bool-cases (should_open_at p env.now)) [
  | inl due ↦ rw due (opens due refl)
  | inr not_due ↦ elim (Bool-cases (same_status p.status opened)) [
    | inr off ↦ rw (not_due, off) (stayed refl)
    | inl on ↦
        rw (not_due, on)
          (handle_open-moves grace env p (tick_once env.first p db) db.polls (is_opened p.status on)
            (tick_once-polls env.first p db))
  ]
]
