-- ===== src/Postgres/Polls/Locking.antt =====
-- Optimistic locking: what an update under a version does.
use televote.Prelude.{ℕ, ◌≡◌, ◌≢◌, refl, true, List, [], ◌∷◌, none, ap}
use televote.Prelude.Int.{ℤ, pos, ◌+ℤ◌, pos_part, neg_part, int_laws}
use televote.Prelude.Text.{Text}
use televote.Errors.{ok, err, version_conflict}
use televote.Domain.Poll.{Time, Status, status_valid}
use televote.Postgres.Polls.{Row, set_closing, set_status, status_text, close_now, transition}
use televote.Postgres.Polls.Updates.{UniqueIds, KeepsId, Locked, versioned-Locked, versioned-once}

closing-KeepsId : (now : Time) → KeepsId (set_closing now)
closing-KeepsId now row = refl

status-KeepsId : (to : Text) → KeepsId (set_status to)
status-KeepsId to row = refl

next_version : (x : ℤ) (version : ℕ) → x ≡ pos version → x +ℤ pos 1 ≢ pos version
next_version x version e q =
    omega (int_laws, ap pos_part e, ap neg_part e, ap pos_part q, ap neg_part q)

-- A change of status under a version: an unknown poll is not found and a poll at another version is a
-- conflict, and neither touches a row; at the version given the poll's row gets the status and the next
-- version, and the rows of other polls stay.
pub transition-locks :
    (id version : ℕ) (to : Status) (rows : List Row)
    → UniqueIds rows
    → status_valid to ≡ true
    → Locked id version (set_status (status_text to)) rows (transition none id to version rows)
unfolding transition
transition-locks id version to rows u valid = rw valid (
    versioned-Locked id version (set_status (status_text to)) rows (status-KeepsId (status_text to))
      u)

-- Closing the window under a version: an unknown poll is not found and a poll at another version is a
-- conflict, and neither touches a row; at the version given the poll's row gets the database's time as
-- its end and the next version, and the rows of other polls stay.
pub close_now-locks :
    (id version : ℕ) (now : Time) (rows : List Row)
    → UniqueIds rows
    → Locked id version (set_closing now) rows (close_now none now id version rows)
unfolding close_now
close_now-locks id version now rows u =
    versioned-Locked id version (set_closing now) rows (closing-KeepsId now) u

-- Of two updates that read one version of a poll, at most one takes effect: after a change of status, a
-- second change or a closing of the window under the same version is a conflict and changes nothing, and
-- so is a change of status after a closing.
pub one_update_wins :
    (id version : ℕ) (to to' : Status) (now : Time) (rows : List Row)
    → UniqueIds rows
    → status_valid to ≡ true
    → status_valid to' ≡ true
    → ((transition none id to version rows).0 ≡ ok tt
        → let rows' = (transition none id to version rows).1 in
          (transition none id to' version rows' ≡ (err (version_conflict ∷ []), rows'))
          × (close_now none now id version rows' ≡ (err (version_conflict ∷ []), rows')))
      × ((close_now none now id version rows).0 ≡ ok tt
          → let rows' = (close_now none now id version rows).1 in
            transition none id to version rows' ≡ (err (version_conflict ∷ []), rows'))
unfolding transition close_now
one_update_wins id version to to' now rows u valid valid' =
    let bumps : (row : Row) (v : ℕ) → row.version ≡ pos v → row.version +ℤ pos 1 ≢ pos v =
      λ row v e. next_version row.version v e in
    rw (valid, valid')
      (
        λ h. (
          (versioned-once id version (set_status (status_text to)) (set_status (status_text to'))
              rows (status-KeepsId (status_text to)) (status-KeepsId (status_text to')) bumps u
              h).1,
          (versioned-once id version (set_status (status_text to)) (set_closing now) rows
              (status-KeepsId (status_text to)) (closing-KeepsId now) bumps u h).1,
        ),
        λ h.
            (versioned-once id version (set_closing now) (set_status (status_text to)) rows
              (closing-KeepsId now) (status-KeepsId (status_text to)) bumps u h).1,
      )
