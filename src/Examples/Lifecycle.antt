-- ===== src/Examples/Lifecycle.antt =====
-- An example of calls on one table of polls that overlap.
use televote.Prelude.{ℕ, ◌≡◌, ◌<◌, ◌⊎◌, refl, inl, arith, List, [], ◌∷◌, none, some}
use televote.Prelude.Text.{codes, text_eq}
use televote.Prelude.Int.{pos}
use televote.Errors.{ok}
use televote.Domain.Poll.{Poll, scheduled, status_of, status_valid, poll_type_valid}
use televote.Domain.Poll.Machine.{Reaches, rank}
use televote.Postgres.Polls.{
  Row, insert_row, row_of, scan_poll, scan_options, option_rows, insert_option,
}
use televote.Postgres.Results.Upsert.{NonNegative}
use televote.Domain.Aggregate.{get, has_key, UniqueKeys}
use televote.Postgres.Polls.Updates.{UniqueIds}
use televote.Lifecycle.{World, History, begins, goes_on, reads, opens, stores}
use televote.Lifecycle.Rows.{identity}
use televote.Lifecycle.Growing.{Grown, history-grows}
use televote.Lifecycle.Forward.{history-forward}
use televote.Examples.Tables.{stored}
use televote.Examples.{poll, salt, whole}

abbrev planned : Poll
planned = record poll { status = scheduled; opens_at = 100000; closes_at = 200000 }

abbrev planned_row : Row
planned_row = insert_row planned salt

abbrev table : List Row
table = planned_row ∷ []

table-UniqueIds : UniqueIds table
unfolding row_of
table-UniqueIds = (refl, tt)

found : row_of planned_row.id table ≡ some planned_row
unfolding row_of insert_row
found = refl

scanned : scan_poll planned_row ≡ ok planned
unfolding scan_poll insert_row scan_options option_rows insert_option status_valid poll_type_valid
    text_eq
scanned = refl

abbrev empty_world : World
empty_world = record { rows = table; tables = stored; held = [] }

stored-NonNegative : (j : ℕ) → NonNegative (stored.votes j)
unfolding get
stored-NonNegative j k = ground arith

older-UniqueKeys : UniqueKeys ((1, pos 2) ∷ (2, pos 3) ∷ [])
unfolding has_key
older-UniqueKeys = (refl, (refl, tt))

-- A snapshotter that is behind writes fewer votes for one option and more for another.
late_write : (w : World) × History 30 whole (pos 0) empty_world w
late_write = (
  _,
  goes_on begins (
      stores none 7 (record { votes = (1, pos 2) ∷ (2, pos 3) ∷ []; ballots = pos 3 })
        older-UniqueKeys),
)

history-grows_example : Grown stored late_write.0.tables
history-grows_example =
    history-grows 30 whole (pos 0) empty_world late_write.0 stored-NonNegative late_write.1

-- Two admins have read the poll, and one opens it.
opening : (w : World) × History 30 whole (pos 0) empty_world w
opening = (
  _,
  goes_on (goes_on begins (reads planned_row planned found scanned))
      (opens none (codes "eve") (codes "final") planned (inl refl)),
)

-- The other comes later with the version that is gone, and does not.
overlap : (w : World) × History 30 whole (pos 0) opening.0 w
unfolding opening
overlap = (_, goes_on begins (opens none (codes "bob") (codes "final") planned (inl refl)))

history-forward_example :
    UniqueIds (overlap.0).rows
    × ((j : ℕ) (row : Row)
        → row_of j (opening.0).rows ≡ some row
        → (row' : Row) × (row_of j (overlap.0).rows ≡ some row')
          × (identity row' ≡ identity row)
          × Reaches (status_of row.status) (status_of row'.status)
          × ((status_of row.status ≡ status_of row'.status)
              ⊎ (rank (status_of row.status) < rank (status_of row'.status))))
history-forward_example =
    history-forward 30 whole (pos 0) table stored opening.0 overlap.0 table-UniqueIds opening.1
      overlap.1
