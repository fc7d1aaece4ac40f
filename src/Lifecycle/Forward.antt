-- ===== src/Lifecycle/Forward.antt =====
-- A poll goes forward, however the calls interleave.
use televote.Prelude.{ℕ, ◌<◌, ◌≡◌, refl, true, List, [], some, inl, inr, ◌⊎◌, sym, ap, subst, ◌∙◌}
use televote.Floats.{Floats}
use televote.Domain.Poll.{Duration, Status, Poll, status_of, can_transition_to}
use televote.Domain.Poll.Machine.{Reaches, here, next, rank, Reaches-rank}
use televote.Postgres.Polls.{Row, row_of}
use televote.Postgres.Polls.Updates.{UniqueIds}
use televote.Postgres.Results.{Tables}
use televote.Lifecycle.{
  World, Held, Step, reads, stores, snapshots, opens, closes, creates, History, begins, goes_on,
}
use televote.Lifecycle.Rows.{identity, Kept}
use televote.Lifecycle.Calls.{
  Known, read_Known, later_Known, open_found-Kept, close_found-Kept, handle-Kept, create_poll-Kept,
}

module _ (grace : ℕ) (floats : Floats) (lead : Duration) (start : List Row) where
  -- A row of the start is still there, and its status has gone along the state machine.
  record Forward (w : World) : Type 0 where
    unique : UniqueIds w.rows
    known : (p : Poll) → Held p w.held → Known p w.rows
    rows :
        (j : ℕ) (row : Row)
        → row_of j start ≡ some row
        → (row' : Row) × (row_of j w.rows ≡ some row')
          × (identity row' ≡ identity row)
          × Reaches (status_of row.status) (status_of row'.status)

  further :
      {s : Status} (t u : Status)
      → Reaches s t
      → (u ≡ t) ⊎ (can_transition_to t u ≡ true)
      → Reaches s u
  further t u r (inl e) = subst (Reaches _) (sym e) r
  further t u r (inr e) = next r e

  Kept-Forward :
      (w : World) (new : List Row) → Kept w.rows new → Forward w → Forward (record w { rows = new })
  Kept-Forward w new kept f = record {
    unique = kept.unique;
    known = λ p h. later_Known p w.rows new kept (f.known p h);
    rows = λ j row e.
        let (mid, found, same, way) = f.rows j row e in
        let (row', found', change) = kept.rows j mid found in
        elim change [
          | inl q ↦ (
            row',
            found',
            ap identity q ∙ same,
            subst (λ (r : Row). Reaches (status_of row.status) (status_of r.status)) (sym q) way,
          )
          | inr b ↦ (row', found', b.same ∙ same, further _ _ way b.status)
        ];
  }

  step-Forward : {v w : World} → Step grace floats lead v w → Forward v → Forward w
  step-Forward (reads {w} row p e h) f = record {
    unique = f.unique;
    known = λ q held. elim held [
      | inl same ↦ subst (λ x. Known x w.rows) same (read_Known row p w.rows e h)
      | inr before ↦ f.known q before
    ];
    rows = f.rows;
  }
  step-Forward (stores outage poll a u) f = record {
    unique = f.unique;
    known = f.known;
    rows = f.rows;
  }
  step-Forward (snapshots {w} env p tables h) f =
      Kept-Forward w _ (handle-Kept grace env p w.rows tables f.unique (f.known p h)) f
  step-Forward (opens {w} outage actor slug p h) f =
      Kept-Forward w _ (open_found-Kept outage actor slug p w.rows f.unique (f.known p h)) f
  step-Forward (closes {w} outage actor slug now db_now p h) f =
      Kept-Forward w _ (close_found-Kept outage actor slug now db_now p w.rows f.unique) f
  step-Forward (creates {w} id random outage actor spec now) f =
      Kept-Forward w _
        (create_poll-Kept floats id random lead outage actor spec now w.rows f.unique) f

  onward : {v w : World} → Forward v → History grace floats lead v w → Forward w
  onward f begins = f
  onward f (goes_on h s) = step-Forward s (onward f h)

-- At any moment, seen from itself.
standing :
    (grace : ℕ) (floats : Floats) (lead : Duration) (w : World)
    → UniqueIds w.rows
    → ((p : Poll) → Held p w.held → Known p w.rows)
    → Forward grace floats lead w.rows w
standing grace floats lead w u known = record {
  unique = u;
  known = known;
  rows = λ j row e. (row, e, refl, here);
}

module _ (grace : ℕ) (floats : Floats) (lead : Duration) (start : List Row) where
  -- A poll goes forward only. From a table with unique ids, let any number of snapshotters and admins work on it
  -- at once, each reading a poll and acting on it later, when other calls may have changed it, and let them
  -- create polls and write results too. However their steps interleave and whichever fail, ids stay unique,
  -- and from any moment of that history to any later one every poll keeps its row with all but its status,
  -- closing time and version as they were, and its status is the same or has gone along the edges of the state
  -- machine to one of higher rank, whatever poll an earlier reader still holds.
  pub history-forward :
      (tables : Tables) (v w : World)
      → UniqueIds start
      → History grace floats lead (record { rows = start; tables = tables; held = [] }) v
      → History grace floats lead v w
      → UniqueIds w.rows
        × ((j : ℕ) (row : Row)
            → row_of j v.rows ≡ some row
            → (row' : Row) × (row_of j w.rows ≡ some row')
              × (identity row' ≡ identity row)
              × Reaches (status_of row.status) (status_of row'.status)
              × ((status_of row.status ≡ status_of row'.status)
                  ⊎ (rank (status_of row.status) < rank (status_of row'.status))))
  history-forward tables v w u before after =
      let first : World = record { rows = start; tables = tables; held = [] } in
      let g =
        onward grace floats lead start (standing grace floats lead first u (λ p held. absurd held))
          before in
      let f =
        onward grace floats lead v.rows (standing grace floats lead v g.unique g.known) after in
      (
        f.unique,
        λ j row e.
            let (row', found, same, way) = f.rows j row e in
            (row', found, same, way, Reaches-rank way),
      )
