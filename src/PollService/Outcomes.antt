-- ===== src/PollService/Outcomes.antt =====
-- What opening and closing a poll do.
use televote.Prelude.{◌≡◌, List, [], ◌∷◌}
use televote.Prelude.Text.{Text, codes}
use televote.Errors.{Result, ok, err, Failure}
use televote.Domain.Poll.{Poll}
use televote.Postgres.Polls.{Row}
use televote.PollService.{Audit, Answer}

-- The answer of a call that updates the rows: a failure leaves them and is not audited, and a success, with the
-- poll `q`, is audited once.
pub record Answered (q : Poll) (rows : List Row) (entry : Audit)
    (change : Result (Unit {0}) × List Row) (a : Answer) : Type 0 where
  pub failed : (e : Failure) → a.result ≡ err e → (a.rows ≡ rows) × (a.audited ≡ [])
  pub done :
      (r : Poll)
      → a.result ≡ ok r
      → (r ≡ q) × (change.0 ≡ ok tt) × (a.rows ≡ change.1) × (a.audited ≡ entry ∷ [])

abbrev closing_entry : Text → Text → Audit
closing_entry actor slug = record { actor = actor; action = codes "close_poll"; entity = slug }
