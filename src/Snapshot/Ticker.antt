-- ===== src/Snapshot/Ticker.antt =====
-- internal/worker/snapshot/ticker.go: the loop around the ticks of the snapshotter. What the loop meets next is given:
-- the end of the context, or a tick with what it meets.
use televote.Prelude.{ℕ, not, List, [], ◌∷◌, Option, Bool}
use televote.Errors.{Result, ok, Failure, reject_if, ◌>>◌}
use televote.Domain.Poll.{Duration, is_positive, Poll}
use televote.Snapshot.{Db, Env, tick}

-- `NewTicker`, given for each dependency whether it is there; the result is the interval.
unfoldable pub new_ticker : Bool → Duration → Bool → Result Duration
new_ticker cycle interval log = do
  reject_if (not cycle) []
  reject_if (not (is_positive interval)) []
  reject_if (not log) []
  ok interval

pub data Wake : Type 0 where
  done : Wake
  ticks : Option Failure → (Poll → Env) → Wake

-- `Run`, as long as it is known what it meets; an error of a tick is only logged.
unfoldable pub run : ℕ → List Wake → Db → Db
run grace [] db = db
run grace (done ∷ wakes) db = db
run grace (ticks outage envs ∷ wakes) db = run grace wakes (tick grace outage envs db).1
