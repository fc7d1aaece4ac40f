-- ===== src/Worker/Alone.antt =====
-- One goroutine by itself: the small steps of a batch are those of `Count`.
use televote.Prelude.{
  arith, ℕ, ◌≡◌, refl, List, [], ◌∷◌, Option, none, some, map, Bool-cases, inl, inr, sym, ◌∙◌,
}
use televote.Prelude.Text.{Text}
use televote.Floats.{Floats}
use televote.Errors.{Result, ok, err, Failure, Result-cases}
use televote.Domain.Poll.{Time, VoteMessage}
use televote.Domain.Window.{contains}
use televote.Domain.Voter.{VoterId, parse_voter_id}
use televote.PollCfg.{HotConfig, config_sharding}
use televote.Counting.{
  Turn, Poke, Progress, initial_apply_backoff, retryable, grow, execute, proceed, retry,
  apply_with_retry, await_config, finish, count_for, count_awaited, count,
}
use televote.Redis.Server.{Server}
use televote.Redis.Tally.{Tally}
use televote.Worker.{
  fresh, retrying, End, malformed, returned, Next, runs, ends, begin, again, Act, look, call, move,
}

-- What `Count` returned, if it did.
abbrev pub result_of : Next → Option (Result ℕ)
result_of (runs j) = none
result_of (ends malformed) = none
result_of (ends (returned msg res)) = some res

module _ (floats : Floats) (r : Server) (sum64 : List ℕ → ℕ) (uuid_text : ℕ → Text)
    (t : Tally) where
  -- One goroutine moves, and no other.
  unfoldable pub drive : List Act → Next × r.Store → Next × r.Store
  drive [] p = p
  drive (a ∷ acts) (runs job, s) = drive acts (move floats r sum64 uuid_text t a job s)
  drive (a ∷ acts) (ends e, s) = (ends e, s)

  drive-ends : (acts : List Act) (e : End) (s : r.Store) → drive acts (ends e, s) ≡ (ends e, s)
  unfolding drive
  drive-ends [] e s = refl
  drive-ends (a ∷ acts) e s = refl

  -- Whether a goroutine is where a call of the retry loop is.
  abbrev Agrees : Next × r.Store → Progress r.Store → Type 0
  Agrees p q = (result_of p.0 ≡ q.outcome) × (p.1 ≡ q.store)

  drive-fresh :
      (msg : VoteMessage) (turns : List Turn) (s : r.Store)
      → drive (map call turns) (runs (fresh (some msg)), s) ≡ (runs (fresh (some msg)), s)
  unfolding drive move
  drive-fresh msg [] s = refl
  drive-fresh msg (turn ∷ turns) s = drive-fresh msg turns s

  module _ (cfg : HotConfig) (v : VoterId) (msg : VoteMessage) where
    again-proceed :
        (backoff : ℕ) (c : Option Failure) (turns : List Turn) (res : Result ℕ) (s : r.Store)
        (more : Progress r.Store)
        → Agrees (drive (map call turns) (runs (retrying cfg v msg (grow backoff)), s)) more
        → Agrees
            (drive (map call turns) (again cfg v msg backoff c res, s))
            (proceed floats r sum64 uuid_text t c backoff (res, s) more)
    unfolding again proceed
    again-proceed backoff c turns (ok n) s more h =
        rw (drive-ends (map call turns) (returned msg (ok n)) s) (refl, refl)
    again-proceed backoff none turns (err e) s more h = elim (Bool-cases (retryable e)) [
      | inr last ↦ rw (last, drive-ends (map call turns) (returned msg (err e)) s) (refl, refl)
      | inl next ↦ rw next h
    ]
    again-proceed backoff (some f) turns (err e) s more h = elim (Bool-cases (retryable e)) [
      | inr last ↦ rw (last, drive-ends (map call turns) (returned msg (err e)) s) (refl, refl)
      | inl next ↦ rw (next, drive-ends (map call turns) (returned msg (err f)) s) (refl, refl)
    ]

    drive-retry :
        (backoff : ℕ) (turns : List Turn) (s : r.Store)
        → Agrees
            (drive (map call turns) (runs (retrying cfg v msg backoff), s))
            (retry floats r sum64 uuid_text t (config_sharding cfg) v msg.choices backoff turns s)
    unfolding drive retry move
    drive-retry backoff [] s = (refl, refl)
    drive-retry backoff (turn ∷ turns) s =
        let p = execute floats r sum64 uuid_text t (config_sharding cfg) v msg.choices turn s in
        again-proceed backoff turn.cancelled turns p.0 p.1 _ (drive-retry (grow backoff) turns p.1)

  finish-outcome :
      (p : Progress r.Store)
      → ((finish floats r sum64 uuid_text t p).outcome ≡ p.outcome)
        × ((finish floats r sum64 uuid_text t p).store ≡ p.store)
  unfolding finish
  finish-outcome p = ground arith

  begin_for :
      (cfg : HotConfig) (msg : VoteMessage) (turns : List Turn) (s : r.Store)
      → let p = drive (map call turns) (begin msg (some (some cfg)), s) in
        (result_of p.0 ≡ (count_for floats r sum64 uuid_text t cfg msg turns s).outcome)
        × (p.1 ≡ (count_for floats r sum64 uuid_text t cfg msg turns s).store)
  unfolding begin count_for
  begin_for cfg msg turns s = elim (Bool-cases (contains cfg.window msg.produced_at)) [
    | inr out ↦ rw (out, drive-ends (map call turns) _ s) (refl, refl)
    | inl inside ↦ elim (Result-cases (parse_voter_id msg.voter_id)) [
      | inr (e, bad) ↦ rw (inside, bad, drive-ends (map call turns) _ s) (refl, refl)
      | inl (v, parsed) ↦
          let ran = drive-retry cfg v msg initial_apply_backoff turns s in
          let fin =
            finish-outcome
              (apply_with_retry floats r sum64 uuid_text t cfg v msg.choices turns s) in
          rw (inside, parsed) (unfold apply_with_retry in (ran.0 ∙ sym fin.0, ran.1 ∙ sym fin.1))
    ]
  ]

  begin_awaited :
      (answer : Option (Option HotConfig)) (msg : VoteMessage) (turns : List Turn) (s : r.Store)
      → let p = drive (map call turns) (begin msg answer, s) in
        (result_of p.0 ≡ (count_awaited floats r sum64 uuid_text t answer msg turns s).outcome)
        × (p.1 ≡ (count_awaited floats r sum64 uuid_text t answer msg turns s).store)
  unfolding count_awaited
  begin_awaited none msg turns s = unfold begin in rw (drive-fresh msg turns s) (refl, refl)
  begin_awaited (some none) msg turns s =
      unfold begin in rw (drive-ends (map call turns) _ s) (refl, refl)
  begin_awaited (some (some cfg)) msg turns s = begin_for cfg msg turns s

  -- The steps of a goroutine are a refinement of `Count`: run with no other between them, the wait for the
  -- configuration and then the calls of the retry loop come to the result that `Count` returns, or are still
  -- at it when `Count` is, and leave the store that `Count` leaves.
  pub drive-count :
      (lookup : ℕ → Option HotConfig) (deadline : Time) (pokes : List Poke) (msg : VoteMessage)
      (turns : List Turn) (s : r.Store)
      → let p =
          drive
            (look (lookup msg.poll_id) deadline pokes ∷ map call turns)
            (runs (fresh (some msg)), s) in
        let c = count floats r sum64 uuid_text t lookup deadline pokes msg turns s in
        (result_of p.0 ≡ c.outcome) × (p.1 ≡ c.store)
  unfolding drive move count
  drive-count lookup deadline pokes msg turns s =
      begin_awaited (await_config (lookup msg.poll_id) deadline pokes) msg turns s
