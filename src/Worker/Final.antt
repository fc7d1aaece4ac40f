-- ===== src/Worker/Final.antt =====
-- What the records of a batch end with while its context is alive.
use televote.Prelude.{
  ℕ, ◌≡◌, refl, Bool, true, false, not, ◌||◌, List, [], ◌∷◌, Option, none, some, arith, All,
  get_elem?, Bool-cases, inl, inr, ltb, length, subst, sym,
}
use televote.Prelude.Text.{Text}
use televote.Floats.{Floats}
use televote.Errors.{
  Result, ok, err, Failure, is, store_unavailable, breaker_open, too_many_requests, Result-cases,
}
use televote.Domain.Poll.{VoteMessage}
use televote.Domain.Window.{contains}
use televote.Domain.Voter.{VoterId, parse_voter_id}
use televote.PollCfg.{HotConfig}
use televote.Counting.{retryable}
use televote.Redis.Server.{Server}
use televote.Redis.Tally.{Tally}
use televote.Worker.{
  Entry, Job, fresh, retrying, End, malformed, returned, Next, runs, ends, begin, again, Act, look,
  call, Event, launch, skip, cancel, act, under, Batch, ended_by, launch_in, skip_in, move, moved,
  step, run,
}
use televote.Worker.Slots.{step-Keeps, run-Keeps}

-- An error of a store that cannot be reached, or of a breaker that is open or lets one call through at a time.
abbrev pub passing : Failure → Bool
passing e = is e store_unavailable || is e breaker_open || is e too_many_requests

-- The record is malformed, its vote is counted, or its error is none that passes.
abbrev pub is_final : End → Bool
is_final malformed = true
is_final (returned msg (ok n)) = true
is_final (returned msg (err e)) = not (passing e)

abbrev pub Final : End → Type 0
Final e = is_final e ≡ true

abbrev NextFinal : Next → Type 0
NextFinal (runs j) = Unit {0}
NextFinal (ends e) = Final e

parse_voter_id-err : (s : Text) {e : Failure} → parse_voter_id s ≡ err e → e ≡ []
unfolding parse_voter_id
parse_voter_id-err s {e} h = ground arith

begin-Final : (msg : VoteMessage) (o : Option (Option HotConfig)) → NextFinal (begin msg o)
unfolding begin retryable is
begin-Final msg none = tt
begin-Final msg (some none) = refl
begin-Final msg (some (some c)) = elim (Bool-cases (contains c.window msg.produced_at)) [
  | inr out ↦ rw out refl
  | inl inside ↦ elim (Result-cases (parse_voter_id msg.voter_id)) [
    | inr (e, bad) ↦
        let nothing = parse_voter_id-err msg.voter_id bad in rw (inside, bad, nothing) refl
    | inl (v, parsed) ↦ rw (inside, parsed) tt
  ]
]

again-Final :
    (c : HotConfig) (v : VoterId) (msg : VoteMessage) (backoff : ℕ) (res : Result ℕ)
    → NextFinal (again c v msg backoff none res)
unfolding again retryable
again-Final c v msg backoff (ok n) = refl
again-Final c v msg backoff (err e) = elim (Bool-cases (retryable e)) [
  | inl more ↦ rw more tt
  | inr last ↦ rw last (rw last refl)
]

skipped-ended : {S : Type 0} (xs : List Entry) (b : Batch S) → (skip_in xs b).ended ≡ b.ended
unfolding skip_in
skipped-ended [] b = refl
skipped-ended (x ∷ xs) b = ground arith

module _ (floats : Floats) (r : Server) (sum64 : List ℕ → ℕ) (uuid_text : ℕ → Text)
    (t : Tally) where
  move-Final :
      (a : Act) (job : Job) (s : r.Store)
      → NextFinal (move floats r sum64 uuid_text t (under false a) job s).0
  unfolding move under
  move-Final (look found d ps) (fresh none) s = refl
  move-Final (look found d ps) (fresh (some msg)) s = begin-Final msg _
  move-Final (look found d ps) (retrying c v msg b) s = tt
  move-Final (call turn) (fresh x) s = tt
  move-Final (call turn) (retrying c v msg b) s = again-Final c v msg b _

  ended-Final : (n : Next) (es : List End) → NextFinal n → All Final es → All Final (ended_by n es)
  ended-Final (runs j) es k h = h
  ended-Final (ends e) es k h = (k, h)

  moved-Final :
      (i : ℕ) (a : Act) (b : Batch r.Store) (o : Option Job)
      → b.cancelled ≡ false
      → All Final b.ended
      → All Final (moved floats r sum64 uuid_text t i a o b).ended
  unfolding moved
  moved-Final i a b none alive h = h
  moved-Final i a b (some job) alive h =
      ended-Final _ b.ended
        (subst (λ c. NextFinal (move floats r sum64 uuid_text t (under c a) job b.store).0)
          (sym alive) (move-Final a job b.store))
        h

  launched-Final :
      (workers : ℕ) (xs : List Entry) (b : Batch r.Store)
      → All Final b.ended
      → All Final (launch_in workers xs b).ended
  unfolding launch_in
  launched-Final workers [] b h = h
  launched-Final workers (x ∷ xs) b h = elim (Bool-cases (ltb (length b.running) workers)) [
    | inl free ↦ rw free h
    | inr full ↦ rw full h
  ]

  step-Final :
      (workers : ℕ) (e : Event) (b : Batch r.Store)
      → b.cancelled ≡ false
      → All Final b.ended
      → All Final (step floats r sum64 uuid_text t workers e b).ended
  unfolding step
  step-Final workers launch b alive h = launched-Final workers b.pending b h
  step-Final workers skip b alive h = subst (All Final) (sym (skipped-ended b.pending b)) h
  step-Final workers cancel b alive h = h
  step-Final workers (act i a) b alive h = moved-Final i a b (get_elem? b.running i) alive h

  -- While the context is alive a goroutine gives up no vote that a retry could save: by the time a batch is
  -- handled, or before, each of its records that has ended is malformed, is counted, or ended with an error
  -- other than an unavailable store or a breaker that is open.
  pub run-Final :
      (workers : ℕ) (es : List Event) (b : Batch r.Store)
      → All Final b.ended
      → (run floats r sum64 uuid_text t workers es b).cancelled ≡ false
      → All Final (run floats r sum64 uuid_text t workers es b).ended
  unfolding run
  run-Final workers [] b h alive = h
  run-Final workers (e ∷ es) b h alive =
      let c = step floats r sum64 uuid_text t workers e b in
      let still = (run-Keeps floats r sum64 uuid_text t workers es c).quiet alive in
      let before = (step-Keeps floats r sum64 uuid_text t workers e b).quiet still.0 in
      run-Final workers es c (step-Final workers e b before.0 h) alive
