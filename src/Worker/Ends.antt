-- ===== src/Worker/Ends.antt =====
-- A batch can always come to its end: `wg.Wait` does not wait for ever once the server answers.
use televote.Prelude.{
  ℕ, zero, suc, ◌+◌, ◌*◌, ◌≤◌, ◌<◌, ◌≡◌, refl, Bool, true, false, List, [], ◌∷◌, Option, none, some,
  All, arith, length, ltb, Bool-cases, inl, inr, sym, ap, ◌∙◌, subst, lt→ltb,
}
use televote.Prelude.Text.{Text}
use televote.Floats.{Floats}
use televote.Errors.{ok, err, Failure, is, invalid_vote, Result-cases}
use televote.Domain.Poll.{VoteMessage, Sharding}
use televote.Domain.Choices.{mark}
use televote.Domain.Window.{contains}
use televote.Domain.Voter.{VoterId, parse_voter_id}
use televote.PollCfg.{HotConfig, config_sharding}
use televote.Counting.{Turn, await_config, await_loop, retryable, execute}
use televote.Redis.Server.{Server}
use televote.Redis.Tally.{Tally, delivered, deliver, apply, validate_vote, check_once}
use televote.Worker.{
  Entry, Job, fresh, retrying, End, returned, Next, runs, ends, begin, again, Act, look, call,
  Event, launch, skip, cancel, act, under, Batch, settle, ended_by, launch_in, drained, move, moved,
  step, run,
}

-- An event of a context that stays alive, in which the server answers.
abbrev pub Answered : Event → Type 0
Answered launch = Unit {0}
Answered skip = ⊥
Answered cancel = ⊥
Answered (act i (look found deadline pokes)) = Unit {0}
Answered (act i (call turn)) = (turn.gate ≡ none) × (turn.link ≡ delivered)

abbrev weight : Job → ℕ
weight (fresh x) = 2
weight (retrying cfg v msg backoff) = 1

abbrev weights : List Job → ℕ
weights [] = 0
weights (j ∷ js) = weight j + weights js

-- How many events are enough.
abbrev pub work : {S : Type 0} → Batch S → ℕ
work b = 3 * length b.pending + weights b.running

abbrev answer : Turn
answer = record { gate = none; link = delivered; at = 0; cancelled = none }

-- A lookup that finds the configuration at once, or not at all.
abbrev lookup_once : Option HotConfig → Act
lookup_once found = look found 0 (record { at = 0; cancelled = false; found = none } ∷ [])

abbrev Lighter : Job → Next → Type 0
Lighter job (runs j) = weight j < weight job
Lighter job (ends e) = Unit {0}

begin-Lighter :
    (msg : VoteMessage) (o : Option HotConfig) → Lighter (fresh (some msg)) (begin msg (some o))
unfolding begin
begin-Lighter msg none = tt
begin-Lighter msg (some cfg) = elim (Bool-cases (contains cfg.window msg.produced_at)) [
  | inr out ↦ rw out tt
  | inl inside ↦ elim (Result-cases (parse_voter_id msg.voter_id)) [
    | inl (v, e) ↦ rw (inside, e) (omega arith)
    | inr (f, e) ↦ rw (inside, e) tt
  ]
]

-- The check before the script fails with one error only.
check_once-invalid :
    (seen : ℕ → Bool) (xs : List ℕ) {e : Failure}
    → check_once seen xs ≡ err e
    → e ≡ invalid_vote ∷ []
unfolding check_once
check_once-invalid seen [] h = ground arith
check_once-invalid seen (x ∷ xs) {e} h = ground (arith, check_once-invalid (mark seen x) xs {e = e})

validate_vote-invalid :
    (target : Sharding) (choices : List ℕ) {e : Failure}
    → validate_vote target choices ≡ err e
    → e ≡ invalid_vote ∷ []
unfolding validate_vote
validate_vote-invalid target choices {e} h =
    ground (arith, check_once-invalid (λ _. false) choices {e = e})

module _ (floats : Floats) (r : Server) (sum64 : List ℕ → ℕ) (uuid_text : ℕ → Text)
    (t : Tally) where
  answered_final :
      (target : Sharding) (v : VoterId) (choices : List ℕ) (s : r.Store) {e : Failure}
      → (execute floats r sum64 uuid_text t target v choices answer s).0 ≡ err e
      → retryable e ≡ false
  unfolding execute apply deliver retryable is
  answered_final target v choices s {e} h = elim (Result-cases (validate_vote target choices)) [
    | inr (f, bad) ↦
        let same : f ≡ e = ground arith in
        rw (sym same, validate_vote-invalid target choices bad) refl
    | inl (u, good) ↦ ground arith
  ]

  -- A call that the server answers is the last one of its job.
  pub answered-ends :
      (cfg : HotConfig) (v : VoterId) (msg : VoteMessage) (backoff : ℕ) (s : r.Store)
      → (e : End) × ((move floats r sum64 uuid_text t
            (call answer)
            (retrying cfg v msg backoff)
            s).0
          ≡ ends e)
  unfolding move again
  answered-ends cfg v msg backoff s =
      elim (Result-cases
        (execute floats r sum64 uuid_text t (config_sharding cfg) v msg.choices answer s).0) [
          | inl (n, e) ↦ (returned msg (ok n), rw e refl)
          | inr (f, e) ↦ (
            returned msg (err f),
            rw (e, answered_final (config_sharding cfg) v msg.choices s e) refl,
          )
        ]

module _ (floats : Floats) (r : Server) (sum64 : List ℕ → ℕ) (uuid_text : ℕ → Text) (t : Tally)
    (configs : ℕ → Option HotConfig) where
  -- The next act of a job when the server answers.
  abbrev next_act : Job → Act
  next_act (fresh none) = lookup_once none
  next_act (fresh (some msg)) = lookup_once (configs msg.poll_id)
  next_act (retrying cfg v msg backoff) = call answer

  under-next_act : (c : Bool) (job : Job) → under c (next_act job) ≡ next_act job
  unfolding under
  under-next_act true job = refl
  under-next_act false (fresh none) = refl
  under-next_act false (fresh (some msg)) = refl
  under-next_act false (retrying cfg v msg backoff) = refl

  look_answer :
      (o : Option HotConfig)
      → await_config o 0 (record { at = 0; cancelled = false; found = none } ∷ []) ≡ some o
  unfolding await_config await_loop
  look_answer none = refl
  look_answer (some cfg) = refl

  next-Lighter :
      (c : Bool) (job : Job) (s : r.Store)
      → Lighter job (move floats r sum64 uuid_text t (under c (next_act job)) job s).0
  next-Lighter c (fresh none) s = rw (under-next_act c (fresh none)) (unfold move in tt)
  next-Lighter c (fresh (some msg)) s = rw (under-next_act c (fresh (some msg))) (
      unfold move in
      rw (look_answer (configs msg.poll_id)) (begin-Lighter msg (configs msg.poll_id)))
  next-Lighter c (retrying cfg v msg backoff) s =
      rw
        (
          under-next_act c (retrying cfg v msg backoff),
          (answered-ends floats r sum64 uuid_text t cfg v msg backoff s).1,
        )
        tt

  -- What is left of a batch's events, the ones that drain it.
  record Draining (workers : ℕ) (b : Batch r.Store) : Type 0 where
    events : List Event
    few : length events ≤ work b
    answered : All Answered events
    empty : drained (run floats r sum64 uuid_text t workers events b) ≡ true
    left_out : (run floats r sum64 uuid_text t workers events b).skipped ≡ b.skipped

  after_event :
      (workers : ℕ) (e : Event) (b : Batch r.Store) (c : Batch r.Store)
      → step floats r sum64 uuid_text t workers e b ≡ c
      → Answered e
      → work c < work b
      → c.skipped ≡ b.skipped
      → Draining workers c
      → Draining workers b
  unfolding run
  after_event workers e b c made a lighter same d = record {
    events = e ∷ d.events;
    few = omega (arith, d.few);
    answered = (a, d.answered);
    empty =
        subst (λ x. drained (run floats r sum64 uuid_text t workers d.events x) ≡ true) (sym made)
          d.empty;
    left_out =
        ap (λ x. (run floats r sum64 uuid_text t workers d.events x).skipped) made
        ∙ d.left_out
        ∙ same;
  }

  next_act-Answered : (job : Job) → Answered (act 0 (next_act job))
  next_act-Answered (fresh none) = tt
  next_act-Answered (fresh (some msg)) = tt
  next_act-Answered (retrying cfg v msg backoff) = (refl, refl)

  settle-Lighter :
      (n : Next) (job : Job) (jobs : List Job)
      → Lighter job n
      → weights (settle 0 n (job ∷ jobs)) < weights (job ∷ jobs)
  unfolding settle
  settle-Lighter (runs j) job jobs h = omega arith
  settle-Lighter (ends e) (fresh x) jobs h = omega arith
  settle-Lighter (ends e) (retrying cfg v msg backoff) jobs h = omega arith

  drains :
      (workers fuel : ℕ) (pending : List Entry) (running : List Job) (b : Batch r.Store)
      → b.pending ≡ pending
      → b.running ≡ running
      → 0 < workers
      → work b ≤ fuel
      → Draining workers b
  drains workers fuel [] [] b p q pos le = record {
    events = [];
    few = omega arith;
    answered = tt;
    empty = unfold run in rw (p, q) refl;
    left_out = unfold run in refl;
  }
  drains workers zero (x ∷ xs) [] b p q pos le = absurd (omega (arith, ap length p))
  drains workers (suc fuel) (x ∷ xs) [] b p q pos le =
      let c = record b { pending = xs; running = fresh x ∷ [] } in
      let room : ltb (length b.running) workers ≡ true = rw q (lt→ltb 0 workers pos) in
      let lighter : work c < work b = rw (p, q) (omega arith) in
      after_event workers launch b c (unfold step launch_in in rw (p, room, q) refl) tt lighter refl
        (drains workers fuel xs (fresh x ∷ []) c refl refl pos (omega arith))
  drains workers zero ps (fresh x ∷ jobs) b p q pos le = absurd (omega (arith, ap weights q))
  drains workers zero ps (retrying cfg v msg n ∷ jobs) b p q pos le =
      absurd (omega (arith, ap weights q))
  drains workers (suc fuel) ps (job ∷ jobs) b p q pos le =
      let m = move floats r sum64 uuid_text t (under b.cancelled (next_act job)) job b.store in
      let c = record b {
        running = settle 0 m.0 (job ∷ jobs);
        ended = ended_by m.0 b.ended;
        store = m.1;
      } in
      let falls = settle-Lighter m.0 job jobs (next-Lighter b.cancelled job b.store) in
      let lighter : work c < work b = omega (arith, falls, ap weights q) in
      after_event workers (act 0 (next_act job)) b c (unfold step moved in rw q refl)
        (next_act-Answered job) lighter refl
        (drains workers fuel ps (settle 0 m.0 (job ∷ jobs)) c p refl pos (omega arith))

  -- A batch does not hang: wherever its goroutines stand, and whether its context is done or not, there is a
  -- way for it to end in which every call is answered and no record is left out, of at most three events for
  -- each record that waits, two for each call of `handle` at its start and one for each in the retry loop.
  pub run-ends :
      (workers : ℕ) (b : Batch r.Store)
      → 0 < workers
      → (events : List Event) × (length events ≤ work b)
        × All Answered events
        × (drained (run floats r sum64 uuid_text t workers events b) ≡ true)
        × ((run floats r sum64 uuid_text t workers events b).skipped ≡ b.skipped)
  run-ends workers b pos =
      let d = drains workers (work b) b.pending b.running b refl refl pos (omega arith) in
      (d.events, d.few, d.answered, d.empty, d.left_out)
