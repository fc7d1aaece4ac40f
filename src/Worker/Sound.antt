-- ===== src/Worker/Sound.antt =====
-- What holds of a batch in the middle of its run, whatever its goroutines do next.
use televote.Prelude.{
  ℕ, ◌≡◌, refl, true, List, [], ◌∷◌, ◌++◌, Option, none, some, arith, All, All-append, All-imp,
  get_elem?, ltb, length, if◌then◌else◌, ◌⊎◌, Bool-cases, inl, inr, sym, ap, ◌∙◌, subst,
}
use mathlib.Core.List.{append-nil, append_assoc}
use televote.Prelude.Text.{Text}
use televote.Floats.{Floats}
use televote.Errors.{Sentinel, Result, ok, err, Failure, Result-cases}
use televote.Domain.Poll.{VoteMessage, Sharding}
use televote.Domain.Window.{contains}
use televote.Domain.Voter.{VoterId, parse_voter_id}
use televote.PollCfg.{HotConfig, config_sharding}
use televote.Counting.{Turn, retryable, execute, await_config}
use televote.Redis.Server.{Server}
use televote.Redis.Tally.{Tally, deliver, apply}
use televote.Redis.Tally.Ledger.{Attempt, reaches}
use televote.Redis.Tally.Once.{process, process-append}
use televote.Worker.{
  Entry, Job, fresh, retrying, End, malformed, returned, Next, runs, ends, begin, again, Act, look,
  call, Event, launch, skip, cancel, act, under, Batch, ended_by, launch_in, skip_in, move, moved,
  step, run,
}
use televote.Worker.Jobs.{
  Among, Sent, ActFinds, EventFinds, JobFor, All-get, settle-JobFor, move-JobFor, under-ActFinds,
}
use televote.Worker.Trail.{
  attempt_of, allowed, act_attempts, moved_attempts, event_attempts, trail, step-store,
}

module _ (sum64 : List ℕ → ℕ) (target : Sharding) where
  -- Some attempt of the voter has reached the script.
  abbrev pub Reached : VoterId → List Attempt → Type 0
  Reached v [] = ⊥
  Reached v (a ∷ xs) = ((reaches sum64 target a ≡ true) × (a.voter ≡ v)) ⊎ Reached v xs

  -- A vote that is said to be counted has reached the script.
  abbrev pub Recorded : List Attempt → End → Type 0
  Recorded xs malformed = Unit {0}
  Recorded xs (returned msg (err e)) = Unit {0}
  Recorded xs (returned msg (ok n)) =
      (v : VoterId) × (parse_voter_id msg.voter_id ≡ ok v) × Reached v xs

  abbrev NextRecorded : List Attempt → Next → Type 0
  NextRecorded xs (runs j) = Unit {0}
  NextRecorded xs (ends e) = Recorded xs e

  Reached-more : (v : VoterId) (xs ys : List Attempt) → Reached v xs → Reached v (xs ++ ys)
  Reached-more v [] ys h = elim h [ ]
  Reached-more v (a ∷ xs) ys (inl h) = inl h
  Reached-more v (a ∷ xs) ys (inr h) = inr (Reached-more v xs ys h)

  Reached-last : (v : VoterId) (xs ys : List Attempt) → Reached v ys → Reached v (xs ++ ys)
  Reached-last v [] ys h = h
  Reached-last v (a ∷ xs) ys h = inr (Reached-last v xs ys h)

  Recorded-more : (xs ys : List Attempt) (e : End) → Recorded xs e → Recorded (xs ++ ys) e
  Recorded-more xs ys malformed h = tt
  Recorded-more xs ys (returned msg (err e)) h = tt
  Recorded-more xs ys (returned msg (ok n)) (v, p, h) = (v, p, Reached-more v xs ys h)

  Recorded-last : (xs ys : List Attempt) (e : End) → Recorded ys e → Recorded (xs ++ ys) e
  Recorded-last xs ys malformed h = tt
  Recorded-last xs ys (returned msg (err e)) h = tt
  Recorded-last xs ys (returned msg (ok n)) (v, p, h) = (v, p, Reached-last v xs ys h)

  ended-Recorded :
      (xs ys : List Attempt) (n : Next) (es : List End)
      → NextRecorded ys n
      → All (Recorded xs) es
      → All (Recorded (xs ++ ys)) (ended_by n es)
  ended-Recorded xs ys (runs j) es k h = All-imp es (Recorded-more xs ys) h
  ended-Recorded xs ys (ends e) es k h =
      (Recorded-last xs ys e k, All-imp es (Recorded-more xs ys) h)

begin-NextRecorded :
    (sum64 : List ℕ → ℕ) (target : Sharding) (xs : List Attempt) (msg : VoteMessage)
    (o : Option (Option HotConfig))
    → NextRecorded sum64 target xs (begin msg o)
unfolding begin
begin-NextRecorded sum64 target xs msg none = tt
begin-NextRecorded sum64 target xs msg (some none) = tt
begin-NextRecorded sum64 target xs msg (some (some c)) =
    elim (Bool-cases (contains c.window msg.produced_at)) [
      | inr out ↦ rw out tt
      | inl inside ↦ elim (Result-cases (parse_voter_id msg.voter_id)) [
        | inr (e, bad) ↦ rw (inside, bad) tt
        | inl (v, parsed) ↦ rw (inside, parsed) tt
      ]
    ]

again-NextRecorded :
    (sum64 : List ℕ → ℕ) (target : Sharding) (xs : List Attempt) (c : HotConfig) (v : VoterId)
    (msg : VoteMessage) (backoff : ℕ) (o : Option Failure) (res : Result ℕ)
    → parse_voter_id msg.voter_id ≡ ok v
    → ((n : ℕ) → res ≡ ok n → Reached sum64 target v xs)
    → NextRecorded sum64 target xs (again c v msg backoff o res)
unfolding again
again-NextRecorded sum64 target xs c v msg backoff o (ok n) p h = (v, p, h n refl)
again-NextRecorded sum64 target xs c v msg backoff none (err e) p h =
    elim (Bool-cases (retryable e)) [ inl more ↦ rw more tt | inr last ↦ rw last tt ]
again-NextRecorded sum64 target xs c v msg backoff (some f) (err e) p h =
    elim (Bool-cases (retryable e)) [ inl more ↦ rw more tt | inr last ↦ rw last tt ]

module _ (floats : Floats) (r : Server) (sum64 : List ℕ → ℕ) (uuid_text : ℕ → Text)
    (t : Tally) where
  -- A call that succeeds has run the script.
  execute-reaches :
      (target : Sharding) (v : VoterId) (choices : List ℕ) (turn : Turn) (s : r.Store) (n : ℕ)
      → (execute floats r sum64 uuid_text t target v choices turn s).0 ≡ ok n
      → (turn.gate ≡ none) × (reaches sum64 target (attempt_of v choices turn) ≡ true)
  unfolding execute apply deliver reaches
  execute-reaches target v choices turn s n h = (ground arith, ground arith)

  move-NextRecorded :
      (cfg : HotConfig) (records : List Entry) (a : Act) (job : Job) (s : r.Store)
      → JobFor cfg records job
      → NextRecorded sum64
          (config_sharding cfg)
          (act_attempts a job)
          (move floats r sum64 uuid_text t a job s).0
  unfolding move
  move-NextRecorded cfg records (look found d ps) (fresh none) s h = tt
  move-NextRecorded cfg records (look found d ps) (fresh (some msg)) s h =
      begin-NextRecorded sum64 (config_sharding cfg) [] msg (await_config found d ps)
  move-NextRecorded cfg records (look found d ps) (retrying c v msg b) s h = tt
  move-NextRecorded cfg records (call turn) (fresh x) s h = tt
  move-NextRecorded cfg records (call turn) (retrying c v msg b) s h =
      let res = (execute floats r sum64 uuid_text t (config_sharding c) v msg.choices turn s).0 in
      again-NextRecorded sum64 (config_sharding cfg) _ c v msg b turn.cancelled res h.2 (λ n e.
        let done = execute-reaches (config_sharding c) v msg.choices turn s n e in
        subst
          (λ g. Reached sum64 (config_sharding cfg) v (allowed g (attempt_of v msg.choices turn)))
          (sym done.0)
          (inl (
            subst (λ x. reaches sum64 (config_sharding x) (attempt_of v msg.choices turn) ≡ true)
                h.0 done.1,
            refl,
          )))

  move-Sent :
      (cfg : HotConfig) (records : List Entry) (a : Act) (job : Job)
      → JobFor cfg records job
      → All (Sent records) (act_attempts a job)
  move-Sent cfg records (look found d ps) job h = tt
  move-Sent cfg records (call turn) (fresh x) h = tt
  move-Sent cfg records (call turn) (retrying c v msg b) h = by_gate turn.gate
    where
      by_gate :
          (g : Option Sentinel) → All (Sent records) (allowed g (attempt_of v msg.choices turn))
      by_gate none = ((msg, h.1, h.2, refl), tt)
      by_gate (some refusal) = tt

  -- What holds of a batch whose calls so far are given.
  pub record Sound (cfg : HotConfig) (records : List Entry) (xs : List Attempt) (b : Batch r.Store)
      : Type 0 where
    pub waiting : All (λ x. Among x records) b.pending
    pub jobs : All (JobFor cfg records) b.running
    pub sent : All (Sent records) xs
    pub recorded : All (Recorded sum64 (config_sharding cfg) xs) b.ended

  moved-Sound :
      (cfg : HotConfig) (records : List Entry) (xs : List Attempt) (i : ℕ) (a : Act)
      (b : Batch r.Store) (o : Option Job)
      → ActFinds cfg a
      → ((job : Job) → o ≡ some job → JobFor cfg records job)
      → Sound cfg records xs b
      → Sound cfg records
          (xs ++ moved_attempts b.cancelled a o)
          (moved floats r sum64 uuid_text t i a o b)
  unfolding moved
  moved-Sound cfg records xs i a b none f h d = rw (append-nil xs) d
  moved-Sound cfg records xs i a b (some job) f h d =
      let a' = under b.cancelled a in
      let ys = act_attempts a' job in
      let j = h job refl in
      let n = (move floats r sum64 uuid_text t a' job b.store).0 in
      record {
        waiting = d.waiting;
        jobs =
            settle-JobFor cfg records i n b.running
              (move-JobFor floats r sum64 uuid_text t cfg records a' job b.store
                (under-ActFinds cfg b.cancelled a f) j)
              d.jobs;
        sent = All-append (Sent records) xs ys d.sent (move-Sent cfg records a' job j);
        recorded =
            ended-Recorded sum64 (config_sharding cfg) xs ys n b.ended
              (move-NextRecorded cfg records a' job b.store j) d.recorded;
      }

  launched-Sound :
      (cfg : HotConfig) (records : List Entry) (xs : List Attempt) (workers : ℕ) (ps : List Entry)
      (b : Batch r.Store)
      → b.pending ≡ ps
      → Sound cfg records xs b
      → Sound cfg records xs (launch_in workers ps b)
  unfolding launch_in
  launched-Sound cfg records xs workers [] b e d = d
  launched-Sound cfg records xs workers (p ∷ ps) b e d =
      elim (Bool-cases (ltb (length b.running) workers)) [
        | inr full ↦ rw full d
        | inl free ↦
            let waiting = subst (All (λ x. Among x records)) e d.waiting in
            rw free (record {
              waiting = waiting.1;
              jobs = (waiting.0, d.jobs);
              sent = d.sent;
              recorded = d.recorded;
            })
      ]

  skipped-Sound :
      (cfg : HotConfig) (records : List Entry) (xs : List Attempt) (ps : List Entry)
      (b : Batch r.Store)
      → b.pending ≡ ps
      → Sound cfg records xs b
      → Sound cfg records xs (skip_in ps b)
  unfolding skip_in
  skipped-Sound cfg records xs [] b e d = d
  skipped-Sound cfg records xs (p ∷ ps) b e d = elim (Bool-cases b.cancelled) [
    | inr alive ↦
        subst
          (λ c.
            Sound cfg records xs
              (if c then record b { pending = ps; skipped = p ∷ b.skipped } else b))
          (sym alive) d
    | inl over ↦
        let waiting = subst (All (λ x. Among x records)) e d.waiting in
        rw over
          (record { waiting = waiting.1; jobs = d.jobs; sent = d.sent; recorded = d.recorded })
  ]

  step-Sound :
      (cfg : HotConfig) (records : List Entry) (xs : List Attempt) (workers : ℕ) (e : Event)
      (b : Batch r.Store)
      → EventFinds cfg e
      → Sound cfg records xs b
      → Sound cfg records (xs ++ event_attempts e b) (step floats r sum64 uuid_text t workers e b)
  unfolding step
  step-Sound cfg records xs workers launch b f d =
      rw (append-nil xs) (launched-Sound cfg records xs workers b.pending b refl d)
  step-Sound cfg records xs workers skip b f d =
      rw (append-nil xs) (skipped-Sound cfg records xs b.pending b refl d)
  step-Sound cfg records xs workers cancel b f d =
      rw (append-nil xs)
        (record { waiting = d.waiting; jobs = d.jobs; sent = d.sent; recorded = d.recorded })
  step-Sound cfg records xs workers (act i a) b f d =
      moved-Sound cfg records xs i a b (get_elem? b.running i) f
        (λ job e. All-get (JobFor cfg records) b.running i d.jobs e) d

  pub run-Sound :
      (cfg : HotConfig) (records : List Entry) (xs : List Attempt) (workers : ℕ) (es : List Event)
      (b : Batch r.Store)
      → All (EventFinds cfg) es
      → Sound cfg records xs b
      → Sound cfg records
          (xs ++ trail floats r sum64 uuid_text t workers es b)
          (run floats r sum64 uuid_text t workers es b)
        × ((run floats r sum64 uuid_text t workers es b).store
            ≡ process floats r sum64 uuid_text t
                (config_sharding cfg)
                (trail floats r sum64 uuid_text t workers es b)
                b.store)
  unfolding run trail process
  run-Sound cfg records xs workers [] b f d = (rw (append-nil xs) d, refl)
  run-Sound cfg records xs workers (e ∷ es) b f d =
      let c = step floats r sum64 uuid_text t workers e b in
      let ys = event_attempts e b in
      let zs = trail floats r sum64 uuid_text t workers es c in
      let (sound, kept) =
        run-Sound cfg records (xs ++ ys) workers es c f.1
          (step-Sound cfg records xs workers e b f.0 d) in
      (
        subst (λ calls. Sound cfg records calls (run floats r sum64 uuid_text t workers es c))
            (append_assoc xs ys zs) sound,
        kept
            ∙ ap (process floats r sum64 uuid_text t (config_sharding cfg) zs)
                (step-store floats r sum64 uuid_text t cfg records workers e b d.jobs)
            ∙ sym (process-append floats r sum64 uuid_text t (config_sharding cfg) ys zs b.store),
      )
