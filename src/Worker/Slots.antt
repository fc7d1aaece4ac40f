-- ===== src/Worker/Slots.antt =====
-- The goroutines of a batch: how many run, that none is lost, and that a batch comes to its end.
use televote.Prelude.{
  ℕ, zero, suc, ◌+◌, ◌≤◌, ◌≡◌, refl, Bool, true, false, List, [], ◌∷◌, Option, none, some, arith,
  length, get_elem?, map, ltb, if◌then◌else◌, Bool-cases, inl, inr, ◌⊎◌, ◌∙◌,
}
use televote.Prelude.Text.{Text}
use televote.Floats.{Floats}
use televote.Errors.{Result, ok, err, Failure, Result-cases}
use televote.Domain.Poll.{VoteMessage}
use televote.Domain.Window.{contains}
use televote.Domain.Voter.{VoterId, parse_voter_id}
use televote.PollCfg.{HotConfig}
use televote.Counting.{retryable}
use televote.Redis.Server.{Server}
use televote.Redis.Tally.{Tally}
use televote.Worker.{
  Entry, Job, fresh, retrying, End, malformed, returned, Next, runs, ends, begin, again, Act, look,
  call, Event, launch, skip, cancel, act, under, Batch, settle, ended_by, launch_in, skip_in,
  batch_of, move, moved, step, run,
}

-- The record that a job or an ending is of.
abbrev pub job_entry : Job → Entry
job_entry (fresh x) = x
job_entry (retrying cfg v msg backoff) = some msg

abbrev pub end_entry : End → Entry
end_entry malformed = none
end_entry (returned msg res) = some msg

abbrev next_entry : Next → Entry
next_entry (runs j) = job_entry j
next_entry (ends e) = end_entry e

-- How many records have the property.
unfoldable pub count : (Entry → Bool) → List Entry → ℕ
count p [] = 0
count p (x ∷ xs) = (if p x then 1 else 0) + count p xs

-- The records of a batch that have the property, wherever they stand.
abbrev pub count_all : {S : Type 0} → (Entry → Bool) → Batch S → ℕ
count_all p b =
    count p b.pending
    + count p (map job_entry b.running)
    + count p (map end_entry b.ended)
    + count p b.skipped

begin-entry :
    (msg : VoteMessage) (o : Option (Option HotConfig)) → next_entry (begin msg o) ≡ some msg
unfolding begin
begin-entry msg none = refl
begin-entry msg (some none) = refl
begin-entry msg (some (some cfg)) = elim (Bool-cases (contains cfg.window msg.produced_at)) [
  | inr out ↦ rw out refl
  | inl inside ↦ elim (Result-cases (parse_voter_id msg.voter_id)) [
    | inl (v, e) ↦ rw (inside, e) refl
    | inr (f, e) ↦ rw (inside, e) refl
  ]
]

again-entry :
    (cfg : HotConfig) (v : VoterId) (msg : VoteMessage) (backoff : ℕ) (c : Option Failure)
    (res : Result ℕ)
    → next_entry (again cfg v msg backoff c res) ≡ some msg
unfolding again
again-entry cfg v msg backoff c (ok n) = refl
again-entry cfg v msg backoff none (err e) = elim (Bool-cases (retryable e)) [
  | inl more ↦ rw more refl
  | inr last ↦ rw last refl
]
again-entry cfg v msg backoff (some c) (err e) = elim (Bool-cases (retryable e)) [
  | inl more ↦ rw more refl
  | inr last ↦ rw last refl
]

length-settle :
    (i : ℕ) (n : Next) (jobs : List Job) {j : Job}
    → get_elem? jobs i ≡ some j
    → length (settle i n jobs) ≤ length jobs
unfolding settle
length-settle i n [] h = absurd cc
length-settle zero (runs j) (job ∷ jobs) h = omega arith
length-settle zero (ends e) (job ∷ jobs) h = omega arith
length-settle (suc i) n (job ∷ jobs) h = omega (arith, length-settle i n jobs h)

count-settle :
    (p : Entry → Bool) (i : ℕ) (n : Next) (jobs : List Job) (es : List End) {j : Job}
    → get_elem? jobs i ≡ some j
    → next_entry n ≡ job_entry j
    → count p (map job_entry (settle i n jobs)) + count p (map end_entry (ended_by n es))
      ≡ count p (map job_entry jobs) + count p (map end_entry es)
unfolding settle count
count-settle p i n [] es h k = absurd cc
count-settle p zero (runs j) (job ∷ jobs) es h k =
    let same : job_entry j ≡ job_entry job = cc in rw same (omega arith)
count-settle p zero (ends e) (job ∷ jobs) es h k =
    let same : end_entry e ≡ job_entry job = cc in rw same (omega arith)
count-settle p (suc i) n (job ∷ jobs) es h k = omega (arith, count-settle p i n jobs es h k)

module _ (floats : Floats) (r : Server) (sum64 : List ℕ → ℕ) (uuid_text : ℕ → Text)
    (t : Tally) where
  -- What one event keeps.
  pub record Keeps (workers : ℕ) (b c : Batch r.Store) : Type 0 where
    pub bound : length b.running ≤ workers → length c.running ≤ workers
    pub same : (p : Entry → Bool) → count_all p c ≡ count_all p b
    pub quiet : c.cancelled ≡ false → (b.cancelled ≡ false) × (c.skipped ≡ b.skipped)

  move-entry :
      (a : Act) (job : Job) (s : r.Store)
      → next_entry (move floats r sum64 uuid_text t a job s).0 ≡ job_entry job
  unfolding move
  move-entry (look found d ps) (fresh none) s = refl
  move-entry (look found d ps) (fresh (some msg)) s = begin-entry msg _
  move-entry (look found d ps) (retrying cfg v msg b) s = refl
  move-entry (call turn) (fresh x) s = refl
  move-entry (call turn) (retrying cfg v msg b) s = again-entry cfg v msg b turn.cancelled _

  moved-Keeps :
      (workers i : ℕ) (a : Act) (b : Batch r.Store) (o : Option Job)
      → get_elem? b.running i ≡ o
      → Keeps workers b (moved floats r sum64 uuid_text t i a o b)
  unfolding moved
  moved-Keeps workers i a b none e = record {
    bound = λ h. h;
    same = λ p. refl;
    quiet = λ h. (h, refl);
  }
  moved-Keeps workers i a b (some job) e =
      let m = move floats r sum64 uuid_text t (under b.cancelled a) job b.store in
      record {
        bound = λ h. omega (arith, length-settle i m.0 b.running e);
        same = λ p. omega (
          arith,
          count-settle p i m.0 b.running b.ended e (move-entry (under b.cancelled a) job b.store),
        );
        quiet = λ h. (h, refl);
      }

  launch-Keeps :
      (workers : ℕ) (xs : List Entry) (b : Batch r.Store)
      → b.pending ≡ xs
      → Keeps workers b (launch_in workers xs b)
  unfolding launch_in
  launch-Keeps workers [] b e = record { bound = λ h. h; same = λ p. refl; quiet = λ h. (h, refl) }
  launch-Keeps workers (x ∷ xs) b e = elim (Bool-cases (ltb (length b.running) workers)) [
    | inr full ↦ rw full (record { bound = λ h. h; same = λ p. refl; quiet = λ h. (h, refl) })
    | inl free ↦ rw free (record {
      bound = λ h. ground arith;
      same = λ p. unfold count in rw e (omega arith);
      quiet = λ h. (h, refl);
    })
  ]

  skip-Keeps :
      (workers : ℕ) (xs : List Entry) (b : Batch r.Store)
      → b.pending ≡ xs
      → Keeps workers b (skip_in xs b)
  unfolding skip_in
  skip-Keeps workers [] b e = record { bound = λ h. h; same = λ p. refl; quiet = λ h. (h, refl) }
  skip-Keeps workers (x ∷ xs) b e = elim (Bool-cases b.cancelled) [
    | inr alive ↦ rw alive (record { bound = λ h. h; same = λ p. refl; quiet = λ h. (h, refl) })
    | inl done ↦ rw done (record {
      bound = λ h. h;
      same = λ p. unfold count in rw e (omega arith);
      quiet = λ h. absurd (cc);
    })
  ]

  pub step-Keeps :
      (workers : ℕ) (e : Event) (b : Batch r.Store)
      → Keeps workers b (step floats r sum64 uuid_text t workers e b)
  unfolding step
  step-Keeps workers launch b = launch-Keeps workers b.pending b refl
  step-Keeps workers skip b = skip-Keeps workers b.pending b refl
  step-Keeps workers cancel b = record {
    bound = λ h. h;
    same = λ p. refl;
    quiet = λ h. absurd (cc);
  }
  step-Keeps workers (act i a) b = moved-Keeps workers i a b _ refl

  pub run-Keeps :
      (workers : ℕ) (es : List Event) (b : Batch r.Store)
      → Keeps workers b (run floats r sum64 uuid_text t workers es b)
  unfolding run
  run-Keeps workers [] b = record { bound = λ h. h; same = λ p. refl; quiet = λ h. (h, refl) }
  run-Keeps workers (e ∷ es) b =
      let one = step-Keeps workers e b in
      let rest = run-Keeps workers es (step floats r sum64 uuid_text t workers e b) in
      record {
        bound = λ h. rest.bound (one.bound h);
        same = λ p. rest.same p ∙ one.same p;
        quiet = λ h.
            let (alive, left) = rest.quiet h in ((one.quiet alive).0, left ∙ (one.quiet alive).1);
      }

  -- However the goroutines of a batch are scheduled, no more of them run than there are slots. Every record of
  -- the batch stands in one place and no other: of the records with any property as many are waiting,
  -- running, ended and left out, taken together, as were fetched. While the context is alive none is left out.
  pub run-bounded :
      (workers : ℕ) (es : List Event) (records : List Entry) (cancelled : Bool) (s : r.Store)
      → let b = run floats r sum64 uuid_text t workers es (batch_of records cancelled s) in
        (length b.running ≤ workers)
        × ((p : Entry → Bool) → count_all p b ≡ count p records)
        × ((b.cancelled ≡ true) ⊎ (b.skipped ≡ []))
  unfolding batch_of count
  run-bounded workers es records cancelled s =
      let b = run floats r sum64 uuid_text t workers es (batch_of records cancelled s) in
      let kept = run-Keeps workers es (batch_of records cancelled s) in
      let nobody_left : (b.cancelled ≡ true) ⊎ (b.skipped ≡ []) = elim (Bool-cases b.cancelled) [
        | inl over ↦ inl over
        | inr alive ↦ inr (kept.quiet alive).1
      ] in
      (kept.bound (omega arith), (λ p. omega (arith, kept.same p)), nobody_left)
