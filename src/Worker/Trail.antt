-- ===== src/Worker/Trail.antt =====
-- The calls that a batch makes to the server, in the order in which they are made.
use televote.Prelude.{
  ℕ, ◌≡◌, refl, Bool, List, [], ◌∷◌, ◌++◌, Option, none, some, arith, All, get_elem?,
}
use televote.Prelude.Text.{Text}
use televote.Floats.{Floats}
use televote.Errors.{Sentinel}
use televote.Domain.Voter.{VoterId}
use televote.PollCfg.{HotConfig, config_sharding}
use televote.Counting.{Turn, execute}
use televote.Redis.Server.{Server}
use televote.Redis.Tally.{Tally}
use televote.Redis.Tally.Ledger.{Attempt}
use televote.Redis.Tally.Once.{process}
use televote.Worker.{
  Entry, Job, fresh, retrying, Act, look, call, Event, launch, skip, cancel, act, under, Batch,
  launch_in, skip_in, move, moved, step,
}
use televote.Worker.Jobs.{JobFor, All-get}

abbrev pub attempt_of : VoterId → List ℕ → Turn → Attempt
attempt_of v choices turn = record { voter = v; choices = choices; link = turn.link; at = turn.at }

abbrev pub allowed : Option Sentinel → Attempt → List Attempt
allowed none a = a ∷ []
allowed (some refusal) a = []

-- The call that an act of a job makes, if the breaker lets it.
abbrev pub act_attempts : Act → Job → List Attempt
act_attempts (call turn) (retrying cfg v msg backoff) =
    allowed turn.gate (attempt_of v msg.choices turn)
act_attempts (call turn) (fresh x) = []
act_attempts (look found deadline pokes) job = []

abbrev pub moved_attempts : Bool → Act → Option Job → List Attempt
moved_attempts cancelled a none = []
moved_attempts cancelled a (some job) = act_attempts (under cancelled a) job

abbrev pub event_attempts : {S : Type 0} → Event → Batch S → List Attempt
event_attempts launch b = []
event_attempts skip b = []
event_attempts cancel b = []
event_attempts (act i a) b = moved_attempts b.cancelled a (get_elem? b.running i)

launched-store :
    {S : Type 0} (workers : ℕ) (xs : List Entry) (b : Batch S)
    → (launch_in workers xs b).store ≡ b.store
unfolding launch_in
launched-store workers [] b = refl
launched-store workers (x ∷ xs) b = ground arith

skipped-store : {S : Type 0} (xs : List Entry) (b : Batch S) → (skip_in xs b).store ≡ b.store
unfolding skip_in
skipped-store [] b = refl
skipped-store (x ∷ xs) b = ground arith

module _ (floats : Floats) (r : Server) (sum64 : List ℕ → ℕ) (uuid_text : ℕ → Text)
    (t : Tally) where
  -- The calls of a run, in their order.
  unfoldable pub trail : ℕ → List Event → Batch r.Store → List Attempt
  trail workers [] b = []
  trail workers (e ∷ es) b =
      event_attempts e b ++ trail workers es (step floats r sum64 uuid_text t workers e b)

  move-store :
      (cfg : HotConfig) (records : List Entry) (a : Act) (job : Job) (s : r.Store)
      → JobFor cfg records job
      → (move floats r sum64 uuid_text t a job s).1
        ≡ process floats r sum64 uuid_text t (config_sharding cfg) (act_attempts a job) s
  unfolding move process execute
  move-store cfg records (look found d ps) (fresh none) s h = refl
  move-store cfg records (look found d ps) (fresh (some msg)) s h = refl
  move-store cfg records (look found d ps) (retrying c v msg b) s h = refl
  move-store cfg records (call turn) (fresh x) s h = refl
  move-store cfg records (call turn) (retrying c v msg b) s h =
      let same = h.0 in rw same (ground arith)

  moved-store :
      (cfg : HotConfig) (records : List Entry) (i : ℕ) (a : Act) (b : Batch r.Store)
      (o : Option Job)
      → ((job : Job) → o ≡ some job → JobFor cfg records job)
      → (moved floats r sum64 uuid_text t i a o b).store
        ≡ process floats r sum64 uuid_text t
            (config_sharding cfg)
            (moved_attempts b.cancelled a o)
            b.store
  unfolding moved process
  moved-store cfg records i a b none h = refl
  moved-store cfg records i a b (some job) h =
      move-store cfg records (under b.cancelled a) job b.store (h job refl)

  pub step-store :
      (cfg : HotConfig) (records : List Entry) (workers : ℕ) (e : Event) (b : Batch r.Store)
      → All (JobFor cfg records) b.running
      → (step floats r sum64 uuid_text t workers e b).store
        ≡ process floats r sum64 uuid_text t (config_sharding cfg) (event_attempts e b) b.store
  unfolding step process
  step-store cfg records workers launch b h = launched-store workers b.pending b
  step-store cfg records workers skip b h = skipped-store b.pending b
  step-store cfg records workers cancel b h = refl
  step-store cfg records workers (act i a) b h =
      moved-store cfg records i a b (get_elem? b.running i)
        (λ job e. All-get (JobFor cfg records) b.running i h e)
