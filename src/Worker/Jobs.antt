-- ===== src/Worker/Jobs.antt =====
-- What a job of a batch knows: its record, its voter and the configuration it has found.
use televote.Prelude.{
  ℕ, zero, suc, ◌≡◌, refl, Bool, true, false, List, [], ◌∷◌, Option, none, some, map, arith, All,
  get_elem?, ◌⊎◌, Bool-cases, inl, inr, subst,
}
use televote.Prelude.Text.{Text}
use televote.Floats.{Floats}
use televote.Errors.{Result, ok, err, Failure, Result-cases}
use televote.Domain.Poll.{Time, VoteMessage}
use televote.Domain.Window.{contains}
use televote.Domain.Voter.{VoterId, parse_voter_id}
use televote.PollCfg.{HotConfig}
use televote.Counting.{Poke, retryable, await_config, await_loop}
use televote.Redis.Server.{Server}
use televote.Redis.Tally.{Tally}
use televote.Redis.Tally.Ledger.{Attempt}
use televote.Worker.{
  Entry, Job, fresh, retrying, Next, runs, ends, begin, again, Act, look, call, Event, launch, skip,
  cancel, act, under, settle, move,
}

abbrev pub Among : Entry → List Entry → Type 0
Among x [] = ⊥
Among x (y ∷ ys) = (y ≡ x) ⊎ Among x ys

-- The attempt is of a record: its voter and its choices are those of the message.
abbrev pub Sent : List Entry → Attempt → Type 0
Sent records a =
    (msg : VoteMessage) × Among (some msg) records
    × (parse_voter_id msg.voter_id ≡ ok a.voter)
    × (a.choices ≡ msg.choices)

-- No configuration but this one is found.
abbrev pub Finds : HotConfig → Option HotConfig → Type 0
Finds cfg o = (c : HotConfig) → o ≡ some c → c ≡ cfg

abbrev pub ActFinds : HotConfig → Act → Type 0
ActFinds cfg (look found deadline pokes) =
    Finds cfg found × All (λ (p : Poke). Finds cfg p.found) pokes
ActFinds cfg (call turn) = Unit {0}

abbrev pub EventFinds : HotConfig → Event → Type 0
EventFinds cfg launch = Unit {0}
EventFinds cfg skip = Unit {0}
EventFinds cfg cancel = Unit {0}
EventFinds cfg (act i a) = ActFinds cfg a

abbrev pub JobFor : HotConfig → List Entry → Job → Type 0
JobFor cfg records (fresh x) = Among x records
JobFor cfg records (retrying c v msg backoff) =
    (c ≡ cfg) × Among (some msg) records × (parse_voter_id msg.voter_id ≡ ok v)

pub under-ActFinds :
    (cfg : HotConfig) (c : Bool) (a : Act) → ActFinds cfg a → ActFinds cfg (under c a)
unfolding under
under-ActFinds cfg true a h = h
under-ActFinds cfg false (call turn) h = tt
under-ActFinds cfg false (look found deadline pokes) h = (h.0, alive pokes h.1)
  where
    alive :
        (ps : List Poke)
        → All (λ (p : Poke). Finds cfg p.found) ps
        → All
            (λ (p : Poke). Finds cfg p.found)
            (map (λ (p : Poke). record p { cancelled = false }) ps)
    alive [] h = tt
    alive (p ∷ ps) h = (h.0, alive ps h.1)

await_loop-Finds :
    (cfg c : HotConfig) (deadline : Time) (pokes : List Poke)
    → All (λ (p : Poke). Finds cfg p.found) pokes
    → await_loop deadline pokes ≡ some (some c)
    → c ≡ cfg
unfolding await_loop
await_loop-Finds cfg c deadline [] h e = ground arith
await_loop-Finds cfg c deadline (p ∷ pokes) h e =
    ground (arith, h.0 c, await_loop-Finds cfg c deadline pokes h.1)

await_config-Finds :
    (cfg c : HotConfig) (found : Option HotConfig) (deadline : Time) (pokes : List Poke)
    → Finds cfg found
    → All (λ (p : Poke). Finds cfg p.found) pokes
    → await_config found deadline pokes ≡ some (some c)
    → c ≡ cfg
unfolding await_config
await_config-Finds cfg c none deadline pokes h k e = await_loop-Finds cfg c deadline pokes k e
await_config-Finds cfg c (some d) deadline pokes h k e = h c (ground arith)

-- A job that goes on is one for the configuration and the records.
abbrev pub NextFor : HotConfig → List Entry → Next → Type 0
NextFor cfg records (runs j) = JobFor cfg records j
NextFor cfg records (ends e) = Unit {0}

pub All-get :
    (P : Job → Type 0) (jobs : List Job) (i : ℕ) {j : Job}
    → All P jobs
    → get_elem? jobs i ≡ some j
    → P j
All-get P [] i h e = absurd (cc)
All-get P (job ∷ jobs) zero h e = subst P (cc) h.0
All-get P (job ∷ jobs) (suc i) h e = All-get P jobs i h.1 e

pub settle-JobFor :
    (cfg : HotConfig) (records : List Entry) (i : ℕ) (n : Next) (jobs : List Job)
    → NextFor cfg records n
    → All (JobFor cfg records) jobs
    → All (JobFor cfg records) (settle i n jobs)
unfolding settle
settle-JobFor cfg records i n [] k h = tt
settle-JobFor cfg records zero (runs j) (job ∷ jobs) k h = (k, h.1)
settle-JobFor cfg records zero (ends e) (job ∷ jobs) k h = h.1
settle-JobFor cfg records (suc i) n (job ∷ jobs) k h =
    (h.0, settle-JobFor cfg records i n jobs k h.1)

begin-JobFor :
    (cfg : HotConfig) (records : List Entry) (msg : VoteMessage) (o : Option (Option HotConfig))
    → Among (some msg) records
    → ((c : HotConfig) → o ≡ some (some c) → c ≡ cfg)
    → NextFor cfg records (begin msg o)
unfolding begin
begin-JobFor cfg records msg none m f = m
begin-JobFor cfg records msg (some none) m f = tt
begin-JobFor cfg records msg (some (some c)) m f =
    elim (Bool-cases (contains c.window msg.produced_at)) [
      | inr out ↦ rw out tt
      | inl inside ↦ elim (Result-cases (parse_voter_id msg.voter_id)) [
        | inr (e, bad) ↦ rw (inside, bad) tt
        | inl (v, parsed) ↦ rw (inside, parsed) (f c refl, m, parsed)
      ]
    ]

again-JobFor :
    (cfg c : HotConfig) (records : List Entry) (v : VoterId) (msg : VoteMessage) (backoff : ℕ)
    (o : Option Failure) (res : Result ℕ)
    → JobFor cfg records (retrying c v msg backoff)
    → NextFor cfg records (again c v msg backoff o res)
unfolding again
again-JobFor cfg c records v msg backoff o (ok n) h = tt
again-JobFor cfg c records v msg backoff none (err e) h = elim (Bool-cases (retryable e)) [
  | inl more ↦ rw more h
  | inr last ↦ rw last tt
]
again-JobFor cfg c records v msg backoff (some f) (err e) h = elim (Bool-cases (retryable e)) [
  | inl more ↦ rw more tt
  | inr last ↦ rw last tt
]

module _ (floats : Floats) (r : Server) (sum64 : List ℕ → ℕ) (uuid_text : ℕ → Text)
    (t : Tally) where
  pub move-JobFor :
      (cfg : HotConfig) (records : List Entry) (a : Act) (job : Job) (s : r.Store)
      → ActFinds cfg a
      → JobFor cfg records job
      → NextFor cfg records (move floats r sum64 uuid_text t a job s).0
  unfolding move
  move-JobFor cfg records (look found d ps) (fresh none) s f h = tt
  move-JobFor cfg records (look found d ps) (fresh (some msg)) s f h =
      begin-JobFor cfg records msg (await_config found d ps) h
        (λ c e. await_config-Finds cfg c found d ps f.0 f.1 e)
  move-JobFor cfg records (look found d ps) (retrying c v msg b) s f h = h
  move-JobFor cfg records (call turn) (fresh x) s f h = h
  move-JobFor cfg records (call turn) (retrying c v msg b) s f h =
      again-JobFor cfg c records v msg b turn.cancelled _ h
