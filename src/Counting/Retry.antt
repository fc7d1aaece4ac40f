-- ===== src/Counting/Retry.antt =====
-- What the retry loop does to the store, what it returns, and how long it waits.
use televote.Prelude.{
  ℕ, zero, suc, ◌*◌, ◌^◌, ◌≡◌, refl, Bool, true, false, List, [], ◌∷◌, Option, none, some, arith,
  length, All, leb, if◌then◌else◌, ◌⊎◌, inl, inr, Bool-cases, Option-cases, sym, ap, ◌∙◌,
}
use televote.Prelude.Text.{Text}
use televote.Floats.{Floats}
use televote.Errors.{Result, ok, err, Failure, Sentinel}
use televote.Domain.Poll.{Sharding, millisecond, vote_result_valid}
use televote.Domain.Voter.{VoterId}
use televote.PollCfg.{HotConfig, config_sharding}
use televote.Redis.Server.{Server}
use televote.Redis.Tally.{Tally, Link, deliver, apply}
use televote.Redis.Tally.Ledger.{Attempt}
use televote.Redis.Tally.Once.{process}
use televote.Counting.{
  Turn, Progress, retryable, grow, initial_apply_backoff, execute, proceed, retry, apply_with_retry,
}

-- The wait after `n` failures: 20 ms, doubled until it is 2.56 s.
unfoldable pub backoff_at : ℕ → ℕ
backoff_at n = if leb 7 n then 2560 * millisecond else initial_apply_backoff * 2 ^ n

grow-backoff_at : (n : ℕ) → grow (backoff_at n) ≡ backoff_at (suc n)
unfolding grow backoff_at
grow-backoff_at zero = refl
grow-backoff_at (suc zero) = refl
grow-backoff_at (suc (suc zero)) = refl
grow-backoff_at (suc (suc (suc zero))) = refl
grow-backoff_at (suc (suc (suc (suc zero)))) = refl
grow-backoff_at (suc (suc (suc (suc (suc zero))))) = refl
grow-backoff_at (suc (suc (suc (suc (suc (suc zero)))))) = refl
grow-backoff_at (suc (suc (suc (suc (suc (suc (suc n))))))) = ground arith

-- Whether the loop goes on after a call: it failed in a way that is retried, and the context is not done.
unfoldable pub goes_on : Option Failure → Result ℕ → Bool
goes_on cancelled (ok n) = false
goes_on (some c) (err e) = false
goes_on none (err e) = retryable e

All-if :
    (P : Attempt → Type 0) (b : Bool) (xs : List Attempt) → All P xs → All P (if b then xs else [])
All-if P true xs h = h
All-if P false xs h = tt

module _ (floats : Floats) (r : Server) (sum64 : List ℕ → ℕ) (uuid_text : ℕ → Text)
    (t : Tally) where
  abbrev attempt_of : VoterId → List ℕ → Turn → Attempt
  attempt_of v choices turn = record {
    voter = v;
    choices = choices;
    link = turn.link;
    at = turn.at;
  }

  abbrev unless_refused : Option Sentinel → Attempt → List Attempt → List Attempt
  unless_refused none a xs = a ∷ xs
  unless_refused (some refusal) a xs = xs

  -- The attempts that the turns make, up to the one that ends the loop.
  unfoldable pub made : Sharding → VoterId → List ℕ → List Turn → r.Store → List Attempt
  made target v choices [] s = []
  made target v choices (turn ∷ turns) s =
      let step = execute floats r sum64 uuid_text t target v choices turn s in
      let more = made target v choices turns step.1 in
      unless_refused turn.gate (attempt_of v choices turn)
        (if goes_on turn.cancelled step.0 then more else [])

-- The context of one of the turns ends with the error.
abbrev pub CancelledBy : Failure → List Turn → Type 0
CancelledBy e [] = ⊥
CancelledBy e (turn ∷ turns) = (turn.cancelled ≡ some e) ⊎ CancelledBy e turns

-- The result of a vote is one of the two valid ones; an error is one that is not retried, or a context's.
abbrev pub Ends : List Turn → Option (Result ℕ) → Type 0
Ends turns none = Unit {0}
Ends turns (some (ok n)) = vote_result_valid n ≡ true
Ends turns (some (err e)) = (retryable e ≡ false) ⊎ CancelledBy e turns

-- The waits from the `n`-th on, `k` of them.
unfoldable pub schedule : ℕ → ℕ → List ℕ
schedule n zero = []
schedule n (suc k) = backoff_at n ∷ schedule (suc n) k

module _ (floats : Floats) (r : Server) (sum64 : List ℕ → ℕ) (uuid_text : ℕ → Text)
    (t : Tally) where
  abbrev run : Sharding → List Attempt → r.Store → r.Store
  run target xs s = process floats r sum64 uuid_text t target xs s

  proceed-store :
      (target : Sharding) (c : Option Failure) (b : ℕ) (step : Result ℕ × r.Store)
      (more : Progress r.Store) (xs : List Attempt)
      → more.store ≡ run target xs step.1
      → (proceed floats r sum64 uuid_text t c b step more).store
        ≡ run target (if goes_on c step.0 then xs else []) step.1
  unfolding proceed goes_on process
  proceed-store target c b (ok n, s) more xs h = refl
  proceed-store target none b (err e, s) more xs h = elim (Bool-cases (retryable e)) [
    | inl y ↦ rw y h
    | inr y ↦ rw y refl
  ]
  proceed-store target (some c) b (err e, s) more xs h = elim (Bool-cases (retryable e)) [
    | inl y ↦ rw y refl
    | inr y ↦ rw y refl
  ]

  execute-run :
      (target : Sharding) (v : VoterId) (choices : List ℕ) (turn : Turn) (xs : List Attempt)
      (s : r.Store)
      → run target
          (unless_refused floats r sum64 uuid_text t turn.gate
            (attempt_of floats r sum64 uuid_text t v choices turn)
            xs)
          s
        ≡ run target xs (execute floats r sum64 uuid_text t target v choices turn s).1
  unfolding execute process
  execute-run target v choices turn xs s = elim (Option-cases turn.gate) [
    | inl e ↦ rw e refl
    | inr (x, e) ↦ rw e refl
  ]

  retry-store :
      (target : Sharding) (v : VoterId) (choices : List ℕ) (b : ℕ) (turns : List Turn) (s : r.Store)
      → (retry floats r sum64 uuid_text t target v choices b turns s).store
        ≡ run target (made floats r sum64 uuid_text t target v choices turns s) s
  unfolding retry made process
  retry-store target v choices b [] s = refl
  retry-store target v choices b (turn ∷ turns) s =
      let step = execute floats r sum64 uuid_text t target v choices turn s in
      proceed-store target turn.cancelled b step
        (retry floats r sum64 uuid_text t target v choices (grow b) turns step.1) _
        (retry-store target v choices (grow b) turns step.1)
      ∙ sym (execute-run target v choices turn _ s)

  unless-All :
      (gate : Option Sentinel) (v : VoterId) (choices : List ℕ) (a : Attempt) (xs : List Attempt)
      → (a.voter ≡ v) × (a.choices ≡ choices)
      → All (λ (x : Attempt). (x.voter ≡ v) × (x.choices ≡ choices)) xs
      → All
          (λ (x : Attempt). (x.voter ≡ v) × (x.choices ≡ choices))
          (unless_refused floats r sum64 uuid_text t gate a xs)
  unless-All none v choices a xs h hs = (h, hs)
  unless-All (some x) v choices a xs h hs = hs

  made-same :
      (target : Sharding) (v : VoterId) (choices : List ℕ) (turns : List Turn) (s : r.Store)
      → All
          (λ (a : Attempt). (a.voter ≡ v) × (a.choices ≡ choices))
          (made floats r sum64 uuid_text t target v choices turns s)
  unfolding made
  made-same target v choices [] s = tt
  made-same target v choices (turn ∷ turns) s =
      let step = execute floats r sum64 uuid_text t target v choices turn s in
      unless-All turn.gate v choices (attempt_of floats r sum64 uuid_text t v choices turn) _
        (refl, refl)
        (All-if _ (goes_on turn.cancelled step.0) _ (made-same target v choices turns step.1))

  proceed-waits :
      (c : Option Failure) (n : ℕ) (step : Result ℕ × r.Store) (more : Progress r.Store)
      → more.waits ≡ schedule (suc n) (length more.waits)
      → let p = proceed floats r sum64 uuid_text t c (backoff_at n) step more in
        p.waits ≡ schedule n (length p.waits)
  unfolding proceed schedule
  proceed-waits c n (ok res, s) more h = refl
  proceed-waits none n (err e, s) more h = elim (Bool-cases (retryable e)) [
    | inl y ↦ rw y (ap (λ ws. backoff_at n ∷ ws) h)
    | inr y ↦ rw y refl
  ]
  proceed-waits (some c) n (err e, s) more h = elim (Bool-cases (retryable e)) [
    | inl y ↦ rw y refl
    | inr y ↦ rw y refl
  ]

  retry-waits :
      (target : Sharding) (v : VoterId) (choices : List ℕ) (n : ℕ) (turns : List Turn) (s : r.Store)
      → let p = retry floats r sum64 uuid_text t target v choices (backoff_at n) turns s in
        p.waits ≡ schedule n (length p.waits)
  unfolding retry schedule
  retry-waits target v choices n [] s = refl
  retry-waits target v choices n (turn ∷ turns) s =
      let step = execute floats r sum64 uuid_text t target v choices turn s in
      proceed-waits turn.cancelled n step
        (retry floats r sum64 uuid_text t target v choices (grow (backoff_at n)) turns step.1)
        (rw (grow-backoff_at n) (retry-waits target v choices (suc n) turns step.1))

  apply-valid :
      (target : Sharding) (v : VoterId) (choices : List ℕ) (link : Link) (now : ℕ) (s : r.Store)
      {n : ℕ}
      → (apply floats r sum64 uuid_text t target v choices link now s).0 ≡ ok n
      → vote_result_valid n ≡ true
  unfolding apply deliver
  apply-valid target v choices link now s h = ground arith

  execute-valid :
      (target : Sharding) (v : VoterId) (choices : List ℕ) (turn : Turn) (s : r.Store) {n : ℕ}
      → (execute floats r sum64 uuid_text t target v choices turn s).0 ≡ ok n
      → vote_result_valid n ≡ true
  unfolding execute
  execute-valid target v choices turn s h = elim (Option-cases turn.gate) [
    | inl e ↦ apply-valid target v choices turn.link turn.at s (ground arith)
    | inr (x, e) ↦ ground arith
  ]

  widen :
      (turn : Turn) (turns : List Turn) (o : Option (Result ℕ))
      → Ends turns o
      → Ends (turn ∷ turns) o
  widen turn turns none h = tt
  widen turn turns (some (ok n)) h = h
  widen turn turns (some (err e)) (inl h) = inl h
  widen turn turns (some (err e)) (inr h) = inr (inr h)

  proceed-Ends :
      (turn : Turn) (turns : List Turn) (c : Option Failure) (b : ℕ) (step : Result ℕ × r.Store)
      (more : Progress r.Store)
      → turn.cancelled ≡ c
      → ((n : ℕ) → step.0 ≡ ok n → vote_result_valid n ≡ true)
      → Ends turns more.outcome
      → Ends (turn ∷ turns) (proceed floats r sum64 uuid_text t c b step more).outcome
  unfolding proceed
  proceed-Ends turn turns c b (ok n, s) more same valid h = valid n refl
  proceed-Ends turn turns none b (err e, s) more same valid h = elim (Bool-cases (retryable e)) [
    | inl y ↦ rw y (widen turn turns more.outcome h)
    | inr y ↦ rw y (inl y)
  ]
  proceed-Ends turn turns (some c) b (err e, s) more same valid h =
      elim (Bool-cases (retryable e)) [ inl y ↦ rw y (inr (inl same)) | inr y ↦ rw y (inl y) ]

  retry-Ends :
      (target : Sharding) (v : VoterId) (choices : List ℕ) (b : ℕ) (turns : List Turn) (s : r.Store)
      → Ends turns (retry floats r sum64 uuid_text t target v choices b turns s).outcome
  unfolding retry
  retry-Ends target v choices b [] s = tt
  retry-Ends target v choices b (turn ∷ turns) s =
      let step = execute floats r sum64 uuid_text t target v choices turn s in
      proceed-Ends turn turns turn.cancelled b step
        (retry floats r sum64 uuid_text t target v choices (grow b) turns step.1) refl
        (λ n h. execute-valid target v choices turn s h)
        (retry-Ends target v choices (grow b) turns step.1)

  -- Retrying is a series of deliveries of the one vote: the store after the loop is what the attempts of
  -- the turns make of it, each of this voter and these choices. The waits between them are 20 ms, doubled
  -- from one to the next until they are 2.56 s. The loop returns a valid result, an error that is not
  -- retried, or the error of a context that is done; nothing else ends it.
  pub retry-deliveries :
      (cfg : HotConfig) (v : VoterId) (choices : List ℕ) (turns : List Turn) (s : r.Store)
      → let p = apply_with_retry floats r sum64 uuid_text t cfg v choices turns s in
        let xs = made floats r sum64 uuid_text t (config_sharding cfg) v choices turns s in
        (p.store ≡ run (config_sharding cfg) xs s)
        × All (λ (a : Attempt). (a.voter ≡ v) × (a.choices ≡ choices)) xs
        × (p.waits ≡ schedule 0 (length p.waits))
        × Ends turns p.outcome
  unfolding apply_with_retry
  retry-deliveries cfg v choices turns s = (
    retry-store (config_sharding cfg) v choices initial_apply_backoff turns s,
    made-same (config_sharding cfg) v choices turns s,
    unfold backoff_at in retry-waits (config_sharding cfg) v choices 0 turns s,
    retry-Ends (config_sharding cfg) v choices initial_apply_backoff turns s,
  )
