-- ===== src/Counting/Stream.antt =====
-- Calls of `Count` for the messages of one poll, one after another, whatever each of them returns.
use televote.Prelude.{
  ℕ, ◌+◌, ◌≡◌, refl, true, List, [], ◌∷◌, ◌++◌, Option, some, arith, All, if◌then◌else◌, inl, inr,
  Bool-cases, sym, ap, ◌∙◌,
}
use televote.Prelude.Text.{Text}
use televote.Floats.{Floats}
use televote.Errors.{Result, ok, err, Result-cases}
use televote.Domain.Poll.{Time, VoteMessage}
use televote.Domain.Window.{contains}
use televote.Domain.Voter.{VoterId, parse_voter_id, text_in}
use televote.PollCfg.{HotConfig, config_sharding}
use televote.Redis.Server.{Server, IsRedis}
use televote.Redis.Keys.{counter_key}
use televote.Redis.Keys.Slots.{IsUuidText}
use televote.Redis.Tally.{Tally}
use televote.Redis.Tally.Apply.{TruncFits}
use televote.Redis.Tally.Ledger.{Attempt, reaches, counted, total, voters, CountedOnce}
use televote.Redis.Tally.Once.{process, Timely, Untouched, exactly_once, process-append}
use televote.Counting.{Turn, Poke, Progress, Counted, finish, apply_with_retry, count_for, count}
use televote.Counting.Retry.{made, retry-deliveries}
use televote.Counting.Count.{count-found}

-- One message with what its call of `Count` meets.
pub record Delivery : Type 0 where
  pub msg : VoteMessage
  pub deadline : Time
  pub pokes : List Poke
  pub turns : List Turn

module _ (floats : Floats) (r : Server) (sum64 : List ℕ → ℕ) (uuid_text : ℕ → Text)
    (t : Tally) where
  abbrev run : HotConfig → List Attempt → r.Store → r.Store
  run cfg xs s = process floats r sum64 uuid_text t (config_sharding cfg) xs s

  -- The calls of `Count`, one after another, whatever each of them returns.
  unfoldable pub count_all : (ℕ → Option HotConfig) → List Delivery → r.Store → r.Store
  count_all lookup [] s = s
  count_all lookup (d ∷ ds) s =
      count_all lookup ds
        (count floats r sum64 uuid_text t lookup d.deadline d.pokes d.msg d.turns s).store

  abbrev attempts_as : HotConfig → VoteMessage → List Turn → r.Store → Result VoterId → List Attempt
  attempts_as cfg msg turns s (err e) = []
  attempts_as cfg msg turns s (ok v) =
      made floats r sum64 uuid_text t (config_sharding cfg) v msg.choices turns s

  -- The attempts of one call: none for a message that is refused.
  unfoldable pub attempts : HotConfig → VoteMessage → List Turn → r.Store → List Attempt
  attempts cfg msg turns s =
      if contains cfg.window msg.produced_at
      then attempts_as cfg msg turns s (parse_voter_id msg.voter_id)
      else []

  unfoldable pub all_attempts : HotConfig → List Delivery → r.Store → List Attempt
  all_attempts cfg [] s = []
  all_attempts cfg (d ∷ ds) s =
      let xs = attempts cfg d.msg d.turns s in xs ++ all_attempts cfg ds (run cfg xs s)

  finish-store : (p : Progress r.Store) → (finish floats r sum64 uuid_text t p).store ≡ p.store
  unfolding finish
  finish-store p = ground arith

  count_for-store :
      (cfg : HotConfig) (msg : VoteMessage) (turns : List Turn) (s : r.Store)
      → (count_for floats r sum64 uuid_text t cfg msg turns s).store
        ≡ run cfg (attempts cfg msg turns s) s
  unfolding count_for attempts process
  count_for-store cfg msg turns s = elim (Bool-cases (contains cfg.window msg.produced_at)) [
    | inr out ↦ rw out refl
    | inl inside ↦ elim (Result-cases (parse_voter_id msg.voter_id)) [
      | inr (e, bad) ↦ rw (inside, bad) refl
      | inl (v, parsed) ↦
          rw (inside, parsed)
            (finish-store (apply_with_retry floats r sum64 uuid_text t cfg v msg.choices turns s)
              ∙ (retry-deliveries floats r sum64 uuid_text t cfg v msg.choices turns s).0)
    ]
  ]

  count_all-run :
      (lookup : ℕ → Option HotConfig) (cfg : HotConfig) (ds : List Delivery) (s : r.Store)
      → All (λ (d : Delivery). lookup d.msg.poll_id ≡ some cfg) ds
      → count_all lookup ds s ≡ run cfg (all_attempts cfg ds s) s
  unfolding count_all all_attempts process
  count_all-run lookup cfg [] s h = refl
  count_all-run lookup cfg (d ∷ ds) s h =
      let xs = attempts cfg d.msg d.turns s in
      let after : (count floats r sum64 uuid_text t lookup d.deadline d.pokes d.msg d.turns s).store
          ≡ run cfg xs s =
        ap (λ (c : Counted floats r sum64 uuid_text t). c.store)
          (count-found floats r sum64 uuid_text t lookup d.deadline d.pokes d.msg d.turns s h.0)
        ∙ count_for-store cfg d.msg d.turns s in
      ap (λ x. count_all lookup ds x) after
      ∙ count_all-run lookup cfg ds (run cfg xs s) h.1
      ∙ sym (
          process-append floats r sum64 uuid_text t (config_sharding cfg) xs
            (all_attempts cfg ds (run cfg xs s)) s)

module _ (floats : Floats) (r : Server) (sum64 : List ℕ → ℕ) (uuid_text : ℕ → Text) (t : Tally)
    (redis : IsRedis r) (uuids : IsUuidText uuid_text) (fits : TruncFits floats) where
  -- A stream of messages counts every voter once. On a store without a counted vote of the poll, let messages
  -- of the poll be counted one after another, repeated or not, each with its retries, where the attempts on
  -- the server come in order of time, by voter ids of 16 bytes, and while dedup keys live. Then at the horizon
  -- every field of every shard's counter has grown by what the counted attempts name, no voter is counted
  -- twice, and every voter is counted of whom an attempt reached the script.
  count_all-once :
      (lookup : ℕ → Option HotConfig) (cfg : HotConfig) (horizon now : ℕ) (base : ℕ → Text → ℕ)
      (ds : List Delivery) (s : r.Store)
      → All (λ (d : Delivery). lookup d.msg.poll_id ≡ some cfg) ds
      → Untouched floats r sum64 uuid_text t (config_sharding cfg) horizon now base s
      → Timely floats r sum64 uuid_text t
          (config_sharding cfg)
          horizon
          now
          (all_attempts floats r sum64 uuid_text t cfg ds s)
      → let xs = all_attempts floats r sum64 uuid_text t cfg ds s in
        let ys = counted sum64 (config_sharding cfg) [] xs in
        ((shard : ℕ) (f : Text)
          → r.field
              (counter_key uuid_text cfg.id shard)
              f
              horizon
              (count_all floats r sum64 uuid_text t lookup ds s)
            ≡ base shard f + total sum64 (config_sharding cfg) ys shard f)
        × CountedOnce sum64 (config_sharding cfg) [] ys
        × All
            (λ a.
              reaches sum64 (config_sharding cfg) a ≡ true
              → text_in a.voter (voters sum64 (config_sharding cfg) ys) ≡ true)
            xs
  count_all-once lookup cfg horizon now base ds s h u ti =
      let xs = all_attempts floats r sum64 uuid_text t cfg ds s in
      let (reads, once, all) =
        exactly_once floats r sum64 uuid_text t (config_sharding cfg) redis uuids fits horizon now
          base xs s u ti in
      (
        λ shard f.
            ap (λ x. r.field (counter_key uuid_text cfg.id shard) f horizon x)
              (count_all-run floats r sum64 uuid_text t lookup cfg ds s h)
            ∙ unfold config_sharding in reads shard f,
        once,
        all,
      )
