-- ===== src/Redis/Tally/Once.antt =====
-- Any sequence of deliveries counts every voter once: lost replies, retries and redeliveries included.
use televote.Prelude.{
  ℕ, ◌+◌, ◌≤◌, ◌<◌, ◌≡◌, refl, true, false, List, [], ◌∷◌, ◌++◌, arith, sym, ap, ◌∙◌, All, All-imp,
}
use mathlib.Core.List.{append-nil}
use televote.Prelude.Text.{Text}
use televote.Floats.{Floats}
use televote.Domain.Poll.{Sharding}
use televote.Domain.Voter.{VoterId, text_in}
use televote.Domain.Voter.Hex.{IsVoterId}
use televote.Redis.Server.{Server, IsRedis}
use televote.Redis.Keys.{counter_key, dedup_key}
use televote.Redis.Keys.Slots.{IsUuidText}
use televote.Redis.Tally.{Tally, apply, ttl_seconds_for}
use televote.Redis.Tally.Apply.{TruncFits, Holds, attempt-Holds}
use televote.Redis.Tally.Ledger.{
  Attempt, reaches, counts_now, seen_after, base_after, shard_of, counted, total, total-if, voters,
  CountedOnce, counted-CountedOnce, counted-nothing, seen_all, counted-append, from_start,
  seen_all-covers,
}

module _ (floats : Floats) (r : Server) (sum64 : List ℕ → ℕ) (uuid_text : ℕ → Text) (t : Tally)
    (target : Sharding) where
  -- The votes of one poll, one delivery after another, whatever each of them returns.
  unfoldable pub process : List Attempt → r.Store → r.Store
  process [] s = s
  process (a ∷ xs) s =
      process xs (apply floats r sum64 uuid_text t target a.voter a.choices a.link a.at s).1

  pub process-append :
      (xs ys : List Attempt) (s : r.Store) → process (xs ++ ys) s ≡ process ys (process xs s)
  unfolding process
  process-append [] ys s = refl
  process-append (x ∷ xs) ys s = process-append xs ys _

  -- The deliveries come in order of time, from `now` on, and every dedup key outlives the horizon.
  abbrev pub Timely : ℕ → ℕ → List Attempt → Type 0
  Timely horizon now [] = now ≤ horizon
  Timely horizon now (a ∷ xs) =
      ((now ≤ a.at)
        × (a.at ≤ horizon)
        × IsVoterId a.voter
        × (horizon < a.at + ttl_seconds_for floats sum64 t a.voter))
      × Timely horizon a.at xs

  -- No vote of the poll has been counted, and its counters read as `base` up to the horizon.
  pub record Untouched (horizon now : ℕ) (base : ℕ → Text → ℕ) (s : r.Store) : Type 0 where
    pub no_keys :
        (v : VoterId) (n : ℕ)
        → IsVoterId v
        → now ≤ n
        → n ≤ horizon
        → r.exists (dedup_key uuid_text target.poll_id (shard_of sum64 target v) v) n s ≡ false
    pub counters :
        (shard : ℕ) (f : Text) (n : ℕ)
        → now ≤ n
        → n ≤ horizon
        → r.field (counter_key uuid_text target.poll_id shard) f n s ≡ base shard f

module _ (floats : Floats) (r : Server) (sum64 : List ℕ → ℕ) (uuid_text : ℕ → Text) (t : Tally)
    (target : Sharding) (redis : IsRedis r) (uuids : IsUuidText uuid_text)
    (fits : TruncFits floats) where
  abbrev Right : ℕ → List VoterId → (ℕ → Text → ℕ) → ℕ → r.Store → Type 0
  Right = Holds floats r sum64 uuid_text t target redis uuids fits

  process_Holds :
      (horizon : ℕ) (seen : List VoterId) (base : ℕ → Text → ℕ) (now : ℕ) (xs : List Attempt)
      (s : r.Store)
      → Right horizon seen base now s
      → Timely floats r sum64 uuid_text t target horizon now xs
      → (shard : ℕ) (f : Text)
      → r.field
          (counter_key uuid_text target.poll_id shard)
          f
          horizon
          (process floats r sum64 uuid_text t target xs s)
        ≡ base shard f + total sum64 target (counted sum64 target seen xs) shard f
  unfolding process counted total
  process_Holds horizon seen base now [] s h ti shard f =
      omega (arith, h.reads shard f horizon ti (omega arith))
  process_Holds horizon seen base now (a ∷ xs) s h ti shard f =
      let step =
        attempt-Holds floats r sum64 uuid_text t target redis uuids fits horizon seen base now a s h
          (record { voter = ti.0.2; later = ti.0.0; by_horizon = ti.0.1; outlives = ti.0.3 }) in
      process_Holds horizon (seen_after sum64 target seen a) (base_after sum64 target base seen a)
        a.at xs _ step ti.1 shard f
      ∙ total-if sum64 target (counts_now sum64 target seen a) a
          (counted sum64 target (seen_after sum64 target seen a) xs) (base shard f) shard f

  -- Exactly once. Let votes of a poll be delivered one after another, in order of time and while dedup keys
  -- live, some of them never reaching the server, some answered, some run with their reply lost. Then every
  -- field of every shard's counter has grown by what the counted votes name, where no voter is counted
  -- twice, and every voter is counted of whom some delivery reached the script.
  pub exactly_once :
      (horizon now : ℕ) (base : ℕ → Text → ℕ) (xs : List Attempt) (s : r.Store)
      → Untouched floats r sum64 uuid_text t target horizon now base s
      → Timely floats r sum64 uuid_text t target horizon now xs
      → ((shard : ℕ) (f : Text)
          → r.field
              (counter_key uuid_text target.poll_id shard)
              f
              horizon
              (process floats r sum64 uuid_text t target xs s)
            ≡ base shard f + total sum64 target (counted sum64 target [] xs) shard f)
        × CountedOnce sum64 target [] (counted sum64 target [] xs)
        × All
            (λ a.
              reaches sum64 target a ≡ true
              → text_in a.voter (voters sum64 target (counted sum64 target [] xs)) ≡ true)
            xs
  exactly_once horizon now base xs s u ti = (
    process_Holds horizon [] base now xs s
        (record {
          known = λ v n hv a b. unfold text_in in u.no_keys v n hv a b;
          reads = u.counters;
        })
        ti,
    counted-CountedOnce sum64 target [] xs,
    All-imp xs
        (λ a
            (h : reaches sum64 target a ≡ true
              → text_in a.voter (seen_all sum64 target [] xs) ≡ true)
            run.
          sym (from_start sum64 target a.voter xs) ∙ h run)
        (seen_all-covers sum64 target [] xs),
  )

  -- A redelivery is harmless: deliveries of voters who have been counted, as after a Kafka rebalance that
  -- replays a batch, leave every counter of the poll as it was.
  pub redelivery_harmless :
      (horizon now : ℕ) (base : ℕ → Text → ℕ) (xs ys : List Attempt) (s : r.Store)
      → Untouched floats r sum64 uuid_text t target horizon now base s
      → Timely floats r sum64 uuid_text t target horizon now xs
      → Timely floats r sum64 uuid_text t target horizon now (xs ++ ys)
      → All (λ a. text_in a.voter (voters sum64 target (counted sum64 target [] xs)) ≡ true) ys
      → (shard : ℕ) (f : Text)
      → r.field
          (counter_key uuid_text target.poll_id shard)
          f
          horizon
          (process floats r sum64 uuid_text t target (xs ++ ys) s)
        ≡ r.field
            (counter_key uuid_text target.poll_id shard)
            f
            horizon
            (process floats r sum64 uuid_text t target xs s)
  redelivery_harmless horizon now base xs ys s u ti tij again shard f =
      let nothing = counted-nothing sum64 target (seen_all sum64 target [] xs) ys (
        All-imp ys
          (λ a (h : text_in a.voter (voters sum64 target (counted sum64 target [] xs)) ≡ true).
            from_start sum64 target a.voter xs ∙ h)
          again) in
      (exactly_once horizon now base (xs ++ ys) s u tij).0 shard f
      ∙ ap (λ c. base shard f + total sum64 target c shard f)
          (counted-append sum64 target [] xs ys
            ∙ ap (◌++◌ (counted sum64 target [] xs)) nothing
            ∙ append-nil _)
      ∙ sym ((exactly_once horizon now base xs s u ti).0 shard f)
