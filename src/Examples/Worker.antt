-- ===== src/Examples/Worker.antt =====
-- Examples of the queue's consumer.
use televote.Prelude.{
  ℕ, ◌+◌, ◌≤◌, ◌≡◌, ◌⊎◌, refl, Bool, true, false, List, [], ◌∷◌, Option, none, some, All, arith,
  length, sym, subst,
}
use televote.Prelude.Text.{Text, byte_len}
use televote.Errors.{Result, ok, err, breaker_open}
use televote.Domain.Poll.{Time, VoteMessage}
use televote.Domain.Window.{contains}
use televote.Domain.Voter.{hex, parse_voter_id, decode}
use televote.PollCfg.{HotConfig, config_sharding}
use televote.Redis.Keys.{counter_key}
use televote.Redis.Server.Memory.{
  memory, memory-IsRedis, empty_store, empty_store-exists, empty_store-field,
}
use televote.Redis.Tally.{delivered, ttl_seconds_for, jittered, seconds_of}
use televote.Redis.Tally.Ledger.{Attempt, counted, total, CountedOnce}
use televote.Redis.Tally.Once.{Timely, Untouched}
use televote.Counting.{await_config, retryable, execute}
use televote.Worker.{
  Entry, begin, again, Act, look, call, Event, launch, act, under, settle, launch_in, drained,
  batch_of, move, moved, step, run,
}
use televote.Worker.Slots.{count_all, run-bounded}
use televote.Worker.Slots
use televote.Worker.Ends.{Answered, work, run-ends}
use televote.Worker.Jobs.{Sent, EventFinds}
use televote.Worker.Trail.{trail}
use televote.Worker.Once.{Acknowledged, run-once}
use televote.Examples.{
  whole, whole-TruncFits, uuid_text, uuid_text-IsUuidText, hash, ann, ann-IsVoterId, bob,
  bob-IsVoterId, tally, config,
}

abbrev pub message : List ℕ → List ℕ → VoteMessage
message voter choices = record {
  poll_id = 7;
  voter_id = hex voter;
  choices = choices;
  produced_at = 151;
}

abbrev pub records : List Entry
records = some (message ann (0 ∷ 2 ∷ [])) ∷ some (message bob (1 ∷ [])) ∷ none ∷ []

abbrev call_at : Time → Act
call_at at = call (record { gate = none; link = delivered; at = at; cancelled = none })

abbrev refused_at : Time → Act
refused_at at =
    call (record { gate = some breaker_open; link = delivered; at = at; cancelled = none })

-- Two slots: the third record waits until one of the first two has ended.
abbrev pub schedule : List Event
schedule =
    launch
    ∷ launch
    ∷ launch
    ∷ act 0 (look (some config) 1000 [])
    ∷ act 1 (look (some config) 1000 [])
    ∷ act 1 (refused_at 9)
    ∷ act 1 (call_at 10)
    ∷ act 0 (call_at 12)
    ∷ []

run-bounded_example :
    let b = run whole memory hash uuid_text tally 2 schedule (batch_of records false empty_store) in
    (length b.running ≤ 2)
    × ((p : Entry → Bool) → count_all p b ≡ Slots.count p records)
    × ((b.cancelled ≡ true) ⊎ (b.skipped ≡ []))
run-bounded_example =
    run-bounded whole memory hash uuid_text tally 2 schedule records false empty_store

by_number : ℕ → Option HotConfig
by_number i = some config

run-ends_example :
    let b = batch_of records false empty_store in
    (events : List Event) × (length events ≤ work b)
    × All Answered events
    × (drained (run whole memory hash uuid_text tally 2 events b) ≡ true)
    × ((run whole memory hash uuid_text tally 2 events b).skipped ≡ b.skipped)
run-ends_example =
    run-ends whole memory hash uuid_text tally by_number 2 (batch_of records false empty_store)
      (omega arith)

abbrev calls : List Attempt
calls =
    record { voter = ann; choices = 0 ∷ 2 ∷ []; link = delivered; at = 10 }
    ∷ record { voter = bob; choices = 1 ∷ []; link = delivered; at = 12 }
    ∷ []

schedule-trail :
    trail whole memory hash uuid_text tally 2 schedule (batch_of records false empty_store) ≡ calls
unfolding trail batch_of step launch_in moved under move begin again settle await_config contains
    parse_voter_id decode hex byte_len execute retryable televote.Errors.is
schedule-trail = refl

schedule-Timely :
    Timely whole memory hash uuid_text tally
      (config_sharding config)
      50
      5
      (trail whole memory hash uuid_text tally 2 schedule (batch_of records false empty_store))
unfolding ttl_seconds_for jittered seconds_of
schedule-Timely =
    subst (Timely whole memory hash uuid_text tally (config_sharding config) 50 5)
      (sym schedule-trail)
      (
        (omega arith, omega arith, ann-IsVoterId, omega arith),
        ((omega arith, omega arith, bob-IsVoterId, omega arith), omega arith),
      )

abbrev no_votes : ℕ → Text → ℕ
no_votes shard f = 0

fresh-Untouched :
    Untouched whole memory hash uuid_text tally (config_sharding config) 50 5 no_votes empty_store
fresh-Untouched = record {
  no_keys = λ v n hv a b. empty_store-exists _ n;
  counters = λ shard f n a b. empty_store-field _ f n;
}

config_found : (c : HotConfig) → some config ≡ some c → c ≡ config
config_found c e = cc

schedule-EventFinds : All (EventFinds config) schedule
schedule-EventFinds =
    (tt, (tt, (tt, ((config_found, tt), ((config_found, tt), (tt, (tt, (tt, tt))))))))

run-once_example :
    let b = run whole memory hash uuid_text tally 2 schedule (batch_of records false empty_store) in
    let ys =
      counted hash
        (config_sharding config)
        []
        (trail whole memory hash uuid_text tally 2 schedule (batch_of records false empty_store)) in
    ((shard : ℕ) (f : Text)
      → memory.field (counter_key uuid_text 7 shard) f 50 b.store
        ≡ 0 + total hash (config_sharding config) ys shard f)
    × CountedOnce hash (config_sharding config) [] ys
    × All (Sent records) ys
    × All (Acknowledged hash (config_sharding config) ys) b.ended
run-once_example =
    run-once whole memory hash uuid_text tally memory-IsRedis uuid_text-IsUuidText whole-TruncFits
      config 2 schedule records false 50 5 no_votes empty_store schedule-EventFinds fresh-Untouched
      schedule-Timely
