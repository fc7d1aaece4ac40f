-- ===== src/Examples/Consumer.antt =====
-- Examples of the loop of the consumer.
use televote.Examples.Worker.{message, records, schedule}
use televote.Prelude.{
  ℕ, ◌+◌, ◌≤◌, ◌≡◌, ◌⊎◌, inl, inr, refl, Bool, true, false, List, [], ◌∷◌, ◌++◌, none, some,
  if◌then◌else◌, take, drop,
}
use televote.Redis.Server.Memory.{memory, empty_store}
use televote.Worker.{
  Entry, look, Event, launch, act, under, settle, launch_in, drained, batch_of, move, moved, step,
  run,
}
use televote.Worker.Loop.{
  Kafka, IsKafka, Round, polled, failed, restart, Consumer, consume, consume_all,
}
use televote.Worker.Slots.{count_all, run-bounded}
use televote.Worker.Slots
use televote.Worker.Commit.{final_entries, committed-final}
use televote.Worker.Fetch.{errors-drop}
use televote.Examples.{whole, uuid_text, hash, ann, tally, config}

record Offsets : Type 0 where
  next : ℕ
  stored : ℕ

-- A group whose commits succeed when they are told to and their context is not done.
abbrev group : Kafka
group = record {
  State = Offsets;
  position = λ o. o.next;
  committed = λ o. o.stored;
  poll_fetches = λ n o. record o { next = o.next + n };
  commit =
      λ done answers o. if done then o else if answers then record o { stored = o.next } else o;
  take_over = λ o. record o { next = o.stored };
}

stores :
    (done answers : Bool) (o : Offsets)
    → (group.committed (group.commit done answers o) ≡ o.stored)
      ⊎ (group.committed (group.commit done answers o) ≡ o.next)
stores true answers o = inl refl
stores false true o = inr refl
stores false false o = inl refl

keeps_place :
    (done answers : Bool) (o : Offsets) → group.position (group.commit done answers o) ≡ o.next
keeps_place true answers o = refl
keeps_place false true o = refl
keeps_place false false o = refl

group-IsKafka : IsKafka group
group-IsKafka = record {
  polled_position = λ n o. refl;
  polled_committed = λ n o. refl;
  commit_position = keeps_place;
  commit_stores = stores;
  commit_done = λ answers o. refl;
  taken_position = λ o. refl;
  taken_committed = λ o. refl;
}

abbrev start : Offsets
start = record { next = 0; stored = 0 }

abbrev one_malformed : List Event
one_malformed = launch ∷ act 0 (look none 0 []) ∷ []

-- A batch in the middle of which the process ends, and two that another one handles.
abbrev rounds : List Round
rounds =
    polled 2 (launch ∷ act 0 (look (some config) 1000 []) ∷ []) true
    ∷ restart
    ∷ failed 0 false
    ∷ polled 2 schedule true
    ∷ polled 1 one_malformed true
    ∷ []

abbrev any_entry : Entry → Bool
any_entry x = true

committed-final_example :
    let c =
      consume_all whole memory hash uuid_text tally group 2 records rounds
        (record { client = start; stopped = false; ended = []; store = empty_store }) in
    Slots.count any_entry (take (group.committed c.client) records)
    ≤ Slots.count any_entry (final_entries c.ended)
committed-final_example =
    committed-final whole memory hash uuid_text tally group group-IsKafka 2 records start
      empty_store rounds refl refl (tt, (tt, (refl, (tt, (tt, tt))))) any_entry

-- The first record is fetched with an error, and the second is malformed.
abbrev two_records : List Entry
two_records = some (message ann (0 ∷ 2 ∷ [])) ∷ none ∷ []

abbrev loop : Consumer group memory.Store
loop = record { client = start; stopped = false; ended = []; store = empty_store }

malformed_drained :
    drained (
      run whole memory hash uuid_text tally 2 one_malformed
        (batch_of (take 1 (drop (0 + 1) two_records)) false empty_store))
    ≡ true
unfolding run batch_of step launch_in moved under move settle
malformed_drained = refl

malformed_commits :
    (o : Offsets)
    → group.committed (
        group.commit
          (run whole memory hash uuid_text tally 2 one_malformed
            (batch_of (take 1 (drop (0 + 1) two_records)) false empty_store)).cancelled
          true
          o)
      ≡ o.next
unfolding run batch_of step launch_in moved under move settle
malformed_commits o = refl

errors-drop_example :
    let b =
      run whole memory hash uuid_text tally 2 one_malformed
        (batch_of (take 1 (drop (0 + 1) two_records)) false empty_store) in
    let d =
      consume whole memory hash uuid_text tally group 2 two_records
        (polled 1 one_malformed true)
        (consume whole memory hash uuid_text tally group 2 two_records (failed 1 false) loop) in
    (group.committed d.client ≡ 0 + 1 + 1) × (d.ended ≡ b.ended ++ [])
errors-drop_example =
    errors-drop whole memory hash uuid_text tally group group-IsKafka 2 two_records 1 1
      one_malformed true loop refl malformed_drained malformed_commits
