-- ===== src/Worker/Loop.antt =====
-- internal/worker/kafka/consumer.go: the loop of `Run` over one partition. The Kafka client is a library, and here an
-- interface with its documented behaviour as laws.
use televote.Worker.{Entry, End, Event, Batch, run, batch_of, drained}
use televote.Prelude.{
  ℕ, ◌+◌, ◌≡◌, ◌⊎◌, Bool, true, false, List, [], ◌∷◌, ◌++◌, if◌then◌else◌, take, drop,
}
use televote.Prelude.Text.{Text}
use televote.Floats.{Floats}
use televote.Redis.Server.{Server}
use televote.Redis.Tally.{Tally}

-- What the loop of `Run` uses of the client: the next offset of the partition that a poll fetches, and the
-- offset that is committed for the group.
pub record Kafka : Type 1 where
  pub State : Type 0
  pub position : State → ℕ
  pub committed : State → ℕ
  pub poll_fetches : ℕ → State → State
  -- `CommitUncommittedOffsets`, given whether its context is done and what else it meets.
  pub commit : Bool → Bool → State → State
  -- Another process of the group takes over the partition.
  pub take_over : State → State

-- The documented behaviour: a poll moves the position past what it fetches; a commit stores the position, or
-- fails and stores nothing, as it does when its context is done; a new owner starts at the committed offset.
pub record IsKafka (k : Kafka) : Type 0 where
  pub polled_position : (n : ℕ) (s : k.State) → k.position (k.poll_fetches n s) ≡ k.position s + n
  pub polled_committed : (n : ℕ) (s : k.State) → k.committed (k.poll_fetches n s) ≡ k.committed s
  pub commit_position : (c a : Bool) (s : k.State) → k.position (k.commit c a s) ≡ k.position s
  pub commit_stores :
      (c a : Bool) (s : k.State)
      → (k.committed (k.commit c a s) ≡ k.committed s)
        ⊎ (k.committed (k.commit c a s) ≡ k.position s)
  pub commit_done : (a : Bool) (s : k.State) → k.committed (k.commit true a s) ≡ k.committed s
  pub taken_position : (s : k.State) → k.position (k.take_over s) ≡ k.committed s
  pub taken_committed : (s : k.State) → k.committed (k.take_over s) ≡ k.committed s

-- What the loop of `Run` meets next: a poll that fetches so many records and no error, with the events of their
-- batch and what the commit meets; a poll with errors, and whether one of them, or the context, stops the
-- loop; or the end of the process, in whose place another takes over.
pub data Round : Type 0 where
  polled : ℕ → List Event → Bool → Round
  failed : ℕ → Bool → Round
  restart : Round

-- The loop of `Run`, with all that has ended so far in this process or an earlier one.
pub record Consumer (k : Kafka) (S : Type 0) : Type 0 where
  pub client : k.State
  pub stopped : Bool
  pub ended : List End
  pub store : S

module _ (floats : Floats) (r : Server) (sum64 : List ℕ → ℕ) (uuid_text : ℕ → Text) (t : Tally)
    (k : Kafka) (workers : ℕ) (log : List Entry) where
  -- After `handleBatch`, if it returns. Otherwise the process has gone meanwhile.
  unfoldable pub after_batch :
      Bool → ℕ → Bool → Batch r.Store → Consumer k r.Store → Consumer k r.Store
  after_batch true n answer b c = record {
    client = k.commit b.cancelled answer (k.poll_fetches n c.client);
    stopped = b.cancelled;
    ended = b.ended ++ c.ended;
    store = b.store;
  }
  after_batch false n answer b c = record {
    client = k.take_over c.client;
    stopped = false;
    ended = b.ended ++ c.ended;
    store = b.store;
  }

  -- One round of the loop over a partition; a loop that has stopped does nothing.
  unfoldable pub consume : Round → Consumer k r.Store → Consumer k r.Store
  consume (polled n es answer) c =
      let records = take n (drop (k.position c.client) log) in
      let b = run floats r sum64 uuid_text t workers es (batch_of records false c.store) in
      if c.stopped then c else after_batch (drained b) n answer b c
  consume (failed n stops) c =
      if c.stopped then c else record c { client = k.poll_fetches n c.client; stopped = stops }
  consume restart c = record c { client = k.take_over c.client; stopped = false }

  unfoldable pub consume_all : List Round → Consumer k r.Store → Consumer k r.Store
  consume_all [] c = c
  consume_all (x ∷ xs) c = consume_all xs (consume x c)
