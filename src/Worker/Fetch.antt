-- ===== src/Worker/Fetch.antt =====
-- What becomes of the records that a poll fetches together with an error.
use televote.Prelude.{
  ℕ, ◌+◌, ◌≡◌, refl, Bool, true, false, List, ◌++◌, take, drop, sym, ap, subst, ◌∙◌, if◌then◌else◌,
}
use televote.Prelude.Text.{Text}
use televote.Floats.{Floats}
use televote.Redis.Server.{Server}
use televote.Redis.Tally.{Tally}
use televote.Worker.{Entry, Event, Batch, batch_of, drained, run}
use televote.Worker.Loop.{Kafka, IsKafka, polled, failed, Consumer, after_batch, consume}

module _ (floats : Floats) (r : Server) (sum64 : List ℕ → ℕ) (uuid_text : ℕ → Text) (t : Tally)
    (k : Kafka) (kafka : IsKafka k) (workers : ℕ) (log : List Entry) where
  abbrev Loop : Type 0
  Loop = Consumer k r.Store

  failed_lem :
      (n : ℕ) (c : Loop)
      → c.stopped ≡ false
      → consume floats r sum64 uuid_text t k workers log (failed n false) c
        ≡ record c { client = k.poll_fetches n c.client; stopped = false }
  unfolding consume
  failed_lem n c going =
      ap (λ b. if b then c else record c { client = k.poll_fetches n c.client; stopped = false })
        going

  abbrev batch_at : ℕ → ℕ → List Event → Loop → Batch r.Store
  batch_at q m es c =
      run floats r sum64 uuid_text t workers es (batch_of (take m (drop q log)) false c.store)

  polled_lem :
      (m : ℕ) (es : List Event) (answer : Bool) (c : Loop)
      → c.stopped ≡ false
      → drained (batch_at (k.position c.client) m es c) ≡ true
      → consume floats r sum64 uuid_text t k workers log (polled m es answer) c
        ≡ after_batch floats r sum64 uuid_text t k workers log true m answer
            (batch_at (k.position c.client) m es c)
            c
  unfolding consume
  polled_lem m es answer c going done =
      let b = batch_at (k.position c.client) m es c in
      ap
        (λ s.
          if s
          then c
          else after_batch floats r sum64 uuid_text t k workers log (drained b) m answer b c)
        going
      ∙ ap (λ d. after_batch floats r sum64 uuid_text t k workers log d m answer b c) done

  abbrev Commits : Bool → Batch r.Store → Type 0
  Commits answer b = (s : k.State) → k.committed (k.commit b.cancelled answer s) ≡ k.position s

  next_round :
      (q m : ℕ) (es : List Event) (answer : Bool) (c : Loop)
      → c.stopped ≡ false
      → k.position c.client ≡ q
      → drained (batch_at q m es c) ≡ true
      → Commits answer (batch_at q m es c)
      → let d = consume floats r sum64 uuid_text t k workers log (polled m es answer) c in
        (k.committed d.client ≡ q + m) × (d.ended ≡ (batch_at q m es c).ended ++ c.ended)
  unfolding after_batch
  next_round q m es answer c going at done commits =
      let here = subst (λ x. drained (batch_at x m es c) ≡ true) (sym at) done in
      let passed = subst (λ x. Commits answer (batch_at x m es c)) (sym at) commits in
      let made = polled_lem m es answer c going here in
      (
        ap (λ (x : Loop). k.committed x.client) made
            ∙ passed (k.poll_fetches m c.client)
            ∙ kafka.polled_position m c.client
            ∙ ap (λ x. x + m) at,
        ap (λ (x : Loop). x.ended) made ∙ ap (λ x. (batch_at x m es c).ended ++ c.ended) at,
      )

  -- Records that come with an error are lost. When a poll fetches `n` records and reports an error that does
  -- not stop the loop, and the batch of the next poll is handled and committed, then the committed offset has
  -- moved past the `n` records too, and nothing has ended but the records of the second poll.
  pub errors-drop :
      (n m : ℕ) (es : List Event) (answer : Bool) (c : Loop)
      → let b =
          run floats r sum64 uuid_text t workers es
            (batch_of (take m (drop (k.position c.client + n) log)) false c.store) in
        c.stopped ≡ false
        → drained b ≡ true
        → ((s : k.State) → k.committed (k.commit b.cancelled answer s) ≡ k.position s)
        → let d =
            consume floats r sum64 uuid_text t k workers log
              (polled m es answer)
              (consume floats r sum64 uuid_text t k workers log (failed n false) c) in
          (k.committed d.client ≡ k.position c.client + n + m) × (d.ended ≡ b.ended ++ c.ended)
  errors-drop n m es answer c going done commits =
      let passed =
        next_round (k.position c.client + n) m es answer
          (record c { client = k.poll_fetches n c.client; stopped = false }) refl
          (kafka.polled_position n c.client) done commits in
      let made = failed_lem n c going in
      (
        ap
              (λ x.
                k.committed
                  (consume floats r sum64 uuid_text t k workers log (polled m es answer) x).client)
              made
            ∙ passed.0,
        ap (λ x. (consume floats r sum64 uuid_text t k workers log (polled m es answer) x).ended)
              made
            ∙ passed.1,
      )
