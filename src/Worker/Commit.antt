-- ===== src/Worker/Commit.antt =====
-- At least once: no offset is committed before its record has come to an end.
use televote.Prelude.{
  ℕ, zero, suc, ◌+◌, ◌≤◌, ◌≡◌, refl, Bool, true, false, List, [], ◌∷◌, ◌++◌, map, arith, All,
  Bool-cases, inl, inr, if◌then◌else◌, is_nil, take, drop, sym, ap, ◌∙◌, and-elim,
}
use televote.Prelude.Text.{Text}
use televote.Floats.{Floats}
use televote.Redis.Server.{Server}
use televote.Redis.Tally.{Tally}
use televote.Worker.{Entry, Job, End, Event, Batch, batch_of, drained, run}
use televote.Worker.Loop.{
  Kafka, IsKafka, Round, polled, failed, restart, Consumer, after_batch, consume, consume_all,
}
use televote.Worker.Slots.{count, count_all, job_entry, end_entry, run-bounded}
use televote.Worker.Final.{is_final, Final, run-Final}

-- The records that have ended for good.
unfoldable pub final_entries : List End → List Entry
final_entries [] = []
final_entries (e ∷ es) =
    let rest = final_entries es in if is_final e then end_entry e ∷ rest else rest

count-append :
    (p : Entry → Bool) (xs ys : List Entry) → count p (xs ++ ys) ≡ count p xs + count p ys
unfolding count
count-append p [] ys = omega arith
count-append p (x ∷ xs) ys = omega (arith, count-append p xs ys)

add_zero : (n : ℕ) → n + 0 ≡ n
add_zero n = omega arith

take-nil {ℓ} : {A : Type ℓ} (n : ℕ) → take {A = A} n [] ≡ []
take-nil zero = refl
take-nil (suc n) = refl

take-add {ℓ} :
    {A : Type ℓ} (m n : ℕ) (xs : List A) → take (m + n) xs ≡ take m xs ++ take n (drop m xs)
take-add zero n xs = let e : 0 + n ≡ n = omega arith in rw e refl
take-add (suc m) n [] = let e : suc m + n ≡ suc (m + n) = omega arith in rw e (sym (take-nil n))
take-add (suc m) n (x ∷ xs) =
    let e : suc m + n ≡ suc (m + n) = omega arith in rw e (ap (◌∷◌ x) (take-add m n xs))

final-append : (xs ys : List End) → final_entries (xs ++ ys) ≡ final_entries xs ++ final_entries ys
unfolding final_entries
final-append [] ys = refl
final-append (x ∷ xs) ys = elim (Bool-cases (is_final x)) [
  | inl e ↦ rw e (ap (◌∷◌ (end_entry x)) (final-append xs ys))
  | inr e ↦ rw e (final-append xs ys)
]

Final-All : (es : List End) → All Final es → final_entries es ≡ map end_entry es
unfolding final_entries
Final-All [] h = refl
Final-All (e ∷ es) h = rw h.0 (ap (◌∷◌ (end_entry e)) (Final-All es h.1))

accounted :
    {S : Type 0} (p : Entry → Bool) (records : List Entry) (b : Batch S)
    → b.pending ≡ []
    → b.running ≡ []
    → b.skipped ≡ []
    → count_all p b ≡ count p records
    → count p (map end_entry b.ended) ≡ count p records
unfolding count
accounted p records b nothing idle left same = omega (
  arith,
  ap (count p) nothing,
  ap (λ (js : List Job). count p (map job_entry js)) idle,
  ap (count p) left,
  same,
)

-- A poll that reports errors fetches no record with them.
abbrev pub Clean : Round → Type 0
Clean (polled n es answer) = Unit {0}
Clean (failed n stops) = n ≡ 0
Clean restart = Unit {0}

module _ (floats : Floats) (r : Server) (sum64 : List ℕ → ℕ) (uuid_text : ℕ → Text)
    (t : Tally) where
  -- A batch that is handled while its context is alive has ended for good with each of its records.
  batch_final :
      (workers : ℕ) (es : List Event) (records : List Entry) (s : r.Store) (p : Entry → Bool)
      → let b = run floats r sum64 uuid_text t workers es (batch_of records false s) in
        b.cancelled ≡ false → drained b ≡ true → count p (final_entries b.ended) ≡ count p records
  batch_final workers es records s p alive done =
      let b = run floats r sum64 uuid_text t workers es (batch_of records false s) in
      let (few, same, left) = run-bounded floats r sum64 uuid_text t workers es records false s in
      let finals =
        run-Final floats r sum64 uuid_text t workers es (batch_of records false s)
          (unfold batch_of in tt) alive in
      let (nobody, none_runs) = and-elim (is_nil b.pending) (is_nil b.running) done in
      let nothing : b.pending ≡ [] = ground arith in
      let idle : b.running ≡ [] = ground arith in
      let nobody_left : b.skipped ≡ [] = elim left [
        | inl over ↦ absurd (cc)
        | inr none_left ↦ none_left
      ] in
      ap (count p) (Final-All b.ended finals)
      ∙ accounted p records b nothing idle nobody_left (same p)

  module _ (k : Kafka) (kafka : IsKafka k) (workers : ℕ) (log : List Entry) (p : Entry → Bool) where
    abbrev done_for_good : Consumer k r.Store → ℕ
    done_for_good c = count p (final_entries c.ended)

    -- What is committed has ended for good, and while the loop goes on what is polled has too.
    record Kept (c : Consumer k r.Store) : Type 0 where
      stored : count p (take (k.committed c.client) log) ≤ done_for_good c
      passed : c.stopped ≡ false → count p (take (k.position c.client) log) ≤ done_for_good c

    abbrev upto : ℕ → ℕ
    upto n = count p (take n log)

    upto-add : (m n : ℕ) → upto (m + n) ≡ upto m + count p (take n (drop m log))
    upto-add m n =
        ap (count p) (take-add m n log) ∙ count-append p (take m log) (take n (drop m log))

    module _ (n : ℕ) (answer : Bool) (b : Batch r.Store) (c : Consumer k r.Store) (h : Kept c)
        (going : c.stopped ≡ false) where
      ended_more :
          count p (final_entries (b.ended ++ c.ended))
          ≡ count p (final_entries b.ended) + done_for_good c
      ended_more =
          ap (count p) (final-append b.ended c.ended)
          ∙ count-append p (final_entries b.ended) (final_entries c.ended)

      gone-Kept : Kept (after_batch floats r sum64 uuid_text t k workers log false n answer b c)
      unfolding after_batch
      gone-Kept = record {
        stored = omega (arith, ap upto (kafka.taken_committed c.client), h.stored, ended_more);
        passed = λ e. omega (arith, ap upto (kafka.taken_position c.client), h.stored, ended_more);
      }

      module _
          (finals : b.cancelled ≡ false
            → count p (final_entries b.ended)
              ≡ count p (take n (drop (k.position c.client) log))) where
        moved_on :
            b.cancelled ≡ false
            → upto (k.position (k.poll_fetches n c.client))
              ≤ count p (final_entries (b.ended ++ c.ended))
        moved_on alive = omega (
          arith,
          ap upto (kafka.polled_position n c.client),
          upto-add (k.position c.client) n,
          finals alive,
          h.passed going,
          ended_more,
        )

        stored_after :
            upto (k.committed (k.commit b.cancelled answer (k.poll_fetches n c.client)))
            ≤ count p (final_entries (b.ended ++ c.ended))
        stored_after =
            let polled_state = k.poll_fetches n c.client in
            let kept = ap upto (kafka.polled_committed n c.client) in
            elim (Bool-cases b.cancelled) [
              | inl over ↦ rw over (
                  omega (
                    arith,
                    ap upto (kafka.commit_done answer polled_state),
                    kept,
                    h.stored,
                    ended_more,
                  ))
              | inr alive ↦ elim (kafka.commit_stores b.cancelled answer polled_state) [
                | inl fails ↦ omega (arith, ap upto fails, kept, h.stored, ended_more)
                | inr succeeds ↦ omega (arith, ap upto succeeds, moved_on alive)
              ]
            ]

        done-Kept : Kept (after_batch floats r sum64 uuid_text t k workers log true n answer b c)
        unfolding after_batch
        done-Kept = record {
          stored = stored_after;
          passed = λ alive. omega (
            arith,
            ap upto (kafka.commit_position b.cancelled answer (k.poll_fetches n c.client)),
            moved_on alive,
          );
        }

    unless-Kept :
        (stopped : Bool) (c d : Consumer k r.Store)
        → Kept c
        → (stopped ≡ false → Kept d)
        → Kept (if stopped then c else d)
    unless-Kept true c d h f = h
    unless-Kept false c d h f = f refl

    batch-Kept :
        (over : Bool) (n : ℕ) (answer : Bool) (b : Batch r.Store) (c : Consumer k r.Store)
        → Kept c
        → c.stopped ≡ false
        → (over ≡ true
            → b.cancelled ≡ false
            → count p (final_entries b.ended) ≡ count p (take n (drop (k.position c.client) log)))
        → Kept (after_batch floats r sum64 uuid_text t k workers log over n answer b c)
    batch-Kept true n answer b c h going finals = done-Kept n answer b c h going (finals refl)
    batch-Kept false n answer b c h going finals = gone-Kept n answer b c h going

    consume-Kept :
        (x : Round) (c : Consumer k r.Store)
        → Clean x
        → Kept c
        → Kept (consume floats r sum64 uuid_text t k workers log x c)
    unfolding consume
    consume-Kept (polled n es answer) c clean h =
        let records = take n (drop (k.position c.client) log) in
        let b = run floats r sum64 uuid_text t workers es (batch_of records false c.store) in
        unless-Kept c.stopped c _ h (λ going.
          batch-Kept (drained b) n answer b c h going
            (λ done alive. batch_final workers es records c.store p alive done))
    consume-Kept (failed n stops) c clean h = unless-Kept c.stopped c _ h (λ going. record {
      stored = omega (arith, ap upto (kafka.polled_committed n c.client), h.stored);
      passed = λ e. omega (
        arith,
        ap upto (kafka.polled_position n c.client),
        ap (λ m. upto (k.position c.client + m)) clean,
        ap upto (add_zero (k.position c.client)),
        h.passed going,
      );
    })
    consume-Kept restart c clean h = record {
      stored = omega (arith, ap upto (kafka.taken_committed c.client), h.stored);
      passed = λ e. omega (arith, ap upto (kafka.taken_position c.client), h.stored);
    }

    consume_all-Kept :
        (xs : List Round) (c : Consumer k r.Store)
        → All Clean xs
        → Kept c
        → Kept (consume_all floats r sum64 uuid_text t k workers log xs c)
    unfolding consume_all
    consume_all-Kept [] c clean h = h
    consume_all-Kept (x ∷ xs) c clean h =
        consume_all-Kept xs (consume floats r sum64 uuid_text t k workers log x c) clean.1
          (consume-Kept x c clean.0 h)

  -- At least once. Let the loop go through any rounds over a partition, its process stopping at any moment and
  -- another taking over, batches being cut off by the end of the context and commits failing, while polls
  -- that report errors fetch nothing. Then of the records below the committed offset with any property at
  -- most as many lie there as have ended for good: malformed, counted, or with an error that is
  -- neither of an unavailable store nor of the breaker. So no outage of the store costs a vote.
  pub committed-final :
      (k : Kafka) (kafka : IsKafka k) (workers : ℕ) (log : List Entry) (client : k.State)
      (s : r.Store) (rounds : List Round)
      → k.position client ≡ 0
      → k.committed client ≡ 0
      → All Clean rounds
      → (p : Entry → Bool)
      → let c =
          consume_all floats r sum64 uuid_text t k workers log rounds
            (record { client = client; stopped = false; ended = []; store = s }) in
        count p (take (k.committed c.client) log) ≤ count p (final_entries c.ended)
  unfolding count
  committed-final k kafka workers log client s rounds at stored clean p =
      (consume_all-Kept k kafka workers log p rounds
        (record { client = client; stopped = false; ended = []; store = s }) clean
        (record { stored = rw stored (omega arith); passed = λ e. rw at (omega arith) })).stored
