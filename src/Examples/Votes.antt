-- ===== src/Examples/Votes.antt =====
-- Examples of counting: deliveries, the script, and the sums over shards.
use televote.Prelude.{
  ℕ, ◌+◌, ◌^◌, ◌≤◌, ◌<◌, ◌≡◌, ◌≢◌, refl, Bool, true, false, List, [], ◌∷◌, ◌++◌, Option, none, some,
  All, arith, sym, ap, subst, ◌∙◌, ◌⊎◌, inl, inr, ◌==◌, ==_iff, Bool-cases,
}
use televote.Prelude.Text.{Text, codes, text_eq, text_eq_iff}
use televote.Prelude.Decimal.{format_uint}
use televote.Errors.{ok}
use televote.Domain.Voter.{text_in}
use televote.Redis.Server.Memory.{
  memory, memory-IsRedis, empty_store, empty_store-exists, empty_store-field,
}
use televote.Redis.Keys.{ballots_field, counter_key, dedup_key}
use televote.Redis.Keys.Slots.{keys-injective}
use televote.Redis.Aggregation.{answered, aggregate}
use televote.Redis.Aggregation.Shards.{IsCounter, shard_sum, aggregate_sums}
use televote.Domain.Aggregate.{Aggregate, get}
use televote.Prelude.Int.{pos}
use televote.Domain.Poll.{sharding_valid}
use televote.Redis.Fault.{no_reply}
use televote.Redis.Tally.{
  delivered, reply_lost, unsent, validate_vote, check_once, ttl_seconds_for, jittered, seconds_of,
}
use televote.Redis.Tally.Ledger.{Attempt, reaches}
use televote.Redis.Tally.Once.{process, Timely, Untouched, exactly_once, redelivery_harmless}
use televote.Redis.Tally.Ledger.{counted, total, voters, CountedOnce}
use televote.Examples.{
  whole, whole-TruncFits, uuid_text, uuid_text-IsUuidText, hash, ann, bob, ann-IsVoterId,
  bob-IsVoterId, target, tally,
}

-- Ann's vote is run with its reply lost and sent again; Bob's is lost on the way first.
abbrev deliveries : List Attempt
deliveries =
    record { voter = ann; choices = 0 ∷ 2 ∷ []; link = reply_lost (no_reply []); at = 10 }
    ∷ record { voter = bob; choices = 1 ∷ []; link = unsent (no_reply []); at = 11 }
    ∷ record { voter = ann; choices = 0 ∷ 2 ∷ []; link = delivered; at = 12 }
    ∷ record { voter = bob; choices = 1 ∷ []; link = delivered; at = 13 }
    ∷ []

abbrev again : List Attempt
again = record { voter = ann; choices = 0 ∷ 2 ∷ []; link = delivered; at = 20 } ∷ []

abbrev nothing : ℕ → Text → ℕ
nothing shard f = 0

empty-Untouched : Untouched whole memory hash uuid_text tally target 50 5 nothing empty_store
empty-Untouched = record {
  no_keys = λ v n hv a b. empty_store-exists _ n;
  counters = λ shard f n a b. empty_store-field _ f n;
}

deliveries-Timely : Timely whole memory hash uuid_text tally target 50 5 deliveries
unfolding ttl_seconds_for jittered seconds_of
deliveries-Timely = (
  (omega arith, omega arith, ann-IsVoterId, omega arith),
  (
    (omega arith, omega arith, bob-IsVoterId, omega arith),
    (
      (omega arith, omega arith, ann-IsVoterId, omega arith),
      ((omega arith, omega arith, bob-IsVoterId, omega arith), omega arith),
    ),
  ),
)

more-Timely : Timely whole memory hash uuid_text tally target 50 5 (deliveries ++ again)
unfolding ttl_seconds_for jittered seconds_of
more-Timely = (
  (omega arith, omega arith, ann-IsVoterId, omega arith),
  (
    (omega arith, omega arith, bob-IsVoterId, omega arith),
    (
      (omega arith, omega arith, ann-IsVoterId, omega arith),
      (
        (omega arith, omega arith, bob-IsVoterId, omega arith),
        ((omega arith, omega arith, ann-IsVoterId, omega arith), omega arith),
      ),
    ),
  ),
)

ann_counted : text_in ann (voters hash target (counted hash target [] deliveries)) ≡ true
unfolding text_in counted reaches validate_vote check_once televote.Domain.Poll.sharding_valid
    televote.Prelude.Text.text_eq
ann_counted = refl

exactly_once_example :
    ((shard : ℕ) (f : Text)
      → memory.field
          (counter_key uuid_text 7 shard)
          f
          50
          (process whole memory hash uuid_text tally target deliveries empty_store)
        ≡ 0 + total hash target (counted hash target [] deliveries) shard f)
    × CountedOnce hash target [] (counted hash target [] deliveries)
    × All
        (λ a.
          reaches hash target a ≡ true
          → text_in a.voter (voters hash target (counted hash target [] deliveries)) ≡ true)
        deliveries
exactly_once_example =
    exactly_once whole memory hash uuid_text tally target memory-IsRedis uuid_text-IsUuidText
      whole-TruncFits 50 5 nothing deliveries empty_store empty-Untouched deliveries-Timely

redelivery_harmless_example :
    memory.field
      (counter_key uuid_text 7 1)
      ballots_field
      50
      (process whole memory hash uuid_text tally target (deliveries ++ again) empty_store)
    ≡ memory.field
        (counter_key uuid_text 7 1)
        ballots_field
        50
        (process whole memory hash uuid_text tally target deliveries empty_store)
redelivery_harmless_example =
    redelivery_harmless whole memory hash uuid_text tally target memory-IsRedis uuid_text-IsUuidText
      whole-TruncFits 50 5 nothing deliveries again empty_store empty-Untouched deliveries-Timely
      more-Timely (ann_counted, tt) 1 ballots_field

keys-injective_example :
    (counter_key uuid_text 7 2 ≡ counter_key uuid_text 8 2 → (◌≡◌ {A = ℕ} 7 8) × (◌≡◌ {A = ℕ} 2 2))
    × (dedup_key uuid_text 7 2 ann ≡ dedup_key uuid_text 8 2 bob
        → (◌≡◌ {A = ℕ} 7 8) × (◌≡◌ {A = ℕ} 2 2) × (ann ≡ bob))
    × (dedup_key uuid_text 7 2 ann ≢ counter_key uuid_text 8 2)
keys-injective_example =
    keys-injective uuid_text uuid_text-IsUuidText 7 8 2 2 ann bob ann-IsVoterId bob-IsVoterId

-- A shard with one ballot in it.
abbrev one_ballot : memory.Store
one_ballot = memory.hincrby (counter_key uuid_text 7 0) ballots_field 5 empty_store

one_ballot-field :
    (shard : ℕ) (f : Text)
    → (memory.field (counter_key uuid_text 7 shard) f 5 one_ballot ≡ 0)
      ⊎ ((f ≡ ballots_field) × (memory.field (counter_key uuid_text 7 shard) f 5 one_ballot ≡ 1))
one_ballot-field shard f = elim (Bool-cases (shard == 0)) [
  | inr e ↦
      let apart : counter_key uuid_text 7 shard ≢ counter_key uuid_text 7 0 = λ q.
        let (_, same) =
          (keys-injective uuid_text uuid_text-IsUuidText 7 7 shard 0 ann ann ann-IsVoterId
              ann-IsVoterId).0
            q in
        absurd (cc (e, (==_iff shard 0).1 same)) in
      inl (
        (memory-IsRedis.hincrby_other (counter_key uuid_text 7 0) ballots_field 5 empty_store
            (counter_key uuid_text 7 shard) apart).1
          f 5
        ∙ empty_store-field _ f 5)
  | inl e ↦ elim (Bool-cases (text_eq f ballots_field)) [
    | inl same ↦ inr (
      (text_eq_iff f ballots_field).0 same,
      subst (λ x. memory.field (counter_key uuid_text 7 x) f 5 one_ballot ≡ 1)
          (sym ((==_iff shard 0).0 e))
          (subst (λ g. memory.field (counter_key uuid_text 7 0) g 5 one_ballot ≡ 1)
            (sym ((text_eq_iff f ballots_field).0 same))
            (memory-IsRedis.hincrby_self (counter_key uuid_text 7 0) ballots_field 5 empty_store
              ∙ ap (λ n. n + 1) (empty_store-field (counter_key uuid_text 7 0) ballots_field 5))),
    )
    | inr other ↦ inl (
        subst (λ x. memory.field (counter_key uuid_text 7 x) f 5 one_ballot ≡ 0)
          (sym ((==_iff shard 0).0 e))
          (memory-IsRedis.hincrby_field (counter_key uuid_text 7 0) ballots_field f 5 empty_store
              (λ q. cc (other, (text_eq_iff f ballots_field).1 q))
            ∙ empty_store-field (counter_key uuid_text 7 0) f 5))
  ]
]

one_ballot-IsCounter : IsCounter memory uuid_text memory-IsRedis 7 5 one_ballot
one_ballot-IsCounter = record {
  names = λ shard f counts. elim (one_ballot-field shard f) [
    | inl zero ↦ absurd (counts zero)
    | inr (name, _) ↦ inl name
  ];
  fits = λ shard f. elim (one_ballot-field shard f) [
    | inl e ↦ omega (arith, e)
    | inr (_, e) ↦ omega (arith, e)
  ];
}

one_ballot-small :
    (shard : ℕ) (f : Text) → memory.field (counter_key uuid_text 7 shard) f 5 one_ballot ≤ 1
one_ballot-small shard f = elim (one_ballot-field shard f) [
  | inl e ↦ omega (arith, e)
  | inr (_, e) ↦ omega (arith, e)
]

one_ballot-sum :
    (f : Text) → shard_sum memory uuid_text memory-IsRedis 7 5 one_ballot 3 0 f < 2 ^ 63
unfolding shard_sum
one_ballot-sum f = omega (arith, one_ballot-small 0 f, one_ballot-small 1 f, one_ballot-small 2 f)

target_valid : sharding_valid target ≡ true
unfolding sharding_valid
target_valid = refl

aggregate_sums_example :
    (a : Aggregate) × (aggregate memory uuid_text
        (record { poll_id = 7; shard_count = 3 })
        (λ k. answered)
        5
        one_ballot
      ≡ ok a)
    × ((i : ℕ)
        → get a.votes i
          ≡ pos (shard_sum memory uuid_text memory-IsRedis 7 5 one_ballot 3 0 (format_uint i)))
    × (a.ballots ≡ pos (shard_sum memory uuid_text memory-IsRedis 7 5 one_ballot 3 0 ballots_field))
aggregate_sums_example =
    aggregate_sums memory uuid_text memory-IsRedis 7 5 one_ballot 3 (λ k. answered) target_valid
      one_ballot-IsCounter (λ k. refl) (λ i. one_ballot-sum (format_uint i))
      (one_ballot-sum ballots_field)
