-- ===== src/Redis/Aggregation/Shards.antt =====
-- The aggregate of a poll over all its shards.
use televote.Prelude.{
  ℕ, zero, suc, ◌+◌, ◌^◌, ◌<◌, ◌≡◌, ◌≢◌, refl, true, inl, inr, List, [], ◌∷◌, ◌==◌, ==_iff, none,
  some, arith, sym, ap, ◌∙◌, Bool-cases, All, All-imp,
}
use televote.Prelude.Int.{pos}
use televote.Prelude.Text.{Text, text_eq_iff, text_eq_of_ne}
use televote.Prelude.Decimal.{format_uint, parse_uint-format_uint}
use televote.Errors.{ok}
use televote.Domain.Poll.{sharding_valid}
use televote.Domain.Aggregate.{Aggregate, new_aggregate, get}
use televote.Redis.Server.{Server, IsRedis, find_text, UniqueNames}
use televote.Redis.Keys.{ballots_field, counter_key}
use televote.Redis.Aggregation.{
  Reading, answered, merge_counters, read_shard, read_shards, aggregate,
}
use televote.Redis.Aggregation.Sums.{Reads, Reads_cong, IsName, IsEntry, number, value, merged}

-- In a map every entry is found under its name.
found_self : (m : List (Text × Text)) → UniqueNames m → All (λ e. find_text e.0 m ≡ some e.1) m
unfolding find_text
found_self [] u = tt
found_self ((f, raw) ∷ m) u = (
  rw ((text_eq_iff f f).1 refl),
  All-imp m
      (λ e (h : find_text e.0 m ≡ some e.1).
        rw (text_eq_of_ne f e.0 (λ q. cc (h, u.0, ap (λ x. find_text x m) q))) h)
      (found_self m u.1),
)

module _ (r : Server) (uuid_text : ℕ → Text) (redis : IsRedis r) (poll_id now : ℕ)
    (s : r.Store) where
  abbrev pub field_of : ℕ → Text → ℕ
  field_of shard f = r.field (counter_key uuid_text poll_id shard) f now s

  -- The sum of a field over `rounds` shards from `shard` on.
  unfoldable pub shard_sum : ℕ → ℕ → Text → ℕ
  shard_sum zero shard f = 0
  shard_sum (suc rounds) shard f = field_of shard f + shard_sum rounds (suc shard) f

  -- The counters hold what the vote script writes, in numbers that fit an int64.
  pub record IsCounter : Type 0 where
    pub names : (shard : ℕ) (f : Text) → field_of shard f ≢ 0 → IsName f
    pub fits : (shard : ℕ) (f : Text) → field_of shard f < 2 ^ 63

  reading_value :
      (shard : ℕ) (f : Text)
      → field_of shard f < 2 ^ 63
      → value f (r.hgetall (counter_key uuid_text poll_id shard) now s) ≡ field_of shard f
  unfolding number
  reading_value shard f h = elim (Bool-cases (field_of shard f == 0)) [
    | inl e ↦ rw (redis.hgetall_reads _ f now s, e) (sym ((==_iff _ 0).0 e))
    | inr e ↦
        rw (redis.hgetall_reads _ f now s, e)
          (rw (parse_uint-format_uint (2 ^ 63) (field_of shard f) h, number))
  ]

  hgetall-IsEntry :
      (shard : ℕ)
      → IsCounter
      → (e : Text × Text)
      → find_text e.0 (r.hgetall (counter_key uuid_text poll_id shard) now s) ≡ some e.1
      → IsEntry e
  hgetall-IsEntry shard c e h = elim (Bool-cases (field_of shard e.0 == 0)) [
    | inl z ↦
        let gone : find_text e.0 (r.hgetall (counter_key uuid_text poll_id shard) now s) ≡ none =
          redis.hgetall_reads _ e.0 now s ∙ rw z refl in
        cc (gone, h)
    | inr z ↦
        let shown : find_text e.0 (r.hgetall (counter_key uuid_text poll_id shard) now s)
            ≡ some (format_uint (field_of shard e.0)) =
          redis.hgetall_reads _ e.0 now s ∙ rw z refl in
        (
          c.names shard e.0 (λ q. cc (z, (==_iff (field_of shard e.0) 0).1 q)),
          (field_of shard e.0, c.fits shard e.0, cc (shown, h)),
        )
  ]

  reading_entries :
      (shard : ℕ) → IsCounter → All IsEntry (r.hgetall (counter_key uuid_text poll_id shard) now s)
  reading_entries shard c =
      let m = r.hgetall (counter_key uuid_text poll_id shard) now s in
      All-imp m (λ e (h : find_text e.0 m ≡ some e.1). hgetall-IsEntry shard c e h)
        (found_self m (redis.hgetall_unique (counter_key uuid_text poll_id shard) now s))

  read_answered :
      (shard : ℕ) (replies : ℕ → Reading) (out mid : Aggregate)
      → replies shard ≡ answered
      → merge_counters out (r.hgetall (counter_key uuid_text poll_id shard) now s) ≡ ok mid
      → read_shard r uuid_text (replies shard) out poll_id shard now s ≡ ok mid
  unfolding read_shard
  read_answered shard replies out mid up q = rw up q

  read_all :
      (rounds shard : ℕ) (replies : ℕ → Reading) (out : Aggregate) (v : ℕ → ℕ) (b : ℕ)
      → IsCounter
      → ((k : ℕ) → replies k ≡ answered)
      → Reads out v b
      → ((i : ℕ) → v i + shard_sum rounds shard (format_uint i) < 2 ^ 63)
      → b + shard_sum rounds shard ballots_field < 2 ^ 63
      → (a : Aggregate) × (read_shards r uuid_text replies out poll_id rounds shard now s ≡ ok a)
        × Reads a
            (λ i. v i + shard_sum rounds shard (format_uint i))
            (b + shard_sum rounds shard ballots_field)
  unfolding read_shards shard_sum
  read_all zero shard replies out v b c up h fv fb =
      (out, refl, Reads_cong (λ i. omega arith) (omega arith) h)
  read_all (suc rounds) shard replies out v b c up h fv fb =
      let m = r.hgetall (counter_key uuid_text poll_id shard) now s in
      let is_value = λ (f : Text). reading_value shard f (c.fits shard f) in
      let (mid, q, h') =
        merged m out v b h (reading_entries shard c) (redis.hgetall_unique _ now s)
          (λ i. omega (arith, fv i, is_value (format_uint i)))
          (omega (arith, fb, is_value ballots_field)) in
      let (a, p, g) =
        read_all rounds (suc shard) replies mid _ _ c up h'
          (λ i. omega (arith, fv i, is_value (format_uint i)))
          (omega (arith, fb, is_value ballots_field)) in
      (
        a,
        rw (read_answered shard replies out mid (up shard) q) p,
        Reads_cong (λ i. omega (arith, is_value (format_uint i)))
            (omega (arith, is_value ballots_field)) g,
      )

  start_reads : Reads new_aggregate (λ _. 0) 0
  unfolding new_aggregate get
  start_reads = record { votes = λ i. refl; ballots = refl }

  -- Reading a poll adds its shards up. Let every shard answer, let the counters hold what the vote script
  -- writes, and let the sums fit an int64. Then the reading succeeds, each option has as many votes as the
  -- shards' fields for it together, and the ballots are the sum of the shards' ballots.
  pub aggregate_sums :
      (shard_count : ℕ) (replies : ℕ → Reading)
      → sharding_valid (record { poll_id = poll_id; shard_count = shard_count }) ≡ true
      → IsCounter
      → ((k : ℕ) → replies k ≡ answered)
      → ((i : ℕ) → shard_sum shard_count 0 (format_uint i) < 2 ^ 63)
      → shard_sum shard_count 0 ballots_field < 2 ^ 63
      → (a : Aggregate) × (aggregate r uuid_text
            (record { poll_id = poll_id; shard_count = shard_count })
            replies
            now
            s
          ≡ ok a)
        × ((i : ℕ) → get a.votes i ≡ pos (shard_sum shard_count 0 (format_uint i)))
        × (a.ballots ≡ pos (shard_sum shard_count 0 ballots_field))
  unfolding aggregate
  aggregate_sums shard_count replies valid c up fv fb =
      let (a, p, g) =
        read_all shard_count 0 replies new_aggregate (λ _. 0) 0 c up start_reads
          (λ i. omega (arith, fv i)) (omega arith) in
      (a, rw valid p, λ i. g.votes i ∙ ap pos (omega arith), g.ballots ∙ ap pos (omega arith))
