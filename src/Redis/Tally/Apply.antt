-- ===== src/Redis/Tally/Apply.antt =====
-- One vote on its way to the server, and what it counts.
use televote.Prelude.{
  ℕ, ◌+◌, ◌^◌, ◌≤◌, ◌<◌, ◌≡◌, ◌≢◌, refl, Bool, true, false, not, List, [], ◌∷◌, map, lt→ltb, ◌==◌,
  ==_iff, if◌then◌else◌, arith, sym, ap, ◌∙◌, Bool-cases, and-elim, inl, inr, subst,
}
use televote.Prelude.Int.{pos_part}
use televote.Prelude.Text.{Text, text_eq, text_eq_iff}
use televote.Prelude.Decimal.{format_uint}
use televote.Floats.{Floats}
use televote.Domain.Poll.{Sharding}
use televote.Domain.Voter.{VoterId, text_in}
use televote.Domain.Voter.Hex.{IsVoterId}
use televote.Redis.Server.{Server, IsRedis}
use televote.Redis.Keys.{ballots_field, dedup_key, counter_key}
use televote.Redis.Keys.Slots.{IsUuidText, keys-injective}
use televote.Redis.Script.Effect.{occurrences, Counted, vote_script-taken, vote_script-counts}
use televote.Redis.Tally.{Tally, ttl_seconds_for, deliver, run_script, apply}
use televote.Redis.Tally.Ledger.{
  Attempt, shard_of, reaches, adds, counts_now, seen_after, base_after,
}

-- The conversion of a float64 to int64 gives an int64.
abbrev pub TruncFits : Floats → Type 0
TruncFits floats = (x : ℕ) → pos_part (floats.trunc x) < 2 ^ 63

module _ (floats : Floats) (r : Server) (sum64 : List ℕ → ℕ) (uuid_text : ℕ → Text) (t : Tally)
    (target : Sharding) (redis : IsRedis r) (uuids : IsUuidText uuid_text)
    (fits : TruncFits floats) where
  abbrev pub dedup_of : VoterId → Text
  dedup_of v = dedup_key uuid_text target.poll_id (shard_of sum64 target v) v

  abbrev pub counter_of : ℕ → Text
  counter_of shard = counter_key uuid_text target.poll_id shard

  abbrev pub attempt : Attempt → r.Store → r.Store
  attempt a s = (apply floats r sum64 uuid_text t target a.voter a.choices a.link a.at s).1

  -- The store at `now`, read up to `horizon`: the voters of `seen` and no others have their dedup key,
  -- and the counters read as `base`.
  pub record Holds (horizon : ℕ) (seen : List VoterId) (base : ℕ → Text → ℕ) (now : ℕ) (s : r.Store)
      : Type 0 where
    pub known :
        (v : VoterId) (n : ℕ)
        → IsVoterId v
        → now ≤ n
        → n ≤ horizon
        → r.exists (dedup_of v) n s ≡ text_in v seen
    pub reads :
        (shard : ℕ) (f : Text) (n : ℕ)
        → now ≤ n
        → n ≤ horizon
        → r.field (counter_of shard) f n s ≡ base shard f

  -- An attempt after `now`, whose dedup key outlives the horizon.
  pub record IsTimely (horizon now : ℕ) (a : Attempt) : Type 0 where
    pub voter : IsVoterId a.voter
    pub later : now ≤ a.at
    pub by_horizon : a.at ≤ horizon
    pub outlives : horizon < a.at + ttl_seconds_for floats sum64 t a.voter

  later_Holds :
      {horizon now now' : ℕ} {seen : List VoterId} {base : ℕ → Text → ℕ} {s : r.Store}
      → now ≤ now'
      → Holds horizon seen base now s
      → Holds horizon seen base now' s
  later_Holds le h = record {
    known = λ v n hv a b. h.known v n hv (omega arith) b;
    reads = λ shard f n a b. h.reads shard f n (omega arith) b;
  }

  ttl_small : (v : VoterId) → ttl_seconds_for floats sum64 t v < 2 ^ 63
  unfolding ttl_seconds_for
  ttl_small v = omega (arith, fits)

  known_after :
      (horizon : ℕ) (seen : List VoterId) (base : ℕ → Text → ℕ) (a : Attempt) (s s' : r.Store)
      → Holds horizon seen base a.at s
      → IsTimely horizon a.at a
      → Counted r
          (dedup_of a.voter)
          (counter_of (shard_of sum64 target a.voter))
          (ttl_seconds_for floats sum64 t a.voter)
          (map format_uint a.choices)
          a.at
          s
          s'
      → (v : VoterId) (n : ℕ) → IsVoterId v
      → a.at ≤ n
      → n ≤ horizon
      → r.exists (dedup_of v) n s' ≡ text_in v (a.voter ∷ seen)
  unfolding text_in
  known_after horizon seen base a s s' h ti c v n hv le ge = elim (Bool-cases (text_eq a.voter v)) [
    | inl e ↦ rw e (
        subst (λ x. r.exists (dedup_of x) n s' ≡ true) ((text_eq_iff a.voter v).0 e)
          (c.marked n le ∙ lt→ltb n _ (omega (arith, ti.outlives))))
    | inr e ↦
        let other : dedup_of v ≢ dedup_of a.voter = λ q.
          let (_, _, same) =
            (keys-injective uuid_text uuids target.poll_id target.poll_id _ _ v a.voter hv
                ti.voter).1
              q in
          cc (e, (text_eq_iff a.voter v).1 (sym same)) in
        let apart : dedup_of v ≢ counter_of (shard_of sum64 target a.voter) =
          (keys-injective uuid_text uuids target.poll_id target.poll_id _ _ v a.voter hv
            ti.voter).2 in
        rw e ((c.others (dedup_of v) other apart).0 n ∙ h.known v n hv le ge)
  ]

  reads_after :
      (horizon : ℕ) (seen : List VoterId) (base : ℕ → Text → ℕ) (a : Attempt) (s s' : r.Store)
      → Holds horizon seen base a.at s
      → IsTimely horizon a.at a
      → Counted r
          (dedup_of a.voter)
          (counter_of (shard_of sum64 target a.voter))
          (ttl_seconds_for floats sum64 t a.voter)
          (map format_uint a.choices)
          a.at
          s
          s'
      → (shard : ℕ) (f : Text) (n : ℕ) → a.at ≤ n
      → n ≤ horizon
      → r.field (counter_of shard) f n s' ≡ base shard f + adds sum64 target a shard f
  unfolding adds
  reads_after horizon seen base a s s' h ti c shard f n le ge =
      elim (Bool-cases (shard_of sum64 target a.voter == shard)) [
        | inl e ↦ rw e (
            subst
              (λ x.
                r.field (counter_of x) f n s'
                ≡ base x f
                  + (occurrences f (map format_uint a.choices)
                      + occurrences f (ballots_field ∷ [])))
              ((==_iff _ shard).0 e)
              (c.counts f n le (omega (arith, ti.outlives))
                ∙ ap
                    (λ x.
                      x
                      + (occurrences f (map format_uint a.choices)
                          + occurrences f (ballots_field ∷ [])))
                    (h.reads _ f a.at (omega arith) ti.by_horizon)))
        | inr e ↦
            let keys =
              keys-injective uuid_text uuids target.poll_id target.poll_id
                (shard_of sum64 target a.voter) shard a.voter a.voter ti.voter ti.voter in
            let other : counter_of shard ≢ counter_of (shard_of sum64 target a.voter) =
              λ q. let (_, same) = keys.0 (sym q) in cc (e, (==_iff _ shard).1 same) in
            rw e (
              omega (
                arith,
                (c.others (counter_of shard) (λ q. keys.2 (sym q)) other).1 f n,
                h.reads shard f n le ge,
              ))
      ]

  attempt-idle : (a : Attempt) (s : r.Store) → reaches sum64 target a ≡ false → attempt a s ≡ s
  unfolding reaches apply deliver
  attempt-idle a s h = ground arith

  abbrev script_run : Attempt → r.Store → r.Store
  script_run a s = (run_script floats r sum64 uuid_text t target a.voter a.choices a.at s).1

  attempt-run :
      (a : Attempt) (s : r.Store) → reaches sum64 target a ≡ true → attempt a s ≡ script_run a s
  unfolding reaches apply deliver
  attempt-run a s h = ground arith

  idle_Holds :
      {horizon : ℕ} {seen : List VoterId} {base : ℕ → Text → ℕ} {now : ℕ} {s : r.Store}
      → Holds horizon seen base now s
      → Holds horizon seen (λ shard f. base shard f + 0) now s
  idle_Holds h = record {
    known = h.known;
    reads = λ shard f n le ge. omega (arith, h.reads shard f n le ge);
  }

  fresh_Holds :
      (horizon : ℕ) (seen : List VoterId) (base : ℕ → Text → ℕ) (a : Attempt) (s : r.Store)
      → Holds horizon seen base a.at s
      → IsTimely horizon a.at a
      → text_in a.voter seen ≡ false
      → Holds horizon
          (a.voter ∷ seen)
          (λ shard f. base shard f + adds sum64 target a shard f)
          a.at
          (script_run a s)
  unfolding run_script
  fresh_Holds horizon seen base a s h ti new =
      let keys =
        keys-injective uuid_text uuids target.poll_id target.poll_id (shard_of sum64 target a.voter)
          (shard_of sum64 target a.voter) a.voter a.voter ti.voter ti.voter in
      let (_, c) =
        vote_script-counts r redis (dedup_of a.voter) (counter_of (shard_of sum64 target a.voter))
          (ttl_seconds_for floats sum64 t a.voter) (map format_uint a.choices) a.at s
          (h.known a.voter a.at ti.voter (omega arith) ti.by_horizon ∙ new) keys.2
          (ttl_small a.voter) in
      record {
        known = known_after horizon seen base a s _ h ti c;
        reads = reads_after horizon seen base a s _ h ti c;
      }

  script_run-taken :
      (horizon : ℕ) (seen : List VoterId) (base : ℕ → Text → ℕ) (a : Attempt) (s : r.Store)
      → Holds horizon seen base a.at s
      → IsTimely horizon a.at a
      → text_in a.voter seen ≡ true
      → script_run a s ≡ s
  unfolding run_script
  script_run-taken horizon seen base a s h ti old =
      ap (λ (p : ℕ × r.Store). p.1)
        (vote_script-taken r redis (dedup_of a.voter) (counter_of (shard_of sum64 target a.voter)) _
          _ a.at s (h.known a.voter a.at ti.voter (omega arith) ti.by_horizon ∙ old))

  attempt-skip :
      (horizon : ℕ) (seen : List VoterId) (base : ℕ → Text → ℕ) (a : Attempt) (s : r.Store)
      → Holds horizon seen base a.at s
      → IsTimely horizon a.at a
      → counts_now sum64 target seen a ≡ false
      → attempt a s ≡ s
  attempt-skip horizon seen base a s h ti skip = elim (Bool-cases (reaches sum64 target a)) [
    | inl run ↦ attempt-run a s run ∙ script_run-taken horizon seen base a s h ti (ground arith)
    | inr idle ↦ attempt-idle a s idle
  ]

  attempt_case :
      (horizon : ℕ) (seen : List VoterId) (base : ℕ → Text → ℕ) (a : Attempt) (s : r.Store)
      (b : Bool)
      → counts_now sum64 target seen a ≡ b
      → Holds horizon seen base a.at s
      → IsTimely horizon a.at a
      → Holds horizon
          (if b then a.voter ∷ seen else seen)
          (λ shard f. base shard f + (if b then adds sum64 target a shard f else 0))
          a.at
          (attempt a s)
  attempt_case horizon seen base a s true e h ti =
      let (run, new) = and-elim (reaches sum64 target a) (not (text_in a.voter seen)) e in
      rw (attempt-run a s run) (fresh_Holds horizon seen base a s h ti (ground arith))
  attempt_case horizon seen base a s false e h ti =
      rw (attempt-skip horizon seen base a s h ti e) (idle_Holds h)

  -- One attempt keeps the readings right.
  pub attempt-Holds :
      (horizon : ℕ) (seen : List VoterId) (base : ℕ → Text → ℕ) (now : ℕ) (a : Attempt)
      (s : r.Store)
      → Holds horizon seen base now s
      → IsTimely horizon now a
      → Holds horizon
          (seen_after sum64 target seen a)
          (base_after sum64 target base seen a)
          a.at
          (attempt a s)
  attempt-Holds horizon seen base now a s h ti =
      attempt_case horizon seen base a s (counts_now sum64 target seen a) refl
        (later_Holds ti.later h)
        (record {
          voter = ti.voter;
          later = omega arith;
          by_horizon = ti.by_horizon;
          outlives = ti.outlives;
        })
