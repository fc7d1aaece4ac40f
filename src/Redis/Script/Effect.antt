-- ===== src/Redis/Script/Effect.antt =====
-- What one run of the vote script does to the readings of every key.
use televote.Prelude.{
  ℕ, suc, ◌+◌, ◌^◌, ◌≤◌, ◌<◌, ◌≡◌, ◌≢◌, refl, Bool, true, false, List, [], ◌∷◌, ltb, lt→ltb,
  if◌then◌else◌, arith, subst, sym, ◌∙◌, Bool-cases, inl, inr,
}
use televote.Prelude.Text.{Text, text_eq, text_eq_iff}
use televote.Prelude.Decimal.{format_uint}
use televote.Redis.Server.{Server, IsRedis, SameKey}
use televote.Redis.Keys.{ballots_field}
use televote.Redis.Script.{incr_all, after_set, vote_script}

-- How often a field stands in a list.
unfoldable pub occurrences : Text → List Text → ℕ
occurrences f [] = 0
occurrences f (g ∷ gs) = if text_eq g f then suc (occurrences f gs) else occurrences f gs

module _ (r : Server) (redis : IsRedis r) where
  SameKey-trans : {j : Text} {s t u : r.Store} → SameKey r j s t → SameKey r j t u → SameKey r j s u
  SameKey-trans h k = (λ n. k.0 n ∙ h.0 n, λ f n. k.1 f n ∙ h.1 f n)

  incr_all-field :
      (key : Text) (fields : List Text) (now : ℕ) (s : r.Store) (f : Text)
      → r.field key f now (incr_all r key fields now s) ≡ r.field key f now s + occurrences f fields
  unfolding incr_all occurrences
  incr_all-field key [] now s f = omega arith
  incr_all-field key (g ∷ gs) now s f = elim (Bool-cases (text_eq g f)) [
    | inl e ↦
        let same = (text_eq_iff g f).0 e in
        rw e (
          omega (
            arith,
            incr_all-field key gs now (r.hincrby key g now s) f,
            subst (λ x. r.field key x now (r.hincrby key g now s) ≡ r.field key x now s + 1) same
                (redis.hincrby_self key g now s),
          ))
    | inr e ↦
        let other : f ≢ g = λ q. cc (e, (text_eq_iff g f).1 (sym q)) in
        rw e (
          omega (
            arith,
            incr_all-field key gs now (r.hincrby key g now s) f,
            redis.hincrby_field key g f now s other,
          ))
  ]

  incr_all-other :
      (key : Text) (fields : List Text) (now : ℕ) (s : r.Store) (j : Text)
      → j ≢ key
      → SameKey r j s (incr_all r key fields now s)
  unfolding incr_all
  incr_all-other key [] now s j h = (λ n. refl, λ f n. refl)
  incr_all-other key (g ∷ gs) now s j h =
      SameKey-trans (redis.hincrby_other key g now s j h)
        (incr_all-other key gs now (r.hincrby key g now s) j h)

  -- A run that finds its dedup key does nothing and replies 2.
  pub vote_script-taken :
      (dedup counter ttl : Text) (fields : List Text) (now : ℕ) (s : r.Store)
      → r.exists dedup now s ≡ true
      → vote_script r dedup counter ttl fields now s ≡ (2, s)
  unfolding vote_script
  vote_script-taken dedup counter ttl fields now s h = rw (redis.set_taken dedup ttl now s h)

-- The readings after a run that counted, up to the instant `now + ttl`.
pub record Counted (r : Server) (dedup counter : Text) (ttl : ℕ) (fields : List Text) (now : ℕ)
    (s s' : r.Store) : Type 0 where
  pub marked : (t : ℕ) → now ≤ t → r.exists dedup t s' ≡ ltb t (now + ttl)
  pub counts :
      (f : Text) (t : ℕ)
      → now ≤ t
      → t < now + ttl
      → r.field counter f t s'
        ≡ r.field counter f now s + (occurrences f fields + occurrences f (ballots_field ∷ []))
  pub others : (j : Text) → j ≢ dedup → j ≢ counter → SameKey r j s s'

module _ (r : Server) (redis : IsRedis r) where
  incr_ballots :
      (key : Text) (now : ℕ) (s : r.Store) (f : Text)
      → r.field key f now (r.hincrby key ballots_field now s)
        ≡ r.field key f now s + occurrences f (ballots_field ∷ [])
  unfolding incr_all
  incr_ballots key now s f = incr_all-field r redis key (ballots_field ∷ []) now s f

  after_set-counts :
      (dedup counter : Text) (ttl : ℕ) (fields : List Text) (now : ℕ) (s : r.Store)
      → r.exists dedup now s ≡ false
      → dedup ≢ counter
      → ttl < 2 ^ 63
      → Counted r dedup counter ttl fields now s
          (after_set r counter
            (format_uint ttl)
            fields
            now
            (true, (r.set_nx_ex dedup (format_uint ttl) now s).1)).1
  unfolding after_set
  after_set-counts dedup counter ttl fields now s free apart small =
      let s1 = (r.set_nx_ex dedup (format_uint ttl) now s).1 in
      let s2 = incr_all r counter fields now s1 in
      let s3 = r.hincrby counter ballots_field now s2 in
      let to_dedup : SameKey r dedup s1 s2 =
        incr_all-other r redis counter fields now s1 dedup apart in
      record {
        marked = λ t le.
            (redis.expire_other counter (format_uint ttl) now s3 dedup apart).0 t
            ∙ (redis.hincrby_other counter ballots_field now s2 dedup apart).0 t
            ∙ to_dedup.0 t
            ∙ redis.set_lives dedup ttl now t s free small le;
        counts = λ f t le lt.
            redis.expire_self counter f ttl now t s3 small le
            ∙ rw (lt→ltb t (now + ttl) lt) (
                omega (
                  arith,
                  incr_ballots counter now s2 f,
                  incr_all-field r redis counter fields now s1 f,
                  (redis.set_other dedup (format_uint ttl) now s counter (λ q. apart (sym q))).1 f
                      now,
                ));
        others = λ j nd nc.
            SameKey-trans r redis (redis.set_other dedup (format_uint ttl) now s j nd) (
              SameKey-trans r redis (incr_all-other r redis counter fields now s1 j nc) (
                SameKey-trans r redis (redis.hincrby_other counter ballots_field now s2 j nc)
                  (redis.expire_other counter (format_uint ttl) now s3 j nc)));
      }

  pair_of : (b : Bool) (p : Bool × r.Store) → p.0 ≡ b → p ≡ (b, p.1)
  pair_of b p h = ground arith

  -- A run that does not find its dedup key replies 1 and counts: until the time to live is over the dedup
  -- key is there, and each field of the counter has grown by the times that the vote names it, the
  -- ballots by one. No other key changes.
  pub vote_script-counts :
      (dedup counter : Text) (ttl : ℕ) (fields : List Text) (now : ℕ) (s : r.Store)
      → r.exists dedup now s ≡ false
      → dedup ≢ counter
      → ttl < 2 ^ 63
      → ((vote_script r dedup counter (format_uint ttl) fields now s).0 ≡ 1)
        × Counted r dedup counter ttl fields now s
            (vote_script r dedup counter (format_uint ttl) fields now s).1
  unfolding vote_script
  vote_script-counts dedup counter ttl fields now s free apart small =
      let m = r.set_nx_ex dedup (format_uint ttl) now s in
      let e : m ≡ (true, m.1) =
        pair_of true m (redis.set_free dedup (format_uint ttl) now s free) in
      let run = λ (p : Bool × r.Store). after_set r counter (format_uint ttl) fields now p in
      subst
        (λ (p : Bool × r.Store).
          ((run p).0 ≡ 1) × Counted r dedup counter ttl fields now s (run p).1)
        (sym e)
        (unfold after_set in refl, after_set-counts dedup counter ttl fields now s free apart small)
