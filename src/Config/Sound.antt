-- ===== src/Config/Sound.antt =====
-- What a configuration that is loaded guarantees the other parts.
use televote.Prelude.{
  ◌≤◌, ◌≡◌, refl, true, false, ◌||◌, List, [], ◌∷◌, ◌++◌, Option, arith, All, ltb, is_nil, subst,
}
use televote.Prelude.Int.{pos, ◌≤ℤ◌, leb_ℤ, add64}
use televote.Prelude.Text.{Text, codes, byte_len}
use televote.Floats.{Floats, float_zero, float_half, float_one}
use televote.Errors.{Result, ok, err}
use televote.Config.{
  Config, FieldError, Rule, Parsers, is_production, server_rules, store_rules, queue_rules,
  drain_budget, dedup_ttl_lower_bound, dedup_rule, not_positive,
}
use televote.Config.Secrets.{
  is_placeholder_secret, default_credentials, insecure, secret_rules, rules, broken, validate,
  accept_valid, with_read_dsn, load_from,
}

-- No rule of a list is broken.
abbrev pub Kept : List Rule → Type 0
Kept rs = All (λ (r : Rule). r.0 ≡ false) rs

broken-Kept : (rs : List Rule) → broken rs ≡ [] → Kept rs
unfolding broken
broken-Kept [] h = tt
broken-Kept ((b, e) ∷ rs) h = let ih = broken-Kept rs in ground arith

Kept-append : (xs ys : List Rule) → Kept (xs ++ ys) → Kept xs × Kept ys
Kept-append [] ys h = (tt, h)
Kept-append (x ∷ xs) ys h = let (a, b) = Kept-append xs ys h.1 in ((h.0, a), b)

-- What a configuration guarantees.
pub record Loaded (floats : Floats) (credentials : Text → Option (Text × Text)) (c : Config)
    : Type 0 where
  pub dedup_outlives_drain :
      add64 (add64 c.drain_window c.snapshot_final_grace) (pos 600000000000)
      ≤ℤ floats.trunc
          (floats.mul (floats.of_int c.dedup_ttl) (floats.sub float_one c.dedup_ttl_jitter))
  pub retry_within_drain : ¬ (c.drain_window ≤ℤ c.vote_retry_budget)
  pub drains : ¬ (c.drain_window ≤ℤ pos 0)
  pub refreshes : ¬ (c.poll_config_refresh ≤ℤ pos 0)
  pub keeps_keys : ¬ (c.dedup_ttl ≤ℤ pos 0)
  pub jitter :
      (floats.lt c.dedup_ttl_jitter float_zero ≡ false)
      × (floats.lt float_half c.dedup_ttl_jitter ≡ false)
  pub secrets :
      is_production c ≡ true
      → (32 ≤ byte_len c.admin_jwt_key)
        × (is_placeholder_secret c.admin_jwt_key ≡ false)
        × (is_placeholder_secret c.admin_bootstrap_password ≡ false)
        × (default_credentials credentials c.postgres_dsn ≡ false)
        × (default_credentials credentials c.postgres_read_dsn ≡ false)

module _ (floats : Floats) (p : Parsers) (credentials : Text → Option (Text × Text)) where
  abbrev secret_list : Config → List Rule
  secret_list c =
      insecure (codes "ADMIN_JWT_KEY") (
        is_nil c.admin_jwt_key
        || is_placeholder_secret c.admin_jwt_key
        || ltb (byte_len c.admin_jwt_key) 32)
      ∷ insecure (codes "ADMIN_BOOTSTRAP_PASSWORD")
          (is_nil c.admin_bootstrap_password || is_placeholder_secret c.admin_bootstrap_password)
      ∷ insecure (codes "POSTGRES_DSN") (default_credentials credentials c.postgres_dsn)
      ∷ insecure (codes "POSTGRES_READ_DSN") (default_credentials credentials c.postgres_read_dsn)
      ∷ insecure (codes "DEDUP_TTL_JITTER") (floats.le c.dedup_ttl_jitter float_zero)
      ∷ []

  secret-facts :
      (c : Config)
      → Kept (secret_rules floats p credentials c)
      → is_production c ≡ true
      → (32 ≤ byte_len c.admin_jwt_key)
        × (is_placeholder_secret c.admin_jwt_key ≡ false)
        × (is_placeholder_secret c.admin_bootstrap_password ≡ false)
        × (default_credentials credentials c.postgres_dsn ≡ false)
        × (default_credentials credentials c.postgres_read_dsn ≡ false)
  unfolding secret_rules
  secret-facts c kept on =
      let production : secret_rules floats p credentials c ≡ secret_list c =
        rw (on, secret_rules) refl in
      let facts : Kept (secret_list c) = subst Kept production kept in
      let key = facts.0 in
      let password = facts.1.0 in
      (ground arith, ground arith, ground arith, facts.1.1.0, facts.1.1.1.0)

  Kept-Loaded : (c : Config) → Kept (rules floats p credentials c) → Loaded floats credentials c
  unfolding rules store_rules queue_rules dedup_rule drain_budget dedup_ttl_lower_bound
  Kept-Loaded c kept =
      let last = secret_rules floats p credentials c in
      let k1 : Kept
          (store_rules floats p c ++ queue_rules floats p c ++ (dedup_rule floats c ∷ []) ++ last) =
        (Kept-append (server_rules floats p c)
          (store_rules floats p c ++ queue_rules floats p c ++ (dedup_rule floats c ∷ []) ++ last)
          kept).1 in
      let (store, k2) =
        Kept-append (store_rules floats p c)
          (queue_rules floats p c ++ (dedup_rule floats c ∷ []) ++ last) k1 in
      let (queue, k3) =
        Kept-append (queue_rules floats p c) ((dedup_rule floats c ∷ []) ++ last) k2 in
      let retry : leb_ℤ c.drain_window c.vote_retry_budget ≡ false = store.1.1.1.1.1.0 in
      let drain : not_positive c.drain_window ≡ false = store.1.1.1.1.1.1.1.1.1.1.1.0 in
      let refresh : not_positive c.poll_config_refresh ≡ false =
        store.1.1.1.1.1.1.1.1.1.1.1.1.1.0 in
      let ttl : not_positive c.dedup_ttl ≡ false = queue.1.1.1.0 in
      let jitter : (floats.lt c.dedup_ttl_jitter float_zero
            || floats.lt float_half c.dedup_ttl_jitter)
          ≡ false =
        queue.1.1.1.1.0 in
      let dedup = k3.0 in
      record {
        dedup_outlives_drain = ground arith;
        retry_within_drain = ground arith;
        drains = ground arith;
        refreshes = ground arith;
        keeps_keys = ground arith;
        jitter = (ground arith, ground arith);
        secrets = secret-facts c k3.1;
      }

  accepted_lem :
      (es : List FieldError) (d : Config) {c : Config}
      → accept_valid floats p credentials es d ≡ ok c
      → (es ≡ []) × (d ≡ c)
  accepted_lem [] d h = (refl, cc)
  accepted_lem (e ∷ es) d h = absurd cc

  -- A configuration that is loaded meets the rules that the other parts rely on: the time to live of a dedup key,
  -- shortened by the whole jitter in float64 and before it is cut to whole seconds, is no shorter than the drain
  -- window, the final grace and ten minutes together, in int64; the retry budget is shorter than the drain window,
  -- and that, the refresh interval and the time to live are above zero; the jitter lies in 0 to 0.5. In
  -- production the signing key has 32 bytes or more and neither it nor a password is a known default.
  pub load_from-Loaded :
      (parsed : Result Config) {c : Config}
      → load_from floats p credentials parsed ≡ ok c
      → Loaded floats credentials c
  unfolding load_from validate
  load_from-Loaded (err e) h = absurd cc
  load_from-Loaded (ok d) h =
      let d' = with_read_dsn floats p credentials d in
      let (none_broken, same) = accepted_lem (broken (rules floats p credentials d')) d' h in
      subst (Loaded floats credentials) same
        (Kept-Loaded d' (broken-Kept (rules floats p credentials d') none_broken))
