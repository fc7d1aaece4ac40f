-- ===== src/Config.antt =====
-- internal/platform/config/config.go: the rules that a configuration must meet. What the standard library
-- says of addresses and URLs is a parameter; the texts of the reasons are not modelled.
pub mod Secrets
pub mod Sound
use televote.Prelude.{
  ℕ, ◌+◌, ◌*◌, ◌≡◌, Bool, true, false, not, ◌&&◌, ◌||◌, List, [], ◌∷◌, ◌++◌, Option, none, some,
  ltb, leb, if◌then◌else◌, is_nil, length,
}
use televote.Prelude.Int.{ℤ, pos, negsuc, add64, ltb_ℤ, leb_ℤ}
use televote.Prelude.Text.{Text, codes, text_eq, byte_len, trim_space, to_lower}
use televote.Floats.{Floats, float_zero, float_half, float_one}
use televote.Errors.{Result, ok, err, Failure, Sentinel, invalid_config, dedup_ttl_too_short}
use televote.Domain.Poll.{Duration, second, is_positive}

-- TrustedProxies, which no rule reads, is left out.
pub record Config : Type 0 where
  pub env : Text
  pub log_level : Text
  pub http_addr : Text
  pub debug_addr : Text
  pub read_header_timeout : Duration
  pub read_timeout : Duration
  pub write_timeout : Duration
  pub idle_timeout : Duration
  pub shutdown_grace : Duration
  pub max_body_bytes : ℤ
  pub redis_addrs : List Text
  pub redis_dial_timeout : Duration
  pub redis_cmd_timeout : Duration
  pub vote_retry_budget : Duration
  pub breaker_error_ratio : ℕ
  pub breaker_window : Duration
  pub consumer_workers : ℤ
  pub postgres_dsn : Text
  pub postgres_read_dsn : Text
  pub postgres_max_conns : ℤ
  pub poll_config_refresh : Duration
  pub poll_min_lead_time : Duration
  pub kafka_brokers : List Text
  pub kafka_topic : Text
  pub kafka_consumer_group : Text
  pub kafka_linger : Duration
  pub kafka_produce_timeout : Duration
  pub dedup_ttl : Duration
  pub dedup_ttl_jitter : ℕ
  pub rate_limit_per_min : ℤ
  pub rate_limit_burst : ℤ
  pub rate_limit_max_keys : ℤ
  pub anomaly_sample_rate : ℕ
  pub admin_jwt_key : Text
  pub admin_jwt_ttl : Duration
  pub admin_bootstrap_login : Text
  pub admin_bootstrap_password : Text
  pub snapshot_interval : Duration
  pub snapshot_final_grace : Duration
  pub drain_window : Duration
  pub otlp_endpoint : Text
  pub otel_service_name : Text
  pub trace_sample_ratio : ℕ
  pub sentry_dsn : Text
  pub public_base_url : Text

-- A `FieldError`: its key, and the sentinels of its `Unwrap`.
pub record FieldError : Type 0 where
  pub key : Text
  pub sentinels : Failure

-- A rule: whether it is broken, and the error that it then gives.
abbrev pub Rule : Type 0
Rule = Bool × FieldError

-- `fail(key, …)` under its condition.
abbrev pub fail : Text → Bool → Rule
fail key broken = (broken, record { key = key; sentinels = invalid_config ∷ [] })

abbrev pub not_positive : ℤ → Bool
not_positive d = leb_ℤ d (pos 0)

abbrev pub one_of : Text → List Text → Bool
one_of s [] = false
one_of s (t ∷ ts) = text_eq s t || one_of s ts

-- What the standard library says: of an address, whether it splits into host and port, and its host; of a
-- host, whether it is an IP address that is not loopback; of a URL, its scheme and host where it parses.
pub record Parsers : Type 0 where
  pub split_host : Text → Option Text
  pub public_ip : Text → Bool
  pub url : Text → Option (Text × Text)

unfoldable pub is_production : Config → Bool
is_production c = text_eq c.env (codes "production")

unfoldable pub debug_enabled : Config → Bool
debug_enabled c = not (is_nil c.debug_addr) && not (text_eq c.debug_addr (codes "off"))

module _ (p : Parsers) where
  -- `validateDebugAddr`, as whether it gives an error.
  unfoldable pub bad_debug_addr : Text → Bool → Bool
  bad_debug_addr addr production = elim (p.split_host addr) [
    | none ↦ true
    | some host ↦ if not production then false else if is_nil host then true else p.public_ip host
  ]

  -- `validateAbsoluteHTTPURL`, as whether it gives an error.
  unfoldable pub bad_http_url : Text → Bool
  bad_http_url raw = elim (p.url raw) [
    | none ↦ true
    | some u ↦
        if not (text_eq u.0 (codes "http")) && not (text_eq u.0 (codes "https"))
        then true
        else is_nil u.1
  ]

  unfoldable pub bad_public_base_url : Text → Bool
  bad_public_base_url raw = if is_nil raw then true else bad_http_url raw

-- The loop over the addresses of redis, which stops at the first empty one.
unfoldable pub has_empty : List Text → Bool
has_empty [] = false
has_empty (a ∷ addrs) = is_nil (trim_space a) || has_empty addrs

abbrev pub drain_safety_margin : ℕ
drain_safety_margin = 600 * second

unfoldable pub drain_budget : Config → Duration
drain_budget c = add64 (add64 c.drain_window c.snapshot_final_grace) (pos drain_safety_margin)

module _ (floats : Floats) where
  unfoldable pub dedup_ttl_lower_bound : Config → Duration
  dedup_ttl_lower_bound c =
      floats.trunc
        (floats.mul (floats.of_int c.dedup_ttl) (floats.sub float_one c.dedup_ttl_jitter))

  -- `validateDedupInvariant`.
  unfoldable pub dedup_rule : Config → Rule
  dedup_rule c = (
    not (not_positive c.dedup_ttl || not_positive c.drain_window)
        && not (leb_ℤ (drain_budget c) (dedup_ttl_lower_bound c)),
    record { key = codes "DEDUP_TTL"; sentinels = dedup_ttl_too_short ∷ invalid_config ∷ [] },
  )

  abbrev pub not_ratio : ℕ → Bool
  not_ratio x = floats.lt x float_zero || floats.lt float_one x

module _ (floats : Floats) (p : Parsers) where
  -- The rules of `validate` from ENV to DEBUG_ADDR.
  unfoldable pub server_rules : Config → List Rule
  server_rules c =
      fail (codes "ENV")
        (not (one_of c.env (codes "dev" ∷ codes "staging" ∷ codes "production" ∷ [])))
      ∷ fail (codes "LOG_LEVEL") (
          not
            (one_of c.log_level (codes "debug" ∷ codes "info" ∷ codes "warn" ∷ codes "error" ∷ [])))
      ∷ fail (codes "HTTP_ADDR") (is_nil c.http_addr)
      ∷ fail (codes "READ_HEADER_TIMEOUT") (not_positive c.read_header_timeout)
      ∷ fail (codes "READ_TIMEOUT") (not_positive c.read_timeout)
      ∷ fail (codes "READ_HEADER_TIMEOUT") (ltb_ℤ c.read_timeout c.read_header_timeout)
      ∷ fail (codes "WRITE_TIMEOUT") (not_positive c.write_timeout)
      ∷ fail (codes "IDLE_TIMEOUT") (not_positive c.idle_timeout)
      ∷ fail (codes "SHUTDOWN_GRACE") (not_positive c.shutdown_grace)
      ∷ fail (codes "MAX_BODY_BYTES") (not_positive c.max_body_bytes)
      ∷ fail (codes "DEBUG_ADDR")
          (debug_enabled c && bad_debug_addr p c.debug_addr (is_production c))
      ∷ []

  -- From REDIS_ADDRS to POLL_CONFIG_REFRESH.
  unfoldable pub store_rules : Config → List Rule
  store_rules c =
      fail (codes "REDIS_ADDRS") (is_nil c.redis_addrs)
      ∷ fail (codes "REDIS_ADDRS") (has_empty c.redis_addrs)
      ∷ fail (codes "REDIS_DIAL_TIMEOUT") (not_positive c.redis_dial_timeout)
      ∷ fail (codes "REDIS_CMD_TIMEOUT") (not_positive c.redis_cmd_timeout)
      ∷ fail (codes "VOTE_RETRY_BUDGET") (not_positive c.vote_retry_budget)
      ∷ fail (codes "VOTE_RETRY_BUDGET") (leb_ℤ c.drain_window c.vote_retry_budget)
      ∷ fail (codes "BREAKER_ERROR_RATIO")
          (floats.le c.breaker_error_ratio float_zero || floats.lt float_one c.breaker_error_ratio)
      ∷ fail (codes "BREAKER_WINDOW") (not_positive c.breaker_window)
      ∷ fail (codes "CONSUMER_WORKERS") (not_positive c.consumer_workers)
      ∷ fail (codes "POSTGRES_DSN") (is_nil c.postgres_dsn)
      ∷ fail (codes "POSTGRES_MAX_CONNS") (not_positive c.postgres_max_conns)
      ∷ fail (codes "DRAIN_WINDOW") (not_positive c.drain_window)
      ∷ fail (codes "POLL_MIN_LEAD_TIME") (ltb_ℤ c.poll_min_lead_time (pos 0))
      ∷ fail (codes "POLL_CONFIG_REFRESH") (not_positive c.poll_config_refresh)
      ∷ []

  -- From KAFKA_BROKERS to OTEL_EXPORTER_OTLP_ENDPOINT.
  unfoldable pub queue_rules : Config → List Rule
  queue_rules c =
      fail (codes "KAFKA_BROKERS") (is_nil c.kafka_brokers)
      ∷ fail (codes "KAFKA_TOPIC") (is_nil c.kafka_topic)
      ∷ fail (codes "KAFKA_CONSUMER_GROUP") (is_nil c.kafka_consumer_group)
      ∷ fail (codes "DEDUP_TTL") (not_positive c.dedup_ttl)
      ∷ fail (codes "DEDUP_TTL_JITTER")
          (floats.lt c.dedup_ttl_jitter float_zero || floats.lt float_half c.dedup_ttl_jitter)
      ∷ fail (codes "RATE_LIMIT_PER_MIN") (not_positive c.rate_limit_per_min)
      ∷ fail (codes "RATE_LIMIT_BURST") (not_positive c.rate_limit_burst)
      ∷ fail (codes "RATE_LIMIT_MAX_KEYS") (not_positive c.rate_limit_max_keys)
      ∷ fail (codes "ANOMALY_SAMPLE_RATE") (not_ratio floats c.anomaly_sample_rate)
      ∷ fail (codes "OTEL_TRACE_SAMPLE_RATIO") (not_ratio floats c.trace_sample_ratio)
      ∷ fail (codes "OTEL_SERVICE_NAME") (is_nil c.otel_service_name)
      ∷ fail (codes "ADMIN_JWT_TTL") (not_positive c.admin_jwt_ttl)
      ∷ fail (codes "ADMIN_BOOTSTRAP_LOGIN") (is_nil c.admin_bootstrap_login)
      ∷ fail (codes "SNAPSHOT_INTERVAL") (not_positive c.snapshot_interval)
      ∷ fail (codes "SNAPSHOT_FINAL_GRACE") (ltb_ℤ c.snapshot_final_grace (pos 0))
      ∷ fail (codes "PUBLIC_BASE_URL") (bad_public_base_url p c.public_base_url)
      ∷ fail (codes "OTEL_EXPORTER_OTLP_ENDPOINT")
          (not (is_nil c.otlp_endpoint) && bad_http_url p c.otlp_endpoint)
      ∷ []
