-- ===== src/Examples/Access.antt =====
-- Examples of access and configuration.
use televote.Prelude.{
  ℕ, ◌+◌, ◌≤◌, ◌<◌, ◌≡◌, ◌≢◌, ◌*◌, ◌⊎◌, inl, inr, refl, Bool, true, false, List, [], ◌∷◌, ◌++◌,
  Option, none, some, arith, if◌then◌else◌, ltb, lt→ltb, is_nil, ap, subst,
}
use televote.Prelude.Int.{ℤ, pos}
use televote.Prelude.Text.{Text, codes, text_eq, has_prefix}
use televote.Errors.{Result, ok, err, forbidden}
use televote.Domain.Poll.{Time, Admin, second}
use televote.Auth.{
  role_rank, role_valid, at_least, Claims, Libraries, TokenService, Session, claims_at, issue,
  verify_password, login, bearer, require_role,
}
use televote.Auth.Access.{IsJwt, login-admits}
use televote.Config.{Config, Parsers}
use televote.Config.Secrets.{load_from}
use televote.Config.Sound.{Loaded, load_from-Loaded}
use televote.Examples.{whole}

-- Tokens that spell out their claims, for subjects of one character: the times, the subject, and the role.
abbrev write_token : Claims → Text → Result Text
write_token c (user ∷ []) = ok (c.issued_at ∷ c.expires_at ∷ user ∷ c.role)
write_token c _ = err []

abbrev read_token : Time → Text → Result Claims
read_token now (issued_at ∷ expires_at ∷ user ∷ role) =
    if ltb now expires_at
    then ok (record {
      role = role;
      subject = user ∷ [];
      issued_at = issued_at;
      expires_at = expires_at;
    })
    else err []
read_token now _ = err []

abbrev one_letter : Text → Option ℕ
one_letter (user ∷ []) = some user
one_letter _ = none

abbrev pub lib : Libraries
lib = record {
  sign = λ key c. write_token c c.subject;
  verify = λ key now s. read_token now s;
  compare = λ plain hash. ok (text_eq plain hash);
  uuid_text = λ id. id ∷ [];
  parse_uuid = one_letter;
}

token_full : (c : Claims) (subject s : Text) → write_token c subject ≡ ok s → is_nil s ≡ false
token_full c [] s h = absurd cc
token_full c (u ∷ []) s h = ground arith
token_full c (u ∷ v ∷ w) s h = absurd cc

ok_inj : {s t : Text} → ok s ≡ ok t → s ≡ t
ok_inj e = cc

token_read :
    (c : Claims) (subject s : Text) (now : Time)
    → subject ≡ c.subject
    → write_token c subject ≡ ok s
    → now < c.expires_at
    → read_token now s ≡ ok c
token_read c [] s now same h lt = absurd cc
token_read c (u ∷ []) s now same h lt =
    subst (λ x. read_token now x ≡ ok c) (ok_inj h)
      (rw (lt→ltb now c.expires_at lt) (ap (λ subject. ok (record c { subject = subject })) same))
token_read c (u ∷ v ∷ w) s now same h lt = absurd cc

lib-IsJwt : IsJwt lib
lib-IsJwt = record {
  signed = λ key c s h. token_full c c.subject s h;
  reads = λ key c s now h from to lt. token_read c c.subject s now refl h lt;
  uuids = λ id. refl;
}

abbrev pub tokens : TokenService
tokens = record { key = codes "0123456789abcdef0123456789abcdef"; ttl = 1800 * second + 5 }

abbrev admin : Admin
admin = record { id = 5; login = codes "eve"; password_hash = codes "pw"; role = codes "editor" }

abbrev pub session : Session
session = record {
  token = 100 * second ∷ 1900 * second ∷ 5 ∷ codes "editor";
  role = codes "editor";
}

logged_in : login lib tokens (ok admin) (codes "pw") (100 * second) ≡ ok session
unfolding login verify_password issue role_valid role_rank text_eq
logged_in = refl

login-admits_example :
    (verify_password lib (codes "pw") (codes "pw") ≡ ok true)
    × (require_role lib tokens (1000 * second) (codes "viewer") (bearer ++ session.token) ≡ (
        if at_least (codes "editor") (codes "viewer")
        then ok (claims_at lib tokens 5 (codes "editor") (100 * second))
        else err (forbidden ∷ [])))
login-admits_example =
    login-admits lib lib-IsJwt tokens admin (codes "pw") (100 * second) (1000 * second)
      (codes "viewer") logged_in (omega arith)

abbrev claims : Claims
claims = record { role = codes "editor"; subject = 5 ∷ []; issued_at = 100; expires_at = 1900 }

abbrev parsers : Parsers
parsers = record {
  split_host = λ s. some (codes "127.0.0.1");
  public_ip = λ s. false;
  url = λ s. some (codes "http", codes "host");
}

abbrev no_credentials : Text → Option (Text × Text)
no_credentials dsn = none

abbrev sample : Config
sample = record {
  env = codes "production";
  log_level = codes "info";
  http_addr = codes ":8080";
  debug_addr = codes "127.0.0.1:6060";
  read_header_timeout = pos 3;
  read_timeout = pos 5;
  write_timeout = pos 10;
  idle_timeout = pos 60;
  shutdown_grace = pos 25;
  max_body_bytes = pos 1024;
  redis_addrs = codes "redis:6379" ∷ [];
  redis_dial_timeout = pos 2;
  redis_cmd_timeout = pos 1;
  vote_retry_budget = pos (30 * second);
  breaker_error_ratio = 1;
  breaker_window = pos 5;
  consumer_workers = pos 64;
  postgres_dsn = codes "dsn";
  postgres_read_dsn = [];
  postgres_max_conns = pos 20;
  poll_config_refresh = pos 2;
  poll_min_lead_time = pos 0;
  kafka_brokers = codes "kafka:9092" ∷ [];
  kafka_topic = codes "votes";
  kafka_consumer_group = codes "counting";
  kafka_linger = pos 5;
  kafka_produce_timeout = pos 2;
  dedup_ttl = pos 1800000000001;
  dedup_ttl_jitter = 1;
  rate_limit_per_min = pos 6000;
  rate_limit_burst = pos 200;
  rate_limit_max_keys = pos 200;
  anomaly_sample_rate = 0;
  admin_jwt_key = codes "0123456789abcdef0123456789abcdef";
  admin_jwt_ttl = pos 30;
  admin_bootstrap_login = codes "root";
  admin_bootstrap_password = codes "hunter2";
  snapshot_interval = pos 5;
  snapshot_final_grace = pos 30;
  drain_window = pos (300 * second);
  otlp_endpoint = codes "http://otel";
  otel_service_name = codes "televote";
  trace_sample_ratio = 0;
  sentry_dsn = [];
  public_base_url = codes "http://localhost";
}

abbrev sample_loaded : Config
sample_loaded = record sample { postgres_read_dsn = codes "dsn" }

loaded_lem : load_from whole parsers no_credentials (ok sample) ≡ ok sample_loaded
unfolding load_from televote.Config.Secrets.validate televote.Config.Secrets.broken
    televote.Config.Secrets.rules televote.Config.server_rules televote.Config.store_rules
    televote.Config.queue_rules televote.Config.dedup_rule televote.Config.dedup_ttl_lower_bound
    televote.Config.drain_budget televote.Config.Secrets.secret_rules televote.Config.is_production
    televote.Config.debug_enabled televote.Config.bad_debug_addr televote.Config.bad_http_url
    televote.Config.bad_public_base_url televote.Config.has_empty
    televote.Config.Secrets.is_placeholder_secret televote.Config.Secrets.contains
    televote.Config.Secrets.contains_any televote.Config.Secrets.default_credentials text_eq
    has_prefix televote.Prelude.Text.to_lower televote.Prelude.Text.trim_space
    televote.Prelude.Text.byte_len televote.Prelude.Int.add64
loaded_lem = refl

load_from-Loaded_example : Loaded whole no_credentials sample_loaded
load_from-Loaded_example = load_from-Loaded whole parsers no_credentials (ok sample) loaded_lem
