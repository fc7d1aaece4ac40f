-- ===== src/Config/Secrets.antt =====
-- The rules on secrets, and the whole of `validate`.
use televote.Prelude.{
  ℕ, Bool, true, false, not, ◌||◌, List, [], ◌∷◌, ◌++◌, Option, none, some, ltb, if◌then◌else◌,
  is_nil,
}
use televote.Prelude.Text.{Text, codes, text_eq, byte_len, to_lower, has_prefix}
use televote.Floats.{Floats, float_zero}
use televote.Errors.{Result, ok, err, Failure, insecure_default, invalid_config}
use televote.Config.{
  Config, FieldError, Rule, Parsers, one_of, is_production, server_rules, store_rules, queue_rules,
  dedup_rule,
}

-- `strings.Contains`.
unfoldable pub contains : Text → Text → Bool
contains [] sub = is_nil sub
contains (c ∷ s) sub = has_prefix (c ∷ s) sub || contains s sub

abbrev pub placeholder_markers : List Text
placeholder_markers =
    codes "change_me"
    ∷ codes "changeme"
    ∷ codes "dev-only"
    ∷ codes "example"
    ∷ codes "placeholder"
    ∷ codes "secret123"
    ∷ []

unfoldable pub contains_any : Text → List Text → Bool
contains_any s [] = false
contains_any s (m ∷ ms) = contains s m || contains_any s ms

unfoldable pub is_placeholder_secret : Text → Bool
is_placeholder_secret v = contains_any (to_lower v) placeholder_markers

-- `dsnHasDefaultCredentials`, given what `url.Parse` says of the user and the password, where it finds both.
unfoldable pub default_credentials : (Text → Option (Text × Text)) → Text → Bool
default_credentials credentials dsn =
    if is_nil dsn
    then false
    else if is_placeholder_secret dsn
    then true
    else elim (credentials dsn) [
      | none ↦ false
      | some u ↦
          if is_nil u.1
          then false
          else if text_eq u.1 u.0
          then true
          else one_of (to_lower u.1) (
              codes "postgres"
              ∷ codes "password"
              ∷ codes "televote"
              ∷ codes "admin"
              ∷ codes "root"
              ∷ [])
    ]

abbrev pub min_secret_len : ℕ
min_secret_len = 32

-- `insecure(key, …)` under its condition.
abbrev pub insecure : Text → Bool → Rule
insecure key broken =
    (broken, record { key = key; sentinels = insecure_default ∷ invalid_config ∷ [] })

-- The errors that the broken rules give, in order.
unfoldable pub broken : List Rule → List FieldError
broken [] = []
broken ((b, e) ∷ rest) = let more = broken rest in if b then e ∷ more else more

module _ (floats : Floats) (p : Parsers) (credentials : Text → Option (Text × Text)) where
  -- `UsesInsecureDefaults`.
  unfoldable pub uses_insecure_defaults : Config → Bool
  uses_insecure_defaults c =
      is_placeholder_secret c.admin_jwt_key
      || is_placeholder_secret c.admin_bootstrap_password
      || default_credentials credentials c.postgres_dsn
      || default_credentials credentials c.postgres_read_dsn

  -- `validateProductionSecrets`; the cases of a switch give one error.
  unfoldable pub secret_rules : Config → List Rule
  secret_rules c =
      if not (is_production c)
      then []
      else insecure (codes "ADMIN_JWT_KEY") (
          is_nil c.admin_jwt_key
          || is_placeholder_secret c.admin_jwt_key
          || ltb (byte_len c.admin_jwt_key) min_secret_len)
        ∷ insecure (codes "ADMIN_BOOTSTRAP_PASSWORD")
            (is_nil c.admin_bootstrap_password || is_placeholder_secret c.admin_bootstrap_password)
        ∷ insecure (codes "POSTGRES_DSN") (default_credentials credentials c.postgres_dsn)
        ∷ insecure (codes "POSTGRES_READ_DSN") (default_credentials credentials c.postgres_read_dsn)
        ∷ insecure (codes "DEDUP_TTL_JITTER") (floats.le c.dedup_ttl_jitter float_zero)
        ∷ []

  unfoldable pub rules : Config → List Rule
  unfolding server_rules store_rules queue_rules dedup_rule secret_rules
  rules c =
      server_rules floats p c
      ++ store_rules floats p c
      ++ queue_rules floats p c
      ++ (dedup_rule floats c ∷ [])
      ++ secret_rules c

  -- `validate`, which is nil when no rule is broken.
  unfoldable pub validate : Config → List FieldError
  validate c = broken (rules c)

  -- `errors.Join`.
  abbrev sentinels_of : List FieldError → Failure
  sentinels_of [] = []
  sentinels_of (e ∷ es) = e.sentinels ++ sentinels_of es

  abbrev pub accept_valid : List FieldError → Config → Result Config
  accept_valid [] c = ok c
  accept_valid (e ∷ es) c = err (sentinels_of (e ∷ es))

  abbrev pub with_read_dsn : Config → Config
  with_read_dsn c =
      if is_nil c.postgres_read_dsn then record c { postgres_read_dsn = c.postgres_dsn } else c

  -- `LoadFrom`, from what the library makes of the environment: its error is the translated one.
  unfoldable pub load_from : Result Config → Result Config
  unfolding validate
  load_from (err e) = err e
  load_from (ok c) = accept_valid (validate (with_read_dsn c)) (with_read_dsn c)
