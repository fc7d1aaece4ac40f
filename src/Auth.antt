-- ===== src/Auth.antt =====
-- internal/service/auth/auth.go. Argon2, the JWT library and the text of a UUID are parameters; a token's
-- times are instants.
pub mod Access
use televote.Prelude.{
  ℕ, ◌+◌, ◌*◌, ◌/◌, ◌≡◌, ◌<◌, Bool, true, false, not, ◌&&◌, ◌||◌, List, [], ◌∷◌, ◌++◌, Option, none,
  some, ltb, leb, if◌then◌else◌, is_nil, length,
}
use televote.Prelude.Int.{ℤ, pos_part}
use televote.Prelude.Text.{Text, codes, text_eq, byte_len, has_prefix}
use televote.Errors.{
  Result, ok, err, Failure, invalid_token, weak_key, invalid_credentials, unauthorized, forbidden,
  reject_if, ◌>>=◌, ◌>>◌,
}
use televote.Domain.Poll.{Time, Duration, second, is_positive, Admin}
use televote.Domain.Voter.{decode}

-- The map `roleRank`, where a missing role reads as `none`.
unfoldable pub role_rank : Text → Option ℕ
role_rank r =
    if text_eq r (codes "viewer")
    then some 1
    else if text_eq r (codes "editor")
    then some 2
    else if text_eq r (codes "admin")
    then some 3
    else none

abbrev pub rank_or_zero : Option ℕ → ℕ
rank_or_zero none = 0
rank_or_zero (some n) = n

unfoldable pub role_valid : Text → Bool
unfolding role_rank
role_valid r = ltb 0 (rank_or_zero (role_rank r))

abbrev rank_covers : Option ℕ → Option ℕ → Bool
rank_covers (some have) (some need) = leb need have
rank_covers _ _ = false

unfoldable pub at_least : Text → Text → Bool
unfolding role_rank
at_least r required = rank_covers (role_rank r) (role_rank required)

pub record Claims : Type 0 where
  pub role : Text
  pub subject : Text
  pub issued_at : Time
  pub expires_at : Time

-- `jwt.NewNumericDate`: a date in a token has whole seconds.
abbrev pub numeric_date : Time → Time
numeric_date t = t / second * second

-- What the libraries provide: signing, reading a token at an instant, comparing a password with a hash,
-- and the two directions of a UUID's text.
pub record Libraries : Type 0 where
  pub sign : List ℕ → Claims → Result Text
  pub verify : List ℕ → Time → Text → Result Claims
  pub compare : Text → Text → Result Bool
  pub uuid_text : ℕ → Text
  pub parse_uuid : Text → Option ℕ

abbrev pub min_key_len : ℕ
min_key_len = 32

pub record TokenService : Type 0 where
  pub key : List ℕ
  pub ttl : ℕ

unfoldable pub new_token_service : List ℕ → Duration → Result TokenService
new_token_service key ttl = do
  reject_if (ltb (length key) min_key_len) (weak_key ∷ [])
  reject_if (not (is_positive ttl)) []
  ok (record { key = key; ttl = pos_part ttl })

pub record Session : Type 0 where
  pub token : Text
  pub role : Text

module _ (lib : Libraries) where
  abbrev pub claims_at : TokenService → ℕ → Text → Time → Claims
  claims_at t user role now = record {
    role = role;
    subject = lib.uuid_text user;
    issued_at = numeric_date now;
    expires_at = numeric_date (now + t.ttl);
  }

  unfoldable pub issue : TokenService → ℕ → Text → Time → Result Text
  issue t user role now = do
    reject_if (not (role_valid role)) []
    lib.sign t.key (claims_at t user role now)

  unfoldable pub user_id : Claims → Result ℕ
  user_id c = elim (lib.parse_uuid c.subject) [ none ↦ err (invalid_token ∷ []) | some id ↦ ok id ]

  unfoldable pub parse : TokenService → Time → Text → Result Claims
  parse t now raw = elim (lib.verify t.key now raw) [
    | err e ↦ err (invalid_token ∷ e)
    | ok claims ↦ (do
      reject_if (not (role_valid claims.role)) (invalid_token ∷ [])
      id ← user_id claims
      ok claims)
  ]

  unfoldable pub verify_password : Text → Text → Result Bool
  verify_password hash plain = lib.compare plain hash

  -- `Login`, given what the store of admins answers.
  unfoldable pub login : TokenService → Result Admin → Text → Time → Result Session
  login t (err e) password now = err (invalid_credentials ∷ e)
  login t (ok admin) password now = elim (verify_password admin.password_hash password) [
    | err e ↦ err (invalid_credentials ∷ [])
    | ok false ↦ err (invalid_credentials ∷ [])
    | ok true ↦ (do
      token ← issue t admin.id admin.role now
      ok (record { token = token; role = admin.role }))
  ]

abbrev pub bearer : Text
bearer = codes "Bearer "

abbrev pub drop_text : Text → Text → Text
drop_text [] s = s
drop_text (c ∷ p) [] = []
drop_text (c ∷ p) (d ∷ s) = drop_text p s

-- internal/transport/httpapi/admin.go, `requireRole`: the claims under which the next handler is served.
-- A header that is not set reads as the empty text.
module _ (lib : Libraries) where
  unfoldable pub admit : TokenService → Time → Text → Text → Result Claims
  admit t now required raw = elim (parse lib t now raw) [
    | err e ↦ err (unauthorized ∷ [])
    | ok claims ↦ if not (at_least claims.role required) then err (forbidden ∷ []) else ok claims
  ]

  unfoldable pub require_role : TokenService → Time → Text → Text → Result Claims
  unfolding admit
  require_role t now required header =
      if not (has_prefix header bearer)
      then err (unauthorized ∷ [])
      else if is_nil (drop_text bearer header)
      then err (unauthorized ∷ [])
      else admit t now required (drop_text bearer header)

-- `adminJWTBytes` of internal/platform/app/wire.go: the key of the tokens. SHA-256 is a parameter.
unfoldable pub admin_jwt_bytes : (Text → List ℕ) → Text → List ℕ
admin_jwt_bytes sha256 raw =
    let derived = sha256 (codes "televote-dev-admin-jwt:" ++ raw) in
    elim (decode raw) [ none ↦ derived | some key ↦ if leb 32 (length key) then key else derived ]
