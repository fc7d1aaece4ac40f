-- ===== src/Auth/Access.antt =====
-- Who is let in.
use televote.Prelude.{
  ℕ, ◌+◌, ◌<◌, ◌≡◌, refl, Bool, true, false, List, [], ◌∷◌, ◌++◌, Option, none, some, arith, ltb,
  leb, if◌then◌else◌, is_nil, Bool-cases, ◌⊎◌, inl, inr, ◌∙◌,
}
use televote.Prelude.Text.{Text, has_prefix}
use televote.Errors.{ok, err, forbidden}
use televote.Domain.Poll.{Time, Admin}
use televote.Auth.{
  role_rank, rank_or_zero, role_valid, at_least, Claims, Libraries, TokenService, Session,
  claims_at, issue, user_id, parse, verify_password, login, bearer, numeric_date, drop_text, admit,
  require_role,
}

abbrev ranks : Option ℕ → Option ℕ → Bool
ranks (some have) (some need) = leb need have
ranks _ _ = false

ranks_trans : (a b c : Option ℕ) → ranks a b ≡ true → ranks b c ≡ true → ranks a c ≡ true
ranks_trans a b c h k = ground arith

ranks-total :
    (a b : Option ℕ)
    → ltb 0 (rank_or_zero a) ≡ true
    → ltb 0 (rank_or_zero b) ≡ true
    → (ranks a a ≡ true) × ((ranks a b ≡ true) ⊎ (ranks b a ≡ true))
ranks-total a b h k = ground arith

known-rank : (r : Text) → ltb 0 (rank_or_zero (role_rank r)) ≡ false → role_rank r ≡ none
unfolding role_rank
known-rank r h = ground arith

-- The roles are a chain: being at least a role is transitive, every known role is at least itself and any two
-- known roles compare, and a role that is not known is never at least another, nor another at least it.
at_least-order :
    (a b c : Text)
    → (at_least a b ≡ true → at_least b c ≡ true → at_least a c ≡ true)
      × (role_valid a ≡ true
          → role_valid b ≡ true
          → (at_least a a ≡ true) × ((at_least a b ≡ true) ⊎ (at_least b a ≡ true)))
      × (role_valid a ≡ false → (at_least a b ≡ false) × (at_least b a ≡ false))
unfolding at_least role_valid
at_least-order a b c = (
  λ h k. ranks_trans (role_rank a) (role_rank b) (role_rank c) h k,
  λ h k. ranks-total (role_rank a) (role_rank b) h k,
  λ h. let unknown = known-rank a h in (ground arith, ground arith),
)

-- What signing and reading of tokens guarantee: a signed token is not empty, and until it expires it reads
-- as the claims it was signed for under the same key, if their dates have whole seconds.
pub record IsJwt (lib : Libraries) : Type 0 where
  pub signed : (key : List ℕ) (c : Claims) (s : Text) → lib.sign key c ≡ ok s → is_nil s ≡ false
  pub reads :
      (key : List ℕ) (c : Claims) (s : Text) (now : Time)
      → lib.sign key c ≡ ok s
      → numeric_date c.issued_at ≡ c.issued_at
      → numeric_date c.expires_at ≡ c.expires_at
      → now < c.expires_at
      → lib.verify key now s ≡ ok c
  pub uuids : (id : ℕ) → lib.parse_uuid (lib.uuid_text id) ≡ some id

whole_seconds : (t : Time) → numeric_date (numeric_date t) ≡ numeric_date t
whole_seconds t = omega arith

module _ (lib : Libraries) (jwt : IsJwt lib) where
  issued :
      (t : TokenService) (user : ℕ) (role : Text) (now : Time) {s : Text}
      → issue lib t user role now ≡ ok s
      → (role_valid role ≡ true) × (lib.sign t.key (claims_at lib t user role now) ≡ ok s)
  unfolding issue
  issued t user role now h = (ground arith, ground arith)

  parsed :
      (t : TokenService) (user : ℕ) (role : Text) (now later : Time) {s : Text}
      → issue lib t user role now ≡ ok s
      → later < numeric_date (now + t.ttl)
      → parse lib t later s ≡ ok (claims_at lib t user role now)
  unfolding parse user_id
  parsed t user role now later {s} h lt =
      let (valid, sig) = issued t user role now h in
      let read =
        jwt.reads t.key (claims_at lib t user role now) s later sig (whole_seconds now)
          (whole_seconds (now + t.ttl)) lt in
      let id = jwt.uuids user in ground arith

  login-issues :
      (t : TokenService) (admin : Admin) (password : Text) (now : Time) {session : Session}
      → login lib t (ok admin) password now ≡ ok session
      → (verify_password lib admin.password_hash password ≡ ok true)
        × (session.role ≡ admin.role)
        × (issue lib t admin.id admin.role now ≡ ok session.token)
  unfolding login
  login-issues t admin password now {session} h = ground arith

  served :
      (t : TokenService) (now : Time) (required raw : Text) {c : Claims}
      → parse lib t now raw ≡ ok c
      → admit lib t now required raw
        ≡ (if at_least c.role required then ok c else err (forbidden ∷ []))
  unfolding admit
  served t now required raw {c} h = elim (Bool-cases (at_least c.role required)) [
    | inl y ↦ ground arith
    | inr n ↦ ground arith
  ]

  with_bearer :
      (t : TokenService) (now : Time) (required raw : Text)
      → is_nil raw ≡ false
      → require_role lib t now required (bearer ++ raw) ≡ admit lib t now required raw
  unfolding require_role has_prefix
  with_bearer t now required raw h = rw h refl

  -- A login lasts: it succeeds only with the admin's password, and until the token expires, which is at the last
  -- whole second of its time to live, a request that carries it as a bearer token is served under the admin's
  -- id and role where the role is at least the one required, and is refused as forbidden where it is not.
  pub login-admits :
      (t : TokenService) (admin : Admin) (password : Text) (now later : Time) (required : Text)
      {session : Session}
      → login lib t (ok admin) password now ≡ ok session
      → later < numeric_date (now + t.ttl)
      → (verify_password lib admin.password_hash password ≡ ok true)
        × (require_role lib t later required (bearer ++ session.token) ≡ (
            if at_least admin.role required
            then ok (claims_at lib t admin.id admin.role now)
            else err (forbidden ∷ [])))
  unfolding require_role admit
  login-admits t admin password now later required {session} h lt =
      let (checked, role, token) = login-issues t admin password now h in
      let (valid, sig) = issued t admin.id admin.role now token in
      let full = jwt.signed t.key _ session.token sig in
      let read = parsed t admin.id admin.role now later token lt in
      (
        checked,
        with_bearer t later required session.token full
            ∙ served t later required session.token read,
      )

  -- Nobody is served without a role: where a request is served, its header is a bearer token that parses, and
  -- the role in it is a known one that is at least the role required.
  require_role-ok :
      (t : TokenService) (now : Time) (required header : Text) {c : Claims}
      → require_role lib t now required header ≡ ok c
      → (has_prefix header bearer ≡ true)
        × (parse lib t now (drop_text bearer header) ≡ ok c)
        × (role_valid c.role ≡ true)
        × (at_least c.role required ≡ true)
  unfolding require_role admit parse
  require_role-ok t now required header {c} h = ground arith
