-- ===== src/Postgres/Admins/Bootstrap.antt =====
-- The first administrator can log in, and a later start changes no account.
use televote.Prelude.{
  ℕ, ◌≡◌, refl, true, false, List, [], ◌∷◌, ◌++◌, Option, none, some, is_nil, arith, inl, inr,
}
use televote.Prelude.Text.{Text, codes, text_eq_iff}
use televote.Errors.{Result, ok, Failure, Result-cases, ◌>>=◌}
use televote.Domain.Poll.{Time, Admin}
use televote.Postgres.Admins.{admin_of, by_login, insert_admin, ensure_admin, bootstrap_admin}
use televote.Auth.{Libraries, TokenService, login, verify_password, issue}

admin_of-append :
    (login : Text) (admins : List Admin) (a : Admin)
    → admin_of login admins ≡ none
    → a.login ≡ login
    → admin_of login (admins ++ a ∷ []) ≡ some a
unfolding admin_of
admin_of-append login [] a h e = ground (arith, text_eq_iff a.login login)
admin_of-append login (b ∷ admins) a h e = ground (arith, admin_of-append login admins a)

by_login-found :
    (login : Text) (admins : List Admin) {a : Admin}
    → admin_of login admins ≡ some a
    → by_login none login admins ≡ ok a
unfolding by_login
by_login-found login admins h = ground arith

-- What hashing guarantees: the password passes the comparison with its hash, which is not empty.
abbrev pub IsHash : Libraries → (Text → Result Text) → Type 0
IsHash lib hash_password =
    (password hash : Text)
    → hash_password password ≡ ok hash
    → (lib.compare password hash ≡ ok true) × (is_nil hash ≡ false)

module _ (lib : Libraries) (hash_password : Text → Result Text) where
  -- A start with an account that is there changes nothing.
  known_account :
      (outage : Option Failure) (uuid : ℕ) (name password : Text) (admins : List Admin) {a : Admin}
      → admin_of name admins ≡ some a
      → (bootstrap_admin hash_password outage uuid name password admins).1 ≡ admins
  unfolding bootstrap_admin ensure_admin insert_admin
  known_account outage uuid name password admins {a} h = ground arith

  created :
      (uuid : ℕ) (name password hash : Text) (admins : List Admin)
      → is_nil name ≡ false
      → is_nil password ≡ false
      → is_nil hash ≡ false
      → hash_password password ≡ ok hash
      → admin_of name admins ≡ none
      → (bootstrap_admin hash_password none uuid name password admins).0 ≡ ok tt
      → (bootstrap_admin hash_password none uuid name password admins).1
        ≡ admins
          ++ record { id = uuid; login = name; password_hash = hash; role = codes "admin" } ∷ []
  unfolding bootstrap_admin ensure_admin insert_admin
  created uuid name password hash admins n p q e none_there done = ground arith

  login-opens :
      (t : TokenService) (admin : Admin) (password : Text) (now : Time)
      → verify_password lib admin.password_hash password ≡ ok true
      → login lib t (ok admin) password now ≡ (
          issue lib t admin.id admin.role now >>= λ (token : Text).
          ok (record { token = token; role = admin.role }))
  unfolding login
  login-opens t admin password now h = rw (h, login) refl

  -- The first administrator can log in. When no account has the configured login and the start succeeds, then
  -- logging in with the configured password comes to a session of an `admin`, if its token can be signed.
  -- No later start, with whatever password and whether the database answers, changes any account.
  pub bootstrap-login :
      (uuid again : ℕ) (name password other : Text) (admins : List Admin) (outage : Option Failure)
      (t : TokenService) (now : Time) (hashes : IsHash lib hash_password)
      → is_nil name ≡ false
      → is_nil password ≡ false
      → admin_of name admins ≡ none
      → (bootstrap_admin hash_password none uuid name password admins).0 ≡ ok tt
      → let after = (bootstrap_admin hash_password none uuid name password admins).1 in
        (login lib t (by_login none name after) password now ≡ (
          issue lib t uuid (codes "admin") now >>= λ (token : Text).
          ok (record { token = token; role = codes "admin" })))
        × ((bootstrap_admin hash_password outage again name other after).1 ≡ after)
  bootstrap-login uuid again name password other admins outage t now hashes n p none_there done =
      elim (Result-cases (hash_password password)) [
        | inr (e, bad) ↦ absurd (unfold bootstrap_admin in ground arith)
        | inl (hash, e) ↦
            let (opens, full) = hashes password hash e in
            let made = created uuid name password hash admins n p full e none_there done in
            let admin : Admin = record {
              id = uuid;
              login = name;
              password_hash = hash;
              role = codes "admin";
            } in
            let there = admin_of-append name admins admin none_there refl in
            rw made (
              rw (by_login-found name (admins ++ admin ∷ []) there)
                  (login-opens t admin password now (unfold verify_password in opens)),
              known_account outage again name other (admins ++ admin ∷ []) there,
            )
      ]
