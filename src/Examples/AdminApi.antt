-- ===== src/Examples/AdminApi.antt =====
-- Examples of the administrators and their part of the API.
use televote.Prelude.{◌≡◌, refl, Bool, true, false, List, [], ◌∷◌, ◌++◌, none, some, is_nil, ap}
use televote.Prelude.Int.{pos}
use televote.Prelude.Text.{Text, codes, text_eq_iff}
use televote.Errors.{Result, ok, err, ◌>>=◌}
use televote.Domain.Poll.{Admin}
use televote.Auth.{login, issue, bearer}
use televote.Postgres.Admins.{admin_of, by_login, bootstrap_admin}
use televote.Postgres.Admins.Bootstrap.{bootstrap-login}
use televote.Http.Admin.{Site, Moment, open_slug}
use televote.Http.Admin.Guarded.{Harmless, Screened, handle-Guarded}
use televote.Examples.{whole, salt}
use televote.Examples.Access.{lib, tokens, session}
use televote.Examples.Tables.{rows, stored}

-- A hash that is the password itself, and refuses the empty one.
abbrev hash_password : Text → Result Text
hash_password [] = err []
hash_password (c ∷ s) = ok (c ∷ s)

ok_same : {s t : Text} → ok s ≡ ok t → t ≡ s
ok_same h = cc

hash_checks :
    (password hash : Text)
    → hash_password password ≡ ok hash
    → (lib.compare password hash ≡ ok true) × (is_nil hash ≡ false)
hash_checks [] hash h = absurd (cc)
hash_checks (c ∷ s) hash h =
    let same : hash ≡ c ∷ s = ok_same h in
    rw same (ap (λ (b : Bool). ok b) ((text_eq_iff (c ∷ s) (c ∷ s)).1 refl), refl)

abbrev nobody : List Admin
nobody = []

started : (bootstrap_admin hash_password none 5 (codes "root") (codes "pw") nobody).0 ≡ ok tt
unfolding bootstrap_admin televote.Postgres.Admins.ensure_admin
    televote.Postgres.Admins.insert_admin admin_of televote.Postgres.Admins.admin_id_taken
started = refl

no_account : admin_of (codes "root") nobody ≡ none
unfolding admin_of
no_account = refl

bootstrap-login_example :
    let after = (bootstrap_admin hash_password none 5 (codes "root") (codes "pw") nobody).1 in
    (login lib tokens (by_login none (codes "root") after) (codes "pw") 100 ≡ (
      issue lib tokens 5 (codes "admin") 100 >>= λ (token : Text).
      ok (record { token = token; role = codes "admin" })))
    × ((bootstrap_admin hash_password none 6 (codes "root") (codes "other") after).1 ≡ after)
bootstrap-login_example =
    bootstrap-login lib hash_password 5 6 (codes "root") (codes "pw") (codes "other") nobody none
      tokens 100 hash_checks refl refl no_account started

abbrev site : Site
site = record { polls = rows; tables = stored; admins = nobody; audits = [] }

abbrev moment : Moment
moment = record {
  now = 150;
  token_now = 1000;
  db_now = 150;
  io = record { reading = none; writing = none };
  audit_outage = none;
  new_uuid = 9;
  random = some salt;
}

handle-Guarded_example :
    Harmless whole lib tokens
      (pos 0)
      (bearer ++ session.token)
      (open_slug (codes "next"))
      moment
      site
    × Screened whole lib tokens
        (pos 0)
        (bearer ++ session.token)
        (open_slug (codes "next"))
        moment
        site
handle-Guarded_example =
    handle-Guarded whole lib tokens (pos 0) (bearer ++ session.token) (open_slug (codes "next"))
      moment site
