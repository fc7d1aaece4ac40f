-- ===== src/Postgres/Admins.antt =====
-- internal/adapter/postgres/admins.go, over the rows of `admin_users` and `admin_audit`, and `bootstrapAdmin` of
-- internal/platform/app/wire.go. Hashing a password is a parameter; an audit's payload is not modelled.
pub mod Bootstrap
use televote.Prelude.{
  ℕ, Bool, true, false, ◌||◌, List, [], ◌∷◌, ◌++◌, Option, none, some, ◌==◌, if◌then◌else◌, is_nil,
}
use televote.Prelude.Text.{Text, codes, text_eq}
use televote.Errors.{Result, ok, err, Failure, not_found, unique_violation}
use televote.Domain.Poll.{Admin}
use televote.PollService.{Audit}

-- `WHERE login = $1`.
unfoldable pub admin_of : Text → List Admin → Option Admin
admin_of login [] = none
admin_of login (a ∷ admins) = if text_eq a.login login then some a else admin_of login admins

unfoldable pub admin_id_taken : ℕ → List Admin → Bool
admin_id_taken id [] = false
admin_id_taken id (a ∷ admins) = a.id == id || admin_id_taken id admins

unfoldable pub by_login : Option Failure → Text → List Admin → Result Admin
by_login (some e) login admins = err e
by_login none login admins = elim (admin_of login admins) [
  | none ↦ err (not_found ∷ [])
  | some a ↦ ok a
]

-- The statement of `EnsureAdmin`: a row with the login leaves it without effect and without a result.
unfoldable pub insert_admin : Admin → List Admin → Result Bool × List Admin
insert_admin a admins = elim (admin_of a.login admins) [
  | some _ ↦ (ok false, admins)
  | none ↦
      if admin_id_taken a.id admins
      then (err (unique_violation ∷ []), admins)
      else (ok true, admins ++ a ∷ [])
]

-- `EnsureAdmin`; `uuid.New` is given.
unfoldable pub ensure_admin : Option Failure → ℕ → Admin → List Admin → Result Bool × List Admin
ensure_admin outage new_uuid a admins =
    if is_nil a.login || is_nil a.password_hash || is_nil a.role
    then (err [], admins)
    else elim outage [
      | some e ↦ (err e, admins)
      | none ↦ insert_admin (record a { id = if a.id == 0 then new_uuid else a.id }) admins
    ]

-- `Audit`.
unfoldable pub write_audit : Option Failure → Audit → List Audit → Result (Unit {0}) × List Audit
write_audit outage a audits =
    if is_nil a.actor || is_nil a.action || is_nil a.entity
    then (err [], audits)
    else elim outage [ some e ↦ (err e, audits) | none ↦ (ok tt, audits ++ a ∷ []) ]

-- `bootstrapAdmin`, given the login and the password of the configuration.
unfoldable pub bootstrap_admin :
    (Text → Result Text)
    → Option Failure
    → ℕ
    → Text
    → Text
    → List Admin
    → Result (Unit {0}) × List Admin
bootstrap_admin hash_password outage new_uuid login password admins =
    if is_nil login || is_nil password then (ok tt, admins) else elim (hash_password password) [
      | err e ↦ (err e, admins)
      | ok hash ↦
          let (res, after) =
            ensure_admin outage new_uuid
              (record { id = 0; login = login; password_hash = hash; role = codes "admin" })
              admins in
          (elim res [ err e ↦ err e | ok created ↦ ok tt ], after)
    ]
