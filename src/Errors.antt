-- ===== src/Errors.antt =====
-- The sentinel errors of the program, and Go errors as `errors.Is` sees them
-- (internal/domain/errors.go, and the `var Err…` blocks of the other packages).
use televote.Prelude.{
  ℕ, ◌≡◌, refl, Bool, true, false, ◌||◌, List, [], ◌∷◌, ◌++◌, ◌==◌, or_assoc, sym, inl, inr, ◌⊎◌,
}

pub data Sentinel : Type 0 where
  invalid_choices poll_closed bad_transition not_found slug_taken version_conflict : Sentinel
  bad_client_id bad_salt invalid_vote store_unavailable queue_unavailable invalid_poll : Sentinel
  bad_request page_not_found unauthorized forbidden : Sentinel
  invalid_token weak_key invalid_credentials : Sentinel
  no_repo bad_interval no_addresses no_brokers no_topic : Sentinel
  invalid_config insecure_default dedup_ttl_too_short : Sentinel
  breaker_open too_many_requests context_canceled deadline_exceeded closing : Sentinel
  unique_violation foreign_key_violation no_rows : Sentinel

-- Sentinels are compared by identity; the number stands for the address.
abbrev pub identity : Sentinel → ℕ
identity invalid_choices = 0
identity poll_closed = 1
identity bad_transition = 2
identity not_found = 3
identity slug_taken = 4
identity version_conflict = 5
identity bad_client_id = 6
identity bad_salt = 7
identity invalid_vote = 8
identity store_unavailable = 9
identity queue_unavailable = 10
identity invalid_poll = 11
identity bad_request = 12
identity page_not_found = 13
identity unauthorized = 14
identity forbidden = 15
identity invalid_token = 16
identity weak_key = 17
identity invalid_credentials = 18
identity no_repo = 19
identity bad_interval = 20
identity no_addresses = 21
identity no_brokers = 22
identity no_topic = 23
identity invalid_config = 24
identity insecure_default = 25
identity dedup_ttl_too_short = 26
identity breaker_open = 27
identity too_many_requests = 28
identity context_canceled = 29
identity deadline_exceeded = 30
identity closing = 31
identity unique_violation = 32
identity foreign_key_violation = 33
identity no_rows = 34

-- A Go error is the list of the sentinels that its `%w` chain holds. Texts are not modelled:
-- an error made by `errors.New` on the spot is the empty list.
abbrev pub Failure : Type 0
Failure = List Sentinel

-- `errors.Is(err, s)`.
unfoldable pub is : Failure → Sentinel → Bool
is [] s = false
is (x ∷ xs) s = identity x == identity s || is xs s

-- A pair `(value, error)`: `err e` is a non-nil error.
pub data Result {ℓ} (A : Type ℓ) : Type ℓ where
  ok : A → Result A
  err : Failure → Result A

pub Result-cases {ℓ} :
    {A : Type ℓ} (r : Result A) → ((a : A) × (r ≡ ok a)) ⊎ ((e : Failure) × (r ≡ err e))
Result-cases (ok a) = inl (a, refl)
Result-cases (err e) = inr (e, refl)

-- `if err != nil { return err }`, and what is done with the value otherwise.
infixl 5 ◌>>=◌
abbrev pub ◌>>=◌ {κ ℓ} : {B : Type κ} {A : Type ℓ} → Result A → (A → Result B) → Result B
err failure >>= next = err failure
ok value >>= next = next value

-- `if bad { return err }`.
abbrev pub reject_if : Bool → Failure → Result (Unit {0})
reject_if true e = err e
reject_if false e = ok tt

-- The same where there is no value.
infixl 5 ◌>>◌
abbrev pub ◌>>◌ {κ} : {B : Type κ} → Result (Unit {0}) → Result B → Result B
check >> rest = check >>= λ _. rest

-- `fmt.Errorf("…: %w", err)` keeps the chain; `fmt.Errorf("%w: %w", s, err)` puts a sentinel on it.
abbrev pub map_err {ℓ} : {A : Type ℓ} → (Failure → Failure) → Result A → Result A
map_err f (ok a) = ok a
map_err f (err e) = err (f e)

pub is-append : (xs ys : Failure) (s : Sentinel) → is (xs ++ ys) s ≡ (is xs s || is ys s)
unfolding is
is-append [] ys s = refl
is-append (x ∷ xs) ys s =
    rw (is-append xs ys s) (sym (or_assoc (identity x == identity s) (is xs s) (is ys s)))
