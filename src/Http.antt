-- ===== src/Http.antt =====
-- internal/transport/httpapi/errors.go and public.go: the status of an answer, and the handler of a vote.
-- Decoding a JSON body is a parameter.
pub mod Votes
pub mod Admin
pub mod Public
use televote.Prelude.{
  ℕ, ◌≡◌, Bool, true, false, ◌||◌, List, [], ◌∷◌, Option, none, some, ltb, ◌==◌, if◌then◌else◌,
}
use televote.Prelude.Text.{Text, codes}
use televote.Errors.{
  Result, ok, err, Failure, is, invalid_choices, invalid_vote, bad_client_id, invalid_poll,
  bad_request, poll_closed, bad_transition, slug_taken, page_not_found, not_found, version_conflict,
  unauthorized, invalid_credentials, forbidden, queue_unavailable, store_unavailable,
}
use televote.Domain.Poll.{VoteMessage}
use televote.PollCfg.{HotConfig}
use televote.Voting.{Clock, Event, accept}

abbrev bad_input : Failure → Bool
bad_input e =
    is e invalid_choices
    || is e invalid_vote
    || is e bad_client_id
    || is e invalid_poll
    || is e bad_request

-- `classify` of an error that is not nil.
unfoldable pub classify : Failure → ℕ × Text
classify e =
    if bad_input e
    then (400, codes "invalid_choices")
    else if is e poll_closed
    then (409, codes "poll_closed")
    else if is e bad_transition
    then (409, codes "bad_transition")
    else if is e slug_taken
    then (409, codes "slug_taken")
    else if is e page_not_found || is e not_found
    then (404, codes "not_found")
    else if is e version_conflict
    then (409, codes "version_conflict")
    else if is e unauthorized || is e invalid_credentials
    then (401, codes "unauthorized")
    else if is e forbidden
    then (403, codes "forbidden")
    else if is e queue_unavailable || is e store_unavailable
    then (503, codes "unavailable")
    else (500, codes "internal")

-- An answer: its status, the code or the word of its body, and the header Retry-After.
pub record Response : Type 0 where
  pub status : ℕ
  pub body : Text
  pub retry_after : Option ℕ

unfoldable pub write_error : Failure → Response
unfolding classify
write_error e =
    let (status, code) = classify e in
    record { status = status; body = code; retry_after = if status == 503 then some 1 else none }

-- The body of a vote, once it is decoded.
pub record VoteRequest : Type 0 where
  pub choices : List ℕ
  pub voter : Text

module _ (hmac : List ℕ → Text → List ℕ) (sink : VoteMessage → Option Failure) where
  abbrev pub answer : Result (Unit {0}) → Response
  answer (ok _) = record { status = 202; body = codes "accepted"; retry_after = none }
  answer (err e) = write_error e

  -- `castVote`: a body that is too large or no JSON is `none`.
  unfoldable pub cast_vote :
      (Text → Option HotConfig) → Text → Option VoteRequest → Clock → Response × List Event
  cast_vote lookup slug none clock = (write_error (bad_request ∷ []), [])
  cast_vote lookup slug (some req) clock =
      let (res, events) = accept hmac sink lookup slug req.voter req.choices clock in
      (answer res, events)
