-- ===== src/Http/Votes.antt =====
-- What the answer to a vote says.
use televote.Prelude.{ℕ, ◌≤◌, ◌≡◌, refl, List, [], Option, none, some, arith, ◌↔◌}
use televote.Prelude.Text.{Text}
use televote.Errors.{Result, ok, err, Failure, is}
use televote.Domain.Poll.{VoteMessage}
use televote.PollCfg.{HotConfig}
use televote.Voting.{Clock, accept}
use televote.Voting.Accept.{Delivers, accept-ok}
use televote.Http.{classify, write_error, VoteRequest, answer, cast_vote}

classify-bad : (e : Failure) → 400 ≤ (classify e).0
unfolding classify
classify-bad e = ground arith

module _ (hmac : List ℕ → Text → List ℕ) (sink : VoteMessage → Option Failure) where
  answer-ok : (r : Result (Unit {0})) → (answer hmac sink r).status ≡ 202 → r ≡ ok tt
  unfolding write_error
  answer-ok (ok _) h = refl
  answer-ok (err e) h = absurd (omega (arith, classify-bad e))

  answer-retry :
      (r : Result (Unit {0}))
      → ((answer hmac sink r).retry_after ≡ some 1) ↔ ((answer hmac sink r).status ≡ 503)
  unfolding write_error
  answer-retry (ok _) = (λ h. ground arith, λ h. ground arith)
  answer-retry (err e) = (λ h. ground arith, λ h. ground arith)

  -- A vote is answered with 202 only if its message was delivered: the poll was found under the slug, the
  -- choices and the voter passed, and the sink took exactly one message. A body that cannot be read is
  -- answered with 400 and does nothing, and Retry-After is set on the answers with 503 and on no other.
  pub cast_vote-Delivers :
      (lookup : Text → Option HotConfig) (slug : Text) (req : VoteRequest) (clock : Clock)
      → ((cast_vote hmac sink lookup slug (some req) clock).0.status ≡ 202
          → (cfg : HotConfig) × (lookup slug ≡ some cfg)
            × Delivers hmac sink cfg req.voter req.choices clock
                (cast_vote hmac sink lookup slug (some req) clock).1)
        × ((cast_vote hmac sink lookup slug none clock).0.status ≡ 400)
        × ((cast_vote hmac sink lookup slug none clock).1 ≡ [])
        × (((cast_vote hmac sink lookup slug (some req) clock).0.retry_after ≡ some 1)
            ↔ ((cast_vote hmac sink lookup slug (some req) clock).0.status ≡ 503))
  unfolding cast_vote write_error
  cast_vote-Delivers lookup slug req clock =
      let res = (accept hmac sink lookup slug req.voter req.choices clock).0 in
      (
        λ h. accept-ok hmac sink lookup slug req.voter req.choices clock (answer-ok res h),
        unfold classify is in refl,
        refl,
        answer-retry res,
      )
