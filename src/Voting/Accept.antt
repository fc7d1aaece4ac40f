-- ===== src/Voting/Accept.antt =====
-- What one call of `Accept` guarantees.
use televote.Prelude.{
  ℕ, suc, ◌-◌, Bool-cases, ◌≤◌, ◌<◌, ◌≡◌, refl, sym, ap, subst, ◌∙◌, true, inl, inr, List, [], ◌∷◌,
  Option, none, some, arith,
}
use televote.Prelude.Text.{Text}
use televote.Errors.{Result, ok, err, is, Result-cases, Failure, queue_unavailable}
use televote.Domain.Poll.{Time, VoteMessage, opened}
use televote.Domain.Choices.{validate}
use televote.Domain.Choices.Valid.{Allowed, validate_iff}
use televote.Domain.Window.{Window, is_open_at}
use televote.Domain.Voter.{hex, derive_voter_id}
use televote.PollCfg.{HotConfig}
use televote.Voting.{
  Event, sent, vote_accepted, vote_rejected, produce_seconds, Clock, message, send, accept_for,
  accept_found, accept,
}

-- How many messages a trace hands to the sink, how many votes it accepts, and how many it rejects.
unfoldable pub messages : List Event → ℕ
messages [] = 0
messages (sent m ∷ es) = suc (messages es)
messages (vote_accepted ∷ es) = messages es
messages (vote_rejected r ∷ es) = messages es
messages (produce_seconds d ∷ es) = messages es

unfoldable pub acceptances : List Event → ℕ
acceptances [] = 0
acceptances (sent m ∷ es) = acceptances es
acceptances (vote_accepted ∷ es) = suc (acceptances es)
acceptances (vote_rejected r ∷ es) = acceptances es
acceptances (produce_seconds d ∷ es) = acceptances es

unfoldable pub rejections : List Event → ℕ
rejections [] = 0
rejections (sent m ∷ es) = rejections es
rejections (vote_accepted ∷ es) = rejections es
rejections (vote_rejected r ∷ es) = suc (rejections es)
rejections (produce_seconds d ∷ es) = rejections es

-- What holds of a vote that is accepted, and of the message that is sent for it.
pub record Accepted (hmac : List ℕ → Text → List ℕ) (cfg : HotConfig) (client_id : Text)
    (choices : List ℕ) (clock : Clock) (msg : VoteMessage) : Type 0 where
  pub allowed : Allowed cfg.rules choices
  pub is_open : cfg.window.status ≡ opened
  pub after_opening : cfg.window.opens_at ≤ clock.checked
  pub before_closing : clock.checked < cfg.window.closes_at
  pub voter : List ℕ
  pub derived : derive_voter_id hmac cfg.salt client_id ≡ ok voter
  pub sends : msg ≡ record {
    poll_id = cfg.id;
    voter_id = hex voter;
    choices = choices;
    produced_at = clock.produced;
  }

-- How a call ends: what it returns is what it counts, and only a queue that is unavailable fails after
-- the message was handed over.
abbrev pub Outcome : Result (Unit {0}) × List Event → Type 0
Outcome (ok _, events) = (acceptances events ≡ 1) × (rejections events ≡ 0) × (messages events ≡ 1)
Outcome (err e, events) =
    (acceptances events ≡ 0)
    × (rejections events ≡ 1)
    × (messages events ≤ 1)
    × (messages events ≡ 1 → is e queue_unavailable ≡ true)

open-window :
    (w : Window) (t : Time)
    → is_open_at w t ≡ true
    → (w.status ≡ opened) × (w.opens_at ≤ t) × (t < w.closes_at)
unfolding is_open_at
open-window w t h = ground arith

-- One message, which the sink takes, and one accepted vote.
pub record Delivers (hmac : List ℕ → Text → List ℕ) (sink : VoteMessage → Option Failure)
    (cfg : HotConfig) (client_id : Text) (choices : List ℕ) (clock : Clock) (events : List Event)
    : Type 0 where
  pub msg : VoteMessage
  pub accepted : Accepted hmac cfg client_id choices clock msg
  pub taken : sink msg ≡ none
  pub trace :
      events ≡ sent msg ∷ produce_seconds (clock.finished - clock.started) ∷ vote_accepted ∷ []

module _ (hmac : List ℕ → Text → List ℕ) (sink : VoteMessage → Option Failure) where
  send-ok :
      (msg : VoteMessage) (clock : Clock)
      → (send hmac sink msg clock).0 ≡ ok tt
      → (sink msg ≡ none)
        × ((send hmac sink msg clock).1
            ≡ sent msg ∷ produce_seconds (clock.finished - clock.started) ∷ vote_accepted ∷ [])
  unfolding send
  send-ok msg clock h = ground arith

  accept_for-send :
      (cfg : HotConfig) (client_id : Text) (choices : List ℕ) (clock : Clock) {v : List ℕ}
      → validate cfg.rules choices ≡ ok tt
      → is_open_at cfg.window clock.checked ≡ true
      → derive_voter_id hmac cfg.salt client_id ≡ ok v
      → accept_for hmac sink cfg client_id choices clock
        ≡ send hmac sink (message hmac sink cfg v choices clock.produced) clock
  unfolding accept_for
  accept_for-send cfg client_id choices clock fine on derived = ground arith

  accept_for-ok :
      (cfg : HotConfig) (client_id : Text) (choices : List ℕ) (clock : Clock)
      → (accept_for hmac sink cfg client_id choices clock).0 ≡ ok tt
      → Delivers hmac sink cfg client_id choices clock
          (accept_for hmac sink cfg client_id choices clock).1
  unfolding accept_for
  accept_for-ok cfg client_id choices clock h = elim (Result-cases (validate cfg.rules choices)) [
    | inr (e, bad) ↦ ground arith
    | inl (_, fine) ↦ elim (Bool-cases (is_open_at cfg.window clock.checked)) [
      | inr shut ↦ ground arith
      | inl on ↦ elim (Result-cases (derive_voter_id hmac cfg.salt client_id)) [
        | inr (e, bad) ↦ ground arith
        | inl (v, derived) ↦
            let runs = accept_for-send cfg client_id choices clock fine on derived in
            let (none_back, trace) =
              send-ok (message hmac sink cfg v choices clock.produced) clock
                (sym (ap (λ (p : Result (Unit {0}) × List Event). p.0) runs) ∙ h) in
            let (status, opens, closes) = open-window cfg.window clock.checked on in
            record {
              msg = message hmac sink cfg v choices clock.produced;
              accepted = record {
                allowed = (validate_iff cfg.rules choices).0 fine;
                is_open = status;
                after_opening = opens;
                before_closing = closes;
                voter = v;
                derived = derived;
                sends = refl;
              };
              taken = none_back;
              trace = ap (λ (p : Result (Unit {0}) × List Event). p.1) runs ∙ trace;
            }
      ]
    ]
  ]

  accept_found-ok :
      (found : Option HotConfig) (client_id : Text) (choices : List ℕ) (clock : Clock)
      → (accept_found hmac sink found client_id choices clock).0 ≡ ok tt
      → (cfg : HotConfig) × (found ≡ some cfg)
        × Delivers hmac sink cfg client_id choices clock
            (accept_found hmac sink found client_id choices clock).1
  unfolding accept_found
  accept_found-ok none client_id choices clock h = absurd (cc)
  accept_found-ok (some cfg) client_id choices clock h =
      (cfg, refl, accept_for-ok cfg client_id choices clock h)

  -- A call that succeeds has found the poll of the slug, the poll's rules allow the choices, its window was
  -- open when it was checked, and the voter id was derived from the poll's salt and the client id. It handed
  -- the sink exactly one message, which the sink took, with the poll's id, the voter id in hexadecimal
  -- and the choices, and then counted one accepted vote and no rejected one.
  pub accept-ok :
      (lookup : Text → Option HotConfig) (slug client_id : Text) (choices : List ℕ) (clock : Clock)
      → (accept hmac sink lookup slug client_id choices clock).0 ≡ ok tt
      → (cfg : HotConfig) × (lookup slug ≡ some cfg)
        × Delivers hmac sink cfg client_id choices clock
            (accept hmac sink lookup slug client_id choices clock).1
  unfolding accept
  accept-ok lookup slug client_id choices clock h =
      accept_found-ok (lookup slug) client_id choices clock h

  send-outcome : (msg : VoteMessage) (clock : Clock) → Outcome (send hmac sink msg clock)
  unfolding send acceptances rejections messages is
  send-outcome msg clock = ground arith

  accept_for-outcome :
      (cfg : HotConfig) (client_id : Text) (choices : List ℕ) (clock : Clock)
      → Outcome (accept_for hmac sink cfg client_id choices clock)
  unfolding accept_for acceptances rejections messages
  accept_for-outcome cfg client_id choices clock =
      elim (Result-cases (validate cfg.rules choices)) [
        | inr (e, bad) ↦ ground arith
        | inl (_, fine) ↦ elim (Bool-cases (is_open_at cfg.window clock.checked)) [
          | inr shut ↦ ground arith
          | inl on ↦ elim (Result-cases (derive_voter_id hmac cfg.salt client_id)) [
            | inr (e, bad) ↦ ground arith
            | inl (v, derived) ↦
                subst Outcome (sym (accept_for-send cfg client_id choices clock fine on derived))
                  (send-outcome (message hmac sink cfg v choices clock.produced) clock)
          ]
        ]
      ]

  accept_found-outcome :
      (found : Option HotConfig) (client_id : Text) (choices : List ℕ) (clock : Clock)
      → Outcome (accept_found hmac sink found client_id choices clock)
  unfolding accept_found acceptances rejections messages
  accept_found-outcome none client_id choices clock = ground arith
  accept_found-outcome (some cfg) client_id choices clock =
      accept_for-outcome cfg client_id choices clock

  -- Every call counts one vote, as accepted when it succeeds and as rejected when it fails; it hands the
  -- sink at most one message, and a call that fails after handing over a message fails with the error
  -- that says the queue is unavailable.
  pub accept-outcome :
      (lookup : Text → Option HotConfig) (slug client_id : Text) (choices : List ℕ) (clock : Clock)
      → Outcome (accept hmac sink lookup slug client_id choices clock)
  unfolding accept
  accept-outcome lookup slug client_id choices clock =
      accept_found-outcome (lookup slug) client_id choices clock
