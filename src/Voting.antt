-- ===== src/Voting.antt =====
-- internal/service/voting/voting.go: accepting one vote. The configuration lookup, HMAC-SHA256 and the
-- sink are arguments; what a call does to the sink and the observer is the list of its events, in order.
pub mod Accept
use televote.Prelude.{
  ℕ, if◌then◌else◌, ◌-◌, ◌≡◌, Bool, true, false, not, List, [], ◌∷◌, Option, none, some,
}
use televote.Prelude.Text.{Text}
use televote.Errors.{
  Result, ok, err, Failure, not_found, poll_closed, queue_unavailable, reject_if, ◌>>=◌, ◌>>◌,
}
use televote.Domain.Poll.{Time, VoteMessage}
use televote.Domain.Choices.{validate}
use televote.Domain.Window.{is_open_at}
use televote.Domain.Voter.{hex, derive_voter_id}
use televote.PollCfg.{HotConfig}

pub data Reason : Type 0 where
  unknown_poll invalid_choices poll_is_closed bad_voter unavailable : Reason

-- `sent` is the call of the sink, whatever it returns; `produce_seconds` is given in nanoseconds.
pub data Event : Type 0 where
  sent : VoteMessage → Event
  vote_accepted : Event
  vote_rejected : Reason → Event
  produce_seconds : ℕ → Event

-- The clock is read when the window is checked, when the message is stamped, and around the sending.
pub record Clock : Type 0 where
  pub checked : Time
  pub produced : Time
  pub started : Time
  pub finished : Time

-- `New`, given for each dependency whether it is there.
unfoldable pub new_voting : Bool → Bool → Bool → Bool → Result (Unit {0})
new_voting lookup sink obs now = do
  reject_if (not lookup) []
  reject_if (not sink) []
  reject_if (not obs) []
  reject_if (not now) []
  ok tt

module _ (hmac : List ℕ → Text → List ℕ) (sink : VoteMessage → Option Failure) where
  abbrev pub message : HotConfig → List ℕ → List ℕ → Time → VoteMessage
  message cfg voter choices at = record {
    poll_id = cfg.id;
    voter_id = hex voter;
    choices = choices;
    produced_at = at;
  }

  -- From the making of the message on.
  unfoldable pub send : VoteMessage → Clock → Result (Unit {0}) × List Event
  send msg clock = elim (sink msg) [
    | some e ↦ (err (queue_unavailable ∷ e), sent msg ∷ vote_rejected unavailable ∷ [])
    | none ↦
        (ok tt, sent msg ∷ produce_seconds (clock.finished - clock.started) ∷ vote_accepted ∷ [])
  ]

  -- `Accept`, once the poll is found.
  unfoldable pub accept_for : HotConfig → Text → List ℕ → Clock → Result (Unit {0}) × List Event
  accept_for cfg client_id choices clock = elim (validate cfg.rules choices) [
    | err e ↦ (err e, vote_rejected invalid_choices ∷ [])
    | ok _ ↦
        if not (is_open_at cfg.window clock.checked)
        then (err (poll_closed ∷ []), vote_rejected poll_is_closed ∷ [])
        else elim (derive_voter_id hmac cfg.salt client_id) [
          | err e ↦ (err e, vote_rejected bad_voter ∷ [])
          | ok voter ↦ send (message cfg voter choices clock.produced) clock
        ]
  ]

  -- `Accept`, given what the lookup found.
  unfoldable pub accept_found :
      Option HotConfig → Text → List ℕ → Clock → Result (Unit {0}) × List Event
  accept_found none client_id choices clock =
      (err (not_found ∷ []), vote_rejected unknown_poll ∷ [])
  accept_found (some cfg) client_id choices clock = accept_for cfg client_id choices clock

  unfoldable pub accept :
      (Text → Option HotConfig) → Text → Text → List ℕ → Clock → Result (Unit {0}) × List Event
  unfolding accept_found
  accept lookup slug client_id choices clock = accept_found (lookup slug) client_id choices clock
