-- ===== src/Pipeline.antt =====
-- A vote from `Accept` of internal/service/voting over `Send` of internal/adapter/producer and the queue to a goroutine of
-- internal/worker/kafka.
use televote.Prelude.{
  ℕ, ◌≤◌, ◌<◌, ◌≡◌, refl, true, List, ◌∷◌, map, Option, none, some, arith, Bool-cases, inl, inr,
  sym, ap, subst, ◌∙◌,
}
use televote.Prelude.Text.{Text}
use televote.Floats.{Floats}
use televote.Errors.{ok, Failure}
use televote.Domain.Poll.{Time, VoteMessage, is_zero, sharding_valid}
use televote.Domain.Voter.{VoterId, hex, derive_voter_id}
use televote.Domain.Voter.Derive.{IsMac}
use televote.PollCfg.{HotConfig, config_sharding}
use televote.Redis.Server.{Server}
use televote.Redis.Tally.{Tally, validate_vote}
use televote.Voting.{Clock, accept}
use televote.Voting.Accept.{Delivers, accept-ok}
use televote.Producer.{Producer, stamp, send}
use televote.Counting.{Poke, Turn, count, finish, apply_with_retry}
use televote.Counting.Count.{accepted-counted}
use televote.Worker.{fresh, runs, look, call}
use televote.Worker.Alone.{drive, result_of, drive-count}

-- The message of a vote on the queue.
abbrev pub queued : HotConfig → VoterId → List ℕ → Time → VoteMessage
queued cfg voter choices at = record {
  poll_id = cfg.id;
  voter_id = hex voter;
  choices = choices;
  produced_at = at;
}

stamp-kept : (now : Time) (m : VoteMessage) → 0 < m.produced_at → stamp now m ≡ m
unfolding stamp
stamp-kept now m later = elim (Bool-cases (is_zero m.produced_at)) [
  | inl zero_time ↦ absurd (ground arith)
  | inr stamped ↦ rw stamped refl
]

same_config : {a b : HotConfig} {o : Option HotConfig} → o ≡ some a → o ≡ some b → a ≡ b
same_config p q = cc

module _ (floats : Floats) (r : Server) (sum64 : List ℕ → ℕ) (uuid_text : ℕ → Text) (t : Tally)
    (hmac : List ℕ → Text → List ℕ) (mac : IsMac hmac)
    (produce : Text → Text → VoteMessage → Option Failure) (p : Producer) (now : Time) where
  -- An accepted vote arrives. When `Accept` says that it took a vote, the queue has taken its message, under the
  -- voter id as the key, and a goroutine that gets this message comes to what the retry loop makes of the
  -- vote: neither the configuration nor the window nor the voter id nor the choices stop it. The poll must be
  -- configured on both sides alike, with a valid number of shards, and the message be stamped no earlier
  -- than the window was checked, before it closes, and with a time that is not zero.
  pub accepted-arrives :
      (lookup : Text → Option HotConfig) (by_id : ℕ → Option HotConfig) (slug client_id : Text)
      (choices : List ℕ) (clock : Clock) (cfg : HotConfig) (deadline : Time) (pokes : List Poke)
      (turns : List Turn) (s : r.Store)
      → lookup slug ≡ some cfg
      → by_id cfg.id ≡ some cfg
      → sharding_valid (config_sharding cfg) ≡ true
      → clock.checked ≤ clock.produced
      → clock.produced < cfg.window.closes_at
      → 0 < clock.produced
      → (accept hmac (send produce p now) lookup slug client_id choices clock).0 ≡ ok tt
      → (v : VoterId) × (derive_voter_id hmac cfg.salt client_id ≡ ok v)
        × (produce p.topic (hex v) (queued cfg v choices clock.produced) ≡ none)
        × (let end =
              drive floats r sum64 uuid_text t
                (look (by_id cfg.id) deadline pokes ∷ map call turns)
                (runs (fresh (some (queued cfg v choices clock.produced))), s) in
            let done =
              finish floats r sum64 uuid_text t
                (apply_with_retry floats r sum64 uuid_text t cfg v choices turns s) in
            (result_of end.0 ≡ done.outcome) × (end.1 ≡ done.store))
        × (validate_vote (config_sharding cfg) choices ≡ ok tt)
  unfolding send
  accepted-arrives lookup by_id slug client_id choices clock cfg deadline pokes turns s found
        configured valid le lt later h =
      let (cfg', found', d') =
        accept-ok hmac (send produce p now) lookup slug client_id choices clock h in
      let d : Delivers hmac (send produce p now) cfg client_id choices clock
          (accept hmac (send produce p now) lookup slug client_id choices clock).1 =
        subst
          (λ c.
            Delivers hmac (send produce p now) c client_id choices clock
              (accept hmac (send produce p now) lookup slug client_id choices clock).1)
          (same_config found' found) d' in
      let v = d.accepted.voter in
      let msg = queued cfg v choices clock.produced in
      let (counts, allowed) =
        accepted-counted floats r sum64 uuid_text t hmac mac by_id deadline pokes turns s cfg
          client_id choices clock d.msg d.accepted configured valid le lt in
      let (res, store) = drive-count floats r sum64 uuid_text t by_id deadline pokes msg turns s in
      let same =
        subst
          (λ m.
            count floats r sum64 uuid_text t by_id deadline pokes m turns s
            ≡ finish floats r sum64 uuid_text t
                (apply_with_retry floats r sum64 uuid_text t cfg v choices turns s))
          d.accepted.sends counts in
      (
        v,
        d.accepted.derived,
        sym (ap (λ m. produce p.topic (hex v) m) (stamp-kept now msg later))
            ∙ subst (λ m. produce p.topic m.voter_id (stamp now m) ≡ none) d.accepted.sends d.taken,
        (res ∙ ap (λ c. c.outcome) same, store ∙ ap (λ c. c.store) same),
        allowed,
      )
