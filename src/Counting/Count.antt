-- ===== src/Counting/Count.antt =====
-- What one call of `Count` guarantees, and what becomes of a vote that `Accept` took.
use televote.Prelude.{
  ℕ, ◌≤◌, ◌<◌, ◌≡◌, ◌≢◌, refl, Bool, true, false, List, [], ◌∷◌, Option, some, arith, All, inl, inr,
  Bool-cases, sym, subst, ◌∙◌,
}
use televote.Prelude.Text.{Text}
use televote.Floats.{Floats}
use televote.Errors.{ok, err, poll_closed}
use televote.Domain.Poll.{Time, Sharding, VoteMessage, sharding_valid, vote_result_valid}
use televote.Domain.Choices.{ChoiceRules, mark}
use televote.Domain.Choices.Valid.{Allowed, Distinct, counted-pos}
use televote.Domain.Window.{contains, contains_iff}
use televote.Domain.Voter.{VoterId, hex, parse_voter_id}
use televote.Domain.Voter.Hex.{parse_voter_id-hex}
use televote.Domain.Voter.Derive.{IsMac, derive_voter_id-ok}
use televote.PollCfg.{HotConfig, config_sharding}
use televote.Redis.Server.{Server}
use televote.Redis.Tally.{Tally, check_once, validate_vote}
use televote.Redis.Tally.Once.{process}
use televote.Voting.{Clock}
use televote.Voting.Accept.{Accepted}
use televote.Counting.{
  vote_counted, apply_seconds, out_of_window, Poke, Turn, await_config, apply_with_retry, Counted,
  finish, count_for, count_awaited, count,
}
use televote.Counting.Retry.{made}

module _ (floats : Floats) (r : Server) (sum64 : List ℕ → ℕ) (uuid_text : ℕ → Text)
    (t : Tally) where
  -- A vote that was counted, or found to have been counted: how it passed, and what it left.
  pub record Passed (cfg : HotConfig) (msg : VoteMessage) (turns : List Turn) (s : r.Store) (n : ℕ)
      (after : Counted floats r sum64 uuid_text t) : Type 0 where
    pub opens : cfg.window.opens_at ≤ msg.produced_at
    pub closes : msg.produced_at < cfg.window.closes_at
    pub voter : VoterId
    pub parsed : parse_voter_id msg.voter_id ≡ ok voter
    pub stored :
        after.store
        ≡ process floats r sum64 uuid_text t
            (config_sharding cfg)
            (made floats r sum64 uuid_text t (config_sharding cfg) voter msg.choices turns s)
            s
    pub valid : vote_result_valid n ≡ true
    pub told : after.events ≡ apply_seconds ∷ vote_counted n ∷ []

  pub count_for-passes :
      (cfg : HotConfig) (msg : VoteMessage) (turns : List Turn) (s : r.Store) {v : VoterId}
      → contains cfg.window msg.produced_at ≡ true
      → parse_voter_id msg.voter_id ≡ ok v
      → count_for floats r sum64 uuid_text t cfg msg turns s
        ≡ finish floats r sum64 uuid_text t
            (apply_with_retry floats r sum64 uuid_text t cfg v msg.choices turns s)
  unfolding count_for
  count_for-passes cfg msg turns s inside parsed = ground arith

  pub count-found :
      (lookup : ℕ → Option HotConfig) (deadline : Time) (pokes : List Poke) (msg : VoteMessage)
      (turns : List Turn) (s : r.Store) {cfg : HotConfig}
      → lookup msg.poll_id ≡ some cfg
      → count floats r sum64 uuid_text t lookup deadline pokes msg turns s
        ≡ count_for floats r sum64 uuid_text t cfg msg turns s
  unfolding count await_config count_awaited
  count-found lookup deadline pokes msg turns s e = rw e refl

-- The rules of a poll are at least as strict as the check before the script.
check_once-Distinct :
    (seen : ℕ → Bool) (xs : List ℕ)
    → All (λ i. seen i ≡ false) xs
    → Distinct xs
    → check_once seen xs ≡ ok tt
unfolding check_once
check_once-Distinct seen [] fresh d = refl
check_once-Distinct seen (x ∷ xs) fresh d =
    let ih = check_once-Distinct (mark seen x) xs (unmarked seen x xs fresh.1 d.0) d.1 in
    rw fresh.0 ih
  where
    unmarked :
        (seen : ℕ → Bool) (i : ℕ) (ys : List ℕ)
        → All (λ j. seen j ≡ false) ys
        → All (λ j. j ≢ i) ys
        → All (λ j. mark seen i j ≡ false) ys
    unmarked seen i [] h k = tt
    unmarked seen i (y ∷ ys) h k = (ground arith, unmarked seen i ys h.1 k.1)

nothing-marked : (xs : List ℕ) → All (λ (i : ℕ). false ≡ false) xs
nothing-marked [] = tt
nothing-marked (x ∷ xs) = (refl, nothing-marked xs)

Allowed-validate_vote :
    (rules : ChoiceRules) (target : Sharding) (choices : List ℕ)
    → sharding_valid target ≡ true
    → Allowed rules choices
    → validate_vote target choices ≡ ok tt
unfolding validate_vote
Allowed-validate_vote rules target [] valid a =
    absurd (omega (arith, counted-pos rules.type rules 0 a.counted))
Allowed-validate_vote rules target (x ∷ xs) valid a =
    rw (valid, check_once-Distinct (λ _. false) (x ∷ xs) (nothing-marked (x ∷ xs)) a.distinct) refl

module _ (floats : Floats) (r : Server) (sum64 : List ℕ → ℕ) (uuid_text : ℕ → Text) (t : Tally)
    (hmac : List ℕ → Text → List ℕ) (mac : IsMac hmac) where
  -- What `Accept` took, `Count` does not refuse: the message of an accepted vote whose poll is configured on
  -- both sides alike, stamped no earlier than the window was checked and before it closes, goes to the
  -- retry loop under the voter id that was derived from the client id, and the check before the script
  -- lets its choices pass.
  pub accepted-counted :
      (lookup : ℕ → Option HotConfig) (deadline : Time) (pokes : List Poke) (turns : List Turn)
      (s : r.Store) (cfg : HotConfig) (client_id : Text) (choices : List ℕ) (clock : Clock)
      (msg : VoteMessage) (a : Accepted hmac cfg client_id choices clock msg)
      → lookup cfg.id ≡ some cfg
      → sharding_valid (config_sharding cfg) ≡ true
      → clock.checked ≤ clock.produced
      → clock.produced < cfg.window.closes_at
      → (count floats r sum64 uuid_text t lookup deadline pokes msg turns s
          ≡ finish floats r sum64 uuid_text t
              (apply_with_retry floats r sum64 uuid_text t cfg a.voter choices turns s))
        × (validate_vote (config_sharding cfg) choices ≡ ok tt)
  accepted-counted lookup deadline pokes turns s cfg client_id choices clock msg a configured valid
        le lt =
      let stamped : VoteMessage = record {
        poll_id = cfg.id;
        voter_id = hex a.voter;
        choices = choices;
        produced_at = clock.produced;
      } in
      let id = (derive_voter_id-ok hmac mac cfg.salt client_id a.derived).0 in
      let inside =
        (contains_iff cfg.window clock.produced).1 (omega (arith, a.after_opening), lt) in
      (
        subst
            (λ m.
              count floats r sum64 uuid_text t lookup deadline pokes m turns s
              ≡ finish floats r sum64 uuid_text t
                  (apply_with_retry floats r sum64 uuid_text t cfg a.voter choices turns s))
            (sym a.sends)
            (count-found floats r sum64 uuid_text t lookup deadline pokes stamped turns s configured
              ∙ count_for-passes floats r sum64 uuid_text t cfg stamped turns s inside
                  (parse_voter_id-hex a.voter id)),
        Allowed-validate_vote cfg.rules (config_sharding cfg) choices valid a.allowed,
      )

  -- The window is checked at one reading of the clock and the message is stamped at a later one: an accepted
  -- vote that is stamped when the window has closed is dropped by `Count` as out of the window, and the
  -- store is left as it is.
  pub accepted-late :
      (lookup : ℕ → Option HotConfig) (deadline : Time) (pokes : List Poke) (turns : List Turn)
      (s : r.Store) (cfg : HotConfig) (client_id : Text) (choices : List ℕ) (clock : Clock)
      (msg : VoteMessage)
      → Accepted hmac cfg client_id choices clock msg
      → lookup cfg.id ≡ some cfg
      → cfg.window.closes_at ≤ clock.produced
      → count floats r sum64 uuid_text t lookup deadline pokes msg turns s
        ≡ record { outcome = some (err (poll_closed ∷ [])); events = out_of_window ∷ []; store = s }
  unfolding count_for
  accepted-late lookup deadline pokes turns s cfg client_id choices clock msg a configured le =
      let stamped : VoteMessage = record {
        poll_id = cfg.id;
        voter_id = hex a.voter;
        choices = choices;
        produced_at = clock.produced;
      } in
      let outside : contains cfg.window clock.produced ≡ false =
        elim (Bool-cases (contains cfg.window clock.produced)) [
          | inl e ↦ absurd (omega (arith, (contains_iff cfg.window clock.produced).0 e))
          | inr e ↦ e
        ] in
      subst
        (λ m. count floats r sum64 uuid_text t lookup deadline pokes m turns s ≡ record {
          outcome = some (err (poll_closed ∷ []));
          events = out_of_window ∷ [];
          store = s;
        })
        (sym a.sends)
        (count-found floats r sum64 uuid_text t lookup deadline pokes stamped turns s configured
          ∙ rw outside refl)
