-- ===== src/Examples/Intake.antt =====
-- Examples of accepting and counting single votes.
use televote.Prelude.{
  ℕ, suc, ◌+◌, ◌*◌, ◌-◌, ◌≤◌, ◌<◌, ◌≡◌, ◌≢◌, refl, Bool, true, false, List, [], ◌∷◌, Option, none,
  some, All, arith, length, ◌⊎◌, inl, inr, ◌↔◌, if◌then◌else◌,
}
use televote.Prelude.Text.{Text, codes, text_eq}
use televote.Errors.{Result, ok, err, Failure, store_unavailable, breaker_open, poll_closed}
use televote.Domain.Poll.{Time, VoteMessage, same_status}
use televote.Domain.Choices.{validate, check_count, check_each}
use televote.Domain.Window.{is_open_at, contains}
use televote.Domain.Voter.{VoterId, derive_voter_id, text_in, take, hex}
use televote.PollCfg.{HotConfig, config_sharding}
use televote.Redis.Server.{Server}
use televote.Domain.Choices.Valid.{validate_iff}
use televote.Domain.Voter.{constant_client_ids}
use televote.Prelude.Text.{byte_len, to_lower, trim_space}
use televote.Redis.Server.Memory.{memory, empty_store}
use televote.Redis.Fault.{no_reply}
use televote.Redis.Tally.{delivered, reply_lost}
use televote.Redis.Tally.Ledger.{Attempt}
use televote.Redis.Tally.Once.{process}
use televote.Voting.{Clock, accept, accept_found, accept_for, send}
use televote.Voting.Accept.{Accepted, Delivers, Outcome, accept-ok, accept-outcome}
use televote.Counting.{Turn, Poke, await_config, apply_with_retry, count, out_of_window}
use televote.Counting.Retry.{made, schedule, Ends, retry-deliveries}
use televote.Counting.Await.{Named, GivesUp, await_config-ends}
use televote.Counting.Count.{accepted-late}
use televote.Http.{VoteRequest, cast_vote}
use televote.Http.Votes.{cast_vote-Delivers}
use televote.Examples.{
  whole, uuid_text, hash, mac, mac-IsMac, ann, tally, config, clock, takes, salt,
}

abbrev lookup : Text → Option HotConfig
lookup s = if text_eq s (codes "final") then some config else none

abbrev by_number : ℕ → Option HotConfig
by_number i = some config

abbrev choices : List ℕ
choices = 0 ∷ 2 ∷ []

accepted_lem : (accept mac takes lookup (codes "final") (codes "client-1") choices clock).0 ≡ ok tt
unfolding accept accept_found accept_for send validate check_count check_each is_open_at contains
    derive_voter_id text_in text_eq televote.Prelude.Text.byte_len televote.Prelude.Text.to_lower
    televote.Prelude.Text.trim_space
accepted_lem = refl

accept-ok_example :
    (cfg : HotConfig) × (lookup (codes "final") ≡ some cfg)
    × Delivers mac takes cfg
        (codes "client-1")
        choices
        clock
        (accept mac takes lookup (codes "final") (codes "client-1") choices clock).1
accept-ok_example =
    accept-ok mac takes lookup (codes "final") (codes "client-1") choices clock accepted_lem

accept-outcome_example :
    Outcome (accept mac takes lookup (codes "other") (codes "client-1") choices clock)
accept-outcome_example =
    accept-outcome mac takes lookup (codes "other") (codes "client-1") choices clock

-- A server that counts its commands, for which every key is new.
abbrev tape : Server
tape = record {
  Store = ℕ;
  exists = λ k t s. false;
  field = λ k f t s. s;
  set_nx_ex = λ k ttl now s. (true, s + 1);
  hincrby = λ k f now s. s + 1;
  expire = λ k ttl now s. s + 1;
  hgetall = λ k t s. [];
}

-- The breaker refuses once, a reply is lost, and the third call is answered.
abbrev turns : List Turn
turns =
    record { gate = some breaker_open; link = delivered; at = 10; cancelled = none }
    ∷ record { gate = none; link = reply_lost (no_reply []); at = 11; cancelled = none }
    ∷ record { gate = none; link = delivered; at = 12; cancelled = none }
    ∷ []

retry-deliveries_example :
    let p =
      apply_with_retry whole memory hash uuid_text tally config ann choices turns empty_store in
    let xs =
      made whole memory hash uuid_text tally
        (config_sharding config)
        ann
        choices
        turns
        empty_store in
    (p.store ≡ process whole memory hash uuid_text tally (config_sharding config) xs empty_store)
    × All (λ (a : Attempt). (a.voter ≡ ann) × (a.choices ≡ choices)) xs
    × (p.waits ≡ schedule 0 (length p.waits))
    × Ends turns p.outcome
retry-deliveries_example =
    retry-deliveries whole memory hash uuid_text tally config ann choices turns empty_store

abbrev vote : VoteMessage
vote = record {
  poll_id = 7;
  voter_id = codes "000102030405060708090a0b0c0d0e0f";
  choices = choices;
  produced_at = 151;
}

abbrev client_id : VoterId
client_id = 8 ∷ 1 ∷ 2 ∷ 3 ∷ 4 ∷ 5 ∷ 6 ∷ 7 ∷ 8 ∷ 9 ∷ 10 ∷ 11 ∷ 12 ∷ 13 ∷ 14 ∷ 15 ∷ []

derived_lem : derive_voter_id mac salt (codes "client-1") ≡ ok client_id
unfolding derive_voter_id text_in take byte_len text_eq to_lower trim_space
derived_lem = refl

abbrev sent_at : Time → VoteMessage
sent_at t = record { poll_id = 7; voter_id = hex client_id; choices = choices; produced_at = t }

abbrev late_clock : Clock
late_clock = record { checked = 199; produced = 200; started = 200; finished = 201 }

valid_lem : validate config.rules choices ≡ ok tt
unfolding validate check_count check_each
valid_lem = refl

abbrev accepted_at :
    (c : Clock)
    → 100 ≤ c.checked
    → c.checked < 200
    → Accepted mac config (codes "client-1") choices c (sent_at c.produced)
accepted_at c le lt = record {
  allowed = (validate_iff config.rules choices).0 valid_lem;
  is_open = refl;
  after_opening = le;
  before_closing = lt;
  voter = client_id;
  derived = derived_lem;
  sends = refl;
}

accepted-late_example :
    count whole memory hash uuid_text tally by_number 1000 [] (sent_at 200) turns empty_store
    ≡ record {
      outcome = some (err (poll_closed ∷ []));
      events = out_of_window ∷ [];
      store = empty_store;
    }
accepted-late_example =
    accepted-late whole memory hash uuid_text tally mac mac-IsMac by_number 1000 [] turns
      empty_store config (codes "client-1") choices late_clock (sent_at 200)
      (accepted_at late_clock (omega arith) (omega arith)) refl (omega arith)

-- The configuration is found at the second turn.
abbrev first_poke : Poke
first_poke = record { at = 1000; cancelled = false; found = none }

abbrev pokes : List Poke
pokes = record { at = 250001000; cancelled = false; found = some config } ∷ []

abbrev missing : Option HotConfig
missing = none

await_config-ends_example :
    (await_config missing 250000999 (first_poke ∷ pokes) ≢ none)
    × ((cfg : HotConfig)
        → missing ≡ some cfg
        → (turns : List Poke) → await_config missing 250000999 turns ≡ some (some cfg))
    × ((cfg : HotConfig)
        → await_config missing 250000999 (first_poke ∷ pokes) ≡ some (some cfg)
        → (missing ≡ some cfg) ⊎ ((missing ≡ none) × Named cfg (first_poke ∷ pokes)))
    × (await_config missing 250000999 (first_poke ∷ pokes) ≡ some none
        → (missing ≡ none) × GivesUp 250000999 (first_poke ∷ pokes))
await_config-ends_example =
    await_config-ends missing 250000999 1000 first_poke pokes (omega arith)
      (omega arith, (omega arith, tt))

abbrev request : VoteRequest
request = record { choices = choices; voter = codes "client-1" }

cast_vote-Delivers_example :
    ((cast_vote mac takes lookup (codes "final") (some request) clock).0.status ≡ 202
      → (cfg : HotConfig) × (lookup (codes "final") ≡ some cfg)
        × Delivers mac takes cfg
            (codes "client-1")
            choices
            clock
            (cast_vote mac takes lookup (codes "final") (some request) clock).1)
    × ((cast_vote mac takes lookup (codes "final") none clock).0.status ≡ 400)
    × ((cast_vote mac takes lookup (codes "final") none clock).1 ≡ [])
    × (((cast_vote mac takes lookup (codes "final") (some request) clock).0.retry_after ≡ some 1)
        ↔ ((cast_vote mac takes lookup (codes "final") (some request) clock).0.status ≡ 503))
cast_vote-Delivers_example = cast_vote-Delivers mac takes lookup (codes "final") request clock
