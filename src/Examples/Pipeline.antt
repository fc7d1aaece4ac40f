-- ===== src/Examples/Pipeline.antt =====
-- An example of a vote on its way from the API to a goroutine of the consumer.
use televote.Prelude.{
  ℕ, ◌≡◌, refl, true, arith, List, [], ◌∷◌, map, Option, none, some, if◌then◌else◌,
}
use televote.Prelude.Text.{Text, codes, text_eq}
use televote.Errors.{ok, Failure}
use televote.Domain.Poll.{VoteMessage, sharding_valid}
use televote.Domain.Window.{contains, is_open_at}
use televote.Domain.Choices.{validate, check_count, check_each}
use televote.Domain.Voter.{VoterId, hex, derive_voter_id}
use televote.PollCfg.{HotConfig, config_sharding}
use televote.Redis.Server.Memory.{memory, empty_store}
use televote.Redis.Tally.{validate_vote, delivered}
use televote.Voting.{accept, accept_found, accept_for}
use televote.Producer.{Producer, stamp, send}
use televote.Counting.{Turn, finish, apply_with_retry}
use televote.Worker.{fresh, runs, look, call}
use televote.Worker.Alone.{drive, result_of}
use televote.Pipeline.{queued, accepted-arrives}
use televote.Examples.{whole, uuid_text, hash, mac, mac-IsMac, tally, config, clock}

abbrev lookup : Text → Option HotConfig
lookup s = if text_eq s (codes "final") then some config else none

abbrev by_number : ℕ → Option HotConfig
by_number i = some config

abbrev choices : List ℕ
choices = 0 ∷ 2 ∷ []

abbrev turns : List Turn
turns = record { gate = none; link = delivered; at = 10; cancelled = none } ∷ []

abbrev queue : Text → Text → VoteMessage → Option Failure
queue topic key m = none

abbrev producer : Producer
producer = record { topic = codes "votes"; linger = 5; timeout = 2 }

found : lookup (codes "final") ≡ some config
unfolding text_eq
found = refl

accepted :
    (accept mac (send queue producer 0) lookup (codes "final") (codes "client-1") choices clock).0
    ≡ ok tt
unfolding accept accept_found accept_for televote.Voting.send send stamp validate check_count
    check_each is_open_at contains derive_voter_id text_eq televote.Domain.Voter.text_in
    televote.Prelude.Text.byte_len televote.Prelude.Text.to_lower televote.Prelude.Text.trim_space
accepted = refl

config_valid : sharding_valid (config_sharding config) ≡ true
unfolding sharding_valid config_sharding
config_valid = refl

accepted-arrives_example :
    (v : VoterId) × (derive_voter_id mac config.salt (codes "client-1") ≡ ok v)
    × (queue producer.topic (hex v) (queued config v choices 151) ≡ none)
    × (let end =
          drive whole memory hash uuid_text tally
            (look (by_number config.id) 1000 [] ∷ map call turns)
            (runs (fresh (some (queued config v choices 151))), empty_store) in
        let done =
          finish whole memory hash uuid_text tally (
            apply_with_retry whole memory hash uuid_text tally config v choices turns
              empty_store) in
        (result_of end.0 ≡ done.outcome) × (end.1 ≡ done.store))
    × (validate_vote (config_sharding config) choices ≡ ok tt)
accepted-arrives_example =
    accepted-arrives whole memory hash uuid_text tally mac mac-IsMac queue producer 0 lookup
      by_number (codes "final") (codes "client-1") choices clock config 1000 [] turns empty_store
      found refl config_valid (omega arith) (omega arith) (omega arith) accepted
