-- ===== src/Examples.antt =====
-- The theorems at concrete inputs: the data that the examples share.
mod Votes
mod Worker
mod Consumer
mod Intake
mod Tables
mod Lifecycle
mod Pipeline
mod Rules
mod Access
mod AdminApi
mod Platform
use televote.Prelude.{
  ℕ, ◌+◌, ◌-◌, ◌*◌, ◌/◌, ◌%◌, ◌^◌, ◌<◌, ◌≡◌, ◌≢◌, refl, Bool, true, false, List, [], ◌∷◌, Option,
  none, some, ltb, leb, All, length, arith,
}
use televote.Prelude.Int.{ℤ, pos, negsuc, pos_part}
use televote.Prelude.Text.{Text, codes}
use televote.Floats.{Floats}
use televote.Errors.{Result, ok, err, Failure}
use televote.Domain.Poll.{
  Time, second, PollOption, Poll, Sharding, single, multiple, opened, scheduled, VoteMessage,
}
use televote.Domain.Choices.{ChoiceRules}
use televote.Domain.Voter.{VoterId}
use televote.Domain.Voter.Hex.{IsVoterId}
use televote.Domain.Voter.Derive.{IsMac}
use televote.PollCfg.{HotConfig}
use televote.Redis.Keys.Slots.{IsUuidText}
use televote.Redis.Tally.{Tally}
use televote.Redis.Tally.Apply.{TruncFits}
use televote.Voting.{Clock}

-- Whole numbers in place of float64.
abbrev pub whole : Floats
whole = record {
  of_int = pos_part;
  trunc = λ x. pos (x % 2 ^ 63);
  add = λ a b. a + b;
  sub = λ a b. a - b;
  mul = λ a b. a * b;
  div = λ a b. a / b;
  lt = ltb;
  le = leb;
}

pub whole-TruncFits : TruncFits whole
whole-TruncFits x = omega arith

-- One character for the number, and 35 zeros.
abbrev pub uuid_text : ℕ → Text
uuid_text id = (200 + id) ∷ codes "00000000000000000000000000000000000"

pub uuid_text-IsUuidText : IsUuidText uuid_text
uuid_text-IsUuidText = record {
  size = λ id. refl;
  plain = λ id. ground arith;
  injective = λ i j e. ground arith;
}

abbrev pub hash : List ℕ → ℕ
hash v = length v

-- A sum of 32 bytes that tells two lengths of the message apart.
abbrev pub mac : List ℕ → Text → List ℕ
mac key message =
    length message % 256
    ∷ 1
    ∷ 2
    ∷ 3
    ∷ 4
    ∷ 5
    ∷ 6
    ∷ 7
    ∷ 8
    ∷ 9
    ∷ 10
    ∷ 11
    ∷ 12
    ∷ 13
    ∷ 14
    ∷ 15
    ∷ 16
    ∷ 17
    ∷ 18
    ∷ 19
    ∷ 20
    ∷ 21
    ∷ 22
    ∷ 23
    ∷ 24
    ∷ 25
    ∷ 26
    ∷ 27
    ∷ 28
    ∷ 29
    ∷ 30
    ∷ 31
    ∷ []

pub mac-IsMac : IsMac mac
mac-IsMac = record { size = λ key message. refl; bytes = λ key message. ground arith }

abbrev pub ann : VoterId
ann = 9 ∷ 1 ∷ 2 ∷ 3 ∷ 4 ∷ 5 ∷ 6 ∷ 7 ∷ 8 ∷ 9 ∷ 10 ∷ 11 ∷ 12 ∷ 13 ∷ 14 ∷ 15 ∷ []

abbrev pub bob : VoterId
bob = 8 ∷ 1 ∷ 2 ∷ 3 ∷ 4 ∷ 5 ∷ 6 ∷ 7 ∷ 8 ∷ 9 ∷ 10 ∷ 11 ∷ 12 ∷ 13 ∷ 14 ∷ 15 ∷ []

pub ann-IsVoterId : IsVoterId ann
ann-IsVoterId = record { size = refl; bytes = ground arith }

pub bob-IsVoterId : IsVoterId bob
bob-IsVoterId = record { size = refl; bytes = ground arith }

abbrev pub target : Sharding
target = record { poll_id = 7; shard_count = 3 }

abbrev pub tally : Tally
tally = record { ttl = 1800 * second; jitter = 0; cmd_timeout = second }

abbrev pub salt : List ℕ
salt = codes "0123456789abcdef"

abbrev pub rules : ChoiceRules
rules = record { type = multiple; option_count = 3; min_choices = 1; max_choices = 2 }

abbrev pub options : List PollOption
options =
    record { idx = 0; text = codes "a" }
    ∷ record { idx = 1; text = codes "b" }
    ∷ record { idx = 2; text = codes "c" }
    ∷ []

abbrev pub config : HotConfig
config = record {
  id = 7;
  slug = codes "final";
  question = codes "Who?";
  options = options;
  rules = rules;
  window = record { status = opened; opens_at = 100; closes_at = 200 };
  shard_count = 3;
  salt = salt;
}

abbrev pub poll : Poll
poll = record {
  id = 7;
  slug = codes "final";
  question = codes "Who?";
  type = multiple;
  options = options;
  min_choices = 1;
  max_choices = 2;
  status = opened;
  opens_at = 100;
  closes_at = 200;
  shard_count = 3;
  salt = salt;
  expected_audience = pos 1000;
  expected_conversion = 0;
  version = 4;
}

abbrev pub clock : Clock
clock = record { checked = 150; produced = 151; started = 151; finished = 160 }

abbrev pub takes : VoteMessage → Option Failure
takes m = none
