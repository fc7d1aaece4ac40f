-- ===== src/Domain/Poll.antt =====
-- internal/domain/poll.go, fsm.go, sharding.go, vote_result.go, vote_message.go and admin.go.
-- Integers of fixed width are numbers; a float64 is its bit pattern; an instant is the number of
-- nanoseconds since Go's zero time, so that `IsZero` is the test for 0; a UUID is a number, Nil is 0.
pub mod Machine
use televote.Prelude.{
  ℕ, ◌*◌, ◌%◌, ◌^◌, ◌≡◌, refl, Bool, true, false, not, ◌&&◌, ◌||◌, Option, none, some, List, [],
  ◌∷◌, ltb, leb, ◌==◌, if◌then◌else◌, length,
}
use televote.Prelude.Int.{ℤ, pos, negsuc}
use televote.Prelude.Text.{Text, codes, text_eq}

abbrev pub Time : Type 0
Time = ℕ

-- A `time.Duration`, in nanoseconds.
abbrev pub Duration : Type 0
Duration = ℤ

abbrev pub second : ℕ
second = 1_000_000_000

abbrev pub millisecond : ℕ
millisecond = 1_000_000

-- `IsZero`.
abbrev pub is_zero : Time → Bool
is_zero t = t == 0

-- `d > 0`.
abbrev pub is_positive : ℤ → Bool
is_positive (pos n) = ltb 0 n
is_positive (negsuc n) = false

-- The `string` type PollType: its two constants, and any other string.
pub data PollType : Type 0 where
  single multiple : PollType
  other : Text → PollType

abbrev pub poll_type_of : Text → PollType
poll_type_of s =
    if text_eq s (codes "single")
    then single
    else if text_eq s (codes "multiple")
    then multiple
    else other s

unfoldable pub poll_type_valid : PollType → Bool
poll_type_valid single = true
poll_type_valid multiple = true
poll_type_valid (other s) = false

-- The `string` type Status.
pub data Status : Type 0 where
  draft scheduled opened closed archived : Status
  unknown : Text → Status

abbrev pub status_of : Text → Status
status_of s =
    if text_eq s (codes "draft")
    then draft
    else if text_eq s (codes "scheduled")
    then scheduled
    else if text_eq s (codes "open")
    then opened
    else if text_eq s (codes "closed")
    then closed
    else if text_eq s (codes "archived")
    then archived
    else unknown s

unfoldable pub status_valid : Status → Bool
status_valid (unknown s) = false
status_valid draft = true
status_valid _ = true

-- `==` on statuses.
abbrev pub same_status : Status → Status → Bool
same_status draft draft = true
same_status scheduled scheduled = true
same_status opened opened = true
same_status closed closed = true
same_status archived archived = true
same_status (unknown s) (unknown t) = text_eq s t
same_status _ _ = false

-- The map `transitions`.
unfoldable pub transitions : Status → Option Status
transitions draft = some scheduled
transitions scheduled = some opened
transitions opened = some closed
transitions closed = some archived
transitions archived = none
transitions (unknown s) = none

unfoldable pub can_transition_to : Status → Status → Bool
unfolding transitions
can_transition_to s next = elim (transitions s) [
  | none ↦ false
  | some allowed ↦ same_status allowed next
]

abbrev pub max_options : ℕ
max_options = 255

pub record PollOption : Type 0 where
  pub idx : ℕ
  pub text : Text

pub record Poll : Type 0 where
  pub id : ℕ
  pub slug : Text
  pub question : Text
  pub type : PollType
  pub options : List PollOption
  pub min_choices : ℕ
  pub max_choices : ℕ
  pub status : Status
  pub opens_at : Time
  pub closes_at : Time
  pub shard_count : ℕ
  pub salt : List ℕ
  pub expected_audience : ℤ
  pub expected_conversion : ℕ
  pub version : ℕ

unfoldable pub option_count : Poll → ℕ
option_count p =
    if ltb max_options (length p.options) then max_options else length p.options % 2 ^ 8

abbrev pub shards_per_master : ℕ
shards_per_master = 500

abbrev pub max_shard_count : ℕ
max_shard_count = 16384

unfoldable pub shard_count_for : ℤ → ℕ
shard_count_for (negsuc n) = shards_per_master
shard_count_for (pos n) =
    if leb n 1
    then shards_per_master
    else if ltb 32 n
    then max_shard_count
    else n * shards_per_master % 2 ^ 16

pub record Sharding : Type 0 where
  pub poll_id : ℕ
  pub shard_count : ℕ

unfoldable pub sharding_valid : Sharding → Bool
sharding_valid s = not (s.poll_id == 0) && ltb 0 s.shard_count

unfoldable pub sharding : Poll → Sharding
sharding p = record { poll_id = p.id; shard_count = p.shard_count }

pub record VoteMessage : Type 0 where
  pub poll_id : ℕ
  pub voter_id : Text
  pub choices : List ℕ
  pub produced_at : Time

-- `VoteResult` is a uint8; the script's reply is converted to it.
abbrev pub vote_counted : ℕ
vote_counted = 1

abbrev pub vote_already_counted : ℕ
vote_already_counted = 2

unfoldable pub vote_result_valid : ℕ → Bool
vote_result_valid r = r == vote_counted || r == vote_already_counted

unfoldable pub vote_result_string : ℕ → Text
vote_result_string r =
    if r == vote_counted
    then codes "counted"
    else if r == vote_already_counted
    then codes "already_counted"
    else codes "invalid"

pub record Admin : Type 0 where
  pub id : ℕ
  pub login : Text
  pub password_hash : Text
  pub role : Text
