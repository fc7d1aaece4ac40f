-- ===== src/Domain/Create.antt =====
-- internal/domain/create.go: the checks on a new poll, and the poll that they let through.
-- `uuid.New` is a parameter.
pub mod Checks
pub mod Votable
use televote.Prelude.{
  ℕ, ◌+◌, ◌-◌, ◌%◌, ◌^◌, zero, suc, ◌≡◌, refl, Bool, true, false, ◌&&◌, ◌||◌, not, List, [], ◌∷◌,
  ltb, leb, ◌==◌, if◌then◌else◌, length, is_nil, min,
}
use televote.Prelude.Int.{ℤ, pos, negsuc, ltb_ℤ, pos_part}
use televote.Prelude.Text.{Text, codes, trim_space, byte_len}
use televote.Errors.{Result, ok, err, invalid_poll, Failure, reject_if, ◌>>=◌, ◌>>◌}
use televote.Floats.{Floats, float_zero, float_one}
use televote.Domain.Poll.{
  Time, Duration, is_zero, is_positive, PollType, single, multiple, other, poll_type_valid,
  scheduled, PollOption, Poll, max_options, shard_count_for,
}

pub record PollSpec : Type 0 where
  pub slug : Text
  pub question : Text
  pub type : PollType
  pub options : List Text
  pub min_choices : ℕ
  pub max_choices : ℕ
  pub opens_at : Time
  pub closes_at : Time
  pub expected_audience : ℤ
  pub expected_conversion : ℕ
  pub redis_masters : ℤ

abbrev pub min_options : ℕ
min_options = 2

abbrev pub max_question_len : ℕ
max_question_len = 1024

abbrev pub max_option_len : ℕ
max_option_len = 512

abbrev pub slug_head : ℕ → Bool
slug_head c = (leb b'a' c && leb c b'z') || (leb b'0' c && leb c b'9')

abbrev pub slug_char : ℕ → Bool
slug_char c = slug_head c || c == b'_' || c == b'-'

unfoldable pub all_slug_chars : List ℕ → Bool
all_slug_chars [] = true
all_slug_chars (c ∷ s) = slug_char c && all_slug_chars s

-- `^[a-z0-9][a-z0-9_-]{0,63}$`.
unfoldable pub slug_matches : Text → Bool
slug_matches [] = false
slug_matches (c ∷ s) = slug_head c && all_slug_chars s && leb (length s) 63

abbrev pub invalid : Failure
invalid = invalid_poll ∷ []

-- The loop over the options.
unfoldable pub check_options : List Text → Result (Unit {0})
check_options [] = ok tt
check_options (text ∷ rest) =
    let more = check_options rest in
    do
      reject_if (is_nil (trim_space text)) invalid
      reject_if (ltb max_option_len (byte_len (trim_space text))) invalid
      more

-- The block under `s.Type == PollTypeMultiple`.
unfoldable pub check_bounds : PollType → PollSpec → Result (Unit {0})
check_bounds multiple s = do
  reject_if (s.min_choices == 0) invalid
  reject_if (ltb 0 s.max_choices && ltb s.max_choices s.min_choices) invalid
  reject_if (ltb (length s.options) s.min_choices) invalid
check_bounds _ s = ok tt

-- `time.Duration` holds at most 2⁶³ - 1 nanoseconds, where `Sub` saturates. A difference below zero
-- is less than any lead time, which is positive where the test is made, so 0 stands for it.
abbrev pub max_duration : ℕ
max_duration = 2 ^ 63 - 1

abbrev pub time_left : Time → Time → ℕ
time_left t now = min (t - now) max_duration

module _ (floats : Floats) where
  unfoldable pub check_spec : PollSpec → Time → Duration → Result (Unit {0})
  check_spec s now min_lead_time = do
    reject_if (not (slug_matches s.slug)) invalid
    reject_if (is_nil (trim_space s.question)) invalid
    reject_if (ltb max_question_len (byte_len (trim_space s.question))) invalid
    reject_if (not (poll_type_valid s.type)) invalid
    reject_if (ltb (length s.options) min_options) invalid
    reject_if (ltb max_options (length s.options)) invalid
    check_options s.options
    reject_if (ltb_ℤ s.expected_audience (pos 0)) invalid
    reject_if
        (floats.lt s.expected_conversion float_zero || floats.lt float_one s.expected_conversion)
        invalid
    check_bounds s.type s
    reject_if (is_zero s.opens_at || is_zero s.closes_at) invalid
    reject_if (not (ltb s.opens_at s.closes_at)) invalid
    reject_if (is_positive min_lead_time && ltb (time_left s.opens_at now) (pos_part min_lead_time))
        invalid

-- The loop that makes the options: `uint8(i)` and the trimmed text.
unfoldable pub make_options : ℕ → List Text → List PollOption
make_options i [] = []
make_options i (text ∷ rest) =
    record { idx = i % 2 ^ 8; text = trim_space text } ∷ make_options (suc i) rest

abbrev pub choice_bound : PollType → ℕ → ℕ
choice_bound single n = 1
choice_bound _ n = n

unfoldable pub make_poll : ℕ → PollSpec → Poll
make_poll id s = record {
  id = id;
  slug = s.slug;
  question = trim_space s.question;
  type = s.type;
  options = make_options 0 s.options;
  min_choices = choice_bound s.type s.min_choices;
  max_choices = choice_bound s.type s.max_choices;
  status = scheduled;
  opens_at = s.opens_at;
  closes_at = s.closes_at;
  shard_count = shard_count_for s.redis_masters;
  salt = [];
  expected_audience = s.expected_audience;
  expected_conversion = s.expected_conversion;
  version = 1;
}

module _ (floats : Floats) (new_uuid : ℕ) where
  unfoldable pub new_poll : PollSpec → Time → Duration → Result Poll
  new_poll s now min_lead_time = do check_spec floats s now min_lead_time; ok (make_poll new_uuid s)

-- `Poll.ExpectedVotes`. The literal `math.MaxInt64` is the float64 2⁶³, which no int64 exceeds, so a
-- product up to it is converted.
unfoldable pub expected_votes : Floats → Poll → ℤ
expected_votes floats p =
    let v = floats.mul (floats.of_int p.expected_audience) p.expected_conversion in
    if floats.le v float_zero
    then pos 0
    else if floats.lt 0x43e0000000000000 v
    then pos (2 ^ 63 - 1)
    else floats.trunc v
