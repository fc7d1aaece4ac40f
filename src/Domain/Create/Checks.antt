-- ===== src/Domain/Create/Checks.antt =====
-- What the checks on a new poll let through.
use televote.Prelude.{
  ◌↔◌, ℕ, ◌≡◌, ◌≤◌, ◌<◌, refl, true, false, ◌⊎◌, List, [], ◌∷◌, arith, All, length, is_nil,
}
use televote.Prelude.Int.{pos, pos_part, ◌≤ℤ◌}
use televote.Prelude.Text.{Text, byte_len, trim_space}
use televote.Errors.{Result, ok, err, ◌>>◌}
use televote.Domain.Poll.{
  Poll, PollType, multiple, single, other, Time, Duration, poll_type_valid, max_options,
  is_positive,
}
use televote.Floats.{Floats, float_zero, float_one}
use televote.Domain.Create.{
  PollSpec, slug_matches, check_options, check_bounds, check_spec, make_poll, new_poll, time_left,
}

-- The bounds of a multiple choice can be met.
abbrev pub BoundsMet : PollType → ℕ → ℕ → ℕ → Type 0
BoundsMet multiple low high n = (0 < low) × (low ≤ n) × ((high ≡ 0) ⊎ (low ≤ high))
BoundsMet _ low high n = Unit {0}

-- What the specification of a poll must meet, test by test.
pub record IsSound (floats : Floats) (s : PollSpec) (now : Time) (lead : Duration) : Type 0 where
  pub slug : slug_matches s.slug ≡ true
  pub question :
      (is_nil (trim_space s.question) ≡ false) × (byte_len (trim_space s.question) ≤ 1024)
  pub type : poll_type_valid s.type ≡ true
  pub options : (2 ≤ length s.options) × (length s.options ≤ max_options)
  pub texts : All (λ t. (is_nil (trim_space t) ≡ false) × (byte_len (trim_space t) ≤ 512)) s.options
  pub audience : pos 0 ≤ℤ s.expected_audience
  pub ratio :
      (floats.lt s.expected_conversion float_zero ≡ false)
      × (floats.lt float_one s.expected_conversion ≡ false)
  pub bounds : BoundsMet s.type s.min_choices s.max_choices (length s.options)
  pub window : (0 < s.opens_at) × (s.opens_at < s.closes_at)
  pub lead_time : is_positive lead ≡ true → pos_part lead ≤ time_left s.opens_at now

seq-ok {ℓ} :
    {B : Type ℓ} (m : Result (Unit {0})) (k : Result B) {b : B}
    → (m >> k) ≡ ok b
    → (m ≡ ok tt) × (k ≡ ok b)
seq-ok (ok tt) k h = (refl, h)
seq-ok (err e) k h = cc

check_options-ok :
    (xs : List Text)
    → check_options xs ≡ ok tt
    → All (λ t. (is_nil (trim_space t) ≡ false) × (byte_len (trim_space t) ≤ 512)) xs
unfolding check_options
check_options-ok [] h = tt
check_options-ok (x ∷ xs) h = ((ground arith, ground arith), check_options-ok xs (ground arith))

check_bounds-ok :
    (t : PollType) (s : PollSpec)
    → check_bounds t s ≡ ok tt
    → BoundsMet t s.min_choices s.max_choices (length s.options)
unfolding check_bounds
check_bounds-ok multiple s h = (ground arith, ground arith, ground arith)
check_bounds-ok single s h = tt
check_bounds-ok (other x) s h = tt

pub check_spec-ok :
    (floats : Floats) (s : PollSpec) (now : Time) (lead : Duration)
    → check_spec floats s now lead ≡ ok tt
    → IsSound floats s now lead
unfolding check_spec
check_spec-ok floats s now lead h = record {
  slug = ground arith;
  question = (ground arith, ground arith);
  type = ground arith;
  options = (ground arith, ground arith);
  texts = check_options-ok s.options (ground arith);
  audience = ground arith;
  ratio = (ground arith, ground arith);
  bounds = check_bounds-ok s.type s (ground arith);
  window = (ground arith, ground arith);
  lead_time = λ p. ground arith;
}

check_options_complete :
    (xs : List Text)
    → All (λ t. (is_nil (trim_space t) ≡ false) × (byte_len (trim_space t) ≤ 512)) xs
    → check_options xs ≡ ok tt
unfolding check_options
check_options_complete [] h = refl
check_options_complete (x ∷ xs) h = let rest = check_options_complete xs h.1 in ground arith

check_bounds_complete :
    (t : PollType) (s : PollSpec)
    → BoundsMet t s.min_choices s.max_choices (length s.options)
    → check_bounds t s ≡ ok tt
unfolding check_bounds
check_bounds_complete multiple s h = ground arith
check_bounds_complete single s h = refl
check_bounds_complete (other x) s h = refl

check_spec_complete :
    (floats : Floats) (s : PollSpec) (now : Time) (lead : Duration)
    → IsSound floats s now lead
    → check_spec floats s now lead ≡ ok tt
unfolding check_spec
check_spec_complete floats s now lead v =
    let a = check_options_complete s.options v.texts in
    let b = check_bounds_complete s.type s v.bounds in ground arith

-- A poll is created exactly when its specification is sound: slug, question, type, options, audience,
-- conversion, choice bounds and window pass, and the lead time is kept where one is required. The poll
-- is then the one that `make_poll` builds from it.
pub new_poll_iff :
    (floats : Floats) (id : ℕ) (s : PollSpec) (now : Time) (lead : Duration)
    → (new_poll floats id s now lead ≡ ok (make_poll id s)) ↔ IsSound floats s now lead
unfolding new_poll
new_poll_iff floats id s now lead = (
  λ h. check_spec-ok floats s now lead (seq-ok (check_spec floats s now lead) _ h).0,
  λ v. rw (check_spec_complete floats s now lead v),
)

pub new_poll-made :
    (floats : Floats) (id : ℕ) (s : PollSpec) (now : Time) (lead : Duration) {p : Poll}
    → new_poll floats id s now lead ≡ ok p
    → (p ≡ make_poll id s) × IsSound floats s now lead
unfolding new_poll
new_poll-made floats id s now lead h =
    let (c, k) = seq-ok (check_spec floats s now lead) _ h in
    (cc, check_spec-ok floats s now lead c)
