-- ===== src/Domain/Create/Votable.antt =====
-- A poll that was created can be voted on.
use televote.Prelude.{
  ℕ, zero, suc, ◌+◌, ◌≡◌, ◌≤◌, ◌<◌, ◌≢◌, refl, true, List, [], ◌∷◌, arith, All, length,
}
use televote.Prelude.Text.{Text}
use televote.Errors.{ok}
use televote.Domain.Poll.{
  Poll, PollOption, PollType, multiple, single, other, Time, Duration, scheduled, poll_type_valid,
  option_count,
}
use televote.Domain.Choices.{ChoiceRules, choice_rules, validate}
use televote.Domain.Choices.Valid.{Allowed, CountAllowed, Distinct, validate_iff}
use televote.Floats.{Floats}
use televote.Domain.Create.{PollSpec, make_options, make_poll, new_poll, choice_bound}
use televote.Domain.Create.Checks.{IsSound, BoundsMet, new_poll-made}

-- The `n` indices from `i` on.
abbrev pub count_up : ℕ → ℕ → List ℕ
count_up i zero = []
count_up i (suc n) = i ∷ count_up (suc i) n

length-count_up : (i n : ℕ) → length (count_up i n) ≡ n
length-count_up i zero = refl
length-count_up i (suc n) = omega (arith, length-count_up (suc i) n)

count_up-All :
    (P : ℕ → Type 0) (i n : ℕ) → ((j : ℕ) → i ≤ j → j < i + n → P j) → All P (count_up i n)
count_up-All P i zero h = tt
count_up-All P i (suc n) h = (
  h i (omega arith) (omega arith),
  count_up-All P (suc i) n (λ j a b. h j (omega arith) (omega arith)),
)

count_up-Distinct : (i n : ℕ) → Distinct (count_up i n)
count_up-Distinct i zero = tt
count_up-Distinct i (suc n) =
    (count_up-All (λ j. j ≢ i) (suc i) n (λ j a b. omega arith), count_up-Distinct (suc i) n)

pub length-make_options : (i : ℕ) (xs : List Text) → length (make_options i xs) ≡ length xs
unfolding make_options
length-make_options i [] = refl
length-make_options i (x ∷ xs) = omega (arith, length-make_options (suc i) xs)

-- The first choices of a poll, as many as it asks for.
unfoldable pub first_ballot : Poll → List ℕ
first_ballot p = count_up 0 p.min_choices

ballot_counted :
    (t : PollType) (low high n : ℕ) (r : ChoiceRules)
    → poll_type_valid t ≡ true
    → BoundsMet t low high n
    → 2 ≤ n
    → r.min_choices ≡ choice_bound t low
    → r.max_choices ≡ choice_bound t high
    → CountAllowed t r (choice_bound t low) × (choice_bound t low ≤ n)
unfolding poll_type_valid
ballot_counted single low high n r v b h e f = (refl, omega arith)
ballot_counted multiple low high n r v b h e f =
    ((omega arith, omega arith, ground arith), omega arith)
ballot_counted (other s) low high n r v b h e f = cc

option_count-make_poll :
    (floats : Floats) (id : ℕ) (s : PollSpec) (now : Time) (lead : Duration)
    → IsSound floats s now lead
    → option_count (make_poll id s) ≡ length s.options
unfolding option_count make_poll
option_count-make_poll floats id s now lead v = ground (arith, length-make_options 0 s.options)

make_poll-Allowed :
    (floats : Floats) (id : ℕ) (s : PollSpec) (now : Time) (lead : Duration)
    → IsSound floats s now lead
    → Allowed (choice_rules (make_poll id s)) (count_up 0 (choice_bound s.type s.min_choices))
unfolding choice_rules make_poll
make_poll-Allowed floats id s now lead v =
    let n = choice_bound s.type s.min_choices in
    let (counted, fits) =
      ballot_counted s.type s.min_choices s.max_choices (length s.options)
        (choice_rules (make_poll id s)) v.type v.bounds v.options.0 refl refl in
    record {
      counted = rw (length-count_up 0 n) counted;
      in_range =
          count_up-All _ 0 n
            (λ j a b. omega (arith, option_count-make_poll floats id s now lead v));
      distinct = count_up-Distinct 0 n;
    }

-- Every poll that is created accepts some ballot: its choices 0, 1, … up to the number that the poll
-- asks for pass its rules.
new_poll-votable :
    (floats : Floats) (id : ℕ) (s : PollSpec) (now : Time) (lead : Duration) {p : Poll}
    → new_poll floats id s now lead ≡ ok p
    → validate (choice_rules p) (first_ballot p) ≡ ok tt
unfolding first_ballot
new_poll-votable floats id s now lead {p} h =
    let (e, v) = new_poll-made floats id s now lead h in
    rw e (
      (validate_iff (choice_rules (make_poll id s)) _).1
        (unfold make_poll in make_poll-Allowed floats id s now lead v))

abbrev pub option_indices : List PollOption → List ℕ
option_indices [] = []
option_indices (o ∷ os) = o.idx ∷ option_indices os

indices-make_options :
    (i : ℕ) (xs : List Text)
    → i + length xs ≤ 256
    → option_indices (make_options i xs) ≡ count_up i (length xs)
unfolding make_options
indices-make_options i [] h = refl
indices-make_options i (x ∷ xs) h =
    rw (indices-make_options (suc i) xs (omega arith)) (ground arith)

-- A created poll is scheduled, at version 1 and with no salt yet; its options are numbered 0, 1, … with no
-- gap, and there are between 2 and 255 of them; its window is not empty.
new_poll-shape :
    (floats : Floats) (id : ℕ) (s : PollSpec) (now : Time) (lead : Duration) {p : Poll}
    → new_poll floats id s now lead ≡ ok p
    → (p.status ≡ scheduled)
      × (p.version ≡ 1)
      × (p.salt ≡ [])
      × (option_indices p.options ≡ count_up 0 (length p.options))
      × (2 ≤ length p.options)
      × (length p.options ≤ 255)
      × (p.opens_at < p.closes_at)
unfolding make_poll
new_poll-shape floats id s now lead {p} h =
    let (e, v) = new_poll-made floats id s now lead h in
    let n = length-make_options 0 s.options in
    rw e (
      refl,
      refl,
      refl,
      rw n (indices-make_options 0 s.options (omega arith)),
      omega arith,
      omega arith,
      v.window.1,
    )
