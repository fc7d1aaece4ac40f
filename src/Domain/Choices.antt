-- ===== src/Domain/Choices.antt =====
-- internal/domain/validate.go: the rules that the choices of one vote must meet.
pub mod Valid
use televote.Prelude.{
  ℕ, ◌≡◌, Bool, true, false, ◌&&◌, List, [], ◌∷◌, ltb, leb, ◌==◌, if◌then◌else◌, length, is_nil,
  not,
}
use televote.Errors.{Result, ok, err, invalid_choices, Failure, reject_if, ◌>>=◌, ◌>>◌}
use televote.Domain.Poll.{PollType, single, multiple, other, Poll, option_count}

pub record ChoiceRules : Type 0 where
  pub type : PollType
  pub option_count : ℕ
  pub min_choices : ℕ
  pub max_choices : ℕ

unfoldable pub choice_rules : Poll → ChoiceRules
choice_rules p = record {
  type = p.type;
  option_count = option_count p;
  min_choices = p.min_choices;
  max_choices = p.max_choices;
}

abbrev pub bad_choices : Failure
bad_choices = invalid_choices ∷ []

-- The `switch r.Type`.
unfoldable pub check_count : PollType → ChoiceRules → ℕ → Result (Unit {0})
check_count single r n = reject_if (not (n == 1)) bad_choices
check_count multiple r n = do
  reject_if (ltb n r.min_choices) bad_choices
  reject_if (ltb 0 r.max_choices && ltb r.max_choices n) bad_choices
check_count (other s) r n = err bad_choices

-- The array `seen`, as a function of the index.
abbrev pub mark : (ℕ → Bool) → ℕ → ℕ → Bool
mark seen i j = if i == j then true else seen j

-- The loop over the choices.
unfoldable pub check_each : ℕ → (ℕ → Bool) → List ℕ → Result (Unit {0})
check_each n seen [] = ok tt
check_each n seen (i ∷ rest) =
    let go_on = check_each n (mark seen i) rest in
    if leb n i then err bad_choices else if seen i then err bad_choices else go_on

unfoldable pub validate : ChoiceRules → List ℕ → Result (Unit {0})
validate r choices = do
  reject_if (is_nil choices) bad_choices
  check_count r.type r (length choices)
  check_each r.option_count (λ _. false) choices
