-- ===== src/Domain/Choices/Valid.antt =====
-- `validate` decides a predicate that is stated without the loop.
use televote.Prelude.{
  ℕ, suc, ◌≤◌, ◌<◌, ◌≡◌, ◌≢◌, refl, ◌↔◌, Bool, false, ◌⊎◌, List, [], ◌∷◌, arith, length, All,
}
use televote.Errors.{ok}
use televote.Domain.Poll.{PollType, single, multiple, other}
use televote.Domain.Choices.{ChoiceRules, mark, check_count, check_each, validate}

-- No choice is named twice.
abbrev pub Distinct : List ℕ → Type 0
Distinct [] = Unit
Distinct (i ∷ rest) = All (λ j. j ≢ i) rest × Distinct rest

-- How many choices the rules allow.
abbrev pub CountAllowed : PollType → ChoiceRules → ℕ → Type 0
CountAllowed single r n = n ≡ 1
CountAllowed multiple r n =
    (0 < n) × (r.min_choices ≤ n) × ((r.max_choices ≡ 0) ⊎ (n ≤ r.max_choices))
CountAllowed (other s) r n = ⊥

-- A ballot that the rules allow.
pub record Allowed (r : ChoiceRules) (choices : List ℕ) : Type 0 where
  pub counted : CountAllowed r.type r (length choices)
  pub in_range : All (λ i. i < r.option_count) choices
  pub distinct : Distinct choices

-- None of the choices has been marked before.
abbrev Fresh : (ℕ → Bool) → List ℕ → Type 0
Fresh seen = All (λ i. seen i ≡ false)

Fresh-mark :
    (seen : ℕ → Bool) (i : ℕ) (xs : List ℕ)
    → Fresh (mark seen i) xs ↔ (All (λ j. j ≢ i) xs × Fresh seen xs)
Fresh-mark seen i [] = (λ _. (tt, tt), λ _. tt)
Fresh-mark seen i (x ∷ xs) =
    let ih = Fresh-mark seen i xs in
    (
      λ (h0, h1). ((ground arith, (ih.0 h1).0), (ground arith, (ih.0 h1).1)),
      λ (h, k). (ground arith, ih.1 (h.1, k.1)),
    )

check_each_sound :
    (n : ℕ) (seen : ℕ → Bool) (xs : List ℕ)
    → check_each n seen xs ≡ ok tt
    → All (λ i. i < n) xs × Distinct xs × Fresh seen xs
unfolding check_each
check_each_sound n seen [] h = (tt, tt, tt)
check_each_sound n seen (x ∷ xs) h =
    let rest : check_each n (mark seen x) xs ≡ ok tt = ground arith in
    let (a, d, f) = check_each_sound n (mark seen x) xs rest in
    let (e, g) = (Fresh-mark seen x xs).0 f in ((ground arith, a), (e, d), (ground arith, g))

check_each_complete :
    (n : ℕ) (seen : ℕ → Bool) (xs : List ℕ)
    → All (λ i. i < n) xs
    → Distinct xs
    → Fresh seen xs
    → check_each n seen xs ≡ ok tt
unfolding check_each
check_each_complete n seen [] a d f = refl
check_each_complete n seen (x ∷ xs) a d f =
    let rest =
      check_each_complete n (mark seen x) xs a.1 d.1 ((Fresh-mark seen x xs).1 (d.0, f.1)) in
    ground arith

Fresh-nothing : (xs : List ℕ) → Fresh (λ _. false) xs
Fresh-nothing [] = tt
Fresh-nothing (x ∷ xs) = (refl, Fresh-nothing xs)

check_count_iff :
    (t : PollType) (r : ChoiceRules) (n : ℕ)
    → 0 < n
    → (check_count t r n ≡ ok tt) ↔ CountAllowed t r n
unfolding check_count
check_count_iff single r n h = (λ e. ground arith, λ e. ground arith)
check_count_iff multiple r n h = (λ e. ground arith, λ e. ground arith)
check_count_iff (other s) r n h = (λ e. cc, λ e. absurd e)

pub counted-pos : (t : PollType) (r : ChoiceRules) (n : ℕ) → CountAllowed t r n → 0 < n
counted-pos single r n h = omega arith
counted-pos multiple r n h = h.0
counted-pos (other s) r n h = absurd h

-- The choice check accepts exactly the allowed ballots: as many choices as the poll's type and its
-- bounds allow, every one below the option count, and none named twice.
pub validate_iff :
    (r : ChoiceRules) (choices : List ℕ) → (validate r choices ≡ ok tt) ↔ Allowed r choices
unfolding validate
validate_iff r [] = (λ h. cc, λ h. absurd (omega (arith, counted-pos r.type r 0 h.counted)))
validate_iff r (x ∷ xs) = (
  λ h. accepted (split h).0 (split h).1,
  λ v. rw ((check_count_iff r.type r (suc (length xs)) (omega arith)).1 v.counted) (
      check_each_complete r.option_count (λ _. false) (x ∷ xs) v.in_range v.distinct
        (Fresh-nothing (x ∷ xs))),
)
  where
    split :
        validate r (x ∷ xs) ≡ ok tt
        → (check_count r.type r (suc (length xs)) ≡ ok tt)
          × (check_each r.option_count (λ _. false) (x ∷ xs) ≡ ok tt)
    split h = ground arith

    accepted :
        check_count r.type r (suc (length xs)) ≡ ok tt
        → check_each r.option_count (λ _. false) (x ∷ xs) ≡ ok tt
        → Allowed r (x ∷ xs)
    accepted c e =
        let (a, d, f) = check_each_sound r.option_count (λ _. false) (x ∷ xs) e in
        record {
          counted = (check_count_iff r.type r (suc (length xs)) (omega arith)).0 c;
          in_range = a;
          distinct = d;
        }
