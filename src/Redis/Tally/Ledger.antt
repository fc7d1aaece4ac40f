-- ===== src/Redis/Tally/Ledger.antt =====
-- Deliveries of votes as a list, and which of them count.
use televote.Prelude.{
  ℕ, ◌+◌, ◌≡◌, refl, Bool, true, false, not, ◌&&◌, List, [], ◌∷◌, map, ◌==◌, if◌then◌else◌, arith,
  ap, ◌∙◌, Bool-cases, inl, inr, ◌||◌, ◌++◌, All,
}
use televote.Prelude.Text.{Text, text_eq, text_eq_iff}
use televote.Prelude.Decimal.{format_uint}
use televote.Errors.{Result, ok, err}
use televote.Domain.Poll.{Sharding}
use televote.Domain.Voter.{VoterId, text_in}
use televote.Redis.Keys.{ballots_field, shard_for}
use televote.Redis.Script.Effect.{occurrences}
use televote.Redis.Tally.{Link, unsent, validate_vote}

-- A delivery of one vote: the voter and the choices, what becomes of the command, and its second.
pub record Attempt : Type 0 where
  pub voter : VoterId
  pub choices : List ℕ
  pub link : Link
  pub at : ℕ

abbrev pub is_ok {ℓ} : {A : Type ℓ} → Result A → Bool
is_ok (ok a) = true
is_ok (err e) = false

abbrev pub executed : Link → Bool
executed (unsent f) = false
executed _ = true

module _ (sum64 : List ℕ → ℕ) (target : Sharding) where
  abbrev pub shard_of : VoterId → ℕ
  shard_of v = shard_for sum64 v target.shard_count

  -- Whether the vote script runs for the attempt.
  unfoldable pub reaches : Attempt → Bool
  reaches a = is_ok (validate_vote target a.choices) && executed a.link

  -- What one counted vote adds to a field of a shard's counter.
  unfoldable pub adds : Attempt → ℕ → Text → ℕ
  adds a shard f =
      if shard_of a.voter == shard
      then occurrences f (map format_uint a.choices) + occurrences f (ballots_field ∷ [])
      else 0

  -- Whether an attempt counts, the voters seen before it being given.
  abbrev pub counts_now : List VoterId → Attempt → Bool
  counts_now seen a = reaches a && not (text_in a.voter seen)

  abbrev pub seen_after : List VoterId → Attempt → List VoterId
  seen_after seen a = if counts_now seen a then a.voter ∷ seen else seen

  abbrev pub base_after : (ℕ → Text → ℕ) → List VoterId → Attempt → ℕ → Text → ℕ
  base_after base seen a shard f = base shard f + (if counts_now seen a then adds a shard f else 0)

or_false : (b : Bool) → b ≡ (b || false)
or_false true = refl
or_false false = refl

or_swap : (a b c : Bool) → ((a || b) || c) ≡ (b || (a || c))
or_swap true true c = refl
or_swap true false c = refl
or_swap false b c = refl

module _ (sum64 : List ℕ → ℕ) (target : Sharding) where
  -- The attempts that count: of each voter the first that reaches the script.
  unfoldable pub counted : List VoterId → List Attempt → List Attempt
  counted seen [] = []
  counted seen (a ∷ xs) =
      let rest = counted (seen_after sum64 target seen a) xs in
      if counts_now sum64 target seen a then a ∷ rest else rest

  -- What a list of counted attempts adds up to.
  unfoldable pub total : List Attempt → ℕ → Text → ℕ
  total [] shard f = 0
  total (a ∷ xs) shard f = adds sum64 target a shard f + total xs shard f

  pub total-if :
      (b : Bool) (a : Attempt) (rest : List Attempt) (n shard : ℕ) (f : Text)
      → n + (if b then adds sum64 target a shard f else 0) + total rest shard f
        ≡ n + total (if b then a ∷ rest else rest) shard f
  unfolding total
  total-if true a rest n shard f = omega arith
  total-if false a rest n shard f = omega arith

  abbrev pub voters : List Attempt → List VoterId
  voters = map (λ a. a.voter)

  -- No voter of `seen` is counted, and no voter twice.
  abbrev pub CountedOnce : List VoterId → List Attempt → Type 0
  CountedOnce seen [] = Unit
  CountedOnce seen (a ∷ xs) = (text_in a.voter seen ≡ false) × CountedOnce (a.voter ∷ seen) xs

  pub counted-CountedOnce :
      (seen : List VoterId) (xs : List Attempt) → CountedOnce seen (counted seen xs)
  unfolding counted
  counted-CountedOnce seen [] = tt
  counted-CountedOnce seen (a ∷ xs) = elim (Bool-cases (counts_now sum64 target seen a)) [
    | inl e ↦ rw e (ground arith, counted-CountedOnce (a.voter ∷ seen) xs)
    | inr e ↦ rw e (counted-CountedOnce seen xs)
  ]

  -- Nothing counts whose voter has been seen.
  pub counted-nothing :
      (seen : List VoterId) (xs : List Attempt)
      → All (λ a. text_in a.voter seen ≡ true) xs
      → counted seen xs ≡ []
  unfolding counted
  counted-nothing seen [] h = refl
  counted-nothing seen (a ∷ xs) h =
      let skip : (counts_now sum64 target seen a) ≡ false = ground arith in
      rw skip (counted-nothing seen xs h.1)

  -- The voters seen after a list of attempts.
  unfoldable pub seen_all : List VoterId → List Attempt → List VoterId
  seen_all seen [] = seen
  seen_all seen (a ∷ xs) = seen_all (seen_after sum64 target seen a) xs

  pub counted-append :
      (seen : List VoterId) (xs ys : List Attempt)
      → counted seen (xs ++ ys) ≡ counted seen xs ++ counted (seen_all seen xs) ys
  unfolding counted seen_all
  counted-append seen [] ys = refl
  counted-append seen (a ∷ xs) ys = elim (Bool-cases (counts_now sum64 target seen a)) [
    | inl e ↦ rw e (ap (◌∷◌ a) (counted-append (a.voter ∷ seen) xs ys))
    | inr e ↦ rw e (counted-append seen xs ys)
  ]

  seen_all-keeps :
      (v : VoterId) (seen : List VoterId) (xs : List Attempt)
      → text_in v seen ≡ true
      → text_in v (seen_all seen xs) ≡ true
  unfolding seen_all text_in
  seen_all-keeps v seen [] h = h
  seen_all-keeps v seen (a ∷ xs) h =
      seen_all-keeps v (seen_after sum64 target seen a) xs
        (elim (Bool-cases (counts_now sum64 target seen a)) [
          | inl e ↦ rw e (ground arith)
          | inr e ↦ rw e h
        ])

  head_seen :
      (a : Attempt) (seen : List VoterId)
      → reaches sum64 target a ≡ true
      → text_in a.voter (seen_after sum64 target seen a) ≡ true
  unfolding text_in
  head_seen a seen run = elim (Bool-cases (text_in a.voter seen)) [
    | inl old ↦ rw (run, old) old
    | inr new ↦ rw (run, new) (ground (arith, text_eq_iff a.voter a.voter))
  ]

  -- The voters seen are those seen before and those of the attempts that count.
  seen_all-voters :
      (v : VoterId) (seen : List VoterId) (xs : List Attempt)
      → text_in v (seen_all seen xs) ≡ (text_in v seen || text_in v (voters (counted seen xs)))
  unfolding seen_all counted text_in
  seen_all-voters v seen [] = or_false (text_in v seen)
  seen_all-voters v seen (a ∷ xs) = elim (Bool-cases (counts_now sum64 target seen a)) [
    | inl e ↦
        rw e
          (seen_all-voters v (a.voter ∷ seen) xs ∙ or_swap (text_eq a.voter v) (text_in v seen) _)
    | inr e ↦ rw e (seen_all-voters v seen xs)
  ]

  pub from_start :
      (v : VoterId) (xs : List Attempt)
      → text_in v (seen_all [] xs) ≡ text_in v (voters (counted [] xs))
  unfolding text_in
  from_start v xs = seen_all-voters v [] xs

  -- Whoever reached the script has been seen.
  pub seen_all-covers :
      (seen : List VoterId) (xs : List Attempt)
      → All (λ a. reaches sum64 target a ≡ true → text_in a.voter (seen_all seen xs) ≡ true) xs
  unfolding seen_all
  seen_all-covers seen [] = tt
  seen_all-covers seen (a ∷ xs) = (
    (λ run. seen_all-keeps a.voter (seen_after sum64 target seen a) xs (head_seen a seen run)),
    seen_all-covers (seen_after sum64 target seen a) xs,
  )
