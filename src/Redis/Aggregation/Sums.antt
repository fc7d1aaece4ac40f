-- ===== src/Redis/Aggregation/Sums.antt =====
-- What is read is the sum of the shards' counters.
use televote.Prelude.{
  ℕ, suc, ◌+◌, ◌^◌, ◌<◌, ◌≡◌, ◌≢◌, refl, ◌⊎◌, inl, inr, List, [], ◌∷◌, ◌==◌, ==_iff, if◌then◌else◌,
  Option, none, some, arith, sym, ap, ◌∙◌, Bool-cases, All, subst,
}
use televote.Prelude.Int.{pos, add64, add64-pos}
use televote.Prelude.Text.{Text, text_eq_iff, text_eq_of_ne}
use televote.Prelude.Decimal.{
  format_uint, parse_uint, parse_uint-format_uint, parse_int-format_uint, format_uint-injective,
}
use televote.Errors.{ok}
use televote.Domain.Aggregate.{Aggregate, add, get, get-put}
use televote.Redis.Server.{find_text, UniqueNames}
use televote.Redis.Keys.{ballots_field}
use televote.Redis.Aggregation.{merge_counter, merge_counters}

-- The aggregate reads as natural numbers: `b` ballots, and `v i` votes for option `i`.
pub record Reads (a : Aggregate) (v : ℕ → ℕ) (b : ℕ) : Type 0 where
  pub votes : (i : ℕ) → get a.votes i ≡ pos (v i)
  pub ballots : a.ballots ≡ pos b

-- A field that the vote script writes: the ballots, or an option index.
abbrev pub IsName : Text → Type 0
IsName f = (f ≡ ballots_field) ⊎ ((i : ℕ) × (i < 2 ^ 8) × (f ≡ format_uint i))

abbrev pub IsEntry : Text × Text → Type 0
IsEntry (f, raw) = IsName f × ((n : ℕ) × (n < 2 ^ 63) × (raw ≡ format_uint n))

-- The number under a name.
unfoldable pub number : Option Text → ℕ
number none = 0
number (some raw) = elim (parse_uint (2 ^ 63) raw) [ none ↦ 0 | some n ↦ n ]

abbrev pub value : Text → List (Text × Text) → ℕ
value f m = number (find_text f m)

index_not_ballots : (i : ℕ) → format_uint i ≢ ballots_field
index_not_ballots i e =
    let p = parse_uint-format_uint (suc i) i (omega arith) in
    let q : parse_uint (suc i) ballots_field ≡ none = unfold parse_uint in refl in
    cc (p, q, ap (parse_uint (suc i)) e)

merge_ballots :
    (out : Aggregate) (n b : ℕ) (v : ℕ → ℕ)
    → n < 2 ^ 63
    → Reads out v b
    → b + n < 2 ^ 63
    → (next : Aggregate) × (merge_counter out ballots_field (format_uint n) ≡ ok next)
      × Reads next v (b + n)
unfolding merge_counter
merge_ballots out n b v small h fits = (
  record out { ballots = add64 out.ballots (pos n) },
  rw (
    parse_int-format_uint n small,
    (text_eq_iff ballots_field ballots_field).1 refl,
    merge_counter,
  ),
  record { votes = h.votes; ballots = rw h.ballots (add64-pos b n fits) },
)

merge_votes :
    (out : Aggregate) (i n b : ℕ) (v : ℕ → ℕ)
    → i < 2 ^ 8
    → n < 2 ^ 63
    → Reads out v b
    → v i + n < 2 ^ 63
    → (next : Aggregate) × (merge_counter out (format_uint i) (format_uint n) ≡ ok next)
      × Reads next (λ j. if i == j then v i + n else v j) b
unfolding merge_counter add
merge_votes out i n b v small_i small h fits = (
  add out i (pos n),
  rw (
    parse_int-format_uint n small,
    text_eq_of_ne _ _ (index_not_ballots i),
    parse_uint-format_uint (2 ^ 8) i small_i,
    merge_counter,
  ),
  record {
    votes = λ j.
        get-put out.votes i j _ ∙ rw (h.votes i, add64-pos (v i) n fits, h.votes j) (ground arith);
    ballots = h.ballots;
  },
)

pub Reads_cong :
    {a : Aggregate} {v w : ℕ → ℕ} {b c : ℕ}
    → ((i : ℕ) → v i ≡ w i)
    → b ≡ c
    → Reads a v b
    → Reads a w c
Reads_cong e d h = record { votes = λ i. h.votes i ∙ ap pos (e i); ballots = h.ballots ∙ ap pos d }

value_self :
    (f raw : Text) (n : ℕ) (m : List (Text × Text))
    → n < 2 ^ 63
    → raw ≡ format_uint n
    → value f ((f, raw) ∷ m) ≡ n
unfolding find_text number
value_self f raw n m h e =
    let read = parse_uint-format_uint (2 ^ 63) n h in
    rw ((text_eq_iff f f).1 refl, e) (rw (read, number))

value_other : (f g raw : Text) (m : List (Text × Text)) → g ≢ f → value f ((g, raw) ∷ m) ≡ value f m
unfolding find_text
value_other f g raw m h = rw (text_eq_of_ne g f h)

value_missing : (f : Text) (m : List (Text × Text)) → find_text f m ≡ none → value f m ≡ 0
unfolding number
value_missing f m h = rw h

-- The result of merging the fields of one shard.
abbrev pub Merged : Aggregate → List (Text × Text) → (ℕ → ℕ) → ℕ → Type 0
Merged out m v b =
    (next : Aggregate) × (merge_counters out m ≡ ok next)
    × Reads next (λ i. v i + value (format_uint i) m) (b + value ballots_field m)

merge_rest :
    (out mid : Aggregate) (f raw : Text) (m : List (Text × Text)) (v w : ℕ → ℕ) (b c : ℕ)
    → merge_counter out f raw ≡ ok mid
    → ((i : ℕ) → w i + value (format_uint i) m ≡ v i + value (format_uint i) ((f, raw) ∷ m))
    → c + value ballots_field m ≡ b + value ballots_field ((f, raw) ∷ m)
    → Merged mid m w c
    → Merged out ((f, raw) ∷ m) v b
unfolding merge_counters
merge_rest out mid f raw m v w b c e hv hb (next, q, h) = (next, rw e q, Reads_cong hv hb h)

-- How the votes of an option split between the first field and the rest.
vote_split :
    (f raw : Text) (m : List (Text × Text)) (k n i : ℕ) (v : ℕ → ℕ)
    → f ≡ format_uint k
    → value (format_uint k) ((f, raw) ∷ m) ≡ n
    → value (format_uint k) m ≡ 0
    → (if k == i then v k + n else v i) + value (format_uint i) m
      ≡ v i + value (format_uint i) ((f, raw) ∷ m)
vote_split f raw m k n i v name here gone = elim (Bool-cases (k == i)) [
  | inl e ↦
      subst
        (λ j.
          (if k == j then v k + n else v j) + value (format_uint j) m
          ≡ v j + value (format_uint j) ((f, raw) ∷ m))
        ((==_iff k i).0 e) (rw ((==_iff k k).1 refl) (omega (arith, here, gone)))
  | inr e ↦ rw e (
      omega (
        arith,
        value_other (format_uint i) f raw m
            (λ q. absurd (cc (e, (==_iff k i).1 (format_uint-injective k i (sym name ∙ q))))),
      ))
]

merged_nil : (out : Aggregate) (v : ℕ → ℕ) (b : ℕ) → Reads out v b → Merged out [] v b
unfolding merge_counters find_text number
merged_nil out v b h = (out, refl, Reads_cong (λ i. omega arith) (omega arith) h)

pub merged :
    (m : List (Text × Text)) (out : Aggregate) (v : ℕ → ℕ) (b : ℕ)
    → Reads out v b
    → All IsEntry m
    → UniqueNames m
    → ((i : ℕ) → v i + value (format_uint i) m < 2 ^ 63)
    → b + value ballots_field m < 2 ^ 63
    → Merged out m v b
merged [] out v b h es u fv fb = merged_nil out v b h
merged ((f, raw) ∷ m) out v b h ((inl name, (n, small, e)), es) u fv fb =
    let here = subst (λ x. value x ((f, raw) ∷ m) ≡ n) name (value_self f raw n m small e) in
    let gone = subst (λ x. value x m ≡ 0) name (value_missing f m u.0) in
    let other =
      λ (i : ℕ). value_other (format_uint i) f raw m (λ q. index_not_ballots i (sym q ∙ name)) in
    let (mid, q, h') = merge_ballots out n b v small h (omega (arith, fb, here)) in
    merge_rest out mid f raw m v v b (b + n) (rw (name, e) q) (λ i. omega (arith, other i))
      (omega (arith, here, gone))
      (merged m mid v (b + n) h' es u.1 (λ i. omega (arith, fv i, other i))
        (omega (arith, fb, here, gone)))
merged ((f, raw) ∷ m) out v b h ((inr (k, low, name), (n, small, e)), es) u fv fb =
    let here = subst (λ x. value x ((f, raw) ∷ m) ≡ n) name (value_self f raw n m small e) in
    let gone = subst (λ x. value x m ≡ 0) name (value_missing f m u.0) in
    let ballots = value_other ballots_field f raw m (λ q. index_not_ballots k (sym name ∙ q)) in
    let (mid, q, h') = merge_votes out k n b v low small h (omega (arith, fv k, here)) in
    let split = λ (i : ℕ). vote_split f raw m k n i v name here gone in
    merge_rest out mid f raw m v (λ j. if k == j then v k + n else v j) b b (rw (name, e) q) split
      (omega (arith, ballots))
      (merged m mid _ b h' es u.1 (λ i. omega (arith, fv i, split i)) (omega (arith, fb, ballots)))
