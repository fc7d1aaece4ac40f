-- ===== src/Prelude/Decimal.antt =====
-- `strconv.FormatUint` and `strconv.ParseUint` in base 10, over the code points of a text.
use Prim.Native.Nat.{ℕ, zero, suc, ◌+◌, ◌-◌, ◌*◌, ◌/◌, ◌%◌, ◌^◌, ◌<◌}
use mathlib.Core.Path.{◌≡◌, refl, ap, ◌∙◌, sym}
use mathlib.Core.Bool.{Bool, true, ◌&&◌}
use mathlib.Core.Option.{Option, none, some}
use mathlib.Core.Logic.{inl, inr}
use mathlib.Core.List.{List, [], ◌∷◌, ◌++◌}
use native.Mathlib.Omega.{arith}
use mathlib.Core.Option
use televote.Prelude.Int.{ℤ, pos, opposite}
use televote.Prelude.Tests.{◌==◌, ltb, leb, if◌then◌else◌, Bool-cases}

-- The decimal digits of a number below the fuel, most significant first.
unfoldable pub digits : ℕ → ℕ → List ℕ
digits zero n = []
digits (suc f) n =
    let front = digits f (n / 10) ++ (48 + n % 10) ∷ [] in if ltb n 10 then (48 + n) ∷ [] else front

unfoldable pub format_uint : ℕ → List ℕ
unfolding digits
format_uint n = digits (suc n) n

abbrev pub is_digit : ℕ → Bool
is_digit c = leb 48 c && leb c 57

-- The number that a run of digits after `acc` stands for; `none` is a syntax error.
unfoldable pub parse_digits : ℕ → List ℕ → Option ℕ
parse_digits acc [] = some acc
parse_digits acc (c ∷ cs) =
    let rest = parse_digits (acc * 10 + (c - 48)) cs in if is_digit c then rest else none

-- `ParseUint(s, 10, bits)` with `limit = 2 ^ bits`.
unfoldable pub parse_uint : ℕ → List ℕ → Option ℕ
unfolding parse_digits
parse_uint limit [] = none
parse_uint limit (c ∷ cs) = elim (parse_digits 0 (c ∷ cs)) [
  | none ↦ none
  | some n ↦ if ltb n limit then some n else none
]

bind_parse : Option ℕ → List ℕ → Option ℕ
bind_parse none ys = none
bind_parse (some n) ys = parse_digits n ys

parse_digits-append :
    (acc : ℕ) (xs ys : List ℕ) → parse_digits acc (xs ++ ys) ≡ bind_parse (parse_digits acc xs) ys
unfolding parse_digits bind_parse
parse_digits-append acc [] ys = refl
parse_digits-append acc (x ∷ xs) ys = elim (Bool-cases (is_digit x)) [
  | inl e ↦ rw e (parse_digits-append (acc * 10 + (x - 48)) xs ys)
  | inr e ↦ rw e
]

parse-digits_lem : (f n : ℕ) → n < f → parse_digits 0 (digits f n) ≡ some n
unfolding parse_digits digits
parse-digits_lem zero n h = absurd (omega arith)
parse-digits_lem (suc f) n h = elim (Bool-cases (ltb n 10)) [
  | inl e ↦ rw e (ground arith)
  | inr e ↦
      rw (e, parse_digits-append 0 (digits f (n / 10)) ((48 + n % 10) ∷ []))
        (rw (parse-digits_lem f (n / 10) (ground arith)) (unfold bind_parse in ground arith))
]

digits_is_digit : (f n : ℕ) → n < f → (c : ℕ) × (cs : List ℕ) × (digits f n ≡ c ∷ cs)
unfolding digits
digits_is_digit zero n h = absurd (omega arith)
digits_is_digit (suc f) n h = elim (Bool-cases (ltb n 10)) [
  | inl e ↦ rw e (48 + n, [], refl)
  | inr e ↦ rw e (
      let (c, cs, q) = digits_is_digit f (n / 10) (ground arith) in
      (c, cs ++ (48 + n % 10) ∷ [], rw q refl))
]

-- What `FormatUint` prints, `ParseUint` reads back, at every width that holds the number.
pub parse_uint-format_uint : (limit n : ℕ) → n < limit → parse_uint limit (format_uint n) ≡ some n
unfolding format_uint parse_uint
parse_uint-format_uint limit n h =
    let (c, cs, q) = digits_is_digit (suc n) n (omega arith) in
    rw (q, parse_uint)
      (rw (sym (ap (parse_digits 0) q) ∙ parse-digits_lem (suc n) n (omega arith)) (ground arith))

some_inj : {m n : ℕ} → some m ≡ some n → m ≡ n
some_inj e = cc

pub format_uint-injective : (m n : ℕ) → format_uint m ≡ format_uint n → m ≡ n
unfolding format_uint
format_uint-injective m n e = some_inj (
    sym (parse-digits_lem (suc m) m (omega arith))
    ∙ ap (parse_digits 0) e
    ∙ parse-digits_lem (suc n) n (omega arith))

-- `ParseInt(s, 10, 64)`.
unfoldable pub parse_int : List ℕ → Option ℤ
parse_int [] = none
parse_int (c ∷ cs) =
    if c == b'+'
    then Option.map pos (parse_uint (2 ^ 63) cs)
    else if c == b'-'
    then Option.map opposite (parse_uint (2 ^ 63 + 1) cs)
    else Option.map pos (parse_uint (2 ^ 63) (c ∷ cs))

first_digit : (n : ℕ) (c : ℕ) (cs : List ℕ) → format_uint n ≡ c ∷ cs → is_digit c ≡ true
unfolding format_uint
first_digit n c cs e =
    let h : parse_digits 0 (c ∷ cs) ≡ some n =
      ap (parse_digits 0) (sym e) ∙ parse-digits_lem (suc n) n (omega arith) in
    unfold parse_digits in ground arith

format_uint-cons : (n : ℕ) → (c : ℕ) × (cs : List ℕ) × (format_uint n ≡ c ∷ cs)
unfolding format_uint
format_uint-cons n = digits_is_digit (suc n) n (omega arith)

pub parse_int-format_uint : (n : ℕ) → n < 2 ^ 63 → parse_int (format_uint n) ≡ some (pos n)
unfolding parse_int
parse_int-format_uint n h =
    let (c, cs, e) = format_uint-cons n in
    let d = first_digit n c cs e in
    let read : parse_uint (2 ^ 63) (c ∷ cs) ≡ some n =
      ap (parse_uint (2 ^ 63)) (sym e) ∙ parse_uint-format_uint (2 ^ 63) n h in
    rw (e, parse_int) (ground arith)
