-- ===== src/Floats.antt =====
-- Go's float64, given by its IEEE 754 bit pattern. The arithmetic of the machine is a parameter; the
-- literals of the source are their bit patterns.
use televote.Prelude.{ℕ, Bool}
use televote.Prelude.Int.{ℤ}

pub record Floats : Type 0 where
  -- The conversion `float64(n)` of an integer, and `int64(x)`, which drops the fraction.
  pub of_int : ℤ → ℕ
  pub trunc : ℕ → ℤ
  pub add : ℕ → ℕ → ℕ
  pub sub : ℕ → ℕ → ℕ
  pub mul : ℕ → ℕ → ℕ
  pub div : ℕ → ℕ → ℕ
  pub lt : ℕ → ℕ → Bool
  pub le : ℕ → ℕ → Bool

abbrev pub float_zero : ℕ
float_zero = 0

abbrev pub float_half : ℕ
float_half = 0x3fe0000000000000

abbrev pub float_one : ℕ
float_one = 0x3ff0000000000000

abbrev pub float_two : ℕ
float_two = 0x4000000000000000
