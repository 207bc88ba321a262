-- ===== src/Floats.antt =====
-- Floating point, which the program takes from Go and from package math: a parameter. A float32
-- or float64 is its IEEE 754 bit pattern (math.Float32bits and math.Float64bits give it and
-- math.Float32frombits and math.Float64frombits read it unchanged), and each operation is a
-- function of patterns. Nothing is assumed of the operations.
use ccova.Prelude.{ℕ, Bool}
use ccova.Prelude.Int.{ℤ}
use ccova.Kind.{ValueKind}
use ccova.Word.{Ordered}

-- One floating-point type.
pub record FloatFormat : Type 0 where
  pub ordered : Ordered
  pub is_zero : ℕ → Bool
  pub of_integer : ℤ → ℕ
  -- the pattern that a conversion to an integer kind gives
  pub to_integer : ValueKind → ℕ → ℕ

-- The functions of package math that take one argument.
pub data MathFunction : Type 0 where
  sin cos tan asin acos atan sqrt abs : MathFunction

pub record Floats : Type 0 where
  pub f32 : FloatFormat
  pub f64 : FloatFormat
  pub widen : ℕ → ℕ
  pub narrow : ℕ → ℕ
  pub apply : MathFunction → ℕ → ℕ
  pub pow : ℕ → ℕ → ℕ
