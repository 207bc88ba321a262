-- ===== src/Tests/Optimize.antt =====
-- Constants folded at small widths, and one that is folded though no machine instruction computes it.
use ccova.Prelude.{ℕ, ◌≡◌, ◌^◌, ◌-◌, refl, arith, false}
use ccova.Prelude.Checked.{accepted}
use ccova.Status.{value}
use ccova.Kind.{ArithmeticOp, CompareOp}
use ccova.Word.{int, integers, integer_arithmetic, compare_ordered, of_int, to_signed}
use ccova.Optimize.{
  BinaryOp, NumericKind, NumberLiteral, int_literal, literal_bits, literal_from_bits, arithmetic,
  arithmetic_value, signed_arithmetic, sign_extend, is_zero, unsigned_value, compare, fold_literals,
  float_arithmetic, int_to_bits, signed_or_unsigned_value,
}
use ccova.Optimize.Agree.{Corresponds, as_result}
use ccova.Optimize.Arithmetic.{IsKindOf, arithmetic-integer_arithmetic}
use ccova.Optimize.Compare.{ComparesAs, compare-compare_ordered}
use ccova.Optimize.Literals.{fold_literals-integer_arithmetic}
use ccova.Tests.{some_floats}

-- -100 * 3 in 8 bits.
arithmetic-integer_arithmetic_example :
    as_result (arithmetic some_floats NumericKind.int8_kind BinaryOp.mul 156 3)
    ≡ integer_arithmetic (int 1) ArithmeticOp.mul 156 3
arithmetic-integer_arithmetic_example =
    arithmetic-integer_arithmetic some_floats 156 3 IsKindOf.is_int8 Corresponds.mul_op
      (omega arith) (omega arith)

-- -1 < 1 in 8 bits.
compare-compare_ordered_example :
    value (compare some_floats NumericKind.int8_kind BinaryOp.less 255 1)
    ≡ compare_ordered (integers (int 1)) CompareOp.less 255 1
compare-compare_ordered_example =
    compare-compare_ordered some_floats 255 1 IsKindOf.is_int8 ComparesAs.less_op (omega arith)
      (omega arith)

abbrev small_literal : ℕ → NumberLiteral
small_literal n = int_literal n false 1

abbrev difference : NumberLiteral
difference = int_literal (2 ^ 64 - 96) false 7

-- 100 - 196 in 32 bits.
folded_difference :
    fold_literals some_floats BinaryOp.sub NumericKind.int32_kind
      (small_literal 100)
      (small_literal 196)
      7
    ≡ accepted difference
unfolding fold_literals literal_bits int_to_bits arithmetic arithmetic_value signed_arithmetic
    sign_extend is_zero unsigned_value literal_from_bits signed_or_unsigned_value of_int to_signed
folded_difference = refl

fold_literals-integer_arithmetic_example :
    integer_arithmetic
      (int 4)
      ArithmeticOp.sub
      (literal_bits some_floats (small_literal 100) NumericKind.int32_kind)
      (literal_bits some_floats (small_literal 196) NumericKind.int32_kind)
    ≡ value (literal_bits some_floats difference NumericKind.int32_kind)
unfolding literal_bits int_to_bits
fold_literals-integer_arithmetic_example =
    fold_literals-integer_arithmetic some_floats (small_literal 100) (small_literal 196) difference
      7 IsKindOf.is_int32 Corresponds.sub_op (omega arith) (omega arith) folded_difference

-- `%` of two floats becomes the literal 0.
float_remainder_is_zero :
    arithmetic some_floats NumericKind.float32_kind BinaryOp.modulo 7 2 ≡ accepted 0
unfolding arithmetic arithmetic_value float_arithmetic is_zero
float_remainder_is_zero = refl
