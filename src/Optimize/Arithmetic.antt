-- ===== src/Optimize/Arithmetic.antt =====
-- `optimizerArithmetic` of cova/optimize.go on the integer kinds, as a whole, against
-- `executeIntegerArithmetic` of cova/vm.go.
use native.Mathlib.Nat.{mod-eq_of_lt, mod-le, div-le_self}
use ccova.Prelude.{
  ℕ, ◌-◌, ◌*◌, ◌/◌, ◌%◌, ◌^◌, ◌≤◌, ◌<◌, ◌≡◌, refl, ap, arith, inl, inr, Bool-cases, Bool, true,
  false, bit_and, ◌==◌,
}
use ccova.Prelude.Bits.{bit_and-mask}
use ccova.Status.{value}
use ccova.Kind.{ArithmeticOp}
use ccova.Word.{IntType, int, uint, integer_arithmetic, modulus}
use ccova.Floats.{Floats}
use ccova.Optimize.{
  BinaryOp, NumericKind, operate, sign_extend, arithmetic, arithmetic_value, is_zero,
  unsigned_value, signed_arithmetic, unsigned_arithmetic,
}
use ccova.Optimize.Agree.{Corresponds, as_result, folded, signed-agree}
use ccova.Optimize.Modular.{pow_bound}
use ccova.Optimize.Folding.{wide_add, wide_sub, wide_mul, wide_and, wide_or, wide_xor, wide_shift}

-- An unsigned type of n bytes.
module _ (n : ℕ) (small : 8 * n ≤ 64) (j : ℕ) (power : 8 * n ≡ 2 ^ j) (bound : j ≤ 8 * n) (x y : ℕ)
    (x_below : x < 2 ^ (8 * n)) (y_below : y < 2 ^ (8 * n)) where
  abbrev width : ℕ
  width = 8 * n

  low_x : x % 2 ^ width ≡ x
  low_x = mod-eq_of_lt x_below

  low_y : y % 2 ^ width ≡ y
  low_y = mod-eq_of_lt y_below

  short_y : y < 2 ^ 64
  short_y = omega (arith, pow_bound width small)

  unsigned-agree :
      {op : BinaryOp} {operator : ArithmeticOp}
      → Corresponds op operator
      → as_result (folded op (y == 0) (operate (uint 8) op x y width % 2 ^ width))
        ≡ integer_arithmetic (uint n) operator x y
  unfolding integer_arithmetic
  unsigned-agree Corresponds.add_op =
      ap value (wide_add width small x y _ _ x_below y_below low_x low_y short_y)
  unsigned-agree Corresponds.sub_op =
      ap value (wide_sub width small x y _ _ x_below y_below low_x low_y short_y)
  unsigned-agree Corresponds.mul_op =
      ap value (wide_mul width small x y _ _ x_below y_below low_x low_y short_y)
  unsigned-agree Corresponds.div_op = elim (Bool-cases (y == 0)) [
    | inl e ↦ rw e refl
    | inr e ↦ rw e (ap value (mod-eq_of_lt {n = x / y} (omega (arith, div-le_self x y))))
  ]
  unsigned-agree Corresponds.modulo_op = elim (Bool-cases (y == 0)) [
    | inl e ↦ rw e refl
    | inr e ↦ rw e (ap value (mod-eq_of_lt {n = x % y} (omega (arith, mod-le x y))))
  ]
  unsigned-agree Corresponds.and_op =
      ap value (wide_and width small x y _ _ x_below y_below low_x low_y short_y)
  unsigned-agree Corresponds.or_op =
      ap value (wide_or width small x y _ _ x_below y_below low_x low_y short_y)
  unsigned-agree Corresponds.xor_op =
      ap value (wide_xor width small x y _ _ x_below y_below low_x low_y short_y)
  unsigned-agree Corresponds.left_op =
      ap value
        (wide_shift width small x y _ _ x_below y_below low_x low_y short_y (bit_and y (width - 1)))
  unsigned-agree Corresponds.right_op =
      let k = bit_and y (width - 1) in
      ap value (mod-eq_of_lt {n = x / 2 ^ k} (omega (arith, div-le_self x (2 ^ k))))

-- At 64 bits there is nothing to cut off.
whole-agree :
    (signed : Bool) (x y : ℕ) {op : BinaryOp} {operator : ArithmeticOp}
    → Corresponds op operator
    → as_result (folded op (y == 0) (operate (record { bytes = 8; signed = signed }) op x y 64))
      ≡ integer_arithmetic (record { bytes = 8; signed = signed }) operator x y
unfolding integer_arithmetic
whole-agree signed x y Corresponds.add_op = refl
whole-agree signed x y Corresponds.sub_op = refl
whole-agree signed x y Corresponds.mul_op = refl
whole-agree signed x y Corresponds.div_op = elim (Bool-cases (y == 0)) [
  | inl e ↦ rw e refl
  | inr e ↦ rw e refl
]
whole-agree signed x y Corresponds.modulo_op = elim (Bool-cases (y == 0)) [
  | inl e ↦ rw e refl
  | inr e ↦ rw e refl
]
whole-agree signed x y Corresponds.and_op = refl
whole-agree signed x y Corresponds.or_op = refl
whole-agree signed x y Corresponds.xor_op = refl
whole-agree signed x y Corresponds.left_op = refl
whole-agree signed x y Corresponds.right_op = refl

-- The type of the machine for an integer kind.
pub data IsKindOf : NumericKind → IntType → Type 0 where
  is_int8 : IsKindOf NumericKind.int8_kind (int 1)
  is_int16 : IsKindOf NumericKind.int16_kind (int 2)
  is_int32 : IsKindOf NumericKind.int32_kind (int 4)
  is_int64 : IsKindOf NumericKind.int64_kind (int 8)
  is_uint8 : IsKindOf NumericKind.uint8_kind (uint 1)
  is_uint16 : IsKindOf NumericKind.uint16_kind (uint 2)
  is_uint32 : IsKindOf NumericKind.uint32_kind (uint 4)
  is_uint64 : IsKindOf NumericKind.uint64_kind (uint 8)

module _ (n j : ℕ) (small : 8 * n ≤ 64) (power : 8 * n ≡ 2 ^ j) (bound : j ≤ 8 * n) (x y : ℕ)
    (x_below : x < 2 ^ (8 * n)) (y_below : y < 2 ^ (8 * n)) where
  masked :
      {op : BinaryOp} {operator : ArithmeticOp}
      → Corresponds op operator
      → as_result (
          folded op (y == 0) (
            bit_and
              (operate (int 8) op (sign_extend (8 * n) x) (sign_extend (8 * n) y) (8 * n))
              (2 ^ (8 * n) - 1)))
        ≡ integer_arithmetic (int n) operator x y
  masked {op} c =
      rw
        (bit_and-mask (8 * n)
          (operate (int 8) op (sign_extend (8 * n) x) (sign_extend (8 * n) y) (8 * n)))
        (signed-agree n small j power bound x y x_below y_below c)

  cut :
      {op : BinaryOp} {operator : ArithmeticOp}
      → Corresponds op operator
      → as_result (
          folded op
            (y % 2 ^ (8 * n) == 0)
            (operate (uint 8) op (x % 2 ^ (8 * n)) (y % 2 ^ (8 * n)) (8 * n) % 2 ^ (8 * n)))
        ≡ integer_arithmetic (uint n) operator x y
  cut c =
      rw (mod-eq_of_lt x_below, mod-eq_of_lt y_below)
        (unsigned-agree n small j power bound x y x_below y_below c)

-- On patterns of an integer kind, `optimizerArithmetic` of an arithmetic operator gives what
-- the machine's `executeIntegerArithmetic` computes in the width of the kind, and both refuse
-- a zero divisor.
pub arithmetic-integer_arithmetic :
    (floats : Floats) {kind : NumericKind} {t : IntType} {op : BinaryOp} {operator : ArithmeticOp}
    (x y : ℕ)
    → IsKindOf kind t
    → Corresponds op operator
    → x < modulus t
    → y < modulus t
    → as_result (arithmetic floats kind op x y) ≡ integer_arithmetic t operator x y
unfolding arithmetic arithmetic_value is_zero unsigned_value signed_arithmetic unsigned_arithmetic
arithmetic-integer_arithmetic floats x y is_int8 c x_below y_below =
    masked 1 3 (omega arith) refl (omega arith) x y x_below y_below c
arithmetic-integer_arithmetic floats x y is_int16 c x_below y_below =
    masked 2 4 (omega arith) refl (omega arith) x y x_below y_below c
arithmetic-integer_arithmetic floats x y is_int32 c x_below y_below =
    masked 4 5 (omega arith) refl (omega arith) x y x_below y_below c
arithmetic-integer_arithmetic floats x y is_int64 c x_below y_below = whole-agree true x y c
arithmetic-integer_arithmetic floats x y is_uint8 c x_below y_below =
    cut 1 3 (omega arith) refl (omega arith) x y x_below y_below c
arithmetic-integer_arithmetic floats x y is_uint16 c x_below y_below =
    cut 2 4 (omega arith) refl (omega arith) x y x_below y_below c
arithmetic-integer_arithmetic floats x y is_uint32 c x_below y_below =
    cut 4 5 (omega arith) refl (omega arith) x y x_below y_below c
arithmetic-integer_arithmetic floats x y is_uint64 c x_below y_below = whole-agree false x y c
