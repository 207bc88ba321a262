-- ===== src/Optimize.antt =====
-- cova/optimize.go: the constant folding. A literal's int is a 64-bit pattern, its float the pattern
-- of a float64; the values that are folded are bit patterns of the kind of the operation, and an
-- int64 or a uint64 is a 64-bit pattern.
pub mod Modular
pub mod Folding
pub mod Agree
pub mod Arithmetic
pub mod Compare
pub mod Literals
use ccova.Prelude.{
  ℕ, ◌-◌, ◌%◌, ◌^◌, bit_and, bit_or, bit_xor, Bool, true, false, not, ◌&&◌, ◌||◌, Option, none,
  some, ◌==◌, if◌then◌else◌,
}
use ccova.Prelude.Checked.{Checked, accepted, rejected, ◌>>=◌, ◌>>◌, reject_if}
use ccova.Kind.{ValueKind}
use ccova.Floats.{Floats, FloatFormat}
use ccova.Types.{TypeKind, TypeRef, kind}
use ccova.Types.Basic.{float32, float64}
use ccova.Word
use ccova.Word.{
  IntType, uint, int, Ordered, integers, to_signed, of_int, add_wrap, sub_wrap, mul_wrap, div_trunc,
  mod_trunc,
}

pub data BinaryOp : Type 0 where
  logical_or logical_and bitwise_or bitwise_xor bitwise_and equal not_equal : BinaryOp
  less less_equal greater greater_equal shift_left shift_right add sub mul div modulo : BinaryOp

pub data NumericKind : Type 0 where
  int32_kind int8_kind int16_kind int64_kind uint8_kind uint16_kind uint32_kind : NumericKind
  uint64_kind float32_kind float64_kind : NumericKind

pub record NumberLiteral : Type 0 where
  pub int_value : ℕ
  pub float_value : ℕ
  pub is_float : Bool
  pub is_bool : Bool
  pub float_type : TypeRef
  pub line : ℕ

pub data FoldError : Type 0 where
  modulo_by_zero division_by_zero : FoldError

abbrev pub numeric_kind : TypeKind → NumericKind
numeric_kind TypeKind.int8_type = NumericKind.int8_kind
numeric_kind TypeKind.int16_type = NumericKind.int16_kind
numeric_kind TypeKind.int64_type = NumericKind.int64_kind
numeric_kind TypeKind.byte_type = NumericKind.uint8_kind
numeric_kind TypeKind.uint8_type = NumericKind.uint8_kind
numeric_kind TypeKind.bool_type = NumericKind.uint8_kind
numeric_kind TypeKind.uint16_type = NumericKind.uint16_kind
numeric_kind TypeKind.uint32_type = NumericKind.uint32_kind
numeric_kind TypeKind.uint64_type = NumericKind.uint64_kind
numeric_kind TypeKind.float32_type = NumericKind.float32_kind
numeric_kind TypeKind.float64_type = NumericKind.float64_kind
numeric_kind _ = NumericKind.int32_kind

-- `optimizerKindFromType`
unfoldable pub kind_from_type : TypeRef → NumericKind
kind_from_type TypeRef.nil = NumericKind.int32_kind
kind_from_type (TypeRef.ref type) = numeric_kind (kind type)

-- `int64(intW(bits))`
unfoldable pub sign_extend : ℕ → ℕ → ℕ
sign_extend w bits = of_int 64 (to_signed w (bits % 2 ^ w))

-- `optimizerSignedOrUnsignedValue`
unfoldable pub signed_or_unsigned_value : ℕ → NumericKind → ℕ
unfolding sign_extend
signed_or_unsigned_value bits NumericKind.int8_kind = sign_extend 8 bits
signed_or_unsigned_value bits NumericKind.int16_kind = sign_extend 16 bits
signed_or_unsigned_value bits NumericKind.int32_kind = sign_extend 32 bits
signed_or_unsigned_value bits NumericKind.int64_kind = bits
signed_or_unsigned_value bits NumericKind.uint8_kind = bits % 2 ^ 8
signed_or_unsigned_value bits NumericKind.uint16_kind = bits % 2 ^ 16
signed_or_unsigned_value bits NumericKind.uint32_kind = bits % 2 ^ 32
signed_or_unsigned_value bits _ = bits

-- `optimizerUnsignedValue`
unfoldable pub unsigned_value : ℕ → NumericKind → ℕ
unsigned_value bits NumericKind.uint8_kind = bits % 2 ^ 8
unsigned_value bits NumericKind.uint16_kind = bits % 2 ^ 16
unsigned_value bits NumericKind.uint32_kind = bits % 2 ^ 32
unsigned_value bits _ = bits

-- The switch on the operator, on 64-bit integers; any other operator leaves the result at 0.
abbrev pub operate : IntType → BinaryOp → ℕ → ℕ → ℕ → ℕ
operate t BinaryOp.add left right width = add_wrap t left right
operate t BinaryOp.sub left right width = sub_wrap t left right
operate t BinaryOp.mul left right width = mul_wrap t left right
operate t BinaryOp.div left right width = div_trunc t left right
operate t BinaryOp.modulo left right width = mod_trunc t left right
operate t BinaryOp.bitwise_and left right width = bit_and left right
operate t BinaryOp.bitwise_or left right width = bit_or left right
operate t BinaryOp.bitwise_xor left right width = bit_xor left right
operate t BinaryOp.shift_left left right width = Word.shift_left t left (bit_and right (width - 1))
operate t BinaryOp.shift_right left right width =
    Word.shift_right t left (bit_and right (width - 1))
operate t _ left right width = 0

-- `optimizerSignedArithmetic`
unfoldable pub signed_arithmetic : BinaryOp → ℕ → ℕ → ℕ → ℕ
signed_arithmetic op left right width =
    let result = operate (int 8) op left right width in
    if width == 64 then result else bit_and result (2 ^ width - 1)

-- The width of an unsigned kind, and `optimizerUnsignedArithmetic`.
abbrev pub unsigned_width : NumericKind → ℕ
unsigned_width NumericKind.uint8_kind = 8
unsigned_width NumericKind.uint16_kind = 16
unsigned_width NumericKind.uint32_kind = 32
unsigned_width _ = 64

unfoldable pub unsigned_arithmetic : BinaryOp → ℕ → ℕ → NumericKind → ℕ
unfolding unsigned_value
unsigned_arithmetic op left right kind =
    unsigned_value (operate (uint 8) op left right (unsigned_width kind)) kind

-- `optimizerFloat32Arithmetic` and `optimizerFloatArithmetic`; the pattern of 0 is 0.
unfoldable pub float_arithmetic : FloatFormat → BinaryOp → ℕ → ℕ → ℕ
float_arithmetic format BinaryOp.add left right = format.ordered.add left right
float_arithmetic format BinaryOp.sub left right = format.ordered.sub left right
float_arithmetic format BinaryOp.mul left right = format.ordered.mul left right
float_arithmetic format BinaryOp.div left right = format.ordered.div left right
float_arithmetic format _ left right = 0

-- `optimizerCompareInt`, `optimizerCompareUint` and `optimizerCompareFloat`
unfoldable pub compare_values : Ordered → BinaryOp → ℕ → ℕ → Bool
compare_values t BinaryOp.equal left right = t.eq left right
compare_values t BinaryOp.not_equal left right = not (t.eq left right)
compare_values t BinaryOp.less left right = t.lt left right
compare_values t BinaryOp.less_equal left right = t.le left right
compare_values t BinaryOp.greater left right = t.lt right left
compare_values t BinaryOp.greater_equal left right = t.le right left
compare_values t _ left right = false

abbrev pub is_comparison : BinaryOp → Bool
is_comparison BinaryOp.equal = true
is_comparison BinaryOp.not_equal = true
is_comparison BinaryOp.less = true
is_comparison BinaryOp.less_equal = true
is_comparison BinaryOp.greater = true
is_comparison BinaryOp.greater_equal = true
is_comparison _ = false

abbrev pub bool_int : Bool → ℕ
bool_int true = 1
bool_int false = 0

-- The test of a zero divisor, given whether the right operand is zero.
abbrev pub check_divisor : BinaryOp → Bool → Checked FoldError (Unit {0})
check_divisor BinaryOp.div zero_right = reject_if zero_right FoldError.division_by_zero
check_divisor BinaryOp.modulo zero_right = reject_if zero_right FoldError.modulo_by_zero
check_divisor _ zero_right = accepted tt

-- The literals that folding makes.
abbrev float_literal : ℕ → TypeRef → ℕ → NumberLiteral
float_literal value type line = record {
  int_value = 0;
  float_value = value;
  is_float = true;
  is_bool = false;
  float_type = type;
  line = line;
}

abbrev pub int_literal : ℕ → Bool → ℕ → NumberLiteral
int_literal value is_bool line = record {
  int_value = value;
  float_value = 0;
  is_float = false;
  is_bool = is_bool;
  float_type = TypeRef.nil;
  line = line;
}

module _ (floats : Floats) where
  -- `optimizerIntToBits`, of an int64
  unfoldable pub int_to_bits : ℕ → NumericKind → ℕ
  int_to_bits value NumericKind.float32_kind = floats.f32.of_integer (to_signed 64 value)
  int_to_bits value NumericKind.float64_kind = floats.f64.of_integer (to_signed 64 value)
  int_to_bits value NumericKind.int8_kind = value % 2 ^ 8
  int_to_bits value NumericKind.uint8_kind = value % 2 ^ 8
  int_to_bits value NumericKind.int16_kind = value % 2 ^ 16
  int_to_bits value NumericKind.uint16_kind = value % 2 ^ 16
  int_to_bits value NumericKind.int32_kind = value % 2 ^ 32
  int_to_bits value NumericKind.uint32_kind = value % 2 ^ 32
  int_to_bits value _ = value

  -- `optimizerFloatToBits`, of a float64
  unfoldable pub float_to_bits : ℕ → NumericKind → ℕ
  unfolding int_to_bits
  float_to_bits value NumericKind.float32_kind = floats.narrow value
  float_to_bits value NumericKind.float64_kind = value
  float_to_bits value kind = int_to_bits (floats.f64.to_integer ValueKind.int64 value) kind

  -- `optimizerLiteralBits`
  unfoldable pub literal_bits : NumberLiteral → NumericKind → ℕ
  unfolding float_to_bits
  literal_bits literal kind =
      if literal.is_float
      then float_to_bits literal.float_value kind
      else int_to_bits literal.int_value kind

  -- `optimizerLiteralFromBits`
  unfoldable pub literal_from_bits : ℕ → NumericKind → ℕ → NumberLiteral
  unfolding signed_or_unsigned_value
  literal_from_bits bits NumericKind.float32_kind line =
      float_literal (floats.widen (bits % 2 ^ 32)) (TypeRef.ref float32) line
  literal_from_bits bits NumericKind.float64_kind line =
      float_literal bits (TypeRef.ref float64) line
  literal_from_bits bits kind line = int_literal (signed_or_unsigned_value bits kind) false line

  -- `optimizerIsZero`
  unfoldable pub is_zero : NumericKind → ℕ → Bool
  unfolding unsigned_value
  is_zero NumericKind.float32_kind bits = floats.f32.is_zero (bits % 2 ^ 32)
  is_zero NumericKind.float64_kind bits = floats.f64.is_zero bits
  is_zero kind bits = unsigned_value bits kind == 0

  -- The switch of `optimizerArithmetic` on the kind.
  unfoldable pub arithmetic_value : NumericKind → BinaryOp → ℕ → ℕ → ℕ
  unfolding sign_extend signed_arithmetic unsigned_arithmetic float_arithmetic
  arithmetic_value NumericKind.float32_kind op left right =
      float_arithmetic floats.f32 op (left % 2 ^ 32) (right % 2 ^ 32)
  arithmetic_value NumericKind.float64_kind op left right =
      float_arithmetic floats.f64 op left right
  arithmetic_value NumericKind.int8_kind op left right =
      signed_arithmetic op (sign_extend 8 left) (sign_extend 8 right) 8
  arithmetic_value NumericKind.int16_kind op left right =
      signed_arithmetic op (sign_extend 16 left) (sign_extend 16 right) 16
  arithmetic_value NumericKind.int32_kind op left right =
      signed_arithmetic op (sign_extend 32 left) (sign_extend 32 right) 32
  arithmetic_value NumericKind.int64_kind op left right = signed_arithmetic op left right 64
  arithmetic_value kind op left right =
      unsigned_arithmetic op (unsigned_value left kind) (unsigned_value right kind) kind

  -- `optimizerArithmetic`
  unfoldable pub arithmetic : NumericKind → BinaryOp → ℕ → ℕ → Checked FoldError ℕ
  unfolding is_zero arithmetic_value
  arithmetic kind op left right = do
    check_divisor op (is_zero kind right)
    accepted (arithmetic_value kind op left right)

  -- `optimizerCompare`
  unfoldable pub compare : NumericKind → BinaryOp → ℕ → ℕ → Bool
  unfolding compare_values signed_or_unsigned_value unsigned_value
  compare NumericKind.float32_kind op left right =
      compare_values floats.f64.ordered op (floats.widen (left % 2 ^ 32))
        (floats.widen (right % 2 ^ 32))
  compare NumericKind.float64_kind op left right = compare_values floats.f64.ordered op left right
  compare NumericKind.uint8_kind op left right =
      compare_values (integers (uint 8)) op (left % 2 ^ 8) (right % 2 ^ 8)
  compare NumericKind.uint16_kind op left right =
      compare_values (integers (uint 8)) op (left % 2 ^ 16) (right % 2 ^ 16)
  compare NumericKind.uint32_kind op left right =
      compare_values (integers (uint 8)) op (left % 2 ^ 32) (right % 2 ^ 32)
  compare NumericKind.uint64_kind op left right = compare_values (integers (uint 8)) op left right
  compare kind op left right =
      compare_values (integers (int 8)) op (signed_or_unsigned_value left kind)
        (signed_or_unsigned_value right kind)

  -- The folding of two literals at the end of `optimizeBinary`.
  unfoldable pub fold_literals :
      BinaryOp → NumericKind → NumberLiteral → NumberLiteral → ℕ → Checked FoldError NumberLiteral
  unfolding literal_bits compare arithmetic literal_from_bits
  fold_literals op kind left right line =
      let l = literal_bits left kind in
      let r = literal_bits right kind in
      if is_comparison op
      then accepted (int_literal (bool_int (compare kind op l r)) true line)
      else (arithmetic kind op l r >>= λ bits. accepted (literal_from_bits bits kind line))
