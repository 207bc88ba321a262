-- ===== src/Vm/Compute.antt =====
-- cova/vm.go: arithmetic, comparison and conversion of the values on top of the stack.
use ccova.Prelude.{ℕ, Bool, not, xor, if◌then◌else◌}
use ccova.Prelude.Int.{ℤ, pos, is_zero}
use ccova.Status.{VmStatus, Result, value, error}
use ccova.Kind.{ValueKind, ArithmeticOp, CompareOp}
use ccova.Word.{
  IntType, int, uint, Ordered, integers, integer_arithmetic, compare_ordered, to_int, of_int,
}
use ccova.Floats.{FloatFormat, Floats}
use ccova.Vm.State.{M, ◌>>=◌, refuse, lift}
use ccova.Vm.Stack.{push_uint, pop_uint, push_bool, pop_bool, push_address}

-- `executeIntegerArithmetic`: the right operand is on top.
unfoldable pub execute_integer_arithmetic : IntType → ArithmeticOp → M (Unit {0})
execute_integer_arithmetic t op = do
  right ← pop_uint t.bytes
  left ← pop_uint t.bytes
  result ← lift (integer_arithmetic t op left right)
  push_uint t.bytes result

-- The switch of `executeFloatArithmetic`.
unfoldable pub float_arithmetic : FloatFormat → ArithmeticOp → ℕ → ℕ → Result ℕ
float_arithmetic f ArithmeticOp.add left right = value (f.ordered.add left right)
float_arithmetic f ArithmeticOp.sub left right = value (f.ordered.sub left right)
float_arithmetic f ArithmeticOp.mul left right = value (f.ordered.mul left right)
float_arithmetic f ArithmeticOp.div left right =
    if f.is_zero right then error VmStatus.division_by_zero else value (f.ordered.div left right)
float_arithmetic f _ left right = error VmStatus.invalid_opcode

unfoldable pub execute_float_arithmetic : FloatFormat → ℕ → ArithmeticOp → M (Unit {0})
execute_float_arithmetic f n op = do
  right ← pop_uint n
  left ← pop_uint n
  result ← lift (float_arithmetic f op left right)
  push_uint n result

-- `popAndCompare`
unfoldable pub pop_and_compare : Ordered → ℕ → CompareOp → M Bool
pop_and_compare t n op = do
  right ← pop_uint n
  left ← pop_uint n
  lift (compare_ordered t op left right)

unfoldable pub same_bool : Bool → Bool → Bool
same_bool a b = not (xor a b)

-- The switch on booleans of `executeTypedComparison`.
unfoldable pub compare_bools : CompareOp → Bool → Bool → Result Bool
unfolding same_bool
compare_bools CompareOp.equal left right = value (same_bool left right)
compare_bools CompareOp.not_equal left right = value (not (same_bool left right))
compare_bools _ left right = error VmStatus.invalid_opcode

unfoldable pub pop_and_compare_bools : CompareOp → M Bool
unfolding compare_bools
pop_and_compare_bools op = do right ← pop_bool; left ← pop_bool; lift (compare_bools op left right)

module _ (floats : Floats) where
  -- `executeArithmetic`
  unfoldable pub execute_arithmetic : ValueKind → ArithmeticOp → M (Unit {0})
  execute_arithmetic ValueKind.bool op = execute_integer_arithmetic (uint 1) op
  execute_arithmetic ValueKind.byte op = execute_integer_arithmetic (uint 1) op
  execute_arithmetic ValueKind.uint8 op = execute_integer_arithmetic (uint 1) op
  execute_arithmetic ValueKind.uint16 op = execute_integer_arithmetic (uint 2) op
  execute_arithmetic ValueKind.uint32 op = execute_integer_arithmetic (uint 4) op
  execute_arithmetic ValueKind.uint64 op = execute_integer_arithmetic (uint 8) op
  execute_arithmetic ValueKind.int8 op = execute_integer_arithmetic (int 1) op
  execute_arithmetic ValueKind.int16 op = execute_integer_arithmetic (int 2) op
  execute_arithmetic ValueKind.int64 op = execute_integer_arithmetic (int 8) op
  execute_arithmetic ValueKind.int32 op = execute_integer_arithmetic (int 4) op
  execute_arithmetic ValueKind.float32 op = execute_float_arithmetic floats.f32 4 op
  execute_arithmetic ValueKind.float64 op = execute_float_arithmetic floats.f64 8 op
  execute_arithmetic _ op = refuse VmStatus.invalid_opcode

  -- `executeTypedComparison`
  unfoldable pub execute_typed_comparison : ValueKind → CompareOp → M Bool
  execute_typed_comparison ValueKind.bool op = pop_and_compare_bools op
  execute_typed_comparison ValueKind.byte op = pop_and_compare (integers (uint 1)) 1 op
  execute_typed_comparison ValueKind.uint8 op = pop_and_compare (integers (uint 1)) 1 op
  execute_typed_comparison ValueKind.uint16 op = pop_and_compare (integers (uint 2)) 2 op
  execute_typed_comparison ValueKind.uint32 op = pop_and_compare (integers (uint 4)) 4 op
  execute_typed_comparison ValueKind.uint64 op = pop_and_compare (integers (uint 8)) 8 op
  execute_typed_comparison ValueKind.int8 op = pop_and_compare (integers (int 1)) 1 op
  execute_typed_comparison ValueKind.int16 op = pop_and_compare (integers (int 2)) 2 op
  execute_typed_comparison ValueKind.int32 op = pop_and_compare (integers (int 4)) 4 op
  execute_typed_comparison ValueKind.int64 op = pop_and_compare (integers (int 8)) 8 op
  execute_typed_comparison ValueKind.float32 op = pop_and_compare floats.f32.ordered 4 op
  execute_typed_comparison ValueKind.float64 op = pop_and_compare floats.f64.ordered 8 op
  execute_typed_comparison ValueKind.address op = pop_and_compare (integers (uint 4)) 4 op
  execute_typed_comparison _ op = refuse VmStatus.invalid_value_kind

  -- `convertAndPush` of an integer: a target of w bits keeps the integer modulo 2 ^ w.
  unfoldable pub convert_and_push : ℤ → ValueKind → M (Unit {0})
  convert_and_push v ValueKind.bool = push_bool (not (is_zero v))
  convert_and_push v ValueKind.byte = push_uint 1 (of_int 8 v)
  convert_and_push v ValueKind.int8 = push_uint 1 (of_int 8 v)
  convert_and_push v ValueKind.int16 = push_uint 2 (of_int 16 v)
  convert_and_push v ValueKind.int32 = push_uint 4 (of_int 32 v)
  convert_and_push v ValueKind.int64 = push_uint 8 (of_int 64 v)
  convert_and_push v ValueKind.uint8 = push_uint 1 (of_int 8 v)
  convert_and_push v ValueKind.uint16 = push_uint 2 (of_int 16 v)
  convert_and_push v ValueKind.uint32 = push_uint 4 (of_int 32 v)
  convert_and_push v ValueKind.uint64 = push_uint 8 (of_int 64 v)
  convert_and_push v ValueKind.float32 = push_uint 4 (floats.f32.of_integer v)
  convert_and_push v ValueKind.float64 = push_uint 8 (floats.f64.of_integer v)
  convert_and_push v ValueKind.address = push_address (of_int 32 v)
  convert_and_push v _ = refuse VmStatus.invalid_value_kind

  -- `convertAndPush` of a float32 or float64. `to32` and `to64` give its pattern in the
  -- two float types.
  unfoldable pub convert_float_and_push :
      FloatFormat → (ℕ → ℕ) → (ℕ → ℕ) → ℕ → ValueKind → M (Unit {0})
  convert_float_and_push f to32 to64 v ValueKind.bool = push_bool (not (f.is_zero v))
  convert_float_and_push f to32 to64 v ValueKind.byte = push_uint 1 (f.to_integer ValueKind.byte v)
  convert_float_and_push f to32 to64 v ValueKind.int8 = push_uint 1 (f.to_integer ValueKind.int8 v)
  convert_float_and_push f to32 to64 v ValueKind.int16 =
      push_uint 2 (f.to_integer ValueKind.int16 v)
  convert_float_and_push f to32 to64 v ValueKind.int32 =
      push_uint 4 (f.to_integer ValueKind.int32 v)
  convert_float_and_push f to32 to64 v ValueKind.int64 =
      push_uint 8 (f.to_integer ValueKind.int64 v)
  convert_float_and_push f to32 to64 v ValueKind.uint8 =
      push_uint 1 (f.to_integer ValueKind.uint8 v)
  convert_float_and_push f to32 to64 v ValueKind.uint16 =
      push_uint 2 (f.to_integer ValueKind.uint16 v)
  convert_float_and_push f to32 to64 v ValueKind.uint32 =
      push_uint 4 (f.to_integer ValueKind.uint32 v)
  convert_float_and_push f to32 to64 v ValueKind.uint64 =
      push_uint 8 (f.to_integer ValueKind.uint64 v)
  convert_float_and_push f to32 to64 v ValueKind.float32 = push_uint 4 (to32 v)
  convert_float_and_push f to32 to64 v ValueKind.float64 = push_uint 8 (to64 v)
  convert_float_and_push f to32 to64 v ValueKind.address =
      push_address (f.to_integer ValueKind.uint32 v)
  convert_float_and_push f to32 to64 v _ = refuse VmStatus.invalid_value_kind

  unfoldable pub convert_integer : IntType → ValueKind → M (Unit {0})
  convert_integer t to = do v ← pop_uint t.bytes; convert_and_push (to_int t v) to

  -- `executeConversion`
  unfoldable pub execute_conversion : ValueKind → ValueKind → M (Unit {0})
  execute_conversion ValueKind.bool to = do
    v ← pop_bool
    convert_and_push (pos (if v then 1 else 0)) to
  execute_conversion ValueKind.byte to = convert_integer (uint 1) to
  execute_conversion ValueKind.uint8 to = convert_integer (uint 1) to
  execute_conversion ValueKind.int8 to = convert_integer (int 1) to
  execute_conversion ValueKind.int16 to = convert_integer (int 2) to
  execute_conversion ValueKind.int32 to = convert_integer (int 4) to
  execute_conversion ValueKind.int64 to = convert_integer (int 8) to
  execute_conversion ValueKind.uint16 to = convert_integer (uint 2) to
  execute_conversion ValueKind.uint32 to = convert_integer (uint 4) to
  execute_conversion ValueKind.uint64 to = convert_integer (uint 8) to
  execute_conversion ValueKind.float32 to = do
    v ← pop_uint 4
    convert_float_and_push floats.f32 (λ x. x) floats.widen v to
  execute_conversion ValueKind.float64 to = do
    v ← pop_uint 8
    convert_float_and_push floats.f64 floats.narrow (λ x. x) v to
  execute_conversion ValueKind.address to = convert_integer (uint 4) to
  execute_conversion _ to = refuse VmStatus.invalid_value_kind
