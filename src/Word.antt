-- ===== src/Word.antt =====
-- Go's fixed-width integers as bit patterns: the operators that cova/vm.go applies to them.
-- A value of a w-bit type is a number below 2 ^ w; a signed type reads it in two's complement.
pub mod Laws
use ccova.Prelude.{
  ℕ, zero, suc, ◌+◌, ◌-◌, ◌*◌, ◌/◌, ◌%◌, ◌^◌, bit_and, bit_or, bit_xor, Bool, true, false, not, ltb,
  leb, ◌==◌, if◌then◌else◌,
}
use ccova.Prelude.Int.{ℤ, pos, negsuc, ltb_ℤ, quot, rem}
use ccova.Status.{VmStatus, Result, value, error}
use ccova.Kind.{ArithmeticOp, CompareOp}

-- An integer type: its bytes, and whether it is signed.
pub record IntType : Type 0 where
  pub bytes : ℕ
  pub signed : Bool

abbrev pub uint : ℕ → IntType
uint n = record { bytes = n; signed = false }

abbrev pub int : ℕ → IntType
int n = record { bytes = n; signed = true }

abbrev pub bits : IntType → ℕ
bits t = 8 * t.bytes

abbrev pub modulus : IntType → ℕ
modulus t = 2 ^ bits t

-- The integer that a w-bit pattern stands for in two's complement, and the pattern of an integer
-- (a conversion to a w-bit type, signed or not).
unfoldable pub to_signed : ℕ → ℕ → ℤ
to_signed w x = if ltb (2 * x) (2 ^ w) then pos x else negsuc (2 ^ w - x - 1)

unfoldable pub of_int : ℕ → ℤ → ℕ
of_int w (pos n) = n % 2 ^ w
of_int w (negsuc n) = 2 ^ w - 1 - n % 2 ^ w

unfoldable pub to_int : IntType → ℕ → ℤ
unfolding to_signed
to_int t x = if t.signed then to_signed (bits t) x else pos x

-- `+`, `-`, `*`: the same on the patterns of signed and unsigned types.
abbrev pub add_wrap : IntType → ℕ → ℕ → ℕ
add_wrap t x y = (x + y) % modulus t

abbrev pub sub_wrap : IntType → ℕ → ℕ → ℕ
sub_wrap t x y = (x + modulus t - y) % modulus t

abbrev pub mul_wrap : IntType → ℕ → ℕ → ℕ
mul_wrap t x y = x * y % modulus t

-- `/` and `%` of Go at a divisor that is not zero.
unfoldable pub div_trunc : IntType → ℕ → ℕ → ℕ
unfolding to_int of_int
div_trunc t x y = if t.signed then of_int (bits t) (quot (to_int t x) (to_int t y)) else x / y

unfoldable pub mod_trunc : IntType → ℕ → ℕ → ℕ
unfolding to_int of_int
mod_trunc t x y = if t.signed then of_int (bits t) (rem (to_int t x) (to_int t y)) else x % y

-- `<<` and `>>` by k; `>>` of a signed type copies the sign bit.
abbrev pub shift_left : IntType → ℕ → ℕ → ℕ
shift_left t x k = x * 2 ^ k % modulus t

unfoldable pub shift_right : IntType → ℕ → ℕ → ℕ
shift_right t x k =
    if t.signed
    then if ltb (2 * x) (modulus t) then x / 2 ^ k else modulus t - 1 - (modulus t - 1 - x) / 2 ^ k
    else x / 2 ^ k

-- `uint64(right) & (uint64(unsafe.Sizeof(left))*8 - 1)`
abbrev pub shift_count : IntType → ℕ → ℕ
shift_count t y = bit_and y (bits t - 1)

-- The switch of `executeIntegerArithmetic`.
unfoldable pub integer_arithmetic : IntType → ArithmeticOp → ℕ → ℕ → Result ℕ
unfolding div_trunc mod_trunc shift_right
integer_arithmetic t ArithmeticOp.add left right = value (add_wrap t left right)
integer_arithmetic t ArithmeticOp.sub left right = value (sub_wrap t left right)
integer_arithmetic t ArithmeticOp.mul left right = value (mul_wrap t left right)
integer_arithmetic t ArithmeticOp.div left right =
    if right == 0 then error VmStatus.division_by_zero else value (div_trunc t left right)
integer_arithmetic t ArithmeticOp.modulo left right =
    if right == 0 then error VmStatus.division_by_zero else value (mod_trunc t left right)
integer_arithmetic t ArithmeticOp.bitwise_and left right = value (bit_and left right)
integer_arithmetic t ArithmeticOp.bitwise_or left right = value (bit_or left right)
integer_arithmetic t ArithmeticOp.bitwise_xor left right = value (bit_xor left right)
integer_arithmetic t ArithmeticOp.shift_left left right =
    value (shift_left t left (shift_count t right))
integer_arithmetic t ArithmeticOp.shift_right left right =
    value (shift_right t left (shift_count t right))
integer_arithmetic t _ left right = error VmStatus.invalid_opcode

-- What Go's generic functions use of an ordered number type, on bit patterns.
pub record Ordered : Type 0 where
  pub add : ℕ → ℕ → ℕ
  pub sub : ℕ → ℕ → ℕ
  pub mul : ℕ → ℕ → ℕ
  pub div : ℕ → ℕ → ℕ
  pub eq : ℕ → ℕ → Bool
  pub lt : ℕ → ℕ → Bool
  pub le : ℕ → ℕ → Bool

unfoldable pub less : IntType → ℕ → ℕ → Bool
unfolding to_int
less t x y = ltb_ℤ (to_int t x) (to_int t y)

abbrev pub integers : IntType → Ordered
integers t = record {
  add = add_wrap t;
  sub = sub_wrap t;
  mul = mul_wrap t;
  div = div_trunc t;
  eq = ◌==◌;
  lt = less t;
  le = λ x y. not (less t y x);
}

-- `compareOrdered`
unfoldable pub compare_ordered : Ordered → CompareOp → ℕ → ℕ → Result Bool
compare_ordered t CompareOp.equal left right = value (t.eq left right)
compare_ordered t CompareOp.not_equal left right = value (not (t.eq left right))
compare_ordered t CompareOp.less left right = value (t.lt left right)
compare_ordered t CompareOp.less_equal left right = value (t.le left right)
compare_ordered t CompareOp.greater left right = value (t.lt right left)
compare_ordered t CompareOp.greater_equal left right = value (t.le right left)
compare_ordered t _ left right = error VmStatus.invalid_opcode
