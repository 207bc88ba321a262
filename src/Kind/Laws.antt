-- ===== src/Kind/Laws.antt =====
-- The numbers of the enumerations of cova/types.go determine the enumerators.
use Prim.Native.Nat.{suc}
use ccova.Prelude.{ℕ, ◌+◌, ◌≤◌, ◌≡◌, refl, ap, arith}
use ccova.Kind.{
  ValueKind, kind_of, kind_number, size, ArithmeticOp, arithmetic_op_of, arithmetic_op_number,
  CompareOp, compare_op_of, compare_op_number,
}

past :
    (n : ℕ)
    → 15 + n
      ≡ suc (suc (suc (suc (suc (suc (suc (suc (suc (suc (suc (suc (suc (suc (suc n))))))))))))))
past n = omega arith

pub kind_of-kind_number : (kind : ValueKind) → kind_of (kind_number kind) ≡ kind
unfolding kind_of kind_number
kind_of-kind_number (ValueKind.out_of_range n) = rw past (ap ValueKind.out_of_range (omega arith))
kind_of-kind_number _ = refl

eleven_past : (n : ℕ) → 11 + n ≡ suc (suc (suc (suc (suc (suc (suc (suc (suc (suc (suc n))))))))))
eleven_past n = omega arith

pub arithmetic_op_of-number : (op : ArithmeticOp) → arithmetic_op_of (arithmetic_op_number op) ≡ op
unfolding arithmetic_op_of arithmetic_op_number
arithmetic_op_of-number (ArithmeticOp.out_of_range n) =
    rw eleven_past (ap ArithmeticOp.out_of_range (omega arith))
arithmetic_op_of-number _ = refl

seven_past : (n : ℕ) → 7 + n ≡ suc (suc (suc (suc (suc (suc (suc n))))))
seven_past n = omega arith

pub compare_op_of-number : (op : CompareOp) → compare_op_of (compare_op_number op) ≡ op
unfolding compare_op_of compare_op_number
compare_op_of-number (CompareOp.out_of_range n) =
    rw seven_past (ap CompareOp.out_of_range (omega arith))
compare_op_of-number _ = refl

-- No kind is wider than a 64-bit word.
pub size-le : (kind : ValueKind) → size kind ≤ 8
unfolding size
size-le ValueKind.none = omega arith
size-le _ = omega arith
