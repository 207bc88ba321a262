-- ===== src/Vm/Keeps/Compute.antt =====
-- Arithmetic, comparison and conversion keep the machine well formed (cova/vm.go).
use ccova.Prelude.{ℕ, ◌≡◌, ◌≢◌, arith, Bool}
use ccova.Prelude.Int.{ℤ}
use ccova.Status.{VmStatus, error}
use ccova.Kind.{ValueKind, ArithmeticOp, CompareOp}
use ccova.Word.{IntType, Ordered, integer_arithmetic, compare_ordered}
use ccova.Floats.{FloatFormat, Floats}
use ccova.Vm.Compute.{
  execute_integer_arithmetic, float_arithmetic, execute_float_arithmetic, pop_and_compare,
  compare_bools, pop_and_compare_bools, execute_arithmetic, execute_typed_comparison,
  convert_and_push, convert_float_and_push, convert_integer, execute_conversion,
}
use ccova.Vm.Keeps.{Shape, Keeps, Keeps-lift}
use ccova.Vm.Keeps.Moves.{stack_rules}

integer_arithmetic-ne_ok :
    (t : IntType) (op : ArithmeticOp) (left right : ℕ) (status : VmStatus)
    → integer_arithmetic t op left right ≡ error status
    → status ≢ VmStatus.ok
unfolding integer_arithmetic
integer_arithmetic-ne_ok t ArithmeticOp.div left right status h e = ground arith
integer_arithmetic-ne_ok t _ left right status h e = ground arith

float_arithmetic-ne_ok :
    (f : FloatFormat) (op : ArithmeticOp) (left right : ℕ) (status : VmStatus)
    → float_arithmetic f op left right ≡ error status
    → status ≢ VmStatus.ok
unfolding float_arithmetic
float_arithmetic-ne_ok f ArithmeticOp.div left right status h e = ground arith
float_arithmetic-ne_ok f _ left right status h e = ground arith

compare_ordered-ne_ok :
    (t : Ordered) (op : CompareOp) (left right : ℕ) (status : VmStatus)
    → compare_ordered t op left right ≡ error status
    → status ≢ VmStatus.ok
unfolding compare_ordered
compare_ordered-ne_ok t CompareOp.equal left right status h e = ground arith
compare_ordered-ne_ok t _ left right status h e = ground arith

compare_bools-ne_ok :
    (op : CompareOp) (left right : Bool) (status : VmStatus)
    → compare_bools op left right ≡ error status
    → status ≢ VmStatus.ok
unfolding compare_bools
compare_bools-ne_ok CompareOp.equal left right status h e = ground arith
compare_bools-ne_ok _ left right status h e = ground arith

module _ (shape : Shape) where
  Keeps-integer : (t : IntType) (op : ArithmeticOp) → Keeps shape (execute_integer_arithmetic t op)
  unfolding execute_integer_arithmetic
  Keeps-integer t op = search (stack_rules, Keeps-lift, integer_arithmetic-ne_ok)

  Keeps-float :
      (f : FloatFormat) (n : ℕ) (op : ArithmeticOp) → Keeps shape (execute_float_arithmetic f n op)
  unfolding execute_float_arithmetic
  Keeps-float f n op = search (stack_rules, Keeps-lift, float_arithmetic-ne_ok)

  Keeps-compare : (t : Ordered) (n : ℕ) (op : CompareOp) → Keeps shape (pop_and_compare t n op)
  unfolding pop_and_compare
  Keeps-compare t n op = search (stack_rules, Keeps-lift, compare_ordered-ne_ok)

  Keeps-compare_bools : (op : CompareOp) → Keeps shape (pop_and_compare_bools op)
  unfolding pop_and_compare_bools
  Keeps-compare_bools op = search (stack_rules, Keeps-lift, compare_bools-ne_ok)

  module _ (floats : Floats) where
    pub Keeps-execute_arithmetic :
        (kind : ValueKind) (op : ArithmeticOp) → Keeps shape (execute_arithmetic floats kind op)
    unfolding execute_arithmetic
    Keeps-execute_arithmetic ValueKind.none op = search stack_rules
    Keeps-execute_arithmetic _ op = search (stack_rules, Keeps-integer, Keeps-float)

    pub Keeps-execute_typed_comparison :
        (kind : ValueKind) (op : CompareOp) → Keeps shape (execute_typed_comparison floats kind op)
    unfolding execute_typed_comparison
    Keeps-execute_typed_comparison ValueKind.none op = search stack_rules
    Keeps-execute_typed_comparison _ op = search (stack_rules, Keeps-compare, Keeps-compare_bools)

    Keeps-convert_and_push :
        (v : ℤ) (kind : ValueKind) → Keeps shape (convert_and_push floats v kind)
    unfolding convert_and_push
    Keeps-convert_and_push v ValueKind.none = search stack_rules
    Keeps-convert_and_push v _ = search stack_rules

    Keeps-convert_float :
        (f : FloatFormat) (to32 to64 : ℕ → ℕ) (v : ℕ) (kind : ValueKind)
        → Keeps shape (convert_float_and_push floats f to32 to64 v kind)
    unfolding convert_float_and_push
    Keeps-convert_float f to32 to64 v ValueKind.none = search stack_rules
    Keeps-convert_float f to32 to64 v _ = search stack_rules

    Keeps-convert_integer :
        (t : IntType) (to : ValueKind) → Keeps shape (convert_integer floats t to)
    unfolding convert_integer
    Keeps-convert_integer t to = search (stack_rules, Keeps-convert_and_push)

    pub Keeps-execute_conversion :
        (from to : ValueKind) → Keeps shape (execute_conversion floats from to)
    unfolding execute_conversion
    Keeps-execute_conversion ValueKind.none to = search stack_rules
    Keeps-execute_conversion _ to =
        search (stack_rules, Keeps-convert_and_push, Keeps-convert_float, Keeps-convert_integer)
