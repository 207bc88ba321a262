-- ===== src/Vm/BuiltIn/Function.antt =====
-- cova/builtins.go: a built-in function is an operation and the kind it works at, in 11 bits.
use ccova.Prelude.{
  ℕ, ◌+◌, ◌*◌, ◌/◌, ◌%◌, ◌^◌, ◌<◌, ◌≡◌, arith, bit_and, bit_or, List, [], ◌∷◌, get_or,
}
use ccova.Prelude.Bits.{bit_and-mask, bit_or-add}
use ccova.Kind.{ValueKind, kind_of, kind_number}
use ccova.Kind.Laws.{kind_of-kind_number}

pub data BuiltInOperation : Type 0 where
  invalid abs sin cos tan asin acos atan pow sqrt min max map random clamp : BuiltInOperation
  smooth_step lerp slerp tick_time timer_start timer_stop timer_reset : BuiltInOperation
  timer_done : BuiltInOperation
  out_of_range : ℕ → BuiltInOperation

-- In the order of the constants.
abbrev pub operations : List BuiltInOperation
operations =
    BuiltInOperation.invalid ∷ BuiltInOperation.abs ∷ BuiltInOperation.sin ∷ BuiltInOperation.cos
    ∷ BuiltInOperation.tan ∷ BuiltInOperation.asin ∷ BuiltInOperation.acos ∷ BuiltInOperation.atan
    ∷ BuiltInOperation.pow ∷ BuiltInOperation.sqrt ∷ BuiltInOperation.min ∷ BuiltInOperation.max
    ∷ BuiltInOperation.map ∷ BuiltInOperation.random ∷ BuiltInOperation.clamp
    ∷ BuiltInOperation.smooth_step ∷ BuiltInOperation.lerp ∷ BuiltInOperation.slerp
    ∷ BuiltInOperation.tick_time ∷ BuiltInOperation.timer_start ∷ BuiltInOperation.timer_stop
    ∷ BuiltInOperation.timer_reset ∷ BuiltInOperation.timer_done ∷ []

unfoldable pub operation_of : ℕ → BuiltInOperation
operation_of n = get_or operations n (BuiltInOperation.out_of_range n)

-- `makeBuiltInFunction`, from the number of the operation.
unfoldable pub make_built_in_function : ℕ → ValueKind → ℕ
make_built_in_function n kind =
    bit_or (bit_and n 0x7f * 2 ^ 4 % 2 ^ 16) (bit_and (kind_number kind) 0x0f)

unfoldable pub operation : ℕ → BuiltInOperation
unfolding operation_of
operation function = operation_of (bit_and (function / 2 ^ 4) 0x7f)

unfoldable pub function_kind : ℕ → ValueKind
function_kind function = kind_of (bit_and function 0x0f)

-- A built-in function made of an operation of 7 bits and a kind below 16 gives both back, and
-- fits in 11 bits.
pub make_built_in_function_fields :
    (n : ℕ) (kind : ValueKind)
    → n < 128
    → kind_number kind < 16
    → (operation (make_built_in_function n kind) ≡ operation_of n)
      × (function_kind (make_built_in_function n kind) ≡ kind)
      × (make_built_in_function n kind < 2 ^ 11)
unfolding make_built_in_function operation function_kind
make_built_in_function_fields n kind hn hk =
    let k = kind_number kind in
    let f = bit_or (bit_and n 0x7f * 2 ^ 4 % 2 ^ 16) (bit_and k 0x0f) in
    let whole : bit_and n 0x7f ≡ n = omega (arith, bit_and-mask 7 n) in
    let low : bit_and k 0x0f ≡ k = omega (arith, bit_and-mask 4 k) in
    let cut : n * 2 ^ 4 % 2 ^ 16 ≡ n * 2 ^ 4 = omega arith in
    let sum : f ≡ n * 16 + k = rw (whole, low, cut) (bit_or-add 4 n k hk) in
    let high : bit_and (f / 2 ^ 4) 0x7f ≡ n = omega (arith, sum, bit_and-mask 7 (f / 2 ^ 4)) in
    let bits : bit_and f 0x0f ≡ k = omega (arith, sum, bit_and-mask 4 f) in
    (rw high, rw bits (kind_of-kind_number kind), omega (arith, sum))
