-- ===== src/Vm/BuiltIn/Number.antt =====
-- cova/vm.go: abs, min, max, map and clamp at each kind.
use ccova.Prelude.{
  ℕ, zero, suc, ◌-◌, ◌%◌, ◌^◌, bit_and, Bool, not, Option, none, some, List, [], ◌∷◌, get_or, ◌==◌,
  if◌then◌else◌,
}
use ccova.Status.{VmStatus}
use ccova.Kind.{ValueKind}
use ccova.Word.{IntType, int, uint, bits, Ordered, integers, to_int, of_int}
use ccova.Floats.{FloatFormat, Floats, MathFunction}
use ccova.Vm.State.{M, pure, ◌>>=◌, refuse}
use ccova.Vm.Stack.{pop_bits, push_bits}

-- Two's complement negation of a pattern whose sign bit is set.
abbrev pub abs_pattern : ℕ → ℕ → ℕ
abs_pattern w v = if bit_and v (2 ^ (w - 1)) == 0 then v else (2 ^ w - v % 2 ^ w) % 2 ^ w

-- How a kind is computed with: its order, and the type that map and clamp widen it to.
pub record Numeric : Type 0 where
  pub own : Ordered
  pub wide : Ordered
  pub widen : ℕ → ℕ
  pub narrow : ℕ → ℕ

abbrev pub integer_numeric : IntType → IntType → Numeric
integer_numeric t wide_type = record {
  own = integers t;
  wide = integers wide_type;
  widen = λ v. of_int (bits wide_type) (to_int t v);
  narrow = λ v. v % 2 ^ bits t;
}

abbrev pub float_numeric : FloatFormat → Numeric
float_numeric f = record { own = f.ordered; wide = f.ordered; widen = λ v. v; narrow = λ v. v }

-- `clampOrdered`; `none` is the result false.
unfoldable pub clamp_ordered : Ordered → ℕ → ℕ → ℕ → Option ℕ
clamp_ordered t v low high =
    if not (t.le low high)
    then none
    else if t.lt v low
    then some low
    else if t.lt high v
    then some high
    else some v

-- `mapOrdered`, after the two ranges have been put in order.
unfoldable pub map_in_order : Ordered → ℕ → ℕ → ℕ → ℕ → ℕ → Option ℕ
unfolding clamp_ordered
map_in_order t v in_low in_high out_low out_high =
    if not (t.lt in_low in_high) then none else elim (clamp_ordered t v in_low in_high) [
      | none ↦ none
      | some c ↦ some (
          t.add (t.div (t.mul (t.sub c in_low) (t.sub out_high out_low)) (t.sub in_high in_low))
            out_low)
    ]

unfoldable pub map_ordered : Ordered → ℕ → ℕ → ℕ → ℕ → ℕ → Option ℕ
unfolding map_in_order
map_ordered t v in_low in_high out_low out_high =
    let swap_in = t.lt in_high in_low in
    let swap_out = t.lt out_high out_low in
    map_in_order t v (if swap_in then in_high else in_low) (if swap_in then in_low else in_high)
      (if swap_out then out_high else out_low) (if swap_out then out_low else out_high)

-- `popBuiltInBits`: the last value popped is the first of the result.
unfoldable pub pop_built_in_bits : ValueKind → ℕ → List ℕ → M (List ℕ)
pop_built_in_bits kind zero values = pure values
pop_built_in_bits kind (suc count) values = do
  v ← pop_bits kind
  pop_built_in_bits kind count (v ∷ values)

-- What the switch of map and clamp makes of an answer.
unfoldable pub push_answer : ValueKind → VmStatus → (ℕ → ℕ) → Option ℕ → M (Unit {0})
push_answer kind status narrow none = refuse status
push_answer kind status narrow (some v) = push_bits kind (narrow v)

unfoldable pub map_values : Numeric → List ℕ → Option ℕ
map_values t values =
    let at = λ (i : ℕ). t.widen (get_or values i 0) in
    map_ordered t.wide (at 0) (at 1) (at 2) (at 3) (at 4)

unfoldable pub clamp_values : Numeric → List ℕ → Option ℕ
clamp_values t values =
    let at = λ (i : ℕ). t.widen (get_or values i 0) in clamp_ordered t.wide (at 0) (at 1) (at 2)

module _ (floats : Floats) where
  -- The kinds that the switches of min, max, map and clamp name.
  unfoldable pub numeric : ValueKind → Option Numeric
  numeric ValueKind.byte = some (integer_numeric (uint 1) (uint 4))
  numeric ValueKind.uint8 = some (integer_numeric (uint 1) (uint 4))
  numeric ValueKind.int8 = some (integer_numeric (int 1) (int 4))
  numeric ValueKind.int16 = some (integer_numeric (int 2) (int 4))
  numeric ValueKind.int32 = some (integer_numeric (int 4) (int 4))
  numeric ValueKind.int64 = some (integer_numeric (int 8) (int 8))
  numeric ValueKind.uint16 = some (integer_numeric (uint 2) (uint 4))
  numeric ValueKind.uint32 = some (integer_numeric (uint 4) (uint 4))
  numeric ValueKind.uint64 = some (integer_numeric (uint 8) (uint 8))
  numeric ValueKind.float32 = some (float_numeric floats.f32)
  numeric ValueKind.float64 = some (float_numeric floats.f64)
  numeric _ = none

  unfoldable pub push_abs : ValueKind → ℕ → M (Unit {0})
  push_abs ValueKind.byte v = push_bits ValueKind.byte v
  push_abs ValueKind.uint8 v = push_bits ValueKind.uint8 v
  push_abs ValueKind.uint16 v = push_bits ValueKind.uint16 v
  push_abs ValueKind.uint32 v = push_bits ValueKind.uint32 v
  push_abs ValueKind.uint64 v = push_bits ValueKind.uint64 v
  push_abs ValueKind.int8 v = push_bits ValueKind.int8 (abs_pattern 8 v)
  push_abs ValueKind.int16 v = push_bits ValueKind.int16 (abs_pattern 16 v)
  push_abs ValueKind.int32 v = push_bits ValueKind.int32 (abs_pattern 32 v)
  push_abs ValueKind.int64 v = push_bits ValueKind.int64 (abs_pattern 64 v)
  push_abs ValueKind.float32 v =
      push_bits ValueKind.float32 (floats.narrow (floats.apply MathFunction.abs (floats.widen v)))
  push_abs ValueKind.float64 v = push_bits ValueKind.float64 (floats.apply MathFunction.abs v)
  push_abs _ v = refuse VmStatus.invalid_value_kind

  -- `executeBuiltInAbs`
  unfoldable pub execute_built_in_abs : ValueKind → M (Unit {0})
  execute_built_in_abs kind = do v ← pop_bits kind; push_abs kind v

  unfoldable pub push_min_max : Bool → ValueKind → ℕ → ℕ → Option Numeric → M (Unit {0})
  push_min_max is_max kind left right none = refuse VmStatus.invalid_value_kind
  push_min_max is_max kind left right (some t) =
      let choose_right = if is_max then t.own.lt left right else t.own.lt right left in
      push_bits kind (if choose_right then right else left)

  -- `executeBuiltInMinMax`
  unfoldable pub execute_built_in_min_max : Bool → ValueKind → M (Unit {0})
  execute_built_in_min_max is_max kind = do
    right ← pop_bits kind
    left ← pop_bits kind
    push_min_max is_max kind left right (numeric kind)

  unfoldable pub push_map : ValueKind → List ℕ → Option Numeric → M (Unit {0})
  unfolding map_values
  push_map kind values none = refuse VmStatus.invalid_value_kind
  push_map kind values (some t) =
      push_answer kind VmStatus.division_by_zero t.narrow (map_values t values)

  -- `executeBuiltInMap`
  unfoldable pub execute_built_in_map : ValueKind → M (Unit {0})
  execute_built_in_map kind = do
    values ← pop_built_in_bits kind 5 []
    push_map kind values (numeric kind)

  unfoldable pub push_clamp : ValueKind → List ℕ → Option Numeric → M (Unit {0})
  unfolding clamp_values
  push_clamp kind values none = refuse VmStatus.invalid_value_kind
  push_clamp kind values (some t) =
      push_answer kind VmStatus.invalid_parameter t.narrow (clamp_values t values)

  -- `executeBuiltInClamp`
  unfoldable pub execute_built_in_clamp : ValueKind → M (Unit {0})
  execute_built_in_clamp kind = do
    values ← pop_built_in_bits kind 3 []
    push_clamp kind values (numeric kind)
