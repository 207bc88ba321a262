-- ===== src/Vm/BuiltIn.antt =====
-- cova/builtins.go and cova/vm.go: the numbers of the built-in functions, and what they do.
pub mod Function
pub mod Number
pub mod Interpolate
pub mod Timer
pub mod Saturate
pub mod Clamp
use ccova.Prelude.{ℕ, ◌+◌, ◌%◌, ◌^◌, bit_and, Bool, true, false, ◌&&◌, ◌||◌, ◌==◌, if◌then◌else◌}
use ccova.Status.{VmStatus}
use ccova.Kind.{ValueKind}
use ccova.Floats.{Floats, MathFunction, sin, cos, tan, asin, acos, atan, sqrt}
use ccova.Vm.State.{Vm, M, Outcome, done, pure, ◌>>=◌, ◌>>◌, refuse, gets, modify, next_random}
use ccova.Vm.Stack.{push_uint, pop_uint, push_bits}
use Function.{BuiltInOperation, operation, function_kind}
use Number.{
  execute_built_in_abs, execute_built_in_min_max, execute_built_in_map, execute_built_in_clamp,
}
use Interpolate.{execute_built_in_float_interpolation, execute_built_in_fixed_point}
use Timer.{timer_start, timer_stop, timer_reset, timer_done}

unfoldable pub take_random : M ℕ
unfolding next_random
take_random vm = let (result, vm') = next_random vm in done result vm'

abbrev pub is_float : ValueKind → Bool
is_float ValueKind.float32 = true
is_float ValueKind.float64 = true
is_float _ = false

-- `time::tickTime` and `math::random`
unfoldable pub push_tick_time : ValueKind → M (Unit {0})
push_tick_time ValueKind.float32 = do t ← gets (λ vm. vm.tick_time); push_uint 4 t
push_tick_time _ = refuse VmStatus.invalid_value_kind

unfoldable pub push_random : ValueKind → M (Unit {0})
push_random ValueKind.int32 = do r ← take_random; push_bits ValueKind.int32 (bit_and r 0x7fffffff)
push_random _ = refuse VmStatus.invalid_value_kind

-- An operation that is none of the others: only the kind decides the status.
abbrev pub no_operation : ValueKind → M (Unit {0})
no_operation kind =
    refuse (if is_float kind then VmStatus.invalid_opcode else VmStatus.invalid_value_kind)

module _ (floats : Floats) where
  -- The tail of `executeBuiltIn`: one argument, computed as a float64.
  unfoldable pub apply_math : MathFunction → ValueKind → M (Unit {0})
  apply_math f ValueKind.float32 = do
    v ← pop_uint 4
    push_uint 4 (floats.narrow (floats.apply f (floats.widen v)))
  apply_math f ValueKind.float64 = do v ← pop_uint 8; push_uint 8 (floats.apply f v)
  apply_math f _ = refuse VmStatus.invalid_value_kind

  -- `executeBuiltInPow`: the exponent is on top.
  unfoldable pub execute_built_in_pow : ValueKind → M (Unit {0})
  execute_built_in_pow ValueKind.float32 = do
    exponent ← pop_uint 4
    base ← pop_uint 4
    push_uint 4 (floats.narrow (floats.pow (floats.widen base) (floats.widen exponent)))
  execute_built_in_pow ValueKind.float64 = do
    exponent ← pop_uint 8
    base ← pop_uint 8
    push_uint 8 (floats.pow base exponent)
  execute_built_in_pow _ = refuse VmStatus.invalid_value_kind

  unfoldable pub interpolate : BuiltInOperation → ValueKind → M (Unit {0})
  interpolate op kind =
      if is_float kind
      then execute_built_in_float_interpolation floats op kind
      else execute_built_in_fixed_point op kind

  -- `executeBuiltIn`, by the operation.
  unfoldable pub execute_operation : BuiltInOperation → ValueKind → M (Unit {0})
  execute_operation BuiltInOperation.tick_time kind = push_tick_time kind
  execute_operation BuiltInOperation.timer_start kind = timer_start kind
  execute_operation BuiltInOperation.timer_stop kind = timer_stop kind
  execute_operation BuiltInOperation.timer_reset kind = timer_reset kind
  execute_operation BuiltInOperation.timer_done kind = timer_done kind
  execute_operation BuiltInOperation.abs kind = execute_built_in_abs floats kind
  execute_operation BuiltInOperation.min kind = execute_built_in_min_max floats false kind
  execute_operation BuiltInOperation.max kind = execute_built_in_min_max floats true kind
  execute_operation BuiltInOperation.map kind = execute_built_in_map floats kind
  execute_operation BuiltInOperation.clamp kind = execute_built_in_clamp floats kind
  execute_operation BuiltInOperation.random kind = push_random kind
  execute_operation BuiltInOperation.lerp kind = interpolate BuiltInOperation.lerp kind
  execute_operation BuiltInOperation.slerp kind = interpolate BuiltInOperation.slerp kind
  execute_operation BuiltInOperation.smooth_step kind =
      interpolate BuiltInOperation.smooth_step kind
  execute_operation BuiltInOperation.pow kind = execute_built_in_pow kind
  execute_operation BuiltInOperation.sin kind = apply_math sin kind
  execute_operation BuiltInOperation.cos kind = apply_math cos kind
  execute_operation BuiltInOperation.tan kind = apply_math tan kind
  execute_operation BuiltInOperation.asin kind = apply_math asin kind
  execute_operation BuiltInOperation.acos kind = apply_math acos kind
  execute_operation BuiltInOperation.atan kind = apply_math atan kind
  execute_operation BuiltInOperation.sqrt kind = apply_math sqrt kind
  execute_operation BuiltInOperation.invalid kind = no_operation kind
  execute_operation (BuiltInOperation.out_of_range n) kind = no_operation kind

  unfoldable pub execute_built_in : ℕ → M (Unit {0})
  execute_built_in function = execute_operation (operation function) (function_kind function)
