-- ===== src/Vm/BuiltIn/Interpolate.antt =====
-- cova/vm.go: lerp, slerp and smoothStep over floats, and lerp and smoothStep in fixed point.
-- The products and sums of a float are rounded one by one.
use ccova.Prelude.{ℕ, ◌-◌, ◌*◌, ◌%◌, ◌^◌, min, not, leb, if◌then◌else◌}
use ccova.Prelude.Int.{pos}
use ccova.Status.{VmStatus, Result, value, error}
use ccova.Kind.{ValueKind}
use ccova.Word.{
  IntType, int, bits, less, add_wrap, sub_wrap, mul_wrap, shift_left, shift_right, to_int, of_int,
}
use ccova.Floats.{Floats, MathFunction}
use ccova.Vm.State.{M, pure, ◌>>=◌, refuse, lift}
use ccova.Vm.Stack.{pop_uint, push_uint, pop_bits, push_bits}
use ccova.Vm.BuiltIn.Function.{BuiltInOperation}

-- The float64 constant 0.00001.
abbrev pub epsilon : ℕ
epsilon = 0x3ee4f8b588e368f1

-- `start+((end-start)*weight>>shift)` at an integer type.
unfoldable pub blend : IntType → ℕ → ℕ → ℕ → ℕ → ℕ
blend t start end weight shift =
    add_wrap t start (shift_right t (mul_wrap t (sub_wrap t end start) weight) shift)

-- The curve in int64: `t*t*(3<<s - t<<1) >> (2*s)`.
unfoldable pub smoothed : ℕ → ℕ → ℕ
smoothed weight curve_shift =
    let three_scaled = shift_left (int 8) 3 curve_shift in
    let two_t = shift_left (int 8) weight 1 in
    let square = mul_wrap (int 8) weight weight in
    shift_right (int 8) (mul_wrap (int 8) square (sub_wrap (int 8) three_scaled two_t))
      (curve_shift * 2)

-- The last formula: a straight line for lerp, the curve for the others.
unfoldable pub curve : IntType → BuiltInOperation → ℕ → ℕ → ℕ → ℕ → ℕ
unfolding blend smoothed
curve t BuiltInOperation.lerp start end weight shift = blend t start end weight shift
curve t _ start end weight shift =
    let curve_shift : ℕ = min shift 15 in
    let wide : ℕ = of_int 64 (to_int t weight) in
    blend t start end (smoothed wide curve_shift % 2 ^ bits t) curve_shift

-- Both ends are exact: at a weight of 0 or less, and at one of `1 << shift` or more.
unfoldable pub fixed_point : IntType → BuiltInOperation → ℕ → ℕ → ℕ → ℕ → ℕ
unfolding curve
fixed_point t op start end weight shift =
    if not (less t 0 weight)
    then start
    else if not (less t weight (shift_left t 1 shift))
    then end
    else curve t op start end weight shift

-- The type that a kind is computed at: int32 at its own, any other as int64.
abbrev pub fixed_point_type : ValueKind → IntType
fixed_point_type ValueKind.int32 = int 4
fixed_point_type _ = int 8

-- `executeBuiltInFixedPoint`
unfoldable pub execute_built_in_fixed_point : BuiltInOperation → ValueKind → M (Unit {0})
execute_built_in_fixed_point op kind = do
  shift ← pop_bits ValueKind.uint8
  weight ← pop_bits kind
  end ← pop_bits kind
  start ← pop_bits kind
  let t = fixed_point_type kind
  if leb (bits t - 1) shift
      then refuse VmStatus.invalid_parameter
      else push_bits kind (fixed_point t op start end weight shift)

module _ (floats : Floats) where
  -- The float64 constants 0 to 3.
  constant : ℕ → ℕ
  constant n = floats.f64.of_integer (pos n)

  -- The switch of `executeBuiltInFloatInterpolation`, over float64 patterns.
  unfoldable pub float_interpolation : BuiltInOperation → ℕ → ℕ → ℕ → Result ℕ
  unfolding constant
  float_interpolation BuiltInOperation.smooth_step a b t =
      let f = floats.f64.ordered in
      let normalized : ℕ = f.div (f.sub t a) (f.sub b a) in
      value (
        if f.le t a
        then constant 0
        else if f.le b t
        then constant 1
        else f.mul (f.mul normalized normalized)
            (f.sub (constant 3) (f.mul (constant 2) normalized)))
  float_interpolation BuiltInOperation.lerp a b t =
      let f = floats.f64.ordered in value (f.add a (f.mul (f.sub b a) t))
  float_interpolation BuiltInOperation.slerp a b t =
      let f = floats.f64.ordered in
      let sine = floats.apply MathFunction.sin in
      let theta : ℕ = floats.apply MathFunction.acos (f.mul a b) in
      value (
        if f.lt (floats.apply MathFunction.abs theta) epsilon
        then a
        else f.div
            (f.add (f.mul (sine (f.mul (f.sub (constant 1) t) theta)) a)
              (f.mul (sine (f.mul t theta)) b))
            (sine theta))
  float_interpolation _ a b t = error VmStatus.invalid_opcode

  -- A float argument as a float64, and the result back.
  unfoldable pub pop_float : ValueKind → M ℕ
  pop_float ValueKind.float32 = do v ← pop_uint 4; pure (floats.widen v)
  pop_float _ = pop_uint 8

  unfoldable pub push_float : ValueKind → ℕ → M (Unit {0})
  push_float ValueKind.float32 v = push_uint 4 (floats.narrow v)
  push_float _ v = push_uint 8 v

  -- `executeBuiltInFloatInterpolation`
  unfoldable pub execute_built_in_float_interpolation : BuiltInOperation → ValueKind → M (Unit {0})
  unfolding pop_float push_float
  execute_built_in_float_interpolation op kind = do
    _ ← pop_bits ValueKind.uint8
    t ← pop_float kind
    b ← pop_float kind
    a ← pop_float kind
    result ← lift (float_interpolation op a b t)
    push_float kind result
