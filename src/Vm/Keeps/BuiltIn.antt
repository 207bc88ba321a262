-- ===== src/Vm/Keeps/BuiltIn.antt =====
-- The built-in functions keep the machine well formed (cova/vm.go).
use ccova.Prelude.{
  ℕ, zero, suc, ◌≡◌, ◌≢◌, refl, Bool, true, false, Option, none, some, List, length-set,
  if◌then◌else◌,
}
use ccova.Status.{VmStatus, is_ok, error}
use ccova.Kind.{ValueKind}
use ccova.Floats.{Floats, MathFunction}
use ccova.Vm.State.{TimerSlot}
use ccova.Vm.BuiltIn.Function.{BuiltInOperation}
use ccova.Vm.BuiltIn.Number.{
  Numeric, pop_built_in_bits, push_answer, push_abs, execute_built_in_abs, push_min_max,
  execute_built_in_min_max, push_map, execute_built_in_map, push_clamp, execute_built_in_clamp,
}
use ccova.Vm.BuiltIn.Interpolate.{
  execute_built_in_fixed_point, float_interpolation, pop_float, push_float,
  execute_built_in_float_interpolation,
}
use ccova.Vm.BuiltIn.Timer.{
  found, timer, set_timer, timer_start, timer_stop, timer_reset, timer_done,
}
use ccova.Vm.BuiltIn.{
  take_random, apply_math, execute_built_in_pow, interpolate, push_tick_time, push_random,
  execute_operation, execute_built_in,
}
use ccova.Vm.Keeps.{Shape, Keeps, Keeps-lift, Keeps-modify}
use ccova.Vm.Keeps.Moves.{stack_rules}

float_interpolation-ne_ok :
    (floats : Floats) (op : BuiltInOperation) (a b t : ℕ) (status : VmStatus)
    → float_interpolation floats op a b t ≡ error status
    → status ≢ VmStatus.ok
unfolding float_interpolation
float_interpolation-ne_ok floats BuiltInOperation.lerp a b t status h e = cc
float_interpolation-ne_ok floats _ a b t status h e = cc

module _ (shape : Shape) where
  Keeps-found : (slot : Option TimerSlot) → Keeps shape (found slot)
  unfolding found
  Keeps-found none = search stack_rules
  Keeps-found (some slot) = search stack_rules

  Keeps-timer : (id : ℕ) → Keeps shape (timer id)
  unfolding timer
  Keeps-timer id = search (stack_rules, Keeps-found)

  Keeps-set_timer : (id : ℕ) (slot : TimerSlot) → Keeps shape (set_timer id slot)
  unfolding set_timer
  Keeps-set_timer id slot =
      Keeps-modify shape _
        (λ vm h. record {
          constants_same = h.constants_same;
          sizes_same = h.sizes_same;
          capacity_same = h.capacity_same;
          stack_fits = h.stack_fits;
          frames_same = h.frames_same;
          top_fits = h.top_fits;
          frame_fits = h.frame_fits;
          bases_fit = h.bases_fit;
          timers_same = rw length-set h.timers_same;
          program_same = h.program_same;
        })
        (λ vm. refl)

  Keeps-timer_start : (kind : ValueKind) → Keeps shape (timer_start kind)
  unfolding timer_start
  Keeps-timer_start ValueKind.void = search (stack_rules, Keeps-timer, Keeps-set_timer) depth 9
  Keeps-timer_start _ = search stack_rules

  Keeps-timer_stop : (kind : ValueKind) → Keeps shape (timer_stop kind)
  unfolding timer_stop
  Keeps-timer_stop ValueKind.void = search (stack_rules, Keeps-timer, Keeps-set_timer) depth 9
  Keeps-timer_stop _ = search stack_rules

  Keeps-timer_reset : (kind : ValueKind) → Keeps shape (timer_reset kind)
  unfolding timer_reset
  Keeps-timer_reset ValueKind.void = search (stack_rules, Keeps-timer, Keeps-set_timer) depth 9
  Keeps-timer_reset _ = search stack_rules

  Keeps-timer_done : (kind : ValueKind) → Keeps shape (timer_done kind)
  unfolding timer_done
  Keeps-timer_done ValueKind.bool = search (stack_rules, Keeps-timer) depth 9
  Keeps-timer_done _ = search stack_rules

  Keeps-pop_built_in_bits :
      (kind : ValueKind) (count : ℕ) (values : List ℕ)
      → Keeps shape (pop_built_in_bits kind count values)
  unfolding pop_built_in_bits
  Keeps-pop_built_in_bits kind zero values = search stack_rules
  Keeps-pop_built_in_bits kind (suc count) values =
      let rest = Keeps-pop_built_in_bits kind count in search (stack_rules, rest)

  Keeps-push_answer :
      (kind : ValueKind) (status : VmStatus) (narrow : ℕ → ℕ) (answer : Option ℕ)
      → is_ok status ≡ false
      → Keeps shape (push_answer kind status narrow answer)
  unfolding push_answer
  Keeps-push_answer kind status narrow none ne = search stack_rules
  Keeps-push_answer kind status narrow (some v) ne = search stack_rules

  Keeps-take_random : Keeps shape take_random
  unfolding take_random
  Keeps-take_random = record {
    sound = λ vm h. record {
      constants_same = h.constants_same;
      sizes_same = h.sizes_same;
      capacity_same = h.capacity_same;
      stack_fits = h.stack_fits;
      frames_same = h.frames_same;
      top_fits = h.top_fits;
      frame_fits = h.frame_fits;
      bases_fit = h.bases_fit;
      timers_same = h.timers_same;
      program_same = h.program_same;
    };
    honest = λ vm h. h;
  }

  Keeps-fixed_point :
      (op : BuiltInOperation) (kind : ValueKind)
      → Keeps shape (execute_built_in_fixed_point op kind)
  unfolding execute_built_in_fixed_point
  Keeps-fixed_point op kind = search stack_rules depth 9

  Keeps-push_random : (kind : ValueKind) → Keeps shape (push_random kind)
  unfolding push_random
  Keeps-push_random ValueKind.int32 = search (stack_rules, Keeps-take_random)
  Keeps-push_random _ = search stack_rules

  Keeps-push_tick_time : (kind : ValueKind) → Keeps shape (push_tick_time kind)
  unfolding push_tick_time
  Keeps-push_tick_time ValueKind.float32 = search stack_rules
  Keeps-push_tick_time _ = search stack_rules

  module _ (floats : Floats) where
    Keeps-push_abs : (kind : ValueKind) (v : ℕ) → Keeps shape (push_abs floats kind v)
    unfolding push_abs
    Keeps-push_abs ValueKind.none v = search stack_rules
    Keeps-push_abs _ v = search stack_rules

    Keeps-abs : (kind : ValueKind) → Keeps shape (execute_built_in_abs floats kind)
    unfolding execute_built_in_abs
    Keeps-abs kind = search (stack_rules, Keeps-push_abs)

    Keeps-push_min_max :
        (is_max : Bool) (kind : ValueKind) (left right : ℕ) (t : Option Numeric)
        → Keeps shape (push_min_max floats is_max kind left right t)
    unfolding push_min_max
    Keeps-push_min_max is_max kind left right none = search stack_rules
    Keeps-push_min_max is_max kind left right (some t) = search stack_rules

    Keeps-min_max :
        (is_max : Bool) (kind : ValueKind)
        → Keeps shape (execute_built_in_min_max floats is_max kind)
    unfolding execute_built_in_min_max
    Keeps-min_max is_max kind = search (stack_rules, Keeps-push_min_max)

    Keeps-push_map :
        (kind : ValueKind) (values : List ℕ) (t : Option Numeric)
        → Keeps shape (push_map floats kind values t)
    unfolding push_map
    Keeps-push_map kind values none = search stack_rules
    Keeps-push_map kind values (some t) = search (stack_rules, Keeps-push_answer)

    Keeps-map : (kind : ValueKind) → Keeps shape (execute_built_in_map floats kind)
    unfolding execute_built_in_map
    Keeps-map kind = search (stack_rules, Keeps-pop_built_in_bits, Keeps-push_map)

    Keeps-push_clamp :
        (kind : ValueKind) (values : List ℕ) (t : Option Numeric)
        → Keeps shape (push_clamp floats kind values t)
    unfolding push_clamp
    Keeps-push_clamp kind values none = search stack_rules
    Keeps-push_clamp kind values (some t) = search (stack_rules, Keeps-push_answer)

    Keeps-clamp : (kind : ValueKind) → Keeps shape (execute_built_in_clamp floats kind)
    unfolding execute_built_in_clamp
    Keeps-clamp kind = search (stack_rules, Keeps-pop_built_in_bits, Keeps-push_clamp)

    Keeps-pop_float : (kind : ValueKind) → Keeps shape (pop_float floats kind)
    unfolding pop_float
    Keeps-pop_float ValueKind.float32 = search stack_rules
    Keeps-pop_float _ = search stack_rules

    Keeps-push_float : (kind : ValueKind) (v : ℕ) → Keeps shape (push_float floats kind v)
    unfolding push_float
    Keeps-push_float ValueKind.float32 v = search stack_rules
    Keeps-push_float _ v = search stack_rules

    Keeps-interpolation :
        (op : BuiltInOperation) (kind : ValueKind)
        → Keeps shape (execute_built_in_float_interpolation floats op kind)
    unfolding execute_built_in_float_interpolation
    Keeps-interpolation op kind =
        search
          (stack_rules, Keeps-lift, Keeps-pop_float, Keeps-push_float, float_interpolation-ne_ok)
          depth 9

    Keeps-interpolate :
        (op : BuiltInOperation) (kind : ValueKind) → Keeps shape (interpolate floats op kind)
    unfolding interpolate
    Keeps-interpolate op kind = search (stack_rules, Keeps-interpolation, Keeps-fixed_point)

    Keeps-apply_math :
        (f : MathFunction) (kind : ValueKind) → Keeps shape (apply_math floats f kind)
    unfolding apply_math
    Keeps-apply_math f ValueKind.float32 = search stack_rules
    Keeps-apply_math f _ = search stack_rules

    Keeps-pow : (kind : ValueKind) → Keeps shape (execute_built_in_pow floats kind)
    unfolding execute_built_in_pow
    Keeps-pow ValueKind.float32 = search stack_rules
    Keeps-pow _ = search stack_rules

    no_operation-ne_ok :
        (b : Bool)
        → is_ok (if b then VmStatus.invalid_opcode else VmStatus.invalid_value_kind) ≡ false
    no_operation-ne_ok true = refl
    no_operation-ne_ok false = refl

    Keeps-execute_operation :
        (op : BuiltInOperation) (kind : ValueKind) → Keeps shape (execute_operation floats op kind)
    unfolding execute_operation
    Keeps-execute_operation BuiltInOperation.invalid kind = search (stack_rules, no_operation-ne_ok)
    Keeps-execute_operation _ kind = search (
      stack_rules, no_operation-ne_ok, Keeps-push_tick_time, Keeps-timer_start, Keeps-timer_stop,
      Keeps-timer_reset, Keeps-timer_done, Keeps-abs, Keeps-min_max, Keeps-map, Keeps-clamp,
      Keeps-push_random, Keeps-interpolate, Keeps-apply_math, Keeps-pow,
    )

    pub Keeps-execute_built_in : (function : ℕ) → Keeps shape (execute_built_in floats function)
    unfolding execute_built_in
    Keeps-execute_built_in function = Keeps-execute_operation _ _
