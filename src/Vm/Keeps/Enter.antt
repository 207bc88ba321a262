-- ===== src/Vm/Keeps/Enter.antt =====
-- Calls keep the machine well formed (`enterScriptFunction` and `callScriptFunction` of
-- cova/vm.go): a frame lies in the frame segment, and the call frames do not overflow.
use ccova.Prelude.{
  ℕ, zero, suc, ◌+◌, ◌-◌, ◌≤◌, ◌<◌, ◌≡◌, refl, sym, ◌∙◌, arith, Bool, true, false, ◌&&◌, ◌||◌,
  Option, none, some, List, [], ◌∷◌, ltb, leb, length, set, subst, replicate, length-set,
  length-replicate,
}
use ccova.Status.{VmStatus}
use ccova.Segment.Windows.{length-overwrite}
use ccova.Address.{segment_frame}
use ccova.Program.{LinkedProgram, ScriptFunctionDescriptor}
use ccova.Vm.State.{Vm, CallFrame, Outcome, done, fail, final, pure, continue, ◌>>=◌, modify, stack}
use ccova.Vm.Calls.{
  clear_frame, pop_arguments, push_call_frame, enter_frame, enter_checked, enter_function,
  enter_found, enter_script_function, call_script_function,
}
use ccova.Vm.Keeps.{Shape, IsSound, IsClean, Ends, BasesFit, Keeps, outcome_if, Keeps-fault}
use ccova.Vm.Keeps.Moves.{stack_rules, IsSound-set_segment}
use ccova.Vm.Keeps.Arguments.{pop_arguments-top, Keeps-pop_arguments, Keeps-argument_bytes}

BasesFit-set :
    (n : ℕ) (frames : List CallFrame) (i : ℕ) (f : CallFrame)
    → BasesFit n frames
    → f.local_base ≤ n
    → BasesFit n (set frames i f)
BasesFit-set n [] i f h le = tt
BasesFit-set n (g ∷ frames) zero f h le = (le, h.1)
BasesFit-set n (g ∷ frames) (suc i) f h le = (h.0, BasesFit-set n frames i f h.1 le)

module _ (shape : Shape) where
  -- The callee's frame lies in the frame segment.
  clear_frame-IsSound :
      (base n : ℕ) (vm : Vm)
      → base + n ≤ shape.sizes segment_frame
      → IsSound shape vm
      → IsSound shape (clear_frame base n vm)
  unfolding clear_frame
  clear_frame-IsSound base n vm fits h =
      let frame = (vm.memory segment_frame).bytes in
      let size_same : length frame ≡ shape.sizes segment_frame =
        h.sizes_same segment_frame (λ x. absurd (omega arith)) in
      let zeros : length {A = ℕ} (replicate n 0) ≡ n = length-replicate n 0 in
      IsSound-set_segment segment_frame _ (λ x. absurd (omega arith))
        (length-overwrite base (replicate n 0) frame (omega (arith, zeros, size_same))) refl h

  push_call_frame-IsSound :
      (function : ScriptFunctionDescriptor) (return_pc base : ℕ) (vm : Vm)
      → base + function.frame_byte_size ≤ shape.sizes segment_frame
      → vm.call_frame_top < shape.frames
      → IsSound shape vm
      → IsSound shape (push_call_frame function return_pc base vm)
  unfolding push_call_frame
  push_call_frame-IsSound function return_pc base vm fits top h = record {
    constants_same = h.constants_same;
    sizes_same = h.sizes_same;
    capacity_same = h.capacity_same;
    stack_fits = h.stack_fits;
    frames_same = rw length-set h.frames_same;
    top_fits = omega arith;
    frame_fits = fits;
    bases_fit = BasesFit-set _ vm.call_frames vm.call_frame_top _ h.bases_fit (omega arith);
    timers_same = h.timers_same;
    program_same = h.program_same;
  }

  entered-IsSound :
      (function : ScriptFunctionDescriptor) (return_pc base : ℕ) (o : Outcome (Unit {0}))
      → base + function.frame_byte_size ≤ shape.sizes segment_frame
      → (final o).call_frame_top < shape.frames
      → IsSound shape (final o)
      → IsSound shape (final (continue o (λ _. modify (push_call_frame function return_pc base))))
  unfolding modify
  entered-IsSound function return_pc base (done a vm) fits top h =
      push_call_frame-IsSound function return_pc base vm fits top h
  entered-IsSound function return_pc base (fail status vm) fits top h = h

  pushed-IsClean :
      (function : ScriptFunctionDescriptor) (return_pc base : ℕ) (vm : Vm)
      → IsClean vm
      → IsClean (push_call_frame function return_pc base vm)
  unfolding push_call_frame
  pushed-IsClean function return_pc base vm h = h

  entered-honest :
      (function : ScriptFunctionDescriptor) (return_pc base : ℕ) (o : Outcome (Unit {0}))
      → Ends o
      → Ends (continue o (λ _. modify (push_call_frame function return_pc base)))
  unfolding modify
  entered-honest function return_pc base (done a vm) h = pushed-IsClean function return_pc base vm h
  entered-honest function return_pc base (fail status vm) h = h

  module _ (program : LinkedProgram) (function : ScriptFunctionDescriptor)
      (return_pc base : ℕ) where
    abbrev cleared_vm : Vm → Vm
    cleared_vm vm = clear_frame base function.frame_byte_size vm

    abbrev moved_vm : Vm → Outcome (Unit {0})
    moved_vm vm =
        pop_arguments program base function.param_start function.param_count (cleared_vm vm)

    cleared_vm-top : (vm : Vm) → (cleared_vm vm).call_frame_top ≡ vm.call_frame_top
    unfolding clear_frame
    cleared_vm-top vm = refl

    cleared_vm-IsClean : (vm : Vm) → IsClean vm → IsClean (cleared_vm vm)
    unfolding clear_frame
    cleared_vm-IsClean vm h = h

    enter_frame-IsSound :
        (pop_args : Bool) (vm : Vm)
        → base + function.frame_byte_size ≤ shape.sizes segment_frame
        → vm.call_frame_top < shape.frames
        → IsSound shape vm
        → IsSound shape (final (enter_frame program function return_pc pop_args base vm))
    unfolding enter_frame ◌>>=◌ modify pure
    enter_frame-IsSound false vm fits top h =
        push_call_frame-IsSound function return_pc base (cleared_vm vm) fits
          (subst (λ t. t < shape.frames) (sym (cleared_vm-top vm)) top)
          (clear_frame-IsSound base function.frame_byte_size vm fits h)
    enter_frame-IsSound true vm fits top h =
        entered-IsSound function return_pc base (moved_vm vm) fits
          (subst (λ t. t < shape.frames)
            (sym (pop_arguments-top program base _ _ (cleared_vm vm) ∙ cleared_vm-top vm)) top)
          ((Keeps-pop_arguments shape program base _ _).sound (cleared_vm vm)
            (clear_frame-IsSound base function.frame_byte_size vm fits h))

    enter_frame-honest :
        (pop_args : Bool) (vm : Vm)
        → IsClean vm
        → Ends (enter_frame program function return_pc pop_args base vm)
    unfolding enter_frame ◌>>=◌ modify pure
    enter_frame-honest false vm h =
        pushed-IsClean function return_pc base (cleared_vm vm) (cleared_vm-IsClean vm h)
    enter_frame-honest true vm h = entered-honest function return_pc base (moved_vm vm) (
        (Keeps-pop_arguments shape program base _ _).honest (cleared_vm vm)
          (cleared_vm-IsClean vm h))

  module _ (program : LinkedProgram) (function : ScriptFunctionDescriptor)
      (function_index return_pc : ℕ) (pop_args : Bool) (total : ℕ) where
    Keeps-enter_checked :
        Keeps shape (enter_checked program function function_index return_pc pop_args total)
    unfolding enter_checked
    Keeps-enter_checked = record {
      sound = λ vm h.
          let room : length (vm.memory segment_frame).bytes ≡ shape.sizes segment_frame =
            h.sizes_same segment_frame (λ x. absurd (omega arith)) in
          outcome_if (λ o. IsSound shape (final o))
            (pop_args && ltb (length (stack vm).bytes) total) _ _ vm
            (λ _. (Keeps-fault shape VmStatus.stack_underflow _ _ _ refl).sound vm h)
            (λ _.
              outcome_if (λ o. IsSound shape (final o))
                (ltb (length (vm.memory segment_frame).bytes) vm.frame_top
                  || ltb (length (vm.memory segment_frame).bytes - vm.frame_top)
                      function.frame_byte_size)
                _ _ vm (λ _. (Keeps-fault shape VmStatus.frame_overflow _ _ _ refl).sound vm h)
                (λ e.
                  outcome_if (λ o. IsSound shape (final o))
                    (leb (length vm.call_frames) vm.call_frame_top) _ _ vm
                    (λ _. (Keeps-fault shape VmStatus.call_frame_overflow _ _ _ refl).sound vm h)
                    (λ e'.
                      enter_frame-IsSound program function return_pc vm.frame_top pop_args vm
                        (ground (arith, room)) (ground (arith, h.frames_same)) h)));
      honest = λ vm h.
          outcome_if Ends (pop_args && ltb (length (stack vm).bytes) total) _ _ vm
            (λ _. (Keeps-fault shape VmStatus.stack_underflow _ _ _ refl).honest vm h)
            (λ _.
              outcome_if Ends
                (ltb (length (vm.memory segment_frame).bytes) vm.frame_top
                  || ltb (length (vm.memory segment_frame).bytes - vm.frame_top)
                      function.frame_byte_size)
                _ _ vm (λ _. (Keeps-fault shape VmStatus.frame_overflow _ _ _ refl).honest vm h)
                (λ _.
                  outcome_if Ends (leb (length vm.call_frames) vm.call_frame_top) _ _ vm
                    (λ _. (Keeps-fault shape VmStatus.call_frame_overflow _ _ _ refl).honest vm h)
                    (λ _.
                      enter_frame-honest program function return_pc vm.frame_top pop_args vm h)));
    }

  Keeps-enter_function :
      (program : LinkedProgram) (function : ScriptFunctionDescriptor) (function_index return_pc : ℕ)
      (pop_args : Bool)
      → Keeps shape (enter_function program function function_index return_pc pop_args)
  unfolding enter_function
  Keeps-enter_function program function function_index return_pc pop_args =
      search (stack_rules, Keeps-argument_bytes, Keeps-enter_checked)

  Keeps-enter_found :
      (program : LinkedProgram) (function_index return_pc : ℕ) (pop_args : Bool)
      (found : Option ScriptFunctionDescriptor)
      → Keeps shape (enter_found program function_index return_pc pop_args found)
  unfolding enter_found
  Keeps-enter_found program function_index return_pc pop_args none = search stack_rules
  Keeps-enter_found program function_index return_pc pop_args (some function) =
      Keeps-enter_function program function function_index return_pc pop_args

  pub Keeps-enter_script_function :
      (program : LinkedProgram) (function_index return_pc : ℕ) (pop_args : Bool)
      → Keeps shape (enter_script_function program function_index return_pc pop_args)
  unfolding enter_script_function
  Keeps-enter_script_function program function_index return_pc pop_args =
      Keeps-enter_found program function_index return_pc pop_args _

  pub Keeps-call_script_function :
      (program : LinkedProgram) (function_index : ℕ)
      → Keeps shape (call_script_function program function_index)
  unfolding call_script_function
  Keeps-call_script_function program function_index =
      search (stack_rules, Keeps-enter_script_function)
