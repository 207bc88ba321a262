-- ===== src/Vm/Keeps/Load.antt =====
-- Loading a program and starting a run leave the machine well formed (`LoadProgram` and
-- `Reset` of cova/vm.go).
use ccova.Prelude.{
  ℕ, zero, suc, ◌≤◌, ◌≡◌, ◌≢◌, refl, ◌∙◌, arith, Option, none, some, ◌==◌, max, if◌then◌else◌,
  length, length-append, length-take, length-drop, length-replicate, take, drop, replicate,
}
use ccova.Segment.{Bytes, MemorySegment, new_memory_segment}
use ccova.Memory.{new_program_memory}
use ccova.Address.{segment_frame, segment_bss, segment_const, segment_data}
use ccova.Program.{LinkedProgram, ScriptFunctionDescriptor}
use ccova.Vm.State.{
  Vm, VmConfig, final, ◌>>=◌, gets, modify, clear_fault, next_random, reset_random, set_random_seed,
  unseeded_vm, no_frame, CallFrame, new_vm_with_config, timer_count,
}
use ccova.Vm.Load.{
  resized, install, copied, zeroed, initialised, emptied, cleared, enter_entry_found, enter_entry,
  reset_with, reset,
}
use ccova.Vm.Keeps.{
  Shape, IsSound, IsSound-fault, BasesFit, Keeps, Keeps-modify, Keeps-bind, Keeps-recorded,
  Keeps-pure,
}
use ccova.Vm.Keeps.Moves.{stack_rules, IsSound-set_segment, IsSound-set_stack}
use ccova.Vm.Keeps.Enter.{Keeps-enter_script_function}
use ccova.Vm.Keeps.Leave.{IsSound-set_counters}

length-copied : (source bytes : Bytes) → length (copied source bytes) ≡ length bytes
length-copied source bytes =
    length-append (take (length bytes) source) (drop (length source) bytes)
    ∙ omega (arith, length-take (length bytes) source, length-drop (length source) bytes)

IsSound-reset_random :
    {shape : Shape} (vm : Vm) → IsSound shape vm → IsSound shape (reset_random vm)
unfolding reset_random next_random
IsSound-reset_random vm h = record {
  constants_same = h.constants_same;
  sizes_same = h.sizes_same;
  capacity_same = h.capacity_same;
  stack_fits = h.stack_fits;
  frames_same = h.frames_same;
  top_fits = h.top_fits;
  frame_fits = h.frame_fits;
  bases_fit = h.bases_fit;
  timers_same = h.timers_same;
  program_same = h.program_same;
}

reset_random-fault : (vm : Vm) → (reset_random vm).fault ≡ vm.fault
unfolding reset_random next_random
reset_random-fault vm = refl

pub cleared-fault : (program : LinkedProgram) (vm : Vm) → (cleared program vm).fault ≡ vm.fault
unfolding cleared
cleared-fault program vm = reset_random-fault _

module _ {shape : Shape} where
  IsSound-zeroed :
      (s : ℕ) (vm : Vm) → s ≢ segment_const → IsSound shape vm → IsSound shape (zeroed s vm)
  IsSound-zeroed s vm ne h =
      IsSound-set_segment s _ ne (length-replicate (length (vm.memory s).bytes) 0) refl h

  IsSound-initialised :
      (program : LinkedProgram) (vm : Vm)
      → IsSound shape vm
      → IsSound shape (initialised program vm)
  IsSound-initialised program vm h =
      IsSound-set_segment segment_data _ (λ x. absurd (omega arith))
        (length-copied program.data_data _) refl h

  IsSound-emptied : (vm : Vm) → IsSound shape vm → IsSound shape (emptied vm)
  IsSound-emptied vm h = IsSound-set_stack _ refl (omega arith) h

  IsSound-cleared :
      (program : LinkedProgram) (vm : Vm) → IsSound shape vm → IsSound shape (cleared program vm)
  unfolding cleared
  IsSound-cleared program vm h =
      let bss : IsSound shape (zeroed segment_bss vm) =
        IsSound-zeroed segment_bss vm (λ x. absurd (omega arith)) h in
      let empty = IsSound-emptied _ (IsSound-initialised program _ bss) in
      IsSound-reset_random _ (
        IsSound-set_counters 0 0 0 _ _ (omega arith) (omega arith)
          (IsSound-zeroed segment_frame _ (λ x. absurd (omega arith)) empty))

module _ (shape : Shape) where
  Keeps-enter_found :
      (program : LinkedProgram) (found : Option ScriptFunctionDescriptor)
      → Keeps shape (enter_entry_found program found)
  unfolding enter_entry_found
  Keeps-enter_found program none = search stack_rules
  Keeps-enter_found program (some function) =
      search (stack_rules, Keeps-recorded, Keeps-enter_script_function)

  pub Keeps-enter_entry : (program : LinkedProgram) → Keeps shape (enter_entry program)
  unfolding enter_entry
  Keeps-enter_entry program = Keeps-enter_found program _

  pub Keeps-reset_with : (found : Option LinkedProgram) → Keeps shape (reset_with found)
  unfolding reset_with
  Keeps-reset_with none = search stack_rules
  Keeps-reset_with (some program) =
      Keeps-bind shape _ _ (Keeps-modify shape _ (IsSound-cleared program) (cleared-fault program))
        (λ _. Keeps-bind shape _ _ (Keeps-enter_entry program) (λ _. Keeps-pure shape program))

  pub IsSound-clear_fault : (vm : Vm) → IsSound shape vm → IsSound shape (clear_fault vm)
  unfolding clear_fault
  IsSound-clear_fault vm h =
      IsSound-set_counters _ _ _ _ _ h.top_fits h.frame_fits (IsSound-fault _ h)

  pub reset-IsSound : (vm : Vm) → IsSound shape vm → IsSound shape (final (reset vm))
  unfolding reset ◌>>=◌ gets modify
  reset-IsSound vm h =
      (Keeps-reset_with (clear_fault vm).program).sound (clear_fault vm) (IsSound-clear_fault vm h)

-- A machine as `NewVMWithConfig` makes it.
abbrev pub new_shape : VmConfig → Shape
new_shape config = record {
  constants = new_memory_segment 0 0;
  sizes = λ s. if s == segment_frame then config.frame_capacity else 0;
  stack_capacity = config.stack_capacity;
  frames = max 1 config.call_frame_capacity;
  timers = timer_count config.timer_capacity;
  program = none;
}

-- What `LoadProgram` changes of the shape.
abbrev pub loaded_shape : LinkedProgram → Shape → Shape
loaded_shape program shape = record shape {
  constants = record { bytes = program.const_data; capacity = length program.const_data };
  sizes = λ s.
      if s == segment_const
      then length program.const_data
      else if s == segment_data
      then program.data_byte_size
      else if s == segment_bss
      then program.bss_byte_size
      else shape.sizes s;
  program = some program;
}

BasesFit-replicate : (n k : ℕ) (f : CallFrame) → f.local_base ≤ n → BasesFit n (replicate k f)
BasesFit-replicate n zero f h = tt
BasesFit-replicate n (suc k) f h = (h, BasesFit-replicate n k f h)

unseeded_vm-IsSound : (config : VmConfig) → IsSound (new_shape config) (unseeded_vm config)
unfolding unseeded_vm new_program_memory new_memory_segment
unseeded_vm-IsSound config = record {
  constants_same = refl;
  sizes_same = λ s ne.
      ground
        (arith, length-replicate {A = ℕ} 0 0, length-replicate {A = ℕ} config.frame_capacity 0);
  capacity_same = omega arith;
  stack_fits = omega arith;
  frames_same = length-replicate _ no_frame;
  top_fits = omega arith;
  frame_fits = omega arith;
  bases_fit = BasesFit-replicate _ _ no_frame (omega arith);
  timers_same = length-replicate _ _;
  program_same = refl;
}

IsSound-set_random_seed :
    {shape : Shape} (seed : ℕ) (vm : Vm)
    → IsSound shape vm
    → IsSound shape (set_random_seed seed vm)
unfolding set_random_seed reset_random next_random
IsSound-set_random_seed seed vm h = record {
  constants_same = h.constants_same;
  sizes_same = h.sizes_same;
  capacity_same = h.capacity_same;
  stack_fits = h.stack_fits;
  frames_same = h.frames_same;
  top_fits = h.top_fits;
  frame_fits = h.frame_fits;
  bases_fit = h.bases_fit;
  timers_same = h.timers_same;
  program_same = h.program_same;
}

pub new_vm-IsSound : (config : VmConfig) → IsSound (new_shape config) (new_vm_with_config config)
unfolding new_vm_with_config
new_vm-IsSound config = IsSound-set_random_seed _ _ (unseeded_vm-IsSound config)

length-resized : (n : ℕ) (segment : MemorySegment) → length (resized n segment).bytes ≡ n
unfolding resized new_memory_segment
length-resized n segment = ground (arith, length-replicate {A = ℕ} n 0)

pub install-IsSound :
    {shape : Shape} (program : LinkedProgram) (vm : Vm)
    → IsSound shape vm
    → IsSound (loaded_shape program shape) (install program vm)
unfolding install
install-IsSound program vm h = record {
  constants_same = refl;
  sizes_same = λ s ne. ground (
    arith,
    h.sizes_same s ne,
    length-resized program.bss_byte_size (vm.memory segment_bss),
    length-resized program.data_byte_size (vm.memory segment_data),
  );
  capacity_same = h.capacity_same;
  stack_fits = h.stack_fits;
  frames_same = h.frames_same;
  top_fits = h.top_fits;
  frame_fits = h.frame_fits;
  bases_fit = h.bases_fit;
  timers_same = h.timers_same;
  program_same = refl;
}
