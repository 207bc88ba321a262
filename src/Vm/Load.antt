-- ===== src/Vm/Load.antt =====
-- cova/vm.go: `LoadProgram`, `Reset`, and `RunLoaded` up to its loop.
use ccova.Prelude.{
  ℕ, ◌-◌, ◌^◌, ◌++◌, true, false, not, ◌&&◌, Option, none, some, List, ltb, ◌==◌, if◌then◌else◌,
  length, get_elem?, drop, take, replicate,
}
use ccova.Prelude.Int.{pos}
use ccova.Status.{VmStatus, minus_one}
use ccova.Segment.{Bytes, MemorySegment, new_memory_segment}
use ccova.Memory.{update}
use ccova.Address.{segment_frame, segment_bss, segment_const, segment_data, segment_stack}
use ccova.Floats.{Floats}
use ccova.Program.{LinkedProgram, ScriptFunctionDescriptor}
use ccova.Vm.State.{
  Vm, M, Outcome, done, fail, pure, ◌>>=◌, ◌>>◌, gets, modify, fault, recorded, clear_fault,
  reset_random, stack, set_segment,
}
use ccova.Vm.Calls.{enter_script_function}
use ccova.Vm.Run.{ExternDispatcher, Run, faulted, run_loop}

-- A segment is replaced only where its length changes.
unfoldable pub resized : ℕ → MemorySegment → MemorySegment
resized n segment = if length segment.bytes == n then segment else new_memory_segment n n

-- The assignments of `LoadProgram`.
unfoldable pub install : LinkedProgram → Vm → Vm
install program vm =
    let constants : MemorySegment = record {
      bytes = program.const_data;
      capacity = length program.const_data;
    } in
    let bss = resized program.bss_byte_size (vm.memory segment_bss) in
    let initialized = resized program.data_byte_size (vm.memory segment_data) in
    record vm {
      memory =
          update (update (update vm.memory segment_bss bss) segment_data initialized) segment_const
            constants;
      program = some program;
    }

-- `LoadProgram`. An `int` has 64 bits, so a uint32 always converts.
unfoldable pub load_program : LinkedProgram → M (Unit {0})
load_program program =
    modify clear_fault
    >> (if not (program.const_byte_size == length program.const_data)
        then fault VmStatus.invalid_image minus_one (pos program.const_byte_size)
            (pos (length program.const_data))
        else if not (program.data_byte_size == length program.data_data)
        then fault VmStatus.invalid_image minus_one (pos program.data_byte_size)
            (pos (length program.data_data))
        else if ltb (2 ^ 32 - 1) (length program.text)
        then fault VmStatus.invalid_image minus_one (pos (2 ^ 32 - 1)) (pos (length program.text))
        else modify (install program))

-- `copy(segment, source)`
abbrev pub copied : Bytes → Bytes → Bytes
copied source bytes = take (length bytes) source ++ drop (length source) bytes

-- The assignments of `Reset`: BSS and the frames are zeroed, DATA is initialised, the stack is
-- emptied, and the counters and the random state start again.
abbrev pub zeroed : ℕ → Vm → Vm
zeroed s vm =
    let segment = vm.memory s in
    set_segment s (record segment { bytes = replicate (length segment.bytes) 0 }) vm

abbrev pub initialised : LinkedProgram → Vm → Vm
initialised program vm =
    let segment = vm.memory segment_data in
    set_segment segment_data (record segment { bytes = copied program.data_data segment.bytes }) vm

abbrev pub emptied : Vm → Vm
emptied vm =
    let segment = stack vm in set_segment segment_stack (record segment { bytes = List.[] }) vm

abbrev pub rewound : Vm → Vm
rewound vm = record vm { pc = 0; call_frame_top = 0; frame_top = 0 }

unfoldable pub cleared : LinkedProgram → Vm → Vm
cleared program vm =
    reset_random
      (rewound (zeroed segment_frame (emptied (initialised program (zeroed segment_bss vm)))))

-- The entry point must take no parameters.
unfoldable pub enter_entry_found : LinkedProgram → Option ScriptFunctionDescriptor → M (Unit {0})
enter_entry_found program none =
    fault VmStatus.invalid_target (pos program.entry_point) (pos (length program.functions))
      (pos (length program.functions))
enter_entry_found program (some function) =
    if function.param_count == 0
    then recorded (enter_script_function program program.entry_point 0 false)
    else fault VmStatus.invalid_descriptor (pos program.entry_point) (pos 0)
        (pos function.param_count)

unfoldable pub enter_entry : LinkedProgram → M (Unit {0})
enter_entry program = enter_entry_found program (get_elem? program.functions program.entry_point)

unfoldable pub reset_with : Option LinkedProgram → M LinkedProgram
reset_with none = fault VmStatus.no_program_loaded minus_one minus_one minus_one
reset_with (some program) = do modify (cleared program); enter_entry program; pure program

-- `Reset`: the program that was loaded, entered at its entry point.
unfoldable pub reset : M LinkedProgram
reset = do modify clear_fault; program ← gets (λ vm. vm.program); reset_with program

-- The clock: `float32(nowMS-vm.currentTimeMS) / 1000`, by a function of the difference.
unfoldable pub set_clock : (ℕ → ℕ) → ℕ → Vm → Vm
set_clock seconds now vm = record vm {
  tick_time = if vm.has_current_time then seconds (now - vm.current_time_ms) else 0;
  current_time_ms = now;
  has_current_time = true;
}

unfoldable pub start_tick : (ℕ → ℕ) → ℕ → M (Unit {0})
unfolding set_clock
start_tick seconds now = do
  vm ← gets (λ vm. vm)
  if vm.has_current_time && ltb now vm.current_time_ms
      then fault VmStatus.invalid_parameter minus_one minus_one minus_one
      else modify (set_clock seconds now)

-- What follows an action that may fail.
abbrev pub then_run : {A : Type 0} → (A → Vm → Run) → Outcome A → Run
then_run rest (fail status vm) = faulted status vm
then_run rest (done a vm) = rest a vm

module _ (floats : Floats) (seconds : ℕ → ℕ) (dispatcher : Option ExternDispatcher) where
  -- `RunLoaded`, for at most `fuel` instructions.
  unfoldable pub run_loaded : ℕ → ℕ → Vm → Run
  run_loaded fuel now vm =
      then_run
        (λ program vm'.
          then_run (λ _. run_loop floats dispatcher program fuel) (start_tick seconds now vm'))
        (reset vm)

  -- `Run`
  unfoldable pub run : LinkedProgram → ℕ → ℕ → Vm → Run
  run program fuel now vm = then_run (λ _. run_loaded fuel now) (load_program program vm)
