-- ===== src/Tests.antt =====
-- A small program and a host, and the theorems on the machine at them.
mod Compile
mod Encoding
mod Image
mod Lex
mod Link
mod Memory
mod Optimize
mod Types
use ccova.Prelude.{
  ℕ, zero, suc, ◌+◌, ◌-◌, ◌*◌, ◌%◌, ◌^◌, ◌≤◌, ◌<◌, ◌≡◌, ◌≢◌, refl, arith, Bool, true, false, ◌⊎◌,
  inl, inr, Option, none, some, List, [], ◌∷◌, ◌++◌, length, min, ◌==◌, if◌then◌else◌,
}
use ccova.Prelude.Int.{ℤ, pos, negsuc}
use ccova.Status.{VmStatus, Result, value, error}
use ccova.Kind.{ValueKind, size, opcode_of, ArithmeticOp, arithmetic_op_number, CompareOp}
use ccova.Segment.{
  Bytes, MemorySegment, put_uint, get_uint, append_uint, truncate_uint, write_uint,
  new_memory_segment,
}
use ccova.Address.{
  make_address, address_segment, address_index, segment_const, segment_data, segment_stack,
}
use ccova.Floats.{FloatFormat, MathFunction, Floats}
use ccova.Word.{int, integers, integer_arithmetic, compare_ordered}
use ccova.Code.{
  opcode, read_instruction_checked, read_uint32_checked, append_immediate, append_uint32,
}
use ccova.Vm.Calls.{current_frame, push_call_frame, return_from_function}
use ccova.Vm.Calls.Laws.{return_from_function-push_call_frame}
use ccova.Vm.Run.Step.{push_code, noting, step-push_code}
use ccova.Kind.{kind_number}
use ccova.Vm.Run.Laws.{at_pc, execute_push-append_immediate, jump-append_uint32}
use ccova.Program.{LinkedProgram, ScriptFunctionDescriptor}
use ccova.Vm.State.{
  Vm, VmConfig, Outcome, done, fail, final, unseeded_vm, new_vm_with_config, set_random_seed,
  reset_random, next_random, stack, lift, clear_fault, set_fault, recorded, ◌>>=◌, modify, gets,
  pure, refuse,
}
use ccova.Vm.Compute.{execute_integer_arithmetic, pop_and_compare}
use ccova.Vm.Stack.Laws.{
  with_word, answered, execute_integer_arithmetic-operands, pop_and_compare-operands,
  pop_uint-with_word,
}
use ccova.Memory.{
  ProgramMemory, update, new_program_memory, writable_segment_for_address, segment_for_address,
  read, write,
}
use ccova.Memory.Laws.{read-write, read-write_ne, write-const, write_size}
use ccova.Vm.Stack.{pop_uint}
use ccova.Vm.Run.{
  ExternDispatcher, Run, stopped, faulted, out_of_fuel, run_loop, step, fetch, execute,
  execute_push, jump_to,
}
use ccova.Vm.Load.{install, load_program, run, run_loaded}
use ccova.Vm.Keeps.{Shape, IsSound, IsClean, Ends}
use ccova.Vm.Keeps.Moves.{Keeps-pop_uint}
use ccova.Vm.Keeps.Run.{HostKeeps, HostFits}
use ccova.Vm.Keeps.Loop.{end_of, EndsRecorded}
use ccova.Vm.Keeps.Load.{new_shape, loaded_shape}
use ccova.Vm.Keeps.Loaded.{IsLoaded, IsRefused, load_program-cases}
use ccova.Vm.Keeps.Whole.{SizesAgree, run-IsSound, run_loaded-EndsRecorded}

-- Floats whose operations are those of the patterns as integers.
abbrev some_format : FloatFormat
some_format = record {
  ordered = integers (int 4);
  is_zero = λ x. false;
  of_integer = λ z. 0;
  to_integer = λ k x. x;
}

abbrev some_floats : Floats
some_floats = record {
  f32 = some_format;
  f64 = some_format;
  widen = λ x. x;
  narrow = λ x. x;
  apply = λ f x. x;
  pow = λ x y. x;
}

-- push int32 40; push int32 2; add; call_extern 0; return.
abbrev some_text : Bytes
some_text =
    0x01 ∷ 0x02 ∷ 40 ∷ 0 ∷ 0 ∷ 0 ∷ 0x01 ∷ 0x02 ∷ 2 ∷ 0 ∷ 0 ∷ 0 ∷ 0x02 ∷ 0x06 ∷ 12 ∷ 0 ∷ 0 ∷ 0 ∷ 0
    ∷ 0 ∷ 13 ∷ 0 ∷ []

abbrev some_program : LinkedProgram
some_program = record {
  text = some_text;
  entry_point = 0;
  functions =
      record {
        body_address = 0;
        param_start = 0;
        param_count = 0;
        frame_byte_size = 4;
        return_kind = ValueKind.void;
      }
      ∷ [];
  param_kinds = [];
  param_offsets = [];
  frame_size = 0;
  frame_byte_size = 0;
  const_byte_size = 2;
  const_data = 7 ∷ 9 ∷ [];
  data_byte_size = 1;
  data_data = 5 ∷ [];
  bss_size = 0;
  bss_byte_size = 3;
}

abbrev some_config : VmConfig
some_config = record {
  frame_capacity = 16;
  stack_capacity = 16;
  call_frame_capacity = 2;
  timer_capacity = 0;
}

-- The host takes one 32-bit argument from the stack.
abbrev answer_of : {A : Type 0} → Outcome A → VmStatus × Vm
answer_of (done a vm) = (VmStatus.ok, vm)
answer_of (fail status vm) = (status, vm)

abbrev taking_host : ExternDispatcher
taking_host import_id vm = answer_of (pop_uint 4 vm)

answer_of-IsSound :
    {A : Type 0} (shape : Shape) (o : Outcome A)
    → IsSound shape (final o)
    → IsSound shape (answer_of o).1
answer_of-IsSound shape (done a vm) h = h
answer_of-IsSound shape (fail status vm) h = h

answer_of-honest :
    {A : Type 0} (o : Outcome A) → Ends o → (answer_of o).0 ≡ VmStatus.ok → IsClean (answer_of o).1
answer_of-honest (done a vm) h e = h
answer_of-honest (fail status vm) h e = absurd (h.0 e)

taking_host-HostKeeps : (shape : Shape) → HostKeeps shape taking_host
taking_host-HostKeeps shape = record {
  host_sound = λ import_id vm h.
      answer_of-IsSound shape (pop_uint 4 vm) ((Keeps-pop_uint shape 4).sound vm h);
  host_honest =
      λ import_id vm h. answer_of-honest (pop_uint 4 vm) ((Keeps-pop_uint shape 4).honest vm h);
}

some_program-SizesAgree : SizesAgree some_program
some_program-SizesAgree = record {
  const_agrees = refl;
  data_agrees = refl;
  text_fits = omega arith;
}

abbrev new_vm : Vm
new_vm = new_vm_with_config some_config

abbrev same_clock : ℕ → ℕ
same_clock ms = ms

abbrev loaded_vm : Vm
loaded_vm = install some_program new_vm

run-IsSound_example :
    IsSound
      (loaded_shape some_program (new_shape some_config))
      (end_of (run some_floats same_clock (some taking_host) some_program 20 0 new_vm))
run-IsSound_example =
    run-IsSound some_config some_program some_floats same_clock (some taking_host) 20 0
      some_program-SizesAgree (taking_host-HostKeeps _)

run_loaded-EndsRecorded_example :
    EndsRecorded (run_loaded some_floats same_clock (some taking_host) 20 0 loaded_vm)
run_loaded-EndsRecorded_example =
    run_loaded-EndsRecorded (new_shape some_config) some_floats same_clock (some taking_host)
      (taking_host-HostKeeps _) 20 0 loaded_vm

room : length (stack new_vm).bytes + 2 * 4 ≤ (stack new_vm).capacity
unfolding new_vm_with_config unseeded_vm set_random_seed reset_random next_random new_program_memory
    new_memory_segment
room = omega arith

room_for_one : length (stack new_vm).bytes + 4 ≤ (stack new_vm).capacity
room_for_one = omega (arith, room)

execute_integer_arithmetic-operands_example :
    execute_integer_arithmetic (int 4) ArithmeticOp.sub (with_word 4 2 (with_word 4 40 new_vm))
    ≡ answered 4 new_vm (integer_arithmetic (int 4) ArithmeticOp.sub 40 2)
execute_integer_arithmetic-operands_example =
    execute_integer_arithmetic-operands (int 4) ArithmeticOp.sub 40 2 new_vm room (omega arith)
      (omega arith)

pop_and_compare-operands_example :
    pop_and_compare (integers (int 4)) 4 CompareOp.less (with_word 4 2 (with_word 4 40 new_vm))
    ≡ lift (compare_ordered (integers (int 4)) CompareOp.less 40 2) new_vm
pop_and_compare-operands_example =
    pop_and_compare-operands (integers (int 4)) 4 CompareOp.less 40 2 new_vm room (omega arith)
      (omega arith)

pop_uint-with_word_example : pop_uint 4 (with_word 4 300 new_vm) ≡ done (300 % 256 ^ 4) new_vm
pop_uint-with_word_example = pop_uint-with_word 4 300 new_vm room_for_one

load_program-cases_example :
    (SizesAgree some_program
      × ((vm' : Vm) × (load_program some_program new_vm ≡ done tt vm')
          × IsLoaded some_program new_vm vm'))
    ⊎ ((SizesAgree some_program → ⊥)
        × ((vm' : Vm) × (load_program some_program new_vm ≡ fail VmStatus.invalid_image vm')
            × IsRefused new_vm vm'))
load_program-cases_example = load_program-cases some_program new_vm

-- Code whose first instruction has been fetched.
abbrev fetched : Bytes
fetched = 0x01 ∷ 0x02 ∷ []

abbrev pushing : LinkedProgram
pushing = record some_program { text = append_immediate ValueKind.int32 77 fetched ++ fetched }

abbrev at_immediate : Vm
at_immediate = record new_vm { pc = 2 }

execute_push-append_immediate_example :
    execute_push pushing ValueKind.int32 at_immediate
    ≡ done tt (
        with_word
          (size ValueKind.int32)
          (77 % 256 ^ size ValueKind.int32)
          (at_pc (length fetched + size ValueKind.int32) at_immediate))
unfolding size
execute_push-append_immediate_example =
    execute_push-append_immediate pushing ValueKind.int32 77 fetched fetched at_immediate refl refl
      (λ e. absurd (omega arith)) (λ e. ground arith) (omega arith) (omega (arith, room_for_one))

-- The same with its OpPush, behind two bytes of other code.
abbrev whole_push : LinkedProgram
whole_push = record some_program { text = push_code ValueKind.int32 77 fetched ++ fetched }

step-push_code_example :
    step some_floats none whole_push at_immediate
    ≡ done false (
        with_word
          (size ValueKind.int32)
          (77 % 256 ^ size ValueKind.int32)
          (at_pc (length fetched + 2 + size ValueKind.int32) (noting at_immediate)))
unfolding size kind_number
step-push_code_example =
    step-push_code some_floats none whole_push ValueKind.int32 77 fetched fetched at_immediate refl
      refl (λ e. absurd (omega arith)) (λ e. ground arith) (omega arith) (omega arith)
      (omega (arith, room_for_one))

abbrev jumping : LinkedProgram
jumping = record some_program { text = append_uint32 1 fetched ++ fetched }

jumping_text : length jumping.text ≡ 8
unfolding append_uint32 put_uint
jumping_text = refl

jump-append_uint32_example :
    (fetch read_uint32_checked jumping >>= jump_to jumping) at_immediate
    ≡ done tt (at_pc 1 at_immediate)
jump-append_uint32_example =
    jump-append_uint32 jumping 1 fetched fetched at_immediate refl refl
      (omega (arith, jumping_text)) (omega (arith, jumping_text))

-- A function that takes no parameters and returns nothing, called from the counter 5.
abbrev some_function : ScriptFunctionDescriptor
some_function = record {
  body_address = 2;
  param_start = 0;
  param_count = 0;
  frame_byte_size = 4;
  return_kind = ValueKind.void;
}

-- It has been entered twice, and has run to the counter 20.
abbrev called : Vm
called = push_call_frame some_function 1 0 new_vm

abbrev called_twice : Vm
called_twice = record (push_call_frame some_function 5 4 called) { pc = 20 }

two_frames : called.call_frame_top < length called.call_frames
unfolding push_call_frame new_vm_with_config unseeded_vm set_random_seed reset_random next_random
two_frames = omega arith

return_from_function-push_call_frame_example :
    return_from_function called_twice
    ≡ done (called.call_frame_top == 0) (record called_twice {
      frame_top = 4;
      call_frame_top = called.call_frame_top;
      pc = if called.call_frame_top == 0 then called_twice.pc else 5;
    })
return_from_function-push_call_frame_example =
    return_from_function-push_call_frame some_function 5 4 called called_twice refl refl two_frames
      (inl refl)
