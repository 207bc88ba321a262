-- ===== src/Vm/Run.antt =====
-- cova/vm.go: loading a program, the reset before a run, one instruction, and the loop.
pub mod Laws
pub mod Step
use ccova.Prelude.{
  ℕ, zero, suc, ◌+◌, ◌-◌, ◌%◌, ◌^◌, Bool, true, false, ◌||◌, Option, none, some, ltb, leb, ◌==◌,
  if◌then◌else◌, length,
}
use ccova.Prelude.Int.{ℤ, pos, negsuc}
use ccova.Status.{VmStatus, Result, value, error, minus_one}
use ccova.Kind.{ValueKind, kind_number, Opcode}
use ccova.Segment.{Bytes}
use ccova.Address.{address_index_mask, segment_frame, make_address, address_segment, address_index}
use ccova.Word.{to_signed}
use ccova.Floats.{Floats}
use ccova.Code.{
  Instruction, opcode, kind, arithmetic_op, compare_op, convert_from_kind, address_segment_field,
  built_in_function, read_instruction_checked, read_uint32_checked, read_immediate_checked,
}
use ccova.Program.{LinkedProgram}
use ccova.Vm.State.{
  Vm, CallFrame, M, Outcome, done, fail, pure, ◌>>=◌, ◌>>◌, refuse, gets, modify, fault, recorded,
}
use ccova.Vm.Stack.{
  push_bits, push_bool, pop_bool, pop_uint, push_address, pop_address, push_from_memory,
  pop_to_memory,
}
use ccova.Vm.Compute.{execute_arithmetic, execute_typed_comparison, execute_conversion}
use ccova.Vm.Calls.{current_frame, call_script_function, return_from_function}
use ccova.Vm.BuiltIn.{execute_built_in}

-- The host's dispatcher: it may do anything to the machine, and returns a status.
abbrev pub ExternDispatcher : Type 0
ExternDispatcher = ℕ → Vm → VmStatus × Vm

-- A word of the text at the counter, which moves past it.
abbrev pub moved : Result (ℕ × ℕ) → M ℕ
moved (error status) = refuse status
moved (value (v, next)) = do modify (λ vm. record vm { pc = next }); pure v

unfoldable pub fetch : (Bytes → ℕ → Result (ℕ × ℕ)) → LinkedProgram → M ℕ
fetch reader program = do pc ← gets (λ vm. vm.pc); moved (reader program.text pc)

abbrev pub fetch_uint32 : LinkedProgram → M ℕ
fetch_uint32 = fetch read_uint32_checked

-- case OpPush
unfoldable pub execute_push : LinkedProgram → ValueKind → M (Unit {0})
execute_push program ValueKind.none =
    fault VmStatus.invalid_value_kind (pos (kind_number ValueKind.none)) minus_one minus_one
execute_push program ValueKind.address =
    fault VmStatus.invalid_value_kind (pos (kind_number ValueKind.address)) minus_one minus_one
execute_push program k = do
  immediate ← fetch (λ text ip. read_immediate_checked text ip k) program
  push_bits k immediate

-- The index of an OpAddr: relative to the frame in the frame segment.
unfoldable pub frame_offset : ℕ → CallFrame → M ℕ
frame_offset offset frame =
    if ltb address_index_mask frame.local_base || ltb (address_index_mask - frame.local_base) offset
    then fault VmStatus.invalid_address (pos offset) (pos address_index_mask)
        (pos (frame.local_base + offset))
    else pure ((offset + frame.local_base) % 2 ^ 32)

unfoldable pub address_offset : ℕ → ℕ → M ℕ
address_offset segment offset =
    if segment == segment_frame
    then (current_frame >>= frame_offset offset)
    else if ltb address_index_mask offset
    then fault VmStatus.invalid_address (pos offset) (pos address_index_mask) (pos offset)
    else pure offset

-- case OpAddr
unfoldable pub execute_addr : LinkedProgram → ℕ → M (Unit {0})
execute_addr program segment = do
  offset ← fetch_uint32 program
  index ← address_offset segment offset
  push_address (make_address segment index)

-- `int64(base.Index()) + int64(offset)`, with the offset an int32.
unfoldable pub moved_index : ℕ → ℤ → ℤ
moved_index index (pos n) = pos (index + n)
moved_index index (negsuc n) = if ltb n index then pos (index - n - 1) else negsuc (n - index)

unfoldable pub push_moved : ℕ → ℤ → ℤ → M (Unit {0})
push_moved base offset (negsuc n) =
    fault VmStatus.invalid_address offset (pos address_index_mask) (negsuc n)
push_moved base offset (pos n) =
    if ltb address_index_mask n
    then fault VmStatus.invalid_address offset (pos address_index_mask) (pos n)
    else push_address (make_address (address_segment base) n)

-- case OpOffset
unfoldable pub execute_offset : M (Unit {0})
execute_offset = do
  bits ← pop_uint 4
  base ← pop_address
  push_moved base (to_signed 32 bits) (moved_index (address_index base) (to_signed 32 bits))

-- case OpDereference
unfoldable pub execute_dereference : ValueKind → M (Unit {0})
execute_dereference ValueKind.none =
    fault VmStatus.invalid_value_kind (pos (kind_number ValueKind.none)) minus_one minus_one
execute_dereference k = do address ← pop_address; push_from_memory address k

-- A failed store is recorded with its address, over what the pop has recorded.
unfoldable pub store_fault : ℕ → Outcome (Unit {0}) → Outcome (Unit {0})
store_fault address (done a vm) = done a vm
store_fault address (fail status vm) = fault status (pos address) minus_one minus_one vm

abbrev pub store_at : ℕ → ValueKind → M (Unit {0})
store_at address k vm = store_fault address (pop_to_memory address k vm)

-- case OpAssign
unfoldable pub execute_assign : ValueKind → M (Unit {0})
execute_assign ValueKind.none =
    fault VmStatus.invalid_value_kind (pos (kind_number ValueKind.none)) minus_one minus_one
execute_assign k = do address ← pop_address; store_at address k

-- A jump target must lie in the text.
unfoldable pub jump_to : LinkedProgram → ℕ → M (Unit {0})
jump_to program target =
    if leb (length program.text % 2 ^ 32) target
    then fault VmStatus.invalid_target (pos target) (pos (length program.text))
        (pos (length program.text))
    else modify (λ vm. record vm { pc = target })

-- case OpJumpIfFalse
unfoldable pub execute_jump_if_false : LinkedProgram → M (Unit {0})
execute_jump_if_false program = do
  target ← fetch_uint32 program
  condition ← pop_bool
  if condition then pure tt else jump_to program target

-- `callExtern`
unfoldable pub host_answer : ℕ → VmStatus × Vm → Outcome (Unit {0})
host_answer import_id (VmStatus.ok, vm) = done tt vm
host_answer import_id (status, vm) = fail VmStatus.host_failure (record vm {
  fault = record {
    status = VmStatus.host_failure;
    pc = pos vm.instruction_pc;
    target = pos import_id;
    required = minus_one;
    available = minus_one;
    host_status = status;
  };
})

unfoldable pub call_extern : Option ExternDispatcher → ℕ → M (Unit {0})
call_extern none import_id = fault VmStatus.missing_extern (pos import_id) minus_one minus_one
call_extern (some dispatcher) import_id = λ vm. host_answer import_id (dispatcher import_id vm)

-- How a run of bounded length ends.
pub data Run : Type 0 where
  stopped : Vm → Run
  faulted : VmStatus → Vm → Run
  out_of_fuel : Vm → Run

-- What the loop does after an instruction.
abbrev pub after_step : (Vm → Run) → Outcome Bool → Run
after_step rest (fail status vm) = faulted status vm
after_step rest (done true vm) = stopped vm
after_step rest (done false vm) = rest vm

module _ (floats : Floats) (dispatcher : Option ExternDispatcher) (program : LinkedProgram) where
  -- `true` says that the run is over.
  abbrev pub goes_on : M (Unit {0}) → M Bool
  goes_on m = m >> pure false

  -- The switch of `RunLoaded`.
  unfoldable pub execute : Opcode → Instruction → M Bool
  execute Opcode.push i = goes_on (execute_push program (kind i))
  execute Opcode.arithmetic i = goes_on (execute_arithmetic floats (kind i) (arithmetic_op i))
  execute Opcode.convert i = goes_on (execute_conversion floats (convert_from_kind i) (kind i))
  execute Opcode.addr i = goes_on (execute_addr program (address_segment_field i))
  execute Opcode.offset i = goes_on execute_offset
  execute Opcode.dereference i = goes_on (execute_dereference (kind i))
  execute Opcode.assign i = goes_on (execute_assign (kind i))
  execute Opcode.compare i =
      goes_on (execute_typed_comparison floats (kind i) (compare_op i) >>= push_bool)
  execute Opcode.jump_if_false i = goes_on (execute_jump_if_false program)
  execute Opcode.jump i = goes_on (fetch_uint32 program >>= jump_to program)
  execute Opcode.call i = goes_on (fetch_uint32 program >>= call_script_function program)
  execute Opcode.call_extern i = goes_on (fetch_uint32 program >>= call_extern dispatcher)
  execute Opcode.ret i = return_from_function
  execute Opcode.built_in i = goes_on (execute_built_in floats (built_in_function i))
  execute (Opcode.out_of_range n) i = fault VmStatus.invalid_opcode (pos n) minus_one minus_one

  -- The body of the loop. Each failure of it is recorded, where it is not yet.
  unfoldable pub step : M Bool
  step = recorded (do
    modify (λ vm. record vm { instruction_pc = vm.pc; has_instruction_pc = true })
    instruction ← fetch read_instruction_checked program
    execute (opcode instruction) instruction)

  -- The loop of `RunLoaded`, for at most `fuel` instructions: a script may loop for ever.
  unfoldable pub run_loop : ℕ → Vm → Run
  run_loop zero vm = out_of_fuel vm
  run_loop (suc fuel) vm =
      if ltb vm.pc (length program.text % 2 ^ 32)
      then after_step (run_loop fuel) (step vm)
      else stopped vm
