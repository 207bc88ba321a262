-- ===== src/Vm/State.antt =====
-- cova/vm.go: the state of the machine, the record of its last fault, and the actions on it.
use ccova.Prelude.{
  ℕ, ◌+◌, ◌*◌, ◌/◌, ◌%◌, ◌^◌, bit_xor, Bool, false, Option, none, List, ltb, ◌==◌, if◌then◌else◌,
  max, replicate,
}
use ccova.Prelude.Int.{ℤ, pos}
use ccova.Status.{VmStatus, is_ok, VmFaultInfo, no_vm_fault, minus_one, Result, value, error}
use ccova.Kind.{ValueKind}
use ccova.Segment.{MemorySegment}
use ccova.Memory.{ProgramMemory, update, new_program_memory}
use ccova.Address.{segment_stack}
use ccova.Program.{LinkedProgram}

pub record CallFrame : Type 0 where
  pub return_pc : ℕ
  pub local_base : ℕ
  pub return_kind : ValueKind

pub record TimerSlot : Type 0 where
  pub duration_ms : ℕ
  pub end_time_ms : ℕ
  pub active : Bool

-- The struct VM. The host's dispatcher is a parameter of the operations that call it (Vm.Run).
pub record Vm : Type 0 where
  pub memory : ProgramMemory
  pub pc : ℕ
  pub program : Option LinkedProgram
  pub call_frames : List CallFrame
  pub call_frame_top : ℕ
  pub frame_top : ℕ
  pub fault : VmFaultInfo
  pub instruction_pc : ℕ
  pub has_instruction_pc : Bool
  pub random_seed : ℕ
  pub random_s0 : ℕ
  pub random_s1 : ℕ
  pub current_time_ms : ℕ
  pub tick_time : ℕ
  pub has_current_time : Bool
  pub timers : List TimerSlot

-- What an operation leaves: a value with VMStatusOK, or another status; and the state either way.
pub data Outcome (A : Type 0) : Type 0 where
  done : A → Vm → Outcome A
  fail : VmStatus → Vm → Outcome A

abbrev pub final : {A : Type 0} → Outcome A → Vm
final (done a vm) = vm
final (fail status vm) = vm

abbrev pub M : Type 0 → Type 0
M A = Vm → Outcome A

unfoldable pub pure : {A : Type 0} → A → M A
pure a vm = done a vm

abbrev pub continue : {A B : Type 0} → Outcome A → (A → M B) → Outcome B
continue (done a vm) f = f a vm
continue (fail status vm) f = fail status vm

infixl 5 ◌>>=◌ ◌>>◌
unfoldable pub ◌>>=◌ : {A B : Type 0} → M A → (A → M B) → M B
◌>>=◌ m f vm = continue (m vm) f

abbrev pub ◌>>◌ : {A B : Type 0} → M A → M B → M B
m >> k = m >>= λ _. k

-- Return a status and change nothing.
unfoldable pub refuse : {A : Type 0} → VmStatus → M A
refuse status vm = fail status vm

unfoldable pub gets : {A : Type 0} → (Vm → A) → M A
gets f vm = done (f vm) vm

unfoldable pub modify : (Vm → Vm) → M (Unit {0})
modify f vm = done tt (f vm)

-- `clearFault`
unfoldable pub clear_fault : Vm → Vm
clear_fault vm = record vm { fault = no_vm_fault; instruction_pc = 0; has_instruction_pc = false }

-- `setFault`
unfoldable pub set_fault : VmStatus → ℤ → ℤ → ℤ → Vm → Vm
set_fault status target required available vm = record vm {
  fault = record {
    status = status;
    pc = if vm.has_instruction_pc then pos vm.instruction_pc else minus_one;
    target = target;
    required = required;
    available = available;
    host_status = VmStatus.ok;
  };
}

-- `return vm.setFault(…)`
unfoldable pub fault : {A : Type 0} → VmStatus → ℤ → ℤ → ℤ → M A
unfolding set_fault
fault status target required available vm =
    fail status (set_fault status target required available vm)

-- `recordStatus`: the first fault of a run is the one that stays.
unfoldable pub record_status : VmStatus → Vm → Vm
unfolding set_fault
record_status status vm =
    if is_ok status
    then vm
    else if is_ok vm.fault.status
    then set_fault status minus_one minus_one minus_one vm
    else vm

-- `if status := m(); status != VMStatusOK { return vm.recordStatus(status) }`
abbrev pub record_outcome : {A : Type 0} → Outcome A → Outcome A
record_outcome (done a vm) = done a vm
record_outcome (fail status vm) = fail status (record_status status vm)

unfoldable pub recorded : {A : Type 0} → M A → M A
unfolding record_status
recorded m vm = record_outcome (m vm)

-- A result of plain data as an action.
unfoldable pub lift : {A : Type 0} → Result A → M A
lift (value a) vm = done a vm
lift (error status) vm = fail status vm

abbrev pub stack : Vm → MemorySegment
stack vm = vm.memory segment_stack

abbrev pub set_segment : ℕ → MemorySegment → Vm → Vm
set_segment s segment vm = record vm { memory = update vm.memory s segment }

-- `nextRandom`: xorshift128+ on two words of 64 bits.
unfoldable pub next_random : Vm → ℕ × Vm
next_random vm =
    let s1 : ℕ = vm.random_s0 in
    let s0 : ℕ = vm.random_s1 in
    let mixed : ℕ = bit_xor s1 (s1 * 2 ^ 23 % 2 ^ 64) in
    let next : ℕ = bit_xor (bit_xor (bit_xor mixed s0) (mixed / 2 ^ 18)) (s0 / 2 ^ 5) in
    ((s0 + s1) % 2 ^ 64, record vm { random_s0 = s0; random_s1 = next })

-- `resetRandom`
unfoldable pub reset_random : Vm → Vm
unfolding next_random
reset_random vm =
    let seeded = record vm {
      random_s0 = (vm.random_seed + 6364136223846793) % 2 ^ 64;
      random_s1 = 6364136223846793005;
    } in
    (next_random (next_random seeded).1).1

-- `SetRandomSeed`
unfoldable pub set_random_seed : ℕ → Vm → Vm
unfolding reset_random
set_random_seed seed vm = reset_random (record vm { random_seed = seed })

pub record VmConfig : Type 0 where
  pub frame_capacity : ℕ
  pub stack_capacity : ℕ
  pub call_frame_capacity : ℕ
  pub timer_capacity : ℕ

abbrev pub default_timer_capacity : ℕ
default_timer_capacity = 8

abbrev pub max_timer_capacity : ℕ
max_timer_capacity = 256

-- The capacities that `NewVMWithConfig` uses.
abbrev pub timer_count : ℕ → ℕ
timer_count requested =
    if requested == 0
    then default_timer_capacity
    else if ltb max_timer_capacity requested
    then max_timer_capacity
    else requested

abbrev pub no_frame : CallFrame
no_frame = record { return_pc = 0; local_base = 0; return_kind = ValueKind.none }

abbrev no_timer : TimerSlot
no_timer = record { duration_ms = 0; end_time_ms = 0; active = false }

-- The struct that `NewVMWithConfig` makes before it seeds the random state.
unfoldable pub unseeded_vm : VmConfig → Vm
unseeded_vm config = record {
  memory = new_program_memory 0 0 0 0 config.frame_capacity config.stack_capacity;
  pc = 0;
  program = none;
  call_frames = replicate (max 1 config.call_frame_capacity) no_frame;
  call_frame_top = 0;
  frame_top = 0;
  fault = no_vm_fault;
  instruction_pc = 0;
  has_instruction_pc = false;
  random_seed = 0;
  random_s0 = 0;
  random_s1 = 0;
  current_time_ms = 0;
  tick_time = 0;
  has_current_time = false;
  timers = replicate (timer_count config.timer_capacity) no_timer;
}

-- `NewVMWithConfig`
unfoldable pub new_vm_with_config : VmConfig → Vm
new_vm_with_config config = set_random_seed 0x1234567890abcdef (unseeded_vm config)
