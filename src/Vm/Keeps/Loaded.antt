-- ===== src/Vm/Keeps/Loaded.antt =====
-- What `LoadProgram` of cova/vm.go leaves of the machine.
use ccova.Prelude.{
  ℕ, ◌≡◌, ◌≢◌, refl, arith, ◌⊎◌, inl, inr, false, some, ◌==◌, ==_iff, Bool-cases, length, replicate,
}
use ccova.Prelude.Int.{ℤ}
use ccova.Status.{VmStatus, no_vm_fault, minus_one}
use ccova.Segment.{MemorySegment, new_memory_segment}
use ccova.Address.{
  segment_frame, segment_bss, segment_extern, segment_const, segment_data, segment_stack,
}
use ccova.Program.{LinkedProgram}
use ccova.Vm.State.{Vm, done, fail, set_fault, clear_fault}
use ccova.Vm.Load.{resized, install, load_program}
use ccova.Vm.Keeps.Whole.{SizesAgree, load_program-outcomes}

-- A segment of n bytes stays as it is, another is replaced by zeros.
abbrev pub IsResized : ℕ → MemorySegment → MemorySegment → Type 0
IsResized n before after =
    ((length before.bytes ≡ n) × (after ≡ before))
    ⊎ ((length before.bytes ≢ n) × (after.bytes ≡ replicate n 0) × (after.capacity ≡ n))

-- The machine but for its memory, its program and its fault.
abbrev pub IsOtherwise : Vm → Vm → Type 0
IsOtherwise before after =
    record after {
      memory = before.memory;
      program = before.program;
      fault = before.fault;
      instruction_pc = before.instruction_pc;
      has_instruction_pc = before.has_instruction_pc;
    }
    ≡ before

pub record IsLoaded (program : LinkedProgram) (before after : Vm) : Type 0 where
  pub loaded : after.program ≡ some program
  pub constants : (after.memory segment_const).bytes ≡ program.const_data
  pub bss : IsResized program.bss_byte_size (before.memory segment_bss) (after.memory segment_bss)
  pub initialised :
      IsResized program.data_byte_size (before.memory segment_data) (after.memory segment_data)
  pub frame : after.memory segment_frame ≡ before.memory segment_frame
  pub host : after.memory segment_extern ≡ before.memory segment_extern
  pub stack : after.memory segment_stack ≡ before.memory segment_stack
  pub no_fault : after.fault ≡ no_vm_fault
  pub no_instruction : after.has_instruction_pc ≡ false
  pub otherwise : IsOtherwise before after

pub record IsRefused (before after : Vm) : Type 0 where
  pub status : after.fault.status ≡ VmStatus.invalid_image
  pub nowhere : after.fault.pc ≡ minus_one
  pub no_instruction : after.has_instruction_pc ≡ false
  pub memory : after.memory ≡ before.memory
  pub program : after.program ≡ before.program
  pub otherwise : IsOtherwise before after

resized-IsResized : (n : ℕ) (segment : MemorySegment) → IsResized n segment (resized n segment)
unfolding resized new_memory_segment
resized-IsResized n segment = elim (Bool-cases (length segment.bytes == n)) [
  | inl e ↦ rw e (inl ((==_iff (length segment.bytes) n).0 e, refl))
  | inr e ↦ rw e (inr (ground (arith, e), refl, omega arith))
]

install-IsLoaded :
    (program : LinkedProgram) (vm : Vm) → IsLoaded program vm (install program (clear_fault vm))
unfolding install clear_fault
install-IsLoaded program vm = record {
  loaded = refl;
  constants = refl;
  bss = resized-IsResized program.bss_byte_size (vm.memory segment_bss);
  initialised = resized-IsResized program.data_byte_size (vm.memory segment_data);
  frame = refl;
  host = refl;
  stack = refl;
  no_fault = refl;
  no_instruction = refl;
  otherwise = refl;
}

set_fault-IsRefused :
    (t r a : ℤ) (vm : Vm) → IsRefused vm (set_fault VmStatus.invalid_image t r a (clear_fault vm))
unfolding set_fault clear_fault
set_fault-IsRefused t r a vm = record {
  status = refl;
  nowhere = refl;
  no_instruction = refl;
  memory = refl;
  program = refl;
  otherwise = refl;
}

-- `LoadProgram` returns VMStatusOK exactly when the sizes of the program's constants and data
-- agree and its text fits in 32 bits. The machine then has the program, CONST with its
-- constants, BSS and DATA of their sizes, which are as before where they had them and zeros
-- where not, and no fault; the other segments and the rest of the machine are as before.
-- Otherwise it returns VMStatusInvalidImage and records it without a counter; the memory, the
-- program and the rest of the machine are as before. In both cases the machine notes no
-- current instruction.
pub load_program-cases :
    (program : LinkedProgram) (vm : Vm)
    → (SizesAgree program
        × ((vm' : Vm) × (load_program program vm ≡ done tt vm') × IsLoaded program vm vm'))
      ⊎ ((SizesAgree program → ⊥)
          × ((vm' : Vm) × (load_program program vm ≡ fail VmStatus.invalid_image vm')
              × IsRefused vm vm'))
load_program-cases program vm = elim (load_program-outcomes program vm) [
  | inl loaded ↦
      inl (loaded.0, (install program (clear_fault vm), loaded.1, install-IsLoaded program vm))
  | inr refused ↦
      let (t, r, a, same) = refused.1 in
      inr (
        refused.0,
        (
          set_fault VmStatus.invalid_image t r a (clear_fault vm),
          same,
          set_fault-IsRefused t r a vm,
        ),
      )
]
