-- ===== src/Vm/Run/Step.antt =====
-- One turn of the loop of `RunLoaded` (cova/vm.go) at an OpPush that the append operations of
-- cova/code-memory.go have written.
use mathlib.Core.List.{append_assoc}
use ccova.Prelude.{
  ℕ, ◌+◌, ◌%◌, ◌^◌, ◌≤◌, ◌<◌, ◌≡◌, ◌≢◌, refl, ◌∙◌, subst, arith, true, false, Option, ◌++◌, length,
  length-append,
}
use ccova.Status.{value}
use ccova.Kind.{ValueKind, kind_number, size, Opcode, opcode_of, opcode_number, InstructionMode}
use ccova.Segment.{Bytes, put_uint}
use ccova.Segment.Laws.{length-put_uint}
use ccova.Floats.{Floats}
use ccova.Code.{
  Instruction, opcode, kind, make_instruction, append_instruction, append_immediate,
  read_instruction_checked,
}
use ccova.Code.Laws.{read_instruction-append_instruction}
use ccova.Code.General.{make_instruction_fields}
use ccova.Program.{LinkedProgram}
use ccova.Vm.State.{Vm, done, pure, ◌>>=◌, modify, recorded, stack}
use ccova.Vm.Stack.Laws.{with_word}
use ccova.Vm.Run.{ExternDispatcher, fetch, execute_push, execute, step}
use ccova.Vm.Run.Laws.{at_pc, fetch_then, execute_push-append_immediate}

-- An OpPush of a kind and its immediate, behind some code.
abbrev pub push_code : ValueKind → ℕ → Bytes → Bytes
push_code k v code =
    append_immediate k v
      (append_instruction (make_instruction Opcode.push k InstructionMode.none 0) code)

length-append_instruction :
    (i : Instruction) (code : Bytes) → length (append_instruction i code) ≡ length code + 2
unfolding append_instruction
length-append_instruction i code =
    length-append code (put_uint 2 i) ∙ omega (arith, length-put_uint 2 i)

-- What the machine has noted when it is about to execute an instruction.
abbrev pub noting : Vm → Vm
noting vm = record vm { instruction_pc = vm.pc; has_instruction_pc = true }

fetch_instruction :
    (program : LinkedProgram) (i : Instruction) (code rest : Bytes) (vm : Vm)
    → program.text ≡ append_instruction i code ++ rest
    → vm.pc ≡ length code
    → i < 2 ^ 16
    → length code + 2 < 2 ^ 32
    → read_instruction_checked program.text vm.pc ≡ value (i, length code + 2)
fetch_instruction program i code rest vm text pc hi fits =
    rw (text, pc) (read_instruction-append_instruction i code rest hi fits)

push_code-split :
    (k : ValueKind) (v : ℕ) (code rest : Bytes)
    → push_code k v code ++ rest
      ≡ append_instruction (make_instruction Opcode.push k InstructionMode.none 0) code
        ++ (put_uint (size k) v ++ rest)
unfolding append_immediate
push_code-split k v code rest =
    append_assoc (append_instruction (make_instruction Opcode.push k InstructionMode.none 0) code)
      (put_uint (size k) v) rest

push_number : opcode_number Opcode.push < 32
unfolding opcode_number
push_number = omega arith

push_opcode : opcode_of (opcode_number Opcode.push) ≡ Opcode.push
unfolding opcode_of opcode_number
push_opcode = refl

module _ (floats : Floats) (dispatcher : Option ExternDispatcher) where
  -- An instruction that decodes to OpPush of a kind.
  execute-push :
      (program : LinkedProgram) (i : Instruction) (k : ValueKind) (vm vm' : Vm)
      → opcode i ≡ Opcode.push
      → kind i ≡ k
      → execute_push program k vm ≡ done tt vm'
      → execute floats dispatcher program (opcode i) i vm ≡ done false vm'
  unfolding execute ◌>>=◌ pure
  execute-push program i k vm vm' op same pushed = rw (op, same, pushed) refl

  step-outcome :
      (program : LinkedProgram) (vm vm' : Vm)
      → (fetch read_instruction_checked program >>= λ i.
            execute floats dispatcher program (opcode i) i)
          (noting vm)
        ≡ done false vm'
      → step floats dispatcher program vm ≡ done false vm'
  unfolding step recorded ◌>>=◌ modify
  step-outcome program vm vm' e = rw e refl

  -- One turn of the loop at an OpPush and its immediate that the code memory's append
  -- operations wrote, of a kind below 16 that has a size and is no address, with room on the
  -- stack and the code below 2 ^ 32 bytes: it notes the counter of the instruction, pushes the
  -- immediate, cut to the width of its kind, moves the counter past both, and goes on; nothing
  -- else changes.
  pub step-push_code :
      (program : LinkedProgram) (k : ValueKind) (v : ℕ) (code rest : Bytes) (vm : Vm)
      → program.text ≡ push_code k v code ++ rest
      → vm.pc ≡ length code
      → size k ≢ 0
      → k ≢ ValueKind.address
      → kind_number k < 16
      → length code + 2 + size k < 2 ^ 32
      → length (stack vm).bytes + size k ≤ (stack vm).capacity
      → step floats dispatcher program vm
        ≡ done false
            (with_word (size k) (v % 256 ^ size k) (at_pc (length code + 2 + size k) (noting vm)))
  step-push_code program k v code rest vm text pc ne other hk fits room =
      let i = make_instruction Opcode.push k InstructionMode.none 0 in
      let fields =
        make_instruction_fields Opcode.push k InstructionMode.none 0 push_number hk (omega arith) in
      let two : length (append_instruction i code) ≡ length code + 2 =
        length-append_instruction i code in
      step-outcome program vm _ (
        fetch_then read_instruction_checked program (noting vm) i (length code + 2) _ (
          fetch_instruction program i code (put_uint (size k) v ++ rest) (noting vm)
            (text ∙ push_code-split k v code rest) pc fields.2 (omega arith))
        ∙ execute-push program i k (at_pc (length code + 2) (noting vm)) _ (fields.0 ∙ push_opcode)
            fields.1
            (subst
              (λ n.
                execute_push program k (at_pc n (noting vm))
                ≡ done tt (with_word (size k) (v % 256 ^ size k) (at_pc (n + size k) (noting vm))))
              two
              (execute_push-append_immediate program k v (append_instruction i code) rest
                (at_pc (length (append_instruction i code)) (noting vm)) text refl ne other
                (omega (arith, two)) room)))
