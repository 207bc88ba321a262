-- ===== src/Vm/Keeps/Run.antt =====
-- The loop of `RunLoaded` (cova/vm.go) keeps the machine well formed, and a run that fails has
-- recorded why.
use ccova.Prelude.{ℕ, ◌≡◌, refl, inr, true, false, Option, none, some}
use ccova.Status.{VmStatus}
use ccova.Kind.{Opcode}
use ccova.Floats.{Floats}
use ccova.Code.{Instruction, opcode, read_instruction_checked}
use ccova.Program.{LinkedProgram}
use ccova.Vm.State.{Vm, M, final, pure, ◌>>=◌, ◌>>◌, modify, recorded}
use ccova.Vm.Run.{ExternDispatcher, fetch, host_answer, call_extern, execute, step}
use ccova.Vm.Keeps.{
  Shape, IsSound, IsClean, Ends, Recorded, Keeps, Keeps-bind, Keeps-pure, Keeps-recorded,
  Keeps-fault, Keeps-modify, record_outcome-Recorded, not_ok, IsSound-fault,
}
use ccova.Vm.Keeps.Moves.{stack_rules, Keeps-push_uint}
use ccova.Vm.Keeps.Compute.{
  Keeps-execute_arithmetic, Keeps-execute_typed_comparison, Keeps-execute_conversion,
}
use ccova.Vm.Keeps.BuiltIn.{Keeps-execute_built_in}
use ccova.Vm.Keeps.Enter.{Keeps-call_script_function}
use ccova.Vm.Keeps.Leave.{Keeps-return_from_function, IsSound-set_counters}
use ccova.Vm.Keeps.Instructions.{
  read_instruction-Honest, Keeps-fetch, Keeps-fetch_uint32, Keeps-execute_push, Keeps-execute_addr,
  Keeps-execute_offset, Keeps-execute_dereference, Keeps-execute_assign, Keeps-jump_to,
  Keeps-execute_jump_if_false,
}

-- What a run asks of the host's dispatcher: it leaves the machine well formed, and when it returns
-- VMStatusOK it has recorded no fault.
pub record HostKeeps (shape : Shape) (dispatcher : ExternDispatcher) : Type 0 where
  pub host_sound :
      (import_id : ℕ) (vm : Vm) → IsSound shape vm → IsSound shape (dispatcher import_id vm).1
  pub host_honest :
      (import_id : ℕ) (vm : Vm)
      → IsClean vm
      → (dispatcher import_id vm).0 ≡ VmStatus.ok
      → IsClean (dispatcher import_id vm).1

-- No dispatcher, or one that keeps the rules.
abbrev pub HostFits : Shape → Option ExternDispatcher → Type 0
HostFits shape none = Unit
HostFits shape (some dispatcher) = HostKeeps shape dispatcher

host_answer-IsSound :
    {shape : Shape} (import_id : ℕ) (status : VmStatus) (vm : Vm)
    → IsSound shape vm
    → IsSound shape (final (host_answer import_id (status, vm)))
unfolding host_answer
host_answer-IsSound import_id VmStatus.ok vm h = h
host_answer-IsSound import_id _ vm h = IsSound-fault _ h

host_answer-honest :
    (import_id : ℕ) (status : VmStatus) (vm : Vm)
    → (status ≡ VmStatus.ok → IsClean vm)
    → Ends (host_answer import_id (status, vm))
unfolding host_answer
host_answer-honest import_id VmStatus.ok vm h = h refl
host_answer-honest import_id _ vm h = (not_ok VmStatus.host_failure refl, inr refl)

module _ (shape : Shape) where
  Keeps-call_extern :
      (dispatcher : Option ExternDispatcher) (import_id : ℕ)
      → HostFits shape dispatcher
      → Keeps shape (call_extern dispatcher import_id)
  unfolding call_extern
  Keeps-call_extern none import_id h = search stack_rules
  Keeps-call_extern (some dispatcher) import_id h = record {
    sound = λ vm k. host_answer-IsSound import_id _ _ (h.host_sound import_id vm k);
    honest = λ vm k. host_answer-honest import_id _ _ (h.host_honest import_id vm k);
  }

  Keeps-goes_on : (m : M (Unit {0})) → Keeps shape m → Keeps shape (m >> pure false)
  Keeps-goes_on m k = Keeps-bind shape _ _ k (λ _. Keeps-pure shape false)

  module _ (floats : Floats) (dispatcher : Option ExternDispatcher) (program : LinkedProgram)
      (host : HostFits shape dispatcher) where
    Keeps-execute :
        (o : Opcode) (i : Instruction) → Keeps shape (execute floats dispatcher program o i)
    unfolding execute
    Keeps-execute Opcode.push i = Keeps-goes_on _ (Keeps-execute_push shape program _)
    Keeps-execute Opcode.arithmetic i = Keeps-goes_on _ (Keeps-execute_arithmetic shape floats _ _)
    Keeps-execute Opcode.convert i = Keeps-goes_on _ (Keeps-execute_conversion shape floats _ _)
    Keeps-execute Opcode.addr i = Keeps-goes_on _ (Keeps-execute_addr shape program _)
    Keeps-execute Opcode.offset i = Keeps-goes_on _ (Keeps-execute_offset shape program)
    Keeps-execute Opcode.dereference i = Keeps-goes_on _ (Keeps-execute_dereference shape program _)
    Keeps-execute Opcode.assign i = Keeps-goes_on _ (Keeps-execute_assign shape program _)
    Keeps-execute Opcode.compare i = Keeps-goes_on _ (
        Keeps-bind shape _ _ (Keeps-execute_typed_comparison shape floats _ _)
          (λ b. Keeps-push_uint shape 1 _))
    Keeps-execute Opcode.jump_if_false i =
        Keeps-goes_on _ (Keeps-execute_jump_if_false shape program)
    Keeps-execute Opcode.jump i =
        Keeps-goes_on _
          (Keeps-bind shape _ _ (Keeps-fetch_uint32 shape program) (Keeps-jump_to shape program))
    Keeps-execute Opcode.call i = Keeps-goes_on _ (
        Keeps-bind shape _ _ (Keeps-fetch_uint32 shape program)
          (Keeps-call_script_function shape program))
    Keeps-execute Opcode.call_extern i = Keeps-goes_on _ (
        Keeps-bind shape _ _ (Keeps-fetch_uint32 shape program)
          (λ id. Keeps-call_extern dispatcher id host))
    Keeps-execute Opcode.ret i = Keeps-return_from_function shape
    Keeps-execute Opcode.built_in i = Keeps-goes_on _ (Keeps-execute_built_in shape floats _)
    Keeps-execute (Opcode.out_of_range n) i = Keeps-fault shape VmStatus.invalid_opcode _ _ _ refl

    -- The body of the loop before its failure is recorded.
    Keeps-body : Keeps shape (
        modify (λ vm. record vm { instruction_pc = vm.pc; has_instruction_pc = true })
        >> (fetch read_instruction_checked program >>= λ i.
            execute floats dispatcher program (opcode i) i))
    Keeps-body =
        Keeps-bind shape _ _
          (Keeps-modify shape _ (λ vm h. IsSound-set_counters _ _ _ _ _ h.top_fits h.frame_fits h)
            (λ vm. refl))
          (λ _.
            Keeps-bind shape _ _
              (Keeps-fetch shape read_instruction_checked program read_instruction-Honest)
              (λ i. Keeps-execute (opcode i) i))

    pub Keeps-step : Keeps shape (step floats dispatcher program)
    unfolding step
    Keeps-step = Keeps-recorded shape _ Keeps-body

    pub step-Recorded : (vm : Vm) → IsClean vm → Recorded (step floats dispatcher program vm)
    unfolding step recorded
    step-Recorded vm h = record_outcome-Recorded _ (Keeps-body.honest vm h)
