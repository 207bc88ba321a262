-- ===== src/Vm/Keeps/Instructions.antt =====
-- The instructions that move values and the counter keep the machine well formed (the cases of
-- `RunLoaded` in cova/vm.go).
use ccova.Prelude.{ℕ, ◌≢◌, refl, inr, Bool, true, false, ltb, ◌==◌, ◌+◌, if◌then◌else◌, length}
use ccova.Status.{VmStatus, Result, value, error}
use ccova.Kind.{ValueKind, size}
use ccova.Segment.{Bytes}
use ccova.Code.{read_checked, read_instruction_checked, read_uint32_checked, read_immediate_checked}
use ccova.Program.{LinkedProgram}
use ccova.Vm.State.{CallFrame, Outcome, done, fail, final, ◌>>=◌, fault, set_fault}
use ccova.Prelude.Int.{ℤ, pos, negsuc}
use ccova.Vm.Stack.{push_bits}
use ccova.Vm.Run.{
  moved, fetch, execute_push, frame_offset, address_offset, execute_addr, push_moved,
  execute_offset, execute_dereference, store_fault, store_at, execute_assign, jump_to,
  execute_jump_if_false,
}
use ccova.Vm.Keeps.{
  Shape, IsSound, Ends, Keeps, Keeps-bind, Keeps-gets, Keeps-pure, Keeps-refuse, is_ok-false,
  not_ok, IsSound-set_fault,
}
use ccova.Vm.Keeps.Moves.{stack_rules, Keeps-push_bits}
use ccova.Vm.Keeps.Memory.{moves_rules, Keeps-pop_to_memory}
use ccova.Vm.Keeps.Leave.{Keeps-current_frame, Keeps-set_pc}

-- What the readers of the text answer when they fail.
abbrev pub Honest : {A : Type 0} → Result A → Type 0
Honest (value a) = Unit
Honest (error status) = status ≢ VmStatus.ok

-- A test before a read.
if-Honest :
    {A : Type 0} (b : Bool) (status : VmStatus) (r : Result A)
    → status ≢ VmStatus.ok
    → Honest r
    → Honest (if b then error status else r)
if-Honest true status r ne h = ne
if-Honest false status r ne h = h

read_checked-Honest : (n : ℕ) (text : Bytes) (ip : ℕ) → Honest (read_checked n text ip)
read_checked-Honest n text ip =
    if-Honest (ltb (length text) (ip + n)) VmStatus.malformed_bytecode _
      (not_ok VmStatus.malformed_bytecode refl) tt

pub read_instruction-Honest : (text : Bytes) (ip : ℕ) → Honest (read_instruction_checked text ip)
unfolding read_instruction_checked
read_instruction-Honest = read_checked-Honest 2

read_uint32-Honest : (text : Bytes) (ip : ℕ) → Honest (read_uint32_checked text ip)
unfolding read_uint32_checked
read_uint32-Honest = read_checked-Honest 4

read_immediate-Honest :
    (kind : ValueKind) (text : Bytes) (ip : ℕ) → Honest (read_immediate_checked text ip kind)
unfolding read_immediate_checked
read_immediate-Honest kind text ip =
    if-Honest (size kind == 0) VmStatus.invalid_value_kind _
      (not_ok VmStatus.invalid_value_kind refl) (read_checked-Honest (size kind) text ip)

store_fault-IsSound :
    {shape : Shape} (address : ℕ) (o : Outcome (Unit {0}))
    → IsSound shape (final o)
    → IsSound shape (final (store_fault address o))
unfolding store_fault fault
store_fault-IsSound address (done a vm) h = h
store_fault-IsSound address (fail status vm) h = IsSound-set_fault status _ _ _ h

store_fault-honest : (address : ℕ) (o : Outcome (Unit {0})) → Ends o → Ends (store_fault address o)
unfolding store_fault fault set_fault
store_fault-honest address (done a vm) h = h
store_fault-honest address (fail status vm) h = (h.0, inr refl)

module _ (shape : Shape) where
  Keeps-moved : (r : Result (ℕ × ℕ)) → Honest r → Keeps shape (moved r)
  Keeps-moved (value (v, next)) h =
      Keeps-bind shape _ _ (Keeps-set_pc shape next) (λ _. Keeps-pure shape v)
  Keeps-moved (error status) h = Keeps-refuse shape status (is_ok-false status h)

  pub Keeps-fetch :
      (reader : Bytes → ℕ → Result (ℕ × ℕ)) (program : LinkedProgram)
      → ((text : Bytes) (ip : ℕ) → Honest (reader text ip))
      → Keeps shape (fetch reader program)
  unfolding fetch
  Keeps-fetch reader program h =
      Keeps-bind shape _ _ (Keeps-gets shape _)
        (λ pc. Keeps-moved (reader program.text pc) (h program.text pc))

  module _ (program : LinkedProgram) where
    pub Keeps-fetch_uint32 : Keeps shape (fetch read_uint32_checked program)
    Keeps-fetch_uint32 = Keeps-fetch read_uint32_checked program read_uint32-Honest

    Keeps-fetch_and_push :
        (kind : ValueKind)
        → Keeps shape (
            fetch (λ text ip. read_immediate_checked text ip kind) program >>= λ v.
            push_bits kind v)
    Keeps-fetch_and_push kind =
        Keeps-bind shape _ _ (Keeps-fetch _ program (read_immediate-Honest kind))
          (λ v. Keeps-push_bits shape kind v)

    pub Keeps-execute_push : (kind : ValueKind) → Keeps shape (execute_push program kind)
    unfolding execute_push
    Keeps-execute_push ValueKind.none = search stack_rules
    Keeps-execute_push ValueKind.address = search stack_rules
    Keeps-execute_push kind = Keeps-fetch_and_push kind

    Keeps-frame_offset : (offset : ℕ) (frame : CallFrame) → Keeps shape (frame_offset offset frame)
    unfolding frame_offset
    Keeps-frame_offset offset frame = search stack_rules

    Keeps-address_offset : (s offset : ℕ) → Keeps shape (address_offset s offset)
    unfolding address_offset
    Keeps-address_offset s offset =
        search (stack_rules, Keeps-current_frame, Keeps-frame_offset) depth 9

    pub Keeps-execute_addr : (s : ℕ) → Keeps shape (execute_addr program s)
    unfolding execute_addr
    Keeps-execute_addr s = search (stack_rules, Keeps-fetch_uint32, Keeps-address_offset)

    Keeps-push_moved : (base : ℕ) (offset index : ℤ) → Keeps shape (push_moved base offset index)
    unfolding push_moved
    Keeps-push_moved base offset (pos n) = search (stack_rules)
    Keeps-push_moved base offset (negsuc n) = search stack_rules

    pub Keeps-execute_offset : Keeps shape execute_offset
    unfolding execute_offset
    Keeps-execute_offset = search (stack_rules, Keeps-push_moved)

    pub Keeps-execute_dereference : (kind : ValueKind) → Keeps shape (execute_dereference kind)
    unfolding execute_dereference
    Keeps-execute_dereference ValueKind.none = search stack_rules
    Keeps-execute_dereference _ = search (moves_rules)

    Keeps-store_at : (address : ℕ) (kind : ValueKind) → Keeps shape (store_at address kind)
    Keeps-store_at address kind = record {
      sound = λ vm h.
          store_fault-IsSound address _ ((Keeps-pop_to_memory shape address kind).sound vm h);
      honest = λ vm h.
          store_fault-honest address _ ((Keeps-pop_to_memory shape address kind).honest vm h);
    }

    pub Keeps-execute_assign : (kind : ValueKind) → Keeps shape (execute_assign kind)
    unfolding execute_assign
    Keeps-execute_assign ValueKind.none = search stack_rules
    Keeps-execute_assign _ = search (stack_rules, Keeps-store_at)

    pub Keeps-jump_to : (target : ℕ) → Keeps shape (jump_to program target)
    unfolding jump_to
    Keeps-jump_to target = search (stack_rules, Keeps-set_pc)

    pub Keeps-execute_jump_if_false : Keeps shape (execute_jump_if_false program)
    unfolding execute_jump_if_false
    Keeps-execute_jump_if_false = search (stack_rules, Keeps-fetch_uint32, Keeps-jump_to)
