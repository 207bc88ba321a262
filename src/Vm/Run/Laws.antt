-- ===== src/Vm/Run/Laws.antt =====
-- What the loop of cova/vm.go makes of code that the append operations of cova/code-memory.go have
-- written: the encoder and the machine agree.
use ccova.Prelude.{
  ℕ, ◌+◌, ◌%◌, ◌^◌, ◌≤◌, ◌<◌, ◌≡◌, ◌≢◌, refl, ap, ◌∙◌, arith, ◌++◌, length, length-append, ◌==◌,
  leb, false,
}
use ccova.Status.{Result, value}
use ccova.Kind.{ValueKind, size}
use ccova.Segment.{Bytes, append_bits, put_uint}
use ccova.Segment.Laws.{length-put_uint}
use ccova.Code.{append_immediate, append_uint32, read_uint32_checked, read_immediate_checked}
use ccova.Code.Laws.{read_checked-append, read_immediate-append_immediate}
use ccova.Program.{LinkedProgram}
use ccova.Vm.State.{Vm, M, done, pure, ◌>>=◌, gets, modify, stack}
use ccova.Vm.Stack.{push_bits}
use ccova.Vm.Stack.Laws.{with_word, append-fits}
use ccova.Vm.Run.{fetch, execute_push, jump_to}

-- The machine with another counter.
abbrev pub at_pc : ℕ → Vm → Vm
at_pc pc vm = record vm { pc = pc }

pub fetch_then :
    {B : Type 0} (reader : Bytes → ℕ → Result (ℕ × ℕ)) (program : LinkedProgram) (vm : Vm)
    (v next : ℕ) (f : ℕ → M B)
    → reader program.text vm.pc ≡ value (v, next)
    → (fetch reader program >>= f) vm ≡ f v (at_pc next vm)
unfolding fetch ◌>>=◌ gets modify pure
fetch_then reader program vm v next f e = rw e refl

push_bits-with_word :
    (kind : ValueKind) (v : ℕ) (vm : Vm)
    → size kind ≢ 0
    → length (stack vm).bytes + size kind ≤ (stack vm).capacity
    → push_bits kind v vm ≡ done tt (with_word (size kind) v vm)
unfolding push_bits append_bits
push_bits-with_word kind v vm ne fits =
    let some_size : (size kind == 0) ≡ false = ground arith in
    rw (some_size, append-fits (size kind) v (stack vm) fits) refl

execute_push-kinds :
    (program : LinkedProgram) (kind : ValueKind)
    → size kind ≢ 0
    → kind ≢ ValueKind.address
    → execute_push program kind
      ≡ (fetch (λ text ip. read_immediate_checked text ip kind) program >>= push_bits kind)
unfolding execute_push size
execute_push-kinds program ValueKind.none ne other = absurd (ne refl)
execute_push-kinds program ValueKind.address ne other = absurd (other refl)
execute_push-kinds program _ ne other = refl

-- Where the counter stands at an immediate that the code memory's append operation wrote, of a
-- kind that has a size and is no address, the code up to and with the immediate has less than
-- 2 ^ 32 bytes, and the stack has room, OpPush pushes that immediate, cut to the width of its
-- kind, moves the counter past it, and changes nothing else.
pub execute_push-append_immediate :
    (program : LinkedProgram) (kind : ValueKind) (v : ℕ) (code rest : Bytes) (vm : Vm)
    → program.text ≡ append_immediate kind v code ++ rest
    → vm.pc ≡ length code
    → size kind ≢ 0
    → kind ≢ ValueKind.address
    → length code + size kind < 2 ^ 32
    → length (stack vm).bytes + size kind ≤ (stack vm).capacity
    → execute_push program kind vm
      ≡ done tt (with_word (size kind) (v % 256 ^ size kind) (at_pc (length code + size kind) vm))
execute_push-append_immediate program kind v code rest vm text pc ne other fits room =
    ap (λ (m : M (Unit {0})). m vm) (execute_push-kinds program kind ne other)
    ∙ fetch_then (λ text ip. read_immediate_checked text ip kind) program vm _ _ (push_bits kind)
        (rw (text, pc) (read_immediate-append_immediate kind v code rest ne fits))
    ∙ push_bits-with_word kind _ (at_pc (length code + size kind) vm) ne room

jump_to-inside :
    (program : LinkedProgram) (target : ℕ) (vm : Vm)
    → length program.text < 2 ^ 32
    → target < length program.text
    → jump_to program target vm ≡ done tt (at_pc target vm)
unfolding jump_to modify
jump_to-inside program target vm fits inside =
    let within : leb (length program.text % 2 ^ 32) target ≡ false = ground arith in rw within refl

-- Where the counter stands at a target that the code memory's append operation wrote, and the
-- target lies in a text of less than 2 ^ 32 bytes, OpJump sets the counter to it and changes
-- nothing else.
pub jump-append_uint32 :
    (program : LinkedProgram) (target : ℕ) (code rest : Bytes) (vm : Vm)
    → program.text ≡ append_uint32 target code ++ rest
    → vm.pc ≡ length code
    → length program.text < 2 ^ 32
    → target < length program.text
    → (fetch read_uint32_checked program >>= jump_to program) vm ≡ done tt (at_pc target vm)
unfolding append_uint32 read_uint32_checked
jump-append_uint32 program target code rest vm text pc fits inside =
    let total : length program.text ≡ length code + 4 + length rest = rw text (
      omega (
        arith,
        length-append (code ++ put_uint 4 target) rest,
        length-append code (put_uint 4 target),
        length-put_uint 4 target,
      )) in
    let whole : target % 256 ^ 4 ≡ target = omega arith in
    fetch_then read_uint32_checked program vm target (length code + 4) (jump_to program)
      (rw (text, pc) (rw whole at (read_checked-append 4 target code rest (omega (arith, total)))))
    ∙ jump_to-inside program target (at_pc (length code + 4) vm) fits inside
