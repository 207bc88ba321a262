-- ===== src/Vm/Stack.antt =====
-- cova/vm.go: pushes and pops of words on the operand stack, and moves between the stack and
-- memory.
pub mod Laws
use ccova.Prelude.{ℕ, ◌+◌, Bool, not, ltb, ◌==◌, if◌then◌else◌, length}
use ccova.Prelude.Int.{pos}
use ccova.Status.{VmStatus, Result, value, error, minus_one}
use ccova.Kind.{ValueKind, size}
use ccova.Segment.{
  MemorySegment, append_uint, truncate_uint, append_bits, truncate_bits, read_uint, write_uint,
}
use ccova.Address.{segment_stack, segment_const, address_segment, address_index}
use ccova.Memory.{segment_for_address}
use ccova.Vm.State.{
  Vm, M, Outcome, done, fail, pure, ◌>>=◌, refuse, gets, modify, fault, record_status, recorded,
  lift, stack, set_segment,
}

-- `recordStackPush`: an overflow is recorded with the room that was needed.
abbrev pub pushed : ℕ → Vm → Result MemorySegment → Outcome (Unit {0})
pushed n vm (value grown) = done tt (set_segment segment_stack grown vm)
pushed n vm (error VmStatus.stack_overflow) =
    fault VmStatus.stack_overflow minus_one (pos (length (stack vm).bytes + n))
      (pos (stack vm).capacity) vm
pushed n vm (error status) = fail status (record_status status vm)

-- `pushUint8` and its wider forms; `PushBool`, `PushInt32` and the like give them the pattern.
unfoldable pub push_uint : ℕ → ℕ → M (Unit {0})
unfolding fault record_status
push_uint n v vm = pushed n vm (append_uint n v (stack vm))

-- `pushKind`
unfoldable pub push_bits : ValueKind → ℕ → M (Unit {0})
unfolding fault record_status
push_bits kind v vm = pushed (size kind) vm (append_bits kind v (stack vm))

abbrev pub popped : Vm → Result (ℕ × MemorySegment) → Outcome ℕ
popped vm (value (v, rest)) = done v (set_segment segment_stack rest vm)
popped vm (error status) = fail status (record_status status vm)

-- `popUint8` and its wider forms.
unfoldable pub pop_uint : ℕ → M ℕ
unfolding record_status
pop_uint n vm = popped vm (truncate_uint n (stack vm))

-- `popKind`
unfoldable pub pop_bits : ValueKind → M ℕ
unfolding record_status
pop_bits kind vm = popped vm (truncate_bits kind (stack vm))

abbrev pub bool_bit : Bool → ℕ
bool_bit b = if b then 1 else 0

abbrev pub push_bool : Bool → M (Unit {0})
push_bool b = push_uint 1 (bool_bit b)

abbrev pub pop_bool : M Bool
pop_bool = do v ← pop_uint 1; pure (not (v == 0))

abbrev pub push_address : ℕ → M (Unit {0})
push_address = push_uint 4

abbrev pub pop_address : M ℕ
pop_address = pop_uint 4

-- A word read from the segment that `s` names.
abbrev pub load : ℕ → ℕ → ℕ → M ℕ
load n s offset = do r ← gets (λ vm. read_uint n offset (vm.memory s)); lift r

-- `pushFromMemory`, behind the choice of the segment.
unfoldable pub push_from : ℕ → ℕ → Result ℕ → M (Unit {0})
push_from n address (error status) = fault status (pos address) minus_one minus_one
push_from n address (value s) =
    if n == 0
    then refuse VmStatus.invalid_value_kind
    else (load n s (address_index address) >>= push_uint n)

unfoldable pub push_from_memory : ℕ → ValueKind → M (Unit {0})
unfolding push_from
push_from_memory address kind =
    recorded (push_from (size kind) address (segment_for_address address))

-- `popToMemory`: the target is checked before the value is popped. The word is written to the
-- segment as it is after the pop, which matters where the target is the stack itself.
unfoldable pub store : ℕ → ℕ → ℕ → ℕ → M (Unit {0})
store n s offset v = do
  r ← gets (λ vm. write_uint n offset v (vm.memory s))
  written ← lift r
  modify (set_segment s written)

-- The part behind the choice of the segment.
unfoldable pub pop_to_segment : ℕ → ℕ → ℕ → ℕ → M (Unit {0})
pop_to_segment n s offset room =
    if n == 0
    then refuse VmStatus.invalid_value_kind
    else if ltb room (offset + n)
    then refuse VmStatus.invalid_address
    else do v ← pop_uint n; store n s offset v

unfoldable pub pop_to_memory : ℕ → ValueKind → M (Unit {0})
pop_to_memory address kind =
    if address_segment address == segment_const then refuse VmStatus.read_only_memory else do
      s ← lift (segment_for_address address)
      room ← gets (λ vm. length (vm.memory s).bytes)
      pop_to_segment (size kind) s (address_index address) room
