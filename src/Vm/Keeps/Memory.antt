-- ===== src/Vm/Keeps/Memory.antt =====
-- The moves between the stack and memory keep the machine well formed (`pushFromMemory` and
-- `popToMemory` of cova/vm.go).
use ccova.Prelude.{ℕ, ◌≡◌, ◌≢◌, refl, inl, arith, ◌==◌}
use ccova.Status.{VmStatus, Result, value, error}
use ccova.Kind.{ValueKind, size}
use ccova.Segment.{MemorySegment, read_uint, write_uint}
use ccova.Segment.Laws.{length-write_uint, capacity-write_uint}
use ccova.Address.{segment_const, address_segment, address_index}
use ccova.Memory.{segment_for_address}
use ccova.Vm.State.{Vm, M, final, ◌>>=◌, gets, modify, lift, set_segment}
use ccova.Vm.Stack.{load, push_from, push_from_memory, store, pop_to_segment, pop_to_memory}
use ccova.Vm.Keeps.{
  Shape, IsSound, IsClean, Ends, Keeps, Keeps-refuse, Keeps-gets, Keeps-fault, Keeps-if, Keeps-bind,
  Keeps-bind_lift, Keeps-bind_gets, Keeps-lift, Keeps-recorded, is_ok-false,
}
use ccova.Vm.Keeps.Moves.{stack_rules, IsSound-set_segment, Keeps-push_uint, Keeps-pop_uint}

read_uint-ne_ok :
    (n offset : ℕ) (segment : MemorySegment) (status : VmStatus)
    → read_uint n offset segment ≡ error status
    → status ≢ VmStatus.ok
unfolding read_uint
read_uint-ne_ok n offset segment status h e = ground arith

write_uint-ne_ok :
    (n offset v : ℕ) (segment : MemorySegment) (status : VmStatus)
    → write_uint n offset v segment ≡ error status
    → status ≢ VmStatus.ok
unfolding write_uint
write_uint-ne_ok n offset v segment status h e = ground arith

segment_for_address-ne_ok :
    (address : ℕ) (status : VmStatus)
    → segment_for_address address ≡ error status
    → status ≢ VmStatus.ok
unfolding segment_for_address
segment_for_address-ne_ok address status h e = ground arith

segment_for_address-is :
    (address : ℕ) {s : ℕ} → segment_for_address address ≡ value s → s ≡ address_segment address
unfolding segment_for_address
segment_for_address-is address h = ground arith

-- What a store makes of the answer of `WriteUintN`.
stored : ℕ → Result MemorySegment → M (Unit {0})
stored s r = do written ← lift r; modify (set_segment s written)

stored-IsSound :
    {shape : Shape} (s n offset v : ℕ) (vm : Vm) (r : Result MemorySegment)
    → write_uint n offset v (vm.memory s) ≡ r
    → s ≢ segment_const
    → IsSound shape vm
    → IsSound shape (final (stored s r vm))
unfolding stored ◌>>=◌ lift modify
stored-IsSound s n offset v vm (value written) e ne h =
    IsSound-set_segment s written ne (length-write_uint n offset v (vm.memory s) e)
      (capacity-write_uint n offset v (vm.memory s) e) h
stored-IsSound s n offset v vm (error status) e ne h = h

stored-honest :
    (s n offset v : ℕ) (vm : Vm) (r : Result MemorySegment)
    → write_uint n offset v (vm.memory s) ≡ r
    → IsClean vm
    → Ends (stored s r vm)
unfolding stored ◌>>=◌ lift modify
stored-honest s n offset v vm (value written) e h = h
stored-honest s n offset v vm (error status) e h =
    (write_uint-ne_ok n offset v (vm.memory s) status e, inl h)

module _ (shape : Shape) where
  Keeps-load : (n s offset : ℕ) → Keeps shape (load n s offset)
  Keeps-load n s offset = Keeps-bind_gets shape _ _ (λ vm.
      Keeps-lift shape (read_uint n offset (vm.memory s)) (read_uint-ne_ok n offset (vm.memory s)))

  Keeps-push_from :
      (n address : ℕ) (r : Result ℕ)
      → segment_for_address address ≡ r
      → Keeps shape (push_from n address r)
  unfolding push_from
  Keeps-push_from n address (error status) e =
      Keeps-fault shape status _ _ _
        (is_ok-false status (segment_for_address-ne_ok address status e))
  Keeps-push_from n address (value s) e = search (stack_rules, Keeps-load)

  pub Keeps-push_from_memory :
      (address : ℕ) (kind : ValueKind) → Keeps shape (push_from_memory address kind)
  unfolding push_from_memory
  Keeps-push_from_memory address kind =
      Keeps-recorded shape _
        (Keeps-push_from (size kind) address (segment_for_address address) refl)

  Keeps-store : (n s offset v : ℕ) → s ≢ segment_const → Keeps shape (store n s offset v)
  unfolding store ◌>>=◌ gets stored
  Keeps-store n s offset v ne = record {
    sound = λ vm h. stored-IsSound s n offset v vm _ refl ne h;
    honest = λ vm h. stored-honest s n offset v vm _ refl h;
  }

  Keeps-pop_to_segment :
      (n s offset room : ℕ) → s ≢ segment_const → Keeps shape (pop_to_segment n s offset room)
  unfolding pop_to_segment
  Keeps-pop_to_segment n s offset room ne = search (stack_rules, Keeps-store)

  pub Keeps-pop_to_memory :
      (address : ℕ) (kind : ValueKind) → Keeps shape (pop_to_memory address kind)
  unfolding pop_to_memory
  Keeps-pop_to_memory address kind =
      Keeps-if shape (address_segment address == segment_const) _ _ (λ _. Keeps-refuse shape _ refl)
        (λ other.
          Keeps-bind_lift shape (segment_for_address address) _ (segment_for_address-ne_ok address)
            (λ s e. Keeps-bind shape _ _ (Keeps-gets shape _) (λ room.
              Keeps-pop_to_segment (size kind) s (address_index address) room
                (ground (arith, segment_for_address-is address e)))))

pub ruleset moves_rules = (stack_rules, Keeps-push_from_memory, Keeps-pop_to_memory)
