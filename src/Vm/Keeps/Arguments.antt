-- ===== src/Vm/Keeps/Arguments.antt =====
-- The move of the arguments into the callee's frame keeps the machine well formed (the loops of
-- `enterScriptFunction` in cova/vm.go).
use ccova.Prelude.{
  ℕ, zero, suc, ◌+◌, ◌-◌, ◌≤◌, ◌≡◌, ◌≢◌, refl, ◌∙◌, inl, arith, length, drop, length-take,
  length-drop,
}
use ccova.Status.{VmStatus, Result, value, error}
use ccova.Kind.{ValueKind}
use ccova.Segment.{MemorySegment, truncate_to}
use ccova.Segment.Windows.{length-overwrite}
use ccova.Address.{segment_frame, segment_stack}
use ccova.Program.{LinkedProgram}
use ccova.Vm.State.{
  Vm, M, Outcome, done, fail, final, pure, continue, ◌>>=◌, gets, modify, lift, stack, set_segment,
}
use ccova.Vm.Calls.{check_param, argument_bytes, pop_argument, pop_arguments}
use ccova.Vm.Keeps.{Shape, IsSound, IsClean, Ends, Keeps, Keeps-bind}
use ccova.Vm.Keeps.Moves.{stack_rules, IsSound-set_segment, IsSound-set_stack}

-- `TruncateTo` shortens the source and keeps the length of the destination.
truncate_to-sizes :
    (destination : MemorySegment) (offset n : ℕ) (source : MemorySegment)
    {source' destination' : MemorySegment}
    → truncate_to destination offset n source ≡ value (source', destination')
    → (source'.capacity ≡ source.capacity)
      × (length source'.bytes ≤ length source.bytes)
      × (destination'.capacity ≡ destination.capacity)
      × (length destination'.bytes ≡ length destination.bytes)
unfolding truncate_to
truncate_to-sizes destination offset n source {source'} {destination'} h = ground (
  arith,
  length-take (length source.bytes - n) source.bytes,
  length-drop (length source.bytes - n) source.bytes,
  length-overwrite offset (drop (length source.bytes - n) source.bytes) destination.bytes,
)

truncate_to-ne_ok :
    (destination : MemorySegment) (offset n : ℕ) (source : MemorySegment) (status : VmStatus)
    → truncate_to destination offset n source ≡ error status
    → status ≢ VmStatus.ok
unfolding truncate_to
truncate_to-ne_ok destination offset n source status h e = ground arith

-- What the move of one argument makes of the answer of `TruncateTo`.
moved_argument : Result (MemorySegment × MemorySegment) → M (Unit {0})
moved_argument r = do
  pair ← lift r
  modify (λ vm. set_segment segment_frame pair.1 (set_segment segment_stack pair.0 vm))

module _ {shape : Shape} (offset n : ℕ) (vm : Vm) where
  moved_argument-IsSound :
      (r : Result (MemorySegment × MemorySegment))
      → truncate_to (vm.memory segment_frame) offset n (stack vm) ≡ r
      → IsSound shape vm
      → IsSound shape (final (moved_argument r vm))
  unfolding moved_argument ◌>>=◌ lift modify
  moved_argument-IsSound (value (rest, frame)) e h =
      let (cap, shorter, cap', same) =
        truncate_to-sizes (vm.memory segment_frame) offset n (stack vm) e in
      IsSound-set_segment segment_frame frame (λ x. absurd (omega arith)) same cap'
        (IsSound-set_stack rest cap (omega (arith, h.stack_fits, h.capacity_same)) h)
  moved_argument-IsSound (error status) e h = h

moved_argument-honest :
    (offset n : ℕ) (vm : Vm) (r : Result (MemorySegment × MemorySegment))
    → truncate_to (vm.memory segment_frame) offset n (stack vm) ≡ r
    → IsClean vm
    → Ends (moved_argument r vm)
unfolding moved_argument ◌>>=◌ lift modify
moved_argument-honest offset n vm (value (rest, frame)) e h = h
moved_argument-honest offset n vm (error status) e h =
    (truncate_to-ne_ok (vm.memory segment_frame) offset n (stack vm) status e, inl h)

moved_argument-top :
    (vm : Vm) (r : Result (MemorySegment × MemorySegment))
    → (final (moved_argument r vm)).call_frame_top ≡ vm.call_frame_top
unfolding moved_argument ◌>>=◌ lift modify
moved_argument-top vm (value (rest, frame)) = refl
moved_argument-top vm (error status) = refl

continue-top :
    {A B : Type 0} (top : ℕ) (o : Outcome A) (f : A → M B)
    → (final o).call_frame_top ≡ top
    → ((a : A) (vm : Vm) → (final (f a vm)).call_frame_top ≡ vm.call_frame_top)
    → (final (continue o f)).call_frame_top ≡ top
continue-top top (done a vm) f e same = same a vm ∙ e
continue-top top (fail status vm) f e same = e

pop_argument-top :
    (offset n : ℕ) (vm : Vm) → (final (pop_argument offset n vm)).call_frame_top ≡ vm.call_frame_top
unfolding pop_argument ◌>>=◌ gets moved_argument
pop_argument-top offset n vm = moved_argument-top vm _

-- The arguments move without a change of the call frames.
pub pop_arguments-top :
    (program : LinkedProgram) (base start count : ℕ) (vm : Vm)
    → (final (pop_arguments program base start count vm)).call_frame_top ≡ vm.call_frame_top
unfolding pop_arguments ◌>>=◌ pure
pop_arguments-top program base start zero vm = refl
pop_arguments-top program base start (suc index) vm =
    continue-top vm.call_frame_top (pop_argument _ _ vm) _ (pop_argument-top _ _ vm)
      (λ _ vm'. pop_arguments-top program base start index vm')

module _ (shape : Shape) where
  Keeps-pop_argument : (offset n : ℕ) → Keeps shape (pop_argument offset n)
  unfolding pop_argument ◌>>=◌ gets moved_argument
  Keeps-pop_argument offset n = record {
    sound = λ vm h. moved_argument-IsSound offset n vm _ refl h;
    honest = λ vm h. moved_argument-honest offset n vm _ refl h;
  }

  pub Keeps-pop_arguments :
      (program : LinkedProgram) (base start count : ℕ)
      → Keeps shape (pop_arguments program base start count)
  unfolding pop_arguments
  Keeps-pop_arguments program base start zero = search stack_rules
  Keeps-pop_arguments program base start (suc index) =
      Keeps-bind shape _ _ (Keeps-pop_argument _ _)
        (λ _. Keeps-pop_arguments program base start index)

  Keeps-check_param :
      (frame_byte_size index total : ℕ) (kind : ValueKind) (offset : ℕ)
      → Keeps shape (check_param frame_byte_size index total kind offset)
  unfolding check_param
  Keeps-check_param frame_byte_size index total kind offset = search stack_rules depth 9

  pub Keeps-argument_bytes :
      (program : LinkedProgram) (frame_byte_size start left index total : ℕ)
      → Keeps shape (argument_bytes program frame_byte_size start left index total)
  unfolding argument_bytes
  Keeps-argument_bytes program frame_byte_size start zero index total = search stack_rules
  Keeps-argument_bytes program frame_byte_size start (suc left) index total =
      let rest = Keeps-argument_bytes program frame_byte_size start left (index + 1) in
      search (stack_rules, Keeps-check_param, rest)
