-- ===== src/Vm/Calls/Laws.antt =====
-- Returns undo calls (`enterScriptFunction` and `returnFromFunction` of cova/vm.go).
use ccova.Prelude.{
  ℕ, ◌+◌, ◌-◌, ◌≤◌, ◌<◌, ◌≡◌, ◌≢◌, refl, ◌⊎◌, inl, inr, arith, false, Bool-cases, if◌then◌else◌,
  ◌==◌, ltb, length, get_or-set, set,
}
use ccova.Kind.{ValueKind, size}
use ccova.Program.{ScriptFunctionDescriptor}
use ccova.Vm.State.{Vm, CallFrame, no_frame, done, pure, ◌>>=◌, gets, modify, stack}
use ccova.Vm.Calls.{
  current_frame, push_call_frame, has_stack_value_kind, check_result, leave_frame, return_to,
  return_from_function,
}

-- The function returns nothing, or its result is on the stack.
abbrev pub HasResult : ValueKind → Vm → Type 0
HasResult kind vm =
    (has_stack_value_kind kind ≡ false) ⊎ ((size kind ≢ 0) × (size kind ≤ length (stack vm).bytes))

check_result-HasResult :
    (kind : ValueKind) (vm vm' : Vm)
    → HasResult kind vm
    → check_result kind (length (stack vm).bytes) vm' ≡ done tt vm'
unfolding check_result pure
check_result-HasResult kind vm vm' (inl nothing) = rw nothing refl
check_result-HasResult kind vm vm' (inr (ne, le)) =
    let some_size : (size kind == 0) ≡ false = ground arith in
    let enough : ltb (length (stack vm).bytes) (size kind) ≡ false = ground arith in
    elim (Bool-cases (has_stack_value_kind kind)) [
      | inl e ↦ rw (e, some_size, enough) refl
      | inr e ↦ rw e refl
    ]

leave_frame-pc :
    (frame : CallFrame) (vm : Vm)
    → leave_frame frame vm
      ≡ done (vm.call_frame_top == 0) (record vm {
        frame_top = frame.local_base;
        pc = if vm.call_frame_top == 0 then vm.pc else frame.return_pc;
      })
unfolding leave_frame ◌>>=◌ modify gets pure
leave_frame-pc frame vm = elim (Bool-cases (vm.call_frame_top == 0)) [
  | inl e ↦ rw e refl
  | inr e ↦ rw e refl
]

current_frame-top :
    (frame : CallFrame) (vm before : Vm)
    → vm.call_frames ≡ set before.call_frames before.call_frame_top frame
    → vm.call_frame_top ≡ before.call_frame_top + 1
    → before.call_frame_top < length before.call_frames
    → current_frame vm ≡ done frame vm
unfolding current_frame ◌>>=◌ gets pure
current_frame-top frame vm before frames top fits =
    let positive : (vm.call_frame_top == 0) ≡ false = ground (arith, top) in
    let index : vm.call_frame_top - 1 ≡ before.call_frame_top = omega (arith, top) in
    rw
      (
        positive,
        frames,
        index,
        get_or-set before.call_frames before.call_frame_top frame no_frame fits,
      )
      refl

-- A return at any later state whose call frames are those of the moment the function was
-- entered, with a result on the stack where the function has one, gives up the callee's frame
-- and its call frame, goes back to the counter after the call, and changes nothing else; from
-- the first call frame it leaves the counter and says that the run is over.
pub return_from_function-push_call_frame :
    (function : ScriptFunctionDescriptor) (return_pc base : ℕ) (before vm : Vm)
    → vm.call_frames ≡ (push_call_frame function return_pc base before).call_frames
    → vm.call_frame_top ≡ (push_call_frame function return_pc base before).call_frame_top
    → before.call_frame_top < length before.call_frames
    → HasResult function.return_kind vm
    → return_from_function vm
      ≡ done (before.call_frame_top == 0) (record vm {
        frame_top = base;
        call_frame_top = before.call_frame_top;
        pc = if before.call_frame_top == 0 then vm.pc else return_pc;
      })
unfolding return_from_function push_call_frame ◌>>=◌ return_to modify gets
return_from_function-push_call_frame function return_pc base before vm frames top fits result =
    let index : vm.call_frame_top - 1 ≡ before.call_frame_top = omega (arith, top) in
    rw
      (
        current_frame-top _ vm before frames top fits,
        index,
        check_result-HasResult function.return_kind vm
            (record vm { call_frame_top = before.call_frame_top }) result,
        leave_frame-pc _ (record vm { call_frame_top = before.call_frame_top }),
      )
      refl
