-- ===== src/Vm/Keeps/Leave.antt =====
-- Returns keep the machine well formed (`currentFrame` and `returnFromFunction` of cova/vm.go).
use ccova.Prelude.{
  ℕ, zero, suc, ◌-◌, ◌≤◌, ◌≡◌, refl, arith, Bool, true, false, Bool-cases, ◌⊎◌, inl, inr, List, [],
  ◌∷◌, ◌==◌, get_or,
}
use ccova.Status.{VmStatus}
use ccova.Kind.{ValueKind}
use ccova.Address.{segment_frame}
use ccova.Vm.State.{Vm, CallFrame, no_frame, done, fail, pure, ◌>>=◌, refuse, gets, modify}
use ccova.Vm.Calls.{current_frame, check_result, leave_frame, return_to, return_from_function}
use ccova.Vm.Keeps.{
  Shape, IsSound, BasesFit, Keeps, Keeps-modify, Keeps-bind, Keeps-gets, Keeps-if, Keeps-pure,
  not_ok,
}
use ccova.Vm.Keeps.Moves.{stack_rules}

BasesFit-get_or :
    (n : ℕ) (frames : List CallFrame) (i : ℕ) (d : CallFrame)
    → BasesFit n frames
    → d.local_base ≤ n
    → (get_or frames i d).local_base ≤ n
BasesFit-get_or n [] i d h le = le
BasesFit-get_or n (g ∷ frames) zero d h le = h.0
BasesFit-get_or n (g ∷ frames) (suc i) d h le = BasesFit-get_or n frames i d h.1 le

-- The counters may change within their bounds.
pub IsSound-set_counters :
    {shape : Shape} {vm : Vm} (pc top frame_top instruction_pc : ℕ) (running : Bool)
    → top ≤ shape.frames
    → frame_top ≤ shape.sizes segment_frame
    → IsSound shape vm
    → IsSound shape (record vm {
      pc = pc;
      call_frame_top = top;
      frame_top = frame_top;
      instruction_pc = instruction_pc;
      has_instruction_pc = running;
    })
IsSound-set_counters pc top frame_top instruction_pc running le le' h = record {
  constants_same = h.constants_same;
  sizes_same = h.sizes_same;
  capacity_same = h.capacity_same;
  stack_fits = h.stack_fits;
  frames_same = h.frames_same;
  top_fits = le;
  frame_fits = le';
  bases_fit = h.bases_fit;
  timers_same = h.timers_same;
  program_same = h.program_same;
}

module _ (shape : Shape) where
  pub Keeps-set_pc : (pc : ℕ) → Keeps shape (modify (λ vm. record vm { pc = pc }))
  Keeps-set_pc pc =
      Keeps-modify shape _ (λ vm h. IsSound-set_counters pc _ _ _ _ h.top_fits h.frame_fits h)
        (λ vm. refl)

  Keeps-check_result :
      (kind : ValueKind) (stack_size : ℕ) → Keeps shape (check_result kind stack_size)
  unfolding check_result
  Keeps-check_result kind stack_size = search stack_rules depth 9

  -- A frame that was entered has its base in the frame segment.
  Keeps-leave_frame :
      (frame : CallFrame)
      → frame.local_base ≤ shape.sizes segment_frame
      → Keeps shape (leave_frame frame)
  unfolding leave_frame
  Keeps-leave_frame frame fits =
      Keeps-bind shape _ _
        (Keeps-modify shape _ (λ vm h. IsSound-set_counters _ _ _ _ _ h.top_fits fits h)
          (λ vm. refl))
        (λ _. Keeps-bind shape _ _ (Keeps-gets shape _) (λ top.
          Keeps-if shape (top == 0) _ _ (λ _. Keeps-pure shape true)
            (λ _.
              Keeps-bind shape _ _ (Keeps-set_pc frame.return_pc) (λ _. Keeps-pure shape false))))

  -- The top is lowered.
  Keeps-pop_frame :
      Keeps shape (modify (λ vm. record vm { call_frame_top = vm.call_frame_top - 1 }))
  Keeps-pop_frame =
      Keeps-modify shape _
        (λ vm h. IsSound-set_counters _ _ _ _ _ (omega (arith, h.top_fits)) h.frame_fits h)
        (λ vm. refl)

  -- The steps of a return behind the look at the current frame.
  Keeps-return_to :
      (frame : CallFrame)
      → frame.local_base ≤ shape.sizes segment_frame
      → Keeps shape (return_to frame)
  unfolding return_to
  Keeps-return_to frame fits = Keeps-bind shape _ _ Keeps-pop_frame (λ _.
      Keeps-bind shape _ _ (Keeps-gets shape _) (λ n.
        Keeps-bind shape _ _ (Keeps-check_result frame.return_kind n)
          (λ _. Keeps-leave_frame frame fits)))

current_frame-cases :
    (vm : Vm)
    → (current_frame vm ≡ fail VmStatus.invalid_lifecycle vm)
      ⊎ (current_frame vm ≡ done (get_or vm.call_frames (vm.call_frame_top - 1) no_frame) vm)
unfolding current_frame ◌>>=◌ gets refuse pure
current_frame-cases vm = elim (Bool-cases (vm.call_frame_top == 0)) [
  | inl e ↦ inl (rw e refl)
  | inr e ↦ inr (rw e refl)
]

pub Keeps-current_frame : (shape : Shape) → Keeps shape current_frame
unfolding current_frame
Keeps-current_frame shape = search stack_rules depth 9

pub Keeps-return_from_function : (shape : Shape) → Keeps shape return_from_function
unfolding return_from_function ◌>>=◌
Keeps-return_from_function shape = record {
  sound = λ vm h. elim (current_frame-cases vm) [
    | inl e ↦ rw e h
    | inr e ↦ rw e (
        (Keeps-return_to shape _ (
            BasesFit-get_or _ vm.call_frames (vm.call_frame_top - 1) no_frame h.bases_fit
              (omega arith))).sound
          vm h)
  ];
  honest = λ vm h. elim (current_frame-cases vm) [
    | inl e ↦ rw e ((λ x. absurd (not_ok VmStatus.invalid_lifecycle refl x)), inl h)
    | inr e ↦
        let frame = get_or vm.call_frames (vm.call_frame_top - 1) no_frame in
        rw e (
          (Keeps-return_to (record shape { sizes = λ s. frame.local_base }) frame
              (omega arith)).honest
            vm h)
  ];
}
