-- ===== src/Vm/Keeps/Whole.antt =====
-- Whole runs (`LoadProgram`, `RunLoaded` and `Run` of cova/vm.go): from any state, through the reset
-- and the loop, to the end.
use ccova.Prelude.{
  ℕ, ◌^◌, ◌-◌, ◌<◌, ◌≡◌, refl, ap, ◌∙◌, ◌⊎◌, inl, inr, arith, false, ◌&&◌, Option, none, some, ltb,
  ◌==◌, Bool-cases, length,
}
use ccova.Prelude.Int.{ℤ, pos}
use ccova.Status.{VmStatus, VmFaultInfo, is_ok, minus_one}
use ccova.Floats.{Floats}
use ccova.Program.{LinkedProgram, ScriptFunctionDescriptor}
use ccova.Vm.State.{
  Vm, VmConfig, M, Outcome, done, fail, final, pure, continue, ◌>>=◌, gets, modify, fault,
  set_fault, recorded, clear_fault, new_vm_with_config,
}
use ccova.Vm.Run.{ExternDispatcher, Run}
use ccova.Vm.Load.{
  install, load_program, cleared, enter_entry_found, enter_entry, reset_with, reset, set_clock,
  start_tick, then_run, run_loaded, run,
}
use ccova.Vm.Keeps.{
  Shape, IsSound, IsClean, Recorded, Keeps-modify, Keeps-fault, Keeps-if, outcome_if, not_ok,
  record_outcome-Recorded,
}
use ccova.Vm.Keeps.Enter.{Keeps-enter_script_function}
use ccova.Vm.Keeps.Load.{
  reset-IsSound, IsSound-clear_fault, new_shape, loaded_shape, new_vm-IsSound, install-IsSound,
  cleared-fault,
}
use ccova.Vm.Keeps.Run.{HostFits}
use ccova.Vm.Keeps.Loop.{end_of, EndsRecorded, run_loop-IsSound, run_loop-EndsRecorded}

-- The checks of `LoadProgram`.
pub record SizesAgree (program : LinkedProgram) : Type 0 where
  pub const_agrees : program.const_byte_size ≡ length program.const_data
  pub data_agrees : program.data_byte_size ≡ length program.data_data
  pub text_fits : length program.text < 2 ^ 32

-- The two ends of `LoadProgram`.
pub load_program-outcomes :
    (program : LinkedProgram) (vm : Vm)
    → (SizesAgree program × (load_program program vm ≡ done tt (install program (clear_fault vm))))
      ⊎ ((SizesAgree program → ⊥)
          × ((t : ℤ) × (r : ℤ) × (a : ℤ) × (load_program program vm
                ≡ fail VmStatus.invalid_image
                    (set_fault VmStatus.invalid_image t r a (clear_fault vm)))))
unfolding load_program ◌>>=◌ modify fault
load_program-outcomes program vm =
    elim (Bool-cases (program.const_byte_size == length program.const_data)) [
      | inr e ↦ inr (
        (λ h. ground (arith, h.const_agrees)),
        (minus_one, pos program.const_byte_size, pos (length program.const_data), rw e refl),
      )
      | inl e ↦ elim (Bool-cases (program.data_byte_size == length program.data_data)) [
        | inr f ↦ inr (
          (λ h. ground (arith, h.data_agrees)),
          (minus_one, pos program.data_byte_size, pos (length program.data_data), rw (e, f) refl),
        )
        | inl f ↦ elim (Bool-cases (ltb (2 ^ 32 - 1) (length program.text))) [
          | inl g ↦ inr (
            (λ h. ground (arith, h.text_fits)),
            (minus_one, pos (2 ^ 32 - 1), pos (length program.text), rw (e, f, g) refl),
          )
          | inr g ↦ inl (
            record {
              const_agrees = ground arith;
              data_agrees = ground arith;
              text_fits = ground arith;
            },
            rw (e, f, g) refl,
          )
        ]
      ]
    ]

then_run-IsSound :
    {A : Type 0} {shape : Shape} (rest : A → Vm → Run) (o : Outcome A)
    → ((a : A) (vm : Vm) → IsSound shape vm → IsSound shape (end_of (rest a vm)))
    → IsSound shape (final o)
    → IsSound shape (end_of (then_run rest o))
then_run-IsSound rest (fail status vm) k h = h
then_run-IsSound rest (done a vm) k h = k a vm h

then_run-EndsRecorded :
    {A : Type 0} (rest : A → Vm → Run) (o : Outcome A)
    → ((a : A) (vm : Vm) → IsClean vm → EndsRecorded (rest a vm))
    → Recorded o
    → EndsRecorded (then_run rest o)
then_run-EndsRecorded rest (fail status vm) k h = h
then_run-EndsRecorded rest (done a vm) k h = k a vm h

continue-Recorded :
    {A B : Type 0} (o : Outcome A) (f : A → M B)
    → ((a : A) (vm : Vm) → IsClean vm → Recorded (f a vm))
    → Recorded o
    → Recorded (continue o f)
continue-Recorded (fail status vm) f k h = h
continue-Recorded (done a vm) f k h = k a vm h

fault-Recorded :
    (A : Type 0) (status : VmStatus) (t r a : ℤ) (vm : Vm)
    → is_ok status ≡ false
    → Recorded (fault {A = A} status t r a vm)
unfolding fault set_fault
fault-Recorded A status t r a vm ne = (not_ok status ne, refl)

IsSound-set_clock :
    {shape : Shape} (seconds : ℕ → ℕ) (now : ℕ) (vm : Vm)
    → IsSound shape vm
    → IsSound shape (set_clock seconds now vm)
unfolding set_clock
IsSound-set_clock seconds now vm h = record {
  constants_same = h.constants_same;
  sizes_same = h.sizes_same;
  capacity_same = h.capacity_same;
  stack_fits = h.stack_fits;
  frames_same = h.frames_same;
  top_fits = h.top_fits;
  frame_fits = h.frame_fits;
  bases_fit = h.bases_fit;
  timers_same = h.timers_same;
  program_same = h.program_same;
}

set_clock-fault :
    (seconds : ℕ → ℕ) (now : ℕ) (vm : Vm) → (set_clock seconds now vm).fault ≡ vm.fault
unfolding set_clock
set_clock-fault seconds now vm = refl

set_clock-IsClean :
    (seconds : ℕ → ℕ) (now : ℕ) (vm : Vm) → IsClean vm → IsClean (set_clock seconds now vm)
unfolding set_clock
set_clock-IsClean seconds now vm h = h

module _ {shape : Shape} where
  start_tick-IsSound :
      (seconds : ℕ → ℕ) (now : ℕ) (vm : Vm)
      → IsSound shape vm
      → IsSound shape (final (start_tick seconds now vm))
  unfolding start_tick ◌>>=◌ gets
  start_tick-IsSound seconds now vm h =
      (Keeps-if shape (vm.has_current_time && ltb now vm.current_time_ms) _ _
          (λ _. Keeps-fault shape VmStatus.invalid_parameter _ _ _ refl)
          (λ _.
            Keeps-modify shape (set_clock seconds now) (IsSound-set_clock seconds now)
              (set_clock-fault seconds now))).sound
        vm h

start_tick-Recorded :
    (seconds : ℕ → ℕ) (now : ℕ) (vm : Vm) → IsClean vm → Recorded (start_tick seconds now vm)
unfolding start_tick ◌>>=◌ gets modify
start_tick-Recorded seconds now vm h =
    outcome_if Recorded (vm.has_current_time && ltb now vm.current_time_ms) _ _ vm
      (λ _. fault-Recorded (Unit {0}) VmStatus.invalid_parameter _ _ _ vm refl)
      (λ _. set_clock-IsClean seconds now vm h)

module _ (shape : Shape) where
  enter_entry-Recorded :
      (program : LinkedProgram) (found : Option ScriptFunctionDescriptor) (vm : Vm)
      → IsClean vm
      → Recorded (enter_entry_found program found vm)
  unfolding enter_entry_found recorded
  enter_entry-Recorded program none vm h = fault-Recorded _ VmStatus.invalid_target _ _ _ vm refl
  enter_entry-Recorded program (some function) vm h =
      outcome_if Recorded (function.param_count == 0) _ _ vm
        (λ _.
          record_outcome-Recorded _
            ((Keeps-enter_script_function shape program program.entry_point 0 false).honest vm h))
        (λ _. fault-Recorded (Unit {0}) VmStatus.invalid_descriptor _ _ _ vm refl)

  reset_with-Recorded :
      (found : Option LinkedProgram) (vm : Vm) → IsClean vm → Recorded (reset_with found vm)
  unfolding reset_with ◌>>=◌ modify pure enter_entry
  reset_with-Recorded none vm h = fault-Recorded _ VmStatus.no_program_loaded _ _ _ vm refl
  reset_with-Recorded (some program) vm h =
      continue-Recorded (enter_entry program (cleared program vm)) _ (λ _ vm'' clean. clean)
        (enter_entry-Recorded program _ (cleared program vm)
          (ap (λ (f : VmFaultInfo). f.status) (cleared-fault program vm) ∙ h))

  reset-Recorded : (vm : Vm) → Recorded (reset vm)
  unfolding reset ◌>>=◌ modify gets clear_fault
  reset-Recorded vm = reset_with-Recorded vm.program (clear_fault vm) refl

module _ (shape : Shape) (floats : Floats) (seconds : ℕ → ℕ) (dispatcher : Option ExternDispatcher)
    (host : HostFits shape dispatcher) where
  pub run_loaded-IsSound :
      (fuel now : ℕ) (vm : Vm)
      → IsSound shape vm
      → IsSound shape (end_of (run_loaded floats seconds dispatcher fuel now vm))
  unfolding run_loaded
  run_loaded-IsSound fuel now vm h =
      then_run-IsSound _ (reset vm)
        (λ program vm' h'.
          then_run-IsSound _ (start_tick seconds now vm')
            (λ _. run_loop-IsSound floats dispatcher program shape host fuel)
            (start_tick-IsSound seconds now vm' h'))
        (reset-IsSound shape vm h)

  -- From any state, after any number of instructions, with no dispatcher or one that keeps the
  -- machine well formed and records no fault when it returns VMStatusOK, `RunLoaded` either
  -- returns no failure and the record of the fault is clear, or it returns a status other than
  -- VMStatusOK and that status is the one recorded.
  pub run_loaded-EndsRecorded :
      (fuel now : ℕ) (vm : Vm) → EndsRecorded (run_loaded floats seconds dispatcher fuel now vm)
  unfolding run_loaded
  run_loaded-EndsRecorded fuel now vm =
      then_run-EndsRecorded _ (reset vm)
        (λ program vm' h'.
          then_run-EndsRecorded _ (start_tick seconds now vm')
            (λ _. run_loop-EndsRecorded floats dispatcher program shape host fuel)
            (start_tick-Recorded seconds now vm' h'))
        (reset-Recorded shape vm)

-- A new machine that loads a program whose sizes agree and runs it is well formed at the end,
-- whatever the program does, however the run ends and after any number of instructions: CONST
-- holds the program's constants, every segment has its size, the stack is within its capacity,
-- the frames and the call frames are within bounds, and the program is the one that was
-- loaded. The host's dispatcher, where there is one, must keep this and record no fault when
-- it returns VMStatusOK.
pub run-IsSound :
    (config : VmConfig) (program : LinkedProgram) (floats : Floats) (seconds : ℕ → ℕ)
    (dispatcher : Option ExternDispatcher) (fuel now : ℕ)
    → SizesAgree program
    → HostFits (loaded_shape program (new_shape config)) dispatcher
    → IsSound
        (loaded_shape program (new_shape config))
        (end_of (run floats seconds dispatcher program fuel now (new_vm_with_config config)))
unfolding run
run-IsSound config program floats seconds dispatcher fuel now agrees host =
    elim (load_program-outcomes program (new_vm_with_config config)) [
      | inr refused ↦ absurd (refused.0 agrees)
      | inl loaded ↦ rw loaded.1 (
          run_loaded-IsSound (loaded_shape program (new_shape config)) floats seconds dispatcher
            host fuel now _
            (install-IsSound program _ (IsSound-clear_fault _ _ (new_vm-IsSound config))))
    ]
