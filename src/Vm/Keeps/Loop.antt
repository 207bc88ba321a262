-- ===== src/Vm/Keeps/Loop.antt =====
-- The loop of `RunLoaded` (cova/vm.go) for any number of instructions.
use ccova.Prelude.{
  ℕ, zero, suc, ◌%◌, ◌^◌, ◌≡◌, ◌≢◌, Bool, true, false, Option, ltb, length, Bool-cases, inl, inr,
}
use ccova.Status.{VmStatus}
use ccova.Floats.{Floats}
use ccova.Program.{LinkedProgram}
use ccova.Vm.State.{Vm, Outcome, done, fail, final}
use ccova.Vm.Run.{ExternDispatcher, Run, stopped, faulted, out_of_fuel, after_step, step, run_loop}
use ccova.Vm.Keeps.{Shape, IsSound, IsClean, Recorded}
use ccova.Vm.Keeps.Run.{HostFits, Keeps-step, step-Recorded}

-- The state at the end of a run.
abbrev pub end_of : Run → Vm
end_of (stopped vm) = vm
end_of (faulted status vm) = vm
end_of (out_of_fuel vm) = vm

-- A run that fails has recorded the status it returns; one that does not fail has recorded nothing.
abbrev pub EndsRecorded : Run → Type 0
EndsRecorded (stopped vm) = IsClean vm
EndsRecorded (faulted status vm) = (status ≢ VmStatus.ok) × (vm.fault.status ≡ status)
EndsRecorded (out_of_fuel vm) = IsClean vm

after_step-IsSound :
    {shape : Shape} (rest : Vm → Run) (o : Outcome Bool)
    → ((vm : Vm) → IsSound shape vm → IsSound shape (end_of (rest vm)))
    → IsSound shape (final o)
    → IsSound shape (end_of (after_step rest o))
after_step-IsSound rest (fail status vm) k h = h
after_step-IsSound rest (done true vm) k h = h
after_step-IsSound rest (done false vm) k h = k vm h

after_step-EndsRecorded :
    (rest : Vm → Run) (o : Outcome Bool)
    → ((vm : Vm) → IsClean vm → EndsRecorded (rest vm))
    → Recorded o
    → EndsRecorded (after_step rest o)
after_step-EndsRecorded rest (fail status vm) k h = h
after_step-EndsRecorded rest (done true vm) k h = h
after_step-EndsRecorded rest (done false vm) k h = k vm h

module _ (floats : Floats) (dispatcher : Option ExternDispatcher) (program : LinkedProgram) where
  module _ (shape : Shape) (host : HostFits shape dispatcher) where
    pub run_loop-IsSound :
        (fuel : ℕ) (vm : Vm)
        → IsSound shape vm
        → IsSound shape (end_of (run_loop floats dispatcher program fuel vm))
    unfolding run_loop
    run_loop-IsSound zero vm h = h
    run_loop-IsSound (suc fuel) vm h =
        elim (Bool-cases (ltb vm.pc (length program.text % 2 ^ 32))) [
          | inl e ↦ rw e (
              after_step-IsSound (run_loop floats dispatcher program fuel)
                (step floats dispatcher program vm) (run_loop-IsSound fuel)
                ((Keeps-step shape floats dispatcher program host).sound vm h))
          | inr e ↦ rw e h
        ]

    pub run_loop-EndsRecorded :
        (fuel : ℕ) (vm : Vm)
        → IsClean vm
        → EndsRecorded (run_loop floats dispatcher program fuel vm)
    unfolding run_loop
    run_loop-EndsRecorded zero vm h = h
    run_loop-EndsRecorded (suc fuel) vm h =
        elim (Bool-cases (ltb vm.pc (length program.text % 2 ^ 32))) [
          | inl e ↦ rw e (
              after_step-EndsRecorded (run_loop floats dispatcher program fuel)
                (step floats dispatcher program vm) (run_loop-EndsRecorded fuel)
                (step-Recorded shape floats dispatcher program host vm h))
          | inr e ↦ rw e h
        ]
