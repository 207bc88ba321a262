-- ===== src/Vm/Keeps.antt =====
-- What every operation of the machine keeps (cova/vm.go): the sizes that the host and the program
-- have fixed, the CONST segment, and the bounds of the stack, the frames and the call frames; and
-- that a failure is recorded as the fault of the run.
pub mod Moves
pub mod Memory
pub mod Arguments
pub mod Compute
pub mod BuiltIn
pub mod Enter
pub mod Leave
pub mod Instructions
pub mod Run
pub mod Loop
pub mod Load
pub mod Whole
pub mod Loaded
use ccova.Prelude.{
  ℕ, ◌≤◌, ◌<◌, ◌≡◌, ◌≢◌, refl, sym, ◌∙◌, ap, ◌⊎◌, inl, inr, arith, Bool, true, false, Option, List,
  [], ◌∷◌, ◌==◌, ==_iff, Bool-cases, if◌then◌else◌, length,
}
use ccova.Prelude.Int.{ℤ}
use ccova.Status.{VmStatus, is_ok, VmFaultInfo, Result, value, error, minus_one}
use ccova.Segment.{MemorySegment}
use ccova.Address.{segment_frame, segment_const, segment_stack}
use ccova.Program.{LinkedProgram}
use ccova.Vm.State.{
  Vm, CallFrame, TimerSlot, M, Outcome, done, fail, final, pure, continue, ◌>>=◌, ◌>>◌, refuse,
  gets, modify, fault, set_fault, record_status, record_outcome, recorded, lift, stack, set_segment,
}

-- What a run leaves alone.
pub record Shape : Type 0 where
  pub constants : MemorySegment
  pub sizes : ℕ → ℕ
  pub stack_capacity : ℕ
  pub frames : ℕ
  pub timers : ℕ
  pub program : Option LinkedProgram

abbrev pub BasesFit : ℕ → List CallFrame → Type 0
BasesFit n [] = Unit
BasesFit n (f ∷ fs) = (f.local_base ≤ n) × BasesFit n fs

-- The state of the machine is well formed for a shape.
pub record IsSound (shape : Shape) (vm : Vm) : Type 0 where
  pub constants_same : vm.memory segment_const ≡ shape.constants
  pub sizes_same : (s : ℕ) → s ≢ segment_stack → length (vm.memory s).bytes ≡ shape.sizes s
  pub capacity_same : (stack vm).capacity ≡ shape.stack_capacity
  pub stack_fits : length (stack vm).bytes ≤ shape.stack_capacity
  pub frames_same : length vm.call_frames ≡ shape.frames
  pub top_fits : vm.call_frame_top ≤ shape.frames
  pub frame_fits : vm.frame_top ≤ shape.sizes segment_frame
  pub bases_fit : BasesFit (shape.sizes segment_frame) vm.call_frames
  pub timers_same : length vm.timers ≡ shape.timers
  pub program_same : vm.program ≡ shape.program

-- No fault has been recorded.
abbrev pub IsClean : Vm → Type 0
IsClean vm = vm.fault.status ≡ VmStatus.ok

-- From a clean state: a success is clean, and a failure has a status that is no success, and is
-- recorded under that status or not at all.
abbrev pub Ends : {A : Type 0} → Outcome A → Type 0
Ends (done a vm) = IsClean vm
Ends (fail status vm) = (status ≢ VmStatus.ok) × (IsClean vm ⊎ (vm.fault.status ≡ status))

pub record Keeps (shape : Shape) {A : Type 0} (m : M A) : Type 0 where
  pub sound : (vm : Vm) → IsSound shape vm → IsSound shape (final (m vm))
  pub honest : (vm : Vm) → IsClean vm → Ends (m vm)

pub IsSound-fault :
    {shape : Shape} {vm : Vm} (f : VmFaultInfo)
    → IsSound shape vm
    → IsSound shape (record vm { fault = f })
IsSound-fault f h = record {
  constants_same = h.constants_same;
  sizes_same = h.sizes_same;
  capacity_same = h.capacity_same;
  stack_fits = h.stack_fits;
  frames_same = h.frames_same;
  top_fits = h.top_fits;
  frame_fits = h.frame_fits;
  bases_fit = h.bases_fit;
  timers_same = h.timers_same;
  program_same = h.program_same;
}

pub IsSound-set_fault :
    {shape : Shape} (status : VmStatus) (target required available : ℤ) {vm : Vm}
    → IsSound shape vm
    → IsSound shape (set_fault status target required available vm)
unfolding set_fault
IsSound-set_fault status target required available h = IsSound-fault _ h

pub IsSound-record_status :
    {shape : Shape} (status : VmStatus) {vm : Vm}
    → IsSound shape vm
    → IsSound shape (record_status status vm)
unfolding record_status
IsSound-record_status status {vm} h = elim (Bool-cases (is_ok status)) [
  | inl e ↦ rw e h
  | inr e ↦ elim (Bool-cases (is_ok vm.fault.status)) [
    | inl f ↦ rw (e, f) (IsSound-set_fault status minus_one minus_one minus_one h)
    | inr f ↦ rw (e, f) h
  ]
]

-- After `recordStatus` a failure is recorded under its status.
pub record_status-status :
    (status : VmStatus) (vm : Vm)
    → status ≢ VmStatus.ok
    → IsClean vm ⊎ (vm.fault.status ≡ status)
    → (record_status status vm).fault.status ≡ status
unfolding record_status
record_status-status status vm ne h = ground arith

pub not_ok : (status : VmStatus) → is_ok status ≡ false → status ≢ VmStatus.ok
not_ok status h e = ground arith

pub is_ok-false : (status : VmStatus) → status ≢ VmStatus.ok → is_ok status ≡ false
is_ok-false VmStatus.ok h = absurd (h refl)
is_ok-false _ h = refl

IsSound-outcome :
    {shape : Shape} {A : Type 0} (o : Outcome A)
    → IsSound shape (final o)
    → IsSound shape (final (record_outcome o))
IsSound-outcome (done a vm) h = h
IsSound-outcome (fail status vm) h = IsSound-record_status status h

-- A recorded action leaves every failure recorded under its status.
abbrev pub Recorded : {A : Type 0} → Outcome A → Type 0
Recorded (done a vm) = IsClean vm
Recorded (fail status vm) = (status ≢ VmStatus.ok) × (vm.fault.status ≡ status)

pub record_outcome-Recorded : {A : Type 0} (o : Outcome A) → Ends o → Recorded (record_outcome o)
record_outcome-Recorded (done a vm) h = h
record_outcome-Recorded (fail status vm) h = (h.0, record_status-status status vm h.0 h.1)

honest_outcome : {A : Type 0} (o : Outcome A) → Ends o → Ends (record_outcome o)
honest_outcome (done a vm) h = h
honest_outcome (fail status vm) h = (h.0, inr (record_status-status status vm h.0 h.1))

-- A test of which both branches are actions.
pub outcome_if :
    {A : Type 0} (P : Outcome A → Type 0) (b : Bool) (m n : M A) (vm : Vm)
    → (b ≡ true → P (m vm))
    → (b ≡ false → P (n vm))
    → P ((if b then m else n) vm)
outcome_if P true m n vm hm hn = hm refl
outcome_if P false m n vm hm hn = hn refl

module _ (shape : Shape) where
  module _ {A : Type 0} where
    pub Keeps-pure : (a : A) → Keeps shape (pure a)
    unfolding pure
    Keeps-pure a = record { sound = λ vm h. h; honest = λ vm h. h }

    pub Keeps-refuse :
        (status : VmStatus) → is_ok status ≡ false → Keeps shape (refuse {A = A} status)
    unfolding refuse
    Keeps-refuse status ne = record {
      sound = λ vm h. h;
      honest = λ vm h. (not_ok status ne, inl h);
    }

    pub Keeps-gets : (f : Vm → A) → Keeps shape (gets f)
    unfolding gets
    Keeps-gets f = record { sound = λ vm h. h; honest = λ vm h. h }

    pub Keeps-fault :
        (status : VmStatus) (target required available : ℤ)
        → is_ok status ≡ false
        → Keeps shape (fault {A = A} status target required available)
    unfolding fault
    Keeps-fault status target required available ne = record {
      sound = λ vm h. IsSound-set_fault status target required available h;
      honest = λ vm h. (not_ok status ne, inr refl);
    }

    pub Keeps-if :
        (b : Bool) (m n : M A)
        → (b ≡ true → Keeps shape m)
        → (b ≡ false → Keeps shape n)
        → Keeps shape (if b then m else n)
    Keeps-if true m n km kn = km refl
    Keeps-if false m n km kn = kn refl

    Keeps-recorded : (m : M A) → Keeps shape m → Keeps shape (recorded m)
    unfolding recorded
    Keeps-recorded m k = record {
      sound = λ vm h. IsSound-outcome (m vm) (k.sound vm h);
      honest = λ vm h. honest_outcome (m vm) (k.honest vm h);
    }

  module _ {A B : Type 0} where
    continue-IsSound :
        (o : Outcome A) (f : A → M B)
        → IsSound shape (final o)
        → ((a : A) → Keeps shape (f a))
        → IsSound shape (final (continue o f))
    continue-IsSound (done a vm) f h kf = (kf a).sound vm h
    continue-IsSound (fail status vm) f h kf = h

    continue-honest :
        (o : Outcome A) (f : A → M B) → Ends o → ((a : A) → Keeps shape (f a)) → Ends (continue o f)
    continue-honest (done a vm) f h kf = (kf a).honest vm h
    continue-honest (fail status vm) f h kf = h

    pub Keeps-bind :
        (m : M A) (f : A → M B)
        → Keeps shape m
        → ((a : A) → Keeps shape (f a))
        → Keeps shape (m >>= f)
    unfolding ◌>>=◌
    Keeps-bind m f km kf = record {
      sound = λ vm h. continue-IsSound (m vm) f (km.sound vm h) kf;
      honest = λ vm h. continue-honest (m vm) f (km.honest vm h) kf;
    }

    -- The rest of a block may use the result that was lifted.
    pub Keeps-bind_lift :
        (r : Result A) (f : A → M B)
        → ((status : VmStatus) → r ≡ error status → status ≢ VmStatus.ok)
        → ((a : A) → r ≡ value a → Keeps shape (f a))
        → Keeps shape (lift r >>= f)
    unfolding ◌>>=◌ lift
    Keeps-bind_lift (value a) f ne kf = kf a refl
    Keeps-bind_lift (error status) f ne kf = record {
      sound = λ vm h. h;
      honest = λ vm h. (ne status refl, inl h);
    }

    -- Where what was read of the state matters.
    pub Keeps-bind_gets :
        (g : Vm → A) (f : A → M B)
        → ((vm : Vm) → Keeps shape (f (g vm)))
        → Keeps shape (gets g >>= f)
    unfolding ◌>>=◌ gets
    Keeps-bind_gets g f k = record {
      sound = λ vm h. (k vm).sound vm h;
      honest = λ vm h. (k vm).honest vm h;
    }

  pub Keeps-lift :
      {A : Type 0} (r : Result A)
      → ((status : VmStatus) → r ≡ error status → status ≢ VmStatus.ok)
      → Keeps shape (lift r)
  unfolding lift
  Keeps-lift (value a) ne = record { sound = λ vm h. h; honest = λ vm h. h }
  Keeps-lift (error status) ne = record {
    sound = λ vm h. h;
    honest = λ vm h. (ne status refl, inl h);
  }

  pub Keeps-modify :
      (f : Vm → Vm)
      → ((vm : Vm) → IsSound shape vm → IsSound shape (f vm))
      → ((vm : Vm) → (f vm).fault ≡ vm.fault)
      → Keeps shape (modify f)
  unfolding modify
  Keeps-modify f ks same = record {
    sound = ks;
    honest = λ vm h. ap (λ (g : VmFaultInfo). g.status) (same vm) ∙ h;
  }
