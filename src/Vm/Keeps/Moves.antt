-- ===== src/Vm/Keeps/Moves.antt =====
-- Pushes, pops and stores keep the machine well formed (cova/vm.go, cova/segment-memory.go).
use ccova.Prelude.{
  ℕ, ◌+◌, ◌-◌, ◌≤◌, ◌<◌, ◌≡◌, ◌≢◌, refl, sym, ap, ◌∙◌, ◌⊎◌, inl, inr, arith, Bool, true, false,
  ◌++◌, ◌==◌, ==_iff, Bool-cases, if◌then◌else◌, ltb, length, take, length-append, length-take,
}
use ccova.Status.{VmStatus, Result, value, error}
use ccova.Kind.{ValueKind, size}
use ccova.Segment.{MemorySegment, put_uint, append_uint, truncate_uint, append_bits, truncate_bits}
use ccova.Segment.Laws.{length-put_uint}
use ccova.Address.{segment_stack, segment_const}
use ccova.Vm.State.{Vm, final, fault, stack, set_segment}
use ccova.Vm.Stack.{pushed, push_uint, push_bits, popped, pop_uint, pop_bits}
use ccova.Vm.Keeps.{
  Shape, IsSound, IsClean, Ends, Keeps, Keeps-pure, Keeps-refuse, Keeps-gets, Keeps-fault, Keeps-if,
  Keeps-bind, Keeps-bind_lift, Keeps-bind_gets, Keeps-lift, Keeps-modify, Keeps-recorded,
  IsSound-set_fault, IsSound-record_status, record_status-status, not_ok, is_ok-false,
}

-- A segment of the same size and capacity in place of one that is not CONST.
pub IsSound-set_segment :
    {shape : Shape} (s : ℕ) (segment : MemorySegment) {vm : Vm}
    → s ≢ segment_const
    → length segment.bytes ≡ length (vm.memory s).bytes
    → segment.capacity ≡ (vm.memory s).capacity
    → IsSound shape vm
    → IsSound shape (set_segment s segment vm)
IsSound-set_segment {shape} s segment {vm} ne len cap h = record {
  constants_same = ground (arith, h.constants_same);
  sizes_same = λ r other. ground (arith, h.sizes_same r other);
  capacity_same = ground (arith, h.capacity_same);
  stack_fits = ground (arith, h.stack_fits);
  frames_same = h.frames_same;
  top_fits = h.top_fits;
  frame_fits = h.frame_fits;
  bases_fit = h.bases_fit;
  timers_same = h.timers_same;
  program_same = h.program_same;
}

-- Another stack within the same capacity.
pub IsSound-set_stack :
    {shape : Shape} (segment : MemorySegment) {vm : Vm}
    → segment.capacity ≡ (stack vm).capacity
    → length segment.bytes ≤ (stack vm).capacity
    → IsSound shape vm
    → IsSound shape (set_segment segment_stack segment vm)
IsSound-set_stack {shape} segment {vm} cap fits h = record {
  constants_same = h.constants_same;
  sizes_same = λ r other. ground (arith, h.sizes_same r other);
  capacity_same = cap ∙ h.capacity_same;
  stack_fits = omega (arith, h.capacity_same);
  frames_same = h.frames_same;
  top_fits = h.top_fits;
  frame_fits = h.frame_fits;
  bases_fit = h.bases_fit;
  timers_same = h.timers_same;
  program_same = h.program_same;
}

append_uint-fits :
    (n v : ℕ) (segment : MemorySegment) {grown : MemorySegment}
    → append_uint n v segment ≡ value grown
    → (grown.capacity ≡ segment.capacity) × (length grown.bytes ≤ segment.capacity)
unfolding append_uint
append_uint-fits n v segment {grown} h =
    ground (arith, length-append segment.bytes (put_uint n v), length-put_uint n v)

truncate_uint-fits :
    (n : ℕ) (segment : MemorySegment) {v : ℕ} {rest : MemorySegment}
    → truncate_uint n segment ≡ value (v, rest)
    → (rest.capacity ≡ segment.capacity) × (length rest.bytes ≤ length segment.bytes)
unfolding truncate_uint
truncate_uint-fits n segment h =
    ground (arith, length-take (length segment.bytes - n) segment.bytes)

module _ (n : ℕ) where
  pushed-IsSound :
      {shape : Shape} (vm : Vm) (r : Result MemorySegment)
      → ((grown : MemorySegment)
          → r ≡ value grown
          → (grown.capacity ≡ (stack vm).capacity) × (length grown.bytes ≤ (stack vm).capacity))
      → IsSound shape vm
      → IsSound shape (final (pushed n vm r))
  unfolding fault
  pushed-IsSound vm (value grown) fits h =
      let (cap, room) = fits grown refl in IsSound-set_stack grown cap room h
  pushed-IsSound vm (error VmStatus.stack_overflow) fits h = IsSound-set_fault _ _ _ _ h
  pushed-IsSound vm (error _) fits h = IsSound-record_status _ h

  pushed-honest :
      (vm : Vm) (r : Result MemorySegment)
      → ((status : VmStatus) → r ≡ error status → status ≢ VmStatus.ok)
      → IsClean vm
      → Ends (pushed n vm r)
  unfolding fault
  pushed-honest vm (value grown) ne h = h
  pushed-honest vm (error VmStatus.stack_overflow) ne h = (ne _ refl, inr refl)
  pushed-honest vm (error _) ne h = (ne _ refl, inr (record_status-status _ vm (ne _ refl) (inl h)))

append_uint-ne_ok :
    (n v : ℕ) (segment : MemorySegment) (status : VmStatus)
    → append_uint n v segment ≡ error status
    → status ≢ VmStatus.ok
unfolding append_uint
append_uint-ne_ok n v segment status h e = ground arith

append_bits-fits :
    (kind : ValueKind) (v : ℕ) (segment : MemorySegment) {grown : MemorySegment}
    → append_bits kind v segment ≡ value grown
    → (grown.capacity ≡ segment.capacity) × (length grown.bytes ≤ segment.capacity)
unfolding append_bits
append_bits-fits kind v segment {grown} h =
    ground (arith, append_uint-fits (size kind) v segment {grown = grown})

append_bits-ne_ok :
    (kind : ValueKind) (v : ℕ) (segment : MemorySegment) (status : VmStatus)
    → append_bits kind v segment ≡ error status
    → status ≢ VmStatus.ok
unfolding append_bits
append_bits-ne_ok kind v segment status h e =
    ground (arith, append_uint-ne_ok (size kind) v segment status)

popped-IsSound :
    {shape : Shape} (vm : Vm) (r : Result (ℕ × MemorySegment))
    → ((v : ℕ) (rest : MemorySegment)
        → r ≡ value (v, rest)
        → (rest.capacity ≡ (stack vm).capacity) × (length rest.bytes ≤ length (stack vm).bytes))
    → IsSound shape vm
    → IsSound shape (final (popped vm r))
popped-IsSound {shape} vm (value (v, rest)) fits h =
    let (cap, shorter) = fits v rest refl in
    IsSound-set_stack rest cap (omega (arith, h.stack_fits, h.capacity_same)) h
popped-IsSound vm (error status) fits h = IsSound-record_status status h

popped-honest :
    (vm : Vm) (r : Result (ℕ × MemorySegment))
    → ((status : VmStatus) → r ≡ error status → status ≢ VmStatus.ok)
    → IsClean vm
    → Ends (popped vm r)
popped-honest vm (value (v, rest)) ne h = h
popped-honest vm (error status) ne h =
    (ne status refl, inr (record_status-status status vm (ne status refl) (inl h)))

truncate_uint-ne_ok :
    (n : ℕ) (segment : MemorySegment) (status : VmStatus)
    → truncate_uint n segment ≡ error status
    → status ≢ VmStatus.ok
unfolding truncate_uint
truncate_uint-ne_ok n segment status h e = ground arith

truncate_bits-fits :
    (kind : ValueKind) (segment : MemorySegment) {v : ℕ} {rest : MemorySegment}
    → truncate_bits kind segment ≡ value (v, rest)
    → (rest.capacity ≡ segment.capacity) × (length rest.bytes ≤ length segment.bytes)
unfolding truncate_bits
truncate_bits-fits kind segment {v} {rest} h =
    ground (arith, truncate_uint-fits (size kind) segment {v = v} {rest = rest})

truncate_bits-ne_ok :
    (kind : ValueKind) (segment : MemorySegment) (status : VmStatus)
    → truncate_bits kind segment ≡ error status
    → status ≢ VmStatus.ok
unfolding truncate_bits
truncate_bits-ne_ok kind segment status h e =
    ground (arith, truncate_uint-ne_ok (size kind) segment status)

module _ (shape : Shape) where
  pub Keeps-push_uint : (n v : ℕ) → Keeps shape (push_uint n v)
  unfolding push_uint
  Keeps-push_uint n v = record {
    sound = λ vm h.
        pushed-IsSound n vm (append_uint n v (stack vm))
          (λ grown e. append_uint-fits n v (stack vm) e) h;
    honest = λ vm h.
        pushed-honest n vm (append_uint n v (stack vm)) (append_uint-ne_ok n v (stack vm)) h;
  }

  pub Keeps-push_bits : (kind : ValueKind) (v : ℕ) → Keeps shape (push_bits kind v)
  unfolding push_bits
  Keeps-push_bits kind v = record {
    sound = λ vm h.
        pushed-IsSound (size kind) vm (append_bits kind v (stack vm))
          (λ grown e. append_bits-fits kind v (stack vm) e) h;
    honest = λ vm h.
        pushed-honest (size kind) vm (append_bits kind v (stack vm))
          (append_bits-ne_ok kind v (stack vm)) h;
  }

  pub Keeps-pop_uint : (n : ℕ) → Keeps shape (pop_uint n)
  unfolding pop_uint
  Keeps-pop_uint n = record {
    sound = λ vm h.
        popped-IsSound vm (truncate_uint n (stack vm))
          (λ v rest e. truncate_uint-fits n (stack vm) e) h;
    honest =
        λ vm h. popped-honest vm (truncate_uint n (stack vm)) (truncate_uint-ne_ok n (stack vm)) h;
  }

  pub Keeps-pop_bits : (kind : ValueKind) → Keeps shape (pop_bits kind)
  unfolding pop_bits
  Keeps-pop_bits kind = record {
    sound = λ vm h.
        popped-IsSound vm (truncate_bits kind (stack vm))
          (λ v rest e. truncate_bits-fits kind (stack vm) e) h;
    honest = λ vm h.
        popped-honest vm (truncate_bits kind (stack vm)) (truncate_bits-ne_ok kind (stack vm)) h;
  }

pub ruleset stack_rules = (
  Keeps-pure, Keeps-refuse, Keeps-gets, Keeps-fault, Keeps-if, Keeps-bind, Keeps-push_uint,
  Keeps-push_bits, Keeps-pop_uint, Keeps-pop_bits, refl,
)
