-- ===== src/Status.antt =====
-- cova/vm-status.go: the status codes of the runtime and the record of the last fault.
use ccova.Prelude.{◌≡◌, ◌⊎◌, inl, inr, Bool, true, false, refl}
use ccova.Prelude.Int.{ℤ, negsuc}

pub data VmStatus : Type 0 where
  ok : VmStatus
  no_program_loaded invalid_lifecycle invalid_program invalid_image unsupported_image : VmStatus
  malformed_bytecode invalid_descriptor invalid_parameter invalid_value_kind : VmStatus
  invalid_address invalid_address_segment read_only_memory invalid_target : VmStatus
  invalid_opcode stack_underflow stack_overflow frame_overflow call_frame_overflow : VmStatus
  division_by_zero missing_extern extern_abi_violation host_failure : VmStatus

abbrev pub is_ok : VmStatus → Bool
is_ok VmStatus.ok = true
is_ok _ = false

-- What a fallible operation on plain data returns: a value with VMStatusOK, or another status.
pub data Result {ℓ} (A : Type ℓ) : Type ℓ where
  value : A → Result A
  error : VmStatus → Result A

-- An `int` that is "not applicable".
abbrev pub minus_one : ℤ
minus_one = negsuc 0

pub record VmFaultInfo : Type 0 where
  pub status : VmStatus
  pub pc : ℤ
  pub target : ℤ
  pub required : ℤ
  pub available : ℤ
  pub host_status : VmStatus

abbrev pub no_vm_fault : VmFaultInfo
no_vm_fault = record {
  status = VmStatus.ok;
  pc = minus_one;
  target = minus_one;
  required = minus_one;
  available = minus_one;
  host_status = VmStatus.ok;
}

infixl 5 ◌>>=◌
abbrev pub ◌>>=◌ {ℓ κ} : {A : Type ℓ} {B : Type κ} → Result A → (A → Result B) → Result B
value a >>= f = f a
error status >>= f = error status

infixl 5 ◌>>◌
abbrev pub ◌>>◌ {ℓ κ} : {A : Type ℓ} {B : Type κ} → Result A → Result B → Result B
r >> s = r >>= λ _. s

pub bind-eq-value {ℓ κ} :
    {A : Type ℓ} {B : Type κ} (m : Result A) (f : A → Result B) {b : B}
    → (m >>= f) ≡ value b
    → (a : A) × (m ≡ value a) × (f a ≡ value b)
bind-eq-value (value a) f h = (a, refl, h)
bind-eq-value (error status) f h = cc

pub value_injective {ℓ} : {A : Type ℓ} {a b : A} → value a ≡ value b → a ≡ b
value_injective h = cc

pub Result-cases {ℓ} :
    {A : Type ℓ} (r : Result A)
    → ((a : A) × (r ≡ value a)) ⊎ ((status : VmStatus) × (r ≡ error status))
Result-cases (value a) = inl (a, refl)
Result-cases (error status) = inr (status, refl)

-- `if test { return status }`
abbrev pub guard : Bool → VmStatus → Result (Unit {0})
guard true status = error status
guard false status = value tt

-- A chain of tests that succeeds has passed its first test.
pub guard-then {κ} :
    {B : Type κ} (b : Bool) (status : VmStatus) (r : Result B) {x : B}
    → (guard b status >>= λ _. r) ≡ value x
    → (b ≡ false) × (r ≡ value x)
guard-then true status r h = cc
guard-then false status r h = (refl, h)

-- A test that does not refuse is passed.
pub guard-pass {κ} :
    {B : Type κ} {b : Bool} (status : VmStatus) (r : Result B)
    → b ≡ false
    → (guard b status >>= λ _. r) ≡ r
guard-pass status r h = rw h refl

-- A test alone.
pub guard-passed : (b : Bool) (status : VmStatus) → guard b status ≡ value tt → b ≡ false
guard-passed true status h = cc
guard-passed false status h = refl

-- Two checks in a row succeed where both do.
pub both-pass : {r s : Result (Unit {0})} → r ≡ value tt → s ≡ value tt → (r >>= λ _. s) ≡ value tt
both-pass h k = rw (h, k) refl

pub both-passed :
    (r s : Result (Unit {0})) → (r >>= λ _. s) ≡ value tt → (r ≡ value tt) × (s ≡ value tt)
both-passed (value u) s h = (refl, h)
both-passed (error status) s h = cc
