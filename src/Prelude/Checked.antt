-- ===== src/Prelude/Checked.antt =====
-- What a Go function returns that may fail with an error of its own: the value, or the error.
use mathlib.Core.Path.{◌≡◌, refl}
use mathlib.Core.Bool.{Bool, true, false}

pub data Checked {ℓ κ} (E : Type κ) (A : Type ℓ) : Type (ℓ ⊔ κ) where
  accepted : A → Checked E A
  rejected : E → Checked E A

module _ {ℓ κ} {E : Type 0} {A : Type ℓ} {B : Type κ} where
  infixl 5 ◌>>=◌
  abbrev pub ◌>>=◌ : Checked E A → (A → Checked E B) → Checked E B
  accepted a >>= f = f a
  rejected e >>= f = rejected e

  infixl 5 ◌>>◌
  abbrev pub ◌>>◌ : Checked E A → Checked E B → Checked E B
  m >> r = m >>= λ _. r

  pub bind-eq-accepted :
      (m : Checked E A) (f : A → Checked E B) {b : B}
      → (m >>= f) ≡ accepted b
      → (a : A) × (m ≡ accepted a) × (f a ≡ accepted b)
  bind-eq-accepted (accepted a) f h = (a, refl, h)
  bind-eq-accepted (rejected e) f h = cc

-- `if test { return e }`
abbrev pub reject_if : {E : Type 0} → Bool → E → Checked E (Unit {0})
reject_if true e = rejected e
reject_if false e = accepted tt

module _ {ℓ} {E : Type 0} {A : Type ℓ} where
  pub accepted_injective : {a b : A} → Path (Checked E A) (accepted a) (accepted b) → a ≡ b
  accepted_injective h = cc

  pub rejected-ne_accepted : {e : E} {a : A} → Path (Checked E A) (rejected e) (accepted a) → ⊥
  rejected-ne_accepted h = cc

  -- A chain of tests that accepts has passed its first test.
  pub reject_if-then :
      (b : Bool) (e : E) (r : Checked E A) {a : A}
      → (reject_if b e >>= λ _. r) ≡ accepted a
      → (b ≡ false) × (r ≡ accepted a)
  reject_if-then true e r h = cc
  reject_if-then false e r h = (refl, h)
