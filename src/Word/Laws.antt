-- ===== src/Word/Laws.antt =====
-- The conversions between bit patterns and integers, which cova/vm.go writes as casts.
use ccova.Prelude.{ℕ, ◌-◌, ◌*◌, ◌%◌, ◌^◌, ◌<◌, ◌≡◌, arith, ltb, Bool-cases, inl, inr}
use native.Mathlib.Nat.{mod-eq_of_lt}
use ccova.Word.{to_signed, of_int}

-- A pattern of w bits is the pattern of the integer that it stands for.
pub of_int-to_signed : (w x : ℕ) → x < 2 ^ w → of_int w (to_signed w x) ≡ x
unfolding of_int to_signed
of_int-to_signed w x h =
    let back : (2 ^ w - x - 1) % 2 ^ w ≡ 2 ^ w - x - 1 = mod-eq_of_lt (omega arith) in
    elim (Bool-cases (ltb (2 * x) (2 ^ w))) [
      | inl e ↦ rw e (mod-eq_of_lt h)
      | inr e ↦ rw (e, back) (omega arith)
    ]
