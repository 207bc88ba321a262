-- ===== src/Optimize/Agree.antt =====
-- The folding of integer operators (cova/optimize.go) against the machine's arithmetic (cova/vm.go).
use native.Mathlib.Nat.{mod-eq_of_lt, div-le_self}
use ccova.Prelude.{
  ℕ, ◌-◌, ◌*◌, ◌/◌, ◌%◌, ◌^◌, ◌≤◌, ◌<◌, ◌≡◌, refl, ap, ◌∙◌, subst, arith, ◌⊎◌, inl, inr, ltb,
  Bool-cases, Bool, true, false, bit_and, ◌==◌,
}
use ccova.Prelude.Int.{quot, rem}
use ccova.Prelude.Checked.{Checked, accepted, rejected, ◌>>◌}
use ccova.Status.{VmStatus, Result, value, error}
use ccova.Kind.{ArithmeticOp}
use ccova.Word.{to_signed, of_int, int, div_trunc, mod_trunc, shift_right, integer_arithmetic}
use ccova.Optimize.{BinaryOp, FoldError, check_divisor, operate, sign_extend}
use ccova.Optimize.Modular.{
  mod-complement, multiple, positive_pow, pow_bound, of_int-mod, sign_extend-mod,
  to_signed-sign_extend, sign_extend-lt,
}
use ccova.Optimize.Folding.{
  wide_add, wide_sub, wide_mul, wide_and, wide_or, wide_xor, wide_shift, wide_count,
}

-- The operators of the language and of the machine that are the same.
pub data Corresponds : BinaryOp → ArithmeticOp → Type 0 where
  add_op : Corresponds BinaryOp.add ArithmeticOp.add
  sub_op : Corresponds BinaryOp.sub ArithmeticOp.sub
  mul_op : Corresponds BinaryOp.mul ArithmeticOp.mul
  div_op : Corresponds BinaryOp.div ArithmeticOp.div
  modulo_op : Corresponds BinaryOp.modulo ArithmeticOp.modulo
  and_op : Corresponds BinaryOp.bitwise_and ArithmeticOp.bitwise_and
  or_op : Corresponds BinaryOp.bitwise_or ArithmeticOp.bitwise_or
  xor_op : Corresponds BinaryOp.bitwise_xor ArithmeticOp.bitwise_xor
  left_op : Corresponds BinaryOp.shift_left ArithmeticOp.shift_left
  right_op : Corresponds BinaryOp.shift_right ArithmeticOp.shift_right

-- A folded value as what the machine returns: both divisions by zero are the same status.
abbrev pub as_result : Checked FoldError ℕ → Result ℕ
as_result (accepted v) = value v
as_result (rejected e) = error VmStatus.division_by_zero

abbrev pub folded : BinaryOp → Bool → ℕ → Checked FoldError ℕ
folded op zero_right v = do check_divisor op zero_right; accepted v

-- A signed type of n bytes.
module _ (n : ℕ) (small : 8 * n ≤ 64) where
  abbrev width : ℕ
  width = 8 * n

  sign_extend-cases :
      (x : ℕ)
      → x < 2 ^ width
      → ((ltb (2 * x) (2 ^ width) ≡ true) × (sign_extend width x ≡ x))
        ⊎ ((ltb (2 * x) (2 ^ width) ≡ false)
            × (sign_extend width x ≡ 2 ^ 64 - 1 - (2 ^ width - 1 - x)))
  unfolding sign_extend to_signed of_int
  sign_extend-cases x below =
      let bound = pow_bound width small in
      elim (Bool-cases (ltb (2 * x) (2 ^ width))) [
        | inl e ↦
            let short : x < 2 ^ 64 = omega arith in
            inl (e, rw (mod-eq_of_lt below, e) (mod-eq_of_lt short))
        | inr e ↦
            let short : 2 ^ width - x - 1 < 2 ^ 64 = omega arith in
            inr (e, rw (mod-eq_of_lt below, e, mod-eq_of_lt short) (omega arith))
      ]

  signed_div :
      (x y : ℕ)
      → x < 2 ^ width
      → y < 2 ^ width
      → div_trunc (int 8) (sign_extend width x) (sign_extend width y) % 2 ^ width
        ≡ div_trunc (int n) x y
  unfolding div_trunc
  signed_div x y x_below y_below =
      rw (to_signed-sign_extend width small x x_below, to_signed-sign_extend width small y y_below)
        (of_int-mod width small (quot (to_signed width x) (to_signed width y)))

  signed_modulo :
      (x y : ℕ)
      → x < 2 ^ width
      → y < 2 ^ width
      → mod_trunc (int 8) (sign_extend width x) (sign_extend width y) % 2 ^ width
        ≡ mod_trunc (int n) x y
  unfolding mod_trunc
  signed_modulo x y x_below y_below =
      rw (to_signed-sign_extend width small x x_below, to_signed-sign_extend width small y y_below)
        (of_int-mod width small (rem (to_signed width x) (to_signed width y)))

  signed_shift :
      (x k : ℕ)
      → x < 2 ^ width
      → shift_right (int 8) (sign_extend width x) k % 2 ^ width ≡ shift_right (int n) x k
  unfolding shift_right
  signed_shift x k below =
      let bound = pow_bound width small in
      elim (sign_extend-cases x below) [
        | inl positive ↦
            let half : ltb (2 * x) (2 ^ 64) ≡ true = ground (arith, positive.0) in
            let less : x / 2 ^ k < 2 ^ width = omega (arith, div-le_self x (2 ^ k)) in
            rw (positive.1, half, positive.0) (mod-eq_of_lt less)
        | inr negative ↦
            let r = 2 ^ width - 1 - x in
            let half : ltb (2 * (2 ^ 64 - 1 - r)) (2 ^ 64) ≡ false = ground (arith, negative.0) in
            let back : 2 ^ 64 - 1 - (2 ^ 64 - 1 - r) ≡ r = omega arith in
            let less : r / 2 ^ k < 2 ^ width = omega (arith, div-le_self r (2 ^ k)) in
            let far : r / 2 ^ k < 2 ^ 64 = omega arith in
            let whole = multiple width small in
            rw (negative.1, half, back, negative.0)
              (ap (λ (t : ℕ). (t - 1 - r / 2 ^ k) % 2 ^ width) whole
                ∙ mod-complement (2 ^ width) (2 ^ (64 - width)) (positive_pow width small)
                    (r / 2 ^ k) (subst (λ t. r / 2 ^ k < t) whole far)
                ∙ ap (λ (t : ℕ). 2 ^ width - 1 - t) (mod-eq_of_lt less))
      ]

  module _ (j : ℕ) (power : width ≡ 2 ^ j) (bound : j ≤ width) (x y : ℕ) (x_below : x < 2 ^ width)
      (y_below : y < 2 ^ width) where
    low_x : sign_extend width x % 2 ^ width ≡ x
    low_x = sign_extend-mod width small x x_below

    low_y : sign_extend width y % 2 ^ width ≡ y
    low_y = sign_extend-mod width small y y_below

    short_y : sign_extend width y < 2 ^ 64
    short_y = sign_extend-lt width small y y_below

    count : bit_and (sign_extend width y) (width - 1) ≡ bit_and y (width - 1)
    count = wide_count width small x y _ _ x_below y_below low_x low_y short_y j power bound

    pub signed-agree :
        {op : BinaryOp} {operator : ArithmeticOp}
        → Corresponds op operator
        → as_result (
            folded op
              (y == 0)
              (operate (int 8) op (sign_extend width x) (sign_extend width y) width % 2 ^ width))
          ≡ integer_arithmetic (int n) operator x y
    unfolding integer_arithmetic
    signed-agree add_op =
        ap value (wide_add width small x y _ _ x_below y_below low_x low_y short_y)
    signed-agree sub_op =
        ap value (wide_sub width small x y _ _ x_below y_below low_x low_y short_y)
    signed-agree mul_op =
        ap value (wide_mul width small x y _ _ x_below y_below low_x low_y short_y)
    signed-agree div_op = elim (Bool-cases (y == 0)) [
      | inl e ↦ rw e refl
      | inr e ↦ rw e (ap value (signed_div x y x_below y_below))
    ]
    signed-agree modulo_op = elim (Bool-cases (y == 0)) [
      | inl e ↦ rw e refl
      | inr e ↦ rw e (ap value (signed_modulo x y x_below y_below))
    ]
    signed-agree and_op =
        ap value (wide_and width small x y _ _ x_below y_below low_x low_y short_y)
    signed-agree or_op = ap value (wide_or width small x y _ _ x_below y_below low_x low_y short_y)
    signed-agree xor_op =
        ap value (wide_xor width small x y _ _ x_below y_below low_x low_y short_y)
    signed-agree left_op = rw count (
        ap value (
          wide_shift width small x y _ _ x_below y_below low_x low_y short_y
            (bit_and y (width - 1))))
    signed-agree right_op = rw count (ap value (signed_shift x (bit_and y (width - 1)) x_below))
