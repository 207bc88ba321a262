-- ===== src/Optimize/Modular.antt =====
-- Arithmetic modulo a divisor of the modulus: what folding in 64 bits and cutting off the high bits
-- rests on.
use native.Mathlib.Nat.{
  mod-add-div', mod-lt, mod-eq_of_lt, add-mul, mul_assoc, one-mul, pow-le-pow_right,
  add-mul-mod_self_right, one-le-pow, mul_right_comm, lt_of_mul-lt-mul_right,
}
use ccova.Prelude.{
  ℕ, ◌+◌, ◌-◌, ◌*◌, ◌/◌, ◌%◌, ◌^◌, ◌≤◌, ◌<◌, ◌≡◌, refl, sym, ap, ◌∙◌, subst, arith, inl, inr, ltb,
  Bool-cases, true, false,
}
use ccova.Prelude.Int.{ℤ, pos, negsuc}
use ccova.Prelude.Bits.{pow_split}
use ccova.Word.{to_signed, of_int}
use ccova.Word.Laws.{of_int-to_signed}
use ccova.Optimize.{sign_extend}

-- x * y modulo m depends on x modulo m only.
pub mul-mod_left : (x y m : ℕ) → x * y % m ≡ x % m * y % m
mul-mod_left x y m =
    let split : x * y ≡ x % m * y + x / m * y * m =
      ap (λ (t : ℕ). t * y) (sym (mod-add-div' x m))
      ∙ add-mul (x % m) (x / m * m) y
      ∙ ap (λ (t : ℕ). x % m * y + t) (mul_right_comm (x / m) m y) in
    rw split (add-mul-mod_self_right (x % m * y) (x / m * y) m)

add_three : (k q m : ℕ) → (k + q + 1) * m ≡ k * m + q * m + m
add_three k q m = add-mul (k + q) 1 m ∙ omega (arith, add-mul k q m, one-mul m)

module _ (m c : ℕ) (positive : 0 < m) where
  -- Cutting off to a multiple of m first changes nothing.
  pub mod_of_mod : (a : ℕ) → a % (c * m) % m ≡ a % m
  mod_of_mod a =
      let whole : a ≡ a % (c * m) + a / (c * m) * c * m =
        sym (mod-add-div' a (c * m))
        ∙ ap (λ (t : ℕ). a % (c * m) + t) (sym (mul_assoc (a / (c * m)) c m)) in
      let reduced = add-mul-mod_self_right (a % (c * m)) (a / (c * m) * c) m in
      sym (ap (λ (t : ℕ). t % m) whole ∙ reduced)

  -- The complement in a multiple of m is the complement in m.
  pub mod-complement : (a : ℕ) → a < c * m → (c * m - 1 - a) % m ≡ m - 1 - a % m
  mod-complement a below =
      let q = a / m in
      let r = a % m in
      let whole : r + q * m ≡ a = mod-add-div' a m in
      let low : r < m = mod-lt a {m = m} positive in
      let k = c - q - 1 in
      let less : q < c = lt_of_mul-lt-mul_right m {m = q} {n = c} (omega arith) in
      let split : (k + q + 1) * m ≡ k * m + q * m + m = add_three k q m in
      let total : (k + q + 1) * m ≡ c * m =
        ap (λ (t : ℕ). t * m) {x = k + q + 1} {y = c} (omega arith) in
      let parts : c * m - 1 - a ≡ m - 1 - r + k * m = omega arith in
      rw parts (add-mul-mod_self_right (m - 1 - r) k m ∙ mod-eq_of_lt (omega arith))

  -- A difference that does not wrap in the multiple.
  pub mod-difference : (x y : ℕ) → y < c * m → (x + c * m - y) % m ≡ (x % m + m - y % m) % m
  mod-difference x y below =
      let r = y % m in
      let q = y / m in
      let whole : r + q * m ≡ y = mod-add-div' y m in
      let high : x % m + x / m * m ≡ x = mod-add-div' x m in
      let low : r < m = mod-lt y {m = m} positive in
      let k = c - q - 1 in
      let less : q < c = lt_of_mul-lt-mul_right m {m = q} {n = c} (omega arith) in
      let split : (k + q + 1) * m ≡ k * m + q * m + m = add_three k q m in
      let total : (k + q + 1) * m ≡ c * m =
        ap (λ (t : ℕ). t * m) {x = k + q + 1} {y = c} (omega arith) in
      let sum : (x / m + k) * m ≡ x / m * m + k * m = add-mul (x / m) k m in
      let parts : x + c * m - y ≡ x % m + m - r + (x / m + k) * m = omega arith in
      rw parts (add-mul-mod_self_right (x % m + m - r) (x / m + k) m)

of_int-lt : (z : ℤ) → of_int 64 z < 2 ^ 64
unfolding of_int
of_int-lt (pos n) = omega arith
of_int-lt (negsuc n) = omega arith

-- Integers of w bits among those of 64.
module _ (w : ℕ) (small : w ≤ 64) where
  pub multiple : 2 ^ 64 ≡ 2 ^ (64 - w) * 2 ^ w
  multiple =
      subst (λ n. 2 ^ n ≡ 2 ^ (64 - w) * 2 ^ w) {x = 64 - w + w} {y = 64} (omega arith)
        (pow_split (64 - w) w)

  pub positive_pow : 0 < 2 ^ w
  positive_pow = one-le-pow w 2 (omega arith)

  pub pow_bound : 2 ^ w ≤ 2 ^ 64
  pow_bound = pow-le-pow_right {n = 2} (omega arith) small

  pub mod_of_mod64 : (a : ℕ) → a % 2 ^ 64 % 2 ^ w ≡ a % 2 ^ w
  mod_of_mod64 a =
      subst (λ n. a % n % 2 ^ w ≡ a % 2 ^ w) (sym multiple)
        (mod_of_mod (2 ^ w) (2 ^ (64 - w)) positive_pow a)

  -- The low bits of a 64-bit integer are those of the integer itself.
  pub of_int-mod : (z : ℤ) → of_int 64 z % 2 ^ w ≡ of_int w z
  unfolding of_int
  of_int-mod (pos n) = mod_of_mod64 n
  of_int-mod (negsuc n) =
      subst (λ m. (m - 1 - n % m) % 2 ^ w ≡ 2 ^ w - 1 - n % 2 ^ w) (sym multiple)
        (mod-complement (2 ^ w) (2 ^ (64 - w)) positive_pow (n % (2 ^ (64 - w) * 2 ^ w))
            (mod-lt n {m = 2 ^ (64 - w) * 2 ^ w} (subst (λ m. 0 < m) multiple (omega arith)))
          ∙ ap (λ (t : ℕ). 2 ^ w - 1 - t) (mod_of_mod (2 ^ w) (2 ^ (64 - w)) positive_pow n))

  module _ (x : ℕ) (below : x < 2 ^ w) where
    pub sign_extend-mod : sign_extend w x % 2 ^ w ≡ x
    unfolding sign_extend
    sign_extend-mod =
        rw (mod-eq_of_lt below) (of_int-mod (to_signed w x) ∙ of_int-to_signed w x below)

    pub to_signed-sign_extend : to_signed 64 (sign_extend w x) ≡ to_signed w x
    unfolding sign_extend to_signed of_int
    to_signed-sign_extend =
        let bound = pow_bound in
        elim (Bool-cases (ltb (2 * x) (2 ^ w))) [
          | inl e ↦
              let short : x < 2 ^ 64 = omega arith in
              let half : ltb (2 * x) (2 ^ 64) ≡ true = ground (arith, e, bound) in
              rw (mod-eq_of_lt below, e, mod-eq_of_lt short, half) refl
          | inr e ↦
              let n = 2 ^ w - x - 1 in
              let short : n < 2 ^ 64 = omega arith in
              let half : ltb (2 * (2 ^ 64 - 1 - n)) (2 ^ 64) ≡ false = ground (arith, e, bound) in
              let back : 2 ^ 64 - (2 ^ 64 - 1 - n) - 1 ≡ n = omega arith in
              rw (mod-eq_of_lt below, e, mod-eq_of_lt short, half, back) refl
        ]

    pub sign_extend-lt : sign_extend w x < 2 ^ 64
    unfolding sign_extend
    sign_extend-lt = of_int-lt (to_signed w (x % 2 ^ w))
