-- ===== src/Optimize/Folding.antt =====
-- The integer operators of cova/optimize.go, which work in 64 bits and cut the result off, agree
-- with the ones of the machine, which work in the width of the kind.
use native.Mathlib.Nat.{mod-eq_of_lt, add-mod, mul_comm, one-le-pow}
use ccova.Prelude.{
  ℕ, ◌+◌, ◌-◌, ◌*◌, ◌%◌, ◌^◌, ◌≤◌, ◌<◌, ◌≡◌, refl, sym, ap, ◌∙◌, subst, arith, bit_and, bit_or,
  bit_xor,
}
use ccova.Prelude.Bits.{
  bit_and-mask, bit_and-mod, bit_or-mod, bit_xor-mod, bit_and-lt, bit_or-lt, bit_xor-lt, pow_split,
}
use ccova.Optimize.Modular.{
  mul-mod_left, mod_of_mod, mod-difference, multiple, positive_pow, mod_of_mod64,
}

-- Two numbers of w bits, and 64-bit numbers with these low bits.
module _ (w : ℕ) (small : w ≤ 64) (x y a b : ℕ) (x_below : x < 2 ^ w) (y_below : y < 2 ^ w)
    (low_a : a % 2 ^ w ≡ x) (low_b : b % 2 ^ w ≡ y) (short : b < 2 ^ 64) where
  pub wide_add : (a + b) % 2 ^ 64 % 2 ^ w ≡ (x + y) % 2 ^ w
  wide_add = rw (mod_of_mod64 w small (a + b), add-mod a b (2 ^ w), low_a, low_b) refl

  pub wide_sub : (a + 2 ^ 64 - b) % 2 ^ 64 % 2 ^ w ≡ (x + 2 ^ w - y) % 2 ^ w
  wide_sub =
      let c = 2 ^ (64 - w) in
      let whole = multiple w small in
      mod_of_mod64 w small (a + 2 ^ 64 - b)
      ∙ ap (λ (t : ℕ). (a + t - b) % 2 ^ w) whole
      ∙ rw
          (
            mod-difference (2 ^ w) c (positive_pow w small) a b (subst (λ t. b < t) whole short),
            low_a,
            low_b,
          )
          refl

  pub wide_mul : a * b % 2 ^ 64 % 2 ^ w ≡ x * y % 2 ^ w
  wide_mul =
      rw
        (
          mod_of_mod64 w small (a * b),
          mul-mod_left a b (2 ^ w),
          low_a,
          mul_comm x b,
          mul-mod_left b x (2 ^ w),
          low_b,
          mul_comm y x,
        )
        refl

  pub wide_and : bit_and a b % 2 ^ w ≡ bit_and x y
  wide_and = rw (bit_and-mod w a b, low_a, low_b) (mod-eq_of_lt (bit_and-lt w x y x_below y_below))

  pub wide_or : bit_or a b % 2 ^ w ≡ bit_or x y
  wide_or = rw (bit_or-mod w a b, low_a, low_b) (mod-eq_of_lt (bit_or-lt w x y x_below y_below))

  pub wide_xor : bit_xor a b % 2 ^ w ≡ bit_xor x y
  wide_xor = rw (bit_xor-mod w a b, low_a, low_b) (mod-eq_of_lt (bit_xor-lt w x y x_below y_below))

  pub wide_shift : (k : ℕ) → a * 2 ^ k % 2 ^ 64 % 2 ^ w ≡ x * 2 ^ k % 2 ^ w
  wide_shift k = rw (mod_of_mod64 w small (a * 2 ^ k), mul-mod_left a (2 ^ k) (2 ^ w), low_a) refl

  -- The count of a shift, for a width of 2 ^ j bits.
  pub wide_count : (j : ℕ) → w ≡ 2 ^ j → j ≤ w → bit_and b (w - 1) ≡ bit_and y (w - 1)
  wide_count j power bound =
      let split : 2 ^ w ≡ 2 ^ (w - j) * 2 ^ j =
        ap (λ (t : ℕ). 2 ^ t) {x = w} {y = w - j + j} (omega arith) ∙ pow_split (w - j) j in
      let same : b % 2 ^ j ≡ y % 2 ^ j =
        sym (mod_of_mod (2 ^ j) (2 ^ (w - j)) (one-le-pow j 2 (omega arith)) b)
        ∙ ap (λ (t : ℕ). b % t % 2 ^ j) (sym split)
        ∙ ap (λ (t : ℕ). t % 2 ^ j) low_b in
      subst (λ v. bit_and b (v - 1) ≡ bit_and y (v - 1)) (sym power)
        (bit_and-mask j b ∙ same ∙ sym (bit_and-mask j y))
