-- ===== src/Prelude/Bits.antt =====
-- `|` of disjoint fields and `&` with a mask of low bits, as arithmetic, at every width.
use Prim.Native.Nat.{
  ℕ, zero, suc, ◌+◌, ◌-◌, ◌*◌, ◌/◌, ◌%◌, ◌^◌, ◌≤◌, ◌<◌, min, max, bit_and, bit_or, digits, bitwise,
  bit_and-bitwise, bit_or-bitwise, bit_xor, bit_xor-bitwise, differ,
}
use mathlib.Core.Path.{◌≡◌, refl, sym, ap, ◌∙◌}
use native.Mathlib.Nat.{
  pow-suc, one-le-pow, le_refl, mod-add-div', mod-lt, mod-eq_of_lt, mul_assoc, pow-succ', pow-zero,
  zero-add, suc-add, one-mul, add-mul-mod_self_right,
}
use native.Mathlib.Omega.{arith}

-- The digit recursion needs no more fuel than its first number.
module _ (z : ℕ → ℕ) (f : ℕ → ℕ → ℕ) where
  enough_fuel : (n m a b : ℕ) → a ≤ n → a ≤ m → digits z f n a b ≡ digits z f m a b
  enough_fuel zero m zero b p q = elim m as (λ k. digits z f 0 0 b ≡ digits z f k 0 b) [
    | zero ↦ refl
    | suc k ↦ refl
  ]
  enough_fuel (suc n) zero zero b p q = refl
  enough_fuel (suc n) (suc m) zero b p q = refl
  enough_fuel zero m (suc a) b p q = absurd (omega arith)
  enough_fuel (suc n) zero (suc a) b p q = absurd (omega arith)
  enough_fuel (suc n) (suc m) (suc a) b p q =
      let rec = enough_fuel n m (suc a / 2) (b / 2) (omega arith) (omega arith) in rw rec

  lowest_digit :
      (a b : ℕ)
      → bitwise z f (suc a) b ≡ bitwise z f (suc a / 2) (b / 2) * 2 + f (suc a % 2) (b % 2)
  lowest_digit a b =
      omega (arith, enough_fuel a (suc a / 2) (suc a / 2) (b / 2) (omega arith) (le_refl _))

or_digit : (a b : ℕ) → bit_or a b ≡ bit_or (a / 2) (b / 2) * 2 + max (a % 2) (b % 2)
or_digit zero b = simp bit_or-bitwise (omega arith)
or_digit (suc a) b = simp bit_or-bitwise (lowest_digit (λ y. y) max a b)

and_digit : (a b : ℕ) → bit_and a b ≡ bit_and (a / 2) (b / 2) * 2 + min (a % 2) (b % 2)
and_digit zero b = simp bit_and-bitwise (omega arith)
and_digit (suc a) b = simp bit_and-bitwise (lowest_digit (λ y. 0) min a b)

-- Both by strong induction, with a bound for the number.
or_zero_below : (n a : ℕ) → a ≤ n → bit_or a 0 ≡ a
or_zero_below n zero h = refl
or_zero_below zero (suc a) h = absurd (omega arith)
or_zero_below (suc n) (suc a) h =
    omega (arith, or_digit (suc a) 0, or_zero_below n (suc a / 2) (omega arith))

and_zero_below : (n a : ℕ) → a ≤ n → bit_and a 0 ≡ 0
and_zero_below n zero h = refl
and_zero_below zero (suc a) h = absurd (omega arith)
and_zero_below (suc n) (suc a) h =
    omega (arith, and_digit (suc a) 0, and_zero_below n (suc a / 2) (omega arith))

double_shift : (q k : ℕ) → q * 2 ^ suc k ≡ 2 * (q * 2 ^ k)
double_shift q k = omega (arith, ap (λ (t : ℕ). q * t) (pow-suc 2 k))

-- `(hi << k) | lo` is a sum where `lo` fits in k bits.
pub bit_or-add : (k hi lo : ℕ) → lo < 2 ^ k → bit_or (hi * 2 ^ k) lo ≡ hi * 2 ^ k + lo
bit_or-add zero hi lo h = ground (arith, or_zero_below (hi * 1) (hi * 1) (le_refl _))
bit_or-add (suc k) hi lo h =
    ground (
      arith,
      or_digit (hi * 2 ^ suc k) lo,
      double_shift hi k,
      bit_or-add k hi (lo / 2) (omega arith),
    )

or_comm_below : (n a b : ℕ) → a ≤ n → bit_or a b ≡ bit_or b a
or_comm_below n zero b h = omega (arith, or_zero_below b b (le_refl _), bit_or-bitwise 0 b)
or_comm_below zero (suc a) b h = absurd (omega arith)
or_comm_below (suc n) (suc a) b h = omega (
  arith,
  or_digit (suc a) b,
  or_digit b (suc a),
  or_comm_below n (suc a / 2) (b / 2) (omega arith),
)

pub bit_or_comm : (a b : ℕ) → bit_or a b ≡ bit_or b a
bit_or_comm a b = or_comm_below a a b (le_refl _)

-- The same with the low field first.
pub bit_or-add_low : (k hi lo : ℕ) → lo < 2 ^ k → bit_or lo (hi * 2 ^ k) ≡ hi * 2 ^ k + lo
bit_or-add_low k hi lo h = rw (bit_or_comm lo (hi * 2 ^ k)) (bit_or-add k hi lo h)

and_split : (k q r : ℕ) → r < 2 ^ k → bit_and (q * 2 ^ k + r) (2 ^ k - 1) ≡ r
and_split zero q r h = ground (arith, and_zero_below (q * 1 + r) (q * 1 + r) (le_refl _))
and_split (suc k) q r h = ground (
  arith,
  and_digit (q * 2 ^ suc k + r) (2 ^ suc k - 1),
  double_shift q k,
  pow-suc 2 k,
  and_split k q (r / 2) (omega arith),
)

-- `a & (2^k - 1)` is the remainder by 2^k.
pub bit_and-mask : (k a : ℕ) → bit_and a (2 ^ k - 1) ≡ a % 2 ^ k
bit_and-mask k a = ground (arith, one-le-pow k 2, and_split k (a / 2 ^ k) (a % 2 ^ k))

xor_digit : (a b : ℕ) → bit_xor a b ≡ bit_xor (a / 2) (b / 2) * 2 + differ (a % 2) (b % 2)
xor_digit zero b = simp bit_xor-bitwise (omega arith)
xor_digit (suc a) b = simp bit_xor-bitwise (lowest_digit (λ y. y) differ a b)

differ_bit : (x y : ℕ) → x < 2 → y < 2 → differ x y < 2
differ_bit zero y hx hy = hy
differ_bit (suc x) zero hx hy = hx
differ_bit (suc zero) (suc y) hx hy = omega arith
differ_bit (suc (suc x)) (suc y) hx hy = absurd (omega arith)

double_mod : (p y e : ℕ) → 0 < p → e < 2 → (y * 2 + e) % (p * 2) ≡ y % p * 2 + e
double_mod p y e positive small =
    let whole : y % p + y / p * p ≡ y = mod-add-div' y p in
    let low : y % p < p = mod-lt y {m = p} positive in
    let grouped : y / p * p * 2 ≡ y / p * (p * 2) = mul_assoc (y / p) p 2 in
    let parts : y * 2 + e ≡ y % p * 2 + e + y / p * (p * 2) = omega arith in
    rw parts (add-mul-mod_self_right (y % p * 2 + e) (y / p) (p * 2) ∙ mod-eq_of_lt (omega arith))

halves : (p a : ℕ) → 0 < p → (a % (p * 2) / 2 ≡ a / 2 % p) × (a % (p * 2) % 2 ≡ a % 2)
halves p a positive =
    let parts : a % (p * 2) ≡ a / 2 % p * 2 + a % 2 =
      ap (λ (t : ℕ). t % (p * 2)) {x = a} {y = a / 2 * 2 + a % 2} (omega arith)
      ∙ double_mod p (a / 2) (a % 2) positive (omega arith) in
    (omega arith, omega arith)

-- An operator that works digit by digit keeps the low digits apart from the high ones.
module _ (f : ℕ → ℕ → ℕ) (d : ℕ → ℕ → ℕ)
    (digit : (a b : ℕ) → f a b ≡ f (a / 2) (b / 2) * 2 + d (a % 2) (b % 2))
    (bit : (x y : ℕ) → x < 2 → y < 2 → d x y < 2) where
  low_digits : (w a b : ℕ) → f a b % 2 ^ w ≡ f (a % 2 ^ w) (b % 2 ^ w) % 2 ^ w
  low_digits zero a b = omega arith
  low_digits (suc w) a b =
      let p = 2 ^ w in
      let positive = one-le-pow w 2 (omega arith) in
      let (half_a, bit_a) = halves p a positive in
      let (half_b, bit_b) = halves p b positive in
      let last = bit (a % 2) (b % 2) (omega arith) (omega arith) in
      rw
        (
          pow-suc 2 w,
          digit a b,
          digit (a % (p * 2)) (b % (p * 2)),
          half_a,
          half_b,
          bit_a,
          bit_b,
          double_mod p (f (a / 2) (b / 2)) (d (a % 2) (b % 2)) positive last,
          double_mod p (f (a / 2 % p) (b / 2 % p)) (d (a % 2) (b % 2)) positive last,
          low_digits w (a / 2) (b / 2),
        )
        refl

  -- Numbers of w digits give a number of w digits.
  below_width : (w a b : ℕ) → a < 2 ^ w → b < 2 ^ w → f a b < 2 ^ w
  below_width zero a b ha hb =
      let none : f 0 0 ≡ f 0 0 * 2 + d 0 0 = digit 0 0 in
      let at_zero : f a b ≡ f 0 0 =
        ap (λ (t : ℕ). f t b) {x = a} {y = 0} (omega arith)
        ∙ ap (λ (t : ℕ). f 0 t) {x = b} {y = 0} (omega arith) in
      omega (arith, none, at_zero)
  below_width (suc w) a b ha hb =
      let width = pow-suc 2 w in
      let last = bit (a % 2) (b % 2) (omega arith) (omega arith) in
      let high = below_width w (a / 2) (b / 2) (omega (arith, width)) (omega (arith, width)) in
      omega (arith, digit a b, width, last, high)

pub bit_and-mod : (w a b : ℕ) → bit_and a b % 2 ^ w ≡ bit_and (a % 2 ^ w) (b % 2 ^ w) % 2 ^ w
bit_and-mod = low_digits bit_and min and_digit (λ x y hx hy. omega arith)

pub bit_and-lt : (w a b : ℕ) → a < 2 ^ w → b < 2 ^ w → bit_and a b < 2 ^ w
bit_and-lt = below_width bit_and min and_digit (λ x y hx hy. omega arith)

pub bit_or-mod : (w a b : ℕ) → bit_or a b % 2 ^ w ≡ bit_or (a % 2 ^ w) (b % 2 ^ w) % 2 ^ w
bit_or-mod = low_digits bit_or max or_digit (λ x y hx hy. omega arith)

pub bit_or-lt : (w a b : ℕ) → a < 2 ^ w → b < 2 ^ w → bit_or a b < 2 ^ w
bit_or-lt = below_width bit_or max or_digit (λ x y hx hy. omega arith)

pub bit_xor-mod : (w a b : ℕ) → bit_xor a b % 2 ^ w ≡ bit_xor (a % 2 ^ w) (b % 2 ^ w) % 2 ^ w
bit_xor-mod = low_digits bit_xor differ xor_digit differ_bit

pub bit_xor-lt : (w a b : ℕ) → a < 2 ^ w → b < 2 ^ w → bit_xor a b < 2 ^ w
bit_xor-lt = below_width bit_xor differ xor_digit differ_bit

pub pow_split : (j k : ℕ) → 2 ^ (j + k) ≡ 2 ^ j * 2 ^ k
pow_split zero k = rw (zero-add k, pow-zero 2) (sym (one-mul (2 ^ k)))
pow_split (suc j) k =
    rw (suc-add j k, pow-succ' 2 (j + k), pow_split j k, pow-succ' 2 j)
      (sym (mul_assoc 2 (2 ^ j) (2 ^ k)))
