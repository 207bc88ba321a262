-- ===== src/Types/Align.antt =====
-- cova/types.go: `alignUpU32` and `checkedAlignUpU32`, which round by a mask of bits; `&^` takes away
-- the bits of the mask. They agree with `alignUpInt` at a power of two.
use native.Mathlib.Nat.{
  div-add-mod', mod-lt, mod-eq_of_lt, one-le-pow, pow-le-pow_right, mul_assoc, mod-add-div',
  add-mul-mod_self_right,
}
use ccova.Prelude.{
  ℕ, ◌+◌, ◌-◌, ◌*◌, ◌/◌, ◌%◌, ◌^◌, ◌≤◌, ◌<◌, ◌≡◌, refl, subst, sym, ap, ◌∙◌, arith, Bool, true, leb,
  le→leb, Bool-cases, inl, inr, if◌then◌else◌, some, bit_and,
}
use ccova.Prelude.Bits.{bit_and-mask, pow_split}
use ccova.Types.Layout.{align_up_int}

abbrev and_not : ℕ → ℕ → ℕ
and_not x mask = x - bit_and x mask

-- `alignUpU32`
unfoldable pub align_up_u32 : ℕ → ℕ → ℕ
align_up_u32 offset alignment =
    if leb alignment 1
    then offset
    else and_not ((offset + (alignment - 1)) % 2 ^ 32) (alignment - 1)

-- `checkedAlignUpU32`; the sum of two numbers below 2 ^ 32 has no carry out of 64 bits.
unfoldable pub checked_align_up_u32 : ℕ → ℕ → ℕ × Bool
checked_align_up_u32 offset alignment =
    let aligned = and_not ((offset + (alignment - 1)) % 2 ^ 64) (alignment - 1) in
    if leb alignment 1 then (offset, true) else (aligned % 2 ^ 32, leb aligned (2 ^ 32 - 1))

-- Taking away the low k bits rounds down to a multiple of 2 ^ k.
and_not-mask : (k x : ℕ) → and_not x (2 ^ k - 1) ≡ x / 2 ^ k * 2 ^ k
and_not-mask k x = rw (bit_and-mask k x) (omega (arith, div-add-mod' x (2 ^ k)))

-- A number rounds down to a multiple of p the same below a multiple of p.
round_mod : (m p c s : ℕ) → m ≡ c * p → 0 < m → s % m / p * p ≡ s / p * p % m
round_mod m p c s is_multiple positive =
    let whole : s % m + s / m * m ≡ s = mod-add-div' s m in
    let regroup : s / m * m ≡ s / m * c * p =
      omega (arith, ap (λ (x : ℕ). s / m * x) is_multiple, mul_assoc (s / m) c p) in
    let low : s % p ≡ s % m % p =
      ap (λ (x : ℕ). x % p) {x = s} {y = s % m + s / m * c * p} (omega arith)
      ∙ add-mul-mod_self_right (s % m) (s / m * c) p in
    let split : s / p * p ≡ s % m / p * p + s / m * m =
      omega (arith, div-add-mod' s p, div-add-mod' (s % m) p) in
    let below : s % m / p * p < m =
      omega (arith, div-add-mod' (s % m) p, mod-lt s {m = m} positive) in
    rw (split, add-mul-mod_self_right (s % m / p * p) (s / m) m) (sym (mod-eq_of_lt below))

-- At an alignment of 2 ^ k with k at most 32 and a 32-bit offset, where `alignUpInt` succeeds,
-- `checkedAlignUpU32` returns the low 32 bits of its result and whether they are all of it,
-- and `alignUpU32` returns the low 32 bits.
pub align_up_u32-align_up_int :
    (k offset rounded : ℕ)
    → k ≤ 32
    → offset < 2 ^ 32
    → align_up_int offset (2 ^ k) ≡ some rounded
    → (checked_align_up_u32 offset (2 ^ k) ≡ (rounded % 2 ^ 32, leb rounded (2 ^ 32 - 1)))
      × (align_up_u32 offset (2 ^ k) ≡ rounded % 2 ^ 32)
unfolding align_up_int align_up_u32 checked_align_up_u32
align_up_u32-align_up_int k offset rounded small below h =
    let positive = one-le-pow k 2 (omega arith) in
    let bounded : 2 ^ k ≤ 2 ^ 32 = pow-le-pow_right {n = 2} (omega arith) small in
    let s = offset + (2 ^ k - 1) in
    elim (Bool-cases (leb (2 ^ k) 1)) [
      | inl trivial ↦
          let same : offset ≡ rounded = ground arith in
          (
            rw (trivial, sym same, mod-eq_of_lt below, le→leb offset (2 ^ 32 - 1) (omega arith))
                refl,
            rw (trivial, sym same, mod-eq_of_lt below) refl,
          )
      | inr masked ↦
          let regroup : offset + 2 ^ k - 1 ≡ s = omega arith in
          let made : (offset + 2 ^ k - 1) / 2 ^ k * 2 ^ k ≡ rounded = ground (arith, masked) in
          let found : s / 2 ^ k * 2 ^ k ≡ rounded =
            subst (λ x. x / 2 ^ k * 2 ^ k ≡ rounded) regroup made in
          let low : s % 2 ^ 64 ≡ s = mod-eq_of_lt (omega arith) in
          let whole : 2 ^ 32 ≡ 2 ^ (32 - k) * 2 ^ k =
            subst (λ n. 2 ^ n ≡ 2 ^ (32 - k) * 2 ^ k) {x = 32 - k + k} {y = 32} (omega arith)
              (pow_split (32 - k) k) in
          let wrapped = round_mod (2 ^ 32) (2 ^ k) (2 ^ (32 - k)) s whole (omega arith) in
          (
            rw (masked, low, and_not-mask k s, found) refl,
            rw (masked, and_not-mask k (s % 2 ^ 32), wrapped, found) refl,
          )
    ]
