-- ===== src/Optimize/Literals.antt =====
-- Two literals folded to a literal (cova/optimize.go): its bits are the machine's result.
use native.Mathlib.Nat.{mod-lt}
use ccova.Prelude.{ℕ, ◌^◌, ◌<◌, ◌≡◌, refl, sym, ap, ◌∙◌, subst, arith, false}
use ccova.Prelude.Bits.{bit_and-mask}
use ccova.Prelude.Checked.{accepted, accepted_injective, bind-eq-accepted}
use ccova.Status.{value}
use ccova.Kind.{ArithmeticOp}
use ccova.Floats.{Floats}
use ccova.Word.{IntType, int, modulus, integer_arithmetic}
use ccova.Optimize.{
  BinaryOp, NumericKind, NumberLiteral, literal_bits, literal_from_bits, int_to_bits,
  signed_or_unsigned_value, sign_extend, arithmetic, arithmetic_value, signed_arithmetic,
  unsigned_arithmetic, unsigned_value, operate, is_comparison, check_divisor, is_zero,
  fold_literals,
}
use ccova.Optimize.Modular.{sign_extend-mod}
use ccova.Optimize.Agree.{Corresponds, as_result}
use ccova.Optimize.Arithmetic.{IsKindOf, arithmetic-integer_arithmetic}

-- A literal made of the bits of an integer kind has these bits.
literal_bits-literal_from_bits :
    (floats : Floats) {kind : NumericKind} {t : IntType} (bits line : ℕ)
    → IsKindOf kind t
    → bits < modulus t
    → literal_bits floats (literal_from_bits floats bits kind line) kind ≡ bits
unfolding literal_bits literal_from_bits int_to_bits signed_or_unsigned_value
literal_bits-literal_from_bits floats bits line IsKindOf.is_int8 h =
    sign_extend-mod 8 (omega arith) bits h
literal_bits-literal_from_bits floats bits line IsKindOf.is_int16 h =
    sign_extend-mod 16 (omega arith) bits h
literal_bits-literal_from_bits floats bits line IsKindOf.is_int32 h =
    sign_extend-mod 32 (omega arith) bits h
literal_bits-literal_from_bits floats bits line IsKindOf.is_int64 h = refl
literal_bits-literal_from_bits floats bits line IsKindOf.is_uint8 h = omega arith
literal_bits-literal_from_bits floats bits line IsKindOf.is_uint16 h = omega arith
literal_bits-literal_from_bits floats bits line IsKindOf.is_uint32 h = omega arith
literal_bits-literal_from_bits floats bits line IsKindOf.is_uint64 h = refl

-- The values of an integer kind survive being made a literal.
value_kept :
    (floats : Floats) {kind : NumericKind} {t : IntType} (op : BinaryOp) (x y line : ℕ)
    → IsKindOf kind t
    → literal_bits floats
        (literal_from_bits floats (arithmetic_value floats kind op x y) kind line)
        kind
      ≡ arithmetic_value floats kind op x y
unfolding literal_bits literal_from_bits int_to_bits arithmetic_value signed_arithmetic
    unsigned_arithmetic unsigned_value signed_or_unsigned_value
value_kept floats op x y line IsKindOf.is_int8 = sign_extend-mod 8 (omega arith) _ (
    rw (bit_and-mask 8 (operate (int 8) op (sign_extend 8 x) (sign_extend 8 y) 8))
      (mod-lt _ {m = 2 ^ 8} (omega arith)))
value_kept floats op x y line IsKindOf.is_int16 = sign_extend-mod 16 (omega arith) _ (
    rw (bit_and-mask 16 (operate (int 8) op (sign_extend 16 x) (sign_extend 16 y) 16))
      (mod-lt _ {m = 2 ^ 16} (omega arith)))
value_kept floats op x y line IsKindOf.is_int32 = sign_extend-mod 32 (omega arith) _ (
    rw (bit_and-mask 32 (operate (int 8) op (sign_extend 32 x) (sign_extend 32 y) 32))
      (mod-lt _ {m = 2 ^ 32} (omega arith)))
value_kept floats op x y line IsKindOf.is_int64 = refl
value_kept floats op x y line IsKindOf.is_uint8 = omega arith
value_kept floats op x y line IsKindOf.is_uint16 = omega arith
value_kept floats op x y line IsKindOf.is_uint32 = omega arith
value_kept floats op x y line IsKindOf.is_uint64 = refl

not_comparison :
    {op : BinaryOp} {operator : ArithmeticOp} → Corresponds op operator → is_comparison op ≡ false
not_comparison Corresponds.add_op = refl
not_comparison Corresponds.sub_op = refl
not_comparison Corresponds.mul_op = refl
not_comparison Corresponds.div_op = refl
not_comparison Corresponds.modulo_op = refl
not_comparison Corresponds.and_op = refl
not_comparison Corresponds.or_op = refl
not_comparison Corresponds.xor_op = refl
not_comparison Corresponds.left_op = refl
not_comparison Corresponds.right_op = refl

-- Where two literals whose bits fit in an integer kind are folded by an arithmetic operator,
-- the machine's arithmetic on their bits, in the width of the kind, succeeds with the bits of
-- the folded literal.
pub fold_literals-integer_arithmetic :
    (floats : Floats) {kind : NumericKind} {t : IntType} {op : BinaryOp} {operator : ArithmeticOp}
    (left right result : NumberLiteral) (line : ℕ)
    → IsKindOf kind t
    → Corresponds op operator
    → literal_bits floats left kind < modulus t
    → literal_bits floats right kind < modulus t
    → fold_literals floats op kind left right line ≡ accepted result
    → integer_arithmetic t operator (literal_bits floats left kind) (literal_bits floats right kind)
      ≡ value (literal_bits floats result kind)
unfolding fold_literals arithmetic
fold_literals-integer_arithmetic floats {kind} {t} {op} left right result line k c hx hy h =
    let x = literal_bits floats left kind in
    let y = literal_bits floats right kind in
    let agree = arithmetic-integer_arithmetic floats x y k c hx hy in
    let (bits, computed, same) =
      bind-eq-accepted (arithmetic floats kind op x y)
        (λ bits. accepted (literal_from_bits floats bits kind line)) (rw (not_comparison c) at h) in
    let (unit, checked, made) =
      bind-eq-accepted (check_divisor op (is_zero floats kind y))
        (λ _. accepted (arithmetic_value floats kind op x y)) computed in
    let kept =
      subst (λ v. literal_bits floats (literal_from_bits floats v kind line) kind ≡ v)
        (accepted_injective made) (value_kept floats op x y line k) in
    sym agree
    ∙ ap as_result computed
    ∙ ap value (sym kept ∙ ap (λ l. literal_bits floats l kind) (accepted_injective same))
