-- ===== src/Optimize/Compare.antt =====
-- `optimizerCompare` of cova/optimize.go on the integer kinds against `compareOrdered` of cova/vm.go.
use native.Mathlib.Nat.{mod-eq_of_lt}
use ccova.Prelude.{
  ℕ, ◌*◌, ◌%◌, ◌^◌, ◌≤◌, ◌<◌, ◌≡◌, refl, sym, ap, ◌∙◌, arith, inl, inr, not, Bool-cases, ◌==◌,
  ==_iff, eq→==,
}
use ccova.Status.{value}
use ccova.Kind.{CompareOp}
use ccova.Floats.{Floats}
use ccova.Word.{IntType, int, uint, integers, less, compare_ordered, modulus}
use ccova.Optimize.{BinaryOp, NumericKind, compare, compare_values, sign_extend}
use ccova.Optimize.Modular.{sign_extend-mod, to_signed-sign_extend}
use ccova.Optimize.Arithmetic.{IsKindOf}

pub data ComparesAs : BinaryOp → CompareOp → Type 0 where
  equal_op : ComparesAs BinaryOp.equal CompareOp.equal
  not_equal_op : ComparesAs BinaryOp.not_equal CompareOp.not_equal
  less_op : ComparesAs BinaryOp.less CompareOp.less
  less_equal_op : ComparesAs BinaryOp.less_equal CompareOp.less_equal
  greater_op : ComparesAs BinaryOp.greater CompareOp.greater
  greater_equal_op : ComparesAs BinaryOp.greater_equal CompareOp.greater_equal

module _ (n : ℕ) (small : 8 * n ≤ 64) where
  sign_extend-== :
      (x y : ℕ)
      → x < 2 ^ (8 * n)
      → y < 2 ^ (8 * n)
      → (sign_extend (8 * n) x == sign_extend (8 * n) y) ≡ (x == y)
  sign_extend-== x y x_below y_below =
      let a = sign_extend (8 * n) x in
      let b = sign_extend (8 * n) y in
      elim (Bool-cases (x == y)) [
        | inl e ↦ rw e (eq→== a b (ap (sign_extend (8 * n)) ((==_iff x y).0 e)))
        | inr e ↦ elim (Bool-cases (a == b)) [
          | inr f ↦ rw (e, f) refl
          | inl f ↦
              let same : x ≡ y =
                sym (sign_extend-mod (8 * n) small x x_below)
                ∙ ap (λ (t : ℕ). t % 2 ^ (8 * n)) ((==_iff a b).0 f)
                ∙ sign_extend-mod (8 * n) small y y_below in
              absurd (ground (arith, e, same))
        ]
      ]

  sign_extend-less :
      (x y : ℕ)
      → x < 2 ^ (8 * n)
      → y < 2 ^ (8 * n)
      → less (int 8) (sign_extend (8 * n) x) (sign_extend (8 * n) y) ≡ less (int n) x y
  unfolding less
  sign_extend-less x y x_below y_below =
      rw
        (
          to_signed-sign_extend (8 * n) small x x_below,
          to_signed-sign_extend (8 * n) small y y_below,
        )
        refl

  signed-compare :
      (x y : ℕ) {op : BinaryOp} {operator : CompareOp}
      → ComparesAs op operator
      → x < 2 ^ (8 * n)
      → y < 2 ^ (8 * n)
      → value (compare_values (integers (int 8)) op (sign_extend (8 * n) x) (sign_extend (8 * n) y))
        ≡ compare_ordered (integers (int n)) operator x y
  unfolding compare_values compare_ordered
  signed-compare x y equal_op hx hy = ap value (sign_extend-== x y hx hy)
  signed-compare x y not_equal_op hx hy = ap (λ b. value (not b)) (sign_extend-== x y hx hy)
  signed-compare x y less_op hx hy = ap value (sign_extend-less x y hx hy)
  signed-compare x y less_equal_op hx hy = ap (λ b. value (not b)) (sign_extend-less y x hy hx)
  signed-compare x y greater_op hx hy = ap value (sign_extend-less y x hy hx)
  signed-compare x y greater_equal_op hx hy = ap (λ b. value (not b)) (sign_extend-less x y hx hy)

unsigned-compare :
    (n : ℕ) (x y : ℕ) {op : BinaryOp} {operator : CompareOp}
    → ComparesAs op operator
    → value (compare_values (integers (uint 8)) op x y)
      ≡ compare_ordered (integers (uint n)) operator x y
unfolding compare_values compare_ordered less
unsigned-compare n x y equal_op = refl
unsigned-compare n x y not_equal_op = refl
unsigned-compare n x y less_op = refl
unsigned-compare n x y less_equal_op = refl
unsigned-compare n x y greater_op = refl
unsigned-compare n x y greater_equal_op = refl

whole-compare :
    (x y : ℕ) {op : BinaryOp} {operator : CompareOp}
    → ComparesAs op operator
    → value (compare_values (integers (int 8)) op x y)
      ≡ compare_ordered (integers (int 8)) operator x y
unfolding compare_values compare_ordered
whole-compare x y equal_op = refl
whole-compare x y not_equal_op = refl
whole-compare x y less_op = refl
whole-compare x y less_equal_op = refl
whole-compare x y greater_op = refl
whole-compare x y greater_equal_op = refl

cut-compare :
    (n : ℕ) (x y : ℕ) {op : BinaryOp} {operator : CompareOp}
    → ComparesAs op operator
    → x < 2 ^ (8 * n)
    → y < 2 ^ (8 * n)
    → value (compare_values (integers (uint 8)) op (x % 2 ^ (8 * n)) (y % 2 ^ (8 * n)))
      ≡ compare_ordered (integers (uint n)) operator x y
cut-compare n x y c x_below y_below =
    rw (mod-eq_of_lt x_below, mod-eq_of_lt y_below) (unsigned-compare n x y c)

-- On patterns of an integer kind, `optimizerCompare` gives what the machine's `compareOrdered`
-- gives for the type of the kind.
pub compare-compare_ordered :
    (floats : Floats) {kind : NumericKind} {t : IntType} {op : BinaryOp} {operator : CompareOp}
    (x y : ℕ)
    → IsKindOf kind t
    → ComparesAs op operator
    → x < modulus t
    → y < modulus t
    → value (compare floats kind op x y) ≡ compare_ordered (integers t) operator x y
unfolding compare
compare-compare_ordered floats x y IsKindOf.is_int8 c hx hy =
    signed-compare 1 (omega arith) x y c hx hy
compare-compare_ordered floats x y IsKindOf.is_int16 c hx hy =
    signed-compare 2 (omega arith) x y c hx hy
compare-compare_ordered floats x y IsKindOf.is_int32 c hx hy =
    signed-compare 4 (omega arith) x y c hx hy
compare-compare_ordered floats x y IsKindOf.is_int64 c hx hy = whole-compare x y c
compare-compare_ordered floats x y IsKindOf.is_uint8 c hx hy = cut-compare 1 x y c hx hy
compare-compare_ordered floats x y IsKindOf.is_uint16 c hx hy = cut-compare 2 x y c hx hy
compare-compare_ordered floats x y IsKindOf.is_uint32 c hx hy = cut-compare 4 x y c hx hy
compare-compare_ordered floats x y IsKindOf.is_uint64 c hx hy = unsigned-compare 8 x y c
