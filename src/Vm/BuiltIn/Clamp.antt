-- ===== src/Vm/BuiltIn/Clamp.antt =====
-- `clampOrdered` of cova/vm.go at the integer types.
use ccova.Prelude.{ℕ, ◌≡◌, refl, ◌⊎◌, arith, true, false, some}
use ccova.Prelude.Int.{ℤ, pos, negsuc, ltb_ℤ}
use ccova.Word.{IntType, to_int, less, integers}
use ccova.Vm.BuiltIn.Number.{clamp_ordered}

ltb_ℤ-irrefl : (z : ℤ) → ltb_ℤ z z ≡ false
ltb_ℤ-irrefl (pos n) = ground arith
ltb_ℤ-irrefl (negsuc n) = ground arith

-- An integer is at most itself.
le_refl : (t : IntType) (x : ℕ) → (integers t).le x x ≡ true
unfolding less
le_refl t x = rw (ltb_ℤ-irrefl (to_int t x)) refl

-- Where `clampOrdered` of an integer type succeeds, its result is at least the low bound and
-- at most the high bound in the order of the type, and is one of the bounds or the value.
pub clamp_ordered-le :
    (t : IntType) (v low high r : ℕ)
    → clamp_ordered (integers t) v low high ≡ some r
    → ((integers t).le low r ≡ true)
      × ((integers t).le r high ≡ true)
      × ((r ≡ low) ⊎ ((r ≡ high) ⊎ (r ≡ v)))
unfolding clamp_ordered
clamp_ordered-le t v low high r h = ground (arith, le_refl t low, le_refl t high)
