-- ===== src/Vm/BuiltIn/Saturate.antt =====
-- `saturatingAddUint64` of cova/vm.go.
use ccova.Prelude.{ℕ, ◌+◌, ◌-◌, ◌^◌, ◌<◌, ◌≡◌, arith, min}
use ccova.Vm.BuiltIn.Timer.{saturating_add_uint64}

-- `saturatingAddUint64` of a 64-bit number and another number is their sum or the largest
-- 64-bit number, whichever is less.
pub saturating_add_uint64-min :
    (left right : ℕ)
    → left < 2 ^ 64
    → saturating_add_uint64 left right ≡ min (left + right) (2 ^ 64 - 1)
unfolding saturating_add_uint64
saturating_add_uint64-min left right h = ground arith
