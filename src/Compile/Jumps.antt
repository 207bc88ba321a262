-- ===== src/Compile/Jumps.antt =====
-- The loop of `assembleFunctionBlocks` (cova/compile.go) over the jump operands of a block.
use ccova.Prelude.{
  ℕ, ◌+◌, ◌-◌, ◌%◌, ◌^◌, ◌≤◌, ◌<◌, ◌≡◌, sym, ap, ◌∙◌, arith, ◌⊎◌, List, [], ◌∷◌, Option, none, some,
  All, length, ltb, refl, false, inl, inr,
}
use ccova.Prelude.Checked.{
  Checked, accepted, ◌>>=◌, reject_if, reject_if-then, bind-eq-accepted, accepted_injective,
  rejected-ne_accepted,
}
use ccova.Status.{value}
use ccova.Segment.{Bytes}
use ccova.Code.{patch_uint32, read_checked, read_uint32_checked}
use ccova.Code.Laws.{patched-IsPatchedAt}
use ccova.Compile.{CompileError, or_out_of_range, target_at, relocate_jumps}

-- A word of n bytes at p does not overlap a jump operand.
abbrev pub IsApartFrom : ℕ → ℕ → ℕ → Type 0
IsApartFrom p n position = (p + n ≤ position) ⊎ (position + 4 ≤ p)

abbrev pub AreApart : List ℕ → Type 0
AreApart [] = Unit
AreApart (position ∷ positions) = All (IsApartFrom position 4) positions × AreApart positions

-- The operand at a position reads what it was, moved by the base.
abbrev pub IsMoved : ℕ → Bytes → Bytes → ℕ → Type 0
IsMoved base code moved position =
    (target : ℕ) × (read_uint32_checked code position ≡ value (target, position + 4))
    × (read_uint32_checked moved position ≡ value (target + base, position + 4))

pub accepted_patch :
    (m : Option Bytes) {code : Bytes} → or_out_of_range m ≡ accepted code → m ≡ some code
accepted_patch none h = absurd (rejected-ne_accepted h)
accepted_patch (some code) h = ap some (accepted_injective h)

read-target_at :
    (position : ℕ) (code : Bytes)
    → position + 4 ≤ length code
    → length code < 2 ^ 32
    → read_uint32_checked code position ≡ value (target_at position code, position + 4)
unfolding read_uint32_checked
read-target_at position code fits small =
    let inside : ltb (length code) (position + 4) ≡ false = ground (arith, fits) in
    let here : position % 2 ^ 32 ≡ position = omega (arith, fits, small) in
    let behind : (position + 4) % 2 ^ 32 ≡ position + 4 = omega (arith, fits, small) in
    rw (inside, here, behind) refl

All-both :
    {P Q R : ℕ → Type 0} (ps : List ℕ)
    → ((p : ℕ) → P p → Q p → R p)
    → All P ps
    → All Q ps
    → All R ps
All-both [] f g h = tt
All-both (p ∷ ps) f g h = (f p g.0 h.0, All-both ps f g.1 h.1)

swapped : (position p : ℕ) → IsApartFrom position 4 p → IsApartFrom p 4 position
swapped position p (inl before) = inr before
swapped position p (inr behind) = inl behind

-- Where the jump targets of a block of less than 2 ^ 32 bytes, at operands that do not
-- overlap, are moved by a base: the code keeps its length, every operand reads, by the
-- machine's checked read, the old target plus the base, and all that the operands do not
-- overlap reads as before.
pub relocate_jumps_lem :
    (spare base : ℕ) (positions : List ℕ) (code : Bytes) {moved : Bytes}
    → length code < 2 ^ 32
    → AreApart positions
    → relocate_jumps spare base positions code ≡ accepted moved
    → (length moved ≡ length code)
      × All (IsMoved base code moved) positions
      × ((n p : ℕ)
          → All (IsApartFrom p n) positions
          → read_checked n moved p ≡ read_checked n code p)
unfolding relocate_jumps read_uint32_checked
relocate_jumps_lem spare base [] code {moved} small apart h =
    let same = accepted_injective h in
    (sym (ap length same), tt, λ n p _. ap (λ t. read_checked n t p) (sym same))
relocate_jumps_lem spare base (position ∷ positions) code {moved} small apart h =
    let new = target_at position code + base in
    let outside = ltb (length code) (position + 4) in
    let large = ltb (2 ^ 32 - 1) new in
    let patched = or_out_of_range (patch_uint32 spare position new code) in
    let after : Checked CompileError Bytes = patched >>= relocate_jumps spare base positions in
    let (inside, more) =
      reject_if-then outside CompileError.invalid_jump_operand
        (reject_if large CompileError.jump_target_outside_uint32 >>= λ _. after) h in
    let (fits, rest) = reject_if-then large CompileError.jump_target_outside_uint32 after more in
    let (first, written, last) =
      bind-eq-accepted patched (relocate_jumps spare base positions) rest in
    let (kept, reads, others) =
      patched-IsPatchedAt spare position new code first (ground (arith, inside))
        (ground (arith, fits)) small
        (accepted_patch (patch_uint32 spare position new code) written) in
    let (kept_more, moved_more, others_more) =
      relocate_jumps_lem spare base positions first (omega (arith, kept, small)) apart.1 last in
    let old = read-target_at position code (ground (arith, inside)) small in
    let here : IsMoved base code moved position =
      (target_at position code, old, others_more 4 position apart.0 ∙ reads) in
    (
      kept_more ∙ kept,
      (
        here,
        All-both positions
            (λ p away is. (is.0, sym (others 4 p (swapped position p away)) ∙ is.1, is.2)) apart.0
            moved_more,
      ),
      λ n p away. others_more n p away.1 ∙ others n p away.0,
    )
