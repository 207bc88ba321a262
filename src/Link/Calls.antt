-- ===== src/Link/Calls.antt =====
-- The loop of cova/link.go over the calls, and what `Link` as a whole makes.
use ccova.Prelude.{
  ℕ, ◌+◌, ◌%◌, ◌^◌, ◌≤◌, ◌<◌, ◌≡◌, sym, ap, ◌∙◌, arith, ◌⊎◌, List, [], ◌∷◌, Option, none, some, All,
  All-impl, length,
}
use ccova.Prelude.Checked.{
  accepted, ◌>>=◌, bind-eq-accepted, accepted_injective, rejected-ne_accepted,
}
use ccova.Status.{value}
use ccova.Segment.{Bytes}
use ccova.Code.{patch_uint32, read_checked, read_uint32_checked}
use ccova.Code.Laws.{patched-IsPatchedAt}
use ccova.Link.{CallPatch, LinkError, function_index, or_out_of_range, patch_calls}

-- A word of n bytes at p does not overlap the operand of a call.
abbrev pub IsApartFrom : ℕ → ℕ → CallPatch → Type 0
IsApartFrom p n patch = (p + n ≤ patch.operand_pos) ⊎ (patch.operand_pos + 4 ≤ p)

-- No two operands overlap.
abbrev pub AreApart : List CallPatch → Type 0
AreApart [] = Unit
AreApart (patch ∷ patches) = All (IsApartFrom patch.operand_pos 4) patches × AreApart patches

-- An operand lies within a text.
abbrev pub IsInside : Bytes → CallPatch → Type 0
IsInside text patch = patch.operand_pos + 4 ≤ length text

-- The operand of a call reads the index of its function.
abbrev pub IsPatched : List (ℕ × ℕ) → Bytes → CallPatch → Type 0
IsPatched map text patch =
    (index : ℕ) × (function_index map patch.temp_func_id LinkError.unresolved_function
      ≡ accepted index)
    × (read_uint32_checked text patch.operand_pos ≡ value (index % 2 ^ 32, patch.operand_pos + 4))

or_out_of_range-accepted :
    (m : Option Bytes) {text : Bytes} → or_out_of_range m ≡ accepted text → m ≡ some text
or_out_of_range-accepted none h = absurd (rejected-ne_accepted h)
or_out_of_range-accepted (some text) h = ap some (accepted_injective h)

pub patch_calls-IsPatched :
    (spare : ℕ) (map : List (ℕ × ℕ)) (patches : List CallPatch) (text : Bytes) {patched : Bytes}
    → length text < 2 ^ 32
    → All (IsInside text) patches
    → AreApart patches
    → patch_calls spare map patches text ≡ accepted patched
    → (length patched ≡ length text)
      × All (IsPatched map patched) patches
      × ((n p : ℕ)
          → All (IsApartFrom p n) patches
          → read_checked n patched p ≡ read_checked n text p)
unfolding patch_calls read_uint32_checked
patch_calls-IsPatched spare map [] text {patched} small inside apart h =
    let same = accepted_injective h in
    (sym (ap length same), tt, λ n p _. ap (λ t. read_checked n t p) (sym same))
patch_calls-IsPatched spare map (patch ∷ patches) text {patched} small inside apart h =
    let (index, found, more) =
      bind-eq-accepted (function_index map patch.temp_func_id LinkError.unresolved_function)
        (λ index.
          or_out_of_range (patch_uint32 spare patch.operand_pos (index % 2 ^ 32) text)
          >>= patch_calls spare map patches)
        h in
    let (first, written, rest) =
      bind-eq-accepted
        (or_out_of_range (patch_uint32 spare patch.operand_pos (index % 2 ^ 32) text))
        (patch_calls spare map patches) more in
    let (kept, reads, others) =
      patched-IsPatchedAt spare patch.operand_pos (index % 2 ^ 32) text first inside.0 (omega arith)
        small
        (or_out_of_range-accepted (patch_uint32 spare patch.operand_pos (index % 2 ^ 32) text)
          written) in
    let (kept_more, patched_more, others_more) =
      patch_calls-IsPatched spare map patches first (omega (arith, kept))
        (All-impl (IsInside text) (IsInside first) patches (λ p fits. omega (arith, kept, fits))
          inside.1)
        apart.1 rest in
    (
      kept_more ∙ kept,
      ((index, found, others_more 4 patch.operand_pos apart.0 ∙ reads), patched_more),
      λ n p away. others_more n p away.1 ∙ others n p away.0,
    )
