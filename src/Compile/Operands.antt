-- ===== src/Compile/Operands.antt =====
-- The operands of the calls that `assembleFunctionBlocks` (cova/compile.go) hands to the linker.
use mathlib.Core.Option.{some-injective}
use ccova.Prelude.{
  ℕ, ◌+◌, ◌-◌, ◌^◌, ◌≤◌, ◌≡◌, sym, ap, ◌∙◌, arith, ◌⊎◌, inl, inr, Bool-cases, List, [], ◌∷◌, ◌++◌,
  All, All-impl, All-append, length, length-append, ltb, subst,
}
use ccova.Prelude.Checked.{
  Checked, accepted, ◌>>=◌, reject_if, reject_if-then, bind-eq-accepted, accepted_injective,
}
use Prim.Native.String.{String}
use ccova.Segment.{Bytes, put_uint, overwrite}
use ccova.Segment.Laws.{length-put_uint}
use ccova.Segment.Windows.{length-overwrite}
use ccova.Code.{patch_uint32, clone_spare}
use ccova.Code.Laws.{patch_inside}
use ccova.Link.{SymbolBinding, CallPatch}
use ccova.Link.Calls.{IsInside, IsApartFrom, AreApart}
use ccova.Compile.{
  CompiledFunctionBlock, CompileError, Assembled, or_out_of_range, target_at, relocate_jumps,
  move_patches, with_block, assemble_block, assemble_blocks, assemble_function_blocks, is_visited,
}
use ccova.Compile.Jumps.{accepted_patch}
use ccova.Compile.Blocks.{assemble_block-IsAssembled}

length-relocate_jumps :
    (spare base : ℕ) (positions : List ℕ) (code moved : Bytes)
    → relocate_jumps spare base positions code ≡ accepted moved
    → length moved ≡ length code
unfolding relocate_jumps
length-relocate_jumps spare base [] code moved h = sym (ap length (accepted_injective h))
length-relocate_jumps spare base (position ∷ positions) code moved h =
    let new = target_at position code + base in
    let large = ltb (2 ^ 32 - 1) new in
    let patched = or_out_of_range (patch_uint32 spare position new code) in
    let after : Checked CompileError Bytes = patched >>= relocate_jumps spare base positions in
    let (inside, more) =
      reject_if-then (ltb (length code) (position + 4)) CompileError.invalid_jump_operand
        (reject_if large CompileError.jump_target_outside_uint32 >>= λ _. after) h in
    let (fits, rest) = reject_if-then large CompileError.jump_target_outside_uint32 after more in
    let (first, written, last) =
      bind-eq-accepted patched (relocate_jumps spare base positions) rest in
    let within : position + 4 ≤ length code = ground (arith, inside) in
    let same : overwrite position (put_uint 4 new) code ≡ first = some-injective _ _ (
      sym (patch_inside spare position new code within)
      ∙ accepted_patch (patch_uint32 spare position new code) written) in
    let kept =
      length-overwrite position (put_uint 4 new) code
        (omega (arith, length-put_uint 4 new, within)) in
    length-relocate_jumps spare base positions first moved last ∙ ap length (sym same) ∙ kept

-- An operand that lies behind an address.
abbrev IsBehind : ℕ → CallPatch → Type 0
IsBehind address patch = address ≤ patch.operand_pos

move_patches-IsInside :
    (code text : Bytes) (base : ℕ) (patches : List CallPatch)
    → length text ≡ base + length code
    → All (IsInside code) patches
    → All (IsInside text) (move_patches base patches)
unfolding move_patches
move_patches-IsInside code text base [] total h = tt
move_patches-IsInside code text base (p ∷ ps) total h =
    (omega (arith, total, h.0), move_patches-IsInside code text base ps total h.1)

move_patches-IsBehind :
    (base : ℕ) (patches : List CallPatch) → All (IsBehind base) (move_patches base patches)
unfolding move_patches
move_patches-IsBehind base [] = tt
move_patches-IsBehind base (p ∷ ps) = (omega arith, move_patches-IsBehind base ps)

move_patches-IsApartFrom :
    (base p : ℕ) (patches : List CallPatch)
    → All (IsApartFrom p 4) patches
    → All (IsApartFrom (p + base) 4) (move_patches base patches)
unfolding move_patches
move_patches-IsApartFrom base p [] h = tt
move_patches-IsApartFrom base p (q ∷ qs) h =
    let away : (p + base + 4 ≤ q.operand_pos + base) ⊎ (q.operand_pos + base + 4 ≤ p + base) =
      elim h.0 [
        | inl before ↦ inl (omega (arith, before))
        | inr behind ↦ inr (omega (arith, behind))
      ] in
    (away, move_patches-IsApartFrom base p qs h.1)

move_patches-AreApart :
    (base : ℕ) (patches : List CallPatch) → AreApart patches → AreApart (move_patches base patches)
unfolding move_patches
move_patches-AreApart base [] h = tt
move_patches-AreApart base (p ∷ ps) h =
    (move_patches-IsApartFrom base p.operand_pos ps h.0, move_patches-AreApart base ps h.1)

AreApart-append :
    (text : Bytes) (xs ys : List CallPatch)
    → All (IsInside text) xs
    → All (IsBehind (length text)) ys
    → AreApart xs
    → AreApart ys
    → AreApart (xs ++ ys)
AreApart-append text [] ys inside behind xs_apart ys_apart = ys_apart
AreApart-append text (x ∷ xs) ys inside behind xs_apart ys_apart = (
  All-append (IsApartFrom x.operand_pos 4) xs ys xs_apart.0 (
      All-impl (IsBehind (length text)) (IsApartFrom x.operand_pos 4) ys
        (λ y b. inl (omega (arith, b, inside.0))) behind),
  AreApart-append text xs ys inside.1 behind xs_apart.1 ys_apart,
)

-- Calls whose operands lie within code and do not overlap.
abbrev pub AreOperands : Bytes → List CallPatch → Type 0
AreOperands code patches = All (IsInside code) patches × AreApart patches

with_block-AreOperands :
    (block : CompiledFunctionBlock) (a : Assembled) (body : Bytes)
    → length body ≡ length block.code
    → AreOperands block.code block.call_patches
    → AreOperands a.code a.call_patches
    → AreOperands (with_block block a body).code (with_block block a body).call_patches
with_block-AreOperands block a body same of_block h =
    let base = length a.code in
    let text = a.code ++ body in
    let total = length-append a.code body in
    (
      All-append (IsInside text) a.call_patches (move_patches base block.call_patches)
          (All-impl (IsInside a.code) (IsInside text) a.call_patches
            (λ p inside. omega (arith, total, inside)) h.0)
          (move_patches-IsInside block.code text base block.call_patches
            (omega (arith, total, same)) of_block.0),
      AreApart-append a.code a.call_patches (move_patches base block.call_patches) h.0
          (move_patches-IsBehind base block.call_patches) h.1
          (move_patches-AreApart base block.call_patches of_block.1),
    )

module _ (spare : ℕ → ℕ) where
  assemble_blocks-AreOperands :
      (blocks : List CompiledFunctionBlock) (a f : Assembled)
      → All (λ block. AreOperands block.code block.call_patches) blocks
      → AreOperands a.code a.call_patches
      → assemble_blocks spare blocks a ≡ accepted f
      → AreOperands f.code f.call_patches
  unfolding assemble_blocks
  assemble_blocks-AreOperands [] a f of_blocks h e =
      subst (λ (b : Assembled). AreOperands b.code b.call_patches) (accepted_injective e) h
  assemble_blocks-AreOperands (block ∷ blocks) a f of_blocks h e =
      elim (Bool-cases (is_visited block.call_graph_state)) [
        | inr skipped ↦ assemble_blocks-AreOperands blocks a f of_blocks.1 h (rw skipped at e)
        | inl visited ↦
            let (b, first, rest) =
              bind-eq-accepted (assemble_block spare block a) (assemble_blocks spare blocks)
                (rw visited at e) in
            let is = assemble_block-IsAssembled spare block a b first in
            let same =
              length-relocate_jumps (clone_spare spare block.code) (length a.code)
                block.jump_operand_positions block.code is.body is.body_same in
            assemble_blocks-AreOperands blocks b f of_blocks.1
              (subst (λ (c : Assembled). AreOperands c.code c.call_patches) is.same
                (with_block-AreOperands block a is.body same of_blocks.0 h))
              rest
      ]

  -- Where `assembleFunctionBlocks` succeeds on blocks each of which has call operands that lie
  -- within its own code and do not overlap, the operands of all calls of the program lie
  -- within the program's code and do not overlap, as the linker needs.
  pub assemble_function_blocks-AreOperands :
      (functions : List SymbolBinding) (bindings : List (String × SymbolBinding))
      (blocks : List CompiledFunctionBlock) (f : Assembled)
      → All (λ block. AreOperands block.code block.call_patches) blocks
      → assemble_function_blocks spare functions bindings blocks ≡ accepted f
      → AreOperands f.code f.call_patches
  unfolding assemble_function_blocks
  assemble_function_blocks-AreOperands functions bindings blocks f of_blocks h =
      assemble_blocks-AreOperands blocks _ f of_blocks (tt, tt) h
