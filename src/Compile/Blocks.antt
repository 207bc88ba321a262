-- ===== src/Compile/Blocks.antt =====
-- The loop of `assembleFunctionBlocks` (cova/compile.go) over the blocks: where each of them stands.
use mathlib.Core.List.{append-nil, append_assoc}
use ccova.Prelude.{
  ℕ, ◌+◌, ◌≤◌, All, ◌-◌, ◌^◌, ◌<◌, ◌≡◌, refl, sym, ap, ◌∙◌, arith, inl, inr, true, Bool-cases, List,
  [], ◌∷◌, ◌++◌, length, ltb, subst,
}
use ccova.Prelude.Checked.{accepted, ◌>>=◌, reject_if-then, bind-eq-accepted, accepted_injective}
use Prim.Native.String.{String}
use ccova.Segment.{Bytes}
use ccova.Code.{clone_spare, read_checked}
use ccova.Link.{SymbolBinding, CallPatch}
use ccova.Compile.Jumps.{IsApartFrom, AreApart, IsMoved, relocate_jumps_lem}
use ccova.Compile.{
  greater, CompiledFunctionBlock, CompileError, Assembled, relocate_jumps, move_patches,
  placed_binding, with_block, assemble_block, assemble_blocks, assemble_function_blocks, is_visited,
}

-- What later blocks add.
record IsExtended (few many : Assembled) : Type 0 where
  code : Bytes
  call_patches : List CallPatch
  functions : List SymbolBinding
  code_same : many.code ≡ few.code ++ code
  call_patches_same : many.call_patches ≡ few.call_patches ++ call_patches
  functions_same : many.functions ≡ few.functions ++ functions
  slots : few.max_local_slots ≤ many.max_local_slots
  frame_bytes : few.max_frame_byte_size ≤ many.max_frame_byte_size

-- The same calls, at operands that are moved by a base.
abbrev pub AreMovedBy : ℕ → List CallPatch → List CallPatch → Type 0
AreMovedBy base [] [] = Unit
AreMovedBy base [] (q ∷ qs) = ⊥
AreMovedBy base (p ∷ ps) [] = ⊥
AreMovedBy base (p ∷ ps) (q ∷ qs) =
    (q.operand_pos ≡ base + p.operand_pos)
    × (q.temp_func_id ≡ p.temp_func_id)
    × (q.line ≡ p.line)
    × AreMovedBy base ps qs

-- A block stands in the code at a 32-bit address, with its jump targets moved to there and unchanged
-- beside them; its function is among the functions, the same but for this address, and its calls
-- among the calls, moved to there; and the program's frames are large enough for it.
pub record IsPlaced (assembled : Assembled) (block : CompiledFunctionBlock) : Type 0 where
  pub before : Bytes
  pub body : Bytes
  pub behind : Bytes
  pub code_same : assembled.code ≡ before ++ (body ++ behind)
  pub address : length before < 2 ^ 32
  pub length_same : length body ≡ length block.code
  pub jumps : All (IsMoved (length before) block.code body) block.jump_operand_positions
  pub elsewhere :
      (n p : ℕ)
      → All (IsApartFrom p n) block.jump_operand_positions
      → read_checked n body p ≡ read_checked n block.code p
  pub function : SymbolBinding
  pub earlier_functions : List SymbolBinding
  pub later_functions : List SymbolBinding
  pub functions_same : assembled.functions ≡ earlier_functions ++ (function ∷ later_functions)
  pub function_address : function.script_address ≡ length before
  pub function_same :
      record function { script_address = block.binding.script_address } ≡ block.binding
  pub patches : List CallPatch
  pub earlier_patches : List CallPatch
  pub later_patches : List CallPatch
  pub patches_same : assembled.call_patches ≡ earlier_patches ++ (patches ++ later_patches)
  pub patches_moved : AreMovedBy (length before) block.call_patches patches
  pub slots : block.binding.frame_slot_count ≤ assembled.max_local_slots
  pub frame_bytes : block.binding.frame_byte_size ≤ assembled.max_frame_byte_size

move_patches-AreMovedBy :
    (base : ℕ) (patches : List CallPatch) → AreMovedBy base patches (move_patches base patches)
unfolding move_patches
move_patches-AreMovedBy base [] = tt
move_patches-AreMovedBy base (p ∷ ps) = (omega arith, refl, refl, move_patches-AreMovedBy base ps)

le_greater : (new old : ℕ) → (new ≤ greater new old) × (old ≤ greater new old)
le_greater new old = ground arith

IsExtended-refl : (a : Assembled) → IsExtended a a
IsExtended-refl a = record {
  code = [];
  call_patches = [];
  functions = [];
  code_same = sym (append-nil a.code);
  call_patches_same = sym (append-nil a.call_patches);
  functions_same = sym (append-nil a.functions);
  slots = omega arith;
  frame_bytes = omega arith;
}

longer {ℓ} : {A : Type ℓ} (a b c d e : List A) → e ≡ (a ++ b) ++ c → d ≡ b ++ c → e ≡ a ++ d
longer a b c d e h k = h ∙ append_assoc a b c ∙ ap (◌++◌ a) (sym k)

with_block-IsExtended :
    (block : CompiledFunctionBlock) (a f : Assembled) (body : Bytes)
    → IsExtended (with_block block a body) f
    → IsExtended a f
with_block-IsExtended block a f body is = record {
  code = body ++ is.code;
  call_patches = move_patches (length a.code) block.call_patches ++ is.call_patches;
  functions = placed_binding (length a.code) block.binding ∷ is.functions;
  code_same = longer a.code body is.code (body ++ is.code) f.code is.code_same refl;
  call_patches_same =
      longer a.call_patches (move_patches (length a.code) block.call_patches) is.call_patches
        (move_patches (length a.code) block.call_patches ++ is.call_patches) f.call_patches
        is.call_patches_same refl;
  functions_same =
      longer a.functions (placed_binding (length a.code) block.binding ∷ []) is.functions
        (placed_binding (length a.code) block.binding ∷ is.functions) f.functions is.functions_same
        refl;
  slots = omega (arith, is.slots, le_greater block.binding.frame_slot_count a.max_local_slots);
  frame_bytes =
      omega (arith, is.frame_bytes, le_greater block.binding.frame_byte_size a.max_frame_byte_size);
}

module _ (spare : ℕ → ℕ) where
  -- What the body of the loop does with a block.
  pub record IsAssembled (block : CompiledFunctionBlock) (a b : Assembled) : Type 0 where
    pub body : Bytes
    pub body_same :
        relocate_jumps
          (clone_spare spare block.code)
          (length a.code)
          block.jump_operand_positions
          block.code
        ≡ accepted body
    pub address : length a.code < 2 ^ 32
    pub same : with_block block a body ≡ b

  pub assemble_block-IsAssembled :
      (block : CompiledFunctionBlock) (a b : Assembled)
      → assemble_block spare block a ≡ accepted b
      → IsAssembled block a b
  unfolding assemble_block
  assemble_block-IsAssembled block a b h =
      let jumps =
        relocate_jumps (clone_spare spare block.code) (length a.code) block.jump_operand_positions
          block.code in
      let large = ltb (2 ^ 32 - 1) (length a.code) in
      let (fits, more) =
        reject_if-then large CompileError.code_address_outside_uint32
          (jumps >>= λ code. accepted (with_block block a code)) h in
      let (body, moved, same) =
        bind-eq-accepted jumps (λ code. accepted (with_block block a code)) more in
      record {
        body = body;
        body_same = moved;
        address = ground (arith, fits);
        same = accepted_injective same;
      }

  assemble_blocks-IsExtended :
      (blocks : List CompiledFunctionBlock) (a f : Assembled)
      → assemble_blocks spare blocks a ≡ accepted f
      → IsExtended a f
  unfolding assemble_blocks
  assemble_blocks-IsExtended [] a f h =
      subst (IsExtended a) (accepted_injective h) (IsExtended-refl a)
  assemble_blocks-IsExtended (block ∷ blocks) a f h =
      elim (Bool-cases (is_visited block.call_graph_state)) [
        | inr e ↦ assemble_blocks-IsExtended blocks a f (rw e at h)
        | inl e ↦
            let (b, first, rest) =
              bind-eq-accepted (assemble_block spare block a) (assemble_blocks spare blocks)
                (rw e at h) in
            let is = assemble_block-IsAssembled block a b first in
            with_block-IsExtended block a f is.body (
              subst (λ (c : Assembled). IsExtended c f) (sym is.same)
                (assemble_blocks-IsExtended blocks b f rest))
      ]

  with_block-IsPlaced :
      (block : CompiledFunctionBlock) (a f : Assembled) (body : Bytes)
      → length block.code < 2 ^ 32
      → AreApart block.jump_operand_positions
      → relocate_jumps
          (clone_spare spare block.code)
          (length a.code)
          block.jump_operand_positions
          block.code
        ≡ accepted body
      → length a.code < 2 ^ 32
      → IsExtended (with_block block a body) f
      → IsPlaced f block
  with_block-IsPlaced block a f body small apart moved address more =
      let (same, jumps, elsewhere) =
        relocate_jumps_lem (clone_spare spare block.code) (length a.code)
          block.jump_operand_positions block.code small apart moved in
      let function = placed_binding (length a.code) block.binding in
      let patches = move_patches (length a.code) block.call_patches in
      record {
        before = a.code;
        body = body;
        behind = more.code;
        code_same = longer a.code body more.code (body ++ more.code) f.code more.code_same refl;
        address = address;
        length_same = same;
        jumps = jumps;
        elsewhere = elsewhere;
        function = function;
        earlier_functions = a.functions;
        later_functions = more.functions;
        functions_same =
            longer a.functions (function ∷ []) more.functions (function ∷ more.functions)
              f.functions more.functions_same refl;
        function_address = refl;
        function_same = refl;
        patches = patches;
        earlier_patches = a.call_patches;
        later_patches = more.call_patches;
        patches_same =
            longer a.call_patches patches more.call_patches (patches ++ more.call_patches)
              f.call_patches more.call_patches_same refl;
        patches_moved = move_patches-AreMovedBy (length a.code) block.call_patches;
        slots =
            omega (arith, more.slots, le_greater block.binding.frame_slot_count a.max_local_slots);
        frame_bytes = omega (
          arith,
          more.frame_bytes,
          le_greater block.binding.frame_byte_size a.max_frame_byte_size,
        );
      }

  pub assemble_blocks-IsPlaced :
      (earlier later : List CompiledFunctionBlock) (block : CompiledFunctionBlock) (a f : Assembled)
      → is_visited block.call_graph_state ≡ true
      → length block.code < 2 ^ 32
      → AreApart block.jump_operand_positions
      → assemble_blocks spare (earlier ++ (block ∷ later)) a ≡ accepted f
      → IsPlaced f block
  unfolding assemble_blocks
  assemble_blocks-IsPlaced [] later block a f visited small apart h =
      let (b, first, rest) =
        bind-eq-accepted (assemble_block spare block a) (assemble_blocks spare later)
          (rw visited at h) in
      let is = assemble_block-IsAssembled block a b first in
      let more : IsExtended (with_block block a is.body) f =
        subst (λ (c : Assembled). IsExtended c f) (sym is.same)
          (assemble_blocks-IsExtended later b f rest) in
      with_block-IsPlaced block a f is.body small apart is.body_same is.address more
  assemble_blocks-IsPlaced (other ∷ earlier) later block a f visited small apart h =
      elim (Bool-cases (is_visited other.call_graph_state)) [
        | inr e ↦ assemble_blocks-IsPlaced earlier later block a f visited small apart (rw e at h)
        | inl e ↦
            let (b, first, rest) =
              bind-eq-accepted (assemble_block spare other a)
                (assemble_blocks spare (earlier ++ (block ∷ later))) (rw e at h) in
            assemble_blocks-IsPlaced earlier later block b f visited small apart rest
      ]

  -- Where `assembleFunctionBlocks` succeeds, each block that the call graph retains, if it has
  -- less than 2 ^ 32 bytes and jump operands that do not overlap, stands in the code of the
  -- program at a 32-bit address: every jump operand of it reads, by the machine's checked
  -- read, its old target plus this address, and the rest of it reads as before; its function
  -- is among the retained functions, changed in nothing but this address; each of its calls is
  -- among the calls, its operand moved by this address; and the largest frame of the program
  -- has no fewer slots and no fewer bytes than its own.
  pub assemble_function_blocks-IsPlaced :
      (functions : List SymbolBinding) (bindings : List (String × SymbolBinding))
      (earlier later : List CompiledFunctionBlock) (block : CompiledFunctionBlock) (f : Assembled)
      → is_visited block.call_graph_state ≡ true
      → length block.code < 2 ^ 32
      → AreApart block.jump_operand_positions
      → assemble_function_blocks spare functions bindings (earlier ++ (block ∷ later)) ≡ accepted f
      → IsPlaced f block
  unfolding assemble_function_blocks
  assemble_function_blocks-IsPlaced functions bindings earlier later block f visited small apart h =
      assemble_blocks-IsPlaced earlier later block _ f visited small apart h
