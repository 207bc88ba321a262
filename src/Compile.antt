-- ===== src/Compile.antt =====
-- cova/compile.go: the assembly of the compiled functions into the code of the program. The name of a
-- rejection stands for the message that is added to the context. The operands of the jumps are noted
-- at positions in the code, which are never negative.
pub mod Jumps
pub mod Blocks
pub mod Operands
use Prim.Native.String.{String}
use ccova.Prelude.{
  ℕ, ◌+◌, ◌-◌, ◌%◌, ◌^◌, Bool, true, false, ◌||◌, List, [], ◌∷◌, ◌++◌, Option, none, some, ltb,
  ◌==◌, length, if◌then◌else◌,
}
use ccova.Prelude.Checked.{Checked, accepted, rejected, ◌>>=◌, ◌>>◌, reject_if}
use ccova.Segment.{Bytes, get_uint, window}
use ccova.Code.{patch_uint32, clone_spare}
use ccova.Link.{ScopeKind, SymbolBinding, CallPatch}

pub data CallGraphState : Type 0 where
  unvisited visiting visited : CallGraphState

pub record CompiledFunctionBlock : Type 0 where
  pub binding : SymbolBinding
  pub code : Bytes
  pub call_patches : List CallPatch
  pub jump_operand_positions : List ℕ
  pub used_external_function_ids : List ℕ
  pub call_graph_state : CallGraphState

-- `out_of_range` is the panic of a slice.
pub data CompileError : Type 0 where
  code_address_outside_uint32 invalid_jump_operand jump_target_outside_uint32 : CompileError
  out_of_range : CompileError

abbrev pub or_out_of_range : Option Bytes → Checked CompileError Bytes
or_out_of_range none = rejected CompileError.out_of_range
or_out_of_range (some code) = accepted code

-- The loop over the jump operands of a block, on a copy of its code with some spare capacity: each
-- target moves by the base of the block.
abbrev pub target_at : ℕ → Bytes → ℕ
target_at position code = get_uint (window (position % 2 ^ 32) 4 code)

unfoldable pub relocate_jumps : ℕ → ℕ → List ℕ → Bytes → Checked CompileError Bytes
relocate_jumps spare base [] code = accepted code
relocate_jumps spare base (position ∷ positions) code = do
  reject_if (ltb (length code) (position + 4)) CompileError.invalid_jump_operand
  reject_if (ltb (2 ^ 32 - 1) (target_at position code + base))
      CompileError.jump_target_outside_uint32
  moved ← or_out_of_range (patch_uint32 spare position (target_at position code + base) code)
  relocate_jumps spare base positions moved

-- What the loop over the blocks has made; the latest binding of a name comes first.
pub record Assembled : Type 0 where
  pub code : Bytes
  pub call_patches : List CallPatch
  pub functions : List SymbolBinding
  pub symbol_bindings : List (String × SymbolBinding)
  pub used_external_function_ids : List ℕ
  pub max_local_slots : ℕ
  pub max_frame_byte_size : ℕ

unfoldable pub move_patches : ℕ → List CallPatch → List CallPatch
move_patches base [] = []
move_patches base (patch ∷ patches) =
    record patch { operand_pos = patch.operand_pos + base } ∷ move_patches base patches

abbrev pub is_seen : ℕ → List ℕ → Bool
is_seen id [] = false
is_seen id (other ∷ others) = let rest = is_seen id others in other == id || rest

unfoldable pub add_used : List ℕ → List ℕ → List ℕ
add_used [] used = used
add_used (id ∷ ids) used = add_used ids (if is_seen id used then used else used ++ (id ∷ []))

abbrev pub greater : ℕ → ℕ → ℕ
greater new old = if ltb old new then new else old

abbrev pub placed_binding : ℕ → SymbolBinding → SymbolBinding
placed_binding base binding = record binding { script_address = base }

abbrev pub with_block : CompiledFunctionBlock → Assembled → Bytes → Assembled
with_block block assembled code =
    let base = length assembled.code in
    let binding = placed_binding base block.binding in
    record {
      code = assembled.code ++ code;
      call_patches = assembled.call_patches ++ move_patches base block.call_patches;
      functions = assembled.functions ++ (binding ∷ []);
      symbol_bindings = (binding.name, binding) ∷ assembled.symbol_bindings;
      used_external_function_ids =
          add_used block.used_external_function_ids assembled.used_external_function_ids;
      max_local_slots = greater binding.frame_slot_count assembled.max_local_slots;
      max_frame_byte_size = greater binding.frame_byte_size assembled.max_frame_byte_size;
    }

abbrev pub is_visited : CallGraphState → Bool
is_visited CallGraphState.visited = true
is_visited _ = false

abbrev pub is_extern : ScopeKind → Bool
is_extern ScopeKind.extern_scope = true
is_extern _ = false

unfoldable pub external_functions : List SymbolBinding → List SymbolBinding
external_functions [] = []
external_functions (binding ∷ bindings) =
    let rest = external_functions bindings in
    if is_extern binding.scope then binding ∷ rest else rest

-- `spare` is the capacity that `append` leaves behind a copy of so many bytes.
module _ (spare : ℕ → ℕ) where
  unfoldable pub assemble_block : CompiledFunctionBlock → Assembled → Checked CompileError Assembled
  unfolding relocate_jumps
  assemble_block block assembled = do
    reject_if (ltb (2 ^ 32 - 1) (length assembled.code)) CompileError.code_address_outside_uint32
    code ←
        relocate_jumps (clone_spare spare block.code) (length assembled.code)
          block.jump_operand_positions block.code
    accepted (with_block block assembled code)

  -- The loop over the blocks: those that the entry function does not reach are left out.
  unfoldable pub assemble_blocks :
      List CompiledFunctionBlock → Assembled → Checked CompileError Assembled
  unfolding assemble_block
  assemble_blocks [] assembled = accepted assembled
  assemble_blocks (block ∷ blocks) assembled =
      let skipped = assemble_blocks blocks assembled in
      let placed = assemble_block block assembled >>= assemble_blocks blocks in
      if is_visited block.call_graph_state then placed else skipped

  -- `assembleFunctionBlocks`, from the functions and the bindings that the compiler has.
  unfoldable pub assemble_function_blocks :
      List SymbolBinding
      → List (String × SymbolBinding)
      → List CompiledFunctionBlock
      → Checked CompileError Assembled
  unfolding assemble_blocks external_functions
  assemble_function_blocks functions bindings blocks = assemble_blocks blocks (record {
    code = [];
    call_patches = [];
    functions = external_functions functions;
    symbol_bindings = bindings;
    used_external_function_ids = [];
    max_local_slots = 0;
    max_frame_byte_size = 0;
  })
