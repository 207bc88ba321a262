-- ===== src/Tests/Compile.antt =====
-- Three compiled functions, of which two are reached from the entry, and their assembly.
use ccova.Prelude.{ℕ, ◌≡◌, refl, arith, All, [], ◌∷◌, length}
use ccova.Prelude.Checked.{accepted}
use ccova.Segment.{Bytes, put_uint, get_uint}
use ccova.Code.{patch_uint32, read_checked}
use ccova.Compile.{
  CallGraphState, CompiledFunctionBlock, Assembled, relocate_jumps, assemble_function_blocks,
  move_patches, add_used,
}
use ccova.Compile.Jumps.{IsApartFrom, IsMoved, relocate_jumps_lem}
use ccova.Compile.Blocks.{IsPlaced, assemble_function_blocks-IsPlaced}
use ccova.Compile.Operands.{AreOperands, assemble_function_blocks-AreOperands}
use ccova.Tests.Link.{function_binding, no_spare}

-- A jump to the start of the code.
abbrev loop_code : Bytes
loop_code = 13 ∷ 0 ∷ 0 ∷ 0 ∷ 0 ∷ 0 ∷ []

-- `main` calls the function 9 and jumps to its own start; the function 8 is not reached.
abbrev main_block : CompiledFunctionBlock
main_block = record {
  binding = function_binding "main" 7 [] [] 0;
  code = 15 ∷ 0 ∷ 255 ∷ 255 ∷ 255 ∷ 255 ∷ loop_code;
  call_patches = record { operand_pos = 2; temp_func_id = 9; line = 3 } ∷ [];
  jump_operand_positions = 8 ∷ [];
  used_external_function_ids = 4 ∷ 4 ∷ [];
  call_graph_state = CallGraphState.visited;
}

abbrev idle_block : CompiledFunctionBlock
idle_block = record main_block {
  binding = function_binding "idle" 8 [] [] 0;
  call_graph_state = CallGraphState.unvisited;
}

abbrev loop_block : CompiledFunctionBlock
loop_block = record {
  binding = function_binding "loop" 9 [] [] 0;
  code = loop_code;
  call_patches = [];
  jump_operand_positions = 2 ∷ [];
  used_external_function_ids = [];
  call_graph_state = CallGraphState.visited;
}

abbrev moved_code : Bytes
moved_code = 13 ∷ 0 ∷ 8 ∷ 0 ∷ 0 ∷ 0 ∷ []

loop_moved : relocate_jumps 0 8 (2 ∷ []) loop_code ≡ accepted moved_code
unfolding relocate_jumps patch_uint32 get_uint put_uint
loop_moved = refl

abbrev assembled : Assembled
assembled = record {
  code = 13 ∷ 0 ∷ 0 ∷ 0 ∷ 0 ∷ 0 ∷ 15 ∷ 0 ∷ 255 ∷ 255 ∷ 255 ∷ 255 ∷ 13 ∷ 0 ∷ 6 ∷ 0 ∷ 0 ∷ 0 ∷ [];
  call_patches = record { operand_pos = 8; temp_func_id = 9; line = 3 } ∷ [];
  functions = function_binding "loop" 9 [] [] 0 ∷ function_binding "main" 7 [] [] 6 ∷ [];
  symbol_bindings =
      ("main", function_binding "main" 7 [] [] 6)
      ∷ ("loop", function_binding "loop" 9 [] [] 0)
      ∷ [];
  used_external_function_ids = 4 ∷ [];
  max_local_slots = 0;
  max_frame_byte_size = 8;
}

blocks_assembled :
    assemble_function_blocks no_spare [] [] (loop_block ∷ idle_block ∷ main_block ∷ [])
    ≡ accepted assembled
unfolding assemble_function_blocks patch_uint32 get_uint put_uint move_patches add_used
blocks_assembled = refl

relocate_jumps_lem_example :
    (length moved_code ≡ length loop_code)
    × All (IsMoved 8 loop_code moved_code) (2 ∷ [])
    × ((n p : ℕ)
        → All (IsApartFrom p n) (2 ∷ [])
        → read_checked n moved_code p ≡ read_checked n loop_code p)
relocate_jumps_lem_example =
    relocate_jumps_lem 0 8 (2 ∷ []) loop_code {moved = moved_code} (omega arith) (tt, tt) loop_moved

assemble_function_blocks-IsPlaced_example : IsPlaced assembled main_block
assemble_function_blocks-IsPlaced_example =
    assemble_function_blocks-IsPlaced no_spare [] [] (loop_block ∷ idle_block ∷ []) [] main_block
      assembled refl (omega arith) (tt, tt) blocks_assembled

assemble_function_blocks-AreOperands_example : AreOperands assembled.code assembled.call_patches
assemble_function_blocks-AreOperands_example =
    assemble_function_blocks-AreOperands no_spare [] [] (loop_block ∷ idle_block ∷ main_block ∷ [])
      assembled ((tt, tt), (((omega arith, tt), (tt, tt)), (((omega arith, tt), (tt, tt)), tt)))
      blocks_assembled
