-- ===== src/Link.antt =====
-- cova/link.go: the linker, from the relocatable program that the compiler makes to the linked
-- program. The name of a rejection stands for the message that is added to the context.
pub mod Params
pub mod Functions
pub mod Calls
pub mod Program
use Prim.Native.String.{String}
use ccova.Prelude.{
  ℕ, zero, suc, ◌+◌, ◌%◌, ◌^◌, Bool, true, false, not, ◌&&◌, ◌||◌, List, [], ◌∷◌, ◌++◌, Option,
  none, some, ltb, leb, ◌==◌, length, if◌then◌else◌,
}
use ccova.Prelude.Int.{ℤ, pos, negsuc}
use ccova.Prelude.Checked.{Checked, accepted, rejected, ◌>>=◌, ◌>>◌, reject_if}
use ccova.Kind.{ValueKind}
use ccova.Segment.{Bytes}
use ccova.Code.{patch_uint32, clone_spare}
use ccova.Program.{LinkedProgram, ScriptFunctionDescriptor}
use ccova.Types.{TypeRef}
use ccova.Types.Basic.{value_kind_from_type}
use ccova.Image.{len_u32}

pub data ScopeKind : Type 0 where
  invalid_scope frame_scope bss_scope const_scope data_scope extern_scope : ScopeKind

pub data DeclKind : Type 0 where
  variable_decl function_decl : DeclKind

pub record SymbolBinding : Type 0 where
  pub name : String
  pub kind : DeclKind
  pub scope : ScopeKind
  pub type : TypeRef
  pub slot_index : ℕ
  pub byte_offset : ℕ
  pub byte_size : ℕ
  pub byte_alignment : ℕ
  pub param_count : ℕ
  pub param_types : List TypeRef
  pub param_offsets : List ℕ
  pub frame_slot_count : ℕ
  pub frame_byte_size : ℕ
  pub temp_func_id : ℕ
  pub script_address : ℕ

pub record CallPatch : Type 0 where
  pub operand_pos : ℕ
  pub temp_func_id : ℕ
  pub line : ℕ

-- Of the symbols of the program, the linker reads those that are extern.
pub record RelocatableProgram : Type 0 where
  pub text : Bytes
  pub extern_symbols : List SymbolBinding
  pub functions : List SymbolBinding
  pub call_patches : List CallPatch
  pub used_external_function_ids : List ℕ
  pub entry_function : ℕ
  pub frame_size : ℕ
  pub frame_byte_size : ℕ
  pub const_byte_size : ℕ
  pub const_data : Bytes
  pub data_byte_size : ℕ
  pub data_data : Bytes
  pub bss_size : ℕ
  pub bss_byte_size : ℕ

pub record Linker : Type 0 where
  pub variable_capacity : ℤ
  pub function_capacity : ℤ

-- `out_of_range` is the panic of an index or a slice.
pub data LinkError : Type 0 where
  negative_variable_capacity negative_function_capacity : LinkError
  variable_outside_memory misaligned_variable function_outside_capacity : LinkError
  inconsistent_parameters unsupported_parameter invalid_function_scope : LinkError
  unresolved_function missing_entry out_of_range : LinkError

abbrev pub capacity_of : ℤ → LinkError → Checked LinkError ℕ
capacity_of (pos n) e = accepted n
capacity_of (negsuc n) e = rejected e

-- The loop over the extern variables.
unfoldable pub check_variables : ℕ → List SymbolBinding → Checked LinkError (Unit {0})
check_variables capacity [] = accepted tt
check_variables capacity (binding ∷ bindings) = do
  reject_if (ltb capacity (binding.byte_offset + binding.byte_size))
      LinkError.variable_outside_memory
  reject_if
      (ltb 1 binding.byte_alignment && not (binding.byte_offset % binding.byte_alignment == 0))
      LinkError.misaligned_variable
  check_variables capacity bindings

-- The local variables of the loop over the functions; the latest entry of the map comes first.
pub record Tables : Type 0 where
  pub temp_to_function : List (ℕ × ℕ)
  pub functions : List ScriptFunctionDescriptor
  pub param_kinds : List ValueKind
  pub param_offsets : List ℕ

abbrev pub no_tables : Tables
no_tables = record { temp_to_function = []; functions = []; param_kinds = []; param_offsets = [] }

abbrev pub is_unsupported : ValueKind → Bool
is_unsupported ValueKind.none = true
is_unsupported ValueKind.void = true
is_unsupported _ = false

-- The loop over the parameters of a function.
unfoldable pub add_params : List TypeRef → List ℕ → Tables → Checked LinkError Tables
add_params [] offsets tables = accepted tables
add_params (type ∷ types) [] tables = do
  reject_if (is_unsupported (value_kind_from_type type)) LinkError.unsupported_parameter
  rejected LinkError.out_of_range
add_params (type ∷ types) (offset ∷ offsets) tables = do
  reject_if (is_unsupported (value_kind_from_type type)) LinkError.unsupported_parameter
  add_params types offsets (record tables {
    param_kinds = tables.param_kinds ++ (value_kind_from_type type ∷ []);
    param_offsets = tables.param_offsets ++ (offset ∷ []);
  })

abbrev pub descriptor : SymbolBinding → ℕ → ScriptFunctionDescriptor
descriptor binding param_start = record {
  body_address = binding.script_address;
  param_start = param_start;
  param_count = binding.param_count;
  frame_byte_size = binding.frame_byte_size;
  return_kind = value_kind_from_type binding.type;
}

abbrev pub with_function : SymbolBinding → ℕ → Tables → Tables
with_function binding param_start tables = record tables {
  temp_to_function = (binding.temp_func_id, length tables.functions) ∷ tables.temp_to_function;
  functions = tables.functions ++ (descriptor binding param_start ∷ []);
}

-- A function of the script: its parameters, and then its descriptor.
abbrev pub is_inconsistent : SymbolBinding → Bool
is_inconsistent binding =
    not (binding.param_count == len_u32 binding.param_types)
    || not (binding.param_count == len_u32 binding.param_offsets)

unfoldable pub add_script_function : SymbolBinding → Tables → Checked LinkError Tables
unfolding add_params
add_script_function binding tables = do
  reject_if (is_inconsistent binding) LinkError.inconsistent_parameters
  filled ← add_params binding.param_types binding.param_offsets tables
  accepted (with_function binding (len_u32 tables.param_kinds) filled)

-- The body of the loop over the functions, and the loop.
unfoldable pub add_function : ℕ → ScopeKind → SymbolBinding → Tables → Checked LinkError Tables
unfolding add_script_function
add_function capacity ScopeKind.extern_scope binding tables = do
  reject_if (leb capacity binding.slot_index) LinkError.function_outside_capacity
  accepted tables
add_function capacity ScopeKind.bss_scope binding tables = add_script_function binding tables
add_function capacity _ binding tables = rejected LinkError.invalid_function_scope

unfoldable pub add_functions : ℕ → List SymbolBinding → Tables → Checked LinkError Tables
unfolding add_function
add_functions capacity [] tables = accepted tables
add_functions capacity (binding ∷ bindings) tables = do
  added ← add_function capacity binding.scope binding tables
  add_functions capacity bindings added

-- `tempToFunction[id]`
unfoldable pub function_index : List (ℕ × ℕ) → ℕ → LinkError → Checked LinkError ℕ
function_index [] id e = rejected e
function_index (entry ∷ entries) id e =
    let rest = function_index entries id e in if entry.0 == id then accepted entry.1 else rest

abbrev pub or_out_of_range : Option Bytes → Checked LinkError Bytes
or_out_of_range none = rejected LinkError.out_of_range
or_out_of_range (some text) = accepted text

-- The loop over the calls, on text with some spare capacity.
unfoldable pub patch_calls : ℕ → List (ℕ × ℕ) → List CallPatch → Bytes → Checked LinkError Bytes
unfolding function_index
patch_calls spare map [] text = accepted text
patch_calls spare map (patch ∷ patches) text = do
  index ← function_index map patch.temp_func_id LinkError.unresolved_function
  patched ← or_out_of_range (patch_uint32 spare patch.operand_pos (index % 2 ^ 32) text)
  patch_calls spare map patches patched

abbrev pub linked_program : RelocatableProgram → Tables → Bytes → ℕ → LinkedProgram
linked_program compiled tables text entry_point = record {
  text = text;
  entry_point = entry_point % 2 ^ 32;
  functions = tables.functions;
  param_kinds = tables.param_kinds;
  param_offsets = tables.param_offsets;
  frame_size = compiled.frame_size;
  frame_byte_size = compiled.frame_byte_size;
  const_byte_size = compiled.const_byte_size;
  const_data = compiled.const_data;
  data_byte_size = compiled.data_byte_size;
  data_data = compiled.data_data;
  bss_size = compiled.bss_size;
  bss_byte_size = compiled.bss_byte_size;
}

-- `Link` from the text on, from its tables on, and from its capacities on.
abbrev pub with_entry : RelocatableProgram → Tables → Bytes → Checked LinkError LinkedProgram
with_entry compiled tables text = do
  entry_point ←
      function_index tables.temp_to_function compiled.entry_function LinkError.missing_entry
  accepted (linked_program compiled tables text entry_point)

-- `spare` is the capacity that `append` leaves behind a copy of so many bytes.
module _ (spare : ℕ → ℕ) where
  abbrev pub finish : RelocatableProgram → Tables → Checked LinkError LinkedProgram
  finish compiled tables = do
    text ←
        patch_calls (clone_spare spare compiled.text) tables.temp_to_function compiled.call_patches
          compiled.text
    with_entry compiled tables text

  abbrev pub within_capacities : RelocatableProgram → ℕ → ℕ → Checked LinkError LinkedProgram
  within_capacities compiled variable_capacity function_capacity = do
    check_variables variable_capacity compiled.extern_symbols
    tables ← add_functions function_capacity compiled.functions no_tables
    finish compiled tables

  -- `Link`
  unfoldable pub link : Linker → RelocatableProgram → Checked LinkError LinkedProgram
  link linker compiled = do
    variable_capacity ← capacity_of linker.variable_capacity LinkError.negative_variable_capacity
    function_capacity ← capacity_of linker.function_capacity LinkError.negative_function_capacity
    within_capacities compiled variable_capacity function_capacity
