-- ===== src/Tests/Link.antt =====
-- A program of two functions, one of which calls the other, before and after linking.
use Prim.Native.String.{String}
use ccova.Prelude.{ℕ, ◌≡◌, refl, arith, true, List, [], ◌∷◌, All, length}
use ccova.Prelude.Int.{pos}
use ccova.Prelude.Checked.{accepted, rejected}
use ccova.Kind.{ValueKind}
use ccova.Segment.{put_uint}
use ccova.Code.{patch_uint32}
use ccova.Program.{LinkedProgram}
use ccova.Types.{TypeRef}
use ccova.Types.Basic.{int32, value_kind_from_type}
use ccova.Link.{
  SymbolBinding, RelocatableProgram, Linker, LinkError, ScopeKind, DeclKind, check_variables,
  add_params, add_script_function, add_function, add_functions, function_index, patch_calls, link,
}
use ccova.Link.Calls.{IsInside, AreApart}
use ccova.Link.Functions.{total_params}
use ccova.Link.Program.{IsSmall, IsLinked, link-IsLinked, link-params_in_range}
use ccova.Vm.Calls.{params_in_range}

abbrev pub function_binding : String → ℕ → List TypeRef → List ℕ → ℕ → SymbolBinding
function_binding name id types offsets address = record {
  name = name;
  kind = DeclKind.function_decl;
  scope = ScopeKind.bss_scope;
  type = TypeRef.ref int32;
  slot_index = 0;
  byte_offset = 0;
  byte_size = 0;
  byte_alignment = 0;
  param_count = length types;
  param_types = types;
  param_offsets = offsets;
  frame_slot_count = length types;
  frame_byte_size = 8;
  temp_func_id = id;
  script_address = address;
}

-- `twice`, of one integer, is the function 9; `main`, of none, is the function 7 and calls it at 2.
abbrev compiled : RelocatableProgram
compiled = record {
  text = 15 ∷ 0 ∷ 255 ∷ 255 ∷ 255 ∷ 255 ∷ 16 ∷ 0 ∷ 16 ∷ 0 ∷ [];
  extern_symbols = [];
  functions =
      function_binding "twice" 9 (TypeRef.ref int32 ∷ []) (0 ∷ []) 8
      ∷ function_binding "main" 7 [] [] 0
      ∷ [];
  call_patches = record { operand_pos = 2; temp_func_id = 9; line = 3 } ∷ [];
  used_external_function_ids = [];
  entry_function = 7;
  frame_size = 1;
  frame_byte_size = 8;
  const_byte_size = 0;
  const_data = [];
  data_byte_size = 0;
  data_data = [];
  bss_size = 0;
  bss_byte_size = 0;
}

abbrev linker : Linker
linker = record { variable_capacity = pos 0; function_capacity = pos 0 }

-- Copies of exactly their length.
abbrev pub no_spare : ℕ → ℕ
no_spare n = 0

abbrev linked : LinkedProgram
linked = record {
  text = 15 ∷ 0 ∷ 0 ∷ 0 ∷ 0 ∷ 0 ∷ 16 ∷ 0 ∷ 16 ∷ 0 ∷ [];
  entry_point = 1;
  functions =
      record {
        body_address = 8;
        param_start = 0;
        param_count = 1;
        frame_byte_size = 8;
        return_kind = ValueKind.int32;
      }
      ∷ record {
        body_address = 0;
        param_start = 1;
        param_count = 0;
        frame_byte_size = 8;
        return_kind = ValueKind.int32;
      }
      ∷ [];
  param_kinds = ValueKind.int32 ∷ [];
  param_offsets = 0 ∷ [];
  frame_size = 1;
  frame_byte_size = 8;
  const_byte_size = 0;
  const_data = [];
  data_byte_size = 0;
  data_data = [];
  bss_size = 0;
  bss_byte_size = 0;
}

linked_made : link no_spare linker compiled ≡ accepted linked
unfolding link check_variables add_functions add_function add_script_function add_params
    value_kind_from_type patch_calls function_index patch_uint32 put_uint
linked_made = refl

compiled-IsSmall : IsSmall compiled
unfolding total_params
compiled-IsSmall = record { text = omega arith; functions = omega arith; params = omega arith }

compiled-AreApart : AreApart compiled.call_patches
compiled-AreApart = (tt, tt)

compiled-IsInside : All (IsInside compiled.text) compiled.call_patches
compiled-IsInside = (omega arith, tt)

link-IsLinked_example : IsLinked compiled linked
link-IsLinked_example =
    link-IsLinked no_spare linker compiled linked compiled-IsSmall compiled-IsInside
      compiled-AreApart linked_made

link-params_in_range_example :
    All (λ function. params_in_range linked function ≡ true) linked.functions
link-params_in_range_example =
    link-params_in_range no_spare linker compiled linked compiled-IsSmall linked_made

-- A call of a function that is not there, and an entry that is not there.
unresolved_rejected :
    link no_spare linker (record compiled {
      call_patches = record { operand_pos = 2; temp_func_id = 8; line = 3 } ∷ [];
    })
    ≡ rejected LinkError.unresolved_function
unfolding link check_variables add_functions add_function add_script_function add_params
    value_kind_from_type patch_calls function_index patch_uint32 put_uint
unresolved_rejected = refl

missing_entry_rejected :
    link no_spare linker (record compiled { entry_function = 8 }) ≡ rejected LinkError.missing_entry
unfolding link check_variables add_functions add_function add_script_function add_params
    value_kind_from_type patch_calls function_index patch_uint32 put_uint
missing_entry_rejected = refl
