-- ===== src/Tests/Types.antt =====
-- A struct of a byte, an integer and a byte, and roundings at an alignment of 8.
use ccova.Prelude.{ℕ, ◌≡◌, ◌^◌, refl, arith, true, false, some}
use ccova.Prelude.Checked.{accepted, rejected}
use ccova.Types.{TypeKind, ScriptType, TypeRef, StructRef, StructFields, alignment}
use ccova.Types.Basic.{uint8, int32, float64, lookup_named_type, promote_type, promoted}
use ccova.Types.Layout.{TypeError, align_up_int, place_field, lay_out, struct_of, new_struct_type}
use ccova.Types.Laws.{IsStructOf, new_struct_type-IsStructOf}
use ccova.Types.Align.{align_up_u32, checked_align_up_u32, align_up_u32-align_up_int}

abbrev three_fields : ℕ → ℕ → ℕ → StructFields
three_fields a b c = StructFields.field "tag" (TypeRef.ref uint8) a (
    StructFields.field "value" (TypeRef.ref int32) b
      (StructFields.field "flag" (TypeRef.ref uint8) c StructFields.end))

-- At 0, 4 and 8, in 12 bytes.
abbrev packet : ScriptType
packet =
    ScriptType.script_type TypeKind.struct_type "packet" 12 TypeRef.nil 0
      (StructRef.struct_ref "packet" (three_fields 0 4 8) 12 4) false

packet_made : new_struct_type "packet" (three_fields 0 0 0) ≡ accepted packet
unfolding new_struct_type lay_out place_field struct_of align_up_int alignment
packet_made = refl

new_struct_type-IsStructOf_example : IsStructOf (three_fields 0 0 0) packet
new_struct_type-IsStructOf_example =
    new_struct_type-IsStructOf "packet" (three_fields 0 0 0) packet packet_made

duplicate_rejected :
    new_struct_type "packet" (
      StructFields.field "tag"
        (TypeRef.ref uint8)
        0
        (StructFields.field "tag" (TypeRef.ref int32) 0 StructFields.end))
    ≡ rejected TypeError.duplicate_field
unfolding new_struct_type lay_out place_field struct_of align_up_int alignment
duplicate_rejected = refl

rounded_13 : align_up_int 13 (2 ^ 3) ≡ some 16
unfolding align_up_int
rounded_13 = refl

align_up_u32-align_up_int_example :
    (checked_align_up_u32 13 (2 ^ 3) ≡ (16, true)) × (align_up_u32 13 (2 ^ 3) ≡ 16)
align_up_u32-align_up_int_example =
    align_up_u32-align_up_int 3 13 16 (omega arith) (omega arith) rounded_13

-- `int` and `float` promote to `float`, `uint32` and `int8` do not promote.
promoted_to_float :
    promote_type (lookup_named_type "int") (lookup_named_type "double") ≡ some float64
unfolding promote_type lookup_named_type promoted
promoted_to_float = refl
