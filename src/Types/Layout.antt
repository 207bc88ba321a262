-- ===== src/Types/Layout.antt =====
-- cova/types.go: `ArrayOf`, `NewStructType` and `alignUpInt`. The name of a rejection stands for the
-- message that is added to the context.
use Prim.Native.String.{String, ◌++◌}
use text.Mathlib.Text
use ccova.Prelude.{
  ℕ, zero, suc, ◌+◌, ◌-◌, ◌*◌, ◌/◌, ◌%◌, ◌^◌, Bool, true, false, ◌||◌, List, [], ◌∷◌, ltb, leb,
  if◌then◌else◌, Option, none, some, get_or,
}
use ccova.Prelude.Int.{ℤ, pos, negsuc}
use ccova.Prelude.Checked.{Checked, accepted, rejected, ◌>>=◌, ◌>>◌, reject_if}
use ccova.Types.{
  TypeKind, ScriptType, TypeRef, StructRef, StructFields, same_kind, kind, byte_size, name,
  alignment_of,
}

pub data TypeError : Type 0 where
  incomplete_element count_not_positive array_overflow array_too_large : TypeError
  empty_struct_name empty_struct unnamed_field duplicate_field incomplete_field : TypeError
  struct_overflow struct_too_large : TypeError

-- The largest `int`, and the bytes that an address can name.
abbrev pub max_int : ℕ
max_int = 2 ^ 63 - 1

abbrev pub address_space : ℕ
address_space = 2 ^ 24

-- `alignUpInt`
unfoldable pub align_up_int : ℕ → ℕ → Option ℕ
align_up_int value alignment =
    if leb alignment 1
    then some value
    else if ltb (max_int - (alignment - 1)) value
    then none
    else some ((value + alignment - 1) / alignment * alignment)

-- A number in decimal notation (`%d`), with fuel for its digits.
abbrev digits : List String
digits = "0" ∷ "1" ∷ "2" ∷ "3" ∷ "4" ∷ "5" ∷ "6" ∷ "7" ∷ "8" ∷ "9" ∷ []

abbrev decimal : ℕ → ℕ → String
decimal zero n = ""
decimal (suc fuel) n =
    let higher = decimal fuel (n / 10) in
    let digit = get_or digits (n % 10) "" in if ltb n 10 then digit else higher ++ digit

-- `ArrayOf`
unfoldable pub array_of : TypeRef → ℤ → Checked TypeError ScriptType
array_of TypeRef.nil count = rejected TypeError.incomplete_element
array_of (TypeRef.ref element) (negsuc n) = do
  reject_if (same_kind (kind element) TypeKind.void_type) TypeError.incomplete_element
  rejected TypeError.count_not_positive
array_of (TypeRef.ref element) (pos count) = do
  reject_if (same_kind (kind element) TypeKind.void_type) TypeError.incomplete_element
  reject_if (leb count 0) TypeError.count_not_positive
  reject_if (ltb (max_int / count) (byte_size element)) TypeError.array_overflow
  reject_if (ltb address_space (byte_size element * count)) TypeError.array_too_large
  accepted (
      ScriptType.script_type TypeKind.array_type (name element ++ "[" ++ decimal 20 count ++ "]")
        (byte_size element * count) (TypeRef.ref element) count StructRef.nil_struct false)

-- A name that was declared before.
abbrev pub contains : List String → String → Bool
contains [] label = false
contains (seen ∷ names) label = Text.◌==◌ seen label || contains names label

-- The type of a field, if it is complete.
abbrev pub complete : TypeRef → Checked TypeError ScriptType
complete TypeRef.nil = rejected TypeError.incomplete_field
complete (TypeRef.ref type) = do
  reject_if (same_kind (kind type) TypeKind.void_type || leb (byte_size type) 0)
      TypeError.incomplete_field
  accepted type

abbrev pub or_overflow : Option ℕ → Checked TypeError ℕ
or_overflow none = rejected TypeError.struct_overflow
or_overflow (some offset) = accepted offset

-- The checks of the body of the loop over the fields, and the offset of the field.
abbrev pub offset_of : ScriptType → ℕ → Checked TypeError (ScriptType × ℕ)
offset_of type aligned = do
  reject_if (ltb (max_int - aligned) (byte_size type)) TypeError.struct_overflow
  accepted (type, aligned)

abbrev pub align_field : ℕ → ScriptType → Checked TypeError (ScriptType × ℕ)
align_field offset type = do
  aligned ← or_overflow (align_up_int offset (alignment_of type))
  offset_of type aligned

unfoldable pub place_field : List String → ℕ → String → TypeRef → Checked TypeError (ScriptType × ℕ)
place_field names offset label type = do
  reject_if (Text.◌==◌ label "") TypeError.unnamed_field
  reject_if (contains names label) TypeError.duplicate_field
  complete_type ← complete type
  align_field offset complete_type

-- The fields with their offsets, the end of the last one and the largest alignment.
pub record LaidOut : Type 0 where
  pub fields : StructFields
  pub end : ℕ
  pub alignment : ℕ

-- `if alignment > descriptor.Alignment { … }`
abbrev pub larger : ℕ → ScriptType → ℕ
larger alignment type = if ltb alignment (alignment_of type) then alignment_of type else alignment

abbrev pub with_field : String → TypeRef → ℕ → LaidOut → LaidOut
with_field label type offset rest = record rest {
  fields = StructFields.field label type offset rest.fields;
}

-- The loop, from an offset on and with the alignment so far.
unfoldable pub lay_out : List String → ℕ → ℕ → StructFields → Checked TypeError LaidOut
unfolding place_field
lay_out names offset alignment StructFields.end =
    accepted (record { fields = StructFields.end; end = offset; alignment = alignment })
lay_out names offset alignment (StructFields.field label type unset fields) = do
  placed ← place_field names offset label type
  rest ← lay_out (label ∷ names) (placed.1 + byte_size placed.0) (larger alignment placed.0) fields
  accepted (with_field label type placed.1 rest)

-- What is left once the fields are placed.
abbrev pub sized_struct : String → LaidOut → ℕ → Checked TypeError ScriptType
sized_struct name layout size = do
  reject_if (ltb address_space size) TypeError.struct_too_large
  accepted (
      ScriptType.script_type TypeKind.struct_type name size TypeRef.nil 0
        (StructRef.struct_ref name layout.fields size layout.alignment) false)

unfoldable pub struct_of : String → LaidOut → Checked TypeError ScriptType
unfolding align_up_int
struct_of name layout = do
  size ← or_overflow (align_up_int layout.end layout.alignment)
  sized_struct name layout size

abbrev pub is_empty : StructFields → Bool
is_empty StructFields.end = true
is_empty (StructFields.field label type offset fields) = false

-- `NewStructType`
unfoldable pub new_struct_type : String → StructFields → Checked TypeError ScriptType
unfolding lay_out struct_of
new_struct_type name fields = do
  reject_if (Text.◌==◌ name "") TypeError.empty_struct_name
  reject_if (is_empty fields) TypeError.empty_struct
  layout ← lay_out [] 0 1 fields
  struct_of name layout
