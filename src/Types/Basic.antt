-- ===== src/Types/Basic.antt =====
-- cova/types.go: the types with a name, the tests on types, promotion, pointers and qualification,
-- and the kind of the machine that stands for a type.
use Prim.Native.String.{String, ◌++◌}
use text.Mathlib.Text
use ccova.Prelude.{
  ℕ, Bool, true, false, ◌&&◌, ◌||◌, List, [], ◌∷◌, leb, if◌then◌else◌, Option, none, some,
}
use ccova.Kind.{ValueKind}
use ccova.Types.{TypeKind, ScriptType, TypeRef, StructRef, same_kind, kind, byte_size, name}

-- A type without base, elements or fields.
abbrev pub plain : TypeKind → String → ℕ → ScriptType
plain kind name size =
    ScriptType.script_type kind name size TypeRef.nil 0 StructRef.nil_struct false

abbrev pub uint8 : ScriptType
uint8 = plain TypeKind.uint8_type "uint8" 1

abbrev pub int32 : ScriptType
int32 = plain TypeKind.int32_type "int32" 4

abbrev pub float32 : ScriptType
float32 = plain TypeKind.float32_type "float32" 4

abbrev pub float64 : ScriptType
float64 = plain TypeKind.float64_type "float64" 8

abbrev pub string_type : ScriptType
string_type =
    ScriptType.script_type TypeKind.string_type "string" 4 (TypeRef.ref uint8) 0
      StructRef.nil_struct false

-- `namedTypes`
abbrev pub named_types : List (String × ScriptType)
named_types =
    ("void", plain TypeKind.void_type "void" 0)
    ∷ ("bool", plain TypeKind.bool_type "bool" 1)
    ∷ ("byte", plain TypeKind.byte_type "byte" 1)
    ∷ ("char", uint8)
    ∷ ("int", int32)
    ∷ ("int8", plain TypeKind.int8_type "int8" 1)
    ∷ ("int16", plain TypeKind.int16_type "int16" 2)
    ∷ ("int32", int32)
    ∷ ("int64", plain TypeKind.int64_type "int64" 8)
    ∷ ("uint8", uint8)
    ∷ ("uint16", plain TypeKind.uint16_type "uint16" 2)
    ∷ ("uint32", plain TypeKind.uint32_type "uint32" 4)
    ∷ ("uint64", plain TypeKind.uint64_type "uint64" 8)
    ∷ ("float", float32)
    ∷ ("float32", float32)
    ∷ ("float64", float64)
    ∷ ("double", float64)
    ∷ ("i8", plain TypeKind.int8_type "int8" 1)
    ∷ ("i16", plain TypeKind.int16_type "int16" 2)
    ∷ ("i32", int32)
    ∷ ("i64", plain TypeKind.int64_type "int64" 8)
    ∷ ("u8", uint8)
    ∷ ("u16", plain TypeKind.uint16_type "uint16" 2)
    ∷ ("u32", plain TypeKind.uint32_type "uint32" 4)
    ∷ ("u64", plain TypeKind.uint64_type "uint64" 8)
    ∷ ("f32", float32)
    ∷ ("f64", float64)
    ∷ []

abbrev pub look_up : List (String × ScriptType) → String → TypeRef
look_up [] wanted = TypeRef.nil
look_up (entry ∷ entries) wanted =
    let rest = look_up entries wanted in
    if Text.◌==◌ entry.0 wanted then TypeRef.ref entry.1 else rest

unfoldable pub lookup_named_type : String → TypeRef
lookup_named_type name = look_up named_types name

-- `IsSignedInteger`, `IsUnsignedInteger`, `IsFloat`, `IsNumeric`
abbrev pub is_signed_integer : ScriptType → Bool
is_signed_integer type = elim (kind type) [
  | TypeKind.int8_type ↦ true
  | TypeKind.int16_type ↦ true
  | TypeKind.int32_type ↦ true
  | TypeKind.int64_type ↦ true
  | _ ↦ false
]

abbrev pub is_unsigned_integer : ScriptType → Bool
is_unsigned_integer type = elim (kind type) [
  | TypeKind.byte_type ↦ true
  | TypeKind.uint8_type ↦ true
  | TypeKind.uint16_type ↦ true
  | TypeKind.uint32_type ↦ true
  | TypeKind.uint64_type ↦ true
  | _ ↦ false
]

abbrev pub is_float : ScriptType → Bool
is_float type =
    same_kind (kind type) TypeKind.float32_type || same_kind (kind type) TypeKind.float64_type

abbrev pub is_numeric : ScriptType → Bool
is_numeric type = is_signed_integer type || is_unsigned_integer type || is_float type

-- The tests of `PromoteType` on two types.
unfoldable pub promoted : ScriptType → ScriptType → Option ScriptType
promoted left right =
    if same_kind (kind left) (kind right)
    then some left
    else if is_signed_integer left && is_unsigned_integer right
    then (if leb (byte_size right) (byte_size left) then some left else none)
    else if is_unsigned_integer left && is_signed_integer right
    then (if leb (byte_size left) (byte_size right) then some right else none)
    else if (is_signed_integer left || is_unsigned_integer left) && is_float right
    then some right
    else if (is_signed_integer right || is_unsigned_integer right) && is_float left
    then some left
    else if is_float left && is_float right
    then (if leb (byte_size right) (byte_size left) then some left else some right)
    else none

-- `PromoteType`
unfoldable pub promote_type : TypeRef → TypeRef → Option ScriptType
promote_type (TypeRef.ref left) (TypeRef.ref right) = promoted left right
promote_type _ _ = none

-- `QualifiedType`
unfoldable pub qualified_type : TypeRef → Bool → TypeRef
qualified_type (TypeRef.ref (ScriptType.script_type kind name size base count layout const)) true =
    TypeRef.ref (ScriptType.script_type kind name size base count layout true)
qualified_type type _ = type

-- `PointerToQualified`
unfoldable pub pointer_to_qualified : TypeRef → Bool → TypeRef
pointer_to_qualified TypeRef.nil is_const = TypeRef.nil
pointer_to_qualified (TypeRef.ref base) is_const = TypeRef.ref (
    ScriptType.script_type TypeKind.pointer_type (name base ++ "*") 4 (TypeRef.ref base) 0
      StructRef.nil_struct is_const)

unfoldable pub pointer_to : TypeRef → TypeRef
unfolding pointer_to_qualified
pointer_to base = pointer_to_qualified base false

-- `typeToValueKind` and `valueKindFromType`
abbrev pub kind_from_type_kind : TypeKind → ValueKind
kind_from_type_kind TypeKind.void_type = ValueKind.void
kind_from_type_kind TypeKind.bool_type = ValueKind.bool
kind_from_type_kind TypeKind.byte_type = ValueKind.byte
kind_from_type_kind TypeKind.char_type = ValueKind.byte
kind_from_type_kind TypeKind.int8_type = ValueKind.int8
kind_from_type_kind TypeKind.int16_type = ValueKind.int16
kind_from_type_kind TypeKind.int32_type = ValueKind.int32
kind_from_type_kind TypeKind.int64_type = ValueKind.int64
kind_from_type_kind TypeKind.uint8_type = ValueKind.uint8
kind_from_type_kind TypeKind.uint16_type = ValueKind.uint16
kind_from_type_kind TypeKind.uint32_type = ValueKind.uint32
kind_from_type_kind TypeKind.uint64_type = ValueKind.uint64
kind_from_type_kind TypeKind.float32_type = ValueKind.float32
kind_from_type_kind TypeKind.float64_type = ValueKind.float64
kind_from_type_kind TypeKind.pointer_type = ValueKind.address
kind_from_type_kind TypeKind.string_type = ValueKind.address
kind_from_type_kind _ = ValueKind.none

unfoldable pub value_kind_from_type : TypeRef → ValueKind
value_kind_from_type TypeRef.nil = ValueKind.none
value_kind_from_type (TypeRef.ref type) = kind_from_type_kind (kind type)
