-- ===== src/Types.antt =====
-- cova/types.go: the types of the language. A pointer to a type is `nil` or a reference; a size is
-- never negative, so it is a natural number.
pub mod Basic
pub mod Layout
pub mod Align
pub mod Laws
use ccova.Prelude.{
  ℕ, Bool, true, false, ◌&&◌, ◌||◌, List, [], ◌∷◌, leb, ltb, ◌==◌, if◌then◌else◌, Option, none,
  some,
}
use Prim.Native.String.{String}
use text.Mathlib.Text
use ccova.Kind.{ValueKind}

pub data TypeKind : Type 0 where
  invalid_type void_type bool_type byte_type int8_type int16_type int32_type int64_type : TypeKind
  uint8_type uint16_type uint32_type uint64_type float32_type float64_type : TypeKind
  pointer_type string_type char_type array_type struct_type : TypeKind

abbrev pub type_number : TypeKind → ℕ
type_number TypeKind.invalid_type = 0
type_number TypeKind.void_type = 1
type_number TypeKind.bool_type = 2
type_number TypeKind.byte_type = 3
type_number TypeKind.int8_type = 4
type_number TypeKind.int16_type = 5
type_number TypeKind.int32_type = 6
type_number TypeKind.int64_type = 7
type_number TypeKind.uint8_type = 8
type_number TypeKind.uint16_type = 9
type_number TypeKind.uint32_type = 10
type_number TypeKind.uint64_type = 11
type_number TypeKind.float32_type = 12
type_number TypeKind.float64_type = 13
type_number TypeKind.pointer_type = 14
type_number TypeKind.string_type = 15
type_number TypeKind.char_type = 16
type_number TypeKind.array_type = 17
type_number TypeKind.struct_type = 18

abbrev pub same_kind : TypeKind → TypeKind → Bool
same_kind k l = type_number k == type_number l

-- `Type` with its kind, name, size, base, element count, struct and `IsConst`; `StructType` with
-- its name, fields, size and alignment; `FieldsByName` follows from the fields.
mutual
  pub data ScriptType : Type 0 where
    script_type : TypeKind → String → ℕ → TypeRef → ℕ → StructRef → Bool → ScriptType

  pub data TypeRef : Type 0 where
    nil : TypeRef
    ref : ScriptType → TypeRef

  pub data StructRef : Type 0 where
    nil_struct : StructRef
    struct_ref : String → StructFields → ℕ → ℕ → StructRef

  pub data StructFields : Type 0 where
    end : StructFields
    field : String → TypeRef → ℕ → StructFields → StructFields

abbrev pub kind : ScriptType → TypeKind
kind (script_type k name size base count layout const) = k

abbrev pub name : ScriptType → String
name (script_type k n size base count layout const) = n

abbrev pub byte_size : ScriptType → ℕ
byte_size (script_type k name s base count layout const) = s

abbrev pub base : ScriptType → TypeRef
base (script_type k name size b count layout const) = b

-- The alignment of the types that are not void, a pointer, an array or a struct.
abbrev pub size_alignment : ℕ → ℕ
size_alignment size = if leb size 1 then 1 else if leb 8 size then 8 else size

abbrev pub struct_alignment : StructRef → ℕ → ℕ
struct_alignment nil_struct size = size_alignment size
struct_alignment (struct_ref name fs struct_size align) size = align

-- `Alignment`
unfoldable mutual
  pub alignment : TypeRef → ℕ
  alignment nil = 1
  alignment (ref type) = alignment_of type

  pub alignment_of : ScriptType → ℕ
  alignment_of (script_type TypeKind.void_type name size base count layout const) = 1
  alignment_of (script_type TypeKind.pointer_type name size base count layout const) = 4
  alignment_of (script_type TypeKind.string_type name size base count layout const) = 4
  alignment_of (script_type TypeKind.array_type name size nil count layout const) =
      size_alignment size
  alignment_of (script_type TypeKind.array_type name size (ref b) count layout const) =
      alignment_of b
  alignment_of (script_type TypeKind.struct_type name size base count layout const) =
      struct_alignment layout size
  alignment_of (script_type _ name size base count layout const) = size_alignment size
