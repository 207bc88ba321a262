-- ===== src/Image.antt =====
-- cova/image.go: the program image, its validation, and the conversions between it and the linked
-- program. The bytes of an image are written and read by package codestream, a parameter here. A
-- status VMStatusOK is the value of a result.
pub mod Laws
pub mod Valid
use ccova.Prelude.{
  ℕ, ◌+◌, ◌-◌, ◌%◌, ◌^◌, Bool, ◌||◌, not, ◌≡◌, List, [], ◌∷◌, map, Option, none, some, ltb, leb,
  ◌==◌, length,
}
use ccova.Status.{VmStatus, Result, value, error, guard, ◌>>=◌, ◌>>◌}
use ccova.Kind.{ValueKind, kind_of, kind_number, kind_count}
use ccova.Segment.{Bytes}
use ccova.Program.{LinkedProgram, ScriptFunctionDescriptor}

-- 'C', 'O', 'V' and 'A' from the low byte on.
abbrev pub program_image_magic : ℕ
program_image_magic = 0x41564f43

abbrev pub program_image_version : ℕ
program_image_version = 0x00010004

abbrev pub program_image_endian_little : ℕ
program_image_endian_little = 1

abbrev pub program_image_abi : ℕ
program_image_abi = 1

pub record ProgramImageFunction : Type 0 where
  pub body_address : ℕ
  pub param_start : ℕ
  pub param_count : ℕ
  pub frame_byte_size : ℕ
  pub return_kind : ℕ
  pub reserved0 : ℕ
  pub reserved1 : ℕ
  pub reserved2 : ℕ

pub record ProgramImage : Type 0 where
  pub magic : ℕ
  pub version : ℕ
  pub endian : ℕ
  pub abi : ℕ
  pub reserved : ℕ
  pub entry_point : ℕ
  pub bss_byte_size : ℕ
  pub frame_size : ℕ
  pub frame_byte_size : ℕ
  pub functions : List ProgramImageFunction
  pub param_kinds : List ℕ
  pub param_offsets : List ℕ
  pub text : Bytes
  pub const_data : Bytes
  pub data_data : Bytes

-- `lenU32`
abbrev pub len_u32 {ℓ} : {A : Type ℓ} → List A → ℕ
len_u32 values = length values % 2 ^ 32

-- The loop over the kinds of the parameters.
unfoldable pub check_kinds : List ℕ → Result (Unit {0})
check_kinds [] = value tt
check_kinds (kind ∷ kinds) = do
  guard (leb kind_count kind) VmStatus.invalid_parameter
  check_kinds kinds

-- The body of the loop over the functions, and the loop.
unfoldable pub check_function : ProgramImage → ProgramImageFunction → Result (Unit {0})
check_function image function = do
  guard (leb kind_count function.return_kind) VmStatus.invalid_descriptor
  guard (leb (len_u32 image.text) function.body_address) VmStatus.invalid_descriptor
  guard (ltb (len_u32 image.param_kinds) function.param_start) VmStatus.invalid_parameter
  guard (ltb (len_u32 image.param_kinds - function.param_start) function.param_count)
      VmStatus.invalid_parameter
  guard (ltb image.frame_size ((function.param_start + function.param_count) % 2 ^ 32))
      VmStatus.invalid_parameter
  guard (ltb image.frame_byte_size function.frame_byte_size) VmStatus.invalid_descriptor

unfoldable pub check_functions : ProgramImage → List ProgramImageFunction → Result (Unit {0})
check_functions image [] = value tt
check_functions image (function ∷ functions) = do
  check_function image function
  check_functions image functions

-- `validateProgramImage`
unfoldable pub validate_program_image : ProgramImage → Result (Unit {0})
validate_program_image image = do
  guard (not (image.magic == program_image_magic)) VmStatus.invalid_image
  guard (not (image.version == program_image_version)) VmStatus.unsupported_image
  guard (not (image.endian == program_image_endian_little) || not (image.abi == program_image_abi))
      VmStatus.unsupported_image
  guard (not (length image.param_kinds == length image.param_offsets)) VmStatus.invalid_parameter
  guard (leb (length image.functions) image.entry_point) VmStatus.invalid_target
  check_kinds image.param_kinds
  check_functions image image.functions

-- `imageFunctionFromDescriptor`
unfoldable pub image_function_from_descriptor :
    ScriptFunctionDescriptor → Result ProgramImageFunction
image_function_from_descriptor function = do
  guard (leb kind_count (kind_number function.return_kind)) VmStatus.invalid_descriptor
  value (record {
    body_address = function.body_address;
    param_start = function.param_start;
    param_count = function.param_count;
    frame_byte_size = function.frame_byte_size;
    return_kind = kind_number function.return_kind;
    reserved0 = 0;
    reserved1 = 0;
    reserved2 = 0;
  })

-- The loop over the functions.
unfoldable pub image_functions : List ScriptFunctionDescriptor → Result (List ProgramImageFunction)
image_functions [] = value []
image_functions (function ∷ functions) = do
  first ← image_function_from_descriptor function
  rest ← image_functions functions
  value (first ∷ rest)

-- `imageParamKindsFromKinds`
unfoldable pub image_param_kinds_from_kinds : List ValueKind → Result (List ℕ)
image_param_kinds_from_kinds [] = value []
image_param_kinds_from_kinds (kind ∷ kinds) = do
  guard (leb kind_count (kind_number kind)) VmStatus.invalid_parameter
  rest ← image_param_kinds_from_kinds kinds
  value (kind_number kind ∷ rest)

-- The image that `linkedProgramToImage` builds before it validates it.
abbrev pub image_of : LinkedProgram → List ProgramImageFunction → List ℕ → ProgramImage
image_of program functions param_kinds = record {
  magic = program_image_magic;
  version = program_image_version;
  endian = program_image_endian_little;
  abi = program_image_abi;
  reserved = 0;
  entry_point = program.entry_point;
  bss_byte_size = program.bss_byte_size;
  frame_size = program.frame_size;
  frame_byte_size = program.frame_byte_size;
  functions = functions;
  param_kinds = param_kinds;
  param_offsets = program.param_offsets;
  text = program.text;
  const_data = program.const_data;
  data_data = program.data_data;
}

-- The end of `linkedProgramToImage`, from the validation on and from the parameters on.
abbrev pub checked_image : ProgramImage → Result ProgramImage
checked_image image = do validate_program_image image; value image

abbrev pub with_functions : LinkedProgram → List ProgramImageFunction → Result ProgramImage
with_functions program functions = do
  param_kinds ← image_param_kinds_from_kinds program.param_kinds
  checked_image (image_of program functions param_kinds)

-- `linkedProgramToImage`
unfoldable pub linked_program_to_image : LinkedProgram → Result ProgramImage
linked_program_to_image program = do
  guard (not (program.const_byte_size == len_u32 program.const_data)) VmStatus.invalid_image
  guard (not (program.data_byte_size == len_u32 program.data_data)) VmStatus.invalid_image
  guard (leb (len_u32 program.functions) program.entry_point) VmStatus.invalid_descriptor
  functions ← image_functions program.functions
  with_functions program functions

unfoldable pub descriptor_from_image : ProgramImageFunction → ScriptFunctionDescriptor
descriptor_from_image function = record {
  body_address = function.body_address;
  param_start = function.param_start;
  param_count = function.param_count;
  frame_byte_size = function.frame_byte_size;
  return_kind = kind_of function.return_kind;
}

-- The program that `linkedProgramFromImage` builds: an image has no BSSSize.
unfoldable pub program_of : ProgramImage → LinkedProgram
program_of image = record {
  text = image.text;
  entry_point = image.entry_point;
  functions = map descriptor_from_image image.functions;
  param_kinds = map kind_of image.param_kinds;
  param_offsets = image.param_offsets;
  frame_size = image.frame_size;
  frame_byte_size = image.frame_byte_size;
  const_byte_size = len_u32 image.const_data;
  const_data = image.const_data;
  data_byte_size = len_u32 image.data_data;
  data_data = image.data_data;
  bss_size = 0;
  bss_byte_size = image.bss_byte_size;
}

-- `linkedProgramFromImage`
unfoldable pub linked_program_from_image : ProgramImage → Result LinkedProgram
linked_program_from_image image = do validate_program_image image; value (program_of image)

-- Package codestream, as `encodeProgramImage` and `decodeProgramImage` use it; `none` is an error.
pub record ImageCodec : Type 0 where
  pub encode : ProgramImage → Option Bytes
  pub decode : Bytes → Option ProgramImage

-- Package codestream reads back what it wrote.
pub record ReadsBack (codec : ImageCodec) : Type 0 where
  pub decode-encode :
      (image : ProgramImage) (blob : Bytes)
      → codec.encode image ≡ some blob
      → codec.decode blob ≡ some image

abbrev pub or_invalid {ℓ} : {A : Type ℓ} → Option A → Result A
or_invalid none = error VmStatus.invalid_image
or_invalid (some a) = value a

-- `BuildProgramImage`
unfoldable pub build_program_image : ImageCodec → LinkedProgram → Result Bytes
build_program_image codec program = do
  image ← linked_program_to_image program
  or_invalid (codec.encode image)

-- `OpenProgramImage`
unfoldable pub open_program_image : ImageCodec → Bytes → Result ProgramImage
open_program_image codec blob = do image ← or_invalid (codec.decode blob); checked_image image
