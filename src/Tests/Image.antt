-- ===== src/Tests/Image.antt =====
-- A small program and its image, with a codec that writes images of one function.
use ccova.Prelude.{ℕ, ◌≡◌, ◌↔◌, refl, sym, arith, Option, none, some, List, [], ◌∷◌}
use mathlib.Core.Option.{some-injective}
use ccova.Status.{VmStatus, value, error}
use ccova.Kind.{ValueKind, kind_number}
use ccova.Segment.{Bytes}
use ccova.Program.{LinkedProgram, ScriptFunctionDescriptor}
use ccova.Image.{
  ProgramImage, ProgramImageFunction, image_of, program_image_magic, program_image_version,
  ImageCodec, ReadsBack, validate_program_image, linked_program_to_image, linked_program_from_image,
  build_program_image, image_functions, image_function_from_descriptor,
  image_param_kinds_from_kinds, check_kinds, check_function, check_functions,
}
use ccova.Image.Valid.{IsValidImage, validate_program_image-IsValidImage}
use ccova.Image.Laws.{linked_program_from_image-to_image}
use ccova.Vm.State.{VmConfig, done, clear_fault, unseeded_vm}
use ccova.Vm.Load.{install}
use ccova.Vm.Keeps.Whole.{SizesAgree}
use ccova.Vm.Image.{load_program_image, load_program_image-build_program_image}

-- Images of one function without parameters and initialised data, as a list of their numbers.
abbrev encode_parts :
    ProgramImage → List ProgramImageFunction → List ℕ → List ℕ → Bytes → Bytes → Option Bytes
encode_parts image (function ∷ []) [] [] [] [] = some (
    image.magic ∷ image.version ∷ image.endian ∷ image.abi ∷ image.reserved ∷ image.entry_point
    ∷ image.bss_byte_size ∷ image.frame_size ∷ image.frame_byte_size ∷ function.body_address
    ∷ function.param_start ∷ function.param_count ∷ function.frame_byte_size ∷ function.return_kind
    ∷ function.reserved0 ∷ function.reserved1 ∷ function.reserved2 ∷ image.text)
encode_parts image _ _ _ _ _ = none

abbrev decode_image : Bytes → Option ProgramImage
decode_image
      (magic ∷ version ∷ endian ∷ abi ∷ reserved ∷ entry ∷ bss ∷ frame ∷ frame_bytes ∷ body ∷ start
        ∷ count ∷ size ∷ kind ∷ r0 ∷ r1 ∷ r2 ∷ text) =
    some (record {
      magic = magic;
      version = version;
      endian = endian;
      abi = abi;
      reserved = reserved;
      entry_point = entry;
      bss_byte_size = bss;
      frame_size = frame;
      frame_byte_size = frame_bytes;
      functions =
          record {
            body_address = body;
            param_start = start;
            param_count = count;
            frame_byte_size = size;
            return_kind = kind;
            reserved0 = r0;
            reserved1 = r1;
            reserved2 = r2;
          }
          ∷ [];
      param_kinds = [];
      param_offsets = [];
      text = text;
      const_data = [];
      data_data = [];
    })
decode_image _ = none

abbrev one_function : ImageCodec
one_function = record {
  encode = λ image.
      encode_parts image image.functions image.param_kinds image.param_offsets image.const_data
        image.data_data;
  decode = decode_image;
}

decode-encode_parts :
    (image : ProgramImage) (functions : List ProgramImageFunction) (kinds offsets : List ℕ)
    (constants initial : Bytes) {blob : Bytes}
    → encode_parts image functions kinds offsets constants initial ≡ some blob
    → decode_image blob
      ≡ some (record image {
        functions = functions;
        param_kinds = kinds;
        param_offsets = offsets;
        const_data = constants;
        data_data = initial;
      })
decode-encode_parts image (function ∷ []) [] [] [] [] h = rw (sym (some-injective _ _ h)) refl
decode-encode_parts image [] kinds offsets constants initial h = cc
decode-encode_parts image (f ∷ g ∷ functions) kinds offsets constants initial h = cc
decode-encode_parts image (f ∷ []) (k ∷ kinds) offsets constants initial h = cc
decode-encode_parts image (f ∷ []) [] (o ∷ offsets) constants initial h = cc
decode-encode_parts image (f ∷ []) [] [] (c ∷ constants) initial h = cc
decode-encode_parts image (f ∷ []) [] [] [] (d ∷ initial) h = cc

one_function-ReadsBack : ReadsBack one_function
one_function-ReadsBack = record {
  decode-encode = λ image blob h.
      decode-encode_parts image image.functions image.param_kinds image.param_offsets
        image.const_data image.data_data h;
}

abbrev small_config : VmConfig
small_config = record {
  frame_capacity = 16;
  stack_capacity = 16;
  call_frame_capacity = 2;
  timer_capacity = 0;
}

-- `halt`, at address 0, in a function that takes nothing.
abbrev halting : LinkedProgram
halting = record {
  text = 1 ∷ 0 ∷ [];
  entry_point = 0;
  functions =
      record {
        body_address = 0;
        param_start = 0;
        param_count = 0;
        frame_byte_size = 4;
        return_kind = ValueKind.int32;
      }
      ∷ [];
  param_kinds = [];
  param_offsets = [];
  frame_size = 1;
  frame_byte_size = 8;
  const_byte_size = 0;
  const_data = [];
  data_byte_size = 0;
  data_data = [];
  bss_size = 2;
  bss_byte_size = 8;
}

abbrev halting_image : ProgramImage
halting_image =
    image_of halting
      (record {
        body_address = 0;
        param_start = 0;
        param_count = 0;
        frame_byte_size = 4;
        return_kind = kind_number ValueKind.int32;
        reserved0 = 0;
        reserved1 = 0;
        reserved2 = 0;
      }
        ∷ [])
      []

halting_made : linked_program_to_image halting ≡ value halting_image
unfolding linked_program_to_image image_functions image_function_from_descriptor
    image_param_kinds_from_kinds validate_program_image check_kinds check_functions check_function
    kind_number
halting_made = refl

linked_program_from_image-to_image_example :
    linked_program_from_image halting_image ≡ value (record halting { bss_size = 0 })
linked_program_from_image-to_image_example =
    linked_program_from_image-to_image halting halting_image halting_made

halting_agrees : SizesAgree halting
halting_agrees = record { const_agrees = refl; data_agrees = refl; text_fits = omega arith }

abbrev halting_blob : Bytes
halting_blob =
    program_image_magic
    ∷ program_image_version
    ∷ 1
    ∷ 1
    ∷ 0
    ∷ 0
    ∷ 8
    ∷ 1
    ∷ 8
    ∷ 0
    ∷ 0
    ∷ 0
    ∷ 4
    ∷ kind_number ValueKind.int32
    ∷ 0
    ∷ 0
    ∷ 0
    ∷ 1
    ∷ 0
    ∷ []

halting_built : build_program_image one_function halting ≡ value halting_blob
unfolding build_program_image
halting_built = rw halting_made refl

load_program_image-build_program_image_example :
    load_program_image one_function halting_blob (unseeded_vm small_config)
    ≡ done tt (install (record halting { bss_size = 0 }) (clear_fault (unseeded_vm small_config)))
load_program_image-build_program_image_example =
    load_program_image-build_program_image one_function halting halting_blob
      (unseeded_vm small_config) one_function-ReadsBack halting_agrees halting_built

-- Two functions of two parameters each: the parameters of the second are the entries 2 and 3 of
-- the table, while `FrameSize` is the largest number of slots of one function, 2.
abbrev two_parameters : ℕ → ScriptFunctionDescriptor
two_parameters start = record {
  body_address = 0;
  param_start = start;
  param_count = 2;
  frame_byte_size = 8;
  return_kind = ValueKind.int32;
}

abbrev two_functions : LinkedProgram
two_functions = record halting {
  functions = two_parameters 0 ∷ two_parameters 2 ∷ [];
  param_kinds = ValueKind.int32 ∷ ValueKind.int32 ∷ ValueKind.int32 ∷ ValueKind.int32 ∷ [];
  param_offsets = 0 ∷ 4 ∷ 0 ∷ 4 ∷ [];
  frame_size = 2;
}

two_functions-refused : linked_program_to_image two_functions ≡ error VmStatus.invalid_parameter
unfolding linked_program_to_image image_functions image_function_from_descriptor
    image_param_kinds_from_kinds validate_program_image check_kinds check_functions check_function
    kind_number
two_functions-refused = refl

validate_program_image-IsValidImage_example :
    (validate_program_image halting_image ≡ value tt) ↔ IsValidImage halting_image
validate_program_image-IsValidImage_example = validate_program_image-IsValidImage halting_image
