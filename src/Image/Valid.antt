-- ===== src/Image/Valid.antt =====
-- What `validateProgramImage` of cova/image.go accepts, as predicates.
use ccova.Prelude.{
  ℕ, ◌+◌, ◌-◌, ◌%◌, ◌^◌, ◌≤◌, ◌<◌, ◌≡◌, ◌↔◌, refl, arith, not, ◌||◌, List, [], ◌∷◌, All, ltb, leb,
  ◌==◌, length, lt→leb, le→ltb, eq→==,
}
use ccova.Status.{VmStatus, value, guard-then, guard-pass, guard-passed, both-pass, both-passed}
use ccova.Kind.{kind_count}
use ccova.Image.{
  ProgramImage, ProgramImageFunction, len_u32, check_kinds, check_function, check_functions,
  validate_program_image, program_image_magic, program_image_version, program_image_endian_little,
  program_image_abi,
}

-- The body of a function is in the text, its parameters are in the table, and both the end of its
-- parameters and its frame are within the largest of the image.
pub record IsValidFunction (image : ProgramImage) (function : ProgramImageFunction) : Type 0 where
  pub kind : function.return_kind < kind_count
  pub body : function.body_address < len_u32 image.text
  pub params : function.param_start + function.param_count ≤ len_u32 image.param_kinds
  pub slots : function.param_start + function.param_count ≤ image.frame_size
  pub frame : function.frame_byte_size ≤ image.frame_byte_size

pub record IsValidImage (image : ProgramImage) : Type 0 where
  pub magic : image.magic ≡ program_image_magic
  pub version : image.version ≡ program_image_version
  pub endian : image.endian ≡ program_image_endian_little
  pub abi : image.abi ≡ program_image_abi
  pub tables : length image.param_kinds ≡ length image.param_offsets
  pub entry : image.entry_point < length image.functions
  pub kinds : All (λ kind. kind < kind_count) image.param_kinds
  pub functions : All (IsValidFunction image) image.functions

kinds-valid :
    (kinds : List ℕ) → check_kinds kinds ≡ value tt → All (λ kind. kind < kind_count) kinds
unfolding check_kinds
kinds-valid [] h = tt
kinds-valid (kind ∷ kinds) h =
    let checked = guard-then (leb kind_count kind) VmStatus.invalid_parameter _ h in
    (ground (arith, checked.0), kinds-valid kinds checked.1)

valid-kinds :
    (kinds : List ℕ) → All (λ kind. kind < kind_count) kinds → check_kinds kinds ≡ value tt
unfolding check_kinds
valid-kinds [] h = refl
valid-kinds (kind ∷ kinds) h =
    rw (guard-pass VmStatus.invalid_parameter (check_kinds kinds) (lt→leb kind_count kind h.0))
      (valid-kinds kinds h.1)

module _ (image : ProgramImage) where
  function-valid :
      (function : ProgramImageFunction)
      → check_function image function ≡ value tt
      → IsValidFunction image function
  unfolding check_function
  function-valid function h =
      let kinds = len_u32 image.param_kinds in
      let end = (function.param_start + function.param_count) % 2 ^ 32 in
      let kind_test = leb kind_count function.return_kind in
      let body_test = leb (len_u32 image.text) function.body_address in
      let start_test = ltb kinds function.param_start in
      let count_test = ltb (kinds - function.param_start) function.param_count in
      let slot_test = ltb image.frame_size end in
      let frame_test = ltb image.frame_byte_size function.frame_byte_size in
      let a = guard-then kind_test VmStatus.invalid_descriptor _ h in
      let b = guard-then body_test VmStatus.invalid_descriptor _ a.1 in
      let c = guard-then start_test VmStatus.invalid_parameter _ b.1 in
      let d = guard-then count_test VmStatus.invalid_parameter _ c.1 in
      let e = guard-then slot_test VmStatus.invalid_parameter _ d.1 in
      let f = guard-passed frame_test VmStatus.invalid_descriptor e.1 in
      record {
        kind = ground (arith, a.0);
        body = ground (arith, b.0);
        params = ground (arith, c.0, d.0);
        slots = ground (arith, c.0, d.0, e.0);
        frame = ground (arith, f);
      }

  valid-function :
      (function : ProgramImageFunction)
      → IsValidFunction image function
      → check_function image function ≡ value tt
  unfolding check_function
  valid-function function v =
      let kinds = len_u32 image.param_kinds in
      let end = (function.param_start + function.param_count) % 2 ^ 32 in
      rw
        (
          lt→leb kind_count function.return_kind v.kind,
          lt→leb (len_u32 image.text) function.body_address v.body,
          le→ltb kinds function.param_start (omega (arith, v.params)),
          le→ltb (kinds - function.param_start) function.param_count (omega (arith, v.params)),
          le→ltb image.frame_size end (omega (arith, v.params, v.slots)),
          le→ltb image.frame_byte_size function.frame_byte_size v.frame,
        )
        refl

  functions-valid :
      (functions : List ProgramImageFunction)
      → check_functions image functions ≡ value tt
      → All (IsValidFunction image) functions
  unfolding check_functions
  functions-valid [] h = tt
  functions-valid (function ∷ functions) h =
      let passed =
        both-passed (check_function image function) (check_functions image functions) h in
      (function-valid function passed.0, functions-valid functions passed.1)

  valid-functions :
      (functions : List ProgramImageFunction)
      → All (IsValidFunction image) functions
      → check_functions image functions ≡ value tt
  unfolding check_functions
  valid-functions [] v = refl
  valid-functions (function ∷ functions) v =
      both-pass (valid-function function v.0) (valid-functions functions v.1)

  image-valid : validate_program_image image ≡ value tt → IsValidImage image
  unfolding validate_program_image
  image-valid h =
      let endian_test = not (image.endian == program_image_endian_little) in
      let abi_test = not (image.abi == program_image_abi) in
      let table_test = not (length image.param_kinds == length image.param_offsets) in
      let entry_test = leb (length image.functions) image.entry_point in
      let a = guard-then (not (image.magic == program_image_magic)) VmStatus.invalid_image _ h in
      let b =
        guard-then (not (image.version == program_image_version)) VmStatus.unsupported_image _
          a.1 in
      let c = guard-then (endian_test || abi_test) VmStatus.unsupported_image _ b.1 in
      let d = guard-then table_test VmStatus.invalid_parameter _ c.1 in
      let e = guard-then entry_test VmStatus.invalid_target _ d.1 in
      let f =
        both-passed (check_kinds image.param_kinds) (check_functions image image.functions) e.1 in
      record {
        magic = ground (arith, a.0);
        version = ground (arith, b.0);
        endian = ground (arith, c.0);
        abi = ground (arith, c.0);
        tables = ground (arith, d.0);
        entry = ground (arith, e.0);
        kinds = kinds-valid image.param_kinds f.0;
        functions = functions-valid image.functions f.1;
      }

  valid-image : IsValidImage image → validate_program_image image ≡ value tt
  unfolding validate_program_image
  valid-image v =
      rw
        (
          eq→== image.magic program_image_magic v.magic,
          eq→== image.version program_image_version v.version,
          eq→== image.endian program_image_endian_little v.endian,
          eq→== image.abi program_image_abi v.abi,
          eq→== (length image.param_kinds) (length image.param_offsets) v.tables,
          lt→leb (length image.functions) image.entry_point v.entry,
          valid-kinds image.param_kinds v.kinds,
          valid-functions image.functions v.functions,
        )
        refl

-- `validateProgramImage` returns VMStatusOK exactly for the images of the expected magic,
-- version, endianness and ABI that have as many parameter kinds as offsets, an entry point
-- among the functions, parameter kinds below KindCount, and functions with a return kind below
-- KindCount, a body in the text, parameters that end within the table and within FrameSize,
-- and a frame within FrameByteSize; lengths are taken modulo 2 ^ 32.
pub validate_program_image-IsValidImage :
    (image : ProgramImage) → (validate_program_image image ≡ value tt) ↔ IsValidImage image
validate_program_image-IsValidImage image = (image-valid image, valid-image image)
