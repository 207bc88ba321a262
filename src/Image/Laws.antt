-- ===== src/Image/Laws.antt =====
-- The conversions between a linked program and its image (cova/image.go) undo each other.
use ccova.Prelude.{
  ℕ, ◌≡◌, refl, subst, ap, sym, Option, none, some, List, [], ◌∷◌, map, not, ◌==◌, leb, arith, ◌<◌,
}
use ccova.Status.{VmStatus, value, guard-then, value_injective, bind-eq-value}
use ccova.Kind.{ValueKind, kind_of, kind_number, kind_count}
use ccova.Kind.Laws.{kind_of-kind_number}
use ccova.Segment.{Bytes}
use ccova.Program.{LinkedProgram, ScriptFunctionDescriptor}
use ccova.Image.{
  ProgramImage, ProgramImageFunction, len_u32, validate_program_image,
  image_function_from_descriptor, image_functions, image_param_kinds_from_kinds, image_of,
  checked_image, with_functions, linked_program_to_image, descriptor_from_image, program_of,
  linked_program_from_image, ImageCodec, ReadsBack, or_invalid, build_program_image,
  open_program_image,
}

descriptor-image :
    (function : ScriptFunctionDescriptor) {i : ProgramImageFunction}
    → image_function_from_descriptor function ≡ value i
    → descriptor_from_image i ≡ function
unfolding image_function_from_descriptor descriptor_from_image
descriptor-image function {i} h =
    let test = leb kind_count (kind_number function.return_kind) in
    let made = guard-then test VmStatus.invalid_descriptor _ h in
    rw (sym (value_injective made.1), kind_of-kind_number function.return_kind) refl

pub descriptors-image :
    (functions : List ScriptFunctionDescriptor) {is : List ProgramImageFunction}
    → image_functions functions ≡ value is
    → map descriptor_from_image is ≡ functions
unfolding image_functions
descriptors-image [] {is} h = rw (sym (value_injective h)) refl
descriptors-image (function ∷ functions) {is} h =
    let (i, first, more) = bind-eq-value (image_function_from_descriptor function) _ h in
    let (js, rest, made) = bind-eq-value (image_functions functions) (λ ks. value (i ∷ ks)) more in
    rw
      (
        sym (value_injective made),
        descriptor-image function first,
        descriptors-image functions rest,
      )
      refl

pub kinds-image :
    (kinds : List ValueKind) {is : List ℕ}
    → image_param_kinds_from_kinds kinds ≡ value is
    → map kind_of is ≡ kinds
unfolding image_param_kinds_from_kinds
kinds-image [] {is} h = rw (sym (value_injective h)) refl
kinds-image (kind ∷ kinds) {is} h =
    let test = leb kind_count (kind_number kind) in
    let checked = guard-then test VmStatus.invalid_parameter _ h in
    let (js, rest, made) =
      bind-eq-value (image_param_kinds_from_kinds kinds) (λ js. value (kind_number kind ∷ js))
        checked.1 in
    rw (sym (value_injective made), kind_of-kind_number kind, kinds-image kinds rest) refl

-- What the success of the conversion says, test by test.
pub record Converted (program : LinkedProgram) (image : ProgramImage) : Type 0 where
  pub const_size : program.const_byte_size ≡ len_u32 program.const_data
  pub data_size : program.data_byte_size ≡ len_u32 program.data_data
  pub entry : program.entry_point < len_u32 program.functions
  pub functions : List ProgramImageFunction
  pub param_kinds : List ℕ
  pub functions_made : image_functions program.functions ≡ value functions
  pub kinds_made : image_param_kinds_from_kinds program.param_kinds ≡ value param_kinds
  pub is_image : image_of program functions param_kinds ≡ image
  pub valid : validate_program_image image ≡ value tt

pub converted :
    (program : LinkedProgram) {image : ProgramImage}
    → linked_program_to_image program ≡ value image
    → Converted program image
unfolding linked_program_to_image
converted program {image} h =
    let const_test = not (program.const_byte_size == len_u32 program.const_data) in
    let data_test = not (program.data_byte_size == len_u32 program.data_data) in
    let entry_test = leb (len_u32 program.functions) program.entry_point in
    let const_checked = guard-then const_test VmStatus.invalid_image _ h in
    let data_checked = guard-then data_test VmStatus.invalid_image _ const_checked.1 in
    let entry_checked = guard-then entry_test VmStatus.invalid_descriptor _ data_checked.1 in
    let (functions, functions_made, more) =
      bind-eq-value (image_functions program.functions) (with_functions program) entry_checked.1 in
    let (kinds, kinds_made, rest) =
      bind-eq-value (image_param_kinds_from_kinds program.param_kinds)
        (λ kinds. checked_image (image_of program functions kinds)) more in
    let (unit, valid, made) =
      bind-eq-value (validate_program_image (image_of program functions kinds))
        (λ _. value (image_of program functions kinds)) rest in
    let same = value_injective made in
    record {
      const_size = ground (arith, const_checked.0);
      data_size = ground (arith, data_checked.0);
      entry = ground (arith, entry_checked.0);
      functions = functions;
      param_kinds = kinds;
      functions_made = functions_made;
      kinds_made = kinds_made;
      is_image = same;
      valid = subst (λ i. validate_program_image i ≡ value tt) same valid;
    }

program_of-image_of :
    (program : LinkedProgram) {image : ProgramImage}
    → Converted program image
    → program_of image ≡ record program { bss_size = 0 }
unfolding program_of
program_of-image_of program c =
    rw
      (
        sym c.is_image,
        descriptors-image program.functions c.functions_made,
        kinds-image program.param_kinds c.kinds_made,
        sym c.const_size,
        sym c.data_size,
      )
      refl

-- The image that `linkedProgramToImage` makes of a program is turned back into that program by
-- `linkedProgramFromImage`, with a BSSSize of 0.
pub linked_program_from_image-to_image :
    (program : LinkedProgram) (image : ProgramImage)
    → linked_program_to_image program ≡ value image
    → linked_program_from_image image ≡ value (record program { bss_size = 0 })
unfolding linked_program_from_image
linked_program_from_image-to_image program image h =
    let c = converted program h in rw (c.valid, program_of-image_of program c) refl

or_invalid-value : {A : Type 0} (m : Option A) {a : A} → or_invalid m ≡ value a → m ≡ some a
or_invalid-value none h = cc
or_invalid-value (some a) h = ap some (value_injective h)

-- What was built opens as the program it was built from.
pub open-build :
    (codec : ImageCodec) (program : LinkedProgram) (blob : Bytes)
    → ReadsBack codec
    → build_program_image codec program ≡ value blob
    → (image : ProgramImage) × (linked_program_to_image program ≡ value image)
      × (open_program_image codec blob ≡ value image)
unfolding build_program_image open_program_image
open-build codec program blob reads h =
    let (image, made, written) =
      bind-eq-value (linked_program_to_image program) (λ image. or_invalid (codec.encode image))
        h in
    let read = reads.decode-encode image blob (or_invalid-value (codec.encode image) written) in
    (image, made, rw (read, (converted program made).valid) refl)
