-- ===== src/Vm/Image.antt =====
-- cova/vm.go: `LoadProgramImage` and `RunImage`.
use ccova.Prelude.{ℕ, ◌≡◌, inl, inr, Option}
use ccova.Status
use ccova.Status.{Result, value, error, minus_one}
use ccova.Segment.{Bytes}
use ccova.Floats.{Floats}
use ccova.Program.{LinkedProgram}
use ccova.Image.{
  ImageCodec, ReadsBack, build_program_image, open_program_image, linked_program_from_image,
}
use ccova.Image.Laws.{open-build, linked_program_from_image-to_image}
use ccova.Vm.State.{Vm, M, done, ◌>>=◌, ◌>>◌, modify, fault, clear_fault}
use ccova.Vm.Load.{install, load_program, run_loaded, then_run}
use ccova.Vm.Keeps.Whole.{SizesAgree, load_program-outcomes}
use ccova.Vm.Run.{ExternDispatcher, Run}

-- The program of the bytes of an image.
abbrev pub opened_program : ImageCodec → Bytes → Result LinkedProgram
opened_program codec blob = Status.◌>>=◌ (open_program_image codec blob) linked_program_from_image

abbrev pub load_opened : Result LinkedProgram → M (Unit {0})
load_opened (error status) = fault status minus_one minus_one minus_one
load_opened (value program) = load_program program

-- `LoadProgramImage`
unfoldable pub load_program_image : ImageCodec → Bytes → M (Unit {0})
load_program_image codec blob = modify clear_fault >> load_opened (opened_program codec blob)

-- `RunImage`
unfoldable pub run_image :
    Floats → (ℕ → ℕ) → Option ExternDispatcher → ImageCodec → Bytes → ℕ → ℕ → Vm → Run
run_image floats seconds dispatcher codec blob fuel now vm =
    then_run (λ _. run_loaded floats seconds dispatcher fuel now) (load_program_image codec blob vm)

-- Where `BuildProgramImage` makes the bytes of a program whose sizes agree, and package
-- codestream reads back what it wrote, `LoadProgramImage` of these bytes succeeds, and
-- installs the program, with a BSSSize of 0, in the machine without a fault.
pub load_program_image-build_program_image :
    (codec : ImageCodec) (program : LinkedProgram) (blob : Bytes) (vm : Vm)
    → ReadsBack codec
    → SizesAgree program
    → build_program_image codec program ≡ value blob
    → load_program_image codec blob vm
      ≡ done tt (install (record program { bss_size = 0 }) (clear_fault vm))
unfolding load_program_image ◌>>=◌ modify clear_fault
load_program_image-build_program_image codec program blob vm reads agrees h =
    let without_bss_size : LinkedProgram = record program { bss_size = 0 } in
    let fits : SizesAgree without_bss_size = record {
      const_agrees = agrees.const_agrees;
      data_agrees = agrees.data_agrees;
      text_fits = agrees.text_fits;
    } in
    let (image, made, opened) = open-build codec program blob reads h in
    rw (opened, linked_program_from_image-to_image program image made)
      (elim (load_program-outcomes without_bss_size (clear_fault vm)) [
        | inr refused ↦ absurd (refused.0 fits)
        | inl loaded ↦ loaded.1
      ])
