-- ===== src/Code/General.antt =====
-- The general instruction of cova/code-memory.go: opcode, kind, mode and flags.
use ccova.Prelude.{ℕ, ◌+◌, ◌*◌, ◌/◌, ◌^◌, ◌<◌, ◌≡◌, refl, arith, bit_and}
use ccova.Prelude.Bits.{bit_and-mask, bit_or-add_low}
use ccova.Kind.{
  ValueKind, kind_number, Opcode, opcode_of, opcode_number, InstructionMode, mode_number,
}
use ccova.Kind.Laws.{kind_of-kind_number}
use ccova.Code.{shl16, make_instruction, opcode, kind}
use ccova.Code.Fields.{packed_sum}

mode_number-lt : (mode : InstructionMode) → mode_number mode < 4
unfolding mode_number
mode_number-lt InstructionMode.none = omega arith
mode_number-lt InstructionMode.implicit = omega arith
mode_number-lt InstructionMode.extend = omega arith
mode_number-lt InstructionMode.reserved = omega arith

-- The fields in one sum.
make_instruction-sum :
    (op : Opcode) (k : ValueKind) (mode : InstructionMode) (flags : ℕ)
    → opcode_number op < 32
    → kind_number k < 16
    → flags < 16
    → make_instruction op k mode flags
      ≡ flags * 4096 + (opcode_number op + kind_number k * 64 + mode_number mode * 1024)
unfolding make_instruction
make_instruction-sum op k mode flags ho hk hf =
    let m = mode_number-lt mode in
    let low : bit_and (opcode_number op) 0x1f ≡ opcode_number op =
      omega (arith, bit_and-mask 5 (opcode_number op)) in
    let mid : bit_and (kind_number k) 0x0f ≡ kind_number k =
      omega (arith, bit_and-mask 4 (kind_number k)) in
    let third : bit_and (mode_number mode) 0x03 ≡ mode_number mode =
      omega (arith, m, bit_and-mask 2 (mode_number mode)) in
    let fourth : bit_and flags 0x0f ≡ flags = omega (arith, bit_and-mask 4 flags) in
    let cut : shl16 flags 12 ≡ flags * 2 ^ 12 = omega arith in
    let inner =
      packed_sum (opcode_number op) (kind_number k) (mode_number mode) (omega arith) hk
        (omega (arith, m)) in
    rw (low, mid, third, fourth, cut, inner)
      (bit_or-add_low 12 flags (opcode_number op + kind_number k * 64 + mode_number mode * 1024)
        (omega (arith, m)))

-- A general instruction decodes to its opcode and its kind and has 16 bits, for an opcode
-- below 32, a kind below 16 and flags below 16, whatever its mode.
pub make_instruction_fields :
    (op : Opcode) (k : ValueKind) (mode : InstructionMode) (flags : ℕ)
    → opcode_number op < 32
    → kind_number k < 16
    → flags < 16
    → (opcode (make_instruction op k mode flags) ≡ opcode_of (opcode_number op))
      × (kind (make_instruction op k mode flags) ≡ k)
      × (make_instruction op k mode flags < 2 ^ 16)
unfolding opcode kind
make_instruction_fields op k mode flags ho hk hf =
    let i = make_instruction op k mode flags in
    let sum = make_instruction-sum op k mode flags ho hk hf in
    let m = mode_number-lt mode in
    let low : bit_and i 0x1f ≡ opcode_number op = omega (arith, sum, m, bit_and-mask 5 i) in
    let mid : bit_and (i / 2 ^ 6) 0x0f ≡ kind_number k =
      omega (arith, sum, m, bit_and-mask 4 (i / 2 ^ 6)) in
    (rw low refl, rw mid (kind_of-kind_number k), omega (arith, sum, m))
