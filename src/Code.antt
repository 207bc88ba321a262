-- ===== src/Code.antt =====
-- cova/code-memory.go: 16-bit instructions with their fields, and the byte code that holds them
-- with their immediates. A program counter is a uint32; a slice out of range is a panic, `none`.
pub mod Fields
pub mod General
pub mod Laws
use ccova.Prelude.{
  ℕ, ◌+◌, ◌-◌, ◌*◌, ◌/◌, ◌%◌, ◌^◌, bit_and, bit_or, Option, none, some, ◌++◌, ◌==◌, ltb,
  if◌then◌else◌, length, take, List, [], ◌∷◌,
}
use ccova.Status.{VmStatus, Result, value, error}
use ccova.Kind.{
  ValueKind, kind_of, kind_number, size, Opcode, opcode_of, opcode_number, ArithmeticOp,
  arithmetic_op_of, arithmetic_op_number, CompareOp, compare_op_of, compare_op_number,
  InstructionMode, mode_number,
}
use ccova.Segment.{Bytes, put_uint, get_uint, window, overwrite}

-- An `Instruction` is a number below 2 ^ 16.
abbrev pub Instruction : Type 0
Instruction = ℕ

abbrev pub shl16 : ℕ → ℕ → ℕ
shl16 x k = x * 2 ^ k % 2 ^ 16

unfoldable pub make_instruction : Opcode → ValueKind → InstructionMode → ℕ → Instruction
make_instruction op kind mode flags =
    bit_or
      (bit_or (bit_or (bit_and (opcode_number op) 0x1f) (shl16 (bit_and (kind_number kind) 0x0f) 6))
        (shl16 (bit_and (mode_number mode) 0x03) 10))
      (shl16 (bit_and flags 0x0f) 12)

unfoldable pub make_arithmetic_instruction : ValueKind → ArithmeticOp → Instruction
make_arithmetic_instruction kind op =
    bit_or
      (bit_or (bit_and (opcode_number Opcode.arithmetic) 0x3f)
        (shl16 (bit_and (kind_number kind) 0x0f) 6))
      (shl16 (bit_and (arithmetic_op_number op) 0x3f) 10)

unfoldable pub make_addr_instruction : ℕ → Instruction
make_addr_instruction segment =
    bit_or (bit_and (opcode_number Opcode.addr) 0x3f) (shl16 (segment % 2 ^ 8) 6)

unfoldable pub make_compare_instruction : ValueKind → CompareOp → Instruction
make_compare_instruction kind op =
    bit_or
      (bit_or (bit_and (opcode_number Opcode.compare) 0x3f)
        (shl16 (bit_and (kind_number kind) 0x0f) 6))
      (shl16 (bit_and (compare_op_number op) 0x3f) 10)

unfoldable pub make_convert_instruction : ValueKind → ValueKind → Instruction
make_convert_instruction from to =
    bit_or
      (bit_or (bit_and (opcode_number Opcode.convert) 0x3f)
        (shl16 (bit_and (kind_number to) 0x0f) 6))
      (shl16 (bit_and (kind_number from) 0x0f) 10)

unfoldable pub make_built_in_instruction : ℕ → Instruction
make_built_in_instruction function =
    bit_or (bit_and (opcode_number Opcode.built_in) 0x1f) (shl16 (bit_and function 0x07ff) 5)

-- The accessors of an instruction.
unfoldable pub opcode : Instruction → Opcode
opcode instruction = opcode_of (bit_and instruction 0x1f)

unfoldable pub kind : Instruction → ValueKind
kind instruction = kind_of (bit_and (instruction / 2 ^ 6) 0x0f)

unfoldable pub arithmetic_op : Instruction → ArithmeticOp
arithmetic_op instruction = arithmetic_op_of (bit_and (instruction / 2 ^ 10) 0x3f)

unfoldable pub address_segment_field : Instruction → ℕ
address_segment_field instruction = bit_and (instruction / 2 ^ 6) 0x03ff % 2 ^ 8

unfoldable pub compare_op : Instruction → CompareOp
compare_op instruction = compare_op_of (bit_and (instruction / 2 ^ 10) 0x3f)

unfoldable pub convert_from_kind : Instruction → ValueKind
convert_from_kind instruction = kind_of (bit_and (instruction / 2 ^ 10) 0x0f)

unfoldable pub built_in_function : Instruction → ℕ
built_in_function instruction = bit_and (instruction / 2 ^ 5) 0x07ff

-- `AppendInstruction`, `AppendImmediate` and `AppendUint32`.
unfoldable pub append_instruction : Instruction → Bytes → Bytes
append_instruction instruction code = code ++ put_uint 2 instruction

unfoldable pub append_immediate : ValueKind → ℕ → Bytes → Bytes
append_immediate kind v code = code ++ put_uint (size kind) v

unfoldable pub append_uint32 : ℕ → Bytes → Bytes
append_uint32 v code = code ++ put_uint 4 v

-- The capacity that `Clone` leaves behind its copy: that of no bytes is nil, and that of others is
-- what `append` chooses for their number.
abbrev pub clone_spare : (ℕ → ℕ) → Bytes → ℕ
clone_spare spare [] = 0
clone_spare spare (b ∷ bs) = spare (length (b ∷ bs))

-- `PatchUint32` on code with some spare capacity: the four bytes at a position are written over, and
-- those of them that lie in the spare capacity are lost. `none` is the panic behind the capacity.
unfoldable pub patch_uint32 : ℕ → ℕ → ℕ → Bytes → Option Bytes
patch_uint32 spare position v code =
    if ltb (length code + spare) (position + 4)
    then none
    else some (take (length code) (overwrite position (put_uint 4 v) code))

-- `ReadInstructionChecked`, `ReadUint32Checked`: the word at the counter, and the counter after it.
abbrev pub read_checked : ℕ → Bytes → ℕ → Result (ℕ × ℕ)
read_checked n code ip =
    if ltb (length code) (ip + n)
    then error VmStatus.malformed_bytecode
    else value (get_uint (window ip n code), (ip + n) % 2 ^ 32)

unfoldable pub read_instruction_checked : Bytes → ℕ → Result (Instruction × ℕ)
read_instruction_checked code ip = read_checked 2 code ip

unfoldable pub read_uint32_checked : Bytes → ℕ → Result (ℕ × ℕ)
read_uint32_checked code ip = read_checked 4 code ip

-- `ReadImmediateChecked`
unfoldable pub read_immediate_checked : Bytes → ℕ → ValueKind → Result (ℕ × ℕ)
read_immediate_checked code ip kind =
    if size kind == 0 then error VmStatus.invalid_value_kind else read_checked (size kind) code ip
