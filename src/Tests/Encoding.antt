-- ===== src/Tests/Encoding.antt =====
-- The theorems on words, segments, addresses and code at concrete inputs.
use ccova.Prelude.{
  ℕ, ◌+◌, ◌-◌, ◌%◌, ◌^◌, ◌≤◌, ◌<◌, ◌≡◌, ◌≢◌, refl, arith, ◌⊎◌, some, none, [], ◌∷◌, ◌++◌, length,
  min, true,
}
use ccova.Status.{value}
use ccova.Kind.{ValueKind, kind_number, size, Opcode, ArithmeticOp, arithmetic_op_number}
use ccova.Segment.{Bytes, MemorySegment, put_uint, append_uint, truncate_uint}
use ccova.Segment.Laws.{truncate_uint-append_uint}
use ccova.Address.{
  make_address, address_segment, address_index, make_address_fields, make_address-address_fields,
}
use ccova.Code.{
  opcode, kind, arithmetic_op, make_arithmetic_instruction, append_instruction, append_immediate,
  patch_uint32, read_checked, read_instruction_checked, read_uint32_checked, read_immediate_checked,
}
use ccova.Code.Laws.{
  read_instruction-append_instruction, read_immediate-append_immediate, patch_uint32_lem,
}
use ccova.Code.Fields.{make_arithmetic_instruction_fields}
use ccova.Code.General.{make_instruction_fields}
use ccova.Code.{make_instruction}
use ccova.Kind.{opcode_of, opcode_number, InstructionMode}
use ccova.Word.{int, integers, less, to_int, to_signed}
use ccova.Vm.BuiltIn.Number.{clamp_ordered}
use ccova.Vm.BuiltIn.Clamp.{clamp_ordered-le}
use ccova.Vm.BuiltIn.Timer.{saturating_add_uint64}
use ccova.Vm.BuiltIn.Saturate.{saturating_add_uint64-min}

abbrev six_bytes : Bytes
six_bytes = 1 ∷ 2 ∷ 3 ∷ 4 ∷ 5 ∷ 6 ∷ []

abbrev patched_bytes : Bytes
patched_bytes = 1 ∷ 0x44 ∷ 0x33 ∷ 0x22 ∷ 0x11 ∷ 6 ∷ []

six_patched : patch_uint32 0 1 0x11223344 six_bytes ≡ some patched_bytes
unfolding patch_uint32 put_uint
six_patched = refl

-- A word that the end of the code cuts: within the capacity two of its bytes are lost, behind it the
-- patch is a panic.
six_patched_past : patch_uint32 2 4 0x11223344 six_bytes ≡ some (1 ∷ 2 ∷ 3 ∷ 4 ∷ 0x44 ∷ 0x33 ∷ [])
unfolding patch_uint32 put_uint
six_patched_past = refl

six_unpatched : patch_uint32 1 4 0x11223344 six_bytes ≡ none
unfolding patch_uint32
six_unpatched = refl

patch_uint32_lem_example :
    (patched : Bytes) × (patch_uint32 3 1 0x11223344 six_bytes ≡ some patched)
    × (length patched ≡ length six_bytes)
    × (read_uint32_checked patched 1 ≡ value (0x11223344, 1 + 4))
    × ((n p : ℕ)
        → (p + n ≤ 1) ⊎ (1 + 4 ≤ p)
        → read_checked n patched p ≡ read_checked n six_bytes p)
patch_uint32_lem_example =
    patch_uint32_lem 3 1 0x11223344 six_bytes (omega arith) (omega arith) (omega arith)

read_instruction-append_instruction_example :
    read_instruction_checked (append_instruction 0x0602 six_bytes ++ six_bytes) (length six_bytes)
    ≡ value (0x0602, length six_bytes + 2)
read_instruction-append_instruction_example =
    read_instruction-append_instruction 0x0602 six_bytes six_bytes (omega arith) (omega arith)

int32_has_size : size ValueKind.int32 ≢ 0
unfolding size
int32_has_size = λ e. absurd (omega arith)

int32_fits : length six_bytes + size ValueKind.int32 < 2 ^ 32
unfolding size
int32_fits = omega arith

read_immediate-append_immediate_example :
    read_immediate_checked
      (append_immediate ValueKind.int32 77 six_bytes ++ six_bytes)
      (length six_bytes)
      ValueKind.int32
    ≡ value (77 % 256 ^ size ValueKind.int32, length six_bytes + size ValueKind.int32)
read_immediate-append_immediate_example =
    read_immediate-append_immediate ValueKind.int32 77 six_bytes six_bytes int32_has_size int32_fits

abbrev small_segment : MemorySegment
small_segment = record { bytes = 9 ∷ []; capacity = 4 }

abbrev grown_segment : MemorySegment
grown_segment = record { bytes = 9 ∷ 0x2c ∷ 1 ∷ []; capacity = 4 }

small_grown : append_uint 2 300 small_segment ≡ value grown_segment
unfolding append_uint put_uint
small_grown = refl

truncate_uint-append_uint_example :
    truncate_uint 2 grown_segment ≡ value (300 % 256 ^ 2, small_segment)
truncate_uint-append_uint_example = truncate_uint-append_uint 2 300 small_segment small_grown

make_arithmetic_instruction_fields_example :
    (opcode (make_arithmetic_instruction ValueKind.int16 ArithmeticOp.shift_right)
      ≡ Opcode.arithmetic)
    × (kind (make_arithmetic_instruction ValueKind.int16 ArithmeticOp.shift_right)
        ≡ ValueKind.int16)
    × (arithmetic_op (make_arithmetic_instruction ValueKind.int16 ArithmeticOp.shift_right)
        ≡ ArithmeticOp.shift_right)
unfolding kind_number arithmetic_op_number
make_arithmetic_instruction_fields_example =
    make_arithmetic_instruction_fields ValueKind.int16 ArithmeticOp.shift_right (omega arith)
      (omega arith)

make_address_fields_example :
    (address_segment (make_address 5 0x1000002) ≡ 5)
    × (address_index (make_address 5 0x1000002) ≡ 0x1000002 % 2 ^ 24)
    × (make_address 5 0x1000002 < 2 ^ 32)
make_address_fields_example = make_address_fields 5 0x1000002 (omega arith)

make_address-address_fields_example :
    make_address (address_segment 0x05000010) (address_index 0x05000010) ≡ 0x05000010
make_address-address_fields_example = make_address-address_fields 0x05000010 (omega arith)

saturating_add_uint64-min_example :
    saturating_add_uint64 (2 ^ 64 - 3) 10 ≡ min (2 ^ 64 - 3 + 10) (2 ^ 64 - 1)
saturating_add_uint64-min_example = saturating_add_uint64-min (2 ^ 64 - 3) 10 (omega arith)

abbrev seven : ℕ
seven = 7

high_clamped : clamp_ordered (integers (int 1)) 100 250 7 ≡ some 7
unfolding clamp_ordered less to_int to_signed
high_clamped = refl

clamp_ordered-le_example :
    ((integers (int 1)).le 250 7 ≡ true)
    × ((integers (int 1)).le 7 7 ≡ true)
    × ((seven ≡ 250) ⊎ ((seven ≡ 7) ⊎ (seven ≡ 100)))
clamp_ordered-le_example = clamp_ordered-le (int 1) 100 250 7 7 high_clamped

make_instruction_fields_example :
    (opcode (make_instruction Opcode.dereference ValueKind.int16 InstructionMode.extend 5)
      ≡ opcode_of (opcode_number Opcode.dereference))
    × (kind (make_instruction Opcode.dereference ValueKind.int16 InstructionMode.extend 5)
        ≡ ValueKind.int16)
    × (make_instruction Opcode.dereference ValueKind.int16 InstructionMode.extend 5 < 2 ^ 16)
unfolding kind_number opcode_number
make_instruction_fields_example =
    make_instruction_fields Opcode.dereference ValueKind.int16 InstructionMode.extend 5
      (omega arith) (omega arith) (omega arith)
