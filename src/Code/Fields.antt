-- ===== src/Code/Fields.antt =====
-- The fields of each instruction of cova/code-memory.go are read back as they were packed.
use ccova.Prelude.{ℕ, ◌+◌, ◌*◌, ◌/◌, ◌%◌, ◌^◌, ◌<◌, ◌≡◌, arith, bit_and, bit_or}
use ccova.Prelude.Bits.{bit_and-mask, bit_or-add_low}
use ccova.Kind.{
  ValueKind, kind_number, Opcode, opcode_of, opcode_number, ArithmeticOp, arithmetic_op_number,
  CompareOp, compare_op_number,
}
use ccova.Kind.Laws.{kind_of-kind_number, arithmetic_op_of-number, compare_op_of-number}
use ccova.Code.{
  shl16, make_arithmetic_instruction, make_compare_instruction, make_convert_instruction,
  make_addr_instruction, make_built_in_instruction, opcode, kind, arithmetic_op, compare_op,
  convert_from_kind, address_segment_field, built_in_function,
}

-- Three fields at bits 0, 6 and 10.
abbrev pub packed : ℕ → ℕ → ℕ → ℕ
packed low middle high = bit_or (bit_or low (shl16 middle 6)) (shl16 high 10)

pub packed_sum :
    (low middle high : ℕ)
    → low < 64
    → middle < 16
    → high < 64
    → packed low middle high ≡ low + middle * 64 + high * 1024
packed_sum low middle high hl hm hh =
    let m : shl16 middle 6 ≡ middle * 2 ^ 6 = omega arith in
    let h : shl16 high 10 ≡ high * 2 ^ 10 = omega arith in
    let inner : bit_or low (middle * 2 ^ 6) ≡ middle * 2 ^ 6 + low =
      bit_or-add_low 6 middle low hl in
    let outer = bit_or-add_low 10 high (middle * 2 ^ 6 + low) (omega arith) in
    rw (m, h, inner, outer) (omega arith)

-- Reading the three fields.
packed_fields :
    (low middle high : ℕ)
    → low < 32
    → middle < 16
    → high < 64
    → (bit_and (packed low middle high) 0x1f ≡ low)
      × (bit_and (packed low middle high / 2 ^ 6) 0x0f ≡ middle)
      × (bit_and (packed low middle high / 2 ^ 10) 0x3f ≡ high)
packed_fields low middle high hl hm hh =
    let i = packed low middle high in
    let sum : i ≡ low + middle * 64 + high * 1024 =
      packed_sum low middle high (omega arith) hm hh in
    (
      omega (arith, sum, bit_and-mask 5 i),
      omega (arith, sum, bit_and-mask 4 (i / 2 ^ 6)),
      omega (arith, sum, bit_and-mask 6 (i / 2 ^ 10)),
    )

mask_kind : (k : ℕ) → k < 16 → bit_and k 0x0f ≡ k
mask_kind k h = omega (arith, bit_and-mask 4 k)

mask_op : (n : ℕ) → n < 64 → bit_and n 0x3f ≡ n
mask_op n h = omega (arith, bit_and-mask 6 n)

-- An arithmetic instruction decodes to its opcode, its kind and its operation, for a kind
-- below 16 and an operation below 64.
pub make_arithmetic_instruction_fields :
    (k : ValueKind) (op : ArithmeticOp)
    → kind_number k < 16
    → arithmetic_op_number op < 64
    → (opcode (make_arithmetic_instruction k op) ≡ Opcode.arithmetic)
      × (kind (make_arithmetic_instruction k op) ≡ k)
      × (arithmetic_op (make_arithmetic_instruction k op) ≡ op)
unfolding make_arithmetic_instruction opcode kind arithmetic_op opcode_of opcode_number
make_arithmetic_instruction_fields k op hk ho =
    let fields = packed_fields 2 (kind_number k) (arithmetic_op_number op) (omega arith) hk ho in
    rw (mask_kind _ hk, mask_op _ ho)
      (rw fields.0, rw fields.1 (kind_of-kind_number k), rw fields.2 (arithmetic_op_of-number op))

-- A compare instruction decodes to its opcode, its kind and its operation, for a kind below 16
-- and an operation below 64.
pub make_compare_instruction_fields :
    (k : ValueKind) (op : CompareOp)
    → kind_number k < 16
    → compare_op_number op < 64
    → (opcode (make_compare_instruction k op) ≡ Opcode.compare)
      × (kind (make_compare_instruction k op) ≡ k)
      × (compare_op (make_compare_instruction k op) ≡ op)
unfolding make_compare_instruction opcode kind compare_op opcode_of opcode_number
make_compare_instruction_fields k op hk ho =
    let fields = packed_fields 8 (kind_number k) (compare_op_number op) (omega arith) hk ho in
    rw (mask_kind _ hk, mask_op _ ho)
      (rw fields.0, rw fields.1 (kind_of-kind_number k), rw fields.2 (compare_op_of-number op))

-- A conversion decodes to its opcode, its source kind and its target kind, for kinds below 16.
pub make_convert_instruction_fields :
    (from to : ValueKind)
    → kind_number from < 16
    → kind_number to < 16
    → (opcode (make_convert_instruction from to) ≡ Opcode.convert)
      × (convert_from_kind (make_convert_instruction from to) ≡ from)
      × (kind (make_convert_instruction from to) ≡ to)
unfolding make_convert_instruction opcode kind convert_from_kind opcode_of opcode_number
make_convert_instruction_fields from to hf ht =
    let i = packed 3 (kind_number to) (kind_number from) in
    let sum = packed_sum 3 (kind_number to) (kind_number from) (omega arith) ht (omega arith) in
    let fields =
      packed_fields 3 (kind_number to) (kind_number from) (omega arith) ht (omega arith) in
    let low : bit_and (i / 2 ^ 10) 0x0f ≡ kind_number from =
      omega (arith, sum, bit_and-mask 4 (i / 2 ^ 10)) in
    rw (mask_kind _ hf, mask_kind _ ht)
      (rw fields.0, rw low (kind_of-kind_number from), rw fields.1 (kind_of-kind_number to))

-- Two fields, the second from some bit on.
two_fields :
    (low high : ℕ)
    → low < 32
    → high < 1024
    → (bit_and (bit_or low (shl16 high 6)) 0x1f ≡ low)
      × (bit_and (bit_or low (shl16 high 6) / 2 ^ 6) 0x03ff ≡ high)
two_fields low high hl hh =
    let i = bit_or low (shl16 high 6) in
    let h : shl16 high 6 ≡ high * 2 ^ 6 = omega arith in
    let sum : i ≡ high * 64 + low = rw h (bit_or-add_low 6 high low (omega arith)) in
    (omega (arith, sum, bit_and-mask 5 i), omega (arith, sum, bit_and-mask 10 (i / 2 ^ 6)))

-- An address instruction decodes to its opcode and its segment, for a segment below 256.
pub make_addr_instruction_fields :
    (segment : ℕ)
    → segment < 256
    → (opcode (make_addr_instruction segment) ≡ Opcode.addr)
      × (address_segment_field (make_addr_instruction segment) ≡ segment)
unfolding make_addr_instruction opcode address_segment_field opcode_of opcode_number
make_addr_instruction_fields segment h =
    let byte : segment % 2 ^ 8 ≡ segment = omega arith in
    let fields = two_fields 4 segment (omega arith) (omega arith) in
    rw byte (rw fields.0, rw fields.1 byte)

-- A built-in instruction decodes to its opcode and its function, for a function of 11 bits.
pub make_built_in_instruction_fields :
    (function : ℕ)
    → function < 2 ^ 11
    → (opcode (make_built_in_instruction function) ≡ Opcode.built_in)
      × (built_in_function (make_built_in_instruction function) ≡ function)
unfolding make_built_in_instruction opcode built_in_function opcode_of opcode_number
make_built_in_instruction_fields function h =
    let i = bit_or 14 (shl16 function 5) in
    let whole : bit_and function 0x07ff ≡ function = omega (arith, bit_and-mask 11 function) in
    let shifted : shl16 function 5 ≡ function * 2 ^ 5 = omega arith in
    let sum : i ≡ function * 32 + 14 = rw shifted (bit_or-add_low 5 function 14 (omega arith)) in
    let low : bit_and i 0x1f ≡ 14 = omega (arith, sum, bit_and-mask 5 i) in
    let high : bit_and (i / 2 ^ 5) 0x07ff ≡ function =
      omega (arith, sum, bit_and-mask 11 (i / 2 ^ 5)) in
    rw whole (rw low, rw high)
