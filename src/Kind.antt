-- ===== src/Kind.antt =====
-- cova/types.go: the value kinds, the opcodes and the operation numbers of the instruction set.
-- A number that is no enumerator of its byte type is kept as `out_of_range`, counted from the
-- first number past the enumeration.
pub mod Laws
use ccova.Prelude.{ℕ, ◌+◌, ◌-◌, List, [], ◌∷◌, get_or}

pub data ValueKind : Type 0 where
  none void bool byte int8 uint8 int16 uint16 int32 uint32 float32 address : ValueKind
  int64 uint64 float64 : ValueKind
  out_of_range : ℕ → ValueKind

-- In the order of the constants: `KindNone` is 0, and `KindCount` is 15.
abbrev pub value_kinds : List ValueKind
value_kinds =
    ValueKind.none ∷ ValueKind.void ∷ ValueKind.bool ∷ ValueKind.byte ∷ ValueKind.int8
    ∷ ValueKind.uint8 ∷ ValueKind.int16 ∷ ValueKind.uint16 ∷ ValueKind.int32 ∷ ValueKind.uint32
    ∷ ValueKind.float32 ∷ ValueKind.address ∷ ValueKind.int64 ∷ ValueKind.uint64 ∷ ValueKind.float64
    ∷ []

abbrev pub kind_count : ℕ
kind_count = 15

-- `ValueKind(n)`, and back.
unfoldable pub kind_of : ℕ → ValueKind
kind_of n = get_or value_kinds n (ValueKind.out_of_range (n - kind_count))

unfoldable pub kind_number : ValueKind → ℕ
kind_number ValueKind.none = 0
kind_number ValueKind.void = 1
kind_number ValueKind.bool = 2
kind_number ValueKind.byte = 3
kind_number ValueKind.int8 = 4
kind_number ValueKind.uint8 = 5
kind_number ValueKind.int16 = 6
kind_number ValueKind.uint16 = 7
kind_number ValueKind.int32 = 8
kind_number ValueKind.uint32 = 9
kind_number ValueKind.float32 = 10
kind_number ValueKind.address = 11
kind_number ValueKind.int64 = 12
kind_number ValueKind.uint64 = 13
kind_number ValueKind.float64 = 14
kind_number (ValueKind.out_of_range n) = kind_count + n

-- `ValueKind.Size`: bytes on the stack and in memory.
unfoldable pub size : ValueKind → ℕ
size ValueKind.none = 0
size ValueKind.void = 0
size ValueKind.bool = 1
size ValueKind.byte = 1
size ValueKind.int8 = 1
size ValueKind.uint8 = 1
size ValueKind.int16 = 2
size ValueKind.uint16 = 2
size ValueKind.int32 = 4
size ValueKind.uint32 = 4
size ValueKind.float32 = 4
size ValueKind.address = 4
size ValueKind.int64 = 8
size ValueKind.uint64 = 8
size ValueKind.float64 = 8
size (ValueKind.out_of_range n) = 0

pub data Opcode : Type 0 where
  push arithmetic convert addr offset dereference assign compare : Opcode
  jump_if_false jump call call_extern ret built_in : Opcode
  out_of_range : ℕ → Opcode

-- `OpPush` is 1, so 0 is no opcode either: it is `out_of_range 0`, and n + 15 is
-- `out_of_range (n + 15)`.
abbrev pub opcodes : List Opcode
opcodes =
    Opcode.out_of_range 0
    ∷ Opcode.push
    ∷ Opcode.arithmetic
    ∷ Opcode.convert
    ∷ Opcode.addr
    ∷ Opcode.offset
    ∷ Opcode.dereference
    ∷ Opcode.assign
    ∷ Opcode.compare
    ∷ Opcode.jump_if_false
    ∷ Opcode.jump
    ∷ Opcode.call
    ∷ Opcode.call_extern
    ∷ Opcode.ret
    ∷ Opcode.built_in
    ∷ []

unfoldable pub opcode_of : ℕ → Opcode
opcode_of n = get_or opcodes n (Opcode.out_of_range n)

unfoldable pub opcode_number : Opcode → ℕ
opcode_number Opcode.push = 1
opcode_number Opcode.arithmetic = 2
opcode_number Opcode.convert = 3
opcode_number Opcode.addr = 4
opcode_number Opcode.offset = 5
opcode_number Opcode.dereference = 6
opcode_number Opcode.assign = 7
opcode_number Opcode.compare = 8
opcode_number Opcode.jump_if_false = 9
opcode_number Opcode.jump = 10
opcode_number Opcode.call = 11
opcode_number Opcode.call_extern = 12
opcode_number Opcode.ret = 13
opcode_number Opcode.built_in = 14
opcode_number (Opcode.out_of_range n) = n

pub data ArithmeticOp : Type 0 where
  invalid add sub mul div modulo bitwise_and bitwise_or bitwise_xor : ArithmeticOp
  shift_left shift_right : ArithmeticOp
  out_of_range : ℕ → ArithmeticOp

abbrev pub arithmetic_ops : List ArithmeticOp
arithmetic_ops =
    ArithmeticOp.invalid ∷ ArithmeticOp.add ∷ ArithmeticOp.sub ∷ ArithmeticOp.mul ∷ ArithmeticOp.div
    ∷ ArithmeticOp.modulo ∷ ArithmeticOp.bitwise_and ∷ ArithmeticOp.bitwise_or
    ∷ ArithmeticOp.bitwise_xor ∷ ArithmeticOp.shift_left ∷ ArithmeticOp.shift_right ∷ []

unfoldable pub arithmetic_op_of : ℕ → ArithmeticOp
arithmetic_op_of n = get_or arithmetic_ops n (ArithmeticOp.out_of_range (n - 11))

unfoldable pub arithmetic_op_number : ArithmeticOp → ℕ
arithmetic_op_number ArithmeticOp.invalid = 0
arithmetic_op_number ArithmeticOp.add = 1
arithmetic_op_number ArithmeticOp.sub = 2
arithmetic_op_number ArithmeticOp.mul = 3
arithmetic_op_number ArithmeticOp.div = 4
arithmetic_op_number ArithmeticOp.modulo = 5
arithmetic_op_number ArithmeticOp.bitwise_and = 6
arithmetic_op_number ArithmeticOp.bitwise_or = 7
arithmetic_op_number ArithmeticOp.bitwise_xor = 8
arithmetic_op_number ArithmeticOp.shift_left = 9
arithmetic_op_number ArithmeticOp.shift_right = 10
arithmetic_op_number (ArithmeticOp.out_of_range n) = 11 + n

pub data CompareOp : Type 0 where
  invalid equal not_equal less less_equal greater greater_equal : CompareOp
  out_of_range : ℕ → CompareOp

abbrev pub compare_ops : List CompareOp
compare_ops =
    CompareOp.invalid ∷ CompareOp.equal ∷ CompareOp.not_equal ∷ CompareOp.less
    ∷ CompareOp.less_equal ∷ CompareOp.greater ∷ CompareOp.greater_equal ∷ []

unfoldable pub compare_op_of : ℕ → CompareOp
compare_op_of n = get_or compare_ops n (CompareOp.out_of_range (n - 7))

unfoldable pub compare_op_number : CompareOp → ℕ
compare_op_number CompareOp.invalid = 0
compare_op_number CompareOp.equal = 1
compare_op_number CompareOp.not_equal = 2
compare_op_number CompareOp.less = 3
compare_op_number CompareOp.less_equal = 4
compare_op_number CompareOp.greater = 5
compare_op_number CompareOp.greater_equal = 6
compare_op_number (CompareOp.out_of_range n) = 7 + n

-- cova/code-memory.go: the mode field of the general instruction.
pub data InstructionMode : Type 0 where
  none implicit extend reserved : InstructionMode

unfoldable pub mode_number : InstructionMode → ℕ
mode_number InstructionMode.none = 0
mode_number InstructionMode.implicit = 1
mode_number InstructionMode.extend = 2
mode_number InstructionMode.reserved = 3
