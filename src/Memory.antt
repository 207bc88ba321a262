-- ===== src/Memory.antt =====
-- cova/program-memory.go: the nine segments of a program, and words read and written through an
-- address. The array of segments is a function of the segment number.
pub mod Laws
use ccova.Prelude.{ℕ, Bool, ◌||◌, ltb, leb, ◌==◌, if◌then◌else◌, zero, suc}
use ccova.Status.{VmStatus, Result, value, error, ◌>>=◌}
use ccova.Segment.{MemorySegment, new_memory_segment, read_uint, write_uint}
use ccova.Address.{
  segment_frame, segment_bss, segment_extern, segment_const, segment_data, segment_stack,
  segment_count, address_segment, address_index,
}

abbrev pub ProgramMemory : Type 0
ProgramMemory = ℕ → MemorySegment

-- `memory.segment[i] = s`
abbrev pub update : ProgramMemory → ℕ → MemorySegment → ProgramMemory
update memory i s j = if i == j then s else memory j

-- The segment that an array element of Go starts as: nil.
abbrev pub nil_segment : MemorySegment
nil_segment = new_memory_segment 0 0

unfoldable pub new_program_memory : ℕ → ℕ → ℕ → ℕ → ℕ → ℕ → ProgramMemory
new_program_memory extern const initialized bss frame stack j =
    if j == segment_extern
    then new_memory_segment extern extern
    else if j == segment_const
    then new_memory_segment const const
    else if j == segment_data
    then new_memory_segment initialized initialized
    else if j == segment_bss
    then new_memory_segment bss bss
    else if j == segment_frame
    then new_memory_segment frame frame
    else if j == segment_stack
    then new_memory_segment 0 stack
    else nil_segment

-- The number of the segment that an address names. The source returns a pointer to it.
unfoldable pub segment_for_address : ℕ → Result ℕ
segment_for_address address =
    if leb (address_segment address) 0 || leb segment_count (address_segment address)
    then error VmStatus.invalid_address_segment
    else value (address_segment address)

unfoldable pub writable_segment_for_address : ℕ → Result ℕ
writable_segment_for_address address =
    if address_segment address == segment_const
    then error VmStatus.read_only_memory
    else segment_for_address address

-- `ReadUint8` and its wider forms, and the signed and address forms that give them another type.
unfoldable pub read : ℕ → ProgramMemory → ℕ → Result ℕ
read n memory address = do
  s ← segment_for_address address
  read_uint n (address_index address) (memory s)

-- `WriteUint8` and its wider forms.
unfoldable pub write : ℕ → ProgramMemory → ℕ → ℕ → Result ProgramMemory
write n memory address v = do
  s ← writable_segment_for_address address
  written ← write_uint n (address_index address) v (memory s)
  value (update memory s written)
