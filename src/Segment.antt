-- ===== src/Segment.antt =====
-- cova/segment-memory.go: byte segments with a capacity, read, written, appended to and truncated
-- in little-endian words of 1, 2, 4 or 8 bytes. A slice is its bytes up to its length with its
-- capacity; a receiver is never nil, so the nil tests of the source have no counterpart. The segments
-- that are appended to and truncated come from NewMemorySegment, whose sizes are of type uint32, so
-- that the conversions of their lengths to uint32 keep them.
pub mod Windows
pub mod Laws
use ccova.Prelude.{
  ℕ, zero, suc, ◌+◌, ◌-◌, ◌*◌, ◌/◌, ◌%◌, ◌^◌, max, List, [], ◌∷◌, ◌++◌, Bool, leb, ltb, ◌==◌,
  if◌then◌else◌, length, take, drop, replicate,
}
use ccova.Status.{VmStatus, Result, value, error}
use ccova.Kind.{ValueKind, size}

abbrev pub Bytes : Type 0
Bytes = List ℕ

pub record MemorySegment : Type 0 where
  pub bytes : Bytes
  pub capacity : ℕ

-- encoding/binary.LittleEndian, for n bytes: the value is cut to n bytes, as the uintN(…) casts do.
unfoldable pub put_uint : ℕ → ℕ → Bytes
put_uint zero v = []
put_uint (suc n) v = v % 256 ∷ put_uint n (v / 256)

unfoldable pub get_uint : Bytes → ℕ
get_uint [] = 0
get_uint (b ∷ bs) = b + 256 * get_uint bs

unfoldable pub new_memory_segment : ℕ → ℕ → MemorySegment
new_memory_segment size capacity = record { bytes = replicate size 0; capacity = max capacity size }

-- The bytes from `offset` on, and the slice with `data` copied over them.
abbrev pub window : ℕ → ℕ → Bytes → Bytes
window offset n bytes = take n (drop offset bytes)

abbrev pub overwrite : ℕ → Bytes → Bytes → Bytes
overwrite offset source bytes =
    take offset bytes ++ (source ++ drop (length source) (drop offset bytes))

-- `ReadUint8`, `ReadUint16`, `ReadUint32` and `ReadUint64`, for n of 1, 2, 4 and 8.
unfoldable pub read_uint : ℕ → ℕ → MemorySegment → Result ℕ
read_uint n offset segment =
    if ltb (length segment.bytes) (offset + n)
    then error VmStatus.invalid_address
    else value (get_uint (window offset n segment.bytes))

-- `WriteUint8` and its wider forms.
unfoldable pub write_uint : ℕ → ℕ → ℕ → MemorySegment → Result MemorySegment
write_uint n offset v segment =
    if ltb (length segment.bytes) (offset + n)
    then error VmStatus.invalid_address
    else value (record segment { bytes = overwrite offset (put_uint n v) segment.bytes })

-- `AppendUint8` and its wider forms: the slice grows within its capacity.
unfoldable pub append_uint : ℕ → ℕ → MemorySegment → Result MemorySegment
append_uint n v segment =
    if ltb segment.capacity (length segment.bytes + n)
    then error VmStatus.stack_overflow
    else value (record segment { bytes = segment.bytes ++ put_uint n v })

-- `TruncateUint8` and its wider forms: the last n bytes as a number, and the slice without them.
unfoldable pub truncate_uint : ℕ → MemorySegment → Result (ℕ × MemorySegment)
truncate_uint n segment =
    if ltb (length segment.bytes) n
    then error VmStatus.stack_underflow
    else value (
      get_uint (drop (length segment.bytes - n) segment.bytes),
      record segment { bytes = take (length segment.bytes - n) segment.bytes },
    )

-- `AppendBits` and `TruncateBits`: the word width is the size of the kind.
unfoldable pub append_bits : ValueKind → ℕ → MemorySegment → Result MemorySegment
append_bits kind bits segment =
    if size kind == 0
    then error VmStatus.invalid_value_kind
    else append_uint (size kind) bits segment

unfoldable pub truncate_bits : ValueKind → MemorySegment → Result (ℕ × MemorySegment)
truncate_bits kind segment =
    if size kind == 0 then error VmStatus.invalid_value_kind else truncate_uint (size kind) segment

-- `growForAppend`: the old length, and the slice extended over what its capacity holds.
abbrev pub grow_for_append : ℕ → MemorySegment → Result ℕ
grow_for_append n segment =
    if ltb segment.capacity (length segment.bytes + n)
    then error VmStatus.stack_overflow
    else value (length segment.bytes)

-- `AppendFrom`: `size` bytes of `source` behind the segment's own.
unfoldable pub append_from : MemorySegment → ℕ → ℕ → MemorySegment → Result MemorySegment
append_from source offset n segment =
    if n == 0
    then error VmStatus.invalid_value_kind
    else if ltb (length source.bytes) (offset + n)
    then error VmStatus.invalid_address
    else elim (grow_for_append n segment) [
      | error status ↦ error status
      | value base ↦
          value (record segment { bytes = segment.bytes ++ window offset n source.bytes })
    ]

-- `truncateOffset`
abbrev pub truncate_offset : ℕ → MemorySegment → Result ℕ
truncate_offset n segment =
    if ltb (length segment.bytes) n
    then error VmStatus.stack_underflow
    else value (length segment.bytes - n)

-- `TruncateTo`: the last `n` bytes move to `offset` of another segment. The result is this segment
-- and that one.
unfoldable pub truncate_to :
    MemorySegment → ℕ → ℕ → MemorySegment → Result (MemorySegment × MemorySegment)
truncate_to destination offset n segment =
    if n == 0
    then error VmStatus.invalid_value_kind
    else if ltb (length destination.bytes) (offset + n)
    then error VmStatus.invalid_address
    else elim (truncate_offset n segment) [
      | error status ↦ error status
      | value base ↦ value (
        record segment { bytes = take base segment.bytes },
        record destination { bytes = overwrite offset (drop base segment.bytes) destination.bytes },
      )
    ]
