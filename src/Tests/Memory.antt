-- ===== src/Tests/Memory.antt =====
-- The theorems on the program memory at a write into DATA.
use ccova.Prelude.{ℕ, ◌+◌, ◌%◌, ◌^◌, ◌≤◌, ◌≡◌, ◌≢◌, refl, arith, ◌⊎◌, inr, [], ◌∷◌, length}
use ccova.Status.{value}
use ccova.Segment.{put_uint, write_uint, new_memory_segment}
use ccova.Address.{make_address, address_segment, address_index, segment_const, segment_data}
use ccova.Memory.{
  ProgramMemory, update, new_program_memory, writable_segment_for_address, segment_for_address,
  read, write,
}
use ccova.Memory.Laws.{read-write, read-write_ne, write-const, write_size}

-- DATA with four bytes, and a write in the middle of it.
abbrev some_memory : ProgramMemory
some_memory = new_program_memory 0 2 4 0 0 0

abbrev two_bytes : ℕ
two_bytes = make_address segment_data 1

abbrev written_memory : ProgramMemory
written_memory = update some_memory 5 (record { bytes = 0 ∷ 0x34 ∷ 0x12 ∷ 0 ∷ []; capacity = 4 })

some_write : write 2 some_memory two_bytes 0x1234 ≡ value written_memory
unfolding write writable_segment_for_address make_address address_segment address_index write_uint
    put_uint new_program_memory new_memory_segment segment_for_address
some_write = refl

read-write_example : read 2 written_memory two_bytes ≡ value (0x1234 % 256 ^ 2)
read-write_example = read-write 2 some_memory two_bytes 0x1234 some_write

write-const_example : written_memory segment_const ≡ some_memory segment_const
write-const_example = write-const 2 some_memory two_bytes 0x1234 some_write

write_size_example :
    (length (written_memory segment_data).bytes ≡ length (some_memory segment_data).bytes)
    × ((written_memory segment_data).capacity ≡ (some_memory segment_data).capacity)
write_size_example = write_size 2 some_memory two_bytes 0x1234 some_write segment_data

beside :
    (address_segment (make_address segment_data 3) ≢ address_segment two_bytes)
    ⊎ ((address_index (make_address segment_data 3) + 1 ≤ address_index two_bytes)
        ⊎ (address_index two_bytes + 2 ≤ address_index (make_address segment_data 3)))
unfolding make_address address_index
beside = inr (inr (omega arith))

read-write_ne_example :
    read 1 written_memory (make_address segment_data 3)
    ≡ read 1 some_memory (make_address segment_data 3)
read-write_ne_example =
    read-write_ne 2 some_memory two_bytes 0x1234 some_write 1 (make_address segment_data 3) beside
