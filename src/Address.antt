-- ===== src/Address.antt =====
-- cova/segment-memory.go: a 32-bit address is a segment number in the high byte and an index of
-- 24 bits; the segment numbers.
use ccova.Prelude.{ℕ, ◌+◌, ◌*◌, ◌/◌, ◌%◌, ◌^◌, ◌<◌, ◌≡◌, arith, bit_and, bit_or}
use ccova.Prelude.Bits.{bit_or-add, bit_and-mask}

abbrev pub address_index_mask : ℕ
address_index_mask = 0x00ffffff

abbrev pub segment_frame : ℕ
segment_frame = 1

abbrev pub segment_bss : ℕ
segment_bss = 2

abbrev pub segment_extern : ℕ
segment_extern = 3

abbrev pub segment_const : ℕ
segment_const = 4

abbrev pub segment_data : ℕ
segment_data = 5

abbrev pub segment_stack : ℕ
segment_stack = 6

abbrev pub segment_count : ℕ
segment_count = 9

-- `uint32(segment)<<24 | (index & addressIndexMask)`, for a segment below 256.
unfoldable pub make_address : ℕ → ℕ → ℕ
make_address segment index = bit_or (segment * 2 ^ 24 % 2 ^ 32) (bit_and index address_index_mask)

unfoldable pub address_segment : ℕ → ℕ
address_segment address = bit_and (address / 2 ^ 24) 0xff % 2 ^ 8

unfoldable pub address_index : ℕ → ℕ
address_index address = bit_and address address_index_mask

-- An address as a sum.
pub make_address-sum :
    (segment index : ℕ)
    → segment < 256
    → make_address segment index ≡ segment * 2 ^ 24 + index % 2 ^ 24
unfolding make_address
make_address-sum segment index h =
    let low : bit_and index address_index_mask ≡ index % 2 ^ 24 = bit_and-mask 24 index in
    let high : segment * 2 ^ 24 % 2 ^ 32 ≡ segment * 2 ^ 24 = omega arith in
    rw (low, high) (bit_or-add 24 segment (index % 2 ^ 24) (omega arith))

-- An address made of a segment below 256 and an index gives back the segment and the index
-- modulo 2 ^ 24, and fits in 32 bits.
pub make_address_fields :
    (segment index : ℕ)
    → segment < 256
    → (address_segment (make_address segment index) ≡ segment)
      × (address_index (make_address segment index) ≡ index % 2 ^ 24)
      × (make_address segment index < 2 ^ 32)
unfolding address_segment address_index
make_address_fields segment index h =
    let sum = make_address-sum segment index h in
    let byte = bit_and-mask 8 (make_address segment index / 2 ^ 24) in
    let low = bit_and-mask 24 (make_address segment index) in
    (omega (arith, sum, byte), omega (arith, sum, low), omega (arith, sum))

-- A 32-bit address is made of its segment and its index.
pub make_address-address_fields :
    (address : ℕ)
    → address < 2 ^ 32
    → make_address (address_segment address) (address_index address) ≡ address
unfolding address_segment address_index
make_address-address_fields address h =
    let byte = bit_and-mask 8 (address / 2 ^ 24) in
    let low = bit_and-mask 24 address in
    omega (
      arith,
      byte,
      low,
      make_address-sum (address_segment address) (address_index address) (omega (arith, byte)),
    )
