-- ===== src/Segment/Laws.antt =====
-- Round trips and bounds of the segment operations of cova/segment-memory.go.
use native.Mathlib.Nat.{
  pow-suc, one-le-pow, div-add-mod, mod-lt, mod-eq_of_lt, add-mul-mod_self_left,
}
use ccova.Prelude.{
  ℕ, zero, suc, ◌+◌, ◌-◌, ◌*◌, ◌/◌, ◌%◌, ◌^◌, ◌≤◌, ◌<◌, ◌≡◌, refl, sym, ap, ◌∙◌, subst, [], ◌∷◌,
  ◌++◌, ◌⊎◌, inl, inr, arith, le→ltb, length, length-append, take-append_length, drop-append_length,
}
use ccova.Status.{value}
use ccova.Segment.{
  Bytes, MemorySegment, put_uint, get_uint, window, overwrite, read_uint, write_uint, append_uint,
  truncate_uint,
}
use ccova.Segment.Windows.{
  length-overwrite, window-overwrite, window-overwrite_before, window-overwrite_after,
}

pub length-put_uint : (n v : ℕ) → length (put_uint n v) ≡ n
unfolding put_uint
length-put_uint zero v = refl
length-put_uint (suc n) v = ap suc (length-put_uint n (v / 256))

-- Division by 256 peels one byte off a remainder.
mod_byte : (v m : ℕ) → 0 < m → v % 256 + 256 * (v / 256 % m) ≡ v % (m * 256)
mod_byte v m h =
    let r : ℕ = v % 256 + 256 * (v / 256 % m) in
    let split : v ≡ r + m * 256 * (v / 256 / m) =
      omega (arith, ap (λ (t : ℕ). 256 * t) (div-add-mod (v / 256) m)) in
    let fits : r < m * 256 = omega (arith, mod-lt (v / 256) h) in
    sym (
      ap (λ (t : ℕ). t % (m * 256)) split
      ∙ add-mul-mod_self_left r (m * 256) (v / 256 / m)
      ∙ mod-eq_of_lt fits)

-- A word keeps the low n bytes of a value.
pub get_uint-put_uint : (n v : ℕ) → get_uint (put_uint n v) ≡ v % 256 ^ n
unfolding put_uint get_uint
get_uint-put_uint zero v = omega arith
get_uint-put_uint (suc n) v =
    let pos : 0 < 256 ^ n = one-le-pow n 256 (omega arith) in
    rw (get_uint-put_uint n (v / 256), pow-suc 256 n) (mod_byte v (256 ^ n) pos)

-- `BytesFit` says of a slice that its elements are bytes.
abbrev pub BytesFit : Bytes → Type 0
BytesFit [] = Unit
BytesFit (b ∷ bs) = (b < 256) × BytesFit bs

pub BytesFit-put_uint : (n v : ℕ) → BytesFit (put_uint n v)
unfolding put_uint
BytesFit-put_uint zero v = tt
BytesFit-put_uint (suc n) v = (omega arith, BytesFit-put_uint n (v / 256))

-- Encoding the number that bytes stand for gives the bytes back.
pub put_uint-get_uint : (bs : Bytes) → BytesFit bs → put_uint (length bs) (get_uint bs) ≡ bs
unfolding put_uint get_uint
put_uint-get_uint [] h = refl
put_uint-get_uint (b ∷ bs) h =
    let low : (b + 256 * get_uint bs) % 256 ≡ b = omega arith in
    let high : (b + 256 * get_uint bs) / 256 ≡ get_uint bs = omega arith in
    rw (low, high) (ap (◌∷◌ b) (put_uint-get_uint bs h.1))

truncate_grown :
    (n v : ℕ) (segment : MemorySegment)
    → truncate_uint n (record segment { bytes = segment.bytes ++ put_uint n v })
      ≡ value (v % 256 ^ n, segment)
unfolding truncate_uint
truncate_grown n v segment =
    let total : length (segment.bytes ++ put_uint n v) ≡ length segment.bytes + n =
      omega (arith, length-append segment.bytes (put_uint n v), length-put_uint n v) in
    let base : length segment.bytes + n - n ≡ length segment.bytes = omega arith in
    rw (
      total,
      base,
      le→ltb (length segment.bytes + n) n (omega arith),
      drop-append_length,
      take-append_length,
      get_uint-put_uint,
    )

-- Truncating n bytes after n bytes were appended gives the value appended, modulo 256 ^ n, and
-- the segment as it was before.
pub truncate_uint-append_uint :
    (n v : ℕ) (segment : MemorySegment) {grown : MemorySegment}
    → append_uint n v segment ≡ value grown
    → truncate_uint n grown ≡ value (v % 256 ^ n, segment)
unfolding append_uint
truncate_uint-append_uint n v segment h = ground (arith, truncate_grown n v segment)

module _ (n offset v : ℕ) (segment : MemorySegment) {written : MemorySegment}
    (wrote : write_uint n offset v segment ≡ value written) where
  write_uint-in_range : offset + n ≤ length segment.bytes
  unfolding write_uint
  write_uint-in_range = ground arith

  written-eq : written ≡ record segment { bytes = overwrite offset (put_uint n v) segment.bytes }
  unfolding write_uint
  written-eq = ground arith

  -- A write keeps the length.
  pub length-write_uint : length written.bytes ≡ length segment.bytes
  length-write_uint =
      let fits : offset + length (put_uint n v) ≤ length segment.bytes =
        omega (arith, write_uint-in_range, length-put_uint n v) in
      rw written-eq (length-overwrite offset (put_uint n v) segment.bytes fits)

  pub capacity-write_uint : written.capacity ≡ segment.capacity
  capacity-write_uint = rw written-eq

  -- A word is read back as it was written.
  pub read_uint-write_uint : read_uint n offset written ≡ value (v % 256 ^ n)
  unfolding read_uint
  read_uint-write_uint =
      let fits : offset + length (put_uint n v) ≤ length segment.bytes =
        omega (arith, write_uint-in_range, length-put_uint n v) in
      let back : window offset n (overwrite offset (put_uint n v) segment.bytes) ≡ put_uint n v =
        subst (λ k. window offset k (overwrite offset (put_uint n v) segment.bytes) ≡ put_uint n v)
          (length-put_uint n v) (window-overwrite offset (put_uint n v) segment.bytes fits) in
      let room : length written.bytes ≡ length segment.bytes = length-write_uint in
      rw (
        le→ltb (length written.bytes) (offset + n) (omega (arith, write_uint-in_range)),
        written-eq,
        back,
        get_uint-put_uint n v,
      )

  -- A write leaves every word that it does not overlap.
  pub read_uint-write_uint_ne :
      (m p : ℕ)
      → (p + m ≤ offset) ⊎ (offset + n ≤ p)
      → read_uint m p written ≡ read_uint m p segment
  unfolding read_uint
  read_uint-write_uint_ne m p apart =
      let fits : offset + length (put_uint n v) ≤ length segment.bytes =
        omega (arith, write_uint-in_range, length-put_uint n v) in
      let same : window p m (overwrite offset (put_uint n v) segment.bytes)
          ≡ window p m segment.bytes =
        elim apart [
          | inl before ↦ window-overwrite_before offset (put_uint n v) segment.bytes p m fits before
          | inr after ↦
              window-overwrite_after offset (put_uint n v) segment.bytes p m fits
                (omega (arith, length-put_uint n v))
        ] in
      rw (length-write_uint, written-eq, same)
