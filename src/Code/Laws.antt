-- ===== src/Code/Laws.antt =====
-- Words appended to byte code are read back, and a patch changes one word only
-- (cova/code-memory.go).
use mathlib.Core.List.{append_assoc}
use mathlib.Core.Option.{some-injective}
use ccova.Prelude.{
  false, ℕ, ◌+◌, ◌%◌, ◌^◌, ◌≤◌, ◌<◌, ◌≡◌, ◌≢◌, subst, ◌⊎◌, inl, inr, arith, some, ◌++◌, le→ltb,
  ◌==◌, length, length-append, take, drop, take-append_length, drop-append_length, take-all, refl,
  sym, ◌∙◌,
}
use ccova.Status.{value}
use ccova.Kind.{ValueKind, size}
use ccova.Segment.{Bytes, put_uint, window, overwrite}
use ccova.Segment.Laws.{length-put_uint, get_uint-put_uint}
use ccova.Segment.Windows.{
  length-overwrite, window-overwrite, window-overwrite_before, window-overwrite_after,
}
use ccova.Code.{
  Instruction, append_instruction, append_immediate, patch_uint32, read_checked,
  read_instruction_checked, read_uint32_checked, read_immediate_checked,
}

-- The word that was appended to `code`, whatever follows it.
pub read_checked-append :
    (n v : ℕ) (code rest : Bytes)
    → length code + n < 2 ^ 32
    → read_checked n ((code ++ put_uint n v) ++ rest) (length code)
      ≡ value (v % 256 ^ n, length code + n)
read_checked-append n v code rest h =
    let word = put_uint n v in
    let total : length ((code ++ word) ++ rest) ≡ length code + n + length rest =
      omega
        (arith, length-append (code ++ word) rest, length-append code word, length-put_uint n v) in
    let after : drop (length code) ((code ++ word) ++ rest) ≡ word ++ rest =
      rw append_assoc (drop-append_length code (word ++ rest)) in
    let front : take n (word ++ rest) ≡ word =
      subst (λ k. take k (word ++ rest) ≡ word) (length-put_uint n v)
        (take-append_length word rest) in
    let ip : (length code + n) % 2 ^ 32 ≡ length code + n = omega arith in
    rw (
      total,
      le→ltb (length code + n + length rest) (length code + n) (omega arith),
      after,
      front,
      get_uint-put_uint n v,
      ip,
    )

-- An instruction of 16 bits that was appended to code is read back at its position, whatever
-- follows it, and the counter moves past it, where the code stays below 2 ^ 32 bytes.
pub read_instruction-append_instruction :
    (instruction : Instruction) (code rest : Bytes)
    → instruction < 2 ^ 16
    → length code + 2 < 2 ^ 32
    → read_instruction_checked (append_instruction instruction code ++ rest) (length code)
      ≡ value (instruction, length code + 2)
unfolding read_instruction_checked append_instruction
read_instruction-append_instruction instruction code rest h fits =
    let whole : instruction % 256 ^ 2 ≡ instruction = omega arith in
    rw whole at (read_checked-append 2 instruction code rest fits)

-- An immediate of a kind that has a size is read back at its position, modulo the width of its
-- kind, and the counter moves past it, where the code stays below 2 ^ 32 bytes.
pub read_immediate-append_immediate :
    (kind : ValueKind) (v : ℕ) (code rest : Bytes)
    → size kind ≢ 0
    → length code + size kind < 2 ^ 32
    → read_immediate_checked (append_immediate kind v code ++ rest) (length code) kind
      ≡ value (v % 256 ^ size kind, length code + size kind)
unfolding read_immediate_checked append_immediate
read_immediate-append_immediate kind v code rest ne fits =
    let some_size : (size kind == 0) ≡ false = ground arith in
    rw some_size (read_checked-append (size kind) v code rest fits)

-- Code in which the word at a position is patched.
abbrev pub IsPatchedAt : ℕ → ℕ → Bytes → Bytes → Type 0
IsPatchedAt position v code patched =
    (length patched ≡ length code)
    × (read_uint32_checked patched position ≡ value (v, position + 4))
    × ((n p : ℕ)
        → (p + n ≤ position) ⊎ (position + 4 ≤ p)
        → read_checked n patched p ≡ read_checked n code p)

overwrite-IsPatchedAt :
    (position v : ℕ) (code : Bytes)
    → position + 4 ≤ length code
    → v < 2 ^ 32
    → length code < 2 ^ 32
    → IsPatchedAt position v code (overwrite position (put_uint 4 v) code)
unfolding read_uint32_checked
overwrite-IsPatchedAt position v code inside hv hc =
    let word = put_uint 4 v in
    let four : length word ≡ 4 = length-put_uint 4 v in
    let same : length (overwrite position word code) ≡ length code =
      length-overwrite position word code (omega arith) in
    let here : window position 4 (overwrite position word code) ≡ word =
      subst (λ k. window position k (overwrite position word code) ≡ word) four
        (window-overwrite position word code (omega arith)) in
    let whole : v % 256 ^ 4 ≡ v = omega arith in
    let ip : (position + 4) % 2 ^ 32 ≡ position + 4 = omega arith in
    (
      same,
      rw (same, le→ltb (length code) (position + 4) inside, here, get_uint-put_uint 4 v, whole, ip)
          refl,
      λ n p beside.
          let unchanged : window p n (overwrite position word code) ≡ window p n code =
            elim beside [
              | inl before ↦ window-overwrite_before position word code p n (omega arith) before
              | inr after ↦
                  window-overwrite_after position word code p n (omega arith) (omega arith)
            ] in
          rw (same, unchanged) refl,
    )

pub patch_inside :
    (spare position v : ℕ) (code : Bytes)
    → position + 4 ≤ length code
    → patch_uint32 spare position v code ≡ some (overwrite position (put_uint 4 v) code)
unfolding patch_uint32
patch_inside spare position v code inside =
    let written = overwrite position (put_uint 4 v) code in
    let four : length (put_uint 4 v) ≡ 4 = length-put_uint 4 v in
    let same : length written ≡ length code =
      length-overwrite position (put_uint 4 v) code (omega arith) in
    let all : take (length code) written ≡ written =
      take-all (length code) written (omega (arith, same)) in
    rw (le→ltb (length code + spare) (position + 4) (omega (arith, inside)), all) refl

-- What a successful patch of a word within the code leaves.
pub patched-IsPatchedAt :
    (spare position v : ℕ) (code patched : Bytes)
    → position + 4 ≤ length code
    → v < 2 ^ 32
    → length code < 2 ^ 32
    → patch_uint32 spare position v code ≡ some patched
    → IsPatchedAt position v code patched
patched-IsPatchedAt spare position v code patched inside hv hc h =
    subst (IsPatchedAt position v code)
      (some-injective _ _ (sym (patch_inside spare position v code inside) ∙ h))
      (overwrite-IsPatchedAt position v code inside hv hc)

-- `PatchUint32` at a position where four bytes lie within code of less than 2 ^ 32 bytes
-- succeeds, whatever capacity is spare: the code has its old length, the patched word reads as
-- the new 32-bit value, and every word beside it reads as before.
pub patch_uint32_lem :
    (spare position v : ℕ) (code : Bytes)
    → position + 4 ≤ length code
    → v < 2 ^ 32
    → length code < 2 ^ 32
    → (patched : Bytes) × (patch_uint32 spare position v code ≡ some patched)
      × (length patched ≡ length code)
      × (read_uint32_checked patched position ≡ value (v, position + 4))
      × ((n p : ℕ)
          → (p + n ≤ position) ⊎ (position + 4 ≤ p)
          → read_checked n patched p ≡ read_checked n code p)
patch_uint32_lem spare position v code inside hv hc =
    let (same, reads, others) = overwrite-IsPatchedAt position v code inside hv hc in
    (
      overwrite position (put_uint 4 v) code,
      patch_inside spare position v code inside,
      same,
      reads,
      others,
    )
