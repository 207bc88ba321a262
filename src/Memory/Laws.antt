-- ===== src/Memory/Laws.antt =====
-- Words of program memory are read back as written, and the CONST segment is never written
-- (cova/program-memory.go).
use ccova.Prelude.{
  ℕ, ◌+◌, ◌%◌, ◌^◌, ◌≤◌, ◌≡◌, ◌≢◌, refl, sym, ◌∙◌, ◌⊎◌, inl, inr, arith, ◌==◌, ==_iff, length,
  Bool-cases,
}
use ccova.Status.{value, bind-eq-value, Result-cases}
use ccova.Segment.{MemorySegment, write_uint}
use ccova.Segment.Laws.{
  read_uint-write_uint, read_uint-write_uint_ne, length-write_uint, capacity-write_uint,
}
use ccova.Address.{segment_const, address_segment, address_index}
use ccova.Memory.{
  ProgramMemory, update, segment_for_address, writable_segment_for_address, read, write,
}

-- What a successful write did: it named a segment that is not CONST, wrote a word there, and
-- changed no other segment.
pub record Wrote (n : ℕ) (memory : ProgramMemory) (address v : ℕ) (memory' : ProgramMemory)
    : Type 0 where
  pub written : MemorySegment
  pub in_segment :
      write_uint n (address_index address) v (memory (address_segment address)) ≡ value written
  pub result : memory' ≡ update memory (address_segment address) written
  pub named : segment_for_address address ≡ value (address_segment address)
  pub not_const : address_segment address ≢ segment_const

writable_segment :
    (address : ℕ) {s : ℕ}
    → writable_segment_for_address address ≡ value s
    → (s ≡ address_segment address)
      × (address_segment address ≢ segment_const)
      × (segment_for_address address ≡ value (address_segment address))
unfolding writable_segment_for_address segment_for_address
writable_segment address h = ground arith

pub write-Wrote :
    (n : ℕ) (memory : ProgramMemory) (address v : ℕ) {memory' : ProgramMemory}
    → write n memory address v ≡ value memory'
    → Wrote n memory address v memory'
unfolding write
write-Wrote n memory address v {memory'} h =
    let (s, named, rest) = bind-eq-value (writable_segment_for_address address) _ h in
    let (written, wrote, done) =
      bind-eq-value (write_uint n (address_index address) v (memory s)) _ rest in
    let (same, not_const, found) = writable_segment address named in
    record {
      written = written;
      in_segment = rw (← same) wrote;
      result = rw (← same) (cc);
      named = found;
      not_const = not_const;
    }

segment_of :
    (address : ℕ) {s : ℕ} → segment_for_address address ≡ value s → s ≡ address_segment address
unfolding segment_for_address
segment_of address h = ground arith

module _ (n : ℕ) (memory : ProgramMemory) (address v : ℕ) {memory' : ProgramMemory}
    (wrote : write n memory address v ≡ value memory') where
  -- After a successful write of n bytes at an address, a read of n bytes there gives the value
  -- written, modulo 256 ^ n.
  pub read-write : read n memory' address ≡ value (v % 256 ^ n)
  unfolding read
  read-write =
      let w = write-Wrote n memory address v wrote in
      rw (w.named, w.result, (==_iff (address_segment address) (address_segment address)).1 refl)
        (read_uint-write_uint n (address_index address) v (memory (address_segment address))
          w.in_segment)

  -- After a successful write, a read in another segment, or of bytes of the same segment that
  -- the write does not overlap, gives what it gave before.
  pub read-write_ne :
      (m other : ℕ)
      → (address_segment other ≢ address_segment address)
        ⊎ ((address_index other + m ≤ address_index address)
            ⊎ (address_index address + n ≤ address_index other))
      → read m memory' other ≡ read m memory other
  unfolding read
  read-write_ne m other apart =
      let w = write-Wrote n memory address v wrote in
      elim (Result-cases (segment_for_address other)) [
        | inr (status, e) ↦ rw e
        | inl (s, e) ↦
            let at = segment_of other e in
            elim (Bool-cases (address_segment address == s)) [
              | inr ne ↦ rw (e, w.result, ne)
              | inl eq ↦
                  let here : address_segment address ≡ s = (==_iff _ _).0 eq in
                  rw (e, w.result, eq, ← here)
                    (read_uint-write_uint_ne n (address_index address) v
                      (memory (address_segment address)) w.in_segment m (address_index other)
                      (elim apart [
                        | inl elsewhere ↦ absurd (elsewhere (sym (here ∙ at)))
                        | inr beside ↦ beside
                      ]))
            ]
      ]

  memory_at :
      (s : ℕ)
      → ((s ≡ address_segment address)
          × (length (memory' s).bytes ≡ length (memory s).bytes)
          × ((memory' s).capacity ≡ (memory s).capacity))
        ⊎ (memory' s ≡ memory s)
  memory_at s =
      let w = write-Wrote n memory address v wrote in
      elim (Bool-cases (address_segment address == s)) [
        | inr ne ↦ inr (rw (w.result, ne))
        | inl eq ↦
            let here : address_segment address ≡ s = (==_iff _ _).0 eq in
            inl (
              sym here,
              rw (w.result, eq, ← here)
                  (length-write_uint n (address_index address) v (memory (address_segment address))
                    w.in_segment),
              rw (w.result, eq, ← here)
                  (capacity-write_uint n (address_index address) v
                    (memory (address_segment address)) w.in_segment),
            )
      ]

  -- A successful write leaves the CONST segment as it was.
  pub write-const : memory' segment_const ≡ memory segment_const
  write-const = elim (memory_at segment_const) [
    | inl (e, len, room) ↦ absurd ((write-Wrote n memory address v wrote).not_const (sym e))
    | inr same ↦ same
  ]

  -- A successful write keeps the size and the capacity of every segment.
  pub write_size :
      (s : ℕ)
      → (length (memory' s).bytes ≡ length (memory s).bytes)
        × ((memory' s).capacity ≡ (memory s).capacity)
  write_size s = elim (memory_at s) [
    | inl (e, len, room) ↦ (len, room)
    | inr same ↦ (rw same, rw same)
  ]
