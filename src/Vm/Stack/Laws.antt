-- ===== src/Vm/Stack/Laws.antt =====
-- What the stack operations of cova/vm.go do to the whole machine: a push and a pop cancel, and an
-- arithmetic instruction replaces its operands by the result.
use ccova.Prelude.{
  ℕ, ◌+◌, ◌*◌, ◌%◌, ◌^◌, ◌≤◌, ◌<◌, ◌≡◌, refl, ap, ◌∙◌, arith, ◌++◌, ◌==◌, Bool-cases, inl, inr,
  length, length-append, ==_iff,
}
use native.Mathlib.Nat.{mod-eq_of_lt}
use ccova.Status.{Result, value, error}
use ccova.Kind.{ArithmeticOp, CompareOp}
use ccova.Segment.{MemorySegment, put_uint, append_uint}
use ccova.Segment.Laws.{length-put_uint, truncate_uint-append_uint}
use ccova.Address.{segment_stack}
use ccova.Memory.{ProgramMemory, update}
use ccova.Word.{IntType, integer_arithmetic, Ordered, compare_ordered}
use ccova.Vm.State.{Vm, M, Outcome, done, fail, ◌>>=◌, lift, stack, set_segment}
use ccova.Vm.Stack.{push_uint, pop_uint}
use ccova.Vm.Compute.{execute_integer_arithmetic, pop_and_compare}

-- The machine with `n` more bytes on the stack, the low bytes of `v`.
abbrev pub with_word : ℕ → ℕ → Vm → Vm
with_word n v vm =
    set_segment segment_stack (record (stack vm) { bytes = (stack vm).bytes ++ put_uint n v }) vm

-- Putting a segment back that was there before.
update-back_at :
    (memory : ProgramMemory) (i : ℕ) (s : MemorySegment) (j : ℕ)
    → update (update memory i s) i (memory i) j ≡ memory j
update-back_at memory i s j = elim (Bool-cases (i == j)) [
  | inr e ↦ rw e refl
  | inl e ↦ rw e (ap memory ((==_iff i j).0 e))
]

update-back :
    (memory : ProgramMemory) (i : ℕ) (s : MemorySegment)
    → update (update memory i s) i (memory i) ≡ memory
update-back memory i s = λ k j. update-back_at memory i s j k

pub append-fits :
    (n v : ℕ) (segment : MemorySegment)
    → length segment.bytes + n ≤ segment.capacity
    → append_uint n v segment ≡ value (record segment { bytes = segment.bytes ++ put_uint n v })
unfolding append_uint
append-fits n v segment h = ground arith

pub push_uint-with_word :
    (n v : ℕ) (vm : Vm)
    → length (stack vm).bytes + n ≤ (stack vm).capacity
    → push_uint n v vm ≡ done tt (with_word n v vm)
unfolding push_uint
push_uint-with_word n v vm fits = rw (append-fits n v (stack vm) fits) refl

-- Popping n bytes from a machine on whose stack n bytes of a value were put, with room for
-- them, gives the value modulo 256 ^ n and the machine as it was before.
pub pop_uint-with_word :
    (n v : ℕ) (vm : Vm)
    → length (stack vm).bytes + n ≤ (stack vm).capacity
    → pop_uint n (with_word n v vm) ≡ done (v % 256 ^ n) vm
unfolding pop_uint
pop_uint-with_word n v vm fits =
    rw (truncate_uint-append_uint n v (stack vm) (append-fits n v (stack vm) fits)) (
      ap (λ (m : ProgramMemory). done (v % 256 ^ n) (record vm { memory = m }))
        (update-back vm.memory segment_stack _))

pop_then :
    {B : Type 0} (n v : ℕ) (vm : Vm) (f : ℕ → M B)
    → length (stack vm).bytes + n ≤ (stack vm).capacity
    → v < 256 ^ n
    → (pop_uint n >>= f) (with_word n v vm) ≡ f v vm
unfolding ◌>>=◌
pop_then n v vm f fits small = rw (pop_uint-with_word n v vm fits, mod-eq_of_lt small) refl

-- What an instruction leaves for the answer of its operation.
abbrev pub answered : ℕ → Vm → Result ℕ → Outcome (Unit {0})
answered n vm (value result) = done tt (with_word n result vm)
answered n vm (error status) = fail status vm

push-answered :
    (n : ℕ) (vm : Vm) (r : Result ℕ)
    → length (stack vm).bytes + n ≤ (stack vm).capacity
    → (lift r >>= push_uint n) vm ≡ answered n vm r
unfolding lift ◌>>=◌
push-answered n vm (value result) fits = push_uint-with_word n result vm fits
push-answered n vm (error status) fits = refl

length-with_word :
    (n v : ℕ) (vm : Vm) → length (stack (with_word n v vm)).bytes ≡ length (stack vm).bytes + n
length-with_word n v vm =
    omega (arith, length-append (stack vm).bytes (put_uint n v), length-put_uint n v)

-- An integer instruction on two operands of its type on the stack, the right one on top: the
-- result of the operation takes their place and nothing else of the machine changes; where the
-- operation fails, the operands are gone and nothing else has changed.
pub execute_integer_arithmetic-operands :
    (t : IntType) (op : ArithmeticOp) (left right : ℕ) (vm : Vm)
    → length (stack vm).bytes + 2 * t.bytes ≤ (stack vm).capacity
    → left < 256 ^ t.bytes
    → right < 256 ^ t.bytes
    → execute_integer_arithmetic t op (with_word t.bytes right (with_word t.bytes left vm))
      ≡ answered t.bytes vm (integer_arithmetic t op left right)
unfolding execute_integer_arithmetic
execute_integer_arithmetic-operands t op left right vm fits hl hr =
    let n = t.bytes in
    pop_then n right (with_word n left vm) _ (omega (arith, length-with_word n left vm)) hr
    ∙ pop_then n left vm _ (omega arith) hl
    ∙ push-answered n vm (integer_arithmetic t op left right) (omega arith)

-- The comparison of two operands of n bytes on the stack, the right one on top, takes both
-- off, gives the answer of `compareOrdered` on them or its error, and changes nothing else.
pub pop_and_compare-operands :
    (t : Ordered) (n : ℕ) (op : CompareOp) (left right : ℕ) (vm : Vm)
    → length (stack vm).bytes + 2 * n ≤ (stack vm).capacity
    → left < 256 ^ n
    → right < 256 ^ n
    → pop_and_compare t n op (with_word n right (with_word n left vm))
      ≡ lift (compare_ordered t op left right) vm
unfolding pop_and_compare
pop_and_compare-operands t n op left right vm fits hl hr =
    pop_then n right (with_word n left vm) _ (omega (arith, length-with_word n left vm)) hr
    ∙ pop_then n left vm _ (omega arith) hl
