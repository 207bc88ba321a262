-- ===== src/Link/Program.antt =====
-- `Link` of cova/link.go as a whole: calls and the entry point lead to the functions they name.
use native.Mathlib.Nat.{mod-eq_of_lt}
use ccova.Prelude.{
  ℕ, suc, ◌+◌, ◌%◌, ◌^◌, ◌≤◌, ◌<◌, ◌≡◌, refl, sym, ◌∙◌, subst, arith, true, List, [], ◌∷◌, ◌++◌,
  map, take, length-append, length-map, length-take, some, All, All-impl, length, get_elem?,
  get_elem?-lt,
}
use ccova.Prelude.Checked.{accepted, ◌>>=◌, bind-eq-accepted, accepted_injective}
use ccova.Status.{value}
use ccova.Segment.{Bytes}
use ccova.Code.{clone_spare, read_checked, read_uint32_checked}
use ccova.Program.{LinkedProgram, ScriptFunctionDescriptor}
use ccova.Types.Basic.{value_kind_from_type}
use ccova.Vm.Calls.{params_in_range}
use ccova.Link.{
  SymbolBinding, CallPatch, RelocatableProgram, Linker, LinkError, Tables, no_tables, capacity_of,
  check_variables, add_functions, function_index, patch_calls, linked_program, with_entry,
  within_capacities, finish, link,
}
use ccova.Link.Params.{IsFunctionOf}
use ccova.Link.Functions.{
  total_params, IsListed, IsConsistent, no_tables-IsConsistent, add_functions-IsConsistent,
}
use ccova.Link.Calls.{IsInside, IsApartFrom, AreApart, IsPatched, patch_calls-IsPatched}

-- An element of a list.
abbrev pub IsIn {ℓ} : {A : Type ℓ} → A → List A → Type ℓ
IsIn a xs = (i : ℕ) × (get_elem? xs i ≡ some a)

every_element : {A : Type 0} (xs : List A) (Q : A → Type 0) → ((a : A) → IsIn a xs → Q a) → All Q xs
every_element [] Q f = tt
every_element (x ∷ xs) Q f = (f x (0, refl), every_element xs Q (λ a h. f a (suc h.0, h.1)))

-- What is small enough for the 32 bits of its counts.
pub record IsSmall (compiled : RelocatableProgram) : Type 0 where
  pub text : length compiled.text < 2 ^ 32
  pub functions : length compiled.functions < 2 ^ 32
  pub params : total_params compiled.functions < 2 ^ 32

-- The function at an index is that of a binding with the given id, and the parameters of the
-- binding are the ones in its part of the tables.
pub record Resolves (compiled : RelocatableProgram) (program : LinkedProgram) (id index : ℕ)
    : Type 0 where
  pub function : ScriptFunctionDescriptor
  pub at_index : get_elem? program.functions index ≡ some function
  pub binding : SymbolBinding
  pub declared : IsIn binding compiled.functions
  pub is_function : IsFunctionOf program.param_kinds program.param_offsets binding function
  pub same_id : binding.temp_func_id ≡ id

-- A call whose operand reads the index of the function it names.
abbrev pub IsLinkedCall : RelocatableProgram → LinkedProgram → CallPatch → Type 0
IsLinkedCall compiled program patch =
    (index : ℕ) × Resolves compiled program patch.temp_func_id index
    × (read_uint32_checked program.text patch.operand_pos ≡ value (index, patch.operand_pos + 4))

pub record IsLinked (compiled : RelocatableProgram) (program : LinkedProgram) : Type 0 where
  pub entry : Resolves compiled program compiled.entry_function program.entry_point
  pub calls : All (IsLinkedCall compiled program) compiled.call_patches
  pub same_length : length program.text ≡ length compiled.text
  pub elsewhere :
      (n p : ℕ)
      → All (IsApartFrom p n) compiled.call_patches
      → read_checked n program.text p ≡ read_checked n compiled.text p
  pub frame_size : program.frame_size ≡ compiled.frame_size
  pub frame_byte_size : program.frame_byte_size ≡ compiled.frame_byte_size
  pub const_byte_size : program.const_byte_size ≡ compiled.const_byte_size
  pub const_data : program.const_data ≡ compiled.const_data
  pub data_byte_size : program.data_byte_size ≡ compiled.data_byte_size
  pub data_data : program.data_data ≡ compiled.data_data
  pub bss_byte_size : program.bss_byte_size ≡ compiled.bss_byte_size
  pub functions :
      All
        (λ function.
          (binding : SymbolBinding) × IsIn binding compiled.functions
          × IsFunctionOf program.param_kinds program.param_offsets binding function)
        program.functions

module _ (spare : ℕ) (compiled : RelocatableProgram) (tables : Tables) (text : Bytes)
    (entry_point : ℕ) where
  abbrev made : LinkedProgram
  made = linked_program compiled tables text entry_point

  found-Resolves :
      length tables.functions < 2 ^ 32
      → IsConsistent (λ binding. IsIn binding compiled.functions) tables
      → (e : LinkError) (id : ℕ) {index : ℕ}
      → function_index tables.temp_to_function id e ≡ accepted index
      → Resolves compiled made id index × (index % 2 ^ 32 ≡ index)
  found-Resolves small consistent e id {index} h =
      let f = consistent.found e id h in
      let inside = get_elem?-lt tables.functions index f.at_index in
      (
        record {
          function = f.function;
          at_index = f.at_index;
          binding = f.binding;
          declared = f.known;
          is_function = f.is_function;
          same_id = f.same_id;
        },
        mod-eq_of_lt (omega arith),
      )

  made-IsLinked :
      length tables.functions < 2 ^ 32
      → length compiled.text < 2 ^ 32
      → All (IsInside compiled.text) compiled.call_patches
      → AreApart compiled.call_patches
      → IsConsistent (λ binding. IsIn binding compiled.functions) tables
      → patch_calls spare tables.temp_to_function compiled.call_patches compiled.text
        ≡ accepted text
      → function_index tables.temp_to_function compiled.entry_function LinkError.missing_entry
        ≡ accepted entry_point
      → IsLinked compiled made
  made-IsLinked small fits inside apart consistent patched entered =
      let resolves = found-Resolves small consistent in
      let (same, calls, others) =
        patch_calls-IsPatched spare tables.temp_to_function compiled.call_patches compiled.text fits
          inside apart patched in
      let (entry, no_wrap) =
        resolves LinkError.missing_entry compiled.entry_function entry_point entered in
      record {
        entry = subst (Resolves compiled made compiled.entry_function) (sym no_wrap) entry;
        calls =
            All-impl (IsPatched tables.temp_to_function text) (IsLinkedCall compiled made)
              compiled.call_patches
              (λ patch c.
                let (r, unwrapped) =
                  resolves LinkError.unresolved_function patch.temp_func_id c.0 c.1 in
                (
                  c.0,
                  r,
                  subst
                      (λ i.
                        read_uint32_checked text patch.operand_pos
                        ≡ value (i, patch.operand_pos + 4))
                      unwrapped c.2,
                ))
              calls;
        same_length = same;
        elsewhere = others;
        frame_size = refl;
        frame_byte_size = refl;
        const_byte_size = refl;
        const_data = refl;
        data_byte_size = refl;
        data_data = refl;
        bss_byte_size = refl;
        functions =
            All-impl (IsListed (λ binding. IsIn binding compiled.functions) tables) _
              tables.functions (λ function l. (l.binding, l.known, l.is_function))
              consistent.listed;
      }

-- The stages of a `Link` that succeeds.
record IsMade (spare : ℕ → ℕ) (compiled : RelocatableProgram) (program : LinkedProgram)
    : Type 0 where
  tables : Tables
  text : Bytes
  entry_point : ℕ
  consistent : IsConsistent (λ binding. IsIn binding compiled.functions) tables
  functions_bound : length tables.functions ≤ length compiled.functions
  kinds_bound : length tables.param_kinds ≤ total_params compiled.functions
  patched :
      patch_calls
        (clone_spare spare compiled.text)
        tables.temp_to_function
        compiled.call_patches
        compiled.text
      ≡ accepted text
  entered :
      function_index tables.temp_to_function compiled.entry_function LinkError.missing_entry
      ≡ accepted entry_point
  same : linked_program compiled tables text entry_point ≡ program

finish-IsMade :
    (spare : ℕ → ℕ) (compiled : RelocatableProgram) (tables : Tables) (program : LinkedProgram)
    → IsConsistent (λ binding. IsIn binding compiled.functions) tables
    → length tables.functions ≤ length compiled.functions
    → length tables.param_kinds ≤ total_params compiled.functions
    → finish spare compiled tables ≡ accepted program
    → IsMade spare compiled program
finish-IsMade spare compiled tables program consistent bound kinds h =
    let (text, patched, more) =
      bind-eq-accepted
        (patch_calls (clone_spare spare compiled.text) tables.temp_to_function compiled.call_patches
          compiled.text)
        (with_entry compiled tables) h in
    let (entry_point, entered, same) =
      bind-eq-accepted
        (function_index tables.temp_to_function compiled.entry_function LinkError.missing_entry)
        (λ entry_point. accepted (linked_program compiled tables text entry_point)) more in
    record {
      tables = tables;
      text = text;
      entry_point = entry_point;
      consistent = consistent;
      functions_bound = bound;
      kinds_bound = kinds;
      patched = patched;
      entered = entered;
      same = accepted_injective same;
    }

link-IsMade :
    (spare : ℕ → ℕ) (linker : Linker) (compiled : RelocatableProgram) (program : LinkedProgram)
    → IsSmall compiled
    → link spare linker compiled ≡ accepted program
    → IsMade spare compiled program
unfolding link
link-IsMade spare linker compiled program small h =
    let (variables, positive, checked) =
      bind-eq-accepted (capacity_of linker.variable_capacity LinkError.negative_variable_capacity)
        (λ n.
          capacity_of linker.function_capacity LinkError.negative_function_capacity
          >>= within_capacities spare compiled n)
        h in
    let (capacity, also_positive, tabled) =
      bind-eq-accepted (capacity_of linker.function_capacity LinkError.negative_function_capacity)
        (within_capacities spare compiled variables) checked in
    let (unit, variables_checked, added) =
      bind-eq-accepted (check_variables variables compiled.extern_symbols)
        (λ _. add_functions capacity compiled.functions no_tables >>= finish spare compiled)
        tabled in
    let (tables, listed, finished) =
      bind-eq-accepted (add_functions capacity compiled.functions no_tables) (finish spare compiled)
        added in
    let (consistent, bound, kinds) =
      add_functions-IsConsistent (λ binding. IsIn binding compiled.functions) capacity
        compiled.functions no_tables
        (every_element compiled.functions (λ binding. IsIn binding compiled.functions) (λ b h. h))
        (no_tables-IsConsistent (λ binding. IsIn binding compiled.functions))
        (omega (arith, small.params)) listed in
    finish-IsMade spare compiled tables program consistent (omega (arith, bound))
      (omega (arith, kinds)) finished

-- Where `Link` succeeds on a program with less than 2 ^ 32 bytes of text, functions and
-- parameters, whose call operands lie within the text and do not overlap: the operand of each
-- call reads, by the machine's checked read, the index of a function with the id that the call
-- names; the entry point is such an index for the entry function; the text has its old length
-- and reads as before beside the operands; every descriptor has the body address, the frame
-- size and the kind of the result of a declared function, whose parameter kinds and offsets
-- are the part of the two tables that it points at; and the frame sizes, the constants, the
-- data and the sizes of CONST, DATA and BSS in bytes are those of the compiled program.
pub link-IsLinked :
    (spare : ℕ → ℕ) (linker : Linker) (compiled : RelocatableProgram) (program : LinkedProgram)
    → IsSmall compiled
    → All (IsInside compiled.text) compiled.call_patches
    → AreApart compiled.call_patches
    → link spare linker compiled ≡ accepted program
    → IsLinked compiled program
link-IsLinked spare linker compiled program small inside apart h =
    let m = link-IsMade spare linker compiled program small h in
    subst (IsLinked compiled) m.same (
      made-IsLinked (clone_spare spare compiled.text) compiled m.tables m.text m.entry_point
        (omega (arith, m.functions_bound, small.functions)) small.text inside apart m.consistent
        m.patched m.entered)

-- A part of a list that starts at an index and has n elements ends within the list.
part_fits :
    {A : Type 0} {xs : List A} (before part after : List A) (start n : ℕ)
    → xs ≡ before ++ (part ++ after)
    → length before ≡ start
    → length part ≡ n
    → start + n ≤ length xs
part_fits before part after start n split is_start is_length =
    rw (split, length-append before (part ++ after), length-append part after)
      (omega (arith, is_start, is_length))

IsFunctionOf-params_in_range :
    (program : LinkedProgram) (binding : SymbolBinding) (function : ScriptFunctionDescriptor)
    → IsFunctionOf program.param_kinds program.param_offsets binding function
    → length program.param_kinds < 2 ^ 32
    → length program.param_kinds ≡ length program.param_offsets
    → params_in_range program function ≡ true
unfolding params_in_range
IsFunctionOf-params_in_range program binding function f small same =
    let all_kinds = mod-eq_of_lt small in
    let all_offsets : length program.param_offsets % 2 ^ 32 ≡ length program.param_offsets =
      omega (arith, small, same) in
    let kinds = map value_kind_from_type binding.param_types in
    let offsets = take (length binding.param_types) binding.param_offsets in
    let kinds_fit =
      part_fits f.kinds_before kinds f.kinds_after function.param_start function.param_count
        f.kinds_split f.kinds_start
        (length-map value_kind_from_type binding.param_types ∙ sym f.count) in
    let taken = length-take (length binding.param_types) binding.param_offsets in
    let offsets_fit =
      part_fits f.offsets_before offsets f.offsets_after function.param_start function.param_count
        f.offsets_split f.offsets_start (omega (arith, taken, f.count, f.enough)) in
    rw (all_kinds, all_offsets) (ground (arith, kinds_fit, offsets_fit))

-- Where `Link` succeeds on a program with less than 2 ^ 32 bytes of text, functions and
-- parameters, the parameters of every function of the linked program pass the test of their
-- range that the machine makes when it enters the function.
pub link-params_in_range :
    (spare : ℕ → ℕ) (linker : Linker) (compiled : RelocatableProgram) (program : LinkedProgram)
    → IsSmall compiled
    → link spare linker compiled ≡ accepted program
    → All (λ function. params_in_range program function ≡ true) program.functions
link-params_in_range spare linker compiled program small h =
    let m = link-IsMade spare linker compiled program small h in
    let made = linked_program compiled m.tables m.text m.entry_point in
    subst (λ (p : LinkedProgram). All (λ function. params_in_range p function ≡ true) p.functions)
      m.same
      (All-impl (IsListed (λ binding. IsIn binding compiled.functions) m.tables) _
        m.tables.functions
        (λ function l.
          IsFunctionOf-params_in_range made l.binding function l.is_function
            (omega (arith, m.kinds_bound, small.params)) m.consistent.same_length)
        m.consistent.listed)
