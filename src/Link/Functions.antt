-- ===== src/Link/Functions.antt =====
-- The loop of cova/link.go over the functions: what its tables say of each function.
use mathlib.Core.List.{append-nil}
use native.Mathlib.Nat.{mod-eq_of_lt, le_refl}
use ccova.Prelude.{
  ℕ, ◌+◌, ◌^◌, ◌≤◌, ◌<◌, ◌≡◌, refl, sym, ap, ◌∙◌, subst, arith, false, List, [], ◌∷◌, ◌++◌, map,
  some, All, leb, ◌==◌, length, get_elem?, length-append, length-map, get_elem?-append_left,
  get_elem?-append_length, All-append, All-impl, Bool-cases, inl, inr, ==_iff, ◌⊎◌,
}
use ccova.Prelude.Checked.{
  accepted, bind-eq-accepted, accepted_injective, reject_if-then, rejected-ne_accepted,
}
use ccova.Kind.{ValueKind}
use ccova.Program.{ScriptFunctionDescriptor}
use ccova.Types.Basic.{value_kind_from_type}
use ccova.Image.{len_u32}
use ccova.Link.{
  SymbolBinding, ScopeKind, LinkError, Tables, no_tables, add_params, descriptor, with_function,
  is_inconsistent, add_script_function, add_function, add_functions, function_index,
}
use ccova.Link.Params.{
  Appended, add_params-Appended, same-length, IsFunctionOf, IsFunctionOf-append,
}

function_index-cases :
    (key n : ℕ) (map : List (ℕ × ℕ)) (id : ℕ) (e : LinkError) {index : ℕ}
    → function_index ((key, n) ∷ map) id e ≡ accepted index
    → ((key ≡ id) × (n ≡ index)) ⊎ (function_index map id e ≡ accepted index)
unfolding function_index
function_index-cases key n map id e h = elim (Bool-cases (key == id)) [
  | inl hit ↦ inl ((==_iff key id).0 hit, accepted_injective (rw hit at h))
  | inr miss ↦ inr (rw miss at h)
]

consistent-count :
    (binding : SymbolBinding)
    → is_inconsistent binding ≡ false
    → length binding.param_types < 2 ^ 32
    → binding.param_count ≡ length binding.param_types
consistent-count binding h small = ground (arith, mod-eq_of_lt small)

-- The parameters of all functions together.
unfoldable pub total_params : List SymbolBinding → ℕ
total_params [] = 0
total_params (binding ∷ bindings) = length binding.param_types + total_params bindings

-- What the tables say of a function whose id they map to an index, and of all of them; `P` is what
-- is known of the bindings.
module _ (P : SymbolBinding → Type 0) where
  pub record IsListed (tables : Tables) (function : ScriptFunctionDescriptor) : Type 0 where
    pub binding : SymbolBinding
    pub known : P binding
    pub is_function : IsFunctionOf tables.param_kinds tables.param_offsets binding function

  pub record IsFound (tables : Tables) (id index : ℕ) : Type 0 where
    pub function : ScriptFunctionDescriptor
    pub at_index : get_elem? tables.functions index ≡ some function
    pub binding : SymbolBinding
    pub known : P binding
    pub is_function : IsFunctionOf tables.param_kinds tables.param_offsets binding function
    pub same_id : binding.temp_func_id ≡ id

  pub record IsConsistent (tables : Tables) : Type 0 where
    pub same_length : length tables.param_kinds ≡ length tables.param_offsets
    pub found :
        (e : LinkError) (id : ℕ) {index : ℕ}
        → function_index tables.temp_to_function id e ≡ accepted index
        → IsFound tables id index
    pub listed : All (IsListed tables) tables.functions

  pub no_tables-IsConsistent : IsConsistent no_tables
  unfolding function_index
  no_tables-IsConsistent = record {
    same_length = refl;
    found = λ e id h. absurd (rejected-ne_accepted h);
    listed = tt;
  }

  -- Tables that only grew still list what they listed.
  IsListed-grown :
      (before after : Tables) (ks : List ValueKind) (os : List ℕ)
      → after.param_kinds ≡ before.param_kinds ++ ks
      → after.param_offsets ≡ before.param_offsets ++ os
      → (function : ScriptFunctionDescriptor) → IsListed before function
      → IsListed after function
  IsListed-grown before after ks os kinds offsets function l = record {
    binding = l.binding;
    known = l.known;
    is_function =
        rw (kinds, offsets)
          (IsFunctionOf-append before.param_kinds ks before.param_offsets os l.binding function
            l.is_function);
  }

  IsFound-grown :
      (before after : Tables) (ks : List ValueKind) (os : List ℕ)
      (fs : List ScriptFunctionDescriptor)
      → after.param_kinds ≡ before.param_kinds ++ ks
      → after.param_offsets ≡ before.param_offsets ++ os
      → after.functions ≡ before.functions ++ fs
      → (id index : ℕ) → IsFound before id index
      → IsFound after id index
  IsFound-grown before after ks os fs kinds offsets functions id index f = record {
    function = f.function;
    at_index = rw functions (get_elem?-append_left before.functions fs index f.at_index);
    binding = f.binding;
    known = f.known;
    is_function =
        rw (kinds, offsets)
          (IsFunctionOf-append before.param_kinds ks before.param_offsets os f.binding f.function
            f.is_function);
    same_id = f.same_id;
  }

  module _ (binding : SymbolBinding) (before filled : Tables) where
    abbrev added : Tables
    added = with_function binding (len_u32 before.param_kinds) filled

    abbrev added_descriptor : ScriptFunctionDescriptor
    added_descriptor = descriptor binding (len_u32 before.param_kinds)

    -- The function that `add_script_function` adds.
    added-IsFunctionOf :
        binding.param_count ≡ length binding.param_types
        → length before.param_kinds < 2 ^ 32
        → length before.param_kinds ≡ length before.param_offsets
        → Appended binding.param_types binding.param_offsets before filled
        → IsFunctionOf added.param_kinds added.param_offsets binding added_descriptor
    added-IsFunctionOf count small same appended =
        let start = mod-eq_of_lt small in
        record {
          body = refl;
          frame = refl;
          result = refl;
          count = count;
          enough = appended.enough;
          kinds_before = before.param_kinds;
          kinds_after = [];
          kinds_split = appended.kinds ∙ ap (◌++◌ before.param_kinds) (sym (append-nil _));
          kinds_start = sym start;
          offsets_before = before.param_offsets;
          offsets_after = [];
          offsets_split =
              appended.offsets_taken ∙ ap (◌++◌ before.param_offsets) (sym (append-nil _));
          offsets_start = sym same ∙ sym start;
        }

    added-IsFound :
        P binding
        → (is_function : IsFunctionOf added.param_kinds added.param_offsets binding
            (descriptor binding (len_u32 before.param_kinds)))
        → Appended binding.param_types binding.param_offsets before filled
        → IsConsistent before
        → (e : LinkError) (id : ℕ) {index : ℕ}
        → function_index added.temp_to_function id e ≡ accepted index
        → IsFound added id index
    added-IsFound known is_function appended c e id {index} h =
        let last = length filled.functions in
        elim (function_index-cases binding.temp_func_id last filled.temp_to_function id e h) [
          | inl hit ↦ record {
            function = added_descriptor;
            at_index =
                subst (λ i. get_elem? added.functions i ≡ some added_descriptor) hit.1
                  (get_elem?-append_length filled.functions [] added_descriptor);
            binding = binding;
            known = known;
            is_function = is_function;
            same_id = hit.0;
          }
          | inr older ↦
              let kept : function_index before.temp_to_function id e ≡ accepted index =
                rw (sym appended.same_map) older in
              IsFound-grown before added _ _ _ appended.kinds appended.offsets_taken
                (ap (λ fs. fs ++ (added_descriptor ∷ [])) appended.same_functions) id index
                (c.found e id kept)
        ]

    added-IsConsistent :
        P binding
        → binding.param_count ≡ length binding.param_types
        → length before.param_kinds < 2 ^ 32
        → Appended binding.param_types binding.param_offsets before filled
        → IsConsistent before
        → IsConsistent added
    added-IsConsistent known count small appended c =
        let is_function = added-IsFunctionOf count small c.same_length appended in
        record {
          same_length = same-length appended c.same_length;
          found = added-IsFound known is_function appended c;
          listed =
              All-append (IsListed added) filled.functions (added_descriptor ∷ [])
                (subst (All (IsListed added)) (sym appended.same_functions) (
                  All-impl (IsListed before) (IsListed added) before.functions
                    (IsListed-grown before added _ _ appended.kinds appended.offsets_taken)
                    c.listed))
                (record { binding = binding; known = known; is_function = is_function }, tt);
        }

  -- Each function keeps the tables consistent and adds at most one descriptor.
  record IsStep (n : ℕ) (before after : Tables) : Type 0 where
    consistent : IsConsistent after
    kinds_bound : length after.param_kinds ≤ length before.param_kinds + n
    functions_bound : length after.functions ≤ length before.functions + 1

  add_script_function-IsStep :
      (binding : SymbolBinding) (before : Tables) {after : Tables}
      → P binding
      → IsConsistent before
      → length before.param_kinds + length binding.param_types < 2 ^ 32
      → add_script_function binding before ≡ accepted after
      → IsStep (length binding.param_types) before after
  unfolding add_script_function
  add_script_function-IsStep binding before {after} known c small h =
      let passed = reject_if-then (is_inconsistent binding) LinkError.inconsistent_parameters _ h in
      let (filled, made, same) =
        bind-eq-accepted (add_params binding.param_types binding.param_offsets before)
          (λ filled. accepted (with_function binding (len_u32 before.param_kinds) filled))
          passed.1 in
      let appended = add_params-Appended binding.param_types binding.param_offsets before made in
      let count = consistent-count binding passed.0 (omega (arith, small)) in
      subst (IsStep (length binding.param_types) before) (accepted_injective same) (record {
        consistent =
            added-IsConsistent binding before filled known count (omega (arith, small)) appended c;
        kinds_bound =
            rw
              (
                appended.kinds,
                length-append before.param_kinds (map value_kind_from_type binding.param_types),
                length-map value_kind_from_type binding.param_types,
              )
              (le_refl _);
        functions_bound =
            rw
              (
                appended.same_functions,
                length-append before.functions
                    (descriptor binding (len_u32 before.param_kinds) ∷ []),
              )
              (le_refl _);
      })

  add_function-IsStep :
      (capacity : ℕ) (binding : SymbolBinding) (before : Tables) {after : Tables}
      → P binding
      → IsConsistent before
      → length before.param_kinds + length binding.param_types < 2 ^ 32
      → (scope : ScopeKind) → add_function capacity scope binding before ≡ accepted after
      → IsStep (length binding.param_types) before after
  unfolding add_function
  add_function-IsStep capacity binding before known c small ScopeKind.extern_scope h =
      let test = leb capacity binding.slot_index in
      let passed = reject_if-then test LinkError.function_outside_capacity _ h in
      subst (IsStep (length binding.param_types) before) (accepted_injective passed.1)
        (record { consistent = c; kinds_bound = omega arith; functions_bound = omega arith })
  add_function-IsStep capacity binding before known c small ScopeKind.bss_scope h =
      add_script_function-IsStep binding before known c small h
  add_function-IsStep capacity binding before known c small ScopeKind.invalid_scope h =
      absurd (rejected-ne_accepted h)
  add_function-IsStep capacity binding before known c small ScopeKind.frame_scope h =
      absurd (rejected-ne_accepted h)
  add_function-IsStep capacity binding before known c small ScopeKind.const_scope h =
      absurd (rejected-ne_accepted h)
  add_function-IsStep capacity binding before known c small ScopeKind.data_scope h =
      absurd (rejected-ne_accepted h)

  pub add_functions-IsConsistent :
      (capacity : ℕ) (bindings : List SymbolBinding) (before : Tables) {after : Tables}
      → All P bindings
      → IsConsistent before
      → length before.param_kinds + total_params bindings < 2 ^ 32
      → add_functions capacity bindings before ≡ accepted after
      → IsConsistent after
        × (length after.functions ≤ length before.functions + length bindings)
        × (length after.param_kinds ≤ length before.param_kinds + total_params bindings)
  unfolding add_functions total_params
  add_functions-IsConsistent capacity [] before {after} known c small h =
      subst
        (λ (t : Tables).
          IsConsistent t
          × (length t.functions ≤ length before.functions + 0)
          × (length t.param_kinds ≤ length before.param_kinds + 0))
        (accepted_injective h) (c, omega arith, omega arith)
  add_functions-IsConsistent capacity (binding ∷ bindings) before {after} known c small h =
      let (added, made, more) =
        bind-eq-accepted (add_function capacity binding.scope binding before)
          (add_functions capacity bindings) h in
      let step =
        add_function-IsStep capacity binding before known.0 c (omega (arith, small)) binding.scope
          made in
      let (consistent, bound, kinds) =
        add_functions-IsConsistent capacity bindings added known.1 step.consistent
          (omega (arith, small, step.kinds_bound)) more in
      (
        consistent,
        omega (arith, bound, step.functions_bound),
        omega (arith, kinds, step.kinds_bound),
      )
