-- ===== src/Link/Params.antt =====
-- The loop of cova/link.go over the parameters of a function, and where they stand in the tables.
use mathlib.Core.List.{append-nil, append_assoc}
use ccova.Prelude.{
  ℕ, ◌≤◌, ◌≡◌, refl, sym, ap, ◌∙◌, subst, arith, List, [], ◌∷◌, ◌++◌, map, length, take,
  length-append, length-map, length-take,
}
use ccova.Prelude.Checked.{accepted, accepted_injective, reject_if-then, rejected-ne_accepted}
use ccova.Kind.{ValueKind}
use ccova.Program.{ScriptFunctionDescriptor}
use ccova.Types.{TypeRef}
use ccova.Types.Basic.{value_kind_from_type}
use ccova.Link.{SymbolBinding, LinkError, Tables, is_unsupported, add_params}

-- What the loop over parameters appends.
pub record Appended (types : List TypeRef) (offsets : List ℕ) (before after : Tables) : Type 0 where
  pub same_map : after.temp_to_function ≡ before.temp_to_function
  pub same_functions : after.functions ≡ before.functions
  pub kinds : after.param_kinds ≡ before.param_kinds ++ map value_kind_from_type types
  pub offsets_taken : after.param_offsets ≡ before.param_offsets ++ take (length types) offsets
  pub enough : length types ≤ length offsets

pub add_params-Appended :
    (types : List TypeRef) (offsets : List ℕ) (before : Tables) {after : Tables}
    → add_params types offsets before ≡ accepted after
    → Appended types offsets before after
unfolding add_params
add_params-Appended [] offsets before {after} h =
    subst (Appended [] offsets before) (accepted_injective h) (record {
      same_map = refl;
      same_functions = refl;
      kinds = sym (append-nil before.param_kinds);
      offsets_taken = sym (append-nil before.param_offsets);
      enough = omega arith;
    })
add_params-Appended (type ∷ types) [] before h =
    let test = is_unsupported (value_kind_from_type type) in
    let passed = reject_if-then test LinkError.unsupported_parameter _ h in
    absurd (rejected-ne_accepted passed.1)
add_params-Appended (type ∷ types) (offset ∷ offsets) before h =
    let kind = value_kind_from_type type in
    let passed = reject_if-then (is_unsupported kind) LinkError.unsupported_parameter _ h in
    let more = add_params-Appended types offsets _ passed.1 in
    record {
      same_map = more.same_map;
      same_functions = more.same_functions;
      kinds =
          more.kinds ∙ append_assoc before.param_kinds (kind ∷ []) (map value_kind_from_type types);
      offsets_taken =
          more.offsets_taken
          ∙ append_assoc before.param_offsets (offset ∷ []) (take (length types) offsets);
      enough = omega (arith, more.enough);
    }

pub same-length :
    {types : List TypeRef} {offsets : List ℕ} {before after : Tables}
    → Appended types offsets before after
    → length before.param_kinds ≡ length before.param_offsets
    → length after.param_kinds ≡ length after.param_offsets
same-length {types} {offsets} {before} a same =
    rw
      (
        a.kinds,
        a.offsets_taken,
        length-append before.param_kinds (map value_kind_from_type types),
        length-append before.param_offsets (take (length types) offsets),
        length-map value_kind_from_type types,
        length-take (length types) offsets,
      )
      (omega (arith, a.enough))

-- A descriptor has the address, the frame and the result of a function, and its parameters stand in
-- the tables where it says.
pub record IsFunctionOf (kinds : List ValueKind) (offsets : List ℕ) (binding : SymbolBinding)
    (function : ScriptFunctionDescriptor) : Type 0 where
  pub body : function.body_address ≡ binding.script_address
  pub frame : function.frame_byte_size ≡ binding.frame_byte_size
  pub result : function.return_kind ≡ value_kind_from_type binding.type
  pub count : function.param_count ≡ length binding.param_types
  pub enough : length binding.param_types ≤ length binding.param_offsets
  pub kinds_before : List ValueKind
  pub kinds_after : List ValueKind
  pub kinds_split :
      kinds ≡ kinds_before ++ (map value_kind_from_type binding.param_types ++ kinds_after)
  pub kinds_start : length kinds_before ≡ function.param_start
  pub offsets_before : List ℕ
  pub offsets_after : List ℕ
  pub offsets_split :
      offsets
      ≡ offsets_before ++ (take (length binding.param_types) binding.param_offsets ++ offsets_after)
  pub offsets_start : length offsets_before ≡ function.param_start

split-append :
    {A : Type 0} {xs : List A} (a b c d : List A)
    → xs ≡ a ++ (b ++ c)
    → xs ++ d ≡ a ++ (b ++ (c ++ d))
split-append a b c d h =
    ap (λ l. l ++ d) h ∙ append_assoc a (b ++ c) d ∙ ap (◌++◌ a) (append_assoc b c d)

pub IsFunctionOf-append :
    (kinds ks : List ValueKind) (offsets os : List ℕ) (binding : SymbolBinding)
    (function : ScriptFunctionDescriptor)
    → IsFunctionOf kinds offsets binding function
    → IsFunctionOf (kinds ++ ks) (offsets ++ os) binding function
IsFunctionOf-append kinds ks offsets os binding function f = record {
  body = f.body;
  frame = f.frame;
  result = f.result;
  count = f.count;
  enough = f.enough;
  kinds_before = f.kinds_before;
  kinds_after = f.kinds_after ++ ks;
  kinds_split = split-append f.kinds_before _ f.kinds_after ks f.kinds_split;
  kinds_start = f.kinds_start;
  offsets_before = f.offsets_before;
  offsets_after = f.offsets_after ++ os;
  offsets_split = split-append f.offsets_before _ f.offsets_after os f.offsets_split;
  offsets_start = f.offsets_start;
}
