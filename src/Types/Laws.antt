-- ===== src/Types/Laws.antt =====
-- The layout of a struct (cova/types.go): what `NewStructType` accepts has its fields in order,
-- aligned and apart.
use Prim.Native.String.{String}
use native.Mathlib.Nat.{div-add-mod', mod-lt, mul-one, le_refl, le_trans}
use text.Mathlib.Text
use ccova.Prelude.{
  ℕ, ◌+◌, ◌-◌, ◌*◌, ◌/◌, ◌≤◌, ◌<◌, max, ◌≡◌, refl, sym, ap, subst, arith, inl, inr, false, ◌||◌,
  List, [], ◌∷◌, ltb, leb, Option, none, some, Bool-cases,
}
use ccova.Prelude.Checked.{accepted, ◌>>=◌, bind-eq-accepted, accepted_injective, reject_if-then}
use ccova.Types.{
  TypeKind, ScriptType, TypeRef, StructRef, StructFields, kind, byte_size, alignment_of, same_kind,
}
use ccova.Types.Layout.{
  TypeError, max_int, address_space, align_up_int, contains, complete, or_overflow, offset_of,
  align_field, place_field, LaidOut, larger, with_field, lay_out, sized_struct, struct_of, is_empty,
  new_struct_type,
}

-- A multiple of the alignment, where an alignment of 0 is no constraint.
abbrev pub IsAligned : ℕ → ℕ → Type 0
IsAligned alignment offset = (k : ℕ) × (offset ≡ k * max 1 alignment)

-- The first aligned offset that is not below a value.
pub record IsFirstAligned (alignment value offset : ℕ) : Type 0 where
  pub aligned : IsAligned alignment offset
  pub above : value ≤ offset
  pub first : offset < value + max 1 alignment

pub align_up_int-IsFirstAligned :
    (value alignment : ℕ) {offset : ℕ}
    → align_up_int value alignment ≡ some offset
    → IsFirstAligned alignment value offset
unfolding align_up_int
align_up_int-IsFirstAligned value alignment {offset} h =
    let q = (value + alignment - 1) / alignment in
    elim (Bool-cases (leb alignment 1)) [
      | inl small ↦
          let one : max 1 alignment ≡ 1 = ground arith in
          let same : value ≡ offset = ground arith in
          record {
            aligned = (offset, rw (one, mul-one offset) refl);
            above = omega arith;
            first = omega arith;
          }
      | inr large ↦
          let parts = div-add-mod' (value + alignment - 1) alignment in
          let rest = mod-lt (value + alignment - 1) {m = alignment} (ground arith) in
          let big : max 1 alignment ≡ alignment = ground arith in
          let same : q * alignment ≡ offset = ground arith in
          record { aligned = (q, rw big (sym same)); above = omega arith; first = omega arith }
    ]

-- The types and the names of the fields, without their offsets.
abbrev pub members : StructFields → List (String × TypeRef)
members StructFields.end = []
members (StructFields.field label type offset fields) = (label, type) ∷ members fields

-- Fields that follow each other from an offset to an end: each at the first aligned offset that
-- its type allows, with a name of its own, in a struct of a large enough alignment.
abbrev pub IsPlaced : ℕ → List String → ℕ → StructFields → ℕ → Type 0
IsPlaced align names offset StructFields.end stop = offset ≡ stop
IsPlaced align names offset (StructFields.field label TypeRef.nil at fields) stop = ⊥
IsPlaced align names offset (StructFields.field label (TypeRef.ref type) at fields) stop =
    IsFirstAligned (alignment_of type) offset at
    × (alignment_of type ≤ align)
    × (1 ≤ byte_size type)
    × (at + byte_size type ≤ max_int)
    × (contains names label ≡ false)
    × IsPlaced align (label ∷ names) (at + byte_size type) fields stop

-- What `place_field` accepts.
record IsField (names : List String) (offset : ℕ) (label : String) (type : ScriptType) (at : ℕ)
    : Type 0 where
  placed : IsFirstAligned (alignment_of type) offset at
  sized : 1 ≤ byte_size type
  bounded : at + byte_size type ≤ max_int
  fresh : contains names label ≡ false

or_overflow-accepted : (m : Option ℕ) {n : ℕ} → or_overflow m ≡ accepted n → m ≡ some n
or_overflow-accepted none h = cc
or_overflow-accepted (some k) h = ap some (accepted_injective h)

complete-accepted :
    (r : TypeRef) {type : ScriptType}
    → complete r ≡ accepted type
    → (r ≡ TypeRef.ref type) × (1 ≤ byte_size type)
complete-accepted TypeRef.nil h = cc
complete-accepted (TypeRef.ref type) h =
    let test = same_kind (kind type) TypeKind.void_type || leb (byte_size type) 0 in
    let checked = reject_if-then test TypeError.incomplete_field _ h in
    let same = accepted_injective checked.1 in
    (ap TypeRef.ref same, subst (λ t. 1 ≤ byte_size t) same (ground (arith, checked.0)))

no_overflow : (o n : ℕ) → ltb (max_int - o) n ≡ false → 1 ≤ n → o + n ≤ max_int
no_overflow o n h sized = ground arith

place_field-IsField :
    (names : List String) (offset : ℕ) (label : String) (r : TypeRef) {type : ScriptType} {at : ℕ}
    → place_field names offset label r ≡ accepted (type, at)
    → (r ≡ TypeRef.ref type) × IsField names offset label type at
unfolding place_field
place_field-IsField names offset label r {type} {at} h =
    let named = reject_if-then (Text.◌==◌ label "") TypeError.unnamed_field _ h in
    let fresh = reject_if-then (contains names label) TypeError.duplicate_field _ named.1 in
    let (t, completed, more) = bind-eq-accepted (complete r) (align_field offset) fresh.1 in
    let (o, raised, rest) =
      bind-eq-accepted (or_overflow (align_up_int offset (alignment_of t))) (offset_of t) more in
    let bounded =
      reject_if-then (ltb (max_int - o) (byte_size t)) TypeError.struct_overflow _ rest in
    let full = complete-accepted r completed in
    let found = or_overflow-accepted (align_up_int offset (alignment_of t)) raised in
    subst (λ p. (r ≡ TypeRef.ref p.0) × IsField names offset label p.0 p.1)
      (accepted_injective bounded.1)
      (
        full.0,
        record {
          placed = align_up_int-IsFirstAligned offset (alignment_of t) found;
          sized = full.1;
          bounded = no_overflow o (byte_size t) bounded.0 full.1;
          fresh = fresh.0;
        },
      )

larger-cases :
    (align : ℕ) (type : ScriptType)
    → (align ≤ larger align type) × (alignment_of type ≤ larger align type)
larger-cases align type = ground arith

IsPlaced-field :
    (names : List String) (offset align at stop : ℕ) (label : String) (type : ScriptType)
    (fields : StructFields)
    → IsField names offset label type at
    → alignment_of type ≤ align
    → IsPlaced align (label ∷ names) (at + byte_size type) fields stop
    → IsPlaced align names offset (StructFields.field label (TypeRef.ref type) at fields) stop
IsPlaced-field names offset align at stop label type fields f below rest =
    (f.placed, below, f.sized, f.bounded, f.fresh, rest)

lay_out-IsPlaced :
    (names : List String) (offset align : ℕ) (fields : StructFields) {layout : LaidOut}
    → lay_out names offset align fields ≡ accepted layout
    → (align ≤ layout.alignment)
      × (members layout.fields ≡ members fields)
      × IsPlaced layout.alignment names offset layout.fields layout.end
unfolding lay_out
lay_out-IsPlaced names offset align StructFields.end h =
    subst
      (λ (l : LaidOut).
        (align ≤ l.alignment)
        × (members l.fields ≡ [])
        × IsPlaced l.alignment names offset l.fields l.end)
      (accepted_injective h) (le_refl align, refl, refl)
lay_out-IsPlaced names offset align (StructFields.field label r unset fields) {layout} h =
    let (placed, checked, more) =
      bind-eq-accepted (place_field names offset label r)
        (λ (placed : ScriptType × ℕ).
          lay_out (label ∷ names) (placed.1 + byte_size placed.0) (larger align placed.0) fields
          >>= λ rest. accepted (with_field label r placed.1 rest))
        h in
    let (rest, made, same) =
      bind-eq-accepted
        (lay_out (label ∷ names) (placed.1 + byte_size placed.0) (larger align placed.0) fields)
        (λ rest. accepted (with_field label r placed.1 rest)) more in
    let (is_ref, is_field) = place_field-IsField names offset label r checked in
    let (grows, kept, laid) =
      lay_out-IsPlaced (label ∷ names) (placed.1 + byte_size placed.0) (larger align placed.0)
        fields made in
    let (above, type_above) = larger-cases align placed.0 in
    subst
      (λ (l : LaidOut).
        (align ≤ l.alignment)
        × (members l.fields ≡ (label, r) ∷ members fields)
        × IsPlaced l.alignment names offset l.fields l.end)
      (accepted_injective same)
      (
        le_trans above grows,
        ap (◌∷◌ (label, r)) kept,
        subst
            (λ r'.
              IsPlaced rest.alignment names offset
                (StructFields.field label r' placed.1 rest.fields) rest.end)
            (sym is_ref)
            (IsPlaced-field names offset rest.alignment placed.1 rest.end label placed.0 rest.fields
              is_field (le_trans type_above grows) laid),
      )

-- A struct with the declared fields, placed one after the other from 0 on, whose size is the first
-- multiple of its alignment that is not below their end and is within the bytes of a segment.
pub record IsStructOf (declared : StructFields) (type : ScriptType) : Type 0 where
  pub label : String
  pub fields : StructFields
  pub stop : ℕ
  pub size : ℕ
  pub align : ℕ
  pub is_type :
      type
      ≡ ScriptType.script_type TypeKind.struct_type label size TypeRef.nil 0
          (StructRef.struct_ref label fields size align)
          false
  pub same_members : members fields ≡ members declared
  pub positive : 1 ≤ align
  pub placed : IsPlaced align [] 0 fields stop
  pub rounded : IsFirstAligned align stop size
  pub addressable : size ≤ address_space

within : (size : ℕ) → ltb address_space size ≡ false → size ≤ address_space
within size h = ground arith

struct_of-IsStructOf :
    (name : String) (declared : StructFields) (layout : LaidOut) {type : ScriptType}
    → 1 ≤ layout.alignment
    → members layout.fields ≡ members declared
    → IsPlaced layout.alignment [] 0 layout.fields layout.end
    → struct_of name layout ≡ accepted type
    → IsStructOf declared type
unfolding struct_of
struct_of-IsStructOf name declared layout {type} positive same placed h =
    let (size, raised, more) =
      bind-eq-accepted (or_overflow (align_up_int layout.end layout.alignment))
        (sized_struct name layout) h in
    let fits = reject_if-then (ltb address_space size) TypeError.struct_too_large _ more in
    let found = or_overflow-accepted (align_up_int layout.end layout.alignment) raised in
    record {
      label = name;
      fields = layout.fields;
      stop = layout.end;
      size = size;
      align = layout.alignment;
      is_type = sym (accepted_injective fits.1);
      same_members = same;
      positive = positive;
      placed = placed;
      rounded = align_up_int-IsFirstAligned layout.end layout.alignment found;
      addressable = within size fits.0;
    }

-- A type that `NewStructType` makes is a struct of the declared fields in their order: each
-- field is at the first multiple of its alignment that is not below the end of the field
-- before, has a complete type and a name of its own; the struct's alignment is at least that
-- of every field, its size is the first multiple of it that is not below the end of the last
-- field, and is at most 2 ^ 24.
pub new_struct_type-IsStructOf :
    (name : String) (fields : StructFields) (type : ScriptType)
    → new_struct_type name fields ≡ accepted type
    → IsStructOf fields type
unfolding new_struct_type
new_struct_type-IsStructOf name fields type h =
    let named = reject_if-then (Text.◌==◌ name "") TypeError.empty_struct_name _ h in
    let filled = reject_if-then (is_empty fields) TypeError.empty_struct _ named.1 in
    let (layout, made, more) = bind-eq-accepted (lay_out [] 0 1 fields) (struct_of name) filled.1 in
    let (positive, same, placed) = lay_out-IsPlaced [] 0 1 fields made in
    struct_of-IsStructOf name fields layout positive same placed more
