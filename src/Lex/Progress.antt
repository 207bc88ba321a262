-- ===== src/Lex/Progress.antt =====
-- The widths that the parts of cova/lex.go return: no part takes more bytes than are left.
use ccova.Prelude.{
  ℕ, zero, suc, ◌+◌, ◌≤◌, ◌≡◌, refl, ap, arith, inl, inr, Bool, true, false, ◌&&◌, ◌||◌, Bool-cases,
  leb, List, [], ◌∷◌, ◌==◌, if◌then◌else◌, take, drop, length, length-take, length-drop,
}
use Prim.Native.String.{String}
use ccova.Prelude.Checked.{accepted, accepted_injective, reject_if-then}
use ccova.Segment.{Bytes}
use ccova.Lex.{
  LexError, Unicode, Decodes, spelled, same_bytes, begins, begins_any, long_operators,
  pair_operators, pair_delimiters, operator_width, delimiter_width, is_ident_part,
}
use ccova.Lex.Literals.{starts_with, digits_width, some_digits, fraction_width, exponent_width}
use ccova.Lex.Scan.{line_width, ident_width, newline_width}

same_bytes-length : (a b : Bytes) → same_bytes a b ≡ true → length a ≡ length b
same_bytes-length [] [] h = refl
same_bytes-length [] (c ∷ cs) h = cc
same_bytes-length (b ∷ bs) [] h = cc
same_bytes-length (b ∷ bs) (c ∷ cs) h = elim (Bool-cases (b == c)) [
  | inl e ↦ ap suc (same_bytes-length bs cs (rw e at h))
  | inr e ↦ absurd (ground (arith, e, h))
]

pub begins-length :
    (text : String) (bytes : Bytes)
    → begins text bytes ≡ true
    → length (spelled text) ≤ length bytes
begins-length text bytes h =
    let n = length (spelled text) in
    omega (arith, same_bytes-length (spelled text) (take n bytes) h, length-take n bytes)

pub and_right : (a b : Bool) → (a && b) ≡ true → b ≡ true
and_right true b h = h
and_right false b h = cc

abbrev all_at_least : ℕ → List String → Bool
all_at_least n [] = true
all_at_least n (text ∷ texts) = leb n (length (spelled text)) && all_at_least n texts

begins_any-length :
    (n : ℕ) (texts : List String) (bytes : Bytes)
    → all_at_least n texts ≡ true
    → begins_any texts bytes ≡ true
    → n ≤ length bytes
begins_any-length n [] bytes long h = cc
begins_any-length n (text ∷ texts) bytes long h =
    let enough : n ≤ length (spelled text) = ground (arith, long) in
    elim (Bool-cases (begins text bytes)) [
      | inl e ↦ omega (arith, begins-length text bytes e, enough)
      | inr e ↦
          begins_any-length n texts bytes
            (and_right (leb n (length (spelled text))) (all_at_least n texts) long) (rw e at h)
    ]

abbrev pub IsWidth : ℕ → Bytes → Type 0
IsWidth width bytes = (1 ≤ width) × (width ≤ length bytes)

pub operator_width-IsWidth : (b : ℕ) (bs : Bytes) → IsWidth (operator_width (b ∷ bs)) (b ∷ bs)
unfolding operator_width
operator_width-IsWidth b bs = elim (Bool-cases (begins_any long_operators (b ∷ bs))) [
  | inl e ↦ rw e (omega arith, begins_any-length 3 long_operators (b ∷ bs) refl e)
  | inr e ↦ elim (Bool-cases (begins_any pair_operators (b ∷ bs))) [
    | inl f ↦ rw (e, f) (omega arith, begins_any-length 2 pair_operators (b ∷ bs) refl f)
    | inr f ↦ rw (e, f) (omega arith, omega arith)
  ]
]

pub delimiter_width-IsWidth : (b : ℕ) (bs : Bytes) → IsWidth (delimiter_width (b ∷ bs)) (b ∷ bs)
unfolding delimiter_width
delimiter_width-IsWidth b bs = elim (Bool-cases (begins "..." (b ∷ bs))) [
  | inl e ↦ rw e (omega arith, begins-length "..." (b ∷ bs) e)
  | inr e ↦ elim (Bool-cases (begins_any pair_delimiters (b ∷ bs))) [
    | inl f ↦ rw (e, f) (omega arith, begins_any-length 2 pair_delimiters (b ∷ bs) refl f)
    | inr f ↦ rw (e, f) (omega arith, omega arith)
  ]
]

pub line_width-le : (bytes : Bytes) → line_width bytes ≤ length bytes
unfolding line_width
line_width-le [] = omega arith
line_width-le (b ∷ bs) = elim (Bool-cases (b == 10 || b == 13)) [
  | inl e ↦ rw e (omega arith)
  | inr e ↦ rw e (omega (arith, line_width-le bs))
]

pub starts_with-length : (chars bytes : Bytes) → starts_with chars bytes ≡ true → 1 ≤ length bytes
starts_with-length chars [] h = cc
starts_with-length chars (b ∷ bs) h = omega arith

pub newline_width-IsWidth :
    (char width : ℕ) (bytes : Bytes)
    → IsWidth width bytes
    → IsWidth (newline_width char width bytes) bytes
newline_width-IsWidth char width bytes h =
    elim (Bool-cases (char == 13 && starts_with (10 ∷ []) (drop width bytes))) [
      | inr e ↦ rw e h
      | inl e ↦
          let more : starts_with (10 ∷ []) (drop width bytes) ≡ true =
            and_right (char == 13) (starts_with (10 ∷ []) (drop width bytes)) e in
          rw e (
            omega (arith, h.0),
            omega (
              arith,
              starts_with-length (10 ∷ []) (drop width bytes) more,
              length-drop width bytes,
            ),
          )
    ]

pub ident_width-le :
    (unicode : Unicode) (fuel : ℕ) (bytes : Bytes)
    → Decodes unicode
    → (ident_width unicode fuel bytes).0 ≤ length bytes
unfolding ident_width
ident_width-le unicode zero bytes d = omega arith
ident_width-le unicode (suc fuel) [] d = omega arith
ident_width-le unicode (suc fuel) (b ∷ bs) d =
    let part = unicode.decode_rune (b ∷ bs) in
    elim (Bool-cases (is_ident_part unicode part.0)) [
      | inr e ↦ rw e (omega arith)
      | inl e ↦ rw e (
          omega (
            arith,
            ident_width-le unicode fuel (drop part.1 (b ∷ bs)) d,
            length-drop part.1 (b ∷ bs),
            d.bounded b bs,
          ))
    ]

pub digits_width-le :
    (unicode : Unicode) (bytes : Bytes) → digits_width unicode bytes ≤ length bytes
unfolding digits_width
digits_width-le unicode [] = omega arith
digits_width-le unicode (b ∷ bs) = elim (Bool-cases (unicode.is_digit b)) [
  | inl e ↦ rw e (omega (arith, digits_width-le unicode bs))
  | inr e ↦ rw e (omega arith)
]

some_digits-le :
    (unicode : Unicode) (before : ℕ) (bytes : Bytes) {n : ℕ}
    → some_digits unicode before bytes ≡ accepted n
    → (1 ≤ length bytes) × (n ≤ before + length bytes)
unfolding some_digits
some_digits-le unicode before bytes h =
    let digits = digits_width unicode bytes in
    let some = reject_if-then (digits == 0) LexError.invalid_numeric_literal _ h in
    let sum = accepted_injective some.1 in
    let bound = digits_width-le unicode bytes in
    (ground (arith, some.0, bound), omega (arith, sum, bound))

pub fraction_width-le :
    (unicode : Unicode) (bytes : Bytes) {n : ℕ}
    → fraction_width unicode bytes ≡ accepted n
    → n ≤ length bytes
unfolding fraction_width
fraction_width-le unicode bytes h = elim (Bool-cases (starts_with (spelled ".") bytes)) [
  | inl e ↦ omega (
    arith,
    starts_with-length (spelled ".") bytes e,
    some_digits-le unicode 1 (drop 1 bytes) (rw e at h),
    length-drop 1 bytes,
  )
  | inr e ↦ omega (arith, accepted_injective (rw e at h))
]

pub exponent_width-le :
    (unicode : Unicode) (bytes : Bytes) {n : ℕ}
    → exponent_width unicode bytes ≡ accepted n
    → n ≤ length bytes
unfolding exponent_width
exponent_width-le unicode bytes h =
    let sign : ℕ = if starts_with (spelled "+-") (drop 1 bytes) then 2 else 1 in
    elim (Bool-cases (starts_with (spelled "eE") bytes)) [
      | inl e ↦
          omega (
            arith,
            some_digits-le unicode sign (drop sign bytes) (rw e at h),
            length-drop sign bytes,
          )
      | inr e ↦ omega (arith, accepted_injective (rw e at h))
    ]
