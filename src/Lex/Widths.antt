-- ===== src/Lex/Widths.antt =====
-- The widths of comments and literals (cova/lex.go): at least one byte, and no more than are left.
use ccova.Prelude.{
  ℕ, zero, suc, ◌+◌, ◌≤◌, ◌≡◌, refl, sym, ap, subst, arith, ◌⊎◌, inl, inr, false, ◌&&◌, ◌||◌,
  Bool-cases, [], ◌∷◌, Option, none, some, ◌==◌, take, drop, length, length-drop,
}
use ccova.Prelude.Checked.{
  Checked, accepted, ◌>>=◌, bind-eq-accepted, accepted_injective, rejected-ne_accepted,
}
use ccova.Segment.{Bytes}
use ccova.Lex.{LexError, Unicode, spelled}
use ccova.Lex.Kinds.{TokenKind}
use ccova.Lex.Literals.{
  Literal, starts_with, string_body, quoted, string_literal, escaped, escape, with_char,
  digits_width, fraction_width, exponent_width, suffixed, suffixed_value, behind_fraction,
  numeric_value, numeric_literal, or_error, parse_int, is_integer, trimmed, contains_any,
}
use ccova.Lex.Scan.{Turn, comment_turn, longer}
use ccova.Lex.Progress.{
  IsWidth, starts_with-length, digits_width-le, fraction_width-le, exponent_width-le,
}

-- A turn that adds no token and takes some of the bytes.
abbrev pub IsSilent : Bytes → Turn → Type 0
IsSilent bytes t = (t.tokens ≡ []) × IsWidth t.width bytes

pub longer-IsSilent :
    (n : ℕ) (m : Checked LexError Turn) (few many : Bytes) {t : Turn}
    → n + length few ≤ length many
    → ((u : Turn) → m ≡ accepted u → IsSilent few u)
    → longer n m ≡ accepted t
    → IsSilent many t
longer-IsSilent n m few many room rec h =
    let (u, ended, same) =
      bind-eq-accepted m (λ u. accepted (record u { width = n + u.width })) h in
    let quiet = rec u ended in
    subst (IsSilent many) (accepted_injective same)
      (quiet.0, (omega (arith, quiet.1), omega (arith, quiet.1)))

pub comment_turn-IsSilent :
    (bytes : Bytes) (line column : ℕ) (t : Turn)
    → comment_turn bytes line column ≡ accepted t
    → IsSilent bytes t
unfolding comment_turn
comment_turn-IsSilent [] line column t h = absurd (rejected-ne_accepted h)
comment_turn-IsSilent (b ∷ []) line column t h = absurd (rejected-ne_accepted h)
comment_turn-IsSilent (b ∷ c ∷ rest) line column t h = elim (Bool-cases (b == 42 && c == 47)) [
  | inl e ↦
      subst (IsSilent (b ∷ c ∷ rest)) (accepted_injective (rw e at h))
        (refl, (omega arith, omega arith))
  | inr e ↦ elim (Bool-cases (b == 13 && c == 10)) [
    | inl f ↦
        longer-IsSilent 2 (comment_turn rest (suc line) 1) rest (b ∷ c ∷ rest) (omega arith)
          (comment_turn-IsSilent rest (suc line) 1) (rw (e, f) at h)
    | inr f ↦ elim (Bool-cases (b == 10 || b == 13)) [
      | inl g ↦
          longer-IsSilent 1 (comment_turn (c ∷ rest) (suc line) 1) (c ∷ rest) (b ∷ c ∷ rest)
            (omega arith) (comment_turn-IsSilent (c ∷ rest) (suc line) 1) (rw (e, f, g) at h)
      | inr g ↦
          longer-IsSilent 1 (comment_turn (c ∷ rest) line (suc column)) (c ∷ rest) (b ∷ c ∷ rest)
            (omega arith) (comment_turn-IsSilent (c ∷ rest) line (suc column)) (rw (e, f, g) at h)
    ]
  ]
]

with_char-IsWidth :
    (char n : ℕ) (m : Checked LexError (Bytes × ℕ)) (few many : Bytes) {body : Bytes × ℕ}
    → 1 ≤ n
    → n + length few ≤ length many
    → ((found : Bytes × ℕ) → m ≡ accepted found → IsWidth found.1 few)
    → (m >>= λ more. accepted (with_char char n more)) ≡ accepted body
    → IsWidth body.1 many
with_char-IsWidth char n m few many positive room rec h =
    let (found, ended, same) = bind-eq-accepted m (λ more. accepted (with_char char n more)) h in
    let width = rec found ended in
    subst (λ (b : Bytes × ℕ). IsWidth b.1 many) (accepted_injective same)
      (omega (arith, width), omega (arith, width))

escaped-IsWidth :
    (char : Option ℕ) (m : Checked LexError (Bytes × ℕ)) (few many : Bytes) {body : Bytes × ℕ}
    → 2 + length few ≤ length many
    → ((found : Bytes × ℕ) → m ≡ accepted found → IsWidth found.1 few)
    → escaped char m ≡ accepted body
    → IsWidth body.1 many
escaped-IsWidth none m few many room rec h = absurd (rejected-ne_accepted h)
escaped-IsWidth (some char) m few many room rec h =
    with_char-IsWidth char 2 m few many (omega arith) room rec h

string_body-IsWidth :
    (bytes : Bytes) (body : Bytes × ℕ) → string_body bytes ≡ accepted body → IsWidth body.1 bytes
unfolding string_body
string_body-IsWidth [] body h = absurd (rejected-ne_accepted h)
string_body-IsWidth (b ∷ []) body h = elim (Bool-cases (b == 34)) [
  | inl e ↦
      subst (λ (b' : Bytes × ℕ). IsWidth b'.1 (b ∷ [])) (accepted_injective (rw e at h))
        (omega arith, omega arith)
  | inr e ↦ absurd (rejected-ne_accepted (rw e at h))
]
string_body-IsWidth (b ∷ c ∷ rest) body h = elim (Bool-cases (b == 34)) [
  | inl e ↦
      subst (λ (b' : Bytes × ℕ). IsWidth b'.1 (b ∷ c ∷ rest)) (accepted_injective (rw e at h))
        (omega arith, omega arith)
  | inr e ↦ elim (Bool-cases (b == 92)) [
    | inl f ↦
        escaped-IsWidth (escape c) (string_body rest) rest (b ∷ c ∷ rest) (omega arith)
          (string_body-IsWidth rest) (rw (e, f) at h)
    | inr f ↦ elim (Bool-cases (b == 10 || b == 13)) [
      | inl g ↦ absurd (rejected-ne_accepted (rw (e, f, g) at h))
      | inr g ↦
          with_char-IsWidth b 1 (string_body (c ∷ rest)) (c ∷ rest) (b ∷ c ∷ rest) (omega arith)
            (omega arith) (string_body-IsWidth (c ∷ rest)) (rw (e, f, g) at h)
    ]
  ]
]

pub string_literal-IsWidth :
    (bytes : Bytes) (literal : Literal)
    → string_literal bytes ≡ accepted literal
    → IsWidth literal.width bytes
unfolding string_literal
string_literal-IsWidth bytes literal h =
    let (body, found, same) = bind-eq-accepted (string_body (drop 1 bytes)) quoted h in
    let width = string_body-IsWidth (drop 1 bytes) body found in
    subst (λ (l : Literal). IsWidth l.width bytes) (accepted_injective same)
      (omega arith, omega (arith, width, length-drop 1 bytes))

numeric_value-width :
    (unicode : Unicode) (kind : TokenKind) (value : Bytes) (width : ℕ) {literal : Literal}
    → numeric_value unicode kind value width ≡ accepted literal
    → literal.width ≡ width
numeric_value-width unicode kind value width h = elim (Bool-cases (is_integer kind)) [
  | inl e ↦
      let (n, parsed, same) =
        bind-eq-accepted (or_error (parse_int value) LexError.invalid_integer_literal) _
          (rw e at h) in
      sym (ap (λ (l : Literal). l.width) (accepted_injective same))
  | inr e ↦
      let (n, parsed, same) =
        bind-eq-accepted
          (or_error (unicode.parse_float (trimmed value)) LexError.invalid_float_literal) _
          (rw e at h) in
      sym (ap (λ (l : Literal). l.width) (accepted_injective same))
]

-- Without digits there is no number to parse.
numeric_value-ne_empty :
    (unicode : Unicode) {literal : Literal}
    → numeric_value unicode TokenKind.integer [] 0 ≡ accepted literal
    → ⊥
unfolding parse_int
numeric_value-ne_empty unicode h = absurd (rejected-ne_accepted h)

suffixed-cases :
    (bytes : Bytes) (width : ℕ)
    → width ≤ length bytes
    → (((suffixed bytes width).1 ≡ width)
        × (contains_any (spelled ".eE") (take width bytes) ≡ false
            → (suffixed bytes width).0 ≡ TokenKind.integer))
      ⊎ IsWidth (suffixed bytes width).1 bytes
suffixed-cases bytes width bound =
    elim (Bool-cases (starts_with (spelled "fF") (drop width bytes))) [
      | inl e ↦ rw e (
          inr (
            omega arith,
            omega (
              arith,
              starts_with-length (spelled "fF") (drop width bytes) e,
              length-drop width bytes,
            ),
          ))
      | inr e ↦ elim (Bool-cases (starts_with (spelled "dD") (drop width bytes))) [
        | inl f ↦
            rw (e, f)
              (inr (
                omega arith,
                omega (
                  arith,
                  starts_with-length (spelled "dD") (drop width bytes) f,
                  length-drop width bytes,
                ),
              ))
        | inr f ↦ rw (e, f) (inl (refl, λ none. rw none refl))
      ]
    ]

suffixed_value-IsWidth :
    (unicode : Unicode) (bytes : Bytes) (n : ℕ) (literal : Literal)
    → n ≤ length bytes
    → suffixed_value unicode bytes n ≡ accepted literal
    → IsWidth literal.width bytes
suffixed_value-IsWidth unicode bytes zero literal bound h =
    let taken = suffixed bytes 0 in
    let same = numeric_value-width unicode taken.0 (take taken.1 bytes) taken.1 h in
    elim (suffixed-cases bytes 0 bound) [
      | inr width ↦ (omega (arith, same, width), omega (arith, same, width))
      | inl plain ↦
          absurd
            (numeric_value-ne_empty unicode {literal = literal} (rw (plain.0, plain.1 refl) at h))
    ]
suffixed_value-IsWidth unicode bytes (suc m) literal bound h =
    let taken = suffixed bytes (suc m) in
    let same = numeric_value-width unicode taken.0 (take taken.1 bytes) taken.1 h in
    elim (suffixed-cases bytes (suc m) bound) [
      | inr width ↦ (omega (arith, same, width), omega (arith, same, width))
      | inl plain ↦ (omega (arith, same, plain.0), omega (arith, same, plain.0))
    ]

pub numeric_literal-IsWidth :
    (unicode : Unicode) (bytes : Bytes) (literal : Literal)
    → numeric_literal unicode bytes ≡ accepted literal
    → IsWidth literal.width bytes
unfolding numeric_literal
numeric_literal-IsWidth unicode bytes literal h =
    let whole = digits_width unicode bytes in
    let (fraction, point, more) =
      bind-eq-accepted (fraction_width unicode (drop whole bytes)) (behind_fraction unicode bytes)
        h in
    let (exponent, power, rest) =
      bind-eq-accepted (exponent_width unicode (drop (whole + fraction) bytes))
        (λ exponent. suffixed_value unicode bytes (whole + fraction + exponent)) more in
    let n = whole + fraction + exponent in
    let bound : n ≤ length bytes = omega (
      arith,
      digits_width-le unicode bytes,
      fraction_width-le unicode (drop whole bytes) point,
      exponent_width-le unicode (drop (whole + fraction) bytes) power,
      length-drop whole bytes,
      length-drop (whole + fraction) bytes,
    ) in
    suffixed_value-IsWidth unicode bytes n literal bound rest
