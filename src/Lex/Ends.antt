-- ===== src/Lex/Ends.antt =====
-- The loop of `Tokenize` (cova/lex.go) comes to an end: every turn takes a byte.
use ccova.Prelude.{
  ℕ, zero, suc, ◌+◌, ◌≤◌, ◌≡◌, ◌≢◌, refl, arith, inl, inr, Bool, true, false, ◌&&◌, ◌||◌,
  Bool-cases, [], ◌∷◌, Option, none, some, ◌==◌, if◌then◌else◌, take, drop, length, length-drop,
}
use ccova.Prelude.Checked.{Checked, accepted, rejected, ◌>>=◌, reject_if}
use ccova.Segment.{Bytes}
use ccova.Lex.{
  LexError, Unicode, Decodes, spelled, begins, is_operator, is_delimiter, is_ident_start,
}
use ccova.Lex.Kinds.{TokenKind}
use ccova.Lex.Literals.{
  starts_with, string_body, quoted, string_literal, escaped, escape, with_char, some_digits,
  digits_width, fraction_width, exponent_width, suffixed, suffixed_value, behind_fraction,
  numeric_value, numeric_literal, or_error, parse_int, is_integer, trimmed,
}
use ccova.Lex.Scan.{Position, comment_turn, turn, behind, with_tokens, tokens_from, tokenize}
use ccova.Lex.Laws.{turn-IsTurn}

-- Whether a result is not for want of fuel.
abbrev ended {ℓ} : {A : Type ℓ} → Checked LexError A → Bool
ended (accepted a) = true
ended (rejected LexError.out_of_fuel) = false
ended (rejected _) = true

bind-ended {ℓ κ} :
    {A : Type ℓ} {B : Type κ} (m : Checked LexError A) (f : A → Checked LexError B)
    → ended m ≡ true
    → ((a : A) → m ≡ accepted a → ended (f a) ≡ true)
    → ended (m >>= f) ≡ true
bind-ended (accepted a) f h k = k a refl
bind-ended (rejected LexError.unterminated_comment) f h k = refl
bind-ended (rejected LexError.unterminated_string) f h k = refl
bind-ended (rejected LexError.unsupported_escape) f h k = refl
bind-ended (rejected LexError.unrecognized_symbol) f h k = refl
bind-ended (rejected LexError.invalid_numeric_literal) f h k = refl
bind-ended (rejected LexError.invalid_integer_literal) f h k = refl
bind-ended (rejected LexError.invalid_float_literal) f h k = refl
bind-ended (rejected LexError.out_of_fuel) f h k = cc

branch-ended {ℓ} :
    {A : Type ℓ} (b : Bool) (x y : Checked LexError A)
    → ended x ≡ true
    → ended y ≡ true
    → ended (if b then x else y) ≡ true
branch-ended true x y f g = f
branch-ended false x y f g = g

comment_turn-ended :
    (bytes : Bytes) (line column : ℕ) → ended (comment_turn bytes line column) ≡ true
unfolding comment_turn
comment_turn-ended [] line column = refl
comment_turn-ended (b ∷ []) line column = refl
comment_turn-ended (b ∷ c ∷ rest) line column = branch-ended (b == 42 && c == 47) _ _ refl (
    branch-ended (b == 13 && c == 10) _ _
      (bind-ended (comment_turn rest (suc line) 1) _ (comment_turn-ended rest (suc line) 1)
        (λ u _. refl))
      (branch-ended (b == 10 || b == 13) _ _
        (bind-ended (comment_turn (c ∷ rest) (suc line) 1) _
          (comment_turn-ended (c ∷ rest) (suc line) 1) (λ u _. refl))
        (bind-ended (comment_turn (c ∷ rest) line (suc column)) _
          (comment_turn-ended (c ∷ rest) line (suc column)) (λ u _. refl))))

escaped-ended :
    (char : Option ℕ) (m : Checked LexError (Bytes × ℕ))
    → ended m ≡ true
    → ended (escaped char m) ≡ true
escaped-ended none m h = refl
escaped-ended (some char) m h =
    bind-ended m (λ more. accepted (with_char char 2 more)) h (λ a _. refl)

string_body-ended : (bytes : Bytes) → ended (string_body bytes) ≡ true
unfolding string_body
string_body-ended [] = refl
string_body-ended (b ∷ []) = branch-ended (b == 34) _ _ refl refl
string_body-ended (b ∷ c ∷ rest) = branch-ended (b == 34) _ _ refl (
    branch-ended (b == 92) _ _
      (escaped-ended (escape c) (string_body rest) (string_body-ended rest))
      (branch-ended (b == 10 || b == 13) _ _ refl (
        bind-ended (string_body (c ∷ rest)) (λ more. accepted (with_char b 1 more))
          (string_body-ended (c ∷ rest)) (λ a _. refl))))

string_literal-ended : (bytes : Bytes) → ended (string_literal bytes) ≡ true
unfolding string_literal
string_literal-ended bytes =
    bind-ended (string_body (drop 1 bytes)) quoted (string_body-ended (drop 1 bytes)) (λ a _. refl)

module _ (unicode : Unicode) where
  some_digits-ended : (before : ℕ) (bytes : Bytes) → ended (some_digits unicode before bytes) ≡ true
  unfolding some_digits
  some_digits-ended before bytes =
      bind-ended (reject_if (digits_width unicode bytes == 0) LexError.invalid_numeric_literal) _
        (elim (Bool-cases (digits_width unicode bytes == 0)) [
          | inl e ↦ rw e refl
          | inr e ↦ rw e refl
        ])
        (λ a _. refl)

  fraction_width-ended : (bytes : Bytes) → ended (fraction_width unicode bytes) ≡ true
  unfolding fraction_width
  fraction_width-ended bytes =
      branch-ended (starts_with (spelled ".") bytes) _ _ (some_digits-ended 1 (drop 1 bytes)) refl

  exponent_width-ended : (bytes : Bytes) → ended (exponent_width unicode bytes) ≡ true
  unfolding exponent_width
  exponent_width-ended bytes =
      let sign : ℕ = if starts_with (spelled "+-") (drop 1 bytes) then 2 else 1 in
      branch-ended (starts_with (spelled "eE") bytes) _ _ (some_digits-ended sign (drop sign bytes))
        refl

  or_error-ended :
      (parsed : Option ℕ) (e : LexError)
      → ended {A = ℕ} (rejected e) ≡ true
      → ended (or_error parsed e) ≡ true
  or_error-ended none e h = h
  or_error-ended (some n) e h = refl

  numeric_value-ended :
      (kind : TokenKind) (value : Bytes) (width : ℕ)
      → ended (numeric_value unicode kind value width) ≡ true
  numeric_value-ended kind value width =
      branch-ended (is_integer kind) _ _
        (bind-ended (or_error (parse_int value) LexError.invalid_integer_literal) _
          (or_error-ended (parse_int value) LexError.invalid_integer_literal refl) (λ a _. refl))
        (bind-ended (or_error (unicode.parse_float (trimmed value)) LexError.invalid_float_literal)
          _
          (or_error-ended (unicode.parse_float (trimmed value)) LexError.invalid_float_literal refl)
          (λ a _. refl))

  numeric_literal-ended : (bytes : Bytes) → ended (numeric_literal unicode bytes) ≡ true
  unfolding numeric_literal
  numeric_literal-ended bytes =
      let whole = digits_width unicode bytes in
      bind-ended (fraction_width unicode (drop whole bytes)) (behind_fraction unicode bytes)
        (fraction_width-ended (drop whole bytes))
        (λ fraction _.
          bind-ended (exponent_width unicode (drop (whole + fraction) bytes))
            (λ exponent. suffixed_value unicode bytes (whole + fraction + exponent))
            (exponent_width-ended (drop (whole + fraction) bytes))
            (λ exponent _.
              let found = suffixed bytes (whole + fraction + exponent) in
              numeric_value-ended found.0 (take found.1 bytes) found.1))

  turn-ended :
      (at : Position) (bytes : Bytes) (char width : ℕ)
      → ended (turn unicode at bytes char width) ≡ true
  unfolding turn
  turn-ended at bytes char width = branch-ended (char == 10 || char == 13) _ _ refl (
      branch-ended (unicode.is_space char) _ _ refl (
        branch-ended (char == 47 && begins "//" bytes) _ _ refl (
          branch-ended (char == 47 && begins "/*" bytes) _ _
            (bind-ended (comment_turn (drop 2 bytes) at.line (at.column + 2)) _
              (comment_turn-ended (drop 2 bytes) at.line (at.column + 2)) (λ u _. refl))
            (branch-ended (is_ident_start unicode char) _ _ refl (
              branch-ended (unicode.is_digit char) _ _
                (bind-ended (numeric_literal unicode bytes) _ (numeric_literal-ended bytes)
                  (λ l _. refl))
                (branch-ended (char == 34) _ _
                  (bind-ended (string_literal bytes) _ (string_literal-ended bytes) (λ l _. refl))
                  (branch-ended (is_operator char) _ _ refl
                    (branch-ended (is_delimiter char) _ _ refl refl))))))))

  tokens_from-ended :
      (fuel : ℕ) (at : Position) (bytes : Bytes)
      → Decodes unicode
      → length bytes ≤ fuel
      → ended (tokens_from unicode fuel at bytes) ≡ true
  unfolding tokens_from
  tokens_from-ended fuel at [] d enough = refl
  tokens_from-ended zero at (b ∷ bs) d enough = absurd (omega (arith, enough))
  tokens_from-ended (suc fuel) at (b ∷ bs) d enough =
      let rune = unicode.decode_rune (b ∷ bs) in
      bind-ended (turn unicode at (b ∷ bs) rune.0 rune.1)
        (λ t.
          tokens_from unicode fuel (behind unicode at t) (drop t.width (b ∷ bs))
          >>= with_tokens unicode t.tokens)
        (turn-ended at (b ∷ bs) rune.0 rune.1)
        (λ t turned.
          let (adds, wide) =
            turn-IsTurn unicode at b bs rune.0 rune.1 d (d.positive b bs, d.bounded b bs) turned in
          bind-ended (tokens_from unicode fuel (behind unicode at t) (drop t.width (b ∷ bs)))
            (with_tokens unicode t.tokens)
            (tokens_from-ended fuel (behind unicode at t) (drop t.width (b ∷ bs)) d
              (omega (arith, enough, wide, length-drop t.width (b ∷ bs))))
            (λ more _. refl))

ended-ne_out_of_fuel {ℓ} :
    {A : Type ℓ} (m : Checked LexError A) → ended m ≡ true → m ≢ rejected LexError.out_of_fuel
ended-ne_out_of_fuel m h e = cc (h, e)

-- Under the same condition on the decoding of a rune, `Tokenize` comes to an end within as
-- many turns as the source has bytes: it returns its tokens or one of its errors.
pub tokenize-ne_out_of_fuel :
    (unicode : Unicode) (src : Bytes)
    → Decodes unicode
    → tokenize unicode src ≢ rejected LexError.out_of_fuel
unfolding tokenize
tokenize-ne_out_of_fuel unicode src d = ended-ne_out_of_fuel (tokenize unicode src) (
    tokens_from-ended unicode (length src) (record { index = 0; line = 1; column = 1 }) src d
      (omega arith))
