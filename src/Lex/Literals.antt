-- ===== src/Lex/Literals.antt =====
-- cova/lex.go: `tokenizeNumericLiteral` and `tokenizeStringLiteral`, on the bytes from the literal on.
use ccova.Prelude.{
  ℕ, suc, ◌+◌, ◌-◌, ◌*◌, ◌/◌, ◌%◌, ◌^◌, Bool, true, false, ◌&&◌, ◌||◌, [], ◌∷◌, ◌++◌, Option, none,
  some, ltb, leb, ◌==◌, if◌then◌else◌, take, drop,
}
use ccova.Prelude.Checked.{Checked, accepted, rejected, ◌>>=◌, ◌>>◌, reject_if}
use ccova.Segment.{Bytes}
use ccova.Lex.{LexError, Unicode, spelled, is_one_of}
use ccova.Lex.Kinds.{TokenKind}

-- What a literal is, and the bytes it takes.
pub record Literal : Type 0 where
  pub kind : TokenKind
  pub text : Bytes
  pub int_value : ℕ
  pub float_value : ℕ
  pub width : ℕ

-- `strconv.ParseInt(value, 10, 64)` of a text without a sign.
abbrev pub parse_digits : ℕ → Bytes → Option ℕ
parse_digits n [] = some n
parse_digits n (b ∷ bs) =
    let rest = parse_digits (n * 10 + (b - 48)) bs in if leb 48 b && leb b 57 then rest else none

abbrev pub in_int64 : Option ℕ → Option ℕ
in_int64 none = none
in_int64 (some n) = if ltb n (2 ^ 63) then some n else none

unfoldable pub parse_int : Bytes → Option ℕ
parse_int [] = none
parse_int (b ∷ bs) = in_int64 (parse_digits 0 (b ∷ bs))

abbrev pub or_error : Option ℕ → LexError → Checked LexError ℕ
or_error none e = rejected e
or_error (some n) e = accepted n

-- `index < len(src) && src[index]` is one of some characters
abbrev pub starts_with : Bytes → Bytes → Bool
starts_with chars [] = false
starts_with chars (b ∷ bs) = is_one_of chars b

-- `strings.TrimSuffix` of one character
abbrev pub trim_suffix : ℕ → Bytes → Bytes
trim_suffix char [] = []
trim_suffix char (b ∷ []) = if b == char then [] else b ∷ []
trim_suffix char (b ∷ c ∷ bs) = b ∷ trim_suffix char (c ∷ bs)

abbrev pub contains_any : Bytes → Bytes → Bool
contains_any chars [] = false
contains_any chars (b ∷ bs) = let rest = contains_any chars bs in is_one_of chars b || rest

-- `string(rune)` of a byte, in UTF-8.
abbrev pub rune_bytes : ℕ → Bytes
rune_bytes b = if ltb b 128 then b ∷ [] else (192 + b / 64) ∷ (128 + b % 64) ∷ []

-- The escapes.
abbrev pub escape : ℕ → Option ℕ
escape char =
    if char == 34
    then some 34
    else if char == 92
    then some 92
    else if char == 110
    then some 10
    else if char == 114
    then some 13
    else if char == 116
    then some 9
    else if char == 48
    then some 0
    else none

abbrev pub with_char : ℕ → ℕ → Bytes × ℕ → Bytes × ℕ
with_char char width rest = (rune_bytes char ++ rest.0, width + rest.1)

abbrev pub escaped : Option ℕ → Checked LexError (Bytes × ℕ) → Checked LexError (Bytes × ℕ)
escaped none rest = rejected LexError.unsupported_escape
escaped (some char) rest = do more ← rest; accepted (with_char char 2 more)

-- The loop of `tokenizeStringLiteral` behind the opening quote: the text, and the bytes up to and
-- with the closing quote.
unfoldable pub string_body : Bytes → Checked LexError (Bytes × ℕ)
string_body [] = rejected LexError.unterminated_string
string_body (b ∷ []) = if b == 34 then accepted ([], 1) else rejected LexError.unterminated_string
string_body (b ∷ c ∷ rest) =
    let behind_escape = string_body rest in
    let behind = string_body (c ∷ rest) in
    if b == 34
    then accepted ([], 1)
    else if b == 92
    then escaped (escape c) behind_escape
    else if b == 10 || b == 13
    then rejected LexError.unterminated_string
    else (behind >>= λ more. accepted (with_char b 1 more))

abbrev pub quoted : Bytes × ℕ → Checked LexError Literal
quoted body = accepted (record {
  kind = TokenKind.string_literal;
  text = body.0;
  int_value = 0;
  float_value = 0;
  width = suc body.1;
})

unfoldable pub string_literal : Bytes → Checked LexError Literal
unfolding string_body
string_literal bytes = do body ← string_body (drop 1 bytes); quoted body

-- The kind and the width with the suffix.
abbrev pub suffixed : Bytes → ℕ → TokenKind × ℕ
suffixed bytes width =
    let kind =
      if contains_any (spelled ".eE") (take width bytes)
      then TokenKind.float32_literal
      else TokenKind.integer in
    if starts_with (spelled "fF") (drop width bytes)
    then (TokenKind.float32_literal, suc width)
    else if starts_with (spelled "dD") (drop width bytes)
    then (TokenKind.float64_literal, suc width)
    else (kind, width)

abbrev pub trimmed : Bytes → Bytes
trimmed value = trim_suffix 68 (trim_suffix 100 (trim_suffix 70 (trim_suffix 102 value)))

abbrev pub is_integer : TokenKind → Bool
is_integer TokenKind.integer = true
is_integer _ = false

abbrev pub integer_literal : Bytes → ℕ → Checked LexError Literal
integer_literal value width = do
  parsed ← or_error (parse_int value) LexError.invalid_integer_literal
  accepted (record {
    kind = TokenKind.integer;
    text = [];
    int_value = parsed;
    float_value = 0;
    width = width;
  })

module _ (unicode : Unicode) where
  -- A run of digits.
  unfoldable pub digits_width : Bytes → ℕ
  digits_width [] = 0
  digits_width (b ∷ bs) = let rest = digits_width bs in if unicode.is_digit b then suc rest else 0

  -- At least one digit, behind `before` bytes.
  unfoldable pub some_digits : ℕ → Bytes → Checked LexError ℕ
  unfolding digits_width
  some_digits before bytes = do
    reject_if (digits_width bytes == 0) LexError.invalid_numeric_literal
    accepted (before + digits_width bytes)

  unfoldable pub fraction_width : Bytes → Checked LexError ℕ
  unfolding some_digits
  fraction_width bytes =
      if starts_with (spelled ".") bytes then some_digits 1 (drop 1 bytes) else accepted 0

  unfoldable pub exponent_width : Bytes → Checked LexError ℕ
  unfolding some_digits
  exponent_width bytes =
      let sign : ℕ = if starts_with (spelled "+-") (drop 1 bytes) then 2 else 1 in
      if starts_with (spelled "eE") bytes then some_digits sign (drop sign bytes) else accepted 0

  abbrev pub float_literal : TokenKind → Bytes → ℕ → Checked LexError Literal
  float_literal kind value width = do
    parsed ← or_error (unicode.parse_float (trimmed value)) LexError.invalid_float_literal
    accepted (record { kind = kind; text = []; int_value = 0; float_value = parsed; width = width })

  abbrev pub numeric_value : TokenKind → Bytes → ℕ → Checked LexError Literal
  numeric_value kind value width =
      if is_integer kind then integer_literal value width else float_literal kind value width

  -- `tokenizeNumericLiteral`, from the suffix on, from the exponent on, and as a whole.
  abbrev pub suffixed_value : Bytes → ℕ → Checked LexError Literal
  suffixed_value bytes width =
      let found = suffixed bytes width in numeric_value found.0 (take found.1 bytes) found.1

  abbrev pub behind_fraction : Bytes → ℕ → Checked LexError Literal
  behind_fraction bytes fraction = do
    exponent ← exponent_width (drop (digits_width bytes + fraction) bytes)
    suffixed_value bytes (digits_width bytes + fraction + exponent)

  unfoldable pub numeric_literal : Bytes → Checked LexError Literal
  unfolding fraction_width exponent_width
  numeric_literal bytes = do
    fraction ← fraction_width (drop (digits_width bytes) bytes)
    behind_fraction bytes fraction
