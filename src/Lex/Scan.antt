-- ===== src/Lex/Scan.antt =====
-- cova/lex.go: one turn of the loop of `Tokenize` for each case of its switch, and the loop.
use ccova.Prelude.{
  ℕ, zero, suc, ◌+◌, ◌&&◌, ◌||◌, List, [], ◌∷◌, ◌++◌, ◌==◌, if◌then◌else◌, take, drop, length,
}
use ccova.Prelude.Checked.{Checked, accepted, rejected, ◌>>=◌}
use ccova.Segment.{Bytes}
use ccova.Lex.{
  Token, LexError, Unicode, spelled_kind, begins, is_operator, is_delimiter, operator_width,
  delimiter_width, is_ident_start, is_ident_part,
}
use ccova.Lex.Kinds.{TokenKind, keywords, operator_kinds, delimiter_kinds}
use ccova.Lex.Literals.{Literal, numeric_literal, string_literal, starts_with}

-- Where the lexer stands.
pub record Position : Type 0 where
  pub index : ℕ
  pub line : ℕ
  pub column : ℕ

-- One turn: the tokens it adds, the bytes it takes, and the line and column behind them.
pub record Turn : Type 0 where
  pub tokens : List Token
  pub width : ℕ
  pub line : ℕ
  pub column : ℕ

abbrev pub token : TokenKind → Position → ℕ → Token
token kind at width = record {
  kind = kind;
  text = [];
  int_value = 0;
  float_value = 0;
  line = at.line;
  column = at.column;
  offset = at.index;
  length = width;
}

-- A turn within a line, over some bytes that count as some columns.
abbrev pub advance : Position → List Token → ℕ → ℕ → Turn
advance at tokens width columns = record {
  tokens = tokens;
  width = width;
  line = at.line;
  column = at.column + columns;
}

-- `\n`, `\r` or `\r\n`
abbrev pub newline_width : ℕ → ℕ → Bytes → ℕ
newline_width char width bytes =
    if char == 13 && starts_with (10 ∷ []) (drop width bytes) then suc width else width

abbrev pub newline_turn : Position → ℕ → Turn
newline_turn at width = record {
  tokens = token TokenKind.newline at width ∷ [];
  width = width;
  line = suc at.line;
  column = 1;
}

-- The bytes up to the end of the line.
unfoldable pub line_width : Bytes → ℕ
line_width [] = 0
line_width (b ∷ bs) = let rest = line_width bs in if b == 10 || b == 13 then 0 else suc rest

-- The loop over a block comment behind its opening; a `\r\n` is one line.
abbrev pub longer : ℕ → Checked LexError Turn → Checked LexError Turn
longer n rest = do turn ← rest; accepted (record turn { width = n + turn.width })

unfoldable pub comment_turn : Bytes → ℕ → ℕ → Checked LexError Turn
comment_turn [] line column = rejected LexError.unterminated_comment
comment_turn (b ∷ []) line column = rejected LexError.unterminated_comment
comment_turn (b ∷ c ∷ rest) line column =
    let behind_pair = comment_turn rest (suc line) 1 in
    let behind_line = comment_turn (c ∷ rest) (suc line) 1 in
    let behind = comment_turn (c ∷ rest) line (suc column) in
    if b == 42 && c == 47
    then accepted (record { tokens = []; width = 2; line = line; column = column + 2 })
    else if b == 13 && c == 10
    then longer 2 behind_pair
    else if b == 10 || b == 13
    then longer 1 behind_line
    else longer 1 behind

module _ (unicode : Unicode) where
  -- The bytes and the runes of the parts of an identifier, with fuel for the bytes that are left.
  unfoldable pub ident_width : ℕ → Bytes → ℕ × ℕ
  ident_width zero bytes = (0, 0)
  ident_width (suc fuel) [] = (0, 0)
  ident_width (suc fuel) (b ∷ bs) =
      let part = unicode.decode_rune (b ∷ bs) in
      let rest = ident_width fuel (drop part.1 (b ∷ bs)) in
      if is_ident_part unicode part.0 then (part.1 + rest.0, suc rest.1) else (0, 0)

  abbrev pub ident_turn : Position → Bytes → ℕ → ℕ × ℕ → Turn
  ident_turn at bytes first more =
      advance at
        (record (token (spelled_kind keywords (take (first + more.0) bytes) TokenKind.ident) at
            (first + more.0)) { text = take (first + more.0) bytes }
          ∷ [])
        (first + more.0) (suc more.1)

  abbrev pub literal_turn : Position → Literal → Turn
  literal_turn at literal =
      advance at
        (record (token literal.kind at literal.width) {
          text = literal.text;
          int_value = literal.int_value;
          float_value = literal.float_value;
        }
          ∷ [])
        literal.width literal.width

  -- The switch of the loop, on the first rune of the bytes that are left.
  unfoldable pub turn : Position → Bytes → ℕ → ℕ → Checked LexError Turn
  unfolding ident_width comment_turn line_width numeric_literal string_literal is_operator
      is_delimiter operator_width delimiter_width
  turn at bytes char width =
      if char == 10 || char == 13
      then accepted (newline_turn at (newline_width char width bytes))
      else if unicode.is_space char
      then accepted (advance at [] width 1)
      else if char == 47 && begins "//" bytes
      then accepted (advance at [] (2 + line_width (drop 2 bytes)) (2 + line_width (drop 2 bytes)))
      else if char == 47 && begins "/*" bytes
      then longer 2 (comment_turn (drop 2 bytes) at.line (at.column + 2))
      else if is_ident_start unicode char
      then accepted
          (ident_turn at bytes width (ident_width (length (drop width bytes)) (drop width bytes)))
      else if unicode.is_digit char
      then (numeric_literal unicode bytes >>= λ literal. accepted (literal_turn at literal))
      else if char == 34
      then (string_literal bytes >>= λ literal. accepted (literal_turn at literal))
      else if is_operator char
      then accepted (
          advance at
            (token (spelled_kind operator_kinds (take (operator_width bytes) bytes) TokenKind.eof)
                at (operator_width bytes)
              ∷ [])
            (operator_width bytes) (operator_width bytes))
      else if is_delimiter char
      then accepted (
          advance at
            (token (spelled_kind delimiter_kinds (take (delimiter_width bytes) bytes) TokenKind.eof)
                at (delimiter_width bytes)
              ∷ [])
            (delimiter_width bytes) (delimiter_width bytes))
      else rejected LexError.unrecognized_symbol

  abbrev pub behind : Position → Turn → Position
  behind at t = record { index = at.index + t.width; line = t.line; column = t.column }

  abbrev pub with_tokens : List Token → List Token → Checked LexError (List Token)
  with_tokens tokens more = accepted (tokens ++ more)

  -- The loop of `Tokenize`, for at most `fuel` turns.
  unfoldable pub tokens_from : ℕ → Position → Bytes → Checked LexError (List Token)
  unfolding turn
  tokens_from fuel at [] = accepted (token TokenKind.eof at 0 ∷ [])
  tokens_from zero at (b ∷ bs) = rejected LexError.out_of_fuel
  tokens_from (suc fuel) at (b ∷ bs) = do
    t ← turn at (b ∷ bs) (unicode.decode_rune (b ∷ bs)).0 (unicode.decode_rune (b ∷ bs)).1
    more ← tokens_from fuel (behind at t) (drop t.width (b ∷ bs))
    with_tokens t.tokens more

  -- `Tokenize`: every turn takes a byte, so the length of the text is enough fuel.
  unfoldable pub tokenize : Bytes → Checked LexError (List Token)
  unfolding tokens_from
  tokenize src = tokens_from (length src) (record { index = 0; line = 1; column = 1 }) src
