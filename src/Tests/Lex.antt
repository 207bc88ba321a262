-- ===== src/Tests/Lex.antt =====
-- A line of a script and its tokens.
use ccova.Prelude.{
  ℕ, suc, ◌≡◌, ◌≢◌, refl, arith, ◌&&◌, ◌||◌, List, [], ◌∷◌, none, leb, ◌==◌, length,
}
use ccova.Prelude.Checked.{accepted, rejected}
use ccova.Segment.{Bytes}
use ccova.Lex.{Token, LexError, Unicode, Decodes, spelled, spelled_kind}
use ccova.Lex.Kinds.{TokenKind}
use ccova.Lex.Literals.{parse_int}
use ccova.Lex.Scan.{tokenize}
use ccova.Lex.Order.{IsOrdered, tokenize-IsOrdered}
use ccova.Lex.Ends.{tokenize-ne_out_of_fuel}

abbrev first_byte : Bytes → ℕ × ℕ
first_byte [] = (0, 0)
first_byte (b ∷ bs) = (b, 1)

-- Text in ASCII, without floating point.
abbrev ascii : Unicode
ascii = record {
  is_space = λ c. c == 32 || c == 9;
  is_letter = λ c. leb 97 c && leb c 122 || leb 65 c && leb c 90;
  is_digit = λ c. leb 48 c && leb c 57;
  decode_rune = first_byte;
  parse_float = λ _. none;
}

ascii-Decodes : Decodes ascii
ascii-Decodes = record { positive = λ b bytes. omega arith; bounded = λ b bytes. omega arith }

abbrev source : Bytes
source = spelled "if x1 /*c*/ <<= 12"

abbrev plain : TokenKind → ℕ → ℕ → Token
plain kind offset size = record {
  kind = kind;
  text = [];
  int_value = 0;
  float_value = 0;
  line = 1;
  column = suc offset;
  offset = offset;
  length = size;
}

abbrev source_tokens : List Token
source_tokens =
    record (plain TokenKind.if_token 0 2) { text = spelled "if" }
    ∷ record (plain TokenKind.ident 3 2) { text = spelled "x1" }
    ∷ plain TokenKind.shift_left_assign_token 12 3
    ∷ record (plain TokenKind.integer 16 2) { int_value = 12 }
    ∷ plain TokenKind.eof 18 0
    ∷ []

source_tokenized : tokenize ascii source ≡ accepted source_tokens
unfolding tokenize parse_int spelled_kind
source_tokenized = refl

unclosed : tokenize ascii (spelled "a /* b") ≡ rejected LexError.unterminated_comment
unfolding tokenize
unclosed = refl

tokenize-IsOrdered_example : IsOrdered 0 (length source) source_tokens
tokenize-IsOrdered_example =
    tokenize-IsOrdered ascii source source_tokens ascii-Decodes source_tokenized

tokenize-ne_out_of_fuel_example : tokenize ascii source ≢ rejected LexError.out_of_fuel
tokenize-ne_out_of_fuel_example = tokenize-ne_out_of_fuel ascii source ascii-Decodes
