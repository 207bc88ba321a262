-- ===== src/Lex.antt =====
-- cova/lex.go: the lexer, from the bytes of a source text to its tokens. The position in the text is
-- an index and the bytes from there on. The name of a rejection stands for the message that is added
-- to the context.
pub mod Kinds
pub mod Literals
pub mod Scan
pub mod Progress
pub mod Widths
pub mod Laws
pub mod Order
pub mod Ends
use Prim.Native.Char.{code}
use Prim.Native.String.{String}
use ccova.Prelude.{
  ℕ, zero, suc, ◌+◌, ◌-◌, Bool, true, false, ◌&&◌, ◌||◌, List, [], ◌∷◌, Option, none, some, leb,
  ◌==◌, if◌then◌else◌, take, length, ◌≤◌,
}
use ccova.Segment.{Bytes}
use ccova.Lex.Kinds.{TokenKind}

pub record Token : Type 0 where
  pub kind : TokenKind
  pub text : Bytes
  pub int_value : ℕ
  pub float_value : ℕ
  pub line : ℕ
  pub column : ℕ
  pub offset : ℕ
  pub length : ℕ

pub data LexError : Type 0 where
  unterminated_comment unterminated_string unsupported_escape unrecognized_symbol : LexError
  invalid_numeric_literal invalid_integer_literal invalid_float_literal out_of_fuel : LexError

-- What the lexer takes from packages unicode, unicode/utf8 and strconv: the classes of runes, the
-- first rune of bytes that are not empty with its width, and the pattern of the float64 that a text
-- denotes.
pub record Unicode : Type 0 where
  pub is_space : ℕ → Bool
  pub is_letter : ℕ → Bool
  pub is_digit : ℕ → Bool
  pub decode_rune : Bytes → ℕ × ℕ
  pub parse_float : Bytes → Option ℕ

-- A rune that is decoded from bytes has at least one of them and at most all.
pub record Decodes (unicode : Unicode) : Type 0 where
  pub positive : (b : ℕ) (bytes : Bytes) → 1 ≤ (unicode.decode_rune (b ∷ bytes)).1
  pub bounded : (b : ℕ) (bytes : Bytes) → (unicode.decode_rune (b ∷ bytes)).1 ≤ length (b ∷ bytes)

-- The bytes of a text in ASCII.
abbrev pub spelled : String → Bytes
spelled String.[] = []
spelled (String.◌∷◌ c text) = code c ∷ spelled text

abbrev pub same_bytes : Bytes → Bytes → Bool
same_bytes [] [] = true
same_bytes [] (c ∷ cs) = false
same_bytes (b ∷ bs) [] = false
same_bytes (b ∷ bs) (c ∷ cs) = let rest = same_bytes bs cs in b == c && rest

-- The kind of a spelling in a table, or a kind of its own.
unfoldable pub spelled_kind : List (String × TokenKind) → Bytes → TokenKind → TokenKind
spelled_kind [] text other = other
spelled_kind (entry ∷ entries) text other =
    let rest = spelled_kind entries text other in
    if same_bytes (spelled entry.0) text then entry.1 else rest

-- Whether the bytes begin with a text.
abbrev pub begins : String → Bytes → Bool
begins text bytes = let wanted = spelled text in same_bytes wanted (take (length wanted) bytes)

abbrev pub begins_any : List String → Bytes → Bool
begins_any [] bytes = false
begins_any (text ∷ texts) bytes = let rest = begins_any texts bytes in begins text bytes || rest

abbrev pub is_one_of : Bytes → ℕ → Bool
is_one_of [] char = false
is_one_of (b ∷ bs) char = let rest = is_one_of bs char in b == char || rest

-- `isOperator` and `isDelimiter`
unfoldable pub is_operator : ℕ → Bool
is_operator char = is_one_of (spelled "+-*/%=!<>&|^~") char

unfoldable pub is_delimiter : ℕ → Bool
is_delimiter char = is_one_of (spelled "(){}[];,:.?#") char

abbrev pub long_operators : List String
long_operators = "<<=" ∷ ">>=" ∷ []

abbrev pub pair_operators : List String
pair_operators =
    "++" ∷ "--" ∷ "->" ∷ "==" ∷ "!=" ∷ "<=" ∷ ">=" ∷ "&&" ∷ "||" ∷ "<<" ∷ ">>" ∷ "+=" ∷ "-=" ∷ "*="
    ∷ "/=" ∷ "%=" ∷ "&=" ∷ "|=" ∷ "^=" ∷ []

abbrev pub pair_delimiters : List String
pair_delimiters = "::" ∷ "##" ∷ []

-- The width that `tokenizeOperator` and `tokenizeDelimiter` return.
unfoldable pub operator_width : Bytes → ℕ
operator_width bytes =
    if begins_any long_operators bytes then 3 else if begins_any pair_operators bytes then 2 else 1

unfoldable pub delimiter_width : Bytes → ℕ
delimiter_width bytes =
    if begins "..." bytes then 3 else if begins_any pair_delimiters bytes then 2 else 1

module _ (unicode : Unicode) where
  -- `isIdentStart` and `isIdentPart`
  abbrev pub is_ident_start : ℕ → Bool
  is_ident_start char = char == 95 || unicode.is_letter char

  abbrev pub is_ident_part : ℕ → Bool
  is_ident_part char = is_ident_start char || unicode.is_digit char
