-- ===== src/Lex/Kinds.antt =====
-- cova/lex.go: the kinds of tokens, and the tables of keywords, operators and delimiters.
use Prim.Native.String.{String}
use ccova.Prelude.{List, [], ◌∷◌}

pub data TokenKind : Type 0 where
  eof ident string_literal integer float32_literal float64_literal newline break_token : TokenKind
  case_token const_token continue_token default_token else_token extern_token : TokenKind
  false_token struct_token bool_token byte_token char_token float32_type float64_type : TokenKind
  for_token if_token int8_token int16_token int32_token int64_token return_token : TokenKind
  switch_token true_token uint8_token uint16_token uint32_token uint64_token : TokenKind
  void_token while_token int_token float_token plus_token minus_token star_token : TokenKind
  slash_token percent_token increment_token decrement_token arrow_token equal_token : TokenKind
  not_equal_token less_token less_equal_token greater_token greater_equal_token : TokenKind
  logical_and_token logical_or_token shift_left_token shift_right_token assign_token : TokenKind
  plus_assign_token minus_assign_token star_assign_token slash_assign_token : TokenKind
  percent_assign_token shift_left_assign_token shift_right_assign_token : TokenKind
  and_assign_token or_assign_token xor_assign_token amp_token pipe_token caret_token : TokenKind
  tilde_token bang_token lparen_token rparen_token lbrace_token rbrace_token : TokenKind
  lbracket_token rbracket_token semicolon_token comma_token colon_token : TokenKind
  colon_colon_token dot_token ellipsis_token question_token hash_token hash_hash_token : TokenKind
  i8_token i16_token i32_token i64_token u8_token u16_token u32_token u64_token : TokenKind
  f32_token f64_token double_token : TokenKind

-- `keywords`
abbrev pub keywords : List (String × TokenKind)
keywords =
    ("break", TokenKind.break_token)
    ∷ ("case", TokenKind.case_token)
    ∷ ("const", TokenKind.const_token)
    ∷ ("continue", TokenKind.continue_token)
    ∷ ("default", TokenKind.default_token)
    ∷ ("else", TokenKind.else_token)
    ∷ ("extern", TokenKind.extern_token)
    ∷ ("false", TokenKind.false_token)
    ∷ ("struct", TokenKind.struct_token)
    ∷ ("bool", TokenKind.bool_token)
    ∷ ("byte", TokenKind.byte_token)
    ∷ ("char", TokenKind.char_token)
    ∷ ("float32", TokenKind.float32_type)
    ∷ ("float64", TokenKind.float64_type)
    ∷ ("for", TokenKind.for_token)
    ∷ ("if", TokenKind.if_token)
    ∷ ("int8", TokenKind.int8_token)
    ∷ ("int16", TokenKind.int16_token)
    ∷ ("int32", TokenKind.int32_token)
    ∷ ("int64", TokenKind.int64_token)
    ∷ ("return", TokenKind.return_token)
    ∷ ("switch", TokenKind.switch_token)
    ∷ ("true", TokenKind.true_token)
    ∷ ("uint8", TokenKind.uint8_token)
    ∷ ("uint16", TokenKind.uint16_token)
    ∷ ("uint32", TokenKind.uint32_token)
    ∷ ("uint64", TokenKind.uint64_token)
    ∷ ("void", TokenKind.void_token)
    ∷ ("while", TokenKind.while_token)
    ∷ ("int", TokenKind.int_token)
    ∷ ("float", TokenKind.float_token)
    ∷ ("i8", TokenKind.i8_token)
    ∷ ("i16", TokenKind.i16_token)
    ∷ ("i32", TokenKind.i32_token)
    ∷ ("i64", TokenKind.i64_token)
    ∷ ("u8", TokenKind.u8_token)
    ∷ ("u16", TokenKind.u16_token)
    ∷ ("u32", TokenKind.u32_token)
    ∷ ("u64", TokenKind.u64_token)
    ∷ ("f32", TokenKind.f32_token)
    ∷ ("f64", TokenKind.f64_token)
    ∷ ("double", TokenKind.double_token)
    ∷ []

-- `operatorKinds`
abbrev pub operator_kinds : List (String × TokenKind)
operator_kinds =
    ("+", TokenKind.plus_token)
    ∷ ("-", TokenKind.minus_token)
    ∷ ("*", TokenKind.star_token)
    ∷ ("/", TokenKind.slash_token)
    ∷ ("%", TokenKind.percent_token)
    ∷ ("++", TokenKind.increment_token)
    ∷ ("--", TokenKind.decrement_token)
    ∷ ("->", TokenKind.arrow_token)
    ∷ ("==", TokenKind.equal_token)
    ∷ ("!=", TokenKind.not_equal_token)
    ∷ ("<", TokenKind.less_token)
    ∷ ("<=", TokenKind.less_equal_token)
    ∷ (">", TokenKind.greater_token)
    ∷ (">=", TokenKind.greater_equal_token)
    ∷ ("&&", TokenKind.logical_and_token)
    ∷ ("||", TokenKind.logical_or_token)
    ∷ ("<<", TokenKind.shift_left_token)
    ∷ (">>", TokenKind.shift_right_token)
    ∷ ("=", TokenKind.assign_token)
    ∷ ("+=", TokenKind.plus_assign_token)
    ∷ ("-=", TokenKind.minus_assign_token)
    ∷ ("*=", TokenKind.star_assign_token)
    ∷ ("/=", TokenKind.slash_assign_token)
    ∷ ("%=", TokenKind.percent_assign_token)
    ∷ ("<<=", TokenKind.shift_left_assign_token)
    ∷ (">>=", TokenKind.shift_right_assign_token)
    ∷ ("&=", TokenKind.and_assign_token)
    ∷ ("|=", TokenKind.or_assign_token)
    ∷ ("^=", TokenKind.xor_assign_token)
    ∷ ("&", TokenKind.amp_token)
    ∷ ("|", TokenKind.pipe_token)
    ∷ ("^", TokenKind.caret_token)
    ∷ ("~", TokenKind.tilde_token)
    ∷ ("!", TokenKind.bang_token)
    ∷ []

-- `delimiterKinds`
abbrev pub delimiter_kinds : List (String × TokenKind)
delimiter_kinds =
    ("(", TokenKind.lparen_token)
    ∷ (")", TokenKind.rparen_token)
    ∷ ("{", TokenKind.lbrace_token)
    ∷ ("}", TokenKind.rbrace_token)
    ∷ ("[", TokenKind.lbracket_token)
    ∷ ("]", TokenKind.rbracket_token)
    ∷ (";", TokenKind.semicolon_token)
    ∷ (",", TokenKind.comma_token)
    ∷ (":", TokenKind.colon_token)
    ∷ ("::", TokenKind.colon_colon_token)
    ∷ (".", TokenKind.dot_token)
    ∷ ("...", TokenKind.ellipsis_token)
    ∷ ("?", TokenKind.question_token)
    ∷ ("#", TokenKind.hash_token)
    ∷ ("##", TokenKind.hash_hash_token)
    ∷ []
