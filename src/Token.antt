-- ===== src/Token.antt =====
-- The kinds of tokens, and the keywords among them (src/token.rs).
pub mod Keywords
pub mod Described
mod Tests
use mx.Common.{ℕ, Text, Option}
use mx.Common.Int.{ℤ}

-- The enum `TokenKind`; `F` stands for f64.
pub data TokenKind (F : Type 0) : Type 0 where
  int_lit : ℤ → TokenKind F
  real_lit : F → TokenKind F
  string_lit : Text → TokenKind F
  char_lit : ℕ → TokenKind F
  ident : Text → TokenKind F
  and array as_token begin by case_token const definition div_token do_token else_token elsif end
        except exit export finally for from if_token implementation import_token in_token loop
        mod_token module_token not_token of_token or pointer procedure qualified raise record_token
        repeat retry return_token set_token then_token to_token type_token until var while
        with_token branded exception lock methods object override ref_token refany reveal safe try
        typecase unsafe plus minus star slash assign eq_token hash not_eq lt_token gt_token le ge
        dot_dot dot comma semi colon lparen rparen lbrack rbrack lbrace rbrace caret pipe ampersand
        tilde eof :
      TokenKind F
  pragma : Text → Option Text → TokenKind F
  doc_comment : Text → TokenKind F
