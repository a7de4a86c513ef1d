-- ===== src/Lexer.antt =====
-- The lexer of src/lexer.rs: its state, comments and pragmas. The source keeps its index into the
-- text; here the state has the rest of the text from there on. The name of the file never changes
-- and is left out, so a source location is a line and a column.
pub mod Comments
pub mod Pragmas
pub mod Moves
pub mod Loops
pub mod Positions
mod Tests
use mx.Common.{
  ℕ, ◌+◌, ◌==◌, ◌&&◌, ◌||◌, Text, List, Option, none, some, [], ◌∷◌, Bool, if◌then◌else◌, leb,
}
use mx.Token.{TokenKind}

pub record Position : Type 0 where
  pub line : ℕ
  pub col : ℕ

-- What of `Lexer` changes.
pub record Lexer : Type 0 where
  pub rest : Text
  pub position : Position

-- The messages of the errors; each error has the position that the source gives it.
pub data Message : Type 0 where
  unterminated_comment unterminated_doc_comment expected_directive unterminated_string : Message
  unterminated_pragma unterminated_block unterminated_disabled_comment : Message
  out_of_fuel : Message

pub record LexError : Type 0 where
  pub loc : Position
  pub message : Message

pub record Token (F : Type 0) : Type 0 where
  pub kind : TokenKind F
  pub loc : Position

-- `advance`, where the character is `c`.
abbrev pub step : ℕ → Position → Position
step c p =
    if c == b'\n' then record { line = p.line + 1; col = 1 } else record p { col = p.col + 1 }

unfoldable pub advance : Lexer → Lexer
advance lx = elim lx.rest [ [] ↦ lx | c ∷ cs ↦ record { rest = cs; position = step c lx.position } ]

abbrev pub peek : Lexer → Option ℕ
peek lx = elim lx.rest [ [] ↦ none | c ∷ cs ↦ some c ]

-- `self.peek() == Some(c)`.
abbrev pub next_is : ℕ → Lexer → Bool
next_is c lx = elim lx.rest [ [] ↦ Bool.false | d ∷ cs ↦ c == d ]
