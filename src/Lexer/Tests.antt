-- ===== src/Lexer/Tests.antt =====
-- Runs of the comments of the lexer.
use mx.Common.{Text, text_eq, codes, ◌≡◌, ◌≢◌, refl, some, none, [], ◌∷◌, ok, err}
use mx.Lexer.{Lexer, advance, out_of_fuel, unterminated_comment, unterminated_doc_comment}
use mx.Lexer.Comments.{comment_loop, doc_loop}
use mx.Lexer.Pragmas.{
  skip_comment, read_pragma, take_while, on_directive, close_loop, has_feature, skip_disabled_block,
  disabled_loop, after_directive, trim, doc_token,
}
use mx.Lexer.Moves.{Reads}
use mx.Lexer.Positions.{skip_comment-Reads, skip_comment-ends}
use mx.Json.Read.{is_whitespace}
use mx.Token.{doc_comment}

abbrev start : Text → Lexer
start t = record { rest = t; position = record { line = 1; col = 1 } }

abbrev nested : Lexer
nested = start (codes "(* a (* b *)\n c *)x")

abbrev behind_nested : Lexer
behind_nested = record { rest = codes "x"; position = record { line = 2; col = 6 } }

skip-nested : skip_comment {F = Text} [] nested ≡ ok (none, behind_nested)
unfolding skip_comment comment_loop advance
skip-nested = refl

skip-disabled :
    skip_comment {F = Text}
      (codes "gui" ∷ [])
      (start (codes "(*$IF x*)a(*$IF y*)(*$END*)(*$ELSE*)b"))
    ≡ ok (none, record { rest = codes "b"; position = record { line = 1; col = 37 } })
unfolding skip_comment advance read_pragma take_while on_directive close_loop has_feature
    skip_disabled_block disabled_loop after_directive text_eq
skip-disabled = refl

skip-doc :
    skip_comment {F = Text} [] (start (codes "(** hi (*x*) *)"))
    ≡ ok (
      some (record { kind = doc_comment (codes "hi (*x*)"); loc = record { line = 1; col = 1 } }),
      record { rest = []; position = record { line = 1; col = 16 } },
    )
unfolding skip_comment doc_loop advance doc_token trim is_whitespace
skip-doc = refl

skip_comment-Reads_example : Reads nested behind_nested
unfolding skip_comment comment_loop advance
skip_comment-Reads_example = skip_comment-Reads {F = Text} [] nested behind_nested none refl

abbrev open_comment : Lexer
open_comment = start (codes "(* (* *)")

skip_comment-ends_example : unterminated_comment ≢ out_of_fuel
unfolding skip_comment comment_loop advance
skip_comment-ends_example =
    skip_comment-ends {F = Text} [] open_comment
      (record { loc = record { line = 1; col = 1 }; message = unterminated_comment }) refl

-- The star of an empty comment is taken for the mark of a documentation comment, whose end is then
-- not found.
skip-empty :
    skip_comment {F = Text} [] (start (codes "(**) x"))
    ≡ err (record { loc = record { line = 1; col = 1 }; message = unterminated_doc_comment })
unfolding skip_comment doc_loop advance
skip-empty = refl
