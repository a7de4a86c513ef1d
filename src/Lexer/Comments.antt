-- ===== src/Lexer/Comments.antt =====
-- Comments (`skip_comment` of src/lexer.rs).
use mx.Common.{ℕ, zero, suc, ◌==◌, Text, codes, [], ◌∷◌, ◌++◌, true, false, ◌&&◌, ok, err, Result}
use mx.Lexer.{
  Lexer, Position, LexError, Message, unterminated_doc_comment, out_of_fuel, advance, next_is,
}

-- The loop that skips to the end of the comment, through comments inside it. The source has it three
-- times, with two messages; `loc` is where the comment began.
unfoldable pub comment_loop : ℕ → Position → Message → ℕ → Lexer → Result LexError Lexer
comment_loop f loc message zero lx = ok lx
comment_loop zero loc message (suc d) lx = err (record { loc = loc; message = out_of_fuel })
comment_loop (suc f) loc message (suc d) lx = elim lx.rest [
  | [] ↦ err (record { loc = loc; message = message })
  | c ∷ cs ↦ elim (c == b'(') [
    | true ↦ elim (next_is b'*' (advance lx)) [
      | true ↦ comment_loop f loc message (suc (suc d)) (advance (advance lx))
      | false ↦ comment_loop f loc message (suc d) (advance lx)
    ]
    | false ↦ elim (c == b'*' && next_is b')' (advance lx)) [
      | true ↦ comment_loop f loc message d (advance (advance lx))
      | false ↦ comment_loop f loc message (suc d) (advance lx)
    ]
  ]
]

-- The end of a comment is kept where it is inside another: `d` comments are open behind it.
abbrev pub closed_content : ℕ → Text → Text
closed_content zero content = content
closed_content (suc d) content = content ++ codes "*)"

-- The same loop where the content of the comment is kept.
unfoldable pub doc_loop : ℕ → Position → ℕ → Text → Lexer → Result LexError (Text × Lexer)
doc_loop f loc zero content lx = ok (content, lx)
doc_loop zero loc (suc d) content lx = err (record { loc = loc; message = out_of_fuel })
doc_loop (suc f) loc (suc d) content lx = elim lx.rest [
  | [] ↦ err (record { loc = loc; message = unterminated_doc_comment })
  | c ∷ cs ↦ elim (c == b'(') [
    | true ↦ elim (next_is b'*' (advance lx)) [
      | true ↦ doc_loop f loc (suc (suc d)) (content ++ codes "(*") (advance (advance lx))
      | false ↦ doc_loop f loc (suc d) (content ++ codes "(") (advance lx)
    ]
    | false ↦ elim (c == b'*') [
      | true ↦ elim (next_is b')' (advance lx)) [
        | true ↦ doc_loop f loc d (closed_content d content) (advance (advance lx))
        | false ↦ doc_loop f loc (suc d) (content ++ codes "*") (advance lx)
      ]
      | false ↦ doc_loop f loc (suc d) (content ++ c ∷ []) (advance lx)
    ]
  ]
]
