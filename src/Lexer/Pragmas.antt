-- ===== src/Lexer/Pragmas.antt =====
-- Pragmas and conditional compilation, and `skip_comment`, which they are part of (src/lexer.rs).
use mathlib.Core.List.{reverse}
use mx.Common.{
  ℕ, zero, suc, ◌+◌, ◌-◌, ◌==◌, leb, Text, text_eq, codes, List, [], ◌∷◌, length, Option, none,
  some, Bool, true, false, ◌&&◌, ◌||◌, if◌then◌else◌, Result, ok, err, ◌>>=◌,
}
use mx.Json.Read.{is_whitespace}
use mx.Lexer.{
  Lexer, Position, LexError, Token, step, advance, next_is, unterminated_comment,
  expected_directive, unterminated_string, unterminated_pragma, unterminated_block,
  unterminated_disabled_comment, out_of_fuel,
}
use mx.Lexer.Comments.{comment_loop, doc_loop}
use mx.Token.{pragma, doc_comment}

abbrev pub between : ℕ → ℕ → ℕ → Bool
between low high c = leb low c && leb c high

-- `is_ascii_whitespace`, and the characters of a directive's name.
abbrev pub is_ascii_whitespace : ℕ → Bool
is_ascii_whitespace c = c == b' ' || c == 9 || c == 10 || c == 12 || c == 13

abbrev pub is_word_char : ℕ → Bool
is_word_char c = between b'0' b'9' c || between b'A' b'Z' c || between b'a' b'z' c || c == b'_'

-- `while let Some(ch) = self.peek()` over the characters of a class, kept.
unfoldable pub take_while : (ℕ → Bool) → Text → Position → Text × Lexer
take_while p [] at = ([], record { rest = []; position = at })
take_while p (c ∷ cs) at =
    let next = take_while p cs (step c at) in
    if p c then (c ∷ next.0, next.1) else ([], record { rest = c ∷ cs; position = at })

abbrev pub take : (ℕ → Bool) → Lexer → Text × Lexer
take p lx = take_while p lx.rest lx.position

abbrev pub skip_whitespace : Lexer → Lexer
skip_whitespace lx = (take is_ascii_whitespace lx).1

unfoldable pub close_loop : Position → Text → Position → Result LexError Lexer
close_loop loc [] at = err (record { loc = loc; message = unterminated_pragma })
close_loop loc (c ∷ cs) at =
    let next : Lexer = record { rest = cs; position = step c at } in
    elim (c == b'*' && next_is b')' next) [
      | true ↦ ok (advance next)
      | false ↦ close_loop loc cs (step c at)
    ]

abbrev pub skip_pragma_close : Position → Lexer → Result LexError Lexer
skip_pragma_close loc lx = close_loop loc lx.rest lx.position

-- The string argument of a pragma, behind its opening quote.
unfoldable pub argument_loop : Position → Text → Position → Result LexError (Text × Lexer)
argument_loop loc [] at = err (record { loc = loc; message = unterminated_string })
argument_loop loc (c ∷ cs) at = elim (c == b'"') [
  | true ↦ ok ([], record { rest = cs; position = step c at })
  | false ↦ do (s, lx) ← argument_loop loc cs (step c at); ok (c ∷ s, lx)
]

-- What `skip_disabled_block` does behind the pragma of a directive: it goes on at a depth, or ends.
unfoldable pub after_directive : Bool → ℕ → Text → Option ℕ
after_directive stop_at_else depth dir =
    if text_eq dir (codes "IF")
    then some (depth + 1)
    else if text_eq dir (codes "ELSE") && depth == 0 && stop_at_else
    then none
    else if text_eq dir (codes "END")
    then (if depth == 0 then none else some (depth - 1))
    else some depth

unfoldable pub disabled_loop : ℕ → Position → Bool → ℕ → Lexer → Result LexError Lexer
disabled_loop zero loc stop_at_else depth lx = err (record { loc = loc; message = out_of_fuel })
disabled_loop (suc f) loc stop_at_else depth lx = elim lx.rest [
  | [] ↦ err (record { loc = loc; message = unterminated_block })
  | c ∷ cs ↦ elim (c == b'(' && next_is b'*' (advance lx)) [
    | false ↦ disabled_loop f loc stop_at_else depth (advance lx)
    | true ↦ elim (next_is b'$' (advance (advance lx))) [
      | false ↦ do
        behind ← comment_loop f loc unterminated_disabled_comment 1 (advance (advance lx))
        disabled_loop f loc stop_at_else depth behind
      | true ↦ do
        (dir, named) ← ok (take is_word_char (advance (advance (advance lx))))
        behind ← skip_pragma_close named.position named
        elim (after_directive stop_at_else depth dir) [
          | none ↦ ok behind
          | some inner ↦ disabled_loop f loc stop_at_else inner behind
        ]
    ]
  ]
]

unfoldable pub skip_disabled_block : Bool → Lexer → Result LexError Lexer
skip_disabled_block stop_at_else lx =
    disabled_loop (length lx.rest + 1) lx.position stop_at_else 0 lx

unfoldable pub has_feature : List Text → Text → Bool
has_feature [] name = false
has_feature (f ∷ fs) name = text_eq f name || has_feature fs name

-- A pragma that is no conditional: its argument, up to its end.
unfoldable pub read_argument :
    {F : Type 0} → Position → Text → Lexer → Result LexError (Option (Token F) × Lexer)
read_argument loc directive lx =
    let at = skip_whitespace lx in
    elim (next_is b'"' at) [
      | true ↦ do
        (s, behind) ← argument_loop loc (advance at).rest (advance at).position
        closed ← skip_pragma_close loc behind
        ok (some (record { kind = pragma directive (some s); loc = loc }), closed)
      | false ↦ do
        closed ← skip_pragma_close loc at
        ok (some (record { kind = pragma directive none; loc = loc }), closed)
    ]

-- The conditional pragmas, and the others, by their name.
unfoldable pub on_directive :
    {F : Type 0} → List Text → Position → Text → Lexer → Result LexError (Option (Token F) × Lexer)
on_directive features loc directive named =
    if text_eq directive (codes "IF")
    then (do
      (feature, found) ← ok (take is_word_char (skip_whitespace named))
      closed ← skip_pragma_close loc found
      elim (has_feature features feature) [
        | true ↦ ok (none, closed)
        | false ↦ do behind ← skip_disabled_block true closed; ok (none, behind)
      ])
    else if text_eq directive (codes "ELSE")
    then (do
      closed ← skip_pragma_close loc named
      behind ← skip_disabled_block false closed
      ok (none, behind))
    else if text_eq directive (codes "END")
    then (do closed ← skip_pragma_close loc named; ok (none, closed))
    else read_argument loc directive named

unfoldable pub read_pragma :
    {F : Type 0} → List Text → Position → Lexer → Result LexError (Option (Token F) × Lexer)
read_pragma features loc lx = do
  (directive, named) ← ok (take is_word_char lx)
  elim directive [
    | [] ↦ err (record { loc = loc; message = expected_directive })
    | c ∷ cs ↦ on_directive features loc (c ∷ cs) named
  ]

abbrev drop_spaces : Text → Text
drop_spaces [] = []
drop_spaces (c ∷ cs) = let rest = drop_spaces cs in if is_whitespace c then rest else c ∷ cs

-- `str::trim`.
unfoldable pub trim : Text → Text
trim s = reverse (drop_spaces (reverse (drop_spaces s)))

-- Only a content that is not blank makes a token.
unfoldable pub doc_token : {F : Type 0} → Position → Text → Option (Token F)
doc_token loc content = elim (trim content) [
  | [] ↦ none
  | c ∷ cs ↦ some (record { kind = doc_comment (c ∷ cs); loc = loc })
]

unfoldable pub skip_comment :
    {F : Type 0} → List Text → Lexer → Result LexError (Option (Token F) × Lexer)
skip_comment features lx =
    let loc = lx.position in
    let inside = advance (advance lx) in
    let marked = advance inside in
    elim (next_is b'$' inside) [
      | true ↦ read_pragma features loc marked
      | false ↦ elim (next_is b'*' inside || next_is b'!' inside) [
        | false ↦ do
          behind ← comment_loop (length inside.rest + 1) loc unterminated_comment 1 inside
          ok (none, behind)
        | true ↦ elim (next_is b'*' inside && next_is b'*' marked) [
          | true ↦ do
            behind ← comment_loop (length marked.rest + 1) loc unterminated_comment 1 marked
            ok (none, behind)
          | false ↦ do
            (content, behind) ← doc_loop (length marked.rest + 1) loc 1 [] marked
            ok (doc_token loc content, behind)
        ]
      ]
    ]
