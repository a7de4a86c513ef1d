-- ===== src/Lexer/Positions.antt =====
-- Where comments and pragmas leave the lexer (src/lexer.rs).
use mathlib.Core.Path.{subst}
use mx.Common.{
  arith, ◌≢◌, ◌≡◌, ok_inj, err_inj, ◌+◌, Text, text_eq, codes, List, [], ◌∷◌, length, Option, Bool,
  true, false, ◌&&◌, ◌||◌, Result, ok, err,
}
use mx.Lexer.{
  Lexer, Position, LexError, Token, advance, next_is, out_of_fuel, unterminated_comment,
  expected_directive,
}
use mx.Lexer.Pragmas.{
  take, is_word_char, skip_whitespace, is_ascii_whitespace, has_feature, skip_disabled_block,
  read_argument, on_directive, read_pragma, skip_comment,
}
use mx.Lexer.Moves.{
  Reads, Reads-nothing, Reads-trans, Reads-advance, Arrives, arrives, refused, Arrives-after,
  Arrives-bind, Arrives-choice, Arrives-if,
}
use mx.Lexer.Loops.{
  comment_loop-Arrives, doc_loop-Arrives, take-Reads, skip_pragma_close-Arrives,
  argument_loop-Arrives, disabled_loop-Arrives,
}

arrived :
    {A : Type 0} {at : A → Lexer} {from : Lexer} {r : Result LexError A} (a : A)
    → Arrives at from r
    → r ≡ ok a
    → Reads from (at a)
arrived {at = at} {from = from} a (arrives x q) e = subst (λ z. Reads from (at z)) (ok_inj e) q
arrived a (refused w n) e = cc

skip_disabled_block-Arrives :
    (stop : Bool) (lx : Lexer) → Arrives (λ l. l) lx (skip_disabled_block stop lx)
unfolding skip_disabled_block
skip_disabled_block-Arrives stop lx =
    disabled_loop-Arrives (length lx.rest + 1) lx.position stop 0 lx (omega arith)

failed :
    {A : Type 0} {at : A → Lexer} {from : Lexer} {r : Result LexError A} (e : LexError)
    → Arrives at from r
    → r ≡ err e
    → e.message ≢ out_of_fuel
failed e (arrives x q) h = cc
failed e (refused w n) h = subst (λ z. z.message ≢ out_of_fuel) (err_inj h) n

module _ {F : Type 0} where
  read_argument-Arrives :
      (loc : Position) (directive : Text) (lx : Lexer)
      → Arrives (λ p. p.1) lx (read_argument {F = F} loc directive lx)
  unfolding read_argument
  read_argument-Arrives loc directive lx =
      let at = skip_whitespace lx in
      let opened = advance at in
      Arrives-after (take-Reads is_ascii_whitespace lx) (
        Arrives-choice (next_is b'"' at)
          (Arrives-after (Reads-advance at) (
            Arrives-bind _ (argument_loop-Arrives loc opened.rest opened.position) (λ a.
              Arrives-bind _ (skip_pragma_close-Arrives loc a.1)
                (λ closed. arrives _ (Reads-nothing closed)))))
          (Arrives-bind _ (skip_pragma_close-Arrives loc at)
            (λ closed. arrives _ (Reads-nothing closed))))

  on_directive-Arrives :
      (features : List Text) (loc : Position) (directive : Text) (lx : Lexer)
      → Arrives (λ p. p.1) lx (on_directive {F = F} features loc directive lx)
  unfolding on_directive
  on_directive-Arrives features loc directive lx =
      let start = skip_whitespace lx in
      let feature = take is_word_char start in
      Arrives-if (text_eq directive (codes "IF"))
        (Arrives-after
          (Reads-trans (take-Reads is_ascii_whitespace lx) (take-Reads is_word_char start))
          (Arrives-bind _ (skip_pragma_close-Arrives loc feature.1) (λ closed.
            Arrives-choice (has_feature features feature.0) (arrives _ (Reads-nothing closed)) (
              Arrives-bind _ (skip_disabled_block-Arrives true closed)
                (λ behind. arrives _ (Reads-nothing behind))))))
        (Arrives-if (text_eq directive (codes "ELSE"))
          (Arrives-bind _ (skip_pragma_close-Arrives loc lx) (λ closed.
            Arrives-bind _ (skip_disabled_block-Arrives false closed)
              (λ behind. arrives _ (Reads-nothing behind))))
          (Arrives-if (text_eq directive (codes "END"))
            (Arrives-bind _ (skip_pragma_close-Arrives loc lx)
              (λ closed. arrives _ (Reads-nothing closed)))
            (read_argument-Arrives loc directive lx)))

  named-Arrives :
      (features : List Text) (loc : Position) (directive : Text) (lx : Lexer)
      → Arrives
          (λ p. p.1)
          lx
          (elim directive [
            | [] ↦ err (record { loc = loc; message = expected_directive })
            | c ∷ cs ↦ on_directive {F = F} features loc (c ∷ cs) lx
          ])
  named-Arrives features loc [] lx = refused _ (λ e. cc)
  named-Arrives features loc (c ∷ cs) lx = on_directive-Arrives features loc (c ∷ cs) lx

  read_pragma-Arrives :
      (features : List Text) (loc : Position) (lx : Lexer)
      → Arrives (λ p. p.1) lx (read_pragma {F = F} features loc lx)
  unfolding read_pragma
  read_pragma-Arrives features loc lx =
      let named = take is_word_char lx in
      Arrives-after (take-Reads is_word_char lx) (named-Arrives features loc named.0 named.1)

  skip_comment-Arrives :
      (features : List Text) (lx : Lexer) → Arrives (λ p. p.1) lx (skip_comment {F = F} features lx)
  unfolding skip_comment
  skip_comment-Arrives features lx =
      let loc = lx.position in
      let inside = advance (advance lx) in
      let marked = advance inside in
      let two = Reads-trans (Reads-advance lx) (Reads-advance (advance lx)) in
      let three = Reads-trans two (Reads-advance inside) in
      Arrives-choice (next_is b'$' inside)
        (Arrives-after three (read_pragma-Arrives features loc marked))
        (Arrives-choice (next_is b'*' inside || next_is b'!' inside)
          (Arrives-choice (next_is b'*' inside && next_is b'*' marked)
            (Arrives-after three (
              Arrives-bind _
                (comment_loop-Arrives (length marked.rest + 1) loc unterminated_comment 1 marked
                  (λ e. cc) (omega arith))
                (λ behind. arrives _ (Reads-nothing behind))))
            (Arrives-after three (
              Arrives-bind _
                (doc_loop-Arrives (length marked.rest + 1) loc 1 [] marked (omega arith))
                (λ a. arrives _ (Reads-nothing a.1)))))
          (Arrives-after two (
            Arrives-bind _
              (comment_loop-Arrives (length inside.rest + 1) loc unterminated_comment 1 inside
                (λ e. cc) (omega arith))
              (λ behind. arrives _ (Reads-nothing behind)))))

  -- If skip_comment succeeds, on a comment or a pragma, the rest of the text is what is left of it
  -- behind some text that was read, the line is the first one and the newlines of that text, and the
  -- column counts from the last newline of it, or on from the first column where it has none.
  pub skip_comment-Reads :
      (features : List Text) (lx lx' : Lexer) (token : Option (Token F))
      → skip_comment features lx ≡ ok (token, lx')
      → Reads lx lx'
  skip_comment-Reads features lx lx' token h =
      arrived (token, lx') (skip_comment-Arrives features lx) h

  -- skip_comment ends: the model's fuel is not used up, so every error is one of the source.
  pub skip_comment-ends :
      (features : List Text) (lx : Lexer) (e : LexError)
      → skip_comment {F = F} features lx ≡ err e
      → e.message ≢ out_of_fuel
  skip_comment-ends features lx e h = failed e (skip_comment-Arrives features lx) h
