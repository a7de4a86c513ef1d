-- ===== src/Lexer/Loops.antt =====
-- Where the loops of comments and pragmas leave the lexer (src/lexer.rs).
use mx.Common.{
  ◌≢◌, ◌<◌, ℕ, zero, suc, ◌==◌, Text, codes, [], ◌∷◌, ◌++◌, length, Option, none, some, Bool, true,
  false, ◌&&◌, if◌then◌else◌, Result, ok, arith,
}
use mx.Lexer.{
  Lexer, Position, LexError, Message, step, advance, next_is, out_of_fuel,
  unterminated_disabled_comment,
}
use mx.Lexer.Comments.{comment_loop, doc_loop, closed_content}
use mx.Lexer.Pragmas.{
  take_while, take, close_loop, argument_loop, after_directive, disabled_loop, is_word_char,
  skip_pragma_close,
}
use mx.Lexer.Moves.{
  Reads, Reads-nothing, Reads-step, Reads-trans, Reads-advance, Arrives, arrives, refused,
  Arrives-after, Arrives-bind, Arrives-bind-Reads, length-Reads, Arrives-choice,
}

comment_loop-Arrives_text :
    (f : ℕ) (loc : Position) (message : Message) (d : ℕ) (t : Text) (at : Position)
    → message ≢ out_of_fuel
    → length t < f
    → Arrives
        (λ lx. lx)
        (record { rest = t; position = at })
        (comment_loop f loc message d (record { rest = t; position = at }))
unfolding comment_loop advance
comment_loop-Arrives_text f loc message zero t at w l = arrives _ (Reads-nothing _)
comment_loop-Arrives_text zero loc message (suc d) t at w l = absurd (omega arith)
comment_loop-Arrives_text (suc f) loc message (suc d) [] at w l = refused _ w
comment_loop-Arrives_text (suc f) loc message (suc d) (c ∷ cs) at w l =
    let next : Lexer = record { rest = cs; position = step c at } in
    let behind = advance next in
    let short : length behind.rest < f = omega (arith, l, length-Reads (Reads-advance next)) in
    let one = Reads-step c cs at next (Reads-nothing next) in
    let two = Reads-trans one (Reads-advance next) in
    let deeper =
      comment_loop-Arrives_text f loc message (suc (suc d)) behind.rest behind.position w short in
    let out = comment_loop-Arrives_text f loc message d behind.rest behind.position w short in
    let same = comment_loop-Arrives_text f loc message (suc d) cs (step c at) w (omega arith) in
    Arrives-choice (c == b'(')
      (Arrives-choice (next_is b'*' next) (Arrives-after two deeper) (Arrives-after one same))
      (Arrives-choice (c == b'*' && next_is b')' next) (Arrives-after two out)
        (Arrives-after one same))

pub comment_loop-Arrives :
    (f : ℕ) (loc : Position) (message : Message) (d : ℕ) (lx : Lexer)
    → message ≢ out_of_fuel
    → length lx.rest < f
    → Arrives (λ l. l) lx (comment_loop f loc message d lx)
comment_loop-Arrives f loc message d lx w l =
    comment_loop-Arrives_text f loc message d lx.rest lx.position w l

doc_loop-Arrives_text :
    (f : ℕ) (loc : Position) (d : ℕ) (content t : Text) (at : Position)
    → length t < f
    → Arrives
        (λ p. p.1)
        (record { rest = t; position = at })
        (doc_loop f loc d content (record { rest = t; position = at }))
unfolding doc_loop advance
doc_loop-Arrives_text f loc zero content t at l = arrives _ (Reads-nothing _)
doc_loop-Arrives_text zero loc (suc d) content t at l = absurd (omega arith)
doc_loop-Arrives_text (suc f) loc (suc d) content [] at l = refused _ (λ e. cc)
doc_loop-Arrives_text (suc f) loc (suc d) content (c ∷ cs) at l =
    let next : Lexer = record { rest = cs; position = step c at } in
    let behind = advance next in
    let short : length behind.rest < f = omega (arith, l, length-Reads (Reads-advance next)) in
    let one = Reads-step c cs at next (Reads-nothing next) in
    let two = Reads-trans one (Reads-advance next) in
    Arrives-choice (c == b'(')
      (Arrives-choice (next_is b'*' next)
        (Arrives-after two (
          doc_loop-Arrives_text f loc (suc (suc d)) (content ++ codes "(*") behind.rest
            behind.position short))
        (Arrives-after one (
          doc_loop-Arrives_text f loc (suc d) (content ++ codes "(") cs (step c at) (omega arith))))
      (Arrives-choice (c == b'*')
        (Arrives-choice (next_is b')' next)
          (Arrives-after two (
            doc_loop-Arrives_text f loc d (closed_content d content) behind.rest behind.position
              short))
          (Arrives-after one (
            doc_loop-Arrives_text f loc (suc d) (content ++ codes "*") cs (step c at)
              (omega arith))))
        (Arrives-after one
          (doc_loop-Arrives_text f loc (suc d) (content ++ c ∷ []) cs (step c at) (omega arith))))

pub doc_loop-Arrives :
    (f : ℕ) (loc : Position) (d : ℕ) (content : Text) (lx : Lexer)
    → length lx.rest < f
    → Arrives (λ p. p.1) lx (doc_loop f loc d content lx)
doc_loop-Arrives f loc d content lx l = doc_loop-Arrives_text f loc d content lx.rest lx.position l

Reads-taken :
    (b : Bool) (c : ℕ) (cs : Text) (at : Position) (next : Text × Lexer)
    → Reads (record { rest = cs; position = step c at }) next.1
    → Reads
        (record { rest = c ∷ cs; position = at })
        (if◌then◌else◌ {A = Text × Lexer} b
          (c ∷ next.0, next.1)
          ([], record { rest = c ∷ cs; position = at })).1
Reads-taken true c cs at next r = Reads-step c cs at next.1 r
Reads-taken false c cs at next r = Reads-nothing _

take_while-Reads :
    (p : ℕ → Bool) (t : Text) (at : Position)
    → Reads (record { rest = t; position = at }) (take_while p t at).1
unfolding take_while
take_while-Reads p [] at = Reads-nothing _
take_while-Reads p (c ∷ cs) at =
    Reads-taken (p c) c cs at (take_while p cs (step c at)) (take_while-Reads p cs (step c at))

pub take-Reads : (p : ℕ → Bool) (lx : Lexer) → Reads lx (take p lx).1
take-Reads p lx = take_while-Reads p lx.rest lx.position

close_loop-Arrives :
    (loc : Position) (t : Text) (at : Position)
    → Arrives (λ l. l) (record { rest = t; position = at }) (close_loop loc t at)
unfolding close_loop
close_loop-Arrives loc [] at = refused _ (λ e. cc)
close_loop-Arrives loc (c ∷ cs) at =
    let next : Lexer = record { rest = cs; position = step c at } in
    let one = Reads-step c cs at next (Reads-nothing next) in
    Arrives-choice (c == b'*' && next_is b')' next)
      (arrives (advance next) (Reads-trans one (Reads-advance next)))
      (Arrives-after one (close_loop-Arrives loc cs (step c at)))

pub skip_pragma_close-Arrives :
    (loc : Position) (lx : Lexer) → Arrives (λ l. l) lx (skip_pragma_close loc lx)
skip_pragma_close-Arrives loc lx = close_loop-Arrives loc lx.rest lx.position

pub argument_loop-Arrives :
    (loc : Position) (t : Text) (at : Position)
    → Arrives (λ p. p.1) (record { rest = t; position = at }) (argument_loop loc t at)
unfolding argument_loop
argument_loop-Arrives loc [] at = refused _ (λ e. cc)
argument_loop-Arrives loc (c ∷ cs) at =
    let next : Lexer = record { rest = cs; position = step c at } in
    let one = Reads-step c cs at next (Reads-nothing next) in
    Arrives-choice (c == b'"') (arrives _ one) (
      Arrives-after one (
        Arrives-bind _ (argument_loop-Arrives loc cs (step c at))
          (λ a. arrives _ (Reads-nothing a.1))))

Arrives-depth :
    (o : Option ℕ) (lx : Lexer) {next : ℕ → Result LexError Lexer}
    → ((d : ℕ) → Arrives (λ l. l) lx (next d))
    → Arrives (λ l. l) lx (elim o [ none ↦ ok lx | some d ↦ next d ])
Arrives-depth none lx h = arrives lx (Reads-nothing lx)
Arrives-depth (some d) lx h = h d

disabled_loop-Arrives_text :
    (f : ℕ) (loc : Position) (stop : Bool) (d : ℕ) (t : Text) (at : Position)
    → length t < f
    → Arrives
        (λ l. l)
        (record { rest = t; position = at })
        (disabled_loop f loc stop d (record { rest = t; position = at }))
unfolding disabled_loop advance
disabled_loop-Arrives_text zero loc stop d t at l = absurd (omega arith)
disabled_loop-Arrives_text (suc f) loc stop d [] at l = refused _ (λ e. cc)
disabled_loop-Arrives_text (suc f) loc stop d (c ∷ cs) at l =
    let next : Lexer = record { rest = cs; position = step c at } in
    let behind = advance next in
    let short : length behind.rest < f = omega (arith, l, length-Reads (Reads-advance next)) in
    let one = Reads-step c cs at next (Reads-nothing next) in
    let two = Reads-trans one (Reads-advance next) in
    let go : (d' : ℕ) (lx : Lexer)
        → length lx.rest < f
        → Arrives (λ l. l) lx (disabled_loop f loc stop d' lx) =
      λ d' lx k. disabled_loop-Arrives_text f loc stop d' lx.rest lx.position k in
    let tail : (to : Lexer) → Reads behind to → length to.rest < f =
      λ to r. omega (arith, short, length-Reads r) in
    let third = advance behind in
    let named = take is_word_char third in
    let name = Reads-trans (Reads-advance behind) (take-Reads is_word_char third) in
    let directive = Reads-trans two name in
    Arrives-choice (c == b'(' && next_is b'*' next)
      (Arrives-choice (next_is b'$' behind)
        (Arrives-after directive (
          Arrives-bind-Reads _ (skip_pragma_close-Arrives named.1.position named.1) (λ closed r.
            Arrives-depth (after_directive stop d named.0) closed
              (λ inner. go inner closed (tail closed (Reads-trans name r))))))
        (Arrives-after two (
          Arrives-bind-Reads _
            (comment_loop-Arrives f loc unterminated_disabled_comment 1 behind (λ e. cc) short)
            (λ closed r. go d closed (tail closed r)))))
      (Arrives-after one (go d next (omega arith)))

pub disabled_loop-Arrives :
    (f : ℕ) (loc : Position) (stop : Bool) (d : ℕ) (lx : Lexer)
    → length lx.rest < f
    → Arrives (λ l. l) lx (disabled_loop f loc stop d lx)
disabled_loop-Arrives f loc stop d lx l =
    disabled_loop-Arrives_text f loc stop d lx.rest lx.position l
