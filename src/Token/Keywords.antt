-- ===== src/Token/Keywords.antt =====
-- The words of the keywords (src/token.rs).
use mx.Common.{Text, codes, text_eq, Bool, Option, none, some, List, [], ◌∷◌, if◌then◌else◌}
use mx.Token.{
  TokenKind, int_lit, real_lit, string_lit, char_lit, ident, and, array, as_token, begin, by,
  case_token, const, definition, div_token, do_token, else_token, elsif, end, except, exit, export,
  finally, for, from, if_token, implementation, import_token, in_token, loop, mod_token,
  module_token, not_token, of_token, or, pointer, procedure, qualified, raise, record_token, repeat,
  retry, return_token, set_token, then_token, to_token, type_token, until, var, while, with_token,
  branded, exception, lock, methods, object, override, ref_token, refany, reveal, safe, try,
  typecase, unsafe, plus, minus, star, slash, assign, eq_token, hash, not_eq, lt_token, gt_token,
  le, ge, dot_dot, dot, comma, semi, colon, lparen, rparen, lbrack, rbrack, lbrace, rbrace, caret,
  pipe, ampersand, tilde, pragma, doc_comment, eof,
}

module _ {F : Type 0} where
  -- The arms of the first match of `keyword_from_str`, and those for the extensions.
  abbrev pub pim_keywords : List (Text × TokenKind F)
  pim_keywords =
      (codes "AND", and)
      ∷ (codes "ARRAY", array)
      ∷ (codes "BEGIN", begin)
      ∷ (codes "BY", by)
      ∷ (codes "CASE", case_token)
      ∷ (codes "CONST", const)
      ∷ (codes "DEFINITION", definition)
      ∷ (codes "DIV", div_token)
      ∷ (codes "DO", do_token)
      ∷ (codes "ELSE", else_token)
      ∷ (codes "ELSIF", elsif)
      ∷ (codes "END", end)
      ∷ (codes "EXIT", exit)
      ∷ (codes "EXPORT", export)
      ∷ (codes "FOR", for)
      ∷ (codes "FROM", from)
      ∷ (codes "IF", if_token)
      ∷ (codes "IMPLEMENTATION", implementation)
      ∷ (codes "IMPORT", import_token)
      ∷ (codes "IN", in_token)
      ∷ (codes "LOOP", loop)
      ∷ (codes "MOD", mod_token)
      ∷ (codes "MODULE", module_token)
      ∷ (codes "NOT", not_token)
      ∷ (codes "OF", of_token)
      ∷ (codes "OR", or)
      ∷ (codes "POINTER", pointer)
      ∷ (codes "PROCEDURE", procedure)
      ∷ (codes "QUALIFIED", qualified)
      ∷ (codes "RECORD", record_token)
      ∷ (codes "REPEAT", repeat)
      ∷ (codes "RETURN", return_token)
      ∷ (codes "SET", set_token)
      ∷ (codes "THEN", then_token)
      ∷ (codes "TO", to_token)
      ∷ (codes "TYPE", type_token)
      ∷ (codes "UNTIL", until)
      ∷ (codes "VAR", var)
      ∷ (codes "WHILE", while)
      ∷ (codes "WITH", with_token)
      ∷ []

  abbrev pub m2plus_keywords : List (Text × TokenKind F)
  m2plus_keywords =
      (codes "AS", as_token)
      ∷ (codes "BRANDED", branded)
      ∷ (codes "EXCEPT", except)
      ∷ (codes "EXCEPTION", exception)
      ∷ (codes "FINALLY", finally)
      ∷ (codes "LOCK", lock)
      ∷ (codes "METHODS", methods)
      ∷ (codes "OBJECT", object)
      ∷ (codes "OVERRIDE", override)
      ∷ (codes "RAISE", raise)
      ∷ (codes "REF", ref_token)
      ∷ (codes "REFANY", refany)
      ∷ (codes "RETRY", retry)
      ∷ (codes "REVEAL", reveal)
      ∷ (codes "SAFE", safe)
      ∷ (codes "TRY", try)
      ∷ (codes "TYPECASE", typecase)
      ∷ (codes "UNSAFE", unsafe)
      ∷ []

  -- The first arm for the text.
  unfoldable pub find_arm : List (Text × TokenKind F) → Text → Option (TokenKind F)
  find_arm [] s = none
  find_arm ((word, kind) ∷ arms) s =
      let rest = find_arm arms s in if text_eq word s then some kind else rest

  unfoldable pub keyword_from_str : Text → Bool → Option (TokenKind F)
  keyword_from_str s m2plus = elim (find_arm pim_keywords s) [
    | some kind ↦ some kind
    | none ↦ if m2plus then find_arm m2plus_keywords s else none
  ]

  unfoldable pub describe : TokenKind F → Text
  describe (int_lit n) = codes "integer literal"
  describe (real_lit x) = codes "real literal"
  describe (string_lit s) = codes "string literal"
  describe (char_lit c) = codes "character literal"
  describe (ident s) = codes "identifier"
  describe and = codes "'AND'"
  describe array = codes "'ARRAY'"
  describe as_token = codes "'AS'"
  describe begin = codes "'BEGIN'"
  describe by = codes "'BY'"
  describe case_token = codes "'CASE'"
  describe const = codes "'CONST'"
  describe definition = codes "'DEFINITION'"
  describe div_token = codes "'DIV'"
  describe do_token = codes "'DO'"
  describe else_token = codes "'ELSE'"
  describe elsif = codes "'ELSIF'"
  describe end = codes "'END'"
  describe except = codes "'EXCEPT'"
  describe exit = codes "'EXIT'"
  describe export = codes "'EXPORT'"
  describe finally = codes "'FINALLY'"
  describe for = codes "'FOR'"
  describe from = codes "'FROM'"
  describe if_token = codes "'IF'"
  describe implementation = codes "'IMPLEMENTATION'"
  describe import_token = codes "'IMPORT'"
  describe in_token = codes "'IN'"
  describe loop = codes "'LOOP'"
  describe mod_token = codes "'MOD'"
  describe module_token = codes "'MODULE'"
  describe not_token = codes "'NOT'"
  describe of_token = codes "'OF'"
  describe or = codes "'OR'"
  describe pointer = codes "'POINTER'"
  describe procedure = codes "'PROCEDURE'"
  describe qualified = codes "'QUALIFIED'"
  describe raise = codes "'RAISE'"
  describe record_token = codes "'RECORD'"
  describe repeat = codes "'REPEAT'"
  describe retry = codes "'RETRY'"
  describe return_token = codes "'RETURN'"
  describe set_token = codes "'SET'"
  describe then_token = codes "'THEN'"
  describe to_token = codes "'TO'"
  describe type_token = codes "'TYPE'"
  describe until = codes "'UNTIL'"
  describe var = codes "'VAR'"
  describe while = codes "'WHILE'"
  describe with_token = codes "'WITH'"
  describe branded = codes "'BRANDED'"
  describe exception = codes "'EXCEPTION'"
  describe lock = codes "'LOCK'"
  describe methods = codes "'METHODS'"
  describe object = codes "'OBJECT'"
  describe override = codes "'OVERRIDE'"
  describe ref_token = codes "'REF'"
  describe refany = codes "'REFANY'"
  describe reveal = codes "'REVEAL'"
  describe safe = codes "'SAFE'"
  describe try = codes "'TRY'"
  describe typecase = codes "'TYPECASE'"
  describe unsafe = codes "'UNSAFE'"
  describe plus = codes "'+'"
  describe minus = codes "'-'"
  describe star = codes "'*'"
  describe slash = codes "'/'"
  describe assign = codes "':='"
  describe eq_token = codes "'='"
  describe hash = codes "'#'"
  describe not_eq = codes "'<>'"
  describe lt_token = codes "'<'"
  describe gt_token = codes "'>'"
  describe le = codes "'<='"
  describe ge = codes "'>='"
  describe dot_dot = codes "'..'"
  describe dot = codes "'.'"
  describe comma = codes "','"
  describe semi = codes "';'"
  describe colon = codes "':'"
  describe lparen = codes "'('"
  describe rparen = codes "')'"
  describe lbrack = codes "'['"
  describe rbrack = codes "']'"
  describe lbrace = codes "'{'"
  describe rbrace = codes "'}'"
  describe caret = codes "'^'"
  describe pipe = codes "'|'"
  describe ampersand = codes "'&'"
  describe tilde = codes "'~'"
  describe (pragma d arg) = codes "pragma"
  describe (doc_comment s) = codes "doc comment"
  describe eof = codes "end of file"
