-- ===== src/Errors/Report.antt =====
-- What a client reads from the JSON of a diagnostic (src/errors.rs, src/json.rs).
use mx.Common.{
  [], ◌≡◌, refl, ap, ◌∙◌, true, false, Bool, ◌&&◌, all, codes, text_eq, some, ok, if◌then◌else◌,
}
use mx.Common.Int.{ℤ}
use mx.Json.{Json}
use mx.Json.Number.{Float}
use mx.Json.Parse.{parse}
use mx.Json.Escapes.{is_clean, reread, reread_chars, reread-clean}
use mx.Json.Lexemes.{reread_number}
use mx.Json.Reread.{finite, reread_value}
use mx.Json.RoundTrip.{parse-serialize}
use mx.Json.Access.{obj, str_val, int_val, get_field, get, as_str_or, as_str, integer_at, as_i64}
use mx.Errors.{
  CompileError, ErrorKind, lexer, parser, semantic, code_gen, driver, warning, severity, kind_str,
  diagnostic, to_json,
}
use mx.Errors

same_branches : {A : Type 0} {x y : A} (b : Bool) → x ≡ y → (if b then x else y) ≡ y
same_branches true e = e
same_branches false e = refl

-- A number that stands for an integer is read back as that integer.
module _ (fl : Float) (i : ℤ) (exact : fl.to_i64 (fl.of_i64 i) ≡ i) where
  reread_number-of_i64 : reread_number fl (fl.of_i64 i) ≡ fl.of_i64 i
  unfolding reread_number
  reread_number-of_i64 =
      same_branches
        (fl.eq (fl.of_i64 i) (fl.of_i64 (fl.to_i64 (fl.of_i64 i))) && fl.is_finite (fl.of_i64 i))
        (ap fl.of_i64 exact)

severity_lem : (k : ErrorKind) → reread_chars (severity k) ≡ severity k
unfolding severity reread_chars reread
severity_lem lexer = refl
severity_lem parser = refl
severity_lem semantic = refl
severity_lem code_gen = refl
severity_lem driver = refl
severity_lem warning = refl

kind_str_lem : (k : ErrorKind) → reread_chars (kind_str k) ≡ kind_str k
unfolding kind_str reread_chars reread
kind_str_lem lexer = refl
kind_str_lem parser = refl
kind_str_lem semantic = refl
kind_str_lem code_gen = refl
kind_str_lem driver = refl
kind_str_lem warning = refl

-- A diagnostic that the JSON text keeps: clean texts, and numbers that `f64` has.
pub record IsPlain (fl : Float) (e : CompileError) : Type 0 where
  pub file_clean : all is_clean e.loc.file ≡ true
  pub message_clean : all is_clean e.message ≡ true
  pub line_finite : fl.is_finite (fl.of_i64 (Errors.as_i64 e.loc.line)) ≡ true
  pub col_finite : fl.is_finite (fl.of_i64 (Errors.as_i64 e.loc.col)) ≡ true
  pub line_exact : fl.to_i64 (fl.of_i64 (Errors.as_i64 e.loc.line)) ≡ Errors.as_i64 e.loc.line
  pub col_exact : fl.to_i64 (fl.of_i64 (Errors.as_i64 e.loc.col)) ≡ Errors.as_i64 e.loc.col

module _ (fl : Float) (e : CompileError) (plain : IsPlain fl e) where
  diagnostic-reread : reread_value fl (diagnostic fl e) ≡ diagnostic fl e
  unfolding reread_value diagnostic obj str_val int_val reread_chars reread
  diagnostic-reread =
      rw
        (
          reread-clean e.loc.file plain.file_clean,
          reread-clean e.message plain.message_clean,
          reread_number-of_i64 fl (Errors.as_i64 e.loc.line) plain.line_exact,
          reread_number-of_i64 fl (Errors.as_i64 e.loc.col) plain.col_exact,
          severity_lem e.kind,
          kind_str_lem e.kind,
        )
        refl

  diagnostic-finite : finite fl (diagnostic fl e) ≡ true
  unfolding finite diagnostic obj str_val int_val
  diagnostic-finite = rw (plain.line_finite, plain.col_finite) refl

  -- Parsing the JSON text of a diagnostic succeeds, and the accessors find in the value the file, the
  -- line, the column and the message of the diagnostic, its severity and its kind, where the file and
  -- the message have no control characters but newlines and tabs, and the line and the column are
  -- numbers that f64 holds exactly.
  pub to_json-reads :
      (v : Json fl.F) × ((parse fl (to_json fl e) ≡ ok v)
        × (as_str_or v (codes "file") [] ≡ e.loc.file)
        × (integer_at fl v (codes "line") ≡ some (Errors.as_i64 e.loc.line))
        × (integer_at fl v (codes "col") ≡ some (Errors.as_i64 e.loc.col))
        × (as_str_or v (codes "severity") [] ≡ severity e.kind)
        × (as_str_or v (codes "kind") [] ≡ kind_str e.kind)
        × (as_str_or v (codes "message") [] ≡ e.message))
  unfolding to_json diagnostic obj str_val int_val as_str_or integer_at get get_field as_str as_i64
      text_eq
  to_json-reads = (
    diagnostic fl e,
    (
      parse-serialize fl (diagnostic fl e) diagnostic-finite ∙ ap ok diagnostic-reread,
      refl,
      ap some plain.line_exact,
      ap some plain.col_exact,
      refl,
      refl,
      refl,
    ),
  )
