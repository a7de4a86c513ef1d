-- ===== src/Errors/Tests.antt =====
-- Runs of the diagnostics.
use mx.Common.{[], codes, ◌≡◌, refl, some, none, ok, Text}
use mx.Common.Decimal.{i64_to_string}
use mx.Json.{Json}
use mx.Json.TextFloat.{text_float}
use mx.Json.Parse.{parse}
use mx.Json.Access.{as_str_or, integer_at}
use mx.Errors.{CompileError, driver, severity, kind_str, as_i64, to_json}
use mx.Errors.Report.{IsPlain, to_json-reads}

-- `CompileError::driver("no input\nfile")`.
abbrev no_input : CompileError
no_input = record {
  loc = record { file = codes "<driver>"; line = 0; col = 0 };
  message = codes "no input\nfile";
  kind = driver;
  code = none;
}

no_input-IsPlain : IsPlain text_float no_input
unfolding i64_to_string
no_input-IsPlain = record {
  file_clean = refl;
  message_clean = refl;
  line_finite = refl;
  col_finite = refl;
  line_exact = refl;
  col_exact = refl;
}

to_json-reads_example :
    (v : Json Text) × ((parse text_float (to_json text_float no_input) ≡ ok v)
      × (as_str_or v (codes "file") [] ≡ codes "<driver>")
      × (integer_at text_float v (codes "line") ≡ some (as_i64 0))
      × (integer_at text_float v (codes "col") ≡ some (as_i64 0))
      × (as_str_or v (codes "severity") [] ≡ severity driver)
      × (as_str_or v (codes "kind") [] ≡ kind_str driver)
      × (as_str_or v (codes "message") [] ≡ codes "no input\nfile"))
to_json-reads_example = to_json-reads text_float no_input no_input-IsPlain
