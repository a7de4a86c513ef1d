-- ===== src/Errors.antt =====
-- The diagnostics of the compiler and their JSON (src/errors.rs).
pub mod Report
mod Tests
use mx.Common.{ℕ, ◌-◌, ◌^◌, ltb, Text, codes, ◌++◌, Option, none, some, [], ◌∷◌, if◌then◌else◌}
use mx.Common.Int.{ℤ, pos, negsuc}
use mx.Common.Decimal.{i64_to_string}
use mx.Json.{Json}
use mx.Json.Number.{Float}
use mx.Json.Write.{serialize}
use mx.Json.Access.{obj, str_val, int_val}
use mx.Symtab.{SourceLoc}

pub data ErrorKind : Type 0 where
  lexer parser semantic code_gen driver warning : ErrorKind

pub record CompileError : Type 0 where
  pub loc : SourceLoc
  pub message : Text
  pub kind : ErrorKind
  pub code : Option Text

unfoldable pub new : SourceLoc → Text → ErrorKind → CompileError
new loc message kind = record { loc = loc; message = message; kind = kind; code = none }

unfoldable pub warning_coded : SourceLoc → Text → Text → CompileError
unfolding new
warning_coded loc code msg = record (new loc msg warning) { code = some code }

unfoldable pub severity : ErrorKind → Text
severity warning = codes "warning"
severity _ = codes "error"

unfoldable pub kind_str : ErrorKind → Text
kind_str lexer = codes "lexer"
kind_str parser = codes "parser"
kind_str semantic = codes "semantic"
kind_str code_gen = codes "codegen"
kind_str driver = codes "driver"
kind_str warning = codes "warning"

-- `n as i64`, for a `usize` of 64 bits.
abbrev pub as_i64 : ℕ → ℤ
as_i64 n = if ltb n (2 ^ 63) then pos n else negsuc (2 ^ 64 - 1 - n)

-- The value that `to_json` builds.
unfoldable pub diagnostic : (fl : Float) → CompileError → Json fl.F
diagnostic fl e = obj (
    (codes "file", str_val e.loc.file)
    ∷ (codes "line", int_val fl (as_i64 e.loc.line))
    ∷ (codes "col", int_val fl (as_i64 e.loc.col))
    ∷ (codes "severity", str_val (severity e.kind))
    ∷ (codes "kind", str_val (kind_str e.kind))
    ∷ (codes "message", str_val e.message)
    ∷ [])

unfoldable pub to_json : Float → CompileError → Text
to_json fl e = serialize fl (diagnostic fl e)
