-- ===== src/Symtab.antt =====
-- src/symtab.rs: the symbols, the scopes and the table of scopes.
-- Names has the symbols of one scope, Change the methods that change the table, Search those that
-- look symbols up.
pub mod Names
pub mod Change
pub mod Search
pub mod Define
pub mod Valid
pub mod Keep
pub mod Calls
pub mod Resolve
pub mod Qualified
mod Tests
use mx.Common.{ℕ, Bool, Text, Option, List}
use mx.Common.Int.{ℤ}

-- src/errors.rs
pub record SourceLoc : Type 0 where
  pub file : Text
  pub line : ℕ
  pub col : ℕ

pub record ParamInfo : Type 0 where
  pub name : Text
  pub typ : ℕ
  pub is_var : Bool

-- A real is given by the bits of its `f64`, a set by its `u64`.
pub data ConstValue : Type 0 where
  integer : ℤ → ConstValue
  real : ℕ → ConstValue
  boolean : Bool → ConstValue
  char : ℕ → ConstValue
  string : Text → ConstValue
  set : ℕ → ConstValue
  nil : ConstValue

-- `procedure params return_type is_builtin`, `module_at scope_id`.
pub data SymbolKind : Type 0 where
  constant : ConstValue → SymbolKind
  variable : SymbolKind
  type : SymbolKind
  procedure : List ParamInfo → Option ℕ → Bool → SymbolKind
  module_at : ℕ → SymbolKind
  field : SymbolKind
  enum_variant : ℤ → SymbolKind

-- `module_name` is the field `module`.
pub record Symbol : Type 0 where
  pub name : Text
  pub kind : SymbolKind
  pub typ : ℕ
  pub exported : Bool
  pub module_name : Option Text
  pub loc : SourceLoc
  pub doc : Option Text
  pub is_var_param : Bool
  pub is_open_array : Bool

-- The map from names to symbols is the list of its entries, with one entry for a name.
pub record Scope : Type 0 where
  pub symbols : List (Text × Symbol)
  pub parent : Option ℕ
  pub name : Text

-- `stack` is `scope_stack` with its last element first.
pub record SymbolTable : Type 0 where
  pub scopes : List Scope
  pub stack : List ℕ
