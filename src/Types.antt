-- ===== src/Types.antt =====
-- src/types.rs: the types of the compiler, and the registry that numbers them.
-- Kind has the predicates on one type, Compat the compatibility of two.
pub mod Registry
pub mod Kind
pub mod Compat
pub mod Acyclic
pub mod Root
pub mod Cycle
mod Tests
use mx.Common.{ℕ, Bool, Text, Option, List}
use mx.Common.Int.{ℤ}

-- A `TypeId` is a number.
pub record ParamType : Type 0 where
  pub is_var : Bool
  pub typ : ℕ

pub record ObjectMethod : Type 0 where
  pub name : Text
  pub params : List ParamType
  pub return_type : Option ℕ

pub record RecordField : Type 0 where
  pub name : Text
  pub typ : ℕ
  pub type_name : Text
  pub offset : ℕ

pub record VariantCase : Type 0 where
  pub labels : List ℤ
  pub fields : List RecordField

pub record VariantInfo : Type 0 where
  pub tag_name : Option Text
  pub tag_type : ℕ
  pub variants : List VariantCase

-- The enum `Type`. `array index_type elem_type low high`, `subrange base low high`,
-- `object name parent fields methods`; the others have their fields in the source's order.
pub data Ty : Type 0 where
  integer cardinal real long_real boolean char bitset void nil : Ty
  word byte address long_int long_card complex long_complex : Ty
  string_lit : ℕ → Ty
  array : ℕ → ℕ → ℤ → ℤ → Ty
  open_array : ℕ → Ty
  record_of : List RecordField → Option VariantInfo → Ty
  pointer : ℕ → Ty
  set_of : ℕ → Ty
  enumeration : Text → List Text → Ty
  subrange : ℕ → ℤ → ℤ → Ty
  procedure_type : List ParamType → Option ℕ → Ty
  opaque : Text → Text → Ty
  alias : Text → ℕ → Ty
  ref : ℕ → Option Text → Ty
  ref_any : Ty
  object : Text → Option ℕ → List RecordField → List ObjectMethod → Ty
  exception : Text → Ty
  error : Ty
