-- ===== src/Types/Registry.antt =====
-- `TypeRegistry` and the well-known numbers (src/types.rs).
use mx.Common.{ℕ, ◌≡◌, refl, Option, none, some, List, [], ◌∷◌, ◌++◌, length, get_elem?}
use mx.Types.{
  Ty, integer, cardinal, real, long_real, boolean, char, bitset, void, nil, word, byte, address,
  long_int, long_card, complex, long_complex, string_lit, procedure_type, ref_any, error,
}

abbrev pub TypeRegistry : Type 0
TypeRegistry = List Ty

abbrev pub ty_integer : ℕ
ty_integer = 0

abbrev pub ty_cardinal : ℕ
ty_cardinal = 1

abbrev pub ty_boolean : ℕ
ty_boolean = 4

abbrev pub ty_char : ℕ
ty_char = 5

abbrev pub ty_bitset : ℕ
ty_bitset = 6

abbrev pub ty_word : ℕ
ty_word = 10

abbrev pub ty_byte : ℕ
ty_byte = 11

abbrev pub ty_address : ℕ
ty_address = 12

abbrev pub ty_longcard : ℕ
ty_longcard = 14

abbrev pub ty_complex : ℕ
ty_complex = 15

abbrev pub ty_longcomplex : ℕ
ty_longcomplex = 16

abbrev pub ty_error : ℕ
ty_error = 19

unfoldable pub register : TypeRegistry → Ty → TypeRegistry × ℕ
register reg typ = (reg ++ typ ∷ [], length reg)

-- The calls of `register` in `TypeRegistry::new`, in their order.
abbrev builtins : List Ty
builtins =
    integer
    ∷ cardinal
    ∷ real
    ∷ long_real
    ∷ boolean
    ∷ char
    ∷ bitset
    ∷ void
    ∷ nil
    ∷ string_lit 0
    ∷ word
    ∷ byte
    ∷ address
    ∷ long_int
    ∷ long_card
    ∷ complex
    ∷ long_complex
    ∷ ref_any
    ∷ procedure_type [] none
    ∷ error
    ∷ []

register_all : TypeRegistry → List Ty → TypeRegistry
register_all reg [] = reg
register_all reg (t ∷ ts) = register_all (register reg t).0 ts

unfoldable pub new : TypeRegistry
unfolding register_all register
new = register_all [] builtins

-- `get`: out of range it panics.
abbrev pub get : TypeRegistry → ℕ → Option Ty
get reg id = get_elem? reg id

-- A registry in which the well-known numbers that the checks compare with name their types.
pub record HasBuiltins (reg : TypeRegistry) : Type 0 where
  pub cardinal_at : get reg ty_cardinal ≡ some cardinal
  pub char_at : get reg ty_char ≡ some char
  pub bitset_at : get reg ty_bitset ≡ some bitset
  pub word_at : get reg ty_word ≡ some word
  pub byte_at : get reg ty_byte ≡ some byte
  pub address_at : get reg ty_address ≡ some address
  pub longcard_at : get reg ty_longcard ≡ some long_card
  pub complex_at : get reg ty_complex ≡ some complex
  pub longcomplex_at : get reg ty_longcomplex ≡ some long_complex
  pub error_at : get reg ty_error ≡ some error

pub new-HasBuiltins : HasBuiltins new
unfolding new
new-HasBuiltins = record {
  cardinal_at = refl;
  char_at = refl;
  bitset_at = refl;
  word_at = refl;
  byte_at = refl;
  address_at = refl;
  longcard_at = refl;
  complex_at = refl;
  longcomplex_at = refl;
  error_at = refl;
}
