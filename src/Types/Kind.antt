-- ===== src/Types/Kind.antt =====
-- The predicates of `Type` and `is_unsigned_type` (src/types.rs).
use mx.Common.{
  ℕ, zero, suc, ◌+◌, ◌==◌, length, Bool, true, false, ◌||◌, Option, none, some, if◌then◌else◌,
}
use mx.Types.{
  Ty, integer, cardinal, real, long_real, boolean, char, bitset, nil, word, byte, address, long_int,
  long_card, complex, long_complex, string_lit, pointer, set_of, enumeration, subrange, alias, ref,
  ref_any, object, error,
}
use mx.Common.Runs.{Run, done, out_of_fuel, ◌>>=◌, or_panic}
use mx.Types.Registry.{
  TypeRegistry, get, ty_cardinal, ty_longcard, ty_word, ty_byte, ty_address, ty_bitset, ty_char,
}

unfoldable pub is_ordinal : Ty → Bool
is_ordinal integer = true
is_ordinal cardinal = true
is_ordinal long_int = true
is_ordinal long_card = true
is_ordinal boolean = true
is_ordinal char = true
is_ordinal (enumeration n vs) = true
is_ordinal (subrange b lo hi) = true
is_ordinal _ = false

unfoldable pub is_numeric : Ty → Bool
is_numeric integer = true
is_numeric cardinal = true
is_numeric long_int = true
is_numeric long_card = true
is_numeric real = true
is_numeric long_real = true
is_numeric complex = true
is_numeric long_complex = true
is_numeric _ = false

unfoldable pub is_complex : Ty → Bool
is_complex complex = true
is_complex long_complex = true
is_complex _ = false

unfoldable pub is_integer_type : Ty → Bool
is_integer_type integer = true
is_integer_type cardinal = true
is_integer_type long_int = true
is_integer_type long_card = true
is_integer_type _ = false

unfoldable pub is_real_type : Ty → Bool
is_real_type real = true
is_real_type long_real = true
is_real_type _ = false

unfoldable pub is_pointer : Ty → Bool
is_pointer (pointer b) = true
is_pointer address = true
is_pointer nil = true
is_pointer (ref t b) = true
is_pointer ref_any = true
is_pointer _ = false

unfoldable pub is_ref : Ty → Bool
is_ref (ref t b) = true
is_ref ref_any = true
is_ref (object n p fs ms) = true
is_ref _ = false

unfoldable pub is_object : Ty → Bool
is_object (object n p fs ms) = true
is_object _ = false

unfoldable pub is_set : Ty → Bool
is_set (set_of b) = true
is_set bitset = true
is_set _ = false

unfoldable pub is_string_like : Ty → Bool
is_string_like (string_lit n) = true
is_string_like _ = false

unfoldable pub is_error : Ty → Bool
is_error error = true
is_error _ = false

-- The unsigned kinds of `is_unsigned_type`'s second match.
unfoldable pub unsigned_kind : Ty → Bool
unsigned_kind cardinal = true
unsigned_kind long_card = true
unsigned_kind word = true
unsigned_kind byte = true
unsigned_kind address = true
unsigned_kind bitset = true
unsigned_kind char = true
unsigned_kind (enumeration n vs) = true
unsigned_kind _ = false

unfoldable pub well_known_unsigned : ℕ → Bool
well_known_unsigned tid =
    tid == ty_cardinal
    || tid == ty_longcard
    || tid == ty_word
    || tid == ty_byte
    || tid == ty_address
    || tid == ty_bitset
    || tid == ty_char

-- What an alias or a subrange stands for.
unfoldable pub resolves_to : Ty → Option ℕ
resolves_to (alias n t) = some t
resolves_to (subrange b lo hi) = some b
resolves_to _ = none

unfoldable pub is_unsigned_fuel : ℕ → TypeRegistry → ℕ → Run Bool
is_unsigned_fuel zero reg tid = out_of_fuel
is_unsigned_fuel (suc f) reg tid =
    let next = (do
      t ← or_panic (get reg tid)
      elim (resolves_to t) [ some u ↦ is_unsigned_fuel f reg u | none ↦ done (unsigned_kind t) ]) in
    if well_known_unsigned tid then done true else next

-- The recursion follows aliases and subranges; where these make no cycle it visits every type at most
-- once.
unfoldable pub is_unsigned_type : TypeRegistry → ℕ → Run Bool
is_unsigned_type reg tid = is_unsigned_fuel (length reg + 1) reg tid
