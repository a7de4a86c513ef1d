-- ===== src/Types/Compat.antt =====
-- `assignment_compatible` and `expression_compatible` (src/types.rs). Both recur along aliases and
-- subranges, and the first along the parameters of procedure types; the recursion takes fuel.
use mx.Common.{
  ℕ, zero, suc, ◌+◌, ◌*◌, ◌==◌, Bool, true, false, ◌&&◌, ◌||◌, Option, none, some, List, [], ◌∷◌,
  length,
}
use mx.Types.{
  Ty, ParamType, nil, address, string_lit, array, open_array, record_of, enumeration, subrange,
  procedure_type, opaque, alias, ref, ref_any,
}
use mx.Types.Kind.{
  is_ordinal, is_numeric, is_complex, is_integer_type, is_real_type, is_pointer, is_ref, is_set,
  is_string_like,
}
use mx.Types.Registry.{TypeRegistry, get, ty_char, ty_complex, ty_longcomplex, ty_error}
use mx.Common.Runs.{Run, done, out_of_fuel, ◌>>=◌, or_panic}

-- The patterns of `matches!` in the two functions.
unfoldable pub is_address : Ty → Bool
is_address address = true
is_address _ = false

unfoldable pub is_nil : Ty → Bool
is_nil nil = true
is_nil _ = false

unfoldable pub is_procedure : Ty → Bool
is_procedure (procedure_type ps r) = true
is_procedure _ = false

unfoldable pub is_opaque : Ty → Bool
is_opaque (opaque n m) = true
is_opaque _ = false

unfoldable pub is_ref_any : Ty → Bool
is_ref_any ref_any = true
is_ref_any _ = false

unfoldable pub is_ref_type : Ty → Bool
is_ref_type (ref t b) = true
is_ref_type _ = false

unfoldable pub is_enumeration : Ty → Bool
is_enumeration (enumeration n vs) = true
is_enumeration _ = false

unfoldable pub is_record : Ty → Bool
is_record (record_of fs v) = true
is_record _ = false

unfoldable pub is_array : Ty → Bool
is_array (array i e lo hi) = true
is_array _ = false

unfoldable pub is_open_array : Ty → Bool
is_open_array (open_array e) = true
is_open_array _ = false

-- An array, open or not, whose elements are of the type CHAR itself.
unfoldable pub is_char_array : Ty → Bool
is_char_array (array i e lo hi) = e == ty_char
is_char_array (open_array e) = e == ty_char
is_char_array _ = false

unfoldable pub is_short_string : Ty → Bool
is_short_string (string_lit n) = n == 0 || n == 1
is_short_string _ = false

-- The tests of `assignment_compatible` that return true without a recursion, in their order, down to
-- the array types.
unfoldable pub assignable : ℕ → ℕ → Ty → Ty → Bool
assignable dst src dt st =
    (is_integer_type dt && is_integer_type st)
    || (is_address dt && is_integer_type st)
    || (is_integer_type dt && is_address st)
    || (is_real_type dt && is_numeric st)
    || (is_complex dt && is_numeric st)
    || (dst == ty_longcomplex && src == ty_complex)
    || ((is_pointer dt || is_procedure dt) && is_nil st)
    || (is_pointer dt && is_pointer st)
    || (is_opaque dt && (is_nil st || is_pointer st))
    || (is_pointer dt && is_opaque st)
    || (is_ref_any dt && is_ref st)
    || (is_ref_type dt && is_ref_any st)
    || (is_string_like dt && is_string_like st)
    || (is_char_array dt && is_string_like st)
    || (dst == ty_char && is_short_string st)
    || (is_enumeration dt && (is_integer_type st || is_enumeration st))
    || (is_integer_type dt && is_enumeration st)
    || (is_ordinal dt && is_ordinal st)
    || (is_set dt && is_set st)
    || (is_record dt && is_record st)
    || (is_array dt && (is_array st || is_open_array st))
    || (is_open_array dt && (is_array st || is_open_array st))

-- `a && b` where `b` may panic or not end.
abbrev pub and_then : Bool → Run Bool → Run Bool
and_then true r = r
and_then false r = done false

abbrev pub or_else : Bool → Run Bool → Run Bool
or_else true r = done true
or_else false r = r

abbrev pub same_bool : Bool → Bool → Bool
same_bool true b = b
same_bool false true = false
same_bool false false = true

-- `zip(..).all(..)`, where `go` is the recursive call.
unfoldable pub zip_all : (ℕ → ℕ → Run Bool) → List ParamType → List ParamType → Run Bool
zip_all go [] bs = done true
zip_all go (a ∷ ps) [] = done true
zip_all go (a ∷ ps) (b ∷ bs) =
    let rest = zip_all go ps bs in
    and_then (same_bool a.is_var b.is_var)
      (do same ← or_else (a.typ == b.typ) (go a.typ b.typ); and_then same rest)

unfoldable pub params_match : (ℕ → ℕ → Run Bool) → List ParamType → List ParamType → Run Bool
params_match go dp sp = and_then (length dp == length sp) (zip_all go dp sp)

unfoldable pub returns_match : (ℕ → ℕ → Run Bool) → Option ℕ → Option ℕ → Run Bool
returns_match go none none = done true
returns_match go (some d) (some s) = or_else (d == s) (go d s)
returns_match go none (some s) = done false
returns_match go (some d) none = done false

-- Procedure types are compared part by part; both parts are computed.
unfoldable pub procedures_match : (ℕ → ℕ → Run Bool) → Ty → Ty → Run Bool
procedures_match go (procedure_type dp dr) (procedure_type sp sr) = do
  params ← params_match go dp sp
  returns ← returns_match go dr sr
  done (params && returns)
procedures_match go (procedure_type dp dr) _ = done false
procedures_match go _ _ = done false

-- The types that `Type::Alias` and `Type::Subrange` stand for.
unfoldable pub alias_target : Ty → Option ℕ
alias_target (alias n t) = some t
alias_target _ = none

unfoldable pub subrange_base : Ty → Option ℕ
subrange_base (subrange b lo hi) = some b
subrange_base _ = none

-- The end of both functions: an alias, then a subrange, is replaced, first on the left.
unfoldable pub resolve : (ℕ → ℕ → Run Bool) → ℕ → ℕ → Ty → Ty → Run Bool
resolve go a b ta tb = elim (alias_target ta) [
  | some t ↦ go t b
  | none ↦ elim (alias_target tb) [
    | some t ↦ go a t
    | none ↦ elim (subrange_base ta) [
      | some t ↦ go t b
      | none ↦ elim (subrange_base tb) [ some t ↦ go a t | none ↦ done false ]
    ]
  ]
]

-- One call of `assignment_compatible` behind its first two tests.
unfoldable pub assign_types : (ℕ → ℕ → Run Bool) → ℕ → ℕ → Ty → Ty → Run Bool
assign_types go dst src dt st =
    or_else (assignable dst src dt st)
      (do same ← procedures_match go dt st; or_else same (resolve go dst src dt st))

unfoldable pub assign_fuel : ℕ → TypeRegistry → ℕ → ℕ → Run Bool
assign_fuel zero reg dst src = out_of_fuel
assign_fuel (suc f) reg dst src = or_else (dst == src) (
    or_else (dst == ty_error || src == ty_error) (do
      dt ← or_panic (get reg dst)
      st ← or_panic (get reg src)
      assign_types (assign_fuel f reg) dst src dt st))

-- Where no type refers to itself, a call follows references on two sides, at most as many on each as
-- there are types.
abbrev pub enough_fuel : TypeRegistry → ℕ
enough_fuel reg = 2 * length reg + 1

unfoldable pub assignment_compatible : TypeRegistry → ℕ → ℕ → Run Bool
assignment_compatible reg dst src = assign_fuel (enough_fuel reg) reg dst src

-- The tests of `expression_compatible` on the two types.
unfoldable pub mixes : Ty → Ty → Bool
mixes ty1 ty2 =
    (is_numeric ty1 && is_numeric ty2)
    || (is_address ty1 && is_integer_type ty2)
    || (is_integer_type ty1 && is_address ty2)
    || (is_address ty1 && is_address ty2)
    || (is_set ty1 && is_set ty2)

unfoldable pub express_fuel : ℕ → TypeRegistry → ℕ → ℕ → Run Bool
express_fuel zero reg t1 t2 = out_of_fuel
express_fuel (suc f) reg t1 t2 = or_else (t1 == t2) (
    or_else (t1 == ty_error || t2 == ty_error) (do
      ty1 ← or_panic (get reg t1)
      ty2 ← or_panic (get reg t2)
      or_else (mixes ty1 ty2) (resolve (express_fuel f reg) t1 t2 ty1 ty2)))

unfoldable pub expression_compatible : TypeRegistry → ℕ → ℕ → Run Bool
expression_compatible reg t1 t2 = express_fuel (enough_fuel reg) reg t1 t2
