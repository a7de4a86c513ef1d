-- ===== src/Types/Cycle.antt =====
-- Two aliases that stand for each other (src/types.rs): the recursion of the check does not end there.
use mx.Common.{
  ℕ, zero, suc, ◌==◌, ◌≡◌, refl, false, Text, some, Bool-cases, inl, inr, ==_iff, some_inj, sym,
  ◌∙◌, ◌≢◌,
}
use mx.Common.Runs.{out_of_fuel}
use mx.Types.{Ty, alias, integer, error, char, long_complex}
use mx.Types.Registry.{
  TypeRegistry, get, ty_integer, ty_error, ty_char, ty_longcomplex, HasBuiltins,
}
use mx.Types.Compat.{
  assign_fuel, assign_types, assignable, procedures_match, resolve, alias_target, is_address,
  is_procedure, is_nil, is_opaque, is_ref_any, is_ref_type, is_char_array, is_short_string,
  is_enumeration, is_record, is_array, is_open_array,
}
use mx.Types.Kind.{
  is_integer_type, is_real_type, is_complex, is_pointer, is_string_like, is_ordinal, is_set,
}

-- A number whose type is an alias is none of the well-known numbers.
alias-ne :
    (reg : TypeRegistry) (a b c : ℕ) (n : Text) (k : Ty)
    → get reg a ≡ some (alias n b)
    → get reg c ≡ some k
    → (alias n b ≢ k)
    → (a == c) ≡ false
alias-ne reg a b c n k h g d = elim (Bool-cases (a == c)) [
  | inl same ↦ absurd (d (some_inj (sym h ∙ rw ((==_iff a c).0 same) g)))
  | inr other ↦ other
]

module _ (reg : TypeRegistry) (v : HasBuiltins reg)
    (at_integer : get reg ty_integer ≡ some integer) where
  -- If two types of a registry with the built-in types are aliases of each other, comparing either with INTEGER runs
  -- out of every amount of fuel: the recursion of the code does not end.
  pub assign_fuel-cycle :
      (f a b : ℕ) (n m : Text)
      → get reg a ≡ some (alias n b)
      → get reg b ≡ some (alias m a)
      → assign_fuel f reg a ty_integer ≡ out_of_fuel
  unfolding assign_fuel assign_types assignable procedures_match resolve alias_target
      is_integer_type is_address is_real_type is_complex is_pointer is_procedure is_nil is_opaque
      is_ref_any is_ref_type is_string_like is_char_array is_short_string is_enumeration is_ordinal
      is_set is_record is_array is_open_array
  assign_fuel-cycle zero a b n m h k = refl
  assign_fuel-cycle (suc f) a b n m h k =
      let ih = assign_fuel-cycle f b a m n k h in
      rw
        (
          alias-ne reg a b ty_integer n integer h at_integer (λ e. cc),
          alias-ne reg a b ty_error n error h v.error_at (λ e. cc),
          h,
          at_integer,
          assign_types,
          assignable,
          alias-ne reg a b ty_longcomplex n long_complex h v.longcomplex_at (λ e. cc),
          alias-ne reg a b ty_char n char h v.char_at (λ e. cc),
        )
        ih
