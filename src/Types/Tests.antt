-- ===== src/Types/Tests.antt =====
-- Runs of the compatibility checks on a registry with user types.
use mx.Common.{codes, Bool, ◌≡◌, refl, arith}
use mx.Common.Int.{pos}
use mx.Common.Runs.{done}
use mx.Types.Root.{
  root_here, root_step, roots_agree, expression_compatible-Root, expression_compatible_comm,
}
use mx.Types.Kind.{resolves_to}
use mx.Types.Cycle.{assign_fuel-cycle}
use mx.Common.Runs.{out_of_fuel}
use mx.Types.{alias, subrange, integer, cardinal}
use mx.Types.Registry.{TypeRegistry, new, register, HasBuiltins}
use mx.Types.Compat.{assign_fuel, assignment_compatible, expression_compatible}
use mx.Types.Acyclic.{IsAcyclic, InOrder-IsAcyclic, compatible-ends}

-- `TYPE Small = [0..9]; Age = Small;` in a new registry.
abbrev user_types : TypeRegistry
user_types = (register (register new (subrange 0 (pos 0) (pos 9))).0 (alias (codes "Small") 20)).0

user_types-IsAcyclic : IsAcyclic user_types (λ t. t)
unfolding new register
user_types-IsAcyclic = InOrder-IsAcyclic user_types (
  tt,
  (
    tt,
    (
      tt,
      (
        tt,
        (
          tt,
          (
            tt,
            (
              tt,
              (
                tt,
                (
                  tt,
                  (
                    tt,
                    (
                      tt,
                      (
                        tt,
                        (
                          tt,
                          (
                            tt,
                            (
                              tt,
                              (tt, (tt, (tt, ((tt, tt), (tt, (omega arith, (omega arith, tt))))))),
                            ),
                          ),
                        ),
                      ),
                    ),
                  ),
                ),
              ),
            ),
          ),
        ),
      ),
    ),
  ),
)

compatible-ends_example :
    ((b : Bool) × (assignment_compatible user_types 21 0 ≡ done b))
    × ((b : Bool) × (expression_compatible user_types 21 0 ≡ done b))
unfolding new register
compatible-ends_example =
    compatible-ends user_types (λ t. t) user_types-IsAcyclic 21 0 (omega arith) (omega arith)

expression_compatible-Root_example :
    expression_compatible user_types 21 1 ≡ done (roots_agree 0 integer 1 cardinal)
unfolding new register resolves_to
expression_compatible-Root_example =
    expression_compatible-Root user_types (λ t. t) user_types-IsAcyclic refl 21 1 0 1 integer
      cardinal (omega arith) (omega arith)
      (root_step 21 20 0 (alias (codes "Small") 20) integer refl refl (
        root_step 20 0 0 (subrange 0 (pos 0) (pos 9)) integer refl refl
          (root_here 0 integer refl refl)))
      (root_here 1 cardinal refl refl)

expression_compatible_comm_example :
    expression_compatible user_types 21 1 ≡ expression_compatible user_types 1 21
unfolding new register
expression_compatible_comm_example =
    expression_compatible_comm user_types (λ t. t) user_types-IsAcyclic refl 21 1 (omega arith)
      (omega arith)

-- `TYPE A = B; B = A;`
abbrev cycle : TypeRegistry
cycle = (register (register new (alias (codes "A") 21)).0 (alias (codes "B") 20)).0

cycle-HasBuiltins : HasBuiltins cycle
unfolding new register
cycle-HasBuiltins = record {
  cardinal_at = refl;
  char_at = refl;
  bitset_at = refl;
  word_at = refl;
  byte_at = refl;
  address_at = refl;
  longcard_at = refl;
  complex_at = refl;
  longcomplex_at = refl;
  error_at = refl;
}

assign_fuel-cycle_example : assign_fuel 100 cycle 20 0 ≡ out_of_fuel
unfolding new register
assign_fuel-cycle_example =
    assign_fuel-cycle cycle cycle-HasBuiltins refl 100 20 21 (codes "A") (codes "B") refl refl
