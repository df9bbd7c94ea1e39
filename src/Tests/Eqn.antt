-- ===== src/Tests/Eqn.antt =====
-- quicklogic_eqn.cc on small tables.
use yosys_quicklogic_plugins.Base.{
  ℕ, ◌-◌, ◌^◌, ◌≡◌, refl, Bool, none, some, codes, Text, arith, ◌==◌,
}
use yosys_quicklogic_plugins.Eqn.{init2eqn, is_one, literals, terms, drop_last}
use yosys_quicklogic_plugins.Eqn.Scan.{value, read}
use yosys_quicklogic_plugins.Eqn.Correct.{row, value-init2eqn-row}

abbrev second_only : ℕ → Bool
second_only j = j == 1

-- the table of `I0 xor I1`
abbrev xor_table : Text
xor_table = codes "0110"

xor_equation : init2eqn xor_table 2 ≡ codes "(I0*~I1)+(~I0*I1)"
unfolding init2eqn terms literals drop_last
xor_equation = refl

empty_equation : init2eqn (codes "00") 1 ≡ codes "0"
unfolding init2eqn terms literals
empty_equation = refl

-- Texts that are no equations are refused.
unstarred : value second_only (codes "(I0~I1)") ≡ none
unfolding value read
unstarred = refl

unfinished : value second_only (codes "(I0*I1*)+(I0)") ≡ none
unfolding value read
unfinished = refl

value-init2eqn-row_example :
    value second_only (init2eqn xor_table 2)
    ≡ some (is_one xor_table (2 ^ 2 - 1 - row second_only 2 0))
value-init2eqn-row_example = value-init2eqn-row second_only xor_table 2 (omega arith) (omega arith)
