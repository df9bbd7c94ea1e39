-- ===== src/Eqn.antt =====
-- ql-qlf-plugin/quicklogic_eqn.cc: the equation of a lookup table from its INIT parameter.
-- `Const::as_string` gives the bits of INIT, the highest first.
pub mod Scan
pub mod Correct
use yosys_quicklogic_plugins.Base.{
  ℕ, zero, suc, ◌+◌, ◌-◌, ◌/◌, ◌%◌, ◌^◌, Bool, true, false, Option, none, some, List, [], ◌∷◌, ◌++◌,
  Text, codes, text_eq, get_elem?, ◌==◌, if◌then◌else◌,
}

-- `names[j]`, "I0" to "I4"
abbrev pub input_name : ℕ → Text
input_name j = b'I' ∷ (b'0' + j) ∷ []

-- `i & (1 << j)`
abbrev pub has_bit : ℕ → ℕ → Bool
has_bit i j = i / 2 ^ j % 2 == 1

abbrev pub literal : ℕ → ℕ → Text
literal i j = if has_bit i j then input_name j else b'~' ∷ input_name j

-- The loop over `j`, with the rounds that are left.
unfoldable pub literals : ℕ → ℕ → ℕ → ℕ → Text
literals inputs i zero j = []
literals inputs i (suc rounds) j =
    literal i j ++ ((if j == inputs - 1 then [] else codes "*") ++ literals inputs i rounds (j + 1))

abbrev pub term : ℕ → ℕ → Text
term inputs i = b'(' ∷ (literals inputs i inputs 0 ++ codes ")+")

-- `init_bits[k] == '1'`. Past its end the text holds no '1'.
abbrev pub is_one : Text → ℕ → Bool
is_one init_bits k = elim (get_elem? init_bits k) [ none ↦ false | some c ↦ c == b'1' ]

-- The loop over `i`, with the rounds that are left.
unfoldable pub terms : Text → ℕ → ℕ → ℕ → Text → Text
terms init_bits inputs zero i eqn = eqn
terms init_bits inputs (suc rounds) i eqn =
    terms init_bits inputs rounds (i + 1)
      (if is_one init_bits (2 ^ inputs - 1 - i) then eqn ++ term inputs i else eqn)

-- `eqn.substr(0, eqn.length() - 1)`
unfoldable pub drop_last : Text → Text
drop_last [] = []
drop_last (c ∷ []) = []
drop_last (c ∷ d ∷ s) = c ∷ drop_last (d ∷ s)

abbrev pub finish : Text → Text
finish [] = codes "0"
finish (c ∷ s) = drop_last (c ∷ s)

unfoldable pub init2eqn : Text → ℕ → Text
init2eqn init_bits inputs = finish (terms init_bits inputs (2 ^ inputs) 0 [])

-- The types that the pass handles, and their inputs.
unfoldable pub lut_inputs : Text → Option ℕ
lut_inputs type =
    if text_eq type (codes "LUT1")
    then some 1
    else if text_eq type (codes "LUT2")
    then some 2
    else if text_eq type (codes "LUT3")
    then some 3
    else if text_eq type (codes "LUT4")
    then some 4
    else if text_eq type (codes "LUT5")
    then some 5
    else none

pub record LutCell : Type 0 where
  pub name : Text
  pub type : Text
  pub init : Text

-- The loop over the cells: the EQN parameters that are set, and `cnt`.
unfoldable pub calculate : List LutCell → List (Text × Text) → ℕ → List (Text × Text) × ℕ
calculate [] set cnt = (set, cnt)
calculate (c ∷ cs) set cnt = elim (lut_inputs c.type) [
  | none ↦ calculate cs set cnt
  | some inputs ↦ calculate cs (set ++ (c.name, init2eqn c.init inputs) ∷ []) (cnt + 1)
]
