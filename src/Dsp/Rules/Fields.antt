-- ===== src/Dsp/Rules/Fields.antt =====
-- dsp-ff-plugin/dsp_ff.cc, `load_rules`: what the fields of a line are read as, with the errors.
use yosys_quicklogic_plugins.Base.{
  ℕ, ◌+◌, ◌*◌, ◌-◌, ◌^◌, Option, none, some, List, [], ◌∷◌, Text, ltb, if◌then◌else◌,
}
use yosys_quicklogic_plugins.Base.Results.{Result, ok, err, ◌>>=◌}
use yosys_quicklogic_plugins.Dsp.Rules.{Bits, whole, range}
use yosys_quicklogic_plugins.Dsp.Rules.Tokens.{name_value, port_groups}

-- The reasons for which `log_error` ends the program, the exception of `std::stoi`, and
-- `log_assert`.
pub data Error : Type 0 where
  syntax_error : Error
  unexpected_keyword : Error
  invalid_port : Error
  int_range : Error
  duplicated_dsp : Error
  duplicated_flop : Error
  assertion_failed : Error

-- `parseNameValue`, behind the keyword
unfoldable pub parse_name_value : List Text → Result Error (List (Text × Text))
unfolding name_value
parse_name_value [] = ok []
parse_name_value (f ∷ fs) =
    let rest = parse_name_value fs in
    elim (name_value f) [
      | none ↦ err syntax_error
      | some pair ↦ elim rest [ ok pairs ↦ ok (pair ∷ pairs) | err e ↦ err e ]
    ]

-- The value of a run of digits, the first digit highest.
unfoldable pub number : ℕ → Text → ℕ
number n [] = n
number n (c ∷ s) = number (10 * n + (c - b'0')) s

-- `std::stoi` on digits, for an `int` of 32 bits
unfoldable pub stoi : Text → Result Error ℕ
unfolding number
stoi s = if ltb (number 0 s) (2 ^ 31) then ok (number 0 s) else err int_range

unfoldable pub port_of : Text → Option (Text × Text × Text) → Result Error (Text × Bits)
unfolding stoi
port_of s none = ok (s, whole)
port_of s (some (name, hi_digits, lo_digits)) = do
  hi ← stoi hi_digits
  lo ← stoi lo_digits
  if ltb hi lo then err invalid_port else ok (name, range lo hi)

-- `parsePortName`
unfoldable pub parse_port_name : Text → Result Error (Text × Bits)
unfolding port_groups port_of
parse_port_name s = port_of s (port_groups s)
