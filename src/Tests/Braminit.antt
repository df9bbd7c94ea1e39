-- ===== src/Tests/Braminit.antt =====
-- A cell of two words of 8 bits, whose file has a comment, an address and two words.
use mathlib.Core.Path.{subst}
use yosys_quicklogic_plugins.Base.{
  ℕ, ◌+◌, ◌-◌, ◌*◌, ◌≤◌, ◌≡◌, refl, Bool, true, false, ◌&&◌, Option, none, some, [], ◌∷◌, Text,
  codes, text_eq, leb, span, arith, if◌then◌else◌,
}
use yosys_quicklogic_plugins.Base.Results.{Result, ok, err, Returns}
use yosys_quicklogic_plugins.Base.Chars.{is_space}
use yosys_quicklogic_plugins.Rtlil.{Netlist}
use yosys_quicklogic_plugins.Braminit.{
  Error, init_text, init_cell, rounds, init_key, file_key, width_key, depth_key,
}
use yosys_quicklogic_plugins.Braminit.Bounds.{IsInBounds, Fits, init_cell-IsInBounds}
use yosys_quicklogic_plugins.Braminit.Image.{read_words, init_text-read_words}

-- `RTLIL::Const` of a text or a number.
data Const : Type 0 where
  text : Text → Const
  number : ℕ → Const

record Design : Type 0 where
  params : Text → Option Const

abbrev netlist : Netlist Design Const
netlist = record {
  cells = λ m. codes "\\ram" ∷ [];
  wires = λ m. [];
  wire_offset = λ w m. 0;
  wire_width = λ w m. 1;
  port_input = λ w m. false;
  port_output = λ w m. false;
  module_connections = λ m. [];
  cell_type = λ c m. codes "\\RAM_8K_BLK";
  input = λ c p m. false;
  output = λ c p m. false;
  connections = λ c m. [];
  get_port = λ c p m. none;
  set_port = λ c p bits m. m;
  own_param = λ c k m. m.params k;
  default_param = λ type k. none;
  set_param = λ c k w m. record { params = λ l. if text_eq k l then some w else m.params l };
  unset_param = λ c k m. record { params = λ l. if text_eq k l then none else m.params l };
  remove = λ c m. m;
}

abbrev decode_string : Const → Text
decode_string (text s) = s
decode_string (number i) = []

abbrev as_int : Const → ℕ
as_int (text s) = 0
as_int (number i) = i

unfoldable next_token : Text → Text × Text
unfolding span
next_token s = span (λ c. if is_space c then false else true) (span is_space s).1

abbrev is_hex : ℕ → Bool
is_hex c = leb b'0' c && leb c b'9'

unfoldable value_from : ℕ → Text → ℕ × Text
value_from x [] = (x, [])
value_from x (c ∷ s) = if is_hex c then value_from (16 * x + (c - b'0')) s else (x, c ∷ s)

unfoldable strtol : Text → ℕ × Text
unfolding value_from
strtol s = value_from 0 s

abbrev content : Text
content = codes "/* two words */ @1 2\n@0 1 // end"

abbrev design : Design
design = record {
  params = λ k.
      if text_eq k file_key
      then some (text (codes "init.hex"))
      else if text_eq k width_key
      then some (number 8)
      else if text_eq k depth_key
      then some (number 2)
      else none;
}

abbrev after : Result Error Design
after =
    init_cell next_token strtol netlist decode_string as_int text (λ f. some content)
      (codes "\\ram") design

abbrev init_of : Result Error Design → Option Const
init_of (ok m) = m.params init_key
init_of (err e) = none

initializes : init_of after ≡ some (text (codes "0000001000000001"))
unfolding init_cell text_eq next_token strtol
initializes = refl

abbrev const_of : Result Error Const → Const
const_of (ok d) = d
const_of (err e) = number 0

design-Fits :
    Fits next_token strtol netlist decode_string as_int text
      (λ f. some content)
      (codes "\\ram")
      design
unfolding text_eq
design-Fits d e = subst (λ r. rounds (as_int (const_of r)) ≤ 2048) e (omega arith)

init_cell-IsInBounds_example :
    IsInBounds next_token strtol netlist decode_string as_int text
      (λ f. some content)
      (init_cell next_token strtol netlist decode_string as_int text
        (λ f. some content)
        (codes "\\ram")
        design)
init_cell-IsInBounds_example =
    init_cell-IsInBounds next_token strtol netlist decode_string as_int text (λ f. some content)
      (codes "\\ram") design design-Fits

init_text-read_words_example :
    Returns (λ t. read_words 8 2 t ≡ 1 ∷ 2 ∷ []) (init_text 8 2 (1 ∷ 2 ∷ 5 ∷ []))
init_text-read_words_example =
    init_text-read_words 8 2 (1 ∷ 2 ∷ 5 ∷ []) (omega arith)
      (omega arith, (omega arith, (omega arith, tt)))
