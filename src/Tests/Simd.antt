-- ===== src/Tests/Simd.antt =====
-- Four DSP cells, two with each clock.
use yosys_quicklogic_plugins.Base.{
  ◌+◌, ◌≡◌, refl, true, false, Option, none, some, List, [], ◌∷◌, ◌++◌, Text, codes, text_eq, All,
  if◌then◌else◌,
}
use yosys_quicklogic_plugins.Base.Results.{Result, ok, err, Holds}
use yosys_quicklogic_plugins.Rtlil.{State, s0, wire_bit}
use yosys_quicklogic_plugins.Rtlil.Bits.{bit_eq}
use yosys_quicklogic_plugins.Rtlil.Pools.{member}
use yosys_quicklogic_plugins.Tests.Designs.{Design, netlist_of}
use yosys_quicklogic_plugins.Simd.{Cells, Fault, name_taken, pack_module}
use yosys_quicklogic_plugins.Simd.Pairs.{IsPair, pack_module-IsPair}

abbrev cell_1 : Text
cell_1 = codes "\\d1"

abbrev cell_2 : Text
cell_2 = codes "\\d2"

abbrev cell_3 : Text
cell_3 = codes "\\d3"

abbrev cell_4 : Text
cell_4 = codes "\\d4"

abbrev simd_0 : Text
simd_0 = codes "\\simd0"

abbrev ten_zeros : List State
ten_zeros = s0 ∷ s0 ∷ s0 ∷ s0 ∷ s0 ∷ s0 ∷ s0 ∷ s0 ∷ s0 ∷ s0 ∷ []

abbrev type_of : Text → Text
type_of c = if text_eq c simd_0 then codes "\\QL_DSP2" else codes "\\dsp_t1_10x9x32"

abbrev clock_of : Text → Text
clock_of c =
    if text_eq c cell_1
    then codes "\\clk1"
    else if text_eq c cell_2
    then codes "\\clk1"
    else codes "\\clk2"

abbrev design : Design (List State)
design = record {
  names = cell_1 ∷ cell_2 ∷ cell_3 ∷ cell_4 ∷ [];
  ports =
      λ c p. if text_eq p (codes "\\clock_i") then some (wire_bit (clock_of c) 0 ∷ []) else none;
  params = λ c k. none;
}

unfoldable add_cell : Text → Text → Design (List State) → Option (Design (List State))
unfolding member
add_cell c type m =
    if member text_eq c m.names then none else some (record m { names = m.names ++ c ∷ [] })

abbrev cells : Cells (Design (List State))
cells = record {
  netlist = netlist_of type_of (λ c p. true) (λ c p. false) [] (some ten_zeros);
  add_cell = add_cell;
  known = λ type. true;
  port_wire = λ type port. none;
  has_keep_attr = λ c m. false;
  bool_attribute = λ c k m. none;
  set_bool_attribute = λ c k b m. m;
  sigmap = λ b. b;
  escape_id = λ s. b'\\' ∷ s;
  decimal = λ i. (b'0' + i) ∷ [];
}

abbrev names_after : Result Fault (Design (List State) × List (Text × Text)) → List Text
names_after (ok done) = done.0.names
names_after (err f) = []

abbrev pairs_after : Result Fault (Design (List State) × List (Text × Text)) → List (Text × Text)
pairs_after (ok done) = done.1
pairs_after (err f) = []

-- Cells with one clock are packed, and a third one with another clock stays.
packs :
    names_after (pack_module cells (cell_1 ∷ cell_3 ∷ cell_2 ∷ []) design)
    ≡ cell_3 ∷ cell_4 ∷ simd_0 ∷ []
unfolding pack_module text_eq add_cell bit_eq
packs = refl

packs_pair :
    pairs_after (pack_module cells (cell_1 ∷ cell_3 ∷ cell_2 ∷ []) design) ≡ (cell_1, cell_2) ∷ []
unfolding pack_module text_eq add_cell bit_eq
packs_pair = refl

-- With a pair in each of two groups, the second cell would have the name of the first.
takes_name_twice :
    pack_module cells (cell_1 ∷ cell_2 ∷ cell_3 ∷ cell_4 ∷ []) design ≡ err name_taken
unfolding pack_module text_eq add_cell bit_eq
takes_name_twice = refl

pack_module-IsPair_example :
    Holds
      (λ done. All (IsPair cells design) done.1)
      (pack_module cells (cell_1 ∷ cell_3 ∷ cell_2 ∷ []) design)
pack_module-IsPair_example = pack_module-IsPair cells design (cell_1 ∷ cell_3 ∷ cell_2 ∷ [])
