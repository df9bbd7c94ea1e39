-- ===== src/Tests/Flops.antt =====
-- Two DSP cells with a flip-flop between the output of the first and the input of the second.
use yosys_quicklogic_plugins.Base.{
  ℕ, ◌≡◌, refl, Bool, false, ◌&&◌, ◌||◌, Option, none, some, List, [], ◌∷◌, Text, codes, text_eq,
  All, ◌==◌, if◌then◌else◌,
}
use yosys_quicklogic_plugins.Base.Results.{Result, ok, err, Holds}
use yosys_quicklogic_plugins.Rtlil.{s0, SigBit, wire_bit, const_bit}
use yosys_quicklogic_plugins.Tests.Designs.{Design, netlist_of, netlist_of-IsNetlist}
use yosys_quicklogic_plugins.Dsp.Rules.{Dict, whole, FlopType, PortType, RegisterType, DspType}
use yosys_quicklogic_plugins.Dsp.Connections.{Setting, build_connections}
use yosys_quicklogic_plugins.Dsp.Flops.{Failure, DspChanges}
use yosys_quicklogic_plugins.Dsp.Registers.{PassState, process_cells, process_module}
use yosys_quicklogic_plugins.Dsp.Removal.{IsRemovable}
use yosys_quicklogic_plugins.Dsp.Touched.{IsSetting}
use yosys_quicklogic_plugins.Dsp.Group.{process_cells-IsRemovable}

abbrev dsp_a : Text
dsp_a = codes "\\a"

abbrev dsp_b : Text
dsp_b = codes "\\b"

abbrev flop : Text
flop = codes "\\f"

abbrev net_p : SigBit
net_p = wire_bit (codes "\\p") 0

abbrev net_q : SigBit
net_q = wire_bit (codes "\\q") 0

abbrev net_clk : SigBit
net_clk = wire_bit (codes "\\clk") 0

abbrev port_in : Text
port_in = codes "\\A"

abbrev port_out : Text
port_out = codes "\\P"

abbrev port_clk : Text
port_clk = codes "\\CLK"

abbrev port_d : Text
port_d = codes "\\D"

abbrev port_q : Text
port_q = codes "\\Q"

abbrev type_of : Text → Text
type_of c = if text_eq c flop then codes "\\ff" else codes "\\dsp"

abbrev is_input : Text → Text → Bool
is_input c p = text_eq p port_in || (text_eq p port_clk || text_eq p port_d)

abbrev is_output : Text → Text → Bool
is_output c p = text_eq p port_out || text_eq p port_q

abbrev port_names : List Text
port_names = port_in ∷ port_out ∷ port_clk ∷ port_d ∷ port_q ∷ []

abbrev flop_type : FlopType ℕ
flop_type = record {
  name = codes "\\ff";
  ports = (codes "\\d", port_d) ∷ (codes "\\q", port_q) ∷ (codes "\\clk", port_clk) ∷ [];
  matching = [];
  required = [];
  set_params = [];
  map_params = [];
}

abbrev port_rule : Text → PortType ℕ
port_rule port = record { name = port; bits = whole; assoc = (codes "\\clk", (port_clk, 0)) ∷ [] }

abbrev register : Text → RegisterType ℕ
register k = record { set_params = (k, 1) ∷ []; map_params = []; connect = [] }

abbrev dsp_type : DspType ℕ
dsp_type = record {
  name = codes "\\dsp";
  registers =
      (register (codes "\\IREG"), port_rule port_in ∷ [])
      ∷ (register (codes "\\OREG"), port_rule port_out ∷ [])
      ∷ [];
}

abbrev setting : Setting (Design ℕ) ℕ
setting = record {
  netlist = netlist_of type_of is_input is_output port_names (some 0);
  consts = record { sx = 2; from_string = λ s. 0; of_string = λ s. 0; same = λ v w. v == w };
  escape_id = λ s. b'\\' ∷ s;
  has_keep_attr = λ c m. false;
  bit_of_const = λ v. const_bit s0;
  bits_of_const = λ v. const_bit s0 ∷ [];
  sigmap = λ b. b;
  flop_types = (codes "\\ff", flop_type) ∷ [];
}

setting-IsSetting : IsSetting setting
setting-IsSetting = record {
  laws = netlist_of-IsNetlist type_of is_input is_output port_names (some 0);
  keep-set_port = λ c p d bits m. refl;
  keep-set_param = λ c k d v m. refl;
}

-- What is connected to a port of a cell.
abbrev net_at : Text → Text → Option SigBit
net_at c p =
    if text_eq c dsp_a && text_eq p port_out || text_eq c flop && text_eq p port_d
    then some net_p
    else if text_eq c flop && text_eq p port_q || text_eq c dsp_b && text_eq p port_in
    then some net_q
    else if text_eq c flop && text_eq p port_clk
    then some net_clk
    else none

abbrev one_bit : Option SigBit → Option (List SigBit)
one_bit none = none
one_bit (some b) = some (b ∷ [])

abbrev design : Design ℕ
design = record {
  names = dsp_a ∷ dsp_b ∷ flop ∷ [];
  ports = λ c p. one_bit (net_at c p);
  params = λ c k. none;
}

abbrev start : PassState (Design ℕ)
start = record { design = design; to_remove = []; changes = [] }

abbrev after : Result Failure (Design ℕ × Dict DspChanges)
after = process_module setting ((codes "\\dsp", dsp_type) ∷ []) design []

abbrev ports_after :
    Result Failure (Design ℕ × Dict DspChanges) → Text → Text → Option (List SigBit)
ports_after (ok r) c p = r.0.ports c p
ports_after (err f) c p = none

-- The flip-flop is taken into the output register of the first cell.
takes_output : ports_after after dsp_a port_out ≡ some (net_q ∷ [])
unfolding process_module text_eq
takes_output = refl

-- It is taken again into the input register of the second cell, which then reads a net that
-- nothing drives any more.
takes_twice : ports_after after dsp_b port_in ≡ some (net_p ∷ [])
unfolding process_module text_eq
takes_twice = refl

process_cells-IsRemovable_example :
    Holds
      (λ s. All (IsRemovable setting design) s.to_remove)
      (process_cells setting
        ((codes "\\dsp", dsp_type) ∷ [])
        (build_connections setting design)
        (dsp_a ∷ dsp_b ∷ [])
        start)
process_cells-IsRemovable_example =
    process_cells-IsRemovable setting setting-IsSetting design ((codes "\\dsp", dsp_type) ∷ [])
      (build_connections setting design) (dsp_a ∷ dsp_b ∷ []) []
