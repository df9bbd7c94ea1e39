-- ===== src/Dsp/Connections.antt =====
-- dsp-ff-plugin/dsp_ff.cc, `ConnMap`: which pins drive a net and which read it.
use yosys_quicklogic_plugins.Base.{
  ℕ, zero, suc, ◌+◌, Bool, true, false, not, ◌&&◌, Option, none, some, List, [], ◌∷◌, ◌++◌, Text,
  text_eq, ◌==◌, if◌then◌else◌,
}
use yosys_quicklogic_plugins.Rtlil.{SigBit, wire_bit, Netlist}
use yosys_quicklogic_plugins.Rtlil.Bits.{bit_eq}
use yosys_quicklogic_plugins.Dsp.Rules.{Dict, Consts, FlopType}

-- What the pass works with: Yosys's netlist, constants and `escape_id`, the `keep` attributes, the
-- bit and the signal of a constant, `m_SigMap`, and `m_FlopTypes`.
pub record Setting (M C : Type 0) : Type 0 where
  pub netlist : Netlist M C
  pub consts : Consts C
  pub escape_id : Text → Text
  pub has_keep_attr : Text → M → Bool
  pub bit_of_const : C → SigBit
  pub bits_of_const : C → List SigBit
  pub sigmap : SigBit → SigBit
  pub flop_types : Dict (FlopType C)

-- `CellPin`; a port of the module has no cell.
pub record CellPin : Type 0 where
  pub cell : Option Text
  pub port : Text
  pub bit : ℕ

abbrev pub same_cell : Option Text → Option Text → Bool
same_cell none none = true
same_cell (some c) (some d) = text_eq c d
same_cell _ _ = false

-- `CellPin::operator==`
unfoldable pub cell_pin_eq : CellPin → CellPin → Bool
unfolding text_eq
cell_pin_eq l r = same_cell l.cell r.cell && (text_eq l.port r.port && l.bit == r.bit)

pub record ConnMap : Type 0 where
  pub sinks : List (SigBit × List CellPin)
  pub drivers : List (SigBit × CellPin)

-- `sinks[b].push_back(pin)`
unfoldable pub push_sink :
    SigBit → CellPin → List (SigBit × List CellPin) → List (SigBit × List CellPin)
unfolding bit_eq
push_sink b pin [] = (b, pin ∷ []) ∷ []
push_sink b pin ((k, pins) ∷ m) =
    if bit_eq k b then (k, pins ++ pin ∷ []) ∷ m else (k, pins) ∷ push_sink b pin m

-- `drivers.insert(std::make_pair(b, pin))`, which keeps what is there
unfoldable pub insert_driver : SigBit → CellPin → List (SigBit × CellPin) → List (SigBit × CellPin)
unfolding bit_eq
insert_driver b pin [] = (b, pin) ∷ []
insert_driver b pin ((k, old) ∷ m) =
    if bit_eq k b then (k, old) ∷ m else (k, old) ∷ insert_driver b pin m

module _ {M C : Type 0} (e : Setting M C) where
  abbrev pub add_bit : Text → Text → ℕ → SigBit → M → ConnMap → ConnMap
  add_bit cell port i b m conns =
      let sigbit = e.sigmap b in
      let pin : CellPin = record { cell = some cell; port = port; bit = i } in
      record {
        sinks =
            if e.netlist.input cell port m then push_sink sigbit pin conns.sinks else conns.sinks;
        drivers =
            if e.netlist.output cell port m
            then insert_driver sigbit pin conns.drivers
            else conns.drivers;
      }

  unfoldable pub add_bits : Text → Text → ℕ → List SigBit → M → ConnMap → ConnMap
  unfolding push_sink insert_driver
  add_bits cell port i [] m conns = conns
  add_bits cell port i (b ∷ bits) m conns =
      add_bits cell port (suc i) bits m (add_bit cell port i b m conns)

  unfoldable pub add_ports : Text → List (Text × List SigBit) → M → ConnMap → ConnMap
  unfolding add_bits
  add_ports cell [] m conns = conns
  add_ports cell ((port, bits) ∷ ports) m conns =
      add_ports cell ports m (add_bits cell port 0 bits m conns)

  unfoldable pub add_cells : List Text → M → ConnMap → ConnMap
  unfolding add_ports
  add_cells [] m conns = conns
  add_cells (c ∷ cs) m conns = add_cells cs m (add_ports c (e.netlist.connections c m) m conns)

  -- A driver from an input port is stored under its bit, a sink under what `sigmap` makes of it.
  abbrev pub add_wire_bit : Text → ℕ → M → ConnMap → ConnMap
  add_wire_bit wire i m conns =
      let sigbit = wire_bit wire (e.netlist.wire_offset wire m + i) in
      let pin : CellPin = record { cell = none; port = wire; bit = i } in
      record {
        sinks =
            if e.netlist.port_output wire m
            then push_sink (e.sigmap sigbit) pin conns.sinks
            else conns.sinks;
        drivers =
            if e.netlist.port_input wire m
            then insert_driver sigbit pin conns.drivers
            else conns.drivers;
      }

  -- The bits from the first one, for a number of them.
  unfoldable pub add_wire_bits : Text → ℕ → ℕ → M → ConnMap → ConnMap
  unfolding push_sink insert_driver
  add_wire_bits wire i zero m conns = conns
  add_wire_bits wire i (suc n) m conns =
      add_wire_bits wire (suc i) n m (add_wire_bit wire i m conns)

  unfoldable pub add_wires : List Text → M → ConnMap → ConnMap
  unfolding add_wire_bits
  add_wires [] m conns = conns
  add_wires (w ∷ ws) m conns =
      let here = add_wire_bits w 0 (e.netlist.wire_width w m) m conns in
      add_wires ws m
        (if not (e.netlist.port_input w m) && not (e.netlist.port_output w m) then conns else here)

  -- `ConnMap::build`
  unfoldable pub build_connections : M → ConnMap
  unfolding add_cells add_wires
  build_connections m =
      add_wires (e.netlist.wires m) m
        (add_cells (e.netlist.cells m) m (record { sinks = []; drivers = [] }))
