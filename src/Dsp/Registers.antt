-- ===== src/Dsp/Registers.antt =====
-- dsp-ff-plugin/dsp_ff.cc, `processRegister` and `execute` on a module.
use yosys_quicklogic_plugins.Base.{
  ℕ, suc, Bool, true, false, Option, none, some, List, [], ◌∷◌, Text, codes, text_eq, if◌then◌else◌,
}
use yosys_quicklogic_plugins.Base.Maps.{lookup, insert}
use yosys_quicklogic_plugins.Base.Results.{Result, ok, err, ◌>>=◌}
use yosys_quicklogic_plugins.Rtlil.{sx, SigBit, const_bit}
use yosys_quicklogic_plugins.Rtlil.Bits.{set_at}
use yosys_quicklogic_plugins.Rtlil.Pools.{add_member}
use yosys_quicklogic_plugins.Dsp.Rules.{Dict, FlopType, PortType, RegisterType, Registers, DspType}
use yosys_quicklogic_plugins.Dsp.Connections.{Setting, ConnMap, build_connections}
use yosys_quicklogic_plugins.Dsp.Flops.{
  Failure, missing_port, missing_key, FlopData, DspChanges, or_failure, only_bit, check_against,
}
use yosys_quicklogic_plugins.Dsp.Inspect.{FoundFlops, is_set_already, inspect_ports}

-- The netlist, `m_CellsToRemove` and `m_DspChanges`.
pub record PassState (M : Type 0) : Type 0 where
  pub design : M
  pub to_remove : List Text
  pub changes : Dict DspChanges

abbrev pub no_changes : DspChanges
no_changes = record { params = []; conns = [] }

abbrev pub or_no_changes : Option DspChanges → DspChanges
or_no_changes none = no_changes
or_no_changes (some c) = c

-- `m_DspChanges[cell]`
abbrev pub changes_of : Text → Dict DspChanges → DspChanges
changes_of cell m = or_no_changes (lookup cell m)

module _ {M C : Type 0} (e : Setting M C) where
  -- The signal of the flip-flop's other side at a bit of the DSP.
  abbrev pub or_sx : Option SigBit → SigBit
  or_sx none = const_bit sx
  or_sx (some b) = b

  abbrev pub take_flop : Option (List SigBit) → ℕ → List SigBit → Result Failure (List SigBit)
  take_flop none i bits = err missing_port
  take_flop (some signal) i bits = only_bit signal >>= (λ b. ok (set_at bits i (or_sx b)))

  unfoldable pub take_flops :
      Text
      → ℕ
      → List (Option Text)
      → List SigBit
      → M
      → List Text
      → Result Failure (List SigBit × List Text)
  unfolding set_at add_member
  take_flops flop_port i [] bits m removed = ok (bits, removed)
  take_flops flop_port i (none ∷ cells) bits m removed =
      take_flops flop_port (suc i) cells bits m removed
  take_flops flop_port i (some flop ∷ cells) bits m removed = do
    bits' ← take_flop (e.netlist.get_port flop flop_port m) i bits
    take_flops flop_port (suc i) cells bits' m (add_member text_eq flop removed)

  abbrev pub function_of : Text → Text → M → Text
  function_of cell port m = if e.netlist.output cell port m then codes "q" else codes "d"

  abbrev pub any_flop : List (Option Text) → Bool
  any_flop [] = false
  any_flop (none ∷ cells) = any_flop cells
  any_flop (some c ∷ cells) = true

  -- `flopType.ports.at(...)`, which is asked for only where a bit has a flip-flop.
  abbrev pub flop_port_for : List (Option Text) → Option Text → Result Failure Text
  flop_port_for cells port = if any_flop cells then or_failure missing_key port else ok []

  abbrev pub reconnect_port :
      Text
      → FlopType C
      → Text
      → Option (List (Option Text))
      → PassState M
      → Result Failure (PassState M)
  reconnect_port cell flop_type port none s = ok s
  reconnect_port cell flop_type port (some cells) s = do
    bits ← or_failure missing_port (e.netlist.get_port cell port s.design)
    flop_port ←
        flop_port_for cells (lookup (e.escape_id (function_of cell port s.design)) flop_type.ports)
    taken ← take_flops flop_port 0 cells bits s.design s.to_remove
    ok (record s { design = e.netlist.set_port cell port taken.0 s.design; to_remove = taken.1 })

  unfoldable pub reconnect_ports :
      Text
      → FlopType C
      → List (PortType C)
      → Dict (List (Option Text))
      → PassState M
      → Result Failure (PassState M)
  unfolding take_flops lookup
  reconnect_ports cell flop_type [] flops s = ok s
  reconnect_ports cell flop_type (p ∷ ps) flops s = do
    s' ← reconnect_port cell flop_type p.name (lookup p.name flops) s
    reconnect_ports cell flop_type ps flops s'

  -- `setPort` or `setParam`, with its note in `m_DspChanges`
  abbrev pub change_port : Text → Text → List SigBit → PassState M → PassState M
  change_port cell port bits s =
      let c = changes_of cell s.changes in
      record s {
        design = e.netlist.set_port cell port bits s.design;
        changes = insert cell (record c { conns = add_member text_eq port c.conns }) s.changes;
      }

  abbrev pub change_param : Text → Text → C → PassState M → PassState M
  change_param cell k v s =
      let c = changes_of cell s.changes in
      record s {
        design = e.netlist.set_param cell k v s.design;
        changes = insert cell (record c { params = add_member text_eq k c.params }) s.changes;
      }

  abbrev pub or_const : Option SigBit → C → SigBit
  or_const none v = e.bit_of_const v
  or_const (some b) v = b

  unfoldable pub connect_assoc : Text → Dict (Text × C) → FlopData C → PassState M → PassState M
  unfolding insert lookup add_member
  connect_assoc cell [] data_of s = s
  connect_assoc cell ((key, (port, v)) ∷ assoc) data_of s =
      connect_assoc cell assoc data_of
        (change_port cell port (or_const (lookup key data_of.conns) v ∷ []) s)

  unfoldable pub connect_control : Text → List (PortType C) → FlopData C → PassState M → PassState M
  unfolding connect_assoc
  connect_control cell [] data_of s = s
  connect_control cell (p ∷ ps) data_of s =
      connect_control cell ps data_of (connect_assoc cell p.assoc data_of s)

  unfoldable pub connect_consts : Text → Dict C → PassState M → PassState M
  unfolding insert lookup add_member
  connect_consts cell [] s = s
  connect_consts cell ((port, v) ∷ more) s =
      connect_consts cell more (change_port cell port (e.bits_of_const v) s)

  unfoldable pub set_all : Text → Dict C → PassState M → PassState M
  unfolding insert lookup add_member
  set_all cell [] s = s
  set_all cell ((k, v) ∷ more) s = set_all cell more (change_param cell k v s)

  abbrev pub map_one : Text → Text → Option C → PassState M → PassState M
  map_one cell k none s = s
  map_one cell k (some v) s = change_param cell k v s

  unfoldable pub map_all : Text → Dict Text → FlopData C → PassState M → PassState M
  unfolding insert lookup add_member
  map_all cell [] data_of s = s
  map_all cell ((k, source) ∷ more) data_of s =
      map_all cell more data_of (map_one cell k (lookup source data_of.dsp) s)

  unfoldable pub integrate :
      Text
      → RegisterType C
      → List (PortType C)
      → FlopData C
      → FoundFlops C
      → PassState M
      → Result Failure (PassState M)
  unfolding reconnect_ports connect_control connect_consts set_all map_all
  integrate cell register ports data_of found s = do
    flop_type ← or_failure missing_key (lookup data_of.type e.flop_types)
    s' ← reconnect_ports cell flop_type ports found.flops s
    (let connected = connect_consts cell register.connect (connect_control cell ports data_of s') in
        let mapped =
          map_all cell flop_type.map_params data_of
            (map_all cell register.map_params data_of connected) in
        ok (set_all cell flop_type.set_params (set_all cell register.set_params mapped)))

  -- Only one group of flip-flops is integrated.
  abbrev pub integrate_group :
      Text
      → RegisterType C
      → List (PortType C)
      → List (FlopData C)
      → FoundFlops C
      → PassState M
      → Result Failure (PassState M)
  integrate_group cell register ports [] found s = ok s
  integrate_group cell register ports (data_of ∷ []) found s = do
    good ← check_against e data_of (changes_of cell s.changes) cell register ports s.design
    (if good then integrate cell register ports data_of found s else ok s)
  integrate_group cell register ports (x ∷ y ∷ groups) found s = ok s

  -- `processRegister`
  unfoldable pub process_register :
      ConnMap
      → Text
      → RegisterType C
      → List (PortType C)
      → PassState M
      → Result Failure (PassState M)
  unfolding is_set_already inspect_ports integrate check_against
  process_register conns cell register ports s = do
    already ← is_set_already e cell register.set_params s.design
    (if already then ok s else (do
      found ←
          inspect_ports e cell register ports conns s.to_remove s.design
            (record { flops_ok = true; groups = []; flops = [] })
      (if found.flops_ok then integrate_group cell register ports found.groups found s else ok s)))

  unfoldable pub process_registers :
      ConnMap → Text → Registers C → PassState M → Result Failure (PassState M)
  unfolding process_register
  process_registers conns cell [] s = ok s
  process_registers conns cell ((register, ports) ∷ rules) s = do
    s' ← process_register conns cell register ports s
    process_registers conns cell rules s'

  abbrev pub process_cell :
      ConnMap → Text → Option (DspType C) → PassState M → Result Failure (PassState M)
  process_cell conns cell none s = ok s
  process_cell conns cell (some dsp) s = process_registers conns cell dsp.registers s

  unfoldable pub process_cells :
      Dict (DspType C) → ConnMap → List Text → PassState M → Result Failure (PassState M)
  unfolding process_registers lookup
  process_cells dsp_types conns [] s = ok s
  process_cells dsp_types conns (c ∷ cs) s = do
    s' ← process_cell conns c (lookup (e.netlist.cell_type c s.design) dsp_types) s
    process_cells dsp_types conns cs s'

  unfoldable pub remove_all : List Text → M → M
  remove_all [] m = m
  remove_all (c ∷ cs) m = remove_all cs (e.netlist.remove c m)

  -- `execute` on a module, with the changes that earlier modules left.
  unfoldable pub process_module :
      Dict (DspType C) → M → Dict DspChanges → Result Failure (M × Dict DspChanges)
  unfolding process_cells remove_all build_connections
  process_module dsp_types m changes = do
    s ←
        process_cells dsp_types (build_connections e m) (e.netlist.cells m)
          (record { design = m; to_remove = []; changes = changes })
    ok (remove_all s.to_remove s.design, s.changes)
