-- ===== src/Inv.antt =====
-- integrateinv-plugin/integrateinv.cc: inverters that are taken into the pins of other cells.
pub mod Meaning
pub mod OnePin
pub mod Pins
pub mod Sinks
pub mod Covers
pub mod Taken
pub mod Total
pub mod Rows
pub mod Returning
pub mod Collect
pub mod Trace
pub mod Pass
use yosys_quicklogic_plugins.Base.{
  ℕ, suc, Bool, true, false, ◌&&◌, Option, none, some, List, [], ◌∷◌, Text, codes, text_eq, length,
  ltb, get_elem?, ◌==◌, if◌then◌else◌,
}
use yosys_quicklogic_plugins.Base.Maps.{insert, lookup, contains}
use yosys_quicklogic_plugins.Base.Results.{Result, ok, err, ◌>>=◌}
use yosys_quicklogic_plugins.Rtlil.{State, s0, s1, SigBit, wire_bit, const_bit, Netlist}
use yosys_quicklogic_plugins.Rtlil.Bits.{bit_eq, set_at}
use yosys_quicklogic_plugins.Rtlil.Pools.{member, add_member, same_pool, find_key}

-- `Pin`; a port of the module has no cell.
pub record Pin : Type 0 where
  pub cell : Option Text
  pub port : Text
  pub bit : ℕ

abbrev pub cell_eq : Option Text → Option Text → Bool
cell_eq none none = true
cell_eq (some c) (some d) = text_eq c d
cell_eq _ _ = false

-- `operator==`
unfoldable pub pin_eq : Pin → Pin → Bool
unfolding text_eq
pin_eq l r = cell_eq l.cell r.cell && (text_eq l.port r.port && l.bit == r.bit)

-- `log_error`, a failed `log_assert`, or an exception of the containers.
pub data Error : Type 0 where
  missing_port : Error
  out_of_range : Error
  assertion : Error
  width_mismatch : Error
  not_zero_or_one : Error

-- `m_InvMap`, `m_Inverters` and `m_InvParams`
pub record Inverters : Type 0 where
  pub inv_map : List (SigBit × Text)
  pub inverters : List (Text × List Pin)
  pub inv_params : List (Pin × Text)

abbrev pub not_type : Text
not_type = codes "\\$_NOT_"

abbrev pub port_y : Text
port_y = codes "\\Y"

abbrev pub port_a : Text
port_a = codes "\\A"

-- `log_assert(... .count(...) == 0)` before what is stored.
abbrev pub unless_stored : {A V : Type 0} → Option V → Result Error A → Result Error A
unless_stored none r = r
unless_stored (some old) r = err assertion

-- `getPort(...)`, and the first of its bits
abbrev pub bits_of : Option (List SigBit) → Result Error (List SigBit)
bits_of none = err missing_port
bits_of (some bits) = ok bits

abbrev pub first_of : List SigBit → Result Error SigBit
first_of [] = err out_of_range
first_of (b ∷ bs) = ok b

abbrev pub pins_of : Option (List Pin) → List Pin
pins_of none = []
pins_of (some pins) = pins

abbrev pub zeros : ℕ → List State
zeros ℕ.zero = []
zeros (ℕ.suc n) = s0 ∷ zeros n

abbrev pub mask_or_zeros : Option (List State) → ℕ → List State
mask_or_zeros none n = zeros n
mask_or_zeros (some mask) n = mask

abbrev pub toggle : Option State → Result Error State
toggle none = err out_of_range
toggle (some s0) = ok s1
toggle (some s1) = ok s0
toggle (some _) = err not_zero_or_one

abbrev pub name_of : Option Text → Result Error Text
name_of none = err assertion
name_of (some name) = ok name

-- `m_Inverters[inv]`, in the order in which hashlib's `dict` is gone through: the newest key first.
unfoldable pub store_row : Text → List Pin → List (Text × List Pin) → List (Text × List Pin)
unfolding insert contains
store_row inv pins rows = if contains inv rows then insert inv pins rows else (inv, pins) ∷ rows

-- `m_SigMap`, and the `invertible_pin` attribute of the port of a type, with `RTLIL::escape_id`.
module _ {M : Type 0} (n : Netlist M (List State)) (sigmap : SigBit → SigBit)
    (invertible_pin : Text → Text → Option Text) where
  -- `buildInverterMap`
  unfoldable pub build_inverter_map :
      List Text → M → List (SigBit × Text) → Result Error (List (SigBit × Text))
  unfolding text_eq member find_key
  build_inverter_map [] m inv_map = ok inv_map
  build_inverter_map (c ∷ cs) m inv_map =
      if text_eq (n.cell_type c m) not_type
      then (do
        bits ← bits_of (n.get_port c port_y m)
        y ← first_of bits
        unless_stored (find_key bit_eq (sigmap y) inv_map)
            (build_inverter_map cs m ((sigmap y, c) ∷ inv_map)))
      else build_inverter_map cs m inv_map

  abbrev pub save_pin : Text → Pin → Text → Inverters → Result Error Inverters
  save_pin inv pin name s = unless_stored (find_key pin_eq pin s.inv_params) (
      ok (record s {
        inverters =
            store_row inv (add_member pin_eq pin (pins_of (lookup inv s.inverters))) s.inverters;
        inv_params = (pin, name) ∷ s.inv_params;
      }))

  abbrev pub save_if_driven : Option Text → Pin → Text → Inverters → Result Error Inverters
  save_if_driven none pin name s = ok s
  save_if_driven (some inv) pin name s = save_pin inv pin name s

  abbrev pub collect_bit : Pin → Text → SigBit → Inverters → Result Error Inverters
  collect_bit pin name (const_bit b) s = ok s
  collect_bit pin name (wire_bit w i) s =
      save_if_driven (find_key bit_eq (sigmap (wire_bit w i)) s.inv_map) pin name s

  unfoldable pub collect_bits :
      Text → Text → Text → ℕ → List SigBit → Inverters → Result Error Inverters
  unfolding find_key add_member store_row lookup
  collect_bits cell port name i [] s = ok s
  collect_bits cell port name i (b ∷ bits) s = do
    s' ← collect_bit (record { cell = some cell; port = port; bit = i }) name b s
    collect_bits cell port name (suc i) bits s'

  abbrev pub collect_if_invertible :
      Option Text → Text → Text → List SigBit → Inverters → Result Error Inverters
  collect_if_invertible none cell port bits s = ok s
  collect_if_invertible (some name) cell port bits s = collect_bits cell port name 0 bits s

  abbrev pub collect_port : Text → Text → List SigBit → M → Inverters → Result Error Inverters
  collect_port cell port bits m s =
      if n.input cell port m
      then collect_if_invertible (invertible_pin (n.cell_type cell m) port) cell port bits s
      else ok s

  unfoldable pub collect_ports :
      Text → List (Text × List SigBit) → M → Inverters → Result Error Inverters
  unfolding collect_bits
  collect_ports cell [] m s = ok s
  collect_ports cell ((port, bits) ∷ conns) m s = do
    s' ← collect_port cell port bits m s
    collect_ports cell conns m s'

  -- `collectInverters` for each of the selected cells
  unfoldable pub collect_inverters : List Text → M → Inverters → Result Error Inverters
  unfolding collect_ports
  collect_inverters [] m s = ok s
  collect_inverters (c ∷ cs) m s = do
    s' ← collect_ports c (n.connections c m) m s
    collect_inverters cs m s'

  -- The bits of a wire that are the driver's.
  abbrev pub is_driven : SigBit → SigBit → Bool
  is_driven driver (const_bit b) = false
  is_driven driver (wire_bit w i) = bit_eq (sigmap (wire_bit w i)) driver

  unfoldable pub sinks_in_bits : SigBit → Text → Text → ℕ → List SigBit → List Pin → List Pin
  unfolding add_member
  sinks_in_bits driver cell port i [] sinks = sinks
  sinks_in_bits driver cell port i (b ∷ bits) sinks =
      let here = add_member pin_eq (record { cell = some cell; port = port; bit = i }) sinks in
      sinks_in_bits driver cell port (suc i) bits (if is_driven driver b then here else sinks)

  unfoldable pub sinks_in_ports :
      SigBit → Text → List (Text × List SigBit) → M → List Pin → List Pin
  unfolding sinks_in_bits
  sinks_in_ports driver cell [] m sinks = sinks
  sinks_in_ports driver cell ((port, bits) ∷ conns) m sinks =
      sinks_in_ports driver cell conns m
        (if n.input cell port m then sinks_in_bits driver cell port 0 bits sinks else sinks)

  unfoldable pub sinks_in_cells : SigBit → List Text → M → List Pin → List Pin
  unfolding sinks_in_ports
  sinks_in_cells driver [] m sinks = sinks
  sinks_in_cells driver (c ∷ cs) m sinks =
      sinks_in_cells driver cs m (sinks_in_ports driver c (n.connections c m) m sinks)

  abbrev pub wire_of : SigBit → Text
  wire_of (wire_bit w i) = w
  wire_of (const_bit b) = []

  abbrev pub is_output_bit : SigBit → M → Bool
  is_output_bit (const_bit b) m = false
  is_output_bit (wire_bit w i) m = n.port_output w m

  unfoldable pub sinks_in_outputs : SigBit → ℕ → List SigBit → M → List Pin → List Pin
  unfolding add_member
  sinks_in_outputs driver i [] m sinks = sinks
  sinks_in_outputs driver i (b ∷ bits) m sinks =
      let here =
        add_member pin_eq (record { cell = none; port = wire_of (sigmap b); bit = i }) sinks in
      sinks_in_outputs driver (suc i) bits m
        (if is_output_bit b m && bit_eq (sigmap b) driver then here else sinks)

  unfoldable pub sinks_in_module :
      SigBit → List (List SigBit × List SigBit) → M → List Pin → List Pin
  unfolding sinks_in_outputs
  sinks_in_module driver [] m sinks = sinks
  sinks_in_module driver ((dst, src) ∷ conns) m sinks =
      sinks_in_module driver conns m (sinks_in_outputs driver 0 dst m sinks)

  -- `getSinksForDriver`, for bit 0 of a port of a cell
  unfoldable pub sinks_for_driver : Text → Text → M → Result Error (List Pin)
  unfolding sinks_in_cells sinks_in_module
  sinks_for_driver cell port m =
      if n.output cell port m
      then (do
        bits ← bits_of (n.get_port cell port m)
        y ← first_of bits
        ok (
            sinks_in_module (sigmap y) (n.module_connections m) m
              (sinks_in_cells (sigmap y) (n.cells m) m [])))
      else ok []

  -- The part of the loop over the pins that is for one pin of a cell.
  unfoldable pub toggle_bit : Text → Text → ℕ → ℕ → M → Result Error M
  unfolding set_at
  toggle_bit cell name bit width m =
      let mask = mask_or_zeros (n.own_param cell name m) width in
      if length mask == width
      then (do
        state ← toggle (get_elem? mask bit)
        ok (n.set_param cell name (set_at mask bit state) m))
      else err width_mismatch

  unfoldable pub integrate_cell_pin :
      Text → List (Pin × Text) → Text → Text → ℕ → M → Result Error M
  unfolding toggle_bit find_key
  integrate_cell_pin inv inv_params cell port bit m = do
    bits ← bits_of (n.get_port cell port m)
    (if ltb bit (length bits)
        then (do
          a_bits ← bits_of (n.get_port inv port_a m)
          a ← first_of a_bits
          name ←
              name_of
                (find_key pin_eq (record { cell = some cell; port = port; bit = bit }) inv_params)
          toggle_bit cell name bit (length bits) (n.set_port cell port (set_at bits bit a) m))
        else err assertion)

  abbrev pub integrate_pin : Text → List (Pin × Text) → Pin → M → Result Error M
  integrate_pin inv inv_params pin m = elim pin.cell [
    | none ↦ err assertion
    | some cell ↦ integrate_cell_pin inv inv_params cell pin.port pin.bit m
  ]

  unfoldable pub integrate_pins : Text → List (Pin × Text) → List Pin → M → Result Error M
  unfolding integrate_cell_pin
  integrate_pins inv inv_params [] m = ok m
  integrate_pins inv inv_params (pin ∷ pins) m = do
    m' ← integrate_pin inv inv_params pin m
    integrate_pins inv inv_params pins m'

  unfoldable pub integrate_inverter : Text → List (Pin × Text) → List Pin → M → Result Error M
  unfolding integrate_pins sinks_for_driver same_pool
  integrate_inverter inv inv_params pins m = do
    sinks ← sinks_for_driver inv port_y m
    (if same_pool pin_eq sinks pins
        then (integrate_pins inv inv_params pins m >>= (λ m'. ok (n.remove inv m')))
        else ok m)

  -- `integrateInverters`
  unfoldable pub integrate_inverters :
      List (Text × List Pin) → List (Pin × Text) → M → Result Error M
  unfolding integrate_inverter
  integrate_inverters [] inv_params m = ok m
  integrate_inverters ((inv, pins) ∷ rest) inv_params m = do
    m' ← integrate_inverter inv inv_params pins m
    integrate_inverters rest inv_params m'

  -- `execute` on a module and its selected cells
  unfoldable pub integrate_module : List Text → M → Result Error M
  unfolding build_inverter_map collect_inverters integrate_inverters
  integrate_module selected m = do
    inv_map ← build_inverter_map (n.cells m) m []
    s ← collect_inverters selected m (record { inv_map = inv_map; inverters = []; inv_params = [] })
    integrate_inverters s.inverters s.inv_params m
