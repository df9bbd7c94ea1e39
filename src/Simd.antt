-- ===== src/Simd.antt =====
-- ql-qlf-plugin/ql-dsp-simd.cc: pairs of DSP cells that are packed into SIMD cells.
pub mod Pairs
use yosys_quicklogic_plugins.Base.{
  ℕ, zero, suc, ◌+◌, ◌-◌, ◌/◌, Bool, true, false, not, ◌&&◌, Option, none, some, List, [], ◌∷◌,
  ◌++◌, map, Text, codes, text_eq, length, ltb, leb, ◌==◌, if◌then◌else◌,
}
use yosys_quicklogic_plugins.Base.Chars.{strip_prefix}
use yosys_quicklogic_plugins.Base.Results.{Result, ok, err, ◌>>=◌}
use yosys_quicklogic_plugins.Base.Maps.{lookup, insert}
use yosys_quicklogic_plugins.Rtlil.{State, s1, sx, SigBit, const_bit, Netlist}
use yosys_quicklogic_plugins.Rtlil.Bits.{bit_eq, state_code}
use yosys_quicklogic_plugins.Dsp.Rules.{Dict, dict_eq}

-- What the pass asks of Yosys besides the netlist: `addCell`, with nothing if the name is taken,
-- `known`, the width and direction of a port of a type, attributes, `m_SigMap`, `escape_id`, and
-- the decimal text of a number.
pub record Cells (M : Type 0) : Type 0 where
  pub netlist : Netlist M (List State)
  pub add_cell : Text → Text → M → Option M
  pub known : Text → Bool
  pub port_wire : Text → Text → Option (ℕ × Bool)
  pub has_keep_attr : Text → M → Bool
  pub bool_attribute : Text → Text → M → Option Bool
  pub set_bool_attribute : Text → Text → Bool → M → M
  pub sigmap : SigBit → SigBit
  pub escape_id : Text → Text
  pub decimal : ℕ → Text

-- A missing parameter or entry, a failed `log_assert`, or `log_error`.
pub data Fault : Type 0 where
  missing_param : Fault
  missing_key : Fault
  name_taken : Fault
  unknown_type : Fault
  assertion : Fault

pub record DspConfig : Type 0 where
  pub connections : Dict (List SigBit)
  pub use_cfg_params : Bool

unfoldable pub bits_eq : List SigBit → List SigBit → Bool
unfolding bit_eq
bits_eq [] [] = true
bits_eq (b ∷ bs) (c ∷ cs) = bit_eq b c && bits_eq bs cs
bits_eq _ _ = false

abbrev pub bool_eq : Bool → Bool → Bool
bool_eq true b = b
bool_eq false b = not b

-- `DspConfig::operator==`
unfoldable pub config_eq : DspConfig → DspConfig → Bool
unfolding dict_eq bits_eq
config_eq l r =
    dict_eq bits_eq l.connections r.connections && bool_eq l.use_cfg_params r.use_cfg_params

abbrev pub cfg_ports : List (Text × Text)
cfg_ports =
    (codes "clock_i", codes "clk")
    ∷ (codes "reset_i", codes "reset")
    ∷ (codes "feedback_i", codes "feedback")
    ∷ (codes "load_acc_i", codes "load_acc")
    ∷ (codes "unsigned_a_i", codes "unsigned_a")
    ∷ (codes "unsigned_b_i", codes "unsigned_b")
    ∷ (codes "subtract_i", codes "subtract")
    ∷ []

abbrev pub cfg_ports_expand : List (Text × Text)
cfg_ports_expand =
    (codes "output_select_i", codes "output_select")
    ∷ (codes "saturate_enable_i", codes "saturate_enable")
    ∷ (codes "shift_right_i", codes "shift_right")
    ∷ (codes "round_i", codes "round")
    ∷ (codes "register_inputs_i", codes "register_inputs")
    ∷ []

abbrev pub params_to_mode : List Text
params_to_mode =
    codes "OUTPUT_SELECT"
    ∷ codes "SATURATE_ENABLE"
    ∷ codes "SHIFT_RIGHT"
    ∷ codes "ROUND"
    ∷ codes "REGISTER_INPUTS"
    ∷ []

abbrev pub data_ports : List (Text × Text)
data_ports =
    (codes "a_i", codes "a")
    ∷ (codes "b_i", codes "b")
    ∷ (codes "acc_fir_i", codes "acc_fir")
    ∷ (codes "z_o", codes "z")
    ∷ (codes "dly_b_o", codes "dly_b")
    ∷ []

abbrev pub dsp_params : List Text
dsp_params = codes "COEFF_3" ∷ codes "COEFF_2" ∷ codes "COEFF_1" ∷ codes "COEFF_0" ∷ []

abbrev pub sisd_type : Text
sisd_type = codes "dsp_t1_10x9x32"

abbrev pub cfg_suffix : Text
cfg_suffix = codes "_cfg_params"

abbrev pub all_cfg_ports : Bool → List (Text × Text)
all_cfg_ports use_cfg = if use_cfg then cfg_ports else cfg_ports ++ cfg_ports_expand

abbrev pub is_there : {A : Type 0} → Option A → Bool
is_there none = false
is_there (some a) = true

-- `cell_type.compare(size - suffix.size(), suffix.size(), suffix) == 0`, with the test of the sizes
abbrev pub drop : ℕ → Text → Text
drop zero s = s
drop (suc n) [] = []
drop (suc n) (c ∷ s) = drop n s

abbrev pub ends_with : Text → Text → Bool
ends_with suffix s =
    leb (length suffix) (length s) && text_eq (drop (length s - length suffix) s) suffix

abbrev pub or_fault : {A : Type 0} → Fault → Option A → Result Fault A
or_fault f none = err f
or_fault f (some a) = ok a

abbrev pub states_eq : List State → List State → Bool
states_eq [] [] = true
states_eq (s ∷ ss) (t ∷ ts) = state_code s == state_code t && states_eq ss ts
states_eq _ _ = false

abbrev pub signal_or : List SigBit → Option (List SigBit) → List SigBit
signal_or bits none = bits
signal_or bits (some bs) = bs

abbrev pub repeat_sx : ℕ → List SigBit
repeat_sx zero = []
repeat_sx (suc n) = const_bit sx ∷ repeat_sx n

-- `groups[key].push_back(cell)`
unfoldable pub push_cell :
    DspConfig → Text → List (DspConfig × List Text) → List (DspConfig × List Text)
unfolding config_eq
push_cell key cell [] = (key, cell ∷ []) ∷ []
push_cell key cell ((k, cells) ∷ groups) =
    if config_eq k key
    then (k, cells ++ cell ∷ []) ∷ groups
    else (k, cells) ∷ push_cell key cell groups

module _ {M : Type 0} (e : Cells M) where
  abbrev pub map_bits : Option (List SigBit) → List SigBit
  map_bits none = const_bit sx ∷ []
  map_bits (some bits) = map e.sigmap bits

  unfoldable pub config_connections :
      Text → List (Text × Text) → M → Dict (List SigBit) → Dict (List SigBit)
  unfolding insert
  config_connections cell [] m conns = conns
  config_connections cell ((port, target) ∷ ports) m conns =
      let p = e.escape_id port in
      config_connections cell ports m (insert p (map_bits (e.netlist.get_port cell p m)) conns)

  -- `getDspConfig`
  unfoldable pub get_dsp_config : Text → M → DspConfig
  unfolding config_connections text_eq
  get_dsp_config cell m =
      let use_cfg = ends_with cfg_suffix (e.netlist.cell_type cell m) in
      record {
        connections = config_connections cell (all_cfg_ports use_cfg) m [];
        use_cfg_params = use_cfg;
      }

  abbrev pub is_candidate : Text → M → Bool
  is_candidate cell m =
      is_there (strip_prefix (e.escape_id sisd_type) (e.netlist.cell_type cell m))
      && not (e.has_keep_attr cell m)

  -- The groups of cells with the same configuration.
  unfoldable pub collect_groups :
      List Text → M → List (DspConfig × List Text) → List (DspConfig × List Text)
  unfolding get_dsp_config push_cell strip_prefix
  collect_groups [] m groups = groups
  collect_groups (c ∷ cs) m groups =
      collect_groups cs m
        (if is_candidate c m then push_cell (get_dsp_config c m) c groups else groups)

  unfoldable pub connect_config : Text → List (Text × Text) → DspConfig → M → Result Fault M
  unfolding lookup
  connect_config simd [] config m = ok m
  connect_config simd ((port, target) ∷ ports) config m = do
    bits ← or_fault missing_key (lookup (e.escape_id port) config.connections)
    connect_config simd ports config (e.netlist.set_port simd (e.escape_id target) bits m)

  -- `getPortInfo`
  abbrev pub or_no_port : Option (ℕ × Bool) → ℕ × Bool
  or_no_port none = (0, false)
  or_no_port (some info) = info

  abbrev pub get_port_info : Text → Text → M → ℕ × Bool
  get_port_info cell port m =
      let type = e.netlist.cell_type cell m in
      if e.known type then or_no_port (e.port_wire type port) else (0, false)

  -- `getConnection`; appending an empty signal for an output appends nothing.
  abbrev pub get_connection : ℕ → Bool → Option (List SigBit) → List SigBit
  get_connection width is_output port =
      let bits = signal_or [] port in
      if ltb (length bits) (width / 2) && not is_output
      then bits ++ repeat_sx (width / 2 - length bits)
      else bits

  unfoldable pub connect_data : Text → Text → Text → List (Text × Text) → M → M
  connect_data simd dsp_a dsp_b [] m = m
  connect_data simd dsp_a dsp_b ((port, target) ∷ ports) m =
      let p = e.escape_id port in
      let q = e.escape_id target in
      let (width, is_output) = get_port_info simd q m in
      connect_data simd dsp_a dsp_b ports (
        e.netlist.set_port simd q
          (get_connection width is_output (e.netlist.get_port dsp_a p m)
            ++ get_connection width is_output (e.netlist.get_port dsp_b p m))
          m)

  -- `getParam`
  abbrev pub or_else : Option (List State) → Option (List State) → Result Fault (List State)
  or_else (some c) d = ok c
  or_else none d = or_fault missing_param d

  abbrev pub get_param_of : Text → Text → M → Result Fault (List State)
  get_param_of cell k m =
      or_else (e.netlist.own_param cell k m)
        (e.netlist.default_param (e.netlist.cell_type cell m) k)

  unfoldable pub coefficient_bits : Text → Text → List Text → M → Result Fault (List State)
  coefficient_bits dsp_a dsp_b [] m = ok []
  coefficient_bits dsp_a dsp_b (k ∷ ks) m = do
    val_a ← get_param_of dsp_a (e.escape_id k) m
    val_b ← get_param_of dsp_b (e.escape_id k) m
    rest ← coefficient_bits dsp_a dsp_b ks m
    ok (val_a ++ val_b ++ rest)

  -- An empty constant has no `bits[0]`.
  abbrev pub nonempty_bits : List State → Result Fault (List State)
  nonempty_bits [] = err assertion
  nonempty_bits (s ∷ ss) = ok (s ∷ ss)

  unfoldable pub param_bits : Text → Text → List Text → M → Result Fault (List State)
  param_bits dsp_a dsp_b [] m = ok []
  param_bits dsp_a dsp_b (k ∷ ks) m = do
    val_a ← get_param_of dsp_a (e.escape_id k) m
    val_b ← get_param_of dsp_b (e.escape_id k) m
    (if states_eq val_a val_b
        then (do bits ← nonempty_bits val_a; rest ← param_bits dsp_a dsp_b ks m; ok (bits ++ rest))
        else err assertion)

  abbrev pub mode_bits : Bool → Text → Text → M → Result Fault (List State)
  mode_bits false dsp_a dsp_b m = coefficient_bits dsp_a dsp_b dsp_params m
  mode_bits true dsp_a dsp_b m = do
    coefficients ← coefficient_bits dsp_a dsp_b dsp_params m
    more ← param_bits dsp_a dsp_b params_to_mode m
    ok (coefficients ++ s1 ∷ more)

  abbrev pub or_false : Option Bool → Bool
  or_false none = false
  or_false (some b) = b

  abbrev pub mode_bits_size : Bool → ℕ
  mode_bits_size use_cfg = if use_cfg then 80 + 13 else 80

  abbrev pub set_mode : Text → Bool → M → M
  set_mode simd use_cfg m =
      if use_cfg
      then m
      else e.netlist.set_port simd (e.escape_id (codes "f_mode")) (const_bit s1 ∷ []) m

  abbrev pub simd_type : Bool → Text
  simd_type use_cfg = if use_cfg then codes "QL_DSP3" else codes "QL_DSP2"

  abbrev pub fill_cell : Text → DspConfig → Text → Text → M → Result Fault M
  fill_cell simd config dsp_a dsp_b m = do
    m' ← connect_config simd (all_cfg_ports config.use_cfg_params) config m
    (let connected = connect_data simd dsp_a dsp_b data_ports m' in
        mode_bits config.use_cfg_params dsp_a dsp_b connected >>= (λ bits.
          let with_mode = set_mode simd config.use_cfg_params connected in
          let with_bits =
            e.netlist.set_param simd (e.escape_id (codes "MODE_BITS")) bits with_mode in
          let inferred = e.escape_id (codes "is_inferred") in
          if length bits == mode_bits_size config.use_cfg_params
          then ok (
              e.set_bool_attribute simd inferred
                (or_false (e.bool_attribute dsp_a inferred with_bits)
                  && or_false (e.bool_attribute dsp_b inferred with_bits))
                with_bits)
          else err assertion))

  -- One pair, whose number in the group names the new cell.
  unfoldable pub pack_pair : DspConfig → ℕ → Text → Text → M → Result Fault M
  unfolding connect_config connect_data coefficient_bits param_bits
  pack_pair config i dsp_a dsp_b m =
      let simd = e.escape_id (codes "simd" ++ e.decimal i) in
      let type = e.escape_id (simd_type config.use_cfg_params) in
      or_fault name_taken (e.add_cell simd type m)
      >>= (λ m'. if e.known type then fill_cell simd config dsp_a dsp_b m' else err unknown_type)

  -- The pairs of a group; a last cell without a partner stays.
  unfoldable pub pack_group :
      DspConfig → ℕ → List Text → M → List (Text × Text) → Result Fault (M × List (Text × Text))
  unfolding pack_pair
  pack_group config i [] m packed = ok (m, packed)
  pack_group config i (a ∷ []) m packed = ok (m, packed)
  pack_group config i (a ∷ b ∷ cells) m packed = do
    m' ← pack_pair config i a b m
    pack_group config (suc i) cells m' (packed ++ (a, b) ∷ [])

  unfoldable pub pack_groups :
      List (DspConfig × List Text) → M → List (Text × Text) → Result Fault (M × List (Text × Text))
  unfolding pack_group
  pack_groups [] m packed = ok (m, packed)
  pack_groups ((config, cells) ∷ groups) m packed = do
    done ← pack_group config 0 cells m packed
    pack_groups groups done.0 done.1

  unfoldable pub remove_pairs : List (Text × Text) → M → M
  remove_pairs [] m = m
  remove_pairs ((a, b) ∷ pairs) m = remove_pairs pairs (e.netlist.remove b (e.netlist.remove a m))

  -- `execute` on a module and its selected cells, with the pairs that were packed
  unfoldable pub pack_module : List Text → M → Result Fault (M × List (Text × Text))
  unfolding collect_groups pack_groups remove_pairs
  pack_module selected m = do
    done ← pack_groups (collect_groups selected m []) m []
    ok (remove_pairs done.1 done.0, done.1)
