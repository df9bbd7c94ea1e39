-- ===== src/Dsp/Flops.antt =====
-- dsp-ff-plugin/dsp_ff.cc: the flip-flops that may be integrated, and what they have in common.
use yosys_quicklogic_plugins.Base.{
  Bool, true, false, not, ◌&&◌, ◌||◌, Option, none, some, List, [], ◌∷◌, Text, codes, text_eq,
  is_empty, if◌then◌else◌,
}
use yosys_quicklogic_plugins.Base.Maps.{lookup, insert, emplace}
use yosys_quicklogic_plugins.Base.Results.{Result, ok, err, ◌>>=◌}
use yosys_quicklogic_plugins.Rtlil.{sx, SigBit, const_bit}
use yosys_quicklogic_plugins.Rtlil.Bits.{bit_eq}
use yosys_quicklogic_plugins.Rtlil.Pools.{member}
use yosys_quicklogic_plugins.Dsp.Rules.{Dict, FlopType, PortType, RegisterType, dict_eq}
use yosys_quicklogic_plugins.Dsp.Connections.{Setting}

-- An exception of a container or of RTLIL, a failed `log_assert`, or `log_error`.
pub data Failure : Type 0 where
  missing_param : Failure
  missing_port : Failure
  missing_key : Failure
  assertion : Failure

-- `FlopData`
pub record FlopData (C : Type 0) : Type 0 where
  pub type : Text
  pub conns : Dict SigBit
  pub flop : Dict C
  pub dsp : Dict C

-- `DspChanges`
pub record DspChanges : Type 0 where
  pub params : List Text
  pub conns : List Text

abbrev pub or_failure : {A : Type 0} → Failure → Option A → Result Failure A
or_failure f none = err f
or_failure f (some a) = ok a

abbrev pub is_some : {A : Type 0} → Option A → Bool
is_some none = false
is_some (some a) = true

abbrev pub and_also : Bool → Result Failure Bool → Result Failure Bool
and_also b (ok c) = ok (b && c)
and_also b (err f) = err f

-- The only bit of a signal, if it has one; `log_assert(sigbits.size() <= 1)`.
abbrev pub only_bit : List SigBit → Result Failure (Option SigBit)
only_bit [] = ok none
only_bit (b ∷ []) = ok (some b)
only_bit (b ∷ c ∷ bs) = err assertion

module _ {M C : Type 0} (e : Setting M C) where
  -- `FlopData::operator==`
  unfoldable pub flop_data_eq : FlopData C → FlopData C → Bool
  unfolding dict_eq bit_eq
  flop_data_eq l r =
      text_eq l.type r.type
      && (dict_eq bit_eq l.conns r.conns
          && (dict_eq e.consts.same l.flop r.flop && dict_eq e.consts.same l.dsp r.dsp))

  -- `getParam` and `hasParam`
  abbrev pub or_default : Option C → Option C → Result Failure C
  or_default (some c) d = ok c
  or_default none d = or_failure missing_param d

  abbrev pub param_of : Text → Text → M → Result Failure C
  param_of cell k m =
      or_default (e.netlist.own_param cell k m)
        (e.netlist.default_param (e.netlist.cell_type cell m) k)

  abbrev pub has_param : Text → Text → M → Bool
  has_param cell k m = is_some (e.netlist.own_param cell k m)

  unfoldable pub check_required : Text → Dict C → M → Result Failure Bool
  check_required cell [] m = ok true
  check_required cell ((k, v) ∷ required) m = do
    curr ← param_of cell k m
    and_also (e.consts.same curr v) (check_required cell required m)

  abbrev pub flop_type_of : Text → M → Result Failure (FlopType C)
  flop_type_of cell m = or_failure missing_key (lookup (e.netlist.cell_type cell m) e.flop_types)

  -- `checkFlop`
  unfoldable pub check_flop : Text → M → Result Failure Bool
  unfolding check_required lookup
  check_flop cell m = do
    flop_type ← flop_type_of cell m
    and_also (not (e.has_keep_attr cell m)) (check_required cell flop_type.required m)

  -- The bit at a port, if the port is named and connected.
  abbrev pub bit_at_port : Option (List SigBit) → Result Failure (Option SigBit)
  bit_at_port none = ok none
  bit_at_port (some bits) = only_bit bits

  abbrev pub named_port : Text → Text → M → Result Failure (Option SigBit)
  named_port cell port m =
      if is_empty port then ok none else bit_at_port (e.netlist.get_port cell port m)

  abbrev pub add_conn : Text → Option SigBit → Dict SigBit → Dict SigBit
  add_conn key none conns = conns
  add_conn key (some b) conns = insert key (e.sigmap b) conns

  unfoldable pub gather_conns : Text → Dict Text → M → Dict SigBit → Result Failure (Dict SigBit)
  unfolding insert
  gather_conns cell [] m conns = ok conns
  gather_conns cell ((key, port) ∷ ports) m conns =
      if text_eq key (e.escape_id (codes "d")) || text_eq key (e.escape_id (codes "q"))
      then gather_conns cell ports m conns
      else (do bit ← named_port cell port m; gather_conns cell ports m (add_conn key bit conns))

  -- Parameters that the cell has itself, as `log_assert` demands.
  unfoldable pub gather_params : Text → List Text → M → Dict C → Result Failure (Dict C)
  unfolding emplace
  gather_params cell [] m params = ok params
  gather_params cell (k ∷ ks) m params = do
    v ← or_failure assertion (e.netlist.own_param cell k m)
    gather_params cell ks m (emplace k v params)

  unfoldable pub emplace_each : Dict C → Dict C → Dict C
  unfolding emplace
  emplace_each [] params = params
  emplace_each ((k, v) ∷ more) params = emplace_each more (emplace k v params)

  abbrev pub sources : Dict Text → List Text
  sources [] = []
  sources ((k, source) ∷ ps) = source ∷ sources ps

  -- `getFlopData`
  unfoldable pub get_flop_data : Text → Dict C → M → Result Failure (FlopData C)
  unfolding gather_conns gather_params emplace_each lookup
  get_flop_data cell extra m = do
    flop_type ← or_failure assertion (lookup (e.netlist.cell_type cell m) e.flop_types)
    conns ← gather_conns cell flop_type.ports m []
    matching ← gather_params cell flop_type.matching m []
    flop ← gather_params cell (sources flop_type.map_params) m matching
    ok (record {
      type = e.netlist.cell_type cell m;
      conns = conns;
      flop = flop;
      dsp = emplace_each extra (emplace_each flop_type.set_params []);
    })

  -- The control port of the DSP is not connected, or to the net of the flip-flop.
  abbrev pub agrees_with_flop : Option SigBit → Option SigBit → Result Failure Bool
  agrees_with_flop none flop = ok true
  agrees_with_flop (some (const_bit sx)) flop = ok true
  agrees_with_flop (some conn) flop = or_failure missing_key flop >>= (λ b. ok (bit_eq conn b))

  abbrev pub map_bit : Option SigBit → Option SigBit
  map_bit none = none
  map_bit (some b) = some (e.sigmap b)

  unfoldable pub check_assoc : Text → Dict (Text × C) → FlopData C → M → Result Failure Bool
  unfolding lookup bit_eq
  check_assoc cell [] data_of m = ok true
  check_assoc cell ((key, (port, v)) ∷ assoc) data_of m = do
    conn ← named_port cell port m
    here ← agrees_with_flop (map_bit conn) (lookup key data_of.conns)
    and_also here (check_assoc cell assoc data_of m)

  unfoldable pub check_ports : Text → List (PortType C) → FlopData C → M → Result Failure Bool
  unfolding check_assoc
  check_ports cell [] data_of m = ok true
  check_ports cell (p ∷ ps) data_of m = do
    here ← check_assoc cell p.assoc data_of m
    and_also here (check_ports cell ps data_of m)

  -- `checkParam`, for a parameter that the cell has
  abbrev pub check_param : DspChanges → Text → Option C → C → Bool
  check_param changes k none next = true
  check_param changes k (some curr) next =
      e.consts.same curr next || not (member text_eq k changes.params)

  unfoldable pub check_set : Text → DspChanges → Dict C → M → Bool
  unfolding member
  check_set cell changes [] m = true
  check_set cell changes ((k, v) ∷ ps) m =
      check_param changes k (e.netlist.own_param cell k m) v && check_set cell changes ps m

  abbrev pub check_mapped : DspChanges → Text → Option C → Option C → Bool
  check_mapped changes k curr none = true
  check_mapped changes k curr (some next) = check_param changes k curr next

  unfoldable pub check_map : Text → DspChanges → Dict Text → FlopData C → M → Bool
  unfolding member lookup
  check_map cell changes [] data_of m = true
  check_map cell changes ((k, source) ∷ ps) data_of m =
      check_mapped changes k (e.netlist.own_param cell k m) (lookup source data_of.dsp)
      && check_map cell changes ps data_of m

  -- `checkFlopDataAgainstDspRegister`
  unfoldable pub check_against :
      FlopData C → DspChanges → Text → RegisterType C → List (PortType C) → M → Result Failure Bool
  unfolding check_ports check_map check_set lookup
  check_against data_of changes cell register ports m = do
    flop_type ← or_failure missing_key (lookup data_of.type e.flop_types)
    conns ← check_ports cell ports data_of m
    ok (
        conns
        && (check_map cell changes register.map_params data_of m
            && (check_set cell changes register.set_params m
                && (check_map cell changes flop_type.map_params data_of m
                    && check_set cell changes flop_type.set_params m))))
