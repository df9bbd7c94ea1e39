-- ===== src/Dsp/Inspect.antt =====
-- dsp-ff-plugin/dsp_ff.cc, `processRegister`: the flip-flops at the ports of a register.
use yosys_quicklogic_plugins.Base.{
  ℕ, suc, Bool, true, false, ◌||◌, Option, none, some, List, [], ◌∷◌, Text, codes, text_eq,
  is_empty, length, ltb, if◌then◌else◌,
}
use yosys_quicklogic_plugins.Base.Maps.{lookup, insert, emplace}
use yosys_quicklogic_plugins.Base.Results.{Result, ok, err, ◌>>=◌}
use yosys_quicklogic_plugins.Rtlil.{SigBit, wire_bit, const_bit}
use yosys_quicklogic_plugins.Rtlil.Bits.{bit_eq, set_at}
use yosys_quicklogic_plugins.Rtlil.Pools.{member, add_member, find_key}
use yosys_quicklogic_plugins.Dsp.Rules.{Dict, Bits, whole, range, PortType, RegisterType}
use yosys_quicklogic_plugins.Dsp.Connections.{Setting, CellPin, cell_pin_eq, ConnMap}
use yosys_quicklogic_plugins.Dsp.Flops.{
  Failure, missing_key, assertion, FlopData, or_failure, is_some, flop_data_eq, param_of,
  check_flop, get_flop_data,
}

-- `flopsOk`, `groups` and `flops`
pub record FoundFlops (C : Type 0) : Type 0 where
  pub flops_ok : Bool
  pub groups : List (FlopData C)
  pub flops : Dict (List (Option Text))

abbrev pub nulls : {A : Type 0} → List A → List (Option Text)
nulls [] = []
nulls (x ∷ xs) = none ∷ nulls xs

abbrev pub is_excluded : Bits → ℕ → Bool
is_excluded whole i = false
is_excluded (range lo hi) i = ltb i lo || ltb hi i

-- What is found at a bit of a port: nothing to integrate, a reason to give up, or a flip-flop.
pub data Verdict : Type 0 where
  skipped : Verdict
  refused : Verdict
  flop_at : Text → Verdict

abbrev pub pins_or_none : Option (List CellPin) → List CellPin
pins_or_none none = []
pins_or_none (some pins) = pins

abbrev pub is_removed : Option Text → List Text → Bool
is_removed none removed = false
is_removed (some c) removed = member text_eq c removed

unfoldable pub remaining_sinks : List CellPin → List Text → List CellPin → List CellPin
unfolding add_member member
remaining_sinks [] removed others = others
remaining_sinks (pin ∷ pins) removed others =
    remaining_sinks pins removed
      (if is_removed pin.cell removed then others else add_member cell_pin_eq pin others)

module _ {M C : Type 0} (e : Setting M C) where
  -- A parameter to be set has its value already.
  unfoldable pub is_set_already : Text → Dict C → M → Result Failure Bool
  is_set_already cell [] m = ok false
  is_set_already cell ((k, v) ∷ ps) m = do
    curr ← param_of e cell k m
    (if e.consts.same curr v then ok true else is_set_already cell ps m)

  -- The pin at the other end of the net, from those that are there.
  abbrev pub check_pin : Text → CellPin → Bool → Text → M → Result Failure Verdict
  check_pin flop pin is_output function m = do
    flop_type ← or_failure missing_key (lookup (e.netlist.cell_type flop m) e.flop_types)
    flop_port ← or_failure missing_key (lookup (e.escape_id function) flop_type.ports)
    (if text_eq flop_port pin.port
        then (check_flop e flop m >>= (λ good. ok (if good then flop_at flop else refused)))
        else ok refused)

  abbrev pub check_other : Option Text → CellPin → Bool → M → Result Failure Verdict
  check_other none pin is_output m = ok (if is_empty pin.port then skipped else refused)
  check_other (some flop) pin is_output m =
      if is_some (lookup (e.netlist.cell_type flop m) e.flop_types)
      then check_pin flop pin is_output (if is_output then codes "d" else codes "q") m
      else ok refused

  abbrev pub check_others : List CellPin → Bool → M → Result Failure Verdict
  check_others [] is_output m = ok skipped
  check_others (pin ∷ []) is_output m = check_other pin.cell pin is_output m
  check_others (pin ∷ q ∷ pins) is_output m = ok refused

  abbrev pub check_driver : Option CellPin → List CellPin → M → Result Failure Verdict
  check_driver none sinks m = ok skipped
  check_driver (some driver) sinks m =
      if ltb 1 (length sinks) then ok refused else check_others (driver ∷ []) false m

  -- The body of the loop over the bits of a port, up to the flip-flop.
  abbrev pub inspect_net : Text → Text → ConnMap → List Text → SigBit → M → Result Failure Verdict
  inspect_net cell port conns removed sigbit m =
      let sinks = pins_or_none (find_key bit_eq sigbit conns.sinks) in
      if e.netlist.output cell port m
      then check_others (remaining_sinks sinks removed []) true m
      else check_driver (find_key bit_eq sigbit conns.drivers) sinks m

  abbrev pub inspect_bit :
      Text → PortType C → ConnMap → List Text → ℕ → SigBit → M → Result Failure Verdict
  inspect_bit cell port conns removed i (const_bit s) m = ok skipped
  inspect_bit cell port conns removed i (wire_bit w j) m =
      if is_excluded port.bits i
      then ok skipped
      else inspect_net cell port.name conns removed (wire_bit w j) m

  abbrev pub add_mapped : Text → Option C → Dict C → Dict C
  add_mapped k none params = params
  add_mapped k (some v) params = emplace k v params

  -- `mappedParams`
  unfoldable pub mapped_params : Text → Dict Text → M → Dict C → Dict C
  unfolding emplace
  mapped_params flop [] m params = params
  mapped_params flop ((k, source) ∷ ps) m params =
      mapped_params flop ps m (add_mapped k (e.netlist.own_param flop source m) params)

  abbrev pub set_flop :
      Text
      → ℕ
      → Text
      → Option (List (Option Text))
      → Dict (List (Option Text))
      → Dict (List (Option Text))
  set_flop port i flop none flops = flops
  set_flop port i flop (some cells) flops = insert port (set_at cells i (some flop)) flops

  abbrev pub note_verdict :
      RegisterType C → Text → ℕ → Verdict → M → FoundFlops C → Result Failure (FoundFlops C)
  note_verdict register port i skipped m found = ok found
  note_verdict register port i refused m found = ok (record found { flops_ok = false })
  note_verdict register port i (flop_at flop) m found = do
    data_of ← get_flop_data e flop (mapped_params flop register.map_params m []) m
    ok (record found {
      groups = add_member (flop_data_eq e) data_of found.groups;
      flops = set_flop port i flop (lookup port found.flops) found.flops;
    })

  unfoldable pub inspect_bits :
      Text
      → RegisterType C
      → PortType C
      → ConnMap
      → List Text
      → ℕ
      → List SigBit
      → M
      → FoundFlops C
      → Result Failure (FoundFlops C)
  unfolding remaining_sinks mapped_params set_at insert check_flop get_flop_data find_key
  inspect_bits cell register port conns removed i [] m found = ok found
  inspect_bits cell register port conns removed i (b ∷ bits) m found = do
    verdict ← inspect_bit cell port conns removed i (e.sigmap b) m
    found' ← note_verdict register port.name i verdict m found
    inspect_bits cell register port conns removed (suc i) bits m found'

  abbrev pub inspect_port :
      Text
      → RegisterType C
      → PortType C
      → ConnMap
      → List Text
      → Option (List SigBit)
      → M
      → FoundFlops C
      → Result Failure (FoundFlops C)
  inspect_port cell register port conns removed none m found = ok found
  inspect_port cell register port conns removed (some bits) m found =
      if e.netlist.output cell port.name m || e.netlist.input cell port.name m
      then inspect_bits cell register port conns removed 0 bits m
          (record found { flops = insert port.name (nulls bits) found.flops })
      else err assertion

  unfoldable pub inspect_ports :
      Text
      → RegisterType C
      → List (PortType C)
      → ConnMap
      → List Text
      → M
      → FoundFlops C
      → Result Failure (FoundFlops C)
  unfolding inspect_bits
  inspect_ports cell register [] conns removed m found = ok found
  inspect_ports cell register (p ∷ ps) conns removed m found = do
    found' ← inspect_port cell register p conns removed (e.netlist.get_port cell p.name m) m found
    inspect_ports cell register ps conns removed m found'
