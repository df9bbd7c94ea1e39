-- ===== src/Dsp/Alike.antt =====
-- dsp-ff-plugin/dsp_ff.cc: what the data of two flip-flops have in common when
-- `FlopData::operator==` holds, and what `getFlopData` takes from the cell.
use yosys_quicklogic_plugins.Base.{
  ◌≡◌, refl, inl, inr, true, ◌||◌, Option, none, some, List, [], ◌∷◌, Text, codes, text_eq,
  text_eq→eq, All, Bool-cases, arith, is_empty,
}
use yosys_quicklogic_plugins.Base.Maps.{lookup, emplace, All-insert}
use yosys_quicklogic_plugins.Base.Results.{ok, Holds, Holds-any, Holds-if, Holds-bind}
use yosys_quicklogic_plugins.Rtlil.{SigBit}
use yosys_quicklogic_plugins.Rtlil.Bits.{bit_eq, bit_eq→eq}
use yosys_quicklogic_plugins.Dsp.Rules.{Dict}
use yosys_quicklogic_plugins.Dsp.Dicts.{Agree, dict_eq-Agree}
use yosys_quicklogic_plugins.Dsp.Connections.{Setting}
use yosys_quicklogic_plugins.Dsp.Flops.{
  FlopData, or_failure, bit_at_port, named_port, add_conn, flop_data_eq, gather_conns,
  gather_params, get_flop_data, assertion, sources,
}

All-emplace :
    {V : Type 0} (P : Text × V → Type 0) (k : Text) (v : V) (m : Dict V)
    → P (k, v)
    → All P m
    → All P (emplace k v m)
unfolding emplace
All-emplace P k v [] h hm = (h, tt)
All-emplace P k v ((j, w) ∷ m) h (hj, hm) = elim (Bool-cases (text_eq j k)) [
  | inl e ↦ rw e (hj, hm)
  | inr e ↦ rw e (hj, All-emplace P k v m h hm)
]

module _ {M C : Type 0} (e : Setting M C) where
  -- The same type, the same nets at the control ports, and the same values of the parameters of the
  -- flip-flop and of those it sets in the DSP cell.
  pub record AreAlike (g d : FlopData C) : Type 0 where
    pub same_type : g.type ≡ d.type
    pub same_nets : Agree (λ b c. b ≡ c) g.conns d.conns
    pub same_params : Agree (λ v w. e.consts.same v w ≡ true) g.flop d.flop
    pub same_dsp_params : Agree (λ v w. e.consts.same v w ≡ true) g.dsp d.dsp

  pub flop_data_eq-AreAlike : (g d : FlopData C) → flop_data_eq e g d ≡ true → AreAlike g d
  unfolding flop_data_eq
  flop_data_eq-AreAlike g d h = record {
    same_type = text_eq→eq g.type d.type (ground arith);
    same_nets = dict_eq-Agree bit_eq (λ b c. b ≡ c) bit_eq→eq g.conns d.conns (ground arith);
    same_params =
        dict_eq-Agree e.consts.same (λ v w. e.consts.same v w ≡ true) (λ v w k. k) g.flop d.flop
          (ground arith);
    same_dsp_params =
        dict_eq-Agree e.consts.same (λ v w. e.consts.same v w ≡ true) (λ v w k. k) g.dsp d.dsp
          (ground arith);
  }

  module _ (m : M) (cell : Text) where
    -- The net of the only bit at a port of the cell.
    abbrev pub IsNet : Text × SigBit → Type 0
    IsNet entry =
        (port : Text) × (b : SigBit) × (e.netlist.get_port cell port m ≡ some (b ∷ []))
        × (entry.1 ≡ e.sigmap b)

    abbrev pub IsOwnParam : Text × C → Type 0
    IsOwnParam entry = e.netlist.own_param cell entry.0 m ≡ some entry.1

    -- The bit that is found, if one is.
    abbrev IsFound : Text → Option SigBit → Type 0
    IsFound port none = Unit
    IsFound port (some b) = e.netlist.get_port cell port m ≡ some (b ∷ [])

    only_bit-IsFound :
        (port : Text) (o : Option (List SigBit))
        → e.netlist.get_port cell port m ≡ o
        → Holds (IsFound port) (bit_at_port e o)
    only_bit-IsFound port none h = tt
    only_bit-IsFound port (some []) h = tt
    only_bit-IsFound port (some (b ∷ [])) h = h
    only_bit-IsFound port (some (b ∷ c ∷ bits)) h = tt

    named_port-IsFound : (port : Text) → Holds (IsFound port) (named_port e cell port m)
    named_port-IsFound port =
        Holds-if (IsFound port) (is_empty port) (ok none) _ tt
          (only_bit-IsFound port (e.netlist.get_port cell port m) refl)

    add_conn-IsNet :
        (key port : Text) (o : Option SigBit) (conns : Dict SigBit)
        → IsFound port o
        → All IsNet conns
        → All IsNet (add_conn e key o conns)
    add_conn-IsNet key port none conns h hs = hs
    add_conn-IsNet key port (some b) conns h hs =
        All-insert IsNet key (e.sigmap b) conns (port, b, h, refl) hs

    gather_conns-IsNet :
        (ports : Dict Text) (conns : Dict SigBit)
        → All IsNet conns
        → Holds (All IsNet) (gather_conns e cell ports m conns)
    unfolding gather_conns
    gather_conns-IsNet [] conns h = h
    gather_conns-IsNet ((key, port) ∷ ports) conns h =
        Holds-if (All IsNet)
          (text_eq key (e.escape_id (codes "d")) || text_eq key (e.escape_id (codes "q"))) _ _
          (gather_conns-IsNet ports conns h)
          (Holds-bind (IsFound port) (All IsNet) (named_port e cell port m) _
            (named_port-IsFound port)
            (λ o k. gather_conns-IsNet ports _ (add_conn-IsNet key port o conns k h)))

    own-IsOwnParam :
        (k : Text) (o : Option C)
        → e.netlist.own_param cell k m ≡ o
        → Holds (λ v. IsOwnParam (k, v)) (or_failure assertion o)
    own-IsOwnParam k none h = tt
    own-IsOwnParam k (some v) h = h

    gather_params-IsOwnParam :
        (ks : List Text) (params : Dict C)
        → All IsOwnParam params
        → Holds (All IsOwnParam) (gather_params e cell ks m params)
    unfolding gather_params
    gather_params-IsOwnParam [] params h = h
    gather_params-IsOwnParam (k ∷ ks) params h =
        Holds-bind (λ v. IsOwnParam (k, v)) (All IsOwnParam)
          (or_failure assertion (e.netlist.own_param cell k m)) _ (own-IsOwnParam k _ refl)
          (λ v hv. gather_params-IsOwnParam ks _ (All-emplace IsOwnParam k v params hv h))

    -- The data are those of the cell: its type, nets at its ports, and its own parameters.
    pub record IsFromCell (d : FlopData C) : Type 0 where
      pub cell_type : d.type ≡ e.netlist.cell_type cell m
      pub cell_nets : All IsNet d.conns
      pub cell_params : All IsOwnParam d.flop

    pub get_flop_data-IsFromCell :
        (extra : Dict C) → Holds IsFromCell (get_flop_data e cell extra m)
    unfolding get_flop_data
    get_flop_data-IsFromCell extra =
        Holds-bind (λ t. Unit) IsFromCell _ _
          (Holds-any (or_failure assertion (lookup (e.netlist.cell_type cell m) e.flop_types)))
          (λ t u.
            Holds-bind (All IsNet) IsFromCell (gather_conns e cell t.ports m []) _
              (gather_conns-IsNet t.ports [] tt)
              (λ conns hc.
                Holds-bind (All IsOwnParam) IsFromCell (gather_params e cell t.matching m []) _
                  (gather_params-IsOwnParam t.matching [] tt)
                  (λ matching hm.
                    Holds-bind (All IsOwnParam) IsFromCell
                      (gather_params e cell (sources e t.map_params) m matching) _
                      (gather_params-IsOwnParam (sources e t.map_params) matching hm)
                      (λ flop hf. record { cell_type = refl; cell_nets = hc; cell_params = hf }))))
