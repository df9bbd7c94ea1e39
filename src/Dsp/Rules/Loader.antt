-- ===== src/Dsp/Rules/Loader.antt =====
-- dsp-ff-plugin/dsp_ff.cc, `load_rules`: the state of the parser and its handlers. A vector that
-- is read at its back is a list with the back first; `back()` of an empty one, which is never
-- called, changes nothing here. `RTLIL::escape_id` is a parameter.
use yosys_quicklogic_plugins.Base.{List, [], ◌∷◌, map, Text, codes}
use yosys_quicklogic_plugins.Base.Maps.{emplace}
use yosys_quicklogic_plugins.Base.Results.{Result, ok, err, ◌>>=◌}
use yosys_quicklogic_plugins.Dsp.Rules.{
  IdString, Dict, Bits, Consts, FlopType, PortType, RegisterType, DspType, add_port,
}
use yosys_quicklogic_plugins.Dsp.Rules.Fields.{
  Error, syntax_error, unexpected_keyword, parse_port_name,
}

-- What `tok` can hold.
pub data Section : Type 0 where
  in_dsp in_port in_ff : Section

pub record Loader (C : Type 0) : Type 0 where
  pub tok : List Section
  pub dsp_types : List (DspType C)
  pub flop_types : List (FlopType C)
  pub dsp_aliases : List IdString
  pub port_type : PortType C
  pub register_type : RegisterType C
  pub port_names : List Text

abbrev pub update_back : {A : Type 0} → (A → A) → List A → List A
update_back f [] = []
update_back f (a ∷ older) = f a ∷ older

-- `dict.insert` for each pair, which keeps what is there.
abbrev pub emplace_all : {V : Type 0} → List (IdString × V) → Dict V → Dict V
emplace_all [] m = m
emplace_all ((k, v) ∷ ls) m = emplace_all ls (emplace k v m)

module _ {C : Type 0} (escape_id : Text → IdString) (K : Consts C) where
  abbrev pub new_register : RegisterType C
  new_register = record { set_params = []; map_params = []; connect = [] }

  abbrev pub no_port : IdString × C
  no_port = ([], K.sx)

  -- `PortType()` with the name, the bits and the three associated ports
  unfoldable pub new_port : Text → Bits → PortType C
  unfolding emplace
  new_port name bits = record {
    name = escape_id name;
    bits = bits;
    assoc =
        emplace (escape_id (codes "ena")) no_port (
          emplace (escape_id (codes "rst")) no_port (emplace (escape_id (codes "clk")) no_port []));
  }

  unfoldable pub new_flop : Text → FlopType C
  unfolding emplace
  new_flop name = record {
    name = escape_id name;
    ports =
        emplace_all
          (map (λ k. (escape_id k, []))
            (codes "clk" ∷ codes "rst" ∷ codes "ena" ∷ codes "d" ∷ codes "q" ∷ []))
          [];
    matching = [];
    required = [];
    set_params = [];
    map_params = [];
  }

  -- Each handler takes the fields behind the keyword.
  unfoldable pub begin_dsp : List Text → Loader C → Result Error (Loader C)
  begin_dsp [] s = err syntax_error
  begin_dsp (name ∷ aliases) s = elim s.tok [
    | [] ↦ ok (record s {
      tok = in_dsp ∷ [];
      dsp_types = record { name = escape_id name; registers = [] } ∷ s.dsp_types;
      dsp_aliases = map escape_id aliases;
    })
    | ◌∷◌ t ts ↦ err unexpected_keyword
  ]

  unfoldable pub copies : DspType C → List IdString → List (DspType C) → List (DspType C)
  copies d [] ds = ds
  copies d (alias ∷ aliases) ds = copies d aliases (record d { name = alias } ∷ ds)

  abbrev pub copy_back : List IdString → List (DspType C) → List (DspType C)
  copy_back aliases [] = []
  copy_back aliases (d ∷ ds) = copies d aliases (d ∷ ds)

  unfoldable pub end_dsp : List Text → Loader C → Result Error (Loader C)
  unfolding copies
  end_dsp (arg ∷ args) s = err syntax_error
  end_dsp [] s = elim s.tok [
    | in_dsp ∷ [] ↦ ok (record s { tok = []; dsp_types = copy_back s.dsp_aliases s.dsp_types })
    | _ ↦ err unexpected_keyword
  ]

  unfoldable pub begin_port : List Text → Loader C → Result Error (Loader C)
  unfolding parse_port_name new_port
  begin_port [] s = err syntax_error
  begin_port (spec ∷ names) s = elim s.tok [
    | in_dsp ∷ [] ↦ (do
      groups ← parse_port_name spec
      ok (record s {
        tok = in_port ∷ in_dsp ∷ [];
        port_type = new_port groups.0 groups.1;
        register_type = new_register;
        port_names = names;
      }))
    | _ ↦ err unexpected_keyword
  ]

  -- `dspType.registers[registerType].push_back(port)`
  unfoldable pub store : RegisterType C → PortType C → DspType C → DspType C
  unfolding add_port
  store r p d = record d { registers = add_port K.same r p d.registers }

  unfoldable pub store_names :
      RegisterType C → PortType C → List Text → DspType C → Result Error (DspType C)
  unfolding store parse_port_name
  store_names r p [] d = ok d
  store_names r p (spec ∷ names) d = do
    groups ← parse_port_name spec
    store_names r p names (store r (record p { name = escape_id groups.0; bits = groups.1 }) d)

  abbrev pub store_back : Loader C → List (DspType C) → Result Error (List (DspType C))
  store_back s [] = ok []
  store_back s (d ∷ ds) = do
    d' ← store_names s.register_type s.port_type s.port_names (store s.register_type s.port_type d)
    ok (d' ∷ ds)

  abbrev pub close_port : Loader C → List Section → Result Error (Loader C)
  close_port s rest = do ds ← store_back s s.dsp_types; ok (record s { tok = rest; dsp_types = ds })

  unfoldable pub end_port : List Text → Loader C → Result Error (Loader C)
  unfolding store_names store
  end_port (arg ∷ args) s = err syntax_error
  end_port [] s = elim s.tok [
    | in_port ∷ t ∷ [] ↦ close_port s (t ∷ [])
    | _ ↦ err unexpected_keyword
  ]
