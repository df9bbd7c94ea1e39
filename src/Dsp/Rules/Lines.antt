-- ===== src/Dsp/Rules/Lines.antt =====
-- dsp-ff-plugin/dsp_ff.cc, `load_rules`: the lines within a section, the choice of the handler, and
-- the whole file.
use yosys_quicklogic_plugins.Base.{
  ℕ, zero, suc, Option, none, some, List, [], ◌∷◌, ◌++◌, map, Text, codes, text_eq, length,
  if◌then◌else◌,
}
use yosys_quicklogic_plugins.Base.Maps.{insert, emplace, contains}
use yosys_quicklogic_plugins.Base.Streams.{Stream, open_stream}
use yosys_quicklogic_plugins.Base.Results.{Result, ok, err, ◌>>=◌}
use yosys_quicklogic_plugins.Dsp.Rules.{IdString, Dict, whole, Consts, FlopType, DspType}
use yosys_quicklogic_plugins.Dsp.Rules.Tokens.{get_fields, strip_comment, is_blank_line, next_line}
use yosys_quicklogic_plugins.Dsp.Rules.Fields.{
  Error, syntax_error, unexpected_keyword, duplicated_dsp, duplicated_flop, assertion_failed,
  parse_name_value,
}
use yosys_quicklogic_plugins.Dsp.Rules.Loader.{
  in_port, in_ff, Loader, update_back, emplace_all, new_flop, new_register, begin_dsp, end_dsp,
  begin_port, end_port,
}

module _ {C : Type 0} (escape_id : Text → IdString) (K : Consts C) where
  unfoldable pub begin_ff : List Text → Loader C → Result Error (Loader C)
  unfolding new_flop
  begin_ff (name ∷ []) s = elim s.tok [
    | [] ↦ ok (record s { tok = in_ff ∷ []; flop_types = new_flop escape_id K name ∷ s.flop_types })
    | ◌∷◌ t ts ↦ err unexpected_keyword
  ]
  begin_ff _ s = err syntax_error

  unfoldable pub end_ff : List Text → Loader C → Result Error (Loader C)
  end_ff (arg ∷ args) s = err syntax_error
  end_ff [] s = elim s.tok [ in_ff ∷ [] ↦ ok (record s { tok = [] }) | _ ↦ err unexpected_keyword ]

  -- `flopTypes.back().ports[key] = ...`
  abbrev pub set_flop_port : Text → Text → Loader C → Loader C
  set_flop_port key value s = record s {
    flop_types =
        update_back (λ f. record f { ports = insert (escape_id key) (escape_id value) f.ports })
          s.flop_types;
  }

  abbrev pub port_signal : Text → List Text → Loader C → Result Error (Loader C)
  port_signal key (name ∷ value ∷ []) s = ok (record s {
    port_type = record s.port_type {
      assoc = insert (escape_id key) (escape_id name, K.from_string value) s.port_type.assoc;
    };
  })
  port_signal key _ s = err syntax_error

  abbrev pub flop_signal : Text → List Text → Loader C → Result Error (Loader C)
  flop_signal key (name ∷ []) s = ok (set_flop_port key name s)
  flop_signal key _ s = err syntax_error

  -- `clk`, `rst` and `ena`
  unfoldable pub control_signal : Text → List Text → Loader C → Result Error (Loader C)
  unfolding insert
  control_signal key args s = elim s.tok [
    | in_port ∷ ts ↦ port_signal key args s
    | in_ff ∷ ts ↦ flop_signal key args s
    | _ ↦ err unexpected_keyword
  ]

  -- `d` and `q`
  unfoldable pub data_signal : Text → List Text → Loader C → Result Error (Loader C)
  unfolding insert
  data_signal key (name ∷ []) s = elim s.tok [
    | in_ff ∷ ts ↦ ok (set_flop_port key name s)
    | _ ↦ err unexpected_keyword
  ]
  data_signal key _ s = err syntax_error

  abbrev pub constants : List (Text × Text) → Dict C
  constants vec = map (λ pair. (escape_id pair.0, K.of_string pair.1)) vec

  abbrev pub names : List (Text × Text) → Dict IdString
  names vec = map (λ pair. (escape_id pair.0, escape_id pair.1)) vec

  unfoldable pub require : List Text → Loader C → Result Error (Loader C)
  unfolding parse_name_value emplace
  require [] s = err syntax_error
  require (a ∷ as') s = elim s.tok [
    | in_ff ∷ ts ↦ (do
      vec ← parse_name_value (a ∷ as')
      ok (record s {
        flop_types =
            update_back (λ f. record f { required = emplace_all (constants vec) f.required })
              s.flop_types;
      }))
    | _ ↦ err unexpected_keyword
  ]

  unfoldable pub match_params : List Text → Loader C → Result Error (Loader C)
  match_params [] s = err syntax_error
  match_params (a ∷ as') s = elim s.tok [
    | in_ff ∷ ts ↦ ok (record s {
      flop_types =
          update_back (λ f. record f { matching = f.matching ++ map escape_id (a ∷ as') })
            s.flop_types;
    })
    | _ ↦ err unexpected_keyword
  ]

  -- `set` and `map` replace what an earlier line of the section gave.
  unfoldable pub set_params_line : List Text → Loader C → Result Error (Loader C)
  unfolding parse_name_value emplace
  set_params_line [] s = err syntax_error
  set_params_line (a ∷ as') s = elim s.tok [
    | in_port ∷ ts ↦ (do
      vec ← parse_name_value (a ∷ as')
      ok (record s {
        register_type = record s.register_type { set_params = emplace_all (constants vec) [] };
      }))
    | in_ff ∷ ts ↦ (do
      vec ← parse_name_value (a ∷ as')
      ok (record s {
        flop_types =
            update_back (λ f. record f { set_params = emplace_all (constants vec) [] })
              s.flop_types;
      }))
    | _ ↦ err unexpected_keyword
  ]

  unfoldable pub map_params_line : List Text → Loader C → Result Error (Loader C)
  unfolding parse_name_value emplace
  map_params_line [] s = err syntax_error
  map_params_line (a ∷ as') s = elim s.tok [
    | in_port ∷ ts ↦ (do
      vec ← parse_name_value (a ∷ as')
      ok (record s {
        register_type = record s.register_type { map_params = emplace_all (names vec) [] };
      }))
    | in_ff ∷ ts ↦ (do
      vec ← parse_name_value (a ∷ as')
      ok (record s {
        flop_types =
            update_back (λ f. record f { map_params = emplace_all (names vec) [] }) s.flop_types;
      }))
    | _ ↦ err unexpected_keyword
  ]

  unfoldable pub connect_line : List Text → Loader C → Result Error (Loader C)
  unfolding parse_name_value emplace
  connect_line [] s = err syntax_error
  connect_line (a ∷ as') s = elim s.tok [
    | in_port ∷ ts ↦ (do
      vec ← parse_name_value (a ∷ as')
      ok (record s {
        register_type = record s.register_type {
          connect = emplace_all (constants vec) s.register_type.connect;
        };
      }))
    | _ ↦ err unexpected_keyword
  ]

  -- The chain of tests of `fields[0]`.
  unfoldable pub handle : Text → List Text → Loader C → Result Error (Loader C)
  handle keyword args s =
      if text_eq keyword (codes "dsp")
      then begin_dsp escape_id K args s
      else if text_eq keyword (codes "enddsp")
      then end_dsp escape_id K args s
      else if text_eq keyword (codes "port")
      then begin_port escape_id K args s
      else if text_eq keyword (codes "endport")
      then end_port escape_id K args s
      else if text_eq keyword (codes "ff")
      then begin_ff args s
      else if text_eq keyword (codes "endff")
      then end_ff args s
      else if text_eq keyword (codes "clk")
      then control_signal keyword args s
      else if text_eq keyword (codes "rst")
      then control_signal keyword args s
      else if text_eq keyword (codes "ena")
      then control_signal keyword args s
      else if text_eq keyword (codes "d")
      then data_signal keyword args s
      else if text_eq keyword (codes "q")
      then data_signal keyword args s
      else if text_eq keyword (codes "require")
      then require args s
      else if text_eq keyword (codes "match")
      then match_params args s
      else if text_eq keyword (codes "set")
      then set_params_line args s
      else if text_eq keyword (codes "map")
      then map_params_line args s
      else if text_eq keyword (codes "con")
      then connect_line args s
      else err unexpected_keyword

  abbrev pub handle_fields : List Text → Loader C → Result Error (Loader C)
  handle_fields [] s = err assertion_failed
  handle_fields (keyword ∷ args) s = handle keyword args s

  -- One round of the loop, on a line.
  unfoldable pub load_line : Text → Loader C → Result Error (Loader C)
  unfolding handle get_fields strip_comment
  load_line line s =
      if is_blank_line (strip_comment line)
      then ok s
      else handle_fields (get_fields (strip_comment line)) s

  abbrev pub load_next :
      (Stream → Loader C → Result Error (Loader C))
      → Option (Text × Stream)
      → Loader C
      → Result Error (Loader C)
  load_next continue none s = ok s
  load_next continue (some (line, file)) s = do s' ← load_line line s; continue file s'

  -- `while (1)`, on fuel for the lines.
  unfoldable pub load_lines : ℕ → Stream → Loader C → Result Error (Loader C)
  unfolding next_line
  load_lines zero file s = ok s
  load_lines (suc fuel) file s = load_next (load_lines fuel) (next_line file) s

  -- The lists to maps, from the front.
  unfoldable pub collect_dsps :
      List (DspType C) → Dict (DspType C) → Result Error (Dict (DspType C))
  unfolding contains insert
  collect_dsps [] m = ok m
  collect_dsps (d ∷ older) m = do
    m' ← collect_dsps older m
    if contains d.name m' then err duplicated_dsp else ok (insert d.name d m')

  unfoldable pub collect_flops :
      List (FlopType C) → Dict (FlopType C) → Result Error (Dict (FlopType C))
  unfolding contains insert
  collect_flops [] m = ok m
  collect_flops (f ∷ older) m = do
    m' ← collect_flops older m
    if contains f.name m' then err duplicated_flop else ok (insert f.name f m')

  abbrev pub new_loader : Loader C
  new_loader = record {
    tok = [];
    dsp_types = [];
    flop_types = [];
    dsp_aliases = [];
    port_type = record { name = []; bits = whole; assoc = [] };
    register_type = new_register escape_id K;
    port_names = [];
  }

  -- `load_rules` on the content of the file, with the maps that are there already.
  unfoldable pub load_rules :
      Text
      → Dict (DspType C)
      → Dict (FlopType C)
      → Result Error (Dict (DspType C) × Dict (FlopType C))
  unfolding load_lines collect_dsps collect_flops
  load_rules content dsps flops = do
    s ← load_lines (suc (length content)) (open_stream content) new_loader
    dsps' ← collect_dsps s.dsp_types dsps
    flops' ← collect_flops s.flop_types flops
    ok (dsps', flops')
