-- ===== src/BramMerge.antt =====
-- ql-qlf-plugin/ql-bram-merge.cc: pairs of half block RAMs that are merged into one cell.
pub mod Wiring
use yosys_quicklogic_plugins.Base.{
  Bool, true, false, not, ◌&&◌, Option, none, some, List, [], ◌∷◌, ◌++◌, Text, codes, text_eq,
  if◌then◌else◌,
}
use yosys_quicklogic_plugins.Base.Results.{Result, ok, err, ◌>>=◌}
use yosys_quicklogic_plugins.Base.Maps.{emplace}
use yosys_quicklogic_plugins.Rtlil.{SigBit, Netlist}
use yosys_quicklogic_plugins.Rtlil.Pools.{add_member}
use yosys_quicklogic_plugins.Dsp.Rules.{Dict, dict_eq}

-- What the pass asks of Yosys besides the netlist: `addCell` with a new name, attributes, equality of
-- constants and the constant 1 of 32 bits, and the order in which a pool gives its elements.
pub record Brams (M C : Type 0) : Type 0 where
  pub netlist : Netlist M C
  pub add_cell : Text → M → Text × M
  pub attributes : Text → M → Dict C
  pub set_attributes : Text → Dict C → M → M
  pub same : C → C → Bool
  pub one : C
  pub order : List Text → List Text

-- A port that a cell lacks.
pub data Fault : Type 0 where
  missing_port : Fault

abbrev pub split_cell_type : Text
split_cell_type = codes "$__QLF_TDP36K"

abbrev pub merged_cell_type : Text
merged_cell_type = codes "$__QLF_TDP36K_MERGED"

abbrev pub option_split : Text
option_split = codes "\\OPTION_SPLIT"

abbrev pub param_map : Bool → List (Text × Text)
param_map false =
    (codes "\\INIT", codes "\\INIT1")
    ∷ (codes "\\PORT_A_WIDTH", codes "\\PORT_A1_WIDTH")
    ∷ (codes "\\PORT_B_WIDTH", codes "\\PORT_B1_WIDTH")
    ∷ (codes "\\PORT_A_WR_BE_WIDTH", codes "\\PORT_A1_WR_BE_WIDTH")
    ∷ (codes "\\PORT_B_WR_BE_WIDTH", codes "\\PORT_B1_WR_BE_WIDTH")
    ∷ []
param_map true =
    (codes "\\INIT", codes "\\INIT2")
    ∷ (codes "\\PORT_A_WIDTH", codes "\\PORT_A2_WIDTH")
    ∷ (codes "\\PORT_B_WIDTH", codes "\\PORT_B2_WIDTH")
    ∷ (codes "\\PORT_A_WR_BE_WIDTH", codes "\\PORT_A2_WR_BE_WIDTH")
    ∷ (codes "\\PORT_B_WR_BE_WIDTH", codes "\\PORT_B2_WR_BE_WIDTH")
    ∷ []

abbrev pub port_map : Bool → List (Text × Text)
port_map false =
    (codes "\\PORT_A_CLK", codes "\\PORT_A1_CLK")
    ∷ (codes "\\PORT_B_CLK", codes "\\PORT_B1_CLK")
    ∷ (codes "\\PORT_A_CLK_EN", codes "\\PORT_A1_CLK_EN")
    ∷ (codes "\\PORT_B_CLK_EN", codes "\\PORT_B1_CLK_EN")
    ∷ (codes "\\PORT_A_ADDR", codes "\\PORT_A1_ADDR")
    ∷ (codes "\\PORT_B_ADDR", codes "\\PORT_B1_ADDR")
    ∷ (codes "\\PORT_A_WR_DATA", codes "\\PORT_A1_WR_DATA")
    ∷ (codes "\\PORT_B_WR_DATA", codes "\\PORT_B1_WR_DATA")
    ∷ (codes "\\PORT_A_WR_EN", codes "\\PORT_A1_WR_EN")
    ∷ (codes "\\PORT_B_WR_EN", codes "\\PORT_B1_WR_EN")
    ∷ (codes "\\PORT_A_WR_BE", codes "\\PORT_A1_WR_BE")
    ∷ (codes "\\PORT_B_WR_BE", codes "\\PORT_B1_WR_BE")
    ∷ (codes "\\PORT_A_RD_DATA", codes "\\PORT_A1_RD_DATA")
    ∷ (codes "\\PORT_B_RD_DATA", codes "\\PORT_B1_RD_DATA")
    ∷ []
port_map true =
    (codes "\\PORT_A_CLK", codes "\\PORT_A2_CLK")
    ∷ (codes "\\PORT_B_CLK", codes "\\PORT_B2_CLK")
    ∷ (codes "\\PORT_A_CLK_EN", codes "\\PORT_A2_CLK_EN")
    ∷ (codes "\\PORT_B_CLK_EN", codes "\\PORT_B2_CLK_EN")
    ∷ (codes "\\PORT_A_ADDR", codes "\\PORT_A2_ADDR")
    ∷ (codes "\\PORT_B_ADDR", codes "\\PORT_B2_ADDR")
    ∷ (codes "\\PORT_A_WR_DATA", codes "\\PORT_A2_WR_DATA")
    ∷ (codes "\\PORT_B_WR_DATA", codes "\\PORT_B2_WR_DATA")
    ∷ (codes "\\PORT_A_WR_EN", codes "\\PORT_A2_WR_EN")
    ∷ (codes "\\PORT_B_WR_EN", codes "\\PORT_B2_WR_EN")
    ∷ (codes "\\PORT_A_WR_BE", codes "\\PORT_A2_WR_BE")
    ∷ (codes "\\PORT_B_WR_BE", codes "\\PORT_B2_WR_BE")
    ∷ (codes "\\PORT_A_RD_DATA", codes "\\PORT_A2_RD_DATA")
    ∷ (codes "\\PORT_B_RD_DATA", codes "\\PORT_B2_RD_DATA")
    ∷ []

abbrev pub or_missing_port : {A : Type 0} → Option A → Result Fault A
or_missing_port none = err missing_port
or_missing_port (some a) = ok a

abbrev pub holds_one : {C : Type 0} → (C → C → Bool) → C → Option C → Bool
holds_one same one none = false
holds_one same one (some c) = same c one

module _ {M C : Type 0} (e : Brams M C) where
  -- `mergeable_groups[key].insert(cell)`
  unfoldable pub insert_cell : Dict C → Text → List (Dict C × List Text) → List (Dict C × List Text)
  unfolding dict_eq add_member
  insert_cell key cell [] = (key, cell ∷ []) ∷ []
  insert_cell key cell ((k, cells) ∷ groups) =
      if dict_eq e.same k key
      then (k, add_member text_eq cell cells) ∷ groups
      else (k, cells) ∷ insert_cell key cell groups

  -- No restriction on the cells that can be merged.
  abbrev pub get_key : Text → Dict C
  get_key cell = []

  abbrev pub is_split : Text → M → Bool
  is_split cell m =
      text_eq (e.netlist.cell_type cell m) split_cell_type
      && holds_one e.same e.one (e.netlist.own_param cell option_split m)

  unfoldable pub mergeable_groups :
      List Text → M → List (Dict C × List Text) → List (Dict C × List Text)
  unfolding insert_cell
  mergeable_groups [] m groups = groups
  mergeable_groups (c ∷ cs) m groups =
      mergeable_groups cs m (if is_split c m then insert_cell (get_key c) c groups else groups)

  abbrev pub copy_param : Text → Text → Option C → M → M
  copy_param merged k none m = m
  copy_param merged k (some v) m = e.netlist.set_param merged k v m

  unfoldable pub copy_params : Text → Text → List (Text × Text) → M → M
  copy_params bram merged [] m = m
  copy_params bram merged ((k, target) ∷ params) m =
      copy_params bram merged params (copy_param merged target (e.netlist.own_param bram k m) m)

  unfoldable pub copy_ports : Text → Text → List (Text × Text) → M → Result Fault M
  copy_ports bram merged [] m = ok m
  copy_ports bram merged ((p, target) ∷ ports) m = do
    bits ← or_missing_port (e.netlist.get_port bram p m)
    copy_ports bram merged ports (e.netlist.set_port merged target bits m)

  unfoldable pub add_attributes : Dict C → Dict C → Dict C
  unfolding emplace
  add_attributes [] all = all
  add_attributes ((k, v) ∷ more) all = add_attributes more (emplace k v all)

  abbrev pub merge_attributes : Text → Text → Text → M → M
  merge_attributes bram1 bram2 merged m =
      e.set_attributes merged (add_attributes (e.attributes bram2 m) (e.attributes bram1 m)) m

  abbrev pub fill_merged : Text → Text → Text → M → Result Fault M
  fill_merged bram1 bram2 merged m = do
    m' ←
        copy_ports bram1 merged (port_map false)
          (copy_params bram2 merged (param_map true) (copy_params bram1 merged (param_map false) m))
    m'' ← copy_ports bram2 merged (port_map true) m'
    ok (e.netlist.remove bram2 (e.netlist.remove bram1 (merge_attributes bram1 bram2 merged m'')))

  unfoldable pub merge_brams : Text → Text → M → Result Fault M
  unfolding copy_params copy_ports add_attributes
  merge_brams bram1 bram2 m =
      let (merged, m') = e.add_cell merged_cell_type m in fill_merged bram1 bram2 merged m'

  -- `while (it.second.size() > 1)`, in the order of the pool
  unfoldable pub merge_pairs : List Text → M → Result Fault M
  unfolding merge_brams
  merge_pairs [] m = ok m
  merge_pairs (a ∷ []) m = ok m
  merge_pairs (a ∷ b ∷ cells) m = do m' ← merge_brams a b m; merge_pairs cells m'

  unfoldable pub merge_bram_groups : List (Dict C × List Text) → M → Result Fault M
  unfolding merge_pairs
  merge_bram_groups [] m = ok m
  merge_bram_groups ((key, cells) ∷ groups) m = do
    m' ← merge_pairs (e.order cells) m
    merge_bram_groups groups m'

  -- `execute` on a module and its selected cells
  unfoldable pub merge_module : List Text → M → Result Fault M
  unfolding mergeable_groups merge_bram_groups
  merge_module selected m = merge_bram_groups (mergeable_groups selected m []) m
