-- ===== src/Sdc/Buffers.antt =====
-- sdc-plugin/propagation.cc: the searches for the one sink of a wire or a cell, and
-- `FindSinkWiresForCellType`, the wires behind a chain of buffers. What a selection of Yosys gives for
-- its arguments is a parameter.
use yosys_quicklogic_plugins.Base.{
  ℕ, zero, suc, Bool, true, false, Option, none, some, List, [], ◌∷◌, ◌++◌, Text, codes,
}
use yosys_quicklogic_plugins.Base.Results.{Result, ok, err, ◌>>=◌}

-- `top_module->name`, the names of wires and cells, and the cells and the wires of the top module that
-- `extra_args` selects.
pub record Selections (W C : Type 0) : Type 0 where
  pub top_name : Text
  pub wire_name : W → Text
  pub cell_name : C → Text
  pub selected_cells : List Text → List C
  pub selected_wires : List Text → List W

-- A failed `assert(selected.size() <= 1)`, or no fuel.
pub data SinkError : Type 0 where
  many_sinks : SinkError
  out_of_fuel : SinkError

-- The only selected object, if there is one; nothing stands for a null pointer.
abbrev pub only_sink : {A : Type 0} → List A → Result SinkError (Option A)
only_sink [] = ok none
only_sink (x ∷ []) = ok (some x)
only_sink (x ∷ y ∷ xs) = err many_sinks

module _ {W C : Type 0} (e : Selections W C) where
  abbrev pub wire_selection : W → Text
  wire_selection wire = e.top_name ++ (codes "/w:" ++ e.wire_name wire)

  abbrev pub cell_selection : C → Text
  cell_selection cell = e.top_name ++ (codes "/c:" ++ e.cell_name cell)

  unfoldable pub find_sink_cell_of_type : Option W → Text → Result SinkError (Option C)
  find_sink_cell_of_type none type = ok none
  find_sink_cell_of_type (some wire) type = only_sink (
      e.selected_cells
        (wire_selection wire ∷ (codes "%co:+" ++ type) ∷ wire_selection wire ∷ codes "%d" ∷ []))

  unfoldable pub find_sink_cell_on_port : Option W → Text → Result SinkError (Option C)
  find_sink_cell_on_port none port = ok none
  find_sink_cell_on_port (some wire) port = only_sink (
      e.selected_cells (
        wire_selection wire
        ∷ (codes "%co:+[" ++ (port ++ codes "]"))
        ∷ wire_selection wire
        ∷ codes "%d"
        ∷ []))

  abbrev pub is_nonempty : {A : Type 0} → List A → Bool
  is_nonempty [] = false
  is_nonempty (x ∷ xs) = true

  unfoldable pub wire_has_sink_cell : Option W → Bool
  wire_has_sink_cell none = false
  wire_has_sink_cell (some wire) = is_nonempty (
      e.selected_cells
        (wire_selection wire ∷ codes "%co:*" ∷ wire_selection wire ∷ codes "%d" ∷ []))

  unfoldable pub find_sink_wire_on_port : Option C → Text → Result SinkError (Option W)
  find_sink_wire_on_port none port_name = ok none
  find_sink_wire_on_port (some cell) port_name = only_sink (
      e.selected_wires (
        cell_selection cell
        ∷ (codes "%co:+[" ++ (port_name ++ codes "]"))
        ∷ cell_selection cell
        ∷ codes "%d"
        ∷ []))

  abbrev pub further_wires : (W → Result SinkError (List W)) → Option W → Result SinkError (List W)
  further_wires search none = ok []
  further_wires search (some wire) = do wires ← search wire; ok (wire ∷ wires)

  module _ (cell_type cell_port : Text) where
    -- The recursion, on fuel for the wires of the chain.
    unfoldable pub find_sink_wires : ℕ → Option W → Result SinkError (List W)
    unfolding find_sink_cell_of_type find_sink_wire_on_port
    find_sink_wires fuel none = ok []
    find_sink_wires zero (some driver) = err out_of_fuel
    find_sink_wires (suc fuel) (some driver) = do
      cell ← find_sink_cell_of_type (some driver) cell_type
      wire ← find_sink_wire_on_port cell cell_port
      further_wires (λ w. find_sink_wires fuel (some w)) wire
