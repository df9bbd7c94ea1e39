-- ===== src/Sdc/Chains.antt =====
-- sdc-plugin/propagation.cc: what `FindSinkWiresForCellType` finds.
use mathlib.Core.Path.{subst}
use yosys_quicklogic_plugins.Base.{
  ℕ, zero, suc, ◌<◌, ◌≡◌, refl, sym, ◌⊎◌, inl, inr, some, List, [], ◌∷◌, ◌++◌, Text, codes, arith,
}
use yosys_quicklogic_plugins.Base.Results.{Result, ok, err, ◌>>=◌}
use yosys_quicklogic_plugins.Sdc.Buffers.{
  Selections, SinkError, many_sinks, out_of_fuel, only_sink, find_sink_cell_of_type,
  find_sink_wire_on_port, further_wires, find_sink_wires,
}

-- More than one.
abbrev pub IsMany : {A : Type 0} → List A → Type 0
IsMany [] = ⊥
IsMany (x ∷ []) = ⊥
IsMany (x ∷ y ∷ xs) = Unit

module _ {W C : Type 0} (e : Selections W C) (cell_type cell_port : Text) where
  -- The cells of the type behind a wire: `<top>/w:<wire> %co:+<type> <top>/w:<wire> %d`.
  abbrev pub cells_behind : W → List C
  cells_behind wire =
      let base = e.top_name ++ (codes "/w:" ++ e.wire_name wire) in
      e.selected_cells (base ∷ (codes "%co:+" ++ cell_type) ∷ base ∷ codes "%d" ∷ [])

  -- The wires on the port of a cell: `<top>/c:<cell> %co:+[<port>] <top>/c:<cell> %d`.
  abbrev pub wires_behind : C → List W
  wires_behind cell =
      let base = e.top_name ++ (codes "/c:" ++ e.cell_name cell) in
      e.selected_wires
        (base ∷ (codes "%co:+[" ++ (cell_port ++ codes "]")) ∷ base ∷ codes "%d" ∷ [])

  -- The first wire drives one cell of the type, which has one wire, the second, on the port.
  abbrev pub IsStep : W → W → Type 0
  IsStep v w = (c : C) × (cells_behind v ≡ c ∷ []) × (wires_behind c ≡ w ∷ [])

  -- The wire drives no such cell, or the cell has no wire on the port.
  abbrev pub IsEnd : W → Type 0
  IsEnd v = (cells_behind v ≡ []) ⊎ ((c : C) × (cells_behind v ≡ c ∷ []) × (wires_behind c ≡ []))

  -- The wire drives several such cells, or the cell has several wires on the port.
  abbrev pub IsFork : W → Type 0
  IsFork v =
      IsMany (cells_behind v) ⊎ ((c : C) × (cells_behind v ≡ c ∷ []) × IsMany (wires_behind c))

  -- The wires behind a wire, in order, up to the end.
  abbrev pub IsChain : W → List W → Type 0
  IsChain driver [] = IsEnd driver
  IsChain driver (wire ∷ wires) = IsStep driver wire × IsChain wire wires

  -- Steps lead to a fork.
  pub data LeadsToFork : W → Type 0 where
    fork_here : (v : W) → IsFork v → LeadsToFork v
    fork_behind : (v w : W) → IsStep v w → LeadsToFork w → LeadsToFork v

  -- The result for a driver.
  abbrev pub IsSearched : W → Result SinkError (List W) → Type 0
  IsSearched driver (ok wires) = IsChain driver wires
  IsSearched driver (err many_sinks) = LeadsToFork driver
  IsSearched driver (err out_of_fuel) = ⊥

  after_step :
      (driver wire : W) (found : Result SinkError (List W))
      → IsStep driver wire
      → IsSearched wire found
      → IsSearched driver (found >>= (λ wires. ok (wire ∷ wires)))
  after_step driver wire (ok wires) step h = (step, h)
  after_step driver wire (err many_sinks) step h = fork_behind driver wire step h
  after_step driver wire (err out_of_fuel) step h = h

  after_wires :
      (search : W → Result SinkError (List W)) (driver : W) (c : C) (wires : List W)
      → cells_behind driver ≡ c ∷ []
      → wires_behind c ≡ wires
      → ((wire : W) → IsStep driver wire → IsSearched wire (search wire))
      → IsSearched driver (only_sink wires >>= further_wires e search)
  after_wires search driver c [] hc hw h = inr (c, hc, hw)
  after_wires search driver c (w ∷ []) hc hw h =
      after_step driver w (search w) (c, hc, hw) (h w (c, hc, hw))
  after_wires search driver c (w ∷ x ∷ ws) hc hw h =
      fork_here driver (inr (c, hc, subst IsMany (sym hw) tt))

  after_cells :
      (search : W → Result SinkError (List W)) (driver : W) (cells : List C)
      → cells_behind driver ≡ cells
      → ((wire : W) → IsStep driver wire → IsSearched wire (search wire))
      → IsSearched driver (
          only_sink cells
          >>= (λ cell. find_sink_wire_on_port e cell cell_port >>= further_wires e search))
  unfolding find_sink_wire_on_port
  after_cells search driver [] hc h = inl hc
  after_cells search driver (c ∷ []) hc h = after_wires search driver c (wires_behind c) hc refl h
  after_cells search driver (c ∷ d ∷ cs) hc h = fork_here driver (inl (subst IsMany (sym hc) tt))

  -- If a rank falls along every step, so that no buffers stand in a ring, then with more fuel than the
  -- driver's rank the search gives all the wires behind the driver, in order, where each wire drives
  -- one cell of the type with one wire on the port, up to a wire behind which there is none; or it
  -- ends at an assertion, and then such steps lead from the driver to a wire with several sinks.
  pub find_sink_wires-IsSearched :
      (rank : W → ℕ)
      → ((v w : W) → IsStep v w → rank w < rank v)
      → (fuel : ℕ) (driver : W) → rank driver < fuel
      → IsSearched driver (find_sink_wires e cell_type cell_port fuel (some driver))
  unfolding find_sink_wires find_sink_cell_of_type
  find_sink_wires-IsSearched rank falls zero driver h = elim h [ ]
  find_sink_wires-IsSearched rank falls (suc fuel) driver h =
      after_cells (λ w. find_sink_wires e cell_type cell_port fuel (some w)) driver
        (cells_behind driver) refl
        (λ wire step.
          find_sink_wires-IsSearched rank falls fuel wire (omega (arith, falls driver wire step)))
