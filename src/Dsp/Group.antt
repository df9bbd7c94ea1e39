-- ===== src/Dsp/Group.antt =====
-- dsp-ff-plugin/dsp_ff.cc: the flip-flops that a register takes in, and those that a module loses.
use mathlib.Core.Path.{subst}
use yosys_quicklogic_plugins.Base.{
  ◌≡◌, refl, sym, ap, ◌∙◌, ◌⊎◌, inl, inr, true, Option, none, some, List, [], ◌∷◌, Text, All,
  All-map,
}
use yosys_quicklogic_plugins.Base.Maps.{lookup}
use yosys_quicklogic_plugins.Base.Results.{
  Holds, Holds-any, Holds-both, Holds-if, Holds-bind, Holds-map,
}
use yosys_quicklogic_plugins.Dsp.Rules.{Dict, PortType, RegisterType, Registers, DspType}
use yosys_quicklogic_plugins.Dsp.Connections.{Setting, ConnMap}
use yosys_quicklogic_plugins.Dsp.Flops.{
  missing_key, FlopData, DspChanges, or_failure, check_against, is_some,
}
use yosys_quicklogic_plugins.Dsp.Inspect.{FoundFlops, is_set_already}
use yosys_quicklogic_plugins.Dsp.Registers.{
  PassState, changes_of, reconnect_ports, connect_control, connect_consts, set_all, map_all,
  integrate, integrate_group, process_register, process_registers, process_cell, process_cells,
}
use yosys_quicklogic_plugins.Dsp.Removal.{IsRemovable, IsLike}
use yosys_quicklogic_plugins.Dsp.Marked.{
  FlopOk, FoundOk, CellOk, inspect_ports-FoundOk, reconnect_ports-All,
}
use yosys_quicklogic_plugins.Dsp.Touched.{
  IsSetting, IsSameKind, IsSameKind-refl, IsSameKind-trans, IsTouched, IsTouched-trans,
  connect_control-IsTouched, connect_consts-IsTouched, set_all-IsTouched, map_all-IsTouched,
  reconnect_ports-IsSameKind,
}

module _ {M C : Type 0} (e : Setting M C) where
  -- A cell that was marked before, or a flip-flop of the group.
  abbrev pub IsMarked : (Text → Type 0) → M → Dict Text → FlopData C → Text → Type 0
  IsMarked P m ps g c = P c ⊎ (IsRemovable e m c × IsLike e m ps g c)

  -- Nothing is done, or there is one group that all newly marked cells are of.
  abbrev pub IsOneGroup : (Text → Type 0) → Dict Text → PassState M → PassState M → Type 0
  IsOneGroup P ps s s' = (s' ≡ s) ⊎ ((g : FlopData C) × All (IsMarked P s.design ps g) s'.to_remove)

  abbrev IsOutcome : (Text → Type 0) → Dict Text → PassState M → PassState M → Type 0
  IsOutcome P ps s s' = IsOneGroup P ps s s' × IsSameKind e s.design s'.design

  module _ (is : IsSetting e) (P : Text → Type 0) where
    CellOk-IsMarked :
        (m : M) (ps : Dict Text) (g : FlopData C) (o : Option Text)
        → FlopOk e m ps (g ∷ []) o
        → CellOk e (IsMarked P m ps g) o
    CellOk-IsMarked m ps g none h = tt
    CellOk-IsMarked m ps g (some c) (r, inl like) = inr (r, like)
    CellOk-IsMarked m ps g (some c) (r, inr h) = absurd h

    integrate-IsOutcome :
        (cell : Text) (register : RegisterType C) (ports : List (PortType C)) (g : FlopData C)
        (found : FoundFlops C) (s : PassState M)
        → All P s.to_remove
        → All (λ entry. All (FlopOk e s.design register.map_params (g ∷ [])) entry.1) found.flops
        → Holds (IsOutcome P register.map_params s) (integrate e cell register ports g found s)
    unfolding integrate
    integrate-IsOutcome cell register ports g found s h hf =
        let Q = IsMarked P s.design register.map_params g in
        let Marks : PassState M → Type 0 = λ s'. All Q s'.to_remove in
        let Kinds : PassState M → Type 0 = λ s'. IsSameKind e s.design s'.design in
        Holds-bind (λ t. Unit) (IsOutcome P register.map_params s) _ _
          (Holds-any (or_failure missing_key (lookup g.type e.flop_types)))
          (λ t u.
            Holds-bind (λ s'. Marks s' × Kinds s') (IsOutcome P register.map_params s)
              (reconnect_ports e cell t ports found.flops s) _
              (Holds-both Marks Kinds _
                (reconnect_ports-All e Q cell t ports found.flops s
                  (All-map (λ entry. All (FlopOk e s.design register.map_params (g ∷ [])) entry.1)
                    (λ entry. All (CellOk e Q) entry.1) found.flops
                    (λ entry k.
                      All-map (FlopOk e s.design register.map_params (g ∷ [])) (CellOk e Q) entry.1
                        (CellOk-IsMarked s.design register.map_params g) k)
                    hf)
                  (All-map P Q s.to_remove (λ c k. inl k) h))
                (reconnect_ports-IsSameKind e is cell t ports found.flops s))
              (λ s' (hm, hk).
                let s1 = connect_control e cell ports g s' in
                let s2 = connect_consts e cell register.connect s1 in
                let s3 = map_all e cell register.map_params g s2 in
                let s4 = map_all e cell t.map_params g s3 in
                let s5 = set_all e cell register.set_params s4 in
                let s6 = set_all e cell t.set_params s5 in
                let touched : IsTouched e s' s6 =
                  IsTouched-trans e s' s1 s6 (connect_control-IsTouched e is cell ports g s') (
                    IsTouched-trans e s1 s2 s6
                      (connect_consts-IsTouched e is cell register.connect s1)
                      (IsTouched-trans e s2 s3 s6
                        (map_all-IsTouched e is cell register.map_params g s2)
                        (IsTouched-trans e s3 s4 s6 (map_all-IsTouched e is cell t.map_params g s3)
                          (IsTouched-trans e s4 s5 s6
                            (set_all-IsTouched e is cell register.set_params s4)
                            (set_all-IsTouched e is cell t.set_params s5))))) in
                (
                  inr (g, subst (All Q) (sym touched.marks) hm),
                  IsSameKind-trans e s.design s'.design s6.design hk touched.kinds,
                )))

    unchanged : (ps : Dict Text) (s : PassState M) → IsOutcome P ps s s
    unchanged ps s = (inl refl, IsSameKind-refl e s.design)

    integrate_group-IsOutcome :
        (cell : Text) (register : RegisterType C) (ports : List (PortType C))
        (groups : List (FlopData C)) (found : FoundFlops C) (s : PassState M)
        → All P s.to_remove
        → All (λ entry. All (FlopOk e s.design register.map_params groups) entry.1) found.flops
        → Holds
            (IsOutcome P register.map_params s)
            (integrate_group e cell register ports groups found s)
    integrate_group-IsOutcome cell register ports [] found s h hf = unchanged register.map_params s
    integrate_group-IsOutcome cell register ports (g ∷ []) found s h hf =
        Holds-bind (λ good. Unit) (IsOutcome P register.map_params s) _ _
          (Holds-any (check_against e g (changes_of cell s.changes) cell register ports s.design))
          (λ good u.
            Holds-if (IsOutcome P register.map_params s) good _ _
              (integrate-IsOutcome cell register ports g found s h hf)
              (unchanged register.map_params s))
    integrate_group-IsOutcome cell register ports (x ∷ y ∷ groups) found s h hf =
        unchanged register.map_params s

    process_register-IsOutcome :
        (conns : ConnMap) (cell : Text) (register : RegisterType C) (ports : List (PortType C))
        (s : PassState M)
        → All P s.to_remove
        → Holds (IsOutcome P register.map_params s) (process_register e conns cell register ports s)
    unfolding process_register
    process_register-IsOutcome conns cell register ports s h =
        Holds-bind (λ b. Unit) (IsOutcome P register.map_params s) _ _
          (Holds-any (is_set_already e cell register.set_params s.design))
          (λ already u.
            Holds-if (IsOutcome P register.map_params s) already _ _
              (unchanged register.map_params s)
              (Holds-bind (FoundOk e s.design register.map_params)
                (IsOutcome P register.map_params s) _ _
                (inspect_ports-FoundOk e cell register ports conns s.to_remove s.design
                  (record { flops_ok = true; groups = []; flops = [] }) tt)
                (λ found hf.
                  Holds-if (IsOutcome P register.map_params s) found.flops_ok _ _
                    (integrate_group-IsOutcome cell register ports found.groups found s h hf)
                    (unchanged register.map_params s))))

  module _ (is : IsSetting e) (m : M) where
    -- The marked cells may be removed from the module as it was.
    abbrev IsSafe : PassState M → Type 0
    IsSafe s = All (IsRemovable e m) s.to_remove × IsSameKind e m s.design

    IsRemovable-before :
        (m' : M) (c : Text) → IsSameKind e m m' → IsRemovable e m' c → IsRemovable e m c
    IsRemovable-before m' c k r = record {
      known = ap (λ type. is_some (lookup type e.flop_types)) (sym (k.types c)) ∙ r.known;
      unkept = sym (k.keeps c) ∙ r.unkept;
    }

    IsSafe-after :
        (ps : Dict Text) (s s' : PassState M)
        → IsSafe s
        → IsOutcome (IsRemovable e m) ps s s'
        → IsSafe s'
    IsSafe-after ps s s' (h, k) (inl same, k') = subst IsSafe (sym same) (h, k)
    IsSafe-after ps s s' (h, k) (inr (g, marked), k') = (
      All-map (IsMarked (IsRemovable e m) s.design ps g) (IsRemovable e m) s'.to_remove
          (λ c o. elim o [ inl r ↦ r | inr r ↦ IsRemovable-before s.design c k r.0 ]) marked,
      IsSameKind-trans e m s.design s'.design k k',
    )

    process_registers-IsSafe :
        (conns : ConnMap) (cell : Text) (rules : Registers C) (s : PassState M)
        → IsSafe s
        → Holds IsSafe (process_registers e conns cell rules s)
    unfolding process_registers
    process_registers-IsSafe conns cell [] s h = h
    process_registers-IsSafe conns cell ((register, ports) ∷ rules) s h =
        Holds-bind (IsOutcome (IsRemovable e m) register.map_params s) IsSafe
          (process_register e conns cell register ports s) _
          (process_register-IsOutcome is (IsRemovable e m) conns cell register ports s h.0)
          (λ s' o.
            process_registers-IsSafe conns cell rules s'
              (IsSafe-after register.map_params s s' h o))

    process_cell-IsSafe :
        (conns : ConnMap) (cell : Text) (o : Option (DspType C)) (s : PassState M)
        → IsSafe s
        → Holds IsSafe (process_cell e conns cell o s)
    process_cell-IsSafe conns cell none s h = h
    process_cell-IsSafe conns cell (some dsp) s h =
        process_registers-IsSafe conns cell dsp.registers s h

    process_cells-IsSafe :
        (dsp_types : Dict (DspType C)) (conns : ConnMap) (cells : List Text) (s : PassState M)
        → IsSafe s
        → Holds IsSafe (process_cells e dsp_types conns cells s)
    unfolding process_cells
    process_cells-IsSafe dsp_types conns [] s h = h
    process_cells-IsSafe dsp_types conns (c ∷ cs) s h =
        Holds-bind IsSafe IsSafe
          (process_cell e conns c (lookup (e.netlist.cell_type c s.design) dsp_types) s) _
          (process_cell-IsSafe conns c (lookup (e.netlist.cell_type c s.design) dsp_types) s h)
          (λ s' h'. process_cells-IsSafe dsp_types conns cs s' h')

    -- For every table of DSP types, connection map and list of cells, with a netlist whose ports and parameters do not touch
    -- cell types and keep attributes: if all
    -- registers of the cells are processed from a state without marked cells and no error ends it,
    -- each cell that is marked for removal is, in the module as it was, of a known flip-flop type and
    -- without the attribute keep.
    pub process_cells-IsRemovable :
        (dsp_types : Dict (DspType C)) (conns : ConnMap) (cells : List Text)
        (changes : Dict DspChanges)
        → Holds
            (λ s. All (IsRemovable e m) s.to_remove)
            (process_cells e dsp_types conns cells
              (record { design = m; to_remove = []; changes = changes }))
    process_cells-IsRemovable dsp_types conns cells changes =
        Holds-map IsSafe (λ s. All (IsRemovable e m) s.to_remove) _ (λ s h. h.0)
          (process_cells-IsSafe dsp_types conns cells
            (record { design = m; to_remove = []; changes = changes }) (tt, IsSameKind-refl e m))
