-- ===== src/Dsp/Touched.antt =====
-- dsp-ff-plugin/dsp_ff.cc: what the changes of a DSP cell leave as it was.
use yosys_quicklogic_plugins.Base.{◌≡◌, refl, ◌∙◌, Option, none, some, List, [], ◌∷◌, Text}
use yosys_quicklogic_plugins.Base.Maps.{lookup}
use yosys_quicklogic_plugins.Base.Results.{Holds, Holds-any, Holds-bind, Holds-map}
use yosys_quicklogic_plugins.Rtlil.{SigBit, IsNetlist}
use yosys_quicklogic_plugins.Dsp.Rules.{Dict, FlopType, PortType}
use yosys_quicklogic_plugins.Dsp.Connections.{Setting}
use yosys_quicklogic_plugins.Dsp.Flops.{missing_port, FlopData, or_failure}
use yosys_quicklogic_plugins.Dsp.Registers.{
  PassState, reconnect_port, reconnect_ports, take_flops, flop_port_for, function_of, change_port,
  change_param, or_const, map_one, connect_assoc, connect_control, connect_consts, set_all, map_all,
}

-- The documented behaviour: ports and parameters do not touch the attributes.
pub record IsSetting {M C : Type 0} (e : Setting M C) : Type 0 where
  pub laws : IsNetlist e.netlist
  pub keep-set_port :
      (c p d : Text) (bits : List SigBit) (m : M)
      → e.has_keep_attr d (e.netlist.set_port c p bits m) ≡ e.has_keep_attr d m
  pub keep-set_param :
      (c k d : Text) (v : C) (m : M)
      → e.has_keep_attr d (e.netlist.set_param c k v m) ≡ e.has_keep_attr d m

module _ {M C : Type 0} (e : Setting M C) where
  pub record IsSameKind (m m' : M) : Type 0 where
    pub types : (c : Text) → e.netlist.cell_type c m' ≡ e.netlist.cell_type c m
    pub keeps : (c : Text) → e.has_keep_attr c m' ≡ e.has_keep_attr c m

  pub IsSameKind-refl : (m : M) → IsSameKind m m
  IsSameKind-refl m = record { types = λ c. refl; keeps = λ c. refl }

  pub IsSameKind-trans : (m m' m'' : M) → IsSameKind m m' → IsSameKind m' m'' → IsSameKind m m''
  IsSameKind-trans m m' m'' s t = record {
    types = λ c. t.types c ∙ s.types c;
    keeps = λ c. t.keeps c ∙ s.keeps c;
  }

  -- Ports and parameters change, and no cell is marked.
  pub record IsTouched (s s' : PassState M) : Type 0 where
    pub marks : s'.to_remove ≡ s.to_remove
    pub kinds : IsSameKind s.design s'.design

  pub IsTouched-trans :
      (s s' s'' : PassState M) → IsTouched s s' → IsTouched s' s'' → IsTouched s s''
  IsTouched-trans s s' s'' t u = record {
    marks = u.marks ∙ t.marks;
    kinds = IsSameKind-trans s.design s'.design s''.design t.kinds u.kinds;
  }

  IsTouched-refl : (s : PassState M) → IsTouched s s
  IsTouched-refl s = record { marks = refl; kinds = IsSameKind-refl s.design }

  module _ (is : IsSetting e) where
    set_port-IsSameKind :
        (c p : Text) (bits : List SigBit) (m : M) → IsSameKind m (e.netlist.set_port c p bits m)
    set_port-IsSameKind c p bits m = record {
      types = λ d. is.laws.type-set_port c p d bits m;
      keeps = λ d. is.keep-set_port c p d bits m;
    }

    change_port-IsTouched :
        (c p : Text) (bits : List SigBit) (s : PassState M) → IsTouched s (change_port e c p bits s)
    change_port-IsTouched c p bits s = record {
      marks = refl;
      kinds = set_port-IsSameKind c p bits s.design;
    }

    change_param-IsTouched :
        (c k : Text) (v : C) (s : PassState M) → IsTouched s (change_param e c k v s)
    change_param-IsTouched c k v s = record {
      marks = refl;
      kinds = record {
        types = λ d. is.laws.type-set_param c k d v s.design;
        keeps = λ d. is.keep-set_param c k d v s.design;
      };
    }

    connect_assoc-IsTouched :
        (c : Text) (assoc : Dict (Text × C)) (g : FlopData C) (s : PassState M)
        → IsTouched s (connect_assoc e c assoc g s)
    unfolding connect_assoc
    connect_assoc-IsTouched c [] g s = IsTouched-refl s
    connect_assoc-IsTouched c ((key, (port, v)) ∷ assoc) g s =
        IsTouched-trans s _ _
          (change_port-IsTouched c port (or_const e (lookup key g.conns) v ∷ []) s)
          (connect_assoc-IsTouched c assoc g _)

    pub connect_control-IsTouched :
        (c : Text) (ports : List (PortType C)) (g : FlopData C) (s : PassState M)
        → IsTouched s (connect_control e c ports g s)
    unfolding connect_control
    connect_control-IsTouched c [] g s = IsTouched-refl s
    connect_control-IsTouched c (p ∷ ps) g s =
        IsTouched-trans s _ _ (connect_assoc-IsTouched c p.assoc g s)
          (connect_control-IsTouched c ps g _)

    pub connect_consts-IsTouched :
        (c : Text) (connect : Dict C) (s : PassState M) → IsTouched s (connect_consts e c connect s)
    unfolding connect_consts
    connect_consts-IsTouched c [] s = IsTouched-refl s
    connect_consts-IsTouched c ((port, v) ∷ more) s =
        IsTouched-trans s _ _ (change_port-IsTouched c port (e.bits_of_const v) s)
          (connect_consts-IsTouched c more _)

    pub set_all-IsTouched :
        (c : Text) (params : Dict C) (s : PassState M) → IsTouched s (set_all e c params s)
    unfolding set_all
    set_all-IsTouched c [] s = IsTouched-refl s
    set_all-IsTouched c ((k, v) ∷ more) s =
        IsTouched-trans s _ _ (change_param-IsTouched c k v s) (set_all-IsTouched c more _)

    map_one-IsTouched :
        (c k : Text) (o : Option C) (s : PassState M) → IsTouched s (map_one e c k o s)
    map_one-IsTouched c k none s = IsTouched-refl s
    map_one-IsTouched c k (some v) s = change_param-IsTouched c k v s

    pub map_all-IsTouched :
        (c : Text) (params : Dict Text) (g : FlopData C) (s : PassState M)
        → IsTouched s (map_all e c params g s)
    unfolding map_all
    map_all-IsTouched c [] g s = IsTouched-refl s
    map_all-IsTouched c ((k, source) ∷ more) g s =
        IsTouched-trans s _ _ (map_one-IsTouched c k (lookup source g.dsp) s)
          (map_all-IsTouched c more g _)

    reconnect_port-IsSameKind :
        (c : Text) (t : FlopType C) (port : Text) (o : Option (List (Option Text)))
        (s : PassState M)
        → Holds (λ s'. IsSameKind s.design s'.design) (reconnect_port e c t port o s)
    reconnect_port-IsSameKind c t port none s = IsSameKind-refl s.design
    reconnect_port-IsSameKind c t port (some cells) s =
        let Goal : PassState M → Type 0 = λ s'. IsSameKind s.design s'.design in
        Holds-bind (λ bits. Unit) Goal _ _
          (Holds-any (or_failure missing_port (e.netlist.get_port c port s.design)))
          (λ bits u.
            Holds-bind (λ p. Unit) Goal _ _
              (Holds-any (
                flop_port_for e cells
                  (lookup (e.escape_id (function_of e c port s.design)) t.ports)))
              (λ p w.
                Holds-bind (λ taken. Unit) Goal _ _
                  (Holds-any (take_flops e p 0 cells bits s.design s.to_remove))
                  (λ taken k. set_port-IsSameKind c port taken.0 s.design)))

    pub reconnect_ports-IsSameKind :
        (c : Text) (t : FlopType C) (ports : List (PortType C)) (flops : Dict (List (Option Text)))
        (s : PassState M)
        → Holds (λ s'. IsSameKind s.design s'.design) (reconnect_ports e c t ports flops s)
    unfolding reconnect_ports
    reconnect_ports-IsSameKind c t [] flops s = IsSameKind-refl s.design
    reconnect_ports-IsSameKind c t (p ∷ ps) flops s =
        Holds-bind (λ s'. IsSameKind s.design s'.design) (λ s'. IsSameKind s.design s'.design) _ _
          (reconnect_port-IsSameKind c t p.name (lookup p.name flops) s)
          (λ s' h.
            Holds-map (λ s''. IsSameKind s'.design s''.design)
              (λ s''. IsSameKind s.design s''.design) _
              (λ s'' k. IsSameKind-trans s.design s'.design s''.design h k)
              (reconnect_ports-IsSameKind c t ps flops s'))
