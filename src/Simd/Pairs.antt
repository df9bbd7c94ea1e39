-- ===== src/Simd/Pairs.antt =====
-- ql-qlf-plugin/ql-dsp-simd.cc: which cells are packed together.
use mathlib.Core.Path.{subst}
use mathlib.Core.Option.{some-injective}
use yosys_quicklogic_plugins.Base.{
  ℕ, suc, ◌≡◌, refl, sym, ap, ◌∙◌, inl, inr, Bool, true, false, ◌&&◌, Option, none, some, List, [],
  ◌∷◌, ◌++◌, Text, All, All-append, All-map, All-zip, text_eq, text_eq→eq, text_eq_refl, Bool-cases,
  arith,
}
use yosys_quicklogic_plugins.Base.Chars.{strip_prefix, strip_prefix_lem}
use yosys_quicklogic_plugins.Base.Maps.{lookup, insert, lookup-insert}
use yosys_quicklogic_plugins.Base.Results.{Holds, Holds-any, Holds-bind}
use yosys_quicklogic_plugins.Rtlil.{SigBit}
use yosys_quicklogic_plugins.Rtlil.Bits.{bit_eq→eq}
use yosys_quicklogic_plugins.Dsp.Rules.{Dict, dict_eq}
use yosys_quicklogic_plugins.Dsp.Dicts.{HasMatch, dict_eq-Agree, lookup-HasMatch}
use yosys_quicklogic_plugins.Simd.{
  Cells, DspConfig, bits_eq, bool_eq, config_eq, push_cell, is_there, map_bits, is_candidate,
  sisd_type, cfg_suffix, ends_with, all_cfg_ports, config_connections, get_dsp_config,
  collect_groups, pack_pair, pack_group, pack_groups, pack_module,
}

bits_eq→eq : (bs cs : List SigBit) → bits_eq bs cs ≡ true → bs ≡ cs
unfolding bits_eq
bits_eq→eq [] [] h = refl
bits_eq→eq (b ∷ bs) (c ∷ cs) h =
    ap (λ x. x ∷ bs) (bit_eq→eq b c (ground arith))
    ∙ ap (λ xs. c ∷ xs) (bits_eq→eq bs cs (ground arith))
bits_eq→eq [] (c ∷ cs) h = cc
bits_eq→eq (b ∷ bs) [] h = cc

bool_eq→eq : (a b : Bool) → bool_eq a b ≡ true → a ≡ b
bool_eq→eq true b h = sym h
bool_eq→eq false b h = ground arith

All-any : {A : Type 0} (P : A → Type 0) (xs : List A) → ((x : A) → P x) → All P xs
All-any P [] f = tt
All-any P (x ∷ xs) f = (f x, All-any P xs f)

both_true : (a b : Bool) → (a && b) ≡ true → (a ≡ true) × (b ≡ true)
both_true a b h = (ground arith, ground arith)

config_eq-both :
    (l r : DspConfig)
    → config_eq l r ≡ true
    → (dict_eq bits_eq l.connections r.connections ≡ true) × (l.use_cfg_params ≡ r.use_cfg_params)
unfolding config_eq
config_eq-both l r h =
    let (nets, mode) = both_true (dict_eq bits_eq l.connections r.connections) _ h in
    (nets, bool_eq→eq l.use_cfg_params r.use_cfg_params mode)

module _ {M : Type 0} (e : Cells M) (m : M) where
  -- The type of a cell is that of the DSP and some more, and the cell need not be kept.
  pub record IsCandidate (c : Text) : Type 0 where
    pub variant : Text
    pub has_type : e.netlist.cell_type c m ≡ e.escape_id sisd_type ++ variant
    pub unkept : e.has_keep_attr c m ≡ false

  -- Whether the type ends in `_cfg_params`.
  abbrev pub uses_params : Text → Bool
  uses_params c = ends_with cfg_suffix (e.netlist.cell_type c m)

  -- The nets at a port of a cell; a port that is not connected stands for one undefined bit.
  abbrev pub nets_at : Text → Text → List SigBit
  nets_at c port = map_bits e (e.netlist.get_port c port m)

  -- Two cells both take the configuration from parameters or both from ports, and all their
  -- configuration ports are on the same nets.
  pub record IsAlike (c d : Text) : Type 0 where
    pub same_use : uses_params c ≡ uses_params d
    pub same_nets :
        All
          (λ port. nets_at c (e.escape_id port.0) ≡ nets_at d (e.escape_id port.0))
          (all_cfg_ports (uses_params c))

  there-strip_prefix :
      (p s : Text) (o : Option Text)
      → strip_prefix p s ≡ o
      → is_there o ≡ true
      → (rest : Text) × (s ≡ p ++ rest)
  there-strip_prefix p s none h k = absurd (cc k)
  there-strip_prefix p s (some rest) h k = (rest, strip_prefix_lem p s h)

  is_candidate-IsCandidate : (c : Text) → is_candidate e c m ≡ true → IsCandidate c
  is_candidate-IsCandidate c h =
      let (rest, type) =
        there-strip_prefix (e.escape_id sisd_type) (e.netlist.cell_type c m) _ refl
          (ground arith) in
      record { variant = rest; has_type = type; unkept = ground arith }

  -- Under a key stand the nets at the port of that name.
  abbrev HasNets : Text → Dict (List SigBit) → Text → Type 0
  HasNets c conns key = lookup key conns ≡ some (nets_at c key)

  HasNets-insert :
      (c p key : Text) (conns : Dict (List SigBit))
      → HasNets c conns key
      → HasNets c (insert p (nets_at c p) conns) key
  HasNets-insert c p key conns h = elim (Bool-cases (text_eq p key)) [
    | inl g ↦
        lookup-insert p key (nets_at c p) conns
        ∙ rw g (ap (λ q. some (nets_at c q)) (text_eq→eq p key g))
    | inr g ↦ lookup-insert p key (nets_at c p) conns ∙ rw g h
  ]

  HasNets-kept :
      (c key : Text) (ports : List (Text × Text)) (conns : Dict (List SigBit))
      → HasNets c conns key
      → HasNets c (config_connections e c ports m conns) key
  unfolding config_connections
  HasNets-kept c key [] conns h = h
  HasNets-kept c key ((port, target) ∷ ports) conns h =
      HasNets-kept c key ports _ (HasNets-insert c (e.escape_id port) key conns h)

  HasNets-ports :
      (c : Text) (ports : List (Text × Text)) (conns : Dict (List SigBit))
      → All (λ port. HasNets c (config_connections e c ports m conns) (e.escape_id port.0)) ports
  unfolding config_connections
  HasNets-ports c [] conns = tt
  HasNets-ports c ((port, target) ∷ ports) conns =
      let p = e.escape_id port in
      (
        HasNets-kept c p ports _ (lookup-insert p p _ conns ∙ rw (text_eq_refl p) refl),
        HasNets-ports c ports _,
      )

  nets_equal :
      (c d : Text) (l k : Dict (List SigBit)) (ports : List (Text × Text))
      → All (HasMatch (λ x y. x ≡ y) k) l
      → All (λ port. HasNets c l (e.escape_id port.0)) ports
      → All (λ port. HasNets d k (e.escape_id port.0)) ports
      → All (λ port. nets_at c (e.escape_id port.0) ≡ nets_at d (e.escape_id port.0)) ports
  nets_equal c d l k [] agree hc hd = tt
  nets_equal c d l k (port ∷ ports) agree (in_c, hc) (in_d, hd) = (
    some-injective _ _ (
        sym (lookup-HasMatch l k (e.escape_id port.0) (nets_at c (e.escape_id port.0)) agree in_c)
        ∙ in_d),
    nets_equal c d l k ports agree hc hd,
  )

  config_eq-IsAlike :
      (c d : Text) → config_eq (get_dsp_config e c m) (get_dsp_config e d m) ≡ true → IsAlike c d
  unfolding get_dsp_config
  config_eq-IsAlike c d h =
      let (equal, same_use) = config_eq-both (get_dsp_config e c m) (get_dsp_config e d m) h in
      let agree =
        dict_eq-Agree bits_eq (λ x y. x ≡ y) bits_eq→eq (get_dsp_config e c m).connections
          (get_dsp_config e d m).connections equal in
      let in_d =
        subst
          (λ b.
            All (λ port. HasNets d (get_dsp_config e d m).connections (e.escape_id port.0))
              (all_cfg_ports b))
          (sym same_use) (HasNets-ports d (all_cfg_ports (uses_params d)) []) in
      record {
        same_use = same_use;
        same_nets =
            nets_equal c d (get_dsp_config e c m).connections (get_dsp_config e d m).connections
              (all_cfg_ports (uses_params c)) agree.1
              (HasNets-ports c (all_cfg_ports (uses_params c)) []) in_d;
      }

  IsAlike-refl : (c : Text) → IsAlike c c
  IsAlike-refl c = record { same_use = refl; same_nets = All-any _ _ (λ port. refl) }

  IsAlike-both : (c a b : Text) → IsAlike c a → IsAlike c b → IsAlike a b
  IsAlike-both c a b h k = record {
    same_use = sym h.same_use ∙ k.same_use;
    same_nets =
        subst
          (λ u.
            All (λ port. nets_at a (e.escape_id port.0) ≡ nets_at b (e.escape_id port.0))
              (all_cfg_ports u))
          h.same_use
          (All-map _ _ (all_cfg_ports (uses_params c)) (λ port (ha, hb). sym ha ∙ hb)
            (All-zip _ _ (all_cfg_ports (uses_params c)) h.same_nets k.same_nets));
  }

  abbrev IsOf : Text → Text → Type 0
  IsOf c d = IsCandidate d × IsAlike c d

  -- The key of a group is the configuration of a cell that all of the group are alike.
  abbrev IsGroup : DspConfig × List Text → Type 0
  IsGroup (key, cells) = (c : Text) × (key ≡ get_dsp_config e c m) × All (IsOf c) cells

  push_cell-IsGroup :
      (d : Text) (groups : List (DspConfig × List Text))
      → is_candidate e d m ≡ true
      → All IsGroup groups
      → All IsGroup (push_cell (get_dsp_config e d m) d groups)
  unfolding push_cell
  push_cell-IsGroup d [] k h = ((d, refl, ((is_candidate-IsCandidate d k, IsAlike-refl d), tt)), tt)
  push_cell-IsGroup d ((key, cells) ∷ groups) k ((c, of_c, h), hs) =
      elim (Bool-cases (config_eq key (get_dsp_config e d m))) [
        | inl g ↦ rw g (
          (
            c,
            of_c,
            All-append (IsOf c) cells (d ∷ []) h (
              (
                is_candidate-IsCandidate d k,
                config_eq-IsAlike c d
                    (subst (λ x. config_eq x (get_dsp_config e d m) ≡ true) of_c g),
              ),
              tt,
            ),
          ),
          hs,
        )
        | inr g ↦ rw g ((c, of_c, h), push_cell-IsGroup d groups k hs)
      ]

  collect_groups-IsGroup :
      (cells : List Text) (groups : List (DspConfig × List Text))
      → All IsGroup groups
      → All IsGroup (collect_groups e cells m groups)
  unfolding collect_groups
  collect_groups-IsGroup [] groups h = h
  collect_groups-IsGroup (c ∷ cs) groups h =
      collect_groups-IsGroup cs _ (elim (Bool-cases (is_candidate e c m)) [
        | inl k ↦ rw k (push_cell-IsGroup c groups k h)
        | inr k ↦ rw k h
      ])

  -- Two candidates that are alike.
  abbrev pub IsPair : Text × Text → Type 0
  IsPair (a, b) = IsCandidate a × IsCandidate b × IsAlike a b

  pack_group-IsPair :
      (c : Text) (key : DspConfig) (i : ℕ) (cells : List Text) (m' : M)
      (packed : List (Text × Text))
      → All (IsOf c) cells
      → All IsPair packed
      → Holds (λ done. All IsPair done.1) (pack_group e key i cells m' packed)
  unfolding pack_group
  pack_group-IsPair c key i [] m' packed h hp = hp
  pack_group-IsPair c key i (a ∷ []) m' packed h hp = hp
  pack_group-IsPair c key i (a ∷ b ∷ cells) m' packed (ha, (hb, h)) hp =
      Holds-bind (λ m''. Unit) (λ done. All IsPair done.1) (pack_pair e key i a b m') _
        (Holds-any _)
        (λ m'' u. pack_group-IsPair c key (suc i) cells m'' _ h (
          All-append IsPair packed ((a, b) ∷ []) hp
            ((ha.0, hb.0, IsAlike-both c a b ha.1 hb.1), tt)))

  pack_groups-IsPair :
      (groups : List (DspConfig × List Text)) (m' : M) (packed : List (Text × Text))
      → All IsGroup groups
      → All IsPair packed
      → Holds (λ done. All IsPair done.1) (pack_groups e groups m' packed)
  unfolding pack_groups
  pack_groups-IsPair [] m' packed h hp = hp
  pack_groups-IsPair ((key, cells) ∷ groups) m' packed ((c, of_c, h), hs) hp =
      Holds-bind (λ done. All IsPair done.1) (λ done. All IsPair done.1)
        (pack_group e key 0 cells m' packed) _ (pack_group-IsPair c key 0 cells m' packed h hp)
        (λ done hd. pack_groups-IsPair groups done.0 done.1 hs hd)

  -- For every selection of cells: if the pass ends without an error, each pair of cells that it has
  -- packed into one cell, and removed, is of two cells whose types begin with that of the DSP and
  -- which do not have the attribute keep, whose types both end in `_cfg_params` or both do not, and
  -- which have the same nets at every control port, and, unless the types end in `_cfg_params`, at
  -- every port for what are parameters else.
  pub pack_module-IsPair :
      (selected : List Text) → Holds (λ done. All IsPair done.1) (pack_module e selected m)
  unfolding pack_module
  pack_module-IsPair selected =
      Holds-bind (λ done. All IsPair done.1) (λ done. All IsPair done.1)
        (pack_groups e (collect_groups e selected m []) m []) _
        (pack_groups-IsPair (collect_groups e selected m []) m []
          (collect_groups-IsGroup selected [] tt) tt)
        (λ done h. h)
