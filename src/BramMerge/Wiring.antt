-- ===== src/BramMerge/Wiring.antt =====
-- ql-qlf-plugin/ql-bram-merge.cc: the ports of a merged cell.
use yosys_quicklogic_plugins.Base.{
  ◌≡◌, refl, sym, ap, ◌∙◌, Bool, true, false, not, ◌&&◌, Option, none, some, List, [], ◌∷◌, Text,
  text_eq, text_eq_refl, text_eq_iff, All, All-map, All-zip, arith,
}
use yosys_quicklogic_plugins.Base.Results.{
  Result, ok, err, Holds, Holds-self, Holds-map, Holds-bind,
}
use yosys_quicklogic_plugins.Rtlil.{IsNetlist}
use yosys_quicklogic_plugins.Dsp.Rules.{Dict}
use yosys_quicklogic_plugins.BramMerge.{
  Brams, Fault, or_missing_port, param_map, port_map, merged_cell_type, copy_param, copy_params,
  copy_ports, merge_attributes, merge_brams,
}

-- A port that is no target of the table.
abbrev NotTarget : Text → List (Text × Text) → Type 0
NotTarget r table = All (λ row. text_eq row.1 r ≡ false) table

abbrev DistinctTargets : List (Text × Text) → Type 0
DistinctTargets [] = Unit
DistinctTargets ((p, q) ∷ table) = NotTarget q table × DistinctTargets table

unfoldable lacks : Text → List (Text × Text) → Bool
unfolding text_eq
lacks r [] = true
lacks r ((p, q) ∷ table) = not (text_eq q r) && lacks r table

unfoldable all_lack : List (Text × Text) → List (Text × Text) → Bool
unfolding lacks
all_lack [] table = true
all_lack ((p, q) ∷ rows) table = lacks q table && all_lack rows table

unfoldable distinct : List (Text × Text) → Bool
unfolding lacks
distinct [] = true
distinct ((p, q) ∷ table) = lacks q table && distinct table

lacks-NotTarget : (r : Text) (table : List (Text × Text)) → lacks r table ≡ true → NotTarget r table
unfolding lacks
lacks-NotTarget r [] h = tt
lacks-NotTarget r ((p, q) ∷ table) h = (ground arith, lacks-NotTarget r table (ground arith))

all_lack-NotTarget :
    (rows table : List (Text × Text))
    → all_lack rows table ≡ true
    → All (λ row. NotTarget row.1 table) rows
unfolding all_lack
all_lack-NotTarget [] table h = tt
all_lack-NotTarget ((p, q) ∷ rows) table h =
    (lacks-NotTarget q table (ground arith), all_lack-NotTarget rows table (ground arith))

distinct-DistinctTargets :
    (table : List (Text × Text)) → distinct table ≡ true → DistinctTargets table
unfolding distinct
distinct-DistinctTargets [] h = tt
distinct-DistinctTargets ((p, q) ∷ table) h =
    (lacks-NotTarget q table (ground arith), distinct-DistinctTargets table (ground arith))

port_map-DistinctTargets : (second : Bool) → DistinctTargets (port_map second)
unfolding distinct
port_map-DistinctTargets false = distinct-DistinctTargets (port_map false) refl
port_map-DistinctTargets true = distinct-DistinctTargets (port_map true) refl

port_map-apart : All (λ row. NotTarget row.1 (port_map true)) (port_map false)
unfolding all_lack
port_map-apart = all_lack-NotTarget (port_map false) (port_map true) refl

abbrev value_or : {A : Type 0} → A → Result Fault A → A
value_or b (ok a) = a
value_or b (err f) = b

or_missing_port-ok : {A : Type 0} (o : Option A) {a : A} → or_missing_port o ≡ ok a → o ≡ some a
or_missing_port-ok none h = absurd (cc h)
or_missing_port-ok {A} (some b) h = ap (λ r. some (value_or b r)) h

module _ {M C : Type 0} (e : Brams M C) (laws : IsNetlist e.netlist) where
  -- The ports of the table are copied, and nothing else is connected anew.
  record IsCopied (c d : Text) (table : List (Text × Text)) (m m' : M) : Type 0 where
    others :
        (x r : Text) → text_eq d x ≡ false → e.netlist.get_port x r m' ≡ e.netlist.get_port x r m
    kept : (r : Text) → NotTarget r table → e.netlist.get_port d r m' ≡ e.netlist.get_port d r m
    copied : All (λ row. e.netlist.get_port d row.1 m' ≡ e.netlist.get_port c row.0 m) table

  copy_ports-IsCopied :
      (c d : Text) (table : List (Text × Text)) (m : M)
      → text_eq d c ≡ false
      → DistinctTargets table
      → Holds (IsCopied c d table m) (copy_ports e c d table m)
  unfolding copy_ports
  copy_ports-IsCopied c d [] m h distinct = record {
    others = λ x r k. refl;
    kept = λ r k. refl;
    copied = tt;
  }
  copy_ports-IsCopied c d ((p, q) ∷ table) m h (fresh, distinct) =
      let Goal = IsCopied c d ((p, q) ∷ table) m in
      Holds-bind (λ bits. or_missing_port (e.netlist.get_port c p m) ≡ ok bits) Goal
        (or_missing_port (e.netlist.get_port c p m)) _ (Holds-self _)
        (λ bits e_bits.
          let m1 = e.netlist.set_port d q bits m in
          let other : (x r : Text)
              → text_eq d x ≡ false
              → e.netlist.get_port x r m1 ≡ e.netlist.get_port x r m =
            λ x r k. laws.get_port-set_port d q x r bits m ∙ rw k refl in
          Holds-map (IsCopied c d table m1) Goal _
            (λ m' s. record {
              others = λ x r k. s.others x r k ∙ other x r k;
              kept = λ r (k, ks).
                  s.kept r ks ∙ laws.get_port-set_port d q d r bits m ∙ rw (text_eq_refl d, k) refl;
              copied = (
                s.kept q fresh
                    ∙ laws.get_port-set_port d q d q bits m
                    ∙ rw (text_eq_refl d, text_eq_refl q) refl
                    ∙ sym (or_missing_port-ok (e.netlist.get_port c p m) e_bits),
                All-map (λ row. e.netlist.get_port d row.1 m' ≡ e.netlist.get_port c row.0 m1)
                    (λ row. e.netlist.get_port d row.1 m' ≡ e.netlist.get_port c row.0 m) table
                    (λ row k. k ∙ other c row.0 h) s.copied,
              );
            })
            (copy_ports-IsCopied c d table m1 h distinct))

-- The documented behaviour of what stands beside the netlist: cells that are there keep their ports.
pub record IsBrams {M C : Type 0} (e : Brams M C) : Type 0 where
  pub laws : IsNetlist e.netlist
  pub get_port-add_cell :
      (type c r : Text) (m : M)
      → text_eq c (e.add_cell type m).0 ≡ false
      → e.netlist.get_port c r (e.add_cell type m).1 ≡ e.netlist.get_port c r m
  pub get_port-set_attributes :
      (d c r : Text) (attributes : Dict C) (m : M)
      → e.netlist.get_port c r (e.set_attributes d attributes m) ≡ e.netlist.get_port c r m

text_eq_swap : (s t : Text) → text_eq s t ≡ false → text_eq t s ≡ false
text_eq_swap s t h = ground (arith, text_eq_iff s t, text_eq_iff t s)

module _ {M C : Type 0} (e : Brams M C) (is : IsBrams e) where
  get_port-copy_param :
      (d k x r : Text) (o : Option C) (m : M)
      → e.netlist.get_port x r (copy_param e d k o m) ≡ e.netlist.get_port x r m
  get_port-copy_param d k x r none m = refl
  get_port-copy_param d k x r (some v) m = is.laws.get_port-set_param d k x r v m

  get_port-copy_params :
      (c d x r : Text) (params : List (Text × Text)) (m : M)
      → e.netlist.get_port x r (copy_params e c d params m) ≡ e.netlist.get_port x r m
  unfolding copy_params
  get_port-copy_params c d x r [] m = refl
  get_port-copy_params c d x r ((k, target) ∷ params) m =
      get_port-copy_params c d x r params _
      ∙ get_port-copy_param d target x r (e.netlist.own_param c k m) m

  -- The merged cell has the ports of a half at the ports of the table.
  abbrev pub IsWired : Text → Text → M → Bool → M → Type 0
  IsWired bram merged m second m' =
      All (λ row. e.netlist.get_port merged row.1 m' ≡ e.netlist.get_port bram row.0 m)
        (port_map second)

  module _ (bram1 bram2 : Text) (m : M) where
    abbrev pub merged : Text
    merged = (e.add_cell merged_cell_type m).0

    module _ (new1 : text_eq bram1 merged ≡ false) (new2 : text_eq bram2 merged ≡ false) where
      abbrev with_params : M
      with_params =
          copy_params e bram2 merged (param_map true)
            (copy_params e bram1 merged (param_map false) (e.add_cell merged_cell_type m).1)

      get_port-with_params :
          (c r : Text)
          → text_eq c merged ≡ false
          → e.netlist.get_port c r with_params ≡ e.netlist.get_port c r m
      get_port-with_params c r h =
          get_port-copy_params bram2 merged c r (param_map true) _
          ∙ get_port-copy_params bram1 merged c r (param_map false) _
          ∙ is.get_port-add_cell merged_cell_type c r m h

      get_port-removed :
          (r : Text) (m' : M)
          → e.netlist.get_port merged r (
              e.netlist.remove bram2
                (e.netlist.remove bram1 (merge_attributes e bram1 bram2 merged m')))
            ≡ e.netlist.get_port merged r m'
      get_port-removed r m' =
          is.laws.get_port-remove bram2 merged r _ new2
          ∙ is.laws.get_port-remove bram1 merged r _ new1
          ∙ is.get_port-set_attributes merged merged r _ m'

      -- Merging two half block RAMs, where the new cell has a name that neither has: if both have
      -- all ports that the tables ask for, and so no error ends it, the merged cell has the signals
      -- of the first at the ports of the first table, and those of the second at the ports of the
      -- second, as they were before. Adding cells, attributes and parameters changes no port.
      pub merge_brams-IsWired :
          Holds
            (λ m'. IsWired bram1 merged m false m' × IsWired bram2 merged m true m')
            (merge_brams e bram1 bram2 m)
      unfolding merge_brams
      merge_brams-IsWired =
          let Goal : M → Type 0 =
            λ m'. IsWired bram1 merged m false m' × IsWired bram2 merged m true m' in
          Holds-bind (IsCopied e is.laws bram1 merged (port_map false) with_params) Goal _ _
            (copy_ports-IsCopied e is.laws bram1 merged (port_map false) with_params
              (text_eq_swap bram1 merged new1) (port_map-DistinctTargets false))
            (λ m1 s1.
              Holds-bind (IsCopied e is.laws bram2 merged (port_map true) m1) Goal _ _
                (copy_ports-IsCopied e is.laws bram2 merged (port_map true) m1
                  (text_eq_swap bram2 merged new2) (port_map-DistinctTargets true))
                (λ m2 s2. (
                  All-map
                      (λ row.
                        NotTarget row.1 (port_map true)
                        × (e.netlist.get_port merged row.1 m1
                            ≡ e.netlist.get_port bram1 row.0 with_params))
                      _ (port_map false)
                      (λ row (apart, k).
                        get_port-removed row.1 m2
                        ∙ s2.kept row.1 apart
                        ∙ k
                        ∙ get_port-with_params bram1 row.0 new1)
                      (All-zip (λ row. NotTarget row.1 (port_map true))
                        (λ row.
                          e.netlist.get_port merged row.1 m1
                          ≡ e.netlist.get_port bram1 row.0 with_params)
                        (port_map false) port_map-apart s1.copied),
                  All-map
                      (λ row.
                        e.netlist.get_port merged row.1 m2 ≡ e.netlist.get_port bram2 row.0 m1)
                      _ (port_map true)
                      (λ row k.
                        get_port-removed row.1 m2
                        ∙ k
                        ∙ s1.others bram2 row.0 (text_eq_swap bram2 merged new2)
                        ∙ get_port-with_params bram2 row.0 new2)
                      s2.copied,
                )))
