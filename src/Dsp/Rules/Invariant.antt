-- ===== src/Dsp/Rules/Invariant.antt =====
-- dsp-ff-plugin/dsp_ff.cc, `load_rules`: every line keeps the state sound, and so does the file.
use yosys_quicklogic_plugins.Base.{◌≡◌, refl, ap, List, [], ◌∷◌, Text, codes, text_eq}
use yosys_quicklogic_plugins.Base.Results.{Holds, Holds-if, Holds-bind, Holds-any}
use yosys_quicklogic_plugins.Dsp.Rules.{IdString, Consts, FlopType, DspType}
use yosys_quicklogic_plugins.Dsp.Rules.Tokens.{get_fields, strip_comment, is_blank_line}
use yosys_quicklogic_plugins.Dsp.Rules.Fields.{parse_name_value}
use yosys_quicklogic_plugins.Dsp.Rules.Loader.{in_dsp, in_port, in_ff, Loader, update_back}
use yosys_quicklogic_plugins.Dsp.Rules.Lines.{
  begin_ff, end_ff, control_signal, data_signal, require, match_params, set_params_line,
  map_params_line, connect_line, port_signal, flop_signal, handle, handle_fields, load_line,
}
use yosys_quicklogic_plugins.Dsp.Rules.Shape.{
  outside, within_dsp, within_port, within_ff, IsSound, begin_dsp-IsSound, end_dsp-IsSound,
  begin_port-IsSound, end_port-IsSound,
}

-- Changing the flip-flop type at the back keeps the shape.
update_back-IsSound :
    {C : Type 0} (s : Loader C) (g : FlopType C → FlopType C) (f : FlopType C)
    (fs : List (FlopType C))
    → IsSound s
    → s.flop_types ≡ f ∷ fs
    → IsSound (record s { tok = in_ff ∷ []; flop_types = update_back g s.flop_types })
update_back-IsSound s g f fs h ef = record {
  shape = within_ff (g f) fs refl (ap (update_back g) ef);
  dsps = h.dsps;
  port = h.port;
}

module _ {C : Type 0} (escape_id : Text → IdString) (K : Consts C) where
  begin_ff-IsSound :
      (args : List Text) (s : Loader C) → IsSound s → Holds IsSound (begin_ff escape_id K args s)
  unfolding begin_ff
  begin_ff-IsSound [] s h = tt
  begin_ff-IsSound (a ∷ b ∷ args) s h = tt
  begin_ff-IsSound (name ∷ []) s h = elim h.shape [
    | outside e ↦ rw e (record { shape = within_ff _ _ refl refl; dsps = h.dsps; port = h.port })
    | within_dsp d ds e _ ↦ rw e tt
    | within_port d ds e _ ↦ rw e tt
    | within_ff f fs e _ ↦ rw e tt
  ]

  end_ff-IsSound :
      (args : List Text) (s : Loader C) → IsSound s → Holds IsSound (end_ff escape_id K args s)
  unfolding end_ff
  end_ff-IsSound (arg ∷ args) s h = tt
  end_ff-IsSound [] s h = elim h.shape [
    | within_ff f fs e _ ↦ rw e (record { shape = outside refl; dsps = h.dsps; port = h.port })
    | outside e ↦ rw e tt
    | within_dsp d ds e _ ↦ rw e tt
    | within_port d ds e _ ↦ rw e tt
  ]

  port_signal-IsSound :
      (key : Text) (args : List Text) (s : Loader C) (d : DspType C) (ds : List (DspType C))
      → IsSound s
      → s.dsp_types ≡ d ∷ ds
      → Holds IsSound (port_signal escape_id K key args (record s { tok = in_port ∷ in_dsp ∷ [] }))
  port_signal-IsSound key [] s d ds h ed = tt
  port_signal-IsSound key (a ∷ []) s d ds h ed = tt
  port_signal-IsSound key (a ∷ b ∷ c ∷ args) s d ds h ed = tt
  port_signal-IsSound key (a ∷ b ∷ []) s d ds h ed = record {
    shape = within_port d ds refl ed;
    dsps = h.dsps;
    port = h.port;
  }

  flop_signal-IsSound :
      (key : Text) (args : List Text) (s : Loader C) (f : FlopType C) (fs : List (FlopType C))
      → IsSound s
      → s.flop_types ≡ f ∷ fs
      → Holds IsSound (flop_signal escape_id K key args (record s { tok = in_ff ∷ [] }))
  flop_signal-IsSound key [] s f fs h ef = tt
  flop_signal-IsSound key (a ∷ b ∷ args) s f fs h ef = tt
  flop_signal-IsSound key (name ∷ []) s f fs h ef = update_back-IsSound s _ f fs h ef

  control_signal-IsSound :
      (key : Text) (args : List Text) (s : Loader C)
      → IsSound s
      → Holds IsSound (control_signal escape_id K key args s)
  unfolding control_signal
  control_signal-IsSound key args s h = elim h.shape [
    | within_port d ds e ed ↦ rw e (port_signal-IsSound key args s d ds h ed)
    | within_ff f fs e ef ↦ rw e (flop_signal-IsSound key args s f fs h ef)
    | outside e ↦ rw e tt
    | within_dsp d ds e _ ↦ rw e tt
  ]

  data_signal-IsSound :
      (key : Text) (args : List Text) (s : Loader C)
      → IsSound s
      → Holds IsSound (data_signal escape_id K key args s)
  unfolding data_signal
  data_signal-IsSound key [] s h = tt
  data_signal-IsSound key (a ∷ b ∷ args) s h = tt
  data_signal-IsSound key (name ∷ []) s h = elim h.shape [
    | within_ff f fs e ef ↦ rw e (update_back-IsSound s _ f fs h ef)
    | outside e ↦ rw e tt
    | within_dsp d ds e _ ↦ rw e tt
    | within_port d ds e _ ↦ rw e tt
  ]

  require-IsSound :
      (args : List Text) (s : Loader C) → IsSound s → Holds IsSound (require escape_id K args s)
  unfolding require
  require-IsSound [] s h = tt
  require-IsSound (a ∷ as') s h = elim h.shape [
    | within_ff f fs e ef ↦ rw e (
        Holds-bind (λ v. Unit) IsSound (parse_name_value (a ∷ as')) _ (Holds-any _)
          (λ v hv. update_back-IsSound s _ f fs h ef))
    | outside e ↦ rw e tt
    | within_dsp d ds e _ ↦ rw e tt
    | within_port d ds e _ ↦ rw e tt
  ]

  match_params-IsSound :
      (args : List Text) (s : Loader C)
      → IsSound s
      → Holds IsSound (match_params escape_id K args s)
  unfolding match_params
  match_params-IsSound [] s h = tt
  match_params-IsSound (a ∷ as') s h = elim h.shape [
    | within_ff f fs e ef ↦ rw e (update_back-IsSound s _ f fs h ef)
    | outside e ↦ rw e tt
    | within_dsp d ds e _ ↦ rw e tt
    | within_port d ds e _ ↦ rw e tt
  ]

  set_params_line-IsSound :
      (args : List Text) (s : Loader C)
      → IsSound s
      → Holds IsSound (set_params_line escape_id K args s)
  unfolding set_params_line
  set_params_line-IsSound [] s h = tt
  set_params_line-IsSound (a ∷ as') s h = elim h.shape [
    | within_port d ds e ed ↦ rw e (
        Holds-bind (λ v. Unit) IsSound (parse_name_value (a ∷ as')) _ (Holds-any _)
          (λ v hv. record { shape = within_port d ds refl ed; dsps = h.dsps; port = h.port }))
    | within_ff f fs e ef ↦ rw e (
        Holds-bind (λ v. Unit) IsSound (parse_name_value (a ∷ as')) _ (Holds-any _)
          (λ v hv. update_back-IsSound s _ f fs h ef))
    | outside e ↦ rw e tt
    | within_dsp d ds e _ ↦ rw e tt
  ]

  map_params_line-IsSound :
      (args : List Text) (s : Loader C)
      → IsSound s
      → Holds IsSound (map_params_line escape_id K args s)
  unfolding map_params_line
  map_params_line-IsSound [] s h = tt
  map_params_line-IsSound (a ∷ as') s h = elim h.shape [
    | within_port d ds e ed ↦ rw e (
        Holds-bind (λ v. Unit) IsSound (parse_name_value (a ∷ as')) _ (Holds-any _)
          (λ v hv. record { shape = within_port d ds refl ed; dsps = h.dsps; port = h.port }))
    | within_ff f fs e ef ↦ rw e (
        Holds-bind (λ v. Unit) IsSound (parse_name_value (a ∷ as')) _ (Holds-any _)
          (λ v hv. update_back-IsSound s _ f fs h ef))
    | outside e ↦ rw e tt
    | within_dsp d ds e _ ↦ rw e tt
  ]

  connect_line-IsSound :
      (args : List Text) (s : Loader C)
      → IsSound s
      → Holds IsSound (connect_line escape_id K args s)
  unfolding connect_line
  connect_line-IsSound [] s h = tt
  connect_line-IsSound (a ∷ as') s h = elim h.shape [
    | within_port d ds e ed ↦ rw e (
        Holds-bind (λ v. Unit) IsSound (parse_name_value (a ∷ as')) _ (Holds-any _)
          (λ v hv. record { shape = within_port d ds refl ed; dsps = h.dsps; port = h.port }))
    | outside e ↦ rw e tt
    | within_dsp d ds e _ ↦ rw e tt
    | within_ff f fs e _ ↦ rw e tt
  ]

  handle-IsSound :
      (keyword : Text) (args : List Text) (s : Loader C)
      → IsSound s
      → Holds IsSound (handle escape_id K keyword args s)
  unfolding handle
  handle-IsSound keyword args s h =
      (Holds-if IsSound (text_eq keyword (codes "dsp")) _ _ (begin_dsp-IsSound escape_id K args s h)
        (Holds-if IsSound (text_eq keyword (codes "enddsp")) _ _
          (end_dsp-IsSound escape_id K args s h)
          (Holds-if IsSound (text_eq keyword (codes "port")) _ _
            (begin_port-IsSound escape_id K args s h)
            (Holds-if IsSound (text_eq keyword (codes "endport")) _ _
              (end_port-IsSound escape_id K args s h)
              (Holds-if IsSound (text_eq keyword (codes "ff")) _ _ (begin_ff-IsSound args s h) (
                Holds-if IsSound (text_eq keyword (codes "endff")) _ _ (end_ff-IsSound args s h) (
                  Holds-if IsSound (text_eq keyword (codes "clk")) _ _
                    (control_signal-IsSound keyword args s h)
                    (Holds-if IsSound (text_eq keyword (codes "rst")) _ _
                      (control_signal-IsSound keyword args s h)
                      (Holds-if IsSound (text_eq keyword (codes "ena")) _ _
                        (control_signal-IsSound keyword args s h)
                        (Holds-if IsSound (text_eq keyword (codes "d")) _ _
                          (data_signal-IsSound keyword args s h)
                          (Holds-if IsSound (text_eq keyword (codes "q")) _ _
                            (data_signal-IsSound keyword args s h)
                            (Holds-if IsSound (text_eq keyword (codes "require")) _ _
                              (require-IsSound args s h)
                              (Holds-if IsSound (text_eq keyword (codes "match")) _ _
                                (match_params-IsSound args s h)
                                (Holds-if IsSound (text_eq keyword (codes "set")) _ _
                                  (set_params_line-IsSound args s h)
                                  (Holds-if IsSound (text_eq keyword (codes "map")) _ _
                                    (map_params_line-IsSound args s h)
                                    (Holds-if IsSound (text_eq keyword (codes "con")) _ _
                                      (connect_line-IsSound args s h) tt))))))))))))))))

  handle_fields-IsSound :
      (fields : List Text) (s : Loader C)
      → IsSound s
      → Holds IsSound (handle_fields escape_id K fields s)
  handle_fields-IsSound [] s h = tt
  handle_fields-IsSound (keyword ∷ args) s h = handle-IsSound keyword args s h

  -- Between two lines the sections are bracketed in one of four ways, with the type that a section
  -- is about at the back of its list; every register has a port, and every range of bits goes from
  -- low to high within an `int`. A line that is accepted keeps this so.
  pub load_line-IsSound :
      (line : Text) (s : Loader C) → IsSound s → Holds IsSound (load_line escape_id K line s)
  unfolding load_line
  load_line-IsSound line s h =
      Holds-if IsSound (is_blank_line (strip_comment line)) _ _ h
        (handle_fields-IsSound (get_fields (strip_comment line)) s h)
