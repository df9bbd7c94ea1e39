-- ===== src/Sdc/Attributes.antt =====
-- sdc-plugin/clocks.cc: what `Clock::Add` writes to the attributes of a wire is what the other
-- functions of `Clock` read.
use yosys_quicklogic_plugins.Base.{
  ◌≡◌, ◌≢◌, refl, sym, ap, ◌∙◌, Bool, true, false, some, [], ◌++◌, Text, codes, text_eq,
  text_eq_refl, if◌then◌else◌,
}
use yosys_quicklogic_plugins.Base.Results.{ok, ◌>>=◌}
use yosys_quicklogic_plugins.Sdc.Clocks.{
  Wires, Floats, ClockType, is_explicit_type, is_generated_type, is_propagated_type, add_clock,
  wire_name, waveform_text, clock_period, clock_waveform, clock_name, source_wire_name, clock_line,
  clock_text, flag, is_clock, add_escaping, read_period, read_waveform,
}

-- The documented behaviour of the attributes of a wire: an attribute that is set to a text that is
-- not empty is there and gives that text, a flag is read as it was set, and other attributes and the
-- name stay.
pub record IsWires {W : Type 0} (wires : Wires W) : Type 0 where
  pub has-set_string :
      (j k v : Text) (w : W)
      → v ≢ []
      → wires.has_attribute j (wires.set_string k v w)
        ≡ (if text_eq k j then true else wires.has_attribute j w)
  pub get-set_string :
      (j k v : Text) (w : W)
      → wires.get_string j (wires.set_string k v w)
        ≡ (if text_eq k j then v else wires.get_string j w)
  pub has-set_bool :
      (j k : Text) (b : Bool) (w : W)
      → text_eq k j ≡ false
      → wires.has_attribute j (wires.set_bool k b w) ≡ wires.has_attribute j w
  pub get-set_bool :
      (j k : Text) (b : Bool) (w : W)
      → text_eq k j ≡ false
      → wires.get_string j (wires.set_bool k b w) ≡ wires.get_string j w
  pub flag-set_string :
      (j k v : Text) (w : W)
      → text_eq k j ≡ false
      → flag wires j (wires.set_string k v w) ≡ flag wires j w
  pub flag-set_bool :
      (j k : Text) (b : Bool) (w : W)
      → flag wires j (wires.set_bool k b w) ≡ (if text_eq k j then b else flag wires j w)
  pub name-set_string :
      (k v : Text) (w : W) → wires.name_of (wires.set_string k v w) ≡ wires.name_of w
  pub name-set_bool :
      (k : Text) (b : Bool) (w : W) → wires.name_of (wires.set_bool k b w) ≡ wires.name_of w

module _ {W F : Type 0} (wires : Wires W) (floats : Floats F) (laws : IsWires wires) where
  -- What is read back from a wire that was made a clock.
  pub record IsClock (w : W) (name source : Text) (period rising_edge falling_edge : F)
      (type : ClockType) : Type 0 where
    pub is_marked : is_clock wires floats w ≡ true
    pub has_period : clock_period wires floats w ≡ ok period
    pub has_waveform : clock_waveform wires floats w ≡ ok (rising_edge, falling_edge)
    pub has_name : clock_name wires floats w ≡ name
    pub has_source : source_wire_name wires floats w ≡ source
    pub generated_flag : flag wires (codes "IS_GENERATED") w ≡ is_generated_type type
    pub explicit_flag : flag wires (codes "IS_EXPLICIT") w ≡ is_explicit_type type
    pub propagated_flag : flag wires (codes "IS_PROPAGATED") w ≡ is_propagated_type type

  -- The numbers of a clock are printed so that they are read back.
  pub record IsPrinted (period rising_edge falling_edge : F) : Type 0 where
    pub period_text : floats.to_text period ≢ []
    pub period_reads : floats.stof (floats.to_text period) ≡ some period
    pub edges_text : waveform_text wires floats rising_edge falling_edge ≢ []
    pub edges_read :
        floats.scan_two (waveform_text wires floats rising_edge falling_edge)
        ≡ some (rising_edge, falling_edge)

  -- Skipping an attribute of another name.
  has_other :
      (j k v : Text) (w : W)
      → v ≢ []
      → text_eq k j ≡ false
      → wires.has_attribute j (wires.set_string k v w) ≡ wires.has_attribute j w
  has_other j k v w ne h = laws.has-set_string j k v w ne ∙ rw h refl

  get_other :
      (j k v : Text) (w : W)
      → text_eq k j ≡ false
      → wires.get_string j (wires.set_string k v w) ≡ wires.get_string j w
  get_other j k v w h = laws.get-set_string j k v w ∙ rw h refl

  has_same : (k v : Text) (w : W) → v ≢ [] → wires.has_attribute k (wires.set_string k v w) ≡ true
  has_same k v w ne = laws.has-set_string k k v w ne ∙ rw (text_eq_refl k) refl

  get_same : (k v : Text) (w : W) → wires.get_string k (wires.set_string k v w) ≡ v
  get_same k v w = laws.get-set_string k k v w ∙ rw (text_eq_refl k) refl

  -- The attributes that are set behind one, which do not touch it.
  abbrev Untouched : Text → Type 0
  Untouched j =
      (text_eq (codes "WAVEFORM") j ≡ false)
      × (text_eq (codes "PERIOD") j ≡ false)
      × (text_eq (codes "SOURCE_WIRES") j ≡ false)
      × (text_eq (codes "NAME") j ≡ false)
      × (text_eq (codes "CLASS") j ≡ false)

  module _ (name : Text) (w : W) (p r f : F) (type : ClockType) where
    abbrev added : W
    added = add_clock wires floats name w p r f type

    abbrev edges : Text
    edges = waveform_text wires floats r f

    -- The wire before its name is set, and before its source is.
    abbrev classed : W
    classed = wires.set_string (codes "CLASS") (codes "clock") (
        wires.set_bool (codes "IS_PROPAGATED") (is_propagated_type type) (
          wires.set_bool (codes "IS_EXPLICIT") (is_explicit_type type) (
            wires.set_bool (codes "IS_GENERATED") (is_generated_type type)
              (wires.set_string (codes "CLOCK_SIGNAL") (codes "yes") w))))

    abbrev named : W
    named = wires.set_string (codes "NAME") name classed

    wire_name-named : wire_name wires floats named ≡ wire_name wires floats w
    unfolding wire_name
    wire_name-named = ap add_escaping (
        laws.name-set_string _ _ _
        ∙ laws.name-set_string _ _ _
        ∙ laws.name-set_bool _ _ _
        ∙ laws.name-set_bool _ _ _
        ∙ laws.name-set_bool _ _ _
        ∙ laws.name-set_string _ _ _)

    period-add_clock : IsPrinted p r f → clock_period wires floats added ≡ ok p
    unfolding clock_period add_clock text_eq
    period-add_clock h =
        rw
          (
            has_other (codes "PERIOD") (codes "WAVEFORM") edges _ h.edges_text refl,
            has_same (codes "PERIOD") (floats.to_text p) _ h.period_text,
            get_other (codes "PERIOD") (codes "WAVEFORM") edges _ refl,
            get_same (codes "PERIOD") (floats.to_text p) _,
          )
          (ap (read_period wires floats) h.period_reads)

    waveform-add_clock : IsPrinted p r f → clock_waveform wires floats added ≡ ok (r, f)
    unfolding clock_waveform add_clock
    waveform-add_clock h =
        rw (has_same (codes "WAVEFORM") edges _ h.edges_text, get_same (codes "WAVEFORM") edges _)
          (ap (read_waveform wires floats) h.edges_read)

    name-add_clock :
        IsPrinted p r f
        → name ≢ []
        → wire_name wires floats w ≢ []
        → clock_name wires floats added ≡ name
    unfolding clock_name add_clock text_eq
    name-add_clock h hn hw =
        rw
          (
            has_other (codes "NAME") (codes "WAVEFORM") edges _ h.edges_text refl,
            has_other (codes "NAME") (codes "PERIOD") (floats.to_text p) _ h.period_text refl,
            has_other (codes "NAME") (codes "SOURCE_WIRES") (wire_name wires floats named) named
                (λ e. hw (sym wire_name-named ∙ e)) refl,
            has_same (codes "NAME") name classed hn,
            get_other (codes "NAME") (codes "WAVEFORM") edges _ refl,
            get_other (codes "NAME") (codes "PERIOD") (floats.to_text p) _ refl,
            get_other (codes "NAME") (codes "SOURCE_WIRES") (wire_name wires floats named) named
                refl,
          )
          (get_same (codes "NAME") name classed)

    source-add_clock :
        IsPrinted p r f
        → wire_name wires floats w ≢ []
        → source_wire_name wires floats added ≡ wire_name wires floats w
    unfolding source_wire_name add_clock text_eq
    source-add_clock h hw =
        rw
          (
            has_other (codes "SOURCE_WIRES") (codes "WAVEFORM") edges _ h.edges_text refl,
            has_other (codes "SOURCE_WIRES") (codes "PERIOD") (floats.to_text p) _ h.period_text
                refl,
            has_same (codes "SOURCE_WIRES") (wire_name wires floats named) named
                (λ e. hw (sym wire_name-named ∙ e)),
            get_other (codes "SOURCE_WIRES") (codes "WAVEFORM") edges _ refl,
            get_other (codes "SOURCE_WIRES") (codes "PERIOD") (floats.to_text p) _ refl,
          )
          (get_same (codes "SOURCE_WIRES") (wire_name wires floats named) named ∙ wire_name-named)

    flag-added :
        (j : Text)
        → Untouched j
        → flag wires j added
          ≡ flag wires j (
              wires.set_bool (codes "IS_PROPAGATED") (is_propagated_type type) (
                wires.set_bool (codes "IS_EXPLICIT") (is_explicit_type type) (
                  wires.set_bool
                    (codes "IS_GENERATED")
                    (is_generated_type type)
                    (wires.set_string (codes "CLOCK_SIGNAL") (codes "yes") w))))
    unfolding add_clock
    flag-added j (h1, h2, h3, h4, h5) =
        laws.flag-set_string j _ _ _ h1
        ∙ laws.flag-set_string j _ _ _ h2
        ∙ laws.flag-set_string j _ _ _ h3
        ∙ laws.flag-set_string j _ _ _ h4
        ∙ laws.flag-set_string j _ _ _ h5

    is_clock-add_clock :
        IsPrinted p r f
        → name ≢ []
        → wire_name wires floats w ≢ []
        → is_clock wires floats added ≡ true
    unfolding is_clock add_clock text_eq
    is_clock-add_clock h hn hw =
        rw
          (
            has_other (codes "CLOCK_SIGNAL") (codes "WAVEFORM") edges _ h.edges_text refl,
            has_other (codes "CLOCK_SIGNAL") (codes "PERIOD") (floats.to_text p) _ h.period_text
                refl,
            has_other (codes "CLOCK_SIGNAL") (codes "SOURCE_WIRES") (wire_name wires floats named)
                named (λ e. hw (sym wire_name-named ∙ e)) refl,
            has_other (codes "CLOCK_SIGNAL") (codes "NAME") name classed hn refl,
            has_other (codes "CLOCK_SIGNAL") (codes "CLASS") (codes "clock") _ (λ e. cc) refl,
            laws.has-set_bool (codes "CLOCK_SIGNAL") (codes "IS_PROPAGATED") _ _ refl,
            laws.has-set_bool (codes "CLOCK_SIGNAL") (codes "IS_EXPLICIT") _ _ refl,
            laws.has-set_bool (codes "CLOCK_SIGNAL") (codes "IS_GENERATED") _ _ refl,
            has_same (codes "CLOCK_SIGNAL") (codes "yes") w (λ e. cc),
            get_other (codes "CLOCK_SIGNAL") (codes "WAVEFORM") edges _ refl,
            get_other (codes "CLOCK_SIGNAL") (codes "PERIOD") (floats.to_text p) _ refl,
            get_other (codes "CLOCK_SIGNAL") (codes "SOURCE_WIRES") (wire_name wires floats named)
                named refl,
            get_other (codes "CLOCK_SIGNAL") (codes "NAME") name classed refl,
            get_other (codes "CLOCK_SIGNAL") (codes "CLASS") (codes "clock") _ refl,
            laws.get-set_bool (codes "CLOCK_SIGNAL") (codes "IS_PROPAGATED") _ _ refl,
            laws.get-set_bool (codes "CLOCK_SIGNAL") (codes "IS_EXPLICIT") _ _ refl,
            laws.get-set_bool (codes "CLOCK_SIGNAL") (codes "IS_GENERATED") _ _ refl,
            get_same (codes "CLOCK_SIGNAL") (codes "yes") w,
          )
          refl

    flags-add_clock :
        (flag wires (codes "IS_GENERATED") added ≡ is_generated_type type)
        × (flag wires (codes "IS_EXPLICIT") added ≡ is_explicit_type type)
        × (flag wires (codes "IS_PROPAGATED") added ≡ is_propagated_type type)
    unfolding text_eq
    flags-add_clock = (
      flag-added (codes "IS_GENERATED") (refl, refl, refl, refl, refl)
          ∙ laws.flag-set_bool (codes "IS_GENERATED") (codes "IS_PROPAGATED") _ _
          ∙ laws.flag-set_bool (codes "IS_GENERATED") (codes "IS_EXPLICIT") _ _
          ∙ laws.flag-set_bool (codes "IS_GENERATED") (codes "IS_GENERATED") _ _,
      flag-added (codes "IS_EXPLICIT") (refl, refl, refl, refl, refl)
          ∙ laws.flag-set_bool (codes "IS_EXPLICIT") (codes "IS_PROPAGATED") _ _
          ∙ laws.flag-set_bool (codes "IS_EXPLICIT") (codes "IS_EXPLICIT") _ _,
      flag-added (codes "IS_PROPAGATED") (refl, refl, refl, refl, refl)
          ∙ laws.flag-set_bool (codes "IS_PROPAGATED") (codes "IS_PROPAGATED") _ _,
    )

  -- A wire to which a clock is added is a clock with that period, waveform, name and type, with the
  -- wire as its source: for a wire with a name, a clock name that is not empty, and numbers that are
  -- printed as they are read.
  pub add_clock-IsClock :
      (name : Text) (w : W) (p r f : F) (type : ClockType)
      → IsPrinted p r f
      → name ≢ []
      → wire_name wires floats w ≢ []
      → IsClock
          (add_clock wires floats name w p r f type)
          name
          (wire_name wires floats w)
          p
          r
          f
          type
  add_clock-IsClock name w p r f type h hn hw =
      let (generated, explicit, propagated) = flags-add_clock name w p r f type in
      record {
        is_marked = is_clock-add_clock name w p r f type h hn hw;
        has_period = period-add_clock name w p r f type h;
        has_waveform = waveform-add_clock name w p r f type h;
        has_name = name-add_clock name w p r f type h hn hw;
        has_source = source-add_clock name w p r f type h hw;
        generated_flag = generated;
        explicit_flag = explicit;
        propagated_flag = propagated;
      }

  -- The line that is written for such a clock is `create_clock -period <period> -waveform {<rising
  -- edge> <falling edge>} <wire>` and a line break, with its numbers as the stream prints them.
  pub clock_line-add_clock :
      (name : Text) (w : W) (p r f : F) (type : ClockType)
      → IsPrinted p r f
      → wire_name wires floats w ≢ []
      → clock_line wires floats (add_clock wires floats name w p r f type)
        ≡ ok (
            codes "create_clock -period "
            ++ (floats.show_float p
                ++ (codes " -waveform {"
                    ++ (floats.show_float r
                        ++ (codes " "
                            ++ (floats.show_float f
                                ++ (codes "} " ++ (wire_name wires floats w ++ codes "\n"))))))))
  unfolding clock_line
  clock_line-add_clock name w p r f type h hw =
      let clock = add_clock wires floats name w p r f type in
      let text = clock_text wires floats in
      ap
        (λ m. m >>= (λ q.
          clock_waveform wires floats clock
          >>= (λ e. ok (text q e (source_wire_name wires floats clock)))))
        (period-add_clock name w p r f type h)
      ∙ ap (λ m. m >>= (λ e. ok (text p e (source_wire_name wires floats clock))))
          (waveform-add_clock name w p r f type h)
      ∙ ap (λ s. ok (text p (r, f) s)) (source-add_clock name w p r f type h hw)
