-- ===== src/Sdc/Clocks.antt =====
-- sdc-plugin/clocks.{h,cc}: the clock of a wire, kept in the wire's attributes, and
-- `SdcWriter::WriteClocks` of sdc_writer.cc. A wire of the netlist, `float` and its text are
-- parameters.
use yosys_quicklogic_plugins.Base.{
  Bool, true, false, not, ◌&&◌, Option, none, some, List, [], ◌∷◌, ◌++◌, Text, codes, text_eq, ltb,
  ◌==◌, if◌then◌else◌,
}
use yosys_quicklogic_plugins.Base.Results.{Result, ok, err, ◌>>=◌}

-- What the code asks of a wire; `name_of` is `RTLIL::unescape_id(wire->name)`, and an attribute is
-- named without `RTLIL::escape_id`.
pub record Wires (W : Type 0) : Type 0 where
  pub name_of : W → Text
  pub port_input : W → Bool
  pub has_attribute : Text → W → Bool
  pub get_string : Text → W → Text
  pub set_string : Text → Text → W → W
  pub get_bool : Text → W → Bool
  pub set_bool : Text → Bool → W → W

-- `float`: `std::to_string`, `std::stof` (nothing for the exception), `sscanf` of two numbers,
-- `operator<<`, half of a number, and the test against 0.
pub record Floats (F : Type 0) : Type 0 where
  pub zero_float : F
  pub to_text : F → Text
  pub stof : Text → Option F
  pub scan_two : Text → Option (F × F)
  pub show_float : F → Text
  pub half : F → F
  pub is_zero : F → Bool

pub data ClockType : Type 0 where
  explicit generated propagated : ClockType

abbrev pub is_explicit_type : ClockType → Bool
is_explicit_type explicit = true
is_explicit_type _ = false

abbrev pub is_generated_type : ClockType → Bool
is_generated_type generated = true
is_generated_type _ = false

abbrev pub is_propagated_type : ClockType → Bool
is_propagated_type propagated = true
is_propagated_type _ = false

pub data ClockError : Type 0 where
  no_period : ClockError
  bad_period : ClockError
  no_waveform : ClockError
  bad_waveform : ClockError

-- `AddEscaping`: a backslash before every dollar sign.
unfoldable pub add_escaping : Text → Text
add_escaping [] = []
add_escaping (c ∷ s) =
    let rest = add_escaping s in if c == b'$' then b'\\' ∷ (b'$' ∷ rest) else c ∷ rest

-- `GetClockWireBoolAttribute`
abbrev pub flag : {W : Type 0} → Wires W → Text → W → Bool
flag wires attribute w =
    if wires.has_attribute attribute w then wires.get_bool attribute w else false

module _ {W F : Type 0} (wires : Wires W) (floats : Floats F) where
  unfoldable pub wire_name : W → Text
  unfolding add_escaping
  wire_name w = add_escaping (wires.name_of w)

  abbrev pub waveform_text : F → F → Text
  waveform_text rising_edge falling_edge =
      floats.to_text rising_edge ++ (codes " " ++ floats.to_text falling_edge)

  -- `Clock::Add`
  unfoldable pub add_clock : Text → W → F → F → F → ClockType → W
  unfolding wire_name
  add_clock name w period rising_edge falling_edge type =
      let w1 = wires.set_string (codes "CLOCK_SIGNAL") (codes "yes") w in
      let w2 = wires.set_bool (codes "IS_GENERATED") (is_generated_type type) w1 in
      let w3 = wires.set_bool (codes "IS_EXPLICIT") (is_explicit_type type) w2 in
      let w4 = wires.set_bool (codes "IS_PROPAGATED") (is_propagated_type type) w3 in
      let w5 = wires.set_string (codes "CLASS") (codes "clock") w4 in
      let w6 = wires.set_string (codes "NAME") name w5 in
      let w7 = wires.set_string (codes "SOURCE_WIRES") (wire_name w6) w6 in
      let w8 = wires.set_string (codes "PERIOD") (floats.to_text period) w7 in
      wires.set_string (codes "WAVEFORM") (waveform_text rising_edge falling_edge) w8

  -- `Clock::Add` for several wires
  unfoldable pub add_clocks : Text → List W → F → F → F → ClockType → List W
  unfolding add_clock
  add_clocks name [] period rising_edge falling_edge type = []
  add_clocks name (w ∷ ws) period rising_edge falling_edge type =
      add_clock name w period rising_edge falling_edge type
      ∷ add_clocks name ws period rising_edge falling_edge type

  abbrev pub read_period : Option F → Result ClockError F
  read_period none = err bad_period
  read_period (some p) = ok p

  unfoldable pub clock_period : W → Result ClockError F
  clock_period w =
      if not (wires.has_attribute (codes "PERIOD") w)
      then err no_period
      else read_period (floats.stof (wires.get_string (codes "PERIOD") w))

  abbrev default_waveform : W → Result ClockError (F × F)
  unfolding clock_period
  default_waveform w = do
    period ← clock_period w
    if floats.is_zero period then err no_waveform else ok (floats.zero_float, floats.half period)

  abbrev pub read_waveform : Option (F × F) → Result ClockError (F × F)
  read_waveform none = err bad_waveform
  read_waveform (some edges) = ok edges

  unfoldable pub clock_waveform : W → Result ClockError (F × F)
  unfolding default_waveform
  clock_waveform w =
      if not (wires.has_attribute (codes "WAVEFORM") w)
      then default_waveform w
      else read_waveform (floats.scan_two (wires.get_string (codes "WAVEFORM") w))

  unfoldable pub clock_name : W → Text
  unfolding wire_name
  clock_name w =
      if wires.has_attribute (codes "NAME") w
      then wires.get_string (codes "NAME") w
      else wire_name w

  unfoldable pub source_wire_name : W → Text
  unfolding clock_name
  source_wire_name w =
      if wires.has_attribute (codes "SOURCE_WIRES") w
      then wires.get_string (codes "SOURCE_WIRES") w
      else clock_name w

  unfoldable pub is_clock : W → Bool
  unfolding text_eq
  is_clock w =
      if wires.has_attribute (codes "CLOCK_SIGNAL") w
      then text_eq (wires.get_string (codes "CLOCK_SIGNAL") w) (codes "yes")
      else false

  -- `operator<` of `std::string`
  unfoldable pub text_lt : Text → Text → Bool
  text_lt s [] = false
  text_lt [] (d ∷ t) = true
  text_lt (c ∷ s) (d ∷ t) = if c == d then text_lt s t else ltb c d

  -- `std::map::insert`, which keeps the keys in order and what is there.
  unfoldable pub insert_in_order : Text → W → List (Text × W) → List (Text × W)
  unfolding text_lt text_eq
  insert_in_order k w [] = (k, w) ∷ []
  insert_in_order k w ((j, v) ∷ m) =
      if text_eq j k
      then (j, v) ∷ m
      else if text_lt k j
      then (k, w) ∷ (j, v) ∷ m
      else (j, v) ∷ insert_in_order k w m

  -- `Clocks::GetClocks`, on the wires of the top module in the order of its dictionary.
  unfoldable pub collect_clocks : List W → List (Text × W) → List (Text × W)
  unfolding is_clock insert_in_order wire_name
  collect_clocks [] m = m
  collect_clocks (w ∷ ws) m =
      collect_clocks ws (if is_clock w then insert_in_order (wire_name w) w m else m)

  abbrev pub get_clocks : List W → List (Text × W)
  get_clocks ws = collect_clocks ws []

  abbrev pub clock_text : F → F × F → Text → Text
  clock_text period edges source =
      codes "create_clock -period "
      ++ (floats.show_float period
          ++ (codes " -waveform {"
              ++ (floats.show_float edges.0
                  ++ (codes " "
                      ++ (floats.show_float edges.1 ++ (codes "} " ++ (source ++ codes "\n")))))))

  unfoldable pub clock_line : W → Result ClockError Text
  unfolding clock_period clock_waveform source_wire_name
  clock_line w = do
    period ← clock_period w
    edges ← clock_waveform w
    ok (clock_text period edges (source_wire_name w))

  unfoldable pub write_clocks : Bool → List (Text × W) → Result ClockError Text
  unfolding clock_line
  write_clocks include_propagated [] = ok []
  write_clocks include_propagated ((k, w) ∷ m) =
      let rest = write_clocks include_propagated m in
      if wires.port_input w
      then rest
      else if flag wires (codes "IS_PROPAGATED") w && not include_propagated
      then rest
      else (clock_line w >>= (λ line. rest >>= (λ text. ok (line ++ text))))
