-- ===== src/Inv/Taken.antt =====
-- integrateinv-plugin/integrateinv.cc, `integrateInverters`: when an inverter is removed.
use mathlib.Core.Path.{subst}
use yosys_quicklogic_plugins.Base.{
  ◌≡◌, refl, sym, ap, ◌∙◌, ◌⊎◌, inl, inr, Bool, true, false, Option, none, List, [], ◌∷◌, Text, All,
  All-map, All-zip, arith,
}
use yosys_quicklogic_plugins.Base.Results.{
  Result, ok, err, ◌>>=◌, Holds, Holds-self, Holds-both, Holds-test, Holds-bind, Holds-map,
}
use yosys_quicklogic_plugins.Rtlil.{State, SigBit, Netlist, IsNetlist}
use yosys_quicklogic_plugins.Rtlil.Pools.{all_members, same_pool, same_pool-All}
use yosys_quicklogic_plugins.Inv.{
  Pin, Error, pin_eq, port_a, port_y, bits_of, first_of, integrate_pin, integrate_pins,
  sinks_for_driver, integrate_inverter,
}
use yosys_quicklogic_plugins.Inv.Meaning.{pin_eq→eq}
use yosys_quicklogic_plugins.Inv.OnePin.{HasOwnParams}
use yosys_quicklogic_plugins.Inv.Pins.{net, IsNamed, IsInverted, IsSame, Any, IsMoved, IsStep}
use yosys_quicklogic_plugins.Inv.Sinks.{
  DistinctPins, IsInverter, pin-IsStep, IsNamed-after, integrate_pins-IsSame, sinks-IsInverted,
}
use yosys_quicklogic_plugins.Inv.Covers.{
  all_members-IsIn, OnlyCells, OnlyOutputs, NoOutputs, OnlyOutputs-NoOutputs, HasCell,
  cells-OnlyCells, module-OnlyOutputs,
}

abbrev first_or : SigBit → Result Error SigBit → SigBit
first_or b (ok c) = c
first_or b (err e) = b

module _ {M : Type 0} (n : Netlist M (List State)) (laws : IsNetlist n)
    (invertible_pin : Text → Text → Option Text) (v : SigBit → Bool)
    (own : HasOwnParams n laws invertible_pin v) (sigmap : SigBit → SigBit) (inv : Text) where
  abbrev Moved : M → Pin → Type 0
  Moved = IsMoved n laws invertible_pin v inv

  -- The pins of the list are moved, and those that were stay.
  abbrev AreMoved : List Pin → M → M → Type 0
  AreMoved pins m m' = All (Moved m') pins × ((q : Pin) → Moved m q → Moved m' q)

  integrate_pins-AreMoved :
      (inv_params : List (Pin × Text)) (pins : List Pin) (m : M)
      → invertible_pin (n.cell_type inv m) port_a ≡ none
      → All (IsNamed n laws invertible_pin v m) inv_params
      → DistinctPins pins
      → All (IsInverted n laws invertible_pin v inv m) pins
      → Holds (AreMoved pins m) (integrate_pins n sigmap invertible_pin inv inv_params pins m)
  unfolding integrate_pins
  integrate_pins-AreMoved inv_params [] m plain named distinct inverted = (tt, λ q h. h)
  integrate_pins-AreMoved inv_params (pin ∷ pins) m plain named (apart, distinct) (h, inverted) =
      Holds-bind (IsStep n laws invertible_pin v inv pin m) (AreMoved (pin ∷ pins) m)
        (integrate_pin n sigmap invertible_pin inv inv_params pin m) _
        (pin-IsStep n laws invertible_pin v own sigmap inv inv_params pin.cell pin.port pin.bit m
          plain named h)
        (λ m' step.
          Holds-map (AreMoved pins m') (AreMoved (pin ∷ pins) m) _
            (λ m'' (rest, kept). ((kept pin step.moved, rest), λ q k. kept q (step.keeps q k)))
            (integrate_pins-AreMoved inv_params pins m'
              (ap (λ type. invertible_pin type port_a) (step.same.types inv tt) ∙ plain)
              (IsNamed-after n laws invertible_pin v own sigmap inv m m' inv_params step.same named)
              distinct
              (All-map (λ q. (pin_eq pin q ≡ false) × IsInverted n laws invertible_pin v inv m q)
                (IsInverted n laws invertible_pin v inv m') pins (λ q (a, i). step.rest q a i)
                (All-zip (λ q. pin_eq pin q ≡ false) (IsInverted n laws invertible_pin v inv m) pins
                  apart inverted))))

  -- Each pin of an input port of a cell on the inverter's output net is one of the pins, and no bit of
  -- an output port of the module is on that net.
  abbrev pub HasNoOtherSink : List Pin → M → Type 0
  HasNoOtherSink pins m =
      n.output inv port_y m ≡ true
      → (y : SigBit) → net n laws invertible_pin v inv port_y m ≡ ok y
      → OnlyCells n invertible_pin sigmap (sigmap y) pins m (n.cells m)
        × All (λ conn. NoOutputs n invertible_pin sigmap (sigmap y) pins m conn.0)
            (n.module_connections m)

  -- The inverter had no sinks but the pins, which are now on the net of its input, and it is gone.
  pub record IsRemoved (pins : List Pin) (m m' : M) : Type 0 where
    pub before : M
    pub removed : m' ≡ n.remove inv before
    pub same : IsSame n laws invertible_pin v (Any n laws invertible_pin v) m before
    pub sinks : HasNoOtherSink pins m
    pub moved : All (IsMoved n laws invertible_pin v inv before) pins

  -- The inverter is left alone, or it is removed.
  abbrev pub IsTaken : List Pin → M → M → Type 0
  IsTaken pins m m' = (m' ≡ m) ⊎ IsRemoved pins m m'

  -- What the list of sinks says, for a result that is it.
  abbrev SinksOnly : M → List Pin → Type 0
  SinksOnly m sinks =
      (pins : List Pin)
      → all_members pin_eq sinks pins ≡ true
      → All HasCell pins
      → HasNoOtherSink pins m

  port_bit-ok :
      (m : M) (bits : List SigBit) (b y : SigBit)
      → bits_of (n.get_port inv port_y m) ≡ ok bits
      → first_of bits ≡ ok b
      → net n laws invertible_pin v inv port_y m ≡ ok y
      → b ≡ y
  port_bit-ok m bits b y hb hf hy =
      ap (first_or b) (sym hf ∙ sym (ap (λ r. r >>= first_of) hb) ∙ hy)

  sinks_for_driver-SinksOnly :
      (m : M) → Holds (SinksOnly m) (sinks_for_driver n sigmap invertible_pin inv port_y m)
  unfolding sinks_for_driver
  sinks_for_driver-SinksOnly m =
      let port = bits_of (n.get_port inv port_y m) in
      Holds-test (SinksOnly m) (n.output inv port_y m) _ _
        (λ is_output.
          Holds-bind (λ bits. port ≡ ok bits) (SinksOnly m) port _ (Holds-self port)
            (λ bits e_bits.
              Holds-bind (λ b. first_of bits ≡ ok b) (SinksOnly m) (first_of bits) _
                (Holds-self (first_of bits))
                (λ b e_b pins all cells u y e_y.
                  let only_b =
                    module-OnlyOutputs n invertible_pin sigmap (sigmap b) pins m
                      (n.module_connections m) _ (all_members-IsIn _ pins all) in
                  subst
                    (λ d.
                      OnlyCells n invertible_pin sigmap (sigmap d) pins m (n.cells m)
                      × All (λ conn. NoOutputs n invertible_pin sigmap (sigmap d) pins m conn.0)
                          (n.module_connections m))
                    (port_bit-ok m bits b y e_bits e_b e_y)
                    (
                      (cells-OnlyCells n invertible_pin sigmap (sigmap b) pins m (n.cells m) []
                          only_b.0).1,
                      All-map
                          (λ conn. OnlyOutputs n invertible_pin sigmap (sigmap b) pins m 0 conn.0)
                          (λ conn. NoOutputs n invertible_pin sigmap (sigmap b) pins m conn.0)
                          (n.module_connections m)
                          (λ conn k.
                            OnlyOutputs-NoOutputs n invertible_pin sigmap (sigmap b) pins m 0 conn.0
                              cells k)
                          only_b.1,
                    ))))
        (λ no_output pins all cells is_output. absurd (cc (sym no_output ∙ is_output)))

  both_members :
      (sinks pins : List Pin)
      → same_pool pin_eq sinks pins ≡ true
      → all_members pin_eq sinks pins ≡ true
  unfolding same_pool
  both_members sinks pins h = ground arith

  pub integrate_inverter-IsTaken :
      (inv_params : List (Pin × Text)) (pins : List Pin) (m : M)
      → ((b : SigBit) → v (sigmap b) ≡ v b)
      → invertible_pin (n.cell_type inv m) port_a ≡ none
      → IsInverter n laws invertible_pin v own sigmap inv m
      → All (IsNamed n laws invertible_pin v m) inv_params
      → DistinctPins pins
      → Holds (IsTaken pins m) (integrate_inverter n sigmap invertible_pin inv inv_params pins m)
  unfolding integrate_inverter
  integrate_inverter-IsTaken inv_params pins m joined plain inverts named distinct =
      let Inverted = IsInverted n laws invertible_pin v inv m in
      let Same = IsSame n laws invertible_pin v (Any n laws invertible_pin v) m in
      let sinks = sinks_for_driver n sigmap invertible_pin inv port_y m in
      Holds-bind (λ xs. All Inverted xs × SinksOnly m xs) (IsTaken pins m) sinks _
        (Holds-both (All Inverted) (SinksOnly m) sinks
          (sinks-IsInverted n laws invertible_pin v own sigmap inv m joined inverts)
          (sinks_for_driver-SinksOnly m))
        (λ xs (h, only).
          Holds-test (IsTaken pins m) (same_pool pin_eq xs pins) _ _
            (λ e.
              let inverted =
                same_pool-All pin_eq xs pins (λ x a e_x i. subst Inverted (pin_eq→eq x a e_x) i) e
                  h in
              Holds-bind (λ m'. Same m' × AreMoved pins m m') (IsTaken pins m) _ _
                (Holds-both Same (AreMoved pins m) _
                  (integrate_pins-IsSame n laws invertible_pin v own sigmap inv inv_params pins m
                    plain named distinct inverted)
                  (integrate_pins-AreMoved inv_params pins m plain named distinct inverted))
                (λ m' (s, moved). inr (record {
                  before = m';
                  removed = refl;
                  same = s;
                  sinks = only pins (both_members xs pins e) (
                      All-map (Moved m') HasCell pins (λ pin (c, bits, a, ec, ep, eb, ea). (c, ec))
                        moved.0);
                  moved = moved.0;
                })))
            (λ e. inl refl))
