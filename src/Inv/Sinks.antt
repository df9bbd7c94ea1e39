-- ===== src/Inv/Sinks.antt =====
-- integrateinv-plugin/integrateinv.cc: all pins of an inverter, and `getSinksForDriver`.
use mathlib.Core.Path.{subst}
use mathlib.Core.Option.{some-injective}
use yosys_quicklogic_plugins.Base.{
  ℕ, suc, ◌+◌, ◌≡◌, refl, sym, ap, ◌∙◌, inl, inr, Bool, true, false, not, ◌&&◌, Option, none, some,
  List, [], ◌∷◌, Text, text_eq, get_elem?, Bool-cases, All, All-map, All-zip, arith, if◌then◌else◌,
}
use yosys_quicklogic_plugins.Base.Results.{
  Holds-self, ok, ◌>>=◌, Holds, Holds-test, Holds-bind, Holds-map,
}
use yosys_quicklogic_plugins.Rtlil.{State, SigBit, wire_bit, const_bit, Netlist, IsNetlist}
use yosys_quicklogic_plugins.Rtlil.Bits.{bit_eq, bit_eq→eq}
use yosys_quicklogic_plugins.Rtlil.Pools.{add_member, same_pool, All-add_member, same_pool-All}
use yosys_quicklogic_plugins.Inv.{
  Pin, pin_eq, port_a, port_y, bits_of, first_of, integrate_pin, integrate_pins, is_driven,
  is_output_bit, sinks_in_bits, sinks_in_ports, sinks_in_cells, sinks_in_outputs, sinks_in_module,
  sinks_for_driver, integrate_inverter,
}
use yosys_quicklogic_plugins.Inv.Meaning.{pin_eq→eq, view_at, view_at-own}
use yosys_quicklogic_plugins.Inv.OnePin.{HasOwnParams}
use yosys_quicklogic_plugins.Inv.Pins.{
  net, IsNamed, IsInverted, IsSame, IsSame-refl, IsSame-trans, Any, IsStep, cell_pin-IsStep,
}

abbrev pub DistinctPins : List Pin → Type 0
DistinctPins [] = Unit
DistinctPins (p ∷ ps) = All (λ q. pin_eq p q ≡ false) ps × DistinctPins ps

module _ {M : Type 0} (n : Netlist M (List State)) (laws : IsNetlist n)
    (invertible_pin : Text → Text → Option Text) (v : SigBit → Bool)
    (own : HasOwnParams n laws invertible_pin v) (sigmap : SigBit → SigBit) (inv : Text) where
  pub pin-IsStep :
      (inv_params : List (Pin × Text)) (c : Option Text) (port : Text) (bit : ℕ) (m : M)
      → invertible_pin (n.cell_type inv m) port_a ≡ none
      → All (IsNamed n laws invertible_pin v m) inv_params
      → IsInverted n laws invertible_pin v inv m (record { cell = c; port = port; bit = bit })
      → Holds (IsStep n laws invertible_pin v inv (record { cell = c; port = port; bit = bit }) m) (
          integrate_pin n sigmap invertible_pin inv inv_params
            (record { cell = c; port = port; bit = bit })
            m)
  pin-IsStep inv_params none port bit m plain named inverted = tt
  pin-IsStep inv_params (some c) port bit m plain named inverted =
      cell_pin-IsStep n laws invertible_pin v own sigmap inv inv_params c port bit m plain named
        inverted

  pub IsNamed-after :
      (m m' : M) (inv_params : List (Pin × Text))
      → IsSame n laws invertible_pin v (Any n laws invertible_pin v) m m'
      → All (IsNamed n laws invertible_pin v m) inv_params
      → All (IsNamed n laws invertible_pin v m') inv_params
  IsNamed-after m m' inv_params s h =
      All-map (IsNamed n laws invertible_pin v m) (IsNamed n laws invertible_pin v m') inv_params
        (λ e k c ec. ap (λ type. invertible_pin type e.0.port) (s.types c tt) ∙ k c ec) h

  pub integrate_pins-IsSame :
      (inv_params : List (Pin × Text)) (pins : List Pin) (m : M)
      → invertible_pin (n.cell_type inv m) port_a ≡ none
      → All (IsNamed n laws invertible_pin v m) inv_params
      → DistinctPins pins
      → All (IsInverted n laws invertible_pin v inv m) pins
      → Holds
          (IsSame n laws invertible_pin v (Any n laws invertible_pin v) m)
          (integrate_pins n sigmap invertible_pin inv inv_params pins m)
  unfolding integrate_pins
  integrate_pins-IsSame inv_params [] m plain named distinct inverted =
      IsSame-refl n laws invertible_pin v _ m
  integrate_pins-IsSame inv_params (pin ∷ pins) m plain named (apart, distinct) (h, inverted) =
      let Same = IsSame n laws invertible_pin v (Any n laws invertible_pin v) in
      Holds-bind (IsStep n laws invertible_pin v inv pin m) (Same m)
        (integrate_pin n sigmap invertible_pin inv inv_params pin m) _
        (pin-IsStep inv_params pin.cell pin.port pin.bit m plain named h)
        (λ m' step.
          Holds-map (Same m') (Same m) _
            (λ m'' s.
              IsSame-trans n laws invertible_pin v _ _ _ m m' m'' (λ d u. u) (λ d u. u) step.same s)
            (integrate_pins-IsSame inv_params pins m'
              (ap (λ type. invertible_pin type port_a) (step.same.types inv tt) ∙ plain)
              (IsNamed-after m m' inv_params step.same named) distinct
              (All-map (λ q. (pin_eq pin q ≡ false) × IsInverted n laws invertible_pin v inv m q)
                (IsInverted n laws invertible_pin v inv m') pins (λ q (a, i). step.rest q a i)
                (All-zip (λ q. pin_eq pin q ≡ false) (IsInverted n laws invertible_pin v inv m) pins
                  apart inverted))))

  -- The bit of a pin is one of the driver's net.
  abbrev IsSink : SigBit → M → Pin → Type 0
  IsSink driver m pin =
      (c : Text) (bits : List SigBit) (b : SigBit)
      → pin.cell ≡ some c
      → n.get_port c pin.port m ≡ some bits
      → get_elem? bits pin.bit ≡ some b
      → sigmap b ≡ driver

  driven-eq :
      (driver b : SigBit) → is_driven n sigmap invertible_pin driver b ≡ true → sigmap b ≡ driver
  driven-eq driver (const_bit b) h = absurd (cc h)
  driven-eq driver (wire_bit w i) h = bit_eq→eq _ _ h

  insert-IsSink :
      (driver : SigBit) (m : M) (test : Bool) (pin : Pin) (sinks : List Pin)
      → (test ≡ true → IsSink driver m pin)
      → All (IsSink driver m) sinks
      → All (IsSink driver m) (if test then add_member pin_eq pin sinks else sinks)
  insert-IsSink driver m true pin sinks h hs =
      All-add_member pin_eq (IsSink driver m) pin sinks (h refl) hs
  insert-IsSink driver m false pin sinks h hs = hs

  sinks_in_bits-IsSink :
      (driver : SigBit) (cell port : Text) (m : M) (all : List SigBit) (i : ℕ) (bits : List SigBit)
      (sinks : List Pin)
      → n.get_port cell port m ≡ some all
      → ((j : ℕ) → get_elem? bits j ≡ get_elem? all (i + j))
      → All (IsSink driver m) sinks
      → All (IsSink driver m) (sinks_in_bits n sigmap invertible_pin driver cell port i bits sinks)
  unfolding sinks_in_bits
  sinks_in_bits-IsSink driver cell port m all i [] sinks e at h = h
  sinks_in_bits-IsSink driver cell port m all i (b ∷ bits) sinks e at h =
      sinks_in_bits-IsSink driver cell port m all (suc i) bits _ e
        (λ j. at (suc j) ∙ ap (get_elem? all) (omega arith))
        (insert-IsSink driver m (is_driven n sigmap invertible_pin driver b) _ sinks
          (λ d c all' b' ec ep eb.
            let e_all = sym e ∙ ap (λ k. n.get_port k port m) (some-injective _ _ ec) ∙ ep in
            let e_bit =
              sym eb
              ∙ ap (λ bs. get_elem? bs i) (sym (some-injective _ _ e_all))
              ∙ ap (get_elem? all) (omega arith)
              ∙ sym (at 0) in
            ap sigmap (some-injective _ _ e_bit) ∙ driven-eq driver b d)
          h)

  sinks_in_ports-IsSink :
      (driver : SigBit) (cell : Text) (conns : List (Text × List SigBit)) (m : M) (sinks : List Pin)
      → All (λ conn. n.get_port cell conn.0 m ≡ some conn.1) conns
      → All (IsSink driver m) sinks
      → All (IsSink driver m) (sinks_in_ports n sigmap invertible_pin driver cell conns m sinks)
  unfolding sinks_in_ports
  sinks_in_ports-IsSink driver cell [] m sinks e h = h
  sinks_in_ports-IsSink driver cell ((port, bits) ∷ conns) m sinks (e, es) h =
      sinks_in_ports-IsSink driver cell conns m _ es (elim (Bool-cases (n.input cell port m)) [
        | inl g ↦ rw g (
            sinks_in_bits-IsSink driver cell port m bits 0 bits sinks e
              (λ j. ap (get_elem? bits) (omega arith)) h)
        | inr g ↦ rw g h
      ])

  sinks_in_cells-IsSink :
      (driver : SigBit) (cells : List Text) (m : M) (sinks : List Pin)
      → All (IsSink driver m) sinks
      → All (IsSink driver m) (sinks_in_cells n sigmap invertible_pin driver cells m sinks)
  unfolding sinks_in_cells
  sinks_in_cells-IsSink driver [] m sinks h = h
  sinks_in_cells-IsSink driver (c ∷ cs) m sinks h =
      sinks_in_cells-IsSink driver cs m _ (
        sinks_in_ports-IsSink driver c (n.connections c m) m sinks (laws.connections-get_port c m)
          h)

  sinks_in_outputs-IsSink :
      (driver : SigBit) (i : ℕ) (bits : List SigBit) (m : M) (sinks : List Pin)
      → All (IsSink driver m) sinks
      → All (IsSink driver m) (sinks_in_outputs n sigmap invertible_pin driver i bits m sinks)
  unfolding sinks_in_outputs
  sinks_in_outputs-IsSink driver i [] m sinks h = h
  sinks_in_outputs-IsSink driver i (b ∷ bits) m sinks h =
      sinks_in_outputs-IsSink driver (suc i) bits m _ (
        insert-IsSink driver m
          (is_output_bit n sigmap invertible_pin b m && bit_eq (sigmap b) driver) _ sinks
          (λ d c bits b ec ep eb. absurd (cc ec)) h)

  sinks_in_module-IsSink :
      (driver : SigBit) (conns : List (List SigBit × List SigBit)) (m : M) (sinks : List Pin)
      → All (IsSink driver m) sinks
      → All (IsSink driver m) (sinks_in_module n sigmap invertible_pin driver conns m sinks)
  unfolding sinks_in_module
  sinks_in_module-IsSink driver [] m sinks h = h
  sinks_in_module-IsSink driver ((dst, src) ∷ conns) m sinks h =
      sinks_in_module-IsSink driver conns m _ (sinks_in_outputs-IsSink driver 0 dst m sinks h)

  -- With the nets of one value where they are joined, and the inverter's output that of its input
  -- inverted, the pins that are its sinks have the opposite of its input.
  sink-IsInverted :
      (m : M) (y : SigBit) (pin : Pin)
      → ((b : SigBit) → v (sigmap b) ≡ v b)
      → ((a : SigBit) → net n laws invertible_pin v inv port_a m ≡ ok a → v y ≡ not (v a))
      → IsSink (sigmap y) m pin
      → IsInverted n laws invertible_pin v inv m pin
  sink-IsInverted m y pin joined inverts h c bits b a ec ep eb ea =
      sym (joined b) ∙ ap v (h c bits b ec ep eb) ∙ joined y ∙ inverts a ea

  -- The inverter inverts the values of its nets.
  abbrev pub IsInverter : M → Type 0
  IsInverter m =
      (y a : SigBit)
      → net n laws invertible_pin v inv port_y m ≡ ok y
      → net n laws invertible_pin v inv port_a m ≡ ok a
      → v y ≡ not (v a)

  pub sinks-IsInverted :
      (m : M)
      → ((b : SigBit) → v (sigmap b) ≡ v b)
      → IsInverter m
      → Holds
          (All (IsInverted n laws invertible_pin v inv m))
          (sinks_for_driver n sigmap invertible_pin inv port_y m)
  unfolding sinks_for_driver
  sinks-IsInverted m joined inverts =
      let Goal = All (IsInverted n laws invertible_pin v inv m) in
      let port = bits_of (n.get_port inv port_y m) in
      Holds-test Goal (n.output inv port_y m) _ _
        (λ e.
          Holds-bind (λ xs. port ≡ ok xs) Goal port _ (Holds-self port)
            (λ xs e_xs.
              Holds-bind (λ y. first_of xs ≡ ok y) Goal (first_of xs) _ (Holds-self (first_of xs))
                (λ y e_y.
                  All-map (IsSink (sigmap y) m) (IsInverted n laws invertible_pin v inv m) _
                    (λ pin.
                      sink-IsInverted m y pin joined
                        (λ a. inverts y a (ap (λ r. r >>= first_of) e_xs ∙ e_y)))
                    (sinks_in_module-IsSink (sigmap y) (n.module_connections m) m _
                      (sinks_in_cells-IsSink (sigmap y) (n.cells m) m [] tt)))))
        (λ e. tt)

  abbrev pub Others : Text → Type 0
  Others d = text_eq inv d ≡ false

  pub remove-IsSame : (m : M) → IsSame n laws invertible_pin v Others m (n.remove inv m)
  remove-IsSame m = record {
    types = λ d h. laws.type-remove inv d m h;
    views = λ d q i h.
        ap
          (λ o.
            view_at v (λ k. n.own_param d k (n.remove inv m)) o i
              (invertible_pin (n.cell_type d (n.remove inv m)) q))
          (laws.get_port-remove inv d q m h)
        ∙ ap
            (λ type.
              view_at v (λ k. n.own_param d k (n.remove inv m)) (n.get_port d q m) i
                (invertible_pin type q))
            (laws.type-remove inv d m h)
        ∙ view_at-own v (λ k. n.own_param d k m) (λ k. n.own_param d k (n.remove inv m))
            (n.get_port d q m) i _ (λ k e. laws.own_param-remove inv d k m h);
    ports = λ d q h e. laws.get_port-remove inv d q m h;
  }

  -- An inverter that is integrated is gone; every pin of the other cells sees the same value.
  pub integrate_inverter-IsSame :
      (inv_params : List (Pin × Text)) (pins : List Pin) (m : M)
      → ((b : SigBit) → v (sigmap b) ≡ v b)
      → invertible_pin (n.cell_type inv m) port_a ≡ none
      → IsInverter m
      → All (IsNamed n laws invertible_pin v m) inv_params
      → DistinctPins pins
      → Holds
          (IsSame n laws invertible_pin v Others m)
          (integrate_inverter n sigmap invertible_pin inv inv_params pins m)
  unfolding integrate_inverter
  integrate_inverter-IsSame inv_params pins m joined plain inverts named distinct =
      let Goal = IsSame n laws invertible_pin v Others m in
      let Inverted = IsInverted n laws invertible_pin v inv m in
      let sinks = sinks_for_driver n sigmap invertible_pin inv port_y m in
      Holds-bind (All Inverted) Goal sinks _ (sinks-IsInverted m joined inverts) (λ xs h.
        Holds-test Goal (same_pool pin_eq xs pins) _ _
          (λ e.
            Holds-bind (IsSame n laws invertible_pin v (Any n laws invertible_pin v) m) Goal _ _
              (integrate_pins-IsSame inv_params pins m plain named distinct (
                same_pool-All pin_eq xs pins (λ x a e_x i. subst Inverted (pin_eq→eq x a e_x) i) e
                  h))
              (λ m' s.
                IsSame-trans n laws invertible_pin v _ _ _ m m' _ (λ d u. tt) (λ d u. u) s
                  (remove-IsSame m')))
          (λ e. IsSame-refl n laws invertible_pin v Others m))
