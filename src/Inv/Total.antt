-- ===== src/Inv/Total.antt =====
-- integrateinv-plugin/integrateinv.cc, `integrateInverters`: when an inverter is taken without an
-- error.
use mathlib.Core.Path.{subst}
use mathlib.Core.Bool.{true≢false}
use mathlib.Core.Option.{some-injective}
use yosys_quicklogic_plugins.Base.{
  ℕ, zero, suc, ◌≡◌, refl, sym, ap, ◌∙◌, Bool, true, false, Option, none, some, List, [], ◌∷◌, Text,
  get_elem?, length, ltb, All, All-map, All-zip, arith, ◌==◌, ==_iff,
}
use yosys_quicklogic_plugins.Base.Results.{
  Returns, Returns-test, Returns-bind, Returns-eq, Returns-Holds,
}
use yosys_quicklogic_plugins.Rtlil.{State, s0, s1, sx, sz, sa, sm, SigBit, Netlist, IsNetlist}
use yosys_quicklogic_plugins.Rtlil.Bits.{set_at}
use yosys_quicklogic_plugins.Rtlil.Pools.{find_key, same_pool, same_pool-All}
use yosys_quicklogic_plugins.Inv.{
  Pin, pin_eq, port_a, port_y, mask_or_zeros, toggle, bits_of, first_of, name_of, toggle_bit,
  integrate_cell_pin, integrate_pin, integrate_pins, sinks_for_driver, integrate_inverter,
}
use yosys_quicklogic_plugins.Inv.Meaning.{pin_eq→eq, seen, value_of, view_at}
use yosys_quicklogic_plugins.Inv.OnePin.{HasOwnParams, port_view}
use yosys_quicklogic_plugins.Inv.Pins.{IsNamed, IsInverted, IsSame, Any, IsStep}
use yosys_quicklogic_plugins.Inv.Sinks.{
  DistinctPins, IsInverter, Others, pin-IsStep, IsNamed-after, sinks-IsInverted,
  integrate_inverter-IsSame,
}

abbrev IsBinary : State → Type 0
IsBinary s0 = Unit
IsBinary s1 = Unit
IsBinary _ = ⊥

seen-some :
    (p : Option Bool) (o : Option State) {x : Bool}
    → seen p o ≡ some x
    → (b : Bool) × (s : State) × (p ≡ some b) × (o ≡ some s) × IsBinary s
seen-some none o h = absurd (cc h)
seen-some (some b) none h = absurd (cc h)
seen-some (some b) (some s0) h = (b, s0, refl, refl, tt)
seen-some (some b) (some s1) h = (b, s1, refl, refl, tt)
seen-some (some b) (some sx) h = absurd (cc h)
seen-some (some b) (some sz) h = absurd (cc h)
seen-some (some b) (some sa) h = absurd (cc h)
seen-some (some b) (some sm) h = absurd (cc h)

value_of-ltb :
    (v : SigBit → Bool) (bits : List SigBit) (i : ℕ) {b : Bool}
    → value_of v (get_elem? bits i) ≡ some b
    → ltb i (length bits) ≡ true
value_of-ltb v [] i h = absurd (cc h)
value_of-ltb v (x ∷ xs) zero h = ground arith
value_of-ltb v (x ∷ xs) (suc i) h = ground (arith, value_of-ltb v xs i h)

toggle-Returns :
    (o : Option State) (s : State) → o ≡ some s → IsBinary s → Returns (λ t. Unit) (toggle o)
toggle-Returns none s e h = absurd (cc e)
toggle-Returns (some s0) s e h = tt
toggle-Returns (some s1) s e h = tt
toggle-Returns (some sx) s e h = subst IsBinary (sym (some-injective _ _ e)) h
toggle-Returns (some sz) s e h = subst IsBinary (sym (some-injective _ _ e)) h
toggle-Returns (some sa) s e h = subst IsBinary (sym (some-injective _ _ e)) h
toggle-Returns (some sm) s e h = subst IsBinary (sym (some-injective _ _ e)) h

-- What a view that is there says of the port and the mask.
record IsWellMasked (own : Text → Option (List State)) (o : Option (List SigBit)) (i : ℕ)
    (name : Text) : Type 0 where
  bits : List SigBit
  connected : o ≡ some bits
  inside : ltb i (length bits) ≡ true
  wide : (length (mask_or_zeros (own name) (length bits)) == length bits) ≡ true
  state : State
  state_at : get_elem? (mask_or_zeros (own name) (length bits)) i ≡ some state
  binary : IsBinary state

view_at-IsWellMasked :
    (v : SigBit → Bool) (own : Text → Option (List State)) (o : Option (List SigBit)) (i : ℕ)
    (name : Text) {x : Bool} {w : ℕ}
    → view_at v own o i (some name) ≡ (some x, some (w, w))
    → IsWellMasked own o i name
view_at-IsWellMasked v own none i name h = absurd (cc (ap (λ p. p.0) h))
view_at-IsWellMasked v own (some bits) i name h =
    let (b, s, e_b, e_s, k) =
      seen-some (value_of v (get_elem? bits i))
        (get_elem? (mask_or_zeros (own name) (length bits)) i) (ap (λ p. p.0) h) in
    let e_w = some-injective _ _ (ap (λ p. p.1) h) in
    record {
      bits = bits;
      connected = refl;
      inside = value_of-ltb v bits i e_b;
      wide = (==_iff _ _).1 (ap (λ p. p.1) e_w ∙ sym (ap (λ p. p.0) e_w));
      state = s;
      state_at = e_s;
      binary = k;
    }

module _ {M : Type 0} (n : Netlist M (List State)) (laws : IsNetlist n)
    (invertible_pin : Text → Text → Option Text) (v : SigBit → Bool)
    (own : HasOwnParams n laws invertible_pin v) (sigmap : SigBit → SigBit) where
  -- A saved pin with a mask as wide as its port and a bit of the mask that is 0 or 1.
  pub record IsReady (inv_params : List (Pin × Text)) (m : M) (pin : Pin) : Type 0 where
    pub owner : Text
    pub parameter : Text
    pub value : Bool
    pub width : ℕ
    pub owned : pin.cell ≡ some owner
    pub saved : find_key pin_eq pin inv_params ≡ some parameter
    pub invertible : invertible_pin (n.cell_type owner m) pin.port ≡ some parameter
    pub viewed :
        port_view n laws invertible_pin v owner pin.port pin.bit m
        ≡ (some value, some (width, width))

  -- The first bit of a port is there.
  abbrev pub HasBit : Text → Text → M → Type 0
  HasBit c p m = (b : SigBit) × (bs : List SigBit) × (n.get_port c p m ≡ some (b ∷ bs))

  pub IsReady-after :
      (inv_params : List (Pin × Text)) (P : Text → Type 0) (m m' : M) (pin : Pin)
      → ((c : Text) → pin.cell ≡ some c → P c)
      → IsSame n laws invertible_pin v P m m'
      → IsReady inv_params m pin
      → IsReady inv_params m' pin
  IsReady-after inv_params P m m' pin hp s r = record {
    owner = r.owner;
    parameter = r.parameter;
    value = r.value;
    width = r.width;
    owned = r.owned;
    saved = r.saved;
    invertible =
        ap (λ type. invertible_pin type pin.port) (s.types r.owner (hp r.owner r.owned))
        ∙ r.invertible;
    viewed = s.views r.owner pin.port pin.bit (hp r.owner r.owned) ∙ r.viewed;
  }

  toggle_bit-Returns :
      (cell port name : Text) (i : ℕ) (y : SigBit) (m : M)
      (w : IsWellMasked (λ k. n.own_param cell k m) (n.get_port cell port m) i name)
      → Returns
          (λ m'. Unit)
          (toggle_bit n sigmap invertible_pin cell name i
            (length w.bits)
            (n.set_port cell port (set_at w.bits i y) m))
  unfolding toggle_bit
  toggle_bit-Returns cell port name i y m w =
      rw (laws.own_param-set_port cell port cell name (set_at w.bits i y) m) (
        Returns-test (λ m'. Unit)
          (length (mask_or_zeros (n.own_param cell name m) (length w.bits)) == length w.bits) _ _
          (λ g.
            Returns-bind (λ t. Unit) (λ m'. Unit) _ _ (toggle-Returns _ w.state w.state_at w.binary)
              (λ t u. tt))
          (λ g. absurd (true≢false (sym w.wide ∙ g))))

  first_of-Returns :
      (xs : List SigBit) (y : SigBit) (ys : List SigBit)
      → xs ≡ y ∷ ys
      → Returns (λ b. Unit) (first_of xs)
  first_of-Returns [] y ys e = absurd (cc e)
  first_of-Returns (x ∷ xs) y ys e = tt

  cell_pin-Returns :
      (inv : Text) (inv_params : List (Pin × Text)) (cell port name : Text) (i : ℕ) (m : M)
      → HasBit inv port_a m
      → find_key pin_eq (record { cell = some cell; port = port; bit = i }) inv_params ≡ some name
      → IsWellMasked (λ k. n.own_param cell k m) (n.get_port cell port m) i name
      → Returns
          (λ m'. Unit)
          (integrate_cell_pin n sigmap invertible_pin inv inv_params cell port i m)
  unfolding integrate_cell_pin
  cell_pin-Returns inv inv_params cell port name i m (a, as', e_a) saved w =
      let U : M → Type 0 = λ m'. Unit in
      Returns-bind (λ b. b ≡ w.bits) U (bits_of (n.get_port cell port m)) _
        (Returns-eq _ (ap bits_of w.connected))
        (λ b e_b.
          Returns-test U (ltb i (length b)) _ _
            (λ g.
              Returns-bind (λ xs. xs ≡ a ∷ as') U (bits_of (n.get_port inv port_a m)) _
                (Returns-eq _ (ap bits_of e_a))
                (λ xs e_xs.
                  Returns-bind (λ y. Unit) U (first_of xs) _ (first_of-Returns xs a as' e_xs)
                    (λ y u.
                      Returns-bind (λ k. k ≡ name) U
                        (name_of (
                          find_key pin_eq (record { cell = some cell; port = port; bit = i })
                            inv_params))
                        _ (Returns-eq _ (ap name_of saved))
                        (λ k e_k.
                          subst
                            (λ l. Returns U (
                              toggle_bit n sigmap invertible_pin cell l i (length b)
                                (n.set_port cell port (set_at b i y) m)))
                            (sym e_k)
                            (subst
                              (λ bs. Returns U (
                                toggle_bit n sigmap invertible_pin cell name i (length bs)
                                  (n.set_port cell port (set_at bs i y) m)))
                              (sym e_b) (toggle_bit-Returns cell port name i y m w))))))
            (λ g. absurd (true≢false (sym (ap (λ bs. ltb i (length bs)) e_b ∙ w.inside) ∙ g))))

  pin-Returns :
      (inv : Text) (inv_params : List (Pin × Text)) (c : Option Text) (port : Text) (i : ℕ) (m : M)
      → HasBit inv port_a m
      → IsReady inv_params m (record { cell = c; port = port; bit = i })
      → Returns
          (λ m'. Unit)
          (integrate_pin n sigmap invertible_pin inv inv_params
            (record { cell = c; port = port; bit = i })
            m)
  pin-Returns inv inv_params none port i m has r = absurd (cc r.owned)
  pin-Returns inv inv_params (some c) port i m has r =
      let e_c : r.owner ≡ c = sym (some-injective _ _ r.owned) in
      cell_pin-Returns inv inv_params c port r.parameter i m has r.saved (
        view_at-IsWellMasked v (λ k. n.own_param c k m) (n.get_port c port m) i r.parameter
          (ap (λ k. view_at v (λ l. n.own_param c l m) (n.get_port c port m) i k)
              (sym (ap (λ d. invertible_pin (n.cell_type d m) port) (sym e_c) ∙ r.invertible))
            ∙ ap (λ d. port_view n laws invertible_pin v d port i m) (sym e_c)
            ∙ r.viewed))

  pub HasBit-after :
      (inv p : Text) (P : Text → Type 0) (m m' : M)
      → P inv
      → IsSame n laws invertible_pin v P m m'
      → invertible_pin (n.cell_type inv m) p ≡ none
      → HasBit inv p m
      → HasBit inv p m'
  HasBit-after inv p P m m' h s plain (b, bs, e) = (b, bs, s.ports inv p h plain ∙ e)

  module _ (inv : Text) where
    integrate_pins-Returns :
        (inv_params : List (Pin × Text)) (pins : List Pin) (m : M)
        → invertible_pin (n.cell_type inv m) port_a ≡ none
        → All (IsNamed n laws invertible_pin v m) inv_params
        → DistinctPins pins
        → All (IsInverted n laws invertible_pin v inv m) pins
        → HasBit inv port_a m
        → All (IsReady inv_params m) pins
        → Returns (λ m'. Unit) (integrate_pins n sigmap invertible_pin inv inv_params pins m)
    unfolding integrate_pins
    integrate_pins-Returns inv_params [] m plain named distinct inverted has ready = tt
    integrate_pins-Returns inv_params (pin ∷ pins) m plain named (apart, distinct) (h, inverted) has
          (r, ready) =
        let Step = IsStep n laws invertible_pin v inv pin m in
        let Inverted = IsInverted n laws invertible_pin v inv in
        Returns-bind Step (λ m'. Unit) (integrate_pin n sigmap invertible_pin inv inv_params pin m)
          _
          (Returns-Holds Step _ (pin-Returns inv inv_params pin.cell pin.port pin.bit m has r) (
            pin-IsStep n laws invertible_pin v own sigmap inv inv_params pin.cell pin.port pin.bit m
              plain named h))
          (λ m' step.
            integrate_pins-Returns inv_params pins m'
              (ap (λ type. invertible_pin type port_a) (step.same.types inv tt) ∙ plain)
              (IsNamed-after n laws invertible_pin v own sigmap inv m m' inv_params step.same named)
              distinct
              (All-map (λ q. (pin_eq pin q ≡ false) × Inverted m q) (Inverted m') pins
                (λ q (a, i). step.rest q a i)
                (All-zip (λ q. pin_eq pin q ≡ false) (Inverted m) pins apart inverted))
              (HasBit-after inv port_a (Any n laws invertible_pin v) m m' tt step.same plain has)
              (All-map (IsReady inv_params m) (IsReady inv_params m') pins
                (λ q.
                  IsReady-after inv_params (Any n laws invertible_pin v) m m' q (λ c e. tt)
                    step.same)
                ready))

    sinks_for_driver-Returns :
        (m : M)
        → HasBit inv port_y m
        → Returns (λ sinks. Unit) (sinks_for_driver n sigmap invertible_pin inv port_y m)
    unfolding sinks_for_driver
    sinks_for_driver-Returns m (y, ys, e) =
        let U : List Pin → Type 0 = λ sinks. Unit in
        Returns-test U (n.output inv port_y m) _ _
          (λ g.
            Returns-bind (λ xs. xs ≡ y ∷ ys) U (bits_of (n.get_port inv port_y m)) _
              (Returns-eq _ (ap bits_of e))
              (λ xs e_xs.
                Returns-bind (λ b. Unit) U (first_of xs) _ (first_of-Returns xs y ys e_xs)
                  (λ b u. tt)))
          (λ g. tt)

    pub integrate_inverter-Returns :
        (inv_params : List (Pin × Text)) (pins : List Pin) (m : M)
        → ((b : SigBit) → v (sigmap b) ≡ v b)
        → invertible_pin (n.cell_type inv m) port_a ≡ none
        → IsInverter n laws invertible_pin v own sigmap inv m
        → All (IsNamed n laws invertible_pin v m) inv_params
        → DistinctPins pins
        → HasBit inv port_a m
        → HasBit inv port_y m
        → All (IsReady inv_params m) pins
        → Returns
            (IsSame n laws invertible_pin v (Others n laws invertible_pin v own sigmap inv) m)
            (integrate_inverter n sigmap invertible_pin inv inv_params pins m)
    unfolding integrate_inverter
    integrate_inverter-Returns inv_params pins m joined plain inverts named distinct has_a has_y
          ready =
        let Inverted = IsInverted n laws invertible_pin v inv m in
        let U : M → Type 0 = λ m'. Unit in
        Returns-Holds _ _
          (Returns-bind (All Inverted) U (sinks_for_driver n sigmap invertible_pin inv port_y m) _
            (Returns-Holds (All Inverted) _ (sinks_for_driver-Returns m has_y)
              (sinks-IsInverted n laws invertible_pin v own sigmap inv m joined inverts))
            (λ xs h.
              Returns-test U (same_pool pin_eq xs pins) _ _
                (λ g.
                  Returns-bind U U (integrate_pins n sigmap invertible_pin inv inv_params pins m) _
                    (integrate_pins-Returns inv_params pins m plain named distinct
                      (same_pool-All pin_eq xs pins
                        (λ x a e_x i. subst Inverted (pin_eq→eq x a e_x) i) g h)
                      has_a ready)
                    (λ m' u. tt))
                (λ g. tt)))
          (integrate_inverter-IsSame n laws invertible_pin v own sigmap inv inv_params pins m joined
            plain inverts named distinct)
