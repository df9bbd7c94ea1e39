-- ===== src/Inv/Pins.antt =====
-- integrateinv-plugin/integrateinv.cc, `integrateInverters`: an inverter that is taken into its pins.
use mathlib.Core.Path.{subst}
use yosys_quicklogic_plugins.Base.{
  ℕ, ◌≡◌, refl, sym, ap, ◌∙◌, inl, inr, Bool, true, false, not, ◌&&◌, Option, none, some, List,
  Text, text_eq, text_eq_iff, get_elem?, get_elem?-some, length, ltb, Bool-cases, All, arith, ◌==◌,
  ==_iff,
}
use yosys_quicklogic_plugins.Base.Results.{
  Holds-self, Result, ok, err, ◌>>=◌, Holds, Holds-test, Holds-bind,
}
use yosys_quicklogic_plugins.Rtlil.{State, SigBit, Netlist, IsNetlist}
use yosys_quicklogic_plugins.Rtlil.Bits.{set_at, get_elem?-set_at_same, get_elem?-set_at_other}
use yosys_quicklogic_plugins.Rtlil.Pools.{find_key}
use yosys_quicklogic_plugins.Inv.{
  Pin, Error, cell_eq, pin_eq, port_a, mask_or_zeros, toggle, bits_of, first_of, name_of,
  toggle_bit, integrate_cell_pin,
}
use yosys_quicklogic_plugins.Inv.Meaning.{find_key-All, pin_eq→eq}
use yosys_quicklogic_plugins.Inv.OnePin.{
  bits_of-some, name_of-some, bits_or, port_view, HasOwnParams, IsPinChange, after-IsPinChange,
}

abbrev or_else : SigBit → Result Error SigBit → SigBit
or_else c (ok d) = d
or_else c (err e) = c

ok-injective : {a b : SigBit} {r : Result Error SigBit} → r ≡ ok a → r ≡ ok b → a ≡ b
ok-injective {a} {b} h k = ap (or_else a) (sym h ∙ k)

module _ {M : Type 0} (n : Netlist M (List State)) (laws : IsNetlist n)
    (invertible_pin : Text → Text → Option Text) (v : SigBit → Bool) where
  -- The first bit of a port.
  abbrev pub net : Text → Text → M → Result Error SigBit
  net c p m = bits_of (n.get_port c p m) >>= first_of

  -- The parameter that is saved for a pin is its port's.
  abbrev pub IsNamed : M → Pin × Text → Type 0
  IsNamed m e =
      (c : Text) → e.0.cell ≡ some c → invertible_pin (n.cell_type c m) e.0.port ≡ some e.1

  -- A pin's net has the opposite value of the inverter's input.
  abbrev pub IsInverted : Text → M → Pin → Type 0
  IsInverted inv m pin =
      (c : Text) (bits : List SigBit) (b a : SigBit)
      → pin.cell ≡ some c
      → n.get_port c pin.port m ≡ some bits
      → get_elem? bits pin.bit ≡ some b
      → net inv port_a m ≡ ok a
      → v b ≡ not (v a)

  -- The cells with P have their type, see what they saw at each pin, and have their other ports
  -- connected as they were.
  pub record IsSame (P : Text → Type 0) (m m' : M) : Type 0 where
    pub types : (d : Text) → P d → n.cell_type d m' ≡ n.cell_type d m
    pub views :
        (d q : Text) (i : ℕ)
        → P d
        → port_view n laws invertible_pin v d q i m' ≡ port_view n laws invertible_pin v d q i m
    pub ports :
        (d q : Text)
        → P d
        → invertible_pin (n.cell_type d m) q ≡ none
        → n.get_port d q m' ≡ n.get_port d q m

  pub IsSame-refl : (P : Text → Type 0) (m : M) → IsSame P m m
  IsSame-refl P m = record { types = λ d h. refl; views = λ d q i h. refl; ports = λ d q h e. refl }

  pub IsSame-trans :
      (P Q R : Text → Type 0) (m m' m'' : M)
      → ((d : Text) → R d → P d)
      → ((d : Text) → R d → Q d)
      → IsSame P m m'
      → IsSame Q m' m''
      → IsSame R m m''
  IsSame-trans P Q R m m' m'' hp hq s t = record {
    types = λ d h. t.types d (hq d h) ∙ s.types d (hp d h);
    views = λ d q i h. t.views d q i (hq d h) ∙ s.views d q i (hp d h);
    ports = λ d q h e.
        t.ports d q (hq d h) (ap (λ type. invertible_pin type q) (s.types d (hp d h)) ∙ e)
        ∙ s.ports d q (hp d h) e;
  }

  abbrev pub Any : Text → Type 0
  Any d = Unit

  -- A pin is on the net of the inverter's input.
  abbrev pub IsMoved : Text → M → Pin → Type 0
  IsMoved inv m pin =
      (c : Text) × (bits : List SigBit) × (a : SigBit) × (pin.cell ≡ some c)
      × (n.get_port c pin.port m ≡ some bits)
      × (get_elem? bits pin.bit ≡ some a)
      × (net inv port_a m ≡ ok a)

  -- After one pin of an inverter.
  pub record IsStep (inv : Text) (pin : Pin) (m m' : M) : Type 0 where
    pub same : IsSame Any m m'
    pub rest : (q : Pin) → pin_eq pin q ≡ false → IsInverted inv m q → IsInverted inv m' q
    pub moved : IsMoved inv m' pin
    pub keeps : (q : Pin) → IsMoved inv m q → IsMoved inv m' q

  module _ (own : HasOwnParams n laws invertible_pin v) (sigmap : SigBit → SigBit)
      (inv : Text) where
    module _ (cell port : Text) (bit : ℕ) (a : SigBit) (m m' : M)
        (plain : invertible_pin (n.cell_type inv m) port_a ≡ none) where
      change-IsSame :
          {name : Text}
          → invertible_pin (n.cell_type cell m) port ≡ some name
          → IsPinChange n laws invertible_pin v cell port bit a m m'
          → IsSame Any m m'
      change-IsSame e_name s = record {
        types = λ d h. s.types d;
        views = λ d q i h. s.views d q i;
        ports = λ d q h e. elim (Bool-cases (text_eq cell d && text_eq port q)) [
          | inl g ↦
              let ec : cell ≡ d = ground (arith, text_eq_iff cell d) in
              let ep : port ≡ q = ground (arith, text_eq_iff port q) in absurd (cc)
          | inr g ↦ s.others d q g
        ];
      }

      change-IsInverted :
          (bits : List SigBit)
          → n.get_port cell port m ≡ some bits
          → IsSame Any m m'
          → IsPinChange n laws invertible_pin v cell port bit a m m'
          → (q : Pin) → pin_eq (record { cell = some cell; port = port; bit = bit }) q ≡ false
          → IsInverted inv m q
          → IsInverted inv m' q
      unfolding pin_eq
      change-IsInverted bits e_port same s q apart h c bits' b a' ec ep eb ea =
          let ea0 = ap (λ o. bits_of o >>= first_of) (sym (same.ports inv port_a tt plain)) ∙ ea in
          elim (Bool-cases (text_eq cell c && text_eq port q.port)) [
            | inl g ↦
                let e_cell : cell ≡ c = ground (arith, text_eq_iff cell c) in
                let e_q : port ≡ q.port = ground (arith, text_eq_iff port q.port) in
                let apart' : (text_eq cell c && (text_eq port q.port && bit == q.bit)) ≡ false =
                  ap (λ o. cell_eq (some cell) o && (text_eq port q.port && bit == q.bit)) (sym ec)
                  ∙ apart in
                let e_bits =
                  sym (s.changed bits e_port)
                  ∙ ap (λ d. n.get_port d port m') e_cell
                  ∙ ap (λ r. n.get_port c r m') e_q
                  ∙ ep in
                h c bits b a' ec
                  (ap (λ r. n.get_port c r m) (sym e_q)
                    ∙ ap (λ d. n.get_port d port m) (sym e_cell)
                    ∙ e_port)
                  (sym (get_elem?-set_at_other bits bit q.bit a (ground arith))
                    ∙ ap (λ o. get_elem? (bits_or bits o) q.bit) e_bits
                    ∙ eb)
                  ea0
            | inr g ↦ h c bits' b a' ec (sym (s.others c q.port g) ∙ ep) eb ea0
          ]

      change-IsMoved :
          (bits : List SigBit) (b : SigBit)
          → n.get_port cell port m ≡ some bits
          → get_elem? bits bit ≡ some b
          → net inv port_a m ≡ ok a
          → IsSame Any m m'
          → IsPinChange n laws invertible_pin v cell port bit a m m'
          → IsMoved inv m' (record { cell = some cell; port = port; bit = bit })
      change-IsMoved bits b e_port e_bit e_a same s = (
        cell,
        set_at bits bit a,
        a,
        refl,
        s.changed bits e_port,
        get_elem?-set_at_same bits bit a e_bit,
        ap (λ o. bits_of o >>= first_of) (same.ports inv port_a tt plain) ∙ e_a,
      )

      -- A bit that was the inverter's input is it still.
      set_at-moved :
          (bits : List SigBit) (j : ℕ)
          → get_elem? bits j ≡ some a
          → get_elem? (set_at bits bit a) j ≡ some a
      set_at-moved bits j h = elim (Bool-cases (bit == j)) [
        | inl g ↦
            subst (λ i. get_elem? (set_at bits bit a) i ≡ some a) ((==_iff bit j).0 g)
              (get_elem?-set_at_same bits bit a
                (ap (λ i. get_elem? bits i) ((==_iff bit j).0 g) ∙ h))
        | inr g ↦ get_elem?-set_at_other bits bit j a g ∙ h
      ]

      change-keeps :
          net inv port_a m ≡ ok a
          → IsSame Any m m'
          → IsPinChange n laws invertible_pin v cell port bit a m m'
          → (q : Pin) → IsMoved inv m q
          → IsMoved inv m' q
      change-keeps e_a same s q (c, bits, a', ec, ep, eb, ea) =
          let ea' = ap (λ o. bits_of o >>= first_of) (same.ports inv port_a tt plain) ∙ ea in
          let same_a : a' ≡ a = ok-injective ea e_a in
          elim (Bool-cases (text_eq cell c && text_eq port q.port)) [
            | inl g ↦
                let e_cell : cell ≡ c = ground (arith, text_eq_iff cell c) in
                let e_q : port ≡ q.port = ground (arith, text_eq_iff port q.port) in
                (
                  c,
                  set_at bits bit a,
                  a',
                  ec,
                  ap (λ d. n.get_port d q.port m') (sym e_cell)
                      ∙ ap (λ r. n.get_port cell r m') (sym e_q)
                      ∙ s.changed bits (
                          ap (λ d. n.get_port d port m) e_cell
                          ∙ ap (λ r. n.get_port c r m) e_q
                          ∙ ep),
                  set_at-moved bits q.bit (eb ∙ ap some same_a) ∙ ap some (sym same_a),
                  ea',
                )
            | inr g ↦ (c, bits, a', ec, s.others c q.port g ∙ ep, eb, ea')
          ]

    -- The toggled parameter, with the port connected before it.
    toggle_bit-Holds :
        (Q : M → Type 0) (cell port name : Text) (bit width : ℕ) (m m1 : M)
        → n.own_param cell name m1 ≡ n.own_param cell name m
        → ((t : State)
            → toggle (get_elem? (mask_or_zeros (n.own_param cell name m) width) bit) ≡ ok t
            → Q (
                n.set_param cell name
                  (set_at (mask_or_zeros (n.own_param cell name m) width) bit t)
                  m1))
        → Holds Q (toggle_bit n sigmap invertible_pin cell name bit width m1)
    unfolding toggle_bit
    toggle_bit-Holds Q cell port name bit width m m1 e h =
        let mask = mask_or_zeros (n.own_param cell name m) width in
        rw e (
          Holds-test Q (length mask == width) _ _
            (λ w.
              Holds-bind (λ t. toggle (get_elem? mask bit) ≡ ok t) Q (toggle (get_elem? mask bit)) _
                (Holds-self (toggle (get_elem? mask bit))) h)
            (λ w. tt))

    toggled-IsStep :
        (inv_params : List (Pin × Text)) (cell port : Text) (bit : ℕ) (m : M)
        (bits xs : List SigBit) (a : SigBit) (name : Text) (t : State)
        → invertible_pin (n.cell_type inv m) port_a ≡ none
        → All (IsNamed m) inv_params
        → IsInverted inv m (record { cell = some cell; port = port; bit = bit })
        → n.get_port cell port m ≡ some bits
        → ltb bit (length bits) ≡ true
        → bits_of (n.get_port inv port_a m) ≡ ok xs
        → first_of xs ≡ ok a
        → find_key pin_eq (record { cell = some cell; port = port; bit = bit }) inv_params
          ≡ some name
        → toggle (get_elem? (mask_or_zeros (n.own_param cell name m) (length bits)) bit) ≡ ok t
        → IsStep inv
            (record { cell = some cell; port = port; bit = bit })
            m
            (n.set_param cell name
              (set_at (mask_or_zeros (n.own_param cell name m) (length bits)) bit t)
              (n.set_port cell port (set_at bits bit a) m))
    toggled-IsStep inv_params cell port bit m bits xs a name t plain named inverted e_port e_lt e_xs
          e_a e_name e_t =
        let pin : Pin = record { cell = some cell; port = port; bit = bit } in
        let (j, e_j, h_j) = find_key-All pin_eq (IsNamed m) pin inv_params named e_name in
        let is_named = subst (λ p. IsNamed m (p, name)) (pin_eq→eq j pin e_j) h_j cell refl in
        let (b, e_b) = get_elem?-some bits bit e_lt in
        let e_net : net inv port_a m ≡ ok a = ap (λ r. r >>= first_of) e_xs ∙ e_a in
        let change =
          after-IsPinChange n laws invertible_pin v own cell port name bit bits a b t m e_port e_b
            (inverted cell bits b a refl e_port e_b (ap (λ r. r >>= first_of) e_xs ∙ e_a)) is_named
            e_t in
        let same = change-IsSame cell port bit a m _ plain is_named change in
        record {
          same = same;
          rest = change-IsInverted cell port bit a m _ plain bits e_port same change;
          moved = change-IsMoved cell port bit a m _ plain bits b e_port e_b e_net same change;
          keeps = change-keeps cell port bit a m _ plain e_net same change;
        }

    pub cell_pin-IsStep :
        (inv_params : List (Pin × Text)) (cell port : Text) (bit : ℕ) (m : M)
        → invertible_pin (n.cell_type inv m) port_a ≡ none
        → All (IsNamed m) inv_params
        → IsInverted inv m (record { cell = some cell; port = port; bit = bit })
        → Holds
            (IsStep inv (record { cell = some cell; port = port; bit = bit }) m)
            (integrate_cell_pin n sigmap invertible_pin inv inv_params cell port bit m)
    unfolding integrate_cell_pin
    cell_pin-IsStep inv_params cell port bit m plain named inverted =
        let pin : Pin = record { cell = some cell; port = port; bit = bit } in
        let Goal = IsStep inv pin m in
        Holds-bind (λ bits. bits_of (n.get_port cell port m) ≡ ok bits) Goal
          (bits_of (n.get_port cell port m)) _ (Holds-self _)
          (λ bits e_bits.
            Holds-test Goal (ltb bit (length bits)) _ _
              (λ e_lt.
                Holds-bind (λ xs. bits_of (n.get_port inv port_a m) ≡ ok xs) Goal
                  (bits_of (n.get_port inv port_a m)) _ (Holds-self _)
                  (λ xs e_xs.
                    Holds-bind (λ a. first_of xs ≡ ok a) Goal (first_of xs) _ (Holds-self _)
                      (λ a e_a.
                        Holds-bind (λ name. name_of (find_key pin_eq pin inv_params) ≡ ok name) Goal
                          (name_of (find_key pin_eq pin inv_params)) _ (Holds-self _)
                          (λ name e_name.
                            toggle_bit-Holds Goal cell port name bit (length bits) m _
                              (laws.own_param-set_port _ _ _ _ _ _)
                              (λ t e_t.
                                toggled-IsStep inv_params cell port bit m bits xs a name t plain
                                  named inverted (bits_of-some _ e_bits) e_lt e_xs e_a
                                  (name_of-some _ e_name) e_t)))))
              (λ e. tt))
