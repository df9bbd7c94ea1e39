-- ===== src/Inv/Rows.antt =====
-- integrateinv-plugin/integrateinv.cc, `integrateInverters` over all inverters.
use mathlib.Core.Option.{some-ne-none}
use yosys_quicklogic_plugins.Base.{
  ◌≡◌, sym, ap, ◌∙◌, inl, inr, Bool, false, Option, none, List, [], ◌∷◌, Text, text_eq, text_eq_iff,
  Bool-cases, All, All-map,
}
use yosys_quicklogic_plugins.Base.Maps.{DistinctKeys}
use yosys_quicklogic_plugins.Base.Results.{◌>>=◌, Holds, Holds-bind, Holds-map}
use yosys_quicklogic_plugins.Rtlil.{State, SigBit, Netlist, IsNetlist}
use yosys_quicklogic_plugins.Inv.{
  Pin, bits_of, first_of, not_type, port_a, port_y, integrate_inverter, integrate_inverters,
}
use yosys_quicklogic_plugins.Inv.OnePin.{HasOwnParams}
use yosys_quicklogic_plugins.Inv.Pins.{IsNamed, IsSame, IsSame-refl, IsSame-trans}
use yosys_quicklogic_plugins.Inv.Sinks.{DistinctPins, IsInverter, Others, integrate_inverter-IsSame}

module _ {M : Type 0} (n : Netlist M (List State)) (laws : IsNetlist n)
    (invertible_pin : Text → Text → Option Text) (v : SigBit → Bool)
    (own : HasOwnParams n laws invertible_pin v) (sigmap : SigBit → SigBit) where
  -- An inverter that is stored with its pins.
  abbrev pub IsRow : M → Text × List Pin → Type 0
  IsRow m (inv, pins) = (n.cell_type inv m ≡ not_type) × DistinctPins pins

  abbrev pub Behaves : M → Text × List Pin → Type 0
  Behaves m (inv, pins) = IsInverter n laws invertible_pin v own sigmap inv m

  -- A cell that is not one of the inverters.
  abbrev pub IsOther : List (Text × List Pin) → Text → Type 0
  IsOther rows d = All (λ row. text_eq row.0 d ≡ false) rows

  module _ (joined : (b : SigBit) → v (sigmap b) ≡ v b)
      (plain : (p : Text) → invertible_pin not_type p ≡ none) where
    pub IsNamed-after :
        (inv : Text) (m m' : M) (inv_params : List (Pin × Text))
        → n.cell_type inv m ≡ not_type
        → IsSame n laws invertible_pin v (Others n laws invertible_pin v own sigmap inv) m m'
        → All (IsNamed n laws invertible_pin v m) inv_params
        → All (IsNamed n laws invertible_pin v m') inv_params
    IsNamed-after inv m m' inv_params e s h =
        All-map (IsNamed n laws invertible_pin v m) (IsNamed n laws invertible_pin v m') inv_params
          (λ row k c ec. elim (Bool-cases (text_eq inv c)) [
            | inl g ↦
                let e_c : n.cell_type c m ≡ not_type =
                  ap (λ d. n.cell_type d m) (sym ((text_eq_iff inv c).0 g)) ∙ e in
                absurd (
                  some-ne-none _ (
                    sym (k c ec)
                    ∙ ap (λ type. invertible_pin type row.0.port) e_c
                    ∙ plain row.0.port))
            | inr g ↦ ap (λ type. invertible_pin type row.0.port) (s.types c g) ∙ k c ec
          ])
          h

    pub IsRow-after :
        (inv : Text) (m m' : M) (rows : List (Text × List Pin))
        → IsSame n laws invertible_pin v (Others n laws invertible_pin v own sigmap inv) m m'
        → All (λ row. text_eq inv row.0 ≡ false) rows
        → All (IsRow m) rows
        → All (Behaves m) rows
        → All (IsRow m') rows × All (Behaves m') rows
    IsRow-after inv m m' [] s apart h b = (tt, tt)
    IsRow-after inv m m' ((d, pins) ∷ rows) s (a, apart) ((e, distinct), h) (i, b) =
        let is_plain = λ (p : Text). ap (λ type. invertible_pin type p) e ∙ plain p in
        let kept =
          λ (p : Text). ap (λ o. bits_of o >>= first_of) (sym (s.ports d p a (is_plain p))) in
        let (h', b') = IsRow-after inv m m' rows s apart h b in
        (
          ((s.types d a ∙ e, distinct), h'),
          ((λ y x ey ex. i y x (kept port_y ∙ ey) (kept port_a ∙ ex)), b'),
        )

    pub integrate_inverters-IsSame :
        (rows : List (Text × List Pin)) (inv_params : List (Pin × Text)) (m : M)
        → DistinctKeys rows
        → All (IsRow m) rows
        → All (Behaves m) rows
        → All (IsNamed n laws invertible_pin v m) inv_params
        → Holds
            (IsSame n laws invertible_pin v (IsOther rows) m)
            (integrate_inverters n sigmap invertible_pin rows inv_params m)
    unfolding integrate_inverters
    integrate_inverters-IsSame [] inv_params m distinct rows behave named =
        IsSame-refl n laws invertible_pin v _ m
    integrate_inverters-IsSame ((inv, pins) ∷ rows) inv_params m (apart, distinct) ((e, dp), hs)
          (i, is) named =
        let Same = IsSame n laws invertible_pin v in
        let Rest = Others n laws invertible_pin v own sigmap inv in
        Holds-bind (Same Rest m) (Same (IsOther ((inv, pins) ∷ rows)) m)
          (integrate_inverter n sigmap invertible_pin inv inv_params pins m) _
          (integrate_inverter-IsSame n laws invertible_pin v own sigmap inv inv_params pins m joined
            (ap (λ type. invertible_pin type port_a) e ∙ plain port_a) i named dp)
          (λ m' s.
            let (hs', is') = IsRow-after inv m m' rows s apart hs is in
            Holds-map (Same (IsOther rows) m') (Same (IsOther ((inv, pins) ∷ rows)) m) _
              (λ m'' t.
                IsSame-trans n laws invertible_pin v _ _ _ m m' m'' (λ d h. h.0) (λ d h. h.1) s t)
              (integrate_inverters-IsSame rows inv_params m' distinct hs' is'
                (IsNamed-after inv m m' inv_params e s named)))
