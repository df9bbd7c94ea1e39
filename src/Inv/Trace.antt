-- ===== src/Inv/Trace.antt =====
-- integrateinv-plugin/integrateinv.cc, `integrateInverters`: one inverter after the other.
use yosys_quicklogic_plugins.Base.{◌≡◌, refl, ap, ◌∙◌, Bool, Option, none, List, [], ◌∷◌, Text, All}
use yosys_quicklogic_plugins.Base.Maps.{DistinctKeys}
use yosys_quicklogic_plugins.Base.Results.{Holds, Holds-both, Holds-bind, Holds-map}
use yosys_quicklogic_plugins.Rtlil.{State, SigBit, Netlist, IsNetlist}
use yosys_quicklogic_plugins.Inv.{Pin, not_type, port_a, integrate_inverter, integrate_inverters}
use yosys_quicklogic_plugins.Inv.OnePin.{HasOwnParams}
use yosys_quicklogic_plugins.Inv.Pins.{IsNamed, IsSame}
use yosys_quicklogic_plugins.Inv.Sinks.{Others, integrate_inverter-IsSame}
use yosys_quicklogic_plugins.Inv.Rows.{IsRow, Behaves, IsNamed-after, IsRow-after}
use yosys_quicklogic_plugins.Inv.Taken.{IsTaken, integrate_inverter-IsTaken}

module _ {M : Type 0} (n : Netlist M (List State)) (laws : IsNetlist n)
    (invertible_pin : Text → Text → Option Text) (v : SigBit → Bool)
    (own : HasOwnParams n laws invertible_pin v) (sigmap : SigBit → SigBit) where
  -- From the first module to the second, the inverters are taken one after the other.
  abbrev pub IsTrace : List (Text × List Pin) → M → M → Type 0
  IsTrace [] m m' = m' ≡ m
  IsTrace ((inv, pins) ∷ rows) m m' =
      (mid : M) × IsTaken n laws invertible_pin v own sigmap inv pins m mid × IsTrace rows mid m'

  module _ (joined : (b : SigBit) → v (sigmap b) ≡ v b)
      (plain : (p : Text) → invertible_pin not_type p ≡ none) where
    pub integrate_inverters-IsTrace :
        (rows : List (Text × List Pin)) (inv_params : List (Pin × Text)) (m : M)
        → DistinctKeys rows
        → All (IsRow n laws invertible_pin v own sigmap m) rows
        → All (Behaves n laws invertible_pin v own sigmap m) rows
        → All (IsNamed n laws invertible_pin v m) inv_params
        → Holds (IsTrace rows m) (integrate_inverters n sigmap invertible_pin rows inv_params m)
    unfolding integrate_inverters
    integrate_inverters-IsTrace [] inv_params m distinct rows behave named = refl
    integrate_inverters-IsTrace ((inv, pins) ∷ rows) inv_params m (apart, distinct) ((e, dp), hs)
          (i, is) named =
        let Same =
          IsSame n laws invertible_pin v (Others n laws invertible_pin v own sigmap inv) m in
        let Taken = IsTaken n laws invertible_pin v own sigmap inv pins m in
        let is_plain = ap (λ type. invertible_pin type port_a) e ∙ plain port_a in
        Holds-bind (λ m'. Same m' × Taken m') (IsTrace ((inv, pins) ∷ rows) m)
          (integrate_inverter n sigmap invertible_pin inv inv_params pins m) _
          (Holds-both Same Taken _
            (integrate_inverter-IsSame n laws invertible_pin v own sigmap inv inv_params pins m
              joined is_plain i named dp)
            (integrate_inverter-IsTaken n laws invertible_pin v own sigmap inv inv_params pins m
              joined is_plain i named dp))
          (λ mid (s, taken).
            let (hs', is') =
              IsRow-after n laws invertible_pin v own sigmap joined plain inv m mid rows s apart hs
                is in
            Holds-map (IsTrace rows mid) (IsTrace ((inv, pins) ∷ rows) m) _
              (λ m' trace. (mid, taken, trace))
              (integrate_inverters-IsTrace rows inv_params mid distinct hs' is' (
                IsNamed-after n laws invertible_pin v own sigmap joined plain inv m mid inv_params e
                  s named)))
