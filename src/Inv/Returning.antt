-- ===== src/Inv/Returning.antt =====
-- integrateinv-plugin/integrateinv.cc, `integrateInverters`: when the loop ends without an error.
use yosys_quicklogic_plugins.Base.{Bool, Option, List, Text, All}
use yosys_quicklogic_plugins.Rtlil.{State, SigBit, Netlist, IsNetlist}
use yosys_quicklogic_plugins.Inv.{Pin, port_a, port_y}
use yosys_quicklogic_plugins.Inv.OnePin.{HasOwnParams}
use yosys_quicklogic_plugins.Inv.Total.{IsReady, HasBit}

module _ {M : Type 0} (n : Netlist M (List State)) (laws : IsNetlist n)
    (invertible_pin : Text → Text → Option Text) (v : SigBit → Bool)
    (own : HasOwnParams n laws invertible_pin v) (sigmap : SigBit → SigBit) where
  -- The inverter has its nets, and its pins are ready.
  abbrev pub IsReadyRow : List (Pin × Text) → M → Text × List Pin → Type 0
  IsReadyRow inv_params m (inv, pins) =
      HasBit n laws invertible_pin v own sigmap inv port_a m
      × HasBit n laws invertible_pin v own sigmap inv port_y m
      × All (IsReady n laws invertible_pin v own sigmap inv_params m) pins
