-- ===== src/Inv/Pass.antt =====
-- integrateinv-plugin/integrateinv.cc, `execute` on a module.
use yosys_quicklogic_plugins.Base.{◌≡◌, Bool, false, Option, List, Text, text_eq, All}
use yosys_quicklogic_plugins.Rtlil.{State, SigBit, Netlist, IsNetlist}
use yosys_quicklogic_plugins.Inv.{Pin, not_type}
use yosys_quicklogic_plugins.Inv.OnePin.{HasOwnParams}
use yosys_quicklogic_plugins.Inv.Pins.{IsSame}
use yosys_quicklogic_plugins.Inv.Trace.{IsTrace}

module _ {M : Type 0} (n : Netlist M (List State)) (laws : IsNetlist n)
    (invertible_pin : Text → Text → Option Text) (v : SigBit → Bool)
    (own : HasOwnParams n laws invertible_pin v) (sigmap : SigBit → SigBit) where
  abbrev pub IsNoInverter : M → Text → Type 0
  IsNoInverter m d = text_eq (n.cell_type d m) not_type ≡ false

  -- What the pass leaves of a module.
  abbrev pub IsIntegrated : M → M → Type 0
  IsIntegrated m m' =
      IsSame n laws invertible_pin v (IsNoInverter m) m m'
      × ((rows : List (Text × List Pin)) × All (λ row. n.cell_type row.0 m ≡ not_type) rows
          × IsTrace n laws invertible_pin v own sigmap rows m m')
