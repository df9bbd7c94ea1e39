-- ===== src/Tests/Inv.antt =====
-- An inverter between a net `a` and the pin `I` of a box, whose parameter `INV` inverts it.
use yosys_quicklogic_plugins.Base.{
  ◌≡◌, refl, Bool, ◌&&◌, ◌||◌, Option, none, some, List, [], ◌∷◌, Text, codes, text_eq,
  if◌then◌else◌,
}
use yosys_quicklogic_plugins.Base.Results.{Result, ok, err}
use yosys_quicklogic_plugins.Rtlil.{State, s1, SigBit, wire_bit, Netlist}
use yosys_quicklogic_plugins.Rtlil.Bits.{bit_eq}
use yosys_quicklogic_plugins.Tests.Designs.{Design, netlist_of}
use yosys_quicklogic_plugins.Inv.{Error, not_type, port_a, port_y, pin_eq, integrate_module, Pin}

abbrev port_i : Text
port_i = codes "\\I"

abbrev inv_param : Text
inv_param = codes "\\INV"

abbrev inverter : Text
inverter = codes "\\n0"

abbrev box : Text
box = codes "\\b0"

abbrev net_a : SigBit
net_a = wire_bit (codes "\\a") 0

abbrev net_y : SigBit
net_y = wire_bit (codes "\\y") 0

abbrev type_of : Text → Text
type_of c = if text_eq c inverter then not_type else codes "\\box"

abbrev is_input : Text → Text → Bool
is_input c p = if text_eq c inverter then text_eq p port_a else text_eq p port_i

abbrev netlist : Netlist (Design (List State)) (List State)
netlist = netlist_of type_of is_input (λ c p. text_eq p port_y) (port_i ∷ port_y ∷ []) none

abbrev invertible_pin : Text → Text → Option Text
invertible_pin type p =
    if text_eq type (codes "\\box") && text_eq p port_i then some inv_param else none

abbrev values : SigBit → Bool
values b = bit_eq b net_y

abbrev same_net : SigBit → SigBit
same_net b = b

abbrev design : Design (List State)
design = record {
  names = inverter ∷ box ∷ [];
  ports = λ c p.
      if text_eq c inverter && text_eq p port_a
      then some (net_a ∷ [])
      else if text_eq p port_y || text_eq p port_i
      then some (net_y ∷ [])
      else none;
  params = λ c k. none;
}

abbrev bit_or : SigBit → Result Error SigBit → SigBit
bit_or b (ok c) = c
bit_or b (err e) = b

abbrev after : Result Error (Design (List State))
after = integrate_module netlist same_net invertible_pin (box ∷ []) design

abbrev box_mask : Result Error (Design (List State)) → Option (List State)
box_mask (ok m) = m.params box inv_param
box_mask (err e) = none

abbrev box_input : Result Error (Design (List State)) → Option (List SigBit)
box_input (ok m) = m.ports box port_i
box_input (err e) = none

abbrev names_after : Result Error (Design (List State)) → List Text
names_after (ok m) = m.names
names_after (err e) = []

-- The inverter is gone, and the box inverts `a`.
integrates : names_after after ≡ box ∷ []
unfolding integrate_module bit_eq pin_eq
integrates = refl

inverts_input : box_mask after ≡ some (s1 ∷ [])
unfolding integrate_module bit_eq pin_eq
inverts_input = refl

connects_input : box_input after ≡ some (net_a ∷ [])
unfolding integrate_module bit_eq pin_eq
connects_input = refl

abbrev box_pin : Pin
box_pin = record { cell = some box; port = port_i; bit = 0 }
