-- ===== src/Tests/Buffers.antt =====
-- A wire with a buffer, and the wire behind it.
use yosys_quicklogic_plugins.Base.{
  ℕ, ◌<◌, ◌≡◌, refl, ◌&&◌, some, List, [], ◌∷◌, Text, codes, text_eq, arith, if◌then◌else◌,
}
use yosys_quicklogic_plugins.Base.Results.{ok}
use yosys_quicklogic_plugins.Sdc.Buffers.{Selections, find_sink_wires}
use yosys_quicklogic_plugins.Sdc.Chains.{IsStep, IsSearched, find_sink_wires-IsSearched}

data Net : Type 0 where
  net_a net_b : Net

data Buffer : Type 0 where
  buffer : Buffer

abbrev net_name : Net → Text
net_name net_a = codes "a"
net_name net_b = codes "b"

abbrev cells_for : List Text → List Buffer
cells_for (base ∷ type ∷ args) =
    if text_eq base (codes "top/w:a") && text_eq type (codes "%co:+BUFG") then buffer ∷ [] else []
cells_for args = []

abbrev wires_for : List Text → List Net
wires_for (base ∷ port ∷ args) =
    if text_eq base (codes "top/c:u") && text_eq port (codes "%co:+[O]") then net_b ∷ [] else []
wires_for args = []

abbrev selections : Selections Net Buffer
selections = record {
  top_name = codes "top";
  wire_name = net_name;
  cell_name = λ c. codes "u";
  selected_cells = cells_for;
  selected_wires = wires_for;
}

abbrev rank : Net → ℕ
rank net_a = 1
rank net_b = 0

rank_falls : (v w : Net) → IsStep selections (codes "BUFG") (codes "O") v w → rank w < rank v
unfolding text_eq
rank_falls net_a net_a (buffer, hc, hw) = absurd (cc hw)
rank_falls net_a net_b step = omega arith
rank_falls net_b w (c, hc, hw) = absurd (cc hc)

finds_wire : find_sink_wires selections (codes "BUFG") (codes "O") 2 (some net_a) ≡ ok (net_b ∷ [])
unfolding find_sink_wires text_eq
finds_wire = refl

find_sink_wires-IsSearched_example :
    IsSearched selections
      (codes "BUFG")
      (codes "O")
      net_a
      (find_sink_wires selections (codes "BUFG") (codes "O") 2 (some net_a))
find_sink_wires-IsSearched_example =
    find_sink_wires-IsSearched selections (codes "BUFG") (codes "O") rank rank_falls 2 net_a
      (omega arith)
