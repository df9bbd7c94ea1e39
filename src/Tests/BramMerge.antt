-- ===== src/Tests/BramMerge.antt =====
-- Two half block RAMs, each with one net at all of its ports.
use yosys_quicklogic_plugins.Base.{
  ◌≡◌, refl, true, false, none, some, List, [], ◌∷◌, ◌++◌, Text, codes, text_eq, if◌then◌else◌, ℕ,
  ◌==◌,
}
use yosys_quicklogic_plugins.Base.Results.{Result, ok, err, Holds}
use yosys_quicklogic_plugins.Rtlil.{wire_bit}
use yosys_quicklogic_plugins.Tests.Designs.{Design, netlist_of, netlist_of-IsNetlist}
use yosys_quicklogic_plugins.BramMerge.{
  Brams, Fault, option_split, split_cell_type, merge_brams, merge_module,
}
use yosys_quicklogic_plugins.BramMerge.Wiring.{IsBrams, IsWired, merged, merge_brams-IsWired}

abbrev half_1 : Text
half_1 = codes "\\r1"

abbrev half_2 : Text
half_2 = codes "\\r2"

abbrev design : Design ℕ
design = record {
  names = half_1 ∷ half_2 ∷ [];
  ports = λ c p. some (wire_bit c 0 ∷ []);
  params = λ c k. if text_eq k option_split then some 1 else none;
}

abbrev brams : Brams (Design ℕ) ℕ
brams = record {
  netlist = netlist_of (λ c. split_cell_type) (λ c p. true) (λ c p. false) [] none;
  add_cell = λ type m. (codes "$new", record m { names = m.names ++ codes "$new" ∷ [] });
  attributes = λ c m. [];
  set_attributes = λ c a m. m;
  same = λ v w. v == w;
  one = 1;
  order = λ cells. cells;
}

brams-IsBrams : IsBrams brams
brams-IsBrams = record {
  laws = netlist_of-IsNetlist (λ c. split_cell_type) (λ c p. true) (λ c p. false) [] none;
  get_port-add_cell = λ type c r m h. refl;
  get_port-set_attributes = λ d c r a m. refl;
}

abbrev names_after : Result Fault (Design ℕ) → List Text
names_after (ok m) = m.names
names_after (err f) = []

merges : names_after (merge_module brams (half_1 ∷ half_2 ∷ []) design) ≡ codes "$new" ∷ []
unfolding merge_module text_eq
merges = refl

merge_brams-IsWired_example :
    Holds
      (λ m'.
        IsWired brams brams-IsBrams half_1
          (merged brams brams-IsBrams half_1 half_2 design)
          design
          false
          m'
        × IsWired brams brams-IsBrams half_2
            (merged brams brams-IsBrams half_1 half_2 design)
            design
            true
            m')
      (merge_brams brams half_1 half_2 design)
unfolding text_eq
merge_brams-IsWired_example = merge_brams-IsWired brams brams-IsBrams half_1 half_2 design refl refl
