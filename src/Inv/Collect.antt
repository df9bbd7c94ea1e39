-- ===== src/Inv/Collect.antt =====
-- integrateinv-plugin/integrateinv.cc: what `buildInverterMap` and `collectInverters` establish.
use mathlib.Core.Option.{some-injective}
use yosys_quicklogic_plugins.Base.{
  ℕ, suc, ◌≡◌, refl, sym, ap, ◌∙◌, inl, inr, Bool, false, Option, none, some, List, [], ◌∷◌, ◌++◌,
  Text, text_eq, text_eq_iff, Bool-cases, All, All-append, arith,
}
use yosys_quicklogic_plugins.Base.Maps.{
  lookup, contains, All-insert, DistinctKeys, insert-DistinctKeys,
}
use yosys_quicklogic_plugins.Base.Results.{
  Result, Holds, Holds-test, Holds-if, Holds-any, Holds-bind,
}
use yosys_quicklogic_plugins.Rtlil.{State, SigBit, wire_bit, const_bit, Netlist, IsNetlist}
use yosys_quicklogic_plugins.Rtlil.Bits.{bit_eq}
use yosys_quicklogic_plugins.Rtlil.Pools.{member, add_member, find_key}
use yosys_quicklogic_plugins.Inv.{
  Pin, Error, Inverters, pin_eq, not_type, port_y, bits_of, first_of, pins_of, store_row,
  unless_stored, build_inverter_map, save_if_driven, collect_bit, collect_bits,
  collect_if_invertible, collect_port, collect_ports, collect_inverters,
}
use yosys_quicklogic_plugins.Inv.Meaning.{find_key-All}
use yosys_quicklogic_plugins.Inv.OnePin.{HasOwnParams}
use yosys_quicklogic_plugins.Inv.Pins.{IsNamed}
use yosys_quicklogic_plugins.Inv.Sinks.{DistinctPins}
use yosys_quicklogic_plugins.Inv.Rows.{IsRow}

append-DistinctPins :
    (p : Pin) (pins : List Pin)
    → DistinctPins pins
    → member pin_eq p pins ≡ false
    → DistinctPins (pins ++ p ∷ [])
unfolding member
append-DistinctPins p [] h e = (tt, tt)
append-DistinctPins p (q ∷ pins) (h, hs) e = (
  All-append (λ x. pin_eq q x ≡ false) pins (p ∷ []) h (ground arith, tt),
  append-DistinctPins p pins hs (ground arith),
)

add_member-DistinctPins :
    (p : Pin) (pins : List Pin) → DistinctPins pins → DistinctPins (add_member pin_eq p pins)
unfolding add_member
add_member-DistinctPins p pins h = elim (Bool-cases (member pin_eq p pins)) [
  | inl e ↦ rw e h
  | inr e ↦ rw e (append-DistinctPins p pins h e)
]

All-store_row :
    (P : Text × List Pin → Type 0) (inv : Text) (pins : List Pin) (rows : List (Text × List Pin))
    → P (inv, pins)
    → All P rows
    → All P (store_row inv pins rows)
unfolding store_row
All-store_row P inv pins rows h hs = elim (Bool-cases (contains inv rows)) [
  | inl e ↦ rw e (All-insert P inv pins rows h hs)
  | inr e ↦ rw e (h, hs)
]

contains-apart :
    (inv : Text) (rows : List (Text × List Pin))
    → contains inv rows ≡ false
    → All (λ row. text_eq inv row.0 ≡ false) rows
unfolding contains
contains-apart inv [] e = tt
contains-apart inv ((j, pins) ∷ rows) e =
    (ground (arith, text_eq_iff inv j, text_eq_iff j inv), contains-apart inv rows (ground arith))

store_row-DistinctKeys :
    (inv : Text) (pins : List Pin) (rows : List (Text × List Pin))
    → DistinctKeys rows
    → DistinctKeys (store_row inv pins rows)
unfolding store_row
store_row-DistinctKeys inv pins rows h = elim (Bool-cases (contains inv rows)) [
  | inl e ↦ rw e (insert-DistinctKeys inv pins rows h)
  | inr e ↦ rw e (contains-apart inv rows e, h)
]

module _ {M : Type 0} (n : Netlist M (List State)) (laws : IsNetlist n)
    (invertible_pin : Text → Text → Option Text) (v : SigBit → Bool)
    (own : HasOwnParams n laws invertible_pin v) (sigmap : SigBit → SigBit) (m : M) where
  -- The nets of the map are inverters' outputs.
  abbrev pub IsInverterNet : SigBit × Text → Type 0
  IsInverterNet (b, c) = n.cell_type c m ≡ not_type

  -- The rows are distinct inverters with distinct pins, the saved parameters those of their ports.
  pub record IsCollected (s : Inverters) : Type 0 where
    pub nets : All IsInverterNet s.inv_map
    pub keys : DistinctKeys s.inverters
    pub rows : All (IsRow n laws invertible_pin v own sigmap m) s.inverters
    pub named : All (IsNamed n laws invertible_pin v m) s.inv_params

  Holds-unless_stored :
      {A V : Type 0} (P : A → Type 0) (o : Option V) (r : Result Error A)
      → Holds P r
      → Holds P (unless_stored o r)
  Holds-unless_stored P none r h = h
  Holds-unless_stored P (some old) r h = tt

  pub build_inverter_map-IsInverterNet :
      (cells : List Text) (inv_map : List (SigBit × Text))
      → All IsInverterNet inv_map
      → Holds (All IsInverterNet) (build_inverter_map n sigmap invertible_pin cells m inv_map)
  unfolding build_inverter_map
  build_inverter_map-IsInverterNet [] inv_map h = h
  build_inverter_map-IsInverterNet (c ∷ cs) inv_map h =
      let Goal = All IsInverterNet in
      Holds-test Goal (text_eq (n.cell_type c m) not_type) _ _
        (λ e.
          Holds-bind (λ xs. Unit) Goal (bits_of (n.get_port c port_y m)) _ (Holds-any _)
            (λ xs u.
              Holds-bind (λ y. Unit) Goal (first_of xs) _ (Holds-any _)
                (λ y w. Holds-unless_stored Goal (find_key bit_eq (sigmap y) inv_map) _ (
                  build_inverter_map-IsInverterNet cs ((sigmap y, c) ∷ inv_map)
                    ((text_eq_iff _ _).0 e, h)))))
        (λ e. build_inverter_map-IsInverterNet cs inv_map h)

  abbrev RowPins : Option (List Pin) → Type 0
  RowPins o = DistinctPins (pins_of o)

  lookup-RowPins :
      (inv : Text) (rows : List (Text × List Pin))
      → All (IsRow n laws invertible_pin v own sigmap m) rows
      → RowPins (lookup inv rows)
  unfolding lookup
  lookup-RowPins inv [] h = tt
  lookup-RowPins inv ((d, pins) ∷ rows) ((e, h), hs) = elim (Bool-cases (text_eq d inv)) [
    | inl g ↦ rw g h
    | inr g ↦ rw g (lookup-RowPins inv rows hs)
  ]

  save_if_driven-IsCollected :
      (o : Option Text) (pin : Pin) (name : Text) (s : Inverters)
      → ((inv : Text) → o ≡ some inv → n.cell_type inv m ≡ not_type)
      → IsNamed n laws invertible_pin v m (pin, name)
      → IsCollected s
      → Holds IsCollected (save_if_driven n sigmap invertible_pin o pin name s)
  save_if_driven-IsCollected none pin name s e e_name h = h
  save_if_driven-IsCollected (some inv) pin name s e e_name h =
      let pins = add_member pin_eq pin (pins_of (lookup inv s.inverters)) in
      Holds-unless_stored IsCollected (find_key pin_eq pin s.inv_params) _ (record {
        nets = h.nets;
        keys = store_row-DistinctKeys inv pins s.inverters h.keys;
        rows =
            All-store_row (IsRow n laws invertible_pin v own sigmap m) inv pins s.inverters
              (e inv refl, add_member-DistinctPins pin _ (lookup-RowPins inv s.inverters h.rows))
              h.rows;
        named = (e_name, h.named);
      })

  collect_bit-IsCollected :
      (pin : Pin) (name : Text) (b : SigBit) (s : Inverters)
      → IsNamed n laws invertible_pin v m (pin, name)
      → IsCollected s
      → Holds IsCollected (collect_bit n sigmap invertible_pin pin name b s)
  collect_bit-IsCollected pin name (const_bit b) s e h = h
  collect_bit-IsCollected pin name (wire_bit w i) s e h =
      save_if_driven-IsCollected (find_key bit_eq (sigmap (wire_bit w i)) s.inv_map) pin name s
        (λ inv f. (find_key-All bit_eq IsInverterNet _ s.inv_map h.nets f).2) e h

  collect_bits-IsCollected :
      (cell port name : Text) (i : ℕ) (bits : List SigBit) (s : Inverters)
      → invertible_pin (n.cell_type cell m) port ≡ some name
      → IsCollected s
      → Holds IsCollected (collect_bits n sigmap invertible_pin cell port name i bits s)
  unfolding collect_bits
  collect_bits-IsCollected cell port name i [] s e h = h
  collect_bits-IsCollected cell port name i (b ∷ bits) s e h =
      Holds-bind IsCollected IsCollected _ _
        (collect_bit-IsCollected (record { cell = some cell; port = port; bit = i }) name b s
          (λ c ec.
            ap (λ d. invertible_pin (n.cell_type d m) port) (sym (some-injective _ _ ec)) ∙ e)
          h)
        (λ s' h'. collect_bits-IsCollected cell port name (suc i) bits s' e h')

  collect_if_invertible-IsCollected :
      (o : Option Text) (cell port : Text) (bits : List SigBit) (s : Inverters)
      → invertible_pin (n.cell_type cell m) port ≡ o
      → IsCollected s
      → Holds IsCollected (collect_if_invertible n sigmap invertible_pin o cell port bits s)
  collect_if_invertible-IsCollected none cell port bits s e h = h
  collect_if_invertible-IsCollected (some name) cell port bits s e h =
      collect_bits-IsCollected cell port name 0 bits s e h

  collect_ports-IsCollected :
      (cell : Text) (conns : List (Text × List SigBit)) (s : Inverters)
      → IsCollected s
      → Holds IsCollected (collect_ports n sigmap invertible_pin cell conns m s)
  unfolding collect_ports
  collect_ports-IsCollected cell [] s h = h
  collect_ports-IsCollected cell ((port, bits) ∷ conns) s h =
      Holds-bind IsCollected IsCollected (collect_port n sigmap invertible_pin cell port bits m s) _
        (Holds-if IsCollected (n.input cell port m) _ _
          (collect_if_invertible-IsCollected (invertible_pin (n.cell_type cell m) port) cell port
            bits s refl h)
          h)
        (λ s' h'. collect_ports-IsCollected cell conns s' h')

  pub collect_inverters-IsCollected :
      (cells : List Text) (s : Inverters)
      → IsCollected s
      → Holds IsCollected (collect_inverters n sigmap invertible_pin cells m s)
  unfolding collect_inverters
  collect_inverters-IsCollected [] s h = h
  collect_inverters-IsCollected (c ∷ cs) s h =
      Holds-bind IsCollected IsCollected _ _ (collect_ports-IsCollected c (n.connections c m) s h)
        (λ s' h'. collect_inverters-IsCollected cs s' h')
