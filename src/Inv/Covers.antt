-- ===== src/Inv/Covers.antt =====
-- integrateinv-plugin/integrateinv.cc, `getSinksForDriver`: no sink of the driver is left out.
use mathlib.Core.Path.{subst}
use yosys_quicklogic_plugins.Base.{
  ℕ, suc, ◌≡◌, sym, ap, ◌∙◌, inl, inr, Bool, true, false, ◌&&◌, Option, none, some, List, [], ◌∷◌,
  ◌++◌, Text, text_eq_refl, Bool-cases, All, arith, if◌then◌else◌,
}
use yosys_quicklogic_plugins.Rtlil.{State, SigBit, wire_bit, const_bit, Netlist}
use yosys_quicklogic_plugins.Rtlil.Bits.{bit_eq}
use yosys_quicklogic_plugins.Rtlil.Pools.{member, add_member, all_members, All-member}
use yosys_quicklogic_plugins.Inv.{
  Pin, pin_eq, is_driven, is_output_bit, wire_of, sinks_in_bits, sinks_in_ports, sinks_in_cells,
  sinks_in_outputs, sinks_in_module,
}
use yosys_quicklogic_plugins.Inv.Meaning.{pin_eq→eq}

-- Which pins may be sinks.
abbrev pub IsIn : List Pin → Pin → Type 0
IsIn pins pin = member pin_eq pin pins ≡ true

pub all_members-IsIn :
    (sinks pins : List Pin) → all_members pin_eq sinks pins ≡ true → All (IsIn pins) sinks
unfolding all_members
all_members-IsIn [] pins h = tt
all_members-IsIn (p ∷ sinks) pins h = (ground arith, all_members-IsIn sinks pins (ground arith))

abbrev pub HasCell : Pin → Type 0
HasCell pin = (c : Text) × (pin.cell ≡ some c)

IsIn-HasCell : (pin : Pin) (pins : List Pin) → All HasCell pins → IsIn pins pin → HasCell pin
IsIn-HasCell pin pins cells h =
    All-member pin_eq pin pins (λ x k i. subst HasCell (pin_eq→eq x pin k) i) cells h

-- What holds of a pool and what was inserted held of both.
All-snoc :
    {A : Type 0} (P : A → Type 0) (xs : List A) (x : A) → All P (xs ++ x ∷ []) → All P xs × P x
All-snoc P [] x (h, u) = (tt, h)
All-snoc P (y ∷ xs) x (h, hs) = let (rest, last) = All-snoc P xs x hs in ((h, rest), last)

insert-IsIn :
    (pins : List Pin) (test : Bool) (p : Pin) (sinks : List Pin)
    → All (IsIn pins) (if test then add_member pin_eq p sinks else sinks)
    → All (IsIn pins) sinks × (test ≡ true → IsIn pins p)
unfolding add_member
insert-IsIn pins false p sinks h = (h, λ e. absurd (cc e))
insert-IsIn pins true p sinks h = elim (Bool-cases (member pin_eq p sinks)) [
  | inl e ↦
      let hs = rw e at h in
      (hs, λ u. All-member pin_eq p sinks (λ x k i. subst (IsIn pins) (pin_eq→eq x p k) i) hs e)
  | inr e ↦ let (hs, hp) = All-snoc (IsIn pins) sinks p (rw e at h) in (hs, λ u. hp)
]

pub bit_eq_refl : (b : SigBit) → bit_eq b b ≡ true
unfolding bit_eq
bit_eq_refl (wire_bit w i) = ground (arith, text_eq_refl w)
bit_eq_refl (const_bit s) = ground arith

module _ {M : Type 0} (n : Netlist M (List State)) (invertible_pin : Text → Text → Option Text)
    (sigmap : SigBit → SigBit) (driver : SigBit) (pins : List Pin) where
  -- A bit of a wire on the driver's net.
  abbrev pub IsOn : SigBit → Type 0
  IsOn (const_bit s) = ⊥
  IsOn (wire_bit w i) = sigmap (wire_bit w i) ≡ driver

  -- Each bit on the net is one of the pins.
  abbrev pub OnlyBits : Text → Text → ℕ → List SigBit → Type 0
  OnlyBits cell port i [] = Unit
  OnlyBits cell port i (b ∷ bits) =
      (IsOn b → IsIn pins (record { cell = some cell; port = port; bit = i }))
      × OnlyBits cell port (suc i) bits

  abbrev pub OnlyPorts : M → Text → List (Text × List SigBit) → Type 0
  OnlyPorts m cell conns =
      All (λ conn. n.input cell conn.0 m ≡ true → OnlyBits cell conn.0 0 conn.1) conns

  abbrev pub OnlyCells : M → List Text → Type 0
  OnlyCells m cells = All (λ c. OnlyPorts m c (n.connections c m)) cells

  -- A bit of an output port of the module on the net is one of the pins, which has no cell.
  abbrev pub IsOutput : M → SigBit → Type 0
  IsOutput m (const_bit s) = ⊥
  IsOutput m (wire_bit w i) = n.port_output w m ≡ true

  abbrev pub OnlyOutputs : M → ℕ → List SigBit → Type 0
  OnlyOutputs m i [] = Unit
  OnlyOutputs m i (b ∷ bits) =
      (IsOutput m b
        → sigmap b ≡ driver
        → IsIn pins
            (record { cell = none; port = wire_of n sigmap invertible_pin (sigmap b); bit = i }))
      × OnlyOutputs m (suc i) bits

  driven-IsOn : (b : SigBit) → IsOn b → is_driven n sigmap invertible_pin driver b ≡ true
  driven-IsOn (const_bit s) h = absurd h
  driven-IsOn (wire_bit w i) h =
      ap (λ x. bit_eq (sigmap (wire_bit w i)) x) (sym h) ∙ bit_eq_refl (sigmap (wire_bit w i))

  output-IsOutput :
      (m : M) (b : SigBit)
      → IsOutput m b
      → sigmap b ≡ driver
      → (is_output_bit n sigmap invertible_pin b m && bit_eq (sigmap b) driver) ≡ true
  output-IsOutput m (const_bit s) h e = absurd h
  output-IsOutput m (wire_bit w i) h e =
      ap (λ x. x && bit_eq (sigmap (wire_bit w i)) driver) h
      ∙ ap (λ x. bit_eq (sigmap (wire_bit w i)) x) (sym e)
      ∙ bit_eq_refl (sigmap (wire_bit w i))

  bits-OnlyBits :
      (cell port : Text) (i : ℕ) (bits : List SigBit) (sinks : List Pin)
      → All (IsIn pins) (sinks_in_bits n sigmap invertible_pin driver cell port i bits sinks)
      → All (IsIn pins) sinks × OnlyBits cell port i bits
  unfolding sinks_in_bits
  bits-OnlyBits cell port i [] sinks h = (h, tt)
  bits-OnlyBits cell port i (b ∷ bits) sinks h =
      let (here, rest) = bits-OnlyBits cell port (suc i) bits _ h in
      let (hs, hb) =
        insert-IsIn pins (is_driven n sigmap invertible_pin driver b)
          (record { cell = some cell; port = port; bit = i }) sinks here in
      (hs, ((λ on. hb (driven-IsOn b on)), rest))

  ports-OnlyPorts :
      (m : M) (cell : Text) (conns : List (Text × List SigBit)) (sinks : List Pin)
      → All (IsIn pins) (sinks_in_ports n sigmap invertible_pin driver cell conns m sinks)
      → All (IsIn pins) sinks × OnlyPorts m cell conns
  unfolding sinks_in_ports
  ports-OnlyPorts m cell [] sinks h = (h, tt)
  ports-OnlyPorts m cell ((port, bits) ∷ conns) sinks h =
      let (here, rest) = ports-OnlyPorts m cell conns _ h in
      elim (Bool-cases (n.input cell port m)) [
        | inl g ↦
            let (hs, only) = bits-OnlyBits cell port 0 bits sinks (rw g at here) in
            (hs, ((λ u. only), rest))
        | inr g ↦ ((rw g at here), ((λ u. absurd (cc (sym u ∙ g))), rest))
      ]

  pub cells-OnlyCells :
      (m : M) (cells : List Text) (sinks : List Pin)
      → All (IsIn pins) (sinks_in_cells n sigmap invertible_pin driver cells m sinks)
      → All (IsIn pins) sinks × OnlyCells m cells
  unfolding sinks_in_cells
  cells-OnlyCells m [] sinks h = (h, tt)
  cells-OnlyCells m (c ∷ cs) sinks h =
      let (here, rest) = cells-OnlyCells m cs _ h in
      let (hs, only) = ports-OnlyPorts m c (n.connections c m) sinks here in (hs, (only, rest))

  outputs-OnlyOutputs :
      (m : M) (i : ℕ) (bits : List SigBit) (sinks : List Pin)
      → All (IsIn pins) (sinks_in_outputs n sigmap invertible_pin driver i bits m sinks)
      → All (IsIn pins) sinks × OnlyOutputs m i bits
  unfolding sinks_in_outputs
  outputs-OnlyOutputs m i [] sinks h = (h, tt)
  outputs-OnlyOutputs m i (b ∷ bits) sinks h =
      let (here, rest) = outputs-OnlyOutputs m (suc i) bits _ h in
      let (hs, hb) =
        insert-IsIn pins (is_output_bit n sigmap invertible_pin b m && bit_eq (sigmap b) driver)
          (record { cell = none; port = wire_of n sigmap invertible_pin (sigmap b); bit = i }) sinks
          here in
      (hs, ((λ out on. hb (output-IsOutput m b out on)), rest))

  pub module-OnlyOutputs :
      (m : M) (conns : List (List SigBit × List SigBit)) (sinks : List Pin)
      → All (IsIn pins) (sinks_in_module n sigmap invertible_pin driver conns m sinks)
      → All (IsIn pins) sinks × All (λ conn. OnlyOutputs m 0 conn.0) conns
  unfolding sinks_in_module
  module-OnlyOutputs m [] sinks h = (h, tt)
  module-OnlyOutputs m ((dst, src) ∷ conns) sinks h =
      let (here, rest) = module-OnlyOutputs m conns _ h in
      let (hs, only) = outputs-OnlyOutputs m 0 dst sinks here in (hs, (only, rest))

  -- No bit of an output port of the module is on the net.
  abbrev pub NoOutputs : M → List SigBit → Type 0
  NoOutputs m [] = Unit
  NoOutputs m (b ∷ bits) = (IsOutput m b → sigmap b ≡ driver → ⊥) × NoOutputs m bits

  pub OnlyOutputs-NoOutputs :
      (m : M) (i : ℕ) (bits : List SigBit)
      → All HasCell pins
      → OnlyOutputs m i bits
      → NoOutputs m bits
  OnlyOutputs-NoOutputs m i [] cells h = tt
  OnlyOutputs-NoOutputs m i (b ∷ bits) cells (h, hs) = (
    (λ out on. let (c, e) = IsIn-HasCell _ pins cells (h out on) in absurd (cc e)),
    OnlyOutputs-NoOutputs m (suc i) bits cells hs,
  )
