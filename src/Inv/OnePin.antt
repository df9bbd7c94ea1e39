-- ===== src/Inv/OnePin.antt =====
-- integrateinv-plugin/integrateinv.cc, `integrateInverters`: an inverter that is taken into one pin.
use mathlib.Core.Path.{subst}
use yosys_quicklogic_plugins.Base.{
  ℕ, ◌≡◌, refl, sym, ap, ◌∙◌, inl, inr, Bool, false, not, ◌&&◌, Option, none, some, List, Text,
  text_eq, text_eq_iff, text_eq_refl, get_elem?, length, Bool-cases, arith,
}
use yosys_quicklogic_plugins.Base.Results.{Result, ok, err}
use yosys_quicklogic_plugins.Rtlil.{State, SigBit, Netlist, IsNetlist}
use yosys_quicklogic_plugins.Rtlil.Bits.{set_at}
use yosys_quicklogic_plugins.Inv.{Error, mask_or_zeros, toggle, bits_of, name_of}
use yosys_quicklogic_plugins.Inv.Meaning.{view_at, view_at-own, view_at-toggle}

abbrev value_or : {A : Type 0} → A → Result Error A → A
value_or a (ok b) = b
value_or a (err e) = a

pub bits_of-some :
    (o : Option (List SigBit)) {bits : List SigBit} → bits_of o ≡ ok bits → o ≡ some bits
bits_of-some none h = absurd (cc h)
bits_of-some (some bits) h = ap (λ r. some (value_or bits r)) h

pub name_of-some : (o : Option Text) {name : Text} → name_of o ≡ ok name → o ≡ some name
name_of-some none h = absurd (cc h)
name_of-some (some name) h = ap (λ r. some (value_or name r)) h

abbrev pub bits_or : List SigBit → Option (List SigBit) → List SigBit
bits_or bits none = bits
bits_or bits (some bs) = bs

module _ {M : Type 0} (n : Netlist M (List State)) (laws : IsNetlist n)
    (invertible_pin : Text → Text → Option Text) (v : SigBit → Bool) where
  -- The value that a cell sees at a bit of a port, if there is such a bit, and the port's widths.
  abbrev pub port_view : Text → Text → ℕ → M → Option Bool × Option (ℕ × ℕ)
  port_view c p i m =
      view_at v (λ name. n.own_param c name m) (n.get_port c p m) i
        (invertible_pin (n.cell_type c m) p)

  -- No two ports of a type have the same parameter.
  abbrev pub HasOwnParams : Type 0
  HasOwnParams =
      (type p q name : Text)
      → invertible_pin type p ≡ some name
      → invertible_pin type q ≡ some name
      → p ≡ q

  -- One bit of one port is connected anew, and all pins see what they saw.
  pub record IsPinChange (cell port : Text) (bit : ℕ) (a : SigBit) (m m' : M) : Type 0 where
    pub types : (d : Text) → n.cell_type d m' ≡ n.cell_type d m
    pub views : (d q : Text) (i : ℕ) → port_view d q i m' ≡ port_view d q i m
    pub others :
        (d q : Text)
        → (text_eq cell d && text_eq port q) ≡ false
        → n.get_port d q m' ≡ n.get_port d q m
    pub changed :
        (bits : List SigBit)
        → n.get_port cell port m ≡ some bits
        → n.get_port cell port m' ≡ some (set_at bits bit a)

  module _ (own : HasOwnParams) (cell port name : Text) (bit : ℕ) (bits : List SigBit)
      (a b : SigBit) (t : State) (m : M) (e_port : n.get_port cell port m ≡ some bits)
      (e_bit : get_elem? bits bit ≡ some b) (e_value : v b ≡ not (v a))
      (e_name : invertible_pin (n.cell_type cell m) port ≡ some name)
      (e_toggle : toggle (get_elem? (mask_or_zeros (n.own_param cell name m) (length bits)) bit)
        ≡ ok t) where
    abbrev mask : List State
    mask = mask_or_zeros (n.own_param cell name m) (length bits)

    abbrev after : M
    after = n.set_param cell name (set_at mask bit t) (n.set_port cell port (set_at bits bit a) m)

    type-after : (d : Text) → n.cell_type d after ≡ n.cell_type d m
    type-after d = laws.type-set_param _ _ _ _ _ ∙ laws.type-set_port _ _ _ _ _

    port-after : n.get_port cell port after ≡ some (set_at bits bit a)
    port-after =
        laws.get_port-set_param _ _ _ _ _ _
        ∙ laws.get_port-set_port _ _ _ _ _ _
        ∙ rw (text_eq_refl cell, text_eq_refl port) refl

    other-after :
        (d q : Text)
        → (text_eq cell d && text_eq port q) ≡ false
        → n.get_port d q after ≡ n.get_port d q m
    other-after d q h =
        laws.get_port-set_param _ _ _ _ _ _ ∙ laws.get_port-set_port _ _ _ _ _ _ ∙ rw h refl

    param-after : n.own_param cell name after ≡ some (set_at mask bit t)
    param-after =
        laws.own_param-set_param _ _ _ _ _ _ ∙ rw (text_eq_refl cell, text_eq_refl name) refl

    value-after : (i : ℕ) → port_view cell port i after ≡ port_view cell port i m
    value-after i =
        ap
          (λ o.
            view_at v (λ k. n.own_param cell k after) o i
              (invertible_pin (n.cell_type cell after) port))
          port-after
        ∙ ap (λ k. view_at v (λ l. n.own_param cell l after) (some (set_at bits bit a)) i k)
            (ap (λ type. invertible_pin type port) (type-after cell) ∙ e_name)
        ∙ view_at-toggle v (λ k. n.own_param cell k m) (λ k. n.own_param cell k after) bits bit i
            name a b t e_bit e_value e_toggle param-after
        ∙ ap (λ k. view_at v (λ l. n.own_param cell l m) (some bits) i k) (sym e_name)
        ∙ ap
            (λ o.
              view_at v (λ k. n.own_param cell k m) o i (invertible_pin (n.cell_type cell m) port))
            (sym e_port)

    same-port :
        (d q : Text)
        → (text_eq cell d && text_eq port q) ≡ false
        → (k : Text) → invertible_pin (n.cell_type d m) q ≡ some k
        → cell ≡ d
        → name ≡ k
        → ⊥
    same-port d q h k e ec en =
        let e_q : port ≡ q =
          own (n.cell_type cell m) port q name e_name
            (ap (λ c. invertible_pin (n.cell_type c m) q) ec ∙ e ∙ ap some (sym en)) in
        ground (arith, text_eq_iff cell d, text_eq_iff port q)

    -- Another port of the cell has another parameter.
    param-other :
        (d q : Text)
        → (text_eq cell d && text_eq port q) ≡ false
        → (k : Text) → invertible_pin (n.cell_type d m) q ≡ some k
        → n.own_param d k after ≡ n.own_param d k m
    param-other d q h k e =
        laws.own_param-set_param _ _ _ _ _ _
        ∙ elim (Bool-cases (text_eq cell d && text_eq name k)) [
          | inl g ↦ absurd (
              same-port d q h k e (ground (arith, text_eq_iff cell d))
                (ground (arith, text_eq_iff name k)))
          | inr g ↦ rw g (laws.own_param-set_port _ _ _ _ _ _)
        ]

    values-after : (d q : Text) (i : ℕ) → port_view d q i after ≡ port_view d q i m
    values-after d q i = elim (Bool-cases (text_eq cell d && text_eq port q)) [
      | inl h ↦
          subst (λ e. port_view e q i after ≡ port_view e q i m)
            (ground (arith, text_eq_iff cell d))
            (subst (λ r. port_view cell r i after ≡ port_view cell r i m)
              (ground (arith, text_eq_iff port q)) (value-after i))
      | inr h ↦
          ap
            (λ o.
              view_at v (λ k. n.own_param d k after) o i (invertible_pin (n.cell_type d after) q))
            (other-after d q h)
          ∙ ap
              (λ type.
                view_at v (λ k. n.own_param d k after) (n.get_port d q m) i (invertible_pin type q))
              (type-after d)
          ∙ view_at-own v (λ k. n.own_param d k m) (λ k. n.own_param d k after) (n.get_port d q m) i
              _ (param-other d q h)
    ]

    pub after-IsPinChange : IsPinChange cell port bit a m after
    after-IsPinChange = record {
      types = type-after;
      views = values-after;
      others = other-after;
      changed =
          λ bs e. port-after ∙ ap (λ o. some (set_at (bits_or bits o) bit a)) (sym e_port ∙ e);
    }
