-- ===== src/Dsp/Removal.antt =====
-- dsp-ff-plugin/dsp_ff.cc, `processRegister`: the flip-flops that are marked for removal.
use mathlib.Core.Path.{subst}
use yosys_quicklogic_plugins.Base.{
  ℕ, ◌≡◌, refl, ◌⊎◌, inl, inr, Bool, true, false, not, Option, none, some, List, [], ◌∷◌, ◌++◌,
  Text, text_eq, Bool-cases, arith, is_empty, length, ltb, if◌then◌else◌,
}
use yosys_quicklogic_plugins.Base.Maps.{lookup}
use yosys_quicklogic_plugins.Base.Results.{
  Result, ok, err, Holds, Holds-any, Holds-if, Holds-test, Holds-bind, Holds-map,
}
use yosys_quicklogic_plugins.Rtlil.{SigBit, wire_bit, const_bit}
use yosys_quicklogic_plugins.Rtlil.Bits.{bit_eq}
use yosys_quicklogic_plugins.Rtlil.Pools.{member, add_member, find_key}
use yosys_quicklogic_plugins.Dsp.Rules.{Dict, PortType}
use yosys_quicklogic_plugins.Dsp.Connections.{Setting, CellPin, ConnMap}
use yosys_quicklogic_plugins.Dsp.Flops.{
  Failure, missing_key, FlopData, or_failure, is_some, and_also, flop_data_eq, check_required,
  check_flop, flop_type_of, get_flop_data,
}
use yosys_quicklogic_plugins.Dsp.Inspect.{
  Verdict, skipped, refused, flop_at, check_pin, check_other, check_others, check_driver,
  remaining_sinks, pins_or_none, inspect_bit, is_excluded, mapped_params,
}
use yosys_quicklogic_plugins.Dsp.Alike.{
  AreAlike, flop_data_eq-AreAlike, IsFromCell, get_flop_data-IsFromCell,
}

module _ {M C : Type 0} (e : Setting M C) where
  -- A known flip-flop without the attribute `keep`.
  pub record IsRemovable (m : M) (c : Text) : Type 0 where
    pub known : is_some (lookup (e.netlist.cell_type c m) e.flop_types) ≡ true
    pub unkept : e.has_keep_attr c m ≡ false

  abbrev pub VerdictOk : M → Verdict → Type 0
  VerdictOk m (flop_at c) = IsRemovable m c
  VerdictOk m _ = Unit

  and_also-Holds :
      (b : Bool) (r : Result Failure Bool) → Holds (λ good. good ≡ true → b ≡ true) (and_also b r)
  and_also-Holds b (ok c) = λ h. ground arith
  and_also-Holds b (err f) = tt

  check_flop-Holds :
      (c : Text) (m : M)
      → Holds (λ good. good ≡ true → e.has_keep_attr c m ≡ false) (check_flop e c m)
  unfolding check_flop
  check_flop-Holds c m =
      Holds-bind (λ t. Unit) (λ good. good ≡ true → e.has_keep_attr c m ≡ false)
        (flop_type_of e c m) _ (Holds-any (flop_type_of e c m))
        (λ t u.
          Holds-map (λ good. good ≡ true → not (e.has_keep_attr c m) ≡ true) _ _
            (λ good f h. ground (arith, f h))
            (and_also-Holds (not (e.has_keep_attr c m)) (check_required e c t.required m)))

  verdict-VerdictOk :
      (c : Text) (m : M) (good : Bool)
      → is_some (lookup (e.netlist.cell_type c m) e.flop_types) ≡ true
      → (good ≡ true → e.has_keep_attr c m ≡ false)
      → VerdictOk m (if good then flop_at c else refused)
  verdict-VerdictOk c m true k h = record { known = k; unkept = h refl }
  verdict-VerdictOk c m false k h = tt

  check_pin-VerdictOk :
      (c : Text) (pin : CellPin) (is_output : Bool) (function : Text) (m : M)
      → is_some (lookup (e.netlist.cell_type c m) e.flop_types) ≡ true
      → Holds (VerdictOk m) (check_pin e c pin is_output function m)
  check_pin-VerdictOk c pin is_output function m k =
      Holds-bind (λ t. Unit) (VerdictOk m) _ _
        (Holds-any (or_failure missing_key (lookup (e.netlist.cell_type c m) e.flop_types)))
        (λ t u.
          Holds-bind (λ p. Unit) (VerdictOk m) _ _
            (Holds-any (or_failure missing_key (lookup (e.escape_id function) t.ports)))
            (λ p w.
              Holds-if (VerdictOk m) (text_eq p pin.port) _ _
                (Holds-bind (λ good. good ≡ true → e.has_keep_attr c m ≡ false) (VerdictOk m)
                  (check_flop e c m) _ (check_flop-Holds c m)
                  (λ good h. verdict-VerdictOk c m good k h))
                tt))

  skipped_or_refused-VerdictOk : (m : M) (b : Bool) → VerdictOk m (if b then skipped else refused)
  skipped_or_refused-VerdictOk m true = tt
  skipped_or_refused-VerdictOk m false = tt

  check_other-VerdictOk :
      (o : Option Text) (pin : CellPin) (is_output : Bool) (m : M)
      → Holds (VerdictOk m) (check_other e o pin is_output m)
  check_other-VerdictOk none pin is_output m = skipped_or_refused-VerdictOk m (is_empty pin.port)
  check_other-VerdictOk (some c) pin is_output m =
      Holds-test (VerdictOk m) (is_some (lookup (e.netlist.cell_type c m) e.flop_types)) _ _
        (λ k. check_pin-VerdictOk c pin is_output _ m k) (λ k. tt)

  check_others-VerdictOk :
      (pins : List CellPin) (is_output : Bool) (m : M)
      → Holds (VerdictOk m) (check_others e pins is_output m)
  check_others-VerdictOk [] is_output m = tt
  check_others-VerdictOk (pin ∷ []) is_output m = check_other-VerdictOk pin.cell pin is_output m
  check_others-VerdictOk (pin ∷ q ∷ pins) is_output m = tt

  check_driver-VerdictOk :
      (o : Option CellPin) (sinks : List CellPin) (m : M)
      → Holds (VerdictOk m) (check_driver e o sinks m)
  check_driver-VerdictOk none sinks m = tt
  check_driver-VerdictOk (some driver) sinks m =
      Holds-if (VerdictOk m) (ltb 1 (length sinks)) _ _ tt
        (check_others-VerdictOk (driver ∷ []) false m)

  pub inspect_bit-VerdictOk :
      (cell : Text) (port : PortType C) (conns : ConnMap) (removed : List Text) (i : ℕ) (b : SigBit)
      (m : M)
      → Holds (VerdictOk m) (inspect_bit e cell port conns removed i b m)
  inspect_bit-VerdictOk cell port conns removed i (const_bit s) m = tt
  inspect_bit-VerdictOk cell port conns removed i (wire_bit w j) m =
      Holds-if (VerdictOk m) (is_excluded port.bits i) _ _ tt (
        Holds-if (VerdictOk m) (e.netlist.output cell port.name m) _ _
          (check_others-VerdictOk
            (remaining_sinks (pins_or_none (find_key bit_eq (wire_bit w j) conns.sinks)) removed [])
            true m)
          (check_driver-VerdictOk (find_key bit_eq (wire_bit w j) conns.drivers) _ m))

  -- Two flip-flops' data are the same.
  abbrev pub Same : FlopData C → FlopData C → Type 0
  Same g d = (g ≡ d) ⊎ AreAlike e g d

  -- The data of a cell, with the parameters that a register's map rule takes from it, are those of a
  -- group.
  abbrev pub IsLike : M → Dict Text → FlopData C → Text → Type 0
  IsLike m ps g c =
      (d : FlopData C) × (get_flop_data e c (mapped_params e c ps m []) m ≡ ok d)
      × IsFromCell e m c d
      × Same g d

  abbrev pub IsGrouped : M → Dict Text → List (FlopData C) → Text → Type 0
  IsGrouped m ps [] c = ⊥
  IsGrouped m ps (g ∷ gs) c = IsLike m ps g c ⊎ IsGrouped m ps gs c

  module _ (m : M) (ps : Dict Text) where
    IsGrouped-append :
        (gs hs : List (FlopData C)) (c : Text) → IsGrouped m ps gs c → IsGrouped m ps (gs ++ hs) c
    IsGrouped-append [] hs c h = absurd h
    IsGrouped-append (g ∷ gs) hs c (inl h) = inl h
    IsGrouped-append (g ∷ gs) hs c (inr h) = inr (IsGrouped-append gs hs c h)

    IsGrouped-last :
        (gs : List (FlopData C)) (d : FlopData C) (c : Text)
        → IsLike m ps d c
        → IsGrouped m ps (gs ++ d ∷ []) c
    IsGrouped-last [] d c h = inl h
    IsGrouped-last (g ∷ gs) d c h = inr (IsGrouped-last gs d c h)

    -- The data of a cell.
    abbrev Reads : Text → FlopData C → Type 0
    Reads c d = (get_flop_data e c (mapped_params e c ps m []) m ≡ ok d) × IsFromCell e m c d

    from_cell :
        (d : FlopData C) (c : Text)
        → get_flop_data e c (mapped_params e c ps m []) m ≡ ok d
        → Reads c d
    from_cell d c h = (
      h,
      subst (Holds (IsFromCell e m c)) h
          (get_flop_data-IsFromCell e m c (mapped_params e c ps m [])),
    )

    IsGrouped-member :
        (gs : List (FlopData C)) (d : FlopData C) (c : Text)
        → Reads c d
        → member (flop_data_eq e) d gs ≡ true
        → IsGrouped m ps gs c
    unfolding member
    IsGrouped-member [] d c h k = absurd (cc k)
    IsGrouped-member (g ∷ gs) d c (h, is) k = elim (Bool-cases (flop_data_eq e g d)) [
      | inl s ↦ inl (d, h, is, inr (flop_data_eq-AreAlike e g d s))
      | inr s ↦ inr (IsGrouped-member gs d c (h, is) (ground arith))
    ]

    pub IsGrouped-add :
        (gs : List (FlopData C)) (d : FlopData C) (c : Text)
        → get_flop_data e c (mapped_params e c ps m []) m ≡ ok d
        → IsGrouped m ps (add_member (flop_data_eq e) d gs) c
    unfolding add_member
    IsGrouped-add gs d c h =
        let (read, is) = from_cell d c h in
        elim (Bool-cases (member (flop_data_eq e) d gs)) [
          | inl k ↦ rw k (IsGrouped-member gs d c (read, is) k)
          | inr k ↦ rw k (IsGrouped-last gs d c (d, read, is, inl refl))
        ]

    pub IsGrouped-kept :
        (gs : List (FlopData C)) (d : FlopData C) (c : Text)
        → IsGrouped m ps gs c
        → IsGrouped m ps (add_member (flop_data_eq e) d gs) c
    unfolding add_member
    IsGrouped-kept gs d c h = elim (Bool-cases (member (flop_data_eq e) d gs)) [
      | inl k ↦ rw k h
      | inr k ↦ rw k (IsGrouped-append gs (d ∷ []) c h)
    ]
