-- ===== src/Sdc/Listing.antt =====
-- sdc-plugin/clocks.cc, `Clocks::GetClocks`: which wires are listed, and under which names.
use mathlib.Core.Path.{subst}
use mathlib.Core.Option.{some-injective}
use yosys_quicklogic_plugins.Base.{
  ℕ, zero, suc, ◌≡◌, refl, sym, ◌∙◌, inl, inr, true, Option, none, some, List, [], ◌∷◌, Text,
  text_eq, text_eq_iff, text_eq_refl, Bool-cases, All, get_elem?, arith, if◌then◌else◌,
}
use yosys_quicklogic_plugins.Base.Maps.{lookup, contains}
use yosys_quicklogic_plugins.Sdc.Clocks.{
  Wires, Floats, is_clock, wire_name, text_lt, insert_in_order, collect_clocks, get_clocks,
}

module _ {W F : Type 0} (wires : Wires W) (floats : Floats F) where
  abbrev pub IsListed : Text × W → Type 0
  IsListed (k, w) = (is_clock wires floats w ≡ true) × (wire_name wires floats w ≡ k)

  insert_in_order-All :
      (k : Text) (w : W) (m : List (Text × W))
      → IsListed (k, w)
      → All IsListed m
      → All IsListed (insert_in_order wires floats k w m)
  unfolding insert_in_order
  insert_in_order-All k w [] h hm = (h, tt)
  insert_in_order-All k w ((j, v) ∷ m) h (hv, hm) = elim (Bool-cases (text_eq j k)) [
    | inl e ↦ rw e (hv, hm)
    | inr e ↦ elim (Bool-cases (text_lt wires floats k j)) [
      | inl l ↦ rw (e, l) (h, (hv, hm))
      | inr l ↦ rw (e, l) (hv, insert_in_order-All k w m h hm)
    ]
  ]

  contains-insert_in_order :
      (k j : Text) (w : W) (m : List (Text × W))
      → contains j (insert_in_order wires floats k w m)
        ≡ (if text_eq k j then true else contains j m)
  unfolding insert_in_order contains
  contains-insert_in_order k j w [] = refl
  contains-insert_in_order k j w ((i, v) ∷ m) =
      ground
        (arith, text_eq_iff k j, text_eq_iff i k, text_eq_iff i j, contains-insert_in_order k j w m)

  collect_clocks-All :
      (ws : List W) (m : List (Text × W))
      → All IsListed m
      → All IsListed (collect_clocks wires floats ws m)
  unfolding collect_clocks
  collect_clocks-All [] m h = h
  collect_clocks-All (w ∷ ws) m h = elim (Bool-cases (is_clock wires floats w)) [
    | inl e ↦
        rw e
          (collect_clocks-All ws _ (insert_in_order-All (wire_name wires floats w) w m (e, refl) h))
    | inr e ↦ rw e (collect_clocks-All ws m h)
  ]

  -- A name that is listed stays.
  collect_clocks-keeps :
      (ws : List W) (m : List (Text × W)) (k : Text)
      → contains k m ≡ true
      → contains k (collect_clocks wires floats ws m) ≡ true
  unfolding collect_clocks
  collect_clocks-keeps [] m k h = h
  collect_clocks-keeps (w ∷ ws) m k h = elim (Bool-cases (is_clock wires floats w)) [
    | inl e ↦ rw e (
        collect_clocks-keeps ws _ k
          (contains-insert_in_order (wire_name wires floats w) k w m ∙ ground arith))
    | inr e ↦ rw e (collect_clocks-keeps ws m k h)
  ]

  collect_clocks-first :
      (v : W) (ws : List W) (m : List (Text × W))
      → is_clock wires floats v ≡ true
      → contains (wire_name wires floats v) (collect_clocks wires floats (v ∷ ws) m) ≡ true
  unfolding collect_clocks
  collect_clocks-first v ws m h = rw h (
      collect_clocks-keeps ws _ (wire_name wires floats v) (
        contains-insert_in_order (wire_name wires floats v) (wire_name wires floats v) v m
        ∙ rw (text_eq_refl (wire_name wires floats v)) refl))

  collect_clocks-lists :
      (ws : List W) (m : List (Text × W)) (i : ℕ) {w : W}
      → get_elem? ws i ≡ some w
      → is_clock wires floats w ≡ true
      → contains (wire_name wires floats w) (collect_clocks wires floats ws m) ≡ true
  unfolding collect_clocks
  collect_clocks-lists [] m i e h = absurd (cc e)
  collect_clocks-lists (v ∷ ws) m zero {w} e h =
      subst
        (λ u. contains (wire_name wires floats u) (collect_clocks wires floats (v ∷ ws) m) ≡ true)
        (some-injective _ _ e)
        (collect_clocks-first v ws m
          (subst (λ u. is_clock wires floats u ≡ true) (sym (some-injective _ _ e)) h))
  collect_clocks-lists (v ∷ ws) m (suc i) {w} e h = collect_clocks-lists ws _ i e h

  -- What stands under a name, if something does.
  abbrev pub Found : Text → Option W → Type 0
  Found k none = Unit
  Found k (some w) = IsListed (k, w)

  lookup-Found : (k : Text) (m : List (Text × W)) → All IsListed m → Found k (lookup k m)
  unfolding lookup
  lookup-Found k [] h = tt
  lookup-Found k ((j, v) ∷ m) ((hc, hn), hm) = elim (Bool-cases (text_eq j k)) [
    | inl e ↦ rw e (hc, hn ∙ (text_eq_iff j k).0 e)
    | inr e ↦ rw e (lookup-Found k m hm)
  ]

  -- Every wire that is marked as a clock has its name among those of `GetClocks`, and what is listed
  -- under a name is a wire of that name that is marked as a clock.
  pub get_clocks-IsListed :
      (ws : List W) (i : ℕ) (w : W)
      → get_elem? ws i ≡ some w
      → is_clock wires floats w ≡ true
      → (contains (wire_name wires floats w) (get_clocks wires floats ws) ≡ true)
        × ((k : Text) → Found k (lookup k (get_clocks wires floats ws)))
  get_clocks-IsListed ws i w e h =
      (collect_clocks-lists ws [] i e h, λ k. lookup-Found k _ (collect_clocks-All ws [] tt))
