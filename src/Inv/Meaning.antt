-- ===== src/Inv/Meaning.antt =====
-- integrateinv-plugin/integrateinv.cc: the value that a cell sees at a pin, for given values of the
-- nets: the value of the net, inverted if the pin's bit of the controlling parameter is 1.
use mathlib.Core.Path.{subst}
use yosys_quicklogic_plugins.Base.{
  ℕ, ◌≡◌, refl, sym, ap, ◌∙◌, inl, inr, Bool, true, false, not, Option, none, some, List, [], ◌∷◌,
  Text, text_eq_iff, get_elem?, length, Bool-cases, All, arith, ◌==◌, ==_iff,
}
use yosys_quicklogic_plugins.Base.Results.{Result, ok, err}
use yosys_quicklogic_plugins.Rtlil.{State, s0, s1, sx, sz, sa, sm, SigBit}
use yosys_quicklogic_plugins.Rtlil.Bits.{
  set_at, get_elem?-set_at_same, get_elem?-set_at_other, length-set_at,
}
use yosys_quicklogic_plugins.Rtlil.Pools.{find_key}
use yosys_quicklogic_plugins.Inv.{Error, Pin, cell_eq, pin_eq, mask_or_zeros, toggle}

-- A value behind a bit of a mask that is 0 or 1.
abbrev pub seen : Option Bool → Option State → Option Bool
seen (some b) (some s0) = some b
seen (some b) (some s1) = some (not b)
seen _ _ = none

abbrev pub value_of : (SigBit → Bool) → Option SigBit → Option Bool
value_of v none = none
value_of v (some b) = some (v b)

abbrev pub value_at :
    (SigBit → Bool)
    → (Text → Option (List State))
    → Option (List SigBit)
    → ℕ
    → Option Text
    → Option Bool
value_at v own none i parameter = none
value_at v own (some bits) i none = value_of v (get_elem? bits i)
value_at v own (some bits) i (some name) =
    seen (value_of v (get_elem? bits i)) (get_elem? (mask_or_zeros (own name) (length bits)) i)

pub value_at-own :
    (v : SigBit → Bool) (own own' : Text → Option (List State)) (bits : Option (List SigBit))
    (i : ℕ) (parameter : Option Text)
    → ((name : Text) → parameter ≡ some name → own' name ≡ own name)
    → value_at v own' bits i parameter ≡ value_at v own bits i parameter
value_at-own v own own' none i parameter h = refl
value_at-own v own own' (some bits) i none h = refl
value_at-own v own own' (some bits) i (some name) h =
    ap (λ o. seen (value_of v (get_elem? bits i)) (get_elem? (mask_or_zeros o (length bits)) i))
      (h name refl)

abbrev state_or_s0 : Result Error State → State
state_or_s0 (ok t) = t
state_or_s0 (err e) = s0

-- A net of the opposite value behind a toggled bit of the mask.
seen-toggle :
    (b : Bool) (o : Option State) (t : State)
    → toggle o ≡ ok t
    → seen (some b) (some t) ≡ seen (some (not b)) o
seen-toggle b none t h = absurd (cc h)
seen-toggle b (some s0) t h =
    subst (λ u. seen (some b) (some u) ≡ some (not b)) (ap state_or_s0 h) refl
seen-toggle true (some s1) t h =
    subst (λ u. seen (some true) (some u) ≡ some true) (ap state_or_s0 h) refl
seen-toggle false (some s1) t h =
    subst (λ u. seen (some false) (some u) ≡ some false) (ap state_or_s0 h) refl
seen-toggle b (some sx) t h = absurd (cc h)
seen-toggle b (some sz) t h = absurd (cc h)
seen-toggle b (some sa) t h = absurd (cc h)
seen-toggle b (some sm) t h = absurd (cc h)

toggle-some : (o : Option State) {t : State} → toggle o ≡ ok t → (x : State) × (o ≡ some x)
toggle-some none h = absurd (cc h)
toggle-some (some x) h = (x, refl)

-- A pin that is connected to a net of the opposite value, with its bit of the mask toggled, sees
-- the same value, and the other pins of its port see what they saw.
pub value_at-toggle :
    (v : SigBit → Bool) (own own' : Text → Option (List State)) (bits : List SigBit) (i j : ℕ)
    (name : Text) (a b : SigBit) (t : State)
    → get_elem? bits i ≡ some b
    → v b ≡ not (v a)
    → toggle (get_elem? (mask_or_zeros (own name) (length bits)) i) ≡ ok t
    → own' name ≡ some (set_at (mask_or_zeros (own name) (length bits)) i t)
    → value_at v own' (some (set_at bits i a)) j (some name)
      ≡ value_at v own (some bits) j (some name)
value_at-toggle v own own' bits i j name a b t hb hv ht ho =
    let mask = mask_or_zeros (own name) (length bits) in
    elim (Bool-cases (i == j)) [
      | inl e ↦
          subst
            (λ k.
              value_at v own' (some (set_at bits i a)) k (some name)
              ≡ value_at v own (some bits) k (some name))
            ((==_iff i j).0 e)
            (ap
                (λ o.
                  seen (value_of v (get_elem? (set_at bits i a) i))
                    (get_elem? (mask_or_zeros o (length (set_at bits i a))) i))
                ho
              ∙ ap (λ o. seen (value_of v o) (get_elem? (set_at mask i t) i))
                  (get_elem?-set_at_same bits i a hb)
              ∙ ap (λ o. seen (some (v a)) o) (get_elem?-set_at_same mask i t (toggle-some _ ht).1)
              ∙ seen-toggle (v a) (get_elem? mask i) t ht
              ∙ ap (λ c. seen (some c) (get_elem? mask i)) (sym hv)
              ∙ ap (λ o. seen (value_of v o) (get_elem? mask i)) (sym hb))
      | inr e ↦
          ap
            (λ o.
              seen (value_of v (get_elem? (set_at bits i a) j))
                (get_elem? (mask_or_zeros o (length (set_at bits i a))) j))
            ho
          ∙ ap (λ o. seen (value_of v o) (get_elem? (set_at mask i t) j))
              (get_elem?-set_at_other bits i j a e)
          ∙ ap (λ o. seen (value_of v (get_elem? bits j)) o) (get_elem?-set_at_other mask i j t e)
    ]

-- The width of a port, and that of the mask of its parameter.
abbrev pub widths_at :
    (Text → Option (List State)) → Option (List SigBit) → Option Text → Option (ℕ × ℕ)
widths_at own none parameter = none
widths_at own (some bits) none = some (length bits, length bits)
widths_at own (some bits) (some name) =
    some (length bits, length (mask_or_zeros (own name) (length bits)))

widths_at-own :
    (own own' : Text → Option (List State)) (bits : Option (List SigBit)) (parameter : Option Text)
    → ((name : Text) → parameter ≡ some name → own' name ≡ own name)
    → widths_at own' bits parameter ≡ widths_at own bits parameter
widths_at-own own own' none parameter h = refl
widths_at-own own own' (some bits) none h = refl
widths_at-own own own' (some bits) (some name) h =
    ap (λ o. some (length bits, length (mask_or_zeros o (length bits)))) (h name refl)

-- The value at a pin, and the widths of its port.
abbrev pub view_at :
    (SigBit → Bool)
    → (Text → Option (List State))
    → Option (List SigBit)
    → ℕ
    → Option Text
    → Option Bool × Option (ℕ × ℕ)
view_at v own bits i parameter = (value_at v own bits i parameter, widths_at own bits parameter)

pub view_at-own :
    (v : SigBit → Bool) (own own' : Text → Option (List State)) (bits : Option (List SigBit))
    (i : ℕ) (parameter : Option Text)
    → ((name : Text) → parameter ≡ some name → own' name ≡ own name)
    → view_at v own' bits i parameter ≡ view_at v own bits i parameter
view_at-own v own own' bits i parameter h =
    ap (λ x. (x, widths_at own' bits parameter)) (value_at-own v own own' bits i parameter h)
    ∙ ap (λ w. (value_at v own bits i parameter, w)) (widths_at-own own own' bits parameter h)

pub view_at-toggle :
    (v : SigBit → Bool) (own own' : Text → Option (List State)) (bits : List SigBit) (i j : ℕ)
    (name : Text) (a b : SigBit) (t : State)
    → get_elem? bits i ≡ some b
    → v b ≡ not (v a)
    → toggle (get_elem? (mask_or_zeros (own name) (length bits)) i) ≡ ok t
    → own' name ≡ some (set_at (mask_or_zeros (own name) (length bits)) i t)
    → view_at v own' (some (set_at bits i a)) j (some name)
      ≡ view_at v own (some bits) j (some name)
view_at-toggle v own own' bits i j name a b t hb hv ht ho =
    let mask = mask_or_zeros (own name) (length bits) in
    ap (λ x. (x, widths_at own' (some (set_at bits i a)) (some name)))
      (value_at-toggle v own own' bits i j name a b t hb hv ht ho)
    ∙ ap
        (λ o. (
          value_at v own (some bits) j (some name),
          some (length (set_at bits i a), length (mask_or_zeros o (length (set_at bits i a)))),
        ))
        ho
    ∙ ap (λ w. (value_at v own (some bits) j (some name), some (w, length (set_at mask i t))))
        (length-set_at bits i a)
    ∙ ap (λ w. (value_at v own (some bits) j (some name), some (length bits, w)))
        (length-set_at mask i t)

abbrev FoundEntry : {K V : Type 0} → (K → K → Bool) → (K × V → Type 0) → K → Option V → Type 0
FoundEntry same P k none = Unit
FoundEntry {K} same P k (some w) = (j : K) × (same j k ≡ true) × P (j, w)

find_key-FoundEntry :
    {K V : Type 0} (same : K → K → Bool) (P : K × V → Type 0) (k : K) (m : List (K × V))
    → All P m
    → FoundEntry same P k (find_key same k m)
unfolding find_key
find_key-FoundEntry same P k [] h = tt
find_key-FoundEntry same P k ((j, u) ∷ m) (h, hm) = elim (Bool-cases (same j k)) [
  | inl e ↦ rw e (j, e, h)
  | inr e ↦ rw e (find_key-FoundEntry same P k m hm)
]

-- `find_key` finds an entry of the key.
pub find_key-All :
    {K V : Type 0} (same : K → K → Bool) (P : K × V → Type 0) (k : K) (m : List (K × V)) {w : V}
    → All P m
    → find_key same k m ≡ some w
    → (j : K) × (same j k ≡ true) × P (j, w)
find_key-All same P k m h e = subst (FoundEntry same P k) e (find_key-FoundEntry same P k m h)

cell_eq→eq : (c d : Option Text) → cell_eq c d ≡ true → c ≡ d
cell_eq→eq none none h = refl
cell_eq→eq none (some d) h = absurd (cc h)
cell_eq→eq (some c) none h = absurd (cc h)
cell_eq→eq (some c) (some d) h = ap some ((text_eq_iff c d).0 h)

pub pin_eq→eq : (p q : Pin) → pin_eq p q ≡ true → p ≡ q
unfolding pin_eq
pin_eq→eq p q h = ground (arith, cell_eq→eq p.cell q.cell, text_eq_iff p.port q.port)
