-- ===== src/Rtlil/Bits.antt =====
-- Equality of bits, and a bit of a list replaced.
use yosys_quicklogic_plugins.Base.{
  ℕ, zero, suc, ◌≡◌, refl, sym, ap, ◌∙◌, Bool, true, false, ◌&&◌, some, List, [], ◌∷◌, text_eq,
  text_eq_iff, get_elem?, length, arith, ◌==◌, if◌then◌else◌,
}
use yosys_quicklogic_plugins.Rtlil.{State, s0, s1, sx, sz, sa, sm, SigBit, wire_bit, const_bit}

abbrev pub state_code : State → ℕ
state_code s0 = 0
state_code s1 = 1
state_code sx = 2
state_code sz = 3
state_code sa = 4
state_code sm = 5

unfoldable pub bit_eq : SigBit → SigBit → Bool
bit_eq (wire_bit w i) (wire_bit x j) = text_eq w x && i == j
bit_eq (const_bit s) (const_bit t) = state_code s == state_code t
bit_eq _ _ = false

abbrev state_of : ℕ → State
state_of n =
    if n == 0
    then s0
    else if n == 1
    then s1
    else if n == 2
    then sx
    else if n == 3
    then sz
    else if n == 4
    then sa
    else sm

state_of-state_code : (s : State) → state_of (state_code s) ≡ s
state_of-state_code s0 = refl
state_of-state_code s1 = refl
state_of-state_code sx = refl
state_of-state_code sz = refl
state_of-state_code sa = refl
state_of-state_code sm = refl

state_code-injective : (s t : State) → state_code s ≡ state_code t → s ≡ t
state_code-injective s t h = sym (state_of-state_code s) ∙ ap state_of h ∙ state_of-state_code t

pub bit_eq→eq : (a b : SigBit) → bit_eq a b ≡ true → a ≡ b
unfolding bit_eq
bit_eq→eq (wire_bit w i) (wire_bit x j) h = ground (arith, text_eq_iff w x)
bit_eq→eq (const_bit s) (const_bit t) h = ap const_bit (state_code-injective s t (ground arith))
bit_eq→eq (wire_bit w i) (const_bit t) h = cc
bit_eq→eq (const_bit s) (wire_bit x j) h = cc

unfoldable pub set_at {ℓ} : {A : Type ℓ} → List A → ℕ → A → List A
set_at [] i y = []
set_at (x ∷ xs) zero y = y ∷ xs
set_at (x ∷ xs) (suc i) y = x ∷ set_at xs i y

pub length-set_at {ℓ} :
    {A : Type ℓ} (xs : List A) (i : ℕ) (y : A) → length (set_at xs i y) ≡ length xs
unfolding set_at
length-set_at [] i y = refl
length-set_at (x ∷ xs) zero y = refl
length-set_at (x ∷ xs) (suc i) y = ap suc (length-set_at xs i y)

pub get_elem?-set_at_same {ℓ} :
    {A : Type ℓ} (xs : List A) (i : ℕ) (y : A) {x : A}
    → get_elem? xs i ≡ some x
    → get_elem? (set_at xs i y) i ≡ some y
unfolding set_at
get_elem?-set_at_same [] i y h = absurd (cc h)
get_elem?-set_at_same (x ∷ xs) zero y h = refl
get_elem?-set_at_same (x ∷ xs) (suc i) y h = get_elem?-set_at_same xs i y h

pub get_elem?-set_at_other {ℓ} :
    {A : Type ℓ} (xs : List A) (i j : ℕ) (y : A)
    → (i == j) ≡ false
    → get_elem? (set_at xs i y) j ≡ get_elem? xs j
unfolding set_at
get_elem?-set_at_other [] i j y h = refl
get_elem?-set_at_other (x ∷ xs) zero zero y h = ground arith
get_elem?-set_at_other (x ∷ xs) zero (suc j) y h = refl
get_elem?-set_at_other (x ∷ xs) (suc i) zero y h = refl
get_elem?-set_at_other (x ∷ xs) (suc i) (suc j) y h = get_elem?-set_at_other xs i j y (ground arith)
