-- ===== src/Eqn/Correct.antt =====
-- The equation has the value of the table at the row that the inputs spell.
use native.Mathlib.Nat.{div-div-eq-div-mul, pow-suc}
use native.Mathlib.Numerals.{add-one}
use yosys_quicklogic_plugins.Base.{
  ℕ, zero, suc, ◌<◌, ◌≤◌, ◌+◌, ◌-◌, ◌*◌, ◌/◌, ◌^◌, ◌≡◌, sym, ap, ◌∙◌, inl, inr, Bool, true, false,
  ◌&&◌, ◌||◌, some, Text, arith, ◌==◌, leb, if◌then◌else◌, Bool-cases,
}
use yosys_quicklogic_plugins.Eqn.{is_one, init2eqn}
use yosys_quicklogic_plugins.Eqn.Scan.{value, agrees, covers, value-init2eqn}

module _ (env : ℕ → Bool) where
  -- The number that the inputs from `j` on spell, the lowest first.
  abbrev pub row : ℕ → ℕ → ℕ
  row zero j = 0
  row (suc rounds) j = (if env j then 1 else 0) + 2 * row rounds (j + 1)

  row-lt : (rounds j : ℕ) → row rounds j < 2 ^ rounds
  row-lt zero j = omega arith
  row-lt (suc rounds) j =
      let ih = row-lt rounds (j + 1) in let e = pow-suc 2 rounds in ground (arith, ih, e)

  -- The bits of `i` from `j` on agree with the inputs exactly when they spell the same number.
  agrees-row :
      (i rounds j : ℕ)
      → i / 2 ^ j < 2 ^ rounds
      → agrees env i rounds j ≡ (i / 2 ^ j == row rounds j)
  agrees-row i zero j h = ground arith
  agrees-row i (suc rounds) j h =
      let halved : i / 2 ^ (j + 1) ≡ i / 2 ^ j / 2 =
        rw (add-one, pow-suc) (sym (div-div-eq-div-mul i (2 ^ j) 2)) in
      let small : i / 2 ^ j / 2 < 2 ^ rounds = omega (arith, pow-suc 2 rounds) in
      ground (arith, halved, agrees-row i rounds (j + 1) (rw halved small))

  row_of : (inputs i : ℕ) → i < 2 ^ inputs → agrees env i inputs 0 ≡ (i == row inputs 0)
  row_of inputs i h =
      let whole : i / 2 ^ 0 ≡ i = omega arith in
      agrees-row i inputs 0 (rw whole h) ∙ ap (λ k. k == row inputs 0) whole

  at_row :
      (a b : Bool) (i k : ℕ)
      → i ≡ k
      → a ≡ b
      → ((a && true) || (leb (i + 1) k && b)) ≡ (leb i k && b)
  at_row a b i k h e = ground arith

  off_row :
      (a b : Bool) (i k : ℕ)
      → (i == k) ≡ false
      → ((a && false) || (leb (i + 1) k && b)) ≡ (leb i k && b)
  off_row a b i k h = ground arith

  -- Among the rows from `i` on, only the one that the inputs spell counts.
  covers-row :
      (init_bits : Text) (inputs rounds i : ℕ)
      → i + rounds ≡ 2 ^ inputs
      → covers env init_bits inputs rounds i
        ≡ (leb i (row inputs 0) && is_one init_bits (2 ^ inputs - 1 - row inputs 0))
  covers-row init_bits inputs zero i h = ground (arith, row-lt inputs 0)
  covers-row init_bits inputs (suc rounds) i h = elim (Bool-cases (i == row inputs 0)) [
    | inl here ↦
        let at : i ≡ row inputs 0 = ground arith in
        rw
          (
            row_of inputs i (omega arith),
            here,
            covers-row init_bits inputs rounds (i + 1) (omega arith),
          )
          (at_row (is_one init_bits (2 ^ inputs - 1 - i)) _ i (row inputs 0) at
            (ap (λ k. is_one init_bits (2 ^ inputs - 1 - k)) at))
    | inr past ↦
        rw
          (
            row_of inputs i (omega arith),
            past,
            covers-row init_bits inputs rounds (i + 1) (omega arith),
          )
          (off_row (is_one init_bits (2 ^ inputs - 1 - i)) _ i (row inputs 0) past)
  ]

-- For a table of one to five inputs, the equation is a well-formed sum of products over `I0`, `I1`,
-- ..., or the constant `0`, and has the value of INIT's bit at the row that the values of the inputs
-- spell (`I0` the lowest): it is true exactly where the bit is a '1'.
pub value-init2eqn-row :
    (env : ℕ → Bool) (init_bits : Text) (inputs : ℕ)
    → 0 < inputs
    → inputs ≤ 5
    → value env (init2eqn init_bits inputs)
      ≡ some (is_one init_bits (2 ^ inputs - 1 - row env inputs 0))
value-init2eqn-row env init_bits inputs pos h =
    value-init2eqn env init_bits inputs h pos
    ∙ ap some (covers-row env init_bits inputs (2 ^ inputs) 0 (omega arith) ∙ ground arith)
