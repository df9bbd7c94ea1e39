-- ===== src/Eqn/Scan.antt =====
-- What an equation means: a reader of sums of products over the inputs `I0`, `I1`, ..., which
-- refuses every other text, and what it makes of the texts that `init2eqn` puts together.
use mathlib.Core.Path.{subst}
use mathlib.Core.List.{foldl, foldl-append}
use yosys_quicklogic_plugins.Base.{
  ℕ, zero, suc, ◌<◌, ◌≤◌, ◌+◌, ◌-◌, ◌^◌, ◌≡◌, refl, sym, ap, ◌∙◌, ◌⊎◌, inl, inr, Bool, true, false,
  not, ◌&&◌, ◌||◌, Option, none, some, [], ◌∷◌, ◌++◌, append_assoc, Text, codes, arith, ◌==◌, leb,
  if◌then◌else◌, Bool-cases,
}
use yosys_quicklogic_plugins.Eqn.{
  has_bit, literal, literals, term, is_one, terms, drop_last, finish, init2eqn,
}

-- Where the reader is in a sum of products, with the value of the sum so far, of the product that is
-- open, and whether the next input is negated. A text that is no equation is malformed.
pub data Reader : Type 0 where
  at_start : Reader
  before_term : Bool → Reader
  before_literal : Bool → Bool → Reader
  before_name : Bool → Bool → Reader
  before_digit : Bool → Bool → Bool → Reader
  after_literal : Bool → Bool → Reader
  after_term : Bool → Reader
  after_constant : Bool → Reader
  malformed : Reader

abbrev flip : Bool → Bool → Bool
flip true b = not b
flip false b = b

-- The value, at the end of the text.
abbrev result : Reader → Option Bool
result (after_term s) = some s
result (after_constant b) = some b
result _ = none

module _ (env : ℕ → Bool) where
  -- The grammar: `0` or `1`, or one or more `(` literals with `*` between `)`, with `+` between; a
  -- literal is `I0` to `I4`, with `~` before it or not.
  unfoldable pub read : Reader → ℕ → Reader
  read at_start c =
      if c == b'('
      then before_literal false true
      else if c == b'0'
      then after_constant false
      else if c == b'1'
      then after_constant true
      else malformed
  read (before_term s) c = if c == b'(' then before_literal s true else malformed
  read (before_literal s p) c =
      if c == b'~' then before_name s p else if c == b'I' then before_digit s p false else malformed
  read (before_name s p) c = if c == b'I' then before_digit s p true else malformed
  read (before_digit s p n) c =
      if leb b'0' c && leb c b'4' then after_literal s (p && flip n (env (c - b'0'))) else malformed
  read (after_literal s p) c =
      if c == b'*' then before_literal s p else if c == b')' then after_term (s || p) else malformed
  read (after_term s) c = if c == b'+' then before_term s else malformed
  read (after_constant b) c = malformed
  read malformed c = malformed

  unfoldable pub value : Text → Option Bool
  unfolding read
  value eqn = result (foldl read at_start eqn)

  -- The inputs from `j` on have the values that the bits of `i` say.
  abbrev pub agrees : ℕ → ℕ → ℕ → Bool
  agrees i zero j = true
  agrees i (suc rounds) j = flip (not (has_bit i j)) (env j) && agrees i rounds (j + 1)

  read_digit :
      (s p n : Bool) (j : ℕ)
      → j < 5
      → read (before_digit s p n) (b'0' + j) ≡ after_literal s (p && flip n (env j))
  unfolding read
  read_digit s p n j h = let e : b'0' + j - b'0' ≡ j = omega arith in ground (arith, e)

  read-literal :
      (i j : ℕ) (s p : Bool)
      → j < 5
      → foldl read (before_literal s p) (literal i j)
        ≡ after_literal s (p && flip (not (has_bit i j)) (env j))
  unfolding read
  read-literal i j s p h = elim (Bool-cases (has_bit i j)) [
    | inl on ↦ rw on (read_digit s p false j h)
    | inr off ↦ rw off (read_digit s p true j h)
  ]

  and_assoc : (a b c : Bool) → ((a && b) && c) ≡ (a && (b && c))
  and_assoc a b c = ground arith

  read_star : (s p : Bool) → foldl read (after_literal s p) (codes "*") ≡ before_literal s p
  unfolding read
  read_star s p = refl

  -- The literals of the inputs from `j` to the last.
  read-literals :
      (inputs i rounds j : ℕ) (s p : Bool)
      → inputs ≤ 5
      → j + suc rounds ≡ inputs
      → foldl read (before_literal s p) (literals inputs i (suc rounds) j)
        ≡ after_literal s (p && agrees i (suc rounds) j)
  unfolding literals
  read-literals inputs i zero j s p h e =
      let last : (j == inputs - 1) ≡ true = ground arith in
      rw (last, foldl-append, read-literal i j s p (omega arith)) (ground arith)
  read-literals inputs i (suc rounds) j s p h e =
      let more : (j == inputs - 1) ≡ false = ground arith in
      rw (more, foldl-append, read-literal i j s p (omega arith), foldl-append, read_star s _)
        (read-literals inputs i rounds (j + 1) s _ h (omega arith)
          ∙ ap (after_literal s)
              (and_assoc p (flip (not (has_bit i j)) (env j)) (agrees i (suc rounds) (j + 1))))

  read_close : (s p : Bool) → foldl read (after_literal s p) (codes ")") ≡ after_term (s || p)
  unfolding read
  read_close s p = refl

  -- A product without the `+` behind it.
  abbrev product_text : ℕ → ℕ → Text
  product_text inputs i = b'(' ∷ (literals inputs i inputs 0 ++ codes ")")

  read-product :
      (inputs i : ℕ) (s p : Bool)
      → inputs ≤ 5
      → 0 < inputs
      → foldl read (before_literal s true) (literals inputs i inputs 0 ++ codes ")")
        ≡ after_term (s || agrees i inputs 0)
  read-product zero i s p h pos = absurd (omega arith)
  read-product (suc inputs) i s p h pos =
      rw (foldl-append, read-literals (suc inputs) i inputs 0 s true h (omega arith))
        (read_close s (agrees i (suc inputs) 0))

  -- Some `i` from the counter on has a '1' in INIT and agrees with the inputs.
  abbrev pub covers : Text → ℕ → ℕ → ℕ → Bool
  covers init_bits inputs zero i = false
  covers init_bits inputs (suc rounds) i =
      (is_one init_bits (2 ^ inputs - 1 - i) && agrees i inputs 0)
      || covers init_bits inputs rounds (i + 1)

  -- What has been written so far: nothing, or a sum and a `+`.
  abbrev Reads : Text → Bool → Type 0
  Reads eqn s =
      ((eqn ≡ []) × (s ≡ false))
      ⊎ ((e : Text) × (eqn ≡ e ++ codes "+") × (foldl read at_start e ≡ after_term s))

  or_assoc : (a b c : Bool) → ((a || b) || c) ≡ (a || (b || c))
  or_assoc a b c = ground arith

  read_first :
      (t : Text) → foldl read at_start (b'(' ∷ t) ≡ foldl read (before_literal false true) t
  unfolding read
  read_first t = refl

  read_next :
      (s : Bool) (t : Text)
      → foldl read (after_term s) (b'+' ∷ b'(' ∷ t) ≡ foldl read (before_literal s true) t
  unfolding read
  read_next s t = refl

  -- One more product.
  Reads-append :
      (inputs i : ℕ) (eqn : Text) (s : Bool)
      → inputs ≤ 5
      → 0 < inputs
      → Reads eqn s
      → Reads (eqn ++ term inputs i) (s || agrees i inputs 0)
  Reads-append inputs i eqn s h pos (inl (empty, none_yet)) = inr (
    product_text inputs i,
    rw empty (ap (λ t. b'(' ∷ t) (sym (append_assoc (literals inputs i inputs 0) _ _))),
    rw none_yet (
        read_first (literals inputs i inputs 0 ++ codes ")")
        ∙ read-product inputs i false true h pos),
  )
  Reads-append inputs i eqn s h pos (inr (e, at, read_all)) = inr (
    e ++ b'+' ∷ product_text inputs i,
    rw at (simp append_assoc),
    rw (foldl-append, read_all)
        (read_next s (literals inputs i inputs 0 ++ codes ")")
          ∙ read-product inputs i s true h pos),
  )

  Reads-terms :
      (init_bits : Text) (inputs rounds i : ℕ) (eqn : Text) (s : Bool)
      → inputs ≤ 5
      → 0 < inputs
      → Reads eqn s
      → Reads (terms init_bits inputs rounds i eqn) (s || covers init_bits inputs rounds i)
  unfolding terms
  Reads-terms init_bits inputs zero i eqn s h pos r = subst (Reads eqn) (ground arith) r
  Reads-terms init_bits inputs (suc rounds) i eqn s h pos r =
      elim (Bool-cases (is_one init_bits (2 ^ inputs - 1 - i))) [
        | inl one ↦ rw one (
            subst (Reads (terms init_bits inputs rounds (i + 1) (eqn ++ term inputs i)))
              (or_assoc s (agrees i inputs 0) (covers init_bits inputs rounds (i + 1)))
              (Reads-terms init_bits inputs rounds (i + 1) (eqn ++ term inputs i) _ h pos
                (Reads-append inputs i eqn s h pos r)))
        | inr other ↦ rw other (Reads-terms init_bits inputs rounds (i + 1) eqn s h pos r)
      ]

  drop_last-snoc : (e : Text) (c : ℕ) → drop_last (e ++ c ∷ []) ≡ e
  unfolding drop_last
  drop_last-snoc [] c = refl
  drop_last-snoc (d ∷ []) c = refl
  drop_last-snoc (d ∷ d' ∷ e) c = ap (λ t. d ∷ t) (drop_last-snoc (d' ∷ e) c)

  finish-snoc : (e : Text) (c : ℕ) → finish (e ++ c ∷ []) ≡ e
  finish-snoc [] c = drop_last-snoc [] c
  finish-snoc (d ∷ e) c = drop_last-snoc (d ∷ e) c

  value-finish : (eqn : Text) (s : Bool) → Reads eqn s → value (finish eqn) ≡ some s
  unfolding value read
  value-finish eqn s (inl (empty, none_yet)) = rw (empty, none_yet) refl
  value-finish eqn s (inr (e, at, h)) = rw (at, finish-snoc e b'+', h) refl

  -- The value of the equation is the sum over the rows of the table that hold a '1'.
  pub value-init2eqn :
      (init_bits : Text) (inputs : ℕ)
      → inputs ≤ 5
      → 0 < inputs
      → value (init2eqn init_bits inputs) ≡ some (covers init_bits inputs (2 ^ inputs) 0)
  unfolding init2eqn
  value-init2eqn init_bits inputs h pos =
      value-finish (terms init_bits inputs (2 ^ inputs) 0 []) _
        (Reads-terms init_bits inputs (2 ^ inputs) 0 [] false h pos (inl (refl, refl)))
