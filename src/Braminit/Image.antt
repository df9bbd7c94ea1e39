-- ===== src/Braminit/Image.antt =====
-- ql-qlf-plugin/pp3_braminit.cc: the text of the INIT parameter.
use native.Mathlib.Nat.{pow-suc}
use yosys_quicklogic_plugins.Base.{
  ℕ, zero, suc, ◌+◌, ◌-◌, ◌*◌, ◌/◌, ◌%◌, ◌^◌, ◌≤◌, ◌<◌, ◌≡◌, refl, sym, ap, ◌∙◌, List, [], ◌∷◌,
  ◌++◌, Text, length, All, arith,
}
use yosys_quicklogic_plugins.Base.Results.{Result, ok, err, Returns, Returns-map, Returns-bind}
use yosys_quicklogic_plugins.Braminit.{Error, word_at, bits_text, init_text}

-- A number of so many binary digits, the highest first, and the rest of the text.
abbrev pub read_bits : ℕ → ℕ → Text → ℕ × Text
read_bits zero x s = (x, s)
read_bits (suc w) x [] = (x, [])
read_bits (suc w) x (c ∷ s) = read_bits w (2 * x + (c - b'0')) s

-- The words of a text that has the last of them first.
abbrev pub read_words : ℕ → ℕ → Text → List ℕ
read_words width zero s = []
read_words width (suc n) s =
    let (x, rest) = read_bits width 0 s in read_words width n rest ++ x ∷ []

abbrev pub first : ℕ → List ℕ → List ℕ
first zero xs = []
first (suc n) [] = []
first (suc n) (x ∷ xs) = x ∷ first n xs

read_bits-bits_text :
    (w k x : ℕ) (rest : Text)
    → x < 2 ^ w
    → read_bits (k + w) 0 (bits_text w x rest) ≡ read_bits k x rest
unfolding bits_text
read_bits-bits_text zero k x rest h =
    ap (λ j. read_bits j 0 rest) (omega arith) ∙ ap (λ y. read_bits k y rest) (omega (arith, h))
read_bits-bits_text (suc w) k x rest h =
    ap (λ j. read_bits j 0 (bits_text w (x / 2) ((b'0' + x % 2) ∷ rest))) (omega arith)
    ∙ read_bits-bits_text w (suc k) (x / 2) ((b'0' + x % 2) ∷ rest) (omega (arith, h, pow-suc 2 w))
    ∙ ap (λ y. read_bits k y rest) (omega arith)

read_whole : (w x : ℕ) (rest : Text) → x < 2 ^ w → read_bits w 0 (bits_text w x rest) ≡ (x, rest)
read_whole w x rest h =
    ap (λ j. read_bits j 0 (bits_text w x rest)) (omega arith) ∙ read_bits-bits_text w 0 x rest h

word_at-first :
    (i : ℕ) (mem : List ℕ)
    → i < length mem
    → Returns (λ x. first (suc i) mem ≡ first i mem ++ x ∷ []) (word_at i mem)
word_at-first i [] h = omega (arith, h)
word_at-first zero (x ∷ mem) h = refl
word_at-first (suc i) (x ∷ mem) h =
    Returns-map (λ y. first (suc i) mem ≡ first i mem ++ y ∷ []) _ (word_at i mem)
      (λ y e. ap (λ ys. x ∷ ys) e) (word_at-first i mem (omega (arith, h)))

Returns-both :
    {A : Type 0} (P Q : A → Type 0) (r : Result Error A)
    → Returns P r
    → Returns Q r
    → Returns (λ a. P a × Q a) r
Returns-both P Q (ok a) h k = (h, k)
Returns-both P Q (err e) h k = absurd h

word_at-All :
    (P : ℕ → Type 0) (i : ℕ) (mem : List ℕ) → i < length mem → All P mem → Returns P (word_at i mem)
word_at-All P i [] h hs = omega (arith, h)
word_at-All P zero (x ∷ mem) h (hx, hs) = hx
word_at-All P (suc i) (x ∷ mem) h (hx, hs) = word_at-All P i mem (omega (arith, h)) hs

-- For a number of words that the memory has, all words below 2 to the width, the text of INIT is
-- produced, and cutting it into numbers of that many binary digits, the last word first, gives the
-- first words of the memory.
pub init_text-read_words :
    (width n : ℕ) (mem : List ℕ)
    → n ≤ length mem
    → All (λ x. x < 2 ^ width) mem
    → Returns (λ text. read_words width n text ≡ first n mem) (init_text width n mem)
unfolding init_text
init_text-read_words width zero mem h hs = refl
init_text-read_words width (suc i) mem h hs =
    let Goal : Text → Type 0 = λ text. read_words width (suc i) text ≡ first (suc i) mem in
    Returns-bind (λ x. (x < 2 ^ width) × (first (suc i) mem ≡ first i mem ++ x ∷ [])) Goal
      (word_at i mem) _
      (Returns-both _ _ _ (word_at-All (λ x. x < 2 ^ width) i mem (omega (arith, h)) hs)
        (word_at-first i mem (omega (arith, h))))
      (λ x (hx, e).
        Returns-bind (λ rest. read_words width i rest ≡ first i mem) Goal (init_text width i mem) _
          (init_text-read_words width i mem (omega (arith, h)) hs)
          (λ rest e_rest.
            ap (λ r. read_words width i r.1 ++ r.0 ∷ []) (read_whole width x rest hx)
            ∙ ap (λ xs. xs ++ x ∷ []) e_rest
            ∙ sym e))
