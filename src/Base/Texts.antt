-- ===== src/Base/Texts.antt =====
-- `std::string` as a list of bytes: comparison, and the runs of a class of characters that the
-- program's regular expressions are made of.
use Prim.Native.Nat.{ℕ}
use Prim.Native.Char.{code}
use Prim.Native.String.{String}
use mathlib.Core.Path.{◌≡◌, refl, ap, sym, ◌∙◌, subst}
use mathlib.Core.Logic.{◌↔◌, ◌≢◌, inl, inr}
use mathlib.Core.List.{List, [], ◌∷◌, ◌++◌}
use mathlib.Core.Bool.{Bool, true, false, ◌&&◌, false≢true}
use native.Mathlib.Omega.{arith}
use yosys_quicklogic_plugins.Base.Tests.{◌==◌, if◌then◌else◌, Bool-cases}
use yosys_quicklogic_plugins.Base.Lists.{All}

abbrev pub Text : Type 0
Text = List ℕ

-- The bytes of a literal. `String` has its own `[]` and `∷`.
abbrev pub codes : String → Text
codes String.[] = []
codes (String.◌∷◌ c s) = code c ∷ codes s

unfoldable pub text_eq : Text → Text → Bool
text_eq [] [] = true
text_eq [] (d ∷ t) = false
text_eq (c ∷ s) [] = false
text_eq (c ∷ s) (d ∷ t) = c == d && text_eq s t

pub text_eq_refl : (s : Text) → text_eq s s ≡ true
unfolding text_eq
text_eq_refl [] = refl
text_eq_refl (c ∷ s) = ground (arith, text_eq_refl s)

pub text_eq→eq : (s t : Text) → text_eq s t ≡ true → s ≡ t
unfolding text_eq
text_eq→eq [] [] h = refl
text_eq→eq [] (d ∷ t) h = ground arith
text_eq→eq (c ∷ s) [] h = ground arith
text_eq→eq (c ∷ s) (d ∷ t) h = ground (arith, text_eq→eq s t)

pub text_eq_iff : (s t : Text) → (text_eq s t ≡ true) ↔ (s ≡ t)
text_eq_iff s t = (text_eq→eq s t, λ e. subst (λ u. text_eq s u ≡ true) e (text_eq_refl s))

-- `std::string::empty`
abbrev pub is_empty : Text → Bool
is_empty [] = true
is_empty (c ∷ s) = false

-- The longest prefix whose characters pass `p`, and what is left of the text.
unfoldable pub span : (ℕ → Bool) → Text → Text × Text
span p [] = ([], [])
span p (c ∷ s) = let (run, rest) = span p s in if p c then (c ∷ run, rest) else ([], c ∷ s)

-- The first character of a text, if there is one, fails `p`.
abbrev pub Stops : (ℕ → Bool) → Text → Type 0
Stops p [] = Unit
Stops p (c ∷ s) = p c ≡ false

abbrev pub Passes : (ℕ → Bool) → Text → Type 0
Passes p = All (λ c. p c ≡ true)

pub span-append :
    (p : ℕ → Bool) (run rest : Text)
    → Passes p run
    → Stops p rest
    → span p (run ++ rest) ≡ (run, rest)
unfolding span
span-append p [] [] hr hs = refl
span-append p [] (c ∷ rest) hr hs = ground arith
span-append p (c ∷ run) rest (h, hr) hs = ground (arith, span-append p run rest hr hs)

-- The run passes, the rest stops, and together they are the text.
pub span_lem :
    (p : ℕ → Bool) (s : Text)
    → Passes p (span p s).0 × Stops p (span p s).1 × ((span p s).0 ++ (span p s).1 ≡ s)
unfolding span
span_lem p [] = (tt, tt, refl)
span_lem p (c ∷ s) = elim (Bool-cases (p c)) [
  | inl h ↦
      let (passes, stops, whole) = span_lem p s in rw h ((h, passes), stops, ap (λ t. c ∷ t) whole)
  | inr h ↦ rw h (tt, h, refl)
]

pub text_ne : (s t : Text) → text_eq s t ≡ false → s ≢ t
text_ne s t h = λ e. false≢true (sym h ∙ (text_eq_iff s t).1 e)
