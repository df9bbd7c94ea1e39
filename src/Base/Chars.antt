-- ===== src/Base/Chars.antt =====
-- The character classes of the program's regular expressions (ECMAScript, "C" locale), and
-- matching a fixed prefix.
use mathlib.Core.Path.{◌≡◌, refl, sym, subst}
use mathlib.Core.List.{[], ◌∷◌, ◌++◌}
use mathlib.Core.Option.{Option, none, some, some-injective}
use mathlib.Core.Bool.{Bool, true, false, not, ◌&&◌, ◌||◌}
use native.Mathlib.Omega.{arith}
use Prim.Native.Nat.{ℕ}
use yosys_quicklogic_plugins.Base.Tests.{◌==◌, leb, if◌then◌else◌}
use mathlib.Core.Logic.{◌≢◌, ◌↔◌, inl, inr}
use yosys_quicklogic_plugins.Base.Texts.{Text, Stops, Passes, is_empty, span, span-append, span_lem}
use yosys_quicklogic_plugins.Base.Tests.{Bool-cases}

-- `\s`
abbrev pub is_space : ℕ → Bool
is_space c = c == b' ' || (leb 9 c && leb c 13)

-- `\w`
abbrev pub is_word : ℕ → Bool
is_word c =
    (leb b'a' c && leb c b'z')
    || (leb b'A' c && leb c b'Z')
    || (leb b'0' c && leb c b'9')
    || c == b'_'

-- `[^#\s]`
abbrev pub is_name : ℕ → Bool
is_name c = not (c == b'#') && not (is_space c)

-- `.`, which takes no line terminator
abbrev pub is_dot : ℕ → Bool
is_dot c = not (c == b'\n') && not (c == b'\r')

-- What follows the prefix, if the text begins with it.
unfoldable pub strip_prefix : Text → Text → Option Text
strip_prefix [] s = some s
strip_prefix (c ∷ p) [] = none
strip_prefix (c ∷ p) (d ∷ s) = if c == d then strip_prefix p s else none

pub strip_prefix-append : (p s : Text) → strip_prefix p (p ++ s) ≡ some s
unfolding strip_prefix
strip_prefix-append [] s = refl
strip_prefix-append (c ∷ p) s = ground (arith, strip_prefix-append p s)

pub strip_prefix_lem : (p s : Text) {r : Text} → strip_prefix p s ≡ some r → s ≡ p ++ r
unfolding strip_prefix
strip_prefix_lem [] s h = ground arith
strip_prefix_lem (c ∷ p) [] h = ground arith
strip_prefix_lem (c ∷ p) (d ∷ s) {r} h = ground (arith, strip_prefix_lem p s {r = r})

-- A run of a class ends where a run of a class that is apart from it begins.
pub Stops-append :
    (p q : ℕ → Bool) (run rest : Text)
    → ((c : ℕ) → q c ≡ true → p c ≡ false)
    → Passes q run
    → Stops p rest
    → Stops p (run ++ rest)
Stops-append p q [] rest apart h stop = stop
Stops-append p q (c ∷ run) rest apart (h, hs) stop = apart c h

-- `X+` for a class of characters X: the run, if it is not empty, and the rest.
unfoldable pub some_of : (ℕ → Bool) → Text → Option (Text × Text)
some_of p s = let (run, rest) = span p s in if is_empty run then none else some (run, rest)

unfoldable pub all_pass : (ℕ → Bool) → Text → Bool
all_pass p [] = true
all_pass p (c ∷ s) = p c && all_pass p s

-- A run that is not empty, and then something else.
pub some_of-append :
    (p : ℕ → Bool) (run rest : Text)
    → run ≢ []
    → Passes p run
    → Stops p rest
    → some_of p (run ++ rest) ≡ some (run, rest)
unfolding some_of
some_of-append p [] rest ne h stop = absurd (ne refl)
some_of-append p (c ∷ run) rest ne h stop = rw (span-append p (c ∷ run) rest h stop)

pub record IsRun (p : ℕ → Bool) (s run rest : Text) : Type 0 where
  pub whole : s ≡ run ++ rest
  pub filled : run ≢ []
  pub passes : Passes p run
  pub stops : Stops p rest

not_empty : (s : Text) → is_empty s ≡ false → s ≢ []
not_empty [] h = cc
not_empty (c ∷ s) h = λ e. cc

pub some_of_lem :
    (p : ℕ → Bool) (s : Text) {r : Text × Text} → some_of p s ≡ some r → IsRun p s r.0 r.1
unfolding some_of
some_of_lem p s {r} h = elim (Bool-cases (is_empty (span p s).0)) [
  | inl e ↦ cc (rw e at h)
  | inr e ↦
      let (passes, stops, whole) = span_lem p s in
      subst (λ (q : Text × Text). IsRun p s q.0 q.1) (some-injective _ _ (rw e at h))
        (record {
          whole = sym whole;
          filled = not_empty (span p s).0 e;
          passes = passes;
          stops = stops;
        })
]

pub all_pass_iff : (p : ℕ → Bool) (s : Text) → (all_pass p s ≡ true) ↔ Passes p s
unfolding all_pass
all_pass_iff p [] = (λ h. tt, λ h. refl)
all_pass_iff p (c ∷ s) =
    let (to, from) = all_pass_iff p s in
    (λ h. (ground arith, to (ground arith)), λ (h, hs). ground (arith, from hs))
