-- ===== src/Tests/Tcl.antt =====
-- An interpreter that cuts a file into lines and words at every line break and blank. It reads lines
-- of plain words as Tcl does.
use mathlib.Core.Path.{subst}
use yosys_quicklogic_plugins.Base.{
  ℕ, ◌≡◌, ◌≢◌, refl, sym, ap, ◌∙◌, true, false, List, [], ◌∷◌, ◌++◌, append-nil, append_assoc, Text,
  All, All-append, arith, map,
}
use yosys_quicklogic_plugins.Base.Streams.{split, split-append, split_whole, Lacks}
use yosys_quicklogic_plugins.Sdc.Script.{
  is_plain, IsPlain, IsWord, IsLine, IsTcl, spaced, lines_text,
}

abbrev drop_empty : {A : Type 0} → List (List A) → List (List A)
drop_empty [] = []
drop_empty ([] ∷ xs) = drop_empty xs
drop_empty ((x ∷ ys) ∷ xs) = (x ∷ ys) ∷ drop_empty xs

unfoldable pub words : Text → List Text
unfolding split
words s = drop_empty (split b' ' s)

unfoldable pub split_tcl : Text → List (List Text)
unfolding split words
split_tcl content = drop_empty (map words (split b'\n' content))

words-append : (w s : Text) → w ≢ [] → Lacks b' ' w → words (w ++ b' ' ∷ s) ≡ w ∷ words s
unfolding words
words-append [] s ne h = absurd (ne refl)
words-append (c ∷ w) s ne h = ap drop_empty (split-append b' ' (c ∷ w) s h)

words_whole : (w : Text) → w ≢ [] → Lacks b' ' w → words w ≡ w ∷ []
unfolding words
words_whole [] ne h = absurd (ne refl)
words_whole (c ∷ w) ne h = ap drop_empty (split_whole b' ' (c ∷ w) h)

-- A plain character is neither a blank nor a line break.
plain-Lacks : (d : ℕ) (s : Text) → is_plain d ≡ false → IsPlain s → Lacks d s
plain-Lacks d [] e h = tt
plain-Lacks d (c ∷ s) e (hc, h) = ((λ same. apart same), plain-Lacks d s e h)
  where
    apart : c ≡ d → ⊥
    apart same = let f = subst (λ x. is_plain x ≡ true) same hc in cc

words-spaced : (w : Text) (ws : List Text) → All IsWord (w ∷ ws) → words (w ++ spaced ws) ≡ w ∷ ws
words-spaced w [] ((ne, h), hs) = rw (append-nil w) (words_whole w ne (plain-Lacks b' ' w refl h))
words-spaced w (v ∷ vs) ((ne, h), hs) =
    words-append w (v ++ spaced vs) ne (plain-Lacks b' ' w refl h)
    ∙ ap (λ t. w ∷ t) (words-spaced v vs hs)

spaced-Lacks : (ws : List Text) → All IsWord ws → Lacks b'\n' (spaced ws)
spaced-Lacks [] h = tt
spaced-Lacks (w ∷ ws) ((ne, h), hs) = (
  (λ e. omega (arith, e)),
  All-append (λ c. c ≢ b'\n') w (spaced ws) (plain-Lacks b'\n' w refl h) (spaced-Lacks ws hs),
)

split_tcl-line :
    (w : Text) (ws : List Text) (rest : Text)
    → All IsWord (w ∷ ws)
    → split_tcl (w ++ (spaced ws ++ b'\n' ∷ rest)) ≡ (w ∷ ws) ∷ split_tcl rest
unfolding split_tcl
split_tcl-line w ws rest ((ne, h), hs) =
    ap split_tcl (sym (append_assoc w (spaced ws) (b'\n' ∷ rest)))
    ∙ ap (λ ls. drop_empty (map words ls))
        (split-append b'\n' (w ++ spaced ws) rest (
          All-append (λ c. c ≢ b'\n') w (spaced ws) (plain-Lacks b'\n' w refl h)
            (spaced-Lacks ws hs)))
    ∙ ap (λ line. drop_empty (line ∷ map words (split b'\n' rest)))
        (words-spaced w ws ((ne, h), hs))

split_tcl-lines : (ls : List (List Text)) → All IsLine ls → split_tcl (lines_text ls) ≡ ls
split_tcl-lines [] h = unfold split_tcl split words in refl
split_tcl-lines ([] ∷ ls) ((ne, h), hs) = absurd (ne refl)
split_tcl-lines ((w ∷ ws) ∷ ls) ((ne, h), hs) =
    split_tcl-line w ws (lines_text ls) h ∙ ap (λ rest. (w ∷ ws) ∷ rest) (split_tcl-lines ls hs)

pub split_tcl-IsTcl : IsTcl split_tcl
split_tcl-IsTcl = record { reads_lines = split_tcl-lines }
