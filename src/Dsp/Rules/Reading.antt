-- ===== src/Dsp/Rules/Reading.antt =====
-- dsp-ff-plugin/dsp_ff.cc, `load_rules`: the loop over the lines of the file, and the assertion that
-- a line has fields.
use mathlib.Core.Path.{fun_ext}
use yosys_quicklogic_plugins.Base.{
  ℕ, zero, suc, ◌<◌, ◌≡◌, ◌≢◌, refl, sym, ap, ◌∙◌, inl, inr, false, some, List, [], ◌∷◌, Text,
  Bool-cases, length, arith, ◌==◌, ==_iff,
}
use yosys_quicklogic_plugins.Base.Chars.{all_pass}
use yosys_quicklogic_plugins.Base.Streams.{
  prepend, Stream, open_stream, closed_stream, getline-cases, split, split-ne-nil, fields_of-split,
}
use yosys_quicklogic_plugins.Base.Results.{Result, ok, err, ◌>>=◌}
use yosys_quicklogic_plugins.Dsp.Rules.{IdString, Consts}
use yosys_quicklogic_plugins.Dsp.Rules.Tokens.{get_fields, nonempty, is_blank_line, next_line}
use yosys_quicklogic_plugins.Dsp.Rules.Fields.{Error}
use yosys_quicklogic_plugins.Dsp.Rules.Loader.{Loader}
use yosys_quicklogic_plugins.Dsp.Rules.Lines.{load_next, load_line, load_lines}

-- The pieces between line breaks, but for an empty one at the end.
abbrev pub lines_of_pieces : List Text → List Text
lines_of_pieces [] = []
lines_of_pieces ([] ∷ []) = []
lines_of_pieces ((c ∷ p) ∷ []) = (c ∷ p) ∷ []
lines_of_pieces (p ∷ q ∷ ps) = p ∷ lines_of_pieces (q ∷ ps)

lines_of_pieces-cons :
    (t : Text) (ps : List Text) → ps ≢ [] → lines_of_pieces (t ∷ ps) ≡ t ∷ lines_of_pieces ps
lines_of_pieces-cons t [] ne = absurd (ne refl)
lines_of_pieces-cons [] (p ∷ ps) ne = refl
lines_of_pieces-cons (c ∷ t) (p ∷ ps) ne = refl

no_pieces : lines_of_pieces (split b'\n' []) ≡ []
unfolding split
no_pieces = refl

prepend-ne_one : (c : ℕ) (ps : List Text) → prepend c ps ≢ [] ∷ []
prepend-ne_one c [] = λ e. cc
prepend-ne_one c (p ∷ ps) = λ e. cc

not_one_empty : (c : ℕ) (s : Text) → split b'\n' (c ∷ s) ≢ [] ∷ []
unfolding split
not_one_empty c s = elim (Bool-cases (c == b'\n')) [
  | inl e ↦ rw e (λ h. split-ne-nil b'\n' s (cc h))
  | inr e ↦ rw e (prepend-ne_one c (split b'\n' s))
]

-- A text that is not empty is not cut into one empty piece.
one_piece : (c : ℕ) (s t : Text) → split b'\n' (c ∷ s) ≡ t ∷ [] → lines_of_pieces (t ∷ []) ≡ t ∷ []
one_piece c s [] h = absurd (not_one_empty c s h)
one_piece c s (d ∷ t) h = refl

module _ {C : Type 0} (escape_id : Text → IdString) (K : Consts C) where
  -- The lines in order, until one is refused.
  unfoldable pub load_each : List Text → Loader C → Result Error (Loader C)
  unfolding load_line
  load_each [] s = ok s
  load_each (l ∷ ls) s = do s' ← load_line escape_id K l s; load_each ls s'

  next_line-load_lines :
      (fuel : ℕ) (file : Stream) (s : Loader C) {line : Text} {rest : Stream}
      → next_line file ≡ some (line, rest)
      → load_lines escape_id K (suc fuel) file s
        ≡ (load_line escape_id K line s >>= (λ s'. load_lines escape_id K fuel rest s'))
  unfolding load_lines
  next_line-load_lines fuel file s h =
      ap (λ o. load_next escape_id K (load_lines escape_id K fuel) o s) h

  load_lines_closed :
      (fuel : ℕ) (rest : Text) (s : Loader C)
      → load_lines escape_id K fuel (closed_stream rest) s ≡ ok s
  unfolding load_lines next_line
  load_lines_closed zero rest s = refl
  load_lines_closed (suc fuel) rest s = refl

  load_lines_empty :
      (fuel : ℕ) (s : Loader C) → load_lines escape_id K fuel (open_stream []) s ≡ ok s
  unfolding load_lines next_line
  load_lines_empty zero s = refl
  load_lines_empty (suc fuel) s = refl

  bind-any : (m : Result Error (Loader C)) → (m >>= (λ s. ok s)) ≡ m
  bind-any (ok s) = refl
  bind-any (err e) = refl

  -- With fuel for every character and the end, the loop over the file gives its lines, in order, to
  -- the handlers until one is refused; behind the last line break nothing is a line if it is empty.
  pub load_lines-load_each :
      (fuel : ℕ) (content : Text) (s : Loader C)
      → length content < fuel
      → load_lines escape_id K fuel (open_stream content) s
        ≡ load_each (lines_of_pieces (split b'\n' content)) s
  unfolding load_each next_line
  load_lines-load_each zero content s h = elim h [ ]
  load_lines-load_each (suc fuel) [] s h = rw no_pieces (load_lines_empty (suc fuel) s)
  load_lines-load_each (suc fuel) (c ∷ content) s h = elim (getline-cases b'\n' (c ∷ content)) [
    | inl (t, r, read, cut, less) ↦
        next_line-load_lines fuel (open_stream (c ∷ content)) s (ap some read)
        ∙ ap (λ k. load_line escape_id K t s >>= k)
            (fun_ext (λ s'. load_lines-load_each fuel r s' (omega arith)))
        ∙ ap (λ ls. load_each ls s)
            (sym (ap lines_of_pieces cut ∙ lines_of_pieces-cons t _ (split-ne-nil b'\n' r)))
    | inr (t, r, read, cut) ↦
        next_line-load_lines fuel (open_stream (c ∷ content)) s (ap some read)
        ∙ ap (λ k. load_line escape_id K t s >>= k) (fun_ext (λ s'. load_lines_closed fuel r s'))
        ∙ ap (λ ls. load_each ls s) (sym (ap lines_of_pieces cut ∙ one_piece c content t cut))
  ]

nonempty-prepend : (c : ℕ) (ps : List Text) → nonempty (prepend c ps) ≢ []
nonempty-prepend c [] = λ e. cc
nonempty-prepend c (p ∷ ps) = λ e. cc

is_blank_line-blank :
    (c : ℕ) (s : Text) → c ≡ b' ' → is_blank_line (c ∷ s) ≡ false → is_blank_line s ≡ false
unfolding all_pass
is_blank_line-blank c s e h = ground arith

empty-is_blank_line : is_blank_line [] ≢ false
unfolding all_pass
empty-is_blank_line = λ e. cc

nonempty-split : (s : Text) → is_blank_line s ≡ false → nonempty (split b' ' s) ≢ []
unfolding split
nonempty-split [] h = absurd (empty-is_blank_line h)
nonempty-split (c ∷ s) h = elim (Bool-cases (c == b' ')) [
  | inl e ↦ rw e (nonempty-split s (is_blank_line-blank c s ((==_iff c b' ').0 e) h))
  | inr e ↦ rw e (nonempty-prepend c (split b' ' s))
]

-- A line that is not blank has a field, so that the assertion of `load_rules` on the number of fields
-- always holds.
get_fields-ne_nil : (line : Text) → is_blank_line line ≡ false → get_fields line ≢ []
unfolding get_fields
get_fields-ne_nil line h = rw (fields_of-split b' ' line) (nonempty-split line h)
