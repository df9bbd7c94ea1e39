-- ===== src/Iob/Pcf/Grammar.antt =====
-- The lines that `match_line` accepts, and what it takes from them, against the grammar of the
-- regular expression read as a set of texts.
use mathlib.Core.Path.{subst}
use mathlib.Core.Option.{some-injective}
use yosys_quicklogic_plugins.Base.{
  ℕ, ◌≡◌, ◌≢◌, refl, sym, ap, ◌∙◌, ◌↔◌, ◌⊎◌, inl, inr, Bool, true, false, none, some, [], ◌∷◌, ◌++◌,
  append_assoc, append-nil, All, All-append, Option-cases, Text, arith, Passes, Stops, span,
  span-append, span_lem,
}
use yosys_quicklogic_plugins.Base.Chars.{
  is_space, is_name, is_dot, strip_prefix, strip_prefix-append, strip_prefix_lem, some_of,
  some_of-append, some_of_lem, all_pass_iff,
}
use yosys_quicklogic_plugins.Base.Options.{>>=-eq-some}
use yosys_quicklogic_plugins.Iob.Pcf.{Constraint, keyword, match_hash, match_comment, match_line}

-- `X+`
abbrev pub Plus : (ℕ → Bool) → Text → Type 0
Plus p s = (s ≢ []) × Passes p s

-- `(?:\s+#(.*))?`
abbrev pub IsComment : Text → Text → Type 0
IsComment tail text =
    ((tail ≡ []) × (text ≡ []))
    ⊎ ((gap : Text) × (tail ≡ gap ++ b'#' ∷ text) × Plus is_space gap × Passes is_dot text)

-- `^\s*set_io\s+([^#\s]+)\s+([^#\s]+)(?:\s+#(.*))?` with its three groups
pub record IsConstraintLine (line : Text) (c : Constraint) : Type 0 where
  pub lead : Text
  pub gap : Text
  pub gap' : Text
  pub tail : Text
  pub whole : line ≡ lead ++ (keyword ++ (gap ++ (c.net_name ++ (gap' ++ (c.pad_name ++ tail)))))
  pub lead_spaces : Passes is_space lead
  pub gap_spaces : Plus is_space gap
  pub net_characters : Plus is_name c.net_name
  pub gap'_spaces : Plus is_space gap'
  pub pad_characters : Plus is_name c.pad_name
  pub commented : IsComment tail c.comment

name_apart : (c : ℕ) → is_name c ≡ true → is_space c ≡ false
name_apart c h = ground arith

space_apart : (c : ℕ) → is_space c ≡ true → is_name c ≡ false
space_apart c h = ground arith

Plus-Stops :
    (p q : ℕ → Bool) (run rest : Text)
    → ((c : ℕ) → q c ≡ true → p c ≡ false)
    → Plus q run
    → Stops p (run ++ rest)
Plus-Stops p q [] rest apart (ne, h) = absurd (ne refl)
Plus-Stops p q (c ∷ run) rest apart (ne, (h, hs)) = apart c h

IsComment-Stops : (tail text : Text) → IsComment tail text → Stops is_name tail
IsComment-Stops tail text (inl (e, _)) = subst (λ t. Stops is_name t) (sym e) tt
IsComment-Stops tail text (inr (gap, e, plus, _)) =
    subst (λ t. Stops is_name t) (sym e) (Plus-Stops is_name is_space gap _ space_apart plus)

match_hash_lem :
    (s : Text) {text : Text} → match_hash s ≡ some text → (s ≡ b'#' ∷ text) × Passes is_dot text
unfolding match_hash
match_hash_lem [] h = cc
match_hash_lem (c ∷ s) {text} h =
    let same : s ≡ text = ground arith in
    (ground arith, subst (Passes is_dot) same ((all_pass_iff is_dot s).0 (ground arith)))

match_hash_complete : (text : Text) → Passes is_dot text → match_hash (b'#' ∷ text) ≡ some text
unfolding match_hash
match_hash_complete text h = rw ((all_pass_iff is_dot text).1 h)

match_comment_sound :
    (tail : Text) {text : Text} → match_comment tail ≡ some text → IsComment tail text
unfolding match_comment
match_comment_sound [] h = inl (refl, ground arith)
match_comment_sound (c ∷ s) {text} h =
    let (r, run, hash) = >>=-eq-some (some_of is_space (c ∷ s)) (λ r. match_hash r.1) h in
    let lem = some_of_lem is_space (c ∷ s) run in
    let (at, dots) = match_hash_lem r.1 hash in
    inr (r.0, lem.whole ∙ ap (λ t. r.0 ++ t) at, (lem.filled, lem.passes), dots)

match_comment_complete : (tail text : Text) → IsComment tail text → match_comment tail ≡ some text
unfolding match_comment
match_comment_complete [] text (inl (e, e')) = ap some (sym e')
match_comment_complete (c ∷ s) text (inl (e, e')) = cc
match_comment_complete tail text (inr ([], e, (ne, spaces), dots)) = absurd (ne refl)
match_comment_complete tail text (inr (c ∷ gap, e, (ne, spaces), dots)) =
    rw (e, some_of-append is_space (c ∷ gap) (b'#' ∷ text) ne spaces refl)
      (match_hash_complete text dots)

match_line_sound :
    (line : Text) {c : Constraint} → match_line line ≡ some c → IsConstraintLine line c
unfolding match_line
match_line_sound line {c} h =
    let (r0, strip, h0) = >>=-eq-some (strip_prefix keyword (span is_space line).1) _ h in
    let (r1, run1, h1) = >>=-eq-some (some_of is_space r0) _ h0 in
    let (r2, run2, h2) = >>=-eq-some (some_of is_name r1.1) _ h1 in
    let (r3, run3, h3) = >>=-eq-some (some_of is_space r2.1) _ h2 in
    let (r4, run4, h4) = >>=-eq-some (some_of is_name r3.1) _ h3 in
    let (text, end, h5) = >>=-eq-some (match_comment r4.1) _ h4 in
    let (spaces, _, lead_whole) = span_lem is_space line in
    let gap = some_of_lem is_space r0 run1 in
    let net = some_of_lem is_name r1.1 run2 in
    let gap' = some_of_lem is_space r2.1 run3 in
    let pad = some_of_lem is_name r3.1 run4 in
    subst (IsConstraintLine line) (some-injective _ _ h5) (record {
      lead = (span is_space line).0;
      gap = r1.0;
      gap' = r3.0;
      tail = r4.1;
      whole =
          sym lead_whole
          ∙ ap (λ t. (span is_space line).0 ++ t)
              (strip_prefix_lem keyword _ strip
                ∙ ap (λ t. keyword ++ t)
                    (gap.whole
                      ∙ ap (λ t. r1.0 ++ t)
                          (net.whole
                            ∙ ap (λ t. r2.0 ++ t) (gap'.whole ∙ ap (λ t. r3.0 ++ t) pad.whole))));
      lead_spaces = spaces;
      gap_spaces = (gap.filled, gap.passes);
      net_characters = (net.filled, net.passes);
      gap'_spaces = (gap'.filled, gap'.passes);
      pad_characters = (pad.filled, pad.passes);
      commented = match_comment_sound r4.1 end;
    })

match_line_complete :
    (line : Text) (c : Constraint) → IsConstraintLine line c → match_line line ≡ some c
unfolding match_line
match_line_complete line c g = rw (
  g.whole,
  span-append is_space g.lead _ g.lead_spaces refl,
  strip_prefix-append keyword,
  some_of-append is_space g.gap _ g.gap_spaces.0 g.gap_spaces.1
      (Plus-Stops is_space is_name c.net_name _ name_apart g.net_characters),
  some_of-append is_name c.net_name _ g.net_characters.0 g.net_characters.1
      (Plus-Stops is_name is_space g.gap' _ space_apart g.gap'_spaces),
  some_of-append is_space g.gap' _ g.gap'_spaces.0 g.gap'_spaces.1
      (Plus-Stops is_space is_name c.pad_name _ name_apart g.pad_characters),
  some_of-append is_name c.pad_name _ g.pad_characters.0 g.pad_characters.1
      (IsComment-Stops g.tail c.comment g.commented),
  match_comment_complete g.tail c.comment g.commented,
)

-- A line gives the constraint `c` exactly when it is one of the texts that the regular expression
-- `^\s*set_io\s+([^#\s]+)\s+([^#\s]+)(?:\s+#(.*))?` describes, with `c`'s net, pad and comment as
-- the groups: no line is split in another way, and no line of that form is missed.
pub match_line_iff :
    (line : Text) (c : Constraint) → (match_line line ≡ some c) ↔ IsConstraintLine line c
match_line_iff line c = (match_line_sound line, match_line_complete line c)

-- The last character of the text, if there is one, passes `p`.
abbrev Ends : (ℕ → Bool) → Text → Type 0
Ends p [] = ⊥
Ends p (c ∷ []) = p c ≡ true
Ends p (c ∷ d ∷ s) = Ends p (d ∷ s)

Ends-append : (p : ℕ → Bool) (s t : Text) → Ends p t → Ends p (s ++ t)
Ends-append p [] t h = h
Ends-append p (c ∷ []) [] h = elim h [ ]
Ends-append p (c ∷ []) (d ∷ t) h = h
Ends-append p (c ∷ d ∷ s) t h = Ends-append p (d ∷ s) t h

Plus-Ends : (p : ℕ → Bool) (s : Text) → Plus p s → Ends p s
Plus-Ends p [] (ne, h) = absurd (ne refl)
Plus-Ends p (c ∷ []) (ne, (h, hs)) = h
Plus-Ends p (c ∷ d ∷ s) (ne, (h, hs)) = Plus-Ends p (d ∷ s) ((λ e. cc), hs)

Ends-apart :
    (p q : ℕ → Bool) (s : Text) → ((c : ℕ) → q c ≡ true → p c ≡ false) → Ends p s → Ends q s → ⊥
Ends-apart p q [] apart h h' = h
Ends-apart p q (c ∷ []) apart h h' = ground (arith, apart c h')
Ends-apart p q (c ∷ d ∷ s) apart h h' = Ends-apart p q (d ∷ s) apart h h'

abbrev Without : ℕ → Text → Type 0
Without d = All (λ c. c ≢ d)

Without-append : (d : ℕ) (s t : Text) → Without d (s ++ t) → Without d t
Without-append d [] t h = h
Without-append d (c ∷ s) t (h, hs) = Without-append d s t hs

module _ (line : Text) (c : ℕ) (blank : is_space c ≡ true) where
  name_at_end : (pre pad : Text) → Plus is_name pad → line ++ c ∷ [] ≡ pre ++ pad → ⊥
  name_at_end pre pad plus e =
      Ends-apart is_space is_name (line ++ c ∷ []) name_apart
        (Ends-append is_space line (c ∷ []) blank)
        (subst (Ends is_name) (sym e) (Ends-append is_name pre pad (Plus-Ends is_name pad plus)))

  hash_inside : (pre post : Text) → Without b'#' line → line ++ c ∷ [] ≡ pre ++ b'#' ∷ post → ⊥
  hash_inside pre post no_hash e =
      (Without-append b'#' pre (b'#' ∷ post) (
          subst (Without b'#') e
            (All-append (λ d. d ≢ b'#') line (c ∷ []) no_hash ((λ q. ground arith), tt)))).0
        refl

  not_a_constraint : (k : Constraint) → Without b'#' line → IsConstraintLine (line ++ c ∷ []) k → ⊥
  not_a_constraint k no_hash g = elim g.commented [
    | inl (e, _) ↦
        name_at_end (g.lead ++ keyword ++ g.gap ++ k.net_name ++ g.gap') k.pad_name g.pad_characters
          (g.whole ∙ rw e (simp (append_assoc, append-nil)))
    | inr (gap, e, _, _) ↦
        hash_inside (g.lead ++ keyword ++ g.gap ++ k.net_name ++ g.gap' ++ k.pad_name ++ gap)
          k.comment no_hash (g.whole ∙ rw e (simp append_assoc))
  ]

-- A line that ends in a blank (a carriage return, for one) and has no `#` gives no constraint.
pub match_line-blank_end :
    (line : Text) (c : ℕ)
    → is_space c ≡ true
    → All (λ d. d ≢ b'#') line
    → match_line (line ++ c ∷ []) ≡ none
match_line-blank_end line c blank no_hash = elim (Option-cases (match_line (line ++ c ∷ []))) [
  | inl e ↦ e
  | inr (k, e) ↦ absurd (not_a_constraint line c blank k no_hash (match_line_sound _ e))
]
