-- ===== src/Iob/Pcf/File.antt =====
-- `PcfParser::parse` over a whole file.
use mathlib.Core.Path.{subst}
use mathlib.Core.Bool.{false≢true}
use yosys_quicklogic_plugins.Base.{
  ℕ, zero, suc, ◌<◌, ◌≡◌, ◌≢◌, refl, sym, ap, ◌∙◌, inl, inr, Bool, true, false, Option, none, some,
  List, [], ◌∷◌, ◌++◌, append_assoc, append-nil, map, Text, codes, arith, All, All-append, length,
  span, Passes, is_empty, if◌then◌else◌,
}
use yosys_quicklogic_plugins.Base.Chars.{is_name, is_dot, strip_prefix}
use yosys_quicklogic_plugins.Base.Streams.{
  Stream, open_stream, closed_stream, getline, getline-cases, split, join, split-join, Lacks,
}
use yosys_quicklogic_plugins.Iob.Pcf.{
  Constraint, PcfParser, keyword, newline, push, match_line, read_lines, parse,
}
use yosys_quicklogic_plugins.Iob.Pcf.Grammar.{Plus, IsComment, match_line_iff}

abbrev pub found : Option Constraint → List Constraint → List Constraint
found none cs = cs
found (some c) cs = c ∷ cs

-- The constraints of the lines, in order.
abbrev pub constraints_of : List Text → List Constraint
constraints_of [] = []
constraints_of (l ∷ ls) = found (match_line l) (constraints_of ls)

push-found :
    (cs : List Constraint) (o : Option Constraint) (rest : List Constraint)
    → push cs o ++ rest ≡ cs ++ found o rest
push-found cs none rest = refl
push-found cs (some c) rest = append_assoc cs (c ∷ []) rest

read_lines_closed :
    (fuel : ℕ) (s : Text) (cs : List Constraint) → read_lines fuel (closed_stream s) cs ≡ cs
unfolding read_lines
read_lines_closed zero s cs = refl
read_lines_closed (suc fuel) s cs = refl

getline-read_lines :
    (fuel : ℕ) (s : Text) (cs : List Constraint) {t : Text} {file : Stream}
    → getline newline (open_stream s) ≡ (t, file)
    → read_lines (suc fuel) (open_stream s) cs ≡ read_lines fuel file (push cs (match_line t))
unfolding read_lines
getline-read_lines fuel s cs h = rw h

read_lines_lem :
    (fuel : ℕ) (s : Text) (cs : List Constraint)
    → length s < fuel
    → read_lines fuel (open_stream s) cs ≡ cs ++ constraints_of (split newline s)
read_lines_lem zero s cs h = elim h [ ]
read_lines_lem (suc fuel) s cs h = elim (getline-cases newline s) [
  | inl (t, r, read, cut, less) ↦ rw cut (
      getline-read_lines fuel s cs read
      ∙ read_lines_lem fuel r (push cs (match_line t)) (omega arith)
      ∙ push-found cs (match_line t) (constraints_of (split newline r)))
  | inr (t, r, read, cut) ↦ rw cut (
      getline-read_lines fuel s cs read
      ∙ read_lines_closed fuel r _
      ∙ sym (append-nil _)
      ∙ push-found cs (match_line t) [])
]

-- Parsing a file that was opened returns true, whatever the parser held before, and the parser
-- then holds exactly the constraints of the file's lines, in order.
pub parse-constraints_of :
    (p : PcfParser) (content : Text)
    → parse p (some content)
      ≡ (true, record { constraints = constraints_of (split newline content) })
unfolding parse
parse-constraints_of p content =
    ap (λ cs. (true, record { constraints = cs }))
      (read_lines_lem (suc (length content)) content [] (omega arith))

-- A constraint as a line of a PCF file.
abbrev pub format_line : Constraint → Text
format_line c =
    keyword
    ++ (codes " "
        ++ (c.net_name
            ++ (codes " "
                ++ (c.pad_name ++ (if is_empty c.comment then [] else codes " #" ++ c.comment)))))

pub record IsPrintable (c : Constraint) : Type 0 where
  pub net_characters : Plus is_name c.net_name
  pub pad_characters : Plus is_name c.pad_name
  pub comment_characters : Passes is_dot c.comment

IsComment-format :
    (text : Text)
    → Passes is_dot text
    → IsComment (if is_empty text then [] else codes " #" ++ text) text
IsComment-format [] h = inl (refl, refl)
IsComment-format (c ∷ text) h = inr (codes " ", refl, ((λ e. cc), (refl, tt)), h)

match_line-format_line : (c : Constraint) → IsPrintable c → match_line (format_line c) ≡ some c
match_line-format_line c ok = (match_line_iff (format_line c) c).1 (record {
  lead = [];
  gap = codes " ";
  gap' = codes " ";
  tail = if is_empty c.comment then [] else codes " #" ++ c.comment;
  whole = refl;
  lead_spaces = tt;
  gap_spaces = ((λ e. cc), (refl, tt));
  net_characters = ok.net_characters;
  gap'_spaces = ((λ e. cc), (refl, tt));
  pad_characters = ok.pad_characters;
  commented = IsComment-format c.comment ok.comment_characters;
})

constraints_of-format :
    (cs : List Constraint) → All IsPrintable cs → constraints_of (map format_line cs) ≡ cs
constraints_of-format [] ok = refl
constraints_of-format (c ∷ cs) (h, hs) =
    rw (match_line-format_line c h) (ap (λ t. c ∷ t) (constraints_of-format cs hs))

Passes-Lacks : (p : ℕ → Bool) (s : Text) → p newline ≡ false → Passes p s → Lacks newline s
Passes-Lacks p [] h hs = tt
Passes-Lacks p (c ∷ s) h (hc, hs) =
    ((λ e. false≢true (sym h ∙ subst (λ d. p d ≡ true) e hc)), Passes-Lacks p s h hs)

comment-Lacks :
    (text : Text)
    → Lacks newline text
    → Lacks newline (if is_empty text then [] else codes " #" ++ text)
comment-Lacks [] h = tt
comment-Lacks (c ∷ text) h = (omega arith, (omega arith, h))

format_line-Lacks : (c : Constraint) → IsPrintable c → Lacks newline (format_line c)
format_line-Lacks c ok =
    All-append (λ d. d ≢ newline) (codes "set_io ") _ (omega arith)
      (All-append (λ d. d ≢ newline) c.net_name _
        (Passes-Lacks is_name c.net_name refl ok.net_characters.1)
        (
          omega arith,
          All-append (λ d. d ≢ newline) c.pad_name _
              (Passes-Lacks is_name c.pad_name refl ok.pad_characters.1)
              (comment-Lacks c.comment (Passes-Lacks is_dot c.comment refl ok.comment_characters)),
        ))

lines-Lacks : (cs : List Constraint) → All IsPrintable cs → All (Lacks newline) (map format_line cs)
lines-Lacks [] ok = tt
lines-Lacks (c ∷ cs) (h, hs) = (format_line-Lacks c h, lines-Lacks cs hs)

no_lines : constraints_of (split newline (join newline [])) ≡ []
unfolding join split match_line strip_prefix span
no_lines = refl

constraints_of-lines :
    (cs : List Constraint)
    → All IsPrintable cs
    → constraints_of (split newline (join newline (map format_line cs))) ≡ cs
constraints_of-lines [] ok = no_lines
constraints_of-lines (c ∷ cs) ok =
    ap constraints_of
      (split-join newline (map format_line (c ∷ cs)) (λ e. cc) (lines-Lacks (c ∷ cs) ok))
    ∙ constraints_of-format (c ∷ cs) ok

-- Lines that are printed from constraints with a non-empty net and pad (no blanks, no `#`) and a
-- comment with no line terminator, one to a line, are parsed back to the constraints.
pub parse-format_line :
    (p : PcfParser) (cs : List Constraint)
    → All IsPrintable cs
    → parse p (some (join newline (map format_line cs))) ≡ (true, record { constraints = cs })
parse-format_line p cs ok =
    parse-constraints_of p (join newline (map format_line cs))
    ∙ ap (λ k. (true, record { constraints = k })) (constraints_of-lines cs ok)
