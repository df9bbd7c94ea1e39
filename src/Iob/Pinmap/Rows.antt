-- ===== src/Iob/Pinmap/Rows.antt =====
-- `PinmapParser::parse` against the lines of the file and the fields of each line.
use mathlib.Core.Path.{fun_ext}
use mathlib.Core.Bool.{false≢true}
use yosys_quicklogic_plugins.Base.{
  ℕ, zero, suc, ◌≤◌, ◌<◌, ◌≡◌, ◌≢◌, refl, ap, ◌∙◌, ◌↔◌, ◌⊎◌, inl, inr, Bool, true, false, none,
  some, List, [], ◌∷◌, ◌++◌, append-nil, append_assoc, Text, length, All, arith, Option-cases,
}
use yosys_quicklogic_plugins.Base.Maps.{Distinct, lookup}
use yosys_quicklogic_plugins.Base.Streams.{
  Stream, open_stream, getline, getline-cases, closed_stream, split, split-ne-nil, join, split-join,
  Lacks, fields_of-split,
}
use yosys_quicklogic_plugins.Iob.Pinmap.{
  Entry, PinmapParser, newline, comma, get_fields, no_fields, assign, parse_line, parse_data, parse,
  or_stop,
}
use yosys_quicklogic_plugins.Iob.Pinmap.Columns.{IsRow, assign_total, assign_wide, assign-IsRow}

-- The loop of `parse_data` over lines that are cut already.
parse_lines : PinmapParser → List Text → Bool × PinmapParser
parse_lines p [] = (true, p)
parse_lines p (l ∷ ls) = or_stop p (parse_line p l) (λ p'. parse_lines p' ls)

parse_data_closed :
    (fuel : ℕ) (p : PinmapParser) (s : Text) → parse_data fuel p (closed_stream s) ≡ (true, p)
unfolding parse_data
parse_data_closed zero p s = refl
parse_data_closed (suc fuel) p s = refl

getline-parse_data :
    (fuel : ℕ) (p : PinmapParser) (s : Text) {t : Text} {file : Stream}
    → getline newline (open_stream s) ≡ (t, file)
    → parse_data (suc fuel) p (open_stream s)
      ≡ or_stop p (parse_line p t) (λ p'. parse_data fuel p' file)
unfolding parse_data
getline-parse_data fuel p s h = rw h

parse_data-lines :
    (fuel : ℕ) (p : PinmapParser) (s : Text)
    → length s < fuel
    → parse_data fuel p (open_stream s) ≡ parse_lines p (split newline s)
unfolding parse_lines
parse_data-lines zero p s h = elim h [ ]
parse_data-lines (suc fuel) p s h = elim (getline-cases newline s) [
  | inl (t, r, read, cut, less) ↦ rw cut (
      getline-parse_data fuel p s read
      ∙ ap (or_stop p (parse_line p t)) (fun_ext (λ p'. parse_data-lines fuel p' r (omega arith))))
  | inr (t, r, read, cut) ↦ rw cut (
      getline-parse_data fuel p s read
      ∙ ap (or_stop p (parse_line p t)) (fun_ext (λ p'. parse_data_closed fuel p' r)))
]

-- What a parse comes to, from the lines of the file.
start_with : PinmapParser → List Text → Bool × PinmapParser
start_with p [] = (true, p)
start_with p (header ∷ rows) =
    parse_lines (record { fields = split comma header; entries = [] }) rows

no_fields-false : (fs : List Text) → fs ≢ [] → no_fields fs ≡ false
no_fields-false [] h = absurd (h refl)
no_fields-false (f ∷ fs) h = refl

getline-parse :
    (p : PinmapParser) (s : Text) {t : Text} {file : Stream}
    → getline newline (open_stream s) ≡ (t, file)
    → parse p (some s)
      ≡ parse_data (suc (length s)) (record { fields = split comma t; entries = [] }) file
unfolding parse
getline-parse p s {t} h =
    rw (h, fields_of-split comma t, no_fields-false (split comma t) (split-ne-nil comma t))

parse-lines : (p : PinmapParser) (s : Text) → parse p (some s) ≡ start_with p (split newline s)
unfolding start_with
parse-lines p s = elim (getline-cases newline s) [
  | inl (t, r, read, cut, less) ↦
      rw cut (getline-parse p s read ∙ parse_data-lines (suc (length s)) _ r (omega arith))
  | inr (t, r, read, cut) ↦
      rw cut (unfold parse_lines in getline-parse p s read ∙ parse_data_closed (suc (length s)) _ r)
]

-- The line has no cell or at most one for each column.
abbrev pub Fits : List Text → Text → Type 0
Fits columns row = (row ≡ []) ⊎ (length (split comma row) ≤ length columns)

-- The entries of the rows, one for each row that is not empty, each with its cells.
abbrev pub Reads : List Text → List Text → List Entry → Type 0
Reads columns [] es = es ≡ []
Reads columns ([] ∷ rows) es = Reads columns rows es
Reads columns ((c ∷ row) ∷ rows) es =
    (e : Entry) × (rest : List Entry) × (es ≡ e ∷ rest)
    × IsRow columns (split comma (c ∷ row)) e
    × Reads columns rows rest

get_fields-split : (s : Text) → get_fields s ≡ split comma s
unfolding get_fields
get_fields-split s = fields_of-split comma s

abbrev with_entry : PinmapParser → Entry → PinmapParser
with_entry p e = record p { entries = p.entries ++ e ∷ [] }

-- A line that is not empty: refused if it is too wide, and one more entry if not.
line_refused :
    (p : PinmapParser) (c : ℕ) (row : Text)
    → assign p.fields (split comma (c ∷ row)) [] ≡ none
    → parse_line p (c ∷ row) ≡ none
unfolding parse_line
line_refused p c row h = rw (parse_line, get_fields-split (c ∷ row), h)

line_stored :
    (p : PinmapParser) (c : ℕ) (row : Text) {e : Entry}
    → assign p.fields (split comma (c ∷ row)) [] ≡ some e
    → parse_line p (c ∷ row) ≡ some (with_entry p e)
unfolding parse_line
line_stored p c row h = rw (parse_line, get_fields-split (c ∷ row), h)

line_empty : (p : PinmapParser) → parse_line p [] ≡ some p
unfolding parse_line
line_empty p = refl

no_fresh : (columns : List Text) → All (λ c. lookup {V = Text} c [] ≡ none) columns
unfolding lookup
no_fresh [] = tt
no_fresh (c ∷ cs) = (refl, no_fresh cs)

parse_lines-true :
    (p : PinmapParser) (rows : List Text) → (parse_lines p rows).0 ≡ true → All (Fits p.fields) rows
unfolding parse_lines
parse_lines-true p [] h = tt
parse_lines-true p ([] ∷ rows) h = (inl refl, parse_lines-true p rows (rw (line_empty p) at h))
parse_lines-true p ((c ∷ row) ∷ rows) h =
    elim (Option-cases (assign p.fields (split comma (c ∷ row)) [])) [
      | inl bad ↦ absurd (false≢true (rw (line_refused p c row bad) at h))
      | inr (e, good) ↦ (
        inr (assign_wide p.fields _ [] good),
        parse_lines-true (with_entry p e) rows (rw (line_stored p c row good) at h),
      )
    ]

parse_lines-Reads :
    (p : PinmapParser) (rows : List Text)
    → Distinct p.fields
    → All (Fits p.fields) rows
    → (es : List Entry) × (parse_lines p rows ≡ (true, record p { entries = p.entries ++ es }))
      × Reads p.fields rows es
unfolding parse_lines
parse_lines-Reads p [] distinct fits = ([], rw append-nil, refl)
parse_lines-Reads p ([] ∷ rows) distinct (fit, fits) =
    let (es, run, reads) = parse_lines-Reads p rows distinct fits in
    (es, rw (line_empty p) run, reads)
parse_lines-Reads p ((c ∷ row) ∷ rows) distinct (inl empty, fits) = cc
parse_lines-Reads p ((c ∷ row) ∷ rows) distinct (inr fit, fits) =
    let (e, good) = assign_total p.fields (split comma (c ∷ row)) [] fit in
    let (es, run, reads) = parse_lines-Reads (with_entry p e) rows distinct fits in
    (
      e ∷ es,
      rw (line_stored p c row good) (run ∙ rw append_assoc),
      (e, es, refl, assign-IsRow p.fields _ [] distinct good (no_fresh p.fields), reads),
    )

accepted :
    (p : PinmapParser) (rows : List Text) → All (Fits p.fields) rows → (parse_lines p rows).0 ≡ true
unfolding parse_lines
accepted p [] fits = refl
accepted p ([] ∷ rows) (fit, fits) = rw (line_empty p) (accepted p rows fits)
accepted p ((c ∷ row) ∷ rows) (inl empty, fits) = cc
accepted p ((c ∷ row) ∷ rows) (inr fit, fits) =
    let (e, good) = assign_total p.fields (split comma (c ∷ row)) [] fit in
    rw (line_stored p c row good) (accepted (with_entry p e) rows fits)

stops :
    (p : PinmapParser) (row : Text) (rows : List Text)
    → ¬ (Fits p.fields row)
    → parse_lines p (row ∷ rows) ≡ (false, p)
unfolding parse_lines
stops p [] rows wide = absurd (wide (inl refl))
stops p (c ∷ row) rows wide = elim (Option-cases (assign p.fields (split comma (c ∷ row)) [])) [
  | inl bad ↦ rw (line_refused p c row bad)
  | inr (e, good) ↦ absurd (wide (inr (assign_wide p.fields _ [] good)))
]

parse_lines-append :
    (p p' : PinmapParser) (before rows : List Text)
    → parse_lines p before ≡ (true, p')
    → parse_lines p (before ++ rows) ≡ parse_lines p' rows
unfolding parse_lines
parse_lines-append p p' [] rows h = ap (λ q. parse_lines q rows) (ap (λ r. r.1) h)
parse_lines-append p p' (l ∷ ls) rows h = elim (Option-cases (parse_line p l)) [
  | inl bad ↦ absurd (false≢true (ap (λ r. r.0) (rw bad at h)))
  | inr (q, good) ↦ rw good (parse_lines-append q p' ls rows (rw good at h))
]

abbrev file_of : Text → List Text → Text
file_of header rows = join newline (header ∷ rows)

-- Parsing a file that was opened comes to the loop over its lines.
parse-file :
    (p : PinmapParser) (header : Text) (rows : List Text)
    → All (Lacks newline) (header ∷ rows)
    → parse p (some (file_of header rows))
      ≡ parse_lines (record { fields = split comma header; entries = [] }) rows
unfolding start_with
parse-file p header rows lines =
    parse-lines p (file_of header rows)
    ∙ ap (start_with p) (split-join newline (header ∷ rows) (λ e. cc) lines)

-- The parser accepts a file of the given lines (a header and rows, none with a newline in it)
-- exactly when each row is empty or has at most as many comma-separated cells as the header.
pub parse-true_iff :
    (p : PinmapParser) (header : Text) (rows : List Text)
    → All (Lacks newline) (header ∷ rows)
    → ((parse p (some (file_of header rows))).0 ≡ true) ↔ All (Fits (split comma header)) rows
parse-true_iff p header rows lines =
    let start : PinmapParser = record { fields = split comma header; entries = [] } in
    (
      λ h. parse_lines-true start rows (rw (parse-file p header rows lines) at h),
      λ fits. rw (parse-file p header rows lines) (accepted start rows fits),
    )

-- If the column names of the header differ from one another and every row fits, the parser
-- returns true, whatever it held before, and holds one entry for each row that is not empty, in
-- order: the entry maps the i-th column to the i-th cell of the row, and a column that the row has
-- no cell for to nothing.
pub parse-Reads :
    (p : PinmapParser) (header : Text) (rows : List Text)
    → All (Lacks newline) (header ∷ rows)
    → Distinct (split comma header)
    → All (Fits (split comma header)) rows
    → (es : List Entry) × (parse p (some (file_of header rows))
        ≡ (true, record { fields = split comma header; entries = es }))
      × Reads (split comma header) rows es
parse-Reads p header rows lines distinct fits =
    let (es, run, reads) = parse_lines-Reads _ rows distinct fits in
    (es, parse-file p header rows lines ∙ run, reads)

-- At the first row with more cells than the header has columns the parser returns false, and the
-- entries of the rows before it stay in the parser (the column names differing from one another).
pub parse-refused :
    (p : PinmapParser) (header : Text) (before : List Text) (row : Text) (after : List Text)
    → All (Lacks newline) (header ∷ before ++ row ∷ after)
    → Distinct (split comma header)
    → All (Fits (split comma header)) before
    → ¬ (Fits (split comma header) row)
    → (es : List Entry) × (parse p (some (file_of header (before ++ row ∷ after)))
        ≡ (false, record { fields = split comma header; entries = es }))
      × Reads (split comma header) before es
parse-refused p header before row after lines distinct fits wide =
    let (es, run, reads) = parse_lines-Reads _ before distinct fits in
    (
      es,
      parse-file p header (before ++ row ∷ after) lines
          ∙ parse_lines-append _ _ before (row ∷ after) run
          ∙ stops _ row after wide,
      reads,
    )
