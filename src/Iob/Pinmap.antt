-- ===== src/Iob/Pinmap.antt =====
-- ql-iob-plugin/pinmap_parser.{hh,cc}: the CSV parser of the package pin map. A method takes the
-- parser object and returns it beside its result. The proofs are in the child modules.
pub mod Columns
pub mod Rows
use yosys_quicklogic_plugins.Base.{
  ℕ, zero, suc, Bool, true, false, Option, none, some, List, [], ◌∷◌, ◌++◌, Text, is_empty, length,
  if◌then◌else◌,
}
use yosys_quicklogic_plugins.Base.Maps.{insert}
use yosys_quicklogic_plugins.Base.Streams.{Stream, open_stream, getline, fields_of}

abbrev pub newline : ℕ
newline = b'\n'

abbrev pub comma : ℕ
comma = b','

-- `std::map<std::string, std::string>`
abbrev pub Entry : Type 0
Entry = List (Text × Text)

pub record PinmapParser : Type 0 where
  pub fields : List Text
  pub entries : List Entry

abbrev pub new_parser : PinmapParser
new_parser = record { fields = []; entries = [] }

unfoldable pub get_fields : Text → List Text
get_fields s = fields_of comma s

-- the end of a `std::vector` that has none
abbrev pub no_fields : List Text → Bool
no_fields [] = true
no_fields (f ∷ fs) = false

unfoldable pub parse_header : PinmapParser → Stream → Bool × PinmapParser × Stream
unfolding get_fields
parse_header p file =
    let (header, file') = getline newline file in
    let fields = get_fields header in
    (if no_fields fields then false else true, record p { fields = fields }, file')

-- `for (i = 0; i < data.size(); ++i)`; `none` is the early `return false`.
unfoldable pub assign : List Text → List Text → Entry → Option Entry
assign columns [] entry = some entry
assign [] (d ∷ data_) entry = none
assign (c ∷ columns) (d ∷ data_) entry = assign columns data_ (insert c d entry)

-- The body of the loop over the lines; `none` is the early `return false`.
unfoldable pub parse_line : PinmapParser → Text → Option PinmapParser
parse_line p line = elim (is_empty line) [
  | true ↦ some p
  | false ↦ elim (assign p.fields (get_fields line) []) [
    | none ↦ none
    | some entry ↦ some (record p { entries = p.entries ++ entry ∷ [] })
  ]
]

-- the early return, or the rest of the loop
abbrev pub or_stop :
    PinmapParser → Option PinmapParser → (PinmapParser → Bool × PinmapParser) → Bool × PinmapParser
or_stop p none rest = (false, p)
or_stop p (some p') rest = rest p'

-- `while (a_Stream.good())`
unfoldable pub parse_data : ℕ → PinmapParser → Stream → Bool × PinmapParser
parse_data zero p file = (true, p)
parse_data (suc fuel) p file =
    let (line, file') = getline newline file in
    let next = or_stop p (parse_line p line) (λ p'. parse_data fuel p' file') in
    if file.good then next else (true, p)

-- The file's content, or `none` if it could not be opened.
unfoldable pub parse : PinmapParser → Option Text → Bool × PinmapParser
unfolding parse_header
parse p none = (false, p)
parse p (some content) =
    let (ok, p', file') = parse_header (record p { entries = [] }) (open_stream content) in
    if ok then parse_data (suc (length content)) p' file' else (false, p')
