-- ===== src/Tests/Iob.antt =====
-- The IO placement on a small PCF file and pin map.
use yosys_quicklogic_plugins.Base.{
  ℕ, ◌+◌, ◌≤◌, ◌≡◌, ◌↔◌, refl, inl, inr, true, false, none, some, List, [], ◌∷◌, ◌++◌, Text, codes,
  All, arith, span, text_eq, text_ne, map,
}
use yosys_quicklogic_plugins.Base.Maps.{lookup, insert, contains, emplace, Distinct}
use yosys_quicklogic_plugins.Base.Chars.{strip_prefix, some_of}
use yosys_quicklogic_plugins.Base.Streams.{read_all, getline, split, join, fields_of}
use yosys_quicklogic_plugins.Iob.Pinmap
use yosys_quicklogic_plugins.Iob.Pinmap.{
  Entry, PinmapParser, new_parser, newline, comma, assign, get_fields, parse_line, parse_data,
}
use yosys_quicklogic_plugins.Iob.Pinmap.Rows.{
  Fits, Reads, parse-true_iff, parse-Reads, parse-refused,
}
use yosys_quicklogic_plugins.Iob.Pcf
use yosys_quicklogic_plugins.Iob.Pcf.{
  Constraint, PcfParser, match_line, match_comment, match_hash, read_lines,
}
use yosys_quicklogic_plugins.Iob.Pcf.Grammar.{
  IsConstraintLine, match_line_iff, match_line-blank_end,
}
use yosys_quicklogic_plugins.Iob.Pcf.File.{
  constraints_of, format_line, IsPrintable, parse-constraints_of, parse-format_line,
}
use yosys_quicklogic_plugins.Iob.Spec.{IoCellType, parse_spec}
use yosys_quicklogic_plugins.Iob.Spec.Parse.{format_spec, parse_spec-format_spec}
use yosys_quicklogic_plugins.Iob.Place.{
  ok, err, out_of_range, constrained_twice, Wire, bit, Cell, constant, blank, choose_pinmap_entry,
  constraint_map, pinmap_map, place_bits, place_bit, place_cell, place_cells, find_pad, net_names,
  quicklogic_iob, entry_of_type,
}
use yosys_quicklogic_plugins.Iob.Place.Choice.{
  Elem, rank, type_of, choose_pinmap_entry-Best, choose_pinmap_entry-untyped,
}
use yosys_quicklogic_plugins.Iob.Place.Nets.{
  constraint_of, constraint_map-lookup, constraint_map-twice, named, unless_empty,
  lookup-pinmap_map, place_bits-blank,
}

abbrev header : Text
header = codes "name,x,y,type"

abbrev full_row : Text
full_row = codes "IO_0,1,2,BIDIR"

abbrev short_row : Text
short_row = codes "IO_1,3"

abbrev wide_row : Text
wide_row = codes "a,b,c,d,e"

header_columns : split comma header ≡ codes "name" ∷ codes "x" ∷ codes "y" ∷ codes "type" ∷ []
unfolding split
header_columns = refl

wide_row_refused : ¬ (Fits (split comma header) wide_row)
unfolding split
wide_row_refused (inl e) = cc
wide_row_refused (inr h) = omega arith

short_row-Fits : Fits (split comma header) short_row
unfolding split
short_row-Fits = inr (omega arith)

full_row-Fits : Fits (split comma header) full_row
unfolding split
full_row-Fits = inr (omega arith)

Distinct-columns : Distinct (split comma header)
unfolding split text_eq
Distinct-columns = (
  (text_ne _ _ refl, (text_ne _ _ refl, (text_ne _ _ refl, tt))),
  ((text_ne _ _ refl, (text_ne _ _ refl, tt)), ((text_ne _ _ refl, tt), (tt, tt))),
)

parse-true_iff_example :
    ((Pinmap.parse new_parser (some (join newline (header ∷ full_row ∷ [] ∷ [])))).0 ≡ true)
    ↔ All (Fits (split comma header)) (full_row ∷ [] ∷ [])
parse-true_iff_example = parse-true_iff new_parser header (full_row ∷ [] ∷ []) (omega arith)

parse-Reads_example :
    (es : List Entry) × (Pinmap.parse new_parser
        (some (join newline (header ∷ full_row ∷ short_row ∷ [])))
      ≡ (true, record { fields = split comma header; entries = es }))
    × Reads (split comma header) (full_row ∷ short_row ∷ []) es
parse-Reads_example =
    parse-Reads new_parser header (full_row ∷ short_row ∷ []) (omega arith) Distinct-columns
      (full_row-Fits, (short_row-Fits, tt))

parse-refused_example :
    (es : List Entry) × (Pinmap.parse new_parser
        (some (join newline (header ∷ (full_row ∷ []) ++ wide_row ∷ [])))
      ≡ (false, record { fields = split comma header; entries = es }))
    × Reads (split comma header) (full_row ∷ []) es
parse-refused_example =
    parse-refused new_parser header (full_row ∷ []) wide_row [] (omega arith) Distinct-columns
      (full_row-Fits, tt) wide_row_refused

abbrev clock : Constraint
clock = record { net_name = codes "clk"; pad_name = codes "A3"; comment = codes " main" }

abbrev reset : Constraint
reset = record { net_name = codes "rst"; pad_name = codes "B1"; comment = [] }

clock_line : match_line (codes "  set_io clk A3 # main") ≡ some clock
unfolding match_line strip_prefix span some_of match_comment match_hash
clock_line = refl

match_line_iff_example :
    (match_line (codes "  set_io clk A3 # main") ≡ some clock)
    ↔ IsConstraintLine (codes "  set_io clk A3 # main") clock
match_line_iff_example = match_line_iff (codes "  set_io clk A3 # main") clock

match_line-blank_end_example : match_line (codes "set_io clk A3" ++ b'\r' ∷ []) ≡ none
match_line-blank_end_example = match_line-blank_end (codes "set_io clk A3") b'\r' refl (omega arith)

abbrev two_constraints : List Constraint
two_constraints = clock ∷ reset ∷ []

clock_printable : IsPrintable clock
clock_printable = record {
  net_characters = ((λ e. cc), (refl, (refl, (refl, tt))));
  pad_characters = ((λ e. cc), (refl, (refl, tt)));
  comment_characters = (refl, (refl, (refl, (refl, (refl, tt)))));
}

reset_printable : IsPrintable reset
reset_printable = record {
  net_characters = ((λ e. cc), (refl, (refl, (refl, tt))));
  pad_characters = ((λ e. cc), (refl, (refl, tt)));
  comment_characters = tt;
}

parse-format_line_example :
    Pcf.parse (record { constraints = [] }) (some (join newline (map format_line two_constraints)))
    ≡ (true, record { constraints = two_constraints })
parse-format_line_example =
    parse-format_line (record { constraints = [] }) two_constraints
      (clock_printable, (reset_printable, tt))

parse-constraints_of_example :
    Pcf.parse (record { constraints = reset ∷ [] }) (some (codes "set_io clk A3 # main"))
    ≡ (true, record { constraints = constraints_of (split newline (codes "set_io clk A3 # main")) })
parse-constraints_of_example =
    parse-constraints_of (record { constraints = reset ∷ [] }) (codes "set_io clk A3 # main")

abbrev inpad : IoCellType
inpad = record {
  type = codes "inpad";
  port = codes "P";
  preferred_types = codes "BIDIR" ∷ codes "SDIOMUX" ∷ [];
}

parse_spec-format_spec_example : parse_spec (format_spec inpad) ≡ some inpad
parse_spec-format_spec_example = parse_spec-format_spec inpad (record {
  type_id = ((λ e. cc), (refl, (refl, (refl, (refl, (refl, tt))))));
  port_id = ((λ e. cc), (refl, tt));
  preferred_ids = (
    ((λ e. cc), (refl, (refl, (refl, (refl, (refl, tt)))))),
    (((λ e. cc), (refl, (refl, (refl, (refl, (refl, (refl, (refl, tt)))))))), tt),
  );
})

abbrev typed : Text → Entry
typed t = (codes "name", codes "IO_0") ∷ (codes "type", t) ∷ []

abbrev untyped : Entry
untyped = (codes "name", codes "IO_0") ∷ []

abbrev prefers : List Text
prefers = codes "CLOCK" ∷ codes "BIDIR" ∷ []

choose_pinmap_entry-Best_example :
    (chosen : Entry) × (choose_pinmap_entry prefers
        (typed (codes "BIDIR") ∷ typed (codes "CLOCK") ∷ [])
      ≡ ok chosen)
    × Elem chosen (typed (codes "BIDIR") ∷ typed (codes "CLOCK") ∷ [])
    × All
        (λ e'. rank prefers (type_of chosen) ≤ rank prefers (type_of e'))
        (typed (codes "BIDIR") ∷ typed (codes "CLOCK") ∷ [])
unfolding lookup text_eq
choose_pinmap_entry-Best_example =
    choose_pinmap_entry-Best prefers (typed (codes "BIDIR")) (typed (codes "CLOCK") ∷ [])
      (refl, (refl, tt))

choose_pinmap_entry-untyped_example :
    choose_pinmap_entry prefers ((typed (codes "BIDIR") ∷ []) ++ untyped ∷ []) ≡ err out_of_range
unfolding lookup text_eq
choose_pinmap_entry-untyped_example =
    choose_pinmap_entry-untyped (codes "CLOCK") (codes "BIDIR" ∷ []) (typed (codes "BIDIR") ∷ [])
      untyped [] (refl, tt) (text_ne _ _ refl, tt) refl

constraint_map-lookup_example :
    (m : List (Text × Constraint)) × (constraint_map two_constraints [] ≡ ok m)
    × ((n : Text) → lookup n m ≡ constraint_of n two_constraints)
unfolding text_eq
constraint_map-lookup_example =
    constraint_map-lookup two_constraints ((text_ne _ _ refl, tt), (tt, tt))

constraint_map-twice_example : constraint_map (clock ∷ clock ∷ []) [] ≡ err constrained_twice
constraint_map-twice_example = constraint_map-twice (clock ∷ clock ∷ []) (λ h. h.0.0 refl)

lookup-pinmap_map_example :
    lookup (codes "IO_0") (pinmap_map (typed (codes "BIDIR") ∷ untyped ∷ []) [])
    ≡ unless_empty (named (codes "IO_0") (typed (codes "BIDIR") ∷ untyped ∷ []))
lookup-pinmap_map_example = lookup-pinmap_map (codes "IO_0") (typed (codes "BIDIR") ∷ untyped ∷ [])

abbrev same_name : Text → Text
same_name s = s

abbrev digit : ℕ → Text
digit n = (b'0' + n) ∷ []

abbrev data_wire : Wire
data_wire = record { name = codes "d"; port_input = true; port_output = false }

place_bits-blank_example :
    place_bits same_name same_name digit
      ((codes "clk", clock) ∷ [])
      []
      inpad
      (bit data_wire 0 ∷ constant ∷ [])
      blank
    ≡ ok blank
unfolding lookup text_eq net_names
place_bits-blank_example =
    place_bits-blank same_name same_name digit ((codes "clk", clock) ∷ []) [] inpad
      (bit data_wire 0 ∷ constant ∷ []) refl ((refl, (refl, (refl, tt))), (tt, tt))

abbrev clock_cell : Cell
clock_cell = record {
  name = codes "u0";
  type = codes "inpad";
  connections =
      (
        codes "P",
        bit (record { name = codes "clk"; port_input = true; port_output = false }) 0 ∷ [],
      )
      ∷ [];
}

placed :
    quicklogic_iob same_name same_name digit
      (some (codes "set_io clk A3"))
      (some (codes "name,x,y,type\nA3,1,2,BIDIR\nA3,3,4,SDIOMUX"))
      []
      (some (clock_cell ∷ []))
    ≡ ok (
        (
          codes "u0",
          record {
            net = codes "clk";
            pad = codes "A3";
            loc = codes "X1Y2";
            cell_type = codes "BIDIR";
          },
        )
        ∷ [])
unfolding quicklogic_iob Pinmap.parse Pinmap.parse_data Pinmap.assign Pinmap.parse_line
    Pinmap.get_fields fields_of read_all getline Pcf.parse match_line strip_prefix span some_of
    match_comment match_hash read_lines constraint_map pinmap_map place_cells place_cell place_bits
    place_bit find_pad net_names choose_pinmap_entry entry_of_type lookup insert contains emplace
    text_eq
placed = refl
