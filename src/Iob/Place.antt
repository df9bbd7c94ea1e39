-- ===== src/Iob/Place.antt =====
-- ql-iob-plugin/ql-iob.cc: `quicklogic_iob`, which annotates the IO cells of the top module with
-- the pads, locations and cell types that the PCF file and the pin map assign to them.
pub mod Choice
pub mod Nets
use yosys_quicklogic_plugins.Base.{
  ℕ, Bool, true, false, ◌&&◌, ◌||◌, Option, none, some, List, [], ◌∷◌, ◌++◌, Text, codes, is_empty,
  text_eq, ◌==◌, ltb, length, if◌then◌else◌,
}
use yosys_quicklogic_plugins.Base.Maps.{lookup, insert, contains, emplace}
use yosys_quicklogic_plugins.Iob.Pinmap
use yosys_quicklogic_plugins.Iob.Pinmap.{Entry, PinmapParser}
use yosys_quicklogic_plugins.Iob.Pcf
use yosys_quicklogic_plugins.Iob.Pcf.{Constraint, PcfParser}
use yosys_quicklogic_plugins.Iob.Spec.{IoCellType, IoCellTypes, parse_specs, default_types}

-- How the command ends early: `log_cmd_error`, or an exception of `std::map::at`.
pub data Error : Type 0 where
  usage invalid_spec no_top_module pcf_failed constrained_twice pinmap_failed out_of_range : Error

pub data Result {ℓ} (A : Type ℓ) : Type ℓ where
  ok : A → Result A
  err : Error → Result A

infixl 5 ◌>>=◌
abbrev pub ◌>>=◌ {ℓ κ} : {A : Type ℓ} {B : Type κ} → Result A → (A → Result B) → Result B
ok a >>= f = f a
err e >>= f = err e

abbrev pub or_err {ℓ} : {A : Type ℓ} → Error → Option A → Result A
or_err e none = err e
or_err e (some a) = ok a

-- The part of the netlist that the pass reads.
pub record Wire : Type 0 where
  pub name : Text
  pub port_input : Bool
  pub port_output : Bool

pub data SigBit : Type 0 where
  constant : SigBit
  bit : Wire → ℕ → SigBit

pub record Cell : Type 0 where
  pub name : Text
  pub type : Text
  pub connections : List (Text × List SigBit)

-- The parameters that the pass sets on a cell.
pub record Annotation : Type 0 where
  pub net : Text
  pub pad : Text
  pub loc : Text
  pub cell_type : Text

abbrev pub blank : Annotation
blank = record { net = []; pad = []; loc = []; cell_type = [] }

-- The inner loop of `choosePinmapEntry`: `entry.at("type")` throws if there is no such column.
unfoldable pub entry_of_type : Text → List Entry → Result (Option Entry)
entry_of_type type [] = ok none
entry_of_type type (e ∷ es) = do
  t ← or_err out_of_range (lookup (codes "type") e)
  let rest = entry_of_type type es
  if text_eq type t then ok (some e) else rest

-- `a_Entries[0]`
abbrev pub first_entry : List Entry → Result Entry
first_entry [] = err out_of_range
first_entry (e ∷ es) = ok e

-- `choosePinmapEntry`
unfoldable pub choose_pinmap_entry : List Text → List Entry → Result Entry
choose_pinmap_entry [] es = first_entry es
choose_pinmap_entry (t ∷ ts) es = do
  found ← entry_of_type t es
  let rest = choose_pinmap_entry ts es
  elim found [ some e ↦ ok e | none ↦ rest ]

-- The map of net names to constraints.
abbrev pub ConstraintMap : Type 0
ConstraintMap = List (Text × Constraint)

unfoldable pub constraint_map : List Constraint → ConstraintMap → Result ConstraintMap
constraint_map [] m = ok m
constraint_map (c ∷ cs) m =
    let rest = constraint_map cs (emplace c.net_name c m) in
    if contains c.net_name m then err constrained_twice else rest

-- The map of pad names to their entries, in the order of the file.
abbrev pub PinmapMap : Type 0
PinmapMap = List (Text × List Entry)

abbrev pub entries_at : Text → PinmapMap → List Entry
entries_at name m = elim (lookup name m) [ none ↦ [] | some es ↦ es ]

abbrev pub add_entry : Option Text → Entry → PinmapMap → PinmapMap
add_entry none e m = m
add_entry (some name) e m = insert name (entries_at name m ++ e ∷ []) m

unfoldable pub pinmap_map : List Entry → PinmapMap → PinmapMap
pinmap_map [] m = m
pinmap_map (e ∷ es) m = pinmap_map es (add_entry (lookup (codes "name") e) e m)

-- The loop over the three spellings of a net: the first that is constrained, and its pad.
unfoldable pub find_pad : ConstraintMap → List Text → Text × Text
find_pad m [] = ([], [])
find_pad m (name ∷ names) = elim (lookup name m) [
  | none ↦ find_pad m names
  | some c ↦ (name, c.pad_name)
]

abbrev pub location : Entry → Text → Text
location e old = elim (lookup (codes "x") e) [
  | none ↦ old
  | some x ↦ elim (lookup (codes "y") e) [
    | none ↦ old
    | some y ↦ codes "X" ++ (x ++ (codes "Y" ++ y))
  ]
]

abbrev pub or_old : Option Text → Text → Text
or_old none old = old
or_old (some t) old = t

-- The Yosys kernel's names and formatting: `unescape_id`, `escape_id`, and an `int` in `stringf`.
module _ (unescape_id escape_id : Text → Text) (show_int : ℕ → Text) where
  unfoldable pub net_names : Wire → ℕ → List Text
  net_names w offset =
      let base = unescape_id w.name in
      base
      ∷ (base ++ (codes "[" ++ (show_int offset ++ codes "]")))
      ∷ (base ++ (codes "(" ++ (show_int offset ++ codes ")")))
      ∷ []

  module _ (constraints : ConstraintMap) (pinmap : PinmapMap) where
    -- One round of the loop over the bits of the connection.
    unfoldable pub place_bit : IoCellType → SigBit → Annotation → Result Annotation
    place_bit t constant a = ok a
    place_bit t (bit w offset) a =
        if w.port_input || w.port_output
        then (let (net, pad) = find_pad constraints (net_names w offset) in
            let a' = record a { net = net; pad = pad } in
            elim (lookup pad pinmap) [
              | none ↦ ok a'
              | some es ↦ (do
                e ← choose_pinmap_entry t.preferred_types es
                ok (record a' {
                  loc = location e a.loc;
                  cell_type = or_old (lookup (codes "type") e) a.cell_type;
                }))
            ])
        else ok a

    unfoldable pub place_bits : IoCellType → List SigBit → Annotation → Result Annotation
    place_bits t [] a = ok a
    place_bits t (b ∷ bs) a = do a' ← place_bit t b a; place_bits t bs a'

    -- The body of the loop over the cells; `none` is `continue` at a cell that is no IO cell.
    unfoldable pub place_cell : IoCellTypes → Cell → Result (Option Annotation)
    place_cell types c = elim (lookup (unescape_id c.type) types) [
      | none ↦ ok none
      | some t ↦ (do
        a ← elim (lookup (escape_id t.port) c.connections) [
          | none ↦ ok blank
          | some bits ↦ place_bits t bits blank
        ]
        ok (some a))
    ]

    -- The parameters that are set, cell by cell.
    unfoldable pub place_cells : IoCellTypes → List Cell → Result (List (Text × Annotation))
    place_cells types [] = ok []
    place_cells types (c ∷ cs) = do
      a ← place_cell types c
      rest ← place_cells types cs
      elim a [ none ↦ ok rest | some a ↦ ok ((c.name, a) ∷ rest) ]

  abbrev pub io_cell_types : List Text → Result IoCellTypes
  io_cell_types [] = ok default_types
  io_cell_types (s ∷ ss) = or_err invalid_spec (parse_specs (s ∷ ss) [])

  abbrev pub ok_when {ℓ} : {A : Type ℓ} → Bool → Error → A → Result A
  ok_when true e a = ok a
  ok_when false e a = err e

  -- `execute`, behind the test that there are two arguments at least: the contents of the two
  -- files (`none` if one cannot be opened), the specifications, and the cells of the top module
  -- (`none` if there is none).
  unfoldable pub quicklogic_iob :
      Option Text → Option Text → List Text → Option (List Cell) → Result (List (Text × Annotation))
  quicklogic_iob pcf pinmap_csv specs top = do
    types ← io_cell_types specs
    cells ← or_err no_top_module top
    let (pcf_ok, pcf_parser) = Pcf.parse (record { constraints = [] }) pcf
    constraints ← ok_when pcf_ok pcf_failed pcf_parser.constraints
    by_net ← constraint_map constraints []
    let (pinmap_ok, pinmap_parser) = Pinmap.parse Pinmap.new_parser pinmap_csv
    entries ← ok_when pinmap_ok pinmap_failed pinmap_parser.entries
    place_cells by_net (pinmap_map entries []) types cells
