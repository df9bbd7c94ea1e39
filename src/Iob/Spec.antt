-- ===== src/Iob/Spec.antt =====
-- ql-iob-plugin/ql-iob.cc: the IO cell specifications on the command line of `quicklogic_iob`.
pub mod Parse
use yosys_quicklogic_plugins.Base.{
  ℕ, String, Bool, true, false, ◌||◌, Option, none, some, List, [], ◌∷◌, ◌++◌, Text, codes,
  is_empty, ◌==◌, if◌then◌else◌,
}
use yosys_quicklogic_plugins.Base.Chars.{is_word, strip_prefix, some_of}
use yosys_quicklogic_plugins.Base.Options.{◌>>=◌}
use yosys_quicklogic_plugins.Base.Maps.{emplace}
use yosys_quicklogic_plugins.Base.Streams.{fields_of}

pub record IoCellType : Type 0 where
  pub type : Text
  pub port : Text
  pub preferred_types : List Text

-- `[\w$]`
abbrev pub is_id : ℕ → Bool
is_id c = is_word c || c == b'$'

-- `[\w,$]`
abbrev pub is_id_list : ℕ → Bool
is_id_list c = is_id c || c == b','

abbrev pub colon : Text
colon = codes ":"

abbrev pub at_end {ℓ} : {A : Type ℓ} → Text → A → Option A
at_end [] a = some a
at_end (c ∷ s) a = none

-- `^([\w$]+):([\w$]+)$`
unfoldable pub match_plain : Text → Option IoCellType
match_plain spec = do
  (type, rest) ← some_of is_id spec
  after_colon ← strip_prefix colon rest
  (port, end) ← some_of is_id after_colon
  at_end end (record { type = type; port = port; preferred_types = [] })

-- `^([\w$]+):([\w$]+):([\w,$]+)$`, and the third group cut at the commas
unfoldable pub match_preferred : Text → Option IoCellType
match_preferred spec = do
  (type, rest) ← some_of is_id spec
  after_colon ← strip_prefix colon rest
  (port, rest') ← some_of is_id after_colon
  after_colon' ← strip_prefix colon rest'
  (types, end) ← some_of is_id_list after_colon'
  at_end end (record { type = type; port = port; preferred_types = fields_of b',' types })

-- `none` is "Invalid IO cell+port spec".
unfoldable pub parse_spec : Text → Option IoCellType
parse_spec spec = elim (match_plain spec) [ some t ↦ some t | none ↦ match_preferred spec ]

abbrev pub IoCellTypes : Type 0
IoCellTypes = List (Text × IoCellType)

-- The loop over the specifications; the map keeps the first of two with one cell type.
unfoldable pub parse_specs : List Text → IoCellTypes → Option IoCellTypes
parse_specs [] types = some types
parse_specs (spec ∷ specs) types = do
  t ← parse_spec spec
  parse_specs specs (emplace t.type t types)

abbrev pub pad_of : String → List Text → IoCellType
pad_of type preferred = record { type = codes type; port = codes "P"; preferred_types = preferred }

abbrev pub bidir_sdiomux : List Text
bidir_sdiomux = codes "BIDIR" ∷ codes "SDIOMUX" ∷ []

-- The default IO cells for QuickLogic FPGAs.
abbrev pub default_types : IoCellTypes
default_types =
    (codes "inpad", pad_of "inpad" bidir_sdiomux)
    ∷ (codes "outpad", pad_of "outpad" bidir_sdiomux)
    ∷ (codes "bipad", pad_of "bipad" bidir_sdiomux)
    ∷ (codes "ckpad", pad_of "ckpad" (codes "CLOCK" ∷ bidir_sdiomux))
    ∷ []
