-- ===== src/Iob/Pcf.antt =====
-- ql-iob-plugin/pcf_parser.{hh,cc}: the parser of PCF placement constraints.
pub mod Grammar
pub mod File
use yosys_quicklogic_plugins.Base.{
  ℕ, zero, suc, Bool, true, false, ◌&&◌, Option, none, some, List, [], ◌∷◌, ◌++◌, Text, codes,
  is_empty, span, length, ◌==◌, if◌then◌else◌,
}
use yosys_quicklogic_plugins.Base.Chars.{is_space, is_name, is_dot, strip_prefix, some_of, all_pass}
use yosys_quicklogic_plugins.Base.Options.{◌>>=◌}
use yosys_quicklogic_plugins.Base.Streams.{Stream, open_stream, getline}

pub record Constraint : Type 0 where
  pub net_name : Text
  pub pad_name : Text
  pub comment : Text

pub record PcfParser : Type 0 where
  pub constraints : List Constraint

-- `#(.*)`, up to the end
unfoldable pub match_hash : Text → Option Text
unfolding all_pass
match_hash [] = none
match_hash (c ∷ s) = if c == b'#' && all_pass is_dot s then some s else none

-- `(?:\s+#(.*))?`, up to the end
unfoldable pub match_comment : Text → Option Text
match_comment [] = some []
match_comment (c ∷ s) = do (_, rest) ← some_of is_space (c ∷ s); match_hash rest

abbrev pub keyword : Text
keyword = codes "set_io"

-- `std::regex_match` of a line against
-- `^\s*set_io\s+([^#\s]+)\s+([^#\s]+)(?:\s+#(.*))?`. The classes that follow one another have no
-- character in common, so each run is the longest one.
unfoldable pub match_line : Text → Option Constraint
match_line line = do
  rest ← strip_prefix keyword (span is_space line).1
  (_, after_keyword) ← some_of is_space rest
  (net, after_net) ← some_of is_name after_keyword
  (_, after_gap) ← some_of is_space after_net
  (pad, tail) ← some_of is_name after_gap
  comment ← match_comment tail
  some (record { net_name = net; pad_name = pad; comment = comment })

abbrev newline : ℕ
newline = b'\n'

abbrev pub push : List Constraint → Option Constraint → List Constraint
push cs none = cs
push cs (some c) = cs ++ c ∷ []

-- `while (a_Stream.good())`
unfoldable pub read_lines : ℕ → Stream → List Constraint → List Constraint
read_lines zero file cs = cs
read_lines (suc fuel) file cs =
    let (line, file') = getline newline file in
    let next = read_lines fuel file' (push cs (match_line line)) in if file.good then next else cs

-- The file's content, or `none` if it could not be opened.
unfoldable pub parse : PcfParser → Option Text → Bool × PcfParser
parse p none = (false, p)
parse p (some content) =
    (true, record { constraints = read_lines (suc (length content)) (open_stream content) [] })
