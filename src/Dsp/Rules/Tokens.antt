-- ===== src/Dsp/Rules/Tokens.antt =====
-- dsp-ff-plugin/dsp_ff.cc, `load_rules`: lines, fields, and the two regular expressions.
use yosys_quicklogic_plugins.Base.{
  ℕ, Bool, not, ◌&&◌, ◌||◌, Option, none, some, List, [], ◌∷◌, Text, codes, span, is_empty, leb,
  ◌==◌, if◌then◌else◌,
}
use yosys_quicklogic_plugins.Base.Chars.{is_space, is_dot, some_of, strip_prefix, all_pass}
use yosys_quicklogic_plugins.Base.Options.{◌>>=◌}
use yosys_quicklogic_plugins.Base.Streams.{Stream, getline, fields_of}

-- `getFields` with its defaults: cut at blanks, the empty fields left out.
abbrev pub nonempty : List Text → List Text
nonempty [] = []
nonempty ([] ∷ fs) = nonempty fs
nonempty ((c ∷ f) ∷ fs) = (c ∷ f) ∷ nonempty fs

unfoldable pub get_fields : Text → List Text
unfolding fields_of
get_fields line = nonempty (fields_of b' ' line)

-- The part before the first `#`.
unfoldable pub strip_comment : Text → Text
strip_comment s = (span (λ c. not (c == b'#')) s).0

-- `" \r\n\t"`
abbrev pub is_blank_char : ℕ → Bool
is_blank_char c = c == b' ' || (c == b'\r' || (c == b'\n' || c == b'\t'))

-- `find_first_not_of(" \r\n\t") == npos`
abbrev pub is_blank_line : Text → Bool
is_blank_line s = all_pass is_blank_char s

abbrev pub cut_at : ℕ → Text → Option (Text × Text) → Option (Text × Text)
cut_at c s (some (name, value)) = some (c ∷ name, value)
cut_at c s none = if c == b'=' && not (is_empty s) then some ([], s) else none

-- The last `=` of a text that has something behind it.
unfoldable pub last_equals : Text → Option (Text × Text)
last_equals [] = none
last_equals (c ∷ s) = cut_at c s (last_equals s)

-- `(\S+)=(\S+)` on the whole of a field; the first group is as long as it can be.
unfoldable pub name_value : Text → Option (Text × Text)
unfolding last_equals
name_value [] = none
name_value (c ∷ s) =
    if all_pass (λ d. not (is_space d)) (c ∷ s)
    then (last_equals s >>= (λ cut. some (c ∷ cut.0, cut.1)))
    else none

abbrev pub is_digit : ℕ → Bool
is_digit c = leb b'0' c && leb c b'9'

-- `[0-9]+:[0-9]+\]` and the end, as the two runs of digits.
unfoldable pub port_range : Text → Option (Text × Text)
unfolding some_of strip_prefix
port_range s = do
  (hi, s') ← some_of is_digit s
  s'' ← strip_prefix (codes ":") s'
  (lo, s3) ← some_of is_digit s''
  s4 ← strip_prefix (codes "]") s3
  if is_empty s4 then some (hi, lo) else none

unfoldable pub groups_at : ℕ → Text → Option (Text × Text × Text) → Option (Text × Text × Text)
unfolding port_range
groups_at c s (some (name, hi, lo)) = if is_dot c then some (c ∷ name, hi, lo) else none
groups_at c s none = if c == b'[' then (port_range s >>= (λ r. some ([], r.0, r.1))) else none

-- `^(.*)\[([0-9]+):([0-9]+)\]` on the whole of a text. Only the last `[` can be the one.
unfoldable pub port_groups : Text → Option (Text × Text × Text)
unfolding groups_at
port_groups [] = none
port_groups (c ∷ s) = groups_at c s (port_groups s)

-- `std::getline(file, line); if (!file) break;`: at the end of the file nothing is read.
unfoldable pub next_line : Stream → Option (Text × Stream)
unfolding getline
next_line file = if file.good && not (is_empty file.rest) then some (getline b'\n' file) else none
