-- ===== src/Tests/Dsp.antt =====
-- The rules file of dsp-ff on small inputs. Constants are their texts.
use yosys_quicklogic_plugins.Base.{
  ◌<◌, ◌^◌, ◌≡◌, refl, List, [], ◌∷◌, Text, codes, text_eq, arith, ltb, span, if◌then◌else◌,
}
use yosys_quicklogic_plugins.Base.Maps.{lookup, insert, contains}
use yosys_quicklogic_plugins.Base.Chars.{all_pass}
use yosys_quicklogic_plugins.Base.Streams.{open_stream, split, getline, fields_of, read_all}
use yosys_quicklogic_plugins.Base.Results.{ok, err, Holds}
use yosys_quicklogic_plugins.Dsp.Rules.{Consts, DspType, range, Dict}
use yosys_quicklogic_plugins.Dsp.Rules.Tokens.{get_fields, strip_comment, next_line}
use yosys_quicklogic_plugins.Dsp.Rules.Fields.{invalid_port, number, parse_port_name}
use yosys_quicklogic_plugins.Dsp.Rules.Loader.{Loader, begin_dsp}
use yosys_quicklogic_plugins.Dsp.Rules.Lines.{
  handle, load_line, load_lines, new_loader, collect_dsps, collect_flops, load_rules,
}
use yosys_quicklogic_plugins.Dsp.Rules.Shape.{IsSound}
use yosys_quicklogic_plugins.Dsp.Rules.Invariant.{load_line-IsSound}
use yosys_quicklogic_plugins.Dsp.Rules.Reading.{load_each, lines_of_pieces, load_lines-load_each}
use yosys_quicklogic_plugins.Dsp.Rules.Collect.{
  Fresh, IsCollected, dsp_named, collect_dsps-IsCollected, Fresh-collect_dsps,
}
use yosys_quicklogic_plugins.Dsp.Rules.Load.{GoodMap, new_loader-IsSound, load_rules-GoodMap}
use yosys_quicklogic_plugins.Dsp.Rules.Formats.{format_port, parse_port_name-format_port}

-- `RTLIL::escape_id` on a name that has no backslash.
abbrev escape : Text → Text
escape s = b'\\' ∷ s

abbrev texts : Consts Text
texts = record { sx = codes "x"; from_string = λ s. s; of_string = λ s. s; same = text_eq }

abbrev loader : Loader Text
loader = new_loader escape texts

load_line-IsSound_example : Holds IsSound (load_line escape texts (codes "dsp MULT A # two") loader)
load_line-IsSound_example =
    load_line-IsSound escape texts (codes "dsp MULT A # two") loader
      (new_loader-IsSound escape texts)

load_lines-load_each_example :
    load_lines escape texts 20 (open_stream (codes "ff X\nendff\n")) loader
    ≡ load_each escape texts (lines_of_pieces (split b'\n' (codes "ff X\nendff\n"))) loader
load_lines-load_each_example =
    load_lines-load_each escape texts 20 (codes "ff X\nendff\n") loader (omega arith)

abbrev mult : DspType Text
mult = record { name = codes "M"; registers = [] }

abbrev adder : DspType Text
adder = record { name = codes "A"; registers = [] }

abbrev types : List (DspType Text)
types = mult ∷ adder ∷ []

collect_dsps-IsCollected_example :
    Holds (λ m. Fresh (types) [] × IsCollected (types) [] m) (collect_dsps escape texts (types) [])
collect_dsps-IsCollected_example = collect_dsps-IsCollected escape texts (types) []

types-Fresh : Fresh (types) []
unfolding dsp_named lookup text_eq
types-Fresh = (refl, refl, (refl, refl, tt))

Fresh-collect_dsps_example :
    (m : Dict (DspType Text)) × (collect_dsps escape texts (types) [] ≡ ok m)
    × IsCollected (types) [] m
Fresh-collect_dsps_example = Fresh-collect_dsps escape texts (types) [] types-Fresh

load_rules-GoodMap_example :
    Holds
      (λ maps. GoodMap maps.0)
      (load_rules escape texts (codes "dsp M\nport a[3:0]\nclk clk 0\nendport\nenddsp\n") [] [])
load_rules-GoodMap_example =
    load_rules-GoodMap escape texts (codes "dsp M\nport a[3:0]\nclk clk 0\nendport\nenddsp\n")

three_lt : number 0 (codes "3") < 2 ^ 31
unfolding number
three_lt = omega arith

zero_lt : number 0 (codes "0") < 2 ^ 31
unfolding number
zero_lt = omega arith

parse_port_name-format_port_example :
    parse_port_name (format_port (codes "a") (codes "3") (codes "0")) ≡ (
      if ltb (number 0 (codes "3")) (number 0 (codes "0"))
      then err invalid_port
      else ok (codes "a", range (number 0 (codes "0")) (number 0 (codes "3"))))
parse_port_name-format_port_example =
    parse_port_name-format_port (codes "a") (codes "3") (codes "0") (refl, tt) (λ e. cc) (λ e. cc)
      (refl, tt) (refl, tt) three_lt zero_lt

-- A section that is still open at the end of the file is accepted.
open_section :
    load_rules escape texts (codes "dsp M A") [] []
    ≡ ok ((codes "\\M", record { name = codes "\\M"; registers = [] }) ∷ [], [])
unfolding load_rules load_lines load_line next_line getline get_fields fields_of read_all
    strip_comment span all_pass handle text_eq begin_dsp collect_dsps collect_flops insert contains
open_section = refl
