-- ===== src/Sdc/File.antt =====
-- sdc-plugin/sdc_writer.cc, `WriteSdc`: the whole file, the clocks of the design first.
use yosys_quicklogic_plugins.Base.{Bool, Option, none, some, List, ◌++◌, Text}
use yosys_quicklogic_plugins.Base.Results.{Result, ok, err, ◌>>=◌}
use yosys_quicklogic_plugins.Sdc.Writer.{
  SdcWriter, relations, write_false_paths, write_max_delay, write_clock_groups,
}
use yosys_quicklogic_plugins.Sdc.Clocks.{Wires, Floats, ClockError, get_clocks, write_clocks}

-- `log_cmd_error` for the attributes of a clock, or the exception of `relation_name_map.at`.
pub data WriteError : Type 0 where
  clock_fault : ClockError → WriteError
  no_relation_name : WriteError

abbrev pub clocks_of : Result ClockError Text → Result WriteError Text
clocks_of (ok text) = ok text
clocks_of (err fault) = err (clock_fault fault)

abbrev pub groups_of : Option Text → Result WriteError Text
groups_of none = err no_relation_name
groups_of (some text) = ok text

module _ {W F : Type 0} (wires : Wires W) (floats : Floats F) (include_propagated : Bool) where
  -- The text of the clocks, for the wires of the top module.
  abbrev pub clocks_text : List W → Result ClockError Text
  unfolding write_clocks
  clocks_text ws = write_clocks wires floats include_propagated (get_clocks wires floats ws)

  -- The file, for the wires of the top module.
  unfoldable pub write_sdc : List W → SdcWriter F → Result WriteError Text
  unfolding write_clocks write_clock_groups write_false_paths write_max_delay
  write_sdc ws w = do
    clocks ← clocks_of (clocks_text ws)
    groups ← groups_of (write_clock_groups w.clock_groups relations)
    ok (
        clocks
        ++ (write_false_paths w.false_paths
            ++ (write_max_delay floats.show_float w.timing_paths ++ groups)))
