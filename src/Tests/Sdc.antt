-- ===== src/Tests/Sdc.antt =====
-- The constraint commands and the writer on small lists. Numbers are digits.
use yosys_quicklogic_plugins.Base.{
  ℕ, ◌≡◌, refl, if◌then◌else◌, false, [], ◌∷◌, ◌++◌, Text, codes, text_eq,
}
use yosys_quicklogic_plugins.Base.Streams.{split}
use yosys_quicklogic_plugins.Sdc.Writer.{
  FalsePath, TimingPath, SdcWriter, false_path_line, max_delay_line, asynchronous, add_false_path,
  set_max_delay, endl, ClockGroup, ClockGroupRelation, relation_eq,
}
use yosys_quicklogic_plugins.Sdc.Commands.{
  ok, err, unknown_option, add_groups, set_clock_groups, group_args, take_group,
}
use yosys_quicklogic_plugins.Sdc.Script.{run_words, run_commands, run_script}
use yosys_quicklogic_plugins.Sdc.Clocks.{write_clocks, collect_clocks}
use yosys_quicklogic_plugins.Sdc.File.{clocks_text, write_sdc}
use yosys_quicklogic_plugins.Sdc.FalsePaths.{HasPlainPins, run_script-false_path_line}
use yosys_quicklogic_plugins.Sdc.MaxDelays.{HasPlainPath, run_script-max_delay_line}
use yosys_quicklogic_plugins.Sdc.Groups.{clock_groups-add_groups}
use yosys_quicklogic_plugins.Sdc.RoundTrip.{new_writer, no_clock_groups, run_script-write_sdc}
use yosys_quicklogic_plugins.Sdc.Written.{IsWritten, write_sdc-IsWritten}
use yosys_quicklogic_plugins.Tests.Clocks.{wires, digits}
use yosys_quicklogic_plugins.Tests.Tcl.{words, split_tcl, split_tcl-IsTcl}

abbrev path : FalsePath
path = record { from_pin = codes "a"; to_pin = []; through_pin = codes "t" }

path-HasPlainPins : HasPlainPins path
path-HasPlainPins = record { plain_from = (refl, tt); plain_to = tt; plain_through = (refl, tt) }

abbrev delay : TimingPath ℕ
delay = record { from_pin = codes "a"; to_pin = codes "b"; max_delay = 7 }

delay-HasPlainPath : HasPlainPath digits.zero_float digits.stof digits.show_float delay
delay-HasPlainPath = record {
  shown_delay = record { is_word = ((λ e. cc), (refl, tt)); positional = refl; reads = refl };
  plain_from = (refl, tt);
  plain_to = (refl, tt);
}

false_path_text : false_path_line path ≡ codes "set_false_path -from a -through t"
unfolding false_path_line
false_path_text = refl

run_script-false_path_line_example :
    run_script 0 digits.stof split_tcl (false_path_line path ++ endl) new_writer
    ≡ ok (add_false_path new_writer path)
run_script-false_path_line_example =
    run_script-false_path_line 0 digits.stof split_tcl path new_writer split_tcl-IsTcl
      path-HasPlainPins

run_script-max_delay_line_example :
    run_script 0 digits.stof split_tcl (max_delay_line digits.show_float delay ++ endl) new_writer
    ≡ ok (set_max_delay new_writer delay)
run_script-max_delay_line_example =
    run_script-max_delay_line 0 digits.stof digits.show_float split_tcl delay new_writer
      split_tcl-IsTcl delay-HasPlainPath

abbrev group : ClockGroup
group = codes "clk_a" ∷ codes "clk_b" ∷ []

clock_groups-add_groups_example :
    ((q : ClockGroupRelation)
      → (add_groups (group ∷ []) asynchronous (new_writer {F = ℕ})).clock_groups q
        ≡ (if relation_eq asynchronous q then group ∷ [] else []))
    × ((add_groups (group ∷ []) asynchronous (new_writer {F = ℕ})).false_paths ≡ [])
    × ((add_groups (group ∷ []) asynchronous (new_writer {F = ℕ})).timing_paths ≡ [])
clock_groups-add_groups_example = clock_groups-add_groups (group ∷ []) asynchronous new_writer

abbrev writer : SdcWriter ℕ
writer = record {
  false_paths = path ∷ [];
  timing_paths = delay ∷ [];
  clock_groups = no_clock_groups;
}

no_clock_lines : clocks_text wires digits false [] ≡ ok []
unfolding write_clocks collect_clocks
no_clock_lines = refl

run_script-write_sdc_example :
    (file : Text) × (write_sdc wires digits false [] writer ≡ ok file)
    × (run_script 0 digits.stof split_tcl file new_writer ≡ ok writer)
run_script-write_sdc_example =
    run_script-write_sdc wires digits split_tcl false [] writer split_tcl-IsTcl no_clock_lines refl
      (path-HasPlainPins, tt) (delay-HasPlainPath, tt)

abbrev script : Text
script = codes "set_clock_groups -asynchronous -group a b -group c"

abbrev script_writer : SdcWriter ℕ
script_writer =
    add_groups ((codes "a" ∷ codes "b" ∷ []) ∷ (codes "c" ∷ []) ∷ []) asynchronous new_writer

script_run : run_script 0 digits.stof split_tcl script new_writer ≡ ok script_writer
unfolding run_script run_commands run_words split_tcl words split set_clock_groups group_args
    take_group text_eq
script_run = refl

write_sdc-IsWritten_example :
    IsWritten wires digits
      (clocks_text wires digits false [])
      (write_sdc wires digits false [] script_writer)
write_sdc-IsWritten_example =
    write_sdc-IsWritten wires digits split_tcl script false [] script_writer script_run

-- The line that is written for clock groups is no command of the plugin.
written_groups_refused :
    run_words 0 digits.stof
      (codes "create_clock_groups" ∷ codes "-group" ∷ codes "a" ∷ [])
      new_writer
    ≡ err (unknown_option (codes "create_clock_groups"))
unfolding run_words text_eq
written_groups_refused = refl
