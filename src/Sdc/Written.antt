-- ===== src/Sdc/Written.antt =====
-- sdc-plugin/sdc_writer.cc: how `WriteSdc` can fail behind a script of the commands.
use mathlib.Core.Path.{subst}
use yosys_quicklogic_plugins.Base.{◌≡◌, refl, ap, Bool, List, ◌++◌, Text}
use yosys_quicklogic_plugins.Base.Results.{Result, ok, err, ◌>>=◌, Holds}
use yosys_quicklogic_plugins.Sdc.Writer.{
  SdcWriter, relations, write_false_paths, write_max_delay, write_clock_groups,
}
use yosys_quicklogic_plugins.Sdc.Clocks.{Wires, Floats, ClockError}
use yosys_quicklogic_plugins.Sdc.File.{
  WriteError, clock_fault, clocks_of, groups_of, clocks_text, write_sdc,
}
use yosys_quicklogic_plugins.Sdc.Script.{run_script}
use yosys_quicklogic_plugins.Sdc.RoundTrip.{new_writer}
use yosys_quicklogic_plugins.Sdc.Writable.{
  IsWritable, run_commands-IsWritable, write_clock_groups-some,
}

module _ {W F : Type 0} (wires : Wires W) (floats : Floats F) where
  -- The file is written, behind the text of the clocks, or an attribute of a clock is at fault.
  abbrev pub IsWritten : Result ClockError Text → Result WriteError Text → Type 0
  IsWritten (ok clocks) written = (rest : Text) × (written ≡ ok (clocks ++ rest))
  IsWritten (err fault) written = written ≡ err (clock_fault fault)

  IsWritten-after :
      (clocks : Result ClockError Text) (groups : Result WriteError Text) (paths delays text : Text)
      → groups ≡ ok text
      → IsWritten clocks
          (clocks_of clocks >>= (λ c. groups >>= (λ g. ok (c ++ (paths ++ (delays ++ g))))))
  IsWritten-after (ok clocks) groups paths delays text h =
      (paths ++ (delays ++ text), ap (λ m. m >>= (λ g. ok (clocks ++ (paths ++ (delays ++ g))))) h)
  IsWritten-after (err fault) groups paths delays text h = refl

  -- After any script of the three commands that succeeds on a new writer, whatever the interpreter
  -- makes of its text, writing the file fails only with the error of `WriteClocks`; when that gives a
  -- text for the clocks, the file is written and begins with it.
  pub write_sdc-IsWritten :
      (tcl : Text → List (List Text)) (content : Text) (include_propagated : Bool) (ws : List W)
      (w : SdcWriter F)
      → run_script floats.zero_float floats.stof tcl content new_writer ≡ ok w
      → IsWritten
          (clocks_text wires floats include_propagated ws)
          (write_sdc wires floats include_propagated ws w)
  unfolding run_script write_sdc
  write_sdc-IsWritten tcl content include_propagated ws w h =
      let writable =
        subst (Holds (IsWritable floats.zero_float floats.stof)) h
          (run_commands-IsWritable floats.zero_float floats.stof (tcl content) new_writer refl) in
      let (groups, e) = write_clock_groups-some w.clock_groups relations writable in
      IsWritten-after (clocks_text wires floats include_propagated ws)
        (groups_of (write_clock_groups w.clock_groups relations)) (write_false_paths w.false_paths)
        (write_max_delay floats.show_float w.timing_paths) groups (ap groups_of e)
