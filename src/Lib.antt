-- ===== src/Lib.antt =====
-- Plugins for the Yosys synthesis suite, as a library of models and theorems.
--
-- Each plugin adds commands to Yosys. A command reads its arguments and the netlist of the design,
-- and files where it has any, and changes the netlist. The models follow the C++ code: a
-- `std::string` is a list of bytes, a stream is what is left to read and its `good()`, a map is an
-- association list, an object is a record that its methods return anew, and an error or an exception
-- is a value. What Yosys itself does (its names, its formatting, its netlist) is an argument.
--
-- Modules:
-- - Base: shared names, lists, texts and character classes, maps, results with errors, and streams
--   with `std::getline`.
-- - Iob: ql-iob-plugin. Iob.Pinmap is pinmap_parser.cc (`parse` is `PinmapParser::parse`),
--   Iob.Pcf is pcf_parser.cc, Iob.Spec the IO cell specifications of ql-iob.cc, and Iob.Place
--   `QuicklogicIob::execute` and `choosePinmapEntry`. The loops over the lines take fuel, one round
--   for each character and one more, since each round but the last reads a delimiter.
-- - Eqn: `init2eqn` of ql-qlf-plugin/quicklogic_eqn.cc. Eqn.Scan reads an equation as a sum of
--   products, and refuses any other text.
-- - Sdc: sdc-plugin. Sdc.Writer is sdc_writer.{h,cc}, Sdc.Commands the commands of
--   set_false_path.cc, set_max_delay.cc and set_clock_groups.cc, and Sdc.Clocks clocks.{h,cc} with
--   `WriteClocks`; Sdc.File is `WriteSdc`. Sdc.CreateClock is `CreateClockCmd` of sdc.cc, and
--   Sdc.Buffers the searches for sinks and the chain of buffers of propagation.cc, over what the
--   selections of Yosys give. Sdc.Script runs a script on a writer; what Tcl makes of the script's
--   text is a parameter, which `IsTcl` asks to read lines of plain words. The loop over the arguments of `set_clock_groups` takes fuel, one round for each argument; the search along buffers
--   takes more fuel than a rank of the first wire. A wire's attributes are the record `Wires` with the
--   laws `IsWires`; `float` and its text are `Floats`.
-- - Rtlil: the operations of the netlist that the plugins call, kernel/rtlil.h of Yosys, as a record
--   `Netlist` over a module and its constants, with the laws `IsNetlist`; Rtlil.Bits has signal bits
--   and Rtlil.Pools hashlib's pools.
-- - Inv: integrateinv-plugin/integrateinv.cc, with a function for each method and loop. Inv.Meaning
--   says what a cell sees at a pin, and OnePin, Pins, Sinks, Rows, Collect and Pass follow the pass
--   from one pin to a module; Covers, Taken and Trace are about the sinks of an inverter that is
--   removed, Total and Returning are about its end without an error. A cell pointer
--   is the cell's name, and none for a port of the module.
-- - Braminit: `run_pp3_braminit` of ql-qlf-plugin/pp3_braminit.cc. A C++ `int` is the number of its 32
--   bits. The loop over the tokens of a line takes fuel, one round for each character and one more,
--   as each token but the last takes a character at least. An access outside of `mem` is an error.
-- - Simd: ql-qlf-plugin/ql-dsp-simd.cc, with the tables of ports and parameters and a function for each
--   loop of `execute`. A cell that cannot be added, as its name is taken, is an error.
-- - BramMerge: ql-qlf-plugin/ql-bram-merge.cc. A pool gives its elements in an order that is a
--   parameter; BramMerge.Wiring is about the ports of a merged cell.
-- - Dsp: dsp-ff-plugin/dsp_ff.cc. Dsp.Rules is `load_rules`: Tokens and Fields read a line, Loader has
--   the parser's state and the sections, Lines the other lines, the choice of the handler and the
--   whole file. The loop over the lines takes fuel, one round for each character and one more.
--   Dsp.Connections is `ConnMap`, Dsp.Flops has `FlopData`, `checkFlop`, `getFlopData` and
--   `checkFlopDataAgainstDspRegister`, Dsp.Inspect the loop over the ports in
--   `processRegister`, and Dsp.Registers the rest of it and `execute` on a module.
--   Dsp.Dicts and Alike say what equal data have in common; Removal, Marked, Touched and Group
--   follow which cells are marked for removal.
-- - Tests: runs on small inputs, and the theorems at concrete inputs.
--
-- Not modelled: the dumps and logs of dsp_ff.cc, the clocks that propagation adds behind buffers and
-- PLLs, the other DSP and BRAM passes and the XDC commands, the passes that only call other Yosys passes or
-- write out a netlist, and the SystemVerilog frontend, which translates between two libraries that are
-- not in this repository.
mod Base
pub mod Iob
pub mod Eqn
pub mod Sdc
pub mod Rtlil
pub mod Inv
pub mod Braminit
pub mod Simd
pub mod BramMerge
pub mod Dsp
mod Tests
