-- ===== src/Sdc/RoundTrip.antt =====
-- The file that `WriteSdc` writes, run as a script of commands.
use yosys_quicklogic_plugins.Base.{
  ◌≡◌, refl, sym, ap, ◌∙◌, Bool, List, [], ◌∷◌, ◌++◌, map, append-nil, append_assoc, Text, codes,
  All, All-append,
}
use yosys_quicklogic_plugins.Sdc.Writer.{
  FalsePath, TimingPath, SdcWriter, add_false_path, set_max_delay, write_false_paths,
  write_max_delay, write_clock_groups, endl, clock_group_line, ClockGroups,
}
use yosys_quicklogic_plugins.Sdc.Commands.{ok, ◌>>=◌}
use yosys_quicklogic_plugins.Sdc.Clocks.{Wires, Floats}
use yosys_quicklogic_plugins.Sdc.File.{clocks_text, write_sdc}
use yosys_quicklogic_plugins.Sdc.Script.{
  run_commands, run_script, IsTcl, IsLine, spaced, lines_text,
}
use yosys_quicklogic_plugins.Sdc.FalsePaths.{
  HasPlainPins, false_path_words, false_path_command, false_path_command-IsLine,
  false_path_line-spaced, run_words-false_path,
}
use yosys_quicklogic_plugins.Sdc.MaxDelays.{
  HasPlainPath, max_delay_words, max_delay_command, max_delay_command-IsLine, max_delay_line-spaced,
  run_words-max_delay,
}

abbrev pub no_clock_groups : ClockGroups
no_clock_groups r = []

-- The static writer at the start of the program.
abbrev pub new_writer : {F : Type 0} → SdcWriter F
new_writer = record { false_paths = []; timing_paths = []; clock_groups = no_clock_groups }

lines_text-append :
    (ls ms : List (List Text)) → lines_text (ls ++ ms) ≡ lines_text ls ++ lines_text ms
lines_text-append [] ms = refl
lines_text-append ([] ∷ ls) ms = ap (λ t. b'\n' ∷ t) (lines_text-append ls ms)
lines_text-append ((w ∷ ws) ∷ ls) ms =
    ap (λ t. w ++ (spaced ws ++ b'\n' ∷ t)) (lines_text-append ls ms)
    ∙ ap (λ t. w ++ t) (sym (append_assoc (spaced ws) (b'\n' ∷ lines_text ls) (lines_text ms)))
    ∙ sym (append_assoc w (spaced ws ++ b'\n' ∷ lines_text ls) (lines_text ms))

write_false_paths-lines :
    (ps : List FalsePath) → write_false_paths ps ≡ lines_text (map false_path_command ps)
unfolding write_false_paths
write_false_paths-lines [] = refl
write_false_paths-lines (p ∷ ps) =
    ap (λ t. t ++ (endl ++ write_false_paths ps)) (false_path_line-spaced p)
    ∙ append_assoc (codes "set_false_path") (spaced (false_path_words p)) _
    ∙ ap (λ t. codes "set_false_path" ++ (spaced (false_path_words p) ++ b'\n' ∷ t))
        (write_false_paths-lines ps)

All-IsLine :
    {A : Type 0} (P : A → Type 0) (f : A → List Text) (xs : List A)
    → ((x : A) → P x → IsLine (f x))
    → All P xs
    → All IsLine (map f xs)
All-IsLine P f [] g h = tt
All-IsLine P f (x ∷ xs) g (h, hs) = (g x h, All-IsLine P f xs g hs)

module _ {W F : Type 0} (wires : Wires W) (floats : Floats F) where
  abbrev pub Plain : TimingPath F → Type 0
  Plain = HasPlainPath floats.zero_float floats.stof floats.show_float

  abbrev delay_command : TimingPath F → List Text
  delay_command = max_delay_command floats.zero_float floats.stof floats.show_float

  write_max_delay-lines :
      (ps : List (TimingPath F))
      → write_max_delay floats.show_float ps ≡ lines_text (map delay_command ps)
  unfolding write_max_delay
  write_max_delay-lines [] = refl
  write_max_delay-lines (p ∷ ps) =
      let words = max_delay_words floats.zero_float floats.stof floats.show_float p in
      ap (λ t. t ++ (endl ++ write_max_delay floats.show_float ps))
        (max_delay_line-spaced floats.zero_float floats.stof floats.show_float p)
      ∙ append_assoc (codes "set_max_delay") (spaced words) _
      ∙ ap (λ t. codes "set_max_delay" ++ (spaced words ++ b'\n' ∷ t)) (write_max_delay-lines ps)

  -- The commands that a writer without clock groups is written as.
  abbrev commands_of : SdcWriter F → List (List Text)
  commands_of w = map false_path_command w.false_paths ++ map delay_command w.timing_paths

  run_commands-false_paths :
      (ps : List FalsePath) (ls : List (List Text)) (w : SdcWriter F)
      → run_commands floats.zero_float floats.stof (map false_path_command ps ++ ls) w
        ≡ run_commands floats.zero_float floats.stof ls
            (record w { false_paths = w.false_paths ++ ps })
  unfolding run_commands add_false_path
  run_commands-false_paths [] ls w = rw (append-nil w.false_paths) refl
  run_commands-false_paths (p ∷ ps) ls w =
      let run = run_commands floats.zero_float floats.stof in
      ap (λ m. m >>= (λ w'. run (map false_path_command ps ++ ls) w'))
        (run_words-false_path floats.zero_float floats.stof p w)
      ∙ run_commands-false_paths ps ls (add_false_path w p)
      ∙ ap (λ t. run ls (record w { false_paths = t })) (append_assoc w.false_paths (p ∷ []) ps)

  run_commands-max_delay :
      (ps : List (TimingPath F)) (w : SdcWriter F)
      → All Plain ps
      → run_commands floats.zero_float floats.stof (map delay_command ps) w
        ≡ ok (record w { timing_paths = w.timing_paths ++ ps })
  unfolding run_commands set_max_delay
  run_commands-max_delay [] w h = rw (append-nil w.timing_paths) refl
  run_commands-max_delay (p ∷ ps) w (h, hs) =
      let run = run_commands floats.zero_float floats.stof in
      ap (λ m. m >>= (λ w'. run (map delay_command ps) w'))
        (run_words-max_delay floats.zero_float floats.stof floats.show_float p w h)
      ∙ run_commands-max_delay ps (set_max_delay w p) hs
      ∙ ap (λ t. ok (record w { timing_paths = t })) (append_assoc w.timing_paths (p ∷ []) ps)

  write_sdc-lines :
      (include_propagated : Bool) (ws : List W) (w : SdcWriter F)
      → clocks_text wires floats include_propagated ws ≡ ok []
      → w.clock_groups ≡ no_clock_groups
      → write_sdc wires floats include_propagated ws w ≡ ok (lines_text (commands_of w))
  unfolding write_sdc write_clock_groups clock_group_line
  write_sdc-lines include_propagated ws w hc hg =
      rw
        (
          hc,
          hg,
          append-nil (write_max_delay floats.show_float w.timing_paths),
          lines_text-append (map false_path_command w.false_paths)
              (map delay_command w.timing_paths),
          write_false_paths-lines w.false_paths,
          write_max_delay-lines w.timing_paths,
        )
        refl

  commands_of-IsLine :
      (w : SdcWriter F)
      → All HasPlainPins w.false_paths
      → All Plain w.timing_paths
      → All IsLine (commands_of w)
  commands_of-IsLine w hf hd =
      All-append IsLine (map false_path_command w.false_paths) (map delay_command w.timing_paths)
        (All-IsLine HasPlainPins false_path_command w.false_paths false_path_command-IsLine hf)
        (All-IsLine Plain delay_command w.timing_paths
          (max_delay_command-IsLine floats.zero_float floats.stof floats.show_float) hd)

  run_commands-commands_of :
      (w : SdcWriter F)
      → w.clock_groups ≡ no_clock_groups
      → All Plain w.timing_paths
      → run_commands floats.zero_float floats.stof (commands_of w) new_writer ≡ ok w
  run_commands-commands_of w hg hd =
      run_commands-false_paths w.false_paths (map delay_command w.timing_paths) new_writer
      ∙ run_commands-max_delay w.timing_paths _ hd
      ∙ ap (λ g. ok (record w { clock_groups = g })) (sym hg)

  -- If the interpreter reads lines of plain words as such: for a design of which no clock is written,
  -- and a writer with no clock groups, whose pins are plain (printable, with no blank and nothing
  -- that Tcl substitutes) and whose delays print as plain words that read back, the file is written,
  -- and run as a script on a new writer it gives exactly that writer again.
  pub run_script-write_sdc :
      (tcl : Text → List (List Text)) (include_propagated : Bool) (ws : List W) (w : SdcWriter F)
      → IsTcl tcl
      → clocks_text wires floats include_propagated ws ≡ ok []
      → w.clock_groups ≡ no_clock_groups
      → All HasPlainPins w.false_paths
      → All Plain w.timing_paths
      → (file : Text) × (write_sdc wires floats include_propagated ws w ≡ ok file)
        × (run_script floats.zero_float floats.stof tcl file new_writer ≡ ok w)
  unfolding run_script
  run_script-write_sdc tcl include_propagated ws w is hc hg hf hd = (
    lines_text (commands_of w),
    write_sdc-lines include_propagated ws w hc hg,
    ap (λ ls. run_commands floats.zero_float floats.stof ls new_writer)
          (is.reads_lines (commands_of w) (commands_of-IsLine w hf hd))
        ∙ run_commands-commands_of w hg hd,
  )
