-- ===== src/Sdc/Script.antt =====
-- A script of constraint commands, `Tcl_EvalFile` of sdc-plugin/sdc.cc. What the Tcl interpreter makes
-- of a file, its commands with the words of each, is a parameter; it is only asked to read lines of
-- plain words, which Tcl neither substitutes nor splits.
use yosys_quicklogic_plugins.Base.{
  ℕ, ◌≡◌, ◌≢◌, refl, sym, ap, ◌∙◌, Bool, true, not, ◌&&◌, ◌||◌, Option, List, [], ◌∷◌, ◌++◌,
  append_assoc, Text, codes, text_eq, All, ◌==◌, leb, Passes, if◌then◌else◌,
}
use yosys_quicklogic_plugins.Sdc.Writer.{SdcWriter}
use yosys_quicklogic_plugins.Sdc.Commands.{
  Error, unknown_option, Result, ok, err, ◌>>=◌, set_false_path, set_max_delay_command,
  set_clock_groups,
}

-- The characters that mean something to Tcl: `"`, `#`, `$`, `;`, brackets, braces and backslash.
abbrev pub is_special : ℕ → Bool
is_special c =
    c == b'"'
    || (c == b'#'
        || (c == b'$'
            || (c == b';'
                || (c == b'[' || (c == b']' || (c == b'\\' || (c == b'{' || c == b'}')))))))

-- Printable ASCII but the blank, and none of those.
abbrev pub is_plain : ℕ → Bool
is_plain c = leb b'!' c && (leb c b'~' && not (is_special c))

abbrev pub IsPlain : Text → Type 0
IsPlain = Passes is_plain

abbrev pub IsWord : Text → Type 0
IsWord w = (w ≢ []) × IsPlain w

-- Words behind a blank each.
abbrev pub spaced : List Text → Text
spaced [] = []
spaced (w ∷ ws) = b' ' ∷ (w ++ spaced ws)

pub spaced-append : (ws vs : List Text) → spaced (ws ++ vs) ≡ spaced ws ++ spaced vs
spaced-append [] vs = refl
spaced-append (w ∷ ws) vs =
    ap (λ t. b' ' ∷ (w ++ t)) (spaced-append ws vs)
    ∙ ap (λ t. b' ' ∷ t) (sym (append_assoc w (spaced ws) (spaced vs)))

-- Commands, each on a line of its own, with a blank between two words.
abbrev pub lines_text : List (List Text) → Text
lines_text [] = []
lines_text ([] ∷ ls) = b'\n' ∷ lines_text ls
lines_text ((w ∷ ws) ∷ ls) = w ++ (spaced ws ++ b'\n' ∷ lines_text ls)

abbrev pub IsLine : List Text → Type 0
IsLine line = (line ≢ []) × All IsWord line

-- The documented behaviour of the interpreter on such a file.
pub record IsTcl (tcl : Text → List (List Text)) : Type 0 where
  pub reads_lines : (ls : List (List Text)) → All IsLine ls → tcl (lines_text ls) ≡ ls

module _ {F : Type 0} (zero_float : F) (stof : Text → Option F) where
  -- The three commands, for a design with a top module. Another name is an error of the interpreter.
  unfoldable pub run_words : List Text → SdcWriter F → Result Error (SdcWriter F)
  run_words [] w = ok w
  run_words (name ∷ args) w =
      if text_eq name (codes "set_false_path")
      then set_false_path true args w
      else if text_eq name (codes "set_max_delay")
      then set_max_delay_command zero_float stof true args w
      else if text_eq name (codes "set_clock_groups")
      then set_clock_groups true args w
      else err (unknown_option name)

  unfoldable pub run_commands : List (List Text) → SdcWriter F → Result Error (SdcWriter F)
  unfolding run_words
  run_commands [] w = ok w
  run_commands (words ∷ commands) w = run_words words w >>= (λ w'. run_commands commands w')

  unfoldable pub run_script :
      (Text → List (List Text)) → Text → SdcWriter F → Result Error (SdcWriter F)
  unfolding run_commands
  run_script tcl content w = run_commands (tcl content) w
