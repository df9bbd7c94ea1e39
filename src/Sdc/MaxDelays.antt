-- ===== src/Sdc/MaxDelays.antt =====
-- The line that `WriteMaxDelay` writes for a path, run as a script, which comes to `SetMaxDelay::execute`. `operator<<` of
-- `float` and `std::stof` are parameters.
use yosys_quicklogic_plugins.Base.{
  ◌≡◌, refl, sym, ap, ◌∙◌, false, Option, some, List, [], ◌∷◌, ◌++◌, Text, codes, text_eq, All,
  All-append, append_assoc,
}
use yosys_quicklogic_plugins.Base.Chars.{all_pass}
use yosys_quicklogic_plugins.Sdc.Writer.{TimingPath, SdcWriter, set_max_delay, max_delay_line, endl}
use yosys_quicklogic_plugins.Sdc.Commands.{
  ok, ◌>>=◌, dashed, read_delay, max_delay_args, set_max_delay_command,
}
use yosys_quicklogic_plugins.Sdc.Script.{
  run_words, run_commands, run_script, IsTcl, IsLine, IsPlain, IsWord, spaced, spaced-append,
}
use yosys_quicklogic_plugins.Sdc.FalsePaths.{
  option_words, option_words-IsWord, option_text-spaced, option_name-IsWord, IsPlain-of,
}

-- An option's name begins with a dash.
text_eq-dashed : (s t : Text) → dashed s ≡ false → text_eq s (b'-' ∷ t) ≡ false
unfolding text_eq
text_eq-dashed [] t h = refl
text_eq-dashed (c ∷ s) t h = rw h refl

module _ {F : Type 0} (zero_float : F) (stof : Text → Option F) (show_float : F → Text) where
  -- What is printed for a number is a word that reads as a positional argument of the same value.
  pub record IsShown (d : F) : Type 0 where
    pub is_word : IsWord (show_float d)
    pub positional : dashed (show_float d) ≡ false
    pub reads : stof (show_float d) ≡ some d

  pub record HasPlainPath (p : TimingPath F) : Type 0 where
    pub shown_delay : IsShown p.max_delay
    pub plain_from : IsPlain p.from_pin
    pub plain_to : IsPlain p.to_pin

  abbrev pub max_delay_words : TimingPath F → List Text
  max_delay_words p =
      show_float p.max_delay
      ∷ (option_words (codes "-from") p.from_pin ++ option_words (codes "-to") p.to_pin)

  delay_args :
      (d : F) (args : List Text) (p : TimingPath F)
      → IsShown d
      → max_delay_args zero_float stof (show_float d ∷ args) p
        ≡ max_delay_args zero_float stof args (record p { max_delay = d })
  unfolding max_delay_args
  delay_args d [] p h =
      rw (text_eq-dashed (show_float d) (codes "quiet") h.positional, h.positional)
        (ap (read_delay p) h.reads)
  delay_args d (value ∷ args) p h =
      rw
        (
          text_eq-dashed (show_float d) (codes "quiet") h.positional,
          text_eq-dashed (show_float d) (codes "from") h.positional,
          text_eq-dashed (show_float d) (codes "to") h.positional,
          h.positional,
        )
        (ap (λ m. read_delay p m >>= (λ p'. max_delay_args zero_float stof (value ∷ args) p'))
          h.reads)

  from_args :
      (value : Text) (args : List Text) (p : TimingPath F)
      → p.from_pin ≡ []
      → max_delay_args zero_float stof (option_words (codes "-from") value ++ args) p
        ≡ max_delay_args zero_float stof args (record p { from_pin = value })
  unfolding max_delay_args text_eq
  from_args [] args p h = rw (sym h) refl
  from_args (c ∷ value) args p h = refl

  to_args :
      (value : Text) (p : TimingPath F)
      → p.to_pin ≡ []
      → max_delay_args zero_float stof (option_words (codes "-to") value) p
        ≡ ok (record p { to_pin = value })
  unfolding max_delay_args text_eq
  to_args [] p h = rw (sym h) refl
  to_args (c ∷ value) p h = refl

  abbrev no_delay : TimingPath F
  no_delay = record { from_pin = []; to_pin = []; max_delay = zero_float }

  max_delay_args-words :
      (p : TimingPath F)
      → HasPlainPath p
      → max_delay_args zero_float stof (max_delay_words p) no_delay ≡ ok p
  max_delay_args-words p h =
      delay_args p.max_delay _ _ h.shown_delay
      ∙ from_args p.from_pin _ _ refl
      ∙ to_args p.to_pin _ refl

  max_delay_words-IsWord : (p : TimingPath F) → HasPlainPath p → All IsWord (max_delay_words p)
  max_delay_words-IsWord p h = (
    h.shown_delay.is_word,
    All-append IsWord (option_words (codes "-from") p.from_pin) _
        (option_words-IsWord _ p.from_pin option_name-IsWord.0 h.plain_from)
        (option_words-IsWord _ p.to_pin option_name-IsWord.1 h.plain_to),
  )

  pub max_delay_line-spaced :
      (p : TimingPath F)
      → max_delay_line show_float p ≡ codes "set_max_delay" ++ spaced (max_delay_words p)
  unfolding max_delay_line
  max_delay_line-spaced p =
      rw
        (
          option_text-spaced " -from " (codes "-from") p.from_pin refl,
          option_text-spaced " -to " (codes "-to") p.to_pin refl,
          spaced-append (option_words (codes "-from") p.from_pin)
              (option_words (codes "-to") p.to_pin),
        )
        refl

  -- The command with its words.
  abbrev pub max_delay_command : TimingPath F → List Text
  max_delay_command p = codes "set_max_delay" ∷ max_delay_words p

  pub max_delay_command-IsLine : (p : TimingPath F) → HasPlainPath p → IsLine (max_delay_command p)
  unfolding all_pass
  max_delay_command-IsLine p h = (
    (λ e. cc),
    (((λ e. cc), IsPlain-of (codes "set_max_delay") refl), max_delay_words-IsWord p h),
  )

  pub run_words-max_delay :
      (p : TimingPath F) (w : SdcWriter F)
      → HasPlainPath p
      → run_words zero_float stof (max_delay_command p) w ≡ ok (set_max_delay w p)
  unfolding run_words text_eq set_max_delay_command
  run_words-max_delay p w h =
      ap (λ m. m >>= (λ path. ok (set_max_delay w path))) (max_delay_args-words p h)

  -- If the interpreter reads lines of plain words as such, the line written for a maximal delay whose
  -- pins are plain (printable, with no blank and nothing that Tcl substitutes) and whose number is
  -- printed as a plain word that reads back, run as a script, adds the same path to any writer.
  pub run_script-max_delay_line :
      (tcl : Text → List (List Text)) (p : TimingPath F) (w : SdcWriter F)
      → IsTcl tcl
      → HasPlainPath p
      → run_script zero_float stof tcl (max_delay_line show_float p ++ endl) w
        ≡ ok (set_max_delay w p)
  unfolding run_script run_commands
  run_script-max_delay_line tcl p w is h =
      ap (λ t. run_commands zero_float stof (tcl (t ++ endl)) w) (max_delay_line-spaced p)
      ∙ ap (λ t. run_commands zero_float stof (tcl t) w)
          (append_assoc (codes "set_max_delay") (spaced (max_delay_words p)) endl)
      ∙ ap (λ ls. run_commands zero_float stof ls w)
          (is.reads_lines (max_delay_command p ∷ []) (max_delay_command-IsLine p h, tt))
      ∙ ap (λ m. m >>= (λ w'. ok w')) (run_words-max_delay p w h)
