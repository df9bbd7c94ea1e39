-- ===== src/Sdc/FalsePaths.antt =====
-- The line that `WriteFalsePaths` writes for a path, run as a script, which comes to
-- `SetFalsePath::execute`.
use yosys_quicklogic_plugins.Base.{
  ◌≡◌, refl, sym, ap, ◌∙◌, true, Option, List, [], ◌∷◌, ◌++◌, append-nil, append_assoc, String,
  Text, codes, text_eq, All, All-append, arith, is_empty, if◌then◌else◌,
}
use yosys_quicklogic_plugins.Base.Chars.{all_pass}
use yosys_quicklogic_plugins.Sdc.Writer.{
  FalsePath, SdcWriter, add_false_path, false_path_line, option_text, endl,
}
use yosys_quicklogic_plugins.Sdc.Commands.{ok, ◌>>=◌, no_path, false_path_args, set_false_path}
use yosys_quicklogic_plugins.Sdc.Script.{
  run_words, run_commands, run_script, IsTcl, IsLine, IsPlain, IsWord, is_plain, spaced,
  spaced-append,
}

-- An option and its value, or nothing for an empty value.
abbrev pub option_words : Text → Text → List Text
option_words option value = if is_empty value then [] else option ∷ value ∷ []

abbrev pub false_path_words : FalsePath → List Text
false_path_words p =
    option_words (codes "-from") p.from_pin
    ++ (option_words (codes "-through") p.through_pin ++ option_words (codes "-to") p.to_pin)

pub record HasPlainPins (p : FalsePath) : Type 0 where
  pub plain_from : IsPlain p.from_pin
  pub plain_to : IsPlain p.to_pin
  pub plain_through : IsPlain p.through_pin

pub option_words-IsWord :
    (option value : Text) → IsWord option → IsPlain value → All IsWord (option_words option value)
option_words-IsWord option [] ho hv = tt
option_words-IsWord option (c ∷ value) ho hv = (ho, (((λ e. cc), hv), tt))

pub option_text-spaced :
    (option : String) (name value : Text)
    → codes option ≡ b' ' ∷ (name ++ b' ' ∷ [])
    → option_text option value ≡ spaced (option_words name value)
option_text-spaced option name [] h = refl
option_text-spaced option name (c ∷ value) h =
    ap (λ t. t ++ (c ∷ value)) h
    ∙ ap (λ t. b' ' ∷ t)
        (append_assoc name (b' ' ∷ []) (c ∷ value)
          ∙ ap (λ t. name ++ b' ' ∷ t) (sym (append-nil (c ∷ value))))

options_spaced :
    (from through to : Text)
    → option_text " -from " from ++ (option_text " -through " through ++ option_text " -to " to)
      ≡ spaced (
          option_words (codes "-from") from
          ++ (option_words (codes "-through") through ++ option_words (codes "-to") to))
options_spaced from through to =
    rw
      (
        option_text-spaced " -from " (codes "-from") from refl,
        option_text-spaced " -through " (codes "-through") through refl,
        option_text-spaced " -to " (codes "-to") to refl,
        spaced-append (option_words (codes "-from") from)
            (option_words (codes "-through") through ++ option_words (codes "-to") to),
        spaced-append (option_words (codes "-through") through) (option_words (codes "-to") to),
      )
      refl

pub IsPlain-of : (s : Text) → all_pass is_plain s ≡ true → IsPlain s
unfolding all_pass
IsPlain-of [] h = tt
IsPlain-of (c ∷ s) h = (ground arith, IsPlain-of s (ground arith))

pub option_name-IsWord : IsWord (codes "-from") × IsWord (codes "-to") × IsWord (codes "-through")
unfolding all_pass
option_name-IsWord = (
  ((λ e. cc), IsPlain-of (codes "-from") refl),
  ((λ e. cc), IsPlain-of (codes "-to") refl),
  ((λ e. cc), IsPlain-of (codes "-through") refl),
)

false_path_words-IsWord : (p : FalsePath) → HasPlainPins p → All IsWord (false_path_words p)
false_path_words-IsWord p h =
    All-append IsWord (option_words (codes "-from") p.from_pin) _
      (option_words-IsWord _ p.from_pin option_name-IsWord.0 h.plain_from)
      (All-append IsWord (option_words (codes "-through") p.through_pin) _
        (option_words-IsWord _ p.through_pin option_name-IsWord.2 h.plain_through)
        (option_words-IsWord _ p.to_pin option_name-IsWord.1 h.plain_to))

-- The command with its words.
abbrev pub false_path_command : FalsePath → List Text
false_path_command p = codes "set_false_path" ∷ false_path_words p

pub false_path_command-IsLine : (p : FalsePath) → HasPlainPins p → IsLine (false_path_command p)
unfolding all_pass
false_path_command-IsLine p h = (
  (λ e. cc),
  (((λ e. cc), IsPlain-of (codes "set_false_path") refl), false_path_words-IsWord p h),
)

pub false_path_line-spaced :
    (p : FalsePath) → false_path_line p ≡ codes "set_false_path" ++ spaced (false_path_words p)
unfolding false_path_line
false_path_line-spaced p =
    ap (λ t. codes "set_false_path" ++ t) (options_spaced p.from_pin p.through_pin p.to_pin)

from_args :
    (value : Text) (args : List Text) (p : FalsePath)
    → p.from_pin ≡ []
    → false_path_args (option_words (codes "-from") value ++ args) p
      ≡ false_path_args args (record p { from_pin = value })
unfolding false_path_args text_eq
from_args [] args p h = rw (sym h) refl
from_args (c ∷ value) args p h = refl

through_args :
    (value : Text) (args : List Text) (p : FalsePath)
    → p.through_pin ≡ []
    → false_path_args (option_words (codes "-through") value ++ args) p
      ≡ false_path_args args (record p { through_pin = value })
unfolding false_path_args text_eq
through_args [] args p h = rw (sym h) refl
through_args (c ∷ value) args p h = refl

to_args :
    (value : Text) (p : FalsePath)
    → p.to_pin ≡ []
    → false_path_args (option_words (codes "-to") value) p ≡ ok (record p { to_pin = value })
unfolding false_path_args text_eq
to_args [] p h = rw (sym h) refl
to_args (c ∷ value) p h = refl

pub false_path_args-words : (p : FalsePath) → false_path_args (false_path_words p) no_path ≡ ok p
false_path_args-words p =
    from_args p.from_pin _ _ refl ∙ through_args p.through_pin _ _ refl ∙ to_args p.to_pin _ refl

module _ {F : Type 0} (zero_float : F) (stof : Text → Option F) where
  pub run_words-false_path :
      (p : FalsePath) (w : SdcWriter F)
      → run_words zero_float stof (false_path_command p) w ≡ ok (add_false_path w p)
  unfolding run_words text_eq set_false_path
  run_words-false_path p w =
      ap (λ m. m >>= (λ path. ok (add_false_path w path))) (false_path_args-words p)

  -- If the interpreter reads lines of plain words as such, the line written for a false path whose
  -- pins are plain (printable, with no blank and nothing that Tcl substitutes), run as a script, adds
  -- the same path to any writer.
  pub run_script-false_path_line :
      (tcl : Text → List (List Text)) (p : FalsePath) (w : SdcWriter F)
      → IsTcl tcl
      → HasPlainPins p
      → run_script zero_float stof tcl (false_path_line p ++ endl) w ≡ ok (add_false_path w p)
  unfolding run_script run_commands
  run_script-false_path_line tcl p w is h =
      ap (λ t. run_commands zero_float stof (tcl (t ++ endl)) w) (false_path_line-spaced p)
      ∙ ap (λ t. run_commands zero_float stof (tcl t) w)
          (append_assoc (codes "set_false_path") (spaced (false_path_words p)) endl)
      ∙ ap (λ ls. run_commands zero_float stof ls w)
          (is.reads_lines (false_path_command p ∷ []) (false_path_command-IsLine p h, tt))
      ∙ ap (λ m. m >>= (λ w'. ok w')) (run_words-false_path p w)
