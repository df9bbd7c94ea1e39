-- ===== src/Sdc/Commands.antt =====
-- sdc-plugin/set_false_path.cc, set_max_delay.cc, set_clock_groups.cc: the commands. Each takes
-- whether there is a top module, the arguments behind the command's name, and the writer. What
-- they print is left out.
use yosys_quicklogic_plugins.Base.{
  ℕ, Bool, true, false, Option, none, some, List, [], ◌∷◌, ◌++◌, Text, codes, text_eq, length, ◌==◌,
  if◌then◌else◌,
}
pub use yosys_quicklogic_plugins.Base.Results.{Result, ok, err, ◌>>=◌}
use yosys_quicklogic_plugins.Sdc.Writer.{
  FalsePath, TimingPath, ClockGroupRelation, unrelated, ClockGroup, relation_name_map, SdcWriter,
  add_false_path, set_max_delay, add_clock_group,
}

-- `log_cmd_error`, or an exception of the standard library.
pub data Error : Type 0 where
  no_top_module : Error
  unknown_option : Text → Error
  invalid_argument : Error
  out_of_range : Error

-- `arg.size() > 0 and arg[0] == '-'`
abbrev pub dashed : Text → Bool
dashed [] = false
dashed (c ∷ s) = c == b'-'

abbrev pub no_path : FalsePath
no_path = record { from_pin = []; to_pin = []; through_pin = [] }

-- The loop of `SetFalsePath::execute`. An option with a value is one only if an argument follows.
unfoldable pub false_path_args : List Text → FalsePath → Result Error FalsePath
false_path_args [] p = ok p
false_path_args (arg ∷ []) p =
    if text_eq arg (codes "-quiet")
    then ok p
    else if dashed arg
    then err (unknown_option arg)
    else ok p
false_path_args (arg ∷ value ∷ args) p =
    let quiet = false_path_args (value ∷ args) p in
    let from = false_path_args args (record p { from_pin = value }) in
    let to = false_path_args args (record p { to_pin = value }) in
    let through = false_path_args args (record p { through_pin = value }) in
    if text_eq arg (codes "-quiet")
    then quiet
    else if text_eq arg (codes "-from")
    then from
    else if text_eq arg (codes "-to")
    then to
    else if text_eq arg (codes "-through")
    then through
    else if dashed arg
    then err (unknown_option arg)
    else ok p

module _ {F : Type 0} where
  unfoldable pub set_false_path : Bool → List Text → SdcWriter F → Result Error (SdcWriter F)
  set_false_path false args w = err no_top_module
  set_false_path true args w = do path ← false_path_args args no_path; ok (add_false_path w path)

-- `std::stof` throws for a text that is not a number.
abbrev pub read_delay : {F : Type 0} → TimingPath F → Option F → Result Error (TimingPath F)
read_delay p none = err invalid_argument
read_delay p (some delay) = ok (record p { max_delay = delay })

module _ {F : Type 0} (zero_float : F) (stof : Text → Option F) where
  abbrev positional : Text → TimingPath F → Result Error (TimingPath F)
  positional arg p = read_delay p (stof arg)

  -- The loop of `SetMaxDelay::execute`, which goes on after a positional argument.
  unfoldable pub max_delay_args : List Text → TimingPath F → Result Error (TimingPath F)
  max_delay_args [] p = ok p
  max_delay_args (arg ∷ []) p =
      if text_eq arg (codes "-quiet")
      then ok p
      else if dashed arg
      then err (unknown_option arg)
      else positional arg p
  max_delay_args (arg ∷ value ∷ args) p =
      let quiet = max_delay_args (value ∷ args) p in
      let from = max_delay_args args (record p { from_pin = value }) in
      let to = max_delay_args args (record p { to_pin = value }) in
      let number = positional arg p >>= (λ p'. max_delay_args (value ∷ args) p') in
      if text_eq arg (codes "-quiet")
      then quiet
      else if text_eq arg (codes "-from")
      then from
      else if text_eq arg (codes "-to")
      then to
      else if dashed arg
      then err (unknown_option arg)
      else number

  unfoldable pub set_max_delay_command : Bool → List Text → SdcWriter F → Result Error (SdcWriter F)
  set_max_delay_command false args w = err no_top_module
  set_max_delay_command true args w = do
    path ← max_delay_args args (record { from_pin = []; to_pin = []; max_delay = zero_float })
    ok (set_max_delay w path)

-- `find_if` over the map of names, with `arg.substr(1)`.
abbrev pub relation_named : Text → List (ClockGroupRelation × Text) → Option ClockGroupRelation
relation_named name [] = none
relation_named name ((r, n) ∷ m) = if text_eq name n then some r else relation_named name m

-- `while (argidx + 1 < args.size() and args[argidx + 1][0] != '-')`
unfoldable pub take_group : List Text → ClockGroup × List Text
take_group [] = ([], [])
take_group (arg ∷ args) =
    let (group, rest) = take_group args in
    if dashed arg then ([], arg ∷ args) else (arg ∷ group, rest)

pub record GroupArgs : Type 0 where
  pub groups : List ClockGroup
  pub relation : ClockGroupRelation

abbrev pub no_arguments : List Text → Bool
no_arguments [] = true
no_arguments (a ∷ as') = false

-- The loop of `SetClockGroups::execute`, on fuel for the arguments; `substr` throws on an empty
-- argument.
unfoldable pub group_args : ℕ → List Text → GroupArgs → Result Error GroupArgs
group_args fuel [] s = ok s
group_args ℕ.zero (arg ∷ args) s = ok s
group_args (ℕ.suc fuel) ([] ∷ args) s = err out_of_range
group_args (ℕ.suc fuel) ((c ∷ name) ∷ args) s =
    let arg = c ∷ name in
    let quiet = group_args fuel args s in
    let (group, rest) = take_group args in
    let grouped = group_args fuel rest (record s { groups = s.groups ++ group ∷ [] }) in
    let other =
      if text_eq arg (codes "-group")
      then (if no_arguments args then err (unknown_option arg) else grouped)
      else if dashed arg
      then err (unknown_option arg)
      else ok s in
    if text_eq arg (codes "-quiet") then quiet else elim (relation_named name relation_name_map) [
      | some r ↦ group_args fuel args (record s { relation = r })
      | none ↦ other
    ]

module _ {F : Type 0} where
  unfoldable pub add_groups : List ClockGroup → ClockGroupRelation → SdcWriter F → SdcWriter F
  add_groups [] r w = w
  add_groups (g ∷ gs) r w = add_groups gs r (add_clock_group w g r)

  unfoldable pub set_clock_groups : Bool → List Text → SdcWriter F → Result Error (SdcWriter F)
  set_clock_groups false args w = err no_top_module
  set_clock_groups true args w = do
    s ← group_args (length args) args (record { groups = []; relation = unrelated })
    ok (add_groups s.groups s.relation w)
