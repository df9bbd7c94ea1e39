-- ===== src/Sdc/Writer.antt =====
-- sdc-plugin/sdc_writer.{h,cc}: the constraints that were added, and how they are written. The
-- clocks of the design are written before them, from the netlist.
use yosys_quicklogic_plugins.Base.{
  String, Bool, true, false, Option, none, some, List, [], ◌∷◌, ◌++◌, Text, codes, is_empty,
  if◌then◌else◌,
}
use yosys_quicklogic_plugins.Base.Options.{◌>>=◌}

pub record FalsePath : Type 0 where
  pub from_pin : Text
  pub to_pin : Text
  pub through_pin : Text

-- `float` is a parameter of the model.
pub record TimingPath (F : Type 0) : Type 0 where
  pub from_pin : Text
  pub to_pin : Text
  pub max_delay : F

-- The enum, its size included.
pub data ClockGroupRelation : Type 0 where
  unrelated asynchronous physically_exclusive logically_exclusive relation_size : ClockGroupRelation

abbrev pub ClockGroup : Type 0
ClockGroup = List Text

-- `relation_name_map`
abbrev pub relation_name_map : List (ClockGroupRelation × Text)
relation_name_map =
    (unrelated, [])
    ∷ (asynchronous, codes "asynchronous")
    ∷ (physically_exclusive, codes "physically_exclusive")
    ∷ (logically_exclusive, codes "logically_exclusive")
    ∷ []

abbrev pub relation_eq : ClockGroupRelation → ClockGroupRelation → Bool
relation_eq unrelated unrelated = true
relation_eq asynchronous asynchronous = true
relation_eq physically_exclusive physically_exclusive = true
relation_eq logically_exclusive logically_exclusive = true
relation_eq relation_size relation_size = true
relation_eq _ _ = false

-- `relation_name_map.at`, which throws for a key that is not in the map
abbrev pub name_at : ClockGroupRelation → List (ClockGroupRelation × Text) → Option Text
name_at r [] = none
name_at r ((k, name) ∷ m) = if relation_eq k r then some name else name_at r m

-- `groups_`: no entry and an empty list are the same to every user of the map.
abbrev pub ClockGroups : Type 0
ClockGroups = ClockGroupRelation → List ClockGroup

unfoldable pub add_group : ClockGroups → ClockGroup → ClockGroupRelation → ClockGroups
add_group groups group relation r =
    if relation_eq relation r then groups r ++ group ∷ [] else groups r

pub record SdcWriter (F : Type 0) : Type 0 where
  pub false_paths : List FalsePath
  pub timing_paths : List (TimingPath F)
  pub clock_groups : ClockGroups

module _ {F : Type 0} where
  unfoldable pub add_false_path : SdcWriter F → FalsePath → SdcWriter F
  add_false_path w p = record w { false_paths = w.false_paths ++ p ∷ [] }

  unfoldable pub set_max_delay : SdcWriter F → TimingPath F → SdcWriter F
  set_max_delay w p = record w { timing_paths = w.timing_paths ++ p ∷ [] }

  unfoldable pub add_clock_group : SdcWriter F → ClockGroup → ClockGroupRelation → SdcWriter F
  unfolding add_group
  add_clock_group w group relation = record w {
    clock_groups = add_group w.clock_groups group relation;
  }

abbrev pub option_text : String → Text → Text
option_text option value = if is_empty value then [] else codes option ++ value

abbrev pub endl : Text
endl = codes "\n"

unfoldable pub false_path_line : FalsePath → Text
false_path_line p =
    codes "set_false_path"
    ++ (option_text " -from " p.from_pin
        ++ (option_text " -through " p.through_pin ++ option_text " -to " p.to_pin))

unfoldable pub write_false_paths : List FalsePath → Text
write_false_paths [] = []
write_false_paths (p ∷ ps) = false_path_line p ++ (endl ++ write_false_paths ps)

module _ {F : Type 0} (show_float : F → Text) where
  unfoldable pub max_delay_line : TimingPath F → Text
  max_delay_line p =
      codes "set_max_delay "
      ++ (show_float p.max_delay
          ++ (option_text " -from " p.from_pin ++ option_text " -to " p.to_pin))

  unfoldable pub write_max_delay : List (TimingPath F) → Text
  write_max_delay [] = []
  write_max_delay (p ∷ ps) = max_delay_line p ++ (endl ++ write_max_delay ps)

unfoldable pub signals_text : List Text → Text
signals_text [] = []
signals_text (s ∷ ss) = s ++ (codes " " ++ signals_text ss)

unfoldable pub groups_text : List ClockGroup → Text
unfolding signals_text
groups_text [] = []
groups_text (g ∷ gs) = codes "-group " ++ (signals_text g ++ groups_text gs)

abbrev pub relation_text : ClockGroupRelation → Option Text
relation_text r =
    if relation_eq r unrelated
    then some []
    else (do name ← name_at r relation_name_map; some (codes "-" ++ name))

abbrev pub no_groups : List ClockGroup → Bool
no_groups [] = true
no_groups (g ∷ gs) = false

-- One round of the loop; `none` is the exception of `at`.
unfoldable pub clock_group_line : List ClockGroup → ClockGroupRelation → Option Text
clock_group_line gs r = if no_groups gs then some [] else (do
  option ← relation_text r
  some (codes "create_clock_groups " ++ (groups_text gs ++ (option ++ endl))))

-- The relations from 0 up to and with `CLOCK_GROUP_RELATION_SIZE`.
abbrev pub relations : List ClockGroupRelation
relations =
    unrelated ∷ asynchronous ∷ physically_exclusive ∷ logically_exclusive ∷ relation_size ∷ []

unfoldable pub write_clock_groups : ClockGroups → List ClockGroupRelation → Option Text
write_clock_groups groups [] = some []
write_clock_groups groups (r ∷ rs) = do
  line ← clock_group_line (groups r) r
  rest ← write_clock_groups groups rs
  some (line ++ rest)
