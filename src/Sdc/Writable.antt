-- ===== src/Sdc/Writable.antt =====
-- Whether the exception of `relation_name_map.at` in `WriteClockGroups` can be met.
use mathlib.Core.Path.{subst}
use yosys_quicklogic_plugins.Base.{
  ℕ, zero, suc, ◌≡◌, ◌≢◌, refl, ap, ◌∙◌, inl, inr, Bool, true, false, Option, some, none, List, [],
  ◌∷◌, ◌++◌, Bool, Text, codes, text_eq, All, Option-cases, length, if◌then◌else◌,
}
use yosys_quicklogic_plugins.Base.Results.{Holds, Holds-if, Holds-bind, Holds-any}
use yosys_quicklogic_plugins.Base.Options.{◌>>=◌}
use yosys_quicklogic_plugins.Sdc.Writer.{
  ClockGroup, ClockGroupRelation, relation_size, unrelated, asynchronous, physically_exclusive,
  logically_exclusive, relation_name_map, relation_eq, SdcWriter, write_clock_groups,
  clock_group_line, ClockGroups, add_false_path, set_max_delay,
}
use yosys_quicklogic_plugins.Sdc.Commands.{
  err, set_false_path, set_max_delay_command, set_clock_groups, group_args, GroupArgs,
  relation_named, take_group, no_arguments, unknown_option, dashed, max_delay_args, false_path_args,
  no_path,
}
use yosys_quicklogic_plugins.Sdc.Script.{run_words, run_commands}
use yosys_quicklogic_plugins.Sdc.Groups.{clock_groups-add_groups}

-- The size of the enum is not used as a relation.
abbrev IsNamed : GroupArgs → Type 0
IsNamed s = s.relation ≢ relation_size

abbrev Known : Option ClockGroupRelation → Type 0
Known none = Unit
Known (some r) = r ≢ relation_size

Known-if :
    (b : Bool) (r : ClockGroupRelation) (o : Option ClockGroupRelation)
    → r ≢ relation_size
    → Known o
    → Known (if b then some r else o)
Known-if true r o h ho = h
Known-if false r o h ho = ho

relation_named-Known :
    (name : Text) (m : List (ClockGroupRelation × Text))
    → All (λ entry. entry.0 ≢ relation_size) m
    → Known (relation_named name m)
relation_named-Known name [] h = tt
relation_named-Known name ((r, n) ∷ m) (h, hs) =
    Known-if (text_eq name n) r (relation_named name m) h (relation_named-Known name m hs)

relation_name_map-Known : All (λ entry. entry.0 ≢ relation_size) relation_name_map
relation_name_map-Known = ((λ e. cc), ((λ e. cc), ((λ e. cc), ((λ e. cc), tt))))

group_args-IsNamed :
    (fuel : ℕ) (args : List Text) (s : GroupArgs)
    → IsNamed s
    → Holds IsNamed (group_args fuel args s)
unfolding group_args
group_args-IsNamed fuel [] s h = h
group_args-IsNamed zero (arg ∷ args) s h = h
group_args-IsNamed (suc fuel) ([] ∷ args) s h = tt
group_args-IsNamed (suc fuel) ((c ∷ name) ∷ args) s h =
    elim (Option-cases (relation_named name relation_name_map)) [
      | inl e ↦ rw e (
          Holds-if IsNamed (text_eq (c ∷ name) (codes "-quiet")) _ _
            (group_args-IsNamed fuel args s h)
            (Holds-if IsNamed (text_eq (c ∷ name) (codes "-group")) _ _
              (Holds-if IsNamed (no_arguments args) (err (unknown_option (c ∷ name))) _ tt (
                group_args-IsNamed fuel (take_group args).1
                  (record s { groups = s.groups ++ (take_group args).0 ∷ [] }) h))
              (Holds-if IsNamed (dashed (c ∷ name)) _ _ tt h)))
      | inr (r, e) ↦ rw e (
          Holds-if IsNamed (text_eq (c ∷ name) (codes "-quiet")) _ _
            (group_args-IsNamed fuel args s h)
            (group_args-IsNamed fuel args _ (
              subst Known e (relation_named-Known name relation_name_map relation_name_map-Known))))
    ]

clock_group_line-some :
    (gs : List ClockGroup) (r : ClockGroupRelation)
    → (r ≡ relation_size → gs ≡ [])
    → (line : Text) × (clock_group_line gs r ≡ some line)
unfolding clock_group_line
clock_group_line-some [] r h = (_, refl)
clock_group_line-some (g ∷ gs) unrelated h = (_, refl)
clock_group_line-some (g ∷ gs) asynchronous h = (_, refl)
clock_group_line-some (g ∷ gs) physically_exclusive h = (_, refl)
clock_group_line-some (g ∷ gs) logically_exclusive h = (_, refl)
clock_group_line-some (g ∷ gs) relation_size h = let e = h refl in cc

pub write_clock_groups-some :
    (groups : ClockGroups) (rs : List ClockGroupRelation)
    → groups relation_size ≡ []
    → (text : Text) × (write_clock_groups groups rs ≡ some text)
unfolding write_clock_groups
write_clock_groups-some groups [] h = (_, refl)
write_clock_groups-some groups (r ∷ rs) h =
    let (line, e) = clock_group_line-some (groups r) r (λ er. ap groups er ∙ h) in
    let (rest, er) = write_clock_groups-some groups rs h in
    (
      line ++ rest,
      ap (λ m. m >>= (λ l. write_clock_groups groups rs >>= (λ t. some (l ++ t)))) e
          ∙ ap (λ m. m >>= (λ t. some (line ++ t))) er,
    )

relation_eq-size :
    (r : ClockGroupRelation) → r ≢ relation_size → relation_eq r relation_size ≡ false
relation_eq-size unrelated h = refl
relation_eq-size asynchronous h = refl
relation_eq-size physically_exclusive h = refl
relation_eq-size logically_exclusive h = refl
relation_eq-size relation_size h = absurd (h refl)

module _ {F : Type 0} (zero_float : F) (stof : Text → Option F) where
  abbrev pub IsWritable : SdcWriter F → Type 0
  IsWritable w = w.clock_groups relation_size ≡ []

  set_clock_groups-IsWritable :
      (args : List Text) (w : SdcWriter F)
      → IsWritable w
      → Holds IsWritable (set_clock_groups true args w)
  unfolding set_clock_groups
  set_clock_groups-IsWritable args w h =
      Holds-bind IsNamed IsWritable
        (group_args (length args) args (record { groups = []; relation = unrelated })) _
        (group_args-IsNamed (length args) args _ (λ e. cc))
        (λ s hs.
          (clock_groups-add_groups s.groups s.relation w).0 relation_size
          ∙ rw (relation_eq-size s.relation hs) h)

  set_false_path-IsWritable :
      (args : List Text) (w : SdcWriter F)
      → IsWritable w
      → Holds IsWritable (set_false_path true args w)
  unfolding set_false_path add_false_path
  set_false_path-IsWritable args w h =
      Holds-bind (λ p. Unit) IsWritable (false_path_args args no_path) _ (Holds-any _) (λ p hp. h)

  set_max_delay-IsWritable :
      (args : List Text) (w : SdcWriter F)
      → IsWritable w
      → Holds IsWritable (set_max_delay_command zero_float stof true args w)
  unfolding set_max_delay_command set_max_delay
  set_max_delay-IsWritable args w h =
      Holds-bind (λ p. Unit) IsWritable (max_delay_args zero_float stof args _) _ (Holds-any _)
        (λ p hp. h)

  run_words-IsWritable :
      (ws : List Text) (w : SdcWriter F)
      → IsWritable w
      → Holds IsWritable (run_words zero_float stof ws w)
  unfolding run_words
  run_words-IsWritable [] w h = h
  run_words-IsWritable (name ∷ args) w h =
      Holds-if IsWritable (text_eq name (codes "set_false_path")) _ _
        (set_false_path-IsWritable args w h)
        (Holds-if IsWritable (text_eq name (codes "set_max_delay")) _ _
          (set_max_delay-IsWritable args w h)
          (Holds-if IsWritable (text_eq name (codes "set_clock_groups")) _ _
            (set_clock_groups-IsWritable args w h) tt))

  pub run_commands-IsWritable :
      (commands : List (List Text)) (w : SdcWriter F)
      → IsWritable w
      → Holds IsWritable (run_commands zero_float stof commands w)
  unfolding run_commands
  run_commands-IsWritable [] w h = h
  run_commands-IsWritable (words ∷ commands) w h =
      Holds-bind IsWritable IsWritable (run_words zero_float stof words w) _
        (run_words-IsWritable words w h) (λ w' hw. run_commands-IsWritable commands w' hw)
