-- ===== src/Sdc/Groups.antt =====
-- What `SetClockGroups::execute` adds to the writer.
use yosys_quicklogic_plugins.Base.{
  ◌≡◌, refl, sym, ◌∙◌, Bool, true, false, List, [], ◌∷◌, ◌++◌, append-nil, append_assoc,
  if◌then◌else◌,
}
use yosys_quicklogic_plugins.Sdc.Writer.{
  ClockGroupRelation, ClockGroup, SdcWriter, add_group, add_clock_group, relation_eq,
}
use yosys_quicklogic_plugins.Sdc.Commands.{add_groups}

if-nil : (b : Bool) (old : List ClockGroup) → old ≡ (if b then old ++ [] else old)
if-nil true old = sym (append-nil old)
if-nil false old = refl

if-cons :
    (b : Bool) (old : List ClockGroup) (g : ClockGroup) (gs : List ClockGroup)
    → (let added = if b then old ++ g ∷ [] else old in if b then added ++ gs else added)
      ≡ (if b then old ++ g ∷ gs else old)
if-cons true old g gs = append_assoc old (g ∷ []) gs
if-cons false old g gs = refl

module _ {F : Type 0} where
  -- Adding groups under a relation puts them behind the groups of that relation and leaves the
  -- groups of every other relation, the false paths and the delays as they were.
  pub clock_groups-add_groups :
      (gs : List ClockGroup) (r : ClockGroupRelation) (w : SdcWriter F)
      → ((q : ClockGroupRelation)
          → (add_groups gs r w).clock_groups q
            ≡ (if relation_eq r q then w.clock_groups q ++ gs else w.clock_groups q))
        × ((add_groups gs r w).false_paths ≡ w.false_paths)
        × ((add_groups gs r w).timing_paths ≡ w.timing_paths)
  unfolding add_groups add_clock_group add_group
  clock_groups-add_groups [] r w = ((λ q. if-nil (relation_eq r q) (w.clock_groups q)), refl, refl)
  clock_groups-add_groups (g ∷ gs) r w =
      let (groups, paths, delays) = clock_groups-add_groups gs r (add_clock_group w g r) in
      ((λ q. groups q ∙ if-cons (relation_eq r q) (w.clock_groups q) g gs), paths, delays)
