-- ===== src/Dsp/Rules/Collect.antt =====
-- dsp-ff-plugin/dsp_ff.cc, `load_rules`: the maps that are made of the lists of types.
use yosys_quicklogic_plugins.Base.{
  ◌≡◌, refl, sym, ap, ◌∙◌, inl, inr, Bool, true, false, Option, none, some, List, [], ◌∷◌, Text,
  text_eq, Bool-cases, if◌then◌else◌,
}
use yosys_quicklogic_plugins.Base.Maps.{
  lookup, insert, contains, lookup-insert, contains-lookup, lookup-contains,
}
use yosys_quicklogic_plugins.Base.Results.{ok, err, ◌>>=◌, Holds, Holds-bind}
use yosys_quicklogic_plugins.Dsp.Rules.{IdString, Dict, Consts, DspType}
use yosys_quicklogic_plugins.Dsp.Rules.Fields.{Error, duplicated_dsp}
use yosys_quicklogic_plugins.Dsp.Rules.Lines.{collect_dsps}

module _ {C : Type 0} where
  -- The type of a name in a list that has the back first, if the list has one.
  unfoldable pub dsp_named : Text → List (DspType C) → Option (DspType C)
  dsp_named k [] = none
  dsp_named k (d ∷ older) = if text_eq d.name k then some d else dsp_named k older

  abbrev pub or_else : Option (DspType C) → Option (DspType C) → Option (DspType C)
  or_else (some d) o = some d
  or_else none o = o

  -- What the types and the map that was there before are collected to.
  abbrev pub IsCollected : List (DspType C) → Dict (DspType C) → Dict (DspType C) → Type 0
  IsCollected ds m m' = (k : Text) → lookup k m' ≡ or_else (dsp_named k ds) (lookup k m)

  -- No name stands twice in the list, and none stands in the map.
  abbrev pub Fresh : List (DspType C) → Dict (DspType C) → Type 0
  Fresh [] m = Unit
  Fresh (d ∷ older) m = (dsp_named d.name older ≡ none) × (lookup d.name m ≡ none) × Fresh older m

  if-or_else :
      (b : Bool) (d : DspType C) (o rest : Option (DspType C))
      → (if b then some d else or_else o rest) ≡ or_else (if b then some d else o) rest
  if-or_else true d o rest = refl
  if-or_else false d o rest = refl

  or_else-none : (o rest : Option (DspType C)) → or_else o rest ≡ none → (o ≡ none) × (rest ≡ none)
  or_else-none none rest h = (refl, h)
  or_else-none (some d) rest h = absurd (cc h)

  insert-IsCollected :
      (d : DspType C) (older : List (DspType C)) (m m' : Dict (DspType C))
      → IsCollected older m m'
      → IsCollected (d ∷ older) m (insert d.name d m')
  unfolding dsp_named
  insert-IsCollected d older m m' h k =
      lookup-insert d.name k d m'
      ∙ ap (λ o. if text_eq d.name k then some d else o) (h k)
      ∙ if-or_else (text_eq d.name k) d (dsp_named k older) (lookup k m)

  module _ (escape_id : Text → IdString) (K : Consts C) where
    collect_next-Fresh :
        (d : DspType C) (older : List (DspType C)) (m m' : Dict (DspType C))
        → Fresh older m
        → IsCollected older m m'
        → Holds {E = Error}
            (λ n. Fresh (d ∷ older) m × IsCollected (d ∷ older) m n)
            (if contains d.name m' then err duplicated_dsp else ok (insert d.name d m'))
    collect_next-Fresh d older m m' fresh h = elim (Bool-cases (contains d.name m')) [
      | inl e ↦ rw e tt
      | inr e ↦ rw e (
          let (named, old) = or_else-none _ _ (sym (h d.name) ∙ contains-lookup d.name m' e) in
          ((named, old, fresh), insert-IsCollected d older m m' h))
    ]

    -- A list of types is collected only if no name stands twice in it and none in the map that was
    -- there before, and then every name is looked up as its type in the list, or else as before.
    pub collect_dsps-IsCollected :
        (ds : List (DspType C)) (m : Dict (DspType C))
        → Holds (λ m'. Fresh ds m × IsCollected ds m m') (collect_dsps escape_id K ds m)
    unfolding collect_dsps dsp_named
    collect_dsps-IsCollected [] m = (tt, λ k. refl)
    collect_dsps-IsCollected (d ∷ older) m =
        Holds-bind (λ m'. Fresh older m × IsCollected older m m')
          (λ m'. Fresh (d ∷ older) m × IsCollected (d ∷ older) m m')
          (collect_dsps escape_id K older m) _ (collect_dsps-IsCollected older m)
          (λ m' (fresh, h). collect_next-Fresh d older m m' fresh h)

    -- A list of types in which no name stands twice, and none that is in the map, is collected.
    pub Fresh-collect_dsps :
        (ds : List (DspType C)) (m : Dict (DspType C))
        → Fresh ds m
        → (m' : Dict (DspType C)) × (collect_dsps escape_id K ds m ≡ ok m') × IsCollected ds m m'
    unfolding collect_dsps dsp_named
    Fresh-collect_dsps [] m h = (m, refl, λ k. refl)
    Fresh-collect_dsps (d ∷ older) m (named, old, fresh) =
        let (m', e, h) = Fresh-collect_dsps older m fresh in
        let absent = lookup-contains d.name m' (h d.name ∙ rw (named, old) refl) in
        (
          insert d.name d m',
          ap
                (λ r. r >>= (λ n.
                  if contains d.name n then err duplicated_dsp else ok (insert d.name d n)))
                e
              ∙ rw absent refl,
          insert-IsCollected d older m m' h,
        )
