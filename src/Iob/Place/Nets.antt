-- ===== src/Iob/Place/Nets.antt =====
-- The maps that `quicklogic_iob` builds from the two files, and what an unconstrained net gets.
use yosys_quicklogic_plugins.Base.{
  ℕ, ◌≡◌, ◌≢◌, refl, sym, ap, ◌∙◌, inl, inr, Option, none, some, List, [], ◌∷◌, ◌++◌, append-nil,
  append_assoc, map, Text, codes, arith, All, text_eq, text_eq_iff, if◌then◌else◌, Bool-cases,
}
use yosys_quicklogic_plugins.Base.Maps.{
  lookup, contains, emplace, lookup-insert, lookup-emplace, contains-lookup, lookup-contains,
  Distinct,
}
use yosys_quicklogic_plugins.Iob.Pinmap.{Entry}
use yosys_quicklogic_plugins.Iob.Pcf.{Constraint}
use yosys_quicklogic_plugins.Iob.Spec.{IoCellType}
use yosys_quicklogic_plugins.Iob.Place.{
  Result, ok, err, constrained_twice, SigBit, constant, bit, Annotation, blank, ConstraintMap,
  PinmapMap, constraint_map, entries_at, add_entry, pinmap_map, find_pad, net_names, place_bit,
  place_bits,
}

-- The constraint of a net, by a search of the list.
abbrev pub constraint_of : Text → List Constraint → Option Constraint
constraint_of n [] = none
constraint_of n (c ∷ cs) = if text_eq c.net_name n then some c else constraint_of n cs

abbrev nets : List Constraint → List Text
nets = map (λ c. c.net_name)

constraint_of-none :
    (n : Text) (cs : List Constraint) → All (λ d. n ≢ d) (nets cs) → constraint_of n cs ≡ none
constraint_of-none n [] h = refl
constraint_of-none n (c ∷ cs) (ne, h) =
    ground (arith, text_eq_iff c.net_name n, constraint_of-none n cs h)

abbrev or_else : Option Constraint → Option Constraint → Option Constraint
or_else none b = b
or_else (some a) b = some a

Fresh : ConstraintMap → List Constraint → Type 0
Fresh m cs = All (λ n. lookup n m ≡ none) (nets cs)

Fresh-emplace :
    (c : Constraint) (m : ConstraintMap) (cs : List Constraint)
    → lookup c.net_name m ≡ none
    → All (λ d. c.net_name ≢ d) (nets cs)
    → Fresh m cs
    → Fresh (emplace c.net_name c m) cs
unfolding Fresh
Fresh-emplace c m [] h new fresh = tt
Fresh-emplace c m (d ∷ ds) h (ne, new) (f, fresh) = (
  ground (arith, lookup-emplace c.net_name d.net_name c m h, text_eq_iff c.net_name d.net_name),
  Fresh-emplace c m ds h new fresh,
)

constraint_map_lem :
    (cs : List Constraint) (m : ConstraintMap)
    → Distinct (nets cs)
    → Fresh m cs
    → (m' : ConstraintMap) × (constraint_map cs m ≡ ok m')
      × ((n : Text) → lookup n m' ≡ or_else (lookup n m) (constraint_of n cs))
unfolding constraint_map Fresh
constraint_map_lem [] m distinct fresh = (m, refl, λ n. ground arith)
constraint_map_lem (c ∷ cs) m (new, distinct) (f, fresh) =
    let (m', run, at) =
      constraint_map_lem cs (emplace c.net_name c m) distinct (Fresh-emplace c m cs f new fresh) in
    (
      m',
      rw (lookup-contains c.net_name m f) run,
      λ n. ground (
        arith,
        at n,
        lookup-emplace c.net_name n c m f,
        text_eq_iff c.net_name n,
        constraint_of-none c.net_name cs new,
      ),
    )

-- If no net is constrained twice, the map is built, and it gives each net its constraint in the
-- PCF file, and no constraint to any other net.
pub constraint_map-lookup :
    (cs : List Constraint)
    → Distinct (nets cs)
    → (m : ConstraintMap) × (constraint_map cs [] ≡ ok m)
      × ((n : Text) → lookup n m ≡ constraint_of n cs)
unfolding lookup Fresh
constraint_map-lookup cs distinct = constraint_map_lem cs [] distinct (all_fresh (nets cs))
  where
    all_fresh : (ns : List Text) → All (λ n. lookup {V = Constraint} n [] ≡ none) ns
    all_fresh [] = tt
    all_fresh (n ∷ ns) = (refl, all_fresh ns)

twice_refused :
    (cs : List Constraint) (m : ConstraintMap)
    → ¬ (Distinct (nets cs) × Fresh m cs)
    → constraint_map cs m ≡ err constrained_twice
unfolding constraint_map Fresh
twice_refused [] m h = absurd (h (tt, tt))
twice_refused (c ∷ cs) m h = elim (Bool-cases (contains c.net_name m)) [
  | inl old ↦ rw old
  | inr new ↦
      let free = contains-lookup c.net_name m new in
      rw new (
        twice_refused cs (emplace c.net_name c m)
          (λ (distinct, fresh). h (back c cs m free distinct fresh)))
]
  where
    Fresh-parts :
        (c : Constraint) (ds : List Constraint) (m : ConstraintMap)
        → lookup c.net_name m ≡ none
        → Fresh (emplace c.net_name c m) ds
        → All (λ d. c.net_name ≢ d) (nets ds) × Fresh m ds
    Fresh-parts c [] m free fresh = (tt, tt)
    Fresh-parts c (d ∷ ds) m free (f, fresh) =
        let (new, old) = Fresh-parts c ds m free fresh in
        let at = lookup-emplace c.net_name d.net_name c m free in
        (
          (λ e. ground (arith, at, text_eq_iff c.net_name d.net_name), new),
          (ground (arith, at), old),
        )

    back :
        (c : Constraint) (cs : List Constraint) (m : ConstraintMap)
        → lookup c.net_name m ≡ none
        → Distinct (nets cs)
        → Fresh (emplace c.net_name c m) cs
        → Distinct (nets (c ∷ cs)) × Fresh m (c ∷ cs)
    back c cs m free distinct fresh =
        let (new, old) = Fresh-parts c cs m free fresh in ((new, distinct), (free, old))

-- If two constraints have one net, the command ends with the error "constrained twice".
pub constraint_map-twice :
    (cs : List Constraint) → ¬ (Distinct (nets cs)) → constraint_map cs [] ≡ err constrained_twice
constraint_map-twice cs h = twice_refused cs [] (λ (distinct, _). h distinct)

abbrev pub one_named : Text → Entry → Option Text → List Entry
one_named pad e none = []
one_named pad e (some n) = if text_eq n pad then e ∷ [] else []

-- The entries whose `name` column is the pad, in the order of the file.
abbrev pub named : Text → List Entry → List Entry
named pad [] = []
named pad (e ∷ es) = one_named pad e (lookup (codes "name") e) ++ named pad es

abbrev pub unless_empty : List Entry → Option (List Entry)
unless_empty [] = none
unless_empty (e ∷ es) = some (e ∷ es)

unless_empty-entries_at :
    (pad : Text) (m : PinmapMap) (l : List Entry)
    → lookup pad m ≡ unless_empty l
    → entries_at pad m ≡ l
unless_empty-entries_at pad m [] h = rw (entries_at, h)
unless_empty-entries_at pad m (e ∷ l) h = rw (entries_at, h)

unless_empty-snoc : (l : List Entry) (e : Entry) → unless_empty (l ++ e ∷ []) ≡ some (l ++ e ∷ [])
unless_empty-snoc [] e = refl
unless_empty-snoc (d ∷ l) e = refl

lookup-add_entry :
    (pad : Text) (o : Option Text) (e : Entry) (m : PinmapMap) (l : List Entry)
    → lookup pad m ≡ unless_empty l
    → lookup pad (add_entry o e m) ≡ unless_empty (l ++ one_named pad e o)
lookup-add_entry pad none e m l h = rw append-nil h
lookup-add_entry pad (some n) e m l h = elim (Bool-cases (text_eq n pad)) [
  | inl same ↦
      let here : n ≡ pad = (text_eq_iff n pad).0 same in
      lookup-insert n pad (entries_at n m ++ e ∷ []) m
      ∙ rw same (
          ap some (
            ap (λ xs. xs ++ e ∷ [])
              (ap (λ k. entries_at k m) here ∙ unless_empty-entries_at pad m l h))
          ∙ sym (unless_empty-snoc l e))
  | inr other ↦ lookup-insert n pad (entries_at n m ++ e ∷ []) m ∙ rw other (rw append-nil h)
]

pinmap_map_lem :
    (pad : Text) (es : List Entry) (m : PinmapMap) (l : List Entry)
    → lookup pad m ≡ unless_empty l
    → lookup pad (pinmap_map es m) ≡ unless_empty (l ++ named pad es)
unfolding pinmap_map
pinmap_map_lem pad [] m l h = rw append-nil h
pinmap_map_lem pad (e ∷ es) m l h =
    let o = lookup (codes "name") e in
    pinmap_map_lem pad es (add_entry o e m) (l ++ one_named pad e o)
      (lookup-add_entry pad o e m l h)
    ∙ ap unless_empty (append_assoc l (one_named pad e o) (named pad es))

-- The map of pads gives each pad the entries of the pin map with its name, in the order of the
-- file, and has no list for a pad that no entry names.
pub lookup-pinmap_map :
    (pad : Text) (es : List Entry) → lookup pad (pinmap_map es []) ≡ unless_empty (named pad es)
unfolding lookup
lookup-pinmap_map pad es = pinmap_map_lem pad es [] [] refl

module _ (unescape_id escape_id : Text → Text) (show_int : ℕ → Text) (constraints : ConstraintMap)
    (pinmap : PinmapMap) where
  -- None of the three spellings of the bit's net is constrained, if it is a bit of a top port.
  abbrev pub Unconstrained : SigBit → Type 0
  Unconstrained constant = Unit
  Unconstrained (bit w offset) =
      All (λ n. lookup n constraints ≡ none) (net_names unescape_id escape_id show_int w offset)

  find_pad-none :
      (ns : List Text)
      → All (λ n. lookup n constraints ≡ none) ns
      → find_pad constraints ns ≡ ([], [])
  unfolding find_pad
  find_pad-none [] h = refl
  find_pad-none (n ∷ ns) (h, hs) = rw (find_pad, h) (find_pad-none ns hs)

  abbrev place_one : IoCellType → SigBit → Annotation → Result Annotation
  place_one = place_bit unescape_id escape_id show_int constraints pinmap

  place_bit-blank :
      (t : IoCellType) (b : SigBit)
      → lookup [] pinmap ≡ none
      → Unconstrained b
      → place_one t b blank ≡ ok blank
  unfolding place_bit
  place_bit-blank t constant no_blank free = refl
  place_bit-blank t (bit w offset) no_blank free =
      ground
        (arith, no_blank, find_pad-none (net_names unescape_id escape_id show_int w offset) free)

  -- A cell whose bits are all unconstrained gets empty parameters, if no entry of the pin map has
  -- an empty name.
  pub place_bits-blank :
      (t : IoCellType) (bs : List SigBit)
      → lookup [] pinmap ≡ none
      → All Unconstrained bs
      → place_bits unescape_id escape_id show_int constraints pinmap t bs blank ≡ ok blank
  unfolding place_bits
  place_bits-blank t [] no_blank free = refl
  place_bits-blank t (b ∷ bs) no_blank (h, free) =
      rw (place_bit-blank t b no_blank h) (place_bits-blank t bs no_blank free)
