-- ===== src/Sdc/CreateClock.antt =====
-- sdc-plugin/sdc.cc, `CreateClockCmd`: the arguments of `create_clock`, and the clocks it adds. The
-- selection of wires by the arguments that are left is a parameter.
use yosys_quicklogic_plugins.Base.{
  ℕ, suc, ◌≡◌, ◌≢◌, refl, ap, ◌∙◌, Bool, true, false, Option, none, some, List, [], ◌∷◌, ◌++◌, map,
  Text, codes, text_eq, length, ltb, is_empty, All, arith, if◌then◌else◌,
}
use yosys_quicklogic_plugins.Base.Results.{Result, ok, err, ◌>>=◌}
use yosys_quicklogic_plugins.Sdc.Clocks.{Wires, Floats, explicit, add_clocks, wire_name}
use yosys_quicklogic_plugins.Sdc.Attributes.{IsWires, IsClock, IsPrinted, add_clock-IsClock}

pub data CreateError : Type 0 where
  few_arguments : CreateError
  bad_number : CreateError
  bad_period : CreateError
  empty_selection : CreateError

pub record CreateArgs (F : Type 0) : Type 0 where
  pub name : Text
  pub period : F
  pub edges : F × F
  pub is_waveform_specified : Bool

module _ {W F : Type 0} (wires : Wires W) (floats : Floats F)
    -- `ss >> rising_edge >> falling_edge` on the text and the edges before, and `period <= 0`
    (scan_edges : Text → F × F → F × F) (not_positive : F → Bool) where
  abbrev pub new_args : CreateArgs F
  new_args = record {
    name = [];
    period = floats.zero_float;
    edges = (floats.zero_float, floats.zero_float);
    is_waveform_specified = false;
  }

  abbrev pub number_of : Option F → Result CreateError F
  number_of none = err bad_number
  number_of (some p) = ok p

  abbrev pub read_number : Text → Result CreateError F
  read_number value = number_of (floats.stof value)

  -- The loop over the options; what is left is the selection. The braces of the edges stay in the
  -- text, since the test that copies a character is true of every one.
  unfoldable pub create_args :
      List Text → CreateArgs F → Result CreateError (CreateArgs F × List Text)
  create_args [] s = ok (s, [])
  create_args (arg ∷ []) s = ok (s, arg ∷ [])
  create_args (arg ∷ value ∷ args) s =
      let add = create_args (value ∷ args) s in
      let named = create_args args (record s { name = value }) in
      let timed = read_number value >>= (λ p. create_args args (record s { period = p })) in
      let waved =
        create_args args
          (record s { edges = scan_edges value s.edges; is_waveform_specified = true }) in
      if text_eq arg (codes "-add")
      then add
      else if text_eq arg (codes "-name")
      then named
      else if text_eq arg (codes "-period")
      then timed
      else if text_eq arg (codes "-waveform")
      then waved
      else ok (s, arg ∷ value ∷ args)

  -- `AddWirePrefix`
  abbrev pub add_wire_prefix : List Text → List Text
  add_wire_prefix args = map (λ w. codes "w:" ++ w) args

  abbrev pub edges_of : CreateArgs F → F × F
  edges_of s =
      if s.is_waveform_specified then s.edges else (floats.zero_float, floats.half s.period)

  unfoldable pub add_to : CreateArgs F → List W → Result CreateError (List W)
  unfolding add_clocks
  add_to s [] = err empty_selection
  add_to s (w ∷ ws) =
      let name = if is_empty s.name then wires.name_of w else s.name in
      ok (add_clocks wires floats name (w ∷ ws) s.period (edges_of s).0 (edges_of s).1 explicit)

  -- What is done with the options and the arguments that are left.
  unfoldable pub add_selected :
      (List Text → List W) → CreateArgs F × List Text → Result CreateError (List W)
  unfolding add_to
  add_selected select (s, left) =
      if not_positive s.period then err bad_period else add_to s (select (add_wire_prefix left))

  -- `CreateClockCmd::execute`, behind the command's name: the selected wires as they are then.
  unfoldable pub create_clock : (List Text → List W) → List Text → Result CreateError (List W)
  unfolding create_args add_selected
  create_clock select args =
      if ltb (length args) 3
      then err few_arguments
      else (create_args args new_args >>= add_selected select)

  -- A target that is not taken for an option.
  pub record IsTarget (t : Text) : Type 0 where
    pub not_add : text_eq t (codes "-add") ≡ false
    pub not_name : text_eq t (codes "-name") ≡ false
    pub not_period : text_eq t (codes "-period") ≡ false
    pub not_waveform : text_eq t (codes "-waveform") ≡ false

  create_args-target :
      (t : Text) (ts : List Text) (s : CreateArgs F)
      → IsTarget t
      → create_args (t ∷ ts) s ≡ ok (s, t ∷ ts)
  unfolding create_args
  create_args-target t [] s h = refl
  create_args-target t (u ∷ ts) s h = rw (h.not_add, h.not_name, h.not_period, h.not_waveform) refl

  create_args-options :
      (name value : Text) (args : List Text) (p : F)
      → floats.stof value ≡ some p
      → create_args (codes "-name" ∷ name ∷ codes "-period" ∷ value ∷ args) new_args
        ≡ create_args args (record new_args { name = name; period = p })
  unfolding create_args text_eq
  create_args-options name value args p h =
      ap (λ m. m >>= (λ q. create_args args (record new_args { name = name; period = q })))
        (ap number_of h)

many_arguments : (n : ℕ) → ltb (suc (suc (suc (suc (suc n))))) 3 ≡ false
many_arguments n = ground arith

module _ {W F : Type 0} (wires : Wires W) (floats : Floats F) (laws : IsWires wires) where
  -- The second list has, in order, for each wire of the first a clock whose source is that wire.
  abbrev pub AreClocks : Text → F → F → F → List W → List W → Type 0
  AreClocks name p r f [] [] = Unit
  AreClocks name p r f (w ∷ ws) (v ∷ vs) =
      IsClock wires floats laws v name (wire_name wires floats w) p r f explicit
      × AreClocks name p r f ws vs
  AreClocks name p r f _ _ = ⊥

  add_clocks-AreClocks :
      (name : Text) (ws : List W) (p r f : F)
      → IsPrinted wires floats laws p r f
      → name ≢ []
      → All (λ w. wire_name wires floats w ≢ []) ws
      → AreClocks name p r f ws (add_clocks wires floats name ws p r f explicit)
  unfolding add_clocks
  add_clocks-AreClocks name [] p r f h hn hw = tt
  add_clocks-AreClocks name (w ∷ ws) p r f h hn (hw, hws) = (
    add_clock-IsClock wires floats laws name w p r f explicit h hn hw,
    add_clocks-AreClocks name ws p r f h hn hws,
  )

  module _ (scan_edges : Text → F × F → F × F) (not_positive : F → Bool) where
    -- `create_clock -name <name> -period <value> <targets>`, with a number above 0 and targets that
    -- select wires with names, succeeds and gives for each of the wires, in order, an explicit clock
    -- of that name and period, which has that wire as its source and rises at 0 and falls at half of
    -- the period, if these numbers are printed as they are read.
    pub create_clock-IsClock :
        (select : List Text → List W) (name value t : Text) (ts : List Text) (p : F) (w : W)
        (ws : List W)
        → name ≢ []
        → floats.stof value ≡ some p
        → not_positive p ≡ false
        → IsTarget wires floats scan_edges not_positive t
        → select (add_wire_prefix wires floats scan_edges not_positive (t ∷ ts)) ≡ w ∷ ws
        → All (λ v. wire_name wires floats v ≢ []) (w ∷ ws)
        → IsPrinted wires floats laws p floats.zero_float (floats.half p)
        → (clocks : List W) × (create_clock wires floats scan_edges not_positive select
              (codes "-name" ∷ name ∷ codes "-period" ∷ value ∷ t ∷ ts)
            ≡ ok clocks)
          × AreClocks name p floats.zero_float (floats.half p) (w ∷ ws) clocks
    unfolding create_clock add_selected add_to
    create_clock-IsClock select [] value t ts p w ws hn hv hp ht hs hw h = absurd (hn refl)
    create_clock-IsClock select (c ∷ name) value t ts p w ws hn hv hp ht hs hw h =
        let s = record (new_args wires floats scan_edges not_positive) {
          name = c ∷ name;
          period = p;
        } in
        let finish = add_selected wires floats scan_edges not_positive select in
        let parse = create_args wires floats scan_edges not_positive in
        let args = codes "-name" ∷ (c ∷ name) ∷ codes "-period" ∷ value ∷ t ∷ ts in
        (
          add_clocks wires floats (c ∷ name) (w ∷ ws) p floats.zero_float (floats.half p) explicit,
          ap
                (λ b.
                  if b
                  then err few_arguments
                  else (parse args (new_args wires floats scan_edges not_positive) >>= finish))
                (many_arguments (length ts))
              ∙ ap (λ m. m >>= finish)
                  (create_args-options wires floats scan_edges not_positive (c ∷ name) value
                      (t ∷ ts) p hv
                    ∙ create_args-target wires floats scan_edges not_positive t ts s ht)
              ∙ ap
                  (λ b.
                    if b
                    then err bad_period
                    else add_to wires floats scan_edges not_positive s
                        (select (add_wire_prefix wires floats scan_edges not_positive (t ∷ ts))))
                  hp
              ∙ ap (add_to wires floats scan_edges not_positive s) hs,
          add_clocks-AreClocks (c ∷ name) (w ∷ ws) p floats.zero_float (floats.half p) h hn hw,
        )
