-- ===== src/Dsp/Rules/Load.antt =====
-- dsp-ff-plugin/dsp_ff.cc, `load_rules`: what a file that is accepted gives.
use mathlib.Core.Path.{subst}
use yosys_quicklogic_plugins.Base.{
  ℕ, zero, suc, ◌≡◌, refl, sym, ◌∙◌, inl, inr, Option, none, some, List, [], ◌∷◌, Text, text_eq,
  text_eq_iff, All, Bool-cases, length,
}
use yosys_quicklogic_plugins.Base.Maps.{lookup}
use yosys_quicklogic_plugins.Base.Streams.{Stream, open_stream}
use yosys_quicklogic_plugins.Base.Results.{Result, Holds, Holds-bind, Holds-any}
use yosys_quicklogic_plugins.Dsp.Rules.{IdString, Dict, Consts, DspType}
use yosys_quicklogic_plugins.Dsp.Rules.Tokens.{next_line}
use yosys_quicklogic_plugins.Dsp.Rules.Fields.{Error}
use yosys_quicklogic_plugins.Dsp.Rules.Loader.{Loader}
use yosys_quicklogic_plugins.Dsp.Rules.Lines.{
  collect_dsps, collect_flops, load_rules, load_lines, load_next, new_loader, load_line,
}
use yosys_quicklogic_plugins.Dsp.Rules.Shape.{GoodDsp, IsSound, outside}
use yosys_quicklogic_plugins.Dsp.Rules.Invariant.{load_line-IsSound}
use yosys_quicklogic_plugins.Dsp.Rules.Collect.{
  dsp_named, or_else, IsCollected, Fresh, collect_dsps-IsCollected,
}

or_else-right : {C : Type 0} (o : Option (DspType C)) → or_else o none ≡ o
or_else-right none = refl
or_else-right (some d) = refl

-- Every type in the map is good and stands under its own name.
abbrev pub GoodMap : {C : Type 0} → Dict (DspType C) → Type 0
GoodMap {C} m = (k : Text) (d : DspType C) → lookup k m ≡ some d → GoodDsp d × (d.name ≡ k)

abbrev Named : {C : Type 0} → Text → Option (DspType C) → Type 0
Named k none = Unit
Named k (some d) = GoodDsp d × (d.name ≡ k)

dsp_named-Named :
    {C : Type 0} (k : Text) (ds : List (DspType C)) → All GoodDsp ds → Named k (dsp_named k ds)
unfolding dsp_named
dsp_named-Named k [] h = tt
dsp_named-Named k (d ∷ older) (h, hs) = elim (Bool-cases (text_eq d.name k)) [
  | inl same ↦ rw same (h, (text_eq_iff d.name k).0 same)
  | inr other ↦ rw other (dsp_named-Named k older hs)
]

module _ {C : Type 0} (escape_id : Text → IdString) (K : Consts C) where
  load_next-IsSound :
      (continue : Stream → Loader C → Result Error (Loader C)) (o : Option (Text × Stream))
      (s : Loader C)
      → ((file : Stream) (s' : Loader C) → IsSound s' → Holds IsSound (continue file s'))
      → IsSound s
      → Holds IsSound (load_next escape_id K continue o s)
  load_next-IsSound continue none s hc h = h
  load_next-IsSound continue (some (line, file)) s hc h =
      Holds-bind IsSound IsSound (load_line escape_id K line s) _
        (load_line-IsSound escape_id K line s h) (λ s' h'. hc file s' h')

  load_lines-IsSound :
      (fuel : ℕ) (file : Stream) (s : Loader C)
      → IsSound s
      → Holds IsSound (load_lines escape_id K fuel file s)
  unfolding load_lines
  load_lines-IsSound zero file s h = h
  load_lines-IsSound (suc fuel) file s h =
      load_next-IsSound (load_lines escape_id K fuel) (next_line file) s
        (λ file' s' h'. load_lines-IsSound fuel file' s' h') h

  pub new_loader-IsSound : IsSound (new_loader escape_id K)
  new_loader-IsSound = record { shape = outside refl; dsps = tt; port = tt }

  IsCollected-GoodMap :
      (ds : List (DspType C)) (m : Dict (DspType C))
      → All GoodDsp ds
      → IsCollected ds [] m
      → GoodMap m
  unfolding lookup
  IsCollected-GoodMap ds m hs h k d e =
      subst (Named k) (sym (or_else-right (dsp_named k ds)) ∙ sym (h k) ∙ e)
        (dsp_named-Named k ds hs)

  -- Every type in the map of DSPs that a file gives stands under its own name, has a port in each of
  -- its registers, and has only ranges of bits from low to high within an `int`.
  pub load_rules-GoodMap :
      (content : Text) → Holds (λ maps. GoodMap maps.0) (load_rules escape_id K content [] [])
  unfolding load_rules
  load_rules-GoodMap content =
      Holds-bind IsSound (λ maps. GoodMap maps.0)
        (load_lines escape_id K (suc (length content)) (open_stream content)
          (new_loader escape_id K))
        _ (load_lines-IsSound (suc (length content)) (open_stream content) _ new_loader-IsSound)
        (λ s h.
          Holds-bind (λ m. Fresh s.dsp_types [] × IsCollected s.dsp_types [] m)
            (λ maps. GoodMap maps.0) (collect_dsps escape_id K s.dsp_types []) _
            (collect_dsps-IsCollected escape_id K s.dsp_types [])
            (λ m (fresh, c).
              Holds-bind (λ f. Unit) (λ maps. GoodMap maps.0)
                (collect_flops escape_id K s.flop_types []) _ (Holds-any _)
                (λ f hf. IsCollected-GoodMap s.dsp_types m h.dsps c)))
