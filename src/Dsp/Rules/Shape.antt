-- ===== src/Dsp/Rules/Shape.antt =====
-- dsp-ff-plugin/dsp_ff.cc, `load_rules`: what holds of the parser's state between two lines.
use mathlib.Core.Path.{subst}
use yosys_quicklogic_plugins.Base.{
  ℕ, ◌≤◌, ◌<◌, ◌^◌, ◌≡◌, ◌≢◌, refl, sym, inl, inr, Bool, Option, none, some, List, [], ◌∷◌, ◌++◌,
  Text, All, All-append, Bool-cases, ltb, ltb→lt, arith, if◌then◌else◌,
}
use yosys_quicklogic_plugins.Base.Results.{ok, err, Holds, Holds-bind}
use yosys_quicklogic_plugins.Dsp.Rules.{
  IdString, Bits, whole, range, Consts, FlopType, PortType, RegisterType, DspType, Registers,
  register_eq, add_port,
}
use yosys_quicklogic_plugins.Dsp.Rules.Tokens.{port_groups}
use yosys_quicklogic_plugins.Dsp.Rules.Fields.{
  Error, invalid_port, stoi, number, port_of, parse_port_name,
}
use yosys_quicklogic_plugins.Dsp.Rules.Loader.{
  in_dsp, in_port, in_ff, Loader, begin_dsp, end_dsp, begin_port, end_port, new_port, copies,
  copy_back, store_back, store, store_names,
}

-- The brackets of the sections, each with the type it is about at the back of its list.
pub data Shape {C : Type 0} (s : Loader C) : Type 0 where
  outside : s.tok ≡ [] → Shape s
  within_dsp :
      (d : DspType C) (ds : List (DspType C)) → s.tok ≡ in_dsp ∷ [] → s.dsp_types ≡ d ∷ ds → Shape s
  within_port :
      (d : DspType C) (ds : List (DspType C))
      → s.tok ≡ in_port ∷ in_dsp ∷ []
      → s.dsp_types ≡ d ∷ ds
      → Shape s
  within_ff :
      (f : FlopType C) (fs : List (FlopType C))
      → s.tok ≡ in_ff ∷ []
      → s.flop_types ≡ f ∷ fs
      → Shape s

-- No range, or one from low to high within an `int`.
abbrev pub GoodBits : Bits → Type 0
GoodBits whole = Unit
GoodBits (range lo hi) = (lo ≤ hi) × (hi < 2 ^ 31)

-- A register has a port, and its ports have good ranges.
abbrev pub GoodRegisters : {C : Type 0} → Registers C → Type 0
GoodRegisters rs = All (λ entry. (entry.1 ≢ []) × All (λ p. GoodBits p.bits) entry.1) rs

abbrev pub GoodDsp : {C : Type 0} → DspType C → Type 0
GoodDsp d = GoodRegisters d.registers

pub record IsSound {C : Type 0} (s : Loader C) : Type 0 where
  pub shape : Shape s
  pub dsps : All GoodDsp s.dsp_types
  pub port : GoodBits s.port_type.bits

append-ne_nil : {A : Type 0} (xs : List A) (x : A) → xs ++ x ∷ [] ≢ []
append-ne_nil [] x = λ e. cc
append-ne_nil (y ∷ xs) x = λ e. cc

add_port-GoodRegisters :
    {C : Type 0} (same : C → C → Bool) (r : RegisterType C) (p : PortType C) (rs : Registers C)
    → GoodBits p.bits
    → GoodRegisters rs
    → GoodRegisters (add_port same r p rs)
unfolding add_port
add_port-GoodRegisters same r p [] hp h = (((λ e. cc), (hp, tt)), tt)
add_port-GoodRegisters same r p ((s, ps) ∷ rs) hp ((ne, hs), h) =
    elim (Bool-cases (register_eq same s r)) [
      | inl e ↦
          rw e ((append-ne_nil ps p, All-append (λ q. GoodBits q.bits) ps (p ∷ []) hs (hp, tt)), h)
      | inr e ↦ rw e ((ne, hs), add_port-GoodRegisters same r p rs hp h)
    ]

stoi-lt : (s : Text) → Holds (λ n. n < 2 ^ 31) (stoi s)
unfolding stoi
stoi-lt s = elim (Bool-cases (ltb (number 0 s) (2 ^ 31))) [
  | inl e ↦ rw e (ltb→lt _ _ e)
  | inr e ↦ rw e tt
]

range-GoodBits :
    (name : Text) (hi lo : ℕ)
    → hi < 2 ^ 31
    → Holds {E = Error}
        (λ (groups : Text × Bits). GoodBits groups.1)
        (if ltb hi lo then err invalid_port else ok (name, range lo hi))
range-GoodBits name hi lo h = elim (Bool-cases (ltb hi lo)) [
  | inl e ↦ rw e tt
  | inr e ↦ rw e (ground arith, h)
]

port_of-GoodBits :
    (s : Text) (o : Option (Text × Text × Text)) → Holds (λ groups. GoodBits groups.1) (port_of s o)
unfolding port_of
port_of-GoodBits s none = tt
port_of-GoodBits s (some (name, hi_digits, lo_digits)) =
    Holds-bind (λ n. n < 2 ^ 31) (λ groups. GoodBits groups.1) (stoi hi_digits) _
      (stoi-lt hi_digits)
      (λ hi hh.
        Holds-bind (λ n. n < 2 ^ 31) (λ groups. GoodBits groups.1) (stoi lo_digits) _
          (stoi-lt lo_digits) (λ lo hl. range-GoodBits name hi lo hh))

parse_port_name-GoodBits : (s : Text) → Holds (λ groups. GoodBits groups.1) (parse_port_name s)
unfolding parse_port_name
parse_port_name-GoodBits s = port_of-GoodBits s (port_groups s)

-- A list with a type at its back, all of whose types are good.
abbrev Stored : {C : Type 0} → List (DspType C) → Type 0
Stored {C} ds =
    (d : DspType C) × (older : List (DspType C)) × (ds ≡ d ∷ older) × All GoodDsp (d ∷ older)

module _ {C : Type 0} (escape_id : Text → IdString) (K : Consts C) where
  store_names-GoodDsp :
      (r : RegisterType C) (p : PortType C) (names : List Text) (d : DspType C)
      → GoodDsp d
      → Holds GoodDsp (store_names escape_id K r p names d)
  unfolding store_names store
  store_names-GoodDsp r p [] d h = h
  store_names-GoodDsp r p (spec ∷ names) d h =
      Holds-bind (λ groups. GoodBits groups.1) GoodDsp (parse_port_name spec) _
        (parse_port_name-GoodBits spec)
        (λ groups hg.
          store_names-GoodDsp r p names _ (add_port-GoodRegisters K.same r _ d.registers hg h))

  -- The copies under the other names stand before the type, which is still there.
  copies-GoodDsp :
      (d : DspType C) (aliases : List IdString) (ds : List (DspType C))
      → GoodDsp d
      → All GoodDsp ds
      → All GoodDsp (copies escape_id K d aliases ds)
  unfolding copies
  copies-GoodDsp d [] ds h hs = hs
  copies-GoodDsp d (alias ∷ aliases) ds h hs = copies-GoodDsp d aliases _ h (h, hs)

  copy_back-GoodDsp :
      (aliases : List IdString) (ds : List (DspType C))
      → All GoodDsp ds
      → All GoodDsp (copy_back escape_id K aliases ds)
  copy_back-GoodDsp aliases [] h = tt
  copy_back-GoodDsp aliases (d ∷ ds) (h, hs) = copies-GoodDsp d aliases (d ∷ ds) h (h, hs)

  store_back-Stored :
      (s : Loader C) (d : DspType C) (ds : List (DspType C))
      → GoodBits s.port_type.bits
      → All GoodDsp (d ∷ ds)
      → Holds Stored (store_back escape_id K s (d ∷ ds))
  unfolding store
  store_back-Stored s d ds hp (h, hs) =
      Holds-bind GoodDsp Stored (store_names escape_id K s.register_type s.port_type s.port_names _)
        _
        (store_names-GoodDsp s.register_type s.port_type s.port_names _
          (add_port-GoodRegisters K.same s.register_type s.port_type d.registers hp h))
        (λ d' hd. (d', ds, refl, (hd, hs)))

  pub begin_dsp-IsSound :
      (args : List Text) (s : Loader C) → IsSound s → Holds IsSound (begin_dsp escape_id K args s)
  unfolding begin_dsp
  begin_dsp-IsSound [] s h = tt
  begin_dsp-IsSound (name ∷ aliases) s h = elim h.shape [
    | outside e ↦
        rw e (record { shape = within_dsp _ _ refl refl; dsps = (tt, h.dsps); port = h.port })
    | within_dsp d ds e _ ↦ rw e tt
    | within_port d ds e _ ↦ rw e tt
    | within_ff f fs e _ ↦ rw e tt
  ]

  pub end_dsp-IsSound :
      (args : List Text) (s : Loader C) → IsSound s → Holds IsSound (end_dsp escape_id K args s)
  unfolding end_dsp
  end_dsp-IsSound (arg ∷ args) s h = tt
  end_dsp-IsSound [] s h = elim h.shape [
    | outside e ↦ rw e tt
    | within_dsp d ds e ed ↦ rw e (record {
      shape = outside refl;
      dsps = copy_back-GoodDsp s.dsp_aliases s.dsp_types h.dsps;
      port = h.port;
    })
    | within_port d ds e _ ↦ rw e tt
    | within_ff f fs e _ ↦ rw e tt
  ]

  pub begin_port-IsSound :
      (args : List Text) (s : Loader C) → IsSound s → Holds IsSound (begin_port escape_id K args s)
  unfolding begin_port new_port
  begin_port-IsSound [] s h = tt
  begin_port-IsSound (spec ∷ names) s h = elim h.shape [
    | outside e ↦ rw e tt
    | within_dsp d ds e ed ↦ rw e (
        Holds-bind (λ groups. GoodBits groups.1) IsSound (parse_port_name spec) _
          (parse_port_name-GoodBits spec)
          (λ groups hg. record { shape = within_port d ds refl ed; dsps = h.dsps; port = hg }))
    | within_port d ds e _ ↦ rw e tt
    | within_ff f fs e _ ↦ rw e tt
  ]

  pub end_port-IsSound :
      (args : List Text) (s : Loader C) → IsSound s → Holds IsSound (end_port escape_id K args s)
  unfolding end_port
  end_port-IsSound (arg ∷ args) s h = tt
  end_port-IsSound [] s h = elim h.shape [
    | outside e ↦ rw e tt
    | within_dsp d ds e ed ↦ rw e tt
    | within_port d ds e ed ↦ rw e (
        Holds-bind Stored IsSound (store_back escape_id K s s.dsp_types) _
          (subst (λ t. Holds Stored (store_back escape_id K s t)) (sym ed)
            (store_back-Stored s d ds h.port (subst (All GoodDsp) ed h.dsps)))
          (λ ds' (d', older, e', good). record {
            shape = within_dsp d' older refl e';
            dsps = subst (All GoodDsp) (sym e') good;
            port = h.port;
          }))
    | within_ff f fs e _ ↦ rw e tt
  ]
