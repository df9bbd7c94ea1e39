-- ===== src/Dsp/Rules.antt =====
-- dsp-ff-plugin/dsp_ff.cc, `load_rules`: what the rules file describes. `RTLIL::Const` is a
-- parameter; an empty text is `RTLIL::IdString()`.
pub mod Tokens
pub mod Fields
pub mod Loader
pub mod Lines
pub mod Shape
pub mod Invariant
pub mod Collect
pub mod Reading
pub mod Load
pub mod Formats
use yosys_quicklogic_plugins.Base.{
  ℕ, Bool, true, false, List, [], Text, ◌&&◌, ◌∷◌, ◌++◌, text_eq, Option, none, some, length, ◌==◌,
  if◌then◌else◌,
}
use yosys_quicklogic_plugins.Base.Maps.{lookup}

abbrev pub IdString : Type 0
IdString = Text

-- `dict<RTLIL::IdString, V>`
abbrev pub Dict : Type 0 → Type 0
Dict V = List (IdString × V)

-- `bits`: the pair of -1 and -1, or low and high.
pub data Bits : Type 0 where
  whole : Bits
  range : ℕ → ℕ → Bits

-- What the code asks of `RTLIL::Const`: `Sx`, `from_string`, the constructor from a string, `==`.
pub record Consts (C : Type 0) : Type 0 where
  pub sx : C
  pub from_string : Text → C
  pub of_string : Text → C
  pub same : C → C → Bool

pub record FlopType (C : Type 0) : Type 0 where
  pub name : IdString
  pub ports : Dict IdString
  pub matching : List IdString
  pub required : Dict C
  pub set_params : Dict C
  pub map_params : Dict IdString

pub record PortType (C : Type 0) : Type 0 where
  pub name : IdString
  pub bits : Bits
  pub assoc : Dict (IdString × C)

pub record RegisterType (C : Type 0) : Type 0 where
  pub set_params : Dict C
  pub map_params : Dict IdString
  pub connect : Dict C

abbrev pub Registers : Type 0 → Type 0
Registers C = List (RegisterType C × List (PortType C))

pub record DspType (C : Type 0) : Type 0 where
  pub name : IdString
  pub registers : Registers C

module _ {V : Type 0} (same : V → V → Bool) where
  abbrev pub has_entry : IdString × V → Option V → Bool
  has_entry (k, v) none = false
  has_entry (k, v) (some w) = same v w

  unfoldable pub all_in : Dict V → Dict V → Bool
  unfolding lookup
  all_in [] m = true
  all_in ((k, v) ∷ ls) m = has_entry (k, v) (lookup k m) && all_in ls m

  -- `dict::operator==`: as many entries, each with the same value in the other.
  unfoldable pub dict_eq : Dict V → Dict V → Bool
  unfolding all_in
  dict_eq l m = length l == length m && all_in l m

-- `RegisterType::operator==`
unfoldable pub register_eq : {C : Type 0} → (C → C → Bool) → RegisterType C → RegisterType C → Bool
unfolding dict_eq
register_eq same r s =
    dict_eq same r.set_params s.set_params
    && (dict_eq text_eq r.map_params s.map_params && dict_eq same r.connect s.connect)

-- `registers[r].push_back(p)`
unfoldable pub add_port :
    {C : Type 0} → (C → C → Bool) → RegisterType C → PortType C → Registers C → Registers C
add_port same r p [] = (r, p ∷ []) ∷ []
add_port same r p ((s, ps) ∷ rs) =
    if register_eq same s r then (s, ps ++ p ∷ []) ∷ rs else (s, ps) ∷ add_port same r p rs
