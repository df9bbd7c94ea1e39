-- ===== src/Dsp/Dicts.antt =====
-- `dict::operator==` of hashlib: what two dictionaries that it calls equal have in common.
use mathlib.Core.Path.{subst}
use yosys_quicklogic_plugins.Base.{
  ◌≡◌, refl, sym, ap, ◌∙◌, inl, inr, Bool, true, Option, none, some, [], ◌∷◌, Text, text_eq,
  text_eq→eq, All, Bool-cases, arith, length,
}
use yosys_quicklogic_plugins.Base.Maps.{lookup}
use yosys_quicklogic_plugins.Dsp.Rules.{Dict, dict_eq, all_in, has_entry}

module _ {V : Type 0} (R : V → V → Type 0) where
  -- As many entries, and each of the one has a related value in the other.
  abbrev pub HasMatch : Dict V → Text × V → Type 0
  HasMatch m entry = (v : V) × (lookup entry.0 m ≡ some v) × R entry.1 v

  abbrev pub Agree : Dict V → Dict V → Type 0
  Agree l m = (length l ≡ length m) × All (HasMatch m) l

module _ {V : Type 0} (same : V → V → Bool) (R : V → V → Type 0)
    (relates : (v w : V) → same v w ≡ true → R v w) where
  has_entry-HasMatch :
      (k : Text) (v : V) (m : Dict V) (o : Option V)
      → lookup k m ≡ o
      → has_entry same (k, v) o ≡ true
      → HasMatch R m (k, v)
  has_entry-HasMatch k v m none e h = absurd (cc h)
  has_entry-HasMatch k v m (some w) e h = (w, e, relates v w h)

  all_in-HasMatch : (l m : Dict V) → all_in same l m ≡ true → All (HasMatch R m) l
  unfolding all_in
  all_in-HasMatch [] m h = tt
  all_in-HasMatch ((k, v) ∷ l) m h = (
    has_entry-HasMatch k v m (lookup k m) refl (ground arith),
    all_in-HasMatch l m (ground arith),
  )

  pub dict_eq-Agree : (l m : Dict V) → dict_eq same l m ≡ true → Agree R l m
  unfolding dict_eq
  dict_eq-Agree l m h = (ground arith, all_in-HasMatch l m (ground arith))

-- What is under a key of the one is under the key of the other.
pub lookup-HasMatch :
    {V : Type 0} (l m : Dict V) (k : Text) (v : V)
    → All (HasMatch (λ a b. a ≡ b) m) l
    → lookup k l ≡ some v
    → lookup k m ≡ some v
unfolding lookup
lookup-HasMatch [] m k v h e = absurd (cc e)
lookup-HasMatch ((j, w) ∷ l) m k v ((x, found, same), h) e = elim (Bool-cases (text_eq j k)) [
  | inl g ↦
      subst (λ i. lookup i m ≡ some v) (text_eq→eq j k g) (found ∙ ap some (sym same) ∙ (rw g at e))
  | inr g ↦ lookup-HasMatch l m k v h (rw g at e)
]
