-- ===== src/Base/Maps.antt =====
-- `std::map`, `std::unordered_map` and hashlib's `dict` keyed by text, as association lists with
-- one entry to a key. `insert` is `m[k] = v`; `emplace` keeps what is there.
use mathlib.Core.Path.{◌≡◌, refl, subst}
use mathlib.Core.Logic.{◌≢◌, inl, inr}
use mathlib.Core.List.{List, [], ◌∷◌}
use mathlib.Core.Option.{Option, none, some}
use mathlib.Core.Bool.{Bool, true, false}
use native.Mathlib.Omega.{arith}
use yosys_quicklogic_plugins.Base.Tests.{if◌then◌else◌, Bool-cases}
use yosys_quicklogic_plugins.Base.Texts.{Text, text_eq, text_eq_iff, text_eq→eq}
use yosys_quicklogic_plugins.Base.Lists.{All}

module _ {ℓ} {V : Type ℓ} where
  unfoldable pub lookup : Text → List (Text × V) → Option V
  lookup k [] = none
  lookup k ((j, v) ∷ m) = if text_eq j k then some v else lookup k m

  unfoldable pub insert : Text → V → List (Text × V) → List (Text × V)
  insert k v [] = (k, v) ∷ []
  insert k v ((j, w) ∷ m) = if text_eq j k then (k, v) ∷ m else (j, w) ∷ insert k v m

  unfoldable pub contains : Text → List (Text × V) → Bool
  contains k [] = false
  contains k ((j, v) ∷ m) = if text_eq j k then true else contains k m

  unfoldable pub emplace : Text → V → List (Text × V) → List (Text × V)
  unfolding contains
  emplace k v [] = (k, v) ∷ []
  emplace k v ((j, w) ∷ m) = if text_eq j k then (j, w) ∷ m else (j, w) ∷ emplace k v m

  pub lookup-insert :
      (k j : Text) (v : V) (m : List (Text × V))
      → lookup j (insert k v m) ≡ (if text_eq k j then some v else lookup j m)
  unfolding lookup insert
  lookup-insert k j v [] = refl
  lookup-insert k j v ((i, w) ∷ m) =
      ground (arith, text_eq_iff k j, text_eq_iff i k, text_eq_iff i j, lookup-insert k j v m)

  pub lookup-emplace :
      (k j : Text) (v : V) (m : List (Text × V))
      → lookup k m ≡ none
      → lookup j (emplace k v m) ≡ (if text_eq k j then some v else lookup j m)
  unfolding lookup emplace
  lookup-emplace k j v [] h = refl
  lookup-emplace k j v ((i, w) ∷ m) h =
      ground (arith, text_eq_iff k j, text_eq_iff i k, text_eq_iff i j, lookup-emplace k j v m)

  pub contains-lookup : (k : Text) (m : List (Text × V)) → contains k m ≡ false → lookup k m ≡ none
  unfolding lookup contains
  contains-lookup k [] h = refl
  contains-lookup k ((i, w) ∷ m) h = ground (arith, contains-lookup k m)

  pub lookup-contains : (k : Text) (m : List (Text × V)) → lookup k m ≡ none → contains k m ≡ false
  unfolding lookup contains
  lookup-contains k [] h = refl
  lookup-contains k ((i, w) ∷ m) h = ground (arith, lookup-contains k m)

  pub All-insert {κ} :
      (P : Text × V → Type κ) (k : Text) (v : V) (m : List (Text × V))
      → P (k, v)
      → All P m
      → All P (insert k v m)
  unfolding insert
  All-insert P k v [] h hm = (h, tt)
  All-insert P k v ((j, w) ∷ m) h (hj, hm) = elim (Bool-cases (text_eq j k)) [
    | inl e ↦ rw e (h, hm)
    | inr e ↦ rw e (hj, All-insert P k v m h hm)
  ]

  -- No key stands twice.
  abbrev pub DistinctKeys : List (Text × V) → Type 0
  DistinctKeys [] = Unit
  DistinctKeys ((j, w) ∷ m) = All (λ e. text_eq j e.0 ≡ false) m × DistinctKeys m

  pub insert-DistinctKeys :
      (k : Text) (v : V) (m : List (Text × V)) → DistinctKeys m → DistinctKeys (insert k v m)
  unfolding insert
  insert-DistinctKeys k v [] h = (tt, tt)
  insert-DistinctKeys k v ((j, w) ∷ m) (h, hm) = elim (Bool-cases (text_eq j k)) [
    | inl e ↦ rw e (subst (λ i. All (λ e. text_eq i e.0 ≡ false) m) (text_eq→eq j k e) h, hm)
    | inr e ↦ rw e (All-insert (λ e. text_eq j e.0 ≡ false) k v m e h, insert-DistinctKeys k v m hm)
  ]

-- No text stands twice.
abbrev pub Distinct : List Text → Type 0
Distinct [] = Unit
Distinct (c ∷ cs) = All (λ d. c ≢ d) cs × Distinct cs
