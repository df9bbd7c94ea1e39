-- ===== src/Rtlil/Pools.antt =====
-- hashlib's `pool` as a list, and `dict` with a test of its keys, as an association list.
use yosys_quicklogic_plugins.Base.{
  ◌≡◌, inl, inr, Bool, true, false, ◌&&◌, Option, none, some, List, [], ◌∷◌, ◌++◌, All, All-append,
  Bool-cases, arith, if◌then◌else◌,
}

module _ {A : Type 0} (same : A → A → Bool) where
  unfoldable pub member : A → List A → Bool
  member a [] = false
  member a (x ∷ xs) = if same x a then true else member a xs

  -- `pool::insert`
  unfoldable pub add_member : A → List A → List A
  unfolding member
  add_member a xs = if member a xs then xs else xs ++ a ∷ []

  unfoldable pub all_members : List A → List A → Bool
  unfolding member
  all_members [] ys = true
  all_members (x ∷ xs) ys = member x ys && all_members xs ys

  -- `pool::operator==`: the same elements.
  unfoldable pub same_pool : List A → List A → Bool
  unfolding all_members
  same_pool xs ys = all_members xs ys && all_members ys xs

  pub All-member :
      {P : A → Type 0} (a : A) (xs : List A)
      → ((x : A) → same x a ≡ true → P x → P a)
      → All P xs
      → member a xs ≡ true
      → P a
  unfolding member
  All-member a [] respects h m = absurd (cc m)
  All-member a (x ∷ xs) respects (hx, h) m = elim (Bool-cases (same x a)) [
    | inl e ↦ respects x e hx
    | inr e ↦ All-member a xs respects h (ground arith)
  ]

  pub All-add_member :
      (P : A → Type 0) (a : A) (xs : List A) → P a → All P xs → All P (add_member a xs)
  unfolding add_member
  All-add_member P a xs h hs = elim (Bool-cases (member a xs)) [
    | inl e ↦ rw e hs
    | inr e ↦ rw e (All-append P xs (a ∷ []) hs (h, tt))
  ]

  all_members-All :
      {P : A → Type 0} (ys xs : List A)
      → ((x a : A) → same x a ≡ true → P x → P a)
      → all_members ys xs ≡ true
      → All P xs
      → All P ys
  unfolding all_members
  all_members-All [] xs respects m h = tt
  all_members-All (y ∷ ys) xs respects m h = (
    All-member y xs (λ x. respects x y) h (ground arith),
    all_members-All ys xs respects (ground arith) h,
  )

  -- What all elements of one of two equal pools have, those of the other have.
  pub same_pool-All :
      {P : A → Type 0} (xs ys : List A)
      → ((x a : A) → same x a ≡ true → P x → P a)
      → same_pool xs ys ≡ true
      → All P xs
      → All P ys
  unfolding same_pool
  same_pool-All xs ys respects m h = all_members-All ys xs respects (ground arith) h

  module _ {V : Type 0} where
    -- `dict::count` and `dict::at`
    unfoldable pub find_key : A → List (A × V) → Option V
    find_key k [] = none
    find_key k ((j, v) ∷ m) = if same j k then some v else find_key k m
