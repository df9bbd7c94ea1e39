-- ===== src/Base/Results.antt =====
-- Code that may stop at an error, and what is so if it does not.
use mathlib.Core.Path.{◌≡◌, refl, sym, subst}
use mathlib.Core.Bool.{Bool, true, false}
use yosys_quicklogic_plugins.Base.Tests.{if◌then◌else◌}

pub data Result {ℓ} (E : Type 0) (A : Type ℓ) : Type ℓ where
  ok : A → Result E A
  err : E → Result E A

module _ {E : Type 0} where
  infixl 5 ◌>>=◌
  abbrev pub ◌>>=◌ {ℓ κ} : {A : Type ℓ} {B : Type κ} → Result E A → (A → Result E B) → Result E B
  ok a >>= f = f a
  err e >>= f = err e

  -- What a successful result has.
  abbrev pub Holds : {A : Type 0} → (A → Type 0) → Result E A → Type 0
  Holds P (ok a) = P a
  Holds P (err e) = Unit

  pub Holds-if :
      {A : Type 0} (P : A → Type 0) (b : Bool) (x y : Result E A)
      → Holds P x
      → Holds P y
      → Holds P (if b then x else y)
  Holds-if P true x y hx hy = hx
  Holds-if P false x y hx hy = hy

  pub Holds-test :
      {A : Type 0} (P : A → Type 0) (b : Bool) (x y : Result E A)
      → (b ≡ true → Holds P x)
      → (b ≡ false → Holds P y)
      → Holds P (if b then x else y)
  Holds-test P true x y hx hy = hx refl
  Holds-test P false x y hx hy = hy refl

  pub Holds-bind :
      {A B : Type 0} (P : A → Type 0) (Q : B → Type 0) (m : Result E A) (f : A → Result E B)
      → Holds P m
      → ((a : A) → P a → Holds Q (f a))
      → Holds Q (m >>= f)
  Holds-bind P Q (ok a) f h hf = hf a h
  Holds-bind P Q (err e) f h hf = tt

  pub Holds-self : {A : Type 0} (m : Result E A) → Holds (λ a. m ≡ ok a) m
  Holds-self (ok a) = refl
  Holds-self (err e) = tt

  pub Holds-both :
      {A : Type 0} (P Q : A → Type 0) (m : Result E A)
      → Holds P m
      → Holds Q m
      → Holds (λ a. P a × Q a) m
  Holds-both P Q (ok a) h k = (h, k)
  Holds-both P Q (err e) h k = tt

  pub Holds-any : {A : Type 0} (m : Result E A) → Holds (λ a. Unit) m
  Holds-any (ok a) = tt
  Holds-any (err e) = tt

  pub Holds-map :
      {A : Type 0} (P Q : A → Type 0) (m : Result E A)
      → ((a : A) → P a → Q a)
      → Holds P m
      → Holds Q m
  Holds-map P Q (ok a) f h = f a h
  Holds-map P Q (err e) f h = tt

  -- The code returns, and the result has P.
  abbrev pub Returns : {A : Type 0} → (A → Type 0) → Result E A → Type 0
  Returns P (ok a) = P a
  Returns P (err e) = ⊥

  pub Returns-test :
      {A : Type 0} (P : A → Type 0) (b : Bool) (x y : Result E A)
      → (b ≡ true → Returns P x)
      → (b ≡ false → Returns P y)
      → Returns P (if b then x else y)
  Returns-test P true x y hx hy = hx refl
  Returns-test P false x y hx hy = hy refl

  pub Returns-bind :
      {A B : Type 0} (P : A → Type 0) (Q : B → Type 0) (m : Result E A) (f : A → Result E B)
      → Returns P m
      → ((a : A) → P a → Returns Q (f a))
      → Returns Q (m >>= f)
  Returns-bind P Q (ok a) f h hf = hf a h
  Returns-bind P Q (err e) f h hf = absurd h

  pub Returns-map :
      {A : Type 0} (P Q : A → Type 0) (m : Result E A)
      → ((a : A) → P a → Q a)
      → Returns P m
      → Returns Q m
  Returns-map P Q (ok a) f h = f a h
  Returns-map P Q (err e) f h = absurd h

  pub Returns-eq : {A : Type 0} (m : Result E A) {a : A} → m ≡ ok a → Returns (λ b. b ≡ a) m
  Returns-eq m {a} h = subst (λ r. Returns (λ b. b ≡ a) r) (sym h) refl

  pub Returns-Holds :
      {A : Type 0} (P : A → Type 0) (m : Result E A)
      → Returns (λ a. Unit) m
      → Holds P m
      → Returns P m
  Returns-Holds P (ok a) r h = h
  Returns-Holds P (err e) r h = absurd r
