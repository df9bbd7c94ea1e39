-- ===== src/Base/Streams.antt =====
-- `std::getline` on a stream, and the loop `while (stream.good())` over it.
use Prim.Native.Nat.{ℕ, zero, suc, ◌<◌, ◌≤◌}
use mathlib.Core.Path.{◌≡◌, refl, ap, ◌∙◌}
use mathlib.Core.Logic.{◌≢◌, ◌⊎◌, inl, inr}
use mathlib.Core.List.{List, [], ◌∷◌, ◌++◌, append_assoc}
use mathlib.Core.Bool.{Bool, true, false}
use native.Mathlib.Omega.{arith}
use yosys_quicklogic_plugins.Base.Tests.{◌==◌, if◌then◌else◌, Bool-cases}
use yosys_quicklogic_plugins.Base.Lists.{All, length}
use yosys_quicklogic_plugins.Base.Texts.{Text}

-- What is left to read, and `good()`.
pub record Stream : Type 0 where
  pub rest : Text
  pub good : Bool

abbrev pub open_stream : Text → Stream
open_stream s = record { rest = s; good = true }

abbrev pub closed_stream : Text → Stream
closed_stream s = record { rest = s; good = false }

-- The characters up to the delimiter; the flag says whether it was found.
unfoldable pub read_until : ℕ → Text → Text × Text × Bool
read_until d [] = ([], [], false)
read_until d (c ∷ s) =
    let (taken, rest, found) = read_until d s in
    if c == d then ([], s, true) else (c ∷ taken, rest, found)

-- The end of the text without a delimiter sets `eofbit`; a stream that is not good gives nothing.
unfoldable pub getline : ℕ → Stream → Text × Stream
unfolding read_until
getline d st =
    let (taken, rest, found) = read_until d st.rest in
    if st.good then (taken, record { rest = rest; good = found }) else ([], st)

-- `while (st.good()) { std::getline(st, field, d); out.push_back(field); }`
unfoldable pub read_all : ℕ → ℕ → Stream → List Text → List Text
unfolding getline
read_all d zero st out = out
read_all d (suc fuel) st out =
    let (field, st') = getline d st in
    let more = read_all d fuel st' (out ++ field ∷ []) in if st.good then more else out

abbrev pub prepend : ℕ → List Text → List Text
prepend c [] = (c ∷ []) ∷ []
prepend c (p ∷ ps) = (c ∷ p) ∷ ps

-- Cutting a text at every delimiter.
unfoldable pub split : ℕ → Text → List Text
split d [] = [] ∷ []
split d (c ∷ s) = if c == d then [] ∷ split d s else prepend c (split d s)

-- The pieces with the delimiter between them.
unfoldable pub join : ℕ → List Text → Text
join d [] = []
join d (p ∷ []) = p
join d (p ∷ q ∷ ps) = p ++ d ∷ join d (q ∷ ps)

abbrev pub Lacks : ℕ → Text → Type 0
Lacks d = All (λ c. c ≢ d)

-- One more round of the loop cuts one more piece off.
split_step :
    (d : ℕ) (s : Text)
    → split d s
      ≡ (let (taken, rest, found) = read_until d s in taken ∷ (if found then split d rest else []))
unfolding split read_until
split_step d [] = refl
split_step d (c ∷ s) = ground (arith, split_step d s)

split_found :
    (d : ℕ) (s : Text)
    → (read_until d s).2 ≡ true
    → split d s ≡ (read_until d s).0 ∷ split d (read_until d s).1
split_found d s h = split_step d s ∙ rw h

split_last : (d : ℕ) (s : Text) → (read_until d s).2 ≡ false → split d s ≡ (read_until d s).0 ∷ []
split_last d s h = split_step d s ∙ rw h

read_until-le : (d : ℕ) (s : Text) → length (read_until d s).1 ≤ length s
unfolding read_until
read_until-le d [] = omega arith
read_until-le d (c ∷ s) = ground (arith, read_until-le d s)

read_until-lt :
    (d : ℕ) (s : Text) → (read_until d s).2 ≡ true → length (read_until d s).1 < length s
unfolding read_until
read_until-lt d [] h = cc
read_until-lt d (c ∷ s) h = ground (arith, read_until-lt d s)

read_all_closed :
    (d fuel : ℕ) (s : Text) (out : List Text) → read_all d fuel (closed_stream s) out ≡ out
unfolding read_all
read_all_closed d zero s out = refl
read_all_closed d (suc fuel) s out = refl

-- A read either finds the delimiter and leaves less to read, or takes all and closes the stream.
pub getline-cases :
    (d : ℕ) (s : Text)
    → ((t : Text) × (r : Text) × (getline d (open_stream s) ≡ (t, open_stream r))
        × (split d s ≡ t ∷ split d r)
        × (length r < length s))
      ⊎ ((t : Text) × (r : Text) × (getline d (open_stream s) ≡ (t, closed_stream r))
          × (split d s ≡ t ∷ []))
unfolding getline
getline-cases d s = elim (Bool-cases (read_until d s).2) [
  | inl found ↦ inl (
    (read_until d s).0,
    (read_until d s).1,
    rw found,
    split_found d s found,
    read_until-lt d s found,
  )
  | inr last ↦ inr ((read_until d s).0, (read_until d s).1, rw last, split_last d s last)
]

-- With fuel for every character and the end, the loop ends by its test and has cut the text.
pub read_all-split :
    (d fuel : ℕ) (s : Text) (out : List Text)
    → length s < fuel
    → read_all d fuel (open_stream s) out ≡ out ++ split d s
unfolding read_all
read_all-split d zero s out h = elim h [ ]
read_all-split d (suc fuel) s out h = elim (Bool-cases (read_until d s).2) [
  | inl found ↦
      rw (found, split_found d s found)
        (read_all-split d fuel (read_until d s).1 (out ++ (read_until d s).0 ∷ [])
            (omega (arith, read_until-lt d s found))
          ∙ append_assoc out _ _)
  | inr last ↦ rw (last, split_last d s last) (read_all_closed d fuel _ _)
]

-- `while (ss.good())` over a fresh `std::stringstream ss(s)`.
unfoldable pub fields_of : ℕ → Text → List Text
unfolding read_all
fields_of d s = read_all d (suc (length s)) (open_stream s) []

pub fields_of-split : (d : ℕ) (s : Text) → fields_of d s ≡ split d s
unfolding fields_of
fields_of-split d s = read_all-split d (suc (length s)) s [] (omega arith)

pub split-ne-nil : (d : ℕ) (s : Text) → split d s ≢ []
unfolding split
split-ne-nil d [] h = cc
split-ne-nil d (c ∷ s) h = ground (arith, split-ne-nil d s)

pub split-Lacks : (d : ℕ) (s : Text) → All (Lacks d) (split d s)
unfolding split
split-Lacks d [] = (tt, tt)
split-Lacks d (c ∷ s) = ground (arith, split-Lacks d s)

join-prepend : (d c : ℕ) (ps : List Text) → ps ≢ [] → join d (prepend c ps) ≡ c ∷ join d ps
unfolding join
join-prepend d c [] h = absurd (h refl)
join-prepend d c (p ∷ []) h = refl
join-prepend d c (p ∷ q ∷ ps) h = refl

join_nil_first : (d : ℕ) (ps : List Text) → ps ≢ [] → join d ([] ∷ ps) ≡ d ∷ join d ps
unfolding join
join_nil_first d [] h = absurd (h refl)
join_nil_first d (p ∷ ps) h = refl

pub join-split : (d : ℕ) (s : Text) → join d (split d s) ≡ s
unfolding split
join-split d [] = unfold join in refl
join-split d (c ∷ s) = elim (Bool-cases (c == d)) [
  | inl h ↦
      rw h (join_nil_first d (split d s) (split-ne-nil d s) ∙ rw (join-split d s) (ground arith))
  | inr h ↦
      rw h (join-prepend d c (split d s) (split-ne-nil d s) ∙ ap (λ t. c ∷ t) (join-split d s))
]

pub split-append : (d : ℕ) (p s : Text) → Lacks d p → split d (p ++ d ∷ s) ≡ p ∷ split d s
unfolding split
split-append d [] s h = ground arith
split-append d (c ∷ p) s (h, hs) = ground (arith, split-append d p s hs)

pub split_whole : (d : ℕ) (p : Text) → Lacks d p → split d p ≡ p ∷ []
unfolding split
split_whole d [] h = refl
split_whole d (c ∷ p) (h, hs) = ground (arith, split_whole d p hs)

pub split-join : (d : ℕ) (ps : List Text) → ps ≢ [] → All (Lacks d) ps → split d (join d ps) ≡ ps
unfolding join
split-join d [] h hs = absurd (h refl)
split-join d (p ∷ []) h (hp, hs) = split_whole d p hp
split-join d (p ∷ q ∷ ps) h (hp, hs) =
    rw (split-append d p (join d (q ∷ ps)) hp)
      (ap (λ t. p ∷ t) (split-join d (q ∷ ps) (λ e. cc) hs))
