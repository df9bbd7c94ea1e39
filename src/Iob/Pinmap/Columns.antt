-- ===== src/Iob/Pinmap/Columns.antt =====
-- One data line against the header: `assign`.
use mathlib.Core.Path.{subst}
use mathlib.Core.Option.{some-injective}
use yosys_quicklogic_plugins.Base.{
  ℕ, zero, suc, ◌≤◌, ◌≡◌, ◌≢◌, refl, ◌∙◌, none, some, List, [], ◌∷◌, Text, length, get_elem?, All,
  All-get_elem?, arith, text_eq_iff,
}
use yosys_quicklogic_plugins.Base.Maps.{lookup, insert, lookup-insert, Distinct}
use yosys_quicklogic_plugins.Iob.Pinmap.{Entry, assign}

-- Each column has its cell, and a column with no cell is absent.
abbrev pub IsRow : List Text → List Text → Entry → Type 0
IsRow columns cells entry =
    (i : ℕ) (c : Text) → get_elem? columns i ≡ some c → lookup c entry ≡ get_elem? cells i

-- A line that is wider than the header is refused, and no other.
pub assign_total :
    (columns cells : List Text) (e : Entry)
    → length cells ≤ length columns
    → (e' : Entry) × (assign columns cells e ≡ some e')
unfolding assign
assign_total columns [] e h = (e, refl)
assign_total [] (d ∷ ds) e h = absurd (omega arith)
assign_total (c ∷ cs) (d ∷ ds) e h = assign_total cs ds (insert c d e) (omega arith)

pub assign_wide :
    (columns cells : List Text) (e : Entry) {e' : Entry}
    → assign columns cells e ≡ some e'
    → length cells ≤ length columns
unfolding assign
assign_wide columns [] e h = omega arith
assign_wide [] (d ∷ ds) e h = cc
assign_wide (c ∷ cs) (d ∷ ds) e h = omega (arith, assign_wide cs ds (insert c d e) h)

-- A column that does not occur among those assigned keeps what it had.
assign_other :
    (c : Text) (columns cells : List Text) (e : Entry) {e' : Entry}
    → All (λ d. c ≢ d) columns
    → assign columns cells e ≡ some e'
    → lookup c e' ≡ lookup c e
unfolding assign
assign_other c columns [] e new h = ground arith
assign_other c [] (d ∷ ds) e new h = cc
assign_other c (b ∷ bs) (d ∷ ds) e (ne, new) h =
    assign_other c bs ds (insert b d e) new h
    ∙ ground (arith, lookup-insert b c d e, text_eq_iff b c)

fresh-insert :
    (b d : Text) (e : Entry) (bs : List Text)
    → All (λ c. b ≢ c) bs
    → All (λ c. lookup c e ≡ none) bs
    → All (λ c. lookup c (insert b d e) ≡ none) bs
fresh-insert b d e [] new fresh = tt
fresh-insert b d e (c ∷ cs) (ne, new) (h, fresh) =
    (ground (arith, lookup-insert b c d e, text_eq_iff b c), fresh-insert b d e cs new fresh)

pub assign-IsRow :
    (columns cells : List Text) (e : Entry) {e' : Entry}
    → Distinct columns
    → assign columns cells e ≡ some e'
    → All (λ c. lookup c e ≡ none) columns
    → IsRow columns cells e'
unfolding assign
assign-IsRow [] cells e distinct h fresh i c at = cc
assign-IsRow (b ∷ bs) [] e {e'} distinct h fresh i c at =
    subst (λ m. lookup c m ≡ none) (some-injective _ _ h)
      (All-get_elem? (λ a. lookup a e ≡ none) (b ∷ bs) i fresh at)
assign-IsRow (b ∷ bs) (d ∷ ds) e (new, distinct) h fresh zero c at =
    assign_other c bs ds (insert b d e)
      (subst (λ a. All (λ x. a ≢ x) bs) (some-injective _ _ at) new) h
    ∙ ground (arith, lookup-insert b c d e, text_eq_iff b c)
assign-IsRow (b ∷ bs) (d ∷ ds) e (new, distinct) h (hb, fresh) (suc i) c at =
    assign-IsRow bs ds (insert b d e) distinct h (fresh-insert b d e bs new fresh) i c at
