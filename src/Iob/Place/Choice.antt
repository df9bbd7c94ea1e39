-- ===== src/Iob/Place/Choice.antt =====
-- `choosePinmapEntry`: the best entry for a cell type, and the exception.
use mathlib.Core.Path.{subst}
use yosys_quicklogic_plugins.Base.{
  ℕ, suc, ◌≤◌, ◌≡◌, ◌≢◌, refl, sym, ◌∙◌, ◌⊎◌, inl, inr, true, false, none, some, List, [], ◌∷◌,
  ◌++◌, Text, codes, arith, All, text_eq, text_eq_iff, if◌then◌else◌, Bool-cases,
}
use yosys_quicklogic_plugins.Base.Maps.{lookup}
use yosys_quicklogic_plugins.Iob.Pinmap.{Entry}
use yosys_quicklogic_plugins.Iob.Place.{ok, err, out_of_range, entry_of_type, choose_pinmap_entry}

abbrev pub type_of : Entry → Text
type_of e = elim (lookup (codes "type") e) [ none ↦ [] | some t ↦ t ]

abbrev pub HasType : Entry → Type 0
HasType e = lookup (codes "type") e ≡ some (type_of e)

abbrev pub Elem : Entry → List Entry → Type 0
Elem a [] = ⊥
Elem a (b ∷ bs) = (a ≡ b) ⊎ Elem a bs

-- The place of a type among the preferred ones; their number if it is none of them.
abbrev pub rank : List Text → Text → ℕ
rank [] t = 0
rank (p ∷ ps) t = if text_eq p t then 0 else suc (rank ps t)

abbrev Finds : Text → List Entry → Type 0
Finds t es =
    ((entry_of_type t es ≡ ok none) × All (λ e. text_eq t (type_of e) ≡ false) es)
    ⊎ ((e : Entry) × (entry_of_type t es ≡ ok (some e))
        × Elem e es
        × (text_eq t (type_of e) ≡ true))

entry_of_type-Finds : (t : Text) (es : List Entry) → All HasType es → Finds t es
unfolding entry_of_type
entry_of_type-Finds t [] h = inl (refl, tt)
entry_of_type-Finds t (e ∷ es) (h, hs) = elim (Bool-cases (text_eq t (type_of e))) [
  | inl same ↦ inr (e, rw h (rw same), inl refl, same)
  | inr other ↦ elim (entry_of_type-Finds t es hs) [
    | inl (run, none_of) ↦ inl (rw h (rw other run), (other, none_of))
    | inr (e', run, at, same) ↦ inr (e', rw h (rw other run), inr at, same)
  ]
]

abbrev Best : List Text → List Entry → Entry → Type 0
Best ts es e = All (λ e'. rank ts (type_of e) ≤ rank ts (type_of e')) es

rank_zero :
    (t : Text) (ts : List Text) (e : Entry) (es : List Entry)
    → text_eq t (type_of e) ≡ true
    → Best (t ∷ ts) es e
rank_zero t ts e [] h = tt
rank_zero t ts e (e' ∷ es) h = (rw h (omega arith), rank_zero t ts e es h)

rank_suc :
    (t : Text) (ts : List Text) (e : Entry) (es : List Entry)
    → text_eq t (type_of e) ≡ false
    → All (λ e'. text_eq t (type_of e') ≡ false) es
    → Best ts es e
    → Best (t ∷ ts) es e
rank_suc t ts e [] h hs best = tt
rank_suc t ts e (e' ∷ es) h (h', hs) (b, best) =
    (rw (h, h') (omega arith), rank_suc t ts e es h hs best)

Elem-All : (P : Entry → Type 0) (e : Entry) (es : List Entry) → Elem e es → All P es → P e
Elem-All P e [] at h = absurd at
Elem-All P e (b ∷ es) (inl p) (h, hs) = subst P (sym p) h
Elem-All P e (b ∷ es) (inr at) (h, hs) = Elem-All P e es at hs

-- If every entry of a pad has a type, the choice succeeds, and it is an entry of the pad whose
-- type no other entry's type is preferred to: its rank among the preferred types is the least.
pub choose_pinmap_entry-Best :
    (ts : List Text) (e : Entry) (es : List Entry)
    → All HasType (e ∷ es)
    → (chosen : Entry) × (choose_pinmap_entry ts (e ∷ es) ≡ ok chosen)
      × Elem chosen (e ∷ es)
      × All (λ e'. rank ts (type_of chosen) ≤ rank ts (type_of e')) (e ∷ es)
unfolding choose_pinmap_entry
choose_pinmap_entry-Best [] e es h = (e, refl, inl refl, all_zero (e ∷ es))
  where
    all_zero : (xs : List Entry) → All (λ e'. 0 ≤ 0) xs
    all_zero [] = tt
    all_zero (x ∷ xs) = (omega arith, all_zero xs)
choose_pinmap_entry-Best (t ∷ ts) e es h = elim (entry_of_type-Finds t (e ∷ es) h) [
  | inr (e', run, at, same) ↦ (e', rw run, at, rank_zero t ts e' (e ∷ es) same)
  | inl (run, none_of) ↦
      let (chosen, run', at, best) = choose_pinmap_entry-Best ts e es h in
      (
        chosen,
        rw run run',
        at,
        rank_suc t ts chosen (e ∷ es)
            (Elem-All (λ e'. text_eq t (type_of e') ≡ false) chosen (e ∷ es) at none_of) none_of
            best,
      )
]

entry_of_type_step :
    (t : Text) (b : Entry) (es : List Entry)
    → HasType b
    → t ≢ type_of b
    → entry_of_type t (b ∷ es) ≡ entry_of_type t es
unfolding entry_of_type
entry_of_type_step t b es typed ne = rw typed (ground (arith, text_eq_iff t (type_of b)))

entry_of_type-untyped :
    (t : Text) (bs : List Entry) (e : Entry) (after : List Entry)
    → All HasType bs
    → All (λ e'. t ≢ type_of e') bs
    → lookup (codes "type") e ≡ none
    → entry_of_type t (bs ++ e ∷ after) ≡ err out_of_range
entry_of_type-untyped t [] e after typed other h = unfold entry_of_type in rw h
entry_of_type-untyped t (b ∷ bs) e after (hb, typed) (ne, other) h =
    entry_of_type_step t b (bs ++ e ∷ after) hb ne
    ∙ entry_of_type-untyped t bs e after typed other h

-- With any preferred type, an entry with no `type` column ends the choice by an exception, unless
-- an entry before it is of the first preferred type.
pub choose_pinmap_entry-untyped :
    (t : Text) (ts : List Text) (before : List Entry) (e : Entry) (after : List Entry)
    → All HasType before
    → All (λ e'. t ≢ type_of e') before
    → lookup (codes "type") e ≡ none
    → choose_pinmap_entry (t ∷ ts) (before ++ e ∷ after) ≡ err out_of_range
unfolding choose_pinmap_entry
choose_pinmap_entry-untyped t ts before e after typed other h =
    rw (entry_of_type-untyped t before e after typed other h)
