-- ===== src/Iob/Spec/Parse.antt =====
-- Specifications that are printed are parsed back.
use yosys_quicklogic_plugins.Base.{
  ◌≡◌, ◌≢◌, refl, true, none, some, List, [], ◌∷◌, ◌++◌, append-nil, Text, arith, All, All-append,
  Passes,
}
use yosys_quicklogic_plugins.Base.Chars.{strip_prefix-append, some_of-append}
use yosys_quicklogic_plugins.Base.Streams.{fields_of-split, join, split-join, Lacks}
use yosys_quicklogic_plugins.Iob.Spec.{
  IoCellType, is_id, is_id_list, colon, match_plain, match_preferred, parse_spec,
}

abbrev IsId : Text → Type 0
IsId s = (s ≢ []) × Passes is_id s

-- `<type>:<port>`, and `:<type 1>,<type 2>...` if there are preferred types
abbrev pub format_spec : IoCellType → Text
format_spec t =
    t.type
    ++ (colon
        ++ (t.port ++ elim t.preferred_types [ [] ↦ [] | p ∷ ps ↦ colon ++ join b',' (p ∷ ps) ]))

pub record IsPrintable (t : IoCellType) : Type 0 where
  pub type_id : IsId t.type
  pub port_id : IsId t.port
  pub preferred_ids : All IsId t.preferred_types

id_in_list : (s : Text) → Passes is_id s → Passes is_id_list s
id_in_list [] h = tt
id_in_list (c ∷ s) (h, hs) = (ground arith, id_in_list s hs)

id-Lacks : (s : Text) → Passes is_id s → Lacks b',' s
id-Lacks [] h = tt
id-Lacks (c ∷ s) (h, hs) = ((λ e. ground arith), id-Lacks s hs)

ids-Lacks : (ps : List Text) → All IsId ps → All (Lacks b',') ps
ids-Lacks [] h = tt
ids-Lacks (p ∷ ps) ((ne, h), hs) = (id-Lacks p h, ids-Lacks ps hs)

join-is_id_list : (ps : List Text) → All IsId ps → Passes is_id_list (join b',' ps)
unfolding join
join-is_id_list [] h = tt
join-is_id_list (p ∷ []) ((ne, h), hs) = id_in_list p h
join-is_id_list (p ∷ q ∷ ps) ((ne, h), hs) =
    All-append (λ c. is_id_list c ≡ true) p _ (id_in_list p h) (refl, join-is_id_list (q ∷ ps) hs)

join-ne-nil : (ps : List Text) → ps ≢ [] → All IsId ps → join b',' ps ≢ []
unfolding join
join-ne-nil [] h ids = absurd (h refl)
join-ne-nil (p ∷ []) h ((ne, _), _) = ne
join-ne-nil ([] ∷ q ∷ ps) h ((ne, _), _) = absurd (ne refl)
join-ne-nil ((c ∷ p) ∷ q ∷ ps) h ids = λ e. cc

module _ (type port : Text) (type_id : IsId type) (port_id : IsId port) where
  plain :
      match_plain (type ++ (colon ++ port))
      ≡ some (record { type = type; port = port; preferred_types = [] })
  unfolding match_plain
  plain = rw (
    some_of-append is_id type (colon ++ port) type_id.0 type_id.1 refl,
    strip_prefix-append colon port,
    ← append-nil port,
    some_of-append is_id port [] port_id.0 port_id.1 tt,
    append-nil port,
  )

  not_plain : (rest : Text) → match_plain (type ++ (colon ++ (port ++ (colon ++ rest)))) ≡ none
  unfolding match_plain
  not_plain rest = rw (
    some_of-append is_id type _ type_id.0 type_id.1 refl,
    strip_prefix-append colon (port ++ (colon ++ rest)),
    some_of-append is_id port _ port_id.0 port_id.1 refl,
  )

  preferred :
      (ps : List Text)
      → ps ≢ []
      → All IsId ps
      → match_preferred (type ++ (colon ++ (port ++ (colon ++ join b',' ps))))
        ≡ some (record { type = type; port = port; preferred_types = ps })
  unfolding match_preferred
  preferred ps ne ids = rw (
    some_of-append is_id type _ type_id.0 type_id.1 refl,
    strip_prefix-append colon (port ++ (colon ++ join b',' ps)),
    some_of-append is_id port _ port_id.0 port_id.1 refl,
    strip_prefix-append colon (join b',' ps),
    ← append-nil (join b',' ps),
    some_of-append is_id_list (join b',' ps) [] (join-ne-nil ps ne ids) (join-is_id_list ps ids) tt,
    fields_of-split b',' (join b',' ps),
    split-join b',' ps ne (ids-Lacks ps ids),
  )

read_back :
    (type port : Text) (ps : List Text)
    → IsId type
    → IsId port
    → All IsId ps
    → let t : IoCellType = record { type = type; port = port; preferred_types = ps } in
      parse_spec (format_spec t) ≡ some t
read_back type port [] type_id port_id ids =
    rw (append-nil port) (unfold parse_spec in rw (parse_spec, plain type port type_id port_id))
read_back type port (p ∷ ps) type_id port_id ids =
    unfold parse_spec in
    rw (parse_spec, not_plain type port type_id port_id (join b',' (p ∷ ps)))
      (preferred type port type_id port_id (p ∷ ps) (λ e. cc) ids)

-- A specification `<type>:<port>` or `<type>:<port>:<type 1>,<type 2>...` whose names are not
-- empty and consist of word characters and `$` is read back as the cell type, the port and the
-- preferred types, in order.
pub parse_spec-format_spec : (t : IoCellType) → IsPrintable t → parse_spec (format_spec t) ≡ some t
parse_spec-format_spec t ok =
    read_back t.type t.port t.preferred_types ok.type_id ok.port_id ok.preferred_ids
