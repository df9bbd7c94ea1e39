-- ===== src/Braminit/Bounds.antt =====
-- ql-qlf-plugin/pp3_braminit.cc: the accesses of `mem`, which has 2048 words.
use yosys_quicklogic_plugins.Base.{
  ℕ, zero, suc, ◌%◌, ◌^◌, ◌≤◌, ◌<◌, ◌≡◌, refl, ap, ◌∙◌, inl, inr, Bool, false, not, ◌&&◌, ◌||◌,
  Option, none, some, List, [], ◌∷◌, Text, length, ltb, is_empty, Bool-cases, arith,
}
use yosys_quicklogic_plugins.Base.Streams.{fields_of}
use yosys_quicklogic_plugins.Base.Results.{
  Result, ok, err, ◌>>=◌, Returns, Returns-test, Returns-bind,
}
use yosys_quicklogic_plugins.Rtlil.{Netlist}
use yosys_quicklogic_plugins.Rtlil.Bits.{length-set_at}
use yosys_quicklogic_plugins.Braminit.{
  Error, missing_param, out_of_bounds, Memory, is_negative, repeated, cleared, strip_comments,
  is_last, without_at, write, word_at, store_value, init_text, rounds, is_ram, is_supported,
  take_value, take_token, read_tokens, read_contents, read_file, or_default, get_param,
  load_content, load_file, load_param, init_cell, file_key, width_key, depth_key,
}

-- `mem` is whole.
abbrev IsWhole : Memory → Type 0
IsWhole s = length s.mem ≡ 2048

length-repeated : (n : ℕ) → length (repeated n) ≡ n
length-repeated zero = refl
length-repeated (suc n) = ap suc (length-repeated n)

cleared-IsWhole : IsWhole cleared
unfolding cleared
cleared-IsWhole = length-repeated 2048

store_value-IsWhole :
    (depth value : ℕ) (s : Memory)
    → rounds depth ≤ 2048
    → IsWhole s
    → Returns IsWhole (store_value depth value s)
unfolding store_value write
store_value-IsWhole depth value s fits h =
    Returns-test IsWhole
      (not (is_negative s.cursor) && (not (is_negative depth) && ltb s.cursor depth)) _ _
      (λ e.
        Returns-bind (λ mem. length mem ≡ 2048) IsWhole (write s.cursor (value % 2 ^ 32) s.mem) _
          (Returns-test (λ mem. length mem ≡ 2048) (ltb s.cursor (length s.mem)) _ _
            (λ g. length-set_at s.mem s.cursor (value % 2 ^ 32) ∙ h) (λ g. ground arith))
          (λ mem k. k))
      (λ e. h)

word_at-Returns : (i : ℕ) (mem : List ℕ) → i < length mem → Returns (λ x. Unit) (word_at i mem)
word_at-Returns i [] h = omega (arith, h)
word_at-Returns zero (x ∷ mem) h = tt
word_at-Returns (suc i) (x ∷ mem) h = word_at-Returns i mem (omega (arith, h))

init_text-Returns :
    (width n : ℕ) (mem : List ℕ) → n ≤ length mem → Returns (λ t. Unit) (init_text width n mem)
unfolding init_text
init_text-Returns width zero mem h = tt
init_text-Returns width (suc i) mem h =
    Returns-bind (λ x. Unit) (λ t. Unit) (word_at i mem) _
      (word_at-Returns i mem (omega (arith, h)))
      (λ word u.
        Returns-bind (λ t. Unit) (λ t. Unit) (init_text width i mem) _
          (init_text-Returns width i mem (omega (arith, h))) (λ rest w. tt))

module _ (next_token : Text → Text × Text) (strtol : Text → ℕ × Text) where
  take_value-IsWhole :
      (depth : ℕ) (set_cursor : Bool) (digits : Text) (s : Memory)
      → rounds depth ≤ 2048
      → IsWhole s
      → Returns IsWhole (take_value next_token strtol depth set_cursor digits s)
  take_value-IsWhole depth set_cursor digits s fits h =
      Returns-test IsWhole (is_empty digits || not (is_empty (strtol digits).1)) _ _ (λ e. h)
        (λ e.
          Returns-test IsWhole set_cursor _ _ (λ g. h)
            (λ g. store_value-IsWhole depth (strtol digits).0 s fits h))

  read_tokens-IsWhole :
      (fuel depth : ℕ) (line : Text) (s : Memory)
      → rounds depth ≤ 2048
      → IsWhole s
      → Returns IsWhole (read_tokens next_token strtol fuel depth line s)
  unfolding read_tokens
  read_tokens-IsWhole zero depth line s fits h = h
  read_tokens-IsWhole (suc fuel) depth line s fits h =
      Returns-test IsWhole (is_last (next_token line).0) _ _ (λ e. h)
        (λ e.
          Returns-bind IsWhole IsWhole (take_token next_token strtol depth (next_token line).0 s) _
            (take_value-IsWhole depth (without_at (next_token line).0).1
              (without_at (next_token line).0).0 s fits h)
            (λ s' h'. read_tokens-IsWhole fuel depth (next_token line).1 s' fits h'))

  read_contents-IsWhole :
      (depth : ℕ) (in_comment : Bool) (ls : List Text) (s : Memory)
      → rounds depth ≤ 2048
      → IsWhole s
      → Returns IsWhole (read_contents next_token strtol depth in_comment ls s)
  unfolding read_contents
  read_contents-IsWhole depth in_comment [] s fits h = h
  read_contents-IsWhole depth in_comment (l ∷ ls) s fits h =
      let (line, in_comment') = strip_comments in_comment false l in
      Returns-bind IsWhole IsWhole (read_tokens next_token strtol (suc (length line)) depth line s)
        _ (read_tokens-IsWhole (suc (length line)) depth line s fits h)
        (λ s' h'. read_contents-IsWhole depth in_comment' ls s' fits h')

  pub read_file-IsWhole :
      (depth : ℕ) (content : Text)
      → rounds depth ≤ 2048
      → Returns IsWhole (read_file next_token strtol depth content)
  unfolding read_file
  read_file-IsWhole depth content fits =
      read_contents-IsWhole depth false (fields_of b'\n' content) cleared fits cleared-IsWhole

  module _ {M C : Type 0} (n : Netlist M C) (decode_string : C → Text) (as_int : C → ℕ)
      (from_string : Text → C) (open_file : Text → Option Text) where
    -- No access out of `mem`.
    abbrev pub IsInBounds : {A : Type 0} → Result Error A → Type 0
    IsInBounds (ok a) = Unit
    IsInBounds (err missing_param) = Unit
    IsInBounds (err out_of_bounds) = ⊥

    Returns→IsInBounds :
        {A : Type 0} (P : A → Type 0) (r : Result Error A) → Returns P r → IsInBounds r
    Returns→IsInBounds P (ok a) h = tt
    Returns→IsInBounds P (err e) h = absurd h

    IsInBounds-bind :
        {A B : Type 0} (r : Result Error A) (f : A → Result Error B)
        → IsInBounds r
        → ((a : A) → r ≡ ok a → IsInBounds (f a))
        → IsInBounds (r >>= f)
    IsInBounds-bind (ok a) f h hf = hf a refl
    IsInBounds-bind (err missing_param) f h hf = tt
    IsInBounds-bind (err out_of_bounds) f h hf = absurd h

    or_default-IsInBounds :
        (own default : Option C)
        → IsInBounds
            (or_default next_token strtol n decode_string as_int from_string open_file own default)
    or_default-IsInBounds (some c) default = tt
    or_default-IsInBounds none (some c) = tt
    or_default-IsInBounds none none = tt

    load_content-Returns :
        (width depth : ℕ) (content cell : Text) (m : M)
        → rounds depth ≤ 2048
        → Returns
            (λ m'. Unit)
            (load_content next_token strtol n decode_string as_int from_string open_file width depth
              content cell m)
    load_content-Returns width depth content cell m fits =
        Returns-bind IsWhole (λ m'. Unit) (read_file next_token strtol depth content) _
          (read_file-IsWhole depth content fits)
          (λ s h.
            Returns-test (λ m'. Unit) (is_supported width) _ _
              (λ e.
                Returns-bind (λ t. Unit) (λ m'. Unit) (init_text width (rounds depth) s.mem) _
                  (init_text-Returns width (rounds depth) s.mem (omega (arith, fits, h)))
                  (λ t u. tt))
              (λ e. tt))

    load_file-Returns :
        (width depth : ℕ) (file : Option Text) (cell : Text) (m : M)
        → rounds depth ≤ 2048
        → Returns
            (λ m'. Unit)
            (load_file next_token strtol n decode_string as_int from_string open_file width depth
              file cell m)
    load_file-Returns width depth none cell m fits = tt
    load_file-Returns width depth (some content) cell m fits =
        load_content-Returns width depth content cell m fits

    -- The depth of a cell whose file is read.
    abbrev pub Fits : Text → M → Type 0
    Fits cell m =
        (d : C)
        → get_param next_token strtol n decode_string as_int from_string open_file cell depth_key
            (n.unset_param cell file_key m)
          ≡ ok d
        → rounds (as_int d) ≤ 2048

    load_param-IsInBounds :
        (cell : Text) (o : Option C) (m : M)
        → Fits cell m
        → IsInBounds
            (load_param next_token strtol n decode_string as_int from_string open_file cell o m)
    load_param-IsInBounds cell none m fits = tt
    load_param-IsInBounds cell (some file) m fits =
        let m' = n.unset_param cell file_key m in
        let param = λ (k : Text).
          get_param next_token strtol n decode_string as_int from_string open_file cell k m' in
        elim (Bool-cases (is_empty (decode_string file))) [
          | inl e ↦ rw e tt
          | inr e ↦ rw e (
              IsInBounds-bind (param width_key) _ (or_default-IsInBounds _ _) (λ w e_w.
                IsInBounds-bind (param depth_key) _ (or_default-IsInBounds _ _) (λ d e_d.
                  Returns→IsInBounds (λ m''. Unit) _
                    (load_file-Returns (as_int w) (as_int d) (open_file (decode_string file)) cell
                      m' (fits d e_d)))))
        ]

    -- Whatever the file holds, initializing a cell accesses no word outside of the 2048 of `mem`, if
    -- the depth that the cell has once its INIT_FILE is unset is negative or at most 2048.
    pub init_cell-IsInBounds :
        (cell : Text) (m : M)
        → Fits cell m
        → IsInBounds
            (init_cell next_token strtol n decode_string as_int from_string open_file cell m)
    unfolding init_cell
    init_cell-IsInBounds cell m fits = elim (Bool-cases (is_ram (n.cell_type cell m))) [
      | inl e ↦ rw e (load_param-IsInBounds cell (n.own_param cell file_key m) m fits)
      | inr e ↦ rw e tt
    ]
