-- ===== src/Braminit.antt =====
-- ql-qlf-plugin/pp3_braminit.cc: the initial contents of RAM cells, from a file.
pub mod Bounds
pub mod Image
use yosys_quicklogic_plugins.Base.{
  ℕ, zero, suc, ◌+◌, ◌/◌, ◌%◌, ◌^◌, ◌≡◌, Bool, true, false, not, ◌&&◌, ◌||◌, Option, none, some,
  List, [], ◌∷◌, ◌++◌, Text, codes, text_eq, is_empty, length, ltb, leb, get_elem?, ◌==◌,
  if◌then◌else◌,
}
use yosys_quicklogic_plugins.Base.Streams.{fields_of}
use yosys_quicklogic_plugins.Base.Results.{Result, ok, err, ◌>>=◌}
use yosys_quicklogic_plugins.Rtlil.{Netlist}
use yosys_quicklogic_plugins.Rtlil.Bits.{set_at}

-- A parameter that neither the cell nor its type has, and an access outside of `mem`.
pub data Error : Type 0 where
  missing_param : Error
  out_of_bounds : Error

-- `mem` and `cursor`; an `int` is the number of its 32 bits.
pub record Memory : Type 0 where
  pub mem : List ℕ
  pub cursor : ℕ

abbrev pub is_negative : ℕ → Bool
is_negative i = leb (2 ^ 31) i

abbrev pub repeated : ℕ → List ℕ
repeated zero = []
repeated (suc n) = 0 ∷ repeated n

-- `memset(mem, 0x00, sizeof(mem))`
unfoldable pub cleared : Memory
cleared = record { mem = repeated 2048; cursor = 0 }

abbrev pub begins : ℕ → Text → Bool
begins d [] = false
begins d (c ∷ s) = c == d

-- The loop over the characters of a line. A comment that ends also blanks the next character.
unfoldable pub strip_comments : Bool → Bool → Text → Text × Bool
strip_comments in_comment blanked [] = ([], in_comment)
strip_comments in_comment blanked (c ∷ s) =
    let here = if blanked then b' ' else c in
    let ends = in_comment && (here == b'*' && begins b'/' s) in
    let opens = not in_comment && (here == b'/' && begins b'*' s) in
    let inside = if ends then false else in_comment || opens in
    let (line, in_comment') = strip_comments inside ends s in
    ((if ends || inside then b' ' else here) ∷ line, in_comment')

-- `token.empty() || token.compare(0, 2, "//") == 0`
abbrev pub is_last : Text → Bool
is_last [] = true
is_last (c ∷ []) = false
is_last (c ∷ d ∷ s) = c == b'/' && d == b'/'

abbrev pub without_at : Text → Text × Bool
without_at [] = ([], false)
without_at (c ∷ s) = if c == b'@' then (s, true) else (c ∷ s, false)

unfoldable pub write : ℕ → ℕ → List ℕ → Result Error (List ℕ)
unfolding set_at
write i x mem = if ltb i (length mem) then ok (set_at mem i x) else err out_of_bounds

abbrev pub word_at : ℕ → List ℕ → Result Error ℕ
word_at i [] = err out_of_bounds
word_at zero (x ∷ mem) = ok x
word_at (suc i) (x ∷ mem) = word_at i mem

-- `mem[cursor++] = value` if the cursor is inside the depth
unfoldable pub store_value : ℕ → ℕ → Memory → Result Error Memory
unfolding write
store_value depth value s =
    if not (is_negative s.cursor) && (not (is_negative depth) && ltb s.cursor depth)
    then (do
      mem ← write s.cursor (value % 2 ^ 32) s.mem
      ok (record { mem = mem; cursor = suc s.cursor }))
    else ok s

-- `std::bitset<w>(x).to_string()`, before a text
unfoldable pub bits_text : ℕ → ℕ → Text → Text
bits_text zero x rest = rest
bits_text (suc w) x rest = bits_text w (x / 2) ((b'0' + x % 2) ∷ rest)

-- The loop from the highest address down to 0.
unfoldable pub init_text : ℕ → ℕ → List ℕ → Result Error Text
unfolding bits_text
init_text width zero mem = ok []
init_text width (suc i) mem = do
  word ← word_at i mem
  rest ← init_text width i mem
  ok (bits_text width word rest)

abbrev pub is_supported : ℕ → Bool
is_supported width = width == 8 || (width == 16 || width == 32)

-- A loop `for (int i = depth - 1; i >= 0; i--)` runs that often.
abbrev pub rounds : ℕ → ℕ
rounds depth = if is_negative depth then 0 else depth

abbrev pub file_key : Text
file_key = codes "\\INIT_FILE"

abbrev pub init_key : Text
init_key = codes "\\INIT"

abbrev pub width_key : Text
width_key = codes "\\data_width_int"

abbrev pub depth_key : Text
depth_key = codes "\\data_depth_int"

abbrev pub is_ram : Text → Bool
is_ram type = text_eq type (codes "\\RAM_16K_BLK") || text_eq type (codes "\\RAM_8K_BLK")

-- `next_token(line, " \t\r\n")` with what it leaves of the line, `strtol(nptr, &endptr, 16)` with
-- the 64 bits of its result and the text at `endptr`, and the files that can be opened.
module _ (next_token : Text → Text × Text) (strtol : Text → ℕ × Text) where
  abbrev pub take_value : ℕ → Bool → Text → Memory → Result Error Memory
  take_value depth set_cursor digits s =
      let (value, rest) = strtol digits in
      if is_empty digits || not (is_empty rest)
      then ok s
      else (if set_cursor
          then ok (record s { cursor = value % 2 ^ 32 })
          else store_value depth value s)

  abbrev pub take_token : ℕ → Text → Memory → Result Error Memory
  take_token depth token s =
      let (digits, set_cursor) = without_at token in take_value depth set_cursor digits s

  unfoldable pub read_tokens : ℕ → ℕ → Text → Memory → Result Error Memory
  unfolding store_value
  read_tokens zero depth line s = ok s
  read_tokens (suc fuel) depth line s =
      let (token, rest) = next_token line in
      if is_last token
      then ok s
      else (take_token depth token s >>= (λ s'. read_tokens fuel depth rest s'))

  -- The loop over the lines
  unfoldable pub read_contents : ℕ → Bool → List Text → Memory → Result Error Memory
  unfolding strip_comments read_tokens
  read_contents depth in_comment [] s = ok s
  read_contents depth in_comment (l ∷ ls) s =
      let (line, in_comment') = strip_comments in_comment false l in
      read_tokens (suc (length line)) depth line s >>= (λ s'. read_contents depth in_comment' ls s')

  unfoldable pub read_file : ℕ → Text → Result Error Memory
  unfolding read_contents fields_of cleared
  read_file depth content = read_contents depth false (fields_of b'\n' content) cleared

  module _ {M C : Type 0} (n : Netlist M C) (decode_string : C → Text) (as_int : C → ℕ)
      (from_string : Text → C) (open_file : Text → Option Text) where
    abbrev pub or_missing : Option C → Result Error C
    or_missing none = err missing_param
    or_missing (some c) = ok c

    abbrev pub or_default : Option C → Option C → Result Error C
    or_default (some c) d = ok c
    or_default none d = or_missing d

    -- `getParam`
    abbrev pub get_param : Text → Text → M → Result Error C
    get_param cell k m = or_default (n.own_param cell k m) (n.default_param (n.cell_type cell m) k)

    abbrev pub load_content : ℕ → ℕ → Text → Text → M → Result Error M
    load_content width depth content cell m = do
      s ← read_file depth content
      (if is_supported width
          then (do
            val ← init_text width (rounds depth) s.mem
            ok (n.set_param cell init_key (from_string val) m))
          else ok m)

    abbrev pub load_file : ℕ → ℕ → Option Text → Text → M → Result Error M
    load_file width depth none cell m = ok m
    load_file width depth (some content) cell m = load_content width depth content cell m

    abbrev pub load_param : Text → Option C → M → Result Error M
    load_param cell none m = ok m
    load_param cell (some file) m =
        let m' = n.unset_param cell file_key m in
        if is_empty (decode_string file) then ok m' else (do
          width ← get_param cell width_key m'
          depth ← get_param cell depth_key m'
          load_file (as_int width) (as_int depth) (open_file (decode_string file)) cell m')

    -- The body of the loop over the cells
    unfoldable pub init_cell : Text → M → Result Error M
    unfolding read_file init_text
    init_cell cell m =
        if is_ram (n.cell_type cell m)
        then load_param cell (n.own_param cell file_key m) m
        else ok m

    -- `run_pp3_braminit`
    unfoldable pub run_pp3_braminit : List Text → M → Result Error M
    unfolding init_cell
    run_pp3_braminit [] m = ok m
    run_pp3_braminit (c ∷ cs) m = do m' ← init_cell c m; run_pp3_braminit cs m'
