-- ===== src/Dsp/Rules/Formats.antt =====
-- dsp-ff-plugin/dsp_ff.cc, `load_rules`: port specifications and assignments as they are written,
-- read by the regular expressions.
use mathlib.Core.Path.{subst}
use mathlib.Core.Bool.{false≢true}
use yosys_quicklogic_plugins.Base.{
  ◌<◌, ◌^◌, ◌≡◌, ◌≢◌, refl, ap, ◌∙◌, true, not, none, some, [], ◌∷◌, ◌++◌, Text, codes, All-append,
  Passes, ltb, arith, if◌then◌else◌,
}
use yosys_quicklogic_plugins.Base.Streams.{Lacks}
use yosys_quicklogic_plugins.Base.Chars.{
  is_dot, is_space, some_of-append, strip_prefix, all_pass_iff,
}
use yosys_quicklogic_plugins.Base.Options.{◌>>=◌}
use yosys_quicklogic_plugins.Base.Results.{ok, err}
use yosys_quicklogic_plugins.Dsp.Rules.{range}
use yosys_quicklogic_plugins.Dsp.Rules.Tokens.{
  is_digit, last_equals, name_value, port_range, groups_at, port_groups,
}
use yosys_quicklogic_plugins.Dsp.Rules.Fields.{invalid_port, number, stoi, port_of, parse_port_name}

-- No `=` but perhaps at the end.
last_equals-none : (v : Text) → Lacks b'=' v → last_equals v ≡ none
unfolding last_equals
last_equals-none [] h = refl
last_equals-none (c ∷ v) (h, hs) = rw (last_equals-none v hs) (ground arith)

last_equals-append :
    (n v : Text) → v ≢ [] → Lacks b'=' v → last_equals (n ++ b'=' ∷ v) ≡ some (n, v)
unfolding last_equals
last_equals-append [] [] ne h = absurd (ne refl)
last_equals-append [] (c ∷ v) ne h = rw (last_equals-none (c ∷ v) h) refl
last_equals-append (c ∷ n) v ne h = rw (last_equals-append n v ne h) refl

-- An assignment of a name and a value with no white space, both not empty, is read as the two if
-- there is no `=` in the value.
name_value-append :
    (n v : Text)
    → n ≢ []
    → v ≢ []
    → Passes (λ c. not (is_space c)) (n ++ b'=' ∷ v)
    → Lacks b'=' v
    → name_value (n ++ b'=' ∷ v) ≡ some (n, v)
unfolding name_value
name_value-append [] v hn hv hp hl = absurd (hn refl)
name_value-append (c ∷ n) v hn hv hp hl =
    rw
      (
        (all_pass_iff (λ d. not (is_space d)) (c ∷ n ++ b'=' ∷ v)).1 hp,
        last_equals-append n v hv hl,
      )
      refl

abbrev pub format_port : Text → Text → Text → Text
format_port name hi lo = name ++ (codes "[" ++ (hi ++ (codes ":" ++ (lo ++ codes "]"))))

port_range-digits :
    (hi lo : Text)
    → hi ≢ []
    → lo ≢ []
    → Passes is_digit hi
    → Passes is_digit lo
    → port_range (hi ++ (codes ":" ++ (lo ++ codes "]"))) ≡ some (hi, lo)
unfolding port_range strip_prefix
port_range-digits hi lo nh nl hh hl =
    rw
      (
        some_of-append is_digit hi (codes ":" ++ (lo ++ codes "]")) nh hh refl,
        some_of-append is_digit lo (codes "]") nl hl refl,
      )
      refl

-- Behind the bracket there is no other.
port_groups-none : (s : Text) → Lacks b'[' s → port_groups s ≡ none
unfolding port_groups groups_at
port_groups-none [] h = refl
port_groups-none (c ∷ s) (h, hs) = rw (port_groups-none s hs) (ground arith)

digits-Lacks : (s : Text) → Passes is_digit s → Lacks b'[' s
digits-Lacks [] h = tt
digits-Lacks (c ∷ s) (h, hs) =
    ((λ e. false≢true (subst (λ d. is_digit d ≡ true) e h)), digits-Lacks s hs)

range_text-Lacks :
    (hi lo : Text)
    → Passes is_digit hi
    → Passes is_digit lo
    → Lacks b'[' (hi ++ (codes ":" ++ (lo ++ codes "]")))
range_text-Lacks hi lo hh hl =
    All-append (λ c. c ≢ b'[') hi _ (digits-Lacks hi hh)
      (All-append (λ c. c ≢ b'[') (codes ":") _ (omega arith)
        (All-append (λ c. c ≢ b'[') lo (codes "]") (digits-Lacks lo hl) (omega arith)))

port_groups-format_port :
    (name hi lo : Text)
    → Passes is_dot name
    → hi ≢ []
    → lo ≢ []
    → Passes is_digit hi
    → Passes is_digit lo
    → port_groups (format_port name hi lo) ≡ some (name, hi, lo)
unfolding port_groups groups_at
port_groups-format_port [] hi lo hn nh nl hh hl =
    ap (groups_at b'[' _) (port_groups-none _ (range_text-Lacks hi lo hh hl))
    ∙ ap (λ m. m >>= (λ r. some ([], r.0, r.1))) (port_range-digits hi lo nh nl hh hl)
port_groups-format_port (c ∷ name) hi lo (h, hn) nh nl hh hl =
    rw (port_groups-format_port name hi lo hn nh nl hh hl, h) refl

stoi-number : (s : Text) → number 0 s < 2 ^ 31 → stoi s ≡ ok (number 0 s)
unfolding stoi
stoi-number s h = ground arith

-- A name with no line terminator, `[`, digits for high, `:`, digits for low and `]`, with values of
-- an `int`, is read as the name and the range from low to high if low is not above high, and is
-- refused if it is.
pub parse_port_name-format_port :
    (name hi lo : Text)
    → Passes is_dot name
    → hi ≢ []
    → lo ≢ []
    → Passes is_digit hi
    → Passes is_digit lo
    → number 0 hi < 2 ^ 31
    → number 0 lo < 2 ^ 31
    → parse_port_name (format_port name hi lo) ≡ (
        if ltb (number 0 hi) (number 0 lo)
        then err invalid_port
        else ok (name, range (number 0 lo) (number 0 hi)))
unfolding parse_port_name port_of
parse_port_name-format_port name hi lo hn nh nl hh hl bh bl =
    rw (port_groups-format_port name hi lo hn nh nl hh hl, stoi-number hi bh, stoi-number lo bl)
      refl
