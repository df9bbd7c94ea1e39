-- ===== src/Tests/Clocks.antt =====
-- A wire as its name and its attributes, and numbers of one digit.
use yosys_quicklogic_plugins.Base.{
  ℕ, List, ◌+◌, ◌-◌, ◌/◌, ◌≡◌, ◌≢◌, refl, Bool, true, false, ◌||◌, Option, none, some, [], ◌∷◌,
  ◌++◌, Text, codes, text_eq, arith, ◌==◌, if◌then◌else◌,
}
use yosys_quicklogic_plugins.Base.Results.{ok}
use yosys_quicklogic_plugins.Sdc.Clocks.{
  get_clocks, Wires, Floats, explicit, add_clock, wire_name, add_escaping, clock_line,
}
use yosys_quicklogic_plugins.Base.Maps.{lookup, contains}
use yosys_quicklogic_plugins.Sdc.Listing.{Found, get_clocks-IsListed}
use yosys_quicklogic_plugins.Sdc.CreateClock.{
  create_clock, AreClocks, IsTarget, create_clock-IsClock,
}
use yosys_quicklogic_plugins.Sdc.Attributes.{
  IsWires, IsClock, IsPrinted, add_clock-IsClock, clock_line-add_clock,
}

pub record Wire : Type 0 where
  pub name : Text
  pub texts : Text → Option Text
  pub flags : Text → Bool

abbrev is_some : Option Text → Bool
is_some none = false
is_some (some t) = true

abbrev text_or_empty : Option Text → Text
text_or_empty none = []
text_or_empty (some t) = t

abbrev pub wires : Wires Wire
wires = record {
  name_of = λ w. w.name;
  port_input = λ w. false;
  has_attribute = λ k w. is_some (w.texts k) || w.flags k;
  get_string = λ k w. text_or_empty (w.texts k);
  set_string = λ k v w. record w { texts = λ j. if text_eq k j then some v else w.texts j };
  get_bool = λ k w. w.flags k;
  set_bool = λ k b w. record w { flags = λ j. if text_eq k j then b else w.flags j };
}

wires-IsWires : IsWires wires
wires-IsWires = record {
  has-set_string = λ j k v w ne. ground arith;
  get-set_string = λ j k v w. ground arith;
  has-set_bool = λ j k b w h. ground arith;
  get-set_bool = λ j k b w h. refl;
  flag-set_string = λ j k v w h. ground arith;
  flag-set_bool = λ j k b w. ground arith;
  name-set_string = λ k v w. refl;
  name-set_bool = λ k b w. refl;
}

abbrev read_digit : Text → Option ℕ
read_digit (c ∷ []) = some (c - b'0')
read_digit _ = none

abbrev read_two : Text → Option (ℕ × ℕ)
read_two (c ∷ d ∷ e ∷ []) = if d == b' ' then some (c - b'0', e - b'0') else none
read_two _ = none

abbrev pub digits : Floats ℕ
digits = record {
  zero_float = 0;
  to_text = λ n. (n + b'0') ∷ [];
  stof = read_digit;
  scan_two = read_two;
  show_float = λ n. (n + b'0') ∷ [];
  half = λ n. n / 2;
  is_zero = λ n. n == 0;
}

abbrev wire : Wire
wire = record { name = codes "clk"; texts = λ k. none; flags = λ k. false }

wire-has_name : wire_name wires digits wire ≢ []
unfolding wire_name add_escaping
wire-has_name = λ e. cc

printed : IsPrinted wires digits wires-IsWires 8 0 4
printed = record {
  period_text = λ e. cc;
  period_reads = refl;
  edges_text = λ e. cc;
  edges_read = refl;
}

add_clock-IsClock_example :
    IsClock wires digits wires-IsWires
      (add_clock wires digits (codes "main") wire 8 0 4 explicit)
      (codes "main")
      (wire_name wires digits wire)
      8
      0
      4
      explicit
add_clock-IsClock_example =
    add_clock-IsClock wires digits wires-IsWires (codes "main") wire 8 0 4 explicit printed
      (λ e. cc) wire-has_name

clock_line-add_clock_example :
    clock_line wires digits (add_clock wires digits (codes "main") wire 8 0 4 explicit)
    ≡ ok (
        codes "create_clock -period "
        ++ (digits.show_float 8
            ++ (codes " -waveform {"
                ++ (digits.show_float 0
                    ++ (codes " "
                        ++ (digits.show_float 4
                            ++ (codes "} " ++ (wire_name wires digits wire ++ codes "\n"))))))))
clock_line-add_clock_example =
    clock_line-add_clock wires digits wires-IsWires (codes "main") wire 8 0 4 explicit printed
      wire-has_name

abbrev main_clock : Wire
main_clock = add_clock wires digits (codes "main") wire 8 0 4 explicit

get_clocks-IsListed_example :
    (contains (wire_name wires digits main_clock) (get_clocks wires digits (wire ∷ main_clock ∷ []))
      ≡ true)
    × ((k : Text)
        → Found wires digits k (lookup k (get_clocks wires digits (wire ∷ main_clock ∷ []))))
get_clocks-IsListed_example =
    get_clocks-IsListed wires digits (wire ∷ main_clock ∷ []) 1 main_clock refl
      add_clock-IsClock_example.is_marked

-- `create_clock -name main -period 8 clk`, where only the wire above is ever selected.
abbrev scan_edges : Text → ℕ × ℕ → ℕ × ℕ
scan_edges s edges = edges

abbrev not_positive : ℕ → Bool
not_positive n = n == 0

abbrev select : List Text → List Wire
select names = wire ∷ []

clk-IsTarget : IsTarget wires digits scan_edges not_positive (codes "clk")
unfolding text_eq
clk-IsTarget = record { not_add = refl; not_name = refl; not_period = refl; not_waveform = refl }

create_clock-IsClock_example :
    (clocks : List Wire) × (create_clock wires digits scan_edges not_positive select
        (codes "-name" ∷ codes "main" ∷ codes "-period" ∷ codes "8" ∷ codes "clk" ∷ [])
      ≡ ok clocks)
    × AreClocks wires digits wires-IsWires (codes "main") 8 0 4 (wire ∷ []) clocks
create_clock-IsClock_example =
    create_clock-IsClock wires digits wires-IsWires scan_edges not_positive select (codes "main")
      (codes "8") (codes "clk") [] 8 wire [] (λ e. cc) refl refl clk-IsTarget refl
      (wire-has_name, tt) printed
