-- ===== src/Tests/Designs.antt =====
-- Netlists to run the passes on: the ports and the parameters of the cells are functions.
use yosys_quicklogic_plugins.Base.{
  ◌≡◌, refl, Bool, false, ◌&&◌, Option, none, some, List, [], ◌∷◌, ◌++◌, Text, text_eq, All,
  All-append, if◌then◌else◌,
}
use yosys_quicklogic_plugins.Rtlil.{SigBit, Netlist, IsNetlist}

pub record Design (C : Type 0) : Type 0 where
  pub names : List Text
  pub ports : Text → Text → Option (List SigBit)
  pub params : Text → Text → Option C

abbrev listed : Text → Option (List SigBit) → List (Text × List SigBit)
listed p none = []
listed p (some bits) = (p, bits) ∷ []

abbrev all_listed : List Text → (Text → Option (List SigBit)) → List (Text × List SigBit)
all_listed [] ports = []
all_listed (p ∷ ps) ports = listed p (ports p) ++ all_listed ps ports

abbrev without : Text → List Text → List Text
without c [] = []
without c (d ∷ ds) = if text_eq c d then without c ds else d ∷ without c ds

module _ {C : Type 0} (type_of : Text → Text) (is_input is_output : Text → Text → Bool)
    (port_names : List Text) (default_value : Option C) where
  abbrev pub netlist_of : Netlist (Design C) C
  netlist_of = record {
    cells = λ m. m.names;
    wires = λ m. [];
    wire_offset = λ w m. 0;
    wire_width = λ w m. 1;
    port_input = λ w m. false;
    port_output = λ w m. false;
    module_connections = λ m. [];
    cell_type = λ c m. type_of c;
    input = λ c p m. is_input c p;
    output = λ c p m. is_output c p;
    connections = λ c m. all_listed port_names (m.ports c);
    get_port = λ c p m. m.ports c p;
    set_port = λ c p bits m. record m {
      ports = λ d q. if text_eq c d && text_eq p q then some bits else m.ports d q;
    };
    own_param = λ c k m. m.params c k;
    default_param = λ type k. default_value;
    set_param = λ c k w m. record m {
      params = λ d l. if text_eq c d && text_eq k l then some w else m.params d l;
    };
    unset_param = λ c k m. record m {
      params = λ d l. if text_eq c d && text_eq k l then none else m.params d l;
    };
    remove = λ c m. record m { names = without c m.names };
  }

  All-listed :
      (p : Text) (ports : Text → Option (List SigBit)) (o : Option (List SigBit))
      → ports p ≡ o
      → All (λ conn. ports conn.0 ≡ some conn.1) (listed p o)
  All-listed p ports none e = tt
  All-listed p ports (some bits) e = (e, tt)

  All-all_listed :
      (ps : List Text) (ports : Text → Option (List SigBit))
      → All (λ conn. ports conn.0 ≡ some conn.1) (all_listed ps ports)
  All-all_listed [] ports = tt
  All-all_listed (p ∷ ps) ports =
      All-append (λ conn. ports conn.0 ≡ some conn.1) (listed p (ports p)) _
        (All-listed p ports (ports p) refl) (All-all_listed ps ports)

  pub netlist_of-IsNetlist : IsNetlist netlist_of
  netlist_of-IsNetlist = record {
    connections-get_port = λ c m. All-all_listed port_names (m.ports c);
    get_port-set_port = λ c p d q bits m. refl;
    get_port-set_param = λ c k d q w m. refl;
    get_port-remove = λ c d q m h. refl;
    own_param-set_port = λ c p d k bits m. refl;
    own_param-set_param = λ c k d l w m. refl;
    own_param-remove = λ c d k m h. refl;
    type-set_port = λ c p d bits m. refl;
    type-set_param = λ c k d w m. refl;
    type-remove = λ c d m h. refl;
  }
