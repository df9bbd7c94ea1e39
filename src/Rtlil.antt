-- ===== src/Rtlil.antt =====
-- What the plugins ask of the netlist, `kernel/rtlil.h` of Yosys. A module is a parameter with the
-- operations below; a cell is known by its name, and a constant is a parameter as well.
pub mod Bits
pub mod Pools
use yosys_quicklogic_plugins.Base.{
  ℕ, ◌≡◌, ◌≢◌, Bool, true, false, ◌&&◌, Option, none, some, List, [], ◌∷◌, Text, text_eq, All, ◌==◌,
  if◌then◌else◌,
}

-- `RTLIL::State`
pub data State : Type 0 where
  s0 s1 sx sz sa sm : State

-- `RTLIL::SigBit`: a bit of a wire, or a constant.
pub data SigBit : Type 0 where
  wire_bit : Text → ℕ → SigBit
  const_bit : State → SigBit

-- `RTLIL::Module` as M and `RTLIL::Const` as C.
pub record Netlist (M C : Type 0) : Type 0 where
  pub cells : M → List Text
  -- The wires with their first offset, width and directions, and the connections of the module.
  pub wires : M → List Text
  pub wire_offset : Text → M → ℕ
  pub wire_width : Text → M → ℕ
  pub port_input : Text → M → Bool
  pub port_output : Text → M → Bool
  pub module_connections : M → List (List SigBit × List SigBit)
  pub cell_type : Text → M → Text
  pub input : Text → Text → M → Bool
  pub output : Text → Text → M → Bool
  pub connections : Text → M → List (Text × List SigBit)
  pub get_port : Text → Text → M → Option (List SigBit)
  pub set_port : Text → Text → List SigBit → M → M
  -- The parameters of the cell itself, and those its type has by default.
  pub own_param : Text → Text → M → Option C
  pub default_param : Text → Text → Option C
  pub set_param : Text → Text → C → M → M
  pub unset_param : Text → Text → M → M
  pub remove : Text → M → M

-- The documented behaviour: what is set is read back, and nothing else changes.
pub record IsNetlist {M C : Type 0} (n : Netlist M C) : Type 0 where
  pub connections-get_port :
      (c : Text) (m : M) → All (λ conn. n.get_port c conn.0 m ≡ some conn.1) (n.connections c m)
  pub get_port-set_port :
      (c p d q : Text) (bits : List SigBit) (m : M)
      → n.get_port d q (n.set_port c p bits m)
        ≡ (if text_eq c d && text_eq p q then some bits else n.get_port d q m)
  pub get_port-set_param :
      (c k d q : Text) (v : C) (m : M) → n.get_port d q (n.set_param c k v m) ≡ n.get_port d q m
  pub get_port-remove :
      (c d q : Text) (m : M)
      → text_eq c d ≡ false
      → n.get_port d q (n.remove c m) ≡ n.get_port d q m
  pub own_param-set_port :
      (c p d k : Text) (bits : List SigBit) (m : M)
      → n.own_param d k (n.set_port c p bits m) ≡ n.own_param d k m
  pub own_param-set_param :
      (c k d l : Text) (v : C) (m : M)
      → n.own_param d l (n.set_param c k v m)
        ≡ (if text_eq c d && text_eq k l then some v else n.own_param d l m)
  pub own_param-remove :
      (c d k : Text) (m : M)
      → text_eq c d ≡ false
      → n.own_param d k (n.remove c m) ≡ n.own_param d k m
  pub type-set_port :
      (c p d : Text) (bits : List SigBit) (m : M)
      → n.cell_type d (n.set_port c p bits m) ≡ n.cell_type d m
  pub type-set_param :
      (c k d : Text) (v : C) (m : M) → n.cell_type d (n.set_param c k v m) ≡ n.cell_type d m
  pub type-remove :
      (c d : Text) (m : M) → text_eq c d ≡ false → n.cell_type d (n.remove c m) ≡ n.cell_type d m
