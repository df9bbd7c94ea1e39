-- ===== src/Dsp/Marked.antt =====
-- dsp-ff-plugin/dsp_ff.cc, `processRegister`: what a register marks for removal.
use mathlib.Core.Path.{subst}
use mathlib.Core.Option.{some-injective}
use yosys_quicklogic_plugins.Base.{
  ℕ, zero, suc, ◌≡◌, refl, inl, inr, ◌||◌, Option, none, some, List, [], ◌∷◌, Text, text_eq, All,
  All-map, Bool-cases,
}
use yosys_quicklogic_plugins.Base.Maps.{lookup, All-insert}
use yosys_quicklogic_plugins.Base.Results.{ok, Holds, Holds-self, Holds-any, Holds-if, Holds-bind}
use yosys_quicklogic_plugins.Rtlil.{SigBit}
use yosys_quicklogic_plugins.Rtlil.Bits.{set_at}
use yosys_quicklogic_plugins.Rtlil.Pools.{add_member, All-add_member}
use yosys_quicklogic_plugins.Dsp.Rules.{Dict, FlopType, PortType, RegisterType}
use yosys_quicklogic_plugins.Dsp.Connections.{Setting, ConnMap}
use yosys_quicklogic_plugins.Dsp.Flops.{
  missing_port, FlopData, or_failure, flop_data_eq, get_flop_data,
}
use yosys_quicklogic_plugins.Dsp.Inspect.{
  FoundFlops, Verdict, skipped, refused, flop_at, nulls, inspect_bit, mapped_params, set_flop,
  note_verdict, inspect_bits, inspect_port, inspect_ports,
}
use yosys_quicklogic_plugins.Dsp.Registers.{
  PassState, take_flop, take_flops, reconnect_port, reconnect_ports, flop_port_for, function_of,
}
use yosys_quicklogic_plugins.Dsp.Removal.{
  IsRemovable, VerdictOk, inspect_bit-VerdictOk, IsGrouped, IsGrouped-add, IsGrouped-kept,
}

lookup-All :
    {V : Type 0} (P : V → Type 0) (k : Text) (m : List (Text × V)) {w : V}
    → All (λ entry. P entry.1) m
    → lookup k m ≡ some w
    → P w
unfolding lookup
lookup-All P k [] h e_w = absurd (cc e_w)
lookup-All P k ((j, v) ∷ m) (h, hs) e_w = elim (Bool-cases (text_eq j k)) [
  | inl g ↦ subst P (some-injective _ _ (rw g at e_w)) h
  | inr g ↦ lookup-All P k m hs (rw g at e_w)
]

set_at-All :
    {A : Type 0} (P : A → Type 0) (xs : List A) (i : ℕ) (y : A)
    → P y
    → All P xs
    → All P (set_at xs i y)
unfolding set_at
set_at-All P [] i y h hs = tt
set_at-All P (x ∷ xs) zero y h (hx, hs) = (h, hs)
set_at-All P (x ∷ xs) (suc i) y h (hx, hs) = (hx, set_at-All P xs i y h hs)

module _ {M C : Type 0} (e : Setting M C) where
  -- A cell of the dictionary of flip-flops may be removed and is in one of the groups.
  abbrev pub FlopOk : M → Dict Text → List (FlopData C) → Option Text → Type 0
  FlopOk m ps gs none = Unit
  FlopOk m ps gs (some c) = IsRemovable e m c × IsGrouped e m ps gs c

  abbrev pub FoundOk : M → Dict Text → FoundFlops C → Type 0
  FoundOk m ps found = All (λ entry. All (FlopOk m ps found.groups) entry.1) found.flops

  nulls-All :
      {A : Type 0} (m : M) (ps : Dict Text) (gs : List (FlopData C)) (xs : List A)
      → All (FlopOk m ps gs) (nulls xs)
  nulls-All m ps gs [] = tt
  nulls-All m ps gs (x ∷ xs) = (tt, nulls-All m ps gs xs)

  FlopOk-kept :
      (m : M) (ps : Dict Text) (gs : List (FlopData C)) (d : FlopData C) (o : Option Text)
      → FlopOk m ps gs o
      → FlopOk m ps (add_member (flop_data_eq e) d gs) o
  FlopOk-kept m ps gs d none h = tt
  FlopOk-kept m ps gs d (some c) (r, h) = (r, IsGrouped-kept e m ps gs d c h)

  set_flop-All :
      (P : Option Text → Type 0) (port : Text) (i : ℕ) (c : Text) (o : Option (List (Option Text)))
      (flops : Dict (List (Option Text)))
      → P (some c)
      → ((cells : List (Option Text)) → o ≡ some cells → All P cells)
      → All (λ entry. All P entry.1) flops
      → All (λ entry. All P entry.1) (set_flop e port i c o flops)
  set_flop-All P port i c none flops h ho hs = hs
  set_flop-All P port i c (some cells) flops h ho hs =
      All-insert (λ entry. All P entry.1) port (set_at cells i (some c)) flops
        (set_at-All P cells i (some c) h (ho cells refl)) hs

  note_verdict-FoundOk :
      (register : RegisterType C) (port : Text) (i : ℕ) (verdict : Verdict) (m : M)
      (found : FoundFlops C)
      → VerdictOk e m verdict
      → FoundOk m register.map_params found
      → Holds (FoundOk m register.map_params) (note_verdict e register port i verdict m found)
  note_verdict-FoundOk register port i skipped m found k h = h
  note_verdict-FoundOk register port i refused m found k h = h
  note_verdict-FoundOk register port i (flop_at c) m found k h =
      let extra = mapped_params e c register.map_params m [] in
      Holds-bind (λ d. get_flop_data e c extra m ≡ ok d) (FoundOk m register.map_params)
        (get_flop_data e c extra m) _ (Holds-self _)
        (λ d e_d.
          let P = FlopOk m register.map_params (add_member (flop_data_eq e) d found.groups) in
          let kept : All (λ entry. All P entry.1) found.flops =
            All-map (λ entry. All (FlopOk m register.map_params found.groups) entry.1)
              (λ entry. All P entry.1) found.flops
              (λ entry hs.
                All-map (FlopOk m register.map_params found.groups) P entry.1
                  (FlopOk-kept m register.map_params found.groups d) hs)
              h in
          set_flop-All P port i c (lookup port found.flops) found.flops
            (k, IsGrouped-add e m register.map_params found.groups d c e_d)
            (λ cells e_cells. lookup-All (All P) port found.flops kept e_cells) kept)

  inspect_bits-FoundOk :
      (cell : Text) (register : RegisterType C) (port : PortType C) (conns : ConnMap)
      (removed : List Text) (i : ℕ) (bits : List SigBit) (m : M) (found : FoundFlops C)
      → FoundOk m register.map_params found
      → Holds
          (FoundOk m register.map_params)
          (inspect_bits e cell register port conns removed i bits m found)
  unfolding inspect_bits
  inspect_bits-FoundOk cell register port conns removed i [] m found h = h
  inspect_bits-FoundOk cell register port conns removed i (b ∷ bits) m found h =
      Holds-bind (VerdictOk e m) (FoundOk m register.map_params)
        (inspect_bit e cell port conns removed i (e.sigmap b) m) _
        (inspect_bit-VerdictOk e cell port conns removed i (e.sigmap b) m)
        (λ verdict k.
          Holds-bind (FoundOk m register.map_params) (FoundOk m register.map_params)
            (note_verdict e register port.name i verdict m found) _
            (note_verdict-FoundOk register port.name i verdict m found k h)
            (λ found' h'.
              inspect_bits-FoundOk cell register port conns removed (suc i) bits m found' h'))

  inspect_port-FoundOk :
      (cell : Text) (register : RegisterType C) (port : PortType C) (conns : ConnMap)
      (removed : List Text) (o : Option (List SigBit)) (m : M) (found : FoundFlops C)
      → FoundOk m register.map_params found
      → Holds
          (FoundOk m register.map_params)
          (inspect_port e cell register port conns removed o m found)
  inspect_port-FoundOk cell register port conns removed none m found h = h
  inspect_port-FoundOk cell register port conns removed (some bits) m found h =
      Holds-if (FoundOk m register.map_params)
        (e.netlist.output cell port.name m || e.netlist.input cell port.name m) _ _
        (inspect_bits-FoundOk cell register port conns removed 0 bits m _ (
          All-insert (λ entry. All (FlopOk m register.map_params found.groups) entry.1) port.name
            (nulls bits) found.flops (nulls-All m register.map_params found.groups bits) h))
        tt

  pub inspect_ports-FoundOk :
      (cell : Text) (register : RegisterType C) (ports : List (PortType C)) (conns : ConnMap)
      (removed : List Text) (m : M) (found : FoundFlops C)
      → FoundOk m register.map_params found
      → Holds
          (FoundOk m register.map_params)
          (inspect_ports e cell register ports conns removed m found)
  unfolding inspect_ports
  inspect_ports-FoundOk cell register [] conns removed m found h = h
  inspect_ports-FoundOk cell register (p ∷ ps) conns removed m found h =
      Holds-bind (FoundOk m register.map_params) (FoundOk m register.map_params)
        (inspect_port e cell register p conns removed (e.netlist.get_port cell p.name m) m found) _
        (inspect_port-FoundOk cell register p conns removed (e.netlist.get_port cell p.name m) m
          found h)
        (λ found' h'. inspect_ports-FoundOk cell register ps conns removed m found' h')

  -- A predicate that the cells of the dictionary have.
  abbrev pub CellOk : (Text → Type 0) → Option Text → Type 0
  CellOk Q none = Unit
  CellOk Q (some c) = Q c

  take_flops-All :
      (Q : Text → Type 0) (flop_port : Text) (i : ℕ) (cells : List (Option Text))
      (bits : List SigBit) (m : M) (removed : List Text)
      → All (CellOk Q) cells
      → All Q removed
      → Holds (λ taken. All Q taken.1) (take_flops e flop_port i cells bits m removed)
  unfolding take_flops
  take_flops-All Q flop_port i [] bits m removed hc h = h
  take_flops-All Q flop_port i (none ∷ cells) bits m removed (k, hc) h =
      take_flops-All Q flop_port (suc i) cells bits m removed hc h
  take_flops-All Q flop_port i (some c ∷ cells) bits m removed (k, hc) h =
      Holds-bind (λ bs. Unit) (λ taken. All Q taken.1) _ _
        (Holds-any (take_flop e (e.netlist.get_port c flop_port m) i bits))
        (λ bs u.
          take_flops-All Q flop_port (suc i) cells bs m _ hc
            (All-add_member text_eq Q c removed k h))

  reconnect_port-All :
      (Q : Text → Type 0) (cell : Text) (flop_type : FlopType C) (port : Text)
      (o : Option (List (Option Text))) (s : PassState M)
      → ((cells : List (Option Text)) → o ≡ some cells → All (CellOk Q) cells)
      → All Q s.to_remove
      → Holds (λ s'. All Q s'.to_remove) (reconnect_port e cell flop_type port o s)
  reconnect_port-All Q cell flop_type port none s ho h = h
  reconnect_port-All Q cell flop_type port (some cells) s ho h =
      let Goal : PassState M → Type 0 = λ s'. All Q s'.to_remove in
      Holds-bind (λ bits. Unit) Goal _ _
        (Holds-any (or_failure missing_port (e.netlist.get_port cell port s.design)))
        (λ bits u.
          Holds-bind (λ p. Unit) Goal _ _
            (Holds-any (
              flop_port_for e cells
                (lookup (e.escape_id (function_of e cell port s.design)) flop_type.ports)))
            (λ p w.
              Holds-bind (λ taken. All Q taken.1) Goal
                (take_flops e p 0 cells bits s.design s.to_remove) _
                (take_flops-All Q p 0 cells bits s.design s.to_remove (ho cells refl) h)
                (λ taken k. k)))

  pub reconnect_ports-All :
      (Q : Text → Type 0) (cell : Text) (flop_type : FlopType C) (ports : List (PortType C))
      (flops : Dict (List (Option Text))) (s : PassState M)
      → All (λ entry. All (CellOk Q) entry.1) flops
      → All Q s.to_remove
      → Holds (λ s'. All Q s'.to_remove) (reconnect_ports e cell flop_type ports flops s)
  unfolding reconnect_ports
  reconnect_ports-All Q cell flop_type [] flops s hf h = h
  reconnect_ports-All Q cell flop_type (p ∷ ps) flops s hf h =
      Holds-bind (λ s'. All Q s'.to_remove) (λ s'. All Q s'.to_remove)
        (reconnect_port e cell flop_type p.name (lookup p.name flops) s) _
        (reconnect_port-All Q cell flop_type p.name (lookup p.name flops) s
          (λ cells e_cells. lookup-All (All (CellOk Q)) p.name flops hf e_cells) h)
        (λ s' h'. reconnect_ports-All Q cell flop_type ps flops s' hf h')
