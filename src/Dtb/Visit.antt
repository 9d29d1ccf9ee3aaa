-- ===== src/Dtb/Visit.antt =====
-- The parser of src/arch/rv64/kernel/arch/dtb.cpp on memory that holds a tree.
use caprese.Common.{
  ℕ, zero, suc, ◌+◌, ◌%◌, ◌<◌, ◌≤◌, ◌≡◌, ◌≢◌, ◌∙◌, refl, sym, ap, subst, Bool, true, false, ◌==◌,
  ltb, if◌then◌else◌, List, length, arith,
}
use caprese.Dtb.Reader.{
  Result, ◌>>=◌, fdt_begin_node, fdt_end_node, fdt_nop, dtb_align, DtbSource, props_loop,
  fdt_header_magic, header_at,
}
use caprese.Dtb.Parser.{
  NodeCallback, node_of, node_end, silent, parse_dtb_node, parse_children, source_at,
}
use caprese.Dtb.Tree.{
  FdtProperty, FdtNode, FdtNodes, address_cells_of, size_cells_of, HoldsString, token, HoldsNode,
  HoldsNodes, visit, visit_all,
}
use caprese.Dtb.Walk.{
  weight, weight_all, string_at-HoldsString, dtb_skip_nop-stay, props_loop-HoldsProps,
  HoldsProps-token, HoldsNode-token, HoldsNodes-token, bind_ext, bind_assoc, visit_all-silent,
}

node_end-token :
    (d : DtbSource) (b : ℕ) → b < d.finish → token d b ≡ fdt_end_node → node_end d b ≡ b + 4
node_end-token d b lt e = ground arith

weight-positive : (t : FdtNode) → 0 < weight t
unfolding weight
weight-positive (FdtNode.node next name props children) = omega arith

module _ (S : Type 0) (d : DtbSource) where
  -- The place behind a node or behind nodes, with the state that visiting them leaves.
  abbrev pub then_at : ℕ → Result S → Result (ℕ × S)
  then_at q r = r >>= λ s. Result.done (q, s)

  abbrev ParsesAll : ℕ → ℕ → ℕ → ℕ → FdtNodes → ℕ → Type 0
  ParsesAll fuel p address_cells size_cells ns q =
      (callback : NodeCallback S) (s : S)
      → parse_children d fuel p address_cells size_cells callback s
        ≡ then_at q (visit_all d callback address_cells size_cells ns s)

  -- Below a node: the callback goes on, or only the place does.
  below_node :
      (fuel a x y : ℕ) (children : FdtNodes) (b : ℕ)
      → ParsesAll fuel a x y children b
      → node_end d b ≡ b + 4
      → (callback : NodeCallback S) (below : Bool) (s : S)
      → (parse_children d fuel a x y (if below then callback else silent d) s >>= λ (src, s').
          Result.done (node_end d src, s'))
        ≡ then_at (b + 4) (
            let rest = visit_all d callback x y children s in if below then rest else Result.done s)
  below_node fuel a x y children b h e callback true s =
      let r = visit_all d callback x y children s in
      rw (h callback s) (bind_assoc r _ _ ∙ bind_ext r _ _ (λ s'. ap (λ z. Result.done (z, s')) e))
  below_node fuel a x y children b h e callback false s =
      rw (h (silent d) s, visit_all-silent d children x y s, e) refl

  parse_dtb_node-step :
      (fuel p x y next : ℕ) (name : List ℕ) (props : List FdtProperty) (children : FdtNodes)
      (a b : ℕ)
      → 0 < x
      → p < d.finish
      → p % 4 ≡ 0
      → token d p ≡ fdt_begin_node
      → HoldsString d.memory (p + 4) name
      → dtb_align (p + 4 + length name + 1) ≡ next
      → length name < fuel
      → (token d next == fdt_nop) ≡ false
      → props_loop fuel d (record { place = next; address_cells = 2; size_cells = 1 })
        ≡ Result.done (record {
          place = a;
          address_cells = address_cells_of props 2;
          size_cells = size_cells_of props 1;
        })
      → ParsesAll fuel a (address_cells_of props 2) (size_cells_of props 1) children b
      → node_end d b ≡ b + 4
      → (callback : NodeCallback S) (s : S)
      → parse_dtb_node d (suc fuel) p x y callback s
        ≡ then_at (b + 4) (visit d callback x y (FdtNode.node next name props children) s)
  unfolding parse_dtb_node visit
  parse_dtb_node-step fuel p x y next name props children a b pos lt al t str e enough nop loop
        below end callback s =
      let cells : ltb 0 x ≡ true = ground arith in
      let place : (p % 4 == 0) ≡ true = ground arith in
      let begin : (token d p == fdt_begin_node) ≡ true = ground arith in
      rw
        (
          cells,
          place,
          begin,
          string_at-HoldsString d.memory fuel (p + 4) name enough str,
          e,
          dtb_skip_nop-stay d.memory fuel next (omega arith) nop,
          loop,
        )
        (bind_ext (callback (node_of d name next x y) s) _ _
            (λ (s', go). below_node fuel a _ _ children b below end callback go s')
          ∙ sym (bind_assoc (callback (node_of d name next x y) s) _ _))

  children_end :
      (fuel p x y : ℕ) (callback : NodeCallback S) (s : S)
      → p < d.finish
      → token d p ≡ fdt_end_node
      → 2 ≤ fuel
      → parse_children d fuel p x y callback s ≡ Result.done (p, s)
  unfolding parse_children
  children_end zero p x y callback s lt e enough = elim enough [ ]
  children_end (suc fuel) p x y callback s lt e enough =
      let more : ltb p d.finish ≡ true = ground arith in
      let not_nop : (token d p == fdt_nop) ≡ false = ground arith in
      let not_node : (token d p == fdt_begin_node) ≡ false = ground arith in
      rw (more, dtb_skip_nop-stay d.memory fuel p (omega arith) not_nop, not_node) refl

  children_step :
      (fuel p x y r : ℕ) (callback : NodeCallback S) (s : S) (n : FdtNode)
      → p < d.finish
      → token d p ≡ fdt_begin_node
      → 0 < fuel
      → parse_dtb_node d fuel p x y callback s ≡ then_at r (visit d callback x y n s)
      → parse_children d (suc fuel) p x y callback s
        ≡ (visit d callback x y n s >>= λ s'. parse_children d fuel r x y callback s')
  unfolding parse_children
  children_step fuel p x y r callback s n lt e enough node =
      let more : ltb p d.finish ≡ true = ground arith in
      let not_nop : (token d p == fdt_nop) ≡ false = ground arith in
      let is_node : (token d p == fdt_begin_node) ≡ true = ground arith in
      rw (more, dtb_skip_nop-stay d.memory fuel p enough not_nop, is_node, node)
        (bind_assoc (visit d callback x y n s) _ _)

  mutual
    unfolding weight weight_all HoldsNode HoldsNodes visit visit_all

    pub parse_dtb_node-visit :
        (t : FdtNode) (fuel p x y q : ℕ)
        → weight t ≤ fuel
        → HoldsNode d x p t q
        → (callback : NodeCallback S) (s : S)
        → parse_dtb_node d fuel p x y callback s ≡ then_at q (visit d callback x y t s)
    parse_dtb_node-visit (FdtNode.node next name props children) zero p x y q enough h callback s =
        ground arith
    parse_dtb_node-visit (FdtNode.node next name props children) (suc fuel) p x y q enough
          (pos, lt, al, e, str, next_is, (a, b, held, below, blt, be, q_is)) callback s =
        let (l, nop, no_prop) = HoldsNodes-token d children _ a b below blt be in
        subst
          (λ r.
            parse_dtb_node d (suc fuel) p x y callback s
            ≡ then_at r (visit d callback x y (FdtNode.node next name props children) s))
          q_is
          (parse_dtb_node-step fuel p x y next name props children a b pos lt al e str next_is
            (omega arith) (HoldsProps-token d props next a held nop)
            (props_loop-HoldsProps d props fuel next 2 1 a (omega arith) held l nop no_prop)
            (parse_children-visit children fuel a _ _ b (omega arith) below blt be)
            (node_end-token d b blt be) callback s)

    parse_children-visit :
        (ns : FdtNodes) (fuel p x y q : ℕ)
        → weight_all ns ≤ fuel
        → HoldsNodes d x p ns q
        → q < d.finish
        → token d q ≡ fdt_end_node
        → ParsesAll fuel p x y ns q
    parse_children-visit FdtNodes.nil fuel p x y q enough h lt e callback s =
        rw h (children_end fuel q x y callback s lt e enough)
    parse_children-visit (FdtNodes.cons n ns) zero p x y q enough h lt e callback s = ground arith
    parse_children-visit (FdtNodes.cons n ns) (suc fuel) p x y q enough (r, h, g) lt e callback s =
        let (l, t) = HoldsNode-token d n x p r h in
        children_step fuel p x y r callback s n l t (omega (arith, weight-positive n))
          (parse_dtb_node-visit n fuel p x y r (omega arith) h callback s)
        ∙ bind_ext (visit d callback x y n s) _ _
            (λ s'. parse_children-visit ns fuel r x y q (omega arith) g lt e callback s')
        ∙ sym (bind_assoc (visit d callback x y n s) _ _)

-- Memory holds the tree `t` at `dtb`, with the first cells that a root node has.
abbrev pub HoldsTree : (List ℕ → ℕ) → (ℕ → ℕ) → ℕ → FdtNode → Type 0
HoldsTree hex_value m dtb t =
    (dtb ≢ 0)
    × ((header_at m dtb).magic ≡ fdt_header_magic)
    × ((q : ℕ) × HoldsNode (source_at hex_value m dtb) 2 (dtb + (header_at m dtb).off_dt_struct) t
          q)
