-- ===== src/Dtb/Walk.antt =====
-- The steps of the parser of src/arch/rv64/kernel/arch/dtb.cpp on memory that holds a tree.
use caprese.Common.{
  ℕ, zero, suc, ◌+◌, ◌<◌, ◌≤◌, ◌≡◌, ◌∙◌, refl, sym, ap, subst, true, false, ◌==◌, leb, ltb,
  if◌then◌else◌, Bool-cases, inl, inr, List, [], ◌∷◌, length, some, arith,
}
use caprese.Dtb.Text.{codes, c_string, same_text}
use caprese.Dtb.Reader.{
  Result, ◌>>=◌, dtb_to_u32, fdt_begin_node, fdt_end_node, fdt_prop, fdt_nop, dtb_align, DtbSource,
  dtb_skip_nop, str_start, str_end, string_at, note_cells, props_loop,
}
use caprese.Dtb.Parser.{silent}
use caprese.Dtb.Names.{same_text_eq}
use caprese.Dtb.Tree.{
  FdtProperty, FdtNode, FdtNodes, address_cells_of, size_cells_of, HoldsString, token, HoldsProps,
  HoldsNode, HoldsNodes, visit, visit_all,
}

abbrev pub weight_props : List FdtProperty → ℕ
weight_props [] = 2
weight_props (x ∷ xs) = 2 + length x.name + weight_props xs

-- The fuel for a tree.
unfoldable mutual
  pub weight : FdtNode → ℕ
  weight (FdtNode.node next name props children) =
      2 + length name + weight_props props + weight_all children

  pub weight_all : FdtNodes → ℕ
  weight_all FdtNodes.nil = 2
  weight_all (FdtNodes.cons n ns) = 1 + weight n + weight_all ns

c_string-HoldsString :
    (m : ℕ → ℕ) (fuel p : ℕ) (cs : List ℕ)
    → length cs < fuel
    → HoldsString m p cs
    → c_string fuel m p ≡ some cs
unfolding c_string
c_string-HoldsString m zero p cs lt h = elim lt [ ]
c_string-HoldsString m (suc fuel) p [] lt h = rw h refl
c_string-HoldsString m (suc fuel) p (c ∷ cs) lt h =
    ground (arith, c_string-HoldsString m fuel (suc p) cs)

pub string_at-HoldsString :
    (m : ℕ → ℕ) (fuel p : ℕ) (cs : List ℕ)
    → length cs < fuel
    → HoldsString m p cs
    → string_at fuel m p ≡ Result.done cs
string_at-HoldsString m fuel p cs lt h = rw (c_string-HoldsString m fuel p cs lt h, string_at) refl

pub dtb_skip_nop-stay :
    (m : ℕ → ℕ) (fuel p : ℕ)
    → 0 < fuel
    → (dtb_to_u32 m p == fdt_nop) ≡ false
    → dtb_skip_nop fuel m p ≡ Result.done p
unfolding dtb_skip_nop
dtb_skip_nop-stay m zero p lt h = elim lt [ ]
dtb_skip_nop-stay m (suc fuel) p lt h = rw h refl

address_is_not_size : same_text (codes "#address-cells") (codes "#size-cells") ≡ false
unfolding same_text
address_is_not_size = refl

-- The two names exclude each other.
note_cells-cells :
    (name : List ℕ) (value p a b : ℕ)
    → note_cells name value (record { place = p; address_cells = a; size_cells = b }) ≡ (record {
      place = p;
      address_cells = if same_text name (codes "#address-cells") then value else a;
      size_cells = if same_text name (codes "#size-cells") then value else b;
    })
note_cells-cells name value p a b = elim (Bool-cases (same_text name (codes "#address-cells"))) [
  | inl e ↦
      let f : same_text name (codes "#size-cells") ≡ false =
        subst (λ t. same_text t (codes "#size-cells") ≡ false)
          (sym (same_text_eq name (codes "#address-cells") e)) address_is_not_size in
      rw (e, f) refl
  | inr e ↦ elim (Bool-cases (same_text name (codes "#size-cells"))) [
    | inl f ↦ rw (e, f) refl
    | inr f ↦ rw (e, f) refl
  ]
]

pub bind_ext :
    {A B : Type 0} (r : Result A) (f g : A → Result B)
    → ((a : A) → f a ≡ g a)
    → (r >>= f) ≡ (r >>= g)
bind_ext (Result.done a) f g h = h a
bind_ext (Result.stopped s) f g h = refl

pub bind_done : {A : Type 0} (r : Result A) → (r >>= λ a. Result.done a) ≡ r
bind_done (Result.done a) = refl
bind_done (Result.stopped s) = refl

pub bind_assoc :
    {A B C : Type 0} (r : Result A) (f : A → Result B) (g : B → Result C)
    → (r >>= f >>= g) ≡ (r >>= λ a. f a >>= g)
bind_assoc (Result.done a) f g = refl
bind_assoc (Result.stopped s) f g = refl

module _ (d : DtbSource) where
  props_loop-stop :
      (fuel p a b : ℕ)
      → p < d.finish
      → (token d p == fdt_nop) ≡ false
      → (token d p == fdt_prop) ≡ false
      → 2 ≤ fuel
      → props_loop fuel d (record { place = p; address_cells = a; size_cells = b })
        ≡ Result.done (record { place = p; address_cells = a; size_cells = b })
  unfolding props_loop
  props_loop-stop zero p a b lt h g e = elim e [ ]
  props_loop-stop (suc fuel) p a b lt h g e =
      let more : ltb p d.finish ≡ true = ground arith in
      rw (more, dtb_skip_nop-stay d.memory fuel p (omega arith) h, g) refl

  props_loop-step :
      (fuel p a b : ℕ) (x : FdtProperty)
      → p < d.finish
      → token d p ≡ fdt_prop
      → str_start d.memory d.header + token d (p + 8) < str_end d.memory d.header
      → HoldsString d.memory (str_start d.memory d.header + token d (p + 8)) x.name
      → token d (p + 12) ≡ x.value
      → length x.name < fuel
      → props_loop (suc fuel) d (record { place = p; address_cells = a; size_cells = b })
        ≡ props_loop fuel d (record {
          place = dtb_align (p + 12 + token d (p + 4));
          address_cells = if same_text x.name (codes "#address-cells") then x.value else a;
          size_cells = if same_text x.name (codes "#size-cells") then x.value else b;
        })
  unfolding props_loop
  props_loop-step fuel p a b x lt e within s v enough =
      let more : ltb p d.finish ≡ true = ground arith in
      let not_nop : (token d p == fdt_nop) ≡ false = ground arith in
      let is_prop : (token d p == fdt_prop) ≡ true = ground arith in
      let inside : leb (str_end d.memory d.header) (str_start d.memory d.header + token d (p + 8))
          ≡ false =
        ground arith in
      rw
        (
          more,
          dtb_skip_nop-stay d.memory fuel p (omega arith) not_nop,
          is_prop,
          inside,
          string_at-HoldsString d.memory fuel _ x.name enough s,
          v,
        )
        (ap (props_loop fuel d) (note_cells-cells x.name x.value _ a b))

  -- The loop passes the properties and stops at the node or the end token behind them.
  pub props_loop-HoldsProps :
      (xs : List FdtProperty) (fuel p a b q : ℕ)
      → weight_props xs ≤ fuel
      → HoldsProps d p xs q
      → q < d.finish
      → (token d q == fdt_nop) ≡ false
      → (token d q == fdt_prop) ≡ false
      → props_loop fuel d (record { place = p; address_cells = a; size_cells = b })
        ≡ Result.done (record {
          place = q;
          address_cells = address_cells_of xs a;
          size_cells = size_cells_of xs b;
        })
  unfolding address_cells_of size_cells_of
  props_loop-HoldsProps [] fuel p a b q e h lt n g = rw h (props_loop-stop fuel q a b lt n g e)
  props_loop-HoldsProps (x ∷ xs) zero p a b q e h lt n g = ground arith
  props_loop-HoldsProps (x ∷ xs) (suc fuel) p a b q e (l, t, w, s, v, h) lt n g =
      props_loop-step fuel p a b x l t w s v (omega arith)
      ∙ props_loop-HoldsProps xs fuel _ _ _ q (omega arith) h lt n g

  -- What stands where properties or nodes stand: the token of one of them, or the next place.
  pub HoldsProps-token :
      (xs : List FdtProperty) (p q : ℕ)
      → HoldsProps d p xs q
      → (token d q == fdt_nop) ≡ false
      → (token d p == fdt_nop) ≡ false
  HoldsProps-token [] p q h e = rw h e
  HoldsProps-token (x ∷ xs) p q h e = ground (arith, h.1)

  pub HoldsNode-token :
      (n : FdtNode) (a p q : ℕ)
      → HoldsNode d a p n q
      → (p < d.finish) × (token d p ≡ fdt_begin_node)
  unfolding HoldsNode
  HoldsNode-token (FdtNode.node next name props children) a p q h = (h.1, h.3)

  pub HoldsNodes-token :
      (ns : FdtNodes) (a p q : ℕ)
      → HoldsNodes d a p ns q
      → q < d.finish
      → token d q ≡ fdt_end_node
      → (p < d.finish) × ((token d p == fdt_nop) ≡ false) × ((token d p == fdt_prop) ≡ false)
  unfolding HoldsNodes
  HoldsNodes-token FdtNodes.nil a p q h lt e = rw h (lt, ground arith, ground arith)
  HoldsNodes-token (FdtNodes.cons n ns) a p q (r, h, g) lt e =
      let (l, t) = HoldsNode-token n a p r h in (l, ground arith, ground arith)

  module _ {S : Type 0} where
    visit-silent : (n : FdtNode) (a b : ℕ) (s : S) → visit d (silent d) a b n s ≡ Result.done s
    unfolding visit
    visit-silent (FdtNode.node next name props children) a b s = refl

    pub visit_all-silent :
        (ns : FdtNodes) (a b : ℕ) (s : S) → visit_all d (silent d) a b ns s ≡ Result.done s
    unfolding visit_all
    visit_all-silent FdtNodes.nil a b s = refl
    visit_all-silent (FdtNodes.cons n ns) a b s =
        rw (visit-silent n a b s) (visit_all-silent ns a b s)
