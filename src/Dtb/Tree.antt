-- ===== src/Dtb/Tree.antt =====
-- A device tree as a tree, and what it means that memory holds it.
use caprese.Common.{ℕ, suc, ◌+◌, ◌%◌, ◌<◌, ◌≡◌, ◌≢◌, if◌then◌else◌, List, [], ◌∷◌, length}
use caprese.Dtb.Text.{codes, same_text}
use caprese.Dtb.Reader.{
  Result, ◌>>=◌, dtb_to_u32, fdt_begin_node, fdt_end_node, fdt_prop, dtb_align, DtbSource,
  str_start, str_end,
}
use caprese.Dtb.Parser.{NodeCallback, node_of}

-- A property's name, and the first four bytes of its value as a number.
pub record FdtProperty : Type 0 where
  pub name : List ℕ
  pub value : ℕ

-- `next` is where the properties of the node begin.
mutual
  pub data FdtNode : Type 0 where
    node : (next : ℕ) (name : List ℕ) (props : List FdtProperty) (children : FdtNodes) → FdtNode

  pub data FdtNodes : Type 0 where
    nil : FdtNodes
    cons : FdtNode → FdtNodes → FdtNodes

-- What the properties give the children, where `n` is what holds without them.
unfoldable pub address_cells_of : List FdtProperty → ℕ → ℕ
address_cells_of [] n = n
address_cells_of (x ∷ xs) n =
    address_cells_of xs (if same_text x.name (codes "#address-cells") then x.value else n)

unfoldable pub size_cells_of : List FdtProperty → ℕ → ℕ
size_cells_of [] n = n
size_cells_of (x ∷ xs) n =
    size_cells_of xs (if same_text x.name (codes "#size-cells") then x.value else n)

abbrev pub HoldsString : (ℕ → ℕ) → ℕ → List ℕ → Type 0
HoldsString m p [] = m p ≡ 0
HoldsString m p (c ∷ cs) = (c ≢ 0) × (m p ≡ c) × HoldsString m (suc p) cs

module _ (d : DtbSource) where
  abbrev pub token : ℕ → ℕ
  token p = dtb_to_u32 d.memory p

  -- From `p` to `q`, the properties with their tokens, lengths and names.
  abbrev pub HoldsProps : ℕ → List FdtProperty → ℕ → Type 0
  HoldsProps p [] q = p ≡ q
  HoldsProps p (x ∷ xs) q =
      (p < d.finish)
      × (token p ≡ fdt_prop)
      × (str_start d.memory d.header + token (p + 8) < str_end d.memory d.header)
      × HoldsString d.memory (str_start d.memory d.header + token (p + 8)) x.name
      × (token (p + 12) ≡ x.value)
      × HoldsProps (dtb_align (p + 12 + token (p + 4))) xs q

  -- From `p` to `q`, a node whose parent gives it `address_cells`, without a NOP token.
  unfoldable mutual
    pub HoldsNode : ℕ → ℕ → FdtNode → ℕ → Type 0
    HoldsNode address_cells p (FdtNode.node next name props children) q =
        (0 < address_cells)
        × (p < d.finish)
        × (p % 4 ≡ 0)
        × (token p ≡ fdt_begin_node)
        × HoldsString d.memory (p + 4) name
        × (dtb_align (p + 4 + length name + 1) ≡ next)
        × ((a b : ℕ) × HoldsProps next props a
            × HoldsNodes (address_cells_of props 2) a children b
            × (b < d.finish)
            × (token b ≡ fdt_end_node)
            × (b + 4 ≡ q))

    pub HoldsNodes : ℕ → ℕ → FdtNodes → ℕ → Type 0
    HoldsNodes address_cells p FdtNodes.nil q = p ≡ q
    HoldsNodes address_cells p (FdtNodes.cons n ns) q =
        (r : ℕ) × HoldsNode address_cells p n r × HoldsNodes address_cells r ns q

-- The callback at the node, and at the nodes below it where it says so.
module _ {S : Type 0} (d : DtbSource) (callback : NodeCallback S) where
  unfoldable mutual
    pub visit : ℕ → ℕ → FdtNode → S → Result S
    visit address_cells size_cells (FdtNode.node next name props children) s =
        callback (node_of d name next address_cells size_cells) s >>= λ (s', below).
        let rest = visit_all (address_cells_of props 2) (size_cells_of props 1) children s' in
        if below then rest else Result.done s'

    pub visit_all : ℕ → ℕ → FdtNodes → S → Result S
    visit_all address_cells size_cells FdtNodes.nil s = Result.done s
    visit_all address_cells size_cells (FdtNodes.cons n ns) s =
        visit address_cells size_cells n s >>= visit_all address_cells size_cells ns
