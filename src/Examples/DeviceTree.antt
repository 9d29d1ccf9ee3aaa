-- ===== src/Examples/DeviceTree.antt =====
-- A device tree in memory.
use caprese.Common.{
  ℕ, zero, suc, ◌+◌, ◌-◌, ◌*◌, ◌∷◌, [], List, ◌++◌, if◌then◌else◌, ltb, true, false,
}
use caprese.Dtb.{codes, Result, NodeCallback, PropCallback, DtbProp}
use caprese.Dtb.Tree.{FdtNode, FdtNodes}

abbrev byte_at : List ℕ → ℕ → ℕ
byte_at [] i = 0
byte_at (x ∷ xs) zero = x
byte_at (x ∷ xs) (suc i) = byte_at xs i

abbrev word : ℕ → List ℕ
word n = 0 ∷ 0 ∷ 0 ∷ n ∷ []

-- A root with `#address-cells` of 1, and a node below it.
abbrev fdt : List ℕ
fdt =
    (0xd0 ∷ 0x0d ∷ 0xfe ∷ 0xed ∷ [])
    ++ word 103
    ++ word 40
    ++ word 88
    ++ word 0
    ++ word 0
    ++ word 0
    ++ word 0
    ++ word 15
    ++ word 48
    ++ word 1
    ++ word 0
    ++ word 3
    ++ word 4
    ++ word 0
    ++ word 1
    ++ word 1
    ++ codes "a@1f"
    ++ word 0
    ++ word 2
    ++ word 2
    ++ word 9
    ++ codes "#address-cells"

abbrev fdt_memory : ℕ → ℕ
fdt_memory p = byte_at fdt (p - 4096)

abbrev fdt_tree : FdtNode
fdt_tree =
    FdtNode.node 4144 [] (record { name = codes "#address-cells"; value = 1 } ∷ [])
      (FdtNodes.cons (FdtNode.node 4172 (codes "a@1f") [] FdtNodes.nil) FdtNodes.nil)

-- The digits of a number with base 16, in small letters.
abbrev hex : ℕ → List ℕ → ℕ
hex n [] = n
hex n (c ∷ cs) = hex (n * 16 + (if ltb c 97 then c - 48 else c - 87)) cs

-- The addresses of the nodes and their cells, the last node first.
abbrev collect : NodeCallback (List (ℕ × ℕ))
collect node s = Result.done ((node.unit_address, node.address_cells) ∷ s, true)

-- The properties, the last one first, up to the first one.
abbrev first_prop : PropCallback (List DtbProp)
first_prop node prop s = Result.done (prop ∷ s, false)
