-- ===== src/Dtb/PropType.antt =====
-- include/arch/rv64/kernel/arch/dtb.h: the names of properties by their types; find_prop_type of
-- src/arch/rv64/kernel/arch/dtb.cpp.
use Prim.Native.String.{String}
use caprese.Common.{
  ℕ, zero, suc, ◌+◌, ◌-◌, ◌/◌, Bool, not, ◌&&◌, ltb, if◌then◌else◌, List, [], ◌∷◌, map, length,
}
use caprese.Dtb.Text.{codes, text_less}

pub data DtbPropType : Type 0 where
  empty u32 u64 str array phandle str_list unknown : DtbPropType

abbrev pub fdt_u32_types : List String
fdt_u32_types =
    "#address-cells" ∷ "#interrupt-cells" ∷ "#size-cells" ∷ "cache-block-size" ∷ "cache-line-size"
    ∷ "cache-op-block-size" ∷ "cache-sets" ∷ "cache-size" ∷ "d-cache-block-size"
    ∷ "d-cache-line-size" ∷ "d-cache-sets" ∷ "d-cache-size" ∷ "d-tlb-sets" ∷ "d-tlb-sets"
    ∷ "d-tlb-size" ∷ "i-cache-block-size" ∷ "i-cache-line-size" ∷ "i-cache-sets" ∷ "i-cache-size"
    ∷ "i-tlb-sets" ∷ "reservation-granule-size" ∷ "riscv,ndev" ∷ "tlb-sets" ∷ "tlb-size"
    ∷ "virtual-reg" ∷ []

abbrev pub fdt_u64_types : List String
fdt_u64_types = "cpu-release-addr" ∷ []

abbrev pub fdt_str_types : List String
fdt_str_types =
    "bootargs" ∷ "device_type" ∷ "mmu-type" ∷ "model" ∷ "name" ∷ "riscv,isa" ∷ "status"
    ∷ "stdin-path" ∷ "stdout-path" ∷ []

abbrev pub fdt_array_types : List String
fdt_array_types =
    "clock-frequency" ∷ "dma-ranges" ∷ "initial-mapped-area" ∷ "interrupt-map-mask"
    ∷ "interrupt-map" ∷ "interrupts-extended" ∷ "interrupts" ∷ "ranges" ∷ "reg"
    ∷ "timebase-frequency" ∷ []

abbrev pub fdt_phandle_types : List String
fdt_phandle_types = "interrupt-parent" ∷ "next-level-cache" ∷ "phandle" ∷ []

abbrev pub fdt_str_list_types : List String
fdt_str_list_types = "compatible" ∷ "enable-method" ∷ []

-- Out of range, which does not happen: the empty name.
abbrev pub name_at : List (List ℕ) → ℕ → List ℕ
name_at [] i = []
name_at (x ∷ xs) zero = x
name_at (x ∷ xs) (suc i) = name_at xs i

-- std::lower_bound on the `len` names from `first` on: the loop halves the range, and its rounds are
-- counted.
unfoldable pub lower_bound : ℕ → List (List ℕ) → List ℕ → ℕ → ℕ → ℕ
lower_bound zero table name first len = first
lower_bound (suc rounds) table name first len =
    let half = len / 2 in
    let upper = lower_bound rounds table name (first + half + 1) (len - half - 1) in
    let lower = lower_bound rounds table name first half in
    if not (ltb 0 len)
    then first
    else if text_less (name_at table (first + half)) name
    then upper
    else lower

-- std::binary_search
unfoldable pub binary_search : List (List ℕ) → List ℕ → Bool
binary_search table name =
    let i = lower_bound (suc (length table)) table name 0 (length table) in
    ltb i (length table) && not (text_less name (name_at table i))

unfoldable pub find_prop_type : List ℕ → DtbPropType
find_prop_type name =
    if binary_search (map codes fdt_u32_types) name
    then DtbPropType.u32
    else if binary_search (map codes fdt_u64_types) name
    then DtbPropType.u64
    else if binary_search (map codes fdt_str_types) name
    then DtbPropType.str
    else if binary_search (map codes fdt_array_types) name
    then DtbPropType.array
    else if binary_search (map codes fdt_phandle_types) name
    then DtbPropType.phandle
    else if binary_search (map codes fdt_str_list_types) name
    then DtbPropType.str_list
    else DtbPropType.unknown
