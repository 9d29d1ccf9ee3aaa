-- ===== src/Setup/Memory.antt =====
-- src/arch/rv64/kernel/setup.cpp: the regions that the device tree names, and setup_memory_capabilities.
use caprese.Common.{
  ℕ, zero, suc, ◌+◌, ◌*◌, ◌/◌, ◌^◌, true, false, not, ◌==◌, leb, ltb, if◌then◌else◌, List, [], ◌∷◌,
  ◌++◌, length,
}
use caprese.Config.{u64, u32, page_size}
use caprese.Align.{round_up}
use caprese.Kernel.{Stop}
use caprese.Page.{as_phys}
use caprese.Dtb.{
  Result, ◌>>=◌, assert, dtb_to_u32, DtbNode, DtbProp, PropValue, NodeCallback, PropCallback, codes,
  same_text, take, for_each_dtb_node, for_each_dtb_prop,
}
use caprese.Setup.Regions.{Region}

-- The three arrays, up to their counts.
pub record FoundRegions : Type 0 where
  pub reserved_region : List Region
  pub memory_region : List Region
  pub device_region : List Region

abbrev pub max_reserved_regions : ℕ
max_reserved_regions = 5

abbrev pub max_memory_regions : ℕ
max_memory_regions = 1

abbrev pub max_device_regions : ℕ
max_device_regions = 32

-- The array with one region more, or the panic where it is full.
unfoldable pub push_region : ℕ → List Region → Region → Result (List Region)
push_region limit regions r =
    if leb limit (length regions)
    then Result.stopped Stop.panic
    else Result.done (regions ++ r ∷ [])

unfoldable pub push_reserved_region : Region → FoundRegions → Result FoundRegions
push_reserved_region r s = push_region max_reserved_regions s.reserved_region r >>= λ rs.
    Result.done (record s { reserved_region = rs })

unfoldable pub push_memory_region : Region → FoundRegions → Result FoundRegions
push_memory_region r s = push_region max_memory_regions s.memory_region r >>= λ rs.
    Result.done (record s { memory_region = rs })

unfoldable pub push_device_region : Region → FoundRegions → Result FoundRegions
push_device_region r s =
    push_region max_device_regions s.device_region
      (record { start = r.start; finish = round_up r.finish page_size })
    >>= λ rs. Result.done (record s { device_region = rs })

-- The number in `count` cells from `p` on, behind the bits of `value`; uintptr_t keeps the last two.
unfoldable pub read_cells : ℕ → (ℕ → ℕ) → ℕ → ℕ → ℕ
read_cells zero m p value = value
read_cells (suc count) m p value =
    read_cells count m (p + 4) (u64 (value * 2 ^ 32) + dtb_to_u32 m p)

abbrev pub region_at : DtbNode → (ℕ → ℕ) → ℕ → Region
region_at node m p =
    let base = read_cells node.address_cells m p 0 in
    let size = read_cells node.size_cells m (p + 4 * node.address_cells) 0 in
    record { start = base; finish = u64 (base + size) }

module _ {S : Type 0} where
  -- The loop from the `i`-th of the `length` cells on; its counter is an uint32_t.
  unfoldable pub reg_loop :
      ℕ → (ℕ → ℕ) → DtbNode → ℕ → ℕ → ℕ → (Region → S → Result S) → S → Result S
  reg_loop zero m node cells count i callback s = Result.stopped Stop.out_of_fuel
  reg_loop (suc fuel) m node cells count i callback s =
      let body = callback (region_at node m (cells + 4 * i)) s >>= λ s'.
      reg_loop fuel m node cells count (u32 (i + u32 (node.address_cells + node.size_cells)))
        callback s' in
      if not (ltb i count) then Result.done s else body

  unfoldable pub for_each_reg :
      ℕ → (ℕ → ℕ) → DtbNode → DtbProp → (Region → S → Result S) → S → Result S
  for_each_reg fuel m node prop callback s =
      assert (same_text prop.name (codes "reg")) (elim prop.value [
        | PropValue.array len p ↦ reg_loop fuel m node p (len / 4) 0 callback s
        | _ ↦ Result.stopped Stop.bad_member
      ])

-- What setup_memory_capabilities does with a property, and with a node.
unfoldable pub note_prop : ℕ → (ℕ → ℕ) → PropCallback FoundRegions
note_prop fuel m node prop s =
    if not (same_text prop.name (codes "reg"))
    then Result.done (s, true)
    else if node.size_cells == 0
    then Result.done (s, true)
    else (if same_text (take 10 node.name) (codes "mmode_resv")
        then for_each_reg fuel m node prop push_reserved_region s
        else if same_text node.name (codes "memory")
        then for_each_reg fuel m node prop push_memory_region s
        else for_each_reg fuel m node prop push_device_region s)
      >>= λ s'. Result.done (s', false)

unfoldable pub note_node : ℕ → (List ℕ → ℕ) → (ℕ → ℕ) → NodeCallback FoundRegions
note_node fuel hex_value m node s =
    if same_text (codes "partitions") node.name
    then Result.done (s, false)
    else for_each_dtb_prop fuel hex_value m node (note_prop fuel m) s >>= λ s'.
        Result.done (s', true)

-- The symbols of the linker script, in the kernel's mapping.
pub record Image : Type 0 where
  pub kernel_start : ℕ
  pub kernel_end : ℕ
  pub payload_start : ℕ
  pub payload_end : ℕ
  pub root_task_stack_start : ℕ
  pub root_task_stack_end : ℕ

abbrev pub region_of : ℕ → ℕ → Region
region_of p q = record { start = as_phys p; finish = as_phys q }

unfoldable pub find_regions : ℕ → (List ℕ → ℕ) → (ℕ → ℕ) → Image → ℕ → Result FoundRegions
find_regions fuel hex_value m image dtb =
    push_reserved_region (region_of image.kernel_start image.kernel_end)
      (record { reserved_region = []; memory_region = []; device_region = [] })
    >>= push_reserved_region (region_of image.payload_start image.payload_end)
    >>= push_reserved_region (region_of image.root_task_stack_start image.root_task_stack_end)
    >>= for_each_dtb_node fuel hex_value m dtb (note_node fuel hex_value m)
