-- ===== src/Examples/Tables.antt =====
-- Page tables.
use caprese.Common.{◌+◌, ◌^◌, ◌≡◌, ◌↔◌, refl, true, false, arith}
use caprese.Cap.{Capability}
use caprese.Kernel.{Kernel, Error, Ensures, and_then, ok, get_slot}
use caprese.Mapping.{
  map_page_table_cap, unmap_page_table_cap, map_virt_page_cap, table_entry, entry_address,
}
use caprese.Mapping.Tree.{
  CanMap, mapped_cap, with_mapping, map_page_table_cap_iff, unmap-map_page_table_cap,
}
use caprese.Page.{get_page_size}
use caprese.Object.{destroy_page_table_object}
use caprese.Mapping.Undo.{destroy-map_page_table_cap}
use caprese.Mapping.Leaves.{
  MapCall, run_call, mapping_refused, CanMapPage, with_page, map_virt_page_cap_iff,
}
use caprese.Examples.Kernels.{root_table, new_table, giga_page, with_root, no_entry}

abbrev table_kernel : Kernel
table_kernel = with_root (Capability.page_table new_table)

abbrev after_map : Kernel
after_map =
    with_mapping 4096 1 (table_entry (2 ^ 37 + 8192) no_entry) 4160
      (Capability.page_table (mapped_cap 1 root_table new_table)) table_kernel

map_table_example : (map_page_table_cap 4120 1 4160 table_kernel ≡ ok true after_map) ↔ (
    CanMap 4120 1 4160 table_kernel root_table new_table
    × (after_map
        ≡ with_mapping 4096 1
            (table_entry (2 ^ 37 + 8192) no_entry)
            4160
            (Capability.page_table (mapped_cap 1 root_table new_table))
            table_kernel))
map_table_example =
    map_page_table_cap_iff 4120 1 4160 table_kernel after_map root_table new_table refl refl

can_map : CanMap 4120 1 4160 table_kernel root_table new_table
unfolding entry_address
can_map = record {
  parent_slot = refl;
  child_slot = refl;
  parent_set = ground arith;
  child_set = ground arith;
  table_set = ground arith;
  in_table = omega arith;
  user_space = omega arith;
  above_pages = ground arith;
  free_entry = refl;
  unmapped = refl;
}

unmap_example :
    Ensures
      (λ r k'.
        (r ≡ true)
        × ((k'.tables 4096 1).v ≡ false)
        × ((k'.slots 4160).cap
            ≡ Capability.page_table
                (record (mapped_cap 1 root_table new_table) { mapped = false; parent_table = 0 }))
        × ((k'.slots 4120).cap ≡ Capability.page_table root_table))
      (and_then
        (map_page_table_cap 4120 1 4160 table_kernel)
        (λ _. unmap_page_table_cap 4120 1 4160))
unmap_example =
    unmap-map_page_table_cap 4120 1 4160 table_kernel root_table new_table can_map (ground arith)
      (omega arith) (omega arith) (omega arith)

-- An index outside the table.
abbrev refused_kernel : Kernel
refused_kernel = record table_kernel { errno = Error.ill_args }

refused : run_call (MapCall.map_table 4120 512 4160) table_kernel ≡ ok false refused_kernel
unfolding map_page_table_cap get_slot
refused = refl

refused_example : refused_kernel ≡ record table_kernel { errno = Error.ill_args }
refused_example =
    mapping_refused (MapCall.map_table 4120 512 4160) table_kernel refused_kernel refused

abbrev page_kernel : Kernel
page_kernel = with_root (Capability.virt_page giga_page)

abbrev after_page : Kernel
after_page = with_page 1 4160 true true false root_table giga_page page_kernel

map_page_example :
    (map_virt_page_cap 4120 1 4160 true true false page_kernel ≡ ok true after_page) ↔ (
      CanMapPage 4120 1 4160 page_kernel root_table giga_page
      × (after_page ≡ with_page 1 4160 true true false root_table giga_page page_kernel))
map_page_example =
    map_virt_page_cap_iff 4120 1 4160 true true false page_kernel after_page root_table giga_page
      refl refl

destroy_example :
    Ensures
      (λ _ k'. (k'.tables 4096 1).v ≡ false)
      (and_then
        (map_page_table_cap 4120 1 4160 table_kernel)
        (λ _. destroy_page_table_object 1 4160))
unfolding get_page_size
destroy_example =
    destroy-map_page_table_cap 1 4120 1 4160 table_kernel root_table new_table can_map
      (record { small = omega arith; three_levels = omega arith; aligned = omega arith }) refl
      (omega arith) (omega arith) (omega arith)
