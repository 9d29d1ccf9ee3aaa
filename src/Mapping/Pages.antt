-- ===== src/Mapping/Pages.antt =====
-- src/kernel/cap.cpp: map_virt_page_cap, unmap_virt_page_cap and remap_virt_page_cap.
use caprese.Common.{ℕ, ◌%◌, ◌^◌, ◌==◌, Bool, true, false, not, leb, if◌then◌else◌}
use caprese.Config.{num_page_table_entry, kernel_space_base}
use caprese.Cap.{CapType, Capability, is_cap}
use caprese.Kernel.{
  Error, Pte, PteFlags, Cmd, pure, assert, refuse, ◌>>◌, ◌>>=◌, get_slot, set_cap, get_entry,
  put_entry, page_table_member, when, clear_memory, virt_page_member,
}
use caprese.Page.{
  as_map, get_page_size, enable, disable, is_enabled, is_disabled, set_flags, set_next_page,
  get_next_page,
}
use caprese.Mapping.Tables.{entry_address}

-- The entry of a table that leads to a page of the user's memory.
unfoldable pub page_entry : Bool → Bool → Bool → ℕ → Pte → Pte
unfolding set_flags set_next_page enable
page_entry readable writable executable page e = enable (set_next_page page (set_flags flags e))
  where
    flags : PteFlags
    flags = record {
      readable = readable;
      writable = writable;
      executable = executable;
      user = true;
      global = false;
    }

unfoldable pub map_virt_page_cap : ℕ → ℕ → ℕ → Bool → Bool → Bool → Cmd Bool
map_virt_page_cap page_table_slot index virt_page_slot readable writable executable = do
  assert (not (page_table_slot == 0))
  s ← get_slot page_table_slot
  assert (is_cap CapType.page_table s.cap)
  if leb num_page_table_entry index
      then refuse Error.ill_args false
      else if virt_page_slot == 0
      then refuse Error.ill_args false
      else do
        c ← get_slot virt_page_slot
        if not (is_cap CapType.virt_page c.cap) then refuse Error.cap_type false else do
          table ← page_table_member s.cap
          page ← virt_page_member c.cap
          let va = entry_address table.virt_addr_base page.level index
          if leb kernel_space_base va then refuse Error.ill_args false else do
            pte ← get_entry table.table index
            if is_enabled pte
                then refuse Error.ill_state false
                else if page.mapped
                then refuse Error.cap_state false
                else if not (page.level == table.level)
                then refuse Error.cap_state false
                else do
                  when (not page.device)
                      (clear_memory (as_map page.phys_addr) (get_page_size page.level))
                  put_entry table.table index
                      (page_entry readable writable executable (as_map page.phys_addr) pte)
                  set_cap virt_page_slot (
                      Capability.virt_page (record page {
                        mapped = true;
                        readable = readable;
                        writable = writable;
                        executable = executable;
                        index = index % 2 ^ 9;
                        address = va;
                        parent_table = table.table;
                      }))
                  pure true

unfoldable pub unmap_virt_page_cap : ℕ → ℕ → ℕ → Cmd Bool
unmap_virt_page_cap page_table_slot index virt_page_slot = do
  assert (not (page_table_slot == 0))
  s ← get_slot page_table_slot
  assert (is_cap CapType.page_table s.cap)
  if leb num_page_table_entry index
      then refuse Error.ill_args false
      else if virt_page_slot == 0
      then refuse Error.ill_args false
      else do
        c ← get_slot virt_page_slot
        if not (is_cap CapType.virt_page c.cap) then refuse Error.cap_type false else do
          table ← page_table_member s.cap
          page ← virt_page_member c.cap
          let va = entry_address table.virt_addr_base page.level index
          if leb kernel_space_base va then refuse Error.ill_args false else do
            pte ← get_entry table.table index
            if is_disabled pte
                then refuse Error.ill_state false
                else if not page.mapped
                then refuse Error.cap_state false
                else if not (get_next_page pte == as_map page.phys_addr)
                then refuse Error.ill_state false
                else do
                  put_entry table.table index (disable pte)
                  set_cap virt_page_slot
                      (Capability.virt_page (record page { mapped = false; parent_table = 0 }))
                  pure true

unfoldable pub remap_virt_page_cap : ℕ → ℕ → ℕ → Bool → Bool → Bool → ℕ → Cmd Bool
remap_virt_page_cap new_table_slot index virt_page_slot readable writable executable
      old_table_slot =
    do
      assert (not (new_table_slot == 0))
      s ← get_slot new_table_slot
      assert (is_cap CapType.page_table s.cap)
      if leb num_page_table_entry index
          then refuse Error.ill_args false
          else if virt_page_slot == 0
          then refuse Error.ill_args false
          else do
            c ← get_slot virt_page_slot
            if not (is_cap CapType.virt_page c.cap)
                then refuse Error.cap_type false
                else if old_table_slot == 0
                then refuse Error.ill_args false
                else do
                  o ← get_slot old_table_slot
                  if not (is_cap CapType.page_table o.cap) then refuse Error.cap_type false else do
                    new ← page_table_member s.cap
                    page ← virt_page_member c.cap
                    old ← page_table_member o.cap
                    let va = entry_address new.virt_addr_base page.level index
                    if leb kernel_space_base va
                        then refuse Error.ill_args false
                        else if not page.mapped
                        then refuse Error.cap_state false
                        else if not (new.level == old.level)
                        then refuse Error.cap_state false
                        else if not (new.level == page.level)
                        then refuse Error.cap_state false
                        else do
                          new_pte ← get_entry new.table index
                          if is_enabled new_pte then refuse Error.ill_state false else do
                            old_pte ← get_entry old.table page.index
                            if is_disabled old_pte
                                then refuse Error.ill_state false
                                else if not (get_next_page old_pte == as_map page.phys_addr)
                                then refuse Error.ill_state false
                                else do
                                  put_entry old.table page.index (disable old_pte)
                                  pte ← get_entry new.table index
                                  put_entry new.table index (
                                      page_entry readable writable executable
                                        (as_map page.phys_addr) pte)
                                  set_cap virt_page_slot (
                                      Capability.virt_page (record page {
                                        readable = readable;
                                        writable = writable;
                                        executable = executable;
                                        index = index % 2 ^ 9;
                                        address = va;
                                        parent_table = new.table;
                                      }))
                                  pure true
