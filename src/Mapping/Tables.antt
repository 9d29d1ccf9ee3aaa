-- ===== src/Mapping/Tables.antt =====
-- src/kernel/cap.cpp: map_page_table_cap and unmap_page_table_cap.
use caprese.Common.{ℕ, ◌+◌, ◌*◌, ◌%◌, ◌^◌, ◌==◌, Bool, true, false, not, leb, if◌then◌else◌}
use caprese.Config.{u64, sub64, num_page_table_entry, kernel_space_base, kilo_page_table_level}
use caprese.Cap.{CapType, Capability, is_cap}
use caprese.Kernel.{
  Error, Pte, Cmd, pure, assert, refuse, ◌>>◌, ◌>>=◌, get_slot, set_cap, get_entry, put_entry,
  page_table_member,
}
use caprese.Page.{
  get_page_size, no_flags, enable, disable, is_enabled, is_disabled, set_flags, set_next_page,
  get_next_page,
}

-- `virt_addr_base + get_page_size(level) * index`
unfoldable pub entry_address : ℕ → ℕ → ℕ → ℕ
unfolding get_page_size
entry_address base level index = u64 (base + u64 (get_page_size level * index))

-- The entry of a table that leads to the next table.
unfoldable pub table_entry : ℕ → Pte → Pte
unfolding set_flags set_next_page enable
table_entry child e = enable (set_next_page child (set_flags no_flags e))

unfoldable pub map_page_table_cap : ℕ → ℕ → ℕ → Cmd Bool
map_page_table_cap page_table_slot index child_page_table_slot = do
  assert (not (page_table_slot == 0))
  s ← get_slot page_table_slot
  assert (is_cap CapType.page_table s.cap)
  if leb num_page_table_entry index
      then refuse Error.ill_args false
      else if child_page_table_slot == 0
      then refuse Error.ill_args false
      else do
        c ← get_slot child_page_table_slot
        if not (is_cap CapType.page_table c.cap) then refuse Error.cap_type false else do
          parent ← page_table_member s.cap
          child ← page_table_member c.cap
          let va = entry_address parent.virt_addr_base parent.level index
          if leb kernel_space_base va
              then refuse Error.ill_args false
              else if parent.level == kilo_page_table_level
              then refuse Error.ill_state false
              else do
                pte ← get_entry parent.table index
                if is_enabled pte
                    then refuse Error.ill_state false
                    else if child.mapped
                    then refuse Error.cap_state false
                    else do
                      put_entry parent.table index (table_entry child.table pte)
                      set_cap child_page_table_slot (
                          Capability.page_table (record child {
                            mapped = true;
                            level = sub64 parent.level 1 % 2 ^ 2;
                            virt_addr_base = va % 2 ^ 38;
                            parent_table = parent.table;
                          }))
                      pure true

unfoldable pub unmap_page_table_cap : ℕ → ℕ → ℕ → Cmd Bool
unmap_page_table_cap page_table_slot index child_page_table_slot = do
  assert (not (page_table_slot == 0))
  s ← get_slot page_table_slot
  assert (is_cap CapType.page_table s.cap)
  if leb num_page_table_entry index
      then refuse Error.ill_args false
      else if child_page_table_slot == 0
      then refuse Error.ill_args false
      else do
        c ← get_slot child_page_table_slot
        if not (is_cap CapType.page_table c.cap) then refuse Error.cap_type false else do
          parent ← page_table_member s.cap
          child ← page_table_member c.cap
          let va = entry_address parent.virt_addr_base parent.level index
          if leb kernel_space_base va then refuse Error.ill_args false else do
            pte ← get_entry parent.table index
            if is_disabled pte
                then refuse Error.ill_state false
                else if not child.mapped
                then refuse Error.cap_state false
                else if not (get_next_page pte == child.table)
                then refuse Error.ill_state false
                else do
                  put_entry parent.table index (disable pte)
                  set_cap child_page_table_slot
                      (Capability.page_table (record child { mapped = false; parent_table = 0 }))
                  pure true
