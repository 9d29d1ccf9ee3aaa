-- ===== src/Object/Destroy.antt =====
-- src/kernel/cap.cpp: what becomes of an object whose last capability goes.
use caprese.Common.{ℕ, ◌+◌, ◌==◌, Bool, true, not, if◌then◌else◌}
use caprese.Cap.{CapType, Capability, is_cap}
use caprese.Kernel.{
  Cmd, pure, assert, ◌>>◌, ◌>>=◌, get_slot, set_cap, get_entry, put_entry, memory_member,
  page_table_member, virt_page_member,
}
use caprese.Page.{disable, is_enabled, get_next_page, as_map, walk}
use caprese.CapSlot.{is_tail}
use caprese.Object.Compare.{is_same_object}

-- `slot->is_tail() || !is_same_object(slot, slot->next)`
abbrev pub is_last_one : ℕ → ℕ → Cmd Bool
is_last_one fuel slot = do
  s ← get_slot slot
  if is_tail s then pure true else do same ← is_same_object fuel slot s.next; pure (not same)

unfoldable pub destroy_memory_object : ℕ → Cmd (Unit {0})
destroy_memory_object slot = do
  s ← get_slot slot
  assert (is_tail s)
  assert (is_cap CapType.mem s.cap)
  m ← memory_member s.cap
  set_cap slot (Capability.memory (record m { used_size = 0 }))

unfoldable pub destroy_page_table_object : ℕ → ℕ → Cmd (Unit {0})
destroy_page_table_object fuel slot = do
  last_one ← is_last_one fuel slot
  assert last_one
  s ← get_slot slot
  assert (is_cap CapType.page_table s.cap)
  c ← page_table_member s.cap
  if c.parent_table == 0 then pure tt else do
    i ← walk c.virt_addr_base (c.level + 1)
    pte ← get_entry c.parent_table i
    assert (is_enabled pte)
    assert (get_next_page pte == c.table)
    put_entry c.parent_table i (disable pte)

unfoldable pub destroy_virt_page_object : ℕ → ℕ → Cmd (Unit {0})
destroy_virt_page_object fuel slot = do
  last_one ← is_last_one fuel slot
  assert last_one
  s ← get_slot slot
  assert (is_cap CapType.virt_page s.cap)
  c ← virt_page_member s.cap
  if c.parent_table == 0 then pure tt else do
    i ← walk c.address c.level
    pte ← get_entry c.parent_table i
    assert (is_enabled pte)
    assert (get_next_page pte == as_map c.phys_addr)
    put_entry c.parent_table i (disable pte)

unfoldable pub destroy_cap_space_object : ℕ → ℕ → Cmd (Unit {0})
destroy_cap_space_object fuel slot = do
  last_one ← is_last_one fuel slot
  assert last_one
  s ← get_slot slot
  assert (is_cap CapType.cap_space s.cap)

unfoldable pub destroy_id_object : ℕ → ℕ → Cmd (Unit {0})
destroy_id_object fuel slot = do
  last_one ← is_last_one fuel slot
  assert last_one
  s ← get_slot slot
  assert (is_cap CapType.id s.cap)
