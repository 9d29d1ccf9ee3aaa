-- ===== src/CapSpace/Space.antt =====
-- src/kernel/cap_space.cpp and src/kernel/cap.cpp: how a capability space is added to a task, and how
-- a descriptor is looked up in it.
use caprese.Common.{
  ℕ, zero, suc, ◌+◌, ◌-◌, ◌*◌, ◌/◌, ◌%◌, ◌^◌, ◌==◌, Bool, true, false, not, leb, ltb, if◌then◌else◌,
  Option, none, some,
}
use caprese.Config.{
  u64, page_size, num_page_table_entry, capability_space_base, kilo_page_table_level,
  mega_page_table_level, giga_page_table_level, max_page_table_level,
}
use caprese.Cap.{CapType, Capability, is_cap}
use caprese.Kernel.{
  Error, Cmd, pure, assert, refuse, when, ◌>>◌, ◌>>=◌, get_slot, set_cap, set_prev, set_next,
  get_task, put_task, get_meta_info, put_meta_info, get_entry, put_entry, task_member,
  cap_space_member, page_table_member,
}
use caprese.Page.{
  no_flags, enable, is_enabled, is_disabled, set_flags, set_next_page, get_next_page, walk,
}
use caprese.CapSlot.{cap_slot_size, meta_info_size, slots_per_space, slot_address, get_cap_space}
use caprese.Task.{is_dead, push_free_slots}

-- `for (level = MAX_PAGE_TABLE_LEVEL; level >= last; --level)`, with that many rounds left: the table
-- below the entry that `va` has on each level, every one of which must be enabled.
unfoldable pub descend : ℕ → ℕ → ℕ → ℕ → Cmd ℕ
descend last va zero table = pure table
descend last va (suc n) table = do
  i ← walk va (last + n)
  pte ← get_entry table i
  assert (is_enabled pte)
  descend last va n (get_next_page pte)

-- The same loop in `lookup_cap`, which gives up at a disabled entry.
unfoldable pub find_page : ℕ → ℕ → ℕ → Cmd (Option ℕ)
find_page va zero table = pure (some table)
find_page va (suc n) table = do
  i ← walk va (kilo_page_table_level + n)
  pte ← get_entry table i
  if is_disabled pte then refuse Error.ill_state none else find_page va n (get_next_page pte)

-- `push_free_slots` of the slots `first + n - 1`, …, `first`
unfoldable pub push_slots : ℕ → ℕ → ℕ → ℕ → Cmd (Unit {0})
push_slots task space first zero = pure tt
push_slots task space first (suc n) = do
  push_free_slots task (slot_address space (first + n))
  push_slots task space first n

unfoldable pub insert_space : ℕ → ℕ → Cmd Bool
insert_space task cap_space = do
  assert (not (task == 0))
  assert (not (cap_space == 0))
  t ← get_task task
  if ltb t.num_extension (t.num_cap_space / num_page_table_entry)
      then refuse Error.ill_state false
      else do
        let va = u64 (capability_space_base + page_size * t.num_cap_space)
        page_table ←
            descend mega_page_table_level va (suc max_page_table_level - mega_page_table_level)
              t.root_page_table
        i ← walk va kilo_page_table_level
        pte ← get_entry page_table i
        assert (is_disabled pte)
        let flags = record no_flags { readable = true; writable = true }
        put_entry page_table i (enable (set_flags flags (set_next_page cap_space pte)))
        let first = if t.num_cap_space == 0 then 1 else 0
        when (t.num_cap_space == 0) (do
          set_cap (slot_address cap_space 0) Capability.null
          set_next (slot_address cap_space 0) 0
          set_prev (slot_address cap_space 0) 0)
        put_meta_info cap_space
            (record { map = cap_space; task = task; space_index = t.num_cap_space })
        push_slots task cap_space first (slots_per_space - first)
        t' ← get_task task
        put_task task (record t' { num_cap_space = (t'.num_cap_space + 1) % 2 ^ 18 })
        pure true

unfoldable pub extend_space : ℕ → ℕ → Cmd ℕ
extend_space task page = do
  assert (not (task == 0))
  t ← get_task task
  if t.num_extension == num_page_table_entry - 1 then refuse Error.ill_state 0 else do
    let va = u64 (capability_space_base + page_size * num_page_table_entry * t.num_extension)
    page_table ←
        descend giga_page_table_level va (suc max_page_table_level - giga_page_table_level)
          t.root_page_table
    i ← walk va mega_page_table_level
    pte ← get_entry page_table i
    assert (is_disabled pte)
    put_entry page_table i (enable (set_next_page page (set_flags no_flags pte)))
    put_task task (record t { num_extension = (t.num_extension + 1) % 2 ^ 9 })
    pure va

-- `insert_cap_space` of src/kernel/cap.cpp, on the two capabilities' slots
unfoldable pub insert_cap_space : ℕ → ℕ → Cmd Bool
insert_cap_space task_slot cap_space_slot = do
  assert (not (task_slot == 0))
  assert (not (cap_space_slot == 0))
  s ← get_slot task_slot
  assert (is_cap CapType.task s.cap)
  c ← get_slot cap_space_slot
  assert (is_cap CapType.cap_space c.cap)
  task_cap ← task_member s.cap
  cap_space_cap ← cap_space_member c.cap
  t ← get_task task_cap.task
  if is_dead t
      then refuse Error.ill_state false
      else if cap_space_cap.used
      then refuse Error.cap_state false
      else do
        inserted ← insert_space task_cap.task cap_space_cap.space
        if not inserted then pure false else do
          set_cap cap_space_slot (Capability.cap_space (record cap_space_cap { used = true }))
          pure true

-- `extend_cap_space` of src/kernel/cap.cpp, on the two capabilities' slots
unfoldable pub extend_cap_space : ℕ → ℕ → Cmd Bool
extend_cap_space task_slot page_table_slot = do
  assert (not (task_slot == 0))
  assert (not (page_table_slot == 0))
  s ← get_slot task_slot
  assert (is_cap CapType.task s.cap)
  c ← get_slot page_table_slot
  assert (is_cap CapType.page_table c.cap)
  task_cap ← task_member s.cap
  page_table_cap ← page_table_member c.cap
  t ← get_task task_cap.task
  if is_dead t
      then refuse Error.ill_state false
      else if page_table_cap.mapped
      then refuse Error.cap_state false
      else do
        va ← extend_space task_cap.task page_table_cap.table
        if va == 0 then pure false else do
          t' ← get_task task_cap.task
          page_table ←
              descend giga_page_table_level va (suc max_page_table_level - giga_page_table_level)
                t'.root_page_table
          i ← walk va mega_page_table_level
          pte ← get_entry page_table i
          assert (is_enabled pte)
          set_cap page_table_slot (
              Capability.page_table (record page_table_cap {
                mapped = true;
                level = kilo_page_table_level;
                virt_addr_base = va % 2 ^ 38;
                parent_table = get_next_page pte;
              }))
          pure true

unfoldable pub lookup_cap : ℕ → ℕ → Cmd ℕ
lookup_cap task cap_desc = do
  assert (not (task == 0))
  t ← get_task task
  if is_dead t
      then refuse Error.ill_state 0
      else if leb (u64 (t.num_cap_space * slots_per_space)) cap_desc
      then refuse Error.ill_args 0
      else do
        let va = u64 (capability_space_base + page_size * (cap_desc / slots_per_space))
        page ← find_page va (suc max_page_table_level - kilo_page_table_level) t.root_page_table
        elim page [
          | none ↦ pure 0
          | some cap_space ↦ do
            let slot = slot_address cap_space (cap_desc % slots_per_space)
            s ← get_slot slot
            if is_cap CapType.null s.cap then refuse Error.s_ok 0 else pure slot
        ]

-- `cap_slot.get() - cap_space->slots` counts slots from the first one of the page.
unfoldable pub get_cap_slot_index : ℕ → Cmd ℕ
get_cap_slot_index cap_slot = do
  assert (not (cap_slot == 0))
  let cap_space = get_cap_space cap_slot
  m ← get_meta_info cap_space
  pure (
      u64
        (slots_per_space * m.space_index + (cap_slot - cap_space - meta_info_size) / cap_slot_size))
