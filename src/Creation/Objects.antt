-- ===== src/Creation/Objects.antt =====
-- src/kernel/cap.cpp: create_task_object and create_object. There are two page tables for the
-- capability space of a task; the array of their slots is two arguments.
use caprese.Common.{ℕ, ◌==◌, Bool, true, false, not, ◌%◌, ◌^◌, if◌then◌else◌}
use caprese.Config.{page_size, capability_space_base, max_page_table_level}
use caprese.Cap.{CapType, Capability, is_cap}
use caprese.Cap.Make.{make_task_cap}
use caprese.Kernel.{
  Task, TaskState, IpcState, IpcMsgState, EventType, Error, Cmd, pure, assert, refuse, ◌>>◌, ◌>>=◌,
  get_slot, set_cap, get_task, put_task, memory_member, cap_space_member, page_table_member,
}
use caprese.Page.{as_map}
use caprese.CapSlot.{is_unused}
use caprese.CapSpace.{lookup_cap}
use caprese.Object.{
  create_memory_object, create_endpoint_object, create_page_table_object, create_virt_page_object,
  create_cap_space_object,
}
use caprese.Task.{is_dead, current, pop_free_slots, push_free_slots}
use caprese.Creation.Start.{init_task}

-- memset of a task
abbrev zero_task : Task
zero_task = record {
  tid = 0;
  num_cap_space = 0;
  num_extension = 0;
  prev_ready_task = 0;
  next_ready_task = 0;
  prev_waiting_task = 0;
  next_waiting_task = 0;
  caller_task = 0;
  callee_task = 0;
  free_slots = 0;
  free_slots_count = 0;
  root_page_table = 0;
  endpoint = 0;
  kill_notify = 0;
  frame = λ _. 0;
  ipc_msg = λ _. 0;
  state = TaskState.unused;
  ipc_state = IpcState.none;
  ipc_msg_state = IpcMsgState.empty;
  event_type = EventType.none;
  exit_status = 0;
}

-- The asserts on a slot that must hold a page table that is not mapped.
unfoldable pub assert_free_table : ℕ → Cmd (Unit {0})
assert_free_table slot = do
  assert (not (slot == 0))
  s ← get_slot slot
  assert (is_cap CapType.page_table s.cap)
  c ← page_table_member s.cap
  assert (not c.mapped)

-- The table becomes a mapped one of the given level and address.
unfoldable pub set_mapped : ℕ → ℕ → ℕ → Cmd (Unit {0})
set_mapped slot level va = do
  s ← get_slot slot
  c ← page_table_member s.cap
  set_cap slot
      (Capability.page_table (record c { mapped = true; level = level; virt_addr_base = va }))

-- `cap_space_slot->cap.cap_space.space` and `slot->cap.page_table.table`
abbrev space_of : ℕ → Cmd ℕ
space_of slot = do s ← get_slot slot; c ← cap_space_member s.cap; pure c.space

abbrev table_of : ℕ → Cmd ℕ
table_of slot = do s ← get_slot slot; c ← page_table_member s.cap; pure c.table

unfoldable pub create_task_object : ℕ → ℕ → ℕ → ℕ → ℕ → ℕ → ℕ → Cmd ℕ
unfolding assert_free_table set_mapped
create_task_object fuel dst src cap_space_slot root_slot table_slot0 table_slot1 = do
  assert (not (src == 0))
  s ← get_slot src
  assert (is_cap CapType.mem s.cap)
  assert (not (dst == 0))
  d ← get_slot dst
  assert (is_unused d)
  assert (not (cap_space_slot == 0))
  c ← get_slot cap_space_slot
  assert (is_cap CapType.cap_space c.cap)
  assert_free_table root_slot
  assert_free_table table_slot0
  assert_free_table table_slot1
  m ← memory_member s.cap
  if m.device then refuse Error.cap_state 0 else do
    cap_space ← space_of cap_space_slot
    root_page_table ← table_of root_slot
    table0 ← table_of table_slot0
    table1 ← table_of table_slot1
    r ← create_memory_object fuel dst src page_size page_size
    if r == 0 then pure 0 else do
      o ← get_slot r
      object ← memory_member o.cap
      let task = as_map object.phys_addr
      put_task task zero_task
      init_task task cap_space root_page_table table0 table1
      cap ← make_task_cap task
      set_cap r cap
      set_mapped root_slot max_page_table_level 0
      set_mapped table_slot0 0 (capability_space_base % 2 ^ 38)
      set_mapped table_slot1 1 (capability_space_base % 2 ^ 38)
      pure r

-- One round of the loop over the page tables: the slot, and whether the loop goes on.
unfoldable pub find_table : ℕ → ℕ → Cmd (ℕ × Bool)
find_table task cap_desc = do
  slot ← lookup_cap task cap_desc
  if slot == 0 then refuse Error.ill_args (0, false) else do
    s ← get_slot slot
    if not (is_cap CapType.page_table s.cap) then refuse Error.cap_type (slot, false) else do
      c ← page_table_member s.cap
      if c.mapped then refuse Error.cap_state (slot, false) else pure (slot, true)

-- The loop, which only leaves itself at a bad slot; a slot that it does not reach is not set.
unfoldable pub find_tables : ℕ → ℕ → ℕ → Cmd (ℕ × ℕ)
unfolding find_table
find_tables task desc0 desc1 = do
  r0 ← find_table task desc0
  if not r0.1 then pure (r0.0, 0) else do r1 ← find_table task desc1; pure (r0.0, r1.0)

-- The case CAP_TASK of `create_object`.
unfoldable pub create_task_from : ℕ → ℕ → ℕ → ℕ → (ℕ → ℕ) → Cmd ℕ
unfolding find_tables
create_task_from fuel task slot cap_slot arg = do
  cap_space_slot ← lookup_cap task (arg 0)
  if cap_space_slot == 0 then refuse Error.ill_args 0 else do
    c ← get_slot cap_space_slot
    if not (is_cap CapType.cap_space c.cap) then refuse Error.cap_type 0 else do
      root_slot ← lookup_cap task (arg 1)
      if root_slot == 0 then refuse Error.ill_args 0 else do
        r ← get_slot root_slot
        if not (is_cap CapType.page_table r.cap) then refuse Error.cap_type 0 else do
          root ← page_table_member r.cap
          if root.mapped then refuse Error.cap_state 0 else do
            tables ← find_tables task (arg 2) (arg 3)
            create_task_object fuel slot cap_slot cap_space_slot root_slot tables.0 tables.1

-- The `switch` of `create_object`.
unfoldable pub create_by_type : ℕ → ℕ → ℕ → ℕ → CapType → (ℕ → ℕ) → Cmd ℕ
unfolding create_task_from
create_by_type fuel task slot cap_slot CapType.mem arg =
    create_memory_object fuel slot cap_slot (arg 0) (arg 1)
create_by_type fuel task slot cap_slot CapType.task arg =
    create_task_from fuel task slot cap_slot arg
create_by_type fuel task slot cap_slot CapType.endpoint arg =
    create_endpoint_object fuel slot cap_slot
create_by_type fuel task slot cap_slot CapType.page_table arg =
    create_page_table_object fuel slot cap_slot
create_by_type fuel task slot cap_slot CapType.virt_page arg =
    create_virt_page_object fuel slot cap_slot (not (arg 0 == 0)) (not (arg 1 == 0))
      (not (arg 2 == 0)) (arg 3)
create_by_type fuel task slot cap_slot CapType.cap_space arg =
    create_cap_space_object fuel slot cap_slot
create_by_type fuel task slot cap_slot _ arg = pure 0

unfoldable pub create_object : ℕ → ℕ → ℕ → CapType → (ℕ → ℕ) → Cmd ℕ
create_object fuel task cap_slot type arg = do
  cur ← current
  assert (task == cur)
  assert (not (cap_slot == 0))
  s ← get_slot cap_slot
  if not (is_cap CapType.mem s.cap) then refuse Error.cap_type 0 else do
    t ← get_task task
    if is_dead t then refuse Error.ill_state 0 else do
      slot ← pop_free_slots task
      if slot == 0 then refuse Error.out_of_cap_space 0 else do
        result ← create_by_type fuel task slot cap_slot type arg
        if result == 0 then (do push_free_slots task slot; pure 0) else pure result
