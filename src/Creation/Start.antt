-- ===== src/Creation/Start.antt =====
-- src/kernel/task.cpp: next_tid, init_task and init_idle_task. `arch_init_task`, which sets up the
-- registers, is left out.
use caprese.Common.{ℕ, zero, suc, ◌+◌, ◌==◌, ◌/◌, true, false, not, if◌then◌else◌}
use caprese.Config.{
  u32, u64, max_physical_address, mapped_space_base, capability_space_base, max_page_table_level,
}
use caprese.Kernel.{
  Task, TaskState, IpcState, IpcMsgState, EventType, in_state, PteFlags, Cmd, Stop, ok, pure, halt,
  assert, ◌>>◌, ◌>>=◌, get_task, put_task, get_entry, put_entry,
}
use caprese.Page.{
  as_map, get_page_size, no_flags, enable, is_disabled, set_flags, set_next_page, walk,
}
use caprese.Object.{clear_table}
use caprese.CapSpace.{extend_space, insert_space}

unfoldable pub next_tid : Cmd ℕ
next_tid k = ok (u32 (k.cur_tid + 1)) (record k { cur_tid = u32 (k.cur_tid + 1) })

-- A task after the assignments of `init_task`.
unfoldable pub initial_task : ℕ → ℕ → Task → Task
initial_task tid root_page_table t = record t {
  tid = tid;
  num_cap_space = 0;
  num_extension = 0;
  prev_ready_task = 0;
  next_ready_task = 0;
  prev_waiting_task = 0;
  next_waiting_task = 0;
  caller_task = 0;
  callee_task = 0;
  free_slots = 0;
  free_slots_count = 0;
  root_page_table = root_page_table;
  kill_notify = 0;
  state = TaskState.suspended;
  ipc_state = IpcState.none;
  ipc_msg_state = IpcMsgState.empty;
  event_type = EventType.none;
  exit_status = 0;
}

abbrev pub kernel_flags : PteFlags
kernel_flags = record {
  readable = true;
  writable = true;
  executable = true;
  user = false;
  global = true;
}

-- The number of rounds of the loop over the kernel's mapping.
abbrev pub mapped_pages : ℕ
unfolding get_page_size
mapped_pages = max_physical_address / get_page_size max_page_table_level

-- The loop that maps the physical memory, from `phys` on, with `n` pages left.
unfoldable pub map_memory : ℕ → ℕ → ℕ → Cmd (Unit {0})
map_memory root phys zero = pure tt
map_memory root phys (suc n) = do
  i ← walk (u64 (mapped_space_base + phys)) max_page_table_level
  pte ← get_entry root i
  assert (is_disabled pte)
  put_entry root i (enable (set_next_page (as_map phys) (set_flags kernel_flags pte)))
  map_memory root (phys + get_page_size max_page_table_level) n

-- `cap_space_page_tables` are `table0` and `table1`; the loop over the levels has one round.
unfoldable pub init_task : ℕ → ℕ → ℕ → ℕ → ℕ → Cmd (Unit {0})
unfolding next_tid initial_task map_memory
init_task task cap_space root_page_table table0 table1 = do
  assert (not (task == 0))
  assert (not (cap_space == 0))
  assert (not (root_page_table == 0))
  t ← get_task task
  assert (in_state TaskState.unused t)
  tid ← next_tid
  put_task task (initial_task tid root_page_table t)
  clear_table root_page_table
  map_memory root_page_table 0 mapped_pages
  clear_table table0
  clear_table table1
  i ← walk capability_space_base max_page_table_level
  pte ← get_entry root_page_table i
  assert (is_disabled pte)
  put_entry root_page_table i (
      enable (
        set_flags (record no_flags { readable = true; writable = true })
          (set_next_page table1 pte)))
  va ← extend_space task table0
  if va == 0 then halt Stop.panic else do
    inserted ← insert_space task cap_space
    if not inserted then halt Stop.panic else pure tt

-- An idle task after the assignments of `init_idle_task`.
unfoldable pub initial_idle_task : ℕ → Task → Task
initial_idle_task root_page_table t = record t {
  num_cap_space = 0;
  num_extension = 0;
  prev_ready_task = 0;
  next_ready_task = 0;
  prev_waiting_task = 0;
  next_waiting_task = 0;
  free_slots = 0;
  root_page_table = root_page_table;
  state = TaskState.ready;
}

unfoldable pub init_idle_task : ℕ → ℕ → Cmd (Unit {0})
unfolding initial_idle_task map_memory
init_idle_task task root_page_table = do
  assert (not (task == 0))
  assert (not (root_page_table == 0))
  t ← get_task task
  assert (in_state TaskState.unused t)
  put_task task (initial_idle_task root_page_table t)
  clear_table root_page_table
  map_memory root_page_table 0 mapped_pages
