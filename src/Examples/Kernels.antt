-- ===== src/Examples/Kernels.antt =====
-- The kernels of the examples. Task 8192 owns the capability space at 4096, whose first slots are at
-- 4120, 4160 and 4200; 1, 2 and 3 are further tasks.
use caprese.Common.{ℕ, ◌+◌, ◌^◌, true, false, ◌==◌, if◌then◌else◌}
use caprese.Cap.{Capability, PageTableCap, VirtPageCap, MemoryCap}
use caprese.Kernel.{
  CapSlot, Task, TaskState, IpcState, IpcMsgState, EventType, TaskQueue, Pte, Error, Kernel,
}

abbrev pub slot_of : Capability → ℕ → ℕ → CapSlot
slot_of c p n = record { cap = c; prev = p; next = n }

abbrev pub empty_slot : CapSlot
empty_slot = slot_of Capability.null 0 0

abbrev pub task_in : TaskState → Task
task_in s = record {
  tid = 1;
  num_cap_space = 1;
  num_extension = 1;
  prev_ready_task = 0;
  next_ready_task = 0;
  prev_waiting_task = 0;
  next_waiting_task = 0;
  caller_task = 0;
  callee_task = 0;
  free_slots = 0;
  free_slots_count = 0;
  root_page_table = 4096;
  endpoint = 0;
  kill_notify = 0;
  state = s;
  frame = λ _. 0;
  ipc_msg = λ _. 0;
  ipc_state = IpcState.none;
  ipc_msg_state = IpcMsgState.empty;
  event_type = EventType.none;
  exit_status = 0;
}

abbrev pub empty_queue : TaskQueue
empty_queue = record { head = 0; tail = 0 }

abbrev pub no_entry : Pte
no_entry = record {
  v = false;
  r = false;
  w = false;
  x = false;
  u = false;
  g = false;
  a = false;
  d = false;
  next_page_number = 0;
}

abbrev pub quiet : Kernel
quiet = record {
  slots = λ _. empty_slot;
  spaces = λ _. record { map = 4096; task = 8192; space_index = 0 };
  tasks = λ _. task_in TaskState.running;
  endpoints = λ _. record { sender_queue = empty_queue; receiver_queue = empty_queue };
  tables = λ _ _. no_entry;
  memory = λ _. 0;
  ready_queue = empty_queue;
  next_id = record { val1 = 0; val2 = 0; val3 = 0 };
  cur_tid = 4;
  current_task = 8192;
  idle_task = 7;
  errno = Error.s_ok;
}

-- Tasks 1 and 2 are ready, in this order; 3 is in the state `s`.
abbrev pub two_ready : TaskState → Kernel
two_ready s = record quiet {
  tasks = λ p.
      if p == 1
      then record (task_in TaskState.ready) { next_ready_task = 2 }
      else if p == 2
      then record (task_in TaskState.ready) { prev_ready_task = 1 }
      else if p == 3
      then task_in s
      else task_in TaskState.running;
  ready_queue = record { head = 1; tail = 2 };
}

-- The memory capability of the examples, of one page of which 10 bytes are used.
abbrev pub page_of_memory : MemoryCap
page_of_memory = record { device = false; size = 4096; phys_addr = 65536; used_size = 10 }

-- Slot 4120 holds `c`, and the others are empty.
abbrev pub holding : Capability → Kernel
holding c = record quiet { slots = λ p. if p == 4120 then slot_of c 0 0 else empty_slot }

-- Slots 4160 and 4200 are the free slots of task 8192, and slot 4120 holds `c`.
abbrev pub two_free : Capability → Kernel
two_free c = record quiet {
  slots = λ p.
      if p == 4120
      then slot_of c 0 0
      else if p == 4160
      then slot_of Capability.null 0 4200
      else if p == 4200
      then slot_of Capability.null 4160 0
      else empty_slot;
  tasks = λ _. record (task_in TaskState.running) { free_slots = 4160; free_slots_count = 2 };
}

-- The root table, a table that is not mapped, and a page of one gigabyte.
abbrev pub root_table : PageTableCap
root_table = record { mapped = true; level = 2; virt_addr_base = 0; table = 4096; parent_table = 0 }

abbrev pub new_table : PageTableCap
new_table = record {
  mapped = false;
  level = 0;
  virt_addr_base = 0;
  table = 2 ^ 37 + 8192;
  parent_table = 0;
}

abbrev pub giga_page : VirtPageCap
giga_page = record {
  mapped = false;
  device = false;
  readable = false;
  writable = false;
  executable = false;
  level = 2;
  index = 0;
  phys_addr = 2 ^ 30;
  address = 0;
  parent_table = 0;
}

-- Slot 4120 holds the root table, and slot 4160 holds `c`.
abbrev pub with_root : Capability → Kernel
with_root c = record quiet {
  slots = λ p.
      if p == 4120
      then slot_of (Capability.page_table root_table) 0 0
      else if p == 4160
      then slot_of c 0 0
      else empty_slot;
}

-- Tasks 1 and 2 wait to send at each endpoint, in this order.
abbrev pub sender : ℕ → ℕ → Task
sender p n = record (task_in TaskState.waiting) {
  prev_waiting_task = p;
  next_waiting_task = n;
  endpoint = 64;
  ipc_state = IpcState.sending;
  event_type = EventType.send;
}

abbrev pub two_senders : Kernel
two_senders = record quiet {
  tasks = λ p.
      if p == 1
      then sender 0 2
      else if p == 2
      then sender 1 0
      else if p == 3
      then task_in TaskState.waiting
      else task_in TaskState.running;
  endpoints =
      λ _. record { sender_queue = record { head = 1; tail = 2 }; receiver_queue = empty_queue };
}
