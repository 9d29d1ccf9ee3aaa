-- ===== src/Kernel/State.antt =====
-- The objects of the kernel: include/kernel/task.h, ipc.h, cap_space.h, cls.h, the page-table entry of
-- include/arch/rv64/kernel/page.h, and the variables of src/kernel/task.cpp and cap.cpp. A map_ptr or
-- virt_ptr is its number; 0 is the null pointer. The memory holds objects of each type apart.
use caprese.Common.{ℕ, ◌%◌, ◌^◌, Bool, ◌==◌}
use caprese.Cap.{Capability, IdCap}

pub record CapSlot : Type 0 where
  pub cap : Capability
  pub prev : ℕ
  pub next : ℕ

-- `cap_space_t::meta_info`
pub record MetaInfo : Type 0 where
  pub map : ℕ
  pub task : ℕ
  pub space_index : ℕ

pub data TaskState : Type 0 where
  unused running ready waiting suspended killed : TaskState

abbrev pub task_state_code : TaskState → ℕ
task_state_code TaskState.unused = 0
task_state_code TaskState.running = 1
task_state_code TaskState.ready = 2
task_state_code TaskState.waiting = 3
task_state_code TaskState.suspended = 4
task_state_code TaskState.killed = 5

pub data IpcState : Type 0 where
  none sending receiving calling canceled : IpcState

abbrev pub ipc_state_code : IpcState → ℕ
ipc_state_code IpcState.none = 0
ipc_state_code IpcState.sending = 1
ipc_state_code IpcState.receiving = 2
ipc_state_code IpcState.calling = 3
ipc_state_code IpcState.canceled = 4

pub data EventType : Type 0 where
  none send kill : EventType

pub data IpcMsgState : Type 0 where
  empty short_size long_size : IpcMsgState

-- `tid` is the 32 bits of `tid_t`: the index is its low 22 bits. `ipc_msg` is the union of the six words
-- `ipc_short_msg` with `ipc_long_msg`, which is its first word. The registers, the context and the lock
-- are left out.
-- `frame` holds the words of `frame_t`, in its order: a0 to a7 are the words 9 to 16.
pub record Task : Type 0 where
  pub tid : ℕ
  pub num_cap_space : ℕ
  pub num_extension : ℕ
  pub prev_ready_task : ℕ
  pub next_ready_task : ℕ
  pub prev_waiting_task : ℕ
  pub next_waiting_task : ℕ
  pub caller_task : ℕ
  pub callee_task : ℕ
  pub free_slots : ℕ
  pub free_slots_count : ℕ
  pub root_page_table : ℕ
  pub endpoint : ℕ
  pub kill_notify : ℕ
  pub state : TaskState
  pub frame : ℕ → ℕ
  pub ipc_msg : ℕ → ℕ
  pub ipc_state : IpcState
  pub ipc_msg_state : IpcMsgState
  pub event_type : EventType
  pub exit_status : ℕ

pub record TaskQueue : Type 0 where
  pub head : ℕ
  pub tail : ℕ

pub record Endpoint : Type 0 where
  pub sender_queue : TaskQueue
  pub receiver_queue : TaskQueue

pub record PteFlags : Type 0 where
  pub readable : Bool
  pub writable : Bool
  pub executable : Bool
  pub user : Bool
  pub global : Bool

pub record Pte : Type 0 where
  pub v : Bool
  pub r : Bool
  pub w : Bool
  pub x : Bool
  pub u : Bool
  pub g : Bool
  pub a : Bool
  pub d : Bool
  pub next_page_number : ℕ

-- The results of system calls, which are also the values of errno.
pub data Error : Type 0 where
  s_ok cap_type cap_state ill_code ill_args ill_state canceled blocked out_of_cap_space : Error

-- `memory` holds the bytes of the users' pages, at the addresses of the kernel's mapping.
pub record Kernel : Type 0 where
  pub slots : ℕ → CapSlot
  pub spaces : ℕ → MetaInfo
  pub tasks : ℕ → Task
  pub endpoints : ℕ → Endpoint
  pub tables : ℕ → ℕ → Pte
  pub memory : ℕ → ℕ
  pub ready_queue : TaskQueue
  pub next_id : IdCap
  pub cur_tid : ℕ
  pub current_task : ℕ
  pub idle_task : ℕ
  pub errno : Error

-- `task->ipc_long_msg` and its assignment
abbrev pub ipc_long_msg : Task → ℕ
ipc_long_msg t = t.ipc_msg 0

-- The index of the task, in the low bits of its identifier.
abbrev pub tid_index : Task → ℕ
tid_index t = t.tid % 2 ^ 22

-- `task->state == s` and `task->ipc_state == s`
abbrev pub in_state : TaskState → Task → Bool
in_state s t = task_state_code t.state == task_state_code s

-- `task->ipc_msg_state == s` and `task->event_type == e`
abbrev pub ipc_msg_state_code : IpcMsgState → ℕ
ipc_msg_state_code IpcMsgState.empty = 0
ipc_msg_state_code IpcMsgState.short_size = 1
ipc_msg_state_code IpcMsgState.long_size = 2

abbrev pub in_ipc_msg_state : IpcMsgState → Task → Bool
in_ipc_msg_state s t = ipc_msg_state_code t.ipc_msg_state == ipc_msg_state_code s

abbrev pub event_type_code : EventType → ℕ
event_type_code EventType.none = 0
event_type_code EventType.send = 1
event_type_code EventType.kill = 2

abbrev pub has_event_type : EventType → Task → Bool
has_event_type e t = event_type_code t.event_type == event_type_code e

abbrev pub in_ipc_state : IpcState → Task → Bool
in_ipc_state s t = ipc_state_code t.ipc_state == ipc_state_code s
