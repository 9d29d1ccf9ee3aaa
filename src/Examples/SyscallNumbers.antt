-- ===== src/Examples/SyscallNumbers.antt =====
-- A numbering of the system calls, each namespace's from 0 on, and a task that makes one.
use caprese.Common.{ℕ, ◌*◌, ◌/◌, ◌%◌, ◌^◌, ◌≡◌, ◌↔◌, ◌+◌, ◌==◌, if◌then◌else◌, refl, map, arith}
use caprese.Chain.{Distinct}
use mathlib.Core.List.{Memᴰ}
use caprese.Syscall.{
  Namespace, Syscall, SyscallNumbers, sysns_table, ns_table, namespace_index, call_index, Target,
  find_handler, find_in_namespace, read_table,
}
use caprese.Cap.{CapType}
use caprese.Kernel.{Kernel, TaskState}
use caprese.Examples.Kernels.{quiet, task_in}
use caprese.Examples.Endpoints.{layout}
use caprese.Syscall.{Platform, run_syscall, invoke_syscall}
use caprese.Syscall.Chosen.{current_frame, invoke_syscall-run_syscall}
use caprese.Syscall.Numbers.{IsNumbering, find_handler_iff}

abbrev namespace_number : Namespace → ℕ
namespace_number Namespace.system = 0
namespace_number Namespace.arch = 1
namespace_number Namespace.cap = 2
namespace_number Namespace.mem_cap = 3
namespace_number Namespace.task_cap = 4
namespace_number Namespace.endpoint_cap = 5
namespace_number Namespace.page_table_cap = 6
namespace_number Namespace.virt_page_cap = 7
namespace_number Namespace.id_cap = 8

abbrev call_number : Syscall → ℕ
call_number Syscall.system_null = 0
call_number Syscall.system_core_id = 1
call_number Syscall.system_page_size = 2
call_number Syscall.system_user_space_start = 3
call_number Syscall.system_user_space_end = 4
call_number Syscall.system_caps_per_cap_space = 5
call_number Syscall.system_yield = 6
call_number Syscall.system_cap_size = 7
call_number Syscall.system_cap_align = 8
call_number Syscall.arch_mmu_mode = 0
call_number Syscall.cap_type = 0
call_number Syscall.cap_copy = 1
call_number Syscall.cap_revoke = 2
call_number Syscall.cap_destroy = 3
call_number Syscall.cap_same = 4
call_number Syscall.mem_cap_device = 0
call_number Syscall.mem_cap_phys_addr = 1
call_number Syscall.mem_cap_size = 2
call_number Syscall.mem_cap_used_size = 3
call_number Syscall.mem_cap_create_object = 4
call_number Syscall.task_cap_tid = 0
call_number Syscall.task_cap_killable = 1
call_number Syscall.task_cap_switchable = 2
call_number Syscall.task_cap_suspendable = 3
call_number Syscall.task_cap_resumable = 4
call_number Syscall.task_cap_kill = 5
call_number Syscall.task_cap_switch = 6
call_number Syscall.task_cap_suspend = 7
call_number Syscall.task_cap_resume = 8
call_number Syscall.task_cap_get_reg = 9
call_number Syscall.task_cap_set_reg = 10
call_number Syscall.task_cap_transfer_cap = 11
call_number Syscall.task_cap_delegate_cap = 12
call_number Syscall.task_cap_get_free_slot_count = 13
call_number Syscall.task_cap_get_cap_space_count = 14
call_number Syscall.task_cap_get_cap_space_ext_count = 15
call_number Syscall.task_cap_insert_cap_space = 16
call_number Syscall.task_cap_extend_cap_space = 17
call_number Syscall.task_cap_set_kill_notify = 18
call_number Syscall.endpoint_cap_send_short = 0
call_number Syscall.endpoint_cap_send_long = 1
call_number Syscall.endpoint_cap_receive = 2
call_number Syscall.endpoint_cap_reply = 3
call_number Syscall.endpoint_cap_nb_send_short = 4
call_number Syscall.endpoint_cap_nb_send_long = 5
call_number Syscall.endpoint_cap_nb_receive = 6
call_number Syscall.endpoint_cap_call = 7
call_number Syscall.endpoint_cap_reply_and_receive = 8
call_number Syscall.page_table_cap_mapped = 0
call_number Syscall.page_table_cap_level = 1
call_number Syscall.page_table_cap_map_table = 2
call_number Syscall.page_table_cap_unmap_table = 3
call_number Syscall.page_table_cap_map_page = 4
call_number Syscall.page_table_cap_unmap_page = 5
call_number Syscall.page_table_cap_remap_page = 6
call_number Syscall.page_table_cap_virt_addr_base = 7
call_number Syscall.virt_page_cap_mapped = 0
call_number Syscall.virt_page_cap_readable = 1
call_number Syscall.virt_page_cap_writable = 2
call_number Syscall.virt_page_cap_executable = 3
call_number Syscall.virt_page_cap_level = 4
call_number Syscall.virt_page_cap_phys_addr = 5
call_number Syscall.virt_page_cap_virt_addr = 6
call_number Syscall.id_cap_create = 0
call_number Syscall.id_cap_compare = 1

abbrev numbers : SyscallNumbers
numbers = record { namespace = λ s. namespace_number s * 2 ^ 16; code = call_number }

call_index-Distinct : (s : Namespace) → Distinct (map (call_index numbers) (sysns_table s))
unfolding sysns_table
call_index-Distinct Namespace.system = ground arith
call_index-Distinct Namespace.arch = ground arith
call_index-Distinct Namespace.cap = ground arith
call_index-Distinct Namespace.mem_cap = ground arith
call_index-Distinct Namespace.task_cap = ground arith
call_index-Distinct Namespace.endpoint_cap = ground arith
call_index-Distinct Namespace.page_table_cap = ground arith
call_index-Distinct Namespace.virt_page_cap = ground arith
call_index-Distinct Namespace.id_cap = ground arith

pub numbers-IsNumbering : IsNumbering numbers
unfolding ns_table
numbers-IsNumbering = record { namespaces = ground arith; calls = call_index-Distinct }

kill_number : find_handler numbers 262149 ≡ Target.handler Syscall.task_cap_kill
unfolding find_handler find_in_namespace read_table ns_table sysns_table
kill_number = refl

outside_number : find_handler numbers 262249 ≡ Target.ill_code
unfolding find_handler find_in_namespace read_table ns_table sysns_table
outside_number = refl

find_handler_example : (find_handler numbers 262149 ≡ Target.handler Syscall.task_cap_kill) ↔ (
    (s : Namespace) × Memᴰ Syscall.task_cap_kill (sysns_table s)
    × (namespace_index numbers s ≡ 262149 / 2 ^ 16 % 2 ^ 16)
    × (call_index numbers Syscall.task_cap_kill ≡ 262149 % 2 ^ 16))
find_handler_example = find_handler_iff numbers 262149 Syscall.task_cap_kill numbers-IsNumbering

-- The running task asks for task_cap_kill, with arguments 9, 10 and so on.
abbrev pub platform : Platform
platform = record {
  layout = layout;
  cap_numbers = record { number = λ _. 3; cap_type = λ _. CapType.null };
  syscall_numbers = numbers;
  last_register = 31;
  mmu_sv39 = 1;
  core_id = 0;
}

abbrev asking : Kernel
asking = record quiet {
  tasks = λ _. record (task_in TaskState.running) { frame = λ r. if r == 16 then 262149 else r };
}

kill_listed : Memᴰ Syscall.task_cap_kill (sysns_table Namespace.task_cap)
unfolding sysns_table
kill_listed = search (Memᴰ.head, Memᴰ.tail) depth 12

invoke_kill_example :
    invoke_syscall platform 5 asking
    ≡ run_syscall platform 5 Syscall.task_cap_kill (λ i. current_frame asking (9 + i)) asking
invoke_kill_example =
    invoke_syscall-run_syscall platform 5 Namespace.task_cap Syscall.task_cap_kill asking
      numbers-IsNumbering (omega arith) kill_listed refl refl
