-- ===== src/Syscall/Invoke.antt =====
-- src/kernel/syscall.cpp: `invoke_syscall` as a whole, from the words in the registers to the answer.
use caprese.Common.{ℕ}
use caprese.Kernel.{Stop, Error, Cmd, halt, ◌>>=◌}
use caprese.Ipc.{MessageLayout}
use caprese.Syscall.Lookup.{Answer, succeed, fail}
use caprese.Syscall.Dispatch.{Syscall, SyscallNumbers, Target, find_handler}
use caprese.Syscall.Caps.{
  sys_system_null, sys_system_page_size, sys_system_user_space_start, sys_system_user_space_end,
  sys_system_caps_per_cap_space, sys_system_yield, sys_system_cap_size, sys_system_cap_align,
  sys_cap_type, sys_cap_copy, sys_cap_revoke, sys_cap_destroy, sys_cap_same, sys_mem_cap_device,
  sys_mem_cap_phys_addr, sys_mem_cap_size, sys_mem_cap_used_size, sys_mem_cap_create_object,
  sys_id_cap_create, sys_id_cap_compare, CapNumbers,
}
use caprese.Syscall.Endpoints.{
  sys_endpoint_cap_send_short, sys_endpoint_cap_send_long, sys_endpoint_cap_receive,
  sys_endpoint_cap_reply, sys_endpoint_cap_nb_send_short, sys_endpoint_cap_nb_send_long,
  sys_endpoint_cap_nb_receive, sys_endpoint_cap_call, sys_endpoint_cap_reply_and_receive,
}
use caprese.Syscall.Pages.{
  sys_virt_page_cap_mapped, sys_virt_page_cap_readable, sys_virt_page_cap_writable,
  sys_virt_page_cap_executable, sys_virt_page_cap_level, sys_virt_page_cap_phys_addr,
  sys_virt_page_cap_virt_addr,
}
use caprese.Syscall.Registers.{sys_task_cap_get_reg, sys_task_cap_set_reg, get_syscall_args}
use caprese.Syscall.Tables.{
  sys_page_table_cap_mapped, sys_page_table_cap_level, sys_page_table_cap_map_table,
  sys_page_table_cap_unmap_table, sys_page_table_cap_map_page, sys_page_table_cap_unmap_page,
  sys_page_table_cap_remap_page, sys_page_table_cap_virt_addr_base,
}
use caprese.Syscall.Tasks.{
  sys_task_cap_tid, sys_task_cap_killable, sys_task_cap_switchable, sys_task_cap_suspendable,
  sys_task_cap_resumable, sys_task_cap_kill, sys_task_cap_switch, sys_task_cap_suspend,
  sys_task_cap_resume, sys_task_cap_transfer_cap, sys_task_cap_delegate_cap,
  sys_task_cap_get_free_slot_count, sys_task_cap_get_cap_space_count,
  sys_task_cap_get_cap_space_ext_count, sys_task_cap_insert_cap_space,
  sys_task_cap_extend_cap_space, sys_task_cap_set_kill_notify,
}

-- What libcaprese declares, and the number of the core, which a register of the machine holds.
pub record Platform : Type 0 where
  pub layout : MessageLayout
  pub cap_numbers : CapNumbers
  pub syscall_numbers : SyscallNumbers
  pub last_register : ℕ
  pub mmu_sv39 : ℕ
  pub core_id : ℕ

-- `invoke_sys_<name>`.
abbrev pub run_syscall : Platform → ℕ → Syscall → (ℕ → ℕ) → Cmd Answer
run_syscall l fuel Syscall.system_null arg = sys_system_null
run_syscall l fuel Syscall.system_core_id arg = succeed l.core_id
run_syscall l fuel Syscall.system_page_size arg = sys_system_page_size
run_syscall l fuel Syscall.system_user_space_start arg = sys_system_user_space_start
run_syscall l fuel Syscall.system_user_space_end arg = sys_system_user_space_end
run_syscall l fuel Syscall.system_caps_per_cap_space arg = sys_system_caps_per_cap_space
run_syscall l fuel Syscall.system_yield arg = sys_system_yield
run_syscall l fuel Syscall.system_cap_size arg = sys_system_cap_size l.cap_numbers arg
run_syscall l fuel Syscall.system_cap_align arg = sys_system_cap_align l.cap_numbers arg
run_syscall l fuel Syscall.arch_mmu_mode arg = succeed l.mmu_sv39
run_syscall l fuel Syscall.cap_type arg = sys_cap_type l.cap_numbers arg
run_syscall l fuel Syscall.cap_copy arg = sys_cap_copy fuel arg
run_syscall l fuel Syscall.cap_revoke arg = sys_cap_revoke l.layout fuel arg
run_syscall l fuel Syscall.cap_destroy arg = sys_cap_destroy l.layout fuel arg
run_syscall l fuel Syscall.cap_same arg = sys_cap_same arg
run_syscall l fuel Syscall.mem_cap_device arg = sys_mem_cap_device arg
run_syscall l fuel Syscall.mem_cap_phys_addr arg = sys_mem_cap_phys_addr arg
run_syscall l fuel Syscall.mem_cap_size arg = sys_mem_cap_size arg
run_syscall l fuel Syscall.mem_cap_used_size arg = sys_mem_cap_used_size arg
run_syscall l fuel Syscall.mem_cap_create_object arg =
    sys_mem_cap_create_object l.cap_numbers fuel arg
run_syscall l fuel Syscall.task_cap_tid arg = sys_task_cap_tid arg
run_syscall l fuel Syscall.task_cap_killable arg = sys_task_cap_killable arg
run_syscall l fuel Syscall.task_cap_switchable arg = sys_task_cap_switchable arg
run_syscall l fuel Syscall.task_cap_suspendable arg = sys_task_cap_suspendable arg
run_syscall l fuel Syscall.task_cap_resumable arg = sys_task_cap_resumable arg
run_syscall l fuel Syscall.task_cap_kill arg = sys_task_cap_kill l.layout arg
run_syscall l fuel Syscall.task_cap_switch arg = sys_task_cap_switch arg
run_syscall l fuel Syscall.task_cap_suspend arg = sys_task_cap_suspend arg
run_syscall l fuel Syscall.task_cap_resume arg = sys_task_cap_resume arg
run_syscall l fuel Syscall.task_cap_get_reg arg = sys_task_cap_get_reg l.last_register arg
run_syscall l fuel Syscall.task_cap_set_reg arg = sys_task_cap_set_reg l.last_register arg
run_syscall l fuel Syscall.task_cap_transfer_cap arg = sys_task_cap_transfer_cap arg
run_syscall l fuel Syscall.task_cap_delegate_cap arg = sys_task_cap_delegate_cap fuel arg
run_syscall l fuel Syscall.task_cap_get_free_slot_count arg = sys_task_cap_get_free_slot_count arg
run_syscall l fuel Syscall.task_cap_get_cap_space_count arg = sys_task_cap_get_cap_space_count arg
run_syscall l fuel Syscall.task_cap_get_cap_space_ext_count arg =
    sys_task_cap_get_cap_space_ext_count arg
run_syscall l fuel Syscall.task_cap_insert_cap_space arg = sys_task_cap_insert_cap_space arg
run_syscall l fuel Syscall.task_cap_extend_cap_space arg = sys_task_cap_extend_cap_space arg
run_syscall l fuel Syscall.task_cap_set_kill_notify arg = sys_task_cap_set_kill_notify arg
run_syscall l fuel Syscall.endpoint_cap_send_short arg =
    sys_endpoint_cap_send_short l.layout fuel arg
run_syscall l fuel Syscall.endpoint_cap_send_long arg = sys_endpoint_cap_send_long l.layout fuel arg
run_syscall l fuel Syscall.endpoint_cap_receive arg = sys_endpoint_cap_receive l.layout fuel arg
run_syscall l fuel Syscall.endpoint_cap_reply arg = sys_endpoint_cap_reply l.layout fuel arg
run_syscall l fuel Syscall.endpoint_cap_nb_send_short arg =
    sys_endpoint_cap_nb_send_short l.layout fuel arg
run_syscall l fuel Syscall.endpoint_cap_nb_send_long arg =
    sys_endpoint_cap_nb_send_long l.layout fuel arg
run_syscall l fuel Syscall.endpoint_cap_nb_receive arg =
    sys_endpoint_cap_nb_receive l.layout fuel arg
run_syscall l fuel Syscall.endpoint_cap_call arg = sys_endpoint_cap_call l.layout fuel arg
run_syscall l fuel Syscall.endpoint_cap_reply_and_receive arg =
    sys_endpoint_cap_reply_and_receive l.layout fuel arg
run_syscall l fuel Syscall.page_table_cap_mapped arg = sys_page_table_cap_mapped arg
run_syscall l fuel Syscall.page_table_cap_level arg = sys_page_table_cap_level arg
run_syscall l fuel Syscall.page_table_cap_map_table arg = sys_page_table_cap_map_table arg
run_syscall l fuel Syscall.page_table_cap_unmap_table arg = sys_page_table_cap_unmap_table arg
run_syscall l fuel Syscall.page_table_cap_map_page arg = sys_page_table_cap_map_page arg
run_syscall l fuel Syscall.page_table_cap_unmap_page arg = sys_page_table_cap_unmap_page arg
run_syscall l fuel Syscall.page_table_cap_remap_page arg = sys_page_table_cap_remap_page arg
run_syscall l fuel Syscall.page_table_cap_virt_addr_base arg = sys_page_table_cap_virt_addr_base arg
run_syscall l fuel Syscall.virt_page_cap_mapped arg = sys_virt_page_cap_mapped arg
run_syscall l fuel Syscall.virt_page_cap_readable arg = sys_virt_page_cap_readable arg
run_syscall l fuel Syscall.virt_page_cap_writable arg = sys_virt_page_cap_writable arg
run_syscall l fuel Syscall.virt_page_cap_executable arg = sys_virt_page_cap_executable arg
run_syscall l fuel Syscall.virt_page_cap_level arg = sys_virt_page_cap_level arg
run_syscall l fuel Syscall.virt_page_cap_phys_addr arg = sys_virt_page_cap_phys_addr arg
run_syscall l fuel Syscall.virt_page_cap_virt_addr arg = sys_virt_page_cap_virt_addr arg
run_syscall l fuel Syscall.id_cap_create arg = sys_id_cap_create
run_syscall l fuel Syscall.id_cap_compare arg = sys_id_cap_compare arg

-- `return ns_table[ns](id, make_map_ptr(&args))`
abbrev pub answer_from : Platform → ℕ → (ℕ → ℕ) → Target → Cmd Answer
answer_from l fuel args Target.ill_code = fail Error.ill_code
answer_from l fuel args Target.null_pointer = halt Stop.null_access
answer_from l fuel args (Target.handler c) = run_syscall l fuel c args

unfoldable pub invoke_syscall : Platform → ℕ → Cmd Answer
invoke_syscall l fuel = do
  a ← get_syscall_args
  answer_from l fuel a.args (find_handler l.syscall_numbers a.code)
