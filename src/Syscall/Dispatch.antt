-- ===== src/Syscall/Dispatch.antt =====
-- src/kernel/syscall.cpp and the tables in include/kernel/syscall: how the word in register a7 chooses the
-- function that answers a system call. The numbers of the namespaces and of the calls are libcaprese's.
use caprese.Common.{ℕ, suc, ◌/◌, ◌%◌, ◌^◌, List, [], ◌∷◌, leb, ltb, ◌==◌, if◌then◌else◌}

pub data Namespace : Type 0 where
  system arch cap mem_cap task_cap endpoint_cap page_table_cap virt_page_cap id_cap : Namespace

-- `invoke_sys_<name>`.
pub data Syscall : Type 0 where
  system_null system_core_id system_page_size system_user_space_start system_user_space_end
        system_caps_per_cap_space system_yield system_cap_size system_cap_align :
      Syscall
  arch_mmu_mode : Syscall
  cap_type cap_copy cap_revoke cap_destroy cap_same : Syscall
  mem_cap_device mem_cap_phys_addr mem_cap_size mem_cap_used_size mem_cap_create_object : Syscall
  task_cap_tid task_cap_killable task_cap_switchable task_cap_suspendable task_cap_resumable
        task_cap_kill task_cap_switch task_cap_suspend task_cap_resume task_cap_get_reg
        task_cap_set_reg task_cap_transfer_cap task_cap_delegate_cap task_cap_get_free_slot_count
        task_cap_get_cap_space_count task_cap_get_cap_space_ext_count task_cap_insert_cap_space
        task_cap_extend_cap_space task_cap_set_kill_notify :
      Syscall
  endpoint_cap_send_short endpoint_cap_send_long endpoint_cap_receive endpoint_cap_reply
        endpoint_cap_nb_send_short endpoint_cap_nb_send_long endpoint_cap_nb_receive
        endpoint_cap_call endpoint_cap_reply_and_receive :
      Syscall
  page_table_cap_mapped page_table_cap_level page_table_cap_map_table page_table_cap_unmap_table
        page_table_cap_map_page page_table_cap_unmap_page page_table_cap_remap_page
        page_table_cap_virt_addr_base :
      Syscall
  virt_page_cap_mapped virt_page_cap_readable virt_page_cap_writable virt_page_cap_executable
        virt_page_cap_level virt_page_cap_phys_addr virt_page_cap_virt_addr :
      Syscall
  id_cap_create id_cap_compare : Syscall

-- The values of `SYSNS_<NAME>` and of `SYS_<NAME>`.
pub record SyscallNumbers : Type 0 where
  pub namespace : Namespace → ℕ
  pub code : Syscall → ℕ

unfoldable pub ns_table : List Namespace
ns_table =
    Namespace.system ∷ Namespace.arch ∷ Namespace.cap ∷ Namespace.mem_cap ∷ Namespace.task_cap
    ∷ Namespace.endpoint_cap ∷ Namespace.page_table_cap ∷ Namespace.virt_page_cap ∷ Namespace.id_cap
    ∷ []

-- The functions in the tables of the namespaces.
abbrev pub sysns_system_table : List Syscall
sysns_system_table =
    Syscall.system_null ∷ Syscall.system_core_id ∷ Syscall.system_page_size
    ∷ Syscall.system_user_space_start ∷ Syscall.system_user_space_end
    ∷ Syscall.system_caps_per_cap_space ∷ Syscall.system_yield ∷ Syscall.system_cap_size
    ∷ Syscall.system_cap_align ∷ []

abbrev pub sysns_arch_table : List Syscall
sysns_arch_table = Syscall.arch_mmu_mode ∷ []

abbrev pub sysns_cap_table : List Syscall
sysns_cap_table =
    Syscall.cap_type ∷ Syscall.cap_copy ∷ Syscall.cap_revoke ∷ Syscall.cap_destroy
    ∷ Syscall.cap_same ∷ []

abbrev pub sysns_mem_cap_table : List Syscall
sysns_mem_cap_table =
    Syscall.mem_cap_device ∷ Syscall.mem_cap_phys_addr ∷ Syscall.mem_cap_size
    ∷ Syscall.mem_cap_used_size ∷ Syscall.mem_cap_create_object ∷ []

abbrev pub sysns_task_cap_table : List Syscall
sysns_task_cap_table =
    Syscall.task_cap_tid ∷ Syscall.task_cap_killable ∷ Syscall.task_cap_switchable
    ∷ Syscall.task_cap_suspendable ∷ Syscall.task_cap_resumable ∷ Syscall.task_cap_kill
    ∷ Syscall.task_cap_switch ∷ Syscall.task_cap_suspend ∷ Syscall.task_cap_resume
    ∷ Syscall.task_cap_get_reg ∷ Syscall.task_cap_set_reg ∷ Syscall.task_cap_transfer_cap
    ∷ Syscall.task_cap_delegate_cap ∷ Syscall.task_cap_get_free_slot_count
    ∷ Syscall.task_cap_get_cap_space_count ∷ Syscall.task_cap_get_cap_space_ext_count
    ∷ Syscall.task_cap_insert_cap_space ∷ Syscall.task_cap_extend_cap_space
    ∷ Syscall.task_cap_set_kill_notify ∷ []

abbrev pub sysns_endpoint_cap_table : List Syscall
sysns_endpoint_cap_table =
    Syscall.endpoint_cap_send_short ∷ Syscall.endpoint_cap_send_long ∷ Syscall.endpoint_cap_receive
    ∷ Syscall.endpoint_cap_reply ∷ Syscall.endpoint_cap_nb_send_short
    ∷ Syscall.endpoint_cap_nb_send_long ∷ Syscall.endpoint_cap_nb_receive
    ∷ Syscall.endpoint_cap_call ∷ Syscall.endpoint_cap_reply_and_receive ∷ []

abbrev pub sysns_page_table_cap_table : List Syscall
sysns_page_table_cap_table =
    Syscall.page_table_cap_mapped ∷ Syscall.page_table_cap_level ∷ Syscall.page_table_cap_map_table
    ∷ Syscall.page_table_cap_unmap_table ∷ Syscall.page_table_cap_map_page
    ∷ Syscall.page_table_cap_unmap_page ∷ Syscall.page_table_cap_remap_page
    ∷ Syscall.page_table_cap_virt_addr_base ∷ []

abbrev pub sysns_virt_page_cap_table : List Syscall
sysns_virt_page_cap_table =
    Syscall.virt_page_cap_mapped ∷ Syscall.virt_page_cap_readable ∷ Syscall.virt_page_cap_writable
    ∷ Syscall.virt_page_cap_executable ∷ Syscall.virt_page_cap_level
    ∷ Syscall.virt_page_cap_phys_addr ∷ Syscall.virt_page_cap_virt_addr ∷ []

abbrev pub sysns_id_cap_table : List Syscall
sysns_id_cap_table = Syscall.id_cap_create ∷ Syscall.id_cap_compare ∷ []

unfoldable pub sysns_table : Namespace → List Syscall
sysns_table Namespace.system = sysns_system_table
sysns_table Namespace.arch = sysns_arch_table
sysns_table Namespace.cap = sysns_cap_table
sysns_table Namespace.mem_cap = sysns_mem_cap_table
sysns_table Namespace.task_cap = sysns_task_cap_table
sysns_table Namespace.endpoint_cap = sysns_endpoint_cap_table
sysns_table Namespace.page_table_cap = sysns_page_table_cap_table
sysns_table Namespace.virt_page_cap = sysns_virt_page_cap_table
sysns_table Namespace.id_cap = sysns_id_cap_table

-- `SYSNS_<NAME> >> 16` and `SYS_<NAME> & 0xffff`, the places in the tables.
abbrev pub namespace_index : SyscallNumbers → Namespace → ℕ
namespace_index n s = n.namespace s / 2 ^ 16

abbrev pub call_index : SyscallNumbers → Syscall → ℕ
call_index n c = n.code c % 2 ^ 16

-- What a place that the program reads in a table holds.
pub data TableEntry {ℓ} (A : Type ℓ) : Type ℓ where
  outside unset : TableEntry A
  entry : A → TableEntry A

-- A table is as long as its last place needs; of two entries for one place the later counts,
-- and a place without an entry holds the null pointer.
module _ {ℓ} {A : Type ℓ} (place : A → ℕ) where
  abbrev pub table_size : List A → ℕ
  table_size [] = 0
  table_size (x ∷ xs) =
      let rest = table_size xs in if ltb rest (suc (place x)) then suc (place x) else rest

  abbrev pub at_place : List A → ℕ → TableEntry A
  at_place [] i = TableEntry.unset
  at_place (x ∷ xs) i = elim (at_place xs i) [
    | TableEntry.entry y ↦ TableEntry.entry y
    | _ ↦ if place x == i then TableEntry.entry x else TableEntry.unset
  ]

  unfoldable pub read_table : List A → ℕ → TableEntry A
  read_table xs i =
      let found = at_place xs i in if leb (table_size xs) i then TableEntry.outside else found

pub data Target : Type 0 where
  ill_code null_pointer : Target
  handler : Syscall → Target

-- `invoke_syscall_<namespace>`, with the number of the call in the namespace.
unfoldable pub find_in_namespace : SyscallNumbers → Namespace → ℕ → Target
find_in_namespace n s id = elim (read_table (call_index n) (sysns_table s) id) [
  | TableEntry.outside ↦ Target.ill_code
  | TableEntry.unset ↦ Target.null_pointer
  | TableEntry.entry c ↦ Target.handler c
]

unfoldable pub find_handler : SyscallNumbers → ℕ → Target
find_handler n code = elim (read_table (namespace_index n) ns_table (code / 2 ^ 16 % 2 ^ 16)) [
  | TableEntry.outside ↦ Target.ill_code
  | TableEntry.unset ↦ Target.null_pointer
  | TableEntry.entry s ↦ find_in_namespace n s (code % 2 ^ 16)
]
