-- ===== src/Examples/Traps.antt =====
-- A system call out of user code, and the boot loader's table.
use mathlib.Core.List.{Memᴰ}
use caprese.Common.{
  ℕ, ◌+◌, ◌*◌, ◌%◌, ◌^◌, ◌<◌, ◌≤◌, ◌≡◌, ◌⊎◌, refl, ◌==◌, if◌then◌else◌, true, false, arith,
}
use caprese.Config.{mapped_space_base, max_physical_address, u64}
use caprese.Kernel.{Kernel, TaskState, Error, Ensures}
use caprese.Syscall.{Namespace, Syscall, sysns_table, sysret_s_ok, sys_system_page_size}
use caprese.Trap.{TrapEnd, user_trap}
use caprese.Trap.Calls.{Answers, user_trap-run_syscall}
use caprese.Boot.{map_mapped_space, boot_index, map_mapped_space-covers}
use caprese.Examples.Kernels.{quiet, task_in, no_entry}
use caprese.Examples.SyscallNumbers.{platform, numbers-IsNumbering}

abbrev error_number : Error → ℕ
error_number Error.s_ok = 0
error_number Error.cap_type = 1
error_number Error.cap_state = 2
error_number Error.ill_code = 3
error_number Error.ill_args = 4
error_number Error.ill_state = 5
error_number Error.canceled = 6
error_number Error.blocked = 7
error_number Error.out_of_cap_space = 8

-- The running task asks for the size of a page.
abbrev asking_size : Kernel
asking_size = record quiet {
  tasks = λ _. record (task_in TaskState.running) { frame = λ r. if r == 16 then 2 else r };
}

size_listed : Memᴰ Syscall.system_page_size (sysns_table Namespace.system)
unfolding sysns_table
size_listed = search (Memᴰ.head, Memᴰ.tail) depth 12

user_trap_example :
    Ensures
      (λ e k'. (e ≡ TrapEnd.user_mode) × Answers error_number (sysret_s_ok 4096) asking_size k')
      (user_trap error_number platform 5 8 asking_size)
unfolding sys_system_page_size
user_trap_example =
    user_trap-run_syscall error_number platform 5 Namespace.system Syscall.system_page_size
      asking_size (sysret_s_ok 4096) asking_size numbers-IsNumbering (omega arith) size_listed refl
      refl refl (omega arith)

boot_example :
    ((p : ℕ)
      → p < max_physical_address
      → let e = map_mapped_space 65 0 (λ _. no_entry) (boot_index (u64 (mapped_space_base + p))) in
        (e.v ≡ true)
        × (e.r ≡ true)
        × (e.w ≡ true)
        × (e.x ≡ true)
        × (e.u ≡ false)
        × (e.next_page_number * 2 ^ 12 + p % 2 ^ 30 ≡ p))
    × ((a : ℕ) → a < 128 ⊎ 192 ≤ a → map_mapped_space 65 0 (λ _. no_entry) a ≡ no_entry)
boot_example = map_mapped_space-covers (λ _. no_entry)
