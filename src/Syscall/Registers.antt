-- ===== src/Syscall/Registers.antt =====
-- src/arch/rv64/kernel/frame.cpp: the registers of a task; the system calls of
-- src/kernel/syscall/ns_task_cap.cpp that read and write one, and get_syscall_args of
-- src/arch/rv64/kernel/syscall.cpp. `LAST_REGISTER` is libcaprese's.
use caprese.Common.{ℕ, ◌+◌, not, ltb, if◌then◌else◌, update}
use caprese.Kernel.{Task, TaskState, in_state, Error, Cmd, pure, ◌>>◌, ◌>>=◌, get_task, put_task}
use caprese.Task.{current}
use caprese.Syscall.Lookup.{Answer, succeed, fail}
use caprese.Syscall.Tasks.{with_task_cap, if_allowed}

unfoldable pub get_register : ℕ → Task → ℕ → ℕ
get_register last_register t reg = if ltb last_register reg then 0 else t.frame reg

-- The answer is the old value, or the new one where there is no such register.
unfoldable pub set_register : ℕ → ℕ → ℕ → ℕ → Cmd ℕ
set_register last_register task reg value = if ltb last_register reg then pure value else do
  t ← get_task task
  put_task task (record t { frame = update t.frame reg value })
  pure (t.frame reg)

unfoldable pub sys_task_cap_get_reg : ℕ → (ℕ → ℕ) → Cmd Answer
sys_task_cap_get_reg last_register arg = with_task_cap arg λ c. if_allowed c.register_gettable (do
  t ← get_task c.task
  if not (in_state TaskState.suspended t)
      then fail Error.ill_state
      else if ltb last_register (arg 1)
      then fail Error.ill_args
      else succeed (get_register last_register t (arg 1)))

unfoldable pub sys_task_cap_set_reg : ℕ → (ℕ → ℕ) → Cmd Answer
sys_task_cap_set_reg last_register arg = with_task_cap arg λ c. if_allowed c.register_settable (do
  t ← get_task c.task
  if not (in_state TaskState.suspended t)
      then fail Error.ill_state
      else if ltb last_register (arg 1)
      then fail Error.ill_args
      else do old_value ← set_register last_register c.task (arg 1) (arg 2); succeed old_value)

pub record SyscallArgs : Type 0 where
  pub args : ℕ → ℕ
  pub code : ℕ

-- The arguments in a0 to a6 and the code in a7 of the current task.
unfoldable pub get_syscall_args : Cmd SyscallArgs
get_syscall_args = do
  task ← current
  t ← get_task task
  pure (record { args = λ i. t.frame (9 + i); code = t.frame 16 })
