-- ===== src/Trap/Handler.antt =====
-- `_user_trap` and `return_to_user_mode`. scause is a register of the machine; sstatus, sie and the
-- restoring of the registers are left out.
use caprese.Common.{ℕ, ◌+◌, ◌%◌, ◌/◌, ◌^◌, ◌==◌, if◌then◌else◌, update}
use caprese.Config.{u64, page_size}
use caprese.Kernel.{Stop, Error, Cmd, pure, halt, ◌>>◌, ◌>>=◌, get_task, put_task}
use caprese.Task.{current}
use caprese.Syscall.{Sysret, Answer, Platform, invoke_syscall}

-- The places of registers in the frame.
abbrev pub frame_a0 : ℕ
frame_a0 = 9

abbrev pub frame_a1 : ℕ
frame_a1 = 10

abbrev pub frame_sepc : ℕ
frame_sepc = 31

abbrev pub frame_stack : ℕ
frame_stack = 34

abbrev pub scause_environment_call_from_u_mode : ℕ
scause_environment_call_from_u_mode = 8

abbrev pub scause_supervisor_external_interrupt : ℕ
scause_supervisor_external_interrupt = 9

-- How a trap ends: in user mode, or the core runs something else, and what is left of the trap is done
-- when the task runs again, with this answer of the system call where it is known.
pub data TrapEnd : Type 0 where
  user_mode asleep : TrapEnd
  left_with : Sysret → TrapEnd

unfoldable pub return_to_user_mode : Cmd TrapEnd
return_to_user_mode = do
  task ← current
  t ← get_task task
  put_task task (record t { frame = update t.frame frame_stack (u64 (task + page_size)) })
  pure TrapEnd.user_mode

-- The answer in the registers, and the program behind the instruction that called. `code` has the
-- numbers of the errors, which libcaprese declares.
abbrev pub write_answer : (Error → ℕ) → Sysret → Cmd (Unit {0})
write_answer code r = do
  task ← current
  t ← get_task task
  let frame = update (update t.frame frame_a0 r.result) frame_a1 (code r.error)
  put_task task (record t { frame = update frame frame_sepc (u64 (frame frame_sepc + 4)) })

abbrev pub after_call : (Error → ℕ) → Answer → Cmd TrapEnd
after_call code (Answer.answered r) = do write_answer code r; return_to_user_mode
after_call code (Answer.answered_later r) = pure (TrapEnd.left_with r)
after_call code Answer.asleep = pure TrapEnd.asleep

unfoldable pub user_trap : (Error → ℕ) → Platform → ℕ → ℕ → Cmd TrapEnd
user_trap code l fuel scause =
    let exception = scause % 2 ^ 63 in
    if scause / 2 ^ 63 % 2 == 1
    then if exception == scause_supervisor_external_interrupt
      then return_to_user_mode
      else halt Stop.panic
    else if exception == scause_environment_call_from_u_mode
    then invoke_syscall l fuel >>= after_call code
    else halt Stop.panic
