-- ===== src/Syscall/Rights.antt =====
-- The rights in a task's capability.
use caprese.Common.{ℕ, ◌≡◌, ◌≢◌, false, Bool, arith}
use caprese.Cap.{Capability, TaskCap}
use caprese.Kernel.{Kernel, Error, Cmd, ok, get_slot}
use caprese.Ipc.{MessageLayout}
use caprese.Syscall.Lookup.{Answer, sysret_e, lookup_task_cap, found_or_errno}
use caprese.Syscall.Registers.{sys_task_cap_get_reg, sys_task_cap_set_reg}
use caprese.Syscall.Tasks.{
  with_task_cap, sys_task_cap_kill, sys_task_cap_switch, sys_task_cap_suspend, sys_task_cap_resume,
}

-- The calls that a right in the capability guards, and that right.
pub data GuardedCall : Type 0 where
  kill switch suspend resume get_reg set_reg : GuardedCall

abbrev pub run_guarded : MessageLayout → ℕ → GuardedCall → (ℕ → ℕ) → Cmd Answer
run_guarded layout last_register GuardedCall.kill arg = sys_task_cap_kill layout arg
run_guarded layout last_register GuardedCall.switch arg = sys_task_cap_switch arg
run_guarded layout last_register GuardedCall.suspend arg = sys_task_cap_suspend arg
run_guarded layout last_register GuardedCall.resume arg = sys_task_cap_resume arg
run_guarded layout last_register GuardedCall.get_reg arg = sys_task_cap_get_reg last_register arg
run_guarded layout last_register GuardedCall.set_reg arg = sys_task_cap_set_reg last_register arg

abbrev pub right_for : GuardedCall → TaskCap → Bool
right_for GuardedCall.kill c = c.killable
right_for GuardedCall.switch c = c.switchable
right_for GuardedCall.suspend c = c.suspendable
right_for GuardedCall.resume c = c.resumable
right_for GuardedCall.get_reg c = c.register_gettable
right_for GuardedCall.set_reg c = c.register_settable

-- When the capability that a descriptor leads to lacks the right for it, killing, switching to,
-- suspending or resuming the task, or reading or writing a register of it, answers with the
-- error for the state of the capability, and nothing changes.
pub guarded_call-refused :
    (layout : MessageLayout) (last_register : ℕ) (call : GuardedCall) (arg : ℕ → ℕ) (slot : ℕ)
    (c : TaskCap) (k : Kernel)
    → slot ≢ 0
    → lookup_task_cap arg k ≡ ok slot k
    → (k.slots slot).cap ≡ Capability.task c
    → right_for call c ≡ false
    → run_guarded layout last_register call arg k
      ≡ ok (Answer.answered (sysret_e Error.cap_state)) k
unfolding sys_task_cap_get_reg sys_task_cap_set_reg sys_task_cap_kill sys_task_cap_switch
    sys_task_cap_suspend sys_task_cap_resume with_task_cap found_or_errno get_slot
guarded_call-refused layout last_register GuardedCall.kill arg slot c k ne found holds lacks =
    ground arith
guarded_call-refused layout last_register GuardedCall.switch arg slot c k ne found holds lacks =
    ground arith
guarded_call-refused layout last_register GuardedCall.suspend arg slot c k ne found holds lacks =
    ground arith
guarded_call-refused layout last_register GuardedCall.resume arg slot c k ne found holds lacks =
    ground arith
guarded_call-refused layout last_register GuardedCall.get_reg arg slot c k ne found holds lacks =
    ground arith
guarded_call-refused layout last_register GuardedCall.set_reg arg slot c k ne found holds lacks =
    ground arith
