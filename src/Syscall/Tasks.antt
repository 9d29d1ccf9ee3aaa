-- ===== src/Syscall/Tasks.antt =====
-- src/kernel/syscall/ns_task_cap.cpp; the two calls that read and write a register are in Registers.
use caprese.Common.{ℕ, Bool, not, if◌then◌else◌}
use caprese.Config.{u32}
use caprese.Cap.{CapType, TaskCap, is_cap}
use caprese.Kernel.{
  Task, TaskState, in_state, Error, Cmd, pure, ◌>>◌, ◌>>=◌, get_slot, get_task, task_member,
  endpoint_member,
}
use caprese.CapSpace.{transfer_cap, delegate_cap, insert_cap_space, extend_cap_space}
use caprese.Task.{
  Switch, switch_task, suspend_task, resume_task, set_kill_notify, remove_ready_queue,
}
use caprese.Ipc.{MessageLayout, kill_task}
use caprese.Syscall.Lookup.{
  Answer, succeed, fail, bit, after_switch, or_errno, lookup_own, lookup_task_cap, found_or_errno,
  answer_index,
}

-- The capability for a task that `args[0]` names.
unfoldable pub with_task_cap : (ℕ → ℕ) → (TaskCap → Cmd Answer) → Cmd Answer
with_task_cap arg go =
    found_or_errno (lookup_task_cap arg) λ slot. do s ← get_slot slot; c ← task_member s.cap; go c

-- A field of the task.
abbrev task_field : (Task → ℕ) → (ℕ → ℕ) → Cmd Answer
task_field field arg = with_task_cap arg λ c. do t ← get_task c.task; succeed (field t)

unfoldable pub sys_task_cap_tid : (ℕ → ℕ) → Cmd Answer
sys_task_cap_tid = task_field (λ t. u32 t.tid)

unfoldable pub sys_task_cap_killable : (ℕ → ℕ) → Cmd Answer
sys_task_cap_killable arg = with_task_cap arg λ c. succeed (bit c.killable)

unfoldable pub sys_task_cap_switchable : (ℕ → ℕ) → Cmd Answer
sys_task_cap_switchable arg = with_task_cap arg λ c. succeed (bit c.switchable)

unfoldable pub sys_task_cap_suspendable : (ℕ → ℕ) → Cmd Answer
sys_task_cap_suspendable arg = with_task_cap arg λ c. succeed (bit c.suspendable)

unfoldable pub sys_task_cap_resumable : (ℕ → ℕ) → Cmd Answer
sys_task_cap_resumable arg = with_task_cap arg λ c. succeed (bit c.resumable)

-- The call goes on only with the right in the capability.
abbrev pub if_allowed : Bool → Cmd Answer → Cmd Answer
if_allowed right go = if not right then fail Error.cap_state else go

-- Where the core leaves in the midst of `kill_task`, the rest of it comes before the answer.
abbrev after_kill : Switch → Cmd Answer
after_kill Switch.returned = succeed 0
after_kill Switch.switched = pure Answer.asleep

unfoldable pub sys_task_cap_kill : MessageLayout → (ℕ → ℕ) → Cmd Answer
sys_task_cap_kill layout arg =
    with_task_cap arg
      λ c. if_allowed c.killable (do s ← kill_task layout c.task (u32 (arg 1)); after_kill s)

unfoldable pub sys_task_cap_switch : (ℕ → ℕ) → Cmd Answer
sys_task_cap_switch arg = with_task_cap arg λ c. if_allowed c.switchable (do
  t ← get_task c.task
  if not (in_state TaskState.ready t)
      then fail Error.ill_state
      else do remove_ready_queue c.task; s ← switch_task c.task; after_switch s)

unfoldable pub sys_task_cap_suspend : (ℕ → ℕ) → Cmd Answer
sys_task_cap_suspend arg =
    with_task_cap arg λ c. if_allowed c.suspendable (do s ← suspend_task c.task; after_switch s)

unfoldable pub sys_task_cap_resume : (ℕ → ℕ) → Cmd Answer
sys_task_cap_resume arg =
    with_task_cap arg λ c. if_allowed c.resumable (do s ← resume_task c.task; after_switch s)

-- The calls on a task that must be suspended, with the capability that `args[1]` names.
unfoldable pub hand_to_suspended : (ℕ → ℕ → Cmd ℕ) → (ℕ → ℕ) → Cmd Answer
hand_to_suspended hand arg = with_task_cap arg λ c. do
  t ← get_task c.task
  if not (in_state TaskState.suspended t)
      then fail Error.ill_state
      else found_or_errno (lookup_own (arg 1))
          λ src_slot. found_or_errno (hand c.task src_slot) answer_index

unfoldable pub sys_task_cap_transfer_cap : (ℕ → ℕ) → Cmd Answer
unfolding hand_to_suspended
sys_task_cap_transfer_cap = hand_to_suspended transfer_cap

unfoldable pub sys_task_cap_delegate_cap : ℕ → (ℕ → ℕ) → Cmd Answer
unfolding hand_to_suspended
sys_task_cap_delegate_cap fuel = hand_to_suspended (delegate_cap fuel)

unfoldable pub sys_task_cap_get_free_slot_count : (ℕ → ℕ) → Cmd Answer
sys_task_cap_get_free_slot_count = task_field (λ t. t.free_slots_count)

unfoldable pub sys_task_cap_get_cap_space_count : (ℕ → ℕ) → Cmd Answer
sys_task_cap_get_cap_space_count = task_field (λ t. t.num_cap_space)

unfoldable pub sys_task_cap_get_cap_space_ext_count : (ℕ → ℕ) → Cmd Answer
sys_task_cap_get_cap_space_ext_count = task_field (λ t. t.num_extension)

-- The calls with a second capability, of the given type.
unfoldable pub with_second_cap : CapType → (ℕ → ℕ → Cmd Answer) → (ℕ → ℕ) → Cmd Answer
with_second_cap type go arg = found_or_errno (lookup_task_cap arg) λ slot.
    found_or_errno (lookup_own (arg 1)) λ other. do
      s ← get_slot other
      if not (is_cap type s.cap) then fail Error.cap_type else go slot other

unfoldable pub sys_task_cap_insert_cap_space : (ℕ → ℕ) → Cmd Answer
unfolding with_second_cap
sys_task_cap_insert_cap_space =
    with_second_cap CapType.cap_space λ slot other. do b ← insert_cap_space slot other; or_errno b

unfoldable pub sys_task_cap_extend_cap_space : (ℕ → ℕ) → Cmd Answer
unfolding with_second_cap
sys_task_cap_extend_cap_space =
    with_second_cap CapType.page_table λ slot other. do b ← extend_cap_space slot other; or_errno b

-- The result of `set_kill_notify`, which is in errno, is not looked at.
unfoldable pub sys_task_cap_set_kill_notify : (ℕ → ℕ) → Cmd Answer
unfolding with_second_cap
sys_task_cap_set_kill_notify = with_second_cap CapType.endpoint λ slot other. do
  s ← get_slot slot
  c ← task_member s.cap
  o ← get_slot other
  e ← endpoint_member o.cap
  set_kill_notify c.task e.endpoint
  succeed 0
