-- ===== src/Task/Life.antt =====
-- src/kernel/task.cpp: how a task changes its state. A call that leaves the core for another context
-- ends there; `Switch` says so, and what the call would return is not reached.
use caprese.Common.{ℕ, ◌==◌, not, if◌then◌else◌}
use caprese.Kernel.{
  TaskState, Error, in_state, Cmd, ok, pure, assert, refuse, ◌>>◌, ◌>>=◌, get_task, put_task,
}
use caprese.Task.ReadyQueue.{push_ready_queue, remove_ready_queue, pop_ready_task}

-- What a call does in the end: it returns, or the core goes on in another context.
pub data Switch : Type 0 where
  returned : Switch
  switched : Switch

abbrev pub current : Cmd ℕ
current k = ok k.current_task k

abbrev pub idle_task_of : Cmd ℕ
idle_task_of k = ok k.idle_task k

abbrev pub set_current : ℕ → Cmd (Unit {0})
set_current p k = ok tt (record k { current_task = p })

-- `p->state = s`
abbrev pub set_state : ℕ → TaskState → Cmd (Unit {0})
set_state p s = do t ← get_task p; put_task p (record t { state = s })

-- The core leaves `current_task` for the idle task, which runs on in `idle`.
unfoldable pub resched : Cmd Switch
resched = do idle ← idle_task_of; set_current idle; pure Switch.switched

-- One round of the loop in `idle`, up to the switch to the task.
unfoldable pub idle_round : Cmd Switch
idle_round = do
  task ← pop_ready_task
  if task == 0
      then pure Switch.returned
      else do set_current task; set_state task TaskState.running; pure Switch.switched

unfoldable pub switch_task : ℕ → Cmd Switch
switch_task task = do
  assert (not (task == 0))
  t ← get_task task
  assert (in_state TaskState.ready t)
  old_task ← current
  if task == old_task then pure Switch.returned else do
    set_state task TaskState.running
    set_current task
    set_state old_task TaskState.ready
    push_ready_queue old_task
    pure Switch.switched

unfoldable pub suspend_task : ℕ → Cmd Switch
suspend_task task = do
  assert (not (task == 0))
  t ← get_task task
  cur ← current
  elim t.state [
    | TaskState.running ↦ do
      set_state task TaskState.suspended
      if task == cur then resched else pure Switch.returned
    | TaskState.ready ↦ do
      remove_ready_queue task
      set_state task TaskState.suspended
      pure Switch.returned
    | TaskState.waiting ↦ do set_state task TaskState.suspended; pure Switch.returned
    | _ ↦ pure Switch.returned
  ]

unfoldable pub resume_task : ℕ → Cmd Switch
resume_task task = do
  assert (not (task == 0))
  t ← get_task task
  if not (in_state TaskState.suspended t)
      then pure Switch.returned
      else do set_state task TaskState.ready; push_ready_queue task; pure Switch.returned

unfoldable pub yield : Cmd Switch
yield = do cur ← current; set_state cur TaskState.ready; push_ready_queue cur; resched

unfoldable pub set_kill_notify : ℕ → ℕ → Cmd (Unit {0})
set_kill_notify task ep = do
  assert (not (task == 0))
  assert (not (ep == 0))
  t ← get_task task
  if in_state TaskState.unused t
      then refuse Error.ill_state tt
      else put_task task (record t { kill_notify = ep })
