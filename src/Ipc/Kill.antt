-- ===== src/Ipc/Kill.antt =====
-- src/kernel/ipc.cpp: ipc_send_kill_notify; src/kernel/task.cpp: kill_task.
use caprese.Common.{ℕ, ◌==◌, not, if◌then◌else◌}
use caprese.Kernel.{
  TaskState, IpcState, EventType, in_state, tid_index, Task, Cmd, Stop, pure, halt, assert, ◌>>◌,
  ◌>>=◌, get_task, put_task, get_endpoint, put_endpoint,
}
use caprese.Task.{
  Switch, current, resched, push_ready_queue, remove_ready_queue, remove_waiting_queue,
}
use caprese.Ipc.Message.{MessageLayout, ipc_transfer_kill_msg}
use caprese.Ipc.Calls.{serve_receiver, push_sender}

-- The two branches: a receiver gets the news, or the dead task queues up as a sender.
unfoldable pub leave_kill_notice : MessageLayout → ℕ → ℕ → Cmd (Unit {0})
leave_kill_notice layout endpoint task = do
  e ← get_endpoint endpoint
  if not (e.receiver_queue.head == 0)
      then (do
        assert (e.sender_queue.head == 0)
        let receiver = e.receiver_queue.head
        _ ← ipc_transfer_kill_msg layout receiver task
        serve_receiver endpoint receiver
        push_ready_queue receiver)
      else do
        t ← get_task task
        put_task task (record t {
          ipc_state = IpcState.sending;
          event_type = EventType.kill;
          endpoint = endpoint;
        })
        push_sender endpoint task

unfoldable pub ipc_send_kill_notify : MessageLayout → ℕ → ℕ → Cmd Switch
unfolding leave_kill_notice
ipc_send_kill_notify layout endpoint task = do
  assert (not (endpoint == 0))
  assert (not (task == 0))
  t ← get_task task
  assert (in_state TaskState.killed t)
  leave_kill_notice layout endpoint task
  resched

-- A waiting task leaves the endpoint where it waits.
unfoldable pub leave_endpoint : ℕ → Task → Cmd (Unit {0})
leave_endpoint task t = elim t.ipc_state [
  | IpcState.sending ↦ do
    e ← get_endpoint t.endpoint
    q ← remove_waiting_queue e.sender_queue task
    put_endpoint t.endpoint (record e { sender_queue = q })
  | IpcState.receiving ↦ do
    e ← get_endpoint t.endpoint
    q ← remove_waiting_queue e.receiver_queue task
    put_endpoint t.endpoint (record e { receiver_queue = q })
  | IpcState.calling ↦ do
    c ← get_task t.callee_task
    assert (c.caller_task == task)
    put_task t.callee_task (record c { caller_task = 0 })
  | _ ↦ halt Stop.panic
]

-- The first `switch` of `kill_task`.
unfoldable pub leave_queues : ℕ → Task → Cmd (Unit {0})
unfolding leave_endpoint
leave_queues task t = elim t.state [
  | TaskState.ready ↦ remove_ready_queue task
  | TaskState.waiting ↦ if t.endpoint == 0 then pure tt else leave_endpoint task t
  | _ ↦ pure tt
]

-- What follows the notice. Behind a notice it is reached only if the core comes back to the task
-- that called `kill_task`.
unfoldable pub finish_kill : ℕ → Cmd Switch
finish_kill task = do
  t ← get_task task
  if tid_index t == 1
      then halt Stop.panic
      else do cur ← current; if task == cur then resched else pure Switch.returned

unfoldable pub kill_task : MessageLayout → ℕ → ℕ → Cmd Switch
unfolding leave_queues finish_kill
kill_task layout task exit_status = do
  assert (not (task == 0))
  t ← get_task task
  assert (not (in_state TaskState.unused t))
  leave_queues task t
  t' ← get_task task
  put_task task (record t' { state = TaskState.killed; exit_status = exit_status })
  if not (t'.kill_notify == 0)
      then ipc_send_kill_notify layout t'.kill_notify task
      else finish_kill task
