-- ===== src/Ipc/Calls.antt =====
-- src/kernel/ipc.cpp: sending, receiving, calling and replying.
use caprese.Common.{ℕ, ◌==◌, Bool, true, false, ◌||◌, not, update, if◌then◌else◌}
use caprese.Kernel.{
  Task, TaskState, IpcState, IpcMsgState, EventType, in_ipc_state, in_ipc_msg_state, has_event_type,
  Error, Cmd, pure, assert, refuse, when, set_errno, ◌>>◌, ◌>>=◌, get_task, put_task, get_endpoint,
  put_endpoint,
}
use caprese.Task.{Switch, current, resched, switch_task, push_waiting_queue, remove_waiting_queue}
use caprese.Ipc.Message.{MessageLayout, ipc_transfer_ipc_msg}

-- What a call of the current task does: it returns; another task runs, and when this one runs again
-- the call returns; or it sleeps, and what follows when it runs again is its `woken` half.
pub data Outcome : Type 0 where
  returns : Bool → Outcome
  returns_later : Bool → Outcome
  sleeps : Outcome

-- `task->ipc_long_msg = msg` with the state of the message
abbrev pub with_long_msg : ℕ → Task → Task
with_long_msg msg t = record t {
  ipc_msg = update t.ipc_msg 0 msg;
  ipc_msg_state = IpcMsgState.long_size;
}

-- The asserts at the beginning of a call.
abbrev pub is_free_to_wait : Task → Cmd (Unit {0})
is_free_to_wait t = do
  assert (t.prev_waiting_task == 0)
  assert (t.next_waiting_task == 0)
  assert (t.callee_task == 0)

-- A receiver after it has been served.
abbrev pub served : Task → Task
served t = record t {
  state = TaskState.ready;
  ipc_state = IpcState.none;
  ipc_msg_state = IpcMsgState.empty;
  endpoint = 0;
}

-- The first receiver leaves its queue, ready.
unfoldable pub serve_receiver : ℕ → ℕ → Cmd (Unit {0})
serve_receiver endpoint receiver = do
  e ← get_endpoint endpoint
  q ← remove_waiting_queue e.receiver_queue receiver
  put_endpoint endpoint (record e { receiver_queue = q })
  t ← get_task receiver
  put_task receiver (served t)

-- `switch_task`, after which the call returns true.
unfoldable pub switch_and_return : ℕ → Cmd Outcome
switch_and_return task = do
  s ← switch_task task
  elim s [
    | Switch.returned ↦ pure (Outcome.returns true)
    | Switch.switched ↦ pure (Outcome.returns_later true)
  ]

-- A task that waits to send at the endpoint.
abbrev pub sending_at : ℕ → IpcState → Task → Task
sending_at endpoint s t = record t {
  state = TaskState.waiting;
  ipc_state = s;
  event_type = EventType.send;
  endpoint = endpoint;
}

abbrev pub receiving_at : ℕ → Task → Task
receiving_at endpoint t = record t {
  state = TaskState.waiting;
  ipc_state = IpcState.receiving;
  endpoint = endpoint;
}

abbrev pub push_sender : ℕ → ℕ → Cmd (Unit {0})
push_sender endpoint task = do
  e ← get_endpoint endpoint
  q ← push_waiting_queue e.sender_queue task
  put_endpoint endpoint (record e { sender_queue = q })

abbrev pub push_receiver : ℕ → ℕ → Cmd (Unit {0})
push_receiver endpoint task = do
  e ← get_endpoint endpoint
  q ← push_waiting_queue e.receiver_queue task
  put_endpoint endpoint (record e { receiver_queue = q })

-- The core leaves the current task, which waits.
abbrev pub go_to_sleep : Cmd Outcome
go_to_sleep = do _ ← resched; pure Outcome.sleeps

unfoldable pub wait_to_send : ℕ → ℕ → Cmd Outcome
wait_to_send endpoint task = do
  t ← get_task task
  put_task task (sending_at endpoint IpcState.sending t)
  push_sender endpoint task
  go_to_sleep

unfoldable pub wait_to_receive : ℕ → ℕ → Cmd Outcome
wait_to_receive endpoint task = do
  t ← get_task task
  put_task task (receiving_at endpoint t)
  push_receiver endpoint task
  go_to_sleep

-- `arg` holds the six arguments. The result of the transfer is not looked at.
unfoldable pub ipc_send_short : MessageLayout → ℕ → Bool → ℕ → (ℕ → ℕ) → Cmd Outcome
ipc_send_short layout fuel blocking endpoint arg = do
  assert (not (endpoint == 0))
  cur ← current
  t ← get_task cur
  is_free_to_wait t
  put_task cur (record t { ipc_msg = arg; ipc_msg_state = IpcMsgState.short_size })
  e ← get_endpoint endpoint
  if not (e.receiver_queue.head == 0)
      then (do
        assert (e.sender_queue.head == 0)
        _ ← ipc_transfer_ipc_msg layout fuel e.receiver_queue.head cur
        serve_receiver endpoint e.receiver_queue.head
        switch_and_return e.receiver_queue.head)
      else if not blocking
      then refuse Error.blocked (Outcome.returns false)
      else wait_to_send endpoint cur

unfoldable pub ipc_send_long : MessageLayout → ℕ → Bool → ℕ → ℕ → Cmd Outcome
ipc_send_long layout fuel blocking endpoint msg = do
  assert (not (endpoint == 0))
  cur ← current
  t ← get_task cur
  is_free_to_wait t
  put_task cur (with_long_msg msg t)
  e ← get_endpoint endpoint
  if not (e.receiver_queue.head == 0)
      then (do
        assert (e.sender_queue.head == 0)
        done ← ipc_transfer_ipc_msg layout fuel e.receiver_queue.head cur
        if not done then pure (Outcome.returns false) else do
          serve_receiver endpoint e.receiver_queue.head
          switch_and_return e.receiver_queue.head)
      else if not blocking
      then refuse Error.blocked (Outcome.returns false)
      else wait_to_send endpoint cur

-- What `ipc_send_short`, `ipc_send_long` and `ipc_call` do when `task`, which slept, runs again.
unfoldable pub ipc_send_woken : ℕ → Cmd Bool
ipc_send_woken task = do
  t ← get_task task
  assert (in_ipc_state IpcState.none t || in_ipc_state IpcState.canceled t)
  assert (has_event_type EventType.none t)
  assert (in_ipc_msg_state IpcMsgState.empty t)
  when (in_ipc_state IpcState.canceled t) (set_errno Error.canceled)
  pure (in_ipc_state IpcState.none t)

unfoldable pub ipc_receive_woken : ℕ → Cmd Bool
ipc_receive_woken task = do
  t ← get_task task
  assert (in_ipc_state IpcState.none t || in_ipc_state IpcState.canceled t)
  assert (in_ipc_msg_state IpcMsgState.empty t)
  when (in_ipc_state IpcState.canceled t) (set_errno Error.canceled)
  pure (in_ipc_state IpcState.none t)
