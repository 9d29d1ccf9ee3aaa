-- ===== src/Ipc/Receive.antt =====
-- src/kernel/ipc.cpp: ipc_receive, ipc_reply and ipc_call.
use caprese.Common.{ℕ, ◌==◌, Bool, true, false, not, if◌then◌else◌}
use caprese.Kernel.{
  Task, TaskState, IpcState, IpcMsgState, EventType, in_state, in_ipc_state, in_ipc_msg_state,
  has_event_type, Error, Cmd, pure, assert, refuse, when, ◌>>◌, ◌>>=◌, get_task, put_task,
  get_endpoint, put_endpoint,
}
use caprese.Task.{current, push_ready_queue, remove_waiting_queue}
use caprese.Ipc.Message.{MessageLayout, ipc_transfer_ipc_msg, ipc_transfer_kill_msg}
use caprese.Ipc.Calls.{
  Outcome, with_long_msg, is_free_to_wait, served, serve_receiver, sending_at, push_sender,
  go_to_sleep, wait_to_receive, switch_and_return,
}

-- A caller that gets no reply.
abbrev pub abandoned : Task → Task
abandoned t = record t {
  state = TaskState.ready;
  ipc_state = IpcState.canceled;
  event_type = EventType.none;
  ipc_msg_state = IpcMsgState.empty;
  callee_task = 0;
  endpoint = 0;
}

-- The current task receives although it owes its caller a reply: the call is cancelled.
unfoldable pub abandon_caller : ℕ → ℕ → ℕ → Cmd (Unit {0})
abandon_caller endpoint cur caller = do
  c ← get_task caller
  assert (in_state TaskState.waiting c)
  assert (in_ipc_state IpcState.calling c)
  assert (has_event_type EventType.send c)
  assert (c.prev_waiting_task == 0)
  assert (c.next_waiting_task == 0)
  assert (c.callee_task == cur)
  assert (c.endpoint == endpoint)
  put_task caller (abandoned c)
  push_ready_queue caller
  t ← get_task cur
  put_task cur (record t { caller_task = 0 })

-- What becomes of a sender when its message has been handed over.
unfoldable pub settle_sender : ℕ → ℕ → Cmd (Unit {0})
settle_sender cur sender = do
  s ← get_task sender
  if in_ipc_state IpcState.calling s
      then (do
        assert (in_state TaskState.waiting s)
        assert (has_event_type EventType.send s)
        put_task sender (record s { callee_task = cur })
        t ← get_task cur
        put_task cur (record t { caller_task = sender }))
      else put_task sender (record (served s) { event_type = EventType.none })

-- The message or the news of the first sender; false if a message cannot be handed over.
unfoldable pub take_from_sender : MessageLayout → ℕ → ℕ → ℕ → Cmd Bool
unfolding settle_sender
take_from_sender layout fuel cur sender = do
  s ← get_task sender
  if has_event_type EventType.send s
      then (do
        done ← ipc_transfer_ipc_msg layout fuel cur sender
        if not done then pure false else do settle_sender cur sender; pure true)
      else if has_event_type EventType.kill s
      then (do _ ← ipc_transfer_kill_msg layout cur sender; pure true)
      else pure true

-- The branch of `ipc_receive` that finds a sender in the queue.
unfoldable pub receive_from : MessageLayout → ℕ → ℕ → ℕ → ℕ → Cmd Outcome
unfolding take_from_sender
receive_from layout fuel endpoint cur sender = do
  s ← get_task sender
  assert (s.callee_task == 0)
  e ← get_endpoint endpoint
  q ← remove_waiting_queue e.sender_queue sender
  put_endpoint endpoint (record e { sender_queue = q })
  done ← take_from_sender layout fuel cur sender
  if not done then pure (Outcome.returns false) else do
    t ← get_task sender
    if in_state TaskState.ready t then switch_and_return sender else pure (Outcome.returns true)

unfoldable pub ipc_receive : MessageLayout → ℕ → Bool → ℕ → ℕ → Cmd Outcome
unfolding abandon_caller receive_from
ipc_receive layout fuel blocking endpoint msg = do
  assert (not (endpoint == 0))
  cur ← current
  t ← get_task cur
  is_free_to_wait t
  put_task cur (with_long_msg msg t)
  when (not (t.caller_task == 0)) (abandon_caller endpoint cur t.caller_task)
  e ← get_endpoint endpoint
  if not (e.sender_queue.head == 0)
      then (do
        assert (e.receiver_queue.head == 0)
        receive_from layout fuel endpoint cur e.sender_queue.head)
      else if not blocking
      then refuse Error.blocked (Outcome.returns false)
      else wait_to_receive endpoint cur

-- What the reply leaves of the caller, and of the task that replies.
abbrev pub replied : Task → Task
replied t = record (served t) { event_type = EventType.none; callee_task = 0 }

abbrev pub done_replying : Task → Task
done_replying t = record t { caller_task = 0; ipc_msg_state = IpcMsgState.empty }

unfoldable pub ipc_reply : MessageLayout → ℕ → ℕ → ℕ → Cmd Bool
ipc_reply layout fuel endpoint msg = do
  cur ← current
  t ← get_task cur
  if t.caller_task == 0 then pure true else do
    let caller = t.caller_task
    c ← get_task caller
    assert (c.callee_task == cur)
    assert (in_state TaskState.waiting c)
    assert (in_ipc_state IpcState.calling c)
    assert (has_event_type EventType.send c)
    assert (in_ipc_msg_state IpcMsgState.long_size c)
    assert (c.endpoint == endpoint)
    put_task cur (with_long_msg msg t)
    done ← ipc_transfer_ipc_msg layout fuel caller cur
    if not done then pure false else do
      c' ← get_task caller
      put_task caller (replied c')
      t' ← get_task cur
      put_task cur (done_replying t')
      push_ready_queue caller
      pure true

-- The branch of `ipc_call` that finds a receiver; false if the message cannot be handed over.
unfoldable pub call_receiver : MessageLayout → ℕ → ℕ → ℕ → ℕ → Cmd Bool
call_receiver layout fuel endpoint cur receiver = do
  done ← ipc_transfer_ipc_msg layout fuel receiver cur
  if not done then pure false else do
    serve_receiver endpoint receiver
    r ← get_task receiver
    put_task receiver (record r { caller_task = cur })
    t ← get_task cur
    put_task cur (record t { callee_task = receiver })
    push_ready_queue receiver
    pure true

unfoldable pub ipc_call : MessageLayout → ℕ → ℕ → ℕ → Cmd Outcome
unfolding call_receiver
ipc_call layout fuel endpoint msg = do
  assert (not (endpoint == 0))
  cur ← current
  t ← get_task cur
  put_task cur (sending_at endpoint IpcState.calling (with_long_msg msg t))
  e ← get_endpoint endpoint
  if not (e.receiver_queue.head == 0)
      then (do
        assert (e.sender_queue.head == 0)
        done ← call_receiver layout fuel endpoint cur e.receiver_queue.head
        if not done then pure (Outcome.returns false) else go_to_sleep)
      else do push_sender endpoint cur; go_to_sleep
