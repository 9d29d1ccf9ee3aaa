-- ===== src/Ipc/Cancel.antt =====
-- src/kernel/ipc.cpp: ipc_cancel.
use caprese.Common.{ℕ, zero, suc, ◌==◌, if◌then◌else◌}
use caprese.Kernel.{
  Task, TaskState, IpcState, IpcMsgState, EventType, Cmd, Stop, pure, halt, ◌>>◌, ◌>>=◌, get_task,
  put_task, get_endpoint, put_endpoint,
}
use caprese.Task.{push_ready_queue, remove_waiting_queue}

-- What a cancelled task keeps of its state; a sender's event is cleared as well.
abbrev pub cancelled : EventType → Task → Task
cancelled event t = record t {
  state = TaskState.ready;
  ipc_state = IpcState.canceled;
  ipc_msg_state = IpcMsgState.empty;
  event_type = event;
  endpoint = 0;
}

-- The first loop: the queue of receivers is emptied.
unfoldable pub cancel_receivers : ℕ → ℕ → Cmd (Unit {0})
cancel_receivers zero endpoint = halt Stop.out_of_fuel
cancel_receivers (suc fuel) endpoint = do
  e ← get_endpoint endpoint
  if e.receiver_queue.head == 0 then pure tt else do
    let receiver = e.receiver_queue.head
    q ← remove_waiting_queue e.receiver_queue receiver
    put_endpoint endpoint (record e { receiver_queue = q })
    t ← get_task receiver
    put_task receiver (cancelled t.event_type t)
    push_ready_queue receiver
    cancel_receivers fuel endpoint

-- The second loop: the queue of senders is emptied.
unfoldable pub cancel_senders : ℕ → ℕ → Cmd (Unit {0})
cancel_senders zero endpoint = halt Stop.out_of_fuel
cancel_senders (suc fuel) endpoint = do
  e ← get_endpoint endpoint
  if e.sender_queue.head == 0 then pure tt else do
    let sender = e.sender_queue.head
    q ← remove_waiting_queue e.sender_queue sender
    put_endpoint endpoint (record e { sender_queue = q })
    t ← get_task sender
    put_task sender (cancelled EventType.none t)
    push_ready_queue sender
    cancel_senders fuel endpoint

unfoldable pub ipc_cancel : ℕ → ℕ → Cmd (Unit {0})
ipc_cancel fuel endpoint = do cancel_receivers fuel endpoint; cancel_senders fuel endpoint
