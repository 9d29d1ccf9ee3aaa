-- ===== src/Task/ReadyQueue.antt =====
-- src/kernel/task.cpp: the ready queue; src/kernel/ipc.cpp: the queues of waiting tasks, which are
-- linked through other fields of the task in the same way.
use caprese.Common.{ℕ, update, ◌==◌, not, if◌then◌else◌}
use caprese.Kernel.{
  Task, TaskState, in_state, TaskQueue, Cmd, Stop, pure, ok, stop, assert, ◌>>◌, ◌>>=◌, get_task,
}

abbrev set_ready_queue : TaskQueue → Cmd (Unit {0})
set_ready_queue q k = ok tt (record k { ready_queue = q })

abbrev ready_queue_of : Cmd TaskQueue
ready_queue_of k = ok k.ready_queue k

-- `p->next_ready_task = q`
unfoldable pub with_next_ready : ℕ → ℕ → (ℕ → Task) → ℕ → Task
with_next_ready p q ts = update ts p (record (ts p) { next_ready_task = q })

abbrev set_next_ready : ℕ → ℕ → Cmd (Unit {0})
set_next_ready p q k =
    if p == 0
    then stop Stop.null_access
    else ok tt (record k { tasks = with_next_ready p q k.tasks })

-- `p->prev_ready_task = q`
unfoldable pub with_prev_ready : ℕ → ℕ → (ℕ → Task) → ℕ → Task
with_prev_ready p q ts = update ts p (record (ts p) { prev_ready_task = q })

abbrev set_prev_ready : ℕ → ℕ → Cmd (Unit {0})
set_prev_ready p q k =
    if p == 0
    then stop Stop.null_access
    else ok tt (record k { tasks = with_prev_ready p q k.tasks })

unfoldable pub push_ready_queue : ℕ → Cmd (Unit {0})
push_ready_queue task = do
  assert (not (task == 0))
  t ← get_task task
  assert (in_state TaskState.ready t)
  assert (t.prev_ready_task == 0)
  assert (t.next_ready_task == 0)
  q ← ready_queue_of
  if q.head == 0 then set_ready_queue (record { head = task; tail = task }) else do
    set_next_ready q.tail task
    set_prev_ready task q.tail
    set_ready_queue (record q { tail = task })

unfoldable pub remove_ready_queue : ℕ → Cmd (Unit {0})
remove_ready_queue task = do
  assert (not (task == 0))
  t ← get_task task
  assert (in_state TaskState.ready t)
  q ← ready_queue_of
  if q.head == task
      then set_ready_queue (record q { head = t.next_ready_task })
      else set_next_ready t.prev_ready_task t.next_ready_task
  q' ← ready_queue_of
  t' ← get_task task
  if q'.tail == task
      then set_ready_queue (record q' { tail = t'.prev_ready_task })
      else set_prev_ready t'.next_ready_task t'.prev_ready_task
  set_prev_ready task 0
  set_next_ready task 0

unfoldable pub pop_ready_task : Cmd ℕ
pop_ready_task = do
  q ← ready_queue_of
  if q.head == 0 then pure 0 else do remove_ready_queue q.head; pure q.head

-- `p->next_waiting_task = q`
unfoldable pub with_next_waiting : ℕ → ℕ → (ℕ → Task) → ℕ → Task
with_next_waiting p q ts = update ts p (record (ts p) { next_waiting_task = q })

abbrev set_next_waiting : ℕ → ℕ → Cmd (Unit {0})
set_next_waiting p q k =
    if p == 0
    then stop Stop.null_access
    else ok tt (record k { tasks = with_next_waiting p q k.tasks })

-- `p->prev_waiting_task = q`
unfoldable pub with_prev_waiting : ℕ → ℕ → (ℕ → Task) → ℕ → Task
with_prev_waiting p q ts = update ts p (record (ts p) { prev_waiting_task = q })

abbrev set_prev_waiting : ℕ → ℕ → Cmd (Unit {0})
set_prev_waiting p q k =
    if p == 0
    then stop Stop.null_access
    else ok tt (record k { tasks = with_prev_waiting p q k.tasks })

-- `push_waiting_queue(queue, task)`, where `queue` is returned as it is afterwards.
unfoldable pub push_waiting_queue : TaskQueue → ℕ → Cmd TaskQueue
push_waiting_queue q task = do
  assert (not (task == 0))
  t ← get_task task
  assert (in_state TaskState.waiting t)
  assert (t.prev_waiting_task == 0)
  assert (t.next_waiting_task == 0)
  if q.head == 0 then pure (record { head = task; tail = task }) else do
    set_next_waiting q.tail task
    set_prev_waiting task q.tail
    pure (record q { tail = task })

-- `remove_waiting_queue(queue, task)`
unfoldable pub remove_waiting_queue : TaskQueue → ℕ → Cmd TaskQueue
remove_waiting_queue q task = do
  assert (not (task == 0))
  t ← get_task task
  assert (in_state TaskState.waiting t)
  q' ←
      if q.head == task
      then pure (record q { head = t.next_waiting_task })
      else do set_next_waiting t.prev_waiting_task t.next_waiting_task; pure q
  t' ← get_task task
  q'' ←
      if q'.tail == task
      then pure (record q' { tail = t'.prev_waiting_task })
      else do set_prev_waiting t'.next_waiting_task t'.prev_waiting_task; pure q'
  set_prev_waiting task 0
  set_next_waiting task 0
  pure q''
