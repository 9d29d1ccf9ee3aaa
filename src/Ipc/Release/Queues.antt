-- ===== src/Ipc/Release/Queues.antt =====
-- The two queues of an endpoint, and one round of the loops of `ipc_cancel`.
use caprese.Common.{
  ℕ, suc, ◌≡◌, ◌≢◌, refl, ap, ◌∙◌, inl, inr, Bool-cases, true, false, List, [], arith, update,
}
use caprese.Chain.{has, frame}
use caprese.Kernel.{
  Kernel, Task, TaskState, EventType, TaskQueue, Endpoint, Cmd, ok, and_then, get_task, put_task,
  get_endpoint, put_endpoint,
}
use caprese.Task.{push_ready_queue, remove_waiting_queue}
use caprese.Task.Queue.{prev_ready, next_ready, IsReadyQueue}
use caprese.Task.Waiting.{prev_waiting, next_waiting, IsWaitingQueue}
use caprese.Ipc.Cancel.{cancelled, cancel_receivers, cancel_senders}

-- The two queues of an endpoint.
pub data Side : Type 0 where
  receivers senders : Side

abbrev pub queue_at : Side → Endpoint → TaskQueue
queue_at Side.receivers e = e.receiver_queue
queue_at Side.senders e = e.sender_queue

abbrev pub with_queue : Side → TaskQueue → Endpoint → Endpoint
with_queue Side.receivers q e = record e { receiver_queue = q }
with_queue Side.senders q e = record e { sender_queue = q }

abbrev pub drain : Side → ℕ → ℕ → Cmd (Unit {0})
drain Side.receivers = cancel_receivers
drain Side.senders = cancel_senders

abbrev pub event_after : Side → Task → EventType
event_after Side.receivers t = t.event_type
event_after Side.senders t = EventType.none

-- The kernel when the task `x` has left its queue, before it is pushed to the ready queue.
abbrev pub after_cancel : Side → ℕ → ℕ → Endpoint → Kernel → Kernel
after_cancel side ep x e k = record k {
  endpoints = update k.endpoints ep e;
  tasks = update k.tasks x (cancelled (event_after side (k.tasks x)) (k.tasks x));
}

pub drain_run :
    (side : Side) (fuel ep x : ℕ) (q : TaskQueue) (k k1 : Kernel)
    → ep ≢ 0
    → x ≢ 0
    → (queue_at side (k.endpoints ep)).head ≡ x
    → remove_waiting_queue (queue_at side (k.endpoints ep)) x k ≡ ok q k1
    → drain side (suc fuel) ep k
      ≡ and_then
          (push_ready_queue x (after_cancel side ep x (with_queue side q (k.endpoints ep)) k1))
          (λ _. drain side fuel ep)
unfolding cancel_receivers cancel_senders get_task put_task get_endpoint put_endpoint
drain_run Side.receivers fuel ep x q k k1 ne nx h r = ground arith
drain_run Side.senders fuel ep x q k k1 ne nx h r = ground arith

pub drain_done :
    (side : Side) (fuel ep : ℕ) (k : Kernel)
    → ep ≢ 0
    → (queue_at side (k.endpoints ep)).head ≡ 0
    → drain side (suc fuel) ep k ≡ ok tt k
unfolding cancel_receivers cancel_senders get_endpoint
drain_done Side.receivers fuel ep k ne h = ground arith
drain_done Side.senders fuel ep k ne h = ground arith

-- The tasks `xs` wait in the queue `q`, and stand in no ready queue.
pub record AreWaiting (k : Kernel) (q : TaskQueue) (xs : List ℕ) : Type 0 where
  pub queue : IsWaitingQueue k q xs
  pub no_prev : (p : ℕ) → has p xs ≡ true → (k.tasks p).prev_ready_task ≡ 0
  pub no_next : (p : ℕ) → has p xs ≡ true → (k.tasks p).next_ready_task ≡ 0

pub IsWaitingQueue-frame :
    (k k' : Kernel) (q : TaskQueue) (xs : List ℕ)
    → IsWaitingQueue k q xs
    → ((p : ℕ) → has p xs ≡ true → k'.tasks p ≡ k.tasks p)
    → IsWaitingQueue k' q xs
IsWaitingQueue-frame k k' q xs w same = record {
  linked =
      frame (prev_waiting k) (next_waiting k) (prev_waiting k') (next_waiting k') 0 0 xs w.linked
        (λ p h. ap (λ t. t.prev_waiting_task) (same p h))
        (λ p h. ap (λ t. t.next_waiting_task) (same p h));
  distinct = w.distinct;
  head_first = w.head_first;
  tail_last = w.tail_last;
  all_waiting = λ p h. ap (λ t. t.state) (same p h) ∙ w.all_waiting p h;
}

-- The queue and its tasks where these are as they were.
pub AreWaiting-frame :
    (k k' : Kernel) (q : TaskQueue) (xs : List ℕ)
    → AreWaiting k q xs
    → ((p : ℕ) → has p xs ≡ true → k'.tasks p ≡ k.tasks p)
    → AreWaiting k' q xs
AreWaiting-frame k k' q xs w same = record {
  queue = IsWaitingQueue-frame k k' q xs w.queue same;
  no_prev = λ p h. ap (λ t. t.prev_ready_task) (same p h) ∙ w.no_prev p h;
  no_next = λ p h. ap (λ t. t.next_ready_task) (same p h) ∙ w.no_next p h;
}

pub AreWaiting-none : (k k' : Kernel) (q : TaskQueue) → AreWaiting k q [] → AreWaiting k' q []
AreWaiting-none k k' q w = AreWaiting-frame k k' q [] w (λ p h. absurd (ground arith))

pub IsReadyQueue-frame :
    (k k' : Kernel) (ys : List ℕ)
    → IsReadyQueue k ys
    → k'.ready_queue ≡ k.ready_queue
    → ((p : ℕ) → has p ys ≡ true → (k'.tasks p).prev_ready_task ≡ (k.tasks p).prev_ready_task)
    → ((p : ℕ) → has p ys ≡ true → (k'.tasks p).next_ready_task ≡ (k.tasks p).next_ready_task)
    → ((p : ℕ) → has p ys ≡ true → (k'.tasks p).state ≡ (k.tasks p).state)
    → IsReadyQueue k' ys
IsReadyQueue-frame k k' ys v q hp hn hs = record {
  linked =
      frame (prev_ready k) (next_ready k) (prev_ready k') (next_ready k') 0 0 ys v.linked hp hn;
  distinct = v.distinct;
  head_first = ap (λ r. r.head) q ∙ v.head_first;
  tail_last = ap (λ r. r.tail) q ∙ v.tail_last;
  all_ready = λ p h. hs p h ∙ v.all_ready p h;
}

-- A waiting task stands in no ready queue.
pub waiting_not_ready :
    (k : Kernel) (p : ℕ) (ys : List ℕ)
    → (k.tasks p).state ≡ TaskState.waiting
    → IsReadyQueue k ys
    → has p ys ≡ false
waiting_not_ready k p ys w v = elim (Bool-cases (has p ys)) [
  | inl e ↦ absurd (ground (arith, v.all_ready p e))
  | inr e ↦ e
]

abbrev pub other : Side → Side
other Side.receivers = Side.senders
other Side.senders = Side.receivers

pub queue_at-with_queue :
    (side : Side) (q : TaskQueue) (e : Endpoint)
    → (queue_at side (with_queue side q e) ≡ q)
      × (queue_at (other side) (with_queue side q e) ≡ queue_at (other side) e)
queue_at-with_queue Side.receivers q e = (refl, refl)
queue_at-with_queue Side.senders q e = (refl, refl)
