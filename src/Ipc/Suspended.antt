-- ===== src/Ipc/Suspended.antt =====
-- A task that is suspended while it waits at an endpoint stays in the endpoint's queue.
use caprese.Common.{ℕ, suc, ◌≡◌, ◌≢◌, refl, List, [], ◌∷◌, arith, update, ==-refl}
use caprese.Chain.{Linked, frame, has_self}
use caprese.Kernel.{Kernel, TaskState, Ensures, stop, Stop, get_task, get_endpoint}
use caprese.Task.{Switch, suspend_task, remove_waiting_queue}
use caprese.Task.States.{with_state, suspend_wait}
use caprese.Task.Waiting.{prev_waiting, next_waiting, IsWaitingQueue}
use caprese.Ipc.Cancel.{cancel_receivers, cancel_senders, ipc_cancel}
use caprese.Ipc.Release.{Side, queue_at, other}

-- Emptying a queue whose first task is suspended.
cancel_refused :
    (fuel ep t : ℕ) (side : Side) (k : Kernel)
    → ep ≢ 0
    → t ≢ 0
    → (queue_at side (k.endpoints ep)).head ≡ t
    → (queue_at (other side) (k.endpoints ep)).head ≡ 0
    → (k.tasks t).state ≡ TaskState.suspended
    → ipc_cancel (suc fuel) ep k ≡ stop Stop.assertion
unfolding ipc_cancel cancel_receivers cancel_senders remove_waiting_queue get_task get_endpoint
cancel_refused fuel ep t Side.receivers k ne nt h o s = ground arith
cancel_refused fuel ep t Side.senders k ne nt h o s = ground arith

-- A task that waits as the first in a well-linked queue of an endpoint, with nobody waiting in
-- the other one, and is suspended: `suspend_task` returns and leaves the task where it stands,
-- first in the queue and linked to those behind it; `ipc_cancel` of that endpoint then stops the
-- kernel at a failed assert.
pub suspend_task-ipc_cancel :
    (fuel ep t : ℕ) (side : Side) (k : Kernel) (ys : List ℕ)
    → ep ≢ 0
    → IsWaitingQueue k (queue_at side (k.endpoints ep)) (t ∷ ys)
    → (queue_at (other side) (k.endpoints ep)).head ≡ 0
    → Ensures
        (λ r k'.
          (r ≡ Switch.returned)
          × ((queue_at side (k'.endpoints ep)).head ≡ t)
          × Linked (prev_waiting k') (next_waiting k') 0 (t ∷ ys) 0
          × (ipc_cancel (suc fuel) ep k' ≡ stop Stop.assertion))
        (suspend_task t k)
unfolding update
suspend_task-ipc_cancel fuel ep t side k ys ne w empty =
    let k' = with_state t TaskState.suspended k in
    rw (suspend_wait t k w.linked.0 (w.all_waiting t (has_self t [] ys))) (
      refl,
      w.head_first,
      frame (prev_waiting k) (next_waiting k) (prev_waiting k') (next_waiting k') 0 0 (t ∷ ys)
          w.linked (λ p h. ground arith) (λ p h. ground arith),
      cancel_refused fuel ep t side k' ne w.linked.0 w.head_first empty (rw (==-refl t) refl),
    )
