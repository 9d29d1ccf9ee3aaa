-- ===== src/Ipc/KillStops.antt =====
-- Killing a task that takes part in a call, and telling an endpoint of it, can stop the kernel.
use caprese.Common.{
  ℕ, ◌≡◌, ◌≢◌, ◌∙◌, refl, sym, ap, List, [], ◌∷◌, ◌++◌, false, ==-refl, arith, update,
}
use caprese.Chain.{has, ne_of_has}
use caprese.Kernel.{
  Kernel, TaskState, IpcState, stop, ok, Stop, and_then, Ensures, Ensures-bind, get_task, put_task,
  get_endpoint, put_endpoint,
}
use caprese.Task.{push_waiting_queue, resched}
use caprese.Task.Waiting.{IsWaitingQueue, IsUnqueued, unlinked, push_waiting_queue-unlinked}
use caprese.Ipc.Message.{MessageLayout}
use caprese.Ipc.Calls.{Outcome, sending_at, with_long_msg}
use caprese.Ipc.Receive.{ipc_call}
use caprese.Ipc.Release.{IsWaitingQueue-frame}
use caprese.Ipc.Kill.{
  kill_task, leave_kill_notice, leave_endpoint, leave_queues, ipc_send_kill_notify,
}

kill_waiting_caller :
    (layout : MessageLayout) (task exit_status : ℕ) (k : Kernel)
    → task ≢ 0
    → (k.tasks task).state ≡ TaskState.waiting
    → (k.tasks task).ipc_state ≡ IpcState.calling
    → (k.tasks task).endpoint ≢ 0
    → (k.tasks task).callee_task ≡ 0
    → kill_task layout task exit_status k ≡ stop Stop.null_access
unfolding kill_task leave_queues leave_endpoint get_task
kill_waiting_caller layout task exit_status k ne w c e none = ground arith

-- The kernel when the current task waits to call at `ep`.
abbrev with_caller : ℕ → ℕ → Kernel → Kernel
with_caller ep msg k = record k {
  tasks =
      update k.tasks k.current_task
        (sending_at ep IpcState.calling (with_long_msg msg (k.tasks k.current_task)));
}

-- The running task stands in no queue of an endpoint and in no call of its own, and nobody waits to
-- receive.
pub record IsFreeToCall (k : Kernel) (ep : ℕ) : Type 0 where
  pub endpoint_set : ep ≢ 0
  pub task_set : k.current_task ≢ 0
  pub no_receiver : (k.endpoints ep).receiver_queue.head ≡ 0
  pub no_prev : (k.tasks k.current_task).prev_waiting_task ≡ 0
  pub no_next : (k.tasks k.current_task).next_waiting_task ≡ 0
  pub no_callee : (k.tasks k.current_task).callee_task ≡ 0

ipc_call_run :
    (layout : MessageLayout) (fuel ep msg : ℕ) (k : Kernel)
    → IsFreeToCall k ep
    → ipc_call layout fuel ep msg k
      ≡ and_then
          (push_waiting_queue (k.endpoints ep).sender_queue k.current_task (with_caller ep msg k))
          (λ q k'. ok Outcome.sleeps (record k' {
            endpoints = update k'.endpoints ep (record (k.endpoints ep) { sender_queue = q });
            current_task = k'.idle_task;
          }))
unfolding ipc_call get_task put_task get_endpoint put_endpoint resched
ipc_call_run layout fuel ep msg k f = ground (arith, f.endpoint_set, f.task_set, f.no_receiver)

-- What a caller at `ep` keeps in the queue.
module _ (ep msg : ℕ) (k : Kernel) (f : IsFreeToCall k ep) where
  with_caller-IsUnqueued : IsUnqueued (with_caller ep msg k) k.current_task
  unfolding update
  with_caller-IsUnqueued = record {
    not_null = f.task_set;
    is_waiting = rw (==-refl k.current_task) refl;
    no_prev = rw (==-refl k.current_task) f.no_prev;
    no_next = rw (==-refl k.current_task) f.no_next;
  }

  kill_queued_caller :
      (layout : MessageLayout) (exit_status : ℕ) (k' : Kernel)
      → unlinked (k'.tasks k.current_task) ≡ unlinked ((with_caller ep msg k).tasks k.current_task)
      → kill_task layout k.current_task exit_status k' ≡ stop Stop.null_access
  unfolding update
  kill_queued_caller layout exit_status k' e =
      let t = k.current_task in
      let here = sending_at ep IpcState.calling (with_long_msg msg (k.tasks t)) in
      let same : unlinked (k'.tasks t) ≡ unlinked here = e ∙ rw (==-refl t) refl in
      kill_waiting_caller layout t exit_status k' f.task_set (ap (λ x. x.state) same)
        (ap (λ x. x.ipc_state) same) (λ z. f.endpoint_set (sym (ap (λ x. x.endpoint) same) ∙ z))
        (ap (λ x. x.callee_task) same ∙ f.no_callee)

-- When the running task, which stands in no queue of an endpoint and has no callee, calls with
-- `ipc_call` at an endpoint where nobody waits to receive and the queue of senders is well
-- linked, it sleeps as the last in that queue, behind those that waited there; killing it then,
-- before it has been received, stops the kernel with an access through the null pointer.
pub kill_task-ipc_call :
    (layout : MessageLayout) (fuel ep msg exit_status : ℕ) (k : Kernel) (xs : List ℕ)
    → IsFreeToCall k ep
    → IsWaitingQueue k (k.endpoints ep).sender_queue xs
    → has k.current_task xs ≡ false
    → Ensures
        (λ r k'.
          (r ≡ Outcome.sleeps)
          × IsWaitingQueue k' (k'.endpoints ep).sender_queue (xs ++ k.current_task ∷ [])
          × (kill_task layout k.current_task exit_status k' ≡ stop Stop.null_access))
        (ipc_call layout fuel ep msg k)
unfolding update
kill_task-ipc_call layout fuel ep msg exit_status k xs f w out =
    let q = (k.endpoints ep).sender_queue in
    let k₁ = with_caller ep msg k in
    rw (ipc_call_run layout fuel ep msg k f) (
      Ensures-bind _ _ (push_waiting_queue q k.current_task k₁) _
        (push_waiting_queue-unlinked q k.current_task k₁ xs
          (IsWaitingQueue-frame k k₁ q xs w (λ p h. rw (ne_of_has p k.current_task xs h out) refl))
          (with_caller-IsUnqueued ep msg k f) out)
        (λ q' k' r. (
          refl,
          rw (==-refl ep)
              (IsWaitingQueue-frame k' _ q' (xs ++ k.current_task ∷ []) r.0 (λ p h. refl)),
          kill_queued_caller ep msg k f layout exit_status _ (r.1 k.current_task),
        )))

-- Killing a task that is neither unused nor ready nor waiting, and whose death an endpoint is to
-- hear of where nobody waits to receive, stops the kernel at a failed assert.
pub kill_task-unheard :
    (layout : MessageLayout) (task exit_status : ℕ) (k : Kernel)
    → task ≢ 0
    → (k.tasks task).state ≢ TaskState.unused
    → (k.tasks task).state ≢ TaskState.ready
    → (k.tasks task).state ≢ TaskState.waiting
    → (k.tasks task).kill_notify ≢ 0
    → (k.endpoints (k.tasks task).kill_notify).receiver_queue.head ≡ 0
    → kill_task layout task exit_status k ≡ stop Stop.assertion
unfolding kill_task leave_queues ipc_send_kill_notify leave_kill_notice get_task put_task
    get_endpoint push_waiting_queue update
kill_task-unheard layout task exit_status k ne used idle_now free n h = ground arith
