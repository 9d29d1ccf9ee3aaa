-- ===== src/Ipc/Waits.antt =====
-- Sending and receiving where nobody waits at the other side of the endpoint.
use caprese.Common.{
  ℕ, ◌≡◌, ◌≢◌, refl, ◌∙◌, ==-refl, Bool, true, false, List, [], ◌∷◌, ◌++◌, arith, update, ◌==◌,
}
use caprese.Chain.{has, ne_of_has}
use caprese.Kernel.{
  Kernel, Task, TaskState, IpcState, IpcMsgState, Error, Cmd, ok, and_then, Ensures, Ensures-bind,
  get_task, put_task, get_endpoint, put_endpoint,
}
use caprese.Task.{resched, push_waiting_queue}
use caprese.Task.Waiting.{IsWaitingQueue, IsUnqueued, push_waiting_queue-IsWaitingQueue}
use caprese.Ipc.Message.{MessageLayout}
use caprese.Ipc.Calls.{
  Outcome, with_long_msg, sending_at, receiving_at, ipc_send_short, ipc_send_long, wait_to_send,
  wait_to_receive,
}
use caprese.Ipc.Receive.{ipc_receive}
use caprese.Ipc.Release.{
  Side, queue_at, with_queue, other, queue_at-with_queue, IsWaitingQueue-frame,
}

-- The calls that wait for somebody at the other side, with their arguments.
pub data PartnerCall : Type 0 where
  send_short : (ℕ → ℕ) → PartnerCall
  send_long : ℕ → PartnerCall
  receive : ℕ → PartnerCall

abbrev pub run_partner : MessageLayout → ℕ → Bool → ℕ → PartnerCall → Cmd Outcome
run_partner layout fuel blocking ep (PartnerCall.send_short arg) =
    ipc_send_short layout fuel blocking ep arg
run_partner layout fuel blocking ep (PartnerCall.send_long msg) =
    ipc_send_long layout fuel blocking ep msg
run_partner layout fuel blocking ep (PartnerCall.receive msg) =
    ipc_receive layout fuel blocking ep msg

-- Where the call waits.
abbrev pub side_of : PartnerCall → Side
side_of (PartnerCall.receive msg) = Side.receivers
side_of _ = Side.senders

abbrev pub ipc_state_of : PartnerCall → IpcState
ipc_state_of (PartnerCall.receive msg) = IpcState.receiving
ipc_state_of _ = IpcState.sending

-- The current task with its message, and when it waits.
abbrev pub with_message : PartnerCall → Task → Task
with_message (PartnerCall.send_short arg) t = record t {
  ipc_msg = arg;
  ipc_msg_state = IpcMsgState.short_size;
}
with_message (PartnerCall.send_long msg) t = with_long_msg msg t
with_message (PartnerCall.receive msg) t = with_long_msg msg t

abbrev when_waiting : PartnerCall → ℕ → Task → Task
when_waiting (PartnerCall.receive msg) ep t = receiving_at ep t
when_waiting _ ep t = sending_at ep IpcState.sending t

-- The current task stands in no queue of an endpoint, has no callee and, if it receives, owes no caller a
-- reply; and nobody waits at the other side.
pub record IsAlone (k : Kernel) (ep : ℕ) (side : Side) : Type 0 where
  pub endpoint_set : ep ≢ 0
  pub task_set : k.current_task ≢ 0
  pub nobody : (queue_at (other side) (k.endpoints ep)).head ≡ 0
  pub no_prev : (k.tasks k.current_task).prev_waiting_task ≡ 0
  pub no_next : (k.tasks k.current_task).next_waiting_task ≡ 0
  pub no_callee : (k.tasks k.current_task).callee_task ≡ 0
  pub no_caller : side ≡ Side.receivers → (k.tasks k.current_task).caller_task ≡ 0

-- The kernel when the current task has written its message, and when it waits.
abbrev pub said : PartnerCall → Kernel → Kernel
said call k = record k {
  tasks = update k.tasks k.current_task (with_message call (k.tasks k.current_task));
}

abbrev waits : PartnerCall → ℕ → Kernel → Kernel
waits call ep k = record k {
  tasks =
      update (said call k).tasks k.current_task
        (when_waiting call ep ((said call k).tasks k.current_task));
}

waits_run :
    (layout : MessageLayout) (fuel ep : ℕ) (call : PartnerCall) (k : Kernel)
    → IsAlone k ep (side_of call)
    → run_partner layout fuel true ep call k
      ≡ and_then
          (push_waiting_queue
            (queue_at (side_of call) (k.endpoints ep))
            k.current_task
            (waits call ep k))
          (λ q k'. ok Outcome.sleeps (record k' {
            endpoints = update k'.endpoints ep (with_queue (side_of call) q (k.endpoints ep));
            current_task = k'.idle_task;
          }))
unfolding ipc_send_short ipc_send_long ipc_receive wait_to_send wait_to_receive get_task put_task
    get_endpoint put_endpoint resched
waits_run layout fuel ep (PartnerCall.send_short arg) k a =
    ground (arith, a.endpoint_set, a.task_set, a.nobody, a.no_prev, a.no_next, a.no_callee)
waits_run layout fuel ep (PartnerCall.send_long msg) k a =
    ground (arith, a.endpoint_set, a.task_set, a.nobody, a.no_prev, a.no_next, a.no_callee)
waits_run layout fuel ep (PartnerCall.receive msg) k a = ground (
  arith,
  a.endpoint_set,
  a.task_set,
  a.nobody,
  a.no_prev,
  a.no_next,
  a.no_callee,
  a.no_caller refl,
)

-- When the current task, which stands in no queue of an endpoint and has no callee and, if it
-- receives, owes no caller a reply, makes a send or receive that does not block, with nobody
-- waiting at the other side of the endpoint, the call returns false with errno saying so, and
-- nothing else changes but the message of the task.
pub partner_call-blocked :
    (layout : MessageLayout) (fuel ep : ℕ) (call : PartnerCall) (k : Kernel)
    → IsAlone k ep (side_of call)
    → run_partner layout fuel false ep call k
      ≡ ok (Outcome.returns false) (record (said call k) { errno = Error.blocked })
unfolding ipc_send_short ipc_send_long ipc_receive get_task put_task get_endpoint
partner_call-blocked layout fuel ep (PartnerCall.send_short arg) k a =
    ground (arith, a.endpoint_set, a.task_set, a.nobody, a.no_prev, a.no_next, a.no_callee)
partner_call-blocked layout fuel ep (PartnerCall.send_long msg) k a =
    ground (arith, a.endpoint_set, a.task_set, a.nobody, a.no_prev, a.no_next, a.no_callee)
partner_call-blocked layout fuel ep (PartnerCall.receive msg) k a = ground (
  arith,
  a.endpoint_set,
  a.task_set,
  a.nobody,
  a.no_prev,
  a.no_next,
  a.no_callee,
  a.no_caller refl,
)

module _ (call : PartnerCall) (ep : ℕ) (k : Kernel) (a : IsAlone k ep (side_of call)) where
  waits_other : (p : ℕ) → (p == k.current_task) ≡ false → (waits call ep k).tasks p ≡ k.tasks p
  unfolding update
  waits_other p ne = ground arith

  when_waiting_links :
      (c : PartnerCall) (t : Task)
      → ((when_waiting c ep (with_message c t)).state ≡ TaskState.waiting)
        × ((when_waiting c ep (with_message c t)).prev_waiting_task ≡ t.prev_waiting_task)
        × ((when_waiting c ep (with_message c t)).next_waiting_task ≡ t.next_waiting_task)
  when_waiting_links (PartnerCall.send_short arg) t = (refl, refl, refl)
  when_waiting_links (PartnerCall.send_long msg) t = (refl, refl, refl)
  when_waiting_links (PartnerCall.receive msg) t = (refl, refl, refl)

  waits-IsUnqueued : IsUnqueued (waits call ep k) k.current_task
  unfolding update
  waits-IsUnqueued =
      let links = when_waiting_links call (k.tasks k.current_task) in
      record {
        not_null = a.task_set;
        is_waiting = rw (==-refl k.current_task) links.0;
        no_prev = rw (==-refl k.current_task) (links.1 ∙ a.no_prev);
        no_next = rw (==-refl k.current_task) (links.2 ∙ a.no_next);
      }

-- When the current task, which stands in no queue of an endpoint and has no callee and, if it
-- receives, owes no caller a reply, makes a blocking send or receive, with nobody waiting at the
-- other side of the endpoint and its own side's queue well linked, it sleeps: the core goes on
-- in the idle task, the task is the last in its queue of the endpoint, behind all that waited
-- there in their order, and the other queue is as it was.
pub partner_call-waits :
    (layout : MessageLayout) (fuel ep : ℕ) (call : PartnerCall) (k : Kernel) (xs : List ℕ)
    → IsAlone k ep (side_of call)
    → IsWaitingQueue k (queue_at (side_of call) (k.endpoints ep)) xs
    → has k.current_task xs ≡ false
    → Ensures
        (λ r k'.
          (r ≡ Outcome.sleeps)
          × (k'.current_task ≡ k'.idle_task)
          × IsWaitingQueue k'
              (queue_at (side_of call) (k'.endpoints ep))
              (xs ++ k.current_task ∷ [])
          × (queue_at (other (side_of call)) (k'.endpoints ep)
              ≡ queue_at (other (side_of call)) (k.endpoints ep)))
        (run_partner layout fuel true ep call k)
unfolding update
partner_call-waits layout fuel ep call k xs a w out =
    let side = side_of call in
    let e = k.endpoints ep in
    rw (waits_run layout fuel ep call k a) (
      Ensures-bind _ _ (push_waiting_queue (queue_at side e) k.current_task (waits call ep k)) _
        (push_waiting_queue-IsWaitingQueue (queue_at side e) k.current_task (waits call ep k) xs
          (IsWaitingQueue-frame k (waits call ep k) (queue_at side e) xs w
            (λ p h. waits_other call ep k a p (ne_of_has p k.current_task xs h out)))
          (waits-IsUnqueued call ep k a) out)
        (λ q k' r. (
          refl,
          refl,
          rw (==-refl ep, (queue_at-with_queue side q e).0)
              (IsWaitingQueue-frame k' _ q (xs ++ k.current_task ∷ []) r.0 (λ p h. refl)),
          rw (==-refl ep) (queue_at-with_queue side q e).1,
        )))
