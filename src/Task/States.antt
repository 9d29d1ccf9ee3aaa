-- ===== src/Task/States.antt =====
-- What suspending, resuming and yielding do to the ready queue.
use caprese.Common.{ℕ, ◌≡◌, ◌≢◌, refl, List, [], ◌∷◌, ◌++◌, false, arith, ==-refl, ◌∙◌, update}
use caprese.Chain.{has, frame, Linked-right, has_self, not_has_removed, ne_of_has}
use caprese.Kernel.{
  Kernel, TaskState, and_then, pure, Ensures, Ensures-bind, ok, get_task, put_task,
}
use caprese.Task.Life.{Switch, suspend_task, resume_task}
use caprese.Task.ReadyQueue.{push_ready_queue, remove_ready_queue}
use caprese.Task.Queue.{
  prev_ready, next_ready, IsReadyQueue, IsDetached, push_ready_queue-IsReadyQueue,
  remove_ready_queue-IsReadyQueue,
}

-- The kernel after the state of `t` has been set.
abbrev pub with_state : ℕ → TaskState → Kernel → Kernel
with_state t s k = record k { tasks = update k.tasks t (record (k.tasks t) { state = s }) }

-- A queue does not depend on the state of a task outside it.
pub with_state-IsReadyQueue :
    (t : ℕ) (s : TaskState) (k : Kernel) (xs : List ℕ)
    → IsReadyQueue k xs
    → has t xs ≡ false
    → IsReadyQueue (with_state t s k) xs
unfolding update
with_state-IsReadyQueue t s k xs v out = record {
  linked =
      frame (prev_ready k) (next_ready k) (prev_ready (with_state t s k))
        (next_ready (with_state t s k)) 0 0 xs v.linked (λ p h. ground arith) (λ p h. ground arith);
  distinct = v.distinct;
  head_first = v.head_first;
  tail_last = v.tail_last;
  all_ready = λ p h. rw (ne_of_has p t xs h out) (v.all_ready p h);
}

-- A task that does not run and stands in no queue.
pub record IsParked (k : Kernel) (t : ℕ) : Type 0 where
  pub not_null : t ≢ 0
  pub no_prev : (k.tasks t).prev_ready_task ≡ 0
  pub no_next : (k.tasks t).next_ready_task ≡ 0

pub with_state-IsDetached :
    (t : ℕ) (k : Kernel) → IsParked k t → IsDetached (with_state t TaskState.ready k) t
unfolding update
with_state-IsDetached t k d = record {
  not_null = d.not_null;
  is_ready = ground arith;
  no_prev = ground (arith, d.no_prev);
  no_next = ground (arith, d.no_next);
}

module _ (t : ℕ) (k : Kernel) (ne : t ≢ 0) where
  resume_run :
      (k.tasks t).state ≡ TaskState.suspended
      → resume_task t k
        ≡ and_then (push_ready_queue t (with_state t TaskState.ready k)) (λ _. pure Switch.returned)
  unfolding resume_task get_task put_task
  resume_run s = ground arith

  suspend_run :
      (k.tasks t).state ≡ TaskState.ready
      → suspend_task t k
        ≡ and_then
            (remove_ready_queue t k)
            (λ _ k'. ok Switch.returned (with_state t TaskState.suspended k'))
  unfolding suspend_task get_task put_task
  suspend_run s = ground arith

  pub suspend_wait :
      (k.tasks t).state ≡ TaskState.waiting
      → suspend_task t k ≡ ok Switch.returned (with_state t TaskState.suspended k)
  unfolding suspend_task get_task put_task
  suspend_wait s = ground arith

-- A suspended task in no queue that is resumed becomes ready and goes to the end of the ready
-- queue.
resume_task-IsReadyQueue :
    (t : ℕ) (k : Kernel) (xs : List ℕ)
    → IsReadyQueue k xs
    → IsParked k t
    → has t xs ≡ false
    → (k.tasks t).state ≡ TaskState.suspended
    → Ensures
        (λ r k'.
          (r ≡ Switch.returned)
          × IsReadyQueue k' (xs ++ t ∷ [])
          × ((k'.tasks t).state ≡ TaskState.ready))
        (resume_task t k)
resume_task-IsReadyQueue t k xs v d out s = rw (resume_run t k d.not_null s) (
    Ensures-bind _ _ (push_ready_queue t (with_state t TaskState.ready k)) _
      (push_ready_queue-IsReadyQueue t (with_state t TaskState.ready k) xs
        (with_state-IsReadyQueue t TaskState.ready k xs v out) (with_state-IsDetached t k d) out)
      (λ _ k' q. (refl, q.0, q.1 t ∙ (with_state-IsDetached t k d).is_ready)))

-- A task of the ready queue that is suspended leaves the queue, where the others keep their
-- order, and the core stays with the task that runs.
suspend_task-ready :
    (t : ℕ) (k : Kernel) (xs ys : List ℕ)
    → IsReadyQueue k (xs ++ t ∷ ys)
    → Ensures
        (λ r k'.
          (r ≡ Switch.returned)
          × IsReadyQueue k' (xs ++ ys)
          × ((k'.tasks t).state ≡ TaskState.suspended))
        (suspend_task t k)
unfolding update
suspend_task-ready t k xs ys v =
    rw
      (suspend_run t k (Linked-right (prev_ready k) (next_ready k) 0 0 xs (t ∷ ys) v.linked).0
        (v.all_ready t (has_self t xs ys)))
      (Ensures-bind _ _ (remove_ready_queue t k) _ (remove_ready_queue-IsReadyQueue t k xs ys v)
        (λ _ k' q. (
          refl,
          with_state-IsReadyQueue t TaskState.suspended k' (xs ++ ys) q.0
              (not_has_removed t xs ys v.distinct),
          rw (==-refl t),
        )))
