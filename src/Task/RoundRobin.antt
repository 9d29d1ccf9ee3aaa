-- ===== src/Task/RoundRobin.antt =====
-- Yielding, and the choice of the next task by the idle task.
use caprese.Common.{
  ℕ, ◌≡◌, ◌≢◌, refl, List, [], ◌∷◌, ◌++◌, false, arith, ==-false, ==-refl, sym, ◌∙◌, update, subst,
}
use caprese.Chain.{has}
use caprese.Kernel.{
  Kernel, TaskState, Ensures, Ensures-bind, ok, and_then, pure, get_task, put_task, ◌>>◌,
}
use caprese.Task.Life.{Switch, yield, idle_round, resched, set_state, set_current}
use caprese.Task.ReadyQueue.{push_ready_queue, pop_ready_task}
use caprese.Task.Queue.{IsReadyQueue, IsDetached, push_ready_queue-IsReadyQueue, pop_ready_task_lem}
use caprese.Task.States.{IsParked, with_state, with_state-IsReadyQueue, with_state-IsDetached}

-- The kernel with another current task.
abbrev with_current : ℕ → Kernel → Kernel
with_current t k = record k { current_task = t }

yield_run :
    (k : Kernel)
    → k.current_task ≢ 0
    → yield k
      ≡ and_then
          (push_ready_queue k.current_task (with_state k.current_task TaskState.ready k))
          (λ _ k'. ok Switch.switched (with_current k'.idle_task k'))
unfolding yield resched get_task put_task
yield_run k ne = ground arith

with_current-IsReadyQueue :
    (t : ℕ) (k : Kernel) (xs : List ℕ) → IsReadyQueue k xs → IsReadyQueue (with_current t k) xs
with_current-IsReadyQueue t k xs v = record {
  linked = v.linked;
  distinct = v.distinct;
  head_first = v.head_first;
  tail_last = v.tail_last;
  all_ready = v.all_ready;
}

-- What `idle_round` does with the task that it has popped.
idle_rest :
    (a : ℕ) (k : Kernel)
    → a ≢ 0
    → (do set_current a; set_state a TaskState.running; pure Switch.switched) k
      ≡ ok Switch.switched (with_state a TaskState.running (with_current a k))
unfolding get_task put_task
idle_rest a k ne = ground arith

-- The task that has the core stands in no queue; `xs` are those that wait for it.
pub record IsScheduled (k : Kernel) (t : ℕ) (xs : List ℕ) : Type 0 where
  pub current : k.current_task ≡ t
  pub queue : IsReadyQueue k xs
  pub parked : IsParked k t
  pub apart : has t xs ≡ false

with_state-IsParked :
    (a : ℕ) (k : Kernel)
    → IsDetached k a
    → IsParked (with_state a TaskState.running (with_current a k)) a
unfolding update
with_state-IsParked a k d = record {
  not_null = d.not_null;
  no_prev = ground (arith, d.no_prev);
  no_next = ground (arith, d.no_next);
}

-- A round of the idle task switches to the first task of the ready queue, which runs.
pub idle_round-IsScheduled :
    (k : Kernel) (t : ℕ) (xs : List ℕ)
    → IsReadyQueue k (t ∷ xs)
    → Ensures
        (λ r k'.
          (r ≡ Switch.switched) × ((k'.tasks t).state ≡ TaskState.running) × IsScheduled k' t xs)
        (idle_round k)
unfolding idle_round update
idle_round-IsScheduled k t xs v =
    Ensures-bind _ _ (pop_ready_task k) _ (pop_ready_task_lem k (t ∷ xs) v) λ a k' q.
      let ne : a ≢ 0 = λ e. v.linked.0 (sym q.0 ∙ e) in
      rw (==-false a 0 ne, idle_rest a k' ne)
        (
          refl,
          rw (q.0, ==-refl t),
          record {
            current = q.0;
            queue =
                with_state-IsReadyQueue a TaskState.running (with_current a k') xs
                  (with_current-IsReadyQueue a k' xs q.1) (rw q.0 v.distinct.0);
            parked =
                subst (λ b. IsParked (with_state a TaskState.running (with_current a k')) b) q.0
                  (with_state-IsParked a k' (q.4 λ e. cc));
            apart = v.distinct.0;
          },
        )

-- When the current task, which stands in no queue, yields, it becomes ready behind all the
-- others in the ready queue, and the core goes on in the idle task.
pub yield-IsReadyQueue :
    (k : Kernel) (xs : List ℕ)
    → IsReadyQueue k xs
    → IsParked k k.current_task
    → has k.current_task xs ≡ false
    → Ensures
        (λ r k'.
          (r ≡ Switch.switched)
          × (k'.current_task ≡ k'.idle_task)
          × IsReadyQueue k' (xs ++ k.current_task ∷ []))
        (yield k)
yield-IsReadyQueue k xs v d out =
    let t = k.current_task in
    rw (yield_run k d.not_null) (
      Ensures-bind _ _ (push_ready_queue t (with_state t TaskState.ready k)) _
        (push_ready_queue-IsReadyQueue t (with_state t TaskState.ready k) xs
          (with_state-IsReadyQueue t TaskState.ready k xs v out) (with_state-IsDetached t k d) out)
        (λ _ k' q. (refl, refl, with_current-IsReadyQueue _ k' _ q.0)))
