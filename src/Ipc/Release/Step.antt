-- ===== src/Ipc/Release/Step.antt =====
-- What one round of a loop of `ipc_cancel` does.
use caprese.Common.{ℕ, ◌≡◌, ap, ◌∙◌, ==-refl, true, false, List, [], ◌∷◌, ◌++◌, arith, update, ◌==◌}
use caprese.Chain.{has, ne_of_has}
use caprese.Kernel.{Kernel, IpcState, TaskQueue, Ensures, Ensures-mono}
use caprese.Task.{push_ready_queue}
use caprese.Task.Queue.{IsReadyQueue, IsDetached, IsPush, push_ready_queue-IsPush}
use caprese.Task.Waiting.{
  removed, rest_queue, removed-IsWaitingQueue, removed-IsSameButWaiting, removed_rest,
  removed_other,
}
use caprese.Ipc.Release.Queues.{
  Side, queue_at, with_queue, after_cancel, AreWaiting, AreWaiting-frame, IsReadyQueue-frame,
  waiting_not_ready, other, queue_at-with_queue,
}

-- After the tasks `xs`, which waited, have been set free in the state `k` with the ready tasks `ys`.
pub record IsDrained (side : Side) (ep : ℕ) (k k' : Kernel) (freed xs ys : List ℕ) : Type 0 where
  pub ready : IsReadyQueue k' (ys ++ freed)
  pub waiting : AreWaiting k' (queue_at side (k'.endpoints ep)) xs
  pub other_queue : queue_at (other side) (k'.endpoints ep) ≡ queue_at (other side) (k.endpoints ep)
  pub kept : (p : ℕ) → has p (freed ++ xs) ≡ false → has p ys ≡ false → k'.tasks p ≡ k.tasks p
  pub ipc_kept : (p : ℕ) → has p freed ≡ false → (k'.tasks p).ipc_state ≡ (k.tasks p).ipc_state
  pub ipc_freed : (p : ℕ) → has p freed ≡ true → (k'.tasks p).ipc_state ≡ IpcState.canceled

module _ (side : Side) (ep x : ℕ) (k : Kernel) (xs ys : List ℕ)
    (w : AreWaiting k (queue_at side (k.endpoints ep)) (x ∷ xs)) (v : IsReadyQueue k ys) where
  q : TaskQueue
  q = queue_at side (k.endpoints ep)

  k1 : Kernel
  unfolding q
  k1 = removed q x k

  freed_state : Kernel
  unfolding q k1
  freed_state = after_cancel side ep x (with_queue side (rest_queue q x k) (k.endpoints ep)) k1

  k1_same : (p : ℕ) → (p == x) ≡ false → freed_state.tasks p ≡ k1.tasks p
  unfolding freed_state k1 update
  k1_same p ne = ground arith

  x_not_ready : has x ys ≡ false
  x_not_ready = waiting_not_ready k x ys (w.queue.all_waiting x (ground arith)) v

  xs_not_ready : (p : ℕ) → has p (x ∷ xs) ≡ true → has p ys ≡ false
  xs_not_ready p h = waiting_not_ready k p ys (w.queue.all_waiting p h) v

  freed-IsReadyQueue : IsReadyQueue freed_state ys
  unfolding freed_state k1 q
  freed-IsReadyQueue =
      IsReadyQueue-frame k freed_state ys v (removed_rest q x k).0
        (λ p h.
          ap (λ t. t.prev_ready_task) (k1_same p (ne_of_has p x ys h x_not_ready))
          ∙ (removed-IsSameButWaiting q x k p).prev_ready_kept)
        (λ p h.
          ap (λ t. t.next_ready_task) (k1_same p (ne_of_has p x ys h x_not_ready))
          ∙ (removed-IsSameButWaiting q x k p).next_ready_kept)
        (λ p h.
          ap (λ t. t.state) (k1_same p (ne_of_has p x ys h x_not_ready))
          ∙ (removed-IsSameButWaiting q x k p).state_kept)

  freed-IsDetached : IsDetached freed_state x
  unfolding freed_state k1 q update
  freed-IsDetached = record {
    not_null = w.queue.linked.0;
    is_ready = rw (==-refl x);
    no_prev =
        rw (==-refl x)
          ((removed-IsSameButWaiting q x k x).prev_ready_kept ∙ w.no_prev x (ground arith));
    no_next =
        rw (==-refl x)
          ((removed-IsSameButWaiting q x k x).next_ready_kept ∙ w.no_next x (ground arith));
  }

  freed_canceled : (freed_state.tasks x).ipc_state ≡ IpcState.canceled
  unfolding freed_state update
  freed_canceled = rw (==-refl x)

  freed_queues :
      (queue_at side (freed_state.endpoints ep) ≡ rest_queue q x k)
      × (queue_at (other side) (freed_state.endpoints ep) ≡ queue_at (other side) (k.endpoints ep))
  unfolding freed_state update q
  freed_queues = rw (==-refl ep) (queue_at-with_queue side (rest_queue q x k) (k.endpoints ep))

  k1-AreWaiting : AreWaiting k1 (rest_queue q x k) xs
  unfolding k1 q
  k1-AreWaiting = record {
    queue = removed-IsWaitingQueue q x k [] xs w.queue;
    no_prev =
        λ p h. (removed-IsSameButWaiting q x k p).prev_ready_kept ∙ w.no_prev p (ground arith);
    no_next =
        λ p h. (removed-IsSameButWaiting q x k p).next_ready_kept ∙ w.no_next p (ground arith);
  }

  k1_other : (a : ℕ) → has a (x ∷ xs) ≡ false → k1.tasks a ≡ k.tasks a
  unfolding k1 q
  k1_other a out = removed_other q x k xs w.queue a out

  k1_ipc : (a : ℕ) → (k1.tasks a).ipc_state ≡ (k.tasks a).ipc_state
  unfolding k1 q
  k1_ipc a = (removed-IsSameButWaiting q x k a).ipc_kept

  -- The state after the push of `x`.
  step-IsDrained :
      (k' : Kernel)
      → IsReadyQueue k' (ys ++ x ∷ [])
      → IsPush freed_state k' x ys
      → IsDrained side ep k k' (x ∷ []) xs ys
  step-IsDrained k' r p = record {
    ready = r;
    waiting = rw (ap (λ e. queue_at side (e ep)) p.endpoints_kept ∙ freed_queues.0) (
        AreWaiting-frame k1 k' (rest_queue q x k) xs k1-AreWaiting (λ a h.
          let ne : (a == x) ≡ false = ne_of_has a x xs h w.queue.distinct.0 in
          p.others_kept a ne (xs_not_ready a (ground arith)) ∙ k1_same a ne));
    other_queue = ap (λ e. queue_at (other side) (e ep)) p.endpoints_kept ∙ freed_queues.1;
    kept = λ a out old.
        let ne : (a == x) ≡ false = ground arith in
        p.others_kept a ne old ∙ k1_same a ne ∙ k1_other a out;
    ipc_kept = λ a out.
        let ne : (a == x) ≡ false = ground arith in
        p.ipc_kept a ∙ ap (λ t. t.ipc_state) (k1_same a ne) ∙ k1_ipc a;
    ipc_freed = λ a h. let e : a ≡ x = ground arith in rw e (p.ipc_kept x ∙ freed_canceled);
  }

  pub pushed_freed :
      Ensures
        (λ _ k'. IsDrained side ep k k' (x ∷ []) xs ys)
        (push_ready_queue x (
          after_cancel side ep x
            (with_queue side (rest_queue (queue_at side (k.endpoints ep)) x k) (k.endpoints ep))
            (removed (queue_at side (k.endpoints ep)) x k)))
  unfolding freed_state k1 q
  pushed_freed =
      Ensures-mono _ _ (push_ready_queue x freed_state)
        (push_ready_queue-IsPush x freed_state ys freed-IsReadyQueue freed-IsDetached x_not_ready)
        (λ _ k' r. step-IsDrained k' r.0 r.1)
