-- ===== src/Task/Waiting/Remove.antt =====
-- Taking a task out of the queue of an endpoint.
use caprese.Common.{
  ℕ, ◌≡◌, ◌≢◌, ◌∙◌, ==-refl, true, false, Bool, List, [], ◌∷◌, ◌++◌, arith, ◌==◌, Bool-cases, inl,
  inr, refl, if◌then◌else◌, ==-false,
}
use caprese.Chain.{
  first, last, has, Linked, unlink-Linked, Linked-ne_null, Linked-right, first-eq_iff, last-eq_iff,
  Distinct-remove, has-remove, ne_removed, null_end, first-remove, last-remove, last-ne_self,
  has_self,
}
use caprese.Kernel.{Kernel, Task, TaskState, TaskQueue, ok, get_task, Ensures}
use caprese.Task.Queue.Fields.{
  prev-with_next_waiting, next-with_next_waiting, prev-with_prev_waiting, next-with_prev_waiting,
  state-with_next_waiting, state-with_prev_waiting, other-with_next_waiting,
  other-with_prev_waiting, ipc_state-with_next_waiting, ipc_state-with_prev_waiting,
  prev_ready-with_next_waiting, prev_ready-with_prev_waiting, next_ready-with_next_waiting,
  next_ready-with_prev_waiting,
}
use caprese.Task.Waiting.Defs.{prev_waiting, next_waiting, IsWaitingQueue, IsUnqueued}
use caprese.Task.ReadyQueue.{with_next_waiting, with_prev_waiting, remove_waiting_queue}

ruleset link_fields = (
  prev-with_next_waiting, next-with_next_waiting, prev-with_prev_waiting, next-with_prev_waiting,
  state-with_next_waiting, state-with_prev_waiting,
)

-- The tasks after `t`, between `p` and `n`, has been taken out; `at_head` and `at_tail` say whether
-- it stood at an end.
relinked : Bool → Bool → ℕ → ℕ → ℕ → (ℕ → Task) → ℕ → Task
relinked at_head at_tail t p n ts =
    let us = if at_head then ts else with_next_waiting p n ts in
    with_next_waiting t 0 (with_prev_waiting t 0 (if at_tail then us else with_prev_waiting n p us))

module _ (t p n : ℕ) (ts : ℕ → Task) (a : ℕ) where
  state-relinked : (b c : Bool) → (relinked b c t p n ts a).state ≡ (ts a).state
  unfolding relinked
  state-relinked true true = simp link_fields
  state-relinked true false = simp link_fields
  state-relinked false true = simp link_fields
  state-relinked false false = simp link_fields

  prev-relinked :
      (b c : Bool)
      → (relinked b c t p n ts a).prev_waiting_task ≡ (
          if a == t
          then 0
          else if c
          then (ts a).prev_waiting_task
          else if a == n
          then p
          else (ts a).prev_waiting_task)
  unfolding relinked
  prev-relinked true true = simp link_fields
  prev-relinked true false = simp link_fields
  prev-relinked false true = simp link_fields
  prev-relinked false false = simp link_fields

  next-relinked :
      (b c : Bool)
      → (relinked b c t p n ts a).next_waiting_task ≡ (
          if a == t
          then 0
          else if b
          then (ts a).next_waiting_task
          else if a == p
          then n
          else (ts a).next_waiting_task)
  unfolding relinked
  next-relinked true true = simp link_fields
  next-relinked true false = simp link_fields
  next-relinked false true = simp link_fields
  next-relinked false false = simp link_fields

ruleset kept_fields = (
  state-with_next_waiting, state-with_prev_waiting, ipc_state-with_next_waiting,
  ipc_state-with_prev_waiting, prev_ready-with_next_waiting, prev_ready-with_prev_waiting,
  next_ready-with_next_waiting, next_ready-with_prev_waiting,
)

-- What relinking leaves of a task.
pub record IsSameButWaiting (s t : Task) : Type 0 where
  pub state_kept : s.state ≡ t.state
  pub ipc_kept : s.ipc_state ≡ t.ipc_state
  pub prev_ready_kept : s.prev_ready_task ≡ t.prev_ready_task
  pub next_ready_kept : s.next_ready_task ≡ t.next_ready_task

relinked-IsSameButWaiting :
    (t p n : ℕ) (ts : ℕ → Task) (a : ℕ) (b c : Bool)
    → IsSameButWaiting (relinked b c t p n ts a) (ts a)
unfolding relinked
relinked-IsSameButWaiting t p n ts a b c = elim (Bool-cases b) [
  | inl e ↦ elim (Bool-cases c) [
    | inl f ↦
        rw (e, f)
          record {
            state_kept = simp kept_fields;
            ipc_kept = simp kept_fields;
            prev_ready_kept = simp kept_fields;
            next_ready_kept = simp kept_fields;
          }
    | inr f ↦
        rw (e, f)
          record {
            state_kept = simp kept_fields;
            ipc_kept = simp kept_fields;
            prev_ready_kept = simp kept_fields;
            next_ready_kept = simp kept_fields;
          }
  ]
  | inr e ↦ elim (Bool-cases c) [
    | inl f ↦
        rw (e, f)
          record {
            state_kept = simp kept_fields;
            ipc_kept = simp kept_fields;
            prev_ready_kept = simp kept_fields;
            next_ready_kept = simp kept_fields;
          }
    | inr f ↦
        rw (e, f)
          record {
            state_kept = simp kept_fields;
            ipc_kept = simp kept_fields;
            prev_ready_kept = simp kept_fields;
            next_ready_kept = simp kept_fields;
          }
  ]
]

-- Without a predecessor, only the task and its successor are written.
relinked_other :
    (t p n : ℕ) (ts : ℕ → Task) (a : ℕ) (c : Bool)
    → (a == t) ≡ false
    → (c ≡ false → (a == n) ≡ false)
    → relinked true c t p n ts a ≡ ts a
unfolding relinked
relinked_other t p n ts a c ne far = elim (Bool-cases c) [
  | inl e ↦ rw e (
      other-with_next_waiting t 0 (with_prev_waiting t 0 ts) a ne
      ∙ other-with_prev_waiting t 0 ts a ne)
  | inr e ↦ rw e (
      other-with_next_waiting t 0 (with_prev_waiting t 0 (with_prev_waiting n p ts)) a ne
      ∙ other-with_prev_waiting t 0 (with_prev_waiting n p ts) a ne
      ∙ other-with_prev_waiting n p ts a (far e))
]

pub removed : TaskQueue → ℕ → Kernel → Kernel
unfolding relinked
removed q t k =
    let p = (k.tasks t).prev_waiting_task in
    let n = (k.tasks t).next_waiting_task in
    record k { tasks = relinked (q.head == t) (q.tail == t) t p n k.tasks }

abbrev pub rest_queue : TaskQueue → ℕ → Kernel → TaskQueue
rest_queue q t k = record {
  head = if q.head == t then (k.tasks t).next_waiting_task else q.head;
  tail = if q.tail == t then (k.tasks t).prev_waiting_task else q.tail;
}

remove_waiting_queue_ok :
    (q : TaskQueue) (t : ℕ) (k : Kernel)
    → t ≢ 0
    → (k.tasks t).state ≡ TaskState.waiting
    → (q.head ≢ t → (prev_waiting k t ≢ 0) × (prev_waiting k t ≢ t))
    → (q.tail ≢ t → next_waiting k t ≢ 0)
    → remove_waiting_queue q t k ≡ ok (rest_queue q t k) (removed q t k)
unfolding remove_waiting_queue removed get_task
remove_waiting_queue_ok q t k ne rdy hp hn =
    let p = (k.tasks t).prev_waiting_task in
    let n = (k.tasks t).next_waiting_task in
    ground (arith, prev-with_next_waiting p n k.tasks t, next-with_next_waiting p n k.tasks t)

removed_state :
    (q : TaskQueue) (t : ℕ) (k : Kernel) (p : ℕ)
    → ((removed q t k).tasks p).state ≡ (k.tasks p).state
unfolding removed
removed_state q t k p = state-relinked t _ _ k.tasks p _ _

-- A queue `xs ++ t ∷ ys` seen from `t`.
module _ (q : TaskQueue) (t : ℕ) (k : Kernel) (xs ys : List ℕ)
    (v : IsWaitingQueue k q (xs ++ t ∷ ys)) where
  t_links :
      (t ≢ 0)
      × (prev_waiting k t ≡ last 0 xs)
      × (next_waiting k t ≡ first ys 0)
      × Linked (prev_waiting k) (next_waiting k) t ys 0
  t_links = Linked-right (prev_waiting k) (next_waiting k) 0 0 xs (t ∷ ys) v.linked

  at_head : (q.head == t) ≡ (last 0 xs == 0)
  at_head =
      rw v.head_first (first-eq_iff (prev_waiting k) (next_waiting k) t xs ys v.linked v.distinct)

  at_tail : (q.tail == t) ≡ (first ys 0 == 0)
  at_tail =
      rw v.tail_last (last-eq_iff (prev_waiting k) (next_waiting k) t xs ys v.linked v.distinct)

  not_null : (p : ℕ) → has p (xs ++ ys) ≡ true → (p == 0) ≡ false
  not_null p h = ==-false p 0 (
      Linked-ne_null (prev_waiting k) (next_waiting k) p 0 0 (xs ++ t ∷ ys) v.linked
        (has-remove p t xs ys h))

  prev_rest :
      (p : ℕ)
      → has p (xs ++ ys) ≡ true
      → prev_waiting (removed q t k) p
        ≡ (if p == next_waiting k t then prev_waiting k t else prev_waiting k p)
  unfolding removed
  prev_rest p h =
      prev-relinked t (prev_waiting k t) (next_waiting k t) k.tasks p (q.head == t) (q.tail == t)
      ∙ rw (ne_removed p t xs ys v.distinct h, at_tail, ← t_links.2)
          (null_end p (next_waiting k t) _ _ (not_null p h))

  next_rest :
      (p : ℕ)
      → has p (xs ++ ys) ≡ true
      → next_waiting (removed q t k) p
        ≡ (if p == prev_waiting k t then next_waiting k t else next_waiting k p)
  unfolding removed
  next_rest p h =
      next-relinked t (prev_waiting k t) (next_waiting k t) k.tasks p (q.head == t) (q.tail == t)
      ∙ rw (ne_removed p t xs ys v.distinct h, at_head, ← t_links.1)
          (null_end p (prev_waiting k t) _ _ (not_null p h))

  pub removed-IsWaitingQueue : IsWaitingQueue (removed q t k) (rest_queue q t k) (xs ++ ys)
  unfolding removed
  removed-IsWaitingQueue = record {
    linked =
        unlink-Linked (prev_waiting k) (next_waiting k) (prev_waiting (removed q t k))
          (next_waiting (removed q t k)) t xs ys v.linked v.distinct prev_rest next_rest;
    distinct = Distinct-remove t xs ys v.distinct;
    head_first = rw at_head (
        first-remove (prev_waiting k) (next_waiting k) t _ _ xs ys v.linked t_links.2 v.head_first);
    tail_last =
        rw at_tail (
          last-remove (prev_waiting k) (next_waiting k) t _ _ xs ys v.linked t_links.1 v.tail_last);
    all_waiting =
        λ p h. state-relinked t _ _ k.tasks p _ _ ∙ v.all_waiting p (has-remove p t xs ys h);
  }

  pub remove_ok : remove_waiting_queue q t k ≡ ok (rest_queue q t k) (removed q t k)
  remove_ok =
      let self = last-ne_self (prev_waiting k) (next_waiting k) t xs ys v.linked v.distinct in
      remove_waiting_queue_ok q t k t_links.0 (v.all_waiting t (has_self t xs ys))
        (λ h. (λ e. ground (arith, at_head, t_links.1), λ e. ground (arith, self, t_links.1)))
        (λ h e. ground (arith, at_tail, t_links.2))

  pub removed-IsUnqueued : IsUnqueued (removed q t k) t
  unfolding removed
  removed-IsUnqueued = record {
    not_null = t_links.0;
    is_waiting = state-relinked t _ _ k.tasks t _ _ ∙ v.all_waiting t (has_self t xs ys);
    no_prev = prev-relinked t _ _ k.tasks t _ _ ∙ rw (==-refl t);
    no_next = next-relinked t _ _ k.tasks t _ _ ∙ rw (==-refl t);
  }

-- `remove_waiting_queue` of a task anywhere in a well-linked queue of waiting tasks leaves the
-- queue well linked, with the others in their order, and the task linked to nothing.
pub remove_waiting_queue-IsWaitingQueue :
    (q : TaskQueue) (t : ℕ) (k : Kernel) (xs ys : List ℕ)
    → IsWaitingQueue k q (xs ++ t ∷ ys)
    → Ensures
        (λ q' k'. IsWaitingQueue k' q' (xs ++ ys) × IsUnqueued k' t)
        (remove_waiting_queue q t k)
remove_waiting_queue-IsWaitingQueue q t k xs ys v =
    rw (remove_ok q t k xs ys v)
      (removed-IsWaitingQueue q t k xs ys v, removed-IsUnqueued q t k xs ys v)

pub removed-IsSameButWaiting :
    (q : TaskQueue) (t : ℕ) (k : Kernel) (p : ℕ)
    → IsSameButWaiting ((removed q t k).tasks p) (k.tasks p)
unfolding removed
removed-IsSameButWaiting q t k p = relinked-IsSameButWaiting t _ _ k.tasks p _ _

-- The queues of the others, and the endpoints, are as they were.
pub removed_rest :
    (q : TaskQueue) (t : ℕ) (k : Kernel)
    → ((removed q t k).ready_queue ≡ k.ready_queue) × ((removed q t k).endpoints ≡ k.endpoints)
unfolding removed
removed_rest q t k = (refl, refl)

-- Taking out the first task leaves the tasks outside the queue as they were.
pub removed_other :
    (q : TaskQueue) (t : ℕ) (k : Kernel) (ys : List ℕ)
    → IsWaitingQueue k q (t ∷ ys)
    → (p : ℕ) → has p (t ∷ ys) ≡ false
    → (removed q t k).tasks p ≡ k.tasks p
unfolding removed
removed_other q t k ys v p out =
    rw (at_head q t k [] ys v, at_tail q t k [] ys v)
      (relinked_other t _ _ k.tasks p _ (ground arith) (λ last_one. far ys v out last_one))
  where
    far :
        (zs : List ℕ)
        → IsWaitingQueue k q (t ∷ zs)
        → has p (t ∷ zs) ≡ false
        → (first zs 0 == 0) ≡ false
        → (p == (k.tasks t).next_waiting_task) ≡ false
    far [] w o e = absurd (ground arith)
    far (z ∷ zs) w o e = rw w.linked.2 (ground arith)
