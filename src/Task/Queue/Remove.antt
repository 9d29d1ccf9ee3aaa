-- ===== src/Task/Queue/Remove.antt =====
-- Taking a task out of the ready queue.
use caprese.Common.{
  ℕ, ◌≡◌, ◌≢◌, subst, refl, sym, ◌∙◌, ==-refl, true, false, Bool, List, [], ◌∷◌, ◌++◌, arith, ◌==◌,
  if◌then◌else◌, ==-false,
}
use caprese.Chain.{
  first, last, has, Linked, unlink-Linked, Linked-ne_null, Linked-right, first-eq_iff, last-eq_iff,
  Distinct-remove, has-remove, ne_removed, null_end, first-remove, last-remove, last-ne_self,
  has_self,
}
use caprese.Kernel.{Kernel, Task, TaskState, ok, get_task, Ensures}
use caprese.Task.Queue.Fields.{
  prev-with_next_ready, next-with_next_ready, prev-with_prev_ready, next-with_prev_ready,
  state-with_next_ready, state-with_prev_ready,
}
use caprese.Task.Queue.Defs.{prev_ready, next_ready, IsReadyQueue, IsDetached}
use caprese.Task.ReadyQueue.{with_next_ready, with_prev_ready, remove_ready_queue, pop_ready_task}

ruleset link_fields = (
  prev-with_next_ready, next-with_next_ready, prev-with_prev_ready, next-with_prev_ready,
  state-with_next_ready, state-with_prev_ready,
)

-- The tasks after `t`, between `p` and `n`, has been taken out; `at_head` and `at_tail` say whether
-- it stood at an end.
relinked : Bool → Bool → ℕ → ℕ → ℕ → (ℕ → Task) → ℕ → Task
relinked at_head at_tail t p n ts =
    let us = if at_head then ts else with_next_ready p n ts in
    with_next_ready t 0 (with_prev_ready t 0 (if at_tail then us else with_prev_ready n p us))

module _ (t p n : ℕ) (ts : ℕ → Task) (a : ℕ) where
  state-relinked : (b c : Bool) → (relinked b c t p n ts a).state ≡ (ts a).state
  unfolding relinked
  state-relinked true true = simp link_fields
  state-relinked true false = simp link_fields
  state-relinked false true = simp link_fields
  state-relinked false false = simp link_fields

  prev-relinked :
      (b c : Bool)
      → (relinked b c t p n ts a).prev_ready_task ≡ (
          if a == t
          then 0
          else if c
          then (ts a).prev_ready_task
          else if a == n
          then p
          else (ts a).prev_ready_task)
  unfolding relinked
  prev-relinked true true = simp link_fields
  prev-relinked true false = simp link_fields
  prev-relinked false true = simp link_fields
  prev-relinked false false = simp link_fields

  next-relinked :
      (b c : Bool)
      → (relinked b c t p n ts a).next_ready_task ≡ (
          if a == t
          then 0
          else if b
          then (ts a).next_ready_task
          else if a == p
          then n
          else (ts a).next_ready_task)
  unfolding relinked
  next-relinked true true = simp link_fields
  next-relinked true false = simp link_fields
  next-relinked false true = simp link_fields
  next-relinked false false = simp link_fields

removed : ℕ → Kernel → Kernel
unfolding relinked
removed t k =
    let q = k.ready_queue in
    let p = (k.tasks t).prev_ready_task in
    let n = (k.tasks t).next_ready_task in
    record k {
      tasks = relinked (q.head == t) (q.tail == t) t p n k.tasks;
      ready_queue = record {
        head = if q.head == t then n else q.head;
        tail = if q.tail == t then p else q.tail;
      };
    }

remove_ready_queue_ok :
    (t : ℕ) (k : Kernel)
    → t ≢ 0
    → (k.tasks t).state ≡ TaskState.ready
    → (k.ready_queue.head ≢ t → (prev_ready k t ≢ 0) × (prev_ready k t ≢ t))
    → (k.ready_queue.tail ≢ t → next_ready k t ≢ 0)
    → remove_ready_queue t k ≡ ok tt (removed t k)
unfolding remove_ready_queue removed get_task
remove_ready_queue_ok t k ne rdy hp hn =
    let p = (k.tasks t).prev_ready_task in
    let n = (k.tasks t).next_ready_task in
    ground (arith, prev-with_next_ready p n k.tasks t, next-with_next_ready p n k.tasks t)

removed_state : (t : ℕ) (k : Kernel) (p : ℕ) → ((removed t k).tasks p).state ≡ (k.tasks p).state
unfolding removed
removed_state t k p = state-relinked t _ _ k.tasks p _ _

abbrev pub drop_first : List ℕ → List ℕ
drop_first [] = []
drop_first (x ∷ xs) = xs

-- A queue `xs ++ t ∷ ys` seen from `t`.
module _ (t : ℕ) (k : Kernel) (xs ys : List ℕ) (v : IsReadyQueue k (xs ++ t ∷ ys)) where
  t_links :
      (t ≢ 0)
      × (prev_ready k t ≡ last 0 xs)
      × (next_ready k t ≡ first ys 0)
      × Linked (prev_ready k) (next_ready k) t ys 0
  t_links = Linked-right (prev_ready k) (next_ready k) 0 0 xs (t ∷ ys) v.linked

  at_head : (k.ready_queue.head == t) ≡ (last 0 xs == 0)
  at_head = rw v.head_first (first-eq_iff (prev_ready k) (next_ready k) t xs ys v.linked v.distinct)

  at_tail : (k.ready_queue.tail == t) ≡ (first ys 0 == 0)
  at_tail = rw v.tail_last (last-eq_iff (prev_ready k) (next_ready k) t xs ys v.linked v.distinct)

  not_null : (p : ℕ) → has p (xs ++ ys) ≡ true → (p == 0) ≡ false
  not_null p h = ==-false p 0 (
      Linked-ne_null (prev_ready k) (next_ready k) p 0 0 (xs ++ t ∷ ys) v.linked
        (has-remove p t xs ys h))

  prev_rest :
      (p : ℕ)
      → has p (xs ++ ys) ≡ true
      → prev_ready (removed t k) p
        ≡ (if p == next_ready k t then prev_ready k t else prev_ready k p)
  unfolding removed
  prev_rest p h =
      prev-relinked t (prev_ready k t) (next_ready k t) k.tasks p (k.ready_queue.head == t)
        (k.ready_queue.tail == t)
      ∙ rw (ne_removed p t xs ys v.distinct h, at_tail, ← t_links.2)
          (null_end p (next_ready k t) _ _ (not_null p h))

  next_rest :
      (p : ℕ)
      → has p (xs ++ ys) ≡ true
      → next_ready (removed t k) p
        ≡ (if p == prev_ready k t then next_ready k t else next_ready k p)
  unfolding removed
  next_rest p h =
      next-relinked t (prev_ready k t) (next_ready k t) k.tasks p (k.ready_queue.head == t)
        (k.ready_queue.tail == t)
      ∙ rw (ne_removed p t xs ys v.distinct h, at_head, ← t_links.1)
          (null_end p (prev_ready k t) _ _ (not_null p h))

  removed-IsReadyQueue : IsReadyQueue (removed t k) (xs ++ ys)
  unfolding removed
  removed-IsReadyQueue = record {
    linked =
        unlink-Linked (prev_ready k) (next_ready k) (prev_ready (removed t k))
          (next_ready (removed t k)) t xs ys v.linked v.distinct prev_rest next_rest;
    distinct = Distinct-remove t xs ys v.distinct;
    head_first =
        rw at_head
          (first-remove (prev_ready k) (next_ready k) t _ _ xs ys v.linked t_links.2 v.head_first);
    tail_last =
        rw at_tail
          (last-remove (prev_ready k) (next_ready k) t _ _ xs ys v.linked t_links.1 v.tail_last);
    all_ready = λ p h. state-relinked t _ _ k.tasks p _ _ ∙ v.all_ready p (has-remove p t xs ys h);
  }

  remove_ok : remove_ready_queue t k ≡ ok tt (removed t k)
  remove_ok =
      let self = last-ne_self (prev_ready k) (next_ready k) t xs ys v.linked v.distinct in
      remove_ready_queue_ok t k t_links.0 (v.all_ready t (has_self t xs ys))
        (λ h. (λ e. ground (arith, at_head, t_links.1), λ e. ground (arith, self, t_links.1)))
        (λ h e. ground (arith, at_tail, t_links.2))

  removed-IsDetached : IsDetached (removed t k) t
  unfolding removed
  removed-IsDetached = record {
    not_null = t_links.0;
    is_ready = state-relinked t _ _ k.tasks t _ _ ∙ v.all_ready t (has_self t xs ys);
    no_prev = prev-relinked t _ _ k.tasks t _ _ ∙ rw (==-refl t);
    no_next = next-relinked t _ _ k.tasks t _ _ ∙ rw (==-refl t);
  }

-- `remove_ready_queue` of a task anywhere in a well-linked ready queue leaves the queue well
-- linked, with the others in their order, and the task linked to nothing.
pub remove_ready_queue-IsReadyQueue :
    (t : ℕ) (k : Kernel) (xs ys : List ℕ)
    → IsReadyQueue k (xs ++ t ∷ ys)
    → Ensures (λ _ k'. IsReadyQueue k' (xs ++ ys) × IsDetached k' t) (remove_ready_queue t k)
remove_ready_queue-IsReadyQueue t k xs ys v =
    rw (remove_ok t k xs ys v) (removed-IsReadyQueue t k xs ys v, removed-IsDetached t k xs ys v)

-- `pop_ready_task` returns the task that has waited longest and takes it out; from an empty queue
-- it returns the null pointer and changes nothing.
pub pop_ready_task_lem :
    (k : Kernel) (xs : List ℕ)
    → IsReadyQueue k xs
    → Ensures
        (λ t k'.
          (t ≡ first xs 0)
          × IsReadyQueue k' (drop_first xs)
          × ((p : ℕ) → (k'.tasks p).state ≡ (k.tasks p).state)
          × (xs ≡ [] → k' ≡ k)
          × (xs ≢ [] → IsDetached k' t))
        (pop_ready_task k)
unfolding pop_ready_task
pop_ready_task_lem k [] v =
    let empty : (k.ready_queue.head == 0) ≡ true =
      subst (λ h. (h == 0) ≡ true) (sym v.head_first) refl in
    rw empty (refl, v, λ p. refl, λ e. refl, λ e. absurd (e refl))
pop_ready_task_lem k (x ∷ xs) v =
    let more : (k.ready_queue.head == 0) ≡ false =
      subst (λ h. (h == 0) ≡ false) (sym v.head_first) (==-false x 0 v.linked.0) in
    let taken : remove_ready_queue k.ready_queue.head k ≡ ok tt (removed x k) =
      subst (λ h. remove_ready_queue h k ≡ ok tt (removed x k)) (sym v.head_first)
        (remove_ok x k [] xs v) in
    rw (more, taken)
      (
        v.head_first,
        removed-IsReadyQueue x k [] xs v,
        removed_state x k,
        λ e. cc,
        λ e. subst (IsDetached (removed x k)) (sym v.head_first) (removed-IsDetached x k [] xs v),
      )
