-- ===== src/Task/Queue/Push.antt =====
-- Putting a task at the end of the ready queue.
use caprese.Common.{
  ℕ, ◌≡◌, ◌≢◌, refl, sym, ap, ◌∙◌, ==-refl, inl, inr, Bool-cases, true, false, List, [], ◌∷◌, ◌++◌,
  arith, ◌==◌, if◌then◌else◌,
}
use caprese.Chain.{
  has, push_back-Linked, has-append, last-ne_null, ne_last, last-append, Distinct-append_one,
}
use caprese.Kernel.{Kernel, TaskState, ok, get_task, Ensures}
use caprese.Task.Queue.Fields.{
  prev-with_next_ready, next-with_next_ready, prev-with_prev_ready, next-with_prev_ready,
  state-with_next_ready, state-with_prev_ready, other-with_next_ready, other-with_prev_ready,
  ipc_state-with_next_ready, ipc_state-with_prev_ready,
}
use caprese.Task.Queue.Defs.{prev_ready, next_ready, IsReadyQueue, IsDetached}
use caprese.Task.ReadyQueue.{with_next_ready, with_prev_ready, push_ready_queue}

pushed : ℕ → Kernel → Kernel
pushed t k =
    let q = k.ready_queue in
    if q.head == 0 then record k { ready_queue = record { head = t; tail = t } } else record k {
      tasks = with_prev_ready t q.tail (with_next_ready q.tail t k.tasks);
      ready_queue = record q { tail = t };
    }

push_ready_queue_ok :
    (t : ℕ) (k : Kernel)
    → IsDetached k t
    → (k.ready_queue.head ≢ 0 → k.ready_queue.tail ≢ 0)
    → push_ready_queue t k ≡ ok tt (pushed t k)
unfolding push_ready_queue pushed get_task
push_ready_queue_ok t k d h = ground arith

module _ (t : ℕ) (k : Kernel) (p : ℕ) where
  pushed_state : ((pushed t k).tasks p).state ≡ (k.tasks p).state
  unfolding pushed
  pushed_state =
      let ts = with_next_ready k.ready_queue.tail t k.tasks in
      ground (
        arith,
        state-with_prev_ready t k.ready_queue.tail ts p,
        state-with_next_ready k.ready_queue.tail t k.tasks p,
      )

  pushed_prev :
      k.ready_queue.head ≢ 0
      → prev_ready (pushed t k) p ≡ (if p == t then k.ready_queue.tail else prev_ready k p)
  unfolding pushed
  pushed_prev h =
      let ts = with_next_ready k.ready_queue.tail t k.tasks in
      ground (
        arith,
        prev-with_prev_ready t k.ready_queue.tail ts p,
        prev-with_next_ready k.ready_queue.tail t k.tasks p,
      )

  pushed_next :
      k.ready_queue.head ≢ 0
      → next_ready (pushed t k) p ≡ (if p == k.ready_queue.tail then t else next_ready k p)
  unfolding pushed
  pushed_next h =
      let ts = with_next_ready k.ready_queue.tail t k.tasks in
      ground (
        arith,
        next-with_prev_ready t k.ready_queue.tail ts p,
        next-with_next_ready k.ready_queue.tail t k.tasks p,
      )

pushed_empty : (t : ℕ) (k : Kernel) → k.ready_queue.head ≡ 0 → (pushed t k).tasks ≡ k.tasks
unfolding pushed
pushed_empty t k h = rw h

-- What a push does to the ends of the queue.
pushed_ends :
    (t : ℕ) (k : Kernel)
    → ((pushed t k).ready_queue.tail ≡ t)
      × ((pushed t k).ready_queue.head
          ≡ (if k.ready_queue.head == 0 then t else k.ready_queue.head))
unfolding pushed
pushed_ends t k = ground arith

all_ready-append :
    (t : ℕ) (k : Kernel) (xs : List ℕ)
    → ((p : ℕ) → has p xs ≡ true → (k.tasks p).state ≡ TaskState.ready)
    → (k.tasks t).state ≡ TaskState.ready
    → (p : ℕ) → has p (xs ++ t ∷ []) ≡ true
    → (k.tasks p).state ≡ TaskState.ready
all_ready-append t k xs all one p h = elim (Bool-cases (has p xs)) [
  | inl old ↦ all p old
  | inr new ↦ let e : p ≡ t = ground (arith, has-append p xs (t ∷ [])) in rw e one
]

pushed-IsReadyQueue :
    (t : ℕ) (k : Kernel) (xs : List ℕ)
    → IsReadyQueue k xs
    → IsDetached k t
    → has t xs ≡ false
    → IsReadyQueue (pushed t k) (xs ++ t ∷ [])
pushed-IsReadyQueue t k [] v d new = record {
  linked = (
    d.not_null,
    ap (λ ts. (ts t).prev_ready_task) (pushed_empty t k v.head_first) ∙ d.no_prev,
    ap (λ ts. (ts t).next_ready_task) (pushed_empty t k v.head_first) ∙ d.no_next,
    tt,
  );
  distinct = (refl, tt);
  head_first = ground (arith, pushed_ends t k);
  tail_last = ground (arith, pushed_ends t k);
  all_ready = λ p h. pushed_state t k p ∙ all_ready-append t k [] v.all_ready d.is_ready p h;
}
pushed-IsReadyQueue t k (x ∷ xs) v d new = record {
  linked =
      push_back-Linked (prev_ready k) (next_ready k) (prev_ready (pushed t k))
        (next_ready (pushed t k)) t (x ∷ xs) v.linked v.distinct d.not_null
        (pushed_prev t k t (λ e. v.linked.0 (sym v.head_first ∙ e)) ∙ rw (==-refl t, v.tail_last))
        (ground (arith, pushed_next t k t, pushed_ends t k, ne_last t x xs new))
        (λ p h. ground (arith, pushed_prev t k p)) (λ p h. ground (arith, pushed_next t k p));
  distinct = Distinct-append_one t (x ∷ xs) v.distinct new;
  head_first = ground (arith, pushed_ends t k);
  tail_last = ground (arith, pushed_ends t k, last-append 0 (x ∷ xs) (t ∷ []));
  all_ready = λ p h. pushed_state t k p ∙ all_ready-append t k (x ∷ xs) v.all_ready d.is_ready p h;
}

-- What a push leaves as it was.
pub record IsPush (k k' : Kernel) (t : ℕ) (xs : List ℕ) : Type 0 where
  pub endpoints_kept : k'.endpoints ≡ k.endpoints
  pub others_kept : (p : ℕ) → (p == t) ≡ false → has p xs ≡ false → k'.tasks p ≡ k.tasks p
  pub ipc_kept : (p : ℕ) → (k'.tasks p).ipc_state ≡ (k.tasks p).ipc_state

ne_tail :
    (p : ℕ) (k : Kernel) (xs : List ℕ)
    → IsReadyQueue k xs
    → k.ready_queue.head ≢ 0
    → has p xs ≡ false
    → (p == k.ready_queue.tail) ≡ false
ne_tail p k [] v h out = absurd (h v.head_first)
ne_tail p k (x ∷ xs) v h out = rw v.tail_last (ne_last p x xs out)

pushed-IsPush : (t : ℕ) (k : Kernel) (xs : List ℕ) → IsReadyQueue k xs → IsPush k (pushed t k) t xs
unfolding pushed
pushed-IsPush t k xs v =
    let ts = with_next_ready k.ready_queue.tail t k.tasks in
    record {
      endpoints_kept = ground arith;
      others_kept = λ p ne out. ground (
        arith,
        ne_tail p k xs v,
        other-with_prev_ready t k.ready_queue.tail ts p,
        other-with_next_ready k.ready_queue.tail t k.tasks p,
      );
      ipc_kept = λ p. ground (
        arith,
        ipc_state-with_prev_ready t k.ready_queue.tail ts p,
        ipc_state-with_next_ready k.ready_queue.tail t k.tasks p,
      );
    }

tail_set :
    (k : Kernel) (ys : List ℕ) → IsReadyQueue k ys → k.ready_queue.head ≢ 0 → k.ready_queue.tail ≢ 0
tail_set k [] v h = λ _. h v.head_first
tail_set k (y ∷ ys) v h =
    λ z. ground (arith, v.tail_last, last-ne_null (prev_ready k) (next_ready k) y 0 0 ys v.linked)

-- The same with the rest of the state.
pub push_ready_queue-IsPush :
    (t : ℕ) (k : Kernel) (xs : List ℕ)
    → IsReadyQueue k xs
    → IsDetached k t
    → has t xs ≡ false
    → Ensures (λ _ k'. IsReadyQueue k' (xs ++ t ∷ []) × IsPush k k' t xs) (push_ready_queue t k)
push_ready_queue-IsPush t k xs v d new =
    rw (push_ready_queue_ok t k d (tail_set k xs v))
      (pushed-IsReadyQueue t k xs v d new, pushed-IsPush t k xs v)

-- `push_ready_queue` of a ready task that stands in no queue puts it at the end of a well-linked
-- ready queue, behind all the others, and changes no task's state.
pub push_ready_queue-IsReadyQueue :
    (t : ℕ) (k : Kernel) (xs : List ℕ)
    → IsReadyQueue k xs
    → IsDetached k t
    → has t xs ≡ false
    → Ensures
        (λ _ k'.
          IsReadyQueue k' (xs ++ t ∷ []) × ((p : ℕ) → (k'.tasks p).state ≡ (k.tasks p).state))
        (push_ready_queue t k)
push_ready_queue-IsReadyQueue t k xs v d new =
    rw (push_ready_queue_ok t k d (tail_set k xs v))
      (pushed-IsReadyQueue t k xs v d new, pushed_state t k)
