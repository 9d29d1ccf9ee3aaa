-- ===== src/Task/Waiting/Push.antt =====
-- Putting a task at the end of the queue of an endpoint.
use caprese.Common.{
  ℕ, ◌≡◌, ◌≢◌, refl, sym, ap, ◌∙◌, ==-refl, inl, inr, Bool-cases, true, false, List, [], ◌∷◌, ◌++◌,
  arith, ◌==◌, if◌then◌else◌, update,
}
use caprese.Chain.{
  has, push_back-Linked, has-append, last-ne_null, ne_last, last-append, Distinct-append_one,
}
use caprese.Kernel.{Kernel, Task, TaskState, TaskQueue, ok, get_task, Ensures}
use caprese.Task.Queue.Fields.{
  prev-with_next_waiting, next-with_next_waiting, prev-with_prev_waiting, next-with_prev_waiting,
  state-with_next_waiting, state-with_prev_waiting,
}
use caprese.Task.Waiting.Defs.{prev_waiting, next_waiting, IsWaitingQueue, IsUnqueued}
use caprese.Task.ReadyQueue.{with_next_waiting, with_prev_waiting, push_waiting_queue}

-- A task but for its place in the queue of an endpoint.
abbrev pub unlinked : Task → Task
unlinked t = record t { prev_waiting_task = 0; next_waiting_task = 0 }

unlinked-with_next_waiting :
    (p q : ℕ) (ts : ℕ → Task) (a : ℕ) → unlinked (with_next_waiting p q ts a) ≡ unlinked (ts a)
unfolding with_next_waiting update
unlinked-with_next_waiting p q ts a = ground arith

unlinked-with_prev_waiting :
    (p q : ℕ) (ts : ℕ → Task) (a : ℕ) → unlinked (with_prev_waiting p q ts a) ≡ unlinked (ts a)
unfolding with_prev_waiting update
unlinked-with_prev_waiting p q ts a = ground arith

pub pushed : TaskQueue → ℕ → Kernel → Kernel
pushed q t k =
    if q.head == 0
    then k
    else record k { tasks = with_prev_waiting t q.tail (with_next_waiting q.tail t k.tasks) }

abbrev pub longer_queue : TaskQueue → ℕ → TaskQueue
longer_queue q t = if q.head == 0 then record { head = t; tail = t } else record q { tail = t }

push_waiting_queue_ok :
    (q : TaskQueue) (t : ℕ) (k : Kernel)
    → IsUnqueued k t
    → (q.head ≢ 0 → q.tail ≢ 0)
    → push_waiting_queue q t k ≡ ok (longer_queue q t) (pushed q t k)
unfolding push_waiting_queue pushed get_task
push_waiting_queue_ok q t k d h = ground arith

module _ (q : TaskQueue) (t : ℕ) (k : Kernel) (p : ℕ) where
  pushed_state : ((pushed q t k).tasks p).state ≡ (k.tasks p).state
  unfolding pushed
  pushed_state =
      let ts = with_next_waiting q.tail t k.tasks in
      ground
        (arith, state-with_prev_waiting t q.tail ts p, state-with_next_waiting q.tail t k.tasks p)

  pushed_prev :
      q.head ≢ 0 → prev_waiting (pushed q t k) p ≡ (if p == t then q.tail else prev_waiting k p)
  unfolding pushed
  pushed_prev h =
      let ts = with_next_waiting q.tail t k.tasks in
      ground
        (arith, prev-with_prev_waiting t q.tail ts p, prev-with_next_waiting q.tail t k.tasks p)

  pushed_next :
      q.head ≢ 0 → next_waiting (pushed q t k) p ≡ (if p == q.tail then t else next_waiting k p)
  unfolding pushed
  pushed_next h =
      let ts = with_next_waiting q.tail t k.tasks in
      ground
        (arith, next-with_prev_waiting t q.tail ts p, next-with_next_waiting q.tail t k.tasks p)

pushed_empty : (q : TaskQueue) (t : ℕ) (k : Kernel) → q.head ≡ 0 → (pushed q t k).tasks ≡ k.tasks
unfolding pushed
pushed_empty q t k h = rw h

-- What a push does to the ends of the queue.
pushed_ends :
    (q : TaskQueue) (t : ℕ) (k : Kernel)
    → ((longer_queue q t).tail ≡ t)
      × ((longer_queue q t).head ≡ (if q.head == 0 then t else q.head))
unfolding pushed
pushed_ends q t k = ground arith

all_waiting-append :
    (t : ℕ) (k : Kernel) (xs : List ℕ)
    → ((p : ℕ) → has p xs ≡ true → (k.tasks p).state ≡ TaskState.waiting)
    → (k.tasks t).state ≡ TaskState.waiting
    → (p : ℕ) → has p (xs ++ t ∷ []) ≡ true
    → (k.tasks p).state ≡ TaskState.waiting
all_waiting-append t k xs all one p h = elim (Bool-cases (has p xs)) [
  | inl old ↦ all p old
  | inr new ↦ let e : p ≡ t = ground (arith, has-append p xs (t ∷ [])) in rw e one
]

pushed-IsWaitingQueue :
    (q : TaskQueue) (t : ℕ) (k : Kernel) (xs : List ℕ)
    → IsWaitingQueue k q xs
    → IsUnqueued k t
    → has t xs ≡ false
    → IsWaitingQueue (pushed q t k) (longer_queue q t) (xs ++ t ∷ [])
pushed-IsWaitingQueue q t k [] v d new = record {
  linked = (
    d.not_null,
    ap (λ ts. (ts t).prev_waiting_task) (pushed_empty q t k v.head_first) ∙ d.no_prev,
    ap (λ ts. (ts t).next_waiting_task) (pushed_empty q t k v.head_first) ∙ d.no_next,
    tt,
  );
  distinct = (refl, tt);
  head_first = ground (arith, pushed_ends q t k);
  tail_last = ground (arith, pushed_ends q t k);
  all_waiting =
      λ p h. pushed_state q t k p ∙ all_waiting-append t k [] v.all_waiting d.is_waiting p h;
}
pushed-IsWaitingQueue q t k (x ∷ xs) v d new = record {
  linked =
      push_back-Linked (prev_waiting k) (next_waiting k) (prev_waiting (pushed q t k))
        (next_waiting (pushed q t k)) t (x ∷ xs) v.linked v.distinct d.not_null
        (pushed_prev q t k t (λ e. v.linked.0 (sym v.head_first ∙ e)) ∙ rw (==-refl t, v.tail_last))
        (ground (arith, pushed_next q t k t, pushed_ends q t k, ne_last t x xs new))
        (λ p h. ground (arith, pushed_prev q t k p)) (λ p h. ground (arith, pushed_next q t k p));
  distinct = Distinct-append_one t (x ∷ xs) v.distinct new;
  head_first = ground (arith, pushed_ends q t k);
  tail_last = ground (arith, pushed_ends q t k, last-append 0 (x ∷ xs) (t ∷ []));
  all_waiting =
      λ p h. pushed_state q t k p ∙ all_waiting-append t k (x ∷ xs) v.all_waiting d.is_waiting p h;
}

unlinked-pushed :
    (q : TaskQueue) (t : ℕ) (k : Kernel) (p : ℕ)
    → unlinked ((pushed q t k).tasks p) ≡ unlinked (k.tasks p)
unfolding pushed
unlinked-pushed q t k p =
    let ts = with_next_waiting q.tail t k.tasks in
    ground (
      arith,
      unlinked-with_prev_waiting t q.tail ts p,
      unlinked-with_next_waiting q.tail t k.tasks p,
    )

tail_set :
    (q : TaskQueue) (k : Kernel) (xs : List ℕ) → IsWaitingQueue k q xs → q.head ≢ 0 → q.tail ≢ 0
tail_set q k [] v h = absurd (h v.head_first)
tail_set q k (y ∷ ys) v h = λ z.
    ground (arith, last-ne_null (prev_waiting k) (next_waiting k) y 0 0 ys v.linked, v.tail_last)

-- `push_waiting_queue` of a waiting task that stands in no queue puts it at the end of a
-- well-linked queue, behind all the others, and changes no task's state.
pub push_waiting_queue-IsWaitingQueue :
    (q : TaskQueue) (t : ℕ) (k : Kernel) (xs : List ℕ)
    → IsWaitingQueue k q xs
    → IsUnqueued k t
    → has t xs ≡ false
    → Ensures
        (λ q' k'.
          IsWaitingQueue k' q' (xs ++ t ∷ []) × ((p : ℕ) → (k'.tasks p).state ≡ (k.tasks p).state))
        (push_waiting_queue q t k)
push_waiting_queue-IsWaitingQueue q t k xs v d new =
    rw (push_waiting_queue_ok q t k d (tail_set q k xs v))
      (pushed-IsWaitingQueue q t k xs v d new, pushed_state q t k)

-- The same push keeps all else that the tasks hold.
pub push_waiting_queue-unlinked :
    (q : TaskQueue) (t : ℕ) (k : Kernel) (xs : List ℕ)
    → IsWaitingQueue k q xs
    → IsUnqueued k t
    → has t xs ≡ false
    → Ensures
        (λ q' k'.
          IsWaitingQueue k' q' (xs ++ t ∷ [])
          × ((p : ℕ) → unlinked (k'.tasks p) ≡ unlinked (k.tasks p)))
        (push_waiting_queue q t k)
push_waiting_queue-unlinked q t k xs v d new =
    rw (push_waiting_queue_ok q t k d (tail_set q k xs v))
      (pushed-IsWaitingQueue q t k xs v d new, unlinked-pushed q t k)
