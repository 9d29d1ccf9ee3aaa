-- ===== src/Task/Waiting/Defs.antt =====
-- The queue of an endpoint as the list of tasks that it stands for.
use caprese.Common.{ℕ, ◌≡◌, ◌≢◌, true, List}
use caprese.Chain.{first, last, has, Distinct, Linked}
use caprese.Kernel.{Kernel, TaskState, TaskQueue}

abbrev pub prev_waiting : Kernel → ℕ → ℕ
prev_waiting k p = (k.tasks p).prev_waiting_task

abbrev pub next_waiting : Kernel → ℕ → ℕ
next_waiting k p = (k.tasks p).next_waiting_task

-- The queue `q` holds the tasks `xs` in this order, and each of them waits.
pub record IsWaitingQueue (k : Kernel) (q : TaskQueue) (xs : List ℕ) : Type 0 where
  pub linked : Linked (prev_waiting k) (next_waiting k) 0 xs 0
  pub distinct : Distinct xs
  pub head_first : q.head ≡ first xs 0
  pub tail_last : q.tail ≡ last 0 xs
  pub all_waiting : (p : ℕ) → has p xs ≡ true → (k.tasks p).state ≡ TaskState.waiting

-- A waiting task that stands in no queue of an endpoint.
pub record IsUnqueued (k : Kernel) (t : ℕ) : Type 0 where
  pub not_null : t ≢ 0
  pub is_waiting : (k.tasks t).state ≡ TaskState.waiting
  pub no_prev : (k.tasks t).prev_waiting_task ≡ 0
  pub no_next : (k.tasks t).next_waiting_task ≡ 0
