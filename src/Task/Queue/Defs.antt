-- ===== src/Task/Queue/Defs.antt =====
-- The ready queue as the list of tasks that it stands for.
use caprese.Common.{ℕ, ◌≡◌, ◌≢◌, true, List}
use caprese.Chain.{first, last, has, Distinct, Linked}
use caprese.Kernel.{Kernel, TaskState}

abbrev pub prev_ready : Kernel → ℕ → ℕ
prev_ready k p = (k.tasks p).prev_ready_task

abbrev pub next_ready : Kernel → ℕ → ℕ
next_ready k p = (k.tasks p).next_ready_task

-- The ready queue holds the tasks `xs` in this order, and each of them is ready.
pub record IsReadyQueue (k : Kernel) (xs : List ℕ) : Type 0 where
  pub linked : Linked (prev_ready k) (next_ready k) 0 xs 0
  pub distinct : Distinct xs
  pub head_first : k.ready_queue.head ≡ first xs 0
  pub tail_last : k.ready_queue.tail ≡ last 0 xs
  pub all_ready : (p : ℕ) → has p xs ≡ true → (k.tasks p).state ≡ TaskState.ready

-- A ready task that stands in no queue.
pub record IsDetached (k : Kernel) (t : ℕ) : Type 0 where
  pub not_null : t ≢ 0
  pub is_ready : (k.tasks t).state ≡ TaskState.ready
  pub no_prev : (k.tasks t).prev_ready_task ≡ 0
  pub no_next : (k.tasks t).next_ready_task ≡ 0
