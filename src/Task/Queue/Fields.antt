-- ===== src/Task/Queue/Fields.antt =====
-- The fields of the tasks after a link has been written.
use caprese.Common.{ℕ, ◌≡◌, false, arith, ◌==◌, if◌then◌else◌, update}
use caprese.Kernel.{Task}
use caprese.Task.ReadyQueue.{with_next_ready, with_prev_ready, with_next_waiting, with_prev_waiting}

module _ (p q : ℕ) (ts : ℕ → Task) (a : ℕ) where
  pub prev-with_next_ready : (with_next_ready p q ts a).prev_ready_task ≡ (ts a).prev_ready_task
  unfolding with_next_ready update
  prev-with_next_ready = ground arith

  pub next-with_next_ready :
      (with_next_ready p q ts a).next_ready_task ≡ (if a == p then q else (ts a).next_ready_task)
  unfolding with_next_ready update
  next-with_next_ready = ground arith

  pub state-with_next_ready : (with_next_ready p q ts a).state ≡ (ts a).state
  unfolding with_next_ready update
  state-with_next_ready = ground arith

  pub prev-with_prev_ready :
      (with_prev_ready p q ts a).prev_ready_task ≡ (if a == p then q else (ts a).prev_ready_task)
  unfolding with_prev_ready update
  prev-with_prev_ready = ground arith

  pub next-with_prev_ready : (with_prev_ready p q ts a).next_ready_task ≡ (ts a).next_ready_task
  unfolding with_prev_ready update
  next-with_prev_ready = ground arith

  pub state-with_prev_ready : (with_prev_ready p q ts a).state ≡ (ts a).state
  unfolding with_prev_ready update
  state-with_prev_ready = ground arith

  pub prev-with_next_waiting :
      (with_next_waiting p q ts a).prev_waiting_task ≡ (ts a).prev_waiting_task
  unfolding with_next_waiting update
  prev-with_next_waiting = ground arith

  pub next-with_next_waiting :
      (with_next_waiting p q ts a).next_waiting_task
      ≡ (if a == p then q else (ts a).next_waiting_task)
  unfolding with_next_waiting update
  next-with_next_waiting = ground arith

  pub state-with_next_waiting : (with_next_waiting p q ts a).state ≡ (ts a).state
  unfolding with_next_waiting update
  state-with_next_waiting = ground arith

  pub prev-with_prev_waiting :
      (with_prev_waiting p q ts a).prev_waiting_task
      ≡ (if a == p then q else (ts a).prev_waiting_task)
  unfolding with_prev_waiting update
  prev-with_prev_waiting = ground arith

  pub next-with_prev_waiting :
      (with_prev_waiting p q ts a).next_waiting_task ≡ (ts a).next_waiting_task
  unfolding with_prev_waiting update
  next-with_prev_waiting = ground arith

  pub state-with_prev_waiting : (with_prev_waiting p q ts a).state ≡ (ts a).state
  unfolding with_prev_waiting update
  state-with_prev_waiting = ground arith

  pub other-with_next_ready : (a == p) ≡ false → with_next_ready p q ts a ≡ ts a
  unfolding with_next_ready update
  other-with_next_ready h = ground arith

  pub ipc_state-with_next_ready : (with_next_ready p q ts a).ipc_state ≡ (ts a).ipc_state
  unfolding with_next_ready update
  ipc_state-with_next_ready = ground arith

  pub other-with_prev_ready : (a == p) ≡ false → with_prev_ready p q ts a ≡ ts a
  unfolding with_prev_ready update
  other-with_prev_ready h = ground arith

  pub ipc_state-with_prev_ready : (with_prev_ready p q ts a).ipc_state ≡ (ts a).ipc_state
  unfolding with_prev_ready update
  ipc_state-with_prev_ready = ground arith

  pub other-with_next_waiting : (a == p) ≡ false → with_next_waiting p q ts a ≡ ts a
  unfolding with_next_waiting update
  other-with_next_waiting h = ground arith

  pub ipc_state-with_next_waiting : (with_next_waiting p q ts a).ipc_state ≡ (ts a).ipc_state
  unfolding with_next_waiting update
  ipc_state-with_next_waiting = ground arith

  pub other-with_prev_waiting : (a == p) ≡ false → with_prev_waiting p q ts a ≡ ts a
  unfolding with_prev_waiting update
  other-with_prev_waiting h = ground arith

  pub ipc_state-with_prev_waiting : (with_prev_waiting p q ts a).ipc_state ≡ (ts a).ipc_state
  unfolding with_prev_waiting update
  ipc_state-with_prev_waiting = ground arith

  pub prev_ready-with_next_waiting :
      (with_next_waiting p q ts a).prev_ready_task ≡ (ts a).prev_ready_task
  unfolding with_next_waiting update
  prev_ready-with_next_waiting = ground arith

  pub next_ready-with_next_waiting :
      (with_next_waiting p q ts a).next_ready_task ≡ (ts a).next_ready_task
  unfolding with_next_waiting update
  next_ready-with_next_waiting = ground arith

  pub prev_ready-with_prev_waiting :
      (with_prev_waiting p q ts a).prev_ready_task ≡ (ts a).prev_ready_task
  unfolding with_prev_waiting update
  prev_ready-with_prev_waiting = ground arith

  pub next_ready-with_prev_waiting :
      (with_prev_waiting p q ts a).next_ready_task ≡ (ts a).next_ready_task
  unfolding with_prev_waiting update
  next_ready-with_prev_waiting = ground arith
