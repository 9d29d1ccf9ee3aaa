-- ===== src/Examples/Queue.antt =====
-- The ready queue.
use caprese.Common.{ℕ, ◌≡◌, refl, [], ◌∷◌, arith}
use caprese.Kernel.{TaskState, Ensures}
use caprese.Task.{push_ready_queue, remove_ready_queue}
use caprese.Task.Queue.{
  IsReadyQueue, IsDetached, push_ready_queue-IsReadyQueue, remove_ready_queue-IsReadyQueue,
}
use caprese.Task.Turns.{turns, Runs, turns-reach}
use caprese.Examples.Kernels.{two_ready}

two_ready-IsReadyQueue : (s : TaskState) → IsReadyQueue (two_ready s) (1 ∷ 2 ∷ [])
two_ready-IsReadyQueue s = record {
  linked = ground arith;
  distinct = ground arith;
  head_first = refl;
  tail_last = refl;
  all_ready = λ p h. ground arith;
}

push_ready_queue_example :
    Ensures
      (λ _ k'.
        IsReadyQueue k' (1 ∷ 2 ∷ 3 ∷ [])
        × ((p : ℕ) → (k'.tasks p).state ≡ ((two_ready TaskState.ready).tasks p).state))
      (push_ready_queue 3 (two_ready TaskState.ready))
push_ready_queue_example =
    push_ready_queue-IsReadyQueue 3 (two_ready TaskState.ready) (1 ∷ 2 ∷ [])
      (two_ready-IsReadyQueue TaskState.ready)
      (record { not_null = ground arith; is_ready = refl; no_prev = refl; no_next = refl }) refl

remove_ready_queue_example :
    Ensures
      (λ _ k'. IsReadyQueue k' (1 ∷ []) × IsDetached k' 2)
      (remove_ready_queue 2 (two_ready TaskState.ready))
remove_ready_queue_example =
    remove_ready_queue-IsReadyQueue 2 (two_ready TaskState.ready) (1 ∷ []) []
      (two_ready-IsReadyQueue TaskState.ready)

turns_example : Ensures (λ _ k'. Runs 2 (8192 ∷ 1 ∷ []) k') (turns 2 (two_ready TaskState.ready))
turns_example = turns-reach (1 ∷ []) (two_ready TaskState.ready) 8192 2 [] (record {
  current = refl;
  queue = two_ready-IsReadyQueue TaskState.ready;
  parked = record { not_null = ground arith; no_prev = refl; no_next = refl };
  apart = refl;
})
