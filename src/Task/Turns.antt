-- ===== src/Task/Turns.antt =====
-- Tasks that take turns: each yields, and the loop in `idle` of src/kernel/task.cpp gives the core on.
use caprese.Common.{ℕ, zero, suc, ◌≡◌, sym, subst, List, [], ◌∷◌, ◌++◌, length, false}
use mathlib.Core.List.{append_assoc}
use caprese.Chain.{has}
use caprese.Kernel.{Kernel, TaskState, Ensures, Ensures-bind, Ensures-mono, Cmd, pure, ◌>>=◌}
use caprese.Task.Life.{Switch, yield, idle_round}
use caprese.Task.Queue.{IsReadyQueue}
use caprese.Task.States.{IsParked}
use caprese.Task.RoundRobin.{IsScheduled, idle_round-IsScheduled, yield-IsReadyQueue}

-- The task that has the core yields, `n` times.
abbrev pub turns : ℕ → Cmd Switch
turns zero = pure Switch.returned
turns (suc n) = do _ ← yield; _ ← idle_round; turns n

-- The task `t` has the core, and `xs` wait for it.
abbrev pub Runs : ℕ → List ℕ → Kernel → Type 0
Runs t xs k = ((k.tasks t).state ≡ TaskState.running) × IsScheduled k t xs

one_turn :
    (Q : Switch → Kernel → Type 0) (f : Cmd Switch) (k : Kernel) (c t : ℕ) (xs : List ℕ)
    → IsScheduled k c (t ∷ xs)
    → ((k' : Kernel) → Runs t (xs ++ c ∷ []) k' → Ensures Q (f k'))
    → Ensures Q ((do _ ← yield; _ ← idle_round; f) k)
one_turn Q f k c t xs v h =
    Ensures-bind _ _ (yield k) _
      (yield-IsReadyQueue k (t ∷ xs) v.queue (subst (IsParked k) (sym v.current) v.parked)
        (subst (λ a. has a (t ∷ xs) ≡ false) (sym v.current) v.apart))
      (λ _ k' q.
        Ensures-bind _ _ (idle_round k') _
          (idle_round-IsScheduled k' t (xs ++ c ∷ [])
            (subst (λ a. IsReadyQueue k' (t ∷ xs ++ a ∷ [])) v.current q.2))
          (λ _ k'' p. h k'' (p.1, p.2)))

-- Where each task yields when it has the core, a task of the ready queue gets it after as many
-- turns as its place in the queue says: it runs then, the tasks behind it come next, and behind
-- them those that have had their turns, in the order in which they had them.
pub turns-reach :
    (before : List ℕ) (k : Kernel) (c t : ℕ) (behind : List ℕ)
    → IsScheduled k c (before ++ t ∷ behind)
    → Ensures (λ _ k'. Runs t (behind ++ c ∷ before) k') (turns (suc (length before)) k)
turns-reach [] k c t behind v = one_turn _ (turns 0) k c t behind v (λ k' q. q)
turns-reach (a ∷ before) k c t behind v =
    one_turn _ (turns (suc (length before))) k c a (before ++ t ∷ behind) v λ k' q.
      Ensures-mono _ _ (turns (suc (length before)) k')
        (turns-reach before k' a t (behind ++ c ∷ [])
          (subst (IsScheduled k' a) (append_assoc before (t ∷ behind) (c ∷ [])) q.1))
        (λ r k'' p.
          (p.0, subst (IsScheduled k'' t) (append_assoc behind (c ∷ []) (a ∷ before)) p.1))
