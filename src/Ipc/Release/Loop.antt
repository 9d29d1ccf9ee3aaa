-- ===== src/Ipc/Release/Loop.antt =====
-- `ipc_cancel` empties both queues of an endpoint.
use caprese.Common.{
  ℕ, zero, suc, ◌<◌, ◌≡◌, ◌≢◌, refl, ap, ◌∙◌, inl, inr, Bool-cases, true, false, List, [], ◌∷◌,
  ◌++◌, length, arith,
}
use caprese.Chain.{has, has-append}
use caprese.Kernel.{Kernel, IpcState, Ensures, Ensures-bind, Ensures-mono}
use caprese.Task.Queue.{IsReadyQueue}
use caprese.Task.Waiting.{removed, rest_queue, remove_ok}
use caprese.Ipc.Cancel.{cancel_receivers, cancel_senders, ipc_cancel}
use caprese.Ipc.Release.Queues.{
  Side, queue_at, drain, drain_run, drain_done, AreWaiting, AreWaiting-frame, AreWaiting-none,
  waiting_not_ready,
}
use caprese.Ipc.Release.Step.{IsDrained, pushed_freed}

append_nil : {A : Type 0} (xs : List A) → xs ++ [] ≡ xs
append_nil [] = refl
append_nil (x ∷ xs) = ap (x ∷◌) (append_nil xs)

append_one : {A : Type 0} (ys : List A) (x : A) (xs : List A) → (ys ++ x ∷ []) ++ xs ≡ ys ++ x ∷ xs
append_one [] x xs = refl
append_one (y ∷ ys) x xs = ap (y ∷◌) (append_one ys x xs)

none_left :
    (side : Side) (ep : ℕ) (k : Kernel) (ys : List ℕ)
    → AreWaiting k (queue_at side (k.endpoints ep)) []
    → IsReadyQueue k ys
    → IsDrained side ep k k [] [] ys
none_left side ep k ys w v = record {
  ready = rw (append_nil ys) v;
  waiting = w;
  other_queue = refl;
  kept = λ p h h'. refl;
  ipc_kept = λ p h. refl;
  ipc_freed = λ p h. absurd (ground arith);
}

outside_parts :
    (p x : ℕ) (xs ys : List ℕ)
    → has p ((x ∷ xs) ++ []) ≡ false
    → has p ys ≡ false
    → (has p (xs ++ []) ≡ false) × (has p (ys ++ x ∷ []) ≡ false) × (has p (x ∷ xs) ≡ false)
outside_parts p x xs ys h h' =
    (ground arith, ground (arith, has-append p ys (x ∷ [])), ground (arith, has-append p xs []))

-- One task is set free, and then the rest.
one_more :
    (side : Side) (ep x : ℕ) (k k' k'' : Kernel) (xs ys : List ℕ)
    → IsDrained side ep k k' (x ∷ []) xs ys
    → IsDrained side ep k' k'' xs [] (ys ++ x ∷ [])
    → IsDrained side ep k k'' (x ∷ xs) [] ys
one_more side ep x k k' k'' xs ys a b = record {
  ready = rw (← append_one ys x xs) b.ready;
  waiting = b.waiting;
  other_queue = b.other_queue ∙ a.other_queue;
  kept =
      λ p h h'. let out = outside_parts p x xs ys h h' in b.kept p out.0 out.1 ∙ a.kept p out.2 h';
  ipc_kept = λ p h. b.ipc_kept p (ground arith) ∙ a.ipc_kept p (ground arith);
  ipc_freed = λ p h. elim (Bool-cases (has p xs)) [
    | inl e ↦ b.ipc_freed p e
    | inr e ↦ b.ipc_kept p e ∙ a.ipc_freed p (ground arith)
  ];
}

drain-IsDrained :
    (side : Side) (fuel ep : ℕ) (k : Kernel) (xs ys : List ℕ)
    → length xs < fuel
    → ep ≢ 0
    → AreWaiting k (queue_at side (k.endpoints ep)) xs
    → IsReadyQueue k ys
    → Ensures (λ _ k'. IsDrained side ep k k' xs [] ys) (drain side fuel ep k)
drain-IsDrained side zero ep k xs ys lt ne w v = absurd (ground arith)
drain-IsDrained side (suc fuel) ep k [] ys lt ne w v =
    rw (drain_done side fuel ep k ne w.queue.head_first) (none_left side ep k ys w v)
drain-IsDrained side (suc fuel) ep k (x ∷ xs) ys lt ne w v =
    rw
      (drain_run side fuel ep x (rest_queue (queue_at side (k.endpoints ep)) x k) k
        (removed (queue_at side (k.endpoints ep)) x k) ne w.queue.linked.0 w.queue.head_first
        (remove_ok (queue_at side (k.endpoints ep)) x k [] xs w.queue))
      (Ensures-bind _ _ _ _ (pushed_freed side ep x k xs ys w v) (λ _ k' step.
        Ensures-mono _ _ (drain side fuel ep k')
          (drain-IsDrained side fuel ep k' xs (ys ++ x ∷ []) (ground arith) ne step.waiting
            step.ready)
          (λ _ k'' rest. one_more side ep x k k' k'' xs ys step rest)))

has_first : (p : ℕ) (xs ys : List ℕ) → has p (xs ++ ys) ≡ true → has p ys ≡ false → has p xs ≡ true
has_first p xs ys h out = ground (arith, has-append p xs ys)

-- The waiting tasks of an endpoint: those that receive, and those that send.
pub record IsEndpoint (k : Kernel) (ep : ℕ) (rs ss : List ℕ) : Type 0 where
  pub not_null : ep ≢ 0
  pub receiving : AreWaiting k (k.endpoints ep).receiver_queue rs
  pub sending : AreWaiting k (k.endpoints ep).sender_queue ss
  pub apart : (p : ℕ) → has p ss ≡ true → has p rs ≡ false

-- Of an endpoint with the tasks `rs` waiting to receive and `ss` waiting to send, none of them
-- in the ready queue `ys`, whose links are all right, `ipc_cancel` ends within one round for
-- each waiting task and one more for each queue: both queues are empty then, all the tasks stand
-- behind `ys` in the ready queue, the receivers before the senders and each group in its order,
-- and the call of each of them is cancelled.
pub ipc_cancel-frees :
    (fuel ep : ℕ) (k : Kernel) (rs ss ys : List ℕ)
    → length rs < fuel
    → length ss < fuel
    → IsEndpoint k ep rs ss
    → IsReadyQueue k ys
    → Ensures
        (λ _ k'.
          IsReadyQueue k' ((ys ++ rs) ++ ss)
          × IsEndpoint k' ep [] []
          × ((p : ℕ) → has p (rs ++ ss) ≡ true → (k'.tasks p).ipc_state ≡ IpcState.canceled))
        (ipc_cancel fuel ep k)
unfolding ipc_cancel
ipc_cancel-frees fuel ep k rs ss ys short_rs short_ss e v =
    Ensures-bind _ _ (cancel_receivers fuel ep k) _
      (drain-IsDrained Side.receivers fuel ep k rs ys short_rs e.not_null e.receiving v)
      (λ _ k' a.
        Ensures-mono _ _ (cancel_senders fuel ep k')
          (drain-IsDrained Side.senders fuel ep k' ss (ys ++ rs) short_ss e.not_null
            (rw a.other_queue (
              AreWaiting-frame k k' _ ss e.sending (λ p h.
                a.kept p (ground (arith, e.apart p h, has-append p rs []))
                  (waiting_not_ready k p ys (e.sending.queue.all_waiting p h) v))))
            a.ready)
          (λ _ k'' b. (
            b.ready,
            record {
              not_null = e.not_null;
              receiving = rw b.other_queue (AreWaiting-none k' k'' _ a.waiting);
              sending = b.waiting;
              apart = λ p h. absurd (ground arith);
            },
            λ p h. elim (Bool-cases (has p ss)) [
              | inl f ↦ b.ipc_freed p f
              | inr f ↦ b.ipc_kept p f ∙ a.ipc_freed p (has_first p rs ss h f)
            ],
          )))
