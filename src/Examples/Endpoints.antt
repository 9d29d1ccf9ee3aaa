-- ===== src/Examples/Endpoints.antt =====
-- Tasks that wait at an endpoint.
use caprese.Common.{ℕ, ◌+◌, ◌≡◌, refl, true, false, [], ◌∷◌, arith, ◌==◌, if◌then◌else◌}
use caprese.Chain.{has, Linked}
use caprese.Kernel.{Kernel, TaskState, IpcState, Error, Ensures, ok, stop, Stop}
use caprese.Task.{Switch, suspend_task, push_waiting_queue, remove_waiting_queue}
use caprese.Task.Queue.{IsReadyQueue}
use caprese.Task.Waiting.{
  prev_waiting, next_waiting, IsWaitingQueue, IsUnqueued, push_waiting_queue-IsWaitingQueue,
  remove_waiting_queue-IsWaitingQueue,
}
use caprese.Ipc.{MessageLayout, Outcome, ipc_cancel, ipc_call, kill_task}
use caprese.Ipc.Release.{Side, IsEndpoint, ipc_cancel-frees}
use caprese.Ipc.Waits.{
  PartnerCall, IsAlone, run_partner, said, partner_call-blocked, partner_call-waits,
}
use caprese.Ipc.KillStops.{kill_task-ipc_call, kill_task-unheard}
use caprese.Ipc.Suspended.{suspend_task-ipc_cancel}
use caprese.Examples.Kernels.{two_senders, quiet, task_in, empty_queue}

abbrev pub layout : MessageLayout
layout = record {
  header_size = 64;
  map_length = 2;
  map_bits = 64;
  msg_type_ipc = 0;
  msg_type_kill = 1;
  decode = λ b. record {
    msg_type = b 0;
    sender_id = b 1;
    receiver_id = b 2;
    payload_length = b 3;
    payload_capacity = b 4;
    data_type_map = λ i. b (5 + i);
  };
  encode = λ h b i. if i == 3 then h.payload_length else b i;
}

senders-IsWaitingQueue : IsWaitingQueue two_senders (record { head = 1; tail = 2 }) (1 ∷ 2 ∷ [])
senders-IsWaitingQueue = record {
  linked = ground arith;
  distinct = ground arith;
  head_first = refl;
  tail_last = refl;
  all_waiting = λ p h. ground arith;
}

push_waiting_queue_example :
    Ensures
      (λ q' k'.
        IsWaitingQueue k' q' (1 ∷ 2 ∷ 3 ∷ [])
        × ((p : ℕ) → (k'.tasks p).state ≡ (two_senders.tasks p).state))
      (push_waiting_queue (record { head = 1; tail = 2 }) 3 two_senders)
push_waiting_queue_example =
    push_waiting_queue-IsWaitingQueue (record { head = 1; tail = 2 }) 3 two_senders (1 ∷ 2 ∷ [])
      senders-IsWaitingQueue
      (record { not_null = ground arith; is_waiting = refl; no_prev = refl; no_next = refl }) refl

remove_waiting_queue_example :
    Ensures
      (λ q' k'. IsWaitingQueue k' q' (2 ∷ []) × IsUnqueued k' 1)
      (remove_waiting_queue (record { head = 1; tail = 2 }) 1 two_senders)
remove_waiting_queue_example =
    remove_waiting_queue-IsWaitingQueue (record { head = 1; tail = 2 }) 1 two_senders [] (2 ∷ [])
      senders-IsWaitingQueue

none_ready : IsReadyQueue two_senders []
none_ready = record {
  linked = tt;
  distinct = tt;
  head_first = refl;
  tail_last = refl;
  all_ready = λ p h. absurd (ground arith);
}

senders-IsEndpoint : IsEndpoint two_senders 64 [] (1 ∷ 2 ∷ [])
senders-IsEndpoint = record {
  not_null = ground arith;
  receiving = record {
    queue = record {
      linked = tt;
      distinct = tt;
      head_first = refl;
      tail_last = refl;
      all_waiting = λ p h. absurd (ground arith);
    };
    no_prev = λ p h. absurd (ground arith);
    no_next = λ p h. absurd (ground arith);
  };
  sending = record {
    queue = senders-IsWaitingQueue;
    no_prev = λ p h. ground arith;
    no_next = λ p h. ground arith;
  };
  apart = λ p h. refl;
}

ipc_cancel_example :
    Ensures
      (λ _ k'.
        IsReadyQueue k' (1 ∷ 2 ∷ [])
        × IsEndpoint k' 64 [] []
        × ((p : ℕ) → has p (1 ∷ 2 ∷ []) ≡ true → (k'.tasks p).ipc_state ≡ IpcState.canceled))
      (ipc_cancel 3 64 two_senders)
ipc_cancel_example =
    ipc_cancel-frees 3 64 two_senders [] (1 ∷ 2 ∷ []) [] (ground arith) (ground arith)
      senders-IsEndpoint none_ready

alone : IsAlone two_senders 64 Side.senders
alone = record {
  endpoint_set = ground arith;
  task_set = ground arith;
  nobody = refl;
  no_prev = refl;
  no_next = refl;
  no_callee = refl;
  no_caller = λ e. refl;
}

blocked_example :
    run_partner layout 1 false 64 (PartnerCall.send_long 4096) two_senders
    ≡ ok
        (Outcome.returns false)
        (record (said (PartnerCall.send_long 4096) two_senders) { errno = Error.blocked })
blocked_example = partner_call-blocked layout 1 64 (PartnerCall.send_long 4096) two_senders alone

waits_example :
    Ensures
      (λ r k'.
        (r ≡ Outcome.sleeps)
        × (k'.current_task ≡ k'.idle_task)
        × IsWaitingQueue k' (k'.endpoints 64).sender_queue (1 ∷ 2 ∷ 8192 ∷ [])
        × ((k'.endpoints 64).receiver_queue ≡ empty_queue))
      (run_partner layout 1 true 64 (PartnerCall.send_long 4096) two_senders)
waits_example =
    partner_call-waits layout 1 64 (PartnerCall.send_long 4096) two_senders (1 ∷ 2 ∷ []) alone
      senders-IsWaitingQueue refl

queued_caller_example :
    Ensures
      (λ r k'.
        (r ≡ Outcome.sleeps)
        × IsWaitingQueue k' (k'.endpoints 64).sender_queue (1 ∷ 2 ∷ 8192 ∷ [])
        × (kill_task layout 8192 0 k' ≡ stop Stop.null_access))
      (ipc_call layout 1 64 4096 two_senders)
queued_caller_example =
    kill_task-ipc_call layout 1 64 4096 0 two_senders (1 ∷ 2 ∷ [])
      (record {
        endpoint_set = ground arith;
        task_set = ground arith;
        no_receiver = refl;
        no_prev = refl;
        no_next = refl;
        no_callee = refl;
      })
      senders-IsWaitingQueue refl

suspended_sender_example :
    Ensures
      (λ r k'.
        (r ≡ Switch.returned)
        × ((k'.endpoints 64).sender_queue.head ≡ 1)
        × Linked (prev_waiting k') (next_waiting k') 0 (1 ∷ 2 ∷ []) 0
        × (ipc_cancel 3 64 k' ≡ stop Stop.assertion))
      (suspend_task 1 two_senders)
suspended_sender_example =
    suspend_task-ipc_cancel 2 64 1 Side.senders two_senders (2 ∷ []) (ground arith)
      senders-IsWaitingQueue refl

-- A suspended task whose death the endpoint 64 is to hear of.
abbrev watched : Kernel
watched = record quiet { tasks = λ _. record (task_in TaskState.suspended) { kill_notify = 64 } }

unheard_example : kill_task layout 1 0 watched ≡ stop Stop.assertion
unheard_example =
    kill_task-unheard layout 1 0 watched (ground arith) (ground arith) (ground arith) (ground arith)
      (ground arith) refl
