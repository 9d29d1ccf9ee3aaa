-- ===== src/Trap/Calls.antt =====
-- A system call from the trap to the return to user code.
use mathlib.Core.List.{Memᴰ}
use caprese.Common.{ℕ, ◌+◌, ◌/◌, ◌%◌, ◌^◌, ◌≡◌, ◌≢◌, refl, update, arith}
use caprese.Config.{u64, page_size}
use caprese.Kernel.{Kernel, Error, ok, Ensures, and_then, get_task, put_task}
use caprese.Syscall.{
  Namespace, Syscall, sysns_table, namespace_index, call_index, Sysret, Answer, Platform,
  run_syscall, invoke_syscall,
}
use caprese.Syscall.Numbers.{IsNumbering}
use caprese.Syscall.Chosen.{current_frame, invoke_syscall-run_syscall}
use caprese.Trap.Handler.{
  frame_a0, frame_a1, frame_sepc, frame_stack, scause_environment_call_from_u_mode, TrapEnd,
  return_to_user_mode, after_call, write_answer, user_trap,
}

-- `k'` is `k`, with the answer `r` in the registers of the current task.
pub record Answers (code : Error → ℕ) (r : Sysret) (k k' : Kernel) : Type 0 where
  pub current : k'.current_task ≡ k.current_task
  pub result : current_frame k' frame_a0 ≡ r.result
  pub error : current_frame k' frame_a1 ≡ code r.error
  pub place : current_frame k' frame_sepc ≡ u64 (current_frame k frame_sepc + 4)
  pub others :
      (i : ℕ)
      → i ≢ frame_a0
      → i ≢ frame_a1
      → i ≢ frame_sepc
      → i ≢ frame_stack
      → current_frame k' i ≡ current_frame k i
  pub rest : k' ≡ record k { tasks = k'.tasks }
  pub other_tasks : (t : ℕ) → t ≢ k.current_task → k'.tasks t ≡ k.tasks t

-- The kernel with another frame of the current task.
abbrev with_frame : (ℕ → ℕ) → Kernel → Kernel
with_frame f k = record k {
  tasks = update k.tasks k.current_task (record (k.tasks k.current_task) { frame = f });
}

abbrev frame_after : (Error → ℕ) → Sysret → (ℕ → ℕ) → ℕ → ℕ
frame_after code r f =
    let g = update (update f frame_a0 r.result) frame_a1 (code r.error) in
    update g frame_sepc (u64 (g frame_sepc + 4))

write_answer_run :
    (code : Error → ℕ) (r : Sysret) (k : Kernel)
    → k.current_task ≢ 0
    → write_answer code r k ≡ ok tt (with_frame (frame_after code r (current_frame k)) k)
unfolding get_task put_task
write_answer_run code r k ne = ground arith

return_run :
    (k : Kernel)
    → k.current_task ≢ 0
    → return_to_user_mode k
      ≡ ok TrapEnd.user_mode
          (with_frame (update (current_frame k) frame_stack (u64 (k.current_task + page_size))) k)
unfolding return_to_user_mode get_task put_task
return_run k ne = ground arith

after_call-Answers :
    (code : Error → ℕ) (r : Sysret) (k : Kernel)
    → k.current_task ≢ 0
    → Ensures
        (λ e k'. (e ≡ TrapEnd.user_mode) × Answers code r k k')
        (after_call code (Answer.answered r) k)
unfolding update
after_call-Answers code r k ne =
    rw
      (
        write_answer_run code r k ne,
        return_run (with_frame (frame_after code r (current_frame k)) k) ne,
      )
      (
        refl,
        record {
          current = refl;
          result = ground arith;
          error = ground arith;
          place = ground arith;
          others = λ i a b c d. ground arith;
          rest = refl;
          other_tasks = λ t h. ground arith;
        },
      )

user_trap-call :
    (code : Error → ℕ) (l : Platform) (fuel : ℕ) (k : Kernel)
    → user_trap code l fuel scause_environment_call_from_u_mode k
      ≡ and_then (invoke_syscall l fuel k) (after_call code)
unfolding user_trap
user_trap-call code l fuel k = refl

-- With numbers that give no two namespaces, and no two calls of a namespace, the same place:
-- when the running task makes a system call with the number of a function in a7, and the
-- function answers, the trap ends in user mode; in the frame of the task that is current then,
-- a0 and a1 hold the answer, sepc is four further than the call left it, and the other registers
-- but the kernel's stack are as the call left them, as are the other tasks and all else.
pub user_trap-run_syscall :
    (code : Error → ℕ) (l : Platform) (fuel : ℕ) (s : Namespace) (c : Syscall) (k : Kernel)
    (r : Sysret) (k' : Kernel)
    → IsNumbering l.syscall_numbers
    → k.current_task ≢ 0
    → Memᴰ c (sysns_table s)
    → namespace_index l.syscall_numbers s ≡ current_frame k 16 / 2 ^ 16 % 2 ^ 16
    → call_index l.syscall_numbers c ≡ current_frame k 16 % 2 ^ 16
    → run_syscall l fuel c (λ i. current_frame k (9 + i)) k ≡ ok (Answer.answered r) k'
    → k'.current_task ≢ 0
    → Ensures
        (λ e k''. (e ≡ TrapEnd.user_mode) × Answers code r k' k'')
        (user_trap code l fuel scause_environment_call_from_u_mode k)
user_trap-run_syscall code l fuel s c k r k' w running listed of_space of_call answer alive =
    rw
      (
        user_trap-call code l fuel k,
        invoke_syscall-run_syscall l fuel s c k w running listed of_space of_call,
        answer,
      )
      (after_call-Answers code r k' alive)
