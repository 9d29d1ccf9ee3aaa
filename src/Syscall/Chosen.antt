-- ===== src/Syscall/Chosen.antt =====
-- The system call that a task's registers ask for.
use caprese.Common.{ℕ, ◌+◌, ◌/◌, ◌%◌, ◌^◌, ◌≡◌, ◌≢◌, ap, ◌∙◌, arith}
use mathlib.Core.List.{Memᴰ}
use caprese.Kernel.{Kernel, ok, and_then, get_task}
use caprese.Syscall.Dispatch.{
  Namespace, Syscall, sysns_table, namespace_index, call_index, find_handler,
}
use caprese.Syscall.Registers.{get_syscall_args}
use caprese.Syscall.Invoke.{Platform, run_syscall, answer_from, invoke_syscall}
use caprese.Syscall.Numbers.{IsNumbering, find_handler_iff}

-- The frame of the current task.
abbrev pub current_frame : Kernel → ℕ → ℕ
current_frame k = (k.tasks k.current_task).frame

get_syscall_args_ok :
    (k : Kernel)
    → k.current_task ≢ 0
    → get_syscall_args k
      ≡ ok (record { args = λ i. current_frame k (9 + i); code = current_frame k 16 }) k
unfolding get_syscall_args get_task
get_syscall_args_ok k running = ground arith

-- With numbers that give no two namespaces, and no two calls of a namespace, the same place,
-- when the running task's register a7 holds a code whose bits 16 to 31 are the number of a
-- namespace and whose lowest 16 bits are those of the number of a function in its table,
-- `invoke_syscall` does what that function does with the words in a0 to a6, and nothing before
-- or after.
pub invoke_syscall-run_syscall :
    (l : Platform) (fuel : ℕ) (s : Namespace) (c : Syscall) (k : Kernel)
    → IsNumbering l.syscall_numbers
    → k.current_task ≢ 0
    → Memᴰ c (sysns_table s)
    → namespace_index l.syscall_numbers s ≡ current_frame k 16 / 2 ^ 16 % 2 ^ 16
    → call_index l.syscall_numbers c ≡ current_frame k 16 % 2 ^ 16
    → invoke_syscall l fuel k ≡ run_syscall l fuel c (λ i. current_frame k (9 + i)) k
unfolding invoke_syscall
invoke_syscall-run_syscall l fuel s c k w running listed of_space of_call =
    ap (λ r. and_then r (λ a. answer_from l fuel a.args (find_handler l.syscall_numbers a.code)))
      (get_syscall_args_ok k running)
    ∙ ap (λ t. answer_from l fuel (λ i. current_frame k (9 + i)) t k)
        ((find_handler_iff l.syscall_numbers (current_frame k 16) c w).1
          (s, listed, of_space, of_call))
