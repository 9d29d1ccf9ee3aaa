-- ===== src/Examples/Calls.antt =====
-- System calls.
use caprese.Common.{ℕ, ◌+◌, ◌^◌, ◌≡◌, refl, true, false, arith, ◌==◌, if◌then◌else◌}
use caprese.Cap.{Capability, TaskCap}
use caprese.Kernel.{Kernel, Pte, Error, ok, get_slot, get_task, get_entry}
use caprese.Page.{walk, get_next_page, as_map}
use caprese.CapSpace.{lookup_cap, find_page}
use caprese.Syscall.{Answer, sysret_e, lookup_typed_cap, lookup_task_cap}
use caprese.Syscall.Rights.{GuardedCall, run_guarded, guarded_call-refused}
use caprese.Examples.Kernels.{quiet, slot_of, no_entry}
use caprese.Examples.Endpoints.{layout}

-- A task that may be resumed and nothing else.
abbrev resumable_only : TaskCap
resumable_only = record {
  killable = false;
  switchable = false;
  suspendable = false;
  resumable = true;
  register_gettable = false;
  register_settable = false;
  kill_notifiable = false;
  task = 3;
}

abbrev entry_to : ℕ → Pte
entry_to n = record no_entry { v = true; next_page_number = n }

-- Every slot holds that capability, and the page of the capability space is mapped at its place.
abbrev limited_kernel : Kernel
limited_kernel = record quiet {
  slots = λ _. slot_of (Capability.task resumable_only) 0 0;
  tables = λ t _.
      if t == 4096 then entry_to 2 else if t == 2 ^ 37 + 8192 then entry_to 3 else entry_to 4;
}

limited_lookup :
    lookup_task_cap (λ _. 5) limited_kernel ≡ ok (2 ^ 37 + 16384 + 24 + 200) limited_kernel
unfolding lookup_typed_cap lookup_cap find_page get_slot get_task get_entry walk get_next_page
    as_map
limited_lookup = refl

refused_call_example :
    run_guarded layout 31 GuardedCall.kill (λ _. 5) limited_kernel
    ≡ ok (Answer.answered (sysret_e Error.cap_state)) limited_kernel
refused_call_example =
    guarded_call-refused layout 31 GuardedCall.kill (λ _. 5) (2 ^ 37 + 16384 + 24 + 200)
      resumable_only limited_kernel (ground arith) limited_lookup refl refl
