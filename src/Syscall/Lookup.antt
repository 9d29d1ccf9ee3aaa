-- ===== src/Syscall/Lookup.antt =====
-- include/kernel/syscall.h: the answers; src/kernel/syscall: how a system call finds the capability that
-- it is about.
use caprese.Common.{ℕ, ◌==◌, Bool, if◌then◌else◌}
use caprese.Cap.{CapType, is_cap}
use caprese.Kernel.{Error, Cmd, ok, pure, refuse, ◌>>=◌, get_slot}
use caprese.CapSpace.{lookup_cap, get_cap_slot_index}
use caprese.Task.{Switch, current}

pub record Sysret : Type 0 where
  pub result : ℕ
  pub error : Error

abbrev pub sysret_s_ok : ℕ → Sysret
sysret_s_ok n = record { result = n; error = Error.s_ok }

abbrev pub sysret_e : Error → Sysret
sysret_e e = record { result = 0; error = e }

-- A call is answered, or answered when the task runs again, or it sleeps or the core leaves it in its
-- midst, and the answer depends on what happens then.
pub data Answer : Type 0 where
  answered : Sysret → Answer
  answered_later : Sysret → Answer
  asleep : Answer

abbrev pub succeed : ℕ → Cmd Answer
succeed n = pure (Answer.answered (sysret_s_ok n))

abbrev pub fail : Error → Cmd Answer
fail e = pure (Answer.answered (sysret_e e))

abbrev pub errno_to_sysret : Cmd Answer
errno_to_sysret k = ok (Answer.answered (sysret_e k.errno)) k

-- A bool as a word.
abbrev pub bit : Bool → ℕ
bit b = if b then 1 else 0

abbrev pub after_switch : Switch → Cmd Answer
after_switch Switch.returned = succeed 0
after_switch Switch.switched = pure (Answer.answered_later (sysret_s_ok 0))

-- The test of a call that fails with errno.
abbrev pub or_errno : Bool → Cmd Answer
or_errno b = if b then succeed 0 else errno_to_sysret

-- The capability of `get_cls()->current_task` with this descriptor.
abbrev pub lookup_own : ℕ → Cmd ℕ
lookup_own cap_desc = do task ← current; lookup_cap task cap_desc

-- The capability that `args[0]` names, which must be of the type.
unfoldable pub lookup_typed_cap : CapType → (ℕ → ℕ) → Cmd ℕ
lookup_typed_cap type arg = do
  slot ← lookup_own (arg 0)
  if slot == 0
      then pure 0
      else do s ← get_slot slot; if is_cap type s.cap then pure slot else refuse Error.cap_type 0

abbrev pub lookup_mem_cap : (ℕ → ℕ) → Cmd ℕ
lookup_mem_cap = lookup_typed_cap CapType.mem

abbrev pub lookup_task_cap : (ℕ → ℕ) → Cmd ℕ
lookup_task_cap = lookup_typed_cap CapType.task

abbrev pub lookup_endpoint_cap : (ℕ → ℕ) → Cmd ℕ
lookup_endpoint_cap = lookup_typed_cap CapType.endpoint

abbrev pub lookup_page_table_cap : (ℕ → ℕ) → Cmd ℕ
lookup_page_table_cap = lookup_typed_cap CapType.page_table

abbrev pub lookup_virt_page_cap : (ℕ → ℕ) → Cmd ℕ
lookup_virt_page_cap = lookup_typed_cap CapType.virt_page

-- `if (slot == nullptr) return errno_to_sysret();`
unfoldable pub found_or_errno : Cmd ℕ → (ℕ → Cmd Answer) → Cmd Answer
found_or_errno find go = do slot ← find; if slot == 0 then errno_to_sysret else go slot

-- The answer is the descriptor of a slot.
abbrev pub answer_index : ℕ → Cmd Answer
answer_index slot = do i ← get_cap_slot_index slot; succeed i
